-- ===== src/Ldap/Connector/Failover.antt =====
-- src/connectors/ldap.rs, `connect_forest`: which host is chosen, and which error is reported.
use nexusid_agent.Common.{
  ◌≡◌, refl, sym, ◌∙◌, ap, ◌⊎◌, inl, inr, String, Bool, ◌||◌, Option, none, some, List, [], ◌∷◌,
  ◌++◌, concat, List-cases,
}
use nexusid_agent.Error.{ok, err, AgentError, ldap}
use nexusid_agent.Effect.{M, pure, outcome, bind-ok, bind-err}
use nexusid_agent.Crypto.{Primitives, Cipher}
use nexusid_agent.Ldap.{ForestContext, hosts, Directory, LdapConnector}
use nexusid_agent.Ldap.Connector.{
  is_kerberos, bind_host, try_hosts, forest_base, connect_forest, or_next,
}

module _ (d : Directory) (p : Primitives) (kerberos : Bool) (cipher : Cipher)
    (verify_tls : Bool) where
  open d use {State, Session}

  abbrev pub attempt : ForestContext → String → M State Session
  attempt = bind_host d p kerberos cipher verify_tls

  -- Every one of the hosts fails, each tried in the state that the one before left.
  abbrev pub AllFail : ForestContext → List String → State → State → Type 0
  AllFail ctx [] s t = s ≡ t
  AllFail ctx (h ∷ hs) s t =
      (e : AgentError) × (s' : State) × (attempt ctx h s ≡ (err e, s')) × AllFail ctx hs s' t

  -- `host` is the first that binds.
  pub record Chosen (ctx : ForestContext) (hs : List String) (s t : State) (c : Session)
      : Type 0 where
    pub front : List String
    pub host : String
    pub back : List String
    pub between : State
    pub split : hs ≡ front ++ host ∷ back
    pub failed : AllFail ctx front s between
    pub bound : attempt ctx host between ≡ (ok c, t)

  -- All fail, the last with the error `e`.
  pub record Exhausted (ctx : ForestContext) (hs : List String) (s t : State) (e : AgentError)
      : Type 0 where
    pub front : List String
    pub host : String
    pub between : State
    pub split : hs ≡ front ++ host ∷ []
    pub failed : AllFail ctx front s between
    pub last : attempt ctx host between ≡ (err e, t)

  abbrev hunt : ForestContext → Option AgentError → List String → M State Session
  hunt = try_hosts d p kerberos cipher verify_tls

  hunt_on :
      (ctx : ForestContext) (last : Option AgentError) (h : String) (hs : List String) (s : State)
      {e : AgentError} {s' : State}
      → attempt ctx h s ≡ (err e, s')
      → hunt ctx last (h ∷ hs) s ≡ hunt ctx (some e) hs s'
  unfolding try_hosts
  hunt_on ctx last h hs s a = ap (or_next (λ e s'. hunt ctx (some e) hs s')) a

  hunt_done :
      (ctx : ForestContext) (last : Option AgentError) (h : String) (hs : List String) (s : State)
      {c : Session} {s' : State}
      → attempt ctx h s ≡ (ok c, s')
      → hunt ctx last (h ∷ hs) s ≡ (ok c, s')
  unfolding try_hosts
  hunt_done ctx last h hs s a = ap (or_next (λ e s'. hunt ctx (some e) hs s')) a

  try_hosts_ok :
      (ctx : ForestContext) (last : Option AgentError) (hs : List String) (s t : State)
      (c : Session)
      → hunt ctx last hs s ≡ (ok c, t)
      → Chosen ctx hs s t c
  unfolding try_hosts
  try_hosts_ok ctx last [] s t c r = cc r
  try_hosts_ok ctx last (h ∷ hs) s t c r = elim (outcome (attempt ctx h s)) [
    | inr (c', s', a) ↦ record {
      front = [];
      host = h;
      back = hs;
      between = s;
      split = refl;
      failed = refl;
      bound = a ∙ sym (hunt_done ctx last h hs s a) ∙ r;
    }
    | inl (e, s', a) ↦
        let b = try_hosts_ok ctx (some e) hs s' t c (sym (hunt_on ctx last h hs s a) ∙ r) in
        record {
          front = h ∷ b.front;
          host = b.host;
          back = b.back;
          between = b.between;
          split = ap (λ u. h ∷ u) b.split;
          failed = (e, s', a, b.failed);
          bound = b.bound;
        }
  ]

  try_hosts_err :
      (ctx : ForestContext) (last : Option AgentError) (h : String) (hs : List String) (s t : State)
      (e : AgentError)
      → hunt ctx last (h ∷ hs) s ≡ (err e, t)
      → Exhausted ctx (h ∷ hs) s t e
  unfolding try_hosts
  try_hosts_err ctx last h [] s t e r = elim (outcome (attempt ctx h s)) [
    | inr (c', s', a) ↦ cc (sym (hunt_done ctx last h [] s a) ∙ r)
    | inl (m, s', a) ↦ record {
      front = [];
      host = h;
      between = s;
      split = refl;
      failed = refl;
      last = a ∙ sym (hunt_on ctx last h [] s a) ∙ r;
    }
  ]
  try_hosts_err ctx last h (g ∷ hs) s t e r = elim (outcome (attempt ctx h s)) [
    | inr (c', s', a) ↦ cc (sym (hunt_done ctx last h (g ∷ hs) s a) ∙ r)
    | inl (m, s', a) ↦
        let b =
          try_hosts_err ctx (some m) g hs s' t e (sym (hunt_on ctx last h (g ∷ hs) s a) ∙ r) in
        record {
          front = h ∷ b.front;
          host = b.host;
          between = b.between;
          split = ap (λ u. h ∷ u) b.split;
          failed = (m, s', a, b.failed);
          last = b.last;
        }
  ]

  abbrev connector : ForestContext → Option String → Session → LdapConnector Session
  connector ctx target c = record {
    ldap = c;
    base_dn = forest_base ctx target;
    password_writeback = ctx.use_tls || is_kerberos ctx;
  }

  -- A connection to a forest is the session of the first of its hosts that binds, after all before it
  -- have failed; a failure has tried every host, and its error is the last host's.
  pub connect_forest_outcome :
      (ctx : ForestContext) (target : Option String) (s : State)
      → ((hosts ctx ≡ [])
          × (connect_forest d p kerberos cipher verify_tls ctx target s
              ≡ (err (ldap (concat ("forest '" ∷ ctx.root_dn ∷ "' has no servers" ∷ []))), s)))
        ⊎ ((l : LdapConnector Session) × (t : State) × (connect_forest d p kerberos cipher
                verify_tls ctx target s
              ≡ (ok l, t))
            × Chosen ctx (hosts ctx) s t l.ldap)
        ⊎ ((e : AgentError) × (t : State) × (connect_forest d p kerberos cipher verify_tls ctx
                target s
              ≡ (err e, t))
            × Exhausted ctx (hosts ctx) s t e)
  unfolding connect_forest
  connect_forest_outcome ctx target s = elim (List-cases (hosts ctx)) [
    | inl e ↦ inl (e, rw (connect_forest, e) refl)
    | inr (h, hs, e) ↦ elim (outcome (hunt ctx none (h ∷ hs) s)) [
      | inr (c, t, q) ↦ inr (
          inl (
            connector ctx target c,
            t,
            rw (connect_forest, e)
                (bind-ok (hunt ctx none (h ∷ hs)) (λ c'. pure (connector ctx target c')) s q),
            rw e (try_hosts_ok ctx none (h ∷ hs) s t c q),
          ))
      | inl (m, t, q) ↦ inr (
          inr (
            m,
            t,
            rw (connect_forest, e)
                (bind-err (hunt ctx none (h ∷ hs)) (λ c'. pure (connector ctx target c')) s q),
            rw e (try_hosts_err ctx none h hs s t m q),
          ))
    ]
  ]
