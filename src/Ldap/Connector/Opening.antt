-- ===== src/Ldap/Connector/Opening.antt =====
-- src/connectors/ldap.rs: which calls of a directory set a connection up.
use nexusid_agent.Common.{
  ◌≡◌, refl, ◌∙◌, ap, inl, inr, String, Bool, true, false, Option, none, some, List, [], ◌∷◌, ◌++◌,
  concat, List-cases, if◌then◌else◌,
}
use nexusid_agent.Error.{Result, ok, err, AgentError, ldap}
use nexusid_agent.Effect.{M}
use nexusid_agent.Trace.{
  Adds, Emits, Adds-one, Adds-trans, Emits-if, Emits-raise, Emits-lift, Emits-bind, Emits-pure,
}
use nexusid_agent.Crypto.{Primitives, Cipher, or_err, decrypt_serialized}
use nexusid_agent.Ldap.{
  ForestContext, hosts, Mod, Reply, broke, rejected, success, Directory, settle, fqdn_of,
}
use nexusid_agent.Ldap.Calls.{Call, dialled, bound_as, negotiated, modified, recorded}
use nexusid_agent.Ldap.Connector.{
  dial_url, kerberos_bind, bind_as, connect, service_bind, bind_host, try_hosts, connect_forest,
  is_kerberos, or_next,
}

-- The calls that set a connection up.
pub data IsOpening : Call → Type 0 where
  dials : (url : String) → IsOpening (dialled url)
  authenticates : (dn : String) → IsOpening (bound_as dn)
  negotiates : (fqdn : String) → IsOpening (negotiated fqdn)

settle-state : {A S : Type 0} (f g : String → String) (r : Reply A × S) → (settle f g r).1 ≡ r.1
unfolding settle
settle-state f g (broke e, s) = refl
settle-state f g (rejected e, s) = refl
settle-state f g (success a, s) = refl

pub or_err-eq-ok :
    {A : Type 0} {a : A} (e : AgentError) (o : Option A) → or_err e o ≡ ok a → o ≡ some a
or_err-eq-ok e none q = cc q
or_err-eq-ok e (some b) q = cc q

module _ (d : Directory) (P : Call → Type 0) where
  abbrev pub calls : (recorded d).State → List Call
  calls s = s.1

  -- One call, settled.
  pub settle-Emits :
      {A : Type 0} (f g : String → String)
      (call : (recorded d).State → Reply A × (recorded d).State) (c : Call)
      → P c
      → ((s : (recorded d).State) → calls (call s).1 ≡ calls s ++ c ∷ [])
      → Emits calls P (λ s. settle f g (call s))
  settle-Emits f g call c p e = record {
    at = λ s. Adds-one c (ap calls (settle-state f g (call s)) ∙ e s) p;
  }

  pub modify-Emits :
      (f g : String → String) (c : d.Session) (dn : String) (mods : List Mod)
      → P (modified dn mods)
      → Emits calls P (λ s. settle f g ((recorded d).modify c dn mods s))
  modify-Emits f g c dn mods p = settle-Emits f g _ (modified dn mods) p (λ s. refl)

  or_next-Adds :
      {A : Type 0} {s : (recorded d).State} (k : AgentError → M (recorded d).State A)
      (r : Result AgentError A × (recorded d).State)
      → Adds calls P s r.1
      → ((e : AgentError) → Emits calls P (k e))
      → Adds calls P s (or_next k r).1
  or_next-Adds k (ok a, t) h ek = h
  or_next-Adds k (err e, t) h ek = Adds-trans h ((ek e).at t)

  module _ (opening : (c : Call) → IsOpening c → P c) where
    dial_url-Emits :
        (url : String) (verify_tls : Bool) → Emits calls P (dial_url (recorded d) url verify_tls)
    unfolding dial_url
    dial_url-Emits url verify_tls = record {
      at = λ s. Adds-one (dialled url) refl (opening (dialled url) (dials url));
    }

    kerberos_bind-Emits :
        (kerberos : Bool) (c : d.Session) (url : String)
        → Emits calls P (kerberos_bind (recorded d) kerberos c url)
    unfolding kerberos_bind
    kerberos_bind-Emits true c url =
        settle-Emits _ _ _ (negotiated (fqdn_of url)) (opening _ (negotiates (fqdn_of url)))
          (λ s. refl)
    kerberos_bind-Emits false c url = Emits-raise _

    bind_as-Emits :
        (what refused : String) (c : d.Session) (dn password : String)
        → Emits calls P (bind_as (recorded d) what refused c dn password)
    unfolding bind_as
    bind_as-Emits what refused c dn password =
        settle-Emits _ _ _ (bound_as dn) (opening _ (authenticates dn)) (λ s. refl)

    pub connect-Emits :
        (kerberos : Bool) (url bind_dn bind_password base_dn : String)
        (verify_tls use_kerberos password_writeback : Bool)
        → Emits calls P (
            connect
              (recorded d)
              kerberos
              url
              bind_dn
              bind_password
              base_dn
              verify_tls
              use_kerberos
              password_writeback)
    unfolding connect
    connect-Emits kerberos url bind_dn bind_password base_dn verify_tls use_kerberos
          password_writeback =
        Emits-bind (dial_url (recorded d) url verify_tls) _ (dial_url-Emits url verify_tls) (λ c.
          Emits-bind
            (if use_kerberos
              then kerberos_bind (recorded d) kerberos c url
              else bind_as (recorded d) "bind" "bind rejected" c bind_dn bind_password)
            _
            (Emits-if use_kerberos _ _ (λ _. kerberos_bind-Emits kerberos c url)
              (λ _. bind_as-Emits "bind" "bind rejected" c bind_dn bind_password))
            (λ _. Emits-pure _))

    module _ (p : Primitives) (kerberos : Bool) (cipher : Cipher) (verify_tls : Bool) where
      service_bind-Emits :
          (ctx : ForestContext) (c : d.Session)
          → Emits calls P (service_bind (recorded d) p kerberos cipher verify_tls ctx c)
      unfolding service_bind
      service_bind-Emits ctx c =
          Emits-lift
            (or_err (ldap "forest SIMPLE bind requires a service account") ctx.service_account) _
            (λ principal _.
              Emits-lift
                (or_err (ldap "forest SIMPLE bind requires a service-account password")
                  ctx.service_account_password_encrypted)
                _
                (λ enc _.
                  Emits-lift (decrypt_serialized p cipher enc) _
                    (λ pw _. bind_as-Emits "forest bind" "forest bind rejected" c principal pw)))

      bind_host-Emits :
          (ctx : ForestContext) (host : String)
          → Emits calls P (bind_host (recorded d) p kerberos cipher verify_tls ctx host)
      unfolding bind_host
      bind_host-Emits ctx host =
          let url : String =
            if ctx.use_tls
            then concat ("ldaps://" ∷ host ∷ ":636" ∷ [])
            else concat ("ldap://" ∷ host ∷ ":389" ∷ []) in
          Emits-bind (dial_url (recorded d) url verify_tls) _ (dial_url-Emits url verify_tls) (λ c.
            Emits-bind
              (if is_kerberos ctx
                then kerberos_bind (recorded d) kerberos c url
                else service_bind (recorded d) p kerberos cipher verify_tls ctx c)
              _
              (Emits-if (is_kerberos ctx) _ _ (λ _. kerberos_bind-Emits kerberos c url)
                (λ _. service_bind-Emits ctx c))
              (λ _. Emits-pure _))

      try_hosts-Emits :
          (ctx : ForestContext) (last : Option AgentError) (names : List String)
          → Emits calls P (try_hosts (recorded d) p kerberos cipher verify_tls ctx last names)
      unfolding try_hosts
      try_hosts-Emits ctx last [] = Emits-raise _
      try_hosts-Emits ctx last (host ∷ more) = record {
        at = λ s.
            or_next-Adds
              (λ e s'. try_hosts (recorded d) p kerberos cipher verify_tls ctx (some e) more s')
              (bind_host (recorded d) p kerberos cipher verify_tls ctx host s)
              ((bind_host-Emits ctx host).at s) (λ e. try_hosts-Emits ctx (some e) more);
      }

      pub connect_forest-Emits :
          (ctx : ForestContext) (target : Option String)
          → Emits calls P (connect_forest (recorded d) p kerberos cipher verify_tls ctx target)
      unfolding connect_forest
      connect_forest-Emits ctx target = elim (List-cases (hosts ctx)) [
        | inl e ↦ rw (e, connect_forest) (Emits-raise _)
        | inr (h, hs, e) ↦
            rw (e, connect_forest)
              (Emits-bind (try_hosts (recorded d) p kerberos cipher verify_tls ctx none (h ∷ hs)) _
                (try_hosts-Emits ctx none (h ∷ hs)) (λ c. Emits-pure _))
      ]
