-- ===== src/AdMode/Forests.antt =====
-- src/modes/ad.rs, `route_and_process`: the connections to forests are made once in a pass.
use nexusid_agent.Common.{
  ◌≡◌, refl, sym, ◌∙◌, ap, inl, inr, Option-cases, String, Bool, Option, none, some, List, [], ◌∷◌,
  concat, str_eq, eq_iff, false, Bool-cases,
}
use nexusid_agent.Common.Dict.{Dict, get, get-insert, get-insert_if}
use nexusid_agent.Error.{Result, ok, err, AgentError, ldap, map_err, ok_inj}
use nexusid_agent.Effect.{M, lift, and_then, bind-ok_inv}
use nexusid_agent.Crypto.{Primitives}
use nexusid_agent.Ldap.{ForestContext, Directory, LdapConnector}
use nexusid_agent.Ldap.Connector.{connect_forest}
use nexusid_agent.Server.{Operation}
use nexusid_agent.AdMode.{
  Formats, AdMode, Connections, on_directory, keep_forest, forest_connection, route,
  route_and_process,
}

module _ (d : Directory) (p : Primitives) (f : Formats) (mode : AdMode) (kerberos : Bool) where
  abbrev pub Conns : Type 0
  Conns = Connections d.State (LdapConnector d.Session)

  -- The connection that is used is kept under the forest's id.
  forest_connection-kept :
      (ctx : ForestContext) (target : Option String) (w w' : Conns) (conn : LdapConnector d.Session)
      → forest_connection d p f mode kerberos ctx target w ≡ (ok conn, w')
      → get ctx.forest_id w'.forests ≡ some conn
  unfolding forest_connection keep_forest
  forest_connection-kept ctx target w w' conn q =
      elim (Option-cases (get ctx.forest_id w.forests)) [
        | inr (c, e) ↦
            let q' = (rw (e, forest_connection) at q) in
            ap (λ (t : _ × Conns). get ctx.forest_id t.1.forests) (sym q')
            ∙ e
            ∙ ap some (ok_inj (ap (λ t. t.0) q'))
        | inl e ↦
            let q' = (rw (e, forest_connection) at q) in
            let (c, u, a, b) =
              bind-ok_inv
                (on_directory d p f mode
                  (connect_forest d p kerberos mode.cipher mode.verify_tls ctx target))
                (λ conn. keep_forest d p f mode ctx.forest_id conn) w q' in
            ap (λ (t : _ × Conns). get ctx.forest_id t.1.forests) (sym b)
            ∙ get-insert ctx.forest_id c u.forests
            ∙ ap some (ok_inj (ap (λ t. t.0) b))
      ]

  found_again :
      (ctx : ForestContext) (target : Option String) (w : Conns) (conn : LdapConnector d.Session)
      → get ctx.forest_id w.forests ≡ some conn
      → forest_connection d p f mode kerberos ctx target w ≡ (ok conn, w)
  unfolding forest_connection
  found_again ctx target w conn e = rw (forest_connection, e) refl

  -- A connection under this id stays, whatever the part does.
  abbrev Preserves : {A : Type 0} → String → LdapConnector d.Session → M Conns A → Type 0
  Preserves id conn m =
      (w : Conns) → get id w.forests ≡ some conn → get id (m w).1.forests ≡ some conn

  and_then-Preserves :
      {A B : Type 0} (id : String) (conn : LdapConnector d.Session) (k : A → M Conns B)
      (r : Result AgentError A × Conns)
      → ((a : A) → Preserves id conn (k a))
      → get id r.1.forests ≡ some conn
      → get id (and_then k r).1.forests ≡ some conn
  and_then-Preserves id conn k (ok a, w) later e = later a w e
  and_then-Preserves id conn k (err x, w) later e = e

  lift-Preserves :
      {A : Type 0} (id : String) (conn : LdapConnector d.Session) (r : Result AgentError A)
      → Preserves id conn (lift r)
  lift-Preserves id conn (ok a) w e = e
  lift-Preserves id conn (err x) w e = e

  -- Two ids, of which one has a connection, differ.
  apart :
      (id other : String) (m : Dict (LdapConnector d.Session)) {conn : LdapConnector d.Session}
      → get id m ≡ some conn
      → get other m ≡ none
      → str_eq other id ≡ false
  apart id other m e g = elim (Bool-cases (str_eq other id)) [
    | inr differ ↦ differ
    | inl same ↦ cc (ap (λ k. get k m) ((eq_iff other id).0 same), e, g)
  ]

  forest_connection-Preserves :
      (id : String) (conn : LdapConnector d.Session) (ctx : ForestContext) (target : Option String)
      → Preserves id conn (forest_connection d p f mode kerberos ctx target)
  unfolding forest_connection keep_forest on_directory
  forest_connection-Preserves id conn ctx target w e =
      elim (Option-cases (get ctx.forest_id w.forests)) [
        | inr (c, g) ↦ rw (g, forest_connection) e
        | inl g ↦
            rw (g, forest_connection)
              (and_then-Preserves id conn (keep_forest d p f mode ctx.forest_id) _
                (λ c v h.
                  get-insert_if ctx.forest_id id c v.forests
                  ∙ rw (apart id ctx.forest_id w.forests e g) h)
                e)
      ]

  route-Preserves :
      (id : String) (conn l : LdapConnector d.Session) (op : Operation) (context : Option String)
      → Preserves id conn (route d p f mode kerberos op l context)
  unfolding route on_directory
  route-Preserves id conn l op none w e = e
  route-Preserves id conn l op (some text) w e =
      and_then-Preserves id conn _
        (lift
          (map_err (λ e. ldap (concat ("bad forestContextJson: " ∷ e ∷ [])))
            (f.forest_context text))
          w)
        (λ ctx v h.
          and_then-Preserves id conn _
            (forest_connection d p f mode kerberos ctx op.target_base_dn v) (λ c u g. g)
            (forest_connection-Preserves id conn ctx op.target_base_dn v h))
        (lift-Preserves id conn
          (map_err (λ e. ldap (concat ("bad forestContextJson: " ∷ e ∷ [])))
            (f.forest_context text))
          w e)

  -- The operations that a pass runs in turn.
  abbrev pub served : LdapConnector d.Session → List Operation → Conns → Conns
  served l [] w = w
  served l (op ∷ ops) w = served l ops (route_and_process d p f mode kerberos op l w).1

  served-kept :
      (id : String) (conn l : LdapConnector d.Session) (ops : List Operation) (w : Conns)
      → get id w.forests ≡ some conn
      → get id (served l ops w).forests ≡ some conn
  unfolding route_and_process
  served-kept id conn l [] w e = e
  served-kept id conn l (op ∷ ops) w e =
      served-kept id conn l ops _ (route-Preserves id conn l op op.forest_context_json w e)

  -- Once an operation has a connection to a forest, every later operation with the same forest id gets
  -- the same connection without a call of the directory, whatever operations the pass has run between,
  -- with connections to other forests and without, and whatever base DN and servers the later operation
  -- names.
  pub forest_connection-again :
      (ctx ctx' : ForestContext) (target target' : Option String) (l : LdapConnector d.Session)
      (between : List Operation) (w w' : Conns) {conn : LdapConnector d.Session}
      → ctx'.forest_id ≡ ctx.forest_id
      → forest_connection d p f mode kerberos ctx target w ≡ (ok conn, w')
      → forest_connection d p f mode kerberos ctx' target' (served l between w')
        ≡ (ok conn, served l between w')
  forest_connection-again ctx ctx' target target' l between w w' {conn} same q =
      found_again ctx' target' (served l between w') conn (
        rw same (
          served-kept ctx.forest_id conn l between w'
            (forest_connection-kept ctx target w w' conn q)))
