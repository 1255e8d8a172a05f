-- ===== src/AdMode/Writes.antt =====
-- src/modes/ad.rs: what an operation may do to the directory.
use nexusid_agent.Common.{
  Bool-cases, is_empty, ◌≡◌, refl, inl, inr, String, Bool, Option, none, some, List, [], ◌∷◌,
  str_eq, eq_iff, Option-cases, concat, arith,
}
use nexusid_agent.Common.Dict.{get}
use nexusid_agent.Error.{ok, ldap, map_err}
use nexusid_agent.Effect.{M}
use nexusid_agent.Trace.{
  Emits, Adds-none, Emits-if, Emits-raise, Emits-lift, Emits-bind, Emits-pure,
}
use nexusid_agent.Crypto.{Primitives, or_err, decrypt_serialized}
use nexusid_agent.Ldap.{ForestContext, Directory, LdapConnector}
use nexusid_agent.Ldap.Calls.{Call, recorded}
use nexusid_agent.Ldap.Connector.{
  connect_forest, create_account, enable_account, disable_account, update_attributes, test_base,
  search_users,
}
use nexusid_agent.Ldap.Connector.Opening.{IsOpening, calls, or_err-eq-ok, connect_forest-Emits}
use nexusid_agent.Ldap.Connector.Writes.{
  create_account-Emits, enable_account-Emits, disable_account-Emits, update_attributes-Emits,
  test_base-Emits, search_users-Emits,
}
use nexusid_agent.Server.{Operation}
use nexusid_agent.AdMode.Permitted.{
  Given, Permitted, opening, locating, probing, listing, creation, first_password, enabling,
  disabling, updating,
}
use nexusid_agent.AdMode.{
  Formats, AdMode, Connections, parse_attrs, non_empty, or_option, or_default, email, decrypted,
  sync_users, create, enable, disable, update, probe, process, on_directory, keep_forest,
  forest_connection, route, route_and_process,
}

or_option-Given :
    (given own : Option String) {value : String}
    → or_option (non_empty given) own ≡ some value
    → Given given own value
unfolding or_option non_empty
or_option-Given none own e = inr e
or_option-Given (some s) own e = elim (Bool-cases (is_empty s)) [
  | inl t ↦ inr (rw (or_option, non_empty, t) at e)
  | inr b ↦ inl (rw (or_option, non_empty, b) at e)
]

or_default-Given :
    (given : Option String) (other : String)
    → Given given (some other) (or_default other (non_empty given))
unfolding or_default non_empty
or_default-Given none other = inr refl
or_default-Given (some s) other = elim (Bool-cases (is_empty s)) [
  | inl t ↦ rw (or_default, non_empty, t) (inr refl)
  | inr b ↦ rw (or_default, non_empty, b) (inl refl)
]

email-eq_ok : (op : Operation) {mail : String} → email op ≡ ok mail → op.user_email ≡ some mail
unfolding email
email-eq_ok op e = or_err-eq-ok _ _ e

module _ (d : Directory) (p : Primitives) (f : Formats) (mode : AdMode) (op : Operation)
    (l : LdapConnector d.Session) where
  abbrev May : Call → Type 0
  May = Permitted d p f mode op

  abbrev Obeys : {A : Type 0} → M (recorded d).State A → Type 0
  Obeys = Emits (calls d May) May

  decrypted-eq-ok :
      (enc : Option String) {plaintext : Option String} {password : String}
      → decrypted (recorded d) p f mode enc ≡ ok plaintext
      → plaintext ≡ some password
      → (text : String) × (enc ≡ some text) × (decrypt_serialized p mode.cipher text ≡ ok password)
  unfolding decrypted
  decrypted-eq-ok none q e = cc
  decrypted-eq-ok (some text) q e = (text, refl, ground arith)

  create-Obeys : op.op_type ≡ "CREATE_ACCOUNT" → Obeys (create (recorded d) p f mode op l)
  unfolding create
  create-Obeys t = Emits-lift (parse_attrs f op.attributes_json) _ (λ attrs e.
      Emits-lift (decrypted (recorded d) p f mode op.encrypted_password) _ (λ pw q.
        Emits-bind (create_account (recorded d) l attrs pw) _
          (create_account-Emits d May l attrs pw (λ dn g. (
            creation t e g refl,
            λ password same.
                let (enc, found, plain) = decrypted-eq-ok op.encrypted_password q same in
                first_password t e g found plain refl,
          )))
          (λ dn. Emits-pure _)))

  enable-Obeys : op.op_type ≡ "ENABLE_ACCOUNT" → Obeys (enable (recorded d) p f mode op l)
  unfolding enable
  enable-Obeys t = Emits-lift (email op) _ (λ who e.
      let mail = email-eq_ok op e in
      Emits-bind (enable_account (recorded d) l who) _
        (enable_account-Emits d May l who (locating l.base_dn (inl t) mail refl)
          (λ dn found. enabling t mail found refl))
        (λ dn. Emits-pure _))

  disable-Obeys : op.op_type ≡ "DISABLE_ACCOUNT" → Obeys (disable (recorded d) p f mode op l)
  unfolding disable
  disable-Obeys t = Emits-lift (email op) _ (λ who e.
      let mail = email-eq_ok op e in
      Emits-bind (disable_account (recorded d) l who) _
        (disable_account-Emits d May l who (locating l.base_dn (inr (inl t)) mail refl)
          (λ dn found. disabling t mail found refl))
        (λ dn. Emits-pure _))

  update-Obeys : op.op_type ≡ "UPDATE_ATTRIBUTES" → Obeys (update (recorded d) p f mode op l)
  unfolding update
  update-Obeys t = Emits-lift (parse_attrs f op.attributes_json) _ (λ attrs e.
      Emits-lift (email op) _ (λ who m.
        let mail = email-eq_ok op m in
        Emits-bind (update_attributes (recorded d) l who attrs) _
          (update_attributes-Emits d May l who attrs (locating l.base_dn (inr (inr t)) mail refl)
            (λ dn found. updating t e mail found refl))
          (λ dn. Emits-pure _)))

  probe-Obeys : op.op_type ≡ "TEST_CONNECTION" → Obeys (probe (recorded d) p f mode l)
  unfolding probe
  probe-Obeys t =
      Emits-bind (test_base (recorded d) l) _ (test_base-Emits d May l (probing l.base_dn t refl))
        (λ n. Emits-pure _)

  sync_users-Obeys : op.op_type ≡ "SYNC_USERS" → Obeys (sync_users (recorded d) p f mode op l)
  unfolding sync_users
  sync_users-Obeys t = Emits-lift (parse_attrs f op.attributes_json) _ (λ params e.
      Emits-lift
        (or_err (ldap "SYNC_USERS missing base DN")
          (or_option (non_empty (get "userBaseDn" params)) op.target_base_dn))
        _
        (λ base_dn b.
          let filter =
            or_default "(&(objectClass=user)(objectCategory=person))"
              (non_empty (get "filter" params)) in
          Emits-bind (search_users (recorded d) l base_dn filter) _
            (search_users-Emits d May l base_dn filter (
              listing t e
                (or_option-Given (get "userBaseDn" params) op.target_base_dn (or_err-eq-ok _ _ b))
                (or_default-Given (get "filter" params) _) refl))
            (λ users. Emits-pure _)))

  process-Obeys : Obeys (process (recorded d) p f mode op l)
  unfolding process
  process-Obeys =
      Emits-if (str_eq op.op_type "CREATE_ACCOUNT") _ _
        (λ t. create-Obeys ((eq_iff op.op_type "CREATE_ACCOUNT").0 t))
        (λ _.
          Emits-if (str_eq op.op_type "ENABLE_ACCOUNT") _ _
            (λ t. enable-Obeys ((eq_iff op.op_type "ENABLE_ACCOUNT").0 t))
            (λ _.
              Emits-if (str_eq op.op_type "DISABLE_ACCOUNT") _ _
                (λ t. disable-Obeys ((eq_iff op.op_type "DISABLE_ACCOUNT").0 t))
                (λ _.
                  Emits-if (str_eq op.op_type "UPDATE_ATTRIBUTES") _ _
                    (λ t. update-Obeys ((eq_iff op.op_type "UPDATE_ATTRIBUTES").0 t))
                    (λ _.
                      Emits-if (str_eq op.op_type "TEST_CONNECTION") _ _
                        (λ t. probe-Obeys ((eq_iff op.op_type "TEST_CONNECTION").0 t))
                        (λ _.
                          Emits-if (str_eq op.op_type "SYNC_USERS") _ _
                            (λ t. sync_users-Obeys ((eq_iff op.op_type "SYNC_USERS").0 t))
                            (λ _. Emits-raise _))))))

-- The calls behind the connections to forests.
abbrev pub calls_behind :
    (d : Directory) → Connections (recorded d).State (LdapConnector d.Session) → List Call
calls_behind d w = w.directory.1

module _ (d : Directory) (p : Primitives) (f : Formats) (mode : AdMode) (P : Call → Type 0) where
  pub on_directory-Emits :
      {A : Type 0} (m : M (recorded d).State A)
      → Emits (calls d P) P m
      → Emits (calls_behind d) P (on_directory (recorded d) p f mode m)
  unfolding on_directory
  on_directory-Emits m e = record {
    at = λ w. let a = e.at w.directory in record { new = a.new; added = a.added; all = a.all };
  }

  forest_connection-Emits :
      ((c : Call) → IsOpening c → P c)
      → (kerberos : Bool) (ctx : ForestContext) (target : Option String)
      → Emits (calls_behind d) P (forest_connection (recorded d) p f mode kerberos ctx target)
  unfolding forest_connection keep_forest
  forest_connection-Emits setup kerberos ctx target = record {
    at = λ w. elim (Option-cases (get ctx.forest_id w.forests)) [
      | inr (conn, e) ↦ rw (e, forest_connection) (Adds-none refl)
      | inl e ↦
          rw (e, forest_connection)
            ((Emits-bind
                (on_directory (recorded d) p f mode
                  (connect_forest (recorded d) p kerberos mode.cipher mode.verify_tls ctx target))
                _
                (on_directory-Emits _ (
                  connect_forest-Emits d P setup p kerberos mode.cipher mode.verify_tls ctx target))
                (λ conn. record { at = λ s. Adds-none refl })).at
              w)
    ];
  }

module _ (d : Directory) (p : Primitives) (f : Formats) (mode : AdMode) (kerberos : Bool)
    (op : Operation) (l : LdapConnector d.Session) where
  route-Permitted :
      (context : Option String)
      → Emits
          (calls_behind d)
          (Permitted d p f mode op)
          (route (recorded d) p f mode kerberos op l context)
  unfolding route
  route-Permitted none = on_directory-Emits d p f mode _ _ (process-Obeys d p f mode op l)
  route-Permitted (some text) =
      Emits-lift
        (map_err (λ e. ldap (concat ("bad forestContextJson: " ∷ e ∷ []))) (f.forest_context text))
        _
        (λ ctx _.
          Emits-bind (forest_connection (recorded d) p f mode kerberos ctx op.target_base_dn) _
            (forest_connection-Emits d p f mode _ (λ c. opening) kerberos ctx op.target_base_dn)
            (λ conn. on_directory-Emits d p f mode _ _ (process-Obeys d p f mode op conn)))

  -- Whatever an operation of the broker says, and whether it succeeds or fails, every call that it makes of
  -- the directory is one that its type permits.
  pub route_and_process-Permitted :
      Emits
        (calls_behind d)
        (Permitted d p f mode op)
        (route_and_process (recorded d) p f mode kerberos op l)
  unfolding route_and_process
  route_and_process-Permitted = route-Permitted op.forest_context_json
