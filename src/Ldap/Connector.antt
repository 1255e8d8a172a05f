-- ===== src/Ldap/Connector.antt =====
-- src/connectors/ldap.rs: the operations of `LdapConnector` against a directory.
pub mod Failover
pub mod Opening
pub mod Writes
use nexusid_agent.Common.{
  ℕ, String, Bool, true, false, not, ◌&&◌, ◌||◌, Option, none, some, List, [], ◌∷◌, length, concat,
  is_empty, if◌then◌else◌,
}
use nexusid_agent.Common.Dict.{Dict, get}
use nexusid_agent.Error.{Result, ok, err, AgentError, ldap, map_err}
use nexusid_agent.Effect.{M, pure, raise, lift, ◌>>=◌, ◌>>◌}
use nexusid_agent.Crypto.{Primitives, Cipher, or_err, decrypt_serialized}
use nexusid_agent.Ldap.{
  uac_enabled, uac_disabled, ForestContext, hosts, Scope, base, subtree, Mod, replace,
  replace_bytes, Entry, Reply, Directory, settle, says, says_of, LdapConnector,
  eq_ignore_ascii_case, fqdn_of, quoted_password, new_account_attrs, update_mods, find_filter,
  users_of,
}

-- `unwrap_or_else`
abbrev or_else : Option AgentError → AgentError → AgentError
or_else none e = e
or_else (some last) e = last

-- A host that is bound ends the loop, and the error of one that is not goes to the next round.
abbrev or_next :
    {A S : Type 0} → (AgentError → M S A) → Result AgentError A × S → Result AgentError A × S
or_next k (ok a, s) = (ok a, s)
or_next k (err e, s) = k e s

unfoldable pub is_kerberos : ForestContext → Bool
is_kerberos ctx = ctx.use_gmsa || eq_ignore_ascii_case ctx.auth_type "SASL_KERBEROS"

forest_base : ForestContext → Option String → String
forest_base ctx none = ctx.root_dn
forest_base ctx (some dn) = if is_empty dn then ctx.root_dn else dn

module _ (d : Directory) where
  open d use {State, Session, dial, simple_bind, sasl_gssapi_bind, add, modify, search}

  -- the transport's part of `with_settings`
  dial_url : String → Bool → M State Session
  dial_url url verify_tls s =
      let (r, s') = dial url (not verify_tls) s in
      (map_err (λ e. ldap (says_of "connect" url e)) r, s')

  -- `kerberos` says whether the agent was built with that feature.
  kerberos_bind : (kerberos : Bool) → Session → String → M State (Unit {0})
  unfolding settle
  kerberos_bind true c url s =
      settle (says "GSSAPI bind") (says "GSSAPI bind rejected") (sasl_gssapi_bind c (fqdn_of url) s)
  kerberos_bind false c url s =
      raise (ldap "use_kerberos=true but the agent was built without the `kerberos` feature") s

  bind_as : (what refused : String) → Session → String → String → M State (Unit {0})
  unfolding settle
  bind_as what refused c dn password s =
      settle (says what) (says refused) (simple_bind c dn password s)

  unfoldable pub connect :
      (kerberos : Bool)
      → (url bind_dn bind_password base_dn : String)
      → (verify_tls use_kerberos password_writeback : Bool) → M State (LdapConnector Session)
  unfolding dial_url kerberos_bind bind_as
  connect kerberos url bind_dn bind_password base_dn verify_tls use_kerberos password_writeback = do
    c ← dial_url url verify_tls
    if use_kerberos
        then kerberos_bind kerberos c url
        else bind_as "bind" "bind rejected" c bind_dn bind_password
    pure (record { ldap = c; base_dn = base_dn; password_writeback = password_writeback })

  module _ (p : Primitives) (kerberos : Bool) (cipher : Cipher) (verify_tls : Bool) where
    service_bind : ForestContext → Session → M State (Unit {0})
    unfolding bind_as
    service_bind ctx c = do
      principal ←
          lift (or_err (ldap "forest SIMPLE bind requires a service account") ctx.service_account)
      enc ← lift (
          or_err (ldap "forest SIMPLE bind requires a service-account password")
            ctx.service_account_password_encrypted)
      pw ← lift (decrypt_serialized p cipher enc)
      bind_as "forest bind" "forest bind rejected" c principal pw

    -- the body of the loop: connect and bind to one host
    pub bind_host : ForestContext → String → M State Session
    unfolding dial_url kerberos_bind service_bind is_kerberos
    bind_host ctx host = do
      let url =
          if ctx.use_tls
          then concat ("ldaps://" ∷ host ∷ ":636" ∷ [])
          else concat ("ldap://" ∷ host ∷ ":389" ∷ [])
      c ← dial_url url verify_tls
      if is_kerberos ctx then kerberos_bind kerberos c url else service_bind ctx c
      pure c

    -- the loop over the hosts
    try_hosts : ForestContext → Option AgentError → List String → M State Session
    unfolding bind_host
    try_hosts ctx last [] s =
        raise (or_else last (ldap (concat ("forest '" ∷ ctx.root_dn ∷ "' unreachable" ∷ [])))) s
    try_hosts ctx last (host ∷ more) s =
        or_next (λ e s'. try_hosts ctx (some e) more s') (bind_host ctx host s)

    unfoldable pub connect_forest : ForestContext → Option String → M State (LdapConnector Session)
    unfolding try_hosts forest_base is_kerberos
    connect_forest ctx target = elim (hosts ctx) [
      | [] ↦ raise (ldap (concat ("forest '" ∷ ctx.root_dn ∷ "' has no servers" ∷ [])))
      | h ∷ hs ↦ do
        c ← try_hosts ctx none (h ∷ hs)
        pure (record {
          ldap = c;
          base_dn = forest_base ctx target;
          password_writeback = ctx.use_tls || is_kerberos ctx;
        })
    ]

  module _ (l : LdapConnector Session) where
    pub set_password : (dn password : String) → M State (Unit {0})
    unfolding settle
    set_password dn password s =
        settle (says_of "password writeback" dn) (says_of "password writeback rejected" dn)
          (modify l.ldap dn (replace_bytes "unicodePwd" (quoted_password password) ∷ []) s)

    add_entry : String → Dict String → M State (Unit {0})
    unfolding settle
    add_entry dn attributes s =
        settle (says_of "add" dn) (says_of "add rejected" dn)
          (add l.ldap dn (new_account_attrs attributes) s)

    write_password : Bool → Option String → String → M State (Unit {0})
    unfolding set_password
    write_password true (some pw) dn = set_password dn pw
    write_password true none dn = pure tt
    write_password false _ dn = pure tt

    pub create_account : Dict String → Option String → M State String
    unfolding add_entry write_password
    create_account attributes plaintext = do
      dn ← lift (
          or_err (ldap "attributes missing distinguishedName") (get "distinguishedName" attributes))
      add_entry dn attributes
      write_password l.password_writeback plaintext dn
      pure dn

    search_for :
        (what refused : String → String)
        → String
        → Scope
        → String
        → List String
        → M State (List Entry)
    unfolding settle
    search_for what refused base_dn scope filter attrs s =
        settle what refused (search l.ldap base_dn scope filter attrs s)

    first_dn : String → List Entry → Result AgentError String
    first_dn email [] = err (ldap (concat ("no AD account found for " ∷ email ∷ [])))
    first_dn email (e ∷ es) = ok e.dn

    find_dn : String → M State String
    unfolding search_for first_dn
    find_dn email = do
      entries ←
          search_for (says_of "search" email) (says_of "search rejected" email) l.base_dn subtree
            (find_filter email) ("distinguishedName" ∷ [])
      lift (first_dn email entries)

    set_uac : String → String → M State String
    unfolding find_dn settle
    set_uac email uac = do
      dn ← find_dn email
      (λ s.
          settle (says_of "modify uac" dn) (says_of "modify uac rejected" dn)
            (modify l.ldap dn (replace "userAccountControl" uac ∷ []) s))
      pure dn

    pub enable_account : String → M State String
    unfolding set_uac
    enable_account email = set_uac email uac_enabled

    pub disable_account : String → M State String
    unfolding set_uac
    disable_account email = set_uac email uac_disabled

    send_mods : String → List Mod → M State (Unit {0})
    unfolding settle
    send_mods dn [] s = pure tt s
    send_mods dn (m ∷ ms) s =
        settle (says_of "modify" dn) (says_of "modify rejected" dn) (modify l.ldap dn (m ∷ ms) s)

    pub update_attributes : String → Dict String → M State String
    unfolding find_dn send_mods
    update_attributes email attributes = do
      dn ← find_dn email
      send_mods dn (update_mods attributes)
      pure dn

    pub test_base : M State ℕ
    unfolding search_for
    test_base = do
      entries ←
          search_for (says_of "search base" l.base_dn) (says "base search rejected") l.base_dn base
            "(objectClass=*)" ("distinguishedName" ∷ [])
      pure (length entries)

    pub search_users : (base_dn filter : String) → M State (List (Dict String))
    unfolding search_for
    search_users base_dn filter = do
      entries ←
          search_for (says_of "search users" base_dn) (says "user search rejected") base_dn subtree
            filter
            ("mail" ∷ "userPrincipalName" ∷ "sAMAccountName" ∷ "employeeID" ∷ "givenName" ∷ "sn"
              ∷ "displayName" ∷ "department" ∷ "title" ∷ "telephoneNumber" ∷ [])
      pure (users_of entries)

    unfoldable pub unbind : State → State
    unbind s = d.unbind l.ldap s
