-- ===== src/AdMode/Permitted.antt =====
-- src/modes/ad.rs, `process`: which calls of the directory are an operation's own.
use nexusid_agent.Common.{◌≡◌, ◌⊎◌, String, Option, some, [], ◌∷◌}
use nexusid_agent.Common.Dict.{Dict, get}
use nexusid_agent.Error.{ok}
use nexusid_agent.Crypto.{Primitives, decrypt_serialized}
use nexusid_agent.Ldap.{base, subtree, replace, replace_bytes, Directory, quoted_password}
use nexusid_agent.Ldap.Calls.{Call, added, modified, searched}
use nexusid_agent.Ldap.Connector.Opening.{IsOpening}
use nexusid_agent.Ldap.Connector.Writes.{account_filter, Located, disabled_user, replacements}
use nexusid_agent.Server.{Operation}
use nexusid_agent.AdMode.{Formats, AdMode, parse_attrs}

-- A value that the operation's attributes give, or else its own.
abbrev pub Given : (given own : Option String) → String → Type 0
Given given own value = (given ≡ some value) ⊎ (own ≡ some value)

-- A call is permitted to an operation if it sets up a connection, or if it is one of the operation's own
-- type with the operation's own data: a search for the accounts with its mail address, or a write to the
-- first account that such a search gave; the creation of its account; the probe of the base; or the search
-- that a synchronisation asks for.
pub data Permitted (d : Directory) (p : Primitives) (f : Formats) (mode : AdMode) (op : Operation)
    (call : Call) : Type 0 where
  opening : IsOpening call → Permitted d p f mode op call
  locating :
      {mail : String} (base_dn : String)
      → (op.op_type ≡ "ENABLE_ACCOUNT")
        ⊎ (op.op_type ≡ "DISABLE_ACCOUNT")
        ⊎ (op.op_type ≡ "UPDATE_ATTRIBUTES")
      → op.user_email ≡ some mail
      → call ≡ searched base_dn subtree (account_filter mail)
      → Permitted d p f mode op call
  probing :
      (base_dn : String)
      → op.op_type ≡ "TEST_CONNECTION"
      → call ≡ searched base_dn base "(objectClass=*)"
      → Permitted d p f mode op call
  listing :
      {params : Dict String} {base_dn filter : String}
      → op.op_type ≡ "SYNC_USERS"
      → parse_attrs f op.attributes_json ≡ ok params
      → Given (get "userBaseDn" params) op.target_base_dn base_dn
      → Given (get "filter" params) (some "(&(objectClass=user)(objectCategory=person))") filter
      → call ≡ searched base_dn subtree filter
      → Permitted d p f mode op call
  creation :
      {attrs : Dict String} {dn : String}
      → op.op_type ≡ "CREATE_ACCOUNT"
      → parse_attrs f op.attributes_json ≡ ok attrs
      → get "distinguishedName" attrs ≡ some dn
      → call ≡ added dn (disabled_user attrs)
      → Permitted d p f mode op call
  first_password :
      {attrs : Dict String} {dn enc password : String}
      → op.op_type ≡ "CREATE_ACCOUNT"
      → parse_attrs f op.attributes_json ≡ ok attrs
      → get "distinguishedName" attrs ≡ some dn
      → op.encrypted_password ≡ some enc
      → decrypt_serialized p mode.cipher enc ≡ ok password
      → call ≡ modified dn (replace_bytes "unicodePwd" (quoted_password password) ∷ [])
      → Permitted d p f mode op call
  enabling :
      {mail dn : String}
      → op.op_type ≡ "ENABLE_ACCOUNT"
      → op.user_email ≡ some mail
      → Located d mail dn
      → call ≡ modified dn (replace "userAccountControl" "512" ∷ [])
      → Permitted d p f mode op call
  disabling :
      {mail dn : String}
      → op.op_type ≡ "DISABLE_ACCOUNT"
      → op.user_email ≡ some mail
      → Located d mail dn
      → call ≡ modified dn (replace "userAccountControl" "514" ∷ [])
      → Permitted d p f mode op call
  updating :
      {attrs : Dict String} {mail dn : String}
      → op.op_type ≡ "UPDATE_ATTRIBUTES"
      → parse_attrs f op.attributes_json ≡ ok attrs
      → op.user_email ≡ some mail
      → Located d mail dn
      → call ≡ modified dn (replacements attrs)
      → Permitted d p f mode op call
