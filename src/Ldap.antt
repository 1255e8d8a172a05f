-- ===== src/Ldap.antt =====
-- src/connectors/ldap.rs: the connector to Active Directory.
--
-- The ldap3 crate is the record `Directory`: a state that every call may change, and for each call
-- either the transport's error, the server's refusal, or what it returns.
pub mod Connector
pub mod Calls
pub mod Attributes
pub mod Password
mod Tests
use nexusid_agent.Common.{
  ℕ, zero, suc, ◌+◌, ◌-◌, ◌/◌, ◌%◌, String, code, Bool, true, false, not, ◌&&◌, ◌||◌, Option, none,
  some, List, [], ◌∷◌, ◌++◌, map, ◌==◌, leb, ltb, length, str_eq, cat, concat, is_empty,
  rsplit_last, if◌then◌else◌,
}
use nexusid_agent.Common.Dict.{Dict, get, insert}
use nexusid_agent.Error.{Result, ok, err, AgentError, ldap, map_err}
use nexusid_agent.Effect.{M, pure, raise, lift, ◌>>=◌, ◌>>◌}
use nexusid_agent.Crypto.{Primitives, Cipher, or_err, decrypt_serialized}

abbrev pub uac_enabled : String
uac_enabled = "512"

abbrev pub uac_disabled : String
uac_disabled = "514"

pub record ForestContext : Type 0 where
  pub forest_id : String
  pub root_dn : String
  pub global_catalog_host : Option String
  pub servers : List String
  pub auth_type : String
  pub use_gmsa : Bool
  pub service_account : Option String
  pub service_account_password_encrypted : Option String
  pub use_tls : Bool
  pub resource_forest : Bool

hosts_or : Option String → List String → List String
hosts_or none [] = []
hosts_or (some h) [] = h ∷ []
hosts_or _ (s ∷ ss) = s ∷ ss

-- The servers, or else the one Global Catalog host.
unfoldable pub hosts : ForestContext → List String
unfolding hosts_or
hosts ctx = hosts_or ctx.global_catalog_host ctx.servers

pub data Scope : Type 0 where
  base subtree : Scope

-- `Mod::Replace` of an attribute by one value; a password is written as bytes.
pub data Mod : Type 0 where
  replace : (attribute value : String) → Mod
  replace_bytes : (attribute : String) (value : List ℕ) → Mod

-- `SearchEntry`
pub record Entry : Type 0 where
  pub dn : String
  pub attrs : List (String × List String)

-- What `.await` and `.success()` give in turn.
pub data Reply (A : Type 0) : Type 0 where
  broke : String → Reply A
  rejected : String → Reply A
  success : A → Reply A

pub record Directory : Type 1 where
  pub State : Type 0
  pub Session : Type 0
  pub dial : (url : String) (no_tls_verify : Bool) → State → Result String Session × State
  pub simple_bind : Session → (dn password : String) → State → Reply (Unit {0}) × State
  pub sasl_gssapi_bind : Session → (fqdn : String) → State → Reply (Unit {0}) × State
  pub add : Session → (dn : String) → List (String × List String) → State → Reply (Unit {0}) × State
  pub modify : Session → (dn : String) → List Mod → State → Reply (Unit {0}) × State
  pub search :
      Session
      → (base_dn : String) → Scope
      → (filter : String) → (attrs : List String) → State
      → Reply (List Entry) × State
  pub unbind : Session → State → State

-- The two error messages of a call, by what went wrong.
pub settle :
    {A S : Type 0} → (broken refused : String → String) → Reply A × S → Result AgentError A × S
settle f g (broke e, s) = (err (ldap (f e)), s)
settle f g (rejected e, s) = (err (ldap (g e)), s)
settle f g (success a, s) = (ok a, s)

abbrev pub says : String → String → String
says what e = concat (what ∷ ": " ∷ e ∷ [])

abbrev pub says_of : String → String → String → String
says_of what who e = concat (what ∷ " " ∷ who ∷ ": " ∷ e ∷ [])

pub record LdapConnector (Session : Type 0) : Type 0 where
  pub ldap : Session
  pub base_dn : String
  pub password_writeback : Bool

-- `char::to_ascii_lowercase` on code points, and `eq_ignore_ascii_case`
lower : ℕ → ℕ
lower c = if leb b'A' c && leb c b'Z' then c + 32 else c

unfoldable pub eq_ignore_ascii_case : String → String → Bool
unfolding lower
eq_ignore_ascii_case String.[] String.[] = true
eq_ignore_ascii_case String.[] (String.◌∷◌ d t) = false
eq_ignore_ascii_case (String.◌∷◌ c s) String.[] = false
eq_ignore_ascii_case (String.◌∷◌ c s) (String.◌∷◌ d t) =
    lower (code c) == lower (code d) && eq_ignore_ascii_case s t

-- `h.split(':').next()`
before : ℕ → String → String
before sep String.[] = String.[]
before sep (String.◌∷◌ c s) =
    let rest = before sep s in if code c == sep then String.[] else String.◌∷◌ c rest

-- The host of a URL, as the Kerberos bind takes it.
pub fqdn_of : String → String
unfolding before
fqdn_of url = before b':' (rsplit_last b'/' url)

-- UTF-16 code units, and their bytes, the low one first.
utf16 : ℕ → List ℕ
utf16 n =
    if ltb n 0x10000
    then n ∷ []
    else (0xD800 + (n - 0x10000) / 1024) ∷ (0xDC00 + (n - 0x10000) % 1024) ∷ []

pub encode_utf16 : String → List ℕ
unfolding utf16
encode_utf16 String.[] = []
encode_utf16 (String.◌∷◌ c s) = utf16 (code c) ++ encode_utf16 s

pub le_bytes : List ℕ → List ℕ
le_bytes [] = []
le_bytes (u ∷ us) = u % 256 ∷ u / 256 ∷ le_bytes us

pub quoted_password : String → List ℕ
unfolding encode_utf16 le_bytes
quoted_password password = le_bytes (encode_utf16 (concat ("\"" ∷ password ∷ "\"" ∷ [])))

-- the loop of `create_account` over the attributes
plain_attrs : Dict String → List (String × List String)
plain_attrs [] = []
plain_attrs ((k, v) ∷ rest) =
    let others = plain_attrs rest in
    if str_eq k "distinguishedName" || is_empty v then others else (k, v ∷ []) ∷ others

pub new_account_attrs : Dict String → List (String × List String)
unfolding plain_attrs
new_account_attrs attributes =
    ("objectClass", "top" ∷ "person" ∷ "organizationalPerson" ∷ "user" ∷ [])
    ∷ (plain_attrs attributes ++ ("userAccountControl", uac_disabled ∷ []) ∷ [])

pub update_mods : Dict String → List Mod
update_mods [] = []
update_mods ((k, v) ∷ rest) =
    let others = update_mods rest in
    if not (str_eq k "distinguishedName") && not (is_empty v) then replace k v ∷ others else others

pub find_filter : String → String
find_filter email = concat ("(|(userPrincipalName=" ∷ email ∷ ")(mail=" ∷ email ∷ "))" ∷ [])

-- The first value of each attribute, if it has one that is not empty.
first_values : List (String × List String) → Dict String → Dict String
first_values [] m = m
first_values ((k, []) ∷ rest) m = first_values rest m
first_values ((k, v ∷ vs) ∷ rest) m = first_values rest (if is_empty v then m else insert k v m)

pub users_of : List Entry → List (Dict String)
unfolding first_values
users_of [] = []
users_of (e ∷ es) = elim (first_values e.attrs []) [
  | [] ↦ users_of es
  | x ∷ xs ↦ (x ∷ xs) ∷ users_of es
]
