-- ===== src/Ldap/Tests.antt =====
-- Runs of the connector against a small directory, and of its data at concrete inputs.
use nexusid_agent.Common.{
  ℕ, ◌+◌, ◌≡◌, refl, ◌⊎◌, String, true, false, none, List, [], ◌∷◌, concat, str_eq, if◌then◌else◌,
}
use nexusid_agent.Common.Dict.{Dict}
use nexusid_agent.Error.{ok, err, AgentError, ldap}
use nexusid_agent.Crypto.{Cipher}
use nexusid_agent.Crypto.Toy.{toy}
use nexusid_agent.Ldap.{
  ForestContext, hosts, eq_ignore_ascii_case, Directory, rejected, success, LdapConnector, Entry,
  new_account_attrs, quoted_password,
}
use nexusid_agent.Ldap.Connector.{connect_forest}
use nexusid_agent.Ldap.Connector.Failover.{Chosen, Exhausted, connect_forest_outcome}
use nexusid_agent.Ldap.Password.{units, read_units, quoted_password-units}
use nexusid_agent.Ldap.Attributes.{values_at, uac_values}

-- The state counts the connections; `a` is down.
abbrev small : Directory
small = record {
  State = ℕ;
  Session = String;
  dial = λ url v n. if str_eq url "ldap://a:389" then (err "down", n) else (ok url, n + 1);
  simple_bind = λ c dn pw n. (rejected "49", n);
  sasl_gssapi_bind = λ c fqdn n. (success tt, n);
  add = λ c dn attrs n. (success tt, n);
  modify = λ c dn mods n. (success tt, n);
  search = λ c dn scope filter attrs n. (success [], n);
  unbind = λ c n. n;
}

abbrev forest : ForestContext
forest = record {
  forest_id = "f";
  root_dn = "DC=corp";
  global_catalog_host = none;
  servers = "a" ∷ "b" ∷ [];
  auth_type = "sasl_kerberos";
  use_gmsa = false;
  service_account = none;
  service_account_password_encrypted = none;
  use_tls = false;
  resource_forest = false;
}

abbrev cipher : Cipher
cipher = record { key = []; key_id = "k" }

-- The second host is bound.
connect_forest-second :
    connect_forest small toy true cipher true forest none 0
    ≡ (ok (record { ldap = "ldap://b:389"; base_dn = "DC=corp"; password_writeback = true }), 1)
unfolding connect_forest hosts eq_ignore_ascii_case
connect_forest-second = refl

connect_forest_outcome_example :
    ((hosts forest ≡ [])
      × (connect_forest small toy true cipher true forest none 0
          ≡ (err (ldap (concat ("forest '" ∷ forest.root_dn ∷ "' has no servers" ∷ []))), 0)))
    ⊎ ((l : LdapConnector String) × (t : ℕ) × (connect_forest small toy true cipher true forest none
            0
          ≡ (ok l, t))
        × Chosen small toy true cipher true forest (hosts forest) 0 t l.ldap)
    ⊎ ((e : AgentError) × (t : ℕ) × (connect_forest small toy true cipher true forest none 0
          ≡ (err e, t))
        × Exhausted small toy true cipher true forest (hosts forest) 0 t e)
connect_forest_outcome_example = connect_forest_outcome small toy true cipher true forest none 0

quoted_password-units_example :
    read_units none (units (quoted_password "pé🔑")) ≡ 34 ∷ 112 ∷ 233 ∷ 0x1F511 ∷ 34 ∷ []
quoted_password-units_example = quoted_password-units "pé🔑"

abbrev sent : Dict String
sent =
    ("distinguishedName", "CN=x")
    ∷ ("mail", "x@y")
    ∷ ("sn", "")
    ∷ ("userAccountControl", "512")
    ∷ []

uac_values_example :
    values_at "userAccountControl" (new_account_attrs sent) ≡ ("512" ∷ []) ∷ ("514" ∷ []) ∷ []
uac_values_example = uac_values sent

abbrev found : List Entry
found =
    record { dn = "CN=x"; attrs = ("mail", "x@y" ∷ []) ∷ ("sn", "" ∷ []) ∷ [] }
    ∷ record { dn = "CN=y"; attrs = ("mail", []) ∷ [] }
    ∷ []
