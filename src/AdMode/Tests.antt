-- ===== src/AdMode/Tests.antt =====
-- Two operations of one forest on a small directory.
use nexusid_agent.Instances.{small_directory}
use nexusid_agent.Common.{ℕ, ◌≡◌, refl, String, true, false, none, some, [], ◌∷◌}
use nexusid_agent.Error.{ok, err}
use nexusid_agent.Crypto.Toy.{toy}
use nexusid_agent.Ldap.{ForestContext, LdapConnector, hosts, eq_ignore_ascii_case}
use nexusid_agent.Ldap.Connector.{connect_forest}
use nexusid_agent.Common.Dict.{get}
use nexusid_agent.Server.{Operation}
use nexusid_agent.AdMode.{
  Connections, route_and_process, Formats, AdMode, forest_connection, on_directory, keep_forest,
}
use nexusid_agent.AdMode.Forests.{served, forest_connection-again}

abbrev forest : ForestContext
forest = record {
  forest_id = "f";
  root_dn = "DC=corp";
  global_catalog_host = some "gc";
  servers = [];
  auth_type = "SASL_KERBEROS";
  use_gmsa = false;
  service_account = none;
  service_account_password_encrypted = none;
  use_tls = true;
  resource_forest = false;
}

abbrev elsewhere : ForestContext
elsewhere = record forest { forest_id = "g"; root_dn = "DC=other" }

-- An operation in the other forest.
abbrev probing : Operation
probing = record {
  id = "7";
  op_type = "TEST_CONNECTION";
  user_id = "u";
  user_email = none;
  attributes_json = none;
  encrypted_password = none;
  directory_integration_id = none;
  target_base_dn = none;
  forest_context_json = some "{}";
}

abbrev mode : AdMode
mode = record {
  server = record {
    accept_invalid_certs = false;
    base_url = "https://idp";
    agent_token = "t";
    agent_id = "a";
  };
  ad = record {
    url = "ldaps://dc";
    bind_dn = "CN=svc";
    bind_password = "env:P";
    base_dn = "DC=corp";
    use_kerberos = false;
    password_writeback = true;
  };
  cipher = record { key = []; key_id = "k" };
  verify_tls = true;
  batch = 10;
}

abbrev formats : Formats
formats = record { attributes = λ s. err "none"; forest_context = λ s. ok elsewhere }

abbrev session : LdapConnector String
session = record { ldap = "ldaps://gc:636"; base_dn = "OU=first"; password_writeback = true }

abbrev first : Connections ℕ (LdapConnector String)
first = record { directory = 1; forests = ("f", session) ∷ [] }

-- The second operation names another base DN, and comes after one in the other forest.
abbrev between : Connections ℕ (LdapConnector String)
between = served small_directory toy formats mode true session (probing ∷ []) first

forest_connection-again_example :
    forest_connection small_directory toy formats mode true forest (some "OU=second") between
    ≡ (ok session, between)
unfolding forest_connection keep_forest on_directory connect_forest hosts eq_ignore_ascii_case
forest_connection-again_example =
    forest_connection-again small_directory toy formats mode true forest forest (some "OU=first")
      (some "OU=second") session (probing ∷ []) (record { directory = 0; forests = [] }) first
      {conn = session} refl refl

-- The pass in between has made a connection of its own.
both_kept :
    get "g" between.forests
    ≡ some (record session { ldap = "ldaps://gc:636"; base_dn = "DC=other" })
unfolding forest_connection keep_forest on_directory connect_forest hosts eq_ignore_ascii_case
    route_and_process
both_kept = refl
