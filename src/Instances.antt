-- ===== src/Instances.antt =====
-- Small instances of what the agent calls, for runs at concrete inputs.
use nexusid_agent.Common.{ℕ, ◌+◌, String, Option, none, some, true, [], show}
use nexusid_agent.Common.Dict.{Dict, insert, get}
use nexusid_agent.Error.{Result, ok, err}
use nexusid_agent.Ldap.{Directory, success}
use nexusid_agent.Server.{Http}
use nexusid_agent.Db.{Database}
use nexusid_agent.Crypto.Toy.{toy}
use nexusid_agent.Service.{Scm}
use nexusid_agent.Setup.Finalize.{FileSystem, Site}

-- The state counts the connections.
abbrev pub small_directory : Directory
small_directory = record {
  State = ℕ;
  Session = String;
  dial = λ url v n. (ok url, n + 1);
  simple_bind = λ c dn pw n. (success tt, n);
  sasl_gssapi_bind = λ c fqdn n. (success tt, n);
  add = λ c dn attrs n. (success tt, n);
  modify = λ c dn mods n. (success tt, n);
  search = λ c dn scope filter attrs n. (success [], n);
  unbind = λ c n. n;
}

abbrev pub no_database : Database
no_database = record {
  State = Unit {0};
  Pool = Unit {0};
  open_pool = λ url s. (err "none", s);
  fetch_all = λ p sql s. (err "none", s);
  execute = λ p sql binds s. (err "none", s);
}

-- Every request is answered, and the state counts them.
abbrev pub answering : Http
answering = record {
  State = ℕ;
  send = λ certs req n. (ok (record { status = 200; body = "[]" }), n + 1);
  status_text = show;
  config_of = λ s. err "none";
  operations_of = λ s. ok [];
  changes_of = λ s. ok [];
}

abbrev found_or : Option String → Result String String
found_or none = err "not found"
found_or (some text) = ok text

abbrev small_files : FileSystem
small_files = record {
  State = Dict String;
  parent = λ path. none;
  canonicalize = λ path s. none;
  create_dir_all = λ dir s. s;
  write = λ path text s. (ok tt, insert path text s);
  read_to_string = λ path s. found_or (get path s);
}

abbrev no_services : Scm
no_services = record {
  State = Unit {0};
  Manager = Unit {0};
  Service = Unit {0};
  local_computer = λ access s. (err "none", s);
  create_service = λ m info access s. (err "none", s);
  open_service = λ m name access s. (err "none", s);
  set_description = λ service text s. (err "none", s);
  start_service = λ service s. (err "none", s);
  stop_service = λ service s. (err "none", s);
  delete_service = λ service s. (err "none", s);
}

abbrev pub small_site : Site
small_site = record {
  windows = true;
  file_system = small_files;
  http = answering;
  scm = no_services;
  primitives = toy;
  env = λ name. none;
  http_built = λ b. ok tt;
  parse_toml = λ text. err "no TOML";
  exe = ok "agent.exe";
}
