-- ===== src/Ldap/Calls.antt =====
-- src/connectors/ldap.rs: the calls of a directory, noted in the order in which they are made.
use nexusid_agent.Common.{String, List, [], ◌∷◌, ◌++◌}
use nexusid_agent.Trace.{noting}
use nexusid_agent.Ldap.{Scope, Mod, Directory}

pub data Call : Type 0 where
  dialled : (url : String) → Call
  bound_as : (dn : String) → Call
  negotiated : (fqdn : String) → Call
  added : (dn : String) (attrs : List (String × List String)) → Call
  modified : (dn : String) (mods : List Mod) → Call
  searched : (base_dn : String) (scope : Scope) (filter : String) → Call
  unbound : Call

-- Any directory, with a list of the calls made so far.
abbrev pub recorded : Directory → Directory
recorded d = record {
  State = d.State × List Call;
  Session = d.Session;
  dial = λ url v. noting (dialled url) (d.dial url v);
  simple_bind = λ c dn pw. noting (bound_as dn) (d.simple_bind c dn pw);
  sasl_gssapi_bind = λ c fqdn. noting (negotiated fqdn) (d.sasl_gssapi_bind c fqdn);
  add = λ c dn attrs. noting (added dn attrs) (d.add c dn attrs);
  modify = λ c dn mods. noting (modified dn mods) (d.modify c dn mods);
  search = λ c dn scope filter attrs.
      noting (searched dn scope filter) (d.search c dn scope filter attrs);
  unbind = λ c s. (d.unbind c s.0, s.1 ++ unbound ∷ []);
}
