-- ===== src/Config/Tests.antt =====
-- Runs of the configuration's operations at concrete inputs.
use nexusid_agent.Common.{◌≡◌, refl, true, false, none, some, arith, trim, strip_prefix}
use nexusid_agent.Crypto.Toy.{toy, zero_key}
use nexusid_agent.Config.{ad, Config, Env, RemoteConfig, validate, describe, apply_remote}
use nexusid_agent.Config.Secrets.{IsInline, describe_hides_inline}
use nexusid_agent.Config.Remote.{
  KeepsLocal, apply_remote-KeepsLocal, IsUsable, apply_remote-IsUsable,
}

abbrev sample : Config
sample = record {
  agent = record {
    id = "dc-01";
    mode = ad;
    poll_interval_secs = 30;
    audit_log = "audit.jsonl";
    directory_integration_id = none;
  };
  server = record {
    base_url = "https://idp";
    agent_token = "t";
    secret_key = "env:K";
    verify_tls = true;
  };
  ad_section = some (record {
    url = "ldaps://dc";
    bind_dn = "CN=svc";
    bind_password = "env:P";
    base_dn = "DC=corp";
    use_kerberos = false;
    password_writeback = true;
  });
  db_section = none;
}

-- The broker clears the url, moves the base and asks for a poll interval of 0.
abbrev hostile : RemoteConfig
hostile = record {
  mode = some "db";
  poll_interval_secs = some 0;
  directory = some (record {
    url = some "";
    bind_dn = none;
    base_dn = some "DC=new";
    password_writeback = some false;
  });
}

apply_remote-KeepsLocal_example : KeepsLocal sample (apply_remote hostile sample)
apply_remote-KeepsLocal_example = apply_remote-KeepsLocal hostile sample

sample-IsUsable : IsUsable sample
unfolding validate
sample-IsUsable = record { valid = refl; poll = omega arith; named = (refl, refl, refl) }

apply_remote-IsUsable_example : IsUsable (apply_remote hostile sample)
apply_remote-IsUsable_example = apply_remote-IsUsable hostile sample sample-IsUsable

abbrev keyed : Env
keyed name = some zero_key

inline : IsInline "hunter2"
unfolding strip_prefix
inline = record { not_env = refl; not_enc = refl }

inline' : IsInline "s3cret!"
unfolding strip_prefix
inline' = record { not_env = refl; not_enc = refl }

describe_hides_inline_example : describe toy keyed "hunter2" ≡ describe toy keyed "s3cret!"
unfolding trim
describe_hides_inline_example =
    describe_hides_inline toy keyed keyed "hunter2" "s3cret!" inline inline' refl refl
