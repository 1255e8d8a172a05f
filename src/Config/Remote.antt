-- ===== src/Config/Remote.antt =====
-- src/config.rs, `apply_remote`: what the broker can change, and what it cannot.
use nexusid_agent.Common.{◌<◌, ◌≡◌, Option, none, some, arith, false, is_empty}
use nexusid_agent.Error.{ok}
use nexusid_agent.Config.{AdSection, Config, RemoteConfig, validate, apply_remote}

-- The settings that stay on the host: all but the poll interval and four fields of the AD section.
pub record SameSecrets (a b : AdSection) : Type 0 where
  pub bind_password : a.bind_password ≡ b.bind_password
  pub use_kerberos : a.use_kerberos ≡ b.use_kerberos

abbrev pub SameAd : Option AdSection → Option AdSection → Type 0
SameAd none none = Unit
SameAd (some a) (some b) = SameSecrets a b
SameAd none (some b) = ⊥
SameAd (some a) none = ⊥

pub record KeepsLocal (c c' : Config) : Type 0 where
  pub id : c'.agent.id ≡ c.agent.id
  pub mode : c'.agent.mode ≡ c.agent.mode
  pub audit_log : c'.agent.audit_log ≡ c.agent.audit_log
  pub directory_integration_id :
      c'.agent.directory_integration_id ≡ c.agent.directory_integration_id
  pub server : c'.server ≡ c.server
  pub ad_section : SameAd c'.ad_section c.ad_section
  pub db_section : c'.db_section ≡ c.db_section

-- Whatever the broker sends, the agent's identity, mode, audit log and directory id, the server
-- section, the bind password, the Kerberos setting and the database section stay as they are on the
-- host, and no AD section appears or goes.
pub apply_remote-KeepsLocal :
    (remote : RemoteConfig) (c : Config) → KeepsLocal c (apply_remote remote c)
unfolding apply_remote
apply_remote-KeepsLocal remote c = ground arith

abbrev IsNamed : Option AdSection → Type 0
IsNamed none = Unit
IsNamed (some a) =
    (is_empty a.url ≡ false) × (is_empty a.bind_dn ≡ false) × (is_empty a.base_dn ≡ false)

-- The section of the mode is there, the loop idles between two passes, and no connection setting is
-- empty.
pub record IsUsable (c : Config) : Type 0 where
  pub valid : validate c ≡ ok tt
  pub poll : 0 < c.agent.poll_interval_secs
  pub named : IsNamed c.ad_section

-- The broker's settings do not change whether a configuration is valid.
pub validate-apply_remote :
    (remote : RemoteConfig) (c : Config) → validate (apply_remote remote c) ≡ validate c
unfolding apply_remote validate
validate-apply_remote remote c = ground arith

-- No settings of the broker make a usable configuration unusable.
pub apply_remote-IsUsable :
    (remote : RemoteConfig) (c : Config) → IsUsable c → IsUsable (apply_remote remote c)
unfolding apply_remote validate
apply_remote-IsUsable remote c h = ground arith

-- Applying the same settings again changes nothing.
pub apply_remote_idem :
    (remote : RemoteConfig) (c : Config)
    → apply_remote remote (apply_remote remote c) ≡ apply_remote remote c
unfolding apply_remote
apply_remote_idem remote c = ground arith
