-- ===== src/World.antt =====
-- The state that a pass works on: what it reaches (a directory, a database), the broker, the audit log
-- with its file, and the number of attempts to write so far.
--
-- `moments` gives each attempt its outcome and its time.
pub mod Logging
pub mod Noted
use nexusid_agent.Common.{ℕ, ◌+◌, String}
use nexusid_agent.Error.{Result, AgentError}
use nexusid_agent.Effect.{M}
use nexusid_agent.Json.{Value}
use nexusid_agent.Audit.{AuditLog, Externals, Write, Disk, append_event}

pub record World (R B : Type 0) : Type 0 where
  pub resource : R
  pub broker : B
  pub log : AuditLog
  pub disk : Disk
  pub writes : ℕ

module _ {R B : Type 0} where
  unfoldable pub on_resource : {A : Type 0} → M R A → M (World R B) A
  on_resource m w = let (r, s) = m w.resource in (r, record w { resource = s })

  unfoldable pub on_broker : {A : Type 0} → M B A → M (World R B) A
  on_broker m w = let (r, s) = m w.broker in (r, record w { broker = s })

  -- A part that works on something within the resource.
  unfoldable pub within : {Q A : Type 0} → (R → Q) → (Q → R → R) → M (World Q B) A → M (World R B) A
  within get put m w =
      let (r, v) = m (record {
        resource = get w.resource;
        broker = w.broker;
        log = w.log;
        disk = w.disk;
        writes = w.writes;
      }) in
      (
        r,
        record {
          resource = put v.resource w.resource;
          broker = v.broker;
          log = v.log;
          disk = v.disk;
          writes = v.writes;
        },
      )

  module _ (moments : ℕ → Write × String) where
    -- An operation of the log, at the next moment.
    unfoldable pub with_log :
        {A : Type 0}
        → (Write → String → AuditLog → Disk → Result AgentError A × AuditLog × Disk)
        → M (World R B) A
    with_log op w =
        let (write, ts) = moments w.writes in
        let (r, log, disk) = op write ts w.log w.disk in
        (r, record w { log = log; disk = disk; writes = w.writes + 1 })

    -- `audit.append(…)?`
    unfoldable pub log_event : Externals → String → Value → M (World R B) (Unit {0})
    unfolding with_log
    log_event x event detail = with_log (λ write ts. append_event x write ts event detail)
