-- ===== src/DbMode.antt =====
-- src/modes/db.rs: one pass in DB mode. The rows are pushed to the broker, and its changes are written
-- back.
pub mod Events
pub mod Push
pub mod Apply
pub mod Returns
pub mod Writes
pub mod Requests
pub mod Pass
use nexusid_agent.Common.{
  ℕ, ◌+◌, String, Bool, true, false, Option, none, some, List, [], ◌∷◌, length, ltb, if◌then◌else◌,
}
use nexusid_agent.Error.{Result, ok, err, AgentError, to_string}
use nexusid_agent.Effect.{M, pure, lift, and_then, ◌>>=◌, ◌>>◌}
use nexusid_agent.Json.{Value, string, number, json}
use nexusid_agent.Crypto.{Primitives}
use nexusid_agent.Config.{DbSection, Env, resolve}
use nexusid_agent.Audit.{SyncCounters, zero_counters, next, Externals, Write}
use nexusid_agent.Server.{Http, ServerClient, WritebackChange, push_record, pull_writeback}
use nexusid_agent.Db.{Database, DbConnector, connect, pull_records, apply_writeback}
use nexusid_agent.World.{World, on_resource, on_broker, log_event}

pub record DbMode : Type 0 where
  pub server : ServerClient
  pub section : DbSection

-- `counters.inspected += 1`, and the counter of the outcome.
count_push : Result AgentError (Unit {0}) → SyncCounters → SyncCounters
count_push (ok _) c = record c { inspected = next c.inspected; updated = next c.updated }
count_push (err _) c = record c { inspected = next c.inspected; failed = next c.failed }

-- A change that met no row counts as inspected alone.
count_change : Result AgentError ℕ → SyncCounters → SyncCounters
count_change (ok n) c =
    let c' : SyncCounters = record c { inspected = next c.inspected } in
    if ltb 0 n then record c' { updated = next c.updated } else c'
count_change (err _) c = record c { inspected = next c.inspected; failed = next c.failed }

module _ (d : Database) (h : Http) (x : Externals) (moments : ℕ → Write × String) where
  abbrev pub DbWorld : Type 0
  DbWorld = World d.State h.State

  -- Only a failure is logged.
  note_push : Result AgentError (Unit {0}) → M DbWorld (Unit {0})
  note_push (ok _) w = (ok tt, w)
  note_push (err e) w =
      log_event moments x "DB_PUSH_FAIL" (json (("error", string (to_string e)) ∷ [])) w

  note_change : String → Result AgentError ℕ → M DbWorld (Unit {0})
  note_change key (ok _) w = (ok tt, w)
  note_change key (err e) w =
      log_event moments x "DB_WRITEBACK_FAIL"
        (json (("key", string key) ∷ ("error", string (to_string e)) ∷ [])) w

  module _ (c : ServerClient) (path secret : String) where
    -- the loop over the records
    pub push_all : List Value → SyncCounters → M DbWorld SyncCounters
    unfolding count_push note_push
    push_all [] counters w = (ok counters, w)
    push_all (rec ∷ recs) counters w =
        let (r, s) = push_record h c path secret rec w.broker in
        and_then (λ _. push_all recs (count_push r counters))
          (note_push r (record w { broker = s }))

  -- the loop over the changes
  pub apply_all : DbConnector d.Pool → List WritebackChange → SyncCounters → M DbWorld SyncCounters
  unfolding count_change note_change
  apply_all conn [] counters w = (ok counters, w)
  apply_all conn (change ∷ changes) counters w =
      let (r, s) = apply_writeback d conn change.key change.fields w.resource in
      and_then (λ _. apply_all conn changes (count_change r counters))
        (note_change change.key r (record w { resource = s }))

  module _ (p : Primitives) (env : Env) (mode : DbMode) where
    note_changes : List WritebackChange → M DbWorld (Unit {0})
    note_changes [] w = (ok tt, w)
    note_changes (change ∷ changes) w =
        log_event moments x "DB_WRITEBACK"
          (json (
            ("table", string mode.section.table)
            ∷ ("applied", number (length (change ∷ changes)))
            ∷ []))
          w

    -- The inbound half, once it is known where the changes are pulled from.
    pull_changes :
        DbConnector d.Pool → (secret path : String) → SyncCounters → M DbWorld SyncCounters
    unfolding note_changes apply_all
    pull_changes conn secret path counters = do
      changes ← on_broker (pull_writeback h mode.server path secret)
      counters' ← apply_all conn changes counters
      note_changes changes
      pure counters'

    pub inbound :
        Bool → Option String → DbConnector d.Pool → String → SyncCounters → M DbWorld SyncCounters
    unfolding pull_changes
    inbound true (some path) conn secret counters = pull_changes conn secret path counters
    inbound true none conn secret counters = pure counters
    inbound false _ conn secret counters = pure counters

    pub outbound : DbConnector d.Pool → String → M DbWorld SyncCounters
    unfolding push_all
    outbound conn secret = do
      records ← on_resource (pull_records d conn)
      counters ← push_all mode.server mode.section.push_path secret records zero_counters
      log_event moments x "DB_PULL"
          (json (("table", string mode.section.table) ∷ ("rows", number (length records)) ∷ []))
      pure counters

    pub run_once : M DbWorld SyncCounters
    unfolding outbound inbound
    run_once = do
      url ← lift (resolve p env mode.section.url)
      secret ← lift (resolve p env mode.section.push_secret)
      conn ← on_resource (
          connect d url mode.section.driver mode.section.table mode.section.key_column
            mode.section.fields)
      counters ← outbound conn secret
      inbound mode.section.writeback mode.section.writeback_pull_path conn secret counters
