-- ===== src/DbMode/Events.antt =====
-- src/modes/db.rs, `run_once`: whatever comes of a pass, it changes the log by appends alone.
use nexusid_agent.Common.{ℕ, Bool, true, false, Option, none, some, String, List, [], ◌∷◌, refl}
use nexusid_agent.Error.{Result, ok, err, AgentError}
use nexusid_agent.Effect.{pure, lift}
use nexusid_agent.Json.{Value}
use nexusid_agent.Crypto.{Primitives}
use nexusid_agent.Config.{Env, resolve}
use nexusid_agent.Audit.{SyncCounters, zero_counters, Externals, Write}
use nexusid_agent.Audit.Evolution.{IsWhole, unchanged}
use nexusid_agent.Server.{Http, ServerClient, WritebackChange, push_record, pull_writeback}
use nexusid_agent.Db.{Database, DbConnector, connect, pull_records, apply_writeback}
use nexusid_agent.World.{on_resource, on_broker}
use nexusid_agent.World.Logging.{Logs, Logs-bind, on_resource-Logs, on_broker-Logs, log_event-Logs}
use nexusid_agent.DbMode.{
  DbMode, count_push, count_change, note_push, note_change, push_all, apply_all, note_changes,
  inbound, outbound, run_once,
}

module _ (d : Database) (h : Http) (x : Externals) (moments : ℕ → Write × String)
    (whole : (n : ℕ) → IsWhole (moments n).0) where
  note_push-Logs : (r : Result AgentError (Unit {0})) → Logs x (note_push d h x moments r)
  unfolding note_push
  note_push-Logs (ok _) w = unchanged refl
  note_push-Logs (err e) w = log_event-Logs x moments whole _ _ w

  note_change-Logs :
      (key : String) (r : Result AgentError ℕ) → Logs x (note_change d h x moments key r)
  unfolding note_change
  note_change-Logs key (ok _) w = unchanged refl
  note_change-Logs key (err e) w = log_event-Logs x moments whole _ _ w

  push_all-Logs :
      (c : ServerClient) (path secret : String) (recs : List Value) (counters : SyncCounters)
      → Logs x (push_all d h x moments c path secret recs counters)
  unfolding push_all
  push_all-Logs c path secret [] counters w = unchanged refl
  push_all-Logs c path secret (rec ∷ recs) counters w =
      let (r, s) = push_record h c path secret rec w.broker in
      Logs-bind x (note_push d h x moments r)
        (λ _. push_all d h x moments c path secret recs (count_push r counters)) (note_push-Logs r)
        (λ _. push_all-Logs c path secret recs (count_push r counters)) (record w { broker = s })

  apply_all-Logs :
      (conn : DbConnector d.Pool) (changes : List WritebackChange) (counters : SyncCounters)
      → Logs x (apply_all d h x moments conn changes counters)
  unfolding apply_all
  apply_all-Logs conn [] counters w = unchanged refl
  apply_all-Logs conn (change ∷ changes) counters w =
      let (r, s) = apply_writeback d conn change.key change.fields w.resource in
      Logs-bind x (note_change d h x moments change.key r)
        (λ _. apply_all d h x moments conn changes (count_change r counters))
        (note_change-Logs change.key r) (λ _. apply_all-Logs conn changes (count_change r counters))
        (record w { resource = s })

  module _ (p : Primitives) (env : Env) (mode : DbMode) where
    note_changes-Logs :
        (changes : List WritebackChange) → Logs x (note_changes d h x moments p env mode changes)
    unfolding note_changes
    note_changes-Logs [] w = unchanged refl
    note_changes-Logs (change ∷ changes) w = log_event-Logs x moments whole _ _ w

    inbound-Logs :
        (writeback : Bool) (from : Option String) (conn : DbConnector d.Pool) (secret : String)
        (c : SyncCounters)
        → Logs x (inbound d h x moments p env mode writeback from conn secret c)
    unfolding inbound
    inbound-Logs true none conn secret c w = unchanged refl
    inbound-Logs false none conn secret c w = unchanged refl
    inbound-Logs false (some path) conn secret c w = unchanged refl
    inbound-Logs true (some path) conn secret c w =
        Logs-bind x (on_broker (pull_writeback h mode.server path secret)) _ (on_broker-Logs x _)
          (λ changes.
            Logs-bind x (apply_all d h x moments conn changes c) _ (apply_all-Logs conn changes c)
              (λ c'.
                Logs-bind x (note_changes d h x moments p env mode changes) _
                  (note_changes-Logs changes) (λ _ w. unchanged refl)))
          w

    outbound-Logs :
        (conn : DbConnector d.Pool) (secret : String)
        → Logs x (outbound d h x moments p env mode conn secret)
    unfolding outbound
    outbound-Logs conn secret =
        Logs-bind x (on_resource (pull_records d conn)) _ (on_resource-Logs x _) (λ records.
          Logs-bind x
            (push_all d h x moments mode.server mode.section.push_path secret records zero_counters)
            _ (push_all-Logs mode.server mode.section.push_path secret records zero_counters)
            (λ c.
              Logs-bind x _ (λ _. pure c) (log_event-Logs x moments whole _ _)
                (λ _ w. unchanged refl)))

    -- A pass in DB mode changes the log by appends alone, also where it ends with an error.
    pub run_once-Logs_db : Logs x (run_once d h x moments p env mode)
    unfolding run_once
    run_once-Logs_db =
        Logs-bind x (lift (resolve p env mode.section.url)) _ (λ w. unchanged refl)
          (λ url.
            Logs-bind x (lift (resolve p env mode.section.push_secret)) _ (λ w. unchanged refl)
              (λ secret.
                Logs-bind x
                  (on_resource (
                    connect d url mode.section.driver mode.section.table mode.section.key_column
                      mode.section.fields))
                  _ (on_resource-Logs x _)
                  (λ conn.
                    Logs-bind x (outbound d h x moments p env mode conn secret) _
                      (outbound-Logs conn secret)
                      (inbound-Logs mode.section.writeback mode.section.writeback_pull_path conn
                        secret))))
