-- ===== src/DbMode/Requests.antt =====
-- src/modes/db.rs, `run_once`: which requests a pass sends to the broker.
use nexusid_agent.Common.{
  ℕ, String, Bool, true, false, Option, none, some, List, [], ◌∷◌, refl, ◌≡◌,
}
use nexusid_agent.Error.{Result, ok, err, AgentError}
use nexusid_agent.Effect.{M}
use nexusid_agent.Json.{Value}
use nexusid_agent.Trace.{Emits, Adds-none, Adds-trans, Emits-lift, Emits-bind, Emits-pure}
use nexusid_agent.Crypto.{Primitives}
use nexusid_agent.Config.{Env, resolve}
use nexusid_agent.Audit.{SyncCounters, zero_counters, Externals, Write}
use nexusid_agent.Server.{Request, Http, WritebackChange, push_record, pull_writeback}
use nexusid_agent.Server.Requests.{listening, IsOwn, push_record-Emits, pull_writeback-Emits}
use nexusid_agent.Db.{Database, DbConnector, pull_records, apply_writeback}
use nexusid_agent.World.{on_resource, on_broker, log_event}
use nexusid_agent.DbMode.{
  DbMode, DbWorld, count_push, count_change, note_push, note_change, push_all, apply_all,
  note_changes, inbound, outbound, pull_changes, run_once,
}

module _ (d : Database) (h : Http) (x : Externals) (moments : ℕ → Write × String) (p : Primitives)
    (env : Env) (mode : DbMode) (MayShow : String → Type 0) where
  abbrev requests_of : DbWorld d (listening h) x moments → List Request
  requests_of w = w.broker.1

  abbrev Sends : {A : Type 0} → M (DbWorld d (listening h) x moments) A → Type 0
  Sends = Emits requests_of (IsOwn mode.server MayShow)

  note_push-Sends :
      (r : Result AgentError (Unit {0})) → Sends (note_push d (listening h) x moments r)
  unfolding note_push log_event
  note_push-Sends (ok _) = Emits-pure tt
  note_push-Sends (err e) = record { at = λ w. Adds-none refl }

  note_change-Sends :
      (key : String) (r : Result AgentError ℕ) → Sends (note_change d (listening h) x moments key r)
  unfolding note_change log_event
  note_change-Sends key (ok _) = Emits-pure tt
  note_change-Sends key (err e) = record { at = λ w. Adds-none refl }

  note_changes-Sends :
      (changes : List WritebackChange)
      → Sends (note_changes d (listening h) x moments p env mode changes)
  unfolding note_changes log_event
  note_changes-Sends [] = Emits-pure tt
  note_changes-Sends (change ∷ changes) = record { at = λ w. Adds-none refl }

  push_all-Sends :
      (path secret : String) (values : List Value) (counters : SyncCounters)
      → MayShow secret
      → Sends (push_all d (listening h) x moments mode.server path secret values counters)
  unfolding push_all
  push_all-Sends path secret [] counters may = Emits-pure counters
  push_all-Sends path secret (v ∷ vs) counters may = record {
    at = λ w.
        let (r, s) = push_record (listening h) mode.server path secret v w.broker in
        let a = (push_record-Emits h mode.server MayShow path secret v may).at w.broker in
        Adds-trans (record { new = a.new; added = a.added; all = a.all })
          ((Emits-bind (note_push d (listening h) x moments r) _ (note_push-Sends r)
              (λ _. push_all-Sends path secret vs (count_push r counters) may)).at
            (record w { broker = s }));
  }

  apply_all-Sends :
      (conn : DbConnector d.Pool) (changes : List WritebackChange) (counters : SyncCounters)
      → Sends (apply_all d (listening h) x moments conn changes counters)
  unfolding apply_all
  apply_all-Sends conn [] counters = Emits-pure counters
  apply_all-Sends conn (change ∷ changes) counters = record {
    at = λ w.
        let (r, s) = apply_writeback d conn change.key change.fields w.resource in
        let a =
          (Emits-bind (note_change d (listening h) x moments change.key r) _
              (note_change-Sends change.key r)
              (λ _. apply_all-Sends conn changes (count_change r counters))).at
            (record w { resource = s }) in
        record { new = a.new; added = a.added; all = a.all };
  }

  inbound-Sends :
      (writeback : Bool) (from : Option String) (conn : DbConnector d.Pool) (secret : String)
      (counters : SyncCounters)
      → MayShow secret
      → Sends (inbound d (listening h) x moments p env mode writeback from conn secret counters)
  unfolding inbound pull_changes on_broker
  inbound-Sends true none conn secret counters may = Emits-pure counters
  inbound-Sends false none conn secret counters may = Emits-pure counters
  inbound-Sends false (some path) conn secret counters may = Emits-pure counters
  inbound-Sends true (some path) conn secret counters may =
      Emits-bind (on_broker (pull_writeback (listening h) mode.server path secret)) _
        (record {
          at = λ w.
              let a = (pull_writeback-Emits h mode.server MayShow path secret may).at w.broker in
              record { new = a.new; added = a.added; all = a.all };
        })
        (λ changes.
          Emits-bind (apply_all d (listening h) x moments conn changes counters) _
            (apply_all-Sends conn changes counters)
            (λ c.
              Emits-bind (note_changes d (listening h) x moments p env mode changes) _
                (note_changes-Sends changes) (λ _. Emits-pure c)))

  log_event-Sends : (event : String) (detail : Value) → Sends (log_event moments x event detail)
  unfolding log_event
  log_event-Sends event detail = record { at = λ w. Adds-none refl }

  on_resource-Sends : {A : Type 0} (m : M d.State A) → Sends (on_resource m)
  unfolding on_resource
  on_resource-Sends m = record { at = λ w. Adds-none refl }

  outbound-Sends :
      (conn : DbConnector d.Pool) (secret : String)
      → MayShow secret
      → Sends (outbound d (listening h) x moments p env mode conn secret)
  unfolding outbound
  outbound-Sends conn secret may =
      Emits-bind (on_resource (pull_records d conn)) _ (on_resource-Sends (pull_records d conn))
        (λ records.
          Emits-bind
            (push_all d (listening h) x moments mode.server mode.section.push_path secret records
              zero_counters)
            _ (push_all-Sends mode.section.push_path secret records zero_counters may)
            (λ c. Emits-bind (log_event moments x _ _) _ (log_event-Sends _ _) (λ _. Emits-pure c)))

  -- Every request of a pass is the client's own, and shows no other secret than the section's.
  pub run_once-Sends_db :
      ((secret : String) → resolve p env mode.section.push_secret ≡ ok secret → MayShow secret)
      → Sends (run_once d (listening h) x moments p env mode)
  unfolding run_once
  run_once-Sends_db may = Emits-lift (resolve p env mode.section.url) _ (λ url _.
      Emits-lift (resolve p env mode.section.push_secret) _ (λ secret known.
        Emits-bind (on_resource _) _ (on_resource-Sends _) (λ conn.
          Emits-bind (outbound d (listening h) x moments p env mode conn secret) _
            (outbound-Sends conn secret (may secret known))
            (λ c.
              inbound-Sends mode.section.writeback mode.section.writeback_pull_path conn secret c
                (may secret known)))))
