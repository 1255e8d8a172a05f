-- ===== src/DbMode/Writes.antt =====
-- src/modes/db.rs, `run_once`: what a pass may do to the database.
use nexusid_agent.Common.{
  ℕ, ◌≡◌, refl, sym, ap, subst, inl, inr, String, Bool, true, false, Option, none, some, List, [],
  ◌∷◌, Has,
}
use nexusid_agent.Error.{Result, ok, err, AgentError}
use nexusid_agent.Effect.{M, ◌>>=◌}
use nexusid_agent.Json.{Value}
use nexusid_agent.Trace.{
  Adds, Emits, Adds-none, Adds-trans, and_then-Adds, Emits-lift, Emits-bind, Emits-pure,
}
use nexusid_agent.Crypto.{Primitives}
use nexusid_agent.Config.{Env, resolve}
use nexusid_agent.Audit.{SyncCounters, zero_counters, Externals, Write}
use nexusid_agent.Server.{Http, ServerClient, WritebackChange, push_record, pull_writeback}
use nexusid_agent.Db.{
  Database, DbConnector, by_canonical, writable, connect, pull_records, apply_writeback,
}
use nexusid_agent.Db.Statement.{select_text, update_text, bound_values}
use nexusid_agent.Db.Writeback.{writable-Mapped}
use nexusid_agent.Db.Calls.{
  Query, opened, fetched, executed, noted, queries, connect-Emits, connect-settings, connector,
  pull_records-Emits, apply_writeback-Emits,
}
use nexusid_agent.World.{on_resource, on_broker, log_event}
use nexusid_agent.DbMode.{
  DbMode, DbWorld, count_push, count_change, note_push, note_change, push_all, apply_all,
  note_changes, pull_changes, inbound, outbound, run_once,
}

-- A call is allowed to a pass if it opens the configured database, reads the mapped columns, or writes a
-- change that the broker answers a pull with; the latter only with writeback switched on, only to mapped
-- columns, each with a changed value of its canonical field, and only where the key column has the change's key, which is bound behind the new values.
pub data Allowed (h : Http) (p : Primitives) (env : Env) (mode : DbMode) (query : Query)
    : Type 0 where
  opening :
      {url : String}
      → resolve p env mode.section.url ≡ ok url
      → query ≡ opened url
      → Allowed h p env mode query
  pulling :
      query ≡ fetched (select_text mode.section.table mode.section.fields)
      → Allowed h p env mode query
  writing :
      {path secret : String} (s : h.State) {changes : List WritebackChange}
      (change : WritebackChange) {item : String × String} {items : List (String × String)}
      → mode.section.writeback ≡ true
      → mode.section.writeback_pull_path ≡ some path
      → resolve p env mode.section.push_secret ≡ ok secret
      → (pull_writeback h mode.server path secret s).0 ≡ ok changes
      → Has change changes
      → writable (by_canonical (λ column. column) mode.section.fields []) change.fields
        ≡ item ∷ items
      → ((column value : String)
          → Has (column, value) (item ∷ items)
          → (canonical : String) × Has (column, canonical) mode.section.fields
            × Has (canonical, value) change.fields)
      → query
        ≡ executed
            (update_text mode.section.driver mode.section.table mode.section.key_column
              (item ∷ items))
            (bound_values (item ∷ items) change.key)
      → Allowed h p env mode query

module _ (d : Database) (h : Http) (x : Externals) (moments : ℕ → Write × String) where
  -- The calls of a pass.
  abbrev pub queries_of : DbWorld (noted d) h x moments → List Query
  queries_of w = w.resource.1

  module _ (P : Query → Type 0) where
    abbrev Asks : {A : Type 0} → M (DbWorld (noted d) h x moments) A → Type 0
    Asks = Emits queries_of P

    on_resource-Asks :
        {A : Type 0} (m : M (noted d).State A) → Emits (queries d P) P m → Asks (on_resource m)
    unfolding on_resource
    on_resource-Asks m e = record {
      at = λ w. let a = e.at w.resource in record { new = a.new; added = a.added; all = a.all };
    }

    on_broker-Asks : {A : Type 0} (m : M h.State A) → Asks (on_broker m)
    unfolding on_broker
    on_broker-Asks m = record { at = λ w. Adds-none refl }

    log_event-Asks : (event : String) (detail : Value) → Asks (log_event moments x event detail)
    unfolding log_event
    log_event-Asks event detail = record { at = λ w. Adds-none refl }

    note_push-Asks : (r : Result AgentError (Unit {0})) → Asks (note_push (noted d) h x moments r)
    unfolding note_push
    note_push-Asks (ok _) = Emits-pure tt
    note_push-Asks (err e) = log_event-Asks _ _

    note_change-Asks :
        (key : String) (r : Result AgentError ℕ) → Asks (note_change (noted d) h x moments key r)
    unfolding note_change
    note_change-Asks key (ok _) = Emits-pure tt
    note_change-Asks key (err e) = log_event-Asks _ _

    push_all-Asks :
        (c : ServerClient) (path secret : String) (recs : List Value) (counters : SyncCounters)
        → Asks (push_all (noted d) h x moments c path secret recs counters)
    unfolding push_all
    push_all-Asks c path secret [] counters = Emits-pure counters
    push_all-Asks c path secret (rec ∷ recs) counters = record {
      at = λ w.
          let (r, s) = push_record h c path secret rec w.broker in
          let a =
            (Emits-bind (note_push (noted d) h x moments r) _ (note_push-Asks r)
                (λ _. push_all-Asks c path secret recs (count_push r counters))).at
              (record w { broker = s }) in
          record { new = a.new; added = a.added; all = a.all };
    }

    apply_all-Asks :
        (conn : DbConnector d.Pool) (changes : List WritebackChange) (counters : SyncCounters)
        → ((change : WritebackChange)
            → Has change changes
            → (item : String × String) (rest : List (String × String))
            → writable (by_canonical (λ column. column) conn.fields []) change.fields ≡ item ∷ rest
            → P (
                executed
                  (update_text conn.driver conn.table conn.key_column (item ∷ rest))
                  (bound_values (item ∷ rest) change.key)))
        → Asks (apply_all (noted d) h x moments conn changes counters)
    unfolding apply_all
    apply_all-Asks conn [] counters may = Emits-pure counters
    apply_all-Asks conn (change ∷ changes) counters may = record {
      at = λ w.
          let (r, s) = apply_writeback (noted d) conn change.key change.fields w.resource in
          let a =
            (apply_writeback-Emits d P conn change.key change.fields (may change (inl refl))).at
              w.resource in
          Adds-trans (record { new = a.new; added = a.added; all = a.all })
            ((Emits-bind (note_change (noted d) h x moments change.key r) _
                (note_change-Asks change.key r)
                (λ _.
                  apply_all-Asks conn changes (count_change r counters) (λ o i. may o (inr i)))).at
              (record w { resource = s }));
    }

  module _ (p : Primitives) (env : Env) (mode : DbMode) where
    abbrev Obeys : {A : Type 0} → M (DbWorld (noted d) h x moments) A → Type 0
    Obeys = Emits queries_of (Allowed h p env mode)

    -- A connector with the settings of the section.
    abbrev settled : d.Pool → DbConnector d.Pool
    settled =
        connector mode.section.table mode.section.key_column mode.section.driver mode.section.fields

    note_changes-Obeys :
        (changes : List WritebackChange)
        → Obeys (note_changes (noted d) h x moments p env mode changes)
    unfolding note_changes
    note_changes-Obeys [] = Emits-pure tt
    note_changes-Obeys (change ∷ changes) = log_event-Asks (Allowed h p env mode) _ _

    pull_changes-Obeys :
        (pool : d.Pool) (secret path : String) (counters : SyncCounters)
        → mode.section.writeback ≡ true
        → mode.section.writeback_pull_path ≡ some path
        → resolve p env mode.section.push_secret ≡ ok secret
        → Obeys (pull_changes (noted d) h x moments p env mode (settled pool) secret path counters)
    unfolding pull_changes on_broker
    pull_changes-Obeys pool secret path counters on from known = record {
      at = λ w.
          and_then-Adds _ (on_broker (pull_writeback h mode.server path secret) w) (Adds-none refl)
            (λ changes t q.
              (Emits-bind (apply_all (noted d) h x moments (settled pool) changes counters) _
                  (apply_all-Asks (Allowed h p env mode) (settled pool) changes counters
                    (λ change served item rest e.
                      writing w.broker change on from known (ap (λ r. r.0) q) served e
                        (λ column value h.
                          writable-Mapped mode.section.fields change.fields column value
                            (subst (Has (column, value)) (sym e) h))
                        refl))
                  (λ c.
                    Emits-bind (note_changes (noted d) h x moments p env mode changes) _
                      (note_changes-Obeys changes) (λ _. Emits-pure c))).at
                t);
    }

    inbound-Obeys :
        (writeback : Bool) (from : Option String) (pool : d.Pool) (secret : String)
        (counters : SyncCounters)
        → mode.section.writeback ≡ writeback
        → mode.section.writeback_pull_path ≡ from
        → resolve p env mode.section.push_secret ≡ ok secret
        → Obeys
            (inbound (noted d) h x moments p env mode writeback from (settled pool) secret counters)
    unfolding inbound
    inbound-Obeys true none pool secret counters on from known = Emits-pure counters
    inbound-Obeys false none pool secret counters on from known = Emits-pure counters
    inbound-Obeys false (some path) pool secret counters on from known = Emits-pure counters
    inbound-Obeys true (some path) pool secret counters on from known =
        pull_changes-Obeys pool secret path counters on from known

    outbound-Obeys :
        (pool : d.Pool) (secret : String)
        → Obeys (outbound (noted d) h x moments p env mode (settled pool) secret)
    unfolding outbound
    outbound-Obeys pool secret =
        Emits-bind (on_resource (pull_records (noted d) (settled pool))) _
          (on_resource-Asks (Allowed h p env mode) _
            (pull_records-Emits d _ (settled pool) (pulling refl)))
          (λ records.
            Emits-bind
              (push_all (noted d) h x moments mode.server mode.section.push_path secret records
                zero_counters)
              _
              (push_all-Asks (Allowed h p env mode) mode.server mode.section.push_path secret
                records zero_counters)
              (λ c.
                Emits-bind (log_event moments x _ _) _ (log_event-Asks (Allowed h p env mode) _ _)
                  (λ _. Emits-pure c)))

    -- Whether a pass returns or fails, every call that it makes of the database opens the configured URL,
    -- reads the mapped columns of the configured table, or writes to that table a change that the broker
    -- answers a pull with: only with writeback switched on and a path configured, only to mapped columns
    -- and only where the key column holds the change's key.
    pub run_once-Allowed_db : Obeys (run_once (noted d) h x moments p env mode)
    unfolding run_once on_resource
    run_once-Allowed_db = Emits-lift (resolve p env mode.section.url) _ (λ url located.
        Emits-lift (resolve p env mode.section.push_secret) _ (λ secret known. record {
          at = λ w.
              let connecting =
                connect (noted d) url mode.section.driver mode.section.table mode.section.key_column
                  mode.section.fields in
              and_then-Adds _ (on_resource connecting w)
                ((on_resource-Asks (Allowed h p env mode) connecting
                    (connect-Emits d _ url _ _ _ _ (opening located refl))).at
                  w)
                (λ conn t q.
                  let same =
                    connect-settings (noted d) url _ _ _ _ w.resource
                      (ap (λ r. (r.0, r.1.resource)) q) in
                  subst
                    (λ c.
                      Adds queries_of (Allowed h p env mode) t
                        ((outbound (noted d) h x moments p env mode c secret
                            >>= inbound (noted d) h x moments p env mode mode.section.writeback
                                mode.section.writeback_pull_path c secret)
                          t).1)
                    (sym same)
                    ((Emits-bind
                        (outbound (noted d) h x moments p env mode (settled conn.pool) secret) _
                        (outbound-Obeys conn.pool secret)
                        (λ c. inbound-Obeys _ _ conn.pool secret c refl refl known)).at
                      t));
        }))
