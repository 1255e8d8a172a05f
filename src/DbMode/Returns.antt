-- ===== src/DbMode/Returns.antt =====
-- src/modes/db.rs, `run_once`: no failed push and no failed writeback ends a pass.
use nexusid_agent.Common.{
  ℕ, ◌≡◌, refl, ◌∙◌, ap, String, Bool, true, false, Option, none, some, List, [], ◌∷◌,
}
use nexusid_agent.Error.{Result, ok, err, AgentError}
use nexusid_agent.Effect.{M, lift, ◌>>=◌, bind-ok}
use nexusid_agent.Json.{Value}
use nexusid_agent.Crypto.{Primitives}
use nexusid_agent.Config.{Env, resolve}
use nexusid_agent.Audit.{AuditRecord, SyncCounters, zero_counters, Externals, Write, succeeds}
use nexusid_agent.Server.{Http, ServerClient, WritebackChange, push_record, pull_writeback}
use nexusid_agent.Db.{Database, DbConnector, connect, pull_records, apply_writeback}
use nexusid_agent.World.{on_resource, on_broker, log_event}
use nexusid_agent.World.Logging.{log_event-returns}
use nexusid_agent.DbMode.{
  DbMode, DbWorld, count_push, count_change, note_push, note_change, push_all, apply_all,
  note_changes, pull_changes, inbound, outbound, run_once,
}

module _ (d : Database) (h : Http) (x : Externals) (moments : ℕ → Write × String)
    (written : (n : ℕ) → (moments n).0 ≡ succeeds)
    (printed : (r : AuditRecord) → (line : String) × (x.encode r ≡ ok line)) where
  abbrev Returns : {A : Type 0} → M (DbWorld d h x moments) A → DbWorld d h x moments → Type 0
  Returns {A} m w = (a : A) × (w' : DbWorld d h x moments) × (m w ≡ (ok a, w'))

  note_push-Returns :
      (r : Result AgentError (Unit {0})) (w : DbWorld d h x moments)
      → Returns (note_push d h x moments r) w
  unfolding note_push
  note_push-Returns (ok _) w = (tt, w, refl)
  note_push-Returns (err e) w = (tt, _, log_event-returns x moments written printed _ _ w)

  note_change-Returns :
      (key : String) (r : Result AgentError ℕ) (w : DbWorld d h x moments)
      → Returns (note_change d h x moments key r) w
  unfolding note_change
  note_change-Returns key (ok _) w = (tt, w, refl)
  note_change-Returns key (err e) w = (tt, _, log_event-returns x moments written printed _ _ w)

  -- What follows a part that returns may return from where it ends.
  bind-Returns :
      {A B : Type 0} (m : M (DbWorld d h x moments) A) (f : A → M (DbWorld d h x moments) B)
      (w : DbWorld d h x moments)
      → Returns m w
      → ((a : A) (t : DbWorld d h x moments) → Returns (f a) t)
      → Returns (m >>= f) w
  bind-Returns m f w (a, t, q) rest = let (b, u, r) = rest a t in (b, u, bind-ok m f w q ∙ r)

  push_all-Returns :
      (c : ServerClient) (path secret : String) (values : List Value) (counters : SyncCounters)
      (w : DbWorld d h x moments)
      → Returns (push_all d h x moments c path secret values counters) w
  unfolding push_all
  push_all-Returns c path secret [] counters w = (counters, w, refl)
  push_all-Returns c path secret (v ∷ vs) counters w =
      let (r, s) = push_record h c path secret v w.broker in
      bind-Returns (note_push d h x moments r)
        (λ _. push_all d h x moments c path secret vs (count_push r counters))
        (record w { broker = s }) (note_push-Returns r _)
        (λ _. push_all-Returns c path secret vs (count_push r counters))

  apply_all-Returns :
      (conn : DbConnector d.Pool) (changes : List WritebackChange) (counters : SyncCounters)
      (w : DbWorld d h x moments)
      → Returns (apply_all d h x moments conn changes counters) w
  unfolding apply_all
  apply_all-Returns conn [] counters w = (counters, w, refl)
  apply_all-Returns conn (change ∷ changes) counters w =
      let (r, s) = apply_writeback d conn change.key change.fields w.resource in
      bind-Returns (note_change d h x moments change.key r)
        (λ _. apply_all d h x moments conn changes (count_change r counters))
        (record w { resource = s }) (note_change-Returns change.key r _)
        (λ _. apply_all-Returns conn changes (count_change r counters))

  module _ (p : Primitives) (env : Env) (mode : DbMode) where
    note_changes-Returns :
        (changes : List WritebackChange) (w : DbWorld d h x moments)
        → Returns (note_changes d h x moments p env mode changes) w
    unfolding note_changes
    note_changes-Returns [] w = (tt, w, refl)
    note_changes-Returns (change ∷ changes) w =
        (tt, _, log_event-returns x moments written printed _ _ w)

    outbound-Returns :
        (conn : DbConnector d.Pool) (secret : String) (w : DbWorld d h x moments)
        {values : List Value} {s : d.State}
        → pull_records d conn w.resource ≡ (ok values, s)
        → Returns (outbound d h x moments p env mode conn secret) w
    unfolding outbound on_resource
    outbound-Returns conn secret w {values} {s} read =
        bind-Returns (on_resource (pull_records d conn)) _ w
          (
            values,
            record w { resource = s },
            ap (λ (r : _ × d.State). (r.0, record w { resource = r.1 })) read,
          )
          (λ vs t.
            bind-Returns
              (push_all d h x moments mode.server mode.section.push_path secret vs zero_counters) _
              t (push_all-Returns mode.server mode.section.push_path secret vs zero_counters t)
              (λ c u.
                bind-Returns (log_event moments x _ _) _ u
                  (tt, _, log_event-returns x moments written printed _ _ u) (λ _ v. (c, v, refl))))

    module _
        (answered : (path secret : String) (b : h.State)
          → (changes : List WritebackChange) × (b' : h.State) × (pull_writeback h mode.server path
                secret b
              ≡ (ok changes, b'))) where
      inbound-Returns :
          (writeback : Bool) (from : Option String) (conn : DbConnector d.Pool) (secret : String)
          (counters : SyncCounters) (w : DbWorld d h x moments)
          → Returns (inbound d h x moments p env mode writeback from conn secret counters) w
      unfolding inbound pull_changes on_broker
      inbound-Returns true none conn secret counters w = (counters, w, refl)
      inbound-Returns false none conn secret counters w = (counters, w, refl)
      inbound-Returns false (some path) conn secret counters w = (counters, w, refl)
      inbound-Returns true (some path) conn secret counters w =
          let (changes, b', q) = answered path secret w.broker in
          bind-Returns (on_broker (pull_writeback h mode.server path secret)) _ w
            (
              changes,
              record w { broker = b' },
              ap (λ (r : _ × h.State). (r.0, record w { broker = r.1 })) q,
            )
            (λ cs t.
              bind-Returns (apply_all d h x moments conn cs counters) _ t
                (apply_all-Returns conn cs counters t)
                (λ c u.
                  bind-Returns (note_changes d h x moments p env mode cs) _ u
                    (note_changes-Returns cs u) (λ _ v. (c, v, refl))))

      -- If every record can be printed, every write of the log succeeds and every pull of changes is
      -- answered, a pass whose URL and secret resolve, whose database is opened and whose rows are read
      -- returns counters, whatever becomes of the pushes and the writebacks.
      pub run_once-returns_db :
          (w : DbWorld d h x moments) {url secret : String} {conn : DbConnector d.Pool}
          {opened s : d.State} {values : List Value}
          → resolve p env mode.section.url ≡ ok url
          → resolve p env mode.section.push_secret ≡ ok secret
          → connect d url mode.section.driver mode.section.table mode.section.key_column
              mode.section.fields w.resource
            ≡ (ok conn, opened)
          → pull_records d conn opened ≡ (ok values, s)
          → (c : SyncCounters) × (w' : DbWorld d h x moments) × (run_once d h x moments p env mode w
              ≡ (ok c, w'))
      unfolding run_once on_resource
      run_once-returns_db w {url} {secret} {conn} {opened} located known connected read =
          let finish : DbConnector d.Pool → M (DbWorld d h x moments) SyncCounters = λ conn.
            outbound d h x moments p env mode conn secret
            >>= inbound d h x moments p env mode mode.section.writeback
                mode.section.writeback_pull_path conn secret in
          let (c, w', ran) =
            bind-Returns (outbound d h x moments p env mode conn secret)
              (inbound d h x moments p env mode mode.section.writeback
                mode.section.writeback_pull_path conn secret)
              (record w { resource = opened }) (outbound-Returns conn secret _ read)
              (inbound-Returns mode.section.writeback mode.section.writeback_pull_path conn
                secret) in
          (
            c,
            w',
            ap (λ r. (lift r >>= go) w) located
                ∙ ap (λ r. (lift r >>= λ secret. dial url >>= after secret) w) known
                ∙ bind-ok (dial url) finish w
                    (ap (λ (r : _ × d.State). (r.0, record w { resource = r.1 })) connected)
                ∙ ran,
          )
        where
          dial : String → M (DbWorld d h x moments) (DbConnector d.Pool)
          dial url = on_resource (
              connect d url mode.section.driver mode.section.table mode.section.key_column
                mode.section.fields)

          after : String → DbConnector d.Pool → M (DbWorld d h x moments) SyncCounters
          after secret conn =
              outbound d h x moments p env mode conn secret
              >>= inbound d h x moments p env mode mode.section.writeback
                  mode.section.writeback_pull_path conn secret

          go : String → M (DbWorld d h x moments) SyncCounters
          go url =
              lift (resolve p env mode.section.push_secret) >>= λ secret. dial url >>= after secret
