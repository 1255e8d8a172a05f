-- ===== src/AdMode/Pass.antt =====
-- src/modes/ad.rs, `run_once`: the operations are processed, counted, reported and logged in turn.
--
-- A `HashMap` gives its entries in any order, each once: `Drain` is such an order.
pub mod Loop
pub mod Records
pub mod Events
pub mod Returns
pub mod Writes
pub mod Requests
mod Tests
use nexusid_agent.Common.{ℕ, Bool, ◌+◌, String, true, false, none, some, List, [], ◌∷◌, map}
use mathlib.Core.List.{Perm}
use nexusid_agent.Common.Dict.{Dict}
use nexusid_agent.Error.{Result, ok, err, AgentError, to_string}
use nexusid_agent.Effect.{M, pure, lift, and_then, ◌>>=◌, ◌>>◌}
use nexusid_agent.Json.{Value, string, json}
use nexusid_agent.Crypto.{Primitives}
use nexusid_agent.Config.{Env, resolve}
use nexusid_agent.Audit.{
  AuditRecord, SyncCounters, zero_counters, record_ok, record_failure, AuditLog, Externals, Write,
  Disk, append,
}
use nexusid_agent.Ldap.{Directory, LdapConnector}
use nexusid_agent.Ldap.Connector.{connect, unbind}
use nexusid_agent.Server.{Operation, Http, ServerClient, poll_operations, complete}
use nexusid_agent.World.{World, on_resource, on_broker, log_event}
use nexusid_agent.AdMode.{Formats, AdMode, Connections, route_and_process, on_directory}

-- What the pass counts and reports of an operation's outcome.
count_outcome : Operation → Result AgentError Value → SyncCounters → SyncCounters
count_outcome op (ok v) c = record_ok op.op_type c
count_outcome op (err e) c = record_failure c

pub event_of : Result AgentError Value → String
event_of (ok v) = "AD_OP_OK"
event_of (err e) = "AD_OP_FAIL"

pub detail_of : Operation → Result AgentError Value → Value
detail_of op (ok v) = json (("id", string op.id) ∷ ("op", string op.op_type) ∷ ("result", v) ∷ [])
detail_of op (err e) =
    json (("id", string op.id) ∷ ("op", string op.op_type) ∷ ("error", string (to_string e)) ∷ [])

-- `HashMap::drain`: the values of all entries, in an order of its own.
pub record Drain (V : Type 0) : Type 0 where
  pub order : Dict V → List V
  pub each_once : (m : Dict V) → Perm (order m) (map (λ e. e.1) m)

module _ (d : Directory) (h : Http) (x : Externals) (moments : ℕ → Write × String) where
  abbrev pub AdWorld : Type 0
  AdWorld = World (Connections d.State (LdapConnector d.Session)) h.State

  -- the reported outcome; whether the broker takes it does not matter (`.ok()`)
  pub completed : ServerClient → Operation → Result AgentError Value → h.State → h.State
  completed c op (ok v) s = (complete h c op.id true (some (x.render v)) none s).1
  completed c op (err e) s = (complete h c op.id false none (some (to_string e)) s).1

  pub report : ServerClient → Operation → Result AgentError Value → M AdWorld (Unit {0})
  unfolding completed event_of detail_of
  report c op r w =
      log_event moments x (event_of r) (detail_of op r)
        (record w { broker = completed c op r w.broker })

  module _ (p : Primitives) (env : Env) (f : Formats) (mode : AdMode) (kerberos : Bool) where
    -- the loop over the operations
    pub run_ops : LdapConnector d.Session → List Operation → SyncCounters → M AdWorld SyncCounters
    unfolding count_outcome report
    run_ops l [] c w = (ok c, w)
    run_ops l (op ∷ ops) c w =
        let (r, s) = route_and_process d p f mode kerberos op l w.resource in
        and_then (λ _. run_ops l ops (count_outcome op r c))
          (report mode.server op r (record w { resource = s }))

    -- `HashMap::new()`
    no_forests : M AdWorld (Unit {0})
    no_forests w = (ok tt, record w { resource = record (w.resource) { forests = [] } })

    pub unbind_all : List (LdapConnector d.Session) → d.State → d.State
    unbind_all [] s = s
    unbind_all (conn ∷ conns) s = unbind_all conns (unbind d conn s)

    release :
        (drain : Drain (LdapConnector d.Session)) → LdapConnector d.Session → M AdWorld (Unit {0})
    unfolding unbind_all
    release drain l w = (
      ok tt,
      record w {
        resource = record {
          directory = unbind_all (drain.order w.resource.forests) (unbind d l w.resource.directory);
          forests = [];
        };
      },
    )

    -- The pass once the directory is bound.
    drain_queue :
        (drain : Drain (LdapConnector d.Session)) → LdapConnector d.Session → M AdWorld SyncCounters
    unfolding no_forests run_ops release
    drain_queue drain l = do
      no_forests
      ops ← on_broker (poll_operations h mode.server mode.batch)
      counters ← run_ops l ops zero_counters
      release drain l
      pure counters

    pub run_once : (drain : Drain (LdapConnector d.Session)) → M AdWorld SyncCounters
    unfolding drain_queue
    run_once drain = do
      bind_pw ← lift (resolve p env mode.ad.bind_password)
      l ← on_resource (
          on_directory d p f mode (
            connect d kerberos mode.ad.url mode.ad.bind_dn bind_pw mode.ad.base_dn mode.verify_tls
              mode.ad.use_kerberos mode.ad.password_writeback))
      drain_queue drain l
