-- ===== src/AdMode/Pass/Requests.antt =====
-- src/modes/ad.rs, `run_once`: which requests a pass sends to the broker.
use nexusid_agent.Common.{ℕ, String, Bool, List, [], ◌∷◌, refl}
use nexusid_agent.Error.{Result, ok, err, AgentError}
use nexusid_agent.Effect.{M}
use nexusid_agent.Json.{Value}
use nexusid_agent.Trace.{Adds, Emits, Adds-none, Emits-lift, Emits-bind, Emits-pure}
use nexusid_agent.Crypto.{Primitives}
use nexusid_agent.Config.{Env, resolve}
use nexusid_agent.Audit.{SyncCounters, zero_counters, Externals, Write}
use nexusid_agent.Ldap.{Directory, LdapConnector}
use nexusid_agent.Server.{Operation, Request, Http, poll_operations}
use nexusid_agent.Server.Requests.{
  listening, requests, IsOwn, poll_operations-Emits, complete-Emits,
}
use nexusid_agent.World.{on_resource, on_broker, log_event}
use nexusid_agent.AdMode.{Formats, AdMode, route_and_process}
use nexusid_agent.AdMode.Pass.{
  Drain, AdWorld, count_outcome, completed, report, run_ops, no_forests, release, drain_queue,
  run_once,
}

module _ (d : Directory) (h : Http) (x : Externals) (moments : ℕ → Write × String) where
  abbrev pub requests_of : AdWorld d (listening h) x moments → List Request
  requests_of w = w.broker.1

  module _ (p : Primitives) (env : Env) (f : Formats) (mode : AdMode) (kerberos : Bool)
      (MayShow : String → Type 0) where
    abbrev Sends : {A : Type 0} → M (AdWorld d (listening h) x moments) A → Type 0
    Sends = Emits requests_of (IsOwn mode.server MayShow)

    completed-Adds :
        (op : Operation) (r : Result AgentError Value) (s : (listening h).State)
        → Adds
            (requests h mode.server MayShow)
            (IsOwn mode.server MayShow)
            s
            (completed d (listening h) x moments mode.server op r s)
    unfolding completed
    completed-Adds op (ok v) s = (complete-Emits h mode.server MayShow op.id _ _ _).at s
    completed-Adds op (err e) s = (complete-Emits h mode.server MayShow op.id _ _ _).at s

    report-Sends :
        (op : Operation) (r : Result AgentError Value)
        → Sends (report d (listening h) x moments mode.server op r)
    unfolding report log_event
    report-Sends op r = record {
      at = λ w.
          let a = completed-Adds op r w.broker in
          record { new = a.new; added = a.added; all = a.all };
    }

    run_ops-Sends :
        (l : LdapConnector d.Session) (ops : List Operation) (c : SyncCounters)
        → Sends (run_ops d (listening h) x moments p env f mode kerberos l ops c)
    unfolding run_ops
    run_ops-Sends l [] c = Emits-pure c
    run_ops-Sends l (op ∷ ops) c = record {
      at = λ w.
          let (r, s) = route_and_process d p f mode kerberos op l w.resource in
          let a =
            (Emits-bind (report d (listening h) x moments mode.server op r) _ (report-Sends op r)
                (λ _. run_ops-Sends l ops (count_outcome op r c))).at
              (record w { resource = s }) in
          record { new = a.new; added = a.added; all = a.all };
    }

    module _ (drain : Drain (LdapConnector d.Session)) where
      release-Sends :
          (l : LdapConnector d.Session)
          → Sends (release d (listening h) x moments p env f mode kerberos drain l)
      unfolding release
      release-Sends l = record { at = λ w. Adds-none refl }

      drain_queue-Sends :
          (l : LdapConnector d.Session)
          → Sends (drain_queue d (listening h) x moments p env f mode kerberos drain l)
      unfolding drain_queue no_forests on_broker
      drain_queue-Sends l =
          Emits-bind (no_forests d (listening h) x moments p env f mode kerberos) _
            (record { at = λ w. Adds-none refl })
            (λ _.
              Emits-bind (on_broker (poll_operations (listening h) mode.server mode.batch)) _
                (record {
                  at = λ w.
                      let a =
                        (poll_operations-Emits h mode.server MayShow mode.batch).at w.broker in
                      record { new = a.new; added = a.added; all = a.all };
                })
                (λ ops.
                  Emits-bind
                    (run_ops d (listening h) x moments p env f mode kerberos l ops zero_counters) _
                    (run_ops-Sends l ops zero_counters)
                    (λ c.
                      Emits-bind (release d (listening h) x moments p env f mode kerberos drain l) _
                        (release-Sends l) (λ _. Emits-pure c))))

      -- Every request of a pass is the client's own.
      pub run_once-Sends : Sends (run_once d (listening h) x moments p env f mode kerberos drain)
      unfolding run_once on_resource
      run_once-Sends = Emits-lift (resolve p env mode.ad.bind_password) _ (λ pw _.
          Emits-bind (on_resource _) _ (record { at = λ w. Adds-none refl }) drain_queue-Sends)
