-- ===== src/AdMode/Pass/Writes.antt =====
-- src/modes/ad.rs, `run_once`: what a pass may do to the directory.
use nexusid_agent.Common.{ℕ, ◌≡◌, refl, sym, ap, subst, inl, inr, String, Bool, List, [], ◌∷◌, Has}
use nexusid_agent.Error.{Result, ok, AgentError}
use nexusid_agent.Effect.{M, lift, ◌>>=◌}
use nexusid_agent.Trace.{
  Adds, Emits, Adds-none, Adds-one, Adds-trans, and_then-Adds, Emits-bind, Emits-pure, Adds-mono,
}
use nexusid_agent.Crypto.{Primitives}
use nexusid_agent.Config.{Env, resolve}
use nexusid_agent.Audit.{SyncCounters, zero_counters, Externals, Write}
use nexusid_agent.Ldap.{Directory, LdapConnector}
use nexusid_agent.Ldap.Calls.{Call, unbound, recorded}
use nexusid_agent.Ldap.Connector.{connect, unbind}
use nexusid_agent.Ldap.Connector.Opening.{IsOpening, connect-Emits}
use nexusid_agent.Server.{Operation, Http, poll_operations}
use nexusid_agent.World.{on_resource, on_broker, log_event}
use nexusid_agent.AdMode.{Formats, AdMode, route_and_process, on_directory}
use nexusid_agent.AdMode.Permitted.{Permitted}
use nexusid_agent.AdMode.Writes.{on_directory-Emits, route_and_process-Permitted}
use nexusid_agent.AdMode.Pass.{
  Drain, AdWorld, report, run_ops, no_forests, unbind_all, release, drain_queue, run_once,
  count_outcome,
}

-- A call is allowed to a pass if it sets up or ends a connection, or if it is permitted to an operation
-- that the broker answered the poll with.
pub data Allowed (d : Directory) (p : Primitives) (f : Formats) (mode : AdMode)
    (polled : Result AgentError (List Operation)) (call : Call) : Type 0 where
  opening : IsOpening call → Allowed d p f mode polled call
  closing : call ≡ unbound → Allowed d p f mode polled call
  serving :
      {ops : List Operation} {op : Operation}
      → polled ≡ ok ops
      → Has op ops
      → Permitted d p f mode op call
      → Allowed d p f mode polled call

module _ (d : Directory) (h : Http) (x : Externals) (moments : ℕ → Write × String) where
  -- The calls of a pass.
  abbrev pub calls_of : AdWorld (recorded d) h x moments → List Call
  calls_of w = w.resource.directory.1

  module _ (p : Primitives) (env : Env) (f : Formats) (mode : AdMode) (kerberos : Bool) where
    module _ (P : Call → Type 0) where
      run_ops-Emits :
          (l : LdapConnector d.Session) (ops : List Operation) (c : SyncCounters)
          → ((op : Operation) (call : Call) → Has op ops → Permitted d p f mode op call → P call)
          → Emits calls_of P (run_ops (recorded d) h x moments p env f mode kerberos l ops c)
      unfolding run_ops report log_event
      run_ops-Emits l [] c may = record { at = λ w. Adds-none refl }
      run_ops-Emits l (op ∷ ops) c may = record {
        at = λ w.
            let (r, s) = route_and_process (recorded d) p f mode kerberos op l w.resource in
            let done = (route_and_process-Permitted d p f mode kerberos op l).at w.resource in
            and_then-Adds
              (λ _.
                run_ops (recorded d) h x moments p env f mode kerberos l ops (count_outcome op r c))
              (report (recorded d) h x moments mode.server op r (record w { resource = s }))
              (Adds-mono _ _ (λ call. may op call (inl refl))
                (record { new = done.new; added = done.added; all = done.all }))
              (λ _ t _.
                (run_ops-Emits l ops (count_outcome op r c) (λ o call k. may o call (inr k))).at t);
      }

    abbrev Allows : Result AgentError (List Operation) → Call → Type 0
    Allows = Allowed d p f mode

    unbind_all-added :
        (conns : List (LdapConnector d.Session)) (s : (recorded d).State)
        → Adds
            (λ t. t.1)
            (λ call. call ≡ unbound)
            s
            (unbind_all (recorded d) h x moments p env f mode kerberos conns s)
    unfolding unbind_all unbind
    unbind_all-added [] s = Adds-none refl
    unbind_all-added (conn ∷ conns) s =
        Adds-trans (Adds-one unbound refl refl)
          (unbind_all-added conns (unbind (recorded d) conn s))

    module _ (drain : Drain (LdapConnector d.Session)) where
      release-Allowed :
          (polled : Result AgentError (List Operation)) (l : LdapConnector d.Session)
          → Emits calls_of
              (Allows polled)
              (release (recorded d) h x moments p env f mode kerberos drain l)
      unfolding release unbind
      release-Allowed polled l = record {
        at = λ w.
            let a = Adds-trans (Adds-one {s = w.resource.directory} unbound refl refl) (
              unbind_all-added (drain.order w.resource.forests)
                (unbind (recorded d) l w.resource.directory)) in
            Adds-mono _ _ (λ call. closing) (record { new = a.new; added = a.added; all = a.all });
      }

      drain_queue-Allowed :
          (l : LdapConnector d.Session) (w : AdWorld (recorded d) h x moments)
          → Adds calls_of
              (Allows (poll_operations h mode.server mode.batch w.broker).0)
              w
              (drain_queue (recorded d) h x moments p env f mode kerberos drain l w).1
      unfolding drain_queue no_forests on_broker
      drain_queue-Allowed l w =
          let polled = (poll_operations h mode.server mode.batch w.broker).0 in
          let w₁ : AdWorld (recorded d) h x moments = record w {
            resource = record (w.resource) { forests = [] };
          } in
          and_then-Adds _ (on_broker (poll_operations h mode.server mode.batch) w₁) (Adds-none refl)
            (λ ops t q.
              (Emits-bind
                  (run_ops (recorded d) h x moments p env f mode kerberos l ops zero_counters) _
                  (run_ops-Emits (Allows polled) l ops zero_counters
                    (λ op call. serving (ap (λ r. r.0) q)))
                  (λ c.
                    Emits-bind (release (recorded d) h x moments p env f mode kerberos drain l) _
                      (release-Allowed polled l) (λ _. Emits-pure c))).at
                t)

      abbrev connected : String → M (AdWorld (recorded d) h x moments) SyncCounters
      connected pw =
          on_resource (
            on_directory (recorded d) p f mode (
              connect (recorded d) kerberos mode.ad.url mode.ad.bind_dn pw mode.ad.base_dn
                mode.verify_tls mode.ad.use_kerberos mode.ad.password_writeback))
          >>= drain_queue (recorded d) h x moments p env f mode kerberos drain

      connected-Allowed :
          (pw : String) (w : AdWorld (recorded d) h x moments)
          → Adds calls_of
              (Allows (poll_operations h mode.server mode.batch w.broker).0)
              w
              (connected pw w).1
      unfolding on_resource
      connected-Allowed pw w =
          let polled = (poll_operations h mode.server mode.batch w.broker).0 in
          let connecting = on_directory (recorded d) p f mode (
            connect (recorded d) kerberos mode.ad.url mode.ad.bind_dn pw mode.ad.base_dn
              mode.verify_tls mode.ad.use_kerberos mode.ad.password_writeback) in
          let a =
            (on_directory-Emits d p f mode (Allows polled) _ (
                connect-Emits d (Allows polled) (λ c. opening) kerberos mode.ad.url mode.ad.bind_dn
                  pw mode.ad.base_dn mode.verify_tls mode.ad.use_kerberos
                  mode.ad.password_writeback)).at
              w.resource in
          and_then-Adds (drain_queue (recorded d) h x moments p env f mode kerberos drain)
            (on_resource connecting w) (record { new = a.new; added = a.added; all = a.all })
            (λ l t q.
              subst
                (λ b.
                  Adds calls_of (Allows (poll_operations h mode.server mode.batch b).0) t
                    (drain_queue (recorded d) h x moments p env f mode kerberos drain l t).1)
                (sym (ap (λ r. r.1.broker) q)) (drain_queue-Allowed l t))

      -- Whether a pass returns or fails, every call that it makes of the directory sets up or ends a
      -- connection, or is permitted to an operation that the broker answered the pass's poll with.
      pub run_once-Allowed :
          (w : AdWorld (recorded d) h x moments)
          → Adds calls_of
              (Allows (poll_operations h mode.server mode.batch w.broker).0)
              w
              (run_once (recorded d) h x moments p env f mode kerberos drain w).1
      unfolding run_once
      run_once-Allowed w =
          and_then-Adds connected (lift (resolve p env mode.ad.bind_password) w) (Adds-none refl)
            (λ pw t q.
              subst
                (λ v.
                  Adds calls_of (Allows (poll_operations h mode.server mode.batch w.broker).0) v
                    (connected pw v).1)
                (ap (λ r. r.1) q) (connected-Allowed pw w))
