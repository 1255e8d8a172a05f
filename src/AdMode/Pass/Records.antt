-- ===== src/AdMode/Pass/Records.antt =====
-- src/modes/ad.rs, `run_once`: what a pass that returns has done to the directory, the broker and the
-- log, and what its counters say of it.
use mathlib.Core.List.{Perm}
use nexusid_agent.Common.{map, ◌∷◌, refl, ℕ, ◌≡◌, sym, ◌∙◌, ap, subst, String, Bool, List, []}
use nexusid_agent.Error.{Result, ok, AgentError, ok_inj}
use nexusid_agent.Effect.{M, pure, lift, ◌>>=◌, ◌>>◌, bind-ok_inv}
use nexusid_agent.Json.{Value}
use nexusid_agent.Crypto.{Primitives}
use nexusid_agent.Config.{Env, resolve}
use nexusid_agent.Audit.{AuditRecord, SyncCounters, zero_counters, Externals, Write}
use nexusid_agent.Audit.Append.{Laws, IsIntact}
use nexusid_agent.Audit.Counters.{tally}
use nexusid_agent.Ldap.{Directory, LdapConnector}
use nexusid_agent.Ldap.Connector.{connect, unbind}
use nexusid_agent.Server.{Operation, Http, ServerClient, poll_operations}
use nexusid_agent.World.{on_resource, on_broker}
use nexusid_agent.World.Noted.{Grown}
use nexusid_agent.AdMode.{Formats, AdMode, Connections, on_directory}
use nexusid_agent.AdMode.Pass.{
  Drain, AdWorld, no_forests, unbind_all, release, drain_queue, run_ops, run_once,
}
use nexusid_agent.AdMode.Pass.Loop.{entries_of, labels, reports, outcomes, run_ops-OpsDone}

module _ (d : Directory) (h : Http) (x : Externals) (laws : Laws x) (moments : ℕ → Write × String)
    (p : Primitives) (env : Env) (f : Formats) (mode : AdMode) (kerberos : Bool)
    (drain : Drain (LdapConnector d.Session)) where
  abbrev ran :
      LdapConnector d.Session
      → List Operation
      → Connections d.State (LdapConnector d.Session)
      → List (Result AgentError Value) × Connections d.State (LdapConnector d.Session)
  ran = outcomes d h x laws moments p env f mode kerberos

  abbrev told : ServerClient → List Operation → List (Result AgentError Value) → h.State → h.State
  told = reports d h x laws moments

  abbrev dial : String → M (AdWorld d h x moments) (LdapConnector d.Session)
  dial pw = on_resource (
      on_directory d p f mode (
        connect d kerberos mode.ad.url mode.ad.bind_dn pw mode.ad.base_dn mode.verify_tls
          mode.ad.use_kerberos mode.ad.password_writeback))

  -- These connections, and no others, have been ended, one after the other.
  pub data Ended : List (LdapConnector d.Session) → d.State → d.State → Type 0 where
    all_ended : {s : d.State} → Ended [] s s
    ended :
        {l : LdapConnector d.Session} {ls : List (LdapConnector d.Session)} {s t : d.State}
        → Ended ls (d.unbind l.ldap s) t
        → Ended (l ∷ ls) s t

  unbind_all-Ended :
      (ls : List (LdapConnector d.Session)) (s : d.State)
      → Ended ls s (unbind_all d h x moments p env f mode kerberos ls s)
  unfolding unbind_all unbind
  unbind_all-Ended [] s = all_ended
  unbind_all-Ended (l ∷ ls) s = ended (unbind_all-Ended ls _)

  -- What is left of the connections `s` when a pass has ended the one of its own, `l`, and all those to
  -- forests, in whatever order.
  pub record Released (l : LdapConnector d.Session)
      (s t : Connections d.State (LdapConnector d.Session)) : Type 0 where
    pub order : List (LdapConnector d.Session)
    pub all_kept : Perm order (map (λ e. e.1) s.forests)
    pub ended_in_turn : Ended (l ∷ order) s.directory t.directory
    pub none_kept : t.forests ≡ []

  release-Released :
      (l : LdapConnector d.Session) (w : AdWorld d h x moments)
      → Released l w.resource (release d h x moments p env f mode kerberos drain l w).1.resource
  unfolding release unbind
  release-Released l w = record {
    order = drain.order w.resource.forests;
    all_kept = drain.each_once w.resource.forests;
    ended_in_turn = ended (unbind_all-Ended _ _);
    none_kept = refl;
  }

  -- What a pass has done: `bound` is the directory behind the connection, `queue` the broker behind
  -- the poll.
  pub record PassDone (recs : List AuditRecord) (counters : SyncCounters)
      (w w' : AdWorld d h x moments) : Type 0 where
    pub password : String
    pub known : resolve p env mode.ad.bind_password ≡ ok password
    pub session : LdapConnector d.Session
    pub bound : Connections d.State (LdapConnector d.Session)
    pub connected :
        on_directory d p f mode
          (connect d kerberos mode.ad.url mode.ad.bind_dn password mode.ad.base_dn mode.verify_tls
            mode.ad.use_kerberos mode.ad.password_writeback)
          w.resource
        ≡ (ok session, bound)
    pub ops : List Operation
    pub queue : h.State
    pub polled : poll_operations h mode.server mode.batch w.broker ≡ (ok ops, queue)
    pub worked : Released session (ran session ops (record bound { forests = [] })).1 w'.resource
    pub reported :
        w'.broker ≡ told mode.server ops (ran session ops (record bound { forests = [] })).0 queue
    pub grown : Grown x recs (entries_of ops (ran session ops (record bound { forests = [] })).0) w'
    pub counted :
        counters
        ≡ tally (labels ops (ran session ops (record bound { forests = [] })).0) zero_counters

  parts-PassDone :
      (pw : String) (l : LdapConnector d.Session) (ops : List Operation) (counters : SyncCounters)
      (recs : List AuditRecord) (w w₁ w₂ w₃ w' : AdWorld d h x moments)
      → IsIntact x recs w.log w.disk
      → resolve p env mode.ad.bind_password ≡ ok pw
      → dial pw w ≡ (ok l, w₁)
      → on_broker
          (poll_operations h mode.server mode.batch)
          (record w₁ { resource = record (w₁.resource) { forests = [] } })
        ≡ (ok ops, w₂)
      → run_ops d h x moments p env f mode kerberos l ops zero_counters w₂ ≡ (ok counters, w₃)
      → release d h x moments p env f mode kerberos drain l w₃ ≡ (ok tt, w')
      → PassDone recs counters w w'
  unfolding on_resource on_broker release
  parts-PassDone pw l ops counters recs w w₁ w₂ w₃ w' i known dialled poll run close =
      let i₁ : IsIntact x recs w₁.log w₁.disk =
        subst (λ (u : AdWorld d h x moments). IsIntact x recs u.log u.disk) (ap (λ r. r.1) dialled)
          i in
      let i₂ : IsIntact x recs w₂.log w₂.disk =
        subst (λ (u : AdWorld d h x moments). IsIntact x recs u.log u.disk) (ap (λ r. r.1) poll)
          i₁ in
      let kept : w₁.broker ≡ w.broker =
        ap (λ (r : _ × AdWorld d h x moments). r.1.broker) (sym dialled) in
      let start : w₂.resource ≡ record (w₁.resource) { forests = [] } =
        ap (λ (r : _ × AdWorld d h x moments). r.1.resource) (sym poll) in
      let done =
        run_ops-OpsDone d h x laws moments p env f mode kerberos l ops zero_counters counters w₂ w₃
          recs i₂ run in
      let outs : ran l ops w₂.resource ≡ ran l ops (record (w₁.resource) { forests = [] }) =
        ap (ran l ops) start in
      let quiet : w'.broker ≡ w₃.broker =
        ap (λ (r : _ × AdWorld d h x moments). r.1.broker) (sym close) in
      record {
        password = pw;
        known = known;
        session = l;
        bound = w₁.resource;
        connected = ap (λ (r : _ × AdWorld d h x moments). (r.0, r.1.resource)) dialled;
        ops = ops;
        queue = w₂.broker;
        polled =
            ap (poll_operations h mode.server mode.batch) (sym kept)
            ∙ ap (λ (r : _ × AdWorld d h x moments). (r.0, r.1.broker)) poll;
        worked =
            subst
              (λ (u : AdWorld d h x moments).
                Released l (ran l ops (record (w₁.resource) { forests = [] })).1 u.resource)
              (ap (λ r. r.1) close)
              (subst
                (λ s.
                  Released l s (release d h x moments p env f mode kerberos drain l w₃).1.resource)
                (done.worked ∙ ap (λ u. u.1) outs) (release-Released l w₃));
        reported = quiet ∙ done.reported ∙ ap (λ u. told mode.server ops u.0 w₂.broker) outs;
        grown =
            subst
              (λ (u : AdWorld d h x moments).
                Grown x recs (entries_of ops (ran l ops (record (w₁.resource) { forests = [] })).0)
                  u)
              (ap (λ r. r.1) close)
              (record {
                new = done.grown.new;
                intact = done.grown.intact;
                told = done.grown.told ∙ ap (λ u. entries_of ops u.0) outs;
              });
        counted = done.counted ∙ ap (λ u. tally (labels ops u.0) zero_counters) outs;
      }

  PassDone-at :
      {recs : List AuditRecord} {counters c : SyncCounters} {w w' v : AdWorld d h x moments}
      → ◌≡◌ {A = Result AgentError SyncCounters × AdWorld d h x moments} (ok c, v) (ok counters, w')
      → PassDone recs c w v
      → PassDone recs counters w w'
  PassDone-at {recs} {counters} {c} {w} {w'} q done =
      subst (λ (k : SyncCounters). PassDone recs k w w') (ok_inj (ap (λ t. t.0) q))
        (subst (PassDone recs c w) (ap (λ t. t.1) q) done)

  -- A pass that returns on an intact log has bound the directory, polled the broker once, run each
  -- operation once and in order over one state of the directory, and then ended its own connection and each
  -- that it kept to a forest, once; it has
  -- reported each outcome to the broker once and in order, whatever the broker answered; the new
  -- records of the intact log are one AD_OP_OK or AD_OP_FAIL for each operation, in order, with its
  -- id, its type and its result or error; and the counters are the tally of these outcomes.
  pub run_once-PassDone :
      (w w' : AdWorld d h x moments) (recs : List AuditRecord) {counters : SyncCounters}
      → IsIntact x recs w.log w.disk
      → run_once d h x moments p env f mode kerberos drain w ≡ (ok counters, w')
      → PassDone recs counters w w'
  unfolding run_once drain_queue no_forests
  run_once-PassDone w w' recs {counters} i q =
      let close : LdapConnector d.Session → SyncCounters → M (AdWorld d h x moments) SyncCounters =
        λ l c. release d h x moments p env f mode kerberos drain l >> pure c in
      let work : LdapConnector d.Session → List Operation → M (AdWorld d h x moments) SyncCounters =
        λ l ops. run_ops d h x moments p env f mode kerberos l ops zero_counters >>= close l in
      let go = drain_queue d h x moments p env f mode kerberos drain in
      let (pw, w₀, secret, a) =
        bind-ok_inv (lift (resolve p env mode.ad.bind_password)) (λ pw. dial pw >>= go) w q in
      let (l, w₁, bound, b) = bind-ok_inv (dial pw) go w₀ a in
      let (ops, w₂, poll, c) =
        bind-ok_inv (on_broker (poll_operations h mode.server mode.batch)) (work l)
          (record w₁ { resource = record (w₁.resource) { forests = [] } }) b in
      let (k, w₃, run, e) =
        bind-ok_inv (run_ops d h x moments p env f mode kerberos l ops zero_counters) (close l) w₂
          c in
      let (_, w₄, shut, end) =
        bind-ok_inv (release d h x moments p env f mode kerberos drain l) (λ _. pure k) w₃ e in
      let same : w ≡ w₀ = ap (λ t. t.1) secret in
      PassDone-at end (
        parts-PassDone pw l ops k recs w w₁ w₂ w₃ w₄ i (ap (λ t. t.0) secret)
          (ap (dial pw) same ∙ bound) poll run shut)
