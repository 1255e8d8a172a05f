-- ===== src/World/Logging.antt =====
-- What the parts of a pass do to the audit log: a part logs if it changes the log by appends alone.
use nexusid_agent.Common.{
  ℕ, ◌+◌, ◌≡◌, refl, sym, ◌∙◌, ap, subst, inl, inr, String, List, [], ◌∷◌, ◌++◌,
}
use nexusid_agent.Error.{Result, ok, AgentError, ◌>>=◌}
use nexusid_agent.Effect.{M, outcome, bind-ok, bind-err}
use nexusid_agent.Effect
use nexusid_agent.Json.{Value}
use nexusid_agent.Audit.{
  AuditRecord, AuditLog, Externals, Write, succeeds, Disk, append, append_event, new_record,
}
use nexusid_agent.Audit.Append.{
  Laws, IsIntact, append-IsIntact, append_event-eq, append_event-eq-ok, append-new_record,
  new_record-holds,
}
use nexusid_agent.Audit.Evolution.{Logged, IsWhole, Evolves, unchanged, event, Evolves-trans}
use nexusid_agent.World.{World, on_resource, on_broker, within, with_log, log_event}

module _ (x : Externals) {R B : Type 0} where
  abbrev pub logged : World R B → Logged
  logged w = (w.log, w.disk)

  -- Whatever comes of the part, an error too.
  abbrev pub Logs : {A : Type 0} → M (World R B) A → Type 0
  Logs m = (w : World R B) → Evolves x (logged w) (logged (m w).1)

  pub Logs-bind :
      {A C : Type 0} (m : M (World R B) A) (f : A → M (World R B) C)
      → Logs m
      → ((a : A) → Logs (f a))
      → Logs (Effect.◌>>=◌ m f)
  Logs-bind m f h k w = elim (outcome (m w)) [
    | inl (e, t, q) ↦
        subst (λ (u : Result AgentError _ × World R B). Evolves x (logged w) (logged u.1))
          (sym (bind-err m f w q))
          (subst (λ (u : Result AgentError _ × World R B). Evolves x (logged w) (logged u.1)) q
            (h w))
    | inr (a, t, q) ↦
        subst (λ (u : Result AgentError _ × World R B). Evolves x (logged w) (logged u.1))
          (sym (bind-ok m f w q))
          (Evolves-trans x
            (subst (λ (u : Result AgentError _ × World R B). Evolves x (logged w) (logged u.1)) q
              (h w))
            (k a t))
  ]

  pub on_resource-Logs : {A : Type 0} (m : M R A) → Logs (on_resource m)
  unfolding on_resource
  on_resource-Logs m w = unchanged refl

  pub on_broker-Logs : {A : Type 0} (m : M B A) → Logs (on_broker m)
  unfolding on_broker
  on_broker-Logs m w = unchanged refl

  pub within-Logs :
      {Q A : Type 0} (get : R → Q) (put : Q → R → R) (m : M (World Q B) A)
      → ((w : World Q B) → Evolves x (w.log, w.disk) ((m w).1.log, (m w).1.disk))
      → Logs (within get put m)
  unfolding within
  within-Logs get put m h w = h _

  module _ (moments : ℕ → Write × String) where
    pub log_event-Logs :
        ((n : ℕ) → IsWhole (moments n).0)
        → (name : String) (detail : Value) → Logs (log_event moments x name detail)
    unfolding log_event
    log_event-Logs whole name detail w =
        let (write, ts) = moments w.writes in
        event write ts name detail (unchanged refl) (whole w.writes)
          (ap (λ r. (r.1, r.2)) (append_event-eq x write ts name detail w.log w.disk))

    module _
        (op : Write → String → AuditLog → Disk → Result AgentError (Unit {0}) × AuditLog × Disk)
        (name : String) (detail : Value)
        (same : (write : Write) (ts : String)
          → op write ts ≡ append_event x write ts name detail) where
      pub with_log-eq : (w : World R B) → with_log moments op w ≡ log_event moments x name detail w
      unfolding with_log log_event
      with_log-eq w =
          let (write, ts) = moments w.writes in
          ap
            (λ (f : AuditLog → Disk → Result AgentError (Unit {0}) × AuditLog × Disk). (
              (f w.log w.disk).0,
              record w {
                log = (f w.log w.disk).1;
                disk = (f w.log w.disk).2;
                writes = w.writes + 1;
              },
            ))
            (same write ts)

      -- So does each operation that appends an event.
      pub with_log-Logs : ((n : ℕ) → IsWhole (moments n).0) → Logs (with_log moments op)
      with_log-Logs whole w =
          subst (λ (r : _ × World R B). Evolves x (logged w) (logged r.1)) (sym (with_log-eq w))
            (log_event-Logs whole name detail w)

    -- An event that is logged without an error adds its record to the intact log.
    pub log_event-IsIntact :
        (laws : Laws x) (name : String) (detail : Value) (w w' : World R B)
        (recs : List AuditRecord)
        → IsIntact x recs w.log w.disk
        → log_event moments x name detail w ≡ (ok tt, w')
        → (rec : AuditRecord) × IsIntact x (recs ++ rec ∷ []) w'.log w'.disk
          × (rec.event ≡ name)
          × (rec.detail ≡ detail)
    unfolding log_event
    log_event-IsIntact laws name detail w w' recs i q =
        let (write, ts) = moments w.writes in
        let (rec, a) = append_event-eq-ok x write ts name detail w.log w.disk (ap (λ t. t.0) q) in
        let (same, i') = append-IsIntact x laws write ts name detail recs w.log w.disk a i in
        let (e, t) = new_record-holds x w.log ts name detail in
        let s : logged w' ≡ (
          (append x write ts name detail w.log w.disk).1,
          (append x write ts name detail w.log w.disk).2,
        ) =
          sym (ap (λ (t : _ × World R B). logged t.1) q)
          ∙ ap (λ r. (r.1, r.2)) (append_event-eq x write ts name detail w.log w.disk) in
        (
          rec,
          subst (λ (u : Logged). IsIntact x (recs ++ rec ∷ []) u.0 u.1) (sym s) i',
          ap (λ (k : AuditRecord). k.event) same ∙ e,
          ap (λ (k : AuditRecord). k.detail) same ∙ t,
        )

    -- An event that can be printed and written is logged without an error.
    pub log_event-returns :
        ((n : ℕ) → (moments n).0 ≡ succeeds)
        → ((r : AuditRecord) → (line : String) × (x.encode r ≡ ok line))
        → (name : String) (detail : Value) (w : World R B)
        → log_event moments x name detail w ≡ (ok tt, (log_event moments x name detail w).1)
    unfolding log_event
    log_event-returns written printed name detail w =
        let (write, ts) = moments w.writes in
        let (line, e) = printed (new_record x w.log ts name detail) in
        ap (λ r. (r, (log_event moments x name detail w).1))
          (ap (λ r. r.0) (append_event-eq x write ts name detail w.log w.disk)
            ∙ ap (λ k. (append x k ts name detail w.log w.disk).0 >>= λ _. ok tt) (written w.writes)
            ∙ ap (λ r. r >>= λ _. ok tt) (append-new_record x ts name detail w.log w.disk e))
