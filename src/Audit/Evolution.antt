-- ===== src/Audit/Evolution.antt =====
-- src/audit.rs: how a log changes while the agent holds it, by appends alone.
use mathlib.Core.List.{append-nil, append_assoc}
use nexusid_agent.Common.{◌≡◌, sym, subst, ◌≢◌, inl, inr, String, List, [], ◌∷◌, ◌++◌}
use nexusid_agent.Error.{Result-cases}
use nexusid_agent.Json.{Value}
use nexusid_agent.Audit.{AuditRecord, AuditLog, Externals, Write, write_fails, Disk, append}
use nexusid_agent.Audit.Append.{Laws, IsIntact, append-IsIntact, append_fails}

-- The log in memory and its file.
abbrev pub Logged : Type 0
Logged = AuditLog × Disk

-- The write does not break off.
abbrev pub IsWhole : Write → Type 0
IsWhole write = (part m : String) → write ≢ write_fails part m

-- Any number of appends, successful or refused.
pub data Evolves (x : Externals) : Logged → Logged → Type 0 where
  unchanged : {s t : Logged} → s ≡ t → Evolves x s t
  event :
      {s t u : Logged} (write : Write) (ts name : String) (detail : Value)
      → Evolves x s t
      → IsWhole write
      → u ≡ ((append x write ts name detail t.0 t.1).1, (append x write ts name detail t.0 t.1).2)
      → Evolves x s u

module _ (x : Externals) where
  pub Evolves-trans : {s t u : Logged} → Evolves x s t → Evolves x t u → Evolves x s u
  Evolves-trans a (unchanged e) = subst (Evolves x _) e a
  Evolves-trans a (event write ts name detail b whole e) =
      event write ts name detail (Evolves-trans a b) whole e

  module _ (laws : Laws x) where
    append-IsIntact_any :
        (recs : List AuditRecord) (t : Logged) (write : Write) (ts name : String) (detail : Value)
        → IsIntact x recs t.0 t.1
        → IsWhole write
        → let after = append x write ts name detail t.0 t.1 in
          (new : List AuditRecord) × IsIntact x (recs ++ new) after.1 after.2
    append-IsIntact_any recs t write ts name detail i whole =
        let after = append x write ts name detail t.0 t.1 in
        elim (Result-cases after.0) [
          | inr (rec, q) ↦
              (rec ∷ [], (append-IsIntact x laws write ts name detail recs t.0 t.1 q i).1)
          | inl (e, q) ↦
              let (log, disk) = append_fails x write ts name detail t.0 t.1 q in
              elim disk [
                | inr (part, m, w, _) ↦ absurd (whole part m w)
                | inl kept ↦ (
                  [],
                  subst (λ l. IsIntact x (recs ++ []) l after.2) (sym log)
                      (subst (λ k. IsIntact x (recs ++ []) t.0 k) (sym kept)
                        (subst (λ rs. IsIntact x rs t.0 t.1) (sym (append-nil recs)) i)),
                )
              ]
        ]

    -- An intact log stays intact, with more records, under any number of appends.
    pub Evolves-IsIntact :
        {recs : List AuditRecord} {s t : Logged}
        → IsIntact x recs s.0 s.1
        → Evolves x s t
        → (new : List AuditRecord) × IsIntact x (recs ++ new) t.0 t.1
    Evolves-IsIntact {recs} {s = s} i (unchanged e) = (
      [],
      subst (λ (u : Logged). IsIntact x (recs ++ []) u.0 u.1) e
          (subst (λ rs. IsIntact x rs s.0 s.1) (sym (append-nil recs)) i),
    )
    Evolves-IsIntact {recs} i (event {t = t} write ts name detail b whole e) =
        let (new, k) = Evolves-IsIntact i b in
        let next = append x write ts name detail t.0 t.1 in
        let (more, l) = append-IsIntact_any (recs ++ new) t write ts name detail k whole in
        (
          new ++ more,
          subst (λ (u : Logged). IsIntact x (recs ++ (new ++ more)) u.0 u.1) (sym e)
              (subst (λ rs. IsIntact x rs next.1 next.2) (append_assoc recs new more) l),
        )
