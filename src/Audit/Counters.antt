-- ===== src/Audit/Counters.antt =====
-- src/audit.rs, `SyncCounters`: what the counters of a pass add up to.
use nexusid_agent.Common.{
  ℕ, suc, ◌+◌, ◌^◌, ◌<◌, ◌≤◌, ◌≡◌, String, Option, none, some, List, [], ◌∷◌, length, arith,
}
use nexusid_agent.Audit.{SyncCounters, zero_counters, record_ok, record_failure}

-- The outcomes of a pass in order: the operation that succeeded, or `none` for a failure.
abbrev pub tally : List (Option String) → SyncCounters → SyncCounters
tally [] c = c
tally (none ∷ rest) c = tally rest (record_failure c)
tally (some op ∷ rest) c = tally rest (record_ok op c)

abbrev pub failures : List (Option String) → ℕ
failures [] = 0
failures (none ∷ rest) = suc (failures rest)
failures (some op ∷ rest) = failures rest

-- The sums that hold between two passes.
abbrev pub classified : SyncCounters → ℕ
classified c = c.created + c.updated + c.disabled + c.failed

module _ (c : SyncCounters) (small : c.inspected + 1 < 2 ^ 64)
    (sum : classified c ≤ c.inspected) where
  record_ok-counts :
      (op : String)
      → ((record_ok op c).inspected ≡ c.inspected + 1)
        × ((record_ok op c).failed ≡ c.failed)
        × (classified (record_ok op c) ≤ c.inspected + 1)
  unfolding record_ok
  record_ok-counts op = ground arith

  record_failure-counts :
      ((record_failure c).inspected ≡ c.inspected + 1)
      × ((record_failure c).failed ≡ c.failed + 1)
      × (classified (record_failure c) ≤ c.inspected + 1)
  unfolding record_failure
  record_failure-counts = ground arith

tally-counts :
    (es : List (Option String)) (c : SyncCounters)
    → c.inspected + length es < 2 ^ 64
    → classified c ≤ c.inspected
    → ((tally es c).inspected ≡ c.inspected + length es)
      × ((tally es c).failed ≡ c.failed + failures es)
      × (classified (tally es c) ≤ c.inspected + length es)
tally-counts [] c h s = ground arith
tally-counts (none ∷ rest) c h s =
    let (i, f, t) = record_failure-counts c (omega arith) s in
    let (j, g, u) = tally-counts rest (record_failure c) (omega arith) (omega arith) in
    (omega arith, omega arith, omega arith)
tally-counts (some op ∷ rest) c h s =
    let (i, f, t) = record_ok-counts c (omega arith) s op in
    let (j, g, u) = tally-counts rest (record_ok op c) (omega arith) (omega arith) in
    (omega arith, omega arith, omega arith)

-- After a pass of fewer than 2 ^ 64 outcomes from the zero counters, the inspected ones are all of them,
-- the failed ones are the failures, and the created, updated, disabled and failed ones together are no
-- more than the inspected ones.
pub pass-counts :
    (es : List (Option String))
    → length es < 2 ^ 64
    → ((tally es zero_counters).inspected ≡ length es)
      × ((tally es zero_counters).failed ≡ failures es)
      × (classified (tally es zero_counters) ≤ length es)
pass-counts es h =
    let (i, f, t) = tally-counts es zero_counters (omega arith) (omega arith) in
    (omega arith, omega arith, omega arith)
