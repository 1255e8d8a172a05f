-- ===== src/Common/Dict.antt =====
-- `BTreeMap<String, V>`: its entries in the order of their keys.
use Prim.Native.Nat.{Ordering}
use Prim.Native.String.{String, compare}
use mathlib.Core.Path.{◌≡◌, refl}
use mathlib.Core.Logic.{◌⊎◌}
use native.Mathlib.Omega.{arith}
use text.Mathlib.TextEquality.{eq_iff}
use text.Mathlib.TextPositions.{eq_refl}
use mathlib.Core.Bool.{Bool, true, false}
use mathlib.Core.Option.{Option, none, some}
use mathlib.Core.List.{List, [], ◌∷◌}
use text.Mathlib.Text.{◌==◌}
use nexusid_agent.Common.Lists.{Has}
use nexusid_agent.Common.Tests.{if◌then◌else◌}

abbrev pub Dict {ℓ} : Type ℓ → Type ℓ
Dict V = List (String × V)

module _ {ℓ} {V : Type ℓ} where
  -- `get`
  abbrev pub get : String → Dict V → Option V
  get k [] = none
  get k ((j, v) ∷ m) = if j == k then some v else get k m

  abbrev pub contains_key : String → Dict V → Bool
  contains_key k m = elim (get k m) [ none ↦ false | some _ ↦ true ]

  -- `insert`: an entry of the same key is replaced
  abbrev pub insert : String → V → Dict V → Dict V
  insert k v [] = (k, v) ∷ []
  insert k v ((j, w) ∷ m) = elim (compare k j) [
    | Ordering.lt ↦ (k, v) ∷ (j, w) ∷ m
    | Ordering.eq ↦ (k, v) ∷ m
    | Ordering.gt ↦ (j, w) ∷ insert k v m
  ]

  -- An entry that was inserted is found.
  pub get-insert : (k : String) (v : V) (m : Dict V) → get k (insert k v m) ≡ some v
  get-insert k v [] = rw (eq_refl k) refl
  get-insert k v ((j, w) ∷ m) = ground (arith, eq_refl k, eq_iff j k, get-insert k v m)

  -- Only the key that is inserted changes its value.
  pub get-insert_if :
      (k j : String) (v : V) (m : Dict V)
      → get j (insert k v m) ≡ (if k == j then some v else get j m)
  get-insert_if k j v [] = refl
  get-insert_if k j v ((i, w) ∷ m) =
      ground
        (arith, eq_iff k j, eq_iff i k, eq_iff i j, eq_refl j, eq_refl k, get-insert_if k j v m)

module _ {V : Type 0} where
  -- An entry that `get` finds is there.
  pub get-Has : (k : String) (v : V) (m : Dict V) → get k m ≡ some v → Has (k, v) m
  get-Has k v [] e = cc
  get-Has k v ((j, w) ∷ m) e = ground (arith, eq_iff j k, get-Has k v m)

  pub get-insert_cases :
      (k j : String) (v : V) (m : Dict V) {w : V}
      → get j (insert k v m) ≡ some w
      → (get j m ≡ some w) ⊎ ((k ≡ j) × (v ≡ w))
  get-insert_cases k j v m e = ground (arith, get-insert_if k j v m, eq_iff k j)

  -- What is there after an insertion was there, or is the entry that was inserted.
  pub Has-insert :
      (k j : String) (v w : V) (m : Dict V)
      → Has (j, w) (insert k v m)
      → Has (j, w) m ⊎ ((k ≡ j) × (v ≡ w))
  Has-insert k j v w [] h = ground arith
  Has-insert k j v w ((i, u) ∷ m) h = ground (arith, Has-insert k j v w m)
