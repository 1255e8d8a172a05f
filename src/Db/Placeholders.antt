-- ===== src/Db/Placeholders.antt =====
-- src/connectors/db.rs, `apply_writeback`: the numbers of the placeholders and the places of the bound
-- values.
use nexusid_agent.Common.{
  ℕ, zero, suc, ◌+◌, ◌≡◌, refl, ◌∙◌, ap, String, some, List, [], ◌∷◌, ◌++◌, get_elem?, length,
  arith, concat,
}
use nexusid_agent.Db.{placeholder, set_items, update_sql, binds, values_of}
use nexusid_agent.Db.Statement.{mark, assignments, update_sql-eq}

get_elem?-set_items :
    (driver : String) (idx : ℕ) (items : List (String × String)) (i : ℕ) {column value : String}
    → get_elem? items i ≡ some (column, value)
    → get_elem? (set_items driver idx items) i
      ≡ some (concat (column ∷ " = " ∷ mark driver (idx + i) ∷ []))
unfolding set_items placeholder
get_elem?-set_items driver idx [] i e = cc
get_elem?-set_items driver idx ((c, v) ∷ items) zero {column} e =
    let same : c ≡ column = ground arith in
    let same' : idx ≡ idx + 0 = omega arith in rw (same, ← same') refl
get_elem?-set_items driver idx ((c, v) ∷ items) (suc i) {column} e =
    get_elem?-set_items driver (idx + 1) items i e
    ∙ ap (λ n. some (concat (column ∷ " = " ∷ mark driver n ∷ []))) (omega arith)

get_elem?-values_of :
    (items : List (String × String)) (more : List String) (i : ℕ) {column value : String}
    → get_elem? items i ≡ some (column, value)
    → get_elem? (values_of items ++ more) i ≡ some value
unfolding values_of
get_elem?-values_of [] more i e = cc
get_elem?-values_of ((c, v) ∷ items) more zero e = ground arith
get_elem?-values_of ((c, v) ∷ items) more (suc i) e = get_elem?-values_of items more i e

last-binds :
    (items : List (String × String)) (key_value : String)
    → get_elem? (values_of items ++ key_value ∷ []) (length items) ≡ some key_value
unfolding values_of
last-binds [] key_value = refl
last-binds ((c, v) ∷ items) key_value = last-binds items key_value

length-binds :
    (items : List (String × String)) (key_value : String)
    → length (values_of items ++ key_value ∷ []) ≡ length items + 1
unfolding values_of
length-binds [] key_value = omega arith
length-binds ((c, v) ∷ items) key_value = omega (arith, length-binds items key_value)

-- The item of the SET clause at place i, counted from 0, names its column and the placeholder i + 1, and
-- the value bound at place i is the item's. The statement is the update of all items where the key column
-- has the value of the placeholder after theirs, the key is bound at that place, and nothing is bound
-- behind it.
pub placeholders-binds :
    (driver table key_column key_value : String) (items : List (String × String)) (i : ℕ)
    {column value : String}
    → get_elem? items i ≡ some (column, value)
    → (get_elem? (set_items driver 1 items) i
        ≡ some (concat (column ∷ " = " ∷ mark driver (1 + i) ∷ [])))
      × (get_elem? (binds items key_value) i ≡ some value)
      × (update_sql driver table key_column items
          ≡ concat (
              "UPDATE "
              ∷ table
              ∷ " SET "
              ∷ assignments driver 1 items
              ∷ " WHERE "
              ∷ key_column
              ∷ " = "
              ∷ mark driver (length items + 1)
              ∷ []))
      × (get_elem? (binds items key_value) (length items) ≡ some key_value)
      × (length (binds items key_value) ≡ length items + 1)
unfolding binds
placeholders-binds driver table key_column key_value items i e = (
  get_elem?-set_items driver 1 items i e,
  get_elem?-values_of items (key_value ∷ []) i e,
  update_sql-eq driver table key_column items,
  last-binds items key_value,
  length-binds items key_value,
)
