-- ===== src/Db/Shape.antt =====
-- src/connectors/db.rs, `pull_records`: the shape of the records.
use nexusid_agent.Common.{
  ◌≡◌, refl, sym, ◌∙◌, ap, ◌⊎◌, inl, inr, String, Bool, true, Option, none, some, List, [], ◌∷◌,
  Has, ◌↔◌, arith, eq_iff, Bool-cases, Option-cases, str_eq,
}
use nexusid_agent.Common.Dict.{Dict, get, insert, get-insert_if}
use nexusid_agent.Json.{Value, null, string, bool, object, entries}
use nexusid_agent.Db.{Row, contains, or_else_null, first_type, col_to_json, by_canonical, record_of}

-- What a column gives: null if the row has no such column or no type reads it, and else what the first
-- type gives that reads it.
pub data Cell (row : Row) (column : String) (v : Value) : Type 0 where
  missing : ¬ Has column row.columns → v ≡ null → Cell row column v
  text :
      (o : Option String)
      → Has column row.columns
      → row.try_string column ≡ some o
      → v ≡ or_else_null string o
      → Cell row column v
  integer :
      (o : Option Value)
      → Has column row.columns
      → row.try_string column ≡ none
      → row.try_i64 column ≡ some o
      → v ≡ or_else_null (λ n. n) o
      → Cell row column v
  real :
      (o : Option Value)
      → Has column row.columns
      → row.try_string column ≡ none
      → row.try_i64 column ≡ none
      → row.try_f64 column ≡ some o
      → v ≡ or_else_null (λ n. n) o
      → Cell row column v
  flag :
      (o : Option Bool)
      → Has column row.columns
      → row.try_string column ≡ none
      → row.try_i64 column ≡ none
      → row.try_f64 column ≡ none
      → row.try_bool column ≡ some o
      → v ≡ or_else_null bool o
      → Cell row column v
  unread :
      Has column row.columns
      → row.try_string column ≡ none
      → row.try_i64 column ≡ none
      → row.try_f64 column ≡ none
      → row.try_bool column ≡ none
      → v ≡ null
      → Cell row column v

-- What a record may hold for a canonical field.
pub data Field (row : Row) (fields : Dict String) (canonical : String) (held : Option Value)
    : Type 0 where
  unmapped :
      ((column : String) → ¬ Has (column, canonical) fields)
      → held ≡ none
      → Field row fields canonical held
  mapped :
      {v : Value} (column : String)
      → Has (column, canonical) fields
      → Cell row column v
      → held ≡ some v
      → Field row fields canonical held

first_type-Cell :
    (row : Row) (column : String) → Has column row.columns → Cell row column (first_type row column)
unfolding first_type
first_type-Cell row column c = elim (Option-cases (row.try_string column)) [
  | inr (o, s) ↦ text o c s (rw (s, first_type) refl)
  | inl s ↦ elim (Option-cases (row.try_i64 column)) [
    | inr (o, i) ↦ integer o c s i (rw (s, i, first_type) refl)
    | inl i ↦ elim (Option-cases (row.try_f64 column)) [
      | inr (o, f) ↦ real o c s i f (rw (s, i, f, first_type) refl)
      | inl f ↦ elim (Option-cases (row.try_bool column)) [
        | inr (o, b) ↦ flag o c s i f b (rw (s, i, f, b, first_type) refl)
        | inl b ↦ unread c s i f b (rw (s, i, f, b, first_type) refl)
      ]
    ]
  ]
]

contains_iff :
    (columns : List String) (name : String) → (contains columns name ≡ true) ↔ Has name columns
unfolding contains
contains_iff [] name = (λ e. cc e, λ h. absurd h)
contains_iff (c ∷ columns) name = ground (arith, eq_iff c name, contains_iff columns name)

col_to_json-Cell : (row : Row) (column : String) → Cell row column (col_to_json row column)
unfolding col_to_json
col_to_json-Cell row column = elim (Bool-cases (contains row.columns column)) [
  | inl there ↦
      rw (there, col_to_json)
        (first_type-Cell row column ((contains_iff row.columns column).0 there))
  | inr gone ↦
      missing (λ h. cc (sym gone ∙ (contains_iff row.columns column).1 h))
        (rw (gone, col_to_json) refl)
]

-- The last column with a canonical field fills it; without one it stays.
get-by_canonical_cases :
    {V : Type 0} (value : String → V) (canonical : String) (fields : Dict String) (m : Dict V)
    → (((column : String) → ¬ Has (column, canonical) fields)
        × (get canonical (by_canonical value fields m) ≡ get canonical m))
      ⊎ ((column : String) × Has (column, canonical) fields
          × (get canonical (by_canonical value fields m) ≡ some (value column)))
unfolding by_canonical
get-by_canonical_cases value canonical [] m = inl (λ c h. h, refl)
get-by_canonical_cases value canonical ((column, other) ∷ rest) m =
    elim (get-by_canonical_cases value canonical rest (insert other (value column) m)) [
      | inr (c, h, e) ↦ inr (c, inr h, e)
      | inl (none_left, e) ↦ elim (Bool-cases (str_eq other canonical)) [
        | inl t ↦ inr (
          column,
          inl (ap (λ k. (column, k)) ((eq_iff other canonical).0 t)),
          e ∙ get-insert_if other canonical (value column) m ∙ rw t refl,
        )
        | inr f ↦ inl (
          λ c h. elim h [
            | inl same ↦ cc (sym f ∙ (eq_iff other canonical).1 (ap (λ k. k.1) same))
            | inr later ↦ none_left c later
          ],
          e ∙ get-insert_if other canonical (value column) m ∙ rw f refl,
        )
      ]
    ]

-- A pulled record is an object that has a value for a canonical field exactly if a column is mapped to
-- it, and this value is what one of these columns gives: null, or what the first type that reads it
-- gives.
pub record_of-IsRecord :
    (fields : Dict String) (row : Row)
    → (m : Dict Value) × (record_of fields row ≡ object (entries m))
      × ((canonical : String) → Field row fields canonical (get canonical m))
unfolding record_of
record_of-IsRecord fields row = (
  by_canonical (col_to_json row) fields [],
  refl,
  λ canonical. elim (get-by_canonical_cases (col_to_json row) canonical fields []) [
    | inl (nowhere, e) ↦ unmapped nowhere e
    | inr (column, h, e) ↦ mapped column h (col_to_json-Cell row column) e
  ],
)
