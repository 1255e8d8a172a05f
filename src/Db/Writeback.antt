-- ===== src/Db/Writeback.antt =====
-- src/connectors/db.rs, `apply_writeback`: which columns are written with which values, and which value
-- stands for which placeholder.
use nexusid_agent.Common.{
  ◌≡◌, ◌∙◌, ap, subst, ◌↔◌, ◌⊎◌, inl, inr, String, some, [], ◌∷◌, Has, Option-cases,
}
use nexusid_agent.Common.Dict.{Dict, get, insert, get-insert_cases}
use nexusid_agent.Db.{by_canonical, writable}
use nexusid_agent.Db.Columns.{Distinct, get-by_canonical}

writable-Has :
    (reverse changes : Dict String) (column value : String)
    → Has (column, value) (writable reverse changes)
    → (canonical : String) × (get canonical reverse ≡ some column) × Has (canonical, value) changes
unfolding writable
writable-Has reverse [] column value h = absurd h
writable-Has reverse ((k, v) ∷ changes) column value h = elim (Option-cases (get k reverse)) [
  | inl e ↦
      let (c, g, m) = writable-Has reverse changes column value (rw (e, writable) at h) in
      (c, g, inr m)
  | inr (col, e) ↦
      let both : Has (column, value) ((col, v) ∷ writable reverse changes) =
        (rw (e, writable) at h) in
      elim both [
        | inl s ↦ (k, e ∙ ap (λ t. some t.0) s, inl (ap (λ t. (k, t.1)) s))
        | inr m ↦ let (c, g, n) = writable-Has reverse changes column value m in (c, g, inr n)
      ]
]

Has-writable :
    (reverse changes : Dict String) (column canonical value : String)
    → get canonical reverse ≡ some column
    → Has (canonical, value) changes
    → Has (column, value) (writable reverse changes)
unfolding writable
Has-writable reverse [] column canonical value g h = absurd h
Has-writable reverse ((k, v) ∷ changes) column canonical value g (inl e) =
    let key : get k reverse ≡ some column = ap (λ t. get t reverse) (ap (λ t. t.0) e) ∙ g in
    rw (key, writable) (inl (ap (λ t. (column, t.1)) e))
Has-writable reverse ((k, v) ∷ changes) column canonical value g (inr h) =
    elim (Option-cases (get k reverse)) [
      | inl e ↦ rw (e, writable) (Has-writable reverse changes column canonical value g h)
      | inr (col, e) ↦
          rw (e, writable) (inr (Has-writable reverse changes column canonical value g h))
    ]

module _ {V : Type 0} (value : String → V) where
  -- Each value comes from a column of that canonical field.
  by_canonical-Has :
      (canonical : String) (fields : Dict String) (m : Dict V) {v : V}
      → get canonical (by_canonical value fields m) ≡ some v
      → (get canonical m ≡ some v)
        ⊎ ((column : String) × Has (column, canonical) fields × (value column ≡ v))
  unfolding by_canonical
  by_canonical-Has canonical [] m e = inl e
  by_canonical-Has canonical ((c, k) ∷ rest) m {v} e =
      elim (by_canonical-Has canonical rest (insert k (value c) m) e) [
        | inr (column, h, q) ↦ inr (column, inr h, q)
        | inl q ↦ elim (get-insert_cases k canonical (value c) m q) [
          | inl old ↦ inl old
          | inr (same, new) ↦ inr (c, inl (ap (λ t. (c, t)) same), new)
        ]
      ]

abbrev pub reverse_of : Dict String → Dict String
reverse_of fields = by_canonical (λ column. column) fields []

-- Each item that is written is a mapped column with the value of a change to its canonical field.
pub writable-Mapped :
    (fields changes : Dict String) (column value : String)
    → Has (column, value) (writable (reverse_of fields) changes)
    → (canonical : String) × Has (column, canonical) fields × Has (canonical, value) changes
writable-Mapped fields changes column value h =
    let (canonical, g, m) = writable-Has (reverse_of fields) changes column value h in
    elim (by_canonical-Has (λ column. column) canonical fields [] g) [
      | inl e ↦ cc e
      | inr (c, k, e) ↦ (canonical, subst (λ t. Has (t, canonical) fields) e k, m)
    ]

-- If no two columns have the same canonical field, a writeback sets exactly the columns whose canonical
-- field is among the changes, each to a value that is given for this field.
pub writable_iff :
    (fields changes : Dict String) (column value : String)
    → Distinct fields
    → Has (column, value) (writable (reverse_of fields) changes)
      ↔ ((canonical : String) × Has (column, canonical) fields × Has (canonical, value) changes)
writable_iff fields changes column value d = (
  writable-Mapped fields changes column value,
  λ (canonical, k, m).
      Has-writable (reverse_of fields) changes column canonical value
        (get-by_canonical (λ column. column) column canonical fields [] d k) m,
)
