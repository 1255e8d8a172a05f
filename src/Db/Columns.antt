-- ===== src/Db/Columns.antt =====
-- src/connectors/db.rs: the column map read from the canonical fields.
use nexusid_agent.Common.{
  ◌≡◌, refl, sym, subst, ◌∙◌, ap, ◌≢◌, ◌⊎◌, inl, inr, String, some, [], ◌∷◌, Has, arith, eq_iff,
}
use nexusid_agent.Common.Dict.{Dict, get, insert, get-insert, get-insert_if, Has-insert}
use nexusid_agent.Db.{by_canonical}

-- `canonical` is not the field of a column.
abbrev pub Unused : String → Dict String → Type 0
Unused canonical [] = Unit
Unused canonical ((column, other) ∷ rest) = (other ≢ canonical) × Unused canonical rest

-- No two columns have the same canonical field.
abbrev pub Distinct : Dict String → Type 0
Distinct [] = Unit
Distinct ((column, canonical) ∷ rest) = Unused canonical rest × Distinct rest

module _ {V : Type 0} (value : String → V) where
  by_canonical-Unused :
      (canonical : String) (fields : Dict String) (m : Dict V)
      → Unused canonical fields
      → get canonical (by_canonical value fields m) ≡ get canonical m
  unfolding by_canonical
  by_canonical-Unused canonical [] m u = refl
  by_canonical-Unused canonical ((column, other) ∷ rest) m (n, u) =
      by_canonical-Unused canonical rest _ u
      ∙ ground (arith, get-insert_if other canonical (value column) m, eq_iff other canonical)

  -- A canonical field that one column alone has gets this column's value.
  pub get-by_canonical :
      (column canonical : String) (fields : Dict String) (m : Dict V)
      → Distinct fields
      → Has (column, canonical) fields
      → get canonical (by_canonical value fields m) ≡ some (value column)
  unfolding by_canonical
  get-by_canonical column canonical [] m d h = absurd h
  get-by_canonical column canonical ((c, k) ∷ rest) m (u, d) (inl e) =
      let same : c ≡ column = ap (λ t. t.0) e in
      let key : k ≡ canonical = ap (λ t. t.1) e in
      ap (λ j. get j (by_canonical value ((c, k) ∷ rest) m)) (sym key)
      ∙ by_canonical-Unused k rest _ u
      ∙ get-insert k (value c) m
      ∙ ap (λ j. some (value j)) same
  get-by_canonical column canonical ((c, k) ∷ rest) m (u, d) (inr h) =
      get-by_canonical column canonical rest _ d h

  -- Each entry comes from a column of that canonical field.
  Has-by_canonical_source :
      (canonical : String) (v : V) (fields : Dict String) (m : Dict V)
      → Has (canonical, v) (by_canonical value fields m)
      → Has (canonical, v) m
        ⊎ ((column : String) × Has (column, canonical) fields × (value column ≡ v))
  unfolding by_canonical
  Has-by_canonical_source canonical v [] m h = inl h
  Has-by_canonical_source canonical v ((c, k) ∷ rest) m h =
      elim (Has-by_canonical_source canonical v rest (insert k (value c) m) h) [
        | inr (column, i, e) ↦ inr (column, inr i, e)
        | inl i ↦ elim (Has-insert k canonical (value c) v m i) [
          | inl old ↦ inl old
          | inr (same, new) ↦ inr (c, inl (ap (λ t. (c, t)) same), new)
        ]
      ]

Unused-Has :
    (column canonical : String) (fields : Dict String)
    → Unused canonical fields
    → ¬ Has (column, canonical) fields
Unused-Has column canonical [] u h = h
Unused-Has column canonical ((c, k) ∷ rest) (n, u) (inl e) = n (ap (λ t. t.1) e)
Unused-Has column canonical ((c, k) ∷ rest) (n, u) (inr h) = Unused-Has column canonical rest u h

one_column :
    (column other canonical : String) (fields : Dict String)
    → Distinct fields
    → Has (column, canonical) fields
    → Has (other, canonical) fields
    → other ≡ column
one_column column other canonical [] d h i = absurd h
one_column column other canonical ((c, k) ∷ rest) (u, d) (inl e) (inl f) =
    sym (ap (λ t. t.0) f) ∙ ap (λ t. t.0) e
one_column column other canonical ((c, k) ∷ rest) (u, d) (inl e) (inr i) =
    absurd (Unused-Has other k rest u (subst (λ t. Has (other, t) rest) (sym (ap (λ t. t.1) e)) i))
one_column column other canonical ((c, k) ∷ rest) (u, d) (inr h) (inl f) =
    absurd
      (Unused-Has column k rest u (subst (λ t. Has (column, t) rest) (sym (ap (λ t. t.1) f)) h))
one_column column other canonical ((c, k) ∷ rest) (u, d) (inr h) (inr i) =
    one_column column other canonical rest d h i

-- The value that is kept for a canonical field is the one of its column.
pub Has-by_canonical :
    {V : Type 0} (value : String → V) (column canonical : String) (v : V) (fields : Dict String)
    → Distinct fields
    → Has (column, canonical) fields
    → Has (canonical, v) (by_canonical value fields [])
    → value column ≡ v
Has-by_canonical value column canonical v fields d c m =
    elim (Has-by_canonical_source value canonical v fields [] m) [
      | inl h ↦ absurd h
      | inr (other, i, e) ↦ ap value (sym (one_column column other canonical fields d c i)) ∙ e
    ]
