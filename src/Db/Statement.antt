-- ===== src/Db/Statement.antt =====
-- src/connectors/db.rs: the query of `pull_records` and the statement of `apply_writeback`, written out
-- apart from the loops that build them, and the values that are bound to the statement.
use nexusid_agent.Common.{
  ℕ, ◌+◌, ◌≡◌, refl, ◌∙◌, ap, String, List, [], ◌∷◌, ◌++◌, map, length, arith, cat, concat, show,
  if◌then◌else◌,
}
use nexusid_agent.Common.Dict.{Dict}
use nexusid_agent.Ldap.{eq_ignore_ascii_case}
use nexusid_agent.Db.{
  columns_of, select_sql, join, placeholder, set_items, after_items, update_sql, values_of, binds,
}

-- The place of the n-th bound value: PostgreSQL numbers its places, the other drivers do not.
abbrev pub mark : (driver : String) → ℕ → String
mark driver n = if eq_ignore_ascii_case driver "postgres" then concat ("$" ∷ show n ∷ []) else "?"

-- The columns to set, each with its place, the first one's number being n.
abbrev pub assignments : (driver : String) → ℕ → List (String × String) → String
assignments driver n [] = ""
assignments driver n ((column, _) ∷ []) = concat (column ∷ " = " ∷ mark driver n ∷ [])
assignments driver n ((column, _) ∷ (next, value) ∷ items) =
    cat (concat (column ∷ " = " ∷ mark driver n ∷ []))
      (cat ", " (assignments driver (n + 1) ((next, value) ∷ items)))

-- The mapped columns, in the order of the map.
abbrev pub column_list : Dict String → String
column_list [] = ""
column_list ((column, _) ∷ []) = column
column_list ((column, _) ∷ (next, canonical) ∷ fields) =
    cat column (cat ", " (column_list ((next, canonical) ∷ fields)))

-- The mapped columns of all rows.
abbrev pub select_text : (table : String) → Dict String → String
select_text table fields = concat ("SELECT " ∷ column_list fields ∷ " FROM " ∷ table ∷ [])

-- An update of the rows whose key column has the value that is bound behind the items' values.
abbrev pub update_text : (driver table key_column : String) → List (String × String) → String
update_text driver table key_column items = concat (
    "UPDATE "
    ∷ table
    ∷ " SET "
    ∷ assignments driver 1 items
    ∷ " WHERE "
    ∷ key_column
    ∷ " = "
    ∷ mark driver (length items + 1)
    ∷ [])

-- The items' values, and then the key.
abbrev pub bound_values : List (String × String) → String → List String
bound_values items key = map (λ i. i.1) items ++ key ∷ []

join-set_items :
    (driver : String) (n : ℕ) (items : List (String × String))
    → join ", " (set_items driver n items) ≡ assignments driver n items
unfolding set_items placeholder join
join-set_items driver n [] = refl
join-set_items driver n ((c, v) ∷ []) = refl
join-set_items driver n ((c, v) ∷ (c', v') ∷ items) =
    ap (λ t. cat (concat (c ∷ " = " ∷ mark driver n ∷ [])) (cat ", " t))
      (join-set_items driver (n + 1) ((c', v') ∷ items))

after_items-eq : (n : ℕ) (items : List (String × String)) → after_items n items ≡ length items + n
unfolding after_items
after_items-eq n [] = omega arith
after_items-eq n (item ∷ items) = after_items-eq (n + 1) items ∙ omega arith

pub update_sql-eq :
    (driver table key_column : String) (items : List (String × String))
    → update_sql driver table key_column items ≡ update_text driver table key_column items
unfolding update_sql placeholder
update_sql-eq driver table key_column items =
    rw (join-set_items driver 1 items, after_items-eq 1 items) refl

values_of-eq : (items : List (String × String)) → values_of items ≡ map (λ i. i.1) items
unfolding values_of
values_of-eq [] = refl
values_of-eq ((c, v) ∷ items) = ap (λ vs. v ∷ vs) (values_of-eq items)

pub binds-eq :
    (items : List (String × String)) (key : String) → binds items key ≡ bound_values items key
unfolding binds
binds-eq items key = ap (λ vs. vs ++ key ∷ []) (values_of-eq items)

join-columns_of : (fields : Dict String) → join ", " (columns_of fields) ≡ column_list fields
unfolding join columns_of
join-columns_of [] = refl
join-columns_of ((c, k) ∷ []) = refl
join-columns_of ((c, k) ∷ (c', k') ∷ fields) =
    ap (λ t. cat c (cat ", " t)) (join-columns_of ((c', k') ∷ fields))

pub select_sql-eq :
    (table : String) (fields : Dict String) → select_sql table fields ≡ select_text table fields
unfolding select_sql
select_sql-eq table fields = rw (join-columns_of fields) refl
