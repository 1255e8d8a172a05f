-- ===== src/Db.antt =====
-- src/connectors/db.rs: the database connector, which reads records and writes field changes back.
--
-- sqlx is the record `Database`, and a row of a result the record `Row`: for each of the four types that
-- are tried, a column gives an error (`none`), NULL, or a value. `Value::from` of an i64 or an f64 is
-- serde_json's, and part of the row.
pub mod Statement
pub mod Columns
pub mod Writeback
pub mod RoundTrip
pub mod Placeholders
pub mod Calls
pub mod Shape
pub mod Bounds
mod Tests
use nexusid_agent.Common.{
  ℕ, ◌+◌, String, Bool, true, false, Option, none, some, List, [], ◌∷◌, ◌++◌, map, ◌||◌, str_eq,
  concat, show, if◌then◌else◌,
}
use nexusid_agent.Common.Dict.{Dict, get, insert}
use nexusid_agent.Error.{Result, ok, err, AgentError, db, map_err}
use nexusid_agent.Effect.{M, pure, lift, ◌>>=◌}
use nexusid_agent.Json.{Value, null, string, bool, object, entries}
use nexusid_agent.Ldap.{eq_ignore_ascii_case}

pub record Row : Type 0 where
  pub columns : List String
  pub try_string : String → Option (Option String)
  pub try_i64 : String → Option (Option Value)
  pub try_f64 : String → Option (Option Value)
  pub try_bool : String → Option (Option Bool)

pub record Database : Type 1 where
  pub State : Type 0
  pub Pool : Type 0
  pub open_pool : (url : String) → State → Result String Pool × State
  pub fetch_all : Pool → (sql : String) → State → Result String (List Row) × State
  pub execute : Pool → (sql : String) → (binds : List String) → State → Result String ℕ × State

-- `fields` goes from the column to the canonical field.
pub record DbConnector (Pool : Type 0) : Type 0 where
  pub pool : Pool
  pub table : String
  pub key_column : String
  pub fields : Dict String
  pub driver : String

contains : List String → String → Bool
contains [] name = false
contains (c ∷ cs) name = str_eq c name || contains cs name

-- `v.map(Value::from).unwrap_or(Value::Null)`
abbrev pub or_else_null : {A : Type 0} → (A → Value) → Option A → Value
or_else_null f none = null
or_else_null f (some a) = f a

first_type : Row → String → Value
first_type row name = elim (row.try_string name) [
  | some v ↦ or_else_null string v
  | none ↦ elim (row.try_i64 name) [
    | some v ↦ or_else_null (λ n. n) v
    | none ↦ elim (row.try_f64 name) [
      | some v ↦ or_else_null (λ n. n) v
      | none ↦ elim (row.try_bool name) [ some v ↦ or_else_null bool v | none ↦ null ]
    ]
  ]
]

unfoldable pub col_to_json : Row → String → Value
unfolding contains first_type
col_to_json row name = if contains row.columns name then first_type row name else null

-- A map from canonical fields, filled in the order of the columns: a later column takes the place of an
-- earlier one with the same canonical field.
unfoldable pub by_canonical : {V : Type 0} → (String → V) → Dict String → Dict V → Dict V
by_canonical value [] m = m
by_canonical value ((column, canonical) ∷ rest) m =
    by_canonical value rest (insert canonical (value column) m)

unfoldable pub join : String → List String → String
join sep [] = ""
join sep (s ∷ []) = s
join sep (s ∷ t ∷ rest) = concat (s ∷ sep ∷ join sep (t ∷ rest) ∷ [])

columns_of : Dict String → List String
columns_of [] = []
columns_of ((column, canonical) ∷ rest) = column ∷ columns_of rest

unfoldable pub select_sql : String → Dict String → String
unfolding columns_of
select_sql table fields = concat ("SELECT " ∷ join ", " (columns_of fields) ∷ " FROM " ∷ table ∷ [])

unfoldable pub record_of : Dict String → Row → Value
record_of fields row = object (entries (by_canonical (col_to_json row) fields []))

unfoldable pub placeholder : String → ℕ → String
placeholder driver n =
    if eq_ignore_ascii_case driver "postgres" then concat ("$" ∷ show n ∷ []) else "?"

-- The columns that are written, each with its new value; `reverse` goes from the canonical field to the
-- column.
unfoldable pub writable : (reverse : Dict String) → Dict String → List (String × String)
writable reverse [] = []
writable reverse ((canonical, value) ∷ changes) = elim (get canonical reverse) [
  | some column ↦ (column, value) ∷ writable reverse changes
  | none ↦ writable reverse changes
]

-- `idx` is the number of the next placeholder.
unfoldable pub set_items : String → ℕ → List (String × String) → List String
set_items driver idx [] = []
set_items driver idx ((column, value) ∷ rest) =
    concat (column ∷ " = " ∷ placeholder driver idx ∷ []) ∷ set_items driver (idx + 1) rest

pub after_items : ℕ → List (String × String) → ℕ
after_items idx [] = idx
after_items idx (_ ∷ rest) = after_items (idx + 1) rest

unfoldable pub update_sql : String → (table key_column : String) → List (String × String) → String
unfolding after_items
update_sql driver table key_column items = concat (
    "UPDATE "
    ∷ table
    ∷ " SET "
    ∷ join ", " (set_items driver 1 items)
    ∷ " WHERE "
    ∷ key_column
    ∷ " = "
    ∷ placeholder driver (after_items 1 items)
    ∷ [])

values_of : List (String × String) → List String
values_of [] = []
values_of ((column, value) ∷ rest) = value ∷ values_of rest

-- The bound values, the key's last.
unfoldable pub binds : List (String × String) → String → List String
unfolding values_of
binds items key_value = values_of items ++ key_value ∷ []

-- `map_err` of a call, beside the state
named : {A S : Type 0} → String → Result String A × S → Result AgentError A × S
named what (r, s) = (map_err (λ e. db (concat (what ∷ ": " ∷ e ∷ []))) r, s)

module _ (d : Database) where
  open d use {State, Pool, fetch_all, execute}

  unfoldable pub connect :
      (url driver table key_column : String) → Dict String → M State (DbConnector Pool)
  unfolding named
  connect url driver table key_column fields = do
    pool ← (λ s. named "connect" (d.open_pool url s))
    pure (record {
      pool = pool;
      table = table;
      key_column = key_column;
      fields = fields;
      driver = driver;
    })

  unfoldable pub pull_records : DbConnector Pool → M State (List Value)
  unfolding named
  pull_records c = do
    rows ← (λ s. named "pull" (fetch_all c.pool (select_sql c.table c.fields) s))
    pure (map (record_of c.fields) rows)

  run_update : DbConnector Pool → String → List (String × String) → M State ℕ
  unfolding named
  run_update c key_value [] s = pure 0 s
  run_update c key_value (item ∷ items) s = named "writeback" (
      execute c.pool (update_sql c.driver c.table c.key_column (item ∷ items))
        (binds (item ∷ items) key_value) s)

  -- Without a column to write nothing is executed.
  unfoldable pub apply_writeback : DbConnector Pool → String → Dict String → M State ℕ
  unfolding run_update
  apply_writeback c key_value changes =
      run_update c key_value (writable (by_canonical (λ column. column) c.fields []) changes)
