-- ===== src/Db/Calls.antt =====
-- src/connectors/db.rs: the calls of a database, noted in the order in which they are made.
use nexusid_agent.Common.{◌≡◌, refl, sym, ◌∙◌, ap, subst, String, List, [], ◌∷◌}
use nexusid_agent.Common.Dict.{Dict}
use nexusid_agent.Error.{Result, ok, err, ok_inj}
use nexusid_agent.Effect.{pure, and_then}
use nexusid_agent.Trace.{noting, Emits, Adds-one, Emits-bind, Emits-pure}
use nexusid_agent.Db.Statement.{
  select_text, select_sql-eq, update_text, bound_values, update_sql-eq, binds-eq,
}
use nexusid_agent.Db.{
  Database, DbConnector, select_sql, by_canonical, writable, update_sql, binds, connect,
  pull_records, named, run_update, apply_writeback,
}

pub data Query : Type 0 where
  opened : (url : String) → Query
  fetched : (sql : String) → Query
  executed : (sql : String) (bound : List String) → Query

-- Any database, with a list of the calls made so far.
abbrev pub noted : Database → Database
noted d = record {
  State = d.State × List Query;
  Pool = d.Pool;
  open_pool = λ url. noting (opened url) (d.open_pool url);
  fetch_all = λ pool sql. noting (fetched sql) (d.fetch_all pool sql);
  execute = λ pool sql bound. noting (executed sql bound) (d.execute pool sql bound);
}

module _ (d : Database) (P : Query → Type 0) where
  abbrev pub queries : (noted d).State → List Query
  queries s = s.1

  pub pull_records-Emits :
      (conn : DbConnector d.Pool)
      → P (fetched (select_text conn.table conn.fields))
      → Emits queries P (pull_records (noted d) conn)
  unfolding pull_records
  pull_records-Emits conn may =
      Emits-bind _ _
        (record {
          at = λ s.
              Adds-one (fetched (select_sql conn.table conn.fields)) refl
                (subst (λ t. P (fetched t)) (sym (select_sql-eq conn.table conn.fields)) may);
        })
        (λ rows. Emits-pure _)

  run_update-Emits :
      (conn : DbConnector d.Pool) (key : String) (items : List (String × String))
      → ((item : String × String) (rest : List (String × String))
          → items ≡ item ∷ rest
          → P (
              executed
                (update_text conn.driver conn.table conn.key_column (item ∷ rest))
                (bound_values (item ∷ rest) key)))
      → Emits queries P (run_update (noted d) conn key items)
  unfolding run_update
  run_update-Emits conn key [] may = Emits-pure 0
  run_update-Emits conn key (item ∷ items) may = record {
    at = λ s.
        Adds-one
          (executed (update_sql conn.driver conn.table conn.key_column (item ∷ items))
            (binds (item ∷ items) key))
          refl
          (subst P
            (ap (λ t. executed t (bound_values (item ∷ items) key))
                (sym (update_sql-eq conn.driver conn.table conn.key_column (item ∷ items)))
              ∙ ap (executed (update_sql conn.driver conn.table conn.key_column (item ∷ items)))
                  (sym (binds-eq (item ∷ items) key)))
            (may item items refl));
  }

  pub apply_writeback-Emits :
      (conn : DbConnector d.Pool) (key : String) (changes : Dict String)
      → ((item : String × String) (rest : List (String × String))
          → writable (by_canonical (λ column. column) conn.fields []) changes ≡ item ∷ rest
          → P (
              executed
                (update_text conn.driver conn.table conn.key_column (item ∷ rest))
                (bound_values (item ∷ rest) key)))
      → Emits queries P (apply_writeback (noted d) conn key changes)
  unfolding apply_writeback
  apply_writeback-Emits conn key changes may = run_update-Emits conn key _ may

  pub connect-Emits :
      (url driver table key_column : String) (fields : Dict String)
      → P (opened url)
      → Emits queries P (connect (noted d) url driver table key_column fields)
  unfolding connect
  connect-Emits url driver table key_column fields may =
      Emits-bind _ _ (record { at = λ s. Adds-one (opened url) refl may }) (λ pool. Emits-pure _)

module _ (table key_column driver : String) (fields : Dict String) {Pool : Type 0} where
  abbrev pub connector : Pool → DbConnector Pool
  connector pool = record {
    pool = pool;
    table = table;
    key_column = key_column;
    fields = fields;
    driver = driver;
  }

  settings-of :
      {S : Type 0} (r : Result String Pool × S) {c : DbConnector Pool} {t : S}
      → and_then (λ pool. pure (connector pool)) (named "connect" r) ≡ (ok c, t)
      → c ≡ connector c.pool
  unfolding named
  settings-of (ok pool, s) q =
      let e = ok_inj (ap (λ z. z.0) q) in sym e ∙ ap (λ (z : DbConnector Pool). connector z.pool) e
  settings-of (err e, s) q = cc q

-- A connector that was connected has the settings it was connected with.
pub connect-settings :
    (d : Database) (url driver table key_column : String) (fields : Dict String) (s : d.State)
    {t : d.State} {c : DbConnector d.Pool}
    → connect d url driver table key_column fields s ≡ (ok c, t)
    → c ≡ connector table key_column driver fields c.pool
unfolding connect
connect-settings d url driver table key_column fields s q =
    settings-of table key_column driver fields (d.open_pool url s) q
