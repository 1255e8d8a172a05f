-- ===== src/Db/Bounds.antt =====
-- src/connectors/db.rs, `pull_records`: no more records than rows.
use nexusid_agent.Common.{
  ℕ, suc, ◌<◌, ◌≡◌, refl, sym, ap, subst, String, List, [], ◌∷◌, length, map,
}
use nexusid_agent.Error.{Result, ok, err, ok_inj}
use nexusid_agent.Effect.{pure, and_then}
use nexusid_agent.Json.{Value}
use nexusid_agent.Db.{Row, Database, DbConnector, named, record_of, pull_records}

length-map : {A B : Type 0} (f : A → B) (xs : List A) → length (map f xs) ≡ length xs
length-map f [] = refl
length-map f (a ∷ xs) = ap suc (length-map f xs)

rows-bounded :
    {S : Type 0} (f : Row → Value) (bound : ℕ) (r : Result String (List Row) × S)
    → ((rows : List Row) (t : S) → r ≡ (ok rows, t) → length rows < bound)
    → {values : List Value} {t : S}
    → and_then (λ rows. pure (map f rows)) (named "pull" r) ≡ (ok values, t)
    → length values < bound
unfolding named
rows-bounded f bound (ok rows, s) fit q =
    subst (λ (vs : List Value). length vs < bound) (ok_inj (ap (λ z. z.0) q))
      (subst (λ n. n < bound) (sym (length-map f rows)) (fit rows s refl))
rows-bounded f bound (err e, s) fit q = cc q

-- If no query gives as many rows, there are fewer records than the bound.
pub pull_records-bounded :
    (d : Database) (bound : ℕ)
    → ((pool : d.Pool) (sql : String) (s : d.State) (rows : List Row) (t : d.State)
        → d.fetch_all pool sql s ≡ (ok rows, t)
        → length rows < bound)
    → (conn : DbConnector d.Pool) (s : d.State) {values : List Value} {t : d.State}
    → pull_records d conn s ≡ (ok values, t)
    → length values < bound
unfolding pull_records
pull_records-bounded d bound fit conn s q =
    rows-bounded (record_of conn.fields) bound _ (fit conn.pool _ s) q
