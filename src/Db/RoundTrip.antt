-- ===== src/Db/RoundTrip.antt =====
-- src/connectors/db.rs: a record that was read is written back to the columns it came from.
use nexusid_agent.Common.{◌≡◌, refl, sym, ◌∙◌, ap, ◌↔◌, String, [], ◌∷◌, Has, All, some, arith}
use nexusid_agent.Common.Dict.{Dict, insert, get-Has}
use nexusid_agent.Json.{Value, string, object, entries}
use nexusid_agent.Db.{Row, by_canonical, writable, record_of, col_to_json}
use nexusid_agent.Db.Columns.{Distinct, get-by_canonical, Has-by_canonical}
use nexusid_agent.Db.Writeback.{reverse_of, writable_iff}

pub texts_of : Dict String → Dict Value
texts_of [] = []
texts_of ((k, v) ∷ m) = (k, string v) ∷ texts_of m

insert-texts_of :
    (k v : String) (m : Dict String) → insert k (string v) (texts_of m) ≡ texts_of (insert k v m)
unfolding texts_of
insert-texts_of k v [] = refl
insert-texts_of k v ((j, w) ∷ m) = ground (arith, insert-texts_of k v m)

-- What is read of a row whose columns are texts.
abbrev pub ReadsAs : Row → (String → String) → Dict String → Type 0
ReadsAs row text fields =
    All (λ (e : String × String). col_to_json row e.0 ≡ string (text e.0)) fields

by_canonical-texts_of :
    (row : Row) (text : String → String) (fields : Dict String) (m : Dict String)
    → ReadsAs row text fields
    → by_canonical (col_to_json row) fields (texts_of m) ≡ texts_of (by_canonical text fields m)
unfolding by_canonical
by_canonical-texts_of row text [] m h = refl
by_canonical-texts_of row text ((c, k) ∷ rest) m (h, hs) =
    rw (h, insert-texts_of k (text c) m)
      (by_canonical-texts_of row text rest (insert k (text c) m) hs)

-- What is read of a row of texts, by canonical fields.
abbrev pub pulled : (String → String) → Dict String → Dict String
pulled text fields = by_canonical text fields []

-- A row of texts is pulled as the record of these texts by canonical fields. If no two columns have the
-- same canonical field, writing this record back sets the columns of the map, each to its own text.
pub pull-writeback :
    (row : Row) (text : String → String) (fields : Dict String) (column value : String)
    → ReadsAs row text fields
    → Distinct fields
    → (record_of fields row ≡ object (entries (texts_of (pulled text fields))))
      × (Has (column, value) (writable (reverse_of fields) (pulled text fields))
          ↔ (((canonical : String) × Has (column, canonical) fields) × (value ≡ text column)))
unfolding record_of texts_of
pull-writeback row text fields column value h d = (
  ap (λ m. object (entries m)) (by_canonical-texts_of row text fields [] h),
  (
    λ k.
        let (canonical, c, m) = (writable_iff fields (pulled text fields) column value d).0 k in
        ((canonical, c), sym (Has-by_canonical text column canonical value fields d c m)),
    λ ((canonical, c), e). (writable_iff fields (pulled text fields) column value d).1 (
      canonical,
      c,
      get-Has canonical value (pulled text fields)
          (get-by_canonical text column canonical fields [] d c ∙ ap (λ t. some t) (sym e)),
    ),
  ),
)
