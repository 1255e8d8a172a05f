-- ===== src/Db/Tests.antt =====
-- A table with two mapped columns.
use nexusid_agent.Common.{
  ◌+◌, ◌≡◌, ◌↔◌, refl, ap, String, List, [], ◌∷◌, none, some, concat, get_elem?, Has, length,
  str_eq, if◌then◌else◌, show,
}
use nexusid_agent.Common.Dict.{Dict, get}
use nexusid_agent.Json.{Value, object, entries}
use nexusid_agent.Ldap.{eq_ignore_ascii_case}
use nexusid_agent.Db.{update_sql, Row, col_to_json, record_of, writable, set_items, binds}
use nexusid_agent.Db.Columns.{Distinct}
use nexusid_agent.Db.Writeback.{reverse_of, writable_iff}
use nexusid_agent.Db.Shape.{Field, record_of-IsRecord}
use nexusid_agent.Db.RoundTrip.{texts_of, ReadsAs, pulled, pull-writeback}
use nexusid_agent.Db.Statement.{mark}
use nexusid_agent.Db.Placeholders.{placeholders-binds}

abbrev fields : Dict String
fields = ("mail", "email") ∷ ("tel", "phone") ∷ []

abbrev requested : Dict String
requested = ("phone", "555") ∷ ("title", "boss") ∷ []

fields-Distinct : Distinct fields
fields-Distinct = ((λ e. cc (ap (λ s. str_eq s "email") e), tt), (tt, tt))

writable_iff_example :
    Has ("tel", "555") (writable (reverse_of fields) requested)
    ↔ ((canonical : String) × Has ("tel", canonical) fields × Has (canonical, "555") requested)
writable_iff_example = writable_iff fields requested "tel" "555" fields-Distinct

abbrev text : String → String
text column = if str_eq column "mail" then "a@corp" else "556"

abbrev row : Row
row = record {
  columns = "mail" ∷ "tel" ∷ [];
  try_string = λ column. some (some (text column));
  try_i64 = λ column. none;
  try_f64 = λ column. none;
  try_bool = λ column. none;
}

row-ReadsAs : ReadsAs row text fields
unfolding col_to_json
row-ReadsAs = (refl, (refl, tt))

pull-writeback_example :
    (record_of fields row ≡ object (entries (texts_of (pulled text fields))))
    × (Has ("tel", "556") (writable (reverse_of fields) (pulled text fields))
        ↔ (((canonical : String) × Has ("tel", canonical) fields) × ("556" ≡ text "tel")))
pull-writeback_example = pull-writeback row text fields "tel" "556" row-ReadsAs fields-Distinct

abbrev items : List (String × String)
items = ("mail", "b@corp") ∷ ("tel", "557") ∷ []

placeholders-binds_example :
    (get_elem? (set_items "postgres" 1 items) 1
      ≡ some (concat ("tel" ∷ " = " ∷ mark "postgres" (1 + 1) ∷ [])))
    × (get_elem? (binds items "7") 1 ≡ some "557")
    × (update_sql "postgres" "users" "id" items
        ≡ "UPDATE users SET mail = $1, tel = $2 WHERE id = $3")
    × (get_elem? (binds items "7") 2 ≡ some "7")
    × (length (binds items "7") ≡ 2 + 1)
unfolding show eq_ignore_ascii_case
placeholders-binds_example = placeholders-binds "postgres" "users" "id" "7" items 1 refl

record_of-IsRecord_example :
    (m : Dict Value) × (record_of fields row ≡ object (entries m))
    × ((canonical : String) → Field row fields canonical (get canonical m))
record_of-IsRecord_example = record_of-IsRecord fields row
