-- ===== src/Json.antt =====
-- JSON values as the agent builds them with `serde_json::json!`. How they are printed and parsed is
-- serde_json's, and a parameter of what prints them.
use nexusid_agent.Common.{ℕ, String, Bool, List, [], ◌∷◌, Option, none, some}
use nexusid_agent.Common.Dict.{Dict, insert}

-- An array's elements and an object's entries are lists of their own, declared in the block.
mutual
  pub data Value : Type 0 where
    null : Value
    bool : Bool → Value
    number : ℕ → Value
    string : String → Value
    array : Items → Value
    object : Entries → Value

  pub data Items : Type 0 where
    nil : Items
    cons : Value → Items → Items

  pub data Entries : Type 0 where
    end : Entries
    entry : String → Value → Entries → Entries

abbrev pub entries : List (String × Value) → Entries
entries [] = end
entries ((k, v) ∷ rest) = entry k v (entries rest)

-- `json!({ "k": v, … })`: an object keeps its entries in the order of their keys.
abbrev pub fields_of : List (String × Value) → Dict Value → Dict Value
fields_of [] m = m
fields_of ((k, v) ∷ rest) m = fields_of rest (insert k v m)

abbrev pub json : List (String × Value) → Value
json fields = object (entries (fields_of fields []))

-- An `Option<String>` becomes the string, or null.
abbrev pub or_null : Option String → Value
or_null none = null
or_null (some s) = string s
