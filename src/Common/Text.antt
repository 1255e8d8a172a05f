-- ===== src/Common/Text.antt =====
-- Text as the source walks it: the methods of Rust's `str` that the agent calls, over the native
-- `String`, whose elements are characters.
use Prim.Native.Nat.{ℕ, zero, suc, ◌/◌, ◌%◌}
use Prim.Native.Char.{Char, code}
use Prim.Native.String.{String, ◌++◌}
use mathlib.Core.Bool.{Bool, true, false, ◌&&◌, ◌||◌}
use mathlib.Core.Option.{Option, none, some}
use mathlib.Core.List.{List, [], ◌∷◌}
use nexusid_agent.Common.Tests.{leb, ◌==◌, if◌then◌else◌}
pub use Prim.Native.String.{◌++◌ as cat}

-- The texts that `format!` joins, in order.
abbrev pub concat : List String → String
concat [] = String.[]
concat (s ∷ []) = s
concat (s ∷ t ∷ rest) = s ++ concat (t ∷ rest)

abbrev pub is_empty : String → Bool
is_empty String.[] = true
is_empty (String.◌∷◌ c s) = false

-- `char::is_whitespace`: the characters with the Unicode property White_Space.
unfoldable pub is_whitespace : Char → Bool
is_whitespace ch =
    let c = code ch in
    (leb 9 c && leb c 13)
    || c == 32
    || c == 0x85
    || c == 0xA0
    || c == 0x1680
    || (leb 0x2000 c && leb c 0x200A)
    || c == 0x2028
    || c == 0x2029
    || c == 0x202F
    || c == 0x205F
    || c == 0x3000

-- `str::trim`
unfoldable pub trim_start : String → String
unfolding is_whitespace
trim_start String.[] = String.[]
trim_start (String.◌∷◌ c s) = if is_whitespace c then trim_start s else String.◌∷◌ c s

unfoldable pub trim_end : String → String
unfolding is_whitespace
trim_end String.[] = String.[]
trim_end (String.◌∷◌ c s) =
    let rest = trim_end s in
    if is_empty rest && is_whitespace c then String.[] else String.◌∷◌ c rest

unfoldable pub trim : String → String
unfolding trim_start trim_end
trim s = trim_end (trim_start s)

-- `str::strip_prefix`
unfoldable pub strip_prefix : String → String → Option String
strip_prefix String.[] s = some s
strip_prefix (String.◌∷◌ p ps) String.[] = none
strip_prefix (String.◌∷◌ p ps) (String.◌∷◌ c s) =
    let rest = strip_prefix ps s in if code p == code c then rest else none

-- `str::starts_with`
unfoldable pub starts_with : String → String → Bool
unfolding strip_prefix
starts_with p s = elim (strip_prefix p s) [ none ↦ false | some _ ↦ true ]

-- `s.rsplit(sep).next()`: the text behind the last separator, all of it where there is none.
-- The second component says whether a separator was seen.
unfoldable pub rsplit_scan : ℕ → String → String × Bool
rsplit_scan sep String.[] = (String.[], false)
rsplit_scan sep (String.◌∷◌ c s) =
    let (tail, seen) = rsplit_scan sep s in
    if seen
    then (tail, true)
    else if code c == sep
    then (tail, true)
    else (String.◌∷◌ c tail, false)

unfoldable pub rsplit_last : ℕ → String → String
unfolding rsplit_scan
rsplit_last sep s = (rsplit_scan sep s).0

-- `trim_end_matches(c)`
unfoldable pub trim_end_matches : ℕ → String → String
trim_end_matches sep String.[] = String.[]
trim_end_matches sep (String.◌∷◌ c s) =
    let rest = trim_end_matches sep s in
    if is_empty rest && code c == sep then String.[] else String.◌∷◌ c rest

-- `u64::to_string`: the decimal digits, the last one computed first. A number below 2 ^ 64 has at
-- most 20 digits.
unfoldable pub digit : ℕ → Char
digit n =
    if n == 0
    then "0"
    else if n == 1
    then "1"
    else if n == 2
    then "2"
    else if n == 3
    then "3"
    else if n == 4
    then "4"
    else if n == 5
    then "5"
    else if n == 6
    then "6"
    else if n == 7
    then "7"
    else if n == 8
    then "8"
    else "9"

show_from : ℕ → ℕ → String → String
show_from zero n acc = acc
show_from (suc f) n acc =
    let now = String.◌∷◌ (digit (n % 10)) acc in
    let rest = show_from f (n / 10) now in if n / 10 == 0 then now else rest

unfoldable pub show : ℕ → String
unfolding show_from digit
show n = show_from 20 n String.[]

-- The segments of a text between line feeds: the first, and the others.
unfoldable pub segments : String → String × List String
segments String.[] = (String.[], [])
segments (String.◌∷◌ c s) =
    let (first, others) = segments s in
    if code c == 10 then (String.[], first ∷ others) else (String.◌∷◌ c first, others)

-- A carriage return before the line feed goes with it.
unfoldable pub strip_cr : String → String
strip_cr String.[] = String.[]
strip_cr (String.◌∷◌ c s) =
    let rest = strip_cr s in if is_empty s && code c == 13 then String.[] else String.◌∷◌ c rest

-- The last segment has no line feed behind it: it is a line unless it is empty.
unfoldable pub finish_lines : String → List String → List String
finish_lines s [] = if is_empty s then [] else s ∷ []
finish_lines s (t ∷ rest) = strip_cr s ∷ finish_lines t rest

-- `BufRead::lines`
unfoldable pub lines : String → List String
unfolding segments finish_lines strip_cr
lines s = let (first, others) = segments s in finish_lines first others
