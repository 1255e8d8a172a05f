-- ===== src/Common/Newlines.antt =====
-- Line feeds in a text: how many there are, how a text is cut at the first, and what the lines of a
-- file are after one more line was written to it.
use Prim.Native.Nat.{ℕ, suc, ◌+◌}
use Prim.Native.Char.{Char, code}
use Prim.Native.String.{String}
use mathlib.Core.Path.{◌≡◌, refl, ap, ap₂, ◌∙◌, sym}
use mathlib.Core.Logic.{◌≢◌}
use mathlib.Core.Bool.{false}
use mathlib.Core.List.{List, [], ◌∷◌, ◌++◌}
use native.Mathlib.Omega.{arith}
use text.Mathlib.TextLemmas.{nil-append, cons-append, cons-eq-cons}
use nexusid_agent.Common.Tests.{◌==◌, if◌then◌else◌}
use nexusid_agent.Common.Text.{cat, is_empty, trim, segments, strip_cr, finish_lines, lines}

abbrev pub nl_count : String → ℕ
nl_count String.[] = 0
nl_count (String.◌∷◌ c s) = if code c == 10 then suc (nl_count s) else nl_count s

pub nl_count-cat : (s t : String) → nl_count (cat s t) ≡ nl_count s + nl_count t
nl_count-cat String.[] t = rw (nil-append t) (omega arith)
nl_count-cat (String.◌∷◌ c s) t = rw (cons-append c s t) (ground (arith, nl_count-cat s t))

newline_first : (d : Char) (b : String) → ◌≡◌ {A = Char} "\n" d → nl_count (String.◌∷◌ d b) ≢ 0
newline_first d b e h = let h' = (rw (← e) at h) in ground arith

nl_count-tail : (c : Char) (a : String) → nl_count (String.◌∷◌ c a) ≡ 0 → nl_count a ≡ 0
nl_count-tail c a h = ground arith

-- A text is cut at its first line feed in one way.
pub cut_at_newline :
    (a b x y : String)
    → nl_count a ≡ 0
    → nl_count b ≡ 0
    → cat a (String.◌∷◌ "\n" x) ≡ cat b (String.◌∷◌ "\n" y)
    → (a ≡ b) × (x ≡ y)
cut_at_newline String.[] String.[] x y ha hb e =
    let e' : String.◌∷◌ "\n" x ≡ String.◌∷◌ "\n" y = sym (nil-append _) ∙ e ∙ nil-append _ in
    (refl, (cons-eq-cons.0 e').1)
cut_at_newline String.[] (String.◌∷◌ d b) x y ha hb e =
    let e' : String.◌∷◌ "\n" x ≡ String.◌∷◌ d (cat b (String.◌∷◌ "\n" y)) =
      sym (nil-append _) ∙ e ∙ cons-append d b _ in
    absurd (newline_first d b (cons-eq-cons.0 e').0 hb)
cut_at_newline (String.◌∷◌ c a) String.[] x y ha hb e =
    let e' : String.◌∷◌ "\n" y ≡ String.◌∷◌ c (cat a (String.◌∷◌ "\n" x)) =
      sym (nil-append _) ∙ sym e ∙ cons-append c a _ in
    absurd (newline_first c a (cons-eq-cons.0 e').0 ha)
cut_at_newline (String.◌∷◌ c a) (String.◌∷◌ d b) x y ha hb e =
    let e' : String.◌∷◌ c (cat a (String.◌∷◌ "\n" x)) ≡ String.◌∷◌ d (cat b (String.◌∷◌ "\n" y)) =
      sym (cons-append c a _) ∙ e ∙ cons-append d b _ in
    let (same, rest) = cons-eq-cons.0 e' in
    let (tails, later) =
      cut_at_newline a b x y (nl_count-tail c a ha) (nl_count-tail d b hb) rest in
    (ap₂ String.◌∷◌ same tails, later)

segments-line : (t : String) → nl_count t ≡ 0 → segments (cat t "\n") ≡ (t, String.[] ∷ [])
unfolding segments
segments-line String.[] h = refl
segments-line (String.◌∷◌ c t) h = rw (cons-append c t "\n") (ground (arith, segments-line t))

-- The last segment is empty.
abbrev IsClosed : String → List String → Type 0
IsClosed first [] = first ≡ String.[]
IsClosed first (o ∷ os) = IsClosed o os

module _ (l : String) where
  -- What writing `l` and a line feed does to the segments of a file: the last one, which is open,
  -- grows by `l`, and a new empty one is opened.
  abbrev extend : String → List String → String × List String
  extend first [] = (cat first l, String.[] ∷ [])
  extend first (o ∷ os) = let (o', os') = extend o os in (first, o' ∷ os')

  extend-cons :
      (c : Char) (first : String) (os : List String)
      → extend (String.◌∷◌ c first) os ≡ (String.◌∷◌ c (extend first os).0, (extend first os).1)
  extend-cons c first [] = rw (cons-append c first l)
  extend-cons c first (o ∷ os) = refl

  segments-cat :
      nl_count l ≡ 0
      → (s : String) → segments (cat s (cat l "\n")) ≡ extend (segments s).0 (segments s).1
  unfolding segments
  segments-cat h String.[] = rw (nil-append, nil-append) (segments-line l h)
  segments-cat h (String.◌∷◌ c s) =
      rw cons-append (ground (arith, segments-cat h s, extend-cons c (segments s).0 (segments s).1))

  IsClosed-extend :
      (first : String) (os : List String) → IsClosed (extend first os).0 (extend first os).1
  IsClosed-extend first [] = refl
  IsClosed-extend first (o ∷ os) = IsClosed-extend o os

  finish_lines-extend :
      (first : String) (os : List String)
      → IsClosed first os
      → finish_lines (extend first os).0 (extend first os).1
        ≡ finish_lines first os ++ strip_cr l ∷ []
  unfolding finish_lines
  finish_lines-extend first [] h = rw (h, nil-append) refl
  finish_lines-extend first (o ∷ os) h = ap (λ t. strip_cr first ∷ t) (finish_lines-extend o os h)

-- A file is terminated if nothing stands behind its last line feed.
abbrev pub IsTerminated : String → Type 0
IsTerminated s = IsClosed (segments s).0 (segments s).1

-- Writing a line to a terminated file adds this one line, and leaves the file terminated.
pub lines-cat_line :
    (s l : String)
    → nl_count l ≡ 0
    → IsTerminated s
    → lines (cat s (cat l "\n")) ≡ lines s ++ strip_cr l ∷ []
unfolding lines
lines-cat_line s l h t =
    rw (segments-cat l h s) (finish_lines-extend l (segments s).0 (segments s).1 t)

pub cat_line-IsTerminated : (s l : String) → nl_count l ≡ 0 → IsTerminated (cat s (cat l "\n"))
cat_line-IsTerminated s l h =
    rw (segments-cat l h s) (IsClosed-extend l (segments s).0 (segments s).1)

-- A text in braces, as an object is printed.
abbrev pub braced : String → String
braced body = String.◌∷◌ "{" (cat body "}")

cat_brace-not_empty : (b : String) → is_empty (cat b "}") ≡ false
cat_brace-not_empty String.[] = refl
cat_brace-not_empty (String.◌∷◌ c b) = rw (cons-append c b "}") refl

strip_cr-cat_brace : (b : String) → strip_cr (cat b "}") ≡ cat b "}"
unfolding strip_cr
strip_cr-cat_brace String.[] = refl
strip_cr-cat_brace (String.◌∷◌ c b) =
    rw (cons-append c b "}") (ground (arith, strip_cr-cat_brace b, cat_brace-not_empty b))

pub strip_cr-braced : (body : String) → strip_cr (braced body) ≡ braced body
unfolding strip_cr
strip_cr-braced body = ground (arith, strip_cr-cat_brace body)

-- A text in braces is not blank.
pub trim-braced : (body : String) → is_empty (trim (braced body)) ≡ false
unfolding trim
trim-braced body = ground arith
