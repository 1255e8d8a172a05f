-- ===== src/Common/Chars.antt =====
-- Texts all of whose characters pass a test: what trimming and splitting do to them.
use Prim.Native.Nat.{ℕ}
use Prim.Native.Char.{Char, code}
use Prim.Native.String.{String}
use mathlib.Core.Path.{◌≡◌, refl, ap}
use mathlib.Core.Bool.{Bool, true, false}
use mathlib.Core.Option.{none, some}
use native.Mathlib.Omega.{arith}
use text.Mathlib.TextLemmas.{nil-append, cons-append}
use nexusid_agent.Common.Tests.{◌==◌}
use nexusid_agent.Common.Text.{
  cat, is_whitespace, trim_start, trim_end, trim, strip_prefix, rsplit_last, rsplit_scan,
}

abbrev pub AllChars : (Char → Bool) → String → Type 0
AllChars p String.[] = Unit
AllChars p (String.◌∷◌ c s) = (p c ≡ true) × AllChars p s

pub AllChars-map :
    (p q : Char → Bool) (s : String)
    → ((c : Char) → p c ≡ true → q c ≡ true)
    → AllChars p s
    → AllChars q s
AllChars-map p q String.[] f h = tt
AllChars-map p q (String.◌∷◌ c s) f h = (f c h.0, AllChars-map p q s f h.1)

trim_end-no_space :
    (p : Char → Bool) (s : String)
    → ((c : Char) → p c ≡ true → is_whitespace c ≡ false)
    → AllChars p s
    → trim_end s ≡ s
unfolding trim_end
trim_end-no_space p String.[] f h = refl
trim_end-no_space p (String.◌∷◌ c s) f h = rw (trim_end-no_space p s f h.1, f c h.0) (ground arith)

-- Trimming leaves a text without spaces alone.
pub trim-no_space :
    (p : Char → Bool) (s : String)
    → ((c : Char) → p c ≡ true → is_whitespace c ≡ false)
    → AllChars p s
    → trim s ≡ s
unfolding trim
trim-no_space p String.[] f h = refl
trim-no_space p (String.◌∷◌ c s) f h =
    rw (f c h.0, trim_start) (trim_end-no_space p (String.◌∷◌ c s) f h)

rsplit_scan-plain :
    (sep : ℕ) (p : Char → Bool) (s : String)
    → ((c : Char) → p c ≡ true → (code c == sep) ≡ false)
    → AllChars p s
    → rsplit_scan sep s ≡ (s, false)
unfolding rsplit_scan
rsplit_scan-plain sep p String.[] f h = refl
rsplit_scan-plain sep p (String.◌∷◌ c s) f h =
    ground (arith, rsplit_scan-plain sep p s f h.1, f c h.0)

rsplit_scan-cat :
    (c : Char) (sep : ℕ) (p : Char → Bool) (t s : String)
    → code c ≡ sep
    → ((c : Char) → p c ≡ true → (code c == sep) ≡ false)
    → AllChars p s
    → rsplit_scan sep (cat t (String.◌∷◌ c s)) ≡ (s, true)
unfolding rsplit_scan
rsplit_scan-cat c sep p String.[] s e f h =
    rw (nil-append (String.◌∷◌ c s)) (ground (arith, rsplit_scan-plain sep p s f h))
rsplit_scan-cat c sep p (String.◌∷◌ d t) s e f h =
    rw (cons-append d t (String.◌∷◌ c s)) (ground (arith, rsplit_scan-cat c sep p t s e f h))

-- Behind the last separator stands the part that has none.
pub rsplit_last-cat :
    (c : Char) (sep : ℕ) (p : Char → Bool) (t s : String)
    → code c ≡ sep
    → ((c : Char) → p c ≡ true → (code c == sep) ≡ false)
    → AllChars p s
    → rsplit_last sep (cat t (String.◌∷◌ c s)) ≡ s
unfolding rsplit_last
rsplit_last-cat c sep p t s e f h = ap (λ r. r.0) (rsplit_scan-cat c sep p t s e f h)

-- A prefix is stripped from the text that it was put in front of.
pub strip_prefix-cat : (t s : String) → strip_prefix t (cat t s) ≡ some s
unfolding strip_prefix
strip_prefix-cat String.[] s = ap some (nil-append s)
strip_prefix-cat (String.◌∷◌ c t) s = rw (cons-append c t s) (ground (arith, strip_prefix-cat t s))

-- A text that starts with "enc:" does not start with "env:".
pub strip_prefix-env_enc : (s : String) → strip_prefix "env:" (cat "enc:" s) ≡ none
unfolding strip_prefix
strip_prefix-env_enc s =
    rw (cons-append "e" "nc:" s, cons-append "n" "c:" s, cons-append "c" ":" s) refl
