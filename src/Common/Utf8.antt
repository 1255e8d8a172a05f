-- ===== src/Common/Utf8.antt =====
-- UTF-8: the bytes of a text, and the strict decoding that `String::from_utf8` does.
use Prim.Native.Nat.{ℕ, zero, suc, ◌+◌, ◌-◌, ◌*◌, ◌/◌, ◌%◌, ◌<◌, ◌≤◌, compare, Ordering}
use Prim.Native.Char.{Char, char, code, IsScalar}
use Prim.Native.String.{String}
use mathlib.Core.Path.{◌≡◌, refl, ap, ◌∙◌}
use mathlib.Core.Bool.{◌&&◌}
use mathlib.Core.Logic.{◌⊎◌}
use mathlib.Core.Option.{Option, none, some}
use mathlib.Core.List.{List, [], ◌∷◌, ◌++◌}
use native.Mathlib.Omega.{arith}
use text.Mathlib.TextEquality.{IsScalar-prop}
use nexusid_agent.Common.Tests.{leb, ltb, if◌then◌else◌}

-- `char::encode_utf8`
encode_code : ℕ → List ℕ
encode_code n =
    if ltb n 0x80
    then n ∷ []
    else if ltb n 0x800
    then (0xC0 + n / 64) ∷ (0x80 + n % 64) ∷ []
    else if ltb n 0x10000
    then (0xE0 + n / 4096) ∷ (0x80 + n / 64 % 64) ∷ (0x80 + n % 64) ∷ []
    else (0xF0 + n / 262144) ∷ (0x80 + n / 4096 % 64) ∷ (0x80 + n / 64 % 64) ∷ (0x80 + n % 64) ∷ []

-- `str::as_bytes`
unfoldable pub utf8 : String → List ℕ
unfolding encode_code
utf8 String.[] = []
utf8 (String.◌∷◌ c s) = encode_code (code c) ++ utf8 s

module _ (n : ℕ) where
  below : compare n 55296 ≡ Ordering.lt → IsScalar n
  below e = rw e tt

  above :
      compare n 55296 ≡ Ordering.gt
      → compare 57343 n ≡ Ordering.lt
      → compare n 1114112 ≡ Ordering.lt
      → IsScalar n
  above e f g = rw (e, f, g) tt

  not_below :
      compare n 55296 ≡ Ordering.eq
      → compare 57343 n ≡ Ordering.lt
      → compare n 1114112 ≡ Ordering.lt
      → IsScalar n
  not_below e f g = rw (e, f, g) tt

  pick :
      (o p q : Ordering)
      → compare n 55296 ≡ o
      → compare 57343 n ≡ p
      → compare n 1114112 ≡ q
      → Option Char
  unfolding below above not_below
  pick Ordering.lt p q e f g = some (char n (below e))
  pick Ordering.gt Ordering.lt Ordering.lt e f g = some (char n (above e f g))
  pick Ordering.eq Ordering.lt Ordering.lt e f g = some (char n (not_below e f g))
  pick _ _ _ e f g = none

-- `char::from_u32`: the surrogates and the numbers from 0x110000 on are no characters.
from_u32 : ℕ → Option Char
unfolding pick
from_u32 n = pick n (compare n 55296) (compare 57343 n) (compare n 1114112) refl refl refl

module _ (n : ℕ) (s : IsScalar n) where
  pick-scalar :
      (o p q : Ordering) (e : compare n 55296 ≡ o) (f : compare 57343 n ≡ p)
      (g : compare n 1114112 ≡ q)
      → pick n o p q e f g ≡ some (char n s)
  unfolding pick
  pick-scalar Ordering.lt p q e f g = ap (λ t. some (char n t)) (IsScalar-prop n _ s)
  pick-scalar Ordering.gt Ordering.lt Ordering.lt e f g =
      ap (λ t. some (char n t)) (IsScalar-prop n _ s)
  pick-scalar Ordering.gt Ordering.lt Ordering.eq e f g = absurd (rw (e, f, g) at s)
  pick-scalar Ordering.gt Ordering.lt Ordering.gt e f g = absurd (rw (e, f, g) at s)
  pick-scalar Ordering.gt Ordering.eq q e f g = absurd (rw (e, f) at s)
  pick-scalar Ordering.gt Ordering.gt q e f g = absurd (rw (e, f) at s)
  pick-scalar Ordering.eq Ordering.lt Ordering.lt e f g =
      ap (λ t. some (char n t)) (IsScalar-prop n _ s)
  pick-scalar Ordering.eq Ordering.lt Ordering.eq e f g = absurd (rw (e, f, g) at s)
  pick-scalar Ordering.eq Ordering.lt Ordering.gt e f g = absurd (rw (e, f, g) at s)
  pick-scalar Ordering.eq Ordering.eq q e f g = absurd (rw (e, f) at s)
  pick-scalar Ordering.eq Ordering.gt q e f g = absurd (rw (e, f) at s)

from_u32-code : (c : Char) → from_u32 (code c) ≡ some c
unfolding from_u32
from_u32-code (char n s) = pick-scalar n s _ _ _ refl refl refl

-- The decoder reads byte by byte: `more` continuation bytes are still to come, `acc` is the number
-- read so far, and `least` the smallest number that may be written in so many bytes.
emit : ℕ → ℕ → Option String → Option String
emit least n none = none
emit least n (some rest) = elim (from_u32 n) [
  | none ↦ none
  | some c ↦ if leb least n then some (String.◌∷◌ c rest) else none
]

decode_from : (more acc least : ℕ) → List ℕ → Option String
unfolding emit
decode_from zero acc least [] = some String.[]
decode_from (suc m) acc least [] = none
decode_from zero acc least (b ∷ bs) =
    let plain = emit 0 b (decode_from 0 0 0 bs) in
    let two = decode_from 1 (b - 0xC0) 0x80 bs in
    let three = decode_from 2 (b - 0xE0) 0x800 bs in
    let four = decode_from 3 (b - 0xF0) 0x10000 bs in
    if ltb b 0x80
    then plain
    else if leb 0xC0 b && ltb b 0xE0
    then two
    else if leb 0xE0 b && ltb b 0xF0
    then three
    else if leb 0xF0 b && ltb b 0xF8
    then four
    else none
decode_from (suc zero) acc least (b ∷ bs) =
    let done = emit least (acc * 64 + (b - 0x80)) (decode_from 0 0 0 bs) in
    if leb 0x80 b && ltb b 0xC0 then done else none
decode_from (suc (suc m)) acc least (b ∷ bs) =
    let next = decode_from (suc m) (acc * 64 + (b - 0x80)) least bs in
    if leb 0x80 b && ltb b 0xC0 then next else none

-- `String::from_utf8`, without its error
unfoldable pub from_utf8 : List ℕ → Option String
unfolding decode_from from_u32
from_utf8 bs = decode_from 0 0 0 bs

-- One step of the decoder for each kind of byte.
module _ (b : ℕ) (bs : List ℕ) where
  lead₁ : b < 0x80 → decode_from 0 0 0 (b ∷ bs) ≡ emit 0 b (decode_from 0 0 0 bs)
  unfolding decode_from
  lead₁ h = ground arith

  lead₂ : 0xC0 ≤ b → b < 0xE0 → decode_from 0 0 0 (b ∷ bs) ≡ decode_from 1 (b - 0xC0) 0x80 bs
  unfolding decode_from
  lead₂ h k = ground arith

  lead₃ : 0xE0 ≤ b → b < 0xF0 → decode_from 0 0 0 (b ∷ bs) ≡ decode_from 2 (b - 0xE0) 0x800 bs
  unfolding decode_from
  lead₃ h k = ground arith

  lead₄ : 0xF0 ≤ b → b < 0xF8 → decode_from 0 0 0 (b ∷ bs) ≡ decode_from 3 (b - 0xF0) 0x10000 bs
  unfolding decode_from
  lead₄ h k = ground arith

  continued :
      (m acc least : ℕ)
      → 0x80 ≤ b
      → b < 0xC0
      → decode_from (suc (suc m)) acc least (b ∷ bs)
        ≡ decode_from (suc m) (acc * 64 + (b - 0x80)) least bs
  unfolding decode_from
  continued m acc least h k = ground arith

  last :
      (acc least : ℕ)
      → 0x80 ≤ b
      → b < 0xC0
      → decode_from 1 acc least (b ∷ bs) ≡ emit least (acc * 64 + (b - 0x80)) (decode_from 0 0 0 bs)
  unfolding decode_from
  last acc least h k = ground arith

emit-code :
    (least n : ℕ) (c : Char) (rest : String)
    → n ≡ code c
    → least ≤ code c
    → emit least n (some rest) ≡ some (String.◌∷◌ c rest)
unfolding emit
emit-code least n c rest e h = rw (e, emit, from_u32-code c) (ground arith)

pub code-lt : (c : Char) → code c < 0x110000
code-lt (char n s) = ground arith

module _ (rest : String) (bs : List ℕ) (known : decode_from 0 0 0 bs ≡ some rest) (c : Char) where
  one : code c < 0x80 → decode_from 0 0 0 (code c ∷ bs) ≡ some (String.◌∷◌ c rest)
  one h = rw (lead₁ (code c) bs h, known) (emit-code 0 (code c) c rest refl (omega arith))

  two :
      0x80 ≤ code c
      → code c < 0x800
      → decode_from 0 0 0 ((0xC0 + code c / 64) ∷ (0x80 + code c % 64) ∷ bs)
        ≡ some (String.◌∷◌ c rest)
  two l h =
      lead₂ _ _ (omega arith) (omega arith)
      ∙ last _ _ _ _ (omega arith) (omega arith)
      ∙ rw known (emit-code _ _ c rest (omega arith) (omega arith))

  three :
      0x800 ≤ code c
      → code c < 0x10000
      → decode_from 0 0 0
          ((0xE0 + code c / 4096) ∷ (0x80 + code c / 64 % 64) ∷ (0x80 + code c % 64) ∷ bs)
        ≡ some (String.◌∷◌ c rest)
  three l h =
      lead₃ _ _ (omega arith) (omega arith)
      ∙ continued _ _ 0 _ _ (omega arith) (omega arith)
      ∙ last _ _ _ _ (omega arith) (omega arith)
      ∙ rw known (emit-code _ _ c rest (omega arith) (omega arith))

  four :
      0x10000 ≤ code c
      → code c < 0x110000
      → decode_from 0 0 0 (
          (0xF0 + code c / 262144)
          ∷ (0x80 + code c / 4096 % 64)
          ∷ (0x80 + code c / 64 % 64)
          ∷ (0x80 + code c % 64)
          ∷ bs)
        ≡ some (String.◌∷◌ c rest)
  four l h =
      lead₄ _ _ (omega arith) (omega arith)
      ∙ continued _ _ 1 _ _ (omega arith) (omega arith)
      ∙ continued _ _ 0 _ _ (omega arith) (omega arith)
      ∙ last _ _ _ _ (omega arith) (omega arith)
      ∙ rw known (emit-code _ _ c rest (omega arith) (omega arith))

  decode_from-encode_code :
      decode_from 0 0 0 (encode_code (code c) ++ bs) ≡ some (String.◌∷◌ c rest)
  unfolding encode_code
  decode_from-encode_code = ground (arith, one, two, three, four, code-lt c)

-- The bytes of a text decode to the text.
pub from_utf8-utf8 : (s : String) → from_utf8 (utf8 s) ≡ some s
unfolding from_utf8 utf8
from_utf8-utf8 String.[] = refl
from_utf8-utf8 (String.◌∷◌ c s) = decode_from-encode_code s (utf8 s) (from_utf8-utf8 s) c

-- The surrogates are no characters.
pub code-scalar : (c : Char) → (code c < 0xD800) ⊎ (0xDFFF < code c)
code-scalar (char n s) = ground arith
