-- ===== src/Ldap/Password.antt =====
-- src/connectors/ldap.rs, `set_password`: the bytes written to `unicodePwd` read back, as UTF-16 with
-- the low byte first, as the password in double quotes.
use nexusid_agent.Common.{
  ℕ, ◌+◌, ◌-◌, ◌*◌, ◌/◌, ◌%◌, ◌<◌, ◌≡◌, refl, ◌∙◌, ap, inl, inr, String, Char, code, Option, none,
  some, List, [], ◌∷◌, ◌++◌, All, All-append, arith, leb, ltb, ◌&&◌, concat, if◌then◌else◌,
  Bool-cases,
}
use nexusid_agent.Common.Utf8.{code-lt, code-scalar}
use nexusid_agent.Ldap.{utf16, encode_utf16, le_bytes, quoted_password}

abbrev pub codes : String → List ℕ
codes String.[] = []
codes (String.◌∷◌ c s) = code c ∷ codes s

-- Two bytes make a code unit; a lone last byte is dropped.
pub units : List ℕ → List ℕ
units [] = []
units (b ∷ []) = []
units (a ∷ b ∷ rest) = (a + 256 * b) ∷ units rest

-- A high surrogate waits for the low one; every other unit stands for itself.
pub read_units : Option ℕ → List ℕ → List ℕ
read_units pending [] = []
read_units none (u ∷ us) =
    let high = read_units (some u) us in
    let plain = u ∷ read_units none us in if leb 0xD800 u && ltb u 0xDC00 then high else plain
read_units (some h) (u ∷ us) = (0x10000 + (h - 0xD800) * 1024 + (u - 0xDC00)) ∷ read_units none us

units-le_bytes : (us : List ℕ) → All (λ u. u < 0x10000) us → units (le_bytes us) ≡ us
unfolding units le_bytes
units-le_bytes [] h = refl
units-le_bytes (u ∷ us) (h, hs) =
    let e : u % 256 + 256 * (u / 256) ≡ u = omega arith in rw (e, units-le_bytes us hs) refl

utf16-lt : (c : Char) → All (λ u. u < 0x10000) (utf16 (code c))
unfolding utf16
utf16-lt c = ground (arith, code-lt c)

encode_utf16-lt : (s : String) → All (λ u. u < 0x10000) (encode_utf16 s)
unfolding encode_utf16
encode_utf16-lt String.[] = tt
encode_utf16-lt (String.◌∷◌ c s) =
    All-append (λ u. u < 0x10000) (utf16 (code c)) (encode_utf16 s) (utf16-lt c) (encode_utf16-lt s)

read_units-utf16 :
    (c : Char) (us : List ℕ) → read_units none (utf16 (code c) ++ us) ≡ code c ∷ read_units none us
unfolding read_units utf16
read_units-utf16 c us = elim (Bool-cases (ltb (code c) 0x10000)) [
  | inl t ↦ rw t (ground (arith, code-scalar c))
  | inr f ↦ rw f (ground (arith, code-lt c))
]

read_units-encode_utf16 : (s : String) → read_units none (encode_utf16 s) ≡ codes s
unfolding encode_utf16 read_units
read_units-encode_utf16 String.[] = refl
read_units-encode_utf16 (String.◌∷◌ c s) =
    read_units-utf16 c (encode_utf16 s) ∙ ap (λ t. code c ∷ t) (read_units-encode_utf16 s)

-- The bytes of the password modification stand for the password between two double quotes.
pub quoted_password-units :
    (password : String)
    → read_units none (units (quoted_password password))
      ≡ codes (concat ("\"" ∷ password ∷ "\"" ∷ []))
unfolding quoted_password
quoted_password-units password =
    let q = concat ("\"" ∷ password ∷ "\"" ∷ []) in
    ap (read_units none) (units-le_bytes (encode_utf16 q) (encode_utf16-lt q))
    ∙ read_units-encode_utf16 q
