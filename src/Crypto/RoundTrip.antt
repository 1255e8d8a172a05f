-- ===== src/Crypto/RoundTrip.antt =====
-- src/crypto.rs: what is encrypted decrypts to itself, and keys have 32 bytes.
use text.Mathlib.TextLemmas.{append_assoc, cons-append, nil-append}
use nexusid_agent.Common.{
  take, drop, ◌≤◌, ◌<◌, ◌≡◌, refl, sym, ◌∙◌, ap, subst, inl, inr, Option-cases, ◌↔◌, String, Char,
  code, Bool, true, false, ◌||◌, ◌&&◌, some, [], ◌∷◌, ◌++◌, length, length-append, arith, leb, ◌==◌,
  cat, concat, trim, is_whitespace,
}
use nexusid_agent.Common.Chars.{AllChars, trim-no_space, rsplit_last-cat}
use nexusid_agent.Common.Utf8.{utf8, from_utf8, from_utf8-utf8}
use nexusid_agent.Error.{ok, crypto, ok_inj}
use nexusid_agent.Crypto.{
  Bytes, Primitives, Cipher, algorithm, or_err, from_base64_key, decrypt_b64, decrypt_serialized,
  encrypt_serialized,
}

-- The standard base64 alphabet with its padding.
abbrev pub is_base64 : Char → Bool
is_base64 ch =
    let c = code ch in
    (leb b'A' c && leb c b'Z')
    || (leb b'a' c && leb c b'z')
    || (leb b'0' c && leb c b'9')
    || c == b'+'
    || c == b'/'
    || c == b'='

-- What the crates document: base64 text stays in its alphabet and decodes to what was encoded; a sealed
-- text is not empty and opens under the same key and nonce.
pub record Laws (p : Primitives) : Type 0 where
  pub alphabet : (bs : Bytes) → AllChars is_base64 (p.b64_encode bs)
  pub decode_encode : (bs : Bytes) → p.b64_decode (p.b64_encode bs) ≡ ok bs
  pub sealed : (k n m c : Bytes) → p.seal k n m ≡ some c → 0 < length c
  pub unseal_seal : (k n m c : Bytes) → p.seal k n m ≡ some c → p.unseal k n c ≡ some m

take-append : (xs ys : Bytes) → take (length xs) (xs ++ ys) ≡ xs
take-append [] ys = refl
take-append (x ∷ xs) ys = ap (λ t. x ∷ t) (take-append xs ys)

drop-append : (xs ys : Bytes) → drop (length xs) (xs ++ ys) ≡ ys
drop-append [] ys = refl
drop-append (x ∷ xs) ys = drop-append xs ys

cat_bar : (s : String) → cat "|" s ≡ String.◌∷◌ "|" s
cat_bar s = cons-append "|" String.[] s ∙ ap (λ t. String.◌∷◌ "|" t) (nil-append s)

base64_bounds : (c : Char) → is_base64 c ≡ true → (33 ≤ code c) × (code c < 127)
base64_bounds c h = ground arith

visible-no_space : (c : Char) → 33 ≤ code c → code c < 127 → is_whitespace c ≡ false
unfolding is_whitespace
visible-no_space c h k = ground arith

base64-no_space : (c : Char) → is_base64 c ≡ true → is_whitespace c ≡ false
base64-no_space c h = let (a, b) = base64_bounds c h in visible-no_space c a b

base64-no_bar : (c : Char) → is_base64 c ≡ true → (code c == b'|') ≡ false
base64-no_bar c h = ground arith

serialized-shape :
    (key_id b64 : String)
    → concat (algorithm ∷ "|" ∷ key_id ∷ "|" ∷ b64 ∷ [])
      ≡ cat (cat algorithm (cat "|" key_id)) (String.◌∷◌ "|" b64)
serialized-shape key_id b64 =
    ap (λ t. cat algorithm (cat "|" (cat key_id t))) (cat_bar b64)
    ∙ ap (λ t. cat algorithm t) (sym (append_assoc "|" key_id (String.◌∷◌ "|" b64)))
    ∙ sym (append_assoc algorithm (cat "|" key_id) (String.◌∷◌ "|" b64))

module _ (p : Primitives) (laws : Laws p) where
  decrypt_b64-b64_encode :
      (c : Cipher) (iv ct m : Bytes)
      → length iv ≡ 12
      → 0 < length ct
      → p.unseal c.key iv ct ≡ some m
      → decrypt_b64 p c (p.b64_encode (iv ++ ct))
        ≡ or_err (crypto (concat ("plaintext not UTF-8: " ∷ p.utf8_error m ∷ []))) (from_utf8 m)
  unfolding decrypt_b64
  decrypt_b64-b64_encode c iv ct m n pos u =
      rw
        (
          trim-no_space is_base64 (p.b64_encode (iv ++ ct)) base64-no_space
              (laws.alphabet (iv ++ ct)),
          laws.decode_encode (iv ++ ct),
        )
        (ground (
          arith,
          length-append iv ct,
          subst (λ k. take k (iv ++ ct) ≡ iv) n (take-append iv ct),
          subst (λ k. drop k (iv ++ ct) ≡ ct) n (drop-append iv ct),
          u,
        ))

  -- What one cipher encrypts, under any nonce, every cipher with the same key decrypts to the text that
  -- was encrypted, whatever the key ids are.
  pub decrypt-encrypt :
      (c d : Cipher) (iv : Bytes) (plaintext : String) {serialized : String}
      → c.key ≡ d.key
      → length iv ≡ 12
      → encrypt_serialized p iv c plaintext ≡ ok serialized
      → decrypt_serialized p d serialized ≡ ok plaintext
  unfolding encrypt_serialized decrypt_serialized
  decrypt-encrypt c d iv plaintext same n e =
      elim (Option-cases (p.seal c.key iv (utf8 plaintext))) [
        | inl f ↦ cc (rw f at e)
        | inr (ct, f) ↦
            let e' = (rw f at e) in
            rw
              (
                ← ok_inj e',
                serialized-shape c.key_id (p.b64_encode (iv ++ ct)),
                rsplit_last-cat "|" b'|' is_base64 (cat algorithm (cat "|" c.key_id))
                    (p.b64_encode (iv ++ ct)) refl base64-no_bar (laws.alphabet (iv ++ ct)),
                decrypt_b64-b64_encode d iv ct (utf8 plaintext) n (laws.sealed _ _ _ _ f)
                    (rw (← same) (laws.unseal_seal _ _ _ _ f)),
                from_utf8-utf8 plaintext,
              )
              refl
      ]

-- A key is taken exactly if it decodes to 32 bytes, and is then those bytes.
pub from_base64_key_iff :
    (p : Primitives) (base64_key key_id : String) (c : Cipher)
    → (from_base64_key p base64_key key_id ≡ ok c)
      ↔ ((p.b64_decode (trim base64_key) ≡ ok c.key) × (length c.key ≡ 32) × (c.key_id ≡ key_id))
unfolding from_base64_key
from_base64_key_iff p base64_key key_id c = ground arith
