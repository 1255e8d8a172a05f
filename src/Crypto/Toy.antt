-- ===== src/Crypto/Toy.antt =====
-- A small instance of the cryptographic libraries, for runs at concrete inputs: bytes in unary, in place
-- of base64, and a cipher that puts one byte in front.
use nexusid_agent.Common.{
  ℕ, zero, suc, ◌+◌, ◌≡◌, refl, ◌∙◌, ap, String, none, some, Option, [], ◌∷◌, code, ◌==◌, arith,
  if◌then◌else◌,
}
use nexusid_agent.Common.Chars.{AllChars}
use nexusid_agent.Error.{Result, ok, err, ◌>>=◌}
use nexusid_agent.Crypto.{Bytes, Primitives}
use nexusid_agent.Crypto.RoundTrip.{is_base64, Laws}

abbrev unary : ℕ → String → String
unary Prim.Native.Nat.zero s = String.◌∷◌ "/" s
unary (Prim.Native.Nat.suc n) s = String.◌∷◌ "A" (unary n s)

abbrev encode : Bytes → String
encode [] = String.[]
encode (b ∷ bs) = unary b (encode bs)

abbrev decode : ℕ → String → Result String Bytes
decode acc String.[] = ok []
decode acc (String.◌∷◌ c s) =
    let more = decode (acc + 1) s in
    let byte = decode 0 s >>= λ bs. ok (acc ∷ bs) in
    if code c == b'A' then more else if code c == b'/' then byte else err "invalid"

decode-unary :
    (n acc : ℕ) (s : String) → decode acc (unary n s) ≡ (decode 0 s >>= λ bs. ok ((acc + n) ∷ bs))
decode-unary Prim.Native.Nat.zero acc s = ground arith
decode-unary (Prim.Native.Nat.suc n) acc s =
    decode-unary n (acc + 1) s ∙ ap (λ k. decode 0 s >>= λ bs. ok (k ∷ bs)) (omega arith)

decode-encode : (bs : Bytes) → decode 0 (encode bs) ≡ ok bs
decode-encode [] = refl
decode-encode (b ∷ bs) =
    decode-unary b 0 (encode bs) ∙ rw (decode-encode bs) (ap (λ k. ok (k ∷ bs)) (omega arith))

unary-alphabet : (n : ℕ) (s : String) → AllChars is_base64 s → AllChars is_base64 (unary n s)
unary-alphabet Prim.Native.Nat.zero s h = (refl, h)
unary-alphabet (Prim.Native.Nat.suc n) s h = (refl, unary-alphabet n s h)

encode-alphabet : (bs : Bytes) → AllChars is_base64 (encode bs)
encode-alphabet [] = tt
encode-alphabet (b ∷ bs) = unary-alphabet b (encode bs) (encode-alphabet bs)

abbrev tail : Bytes → Option Bytes
tail [] = none
tail (b ∷ bs) = some bs

abbrev pub toy : Primitives
toy = record {
  b64_decode = decode 0;
  b64_encode = encode;
  seal = λ k n m. some (7 ∷ m);
  unseal = λ k n c. tail c;
  utf8_error = λ bs. "invalid utf-8";
}

pub toy-Laws : Laws toy
toy-Laws = record {
  alphabet = encode-alphabet;
  decode_encode = decode-encode;
  sealed = λ k n m c e. ground arith;
  unseal_seal = λ k n m c e. ground arith;
}

-- 32 bytes, all of them 0.
abbrev pub zero_key : String
zero_key = "////////////////////////////////"
