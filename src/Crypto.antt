-- ===== src/Crypto.antt =====
-- src/crypto.rs: the AES-256-GCM cipher and the broker's serialized form of a secret.
--
-- The base64 and aes-gcm crates are the fields of `Primitives`; a byte is a number, and the random
-- bytes that an operation draws are an argument.
pub mod RoundTrip
pub mod Toy
mod Tests
use nexusid_agent.Common.{
  take, drop, ℕ, String, Option, none, some, List, [], ◌∷◌, ◌++◌, ◌==◌, leb, length, cat, concat,
  trim, show, rsplit_last, if◌then◌else◌, not,
}
use nexusid_agent.Common.Utf8.{utf8, from_utf8}
use nexusid_agent.Error.{Result, ok, err, AgentError, crypto, ◌>>=◌, map_err}

abbrev pub Bytes : Type 0
Bytes = List ℕ

-- `B64.decode` and `B64.encode`, AES-256-GCM under a key and a nonce, and the message of a failed
-- UTF-8 decoding.
pub record Primitives : Type 0 where
  pub b64_decode : String → Result String Bytes
  pub b64_encode : Bytes → String
  pub seal : (key nonce plaintext : Bytes) → Option Bytes
  pub unseal : (key nonce ciphertext : Bytes) → Option Bytes
  pub utf8_error : Bytes → String

abbrev pub iv_size : ℕ
iv_size = 12

abbrev pub algorithm : String
algorithm = "AES-256-GCM"

-- The cipher's inner state is its key.
pub record Cipher : Type 0 where
  pub key : Bytes
  pub key_id : String

-- `Option::ok_or_else`
abbrev pub or_err {ℓ} : {A : Type ℓ} → AgentError → Option A → Result AgentError A
or_err e none = err e
or_err e (some a) = ok a

module _ (p : Primitives) where
  unfoldable pub from_base64_key : String → String → Result AgentError Cipher
  from_base64_key base64_key key_id = do
    bytes ←
        map_err (λ e. crypto (concat ("invalid base64 key: " ∷ e ∷ [])))
          (p.b64_decode (trim base64_key))
    if length bytes == 32
        then ok (record { key = bytes; key_id = key_id })
        else err
            (crypto (concat ("key must be 32 bytes (256-bit); got " ∷ show (length bytes) ∷ [])))

  unfoldable pub decrypt_b64 : Cipher → String → Result AgentError String
  decrypt_b64 c b64 = do
    combined ←
        map_err (λ e. crypto (concat ("invalid base64 ciphertext: " ∷ e ∷ [])))
          (p.b64_decode (trim b64))
    if leb (length combined) iv_size then err (crypto "ciphertext too short") else do
      plain ←
          or_err (crypto "decryption failed (bad key or tampered data)")
            (p.unseal c.key (take iv_size combined) (drop iv_size combined))
      or_err (crypto (concat ("plaintext not UTF-8: " ∷ p.utf8_error plain ∷ []))) (from_utf8 plain)

  -- `rsplit` always yields a first part, so that the error of `ok_or_else` there is never built.
  unfoldable pub decrypt_serialized : Cipher → String → Result AgentError String
  unfolding decrypt_b64
  decrypt_serialized c serialized = decrypt_b64 c (rsplit_last b'|' serialized)

  -- `iv` is what the random generator fills in.
  unfoldable pub encrypt_serialized : (iv : Bytes) → Cipher → String → Result AgentError String
  encrypt_serialized iv c plaintext = do
    ct ← or_err (crypto "encryption failed") (p.seal c.key iv (utf8 plaintext))
    ok (concat (algorithm ∷ "|" ∷ c.key_id ∷ "|" ∷ p.b64_encode (iv ++ ct) ∷ []))

  -- `random` is what the random generator fills in, 32 bytes.
  pub generate_base64_key : (random : Bytes) → String
  generate_base64_key random = p.b64_encode random
