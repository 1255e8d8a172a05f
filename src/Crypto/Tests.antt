-- ===== src/Crypto/Tests.antt =====
-- Runs of the cipher's operations on the toy instance.
use nexusid_agent.Common.{◌≡◌, refl, [], ◌∷◌}
use nexusid_agent.Common.Utf8.{utf8}
use nexusid_agent.Error.{ok}
use nexusid_agent.Crypto.{Bytes, Cipher, encrypt_serialized, decrypt_serialized}
use nexusid_agent.Crypto.RoundTrip.{decrypt-encrypt}
use nexusid_agent.Crypto.Toy.{toy, toy-Laws}

abbrev zeros : Bytes
zeros = 0 ∷ 0 ∷ 0 ∷ 0 ∷ 0 ∷ 0 ∷ 0 ∷ 0 ∷ 0 ∷ 0 ∷ 0 ∷ 0 ∷ []

abbrev broker : Cipher
broker = record { key = 1 ∷ 2 ∷ []; key_id = "broker|1" }

abbrev agent : Cipher
agent = record { key = 1 ∷ 2 ∷ []; key_id = "local-default" }

decrypt-encrypt_example :
    decrypt_serialized toy agent
      "AES-256-GCM|broker|1|////////////AAAAAAA/AAAAAAAAAAAAAAAAAAAAAAAAAAAAAAAAA/"
    ≡ ok "!"
unfolding encrypt_serialized utf8
decrypt-encrypt_example = decrypt-encrypt toy toy-Laws broker agent zeros "!" refl refl refl

abbrev zero_bytes : Bytes
zero_bytes =
    0 ∷ 0 ∷ 0 ∷ 0 ∷ 0 ∷ 0 ∷ 0 ∷ 0 ∷ 0 ∷ 0 ∷ 0 ∷ 0 ∷ 0 ∷ 0 ∷ 0 ∷ 0 ∷ 0 ∷ 0 ∷ 0 ∷ 0 ∷ 0 ∷ 0 ∷ 0 ∷ 0
    ∷ 0 ∷ 0 ∷ 0 ∷ 0 ∷ 0 ∷ 0 ∷ 0 ∷ 0 ∷ []
