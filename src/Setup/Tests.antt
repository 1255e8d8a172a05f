-- ===== src/Setup/Tests.antt =====
-- Runs of the hardening of secrets at concrete inputs.
use nexusid_agent.Common.{◌≡◌, refl, inl, inr, none, some, [], ◌∷◌, trim, starts_with}
use nexusid_agent.Common.Utf8.{utf8}
use nexusid_agent.Error.{ok}
use nexusid_agent.Crypto.{Bytes, Cipher, encrypt_serialized, from_base64_key}
use nexusid_agent.Crypto.Toy.{toy, toy-Laws, zero_key}
use nexusid_agent.Config.{Env, resolve, vault}
use nexusid_agent.Setup.{harden_secret}
use nexusid_agent.Setup.Harden.{IsReference, harden_secret-IsReference, resolve-harden_secret}

abbrev zeros : Bytes
zeros = 0 ∷ 0 ∷ 0 ∷ 0 ∷ 0 ∷ 0 ∷ 0 ∷ 0 ∷ 0 ∷ 0 ∷ 0 ∷ 0 ∷ []

abbrev keyed : Env
keyed name = some zero_key

abbrev local : Cipher
local = record {
  key =
      0 ∷ 0 ∷ 0 ∷ 0 ∷ 0 ∷ 0 ∷ 0 ∷ 0 ∷ 0 ∷ 0 ∷ 0 ∷ 0 ∷ 0 ∷ 0 ∷ 0 ∷ 0 ∷ 0 ∷ 0 ∷ 0 ∷ 0 ∷ 0 ∷ 0 ∷ 0 ∷ 0
      ∷ 0 ∷ 0 ∷ 0 ∷ 0 ∷ 0 ∷ 0 ∷ 0 ∷ 0 ∷ [];
  key_id = "local";
}

raw : ¬ IsReference (trim " ! ")
unfolding trim starts_with
raw (inl e) = cc e
raw (inr (inl e)) = cc e
raw (inr (inr e)) = cc e

harden_secret-IsReference_example :
    IsReference (harden_secret toy zeros " ! " (some local) "BIND").0
harden_secret-IsReference_example = harden_secret-IsReference toy zeros " ! " (some local) "BIND"

resolve-harden_secret_example :
    let (written, note) = harden_secret toy zeros " ! " (some local) "BIND" in
    (resolve toy keyed written ≡ ok (trim " ! ")) × (note ≡ none)
unfolding vault from_base64_key encrypt_serialized utf8 trim
resolve-harden_secret_example =
    resolve-harden_secret toy toy-Laws keyed zeros " ! " "BIND" local
      {enc = "AES-256-GCM|local|////////////AAAAAAA/AAAAAAAAAAAAAAAAAAAAAAAAAAAAAAAAA/"} refl refl
      raw refl
