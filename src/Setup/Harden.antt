-- ===== src/Setup/Harden.antt =====
-- src/main.rs, `harden_secret`: no raw secret is stored, and a stored one is found again.
use nexusid_agent.Common.{
  ◌≡◌, refl, ◌∙◌, ◌↔◌, ◌⊎◌, inl, inr, ◌≢◌, String, true, Option, none, some, length, arith, cat,
  is_empty, trim, starts_with, Bool-cases,
}
use nexusid_agent.Common.Chars.{strip_prefix-cat, strip_prefix-env_enc}
use nexusid_agent.Error.{ok, Result-cases}
use nexusid_agent.Crypto.{Bytes, Primitives, Cipher, encrypt_serialized, decrypt_serialized}
use nexusid_agent.Crypto.RoundTrip.{Laws, decrypt-encrypt}
use nexusid_agent.Config.{Env, vault, resolve}
use nexusid_agent.Setup.{harden_secret, harden_raw, is_reference}

-- Empty, or a reference of one of the two kinds.
abbrev pub IsReference : String → Type 0
IsReference s = (is_empty s ≡ true) ⊎ (starts_with "env:" s ≡ true) ⊎ (starts_with "enc:" s ≡ true)

starts_with-cat : (t s : String) → starts_with t (cat t s) ≡ true
unfolding starts_with
starts_with-cat t s = rw (starts_with, strip_prefix-cat t s) refl

is_reference_iff : (s : String) → (is_reference s ≡ true) ↔ IsReference s
unfolding is_reference
is_reference_iff s = ground arith

harden_raw-IsReference :
    (p : Primitives) (iv : Bytes) (w : String) (v : Option Cipher) (env_name : String)
    → IsReference (harden_raw p iv w v env_name).0
unfolding harden_raw
harden_raw-IsReference p iv w none env_name = inr (inl (starts_with-cat "env:" env_name))
harden_raw-IsReference p iv w (some c) env_name =
    elim (Result-cases (encrypt_serialized p iv c w)) [
      | inl (m, e) ↦ rw (e, harden_raw) (inr (inl (starts_with-cat "env:" env_name)))
      | inr (enc, e) ↦ rw (e, harden_raw) (inr (inr (starts_with-cat "enc:" enc)))
    ]

module _ (p : Primitives) (iv : Bytes) (value : String) (v : Option Cipher)
    (env_name : String) where
  harden_secret-passes :
      IsReference (trim value) → harden_secret p iv value v env_name ≡ (trim value, none)
  unfolding harden_secret
  harden_secret-passes h = rw ((is_reference_iff (trim value)).1 h) refl

  pub harden_secret-raw :
      ¬ IsReference (trim value)
      → harden_secret p iv value v env_name ≡ harden_raw p iv (trim value) v env_name
  unfolding harden_secret
  harden_secret-raw h = elim (Bool-cases (is_reference (trim value))) [
    | inl t ↦ absurd (h ((is_reference_iff (trim value)).0 t))
    | inr f ↦ rw f refl
  ]

-- What is written to the file in place of a secret is empty, an env: or an enc: reference, never a raw
-- value.
pub harden_secret-IsReference :
    (p : Primitives) (iv : Bytes) (value : String) (v : Option Cipher) (env_name : String)
    → IsReference (harden_secret p iv value v env_name).0
unfolding harden_secret
harden_secret-IsReference p iv value v env_name = elim (Bool-cases (is_reference (trim value))) [
  | inl t ↦
      let h = (is_reference_iff (trim value)).0 t in
      rw (harden_secret-passes p iv value v env_name h) h
  | inr f ↦
      rw
        (harden_secret-raw p iv value v env_name (λ h. cc (f, (is_reference_iff (trim value)).1 h)))
        (harden_raw-IsReference p iv (trim value) v env_name)
]

resolve-env :
    (p : Primitives) (env : Env) (name : String) {s : String}
    → env name ≡ some s
    → resolve p env (cat "env:" name) ≡ ok s
unfolding resolve
resolve-env p env name e = rw (resolve, strip_prefix-cat "env:" name, e) refl

resolve-enc :
    (p : Primitives) (env : Env) (enc : String) (c : Cipher)
    → vault p env ≡ ok (some c)
    → resolve p env (cat "enc:" enc) ≡ decrypt_serialized p c enc
unfolding resolve
resolve-enc p env enc c v =
    rw (resolve, strip_prefix-env_enc enc, strip_prefix-cat "enc:" enc, v) refl

module _ (p : Primitives) (laws : Laws p) (env : Env) (iv : Bytes) where
  -- With a vault that can encrypt, a raw secret comes back, trimmed, when the written value is
  -- resolved under the same environment, and there is no note.
  pub resolve-harden_secret :
      (value env_name : String) (c : Cipher) {enc : String}
      → vault p env ≡ ok (some c)
      → length iv ≡ 12
      → ¬ IsReference (trim value)
      → encrypt_serialized p iv c (trim value) ≡ ok enc
      → let (written, note) = harden_secret p iv value (some c) env_name in
        (resolve p env written ≡ ok (trim value)) × (note ≡ none)
  unfolding harden_raw
  resolve-harden_secret value env_name c {enc} v n raw e =
      rw (harden_secret-raw p iv value (some c) env_name raw, harden_raw, e)
        (resolve-enc p env enc c v ∙ decrypt-encrypt p laws c c iv (trim value) refl n e, refl)

module _ (p : Primitives) (env : Env) (iv : Bytes) where
  -- Without a vault the written value is a reference to the variable that the note names.
  pub resolve-harden_secret-env :
      (value env_name secret : String)
      → ¬ IsReference (trim value)
      → env env_name ≡ some secret
      → let (written, note) = harden_secret p iv value none env_name in
        (resolve p env written ≡ ok secret) × (note ≢ none)
  unfolding harden_raw
  resolve-harden_secret-env value env_name secret raw e =
      rw (harden_secret-raw p iv value none env_name raw, harden_raw)
        (resolve-env p env env_name e, cc)
