-- ===== src/Config/Secrets.antt =====
-- src/config.rs, `resolve`, `describe` and `validate`.
use Prim.Native.String.{count}
use nexusid_agent.Common.{
  ◌≡◌, refl, ◌↔◌, ◌≢◌, String, none, arith, is_empty, trim, strip_prefix, starts_with, cat,
}
use nexusid_agent.Common.Chars.{strip_prefix-cat, strip_prefix-env_enc}
use nexusid_agent.Error.{ok}
use nexusid_agent.Crypto.{Primitives}
use nexusid_agent.Config.{
  ad, db, Config, Env, validate, resolve, describe, secret_source, describe_as,
}

-- A configuration is accepted exactly if the section of its mode is there.
pub validate_iff :
    (c : Config)
    → (validate c ≡ ok tt)
      ↔ ((c.agent.mode ≡ ad → c.ad_section ≢ none) × (c.agent.mode ≡ db → c.db_section ≢ none))
unfolding validate
validate_iff c = ground arith

-- Neither prefix stands in front.
pub record IsInline (raw : String) : Type 0 where
  pub not_env : strip_prefix "env:" raw ≡ none
  pub not_enc : strip_prefix "enc:" raw ≡ none

secret_source-inline : (raw : String) → IsInline raw → secret_source raw ≡ "inline"
unfolding secret_source starts_with
secret_source-inline raw h = rw (h.not_env, secret_source, starts_with, h.not_enc) refl

secret_source-enc : (enc : String) → secret_source (cat "enc:" enc) ≡ "enc:(vault)"
unfolding secret_source starts_with
secret_source-enc enc =
    rw (strip_prefix-env_enc enc, secret_source, starts_with, strip_prefix-cat "enc:" enc) refl

-- An inline secret is taken as it stands.
pub resolve-inline :
    (p : Primitives) (env : Env) (raw : String) → IsInline raw → resolve p env raw ≡ ok raw
unfolding resolve
resolve-inline p env raw h = rw (h.not_env, resolve, h.not_enc) refl

-- What `describe` shows of a value.
describe_as-eq :
    (src v w : String)
    → count v ≡ count w
    → is_empty (trim v) ≡ is_empty (trim w)
    → describe_as src (ok v) ≡ describe_as src (ok w)
unfolding describe_as
describe_as-eq src v w n t = rw (n, t) refl

module _ (p : Primitives) (env env' : Env) where
  -- The log line about a secret that is written inline depends on nothing but its number of characters
  -- and whether it is blank: two such secrets that agree in these have one description.
  pub describe_hides_inline :
      (raw other : String)
      → IsInline raw
      → IsInline other
      → count raw ≡ count other
      → is_empty (trim raw) ≡ is_empty (trim other)
      → describe p env raw ≡ describe p env' other
  unfolding describe
  describe_hides_inline raw other a b n t =
      rw
        (
          secret_source-inline raw a,
          describe,
          secret_source-inline other b,
          resolve-inline p env raw a,
          resolve-inline p env' other b,
        )
        (describe_as-eq "inline" raw other n t)

  -- The log line about a secret in the vault depends on nothing but the length of the decrypted text
  -- and whether it is blank.
  pub describe_hides_vault :
      (enc enc' : String) {v w : String}
      → resolve p env (cat "enc:" enc) ≡ ok v
      → resolve p env' (cat "enc:" enc') ≡ ok w
      → count v ≡ count w
      → is_empty (trim v) ≡ is_empty (trim w)
      → describe p env (cat "enc:" enc) ≡ describe p env' (cat "enc:" enc')
  unfolding describe
  describe_hides_vault enc enc' {v} {w} r s n t =
      rw (secret_source-enc enc, describe, secret_source-enc enc', r, s)
        (describe_as-eq "enc:(vault)" v w n t)
