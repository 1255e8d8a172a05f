-- ===== src/Effect.antt =====
-- Code that changes a state and can fail with the agent's error: what was changed before a failure
-- stays changed.
use nexusid_agent.Common.{◌≡◌, refl, sym, ◌∙◌, ap, ◌⊎◌, inl, inr}
use nexusid_agent.Error.{Result, ok, err, AgentError}

abbrev pub M : Type 0 → Type 0 → Type 0
M S A = S → Result AgentError A × S

module _ {S A : Type 0} where
  abbrev pub pure : A → M S A
  pure a s = (ok a, s)

  abbrev pub raise : AgentError → M S A
  raise e s = (err e, s)

  abbrev pub lift : Result AgentError A → M S A
  lift r s = (r, s)

abbrev pub and_then :
    {S A B : Type 0} → (A → M S B) → Result AgentError A × S → Result AgentError B × S
and_then f (ok a, s) = f a s
and_then f (err e, s) = (err e, s)

infixl 5 ◌>>=◌ ◌>>◌
abbrev pub ◌>>=◌ : {S A B : Type 0} → M S A → (A → M S B) → M S B
◌>>=◌ m f s = and_then f (m s)

abbrev pub ◌>>◌ : {S A B : Type 0} → M S A → M S B → M S B
first >> second = first >>= λ _. second

-- A call has failed or has returned; the equation is kept.
pub outcome :
    {S A : Type 0} (r : Result AgentError A × S)
    → ((e : AgentError) × (s : S) × (r ≡ (err e, s))) ⊎ ((a : A) × (s : S) × (r ≡ (ok a, s)))
outcome (ok a, s) = inr (a, s, refl)
outcome (err e, s) = inl (e, s, refl)

module _ {S A B : Type 0} (m : M S A) (f : A → M S B) (s : S) where
  pub bind-ok : {a : A} {t : S} → m s ≡ (ok a, t) → (m >>= f) s ≡ f a t
  bind-ok q = ap (and_then f) q

  pub bind-err : {e : AgentError} {t : S} → m s ≡ (err e, t) → (m >>= f) s ≡ (err e, t)
  bind-err q = ap (and_then f) q

  -- A sequence that returns had a first part that returned.
  pub bind-ok_inv :
      {b : B} {t : S}
      → (m >>= f) s ≡ (ok b, t)
      → (a : A) × (u : S) × (m s ≡ (ok a, u)) × (f a u ≡ (ok b, t))
  bind-ok_inv r = elim (outcome (m s)) [
    | inl (e, u, q) ↦ cc (sym (bind-err q) ∙ r)
    | inr (a, u, q) ↦ (a, u, q, sym (bind-ok q) ∙ r)
  ]
