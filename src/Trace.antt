-- ===== src/Trace.antt =====
-- What a part of the agent adds to a list that its state keeps, such as the calls of a directory.
use mathlib.Core.List.{append-nil, append_assoc}
use nexusid_agent.Common.{
  ◌≡◌, refl, sym, ◌∙◌, ap, Bool, true, false, List, [], ◌∷◌, ◌++◌, All, All-append, if◌then◌else◌,
}
use nexusid_agent.Error.{Result, ok, err, AgentError}
use nexusid_agent.Effect.{M, raise, lift, and_then, ◌>>=◌}

-- An item that is added behind the others.
abbrev pub noting : {A S C : Type 0} → C → (S → A × S) → S × List C → A × (S × List C)
noting c call (s, cs) = let (r, t) = call s in (r, (t, cs ++ c ∷ []))

-- Every item that has come from one state to the next satisfies the predicate.
pub record Adds {S C : Type 0} (seen : S → List C) (P : C → Type 0) (s t : S) : Type 0 where
  pub new : List C
  pub added : seen t ≡ seen s ++ new
  pub all : All P new

-- So does every item that the part adds, whether it returns or fails.
pub record Emits {S C A : Type 0} (seen : S → List C) (P : C → Type 0) (m : M S A) : Type 0 where
  pub at : (s : S) → Adds seen P s (m s).1

module _ {S C : Type 0} {seen : S → List C} {P : C → Type 0} where
  pub Adds-none : {s t : S} → seen t ≡ seen s → Adds seen P s t
  Adds-none e = record { new = []; added = e ∙ sym (append-nil _); all = tt }

  pub Adds-one : {s t : S} (c : C) → seen t ≡ seen s ++ c ∷ [] → P c → Adds seen P s t
  Adds-one c e p = record { new = c ∷ []; added = e; all = (p, tt) }

  pub Adds-trans : {s t u : S} → Adds seen P s t → Adds seen P t u → Adds seen P s u
  Adds-trans a b = record {
    new = a.new ++ b.new;
    added = b.added ∙ ap (λ cs. cs ++ b.new) a.added ∙ append_assoc _ a.new b.new;
    all = All-append P a.new b.new a.all b.all;
  }

  pub Emits-if :
      {A : Type 0} (b : Bool) (m n : M S A)
      → (b ≡ true → Emits seen P m)
      → (b ≡ false → Emits seen P n)
      → Emits seen P (if b then m else n)
  Emits-if true m n em en = em refl
  Emits-if false m n em en = en refl

  pub Emits-raise : {A : Type 0} (e : AgentError) → Emits seen P (raise {A = A} e)
  Emits-raise e = record { at = λ s. Adds-none refl }

  -- What follows a lifted value may use that it was there.
  pub Emits-lift :
      {A B : Type 0} (r : Result AgentError A) (f : A → M S B)
      → ((a : A) → r ≡ ok a → Emits seen P (f a))
      → Emits seen P (lift r >>= f)
  Emits-lift (ok a) f ef = ef a refl
  Emits-lift (err e) f ef = Emits-raise e

  pub and_then-Adds :
      {A B : Type 0} {s : S} (f : A → M S B) (r : Result AgentError A × S)
      → Adds seen P s r.1
      → ((a : A) (t : S) → r ≡ (ok a, t) → Adds seen P t (f a t).1)
      → Adds seen P s (and_then f r).1
  and_then-Adds f (ok a, t) h af = Adds-trans h (af a t refl)
  and_then-Adds f (err e, t) h af = h

  pub Emits-bind :
      {A B : Type 0} (m : M S A) (f : A → M S B)
      → Emits seen P m
      → ((a : A) → Emits seen P (f a))
      → Emits seen P (m >>= f)
  Emits-bind m f em ef = record { at = λ s. and_then-Adds f (m s) (em.at s) (λ a t _. (ef a).at t) }

  pub Emits-pure : {A : Type 0} (a : A) → Emits seen P (λ s. (ok a, s))
  Emits-pure a = record { at = λ s. Adds-none refl }

module _ {C : Type 0} (P Q : C → Type 0) (weaken : (c : C) → P c → Q c) where
  All-mono : (cs : List C) → All P cs → All Q cs
  All-mono [] h = tt
  All-mono (c ∷ cs) (p, h) = (weaken c p, All-mono cs h)

  pub Adds-mono : {S : Type 0} {seen : S → List C} {s t : S} → Adds seen P s t → Adds seen Q s t
  Adds-mono a = record { new = a.new; added = a.added; all = All-mono a.new a.all }

  pub Emits-mono : {S A : Type 0} {seen : S → List C} {m : M S A} → Emits seen P m → Emits seen Q m
  Emits-mono e = record { at = λ s. Adds-mono (e.at s) }
