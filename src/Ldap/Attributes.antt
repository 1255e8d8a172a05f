-- ===== src/Ldap/Attributes.antt =====
-- src/connectors/ldap.rs: the attributes that are written for an account, and those that are read
-- back from users.
use nexusid_agent.Common.{
  map, ◌≡◌, ◌≢◌, refl, ◌∙◌, ap, inl, inr, String, false, List, [], ◌∷◌, ◌++◌, All, All-append,
  arith, is_empty, str_eq, eq_iff, if◌then◌else◌, Bool-cases, List-cases,
}
use nexusid_agent.Common.Dict.{Dict, insert}
use nexusid_agent.Ldap.{uac_disabled, Entry, plain_attrs, new_account_attrs, first_values, users_of}

-- What is listed under a key, in order.
abbrev pub values_at {ℓ} : {V : Type ℓ} → String → List (String × V) → List V
values_at k [] = []
values_at k ((j, v) ∷ rest) = if str_eq j k then v ∷ values_at k rest else values_at k rest

-- The entries that have a value.
abbrev pub filled : Dict String → Dict String
filled [] = []
filled ((k, v) ∷ rest) = if is_empty v then filled rest else (k, v) ∷ filled rest

values_at-append {ℓ} :
    {V : Type ℓ} (k : String) (xs ys : List (String × V))
    → values_at k (xs ++ ys) ≡ values_at k xs ++ values_at k ys
values_at-append k [] ys = refl
values_at-append k ((j, v) ∷ xs) ys = ground (arith, values_at-append k xs ys)

-- Each value as the only one of its attribute.
abbrev pub singly : List String → List (List String)
singly = map (λ v. v ∷ [])

values_at-plain_attrs :
    (k : String) (a : Dict String)
    → str_eq k "distinguishedName" ≡ false
    → values_at k (plain_attrs a) ≡ singly (values_at k (filled a))
unfolding plain_attrs
values_at-plain_attrs k [] h = refl
values_at-plain_attrs k ((j, v) ∷ a) h = ground (
  arith,
  values_at-plain_attrs k a h,
  eq_iff j k,
  eq_iff j "distinguishedName",
  eq_iff k "distinguishedName",
)

-- A new account is created with the control value 514 of a disabled account behind each control value that
-- the broker's attributes hold: with 514 alone exactly if they hold none that is not empty.
pub uac_values :
    (a : Dict String)
    → values_at "userAccountControl" (new_account_attrs a)
      ≡ singly (values_at "userAccountControl" (filled a)) ++ ("514" ∷ []) ∷ []
unfolding new_account_attrs
uac_values a =
    values_at-append "userAccountControl" (plain_attrs a)
      (("userAccountControl", uac_disabled ∷ []) ∷ [])
    ∙ ap (λ vs. vs ++ ("514" ∷ []) ∷ []) (values_at-plain_attrs "userAccountControl" a refl)

abbrev pub IsWritable : String × List String → Type 0
IsWritable (k, vs) = (k ≢ "distinguishedName") × All (λ v. is_empty v ≡ false) vs

plain_attrs-IsWritable : (a : Dict String) → All IsWritable (plain_attrs a)
unfolding plain_attrs
plain_attrs-IsWritable [] = tt
plain_attrs-IsWritable ((k, v) ∷ a) =
    ground (arith, eq_iff k "distinguishedName", plain_attrs-IsWritable a)

-- No value that is written for a new account is empty, and the distinguished name is not among its
-- attributes.
pub new_account_attrs-IsWritable : (a : Dict String) → All IsWritable (new_account_attrs a)
unfolding new_account_attrs
new_account_attrs-IsWritable a = (
  (ground (arith, eq_iff "objectClass" "distinguishedName"), (refl, (refl, (refl, (refl, tt))))),
  All-append IsWritable (plain_attrs a) (("userAccountControl", uac_disabled ∷ []) ∷ [])
      (plain_attrs-IsWritable a)
      ((ground (arith, eq_iff "userAccountControl" "distinguishedName"), (refl, tt)), tt),
)

abbrev IsFilled : String × String → Type 0
IsFilled (k, v) = is_empty v ≡ false

insert-IsFilled :
    (k v : String) (m : Dict String)
    → is_empty v ≡ false
    → All IsFilled m
    → All IsFilled (insert k v m)
insert-IsFilled k v [] h a = (h, tt)
insert-IsFilled k v ((j, w) ∷ m) h (a, as') = ground (arith, insert-IsFilled k v m h as')

first_values-IsFilled :
    (vs : List (String × List String)) (m : Dict String)
    → All IsFilled m
    → All IsFilled (first_values vs m)
unfolding first_values
first_values-IsFilled [] m a = a
first_values-IsFilled ((k, []) ∷ rest) m a = first_values-IsFilled rest m a
first_values-IsFilled ((k, v ∷ vs) ∷ rest) m a = elim (Bool-cases (is_empty v)) [
  | inl t ↦ rw t (first_values-IsFilled rest m a)
  | inr f ↦ rw f (first_values-IsFilled rest (insert k v m) (insert-IsFilled k v m f a))
]

-- No user is reported without an attribute, and no attribute with an empty value.
pub users_of-filled :
    (es : List Entry)
    → All (λ u. (u ≢ []) × All (λ (e : String × String). is_empty e.1 ≡ false) u) (users_of es)
unfolding users_of
users_of-filled [] = tt
users_of-filled (e ∷ es) = elim (List-cases (first_values e.attrs [])) [
  | inl n ↦ rw (users_of, n) (users_of-filled es)
  | inr (x, xs, n) ↦
      let q : All IsFilled (first_values e.attrs []) = first_values-IsFilled e.attrs [] tt in
      rw (users_of, n) (((λ h. cc h), (rw n at q)), users_of-filled es)
]
