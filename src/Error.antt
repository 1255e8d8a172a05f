-- ===== src/Error.antt =====
-- src/error.rs: the agent's error type and its messages; `Result` with `?` and `map_err`.
use nexusid_agent.Common.{◌≡◌, refl, ◌⊎◌, inl, inr, String, concat, [], ◌∷◌}

-- `std::result::Result`
pub data Result {ℓ κ} (E : Type κ) (A : Type ℓ) : Type (ℓ ⊔ κ) where
  ok : A → Result E A
  err : E → Result E A

-- The payload of `io` is the message of the `std::io::Error`.
pub data AgentError : Type 0 where
  config crypto audit server ldap db io : String → AgentError

-- the messages of `#[error("…")]`
unfoldable pub to_string : AgentError → String
to_string (config m) = concat ("configuration error: " ∷ m ∷ [])
to_string (crypto m) = concat ("crypto error: " ∷ m ∷ [])
to_string (audit m) = concat ("audit log error: " ∷ m ∷ [])
to_string (server m) = concat ("server communication error: " ∷ m ∷ [])
to_string (ldap m) = concat ("LDAP error: " ∷ m ∷ [])
to_string (db m) = concat ("database error: " ∷ m ∷ [])
to_string (io m) = concat ("io error: " ∷ m ∷ [])

-- `?`
infixl 5 ◌>>=◌ ◌>>◌
abbrev pub ◌>>=◌ {ℓ κ ι} :
    {E : Type ι} {A : Type ℓ} {B : Type κ} → Result E A → (A → Result E B) → Result E B
err failure >>= next = err failure
ok value >>= next = next value

abbrev pub ◌>>◌ {ℓ ι} : {E : Type ι} {B : Type ℓ} → Result E (Unit {0}) → Result E B → Result E B
first >> second = first >>= λ _. second

abbrev pub map_err {ℓ κ ι} :
    {E : Type ι} {F : Type κ} {A : Type ℓ} → (E → F) → Result E A → Result F A
map_err f (ok a) = ok a
map_err f (err e) = err (f e)

pub ok_inj {ℓ κ} : {E : Type κ} {A : Type ℓ} {a b : A} → ◌≡◌ {A = Result E A} (ok a) (ok b) → a ≡ b
ok_inj e = cc

-- A successful `?` had a value to go on with.
pub >>=-eq-ok {ℓ κ ι} :
    {E : Type ι} {A : Type ℓ} {B : Type κ} (r : Result E A) (next : A → Result E B) {end : B}
    → (r >>= next) ≡ ok end
    → (value : A) × (r ≡ ok value) × (next value ≡ ok end)
>>=-eq-ok (err failure) next h = cc
>>=-eq-ok (ok value) next h = (value, refl, h)

pub >>=-assoc {ℓ κ ι μ} :
    {E : Type ι} {A : Type ℓ} {B : Type κ} {C : Type μ} (m : Result E A) (f : A → Result E B)
    (g : B → Result E C)
    → ((m >>= f) >>= g) ≡ (m >>= λ a. f a >>= g)
>>=-assoc (ok a) f g = refl
>>=-assoc (err e) f g = refl

pub Result-cases {ℓ κ} :
    {E : Type κ} {A : Type ℓ} (r : Result E A) → ((e : E) × (r ≡ err e)) ⊎ ((a : A) × (r ≡ ok a))
Result-cases (ok a) = inr (a, refl)
Result-cases (err e) = inl (e, refl)
