-- ===== src/Outcome.antt =====
-- What a run of the C++ code comes to: it returns, throws, does what the language leaves undefined,
-- calls `std::terminate`, is still running when the fuel of a loop is spent, or does what the model
-- leaves out.
use simple_orderbook_v.Common.{◌≡◌, refl, ap, subst, Option, none, some}

pub data Exception : Type 0 where
  logic_error out_of_range : Exception

pub data Outcome {ℓ} (A : Type ℓ) : Type ℓ where
  returned : A → Outcome A
  threw : Exception → Outcome A
  undefined : Outcome A
  terminated : Outcome A
  out_of_fuel : Outcome A
  unmodelled : Outcome A

infixl 5 ◌>>=◌
abbrev pub ◌>>=◌ {ℓ κ} : {A : Type ℓ} {B : Type κ} → Outcome A → (A → Outcome B) → Outcome B
returned a >>= f = f a
threw e >>= f = threw e
undefined >>= f = undefined
terminated >>= f = terminated
out_of_fuel >>= f = out_of_fuel
unmodelled >>= f = unmodelled

-- The value of an `Option`, or an exception.
abbrev pub or_throw {ℓ} : {A : Type ℓ} → Option A → Exception → Outcome A
or_throw none e = threw e
or_throw (some a) e = returned a

-- A run that returns a value of which `P` holds.
pub data Returns {ℓ κ} {A : Type ℓ} (P : A → Type κ) : Outcome A → Type (ℓ ⊔ κ) where
  returns : {a : A} → P a → Returns P (returned a)

module _ {ℓ κ} {A : Type ℓ} {P : A → Type κ} where
  pub Returns-bind {ℓ' κ'} :
      {B : Type ℓ'} {Q : B → Type κ'} {r : Outcome A} {k : A → Outcome B}
      → Returns P r
      → ((a : A) → P a → Returns Q (k a))
      → Returns Q (r >>= k)
  Returns-bind (returns p) next = next _ p

  pub Returns-mono {κ'} :
      {Q : A → Type κ'} {r : Outcome A} → Returns P r → ((a : A) → P a → Q a) → Returns Q r
  Returns-mono (returns p) weaken = returns (weaken _ p)

  pub Returns-value : {r : Outcome A} → Returns P r → (a : A) × (r ≡ returned a) × P a
  Returns-value (returns p) = (_, refl, p)

abbrev pub value_or {ℓ} : {A : Type ℓ} → A → Outcome A → A
value_or d (returned a) = a
value_or d (threw e) = d
value_or d undefined = d
value_or d terminated = d
value_or d out_of_fuel = d
value_or d unmodelled = d

pub Returns-returned {ℓ κ} :
    {A : Type ℓ} {P : A → Type κ} {r : Outcome A} {a : A} → r ≡ returned a → Returns P r → P a
Returns-returned {P = P} {a = a} e (returns p) = subst P (ap (value_or a) e) p

module _ {ℓ κ} {A : Type ℓ} {B : Type κ} where
  pub bind-cong :
      (r : Outcome A) {f g : A → Outcome B} → ((a : A) → f a ≡ g a) → (r >>= f) ≡ (r >>= g)
  bind-cong (returned a) e = e a
  bind-cong (threw x) e = refl
  bind-cong undefined e = refl
  bind-cong terminated e = refl
  bind-cong out_of_fuel e = refl
  bind-cong unmodelled e = refl

  -- A run of two parts that returns: both have returned.
  pub >>=-eq-returned :
      (r : Outcome A) (f : A → Outcome B) {b : B}
      → (r >>= f) ≡ returned b
      → (a : A) × (r ≡ returned a) × (f a ≡ returned b)
  >>=-eq-returned (returned a) f h = (a, refl, h)
  >>=-eq-returned (threw x) f h = cc
  >>=-eq-returned undefined f h = cc
  >>=-eq-returned terminated f h = cc
  >>=-eq-returned out_of_fuel f h = cc
  >>=-eq-returned unmodelled f h = cc

pub bind_assoc {ℓ κ μ} :
    {A : Type ℓ} {B : Type κ} {C : Type μ} (r : Outcome A) (f : A → Outcome B) (g : B → Outcome C)
    → (r >>= f >>= g) ≡ (r >>= λ a. f a >>= g)
bind_assoc (returned a) f g = refl
bind_assoc (threw x) f g = refl
bind_assoc undefined f g = refl
bind_assoc terminated f g = refl
bind_assoc out_of_fuel f g = refl
bind_assoc unmodelled f g = refl
