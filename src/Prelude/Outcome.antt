-- ===== src/Prelude/Outcome.antt =====
-- What a C++ call ends in: a value, the exception that `die` throws (lib/util/fatal.hxx), an `assert`
-- that fails, undefined behaviour (a write past an array, `unreachable()`), or a loop that has not
-- ended within the fuel of the model. A call is `blocked` in a state in which it waits for a lock, for
-- a buffer or on a condition variable.
use mathlib.Core.Bool.{Bool, true, false}
use mathlib.Core.Path.{◌≡◌, refl}
use native.Mathlib.Omega.{arith}

pub data Outcome {ℓ} (A : Type ℓ) : Type ℓ where
  ok : A → Outcome A
  died : Outcome A
  assert_failed : Outcome A
  undefined : Outcome A
  out_of_fuel : Outcome A
  blocked : Outcome A

infixl 5 ◌>>=◌ ◌>>◌
abbrev pub ◌>>=◌ {ℓ κ} : {A : Type ℓ} {B : Type κ} → Outcome A → (A → Outcome B) → Outcome B
ok a >>= f = f a
died >>= f = died
assert_failed >>= f = assert_failed
undefined >>= f = undefined
out_of_fuel >>= f = out_of_fuel
blocked >>= f = blocked

abbrev pub ◌>>◌ {ℓ} : {B : Type ℓ} → Outcome (Unit {0}) → Outcome B → Outcome B
m >> k = m >>= λ _. k

-- `assert(b)`
abbrev pub check : Bool → Outcome (Unit {0})
check true = ok tt
check false = assert_failed

-- `if (b) die(...)`
abbrev pub die_if : Bool → Outcome (Unit {0})
die_if true = died
die_if false = ok tt

-- The call ends in a value with the property, or waits; it does not fail.
abbrev pub Yields {ℓ} : {A : Type ℓ} → (A → Type 0) → Outcome A → Type 0
Yields P (ok a) = P a
Yields P died = ⊥
Yields P assert_failed = ⊥
Yields P undefined = ⊥
Yields P out_of_fuel = ⊥
Yields P blocked = Unit

pub Yields-bind {ℓ κ} :
    {A : Type ℓ} {B : Type κ} (P : A → Type 0) (Q : B → Type 0) (r : Outcome A) (f : A → Outcome B)
    → Yields P r
    → ((a : A) → P a → Yields Q (f a))
    → Yields Q (r >>= f)
Yields-bind P Q (ok a) f h then_f = then_f a h
Yields-bind P Q died f h then_f = elim h [ ]
Yields-bind P Q assert_failed f h then_f = elim h [ ]
Yields-bind P Q undefined f h then_f = elim h [ ]
Yields-bind P Q out_of_fuel f h then_f = elim h [ ]
Yields-bind P Q blocked f h then_f = tt

pub Yields-map {ℓ} :
    {A : Type ℓ} (P Q : A → Type 0) (r : Outcome A)
    → Yields P r
    → ((a : A) → P a → Q a)
    → Yields Q r
Yields-map P Q (ok a) h f = f a h
Yields-map P Q died h f = h
Yields-map P Q assert_failed h f = h
Yields-map P Q undefined h f = h
Yields-map P Q out_of_fuel h f = h
Yields-map P Q blocked h f = tt

-- What a run that ends in a value went through.
pub bind-ok {ℓ κ} :
    {A : Type ℓ} {B : Type κ} (r : Outcome A) (f : A → Outcome B) (b : B)
    → (r >>= f) ≡ ok b
    → (a : A) × (r ≡ ok a) × (f a ≡ ok b)
bind-ok (ok a) f b e = (a, refl, e)
bind-ok died f b e = absurd (ground arith)
bind-ok assert_failed f b e = absurd (ground arith)
bind-ok undefined f b e = absurd (ground arith)
bind-ok out_of_fuel f b e = absurd (ground arith)
bind-ok blocked f b e = absurd (ground arith)

pub check-ok {ℓ} :
    {B : Type ℓ} (t : Bool) (m : Outcome B) (b : B) → (check t >> m) ≡ ok b → m ≡ ok b
check-ok true m b e = e
check-ok false m b e = absurd (ground arith)

pub bind_assoc {ℓ κ μ} :
    {A : Type ℓ} {B : Type κ} {C : Type μ} (r : Outcome A) (f : A → Outcome B) (g : B → Outcome C)
    → (r >>= f >>= g) ≡ (r >>= λ a. f a >>= g)
bind_assoc (ok a) f g = refl
bind_assoc died f g = refl
bind_assoc assert_failed f g = refl
bind_assoc undefined f g = refl
bind_assoc out_of_fuel f g = refl
bind_assoc blocked f g = refl

-- Two calls that go on in the same way from every value.
pub bind-ext {ℓ κ} :
    {A : Type ℓ} {B : Type κ} (r : Outcome A) (f g : A → Outcome B)
    → ((a : A) → f a ≡ g a)
    → (r >>= f) ≡ (r >>= g)
bind-ext (ok a) f g h = h a
bind-ext died f g h = refl
bind-ext assert_failed f g h = refl
bind-ext undefined f g h = refl
bind-ext out_of_fuel f g h = refl
bind-ext blocked f g h = refl
