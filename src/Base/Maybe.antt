-- ===== src/Base/Maybe.antt =====
-- `Option` as the monad of code that may panic: `none` is a failed ASSERT or a PANIC.
use mathlib.Core.Bool.{Bool, true, false}
use mathlib.Core.Path.{◌≡◌, refl}
use mathlib.Core.Option.{Option, none, some}

infixl 5 ◌>>=◌ ◌>>◌
abbrev pub ◌>>=◌ {ℓ κ} : {A : Type ℓ} {B : Type κ} → Option A → (A → Option B) → Option B
none >>= f = none
some a >>= f = f a

abbrev pub ◌>>◌ {ℓ} : {B : Type ℓ} → Option (Unit {0}) → Option B → Option B
m >> k = m >>= λ _. k

-- `ASSERT (b)`: the kernel panics if the condition is false.
abbrev pub assert : Bool → Option (Unit {0})
assert true = some tt
assert false = none

-- The parts of a step that ends without a panic.
pub >>=-eq-some {ℓ κ} :
    {A : Type ℓ} {B : Type κ} (m : Option A) (f : A → Option B) {b : B}
    → (m >>= f) ≡ some b
    → (a : A) × (m ≡ some a) × (f a ≡ some b)
>>=-eq-some none f h = cc
>>=-eq-some (some a) f h = (a, refl, h)

pub bind_assoc {ℓ} :
    {A : Type ℓ} {B : Type ℓ} {C : Type ℓ} (m : Option A) (f : A → Option B) (g : B → Option C)
    → (m >>= (λ x. f x >>= g)) ≡ ((m >>= f) >>= g)
bind_assoc none f g = refl
bind_assoc (some x) f g = refl
