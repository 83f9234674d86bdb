-- ===== src/Prelude/Options.antt =====
-- `Option` as a monad: Rust's `?`.
use mathlib.Core.Option.{Option, none, some}
use mathlib.Core.Path.{◌≡◌, refl}
use mathlib.Core.Bool.{Bool, true, false}

infixl 5 ◌>>=◌
abbrev pub ◌>>=◌ {ℓ κ} : {A : Type ℓ} {B : Type κ} → Option A → (A → Option B) → Option B
none >>= f = none
some a >>= f = f a

-- `bool::then_some`.
abbrev pub then_some {ℓ} : {A : Type ℓ} → Bool → A → Option A
then_some true a = some a
then_some false a = none

-- Inversion of `?` and of `then_some`.
pub bind-eq-some {ℓ κ} :
    {A : Type ℓ} {B : Type κ} (m : Option A) {f : A → Option B} {b : B}
    → (m >>= f) ≡ some b
    → (a : A) × (m ≡ some a) × (f a ≡ some b)
bind-eq-some none h = cc
bind-eq-some (some a) h = (a, refl, h)

pub then_some-eq-some {ℓ} :
    {A : Type ℓ} (b : Bool) (a : A) {c : A} → then_some b a ≡ some c → (b ≡ true) × (a ≡ c)
then_some-eq-some true a h = (refl, cc)
then_some-eq-some false a h = cc

pub bind-rule {ℓ κ μ} :
    {A : Type ℓ} {B : Type κ} {P : Type μ} (m : Option A) {f : A → Option B} {b : B}
    → (m >>= f) ≡ some b
    → ((a : A) → m ≡ some a → f a ≡ some b → P)
    → P
bind-rule none h k = absurd (cc)
bind-rule (some a) h k = k a refl h
