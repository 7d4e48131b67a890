-- ===== src/Base/Result.antt =====
-- What a Go function with an error result returns: the value, or which error.
use mathlib.Core.Path.{◌≡◌, refl, subst}
use mathlib.Core.Logic.{◌⊎◌, inl, inr}
use mathlib.Core.Bool.{Bool, true, false}
use mathlib.Core.Option.{Option, none, some}

pub data Result {ℓ κ} (E : Type ℓ) (A : Type κ) : Type (ℓ ⊔ κ) where
  ok : A → Result E A
  failed : E → Result E A

infixl 10 ◌>>=◌
abbrev pub ◌>>=◌ {ℓ κ μ} :
    {E : Type ℓ} {A : Type κ} {B : Type μ} → Result E A → (A → Result E B) → Result E B
ok a >>= f = f a
failed e >>= f = failed e

-- The check `if !b { return e }`.
abbrev pub require {ℓ} : {E : Type ℓ} → Bool → E → Result {ℓ, 0} E Unit
require true e = ok tt
require false e = failed e

-- A value that may be missing, with the error for that.
abbrev pub need {ℓ κ} : {E : Type ℓ} {A : Type κ} → Option A → E → Result E A
need none e = failed e
need (some a) e = ok a

-- The same value, or the error in the caller's terms.
abbrev pub map_error {ℓ κ μ} :
    {E : Type ℓ} {F : Type κ} {A : Type μ} → (E → F) → Result E A → Result F A
map_error f (ok a) = ok a
map_error f (failed e) = failed (f e)

-- What holds of the value if there is one.
abbrev pub OnOk {ℓ κ μ} : {E : Type ℓ} {A : Type κ} → (A → Type μ) → Result E A → Type μ
OnOk P (ok a) = P a
OnOk P (failed e) = Unit

pub Result-cases {ℓ κ} :
    {E : Type ℓ} {A : Type κ} (r : Result E A) → ((e : E) × (r ≡ failed e)) ⊎ ((a : A) × (r ≡ ok a))
Result-cases (ok a) = inr (a, refl)
Result-cases (failed e) = inl (e, refl)

pub OnOk-of {ℓ κ μ} :
    {E : Type ℓ} {A : Type κ} (P : A → Type μ) {r : Result E A} {a : A} → r ≡ ok a → OnOk P r → P a
OnOk-of P e h = subst (OnOk P) e h

-- What holds of the value of a `do` block, step by step: each rule hands on what its step established.
module _ {ℓ κ μ ν} {E : Type ℓ} {A : Type κ} {B : Type μ} (P : B → Type ν) where
  pub OnOk-bind :
      (m : Result E A) (f : A → Result E B) → ((a : A) → m ≡ ok a → OnOk P (f a)) → OnOk P (m >>= f)
  OnOk-bind (ok a) f h = h a refl
  OnOk-bind (failed e) f h = tt

  pub OnOk-need :
      (o : Option A) (e : E) (f : A → Result E B)
      → ((a : A) → o ≡ some a → OnOk P (f a))
      → OnOk P (need o e >>= f)
  OnOk-need none e f h = tt
  OnOk-need (some a) e f h = h a refl

  pub OnOk-map_error {ξ} :
      {F : Type ξ} (g : F → E) (r : Result F A) (f : A → Result E B)
      → ((a : A) → r ≡ ok a → OnOk P (f a))
      → OnOk P (map_error g r >>= f)
  OnOk-map_error g (ok a) f h = h a refl
  OnOk-map_error g (failed e) f h = tt

pub OnOk-require {ℓ μ ν} :
    {E : Type ℓ} {B : Type μ} (P : B → Type ν) (b : Bool) (e : E) (f : Unit → Result E B)
    → ((u : Unit) → b ≡ true → OnOk P (f u))
    → OnOk P (require b e >>= f)
OnOk-require P true e f h = h tt refl
OnOk-require P false e f h = tt

-- What is known already holds of any value.
pub OnOk-known {ℓ κ μ} :
    {E : Type ℓ} {A : Type κ} {Q : Type μ} → Q → (r : Result E A) → OnOk (λ a. Q) r
OnOk-known q (ok a) = q
OnOk-known q (failed e) = tt
