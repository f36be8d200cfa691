-- ===== src/Prelude/Outcome.antt =====
-- What a fallible function of the program returns: a value, an error by its message
-- (`anyhow::Error`), a panic, or nothing yet where the model's fuel ran out.
use Prim.Native.String.{String}
use mathlib.Core.Path.{◌≡◌, refl}
use mathlib.Core.Bool.{Bool, true, false}
use mathlib.Core.Option.{Option, none, some}
use mikan_judge.Prelude.Tests.{if◌then◌else◌}

pub data Outcome {ℓ} (A : Type ℓ) : Type ℓ where
  ok : A → Outcome A
  err : String → Outcome A
  panic : Outcome A
  out_of_fuel : Outcome A

-- `?` on a result.
module _ {ℓ κ} {A : Type ℓ} {B : Type κ} where
  infixl 5 ◌>>=◌
  abbrev pub ◌>>=◌ : Outcome A → (A → Outcome B) → Outcome B
  out_of_fuel >>= next = out_of_fuel
  panic >>= next = panic
  err message >>= next = err message
  ok value >>= next = next value

infixl 5 ◌>>◌
abbrev pub ◌>>◌ {κ} : {B : Type κ} → Outcome (Unit {0}) → Outcome B → Outcome B
first >> rest = first >>= λ _. rest

-- A call that panics where it has no result.
abbrev pub or_panic {ℓ} : {A : Type ℓ} → Option A → Outcome A
or_panic none = panic
or_panic (some a) = ok a

-- A call that returns: with a value or with an error.
abbrev pub Settles {ℓ} : {A : Type ℓ} → Outcome A → Type 0
Settles (ok _) = Unit
Settles (err _) = Unit
Settles panic = ⊥
Settles out_of_fuel = ⊥

module _ {ℓ κ} {A : Type ℓ} {B : Type κ} where
  pub Settles-bind :
      (m : Outcome A) (f : A → Outcome B)
      → Settles m
      → ((a : A) → Settles (f a))
      → Settles (m >>= f)
  Settles-bind (ok a) f h k = k a
  Settles-bind (err e) f h k = tt
  Settles-bind panic f h k = h
  Settles-bind out_of_fuel f h k = h

  -- Inversion of a chain that succeeds.
  pub >>=-eq-ok :
      (first : Outcome A) (next : A → Outcome B) {result : B}
      → first >>= next ≡ ok result
      → (value : A) × (first ≡ ok value) × (next value ≡ ok result)
  >>=-eq-ok out_of_fuel next done = cc
  >>=-eq-ok panic next done = cc
  >>=-eq-ok (err message) next done = cc
  >>=-eq-ok (ok value) next done = (value, refl, done)

pub ok_inj {ℓ} : {A : Type ℓ} {a b : A} → ok a ≡ ok b → a ≡ b
ok_inj h = cc

pub Settles-if {ℓ} :
    {A : Type ℓ} (b : Bool) (m n : Outcome A) → Settles m → Settles n → Settles (if b then m else n)
Settles-if true m n h k = h
Settles-if false m n h k = k
