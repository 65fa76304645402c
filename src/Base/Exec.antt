-- ===== src/Base/Exec.antt =====
-- Calls that change a state and may raise. The state comes back after a raise too: what a method
-- has written before it raises stays written until its caller rolls the session back.
use mathlib.Core.Bool.{Bool}
use mathlib.Core.Option.{Option, none, some}
use retail_iq.Base.Tests.{if◌then◌else◌}

pub data Outcome {ℓ κ μ} (S : Type ℓ) (E : Type κ) (A : Type μ) : Type (ℓ ⊔ κ ⊔ μ) where
  ok : A → S → Outcome S E A
  err : E → S → Outcome S E A

abbrev pub Exec {ℓ κ μ} : Type ℓ → Type κ → Type μ → Type (ℓ ⊔ κ ⊔ μ)
Exec S E A = S → Outcome S E A

module _ {ℓ κ μ} {S : Type ℓ} {E : Type κ} {A : Type μ} where
  -- The state that a call leaves.
  abbrev pub final : Outcome S E A → S
  final (ok a s) = s
  final (err e s) = s

  abbrev pub pure : A → Exec S E A
  pure a s = ok a s

  abbrev pub raise : E → Exec S E A
  raise e s = err e s

  abbrev pub gets : (S → A) → Exec S E A
  gets f s = ok (f s) s

  -- The value of a query that must find a row.
  abbrev pub or_raise : Option A → E → Exec S E A
  or_raise none e s = err e s
  or_raise (some a) e s = ok a s

module _ {ℓ κ} {S : Type ℓ} {E : Type κ} where
  abbrev pub raise_if : Bool → E → Exec S E (Unit {0})
  raise_if c e s = if c then err e s else ok tt s

  abbrev pub modify : (S → S) → Exec S E (Unit {0})
  modify f s = ok tt (f s)

infixl 5 ◌>>=◌ ◌>>◌
abbrev pub ◌>>=◌ {ℓ κ μ ν} :
    {S : Type ℓ} {E : Type κ} {A : Type μ} {B : Type ν} → Exec S E A → (A → Exec S E B) → Exec S E B
◌>>=◌ m f s = elim (m s) [ ok a s' ↦ f a s' | err e s' ↦ err e s' ]

abbrev pub ◌>>◌ {ℓ κ ν} :
    {S : Type ℓ} {E : Type κ} {B : Type ν} → Exec S E (Unit {0}) → Exec S E B → Exec S E B
m >> k = m >>= λ _. k
