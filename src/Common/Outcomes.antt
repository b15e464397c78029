-- ===== src/Common/Outcomes.antt =====
-- Methods that mutate their object and may throw. What was written before a `throw` stays written,
-- so a method returns the object in every case, and beside it the error, if there is one.
use mathlib.Core.Path.{◌≡◌, refl}
use mathlib.Core.Logic.{◌⊎◌, inl, inr}
use mathlib.Core.Option.{Option, none, some}

module _ {ℓ κ} where
  abbrev pub Outcome : Type ℓ → Type κ → Type (ℓ ⊔ κ)
  Outcome S E = S × Option E

  -- The next statement of a method body runs only if the one before it did not throw.
  infixl 5 ◌then_do◌
  abbrev pub ◌then_do◌ : {S : Type ℓ} {E : Type κ} → Outcome S E → (S → Outcome S E) → Outcome S E
  (s, none) then_do f = f s
  (s, some e) then_do f = (s, some e)

-- A factory or a pure check: a value, or what it throws.
pub data Result {ℓ κ} (E : Type κ) (A : Type ℓ) : Type (ℓ ⊔ κ) where
  ok : A → Result E A
  err : E → Result E A

infixl 5 ◌>>=◌
abbrev pub ◌>>=◌ {ℓ κ μ} :
    {E : Type κ} {A : Type ℓ} {B : Type μ} → Result E A → (A → Result E B) → Result E B
ok a >>= f = f a
err e >>= f = err e

module _ {ℓ κ} {E : Type κ} {A : Type ℓ} where
  pub Result-cases : (r : Result E A) → ((a : A) × (r ≡ ok a)) ⊎ ((e : E) × (r ≡ err e))
  Result-cases (ok a) = inl (a, refl)
  Result-cases (err e) = inr (e, refl)

  -- Inversion of a chain that succeeded.
  pub >>=-eq-ok {μ} :
      {B : Type μ} (r : Result E A) (f : A → Result E B) {b : B}
      → (r >>= f) ≡ ok b
      → (a : A) × (r ≡ ok a) × (f a ≡ ok b)
  >>=-eq-ok (ok a) f h = (a, refl, h)
  >>=-eq-ok (err e) f h = cc

module _ {ℓ κ μ} {S : Type ℓ} {E : Type κ} {A : Type μ} where
  -- `this.field = check()`: nothing is written if the check throws.
  abbrev pub assign : S → Result E A → (A → S) → Outcome S E
  assign s (ok a) write = (write a, none)
  assign s (err e) write = (s, some e)

  -- `if (value !== undefined) { ... }`
  abbrev pub when_given : Option A → S → (A → Outcome S E) → Outcome S E
  when_given none s body = (s, none)
  when_given (some a) s body = body a

-- A property that the state has before and after each statement holds at the end, also where the
-- first of them throws.
module _ {ℓ κ μ} {S : Type ℓ} {E : Type κ} (P : S → Type μ) where
  pub then_do_keeps :
      (o : Outcome S E) (f : S → Outcome S E)
      → P o.0
      → ((s : S) → P s → P (f s).0)
      → P (o then_do f).0
  then_do_keeps (s, none) f h k = k s h
  then_do_keeps (s, some e) f h k = h

  pub assign_keeps {ν} :
      {A : Type ν} (s : S) (r : Result E A) (write : A → S)
      → P s
      → ((a : A) → r ≡ ok a → P (write a))
      → P (assign s r write).0
  assign_keeps s (ok a) write h k = k a refl
  assign_keeps s (err e) write h k = h

-- The same with a property `P` that holds where the first statement has ended, and implies `R`.
pub then_do_goes {ℓ κ μ ν} :
    {S : Type ℓ} {E : Type κ} (P : S → Type μ) (R : S → Type ν) (o : Outcome S E)
    (f : S → Outcome S E)
    → P o.0
    → ((s : S) → P s → R s)
    → ((s : S) → P s → R (f s).0)
    → R (o then_do f).0
then_do_goes P R (s, none) f h w k = k s h
then_do_goes P R (s, some e) f h w k = w s h

pub ok_injective {ℓ κ} :
    {E : Type κ} {A : Type ℓ} {a b : A} → ◌≡◌ {A = Result E A} (ok a) (ok b) → a ≡ b
ok_injective h = cc
