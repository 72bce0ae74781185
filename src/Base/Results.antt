-- ===== src/Base/Results.antt =====
-- `Result<T, E>`, and `do` blocks over it.
use mathlib.Core.Path.{◌≡◌, refl}
use mathlib.Core.Logic.{◌⊎◌, inl, inr}
use mathlib.Core.Bool.{Bool, true, false}
use mathlib.Core.Option.{Option, none, some}

pub data Result (Failure Value : Type 0) : Type 0 where
  err : Failure → Result Failure Value
  ok : Value → Result Failure Value

-- `if !passed { return Err(why) }`.
abbrev pub guard : {F : Type 0} → Bool → F → Result F (Unit {0})
guard passed why = elim passed [ false ↦ err why | true ↦ ok tt ]

-- `let value = first?; next(value)`.
infixl 5 ◌>>=◌ ◌>>◌
abbrev pub ◌>>=◌ : {F V W : Type 0} → Result F V → (V → Result F W) → Result F W
err why >>= next = err why
ok value >>= next = next value

abbrev pub ◌>>◌ : {F W : Type 0} → Result F (Unit {0}) → Result F W → Result F W
first >> next = first >>= (λ _. next)

-- `Option::ok_or`.
abbrev pub ok_or : {E A : Type 0} → Option A → E → Result E A
ok_or none e = err e
ok_or (some a) e = ok a

-- A successful bind has two successful parts.
pub >>=-eq-ok :
    {F V W : Type 0} {w : W} (first : Result F V) (next : V → Result F W)
    → first >>= next ≡ ok w
    → (v : V) × (first ≡ ok v) × (next v ≡ ok w)
>>=-eq-ok (err why) next h = cc
>>=-eq-ok (ok v) next h = (v, refl, h)

pub Result-cases :
    {E A : Type 0} (m : Result E A) → ((e : E) × (m ≡ err e)) ⊎ ((a : A) × (m ≡ ok a))
Result-cases (ok a) = inr (a, refl)
Result-cases (err e) = inl (e, refl)
