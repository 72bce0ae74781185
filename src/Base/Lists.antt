-- ===== src/Base/Lists.antt =====
-- Lists measured and cut by native numbers, and predicates on lists by recursion.
use Prim.Native.Nat.{ℕ, zero, suc, ◌+◌, ◌-◌, min}
use mathlib.Core.Path.{◌≡◌, refl, sym, ap, subst, ◌∙◌}
use mathlib.Core.Logic.{◌⊎◌, inl, inr}
use mathlib.Core.Bool.{Bool, true, false, ◌&&◌, ◌||◌}
use mathlib.Core.List.{List, [], ◌∷◌, ◌++◌}
use origofs.Base.Tests.{Bool-cases, if◌then◌else◌}
use native.Mathlib.Omega.{arith}

module _ {ℓ} {A : Type ℓ} where
  abbrev pub length : List A → ℕ
  length [] = 0
  length (x ∷ xs) = suc (length xs)

  abbrev pub take : ℕ → List A → List A
  take zero xs = []
  take (suc n) [] = []
  take (suc n) (x ∷ xs) = x ∷ take n xs

  abbrev pub drop : ℕ → List A → List A
  drop zero xs = xs
  drop (suc n) [] = []
  drop (suc n) (x ∷ xs) = drop n xs

  abbrev pub All {κ} : (A → Type κ) → List A → Type κ
  All P [] = Unit {κ}
  All P (x ∷ xs) = P x × All P xs

module _ {ℓ} {A : Type ℓ} where
  pub length-append : (xs ys : List A) → length (xs ++ ys) ≡ length xs + length ys
  length-append [] ys = omega arith
  length-append (x ∷ xs) ys = omega (arith, length-append xs ys)

  pub take-append : (xs ys : List A) → take (length xs) (xs ++ ys) ≡ xs
  take-append [] ys = refl
  take-append (x ∷ xs) ys = ap (◌∷◌ x) (take-append xs ys)

  pub drop-append : (xs ys : List A) → drop (length xs) (xs ++ ys) ≡ ys
  drop-append [] ys = refl
  drop-append (x ∷ xs) ys = drop-append xs ys

  pub length-drop : (n : ℕ) (xs : List A) → length (drop n xs) ≡ length xs - n
  length-drop zero xs = omega arith
  length-drop (suc n) [] = omega arith
  length-drop (suc n) (x ∷ xs) = omega (arith, length-drop n xs)

  pub All-append {κ} : (P : A → Type κ) (xs ys : List A) → All P xs → All P ys → All P (xs ++ ys)
  All-append P [] ys h k = k
  All-append P (x ∷ xs) ys (h, hs) k = (h, All-append P xs ys hs k)

  pub All-append_inv {κ} :
      (P : A → Type κ) (xs ys : List A) → All P (xs ++ ys) → All P xs × All P ys
  All-append_inv P [] ys h = (tt, h)
  All-append_inv P (x ∷ xs) ys (h, hs) = let (a, b) = All-append_inv P xs ys hs in ((h, a), b)

module _ {A : Type 0} where
  -- `x` is an element of the list.
  abbrev pub In : A → List A → Type 0
  In x [] = ⊥
  In x (y ∷ ys) = (x ≡ y) ⊎ In x ys

module _ {A : Type 0} where
  pub All-of-In {κ} : (P : A → Type κ) (x : A) (xs : List A) → All P xs → In x xs → P x
  All-of-In P x [] h i = absurd i
  All-of-In P x (y ∷ ys) (h, hs) (inl e) = rw e h
  All-of-In P x (y ∷ ys) (h, hs) (inr i) = All-of-In P x ys hs i

  pub All-to {κ} : (P : A → Type κ) (xs : List A) → ((x : A) → In x xs → P x) → All P xs
  All-to P [] f = tt
  All-to P (x ∷ xs) f = (f x (inl refl), All-to P xs (λ y i. f y (inr i)))

  pub In-append_left : (x : A) (xs ys : List A) → In x xs → In x (xs ++ ys)
  In-append_left x [] ys i = absurd i
  In-append_left x (y ∷ xs) ys (inl e) = inl e
  In-append_left x (y ∷ xs) ys (inr i) = inr (In-append_left x xs ys i)

  pub In-append_right : (x : A) (xs ys : List A) → In x ys → In x (xs ++ ys)
  In-append_right x [] ys i = i
  In-append_right x (y ∷ xs) ys i = inr (In-append_right x xs ys i)

  pub In-append_inv : (x : A) (xs ys : List A) → In x (xs ++ ys) → In x xs ⊎ In x ys
  In-append_inv x [] ys i = inr i
  In-append_inv x (y ∷ xs) ys (inl e) = inl (inl e)
  In-append_inv x (y ∷ xs) ys (inr i) = elim (In-append_inv x xs ys i) [
    | inl j ↦ inl (inr j)
    | inr j ↦ inr j
  ]

module _ {ℓ} {A : Type ℓ} where
  -- `Vec::retain`, `Iterator::filter`.
  abbrev pub retain : (A → Bool) → List A → List A
  retain p [] = []
  retain p (x ∷ xs) = let rest = retain p xs in if p x then x ∷ rest else rest

  -- `Iterator::any`.
  abbrev pub any_of : (A → Bool) → List A → Bool
  any_of p [] = false
  any_of p (x ∷ xs) = p x || any_of p xs

  abbrev pub all_of : (A → Bool) → List A → Bool
  all_of p [] = true
  all_of p (x ∷ xs) = p x && all_of p xs

module _ {A : Type 0} where
  RetainStep : (p : A → Bool) (x y : A) (ys : List A) (b : Bool) → Type 0
  RetainStep p x y ys b = In x (if b then y ∷ retain p ys else retain p ys)

  pub In-retain : (p : A → Bool) (x : A) (xs : List A) → In x (retain p xs) → In x xs × (p x ≡ true)
  unfolding RetainStep
  In-retain p x [] i = absurd i
  In-retain p x (y ∷ ys) i =
      let ih = In-retain p x ys in
      elim (Bool-cases (p y)) [
        | inl e ↦
            let j : RetainStep p x y ys true = subst (RetainStep p x y ys) e i in
            elim j [ inl q ↦ (inl q, rw q e) | inr k ↦ (inr (ih k).0, (ih k).1) ]
        | inr e ↦
            let k : RetainStep p x y ys false = subst (RetainStep p x y ys) e i in
            (inr (ih k).0, (ih k).1)
      ]

  pub In-retain_of :
      (p : A → Bool) (x : A) (xs : List A) → In x xs → p x ≡ true → In x (retain p xs)
  unfolding RetainStep
  In-retain_of p x [] i h = absurd i
  In-retain_of p x (y ∷ ys) (inl q) h =
      let e : p y ≡ true = rw (← q) h in subst (RetainStep p x y ys) (sym e) (inl q)
  In-retain_of p x (y ∷ ys) (inr j) h =
      let ih = In-retain_of p x ys j h in
      elim (Bool-cases (p y)) [
        | inl e ↦ subst (RetainStep p x y ys) (sym e) (inr ih)
        | inr e ↦ subst (RetainStep p x y ys) (sym e) ih
      ]

module _ {ℓ} {A : Type ℓ} where
  abbrev pub replicate : ℕ → A → List A
  replicate zero x = []
  replicate (suc n) x = x ∷ replicate n x

  pub length-replicate : (n : ℕ) (x : A) → length (replicate n x) ≡ n
  length-replicate zero x = refl
  length-replicate (suc n) x = ap suc (length-replicate n x)

  pub replicate-add : (m n : ℕ) (x : A) → replicate (m + n) x ≡ replicate m x ++ replicate n x
  replicate-add zero n x = ap (λ k. replicate k x) (omega arith)
  replicate-add (suc m) n x =
      let e : suc m + n ≡ suc (m + n) = omega arith in
      ap (λ k. replicate k x) e ∙ ap (◌∷◌ x) (replicate-add m n x)

  pub take-nil : (n : ℕ) → take {A = A} n [] ≡ []
  take-nil zero = refl
  take-nil (suc n) = refl

  pub drop-nil : (n : ℕ) → drop {A = A} n [] ≡ []
  drop-nil zero = refl
  drop-nil (suc n) = refl

  -- A window on a list that begins with a run of one element.
  pub drop-replicate :
      (k n : ℕ) (x : A) (ys : List A)
      → drop k (replicate n x ++ ys) ≡ replicate (n - k) x ++ drop (k - n) ys
  drop-replicate zero zero x ys = refl
  drop-replicate zero (suc n) x ys =
      let f : suc n ≡ suc n - 0 = omega arith in
      let e : 0 ≡ 0 - suc n = omega arith in λ i. replicate (f i) x ++ drop (e i) ys
  drop-replicate (suc k) zero x ys =
      let f : 0 ≡ 0 - suc k = omega arith in
      let e : suc k ≡ suc k - 0 = omega arith in λ i. replicate (f i) x ++ drop (e i) ys
  drop-replicate (suc k) (suc n) x ys =
      let f : n - k ≡ suc n - suc k = omega arith in
      let e : k - n ≡ suc k - suc n = omega arith in
      drop-replicate k n x ys ∙ (λ i. replicate (f i) x ++ drop (e i) ys)

  pub take-replicate :
      (k n : ℕ) (x : A) (ys : List A)
      → take k (replicate n x ++ ys) ≡ replicate (min k n) x ++ take (k - n) ys
  take-replicate zero zero x ys = refl
  take-replicate zero (suc n) x ys =
      let f : 0 ≡ min 0 (suc n) = omega arith in
      let e : 0 ≡ 0 - suc n = omega arith in λ i. replicate (f i) x ++ take (e i) ys
  take-replicate (suc k) zero x ys =
      let f : 0 ≡ min (suc k) 0 = omega arith in
      let e : suc k ≡ suc k - 0 = omega arith in λ i. replicate (f i) x ++ take (e i) ys
  take-replicate (suc k) (suc n) x ys =
      let f : suc (min k n) ≡ min (suc k) (suc n) = omega arith in
      let e : k - n ≡ suc k - suc n = omega arith in
      ap (◌∷◌ x) (take-replicate k n x ys) ∙ (λ i. replicate (f i) x ++ take (e i) ys)
