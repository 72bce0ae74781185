-- ===== src/Base/Cuts.antt =====
-- Cutting a list in two, and windows of lists.
use Prim.Native.Nat.{ℕ, zero, suc, ◌+◌, ◌-◌, ◌≤◌, min}
use mathlib.Core.Path.{◌≡◌, refl, sym, ap, ◌∙◌}
use mathlib.Core.List.{List, [], ◌∷◌, ◌++◌}
use origofs.Base.Lists.{length, take, drop, take-nil, drop-nil}
use native.Mathlib.Omega.{arith}

module _ {ℓ} {A : Type ℓ} where
  pub take-append_at :
      (n : ℕ) (xs ys : List A) → take n (xs ++ ys) ≡ take n xs ++ take (n - length xs) ys
  take-append_at n [] ys =
      let e : n ≡ n - 0 = omega arith in rw (take-nil {A = A} n) (ap (λ k. take k ys) e)
  take-append_at zero (x ∷ xs) ys =
      let e : 0 ≡ 0 - suc (length xs) = omega arith in ap (λ k. take k ys) e
  take-append_at (suc n) (x ∷ xs) ys =
      let e : n - length xs ≡ suc n - suc (length xs) = omega arith in
      ap (◌∷◌ x) (take-append_at n xs ys ∙ ap (λ k. take n xs ++ take k ys) e)

  pub drop-append_at :
      (n : ℕ) (xs ys : List A) → drop n (xs ++ ys) ≡ drop n xs ++ drop (n - length xs) ys
  drop-append_at n [] ys =
      let e : n ≡ n - 0 = omega arith in rw (drop-nil {A = A} n) (ap (λ k. drop k ys) e)
  drop-append_at zero (x ∷ xs) ys =
      let e : 0 ≡ 0 - suc (length xs) = omega arith in ap (λ k. (x ∷ xs) ++ drop k ys) e
  drop-append_at (suc n) (x ∷ xs) ys =
      let e : n - length xs ≡ suc n - suc (length xs) = omega arith in
      drop-append_at n xs ys ∙ ap (λ k. drop n xs ++ drop k ys) e

  pub append-take-drop : (n : ℕ) (xs : List A) → take n xs ++ drop n xs ≡ xs
  append-take-drop zero xs = refl
  append-take-drop (suc n) [] = refl
  append-take-drop (suc n) (x ∷ xs) = ap (◌∷◌ x) (append-take-drop n xs)

  pub take_all : (n : ℕ) (xs : List A) → length xs ≤ n → take n xs ≡ xs
  take_all n [] h = take-nil n
  take_all zero (x ∷ xs) h = absurd (omega (arith, h))
  take_all (suc n) (x ∷ xs) h = ap (◌∷◌ x) (take_all n xs (omega (arith, h)))

  pub drop_all : (n : ℕ) (xs : List A) → length xs ≤ n → drop n xs ≡ []
  drop_all n [] h = drop-nil n
  drop_all zero (x ∷ xs) h = absurd (omega (arith, h))
  drop_all (suc n) (x ∷ xs) h = drop_all n xs (omega (arith, h))

  pub length-take : (n : ℕ) (xs : List A) → length (take n xs) ≡ min n (length xs)
  length-take zero xs = omega arith
  length-take (suc n) [] = omega arith
  length-take (suc n) (x ∷ xs) = omega (arith, length-take n xs)

  pub drop-drop : (m n : ℕ) (xs : List A) → drop m (drop n xs) ≡ drop (n + m) xs
  drop-drop m zero xs = ap (λ k. drop k xs) (omega arith)
  drop-drop m (suc n) [] = drop-nil m ∙ sym (drop-nil (suc n + m))
  drop-drop m (suc n) (x ∷ xs) =
      let e : suc (n + m) ≡ suc n + m = omega arith in
      drop-drop m n xs ∙ ap (λ k. drop k (x ∷ xs)) e

  pub drop-take : (m n : ℕ) (xs : List A) → drop m (take n xs) ≡ take (n - m) (drop m xs)
  drop-take zero n xs = ap (λ k. take k xs) (omega arith)
  drop-take (suc m) zero xs =
      let e : 0 ≡ 0 - suc m = omega arith in ap (λ k. take k (drop (suc m) xs)) e
  drop-take (suc m) (suc n) [] = sym (take-nil (suc n - suc m))
  drop-take (suc m) (suc n) (x ∷ xs) =
      let e : n - m ≡ suc n - suc m = omega arith in
      drop-take m n xs ∙ ap (λ k. take k (drop m xs)) e

  -- A cut behind the front part of a list.
  pub take_past :
      (k n : ℕ) (xs ys : List A) → k ≡ length xs + n → take k (xs ++ ys) ≡ xs ++ take n ys
  take_past k n xs ys h =
      let e : k - length xs ≡ n = omega (arith, h) in
      take-append_at k xs ys ∙ (λ i. take_all k xs (omega (arith, h)) i ++ take (e i) ys)

  pub drop_past : (k n : ℕ) (xs ys : List A) → k ≡ length xs + n → drop k (xs ++ ys) ≡ drop n ys
  drop_past k n xs ys h =
      let e : k - length xs ≡ n = omega (arith, h) in
      drop-append_at k xs ys ∙ (λ i. drop_all k xs (omega (arith, h)) i ++ drop (e i) ys)

  -- Only the part of a cut that the list reaches counts.
  take-min : (k : ℕ) (xs : List A) → take k xs ≡ take (min k (length xs)) xs
  take-min zero xs = let e : 0 ≡ min 0 (length xs) = omega arith in ap (λ n. take n xs) e
  take-min (suc k) [] = sym (take-nil (min (suc k) 0))
  take-min (suc k) (x ∷ xs) =
      let e : suc (min k (length xs)) ≡ min (suc k) (suc (length xs)) = omega arith in
      ap (◌∷◌ x) (take-min k xs) ∙ ap (λ n. take n (x ∷ xs)) e

  pub take_eq :
      (k k' : ℕ) (xs : List A) → min k (length xs) ≡ min k' (length xs) → take k xs ≡ take k' xs
  take_eq k k' xs h = take-min k xs ∙ ap (λ n. take n xs) h ∙ sym (take-min k' xs)

  -- A front part of a front part and what follows it.
  pub take_split :
      (m n : ℕ) (xs : List A) → m ≤ n → take m xs ++ take (n - m) (drop m xs) ≡ take n xs
  take_split zero n xs h = ap (λ k. take k xs) (omega arith)
  take_split (suc m) n [] h = take-nil (n - suc m) ∙ sym (take-nil n)
  take_split (suc m) zero (x ∷ xs) h = absurd (omega (arith, h))
  take_split (suc m) (suc n) (x ∷ xs) h =
      let e : suc n - suc m ≡ n - m = omega arith in
      ap (λ k. x ∷ (take m xs ++ take k (drop m xs))) e
      ∙ ap (◌∷◌ x) (take_split m n xs (omega (arith, h)))

  pub take-take : (m n : ℕ) (xs : List A) → m ≤ n → take m (take n xs) ≡ take m xs
  take-take zero n xs h = refl
  take-take (suc m) zero xs h = absurd (omega (arith, h))
  take-take (suc m) (suc n) [] h = refl
  take-take (suc m) (suc n) (x ∷ xs) h = ap (◌∷◌ x) (take-take m n xs (omega (arith, h)))
