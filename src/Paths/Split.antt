-- ===== src/Paths/Split.antt =====
-- Splitting at slashes, and the absence of `..` components.
use origofs.Base.{
  ◌≡◌, inl, inr, refl, ap, Bool, ◌||◌, List, [], ◌∷◌, ◌++◌, Text, text_eq, ◌==◌, any_of, Bool-cases,
  arith,
}
use origofs.Paths.{slash, split_slash, push_first, has_dotdot, dotdot}

any_of-append :
    {A : Type 0} (p : A → Bool) (xs ys : List A)
    → any_of p (xs ++ ys) ≡ (any_of p xs || any_of p ys)
any_of-append p [] ys = refl
any_of-append p (x ∷ xs) ys = ground (arith, any_of-append p xs ys)

split_slash-cons : (s : Text) → (p : Text) × (ps : List Text) × (split_slash s ≡ p ∷ ps)
unfolding split_slash push_first
split_slash-cons [] = ([], [], refl)
split_slash-cons (c ∷ cs) =
    let (p, ps, e) = split_slash-cons cs in
    elim (Bool-cases (c == slash)) [
      | inl q ↦ ([], split_slash cs, rw q)
      | inr q ↦ (c ∷ p, ps, rw q (rw e refl))
    ]

pub split_slash-append :
    (a b : Text) → split_slash (a ++ (slash ∷ b)) ≡ split_slash a ++ split_slash b
unfolding split_slash push_first
split_slash-append [] b = refl
split_slash-append (c ∷ cs) b =
    let (p, ps, e) = split_slash-cons cs in
    let ih = split_slash-append cs b in
    elim (Bool-cases (c == slash)) [
      | inl q ↦ rw q (ap (◌∷◌ []) ih)
      | inr q ↦ rw q (rw ih (rw e refl))
    ]

pub has_dotdot-append :
    (a b : Text) → has_dotdot (a ++ (slash ∷ b)) ≡ (has_dotdot a || has_dotdot b)
unfolding has_dotdot
has_dotdot-append a b =
    rw (split_slash-append a b)
      (any_of-append (λ c. text_eq c dotdot) (split_slash a) (split_slash b))
