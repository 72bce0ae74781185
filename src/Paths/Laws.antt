-- ===== src/Paths/Laws.antt =====
-- What the path operations do to a text cut at a slash.
use origofs.Base.{
  ◌≡◌, ◌⊎◌, inl, inr, refl, sym, ap, none, some, [], ◌∷◌, ◌++◌, Text, ◌==◌, Bool-cases,
  Option-cases, arith,
}
use origofs.Paths.{slash, strip_prefix, cut_last}

pub strip_prefix-append : (p r : Text) → strip_prefix p (p ++ r) ≡ some r
unfolding strip_prefix
strip_prefix-append [] r = refl
strip_prefix-append (c ∷ cs) r = ground (arith, strip_prefix-append cs r)

pub strip_prefix-some : (p s r : Text) → strip_prefix p s ≡ some r → s ≡ p ++ r
unfolding strip_prefix
strip_prefix-some [] s r h = cc
strip_prefix-some (c ∷ cs) [] r h = cc
strip_prefix-some (c ∷ cs) (d ∷ ds) r h = elim (Bool-cases (c == d)) [
  | inl e ↦
      let k : strip_prefix cs ds ≡ some r = ground (arith, e) in
      let q : c ≡ d = ground (arith, e) in rw q (ap (◌∷◌ d) (strip_prefix-some cs ds r k))
  | inr e ↦ ground (arith, e)
]

-- The text holds a slash at the end of `p`.
abbrev pub Cut : Text → Text → Type 0
Cut p s = (r : Text) × (s ≡ p ++ (slash ∷ r))

pub cut_last-some : (s p : Text) → cut_last s ≡ some p → Cut p s
unfolding cut_last
cut_last-some [] p h = cc
cut_last-some (c ∷ cs) p h = elim (Option-cases (cut_last cs)) [
  | inl e ↦ elim (Bool-cases (c == slash)) [
    | inl q ↦ (cs, ground (arith, e, q))
    | inr q ↦ absurd (ground (arith, e, q))
  ]
  | inr (p', e) ↦
      let (r, f) = cut_last-some cs p' e in
      let g : p ≡ c ∷ p' = ground (arith, e) in (r, rw g (ap (◌∷◌ c) f))
]

pub cut_last-none : (s p r : Text) → s ≡ p ++ (slash ∷ r) → cut_last s ≡ none → ⊥
unfolding cut_last
cut_last-none [] [] r e h = cc
cut_last-none [] (x ∷ p) r e h = cc
cut_last-none (c ∷ cs) [] r e h =
    let q : c ≡ slash = cc in
    elim (Option-cases (cut_last cs)) [
      | inl k ↦ ground (arith, k, q, h)
      | inr (p', k) ↦ ground (arith, k, q, h)
    ]
cut_last-none (c ∷ cs) (x ∷ p) r e h =
    let q : cs ≡ p ++ (slash ∷ r) = cc in
    elim (Option-cases (cut_last cs)) [
      | inl k ↦ cut_last-none cs p r q k
      | inr (p', k) ↦ ground (arith, k, h)
    ]

-- Every slash stands at or before the one that `cut_last` cuts at.
pub cut_last-last :
    (s p q r : Text) → cut_last s ≡ some p → s ≡ q ++ (slash ∷ r) → (q ≡ p) ⊎ Cut q p
unfolding cut_last
cut_last-last [] p q r h e = cc
cut_last-last (c ∷ cs) p [] r h e = elim (Option-cases (cut_last cs)) [
  | inl k ↦ let f : p ≡ [] = ground (arith, k, e) in inl (sym f)
  | inr (p', k) ↦
      let f : p ≡ c ∷ p' = ground (arith, k) in let g : c ≡ slash = cc in inr (p', rw f (rw g refl))
]
cut_last-last (c ∷ cs) p (x ∷ q) r h e =
    let es : cs ≡ q ++ (slash ∷ r) = cc in
    let ec : c ≡ x = cc in
    elim (Option-cases (cut_last cs)) [
      | inl k ↦ absurd (cut_last-none cs q r es k)
      | inr (p', k) ↦
          let f : p ≡ c ∷ p' = ground (arith, k) in
          elim (cut_last-last cs p' q r k es) [
            | inl g ↦ inl (rw g (sym (rw (← ec) f)))
            | inr (r', g) ↦ inr (r', rw f (rw ec (ap (◌∷◌ x) g)))
          ]
    ]
