-- ===== src/Attribution/Runs.antt =====
-- Coalescing keeps each byte's author.
use origofs.Base.{
  ℕ, ◌+◌, ◌≡◌, inl, inr, refl, sym, ap, ◌∙◌, true, List, [], ◌∷◌, ◌++◌, append_assoc, append-nil,
  ◌==◌, if◌then◌else◌, length, length-append, replicate, replicate-add, length-replicate,
  Bool-cases, arith,
}
use origofs.Attribution.{
  BlameRun, Author, same_author, push_run, from_spans_onto, from_spans, total,
}

-- The author of every byte, in order: what a list of runs says.
unfoldable pub expand : List BlameRun → List Author
expand [] = []
expand (r ∷ rs) = replicate r.len (r.actor, r.session) ++ expand rs

pub expand-append : (rs ss : List BlameRun) → expand (rs ++ ss) ≡ expand rs ++ expand ss
unfolding expand
expand-append [] ss = refl
expand-append (r ∷ rs) ss =
    ap (λ z. replicate r.len (r.actor, r.session) ++ z) (expand-append rs ss)
    ∙ sym (append_assoc (replicate r.len (r.actor, r.session)) (expand rs) (expand ss))

pub length-expand : (rs : List BlameRun) → length (expand rs) ≡ total rs
unfolding expand total
length-expand [] = refl
length-expand (r ∷ rs) = omega (
  arith,
  length-append (replicate r.len (r.actor, r.session)) (expand rs),
  length-replicate {A = Author} r.len (r.actor, r.session),
  length-expand rs,
)

expand-empty :
    (s : BlameRun) (ss : List BlameRun) → (s.len == 0) ≡ true → expand (s ∷ ss) ≡ expand ss
unfolding expand
expand-empty s ss h =
    let z : s.len ≡ 0 = ground (arith, h) in
    ap (λ n. replicate {A = Author} n (s.actor, s.session) ++ expand ss) z

expand-same :
    (a t m n : ℕ)
    → replicate {A = Author} (m + n) (a, t) ++ []
      ≡ (replicate {A = Author} m (a, t) ++ []) ++ (replicate {A = Author} n (a, t) ++ [])
expand-same a t m n =
    let x : Author = (a, t) in rw append-nil (rw append-nil (rw append-nil (replicate-add m n x)))

expand-pair :
    (r s : BlameRun)
    → expand (
        if same_author r s
        then record { actor = r.actor; session = r.session; len = r.len + s.len } ∷ []
        else r ∷ s ∷ [])
      ≡ expand (r ∷ []) ++ expand (s ∷ [])
unfolding expand
expand-pair r s = elim (Bool-cases (same_author r s)) [
  | inl e ↦
      let p : r.actor ≡ s.actor = ground (arith, e) in
      let q : r.session ≡ s.session = ground (arith, e) in
      rw e (rw (← p) (rw (← q) (expand-same r.actor r.session r.len s.len)))
  | inr e ↦ rw e (expand-append (r ∷ []) (s ∷ []))
]

expand-push_run :
    (rs : List BlameRun) (s : BlameRun) → expand (push_run rs s) ≡ expand rs ++ expand (s ∷ [])
unfolding expand push_run
expand-push_run [] s = refl
expand-push_run (r ∷ []) s = expand-pair r s
expand-push_run (r ∷ r' ∷ rs) s =
    ap (λ z. replicate r.len (r.actor, r.session) ++ z) (expand-push_run (r' ∷ rs) s)
    ∙ sym (append_assoc (replicate r.len (r.actor, r.session)) (expand (r' ∷ rs)) (expand (s ∷ [])))

expand-from_spans_onto :
    (rs ss : List BlameRun) → expand (from_spans_onto rs ss) ≡ expand rs ++ expand ss
unfolding from_spans_onto
expand-from_spans_onto rs [] = unfold expand in sym (append-nil (expand rs))
expand-from_spans_onto rs (s ∷ ss) = elim (Bool-cases (s.len == 0)) [
  | inl e ↦
      rw e (expand-from_spans_onto rs ss ∙ ap (λ z. expand rs ++ z) (sym (expand-empty s ss e)))
  | inr e ↦ rw e (
      expand-from_spans_onto (push_run rs s) ss
      ∙ ap (λ z. z ++ expand ss) (expand-push_run rs s)
      ∙ append_assoc (expand rs) (expand (s ∷ [])) (expand ss)
      ∙ ap (λ z. expand rs ++ z) (sym (expand-append (s ∷ []) ss)))
]

-- Coalescing spans into runs keeps the author of every byte.
pub expand-from_spans : (spans : List BlameRun) → expand (from_spans spans) ≡ expand spans
unfolding from_spans
expand-from_spans spans = unfold expand in expand-from_spans_onto [] spans
