-- ===== src/Attribution/Windows.antt =====
-- A slice is the window of the file's bytes that it was asked for.
use origofs.Base.{
  ℕ, zero, suc, ◌+◌, ◌-◌, min, max, ◌≡◌, ◌≤◌, inl, inr, refl, sym, ap, ◌∙◌, Bool, true, false, List,
  [], ◌∷◌, ◌++◌, ltb, leb, if◌then◌else◌, length, take, drop, replicate, drop-replicate,
  take-replicate, take-nil, drop-nil, Bool-cases, arith,
}
use origofs.Attribution.{BlameRun, Author, slice_from, slice, total, carry, span_of}
use origofs.Attribution.Runs.{expand, length-expand}

run_if :
    (a t m : ℕ) (rest : List BlameRun) (b : Bool)
    → (b ≡ false → m ≡ 0)
    → expand (if b then record { actor = a; session = t; len = m } ∷ rest else rest)
      ≡ replicate {A = Author} m (a, t) ++ expand rest
unfolding expand
run_if a t m rest true h = refl
run_if a t m rest false h = rw (h refl) refl

rest_if :
    (rest : List BlameRun) (b : Bool) (j : ℕ) (ys : List Author)
    → (b ≡ true → j ≡ 0)
    → (b ≡ false → expand rest ≡ take j ys)
    → expand (if b then [] else rest) ≡ take j ys
unfolding expand
rest_if rest true j ys h k = rw (h refl) refl
rest_if rest false j ys h k = k refl

expand-slice_from :
    (pos start end : ℕ) (rs : List BlameRun)
    → expand (slice_from pos start end rs)
      ≡ take (end - max start pos) (drop (start - pos) (expand rs))
unfolding slice_from expand
expand-slice_from pos start end [] =
    sym (ap (take (end - max start pos)) (drop-nil (start - pos)) ∙ take-nil (end - max start pos))
expand-slice_from pos start end (r ∷ rs) =
    let n = r.len in
    let rend = pos + n in
    let s = max pos start in
    let e = min rend end in
    let k = start - pos in
    let j = end - max start pos in
    let x : Author = (r.actor, r.session) in
    let ys = expand rs in
    let rest = slice_from rend start end rs in
    let ih = expand-slice_from rend start end rs in
    let ek : start - rend ≡ k - n = omega arith in
    let kept = if leb end rend then [] else rest in
    let cut : expand kept ≡ take (j - (n - k)) (drop (k - n) ys) =
      rest_if rest (leb end rend) (j - (n - k)) (drop (k - n) ys) (λ h. ground (arith, h))
        (λ h.
          let w : end - max start rend ≡ j - (n - k) = ground (arith, h) in
          ih ∙ (λ i. take (w i) (drop (ek i) ys))) in
    let front = run_if r.actor r.session (e - s) kept (ltb s e) (λ h. ground (arith, h)) in
    let width : e - s ≡ min j (n - k) = omega arith in
    front
    ∙ (λ i. replicate (width i) x ++ cut i)
    ∙ sym (take-replicate j (n - k) x (drop (k - n) ys))
    ∙ ap (take j) (sym (drop-replicate k n x ys))

-- Byte for byte, a slice has the authors of the window that it was asked for, as far as the map
-- reaches.
pub expand-slice :
    (runs : List BlameRun) (start len : ℕ)
    → expand (slice runs start len) ≡ take len (drop start (expand runs))
unfolding slice
expand-slice runs start len =
    let w : (start + len) - max start 0 ≡ len = omega arith in
    let k : start - 0 ≡ start = omega arith in
    expand-slice_from 0 start (start + len) runs ∙ (λ i. take (w i) (drop (k i) (expand runs)))

length-take_le : (n : ℕ) (xs : List Author) → length (take n xs) ≤ n
length-take_le zero xs = omega arith
length-take_le (suc n) [] = omega arith
length-take_le (suc n) (x ∷ xs) = omega (arith, length-take_le n xs)

total-slice_le : (runs : List BlameRun) (start len : ℕ) → total (slice runs start len) ≤ len
total-slice_le runs start len =
    let a = length-expand (slice runs start len) in
    let b = ap length (expand-slice runs start len) in
    let c = length-take_le len (drop start (expand runs)) in omega arith

pub total-append : (rs ss : List BlameRun) → total (rs ++ ss) ≡ total rs + total ss
unfolding total
total-append [] ss = omega arith
total-append (r ∷ rs) ss = omega (arith, total-append rs ss)

pub total-one : (author : Author) (len : ℕ) → total (span_of author len ∷ []) ≡ len
unfolding total
total-one author len = omega arith

-- A carried span covers exactly the bytes that it was asked for.
pub total-carry :
    (old_map : List BlameRun) (author : Author) (start len : ℕ)
    → total (carry old_map author start len) ≡ len
unfolding carry
total-carry old_map author start len =
    let v = slice old_map start len in
    let a = total-slice_le old_map start len in
    let b = total-append v (span_of author (len - total v) ∷ []) in
    let c = total-one author (len - total v) in
    elim (Bool-cases (ltb (total v) len)) [
      | inl e ↦ rw e (ground (arith, a, b, c, e))
      | inr e ↦ rw e (ground (arith, a, e))
    ]
