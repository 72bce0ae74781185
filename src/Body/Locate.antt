-- ===== src/Body/Locate.antt =====
-- The chunks that `splice_body` replaces reach from at or before the start of the written range to
-- its end, or to the end of the body.
use origofs.Base.{
  ℕ, zero, suc, ◌+◌, ◌-◌, ◌≤◌, ◌<◌, ◌≡◌, ◌⊎◌, inl, inr, refl, min, true, List, [], ◌∷◌, Option,
  none, some, length, take-nil, take, drop, ltb, Bool-cases, arith,
}
use origofs.Chunk.{ChunkRef, total_len}
use origofs.Body.{hit, locate, widened, span_of_write}

pub total_len-split :
    (m n : ℕ) (cs : List ChunkRef)
    → m ≤ n
    → total_len (take n cs) ≡ total_len (take m cs) + total_len (take (n - m) (drop m cs))
unfolding total_len
total_len-split zero n cs h = let e : n - 0 ≡ n = omega arith in rw e (omega arith)
total_len-split (suc m) n [] h =
    rw (take-nil {A = ChunkRef} n, take-nil {A = ChunkRef} (n - suc m)) (omega arith)
total_len-split (suc m) zero (c ∷ cs) h = absurd (omega (arith, h))
total_len-split (suc m) (suc n) (c ∷ cs) h =
    let e : suc n - suc m ≡ n - m = omega arith in
    rw e (omega (arith, total_len-split m n cs (omega (arith, h))))

pub total_len_mono :
    (m n : ℕ) (cs : List ChunkRef) → m ≤ n → total_len (take m cs) ≤ total_len (take n cs)
total_len_mono m n cs h = omega (arith, total_len-split m n cs h)

-- The range ends with the first `k` chunks, or they are all.
abbrev Reaches : ℕ → ℕ → ℕ → List ChunkRef → Type 0
Reaches pos end k cs = (end ≤ pos + total_len (take k cs)) ⊎ (k ≡ length cs)

-- The chunks before `lo` end at or before the range, and those before `hi` reach its end.
abbrev pub Covers : ℕ → ℕ → List ChunkRef → ℕ × ℕ → Type 0
Covers off end cs (lo, hi) =
    (total_len (take lo cs) ≤ off) × (lo ≤ hi) × ((end ≤ total_len (take hi cs)) ⊎ (length cs ≤ hi))

Reaches-cons :
    (pos end k : ℕ) (c : ChunkRef) (cs : List ChunkRef)
    → Reaches (pos + c.len) end k cs
    → Reaches pos end (suc k) (c ∷ cs)
unfolding total_len
Reaches-cons pos end k c cs (inl h) = inl (omega (arith, h))
Reaches-cons pos end k c cs (inr h) = inr (omega (arith, h))

locate-behind :
    (i pos off end : ℕ) (found : Option (ℕ × ℕ)) (cs : List ChunkRef)
    → end ≤ pos
    → locate i pos off end found cs ≡ found
unfolding locate
locate-behind i pos off end found [] h = refl
locate-behind i pos off end found (c ∷ cs) h =
    let ih = locate-behind (suc i) (pos + c.len) off end found cs (omega (arith, h)) in
    ground (arith, h, ih)

locate-next :
    (i pos off end lo hi : ℕ) (cs : List ChunkRef)
    → suc hi ≡ i
    → off < pos
    → (h k : ℕ) × (locate i pos off end (some (lo, hi)) cs ≡ some (lo, h))
      × (suc h ≡ i + k)
      × (k ≤ length cs)
      × Reaches pos end k cs
unfolding locate hit
locate-next i pos off end lo hi [] e p = (hi, 0, refl, omega (arith, e), omega arith, inr refl)
locate-next i pos off end lo hi (c ∷ cs) e p = elim (Bool-cases (ltb pos end)) [
  | inl t ↦
      let (h, k, q, n, m, r) =
        locate-next (suc i) (pos + c.len) off end lo i cs refl (omega (arith, p)) in
      let u : ltb off (pos + c.len) ≡ true = ground (arith, p) in
      (h, suc k, rw u (rw t q), omega (arith, n), omega (arith, m), Reaches-cons pos end k c cs r)
  | inr t ↦
      let z : end ≤ pos = ground (arith, t) in
      (
        hi,
        0,
        locate-behind i pos off end (some (lo, hi)) (c ∷ cs) z,
        omega (arith, e),
        omega arith,
        inl (omega (arith, z)),
      )
]

-- What `locate` answers with before the first hit.
abbrev Located : ℕ → ℕ → ℕ → ℕ → Option (ℕ × ℕ) → List ChunkRef → Type 0
Located i pos off end none cs = pos + total_len cs ≤ off
Located i pos off end (some (lo, hi)) cs =
    (a e : ℕ) × (lo ≡ i + a)
    × (suc hi ≡ i + e)
    × (a < e)
    × (e ≤ length cs)
    × (pos + total_len (take a cs) ≤ off)
    × Reaches pos end e cs

Located-cons :
    (i pos off end : ℕ) (found : Option (ℕ × ℕ)) (c : ChunkRef) (cs : List ChunkRef)
    → Located (suc i) (pos + c.len) off end found cs
    → Located i pos off end found (c ∷ cs)
unfolding total_len
Located-cons i pos off end none c cs h = omega (arith, h)
Located-cons i pos off end (some (lo, hi)) c cs (a, e, p, q, l, m, n, r) = (
  suc a,
  suc e,
  omega (arith, p),
  omega (arith, q),
  omega (arith, l),
  omega (arith, m),
  omega (arith, n),
  Reaches-cons pos end e c cs r,
)

locate-Located :
    (i pos off end : ℕ) (cs : List ChunkRef)
    → pos ≤ off
    → off < end
    → Located i pos off end (locate i pos off end none cs) cs
unfolding locate hit total_len
locate-Located i pos off end [] p h = omega (arith, p)
locate-Located i pos off end (c ∷ cs) p h = elim (Bool-cases (ltb off (pos + c.len))) [
  | inl t ↦
      let u : ltb pos end ≡ true = ground (arith, p, h) in
      let (hi, k, q, n, m, r) =
        locate-next (suc i) (pos + c.len) off end i i cs refl (ground (arith, t)) in
      rw t (
        rw u (
          rw q (
            0,
            suc k,
            omega arith,
            omega (arith, n),
            omega arith,
            omega (arith, m),
            omega (arith, p),
            Reaches-cons pos end k c cs r,
          )))
  | inr t ↦ rw t (
      Located-cons i pos off end (locate (suc i) (pos + c.len) off end none cs) c cs
        (locate-Located (suc i) (pos + c.len) off end cs (ground (arith, t)) h))
]

total_len-take_le : (n : ℕ) (cs : List ChunkRef) → total_len (take n cs) ≤ total_len cs
unfolding total_len
total_len-take_le zero cs = omega arith
total_len-take_le (suc n) [] = omega arith
total_len-take_le (suc n) (c ∷ cs) = omega (arith, total_len-take_le n cs)

widened-Covers :
    (off end : ℕ) (c : ChunkRef) (cs : List ChunkRef) (found : Option (ℕ × ℕ))
    → Located 0 0 off end found (c ∷ cs)
    → Covers off end (c ∷ cs) (widened (length (c ∷ cs)) found)
unfolding widened
widened-Covers off end c cs none h =
    let n : ℕ = suc (length cs) in
    (omega (arith, total_len-take_le (n - 1 - 1) (c ∷ cs), h), omega arith, inr (omega arith))
widened-Covers off end c cs (some (lo, hi)) (a, e, p, q, l, m, n, r) =
    let all : ℕ = suc (length cs) in
    let hi' : ℕ = min (hi + 1) (all - 1) + 1 in
    (
      omega (arith, total_len_mono (lo - 1) a (c ∷ cs) (omega (arith, p)), n),
      omega (arith, p, q, l, m),
      elim r [
        | inl z ↦ inl (omega (arith, total_len_mono e hi' (c ∷ cs) (omega (arith, q, m)), z))
        | inr z ↦ inr (omega (arith, q, z))
      ],
    )

-- The chunks to replace cover a range that is not empty as far as the body has it.
pub span_of_write-Covers :
    (off end : ℕ) (cs : List ChunkRef) → off < end → Covers off end cs (span_of_write off end cs)
unfolding span_of_write total_len
span_of_write-Covers off end [] h = (omega arith, omega arith, inr (omega arith))
span_of_write-Covers off end (c ∷ cs) h =
    widened-Covers off end c cs (locate 0 0 off end none (c ∷ cs))
      (locate-Located 0 0 off end (c ∷ cs) (omega arith) h)
