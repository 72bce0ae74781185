-- ===== src/Body/Window.antt =====
-- A ranged read gives the bytes of the range.
use origofs.Base.{
  ℕ, ◌+◌, ◌-◌, ◌^◌, ◌≤◌, ◌≡◌, inl, inr, sym, ap, ◌∙◌, min, max, List, [], ◌∷◌, ◌++◌, length,
  length-append, length-drop, leb, Bool-cases, take, drop, take-append_at, drop-append_at, take_eq,
  take-nil, drop-nil, ok, arith,
}
use origofs.Chunk.{ChunkRef, Manifest}
use origofs.Body.{BodyCalls, covering_from, covering_chunks, read_plan, read_range}
use origofs.Body.Reads.{Works, Reads, Holds}

-- The bytes of `p` from `off` to `end`, where `p` starts at `pos`.
abbrev window : ℕ → ℕ → ℕ → List ℕ → List ℕ
window pos off end p = take (min end (pos + length p) - max off pos) (drop (off - pos) p)

window-append :
    (pos off end : ℕ) (p r : List ℕ)
    → window pos off end (p ++ r) ≡ window pos off end p ++ window (pos + length p) off end r
window-append pos off end p r =
    let k : ℕ = min end (pos + length (p ++ r)) - max off pos in
    let n = length-append p r in
    let m = length-drop (off - pos) p in
    let e : off - pos - length p ≡ off - (pos + length p) = omega arith in
    let f : k - length (drop (off - pos) p)
        ≡ min end (pos + length p + length r) - max off (pos + length p) =
      omega (arith, n, m) in
    ap (take k) (drop-append_at (off - pos) p r)
    ∙ take-append_at k (drop (off - pos) p) (drop (off - pos - length p) r)
    ∙ (λ i.
        take_eq k (min end (pos + length p) - max off pos) (drop (off - pos) p)
          (omega (arith, n, m)) i
        ++ take (f i) (drop (e i) r))

window_empty :
    (pos off end : ℕ) (p : List ℕ)
    → min end (pos + length p) ≤ max off pos
    → window pos off end p ≡ []
window_empty pos off end p h =
    let e : min end (pos + length p) - max off pos ≡ 0 = omega (arith, h) in
    ap (λ k. take k (drop (off - pos) p)) e

module _ {S : Type 0} (calls : BodyCalls S) (works : Works calls) where
  read_plan-covering :
      (s : S) (pos off end : ℕ) (cs : List ChunkRef) (b : List ℕ)
      → Reads calls s cs b
      → read_plan calls s (covering_from pos off end cs) ≡ ok (window pos off end b)
  unfolding read_plan covering_from
  read_plan-covering s pos off end [] b r =
      rw (r, drop-nil {A = ℕ} (off - pos))
        (ap ok (sym (take-nil (min end (pos + 0) - max off pos))))
  read_plan-covering s pos off end (c ∷ cs) b (p, rest, (g, l, w), r, q) =
      let cend = pos + c.len in
      let e : cend ≡ pos + length p = omega (arith, l) in
      let ih : read_plan calls s (covering_from cend off end cs)
          ≡ ok (window (pos + length p) off end rest) =
        read_plan-covering s cend off end cs rest r ∙ ap (λ x. ok (window x off end rest)) e in
      let join = window-append pos off end p rest in
      elim (Bool-cases (leb cend off)) [
        | inl t ↦
            let z = window_empty pos off end p (ground (arith, t, e)) in
            rw t (
              ih
              ∙ ap ok (sym (rw q (join ∙ ap (λ x. x ++ window (pos + length p) off end rest) z))))
        | inr t ↦ elim (Bool-cases (leb end pos)) [
          | inl u ↦ rw t (rw u (ap ok (sym (window_empty pos off end b (ground (arith, u))))))
          | inr u ↦
              let k : min end cend - pos - (max off pos - pos)
                  ≡ min end (pos + length p) - max off pos =
                ground (arith, t, u, e) in
              let f : max off pos - pos ≡ off - pos = omega arith in
              let got : calls.get_range s c.hash (max off pos - pos)
                    (min end cend - pos - (max off pos - pos))
                  ≡ ok (window pos off end p) =
                works.range_window s c.hash p (max off pos - pos)
                  (min end cend - pos - (max off pos - pos)) g
                ∙ (λ i. ok (take (k i) (drop (f i) p))) in
              rw t (rw u (rw got (rw ih (ap ok (sym (rw q join))))))
        ]
      ]

  -- With a content store that works, a read of `len` bytes at `off` succeeds and gives the bytes of
  -- the body from `off` on, as many of them as there are up to `len`.
  pub read_range-window :
      (s : S) (m : Manifest) (b : List ℕ) (off len : ℕ)
      → Holds calls s m b
      → read_range calls s m off len ≡ ok (take len (drop off b))
  unfolding read_range covering_chunks
  read_range-window s m b off len (r, e, small) =
      let n = length-drop off b in
      let end : ℕ = min (min (off + len) (2 ^ 64 - 1)) m.size in
      elim (Bool-cases (leb end off)) [
        | inl t ↦
            let z : min len (length (drop off b)) ≡ 0 = ground (arith, t, n, e, small) in
            rw t (ap ok (sym (take_eq len 0 (drop off b) (omega (arith, z)))))
        | inr t ↦
            let z : off - 0 ≡ off = omega arith in
            rw t (
              read_plan-covering s 0 off end m.chunks b r
              ∙ ap (λ k. ok (take (min end (0 + length b) - max off 0) (drop k b))) z
              ∙ ap ok (
                  take_eq (min end (0 + length b) - max off 0) len (drop off b)
                    (ground (arith, t, n, e, small))))
      ]
