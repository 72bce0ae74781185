-- ===== src/Body/Replace.antt =====
-- Replacing a range of a body by other chunks.
use origofs.Base.{
  ℕ, ◌+◌, ◌-◌, ◌*◌, ◌/◌, ◌^◌, ◌<◌, ◌≡◌, inl, inr, refl, sym, ap, subst, ◌∙◌, max, true, List, [],
  ◌∷◌, ◌++◌, none, length, length-append, length-take, length-drop, length-replicate, replicate,
  take, drop, drop_all, leb, ltb, ◌==◌, Bool-cases, append-nil, arith,
}
use origofs.Chunk.{ChunkRef, Manifest, total_len}
use origofs.Body.{BodyCalls, min_chunk, fits}
use origofs.Body.Edits.{head_of, tail_of, seal_unless_empty, replace_range}
use origofs.Body.Reads.{
  Works, Extends, Extends-trans, Reads, Reads-Extends, Reads-append, Reads-length, Holds,
}
use origofs.Body.Upload.{Builds, Saves, Saves-after, append_hole-Builds, seal-Saves}
use origofs.Body.Divide.{split_chunks_at-Splits}

-- What a write of `d` at `off` makes of the bytes `b`: a gap behind their end is filled with zeroes.
abbrev pub written : ℕ → List ℕ → List ℕ → List ℕ
written off d b = take off (b ++ replicate (off - length b) 0) ++ (d ++ drop (off + length d) b)

pub length-written :
    (off : ℕ) (d b : List ℕ) → length (written off d b) ≡ max (length b) (off + length d)
length-written off d b =
    let pad : List ℕ = replicate (off - length b) 0 in
    omega (
      arith,
      length-append (take off (b ++ pad)) (d ++ drop (off + length d) b),
      length-take off (b ++ pad),
      length-append b pad,
      length-replicate {A = ℕ} (off - length b) 0,
      length-append d (drop (off + length d) b),
      length-drop (off + length d) b,
    )

length_nil : {A : Type 0} (xs : List A) → length xs ≡ 0 → xs ≡ []
length_nil [] h = refl
length_nil (x ∷ xs) h = absurd (omega (arith, h))

module _ {S : Type 0} (calls : BodyCalls S) (works : Works calls) where
  head_of-Builds :
      (s : S) (m : Manifest) (b : List ℕ) (off : ℕ)
      → Holds calls s m b
      → Builds calls s
          (head_of calls s m off)
          (take off (b ++ replicate (off - length b) 0))
          (length m.chunks + (off / min_chunk + 1))
  unfolding head_of
  head_of-Builds s m b off (r, e, small) = elim (Bool-cases (ltb m.size off)) [
    | inl t ↦
        let (cs, u, e', r', ext, few) =
          append_hole-Builds calls works s m.chunks b (off - m.size) r in
        let pad = b ++ replicate (off - m.size) 0 in
        let (xs, ys, v, e'', ra, rb, ext', lx, _) =
          split_chunks_at-Splits calls works u cs off pad r' in
        rw t (
          xs,
          v,
          rw e' (rw e'' refl),
          subst (λ n. Reads calls v xs (take off (b ++ replicate (off - n) 0))) e ra,
          Extends-trans calls s u v ext ext',
          omega (arith, few, lx),
        )
    | inr t ↦
        let n : off - length b ≡ 0 = ground (arith, t, e) in
        let (xs, ys, v, e'', ra, rb, ext', lx, _) =
          split_chunks_at-Splits calls works s m.chunks off b r in
        let q : b ≡ b ++ replicate (off - length b) 0 =
          sym (append-nil b) ∙ ap (λ k. b ++ replicate k 0) (sym n) in
        rw t (
          xs,
          v,
          rw e'' refl,
          subst (λ z. Reads calls v xs (take off z)) q ra,
          ext',
          omega (arith, lx),
        )
  ]

  tail_of-Builds :
      (s : S) (m : Manifest) (b : List ℕ) (end : ℕ)
      → Holds calls s m b
      → Builds calls s (tail_of calls s m end) (drop end b) (length m.chunks)
  unfolding tail_of
  tail_of-Builds s m b end (r, e, small) = elim (Bool-cases (leb m.size end)) [
    | inl t ↦ ([], s, rw t refl, drop_all end b (ground (arith, t, e)), λ k p g. g, omega arith)
    | inr t ↦
        let (xs, ys, v, e', ra, rb, ext, _, ly) =
          split_chunks_at-Splits calls works s m.chunks end b r in
        (ys, v, rw t (rw e' refl), rb, ext, ly)
  ]

  seal_unless_empty-Saves :
      (s₀ s : S) (cs : List ChunkRef) (b : List ℕ)
      → Extends calls s₀ s
      → Reads calls s cs b
      → length b < 2 ^ 64
      → Saves calls s₀ (seal_unless_empty calls s cs) b (length cs)
  unfolding seal_unless_empty
  seal_unless_empty-Saves s₀ s cs b ext r small =
      let n = Reads-length calls s cs b r in
      elim (Bool-cases (total_len cs == 0)) [
        | inl t ↦
            let z : b ≡ [] = length_nil b (ground (arith, t, n)) in
            inr (none, s, rw t (rw z refl), z, ext)
        | inr t ↦ rw t (
            seal-Saves calls works s₀ s (record { size = total_len cs; chunks = cs }) b (length cs)
              ext (r, n, small) (omega arith))
      ]

  -- With a content store and a cut that work as documented, and where the new chunks end below 2^64,
  -- `replace_range` gives the body in which their bytes stand at `off`, a gap behind the old end
  -- filled with zeroes. It refuses only where twice the number of chunks of the old body, the number
  -- of new ones, `off` over 16 KiB and one come to 2^32 or more.
  pub replace_range-Saves :
      (s : S) (m : Manifest) (b : List ℕ) (off : ℕ) (new : List ChunkRef) (d : List ℕ)
      → Holds calls s m b
      → Reads calls s new d
      → off + length d < 2 ^ 64
      → Saves calls s
          (replace_range calls s m off new)
          (written off d b)
          (2 * length m.chunks + length new + (off / min_chunk + 1))
  unfolding replace_range
  replace_range-Saves s m b off new d (r, e, small) rn fine =
      let n = Reads-length calls s new d rn in
      let front : List ℕ = take off (b ++ replicate (off - length b) 0) in
      let back : List ℕ = drop (off + length d) b in
      let (xs, t, e', ra, ext, lx) = head_of-Builds s m b off (r, e, small) in
      let (ys, u, e'', rb, ext', ly) =
        tail_of-Builds t m b (off + length d)
          (Reads-Extends calls s t m.chunks b ext r, e, small) in
      let all = Extends-trans calls s t u ext ext' in
      let mid = Reads-Extends calls s u new d all rn in
      let whole : Reads calls u (xs ++ (new ++ ys)) (written off d b) =
        Reads-append calls u xs (new ++ ys) front (d ++ back)
          (Reads-Extends calls t u xs front ext' ra) (Reads-append calls u new ys d back mid rb) in
      let ok : fits (off + length d) ≡ true = ground (arith, fine) in
      rw (n, ok, e', e'')
        (Saves-after calls works s s (seal_unless_empty calls u (xs ++ (new ++ ys)))
          (written off d b) (length (xs ++ (new ++ ys)))
          (2 * length m.chunks + length new + (off / min_chunk + 1)) (λ k p g. g)
          (omega (arith, length-append xs (new ++ ys), length-append new ys, lx, ly))
          (seal_unless_empty-Saves s u (xs ++ (new ++ ys)) (written off d b) all whole
            (omega (arith, length-written off d b, fine, small))))
