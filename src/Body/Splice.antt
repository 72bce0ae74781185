-- ===== src/Body/Splice.antt =====
-- Writing a range of a body by cutting the chunks around it anew.
use origofs.Base.{
  ℕ, ◌+◌, ◌-◌, ◌/◌, ◌^◌, ◌≤◌, ◌<◌, ◌≡◌, ◌⊎◌, inl, inr, sym, ap, subst, ◌∙◌, max, true, List, [],
  ◌∷◌, ◌++◌, length, length-append, length-take, length-drop, length-replicate, replicate, take,
  drop, take_all, drop_all, take_split, take-take, drop-drop, drop-take, append-take-drop,
  take-append_at, leb, ltb, Bool-cases, append-nil, append_assoc, arith,
}
use origofs.Chunk.{ChunkRef, Manifest, total_len}
use origofs.Body.{BodyCalls, min_chunk, resized, copied, fits, span_of_write}
use origofs.Body.Edits.{splice_behind, splice_region, splice_body}
use origofs.Body.Reads.{
  Works, Extends-trans, Reads, Reads-Extends, Reads-append, Reads-length, Reads-take, Reads-drop,
  Holds, read_chunks-Reads,
}
use origofs.Body.Upload.{
  Saves, append_hole-Builds, append_chunked-Builds, seal-Saves, address_of-Saves,
}
use origofs.Body.Replace.{written, length-written}
use origofs.Body.Locate.{Covers, total_len-split, span_of_write-Covers}

-- The written bytes where there is no gap.
written-inside :
    (off : ℕ) (d b : List ℕ)
    → off ≤ length b
    → written off d b ≡ take off b ++ (d ++ drop (off + length d) b)
written-inside off d b h =
    let n : off - length b ≡ 0 = omega (arith, h) in
    ap (λ k. take off (b ++ replicate k 0) ++ (d ++ drop (off + length d) b)) n
    ∙ ap (λ z. take off z ++ (d ++ drop (off + length d) b)) (append-nil b)

-- A region of a body that is at least as long as the chunks it replaces.
abbrev padded : ℕ → ℕ → ℕ → List ℕ → List ℕ
padded t u end b = take (u - t) (drop t b) ++ replicate (max u end - u) 0

resized-padded :
    (t u end : ℕ) (b : List ℕ)
    → t ≤ u
    → u ≤ length b
    → resized (max u end - t) (take (u - t) (drop t b)) ≡ padded t u end b
resized-padded t u end b r v =
    let old : List ℕ = take (u - t) (drop t b) in
    let n : length old ≡ u - t =
      omega (arith, length-take (u - t) (drop t b), length-drop t b, r, v) in
    let k : max u end - t - length old ≡ max u end - u = omega (arith, n, r) in
    (λ i. take_all (max u end - t) old (omega (arith, n)) i ++ replicate (k i) 0)

padded-front :
    (off t u end : ℕ) (b : List ℕ)
    → t ≤ off
    → off ≤ u
    → u ≤ length b
    → take t b ++ take (off - t) (padded t u end b) ≡ take off b
padded-front off t u end b p q v =
    let old : List ℕ = take (u - t) (drop t b) in
    let z : List ℕ = replicate (max u end - u) 0 in
    let n : off - t - length old ≡ 0 =
      omega (arith, length-take (u - t) (drop t b), length-drop t b, p, q, v) in
    ap (λ x. take t b ++ x)
      (take-append_at (off - t) old z
        ∙ ap (λ k. take (off - t) old ++ take k z) n
        ∙ append-nil (take (off - t) old)
        ∙ take-take (off - t) (u - t) (drop t b) (omega (arith, p, q)))
    ∙ take_split t off b p

padded-back :
    (t u end : ℕ) (b : List ℕ)
    → t ≤ end
    → t ≤ u
    → u ≤ length b
    → (end ≤ u) ⊎ (u ≡ length b)
    → drop (end - t) (padded t u end b) ++ drop u b ≡ drop end b
padded-back t u end b p r v c = elim (Bool-cases (leb end u)) [
  | inl x ↦
      let h : end ≤ u = ground (arith, x) in
      let n : max u end - u ≡ 0 = omega (arith, h) in
      let k : u - t - (end - t) ≡ u - end = omega (arith, h, p) in
      let e : t + (end - t) ≡ end = omega (arith, p) in
      let w : u ≡ end + (u - end) = omega (arith, h) in
      (λ i. drop (end - t) (take (u - t) (drop t b) ++ replicate (n i) 0) ++ drop u b)
      ∙ (λ i. drop (end - t) (append-nil (take (u - t) (drop t b)) i) ++ drop u b)
      ∙ (λ i. drop-take (end - t) (u - t) (drop t b) i ++ drop u b)
      ∙ (λ i. take (k i) (drop-drop (end - t) t b i) ++ drop u b)
      ∙ (λ i. take (u - end) (drop (e i) b) ++ drop (w i) b)
      ∙ ap (λ z. take (u - end) (drop end b) ++ z) (sym (drop-drop (u - end) end b))
      ∙ append-take-drop (u - end) (drop end b)
  | inr x ↦
      let h : u < end = ground (arith, x) in
      let top : u ≡ length b = elim c [ inl y ↦ absurd (omega (arith, y, h)) | inr y ↦ y ] in
      let n = length-append (take (u - t) (drop t b)) (replicate (max u end - u) 0) in
      let small : length (padded t u end b) ≤ end - t = omega (
        arith,
        n,
        length-take (u - t) (drop t b),
        length-drop t b,
        length-replicate {A = ℕ} (max u end - u) 0,
        r,
        v,
      ) in
      (λ i. drop_all (end - t) (padded t u end b) small i ++ drop_all u b (omega (arith, top)) i)
      ∙ sym (drop_all end b (omega (arith, top, h)))
]

-- The region from `t` to `u`, with the written bytes copied over, between what stands before and
-- behind it: the range does not reach past `u`, or else the body ends there.
region_lem :
    (off t u : ℕ) (d b : List ℕ)
    → t ≤ off
    → off ≤ u
    → u ≤ length b
    → (off + length d ≤ u) ⊎ (u ≡ length b)
    → (take t b ++ copied (off - t) d (padded t u (off + length d) b)) ++ drop u b ≡ written off d b
region_lem off t u d b p q v c =
    let end : ℕ = off + length d in
    let reg : List ℕ = padded t u end b in
    let k : off - t + length d ≡ end - t = omega (arith, p) in
    let front : List ℕ = take (off - t) reg in
    let back : List ℕ = drop (end - t) reg in
    ap (λ n. (take t b ++ (front ++ (d ++ drop n reg))) ++ drop u b) k
    ∙ append_assoc (take t b) (front ++ (d ++ back)) (drop u b)
    ∙ ap (λ z. take t b ++ z) (append_assoc front (d ++ back) (drop u b))
    ∙ ap (λ z. take t b ++ (front ++ z)) (append_assoc d back (drop u b))
    ∙ sym (append_assoc (take t b) front (d ++ (back ++ drop u b)))
    ∙ (λ i.
        padded-front off t u end b p q v i
        ++ (d ++ padded-back t u end b (omega (arith, p)) (omega (arith, p, q)) v c i))
    ∙ sym (written-inside off d b (omega (arith, q, v)))

length-copied : (at : ℕ) (d b : List ℕ) → length (copied at d b) ≤ max (length b) (at + length d)
length-copied at d b = omega (
  arith,
  length-append (take at b) (d ++ drop (at + length d) b),
  length-append d (drop (at + length d) b),
  length-take at b,
  length-drop (at + length d) b,
)

length-padded :
    (t u end : ℕ) (b : List ℕ) → t ≤ u → u ≤ length b → length (padded t u end b) ≤ max u end - t
length-padded t u end b r v = omega (
  arith,
  length-append (take (u - t) (drop t b)) (replicate (max u end - u) 0),
  length-take (u - t) (drop t b),
  length-replicate {A = ℕ} (max u end - u) 0,
  r,
)

module _ {S : Type 0} (calls : BodyCalls S) (works : Works calls) where
  splice_behind-Saves :
      (s : S) (m : Manifest) (b : List ℕ) (off : ℕ) (d : List ℕ)
      → Holds calls s m b
      → m.size ≤ off
      → off + length d < 2 ^ 64
      → Saves calls s
          (splice_behind calls s m off d)
          (written off d b)
          (length m.chunks + (length (written off d b) / min_chunk + 2))
  unfolding splice_behind
  splice_behind-Saves s m b off d (r, e, small) h fine =
      let gap : List ℕ = b ++ replicate (off - length b) 0 in
      let (cs, t, e', r', ext, few) =
        append_hole-Builds calls works s m.chunks b (off - m.size) r in
      let rg : Reads calls t cs gap =
        subst (λ n. Reads calls t cs (b ++ replicate (off - n) 0)) e r' in
      let (ds, u, e'', r'', ext', few') = append_chunked-Builds calls works t cs gap d rg in
      let n : length gap ≡ off = omega (
        arith,
        length-append b (replicate (off - length b) 0),
        length-replicate {A = ℕ} (off - length b) 0,
        e,
        h,
      ) in
      let q : gap ++ d ≡ written off d b =
        (λ i. sym (take_all off gap (omega (arith, n))) i ++ sym (append-nil d) i)
        ∙ ap (λ z. take off gap ++ (d ++ z))
            (sym (drop_all (off + length d) b (omega (arith, e, h)))) in
      let k : off + length d ≡ length (written off d b) =
        omega (arith, length-written off d b, e, h) in
      rw e' (
        rw e'' (
          seal-Saves calls works s u (record { size = off + length d; chunks = ds })
            (written off d b) (length m.chunks + (length (written off d b) / min_chunk + 2))
            (Extends-trans calls s t u ext ext')
            (subst (Reads calls u ds) q r'', k, omega (arith, k, fine))
            (omega (arith, few, few', k, e, h))))

  splice_region-Saves :
      (s : S) (m : Manifest) (b : List ℕ) (off : ℕ) (d : List ℕ) (lo hi : ℕ)
      → Holds calls s m b
      → off ≤ m.size
      → off + length d < 2 ^ 64
      → Covers off (off + length d) m.chunks (lo, hi)
      → Saves calls s
          (splice_region calls s m off d (lo, hi))
          (written off d b)
          (length m.chunks + (length (written off d b) / min_chunk + 2))
  unfolding splice_region
  splice_region-Saves s m b off d lo hi (r, e, small) h fine (before, le, reach) =
      let t : ℕ = total_len (take lo m.chunks) in
      let u : ℕ = total_len (take hi m.chunks) in
      let end : ℕ = off + length d in
      let gone : List ChunkRef = take (hi - lo) (drop lo m.chunks) in
      let sum : t + total_len gone ≡ u = sym (total_len-split lo hi m.chunks le) in
      let rh = Reads-take calls s hi m.chunks b r in
      let v : u ≤ length b =
        omega (arith, Reads-length calls s (take hi m.chunks) (take u b) rh, length-take u b) in
      let c : (end ≤ u) ⊎ (u ≡ length b) = elim reach [
        | inl x ↦ inl x
        | inr x ↦
            let all : take hi m.chunks ≡ m.chunks = take_all hi m.chunks x in
            inr (ap total_len all ∙ Reads-length calls s m.chunks b r)
      ] in
      let q : off ≤ u = elim c [ inl x ↦ omega (arith, x) | inr x ↦ omega (arith, x, e, h) ] in
      let w : total_len gone ≡ u - t = omega (arith, sum) in
      let rg : Reads calls s gone (take (u - t) (drop t b)) =
        subst (λ n. Reads calls s gone (take n (drop t b))) w
          (Reads-take calls s (hi - lo) (drop lo m.chunks) (drop t b)
            (Reads-drop calls s lo m.chunks b r)) in
      let reg : List ℕ = copied (off - t) d (padded t u end b) in
      let (cs, s1, e', r', ext, few) =
        append_chunked-Builds calls works s (take lo m.chunks) (take t b) reg
          (Reads-take calls s lo m.chunks b r) in
      let done : Reads calls s1 (cs ++ drop hi m.chunks) (written off d b) =
        subst (Reads calls s1 (cs ++ drop hi m.chunks)) (region_lem off t u d b before q v c) (
          Reads-append calls s1 cs (drop hi m.chunks) (take t b ++ reg) (drop u b) r' (
            Reads-Extends calls s s1 (drop hi m.chunks) (drop u b) ext
              (Reads-drop calls s hi m.chunks b r))) in
      let n : max m.size end ≡ length (written off d b) =
        omega (arith, length-written off d b, e) in
      rw (sum, read_chunks-Reads calls s gone (take (u - t) (drop t b)) rg)
        (rw (resized-padded t u end b (omega (arith, before, q)) v) (
          rw e' (
            seal-Saves calls works s s1
              (record { size = max m.size end; chunks = cs ++ drop hi m.chunks }) (written off d b)
              (length m.chunks + (length (written off d b) / min_chunk + 2)) ext
              (done, n, omega (arith, n, e, small, fine))
              (omega (
                arith,
                few,
                le,
                n,
                before,
                q,
                h,
                e,
                length-append cs (drop hi m.chunks),
                length-take lo m.chunks,
                length-drop hi m.chunks,
                length-copied (off - t) d (padded t u end b),
                length-padded t u end b (omega (arith, before, q)) v,
              )))))

  -- With a content store and a cut that work as documented, a write of bytes (one at least) at `off`
  -- that ends below 2^64 gives the body in which they stand at `off`, a gap behind the old end filled
  -- with zeroes and every other byte as it was. It refuses only where the number of chunks of the old
  -- body, the length of the new one over 16 KiB and two come to 2^32 or more.
  pub splice_body-Saves :
      (s : S) (m : Manifest) (b : List ℕ) (off : ℕ) (x : ℕ) (d : List ℕ)
      → Holds calls s m b
      → off + length (x ∷ d) < 2 ^ 64
      → Saves calls s
          (splice_body calls s m off (x ∷ d))
          (written off (x ∷ d) b)
          (length m.chunks + (length (written off (x ∷ d) b) / min_chunk + 2))
  unfolding splice_body
  splice_body-Saves s m b off x d h fine =
      let ok : fits (off + length (x ∷ d)) ≡ true = ground (arith, fine) in
      rw ok (elim (Bool-cases (ltb m.size off)) [
        | inl t ↦ rw t (splice_behind-Saves s m b off (x ∷ d) h (ground (arith, t)) fine)
        | inr t ↦
            let span = span_of_write off (off + length (x ∷ d)) m.chunks in
            rw t (
              splice_region-Saves s m b off (x ∷ d) span.0 span.1 h (ground (arith, t)) fine
                (span_of_write-Covers off (off + length (x ∷ d)) m.chunks (omega arith)))
      ])

  pub splice_body_nothing :
      (s : S) (m : Manifest) (b : List ℕ) (off : ℕ)
      → Holds calls s m b
      → off < 2 ^ 64
      → Saves calls s (splice_body calls s m off []) b (length m.chunks)
  unfolding splice_body
  splice_body_nothing s m b off h fine =
      let ok : fits off ≡ true = ground (arith, fine) in
      rw ok (address_of-Saves calls works s m b h)
