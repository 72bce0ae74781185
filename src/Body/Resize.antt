-- ===== src/Body/Resize.antt =====
-- Giving a body another size.
use origofs.Base.{
  ℕ, ◌+◌, ◌-◌, ◌/◌, ◌^◌, ◌≤◌, ◌<◌, ◌≡◌, inl, inr, refl, sym, ap, subst, ◌∙◌, List, [], ◌∷◌, ◌++◌,
  Option, none, some, length, length-append, length-take, length-replicate, replicate, take,
  take_all, take-append_at, take_past, take-nil, ok, leb, ltb, ◌==◌, Bool-cases, append_assoc,
  append-nil, arith,
}
use origofs.Chunk.{ChunkRef, Manifest}
use origofs.Body.{BodyCalls, min_chunk, address_of, keep_from, resized}
use origofs.Body.Edits.{rechunk, grow_body, shrink_body, resize_body}
use origofs.Body.Reads.{Works, Piece, Reads, Holds}
use origofs.Body.Upload.{
  Builds, Saves, Saves-after, append_chunked-Builds, append_hole-Builds, seal-Saves,
  address_of-Saves,
}

pub length-resized : (size : ℕ) (b : List ℕ) → length (resized size b) ≡ size
length-resized size b = omega (
  arith,
  length-append (take size b) (replicate (size - length b) 0),
  length-take size b,
  length-replicate {A = ℕ} (size - length b) 0,
)

module _ {S : Type 0} (calls : BodyCalls S) (works : Works calls) where
  abbrev Straddles : S → ℕ → Option (ChunkRef × ℕ) → List ℕ → Type 0
  Straddles s size none rest = rest ≡ []
  Straddles s size (some (c, cs)) rest =
      (p : List ℕ) × Piece calls s c p × (rest ≡ take (size - cs) p)

  abbrev Keeps : S → ℕ → List ℕ → List ChunkRef × Option (ChunkRef × ℕ) → Type 0
  Keeps s size b (kept, straddler) =
      (a : List ℕ) × (rest : List ℕ) × Reads calls s kept a
      × Straddles s size straddler rest
      × (b ≡ a ++ rest)
      × (length rest ≤ size)

  keep_from-Keeps :
      (s : S) (pos size : ℕ) (cs : List ChunkRef) (b : List ℕ)
      → Reads calls s cs b
      → pos ≤ size
      → Keeps s size (take (size - pos) b) (keep_from pos size cs)
        × (length (keep_from pos size cs).0 ≤ length cs)
  unfolding keep_from
  keep_from-Keeps s pos size [] b r h =
      (([], [], refl, refl, rw r (take-nil (size - pos)), omega arith), omega arith)
  keep_from-Keeps s pos size (c ∷ cs) b (p, rest, (g, l, w), r, q) h =
      elim (Bool-cases (leb (pos + c.len) size)) [
        | inl t ↦
            let k : pos + c.len ≤ size = ground (arith, t) in
            let ((a, tail, ra, st, e, short), few) =
              keep_from-Keeps s (pos + c.len) size cs rest r k in
            rw t (
              (
                p ++ a,
                tail,
                (p, a, (g, l, w), ra, refl),
                st,
                rw q (take_past (size - pos) (size - (pos + c.len)) p rest (omega (arith, l, k)))
                    ∙ ap (λ z. p ++ z) e
                    ∙ sym (append_assoc p a tail),
                short,
              ),
              omega (arith, few),
            )
        | inr t ↦ elim (Bool-cases (ltb pos size)) [
          | inl u ↦
              let n : size - pos - length p ≡ 0 = ground (arith, t, l) in
              rw t (
                rw u (
                  (
                    [],
                    take (size - pos) p,
                    refl,
                    (p, (g, l, w), refl),
                    rw q (take-append_at (size - pos) p rest)
                        ∙ ap (λ k. take (size - pos) p ++ take k rest) n
                        ∙ append-nil (take (size - pos) p),
                    omega (arith, length-take (size - pos) p),
                  ),
                  omega arith,
                ))
          | inr u ↦
              let n : size - pos ≡ 0 = ground (arith, u) in
              rw t (rw u (([], [], refl, refl, ap (λ k. take k b) n, omega arith), omega arith))
        ]
      ]

  rechunk-Builds :
      (s : S) (size : ℕ) (kept : List ChunkRef) (st : Option (ChunkRef × ℕ)) (a rest : List ℕ)
      → Reads calls s kept a
      → Straddles s size st rest
      → length rest ≤ size
      → Builds calls s
          (rechunk calls s size kept st)
          (a ++ rest)
          (length kept + (size / min_chunk + 1))
  unfolding rechunk
  rechunk-Builds s size kept none a rest r z short = (
    kept,
    s,
    refl,
    subst (Reads calls s kept) (sym (rw z (append-nil a))) r,
    λ k p g. g,
    omega arith,
  )
  rechunk-Builds s size kept (some (c, cs)) a rest r (p, (g, l, w), q) short =
      let (ds, t, e, r', ext, few) =
        append_chunked-Builds calls works s kept a (take (size - cs) p) r in
      rw (works.range_window s c.hash p 0 (size - cs) g)
        (ds, t, e, rw q r', ext, omega (arith, few, short, ap length q))

  grow_body-Saves :
      (s : S) (m : Manifest) (b : List ℕ) (size : ℕ)
      → Holds calls s m b
      → m.size ≤ size
      → size < 2 ^ 64
      → Saves calls s
          (grow_body calls s m size)
          (resized size b)
          (length m.chunks + (size / min_chunk + 1))
  unfolding grow_body
  grow_body-Saves s m b size (r, e, small) h fine =
      let (cs, t, e', r', ext, few) =
        append_hole-Builds calls works s m.chunks b (size - m.size) r in
      let q : b ++ replicate (size - m.size) 0 ≡ resized size b =
        (λ i. sym (take_all size b (omega (arith, e, h))) i ++ replicate (size - e i) 0) in
      let n = length-resized size b in
      rw e' (
        seal-Saves calls works s t (record { size = size; chunks = cs }) (resized size b)
          (length m.chunks + (size / min_chunk + 1)) ext
          (subst (Reads calls t cs) q r', sym n, omega (arith, n, fine)) (omega (arith, few)))

  shrink_body-Saves :
      (s : S) (m : Manifest) (b : List ℕ) (size : ℕ)
      → Holds calls s m b
      → size ≤ m.size
      → Saves calls s
          (shrink_body calls s m size)
          (take size b)
          (length m.chunks + (size / min_chunk + 1))
  unfolding shrink_body
  shrink_body-Saves s m b size (r, e, small) h =
      let z : size - 0 ≡ size = omega arith in
      let ((a, rest, ra, st, q, short), kept_few) =
        keep_from-Keeps s 0 size m.chunks b r (omega arith) in
      let kept = keep_from 0 size m.chunks in
      let (cs, t, e', r', ext, few) = rechunk-Builds s size kept.0 kept.1 a rest ra st short in
      let q' : a ++ rest ≡ take size b = sym q ∙ ap (λ k. take k b) z in
      let n : length (take size b) ≡ size = omega (arith, length-take size b, e, h) in
      rw e' (
        seal-Saves calls works s t (record { size = size; chunks = cs }) (take size b)
          (length m.chunks + (size / min_chunk + 1)) ext
          (subst (Reads calls t cs) q' r', sym n, omega (arith, n, e, h, small))
          (omega (arith, few, kept_few)))

  -- With a content store and a cut that work as documented, and below 2^64 bytes, `resize_body` gives
  -- a body of `size` bytes: the first bytes of the old one, filled up with zeroes where it was
  -- shorter. It refuses only where the number of chunks of the old body, `size` over 16 KiB and one
  -- come to 2^32 or more.
  pub resize_body-Saves :
      (s : S) (m : Manifest) (b : List ℕ) (size : ℕ)
      → Holds calls s m b
      → size < 2 ^ 64
      → Saves calls s
          (resize_body calls s m size)
          (resized size b)
          (length m.chunks + (size / min_chunk + 1))
  unfolding resize_body
  resize_body-Saves s m b size (r, e, small) fine =
      let k₀ : ℕ = length m.chunks + (size / min_chunk + 1) in
      elim (Bool-cases (size == m.size)) [
        | inl t ↦
            let k : size ≡ length b = ground (arith, t, e) in
            let z : size - length b ≡ 0 = omega (arith, k) in
            let q : b ≡ resized size b =
              sym (append-nil b)
              ∙ (λ i. sym (take_all size b (omega (arith, k))) i ++ replicate (sym z i) 0) in
            rw t (
              subst (λ z. Saves calls s (address_of calls s m) z k₀) q
                (Saves-after calls works s s (address_of calls s m) b (length m.chunks) k₀
                  (λ k p g. g) (omega arith) (address_of-Saves calls works s m b (r, e, small))))
        | inr t ↦ elim (Bool-cases (size == 0)) [
          | inl u ↦
              let k : 0 ≡ size = ground (arith, u) in
              let z : 0 - length b ≡ 0 = omega arith in
              rw t (
                rw u (
                  subst (λ n. Saves calls s (ok ((none, 0), s)) (resized n b) k₀) k
                    (subst (λ n. Saves calls s (ok ((none, 0), s)) (replicate n 0) k₀) (sym z)
                      (inr (none, s, refl, refl, λ k p g. g)))))
          | inr u ↦ elim (Bool-cases (ltb m.size size)) [
            | inl v ↦
                rw t
                  (rw u (rw v (grow_body-Saves s m b size (r, e, small) (ground (arith, v)) fine)))
            | inr v ↦
                let le : size ≤ m.size = ground (arith, v) in
                let z : size - length b ≡ 0 = omega (arith, e, le) in
                let q : take size b ≡ resized size b =
                  sym (append-nil (take size b)) ∙ ap (λ n. take size b ++ replicate n 0) (sym z) in
                rw t (
                  rw u (
                    rw v (
                      subst (λ z. Saves calls s (shrink_body calls s m size) z k₀) q
                        (shrink_body-Saves s m b size (r, e, small) le))))
          ]
        ]
      ]
