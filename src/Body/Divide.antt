-- ===== src/Body/Divide.antt =====
-- Splitting a list of chunks, and a range of it as a list of its own.
use origofs.Base.{
  ℕ, ◌+◌, ◌-◌, ◌^◌, ◌≤◌, ◌≡◌, inl, inr, refl, sym, ap, subst, ◌∙◌, min, List, [], ◌∷◌, ◌++◌, length,
  length-append, length-take, length-drop, take, drop, take_all, drop_all, take-append_at,
  drop-append_at, take-nil, drop-nil, take_eq, ok, leb, Bool-cases, append-nil, arith,
}
use origofs.Errors.{Outcome}
use origofs.Chunk.{ChunkRef, Manifest}
use origofs.Body.{BodyCalls}
use origofs.Body.Edits.{split_one, split_from, split_chunks_at, slice_chunks}
use origofs.Body.Reads.{
  Works, Extends, Extends-trans, Piece, Reads, Reads-Extends, Reads-append, Holds,
}
use origofs.Body.Upload.{Builds}

module _ {S : Type 0} (calls : BodyCalls S) where
  -- A step that gives chunks of these bytes on either side, at most `n` each, and loses nothing.
  abbrev pub Splits :
      S → Outcome ((List ChunkRef × List ChunkRef) × S) → List ℕ → List ℕ → ℕ → Type 0
  Splits s r a b n =
      (xs : List ChunkRef) × (ys : List ChunkRef) × (t : S) × (r ≡ ok ((xs, ys), t))
      × Reads calls t xs a
      × Reads calls t ys b
      × Extends calls s t
      × (length xs ≤ n)
      × (length ys ≤ n)

  Reads-one : (s : S) (c : ChunkRef) (p : List ℕ) → Piece calls s c p → Reads calls s (c ∷ []) p
  Reads-one s c p h = (p, [], h, refl, sym (append-nil p))

module _ {S : Type 0} (calls : BodyCalls S) (works : Works calls) where
  split_one-Splits :
      (s : S) (pos at : ℕ) (c : ChunkRef) (p : List ℕ)
      → Piece calls s c p
      → Splits calls s (split_one calls s pos at c) (take (at - pos) p) (drop (at - pos) p) 1
  unfolding split_one
  split_one-Splits s pos at c p (g, l, w) = elim (Bool-cases (leb (pos + c.len) at)) [
    | inl t ↦
        let n : length p ≤ at - pos = ground (arith, t, l) in
        (
          c ∷ [],
          [],
          s,
          rw t refl,
          subst (Reads calls s (c ∷ [])) (sym (take_all (at - pos) p n))
              (Reads-one calls s c p (g, l, w)),
          drop_all (at - pos) p n,
          λ k b f. f,
          omega arith,
          omega arith,
        )
    | inr t ↦ elim (Bool-cases (leb at pos)) [
      | inl u ↦
          let n : 0 ≡ at - pos = ground (arith, u) in
          (
            [],
            c ∷ [],
            s,
            rw t (rw u refl),
            ap (λ k. take k p) (sym n),
            subst (λ k. Reads calls s (c ∷ []) (drop k p)) n (Reads-one calls s c p (g, l, w)),
            λ k b f. f,
            omega arith,
            omega arith,
          )
      | inr u ↦
          let got : calls.get_range s c.hash 0 c.len ≡ ok p =
            works.range_window s c.hash p 0 c.len g ∙ ap ok (take_all c.len p (omega (arith, l))) in
          let head : ℕ = at - pos in
          let (h, s1, e, k, n, ext) = works.put_keeps s (take head p) in
          let (h', s2, e', k', n', ext') = works.put_keeps s1 (drop head p) in
          let inside : head ≤ length p = ground (arith, t, l) in
          (
            record { hash = h; len = head } ∷ [],
            record { hash = h'; len = c.len - head } ∷ [],
            s2,
            rw t (rw u (rw got (rw e (rw e' refl)))),
            Reads-one calls s2 (record { hash = h; len = head }) (take head p)
                (
                  ext' h (take head p) k,
                  omega (arith, length-take head p, inside),
                  record { hash_len = n; len_fits = omega (arith, inside, l, w.len_fits) },
                ),
            Reads-one calls s2 (record { hash = h'; len = c.len - head }) (drop head p)
                (
                  k',
                  omega (arith, length-drop head p, l),
                  record { hash_len = n'; len_fits = omega (arith, l, w.len_fits) },
                ),
            Extends-trans calls s s1 s2 ext ext',
            omega arith,
            omega arith,
          )
    ]
  ]

  split_from-Splits :
      (s : S) (pos at : ℕ) (cs : List ChunkRef) (b : List ℕ)
      → Reads calls s cs b
      → Splits calls s
          (split_from calls s pos at cs)
          (take (at - pos) b)
          (drop (at - pos) b)
          (length cs)
  unfolding split_from
  split_from-Splits s pos at [] b r = (
    [],
    [],
    s,
    refl,
    rw r (take-nil (at - pos)),
    rw r (drop-nil (at - pos)),
    λ k p g. g,
    omega arith,
    omega arith,
  )
  split_from-Splits s pos at (c ∷ cs) b (p, rest, (g, l, w), r, q) =
      let (xs, ys, t, e, ra, rb, ext, lx, ly) = split_one-Splits s pos at c p (g, l, w) in
      let (xs', ys', u, e', ra', rb', ext', lx', ly') =
        split_from-Splits t (pos + c.len) at cs rest (Reads-Extends calls s t cs rest ext r) in
      let n : at - (pos + c.len) ≡ at - pos - length p = omega (arith, l) in
      let before : Reads calls u (xs ++ xs') (take (at - pos) b) =
        subst (Reads calls u (xs ++ xs'))
          (ap (λ k. take (at - pos) p ++ take k rest) n
            ∙ sym (rw q (take-append_at (at - pos) p rest)))
          (Reads-append calls u xs xs' (take (at - pos) p) (take (at - (pos + c.len)) rest)
            (Reads-Extends calls t u xs (take (at - pos) p) ext' ra) ra') in
      let after : Reads calls u (ys ++ ys') (drop (at - pos) b) =
        subst (Reads calls u (ys ++ ys'))
          (ap (λ k. drop (at - pos) p ++ drop k rest) n
            ∙ sym (rw q (drop-append_at (at - pos) p rest)))
          (Reads-append calls u ys ys' (drop (at - pos) p) (drop (at - (pos + c.len)) rest)
            (Reads-Extends calls t u ys (drop (at - pos) p) ext' rb) rb') in
      (
        xs ++ xs',
        ys ++ ys',
        u,
        rw e (rw e' refl),
        before,
        after,
        Extends-trans calls s t u ext ext',
        omega (arith, length-append xs xs', lx, lx'),
        omega (arith, length-append ys ys', ly, ly'),
      )

  pub split_chunks_at-Splits :
      (s : S) (cs : List ChunkRef) (at : ℕ) (b : List ℕ)
      → Reads calls s cs b
      → Splits calls s (split_chunks_at calls s cs at) (take at b) (drop at b) (length cs)
  unfolding split_chunks_at
  split_chunks_at-Splits s cs at b r =
      let e : at - 0 ≡ at = omega arith in
      subst (λ k. Splits calls s (split_from calls s 0 at cs) (take k b) (drop k b) (length cs)) e
        (split_from-Splits s 0 at cs b r)

  pub slice_chunks-Builds :
      (s : S) (m : Manifest) (b : List ℕ) (off len : ℕ)
      → Holds calls s m b
      → Builds calls s (slice_chunks calls s m off len) (take len (drop off b)) (length m.chunks)
  unfolding slice_chunks
  slice_chunks-Builds s m b off len (r, size, small) =
      let n = length-drop off b in
      let end : ℕ = min (min (off + len) (2 ^ 64 - 1)) m.size in
      elim (Bool-cases (leb end off)) [
        | inl t ↦ (
          [],
          s,
          rw t refl,
          take_eq len 0 (drop off b) (ground (arith, t, n, size, small)),
          λ k p g. g,
          omega arith,
        )
        | inr t ↦
            let (xs, ys, t1, e, ra, rb, ext, _, ly) = split_chunks_at-Splits s m.chunks off b r in
            let (zs, ws, u, e', ra', rb', ext', lz, _) =
              split_chunks_at-Splits t1 ys (end - off) (drop off b) rb in
            let q : min (end - off) (length (drop off b)) ≡ min len (length (drop off b)) =
              ground (arith, t, n, size, small) in
            (
              zs,
              u,
              rw t (rw e (rw e' refl)),
              subst (Reads calls u zs) (take_eq (end - off) len (drop off b) q) ra',
              Extends-trans calls s t1 u ext ext',
              omega (arith, ly, lz),
            )
      ]
