-- ===== src/Body/Reads.antt =====
-- What the chunks of a body stand for: the bytes that a store holds for them, one after the other.
use origofs.Base.{
  ℕ, zero, suc, take_past, drop_past, ◌+◌, ◌/◌, ◌^◌, ◌≤◌, ◌<◌, ◌≡◌, refl, sym, ap, subst, ◌∙◌, List,
  [], ◌∷◌, ◌++◌, length, length-append, take, drop, All, ok, append_assoc, arith,
}
use origofs.ObjectGraph.{Hash}
use origofs.Chunk.{ChunkRef, Manifest, total_len}
use origofs.Chunk.RoundTrip.{IsChunk}
use origofs.Body.{BodyCalls, min_chunk, max_chunk, pieces, read_chunks}

unfoldable pub concat : List (List ℕ) → List ℕ
concat [] = []
concat (p ∷ ps) = p ++ concat ps

module _ {S : Type 0} (calls : BodyCalls S) where
  -- Whatever `s` holds, `t` holds.
  abbrev pub Extends : S → S → Type 0
  Extends s t = (h : Hash) (b : List ℕ) → calls.get s h ≡ ok b → calls.get t h ≡ ok b

  -- A chunk reference whose object is there and has its length.
  abbrev pub Piece : S → ChunkRef → List ℕ → Type 0
  Piece s c p = (calls.get s c.hash ≡ ok p) × (c.len ≡ length p) × IsChunk c

  abbrev pub Reads : S → List ChunkRef → List ℕ → Type 0
  Reads s [] b = b ≡ []
  Reads s (c ∷ cs) b =
      (p : List ℕ) × (rest : List ℕ) × Piece s c p × Reads s cs rest × (b ≡ p ++ rest)

  -- A manifest of these bytes.
  abbrev pub Holds : S → Manifest → List ℕ → Type 0
  Holds s m b = Reads s m.chunks b × (m.size ≡ length b) × (length b < 2 ^ 64)

  -- What is documented of a content store that works and of fastcdc: a `put` stores the bytes under
  -- an address of 32 bytes and loses nothing, a ranged read is a window of the object, `flush` loses
  -- nothing, and a cut covers the bytes by pieces that are no longer than the largest chunk and, but
  -- for the last, no shorter than the smallest.
  pub record Works : Type 0 where
    pub put_keeps :
        (s : S) (b : List ℕ)
        → (h : Hash) × (t : S) × (calls.put s b ≡ ok (h, t))
          × (calls.get t h ≡ ok b)
          × (length h ≡ 32)
          × Extends s t
    pub range_window :
        (s : S) (h : Hash) (b : List ℕ) (off n : ℕ)
        → calls.get s h ≡ ok b
        → calls.get_range s h off n ≡ ok (take n (drop off b))
    pub flush_keeps : (s : S) → (t : S) × (calls.flush s ≡ ok t) × Extends s t
    pub cut_covers : (b : List ℕ) → concat (pieces b (calls.chunk_bounds b)) ≡ b
    pub cut_fits : (b : List ℕ) → All (λ p. length p ≤ max_chunk) (pieces b (calls.chunk_bounds b))
    pub cut_few : (b : List ℕ) → length (pieces b (calls.chunk_bounds b)) ≤ length b / min_chunk + 1

  pub Extends-trans : (s t u : S) → Extends s t → Extends t u → Extends s u
  Extends-trans s t u e f h b g = f h b (e h b g)

  pub Reads-Extends :
      (s t : S) (cs : List ChunkRef) (b : List ℕ) → Extends s t → Reads s cs b → Reads t cs b
  Reads-Extends s t [] b e r = r
  Reads-Extends s t (c ∷ cs) b e (p, rest, (g, l, w), r, q) =
      (p, rest, (e c.hash p g, l, w), Reads-Extends s t cs rest e r, q)

  pub Reads-append :
      (s : S) (xs ys : List ChunkRef) (a b : List ℕ)
      → Reads s xs a
      → Reads s ys b
      → Reads s (xs ++ ys) (a ++ b)
  Reads-append s [] ys a b r r' = rw r r'
  Reads-append s (x ∷ xs) ys a b (p, rest, h, r, q) r' =
      (p, rest ++ b, h, Reads-append s xs ys rest b r r', rw q (append_assoc p rest b))

  pub Reads-length :
      (s : S) (cs : List ChunkRef) (b : List ℕ) → Reads s cs b → total_len cs ≡ length b
  unfolding total_len
  Reads-length s [] b r = rw r refl
  Reads-length s (c ∷ cs) b (p, rest, (g, l, w), r, q) =
      omega (arith, Reads-length s cs rest r, ap length q, length-append p rest, l)

  pub Reads-IsChunk : (s : S) (cs : List ChunkRef) (b : List ℕ) → Reads s cs b → All IsChunk cs
  Reads-IsChunk s [] b r = tt
  Reads-IsChunk s (c ∷ cs) b (p, rest, (g, l, w), r, q) = (w, Reads-IsChunk s cs rest r)

  -- The first chunks of a body hold its first bytes, and the others the rest.
  pub Reads-take :
      (s : S) (n : ℕ) (cs : List ChunkRef) (b : List ℕ)
      → Reads s cs b
      → Reads s (take n cs) (take (total_len (take n cs)) b)
  unfolding total_len
  Reads-take s zero cs b r = refl
  Reads-take s (suc n) [] b r = refl
  Reads-take s (suc n) (c ∷ cs) b (p, rest, (g, l, w), r, q) =
      let t = total_len (take n cs) in
      (
        p,
        take t rest,
        (g, l, w),
        Reads-take s n cs rest r,
        rw q (take_past (c.len + t) t p rest (omega (arith, l))),
      )

  pub Reads-drop :
      (s : S) (n : ℕ) (cs : List ChunkRef) (b : List ℕ)
      → Reads s cs b
      → Reads s (drop n cs) (drop (total_len (take n cs)) b)
  unfolding total_len
  Reads-drop s zero cs b r = r
  Reads-drop s (suc n) [] b r = rw r refl
  Reads-drop s (suc n) (c ∷ cs) b (p, rest, (g, l, w), r, q) =
      let t = total_len (take n cs) in
      let e : drop (c.len + t) b ≡ drop t rest =
        rw q (drop_past (c.len + t) t p rest (omega (arith, l))) in
      subst (Reads s (drop n cs)) (sym e) (Reads-drop s n cs rest r)

  pub read_chunks-Reads :
      (s : S) (cs : List ChunkRef) (b : List ℕ) → Reads s cs b → read_chunks calls s cs ≡ ok b
  unfolding read_chunks
  read_chunks-Reads s [] b r = rw r refl
  read_chunks-Reads s (c ∷ cs) b (p, rest, (g, l, w), r, q) =
      rw g (rw (read_chunks-Reads s cs rest r) (rw q refl))

  -- A list of chunks stands for one sequence of bytes.
  pub Reads-unique :
      (s : S) (cs : List ChunkRef) (a b : List ℕ) → Reads s cs a → Reads s cs b → a ≡ b
  Reads-unique s [] a b r r' = r ∙ sym r'
  Reads-unique s (c ∷ cs) a b (p, x, (g, _, _), r, q) (p', x', (g', _, _), r', q') =
      let e : p ≡ p' = cc in q ∙ (λ i. e i ++ Reads-unique s cs x x' r r' i) ∙ sym q'
