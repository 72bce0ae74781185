-- ===== src/Body/Upload.antt =====
-- What storing bytes, zeroes and manifests gives.
use origofs.Base.{
  ℕ, zero, suc, ◌+◌, ◌*◌, ◌/◌, ◌%◌, ◌^◌, ◌≤◌, ◌<◌, ◌≡◌, ◌⊎◌, inl, inr, refl, sym, ap, subst, ◌∙◌,
  min, List, [], ◌∷◌, ◌++◌, Option, none, some, length, length-append, length-replicate, replicate,
  replicate-add, All, ok, err, ltb, ◌==◌, Bool-cases, Result-cases, arith,
}
use origofs.Errors.{Outcome, too_large}
use origofs.ObjectGraph.{Hash}
use origofs.Chunk.{ChunkRef, Manifest, encode_manifest}
use origofs.Chunk.RoundTrip.{IsManifest, decode_manifest-encode_manifest}
use origofs.Body.{
  BodyCalls, min_chunk, max_chunk, hole_chunk, pieces, load_manifest, content_bytes, put_piece,
  put_pieces, append_chunked, zero_run, append_hole, seal, address_of, store_body,
}
use origofs.Body.Reads.{
  concat, Works, Extends, Extends-trans, Piece, Reads, Reads-Extends, Reads-append, Reads-length,
  Reads-IsChunk, Holds, read_chunks-Reads,
}

module _ {S : Type 0} (calls : BodyCalls S) where
  -- A step that gives at most `n` chunks, of these bytes, and loses nothing that `s` holds.
  abbrev pub Builds : S → Outcome (List ChunkRef × S) → List ℕ → ℕ → Type 0
  Builds s r b n =
      (cs : List ChunkRef) × (t : S) × (r ≡ ok (cs, t))
      × Reads calls t cs b
      × Extends calls s t
      × (length cs ≤ n)

  -- An address from which the bytes can be loaded.
  abbrev pub Stored : S → Option Hash → List ℕ → Type 0
  Stored t none b = b ≡ []
  Stored t (some h) b = (m : Manifest) × (load_manifest calls t h ≡ ok m) × Holds calls t m b

  -- A step that gives an address of these bytes and their number, or refuses, which it does
  -- only where `n`, a bound on the number of chunks, is 2^32 or more.
  abbrev pub Saves : S → Outcome ((Option Hash × ℕ) × S) → List ℕ → ℕ → Type 0
  Saves s r b n =
      ((r ≡ err too_large) × (2 ^ 32 ≤ n))
      ⊎ ((a : Option Hash) × (t : S) × (r ≡ ok ((a, length b), t))
          × Stored t a b
          × Extends calls s t)

encode_manifest-cases :
    (m : Manifest)
    → ((encode_manifest m ≡ err too_large) × (2 ^ 32 ≤ length m.chunks))
      ⊎ ((bytes : List ℕ) × (encode_manifest m ≡ ok bytes))
unfolding encode_manifest
encode_manifest-cases m = elim (Bool-cases (ltb (length m.chunks) (2 ^ 32))) [
  | inl e ↦ elim (Result-cases (encode_manifest m)) [
    | inl (why, f) ↦ absurd (ground (arith, e, f))
    | inr (bytes, f) ↦ inr (bytes, f)
  ]
  | inr e ↦ inl (rw e refl, ground (arith, e))
]

List-cases : {A : Type 0} (xs : List A) → (xs ≡ []) ⊎ ((y : A) × (ys : List A) × (xs ≡ y ∷ ys))
List-cases [] = inl refl
List-cases (x ∷ xs) = inr (x, xs, refl)

hole_fits : hole_chunk ≤ max_chunk
unfolding hole_chunk
hole_fits = omega arith

hole_split : (len : ℕ) → (len / hole_chunk) * hole_chunk + len % hole_chunk ≡ len
unfolding hole_chunk
hole_split len = omega arith

whole_few : (len : ℕ) → len / hole_chunk ≤ len / min_chunk
unfolding hole_chunk
whole_few len = omega arith

rest_fits : (len : ℕ) → len % hole_chunk ≤ max_chunk
unfolding hole_chunk
rest_fits len = omega arith

rest_once : (r : ℕ) → min r 1 * r ≡ r
rest_once zero = omega arith
rest_once (suc r) = let e : min (suc r) 1 ≡ 1 = omega arith in ap (λ k. k * suc r) e ∙ omega arith

module _ {S : Type 0} (calls : BodyCalls S) (works : Works calls) where
  put_pieces-Builds :
      (s : S) (ps : List (List ℕ))
      → All (λ p. length p ≤ max_chunk) ps
      → Builds calls s (put_pieces calls s ps) (concat ps) (length ps)
  unfolding put_pieces put_piece concat
  put_pieces-Builds s [] h = ([], s, refl, refl, λ k b g. g, omega arith)
  put_pieces-Builds s (p ∷ ps) (h, hs) =
      let (k, t, e, got, n, ext) = works.put_keeps s p in
      let (cs, u, e', r, ext', few) = put_pieces-Builds t ps hs in
      let small : length p % 2 ^ 32 ≡ length p = omega (arith, h) in
      (
        record { hash = k; len = length p % 2 ^ 32 } ∷ cs,
        u,
        rw e (rw e' refl),
        (
          p,
          concat ps,
          (ext' k p got, small, record { hash_len = n; len_fits = omega arith }),
          r,
          refl,
        ),
        Extends-trans calls s t u ext ext',
        omega (arith, few),
      )

  pub append_chunked-Builds :
      (s : S) (chunks : List ChunkRef) (a b : List ℕ)
      → Reads calls s chunks a
      → Builds calls s
          (append_chunked calls s chunks b)
          (a ++ b)
          (length chunks + (length b / min_chunk + 1))
  unfolding append_chunked
  append_chunked-Builds s chunks a b r =
      let ps = pieces b (calls.chunk_bounds b) in
      let (cs, t, e, r', ext, few) = put_pieces-Builds s ps (works.cut_fits b) in
      let whole : Reads calls t cs b = subst (Reads calls t cs) (works.cut_covers b) r' in
      (
        chunks ++ cs,
        t,
        rw e refl,
        Reads-append calls t chunks cs a b (Reads-Extends calls s t chunks a ext r) whole,
        ext,
        omega (arith, length-append chunks cs, few, works.cut_few b),
      )

  Reads-replicate :
      (t : S) (c : ChunkRef) (p : ℕ) (n : ℕ)
      → Piece calls t c (replicate p 0)
      → Reads calls t (replicate n c) (replicate (n * p) 0)
  Reads-replicate t c p zero h = let e : zero * p ≡ 0 = omega arith in ap (λ k. replicate k 0) e
  Reads-replicate t c p (suc n) h =
      let e : suc n * p ≡ p + n * p = omega arith in
      (
        replicate p 0,
        replicate (n * p) 0,
        h,
        Reads-replicate t c p n h,
        ap (λ k. replicate k 0) e ∙ replicate-add p (n * p) 0,
      )

  zero_run-Builds :
      (s : S) (n len : ℕ)
      → len ≤ max_chunk
      → Builds calls s (zero_run calls s n len) (replicate (n * len) 0) n
  unfolding zero_run
  zero_run-Builds s n len h = elim (Bool-cases (n == 0)) [
    | inl z ↦
        let q : n * len ≡ 0 = let w : n ≡ 0 = ground (arith, z) in rw w (omega arith) in
        ([], s, rw z refl, ap (λ k. replicate k 0) q, λ k b g. g, omega arith)
    | inr z ↦
        let (k, t, e, got, m, ext) = works.put_keeps s (replicate len 0) in
        let c : ChunkRef = record { hash = k; len = len } in
        (
          replicate n c,
          t,
          rw z (rw e refl),
          Reads-replicate t c len n (
            got,
            sym (length-replicate len 0),
            record { hash_len = m; len_fits = omega (arith, h) },
          ),
          ext,
          omega (arith, length-replicate n c),
        )
  ]

  pub append_hole-Builds :
      (s : S) (chunks : List ChunkRef) (a : List ℕ) (len : ℕ)
      → Reads calls s chunks a
      → Builds calls s
          (append_hole calls s chunks len)
          (a ++ replicate len 0)
          (length chunks + (len / min_chunk + 1))
  unfolding append_hole
  append_hole-Builds s chunks a len r =
      let full : ℕ = len / hole_chunk in
      let rest : ℕ = len % hole_chunk in
      let (cs, t, e, ra, ext, few) = zero_run-Builds s full hole_chunk hole_fits in
      let (ds, u, f, rb, ext', few') = zero_run-Builds t (min rest 1) rest (rest_fits len) in
      let n : full * hole_chunk + min rest 1 * rest ≡ len =
        omega (arith, rest_once rest, hole_split len) in
      let zeros : Reads calls u (cs ++ ds) (replicate len 0) =
        subst (Reads calls u (cs ++ ds))
          (sym (replicate-add (full * hole_chunk) (min rest 1 * rest) 0)
            ∙ ap (λ k. replicate k 0) n)
          (Reads-append calls u cs ds (replicate (full * hole_chunk) 0)
            (replicate (min rest 1 * rest) 0)
            (Reads-Extends calls t u cs (replicate (full * hole_chunk) 0) ext' ra) rb) in
      let all = Extends-trans calls s t u ext ext' in
      (
        chunks ++ (cs ++ ds),
        u,
        rw e (rw f refl),
        Reads-append calls u chunks (cs ++ ds) a (replicate len 0)
            (Reads-Extends calls s u chunks a all r) zeros,
        all,
        omega
            (arith, length-append chunks (cs ++ ds), length-append cs ds, few, few', whole_few len),
      )

  pub seal-Saves :
      (s₀ s : S) (m : Manifest) (b : List ℕ) (k : ℕ)
      → Extends calls s₀ s
      → Holds calls s m b
      → length m.chunks ≤ k
      → Saves calls s₀ (seal calls s m) b k
  unfolding seal load_manifest
  seal-Saves s₀ s m b k ext₀ (r, size, small) few = elim (encode_manifest-cases m) [
    | inl (e, n) ↦ inl (rw e refl, omega (arith, n, few))
    | inr (bytes, e) ↦
        let (h, t, e', got, n, ext) = works.put_keeps s bytes in
        let (u, e'', ext') = works.flush_keeps t in
        let all = Extends-trans calls s t u ext ext' in
        let fine : IsManifest m = record {
          size_fits = omega (arith, size, small);
          covers = Reads-length calls s m.chunks b r ∙ sym size;
          each = Reads-IsChunk calls s m.chunks b r;
        } in
        let load : load_manifest calls u h ≡ ok m =
          rw (ext' h bytes got) (decode_manifest-encode_manifest m bytes fine e) in
        inr (
          some h,
          u,
          rw e (rw e' (rw e'' (rw size refl))),
          (m, load, (Reads-Extends calls s u m.chunks b all r, size, small)),
          Extends-trans calls s₀ s u ext₀ all,
        )
  ]

  pub address_of-Saves :
      (s : S) (m : Manifest) (b : List ℕ)
      → Holds calls s m b
      → Saves calls s (address_of calls s m) b (length m.chunks)
  unfolding address_of
  address_of-Saves s m b (r, size, small) = elim (List-cases m.chunks) [
    | inl e ↦
        let z : Reads calls s [] b = subst (λ cs. Reads calls s cs b) e r in
        inr (none, s, rw e (rw size refl), z, λ k p g. g)
    | inr (c, cs, e) ↦
        let q : address_of calls s m ≡ seal calls s m = rw e refl in
        subst (λ x. Saves calls s x b (length m.chunks)) (sym q)
          (seal-Saves s s m b (length m.chunks) (λ k p g. g) (r, size, small) (omega arith))
  ]

  pub Saves-after :
      (s t : S) (r : Outcome ((Option Hash × ℕ) × S)) (b : List ℕ) (n k : ℕ)
      → Extends calls s t
      → n ≤ k
      → Saves calls t r b n
      → Saves calls s r b k
  Saves-after s t r b n k e le (inl (h, l)) = inl (h, omega (arith, l, le))
  Saves-after s t r b n k e le (inr (a, u, q, st, ext)) =
      inr (a, u, q, st, Extends-trans calls s t u e ext)

  -- With a content store and a cut that work as documented, the bytes (fewer than 2^64) that
  -- `store_body` is given can be loaded from the address that it answers with, and what the store
  -- held before is still there; it refuses only where the length over 16 KiB, plus one, reaches 2^32.
  pub store_body-Saves :
      (s : S) (b : List ℕ)
      → length b < 2 ^ 64
      → Saves calls s (store_body calls s b) b (length b / min_chunk + 1)
  unfolding store_body
  store_body-Saves s [] n = inr (none, s, refl, refl, λ k p g. g)
  store_body-Saves s (x ∷ b) n =
      let (cs, t, e, r, ext, few) = append_chunked-Builds s [] [] (x ∷ b) refl in
      rw e (
        seal-Saves s t (record { size = length (x ∷ b); chunks = cs }) (x ∷ b)
          (length (x ∷ b) / min_chunk + 1) ext (r, refl, n) (omega (arith, few)))

  -- A stored body reads back whole.
  pub content_bytes-Stored :
      (s : S) (h : Hash) (b : List ℕ) → Stored calls s (some h) b → content_bytes calls s h ≡ ok b
  unfolding content_bytes
  content_bytes-Stored s h b (m, e, (r, n, small)) = rw e (read_chunks-Reads calls s m.chunks b r)
