-- ===== src/Vfs/Plans.antt =====
-- What the edits of the operations make of the bytes of a file.
use origofs.Base.{
  ℕ, ◌+◌, ◌-◌, ◌^◌, ◌≤◌, ◌<◌, ◌≡◌, inl, inr, refl, ap, subst, ◌∙◌, true, false, ◌*◌, ◌/◌, Option,
  min, max, List, [], ◌∷◌, ◌++◌, some, length, replicate, length-replicate, take_all, append-nil,
  if◌then◌else◌, leb, ok, Bool-cases, arith,
}
use origofs.Errors.{Outcome}
use origofs.ObjectGraph.{Hash}
use origofs.Chunk.{Manifest}
use origofs.Body.{min_chunk, fits, resized, zero_chunks}
use origofs.Body.Edits.{splice_body, resize_body, replace_range}
use origofs.Body.Reads.{Works, Reads-Extends, Holds}
use origofs.Body.Upload.{Saves, Saves-after, append_hole-Builds}
use origofs.Body.Resize.{resize_body-Saves, length-resized}
use origofs.Body.Replace.{written, length-written, replace_range-Saves}
use origofs.Body.Splice.{splice_body-Saves}
use origofs.Vfs.{
  VfsCalls, AllocateMode, allocate, keep_size, punch_hole, zero_range, write_plan, allocate_plan,
  zero_edit, allocate_edit,
}
use origofs.Vfs.Attempts.{chunk_limit, Edits}

-- The bytes with zeroes from `off` to `stop`.
abbrev pub zeroed : ℕ → ℕ → List ℕ → List ℕ
zeroed off stop b = if leb stop off then b else written off (replicate (stop - off) 0) b

-- What `allocate` makes of the bytes up to `end`.
abbrev pub allocated : AllocateMode → ℕ → ℕ → List ℕ → List ℕ
allocated keep_size off end b = b
allocated allocate off end b = resized (max (length b) end) b
allocated punch_hole off end b = zeroed off (min end (length b)) b
allocated zero_range off end b = zeroed off end b

length-zeroed :
    (off stop : ℕ) (b : List ℕ)
    → leb stop off ≡ false
    → length (zeroed off stop b) ≡ max (length b) stop
length-zeroed off stop b e =
    let zeros : List ℕ = replicate (stop - off) 0 in
    let n = length-written off zeros b in
    let k = length-replicate {A = ℕ} (stop - off) 0 in
    let small : off < stop = ground (arith, e) in rw e (omega (arith, n, k, small))

length-zeroed_fits :
    (off stop : ℕ) (b : List ℕ)
    → length b < 2 ^ 64
    → stop < 2 ^ 64
    → length (zeroed off stop b) < 2 ^ 64
length-zeroed_fits off stop b h fine = elim (Bool-cases (leb stop off)) [
  | inl e ↦ rw e h
  | inr e ↦
      let zeros : List ℕ = replicate (stop - off) 0 in
      let n = length-written off zeros b in
      let k = length-replicate {A = ℕ} (stop - off) 0 in
      let small : off < stop = ground (arith, e) in rw e (omega (arith, n, k, small, h, fine))
]

module _ {S : Type 0} (calls : VfsCalls S) (works : Works calls.body) where
  -- A wider bound on the number of chunks.
  wider :
      (s : S) (r : Outcome ((Option Hash × ℕ) × S)) (b : List ℕ) (n k : ℕ)
      → n ≤ k
      → Saves calls.body s r b n
      → Saves calls.body s r b k
  wider s r b n k le h = Saves-after calls.body works s s r b n k (λ z p g. g) le h

  pub write-Edits :
      (off x : ℕ) (d : List ℕ)
      → off + length (x ∷ d) < 2 ^ 64
      → Edits calls
          (write_plan off (x ∷ d))
          (λ (s : S) (m : Manifest). splice_body calls.body s m off (x ∷ d))
          (written off (x ∷ d))
  unfolding write_plan
  write-Edits off x d fine =
      let g : fits (off + length (x ∷ d)) ≡ true = ground (arith, fine) in
      record {
        saves = λ s m b n h e.
            wider s (splice_body calls.body s m off (x ∷ d)) (written off (x ∷ d) b)
              (length m.chunks + (length (written off (x ∷ d) b) / min_chunk + 2))
              (chunk_limit calls m (written off (x ∷ d) b)) (omega arith)
              (splice_body-Saves calls.body works s m b off x d h fine);
        asks = λ m b n q e.
            let k : max m.size (off + length (x ∷ d)) ≡ n = ground (arith, g, e) in
            omega (arith, k, q, length-written off (x ∷ d) b);
        fits_still = λ b h. omega (arith, length-written off (x ∷ d) b, h, fine);
        nothing = λ m b h e. absurd (ground (arith, g, e));
        planned = λ m. inr (max m.size (off + length (x ∷ d)), rw g refl);
      }

  pub truncate-Edits :
      (size : ℕ)
      → size < 2 ^ 64
      → Edits calls
          (λ base. ok (some size))
          (λ (s : S) (m : Manifest). resize_body calls.body s m size)
          (resized size)
  truncate-Edits size fine = record {
    saves = λ s m b n h e.
        wider s (resize_body calls.body s m size) (resized size b)
          (length m.chunks + (size / min_chunk + 1)) (chunk_limit calls m (resized size b))
          (omega (arith, length-resized size b))
          (resize_body-Saves calls.body works s m b size h fine);
    asks = λ m b n q e.
        let k : size ≡ n = ground (arith, e) in omega (arith, k, length-resized size b);
    fits_still = λ b h. omega (arith, length-resized size b, fine);
    nothing = λ m b h e. absurd (ground (arith, e));
    planned = λ m. inr (size, refl);
  }

  zero_edit-Saves :
      (s : S) (m : Manifest) (b : List ℕ) (off stop : ℕ)
      → Holds calls.body s m b
      → off ≤ stop
      → stop < 2 ^ 64
      → Saves calls.body s
          (zero_edit calls off stop s m)
          (written off (replicate (stop - off) 0) b)
          (chunk_limit calls m (written off (replicate (stop - off) 0) b))
  unfolding zero_edit zero_chunks
  zero_edit-Saves s m b off stop (r, q, small) h fine =
      let zeros : List ℕ = replicate (stop - off) 0 in
      let (cs, t, e, r', ext, few) =
        append_hole-Builds calls.body works s [] [] (stop - off) refl in
      let z = length-replicate {A = ℕ} (stop - off) 0 in
      let n : off + length zeros < 2 ^ 64 = omega (arith, z, h, fine) in
      rw e (
        Saves-after calls.body works s t (replace_range calls.body t m off cs) (written off zeros b)
          (2 * length m.chunks + length cs + (off / min_chunk + 1))
          (chunk_limit calls m (written off zeros b)) ext
          (omega (arith, few, z, h, length-written off zeros b))
          (replace_range-Saves calls.body works t m b off cs zeros
            (Reads-Extends calls.body s t m.chunks b ext r, q, small) r' n))

  zero_edit-zeroed :
      (s : S) (m : Manifest) (b : List ℕ) (off stop : ℕ)
      → Holds calls.body s m b
      → leb stop off ≡ false
      → stop < 2 ^ 64
      → Saves calls.body s
          (zero_edit calls off stop s m)
          (zeroed off stop b)
          (chunk_limit calls m (zeroed off stop b))
  zero_edit-zeroed s m b off stop h e fine =
      let q : written off (replicate (stop - off) 0) b ≡ zeroed off stop b = rw e refl in
      subst (λ z. Saves calls.body s (zero_edit calls off stop s m) z (chunk_limit calls m z)) q
        (zero_edit-Saves s m b off stop h (ground (arith, e)) fine)

  pub allocate-Edits :
      (mode : AllocateMode) (off end : ℕ)
      → end < 2 ^ 64
      → Edits calls
          (allocate_plan mode off end)
          (allocate_edit calls mode off end)
          (allocated mode off end)
  unfolding allocate_plan allocate_edit
  allocate-Edits keep_size off end fine = record {
    saves = λ s m b n h e. absurd (ground (arith, e));
    asks = λ m b n q e. absurd (ground (arith, e));
    fits_still = λ b h. h;
    nothing = λ m b h e. refl;
    planned = λ m. inl refl;
  }
  allocate-Edits allocate off end fine = record {
    saves = λ s m b n h e.
        let q = h.1 in
        let z : end ≡ max (length b) end = ground (arith, e, q) in
        subst
          (λ k.
            Saves calls.body s (resize_body calls.body s m end) (resized k b)
              (chunk_limit calls m (resized k b)))
          z
          (wider s (resize_body calls.body s m end) (resized end b)
            (length m.chunks + (end / min_chunk + 1)) (chunk_limit calls m (resized end b))
            (omega (arith, length-resized end b))
            (resize_body-Saves calls.body works s m b end h fine));
    asks = λ m b n q e.
        let k : n ≡ max (length b) end = ground (arith, e, q) in
        omega (arith, k, length-resized (max (length b) end) b);
    fits_still = λ b h. omega (arith, length-resized (max (length b) end) b, fine, h);
    nothing = λ m b h e.
        let z : max (length b) end ≡ length b = ground (arith, e, h) in
        let k : length b - length b ≡ 0 = omega arith in
        ap (λ n. resized n b) z
        ∙ (λ i. take_all (length b) b (omega arith) i ++ replicate (k i) 0)
        ∙ append-nil b;
    planned = λ m. elim (Bool-cases (leb end m.size)) [
      | inl g ↦ inl (rw g refl)
      | inr g ↦ inr (end, rw g refl)
    ];
  }
  allocate-Edits punch_hole off end fine = record {
    saves = λ s m b n h e.
        let q = h.1 in
        let small = h.2 in
        let g : leb (min end m.size) off ≡ false = ground (arith, e) in
        let z : Saves calls.body s (zero_edit calls off (min end m.size) s m)
            (zeroed off (min end m.size) b) (chunk_limit calls m (zeroed off (min end m.size) b)) =
          zero_edit-zeroed s m b off (min end m.size) h g (omega (arith, q, small)) in
        subst
          (λ k.
            Saves calls.body s (zero_edit calls off (min end m.size) s m) (zeroed off (min end k) b)
              (chunk_limit calls m (zeroed off (min end k) b)))
          q z;
    asks = λ m b n q e.
        let g : leb (min end m.size) off ≡ false = ground (arith, e) in
        let k : max m.size (min end m.size) ≡ n = ground (arith, g, e) in
        let l = length-zeroed off (min end (length b)) b (ground (arith, g, q)) in
        omega (arith, k, q, l);
    fits_still = λ b h. length-zeroed_fits off (min end (length b)) b h (omega (arith, h));
    nothing =
        λ m b h e. let g : leb (min end (length b)) off ≡ true = ground (arith, e, h) in rw g refl;
    planned = λ m. elim (Bool-cases (leb (min end m.size) off)) [
      | inl g ↦ inl (rw g refl)
      | inr g ↦ inr (max m.size (min end m.size), rw g refl)
    ];
  }
  allocate-Edits zero_range off end fine = record {
    saves = λ s m b n h e.
        let g : leb end off ≡ false = ground (arith, e) in zero_edit-zeroed s m b off end h g fine;
    fits_still = λ b h. length-zeroed_fits off end b h fine;
    nothing = λ m b h e. let g : leb end off ≡ true = ground (arith, e) in rw g refl;
    asks = λ m b n q e.
        let g : leb end off ≡ false = ground (arith, e) in
        let k : max m.size end ≡ n = ground (arith, g, e) in
        omega (arith, k, q, length-zeroed off end b g);
    planned = λ m. elim (Bool-cases (leb end off)) [
      | inl g ↦ inl (rw g refl)
      | inr g ↦ inr (max m.size end, rw g refl)
    ];
  }
