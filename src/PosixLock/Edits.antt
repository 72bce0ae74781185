-- ===== src/PosixLock/Edits.antt =====
-- The edit that `resolve` collects, row by row.
use origofs.Base.{
  ℕ, ◌≡◌, refl, subst, ◌⊎◌, inl, inr, Bool, true, false, ◌&&◌, ◌||◌, List, [], ◌∷◌, Text, text_eq,
  text_eq_iff, ◌==◌, any_of, In, In-append_left, In-append_right, In-append_inv, arith, Bool-cases,
}
use origofs.PosixLock.{
  PosixLock, LockRequest, overlaps, absorbed, remainders, edit_row, edits, is_deleted,
}

module _ (req : LockRequest) (ns ne : ℕ) where
  -- The rows that the loop does not skip.
  unfoldable pub touched : PosixLock → Bool
  touched l = absorbed req ns ne l || overlaps l req.start req.end

  edit_row_key :
      (l : PosixLock) (r : List (Text × ℕ) × List PosixLock)
      → touched l ≡ true
      → any_of (λ k. text_eq k.0 l.owner && (k.1 == l.start)) (edit_row req ns ne l r).0 ≡ true
  unfolding edit_row touched
  edit_row_key l (deletes, inserts) h = ground (arith, text_eq_iff l.owner l.owner)

  edit_row_keeps :
      (p : Text × ℕ → Bool) (l : PosixLock) (r : List (Text × ℕ) × List PosixLock)
      → any_of p r.0 ≡ true
      → any_of p (edit_row req ns ne l r).0 ≡ true
  unfolding edit_row
  edit_row_keeps p l (deletes, inserts) h = ground arith

  edit_row_inv :
      (p : Text × ℕ → Bool) (l : PosixLock) (r : List (Text × ℕ) × List PosixLock)
      → any_of p (edit_row req ns ne l r).0 ≡ true
      → (any_of p r.0 ≡ true) ⊎ ((touched l ≡ true) × (p (l.owner, l.start) ≡ true))
  unfolding edit_row touched
  edit_row_inv p l (deletes, inserts) h = ground arith

  -- A touched row is deleted.
  pub is_deleted-touched :
      (l : PosixLock) (own : List PosixLock)
      → In l own
      → touched l ≡ true
      → is_deleted (edits req ns ne own).0 l ≡ true
  unfolding edits is_deleted
  is_deleted-touched l [] i h = absurd i
  is_deleted-touched l (m ∷ own) (inl e) h =
      subst
        (λ z.
          any_of (λ k. text_eq k.0 l.owner && (k.1 == l.start))
            (edit_row req ns ne z (edits req ns ne own)).0
          ≡ true)
        e (edit_row_key l (edits req ns ne own) h)
  is_deleted-touched l (m ∷ own) (inr i) h =
      edit_row_keeps (λ k. text_eq k.0 l.owner && (k.1 == l.start)) m (edits req ns ne own)
        (is_deleted-touched l own i h)

  -- A deleted row has the key of a touched one.
  pub is_deleted_inv :
      (x : PosixLock) (own : List PosixLock)
      → is_deleted (edits req ns ne own).0 x ≡ true
      → (l : PosixLock) × In l own × (touched l ≡ true) × (l.owner ≡ x.owner) × (l.start ≡ x.start)
  unfolding edits is_deleted
  is_deleted_inv x [] h = cc
  is_deleted_inv x (m ∷ own) h =
      let ih = is_deleted_inv x own in
      elim (edit_row_inv (λ k. text_eq k.0 x.owner && (k.1 == x.start)) m (edits req ns ne own) h) [
        | inl k ↦ let (l, i, t, p, q) = ih k in (l, inr i, t, p, q)
        | inr (t, k) ↦
            (m, inl refl, t, (text_eq_iff m.owner x.owner).0 (ground arith), ground arith)
      ]

  edit_row_insert :
      (y l : PosixLock) (r : List (Text × ℕ) × List PosixLock)
      → In y (edit_row req ns ne l r).1
      → In y r.1
        ⊎ ((absorbed req ns ne l ≡ false)
            × (overlaps l req.start req.end ≡ true)
            × In y (remainders req l))
  unfolding edit_row
  edit_row_insert y l (deletes, inserts) i = elim (Bool-cases (absorbed req ns ne l)) [
    | inl a ↦ inl (rw (a, edit_row) at i)
    | inr a ↦ elim (Bool-cases (overlaps l req.start req.end)) [
      | inl o ↦ elim (In-append_inv y (remainders req l) inserts (rw (a, o, edit_row) at i)) [
        | inl j ↦ inr (a, o, j)
        | inr j ↦ inl j
      ]
      | inr o ↦ inl (rw (a, o, edit_row) at i)
    ]
  ]

  -- An inserted row is what is left of a replaced one.
  pub inserted_inv :
      (y : PosixLock) (own : List PosixLock)
      → In y (edits req ns ne own).1
      → (l : PosixLock) × In l own
        × (absorbed req ns ne l ≡ false)
        × (overlaps l req.start req.end ≡ true)
        × In y (remainders req l)
  unfolding edits
  inserted_inv y [] i = absurd i
  inserted_inv y (m ∷ own) i =
      let ih = inserted_inv y own in
      elim (edit_row_insert y m (edits req ns ne own) i) [
        | inl k ↦ let (l, j, a, o, r) = ih k in (l, inr j, a, o, r)
        | inr (a, o, r) ↦ (m, inl refl, a, o, r)
      ]

  edit_row_remainder :
      (y l : PosixLock) (r : List (Text × ℕ) × List PosixLock)
      → absorbed req ns ne l ≡ false
      → overlaps l req.start req.end ≡ true
      → In y (remainders req l)
      → In y (edit_row req ns ne l r).1
  unfolding edit_row
  edit_row_remainder y l (deletes, inserts) a o i =
      rw (a, o, edit_row) (In-append_left y (remainders req l) inserts i)

  edit_row_keeps_insert :
      (y l : PosixLock) (r : List (Text × ℕ) × List PosixLock)
      → In y r.1
      → In y (edit_row req ns ne l r).1
  unfolding edit_row
  edit_row_keeps_insert y l (deletes, inserts) i = elim (Bool-cases (absorbed req ns ne l)) [
    | inl a ↦ rw (a, edit_row) i
    | inr a ↦ elim (Bool-cases (overlaps l req.start req.end)) [
      | inl o ↦ rw (a, o, edit_row) (In-append_right y (remainders req l) inserts i)
      | inr o ↦ rw (a, o, edit_row) i
    ]
  ]

  pub inserted_of :
      (y l : PosixLock) (own : List PosixLock)
      → In l own
      → absorbed req ns ne l ≡ false
      → overlaps l req.start req.end ≡ true
      → In y (remainders req l)
      → In y (edits req ns ne own).1
  unfolding edits
  inserted_of y l [] i a o r = absurd i
  inserted_of y l (m ∷ own) (inl e) a o r =
      subst (λ z. In y (edit_row req ns ne z (edits req ns ne own)).1) e
        (edit_row_remainder y l (edits req ns ne own) a o r)
  inserted_of y l (m ∷ own) (inr i) a o r =
      edit_row_keeps_insert y m (edits req ns ne own) (inserted_of y l own i a o r)
