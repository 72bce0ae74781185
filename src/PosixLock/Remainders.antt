-- ===== src/PosixLock/Remainders.antt =====
-- What is left of a row that a request replaces in part.
use origofs.Base.{
  ℕ, ◌-◌, ◌+◌, ◌≤◌, ◌<◌, ◌≡◌, refl, ◌⊎◌, inl, inr, Bool, true, Text, ltb, In, In-append_inv,
  In-append_left, In-append_right, arith, Bool-cases,
}
use origofs.PosixLock.{PosixLock, LockRequest, overlaps, clashes, left_of, right_of, remainders}
use origofs.PosixLock.Rows.{IsAt, Holds, Separate}

-- A piece of the row, outside the request.
pub record IsPiece (req : LockRequest) (l y : PosixLock) : Type 0 where
  pub owned : y.owner ≡ l.owner
  pub mode : y.is_exclusive ≡ l.is_exclusive
  pub low : l.start ≤ y.start
  pub high : y.end ≤ l.end
  pub upright : y.start ≤ y.end
  pub outside : (y.end < req.start) ⊎ (req.end < y.start)

module _ (req : LockRequest) (l : PosixLock) where
  left-IsPiece :
      (y : PosixLock) → In y (left_of req l) → overlaps l req.start req.end ≡ true → IsPiece req l y
  unfolding left_of overlaps
  left-IsPiece y i o = elim (Bool-cases (ltb l.start req.start)) [
    | inl e ↦ elim (rw (e, In) at i) [ inl q ↦ rw q (ground arith) | inr k ↦ absurd k ]
    | inr e ↦ absurd (rw (e, In) at i)
  ]

  right-IsPiece :
      (y : PosixLock)
      → In y (right_of req l)
      → overlaps l req.start req.end ≡ true
      → IsPiece req l y
  unfolding right_of overlaps
  right-IsPiece y i o = elim (Bool-cases (ltb req.end l.end)) [
    | inl e ↦ elim (rw (e, In) at i) [ inl q ↦ rw q (ground arith) | inr k ↦ absurd k ]
    | inr e ↦ absurd (rw (e, In) at i)
  ]

  pub remainders-IsPiece :
      (y : PosixLock)
      → In y (remainders req l)
      → overlaps l req.start req.end ≡ true
      → IsPiece req l y
  unfolding remainders
  remainders-IsPiece y i o = elim (In-append_inv y (left_of req l) (right_of req l) i) [
    | inl j ↦ left-IsPiece y j o
    | inr j ↦ right-IsPiece y j o
  ]

  -- Every byte of the row outside the request stays in a piece.
  pub remainders_cover :
      (o : Text) (b : ℕ) (k : Bool)
      → IsAt l o b k
      → (b < req.start) ⊎ (req.end < b)
      → Holds (remainders req l) o b k
  unfolding remainders left_of right_of
  remainders_cover o b k h (inl p) =
      let e : ltb l.start req.start ≡ true = ground arith in
      let y = record l { end = req.start - 1 } in
      (
        y,
        In-append_left y _ (right_of req l) (rw e (inl refl)),
        record { owned = h.owned; low = h.low; high = omega arith; mode = h.mode },
      )
  remainders_cover o b k h (inr p) =
      let e : ltb req.end l.end ≡ true = ground arith in
      let y = record l { start = req.end + 1 } in
      (
        y,
        In-append_right y (left_of req l) _ (rw e (inl refl)),
        record { owned = h.owned; low = omega arith; high = h.high; mode = h.mode },
      )

  pub remainders-Separate : req.start ≤ req.end → Separate (remainders req l)
  unfolding remainders left_of right_of clashes
  remainders-Separate h = elim (Bool-cases (ltb l.start req.start)) [
    | inl e ↦ elim (Bool-cases (ltb req.end l.end)) [
      | inl f ↦ rw (e, f) ((ground arith, tt), (tt, tt))
      | inr f ↦ rw (e, f) (tt, tt)
    ]
    | inr e ↦ elim (Bool-cases (ltb req.end l.end)) [
      | inl f ↦ rw (e, f) (tt, tt)
      | inr f ↦ rw (e, f) tt
    ]
  ]
