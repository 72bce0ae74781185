-- ===== src/PosixLock/Granted.antt =====
-- The table after a granted request is at rest again.
use origofs.Base.{
  ℕ, max, ◌≤◌, ◌<◌, ◌≡◌, sym, subst, ◌∙◌, ◌⊎◌, inl, inr, true, false, not, List, [], ◌∷◌, text_eq,
  text_eq_iff, In, append-nil, In-retain, All-to, All-of-In, All-append, arith, Bool-cases,
}
use origofs.PosixLock.{
  PosixLock, LockRequest, is_unlock, wants_exclusive, overlaps, clashes, mine, absorbed, edits,
  granted_row, is_deleted,
}
use origofs.PosixLock.Rows.{
  Upright, Separate, Separate-unique, Separate-append, Separate-retain, clashes_at,
}
use origofs.PosixLock.Edits.{touched, is_deleted-touched, is_deleted_inv, inserted_inv}
use origofs.PosixLock.Widened.{IsWidened, mine_owned, In-mine}
use origofs.PosixLock.Remainders.{IsPiece, remainders-IsPiece}
use origofs.PosixLock.Grant.{kept, pieces, granted, rows_after, edits-Separate, added_cases}

module _ (existing : List PosixLock) (req : LockRequest) (ns ne : ℕ) (u : Upright existing)
    (s : Separate existing) (r : req.start ≤ req.end) (w : IsWidened req existing ns ne) where
  -- A row of the owner that shares a byte with another row of the owner is that row.
  same_row :
      (a b : PosixLock) (x : ℕ)
      → In a existing
      → In b existing
      → a.owner ≡ b.owner
      → a.start ≤ x
      → x ≤ a.end
      → b.start ≤ x
      → x ≤ b.end
      → a ≡ b
  same_row a b x i j e p q p' q' = Separate-unique a b existing s i j (clashes_at a b x e p q p' q')

  -- A row that stays is not one that the loop touched.
  pub kept_untouched :
      (l : PosixLock)
      → In l (kept existing req ns ne)
      → l.owner ≡ req.owner
      → In l existing × (touched req ns ne l ≡ false)
  unfolding kept
  kept_untouched l i e =
      let (j, d) =
        In-retain (λ m. not (is_deleted (edits req ns ne (mine req existing)).0 m)) l existing i in
      (
        j,
        elim (Bool-cases (touched req ns ne l)) [
          | inl t ↦
              let k =
                is_deleted-touched req ns ne l (mine req existing) (In-mine req existing l j e) t in
              ground arith
          | inr t ↦ t
        ],
      )

  -- A row that goes was touched.
  pub deleted_touched :
      (l : PosixLock)
      → In l existing
      → is_deleted (edits req ns ne (mine req existing)).0 l ≡ true
      → (l.owner ≡ req.owner) × (touched req ns ne l ≡ true)
  deleted_touched l i d =
      let (m, j, t, o, st) = is_deleted_inv req ns ne l (mine req existing) d in
      let (j', o') = mine_owned req existing m j in
      let ul = All-of-In (λ z. z.start ≤ z.end) l existing u i in
      let um = All-of-In (λ z. z.start ≤ z.end) m existing u j' in
      let e = same_row m l l.start j' i o (omega arith) (omega arith) (omega arith) ul in
      (subst (λ z. z.owner ≡ req.owner) e o', subst (λ z. touched req ns ne z ≡ true) e t)

  -- Where a row written for a replaced one comes from.
  pub from_IsPiece :
      (y : PosixLock)
      → In y (pieces existing req ns ne)
      → (l : PosixLock) × In l existing
        × (l.owner ≡ req.owner)
        × (absorbed req ns ne l ≡ false)
        × (overlaps l req.start req.end ≡ true)
        × IsPiece req l y
  unfolding pieces
  from_IsPiece y i =
      let (l, j, a, o, k) = inserted_inv req ns ne y (mine req existing) i in
      let (j', e) = mine_owned req existing l j in (l, j', e, a, o, remainders-IsPiece req l y k o)

  -- A byte of a row of the owner that is in the widened range, and not in the request, is held in
  -- the mode of the request; so the row is absorbed.
  meets_widened :
      (l : PosixLock) (b : ℕ)
      → In l existing
      → l.owner ≡ req.owner
      → l.start ≤ b
      → b ≤ l.end
      → ns ≤ b
      → b ≤ ne
      → (b < req.start) ⊎ (req.end < b)
      → absorbed req ns ne l ≡ true
  unfolding absorbed overlaps
  meets_widened l b i o p q p' q' out = elim (w.covered b p' q') [
    | inl (x, y) ↦ absurd (omega arith)
    | inr (k, (m, j, at)) ↦
        let e = same_row l m b i j (o ∙ sym at.owned) p q at.low at.high in
        let mode : l.is_exclusive ≡ wants_exclusive req.kind =
          subst (λ z. z.is_exclusive ≡ wants_exclusive req.kind) (sym e) at.mode in
        ground arith
  ]

  -- What stays, against a piece: a clash would make it the row that the piece is of.
  kept_piece :
      (x y : PosixLock)
      → In x (kept existing req ns ne)
      → In y (pieces existing req ns ne)
      → clashes x y ≡ false
  unfolding clashes touched overlaps
  kept_piece x y i j = elim (Bool-cases (clashes x y)) [
    | inr e ↦ e
    | inl e ↦
        let (l, k, o, a, t, p) = from_IsPiece y j in
        let xo : x.owner ≡ req.owner =
          (text_eq_iff x.owner y.owner).0 (ground arith) ∙ p.owned ∙ o in
        let (x', un) = kept_untouched x i xo in
        let same : x ≡ l =
          same_row x l (max x.start y.start) x' k (xo ∙ sym o) (omega arith)
            (ground (arith, p.upright, All-of-In (λ z. z.start ≤ z.end) x existing u x'))
            (omega (arith, p.low))
            (ground (arith, p.high, p.upright, All-of-In (λ z. z.start ≤ z.end) x existing u x')) in
        let un' : touched req ns ne l ≡ false = subst (λ z. touched req ns ne z ≡ false) same un in
        absurd (ground arith)
  ]

  -- What stays, against the granted row.
  kept_granted :
      (x : PosixLock) → In x (kept existing req ns ne) → clashes x (granted_row req ns ne) ≡ false
  unfolding clashes granted_row touched overlaps
  kept_granted x i = elim (Bool-cases (clashes x (granted_row req ns ne))) [
    | inr e ↦ e
    | inl e ↦
        let xo : x.owner ≡ req.owner = (text_eq_iff x.owner req.owner).0 (ground arith) in
        let (x', un) = kept_untouched x i xo in
        let up = All-of-In (λ z. z.start ≤ z.end) x existing u x' in
        let b = max x.start ns in
        let a : absorbed req ns ne x ≡ true =
          meets_widened x b x' xo (omega arith) (ground arith) (omega arith)
            (ground (arith, w.low, w.high)) (ground (arith, w.low, w.high)) in
        absurd (ground arith)
  ]

  piece_granted :
      (y : PosixLock) → In y (pieces existing req ns ne) → clashes y (granted_row req ns ne) ≡ false
  unfolding clashes granted_row overlaps
  piece_granted y j = elim (Bool-cases (clashes y (granted_row req ns ne))) [
    | inr e ↦ e
    | inl e ↦
        let (l, k, o, a, t, p) = from_IsPiece y j in
        let b = max y.start ns in
        let a' : absorbed req ns ne l ≡ true =
          meets_widened l b k o (omega (arith, p.low))
            (ground (arith, p.high, p.upright, w.low, w.high)) (omega arith)
            (ground (arith, p.high, p.upright, w.low, w.high))
            (ground (arith, p.outside, p.upright, w.low, w.high)) in
        absurd (ground arith)
  ]

  -- The rows after the request are separate.
  pub rows_after-Separate : Separate (rows_after existing req ns ne)
  unfolding rows_after pieces granted kept
  rows_after-Separate =
      let ps =
        edits-Separate req ns ne (mine req existing) r
          (unfold mine in Separate-retain (λ l. text_eq l.owner req.owner) existing s) in
      Separate-append (kept existing req ns ne) _
        (Separate-retain (λ l. not (is_deleted (edits req ns ne (mine req existing)).0 l)) existing
          s)
        (elim (Bool-cases (is_unlock req.kind)) [
          | inl e ↦ rw (e, append-nil) ps
          | inr e ↦ rw e (
              Separate-append (pieces existing req ns ne) (granted_row req ns ne ∷ []) ps (tt, tt)
                (λ y z i j. elim j [ inl q ↦ rw q (piece_granted y i) | inr k ↦ absurd k ]))
        ])
        (λ x y i j. elim (added_cases req existing ns ne y j) [
          | inl k ↦ kept_piece x y i k
          | inr (k, q) ↦ rw q (kept_granted x i)
        ])

  pub rows_after-Upright : Upright (rows_after existing req ns ne)
  unfolding rows_after granted
  rows_after-Upright =
      All-append _ (kept existing req ns ne) _
        (All-to _ _ (λ l i.
          All-of-In (λ z. z.start ≤ z.end) l existing u
            (unfold kept in
              (In-retain (λ m. not (is_deleted (edits req ns ne (mine req existing)).0 m)) l
                existing i).0)))
        (All-append _ (pieces existing req ns ne) _
          (All-to _ _ (λ y i. let (l, k, o, a, t, p) = from_IsPiece y i in p.upright))
          (elim (Bool-cases (is_unlock req.kind)) [
            | inl e ↦ rw e tt
            | inr e ↦ rw e (unfold granted_row in (omega (arith, w.low, w.high), tt))
          ]))
