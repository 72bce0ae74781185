-- ===== src/PosixLock/Held.antt =====
-- What the table holds after a request, byte by byte and owner by owner.
use origofs.Base.{
  ℕ, ◌≤◌, ◌<◌, ◌≡◌, refl, sym, subst, ◌∙◌, ◌⊎◌, inl, inr, Bool, true, false, not, ◌&&◌, List, Text,
  text_eq, text_eq_iff, leb, In, In-append_inv, In-append_left, In-append_right, In-retain,
  In-retain_of, arith, Bool-cases,
}
use origofs.PosixLock.{
  PosixLock, LockRequest, is_unlock, wants_exclusive, overlaps, mine, absorbed, edits, granted_row,
  is_deleted,
}
use origofs.PosixLock.Rows.{Upright, Separate, Holds, IsAt}
use origofs.PosixLock.Edits.{touched, inserted_of}
use origofs.PosixLock.Widened.{IsWidened, In-mine}
use origofs.PosixLock.Remainders.{remainders_cover}
use origofs.PosixLock.Grant.{kept, pieces, granted, rows_after, added_cases}
use origofs.PosixLock.Granted.{kept_untouched, deleted_touched, from_IsPiece}

-- The request is about this owner's byte.
unfoldable pub concerns : LockRequest → Text → ℕ → Bool
concerns req o b = text_eq o req.owner && leb req.start b && leb b req.end

concerns-range :
    (req : LockRequest) (o : Text) (b : ℕ)
    → o ≡ req.owner
    → concerns req o b ≡ false
    → (b < req.start) ⊎ (req.end < b)
unfolding concerns
concerns-range req o b e h = ground (arith, (text_eq_iff o req.owner).1 e)

pub concerns-parts :
    (req : LockRequest) (o : Text) (b : ℕ)
    → concerns req o b ≡ true
    → (o ≡ req.owner) × (req.start ≤ b) × (b ≤ req.end)
unfolding concerns
concerns-parts req o b h = ((text_eq_iff o req.owner).0 (ground arith), ground arith, ground arith)

module _ (existing : List PosixLock) (req : LockRequest) (ns ne : ℕ) (u : Upright existing)
    (s : Separate existing) (r : req.start ≤ req.end) (w : IsWidened req existing ns ne) where
  kept_only :
      (o : Text) (b : ℕ) (k : Bool) (l : PosixLock)
      → In l (kept existing req ns ne)
      → IsAt l o b k
      → (concerns req o b ≡ false) × Holds existing o b k
  unfolding kept touched overlaps
  kept_only o b k l i at =
      let d =
        In-retain (λ m. not (is_deleted (edits req ns ne (mine req existing)).0 m)) l existing i in
      elim (Bool-cases (concerns req o b)) [
        | inr e ↦ (e, (l, d.0, at))
        | inl e ↦
            let (p, q, t) = concerns-parts req o b e in
            let (j, un) = kept_untouched existing req ns ne u s r w l i (at.owned ∙ p) in
            absurd (ground (arith, at.low, at.high))
      ]

  piece_only :
      (o : Text) (b : ℕ) (k : Bool) (y : PosixLock)
      → In y (pieces existing req ns ne)
      → IsAt y o b k
      → (concerns req o b ≡ false) × Holds existing o b k
  piece_only o b k y i at =
      let (l, j, own, a, t, p) = from_IsPiece existing req ns ne u s r w y i in
      elim (Bool-cases (concerns req o b)) [
        | inr e ↦ (
          e,
          (
            l,
            j,
            record {
              owned = sym p.owned ∙ at.owned;
              low = omega (arith, p.low, at.low);
              high = omega (arith, p.high, at.high);
              mode = sym p.mode ∙ at.mode;
            },
          ),
        )
        | inl e ↦
            let (p', q, t') = concerns-parts req o b e in
            absurd (omega (arith, p.outside, at.low, at.high))
      ]

  granted_only :
      (o : Text) (b : ℕ) (k : Bool)
      → is_unlock req.kind ≡ false
      → IsAt (granted_row req ns ne) o b k
      → ((concerns req o b ≡ false) × Holds existing o b k)
        ⊎ ((concerns req o b ≡ true)
            × (is_unlock req.kind ≡ false)
            × (k ≡ wants_exclusive req.kind))
  unfolding granted_row
  granted_only o b k n at = elim (Bool-cases (concerns req o b)) [
    | inl e ↦ inr (e, n, sym at.mode)
    | inr e ↦ elim (w.covered b at.low at.high) [
      | inl (p, q) ↦ absurd (omega (arith, concerns-range req o b (sym at.owned) e))
      | inr (_, (l, i, at')) ↦ inl (
        e,
        (
          l,
          i,
          record {
            owned = at'.owned ∙ at.owned;
            low = at'.low;
            high = at'.high;
            mode = at'.mode ∙ at.mode;
          },
        ),
      )
    ]
  ]

  -- Nothing is held that was not held or asked for.
  pub held_only :
      (o : Text) (b : ℕ) (k : Bool)
      → Holds (rows_after existing req ns ne) o b k
      → ((concerns req o b ≡ false) × Holds existing o b k)
        ⊎ ((concerns req o b ≡ true)
            × (is_unlock req.kind ≡ false)
            × (k ≡ wants_exclusive req.kind))
  unfolding rows_after
  held_only o b k (l, i, at) = elim (In-append_inv l (kept existing req ns ne) _ i) [
    | inl j ↦ inl (kept_only o b k l j at)
    | inr j ↦ elim (added_cases req existing ns ne l j) [
      | inl p ↦ inl (piece_only o b k l p at)
      | inr (n, q) ↦ granted_only o b k n (subst (λ z. IsAt z o b k) q at)
    ]
  ]

  In-granted :
      is_unlock req.kind ≡ false → In (granted_row req ns ne) (rows_after existing req ns ne)
  unfolding rows_after granted
  In-granted e =
      In-append_right _ (kept existing req ns ne) _
        (In-append_right _ (pieces existing req ns ne) _ (rw (e, In) (inl refl)))

  -- A row that goes: its bytes outside the request are in the granted row or in a piece.
  gone_still :
      (o : Text) (b : ℕ) (k : Bool) (l : PosixLock)
      → concerns req o b ≡ false
      → In l existing
      → IsAt l o b k
      → l.owner ≡ req.owner
      → touched req ns ne l ≡ true
      → Holds (rows_after existing req ns ne) o b k
  gone_still o b k l c i at e t = elim (Bool-cases (absorbed req ns ne l)) [
    | inl a ↦
        let (p, q) = w.fixed l i e a in
        let want : (is_unlock req.kind ≡ false) × (l.is_exclusive ≡ wants_exclusive req.kind) =
          unfold absorbed in (ground arith, ground arith) in
        (
          granted_row req ns ne,
          In-granted want.0,
          unfold granted_row in
              record {
                owned = sym e ∙ at.owned;
                low = omega (arith, at.low);
                high = omega (arith, at.high);
                mode = sym want.1 ∙ at.mode;
              },
        )
    | inr a ↦
        let o' : overlaps l req.start req.end ≡ true = unfold touched in ground arith in
        let (y, j, at') =
          remainders_cover req l o b k at (concerns-range req o b (sym at.owned ∙ e) c) in
        (
          y,
          unfold rows_after in
              In-append_right y (kept existing req ns ne) _ (
                In-append_left y (pieces existing req ns ne) _ (
                  unfold pieces in
                  inserted_of req ns ne y l (mine req existing) (In-mine req existing l i e) a o'
                    j)),
          at',
        )
  ]

  -- What was held stays held, where the request does not concern it.
  pub held_still :
      (o : Text) (b : ℕ) (k : Bool)
      → concerns req o b ≡ false
      → Holds existing o b k
      → Holds (rows_after existing req ns ne) o b k
  unfolding rows_after kept
  held_still o b k c (l, i, at) =
      elim (Bool-cases (is_deleted (edits req ns ne (mine req existing)).0 l)) [
        | inl d ↦
            let (e, t) = deleted_touched existing req ns ne u s r w l i d in
            gone_still o b k l c i at e t
        | inr d ↦ (
          l,
          In-append_left l _ _ (
              In-retain_of (λ m. not (is_deleted (edits req ns ne (mine req existing)).0 m)) l
                existing i (rw d)),
          at,
        )
      ]

  -- What was asked for is held.
  pub held_now :
      (o : Text) (b : ℕ)
      → concerns req o b ≡ true
      → is_unlock req.kind ≡ false
      → Holds (rows_after existing req ns ne) o b (wants_exclusive req.kind)
  held_now o b c e =
      let (p, q, t) = concerns-parts req o b c in
      (
        granted_row req ns ne,
        In-granted e,
        unfold granted_row in
            record {
              owned = sym p;
              low = omega (arith, w.low);
              high = omega (arith, w.high);
              mode = refl;
            },
      )
