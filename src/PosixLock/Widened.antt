-- ===== src/PosixLock/Widened.antt =====
-- The widened range of a request against a lock table at rest, and what is left of a replaced row.
use origofs.Base.{
  ℕ, suc, ◌≤◌, ◌≡◌, refl, ◌⊎◌, inl, inr, Bool, true, false, List, [], ◌∷◌, text_eq, text_eq_iff, In,
  In-retain, In-retain_of, All-to, All-of-In, arith, Bool-cases, length,
}
use origofs.PosixLock.{
  PosixLock, LockRequest, is_unlock, wants_exclusive, widens, mine, widened, absorbed,
}
use origofs.PosixLock.Grow.{CoveredBy, grow-IsGrown, sticking_out-le}
use origofs.PosixLock.Rows.{Upright, Holds}

pub mine_owned :
    (req : LockRequest) (existing : List PosixLock) (l : PosixLock)
    → In l (mine req existing)
    → In l existing × (l.owner ≡ req.owner)
unfolding mine
mine_owned req existing l i =
    let (j, e) = In-retain (λ m. text_eq m.owner req.owner) l existing i in
    (j, (text_eq_iff l.owner req.owner).0 e)

CoveredBy-Holds :
    (want : Bool) (b : ℕ) (own : List PosixLock)
    → CoveredBy want b own
    → (l : PosixLock) × In l own × (l.is_exclusive ≡ want) × (l.start ≤ b) × (b ≤ l.end)
CoveredBy-Holds want b [] c = absurd c
CoveredBy-Holds want b (l ∷ own) (inl (m, p, q)) = (l, inl refl, m, p, q)
CoveredBy-Holds want b (l ∷ own) (inr c) =
    let (x, i, m, p, q) = CoveredBy-Holds want b own c in (x, inr i, m, p, q)

-- An absorbed row that does not widen the range lies inside it.
inside :
    (req : LockRequest) (l : PosixLock) (ns ne : ℕ)
    → widens (wants_exclusive req.kind) l ns ne ≡ false
    → absorbed req ns ne l ≡ true
    → (ns ≤ l.start) × (l.end ≤ ne)
unfolding widens absorbed
inside req l ns ne w a = ground arith

-- What the widened range `(ns, ne)` is to the rows `existing`.
pub record IsWidened (req : LockRequest) (existing : List PosixLock) (ns ne : ℕ) : Type 0 where
  pub low : ns ≤ req.start
  pub high : req.end ≤ ne
  pub fixed :
      (l : PosixLock)
      → In l existing
      → l.owner ≡ req.owner
      → absorbed req ns ne l ≡ true
      → (ns ≤ l.start) × (l.end ≤ ne)
  pub covered :
      (b : ℕ)
      → ns ≤ b
      → b ≤ ne
      → ((req.start ≤ b) × (b ≤ req.end))
        ⊎ ((is_unlock req.kind ≡ false) × Holds existing req.owner b (wants_exclusive req.kind))

module _ (req : LockRequest) (existing : List PosixLock) where
  mine-Upright : Upright existing → Upright (mine req existing)
  mine-Upright u =
      All-to _ (mine req existing)
        (λ l i. All-of-In (λ m. m.start ≤ m.end) l existing u (mine_owned req existing l i).0)

  pub In-mine : (l : PosixLock) → In l existing → l.owner ≡ req.owner → In l (mine req existing)
  unfolding mine
  In-mine l i e =
      In-retain_of (λ m. text_eq m.owner req.owner) l existing i
        ((text_eq_iff l.owner req.owner).1 e)

  pub widened-IsWidened :
      Upright existing
      → req.start ≤ req.end
      → IsWidened req existing
          (widened req (mine req existing)).0
          (widened req (mine req existing)).1
  unfolding widened
  widened-IsWidened u h =
      let own = mine req existing in
      let want = wants_exclusive req.kind in
      let g =
        grow-IsGrown (suc (length own)) want own req.start req.end
          (omega (arith, sticking_out-le want own req.start req.end)) (mine-Upright u) h in
      elim (Bool-cases (is_unlock req.kind)) [
        | inl e ↦
            rw (e, widened)
              (record {
                low = omega arith;
                high = omega arith;
                fixed = λ l i p a. unfold absorbed in ground arith;
                covered = λ b p q. inl (p, q);
              })
        | inr e ↦
            rw (e, widened)
              (record {
                low = g.low;
                high = g.high;
                fixed = λ l i p a.
                    inside req l _ _
                      (All-of-In (λ m. widens want m _ _ ≡ false) l own g.fixed (In-mine l i p)) a;
                covered = λ b p q. elim (g.covered b p q) [
                  | inl r ↦ inl r
                  | inr c ↦
                      let (l, i, m, lo, hi) = CoveredBy-Holds want b own c in
                      let (j, o) = mine_owned req existing l i in
                      inr (e, (l, j, record { owned = o; low = lo; high = hi; mode = m }))
                ];
              })
      ]
