-- ===== src/PosixLock/Grant.antt =====
-- The table after a granted request: which rows it has.
use origofs.Base.{
  ℕ, ◌≤◌, ◌≡◌, ◌⊎◌, inl, inr, false, not, List, [], ◌∷◌, ◌++◌, none, text_eq_iff, if◌then◌else◌, In,
  In-append_inv, All-of-In, retain, arith, Bool-cases, Option-cases,
}
use origofs.PosixLock.{
  PosixLock, LockRequest, is_unlock, overlaps, clashes, mine, widened, absorbed, remainders,
  edit_row, edits, granted_row, blocker, grant, resolve, apply, sort_locks, is_deleted, test,
}
use origofs.PosixLock.Rows.{Separate, Separate-append}
use origofs.PosixLock.Edits.{inserted_inv}
use origofs.PosixLock.Remainders.{IsPiece, remainders-IsPiece, remainders-Separate}

-- The rows that stay, those that are written for replaced ones, and the granted one.
unfoldable pub kept : List PosixLock → LockRequest → ℕ → ℕ → List PosixLock
kept existing req ns ne =
    retain (λ l. not (is_deleted (edits req ns ne (mine req existing)).0 l)) existing

unfoldable pub pieces : List PosixLock → LockRequest → ℕ → ℕ → List PosixLock
pieces existing req ns ne = (edits req ns ne (mine req existing)).1

unfoldable pub granted : LockRequest → ℕ → ℕ → List PosixLock
granted req ns ne = if is_unlock req.kind then [] else granted_row req ns ne ∷ []

-- The table after the request, before it is sorted.
unfoldable pub rows_after : List PosixLock → LockRequest → ℕ → ℕ → List PosixLock
rows_after existing req ns ne =
    kept existing req ns ne ++ (pieces existing req ns ne ++ granted req ns ne)

abbrev pub low : List PosixLock → LockRequest → ℕ
low existing req = (widened req (mine req existing)).0

abbrev pub high : List PosixLock → LockRequest → ℕ
high existing req = (widened req (mine req existing)).1

resolve-grant :
    (existing : List PosixLock) (req : LockRequest)
    → test existing req ≡ none
    → resolve existing req ≡ grant existing req
unfolding test resolve
resolve-grant existing req h = elim (Option-cases (blocker existing req)) [
  | inl e ↦ rw (e, resolve)
  | inr (l, e) ↦ ground arith
]

pub apply-resolve :
    (existing : List PosixLock) (req : LockRequest)
    → test existing req ≡ none
    → apply existing (resolve existing req)
      ≡ sort_locks (rows_after existing req (low existing req) (high existing req))
unfolding apply grant rows_after kept pieces granted
apply-resolve existing req h = rw (resolve-grant existing req h)

-- Pieces of separate rows are separate.
piece_clash :
    (req : LockRequest) (l m y z : PosixLock)
    → IsPiece req l y
    → IsPiece req m z
    → clashes l m ≡ false
    → clashes y z ≡ false
unfolding clashes
piece_clash req l m y z p q h = ground (
  arith,
  text_eq_iff l.owner m.owner,
  text_eq_iff y.owner z.owner,
  p.owned,
  q.owned,
  p.low,
  p.high,
  q.low,
  q.high,
)

pub edits-Separate :
    (req : LockRequest) (ns ne : ℕ) (own : List PosixLock)
    → req.start ≤ req.end
    → Separate own
    → Separate (edits req ns ne own).1
unfolding edits edit_row
edits-Separate req ns ne [] r s = tt
edits-Separate req ns ne (l ∷ own) r (h, hs) =
    let ih = edits-Separate req ns ne own r hs in
    elim (Bool-cases (absorbed req ns ne l)) [
      | inl a ↦ rw (a, edits) ih
      | inr a ↦ elim (Bool-cases (overlaps l req.start req.end)) [
        | inl o ↦
            rw (a, o, edits)
              (Separate-append (remainders req l) (edits req ns ne own).1
                (remainders-Separate req l r) ih
                (λ y z i j.
                  let (m, k, a', o', x) = inserted_inv req ns ne z own j in
                  piece_clash req l m y z (remainders-IsPiece req l y i o)
                    (remainders-IsPiece req m z x o')
                    (All-of-In (λ b. clashes l b ≡ false) m own h k)))
        | inr o ↦ rw (a, o, edits) ih
      ]
    ]

-- The rows that the request adds.
pub added_cases :
    (req : LockRequest) (existing : List PosixLock) (ns ne : ℕ) (y : PosixLock)
    → In y (pieces existing req ns ne ++ granted req ns ne)
    → In y (pieces existing req ns ne)
      ⊎ ((is_unlock req.kind ≡ false) × (y ≡ granted_row req ns ne))
unfolding granted
added_cases req existing ns ne y i = elim (In-append_inv y (pieces existing req ns ne) _ i) [
  | inl j ↦ inl j
  | inr j ↦ elim (Bool-cases (is_unlock req.kind)) [
    | inl e ↦ absurd (rw (e, In) at j)
    | inr e ↦ elim (rw (e, In) at j) [ inl q ↦ inr (e, q) | inr k ↦ absurd k ]
  ]
]
