-- ===== src/PosixLock/Conflict.antt =====
-- When a request is refused, and by whom.
use origofs.Base.{
  ◌≤◌, ◌≡◌, ◌≢◌, sym, subst, ◌↔◌, ◌⊎◌, inl, inr, true, false, List, [], ◌∷◌, none, some, text_eq,
  text_eq_iff, In, arith, Bool-cases, Option-cases,
}
use origofs.PosixLock.{
  PosixLock, LockRequest, is_unlock, wants_exclusive, blocks, find_conflict, blocker, grant,
  resolve, apply, test,
}

-- Another owner's row that shares a byte with a locking request, where either side is exclusive.
pub record Blocks (req : LockRequest) (l : PosixLock) : Type 0 where
  pub locking : is_unlock req.kind ≡ false
  pub foreign : l.owner ≢ req.owner
  pub below : l.start ≤ req.end
  pub above : req.start ≤ l.end
  pub modes : (l.is_exclusive ≡ true) ⊎ (wants_exclusive req.kind ≡ true)

blocks-Blocks :
    (req : LockRequest) (l : PosixLock)
    → is_unlock req.kind ≡ false
    → blocks req l ≡ true
    → Blocks req l
unfolding blocks
blocks-Blocks req l n h = record {
  locking = n;
  foreign = λ e. ground (arith, (text_eq_iff l.owner req.owner).1 e);
  below = ground arith;
  above = ground arith;
  modes = ground arith;
}

Blocks-blocks : (req : LockRequest) (l : PosixLock) → Blocks req l → blocks req l ≡ true
unfolding blocks
Blocks-blocks req l h = elim (Bool-cases (text_eq l.owner req.owner)) [
  | inl e ↦ absurd (h.foreign ((text_eq_iff l.owner req.owner).0 e))
  | inr e ↦ ground (arith, h.below, h.above, h.modes)
]

find_conflict-some :
    (req : LockRequest) (ls : List PosixLock) (l : PosixLock)
    → find_conflict req ls ≡ some l
    → In l ls × (blocks req l ≡ true)
unfolding find_conflict
find_conflict-some req [] l h = cc
find_conflict-some req (m ∷ ls) l h =
    let ih = find_conflict-some req ls l in
    elim (Bool-cases (blocks req m)) [
      | inl e ↦ let q : m ≡ l = ground arith in (inl (sym q), subst (λ z. blocks req z ≡ true) q e)
      | inr e ↦ let h' : find_conflict req ls ≡ some l = ground arith in (inr (ih h').0, (ih h').1)
    ]

find_conflict-none :
    (req : LockRequest) (ls : List PosixLock) (l : PosixLock)
    → find_conflict req ls ≡ none
    → In l ls
    → blocks req l ≡ false
unfolding find_conflict
find_conflict-none req [] l h i = absurd i
find_conflict-none req (m ∷ ls) l h (inl e) =
    let q : blocks req m ≡ false = ground arith in subst (λ z. blocks req z ≡ false) (sym e) q
find_conflict-none req (m ∷ ls) l h (inr i) = find_conflict-none req ls l (ground arith) i

test-blocker :
    (existing : List PosixLock) (req : LockRequest) → test existing req ≡ blocker existing req
unfolding test resolve grant
test-blocker existing req = ground arith

-- What `test` names is a row of the table that blocks the request, and applying the resolution then
-- changes nothing.
pub refused :
    (existing : List PosixLock) (req : LockRequest) (l : PosixLock)
    → test existing req ≡ some l
    → In l existing × Blocks req l × (apply existing (resolve existing req) ≡ existing)
refused existing req l h =
    let e : blocker existing req ≡ some l = rw test-blocker at h in
    elim (Bool-cases (is_unlock req.kind)) [
      | inl k ↦ absurd (unfold blocker in ground arith)
      | inr k ↦
          let f : find_conflict req existing ≡ some l = unfold blocker in ground arith in
          let (i, b) = find_conflict-some req existing l f in
          (i, blocks-Blocks req l k b, unfold apply resolve in rw (e, resolve, apply))
    ]

-- A request is granted exactly when no row of the table blocks it.
pub granted_iff :
    (existing : List PosixLock) (req : LockRequest)
    → (test existing req ≡ none) ↔ ((l : PosixLock) → In l existing → ¬ Blocks req l)
granted_iff existing req = (
  λ h l i b.
      let e : blocker existing req ≡ none = rw test-blocker at h in
      let f : find_conflict req existing ≡ none = unfold blocker in ground (arith, b.locking) in
      let g = find_conflict-none req existing l f i in cc (Blocks-blocks req l b),
  λ all. elim (Option-cases (test existing req)) [
    | inl e ↦ e
    | inr (l, e) ↦ let (i, b, _) = refused existing req l e in absurd (all l i b)
  ],
)
