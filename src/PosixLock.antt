-- ===== src/PosixLock.antt =====
-- crates/origofs-core/src/posixlock.rs: POSIX advisory byte-range locks, as the pure decision
-- `resolve` and the reference semantics `apply` of a lock table.
-- Offsets are the non-negative i64 values up to `lock_eof`; `check_state` refuses a negative start
-- at rest, so its second test is not needed here. A process id is carried and never computed with.
pub mod Grow
pub mod Rows
pub mod Sorting
pub mod Edits
pub mod Widened
pub mod Remainders
pub mod Grant
pub mod Granted
pub mod Held
pub mod Conflict
pub mod Semantics
mod Examples
use origofs.Base.{
  ℕ, zero, suc, ◌+◌, ◌-◌, ◌^◌, min, max, Bool, true, false, not, ◌&&◌, ◌||◌, List, [], ◌∷◌, ◌++◌,
  Option, none, some, Text, text_eq, text_lt, ltb, leb, ◌==◌, if◌then◌else◌, retain, any_of, length,
}

abbrev pub lock_eof : ℕ
lock_eof = 2 ^ 63 - 1

pub data LockKind : Type 0 where
  shared exclusive unlock : LockKind

pub record PosixLock : Type 0 where
  pub owner : Text
  pub holder : Text
  pub pid : ℕ
  pub start : ℕ
  pub end : ℕ
  pub is_exclusive : Bool

pub record LockRequest : Type 0 where
  pub owner : Text
  pub holder : Text
  pub pid : ℕ
  pub start : ℕ
  pub end : ℕ
  pub kind : LockKind

pub record Resolution : Type 0 where
  pub conflict : Option PosixLock
  pub to_delete : List (Text × ℕ)
  pub to_insert : List PosixLock

unfoldable pub overlaps : PosixLock → ℕ → ℕ → Bool
overlaps l start end = leb l.start end && leb start l.end

-- Ranges that touch without overlapping; the guards keep `+ 1` off the open end.
unfoldable pub adjacent : PosixLock → ℕ → ℕ → Bool
adjacent l start end =
    (not (l.end == lock_eof) && (l.end + 1 == start))
    || (not (end == lock_eof) && (end + 1 == l.start))

abbrev pub is_unlock : LockKind → Bool
is_unlock unlock = true
is_unlock _ = false

abbrev pub wants_exclusive : LockKind → Bool
wants_exclusive exclusive = true
wants_exclusive _ = false

abbrev pub bool_eq : Bool → Bool → Bool
bool_eq true b = b
bool_eq false b = not b

unfoldable pub blocks : LockRequest → PosixLock → Bool
unfolding overlaps
blocks req l =
    not (text_eq l.owner req.owner)
    && overlaps l req.start req.end
    && (l.is_exclusive || wants_exclusive req.kind)

-- The first lock of another owner that refuses the request.
unfoldable pub find_conflict : LockRequest → List PosixLock → Option PosixLock
find_conflict req [] = none
find_conflict req (l ∷ ls) =
    let rest = find_conflict req ls in if blocks req l then some l else rest

unfoldable pub mine : LockRequest → List PosixLock → List PosixLock
mine req = retain (λ l. text_eq l.owner req.owner)

-- Whether one lock widens the range: the test of the inner loop.
unfoldable pub widens : Bool → PosixLock → ℕ → ℕ → Bool
unfolding overlaps adjacent
widens want l ns ne =
    bool_eq l.is_exclusive want
    && (overlaps l ns ne || adjacent l ns ne)
    && (ltb l.start ns || ltb ne l.end)

-- The body of `for l in &mine`: the range, and whether it grew.
unfoldable pub grow_row : Bool → PosixLock → ℕ × ℕ × Bool → ℕ × ℕ × Bool
grow_row want l (ns, ne, grew) =
    if widens want l ns ne then (min ns l.start, max ne l.end, true) else (ns, ne, grew)

-- One pass over the owner's rows.
unfoldable pub grow_pass : Bool → List PosixLock → ℕ × ℕ × Bool → ℕ × ℕ × Bool
grow_pass want [] s = s
grow_pass want (l ∷ ls) s = grow_pass want ls (grow_row want l s)

-- The `loop` around the pass. It is given one round of fuel more than the owner has rows.
unfoldable pub grow : ℕ → Bool → List PosixLock → ℕ → ℕ → ℕ × ℕ
grow zero want ls ns ne = (ns, ne)
grow (suc fuel) want ls ns ne =
    let (ns', ne', grew) = grow_pass want ls (ns, ne, false) in
    let rest = grow fuel want ls ns' ne' in if grew then rest else (ns', ne')

unfoldable pub widened : LockRequest → List PosixLock → ℕ × ℕ
widened req ls =
    let grown = grow (suc (length ls)) (wants_exclusive req.kind) ls req.start req.end in
    if is_unlock req.kind then (req.start, req.end) else grown

unfoldable pub absorbed : LockRequest → ℕ → ℕ → PosixLock → Bool
absorbed req ns ne l =
    not (is_unlock req.kind)
    && bool_eq l.is_exclusive (wants_exclusive req.kind)
    && overlaps l ns ne

-- What is left of a replaced row on either side of the request.
unfoldable pub left_of : LockRequest → PosixLock → List PosixLock
left_of req l = if ltb l.start req.start then record l { end = req.start - 1 } ∷ [] else []

unfoldable pub right_of : LockRequest → PosixLock → List PosixLock
right_of req l = if ltb req.end l.end then record l { start = req.end + 1 } ∷ [] else []

unfoldable pub remainders : LockRequest → PosixLock → List PosixLock
remainders req l = left_of req l ++ right_of req l

-- The body of the loop over the owner's rows, over what the rows behind this one add.
unfoldable pub edit_row :
    LockRequest
    → ℕ
    → ℕ
    → PosixLock
    → List (Text × ℕ) × List PosixLock
    → List (Text × ℕ) × List PosixLock
edit_row req ns ne l (deletes, inserts) =
    if not (absorbed req ns ne l) && not (overlaps l req.start req.end)
    then (deletes, inserts)
    else if absorbed req ns ne l
    then ((l.owner, l.start) ∷ deletes, inserts)
    else ((l.owner, l.start) ∷ deletes, remainders req l ++ inserts)

-- What the loop collects: the keys to delete and the rows to insert.
unfoldable pub edits : LockRequest → ℕ → ℕ → List PosixLock → List (Text × ℕ) × List PosixLock
edits req ns ne [] = ([], [])
edits req ns ne (l ∷ ls) = edit_row req ns ne l (edits req ns ne ls)

unfoldable pub granted_row : LockRequest → ℕ → ℕ → PosixLock
granted_row req ns ne = record {
  owner = req.owner;
  holder = req.holder;
  pid = req.pid;
  start = ns;
  end = ne;
  is_exclusive = wants_exclusive req.kind;
}

-- The lock that refuses the request; unlocking never conflicts.
unfoldable pub blocker : List PosixLock → LockRequest → Option PosixLock
blocker existing req = if is_unlock req.kind then none else find_conflict req existing

-- The edit of a request that nothing refuses.
unfoldable pub grant : List PosixLock → LockRequest → Resolution
grant existing req =
    let own = mine req existing in
    let (ns, ne) = widened req own in
    let (deletes, inserts) = edits req ns ne own in
    record {
      conflict = none;
      to_delete = deletes;
      to_insert = inserts ++ (if is_unlock req.kind then [] else granted_row req ns ne ∷ []);
    }

unfoldable pub resolve : List PosixLock → LockRequest → Resolution
resolve existing req = elim (blocker existing req) [
  | some l ↦ record { conflict = some l; to_delete = []; to_insert = [] }
  | none ↦ grant existing req
]

-- `(&a.owner, a.start).cmp(&(&b.owner, b.start))` puts `a` behind `b`.
unfoldable pub sorts_after : PosixLock → PosixLock → Bool
sorts_after a b = text_lt b.owner a.owner || (text_eq b.owner a.owner && ltb b.start a.start)

unfoldable pub insert_sorted : PosixLock → List PosixLock → List PosixLock
insert_sorted x [] = x ∷ []
insert_sorted x (y ∷ ys) =
    let rest = insert_sorted x ys in if sorts_after x y then y ∷ rest else x ∷ y ∷ ys

-- The stable sort of `Vec::sort_by`.
unfoldable pub sort_locks : List PosixLock → List PosixLock
sort_locks [] = []
sort_locks (x ∷ xs) = insert_sorted x (sort_locks xs)

unfoldable pub is_deleted : List (Text × ℕ) → PosixLock → Bool
is_deleted keys l = any_of (λ k. text_eq k.0 l.owner && (k.1 == l.start)) keys

unfoldable pub apply : List PosixLock → Resolution → List PosixLock
apply locks res = elim res.conflict [
  | some _ ↦ locks
  | none ↦ sort_locks (retain (λ l. not (is_deleted res.to_delete l)) locks ++ res.to_insert)
]

-- `check_state`: no inverted range, and no two overlapping ranges of one owner.
unfoldable pub clashes : PosixLock → PosixLock → Bool
unfolding overlaps
clashes a b = text_eq a.owner b.owner && overlaps a b.start b.end

unfoldable pub no_clash : List PosixLock → Bool
no_clash [] = true
no_clash (a ∷ rest) = not (any_of (clashes a) rest) && no_clash rest

unfoldable pub check_state : List PosixLock → Bool
check_state locks = not (any_of (λ l. ltb l.end l.start) locks) && no_clash locks

-- `held_at`: whether the owner holds the byte, and exclusively if so.
unfoldable pub held_at : List PosixLock → Text → ℕ → Option Bool
held_at [] owner byte = none
held_at (l ∷ ls) owner byte =
    let rest = held_at ls owner byte in
    if text_eq l.owner owner && leb l.start byte && leb byte l.end
    then some l.is_exclusive
    else rest

-- `test`: the answer of `getlk`.
unfoldable pub test : List PosixLock → LockRequest → Option PosixLock
test existing req = (resolve existing req).conflict
