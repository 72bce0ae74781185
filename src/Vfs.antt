-- ===== src/Vfs.antt =====
-- crates/origofs-core/src/vfs.rs and stats.rs: reading, writing, resizing and allocating the body of
-- one inode, with the quota and the compare-and-set on the inode row (sqlite.rs). Of an inode, the
-- content address and the size; times, mode, links and the file's kind have no part here.
pub mod Attempts
pub mod Settled
pub mod Bytes
pub mod Plans
pub mod Changes
mod Examples
use origofs.Base.{
  ℕ, zero, suc, ◌+◌, ◌-◌, ◌*◌, ◌^◌, ◌%◌, min, max, Bool, true, false, not, ◌||◌, List, [], ◌∷◌,
  Option, none, some, text_eq, leb, ltb, ◌==◌, if◌then◌else◌, length, err, ok, ◌>>=◌, ◌>>◌, guard,
  ok_or,
}
use origofs.Errors.{Outcome, too_large, not_found, conflict}
use origofs.ObjectGraph.{Hash}
use origofs.Chunk.{ChunkRef, Manifest}
use origofs.Body.{BodyCalls, fits, saturating_add, load_manifest, read_range, zero_chunks}
use origofs.Body.Edits.{splice_body, resize_body, replace_range}

pub record Inode : Type 0 where
  pub content : Option Hash
  pub size : ℕ

-- The state of the content store, and the inode table.
pub record World (S : Type 0) : Type 0 where
  pub contents : S
  pub inodes : ℕ → Option Inode

pub record Usage : Type 0 where
  pub inodes : ℕ
  pub bytes : ℕ

pub record Quota : Type 0 where
  pub bytes : Option ℕ
  pub inodes : Option ℕ

unfoldable pub is_unlimited : Quota → Bool
is_unlimited q = elim q.bytes [
  | some n ↦ false
  | none ↦ elim q.inodes [ some n ↦ false | none ↦ true ]
]

unfoldable pub within_limit : Option ℕ → ℕ → ℕ → Bool
within_limit none used add = true
within_limit (some limit) used add = leb (saturating_add used add) limit

unfoldable pub check_quota : Quota → Usage → ℕ → ℕ → Outcome (Unit {0})
unfolding is_unlimited within_limit
check_quota q used add_bytes add_inodes = if is_unlimited q then ok tt else (do
  guard (within_limit q.bytes used.bytes add_bytes) too_large
  guard (within_limit q.inodes used.inodes add_inodes) too_large)

unfoldable pub check_quota_delta : Quota → Usage → Option ℕ → ℕ → Outcome (Unit {0})
unfolding check_quota
check_quota_delta q used none new_size = check_quota q used new_size 1
check_quota_delta q used (some old) new_size = check_quota q used (new_size - old) 0

-- The manifest that an edit starts from: `Manifest::default()` for a file without content.
abbrev pub no_manifest : Manifest
no_manifest = record { size = 0; chunks = [] }

unfoldable pub same_content : Option Hash → Option Hash → Bool
same_content none none = true
same_content (some a) (some b) = text_eq a b
same_content _ _ = false

pub data AllocateMode : Type 0 where
  allocate keep_size punch_hole zero_range : AllocateMode

unfoldable pub is_keep_size : AllocateMode → Bool
is_keep_size keep_size = true
is_keep_size _ = false

-- The calls of these operations, the limits of the workspace and what a world uses of them. `meanwhile`
-- is what everybody else does in an attempt between its reads and the reads of the quota's check, and
-- `others` between those and its transaction, both by the number of attempts that are left.
pub record VfsCalls (S : Type 0) : Type 0 where
  pub body : BodyCalls S
  pub quota : Quota
  pub usage : World S → Usage
  pub meanwhile : ℕ → World S → World S
  pub others : ℕ → World S → World S

module _ {S : Type 0} where
  -- `UPDATE inode SET content_hash, size WHERE ino = .. AND content_hash IS ..`, and whether a row
  -- was changed.
  unfoldable pub set_inode : ℕ → Inode → World S → World S
  set_inode ino n w = record {
    contents = w.contents;
    inodes = λ j. if j == ino then some n else w.inodes j;
  }

  unfoldable pub set_content_if : World S → ℕ → Option Hash → Option Hash → ℕ → Bool × World S
  unfolding set_inode same_content
  set_content_if w ino expected content size = elim (w.inodes ino) [
    | none ↦ (false, w)
    | some n ↦
        if same_content n.content expected
        then (true, set_inode ino (record { content = content; size = size }) w)
        else (false, w)
  ]

  unfoldable pub old_size : World S → ℕ → Option ℕ
  old_size w ino = elim (w.inodes ino) [ none ↦ none | some n ↦ some (n.size) ]

  unfoldable pub vfs_getattr : World S → ℕ → Outcome Inode
  vfs_getattr w ino = ok_or (w.inodes ino) not_found

unfoldable pub vfs_cas_attempts : ℕ
vfs_cas_attempts = 16

unfoldable pub write_plan : ℕ → List ℕ → Manifest → Outcome (Option ℕ)
write_plan off bytes base = do
  guard (fits (off + length bytes)) too_large
  ok (some (max base.size (off + length bytes)))

-- `allocate` behind its first checks: the size to expect, or nothing to do.
unfoldable pub allocate_plan : AllocateMode → ℕ → ℕ → Manifest → Outcome (Option ℕ)
allocate_plan keep_size off end base = ok none
allocate_plan allocate off end base = ok (if leb end base.size then none else some end)
allocate_plan punch_hole off end base =
    let stop = min end base.size in ok (if leb stop off then none else some (max base.size stop))
allocate_plan zero_range off end base = ok (if leb end off then none else some (max base.size end))

module _ {S : Type 0} (calls : VfsCalls S) where
  unfoldable pub base_of : S → Option Hash → Outcome Manifest
  unfolding load_manifest
  base_of s none = ok no_manifest
  base_of s (some h) = load_manifest calls.body s h

  unfoldable pub check_quota_for_ino : World S → ℕ → ℕ → Outcome (Unit {0})
  unfolding check_quota_delta is_unlimited old_size
  check_quota_for_ino w ino new_size =
      if is_unlimited calls.quota
      then ok tt
      else (check_quota_delta calls.quota (calls.usage w) (old_size w ino) new_size)

  unfoldable pub vfs_read : World S → ℕ → ℕ → ℕ → Outcome (List ℕ)
  unfolding vfs_getattr load_manifest read_range
  vfs_read w ino off size = do
    inode ← vfs_getattr w ino
    elim inode.content [
      | none ↦ ok []
      | some h ↦ do
        m ← load_manifest calls.body w.contents h
        read_range calls.body w.contents m off size
    ]

  -- The end of an attempt: the quota is asked about the new size, the body is edited, and the row
  -- is set if it still has the content that was read. The flag tells whether it had.
  unfoldable pub commit_edit :
      (S → Manifest → Outcome ((Option Hash × ℕ) × S))
      → ℕ
      → World S
      → ℕ
      → Inode
      → Manifest
      → ℕ
      → Outcome (Bool × World S)
  unfolding check_quota_for_ino set_content_if
  commit_edit edit left w ino inode base new_size = do
    let seen = calls.meanwhile left w
    check_quota_for_ino seen ino new_size
    ((mhash, size), s) ← edit seen.contents base
    let now = calls.others left (record { contents = s; inodes = seen.inodes })
    ok (set_content_if now ino inode.content mhash size)

  -- One attempt at a change: the inode and its manifest are read, and `plan` tells which size to
  -- expect, or that there is nothing to do.
  unfoldable pub change_attempt :
      (Manifest → Outcome (Option ℕ))
      → (S → Manifest → Outcome ((Option Hash × ℕ) × S))
      → ℕ
      → World S
      → ℕ
      → Outcome (Bool × World S)
  unfolding vfs_getattr base_of commit_edit
  change_attempt plan edit left w ino = do
    inode ← vfs_getattr w ino
    base ← base_of w.contents inode.content
    expected ← plan base
    elim expected [
      | none ↦ ok (true, w)
      | some new_size ↦ commit_edit edit left w ino inode base new_size
    ]

  -- `for _ in 0..VFS_CAS_ATTEMPTS`, and the error behind it.
  unfoldable pub change_loop :
      (Manifest → Outcome (Option ℕ))
      → (S → Manifest → Outcome ((Option Hash × ℕ) × S))
      → ℕ
      → World S
      → ℕ
      → Outcome (World S)
  unfolding change_attempt
  change_loop plan edit zero w ino = err conflict
  change_loop plan edit (suc left) w ino = do
    (won, t) ← change_attempt plan edit left w ino
    let rest = change_loop plan edit left t ino
    if won then ok t else rest

  unfoldable pub vfs_write : World S → ℕ → ℕ → List ℕ → Outcome (ℕ × World S)
  unfolding change_loop write_plan splice_body vfs_cas_attempts
  vfs_write w ino off bytes = do
    let edit = λ (s : S) (m : Manifest). splice_body calls.body s m off bytes
    t ← change_loop (write_plan off bytes) edit vfs_cas_attempts w ino
    ok (length bytes % 2 ^ 32, t)

  unfoldable pub vfs_truncate : World S → ℕ → ℕ → Outcome (World S)
  unfolding change_loop resize_body vfs_cas_attempts
  vfs_truncate w ino size =
      let edit = λ (s : S) (m : Manifest). resize_body calls.body s m size in
      change_loop (λ base. ok (some size)) edit vfs_cas_attempts w ino

  unfoldable pub zero_edit : ℕ → ℕ → S → Manifest → Outcome ((Option Hash × ℕ) × S)
  unfolding zero_chunks replace_range
  zero_edit off stop s base = do
    (zeros, t) ← zero_chunks calls.body s (stop - off)
    replace_range calls.body t base off zeros

  unfoldable pub allocate_edit :
      AllocateMode → ℕ → ℕ → S → Manifest → Outcome ((Option Hash × ℕ) × S)
  unfolding zero_edit resize_body
  allocate_edit punch_hole off end s base = zero_edit off (min end base.size) s base
  allocate_edit zero_range off end s base = zero_edit off end s base
  allocate_edit _ off end s base = resize_body calls.body s base end

  -- Behind `guard_write`.
  unfoldable pub vfs_allocate : World S → ℕ → ℕ → ℕ → AllocateMode → Outcome (World S)
  unfolding change_loop allocate_plan allocate_edit vfs_cas_attempts is_keep_size
  vfs_allocate w ino off len mode = do
    guard (fits (off + len)) too_large
    let run =
        change_loop (allocate_plan mode off (off + len)) (allocate_edit mode off (off + len))
          vfs_cas_attempts w ino
    if len == 0 || is_keep_size mode then ok w else run
