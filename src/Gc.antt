-- ===== src/Gc.antt =====
-- crates/origofs-core/src/gc.rs: the collection of objects that nothing refers to. The set of marks is
-- a list of hashes without repetitions.
pub mod Marks
pub mod Walk
pub mod Roots
pub mod Fuel
pub mod Finish
pub mod Sweep
pub mod Clash
mod Examples
use origofs.Base.{
  ℕ, zero, suc, ◌+◌, ◌-◌, Bool, true, false, not, ◌&&◌, ◌||◌, List, [], ◌∷◌, ◌++◌, Option, none,
  some, Text, text_eq, leb, ltb, ◌==◌, if◌then◌else◌, length, any_of, retain, map, Result, err, ok,
  ◌>>=◌, ◌>>◌, guard,
}
use origofs.Errors.{OrigofsError, Outcome, invalid_argument, conflict}
use origofs.ObjectGraph.{
  Hash, Tree, TreeEntry, TreeKind, file, dir, symlink, Commit, decode_tree, decode_commit,
}
use origofs.Chunk.{ChunkRef, Manifest, decode_manifest}

abbrev pub Marked : Type 0
Marked = List Hash

-- `marked.contains`.
abbrev pub has : Hash → Marked → Bool
has h m = any_of (text_eq h) m

-- `marked.insert`.
abbrev pub insert : Hash → Marked → Marked
insert h m = if has h m then m else h ∷ m

abbrev pub insert_option : Option Hash → Marked → Marked
insert_option none m = m
insert_option (some h) m = insert h m

-- Why a mark phase stops: an error of the store, or the fuel of the model.
pub data Stop : Type 0 where
  failed : OrigofsError → Stop
  out_of_fuel : Stop

abbrev pub Marking : Type 0
Marking = Result Stop Marked

abbrev pub lift : {A : Type 0} → Outcome A → Result Stop A
lift (err e) = err (failed e)
lift (ok a) = ok a

unfoldable pub insert_chunks : List ChunkRef → Marked → Marked
insert_chunks [] m = m
insert_chunks (c ∷ cs) m = insert_chunks cs (insert c.hash m)

-- The live files below a directory, as the tree that the dentry table spells out: a directory and
-- what follows it, a file with its content, a symlink.
pub data WorkingTree : Type 0 where
  done : WorkingTree
  dir_entry : WorkingTree → WorkingTree → WorkingTree
  file_entry : Option Hash → WorkingTree → WorkingTree
  symlink_entry : WorkingTree → WorkingTree

pub record TrashEntry : Type 0 where
  pub deleted_at : ℕ
  pub content_hash : Option Hash

-- What the collection reads of a workspace. A ref is the hash that its value spells, a symbolic one
-- none; of a pending suggestion, the base and the proposed hash.
pub record Workspace : Type 0 where
  pub refs : List (Option Hash)
  pub working : WorkingTree
  pub suggestions : List (Option Hash × Option Hash)
  pub mirror : Option Hash
  pub retention : Option ℕ
  pub trash : List TrashEntry

-- `purge_trash_before(now - secs)` where a retention is set.
unfoldable pub purge : ℕ → Workspace → Workspace
purge now ws = elim ws.retention [
  | none ↦ ws
  | some secs ↦
      if secs == 0
      then ws
      else record ws { trash = retain (λ t. leb (now - secs) t.deleted_at) ws.trash }
]

abbrev pub some_of : Option Hash → List Hash
some_of none = []
some_of (some h) = h ∷ []

unfoldable pub hashes_of : List (Option Hash) → List Hash
hashes_of [] = []
hashes_of (h ∷ hs) = some_of h ++ hashes_of hs

unfoldable pub suggested : List (Option Hash × Option Hash) → List Hash
suggested [] = []
suggested ((base, proposed) ∷ ss) = some_of base ++ (some_of proposed ++ suggested ss)

unfoldable pub working_files : WorkingTree → List Hash
working_files done = []
working_files (dir_entry below rest) = working_files below ++ working_files rest
working_files (file_entry content rest) = some_of content ++ working_files rest
working_files (symlink_entry rest) = working_files rest

unfoldable pub trashed : List TrashEntry → List Hash
trashed [] = []
trashed (t ∷ ts) = some_of t.content_hash ++ trashed ts

-- `trash_content_hashes`, which reads the entries of every workspace.
unfoldable pub trash_content_hashes : List Workspace → List Hash
unfolding trashed
trash_content_hashes [] = []
trash_content_hashes (ws ∷ wss) = trashed ws.trash ++ trash_content_hashes wss

module _ (get : Hash → Outcome (List ℕ)) where
  unfoldable pub commit_object : Hash → Outcome Commit
  commit_object h = do bytes ← get h; decode_commit bytes

  unfoldable pub tree_object : Hash → Outcome Tree
  tree_object h = do bytes ← get h; decode_tree bytes

  unfoldable pub manifest_object : Hash → Outcome Manifest
  manifest_object h = do bytes ← get h; decode_manifest bytes

  unfoldable pub mark_manifest : Hash → Marked → Marking
  unfolding manifest_object insert_chunks
  mark_manifest h m =
      if has h m
      then ok m
      else (do f ← lift (manifest_object h); ok (insert_chunks f.chunks (h ∷ m)))

  -- A loop that marks one hash after the other.
  unfoldable pub mark_each : (Hash → Marked → Marking) → List Hash → Marked → Marking
  mark_each mark [] m = ok m
  mark_each mark (h ∷ hs) m = do m1 ← mark h m; mark_each mark hs m1

  unfoldable pub mark_entry : (Hash → Marked → Marking) → TreeEntry → Marked → Marking
  unfolding mark_manifest
  mark_entry mark_sub e m = elim e.kind [
    | dir ↦ mark_sub e.hash m
    | file ↦ mark_manifest e.hash m
    | symlink ↦ ok (insert e.hash m)
  ]

  unfoldable pub mark_entries : (Hash → Marked → Marking) → List TreeEntry → Marked → Marking
  unfolding mark_entry
  mark_entries mark_sub [] m = ok m
  mark_entries mark_sub (e ∷ es) m = do m1 ← mark_entry mark_sub e m; mark_entries mark_sub es m1

  unfoldable pub mark_tree : ℕ → Hash → Marked → Marking
  unfolding tree_object mark_entries
  mark_tree zero h m = err out_of_fuel
  mark_tree (suc n) h m =
      let rest = (do t ← lift (tree_object h); mark_entries (mark_tree n) t.entries (h ∷ m)) in
      if has h m then ok m else rest

  unfoldable pub mark_commit : ℕ → Hash → Marked → Marking
  unfolding commit_object mark_tree mark_each
  mark_commit zero h m = err out_of_fuel
  mark_commit (suc n) h m =
      let rest = (do
        c ← lift (commit_object h)
        m1 ← mark_tree n c.tree (h ∷ m)
        mark_each (mark_commit n) c.parents m1) in
      if has h m then ok m else rest

  -- The roots of one workspace; `trash` are the trashed bodies of all of them.
  unfoldable pub mark_workspace : ℕ → List Hash → Workspace → Marked → Marking
  unfolding mark_commit mark_manifest mark_each hashes_of working_files suggested
  mark_workspace n trash ws m = do
    m1 ← mark_each (mark_commit n) (hashes_of ws.refs) m
    m2 ← mark_each mark_manifest (working_files ws.working) m1
    m3 ← mark_each mark_manifest (suggested ws.suggestions) m2
    mark_each mark_manifest trash (insert_option ws.mirror m3)

  unfoldable pub mark_workspaces : ℕ → List Hash → List Workspace → Marked → Marking
  unfolding mark_workspace
  mark_workspaces n trash [] m = ok m
  mark_workspaces n trash (ws ∷ wss) m = do
    m1 ← mark_workspace n trash ws m
    mark_workspaces n trash wss m1

  -- The first half of `gc_locked`.
  unfoldable pub mark_all : ℕ → ℕ → List Workspace → Marking
  unfolding mark_workspaces trash_content_hashes purge
  mark_all n now wss =
      let kept = map (purge now) wss in mark_workspaces n (trash_content_hashes kept) kept []

-- An object of the content store, with its age where the backend can tell it.
pub record Object : Type 0 where
  pub hash : Hash
  pub size : ℕ
  pub age : Option ℕ

pub record GcStats : Type 0 where
  pub reachable : ℕ
  pub deleted : ℕ
  pub bytes_freed : ℕ
  pub skipped_young : ℕ
  pub skipped_undated : ℕ

unfoldable pub find_object : Hash → List Object → Option Object
find_object h [] = none
find_object h (o ∷ os) = let rest = find_object h os in if text_eq h o.hash then some o else rest

-- `Some(age) if age >= min_age`.
abbrev pub old_enough : ℕ → Option ℕ → Bool
old_enough grace none = false
old_enough grace (some a) = leb grace a

abbrev pub age_in : Option Object → Option ℕ
age_in none = none
age_in (some o) = o.age

abbrev pub size_in : Option Object → ℕ
size_in none = 0
size_in (some o) = o.size

-- The freed bytes, where the object was deleted.
unfoldable pub delete_if_older_than : Hash → ℕ → List Object → Option ℕ × List Object
unfolding find_object
delete_if_older_than h grace os =
    let o = find_object h os in
    if grace == 0 || old_enough grace (age_in o)
    then (some (size_in o), retain (λ p. not (text_eq h p.hash)) os)
    else (none, os)

unfoldable pub count_deletion : GcStats → Option ℕ → GcStats
count_deletion s (some freed) = record s {
  deleted = s.deleted + 1;
  bytes_freed = s.bytes_freed + freed;
}
count_deletion s none = record s { skipped_young = s.skipped_young + 1 }

-- One round of the sweep, for an object with the age that it had when the store was listed.
unfoldable pub sweep_one :
    ℕ → Marked → Hash → Option ℕ → GcStats × List Object → GcStats × List Object
unfolding delete_if_older_than count_deletion
sweep_one grace marked h age (s, os) = if has h marked then (s, os) else elim age [
  | none ↦ (record s { skipped_undated = s.skipped_undated + 1 }, os)
  | some secs ↦
      let done = delete_if_older_than h grace os in
      if leb grace secs
      then (count_deletion s done.0, done.1)
      else (record s { skipped_young = s.skipped_young + 1 }, os)
]

unfoldable pub sweep :
    ℕ → Marked → List (Hash × Option ℕ) → GcStats × List Object → GcStats × List Object
unfolding sweep_one
sweep grace marked [] st = st
sweep grace marked ((h, age) ∷ listed) st =
    sweep grace marked listed (sweep_one grace marked h age st)

abbrev pub no_stats : ℕ → GcStats
no_stats n = record {
  reachable = n;
  deleted = 0;
  bytes_freed = 0;
  skipped_young = 0;
  skipped_undated = 0;
}

-- The collection under its lease: `listed` are the ages that the store lists before the sweep, and
-- `os` its objects, with their ages when they are to be deleted.
unfoldable pub gc_locked :
    (Hash → Outcome (List ℕ))
    → ℕ
    → ℕ
    → ℕ
    → List Workspace
    → List (Hash × Option ℕ)
    → List Object
    → Result Stop (GcStats × List Object)
unfolding mark_all sweep
gc_locked get n now grace wss listed os = do
  marked ← mark_all get n now wss
  ok (sweep grace marked listed (no_stats (length marked), os))

abbrev pub dedup_refresh_after_secs : ℕ
dedup_refresh_after_secs = 60

abbrev pub gc_lease_secs : ℕ
gc_lease_secs = 3600

-- The row of the lease: the owner and when it was acquired.
abbrev pub Lease : Type 0
Lease = Option (Text × ℕ)

-- The first half of `gc_with_grace_unchecked`: the lease that this collection holds.
unfoldable pub take_lease : ℕ → Text → Lease → Outcome Lease
take_lease now owner none = ok (some (owner, now))
take_lease now owner (some (holder, at)) =
    if ltb gc_lease_secs (now - at) then ok (some (owner, now)) else err conflict

-- What a collection leaves: its answer, the lease and the objects.
pub record GcRun : Type 0 where
  pub answer : Result Stop GcStats
  pub lease : Lease
  pub objects : List Object

unfoldable pub run_locked : Result Stop (GcStats × List Object) → List Object → GcRun
run_locked (err e) os = record { answer = err e; lease = none; objects = os }
run_locked (ok (s, left)) os = record { answer = ok s; lease = none; objects = left }

unfoldable pub gc_with_grace :
    (Hash → Outcome (List ℕ))
    → ℕ
    → ℕ
    → Text
    → ℕ
    → List Workspace
    → List (Hash × Option ℕ)
    → Lease
    → List Object
    → GcRun
unfolding gc_locked take_lease run_locked
gc_with_grace get n now owner grace wss listed lease os =
    if ltb 0 grace && ltb grace dedup_refresh_after_secs
    then record { answer = err (failed invalid_argument); lease = lease; objects = os }
    else elim (take_lease now owner lease) [
      | err e ↦ record { answer = err (failed e); lease = lease; objects = os }
      | ok held ↦ run_locked (gc_locked get n now grace wss listed os) os
    ]
