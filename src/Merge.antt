-- ===== src/Merge.antt =====
-- crates/origofs-core/src/merge.rs: what a three-way merge of two trees decides for one name, and the
-- merge of one file. The stale documents that it reports besides are advice and have no part here.
pub mod Clean
mod Examples
use origofs.Base.{
  ℕ, ◌≡◌, Bool, true, false, ◌&&◌, not, Option, none, some, List, [], ◌∷◌, ◌++◌, Text, text_eq,
  codes, ◌==◌, if◌then◌else◌, ok, err, ◌>>=◌, is_utf8,
}
use origofs.Errors.{Outcome}
use origofs.Paths.{starts_with_slash, strip_prefix}
use origofs.ObjectGraph.{Hash, TreeKind, file, dir, symlink, kind_code, TreeEntry}

-- crates/origofs-core/src/engine.rs.
abbrev pub internal_dir : Text
internal_dir = codes "/.origofs"

unfoldable pub is_internal_path : Text → Bool
unfolding strip_prefix
is_internal_path path = elim (strip_prefix internal_dir path) [
  | none ↦ false
  | some [] ↦ true
  | some (c ∷ rest) ↦ starts_with_slash (c ∷ rest)
]

-- `kind`, a text in the code.
pub data ConflictKind : Type 0 where
  modify_delete delete_modify content_conflict symlink_conflict type_conflict : ConflictKind

pub record Conflict : Type 0 where
  pub path : Text
  pub kind : ConflictKind

pub record FileMerge : Type 0 where
  pub hash : Hash
  pub conflict : Bool
  pub theirs_sibling : Option Hash

-- What the merge calls: the bodies of the content store, the diff3 of the diffy crate, which answers
-- with a text and whether it has conflict markers, and the merge of two subtrees.
pub record MergeCalls : Type 0 where
  pub read_body : Hash → Outcome (List ℕ)
  pub write_body : List ℕ → Outcome Hash
  pub diff3 : Text → Text → Text → Text × Bool
  pub merge_sub : Option Hash → Hash → Hash → Text → Outcome (Hash × List Conflict)

abbrev pub same_hash : Option Hash → Hash → Bool
same_hash none h = false
same_hash (some b) h = text_eq b h

-- The end of `merge_file`, where a body is not text.
unfoldable pub merge_binary : Hash → Hash → Option Hash → FileMerge
merge_binary ours theirs base =
    if text_eq ours theirs
    then record { hash = ours; conflict = false; theirs_sibling = none }
    else if same_hash base ours
    then record { hash = theirs; conflict = false; theirs_sibling = none }
    else if same_hash base theirs
    then record { hash = ours; conflict = false; theirs_sibling = none }
    else record { hash = ours; conflict = true; theirs_sibling = some theirs }

unfoldable pub base_body : MergeCalls → Option Hash → Outcome (List ℕ)
base_body calls none = ok []
base_body calls (some h) = calls.read_body h

merge_text : MergeCalls → Text × Bool → Outcome FileMerge
merge_text calls (body, conflict) = do
  h ← calls.write_body body
  ok (record { hash = h; conflict = conflict; theirs_sibling = none })

unfoldable pub merge_file : MergeCalls → Hash → Hash → Option Hash → Outcome FileMerge
unfolding base_body merge_text merge_binary is_utf8
merge_file calls ours theirs base = do
  ours_b ← calls.read_body ours
  theirs_b ← calls.read_body theirs
  base_b ← base_body calls base
  if is_utf8 base_b && is_utf8 ours_b && is_utf8 theirs_b
      then merge_text calls (calls.diff3 base_b ours_b theirs_b)
      else ok (merge_binary ours theirs base)

-- The derived `==` of `TreeEntry`.
unfoldable pub entry_eq : TreeEntry → TreeEntry → Bool
unfolding kind_code
entry_eq a b =
    text_eq a.name b.name
    && (a.mode == b.mode)
    && (kind_code a.kind == kind_code b.kind)
    && text_eq a.hash b.hash

-- `b == Some(e)`.
abbrev pub is_base : Option TreeEntry → TreeEntry → Bool
is_base none e = false
is_base (some b) e = entry_eq b e

-- `b.filter(|e| e.kind == kind).map(|e| e.hash)`.
unfoldable pub base_of_kind : TreeKind → Option TreeEntry → Option Hash
unfolding kind_code
base_of_kind k none = none
base_of_kind k (some b) = if kind_code b.kind == kind_code k then some b.hash else none

abbrev pub Merged : Type 0
Merged = List TreeEntry × List Conflict

-- The arms for a name that one side lacks; `kind` is the conflict's if that side deleted what this one
-- changed.
unfoldable pub merge_one : Bool → Text → ConflictKind → Option TreeEntry → TreeEntry → Merged
merge_one internal path kind none e = (e ∷ [], [])
merge_one internal path kind (some b) e =
    if entry_eq b e
    then ([], [])
    else if internal
    then (e ∷ [], [])
    else (e ∷ [], record { path = path; kind = kind } ∷ [])

theirs_entry : Text → TreeEntry → Option Hash → List TreeEntry
theirs_entry name te none = []
theirs_entry name te (some sib) =
    record { name = name ++ codes ".theirs"; mode = te.mode; kind = file; hash = sib } ∷ []

merged_file : Text → Text → TreeEntry → TreeEntry → FileMerge → Merged
unfolding theirs_entry
merged_file path name oe te fm = (
  record { name = name; mode = oe.mode; kind = file; hash = fm.hash }
      ∷ theirs_entry name te fm.theirs_sibling,
  if fm.conflict then record { path = path; kind = content_conflict } ∷ [] else [],
)

merged_dir : Text → TreeEntry → Hash × List Conflict → Merged
merged_dir name oe (sub, conflicts) =
    (record { name = name; mode = oe.mode; kind = dir; hash = sub } ∷ [], conflicts)

are_both : TreeKind → TreeEntry → TreeEntry → Bool
unfolding kind_code
are_both k oe te = (kind_code oe.kind == kind_code k) && (kind_code te.kind == kind_code k)

-- Both sides changed the name, each in its own way.
unfoldable pub merge_changed :
    MergeCalls → Bool → Text → Text → Option TreeEntry → TreeEntry → TreeEntry → Outcome Merged
unfolding merge_file base_of_kind merged_file merged_dir are_both
merge_changed calls internal path name b oe te =
    if are_both dir oe te
    then calls.merge_sub (base_of_kind dir b) oe.hash te.hash path
      >>= (λ sub. ok (merged_dir name oe sub))
    else if internal
    then ok (oe ∷ [], [])
    else if are_both file oe te
    then merge_file calls oe.hash te.hash (base_of_kind file b)
      >>= (λ fm. ok (merged_file path name oe te fm))
    else if are_both symlink oe te
    then ok (oe ∷ [], record { path = path; kind = symlink_conflict } ∷ [])
    else ok (oe ∷ [], record { path = path; kind = type_conflict } ∷ [])

-- The body of the loop of `merge_trees`, for one name that a side has.
unfoldable pub merge_name :
    MergeCalls
    → Text
    → Text
    → Option TreeEntry
    → Option TreeEntry
    → Option TreeEntry
    → Outcome Merged
unfolding merge_one merge_changed is_internal_path entry_eq
merge_name calls path name b none none = ok ([], [])
merge_name calls path name b (some oe) none =
    ok (merge_one (is_internal_path path) path modify_delete b oe)
merge_name calls path name b none (some te) =
    ok (merge_one (is_internal_path path) path delete_modify b te)
merge_name calls path name b (some oe) (some te) =
    let changed = merge_changed calls (is_internal_path path) path name b oe te in
    if entry_eq oe te
    then ok (oe ∷ [], [])
    else if is_base b oe
    then ok (te ∷ [], [])
    else if is_base b te
    then ok (oe ∷ [], [])
    else changed
