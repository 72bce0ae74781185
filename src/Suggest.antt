-- ===== src/Suggest.antt =====
-- crates/origofs-core/src/suggest.rs: the review queue: accepting, rejecting and superseding a
-- suggestion. A content address is a hash in place of its hex digits; the session of a suggestion and
-- the branch of an event have no part here.
pub mod Rows
pub mod Gates
pub mod Kept
pub mod Review
mod Examples
use origofs.Base.{
  ℕ, Bool, true, false, not, ◌&&◌, ◌||◌, List, [], ◌∷◌, ◌++◌, Option, none, some, Text, text_eq,
  ◌==◌, if◌then◌else◌, any_of, map, err, ok,
}
use origofs.Errors.{
  OrigofsError, Outcome, not_found, already_resolved, invalid_argument, stale_base, conflict,
  is_conflict,
}
use origofs.ObjectGraph.{Hash}
use origofs.Vfs.{same_content}

pub data SuggestionStatus : Type 0 where
  pending accepted rejected superseded : SuggestionStatus

pub data SuggestionKind : Type 0 where
  of_bytes crdt crdt_tree : SuggestionKind

pub record Suggestion : Type 0 where
  pub id : ℕ
  pub path : Text
  pub actor_id : ℕ
  pub kind : SuggestionKind
  pub base_hash : Option Hash
  pub proposed_hash : Option Hash
  pub status : SuggestionStatus
  pub resolved_by : Option ℕ

pub data EventKind : Type 0 where
  accept_event reject_event supersede_event : EventKind

pub record Event : Type 0 where
  pub kind : EventKind
  pub actor_id : ℕ
  pub suggestion : ℕ

-- The rows of the queue, the content address of each live file, and the events, the last one first.
pub record Queue : Type 0 where
  pub rows : List Suggestion
  pub files : Text → Option Hash
  pub events : List Event

unfoldable pub is_pending : SuggestionStatus → Bool
is_pending pending = true
is_pending _ = false

unfoldable pub find_suggestion : ℕ → List Suggestion → Option Suggestion
find_suggestion id [] = none
find_suggestion id (s ∷ ss) =
    let rest = find_suggestion id ss in if s.id == id then some s else rest

abbrev pub is_open : ℕ → Suggestion → Bool
is_open id s = s.id == id && is_pending s.status

-- `UPDATE suggestion SET status, resolved_by WHERE id = .. AND status = 'pending'`.
unfoldable pub resolve_rows : ℕ → SuggestionStatus → Option ℕ → List Suggestion → List Suggestion
unfolding is_pending
resolve_rows id st by [] = []
resolve_rows id st by (s ∷ ss) =
    (if is_open id s then record s { status = st; resolved_by = by } else s)
    ∷ resolve_rows id st by ss

-- Whether a row was changed, and the queue.
unfoldable pub resolve_suggestion : ℕ → SuggestionStatus → Option ℕ → Queue → Bool × Queue
unfolding resolve_rows is_pending
resolve_suggestion id st by q =
    (any_of (is_open id) q.rows, record q { rows = resolve_rows id st by q.rows })

unfoldable pub record_event : EventKind → ℕ → ℕ → Queue → Queue
record_event k actor id q = record q {
  events = record { kind = k; actor_id = actor; suggestion = id } ∷ q.events;
}

-- What a review calls: the check of a write at a path, the conditional write and the removal of a file
-- for the author, the merge of a co-edit proposal; and `others`, what everybody else does between the
-- application of a suggestion and its resolution.
pub record ReviewCalls : Type 0 where
  pub may_write : ℕ → Text → Outcome (Unit {0})
  pub write_expecting : Queue → ℕ → Text → Hash → Option Hash → Outcome Queue
  pub remove_unchecked : Queue → ℕ → Text → Outcome Queue
  pub merge_document : Queue → Suggestion → Outcome Queue
  pub others : Queue → Queue

-- `mark_superseded`, which records the outcome and gives the error to report.
unfoldable pub mark_superseded : Queue → Suggestion → Queue × Outcome (Unit {0})
unfolding resolve_suggestion record_event
mark_superseded q s = (
  record_event supersede_event s.actor_id s.id (resolve_suggestion s.id superseded none q).1,
  err stale_base,
)

-- A call that leaves the queue as it is where it fails.
unfoldable pub or_unchanged : Queue → Outcome Queue → Queue × Outcome (Unit {0})
or_unchanged q (err e) = (q, err e)
or_unchanged q (ok t) = (t, ok tt)

unfoldable pub or_superseded : Queue → Suggestion → Outcome Queue → Queue × Outcome (Unit {0})
unfolding mark_superseded
or_superseded q s (ok t) = (t, ok tt)
or_superseded q s (err e) = if is_conflict e then mark_superseded q s else (q, err e)

unfoldable pub supersede_one : Option Hash → ℕ → Suggestion → Queue → Queue
unfolding resolve_suggestion record_event
supersede_one current except s q = elim s.kind [
  | of_bytes ↦
      let done = resolve_suggestion s.id superseded none q in
      if s.id == except || same_content s.base_hash current
      then q
      else if done.0
      then record_event supersede_event s.actor_id s.id done.1
      else done.1
  | crdt ↦ q
  | crdt_tree ↦ q
]

-- The loop of `supersede_stale_byte_suggestions`, over the rows that were listed.
unfoldable pub supersede_loop : Option Hash → Text → ℕ → List Suggestion → Queue → Queue
unfolding supersede_one is_pending
supersede_loop current path except [] q = q
supersede_loop current path except (s ∷ ss) q =
    supersede_loop current path except ss
      (if is_pending s.status && text_eq s.path path then supersede_one current except s q else q)

unfoldable pub supersede_stale : Text → ℕ → Queue → Queue
unfolding supersede_loop
supersede_stale path except q = supersede_loop (q.files path) path except q.rows q

module _ (calls : ReviewCalls) where
  unfoldable pub apply_byte_suggestion : Queue → Suggestion → Queue × Outcome (Unit {0})
  unfolding mark_superseded or_superseded or_unchanged
  apply_byte_suggestion q s =
      if not (same_content (q.files s.path) s.base_hash)
      then mark_superseded q s
      else elim s.proposed_hash [
        | some h ↦ or_superseded q s (calls.write_expecting q s.actor_id s.path h s.base_hash)
        | none ↦ or_unchanged q (calls.remove_unchecked q s.actor_id s.path)
      ]

  unfoldable pub apply_suggestion : Queue → Suggestion → Queue × Outcome (Unit {0})
  unfolding apply_byte_suggestion or_unchanged
  apply_suggestion q s = elim s.kind [
    | of_bytes ↦ apply_byte_suggestion q s
    | crdt ↦ or_unchanged q (calls.merge_document q s)
    | crdt_tree ↦ (q, err invalid_argument)
  ]

  -- The end of `accept_suggestion`, from the compare-and-set on.
  unfoldable pub conclude : Queue → Suggestion → ℕ → Queue × Outcome (Option Hash)
  unfolding resolve_suggestion record_event supersede_stale
  conclude q s approver =
      let done = resolve_suggestion s.id accepted (some approver) q in
      let t = supersede_stale s.path s.id (record_event accept_event approver s.id done.1) in
      if done.0 then (t, ok (t.files s.path)) else (done.1, err conflict)

  unfoldable pub finish :
      Suggestion → ℕ → Queue × Outcome (Unit {0}) → Queue × Outcome (Option Hash)
  unfolding conclude
  finish s approver (q, err e) = (q, err e)
  finish s approver (q, ok u) = conclude (calls.others q) s approver

  unfoldable pub accept_found : Queue → Suggestion → ℕ → Queue × Outcome (Option Hash)
  unfolding is_pending apply_suggestion finish
  accept_found q s approver =
      if not (is_pending s.status)
      then (q, err already_resolved)
      else elim (calls.may_write approver s.path) [
        | err e ↦ (q, err e)
        | ok u ↦
            if approver == s.actor_id
            then (q, err invalid_argument)
            else finish s approver (apply_suggestion q s)
      ]

  unfoldable pub accept_suggestion : Queue → ℕ → ℕ → Queue × Outcome (Option Hash)
  unfolding find_suggestion accept_found
  accept_suggestion q id approver = elim (find_suggestion id q.rows) [
    | none ↦ (q, err not_found)
    | some s ↦ accept_found q s approver
  ]

  unfoldable pub reject_found : Queue → Suggestion → ℕ → Queue × Outcome (Unit {0})
  unfolding resolve_suggestion record_event
  reject_found q s approver =
      let done = resolve_suggestion s.id rejected (some approver) (calls.others q) in
      if done.0
      then (record_event reject_event approver s.id done.1, ok tt)
      else (done.1, err conflict)

  unfoldable pub reject_suggestion : Queue → ℕ → ℕ → Queue × Outcome (Unit {0})
  unfolding find_suggestion reject_found is_pending
  reject_suggestion q id approver = elim (find_suggestion id q.rows) [
    | none ↦ (q, err not_found)
    | some s ↦
        if not (is_pending s.status)
        then (q, err already_resolved)
        else if approver == s.actor_id
        then reject_found q s approver
        else elim (calls.may_write approver s.path) [
          | err e ↦ (q, err e)
          | ok u ↦ reject_found q s approver
        ]
  ]

  unfoldable pub replaceable_suggestion_anywhere : Queue → ℕ → ℕ → Outcome Suggestion
  unfolding find_suggestion is_pending
  replaceable_suggestion_anywhere q id actor = elim (find_suggestion id q.rows) [
    | none ↦ err not_found
    | some s ↦
        if not (is_pending s.status)
        then err already_resolved
        else if actor == s.actor_id
        then ok s
        else elim (calls.may_write actor s.path) [ err e ↦ err e | ok u ↦ ok s ]
  ]

  unfoldable pub supersede_found : ℕ → Queue → Outcome Suggestion → Queue × Outcome (Unit {0})
  unfolding resolve_suggestion record_event
  supersede_found actor q (err e) = (q, err e)
  supersede_found actor q (ok s) =
      let done = resolve_suggestion s.id superseded none (calls.others q) in
      if done.0
      then (record_event supersede_event actor s.id done.1, ok tt)
      else (done.1, err conflict)

  -- `supersede_suggestion`, which retires a suggestion that its author has given up.
  unfoldable pub supersede_suggestion : Queue → ℕ → ℕ → Queue × Outcome (Unit {0})
  unfolding replaceable_suggestion_anywhere supersede_found
  supersede_suggestion q id actor =
      supersede_found actor q (replaceable_suggestion_anywhere q id actor)
