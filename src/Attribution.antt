-- ===== src/Attribution.antt =====
-- crates/origofs-core/src/attribution.rs: the byte-range authorship of a file, and what a write makes
-- of it.
pub mod Runs
pub mod Windows
pub mod Lockstep
mod Examples
use origofs.Base.{
  ℕ, zero, suc, ◌+◌, ◌-◌, min, max, Bool, true, false, ◌&&◌, not, Option, none, some, List, [], ◌∷◌,
  ◌++◌, Text, text_eq, leb, ltb, ◌==◌, if◌then◌else◌, length, any_of, is_utf8,
}
use origofs.Paths.{trim}

-- A span `(actor, session, len)` and a `BlameRun` hold the same three numbers.
pub record BlameRun : Type 0 where
  pub actor : ℕ
  pub session : ℕ
  pub len : ℕ

abbrev pub Author : Type 0
Author = ℕ × ℕ

abbrev pub same_author : BlameRun → BlameRun → Bool
same_author r s = (r.actor == s.actor) && (r.session == s.session)

-- `match runs.last_mut()`.
unfoldable pub push_run : List BlameRun → BlameRun → List BlameRun
push_run [] s = s ∷ []
push_run (r ∷ []) s =
    if same_author r s
    then record { actor = r.actor; session = r.session; len = r.len + s.len } ∷ []
    else r ∷ s ∷ []
push_run (r ∷ r' ∷ rs) s = r ∷ push_run (r' ∷ rs) s

unfoldable pub from_spans_onto : List BlameRun → List BlameRun → List BlameRun
unfolding push_run
from_spans_onto runs [] = runs
from_spans_onto runs (s ∷ ss) = from_spans_onto (if s.len == 0 then runs else push_run runs s) ss

unfoldable pub from_spans : List BlameRun → List BlameRun
unfolding from_spans_onto
from_spans spans = from_spans_onto [] spans

unfoldable pub total : List BlameRun → ℕ
total [] = 0
total (r ∷ rs) = r.len + total rs

-- The entries of the set `seen`, as `(at, run)` pairs.
unfoldable pub placed_runs : ℕ → List BlameRun → List (ℕ × BlameRun)
placed_runs at [] = []
placed_runs at (r ∷ rs) = (at, r) ∷ placed_runs (at + r.len) rs

abbrev same_place : ℕ × BlameRun → ℕ × BlameRun → Bool
same_place (at, r) (at', r') = (at == at') && same_author r r' && (r.len == r'.len)

unfoldable pub changed_from : ℕ → List (ℕ × BlameRun) → List BlameRun → List (ℕ × BlameRun)
changed_from at seen [] = []
changed_from at seen (r ∷ rs) =
    let rest = changed_from (at + r.len) seen rs in
    if any_of (same_place (at, r)) seen then rest else (at, r) ∷ rest

unfoldable pub changed_since : List BlameRun → List BlameRun → List (ℕ × BlameRun)
unfolding changed_from placed_runs
changed_since runs prior = changed_from 0 (placed_runs 0 prior) runs

-- The loop of `slice`. Its sums are `u64`, and byte positions of one file do not reach their end.
unfoldable pub slice_from : ℕ → ℕ → ℕ → List BlameRun → List BlameRun
slice_from pos start end [] = []
slice_from pos start end (r ∷ rs) =
    let rend = pos + r.len in
    let s = max pos start in
    let e = min rend end in
    let further = slice_from rend start end rs in
    let rest = if leb end rend then [] else further in
    if ltb s e then record { actor = r.actor; session = r.session; len = e - s } ∷ rest else rest

unfoldable pub slice : List BlameRun → ℕ → ℕ → List BlameRun
unfolding slice_from
slice runs start len = slice_from 0 start (start + len) runs

-- What `similar::TextDiff::from_lines` yields: a line kept, with its index in the old text, a line
-- inserted, or a line deleted.
pub data Change : Type 0 where
  equal : Option ℕ → Text → Change
  insert : Text → Change
  delete : Option ℕ → Text → Change

unfoldable pub normalize_line : Text → Text
unfolding trim
normalize_line line = trim line

-- The map from a normalized line to the queue of its deleted indices, as one queue of pairs: the
-- pairs of one key stand in the order of its queue.
unfoldable pub moved_lines : List Change → List (Text × ℕ)
unfolding normalize_line
moved_lines [] = []
moved_lines (delete (some i) line ∷ cs) = (normalize_line line, i) ∷ moved_lines cs
moved_lines (_ ∷ cs) = moved_lines cs

unfoldable pub pop_front : Text → List (Text × ℕ) → Option (ℕ × List (Text × ℕ))
pop_front key [] = none
pop_front key ((k, i) ∷ q) =
    let rest = pop_front key q in
    if text_eq key k
    then some (i, q)
    else elim rest [ none ↦ none | some r ↦ some (r.0, (k, i) ∷ r.1) ]

abbrev push_first : ℕ → List Text → List Text
push_first c [] = (c ∷ []) ∷ []
push_first c (l ∷ ls) = (c ∷ l) ∷ ls

-- `split_inclusive('\n')`, collected.
unfoldable pub split_lines : Text → List Text
split_lines [] = []
split_lines (c ∷ s) =
    let rest = split_lines s in if c == 10 then (c ∷ []) ∷ rest else push_first c rest

-- `std::str::from_utf8(bytes).unwrap_or("")`.
unfoldable pub text_or_empty : List ℕ → Text
unfolding is_utf8
text_or_empty bytes = if is_utf8 bytes then bytes else []

-- `old_offsets[i]` and the length of `old_lines[i]`, or nothing for the panic of an index past them.
unfoldable pub old_span_from : ℕ → List Text → ℕ → Option (ℕ × ℕ)
old_span_from acc [] i = none
old_span_from acc (l ∷ ls) zero = some (acc, length l)
old_span_from acc (l ∷ ls) (suc i) = old_span_from (acc + length l) ls i

-- The spans of one change before those of the rest; a panic in either is one of the whole.
unfoldable pub before_rest : List BlameRun → Option (List BlameRun) → Option (List BlameRun)
before_rest spans none = none
before_rest spans (some rest) = some (spans ++ rest)

unfoldable pub from_old :
    Option (ℕ × ℕ) → (ℕ × ℕ → List BlameRun) → Option (List BlameRun) → Option (List BlameRun)
unfolding before_rest
from_old none f rest = none
from_old (some span) f rest = before_rest (f span) rest

abbrev pub span_of : Author → ℕ → BlameRun
span_of author len = record { actor = author.0; session = author.1; len = len }

unfoldable pub carry : List BlameRun → Author → ℕ → ℕ → List BlameRun
unfolding slice total
carry old_map new_author start len =
    let v = slice old_map start len in
    let covered = total v in
    if ltb covered len then v ++ (span_of new_author (len - covered) ∷ []) else v

-- `slice(start, len).first().map(..).unwrap_or(new_author)`.
abbrev pub first_author : List BlameRun → Author → Author
first_author [] new_author = new_author
first_author (r ∷ _) new_author = (r.actor, r.session)

-- What an inserted line of `blen` bytes reclaims from the deleted line at `start`.
unfoldable pub reclaimed : List BlameRun → Author → ℕ → ℕ × ℕ → List BlameRun
unfolding carry slice
reclaimed old_map new_author blen (start, len) =
    if len == blen
    then carry old_map new_author start len
    else span_of (first_author (slice old_map start len) new_author) blen ∷ []

unfoldable pub diff_lines :
    List Text → List BlameRun → Author → List (Text × ℕ) → List Change → Option (List BlameRun)
unfolding carry reclaimed pop_front normalize_line old_span_from before_rest from_old
diff_lines old old_map author moved [] = some []
diff_lines old old_map author moved (equal none line ∷ cs) =
    before_rest (span_of author (length line) ∷ []) (diff_lines old old_map author moved cs)
diff_lines old old_map author moved (equal (some i) line ∷ cs) =
    from_old (old_span_from 0 old i) (λ (start, len). carry old_map author start len)
      (diff_lines old old_map author moved cs)
diff_lines old old_map author moved (insert line ∷ cs) =
    elim (pop_front (normalize_line line) moved) [
      | none ↦
          before_rest (span_of author (length line) ∷ []) (diff_lines old old_map author moved cs)
      | some (i, moved') ↦
          from_old (old_span_from 0 old i) (reclaimed old_map author (length line))
            (diff_lines old old_map author moved' cs)
    ]
diff_lines old old_map author moved (delete _ _ ∷ cs) = diff_lines old old_map author moved cs

unfoldable pub coalesced : Option (List BlameRun) → Option (List BlameRun)
unfolding from_spans
coalesced none = none
coalesced (some spans) = some (from_spans spans)

-- `diff` is `TextDiff::from_lines` with `iter_all_changes`, of the similar crate. Nothing is the answer
-- where the code panics.
unfoldable pub diff_spans :
    (Text → Text → List Change) → List ℕ → List BlameRun → List ℕ → Author → Option (List BlameRun)
unfolding diff_lines moved_lines coalesced split_lines text_or_empty
diff_spans diff old old_map new author =
    let old_s = text_or_empty old in
    let changes = diff old_s (text_or_empty new) in
    coalesced (diff_lines (split_lines old_s) old_map author (moved_lines changes) changes)
