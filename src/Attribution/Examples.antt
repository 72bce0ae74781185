-- ===== src/Attribution/Examples.antt =====
-- The theorems on authorship at a small file.
use origofs.Base.{
  Text, none, ◌++◌, length, is_utf8, arith, ℕ, ◌≡◌, refl, some, List, [], ◌∷◌, codes, take, drop,
  text_discrete,
}
use origofs.Paths.{trim}
use origofs.Attribution.{
  BlameRun, push_run, from_spans_onto, from_spans, total, slice_from, slice, Change, equal, insert,
  delete, normalize_line, moved_lines, pop_front, old_span_from, carry, reclaimed, diff_lines,
  split_lines, text_or_empty, coalesced, before_rest, from_old, diff_spans, changed_since,
  changed_from, placed_runs,
}
use origofs.Attribution.Runs.{expand, expand-from_spans}
use origofs.Attribution.Windows.{expand-slice}
use origofs.Attribution.Lockstep.{line_at, Refers, new_text, total-diff_spans}

abbrev run : ℕ → ℕ → ℕ → BlameRun
run a s n = record { actor = a; session = s; len = n }

abbrev spans : List BlameRun
spans = run 1 0 2 ∷ run 2 0 0 ∷ run 1 0 3 ∷ run 2 7 4 ∷ []

merged_runs : from_spans spans ≡ run 1 0 5 ∷ run 2 7 4 ∷ []
unfolding from_spans from_spans_onto push_run
merged_runs = refl

changed_run :
    changed_since (run 1 0 5 ∷ run 2 0 2 ∷ []) (run 1 0 5 ∷ run 3 0 2 ∷ []) ≡ (5, run 2 0 2) ∷ []
unfolding changed_since changed_from placed_runs
changed_run = refl

expand-from_spans_example : expand (from_spans spans) ≡ expand spans
expand-from_spans_example = expand-from_spans spans

expand-slice_example :
    expand (slice (run 1 0 5 ∷ run 2 7 4 ∷ []) 3 4)
    ≡ take 4 (drop 3 (expand (run 1 0 5 ∷ run 2 7 4 ∷ [])))
expand-slice_example = expand-slice (run 1 0 5 ∷ run 2 7 4 ∷ []) 3 4

abbrev first_line : Text
first_line = 97 ∷ 97 ∷ 97 ∷ 10 ∷ []

abbrev second_line : Text
second_line = 98 ∷ 98 ∷ 10 ∷ []

abbrev old_text : Text
old_text = first_line ++ second_line

abbrev indented : Text
indented = 32 ∷ 32 ∷ second_line

-- The second line moves, indented, to the front, and a line is added.
abbrev moves : List Change
moves =
    insert indented
    ∷ equal (some 0) first_line
    ∷ delete (some 1) second_line
    ∷ insert (codes "c")
    ∷ []

abbrev with_c : Text
with_c = indented ++ (first_line ++ codes "c")

moves-Refers : Refers (split_lines (text_or_empty old_text)) moves
unfolding Refers line_at split_lines text_or_empty is_utf8
moves-Refers = (refl, (omega arith, tt))

moves_to : new_text moves ≡ text_or_empty with_c
unfolding new_text text_or_empty is_utf8
moves_to = refl

moved_line :
    diff_spans (λ o n. moves) old_text (run 1 0 4 ∷ run 2 0 3 ∷ []) with_c (9, 9)
    ≡ some (run 2 0 5 ∷ run 1 0 4 ∷ run 9 9 1 ∷ [])
unfolding diff_spans diff_lines moved_lines from_spans from_spans_onto push_run normalize_line trim
    pop_front old_span_from reclaimed carry slice slice_from total text_discrete coalesced
    before_rest from_old split_lines text_or_empty is_utf8
moved_line = refl

-- An index past the lines panics.
past_the_lines :
    diff_spans (λ o n. equal (some 2) (codes "c") ∷ []) old_text [] with_c (9, 9) ≡ none
unfolding diff_spans diff_lines moved_lines old_span_from coalesced from_old split_lines
    text_or_empty is_utf8
past_the_lines = refl

total-diff_spans_example :
    (map : List BlameRun) × (diff_spans
        (λ o n. moves)
        old_text
        (run 1 0 4 ∷ run 2 0 3 ∷ [])
        with_c
        (9, 9)
      ≡ some map)
    × (total map ≡ length (text_or_empty with_c))
total-diff_spans_example =
    total-diff_spans (λ o n. moves) old_text (run 1 0 4 ∷ run 2 0 3 ∷ []) with_c (9, 9) moves-Refers
      moves_to
