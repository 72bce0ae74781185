-- ===== src/Attribution/Lockstep.antt =====
-- The map that a write derives covers the new content byte for byte.
use origofs.Base.{
  ℕ, zero, suc, ◌+◌, ◌<◌, ◌≡◌, inl, inr, refl, sym, ap, ◌∙◌, Option, none, some, List, [], ◌∷◌,
  ◌++◌, Text, text_eq, ◌==◌, length, length-append, All, Bool-cases, Option-cases, arith, subst,
}
use origofs.Attribution.{
  BlameRun, Author, from_spans, total, slice, Change, equal, insert, delete, normalize_line,
  moved_lines, pop_front, old_span_from, carry, first_author, reclaimed, diff_lines, diff_spans,
  split_lines, text_or_empty, coalesced, before_rest, from_old, span_of,
}
use origofs.Attribution.Runs.{length-expand, expand-from_spans}
use origofs.Attribution.Windows.{total-append, total-one, total-carry}

unfoldable pub line_at : List Text → ℕ → Option Text
line_at [] i = none
line_at (l ∷ ls) zero = some l
line_at (l ∷ ls) (suc i) = line_at ls i

-- The changes refer to the old lines: a kept line is the one that its index names, and the index of a
-- deleted line is one of theirs.
unfoldable pub Refers : List Text → List Change → Type 0
unfolding line_at
Refers lines [] = Unit {0}
Refers lines (equal (some i) line ∷ cs) = (line_at lines i ≡ some line) × Refers lines cs
Refers lines (delete (some i) line ∷ cs) = (i < length lines) × Refers lines cs
Refers lines (_ ∷ cs) = Refers lines cs

-- The new text: the lines kept and inserted.
unfoldable pub new_text : List Change → Text
new_text [] = []
new_text (equal _ line ∷ cs) = line ++ new_text cs
new_text (insert line ∷ cs) = line ++ new_text cs
new_text (delete _ _ ∷ cs) = new_text cs

old_span-line :
    (acc i : ℕ) (lines : List Text) (l : Text)
    → line_at lines i ≡ some l
    → (start : ℕ) × (old_span_from acc lines i ≡ some (start, length l))
unfolding line_at old_span_from
old_span-line acc i [] l e = cc
old_span-line acc zero (x ∷ xs) l e = let z : x ≡ l = cc in (acc, ap (λ y. some (acc, length y)) z)
old_span-line acc (suc i) (x ∷ xs) l e = old_span-line (acc + length x) i xs l e

old_span-inside :
    (acc i : ℕ) (lines : List Text)
    → i < length lines
    → (span : ℕ × ℕ) × (old_span_from acc lines i ≡ some span)
unfolding old_span_from
old_span-inside acc i [] h = absurd (omega (arith, h))
old_span-inside acc zero (x ∷ xs) h = ((acc, length x), refl)
old_span-inside acc (suc i) (x ∷ xs) h = old_span-inside (acc + length x) i xs (omega (arith, h))

abbrev Inside : ℕ → List (Text × ℕ) → Type 0
Inside n moved = All (λ p. p.1 < n) moved

moved_lines-Inside :
    (lines : List Text) (cs : List Change)
    → Refers lines cs
    → Inside (length lines) (moved_lines cs)
unfolding Refers moved_lines
moved_lines-Inside lines [] h = tt
moved_lines-Inside lines (equal (some i) line ∷ cs) (e, h) = moved_lines-Inside lines cs h
moved_lines-Inside lines (equal none line ∷ cs) h = moved_lines-Inside lines cs h
moved_lines-Inside lines (insert line ∷ cs) h = moved_lines-Inside lines cs h
moved_lines-Inside lines (delete (some i) line ∷ cs) (l, h) = (l, moved_lines-Inside lines cs h)
moved_lines-Inside lines (delete none line ∷ cs) h = moved_lines-Inside lines cs h

pop_front-Inside :
    (n : ℕ) (key : Text) (q : List (Text × ℕ)) (i : ℕ) (q' : List (Text × ℕ))
    → Inside n q
    → pop_front key q ≡ some (i, q')
    → (i < n) × Inside n q'
unfolding pop_front
pop_front-Inside n key [] i q' h e = cc
pop_front-Inside n key ((k, j) ∷ q) i q' (l, h) e = elim (Bool-cases (text_eq key k)) [
  | inl t ↦
      let z : ◌≡◌ {A = Option (ℕ × List (Text × ℕ))} (some (j, q)) (some (i, q')) = rw t at e in
      let a : j ≡ i = cc in let b : q ≡ q' = cc in (subst (λ x. x < n) a l, subst (Inside n) b h)
  | inr t ↦ elim (Option-cases (pop_front key q)) [
    | inl r ↦ absurd (ground (arith, t, r, e))
    | inr ((x, r'), r) ↦
        let (a, b) = pop_front-Inside n key q x r' h r in
        let z : ◌≡◌ {A = Option (ℕ × List (Text × ℕ))} (some (x, (k, j) ∷ r')) (some (i, q')) =
          rw (t, r) at e in
        let c : x ≡ i = cc in
        let d : (k, j) ∷ r' ≡ q' = cc in (subst (λ y. y < n) c a, subst (Inside n) d (l, b))
  ]
]

total-reclaimed :
    (old_map : List BlameRun) (author : Author) (blen : ℕ) (span : ℕ × ℕ)
    → total (reclaimed old_map author blen span) ≡ blen
unfolding reclaimed
total-reclaimed old_map author blen (start, len) =
    let a = total-carry old_map author start len in
    let b = total-one (first_author (slice old_map start len) author) blen in
    elim (Bool-cases (len == blen)) [ inl e ↦ rw e (ground (arith, a, e)) | inr e ↦ rw e b ]

-- The spans are there, and cover so many bytes.
abbrev Spans : Option (List BlameRun) → ℕ → Type 0
Spans r n = (spans : List BlameRun) × (r ≡ some spans) × (total spans ≡ n)

before_rest-Spans :
    (spans : List BlameRun) (r : Option (List BlameRun)) (line rest : Text)
    → total spans ≡ length line
    → Spans r (length rest)
    → Spans (before_rest spans r) (length (line ++ rest))
unfolding before_rest
before_rest-Spans spans r line rest e (more, q, n) = (
  spans ++ more,
  rw q refl,
  omega (arith, total-append spans more, length-append line rest, e, n),
)

total-diff_lines :
    (old : List Text) (old_map : List BlameRun) (author : Author) (moved : List (Text × ℕ))
    (cs : List Change)
    → Refers old cs
    → Inside (length old) moved
    → Spans (diff_lines old old_map author moved cs) (length (new_text cs))
unfolding diff_lines Refers new_text from_old
total-diff_lines old old_map author moved [] h m = ([], refl, unfold total in refl)
total-diff_lines old old_map author moved (equal none line ∷ cs) h m =
    before_rest-Spans (span_of author (length line) ∷ []) (diff_lines old old_map author moved cs)
      line (new_text cs) (total-one author (length line))
      (total-diff_lines old old_map author moved cs h m)
total-diff_lines old old_map author moved (equal (some i) line ∷ cs) (e, h) m =
    let (start, q) = old_span-line 0 i old line e in
    rw q (
      before_rest-Spans (carry old_map author start (length line))
        (diff_lines old old_map author moved cs) line (new_text cs)
        (total-carry old_map author start (length line))
        (total-diff_lines old old_map author moved cs h m))
total-diff_lines old old_map author moved (insert line ∷ cs) h m =
    elim (Option-cases (pop_front (normalize_line line) moved)) [
      | inl q ↦
          rw (q, diff_lines)
            (before_rest-Spans (span_of author (length line) ∷ [])
              (diff_lines old old_map author moved cs) line (new_text cs)
              (total-one author (length line)) (total-diff_lines old old_map author moved cs h m))
      | inr ((i, moved'), q) ↦
          let (inside, m') =
            pop_front-Inside (length old) (normalize_line line) moved i moved' m q in
          let (span, e) = old_span-inside 0 i old inside in
          rw (q, diff_lines)
            (rw e (
              before_rest-Spans (reclaimed old_map author (length line) span)
                (diff_lines old old_map author moved' cs) line (new_text cs)
                (total-reclaimed old_map author (length line) span)
                (total-diff_lines old old_map author moved' cs h m')))
    ]
total-diff_lines old old_map author moved (delete none line ∷ cs) h m =
    total-diff_lines old old_map author moved cs h m
total-diff_lines old old_map author moved (delete (some i) line ∷ cs) (l, h) m =
    total-diff_lines old old_map author moved cs h m

-- Coalescing keeps the number of bytes.
total-from_spans : (spans : List BlameRun) → total (from_spans spans) ≡ total spans
total-from_spans spans =
    sym (length-expand (from_spans spans))
    ∙ ap length (expand-from_spans spans)
    ∙ length-expand spans

-- Of two bodies, each taken for an empty text where it is not UTF-8: where the diff of the two texts
-- gives back the new one, and its indices refer to the old lines as
-- `split_lines` cuts them, the derivation does not panic, and the derived map covers exactly as many
-- bytes as the new text has, whatever the old map covered.
pub total-diff_spans :
    (diff : Text → Text → List Change) (old : List ℕ) (old_map : List BlameRun) (new : List ℕ)
    (author : Author)
    → Refers (split_lines (text_or_empty old)) (diff (text_or_empty old) (text_or_empty new))
    → new_text (diff (text_or_empty old) (text_or_empty new)) ≡ text_or_empty new
    → (map : List BlameRun) × (diff_spans diff old old_map new author ≡ some map)
      × (total map ≡ length (text_or_empty new))
unfolding diff_spans coalesced
total-diff_spans diff old old_map new author h e =
    let old_s = text_or_empty old in
    let changes = diff old_s (text_or_empty new) in
    let lines = split_lines old_s in
    let (spans, q, n) =
      total-diff_lines lines old_map author (moved_lines changes) changes h
        (moved_lines-Inside lines changes h) in
    (from_spans spans, ap coalesced q, total-from_spans spans ∙ n ∙ ap length e)
