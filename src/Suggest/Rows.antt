-- ===== src/Suggest/Rows.antt =====
-- Finding a suggestion, and resolving it.
use origofs.Base.{
  ℕ, ◌≡◌, ◌⊎◌, inl, inr, refl, sym, ap, subst, ◌∙◌, true, false, List, [], ◌∷◌, Option, some,
  any_of, ◌==◌, Bool-cases, arith,
}
use origofs.Suggest.{
  SuggestionStatus, SuggestionKind, of_bytes, crdt, crdt_tree, Suggestion, Queue, is_pending,
  find_suggestion, is_open, resolve_rows, resolve_suggestion,
}

pub find-resolve_rows :
    (id : ℕ) (st : SuggestionStatus) (by : Option ℕ) (rows : List Suggestion) (s : Suggestion)
    → find_suggestion id rows ≡ some s
    → is_pending s.status ≡ true
    → find_suggestion id (resolve_rows id st by rows)
      ≡ some (record s { status = st; resolved_by = by })
unfolding find_suggestion resolve_rows
find-resolve_rows id st by [] s e p = cc
find-resolve_rows id st by (r ∷ rs) s e p =
    let ih = find-resolve_rows id st by rs s in
    elim (Bool-cases (r.id == id)) [
      | inl k ↦
          let z : r ≡ s = ground (arith, k, e) in
          let o : is_open id r ≡ true =
            rw k (subst (λ (x : Suggestion). is_pending x.status ≡ true) (sym z) p) in
          subst
            (λ (x : Suggestion).
              find_suggestion id (resolve_rows id st by (r ∷ rs))
              ≡ some (record x { status = st; resolved_by = by }))
            z (rw o (rw k refl))
      | inr k ↦
          let o : is_open id r ≡ false = rw k refl in rw o (rw k (ih (ground (arith, k, e)) p))
    ]

pub find_suggestion-same :
    (id : ℕ) (rows : List Suggestion) (s : Suggestion)
    → find_suggestion id rows ≡ some s
    → s.id ≡ id
unfolding find_suggestion
find_suggestion-same id [] s e = cc
find_suggestion-same id (r ∷ rs) s e = elim (Bool-cases (r.id == id)) [
  | inr k ↦ find_suggestion-same id rs s (ground (arith, k, e))
  | inl k ↦
      let z : r ≡ s = ground (arith, k, e) in
      let i : r.id ≡ id = ground (arith, k) in ap (λ (x : Suggestion). x.id) (sym z) ∙ i
]

-- A resolved row is not resolved again.
resolve_rows-once :
    (id : ℕ) (st : SuggestionStatus) (by : Option ℕ) (rows : List Suggestion)
    → is_pending st ≡ false
    → any_of (is_open id) (resolve_rows id st by rows) ≡ false
unfolding resolve_rows
resolve_rows-once id st by [] p = refl
resolve_rows-once id st by (s ∷ ss) p =
    let ih = resolve_rows-once id st by ss p in
    elim (Bool-cases (is_open id s)) [
      | inr e ↦ rw e (rw e ih)
      | inl e ↦ rw e (rw p (ground (arith, ih)))
    ]

resolve_rows-none :
    (id : ℕ) (st : SuggestionStatus) (by : Option ℕ) (rows : List Suggestion)
    → any_of (is_open id) rows ≡ false
    → resolve_rows id st by rows ≡ rows
unfolding resolve_rows
resolve_rows-none id st by [] e = refl
resolve_rows-none id st by (s ∷ ss) e = elim (Bool-cases (is_open id s)) [
  | inl o ↦ let no : true ≡ false = sym (rw o refl) ∙ e in cc
  | inr o ↦ rw o (ap (λ z. s ∷ z) (resolve_rows-none id st by ss (ground (arith, o, e))))
]

-- Of two reviewers, and of a reviewer and a supersession, one resolves a suggestion: what comes
-- second changes no row, and is told so.
pub resolve_suggestion-once :
    (q : Queue) (id : ℕ) (st st' : SuggestionStatus) (by by' : Option ℕ)
    → is_pending st ≡ false
    → resolve_suggestion id st' by' (resolve_suggestion id st by q).1
      ≡ (false, (resolve_suggestion id st by q).1)
unfolding resolve_suggestion
resolve_suggestion-once q id st st' by by' p =
    let t = resolve_rows-once id st by q.rows p in
    rw t (rw (resolve_rows-none id st' by' (resolve_rows id st by q.rows) t) refl)

pub kind-cases : (k : SuggestionKind) → (k ≡ of_bytes) ⊎ (k ≡ crdt) ⊎ (k ≡ crdt_tree)
kind-cases of_bytes = inl refl
kind-cases crdt = inr (inl refl)
kind-cases crdt_tree = inr (inr refl)
