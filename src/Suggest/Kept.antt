-- ===== src/Suggest/Kept.antt =====
-- The invariant of the queue: only others accept a suggestion.
use origofs.Base.{
  ℕ, ◌≡◌, ◌≢◌, inl, inr, refl, ap, subst, ◌∙◌, ◌&&◌, ◌||◌, List, [], ◌∷◌, Option, none, some, Text,
  All, ◌==◌, if◌then◌else◌, text_eq, ok, err, Bool-cases, Option-cases, arith,
}
use origofs.Errors.{Outcome, is_conflict}
use origofs.ObjectGraph.{Hash}
use origofs.Vfs.{same_content}
use origofs.Suggest.Rows.{kind-cases}
use origofs.Suggest.{
  SuggestionStatus, accepted, superseded, Suggestion, Queue, is_pending, find_suggestion, is_open,
  resolve_rows, resolve_suggestion, record_event, ReviewCalls, mark_superseded, or_unchanged,
  or_superseded, supersede_one, supersede_loop, apply_byte_suggestion, apply_suggestion,
}

-- An accepted suggestion was resolved by an actor other than its author.
abbrev pub OnlyOthers : Suggestion → Type 0
OnlyOthers s = s.status ≡ accepted → (b : ℕ) × (s.resolved_by ≡ some b) × (b ≢ s.actor_id)

-- The queue's rows have the authors that their ids were given to, and only others accept.
abbrev pub Reviewed : (ℕ → ℕ) → Queue → Type 0
Reviewed authors q = All (λ s. (s.actor_id ≡ authors s.id) × OnlyOthers s) q.rows

-- The calls of a review keep the rows so.
pub record Keeps (authors : ℕ → ℕ) (calls : ReviewCalls) : Type 0 where
  pub write :
      (q t : Queue) (a : ℕ) (p : Text) (h : Hash) (b : Option Hash)
      → Reviewed authors q
      → calls.write_expecting q a p h b ≡ ok t
      → Reviewed authors t
  pub remove :
      (q t : Queue) (a : ℕ) (p : Text)
      → Reviewed authors q
      → calls.remove_unchecked q a p ≡ ok t
      → Reviewed authors t
  pub merge :
      (q t : Queue) (s : Suggestion)
      → Reviewed authors q
      → calls.merge_document q s ≡ ok t
      → Reviewed authors t
  pub others : (q : Queue) → Reviewed authors q → Reviewed authors (calls.others q)

abbrev Allowed : (ℕ → ℕ) → ℕ → SuggestionStatus → Option ℕ → Type 0
Allowed authors id st by = st ≡ accepted → (b : ℕ) × (by ≡ some b) × (b ≢ authors id)

module _ (authors : ℕ → ℕ) where
  pub resolve_rows-Reviewed :
      (id : ℕ) (st : SuggestionStatus) (by : Option ℕ) (rows : List Suggestion)
      → Allowed authors id st by
      → All (λ s. (s.actor_id ≡ authors s.id) × OnlyOthers s) rows
      → All (λ s. (s.actor_id ≡ authors s.id) × OnlyOthers s) (resolve_rows id st by rows)
  unfolding resolve_rows
  resolve_rows-Reviewed id st by [] a r = r
  resolve_rows-Reviewed id st by (s ∷ ss) a (h, r) =
      let ih = resolve_rows-Reviewed id st by ss a r in
      elim (Bool-cases (is_open id s)) [
        | inr e ↦ (rw e h, ih)
        | inl e ↦
            let z : s.id ≡ id = ground arith in
            (rw e (h.0, λ k. let (b, q, n) = a k in (b, q, λ m. n (m ∙ h.0 ∙ ap authors z))), ih)
      ]

pub find_suggestion-authors :
    (authors : ℕ → ℕ) (id : ℕ) (rows : List Suggestion) (s : Suggestion)
    → All (λ x. (x.actor_id ≡ authors x.id) × OnlyOthers x) rows
    → find_suggestion id rows ≡ some s
    → s.actor_id ≡ authors s.id
unfolding find_suggestion
find_suggestion-authors authors id [] s a e = cc
find_suggestion-authors authors id (r ∷ rs) s (h, a) e = elim (Bool-cases (r.id == id)) [
  | inr k ↦ find_suggestion-authors authors id rs s a (ground (arith, k, e))
  | inl k ↦
      let z : r ≡ s = ground (arith, k, e) in
      subst (λ (x : Suggestion). x.actor_id ≡ authors x.id) z h.0
]

module _ (authors : ℕ → ℕ) where
  abbrev pub Kept : {A : Type 0} → Queue × A → Type 0
  Kept r = Reviewed authors r.0

  mark_superseded-Reviewed :
      (q : Queue) (s : Suggestion) → Reviewed authors q → Kept (mark_superseded q s)
  unfolding mark_superseded resolve_suggestion record_event
  mark_superseded-Reviewed q s r =
      resolve_rows-Reviewed authors s.id superseded none q.rows (λ e. cc) r

  supersede_one-Reviewed :
      (current : Option Hash) (except : ℕ) (s : Suggestion) (q : Queue)
      → Reviewed authors q
      → Reviewed authors (supersede_one current except s q)
  unfolding supersede_one resolve_suggestion record_event
  supersede_one-Reviewed current except s q r = elim (kind-cases s.kind) [
    | inr (inl e) ↦ rw (e, supersede_one) r
    | inr (inr e) ↦ rw (e, supersede_one) r
    | inl e ↦ elim (Bool-cases (s.id == except || same_content s.base_hash current)) [
      | inl y ↦ rw (e, supersede_one) (rw y r)
      | inr y ↦
          let t = resolve_rows-Reviewed authors s.id superseded none q.rows (λ z. cc) r in
          elim (Bool-cases (resolve_suggestion s.id superseded none q).0) [
            | inl w ↦ rw (e, supersede_one) (rw y (rw w t))
            | inr w ↦ rw (e, supersede_one) (rw y (rw w t))
          ]
    ]
  ]

  pub supersede_loop-Reviewed :
      (current : Option Hash) (path : Text) (except : ℕ) (ss : List Suggestion) (q : Queue)
      → Reviewed authors q
      → Reviewed authors (supersede_loop current path except ss q)
  unfolding supersede_loop
  supersede_loop-Reviewed current path except [] q r = r
  supersede_loop-Reviewed current path except (s ∷ ss) q r =
      let test = is_pending s.status && text_eq s.path path in
      let next : Reviewed authors (if test then supersede_one current except s q else q) =
        elim (Bool-cases test) [
          | inl e ↦ rw e (supersede_one-Reviewed current except s q r)
          | inr e ↦ rw e r
        ] in
      supersede_loop-Reviewed current path except ss
        (if test then supersede_one current except s q else q) next

  module _ (calls : ReviewCalls) (laws : Keeps authors calls) where
    or_unchanged-Reviewed :
        (q : Queue) (o : Outcome Queue)
        → Reviewed authors q
        → ((t : Queue) → o ≡ ok t → Reviewed authors t)
        → Kept (or_unchanged q o)
    unfolding or_unchanged
    or_unchanged-Reviewed q (ok t) r f = f t refl
    or_unchanged-Reviewed q (err e) r f = r

    or_superseded-Reviewed :
        (q : Queue) (s : Suggestion) (o : Outcome Queue)
        → Reviewed authors q
        → ((t : Queue) → o ≡ ok t → Reviewed authors t)
        → Kept (or_superseded q s o)
    unfolding or_superseded
    or_superseded-Reviewed q s (ok t) r f = f t refl
    or_superseded-Reviewed q s (err e) r f = elim (Bool-cases (is_conflict e)) [
      | inl c ↦ rw c (mark_superseded-Reviewed q s r)
      | inr c ↦ rw c r
    ]

    pub apply_suggestion-Reviewed :
        (q : Queue) (s : Suggestion) → Reviewed authors q → Kept (apply_suggestion calls q s)
    unfolding apply_suggestion apply_byte_suggestion
    apply_suggestion-Reviewed q s r = elim (kind-cases s.kind) [
      | inr (inr e) ↦ rw (e, apply_suggestion) r
      | inr (inl e) ↦
          rw (e, apply_suggestion)
            (or_unchanged-Reviewed q (calls.merge_document q s) r (λ t. laws.merge q t s r))
      | inl e ↦ elim (Bool-cases (same_content (q.files s.path) s.base_hash)) [
        | inr b ↦ rw (e, apply_suggestion) (rw b (mark_superseded-Reviewed q s r))
        | inl b ↦ elim (Option-cases s.proposed_hash) [
          | inl n ↦
              rw (e, apply_suggestion)
                (rw b (
                  rw (n, apply_byte_suggestion)
                    (or_unchanged-Reviewed q (calls.remove_unchecked q s.actor_id s.path) r
                      (λ t. laws.remove q t s.actor_id s.path r))))
          | inr (h, n) ↦
              rw (e, apply_suggestion)
                (rw b (
                  rw (n, apply_byte_suggestion)
                    (or_superseded-Reviewed q s
                      (calls.write_expecting q s.actor_id s.path h s.base_hash) r
                      (λ t. laws.write q t s.actor_id s.path h s.base_hash r))))
        ]
      ]
    ]
