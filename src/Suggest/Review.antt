-- ===== src/Suggest/Review.antt =====
-- Every review keeps the queue's invariant.
use origofs.Base.{
  ℕ, ◌≡◌, ◌≢◌, inl, inr, refl, sym, ◌∙◌, Result-cases, none, some, ◌==◌, ok, err, Bool-cases,
  Option-cases, arith,
}
use origofs.Errors.{Outcome}
use origofs.Suggest.{
  accept_event, accepted, rejected, superseded, Suggestion, Queue, is_pending, find_suggestion,
  resolve_suggestion, record_event, ReviewCalls, supersede_stale, apply_suggestion, conclude,
  finish, accept_found, accept_suggestion, reject_found, reject_suggestion,
  replaceable_suggestion_anywhere, supersede_found, supersede_suggestion,
}
use origofs.Suggest.Kept.{
  Reviewed, Keeps, Kept, resolve_rows-Reviewed, find_suggestion-authors, supersede_loop-Reviewed,
  apply_suggestion-Reviewed,
}

module _ (authors : ℕ → ℕ) (calls : ReviewCalls) (laws : Keeps authors calls) where
  conclude-Reviewed :
      (q : Queue) (s : Suggestion) (approver : ℕ)
      → approver ≢ authors s.id
      → Reviewed authors q
      → Kept authors (conclude calls q s approver)
  unfolding conclude resolve_suggestion record_event supersede_stale
  conclude-Reviewed q s approver n r =
      let done = resolve_suggestion s.id accepted (some approver) q in
      let t =
        resolve_rows-Reviewed authors s.id accepted (some approver) q.rows
          (λ e. (approver, refl, n)) r in
      let noted = record_event accept_event approver s.id done.1 in
      elim (Bool-cases done.0) [
        | inr e ↦ rw e t
        | inl e ↦
            rw e
              (supersede_loop-Reviewed authors (noted.files s.path) s.path s.id noted.rows noted t)
      ]

  finish-Reviewed :
      (s : Suggestion) (approver : ℕ) (r : Queue × Outcome (Unit {0}))
      → approver ≢ authors s.id
      → Kept authors r
      → Kept authors (finish calls s approver r)
  unfolding finish
  finish-Reviewed s approver (q, err e) n r = r
  finish-Reviewed s approver (q, ok u) n r =
      conclude-Reviewed (calls.others q) s approver n (laws.others q r)

  accept_found-Reviewed :
      (q : Queue) (s : Suggestion) (approver : ℕ)
      → s.actor_id ≡ authors s.id
      → Reviewed authors q
      → Kept authors (accept_found calls q s approver)
  unfolding accept_found
  accept_found-Reviewed q s approver a r = elim (Bool-cases (is_pending s.status)) [
    | inr p ↦ rw p r
    | inl p ↦ elim (Result-cases (calls.may_write approver s.path)) [
      | inl (x, w) ↦ rw p (rw w r)
      | inr (u, w) ↦ elim (Bool-cases (approver == s.actor_id)) [
        | inl e ↦ rw p (rw w (rw e r))
        | inr e ↦
            let n : approver ≢ authors s.id =
              λ z. let k : approver ≡ s.actor_id = z ∙ sym a in ground (arith, e, k) in
            rw p (
              rw w (
                rw e (
                  finish-Reviewed s approver (apply_suggestion calls q s) n
                    (apply_suggestion-Reviewed authors calls laws q s r))))
      ]
    ]
  ]

  accept_suggestion-Reviewed :
      (q : Queue) (id approver : ℕ)
      → Reviewed authors q
      → Reviewed authors (accept_suggestion calls q id approver).0
  unfolding accept_suggestion
  accept_suggestion-Reviewed q id approver r = elim (Option-cases (find_suggestion id q.rows)) [
    | inl e ↦ rw (e, accept_suggestion) r
    | inr (s, e) ↦
        let a = find_suggestion-authors authors id q.rows s r e in
        rw (e, accept_suggestion) (accept_found-Reviewed q s approver a r)
  ]

  reject_found-Reviewed :
      (q : Queue) (s : Suggestion) (approver : ℕ)
      → Reviewed authors q
      → Kept authors (reject_found calls q s approver)
  unfolding reject_found resolve_suggestion record_event
  reject_found-Reviewed q s approver r =
      let u = calls.others q in
      let t =
        resolve_rows-Reviewed authors s.id rejected (some approver) u.rows (λ e. cc)
          (laws.others q r) in
      elim (Bool-cases (resolve_suggestion s.id rejected (some approver) u).0) [
        | inr e ↦ rw e t
        | inl e ↦ rw e t
      ]

  reject_suggestion-Reviewed :
      (q : Queue) (id approver : ℕ)
      → Reviewed authors q
      → Kept authors (reject_suggestion calls q id approver)
  unfolding reject_suggestion
  reject_suggestion-Reviewed q id approver r = elim (Option-cases (find_suggestion id q.rows)) [
    | inl e ↦ rw (e, reject_suggestion) r
    | inr (s, e) ↦ elim (Bool-cases (is_pending s.status)) [
      | inr p ↦ rw (e, reject_suggestion) (rw p r)
      | inl p ↦ elim (Bool-cases (approver == s.actor_id)) [
        | inl a ↦ rw (e, reject_suggestion) (rw p (rw a (reject_found-Reviewed q s approver r)))
        | inr a ↦ elim (Result-cases (calls.may_write approver s.path)) [
          | inl (x, w) ↦ rw (e, reject_suggestion) (rw p (rw a (rw w r)))
          | inr (u, w) ↦
              rw (e, reject_suggestion) (rw p (rw a (rw w (reject_found-Reviewed q s approver r))))
        ]
      ]
    ]
  ]

  supersede_found-Reviewed :
      (actor : ℕ) (q : Queue) (o : Outcome Suggestion)
      → Reviewed authors q
      → Kept authors (supersede_found calls actor q o)
  unfolding supersede_found resolve_suggestion record_event
  supersede_found-Reviewed actor q (err e) r = r
  supersede_found-Reviewed actor q (ok s) r =
      let u = calls.others q in
      let t =
        resolve_rows-Reviewed authors s.id superseded none u.rows (λ e. cc) (laws.others q r) in
      elim (Bool-cases (resolve_suggestion s.id superseded none u).0) [
        | inr e ↦ rw e t
        | inl e ↦ rw e t
      ]

  -- Whatever a review answers, be it an acceptance, a rejection or a retirement, the rows of the queue
  -- keep their authors, and a row that is accepted was accepted by an actor other than its author; this
  -- holds where it did before, and the calls of the review and everybody else keep it so.
  pub review-Reviewed :
      (q : Queue) (id actor : ℕ)
      → Reviewed authors q
      → Reviewed authors (accept_suggestion calls q id actor).0
        × Reviewed authors (reject_suggestion calls q id actor).0
        × Reviewed authors (supersede_suggestion calls q id actor).0
  unfolding supersede_suggestion
  review-Reviewed q id actor r = (
    accept_suggestion-Reviewed q id actor r,
    reject_suggestion-Reviewed q id actor r,
    supersede_found-Reviewed actor q (replaceable_suggestion_anywhere calls q id actor) r,
  )
