-- ===== src/Suggest/Gates.antt =====
-- The gates of an acceptance, and one against a stale base.
use origofs.Base.{
  ℕ, ◌≡◌, ◌≢◌, inl, inr, refl, subst, true, Result-cases, Option, some, ◌==◌, ok, err, Bool-cases,
  Option-cases, arith,
}
use origofs.Errors.{not_found, already_resolved, Outcome, stale_base, invalid_argument}
use origofs.ObjectGraph.{Hash}
use origofs.Vfs.{same_content}
use origofs.Suggest.Rows.{kind-cases}
use origofs.Suggest.{
  of_bytes, crdt_tree, Suggestion, Queue, is_pending, find_suggestion, ReviewCalls, mark_superseded,
  apply_byte_suggestion, apply_suggestion, finish, accept_found, accept_suggestion,
}

-- What lets the acceptance of a suggestion through.
abbrev pub Gate : ReviewCalls → Queue → ℕ → Suggestion → Type 0
Gate calls q approver s =
    (is_pending s.status ≡ true)
    × (approver ≢ s.actor_id)
    × (calls.may_write approver s.path ≡ ok tt)
    × (s.kind ≢ crdt_tree)
    × (s.kind ≡ of_bytes → same_content (q.files s.path) s.base_hash ≡ true)

finish-ok :
    (calls : ReviewCalls) (s : Suggestion) (approver : ℕ) (r : Queue × Outcome (Unit {0}))
    (h : Option Hash)
    → (finish calls s approver r).1 ≡ ok h
    → r.1 ≡ ok tt
unfolding finish
finish-ok calls s approver (q, err x) h e = cc
finish-ok calls s approver (q, ok u) h e = refl

apply_suggestion-ok :
    (calls : ReviewCalls) (q : Queue) (s : Suggestion)
    → (apply_suggestion calls q s).1 ≡ ok tt
    → (s.kind ≢ crdt_tree) × (s.kind ≡ of_bytes → same_content (q.files s.path) s.base_hash ≡ true)
unfolding apply_suggestion apply_byte_suggestion mark_superseded
apply_suggestion-ok calls q s e = elim (kind-cases s.kind) [
  | inr (inl k) ↦ (λ z. cc, λ z. cc)
  | inr (inr k) ↦
      let no : apply_suggestion calls q s ≡ (q, err invalid_argument) =
        rw (k, apply_suggestion) refl in
      cc
  | inl k ↦ (
    λ z. cc,
    λ z. elim (Bool-cases (same_content (q.files s.path) s.base_hash)) [
      | inl b ↦ b
      | inr b ↦
          let no : (apply_suggestion calls q s).1 ≡ err stale_base =
            rw (k, apply_suggestion) (rw b refl) in
          cc
    ],
  )
]

accept_found-Gate :
    (calls : ReviewCalls) (q : Queue) (s : Suggestion) (approver : ℕ) (h : Option Hash)
    → (accept_found calls q s approver).1 ≡ ok h
    → Gate calls q approver s
unfolding accept_found
accept_found-Gate calls q s approver h e = elim (Bool-cases (is_pending s.status)) [
  | inr p ↦ let no : (accept_found calls q s approver).1 ≡ err already_resolved = rw p refl in cc
  | inl p ↦ elim (Result-cases (calls.may_write approver s.path)) [
    | inl (x, w) ↦ let no : (accept_found calls q s approver).1 ≡ err x = rw p (rw w refl) in cc
    | inr (u, w) ↦ elim (Bool-cases (approver == s.actor_id)) [
      | inl d ↦
          let no : (accept_found calls q s approver).1 ≡ err invalid_argument =
            rw p (rw w (rw d refl)) in
          cc
      | inr d ↦
          let same : accept_found calls q s approver
              ≡ finish calls s approver (apply_suggestion calls q s) =
            rw p (rw w (rw d refl)) in
          let done =
            finish-ok calls s approver (apply_suggestion calls q s) h
              (subst (λ (r : Queue × Outcome (Option Hash)). r.1 ≡ ok h) same e) in
          let (kinds, base) = apply_suggestion-ok calls q s done in
          (p, λ z. ground (arith, d, z), w, kinds, base)
    ]
  ]
]

-- An acceptance answers with the content at the path only where the suggestion was pending, the
-- approver may write there and is not its author, it is not a tree proposal, and, for a whole-file
-- suggestion, the path had the content that it was made against.
pub accept_suggestion-Gate :
    (calls : ReviewCalls) (q : Queue) (id approver : ℕ) (h : Option Hash)
    → (accept_suggestion calls q id approver).1 ≡ ok h
    → (s : Suggestion) × (find_suggestion id q.rows ≡ some s) × Gate calls q approver s
unfolding accept_suggestion accept_found
accept_suggestion-Gate calls q id approver h e = elim (Option-cases (find_suggestion id q.rows)) [
  | inl f ↦
      let no : (accept_suggestion calls q id approver).1 ≡ err not_found =
        rw (f, accept_suggestion) refl in
      cc
  | inr (s, f) ↦
      let found : accept_suggestion calls q id approver ≡ accept_found calls q s approver =
        rw (f, accept_suggestion) refl in
      let passed =
        accept_found-Gate calls q s approver h
          (subst (λ (r : Queue × Outcome (Option Hash)). r.1 ≡ ok h) found e) in
      (s, f, passed)
]
