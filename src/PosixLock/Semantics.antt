-- ===== src/PosixLock/Semantics.antt =====
-- The contract of `setlk`: what the table holds after a request, and that it stays at rest.
use origofs.Base.{
  ℕ, ◌≤◌, ◌≡◌, ◌≢◌, refl, sym, ◌∙◌, ◌⊎◌, inl, inr, Bool, true, false, List, [], ◌∷◌, none, some,
  Text, if◌then◌else◌, All, arith, Bool-cases, Option-cases,
}
use origofs.PosixLock.{
  PosixLock, LockRequest, is_unlock, wants_exclusive, resolve, apply, sort_locks, no_clash,
  check_state, held_at, test,
}
use origofs.PosixLock.Rows.{
  Holds, check_state-parts, check_state_of, held_at-Holds, Holds-held_at, held_at-none,
}
use origofs.PosixLock.Sorting.{
  Separate-sort_locks, All-sort_locks, In-sort_locks, In-sort_locks_inv,
}
use origofs.PosixLock.Widened.{widened-IsWidened}
use origofs.PosixLock.Grant.{rows_after, low, high, apply-resolve}
use origofs.PosixLock.Granted.{rows_after-Separate, rows_after-Upright}
use origofs.PosixLock.Held.{concerns, concerns-parts, held_only, held_still, held_now}
use origofs.PosixLock.Conflict.{granted_iff, refused}

-- The table after `setlk`: `resolve`, then `apply`.
unfoldable pub setlk : List PosixLock → LockRequest → List PosixLock
setlk existing req = apply existing (resolve existing req)

module _ (existing : List PosixLock) (req : LockRequest) where
  -- A request whose range is not inverted, on a table that passes `check_state`, leaves a table that
  -- passes it, whether it is granted or refused.
  pub setlk-check_state :
      check_state existing ≡ true → req.start ≤ req.end → check_state (setlk existing req) ≡ true
  unfolding setlk
  setlk-check_state h r = elim (Option-cases (test existing req)) [
    | inr (l, e) ↦ let (_, _, same) = refused existing req l e in rw same h
    | inl e ↦
        let (u, s) = check_state-parts existing h in
        let w = widened-IsWidened req existing u r in
        rw (apply-resolve existing req e) (
          check_state_of _ (All-sort_locks _ _ (rows_after-Upright existing req _ _ u s r w))
            (Separate-sort_locks _ (rows_after-Separate existing req _ _ u s r w)))
  ]

  Holds-sorted :
      (ls : List PosixLock) (o : Text) (b : ℕ) (k : Bool)
      → Holds ls o b k
      → Holds (sort_locks ls) o b k
  Holds-sorted ls o b k (l, i, at) = (l, In-sort_locks l ls i, at)

  Holds-unsorted :
      (ls : List PosixLock) (o : Text) (b : ℕ) (k : Bool)
      → Holds (sort_locks ls) o b k
      → Holds ls o b k
  Holds-unsorted ls o b k (l, i, at) = (l, In-sort_locks_inv l ls i, at)

  -- Where the table passes `check_state`, the range is not inverted and no row blocks the request,
  -- afterwards the owner holds every byte asked for in the mode asked for (none of them after an
  -- unlock), and every other byte and owner is as before.
  pub setlk-held_at :
      (o : Text) (b : ℕ)
      → check_state existing ≡ true
      → req.start ≤ req.end
      → test existing req ≡ none
      → held_at (setlk existing req) o b ≡ (
          if concerns req o b
          then if is_unlock req.kind then none else some (wants_exclusive req.kind)
          else held_at existing o b)
  setlk-held_at o b h r e =
      let (u, s) = check_state-parts existing h in
      let w = widened-IsWidened req existing u r in
      let rows = rows_after existing req (low existing req) (high existing req) in
      let sep = Separate-sort_locks rows (rows_after-Separate existing req _ _ u s r w) in
      let only = held_only existing req _ _ u s r w o b in
      unfold setlk in
      rw (apply-resolve existing req e) (elim (Bool-cases (concerns req o b)) [
        | inl c ↦ elim (Bool-cases (is_unlock req.kind)) [
          | inl k ↦
              rw (c, k)
                (held_at-none (sort_locks rows) o b (λ m at.
                  elim (only m (Holds-unsorted rows o b m at)) [
                    | inl (c', _) ↦ cc
                    | inr (_, k', _) ↦ cc
                  ]))
          | inr k ↦
              rw (c, k)
                (Holds-held_at (sort_locks rows) o b _ sep
                  (Holds-sorted rows o b _ (held_now existing req _ _ u s r w o b c k)))
        ]
        | inr c ↦ rw c (elim (Option-cases (held_at existing o b)) [
          | inl n ↦ rw n (
              held_at-none (sort_locks rows) o b (λ m at.
                elim (only m (Holds-unsorted rows o b m at)) [
                  | inl (_, old) ↦ let g = Holds-held_at existing o b m s old in cc
                  | inr (c', _, _) ↦ cc
                ]))
          | inr (m, f) ↦ rw f (
              Holds-held_at (sort_locks rows) o b m sep (
                Holds-sorted rows o b m
                  (held_still existing req _ _ u s r w o b m c (held_at-Holds existing o b m f))))
        ])
      ])

-- No byte is held by two owners of which one is exclusive.
abbrev pub IsExclusive : List PosixLock → Type 0
IsExclusive ls =
    (o o' : Text) (b : ℕ) (k k' : Bool)
    → o ≢ o'
    → held_at ls o b ≡ some k
    → held_at ls o' b ≡ some k'
    → (k ≡ false) × (k' ≡ false)

module _ (existing : List PosixLock) (req : LockRequest) where
  -- A granted lock is beside readers only.
  beside :
      (o o' : Text) (b : ℕ) (k : Bool)
      → test existing req ≡ none
      → concerns req o b ≡ true
      → is_unlock req.kind ≡ false
      → o ≢ o'
      → held_at existing o' b ≡ some k
      → (wants_exclusive req.kind ≡ false) × (k ≡ false)
  beside o o' b k e c n ne h =
      let (l, i, at) = held_at-Holds existing o' b k h in
      let (p, q, t) = concerns-parts req o b c in
      let free = (granted_iff existing req).0 e l i in
      let block = λ (m : (l.is_exclusive ≡ true) ⊎ (wants_exclusive req.kind ≡ true)).
        free (record {
          locking = n;
          foreign = λ f. ne (p ∙ sym f ∙ at.owned);
          below = omega (arith, at.low);
          above = omega (arith, at.high);
          modes = m;
        }) in
      (
        elim (Bool-cases (wants_exclusive req.kind)) [ inl m ↦ absurd (block (inr m)) | inr m ↦ m ],
        elim (Bool-cases k) [ inl m ↦ absurd (block (inl (at.mode ∙ m))) | inr m ↦ m ],
      )

  -- On a table that passes `check_state` and where no byte that one owner holds exclusively is held
  -- by another, a request whose range is not inverted, granted or refused, keeps it so.
  pub setlk-IsExclusive :
      check_state existing ≡ true
      → req.start ≤ req.end
      → IsExclusive existing
      → IsExclusive (setlk existing req)
  setlk-IsExclusive h r x o o' b k k' ne p p' = elim (Option-cases (test existing req)) [
    | inr (l, e) ↦
        let (_, _, same) = refused existing req l e in
        let f : setlk existing req ≡ existing = unfold setlk in same in
        x o o' b k k' ne (rw f at p) (rw f at p')
    | inl e ↦
        let q = sym (setlk-held_at existing req o b h r e) ∙ p in
        let q' = sym (setlk-held_at existing req o' b h r e) ∙ p' in
        elim (Bool-cases (concerns req o b)) [
          | inl c ↦ elim (Bool-cases (concerns req o' b)) [
            | inl c' ↦
                absurd (ne ((concerns-parts req o b c).0 ∙ sym (concerns-parts req o' b c').0))
            | inr c' ↦
                let g : held_at existing o' b ≡ some k' = rw c' at q' in
                let n : is_unlock req.kind ≡ false = ground arith in
                let (m, m') = beside o o' b k' e c n ne g in (ground arith, m')
          ]
          | inr c ↦ elim (Bool-cases (concerns req o' b)) [
            | inl c' ↦
                let g : held_at existing o b ≡ some k = rw c at q in
                let n : is_unlock req.kind ≡ false = ground arith in
                let (m, m') = beside o' o b k e c' n (λ f. ne (sym f)) g in (m', ground arith)
            | inr c' ↦ x o o' b k k' ne (rw c at q) (rw c' at q')
          ]
        ]
  ]

-- A run of requests, in the order in which the transactions commit.
unfoldable pub run : List PosixLock → List LockRequest → List PosixLock
run locks [] = locks
run locks (req ∷ reqs) = run (setlk locks req) reqs

run_from :
    (reqs : List LockRequest) (locks : List PosixLock)
    → All (λ req. req.start ≤ req.end) reqs
    → check_state locks ≡ true
    → IsExclusive locks
    → (check_state (run locks reqs) ≡ true) × IsExclusive (run locks reqs)
unfolding run
run_from [] locks rs h x = (h, x)
run_from (req ∷ reqs) locks (r, rs) h x =
    run_from reqs (setlk locks req) rs (setlk-check_state locks req h r)
      (setlk-IsExclusive locks req h r x)

-- Any sequence of requests whose ranges are not inverted takes the empty table to one that passes
-- `check_state`, with no byte that one owner holds exclusively and another holds at all.
pub run_safe :
    (reqs : List LockRequest)
    → All (λ req. req.start ≤ req.end) reqs
    → (check_state (run [] reqs) ≡ true) × IsExclusive (run [] reqs)
run_safe reqs rs =
    run_from reqs [] rs (unfold check_state no_clash in refl)
      (λ o o' b k k' ne p p'. absurd (unfold held_at in ground arith))
