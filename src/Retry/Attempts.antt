-- ===== src/Retry/Attempts.antt =====
-- Which attempt a retried operation ends with.
use origofs.Base.{
  ℕ, zero, suc, ◌+◌, ◌≡◌, ◌<◌, ◌≤◌, inl, inr, refl, sym, ap, subst, ◌∙◌, true, ◌&&◌, ltb,
  if◌then◌else◌, ok, err, Bool-cases, arith,
}
use origofs.Errors.{OrigofsError, Outcome, retryable}
use origofs.Retry.{max_attempts, retrying_from, retrying}

-- The result is the answer of the attempt it names, which is one of those left; a retryable error
-- comes from the last of all.
pub record IsLast {T : Type 0} (op : ℕ → Outcome T) (first : ℕ) (r : Outcome T × ℕ) : Type 0 where
  pub answer : r.0 ≡ op r.1
  pub from : first ≤ r.1
  pub bounded : r.1 ≤ max_attempts
  pub earlier :
      (k : ℕ) → first ≤ k → k < r.1 → (e : OrigofsError) × (op k ≡ err e) × (retryable e ≡ true)
  pub spent : (e : OrigofsError) → r.0 ≡ err e → retryable e ≡ true → r.1 ≡ max_attempts

module _ {T : Type 0} (op : ℕ → Outcome T) where
  retrying_from-done :
      (attempt : ℕ)
      → attempt ≤ max_attempts
      → ((e : OrigofsError) → op attempt ≡ err e → retryable e ≡ true → attempt ≡ max_attempts)
      → IsLast op attempt (op attempt, attempt)
  retrying_from-done attempt h f = record {
    answer = refl;
    from = omega arith;
    bounded = h;
    earlier = λ k a b. absurd (omega arith);
    spent = f;
  }

  -- An error that is retried: what the next attempts give is what this one gives.
  IsLast-again :
      (attempt : ℕ) (e : OrigofsError) (r : Outcome T × ℕ)
      → op attempt ≡ err e
      → retryable e ≡ true
      → IsLast op (suc attempt) r
      → IsLast op attempt r
  IsLast-again attempt e r q t ih = record {
    answer = ih.answer;
    from = let l = ih.from in omega arith;
    bounded = ih.bounded;
    earlier = λ k a b. elim (Bool-cases (ltb attempt k)) [
      | inl c ↦ ih.earlier k (ground (arith, c)) b
      | inr c ↦ let z : attempt ≡ k = ground (arith, c, a) in (e, ap op (sym z) ∙ q, t)
    ];
    spent = ih.spent;
  }

  IsLast-round :
      (attempt left : ℕ) (o : Outcome T)
      → attempt + suc left ≡ suc max_attempts
      → (1 ≤ left → IsLast op (suc attempt) (retrying_from op (suc attempt) left))
      → op attempt ≡ o
      → IsLast op attempt (elim o [
        | ok value ↦ (ok value, attempt)
        | err e ↦
            if retryable e && ltb attempt max_attempts
            then retrying_from op (suc attempt) left
            else (err e, attempt)
      ])
  IsLast-round attempt left (ok v) h ih q =
      subst (λ z. IsLast op attempt (z, attempt)) q
        (retrying_from-done attempt (omega arith) (λ e k _. cc))
  IsLast-round attempt left (err e) h ih q =
      elim (Bool-cases (retryable e && ltb attempt max_attempts)) [
        | inl b ↦
            let t : retryable e ≡ true = ground (arith, b) in
            let more : 1 ≤ left = ground (arith, b, h) in
            rw b (IsLast-again attempt e _ q t (ih more))
        | inr b ↦ rw b (
            subst (λ z. IsLast op attempt (z, attempt)) q
              (retrying_from-done attempt (omega arith) (λ e' k t.
                let same : e' ≡ e = cc in
                let t' : retryable e ≡ true = rw same at t in ground (arith, b, t', h))))
      ]

  IsLast-retrying_from :
      (attempt left : ℕ)
      → attempt + left ≡ suc max_attempts
      → 1 ≤ left
      → IsLast op attempt (retrying_from op attempt left)
  unfolding retrying_from
  IsLast-retrying_from attempt zero h l = absurd (omega arith)
  IsLast-retrying_from attempt (suc left) h l =
      IsLast-round attempt left (op attempt) h
        (λ more. IsLast-retrying_from (suc attempt) left (omega arith) more) refl

-- A retried operation returns the answer of one of its attempts, at most the fifth, and never the
-- loop's own error: all attempts before it failed with a retryable error, and a retryable error is
-- returned only by the fifth.
pub retrying-IsLast : {T : Type 0} (op : ℕ → Outcome T) → IsLast op 1 (retrying op)
unfolding retrying
retrying-IsLast op = IsLast-retrying_from op 1 max_attempts refl (omega arith)
