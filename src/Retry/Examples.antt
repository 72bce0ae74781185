-- ===== src/Retry/Examples.antt =====
-- An operation that succeeds at its third attempt.
use origofs.Base.{ℕ, suc, ◌≡◌, refl, ok, err}
use origofs.Errors.{Outcome, backend, retryable_class, retryable, class_retryable}
use origofs.Retry.{retrying, retrying_from}
use origofs.Retry.Attempts.{IsLast, retrying-IsLast}

unfoldable third : ℕ → Outcome ℕ
third (suc (suc (suc n))) = ok 7
third _ = err (backend retryable_class)

third_time : retrying third ≡ (ok 7, 3)
unfolding retrying retrying_from third retryable class_retryable
third_time = refl

retrying-IsLast_example : IsLast third 1 (retrying third)
retrying-IsLast_example = retrying-IsLast third
