-- ===== src/Retry.antt =====
-- crates/origofs-core/src/retry.rs: the loop that runs an operation again while its errors ask for it.
-- The pauses between attempts and the log lines have no part here.
pub mod Attempts
mod Examples
use origofs.Base.{ℕ, zero, suc, Bool, ◌&&◌, ltb, if◌then◌else◌, ok, err}
use origofs.Errors.{OrigofsError, Outcome, retryable, metadata}

abbrev pub max_attempts : ℕ
max_attempts = 5

-- From one attempt on, with as many left: the result, and the attempt that gave it. `op` answers each
-- attempt by its number. Without an attempt left the code ends in an error of its own.
unfoldable pub retrying_from : {T : Type 0} → (ℕ → Outcome T) → ℕ → ℕ → Outcome T × ℕ
unfolding retryable
retrying_from op attempt zero = (err metadata, attempt)
retrying_from op attempt (suc left) =
    let again = retrying_from op (suc attempt) left in
    elim (op attempt) [
      | ok value ↦ (ok value, attempt)
      | err e ↦ if retryable e && ltb attempt max_attempts then again else (err e, attempt)
    ]

unfoldable pub retrying : {T : Type 0} → (ℕ → Outcome T) → Outcome T × ℕ
unfolding retrying_from
retrying op = retrying_from op 1 max_attempts
