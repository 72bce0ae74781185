-- ===== src/Errors.antt =====
-- crates/origofs-core/src/error.rs: the error type, less its message texts, and its classes.
use origofs.Base.{ℕ, Bool, true, false, Text, Result}

pub data ErrorClass : Type 0 where
  retryable_class unavailable fatal : ErrorClass

-- `content` also stands for what an object kind calls malformed; `unsupported_version` keeps the
-- kind's name, the version found and the highest one that this build reads.
pub data OrigofsError : Type 0 where
  not_found already_exists not_a_directory is_a_directory directory_not_empty : OrigofsError
  invalid_path invalid_argument : OrigofsError
  conflict stale_base already_resolved foreign_write : OrigofsError
  denied too_large corrupt : OrigofsError
  unsupported_version : Text → ℕ → ℕ → OrigofsError
  content_missing metadata content : OrigofsError
  backend : ErrorClass → OrigofsError
  io : OrigofsError

abbrev pub Outcome : Type 0 → Type 0
Outcome A = Result OrigofsError A

unfoldable pub class_retryable : ErrorClass → Bool
class_retryable retryable_class = true
class_retryable unavailable = true
class_retryable fatal = false

unfoldable pub retryable : OrigofsError → Bool
unfolding class_retryable
retryable (backend c) = class_retryable c
retryable _ = false

unfoldable pub is_conflict : OrigofsError → Bool
is_conflict conflict = true
is_conflict stale_base = true
is_conflict foreign_write = true
is_conflict already_resolved = true
is_conflict _ = false
