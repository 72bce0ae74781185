-- ===== src/Scope.antt =====
-- crates/origofs-core/src/scope.rs: a surface's view of one subtree of the workspace.
pub mod Laws
mod Examples
use origofs.Base.{
  ℕ, Bool, true, false, not, ◌||◌, Option, none, some, List, [], ◌∷◌, ◌++◌, Text, text_eq,
  if◌then◌else◌, Result, ok, err, ◌>>=◌, ◌>>◌, guard, retain,
}
use origofs.Errors.{Outcome, invalid_argument, invalid_path}
use origofs.Paths.{
  slash, is_empty, starts_with_slash, has_byte, strip_prefix, has_dotdot, trim_slashes, trim,
}

-- Empty means the whole workspace.
pub record Scope : Type 0 where
  pub root : Text

pub data ScopeError : Type 0 where
  traversal out_of_scope : ScopeError

unfoldable pub whole : Scope
whole = record { root = [] }

unfoldable pub at : Text → Outcome Scope
unfolding trim trim_slashes has_dotdot
at root = do
  let trimmed = trim root
  guard (starts_with_slash trimmed || is_empty trimmed) invalid_argument
  let normalized = trim_slashes trimmed
  guard (not (has_dotdot normalized)) invalid_path
  guard (not (has_byte 0 normalized)) invalid_path
  ok (record { root = normalized })

unfoldable pub is_whole : Scope → Bool
is_whole s = is_empty s.root

-- `strip_prefix(root).is_some_and(|rest| rest.starts_with('/'))`.
unfoldable pub continues : Text → Text → Bool
unfolding strip_prefix
continues root path = elim (strip_prefix root path) [
  | none ↦ false
  | some rest ↦ starts_with_slash rest
]

unfoldable pub contains : Scope → Option Text → Bool
unfolding is_whole continues
contains s none = is_whole s
contains s (some path) = if is_whole s then true else text_eq path s.root || continues s.root path

unfoldable pub absolute : Text → Text
absolute path = if starts_with_slash path then path else slash ∷ path

-- What `resolve` answers, given the path made absolute and free of `..`.
unfoldable pub placed : Scope → Text → Text
unfolding is_whole
placed s abs =
    if is_whole s then abs else if text_eq abs (slash ∷ []) then s.root else s.root ++ abs

unfoldable pub resolve : Scope → Text → Result ScopeError Text
unfolding absolute placed has_dotdot
resolve s path = do
  let abs = absolute path
  guard (not (has_dotdot abs)) traversal
  ok (placed s abs)

unfoldable pub resolve_opt : Scope → Option Text → Result ScopeError (Option Text)
unfolding resolve
resolve_opt s none = ok none
resolve_opt s (some path) = resolve s path >>= λ p. ok (some p)

unfoldable pub require : Scope → Option Text → Result ScopeError (Unit {0})
unfolding contains
require s path = if contains s path then ok tt else err out_of_scope

unfoldable pub filter : {T : Type 0} → Scope → List T → (T → Option Text) → List T
unfolding contains is_whole
filter s items key = if is_whole s then items else retain (λ i. contains s (key i)) items
