-- ===== src/Scope/Examples.antt =====
-- The theorems on scopes at a tenant's scope.
use origofs.Base.{◌≡◌, refl, true, false, some, codes, ok, text_discrete}
use origofs.Paths.{has_dotdot, split_slash, trim, trim_slashes, strip_prefix}
use origofs.Scope.{Scope, at, is_whole, continues, contains, absolute, placed, resolve}
use origofs.Scope.Laws.{resolve_inside}

abbrev tenant : Scope
tenant = record { root = codes "/tenant-a" }

built : at (codes " /tenant-a/ ") ≡ ok tenant
unfolding at trim trim_slashes has_dotdot split_slash text_discrete
built = refl

neighbour : contains tenant (some (codes "/tenant-abc")) ≡ false
unfolding contains is_whole continues strip_prefix text_discrete
neighbour = refl

resolved : resolve tenant (codes "notes/a.md") ≡ ok (codes "/tenant-a/notes/a.md")
unfolding resolve absolute placed is_whole has_dotdot split_slash text_discrete
resolved = refl

resolve_inside_example :
    (contains tenant (some (codes "/tenant-a/notes/a.md")) ≡ true)
    × (has_dotdot (codes "/tenant-a/notes/a.md") ≡ false)
resolve_inside_example =
    resolve_inside (codes " /tenant-a/ ") (codes "notes/a.md") (codes "/tenant-a/notes/a.md") tenant
      built resolved
