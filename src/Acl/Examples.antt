-- ===== src/Acl/Examples.antt =====
-- The theorems on grants at a project of two actors.
use origofs.Base.{
  ◌≡◌, ◌↔◌, ◌≤◌, refl, true, false, some, List, [], ◌∷◌, Text, codes, length, ok, text_discrete,
  arith,
}
use origofs.Paths.{trim, trim_slashes, has_dotdot, split_slash, cut_last}
use origofs.Scope.{Scope, at, contains}
use origofs.Acl
use origofs.Acl.{
  Perms, propose_only, from_policy, update_policy, cached_policy, decided, loaded_at,
  write_policy_of, no_perms, write_perms, direct, AclGrant, PrefixMap, get, indexed, ActorAcl,
  ancestors, ancestors_from, first_of, perms_at, AclCache, AclStore, empty_cache, cached_actor,
  lookup, effective_perms, list_acl, longest_first, insert_longest, put, actor_acl,
  bump_acl_generation, set_acl, grant, grant_as, and_then, ensure_may_write_at, ensure_may_rename,
  delegatable,
}
use origofs.Acl.Longest.{perms_at_longest}
use origofs.Acl.Cache.{fresh, IsExact}
use origofs.Acl.History.{
  AclEvent, checked, policy_set_elsewhere, store_after, cache_after, granted, history,
  IsExact-empty_cache, effective_perms-history,
}
use origofs.Acl.Delegate.{ensure_may_rename_iff, HandsOn, grant_as_sound}

abbrev read_write : Perms
read_write = record { read = true; write = true; propose = false }

abbrev project : AclStore
project = record {
  generation = 5;
  default_deny = true;
  enforce_reads = false;
  acl =
      record { actor_id = 1; path_prefix = codes "/p"; perms = read_write }
      ∷ record { actor_id = 1; path_prefix = codes "/p/s"; perms = no_perms }
      ∷ [];
  policies = λ _. some direct;
}

abbrev of_alice : ActorAcl
of_alice = record {
  by_prefix = (codes "/p", read_write) ∷ (codes "/p/s", no_perms) ∷ [];
  policy = direct;
}

loaded : actor_acl (list_acl project 1) direct ≡ of_alice
unfolding actor_acl indexed list_acl longest_first insert_longest at trim trim_slashes has_dotdot
    split_slash text_discrete
loaded = refl

below_secret : perms_at of_alice (codes "/p/s/k") ≡ some no_perms
unfolding perms_at first_of ancestors ancestors_from cut_last get text_discrete
below_secret = refl

perms_at_longest_example :
    (prefix : Text) × (get of_alice.by_prefix prefix ≡ some no_perms)
    × (contains (record { root = prefix }) (some (codes "/p/s/k")) ≡ true)
    × ((other : Text) (q : Perms)
        → get of_alice.by_prefix other ≡ some q
        → contains (record { root = other }) (some (codes "/p/s/k")) ≡ true
        → length other ≤ length prefix)
perms_at_longest_example = perms_at_longest of_alice (codes "/p/s/k") no_perms below_secret

abbrev of_a_stranger : List AclEvent
of_a_stranger = checked 3 (codes "/q") ∷ policy_set_elsewhere 3 propose_only ∷ []

abbrev open_project : AclStore
open_project = record project { default_deny = false }

-- A policy set in another workspace does not reach the cache: the actor 3 still writes.
stale_policy :
    ((effective_perms
        (history of_a_stranger (open_project, empty_cache)).0
        (history of_a_stranger (open_project, empty_cache)).1
        3
        (codes "/q")).0
      ≡ from_policy direct)
    × (fresh (history of_a_stranger (open_project, empty_cache)).0 3 (codes "/q")
        ≡ from_policy propose_only)
unfolding history store_after cache_after update_policy fresh effective_perms lookup put
    cached_actor cached_policy decided loaded_at write_policy_of actor_acl indexed list_acl
    longest_first insert_longest perms_at first_of ancestors ancestors_from cut_last get
    text_discrete
stale_policy = (refl, refl)

abbrev day : List AclEvent
day = checked 1 (codes "/p/a") ∷ granted 2 (codes "/p") read_write ∷ checked 2 (codes "/p/b") ∷ []

effective_perms-history_example :
    (effective_perms
      (history day (project, empty_cache)).0
      (history day (project, empty_cache)).1
      2
      (codes "/p/s")).0
    ≡ fresh (history day (project, empty_cache)).0 2 (codes "/p/s")
effective_perms-history_example =
    effective_perms-history day project 2 (codes "/p/s") (tt, (tt, (tt, tt))) (omega arith)

nothing_cached : IsExact project empty_cache
nothing_cached = IsExact-empty_cache project

ensure_may_rename_iff_example :
    ((ensure_may_rename project empty_cache 1 (codes "/p/a") (codes "/p/s/a")).0 ≡ ok tt) ↔ (
      (Acl.contains (fresh project 1 (codes "/p/a")) write_perms ≡ true)
      × (Acl.contains (fresh project 1 (codes "/p/s/a")) write_perms ≡ true))
ensure_may_rename_iff_example =
    ensure_may_rename_iff project empty_cache 1 (codes "/p/a") (codes "/p/s/a") nothing_cached

abbrev shared_project : AclStore
shared_project = bump_acl_generation (set_acl project 2 (codes "/p") read_write)

delegated : (grant_as project empty_cache 1 2 (codes "/p/") read_write).0 ≡ ok shared_project
unfolding grant_as and_then ensure_may_write_at effective_perms lookup put cached_actor delegatable
    grant bump_acl_generation set_acl actor_acl indexed list_acl longest_first insert_longest at
    trim trim_slashes has_dotdot split_slash perms_at first_of ancestors ancestors_from cut_last get
    text_discrete
delegated = refl

grant_as_sound_example :
    (scope : Scope) × (at (codes "/p/") ≡ ok scope)
    × (Acl.contains (fresh project 1 scope.root) write_perms ≡ true)
    × HandsOn (fresh project 1 scope.root) read_write
    × (grant project 2 (codes "/p/") read_write ≡ ok shared_project)
grant_as_sound_example =
    grant_as_sound project shared_project empty_cache 1 2 (codes "/p/") read_write nothing_cached
      delegated
