-- ===== src/Acl.antt =====
-- crates/origofs-core/src/acl.rs: what an actor may do at a path, from grants on path prefixes, and
-- the cache of the answers.
pub mod Longest
pub mod Cache
pub mod Delegate
mod Examples
pub mod History
use origofs.Base.{
  ℕ, zero, suc, ◌+◌, ◌*◌, ◌/◌, ◌%◌, ◌^◌, Bool, true, false, not, ◌&&◌, ◌||◌, Option, none, some,
  List, [], ◌∷◌, ◌++◌, Text, text_eq, codes, ltb, ◌==◌, if◌then◌else◌, length, ok, err, ◌>>=◌, ◌>>◌,
  guard, retain, any_of,
}
use origofs.Errors.{Outcome, denied, not_found}
use origofs.Paths.{slash, is_empty, cut_last, trim_slashes}
use origofs.Scope.{Scope, at}

-- `Perms(u32)` is private and never has a bit beyond these three.
pub record Perms : Type 0 where
  pub read : Bool
  pub write : Bool
  pub propose : Bool

abbrev pub read_perms : Perms
read_perms = record { read = true; write = false; propose = false }

abbrev pub write_perms : Perms
write_perms = record { read = false; write = true; propose = false }

abbrev pub propose_perms : Perms
propose_perms = record { read = false; write = false; propose = true }

abbrev pub no_perms : Perms
no_perms = record { read = false; write = false; propose = false }

bit : Bool → ℕ
bit b = if b then 1 else 0

unfoldable pub bits : Perms → ℕ
unfolding bit
bits p = bit p.read + 2 * bit p.write + 4 * bit p.propose

-- `Perms(b & 0b111)`.
unfoldable pub from_bits : ℕ → Perms
from_bits b = record {
  read = (b % 2) == 1;
  write = ((b / 2) % 2) == 1;
  propose = ((b / 4) % 2) == 1;
}

-- `self.0 & other.0 == other.0`.
abbrev pub contains : Perms → Perms → Bool
contains p q = (p.read || not q.read) && (p.write || not q.write) && (p.propose || not q.propose)

-- `|`.
abbrev pub union : Perms → Perms → Perms
union p q = record {
  read = p.read || q.read;
  write = p.write || q.write;
  propose = p.propose || q.propose;
}

pub data WritePolicy : Type 0 where
  direct propose_only : WritePolicy

abbrev pub from_policy : WritePolicy → Perms
from_policy direct = record { read = true; write = true; propose = true }
from_policy propose_only = record { read = true; write = false; propose = true }

-- A row of the `acl` table, less its audit columns.
pub record AclGrant : Type 0 where
  pub actor_id : ℕ
  pub path_prefix : Text
  pub perms : Perms

-- The `HashMap<String, Perms>`: an insert goes in front, where it hides what stood under its key.
abbrev pub PrefixMap : Type 0
PrefixMap = List (Text × Perms)

unfoldable pub get : PrefixMap → Text → Option Perms
get [] k = none
get ((k', p) ∷ m) k = let rest = get m k in if text_eq k k' then some p else rest

-- `filter_map(..).collect()`: the grants whose prefix parses, inserted in their order.
unfoldable pub indexed : List AclGrant → PrefixMap → PrefixMap
indexed [] m = m
indexed (g ∷ gs) m = elim (at g.path_prefix) [
  | ok s ↦ indexed gs ((s.root, g.perms) ∷ m)
  | err _ ↦ indexed gs m
]

pub record ActorAcl : Type 0 where
  pub by_prefix : PrefixMap
  pub policy : WritePolicy

unfoldable pub actor_acl : List AclGrant → WritePolicy → ActorAcl
unfolding indexed
actor_acl grants policy = record { by_prefix = indexed grants []; policy = policy }

-- The walk of `ancestors`. Each round but the last leaves a shorter text, so that one more round
-- than the path has bytes is enough.
unfoldable pub ancestors_from : ℕ → Text → List Text
ancestors_from zero current = []
ancestors_from (suc n) current = current ∷ elim (cut_last current) [
  | some p ↦ ancestors_from n p
  | none ↦ if is_empty current then [] else ancestors_from n []
]

unfoldable pub ancestors : Text → List Text
unfolding ancestors_from
ancestors path = ancestors_from (suc (length path)) path

unfoldable pub first_of : PrefixMap → List Text → Option Perms
unfolding get
first_of m [] = none
first_of m (k ∷ ks) = elim (get m k) [ some p ↦ some p | none ↦ first_of m ks ]

unfoldable pub perms_at : ActorAcl → Text → Option Perms
unfolding first_of ancestors
perms_at acl path = elim acl.by_prefix [
  | [] ↦ none
  | _ ∷ _ ↦ first_of acl.by_prefix (ancestors path)
]

-- `CacheInner`. The actors are a map as above.
pub record AclCache : Type 0 where
  pub generation : Option ℕ
  pub default_deny : Bool
  pub enforce_reads : Bool
  pub actors : List (ℕ × ActorAcl)

abbrev pub empty_cache : AclCache
empty_cache = record { generation = none; default_deny = false; enforce_reads = false; actors = [] }

unfoldable pub cached_actor : List (ℕ × ActorAcl) → ℕ → Option ActorAcl
cached_actor [] actor = none
cached_actor ((a, acl) ∷ m) actor =
    let rest = cached_actor m actor in if a == actor then some acl else rest

-- `inner.generation == Some(generation)`.
abbrev pub loaded_at : AclCache → ℕ → Bool
loaded_at c generation = elim c.generation [ none ↦ false | some g ↦ g == generation ]

unfoldable pub lookup : AclCache → ℕ → ℕ → Text → Option (Option Perms × Bool)
unfolding cached_actor perms_at
lookup c generation actor path =
    if loaded_at c generation
    then elim (cached_actor c.actors actor) [
      | none ↦ none
      | some acl ↦ some (perms_at acl path, c.default_deny)
    ]
    else none

unfoldable pub cached_policy : AclCache → ℕ → ℕ → WritePolicy
unfolding cached_actor
cached_policy c generation actor =
    if loaded_at c generation
    then elim (cached_actor c.actors actor) [ none ↦ direct | some acl ↦ acl.policy ]
    else direct

unfoldable pub settings : AclCache → ℕ → Option (Bool × Bool)
settings c generation =
    if loaded_at c generation then some (c.default_deny, c.enforce_reads) else none

unfoldable pub put : AclCache → ℕ → Bool → Bool → ℕ → ActorAcl → AclCache
put c generation default_deny enforce_reads actor acl =
    let kept = if loaded_at c generation then c.actors else [] in
    record {
      generation = some generation;
      default_deny = default_deny;
      enforce_reads = enforce_reads;
      actors = (actor, acl) ∷ kept;
    }

unfoldable pub put_settings : AclCache → ℕ → Bool → Bool → AclCache
put_settings c generation default_deny enforce_reads = record {
  generation = some generation;
  default_deny = default_deny;
  enforce_reads = enforce_reads;
  actors = if loaded_at c generation then c.actors else [];
}

-- The rows that an answer of one workspace depends on, in the metadata store. Its calls succeed here.
-- The generation, the switches and the grants are the workspace's own.
pub record AclStore : Type 0 where
  pub generation : ℕ
  pub default_deny : Bool
  pub enforce_reads : Bool
  pub acl : List AclGrant
  -- The `write_policy` column of the actors that there are, in a table that every workspace of the
  -- store shares.
  pub policies : ℕ → Option WritePolicy

-- `list_acl(Some(actor))`: the actor's rows, a longer prefix first.
insert_longest : AclGrant → List AclGrant → List AclGrant
insert_longest g [] = g ∷ []
insert_longest g (h ∷ hs) =
    let rest = insert_longest g hs in
    if ltb (length g.path_prefix) (length h.path_prefix) then h ∷ rest else g ∷ h ∷ hs

longest_first : List AclGrant → List AclGrant
longest_first [] = []
longest_first (g ∷ gs) = insert_longest g (longest_first gs)

unfoldable pub list_acl : AclStore → ℕ → List AclGrant
unfolding longest_first insert_longest
list_acl s actor = longest_first (retain (λ g. g.actor_id == actor) s.acl)

-- What `effective_perms` makes of a match.
abbrev pub decided : Option Perms → Bool → WritePolicy → Perms
decided (some p) default_deny policy = p
decided none default_deny policy = if default_deny then no_perms else from_policy policy

-- crates/origofs-core/src/suggest.rs.
abbrev pub write_policy_of : AclStore → ℕ → WritePolicy
write_policy_of s actor = elim (s.policies actor) [ some policy ↦ policy | none ↦ direct ]

unfoldable pub effective_perms : AclStore → AclCache → ℕ → Text → Perms × AclCache
unfolding lookup cached_policy actor_acl perms_at list_acl put
effective_perms s c actor path = elim (lookup c s.generation actor path) [
  | some (matched, default_deny) ↦
      (decided matched default_deny (cached_policy c s.generation actor), c)
  | none ↦
      let acl = actor_acl (list_acl s actor) (write_policy_of s actor) in
      (
        decided (perms_at acl path) s.default_deny (write_policy_of s actor),
        put c s.generation s.default_deny s.enforce_reads actor acl,
      )
]

unfoldable pub acl_settings : AclStore → AclCache → (Bool × Bool) × AclCache
unfolding settings put_settings
acl_settings s c = elim (settings c s.generation) [
  | some hit ↦ (hit, c)
  | none ↦ (
    (s.default_deny, s.enforce_reads),
    put_settings c s.generation s.default_deny s.enforce_reads,
  )
]

-- `bump_acl_generation`, with its `wrapping_add(1)`.
unfoldable pub bump_acl_generation : AclStore → AclStore
bump_acl_generation s = record {
  generation = (s.generation + 1) % 2 ^ 64;
  default_deny = s.default_deny;
  enforce_reads = s.enforce_reads;
  acl = s.acl;
  policies = s.policies;
}

is_row : ℕ → Text → AclGrant → Bool
is_row actor prefix g = (g.actor_id == actor) && text_eq g.path_prefix prefix

unfoldable pub set_acl : AclStore → ℕ → Text → Perms → AclStore
unfolding is_row
set_acl s actor prefix perms = record {
  generation = s.generation;
  default_deny = s.default_deny;
  enforce_reads = s.enforce_reads;
  acl =
      record { actor_id = actor; path_prefix = prefix; perms = perms }
      ∷ retain (λ g. not (is_row actor prefix g)) s.acl;
  policies = s.policies;
}

unfoldable pub remove_acl : AclStore → ℕ → Text → Bool × AclStore
unfolding is_row
remove_acl s actor prefix = (
  any_of (is_row actor prefix) s.acl,
  record {
    generation = s.generation;
    default_deny = s.default_deny;
    enforce_reads = s.enforce_reads;
    acl = retain (λ g. not (is_row actor prefix g)) s.acl;
    policies = s.policies;
  },
)

unfoldable pub grant : AclStore → ℕ → Text → Perms → Outcome AclStore
unfolding bump_acl_generation set_acl
grant s actor path_prefix perms = do
  scope ← at path_prefix
  ok (bump_acl_generation (set_acl s actor scope.root perms))

unfoldable pub revoke : AclStore → ℕ → Text → Outcome (Bool × AclStore)
unfolding bump_acl_generation remove_acl
revoke s actor path_prefix = do
  scope ← at path_prefix
  let (removed, after) = remove_acl s actor scope.root
  ok (removed, if removed then bump_acl_generation after else s)

unfoldable pub set_acl_default_deny : AclStore → Bool → AclStore
unfolding bump_acl_generation
set_acl_default_deny s deny = bump_acl_generation (record {
  generation = s.generation;
  default_deny = deny;
  enforce_reads = s.enforce_reads;
  acl = s.acl;
  policies = s.policies;
})

unfoldable pub set_acl_enforce_reads : AclStore → Bool → AclStore
unfolding bump_acl_generation
set_acl_enforce_reads s on = bump_acl_generation (record {
  generation = s.generation;
  default_deny = s.default_deny;
  enforce_reads = on;
  acl = s.acl;
  policies = s.policies;
})

-- `UPDATE actor SET write_policy = .. WHERE id = ..`, which names no workspace.
unfoldable pub update_policy : AclStore → ℕ → WritePolicy → Outcome AclStore
update_policy s actor policy = elim (s.policies actor) [
  | none ↦ err not_found
  | some _ ↦ ok (record {
    generation = s.generation;
    default_deny = s.default_deny;
    enforce_reads = s.enforce_reads;
    acl = s.acl;
    policies = λ a. let kept = s.policies a in if a == actor then some policy else kept;
  })
]

-- crates/origofs-core/src/attribution.rs: called in this workspace, whose generation it moves on.
-- Called in another one, it is `update_policy` here.
unfoldable pub set_write_policy : AclStore → ℕ → WritePolicy → Outcome AclStore
unfolding bump_acl_generation update_policy
set_write_policy s actor policy = do s' ← update_policy s actor policy; ok (bump_acl_generation s')

-- `?` between two calls that go through the cache.
unfoldable pub and_then :
    {A B : Type 0}
    → Outcome A × AclCache
    → (A → AclCache → Outcome B × AclCache)
    → Outcome B × AclCache
and_then (ok a, c) f = f a c
and_then (err e, c) f = (err e, c)

-- The op that a denial names is not kept.
unfoldable pub ensure_may_write_at : AclStore → AclCache → ℕ → Text → Outcome (Unit {0}) × AclCache
unfolding effective_perms
ensure_may_write_at s c actor path =
    let (perms, c') = effective_perms s c actor path in
    (if contains perms write_perms then ok tt else err denied, c')

unfoldable pub ensure_may_read_at : AclStore → AclCache → ℕ → Text → Outcome (Unit {0}) × AclCache
unfolding effective_perms acl_settings
ensure_may_read_at s c actor path =
    let ((_, enforce_reads), c') = acl_settings s c in
    let (perms, c'') = effective_perms s c' actor path in
    if enforce_reads
    then (if contains perms read_perms then ok tt else err denied, c'')
    else (ok tt, c')

unfoldable pub ensure_may_propose_at :
    AclStore → AclCache → ℕ → Text → Outcome (Unit {0}) × AclCache
unfolding effective_perms
ensure_may_propose_at s c actor path =
    let (perms, c') = effective_perms s c actor path in
    (if contains perms write_perms || contains perms propose_perms then ok tt else err denied, c')

unfoldable pub ensure_may_write_workspace : AclStore → AclCache → ℕ → Outcome (Unit {0}) × AclCache
unfolding ensure_may_write_at
ensure_may_write_workspace s c actor = ensure_may_write_at s c actor (slash ∷ [])

unfoldable pub ensure_may_rename :
    AclStore → AclCache → ℕ → Text → Text → Outcome (Unit {0}) × AclCache
unfolding ensure_may_write_at and_then
ensure_may_rename s c actor from to =
    and_then (ensure_may_write_at s c actor from) (λ _ c'. ensure_may_write_at s c' actor to)

unfoldable pub delegatable : Perms → Perms
delegatable perms = if contains perms write_perms then union perms propose_perms else perms

unfoldable pub grant_as : AclStore → AclCache → ℕ → ℕ → Text → Perms → Outcome AclStore × AclCache
unfolding ensure_may_write_at effective_perms delegatable grant and_then
grant_as s c by actor path_prefix perms =
    and_then (at path_prefix, c)
      λ scope c0. and_then (ensure_may_write_at s c0 by scope.root) λ _ c1.
        let (held, c2) = effective_perms s c1 by scope.root in
        (
          if contains (delegatable held) perms then grant s actor path_prefix perms else err denied,
          c2,
        )

unfoldable pub revoke_as : AclStore → AclCache → ℕ → ℕ → Text → Outcome (Bool × AclStore) × AclCache
unfolding ensure_may_write_at revoke and_then
revoke_as s c by actor path_prefix =
    and_then (at path_prefix, c)
      λ scope c0.
        and_then (ensure_may_write_at s c0 by scope.root) λ _ c1. (revoke s actor path_prefix, c1)
