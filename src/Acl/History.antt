-- ===== src/Acl/History.antt =====
-- Runs of checks by one worker between changes in its workspace by any: the answers stay those of the
-- store.
use origofs.Base.{
  ℕ, ◌+◌, ◌%◌, ◌^◌, ◌≡◌, ◌<◌, ◌≤◌, ◌⊎◌, inl, inr, refl, Bool, true, false, Option, none, some, List,
  [], ◌∷◌, Text, if◌then◌else◌, length, ok, err, ◌>>=◌, All, arith,
}
use origofs.Errors.{Outcome}
use origofs.Scope.{Scope, at}
use origofs.Acl.{
  Perms, AclCache, AclStore, empty_cache, effective_perms, acl_settings, WritePolicy,
  bump_acl_generation, set_acl, remove_acl, grant, revoke, set_acl_default_deny,
  set_acl_enforce_reads, set_write_policy, update_policy,
}
use origofs.Acl.Cache.{
  fresh, IsExact, effective_perms-fresh, IsExact-effective_perms, IsExact-acl_settings,
}

-- A check or a probe of the switches goes through the worker's cache; the others change the store,
-- and leave it as it is when they fail.
pub data AclEvent : Type 0 where
  checked : ℕ → Text → AclEvent
  probed : AclEvent
  granted : ℕ → Text → Perms → AclEvent
  revoked : ℕ → Text → AclEvent
  deny_set reads_set : Bool → AclEvent
  policy_set : ℕ → WritePolicy → AclEvent
  -- `set_write_policy`, called in another workspace of the store.
  policy_set_elsewhere : ℕ → WritePolicy → AclEvent

-- The event is one of this workspace.
abbrev pub IsHere : AclEvent → Type 0
IsHere (policy_set_elsewhere _ _) = ⊥
IsHere _ = Unit {0}

unfoldable pub store_after : AclEvent → AclStore → AclStore
unfolding grant revoke set_acl_default_deny set_acl_enforce_reads set_write_policy update_policy
store_after (checked actor path) s = s
store_after probed s = s
store_after (granted actor prefix perms) s = elim (grant s actor prefix perms) [
  | ok s' ↦ s'
  | err _ ↦ s
]
store_after (revoked actor prefix) s = elim (revoke s actor prefix) [ ok r ↦ r.1 | err _ ↦ s ]
store_after (deny_set deny) s = set_acl_default_deny s deny
store_after (reads_set on) s = set_acl_enforce_reads s on
store_after (policy_set actor policy) s = elim (set_write_policy s actor policy) [
  | ok s' ↦ s'
  | err _ ↦ s
]
store_after (policy_set_elsewhere actor policy) s = elim (update_policy s actor policy) [
  | ok s' ↦ s'
  | err _ ↦ s
]

unfoldable pub cache_after : AclEvent → AclStore → AclCache → AclCache
unfolding effective_perms acl_settings
cache_after (checked actor path) s c = (effective_perms s c actor path).1
cache_after probed s c = (acl_settings s c).1
cache_after _ s c = c

unfoldable pub history : List AclEvent → AclStore × AclCache → AclStore × AclCache
unfolding store_after cache_after
history [] w = w
history (e ∷ es) (s, c) = history es (store_after e s, cache_after e s c)

-- A change leaves the store as it is, or takes it to the next generation.
Moves : AclStore → AclStore → Type 0
Moves s s' = (s' ≡ s) ⊎ (s'.generation ≡ s.generation + 1)

generation-remove_acl :
    (s : AclStore) (actor : ℕ) (prefix : Text)
    → (bump_acl_generation (remove_acl s actor prefix).1).generation ≡ (s.generation + 1) % 2 ^ 64
unfolding remove_acl bump_acl_generation
generation-remove_acl s actor prefix = refl

generation-set_acl :
    (s : AclStore) (actor : ℕ) (prefix : Text) (perms : Perms)
    → (bump_acl_generation (set_acl s actor prefix perms)).generation ≡ (s.generation + 1) % 2 ^ 64
unfolding set_acl bump_acl_generation
generation-set_acl s actor prefix perms = refl

Moves-granted :
    (s : AclStore) (actor : ℕ) (perms : Perms) (r : Outcome Scope)
    → s.generation + 1 < 2 ^ 64
    → Moves s (elim (r >>= λ scope. ok (bump_acl_generation (set_acl s actor scope.root perms))) [
      | ok s' ↦ s'
      | err _ ↦ s
    ])
unfolding Moves
Moves-granted s actor perms (err _) h = inl refl
Moves-granted s actor perms (ok scope) h =
    inr (omega (arith, generation-set_acl s actor scope.root perms))

Moves-removed :
    (s : AclStore) (r : Bool × AclStore)
    → (bump_acl_generation r.1).generation ≡ s.generation + 1
    → Moves s (if r.0 then bump_acl_generation r.1 else s)
unfolding Moves
Moves-removed s (true, s') h = inr h
Moves-removed s (false, s') h = inl refl

removal : AclStore → ℕ → Scope → Outcome (Bool × AclStore)
removal s actor scope =
    let (removed, after) = remove_acl s actor scope.root in
    ok (removed, if removed then bump_acl_generation after else s)

Moves-revoked :
    (s : AclStore) (actor : ℕ) (r : Outcome Scope)
    → s.generation + 1 < 2 ^ 64
    → Moves s (elim (◌>>=◌ {W = Bool × AclStore} r (removal s actor)) [ ok q ↦ q.1 | err _ ↦ s ])
unfolding removal
Moves-revoked s actor (err _) h = unfold Moves in inl refl
Moves-revoked s actor (ok scope) h =
    let g = generation-remove_acl s actor scope.root in
    Moves-removed s (remove_acl s actor scope.root) (omega arith)

Moves-policy_set :
    (s : AclStore) (actor : ℕ) (policy : WritePolicy) (o : Option WritePolicy)
    → s.policies actor ≡ o
    → s.generation + 1 < 2 ^ 64
    → Moves s (elim (set_write_policy s actor policy) [ ok s' ↦ s' | err _ ↦ s ])
unfolding Moves set_write_policy update_policy bump_acl_generation
Moves-policy_set s actor policy none e h = rw e (inl refl)
Moves-policy_set s actor policy (some _) e h = rw e (inr (omega arith))

Moves-store_after :
    (e : AclEvent) (s : AclStore) → IsHere e → s.generation + 1 < 2 ^ 64 → Moves s (store_after e s)
unfolding store_after grant revoke removal
Moves-store_after (checked actor path) s l h = unfold Moves in inl refl
Moves-store_after probed s l h = unfold Moves in inl refl
Moves-store_after (granted actor prefix perms) s l h = Moves-granted s actor perms (at prefix) h
Moves-store_after (revoked actor prefix) s l h = Moves-revoked s actor (at prefix) h
Moves-store_after (deny_set deny) s l h =
    unfold Moves set_acl_default_deny bump_acl_generation in inr (omega arith)
Moves-store_after (reads_set on) s l h =
    unfold Moves set_acl_enforce_reads bump_acl_generation in inr (omega arith)
Moves-store_after (policy_set actor policy) s l h =
    Moves-policy_set s actor policy (s.policies actor) refl h
Moves-store_after (policy_set_elsewhere actor policy) s l h = absurd l

IsExact-Moves : (s s' : AclStore) (c : AclCache) → Moves s s' → IsExact s c → IsExact s' c
unfolding Moves
IsExact-Moves s s' c (inl e) h = rw e h
IsExact-Moves s s' c (inr e) h =
    let past : c.generation ≡ some s'.generation → ⊥ =
      λ q. let l = h.no_later s'.generation q in omega arith in
    record {
      no_later = λ g q. let l = h.no_later g q in omega arith;
      same_default = λ q. absurd (past q);
      same_reads = λ q. absurd (past q);
      same_actors = λ _ _ q _. absurd (past q);
    }

pub IsExact-empty_cache : (s : AclStore) → IsExact s empty_cache
IsExact-empty_cache s = record {
  no_later = λ g q. absurd (ground (arith, q));
  same_default = λ q. absurd (ground (arith, q));
  same_reads = λ q. absurd (ground (arith, q));
  same_actors = λ _ _ q _. absurd (ground (arith, q));
}

IsExact-cache_after :
    (e : AclEvent) (s : AclStore) (c : AclCache) → IsExact s c → IsExact s (cache_after e s c)
unfolding cache_after
IsExact-cache_after (checked actor path) s c h = IsExact-effective_perms s c actor path h
IsExact-cache_after probed s c h = IsExact-acl_settings s c h
IsExact-cache_after (granted _ _ _) s c h = h
IsExact-cache_after (revoked _ _) s c h = h
IsExact-cache_after (deny_set _) s c h = h
IsExact-cache_after (reads_set _) s c h = h
IsExact-cache_after (policy_set _ _) s c h = h
IsExact-cache_after (policy_set_elsewhere _ _) s c h = h

generation-Moves : (s s' : AclStore) → Moves s s' → s'.generation ≤ s.generation + 1
unfolding Moves
generation-Moves s s' (inl e) = rw e (omega arith)
generation-Moves s s' (inr e) = omega arith

IsExact-history :
    (es : List AclEvent) (s : AclStore) (c : AclCache)
    → All IsHere es
    → s.generation + length es < 2 ^ 64
    → IsExact s c
    → IsExact (history es (s, c)).0 (history es (s, c)).1
unfolding history
IsExact-history [] s c l n h = h
IsExact-history (e ∷ es) s c (l, ls) n h =
    let m = Moves-store_after e s l (omega arith) in
    IsExact-history es (store_after e s) (cache_after e s c) ls
      (let l = generation-Moves s (store_after e s) m in omega arith)
      (IsExact-Moves s (store_after e s) (cache_after e s c) m (IsExact-cache_after e s c h))

-- After any run, from an empty cache, of checks through one worker's cache and of changes made in the
-- same workspace by any worker, with fewer events than generations left before the counter wraps, an
-- answer through the cache is the answer that the store gives without one. Runs in which an actor's
-- write policy is set in another workspace of the store are excluded.
pub effective_perms-history :
    (es : List AclEvent) (s : AclStore) (actor : ℕ) (path : Text)
    → All IsHere es
    → s.generation + length es < 2 ^ 64
    → (effective_perms (history es (s, empty_cache)).0 (history es (s, empty_cache)).1 actor path).0
      ≡ fresh (history es (s, empty_cache)).0 actor path
effective_perms-history es s actor path l n =
    effective_perms-fresh (history es (s, empty_cache)).0 (history es (s, empty_cache)).1 actor path
      (IsExact-history es s empty_cache l n (IsExact-empty_cache s))
