-- ===== src/Acl/Cache.antt =====
-- The cache is exact: its answers are those of the store at every point of a run.
use origofs.Base.{
  ℕ, ◌≡◌, ◌≤◌, inl, inr, refl, ap, Bool, true, Option, none, some, [], Text, ◌==◌, if◌then◌else◌,
  Bool-cases, Option-cases, arith,
}
use origofs.Acl.{
  Perms, ActorAcl, actor_acl, list_acl, write_policy_of, perms_at, AclCache, AclStore, cached_actor,
  loaded_at, lookup, cached_policy, settings, put, put_settings, decided, effective_perms,
  acl_settings,
}

-- The answer without a cache.
unfoldable pub fresh : AclStore → ℕ → Text → Perms
fresh s actor path =
    decided (perms_at (actor_acl (list_acl s actor) (write_policy_of s actor)) path) s.default_deny
      (write_policy_of s actor)

-- What the cache holds under the store's generation was loaded from the store as it is, and no
-- generation past the store's is cached.
pub record IsExact (s : AclStore) (c : AclCache) : Type 0 where
  pub no_later : (g : ℕ) → c.generation ≡ some g → g ≤ s.generation
  pub same_default : c.generation ≡ some s.generation → c.default_deny ≡ s.default_deny
  pub same_reads : c.generation ≡ some s.generation → c.enforce_reads ≡ s.enforce_reads
  pub same_actors :
      (actor : ℕ) (acl : ActorAcl)
      → c.generation ≡ some s.generation
      → cached_actor c.actors actor ≡ some acl
      → acl ≡ actor_acl (list_acl s actor) (write_policy_of s actor)

loaded_at-eq : (c : AclCache) (g : ℕ) → loaded_at c g ≡ true → c.generation ≡ some g
loaded_at-eq c g h = elim (Option-cases c.generation) [
  | inl e ↦ absurd (ground (arith, e, h))
  | inr (g', e) ↦ ground (arith, e, h)
]

-- A hit: the cache stands at the store's generation and has the actor.
lookup-hit :
    (c : AclCache) (g actor : ℕ) (path : Text) (r : Option Perms × Bool)
    → lookup c g actor path ≡ some r
    → (c.generation ≡ some g)
      × ((acl : ActorAcl) × (cached_actor c.actors actor ≡ some acl)
          × (r ≡ (perms_at acl path, c.default_deny))
          × (cached_policy c g actor ≡ acl.policy))
unfolding lookup cached_policy
lookup-hit c g actor path r h = elim (Bool-cases (loaded_at c g)) [
  | inr e ↦ absurd (ground (arith, e, h))
  | inl e ↦ elim (Option-cases (cached_actor c.actors actor)) [
    | inl k ↦ absurd (ground (arith, e, k, h))
    | inr (acl, k) ↦ (loaded_at-eq c g e, (acl, k, ground (arith, e, k, h), rw (e, k) refl))
  ]
]

effective_perms-hit :
    (s : AclStore) (c : AclCache) (actor : ℕ) (path : Text) (r : Option Perms × Bool)
    → lookup c s.generation actor path ≡ some r
    → effective_perms s c actor path ≡ (decided r.0 r.1 (cached_policy c s.generation actor), c)
unfolding effective_perms
effective_perms-hit s c actor path r h = rw (h, effective_perms) refl

effective_perms-miss :
    (s : AclStore) (c : AclCache) (actor : ℕ) (path : Text)
    → lookup c s.generation actor path ≡ none
    → effective_perms s c actor path ≡ (
      fresh s actor path,
      put c s.generation s.default_deny s.enforce_reads actor
          (actor_acl (list_acl s actor) (write_policy_of s actor)),
    )
unfolding effective_perms fresh
effective_perms-miss s c actor path h = rw (h, effective_perms) refl

-- A check against an exact cache gives the answer that the store gives without one.
pub effective_perms-fresh :
    (s : AclStore) (c : AclCache) (actor : ℕ) (path : Text)
    → IsExact s c
    → (effective_perms s c actor path).0 ≡ fresh s actor path
unfolding fresh actor_acl
effective_perms-fresh s c actor path h = elim (Option-cases (lookup c s.generation actor path)) [
  | inl e ↦ ap (λ z. z.0) (effective_perms-miss s c actor path e)
  | inr (r, e) ↦
      let (g, (acl, k, q, p)) = lookup-hit c s.generation actor path r e in
      let same = h.same_actors actor acl g k in
      let d = h.same_default g in
      rw (effective_perms-hit s c actor path r e) (rw q (rw p (rw d (rw same refl))))
]

kept-loaded :
    (c : AclCache) (g a : ℕ) (acl : ActorAcl)
    → cached_actor (if loaded_at c g then c.actors else []) a ≡ some acl
    → (c.generation ≡ some g) × (cached_actor c.actors a ≡ some acl)
unfolding cached_actor
kept-loaded c g a acl h = elim (Bool-cases (loaded_at c g)) [
  | inl e ↦ (loaded_at-eq c g e, ground (arith, e, h))
  | inr e ↦ absurd (ground (arith, e, h))
]

IsExact-put :
    (s : AclStore) (c : AclCache) (actor : ℕ)
    → IsExact s c
    → IsExact s (
        put c s.generation s.default_deny s.enforce_reads actor
          (actor_acl (list_acl s actor) (write_policy_of s actor)))
unfolding put cached_actor
IsExact-put s c actor h = record {
  no_later = λ g e. ground (arith, e);
  same_default = λ _. refl;
  same_reads = λ _. refl;
  same_actors = λ a acl e k. elim (Bool-cases (actor == a)) [
    | inl q ↦ let p : actor ≡ a = ground (arith, q) in ground (arith, q, k, p)
    | inr q ↦
        let m = kept-loaded c s.generation a acl (ground (arith, q, k)) in
        h.same_actors a acl m.0 m.1
  ];
}

IsExact-put_settings :
    (s : AclStore) (c : AclCache)
    → IsExact s c
    → IsExact s (put_settings c s.generation s.default_deny s.enforce_reads)
unfolding put_settings cached_actor
IsExact-put_settings s c h = record {
  no_later = λ g e. ground (arith, e);
  same_default = λ _. refl;
  same_reads = λ _. refl;
  same_actors =
      λ a acl e k. let m = kept-loaded c s.generation a acl k in h.same_actors a acl m.0 m.1;
}

-- A check leaves the cache exact.
pub IsExact-effective_perms :
    (s : AclStore) (c : AclCache) (actor : ℕ) (path : Text)
    → IsExact s c
    → IsExact s (effective_perms s c actor path).1
IsExact-effective_perms s c actor path h = elim (Option-cases (lookup c s.generation actor path)) [
  | inl e ↦ rw (effective_perms-miss s c actor path e) (IsExact-put s c actor h)
  | inr (r, e) ↦ rw (effective_perms-hit s c actor path r e) h
]

pub IsExact-acl_settings :
    (s : AclStore) (c : AclCache) → IsExact s c → IsExact s (acl_settings s c).1
unfolding acl_settings
IsExact-acl_settings s c h = elim (Option-cases (settings c s.generation)) [
  | inl e ↦ rw (e, acl_settings) (IsExact-put_settings s c h)
  | inr (r, e) ↦ rw (e, acl_settings) h
]
