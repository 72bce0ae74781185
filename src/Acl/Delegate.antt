-- ===== src/Acl/Delegate.antt =====
-- The checked operations, against the store's own answers.
use origofs.Base.{
  ℕ, ◌≡◌, ◌↔◌, ◌⊎◌, inl, inr, refl, sym, ap, ◌∙◌, true, Text, if◌then◌else◌, ok, err, Bool-cases,
  arith,
}
use origofs.Errors.{Outcome, denied}
use origofs.Scope.{Scope, at}
use origofs.Acl.{
  Perms, contains, write_perms, AclCache, AclStore, and_then, effective_perms, ensure_may_write_at,
  ensure_may_rename, delegatable, grant, grant_as,
}
use origofs.Acl.Cache.{fresh, IsExact, effective_perms-fresh, IsExact-effective_perms}

-- What a write check answers, without the cache.
abbrev verdict : Perms → Outcome (Unit {0})
verdict p = if contains p write_perms then ok tt else err denied

ensure_may_write_at-fresh :
    (s : AclStore) (c : AclCache) (actor : ℕ) (path : Text)
    → IsExact s c
    → ensure_may_write_at s c actor path
      ≡ (verdict (fresh s actor path), (effective_perms s c actor path).1)
unfolding ensure_may_write_at
ensure_may_write_at-fresh s c actor path h =
    ap (λ z. (verdict z, (effective_perms s c actor path).1))
      (effective_perms-fresh s c actor path h)

verdict_iff : (p : Perms) → (verdict p ≡ ok tt) ↔ (contains p write_perms ≡ true)
verdict_iff p = (λ h. ground arith, λ h. ground arith)

and_then-ok :
    {A B : Type 0} (m : Outcome A × AclCache) (f : A → AclCache → Outcome B × AclCache) {b : B}
    → (and_then m f).0 ≡ ok b
    → (a : A) × (m.0 ≡ ok a) × ((f a m.1).0 ≡ ok b)
unfolding and_then
and_then-ok (ok a, c) f h = (a, refl, h)
and_then-ok (err e, c) f h = cc

and_then-of_ok :
    {A B : Type 0} (m : Outcome A × AclCache) (f : A → AclCache → Outcome B × AclCache) (a : A)
    → m.0 ≡ ok a
    → and_then m f ≡ f a m.1
unfolding and_then
and_then-of_ok (ok a', c) f a h = let q : a' ≡ a = cc in ap (λ z. f z c) q
and_then-of_ok (err e, c) f a h = cc

-- A write check passes, through an exact cache, exactly when the actor may write there.
ensure_may_write_at_iff :
    (s : AclStore) (c : AclCache) (actor : ℕ) (path : Text) (u : Unit {0})
    → IsExact s c
    → ((ensure_may_write_at s c actor path).0 ≡ ok u)
      ↔ (contains (fresh s actor path) write_perms ≡ true)
ensure_may_write_at_iff s c actor path u h =
    let q = ap (λ z. z.0) (ensure_may_write_at-fresh s c actor path h) in
    let v = verdict_iff (fresh s actor path) in (λ k. v.0 (sym q ∙ k), λ k. q ∙ v.1 k)

cache-ensure_may_write_at :
    (s : AclStore) (c : AclCache) (actor : ℕ) (path : Text)
    → IsExact s c
    → IsExact s (ensure_may_write_at s c actor path).1
unfolding ensure_may_write_at
cache-ensure_may_write_at s c actor path h = IsExact-effective_perms s c actor path h

-- Through an exact cache, a rename is allowed exactly when the actor may write at both ends.
pub ensure_may_rename_iff :
    (s : AclStore) (c : AclCache) (actor : ℕ) (from to : Text)
    → IsExact s c
    → ((ensure_may_rename s c actor from to).0 ≡ ok tt) ↔ (
        (contains (fresh s actor from) write_perms ≡ true)
        × (contains (fresh s actor to) write_perms ≡ true))
unfolding ensure_may_rename
ensure_may_rename_iff s c actor from to h =
    let m = ensure_may_write_at s c actor from in
    let at_from = ensure_may_write_at_iff s c actor from tt h in
    let at_to =
      ensure_may_write_at_iff s m.1 actor to tt (cache-ensure_may_write_at s c actor from h) in
    (
      λ k. let (_, a, b) = and_then-ok m _ k in (at_from.0 a, at_to.0 b),
      λ (a, b). ap (λ z. z.0) (and_then-of_ok m _ tt (at_from.1 a)) ∙ at_to.1 b,
    )

-- What is left of `grant_as` behind the write check.
delegated :
    (s s' : AclStore) (c : AclCache) (by actor : ℕ) (prefix path_prefix : Text) (perms : Perms)
    → IsExact s c
    → (if contains (delegatable (effective_perms s c by prefix).0) perms
        then grant s actor path_prefix perms
        else err denied)
      ≡ ok s'
    → (contains (delegatable (fresh s by prefix)) perms ≡ true)
      × (grant s actor path_prefix perms ≡ ok s')
delegated s s' c by actor prefix path_prefix perms h e =
    elim (Bool-cases (contains (delegatable (effective_perms s c by prefix).0) perms)) [
      | inl b ↦ (
        ap (λ z. contains (delegatable z) perms) (sym (effective_perms-fresh s c by prefix h)) ∙ b,
        ground (arith, b, e),
      )
      | inr b ↦ absurd (ground (arith, b, e))
    ]

-- No more is granted than is held: reading and writing only by one who may, and proposing by one who
-- may propose or write.
abbrev pub HandsOn : Perms → Perms → Type 0
HandsOn held perms =
    (perms.read ≡ true → held.read ≡ true)
    × (perms.write ≡ true → held.write ≡ true)
    × (perms.propose ≡ true → (held.propose ≡ true) ⊎ (held.write ≡ true))

delegatable-HandsOn :
    (held perms : Perms) → contains (delegatable held) perms ≡ true → HandsOn held perms
unfolding delegatable
delegatable-HandsOn held perms e = elim (Bool-cases held.write) [
  | inl w ↦ (λ r. ground (arith, e, r, w), λ r. w, λ r. inr w)
  | inr w ↦ (
    λ r. ground (arith, e, r, w),
    λ r. ground (arith, e, r, w),
    λ r. inl (ground (arith, e, r, w)),
  )
]

-- Through an exact cache, a grant that an actor makes was allowed to it: it may write at the prefix;
-- it grants reading only if it may read there, and proposing only if it may propose or write there;
-- and the store changes as `grant` does.
pub grant_as_sound :
    (s s' : AclStore) (c : AclCache) (by actor : ℕ) (path_prefix : Text) (perms : Perms)
    → IsExact s c
    → (grant_as s c by actor path_prefix perms).0 ≡ ok s'
    → (scope : Scope) × (at path_prefix ≡ ok scope)
      × (contains (fresh s by scope.root) write_perms ≡ true)
      × HandsOn (fresh s by scope.root) perms
      × (grant s actor path_prefix perms ≡ ok s')
unfolding grant_as
grant_as_sound s s' c by actor path_prefix perms h e =
    let (scope, k, e1) = and_then-ok (at path_prefix, c) _ e in
    let m = ensure_may_write_at s c by scope.root in
    let (_, w, e2) = and_then-ok m _ e1 in
    let (d, g) =
      delegated s s' m.1 by actor scope.root path_prefix perms
        (cache-ensure_may_write_at s c by scope.root h) e2 in
    (
      scope,
      k,
      (ensure_may_write_at_iff s c by scope.root _ h).0 w,
      delegatable-HandsOn (fresh s by scope.root) perms d,
      g,
    )
