-- ===== src/Acl/Longest.antt =====
-- The walk over a path's ancestors finds the longest grant that covers it.
use origofs.Base.{
  ℕ, zero, suc, ◌≡◌, ◌<◌, ◌≤◌, ◌⊎◌, ◌↔◌, inl, inr, refl, ap, ◌∙◌, true, false, Option, none, some,
  List, [], ◌∷◌, ◌++◌, append_assoc, Text, length, length-append, Bool-cases, Option-cases, arith,
}
use origofs.Paths.{slash, is_empty, cut_last}
use origofs.Paths.Laws.{cut_last-some, cut_last-none, cut_last-last}
use origofs.Scope.{contains}
use origofs.Scope.Laws.{Covers, contains_iff}
use origofs.Acl.{
  Perms, WritePolicy, PrefixMap, get, ActorAcl, ancestors_from, ancestors, first_of, perms_at,
}

-- Of the prefixes that cover the path, one with a grant and none longer.
pub record IsLongest (m : PrefixMap) (path : Text) (p : Perms) : Type 0 where
  pub prefix : Text
  pub granted : get m prefix ≡ some p
  pub covers : Covers prefix path
  pub longest :
      (other : Text) (q : Perms)
      → get m other ≡ some q
      → Covers other path
      → length other ≤ length prefix

-- What the first grant along the ancestors is.
Best : PrefixMap → Text → Option Perms → Type 0
Best m path none = (other : Text) → Covers other path → get m other ≡ none
Best m path (some p) = IsLongest m path p

length-Covers : (q path : Text) → Covers q path → length q ≤ length path
length-Covers q path (inl e) = ground (arith, e)
length-Covers q path (inr (inl e)) = ground (arith, e)
length-Covers q path (inr (inr (r, e))) = rw e (omega (arith, length-append q (slash ∷ r)))

-- A prefix of the path is the path, or it covers the next ancestor.
Covers-next :
    (q path next : Text) → cut_last path ≡ some next → Covers q path → (q ≡ path) ⊎ Covers q next
Covers-next q path next h (inl e) = inr (inl e)
Covers-next q path next h (inr (inl e)) = inl e
Covers-next q path next h (inr (inr (r, e))) = inr (inr (cut_last-last path next q r h e))

Covers-back : (q path next : Text) → cut_last path ≡ some next → Covers q next → Covers q path
Covers-back q path next h (inl e) = inl e
Covers-back q path next h (inr (inl e)) = rw e (inr (inr (cut_last-some path next h)))
Covers-back q path next h (inr (inr (r, e))) =
    let (r', f) = cut_last-some path next h in
    inr (
      inr (
        r ++ (slash ∷ r'),
        f ∙ ap (λ z. z ++ (slash ∷ r')) e ∙ append_assoc q (slash ∷ r) (slash ∷ r'),
      ))

Best-here : (m : PrefixMap) (path : Text) (p : Perms) → get m path ≡ some p → Best m path (some p)
unfolding Best
Best-here m path p h = record {
  prefix = path;
  granted = h;
  covers = inr (inl refl);
  longest = λ other q _ k. length-Covers other path k;
}

-- Without a grant at the path itself, what is best at the next ancestor is best at the path.
Best-next :
    (m : PrefixMap) (path next : Text) (o : Option Perms)
    → get m path ≡ none
    → cut_last path ≡ some next
    → Best m next o
    → Best m path o
unfolding Best
Best-next m path next none h c b =
    λ other k. elim (Covers-next other path next c k) [ inl e ↦ rw e h | inr k' ↦ b other k' ]
Best-next m path next (some p) h c b = record {
  prefix = b.prefix;
  granted = b.granted;
  covers = Covers-back b.prefix path next c b.covers;
  longest = λ other q g k. elim (Covers-next other path next c k) [
    | inl e ↦ absurd (ground (arith, e, h, g))
    | inr k' ↦ b.longest other q g k'
  ];
}

-- The walk ends at the root.
Best-root :
    (m : PrefixMap) (path : Text) → path ≡ [] → get m path ≡ none → Best m path (first_of m [])
unfolding Best first_of
Best-root m path z h = λ other k. elim k [
  | inl e ↦ rw e (rw z at h)
  | inr (inl e) ↦ rw e h
  | inr (inr (r, e)) ↦
      absurd (ground (arith, length-append other (slash ∷ r), ap length e, ap length z))
]

-- Without a slash in the path, only the root can cover it besides itself.
Covers-last :
    (other path : Text) → cut_last path ≡ none → Covers other path → (other ≡ path) ⊎ (other ≡ [])
Covers-last other path c (inl e) = inr e
Covers-last other path c (inr (inl e)) = inl e
Covers-last other path c (inr (inr (r, e))) = absurd (cut_last-none path other r e c)

Best-last :
    (m : PrefixMap) (path : Text) (o : Option Perms)
    → get m path ≡ none
    → cut_last path ≡ none
    → Best m [] o
    → Best m path o
unfolding Best
Best-last m path none h c b =
    λ other k. elim (Covers-last other path c k) [ inl e ↦ rw e h | inr e ↦ b other (inl e) ]
Best-last m path (some p) h c b = record {
  prefix = b.prefix;
  granted = b.granted;
  covers = elim b.covers [
    | inl e ↦ inl e
    | inr (inl e) ↦ inl e
    | inr (inr (r, e)) ↦ absurd (ground (arith, length-append b.prefix (slash ∷ r), ap length e))
  ];
  longest = λ other q g k. elim (Covers-last other path c k) [
    | inl e ↦ absurd (ground (arith, e, h, g))
    | inr e ↦ b.longest other q g (inl e)
  ];
}

first_of-step :
    (m : PrefixMap) (k : Text) (ks : List Text)
    → get m k ≡ none
    → first_of m (k ∷ ks) ≡ first_of m ks
unfolding first_of
first_of-step m k ks h = rw (h, first_of) refl

first_of-hit :
    (m : PrefixMap) (k : Text) (ks : List Text) (p : Perms)
    → get m k ≡ some p
    → first_of m (k ∷ ks) ≡ some p
unfolding first_of
first_of-hit m k ks p h = rw (h, first_of) refl

length-cut_last : (path next : Text) → cut_last path ≡ some next → length next < length path
length-cut_last path next h =
    let (r, e) = cut_last-some path next h in rw e (omega (arith, length-append next (slash ∷ r)))

nil-of-is_empty : (path : Text) → is_empty path ≡ true → path ≡ []
nil-of-is_empty [] h = refl
nil-of-is_empty (c ∷ cs) h = cc

length-pos : (path : Text) → is_empty path ≡ false → 0 < length path
length-pos [] h = cc
length-pos (c ∷ cs) h = omega arith

first_of-ancestors_from :
    (m : PrefixMap) (n : ℕ) (path : Text)
    → length path < n
    → Best m path (first_of m (ancestors_from n path))
unfolding ancestors_from
first_of-ancestors_from m zero path h = absurd (omega arith)
first_of-ancestors_from m (suc n) path h = elim (Option-cases (get m path)) [
  | inr (p, g) ↦ rw (first_of-hit m path _ p g) (Best-here m path p g)
  | inl g ↦ rw (first_of-step m path _ g) (elim (Option-cases (cut_last path)) [
    | inr (next, c) ↦
        let l = length-cut_last path next c in
        rw c (Best-next m path next _ g c (first_of-ancestors_from m n next (omega arith)))
    | inl c ↦ rw c (elim (Bool-cases (is_empty path)) [
      | inl e ↦ rw e (Best-root m path (nil-of-is_empty path e) g)
      | inr e ↦
          let l = length-pos path e in
          rw e (Best-last m path _ g c (first_of-ancestors_from m n [] (omega arith)))
    ])
  ])
]

Best-perms_at :
    (m : PrefixMap) (policy : WritePolicy) (path : Text)
    → Best m path (perms_at (record { by_prefix = m; policy = policy }) path)
unfolding perms_at ancestors Best get
Best-perms_at [] policy path = λ other k. refl
Best-perms_at (x ∷ m) policy path =
    first_of-ancestors_from (x ∷ m) (suc (length path)) path (omega arith)

scoped :
    (prefix path : Text)
    → contains (record { root = prefix }) (some path) ≡ true
    → Covers prefix path
scoped prefix path h = (contains_iff (record { root = prefix }) path).0 h

-- When the actor's grants answer at a path, the answer is the grant of a prefix whose scope contains
-- the path, and no longer prefix with a grant has such a scope.
pub perms_at_longest :
    (acl : ActorAcl) (path : Text) (p : Perms)
    → perms_at acl path ≡ some p
    → (prefix : Text) × (get acl.by_prefix prefix ≡ some p)
      × (contains (record { root = prefix }) (some path) ≡ true)
      × ((other : Text) (q : Perms)
          → get acl.by_prefix other ≡ some q
          → contains (record { root = other }) (some path) ≡ true
          → length other ≤ length prefix)
unfolding Best
perms_at_longest acl path p h =
    let b : IsLongest acl.by_prefix path p =
      rw h at (Best-perms_at acl.by_prefix acl.policy path) in
    (
      b.prefix,
      b.granted,
      (contains_iff (record { root = b.prefix }) path).1 b.covers,
      λ other q g k. b.longest other q g (scoped other path k),
    )

-- The actor's grants have no answer at a path exactly when no prefix whose scope contains the path
-- has a grant.
pub perms_at-none :
    (acl : ActorAcl) (path : Text)
    → (perms_at acl path ≡ none) ↔ (
        (prefix : Text)
        → contains (record { root = prefix }) (some path) ≡ true
        → get acl.by_prefix prefix ≡ none)
unfolding Best
perms_at-none acl path =
    let best = Best-perms_at acl.by_prefix acl.policy path in
    (
      λ h prefix k.
          let b : (other : Text) → Covers other path → get acl.by_prefix other ≡ none =
            rw h at best in
          b prefix (scoped prefix path k),
      λ f. elim (Option-cases (perms_at acl path)) [
        | inl e ↦ e
        | inr (p, e) ↦
            let (prefix, g, k, _) = perms_at_longest acl path p e in
            absurd (ground (arith, f prefix k, g))
      ],
    )
