-- ===== src/Gc/Sweep.antt =====
-- What the sweep deletes.
use origofs.Base.{
  ℕ, ◌+◌, ◌≡◌, ◌≤◌, ◌⊎◌, inl, inr, refl, sym, ap, subst, Bool, true, false, not, ◌&&◌, ltb, ◌<◌,
  Text, List, [], ◌∷◌, Option, none, some, text_eq, text_eq_iff, All, In, In-retain, In-retain_of,
  retain, map, Result, leb, ◌==◌, ok, >>=-eq-ok, Bool-cases, Result-cases, Option-cases, length,
  arith,
}
use origofs.Errors.{Outcome}
use origofs.ObjectGraph.{Hash}
use origofs.Gc.{
  Marked, has, Workspace, purge, trash_content_hashes, mark_all, Object, GcStats, find_object,
  old_enough, delete_if_older_than, Lease, run_locked, take_lease, gc_with_grace, sweep_one, sweep,
  no_stats, gc_locked,
}
use origofs.Gc.Marks.{Role, a_manifest, Typed, In-has}
use origofs.Gc.Roots.{RootsTyped, Reaches, gc_roots, mark_all-Reaches}

-- The age gate at the deletion of an object: it is off, or an object of this hash is old enough.
abbrev pub IsOld : ℕ → Hash → List Object → Type 0
IsOld grace h os =
    (grace ≡ 0) ⊎ ((p : Object) × In p os × (p.hash ≡ h) × (old_enough grace p.age ≡ true))

find_object-some :
    (h : Hash) (os : List Object) (p : Object) → find_object h os ≡ some p → In p os × (p.hash ≡ h)
unfolding find_object
find_object-some h [] p e = cc
find_object-some h (o ∷ os) p e = elim (Bool-cases (text_eq h o.hash)) [
  | inl q ↦
      let k : o ≡ p = ground (arith, q, e) in
      (inl (sym k), subst (λ (z : Object). z.hash ≡ h) k (sym ((text_eq_iff h o.hash).0 q)))
  | inr q ↦ let (i, k) = find_object-some h os p (ground (arith, q, e)) in (inr i, k)
]

delete_if_older_than-cases :
    (h : Hash) (grace : ℕ) (os : List Object)
    → ((delete_if_older_than h grace os).1 ≡ os)
      ⊎ (((delete_if_older_than h grace os).1 ≡ retain (λ p. not (text_eq h p.hash)) os)
          × IsOld grace h os)
unfolding delete_if_older_than
delete_if_older_than-cases h grace os = elim (Bool-cases (grace == 0)) [
  | inl z ↦ inr (rw z refl, inl (ground (arith, z)))
  | inr z ↦ elim (Option-cases (find_object h os)) [
    | inl e ↦ inl (rw z (rw e refl))
    | inr (p, e) ↦ elim (Bool-cases (old_enough grace p.age)) [
      | inr y ↦ inl (rw z (rw e (rw y refl)))
      | inl y ↦
          let (i, q) = find_object-some h os p e in inr (rw z (rw e (rw y refl)), inr (p, i, q, y))
    ]
  ]
]

-- The conditions under which a round deletes.
abbrev Gate : ℕ → Marked → Hash → Option ℕ → List Object → Type 0
Gate grace marked h age os =
    (has h marked ≡ false) × ((secs : ℕ) × (age ≡ some secs) × (grace ≤ secs)) × IsOld grace h os

sweep_one-cases :
    (grace : ℕ) (marked : Marked) (h : Hash) (age : Option ℕ) (s : GcStats) (os : List Object)
    → ((sweep_one grace marked h age (s, os)).1 ≡ os)
      ⊎ (((sweep_one grace marked h age (s, os)).1 ≡ retain (λ p. not (text_eq h p.hash)) os)
          × Gate grace marked h age os)
unfolding sweep_one
sweep_one-cases grace marked h none s os = elim (Bool-cases (has h marked)) [
  | inl e ↦ inl (rw e refl)
  | inr e ↦ inl (rw e refl)
]
sweep_one-cases grace marked h (some secs) s os = elim (Bool-cases (has h marked)) [
  | inl e ↦ inl (rw e refl)
  | inr e ↦ elim (Bool-cases (leb grace secs)) [
    | inr f ↦ inl (rw e (rw f refl))
    | inl f ↦ elim (delete_if_older_than-cases h grace os) [
      | inl q ↦ inl (rw e (rw f q))
      | inr (q, old) ↦ inr (rw e (rw f q), (e, (secs, refl, ground (arith, f)), old))
    ]
  ]
]

-- Why the sweep may delete an object: it is not marked, it was old enough when it was listed, and it
-- is old enough when it is deleted.
abbrev pub Doomed : ℕ → Marked → List (Hash × Option ℕ) → List Object → Object → Type 0
Doomed grace marked listed os o =
    (has o.hash marked ≡ false)
    × ((secs : ℕ) × In (o.hash, some secs) listed × (grace ≤ secs))
    × IsOld grace o.hash os

retain-within : (p : Object → Bool) (o : Object) (os : List Object) → In o (retain p os) → In o os
retain-within p o os i = (In-retain p o os i).0

IsOld-within :
    (grace : ℕ) (h : Hash) (os os' : List Object)
    → ((o : Object) → In o os' → In o os)
    → IsOld grace h os'
    → IsOld grace h os
IsOld-within grace h os os' w (inl z) = inl z
IsOld-within grace h os os' w (inr (p, i, e, y)) = inr (p, w p i, e, y)

-- Every object outlives a sweep or is doomed by it.
pub sweep-Doomed :
    (grace : ℕ) (marked : Marked) (listed : List (Hash × Option ℕ)) (s : GcStats) (os : List Object)
    (o : Object)
    → In o os
    → In o (sweep grace marked listed (s, os)).1 ⊎ Doomed grace marked listed os o
unfolding sweep
sweep-Doomed grace marked [] s os o i = inl i
sweep-Doomed grace marked ((h, age) ∷ listed) s os o i =
    let st = sweep_one grace marked h age (s, os) in
    let ih = sweep-Doomed grace marked listed st.0 st.1 o in
    let wider : (w : (p : Object) → In p st.1 → In p os)
        → Doomed grace marked listed st.1 o
        → Doomed grace marked ((h, age) ∷ listed) os o =
      λ w d. (d.0, (d.1.0, inr d.1.1, d.1.2), IsOld-within grace o.hash os st.1 w d.2) in
    let after : (w : (p : Object) → In p st.1 → In p os)
        → In o st.1
        → In o (sweep grace marked listed st).1 ⊎ Doomed grace marked ((h, age) ∷ listed) os o =
      λ w j. elim (ih j) [ inl k ↦ inl k | inr d ↦ inr (wider w d) ] in
    elim (sweep_one-cases grace marked h age s os) [
      | inl e ↦ after (λ p j. subst (In p) e j) (subst (In o) (sym e) i)
      | inr (e, (unmarked, (secs, q, le), old)) ↦ elim (Bool-cases (text_eq h o.hash)) [
        | inr k ↦
            let stays = In-retain_of (λ (p : Object). not (text_eq h p.hash)) o os i (rw k refl) in
            after (λ p j. retain-within (λ z. not (text_eq h z.hash)) p os (subst (In p) e j))
              (subst (In o) (sym e) stays)
        | inl k ↦
            let z : h ≡ o.hash = (text_eq_iff h o.hash).0 k in
            inr (
              subst (λ x. has x marked ≡ false) z unmarked,
              (secs, inl (λ i. (sym z i, sym q i)), le),
              subst (λ x. IsOld grace x os) z old,
            )
      ]
    ]

ok-inj : {F A : Type 0} (x y : A) → ◌≡◌ {A = Result F A} (ok x) (ok y) → x ≡ y
ok-inj x y h = cc

-- After a collection that ends without an error, every object that the store had is still there; or
-- it cannot be reached from the branches, the live files, the pending suggestions, the mirrored refs
-- and the retained trash of any workspace, and it had the age of the grace both when the store was
-- listed and when it was deleted (unless the grace is 0). Every object has one role here.
pub gc_locked_safe :
    (get : Hash → Outcome (List ℕ)) (roles : Hash → Role) (n now grace : ℕ) (wss : List Workspace)
    (listed : List (Hash × Option ℕ)) (os left : List Object) (s : GcStats) (o : Object)
    → Typed get roles
    → All (RootsTyped roles) (map (purge now) wss)
    → All (λ h. roles h ≡ a_manifest) (trash_content_hashes (map (purge now) wss))
    → gc_locked get n now grace wss listed os ≡ ok (s, left)
    → In o os
    → In o left
      ⊎ ((Reaches get roles (gc_roots now wss) o.hash → ⊥)
          × ((secs : ℕ) × In (o.hash, some secs) listed × (grace ≤ secs))
          × IsOld grace o.hash os)
unfolding gc_locked
gc_locked_safe get roles n now grace wss listed os left s o typed rts trs e i =
    let (marked, e1, e2) = >>=-eq-ok (mark_all get n now wss) _ e in
    let q : (sweep grace marked listed (no_stats (length marked), os)).1 ≡ left =
      ap (λ (z : GcStats × List Object). z.1) (ok-inj _ _ e2) in
    elim (sweep-Doomed grace marked listed (no_stats (length marked)) os o i) [
      | inl j ↦ inl (subst (In o) q j)
      | inr (un, young, old) ↦ inr (
        λ reach.
            let j = mark_all-Reaches get roles typed n now wss marked o.hash rts trs e1 reach in
            let k = In-has o.hash marked j in absurd (ground (arith, un, k)),
        young,
        old,
      )
    ]

-- Nobody holds the lease, or it has been held for more than an hour.
abbrev pub Free : ℕ → Lease → Type 0
Free now lease =
    (lease ≡ none) ⊎ ((holder : Text) × (at : ℕ) × (lease ≡ some (holder, at)) × (at + 3600 < now))

take_lease-Free :
    (now : ℕ) (owner : Text) (lease held : Lease)
    → take_lease now owner lease ≡ ok held
    → Free now lease
unfolding take_lease
take_lease-Free now owner none held e = inl refl
take_lease-Free now owner (some (holder, at)) held e = inr (holder, at, refl, ground (arith, e))

-- After a collection with any grace, lease and answer, an error included, every object that the store
-- had is still there; or it cannot be reached from any root of any workspace, it had the age of the
-- grace both when the store was listed and when it was deleted (unless the grace is 0), the grace is
-- 0 or at least a minute, and the lease was free or older than an hour. Every object has one role.
pub gc_with_grace_safe :
    (get : Hash → Outcome (List ℕ)) (roles : Hash → Role) (n now grace : ℕ) (owner : Text)
    (wss : List Workspace) (listed : List (Hash × Option ℕ)) (lease : Lease) (os : List Object)
    (o : Object)
    → Typed get roles
    → All (RootsTyped roles) (map (purge now) wss)
    → All (λ h. roles h ≡ a_manifest) (trash_content_hashes (map (purge now) wss))
    → In o os
    → In o (gc_with_grace get n now owner grace wss listed lease os).objects
      ⊎ ((Reaches get roles (gc_roots now wss) o.hash → ⊥)
          × ((secs : ℕ) × In (o.hash, some secs) listed × (grace ≤ secs))
          × IsOld grace o.hash os
          × ((grace ≡ 0) ⊎ (60 ≤ grace))
          × Free now lease)
unfolding gc_with_grace run_locked
gc_with_grace_safe get roles n now grace owner wss listed lease os o typed rts trs i =
    elim (Bool-cases (ltb 0 grace && ltb grace 60)) [
      | inl k ↦ inl (rw k i)
      | inr k ↦ elim (Result-cases (take_lease now owner lease)) [
        | inl (e, t) ↦ inl (rw k (rw t i))
        | inr (held, t) ↦ elim (Result-cases (gc_locked get n now grace wss listed os)) [
          | inl (e, g) ↦ inl (rw k (rw t (rw g i)))
          | inr ((s, left), g) ↦
              elim (gc_locked_safe get roles n now grace wss listed os left s o typed rts trs g i) [
                | inl j ↦ inl (rw k (rw t (rw g j)))
                | inr (un, young, old) ↦
                    let floor : (grace ≡ 0) ⊎ (60 ≤ grace) = elim (Bool-cases (grace == 0)) [
                      | inl z ↦ inl (ground (arith, z))
                      | inr z ↦ inr (ground (arith, z, k))
                    ] in
                    inr (un, young, old, floor, take_lease-Free now owner lease held t)
              ]
        ]
      ]
    ]
