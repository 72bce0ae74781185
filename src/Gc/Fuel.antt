-- ===== src/Gc/Fuel.antt =====
-- The mark phase comes to an end: a step down marks an object of the store that was not marked.
use origofs.Base.{
  ℕ, zero, suc, ◌≡◌, ◌≤◌, ◌<◌, ◌⊎◌, inl, inr, refl, sym, ap, subst, true, false, List, [], ◌∷◌, In,
  length, if◌then◌else◌, err, ok, ◌>>=◌, >>=-eq-ok, Bool-cases, Result-cases, arith,
}
use origofs.Errors.{OrigofsError, Outcome}
use origofs.ObjectGraph.{Hash, TreeEntry, TreeKind, file, dir, symlink}
use origofs.Chunk.{ChunkRef}
use origofs.Gc.{
  Marked, has, insert, failed, Marking, insert_chunks, commit_object, tree_object, manifest_object,
  mark_manifest, mark_each, mark_entry, mark_entries, mark_tree, mark_commit,
}
use origofs.Gc.Marks.{has-In, In-has}

abbrev pub Within : Marked → Marked → Type 0
Within m m' = (x : Hash) → In x m → In x m'

-- The stored objects that are not marked.
abbrev pub missing : List Hash → Marked → ℕ
missing [] m = 0
missing (h ∷ hs) m = let rest = missing hs m in if has h m then rest else suc rest

missing-Within : (hs : List Hash) (m m' : Marked) → Within m m' → missing hs m' ≤ missing hs m
missing-Within [] m m' w = omega arith
missing-Within (h ∷ hs) m m' w =
    let ih = missing-Within hs m m' w in
    elim (Bool-cases (has h m)) [
      | inl e ↦ let e' = In-has h m' (w h (has-In h m e)) in ground (arith, e, e', ih)
      | inr e ↦ ground (arith, e, ih)
    ]

missing-cons :
    (hs : List Hash) (h : Hash) (m : Marked)
    → In h hs
    → has h m ≡ false
    → missing hs (h ∷ m) < missing hs m
missing-cons [] h m i e = absurd i
missing-cons (x ∷ hs) h m (inl q) e =
    let le = missing-Within hs m (h ∷ m) (λ y j. inr j) in
    let a : has x (h ∷ m) ≡ true = In-has x (h ∷ m) (inl (sym q)) in
    let b : has x m ≡ false = subst (λ z. has z m ≡ false) q e in ground (arith, a, b, le)
missing-cons (x ∷ hs) h m (inr i) e =
    let ih = missing-cons hs h m i e in
    elim (Bool-cases (has x m)) [
      | inl b ↦
          let a : has x (h ∷ m) ≡ true = In-has x (h ∷ m) (inr (has-In x m b)) in
          ground (arith, a, b, ih)
      | inr b ↦ ground (arith, b, ih)
    ]

pub missing_nil : (hs : List Hash) → missing hs [] ≡ length hs
missing_nil [] = refl
missing_nil (h ∷ hs) = ap suc (missing_nil hs)

-- A marking ends: with more marks, or with an error of the store.
abbrev pub Ends : Marked → Marking → Type 0
Ends m r = ((m' : Marked) × (r ≡ ok m') × Within m m') ⊎ ((e : OrigofsError) × (r ≡ err (failed e)))

pub Ends-bind :
    (m : Marked) (r : Marking) (next : Marked → Marking)
    → Ends m r
    → ((m' : Marked) → Within m m' → Ends m' (next m'))
    → Ends m (r >>= next)
Ends-bind m r next (inr (e, q)) f = inr (e, rw q refl)
Ends-bind m r next (inl (m1, q, w)) f = elim (f m1 w) [
  | inr (e, q') ↦ inr (e, rw q q')
  | inl (m2, q', w') ↦ inl (m2, rw q q', λ x i. w' x (w x i))
]

pub Within-insert : (h : Hash) (m : Marked) → Within m (insert h m)
Within-insert h m x i = elim (Bool-cases (has h m)) [ inl e ↦ rw e i | inr e ↦ rw e (inr i) ]

pub Ends-Within : (m m' : Marked) (r : Marking) → Within m m' → Ends m' r → Ends m r
Ends-Within m m' r w (inr e) = inr e
Ends-Within m m' r w (inl (m1, q, w')) = inl (m1, q, λ x i. w' x (w x i))

Within-insert_chunks : (cs : List ChunkRef) (m : Marked) → Within m (insert_chunks cs m)
unfolding insert_chunks
Within-insert_chunks [] m x i = i
Within-insert_chunks (c ∷ cs) m x i =
    Within-insert_chunks cs (insert c.hash m) x (Within-insert c.hash m x i)

module _ (get : Hash → Outcome (List ℕ)) (stored : List Hash)
    (only : (h : Hash) (b : List ℕ) → get h ≡ ok b → In h stored) where
  -- A function that ends where fewer than `k` stored objects are unmarked.
  abbrev pub EndsBelow : ℕ → (Hash → Marked → Marking) → Type 0
  EndsBelow k mark = (h : Hash) (m : Marked) → missing stored m < k → Ends m (mark h m)

  pub mark_manifest-Ends : (k : ℕ) → EndsBelow k (mark_manifest get)
  unfolding mark_manifest
  mark_manifest-Ends k h m less = elim (Bool-cases (has h m)) [
    | inl e ↦ inl (m, rw e refl, λ x i. i)
    | inr e ↦ elim (Result-cases (manifest_object get h)) [
      | inl (why, q) ↦ inr (why, rw e (rw q refl))
      | inr (f, q) ↦ inl (
        insert_chunks f.chunks (h ∷ m),
        rw e (rw q refl),
        λ x i. Within-insert_chunks f.chunks (h ∷ m) x (inr i),
      )
    ]
  ]

  pub below : (k : ℕ) (m m' : Marked) → Within m m' → missing stored m < k → missing stored m' < k
  below k m m' w less = omega (arith, missing-Within stored m m' w, less)

  pub mark_each-Ends :
      (k : ℕ) (mark : Hash → Marked → Marking)
      → EndsBelow k mark
      → (hs : List Hash) (m : Marked) → missing stored m < k
      → Ends m (mark_each get mark hs m)
  unfolding mark_each
  mark_each-Ends k mark spec [] m less = inl (m, refl, λ x i. i)
  mark_each-Ends k mark spec (h ∷ hs) m less =
      Ends-bind m (mark h m) (mark_each get mark hs) (spec h m less)
        (λ m' w. mark_each-Ends k mark spec hs m' (below k m m' w less))

  mark_entry-Ends :
      (k : ℕ) (sub : Hash → Marked → Marking)
      → EndsBelow k sub
      → (r : TreeKind) (y : TreeEntry) (m : Marked) → y.kind ≡ r
      → missing stored m < k
      → Ends m (mark_entry get sub y m)
  unfolding mark_entry
  mark_entry-Ends k sub spec dir y m q less = rw q (spec y.hash m less)
  mark_entry-Ends k sub spec file y m q less = rw q (mark_manifest-Ends k y.hash m less)
  mark_entry-Ends k sub spec symlink y m q less =
      rw q (inl (insert y.hash m, refl, Within-insert y.hash m))

  mark_entries-Ends :
      (k : ℕ) (sub : Hash → Marked → Marking)
      → EndsBelow k sub
      → (es : List TreeEntry) (m : Marked) → missing stored m < k
      → Ends m (mark_entries get sub es m)
  unfolding mark_entries
  mark_entries-Ends k sub spec [] m less = inl (m, refl, λ x i. i)
  mark_entries-Ends k sub spec (y ∷ es) m less =
      Ends-bind m (mark_entry get sub y m) (mark_entries get sub es)
        (mark_entry-Ends k sub spec y.kind y m refl less)
        (λ m' w. mark_entries-Ends k sub spec es m' (below k m m' w less))

  -- Behind a hash that was not marked and is stored, one unit of fuel less is enough.
  step_down :
      (n : ℕ) (h : Hash) (b : List ℕ) (m : Marked)
      → get h ≡ ok b
      → has h m ≡ false
      → missing stored m < suc n
      → missing stored (h ∷ m) < n
  step_down n h b m g e less = omega (arith, missing-cons stored h m (only h b g) e, less)

  mark_tree-Ends : (n : ℕ) → EndsBelow n (mark_tree get n)
  unfolding mark_tree tree_object
  mark_tree-Ends zero h m less = absurd (omega (arith, less))
  mark_tree-Ends (suc n) h m less = elim (Bool-cases (has h m)) [
    | inl e ↦ inl (m, rw e refl, λ x i. i)
    | inr e ↦ elim (Result-cases (tree_object get h)) [
      | inl (why, q) ↦ inr (why, rw e (rw q refl))
      | inr (t, q) ↦
          let (b, g, _) = >>=-eq-ok (get h) _ q in
          let down = step_down n h b m g e less in
          rw e (
            rw q (
              Ends-Within m (h ∷ m) (mark_entries get (mark_tree get n) t.entries (h ∷ m))
                (λ x i. inr i)
                (mark_entries-Ends n (mark_tree get n) (mark_tree-Ends n) t.entries (h ∷ m) down)))
    ]
  ]

  pub mark_commit-Ends : (n : ℕ) → EndsBelow n (mark_commit get n)
  unfolding mark_commit commit_object
  mark_commit-Ends zero h m less = absurd (omega (arith, less))
  mark_commit-Ends (suc n) h m less = elim (Bool-cases (has h m)) [
    | inl e ↦ inl (m, rw e refl, λ x i. i)
    | inr e ↦ elim (Result-cases (commit_object get h)) [
      | inl (why, q) ↦ inr (why, rw e (rw q refl))
      | inr (c, q) ↦
          let (b, g, _) = >>=-eq-ok (get h) _ q in
          let down = step_down n h b m g e less in
          let next = mark_each get (mark_commit get n) c.parents in
          rw e (
            rw q (
              Ends-Within m (h ∷ m) (mark_tree get n c.tree (h ∷ m) >>= next) (λ x i. inr i)
                (Ends-bind (h ∷ m) (mark_tree get n c.tree (h ∷ m)) next
                  (mark_tree-Ends n c.tree (h ∷ m) down)
                  (λ m' w.
                    mark_each-Ends n (mark_commit get n) (mark_commit-Ends n) c.parents m'
                      (below n (h ∷ m) m' w down)))))
    ]
  ]
