-- ===== src/Gc/Walk.antt =====
-- The walk over commits and trees, and all the roots.
use origofs.Base.{
  ℕ, zero, suc, ◌≡◌, inl, inr, refl, sym, subst, true, List, [], ◌∷◌, All, In, ok, ◌>>=◌, >>=-eq-ok,
  Bool-cases, if◌then◌else◌, arith,
}
use origofs.Errors.{Outcome}
use origofs.ObjectGraph.{Hash, Tree, TreeEntry, TreeKind, file, dir, symlink, Commit}
use origofs.Gc.{
  Marked, has, insert, Marking, lift, commit_object, tree_object, mark_manifest, mark_each,
  mark_entry, mark_entries, mark_tree, mark_commit,
}
use origofs.Gc.Marks.{
  Role, a_commit, a_tree, role_of, has-In, lift-ok, ClosedAs, Typed, Grows, Marks, Grows-trans,
  Grows-refl, Grows-open, insert-Grows, mark_manifest-Marks,
}

module _ (get : Hash → Outcome (List ℕ)) (roles : Hash → Role) (typed : Typed get roles) where
  pub mark_each-Grows :
      (r : Role) (mark : Hash → Marked → Marking)
      → Marks get roles typed r mark
      → (hs : List Hash) (m m' : Marked) → All (λ h. roles h ≡ r) hs
      → mark_each get mark hs m ≡ ok m'
      → Grows get roles typed m m' × All (λ h. In h m') hs
  unfolding mark_each
  mark_each-Grows r mark spec [] m m' h e =
      let q : m ≡ m' = cc in (subst (Grows get roles typed m) q (Grows-refl get roles typed m), tt)
  mark_each-Grows r mark spec (h ∷ hs) m m' (p, ps) e =
      let (m1, e1, e2) = >>=-eq-ok (mark h m) _ e in
      let (g, i) = spec h m m1 p e1 in
      let (g', is) = mark_each-Grows r mark spec hs m1 m' ps e2 in
      (Grows-trans get roles typed m m1 m' g g', (g'.0 h i, is))

  mark_entry-Grows :
      (sub : Hash → Marked → Marking)
      → Marks get roles typed a_tree sub
      → (k : TreeKind) (y : TreeEntry) (m m' : Marked) → y.kind ≡ k
      → roles y.hash ≡ role_of k
      → mark_entry get sub y m ≡ ok m'
      → Grows get roles typed m m' × In y.hash m'
  unfolding mark_entry
  mark_entry-Grows sub spec dir y m m' k p e =
      let q : sub y.hash m ≡ ok m' = rw k at e in spec y.hash m m' p q
  mark_entry-Grows sub spec file y m m' k p e =
      let q : mark_manifest get y.hash m ≡ ok m' = rw k at e in
      mark_manifest-Marks get roles typed y.hash m m' p q
  mark_entry-Grows sub spec symlink y m m' k p e =
      let q : ok (insert y.hash m) ≡ ok m' = rw k at e in
      let q' : insert y.hash m ≡ m' = cc in
      subst (λ z. Grows get roles typed m z × In y.hash z) q'
        (insert-Grows get roles typed y.hash m p)

  mark_entries-Grows :
      (sub : Hash → Marked → Marking)
      → Marks get roles typed a_tree sub
      → (es : List TreeEntry) (m m' : Marked) → All (λ e. roles (e.hash) ≡ role_of (e.kind)) es
      → mark_entries get sub es m ≡ ok m'
      → Grows get roles typed m m' × All (λ e. In (e.hash) m') es
  unfolding mark_entries
  mark_entries-Grows sub spec [] m m' h e =
      let q : m ≡ m' = cc in (subst (Grows get roles typed m) q (Grows-refl get roles typed m), tt)
  mark_entries-Grows sub spec (y ∷ es) m m' (p, ps) e =
      let (m1, e1, e2) = >>=-eq-ok (mark_entry get sub y m) _ e in
      let (g, i) = mark_entry-Grows sub spec y.kind y m m1 refl p e1 in
      let (g', is) = mark_entries-Grows sub spec es m1 m' ps e2 in
      (Grows-trans get roles typed m m1 m' g g', (g'.0 y.hash i, is))

  already :
      (h : Hash) (m m' : Marked) (r : Marking)
      → has h m ≡ true
      → (if◌then◌else◌ (has h m) (ok m) r) ≡ ok m'
      → Grows get roles typed m m' × In h m'
  already h m m' r k e =
      let q : m ≡ m' = ground (arith, k, e) in
      subst (λ z. Grows get roles typed m z × In h z) q (Grows-refl get roles typed m, has-In h m k)

  mark_tree-Marks : (n : ℕ) → Marks get roles typed a_tree (mark_tree get n)
  unfolding mark_tree
  mark_tree-Marks zero h m m' r e = cc
  mark_tree-Marks (suc n) h m m' r e = elim (Bool-cases (has h m)) [
    | inl k ↦
        already h m m'
          (lift (tree_object get h) >>= (λ t. mark_entries get (mark_tree get n) t.entries (h ∷ m)))
          k e
    | inr k ↦
        let e' : lift (tree_object get h)
              >>= (λ t. mark_entries get (mark_tree get n) t.entries (h ∷ m))
            ≡ ok m' =
          rw k at e in
        let (t, l, q) = >>=-eq-ok (lift (tree_object get h)) _ e' in
        let o = lift-ok (tree_object get h) t l in
        let (g, is) =
          mark_entries-Grows (mark_tree get n) (mark_tree-Marks n) t.entries (h ∷ m) m'
            (typed.of_tree h t r o) q in
        let closed : ClosedAs get a_tree h m' =
          λ t' o'. subst (λ (z : Tree). All (λ y. In (y.hash) m') z.entries) (same t t' o o') is in
        Grows-open get roles typed h m m' g (subst (λ z. ClosedAs get z h m') (sym r) closed)
  ]
    where
      same : (t t' : Tree) → tree_object get h ≡ ok t → tree_object get h ≡ ok t' → t ≡ t'
      same t t' a b = cc

  pub mark_commit-Marks : (n : ℕ) → Marks get roles typed a_commit (mark_commit get n)
  unfolding mark_commit
  mark_commit-Marks zero h m m' r e = cc
  mark_commit-Marks (suc n) h m m' r e = elim (Bool-cases (has h m)) [
    | inl k ↦
        already h m m'
          (lift (commit_object get h) >>= (λ c.
            mark_tree get n c.tree (h ∷ m)
            >>= (λ m1. mark_each get (mark_commit get n) c.parents m1)))
          k e
    | inr k ↦
        let e' : lift (commit_object get h) >>= (λ c.
          mark_tree get n c.tree (h ∷ m) >>= (λ m1. mark_each get (mark_commit get n) c.parents m1))
            ≡ ok m' =
          rw k at e in
        let (c, l, q) = >>=-eq-ok (lift (commit_object get h)) _ e' in
        let (m1, q1, q2) = >>=-eq-ok (mark_tree get n c.tree (h ∷ m)) _ q in
        let o = lift-ok (commit_object get h) c l in
        let (rt, rp) = typed.of_commit h c r o in
        let (g, i) = mark_tree-Marks n c.tree (h ∷ m) m1 rt q1 in
        let (g', is) =
          mark_each-Grows a_commit (mark_commit get n) (mark_commit-Marks n) c.parents m1 m' rp
            q2 in
        let closed : ClosedAs get a_commit h m' = λ c' o'.
          subst (λ (z : Commit). In z.tree m' × All (λ p. In p m') z.parents) (same c c' o o')
            (g'.0 c.tree i, is) in
        Grows-open get roles typed h m m' (Grows-trans get roles typed (h ∷ m) m1 m' g g')
          (subst (λ z. ClosedAs get z h m') (sym r) closed)
  ]
    where
      same : (c c' : Commit) → commit_object get h ≡ ok c → commit_object get h ≡ ok c' → c ≡ c'
      same c c' a b = cc
