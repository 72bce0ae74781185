-- ===== src/Gc/Marks.antt =====
-- Marking a root marks whatever can be reached from it.
use origofs.Base.{
  ℕ, ◌≡◌, ◌⊎◌, inl, inr, refl, sym, subst, true, List, [], ◌∷◌, text_eq, text_eq_iff, All, In, err,
  ok, ◌>>=◌, >>=-eq-ok, Bool-cases, arith,
}
use origofs.Errors.{Outcome}
use origofs.ObjectGraph.{Hash, Tree, TreeEntry, TreeKind, file, dir, symlink, Commit}
use origofs.Chunk.{ChunkRef, Manifest}
use origofs.Gc.{
  Marked, has, insert, Marking, lift, insert_chunks, commit_object, tree_object, manifest_object,
  mark_manifest,
}

-- What an object is used as.
pub data Role : Type 0 where
  a_commit a_tree a_manifest a_leaf : Role

abbrev pub role_of : TreeKind → Role
role_of dir = a_tree
role_of file = a_manifest
role_of symlink = a_leaf

pub has-In : (h : Hash) (m : Marked) → has h m ≡ true → In h m
has-In h [] e = cc
has-In h (x ∷ m) e = elim (Bool-cases (text_eq h x)) [
  | inl q ↦ inl ((text_eq_iff h x).0 q)
  | inr q ↦ inr (has-In h m (ground (arith, q, e)))
]

pub In-has : (h : Hash) (m : Marked) → In h m → has h m ≡ true
In-has h [] i = absurd i
In-has h (x ∷ m) (inl e) = let q : text_eq h x ≡ true = (text_eq_iff h x).1 e in ground (arith, q)
In-has h (x ∷ m) (inr i) = ground (arith, In-has h m i)

In-insert : (h : Hash) (m : Marked) → In h (insert h m)
In-insert h m = elim (Bool-cases (has h m)) [
  | inl e ↦ rw e (has-In h m e)
  | inr e ↦ rw e (inl refl)
]

pub lift-ok : {A : Type 0} (r : Outcome A) (a : A) → lift r ≡ ok a → r ≡ ok a
lift-ok (err e) a h = cc
lift-ok (ok b) a h = cc

module _ (get : Hash → Outcome (List ℕ)) where
  -- What an object in this role refers to is marked.
  abbrev pub ClosedAs : Role → Hash → Marked → Type 0
  ClosedAs a_commit x m =
      (c : Commit) → commit_object get x ≡ ok c → In c.tree m × All (λ p. In p m) c.parents
  ClosedAs a_tree x m = (t : Tree) → tree_object get x ≡ ok t → All (λ e. In (e.hash) m) t.entries
  ClosedAs a_manifest x m =
      (f : Manifest) → manifest_object get x ≡ ok f → All (λ c. In (c.hash) m) f.chunks
  ClosedAs a_leaf x m = Unit {0}

  -- Every object has one role, and refers to objects in the roles that the collector uses them in. A
  -- chunk or the target of a symlink with the same bytes as a stored manifest, tree or commit would
  -- have two.
  pub record Typed (roles : Hash → Role) : Type 0 where
    pub of_commit :
        (h : Hash) (c : Commit)
        → roles h ≡ a_commit
        → commit_object get h ≡ ok c
        → (roles c.tree ≡ a_tree) × All (λ p. roles p ≡ a_commit) c.parents
    pub of_tree :
        (h : Hash) (t : Tree)
        → roles h ≡ a_tree
        → tree_object get h ≡ ok t
        → All (λ e. roles (e.hash) ≡ role_of (e.kind)) t.entries
    pub of_manifest :
        (h : Hash) (f : Manifest)
        → roles h ≡ a_manifest
        → manifest_object get h ≡ ok f
        → All (λ c. roles (c.hash) ≡ a_leaf) f.chunks

  abbrev pub Within : Marked → Marked → Type 0
  Within m m' = (x : Hash) → In x m → In x m'

  pub All-Within :
      {A : Type 0} (f : A → Hash) (m m' : Marked) (xs : List A)
      → Within m m'
      → All (λ x. In (f x) m) xs
      → All (λ x. In (f x) m') xs
  All-Within f m m' [] w h = tt
  All-Within f m m' (x ∷ xs) w (h, hs) = (w (f x) h, All-Within f m m' xs w hs)

  ClosedAs-Within :
      (r : Role) (x : Hash) (m m' : Marked) → Within m m' → ClosedAs r x m → ClosedAs r x m'
  ClosedAs-Within a_commit x m m' w h =
      λ c e. let (t, ps) = h c e in (w c.tree t, All-Within (λ p. p) m m' c.parents w ps)
  ClosedAs-Within a_tree x m m' w h =
      λ t e. All-Within (λ (y : TreeEntry). y.hash) m m' t.entries w (h t e)
  ClosedAs-Within a_manifest x m m' w h =
      λ f e. All-Within (λ (y : ChunkRef). y.hash) m m' f.chunks w (h f e)
  ClosedAs-Within a_leaf x m m' w h = tt

module _ (get : Hash → Outcome (List ℕ)) (roles : Hash → Role) (typed : Typed get roles) where
  -- Nothing is unmarked, and what is newly marked has what it refers to marked.
  abbrev pub Grows : Marked → Marked → Type 0
  Grows m m' = Within get m m' × ((x : Hash) → In x m' → In x m ⊎ ClosedAs get (roles x) x m')

  -- A function that marks a hash of this role, with all that it refers to.
  abbrev pub Marks : Role → (Hash → Marked → Marking) → Type 0
  Marks r mark = (h : Hash) (m m' : Marked) → roles h ≡ r → mark h m ≡ ok m' → Grows m m' × In h m'

  pub Grows-trans : (m m' m'' : Marked) → Grows m m' → Grows m' m'' → Grows m m''
  Grows-trans m m' m'' (w, g) (w', g') = (
    λ x i. w' x (w x i),
    λ x i. elim (g' x i) [
      | inr c ↦ inr c
      | inl j ↦ elim (g x j) [
        | inl k ↦ inl k
        | inr c ↦ inr (ClosedAs-Within get (roles x) x m' m'' w' c)
      ]
    ],
  )

  pub Grows-refl : (m : Marked) → Grows m m
  Grows-refl m = (λ x i. i, λ x i. inl i)

  -- A hash that was marked before what it refers to.
  pub Grows-open :
      (h : Hash) (m m' : Marked)
      → Grows (h ∷ m) m'
      → ClosedAs get (roles h) h m'
      → Grows m m' × In h m'
  Grows-open h m m' (w, g) c = (
    (
      λ x i. w x (inr i),
      λ x i. elim (g x i) [
        | inr d ↦ inr d
        | inl (inr j) ↦ inl j
        | inl (inl e) ↦ inr (subst (λ y. ClosedAs get (roles y) y m') (sym e) c)
      ],
    ),
    w h (inl refl),
  )

  pub insert-Grows :
      (h : Hash) (m : Marked) → roles h ≡ a_leaf → Grows m (insert h m) × In h (insert h m)
  insert-Grows h m r =
      let leaf : (x : Marked) → ClosedAs get (roles h) h x = λ x. rw r tt in
      elim (Bool-cases (has h m)) [
        | inl e ↦ rw e (Grows-refl m, has-In h m e)
        | inr e ↦ rw e (Grows-open h m (h ∷ m) (Grows-refl (h ∷ m)) (leaf (h ∷ m)))
      ]

  insert_chunks-Grows :
      (cs : List ChunkRef) (m : Marked)
      → All (λ c. roles (c.hash) ≡ a_leaf) cs
      → Grows m (insert_chunks cs m) × All (λ c. In (c.hash) (insert_chunks cs m)) cs
  unfolding insert_chunks
  insert_chunks-Grows [] m h = (Grows-refl m, tt)
  insert_chunks-Grows (c ∷ cs) m (r, rs) =
      let (g, i) = insert-Grows c.hash m r in
      let (g', is) = insert_chunks-Grows cs (insert c.hash m) rs in
      (
        Grows-trans m (insert c.hash m) (insert_chunks cs (insert c.hash m)) g g',
        (g'.0 c.hash i, is),
      )

  pub mark_manifest-Marks : Marks a_manifest (mark_manifest get)
  unfolding mark_manifest
  mark_manifest-Marks h m m' r e = elim (Bool-cases (has h m)) [
    | inl k ↦
        let q : m ≡ m' = ground (arith, k, e) in
        subst (λ z. Grows m z × In h z) q (Grows-refl m, has-In h m k)
    | inr k ↦
        let e' : lift (manifest_object get h) >>= (λ f. ok (insert_chunks f.chunks (h ∷ m)))
            ≡ ok m' =
          rw k at e in
        let (f, l, q) = >>=-eq-ok (lift (manifest_object get h)) _ e' in
        let o = lift-ok (manifest_object get h) f l in
        let (g, is) = insert_chunks-Grows f.chunks (h ∷ m) (typed.of_manifest h f r o) in
        let closed : ClosedAs get a_manifest h (insert_chunks f.chunks (h ∷ m)) = λ f' o'.
          subst (λ (z : Manifest). All (λ c. In (c.hash) (insert_chunks f.chunks (h ∷ m))) z.chunks)
            (same f f' o o') is in
        let q' : insert_chunks f.chunks (h ∷ m) ≡ m' = cc in
        subst (λ z. Grows m z × In h z) q'
          (Grows-open h m (insert_chunks f.chunks (h ∷ m)) g
            (subst (λ z. ClosedAs get z h (insert_chunks f.chunks (h ∷ m))) (sym r) closed))
  ]
    where
      same :
          (f f' : Manifest) → manifest_object get h ≡ ok f → manifest_object get h ≡ ok f' → f ≡ f'
      same f f' a b = cc
