-- ===== src/Gc/Roots.antt =====
-- The roots of all workspaces, and what can be reached from them.
use origofs.Base.{
  ℕ, ◌≡◌, ◌⊎◌, inl, inr, refl, subst, List, [], ◌∷◌, ◌++◌, Option, none, some, All, All-append,
  All-of-In, In, map, ok, >>=-eq-ok,
}
use origofs.Errors.{Outcome}
use origofs.ObjectGraph.{Hash, Tree, TreeEntry, Commit}
use origofs.Chunk.{ChunkRef, Manifest}
use origofs.Gc.{
  Marked, insert_option, commit_object, tree_object, some_of, manifest_object, mark_manifest,
  mark_each, mark_commit, Workspace, hashes_of, working_files, suggested, trash_content_hashes,
  purge, mark_workspace, mark_workspaces, mark_all,
}
use origofs.Gc.Marks.{
  Role, a_commit, a_tree, a_manifest, a_leaf, ClosedAs, Typed, Within, All-Within, Grows,
  Grows-trans, Grows-refl, insert-Grows, mark_manifest-Marks,
}
use origofs.Gc.Walk.{mark_each-Grows, mark_commit-Marks}

-- What the collection starts from in one workspace, but for the trash.
abbrev pub roots_of : Workspace → List Hash
roots_of ws =
    hashes_of ws.refs
    ++ (working_files ws.working ++ (suggested ws.suggestions ++ some_of ws.mirror))

-- The roots of all workspaces once their trash is purged.
abbrev pub all_roots : List Workspace → List Hash
all_roots [] = []
all_roots (ws ∷ wss) = roots_of ws ++ all_roots wss

abbrev pub gc_roots : ℕ → List Workspace → List Hash
gc_roots now wss = let kept = map (purge now) wss in all_roots kept ++ trash_content_hashes kept

module _ (roles : Hash → Role) where
  -- The roots are used in their roles.
  abbrev pub RootsTyped : Workspace → Type 0
  RootsTyped ws =
      All (λ h. roles h ≡ a_commit) (hashes_of ws.refs)
      × All (λ h. roles h ≡ a_manifest) (working_files ws.working)
      × All (λ h. roles h ≡ a_manifest) (suggested ws.suggestions)
      × All (λ h. roles h ≡ a_leaf) (some_of ws.mirror)

-- What can be reached from `start`, each object used in its role.
pub data Reaches (get : Hash → Outcome (List ℕ)) (roles : Hash → Role) (start : List Hash)
    : Hash → Type 0 where
  root : (h : Hash) → In h start → Reaches get roles start h
  tree_of :
      (h t : Hash) (c : Commit)
      → Reaches get roles start h
      → roles h ≡ a_commit
      → commit_object get h ≡ ok c
      → t ≡ c.tree
      → Reaches get roles start t
  parent_of :
      (h p : Hash) (c : Commit)
      → Reaches get roles start h
      → roles h ≡ a_commit
      → commit_object get h ≡ ok c
      → In p c.parents
      → Reaches get roles start p
  entry_of :
      (h x : Hash) (t : Tree) (e : TreeEntry)
      → Reaches get roles start h
      → roles h ≡ a_tree
      → tree_object get h ≡ ok t
      → In e t.entries
      → x ≡ e.hash
      → Reaches get roles start x
  chunk_of :
      (h x : Hash) (f : Manifest) (c : ChunkRef)
      → Reaches get roles start h
      → roles h ≡ a_manifest
      → manifest_object get h ≡ ok f
      → In c f.chunks
      → x ≡ c.hash
      → Reaches get roles start x

module _ (get : Hash → Outcome (List ℕ)) (roles : Hash → Role) (typed : Typed get roles) where
  insert_option-Grows :
      (o : Option Hash) (m : Marked)
      → All (λ h. roles h ≡ a_leaf) (some_of o)
      → Grows get roles typed m (insert_option o m)
        × All (λ h. In h (insert_option o m)) (some_of o)
  insert_option-Grows none m h = (Grows-refl get roles typed m, tt)
  insert_option-Grows (some x) m (r, _) =
      let (g, i) = insert-Grows get roles typed x m r in (g, (i, tt))

  mark_workspace-Grows :
      (n : ℕ) (trash : List Hash) (ws : Workspace) (m m' : Marked)
      → RootsTyped roles ws
      → All (λ h. roles h ≡ a_manifest) trash
      → mark_workspace get n trash ws m ≡ ok m'
      → Grows get roles typed m m' × All (λ h. In h m') (roots_of ws) × All (λ h. In h m') trash
  unfolding mark_workspace
  mark_workspace-Grows n trash ws m m' (tr, tw, ts, tm) tt' e =
      let (m1, e1, r1) = >>=-eq-ok (mark_each get (mark_commit get n) (hashes_of ws.refs) m) _ e in
      let (m2, e2, r2) =
        >>=-eq-ok (mark_each get (mark_manifest get) (working_files ws.working) m1) _ r1 in
      let (m3, e3, r3) =
        >>=-eq-ok (mark_each get (mark_manifest get) (suggested ws.suggestions) m2) _ r2 in
      let m4 = insert_option ws.mirror m3 in
      let mm = mark_manifest-Marks get roles typed in
      let all = mark_each-Grows get roles typed in
      let (g1, i1) =
        all a_commit (mark_commit get n) (mark_commit-Marks get roles typed n) (hashes_of ws.refs) m
          m1 tr e1 in
      let (g2, i2) = all a_manifest (mark_manifest get) mm (working_files ws.working) m1 m2 tw e2 in
      let (g3, i3) = all a_manifest (mark_manifest get) mm (suggested ws.suggestions) m2 m3 ts e3 in
      let (g4, i4) = insert_option-Grows ws.mirror m3 tm in
      let (g5, i5) = all a_manifest (mark_manifest get) mm trash m4 m' tt' r3 in
      let g45 = Grows-trans get roles typed m3 m4 m' g4 g5 in
      let g35 = Grows-trans get roles typed m2 m3 m' g3 g45 in
      let g25 = Grows-trans get roles typed m1 m2 m' g2 g35 in
      let keep = λ (a : Marked) (hs : List Hash) (w : Within get a m') (i : All (λ h. In h a) hs).
        All-Within get (λ (h : Hash). h) a m' hs w i in
      let p : Hash → Type 0 = λ h. In h m' in
      (
        Grows-trans get roles typed m m1 m' g1 g25,
        All-append p (hashes_of ws.refs) _ (keep m1 (hashes_of ws.refs) (g25.0) i1) (
            All-append p (working_files ws.working) _
              (keep m2 (working_files ws.working) (g35.0) i2)
              (All-append p (suggested ws.suggestions) (some_of ws.mirror)
                (keep m3 (suggested ws.suggestions) (g45.0) i3)
                (keep m4 (some_of ws.mirror) (g5.0) i4))),
        i5,
      )

  mark_workspaces-Grows :
      (n : ℕ) (trash : List Hash) (wss : List Workspace) (m m' : Marked)
      → All (RootsTyped roles) wss
      → All (λ h. roles h ≡ a_manifest) trash
      → mark_workspaces get n trash wss m ≡ ok m'
      → Grows get roles typed m m'
        × All (λ h. In h m') (all_roots wss)
        × ((wss ≡ []) ⊎ All (λ h. In h m') trash)
  unfolding mark_workspaces
  mark_workspaces-Grows n trash [] m m' h t e =
      let q : m ≡ m' = cc in
      (subst (Grows get roles typed m) q (Grows-refl get roles typed m), tt, inl refl)
  mark_workspaces-Grows n trash (ws ∷ wss) m m' (h, hs) t e =
      let (m1, e1, e2) = >>=-eq-ok (mark_workspace get n trash ws m) _ e in
      let (g, i, it) = mark_workspace-Grows n trash ws m m1 h t e1 in
      let (g', is, _) = mark_workspaces-Grows n trash wss m1 m' hs t e2 in
      let keep = λ (xs : List Hash) (j : All (λ x. In x m1) xs).
        All-Within get (λ (x : Hash). x) m1 m' xs (g'.0) j in
      (
        Grows-trans get roles typed m m1 m' g g',
        All-append (λ x. In x m') (roots_of ws) (all_roots wss) (keep (roots_of ws) i) is,
        inr (keep trash it),
      )

  mark_all-roots :
      (n now : ℕ) (wss : List Workspace) (m : Marked)
      → All (RootsTyped roles) (map (purge now) wss)
      → All (λ h. roles h ≡ a_manifest) (trash_content_hashes (map (purge now) wss))
      → mark_all get n now wss ≡ ok m
      → Grows get roles typed [] m × All (λ h. In h m) (gc_roots now wss)
  unfolding mark_all trash_content_hashes
  mark_all-roots n now [] m h t e =
      let (g, i, _) = mark_workspaces-Grows n [] [] [] m tt tt e in (g, tt)
  mark_all-roots n now (ws ∷ wss) m h t e =
      let kept = map (purge now) (ws ∷ wss) in
      let trash = trash_content_hashes kept in
      let (g, i, it) = mark_workspaces-Grows n trash kept [] m h t e in
      let j : All (λ x. In x m) trash = elim it [ inl q ↦ absurd (never q) | inr k ↦ k ] in
      (g, All-append (λ x. In x m) (all_roots kept) trash i j)
    where
      never : {A : Type 0} {x : A} {xs : List A} → x ∷ xs ≡ [] → ⊥
      never q = cc

  -- A mark phase that ends without an error has marked all that can be reached from the branches, the
  -- live files, the pending suggestions, the mirrored refs and the trash that is still retained, of
  -- every workspace.
  pub mark_all-Reaches :
      (n now : ℕ) (wss : List Workspace) (m : Marked) (h : Hash)
      → All (RootsTyped roles) (map (purge now) wss)
      → All (λ x. roles x ≡ a_manifest) (trash_content_hashes (map (purge now) wss))
      → mark_all get n now wss ≡ ok m
      → Reaches get roles (gc_roots now wss) h
      → In h m
  mark_all-Reaches n now wss m h tr tt' e reach =
      let (g, is) = mark_all-roots n now wss m tr tt' e in
      let closed : (x : Hash) → In x m → ClosedAs get (roles x) x m =
        λ x i. elim (g.1 x i) [ inl j ↦ absurd j | inr c ↦ c ] in
      walk is closed reach
    where
      use_role :
          (x : Hash) (r : Role) → roles x ≡ r → ClosedAs get (roles x) x m → ClosedAs get r x m
      use_role x r q c = subst (λ z. ClosedAs get z x m) q c

      walk :
          All (λ x. In x m) (gc_roots now wss)
          → ((x : Hash) → In x m → ClosedAs get (roles x) x m)
          → {x : Hash} → Reaches get roles (gc_roots now wss) x
          → In x m
      walk is closed (root x i) = All-of-In (λ y. In y m) x (gc_roots now wss) is i
      walk is closed (tree_of x t c r k o q) =
          rw q (use_role x a_commit k (closed x (walk is closed r)) c o).0
      walk is closed (parent_of x p c r k o i) =
          All-of-In (λ y. In y m) p c.parents
            (use_role x a_commit k (closed x (walk is closed r)) c o).1 i
      walk is closed (entry_of x y t z r k o i q) = rw q (
          All-of-In (λ (w : TreeEntry). In (w.hash) m) z t.entries
            (use_role x a_tree k (closed x (walk is closed r)) t o) i)
      walk is closed (chunk_of x y f c r k o i q) = rw q (
          All-of-In (λ (w : ChunkRef). In (w.hash) m) c f.chunks
            (use_role x a_manifest k (closed x (walk is closed r)) f o) i)
