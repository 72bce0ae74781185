-- ===== src/Gc/Finish.antt =====
-- The collection comes to an end on as much fuel as the store has objects.
use origofs.Base.{
  ℕ, ◌≡◌, ◌<◌, ◌⊎◌, inl, inr, refl, List, [], ◌∷◌, Option, none, some, In, map, length, err, ok,
  ◌>>=◌, arith,
}
use origofs.Errors.{OrigofsError, Outcome}
use origofs.ObjectGraph.{Hash}
use origofs.Gc.{
  Marked, insert_option, failed, mark_manifest, mark_each, mark_commit, Workspace, hashes_of,
  working_files, suggested, trash_content_hashes, purge, mark_workspace, mark_workspaces, mark_all,
  Object, GcStats, gc_locked, sweep, no_stats,
}
use origofs.Gc.Fuel.{
  Within, missing, missing_nil, Ends, Ends-bind, Ends-Within, Within-insert, mark_manifest-Ends,
  below, mark_each-Ends, mark_commit-Ends,
}

module _ (get : Hash → Outcome (List ℕ)) (stored : List Hash)
    (only : (h : Hash) (b : List ℕ) → get h ≡ ok b → In h stored) where
  Within-insert_option : (o : Option Hash) (m : Marked) → Within m (insert_option o m)
  Within-insert_option none m x i = i
  Within-insert_option (some h) m x i = Within-insert h m x i

  mark_workspace-Ends :
      (n : ℕ) (trash : List Hash) (ws : Workspace) (m : Marked)
      → missing stored m < n
      → Ends m (mark_workspace get n trash ws m)
  unfolding mark_workspace
  mark_workspace-Ends n trash ws m less =
      let each = mark_each-Ends get stored only n in
      let man = mark_manifest-Ends get stored only n in
      let fits = below get stored only n in
      let last =
        λ (m3 : Marked). mark_each get (mark_manifest get) trash (insert_option ws.mirror m3) in
      let third =
        λ (m2 : Marked). mark_each get (mark_manifest get) (suggested ws.suggestions) m2 >>= last in
      let second = λ (m1 : Marked).
        mark_each get (mark_manifest get) (working_files ws.working) m1 >>= third in
      Ends-bind m (mark_each get (mark_commit get n) (hashes_of ws.refs) m) second
        (each (mark_commit get n) (mark_commit-Ends get stored only n) (hashes_of ws.refs) m less)
        (λ m1 w1.
          let l1 = fits m m1 w1 less in
          Ends-bind m1 (mark_each get (mark_manifest get) (working_files ws.working) m1) third
            (each (mark_manifest get) man (working_files ws.working) m1 l1)
            (λ m2 w2.
              let l2 = fits m1 m2 w2 l1 in
              Ends-bind m2 (mark_each get (mark_manifest get) (suggested ws.suggestions) m2) last
                (each (mark_manifest get) man (suggested ws.suggestions) m2 l2)
                (λ m3 w3.
                  let l3 = fits m2 m3 w3 l2 in
                  let m4 = insert_option ws.mirror m3 in
                  let w4 = Within-insert_option ws.mirror m3 in
                  Ends-Within m3 m4 (mark_each get (mark_manifest get) trash m4) w4
                    (each (mark_manifest get) man trash m4 (fits m3 m4 w4 l3)))))

  mark_workspaces-Ends :
      (n : ℕ) (trash : List Hash) (wss : List Workspace) (m : Marked)
      → missing stored m < n
      → Ends m (mark_workspaces get n trash wss m)
  unfolding mark_workspaces
  mark_workspaces-Ends n trash [] m less = inl (m, refl, λ x i. i)
  mark_workspaces-Ends n trash (ws ∷ wss) m less =
      Ends-bind m (mark_workspace get n trash ws m) (mark_workspaces get n trash wss)
        (mark_workspace-Ends n trash ws m less)
        (λ m' w. mark_workspaces-Ends n trash wss m' (below get stored only n m m' w less))

  -- Where only `stored` can be loaded, more fuel than there are stored objects is enough: the collection
  -- ends with its statistics and the objects left, or with an error of the store or of a decoder.
  pub gc_locked-Ends :
      (n now grace : ℕ) (wss : List Workspace) (listed : List (Hash × Option ℕ)) (os : List Object)
      → length stored < n
      → ((r : GcStats × List Object) × (gc_locked get n now grace wss listed os ≡ ok r))
        ⊎ ((e : OrigofsError) × (gc_locked get n now grace wss listed os ≡ err (failed e)))
  unfolding gc_locked mark_all
  gc_locked-Ends n now grace wss listed os less =
      let kept = map (purge now) wss in
      let small : missing stored [] < n = omega (arith, missing_nil stored, less) in
      elim (mark_workspaces-Ends n (trash_content_hashes kept) kept [] small) [
        | inl (m, q, w) ↦ inl (sweep grace m listed (no_stats (length m), os), rw q refl)
        | inr (e, q) ↦ inr (e, rw q refl)
      ]
