-- ===== src/Gc/Examples.antt =====
-- A collection of a store with the chunks and the manifest of one live file and an object that nothing
-- refers to.
use origofs.Base.{
  ◌≢◌, ◌++◌, ap, ℕ, ◌≡◌, ◌⊎◌, ◌≤◌, inl, inr, refl, subst, List, [], ◌∷◌, Option, none, some, codes,
  text_eq, text_eq_iff, replicate, All, In, map, ok, err, if◌then◌else◌, Bool-cases, text_discrete,
  arith,
}
use origofs.Errors.{OrigofsError, Outcome, content_missing}
use origofs.ObjectGraph.{Hash}
use origofs.Format.{decode_with, version_of, tagged, header}
use origofs.Chunk.{
  Manifest, encode_chunks, encode_manifest, decode_chunks, total_len, decode_body,
  decode_manifest_v1, decode_manifest,
}
use origofs.Body.Sample.{object_at}
use origofs.Body.Examples.{three_objects, five, manifest_bytes}
use origofs.Gc.{
  Marked, failed, Workspace, done, file_entry, Object, GcStats, purge, hashes_of, working_files,
  suggested, trashed, trash_content_hashes, insert_chunks, manifest_object, mark_manifest,
  mark_each, mark_workspace, mark_workspaces, mark_all, find_object, delete_if_older_than,
  count_deletion, sweep_one, sweep, gc_locked, gc_with_grace,
}
use origofs.Gc.Marks.{Role, a_commit, a_tree, a_manifest, a_leaf, Typed}
use origofs.Gc.Roots.{RootsTyped, Reaches, gc_roots}
use origofs.Gc.Sweep.{IsOld, gc_locked_safe, Free, gc_with_grace_safe}
use origofs.Gc.Clash.{mark_manifest_misses}
use origofs.Gc.Finish.{gc_locked-Ends}

abbrev address : ℕ → Hash
address n = n ∷ replicate 31 0

abbrev load : Hash → Outcome (List ℕ)
load = object_at three_objects

abbrev one_file : Workspace
one_file = record {
  refs = none ∷ [];
  working = file_entry (some (address 2)) done;
  suggestions = [];
  mirror = none;
  retention = some 10;
  trash = record { deleted_at = 5; content_hash = some (address 9) } ∷ [];
}

abbrev object_of : ℕ → ℕ → Object
object_of n age = record { hash = address n; size = 4; age = some age }

abbrev four : List Object
four = object_of 0 500 ∷ object_of 1 500 ∷ object_of 2 500 ∷ object_of 9 500 ∷ []

abbrev listed_ages : List (Hash × Option ℕ)
listed_ages =
    (address 0, some 500)
    ∷ (address 1, some 500)
    ∷ (address 2, some 500)
    ∷ (address 9, some 500)
    ∷ []

abbrev stats : GcStats
stats = record {
  reachable = 3;
  deleted = 1;
  bytes_freed = 4;
  skipped_young = 0;
  skipped_undated = 0;
}

abbrev three : List Object
three = object_of 0 500 ∷ object_of 1 500 ∷ object_of 2 500 ∷ []

collected : gc_locked load 9 100 60 (one_file ∷ []) listed_ages four ≡ ok (stats, three)
unfolding gc_locked mark_all mark_workspaces mark_workspace mark_each mark_manifest manifest_object
    insert_chunks purge hashes_of working_files suggested trashed trash_content_hashes sweep
    sweep_one delete_if_older_than find_object count_deletion decode_manifest decode_with version_of
    tagged decode_manifest_v1 decode_body decode_chunks total_len encode_manifest encode_chunks
    header text_discrete
collected = refl

abbrev roles : Hash → Role
roles h = if text_eq h (address 2) then a_manifest else a_leaf

loaded : manifest_object load (address 2) ≡ ok five
unfolding manifest_object decode_manifest decode_with version_of tagged decode_manifest_v1
    decode_body decode_chunks total_len encode_manifest encode_chunks header text_discrete
loaded = refl

abbrev LeafChunks : Manifest → Type 0
LeafChunks f = All (λ c. roles (c.hash) ≡ a_leaf) f.chunks

of_manifest_lem :
    (h : Hash) (f : Manifest) → roles h ≡ a_manifest → manifest_object load h ≡ ok f → LeafChunks f
unfolding text_discrete
of_manifest_lem h f r e = elim (Bool-cases (text_eq h (address 2))) [
  | inl q ↦
      let z : h ≡ address 2 = (text_eq_iff h (address 2)).0 q in
      let w : manifest_object load (address 2) ≡ ok f =
        subst (λ x. manifest_object load x ≡ ok f) z e in
      let same : five ≡ f = five_lem f w in subst LeafChunks same (refl, (refl, tt))
  | inr q ↦ absurd (ground (arith, q, r))
]
  where
    five_lem : (g : Manifest) → manifest_object load (address 2) ≡ ok g → five ≡ g
    five_lem g w = cc (loaded, w)

roles-Typed : Typed load roles
roles-Typed = record {
  of_commit = λ h c r e. absurd (commits h r);
  of_tree = λ h t r e. absurd (trees h r);
  of_manifest = of_manifest_lem;
}
  where
    commits : (h : Hash) → roles h ≡ a_commit → ⊥
    commits h r = elim (Bool-cases (text_eq h (address 2))) [
      | inl q ↦ ground (arith, q, r)
      | inr q ↦ ground (arith, q, r)
    ]

    trees : (h : Hash) → roles h ≡ a_tree → ⊥
    trees h r = elim (Bool-cases (text_eq h (address 2))) [
      | inl q ↦ ground (arith, q, r)
      | inr q ↦ ground (arith, q, r)
    ]

roots_typed : All (RootsTyped roles) (map (purge 100) (one_file ∷ []))
unfolding purge hashes_of working_files suggested text_discrete
roots_typed = ((tt, (refl, tt), tt, tt), tt)

trash_typed :
    All (λ h. roles h ≡ a_manifest) (trash_content_hashes (map (purge 100) (one_file ∷ [])))
unfolding purge trash_content_hashes trashed
trash_typed = tt

-- The object 9 outlives the collection, or it is not needed: it is not there in `three`.
gc_locked_safe_example :
    In (object_of 9 500) three
    ⊎ ((Reaches load roles (gc_roots 100 (one_file ∷ [])) (address 9) → ⊥)
        × ((secs : ℕ) × In (address 9, some secs) listed_ages × (60 ≤ secs))
        × IsOld 60 (address 9) four)
gc_locked_safe_example =
    gc_locked_safe load roles 9 100 60 (one_file ∷ []) listed_ages four three stats
      (object_of 9 500) roles-Typed roots_typed trash_typed collected (inr (inr (inr (inl refl))))

-- A store that loads the manifest alone.
abbrev load_manifest_only : Hash → Outcome (List ℕ)
load_manifest_only h = if text_eq h (address 2) then ok manifest_bytes else err content_missing

only_stored : (h : Hash) (b : List ℕ) → load_manifest_only h ≡ ok b → In h (address 2 ∷ [])
only_stored h b e = elim (Bool-cases (text_eq h (address 2))) [
  | inl q ↦ inl ((text_eq_iff h (address 2)).0 q)
  | inr q ↦ absurd (ground (arith, q, e))
]

gc_locked-Ends_example :
    ((r : GcStats × List Object) × (gc_locked load_manifest_only 2 100 60
          (one_file ∷ [])
          listed_ages
          four
        ≡ ok r))
    ⊎ ((e : OrigofsError) × (gc_locked load_manifest_only 2 100 60 (one_file ∷ []) listed_ages four
          ≡ err (failed e)))
gc_locked-Ends_example =
    gc_locked-Ends load_manifest_only (address 2 ∷ []) only_stored 2 100 60 (one_file ∷ [])
      listed_ages four (omega arith)

gc_with_grace_safe_example :
    In
      (object_of 9 500)
      (gc_with_grace load 9 100 (codes "gc-1") 60 (one_file ∷ []) listed_ages none four).objects
    ⊎ ((Reaches load roles (gc_roots 100 (one_file ∷ [])) (address 9) → ⊥)
        × ((secs : ℕ) × In (address 9, some secs) listed_ages × (60 ≤ secs))
        × IsOld 60 (address 9) four
        × ((◌≡◌ {A = ℕ} 60 0) ⊎ (60 ≤ 60))
        × Free 100 none)
gc_with_grace_safe_example =
    gc_with_grace_safe load roles 9 100 60 (codes "gc-1") (one_file ∷ []) listed_ages none four
      (object_of 9 500) roles-Typed roots_typed trash_typed (inr (inr (inr (inl refl))))

-- A second file has the bytes of the first one's manifest.
abbrev copy_manifest : Manifest
copy_manifest = record { size = 89; chunks = record { hash = address 2; len = 89 } ∷ [] }

abbrev copy_bytes : List ℕ
copy_bytes = elim (encode_manifest copy_manifest) [ ok bs ↦ bs | _ ↦ [] ]

abbrev load_both : Hash → Outcome (List ℕ)
load_both = object_at (three_objects ++ (copy_bytes ∷ []))

loaded_copy : manifest_object load_both (address 3) ≡ ok copy_manifest
unfolding manifest_object decode_manifest decode_with version_of tagged decode_manifest_v1
    decode_body decode_chunks total_len encode_manifest encode_chunks header text_discrete
loaded_copy = refl

loaded_first : manifest_object load_both (address 2) ≡ ok five
unfolding manifest_object decode_manifest decode_with version_of tagged decode_manifest_v1
    decode_body decode_chunks total_len encode_manifest encode_chunks header text_discrete
loaded_first = refl

apart : (m n : ℕ) → m ≢ n → address m ≢ address n
apart m n h e = h (ap (first_of) e)
  where
    first_of : Hash → ℕ
    first_of [] = 0
    first_of (x ∷ xs) = x

mark_manifest_misses_example :
    (m : Marked) × (mark_each load_both (mark_manifest load_both) (address 3 ∷ address 2 ∷ []) []
      ≡ ok m)
    × (In (address 0) m → ⊥)
mark_manifest_misses_example =
    mark_manifest_misses load_both (address 3) (address 2) 89 copy_manifest five
      (record { hash = address 0; len = 3 }) loaded_copy refl loaded_first (inl refl)
      (apart 3 2 (omega arith)) (apart 0 3 (omega arith)) (apart 0 2 (omega arith))
