-- ===== src/Merge/Examples.antt =====
-- The merge at concrete entries.
use origofs.Base.{ℕ, ◌≡◌, refl, true, false, none, some, [], ◌∷◌, codes, ok, text_discrete}
use origofs.Paths.{strip_prefix}
use origofs.ObjectGraph.{file, kind_code, TreeEntry}
use origofs.Merge.{MergeCalls, is_internal_path, entry_eq, merge_one, merge_name, modify_delete}
use origofs.Merge.Clean.{kept, merge_name-one_sided}

-- Bodies are their own hashes, and every text merge has conflict markers.
abbrev calls : MergeCalls
calls = record {
  read_body = λ h. ok h;
  write_body = λ b. ok b;
  diff3 = λ b o t. (o, true);
  merge_sub = λ b o t path. ok (o, []);
}

abbrev entry : ℕ → TreeEntry
entry h = record { name = codes "a"; mode = 420; kind = file; hash = h ∷ [] }

inside : is_internal_path (codes "/.origofs/x") ≡ true
unfolding is_internal_path strip_prefix
inside = refl

beside : is_internal_path (codes "/.origofs-bench") ≡ false
unfolding is_internal_path strip_prefix
beside = refl

deleted_change :
    merge_name calls (codes "/a") (codes "a") (some (entry 1)) (some (entry 2)) none
    ≡ ok (entry 2 ∷ [], record { path = codes "/a"; kind = modify_delete } ∷ [])
unfolding merge_name merge_one entry_eq is_internal_path strip_prefix kind_code text_discrete
deleted_change = refl

merge_name-one_sided_example :
    (merge_name calls (codes "/a") (codes "a") (some (entry 1)) (some (entry 2)) (some (entry 1))
      ≡ ok (kept (some (entry 2))))
    × (merge_name calls (codes "/a") (codes "a") (some (entry 1)) (some (entry 1)) (some (entry 2))
        ≡ ok (kept (some (entry 2))))
merge_name-one_sided_example =
    merge_name-one_sided calls (codes "/a") (codes "a") (some (entry 1)) (some (entry 2))
