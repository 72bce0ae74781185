-- ===== src/ObjectGraph/Examples.antt =====
-- The round trips of the object graph at concrete objects.
use origofs.Base.{
  ℕ, zero, suc, ◌≡◌, ◌≢◌, ◌≤◌, ◌^◌, refl, List, [], ◌∷◌, ◌++◌, codes, length, length-append, ok,
  is_utf8, All, arith,
}
use origofs.Format.{header}
use origofs.ObjectGraph.{
  Tree, Commit, RefSnapshot, file, dir, kind_code, encode_entry, encode_entries, encode_tree,
  decode_tree, concat_hashes, encode_commit, decode_commit, encode_refs, decode_refs,
}
use origofs.ObjectGraph.TreeTrip.{IsEntry, decode_tree-encode_tree}
use origofs.ObjectGraph.CommitTrip.{IsCommit, decode_commit-encode_commit}
use origofs.ObjectGraph.RefsTrip.{IsSnapshot, decode_refs-encode_refs}
use origofs.ObjectGraph.RefsWrap.{encode_refs-wraps}

abbrev a_hash : List ℕ
a_hash =
    1 ∷ 2 ∷ 3 ∷ 4 ∷ 5 ∷ 6 ∷ 7 ∷ 8 ∷ 9 ∷ 10 ∷ 11 ∷ 12 ∷ 13 ∷ 14 ∷ 15 ∷ 16 ∷ 17 ∷ 18 ∷ 19 ∷ 20 ∷ 21
    ∷ 22 ∷ 23 ∷ 24 ∷ 25 ∷ 26 ∷ 27 ∷ 28 ∷ 29 ∷ 30 ∷ 31 ∷ 32 ∷ []

abbrev small_tree : Tree
small_tree = record {
  entries =
      record { name = codes "src"; mode = 0o40755; kind = dir; hash = a_hash }
      ∷ record { name = 0xc3 ∷ 0xa9 ∷ []; mode = 0o100644; kind = file; hash = a_hash }
      ∷ [];
}

abbrev tree_object : List ℕ
tree_object = elim (encode_tree small_tree) [ ok bs ↦ bs | _ ↦ [] ]

tree_encoded : encode_tree small_tree ≡ ok tree_object
unfolding encode_tree encode_entries encode_entry header kind_code
tree_encoded = refl

small_tree-IsEntry : All IsEntry small_tree.entries
unfolding is_utf8
small_tree-IsEntry = (
  record { utf8 = refl; mode_fits = omega arith; hash_len = refl },
  (record { utf8 = refl; mode_fits = omega arith; hash_len = refl }, tt),
)

decode_tree-encode_tree_example : decode_tree tree_object ≡ ok small_tree
decode_tree-encode_tree_example =
    decode_tree-encode_tree small_tree tree_object small_tree-IsEntry tree_encoded

abbrev merge_commit : Commit
merge_commit = record {
  tree = a_hash;
  parents = a_hash ∷ a_hash ∷ [];
  author = codes "alice";
  message = codes "Merge branch x";
  timestamp = 1700000000;
}

abbrev commit_object : List ℕ
commit_object = elim (encode_commit merge_commit) [ ok bs ↦ bs | _ ↦ [] ]

commit_encoded : encode_commit merge_commit ≡ ok commit_object
unfolding encode_commit concat_hashes header
commit_encoded = refl

merge_commit-IsCommit : IsCommit merge_commit
unfolding is_utf8
merge_commit-IsCommit = record {
  tree_len = refl;
  parent_lens = (refl, (refl, tt));
  author_utf8 = refl;
  message_utf8 = refl;
  timestamp_fits = omega arith;
}

decode_commit-encode_commit_example : decode_commit commit_object ≡ ok merge_commit
decode_commit-encode_commit_example =
    decode_commit-encode_commit merge_commit commit_object merge_commit-IsCommit commit_encoded

abbrev two_refs : RefSnapshot
two_refs = record {
  generation = 7;
  refs = (codes "HEAD", codes "ref:main") ∷ (codes "main", codes "0a") ∷ [];
}

two_refs-IsSnapshot : IsSnapshot two_refs
unfolding is_utf8
two_refs-IsSnapshot = record {
  generation_fits = omega arith;
  count_fits = omega arith;
  each = (
    record {
      name_utf8 = refl;
      value_utf8 = refl;
      name_fits = omega arith;
      value_fits = omega arith;
    },
    (
      record {
        name_utf8 = refl;
        value_utf8 = refl;
        name_fits = omega arith;
        value_fits = omega arith;
      },
      tt,
    ),
  );
}

decode_refs-encode_refs_example : decode_refs (encode_refs two_refs) ≡ ok two_refs
decode_refs-encode_refs_example = decode_refs-encode_refs two_refs two_refs-IsSnapshot

-- The name `aa…a` of 2^n letters.
doubled : ℕ → List ℕ
doubled zero = b'a' ∷ []
doubled (suc n) = let half = doubled n in half ++ half

length-doubled : (n : ℕ) → length (doubled n) ≡ 2 ^ n
unfolding doubled
length-doubled zero = refl
length-doubled (suc n) = omega (arith, length-append (doubled n) (doubled n), length-doubled n)

long_name-long : 2 ^ 16 ≤ length (doubled 16)
long_name-long = omega (arith, length-doubled 16)

encode_refs-wraps_example :
    decode_refs (encode_refs (record { generation = 7; refs = (doubled 16, codes "0a") ∷ [] }))
    ≢ ok (record { generation = 7; refs = (doubled 16, codes "0a") ∷ [] })
encode_refs-wraps_example = encode_refs-wraps 7 (doubled 16) (codes "0a") [] long_name-long
