-- ===== src/Merge/Clean.antt =====
-- One-sided changes merge cleanly, and no side of a binary conflict is lost.
use origofs.Base.{
  ◌⊎◌, ◌≡◌, ◌≢◌, inl, inr, refl, ap, Bool, true, false, Option, none, some, [], ◌∷◌, Text,
  text_eq_iff, ◌==◌, ok, Bool-cases, arith,
}
use origofs.ObjectGraph.{Hash, TreeKind, file, dir, symlink, kind_code, TreeEntry}
use origofs.Merge.{MergeCalls, FileMerge, Merged, entry_eq, merge_one, merge_name, ConflictKind}

kind_of_code : (k l : TreeKind) → (kind_code k == kind_code l) ≡ true → k ≡ l
unfolding kind_code
kind_of_code file file h = refl
kind_of_code file dir h = cc
kind_of_code file symlink h = cc
kind_of_code dir file h = cc
kind_of_code dir dir h = refl
kind_of_code dir symlink h = cc
kind_of_code symlink file h = cc
kind_of_code symlink dir h = cc
kind_of_code symlink symlink h = refl

entry_eq_refl : (e : TreeEntry) → entry_eq e e ≡ true
unfolding entry_eq
entry_eq_refl e = ground (arith, text_eq_iff e.name e.name, text_eq_iff e.hash e.hash)

entry_eq_sound : (a b : TreeEntry) → entry_eq a b ≡ true → a ≡ b
unfolding entry_eq
entry_eq_sound a b h =
    let n : a.name ≡ b.name = ground (arith, h, text_eq_iff a.name b.name) in
    let m : a.mode ≡ b.mode = ground (arith, h) in
    let q : (kind_code a.kind == kind_code b.kind) ≡ true = ground (arith, h) in
    let k = kind_of_code a.kind b.kind q in
    let x : a.hash ≡ b.hash = ground (arith, h, text_eq_iff a.hash b.hash) in
    λ i. record { name = n i; mode = m i; kind = k i; hash = x i }

-- A side's entry, kept as it is.
abbrev pub kept : Option TreeEntry → Merged
kept none = ([], [])
kept (some e) = (e ∷ [], [])

merge_one-same :
    (internal : Bool) (path : Text) (kind : ConflictKind) (e : TreeEntry)
    → merge_one internal path kind (some e) e ≡ ([], [])
unfolding merge_one
merge_one-same internal path kind e = rw (entry_eq_refl e) refl

entry_eq_flip : (a b : TreeEntry) → entry_eq a b ≡ false → entry_eq b a ≡ false
entry_eq_flip a b h = elim (Bool-cases (entry_eq b a)) [
  | inr e ↦ e
  | inl e ↦
      let q = entry_eq_sound b a e in
      let r : entry_eq a b ≡ true = rw (← q) (entry_eq_refl b) in absurd (ground (arith, h, r))
]

module _ (calls : MergeCalls) (path name : Text) where
  keep_ours : (b o : Option TreeEntry) → merge_name calls path name b o b ≡ ok (kept o)
  unfolding merge_name merge_one
  keep_ours none none = refl
  keep_ours none (some oe) = refl
  keep_ours (some te) none = ap ok (merge_one-same _ path _ te)
  keep_ours (some te) (some oe) = elim (Bool-cases (entry_eq oe te)) [
    | inl e ↦ rw e refl
    | inr e ↦ rw e (rw (entry_eq_flip oe te e) (rw (entry_eq_refl te) refl))
  ]

  take_theirs : (b t : Option TreeEntry) → merge_name calls path name b b t ≡ ok (kept t)
  unfolding merge_name merge_one
  take_theirs none none = refl
  take_theirs none (some te) = refl
  take_theirs (some oe) none = ap ok (merge_one-same _ path _ oe)
  take_theirs (some oe) (some te) = elim (Bool-cases (entry_eq oe te)) [
    | inl e ↦ rw e (ap (λ z. ok (z ∷ [], [])) (entry_eq_sound oe te e))
    | inr e ↦ rw e (rw (entry_eq_refl oe) refl)
  ]

-- What one side alone did to a name, a deletion included, is what the merge does, without a conflict
-- and without reading a body: where theirs is the base, ours is kept, and where ours is the base,
-- theirs is taken.
pub merge_name-one_sided :
    (calls : MergeCalls) (path name : Text) (b x : Option TreeEntry)
    → (merge_name calls path name b x b ≡ ok (kept x))
      × (merge_name calls path name b b x ≡ ok (kept x))
merge_name-one_sided calls path name b x =
    (keep_ours calls path name b x, take_theirs calls path name b x)

-- Where the two sides agree on an entry, the merge keeps it, whatever the base is.
pub merge_name-agreed :
    (calls : MergeCalls) (path name : Text) (b : Option TreeEntry) (e : TreeEntry)
    → merge_name calls path name b (some e) (some e) ≡ ok (e ∷ [], [])
unfolding merge_name
merge_name-agreed calls path name b e = rw (entry_eq_refl e) refl

-- How the merge of two versions ends without looking into them: as a conflict where both differ from
-- each other and from the base, with ours kept and theirs beside it; or else with the one version
-- that both have, or the one that is not the base.
abbrev pub ByHash : Hash → Hash → Option Hash → FileMerge → Type 0
ByHash ours theirs base r =
    ((r.conflict ≡ true)
      × (ours ≢ theirs)
      × (base ≢ some ours)
      × (base ≢ some theirs)
      × (r.hash ≡ ours)
      × (r.theirs_sibling ≡ some theirs))
    ⊎ ((r.conflict ≡ false)
        × (r.theirs_sibling ≡ none)
        × (((ours ≡ theirs) × (r.hash ≡ ours))
            ⊎ (((base ≡ some ours) × (r.hash ≡ theirs))
                ⊎ ((base ≡ some theirs) × (r.hash ≡ ours)))))
