-- ===== src/Vfs/Attempts.antt =====
-- What a change of a file comes to while others change the same table.
use origofs.Base.{
  ℕ, ◌+◌, ◌*◌, ◌/◌, ◌≤◌, false, arith, ◌-◌, ◌^◌, ◌<◌, ◌≡◌, ◌≢◌, ◌⊎◌, inl, inr, refl, sym, ap, subst,
  ◌∙◌, true, List, Option, none, some, text_eq_iff, length, ok, err, Bool-cases, Option-cases,
  >>=-eq-ok,
}
use origofs.Errors.{Outcome, too_large}
use origofs.ObjectGraph.{Hash}
use origofs.Chunk.{Manifest}
use origofs.Body.{min_chunk, load_manifest}
use origofs.Body.Reads.{Extends, Reads, Reads-Extends, Reads-unique, Holds}
use origofs.Body.Upload.{Stored, Saves}
use origofs.Vfs.{
  Inode, World, VfsCalls, Quota, Usage, is_unlimited, within_limit, check_quota, check_quota_delta,
  same_content, old_size, base_of, check_quota_for_ino, no_manifest,
}

pub same_content-eq : (a b : Option Hash) → same_content a b ≡ true → a ≡ b
unfolding same_content
same_content-eq none none h = refl
same_content-eq none (some b) h = cc
same_content-eq (some a) none h = cc
same_content-eq (some a) (some b) h = ap some ((text_eq_iff a b).0 h)

pub same_content_refl : (a : Option Hash) → same_content a a ≡ true
unfolding same_content
same_content_refl none = refl
same_content_refl (some a) = (text_eq_iff a a).1 refl

-- What a file of this size takes besides what its row has now.
abbrev pub added : Option Inode → ℕ → ℕ
added none size = size
added (some n) size = size - n.size

abbrev pub added_inodes : Option Inode → ℕ
added_inodes none = 1
added_inodes (some n) = 0

-- Some limit is there, and less than what is used and added.
abbrev pub Exceeds : Option ℕ → ℕ → ℕ → Type 0
Exceeds o used add = (limit : ℕ) × (o ≡ some limit) × (limit < used + add)

within_limit-Exceeds :
    (o : Option ℕ) (used add : ℕ) → within_limit o used add ≡ false → Exceeds o used add
unfolding within_limit
within_limit-Exceeds none used add h = cc
within_limit-Exceeds (some limit) used add h = (limit, refl, ground (arith, h))

check_quota-cases :
    (q : Quota) (used : Usage) (a b : ℕ)
    → (check_quota q used a b ≡ ok tt)
      ⊎ ((check_quota q used a b ≡ err too_large)
          × (Exceeds q.bytes used.bytes a ⊎ Exceeds q.inodes used.inodes b))
unfolding check_quota
check_quota-cases q used a b = elim (Bool-cases (is_unlimited q)) [
  | inl e ↦ inl (rw e refl)
  | inr e ↦ elim (Bool-cases (within_limit q.bytes used.bytes a)) [
    | inr f ↦ inr (rw e (rw f refl), inl (within_limit-Exceeds q.bytes used.bytes a f))
    | inl f ↦ elim (Bool-cases (within_limit q.inodes used.inodes b)) [
      | inl g ↦ inl (rw e (rw f (rw g refl)))
      | inr g ↦ inr (rw e (rw f (rw g refl)), inr (within_limit-Exceeds q.inodes used.inodes b g))
    ]
  ]
]

module _ {S : Type 0} (calls : VfsCalls S) where
  -- The file `ino` is there, and these are its bytes.
  abbrev pub FileHas : World S → ℕ → List ℕ → Type 0
  FileHas w ino b =
      (n : Inode) × (w.inodes ino ≡ some n)
      × Stored calls.body w.contents n.content b
      × (n.size ≡ length b)
      × (length b < 2 ^ 64)

  abbrev pub IsSound : World S → Type 0
  IsSound w =
      (ino : ℕ) (n : Inode)
      → w.inodes ino ≡ some n
      → (b : List ℕ) × Stored calls.body w.contents n.content b
        × (n.size ≡ length b)
        × (length b < 2 ^ 64)

  -- At either point of an attempt, others delete nothing that the content store holds, and leave files
  -- that can be loaded where they were so.
  pub record Fair : Type 0 where
    pub keeps : (k : ℕ) (w : World S) → Extends calls.body w.contents (calls.others k w).contents
    pub sound : (k : ℕ) (w : World S) → IsSound w → IsSound (calls.others k w)
    pub keeps_meanwhile :
        (k : ℕ) (w : World S) → Extends calls.body w.contents (calls.meanwhile k w).contents
    pub sound_meanwhile : (k : ℕ) (w : World S) → IsSound w → IsSound (calls.meanwhile k w)

  -- What may lie between two worlds where this operation has changed no inode: objects that it put
  -- into the content store, and what others did.
  pub data Between (w : World S) : World S → Type 0 where
    here : Between w w
    stores :
        {u : World S} (s : S)
        → Between w u
        → Extends calls.body u.contents s
        → Between w (record { contents = s; inodes = u.inodes })
    others_act : {u : World S} (k : ℕ) → Between w u → Between w (calls.others k u)
    meanwhile_act : {u : World S} (k : ℕ) → Between w u → Between w (calls.meanwhile k u)

  pub Between-trans : {w u v : World S} → Between w u → Between u v → Between w v
  Between-trans p here = p
  Between-trans p (stores s q e) = stores s (Between-trans p q) e
  Between-trans p (others_act k q) = others_act k (Between-trans p q)
  Between-trans p (meanwhile_act k q) = meanwhile_act k (Between-trans p q)

  -- The change is applied at once to the bytes that the file has in some world before it, whatever
  -- others did until then, and to no other file.
  abbrev pub Applied : World S → ℕ → (List ℕ → List ℕ) → World S → Type 0
  Applied w ino f t =
      (u : World S) × (b : List ℕ) × Between w u
      × FileHas u ino b
      × FileHas t ino (f b)
      × ((j : ℕ) → j ≢ ino → t.inodes j ≡ u.inodes j)

  pub Applied-after :
      (w u t : World S) (ino : ℕ) (f : List ℕ → List ℕ)
      → Between w u
      → Applied u ino f t
      → Applied w ino f t
  Applied-after w u t ino f p (v, b, q, had, has, rest) = (v, b, Between-trans p q, had, has, rest)

  -- Others leave the inode alone in the attempt with this number.
  abbrev pub Quiet : ℕ → ℕ → Type 0
  Quiet ino k =
      (u : World S)
      → ((calls.others k u).inodes ino ≡ u.inodes ino)
        × ((calls.meanwhile k u).inodes ino ≡ u.inodes ino)

  -- A file of this size would be over a limit of the workspace.
  abbrev pub OverQuota : World S → ℕ → ℕ → Type 0
  OverQuota v ino size =
      Exceeds calls.quota.bytes (calls.usage v).bytes (added (v.inodes ino) size)
      ⊎ Exceeds calls.quota.inodes (calls.usage v).inodes (added_inodes (v.inodes ino))

  -- A bound on the number of chunks that a change of the body `m` to the bytes `b` makes.
  abbrev pub chunk_limit : Manifest → List ℕ → ℕ
  chunk_limit m b = 2 * length m.chunks + (length b / min_chunk + 2)

  -- The file's chunks and those of the bytes `b` may be too many for a manifest.
  abbrev pub IsCrowded : World S → ℕ → List ℕ → Type 0
  IsCrowded u ino b =
      (n : Inode) × (m : Manifest) × (u.inodes ino ≡ some n)
      × (base_of calls u.contents n.content ≡ ok m)
      × (2 ^ 32 ≤ chunk_limit m b)

  -- Why a change is refused as too large: made to the bytes that the file has in some world after
  -- `w`, it is over the quota in a world after that, or it may have too many chunks.
  abbrev pub Refused : World S → ℕ → (List ℕ → List ℕ) → Type 0
  Refused w ino f =
      (u : World S) × (b : List ℕ) × Between w u
      × FileHas u ino b
      × (((v : World S) × Between u v × OverQuota v ino (length (f b))) ⊎ IsCrowded u ino (f b))

  pub Refused-after :
      (w u : World S) (ino : ℕ) (f : List ℕ → List ℕ)
      → Between w u
      → Refused u ino f
      → Refused w ino f
  Refused-after w u ino f p (v, b, q, had, why) = (v, b, Between-trans p q, had, why)

  -- What an edit does to the bytes of a file, and when there is nothing to do.
  pub record Edits (plan : Manifest → Outcome (Option ℕ))
      (edit : S → Manifest → Outcome ((Option Hash × ℕ) × S)) (f : List ℕ → List ℕ) : Type 0 where
    pub saves :
        (s : S) (m : Manifest) (b : List ℕ) (n : ℕ)
        → Holds calls.body s m b
        → plan m ≡ ok (some n)
        → Saves calls.body s (edit s m) (f b) (chunk_limit m (f b))
    pub asks :
        (m : Manifest) (b : List ℕ) (n : ℕ)
        → m.size ≡ length b
        → plan m ≡ ok (some n)
        → n ≡ length (f b)
    pub fits_still : (b : List ℕ) → length b < 2 ^ 64 → length (f b) < 2 ^ 64
    pub nothing : (m : Manifest) (b : List ℕ) → m.size ≡ length b → plan m ≡ ok none → f b ≡ b
    pub planned : (m : Manifest) → (plan m ≡ ok none) ⊎ ((n : ℕ) × (plan m ≡ ok (some n)))

  pub Stored-Extends :
      (s t : S) (a : Option Hash) (b : List ℕ)
      → Extends calls.body s t
      → Stored calls.body s a b
      → Stored calls.body t a b
  unfolding load_manifest
  Stored-Extends s t none b e h = h
  Stored-Extends s t (some a) b e (m, l, (r, q, n)) =
      let (bytes, g, d) = >>=-eq-ok (calls.body.get s a) _ l in
      (m, rw (e a bytes g) d, (Reads-Extends calls.body s t m.chunks b e r, q, n))

  pub Stored-unique :
      (s : S) (a : Option Hash) (b c : List ℕ)
      → Stored calls.body s a b
      → Stored calls.body s a c
      → b ≡ c
  Stored-unique s none b c h k = h ∙ sym k
  Stored-unique s (some a) b c (m, l, (r, q, n)) (m', l', (r', q', n')) =
      let e : m ≡ m' = cc in
      Reads-unique calls.body s m.chunks b c r
        (subst (λ (x : Manifest). Reads calls.body s x.chunks c) (sym e) r')

  pub base_of-Holds :
      (s : S) (a : Option Hash) (b : List ℕ)
      → Stored calls.body s a b
      → length b < 2 ^ 64
      → (m : Manifest) × (base_of calls s a ≡ ok m) × Holds calls.body s m b
  unfolding base_of
  base_of-Holds s none b h n = (no_manifest, refl, (h, rw h refl, n))
  base_of-Holds s (some a) b (m, l, h) n = (m, l, h)

  pub check_quota_for_ino-cases :
      (w : World S) (ino n : ℕ)
      → (check_quota_for_ino calls w ino n ≡ ok tt)
        ⊎ ((check_quota_for_ino calls w ino n ≡ err too_large) × OverQuota w ino n)
  unfolding check_quota_for_ino check_quota_delta old_size
  check_quota_for_ino-cases w ino n = elim (Bool-cases (is_unlimited calls.quota)) [
    | inl e ↦ inl (rw e refl)
    | inr e ↦ elim (Option-cases (w.inodes ino)) [
      | inl f ↦ rw e (rw (f, check_quota_delta) (check_quota-cases calls.quota (calls.usage w) n 1))
      | inr (old, f) ↦ rw e (
          rw (f, check_quota_delta)
            (check_quota-cases calls.quota (calls.usage w) (n - old.size) 0))
    ]
  ]
