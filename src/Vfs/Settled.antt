-- ===== src/Vfs/Settled.antt =====
-- One attempt at changing a file ends as a change, a lost race or an error.
use origofs.Base.{
  ℕ, ◌^◌, ◌<◌, ◌≡◌, ◌≢◌, ◌⊎◌, inl, inr, refl, sym, ap, subst, ◌∙◌, Bool, true, false, List, Option,
  none, some, length, ◌==◌, ok, err, Bool-cases, Option-cases, ==_iff, arith,
}
use origofs.Errors.{OrigofsError, Outcome, too_large, not_found}
use origofs.ObjectGraph.{Hash}
use origofs.Chunk.{Manifest}
use origofs.Body.Reads.{Reads-Extends, Extends, Extends-trans, Holds}
use origofs.Body.Upload.{Stored}
use origofs.Vfs.{
  Inode, World, VfsCalls, same_content, set_inode, set_content_if, base_of, vfs_getattr,
  commit_edit, change_attempt,
}
use origofs.Vfs.Attempts.{
  Edits, Between, same_content-eq, same_content_refl, FileHas, IsSound, Fair, here, stores,
  meanwhile_act, Refused, OverQuota, others_act, Applied, Quiet, Stored-Extends, Stored-unique,
  base_of-Holds, check_quota_for_ino-cases,
}

module _ {S : Type 0} (calls : VfsCalls S) (fair : Fair calls)
    (plan : Manifest → Outcome (Option ℕ)) (edit : S → Manifest → Outcome ((Option Hash × ℕ) × S))
    (f : List ℕ → List ℕ) (edits : Edits calls plan edit f) where
  -- How an attempt ends: it is refused, or it has been applied, or it has lost against a change that
  -- others made, and only their change stands.
  abbrev pub AttemptEnds : ℕ → ℕ → World S → Outcome (Bool × World S) → Type 0
  AttemptEnds left ino w r =
      ((e : OrigofsError) × (r ≡ err e)
        × (((e ≡ not_found) × (w.inodes ino ≡ none)) ⊎ ((e ≡ too_large) × Refused calls w ino f)))
      ⊎ (((t : World S) × (r ≡ ok (true, t)) × IsSound calls t × Applied calls w ino f t)
          ⊎ ((u : World S) × (r ≡ ok (false, calls.others left u))
              × (u.inodes ≡ (calls.meanwhile left w).inodes)
              × Between calls w u
              × IsSound calls (calls.others left u)
              × (Quiet calls ino left → ⊥)))

  set_inode-other :
      (ino j : ℕ) (n : Inode) (w : World S) → j ≢ ino → (set_inode ino n w).inodes j ≡ w.inodes j
  unfolding set_inode
  set_inode-other ino j n w h = elim (Bool-cases (j == ino)) [
    | inl e ↦ absurd (h ((==_iff j ino).0 e))
    | inr e ↦ rw e refl
  ]

  set_inode-same : (ino : ℕ) (n : Inode) (w : World S) → (set_inode ino n w).inodes ino ≡ some n
  unfolding set_inode
  set_inode-same ino n w = let e : (ino == ino) ≡ true = (==_iff ino ino).1 refl in rw e refl

  set_inode-IsSound :
      (ino : ℕ) (n : Inode) (w : World S) (b : List ℕ)
      → IsSound calls w
      → Stored calls.body w.contents n.content b
      → n.size ≡ length b
      → length b < 2 ^ 64
      → IsSound calls (set_inode ino n w)
  unfolding set_inode
  set_inode-IsSound ino n w b h st q small j k e = elim (Bool-cases (j == ino)) [
    | inl x ↦
        let z : n ≡ k = ground (arith, x, e) in
        subst
          (λ (i : Inode).
            (c : List ℕ) × Stored calls.body w.contents i.content c
            × (i.size ≡ length c)
            × (length c < 2 ^ 64))
          z (b, st, q, small)
    | inr x ↦ h j k (ground (arith, x, e))
  ]

  -- The transaction of an attempt that read the content `n` and prepared `a` for the bytes `f b`.
  settle :
      (left ino : ℕ) (w : World S) (n : Inode) (b : List ℕ) (a : Option Hash) (s : S)
      → IsSound calls w
      → w.inodes ino ≡ some n
      → Stored calls.body w.contents n.content b
      → length b < 2 ^ 64
      → Extends calls.body (calls.meanwhile left w).contents s
      → Stored calls.body s a (f b)
      → AttemptEnds left ino w (
          ok (
            set_content_if
              (calls.others left
                (record { contents = s; inodes = (calls.meanwhile left w).inodes }))
              ino
              n.content
              a
              (length (f b))))
  unfolding set_content_if
  settle left ino w n b a s sound at st small ext st' =
      let v : World S = calls.meanwhile left w in
      let soundV = fair.sound_meanwhile left w sound in
      let stV =
        Stored-Extends calls w.contents v.contents n.content b (fair.keeps_meanwhile left w) st in
      let u : World S = record { contents = s; inodes = v.inodes } in
      let now : World S = calls.others left u in
      let soundU : IsSound calls u = λ j k e.
        let (c, sc, z, y) = soundV j k e in
        (c, Stored-Extends calls v.contents s k.content c ext sc, z, y) in
      let soundNow = fair.sound left u soundU in
      let path : Between calls w u = stores s (meanwhile_act left here) ext in
      elim (Option-cases (now.inodes ino)) [
        | inl e ↦ inr (
            inr (
              u,
              rw (e, set_content_if) refl,
              refl,
              path,
              soundNow,
              λ quiet. absurd (lost ((quiet u).0 ∙ (quiet w).1 ∙ at) e),
            ))
        | inr (n₀, e) ↦ elim (Bool-cases (same_content n₀.content n.content)) [
          | inr x ↦ inr (
              inr (
                u,
                rw (e, set_content_if) (rw x refl),
                refl,
                path,
                soundNow,
                λ quiet. changed n₀ n (sym e ∙ (quiet u).0 ∙ (quiet w).1 ∙ at) x,
              ))
          | inl x ↦
              let same = same_content-eq n₀.content n.content x in
              let keep = fair.keeps left u in
              let old : Stored calls.body now.contents n₀.content b =
                subst (λ z. Stored calls.body now.contents z b) (sym same)
                  (Stored-Extends calls v.contents now.contents n.content b
                    (Extends-trans calls.body v.contents s now.contents ext keep) stV) in
              let (b₀, so, q, _) = soundNow ino n₀ e in
              let eb = Stored-unique calls now.contents n₀.content b₀ b so old in
              let new = Stored-Extends calls s now.contents a (f b) keep st' in
              let fit = edits.fits_still b small in
              let n' : Inode = record { content = a; size = length (f b) } in
              inr (
                inl (
                  set_inode ino n' now,
                  rw (e, set_content_if) (rw x refl),
                  set_inode-IsSound ino n' now (f b) soundNow new refl fit,
                  (
                    now,
                    b,
                    others_act left path,
                    (n₀, e, old, q ∙ ap length eb, small),
                    (n', set_inode-same ino n' now, kept n' now (f b) new, refl, fit),
                    λ j. set_inode-other ino j n' now,
                  ),
                ))
        ]
      ]
    where
      lost : {o : Option Inode} → o ≡ some n → o ≡ none → ⊥
      lost h k = cc

      changed : (x y : Inode) → some x ≡ some y → same_content x.content y.content ≡ false → ⊥
      changed x y h k =
          let e : x ≡ y = cc in
          let z : same_content y.content y.content ≡ false =
            subst (λ (v : Inode). same_content v.content y.content ≡ false) e k in
          ground (arith, z, same_content_refl y.content)

      kept :
          (k : Inode) (v : World S) (c : List ℕ)
          → Stored calls.body v.contents k.content c
          → Stored calls.body (set_inode ino k v).contents k.content c
      kept k v c h = unfold set_inode in h

  commit_edit-Ends :
      (left ino : ℕ) (w : World S) (n : Inode) (m : Manifest) (b : List ℕ) (size : ℕ)
      → IsSound calls w
      → w.inodes ino ≡ some n
      → Stored calls.body w.contents n.content b
      → n.size ≡ length b
      → base_of calls w.contents n.content ≡ ok m
      → Holds calls.body w.contents m b
      → plan m ≡ ok (some size)
      → AttemptEnds left ino w (commit_edit calls edit left w ino n m size)
  unfolding commit_edit
  commit_edit-Ends left ino w n m b size sound at st same g₀ (r, q, small) p =
      let v : World S = calls.meanwhile left w in
      let had : FileHas calls w ino b = (n, at, st, same, small) in
      let r' =
        Reads-Extends calls.body w.contents v.contents m.chunks b (fair.keeps_meanwhile left w) r in
      elim (check_quota_for_ino-cases calls v ino size) [
        | inr (e, over) ↦
            let k = edits.asks m b size q p in
            let over' = subst (OverQuota calls v ino) k over in
            inl (
              too_large,
              rw e refl,
              inr (refl, (w, b, here, had, inl (v, meanwhile_act left here, over'))),
            )
        | inl e ↦ elim (edits.saves v.contents m b size (r', q, small) p) [
          | inl (g, many) ↦
              inl (
                too_large,
                rw e (rw g refl),
                inr (refl, (w, b, here, had, inr (n, m, at, g₀, many))),
              )
          | inr (a, s, g, st', ext) ↦
              rw e (rw g (settle left ino w n b a s sound at st small ext st'))
        ]
      ]

  pub change_attempt-Ends :
      (left ino : ℕ) (w : World S)
      → IsSound calls w
      → AttemptEnds left ino w (change_attempt calls plan edit left w ino)
  unfolding change_attempt vfs_getattr
  change_attempt-Ends left ino w sound = elim (Option-cases (w.inodes ino)) [
    | inl e ↦ inl (not_found, rw e refl, inl (refl, e))
    | inr (n, e) ↦
        let (b, st, q, small) = sound ino n e in
        let (m, g, h) = base_of-Holds calls w.contents n.content b st small in
        elim (edits.planned m) [
          | inl z ↦
              let same = edits.nothing m b (h.1) z in
              inr (
                inl (
                  w,
                  rw e (rw g (rw z refl)),
                  sound,
                  (
                    w,
                    b,
                    here,
                    (n, e, st, q, small),
                    subst (FileHas calls w ino) (sym same) (n, e, st, q, small),
                    λ j k. refl,
                  ),
                ))
          | inr (size, z) ↦
              let same : change_attempt calls plan edit left w ino
                  ≡ commit_edit calls edit left w ino n m size =
                rw e (rw g (rw z refl)) in
              subst (AttemptEnds left ino w) (sym same)
                (commit_edit-Ends left ino w n m b size sound e st q g h z)
        ]
  ]
