-- ===== src/Vfs/Bytes.antt =====
-- What the operations make of the bytes of a file, while others change the same table.
use origofs.Base.{
  ℕ, zero, suc, ◌<◌, ◌≡◌, ◌⊎◌, inl, inr, refl, ap, subst, ◌∙◌, List, Option, none, some, ltb, ok,
  err, Bool-cases, arith,
}
use origofs.Errors.{OrigofsError, Outcome, too_large, not_found, conflict}
use origofs.ObjectGraph.{Hash}
use origofs.Chunk.{Manifest}
use origofs.Vfs.{Inode, World, VfsCalls, change_loop}
use origofs.Vfs.Attempts.{
  IsSound, Fair, here, Between, Between-trans, Refused, Refused-after, others_act, Applied,
  Applied-after, Quiet, Edits,
}
use origofs.Vfs.Settled.{change_attempt-Ends}

module _ {S : Type 0} (calls : VfsCalls S) where
  abbrev pub Gone : World S → ℕ → Type 0
  Gone w ino = (u : World S) × Between calls w u × (u.inodes ino ≡ none)

  -- How an operation ends: it is refused because the file is not there in some world after `w`, the
  -- change is over the quota or may have too many chunks, or every attempt has lost; or it has been
  -- applied.
  abbrev pub Ends :
      {A : Type 0} → (World S → A) → World S → ℕ → (List ℕ → List ℕ) → Outcome A → Type 0
  Ends answer w ino f r =
      ((e : OrigofsError) × (r ≡ err e)
        × (((e ≡ not_found) × Gone w ino)
            ⊎ (((e ≡ too_large) × Refused calls w ino f) ⊎ (e ≡ conflict))))
      ⊎ ((t : World S) × (r ≡ ok (answer t)) × IsSound calls t × Applied calls w ino f t)

  -- The file stays in the table, whatever others do.
  abbrev pub Stays : ℕ → Type 0
  Stays ino =
      (k : ℕ) (u : World S) (n : Inode)
      → u.inodes ino ≡ some n
      → ((n' : Inode) × ((calls.others k u).inodes ino ≡ some n'))
        × ((n' : Inode) × ((calls.meanwhile k u).inodes ino ≡ some n'))

module _ {S : Type 0} (calls : VfsCalls S) (fair : Fair calls)
    (plan : Manifest → Outcome (Option ℕ)) (edit : S → Manifest → Outcome ((Option Hash × ℕ) × S))
    (f : List ℕ → List ℕ) (edits : Edits calls plan edit f) where
  pub change_loop-Ends :
      (n ino : ℕ) (w : World S)
      → IsSound calls w
      → Ends calls (λ t. t) w ino f (change_loop calls plan edit n w ino)
  unfolding change_loop
  change_loop-Ends zero ino w sound = inl (conflict, refl, inr (inr refl))
  change_loop-Ends (suc left) ino w sound =
      let ih = change_loop-Ends left ino in
      elim (change_attempt-Ends calls fair plan edit f edits left ino w sound) [
        | inl (e, g, inl (h, z)) ↦ inl (e, rw g refl, inl (h, (w, here, z)))
        | inl (e, g, inr h) ↦ inl (e, rw g refl, inr (inl h))
        | inr (inl (t, g, st, a)) ↦ inr (t, rw g refl, st, a)
        | inr (inr (u, g, _, p, st, _)) ↦
            let now = calls.others left u in
            elim (ih now st) [
              | inl (e, x, inl (h, (v, q, z))) ↦
                  inl (e, rw g x, inl (h, (v, Between-trans calls (others_act left p) q, z)))
              | inl (e, x, inr (inl (h, why))) ↦ inl (
                e,
                rw g x,
                inr (inl (h, Refused-after calls w now ino f (others_act left p) why)),
              )
              | inl (e, x, inr (inr h)) ↦ inl (e, rw g x, inr (inr h))
              | inr (t, x, st', a) ↦
                  inr (t, rw g x, st', Applied-after calls w now t ino f (others_act left p) a)
            ]
      ]

  pub change_loop_wins :
      (n k ino : ℕ) (w : World S) (i : Inode)
      → IsSound calls w
      → w.inodes ino ≡ some i
      → Stays calls ino
      → k < n
      → Quiet calls ino k
      → ((change_loop calls plan edit n w ino ≡ err too_large) × Refused calls w ino f)
        ⊎ ((t : World S) × (change_loop calls plan edit n w ino ≡ ok t) × Applied calls w ino f t)
  unfolding change_loop
  change_loop_wins zero k ino w i sound at stays h quiet = absurd (omega (arith, h))
  change_loop_wins (suc left) k ino w i sound at stays h quiet =
      let ih = change_loop_wins left k ino in
      elim (change_attempt-Ends calls fair plan edit f edits left ino w sound) [
        | inl (e, g, inl (_, z)) ↦ absurd (there z)
        | inl (e, g, inr (z, why)) ↦ inl (rw g (ap err z), why)
        | inr (inl (t, g, st, a)) ↦ inr (t, rw g refl, a)
        | inr (inr (u, g, same, p, st, loud)) ↦
            let now = calls.others left u in
            let (i₁, e₁) = (stays left w i at).1 in
            let at' : u.inodes ino ≡ some i₁ = ap (λ z. z ino) same ∙ e₁ in
            let (i', e) = (stays left u i₁ at').0 in
            let less : k < left = elim (Bool-cases (ltb k left)) [
              | inl x ↦ ground (arith, x)
              | inr x ↦
                  let q : k ≡ left = ground (arith, x, h) in
                  absurd (loud (subst (Quiet calls ino) q quiet))
            ] in
            elim (ih now i' st e stays less quiet) [
              | inl (x, why) ↦ inl (rw g x, Refused-after calls w now ino f (others_act left p) why)
              | inr (t, x, a) ↦
                  inr (t, rw g x, Applied-after calls w now t ino f (others_act left p) a)
            ]
      ]
    where
      there : w.inodes ino ≡ none → ⊥
      there z = cc
