-- ===== src/Vfs/Changes.antt =====
-- Reading, writing, resizing and allocating, as changes of the bytes of one file.
use origofs.Base.{
  ℕ, ◌^◌, ◌<◌, ◌≡◌, inl, inr, refl, subst, List, [], some, take, drop, drop-nil, take-nil, ok,
  Option-cases,
}
use origofs.Chunk.{Manifest}
use origofs.Body.{resized}
use origofs.Body.Edits.{resize_body}
use origofs.Body.Reads.{Works}
use origofs.Body.Upload.{Stored}
use origofs.Body.Window.{read_range-window}
use origofs.Vfs.{World, VfsCalls, vfs_getattr, vfs_read, vfs_cas_attempts, vfs_truncate}
use origofs.Vfs.Attempts.{FileHas, IsSound, Fair}
use origofs.Vfs.Bytes.{Ends, change_loop-Ends}
use origofs.Vfs.Plans.{truncate-Edits}

module _ {S : Type 0} (calls : VfsCalls S) (works : Works calls.body) where
  -- A read gives the bytes of the file from `off` on, as many of them as there are up to `n`.
  pub vfs_read-FileHas :
      (w : World S) (ino off n : ℕ) (b : List ℕ)
      → FileHas calls w ino b
      → vfs_read calls w ino off n ≡ ok (take n (drop off b))
  unfolding vfs_read vfs_getattr
  vfs_read-FileHas w ino off n b (i, e, st, q, small) = elim (Option-cases i.content) [
    | inl z ↦
        let none_left : b ≡ [] = subst (λ o. Stored calls.body w.contents o b) z st in
        rw e (rw z (rw none_left (rw (drop-nil {A = ℕ} off, take-nil {A = ℕ} n) refl)))
    | inr (h, z) ↦
        let (m, l, hold) = subst (λ o. Stored calls.body w.contents o b) z st in
        rw e (rw z (rw l (read_range-window calls.body works w.contents m b off n hold)))
  ]

module _ {S : Type 0} (calls : VfsCalls S) (works : Works calls.body) (fair : Fair calls) where
  -- A truncate to `size` bytes ends as a write does: applied, it leaves the first bytes of the file,
  -- filled up with zeroes to that size.
  pub vfs_truncate-Ends :
      (w : World S) (ino size : ℕ)
      → IsSound calls w
      → size < 2 ^ 64
      → Ends calls (λ t. t) w ino (resized size) (vfs_truncate calls w ino size)
  unfolding vfs_truncate
  vfs_truncate-Ends w ino size sound fine =
      change_loop-Ends calls fair (λ base. ok (some size))
        (λ (s : S) (m : Manifest). resize_body calls.body s m size) (resized size)
        (truncate-Edits calls works size fine) vfs_cas_attempts ino w sound
