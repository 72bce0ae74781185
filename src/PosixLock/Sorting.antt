-- ===== src/PosixLock/Sorting.antt =====
-- Sorting keeps what is said of a list of lock rows.
use origofs.Base.{◌≡◌, ◌⊎◌, inl, inr, false, List, [], ◌∷◌, All, In, All-of-In, All-to, Bool-cases}
use origofs.PosixLock.{PosixLock, clashes, sorts_after, insert_sorted, sort_locks}
use origofs.PosixLock.Rows.{Separate, clashes_symm}

-- Sorting keeps the rows.
All-insert_sorted :
    (P : PosixLock → Type 0) (x : PosixLock) (ls : List PosixLock)
    → P x
    → All P ls
    → All P (insert_sorted x ls)
unfolding insert_sorted
All-insert_sorted P x [] p ps = (p, tt)
All-insert_sorted P x (y ∷ ls) p (q, qs) = elim (Bool-cases (sorts_after x y)) [
  | inl e ↦ rw (e, insert_sorted) (q, All-insert_sorted P x ls p qs)
  | inr e ↦ rw (e, insert_sorted) (p, (q, qs))
]

pub All-sort_locks :
    (P : PosixLock → Type 0) (ls : List PosixLock) → All P ls → All P (sort_locks ls)
unfolding sort_locks
All-sort_locks P [] ps = tt
All-sort_locks P (x ∷ ls) (p, ps) = All-insert_sorted P x (sort_locks ls) p (All-sort_locks P ls ps)

In-insert_sorted :
    (z x : PosixLock) (ls : List PosixLock) → (z ≡ x) ⊎ In z ls → In z (insert_sorted x ls)
unfolding insert_sorted
In-insert_sorted z x [] (inl e) = inl e
In-insert_sorted z x [] (inr i) = absurd i
In-insert_sorted z x (y ∷ ls) i =
    let ih = In-insert_sorted z x ls in
    elim (Bool-cases (sorts_after x y)) [
      | inl e ↦
          rw (e, insert_sorted)
            (elim i [
              | inl q ↦ inr (ih (inl q))
              | inr (inl q) ↦ inl q
              | inr (inr j) ↦ inr (ih (inr j))
            ])
      | inr e ↦ rw (e, insert_sorted) i
    ]

pub In-sort_locks : (z : PosixLock) (ls : List PosixLock) → In z ls → In z (sort_locks ls)
unfolding sort_locks
In-sort_locks z [] i = absurd i
In-sort_locks z (x ∷ ls) (inl e) = In-insert_sorted z x (sort_locks ls) (inl e)
In-sort_locks z (x ∷ ls) (inr i) = In-insert_sorted z x (sort_locks ls) (inr (In-sort_locks z ls i))

pub In-sort_locks_inv : (z : PosixLock) (ls : List PosixLock) → In z (sort_locks ls) → In z ls
In-sort_locks_inv z ls i =
    All-of-In (λ x. In x ls) z (sort_locks ls)
      (All-sort_locks (λ x. In x ls) ls (All-to _ ls (λ x j. j))) i

Separate-insert_sorted :
    (x : PosixLock) (ls : List PosixLock)
    → All (λ b. clashes x b ≡ false) ls
    → Separate ls
    → Separate (insert_sorted x ls)
unfolding insert_sorted
Separate-insert_sorted x [] h s = (tt, tt)
Separate-insert_sorted x (y ∷ ls) (h, hs) (p, ps) = elim (Bool-cases (sorts_after x y)) [
  | inl e ↦
      rw (e, insert_sorted)
        (
          All-insert_sorted (λ b. clashes y b ≡ false) x ls (clashes_symm x y h) p,
          Separate-insert_sorted x ls hs ps,
        )
  | inr e ↦ rw (e, insert_sorted) ((h, hs), (p, ps))
]

pub Separate-sort_locks : (ls : List PosixLock) → Separate ls → Separate (sort_locks ls)
unfolding sort_locks
Separate-sort_locks [] s = tt
Separate-sort_locks (x ∷ ls) (h, hs) =
    Separate-insert_sorted x (sort_locks ls) (All-sort_locks (λ b. clashes x b ≡ false) ls h)
      (Separate-sort_locks ls hs)
