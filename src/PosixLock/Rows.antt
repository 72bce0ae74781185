-- ===== src/PosixLock/Rows.antt =====
-- Lists of lock rows: what `check_state` and `held_at` say of them.
use origofs.Base.{
  ℕ, ◌≤◌, ◌≡◌, refl, sym, subst, inl, inr, Bool, true, false, ◌&&◌, List, [], ◌∷◌, ◌++◌, none, some,
  Text, text_eq, text_eq_iff, ltb, leb, if◌then◌else◌, any_of, All, In, All-append, All-of-In,
  All-to, retain, In-retain, arith, Bool-cases, Option-cases,
}
use origofs.PosixLock.{PosixLock, clashes, no_clash, check_state, held_at}

-- No two rows of the list clash.
abbrev pub Separate : List PosixLock → Type 0
Separate [] = Unit {0}
Separate (a ∷ rest) = All (λ b. clashes a b ≡ false) rest × Separate rest

any_clash :
    (a : PosixLock) (ls : List PosixLock)
    → any_of (clashes a) ls ≡ false
    → All (λ b. clashes a b ≡ false) ls
any_clash a [] h = tt
any_clash a (b ∷ ls) h = (ground arith, any_clash a ls (ground arith))

any_clash_of :
    (a : PosixLock) (ls : List PosixLock)
    → All (λ b. clashes a b ≡ false) ls
    → any_of (clashes a) ls ≡ false
any_clash_of a [] h = refl
any_clash_of a (b ∷ ls) (h, hs) = ground (arith, any_clash_of a ls hs)

no_clash-Separate : (ls : List PosixLock) → no_clash ls ≡ true → Separate ls
unfolding no_clash
no_clash-Separate [] h = tt
no_clash-Separate (a ∷ ls) h = (any_clash a ls (ground arith), no_clash-Separate ls (ground arith))

Separate-no_clash : (ls : List PosixLock) → Separate ls → no_clash ls ≡ true
unfolding no_clash
Separate-no_clash [] h = refl
Separate-no_clash (a ∷ ls) (h, hs) = ground (arith, any_clash_of a ls h, Separate-no_clash ls hs)

abbrev pub Upright : List PosixLock → Type 0
Upright = All (λ l. l.start ≤ l.end)

any_inverted : (ls : List PosixLock) → any_of (λ l. ltb l.end l.start) ls ≡ false → Upright ls
any_inverted [] h = tt
any_inverted (l ∷ ls) h = (ground arith, any_inverted ls (ground arith))

any_inverted_of : (ls : List PosixLock) → Upright ls → any_of (λ l. ltb l.end l.start) ls ≡ false
any_inverted_of [] h = refl
any_inverted_of (l ∷ ls) (h, hs) = ground (arith, any_inverted_of ls hs)

pub check_state-parts : (ls : List PosixLock) → check_state ls ≡ true → Upright ls × Separate ls
unfolding check_state
check_state-parts ls h = (any_inverted ls (ground arith), no_clash-Separate ls (ground arith))

pub check_state_of : (ls : List PosixLock) → Upright ls → Separate ls → check_state ls ≡ true
unfolding check_state
check_state_of ls u s = ground (arith, any_inverted_of ls u, Separate-no_clash ls s)

pub clashes_symm : (a b : PosixLock) → clashes a b ≡ false → clashes b a ≡ false
unfolding clashes
clashes_symm a b h = ground (arith, text_eq_iff a.owner b.owner, text_eq_iff b.owner a.owner)

-- Two rows of one owner that share a byte clash.
pub clashes_at :
    (a b : PosixLock) (x : ℕ)
    → a.owner ≡ b.owner
    → a.start ≤ x
    → x ≤ a.end
    → b.start ≤ x
    → x ≤ b.end
    → clashes a b ≡ true
unfolding clashes
clashes_at a b x e p q r s = ground (arith, text_eq_iff a.owner b.owner)

-- In a separate list, rows that clash are one row.
pub Separate-unique :
    (a b : PosixLock) (ls : List PosixLock)
    → Separate ls
    → In a ls
    → In b ls
    → clashes a b ≡ true
    → a ≡ b
Separate-unique a b [] s i j c = absurd i
Separate-unique a b (l ∷ ls) (h, hs) (inl e) (inl f) c = cc
Separate-unique a b (l ∷ ls) (h, hs) (inl e) (inr j) c =
    let k = All-of-In (λ m. clashes l m ≡ false) b ls h j in cc
Separate-unique a b (l ∷ ls) (h, hs) (inr i) (inl f) c =
    let k = clashes_symm l a (All-of-In (λ m. clashes l m ≡ false) a ls h i) in cc
Separate-unique a b (l ∷ ls) (h, hs) (inr i) (inr j) c = Separate-unique a b ls hs i j c

pub Separate-append :
    (xs ys : List PosixLock)
    → Separate xs
    → Separate ys
    → ((a b : PosixLock) → In a xs → In b ys → clashes a b ≡ false)
    → Separate (xs ++ ys)
Separate-append [] ys p q h = q
Separate-append (x ∷ xs) ys (p, ps) q h = (
  All-append _ xs ys p (All-to _ ys (λ b j. h x b (inl refl) j)),
  Separate-append xs ys ps q (λ a b i j. h a b (inr i) j),
)

pub Separate-retain :
    (p : PosixLock → Bool) (ls : List PosixLock) → Separate ls → Separate (retain p ls)
Separate-retain p [] s = tt
Separate-retain p (l ∷ ls) (h, hs) = elim (Bool-cases (p l)) [
  | inl e ↦
      subst (λ b. Separate (if b then l ∷ retain p ls else retain p ls)) (sym e)
        (
          All-to _ (retain p ls) (λ b i. All-of-In _ b ls h (In-retain p b ls i).0),
          Separate-retain p ls hs,
        )
  | inr e ↦
      subst (λ b. Separate (if b then l ∷ retain p ls else retain p ls)) (sym e)
        (Separate-retain p ls hs)
]

-- The row is the owner's, holds the byte, and has the given mode.
pub record IsAt (l : PosixLock) (o : Text) (b : ℕ) (k : Bool) : Type 0 where
  pub owned : l.owner ≡ o
  pub low : l.start ≤ b
  pub high : b ≤ l.end
  pub mode : l.is_exclusive ≡ k

-- Some row of the list does.
abbrev pub Holds : List PosixLock → Text → ℕ → Bool → Type 0
Holds ls o b k = (l : PosixLock) × In l ls × IsAt l o b k

covers : PosixLock → Text → ℕ → Bool
covers l o b = text_eq l.owner o && leb l.start b && leb b l.end

covers-IsAt : (l : PosixLock) (o : Text) (b : ℕ) → covers l o b ≡ true → IsAt l o b l.is_exclusive
unfolding covers
covers-IsAt l o b h = record {
  owned = (text_eq_iff l.owner o).0 (ground arith);
  low = ground arith;
  high = ground arith;
  mode = refl;
}

IsAt-covers : (l : PosixLock) (o : Text) (b : ℕ) (k : Bool) → IsAt l o b k → covers l o b ≡ true
unfolding covers
IsAt-covers l o b k h = ground (arith, (text_eq_iff l.owner o).1 h.owned)

pub held_at-Holds :
    (ls : List PosixLock) (o : Text) (b : ℕ) (k : Bool) → held_at ls o b ≡ some k → Holds ls o b k
unfolding held_at
held_at-Holds [] o b k h = cc
held_at-Holds (l ∷ ls) o b k h =
    let ih = held_at-Holds ls o b k in
    elim (Bool-cases (covers l o b)) [
      | inl e ↦
          let m : l.is_exclusive ≡ k = unfold covers in ground arith in
          (l, inl refl, subst (IsAt l o b) m (covers-IsAt l o b e))
      | inr e ↦
          let h' : held_at ls o b ≡ some k = unfold covers in ground arith in
          let (m, i, r) = ih h' in (m, inr i, r)
    ]

pub Holds-held_at :
    (ls : List PosixLock) (o : Text) (b : ℕ) (k : Bool)
    → Separate ls
    → Holds ls o b k
    → held_at ls o b ≡ some k
unfolding held_at covers
Holds-held_at [] o b k s (l, i, r) = absurd i
Holds-held_at (m ∷ ls) o b k s (l, inl e, r) =
    let q : IsAt m o b k = subst (λ z. IsAt z o b k) e r in ground (arith, IsAt-covers m o b k q)
Holds-held_at (m ∷ ls) o b k (h, hs) (l, inr i, r) =
    let away = All-of-In (λ z. clashes m z ≡ false) l ls h i in
    ground (
      arith,
      Holds-held_at ls o b k hs (l, i, r),
      text_eq_iff m.owner o,
      clashes_at m l b,
      r.owned,
      r.low,
      r.high,
    )

-- With no clash, the two views agree also on what is not held.
pub held_at-none :
    (ls : List PosixLock) (o : Text) (b : ℕ)
    → ((k : Bool) → ¬ Holds ls o b k)
    → held_at ls o b ≡ none
held_at-none ls o b h = elim (Option-cases (held_at ls o b)) [
  | inl e ↦ e
  | inr (k, e) ↦ absurd (h k (held_at-Holds ls o b k e))
]
