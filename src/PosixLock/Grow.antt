-- ===== src/PosixLock/Grow.antt =====
-- The widening loop of `resolve`: it ends within its fuel, at a fixpoint, and takes in no byte that
-- the owner does not hold in the same mode.
use origofs.Base.{
  ℕ, zero, suc, ◌+◌, ◌≤◌, ◌<◌, min, max, ◌≡◌, refl, sym, subst, ◌⊎◌, inl, inr, Bool, true, false,
  ◌&&◌, ◌||◌, List, [], ◌∷◌, ltb, All, All-to, In, length, if◌then◌else◌, arith, Bool-cases,
}
use origofs.PosixLock.{PosixLock, bool_eq, widens, grow_row, grow_pass, grow}

-- The byte lies in a row of the given mode.
abbrev pub CoveredBy : Bool → ℕ → List PosixLock → Type 0
CoveredBy want b [] = ⊥
CoveredBy want b (l ∷ ls) =
    ((l.is_exclusive ≡ want) × (l.start ≤ b) × (b ≤ l.end)) ⊎ CoveredBy want b ls

-- How many rows of the mode stick out of the range.
pub sticking_out : Bool → List PosixLock → ℕ → ℕ → ℕ
sticking_out want [] ns ne = 0
sticking_out want (l ∷ ls) ns ne =
    sticking_out want ls ns ne
    + (if bool_eq l.is_exclusive want && (ltb l.start ns || ltb ne l.end) then 1 else 0)

pub sticking_out-le :
    (want : Bool) (ls : List PosixLock) (ns ne : ℕ) → sticking_out want ls ns ne ≤ length ls
unfolding sticking_out
sticking_out-le want [] ns ne = omega arith
sticking_out-le want (l ∷ ls) ns ne = ground (arith, sticking_out-le want ls ns ne)

sticking_out_mono :
    (want : Bool) (ls : List PosixLock) (ns ne ns' ne' : ℕ)
    → ns' ≤ ns
    → ne ≤ ne'
    → sticking_out want ls ns' ne' ≤ sticking_out want ls ns ne
unfolding sticking_out
sticking_out_mono want [] ns ne ns' ne' p q = omega arith
sticking_out_mono want (l ∷ ls) ns ne ns' ne' p q =
    ground (arith, sticking_out_mono want ls ns ne ns' ne' p q)

-- The start and end of a state of the loop, and its flag.
abbrev State : Type 0
State = ℕ × ℕ × Bool

grow_row_wider :
    (want : Bool) (l : PosixLock) (s : State)
    → ((grow_row want l s).0 ≤ s.0) × (s.1 ≤ (grow_row want l s).1)
unfolding grow_row
grow_row_wider want l (ns, ne, g) = ground arith

grow_pass_wider :
    (want : Bool) (ls : List PosixLock) (s : State)
    → ((grow_pass want ls s).0 ≤ s.0) × (s.1 ≤ (grow_pass want ls s).1)
unfolding grow_pass
grow_pass_wider want [] s = omega arith
grow_pass_wider want (l ∷ ls) s =
    omega (arith, grow_row_wider want l s, grow_pass_wider want ls (grow_row want l s))

-- A row adds its own bytes and no other.
grow_row_covered :
    (want : Bool) (l : PosixLock) (s : State) (b : ℕ)
    → l.start ≤ l.end
    → s.0 ≤ s.1
    → (grow_row want l s).0 ≤ b
    → b ≤ (grow_row want l s).1
    → ((s.0 ≤ b) × (b ≤ s.1)) ⊎ ((l.is_exclusive ≡ want) × (l.start ≤ b) × (b ≤ l.end))
unfolding grow_row widens
grow_row_covered want l (ns, ne, g) b v h p q = ground arith

grow_pass_covered :
    (want : Bool) (ls : List PosixLock) (s : State) (b : ℕ)
    → All (λ l. l.start ≤ l.end) ls
    → s.0 ≤ s.1
    → (grow_pass want ls s).0 ≤ b
    → b ≤ (grow_pass want ls s).1
    → ((s.0 ≤ b) × (b ≤ s.1)) ⊎ CoveredBy want b ls
unfolding grow_pass
grow_pass_covered want [] s b v h p q = inl (p, q)
grow_pass_covered want (l ∷ ls) s b (v, vs) h p q =
    elim (grow_pass_covered want ls (grow_row want l s) b vs
      (omega (arith, grow_row_wider want l s)) p q) [
        | inl (p', q') ↦ elim (grow_row_covered want l s b v h p' q') [
          | inl r ↦ inl r
          | inr c ↦ inr (inl c)
        ]
        | inr c ↦ inr (inr c)
      ]

-- A pass that set no flag changed nothing, and no row widens the range.
grow_row_quiet :
    (want : Bool) (l : PosixLock) (s : State)
    → (grow_row want l s).2 ≡ false
    → (grow_row want l s ≡ s) × (widens want l s.0 s.1 ≡ false)
unfolding grow_row
grow_row_quiet want l (ns, ne, g) h = ground arith

grow_row_flag :
    (want : Bool) (l : PosixLock) (s : State) → (grow_row want l s).2 ≡ false → s.2 ≡ false
unfolding grow_row
grow_row_flag want l (ns, ne, g) h = ground arith

grow_pass_flag :
    (want : Bool) (ls : List PosixLock) (s : State) → (grow_pass want ls s).2 ≡ false → s.2 ≡ false
unfolding grow_pass
grow_pass_flag want [] s h = h
grow_pass_flag want (l ∷ ls) s h =
    grow_row_flag want l s (grow_pass_flag want ls (grow_row want l s) h)

grow_pass_quiet :
    (want : Bool) (ls : List PosixLock) (s : State)
    → (grow_pass want ls s).2 ≡ false
    → (grow_pass want ls s ≡ s) × All (λ l. widens want l s.0 s.1 ≡ false) ls
unfolding grow_pass
grow_pass_quiet want [] s h = (refl, tt)
grow_pass_quiet want (l ∷ ls) s h =
    let (same, quiet) = grow_row_quiet want l s (grow_pass_flag want ls (grow_row want l s) h) in
    let (e, r) = grow_pass_quiet want ls s (rw (same, grow_pass) at h) in (rw same e, (quiet, r))

-- A row that widens the range no longer sticks out of it.
shrinks :
    (want : Bool) (l : PosixLock) (whole : List PosixLock) (ns ne : ℕ)
    → In l whole
    → widens want l ns ne ≡ true
    → sticking_out want whole (min ns l.start) (max ne l.end) < sticking_out want whole ns ne
unfolding sticking_out widens
shrinks want l [] ns ne i w = absurd i
shrinks want l (m ∷ whole) ns ne (inl e) w =
    rw (← e) (ground (arith, sticking_out_mono want whole ns ne (min ns l.start) (max ne l.end)))
shrinks want l (m ∷ whole) ns ne (inr i) w = ground (arith, shrinks want l whole ns ne i)

grow_pass_shrinks :
    (want : Bool) (whole ls : List PosixLock) (s : State)
    → All (λ l. In l whole) ls
    → s.2 ≡ false
    → (grow_pass want ls s).2 ≡ true
    → sticking_out want whole (grow_pass want ls s).0 (grow_pass want ls s).1
      < sticking_out want whole s.0 s.1
unfolding grow_pass
grow_pass_shrinks want whole [] s i h g = cc
grow_pass_shrinks want whole (l ∷ ls) (ns, ne, g) (i, is) h k =
    elim (Bool-cases (widens want l ns ne)) [
      | inl w ↦
          let t : State = (min ns l.start, max ne l.end, true) in
          let e : grow_row want l (ns, ne, g) ≡ t = unfold grow_row in rw w in
          rw (e, grow_pass)
            (omega (
              arith,
              shrinks want l whole ns ne i w,
              sticking_out_mono want whole t.0 t.1 (grow_pass want ls t).0 (grow_pass want ls t).1
                  (grow_pass_wider want ls t).0 (grow_pass_wider want ls t).1,
            ))
      | inr w ↦
          let e : grow_row want l (ns, ne, g) ≡ (ns, ne, g) = unfold grow_row in rw w in
          rw (e, grow_pass)
            (grow_pass_shrinks want whole ls (ns, ne, g) is h (rw (e, grow_pass) at k))
    ]

-- What the loop returns: a wider range that no row of the mode widens, and whose new bytes are all
-- held in that mode.
pub record IsGrown (want : Bool) (ls : List PosixLock) (ns ne : ℕ) (r : ℕ × ℕ) : Type 0 where
  pub low : r.0 ≤ ns
  pub high : ne ≤ r.1
  pub fixed : All (λ l. widens want l r.0 r.1 ≡ false) ls
  pub covered : (b : ℕ) → r.0 ≤ b → b ≤ r.1 → ((ns ≤ b) × (b ≤ ne)) ⊎ CoveredBy want b ls

-- With more fuel than rows that stick out, on rows and a range that are not inverted, the loop ends
-- by its own test: no row widens the result, which covers the range and, besides it, only bytes of
-- rows of the wanted mode.
pub grow-IsGrown :
    (fuel : ℕ) (want : Bool) (ls : List PosixLock) (ns ne : ℕ)
    → sticking_out want ls ns ne < fuel
    → All (λ l. l.start ≤ l.end) ls
    → ns ≤ ne
    → IsGrown want ls ns ne (grow fuel want ls ns ne)
unfolding grow
grow-IsGrown zero want ls ns ne f v h = absurd (omega arith)
grow-IsGrown (suc fuel) want ls ns ne f v h =
    let t = grow_pass want ls (ns, ne, false) in
    let wide = grow_pass_wider want ls (ns, ne, false) in
    let cover = λ (b : ℕ). grow_pass_covered want ls (ns, ne, false) b v h in
    elim (Bool-cases t.2) [
      | inl g ↦
          let less = grow_pass_shrinks want ls ls (ns, ne, false) (All-to _ ls (λ l i. i)) refl g in
          let ih = grow-IsGrown fuel want ls t.0 t.1 (omega arith) v (omega arith) in
          rw (g, grow)
            (record {
              low = omega arith;
              high = omega arith;
              fixed = ih.fixed;
              covered =
                  λ b p q. elim (ih.covered b p q) [ inl (p', q') ↦ cover b p' q' | inr c ↦ inr c ];
            })
      | inr g ↦
          let (same, quiet) = grow_pass_quiet want ls (ns, ne, false) g in
          rw (g, grow)
            (record {
              low = wide.0;
              high = wide.1;
              fixed =
                  subst (λ (u : State). All (λ l. widens want l u.0 u.1 ≡ false) ls) (sym same)
                    quiet;
              covered = λ b p q. cover b p q;
            })
    ]
