-- ===== src/PosixLock/Examples.antt =====
-- Runs of the lock table, and its theorems at concrete inputs.
use origofs.Base.{
  ℕ, ◌≡◌, refl, ◌↔◌, Bool, true, false, List, [], ◌∷◌, none, some, Text, text_discrete, text_lt,
  if◌then◌else◌, In, arith,
}
use origofs.PosixLock.{
  PosixLock, LockKind, LockRequest, shared, exclusive, overlaps, adjacent, blocks, find_conflict,
  mine, widens, grow_row, grow_pass, grow, widened, absorbed, left_of, right_of, remainders,
  edit_row, edits, granted_row, blocker, grant, resolve, sorts_after, insert_sorted, sort_locks,
  is_deleted, apply, clashes, no_clash, check_state, held_at, test,
}
use origofs.PosixLock.Conflict.{Blocks, granted_iff}
use origofs.PosixLock.Held.{concerns}
use origofs.PosixLock.Grow.{IsGrown, sticking_out-le, grow-IsGrown}
use origofs.PosixLock.Semantics.{
  setlk, setlk-check_state, setlk-held_at, IsExclusive, setlk-IsExclusive, run, run_safe,
}

program : Unit {0}
unfolding text_discrete text_lt overlaps adjacent blocks find_conflict mine widens grow_row
    grow_pass grow widened absorbed left_of right_of remainders edit_row edits granted_row blocker
    grant resolve sorts_after insert_sorted sort_locks is_deleted apply clashes no_clash check_state
    held_at test concerns setlk run
program = tt

abbrev alice : Text
alice = 97 ∷ []

abbrev bob : Text
bob = 98 ∷ []

abbrev row : Text → ℕ → ℕ → Bool → PosixLock
row o s e x = record { owner = o; holder = []; pid = 1; start = s; end = e; is_exclusive = x }

abbrev ask : Text → ℕ → ℕ → LockKind → LockRequest
ask o s e k = record { owner = o; holder = []; pid = 1; start = s; end = e; kind = k }

abbrev one_row : List PosixLock
one_row = row alice 0 99 true ∷ []

-- Downgrading the middle of an exclusive range splits it.
split_run :
    setlk one_row (ask alice 40 59 shared)
    ≡ row alice 0 39 true ∷ row alice 40 59 false ∷ row alice 60 99 true ∷ []
unfolding program
split_run = refl

-- Consecutive ranges of one mode become one row.
merge_run :
    run [] (ask alice 0 9 exclusive ∷ ask alice 20 29 exclusive ∷ ask alice 10 19 exclusive ∷ [])
    ≡ row alice 0 29 true ∷ []
unfolding program
merge_run = refl

one_row_at_rest : check_state one_row ≡ true
unfolding program
one_row_at_rest = refl

bob_refused : test one_row (ask bob 50 60 shared) ≡ some (row alice 0 99 true)
unfolding program
bob_refused = refl

alice_granted : test one_row (ask alice 40 59 shared) ≡ none
unfolding program
alice_granted = refl

one_row-IsExclusive : IsExclusive one_row
unfolding program
one_row-IsExclusive = (run_safe (ask alice 0 99 exclusive ∷ []) (omega arith)).1

granted_iff_example :
    (test one_row (ask bob 50 60 shared) ≡ none)
    ↔ ((l : PosixLock) → In l one_row → ¬ Blocks (ask bob 50 60 shared) l)
granted_iff_example = granted_iff one_row (ask bob 50 60 shared)

grow-IsGrown_example :
    IsGrown true
      (row alice 0 9 true ∷ row alice 20 29 true ∷ [])
      10
      19
      (grow 3 true (row alice 0 9 true ∷ row alice 20 29 true ∷ []) 10 19)
grow-IsGrown_example =
    grow-IsGrown 3 true (row alice 0 9 true ∷ row alice 20 29 true ∷ []) 10 19
      (omega (arith, sticking_out-le true (row alice 0 9 true ∷ row alice 20 29 true ∷ []) 10 19))
      (omega arith) (omega arith)

setlk-check_state_example : check_state (setlk one_row (ask alice 40 59 shared)) ≡ true
setlk-check_state_example =
    setlk-check_state one_row (ask alice 40 59 shared) one_row_at_rest (omega arith)

setlk-held_at_example :
    held_at (setlk one_row (ask alice 40 59 shared)) alice 45
    ≡ (if concerns (ask alice 40 59 shared) alice 45 then some false else held_at one_row alice 45)
setlk-held_at_example =
    setlk-held_at one_row (ask alice 40 59 shared) alice 45 one_row_at_rest (omega arith)
      alice_granted

setlk-IsExclusive_example : IsExclusive (setlk one_row (ask alice 40 59 shared))
setlk-IsExclusive_example =
    setlk-IsExclusive one_row (ask alice 40 59 shared) one_row_at_rest (omega arith)
      one_row-IsExclusive

run_safe_example :
    (check_state (run [] (ask alice 0 9 exclusive ∷ ask bob 5 6 shared ∷ [])) ≡ true)
    × IsExclusive (run [] (ask alice 0 9 exclusive ∷ ask bob 5 6 shared ∷ []))
run_safe_example = run_safe (ask alice 0 9 exclusive ∷ ask bob 5 6 shared ∷ []) (omega arith)
