-- ===== src/Body/Sample.antt =====
-- A content store in memory that works, and a cut into the largest chunks: the calls of the concrete inputs.
use origofs.Base.{
  ℕ, zero, suc, ◌+◌, ◌-◌, ◌*◌, ◌/◌, take_all, take_split, drop-drop, length-take, ◌≤◌, ◌≡◌, refl,
  sym, ap, ◌∙◌, List, [], ◌∷◌, ◌++◌, length, replicate, take, drop, All, ok, err, arith,
}
use origofs.Errors.{Outcome, content_missing}
use origofs.ObjectGraph.{Hash}
use origofs.Body.{BodyCalls, max_chunk, pieces}
use origofs.Body.Reads.{concat, Works}

-- Objects by the order in which they came.
abbrev pub Objects : Type 0
Objects = List (List ℕ)

abbrev entry : ℕ → Objects → Outcome (List ℕ)
entry n [] = err content_missing
entry zero (o ∷ os) = ok o
entry (suc n) (o ∷ os) = entry n os

abbrev pub object_at : Objects → Hash → Outcome (List ℕ)
object_at os [] = err content_missing
object_at os (n ∷ rest) = entry n os

abbrev window_of : ℕ → ℕ → Outcome (List ℕ) → Outcome (List ℕ)
window_of off n (err e) = err e
window_of off n (ok b) = ok (take n (drop off b))

-- `n` blocks from `off` on.
abbrev blocks : ℕ → ℕ → List (ℕ × ℕ)
blocks zero off = []
blocks (suc n) off = (off, max_chunk) ∷ blocks n (off + max_chunk)

abbrev pub in_memory : BodyCalls Objects
in_memory = record {
  put = λ os b. ok (length os ∷ replicate 31 0, os ++ (b ∷ []));
  get = object_at;
  get_range = λ os h off n. window_of off n (object_at os h);
  flush = λ os. ok os;
  chunk_bounds = λ b. blocks (length b / max_chunk + 1) 0;
}

entry-append :
    (n : ℕ) (os : Objects) (b o : List ℕ) → entry n os ≡ ok o → entry n (os ++ (b ∷ [])) ≡ ok o
entry-append zero [] b o h = cc
entry-append (suc n) [] b o h = cc
entry-append zero (p ∷ os) b o h = h
entry-append (suc n) (p ∷ os) b o h = entry-append n os b o h

entry-last : (os : Objects) (b : List ℕ) → entry (length os) (os ++ (b ∷ [])) ≡ ok b
entry-last [] b = refl
entry-last (o ∷ os) b = entry-last os b

object_at-append :
    (os : Objects) (b : List ℕ) (h : Hash) (o : List ℕ)
    → object_at os h ≡ ok o
    → object_at (os ++ (b ∷ [])) h ≡ ok o
object_at-append os b [] o e = cc
object_at-append os b (n ∷ rest) o e = entry-append n os b o e

pieces-blocks :
    (n off : ℕ) (b : List ℕ) → concat (pieces b (blocks n off)) ≡ take (n * max_chunk) (drop off b)
unfolding concat pieces
pieces-blocks zero off b =
    let z : zero * max_chunk ≡ 0 = omega arith in sym (ap (λ k. take k (drop off b)) z)
pieces-blocks (suc n) off b =
    let k : suc n * max_chunk - max_chunk ≡ n * max_chunk = omega arith in
    ap (λ z. take max_chunk (drop off b) ++ z)
      (pieces-blocks n (off + max_chunk) b
        ∙ (λ i. take (sym k i) (sym (drop-drop max_chunk off b) i)))
    ∙ take_split max_chunk (suc n * max_chunk) (drop off b) (omega arith)

blocks-fit : (n off : ℕ) (b : List ℕ) → All (λ p. length p ≤ max_chunk) (pieces b (blocks n off))
unfolding pieces
blocks-fit zero off b = tt
blocks-fit (suc n) off b =
    (omega (arith, length-take max_chunk (drop off b)), blocks-fit n (off + max_chunk) b)

length-blocks : (n off : ℕ) (b : List ℕ) → length (pieces b (blocks n off)) ≡ n
unfolding pieces
length-blocks zero off b = refl
length-blocks (suc n) off b = omega (arith, length-blocks n (off + max_chunk) b)

pub in_memory-Works : Works in_memory
in_memory-Works = record {
  put_keeps = λ os b. (
    length os ∷ replicate 31 0,
    os ++ (b ∷ []),
    refl,
    entry-last os b,
    refl,
    λ h o. object_at-append os b h o,
  );
  range_window = λ os h b off n e. ap (window_of off n) e;
  flush_keeps = λ os. (os, refl, λ h b e. e);
  cut_covers = λ b.
      pieces-blocks (length b / max_chunk + 1) 0 b
      ∙ take_all ((length b / max_chunk + 1) * max_chunk) b (omega arith);
  cut_fits = λ b. blocks-fit (length b / max_chunk + 1) 0 b;
  cut_few = λ b. omega (arith, length-blocks (length b / max_chunk + 1) 0 b);
}
