-- ===== src/Gc/Clash.antt =====
-- What the mark phase misses where a chunk of one file has the bytes of another file's manifest.
use origofs.Base.{
  ℕ, ◌≡◌, ◌≢◌, inl, inr, refl, sym, false, true, List, [], ◌∷◌, In, text_eq, text_eq_iff, ok,
  Bool-cases, arith,
}
use origofs.Errors.{Outcome}
use origofs.ObjectGraph.{Hash}
use origofs.Chunk.{ChunkRef, Manifest}
use origofs.Gc.{Marked, has, insert_chunks, manifest_object, mark_manifest, mark_each}
use origofs.Gc.Marks.{In-has}

different : (a b : Hash) → a ≢ b → text_eq a b ≡ false
different a b h = elim (Bool-cases (text_eq a b)) [
  | inl e ↦ absurd (h ((text_eq_iff a b).0 e))
  | inr e ↦ e
]

-- Where the one chunk of a file is also the manifest of another file, and the first file is marked
-- first, the second file's other chunks stay unmarked: its manifest is taken for marked.
pub mark_manifest_misses :
    (get : Hash → Outcome (List ℕ)) (a b : Hash) (len : ℕ) (f g : Manifest) (c : ChunkRef)
    → manifest_object get a ≡ ok f
    → f.chunks ≡ record { hash = b; len = len } ∷ []
    → manifest_object get b ≡ ok g
    → In c g.chunks
    → a ≢ b
    → c.hash ≢ a
    → c.hash ≢ b
    → (m : Marked) × (mark_each get (mark_manifest get) (a ∷ b ∷ []) [] ≡ ok m) × (In c.hash m → ⊥)
unfolding mark_each mark_manifest insert_chunks
mark_manifest_misses get a b len f g c ea ef eb i ab ca cb =
    let n : has b (a ∷ []) ≡ false = let q = different b a (λ e. ab (sym e)) in ground (arith, q) in
    let k : has b (b ∷ a ∷ []) ≡ true = In-has b (b ∷ a ∷ []) (inl refl) in
    (
      b ∷ a ∷ [],
      rw ea (rw ef (rw n (rw k refl))),
      λ j. elim j [ inl e ↦ cb e | inr (inl e) ↦ ca e | inr (inr e) ↦ absurd e ],
    )
