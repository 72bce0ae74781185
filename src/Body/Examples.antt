-- ===== src/Body/Examples.antt =====
-- The theorems on bodies at a body of two chunks in memory.
use origofs.Base.{ℕ, ◌+◌, ◌*◌, ◌/◌, ◌≡◌, refl, List, [], ◌∷◌, replicate, ok, arith}
use origofs.Chunk.{ChunkRef, Manifest, encode_manifest}
use origofs.Body.{
  min_chunk, resized, covering_from, covering_chunks, read_plan, read_range, store_body, hit,
  locate, widened, span_of_write,
}
use origofs.Body.Edits.{resize_body, replace_range, splice_body}
use origofs.Body.Reads.{Holds}
use origofs.Body.Sample.{Objects, in_memory, in_memory-Works}
use origofs.Body.Upload.{Saves, store_body-Saves}
use origofs.Body.Resize.{resize_body-Saves}
use origofs.Body.Replace.{written, replace_range-Saves}
use origofs.Body.Splice.{splice_body-Saves}

abbrev pub two_objects : Objects
two_objects = (1 ∷ 2 ∷ 3 ∷ []) ∷ (4 ∷ 5 ∷ []) ∷ []

abbrev chunk_of : ℕ → ℕ → ChunkRef
chunk_of n len = record { hash = n ∷ replicate 31 0; len = len }

abbrev pub five_bytes : List ℕ
five_bytes = 1 ∷ 2 ∷ 3 ∷ 4 ∷ 5 ∷ []

abbrev pub five : Manifest
five = record { size = 5; chunks = chunk_of 0 3 ∷ chunk_of 1 2 ∷ [] }

abbrev pub manifest_bytes : List ℕ
manifest_bytes = elim (encode_manifest five) [ ok bs ↦ bs | _ ↦ [] ]

abbrev pub three_objects : Objects
three_objects = (1 ∷ 2 ∷ 3 ∷ []) ∷ (4 ∷ 5 ∷ []) ∷ manifest_bytes ∷ []

five-Holds : Holds in_memory two_objects five five_bytes
five-Holds = (
  (
    1 ∷ 2 ∷ 3 ∷ [],
    4 ∷ 5 ∷ [],
    (refl, refl, record { hash_len = refl; len_fits = omega arith }),
    (4 ∷ 5 ∷ [], [], (refl, refl, record { hash_len = refl; len_fits = omega arith }), refl, refl),
    refl,
  ),
  refl,
  omega arith,
)

-- The range from 2 to 4 meets both chunks.
both : span_of_write 2 4 five.chunks ≡ (0, 2)
unfolding span_of_write locate hit widened
both = refl

read_back : read_range in_memory two_objects five 2 2 ≡ ok (3 ∷ 4 ∷ [])
unfolding read_range covering_chunks covering_from read_plan
read_back = refl

over_the_seam : written 2 (9 ∷ 9 ∷ []) five_bytes ≡ 1 ∷ 2 ∷ 9 ∷ 9 ∷ 5 ∷ []
over_the_seam = refl

behind_the_end : written 7 (9 ∷ []) five_bytes ≡ 1 ∷ 2 ∷ 3 ∷ 4 ∷ 5 ∷ 0 ∷ 0 ∷ 9 ∷ []
behind_the_end = refl

store_body-Saves_example :
    Saves in_memory two_objects
      (store_body in_memory two_objects five_bytes)
      five_bytes
      (5 / min_chunk + 1)
store_body-Saves_example =
    store_body-Saves in_memory in_memory-Works two_objects five_bytes (omega arith)

resize_body-Saves_example :
    Saves in_memory two_objects
      (resize_body in_memory two_objects five 4)
      (resized 4 five_bytes)
      (2 + (4 / min_chunk + 1))
resize_body-Saves_example =
    resize_body-Saves in_memory in_memory-Works two_objects five five_bytes 4 five-Holds
      (omega arith)

abbrev last_chunk : List ChunkRef
last_chunk = chunk_of 1 2 ∷ []

replace_range-Saves_example :
    Saves in_memory two_objects
      (replace_range in_memory two_objects five 2 last_chunk)
      (written 2 (4 ∷ 5 ∷ []) five_bytes)
      (2 * 2 + 1 + (2 / min_chunk + 1))
replace_range-Saves_example =
    replace_range-Saves in_memory in_memory-Works two_objects five five_bytes 2 last_chunk
      (4 ∷ 5 ∷ []) five-Holds
      (4 ∷ 5 ∷ [], [], (refl, refl, record { hash_len = refl; len_fits = omega arith }), refl, refl)
      (omega arith)

splice_body-Saves_example :
    Saves in_memory two_objects
      (splice_body in_memory two_objects five 2 (9 ∷ 9 ∷ []))
      (written 2 (9 ∷ 9 ∷ []) five_bytes)
      (2 + (5 / min_chunk + 2))
splice_body-Saves_example =
    splice_body-Saves in_memory in_memory-Works two_objects five five_bytes 2 9 (9 ∷ []) five-Holds
      (omega arith)
