-- ===== src/Body/Edits.antt =====
-- crates/origofs-core/src/engine.rs: the operations that change a body.
use origofs.Base.{
  ℕ, ◌+◌, ◌-◌, min, max, List, [], ◌∷◌, ◌++◌, Option, none, some, leb, ltb, ◌==◌, if◌then◌else◌,
  length, take, drop, ok, ◌>>=◌, ◌>>◌, guard,
}
use origofs.Errors.{Outcome, too_large}
use origofs.ObjectGraph.{Hash}
use origofs.Chunk.{ChunkRef, Manifest, total_len}
use origofs.Body.{
  BodyCalls, fits, saturating_add, head_len, resized, copied, keep_from, span_of_write, read_chunks,
  append_chunked, append_hole, seal, address_of, put_piece,
}

module _ {S : Type 0} (calls : BodyCalls S) where
  -- What `resize_body` does with the chunk that straddles the new end.
  unfoldable pub rechunk :
      S → ℕ → List ChunkRef → Option (ChunkRef × ℕ) → Outcome (List ChunkRef × S)
  unfolding append_chunked
  rechunk s size kept none = ok (kept, s)
  rechunk s size kept (some (c, cs)) = do
    bytes ← calls.get_range s c.hash 0 (size - cs)
    append_chunked calls s kept bytes

  unfoldable pub grow_body : S → Manifest → ℕ → Outcome ((Option Hash × ℕ) × S)
  unfolding append_hole seal
  grow_body s m size = do
    (chunks, s1) ← append_hole calls s m.chunks (size - m.size)
    seal calls s1 (record { size = size; chunks = chunks })

  unfoldable pub shrink_body : S → Manifest → ℕ → Outcome ((Option Hash × ℕ) × S)
  unfolding rechunk keep_from seal
  shrink_body s m size = do
    let kept = keep_from 0 size m.chunks
    (chunks, s1) ← rechunk s size kept.0 kept.1
    seal calls s1 (record { size = size; chunks = chunks })

  unfoldable pub resize_body : S → Manifest → ℕ → Outcome ((Option Hash × ℕ) × S)
  unfolding grow_body shrink_body address_of
  resize_body s m size =
      if size == m.size
      then address_of calls s m
      else if size == 0
      then ok ((none, 0), s)
      else if ltb m.size size
      then grow_body s m size
      else shrink_body s m size

  -- One round of the loop of `split_chunks_at`, for the chunk that starts at `pos`: what it adds on
  -- either side.
  unfoldable pub split_one : S → ℕ → ℕ → ChunkRef → Outcome ((List ChunkRef × List ChunkRef) × S)
  unfolding put_piece
  split_one s pos at c =
      if leb (pos + c.len) at
      then ok ((c ∷ [], []), s)
      else if leb at pos
      then ok (([], c ∷ []), s)
      else (do
        let head = at - pos
        bytes ← calls.get_range s c.hash 0 c.len
        (h, s1) ← calls.put s (take head bytes)
        (h', s2) ← calls.put s1 (drop head bytes)
        ok (
          (record { hash = h; len = head } ∷ [], record { hash = h'; len = c.len - head } ∷ []),
          s2,
        ))

  unfoldable pub split_from :
      S → ℕ → ℕ → List ChunkRef → Outcome ((List ChunkRef × List ChunkRef) × S)
  unfolding split_one
  split_from s pos at [] = ok (([], []), s)
  split_from s pos at (c ∷ cs) = do
    ((b, a), s1) ← split_one s pos at c
    ((before, after), s2) ← split_from s1 (pos + c.len) at cs
    ok ((b ++ before, a ++ after), s2)

  unfoldable pub split_chunks_at :
      S → List ChunkRef → ℕ → Outcome ((List ChunkRef × List ChunkRef) × S)
  unfolding split_from
  split_chunks_at s chunks at = split_from s 0 at chunks

  unfoldable pub slice_chunks : S → Manifest → ℕ → ℕ → Outcome (List ChunkRef × S)
  unfolding split_chunks_at
  slice_chunks s m off len =
      let end = min (saturating_add off len) m.size in
      if leb end off then ok ([], s) else (do
        ((head, tail), s1) ← split_chunks_at s m.chunks off
        ((mid, rest), s2) ← split_chunks_at s1 tail (end - off)
        ok (mid, s2))

  -- The chunks before `off`, a gap behind the end filled.
  unfoldable pub head_of : S → Manifest → ℕ → Outcome (List ChunkRef × S)
  unfolding append_hole split_chunks_at
  head_of s m off = do
    (head, s1) ←
        if ltb m.size off then append_hole calls s m.chunks (off - m.size) else ok (m.chunks, s)
    ((before, after), s2) ← split_chunks_at s1 head off
    ok (before, s2)

  unfoldable pub tail_of : S → Manifest → ℕ → Outcome (List ChunkRef × S)
  unfolding split_chunks_at
  tail_of s m end =
      if leb m.size end
      then ok ([], s)
      else (do ((before, after), s1) ← split_chunks_at s m.chunks end; ok (after, s1))

  unfoldable pub seal_unless_empty : S → List ChunkRef → Outcome ((Option Hash × ℕ) × S)
  unfolding seal
  seal_unless_empty s chunks =
      let size = head_len chunks in
      if size == 0
      then ok ((none, 0), s)
      else seal calls s (record { size = size; chunks = chunks })

  unfoldable pub replace_range : S → Manifest → ℕ → List ChunkRef → Outcome ((Option Hash × ℕ) × S)
  unfolding head_of tail_of seal_unless_empty
  replace_range s m off new = do
    let end = off + head_len new
    guard (fits end) too_large
    (before, s1) ← head_of s m off
    (tail, s2) ← tail_of s1 m end
    seal_unless_empty s2 (before ++ (new ++ tail))

  -- `splice_body` behind the end of the body.
  unfoldable pub splice_behind : S → Manifest → ℕ → List ℕ → Outcome ((Option Hash × ℕ) × S)
  unfolding append_hole append_chunked seal
  splice_behind s m off bytes = do
    (chunks, s1) ← append_hole calls s m.chunks (off - m.size)
    (chunks', s2) ← append_chunked calls s1 chunks bytes
    seal calls s2 (record { size = off + length bytes; chunks = chunks' })

  -- Its end, from the chunks to replace on: `lo` of them stand before, and `hi` up to their end.
  unfoldable pub splice_region : S → Manifest → ℕ → List ℕ → ℕ × ℕ → Outcome ((Option Hash × ℕ) × S)
  unfolding read_chunks append_chunked seal total_len
  splice_region s m off bytes (lo, hi) = do
    let end = off + length bytes
    let replaced = take (hi - lo) (drop lo m.chunks)
    let region_start = total_len (take lo m.chunks)
    let covered_end = region_start + total_len replaced
    let region_end = max covered_end end
    old ← read_chunks calls s replaced
    let region = resized (region_end - region_start) old
    (chunks, s1) ←
        append_chunked calls s (take lo m.chunks) (copied (off - region_start) bytes region)
    seal calls s1 (record { size = max m.size end; chunks = chunks ++ drop hi m.chunks })

  unfoldable pub splice_body : S → Manifest → ℕ → List ℕ → Outcome ((Option Hash × ℕ) × S)
  unfolding splice_behind splice_region address_of span_of_write
  splice_body s m off [] = do guard (fits off) too_large; address_of calls s m
  splice_body s m off (b ∷ bytes) = do
    let end = off + length (b ∷ bytes)
    guard (fits end) too_large
    if ltb m.size off
        then splice_behind s m off (b ∷ bytes)
        else splice_region s m off (b ∷ bytes) (span_of_write off end m.chunks)
