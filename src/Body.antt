-- ===== src/Body.antt =====
-- crates/origofs-core/src/engine.rs: the body of a file as a list of chunks. How a range of it is read,
-- and how it is written, resized and replaced by moving chunks. The loads and uploads run one after
-- the other, in the order that `buffered` yields them in; a failed allocation has no part here.
pub mod Edits
pub mod Reads
pub mod Window
pub mod Upload
pub mod Divide
pub mod Resize
pub mod Replace
pub mod Locate
pub mod Splice
pub mod Sample
pub mod Examples
use origofs.Base.{
  ℕ, zero, suc, ◌+◌, ◌-◌, ◌*◌, ◌/◌, ◌%◌, ◌^◌, min, max, Bool, true, false, ◌&&◌, List, [], ◌∷◌,
  ◌++◌, Option, none, some, leb, ltb, ◌==◌, if◌then◌else◌, length, take, drop, replicate, err, ok,
  ◌>>=◌, ◌>>◌, guard,
}
use origofs.Errors.{Outcome, too_large}
use origofs.ObjectGraph.{Hash}
use origofs.Chunk.{ChunkRef, Manifest, total_len, encode_manifest, decode_manifest}

-- What a body calls: the content store, whose state is an `S`, and the cut of the fastcdc crate, as
-- offsets and lengths.
pub record BodyCalls (S : Type 0) : Type 0 where
  pub put : S → List ℕ → Outcome (Hash × S)
  pub get : S → Hash → Outcome (List ℕ)
  pub get_range : S → Hash → ℕ → ℕ → Outcome (List ℕ)
  pub flush : S → Outcome S
  pub chunk_bounds : List ℕ → List (ℕ × ℕ)

abbrev pub min_chunk : ℕ
min_chunk = 16 * 1024

abbrev pub max_chunk : ℕ
max_chunk = 256 * 1024

unfoldable pub hole_chunk : ℕ
hole_chunk = max_chunk

abbrev pub splice_margin : ℕ
splice_margin = 1

-- `checked_add` on 64 bits.
abbrev pub fits : ℕ → Bool
fits n = ltb n (2 ^ 64)

abbrev pub saturating_add : ℕ → ℕ → ℕ
saturating_add a b = min (a + b) (2 ^ 64 - 1)

abbrev pub head_len : List ChunkRef → ℕ
head_len cs = total_len cs

-- The loop of `covering_chunks`, with its `pos`. `break` drops what follows.
unfoldable pub covering_from : ℕ → ℕ → ℕ → List ChunkRef → List (Hash × ℕ × ℕ)
covering_from pos off end [] = []
covering_from pos off end (c ∷ cs) =
    let cend = pos + c.len in
    let rest = covering_from cend off end cs in
    let from = max off pos - pos in
    let to = min end cend - pos in
    if leb cend off then rest else if leb end pos then [] else (c.hash, from, to - from) ∷ rest

unfoldable pub covering_chunks : Manifest → ℕ → ℕ → List (Hash × ℕ × ℕ)
unfolding covering_from
covering_chunks m off end = covering_from 0 off end m.chunks

-- The pieces `data[off..off + len]` of a cut.
unfoldable pub pieces : List ℕ → List (ℕ × ℕ) → List (List ℕ)
pieces bytes [] = []
pieces bytes ((off, n) ∷ bounds) = take n (drop off bytes) ∷ pieces bytes bounds

-- `Vec::resize(n, 0)`.
abbrev pub resized : ℕ → List ℕ → List ℕ
resized n bytes = take n bytes ++ replicate (n - length bytes) 0

-- `region[at..at + data.len()].copy_from_slice(data)`.
abbrev pub copied : ℕ → List ℕ → List ℕ → List ℕ
copied at bytes region = take at region ++ (bytes ++ drop (at + length bytes) region)

-- The first loop of `resize_body`, with its `pos`: the chunks kept, and the one that straddles the
-- new end with where it starts.
unfoldable pub keep_from : ℕ → ℕ → List ChunkRef → List ChunkRef × Option (ChunkRef × ℕ)
keep_from pos size [] = ([], none)
keep_from pos size (c ∷ cs) =
    let rest = keep_from (pos + c.len) size cs in
    if leb (pos + c.len) size
    then (c ∷ rest.0, rest.1)
    else if ltb pos size
    then ([], some (c, pos))
    else ([], none)

-- `if !found { lo = i; found = true }; hi = i`.
unfoldable pub hit : ℕ → Option (ℕ × ℕ) → Option (ℕ × ℕ)
hit i none = some (i, i)
hit i (some (lo, hi)) = some (lo, i)

-- The loop of `splice_body` that finds the chunks which the written range meets.
unfoldable pub locate : ℕ → ℕ → ℕ → ℕ → Option (ℕ × ℕ) → List ChunkRef → Option (ℕ × ℕ)
unfolding hit
locate i pos off end found [] = found
locate i pos off end found (c ∷ cs) =
    let ce = pos + c.len in
    locate (suc i) ce off end (if ltb off ce && ltb pos end then hit i found else found) cs

-- The chunks to replace among `n`, as the numbers of those before them and of those up to their end:
-- those that the range meets, or else the last, with the margin on either side.
unfoldable pub widened : ℕ → Option (ℕ × ℕ) → ℕ × ℕ
widened n none = ((n - 1) - splice_margin, min ((n - 1) + splice_margin) (n - 1) + 1)
widened n (some (lo, hi)) = (lo - splice_margin, min (hi + splice_margin) (n - 1) + 1)

unfoldable pub span_of_write : ℕ → ℕ → List ChunkRef → ℕ × ℕ
unfolding locate widened
span_of_write off end [] = (0, 0)
span_of_write off end (c ∷ cs) = widened (length (c ∷ cs)) (locate 0 0 off end none (c ∷ cs))

module _ {S : Type 0} (calls : BodyCalls S) where
  -- A stream of whole chunks, collected.
  unfoldable pub read_chunks : S → List ChunkRef → Outcome (List ℕ)
  read_chunks s [] = ok []
  read_chunks s (c ∷ cs) = do part ← calls.get s c.hash; rest ← read_chunks s cs; ok (part ++ rest)

  -- A stream of windows of chunks, collected.
  unfoldable pub read_plan : S → List (Hash × ℕ × ℕ) → Outcome (List ℕ)
  read_plan s [] = ok []
  read_plan s ((hash, from, n) ∷ plan) = do
    part ← calls.get_range s hash from n
    rest ← read_plan s plan
    ok (part ++ rest)

  -- The end of `read_range` and of `vfs_read`, from the manifest on.
  unfoldable pub read_range : S → Manifest → ℕ → ℕ → Outcome (List ℕ)
  unfolding read_plan covering_chunks
  read_range s m off len =
      let end = min (saturating_add off len) m.size in
      if leb end off then ok [] else read_plan s (covering_chunks m off end)

  unfoldable pub load_manifest : S → Hash → Outcome Manifest
  load_manifest s h = do bytes ← calls.get s h; decode_manifest bytes

  unfoldable pub content_bytes : S → Hash → Outcome (List ℕ)
  unfolding load_manifest read_chunks
  content_bytes s h = do m ← load_manifest s h; read_chunks s m.chunks

  unfoldable pub put_piece : S → List ℕ → Outcome (ChunkRef × S)
  put_piece s bytes = do
    (h, s1) ← calls.put s bytes
    ok (record { hash = h; len = length bytes % 2 ^ 32 }, s1)

  unfoldable pub put_pieces : S → List (List ℕ) → Outcome (List ChunkRef × S)
  unfolding put_piece
  put_pieces s [] = ok ([], s)
  put_pieces s (p ∷ ps) = do (c, s1) ← put_piece s p; (cs, s2) ← put_pieces s1 ps; ok (c ∷ cs, s2)

  unfoldable pub append_chunked : S → List ChunkRef → List ℕ → Outcome (List ChunkRef × S)
  unfolding put_pieces pieces
  append_chunked s chunks bytes = do
    (fresh, s1) ← put_pieces s (pieces bytes (calls.chunk_bounds bytes))
    ok (chunks ++ fresh, s1)

  -- `n` chunks of `len` zeroes each, which share one object: a run of whole chunks, or the rest.
  unfoldable pub zero_run : S → ℕ → ℕ → Outcome (List ChunkRef × S)
  zero_run s n len = if n == 0 then ok ([], s) else (do
    (h, s1) ← calls.put s (replicate len 0)
    ok (replicate n (record { hash = h; len = len }), s1))

  unfoldable pub append_hole : S → List ChunkRef → ℕ → Outcome (List ChunkRef × S)
  unfolding zero_run hole_chunk
  append_hole s chunks len = do
    (whole, s1) ← zero_run s (len / hole_chunk) hole_chunk
    (rest, s2) ← zero_run s1 (min (len % hole_chunk) 1) (len % hole_chunk)
    ok (chunks ++ (whole ++ rest), s2)

  unfoldable pub zero_chunks : S → ℕ → Outcome (List ChunkRef × S)
  unfolding append_hole
  zero_chunks s len = append_hole s [] len

  unfoldable pub seal : S → Manifest → Outcome ((Option Hash × ℕ) × S)
  seal s m = do
    bytes ← encode_manifest m
    (h, s1) ← calls.put s bytes
    s2 ← calls.flush s1
    ok ((some h, m.size), s2)

  unfoldable pub address_of : S → Manifest → Outcome ((Option Hash × ℕ) × S)
  unfolding seal
  address_of s m = elim m.chunks [ [] ↦ ok ((none, m.size), s) | c ∷ cs ↦ seal s m ]

  unfoldable pub store_body : S → List ℕ → Outcome ((Option Hash × ℕ) × S)
  unfolding append_chunked seal
  store_body s [] = ok ((none, 0), s)
  store_body s (b ∷ bytes) = do
    (cs, s1) ← append_chunked s [] (b ∷ bytes)
    seal s1 (record { size = length (b ∷ bytes); chunks = cs })
