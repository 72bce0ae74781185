-- ===== src/Chunk.antt =====
-- crates/origofs-core/src/chunk.rs: the manifest of a file body, as bytes. `chunk_bounds` calls the
-- fastcdc crate and has no part here.
pub mod RoundTrip
mod Examples
use origofs.Base.{
  ℕ, zero, suc, ◌+◌, ◌-◌, ◌*◌, ◌^◌, ◌<◌, min, Bool, true, false, List, [], ◌∷◌, ◌++◌, leb, ltb,
  ◌==◌, if◌then◌else◌, length, take, drop, ok, err, ◌>>=◌, ◌>>◌, guard, le_bytes, from_le,
}
use origofs.Errors.{Outcome, corrupt}
use origofs.Format.{manifest_kind, header, decode_with, malformed}
use origofs.ObjectGraph.{Hash, u32_len}

abbrev pub manifest_header_len : ℕ
manifest_header_len = 17

abbrev pub entry_len : ℕ
entry_len = 36

abbrev pub max_reassembly_hint : ℕ
max_reassembly_hint = 8 * 1024 * 1024

abbrev pub usize_max : ℕ
usize_max = 2 ^ 64 - 1

pub record ChunkRef : Type 0 where
  pub hash : Hash
  pub len : ℕ

pub record Manifest : Type 0 where
  pub size : ℕ
  pub chunks : List ChunkRef

-- `fold(0usize, |a, c| a.saturating_add(c.len))`.
unfoldable pub saturating_total : ℕ → List ChunkRef → ℕ
saturating_total a [] = a
saturating_total a (c ∷ cs) = saturating_total (min (a + c.len) usize_max) cs

unfoldable pub capacity_hint : Manifest → ℕ
unfolding saturating_total
capacity_hint m = min (saturating_total 0 m.chunks) max_reassembly_hint

unfoldable pub encode_chunks : List ChunkRef → List ℕ
encode_chunks [] = []
encode_chunks (c ∷ cs) = c.hash ++ (le_bytes 4 c.len ++ encode_chunks cs)

unfoldable pub encode_manifest : Manifest → Outcome (List ℕ)
encode_manifest m = do
  count ← u32_len m.chunks
  ok (header manifest_kind ++ (le_bytes 8 m.size ++ (le_bytes 4 count ++ encode_chunks m.chunks)))

-- The loop of `decode_v1`; the length of the buffer has been checked against the count.
unfoldable pub decode_chunks : ℕ → List ℕ → List ChunkRef
decode_chunks zero bytes = []
decode_chunks (suc n) bytes =
    let after = drop 32 bytes in
    record { hash = take 32 bytes; len = from_le (take 4 after) } ∷ decode_chunks n (drop 4 after)

unfoldable pub total_len : List ChunkRef → ℕ
total_len [] = 0
total_len (c ∷ cs) = c.len + total_len cs

-- Behind the header, the size and the count. `total` cannot wrap: fewer than 2^32 chunks of less
-- than 2^32 bytes each.
unfoldable pub decode_body : ℕ → ℕ → List ℕ → Outcome Manifest
decode_body size count body = do
  guard (length body == count * entry_len) malformed
  let chunks = decode_chunks count body
  guard (total_len chunks == size) corrupt
  ok (record { size = size; chunks = chunks })

unfoldable pub decode_manifest_v1 : List ℕ → Outcome Manifest
decode_manifest_v1 bytes = do
  guard (leb manifest_header_len (length bytes)) malformed
  decode_body (from_le (take 8 (drop 5 bytes))) (from_le (take 4 (drop 13 bytes))) (drop 17 bytes)

unfoldable pub decode_manifest : List ℕ → Outcome Manifest
unfolding decode_with
decode_manifest bytes = decode_with manifest_kind decode_manifest_v1 bytes
