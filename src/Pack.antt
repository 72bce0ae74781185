-- ===== src/Pack.antt =====
-- crates/origofs-core/src/pack.rs: the entry of the pack index, and the trailer of a pack, as bytes.
pub mod Entries
pub mod Trailer
mod Examples
use origofs.Base.{
  ℕ, zero, suc, ◌+◌, ◌-◌, ◌*◌, ◌/◌, ◌%◌, ◌^◌, Bool, true, false, List, [], ◌∷◌, ◌++◌, leb, ltb,
  ◌==◌, if◌then◌else◌, length, take, drop, ok, err, ◌>>=◌, ◌>>◌, guard, le_bytes, from_le,
}
use origofs.Errors.{Outcome, content}
use origofs.Format.{pack_kind, pack_index_kind, header, version_of, malformed, unsupported, byte_at}
use origofs.ObjectGraph.{Hash}

pub data Addressing : Type 0 where
  content_addressed keyed legacy : Addressing

unfoldable pub addressing_code : Addressing → ℕ
addressing_code content_addressed = 0
addressing_code legacy = 0
addressing_code keyed = 1

pub record PackLoc : Type 0 where
  pub pack : Hash
  pub offset : ℕ
  pub len : ℕ
  pub addressing : Addressing

abbrev pub loc_entry_v1 : ℕ
loc_entry_v1 = 45

abbrev pub loc_entry_v2 : ℕ
loc_entry_v2 = 46

unfoldable pub encode_loc : PackLoc → List ℕ
unfolding header addressing_code
encode_loc l =
    header pack_index_kind
    ++ (l.pack
        ++ (le_bytes 4 l.offset ++ (le_bytes 4 l.len ++ (addressing_code l.addressing ∷ []))))

-- What stands behind the header, given how the entry says it is addressed.
unfoldable pub loc_body : Addressing → List ℕ → PackLoc
loc_body addressing body = record {
  pack = take 32 body;
  offset = from_le (take 4 (drop 32 body));
  len = from_le (take 4 (drop 36 body));
  addressing = addressing;
}

unfoldable pub addressing_of : ℕ → Outcome Addressing
addressing_of c =
    if c == 0 then ok content_addressed else if c == 1 then ok keyed else err malformed

-- What follows the version check.
unfoldable pub decode_loc_at : ℕ → List ℕ → Outcome PackLoc
unfolding loc_body addressing_of
decode_loc_at v b =
    if v == 1
    then (if length b == loc_entry_v1 then ok (loc_body legacy (drop 5 b)) else err malformed)
    else if v == 2
    then (if length b == loc_entry_v2
        then addressing_of (byte_at b 45) >>= (λ a. ok (loc_body a (drop 5 b)))
        else err malformed)
    else err (unsupported pack_index_kind v)

unfoldable pub decode_loc : List ℕ → Outcome PackLoc
unfolding version_of decode_loc_at
decode_loc b = version_of pack_index_kind b >>= (λ v. decode_loc_at v b)

-- A chunk of a pack: its hash, offset and length.
pub record PackChunk : Type 0 where
  pub hash : Hash
  pub offset : ℕ
  pub len : ℕ

abbrev pub footer_len : ℕ
footer_len = 9

-- The loop of `parse_trailer`, and the offset that it ends at.
unfoldable pub parse_chunks : ℕ → ℕ → List ℕ → Outcome (List PackChunk × ℕ)
parse_chunks zero offset trailer = ok ([], offset)
parse_chunks (suc n) offset trailer = do
  let len = from_le (take 4 (drop 32 trailer))
  guard (ltb (offset + len) (2 ^ 32)) content
  rest ← parse_chunks n (offset + len) (drop 36 trailer)
  ok (record { hash = take 32 trailer; offset = offset; len = len } ∷ rest.0, rest.1)

-- Behind the version check, with the trailer's length read.
unfoldable pub parse_body : List ℕ → ℕ → ℕ → Outcome (List PackChunk)
unfolding parse_chunks
parse_body pack len_at tlen = do
  guard (leb tlen len_at) content
  guard ((tlen % 36) == 0) content
  chunks ← parse_chunks (tlen / 36) 0 (drop (len_at - tlen) pack)
  guard (chunks.1 == (len_at - tlen)) content
  ok chunks.0

unfoldable pub parse_trailer : List ℕ → Outcome (List PackChunk)
unfolding version_of parse_body
parse_trailer pack = do
  guard (leb footer_len (length pack)) content
  let len_at = length pack - footer_len
  v ← version_of pack_kind (drop (len_at + 4) pack)
  guard (v == 1) (unsupported pack_kind v)
  parse_body pack len_at (from_le (take 4 (drop len_at pack)))
