-- ===== src/Format.antt =====
-- crates/origofs-core/src/format.rs: the header of every structured object, and the descriptor that
-- a store carries of the formats inside it.
pub mod Headers
pub mod Descriptor
use origofs.Base.{
  ℕ, suc, ◌+◌, ◌<◌, ◌≤◌, max, Bool, true, false, ◌&&◌, List, [], ◌∷◌, ◌++◌, Text, codes, text_eq,
  ltb, leb, ◌==◌, if◌then◌else◌, length, take, drop, ok, err, ◌>>=◌, ◌>>◌, guard,
}
use origofs.Errors.{OrigofsError, Outcome, content, unsupported_version}

pub record ObjectKind : Type 0 where
  pub tag : List ℕ
  pub name : Text
  pub write_version : ℕ
  pub max_read_version : ℕ

abbrev kind_of : ℕ → Text → ℕ → ℕ → ObjectKind
kind_of c name w r = record {
  tag = b'O' ∷ b'R' ∷ b'G' ∷ c ∷ [];
  name = name;
  write_version = w;
  max_read_version = r;
}

abbrev pub manifest_kind : ObjectKind
manifest_kind = kind_of b'M' (codes "manifest") 1 1

abbrev pub tree_kind : ObjectKind
tree_kind = kind_of b'T' (codes "tree") 1 1

abbrev pub commit_kind : ObjectKind
commit_kind = kind_of b'C' (codes "commit") 1 1

abbrev pub refs_kind : ObjectKind
refs_kind = kind_of b'R' (codes "ref snapshot") 1 1

abbrev pub store_kind : ObjectKind
store_kind = kind_of b'S' (codes "store descriptor") 1 1

abbrev pub pack_kind : ObjectKind
pack_kind = kind_of b'P' (codes "pack") 1 1

abbrev pub pack_index_kind : ObjectKind
pack_index_kind = kind_of b'I' (codes "pack index entry") 2 2

abbrev pub graph_kinds : List ObjectKind
graph_kinds = manifest_kind ∷ tree_kind ∷ commit_kind ∷ refs_kind ∷ []

abbrev pub header_len : ℕ
header_len = 5

abbrev pub min_reader : ℕ
min_reader = 1

-- `iter().map(..).max().unwrap_or(1)`, over a list that is not empty.
unfoldable pub greatest : (ObjectKind → ℕ) → List ObjectKind → ℕ
greatest f [] = 0
greatest f (k ∷ ks) = max (f k) (greatest f ks)

unfoldable pub current_format_version : ℕ
unfolding greatest
current_format_version = greatest (λ k. k.write_version) graph_kinds

unfoldable pub max_readable_format_version : ℕ
unfolding greatest
max_readable_format_version = greatest (λ k. k.max_read_version) graph_kinds

unfoldable pub header : ObjectKind → List ℕ
header k = k.tag ++ (k.write_version ∷ [])

unfoldable pub tagged : ObjectKind → List ℕ → Bool
tagged k bytes = leb header_len (length bytes) && text_eq (take 4 bytes) k.tag

abbrev pub malformed : OrigofsError
malformed = content

abbrev pub unsupported : ObjectKind → ℕ → OrigofsError
unsupported k found = unsupported_version k.name found k.max_read_version

-- `bytes[i]`; every caller has checked the length.
abbrev pub byte_at : List ℕ → ℕ → ℕ
byte_at bytes i = elim (drop i bytes) [ [] ↦ 0 | b ∷ _ ↦ b ]

unfoldable pub version_of : ObjectKind → List ℕ → Outcome ℕ
version_of k bytes =
    if tagged k bytes
    then if byte_at bytes 4 == 0
      then err malformed
      else if ltb k.max_read_version (byte_at bytes 4)
      then err (unsupported k (byte_at bytes 4))
      else ok (byte_at bytes 4)
    else err malformed

-- The `match version_of(bytes)? { 1 => decode_v1, v => unsupported }` of every version 1 kind.
unfoldable pub decode_with : {A : Type 0} → ObjectKind → (List ℕ → Outcome A) → List ℕ → Outcome A
decode_with k decode_v1 bytes = do
  v ← version_of k bytes
  if v == 1 then decode_v1 bytes else err (unsupported k v)

pub record StoreDescriptor : Type 0 where
  pub format_version : ℕ
  pub min_reader_version : ℕ

unfoldable pub current : StoreDescriptor
unfolding current_format_version
current = record { format_version = current_format_version; min_reader_version = min_reader }

unfoldable pub raised_over : StoreDescriptor → StoreDescriptor → StoreDescriptor
raised_over d cur = record {
  format_version = max d.format_version cur.format_version;
  min_reader_version = max d.min_reader_version cur.min_reader_version;
}

unfoldable pub encode_descriptor : StoreDescriptor → List ℕ
unfolding header
encode_descriptor d = header store_kind ++ (d.format_version ∷ d.min_reader_version ∷ [])

decode_descriptor_v1 : List ℕ → Outcome StoreDescriptor
decode_descriptor_v1 bytes = do
  guard (leb (header_len + 2) (length bytes)) malformed
  ok (record { format_version = byte_at bytes 5; min_reader_version = byte_at bytes 6 })

unfoldable pub decode_descriptor : List ℕ → Outcome StoreDescriptor
unfolding decode_with decode_descriptor_v1 version_of tagged
decode_descriptor bytes = decode_with store_kind decode_descriptor_v1 bytes

unfoldable pub check_readable : StoreDescriptor → Outcome (Unit {0})
unfolding max_readable_format_version
check_readable d =
    if ltb max_readable_format_version d.min_reader_version
    then err (unsupported_version (codes "store") d.min_reader_version max_readable_format_version)
    else ok tt
