-- ===== src/ObjectGraph.antt =====
-- crates/origofs-core/src/objectgraph.rs: trees, commits and ref snapshots as bytes. An offset into
-- the buffer is the list of the bytes from there on; `off + n > bytes.len()` asks whether fewer
-- than `n` are left. A hash is a list of 32 bytes.
pub mod Windows
pub mod TreeTrip
pub mod CommitTrip
pub mod RefsTrip
pub mod RefsWrap
mod Examples
use origofs.Base.{
  ℕ, zero, suc, ◌+◌, ◌*◌, ◌^◌, ◌%◌, ◌<◌, Bool, true, false, List, [], ◌∷◌, ◌++◌, Option, none, some,
  Text, leb, ltb, ◌==◌, if◌then◌else◌, length, take, drop, Result, ok, err, ◌>>=◌, ◌>>◌, guard,
  ok_or, le_bytes, from_le, is_utf8,
}
use origofs.Errors.{OrigofsError, Outcome, too_large}
use origofs.Format.{
  ObjectKind, tree_kind, commit_kind, refs_kind, header, decode_with, malformed, byte_at,
}

abbrev pub Hash : Type 0
Hash = List ℕ

-- A `u16` or `u32` holds the length of a string or a list: `try_from(len)`.
abbrev pub u16_len : List ℕ → Outcome ℕ
u16_len xs = if ltb (length xs) (2 ^ 16) then ok (length xs) else err too_large

abbrev pub u32_len : {A : Type 0} → List A → Outcome ℕ
u32_len xs = if ltb (length xs) (2 ^ 32) then ok (length xs) else err too_large

-- `String::from_utf8(..).map_err(bad)`.
abbrev pub from_utf8 : List ℕ → Outcome Text
from_utf8 bs = if is_utf8 bs then ok bs else err malformed

pub data TreeKind : Type 0 where
  file dir symlink : TreeKind

unfoldable pub kind_code : TreeKind → ℕ
kind_code file = 0
kind_code dir = 1
kind_code symlink = 2

unfoldable pub from_code : ℕ → Option TreeKind
from_code c =
    if c == 0 then some file else if c == 1 then some dir else if c == 2 then some symlink else none

pub record TreeEntry : Type 0 where
  pub name : Text
  pub mode : ℕ
  pub kind : TreeKind
  pub hash : Hash

pub record Tree : Type 0 where
  pub entries : List TreeEntry

unfoldable pub encode_entry : TreeEntry → Outcome (List ℕ)
unfolding kind_code
encode_entry e = do
  name_len ← u16_len e.name
  ok (kind_code e.kind ∷ (le_bytes 4 e.mode ++ (le_bytes 2 name_len ++ (e.name ++ e.hash))))

unfoldable pub encode_entries : List TreeEntry → Outcome (List ℕ)
encode_entries [] = ok []
encode_entries (e ∷ es) = do b ← encode_entry e; bs ← encode_entries es; ok (b ++ bs)

unfoldable pub encode_tree : Tree → Outcome (List ℕ)
encode_tree t = do
  count ← u32_len t.entries
  body ← encode_entries t.entries
  ok (header tree_kind ++ (le_bytes 4 count ++ body))

-- One round of the loop of `Tree::decode_v1`: the entry, and the bytes behind it. First what stands
-- behind the seven bytes of its fixed fields.
unfoldable pub decode_entry_tail : TreeKind → ℕ → ℕ → List ℕ → Outcome (TreeEntry × List ℕ)
decode_entry_tail kind mode name_len rest = do
  guard (leb (name_len + 32) (length rest)) malformed
  name ← from_utf8 (take name_len rest)
  let after = drop name_len rest
  ok (record { name = name; mode = mode; kind = kind; hash = take 32 after }, drop 32 after)

unfoldable pub decode_entry : List ℕ → Outcome (TreeEntry × List ℕ)
unfolding from_code
decode_entry bytes = do
  guard (leb 7 (length bytes)) malformed
  kind ← ok_or (from_code (byte_at bytes 0)) malformed
  decode_entry_tail kind (from_le (take 4 (drop 1 bytes))) (from_le (take 2 (drop 5 bytes)))
      (drop 7 bytes)

unfoldable pub decode_entries : ℕ → List ℕ → Outcome (List TreeEntry)
decode_entries zero bytes = ok []
decode_entries (suc n) bytes = do
  (e, rest) ← decode_entry bytes
  es ← decode_entries n rest
  ok (e ∷ es)

unfoldable pub decode_tree_v1 : List ℕ → Outcome Tree
decode_tree_v1 bytes = do
  guard (leb 9 (length bytes)) malformed
  es ← decode_entries (from_le (take 4 (drop 5 bytes))) (drop 9 bytes)
  ok (record { entries = es })

unfoldable pub decode_tree : List ℕ → Outcome Tree
unfolding decode_with
decode_tree bytes = decode_with tree_kind decode_tree_v1 bytes

pub record Commit : Type 0 where
  pub tree : Hash
  pub parents : List Hash
  pub author : Text
  pub message : Text
  -- The 64 bits of the `i64` as an unsigned number.
  pub timestamp : ℕ

unfoldable pub concat_hashes : List Hash → List ℕ
concat_hashes [] = []
concat_hashes (h ∷ hs) = h ++ concat_hashes hs

unfoldable pub encode_commit : Commit → Outcome (List ℕ)
unfolding concat_hashes
encode_commit c = do
  count ← u32_len c.parents
  author_len ← u16_len c.author
  msg_len ← u32_len c.message
  ok (
      header commit_kind
      ++ (c.tree
          ++ (le_bytes 4 count
              ++ (concat_hashes c.parents
                  ++ (le_bytes 8 c.timestamp
                      ++ (le_bytes 2 author_len
                          ++ (c.author ++ (le_bytes 4 msg_len ++ c.message))))))))

unfoldable pub decode_parents : ℕ → List ℕ → Outcome (List Hash × List ℕ)
decode_parents zero bytes = ok ([], bytes)
decode_parents (suc n) bytes = do
  guard (leb 32 (length bytes)) malformed
  (hs, rest) ← decode_parents n (drop 32 bytes)
  ok (take 32 bytes ∷ hs, rest)

-- The message, its length read.
unfoldable pub decode_message : Hash → List Hash → ℕ → Text → ℕ → List ℕ → Outcome Commit
decode_message tree parents timestamp author msg_len last = do
  guard (leb msg_len (length last)) malformed
  message ← from_utf8 (take msg_len last)
  ok (record {
    tree = tree;
    parents = parents;
    author = author;
    message = message;
    timestamp = timestamp;
  })

unfoldable pub decode_author : Hash → List Hash → ℕ → ℕ → List ℕ → Outcome Commit
decode_author tree parents timestamp author_len rest = do
  guard (leb (author_len + 4) (length rest)) malformed
  author ← from_utf8 (take author_len rest)
  let after = drop author_len rest
  decode_message tree parents timestamp author (from_le (take 4 after)) (drop 4 after)

-- What stands behind the parents.
unfoldable pub decode_commit_tail : Hash → List Hash → List ℕ → Outcome Commit
decode_commit_tail tree parents bytes = do
  guard (leb 10 (length bytes)) malformed
  decode_author tree parents (from_le (take 8 bytes)) (from_le (take 2 (drop 8 bytes)))
      (drop 10 bytes)

unfoldable pub decode_commit_body : Hash → ℕ → List ℕ → Outcome Commit
decode_commit_body tree count bytes = do
  (parents, rest) ← decode_parents count bytes
  decode_commit_tail tree parents rest

unfoldable pub decode_commit_v1 : List ℕ → Outcome Commit
decode_commit_v1 bytes = do
  guard (leb 41 (length bytes)) malformed
  let after = drop 32 (drop 5 bytes)
  decode_commit_body (take 32 (drop 5 bytes)) (from_le (take 4 after)) (drop 4 after)

unfoldable pub decode_commit : List ℕ → Outcome Commit
unfolding decode_with
decode_commit bytes = decode_with commit_kind decode_commit_v1 bytes

pub record RefSnapshot : Type 0 where
  pub generation : ℕ
  pub refs : List (Text × Text)

-- The lengths are cast with `as u16` and `as u32`, which wrap.
unfoldable pub encode_ref : Text × Text → List ℕ
encode_ref (name, value) =
    le_bytes 2 (length name % 2 ^ 16) ++ (name ++ (le_bytes 4 (length value % 2 ^ 32) ++ value))

unfoldable pub encode_ref_list : List (Text × Text) → List ℕ
encode_ref_list [] = []
encode_ref_list (r ∷ rs) = encode_ref r ++ encode_ref_list rs

unfoldable pub encode_refs : RefSnapshot → List ℕ
encode_refs s =
    header refs_kind
    ++ (le_bytes 8 s.generation ++ (le_bytes 4 (length s.refs % 2 ^ 32) ++ encode_ref_list s.refs))

unfoldable pub decode_value : Text → ℕ → List ℕ → Outcome ((Text × Text) × List ℕ)
decode_value name val_len last = do
  guard (leb val_len (length last)) malformed
  value ← from_utf8 (take val_len last)
  ok ((name, value), drop val_len last)

unfoldable pub decode_name : ℕ → List ℕ → Outcome ((Text × Text) × List ℕ)
decode_name name_len rest = do
  guard (leb (name_len + 4) (length rest)) malformed
  name ← from_utf8 (take name_len rest)
  let after = drop name_len rest
  decode_value name (from_le (take 4 after)) (drop 4 after)

-- One round of the loop of `RefSnapshot::decode_v1`.
unfoldable pub decode_ref : List ℕ → Outcome ((Text × Text) × List ℕ)
decode_ref bytes = do
  guard (leb 2 (length bytes)) malformed
  decode_name (from_le (take 2 bytes)) (drop 2 bytes)

unfoldable pub decode_ref_list : ℕ → List ℕ → Outcome (List (Text × Text))
decode_ref_list zero bytes = ok []
decode_ref_list (suc n) bytes = do
  (r, rest) ← decode_ref bytes
  rs ← decode_ref_list n rest
  ok (r ∷ rs)

unfoldable pub decode_refs_body : ℕ → ℕ → List ℕ → Outcome RefSnapshot
decode_refs_body generation count bytes = do
  rs ← decode_ref_list count bytes
  ok (record { generation = generation; refs = rs })

unfoldable pub decode_refs_v1 : List ℕ → Outcome RefSnapshot
decode_refs_v1 bytes = do
  guard (leb 17 (length bytes)) malformed
  decode_refs_body (from_le (take 8 (drop 5 bytes))) (from_le (take 4 (drop 13 bytes)))
      (drop 17 bytes)

unfoldable pub decode_refs : List ℕ → Outcome RefSnapshot
unfolding decode_with
decode_refs bytes = decode_with refs_kind decode_refs_v1 bytes
