-- ===== src/ObjectGraph/TreeTrip.antt =====
-- Trees survive encoding.
use origofs.Base.{
  ℕ, suc, ◌+◌, ◌^◌, ◌≡◌, ◌<◌, refl, ap, ◌∙◌, true, some, List, [], ◌∷◌, ◌++◌, append_assoc,
  append-nil, length, length-append, take-append, drop-append, take_front, drop_front, leb, ok,
  ◌>>=◌, le_bytes, from_le, from_le-le_bytes_two, from_le-le_bytes_four, is_utf8, All, arith,
  >>=-eq-ok,
}
use origofs.Format.{tree_kind, header}
use origofs.Format.Headers.{IsKind, decode_with-header}
use origofs.ObjectGraph.Windows.{u32_len-ok}
use origofs.ObjectGraph.{
  u32_len, TreeKind, file, dir, symlink, kind_code, from_code, TreeEntry, Tree, encode_entry,
  encode_entries, encode_tree, decode_entry_tail, decode_entry, decode_entries, decode_tree_v1,
  decode_tree,
}

-- What the Rust types say of an entry: a UTF-8 name, a `u32` mode and 32 bytes of hash.
pub record IsEntry (e : TreeEntry) : Type 0 where
  pub utf8 : is_utf8 e.name ≡ true
  pub mode_fits : e.mode < 2 ^ 32
  pub hash_len : length e.hash ≡ 32

entry_bytes : TreeEntry → List ℕ
entry_bytes e =
    kind_code e.kind ∷ (le_bytes 4 e.mode ++ (le_bytes 2 (length e.name) ++ (e.name ++ e.hash)))

from_code-kind_code : (k : TreeKind) → from_code (kind_code k) ≡ some k
unfolding from_code kind_code
from_code-kind_code file = refl
from_code-kind_code dir = refl
from_code-kind_code symlink = refl

decode_entry_tail-bytes :
    (e : TreeEntry) (more : List ℕ)
    → IsEntry e
    → decode_entry_tail e.kind e.mode (length e.name) (e.name ++ (e.hash ++ more)) ≡ ok (e, more)
unfolding decode_entry_tail
decode_entry_tail-bytes e more h =
    let a = length-append e.name (e.hash ++ more) in
    let b = length-append e.hash more in
    let g : leb (length e.name + 32) (length (e.name ++ (e.hash ++ more))) ≡ true =
      ground (arith, h.hash_len) in
    rw g (
      rw (take-append e.name (e.hash ++ more), drop-append e.name (e.hash ++ more))
        (rw h.utf8
          (rw (take_front 32 e.hash more h.hash_len, drop_front 32 e.hash more h.hash_len))))

decode_entry-bytes :
    (e : TreeEntry) (more : List ℕ)
    → IsEntry e
    → length e.name < 2 ^ 16
    → decode_entry (entry_bytes e ++ more) ≡ ok (e, more)
unfolding decode_entry entry_bytes
decode_entry-bytes e more h n =
    let rest = e.name ++ (e.hash ++ more) in
    let g : leb 7 (suc (suc (suc (suc (suc (suc (suc (length rest)))))))) ≡ true = ground arith in
    rw append_assoc (
      rw g (
        rw (from_code-kind_code e.kind) (
          ap (λ z. decode_entry_tail e.kind z (from_le (le_bytes 2 (length e.name))) rest)
            (from_le-le_bytes_four e.mode h.mode_fits)
          ∙ ap (λ z. decode_entry_tail e.kind e.mode z rest)
              (from_le-le_bytes_two (length e.name) n)
          ∙ decode_entry_tail-bytes e more h)))

encode_entry-bytes :
    (e : TreeEntry) {bs : List ℕ}
    → encode_entry e ≡ ok bs
    → (length e.name < 2 ^ 16) × (bs ≡ entry_bytes e)
unfolding encode_entry entry_bytes
encode_entry-bytes e h = ground arith

decode_entries-bytes :
    (es : List TreeEntry) (more : List ℕ) {bs : List ℕ}
    → All IsEntry es
    → encode_entries es ≡ ok bs
    → decode_entries (length es) (bs ++ more) ≡ ok es
unfolding encode_entries decode_entries
decode_entries-bytes [] more h e = refl
decode_entries-bytes (x ∷ es) more {bs} (h, hs) e =
    let (b, eb, e') = >>=-eq-ok (encode_entry x) _ e in
    let (c, ec, e'') = >>=-eq-ok (encode_entries es) _ e' in
    let (n, q) = encode_entry-bytes x eb in
    let z : bs ≡ entry_bytes x ++ c = ground arith in
    rw (z, append_assoc, decode_entry-bytes x (c ++ more) h n)
      (rw (decode_entries-bytes es more hs ec))

tree_kind-IsKind : IsKind tree_kind
tree_kind-IsKind = omega arith

decode_tree_v1-bytes :
    (t : Tree) (n : ℕ) (body : List ℕ)
    → n < 2 ^ 32
    → decode_entries n body ≡ ok t.entries
    → decode_tree_v1 (header tree_kind ++ (le_bytes 4 n ++ body)) ≡ ok t
unfolding decode_tree_v1 header
decode_tree_v1-bytes t n body h e =
    let len = length body in
    let g : leb 9 (suc (suc (suc (suc (suc (suc (suc (suc (suc len))))))))) ≡ true = ground arith in
    let f : (decode_entries (from_le (le_bytes 4 n)) body) ≡ ok t.entries =
      ap (λ z. decode_entries z body) (from_le-le_bytes_four n h) ∙ e in
    rw g (ap (λ r. r >>= λ es. ok (record { entries = es })) f)

-- A tree whose entries have UTF-8 names, 32-bit modes and 32-byte hashes, and which encodes without
-- an error, decodes to itself.
pub decode_tree-encode_tree :
    (t : Tree) (bs : List ℕ) → All IsEntry t.entries → encode_tree t ≡ ok bs → decode_tree bs ≡ ok t
unfolding encode_tree decode_tree
decode_tree-encode_tree t bs h e =
    let (n, en, e') = >>=-eq-ok (u32_len t.entries) _ e in
    let (body, eb, e'') = >>=-eq-ok (encode_entries t.entries) _ e' in
    let (small, q) = u32_len-ok t.entries n en in
    let f : decode_entries n body ≡ ok t.entries =
      rw q (rw append-nil at (decode_entries-bytes t.entries [] h eb)) in
    let z : bs ≡ header tree_kind ++ (le_bytes 4 n ++ body) = ground arith in
    rw z (
      decode_with-header tree_kind decode_tree_v1 (le_bytes 4 n ++ body) tree_kind-IsKind refl
      ∙ decode_tree_v1-bytes t n body (omega arith) f)
