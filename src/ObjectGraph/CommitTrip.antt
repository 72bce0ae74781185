-- ===== src/ObjectGraph/CommitTrip.antt =====
-- Commits survive encoding.
use origofs.Base.{
  ℕ, suc, ◌+◌, ◌^◌, ◌≡◌, ◌<◌, ◌≤◌, refl, subst, ap, ◌∙◌, true, List, [], ◌∷◌, ◌++◌, append_assoc,
  append-nil, length, length-append, take, take-append, drop-append, take_front, drop_front, leb,
  ok, le_bytes, from_le, from_le-le_bytes_two, from_le-le_bytes_four, from_le-le_bytes_eight,
  is_utf8, All, arith, >>=-eq-ok,
}
use origofs.Format.{commit_kind, header}
use origofs.Format.Headers.{IsKind, decode_with-header}
use origofs.ObjectGraph.Windows.{u16_len-ok, u32_len-ok}
use origofs.ObjectGraph.{
  Hash, u16_len, u32_len, Commit, concat_hashes, encode_commit, decode_parents, decode_message,
  decode_author, decode_commit_tail, decode_commit_body, decode_commit_v1, decode_commit,
}

-- What the Rust types say of a commit.
pub record IsCommit (c : Commit) : Type 0 where
  pub tree_len : length c.tree ≡ 32
  pub parent_lens : All (λ h. length h ≡ 32) c.parents
  pub author_utf8 : is_utf8 c.author ≡ true
  pub message_utf8 : is_utf8 c.message ≡ true
  pub timestamp_fits : c.timestamp < 2 ^ 64

decode_parents-bytes :
    (hs : List Hash) (more : List ℕ)
    → All (λ h. length h ≡ 32) hs
    → decode_parents (length hs) (concat_hashes hs ++ more) ≡ ok (hs, more)
unfolding decode_parents concat_hashes
decode_parents-bytes [] more h = refl
decode_parents-bytes (x ∷ hs) more (h, k) =
    let rest = concat_hashes hs ++ more in
    let a = length-append x rest in
    let g : leb 32 (length (x ++ rest)) ≡ true = ground arith in
    rw append_assoc (
      rw g
        (rw (take_front 32 x rest h, drop_front 32 x rest h) (rw (decode_parents-bytes hs more k))))

module _ (c : Commit) (h : IsCommit c) where
  decode_message-bytes :
      decode_message c.tree c.parents c.timestamp c.author (length c.message) c.message ≡ ok c
  unfolding decode_message
  decode_message-bytes =
      let g : leb (length c.message) (length c.message) ≡ true = ground arith in
      let t : take (length c.message) c.message ≡ c.message =
        subst (λ z. take (length c.message) z ≡ c.message) (append-nil c.message)
          (take-append c.message []) in
      rw g (rw t (rw h.message_utf8))

  message_bytes : List ℕ
  message_bytes = le_bytes 4 (length c.message) ++ c.message

  decode_author-bytes :
      length c.message < 2 ^ 32
      → decode_author c.tree c.parents c.timestamp (length c.author) (c.author ++ message_bytes)
        ≡ ok c
  unfolding decode_author
  decode_author-bytes m =
      let a = length-append c.author message_bytes in
      let b : 4 ≤ length message_bytes = unfold message_bytes in omega arith in
      let g : leb (length c.author + 4) (length (c.author ++ message_bytes)) ≡ true =
        ground arith in
      rw g (
        rw (take-append c.author message_bytes, drop-append c.author message_bytes)
          (rw h.author_utf8 (
            unfold message_bytes in
            (ap (λ z. decode_message c.tree c.parents c.timestamp c.author z c.message)
                (from_le-le_bytes_four (length c.message) m)
              ∙ decode_message-bytes))))

  -- The bytes behind the parents.
  tail_bytes : List ℕ
  tail_bytes =
      le_bytes 8 c.timestamp ++ (le_bytes 2 (length c.author) ++ (c.author ++ message_bytes))

  decode_commit_tail-bytes :
      length c.author < 2 ^ 16
      → length c.message < 2 ^ 32
      → decode_commit_tail c.tree c.parents tail_bytes ≡ ok c
  unfolding decode_commit_tail tail_bytes
  decode_commit_tail-bytes a m =
      let rest = c.author ++ message_bytes in
      let g : leb 10 (suc (suc (suc (suc (suc (suc (suc (suc (suc (suc (length rest)))))))))))
          ≡ true =
        ground arith in
      rw g (
        ap (λ z. decode_author c.tree c.parents z (from_le (le_bytes 2 (length c.author))) rest)
          (from_le-le_bytes_eight c.timestamp h.timestamp_fits)
        ∙ ap (λ z. decode_author c.tree c.parents c.timestamp z rest)
            (from_le-le_bytes_two (length c.author) a)
        ∙ decode_author-bytes m)

  commit_body : List ℕ
  commit_body = c.tree ++ (le_bytes 4 (length c.parents) ++ (concat_hashes c.parents ++ tail_bytes))

  decode_commit_v1-bytes :
      length c.parents < 2 ^ 32
      → length c.author < 2 ^ 16
      → length c.message < 2 ^ 32
      → decode_commit_v1 (header commit_kind ++ commit_body) ≡ ok c
  unfolding decode_commit_v1 header commit_body
  decode_commit_v1-bytes p a m =
      let rest = concat_hashes c.parents ++ tail_bytes in
      let after = le_bytes 4 (length c.parents) ++ rest in
      let l = length-append c.tree after in
      let g : leb 41 (suc (suc (suc (suc (suc (length (c.tree ++ after))))))) ≡ true =
        ground (arith, h.tree_len) in
      let d : decode_commit_body c.tree (length c.parents) rest ≡ ok c =
        unfold decode_commit_body in
        rw (decode_parents-bytes c.parents tail_bytes h.parent_lens)
          (decode_commit_tail-bytes a m) in
      rw g (
        rw (take_front 32 c.tree after h.tree_len, drop_front 32 c.tree after h.tree_len)
          (ap (λ z. decode_commit_body c.tree z rest) (from_le-le_bytes_four (length c.parents) p)
            ∙ d))

commit_kind-IsKind : IsKind commit_kind
commit_kind-IsKind = omega arith

-- A commit with 32-byte hashes, UTF-8 author and message and a 64-bit timestamp, which encodes
-- without an error, decodes to itself.
pub decode_commit-encode_commit :
    (c : Commit) (bs : List ℕ) → IsCommit c → encode_commit c ≡ ok bs → decode_commit bs ≡ ok c
unfolding encode_commit decode_commit
decode_commit-encode_commit c bs h e =
    let (np, ep, e1) = >>=-eq-ok (u32_len c.parents) _ e in
    let (na, ea, e2) = >>=-eq-ok (u16_len c.author) _ e1 in
    let (nm, em, e3) = >>=-eq-ok (u32_len c.message) _ e2 in
    let (p, qp) = u32_len-ok c.parents np ep in
    let (a, qa) = u16_len-ok c.author na ea in
    let (m, qm) = u32_len-ok c.message nm em in
    let z : bs ≡ header commit_kind ++ commit_body c h =
      unfold commit_body tail_bytes message_bytes in ground arith in
    rw z (
      decode_with-header commit_kind decode_commit_v1 (commit_body c h) commit_kind-IsKind refl
      ∙ decode_commit_v1-bytes c h p a m)
