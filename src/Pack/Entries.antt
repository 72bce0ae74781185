-- ===== src/Pack/Entries.antt =====
-- Index entries survive encoding.
use origofs.Base.{
  ℕ, suc, ◌^◌, ◌≡◌, ◌<◌, refl, sym, ap, ◌∙◌, true, List, [], ◌∷◌, ◌++◌, append_assoc, ◌==◌, length,
  length-append, ◌>>=◌, take, drop, take_front, drop_front, ok, le_bytes, from_le,
  from_le-le_bytes_four, arith,
}
use origofs.Format.{pack_index_kind, header, version_of, byte_at}
use origofs.Format.Headers.{version_of-bytes}
use origofs.Pack.{
  addressing_code, PackLoc, encode_loc, decode_loc_at, decode_loc, loc_body, addressing_of,
}

-- What the Rust types say of an entry, and that it was not read from the old format.
pub record IsLoc (l : PackLoc) : Type 0 where
  pub pack_len : length l.pack ≡ 32
  pub offset_fits : l.offset < 2 ^ 32
  pub len_fits : l.len < 2 ^ 32
  pub current : addressing_of (addressing_code l.addressing) ≡ ok l.addressing

loc_bytes : PackLoc → List ℕ
loc_bytes l =
    l.pack ++ (le_bytes 4 l.offset ++ (le_bytes 4 l.len ++ (addressing_code l.addressing ∷ [])))

loc_body-bytes : (l : PackLoc) → IsLoc l → loc_body l.addressing (loc_bytes l) ≡ l
unfolding loc_body loc_bytes
loc_body-bytes l h =
    let last = addressing_code l.addressing ∷ [] in
    let lens = le_bytes 4 l.len ++ last in
    let front = l.pack ++ le_bytes 4 l.offset in
    let front_len : length front ≡ 36 =
      omega (arith, length-append l.pack (le_bytes 4 l.offset), h.pack_len) in
    let p = take_front 32 l.pack (le_bytes 4 l.offset ++ lens) h.pack_len in
    let o : from_le (take 4 (drop 32 (loc_bytes l))) ≡ l.offset =
      ap (λ z. from_le (take 4 z)) (drop_front 32 l.pack (le_bytes 4 l.offset ++ lens) h.pack_len)
      ∙ from_le-le_bytes_four l.offset h.offset_fits in
    let n : from_le (take 4 (drop 36 (loc_bytes l))) ≡ l.len =
      ap (λ z. from_le (take 4 (drop 36 z))) (sym (append_assoc l.pack (le_bytes 4 l.offset) lens))
      ∙ ap (λ z. from_le (take 4 z)) (drop_front 36 front lens front_len)
      ∙ from_le-le_bytes_four l.len h.len_fits in
    λ i. record { pack = p i; offset = o i; len = n i; addressing = l.addressing }

last_byte :
    (l : PackLoc) → length l.pack ≡ 32 → byte_at (loc_bytes l) 40 ≡ addressing_code l.addressing
unfolding loc_bytes
last_byte l h =
    let last = addressing_code l.addressing ∷ [] in
    let front = l.pack ++ (le_bytes 4 l.offset ++ le_bytes 4 l.len) in
    let front_len : length front ≡ 40 =
      omega (arith, length-append l.pack (le_bytes 4 l.offset ++ le_bytes 4 l.len), h) in
    ap (λ z. byte_at z 40)
      (sym (append_assoc l.pack (le_bytes 4 l.offset ++ le_bytes 4 l.len) last))
    ∙ ap (λ z. byte_at z 0) (drop_front 40 front last front_len)

length-loc_bytes : (l : PackLoc) → length l.pack ≡ 32 → length (loc_bytes l) ≡ 41
unfolding loc_bytes
length-loc_bytes l h = omega (
  arith,
  h,
  length-append l.pack
      (le_bytes 4 l.offset ++ (le_bytes 4 l.len ++ (addressing_code l.addressing ∷ []))),
)

decode_loc-version :
    (l : PackLoc) → version_of pack_index_kind (header pack_index_kind ++ loc_bytes l) ≡ ok 2
unfolding header
decode_loc-version l = version_of-bytes pack_index_kind 2 (loc_bytes l) refl

decode_loc_at-bytes :
    (l : PackLoc) → IsLoc l → decode_loc_at 2 (header pack_index_kind ++ loc_bytes l) ≡ ok l
unfolding decode_loc_at header
decode_loc_at-bytes l h =
    let g : (suc (suc (suc (suc (suc (length (loc_bytes l)))))) == 46) ≡ true =
      ground (arith, length-loc_bytes l h.pack_len) in
    rw g (
      ap (λ z. addressing_of z >>= (λ a. ok (loc_body a (loc_bytes l)))) (last_byte l h.pack_len)
      ∙ ap (λ z. z >>= (λ a. ok (loc_body a (loc_bytes l)))) h.current
      ∙ ap ok (loc_body-bytes l h))

-- An index entry that is not of the old format, with a 32-byte pack hash and a 32-bit offset and
-- length, decodes to itself.
decode_loc-encode_loc : (l : PackLoc) → IsLoc l → decode_loc (encode_loc l) ≡ ok l
unfolding encode_loc decode_loc loc_bytes
decode_loc-encode_loc l h =
    let bytes = header pack_index_kind ++ loc_bytes l in
    ap (λ z. z >>= (λ v. decode_loc_at v bytes)) (decode_loc-version l) ∙ decode_loc_at-bytes l h
