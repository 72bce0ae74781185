-- ===== src/Pack/Examples.antt =====
-- The pack's bytes at concrete inputs.
use origofs.Base.{
  ℕ, ◌+◌, ◌≡◌, ◌≤◌, refl, List, [], ◌∷◌, ◌++◌, length, ok, le_bytes, text_discrete, arith,
}
use origofs.Format.{pack_kind, header, version_of, tagged}
use origofs.Pack.{
  PackLoc, keyed, addressing_code, addressing_of, PackChunk, footer_len, parse_chunks, parse_body,
  parse_trailer,
}
use origofs.Pack.Entries.{IsLoc}
use origofs.Pack.Trailer.{Fill, parse_trailer_sound}

abbrev a_hash : List ℕ
a_hash =
    1 ∷ 2 ∷ 3 ∷ 4 ∷ 5 ∷ 6 ∷ 7 ∷ 8 ∷ 9 ∷ 10 ∷ 11 ∷ 12 ∷ 13 ∷ 14 ∷ 15 ∷ 16 ∷ 17 ∷ 18 ∷ 19 ∷ 20 ∷ 21
    ∷ 22 ∷ 23 ∷ 24 ∷ 25 ∷ 26 ∷ 27 ∷ 28 ∷ 29 ∷ 30 ∷ 31 ∷ 32 ∷ []

abbrev entry : PackLoc
entry = record { pack = a_hash; offset = 70000; len = 12; addressing = keyed }

entry-IsLoc : IsLoc entry
unfolding addressing_code addressing_of
entry-IsLoc = record {
  pack_len = refl;
  offset_fits = omega arith;
  len_fits = omega arith;
  current = refl;
}

-- A pack of one chunk of three bytes.
abbrev small_pack : List ℕ
small_pack = 9 ∷ 9 ∷ 9 ∷ (a_hash ++ (le_bytes 4 3 ++ (le_bytes 4 36 ++ header pack_kind)))

abbrev its_chunks : List PackChunk
its_chunks = record { hash = a_hash; offset = 0; len = 3 } ∷ []

parsed : parse_trailer small_pack ≡ ok its_chunks
unfolding parse_trailer parse_body parse_chunks version_of tagged header text_discrete
parsed = refl

parse_trailer_sound_example :
    (end : ℕ) × (end + footer_len ≤ length small_pack) × Fill 0 end its_chunks
parse_trailer_sound_example = parse_trailer_sound small_pack its_chunks parsed
