-- ===== src/Chunk/Examples.antt =====
-- The manifest theorems at concrete inputs.
use origofs.Base.{ℕ, ◌≡◌, ◌+◌, ◌*◌, refl, List, [], ◌∷◌, ok, text_discrete, length, arith}
use origofs.Format.{decode_with, version_of, tagged, header}
use origofs.Chunk.{
  Manifest, encode_chunks, encode_manifest, decode_chunks, total_len, decode_body,
  decode_manifest_v1, decode_manifest,
}
use origofs.Chunk.RoundTrip.{IsManifest, decode_manifest-encode_manifest, decode_manifest_sound}

abbrev a_hash : List ℕ
a_hash =
    1 ∷ 2 ∷ 3 ∷ 4 ∷ 5 ∷ 6 ∷ 7 ∷ 8 ∷ 9 ∷ 10 ∷ 11 ∷ 12 ∷ 13 ∷ 14 ∷ 15 ∷ 16 ∷ 17 ∷ 18 ∷ 19 ∷ 20 ∷ 21
    ∷ 22 ∷ 23 ∷ 24 ∷ 25 ∷ 26 ∷ 27 ∷ 28 ∷ 29 ∷ 30 ∷ 31 ∷ 32 ∷ []

abbrev two_chunks : Manifest
two_chunks = record {
  size = 1000;
  chunks = record { hash = a_hash; len = 300 } ∷ record { hash = a_hash; len = 700 } ∷ [];
}

abbrev manifest_object : List ℕ
manifest_object = elim (encode_manifest two_chunks) [ ok bs ↦ bs | _ ↦ [] ]

encoded : encode_manifest two_chunks ≡ ok manifest_object
unfolding encode_manifest encode_chunks header
encoded = refl

decoded : decode_manifest manifest_object ≡ ok two_chunks
unfolding decode_manifest decode_with version_of tagged decode_manifest_v1 decode_body decode_chunks
    total_len encode_manifest encode_chunks header text_discrete
decoded = refl

two_chunks-IsManifest : IsManifest two_chunks
unfolding total_len
two_chunks-IsManifest = record {
  size_fits = omega arith;
  covers = refl;
  each = (
    record { hash_len = refl; len_fits = omega arith },
    (record { hash_len = refl; len_fits = omega arith }, tt),
  );
}

decode_manifest-encode_manifest_example : decode_manifest manifest_object ≡ ok two_chunks
decode_manifest-encode_manifest_example =
    decode_manifest-encode_manifest two_chunks manifest_object two_chunks-IsManifest encoded

decode_manifest_sound_example :
    (total_len two_chunks.chunks ≡ two_chunks.size)
    × (length manifest_object ≡ 17 + length two_chunks.chunks * 36)
decode_manifest_sound_example = decode_manifest_sound manifest_object two_chunks decoded
