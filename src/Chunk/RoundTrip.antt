-- ===== src/Chunk/RoundTrip.antt =====
-- Manifests survive encoding, and what decodes is consistent.
use origofs.Base.{
  ℕ, zero, suc, ◌+◌, ◌-◌, ◌*◌, ◌^◌, ◌≡◌, ◌<◌, ◌≤◌, min, refl, ap, ◌∙◌, true, List, [], ◌∷◌, ◌++◌,
  leb, ◌==◌, length, length-append, take, drop, take_front, drop_front, ok, guard, le_bytes,
  from_le, from_le-le_bytes_four, from_le-le_bytes_eight, All, arith, >>=-eq-ok, length-drop,
}
use origofs.Format.{manifest_kind, header, malformed, decode_with, version_of}
use origofs.Format.Headers.{IsKind, decode_with-header}
use origofs.ObjectGraph.{u32_len}
use origofs.ObjectGraph.Windows.{u32_len-ok}
use origofs.Chunk.{
  ChunkRef, Manifest, saturating_total, capacity_hint, max_reassembly_hint, encode_chunks,
  encode_manifest, decode_chunks, total_len, decode_body, decode_manifest_v1, decode_manifest,
}

-- What the Rust types say of a chunk reference.
pub record IsChunk (c : ChunkRef) : Type 0 where
  pub hash_len : length c.hash ≡ 32
  pub len_fits : c.len < 2 ^ 32

-- A manifest as the engine builds it: its size is the sum of its chunks.
pub record IsManifest (m : Manifest) : Type 0 where
  pub size_fits : m.size < 2 ^ 64
  pub covers : total_len m.chunks ≡ m.size
  pub each : All IsChunk m.chunks

length-encode_chunks :
    (cs : List ChunkRef) → All IsChunk cs → length (encode_chunks cs) ≡ length cs * 36
unfolding encode_chunks
length-encode_chunks [] h = refl
length-encode_chunks (c ∷ cs) (h, hs) = omega (
  arith,
  length-append c.hash (le_bytes 4 c.len ++ encode_chunks cs),
  length-encode_chunks cs hs,
  h.hash_len,
)

decode_chunks-bytes :
    (cs : List ChunkRef) → All IsChunk cs → decode_chunks (length cs) (encode_chunks cs) ≡ cs
unfolding encode_chunks decode_chunks
decode_chunks-bytes [] h = refl
decode_chunks-bytes (c ∷ cs) (h, hs) =
    let rest = le_bytes 4 c.len ++ encode_chunks cs in
    let f = from_le-le_bytes_four c.len h.len_fits in
    let ih = decode_chunks-bytes cs hs in
    rw (take_front 32 c.hash rest h.hash_len, drop_front 32 c.hash rest h.hash_len)
      (λ i. record { hash = c.hash; len = f i } ∷ ih i)

decode_body-bytes :
    (m : Manifest)
    → IsManifest m
    → decode_body m.size (length m.chunks) (encode_chunks m.chunks) ≡ ok m
unfolding decode_body
decode_body-bytes m h =
    let g : (length (encode_chunks m.chunks) == length m.chunks * 36) ≡ true =
      ground (arith, length-encode_chunks m.chunks h.each) in
    let g' : (total_len m.chunks == m.size) ≡ true = ground (arith, h.covers) in
    rw g (rw (decode_chunks-bytes m.chunks h.each) (rw g'))

manifest_kind-IsKind : IsKind manifest_kind
manifest_kind-IsKind = omega arith

manifest_bytes : Manifest → List ℕ
manifest_bytes m = le_bytes 8 m.size ++ (le_bytes 4 (length m.chunks) ++ encode_chunks m.chunks)

decode_manifest_v1-bytes :
    (m : Manifest)
    → IsManifest m
    → length m.chunks < 2 ^ 32
    → decode_manifest_v1 (header manifest_kind ++ manifest_bytes m) ≡ ok m
unfolding decode_manifest_v1 header manifest_bytes
decode_manifest_v1-bytes m h n =
    let body = encode_chunks m.chunks in
    let g : leb 17 (
          suc (
            suc (
              suc (
                suc (
                  suc (
                    suc (
                      suc (
                        suc (
                          suc (suc (suc (suc (suc (suc (suc (suc (suc (length body))))))))))))))))))
        ≡ true =
      ground arith in
    rw g (
      ap (λ z. decode_body z (from_le (le_bytes 4 (length m.chunks))) body)
        (from_le-le_bytes_eight m.size h.size_fits)
      ∙ ap (λ z. decode_body m.size z body) (from_le-le_bytes_four (length m.chunks) n)
      ∙ decode_body-bytes m h)

-- A manifest with 32-byte hashes and 32-bit lengths, whose size is their sum and has 64 bits, and
-- which encodes without an error, decodes to itself.
pub decode_manifest-encode_manifest :
    (m : Manifest) (bs : List ℕ)
    → IsManifest m
    → encode_manifest m ≡ ok bs
    → decode_manifest bs ≡ ok m
unfolding encode_manifest decode_manifest
decode_manifest-encode_manifest m bs h e =
    let (n, en, e') = >>=-eq-ok (u32_len m.chunks) _ e in
    let (small, q) = u32_len-ok m.chunks n en in
    let z : bs ≡ header manifest_kind ++ manifest_bytes m = unfold manifest_bytes in ground arith in
    rw z (
      decode_with-header manifest_kind decode_manifest_v1 (manifest_bytes m) manifest_kind-IsKind
        refl
      ∙ decode_manifest_v1-bytes m h small)

length-decode_chunks : (n : ℕ) (bytes : List ℕ) → length (decode_chunks n bytes) ≡ n
unfolding decode_chunks
length-decode_chunks zero bytes = refl
length-decode_chunks (suc n) bytes = ap suc (length-decode_chunks n (drop 4 (drop 32 bytes)))

decode_body-consistent :
    (size count : ℕ) (body : List ℕ) (m : Manifest)
    → decode_body size count body ≡ ok m
    → (total_len m.chunks ≡ m.size) × (length body ≡ length m.chunks * 36)
unfolding decode_body
decode_body-consistent size count body m h = ground (arith, length-decode_chunks count body)

decode_manifest_v1-consistent :
    (bytes : List ℕ) (m : Manifest)
    → decode_manifest_v1 bytes ≡ ok m
    → (total_len m.chunks ≡ m.size) × (length bytes ≡ 17 + length m.chunks * 36)
unfolding decode_manifest_v1
decode_manifest_v1-consistent bytes m h =
    let (u, g, e) = >>=-eq-ok (guard (leb 17 (length bytes)) malformed) _ h in
    let (p, q) =
      decode_body-consistent (from_le (take 8 (drop 5 bytes))) (from_le (take 4 (drop 13 bytes)))
        (drop 17 bytes) m e in
    (p, ground (arith, g, q, length-drop 17 bytes))

-- Whatever the bytes, a manifest that decodes lists chunks whose lengths add up to its size, and
-- the object has exactly 17 bytes of header and 36 bytes for each chunk.
pub decode_manifest_sound :
    (bytes : List ℕ) (m : Manifest)
    → decode_manifest bytes ≡ ok m
    → (total_len m.chunks ≡ m.size) × (length bytes ≡ 17 + length m.chunks * 36)
unfolding decode_manifest decode_with
decode_manifest_sound bytes m h =
    let (v, ev, e) = >>=-eq-ok (version_of manifest_kind bytes) _ h in
    let d : decode_manifest_v1 bytes ≡ ok m = ground arith in
    decode_manifest_v1-consistent bytes m d

saturating_total-le : (a : ℕ) (cs : List ChunkRef) → saturating_total a cs ≤ a + total_len cs
unfolding saturating_total total_len
saturating_total-le a [] = omega arith
saturating_total-le a (c ∷ cs) =
    omega (arith, saturating_total-le (min (a + c.len) (2 ^ 64 - 1)) cs)

-- The buffer reserved for a body is at most eight mebibytes, whatever the manifest declares, and no
-- larger than its chunks together.
pub capacity_hint_bounds :
    (m : Manifest)
    → (capacity_hint m ≤ max_reassembly_hint) × (capacity_hint m ≤ total_len m.chunks)
unfolding capacity_hint
capacity_hint_bounds m = omega (arith, saturating_total-le 0 m.chunks)
