-- ===== src/Format/Headers.antt =====
-- What a header check answers on each kind of input.
use origofs.Base.{
  ℕ, ◌≡◌, ◌≤◌, refl, true, false, List, ◌∷◌, ◌++◌, text_eq_iff, ltb, ◌==◌, if◌then◌else◌, length,
  ok, err, arith, length-append, append_assoc, take_front, drop_front,
}
use origofs.Errors.{Outcome}
use origofs.Format.{
  ObjectKind, header, tagged, version_of, decode_with, unsupported, malformed, byte_at,
}

-- The kind's tag has four bytes, and it writes a version that it reads.
pub record IsKind (k : ObjectKind) : Type 0 where
  pub four : length k.tag ≡ 4
  pub written : 1 ≤ k.write_version
  pub readable : k.write_version ≤ k.max_read_version

module _ (k : ObjectKind) (v : ℕ) (rest : List ℕ) where
  tagged-bytes : length k.tag ≡ 4 → tagged k (k.tag ++ (v ∷ rest)) ≡ true
  unfolding tagged
  tagged-bytes h = ground (
    arith,
    length-append k.tag (v ∷ rest),
    take_front 4 k.tag (v ∷ rest) h,
    text_eq_iff k.tag k.tag,
  )

  byte_at-bytes : length k.tag ≡ 4 → byte_at (k.tag ++ (v ∷ rest)) 4 ≡ v
  byte_at-bytes h = rw (drop_front 4 k.tag (v ∷ rest) h, byte_at)

  -- Behind the tag the version byte decides: 0 is malformed, one past what the build reads is
  -- unsupported with the numbers of both, and any other is the version.
  pub version_of-bytes :
      length k.tag ≡ 4
      → version_of k (k.tag ++ (v ∷ rest)) ≡ (
          if v == 0
          then err malformed
          else if ltb k.max_read_version v
          then err (unsupported k v)
          else ok v)
  unfolding version_of
  version_of-bytes h = rw (tagged-bytes h) (rw (byte_at-bytes h))

-- An object of a version 1 kind goes to the version 1 decoder.
pub decode_with-header :
    {A : Type 0} (k : ObjectKind) (dec : List ℕ → Outcome A) (rest : List ℕ)
    → IsKind k
    → k.write_version ≡ 1
    → decode_with k dec (header k ++ rest) ≡ dec (header k ++ rest)
unfolding decode_with header
decode_with-header k dec rest h w =
    let e = version_of-bytes k k.write_version rest h.four in
    let f : version_of k (k.tag ++ (k.write_version ∷ rest)) ≡ ok 1 =
      ground (arith, e, h.written, h.readable) in
    rw (append_assoc, f) refl

-- A decoder that dispatches by version never reads bytes that lack the kind's tag.
pub decode_with-untagged :
    {A : Type 0} (k : ObjectKind) (dec : List ℕ → Outcome A) (bytes : List ℕ)
    → tagged k bytes ≡ false
    → decode_with k dec bytes ≡ err malformed
unfolding decode_with version_of
decode_with-untagged k dec bytes h = rw h
