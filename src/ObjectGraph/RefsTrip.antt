-- ===== src/ObjectGraph/RefsTrip.antt =====
-- Ref snapshots survive encoding where every length fits its field, and not otherwise: the encoder
-- casts the lengths.
use origofs.Base.{
  ℕ, suc, ◌+◌, ◌^◌, ◌≡◌, ◌<◌, refl, ap, ◌∙◌, true, List, [], ◌∷◌, ◌++◌, append_assoc, length,
  length-append, take-append, drop-append, leb, Text, ok, le_bytes, from_le, from_le-le_bytes_two,
  from_le-le_bytes_four, from_le-le_bytes_eight, is_utf8, All, arith,
}
use native.Mathlib.Nat.{mod-eq_of_lt}
use origofs.Format.{refs_kind, header}
use origofs.Format.Headers.{IsKind, decode_with-header}
use origofs.ObjectGraph.{
  RefSnapshot, encode_ref, encode_ref_list, encode_refs, decode_value, decode_name, decode_ref,
  decode_ref_list, decode_refs_body, decode_refs_v1, decode_refs,
}

-- A ref whose name and value are UTF-8 and fit their length fields.
pub record IsRef (r : Text × Text) : Type 0 where
  pub name_utf8 : is_utf8 r.0 ≡ true
  pub value_utf8 : is_utf8 r.1 ≡ true
  pub name_fits : length r.0 < 2 ^ 16
  pub value_fits : length r.1 < 2 ^ 32

pub record IsSnapshot (s : RefSnapshot) : Type 0 where
  pub generation_fits : s.generation < 2 ^ 64
  pub count_fits : length s.refs < 2 ^ 32
  pub each : All IsRef s.refs

module _ (name value more : List ℕ) (h : IsRef (name, value)) where
  decode_value-bytes : decode_value name (length value) (value ++ more) ≡ ok ((name, value), more)
  unfolding decode_value
  decode_value-bytes =
      let a = length-append value more in
      let g : leb (length value) (length (value ++ more)) ≡ true = ground arith in
      rw g (rw (take-append value more, drop-append value more) (rw h.value_utf8))

  decode_name-bytes :
      decode_name (length name) (name ++ (le_bytes 4 (length value) ++ (value ++ more)))
      ≡ ok ((name, value), more)
  unfolding decode_name
  decode_name-bytes =
      let after = le_bytes 4 (length value) ++ (value ++ more) in
      let a = length-append name after in
      let g : leb (length name + 4) (length (name ++ after)) ≡ true = ground arith in
      rw g (
        rw (take-append name after, drop-append name after)
          (rw h.name_utf8 (
            ap (λ z. decode_value name z (value ++ more))
              (from_le-le_bytes_four (length value) h.value_fits)
            ∙ decode_value-bytes)))

  decode_ref-bytes : decode_ref (encode_ref (name, value) ++ more) ≡ ok ((name, value), more)
  unfolding decode_ref encode_ref
  decode_ref-bytes =
      let rest = name ++ (le_bytes 4 (length value) ++ (value ++ more)) in
      let g : leb 2 (suc (suc (length rest))) ≡ true = ground arith in
      rw (mod-eq_of_lt h.name_fits, mod-eq_of_lt h.value_fits)
        (rw append_assoc (
          rw g (
            ap (λ z. decode_name z rest) (from_le-le_bytes_two (length name) h.name_fits)
            ∙ decode_name-bytes)))

decode_ref_list-bytes :
    (rs : List (Text × Text))
    → All IsRef rs
    → decode_ref_list (length rs) (encode_ref_list rs) ≡ ok rs
unfolding decode_ref_list encode_ref_list
decode_ref_list-bytes [] h = refl
decode_ref_list-bytes ((n, v) ∷ rs) (h, hs) =
    rw (decode_ref-bytes n v (encode_ref_list rs) h) (rw (decode_ref_list-bytes rs hs))

pub refs_kind-IsKind : IsKind refs_kind
refs_kind-IsKind = omega arith

decode_refs_v1-bytes :
    (s : RefSnapshot)
    → IsSnapshot s
    → decode_refs_v1 (
        header refs_kind
        ++ (le_bytes 8 s.generation ++ (le_bytes 4 (length s.refs) ++ encode_ref_list s.refs)))
      ≡ ok s
unfolding decode_refs_v1 header
decode_refs_v1-bytes s h =
    let body = encode_ref_list s.refs in
    let g : leb 17 (
          suc (
            suc (
              suc (
                suc (
                  suc (
                    suc (
                      suc (
                        suc (
                          suc (suc (suc (suc (suc (suc (suc (suc (suc (length body))))))))))))))))))
        ≡ true =
      ground arith in
    let d : decode_refs_body s.generation (length s.refs) body ≡ ok s =
      unfold decode_refs_body in rw (decode_ref_list-bytes s.refs h.each) in
    rw g (
      ap (λ z. decode_refs_body z (from_le (le_bytes 4 (length s.refs))) body)
        (from_le-le_bytes_eight s.generation h.generation_fits)
      ∙ ap (λ z. decode_refs_body s.generation z body)
          (from_le-le_bytes_four (length s.refs) h.count_fits)
      ∙ d)

-- A snapshot whose generation, count, and lengths of names and values fit their fields, and whose
-- names and values are UTF-8, decodes to itself.
pub decode_refs-encode_refs : (s : RefSnapshot) → IsSnapshot s → decode_refs (encode_refs s) ≡ ok s
unfolding encode_refs decode_refs
decode_refs-encode_refs s h =
    rw (mod-eq_of_lt h.count_fits) (
      decode_with-header refs_kind decode_refs_v1 _ refs_kind-IsKind refl
      ∙ decode_refs_v1-bytes s h)
