-- ===== src/ObjectGraph/RefsWrap.antt =====
-- What the cast of a name's length costs: such a snapshot is written, and does not come back.
use origofs.Base.{
  ℕ, zero, suc, ◌%◌, ◌^◌, ◌≡◌, ◌≢◌, ◌<◌, ◌≤◌, refl, sym, subst, ap, ◌∙◌, List, [], ◌∷◌, ◌++◌,
  length, take, drop, leb, Text, ok, guard, le_bytes, from_le, arith, >>=-eq-ok,
}
use origofs.Format.{refs_kind, header, malformed}
use origofs.Format.Headers.{decode_with-header}
use origofs.ObjectGraph.{
  RefSnapshot, encode_ref, encode_ref_list, encode_refs, decode_value, decode_name, decode_ref,
  decode_ref_list, decode_refs_body, decode_refs_v1, decode_refs,
}
use origofs.ObjectGraph.RefsTrip.{refs_kind-IsKind}

length-take-le : (n : ℕ) (xs : List ℕ) → length (take n xs) ≤ n
length-take-le zero xs = omega arith
length-take-le (suc n) [] = omega arith
length-take-le (suc n) (x ∷ xs) = omega (arith, length-take-le n xs)

decode_name-short :
    (k : ℕ) (rest : List ℕ) (n v m : List ℕ) → decode_name k rest ≡ ok ((n, v), m) → length n ≤ k
unfolding decode_name decode_value
decode_name-short k rest n v m h = let e = length-take-le k rest in ground arith

decode_ref-short :
    (bytes : List ℕ) (p : (Text × Text) × List ℕ)
    → decode_ref bytes ≡ ok p
    → length p.0.0 ≤ from_le (take 2 bytes)
unfolding decode_ref
decode_ref-short bytes ((n, v), m) h =
    let (_, _, e) = >>=-eq-ok (guard (leb 2 (length bytes)) malformed) _ h in
    decode_name-short (from_le (take 2 bytes)) (drop 2 bytes) n v m e

decode_ref_list-short :
    (c : ℕ) (bytes : List ℕ) (r : Text × Text) (rs : List (Text × Text))
    → decode_ref_list c bytes ≡ ok (r ∷ rs)
    → length r.0 ≤ from_le (take 2 bytes)
unfolding decode_ref_list
decode_ref_list-short zero bytes r rs h = cc
decode_ref_list-short (suc c) bytes r rs h =
    let (p, e, e') = >>=-eq-ok (decode_ref bytes) _ h in
    let (rs', f, f') = >>=-eq-ok (decode_ref_list c p.1) _ e' in
    let q : p.0 ≡ r = cc in
    subst (λ z. length z.0 ≤ from_le (take 2 bytes)) q (decode_ref-short bytes p e)

decode_refs_v1-inv :
    (x y : ℕ) (body : List ℕ) (s : RefSnapshot)
    → decode_refs_v1 (header refs_kind ++ (le_bytes 8 x ++ (le_bytes 4 y ++ body))) ≡ ok s
    → decode_ref_list (from_le (le_bytes 4 y)) body ≡ ok s.refs
unfolding decode_refs_v1 decode_refs_body header
decode_refs_v1-inv x y body s h =
    let bytes = header refs_kind ++ (le_bytes 8 x ++ (le_bytes 4 y ++ body)) in
    let (_, _, e) = >>=-eq-ok (guard (leb 17 (length bytes)) malformed) _ h in
    let (rs, f, e') = >>=-eq-ok (decode_ref_list (from_le (le_bytes 4 y)) body) _ e in
    let q : rs ≡ s.refs = cc in f ∙ ap ok q

name_field :
    (name value : Text) (rs : List (Text × Text))
    → from_le (take 2 (encode_ref_list ((name, value) ∷ rs))) < 2 ^ 16
unfolding encode_ref_list encode_ref
name_field name value rs = omega arith

-- A snapshot whose first name is 65536 bytes or longer is encoded without an error, and what was
-- written never decodes to it.
pub encode_refs-wraps :
    (generation : ℕ) (name value : Text) (rs : List (Text × Text))
    → 2 ^ 16 ≤ length name
    → decode_refs (encode_refs (record { generation = generation; refs = (name, value) ∷ rs }))
      ≢ ok (record { generation = generation; refs = (name, value) ∷ rs })
unfolding decode_refs encode_refs
encode_refs-wraps generation name value rs long h =
    let s : RefSnapshot = record { generation = generation; refs = (name, value) ∷ rs } in
    let body = encode_ref_list s.refs in
    let count = le_bytes 4 (length s.refs % 2 ^ 32) in
    let after = le_bytes 8 generation ++ (count ++ body) in
    let e : decode_refs_v1 (header refs_kind ++ after) ≡ ok s =
      sym (decode_with-header refs_kind decode_refs_v1 after refs_kind-IsKind refl) ∙ h in
    let g = decode_refs_v1-inv generation (length s.refs % 2 ^ 32) body s e in
    let short = decode_ref_list-short (from_le count) body (name, value) rs g in
    absurd (omega (arith, name_field name value rs))
