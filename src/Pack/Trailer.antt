-- ===== src/Pack/Trailer.antt =====
-- The chunks that a trailer lists lie in the pack, one behind the other.
use origofs.Base.{
  ℕ, zero, suc, ◌+◌, ◌-◌, ◌/◌, ◌%◌, ◌^◌, ◌≡◌, ◌≤◌, refl, List, [], ◌∷◌, leb, ltb, ◌==◌, length,
  take, drop, ok, guard, from_le, >>=-eq-ok, arith,
}
use origofs.Errors.{content}
use origofs.Format.{pack_kind, version_of, unsupported}
use origofs.Pack.{PackChunk, footer_len, parse_chunks, parse_body, parse_trailer}

-- The chunks fill the bytes from one offset to another without a gap or an overlap.
abbrev pub Fill : ℕ → ℕ → List PackChunk → Type 0
Fill from to [] = from ≡ to
Fill from to (c ∷ cs) = (c.offset ≡ from) × Fill (from + c.len) to cs

Fill-parse_chunks :
    (n offset : ℕ) (trailer : List ℕ) (r : List PackChunk × ℕ)
    → parse_chunks n offset trailer ≡ ok r
    → Fill offset r.1 r.0
unfolding parse_chunks
Fill-parse_chunks zero offset trailer r h = let q : ([], offset) ≡ r = cc in rw (← q) refl
Fill-parse_chunks (suc n) offset trailer r h =
    let len = from_le (take 4 (drop 32 trailer)) in
    let (_, _, e) = >>=-eq-ok (guard (ltb (offset + len) (2 ^ 32)) content) _ h in
    let (rest, p, e') = >>=-eq-ok (parse_chunks n (offset + len) (drop 36 trailer)) _ e in
    let q : (record { hash = take 32 trailer; offset = offset; len = len } ∷ rest.0, rest.1) ≡ r =
      cc in
    rw (← q) (refl, Fill-parse_chunks n (offset + len) (drop 36 trailer) rest p)

Fill-parse_body :
    (pack : List ℕ) (len_at tlen : ℕ) (cs : List PackChunk)
    → parse_body pack len_at tlen ≡ ok cs
    → (tlen ≤ len_at) × Fill 0 (len_at - tlen) cs
unfolding parse_body
Fill-parse_body pack len_at tlen cs h =
    let (_, fits, e1) = >>=-eq-ok (guard (leb tlen len_at) content) _ h in
    let (_, _, e2) = >>=-eq-ok (guard ((tlen % 36) == 0) content) _ e1 in
    let (r, p, e3) = >>=-eq-ok (parse_chunks (tlen / 36) 0 (drop (len_at - tlen) pack)) _ e2 in
    let (_, g, e4) = >>=-eq-ok (guard (r.1 == (len_at - tlen)) content) _ e3 in
    let end : r.1 ≡ len_at - tlen = ground (arith, g) in
    let q : r.0 ≡ cs = cc in
    (
      ground (arith, fits),
      rw (← q) (rw (← end) (Fill-parse_chunks (tlen / 36) 0 (drop (len_at - tlen) pack) r p)),
    )

-- A trailer that parses lists chunks that fill the pack from its first byte, one behind the other, up
-- to a point before the nine bytes of the footer; whatever the bytes are, none lies outside the pack.
pub parse_trailer_sound :
    (pack : List ℕ) (cs : List PackChunk)
    → parse_trailer pack ≡ ok cs
    → (end : ℕ) × (end + footer_len ≤ length pack) × Fill 0 end cs
unfolding parse_trailer
parse_trailer_sound pack cs h =
    let len_at = length pack - footer_len in
    let tlen = from_le (take 4 (drop len_at pack)) in
    let (_, g, e1) = >>=-eq-ok (guard (leb footer_len (length pack)) content) _ h in
    let (v, _, e2) = >>=-eq-ok (version_of pack_kind (drop (len_at + 4) pack)) _ e1 in
    let (_, _, e3) = >>=-eq-ok (guard (v == 1) (unsupported pack_kind v)) _ e2 in
    let (a, f) = Fill-parse_body pack len_at tlen cs e3 in (len_at - tlen, ground (arith, g, a), f)
