-- ===== src/Base/Bytes.antt =====
-- Byte strings: little-endian numbers, fixed windows, and UTF-8.
use Prim.Native.Nat.{ℕ, zero, suc, ◌+◌, ◌*◌, ◌/◌, ◌%◌, ◌^◌, ◌<◌}
use mathlib.Core.Path.{◌≡◌}
use mathlib.Core.Bool.{Bool, true, false, ◌&&◌}
use mathlib.Core.List.{List, [], ◌∷◌, ◌++◌}
use native.Mathlib.Omega.{arith}
use origofs.Base.Tests.{leb, ltb, ◌==◌, if◌then◌else◌}
use origofs.Base.Lists.{length, take, drop, take-append, drop-append}

-- `to_le_bytes` of a `w`-byte unsigned integer.
abbrev pub le_bytes : ℕ → ℕ → List ℕ
le_bytes zero n = []
le_bytes (suc w) n = (n % 256) ∷ le_bytes w (n / 256)

-- `from_le_bytes`.
abbrev pub from_le : List ℕ → ℕ
from_le [] = 0
from_le (b ∷ bs) = b + 256 * from_le bs

pub from_le-le_bytes_two : (n : ℕ) → n < 2 ^ 16 → from_le (le_bytes 2 n) ≡ n
from_le-le_bytes_two n h = omega arith

pub from_le-le_bytes_four : (n : ℕ) → n < 2 ^ 32 → from_le (le_bytes 4 n) ≡ n
from_le-le_bytes_four n h = omega arith

pub from_le-le_bytes_eight : (n : ℕ) → n < 2 ^ 64 → from_le (le_bytes 8 n) ≡ n
from_le-le_bytes_eight n h = omega arith

-- A window of a buffer that begins with it.
pub take_front : (n : ℕ) (xs ys : List ℕ) → length xs ≡ n → take n (xs ++ ys) ≡ xs
take_front n xs ys h = rw (← h) (take-append xs ys)

pub drop_front : (n : ℕ) (xs ys : List ℕ) → length xs ≡ n → drop n (xs ++ ys) ≡ ys
drop_front n xs ys h = rw (← h) (drop-append xs ys)

-- Where a UTF-8 decoder stands: between characters, or before the bytes still due. The four last
-- states follow the lead bytes E0, ED, F0 and F4, whose next byte has a narrower range.
pub data Utf8State : Type 0 where
  start one two three after_e0 after_ed after_f0 after_f4 invalid : Utf8State

abbrev within : ℕ → ℕ → ℕ → Bool
within lo hi b = leb lo b && leb b hi

lead : ℕ → Utf8State
lead b =
    if ltb b 0x80
    then start
    else if within 0xc2 0xdf b
    then one
    else if b == 0xe0
    then after_e0
    else if b == 0xed
    then after_ed
    else if within 0xe1 0xef b
    then two
    else if b == 0xf0
    then after_f0
    else if within 0xf1 0xf3 b
    then three
    else if b == 0xf4
    then after_f4
    else invalid

step : Utf8State → ℕ → Utf8State
unfolding lead
step start b = lead b
step one b = if within 0x80 0xbf b then start else invalid
step two b = if within 0x80 0xbf b then one else invalid
step three b = if within 0x80 0xbf b then two else invalid
step after_e0 b = if within 0xa0 0xbf b then one else invalid
step after_ed b = if within 0x80 0x9f b then one else invalid
step after_f0 b = if within 0x90 0xbf b then two else invalid
step after_f4 b = if within 0x80 0x8f b then two else invalid
step invalid b = invalid

utf8_from : Utf8State → List ℕ → Bool
utf8_from start [] = true
utf8_from _ [] = false
utf8_from s (b ∷ bs) = utf8_from (step s b) bs

-- `std::str::from_utf8` accepts the bytes.
unfoldable pub is_utf8 : List ℕ → Bool
unfolding utf8_from step
is_utf8 bs = utf8_from start bs
