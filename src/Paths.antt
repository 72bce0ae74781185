-- ===== src/Paths.antt =====
-- The string operations that paths are handled with, on the bytes of the string.
pub mod Laws
pub mod Split
use origofs.Base.{
  ℕ, zero, suc, ◌-◌, Bool, true, false, ◌&&◌, ◌||◌, Option, none, some, List, [], ◌∷◌, ◌++◌, Text,
  text_eq, codes, leb, ◌==◌, if◌then◌else◌, any_of,
}

abbrev pub slash : ℕ
slash = b'/'

abbrev pub is_empty : Text → Bool
is_empty [] = true
is_empty (_ ∷ _) = false

-- `starts_with('/')`.
abbrev pub starts_with_slash : Text → Bool
starts_with_slash [] = false
starts_with_slash (c ∷ _) = c == slash

-- `contains(c)` for an ASCII character.
abbrev pub has_byte : ℕ → Text → Bool
has_byte b s = any_of (λ c. c == b) s

-- `strip_prefix(prefix)`.
unfoldable pub strip_prefix : Text → Text → Option Text
strip_prefix [] s = some s
strip_prefix (c ∷ cs) [] = none
strip_prefix (c ∷ cs) (d ∷ ds) = let rest = strip_prefix cs ds in if c == d then rest else none

-- `split('/')`.
unfoldable push_first : ℕ → List Text → List Text
push_first c [] = (c ∷ []) ∷ []
push_first c (p ∷ ps) = (c ∷ p) ∷ ps

unfoldable pub split_slash : Text → List Text
unfolding push_first
split_slash [] = [] ∷ []
split_slash (c ∷ cs) =
    let rest = split_slash cs in if c == slash then [] ∷ rest else push_first c rest

abbrev pub dotdot : Text
dotdot = codes ".."

-- `split('/').any(|c| c == "..")`.
unfoldable pub has_dotdot : Text → Bool
unfolding split_slash
has_dotdot s = any_of (λ c. text_eq c dotdot) (split_slash s)

-- `trim_end_matches('/')`.
unfoldable pub trim_slashes : Text → Text
trim_slashes [] = []
trim_slashes (c ∷ cs) =
    let rest = trim_slashes cs in if is_empty rest && (c == slash) then [] else c ∷ rest

-- The text before the last `/`: `&s[..s.rfind('/')?]`.
unfoldable pub cut_last : Text → Option Text
cut_last [] = none
cut_last (c ∷ cs) = elim (cut_last cs) [
  | some p ↦ some (c ∷ p)
  | none ↦ if c == slash then some [] else none
]

-- The bytes of the character that the string begins with, if it is `char::is_whitespace`, else 0.
white_two : ℕ → ℕ → Bool
white_two a b = (a == 0xc2) && ((b == 0x85) || (b == 0xa0))

white_three : ℕ → ℕ → ℕ → Bool
white_three a b c =
    ((a == 0xe1) && (b == 0x9a) && (c == 0x80))
    || ((a == 0xe2)
        && (b == 0x80)
        && ((leb 0x80 c && leb c 0x8a) || (c == 0xa8) || (c == 0xa9) || (c == 0xaf)))
    || ((a == 0xe2) && (b == 0x81) && (c == 0x9f))
    || ((a == 0xe3) && (b == 0x80) && (c == 0x80))

white_one : ℕ → Bool
white_one a = (leb 9 a && leb a 13) || (a == 32)

white_front : Text → ℕ
unfolding white_one white_two white_three
white_front [] = 0
white_front (a ∷ []) = if white_one a then 1 else 0
white_front (a ∷ b ∷ []) = if white_one a then 1 else if white_two a b then 2 else 0
white_front (a ∷ b ∷ c ∷ _) =
    if white_one a then 1 else if white_two a b then 2 else if white_three a b c then 3 else 0

-- The same of the character that a string ends with, given the string backwards.
white_back : Text → ℕ
unfolding white_one white_two white_three
white_back [] = 0
white_back (a ∷ []) = if white_one a then 1 else 0
white_back (a ∷ b ∷ []) = if white_one a then 1 else if white_two b a then 2 else 0
white_back (a ∷ b ∷ c ∷ _) =
    if white_one a then 1 else if white_two b a then 2 else if white_three c b a then 3 else 0

-- Drops characters from the front while `width` says that one is white; the number counts the bytes
-- still to drop of the last one.
trim_by : (Text → ℕ) → ℕ → Text → Text
trim_by width _ [] = []
trim_by width (suc n) (c ∷ cs) = trim_by width n cs
trim_by width zero (c ∷ cs) =
    let w = width (c ∷ cs) in let rest = trim_by width (w - 1) cs in if w == 0 then c ∷ cs else rest

reverse_onto : Text → Text → Text
reverse_onto [] acc = acc
reverse_onto (c ∷ cs) acc = reverse_onto cs (c ∷ acc)

-- `trim()`.
unfoldable pub trim : Text → Text
unfolding trim_by white_front white_back reverse_onto
trim s = reverse_onto (trim_by white_back 0 (reverse_onto (trim_by white_front 0 s) [])) []
