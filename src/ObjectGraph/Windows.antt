-- ===== src/ObjectGraph/Windows.antt =====
-- Lengths that fit their field.
use origofs.Base.{ℕ, ◌^◌, ◌≡◌, ◌<◌, List, length, ok, arith}
use origofs.ObjectGraph.{u16_len, u32_len}

pub u16_len-ok : (xs : List ℕ) (n : ℕ) → u16_len xs ≡ ok n → (length xs < 2 ^ 16) × (n ≡ length xs)
u16_len-ok xs n h = ground arith

pub u32_len-ok :
    {A : Type 0} (xs : List A) (n : ℕ) → u32_len xs ≡ ok n → (length xs < 2 ^ 32) × (n ≡ length xs)
u32_len-ok xs n h = ground arith
