-- ===== src/Proto/Words.antt =====
-- `to_le_bytes` and `from_le_bytes` of the machine integers that cross the wire.
use pterm.Common.{
  ℕ, ◌+◌, ◌-◌, ◌*◌, ◌/◌, ◌%◌, ◌^◌, ◌<◌, ◌≡◌, arith, ltb, if◌then◌else◌, [], ◌∷◌, Bytes, ℤ, pos,
  negsuc,
}

unfoldable pub u16_to_le_bytes : ℕ → Bytes
u16_to_le_bytes v = (v % 256) ∷ (v / 256 % 256) ∷ []

unfoldable pub u16_from_le_bytes : ℕ → ℕ → ℕ
u16_from_le_bytes a b = a + b * 256

unfoldable pub u32_to_le_bytes : ℕ → Bytes
u32_to_le_bytes v = (v % 256) ∷ (v / 256 % 256) ∷ (v / 65536 % 256) ∷ (v / 16777216 % 256) ∷ []

unfoldable pub u32_from_le_bytes : ℕ → ℕ → ℕ → ℕ → ℕ
u32_from_le_bytes a b c d = a + b * 256 + c * 65536 + d * 16777216

-- An i32 is the integer; its bits are the two's complement pattern.
abbrev pub i32_bits : ℤ → ℕ
i32_bits (pos n) = n % 2 ^ 32
i32_bits (negsuc n) = 2 ^ 32 - 1 - n % 2 ^ 32

abbrev pub i32_of_bits : ℕ → ℤ
i32_of_bits w = if ltb w (2 ^ 31) then pos w else negsuc (2 ^ 32 - 1 - w)

abbrev pub IsI32 : ℤ → Type 0
IsI32 (pos n) = n < 2 ^ 31
IsI32 (negsuc n) = n < 2 ^ 31

pub i32_of_bits-i32_bits : (z : ℤ) → IsI32 z → i32_of_bits (i32_bits z) ≡ z
i32_of_bits-i32_bits (pos n) h = ground arith
i32_of_bits-i32_bits (negsuc n) h = ground arith

pub u32_from-to :
    (v : ℕ)
    → v < 2 ^ 32
    → u32_from_le_bytes (v % 256) (v / 256 % 256) (v / 65536 % 256) (v / 16777216 % 256) ≡ v
unfolding u32_from_le_bytes
u32_from-to v h = omega arith

pub u16_from-to : (v : ℕ) → v < 2 ^ 16 → u16_from_le_bytes (v % 256) (v / 256 % 256) ≡ v
unfolding u16_from_le_bytes
u16_from-to v h = omega arith

pub u32_to-from :
    (a b c d : ℕ)
    → a < 256
    → b < 256
    → c < 256
    → d < 256
    → u32_to_le_bytes (u32_from_le_bytes a b c d) ≡ a ∷ b ∷ c ∷ d ∷ []
unfolding u32_to_le_bytes u32_from_le_bytes
u32_to-from a b c d ha hb hc hd = ground arith

pub u32_from-lt :
    (a b c d : ℕ) → a < 256 → b < 256 → c < 256 → d < 256 → u32_from_le_bytes a b c d < 2 ^ 32
unfolding u32_from_le_bytes
u32_from-lt a b c d ha hb hc hd = omega arith
