-- ===== src/Prelude/Words.antt =====
-- Machine words: `unsigned` and `int` have 32 bits, `std::size_t` 64, a byte 8.
use Prim.Native.Nat.{ℕ, zero, suc, ◌+◌, ◌-◌, ◌*◌, ◌%◌, ◌^◌, ◌<◌, bit_or}
use mathlib.Core.Path.{◌≡◌, refl}
use mathlib.Core.Bool.{Bool, true, false, ◌&&◌}
use native.Mathlib.Omega.{arith}
use cpp_interface.Prelude.Tests.{◌==◌, ==→eq, ltb, if◌then◌else◌}

abbrev pub to_u8 : ℕ → ℕ
to_u8 a = a % 2 ^ 8

abbrev pub to_u32 : ℕ → ℕ
to_u32 a = a % 2 ^ 32

abbrev pub add_size : ℕ → ℕ → ℕ
add_size a b = (a + b) % 2 ^ 64

abbrev pub sub_size : ℕ → ℕ → ℕ
sub_size a b = (a + 2 ^ 64 - b) % 2 ^ 64

-- Whether a test passes on every byte from 0 up to some bound.
passes : (ℕ → Bool) → ℕ → Bool
passes test zero = true
passes test (suc bound) = passes test bound && test bound

passes→test : (test : ℕ → Bool) (bound k : ℕ) → k < bound → passes test bound ≡ true → test k ≡ true
unfolding passes
passes→test test zero k k_in all = absurd (omega arith)
passes→test test (suc bound) k k_in all = ground (arith, passes→test test bound k)

abbrev joins : ℕ → Bool
joins hi = passes (λ lo. bit_or (hi * 2 ^ 8) lo == hi * 2 ^ 8 + lo) 256

joins_everywhere : passes joins 256 ≡ true
unfolding passes
joins_everywhere = refl

-- Two bytes joined by shift and `|` are the number that they spell, most significant first.
pub bit_or-shift : (hi lo : ℕ) → hi < 256 → lo < 256 → bit_or (hi * 2 ^ 8) lo ≡ hi * 2 ^ 8 + lo
bit_or-shift hi lo hi_in lo_in =
    ==→eq _ _ (passes→test _ 256 lo lo_in (passes→test joins 256 hi hi_in joins_everywhere))

-- The signed numbers, `negsuc n` for `- (n + 1)`.
pub data ℤ : Type 0 where
  pos : ℕ → ℤ
  negsuc : ℕ → ℤ

abbrev pub is_zero : ℤ → Bool
is_zero (pos n) = n == 0
is_zero (negsuc n) = false

abbrev pub is_negative : ℤ → Bool
is_negative (pos n) = false
is_negative (negsuc n) = true

-- The low 32 bits of a signed number, as an unsigned one.
abbrev pub bits32 : ℤ → ℕ
bits32 (pos n) = n % 2 ^ 32
bits32 (negsuc n) = 2 ^ 32 - 1 - n % 2 ^ 32

-- The `int` with these 32 bits.
abbrev pub of_bits32 : ℕ → ℤ
of_bits32 b = if ltb b (2 ^ 31) then pos b else negsuc (2 ^ 32 - 1 - b)

-- A conversion to `int`, and one to `short`.
abbrev pub to_int : ℤ → ℤ
to_int z = of_bits32 (bits32 z)

abbrev pub bits16 : ℤ → ℕ
bits16 (pos n) = n % 2 ^ 16
bits16 (negsuc n) = 2 ^ 16 - 1 - n % 2 ^ 16

abbrev pub of_bits16 : ℕ → ℤ
of_bits16 b = if ltb b (2 ^ 15) then pos b else negsuc (2 ^ 16 - 1 - b)

abbrev pub to_short : ℤ → ℤ
to_short z = of_bits16 (bits16 z)
