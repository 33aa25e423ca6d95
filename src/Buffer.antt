-- ===== src/Buffer.antt =====
-- library/Pool.h, `Buffer`: a fixed array of bytes, as the function from an index to its byte.
pub mod Slices
use cpp_interface.Prelude.{
  ℕ, zero, suc, ◌+◌, ◌*◌, ◌<◌, List, [], ◌∷◌, if◌then◌else◌, ◌==◌, ltb, leb, ◌&&◌, ◌-◌, bit_or, ◌^◌,
  add_size,
}

-- `2 * (std::numeric_limits<std::uint16_t>::max () + 1u)`
abbrev pub buffer_size : ℕ
buffer_size = 2 * (65535 + 1)

abbrev pub Buffer : Type 0
Buffer = ℕ → ℕ

abbrev pub IsBytes : Buffer → Type 0
IsBytes b = (i : ℕ) → b i < 256

-- `buffer[k] = v`
unfoldable pub set : Buffer → ℕ → ℕ → Buffer
set b k v i = if i == k then v else b i

-- The bytes `buffer[k .. k + n)`.
abbrev pub slice : Buffer → ℕ → ℕ → List ℕ
slice b k zero = []
slice b k (suc n) = b k ∷ slice b (k + 1) n

-- `std::memcpy (&buffer[k], xs, size)` with the bytes `xs`; also what the kernel does on a read.
unfoldable pub memcpy : Buffer → ℕ → List ℕ → Buffer
memcpy b k [] = b
memcpy b k (x ∷ xs) = memcpy (set b k x) (k + 1) xs

-- The two bytes at `k`, most significant first: `static_cast<unsigned> (b[k] << CHAR_BIT) | b[k + 1]`.
unfoldable pub header_at : Buffer → ℕ → ℕ
header_at b k = bit_or (b k * 2 ^ 8) (b (add_size k 1))
