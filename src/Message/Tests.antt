-- ===== src/Message/Tests.antt =====
-- Messages at concrete inputs.
use cpp_interface.Prelude.{ℕ, ◌≡◌, refl, true, some, List, [], ◌∷◌, arith}
use cpp_interface.Buffer.{Buffer, IsBytes, memcpy, set}
use cpp_interface.Message.{size, size_with_header, encode}
use cpp_interface.Message.Encoding.{decode-encode}

abbrev zeros : Buffer
zeros i = 0

abbrev two_bytes : List ℕ
two_bytes = 7 ∷ 8 ∷ []

abbrev filled : Buffer
filled = memcpy (set (set zeros 0 0) 1 2) 2 two_bytes

filled_lem : encode zeros two_bytes ≡ some filled
unfolding encode
filled_lem = refl

size-filled : size_with_header (record { buffer = some filled; offset = 0 }) ≡ some 4
unfolding size_with_header size cpp_interface.Buffer.header_at memcpy set
size-filled = refl

decode-encode_example : size (record { buffer = some filled; offset = 0 }) ≡ some 2
unfolding encode
decode-encode_example =
    (decode-encode (λ xs. xs) (λ xs. true) zeros filled two_bytes true (λ i. omega arith)
      (omega arith) refl).0
