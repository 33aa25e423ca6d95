-- ===== src/Client/Reader/Retain.antt =====
-- A handler may keep the message that it was given, and with it a reference to the buffer that the
-- reader goes on filling.
use native.Mathlib.Decide.{dec_lt}
use mathlib.Core.Option.{some-injective}
use cpp_interface.Prelude.{
  ℕ, ◌+◌, ◌≤◌, ◌<◌, ◌≡◌, ap, sym, ◌∙◌, none, some, List, length, All, arith, add_size,
}
use cpp_interface.Buffer.{Buffer, IsBytes, buffer_size, slice, memcpy, header_at}
use cpp_interface.Buffer.Slices.{memcpy_below, memcpy-IsBytes, slice-memcpy_below, length-slice}
use cpp_interface.Message.{Message, span, size_with_header, size}
use cpp_interface.Client.Reader.{Reader, receive}
use cpp_interface.Client.Reader.Loop.{IsReader, span-current}

abbrev at : Buffer → ℕ → Message
at b o = record { buffer = some b; offset = o }

abbrev whole : Buffer → ℕ → Reader
whole b o = record { in_buffer = b; in_start = o; in_end = buffer_size }

span-at :
    (b : Buffer) (o : ℕ)
    → IsBytes b
    → o + 2 ≤ buffer_size
    → span (at b o) ≡ some (slice b o (header_at b o + 2))
span-at b o bytes h =
    span-current (whole b o) (record { ordered = omega arith; within = omega arith; bytes = bytes })
      h

span-none : (b : Buffer) (o : ℕ) → o ≤ buffer_size → buffer_size < o + 2 → span (at b o) ≡ none
unfolding span size_with_header size
span-none b o k h = ground arith

header_at-memcpy :
    (b : Buffer) (xs : List ℕ) (k o : ℕ)
    → o + 2 ≤ k
    → k ≤ buffer_size
    → header_at (memcpy b k xs) o ≡ header_at b o
unfolding header_at
header_at-memcpy b xs k o h fits =
    rw (memcpy_below xs b k o (omega arith), memcpy_below xs b k (add_size o 1) (omega arith))

-- A message that lies below the end of what was read keeps its bytes while later reads are filled
-- into the same buffer.
span-receive :
    (r : Reader) (chunk : List ℕ) (o : ℕ) (xs : List ℕ)
    → IsReader r
    → All (λ x. x < 256) chunk
    → span (record { buffer = some r.in_buffer; offset = o }) ≡ some xs
    → o + length xs ≤ r.in_end
    → span (record { buffer = some (receive r chunk).in_buffer; offset = o }) ≡ some xs
unfolding receive
span-receive r chunk o xs v all e fits = elim (dec_lt buffer_size (o + 2)) [
  | yes past ↦ cc (span-none r.in_buffer o (omega (arith, v.within)) past)
  | no inside ↦
      let b : Buffer = r.in_buffer in
      let e₁ : slice b o (header_at b o + 2) ≡ xs =
        some-injective _ _ (sym (span-at b o v.bytes (omega arith)) ∙ e) in
      let n : header_at b o + 2 ≡ length xs =
        sym (length-slice b o (header_at b o + 2)) ∙ ap length e₁ in
      let same : header_at (memcpy b r.in_end chunk) o ≡ header_at b o =
        header_at-memcpy b chunk r.in_end o (omega arith) v.within in
      span-at (memcpy b r.in_end chunk) o (memcpy-IsBytes chunk b r.in_end all v.bytes)
        (omega arith)
      ∙ ap (λ k. some (slice (memcpy b r.in_end chunk) o (k + 2))) same
      ∙ ap some (slice-memcpy_below chunk b r.in_end o (header_at b o + 2) (omega arith) ∙ e₁)
]
