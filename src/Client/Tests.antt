-- ===== src/Client/Tests.antt =====
-- The reader and the writer at concrete inputs.
use cpp_interface.Prelude.{ℕ, ◌+◌, ◌-◌, ◌<◌, ◌≡◌, ◌⊎◌, refl, some, List, [], ◌∷◌, map, arith}
use cpp_interface.Buffer.{Buffer, buffer_size, memcpy, set, header_at}
use cpp_interface.Message.{Message, size, size_with_header}
use cpp_interface.Message.Frames.{Framed}
use cpp_interface.Client.Reader.{
  Reader, terminate, request_read, handle_messages, handle_read, receive, renew,
}
use cpp_interface.Client.Reader.Loop.{IsReader, pending, bytes_of}
use cpp_interface.Client.Reader.Stream.{
  handle_read-Framed, handle_read_one_byte_left, Reads, start, then_read, Reads-unique,
  Reads-HasRead, HasRead,
}

abbrev zeros : Buffer
zeros i = 0

abbrev fresh : Reader
fresh = record { in_buffer = zeros; in_start = 0; in_end = 0 }

fresh-IsReader : IsReader fresh
fresh-IsReader = record { ordered = omega arith; within = omega arith; bytes = λ i. omega arith }

-- A message of one byte, and the first byte of the next header.
abbrev stream : List ℕ
stream = 0 ∷ 1 ∷ 9 ∷ 0 ∷ []

abbrev buffered : Buffer
buffered = memcpy zeros 0 stream

abbrev at_start : Message
at_start = record { buffer = some buffered; offset = 0 }

one_read :
    handle_read zeros zeros (receive fresh stream) 4
    ≡ some (
      at_start ∷ [],
      record { in_buffer = buffered; in_start = 3; in_end = 4 },
      request_read 131068,
    )
unfolding handle_read handle_messages receive renew size_with_header size header_at memcpy set
one_read = refl

abbrev after_one : Reader
after_one = record { in_buffer = buffered; in_start = 3; in_end = 4 }

abbrev InOneRead : Type 0
InOneRead = Reads fresh stream (at_start ∷ []) after_one

read_at_once : InOneRead
unfolding handle_read handle_messages receive renew size_with_header size header_at memcpy set
read_at_once =
    then_read start zeros zeros stream (λ i. omega arith) (λ i. omega arith) (omega arith)
      (omega arith) (omega arith) refl

abbrev halfway : Reader
halfway = record { in_buffer = memcpy zeros 0 (0 ∷ 1 ∷ []); in_start = 0; in_end = 2 }

abbrev in_two : Buffer
in_two = memcpy halfway.in_buffer 2 (9 ∷ 0 ∷ [])

abbrev after_two : Reader
after_two = record { in_buffer = in_two; in_start = 3; in_end = 4 }

read_half : Reads fresh (0 ∷ 1 ∷ []) [] halfway
unfolding handle_read handle_messages receive renew size_with_header size header_at memcpy set
read_half =
    then_read start zeros zeros (0 ∷ 1 ∷ []) (λ i. omega arith) (λ i. omega arith) (omega arith)
      (omega arith) (omega arith) refl

read_in_parts : Reads fresh stream (record { buffer = some in_two; offset = 0 } ∷ []) after_two
unfolding handle_read handle_messages receive renew size_with_header size header_at memcpy set
read_in_parts =
    then_read read_half zeros zeros (9 ∷ 0 ∷ []) (λ i. omega arith) (λ i. omega arith) (omega arith)
      (omega arith) (omega arith) refl

handle_read-Framed_example :
    (ms : List Message) × (r' : Reader) × (handle_read zeros zeros (receive fresh stream) 4
      ≡ some (ms, r', request_read (buffer_size - r'.in_end)))
    × IsReader r'
    × Framed stream (map bytes_of ms) (pending r')
    × ((r'.in_end < buffer_size) ⊎ ((r'.in_end ≡ buffer_size) × (r'.in_end ≡ r'.in_start + 1)))
handle_read-Framed_example =
    handle_read-Framed fresh zeros zeros stream fresh-IsReader (λ i. omega arith) (λ i. omega arith)
      (omega arith) (omega arith) (omega arith)

Reads-unique_example :
    (bytes_of at_start ∷ [] ≡ bytes_of (record { buffer = some in_two; offset = 0 }) ∷ [])
    × (pending after_one ≡ pending after_two)
Reads-unique_example = Reads-unique fresh-IsReader tt read_at_once read_in_parts

Reads-HasRead_example : HasRead fresh stream (at_start ∷ []) after_one
Reads-HasRead_example = Reads-HasRead fresh-IsReader tt read_at_once

-- One byte is free at the end of the buffer, and all before it was handled.
abbrev near_end : Reader
near_end = record { in_buffer = zeros; in_start = 131071; in_end = 131071 }

near_end-IsReader : IsReader near_end
near_end-IsReader = record { ordered = omega arith; within = omega arith; bytes = λ i. omega arith }

handle_read_one_byte_left_example :
    (ms : List Message) × (r' : Reader) × (handle_read zeros zeros (receive near_end (5 ∷ [])) 1
      ≡ some (ms, r', request_read 0))
    × (map bytes_of ms ≡ [])
    × (pending r' ≡ 5 ∷ [])
    × (handle_read zeros zeros (receive r' []) 0 ≡ some ([], receive r' [], terminate))
handle_read_one_byte_left_example =
    handle_read_one_byte_left near_end zeros zeros zeros zeros (5 ∷ []) [] 5 near_end-IsReader
      (λ i. omega arith) (λ i. omega arith) (omega arith) (omega arith) (omega arith)
      (record { joined = refl; complete = tt; pending = tt })
