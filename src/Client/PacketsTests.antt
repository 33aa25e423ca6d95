-- ===== src/Client/PacketsTests.antt =====
-- A client that counts the game packets and keeps the last one, and a stream of three frames.
use cpp_interface.Prelude.{
  ℕ, suc, ◌≡◌, refl, true, false, Option, none, some, List, [], ◌∷◌, ◌++◌, ◌-◌, ◌==◌, if◌then◌else◌,
  arith, length,
}
use cpp_interface.Buffer.{Buffer, IsBytes, buffer_size}
use cpp_interface.Message.Frames.{Framed}
use cpp_interface.Client.Reader.{Reader, request_read, receive}
use cpp_interface.Client.Reader.Loop.{IsReader, pending}
use cpp_interface.Client.Packets.{
  CoreMessage, Flatbuffers, Handlers, default_handlers, handle_read_with,
}
use cpp_interface.Client.Packets.Typed.{IsTyped, packets, Handed, tell_all}
use cpp_interface.Client.Packets.Dispatch.{handle_read_with-Handed}

-- The first byte of a payload is its type, the second what the packet holds; a payload of 9 does not
-- verify.
abbrev type_of : ℕ → CoreMessage
type_of n =
    if n == 1
    then CoreMessage.disconnect_signal
    else if n == 2
    then CoreMessage.game_packet
    else CoreMessage.unknown

abbrev head : List ℕ → ℕ
head [] = 0
head (a ∷ rest) = a

abbrev flat : Flatbuffers (List ℕ) (λ k. ℕ)
flat = record {
  get_root = λ xs. xs;
  verify = λ xs. if head xs == 9 then false else true;
  message_type = λ xs. type_of (head xs);
  message_as = λ k xs. some (length xs);
}

abbrev counting : Handlers (λ k. ℕ) (ℕ × Option ℕ)
counting = record (default_handlers {Payload = λ k. ℕ} {S = ℕ × Option ℕ}) {
  handle_game_packet = λ p s. (suc s.0, p);
}

abbrev zeros : Buffer
zeros i = 0

abbrev start : Reader
start = record { in_buffer = zeros; in_start = 0; in_end = 0 }

-- A game packet, a payload that does not verify, and another game packet.
abbrev chunk : List ℕ
chunk = 0 ∷ 1 ∷ 2 ∷ 0 ∷ 1 ∷ 9 ∷ 0 ∷ 2 ∷ 2 ∷ 5 ∷ []

zeros-IsBytes : IsBytes zeros
zeros-IsBytes i = omega arith

start-IsReader : IsReader start
start-IsReader = record { ordered = omega arith; within = omega arith; bytes = zeros-IsBytes }

flat-IsTyped : IsTyped flat
flat-IsTyped payload e k = (length payload, refl)

handle_read_with-Handed_example :
    (fs : List (List ℕ)) × (events : List ((k : CoreMessage) × ℕ)) × (r' : Reader) × (Framed
      (pending start ++ chunk)
      fs
      (pending r'))
    × (Handed flat (packets flat fs) events)
    × (handle_read_with flat counting zeros zeros (receive start chunk) 10 (0, none)
        ≡ some (tell_all counting events (0, none), r', request_read (buffer_size - r'.in_end)))
handle_read_with-Handed_example =
    handle_read_with-Handed flat counting start zeros zeros chunk (0, none) flat-IsTyped
      start-IsReader zeros-IsBytes zeros-IsBytes (omega arith) (omega arith) (omega arith)
