-- ===== src/Program/ExchangeTests.antt =====
-- Two packets that are sent and read back.
use cpp_interface.Prelude.{ℕ, suc, ◌≡◌, refl, Bool, true, false, some, List, [], ◌∷◌, map, arith}
use cpp_interface.Buffer.{Buffer, IsBytes, memcpy, set, header_at, buffer_size}
use cpp_interface.Message.{Message, size, size_with_header, span}
use cpp_interface.Client.Reader.{Reader, request_read, handle_messages, handle_read, receive, renew}
use cpp_interface.Client.Reader.Loop.{IsReader, pending}
use cpp_interface.Client.Reader.Stream.{Reads, start, then_read}
use cpp_interface.Client.Writer.{Writer}
use cpp_interface.Client.Writer.Unsent.{unsent}
use cpp_interface.Client.Writer.Calls.{IsGathered}
use cpp_interface.Client.Sends.{InterfaceMessage, Builder}
use cpp_interface.Program.{Answers}
use cpp_interface.Program.Sending.{IsReady, AreBytes}
use cpp_interface.Program.Exchange.{
  send_all, built, accepted, RoundTrips, interface_packet, send_all-decoded,
}

-- A packet says whether it is a stop command; it is serialized as one byte.
abbrev number : InterfaceMessage → Bool
number InterfaceMessage.stop_command = true
number _ = false

abbrev serialize : Bool → List ℕ
serialize true = 10 ∷ []
serialize false = 5 ∷ []

abbrev get_root : List ℕ → Bool
get_root (suc (suc (suc (suc (suc (suc n))))) ∷ xs) = true
get_root _ = false

abbrev flat : Builder Bool (λ k. Unit)
flat = record { set = λ k x. number k; serialize = serialize }

serialize-bytes : (p : Bool) → AreBytes (serialize p)
serialize-bytes true = omega arith
serialize-bytes false = omega arith

get_root-serialize : (p : Bool) → get_root (serialize p) ≡ p
get_root-serialize true = refl
get_root-serialize false = refl

flat-RoundTrips : RoundTrips flat get_root (λ xs. true)
flat-RoundTrips = record {
  bytes = serialize-bytes;
  verifies = λ p. refl;
  reads_back = get_root-serialize;
}

abbrev calls : List ((k : InterfaceMessage) × Unit {0})
calls = (InterfaceMessage.stop_command, tt) ∷ (InterfaceMessage.init_complete, tt) ∷ []

abbrev zeros : Buffer
zeros i = 0

zeros-IsBytes : IsBytes zeros
zeros-IsBytes i = omega arith

abbrev answers : Answers
answers k = (record { free = 64; accepts = true }, zeros)

answers-IsReady : IsReady answers
answers-IsReady k = (omega arith, zeros-IsBytes)

abbrev writer : Writer
writer = record { output_queue = []; iov = []; out_start = 0; writer_idle = true }

writer-IsGathered : IsGathered writer
writer-IsGathered = record {
  valid = record { whole = tt; started = refl; fewer = omega arith };
  gathered = omega arith;
}

abbrev reader : Reader
reader = record { in_buffer = zeros; in_start = 0; in_end = 0 }

reader-IsReader : IsReader reader
reader-IsReader = record { ordered = omega arith; within = omega arith; bytes = zeros-IsBytes }

abbrev stream : List ℕ
stream = 0 ∷ 1 ∷ 10 ∷ 0 ∷ 1 ∷ 5 ∷ []

abbrev filled : Buffer
filled = memcpy zeros 0 stream

abbrev messages : List Message
messages =
    record { buffer = some filled; offset = 0 } ∷ record { buffer = some filled; offset = 3 } ∷ []

one_read :
    handle_read zeros zeros (receive reader stream) 6
    ≡ some (messages, reader, request_read buffer_size)
unfolding handle_read handle_messages receive renew size_with_header size span header_at memcpy set
one_read = refl

stream-Reads : Reads reader stream messages reader
stream-Reads =
    then_read start zeros zeros stream zeros-IsBytes zeros-IsBytes (omega arith) (omega arith)
      (omega arith) one_read

send_all-decoded_example :
    (v : Writer) × (broken : Bool) × (send_all flat answers writer calls ≡ some (v, broken))
    × (unsent v ≡ stream)
    × (map (interface_packet flat get_root (λ xs. true)) messages
        ≡ map (λ p. some (some p)) (accepted flat (built flat calls)))
    × (pending reader ≡ [])
send_all-decoded_example =
    send_all-decoded flat get_root (λ xs. true) answers writer calls stream flat-RoundTrips
      answers-IsReady writer-IsGathered refl reader-IsReader refl refl stream-Reads
