-- ===== src/Client/WriterTests.antt =====
-- The writer, and both directions together, at concrete inputs.
use cpp_interface.Prelude.{◌≡◌, inl, refl, true, false, some, [], ◌∷◌, arith}
use cpp_interface.Buffer.{Buffer, memcpy, set, header_at}
use cpp_interface.Message.{Message, size, size_with_header, span}
use cpp_interface.Message.Encoding.{written}
use cpp_interface.Client.Reader.{Reader, handle_messages, handle_read, receive, renew}
use cpp_interface.Client.Reader.Loop.{pending, bytes_of}
use cpp_interface.Client.Reader.Stream.{Reads, start, then_read}
use cpp_interface.Client.Writer.{
  Writer, Ring, nothing, wakeup, writes, gather, linked, submit, request_write_locked,
  request_write, enqueue, consume, after_write, handle_write, send_message,
}
use cpp_interface.Client.Writer.Unsent.{IsWhole}
use cpp_interface.Client.Writer.Requests.{IsWriter}
use cpp_interface.Client.Writer.Calls.{IsGathered}
use cpp_interface.Client.Writer.History.{
  Runs, begin, then_send, then_complete, Runs-Delivers, Delivers,
}
use cpp_interface.Client.Writer.Partial.{handle_write_partial}
use cpp_interface.Client.Writer.Packets.{packet, packet-IsWhole}
use cpp_interface.Client.Wire.{Reads-Runs}

abbrev zeros : Buffer
zeros i = 0

abbrev ring : Ring
ring = record { free = 64; accepts = true }

abbrev idle_writer : Writer
idle_writer = record { output_queue = []; iov = []; out_start = 0; writer_idle = true }

idle-IsGathered : IsGathered idle_writer
idle-IsGathered = record {
  valid = record { whole = tt; started = refl; fewer = omega arith };
  gathered = inl refl;
}

abbrev nine : Message
nine = packet zeros (9 ∷ [])

nine-IsWhole : IsWhole nine
nine-IsWhole = packet-IsWhole zeros (9 ∷ []) (λ i. omega arith) (omega arith) (omega arith)

abbrev one_sent : Writer
one_sent = record {
  output_queue = nine ∷ [];
  iov = (0 ∷ 1 ∷ 9 ∷ []) ∷ [];
  out_start = 0;
  writer_idle = false;
}

send_nine :
    send_message ring idle_writer nine
    ≡ some (one_sent, writes (record { bytes = 0 ∷ 1 ∷ 9 ∷ []; link = false } ∷ []))
unfolding send_message request_write_locked gather linked submit span size_with_header size
    header_at memcpy set written
send_nine = refl

write_nine : handle_write ring one_sent 3 ≡ some (idle_writer, nothing)
unfolding handle_write after_write consume size_with_header size header_at memcpy set written
write_nine = refl

one_sent-IsWriter : IsWriter one_sent
unfolding span size_with_header size header_at memcpy set written
one_sent-IsWriter = record {
  whole = (nine-IsWhole, tt);
  started = omega arith;
  fewer = omega arith;
}

handle_write_partial_example :
    (handle_write ring one_sent 2 ≡ some (record one_sent { out_start = 2 }, nothing))
    × (request_write ring (record one_sent { out_start = 2 })
        ≡ some (record one_sent { out_start = 2 }, nothing))
    × (send_message ring (record one_sent { out_start = 2 }) nine
        ≡ some (enqueue (record one_sent { out_start = 2 }) nine, wakeup))
unfolding span size_with_header size header_at memcpy set written
handle_write_partial_example =
    handle_write_partial ring ring nine nine [] (0 ∷ 1 ∷ 9 ∷ []) [] 0 2 false one_sent-IsWriter
      (omega arith) (omega arith) (omega arith)

-- One message is sent, and written in full.
all_written : Runs idle_writer ((0 ∷ 1 ∷ 9 ∷ []) ∷ []) (0 ∷ 1 ∷ 9 ∷ []) idle_writer
unfolding send_message request_write_locked gather linked submit handle_write after_write consume
    span size_with_header size header_at memcpy set written
all_written =
    then_complete (then_send begin ring nine nine-IsWhole (omega arith) refl) ring 3 (omega arith)
      (omega arith) (omega arith) (omega arith) refl

Runs-Delivers_example : Delivers idle_writer ((0 ∷ 1 ∷ 9 ∷ []) ∷ []) (0 ∷ 1 ∷ 9 ∷ []) idle_writer
Runs-Delivers_example = Runs-Delivers idle-IsGathered all_written

abbrev fresh : Reader
fresh = record { in_buffer = zeros; in_start = 0; in_end = 0 }

abbrev last_buffer : Buffer
last_buffer = memcpy zeros 0 (0 ∷ 1 ∷ 9 ∷ [])

all_read :
    Reads fresh (0 ∷ 1 ∷ 9 ∷ []) (record { buffer = some last_buffer; offset = 0 } ∷ []) fresh
unfolding handle_read handle_messages receive renew size_with_header size header_at memcpy set
all_read =
    then_read start zeros zeros (0 ∷ 1 ∷ 9 ∷ []) (λ i. omega arith) (λ i. omega arith) (omega arith)
      (omega arith) (omega arith) refl

Reads-Runs_example :
    (bytes_of (record { buffer = some last_buffer; offset = 0 }) ∷ [] ≡ (0 ∷ 1 ∷ 9 ∷ []) ∷ [])
    × (pending fresh ≡ [])
Reads-Runs_example =
    Reads-Runs idle-IsGathered refl all_written refl (omega arith)
      (record { ordered = omega arith; within = omega arith; bytes = λ i. omega arith }) refl
      all_read
