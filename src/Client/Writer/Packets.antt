-- ===== src/Client/Writer/Packets.antt =====
-- `Client::sendInterfacePacket` as a whole: what a finished flatbuffer becomes.
use cpp_interface.Prelude.{
  ℕ, ◌+◌, ◌≤◌, ◌<◌, ◌≡◌, ap, sym, ◌∙◌, some, List, ◌++◌, length, All, arith,
}
use mathlib.Core.Path.{subst}
use cpp_interface.Buffer.{Buffer, IsBytes}
use cpp_interface.Message.{Message, max_payload}
use cpp_interface.Message.Encoding.{
  header_bytes, written, encode_fits, encode_large, span-sent, size_with_header-sent,
}
use cpp_interface.Message.Frames.{IsFrame}
use cpp_interface.Client.Reader.Loop.{bytes_of}
use cpp_interface.Client.Writer.{
  Writer, Ring, nothing, preallocated_buffers, send_interface_packet, send_message,
}
use cpp_interface.Client.Writer.Unsent.{IsWhole, unsent}
use cpp_interface.Client.Writer.Calls.{IsGathered, Owes, send_message-Owes}

-- A payload behind its header.
abbrev pub frame : List ℕ → List ℕ
frame payload = header_bytes (length payload) ++ payload

pub frame-IsFrame : (payload : List ℕ) → length payload ≤ max_payload → IsFrame (frame payload)
frame-IsFrame payload h = omega arith

-- The message that the queue gets for a payload.
abbrev pub packet : Buffer → List ℕ → Message
packet b payload = record { buffer = some (written b payload); offset = 0 }

module _ (b : Buffer) (payload : List ℕ) (bytes : IsBytes b) (fits : length payload ≤ max_payload)
    (all : All (λ x. x < 256) payload) where
  bytes_of-packet : bytes_of (packet b payload) ≡ frame payload
  bytes_of-packet = rw (span-sent b payload bytes fits all, bytes_of)

  pub packet-IsWhole : IsWhole (packet b payload)
  packet-IsWhole =
      let n : length (bytes_of (packet b payload)) ≡ length payload + 2 =
        ap length bytes_of-packet ∙ (omega arith) in
      record {
        sized = size_with_header-sent b payload bytes fits all ∙ ap some (sym n);
        spanned = span-sent b payload bytes fits all ∙ ap some (sym bytes_of-packet);
        large = omega arith;
        small = omega arith;
      }

-- A payload that the header can count is sent as one frame: its bytes are owed to the socket after
-- all the others, with no assertion failing.
pub send_interface_packet-Owes :
    (ring : Ring) (b : Buffer) (w : Writer) (payload : List ℕ)
    → IsGathered w
    → IsBytes b
    → All (λ x. x < 256) payload
    → length payload ≤ max_payload
    → preallocated_buffers ≤ ring.free
    → Owes (unsent w ++ frame payload) (send_interface_packet ring b w payload)
unfolding send_interface_packet
send_interface_packet-Owes ring b w payload a bytes all fits room =
    rw (encode_fits b payload fits, send_interface_packet)
      (subst (λ xs. Owes (unsent w ++ xs) (send_message ring w (packet b payload)))
        (bytes_of-packet b payload bytes fits all)
        (send_message-Owes ring w (packet b payload) a (packet-IsWhole b payload bytes fits all)
          room))

-- A payload of more than 65535 bytes is dropped, and changes nothing.
pub send_interface_packet_large :
    (ring : Ring) (b : Buffer) (w : Writer) (payload : List ℕ)
    → max_payload < length payload
    → send_interface_packet ring b w payload ≡ some (w, nothing)
unfolding send_interface_packet
send_interface_packet_large ring b w payload h =
    rw (encode_large b payload h, send_interface_packet)
