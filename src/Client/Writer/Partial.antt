-- ===== src/Client/Writer/Partial.antt =====
-- A completion that covers a part of a message only.
use cpp_interface.Prelude.{
  ℕ, ◌+◌, ◌-◌, ◌≤◌, ◌<◌, ◌≡◌, refl, some, List, [], ◌∷◌, ◌++◌, length, arith, Bool, false, ltb,
  le→not_ltb, ◌==◌, ne→not_==, length-append, if◌then◌else◌,
}
use cpp_interface.Message.{Message}
use cpp_interface.Client.Reader.Loop.{bytes_of}
use cpp_interface.Client.Writer.{
  Writer, Ring, nothing, wakeup, failed, request_write_locked, request_write, handle_write,
  after_write, send_message, submit_wakeup, enqueue, preallocated_buffers,
}
use cpp_interface.Client.Writer.Unsent.{consume_part}
use cpp_interface.Client.Writer.Requests.{IsWriter}

abbrev stalled : List Message → List (List ℕ) → ℕ → Bool → Writer
stalled queue iov start idle = record {
  output_queue = queue;
  iov = iov;
  out_start = start;
  writer_idle = idle;
}

module _ (m : Message) (queue : List Message) (iovec : List ℕ) (iov : List (List ℕ))
    (start count : ℕ) (idle : Bool) where
  partial_completion :
      (ring : Ring)
      → IsWriter (stalled (m ∷ queue) (iovec ∷ iov) start idle)
      → 0 < count
      → count < length (bytes_of m) - start
      → handle_write ring (stalled (m ∷ queue) (iovec ∷ iov) start idle) count
        ≡ some (stalled (m ∷ queue) (iovec ∷ iov) (start + count) idle, nothing)
  unfolding handle_write after_write request_write_locked
  partial_completion ring v c part =
      let enough : ltb (length (m ∷ queue)) (length (iovec ∷ iov)) ≡ false =
        le→not_ltb _ _ v.fewer in
      let e =
        consume_part m queue start count v.whole.0 v.started c (omega (arith, v.whole.0.small))
          part in
      let none_done : ltb (length (iovec ∷ iov)) 0 ≡ false = le→not_ltb _ _ (omega arith) in
      rw (enough, e, none_done, enough)

  wakeup_idle :
      (ring : Ring)
      → request_write ring (stalled (m ∷ queue) (iovec ∷ iov) start idle)
        ≡ some (stalled (m ∷ queue) (iovec ∷ iov) start idle, nothing)
  unfolding request_write request_write_locked
  wakeup_idle ring = refl

  send_wakes_only :
      (ring : Ring) (new : Message)
      → preallocated_buffers ≤ ring.free
      → send_message ring (stalled (m ∷ queue) (iovec ∷ iov) start idle) new
        ≡ some (
          enqueue (stalled (m ∷ queue) (iovec ∷ iov) start idle) new,
          (if ring.accepts then wakeup else failed),
        )
  unfolding send_message submit_wakeup
  send_wakes_only ring new room =
      let n : length (queue ++ (new ∷ [])) ≡ length queue + 1 = length-append queue (new ∷ []) in
      let two : (length ((m ∷ queue) ++ (new ∷ [])) == 1) ≡ false = ne→not_== _ _ (omega arith) in
      let test : ltb ring.free 1 ≡ false = le→not_ltb _ _ (omega arith) in
      rw (two, test) (ground arith)

-- A completion that ends inside the first message in flight only moves the offset, and no write is
-- submitted after it: the handler submits nothing, nor does a wakeup of the service thread, and a
-- further send, with 32 free entries in the ring, only asks for a wakeup or fails.
pub handle_write_partial :
    (ring later : Ring) (m new : Message) (queue : List Message) (x : List ℕ) (iov : List (List ℕ))
    (start count : ℕ) (idle : Bool)
    → let w : Writer = record {
      output_queue = m ∷ queue;
      iov = x ∷ iov;
      out_start = start;
      writer_idle = idle;
    } in
      let w' : Writer = record w { out_start = start + count } in
      IsWriter w
      → 0 < count
      → count < length (bytes_of m) - start
      → preallocated_buffers ≤ later.free
      → (handle_write ring w count ≡ some (w', nothing))
        × (request_write later w' ≡ some (w', nothing))
        × (send_message later w' new
            ≡ some (enqueue w' new, (if later.accepts then wakeup else failed)))
handle_write_partial ring later m new queue x iov start count idle v c part room = (
  partial_completion m queue x iov start count idle ring v c part,
  wakeup_idle m queue x iov (start + count) count idle later,
  send_wakes_only m queue x iov (start + count) count idle later new room,
)
