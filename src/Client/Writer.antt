-- ===== src/Client/Writer.antt =====
-- library/Client.cpp, the writer: `sendInterfacePacket`, `requestWrite`, `requestWriteLocked` and
-- `handleWrite`, as on Linux. `none` says that an `assert` of the source fails, or that an iterator
-- would run past its end.
pub mod Unsent
pub mod Requests
pub mod Calls
pub mod History
pub mod Partial
pub mod Packets
use cpp_interface.Prelude.{
  ℕ, zero, suc, ◌+◌, ◌-◌, Bool, true, false, not, Option, none, some, List, [], ◌∷◌, ◌++◌, length,
  drop, is_empty, ltb, leb, ◌==◌, if◌then◌else◌, ◌>>=◌, to_u32, add_size, sub_size,
}
use cpp_interface.Buffer.{Buffer}
use cpp_interface.Message.{Message, span, size_with_header, encode}

pub record Writer : Type 0 where
  pub output_queue : List Message
  pub iov : List (List ℕ)
  pub out_start : ℕ
  pub writer_idle : Bool

-- `PREALLOCATED_BUFFERS`, the most messages that one submission holds.
abbrev pub preallocated_buffers : ℕ
preallocated_buffers = 32

-- What io_uring answers: how many submission entries are free, and whether `io_uring_submit` takes
-- what was prepared.
pub record Ring : Type 0 where
  pub free : ℕ
  pub accepts : Bool

-- A write of some bytes, and whether `IOSQE_IO_LINK` ties the next one to it.
pub record Sqe : Type 0 where
  pub bytes : List ℕ
  pub link : Bool

-- What a call hands to io_uring: nothing, writes, or the wakeup of the service thread. After
-- `failed` the client has been told to terminate.
pub data Submission : Type 0 where
  nothing : Submission
  writes : List Sqe → Submission
  wakeup : Submission
  failed : Submission

-- The loop that fills `iov`, for at most `n` messages.
unfoldable pub gather : ℕ → ℕ → List Message → Option (List (List ℕ))
gather zero start_offset queue = some []
gather (suc n) start_offset [] = some []
gather (suc n) start_offset (m ∷ queue) =
    let rest = gather n 0 queue in
    (span m >>= λ xs.
    if ltb start_offset (length xs)
    then (rest >>= λ xss. some (drop start_offset xs ∷ xss))
    else none)

unfoldable pub linked : List (List ℕ) → List Sqe
linked [] = []
linked (xs ∷ []) = record { bytes = xs; link = false } ∷ []
linked (xs ∷ ys ∷ yss) = record { bytes = xs; link = true } ∷ linked (ys ∷ yss)

unfoldable pub submit : Ring → List (List ℕ) → Option Submission
submit ring iov =
    if ltb ring.free (length iov)
    then none
    else if ring.accepts
    then some (writes (linked iov))
    else some failed

unfoldable pub request_write_locked : Ring → Writer → Option (Writer × Submission)
request_write_locked ring w =
    if not (is_empty w.iov)
    then some (w, nothing)
    else if is_empty w.output_queue
    then none
    else (gather preallocated_buffers (to_u32 w.out_start) w.output_queue >>= λ iov.
        submit ring iov >>= λ s. some (record w { iov = iov }, s))

unfoldable pub request_write : Ring → Writer → Option (Writer × Submission)
request_write ring w =
    if is_empty w.output_queue then some (w, nothing) else request_write_locked ring w

-- The nop that wakes the service thread up.
unfoldable pub submit_wakeup : Ring → Option Submission
submit_wakeup ring =
    if ltb ring.free 1 then none else if ring.accepts then some wakeup else some failed

abbrev pub enqueue : Writer → Message → Writer
enqueue w m = record w { output_queue = w.output_queue ++ (m ∷ []); writer_idle = false }

unfoldable pub send_message : Ring → Writer → Message → Option (Writer × Submission)
send_message ring w m =
    let w' = enqueue w m in
    if length w'.output_queue == 1
    then (if is_empty w'.iov then request_write_locked ring w' else none)
    else (submit_wakeup ring >>= λ s. some (w', s))

-- `payload` is the finished flatbuffer, `buffer` what `getBuffer` returns.
unfoldable pub send_interface_packet :
    Ring → Buffer → Writer → List ℕ → Option (Writer × Submission)
send_interface_packet ring buffer w payload = elim (encode buffer payload) [
  | none ↦ some (w, nothing)
  | some b ↦ send_message ring w (record { buffer = some b; offset = 0 })
]

-- The loop over the messages that a completed write covers: how many are done, and how much of the
-- next one.
unfoldable pub consume : List Message → ℕ → ℕ → Option (ℕ × ℕ)
consume [] out_start count = if count == 0 then some (0, out_start) else none
consume (m ∷ queue) out_start count =
    if count == 0
    then some (0, out_start)
    else (size_with_header m >>= λ size.
        let rem = sub_size size out_start in
        let rest = consume queue 0 (sub_size count rem) in
        if ltb count rem
        then some (0, add_size out_start (to_u32 count))
        else (rest >>= λ (k, start). some (suc k, start)))

abbrev pub erase : Writer → ℕ → ℕ → Writer
erase w k start = record w {
  output_queue = drop k w.output_queue;
  iov = drop k w.iov;
  out_start = start;
}

unfoldable pub after_write : Ring → Writer → Option (Writer × Submission)
after_write ring w =
    if ltb (length w.output_queue) (length w.iov)
    then none
    else if is_empty w.output_queue
    then some (record w { writer_idle = true }, nothing)
    else request_write_locked ring w

unfoldable pub handle_write : Ring → Writer → ℕ → Option (Writer × Submission)
handle_write ring w count =
    if ltb (length w.output_queue) (length w.iov)
    then none
    else if is_empty w.output_queue
    then none
    else (consume w.output_queue w.out_start count >>= λ (k, start).
        if ltb (length w.iov) k then none else after_write ring (erase w k start))
