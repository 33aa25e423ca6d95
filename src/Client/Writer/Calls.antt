-- ===== src/Client/Writer/Calls.antt =====
-- Each call of the writer, and what it leaves owing to the socket.
use mathlib.Core.Path.{subst}
use cpp_interface.Prelude.{
  if◌then◌else◌, ℕ, ◌+◌, ◌≤◌, ◌<◌, ◌^◌, ◌≡◌, ◌⊎◌, inl, inr, refl, ap, sym, ◌∙◌, some, List, [], ◌∷◌,
  ◌++◌, length, drop, append-nil, append_assoc, All-append, All-drop, arith, ltb, Option,
  le→not_ltb, true, false, Bool, ◌==◌, ne→not_==, drop-append_le, length-append, length-drop,
}
use cpp_interface.Message.{Message}
use cpp_interface.Client.Reader.Loop.{bytes_of}
use cpp_interface.Client.Writer.{
  Writer, Ring, Submission, nothing, wakeup, failed, preallocated_buffers, request_write_locked,
  request_write, after_write, handle_write, submit_wakeup, send_message,
}
use cpp_interface.Client.Writer.Unsent.{IsWhole, IsStart, stream_of, unsent, Consumed, consume_lem}
use cpp_interface.Client.Writer.Requests.{IsWriter, in_flight, Requested, request_write_locked_lem}

-- A well-formed writer whose list of iovs is not empty whenever something is queued. Those iovs were
-- submitted once; that a write of them is still on its way, the writer does not know.
pub record IsGathered (w : Writer) : Type 0 where
  pub valid : IsWriter w
  pub gathered : (length w.output_queue ≡ 0) ⊎ (0 < length w.iov)

-- The outcome of a call that owes the socket the bytes `owed` in the end.
abbrev pub Owes : List ℕ → Option (Writer × Submission) → Type 0
Owes owed o =
    (w' : Writer) × (s : Submission) × (o ≡ some (w', s)) × IsGathered w' × (unsent w' ≡ owed)

abbrev writer : List Message → List (List ℕ) → ℕ → Bool → Writer
writer queue iov start idle = record {
  output_queue = queue;
  iov = iov;
  out_start = start;
  writer_idle = idle;
}

unsent-Requested :
    {ring : Ring} {w w' : Writer} {s : Submission} → Requested ring w w' s → unsent w' ≡ unsent w
unsent-Requested r = ap unsent r.next

Requested-IsGathered :
    {ring : Ring} {w w' : Writer} {s : Submission} → Requested ring w w' s → IsGathered w'
Requested-IsGathered {w' = w'} r = record {
  valid = r.valid;
  gathered = inr (omega (arith, r.nonempty, ap (λ (u : Writer). length u.iov) r.next));
}

locked_lem :
    (ring : Ring) (m : Message) (queue : List Message) (iov : List (List ℕ)) (start : ℕ)
    (idle : Bool)
    → IsWriter (writer (m ∷ queue) iov start idle)
    → preallocated_buffers ≤ ring.free
    → Owes
        (drop start (stream_of (m ∷ queue)))
        (request_write_locked ring (writer (m ∷ queue) iov start idle))
unfolding request_write_locked
locked_lem ring m queue (x ∷ iov) start idle v room = (
  writer (m ∷ queue) (x ∷ iov) start idle,
  nothing,
  refl,
  record { valid = v; gathered = inr (omega arith) },
  refl,
)
locked_lem ring m queue [] start idle v room =
    let (w', s, e, r) = request_write_locked_lem ring m queue start idle v room in
    (w', s, e, Requested-IsGathered r, unsent-Requested r)

after_write_lem :
    (ring : Ring) (queue : List Message) (iov : List (List ℕ)) (start : ℕ) (idle : Bool)
    → IsWriter (writer queue iov start idle)
    → preallocated_buffers ≤ ring.free
    → Owes (drop start (stream_of queue)) (after_write ring (writer queue iov start idle))
unfolding after_write
after_write_lem ring [] iov start idle v room = (
  writer [] iov start true,
  nothing,
  rw (le→not_ltb 0 (length iov) v.fewer),
  record {
    valid = record { whole = tt; started = v.started; fewer = v.fewer };
    gathered = inl refl;
  },
  refl,
)
after_write_lem ring (m ∷ queue) iov start idle v room =
    rw (le→not_ltb (length (m ∷ queue)) (length iov) v.fewer)
      (locked_lem ring m queue iov start idle v room)

erase-IsWriter :
    (m : Message) (queue : List Message) (iov : List (List ℕ)) (start count k start' : ℕ)
    (idle : Bool)
    → IsWriter (writer (m ∷ queue) iov start idle)
    → Consumed (m ∷ queue) start count (length iov) k start'
    → IsWriter (writer (drop k (m ∷ queue)) (drop k iov) start' idle)
erase-IsWriter m queue iov start count k start' idle v c = record {
  whole = All-drop IsWhole k (m ∷ queue) v.whole;
  started = c.started;
  fewer = omega (arith, length-drop k iov, length-drop k (m ∷ queue), v.fewer);
}

handle_write_step :
    (ring : Ring) (m : Message) (queue : List Message) (iov : List (List ℕ)) (start count : ℕ)
    (idle : Bool)
    → IsWriter (writer (m ∷ queue) iov start idle)
    → preallocated_buffers ≤ ring.free
    → count < 2 ^ 64
    → count ≤ length (in_flight (writer (m ∷ queue) iov start idle))
    → Owes
        (drop count (drop start (stream_of (m ∷ queue))))
        (handle_write ring (writer (m ∷ queue) iov start idle) count)
unfolding handle_write
handle_write_step ring m queue iov start count idle v room max fits =
    let (k, start', e, c) =
      consume_lem (m ∷ queue) start count (length iov) v.whole v.started max fits in
    let enough : ltb (length (m ∷ queue)) (length iov) ≡ false = le→not_ltb _ _ v.fewer in
    let kept : ltb (length iov) k ≡ false = le→not_ltb _ _ c.submitted in
    rw (enough, e, kept)
      (subst
        (λ xs. Owes xs (after_write ring (writer (drop k (m ∷ queue)) (drop k iov) start' idle)))
        c.left
        (after_write_lem ring (drop k (m ∷ queue)) (drop k iov) start' idle
          (erase-IsWriter m queue iov start count k start' idle v c) room))

nonempty_step :
    (ring : Ring) (queue : List Message) (iov : List (List ℕ)) (start count : ℕ) (idle : Bool)
    → IsWriter (writer queue iov start idle)
    → 0 < length queue
    → preallocated_buffers ≤ ring.free
    → count < 2 ^ 64
    → count ≤ length (in_flight (writer queue iov start idle))
    → Owes
        (drop count (drop start (stream_of queue)))
        (handle_write ring (writer queue iov start idle) count)
nonempty_step ring [] iov start count idle v h room max fits = absurd (omega arith)
nonempty_step ring (m ∷ queue) iov start count idle v h room max fits =
    handle_write_step ring m queue iov start count idle v room max fits

-- A completed write of `count` bytes, of those in flight, is handled with no assertion failing and no
-- iterator past its end: the socket is owed all it was owed before but the first `count` bytes, and
-- whenever messages are left in the queue the list of iovs is not empty.
pub handle_write-Owes :
    (ring : Ring) (w : Writer) (count : ℕ)
    → IsWriter w
    → 0 < length w.output_queue
    → preallocated_buffers ≤ ring.free
    → count < 2 ^ 64
    → count ≤ length (in_flight w)
    → Owes (drop count (unsent w)) (handle_write ring w count)
handle_write-Owes ring w count v h room max fits =
    nonempty_step ring w.output_queue w.iov w.out_start count w.writer_idle v h room max fits

stream_of-snoc :
    (queue : List Message) (m : Message)
    → stream_of (queue ++ (m ∷ [])) ≡ stream_of queue ++ bytes_of m
stream_of-snoc [] m = append-nil (bytes_of m)
stream_of-snoc (x ∷ queue) m =
    ap (λ xs. bytes_of x ++ xs) (stream_of-snoc queue m)
    ∙ sym (append_assoc (bytes_of x) (stream_of queue) (bytes_of m))

-- A message more in the queue is owed after all the others.
drop-snoc :
    (queue : List Message) (m : Message) (start : ℕ)
    → IsStart start queue
    → drop start (stream_of (queue ++ (m ∷ []))) ≡ drop start (stream_of queue) ++ bytes_of m
drop-snoc [] m start h = rw h (append-nil (bytes_of m))
drop-snoc (x ∷ queue) m start h =
    ap (drop start) (stream_of-snoc (x ∷ queue) m)
    ∙ drop-append_le start (stream_of (x ∷ queue)) (bytes_of m)
        (omega (arith, length-append (bytes_of x) (stream_of queue)))

submit_wakeup_lem :
    (ring : Ring)
    → preallocated_buffers ≤ ring.free
    → (s : Submission) × (submit_wakeup ring ≡ some s)
unfolding submit_wakeup
submit_wakeup_lem ring room =
    let test : ltb ring.free 1 ≡ false = le→not_ltb _ _ (omega arith) in
    (if ring.accepts then wakeup else failed, rw test (ground arith))

send_step :
    (ring : Ring) (queue : List Message) (iov : List (List ℕ)) (start : ℕ) (idle : Bool)
    (m : Message)
    → IsGathered (writer queue iov start idle)
    → IsWhole m
    → preallocated_buffers ≤ ring.free
    → Owes
        (drop start (stream_of (queue ++ (m ∷ []))))
        (send_message ring (writer queue iov start idle) m)
unfolding send_message
send_step ring [] [] start idle m a w room =
    locked_lem ring m [] [] start false
      (record {
        whole = (w, tt);
        started = omega (arith, a.valid.started, w.large);
        fewer = omega arith;
      })
      room
send_step ring [] (x ∷ iov) start idle m a w room = absurd (omega (arith, a.valid.fewer))
send_step ring (y ∷ queue) iov start idle m a w room =
    let (s, e) = submit_wakeup_lem ring room in
    let n : length (queue ++ (m ∷ [])) ≡ length queue + 1 = length-append queue (m ∷ []) in
    let two : (length ((y ∷ queue) ++ (m ∷ [])) == 1) ≡ false = ne→not_== _ _ (omega arith) in
    (
      writer ((y ∷ queue) ++ (m ∷ [])) iov start false,
      s,
      rw (two, e),
      record {
        valid = record {
          whole = All-append IsWhole (y ∷ queue) (m ∷ []) a.valid.whole (w, tt);
          started = a.valid.started;
          fewer = omega (arith, a.valid.fewer);
        };
        gathered = inr (omega (arith, a.gathered));
      },
      refl,
    )

-- Sending a message appends its bytes to what the socket is owed, with no assertion failing.
pub send_message-Owes :
    (ring : Ring) (w : Writer) (m : Message)
    → IsGathered w
    → IsWhole m
    → preallocated_buffers ≤ ring.free
    → Owes (unsent w ++ bytes_of m) (send_message ring w m)
send_message-Owes ring w m a whole room =
    subst (λ xs. Owes xs (send_message ring w m))
      (drop-snoc w.output_queue m w.out_start a.valid.started)
      (send_step ring w.output_queue w.iov w.out_start w.writer_idle m a whole room)

request_step :
    (ring : Ring) (queue : List Message) (iov : List (List ℕ)) (start : ℕ) (idle : Bool)
    → IsGathered (writer queue iov start idle)
    → request_write ring (writer queue iov start idle) ≡ some (writer queue iov start idle, nothing)
unfolding request_write request_write_locked
request_step ring [] iov start idle a = refl
request_step ring (m ∷ queue) (x ∷ iov) start idle a = refl
request_step ring (m ∷ queue) [] start idle a = absurd (omega (arith, a.gathered))

-- The wakeup of the service thread finds nothing to do: no message in the queue, or iovs already.
pub request_write-IsGathered :
    (ring : Ring) (w : Writer) → IsGathered w → request_write ring w ≡ some (w, nothing)
request_write-IsGathered ring w a =
    request_step ring w.output_queue w.iov w.out_start w.writer_idle a
