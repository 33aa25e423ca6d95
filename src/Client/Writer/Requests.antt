-- ===== src/Client/Writer/Requests.antt =====
-- What `requestWriteLocked` submits.
use cpp_interface.Prelude.{
  ℕ, zero, suc, ◌≤◌, ◌<◌, ◌≡◌, refl, ap, sym, ◌∙◌, some, List, [], ◌∷◌, ◌++◌, length, drop, take,
  concat, All, arith, to_u32, ltb, lt→ltb, true, Bool, if◌then◌else◌, drop-append_le,
}
use cpp_interface.Message.{Message}
use cpp_interface.Client.Reader.Loop.{bytes_of}
use cpp_interface.Client.Writer.{
  Writer, Ring, Submission, writes, failed, preallocated_buffers, gather, linked, submit,
  request_write_locked,
}
use cpp_interface.Client.Writer.Unsent.{IsWhole, IsStart, IsStart-zero, stream_of}

pub record IsWriter (w : Writer) : Type 0 where
  pub whole : All IsWhole w.output_queue
  pub started : IsStart w.out_start w.output_queue
  pub fewer : length w.iov ≤ length w.output_queue

-- The bytes submitted and not yet completed.
abbrev pub in_flight : Writer → List ℕ
in_flight w = drop w.out_start (stream_of (take (length w.iov) w.output_queue))

drop-nil : (n : ℕ) → drop {A = ℕ} n [] ≡ []
drop-nil zero = refl
drop-nil (suc n) = refl

record Gathers (n start : ℕ) (queue : List Message) (iov : List (List ℕ)) : Type 0 where
  gathered : gather n start queue ≡ some iov
  bytes : concat iov ≡ drop start (stream_of (take n queue))
  count : length iov ≡ length (take n queue)

gather_step :
    (n start : ℕ) (m : Message) (queue : List Message) (iov : List (List ℕ))
    → IsWhole m
    → start < length (bytes_of m)
    → Gathers n 0 queue iov
    → Gathers (suc n) start (m ∷ queue) (drop start (bytes_of m) ∷ iov)
unfolding gather
gather_step n start m queue iov w h g =
    let test : ltb start (length (bytes_of m)) ≡ true = lt→ltb _ _ h in
    record {
      gathered = rw (w.spanned, test, g.gathered);
      bytes =
          ap (λ xs. drop start (bytes_of m) ++ xs) g.bytes
          ∙ sym (drop-append_le start (bytes_of m) (stream_of (take n queue)) (omega arith));
      count = ap suc g.count;
    }

gather_lem :
    (n start : ℕ) (queue : List Message)
    → All IsWhole queue
    → IsStart start queue
    → (iov : List (List ℕ)) × Gathers n start queue iov
unfolding gather
gather_lem zero start queue w h =
    ([], record { gathered = refl; bytes = sym (drop-nil start); count = refl })
gather_lem (suc n) start [] w h =
    ([], record { gathered = refl; bytes = sym (drop-nil start); count = refl })
gather_lem (suc n) start (m ∷ queue) w h =
    let (iov, g) = gather_lem n 0 queue w.1 (IsStart-zero queue w.1) in
    (drop start (bytes_of m) ∷ iov, gather_step n start m queue iov w.0 h g)

-- What io_uring makes of the writes that it is offered.
abbrev pub offered : Ring → List (List ℕ) → Submission
offered ring iov = if ring.accepts then writes (linked iov) else failed

submit_lem :
    (ring : Ring) (iov : List (List ℕ))
    → length iov ≤ ring.free
    → submit ring iov ≡ some (offered ring iov)
unfolding submit
submit_lem ring iov h = ground arith

length-take-le : {A : Type 0} (n : ℕ) (xs : List A) → length (take n xs) ≤ n
length-take-le zero xs = omega arith
length-take-le (suc n) [] = omega arith
length-take-le (suc n) (x ∷ xs) = omega (arith, length-take-le n xs)

take-length-take : {A : Type 0} (n : ℕ) (xs : List A) → take (length (take n xs)) xs ≡ take n xs
take-length-take zero xs = refl
take-length-take (suc n) [] = refl
take-length-take (suc n) (x ∷ xs) = ap (◌∷◌ x) (take-length-take n xs)

length-take_total : {A : Type 0} (n : ℕ) (xs : List A) → length (take n xs) ≤ length xs
length-take_total zero xs = omega arith
length-take_total (suc n) [] = omega arith
length-take_total (suc n) (x ∷ xs) = omega (arith, length-take_total n xs)

-- What a request has submitted: some messages from the front of the queue, all of the bytes that are
-- in flight, and no others.
pub record Requested (ring : Ring) (w w' : Writer) (s : Submission) : Type 0 where
  pub iov : List (List ℕ)
  pub next : w' ≡ record w { iov = iov }
  pub answer : s ≡ offered ring iov
  pub valid : IsWriter w'
  pub bytes : concat iov ≡ in_flight w'
  pub nonempty : 0 < length iov

pub request_write_locked_lem :
    (ring : Ring) (m : Message) (queue : List Message) (start : ℕ) (idle : Bool)
    → let w : Writer = record {
      output_queue = m ∷ queue;
      iov = [];
      out_start = start;
      writer_idle = idle;
    } in
      IsWriter w
      → preallocated_buffers ≤ ring.free
      → (w' : Writer) × (s : Submission) × (request_write_locked ring w ≡ some (w', s))
        × Requested ring w w' s
unfolding request_write_locked
request_write_locked_lem ring m queue start idle v room =
    let q : List Message = m ∷ queue in
    let (iov, g) = gather_lem preallocated_buffers start q v.whole v.started in
    let same : to_u32 start ≡ start = omega (arith, v.started, v.whole.0.small) in
    let few = length-take-le preallocated_buffers q in
    let total = length-take_total preallocated_buffers q in
    let cut : take (length iov) q ≡ take preallocated_buffers q =
      ap (λ k. take k q) g.count ∙ take-length-take preallocated_buffers q in
    (
      record { output_queue = q; iov = iov; out_start = start; writer_idle = idle },
      offered ring iov,
      rw (same, g.gathered, submit_lem ring iov (omega (arith, g.count))),
      record {
        iov = iov;
        next = refl;
        answer = refl;
        valid = record { whole = v.whole; started = v.started; fewer = omega (arith, g.count) };
        bytes = g.bytes ∙ sym (ap (λ xs. drop start (stream_of xs)) cut);
        nonempty = omega (arith, g.count);
      },
    )
