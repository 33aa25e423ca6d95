-- ===== src/Client/Writer/Unsent.antt =====
-- The bytes that the writer still owes the socket, and how a completed write takes them off.
use native.Mathlib.Decide.{dec_lt}
use cpp_interface.Prelude.{
  ℕ, zero, suc, ◌+◌, ◌-◌, ◌≤◌, ◌<◌, ◌^◌, ◌≡◌, refl, ap, sym, ◌∙◌, some, List, [], ◌∷◌, ◌++◌, length,
  drop, take, map, concat, All, arith, to_u32, add_size, sub_size, ltb, ◌==◌, length-append,
  length-drop, drop-drop, drop-append_ge, Option, ne→not_==, lt→ltb, le→not_ltb, true, false,
}
use cpp_interface.Message.{Message, span, size_with_header}
use cpp_interface.Client.Reader.Loop.{bytes_of}
use cpp_interface.Client.Writer.{Writer, consume}

-- A message that points at a whole frame: its size and its bytes can be read.
pub record IsWhole (m : Message) : Type 0 where
  pub sized : size_with_header m ≡ some (length (bytes_of m))
  pub spanned : span m ≡ some (bytes_of m)
  pub large : 2 ≤ length (bytes_of m)
  pub small : length (bytes_of m) ≤ 65537

-- All the bytes of a queue.
abbrev pub stream_of : List Message → List ℕ
stream_of queue = concat (map bytes_of queue)

-- The next byte to write stands in the first message.
abbrev pub IsStart : ℕ → List Message → Type 0
IsStart start [] = start ≡ 0
IsStart start (m ∷ queue) = start < length (bytes_of m)

abbrev pub unsent : Writer → List ℕ
unsent w = drop w.out_start (stream_of w.output_queue)

-- What `consume` has done to a queue, of which `n` messages were submitted.
pub record Consumed (queue : List Message) (start count n k start' : ℕ) : Type 0 where
  pub left : drop start' (stream_of (drop k queue)) ≡ drop count (drop start (stream_of queue))
  pub started : IsStart start' (drop k queue)
  pub submitted : k ≤ n
  pub queued : k ≤ length queue

abbrev pub Consumes : List Message → ℕ → ℕ → ℕ → Option (ℕ × ℕ) → Type 0
Consumes queue start count n o =
    (k : ℕ) × (start' : ℕ) × (o ≡ some (k, start')) × Consumed queue start count n k start'

consume_zero :
    (queue : List Message) (start n : ℕ)
    → IsStart start queue
    → Consumes queue start 0 n (consume queue start 0)
unfolding consume
consume_zero [] start n h = (
  0,
  start,
  refl,
  record { left = refl; started = h; submitted = omega arith; queued = omega arith },
)
consume_zero (m ∷ queue) start n h = (
  0,
  start,
  refl,
  record { left = refl; started = h; submitted = omega arith; queued = omega arith },
)

module _ (m : Message) (queue : List Message) (start count : ℕ) (w : IsWhole m)
    (h : start < length (bytes_of m)) (c : 0 < count) (max : count < 2 ^ 64) where
  pub consume_part :
      count < length (bytes_of m) - start
      → consume (m ∷ queue) start count ≡ some (0, start + count)
  unfolding consume
  consume_part part =
      let more : (count == 0) ≡ false = ne→not_== _ _ (omega arith) in
      let rem : sub_size (length (bytes_of m)) start ≡ length (bytes_of m) - start =
        omega (arith, w.small) in
      let test : ltb count (length (bytes_of m) - start) ≡ true = lt→ltb _ _ part in
      let sum : add_size start (to_u32 count) ≡ start + count = omega (arith, w.small) in
      rw (more, w.sized, rem, test, sum)

  consume_whole :
      (k start' : ℕ)
      → length (bytes_of m) - start ≤ count
      → consume queue 0 (count - (length (bytes_of m) - start)) ≡ some (k, start')
      → consume (m ∷ queue) start count ≡ some (suc k, start')
  unfolding consume
  consume_whole k start' all e =
      let more : (count == 0) ≡ false = ne→not_== _ _ (omega arith) in
      let rem : sub_size (length (bytes_of m)) start ≡ length (bytes_of m) - start =
        omega (arith, w.small) in
      let test : ltb count (length (bytes_of m) - start) ≡ false = le→not_ltb _ _ all in
      let rest : sub_size count (length (bytes_of m) - start)
          ≡ count - (length (bytes_of m) - start) =
        omega (arith, w.small) in
      rw (more, w.sized, rem, test, rest, e)

  drop_whole :
      length (bytes_of m) - start ≤ count
      → drop count (drop start (stream_of (m ∷ queue)))
        ≡ drop (count - (length (bytes_of m) - start)) (stream_of queue)
  drop_whole all =
      let e : start + count ≡ length (bytes_of m) + (count - (length (bytes_of m) - start)) =
        omega arith in
      drop-drop start count (stream_of (m ∷ queue))
      ∙ ap (λ k. drop k (stream_of (m ∷ queue))) e
      ∙ drop-append_ge (count - (length (bytes_of m) - start)) (bytes_of m) (stream_of queue)

pub IsStart-zero : (queue : List Message) → All IsWhole queue → IsStart 0 queue
IsStart-zero [] w = refl
IsStart-zero (m ∷ queue) w = omega (arith, w.0.large)

-- A completion of `count` bytes, no more than what was submitted, takes exactly those bytes off.
pub consume_lem :
    (queue : List Message) (start count n : ℕ)
    → All IsWhole queue
    → IsStart start queue
    → count < 2 ^ 64
    → count ≤ length (drop start (stream_of (take n queue)))
    → Consumes queue start count n (consume queue start count)
consume_lem queue start zero n w h max fits = consume_zero queue start n h
consume_lem [] start (suc count) zero w h max fits =
    absurd (omega (arith, length-drop {0} {A = ℕ} start []))
consume_lem [] start (suc count) (suc n) w h max fits =
    absurd (omega (arith, length-drop {0} {A = ℕ} start []))
consume_lem (m ∷ queue) start (suc count) zero w h max fits =
    absurd (omega (arith, length-drop {0} {A = ℕ} start []))
consume_lem (m ∷ queue) start (suc count) (suc n) w h max fits =
    elim (dec_lt (suc count) (length (bytes_of m) - start)) [
      | yes part ↦ (
        0,
        start + suc count,
        consume_part m queue start (suc count) w.0 h (omega arith) max part,
        record {
          left = sym (drop-drop start (suc count) (stream_of (m ∷ queue)));
          started = omega arith;
          submitted = omega arith;
          queued = omega arith;
        },
      )
      | no all ↦
          let (k, start', e, c) =
            consume_lem queue 0 (suc count - (length (bytes_of m) - start)) n w.1
              (IsStart-zero queue w.1) (omega arith)
              (omega (
                arith,
                length-drop start (bytes_of m ++ stream_of (take n queue)),
                length-append (bytes_of m) (stream_of (take n queue)),
              )) in
          (
            suc k,
            start',
            consume_whole m queue start (suc count) w.0 h (omega arith) max k start' (omega arith)
                e,
            record {
              left =
                  c.left
                  ∙ sym
                      (drop_whole m queue start (suc count) w.0 h (omega arith) max (omega arith));
              started = c.started;
              submitted = omega (arith, c.submitted);
              queued = omega (arith, c.queued);
            },
          )
    ]
