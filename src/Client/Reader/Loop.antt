-- ===== src/Client/Reader/Loop.antt =====
-- The loop of `handleRead` cuts what is pending into its frames.
use cpp_interface.Prelude.{
  true, false, lt→ltb, le→not_ltb, inl, inr, Bool-cases, ==→eq, ==→ne, ℕ, zero, suc, ◌+◌, ◌-◌, ◌*◌,
  ◌≤◌, ◌<◌, ◌≡◌, refl, ap, sym, ◌∙◌, Option, none, some, List, [], ◌∷◌, ◌++◌, length, ltb, leb,
  ◌==◌, if◌then◌else◌, ◌>>=◌, add_size, sub_size, map, arith, append_assoc, All,
}
use mathlib.Core.Path.{subst}
use native.Mathlib.Decide.{dec_lt}
use cpp_interface.Buffer.{Buffer, IsBytes, buffer_size, slice, memcpy, header_at}
use cpp_interface.Buffer.Slices.{
  slice-append, length-slice, header_at_lem, slice-bytes, slice-memcpy, memcpy-IsBytes,
}
use cpp_interface.Message.{Message, header_size, size, size_with_header, span}
use cpp_interface.Message.Frames.{IsFrame, IsIncomplete, Framed}
use cpp_interface.Client.Reader.{Reader, current, move_message, need_more, handle_messages}

-- The bytes that were read and not yet handled.
abbrev pub pending : Reader → List ℕ
pending r = slice r.in_buffer r.in_start (r.in_end - r.in_start)

pub record IsReader (r : Reader) : Type 0 where
  pub ordered : r.in_start ≤ r.in_end
  pub within : r.in_end ≤ buffer_size
  pub bytes : IsBytes r.in_buffer

-- The bytes of a message, header included.
abbrev pub bytes_of : Message → List ℕ
bytes_of m = elim (span m) [ none ↦ [] | some xs ↦ xs ]

abbrev pub head_size : Reader → ℕ
head_size r = header_at r.in_buffer r.in_start

module _ (r : Reader) (v : IsReader r) where
  head_size_lem : head_size r ≡ r.in_buffer r.in_start * 256 + r.in_buffer (r.in_start + 1)
  head_size_lem = header_at_lem r.in_buffer r.in_start v.bytes (omega (arith, v.ordered, v.within))

  pub head_size-lt : head_size r < 65536
  head_size-lt = omega (arith, head_size_lem, v.bytes r.in_start, v.bytes (r.in_start + 1))

  module _ (h : r.in_start + 2 ≤ r.in_end) where
    size-current : size_with_header (current r) ≡ some (head_size r + 2)
    unfolding size_with_header size
    size-current = ground (arith, head_size-lt, v.within)

    pub span-current : span (current r) ≡ some (slice r.in_buffer r.in_start (head_size r + 2))
    unfolding span
    span-current = rw size-current

    bytes_of-current : bytes_of (current r) ≡ slice r.in_buffer r.in_start (head_size r + 2)
    bytes_of-current = rw (span-current, bytes_of)

  slice_head :
      (n : ℕ)
      → slice r.in_buffer r.in_start (n + 2)
        ≡ r.in_buffer r.in_start
          ∷ r.in_buffer (r.in_start + 1)
          ∷ slice r.in_buffer (r.in_start + 1 + 1) n
  slice_head n = let e : n + 2 ≡ suc (suc n) = omega arith in ap (slice r.in_buffer r.in_start) e

  slice-IsFrame : IsFrame (slice r.in_buffer r.in_start (head_size r + 2))
  slice-IsFrame =
      subst IsFrame (sym (slice_head (head_size r)))
        (length-slice r.in_buffer (r.in_start + 1 + 1) (head_size r) ∙ head_size_lem)

  slice-IsIncomplete : (n : ℕ) → n < head_size r + 2 → IsIncomplete (slice r.in_buffer r.in_start n)
  slice-IsIncomplete zero h = tt
  slice-IsIncomplete (suc zero) h = tt
  slice-IsIncomplete (suc (suc n)) h =
      omega (arith, length-slice r.in_buffer (r.in_start + 1 + 1) n, head_size_lem)

  -- Dropping one whole message from the front.
  advance : Reader
  advance = record r { in_start = r.in_start + (head_size r + 2) }

  module _ (h : r.in_start + (head_size r + 2) ≤ r.in_end) where
    advance-IsReader : IsReader advance
    unfolding advance
    advance-IsReader = record { ordered = h; within = v.within; bytes = v.bytes }

    pending-advance : pending r ≡ slice r.in_buffer r.in_start (head_size r + 2) ++ pending advance
    unfolding advance
    pending-advance =
        let e : r.in_end - r.in_start
            ≡ head_size r + 2 + (r.in_end - (r.in_start + (head_size r + 2))) =
          omega arith in
        ap (slice r.in_buffer r.in_start) e
        ∙ slice-append r.in_buffer r.in_start (head_size r + 2) _

  advance-lt :
      (fuel : ℕ)
      → r.in_start < r.in_end
      → r.in_end - r.in_start < suc fuel
      → advance.in_end - advance.in_start < fuel
  unfolding advance
  advance-lt fuel h k = omega arith

-- What the loop leaves when it needs more bytes: the same bytes pending, and room for another read
-- unless at most one byte is left at the very end of the buffer.
record Kept (r r' : Reader) : Type 0 where
  valid : IsReader r'
  same : pending r' ≡ pending r
  last : buffer_size ≤ r'.in_end → r'.in_end ≤ r'.in_start + 1

moved : Buffer → Reader → Reader
moved spare r = record {
  in_buffer = memcpy spare 0 (slice r.in_buffer r.in_start (r.in_end - r.in_start));
  in_start = 0;
  in_end = r.in_end - r.in_start;
}

moved-Kept :
    (spare : Buffer) (r : Reader)
    → IsReader r
    → IsBytes spare
    → 0 < r.in_start
    → Kept r (moved spare r)
unfolding moved
moved-Kept spare r v sp h =
    let n : ℕ = r.in_end - r.in_start in
    let e : n ≡ n - 0 = omega arith in
    record {
      valid = record {
        ordered = omega arith;
        within = omega (arith, v.within);
        bytes = memcpy-IsBytes _ spare 0 (slice-bytes r.in_buffer r.in_start n v.bytes) sp;
      };
      same =
          subst
            (λ k.
              slice (memcpy spare 0 (slice r.in_buffer r.in_start n)) 0 k
              ≡ slice r.in_buffer r.in_start n)
            (length-slice r.in_buffer r.in_start n ∙ e)
            (slice-memcpy (slice r.in_buffer r.in_start n) spare 0);
      last = λ full. absurd (omega (arith, v.within));
    }

need_more_lem :
    (spare : Buffer) (r : Reader) (v : IsReader r)
    → IsBytes spare
    → r.in_start + 2 ≤ r.in_end
    → r.in_end - r.in_start < head_size r + 2
    → (r' : Reader) × (need_more spare r (r.in_end - r.in_start) ≡ some ([], r')) × Kept r r'
unfolding need_more move_message moved
need_more_lem spare r v sp h short = elim (Bool-cases (r.in_end == buffer_size)) [
  | inl full ↦ (
    moved spare r,
    ground (arith, ==→eq _ _ full, head_size-lt r v, v.ordered, v.within),
    moved-Kept spare r v sp (omega (arith, head_size-lt r v, ==→eq _ _ full)),
  )
  | inr more ↦ (
    r,
    ground arith,
    record {
      valid = v;
      same = refl;
      last = λ full. absurd (omega (arith, ==→ne _ _ more, v.within));
    },
  )
]

-- A message that lies in its buffer whole.
pub record IsPlaced (m : Message) : Type 0 where
  pub block : Buffer
  pub held : m.buffer ≡ some block
  pub bytes : IsBytes block
  pub within : m.offset + (header_at block m.offset + 2) ≤ buffer_size

-- What the loop has done: the messages are the frames of what was pending, in order.
pub record Cut (r : Reader) (ms : List Message) (r' : Reader) : Type 0 where
  pub valid : IsReader r'
  pub framed : Framed (pending r) (map bytes_of ms) (pending r')
  pub last : buffer_size ≤ r'.in_end → r'.in_end ≤ r'.in_start + 1
  pub stays : length (pending r') < 2 → r'.in_end ≡ r.in_end
  pub placed : All IsPlaced ms

abbrev pub Cuts : Reader → Option (List Message × Reader) → Type 0
Cuts r o = (ms : List Message) × (r' : Reader) × (o ≡ some (ms, r')) × Cut r ms r'

module _ (fuel : ℕ) (spare : Buffer) (r : Reader) (v : IsReader r) (sp : IsBytes spare) where
  cut_done : r.in_end < r.in_start + 2 → Cuts r (handle_messages (suc fuel) spare r)
  unfolding handle_messages
  cut_done h = (
    [],
    r,
    ground (arith, v.ordered, v.within),
    record {
      valid = v;
      framed = record {
        joined = refl;
        complete = tt;
        pending = slice-IsIncomplete r v (r.in_end - r.in_start) (omega arith);
      };
      last = λ full. omega arith;
      stays = λ _. refl;
      placed = tt;
    },
  )

  module _ (h : r.in_start + 2 ≤ r.in_end) where
    handle_messages_step : handle_messages (suc fuel) spare r ≡ (
        if ltb (r.in_end - r.in_start) (head_size r + 2)
        then need_more spare r (r.in_end - r.in_start)
        else (handle_messages fuel spare (advance r v) >>= λ (ms, r'). some (current r ∷ ms, r')))
    unfolding handle_messages advance
    handle_messages_step =
        let e : sub_size r.in_end r.in_start ≡ r.in_end - r.in_start =
          omega (arith, v.ordered, v.within) in
        let whole : leb header_size (r.in_end - r.in_start) ≡ true = ground arith in
        let next : add_size r.in_start (head_size r + 2) ≡ r.in_start + (head_size r + 2) =
          omega (arith, v.ordered, v.within, head_size-lt r v) in
        rw (size-current r v h, e, whole, next)

    cut_short :
        r.in_end - r.in_start < head_size r + 2 → Cuts r (handle_messages (suc fuel) spare r)
    cut_short short =
        let (r', e, k) = need_more_lem spare r v sp h short in
        let test : ltb (r.in_end - r.in_start) (head_size r + 2) ≡ true = lt→ltb _ _ short in
        (
          [],
          r',
          rw (handle_messages_step, test) e,
          record {
            valid = k.valid;
            framed = record {
              joined = k.same;
              complete = tt;
              pending = rw k.same (slice-IsIncomplete r v (r.in_end - r.in_start) short);
            };
            last = k.last;
            stays = λ few. absurd (
                omega (
                  arith,
                  ap length k.same,
                  length-slice r.in_buffer r.in_start (r.in_end - r.in_start),
                ));
            placed = tt;
          },
        )

    cut_whole :
        head_size r + 2 ≤ r.in_end - r.in_start
        → Cuts (advance r v) (handle_messages fuel spare (advance r v))
        → Cuts r (handle_messages (suc fuel) spare r)
    unfolding advance
    cut_whole whole (ms, r', e, c) =
        let test : ltb (r.in_end - r.in_start) (head_size r + 2) ≡ false = le→not_ltb _ _ whole in
        (
          current r ∷ ms,
          r',
          rw (handle_messages_step, test, e),
          record {
            valid = c.valid;
            framed = record {
              joined =
                  rw (bytes_of-current r v h, append_assoc, c.framed.joined)
                    (sym (pending-advance r v (omega arith)));
              complete = (rw (bytes_of-current r v h) (slice-IsFrame r v), c.framed.complete);
              pending = c.framed.pending;
            };
            last = c.last;
            stays = c.stays;
            placed = (
              record {
                block = r.in_buffer;
                held = refl;
                bytes = v.bytes;
                within = omega (arith, v.ordered, v.within, whole);
              },
              c.placed,
            );
          },
        )

-- With more fuel than there are bytes pending the loop ends, with no assertion failing.
pub handle_messages_lem :
    (fuel : ℕ) (spare : Buffer) (r : Reader)
    → IsReader r
    → IsBytes spare
    → r.in_end - r.in_start < fuel
    → Cuts r (handle_messages fuel spare r)
handle_messages_lem zero spare r v sp h = absurd (omega arith)
handle_messages_lem (suc fuel) spare r v sp h = elim (dec_lt r.in_end (r.in_start + 2)) [
  | yes few ↦ cut_done fuel spare r v sp few
  | no enough ↦ elim (dec_lt (r.in_end - r.in_start) (head_size r + 2)) [
    | yes short ↦ cut_short fuel spare r v sp (omega arith) short
    | no whole ↦ cut_whole fuel spare r v sp (omega arith) (omega arith) (
        handle_messages_lem fuel spare (advance r v) (advance-IsReader r v (omega arith)) sp
          (advance-lt r v fuel (omega arith) h))
  ]
]
