-- ===== src/Client/Reader/Stream.antt =====
-- What `handleRead` makes of a stream, however the kernel cuts it into reads.
use cpp_interface.Prelude.{
  ◌⊎◌, ℕ, suc, ◌+◌, ◌-◌, ◌≤◌, ◌<◌, ◌≡◌, ◌≢◌, refl, ap, ap₂, sym, ◌∙◌, Option, some, List, [], ◌∷◌,
  ◌++◌, length, map, All, All-append, arith, append-nil, append_assoc, add_size, sub_size, to_u32,
  Bool-cases, inl, inr, ==→eq, ==→ne, ◌==◌, ne→not_==, true, false, leb,
}
use native.Mathlib.Decide.{dec_lt}
use mathlib.Core.Path.{subst, subst₂}
use mathlib.Core.List.{map-append}
use mathlib.Core.Option.{some-injective}
use cpp_interface.Buffer.{Buffer, IsBytes, buffer_size, slice, memcpy}
use cpp_interface.Buffer.Slices.{
  slice-append, slice-memcpy, slice-memcpy_below, memcpy-IsBytes, length-slice,
}
use cpp_interface.Message.{Message}
use cpp_interface.Message.Frames.{IsIncomplete, Framed, Framed-append, Framed-unique}
use cpp_interface.Client.Reader.{
  Reader, Next, terminate, request_read, handle_messages, handle_read, receive, renew, room,
}
use cpp_interface.Client.Reader.Loop.{IsReader, pending, bytes_of, IsPlaced, handle_messages_lem}

-- The reader with the read counted, as the loop finds it.
abbrev grown : Reader → List ℕ → Reader
grown r chunk = record {
  in_buffer = memcpy r.in_buffer r.in_end chunk;
  in_start = r.in_start;
  in_end = r.in_end + length chunk;
}

module _ (r : Reader) (chunk : List ℕ) (v : IsReader r)
    (fits : r.in_end + length chunk ≤ buffer_size) where
  grown-IsReader : All (λ x. x < 256) chunk → IsReader (grown r chunk)
  grown-IsReader all = record {
    ordered = omega (arith, v.ordered);
    within = fits;
    bytes = memcpy-IsBytes chunk r.in_buffer r.in_end all v.bytes;
  }

  pending-grown : pending (grown r chunk) ≡ pending r ++ chunk
  pending-grown =
      let b : Buffer = memcpy r.in_buffer r.in_end chunk in
      let e : r.in_end + length chunk - r.in_start ≡ (r.in_end - r.in_start) + length chunk =
        omega (arith, v.ordered) in
      let f : r.in_start + (r.in_end - r.in_start) ≡ r.in_end = omega (arith, v.ordered) in
      ap (slice b r.in_start) e
      ∙ slice-append b r.in_start (r.in_end - r.in_start) (length chunk)
      ∙ ap₂ ◌++◌
          (slice-memcpy_below chunk r.in_buffer r.in_end r.in_start (r.in_end - r.in_start)
            (omega (arith, v.ordered)))
          (ap (λ k. slice b k (length chunk)) f ∙ slice-memcpy chunk r.in_buffer r.in_end)

  handle_read_step :
      (spare next : Buffer) (ms : List Message) (s : Reader)
      → 0 < length chunk
      → handle_messages (suc ((grown r chunk).in_end - r.in_start)) spare (grown r chunk)
        ≡ some (ms, s)
      → handle_read spare next (receive r chunk) (length chunk)
        ≡ some (ms, renew next s, request_read (room (renew next s)))
  unfolding handle_read receive
  handle_read_step spare next ms s some_bytes e =
      let same : add_size r.in_end (to_u32 (length chunk)) ≡ r.in_end + length chunk =
        omega arith in
      let left : sub_size (r.in_end + length chunk) r.in_start
          ≡ r.in_end + length chunk - r.in_start =
        omega (arith, v.ordered) in
      let test : leb r.in_start (r.in_end + length chunk) ≡ true = ground (arith, v.ordered) in
      let more : (length chunk == 0) ≡ false = ne→not_== _ _ (omega arith) in
      rw (more, same, test, left, e)

renew-IsReader : (next : Buffer) (s : Reader) → IsBytes next → IsReader s → IsReader (renew next s)
unfolding renew
renew-IsReader next s b v = elim (Bool-cases (s.in_start == s.in_end)) [
  | inl e ↦ rw e (record { ordered = omega arith; within = omega arith; bytes = b })
  | inr n ↦ rw n v
]

pending-renew : (next : Buffer) (s : Reader) → pending (renew next s) ≡ pending s
unfolding renew
pending-renew next s = elim (Bool-cases (s.in_start == s.in_end)) [
  | inl e ↦
      let none_left : 0 ≡ s.in_end - s.in_start = omega (arith, ==→eq _ _ e) in
      rw e (ap (slice s.in_buffer s.in_start) none_left)
  | inr n ↦ rw n
]

renew-last :
    (next : Buffer) (s : Reader)
    → IsReader s
    → (buffer_size ≤ s.in_end → s.in_end ≤ s.in_start + 1)
    → ((renew next s).in_end < buffer_size)
      ⊎ (((renew next s).in_end ≡ buffer_size)
          × ((renew next s).in_end ≡ (renew next s).in_start + 1))
unfolding renew
renew-last next s v last = elim (Bool-cases (s.in_start == s.in_end)) [
  | inl e ↦ rw e (inl (omega arith))
  | inr n ↦ rw n (elim (dec_lt s.in_end buffer_size) [
    | yes h ↦ inl h
    | no h ↦
        inr (omega (arith, v.within), omega (arith, last (omega arith), v.ordered, ==→ne _ _ n))
  ])
]

-- A read of some bytes, that fit, with the place of each message.
pub handle_read-IsPlaced :
    (r : Reader) (spare next : Buffer) (chunk : List ℕ)
    → IsReader r
    → IsBytes spare
    → IsBytes next
    → All (λ x. x < 256) chunk
    → 0 < length chunk
    → r.in_end + length chunk ≤ buffer_size
    → (ms : List Message) × (r' : Reader) × (handle_read spare next (receive r chunk) (length chunk)
        ≡ some (ms, r', request_read (buffer_size - r'.in_end)))
      × (IsReader r'
          × Framed (pending r ++ chunk) (map bytes_of ms) (pending r')
          × ((r'.in_end < buffer_size)
              ⊎ ((r'.in_end ≡ buffer_size) × (r'.in_end ≡ r'.in_start + 1))))
      × All IsPlaced ms
handle_read-IsPlaced r spare next chunk v sp nx all some_bytes fits =
    let (ms, s, e, c) =
      handle_messages_lem (suc ((grown r chunk).in_end - r.in_start)) spare (grown r chunk)
        (grown-IsReader r chunk v fits all) sp (omega arith) in
    let r' : Reader = renew next s in
    let v' : IsReader r' = renew-IsReader next s nx c.valid in
    let size : room r' ≡ buffer_size - r'.in_end = omega (arith, v'.within) in
    (
      ms,
      r',
      handle_read_step r chunk v fits spare next ms s some_bytes e
          ∙ ap (λ n. some (ms, r', request_read n)) size,
      (
        v',
        subst (λ xs. Framed xs (map bytes_of ms) (pending r')) (pending-grown r chunk v fits)
            (subst (λ ys. Framed (pending (grown r chunk)) (map bytes_of ms) ys)
              (sym (pending-renew next s)) c.framed),
        renew-last next s c.valid c.last,
      ),
      c.placed,
    )

-- A read of some bytes, that fit, is handled with no assertion failing: the messages handed on are
-- exactly the complete frames of what was pending and the new bytes, in order, and the incomplete
-- rest stays pending in a well-formed reader. It requests as many bytes as its buffer has room for,
-- which is at least one unless a single byte is pending at the very end of the buffer.
pub handle_read-Framed :
    (r : Reader) (spare next : Buffer) (chunk : List ℕ)
    → IsReader r
    → IsBytes spare
    → IsBytes next
    → All (λ x. x < 256) chunk
    → 0 < length chunk
    → r.in_end + length chunk ≤ buffer_size
    → (ms : List Message) × (r' : Reader) × (handle_read spare next (receive r chunk) (length chunk)
        ≡ some (ms, r', request_read (buffer_size - r'.in_end)))
      × IsReader r'
      × Framed (pending r ++ chunk) (map bytes_of ms) (pending r')
      × ((r'.in_end < buffer_size) ⊎ ((r'.in_end ≡ buffer_size) × (r'.in_end ≡ r'.in_start + 1)))
handle_read-Framed r spare next chunk v sp nx all some_bytes fits =
    let (ms, r', e, (v', framed, last), placed) =
      handle_read-IsPlaced r spare next chunk v sp nx all some_bytes fits in
    (ms, r', e, v', framed, last)

renew_stays : (next : Buffer) (s : Reader) → s.in_start ≢ s.in_end → renew next s ≡ s
unfolding renew
renew_stays next s h = rw (ne→not_== _ _ h)

-- If a read fills the buffer to its end and leaves one byte, the first half of a header, then the
-- next request is for zero bytes; the read of zero bytes that answers it ends the connection.
pub handle_read_one_byte_left :
    (r : Reader) (spare next spare' next' : Buffer) (chunk : List ℕ) (fs : List (List ℕ)) (x : ℕ)
    → IsReader r
    → IsBytes spare
    → IsBytes next
    → All (λ x. x < 256) chunk
    → 0 < length chunk
    → r.in_end + length chunk ≡ buffer_size
    → Framed (pending r ++ chunk) fs (x ∷ [])
    → (ms : List Message) × (r' : Reader) × (handle_read spare next (receive r chunk) (length chunk)
        ≡ some (ms, r', request_read 0))
      × (map bytes_of ms ≡ fs)
      × (pending r' ≡ x ∷ [])
      × (handle_read spare' next' (receive r' []) 0 ≡ some ([], receive r' [], terminate))
unfolding handle_read
handle_read_one_byte_left r spare next spare' next' chunk fs x v sp nx all some_bytes full one =
    let (ms, s, e, c) =
      handle_messages_lem (suc ((grown r chunk).in_end - r.in_start)) spare (grown r chunk)
        (grown-IsReader r chunk v (omega arith) all) sp (omega arith) in
    let framed =
      subst (λ xs. Framed xs (map bytes_of ms) (pending s)) (pending-grown r chunk v (omega arith))
        c.framed in
    let (same, left) = Framed-unique framed one in
    let count : s.in_end - s.in_start ≡ 1 =
      sym (length-slice s.in_buffer s.in_start (s.in_end - s.in_start)) ∙ ap length left in
    let at_end : s.in_end ≡ buffer_size = c.stays (omega (arith, ap length left)) ∙ full in
    let kept : renew next s ≡ s = renew_stays next s (omega arith) in
    let size : room (renew next s) ≡ 0 = ap room kept ∙ (omega arith) in
    (
      ms,
      s,
      handle_read_step r chunk v (omega arith) spare next ms s some_bytes e
          ∙ ap₂ (λ t n. some (ms, t, request_read n)) kept size,
      same,
      left,
      refl,
    )

-- A history of reads from the reader `r`: the kernel delivers some bytes that fit the request, the
-- pool returns buffers, and `handleRead` runs.
pub data Reads (r : Reader) : List ℕ → List Message → Reader → Type 0 where
  start : Reads r [] [] r
  then_read :
      {s : List ℕ} {ns : List Message} {q : Reader}
      → Reads r s ns q
      → (spare next : Buffer) (chunk : List ℕ) → IsBytes spare
      → IsBytes next
      → All (λ x. x < 256) chunk
      → 0 < length chunk
      → q.in_end + length chunk ≤ buffer_size
      → {ls : List Message} {r' : Reader} {n : ℕ}
      → handle_read spare next (receive q chunk) (length chunk) ≡ some (ls, r', request_read n)
      → Reads r (s ++ chunk) (ns ++ ls) r'

-- The reader stays well-formed, and has read the stream as frames.
pub record HasRead (r : Reader) (stream : List ℕ) (ms : List Message) (r' : Reader) : Type 0 where
  pub valid : IsReader r'
  pub framed : Framed (pending r ++ stream) (map bytes_of ms) (pending r')
  pub placed : All IsPlaced ms

some_pair :
    {ms ls : List Message} {r s : Reader} {n m : Next}
    → ◌≡◌ {A = Option (List Message × Reader × Next)} (some (ms, r, n)) (some (ls, s, m))
    → (ms ≡ ls) × (r ≡ s)
some_pair e = let p = some-injective _ _ e in (ap (λ t. t.0) p, ap (λ t. t.1) p)

step-HasRead :
    (r : Reader) (s : List ℕ) (ns ls : List Message) (q r' : Reader) (chunk : List ℕ)
    (spare next : Buffer) (n : ℕ)
    → HasRead r s ns q
    → IsBytes spare
    → IsBytes next
    → All (λ x. x < 256) chunk
    → 0 < length chunk
    → q.in_end + length chunk ≤ buffer_size
    → handle_read spare next (receive q chunk) (length chunk) ≡ some (ls, r', request_read n)
    → HasRead r (s ++ chunk) (ns ++ ls) r'
step-HasRead r s ns ls q r' chunk spare next n h sp nx all some_bytes fits e =
    let (ms, t, f, (v, framed, last), placed) =
      handle_read-IsPlaced q spare next chunk h.valid sp nx all some_bytes fits in
    let (same_ms, same_r) = some_pair (sym f ∙ e) in
    record {
      valid = subst IsReader same_r v;
      framed =
          subst (λ x. Framed x (map bytes_of (ns ++ ls)) (pending r'))
            (append_assoc (pending r) s chunk)
            (subst (λ x. Framed ((pending r ++ s) ++ chunk) x (pending r'))
              (sym (map-append bytes_of ns ls))
              (Framed-append chunk h.framed (
                subst₂ (λ x y. Framed (pending q ++ chunk) (map bytes_of x) (pending y)) same_ms
                  same_r framed)));
      placed = All-append IsPlaced ns ls h.placed (subst (All IsPlaced) same_ms placed);
    }

-- However many reads deliver a stream, the messages handled are its complete frames in order.
pub Reads-HasRead :
    {r r' : Reader} {stream : List ℕ} {ms : List Message}
    → IsReader r
    → IsIncomplete (pending r)
    → Reads r stream ms r'
    → HasRead r stream ms r'
Reads-HasRead {r} v i start = record {
  valid = v;
  framed = record { joined = sym (append-nil (pending r)); complete = tt; pending = i };
  placed = tt;
}
Reads-HasRead {r} v i
      (then_read {s} {ns} {q} before spare next chunk sp nx all some_bytes fits {ls} {r'} {n} e) =
    step-HasRead r s ns ls q r' chunk spare next n (Reads-HasRead v i before) sp nx all some_bytes
      fits e

-- Two histories that deliver one stream hand on the same messages, whatever the sizes of the reads,
-- and leave the same bytes pending.
pub Reads-unique :
    {r p q : Reader} {stream : List ℕ} {ms ns : List Message}
    → IsReader r
    → IsIncomplete (pending r)
    → Reads r stream ms p
    → Reads r stream ns q
    → (map bytes_of ms ≡ map bytes_of ns) × (pending p ≡ pending q)
Reads-unique v i a b = Framed-unique (Reads-HasRead v i a).framed (Reads-HasRead v i b).framed
