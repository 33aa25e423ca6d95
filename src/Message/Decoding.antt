-- ===== src/Message/Decoding.antt =====
-- What `Message` reads of a message that lies in its buffer whole, wherever it begins.
use cpp_interface.Prelude.{
  ℕ, ◌≡◌, refl, ap, ◌∙◌, ◌≤◌, ◌<◌, ◌+◌, ◌-◌, Bool, true, some, List, arith, add_size, drop, leb,
}
use cpp_interface.Buffer.{Buffer, IsBytes, buffer_size, slice, header_at}
use cpp_interface.Buffer.Slices.{slice-append, header_at_lem}
use cpp_interface.Message.{
  header_size, size, size_with_header, span, decode_payload, decode_at, decode_flatbuffer,
}

module _ (b : Buffer) (offset : ℕ) (bytes : IsBytes b)
    (within : offset + (header_at b offset + 2) ≤ buffer_size) where
  header-lt : header_at b offset < 65536
  header-lt =
      let e = header_at_lem b offset bytes (omega (arith, within)) in
      omega (arith, e, bytes offset, bytes (offset + 1))

  size-placed :
      size_with_header (record { buffer = some b; offset = offset }) ≡ some (header_at b offset + 2)
  unfolding size_with_header size
  size-placed = ground (arith, header-lt, within)

  pub span-placed :
      span (record { buffer = some b; offset = offset })
      ≡ some (slice b offset (header_at b offset + 2))
  unfolding span
  span-placed = rw size-placed

  pub decode-placed :
      {P : Type 0} (get_root : List ℕ → P) (verify : List ℕ → Bool) (v : Bool)
      → decode_flatbuffer get_root verify (some b) offset v
        ≡ some (decode_payload get_root verify (drop 2 (slice b offset (header_at b offset + 2))) v)
  unfolding decode_flatbuffer decode_at
  decode-placed get_root verify v =
      let n = header_at b offset in
      let low : leb offset (buffer_size - header_size) ≡ true = ground (arith, within) in
      let fits : leb n (buffer_size - header_size) ≡ true = ground (arith, within) in
      let room : leb offset (buffer_size - header_size - n) ≡ true = ground (arith, within) in
      let next : add_size offset header_size ≡ offset + 2 = omega (arith, within) in
      let whole : n + 2 ≡ 2 + n = omega arith in
      let payload : drop 2 (slice b offset (n + 2)) ≡ slice b (offset + 2) n =
        ap (λ k. drop 2 (slice b offset k)) whole ∙ ap (drop 2) (slice-append b offset 2 n) in
      rw (low, fits, room, next, payload) refl
