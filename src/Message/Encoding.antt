-- ===== src/Message/Encoding.antt =====
-- What `Client::sendInterfacePacket` writes is what `Message` reads back.
use native.Mathlib.Decide.{dec_lt}
use mathlib.Core.Path.{subst}
use mathlib.Core.Option.{some-injective}
use cpp_interface.Prelude.{
  sym, ℕ, ◌+◌, ◌/◌, ◌≤◌, ◌<◌, ◌^◌, ◌≡◌, ap, ◌∙◌, Bool, none, some, List, [], ◌∷◌, ◌++◌, length,
  arith, add_size, to_u8, to_u32, All,
}
use cpp_interface.Buffer.{Buffer, IsBytes, slice, memcpy, set, header_at}
use cpp_interface.Buffer.Slices.{
  slice-append, slice-memcpy, memcpy_below, set_self, set_ne, header_at_lem, set-IsBytes,
  memcpy-IsBytes,
}
use cpp_interface.Message.{
  Message, max_payload, header_size, size, size_with_header, span, decode_flatbuffer,
  decode_payload, decode_at, encode,
}

-- The header of a payload.
abbrev pub header_bytes : ℕ → List ℕ
header_bytes n = to_u8 (n / 2 ^ 8) ∷ to_u8 n ∷ []

abbrev headed : Buffer → ℕ → Buffer
headed b n = set (set b 0 (to_u8 (n / 2 ^ 8))) 1 (to_u8 n)

headed-IsBytes : (b : Buffer) (n : ℕ) → IsBytes b → IsBytes (headed b n)
headed-IsBytes b n h =
    set-IsBytes _ 1 (to_u8 n) (omega arith) (set-IsBytes b 0 (to_u8 (n / 2 ^ 8)) (omega arith) h)

module _ (b : Buffer) (payload : List ℕ) where
  unfoldable pub written : Buffer
  written = memcpy (headed b (length payload)) header_size payload

  byte_zero : written 0 ≡ to_u8 (length payload / 2 ^ 8)
  unfolding written
  byte_zero =
      memcpy_below payload _ 2 0 (omega arith) ∙ set_ne _ 1 _ 0 (omega arith) ∙ set_self b 0 _

  byte_one : written 1 ≡ to_u8 (length payload)
  unfolding written
  byte_one = memcpy_below payload _ 2 1 (omega arith) ∙ set_self _ 1 _

  module _ (bytes : IsBytes b) (fits : length payload ≤ max_payload)
      (all : All (λ x. x < 256) payload) where
    pub written-IsBytes : IsBytes written
    unfolding written
    written-IsBytes = memcpy-IsBytes payload _ 2 all (headed-IsBytes b (length payload) bytes)

    header_at-written : header_at written 0 ≡ length payload
    header_at-written =
        omega (arith, header_at_lem written 0 written-IsBytes (omega arith), byte_zero, byte_one)

    abbrev sent : Message
    sent = record { buffer = some written; offset = 0 }

    pub size-sent : size sent ≡ some (length payload)
    unfolding size
    size-sent = ap some header_at-written

    pub size_with_header-sent : size_with_header sent ≡ some (length payload + 2)
    unfolding size_with_header size
    size_with_header-sent =
        let e : to_u32 (header_at written 0 + header_size) ≡ length payload + 2 =
          omega (arith, header_at-written) in
        ap some e

    slice-written : slice written 0 (length payload + 2) ≡ header_bytes (length payload) ++ payload
    unfolding written
    slice-written =
        let e : length payload + 2 ≡ 2 + length payload = omega arith in
        ap (slice written 0) e
        ∙ slice-append written 0 2 (length payload)
        ∙ ap (λ x. x ∷ written 1 ∷ slice written 2 (length payload)) byte_zero
        ∙ ap (λ x. to_u8 (length payload / 2 ^ 8) ∷ x ∷ slice written 2 (length payload)) byte_one
        ∙ ap (λ xs. header_bytes (length payload) ++ xs) (slice-memcpy payload _ 2)

    pub span-sent : span sent ≡ some (header_bytes (length payload) ++ payload)
    unfolding span
    span-sent = rw (size_with_header-sent) (ap some slice-written)

    payload-written : slice written (add_size 0 header_size) (header_at written 0) ≡ payload
    unfolding written
    payload-written = rw header_at-written (slice-memcpy payload _ 2)

    decode-sent :
        {P : Type 0} (get_root : List ℕ → P) (verify : List ℕ → Bool) (v : Bool)
        → decode_flatbuffer get_root verify (some written) 0 v
          ≡ some (decode_payload get_root verify payload v)
    unfolding decode_flatbuffer decode_at
    decode-sent get_root verify v =
        let some_payload = λ (xs : List ℕ). some (decode_payload get_root verify xs v) in
        ground (arith, header_at-written, ap some_payload payload-written)

pub encode_fits :
    (b : Buffer) (payload : List ℕ)
    → length payload ≤ max_payload
    → encode b payload ≡ some (written b payload)
unfolding encode written
encode_fits b payload h = ground arith

pub encode_large :
    (b : Buffer) (payload : List ℕ) → max_payload < length payload → encode b payload ≡ none
unfolding encode
encode_large b payload h = ground arith

encode-eq-some :
    (b b' : Buffer) (payload : List ℕ)
    → encode b payload ≡ some b'
    → (length payload ≤ max_payload) × (written b payload ≡ b')
encode-eq-some b b' payload e = elim (dec_lt max_payload (length payload)) [
  | yes h ↦ cc (encode_large b payload h)
  | no h ↦ (omega arith, some-injective _ _ (sym (encode_fits b payload (omega arith)) ∙ e))
]

-- A payload that is encoded is read back whole: the header counts it, the span is the header and
-- the payload, and decoding hands the payload to flatbuffers, with no assertion failing.
pub decode-encode :
    {P : Type 0} (get_root : List ℕ → P) (verify : List ℕ → Bool) (b b' : Buffer) (payload : List ℕ)
    (v : Bool)
    → IsBytes b
    → All (λ x. x < 256) payload
    → encode b payload ≡ some b'
    → (size (record { buffer = some b'; offset = 0 }) ≡ some (length payload))
      × (span (record { buffer = some b'; offset = 0 })
          ≡ some (header_bytes (length payload) ++ payload))
      × (decode_flatbuffer get_root verify (some b') 0 v
          ≡ some (decode_payload get_root verify payload v))
decode-encode get_root verify b b' payload v bytes all e =
    let (fits, same) = encode-eq-some b b' payload e in
    subst
      (λ x.
        (size (record { buffer = some x; offset = 0 }) ≡ some (length payload))
        × (span (record { buffer = some x; offset = 0 })
            ≡ some (header_bytes (length payload) ++ payload))
        × (decode_flatbuffer get_root verify (some x) 0 v
            ≡ some (decode_payload get_root verify payload v)))
      same
      (
        size-sent b payload bytes fits all,
        span-sent b payload bytes fits all,
        decode-sent b payload bytes fits all get_root verify v,
      )
