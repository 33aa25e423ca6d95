-- ===== src/Message.antt =====
-- library/Message.h and library/Message.cpp: a message is a place in a buffer where a header of two
-- bytes stands, the payload behind it. The outer `none` of a result says that an `assert` fails.
pub mod Encoding
pub mod Decoding
pub mod Frames
mod Tests
use cpp_interface.Prelude.{
  ℕ, ◌+◌, ◌-◌, ◌*◌, ◌/◌, ◌<◌, ◌^◌, Bool, true, false, ◌&&◌, ◌||◌, Option, none, some, List, [], ◌∷◌,
  length, leb, ltb, if◌then◌else◌, to_u8, to_u32, add_size, not, ◌>>=◌,
}
use cpp_interface.Buffer.{Buffer, buffer_size, slice, memcpy, set, header_at}

abbrev pub header_size : ℕ
header_size = 2

-- `std::numeric_limits<std::uint16_t>::max ()`
abbrev pub max_payload : ℕ
max_payload = 65535

pub record Message : Type 0 where
  pub buffer : Option Buffer
  pub offset : ℕ

abbrev pub default_message : Message
default_message = record { buffer = none; offset = 0 }

-- `Message::operator bool`
unfoldable pub is_valid : Message → Bool
is_valid m = elim m.buffer [ none ↦ false | some b ↦ true ]

unfoldable pub size : Message → Option ℕ
size m = m.buffer >>= λ b.
    if leb (add_size m.offset header_size) buffer_size then some (header_at b m.offset) else none

unfoldable pub size_with_header : Message → Option ℕ
size_with_header m = size m >>= λ n. some (to_u32 (n + header_size))

unfoldable pub span : Message → Option (List ℕ)
span m = m.buffer >>= λ b. size_with_header m >>= λ n. some (slice b m.offset n)

unfoldable pub reset : Message → Message
reset m = record m { buffer = none }

-- `get_root` and `verify` are the flatbuffers library's, over the bytes of the payload. The inner
-- `none` is the null pointer.
module _ {P : Type 0} (get_root : List ℕ → P) (verify : List ℕ → Bool) where
  unfoldable pub decode_payload : List ℕ → Bool → Option P
  decode_payload payload verify_ =
      if verify_ && not (verify payload) then none else some (get_root payload)

  decode_at : Buffer → ℕ → ℕ → Bool → Option (Option P)
  unfolding decode_payload
  decode_at b offset size verify_ =
      if leb size (buffer_size - header_size) && leb offset (buffer_size - header_size - size)
      then some (decode_payload (slice b (add_size offset header_size) size) verify_)
      else none

  unfoldable pub decode_flatbuffer : Option Buffer → ℕ → Bool → Option (Option P)
  unfolding decode_at
  decode_flatbuffer none offset verify_ = some none
  decode_flatbuffer (some b) offset verify_ =
      if leb offset (buffer_size - header_size)
      then decode_at b offset (header_at b offset) verify_
      else none

-- The part of `Client::sendInterfacePacket` that writes a message into a buffer: `none` for a payload
-- that the header cannot count.
unfoldable pub encode : Buffer → List ℕ → Option Buffer
encode b payload =
    let size = length payload in
    if ltb max_payload size
    then none
    else some (memcpy (set (set b 0 (to_u8 (size / 2 ^ 8))) 1 (to_u8 size)) header_size payload)
