-- ===== src/Client/Packets/Typed.antt =====
-- What a message decodes to, and what the handlers are told of packets with their types.
use cpp_interface.Prelude.{ℕ, ◌≡◌, ◌≢◌, ◌+◌, Bool, true, some, List, [], ◌∷◌, if◌then◌else◌, drop}
use cpp_interface.Buffer.{slice, header_at}
use cpp_interface.Message.{Message, span, decode_payload, decode_flatbuffer}
use cpp_interface.Message.Decoding.{span-placed, decode-placed}
use cpp_interface.Client.Reader.Loop.{IsPlaced, bytes_of}
use cpp_interface.Client.Packets.{CoreMessage, Flatbuffers, Handlers}

-- The payload of a frame.
abbrev pub payload_of : List ℕ → List ℕ
payload_of f = drop 2 f

pub decode-IsPlaced :
    {P : Type 0} (get_root : List ℕ → P) (verify : List ℕ → Bool) (m : Message)
    → IsPlaced m
    → decode_flatbuffer get_root verify m.buffer m.offset true
      ≡ some (decode_payload get_root verify (payload_of (bytes_of m)) true)
decode-IsPlaced get_root verify m h =
    let spanned : span m ≡ some (slice h.block m.offset (header_at h.block m.offset + 2)) =
      rw h.held (span-placed h.block m.offset h.bytes h.within) in
    rw (bytes_of, spanned, h.held)
      (decode-placed h.block m.offset h.bytes h.within get_root verify true)

module _ {P : Type 0} {Payload : CoreMessage → Type 0} (flat : Flatbuffers P Payload) where
  -- The schema requires a message, so that a verified packet of a known type has one, of that type.
  abbrev pub IsTyped : Type 0
  IsTyped =
      (payload : List ℕ)
      → flat.verify payload ≡ true
      → flat.message_type (flat.get_root payload) ≢ CoreMessage.unknown
      → (x : Payload (flat.message_type (flat.get_root payload))) × (flat.message_as
            (flat.message_type (flat.get_root payload)) (flat.get_root payload)
          ≡ some x)

  -- The packets of the frames whose payload verifies, in order.
  abbrev pub packets : List (List ℕ) → List P
  packets [] = []
  packets (f ∷ fs) =
      let rest = packets fs in
      if flat.verify (payload_of f) then flat.get_root (payload_of f) ∷ rest else rest

  -- The packets of a known type, each with its type and what it holds.
  pub data Handed : List P → List ((k : CoreMessage) × Payload k) → Type 0 where
    no_more : Handed [] []
    known :
        {ps : List P} {events : List ((k : CoreMessage) × Payload k)}
        → (p : P) (x : Payload (flat.message_type p)) → flat.message_type p ≢ CoreMessage.unknown
        → flat.message_as (flat.message_type p) p ≡ some x
        → Handed ps events
        → Handed (p ∷ ps) ((flat.message_type p, x) ∷ events)
    not_known :
        {ps : List P} {events : List ((k : CoreMessage) × Payload k)}
        → (p : P) → flat.message_type p ≡ CoreMessage.unknown
        → Handed ps events
        → Handed (p ∷ ps) events

module _ {S : Type 0} {Payload : CoreMessage → Type 0} (handlers : Handlers Payload S) where
  -- The handler of the type gets what the packet holds.
  abbrev pub tell : (k : CoreMessage) → Payload k → S → S
  tell CoreMessage.disconnect_signal x s = handlers.handle_disconnect_signal (some x) s
  tell CoreMessage.game_packet x s = handlers.handle_game_packet (some x) s
  tell CoreMessage.field_info x s = handlers.handle_field_info (some x) s
  tell CoreMessage.match_configuration x s = handlers.handle_match_configuration (some x) s
  tell CoreMessage.match_comm x s = handlers.handle_match_comm (some x) s
  tell CoreMessage.ball_prediction x s = handlers.handle_ball_prediction (some x) s
  tell CoreMessage.controllable_team_info x s = handlers.handle_controllable_team_info (some x) s
  tell CoreMessage.rendering_status x s = handlers.handle_rendering_status (some x) s
  tell CoreMessage.unknown x s = s

  abbrev pub tell_all : List ((k : CoreMessage) × Payload k) → S → S
  tell_all [] s = s
  tell_all (e ∷ es) s = tell_all es (tell e.0 e.1 s)
