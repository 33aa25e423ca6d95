-- ===== src/Client/Packets.antt =====
-- library/Client.cpp, `handleMessage` and `handleCorePacket`: a message is decoded and handed to the
-- one handler for packets of its type. The type of the state `S` is that of the client and what
-- derives from it. `none` says that an assertion fails.
pub mod Typed
pub mod Dispatch
use cpp_interface.Prelude.{ℕ, Option, none, some, List, [], ◌∷◌, Bool, true, ◌>>=◌}
use cpp_interface.Buffer.{Buffer}
use cpp_interface.Message.{Message, decode_flatbuffer}
use cpp_interface.Client.Reader.{Reader, Next, handle_read}

-- `rlbot::flat::CoreMessage`; `unknown` is any other value of its byte.
pub data CoreMessage : Type 0 where
  disconnect_signal game_packet field_info match_configuration match_comm : CoreMessage
  ball_prediction controllable_team_info rendering_status unknown : CoreMessage

-- What flatbuffers generates for a core packet `P`: `message_as` stands for the accessors
-- `message_as_GamePacket ()` and so on, one for each type, with the null pointer as `none`.
pub record Flatbuffers (P : Type 0) (Payload : CoreMessage → Type 0) : Type 0 where
  pub get_root : List ℕ → P
  pub verify : List ℕ → Bool
  pub message_type : P → CoreMessage
  pub message_as : (k : CoreMessage) → P → Option (Payload k)

-- The virtual handlers of a client, as functions on its state.
pub record Handlers (Payload : CoreMessage → Type 0) (S : Type 0) : Type 0 where
  pub handle_disconnect_signal : Option (Payload CoreMessage.disconnect_signal) → S → S
  pub handle_game_packet : Option (Payload CoreMessage.game_packet) → S → S
  pub handle_field_info : Option (Payload CoreMessage.field_info) → S → S
  pub handle_match_configuration : Option (Payload CoreMessage.match_configuration) → S → S
  pub handle_match_comm : Option (Payload CoreMessage.match_comm) → S → S
  pub handle_ball_prediction : Option (Payload CoreMessage.ball_prediction) → S → S
  pub handle_controllable_team_info : Option (Payload CoreMessage.controllable_team_info) → S → S
  pub handle_rendering_status : Option (Payload CoreMessage.rendering_status) → S → S

-- The handlers of `Client` itself.
abbrev pub default_handlers : {Payload : CoreMessage → Type 0} {S : Type 0} → Handlers Payload S
default_handlers = record {
  handle_disconnect_signal = λ p s. s;
  handle_game_packet = λ p s. s;
  handle_field_info = λ p s. s;
  handle_match_configuration = λ p s. s;
  handle_match_comm = λ p s. s;
  handle_ball_prediction = λ p s. s;
  handle_controllable_team_info = λ p s. s;
  handle_rendering_status = λ p s. s;
}

module _ {P S : Type 0} {Payload : CoreMessage → Type 0} (flat : Flatbuffers P Payload)
    (handlers : Handlers Payload S) where
  -- The `switch` on the type of the packet.
  unfoldable pub switch_type : CoreMessage → P → S → S
  switch_type CoreMessage.disconnect_signal p s =
      handlers.handle_disconnect_signal (flat.message_as CoreMessage.disconnect_signal p) s
  switch_type CoreMessage.game_packet p s =
      handlers.handle_game_packet (flat.message_as CoreMessage.game_packet p) s
  switch_type CoreMessage.field_info p s =
      handlers.handle_field_info (flat.message_as CoreMessage.field_info p) s
  switch_type CoreMessage.match_configuration p s =
      handlers.handle_match_configuration (flat.message_as CoreMessage.match_configuration p) s
  switch_type CoreMessage.match_comm p s =
      handlers.handle_match_comm (flat.message_as CoreMessage.match_comm p) s
  switch_type CoreMessage.ball_prediction p s =
      handlers.handle_ball_prediction (flat.message_as CoreMessage.ball_prediction p) s
  switch_type CoreMessage.controllable_team_info p s =
      handlers.handle_controllable_team_info (flat.message_as CoreMessage.controllable_team_info p)
        s
  switch_type CoreMessage.rendering_status p s =
      handlers.handle_rendering_status (flat.message_as CoreMessage.rendering_status p) s
  switch_type CoreMessage.unknown p s = s

  abbrev pub handle_core_packet : P → S → S
  handle_core_packet p s = switch_type (flat.message_type p) p s

  unfoldable pub handle_message : Message → S → Option S
  handle_message m s =
      decode_flatbuffer flat.get_root flat.verify m.buffer m.offset true >>= λ packet.
      some (elim packet [ none ↦ s | some p ↦ handle_core_packet p s ])

  -- The messages of a read, in order.
  unfoldable pub handle_all : List Message → S → Option S
  handle_all [] s = some s
  handle_all (m ∷ ms) s = handle_message m s >>= λ t. handle_all ms t

  -- `handleRead` of a client with these handlers.
  unfoldable pub handle_read_with :
      (spare next : Buffer) → Reader → (count : ℕ) → S → Option (S × Reader × Next)
  handle_read_with spare next r count s = handle_read spare next r count >>= λ (ms, r', then_next).
      handle_all ms s >>= λ t. some (t, r', then_next)
