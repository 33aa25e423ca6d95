-- ===== src/Client/Sends.antt =====
-- library/Client.cpp: `sendDisconnectSignal` to `sendRenderingStatus`, each of which wraps its
-- packet as an `InterfacePacket` and sends that. flatc generates the packets and flatbuffers
-- serializes them.
use cpp_interface.Prelude.{ℕ, Option, List}
use cpp_interface.Buffer.{Buffer}
use cpp_interface.Client.Writer.{Writer, Ring, Submission, send_interface_packet}

-- `rlbot::flat::InterfaceMessage`: what each of the functions sends.
pub data InterfaceMessage : Type 0 where
  disconnect_signal start_command match_configuration player_input desired_game_state :
      InterfaceMessage
  render_group remove_render_group match_comm connection_settings stop_command : InterfaceMessage
  set_loadout init_complete rendering_status : InterfaceMessage

-- `set` is `interfacePacket.message.Set` on a new packet.
pub record Builder (P : Type 0) (Payload : InterfaceMessage → Type 0) : Type 0 where
  pub set : (k : InterfaceMessage) → Payload k → P
  pub serialize : P → List ℕ

module _ {P : Type 0} {Payload : InterfaceMessage → Type 0} (flat : Builder P Payload) where
  abbrev pub build_interface_packet : (k : InterfaceMessage) → Payload k → P
  build_interface_packet k x = flat.set k x

  -- The function of the name of `k`.
  unfoldable pub send :
      Ring → Buffer → Writer → (k : InterfaceMessage) → Payload k → Option (Writer × Submission)
  send ring buffer w k x =
      send_interface_packet ring buffer w (flat.serialize (build_interface_packet k x))
