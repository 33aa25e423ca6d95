-- ===== src/Simulator/Run.antt =====
-- benchmark/Simulator.cpp, run and handlePlayerInput: the handshake with a client, and the ticks, in
-- each of which a packet goes out and one input for each player comes in. The arena is left out, as
-- it answers nothing that decides what run does.
use cpp_interface.Prelude.{
  ℕ, zero, suc, ◌+◌, Bool, true, false, Option, none, some, List, [], ◌∷◌, ◌++◌, ◌>>=◌, ltb,
  if◌then◌else◌, ◌==◌, ◌&&◌, length,
}

-- `MessageType`, as far as run tells it apart or sends it.
pub data MessageType : Type 0 where
  connection_settings init_complete player_input field_info match_configuration : MessageType
  controllable_team_info ball_prediction game_packet other : MessageType

pub record PlayerInput (Controller : Type 0) : Type 0 where
  pub player_index : ℕ
  pub controller_state : Option Controller

-- What flatbuffers reads in a message: its type, and the two packets that run looks into, `none` if
-- they do not verify. The settings say whether ball predictions are wanted.
pub record Reads (M Controller : Type 0) : Type 0 where
  pub type : M → MessageType
  pub wants_ball_predictions : M → Option Bool
  pub as_player_input : M → Option (PlayerInput Controller)

-- What readMessage will return, until it fails; what was written; how many cars there are; the last
-- input of each player, which is that of the car too; and how many delays were measured.
pub record Simulator (M Controller : Type 0) : Type 0 where
  pub incoming : List M
  pub sent : List MessageType
  pub cars : ℕ
  pub last_input : ℕ → Option Controller
  pub delays : ℕ

abbrev pub is_connection_settings : MessageType → Bool
is_connection_settings MessageType.connection_settings = true
is_connection_settings _ = false

abbrev pub is_init_complete : MessageType → Bool
is_init_complete MessageType.init_complete = true
is_init_complete _ = false

abbrev pub is_player_input : MessageType → Bool
is_player_input MessageType.player_input = true
is_player_input _ = false

-- `return false` leaves the state as it is.
infixl 5 ◌and_then◌
abbrev pub ◌and_then◌ : {S : Type 0} → Bool × S → (S → Bool × S) → Bool × S
(true, s) and_then f = f s
(false, s) and_then f = (false, s)

-- `accepts k` says whether the peer takes the message after `k` others; `ticks` is NUM_TICKS.
module _ {M Controller : Type 0} (reads : Reads M Controller) (accepts : ℕ → Bool)
    (players : ℕ) where
  abbrev Outcome : Type 0
  Outcome = Bool × Simulator M Controller

  -- The messages up to one of a type are passed over.
  unfoldable pub wait_for : (MessageType → Bool) → List M → Option (M × List M)
  wait_for is_type [] = none
  wait_for is_type (m ∷ ms) =
      let later = wait_for is_type ms in if is_type (reads.type m) then some (m, ms) else later

  unfoldable pub write_message : MessageType → Simulator M Controller → Outcome
  write_message type s =
      if accepts (length s.sent)
      then (true, record s { sent = s.sent ++ (type ∷ []) })
      else (false, s)

  -- The indices below both counts are those of a player with a car.
  unfoldable pub handle_player_input : M → Simulator M Controller → Option (Simulator M Controller)
  handle_player_input m s = reads.as_player_input m >>= λ input. input.controller_state >>= λ state.
      if ltb input.player_index s.cars && ltb input.player_index players
      then some (record s {
        last_input = λ i. if i == input.player_index then some state else s.last_input i;
        delays = suc s.delays;
      })
      else none

  -- The loop that waits for the inputs of a tick, of which `n` are missing.
  unfoldable pub collect : (n : ℕ) → List M → Simulator M Controller → Outcome
  collect zero ms s = (true, record s { incoming = ms })
  collect (suc n) [] s = (false, record s { incoming = [] })
  collect (suc n) (m ∷ ms) s =
      let passed = collect (suc n) ms s in
      let handled : Outcome = elim (handle_player_input m s) [
        | none ↦ (false, record s { incoming = ms })
        | some t ↦ collect n ms t
      ] in
      if is_player_input (reads.type m) then handled else passed

  unfoldable pub tick : (wants_ball_predictions : Bool) → Simulator M Controller → Outcome
  tick wants s =
      (if wants then write_message MessageType.ball_prediction s else (true, s))
      and_then write_message MessageType.game_packet
      and_then λ t. collect players t.incoming t

  unfoldable pub tick_all :
      (ticks : ℕ) → (wants_ball_predictions : Bool) → Simulator M Controller → Outcome
  tick_all zero wants s = (true, s)
  tick_all (suc n) wants s = tick wants s and_then tick_all n wants

  unfoldable pub write_opening : Simulator M Controller → Outcome
  write_opening s =
      write_message MessageType.field_info s
      and_then write_message MessageType.match_configuration
      and_then write_message MessageType.controllable_team_info

  -- After the handshake, if a message has ended it, the cars are made.
  unfoldable pub play_after :
      (ticks : ℕ)
      → (wants_ball_predictions : Bool) → Simulator M Controller
      → Option (M × List M)
      → Outcome
  play_after ticks wants s none = (false, record s { incoming = [] })
  play_after ticks wants s (some found) =
      tick_all ticks wants (record s { incoming = found.1; cars = s.cars + players; delays = 0 })

  unfoldable pub play :
      (ticks : ℕ) → (wants_ball_predictions : Bool) → Simulator M Controller → Outcome
  play ticks wants s = play_after ticks wants s (wait_for is_init_complete s.incoming)

  -- `wants` is what the settings say, if they verify.
  unfoldable pub open_match : (ticks : ℕ) → Simulator M Controller → (wants : Option Bool) → Outcome
  open_match ticks s none = (false, s)
  open_match ticks s (some wants) = write_opening s and_then play ticks wants

  unfoldable pub run_after : (ticks : ℕ) → Simulator M Controller → Option (M × List M) → Outcome
  run_after ticks s none = (false, record s { incoming = [] })
  run_after ticks s (some found) =
      open_match ticks (record s { incoming = found.1 }) (reads.wants_ball_predictions found.0)

  unfoldable pub run : (ticks : ℕ) → Simulator M Controller → Outcome
  run ticks s = run_after ticks s (wait_for is_connection_settings s.incoming)
