-- ===== src/BotManager/Dispatch.antt =====
-- library/BotManager.cpp: the manager that keeps three messages, spawns the bots when it has all of
-- them, and passes the other packets on to their contexts; connect and handleMessage. A message is of
-- a type `Mail`; an absent one is `none`. A result of `none` is a failed assertion.
use cpp_interface.Prelude.{
  ℕ, Bool, true, false, Option, none, some, List, [], ◌∷◌, ◌++◌, ◌&&◌, if◌then◌else◌, is_empty,
  ◌>>=◌, map,
}
use cpp_interface.Bot.{Bot}
use cpp_interface.BotContext.{
  CoreMessage, BotContext, Hooks, Packet, service_loop, set_game_packet, set_ball_prediction,
  add_match_comm,
}
use cpp_interface.BotManager.{TeamInfo, Spawned, spawn_bots}

-- `message_as_ControllableTeamInfo ()` and the other two are not null.
abbrev pub is_team_info : Option CoreMessage → Bool
is_team_info (some CoreMessage.controllable_team_info) = true
is_team_info _ = false

abbrev pub is_field_info : Option CoreMessage → Bool
is_field_info (some CoreMessage.field_info) = true
is_field_info _ = false

abbrev pub is_configuration : Option CoreMessage → Bool
is_configuration (some CoreMessage.match_configuration) = true
is_configuration _ = false

-- What the manager sends, and what the first bot sends on the manager's thread.
pub data Sent (Output GameState Render Loadout : Type 0) : Type 0 where
  set_loadout : (index : ℕ) → Loadout → Sent Output GameState Render Loadout
  init_complete : Sent Output GameState Render Loadout
  connection_settings :
      (agent_id : List ℕ) → (wants_ball_predictions : Bool) → Sent Output GameState Render Loadout
  from_bot : Packet Output GameState Render → Sent Output GameState Render Loadout

-- What flatbuffers reads in a message, what the user writes, and what a set holds after a move.
pub record World (Mail User Output GameState Render Loadout : Type 0) : Type 0 where
  pub hooks : Hooks Mail User Output GameState Render
  pub team_info : (controllables configuration : Mail) → TeamInfo
  pub enable_rendering : Mail → Bool
  pub enable_state_setting : Mail → Bool
  pub spawn : Spawned → User × Bot Output GameState Render
  pub loadout : Spawned → ℕ → Option Loadout
  pub on_initialize :
      (controllables field configuration : Mail)
      → User
      → Bot Output GameState Render
      → User × Bot Output GameState Render
  pub moved_from : List ℕ → List ℕ

-- `BotManagerImpl`
pub record Manager (Mail User Output GameState Render : Type 0) : Type 0 where
  pub controllable_team_info_message : Option Mail
  pub field_info_message : Option Mail
  pub match_configuration_message : Option Mail
  pub bots : List (BotContext Mail User Output GameState Render)
  pub batch_hivemind : Bool

-- The agent id that is given, or that of the environment if it is not empty.
abbrev pub agent_id_of : Option (List ℕ) → Option (List ℕ) → Option (List ℕ)
agent_id_of (some given) environment = some given
agent_id_of none none = none
agent_id_of none (some environment) = if is_empty environment then none else some environment

module _ {Output GameState Render Loadout : Type 0} where
  abbrev pub loadouts_sent : List (ℕ × Loadout) → List (Sent Output GameState Render Loadout)
  loadouts_sent [] = []
  loadouts_sent ((i, l) ∷ ls) = set_loadout i l ∷ loadouts_sent ls

  abbrev pub packets_sent :
      List (Packet Output GameState Render) → List (Sent Output GameState Render Loadout)
  packets_sent ps = map from_bot ps

  -- `BotManagerBase::connect`: `reached` is what `Client::connect` returns if it is called.
  unfoldable pub connect :
      (connected : Bool)
      → (agent_id environment : Option (List ℕ)) → (reached predictions : Bool)
      → Bool × List (Sent Output GameState Render Loadout)
  connect connected agent_id environment reached predictions =
      if connected then (false, []) else elim (agent_id_of agent_id environment) [
        | none ↦ (false, [])
        | some id ↦ if reached then (true, connection_settings id predictions ∷ []) else (false, [])
      ]

-- A call for each bot, in order.
unfoldable pub each : {C : Type 0} → (C → Option C) → List C → Option (List C)
each f [] = some []
each f (c ∷ cs) = f c >>= λ d. each f cs >>= λ ds. some (d ∷ ds)

module _ {Mail User Output GameState Render : Type 0} where
  -- `clearBots`: the contexts go, each when its thread has ended.
  unfoldable pub clear_bots :
      Manager Mail User Output GameState Render → Manager Mail User Output GameState Render
  clear_bots m = record m { bots = [] }

  -- The first bot runs a round on the thread of the manager.
  unfoldable pub loop_first :
      Hooks Mail User Output GameState Render
      → BotContext Mail User Output GameState Render
      → List (BotContext Mail User Output GameState Render)
      → Option (
          List (BotContext Mail User Output GameState Render)
          × List (Packet Output GameState Render))
  loop_first hooks first rest = service_loop hooks first >>= λ (worked, ps, c). some (c ∷ rest, ps)

  -- The end of `handleMessage`, once there is a bot.
  unfoldable pub pass_on :
      Hooks Mail User Output GameState Render
      → CoreMessage
      → Mail
      → BotContext Mail User Output GameState Render
      → List (BotContext Mail User Output GameState Render)
      → Option (
          List (BotContext Mail User Output GameState Render)
          × List (Packet Output GameState Render))
  unfolding loop_first
  pass_on hooks CoreMessage.ball_prediction m first rest =
      each (λ c. set_ball_prediction hooks c m) (first ∷ rest) >>= λ cs. some (cs, [])
  pass_on hooks CoreMessage.game_packet m first rest =
      each (λ c. set_game_packet hooks c m) rest >>= λ cs.
      set_game_packet hooks first m >>= λ c. loop_first hooks c cs
  pass_on hooks CoreMessage.match_comm m first rest =
      if hooks.has_match_comm m
      then (each (λ c. add_match_comm hooks c m) rest >>= λ cs. loop_first hooks first cs)
      else none
  pass_on hooks CoreMessage.disconnect_signal m first rest = some (first ∷ rest, [])
  pass_on hooks CoreMessage.field_info m first rest = some (first ∷ rest, [])
  pass_on hooks CoreMessage.match_configuration m first rest = some (first ∷ rest, [])
  pass_on hooks CoreMessage.controllable_team_info m first rest = some (first ∷ rest, [])
  pass_on hooks CoreMessage.unknown m first rest = some (first ∷ rest, [])

module _ {Mail User Output GameState Render Loadout : Type 0} where
  -- A context is made with no mail, and its bot is initialised before it gets any.
  unfoldable pub new_context :
      World Mail User Output GameState Render Loadout
      → (controllables field configuration : Mail) → Spawned
      → BotContext Mail User Output GameState Render
  new_context w t f c s =
      let made = w.spawn s in
      let ready = w.on_initialize t f c made.0 made.1 in
      record {
        indices = s.indices;
        match_comms_in = [];
        game_packet = none;
        ball_prediction = none;
        user = ready.0;
        bot = ready.1;
        enable_rendering = w.enable_rendering c;
        enable_state_setting = w.enable_state_setting c;
        quit = false;
      }

  -- The bots that there are go; then the new ones are made and put behind them, started and waited
  -- for.
  unfoldable pub respawn :
      World Mail User Output GameState Render Loadout
      → Manager Mail User Output GameState Render
      → (controllables field configuration : Mail)
      → Option
          (Manager Mail User Output GameState Render × List (Sent Output GameState Render Loadout))
  unfolding clear_bots
  respawn w m t f c =
      let cleared = clear_bots m in
      let made = spawn_bots w.moved_from w.loadout m.batch_hivemind (w.team_info t c) in
      if is_empty cleared.bots
      then some (
        record cleared { bots = cleared.bots ++ map (new_context w t f c) made.bots },
        loadouts_sent made.loadouts ++ (init_complete ∷ []),
      )
      else none

  -- `spawnBots` with the three messages.
  unfoldable pub spawn_with :
      World Mail User Output GameState Render Loadout
      → Manager Mail User Output GameState Render
      → (controllables field configuration : Option Mail)
      → Option
          (Manager Mail User Output GameState Render × List (Sent Output GameState Render Loadout))
  spawn_with w m (some t) (some f) (some c) =
      if is_team_info (w.hooks.core_packet t)
        && (is_field_info (w.hooks.core_packet f) && is_configuration (w.hooks.core_packet c))
      then respawn w m t f c
      else some (m, [])
  spawn_with w m (some t) (some f) none = some (m, [])
  spawn_with w m (some t) none c = some (m, [])
  spawn_with w m none f c = some (m, [])

  unfoldable pub spawn_when_ready :
      World Mail User Output GameState Render Loadout
      → Manager Mail User Output GameState Render
      → Option
          (Manager Mail User Output GameState Render × List (Sent Output GameState Render Loadout))
  spawn_when_ready w m =
      spawn_with w m m.controllable_team_info_message m.field_info_message
        m.match_configuration_message

  unfoldable pub to_bots :
      Hooks Mail User Output GameState Render
      → CoreMessage
      → Mail
      → Manager Mail User Output GameState Render
      → List (BotContext Mail User Output GameState Render)
      → Option
          (Manager Mail User Output GameState Render × List (Sent Output GameState Render Loadout))
  to_bots hooks kind mail m [] = some (m, [])
  to_bots hooks kind mail m (first ∷ rest) = pass_on hooks kind mail first rest >>= λ (cs, ps).
      some (record m { bots = cs }, packets_sent ps)

  -- `handleMessage` of a packet that was verified; the last part of the result says whether the
  -- client is told to terminate.
  unfoldable pub handle_packet :
      World Mail User Output GameState Render Loadout
      → Manager Mail User Output GameState Render
      → Mail
      → CoreMessage
      → Option (
          Manager Mail User Output GameState Render
          × List (Sent Output GameState Render Loadout)
          × Bool)
  unfolding spawn_when_ready to_bots
  handle_packet w m mail CoreMessage.disconnect_signal = some (m, [], true)
  handle_packet w m mail CoreMessage.controllable_team_info =
      spawn_when_ready w (record m { controllable_team_info_message = some mail }) >>= λ (n, s).
      some (n, s, false)
  handle_packet w m mail CoreMessage.field_info =
      spawn_when_ready w (record m { field_info_message = some mail }) >>= λ (n, s).
      some (n, s, false)
  handle_packet w m mail CoreMessage.match_configuration =
      spawn_when_ready w (record m { match_configuration_message = some mail }) >>= λ (n, s).
      some (n, s, false)
  handle_packet w m mail CoreMessage.ball_prediction =
      to_bots w.hooks CoreMessage.ball_prediction mail m m.bots >>= λ (n, s). some (n, s, false)
  handle_packet w m mail CoreMessage.game_packet =
      to_bots w.hooks CoreMessage.game_packet mail m m.bots >>= λ (n, s). some (n, s, false)
  handle_packet w m mail CoreMessage.match_comm =
      to_bots w.hooks CoreMessage.match_comm mail m m.bots >>= λ (n, s). some (n, s, false)
  handle_packet w m mail CoreMessage.unknown = some (m, [], false)

  -- A packet that is not valid is only reported.
  unfoldable pub handle_verified :
      World Mail User Output GameState Render Loadout
      → Manager Mail User Output GameState Render
      → Mail
      → Option CoreMessage
      → Option (
          Manager Mail User Output GameState Render
          × List (Sent Output GameState Render Loadout)
          × Bool)
  unfolding handle_packet
  handle_verified w m mail none = some (m, [], false)
  handle_verified w m mail (some kind) = handle_packet w m mail kind

  unfoldable pub handle_message :
      World Mail User Output GameState Render Loadout
      → Manager Mail User Output GameState Render
      → Mail
      → Option (
          Manager Mail User Output GameState Render
          × List (Sent Output GameState Render Loadout)
          × Bool)
  unfolding handle_verified
  handle_message w m mail = handle_verified w m mail (w.hooks.core_packet mail)
