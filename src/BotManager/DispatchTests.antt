-- ===== src/BotManager/DispatchTests.antt =====
-- Runs of a manager with two bots. A message is a number: 0, 1 and 2 are the three that are kept,
-- 3 is a game packet, 4 a match comm, 5 a ball prediction, 6 the signal to disconnect.
use cpp_interface.Prelude.{
  ℕ, ◌≡◌, refl, ◌++◌, true, false, Option, none, some, List, [], ◌∷◌, ◌==◌, if◌then◌else◌, map, All,
}
use cpp_interface.Bot.{
  Bot, find, assign, get_output, get_match_comms, get_render_messages, get_desired_game_state,
}
use cpp_interface.BotContext.{
  CoreMessage, BotContext, keep_game_packet, keep_match_comm, player_input, service_loop,
  handle_comms, handle_game_packet, send_inputs, send_comms, send_renders, send_game_state, collect,
  set_game_packet, add_match_comm,
}
use cpp_interface.BotContext.Work.{IsPolite}
use cpp_interface.BotManager.{
  TeamInfo, Spawned, find_player, custom_bot_of, send_loadout, spawn_single, spawn_if, spawn_one,
  spawn_each, spawn_bots,
}
use cpp_interface.BotManager.Dispatch.{
  each, World, Manager, Sent, set_loadout, init_complete, connection_settings, from_bot,
  new_context, loadouts_sent, clear_bots, respawn, spawn_with, spawn_when_ready, loop_first,
  pass_on, to_bots, handle_packet, handle_verified, handle_message, connect,
}
use cpp_interface.BotManager.Delivery.{
  IsReady, with_bots, deliver_all, handle_all, handle_all-deliver_all,
}
use cpp_interface.BotManager.FirstBot.{handle_all-without_comms}
use cpp_interface.BotManager.Setup.{keeping, orders, handle_all-orders}

abbrev kind : ℕ → Option CoreMessage
kind m =
    if m == 0
    then some CoreMessage.controllable_team_info
    else if m == 1
    then some CoreMessage.field_info
    else if m == 2
    then some CoreMessage.match_configuration
    else if m == 3
    then some CoreMessage.game_packet
    else if m == 4
    then some CoreMessage.match_comm
    else if m == 5
    then some CoreMessage.ball_prediction
    else if m == 6
    then some CoreMessage.disconnect_signal
    else none

abbrev team : TeamInfo
team = record {
  team = 1;
  controllables =
      record { identifier = 10; index = 0 } ∷ record { identifier = 11; index = 2 } ∷ [];
  configs =
      record { player_id = 10; team = 1; custom_bot = some (65 ∷ []) }
      ∷ record { player_id = 11; team = 1; custom_bot = some (66 ∷ []) }
      ∷ [];
}

abbrev bot_of : Spawned → Bot ℕ ℕ ℕ
bot_of s = record {
  indices = s.indices;
  team = s.team;
  name = s.name;
  match_comms = none;
  game_state = none;
  render_messages = none;
  outputs = [];
}

-- The match comm is from index 7 of the team.
abbrev world : World ℕ ℕ ℕ ℕ ℕ ℕ
world = record {
  hooks = record {
    on_match_comm = λ m u b. (m, b);
    on_update = λ m ball u b. (u, b);
    default_output = 9;
    core_packet = kind;
    has_match_comm = λ m. true;
    player_count = λ m. 1;
    comm_index = λ m. 7;
    comm_team = λ m. 1;
    comm_team_only = λ m. true;
  };
  team_info = λ t c. team;
  enable_rendering = λ c. true;
  enable_state_setting = λ c. true;
  spawn = λ s. (0, bot_of s);
  loadout = λ s i. some i;
  on_initialize = λ t f c u b. (u, b);
  moved_from = λ xs. [];
}

abbrev idle : ℕ → List ℕ → BotContext ℕ ℕ ℕ ℕ ℕ
idle index name = record {
  indices = index ∷ [];
  match_comms_in = [];
  game_packet = none;
  ball_prediction = none;
  user = 0;
  bot = bot_of (record { indices = index ∷ []; team = 1; name = name });
  enable_rendering = true;
  enable_state_setting = true;
  quit = false;
}

abbrev ready_manager : Manager ℕ ℕ ℕ ℕ ℕ
ready_manager = keeping (some 0) (some 1) (some 2) (idle 0 (65 ∷ []) ∷ idle 2 (66 ∷ []) ∷ []) false

abbrev empty_manager : Manager ℕ ℕ ℕ ℕ ℕ
empty_manager = keeping none none none [] false

spawns_two :
    handle_all world empty_manager (1 ∷ 0 ∷ 2 ∷ [])
    ≡ some (ready_manager, set_loadout 0 0 ∷ set_loadout 2 2 ∷ init_complete ∷ [])
unfolding handle_all handle_message handle_verified handle_packet spawn_when_ready spawn_with
    respawn clear_bots new_context spawn_bots spawn_each spawn_one spawn_if spawn_single
    custom_bot_of find_player send_loadout
spawns_two = refl

-- What is sent, and the inbox of the second bot.
abbrev outcome :
    Option (Manager ℕ ℕ ℕ ℕ ℕ × List (Sent ℕ ℕ ℕ ℕ)) → List (Sent ℕ ℕ ℕ ℕ) × List (List ℕ)
outcome none = ([], [])
outcome (some (m, s)) = (s, map (λ c. c.match_comms_in) m.bots)

comm_reaches_second :
    outcome (handle_all world ready_manager (4 ∷ 3 ∷ []))
    ≡ (from_bot (player_input 0 9) ∷ [], [] ∷ (4 ∷ []) ∷ [])
unfolding handle_all handle_message handle_verified handle_packet to_bots pass_on loop_first each
    keep_game_packet keep_match_comm set_game_packet add_match_comm service_loop handle_comms
    handle_game_packet send_inputs send_comms send_renders send_game_state collect get_output find
    assign get_match_comms get_render_messages get_desired_game_state
comm_reaches_second = refl

disconnects : handle_message world ready_manager 6 ≡ some (ready_manager, [], true)
unfolding handle_message handle_verified handle_packet
disconnects = refl

-- The agent id comes from the environment, and an empty one there is refused.
connects :
    connect {Output = ℕ} {GameState = ℕ} {Render = ℕ} {Loadout = ℕ} false none
      (some (65 ∷ []))
      true
      true
    ≡ (true, connection_settings (65 ∷ []) true ∷ [])
unfolding connect
connects = refl

connects_nowhere :
    connect {Output = ℕ} {GameState = ℕ} {Render = ℕ} {Loadout = ℕ} false none (some []) true true
    ≡ (false, [])
unfolding connect
connects_nowhere = refl

world-IsPolite : IsPolite world.hooks (0 ∷ []) 1
world-IsPolite = (λ m u b ok. ok, λ m ball u b ok. ok)

first-IsReady : IsReady (0 ∷ []) 1 (idle 0 (65 ∷ []))
first-IsReady = (refl, refl, (refl, refl, tt))

handle_all-deliver_all_example :
    (first' : BotContext ℕ ℕ ℕ ℕ ℕ) × (s : List (Sent ℕ ℕ ℕ ℕ)) × ((handle_all world ready_manager
          (5 ∷ 4 ∷ 3 ∷ [])
        ≡ some (
          with_bots ready_manager
              (first' ∷ map (deliver_all world (5 ∷ 4 ∷ 3 ∷ [])) (idle 2 (66 ∷ []) ∷ [])),
          s,
        ))
      × IsReady (0 ∷ []) 1 first')
handle_all-deliver_all_example =
    handle_all-deliver_all world (0 ∷ []) 1 ready_manager (idle 0 (65 ∷ [])) (idle 2 (66 ∷ []) ∷ [])
      (5 ∷ 4 ∷ 3 ∷ []) world-IsPolite (λ m e. refl) first-IsReady (tt, (tt, (tt, tt)))

handle_all-without_comms_example :
    handle_all world (with_bots ready_manager (idle 0 (65 ∷ []) ∷ [])) (4 ∷ 3 ∷ [])
    ≡ handle_all world (with_bots ready_manager (idle 0 (65 ∷ []) ∷ [])) (3 ∷ [])
handle_all-without_comms_example =
    handle_all-without_comms world (0 ∷ []) 1 ready_manager (idle 0 (65 ∷ [])) (4 ∷ 3 ∷ [])
      world-IsPolite (λ m e. refl) first-IsReady (tt, (tt, tt))

handle_all-orders_example :
    let made = spawn_bots world.moved_from world.loadout false team in
    All
      (λ mails.
        handle_all world (keeping none none none (idle 9 [] ∷ []) false) mails
        ≡ some (
          keeping (some 0) (some 1) (some 2) (map (new_context world 0 1 2) made.bots) false,
          loadouts_sent made.loadouts ++ (init_complete ∷ []),
        ))
      (orders 0 1 2)
handle_all-orders_example = handle_all-orders world (idle 9 [] ∷ []) false 0 1 2 refl refl refl
