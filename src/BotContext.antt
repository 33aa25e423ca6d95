-- ===== src/BotContext.antt =====
-- library/BotContext.cpp: what the thread of a bot does with the mail it gets. A message from the
-- server is of a type `Mail`; a bot of the user is its own state of type `User` with the mailboxes
-- of `Bot`.
pub mod Work
pub mod Inputs
pub mod Inbox
pub mod Wakeup
mod Tests
use cpp_interface.Prelude.{
  ℕ, Bool, true, false, Option, none, some, List, [], ◌∷◌, ◌++◌, not, ◌&&◌, ◌||◌, ◌==◌, ltb, leb,
  if◌then◌else◌, is_empty, ◌>>=◌, map,
}
use cpp_interface.Bot.{
  Bot, MatchComm, contains, emplaced, get_output, get_match_comms, get_render_messages,
  get_desired_game_state,
}

-- `rlbot::flat::CoreMessage`, as far as the manager and the contexts tell it apart.
pub data CoreMessage : Type 0 where
  disconnect_signal game_packet field_info match_configuration match_comm ball_prediction :
      CoreMessage
  controllable_team_info unknown : CoreMessage

abbrev pub is_game_packet : Option CoreMessage → Bool
is_game_packet (some CoreMessage.game_packet) = true
is_game_packet _ = false

abbrev pub is_ball_prediction : Option CoreMessage → Bool
is_ball_prediction (some CoreMessage.ball_prediction) = true
is_ball_prediction _ = false

abbrev pub is_match_comm : Option CoreMessage → Bool
is_match_comm (some CoreMessage.match_comm) = true
is_match_comm _ = false

-- What is sent to the server.
pub data Packet (Output GameState Render : Type 0) : Type 0 where
  player_input : (index : ℕ) → (output : Output) → Packet Output GameState Render
  match_comm : MatchComm → Packet Output GameState Render
  remove_render_group : (group : ℕ) → Packet Output GameState Render
  render_group : (group : ℕ) → List Render → Packet Output GameState Render
  desired_game_state : GameState → Packet Output GameState Render

-- The match configuration's switches are the two fields `enable_`.
pub record BotContext (Mail User Output GameState Render : Type 0) : Type 0 where
  pub indices : List ℕ
  pub match_comms_in : List Mail
  pub game_packet : Option Mail
  pub ball_prediction : Option Mail
  pub user : User
  pub bot : Bot Output GameState Render
  pub enable_rendering : Bool
  pub enable_state_setting : Bool
  pub quit : Bool

-- What the user writes, and what is read in a message: its type, `none` if it does not verify; the
-- number of players of a game packet; and of a match comm whether `message_as_MatchComm ()` is not
-- null, its index, its team and whether it is for the team only.
pub record Hooks (Mail User Output GameState Render : Type 0) : Type 0 where
  pub on_match_comm : Mail → User → Bot Output GameState Render → User × Bot Output GameState Render
  pub on_update :
      Mail → Option Mail → User → Bot Output GameState Render → User × Bot Output GameState Render
  pub default_output : Output
  pub core_packet : Mail → Option CoreMessage
  pub has_match_comm : Mail → Bool
  pub player_count : Mail → ℕ
  pub comm_index : Mail → ℕ
  pub comm_team : Mail → ℕ
  pub comm_team_only : Mail → Bool

module _ {Output GameState Render : Type 0} where
  -- The loop over the indices: an input is sent for each that is a player of the packet.
  unfoldable pub send_inputs :
      Output
      → ℕ
      → List ℕ
      → Bot Output GameState Render
      → List (Packet Output GameState Render) × Bot Output GameState Render
  send_inputs default players [] b = ([], b)
  send_inputs default players (i ∷ is) b =
      let skipped = send_inputs default players is b in
      let got = get_output default b i in
      let rest = send_inputs default players is got.1 in
      if leb players i then skipped else (player_input i got.0 ∷ rest.0, rest.1)

  -- The loop over the match comms that go out, with its two assertions.
  unfoldable pub send_comms :
      List ℕ → ℕ → List MatchComm → Option (List (Packet Output GameState Render))
  send_comms indices team [] = some []
  send_comms indices team (c ∷ cs) =
      let rest = send_comms indices team cs in
      if contains indices c.index && (c.team == team)
      then (rest >>= λ ps. some (match_comm c ∷ ps))
      else none

  unfoldable pub render_packet : ℕ × List Render → Packet Output GameState Render
  render_packet (group, messages) =
      if is_empty messages then remove_render_group group else render_group group messages

  unfoldable pub send_renders :
      Bool → Option (List (ℕ × List Render)) → List (Packet Output GameState Render)
  send_renders enabled groups = if enabled then map render_packet (emplaced groups) else []

  unfoldable pub send_game_state : Bool → Option GameState → List (Packet Output GameState Render)
  send_game_state enabled none = []
  send_game_state enabled (some s) = if enabled then desired_game_state s ∷ [] else []

module _ {Mail User Output GameState Render : Type 0} where
  -- The loop over the match comms that came in.
  unfoldable pub handle_comms :
      Hooks Mail User Output GameState Render
      → List Mail
      → User × Bot Output GameState Render
      → User × Bot Output GameState Render
  handle_comms hooks [] (u, b) = (u, b)
  handle_comms hooks (m ∷ ms) (u, b) = handle_comms hooks ms (hooks.on_match_comm m u b)

  unfoldable pub handle_game_packet :
      Hooks Mail User Output GameState Render
      → List ℕ
      → Option Mail
      → Option Mail
      → User × Bot Output GameState Render
      → List (Packet Output GameState Render) × User × Bot Output GameState Render
  handle_game_packet hooks indices none ball (u, b) = ([], u, b)
  handle_game_packet hooks indices (some m) ball (u, b) =
      let updated = hooks.on_update m ball u b in
      let sent = send_inputs hooks.default_output (hooks.player_count m) indices updated.1 in
      (sent.0, updated.0, sent.1)

  -- What is sent at the end of a round, from the mailboxes of the bot.
  unfoldable pub collect :
      BotContext Mail User Output GameState Render
      → Option
          (List (Packet Output GameState Render) × BotContext Mail User Output GameState Render)
  collect c =
      let comms = get_match_comms c.bot in
      let groups = get_render_messages comms.1 in
      let state = get_desired_game_state groups.1 in
      send_comms c.indices c.bot.team (emplaced comms.0) >>= λ ps. some (
        ps
            ++ (send_renders c.enable_rendering groups.0
                ++ send_game_state c.enable_state_setting state.0),
        record c { bot = state.1 },
      )

  abbrev pub has_work : BotContext Mail User Output GameState Render → Bool
  has_work c = elim c.game_packet [ none ↦ not (is_empty c.match_comms_in) | some m ↦ true ]

  -- `serviceLoop`: whether there was work, what was sent, and the context after it.
  unfoldable pub service_loop :
      Hooks Mail User Output GameState Render
      → BotContext Mail User Output GameState Render
      → Option (
          Bool
          × List (Packet Output GameState Render)
          × BotContext Mail User Output GameState Render)
  service_loop hooks c =
      let heard = handle_comms hooks c.match_comms_in (c.user, c.bot) in
      let (inputs, u, b) =
        handle_game_packet hooks c.indices c.game_packet c.ball_prediction heard in
      let rest =
        collect (record c { match_comms_in = []; game_packet = none; user = u; bot = b }) in
      if has_work c then (rest >>= λ (ps, d). some (true, inputs ++ ps, d)) else some (false, [], c)

  -- What the three setters do to the context under its mutex.
  unfoldable pub keep_game_packet :
      BotContext Mail User Output GameState Render
      → Mail
      → BotContext Mail User Output GameState Render
  keep_game_packet c m = record c { game_packet = some m }

  unfoldable pub keep_ball_prediction :
      BotContext Mail User Output GameState Render
      → Mail
      → BotContext Mail User Output GameState Render
  keep_ball_prediction c m = record c { ball_prediction = some m }

  unfoldable pub keep_match_comm :
      Hooks Mail User Output GameState Render
      → BotContext Mail User Output GameState Render
      → Mail
      → BotContext Mail User Output GameState Render
  keep_match_comm hooks c m =
      if contains c.bot.indices (hooks.comm_index m)
      then c
      else if hooks.comm_team_only m && not (hooks.comm_team m == c.bot.team)
      then c
      else record c { match_comms_in = c.match_comms_in ++ (m ∷ []) }

  -- The setters, with their assertions.
  unfoldable pub set_game_packet :
      Hooks Mail User Output GameState Render
      → BotContext Mail User Output GameState Render
      → Mail
      → Option (BotContext Mail User Output GameState Render)
  set_game_packet hooks c m =
      if is_game_packet (hooks.core_packet m) then some (keep_game_packet c m) else none

  unfoldable pub set_ball_prediction :
      Hooks Mail User Output GameState Render
      → BotContext Mail User Output GameState Render
      → Mail
      → Option (BotContext Mail User Output GameState Render)
  set_ball_prediction hooks c m =
      if is_ball_prediction (hooks.core_packet m) then some (keep_ball_prediction c m) else none

  unfoldable pub add_match_comm :
      Hooks Mail User Output GameState Render
      → BotContext Mail User Output GameState Render
      → Mail
      → Option (BotContext Mail User Output GameState Render)
  add_match_comm hooks c m =
      if is_match_comm (hooks.core_packet m) && hooks.has_match_comm m
      then some (keep_match_comm hooks c m)
      else none
