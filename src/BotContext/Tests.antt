-- ===== src/BotContext/Tests.antt =====
-- Rounds of a context with the indices 1 and 3, and runs of its thread.
use cpp_interface.Prelude.{
  if◌then◌else◌, ◌==◌, ◌>>=◌, ℕ, ◌≡◌, refl, ◌≤◌, ◌⊎◌, Bool, true, false, Option, none, some, List,
  [], ◌∷◌, ◌++◌,
}
use cpp_interface.Bot.{
  Bot, find, assign, get_output, get_match_comms, get_render_messages, get_desired_game_state,
}
use cpp_interface.BotContext.{
  Packet, player_input, remove_render_group, render_group, BotContext, Hooks, send_inputs,
  handle_comms, handle_game_packet, send_comms, render_packet, send_renders, send_game_state,
  collect, has_work, service_loop, set_game_packet, add_match_comm, keep_match_comm, CoreMessage,
}
use cpp_interface.BotContext.Work.{IsFaithful, IsPolite, service_loop-IsFaithful}
use cpp_interface.BotContext.Inbox.{
  Event, comm, packet, round, Keeps, addressed, happen_all, happen_all-Keeps,
}
use cpp_interface.BotContext.Wakeup.{
  at, waiting, about_to_wait, Steps, done, step, enter, find_nothing, sleep, post, work-IsHeard,
  quit_unheard,
}

abbrev twin : Bot ℕ ℕ ℕ
twin = record {
  indices = 1 ∷ 3 ∷ [];
  team = 0;
  name = [];
  match_comms = none;
  game_state = some 8;
  render_messages = some ((5, 50 ∷ []) ∷ (6, []) ∷ []);
  outputs = (1, 10) ∷ [];
}

-- A number stands for a message: it is the index, the team is 0, and the packet has 3 players.
abbrev kind : ℕ → Option CoreMessage
kind m =
    if m == 77
    then some CoreMessage.game_packet
    else if m == 78
    then some CoreMessage.game_packet
    else if m == 79
    then some CoreMessage.ball_prediction
    else some CoreMessage.match_comm

abbrev hooks : Hooks ℕ ℕ ℕ ℕ ℕ
hooks = record {
  on_match_comm = λ m u b. (u, b);
  on_update = λ m ball u b. (m, b);
  default_output = 0;
  core_packet = kind;
  has_match_comm = λ m. true;
  player_count = λ m. 3;
  comm_index = λ m. m;
  comm_team = λ m. 0;
  comm_team_only = λ m. true;
}

abbrev context : BotContext ℕ ℕ ℕ ℕ ℕ
context = record {
  indices = 1 ∷ 3 ∷ [];
  match_comms_in = [];
  game_packet = some 77;
  ball_prediction = none;
  user = 0;
  bot = twin;
  enable_rendering = true;
  enable_state_setting = false;
  quit = false;
}

abbrev outcome : Option (Bool × List (Packet ℕ ℕ ℕ) × BotContext ℕ ℕ ℕ ℕ ℕ) → List (Packet ℕ ℕ ℕ)
outcome none = []
outcome (some (b, ps, c)) = ps

sent_in_a_round :
    outcome (service_loop hooks context)
    ≡ player_input 1 10 ∷ render_group 5 (50 ∷ []) ∷ remove_render_group 6 ∷ []
unfolding service_loop handle_comms handle_game_packet send_inputs send_comms render_packet
    send_renders send_game_state collect get_output find assign get_match_comms get_render_messages
    get_desired_game_state
sent_in_a_round = refl

abbrev inbox : Option (BotContext ℕ ℕ ℕ ℕ ℕ) → List ℕ
inbox none = []
inbox (some c) = c.match_comms_in

-- A comm of the bot's own index is not kept.
kept_comms : inbox (add_match_comm hooks context 3 >>= λ c. add_match_comm hooks c 4) ≡ 4 ∷ []
unfolding add_match_comm keep_match_comm
kept_comms = refl

-- A message of another type fails the assertion.
wrong_type : set_game_packet hooks context 79 ≡ none
unfolding set_game_packet
wrong_type = refl

hooks-IsPolite : IsPolite hooks (1 ∷ 3 ∷ []) 0
hooks-IsPolite = (λ m u b ok. ok, λ m ball u b ok. ok)

service_loop-IsFaithful_example :
    (ps : List (Packet ℕ ℕ ℕ)) × (d : BotContext ℕ ℕ ℕ ℕ ℕ) × ((service_loop hooks context
        ≡ some (true, ps, d))
      × (has_work d ≡ false)
      × (d.indices ≡ 1 ∷ 3 ∷ [])
      × IsFaithful (1 ∷ 3 ∷ []) 0 d.bot)
service_loop-IsFaithful_example =
    service_loop-IsFaithful hooks context hooks-IsPolite (refl, refl, tt)

work-IsHeard_example : (true ≡ false) ⊎ (1 ≤ 1)
work-IsHeard_example =
    work-IsHeard true false 1 (step enter (step find_nothing (step sleep (step (post tt) done))))

quit_unheard_example : Steps (at about_to_wait false false 0) (at waiting false true 0)
quit_unheard_example = quit_unheard 0

-- A bot that writes down what it hears; the message 1 is from an index of its own.
abbrev recorder : Hooks ℕ (List ℕ) ℕ ℕ ℕ
recorder = record {
  on_match_comm = λ m u b. (u ++ (m ∷ []), b);
  on_update = λ m ball u b. (u, b);
  default_output = 0;
  core_packet = kind;
  has_match_comm = λ m. true;
  player_count = λ m. 3;
  comm_index = λ m. m;
  comm_team = λ m. 0;
  comm_team_only = λ m. true;
}

abbrev listener : BotContext ℕ (List ℕ) ℕ ℕ ℕ
listener = record {
  indices = 1 ∷ 3 ∷ [];
  match_comms_in = [];
  game_packet = none;
  ball_prediction = none;
  user = [];
  bot = twin;
  enable_rendering = true;
  enable_state_setting = false;
  quit = false;
}

abbrev happenings : List (Event ℕ)
happenings = comm 5 ∷ comm 1 ∷ round ∷ packet 77 ∷ comm 6 ∷ round ∷ comm 7 ∷ []

happen_all-Keeps_example :
    (d : BotContext ℕ (List ℕ) ℕ ℕ ℕ) × ((happen_all recorder listener happenings ≡ some d)
      × Keeps (1 ∷ 3 ∷ []) 0 ([] ++ addressed recorder (1 ∷ 3 ∷ []) 0 happenings) d)
happen_all-Keeps_example =
    happen_all-Keeps recorder (1 ∷ 3 ∷ []) 0 happenings [] listener
      (λ m u b. refl, λ m ball u b. refl) (λ m u b ok. ok, λ m ball u b ok. ok)
      ((refl, refl), ((refl, refl), (tt, (refl, ((refl, refl), (tt, ((refl, refl), tt)))))))
      (refl, refl, (refl, refl, tt))

comms_addressed : addressed recorder (1 ∷ 3 ∷ []) 0 happenings ≡ 5 ∷ 6 ∷ 7 ∷ []
comms_addressed = refl
