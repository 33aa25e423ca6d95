-- ===== src/Bot/Tests.antt =====
-- Runs of a bot with the indices 1 and 3.
use cpp_interface.Prelude.{ℕ, ◌≡◌, refl, true, false, none, some, List, [], ◌∷◌, All}
use cpp_interface.Bot.{
  Bot, emplaced, find, assign, send_match_comm, get_match_comms, send_render_message,
  clear_render_group, get_render_messages, send_desired_game_state, get_desired_game_state,
}
use cpp_interface.Bot.Mail.{Request, accepted, filled, IsOwn, send_all, get_match_comms-send_all}
use cpp_interface.Bot.Groups.{
  Draw, message, clear, draw_all, replay, drawn_group, drawn_group-draw_all,
}

abbrev twin : Bot ℕ ℕ ℕ
twin = record {
  indices = 1 ∷ 3 ∷ [];
  team = 1;
  name = 7 ∷ [];
  match_comms = none;
  game_state = none;
  render_messages = some ((5, 50 ∷ []) ∷ []);
  outputs = (3, 30) ∷ [];
}

-- From index 1, from an index of another bot, and an empty one from index 3.
abbrev requests : List Request
requests =
    record { index = 1; display = 72 ∷ []; content = []; team_only = true }
    ∷ record { index = 2; display = 72 ∷ []; content = []; team_only = false }
    ∷ record { index = 3; display = []; content = []; team_only = false }
    ∷ []

one_accepted :
    (get_match_comms (send_all twin requests)).0
    ≡ some (record { index = 1; team = 1; team_only = true; display = 72 ∷ []; content = [] } ∷ [])
unfolding send_match_comm get_match_comms
one_accepted = refl

get_match_comms-send_all_example :
    ((get_match_comms (send_all twin requests)).0 ≡ filled (accepted (1 ∷ 3 ∷ []) 1 requests))
    × All (IsOwn (1 ∷ 3 ∷ []) 1) (emplaced ((get_match_comms (send_all twin requests)).0))
    × ((get_match_comms ((get_match_comms (send_all twin requests)).1)).0 ≡ none)
get_match_comms-send_all_example = get_match_comms-send_all twin requests refl

abbrev draws : List (Draw ℕ)
draws = message 5 51 ∷ message 6 60 ∷ clear 5 ∷ message 5 52 ∷ clear 6 ∷ []

groups_drawn : (get_render_messages (draw_all twin draws)).0 ≡ some ((5, 52 ∷ []) ∷ (6, []) ∷ [])
unfolding send_render_message clear_render_group get_render_messages find assign
groups_drawn = refl

drawn_group-draw_all_example :
    find (emplaced ((get_render_messages (draw_all twin draws)).0)) 5
    ≡ replay 5 draws (drawn_group twin 5)
drawn_group-draw_all_example = drawn_group-draw_all draws twin 5

game_state_once :
    (get_desired_game_state (get_desired_game_state (send_desired_game_state twin 4)).1).0 ≡ none
unfolding send_desired_game_state get_desired_game_state
game_state_once = refl
