-- ===== src/Bot.antt =====
-- library/Bot.cpp: the mailboxes of a bot, between its own thread and the manager. Sets and maps are
-- lists; a render group's `int` is its bit pattern. Each method holds the mutex, so it is one step.
pub mod Mail
pub mod Groups
mod Tests
use cpp_interface.Prelude.{
  ℕ, Bool, true, false, Option, none, some, List, [], ◌∷◌, ◌++◌, not, ◌&&◌, ◌||◌, ◌==◌,
  if◌then◌else◌, is_empty, any, map,
}

pub record MatchComm : Type 0 where
  pub index : ℕ
  pub team : ℕ
  pub team_only : Bool
  pub display : List ℕ
  pub content : List ℕ

-- `std::unordered_set::contains`
abbrev pub contains : List ℕ → ℕ → Bool
contains xs i = any (λ j. j == i) xs

abbrev pub value_or : {A : Type 0} → Option A → A → A
value_or none d = d
value_or (some a) d = a

-- `std::unordered_map`: the value at a key, and the map with it set.
module _ {V : Type 0} where
  unfoldable pub find : List (ℕ × V) → ℕ → Option V
  find [] k = none
  find ((j, v) ∷ m) k = if j == k then some v else find m k

  unfoldable pub assign : List (ℕ × V) → ℕ → V → List (ℕ × V)
  assign [] k v = (k, v) ∷ []
  assign ((j, w) ∷ m) k v = if j == k then (k, v) ∷ m else (j, w) ∷ assign m k v

  -- `m[k]` where `d` is the default value.
  abbrev pub get_or : List (ℕ × V) → ℕ → V → V
  get_or m k d = value_or (find m k) d

-- The list of an optional, made if it is not there.
abbrev pub emplaced : {A : Type 0} → Option (List A) → List A
emplaced none = []
emplaced (some xs) = xs

-- `Output`, `GameState` and `Render` are flatbuffers' object types.
module _ (Output GameState Render : Type 0) where
  pub record Bot : Type 0 where
    pub indices : List ℕ
    pub team : ℕ
    pub name : List ℕ
    pub match_comms : Option (List MatchComm)
    pub game_state : Option GameState
    pub render_messages : Option (List (ℕ × List Render))
    pub outputs : List (ℕ × Output)

module _ {Output GameState Render : Type 0} where
  -- `Bot::getOutput`; the map gets the default value for a key that it lacks.
  unfoldable pub get_output :
      Output → Bot Output GameState Render → ℕ → Output × Bot Output GameState Render
  get_output default b index = (
    get_or b.outputs index default,
    record b { outputs = assign b.outputs index (get_or b.outputs index default) },
  )

  unfoldable pub set_output : Bot Output GameState Render → ℕ → Output → Bot Output GameState Render
  set_output b index output =
      if contains b.indices index then record b { outputs = assign b.outputs index output } else b

  unfoldable pub send_match_comm :
      Bot Output GameState Render → ℕ → List ℕ → List ℕ → Bool → Bot Output GameState Render
  send_match_comm b index display content team_only =
      if not (contains b.indices index) || (is_empty display && is_empty content)
      then b
      else record b {
        match_comms = some (
            emplaced b.match_comms
            ++ (record {
              index = index;
              team = b.team;
              team_only = team_only;
              display = display;
              content = content;
            }
                ∷ []));
      }

  unfoldable pub get_match_comms :
      Bot Output GameState Render → Option (List MatchComm) × Bot Output GameState Render
  get_match_comms b = (b.match_comms, record b { match_comms = none })

  unfoldable pub send_desired_game_state :
      Bot Output GameState Render → GameState → Bot Output GameState Render
  send_desired_game_state b s = record b { game_state = some s }

  unfoldable pub get_desired_game_state :
      Bot Output GameState Render → Option GameState × Bot Output GameState Render
  get_desired_game_state b = (b.game_state, record b { game_state = none })

  unfoldable pub send_render_message :
      Bot Output GameState Render → ℕ → Render → Bot Output GameState Render
  send_render_message b group message =
      let groups = emplaced b.render_messages in
      record b {
        render_messages = some (assign groups group (get_or groups group [] ++ (message ∷ [])));
      }

  unfoldable pub clear_render_group : Bot Output GameState Render → ℕ → Bot Output GameState Render
  clear_render_group b group = record b {
    render_messages = some (assign (emplaced b.render_messages) group []);
  }

  unfoldable pub get_render_messages :
      Bot Output GameState Render → Option (List (ℕ × List Render)) × Bot Output GameState Render
  get_render_messages b = (b.render_messages, record b { render_messages = none })
