-- ===== src/BotManager/Tests.antt =====
-- A team of three cars, two of which a custom bot plays.
use cpp_interface.Prelude.{ℕ, ◌≡◌, refl, true, false, Option, none, some, List, [], ◌∷◌}
use cpp_interface.BotManager.{
  TeamInfo, Spawned, find_player, custom_bot_of, send_loadout, send_loadouts, spawn_batched,
  spawn_single, spawn_if, spawn_one, spawn_each, spawn_bots,
}
use cpp_interface.BotManager.Spawn.{eligible, singles, added, spawn_bots-single, spawn_bots-batched}

abbrev team_of_three : TeamInfo
team_of_three = record {
  team = 1;
  controllables =
      record { identifier = 100; index = 0 }
      ∷ record { identifier = 101; index = 2 }
      ∷ record { identifier = 102; index = 4 }
      ∷ [];
  configs =
      record { player_id = 100; team = 1; custom_bot = some (65 ∷ []) }
      ∷ record { player_id = 101; team = 1; custom_bot = none }
      ∷ record { player_id = 102; team = 1; custom_bot = some (66 ∷ []) }
      ∷ [];
}

abbrev emptied : List ℕ → List ℕ
emptied xs = []

abbrev loadouts : Spawned → ℕ → Option ℕ
loadouts bot i = some i

two_bots :
    (spawn_bots emptied loadouts false team_of_three).bots
    ≡ record { indices = 0 ∷ []; team = 1; name = 65 ∷ [] }
      ∷ record { indices = 4 ∷ []; team = 1; name = 66 ∷ [] }
      ∷ []
unfolding spawn_bots spawn_each spawn_one spawn_if spawn_single custom_bot_of find_player
two_bots = refl

loadouts_of_batch : (spawn_bots emptied loadouts true team_of_three).loadouts ≡ (0, 0) ∷ (4, 4) ∷ []
unfolding spawn_bots spawn_each spawn_one spawn_if spawn_batched custom_bot_of find_player
    send_loadout send_loadouts
loadouts_of_batch = refl

spawn_bots-single_example :
    (spawn_bots emptied loadouts false team_of_three).bots
    ≡ singles 1 (eligible team_of_three team_of_three.controllables)
spawn_bots-single_example = spawn_bots-single emptied loadouts team_of_three (λ xs. refl)

spawn_bots-batched_example :
    (spawn_bots emptied loadouts true team_of_three).bots
    ≡ record {
      indices = added [] (eligible team_of_three team_of_three.controllables);
      team = 1;
      name = [];
    }
      ∷ []
spawn_bots-batched_example = spawn_bots-batched emptied loadouts team_of_three
