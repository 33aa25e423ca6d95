-- ===== src/BotManager.antt =====
-- library/BotManager.cpp, spawnBots: which bots are spawned for the controllables of a team. A set
-- is a list without repetition; `moved_from` is what a set holds after it was moved out of, which
-- C++ leaves open.
pub mod Spawn
pub mod Dispatch
pub mod Delivery
pub mod FirstBot
pub mod Setup
pub mod Startup
mod Tests
mod DispatchTests
mod StartupTests
use cpp_interface.Prelude.{
  ℕ, Bool, true, false, Option, none, some, List, [], ◌∷◌, ◌++◌, not, ◌==◌, if◌then◌else◌, is_empty,
  ◌>>=◌,
}
use cpp_interface.Bot.{contains}

-- A controllable car of the team.
pub record ControllableInfo : Type 0 where
  pub identifier : ℕ
  pub index : ℕ

-- A player of the match configuration; the name is that of a custom bot, `none` for another variety.
pub record PlayerConfiguration : Type 0 where
  pub player_id : ℕ
  pub team : ℕ
  pub custom_bot : Option (List ℕ)

pub record TeamInfo : Type 0 where
  pub team : ℕ
  pub controllables : List ControllableInfo
  pub configs : List PlayerConfiguration

-- The arguments of a call of `spawn`, which the context keeps.
pub record Spawned : Type 0 where
  pub indices : List ℕ
  pub team : ℕ
  pub name : List ℕ

-- The variables of the loop, and what was sent.
pub record Spawning (Loadout : Type 0) : Type 0 where
  pub bot_indices : List ℕ
  pub name : List ℕ
  pub bots : List Spawned
  pub loadouts : List (ℕ × Loadout)

-- `std::ranges::find` by the player id.
unfoldable pub find_player : List PlayerConfiguration → ℕ → Option PlayerConfiguration
find_player [] id = none
find_player (p ∷ ps) id = if p.player_id == id then some p else find_player ps id

-- The tests of one controllable: the name of its custom bot if it passes them all.
unfoldable pub custom_bot_of : TeamInfo → List ℕ → ControllableInfo → Option (List ℕ)
custom_bot_of info bot_indices c = find_player info.configs c.identifier >>= λ player.
    if not (player.team == info.team)
    then none
    else if contains bot_indices c.index
    then none
    else player.custom_bot

-- `botIndices.emplace`
abbrev pub emplace : List ℕ → ℕ → List ℕ
emplace xs i = if contains xs i then xs else xs ++ (i ∷ [])

module _ {Loadout : Type 0} where
  -- The loadout of the bot for an index, if it has one, is sent.
  unfoldable pub send_loadout : (Spawned → ℕ → Option Loadout) → Spawned → ℕ → List (ℕ × Loadout)
  send_loadout loadout bot i = elim (loadout bot i) [ none ↦ [] | some l ↦ (i, l) ∷ [] ]

  unfoldable pub send_loadouts :
      (Spawned → ℕ → Option Loadout) → Spawned → List ℕ → List (ℕ × Loadout)
  send_loadouts loadout bot [] = []
  send_loadouts loadout bot (i ∷ is) = send_loadout loadout bot i ++ send_loadouts loadout bot is

  unfoldable pub spawn_batched : List ℕ → Spawning Loadout → List ℕ → Spawning Loadout
  spawn_batched custom s bot_indices = record s {
    bot_indices = bot_indices;
    name = if not (is_empty s.name) then custom else s.name;
  }

  unfoldable pub spawn_single :
      (List ℕ → List ℕ)
      → (Spawned → ℕ → Option Loadout)
      → TeamInfo
      → ℕ
      → List ℕ
      → Spawning Loadout
      → List ℕ
      → Spawning Loadout
  spawn_single moved_from loadout info index custom s bot_indices =
      let bot : Spawned = record { indices = bot_indices; team = info.team; name = custom } in
      record s {
        bot_indices = moved_from bot_indices;
        bots = s.bots ++ (bot ∷ []);
        loadouts = s.loadouts ++ send_loadout loadout bot index;
      }

  -- What follows the tests, by whether they gave a name.
  unfoldable pub spawn_if :
      (List ℕ → List ℕ)
      → (Spawned → ℕ → Option Loadout)
      → Bool
      → TeamInfo
      → Spawning Loadout
      → ℕ
      → Option (List ℕ)
      → Spawning Loadout
  spawn_if moved_from loadout batch info s index none = s
  spawn_if moved_from loadout batch info s index (some custom) =
      let bot_indices = emplace s.bot_indices index in
      if batch
      then spawn_batched custom s bot_indices
      else spawn_single moved_from loadout info index custom s bot_indices

  -- One round of the loop over the controllables.
  unfoldable pub spawn_one :
      (List ℕ → List ℕ)
      → (Spawned → ℕ → Option Loadout)
      → Bool
      → TeamInfo
      → Spawning Loadout
      → ControllableInfo
      → Spawning Loadout
  spawn_one moved_from loadout batch info s c =
      spawn_if moved_from loadout batch info s c.index (custom_bot_of info s.bot_indices c)

  unfoldable pub spawn_each :
      (List ℕ → List ℕ)
      → (Spawned → ℕ → Option Loadout)
      → Bool
      → TeamInfo
      → Spawning Loadout
      → List ControllableInfo
      → Spawning Loadout
  spawn_each moved_from loadout batch info s [] = s
  spawn_each moved_from loadout batch info s (c ∷ cs) =
      spawn_each moved_from loadout batch info (spawn_one moved_from loadout batch info s c) cs

  -- `spawnBots` once all three messages are there, up to the start of the bots: after `clearBots`
  -- there are none.
  unfoldable pub spawn_bots :
      (List ℕ → List ℕ) → (Spawned → ℕ → Option Loadout) → Bool → TeamInfo → Spawning Loadout
  spawn_bots moved_from loadout batch info =
      let s =
        spawn_each moved_from loadout batch info
          (record { bot_indices = []; name = []; bots = []; loadouts = [] }) info.controllables in
      let bot : Spawned = record { indices = s.bot_indices; team = info.team; name = s.name } in
      if batch
      then record s {
        bot_indices = moved_from s.bot_indices;
        bots = s.bots ++ (bot ∷ []);
        loadouts = s.loadouts ++ send_loadouts loadout bot s.bot_indices;
      }
      else s
