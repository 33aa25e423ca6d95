-- ===== src/BotManager/Spawn.antt =====
-- The bots that spawnBots makes, one for each car or one for all.
use cpp_interface.Prelude.{
  ℕ, ◌≡◌, refl, ap, ap₂, subst, ◌∙◌, sym, Bool, true, false, Option, none, some, List, [], ◌∷◌,
  ◌++◌, not, ◌==◌, if◌then◌else◌, is_empty, ◌>>=◌, append_assoc, append-nil,
}
use cpp_interface.Bot.{contains}
use cpp_interface.BotManager.{
  ControllableInfo, PlayerConfiguration, TeamInfo, Spawned, Spawning, find_player, custom_bot_of,
  emplace, spawn_batched, spawn_single, spawn_one, spawn_if, spawn_each, spawn_bots,
}

-- The name of a player that is a custom bot of the team.
abbrev pub name_in : ℕ → Option PlayerConfiguration → Option (List ℕ)
name_in team none = none
name_in team (some player) = if player.team == team then player.custom_bot else none

-- The name of the custom bot that plays a car of the team: that of the first player with its id.
abbrev pub plays : TeamInfo → ControllableInfo → Option (List ℕ)
plays info c = name_in info.team (find_player info.configs c.identifier)

abbrev pub with_name : ℕ → Option (List ℕ) → List (ℕ × List ℕ) → List (ℕ × List ℕ)
with_name index none es = es
with_name index (some custom) es = (index, custom) ∷ es

-- The cars of the team that a custom bot plays, with the name of the bot.
abbrev pub eligible : TeamInfo → List ControllableInfo → List (ℕ × List ℕ)
eligible info [] = []
eligible info (c ∷ cs) = with_name c.index (plays info c) (eligible info cs)

-- A bot for one car.
abbrev pub single : ℕ → ℕ × List ℕ → Spawned
single team (index, custom) = record { indices = index ∷ []; team = team; name = custom }

abbrev pub singles : ℕ → List (ℕ × List ℕ) → List Spawned
singles team [] = []
singles team (e ∷ es) = single team e ∷ singles team es

custom_bot_of-contains :
    (info : TeamInfo) (xs : List ℕ) (c : ControllableInfo)
    → custom_bot_of info xs c ≡ (if contains xs c.index then none else plays info c)
unfolding custom_bot_of
custom_bot_of-contains info xs c =
    tests (find_player info.configs c.identifier) (contains xs c.index)
  where
    by_team :
        (same b : Bool) (o : Option (List ℕ))
        → ◌≡◌ {A = Option (List ℕ)}
            (if not same then none else if b then none else o)
            (if b then none else if same then o else none)
    by_team true b o = refl
    by_team false true o = refl
    by_team false false o = refl

    tests :
        (p : Option PlayerConfiguration) (b : Bool)
        → (p >>= λ player.
            if not (player.team == info.team) then none else if b then none else player.custom_bot)
          ≡ (if b then none else name_in info.team p)
    tests none true = refl
    tests none false = refl
    tests (some player) b = by_team (player.team == info.team) b player.custom_bot

module _ {Loadout : Type 0} where
  spawn_each-single :
      (moved_from : List ℕ → List ℕ) (loadout : Spawned → ℕ → Option Loadout) (info : TeamInfo)
      → ((xs : List ℕ) → moved_from xs ≡ [])
      → (cs : List ControllableInfo) (s : Spawning Loadout) → s.bot_indices ≡ []
      → (spawn_each moved_from loadout false info s cs).bots
        ≡ s.bots ++ singles info.team (eligible info cs)
  unfolding spawn_each spawn_one spawn_if spawn_single
  spawn_each-single moved_from loadout info empty [] s e = sym (append-nil s.bots)
  spawn_each-single moved_from loadout info empty (c ∷ cs) s e =
      let next : Option (List ℕ) → Spawning Loadout =
        spawn_if moved_from loadout false info s c.index in
      ap (λ xs. (spawn_each moved_from loadout false info (next (custom_bot_of info xs c)) cs).bots)
        e
      ∙ ap (λ o. (spawn_each moved_from loadout false info (next o) cs).bots)
          (custom_bot_of-contains info [] c)
      ∙ split (plays info c) (λ t e'. spawn_each-single moved_from loadout info empty cs t e')
    where
      split :
          (o : Option (List ℕ))
          → ((t : Spawning Loadout)
              → t.bot_indices ≡ []
              → (spawn_each moved_from loadout false info t cs).bots
                ≡ t.bots ++ singles info.team (eligible info cs))
          → (spawn_each moved_from loadout false info
              (spawn_if moved_from loadout false info s c.index o)
              cs).bots
            ≡ s.bots ++ singles info.team (with_name c.index o (eligible info cs))
      split none later = later s e
      split (some custom) later =
          let indices = emplace s.bot_indices c.index in
          let next = spawn_single moved_from loadout info c.index custom s indices in
          let bot : Spawned = record { indices = indices; team = info.team; name = custom } in
          let more = singles info.team (eligible info cs) in
          let alone : bot ≡ single info.team (c.index, custom) =
            ap (λ xs. record { indices = emplace xs c.index; team = info.team; name = custom }) e in
          later next (empty indices)
          ∙ append_assoc s.bots (bot ∷ []) more
          ∙ ap (λ b. s.bots ++ (b ∷ more)) alone

  -- Without batching, and if a set is empty after it was moved out of, one bot is spawned for each
  -- car of the team that a custom bot plays, in their order, with the index of that car alone and
  -- the name of that bot; an index that occurs twice gets two bots.
  pub spawn_bots-single :
      (moved_from : List ℕ → List ℕ) (loadout : Spawned → ℕ → Option Loadout) (info : TeamInfo)
      → ((xs : List ℕ) → moved_from xs ≡ [])
      → (spawn_bots moved_from loadout false info).bots
        ≡ singles info.team (eligible info info.controllables)
  unfolding spawn_bots
  spawn_bots-single moved_from loadout info empty =
      spawn_each-single moved_from loadout info empty info.controllables
        (record { bot_indices = []; name = []; bots = []; loadouts = [] }) refl

-- The indices of the cars, each once.
abbrev pub added : List ℕ → List (ℕ × List ℕ) → List ℕ
added xs [] = xs
added xs ((index, custom) ∷ es) = added (emplace xs index) es

module _ {Loadout : Type 0} where
  -- The batch has these indices, no name, and no bot yet.
  abbrev IsBatch : Spawning Loadout → List ℕ → List Spawned → Type 0
  IsBatch s indices bots = (s.bot_indices ≡ indices) × (s.name ≡ []) × (s.bots ≡ bots)

  spawn_each-batched :
      (moved_from : List ℕ → List ℕ) (loadout : Spawned → ℕ → Option Loadout) (info : TeamInfo)
      (cs : List ControllableInfo) (s : Spawning Loadout)
      → s.name ≡ []
      → IsBatch
          (spawn_each moved_from loadout true info s cs)
          (added s.bot_indices (eligible info cs))
          s.bots
  unfolding spawn_each spawn_one spawn_if spawn_batched
  spawn_each-batched moved_from loadout info [] s e = (refl, e, refl)
  spawn_each-batched moved_from loadout info (c ∷ cs) s e =
      subst
        (λ o.
          IsBatch
            (spawn_each moved_from loadout true info
              (spawn_if moved_from loadout true info s c.index o) cs)
            (added s.bot_indices (with_name c.index (plays info c) (eligible info cs))) s.bots)
        (sym (custom_bot_of-contains info s.bot_indices c))
        (split (contains s.bot_indices c.index) (plays info c) refl
          (λ t e'. spawn_each-batched moved_from loadout info cs t e'))
    where
      split :
          (known : Bool) (o : Option (List ℕ))
          → contains s.bot_indices c.index ≡ known
          → ((t : Spawning Loadout)
              → t.name ≡ []
              → IsBatch
                  (spawn_each moved_from loadout true info t cs)
                  (added t.bot_indices (eligible info cs))
                  t.bots)
          → IsBatch
              (spawn_each moved_from loadout true info
                (spawn_if moved_from loadout true info s c.index (if known then none else o))
                cs)
              (added s.bot_indices (with_name c.index o (eligible info cs)))
              s.bots
      split true none k later = later s e
      split false none k later = later s e
      split true (some custom) k later = rw (added, k) (later s e)
      split false (some custom) k later =
          later (spawn_batched custom s (emplace s.bot_indices c.index))
            (ap (λ n. if not (is_empty n) then custom else n) e)

  -- With batching one bot is spawned, with the indices of all cars of the team that a custom bot
  -- plays, each once; its name is empty, whatever the names of those bots are.
  pub spawn_bots-batched :
      (moved_from : List ℕ → List ℕ) (loadout : Spawned → ℕ → Option Loadout) (info : TeamInfo)
      → (spawn_bots moved_from loadout true info).bots
        ≡ record {
          indices = added [] (eligible info info.controllables);
          team = info.team;
          name = [];
        }
          ∷ []
  unfolding spawn_bots
  spawn_bots-batched moved_from loadout info =
      let (indices, name, bots) =
        spawn_each-batched moved_from loadout info info.controllables
          (record { bot_indices = []; name = []; bots = []; loadouts = [] }) refl in
      ap₂ (λ bs b. bs ++ (b ∷ [])) bots
        (ap₂ (λ is n. record { indices = is; team = info.team; name = n }) indices name)
