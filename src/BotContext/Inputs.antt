-- ===== src/BotContext/Inputs.antt =====
-- library/BotContext.cpp, serviceLoop: the player inputs of a round.
use cpp_interface.Prelude.{
  ℕ, ◌≡◌, refl, ap, ap₂, ◌∙◌, true, false, List, [], ◌∷◌, ◌==◌, leb, if◌then◌else◌, Bool-cases, inl,
  inr, ◌⊎◌, ==→eq,
}
use cpp_interface.Bot.{Bot, get_output, get_or, assign}
use cpp_interface.Bot.Groups.{get_or-assign}
use cpp_interface.BotContext.{Packet, player_input, send_inputs}

abbrev pub below : ℕ → List ℕ → List ℕ
below n [] = []
below n (i ∷ is) = if leb n i then below n is else i ∷ below n is

module _ {Output GameState Render : Type 0} where
  -- The inputs say for each index.
  abbrev pub inputs_of :
      Output → Bot Output GameState Render → List ℕ → List (Packet Output GameState Render)
  inputs_of default b [] = []
  inputs_of default b (i ∷ is) =
      player_input i (get_or b.outputs i default) ∷ inputs_of default b is

  inputs_of-get_output :
      (default : Output) (b : Bot Output GameState Render) (i : ℕ) (is : List ℕ)
      → inputs_of default ((get_output default b i).1) is ≡ inputs_of default b is
  unfolding get_output
  inputs_of-get_output default b i [] = refl
  inputs_of-get_output default b i (j ∷ is) =
      ap₂ (λ o rest. player_input j o ∷ rest) same (inputs_of-get_output default b i is)
    where
      same :
          get_or (assign b.outputs i (get_or b.outputs i default)) j default
          ≡ get_or b.outputs j default
      same =
          get_or-assign b.outputs i j default (get_or b.outputs i default)
          ∙ chosen (Bool-cases (i == j))
        where
          chosen :
              ((i == j) ≡ true) ⊎ ((i == j) ≡ false)
              → (if i == j then get_or b.outputs i default else get_or b.outputs j default)
                ≡ get_or b.outputs j default
          chosen (inl e) = rw e (ap (λ k. get_or b.outputs k default) (==→eq i j e))
          chosen (inr e) = rw e refl

  -- A round sends one input for each index that is a player of the packet, in the order of the
  -- indices, and each is the output that the bot last set for it, or the default.
  send_inputs_lem :
      (default : Output) (players : ℕ) (is : List ℕ) (b : Bot Output GameState Render)
      → (send_inputs default players is b).0 ≡ inputs_of default b (below players is)
  unfolding send_inputs get_output
  send_inputs_lem default players [] b = refl
  send_inputs_lem default players (i ∷ is) b = elim (Bool-cases (leb players i)) [
    | inl skip ↦ rw skip (send_inputs_lem default players is b)
    | inr sent ↦ rw sent (
        ap₂ (λ o rest. player_input i o ∷ rest) refl
          (send_inputs_lem default players is ((get_output default b i).1)
            ∙ inputs_of-get_output default b i (below players is)))
  ]
