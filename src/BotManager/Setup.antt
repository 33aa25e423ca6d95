-- ===== src/BotManager/Setup.antt =====
-- The three messages that the manager waits for, and the connection that asks for them.
use cpp_interface.Prelude.{◌≡◌, Bool, Option, none, some, List, [], ◌∷◌, ◌++◌, append-nil, map, All}
use cpp_interface.BotContext.{CoreMessage, BotContext}
use cpp_interface.BotManager.{spawn_bots}
use cpp_interface.BotManager.Dispatch.{
  World, Manager, init_complete, new_context, loadouts_sent, respawn, spawn_with, handle_message,
}
use cpp_interface.BotManager.Delivery.{handle_all}

module _ {Mail : Type 0} where
  -- The orders of three messages.
  abbrev pub orders : Mail → Mail → Mail → List (List Mail)
  orders t f c =
      (t ∷ f ∷ c ∷ [])
      ∷ (t ∷ c ∷ f ∷ [])
      ∷ (f ∷ t ∷ c ∷ [])
      ∷ (f ∷ c ∷ t ∷ [])
      ∷ (c ∷ t ∷ f ∷ [])
      ∷ (c ∷ f ∷ t ∷ [])
      ∷ []

module _ {Mail User Output GameState Render : Type 0} where
  abbrev pub keeping :
      (controllables field configuration : Option Mail)
      → List (BotContext Mail User Output GameState Render)
      → Bool
      → Manager Mail User Output GameState Render
  keeping t f c bots batch = record {
    controllable_team_info_message = t;
    field_info_message = f;
    match_configuration_message = c;
    bots = bots;
    batch_hivemind = batch;
  }

module _ {Mail User Output GameState Render Loadout : Type 0} where
  -- In whatever order the three messages come in, a manager that has none of them yet ends with all
  -- three, and with a context for each bot that `spawnBots` makes in place of those it had; it sends
  -- the loadouts of the bots, and then once that it is ready.
  pub handle_all-orders :
      (w : World Mail User Output GameState Render Loadout)
      (bots : List (BotContext Mail User Output GameState Render)) (batch : Bool) (t f c : Mail)
      → w.hooks.core_packet t ≡ some CoreMessage.controllable_team_info
      → w.hooks.core_packet f ≡ some CoreMessage.field_info
      → w.hooks.core_packet c ≡ some CoreMessage.match_configuration
      → let made = spawn_bots w.moved_from w.loadout batch (w.team_info t c) in
        All
          (λ mails.
            handle_all w (keeping none none none bots batch) mails
            ≡ some (
              keeping (some t) (some f) (some c) (map (new_context w t f c) made.bots) batch,
              loadouts_sent made.loadouts ++ (init_complete ∷ []),
            ))
          (orders t f c)
  unfolding handle_all handle_message spawn_with respawn
  handle_all-orders w bots batch t f c ht hf hc = (
    simp (ht, hf, hc, append-nil),
    (
      simp (ht, hf, hc, append-nil),
      (
        simp (ht, hf, hc, append-nil),
        (
          simp (ht, hf, hc, append-nil),
          (simp (ht, hf, hc, append-nil), (simp (ht, hf, hc, append-nil), tt)),
        ),
      ),
    ),
  )
