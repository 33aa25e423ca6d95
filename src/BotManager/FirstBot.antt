-- ===== src/BotManager/FirstBot.antt =====
-- The bot on the manager's thread, and match comms.
use cpp_interface.Prelude.{
  ℕ, ◌≡◌, refl, ap, ◌∙◌, sym, false, Option, none, some, List, [], ◌∷◌, ◌++◌, ◌>>=◌, All,
}
use cpp_interface.BotContext.{CoreMessage, BotContext}
use cpp_interface.BotContext.Work.{IsPolite}
use cpp_interface.BotManager.Dispatch.{
  World, Manager, Sent, each, pass_on, to_bots, loop_first, handle_verified, handle_message,
}
use cpp_interface.BotManager.Delivery.{
  IsTraffic, IsReady, HasComms, service_loop_idle, with_bots, handle_all, then_all, finished,
  handle_verified-Passed,
}

abbrev keep_unless_comm : {Mail : Type 0} → Option CoreMessage → Mail → List Mail → List Mail
keep_unless_comm (some CoreMessage.match_comm) mail mails = mails
keep_unless_comm _ mail mails = mail ∷ mails

module _ {Mail User Output GameState Render Loadout : Type 0} where
  -- The packets other than match comms.
  abbrev pub without_comms : World Mail User Output GameState Render Loadout → List Mail → List Mail
  without_comms w [] = []
  without_comms w (mail ∷ mails) =
      keep_unless_comm (w.hooks.core_packet mail) mail (without_comms w mails)

  >>=-some :
      (o : Option
        (Manager Mail User Output GameState Render × List (Sent Output GameState Render Loadout)))
      → (o >>= λ (n, s). some (n, s)) ≡ o
  >>=-some none = refl
  >>=-some (some (n, s)) = refl

  module _ (w : World Mail User Output GameState Render Loadout) (indices : List ℕ) (team : ℕ)
      (m : Manager Mail User Output GameState Render)
      (first : BotContext Mail User Output GameState Render) (mail : Mail) (mails kept : List Mail)
      (polite : IsPolite w.hooks indices team) (comms : HasComms w.hooks)
      (ready : IsReady indices team first)
      (later : (c : BotContext Mail User Output GameState Render)
        → IsReady indices team c
        → handle_all w (with_bots m (c ∷ [])) mails
          ≡ handle_all w (with_bots m (c ∷ [])) kept) where
    abbrev here : Manager Mail User Output GameState Render
    here = with_bots m (first ∷ [])

    -- A packet is handled, and what follows it can be exchanged.
    handle_verified-kept :
        (kind : Option CoreMessage)
        → IsTraffic kind
        → w.hooks.core_packet mail ≡ kind
        → then_all w mails (handle_verified w here mail kind)
          ≡ then_all w kept (handle_verified w here mail kind)
    handle_verified-kept kind traffic e =
        let (first', s, (done, ready')) =
          handle_verified-Passed w indices team m first [] mail kind polite comms e ready traffic in
        ap (then_all w mails) done
        ∙ ap (λ o. o >>= λ (n, t). some (n, s ++ t)) (later first' ready')
        ∙ sym (ap (then_all w kept) done)

    -- A match comm changes nothing if there is no other bot.
    handle_verified-match_comm :
        w.hooks.core_packet mail ≡ some CoreMessage.match_comm
        → handle_verified w here mail (some CoreMessage.match_comm) ≡ some (here, [], false)
    unfolding handle_verified to_bots pass_on loop_first each
    handle_verified-match_comm e = rw (comms mail e) (
        ap (λ o. finished m (o >>= λ (worked, ps, c). some (c ∷ [], ps)))
          (service_loop_idle w.hooks first ready.0))

    handle_verified-keep :
        (kind : Option CoreMessage)
        → IsTraffic kind
        → w.hooks.core_packet mail ≡ kind
        → then_all w mails (handle_verified w here mail kind)
          ≡ handle_all w here (keep_unless_comm kind mail kept)
    unfolding handle_all handle_message
    handle_verified-keep (some CoreMessage.match_comm) traffic e =
        ap (then_all w mails) (handle_verified-match_comm e)
        ∙ >>=-some (handle_all w here mails)
        ∙ later first ready
    handle_verified-keep none traffic e =
        handle_verified-kept none traffic e
        ∙ ap (λ k. then_all w kept (handle_verified w here mail k)) (sym e)
    handle_verified-keep (some CoreMessage.game_packet) traffic e =
        handle_verified-kept (some CoreMessage.game_packet) traffic e
        ∙ ap (λ k. then_all w kept (handle_verified w here mail k)) (sym e)
    handle_verified-keep (some CoreMessage.ball_prediction) traffic e =
        handle_verified-kept (some CoreMessage.ball_prediction) traffic e
        ∙ ap (λ k. then_all w kept (handle_verified w here mail k)) (sym e)
    handle_verified-keep (some CoreMessage.unknown) traffic e =
        handle_verified-kept (some CoreMessage.unknown) traffic e
        ∙ ap (λ k. then_all w kept (handle_verified w here mail k)) (sym e)
    handle_verified-keep (some CoreMessage.disconnect_signal) traffic e = absurd traffic
    handle_verified-keep (some CoreMessage.field_info) traffic e = absurd traffic
    handle_verified-keep (some CoreMessage.match_configuration) traffic e = absurd traffic
    handle_verified-keep (some CoreMessage.controllable_team_info) traffic e = absurd traffic

  -- A manager whose only bot is ready, with hooks that leave a faithful bot faithful and a schema
  -- that requires the match comm of a packet, handles traffic as if the match comms had not come in:
  -- the bot is never told of one.
  pub handle_all-without_comms :
      (w : World Mail User Output GameState Render Loadout) (indices : List ℕ) (team : ℕ)
      (m : Manager Mail User Output GameState Render)
      (first : BotContext Mail User Output GameState Render) (mails : List Mail)
      → IsPolite w.hooks indices team
      → HasComms w.hooks
      → IsReady indices team first
      → All (λ mail. IsTraffic (w.hooks.core_packet mail)) mails
      → handle_all w (with_bots m (first ∷ [])) mails
        ≡ handle_all w (with_bots m (first ∷ [])) (without_comms w mails)
  unfolding handle_all handle_message
  handle_all-without_comms w indices team m first [] polite comms ready traffic = refl
  handle_all-without_comms w indices team m first (mail ∷ mails) polite comms ready traffic =
      handle_verified-keep w indices team m first mail mails (without_comms w mails) polite comms
        ready (λ c ok. handle_all-without_comms w indices team m c mails polite comms ok traffic.1)
        (w.hooks.core_packet mail) traffic.0 refl
