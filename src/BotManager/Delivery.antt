-- ===== src/BotManager/Delivery.antt =====
-- Which packets reach which bot.
use cpp_interface.Prelude.{
  ℕ, ◌≡◌, refl, ap, ◌∙◌, sym, Bool, true, false, Option, none, some, List, [], ◌∷◌, ◌++◌, ◌>>=◌,
  map, map-id, map-map, All,
}
use cpp_interface.BotContext.{
  CoreMessage, BotContext, Hooks, Packet, service_loop, set_game_packet, set_ball_prediction,
  add_match_comm, keep_game_packet, keep_ball_prediction, keep_match_comm, has_work,
}
use cpp_interface.BotContext.Work.{IsFaithful, IsPolite, service_loop_at}
use cpp_interface.BotManager.Dispatch.{
  World, Manager, each, Sent, pass_on, packets_sent, to_bots, loop_first, handle_verified,
  handle_message,
}

-- A packet that is neither one of the three that are kept nor the signal to disconnect.
abbrev pub IsTraffic : Option CoreMessage → Type 0
IsTraffic none = Unit
IsTraffic (some CoreMessage.disconnect_signal) = ⊥
IsTraffic (some CoreMessage.game_packet) = Unit
IsTraffic (some CoreMessage.field_info) = ⊥
IsTraffic (some CoreMessage.match_configuration) = ⊥
IsTraffic (some CoreMessage.match_comm) = Unit
IsTraffic (some CoreMessage.ball_prediction) = Unit
IsTraffic (some CoreMessage.controllable_team_info) = ⊥
IsTraffic (some CoreMessage.unknown) = Unit

each-some :
    {C : Type 0} (f : C → Option C) (g : C → C)
    → ((c : C) → f c ≡ some (g c))
    → (cs : List C) → each f cs ≡ some (map g cs)
unfolding each
each-some f g same [] = refl
each-some f g same (c ∷ cs) = rw (same c, each-some f g same cs) refl

module _ {Mail User Output GameState Render : Type 0} where
  -- What a bot with a thread of its own gets of a packet.
  abbrev pub deliver :
      Hooks Mail User Output GameState Render
      → Option CoreMessage
      → Mail
      → BotContext Mail User Output GameState Render
      → BotContext Mail User Output GameState Render
  deliver hooks (some CoreMessage.game_packet) m c = keep_game_packet c m
  deliver hooks (some CoreMessage.match_comm) m c = keep_match_comm hooks c m
  deliver hooks (some CoreMessage.ball_prediction) m c = keep_ball_prediction c m
  deliver hooks _ m c = c

  -- The context has these indices, no work, and a faithful bot.
  abbrev pub IsReady : List ℕ → ℕ → BotContext Mail User Output GameState Render → Type 0
  IsReady indices team c =
      (has_work c ≡ false) × (c.indices ≡ indices) × IsFaithful indices team c.bot

  service_loop-IsReady :
      (hooks : Hooks Mail User Output GameState Render) (indices : List ℕ) (team : ℕ)
      (c : BotContext Mail User Output GameState Render)
      → IsPolite hooks indices team
      → c.indices ≡ indices
      → IsFaithful indices team c.bot
      → (ps : List (Packet Output GameState Render)) × (d : BotContext Mail User Output GameState
          Render)
        × ((service_loop hooks c ≡ some (has_work c, ps, d)) × IsReady indices team d)
  service_loop-IsReady hooks indices team c polite e faithful =
      let (ps, d, (done, idle, same, still, heard, emptied)) =
        service_loop_at hooks indices team c polite e faithful in
      (ps, d, (done, (idle, same, still)))

  -- A context with no work is left alone.
  pub service_loop_idle :
      (hooks : Hooks Mail User Output GameState Render)
      (c : BotContext Mail User Output GameState Render)
      → has_work c ≡ false
      → service_loop hooks c ≡ some (false, [], c)
  unfolding service_loop
  service_loop_idle hooks c idle = rw idle refl

  -- The schema requires the message of a packet, so that a verified match comm is there.
  abbrev pub HasComms : Hooks Mail User Output GameState Render → Type 0
  HasComms hooks =
      (m : Mail) → hooks.core_packet m ≡ some CoreMessage.match_comm → hooks.has_match_comm m ≡ true

  -- A packet of the type of a setter is taken by every bot.
  each-keep_game_packet :
      (hooks : Hooks Mail User Output GameState Render) (mail : Mail)
      (cs : List (BotContext Mail User Output GameState Render))
      → hooks.core_packet mail ≡ some CoreMessage.game_packet
      → each (λ c. set_game_packet hooks c mail) cs ≡ some (map (λ c. keep_game_packet c mail) cs)
  unfolding set_game_packet
  each-keep_game_packet hooks mail cs e = each-some _ _ (λ c. rw e refl) cs

  each-keep_ball_prediction :
      (hooks : Hooks Mail User Output GameState Render) (mail : Mail)
      (cs : List (BotContext Mail User Output GameState Render))
      → hooks.core_packet mail ≡ some CoreMessage.ball_prediction
      → each (λ c. set_ball_prediction hooks c mail) cs
        ≡ some (map (λ c. keep_ball_prediction c mail) cs)
  unfolding set_ball_prediction
  each-keep_ball_prediction hooks mail cs e = each-some _ _ (λ c. rw e refl) cs

  each-keep_match_comm :
      (hooks : Hooks Mail User Output GameState Render) (mail : Mail)
      (cs : List (BotContext Mail User Output GameState Render))
      → hooks.core_packet mail ≡ some CoreMessage.match_comm
      → hooks.has_match_comm mail ≡ true
      → each (λ c. add_match_comm hooks c mail) cs
        ≡ some (map (λ c. keep_match_comm hooks c mail) cs)
  unfolding add_match_comm
  each-keep_match_comm hooks mail cs e there = each-some _ _ (λ c. rw (e, there) refl) cs

  -- The manager with these bots.
  abbrev pub with_bots :
      Manager Mail User Output GameState Render
      → List (BotContext Mail User Output GameState Render)
      → Manager Mail User Output GameState Render
  with_bots m cs = record m { bots = cs }

module _ {Mail User Output GameState Render Loadout : Type 0} where
  -- What a bot with a thread of its own gets of several packets.
  abbrev pub deliver_all :
      World Mail User Output GameState Render Loadout
      → List Mail
      → BotContext Mail User Output GameState Render
      → BotContext Mail User Output GameState Render
  deliver_all w [] c = c
  deliver_all w (m ∷ ms) c = deliver_all w ms (deliver w.hooks (w.hooks.core_packet m) m c)

  unfoldable pub handle_all :
      World Mail User Output GameState Render Loadout
      → Manager Mail User Output GameState Render
      → List Mail
      → Option
          (Manager Mail User Output GameState Render × List (Sent Output GameState Render Loadout))
  handle_all w m [] = some (m, [])
  handle_all w m (mail ∷ mails) = handle_message w m mail >>= λ (n, s, stop).
      handle_all w n mails >>= λ (o, t). some (o, s ++ t)

  abbrev pub then_all :
      World Mail User Output GameState Render Loadout
      → List Mail
      → Option (
          Manager Mail User Output GameState Render
          × List (Sent Output GameState Render Loadout)
          × Bool)
      → Option
          (Manager Mail User Output GameState Render × List (Sent Output GameState Render Loadout))
  then_all w mails o = o >>= λ (n, s, stop). handle_all w n mails >>= λ (r, t). some (r, s ++ t)

  -- One packet: the first bot stays ready, and the others get theirs.
  abbrev pub Passed :
      World Mail User Output GameState Render Loadout
      → List ℕ
      → ℕ
      → Manager Mail User Output GameState Render
      → List (BotContext Mail User Output GameState Render)
      → Mail
      → Option CoreMessage
      → BotContext Mail User Output GameState Render
      → Type 0
  Passed w indices team m rest mail kind first =
      (first' : BotContext Mail User Output GameState Render) × (s : List
        (Sent Output GameState Render Loadout))
      × ((handle_verified w (with_bots m (first ∷ rest)) mail kind
            ≡ some (with_bots m (first' ∷ map (deliver w.hooks kind mail) rest), s, false))
          × IsReady indices team first')

  -- The first bot runs a round, which leaves it ready.
  loop_first-Passed :
      (w : World Mail User Output GameState Render Loadout) (indices : List ℕ) (team : ℕ)
      (m : Manager Mail User Output GameState Render)
      (first : BotContext Mail User Output GameState Render)
      (rest : List (BotContext Mail User Output GameState Render))
      → IsPolite w.hooks indices team
      → first.indices ≡ indices
      → IsFaithful indices team first.bot
      → (first' : BotContext Mail User Output GameState Render) × (ps : List
          (Packet Output GameState Render))
        × ((loop_first w.hooks first rest ≡ some (first' ∷ rest, ps)) × IsReady indices team first')
  unfolding loop_first
  loop_first-Passed w indices team m first rest polite e faithful =
      let (ps, d, (done, ready)) =
        service_loop-IsReady w.hooks indices team first polite e faithful in
      (d, ps, (ap (λ o. o >>= λ (worked, qs, c). some (c ∷ rest, qs)) done, ready))

  -- The manager takes over what a round of the first bot gives.
  abbrev pub finished :
      Manager Mail User Output GameState Render
      → Option (
          List (BotContext Mail User Output GameState Render)
          × List (Packet Output GameState Render))
      → Option (
          Manager Mail User Output GameState Render
          × List (Sent Output GameState Render Loadout)
          × Bool)
  finished m o =
      (o >>= λ (cs, ps). some (with_bots m cs, packets_sent ps)) >>= λ (n, s). some (n, s, false)

  pub handle_verified-Passed :
      (w : World Mail User Output GameState Render Loadout) (indices : List ℕ) (team : ℕ)
      (m : Manager Mail User Output GameState Render)
      (first : BotContext Mail User Output GameState Render)
      (rest : List (BotContext Mail User Output GameState Render)) (mail : Mail)
      (kind : Option CoreMessage)
      → IsPolite w.hooks indices team
      → HasComms w.hooks
      → w.hooks.core_packet mail ≡ kind
      → IsReady indices team first
      → IsTraffic kind
      → Passed w indices team m rest mail kind first
  unfolding handle_verified to_bots pass_on set_game_packet keep_game_packet keep_ball_prediction
  handle_verified-Passed w indices team m first rest mail none polite comms e ready t = (
    first,
    [],
    (ap (λ cs. some (with_bots m (first ∷ cs), [], false)) (sym (map-id rest)), ready),
  )
  handle_verified-Passed w indices team m first rest mail (some CoreMessage.unknown) polite comms e
        ready t =
      (
        first,
        [],
        (ap (λ cs. some (with_bots m (first ∷ cs), [], false)) (sym (map-id rest)), ready),
      )
  handle_verified-Passed w indices team m first rest mail (some CoreMessage.ball_prediction) polite
        comms e ready t =
      (
        keep_ball_prediction first mail,
        [],
        (rw (each-keep_ball_prediction w.hooks mail (first ∷ rest) e) refl, ready),
      )
  handle_verified-Passed w indices team m first rest mail (some CoreMessage.game_packet) polite
        comms e ready t =
      let (d, ps, (done, ready')) =
        loop_first-Passed w indices team m (keep_game_packet first mail)
          (map (λ c. keep_game_packet c mail) rest) polite ready.1 ready.2 in
      (
        d,
        packets_sent ps,
        (rw (each-keep_game_packet w.hooks mail rest e, e) (ap (finished m) done), ready'),
      )
  handle_verified-Passed w indices team m first rest mail (some CoreMessage.match_comm) polite comms
        e ready t =
      let (d, ps, (done, ready')) =
        loop_first-Passed w indices team m first (map (λ c. keep_match_comm w.hooks c mail) rest)
          polite ready.1 ready.2 in
      (
        d,
        packets_sent ps,
        (
          rw (comms mail e, each-keep_match_comm w.hooks mail rest e (comms mail e))
              (ap (finished m) done),
          ready',
        ),
      )
  handle_verified-Passed w indices team m first rest mail (some CoreMessage.disconnect_signal)
        polite comms e ready t =
      absurd t
  handle_verified-Passed w indices team m first rest mail (some CoreMessage.field_info) polite comms
        e ready t =
      absurd t
  handle_verified-Passed w indices team m first rest mail (some CoreMessage.match_configuration)
        polite comms e ready t =
      absurd t
  handle_verified-Passed w indices team m first rest mail (some CoreMessage.controllable_team_info)
        polite comms e ready t =
      absurd t

  -- While only traffic comes in, with a first bot that is ready, hooks that leave a faithful bot
  -- faithful and a schema that requires the match comm of a packet, no assertion fails, the first
  -- bot is ready after each packet, and each other bot gets every game packet, every ball
  -- prediction, and every match comm that is for it, in the order of their arrival.
  pub handle_all-deliver_all :
      (w : World Mail User Output GameState Render Loadout) (indices : List ℕ) (team : ℕ)
      (m : Manager Mail User Output GameState Render)
      (first : BotContext Mail User Output GameState Render)
      (rest : List (BotContext Mail User Output GameState Render)) (mails : List Mail)
      → IsPolite w.hooks indices team
      → HasComms w.hooks
      → IsReady indices team first
      → All (λ mail. IsTraffic (w.hooks.core_packet mail)) mails
      → (first' : BotContext Mail User Output GameState Render) × (s : List
          (Sent Output GameState Render Loadout))
        × ((handle_all w (with_bots m (first ∷ rest)) mails
              ≡ some (with_bots m (first' ∷ map (deliver_all w mails) rest), s))
            × IsReady indices team first')
  unfolding handle_all handle_message
  handle_all-deliver_all w indices team m first rest [] polite comms ready traffic =
      (first, [], (ap (λ cs. some (with_bots m (first ∷ cs), [])) (sym (map-id rest)), ready))
  handle_all-deliver_all w indices team m first rest (mail ∷ mails) polite comms ready traffic =
      let kind = w.hooks.core_packet mail in
      let (first', s, (done, ready')) =
        handle_verified-Passed w indices team m first rest mail kind polite comms refl ready
          traffic.0 in
      let (last, t, (done', ready'')) =
        handle_all-deliver_all w indices team m first' (map (deliver w.hooks kind mail) rest) mails
          polite comms ready' traffic.1 in
      (
        last,
        s ++ t,
        (
          ap (then_all w mails) done
              ∙ ap (λ o. o >>= λ (n, u). some (n, s ++ u)) done'
              ∙ ap (λ cs. some (with_bots m (last ∷ cs), s ++ t))
                  (map-map (deliver_all w mails) (deliver w.hooks kind mail) rest),
          ready'',
        ),
      )
