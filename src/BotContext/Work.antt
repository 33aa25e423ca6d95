-- ===== src/BotContext/Work.antt =====
-- library/BotContext.cpp, serviceLoop: what a round sends and what it leaves.
use cpp_interface.Prelude.{
  subst, sym, Bool, not, is_empty, ℕ, ◌≡◌, refl, ap, ap₂, ◌∙◌, true, false, Option, none, some,
  List, [], ◌∷◌, ◌++◌, leb, ◌>>=◌, map, All, Bool-cases, inl, inr, eq→==,
}
use cpp_interface.Bot.{
  Bot, MatchComm, emplaced, get_output, get_match_comms, get_render_messages,
  get_desired_game_state,
}
use cpp_interface.Bot.Mail.{IsOwn}
use cpp_interface.BotContext.{
  Packet, match_comm, BotContext, Hooks, send_inputs, handle_comms, handle_game_packet, send_comms,
  send_renders, send_game_state, collect, has_work, service_loop,
}

module _ {Output GameState Render : Type 0} where
  -- The bot has these indices and this team, and its comms are its own.
  abbrev pub IsFaithful : List ℕ → ℕ → Bot Output GameState Render → Type 0
  IsFaithful indices team b =
      (b.indices ≡ indices) × (b.team ≡ team) × All (IsOwn indices team) (emplaced b.match_comms)

  send_inputs-IsFaithful :
      (default : Output) (players : ℕ) (is indices : List ℕ) (team : ℕ)
      (b : Bot Output GameState Render)
      → IsFaithful indices team b
      → IsFaithful indices team ((send_inputs default players is b).1)
  unfolding send_inputs get_output
  send_inputs-IsFaithful default players [] indices team b ok = ok
  send_inputs-IsFaithful default players (i ∷ is) indices team b ok =
      elim (Bool-cases (leb players i)) [
        | inl skip ↦ rw skip (send_inputs-IsFaithful default players is indices team b ok)
        | inr sent ↦
            rw sent (
              send_inputs-IsFaithful default players is indices team ((get_output default b i).1)
                ok)
      ]

  send_comms-All :
      (indices : List ℕ) (team : ℕ) (cs : List MatchComm)
      → All (IsOwn indices team) cs
      → send_comms {Output = Output} {GameState = GameState} {Render = Render} indices team cs
        ≡ some (map match_comm cs)
  unfolding send_comms
  send_comms-All indices team [] own = refl
  send_comms-All indices team (c ∷ cs) own =
      rw (own.0.0, eq→== c.team team own.0.1, send_comms-All indices team cs own.1) refl

module _ {Mail : Type 0} where
  idle_parts :
      (packet : Option Mail) (comms : List Mail)
      → (elim packet as (λ _. Bool) [ none ↦ not (is_empty comms) | some m ↦ true ]) ≡ false
      → (packet ≡ none) × (comms ≡ [])
  idle_parts none [] h = (refl, refl)
  idle_parts none (m ∷ ms) h = cc
  idle_parts (some m) ms h = cc

module _ {Mail User Output GameState Render : Type 0} where
  -- The hooks leave a faithful bot faithful.
  abbrev pub IsPolite : Hooks Mail User Output GameState Render → List ℕ → ℕ → Type 0
  IsPolite hooks indices team =
      ((m : Mail) (u : User) (b : Bot Output GameState Render)
        → IsFaithful indices team b
        → IsFaithful indices team ((hooks.on_match_comm m u b).1))
      × ((m : Mail) (ball : Option Mail) (u : User) (b : Bot Output GameState Render)
          → IsFaithful indices team b
          → IsFaithful indices team ((hooks.on_update m ball u b).1))

  handle_comms-IsFaithful :
      (hooks : Hooks Mail User Output GameState Render) (indices : List ℕ) (team : ℕ)
      → IsPolite hooks indices team
      → (ms : List Mail) (u : User) (b : Bot Output GameState Render) → IsFaithful indices team b
      → IsFaithful indices team ((handle_comms hooks ms (u, b)).1)
  unfolding handle_comms
  handle_comms-IsFaithful hooks indices team polite [] u b ok = ok
  handle_comms-IsFaithful hooks indices team polite (m ∷ ms) u b ok =
      handle_comms-IsFaithful hooks indices team polite ms ((hooks.on_match_comm m u b).0)
        ((hooks.on_match_comm m u b).1) (polite.0 m u b ok)

  handle_game_packet-IsFaithful :
      (hooks : Hooks Mail User Output GameState Render) (indices : List ℕ) (team : ℕ)
      → IsPolite hooks indices team
      → (is : List ℕ) (packet ball : Option Mail) (u : User) (b : Bot Output GameState Render)
      → IsFaithful indices team b
      → IsFaithful indices team ((handle_game_packet hooks is packet ball (u, b)).2)
  unfolding handle_game_packet
  handle_game_packet-IsFaithful hooks indices team polite is none ball u b ok = ok
  handle_game_packet-IsFaithful hooks indices team polite is (some m) ball u b ok =
      send_inputs-IsFaithful hooks.default_output (hooks.player_count m) is indices team
        ((hooks.on_update m ball u b).1) (polite.1 m ball u b ok)

  collect-IsFaithful :
      (c : BotContext Mail User Output GameState Render) (team : ℕ)
      → IsFaithful c.indices team c.bot
      → (ps : List (Packet Output GameState Render)) × (d : BotContext Mail User Output GameState
          Render)
        × ((collect c ≡ some (ps, d))
            × (has_work d ≡ has_work c)
            × (d.indices ≡ c.indices)
            × IsFaithful c.indices team d.bot
            × (d.user ≡ c.user)
            × (d.match_comms_in ≡ c.match_comms_in))
  unfolding collect get_match_comms get_render_messages get_desired_game_state
  collect-IsFaithful c team ok =
      let comms = emplaced c.bot.match_comms in
      let sent : send_comms {Output = Output} {GameState = GameState} {Render = Render} c.indices
            c.bot.team comms
          ≡ some (map match_comm comms) =
        ap (λ t. send_comms c.indices t comms) ok.1 ∙ send_comms-All c.indices team comms ok.2 in
      (
        map match_comm comms
            ++ (send_renders c.enable_rendering c.bot.render_messages
                ++ send_game_state c.enable_state_setting c.bot.game_state),
        record c {
          bot = record (c.bot) { match_comms = none; render_messages = none; game_state = none };
        },
        (rw sent refl, refl, refl, (ok.0, ok.1, tt), refl, refl),
      )

  -- The state of the user after a round: it heard the comms, and then the game packet.
  abbrev pub heard_user :
      Hooks Mail User Output GameState Render → BotContext Mail User Output GameState Render → User
  heard_user hooks c =
      (handle_game_packet hooks c.indices c.game_packet c.ball_prediction
        (handle_comms hooks c.match_comms_in (c.user, c.bot))).1

  heard_user_idle :
      (hooks : Hooks Mail User Output GameState Render)
      (c : BotContext Mail User Output GameState Render)
      → has_work c ≡ false
      → heard_user hooks c ≡ c.user
  unfolding handle_comms handle_game_packet
  heard_user_idle hooks c idle =
      let (no_packet, no_comms) = idle_parts c.game_packet c.match_comms_in idle in
      ap₂
        (λ packet comms.
          (handle_game_packet hooks c.indices packet c.ball_prediction
            (handle_comms hooks comms (c.user, c.bot))).1)
        no_packet no_comms

  pub service_loop_heard :
      (hooks : Hooks Mail User Output GameState Render)
      (c : BotContext Mail User Output GameState Render)
      → IsPolite hooks c.indices c.bot.team
      → IsFaithful c.indices c.bot.team c.bot
      → (ps : List (Packet Output GameState Render)) × (d : BotContext Mail User Output GameState
          Render)
        × ((service_loop hooks c ≡ some (has_work c, ps, d))
            × (has_work d ≡ false)
            × (d.indices ≡ c.indices)
            × IsFaithful c.indices c.bot.team d.bot
            × (d.user ≡ heard_user hooks c)
            × (d.match_comms_in ≡ []))
  unfolding service_loop
  service_loop_heard hooks c polite ok = elim (Bool-cases (has_work c)) [
    | inr idle ↦ (
      [],
      c,
      (
        rw idle refl,
        idle,
        refl,
        ok,
        sym (heard_user_idle hooks c idle),
        (idle_parts c.game_packet c.match_comms_in idle).1,
      ),
    )
    | inl busy ↦
        let heard = handle_comms hooks c.match_comms_in (c.user, c.bot) in
        let after = handle_game_packet hooks c.indices c.game_packet c.ball_prediction heard in
        let still =
          handle_game_packet-IsFaithful hooks c.indices c.bot.team polite c.indices c.game_packet
            c.ball_prediction heard.0 heard.1
            (handle_comms-IsFaithful hooks c.indices c.bot.team polite c.match_comms_in c.user c.bot
              ok) in
        let (ps, d, (done, rest, same, faithful, kept, emptied)) =
          collect-IsFaithful
            (record c { match_comms_in = []; game_packet = none; user = after.1; bot = after.2 })
            c.bot.team still in
        (
          after.0 ++ ps,
          d,
          (
            rw busy (ap (λ o. o >>= λ (qs, e). some (true, after.0 ++ qs, e)) done),
            rest,
            same,
            faithful,
            kept,
            emptied,
          ),
        )
  ]

  -- With hooks that leave a faithful bot faithful, a round on a faithful bot fails no assertion; it
  -- says whether there was work, after it there is none, and the bot is faithful again.
  pub service_loop-IsFaithful :
      (hooks : Hooks Mail User Output GameState Render)
      (c : BotContext Mail User Output GameState Render)
      → IsPolite hooks c.indices c.bot.team
      → IsFaithful c.indices c.bot.team c.bot
      → (ps : List (Packet Output GameState Render)) × (d : BotContext Mail User Output GameState
          Render)
        × ((service_loop hooks c ≡ some (has_work c, ps, d))
            × (has_work d ≡ false)
            × (d.indices ≡ c.indices)
            × IsFaithful c.indices c.bot.team d.bot)
  service_loop-IsFaithful hooks c polite ok =
      let (ps, d, (done, idle, same, faithful, heard, emptied)) =
        service_loop_heard hooks c polite ok in
      (ps, d, (done, idle, same, faithful))

  -- The same for indices and a team that are known to be those of the context.
  pub service_loop_at :
      (hooks : Hooks Mail User Output GameState Render) (indices : List ℕ) (team : ℕ)
      (c : BotContext Mail User Output GameState Render)
      → IsPolite hooks indices team
      → c.indices ≡ indices
      → IsFaithful indices team c.bot
      → (ps : List (Packet Output GameState Render)) × (d : BotContext Mail User Output GameState
          Render)
        × ((service_loop hooks c ≡ some (has_work c, ps, d))
            × (has_work d ≡ false)
            × (d.indices ≡ indices)
            × IsFaithful indices team d.bot
            × (d.user ≡ heard_user hooks c)
            × (d.match_comms_in ≡ []))
  service_loop_at hooks indices team c polite e faithful =
      let (ps, d, (done, idle, same, still, heard, emptied)) =
        service_loop_heard hooks c
          (subst (λ x. IsPolite hooks x c.bot.team) (sym e)
            (subst (IsPolite hooks indices) (sym faithful.1) polite))
          (subst (λ x. IsFaithful x c.bot.team c.bot) (sym e)
            (subst (λ t. IsFaithful indices t c.bot) (sym faithful.1) faithful)) in
      (
        ps,
        d,
        (
          done,
          idle,
          same ∙ e,
          subst (λ x. IsFaithful x team d.bot) e
              (subst (λ t. IsFaithful c.indices t d.bot) faithful.1 still),
          heard,
          emptied,
        ),
      )
