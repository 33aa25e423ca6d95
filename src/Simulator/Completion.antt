-- ===== src/Simulator/Completion.antt =====
-- A run with a client that plays its part.
use mathlib.Core.Path.{subst}
use cpp_interface.Prelude.{
  ℕ, zero, suc, ◌≡◌, refl, ap, sym, ◌∙◌, ◌≤◌, ◌<◌, ◌+◌, ◌*◌, Bool, true, false, some, List, [], ◌∷◌,
  ◌++◌, if◌then◌else◌, ◌==◌, ltb, lt→ltb, length, All, drop, length-drop, arith,
}
use cpp_interface.Simulator.Run.{
  MessageType, Reads, PlayerInput, Simulator, wait_for, write_message, handle_player_input, collect,
  tick, tick_all, write_opening, play_after, play, open_match, run_after, run,
}

All-drop : {A : Type 0} (P : A → Type 0) (n : ℕ) (xs : List A) → All P xs → All P (drop n xs)
All-drop P zero xs all = all
All-drop P (suc n) [] all = all
All-drop P (suc n) (x ∷ xs) all = All-drop P n xs all.1

module _ {M Controller : Type 0} (reads : Reads M Controller) (players : ℕ) where
  -- An input of one of the players.
  pub record IsInput (m : M) : Type 0 where
    pub typed : reads.type m ≡ MessageType.player_input
    pub input : PlayerInput Controller
    pub verified : reads.as_player_input m ≡ some input
    pub state : Controller
    pub has_state : input.controller_state ≡ some state
    pub player : input.player_index < players

module _ {M Controller : Type 0} (reads : Reads M Controller) (accepts : ℕ → Bool) (players : ℕ)
    (open_peer : (k : ℕ) → accepts k ≡ true) where
  abbrev State : Type 0
  State = Simulator M Controller

  -- It goes on, with `n` messages fewer to come.
  pub record GoesOn (n : ℕ) (ms : List M) (s : State) (o : Bool × State) : Type 0 where
    pub next : State
    pub done : o ≡ (true, next)
    pub fewer : next.incoming ≡ drop n ms
    pub same_cars : next.cars ≡ s.cars

  write_message-GoesOn :
      (type : MessageType) (s : State)
      → write_message reads accepts players type s
        ≡ (true, record s { sent = s.sent ++ (type ∷ []) })
  unfolding write_message
  write_message-GoesOn type s = rw (open_peer (length s.sent)) refl

  abbrev handled : (m : M) → IsInput reads players m → State → State
  handled m h s = record s {
    last_input = λ i. if i == h.input.player_index then some h.state else s.last_input i;
    delays = suc s.delays;
  }

  handle_player_input-IsInput :
      (m : M) (h : IsInput reads players m) (s : State)
      → players ≤ s.cars
      → handle_player_input reads accepts players m s ≡ some (handled m h s)
  unfolding handle_player_input
  handle_player_input-IsInput m h s cars =
      let in_cars : ltb h.input.player_index s.cars ≡ true =
        lt→ltb _ _ (omega (arith, h.player, cars)) in
      let in_players : ltb h.input.player_index players ≡ true = lt→ltb _ _ h.player in
      rw (h.verified, h.has_state, in_cars, in_players) refl

  collect-GoesOn :
      (n : ℕ) (ms : List M) (s : State)
      → All (IsInput reads players) ms
      → n ≤ length ms
      → players ≤ s.cars
      → GoesOn n ms s (collect reads accepts players n ms s)
  unfolding collect
  collect-GoesOn zero ms s all enough cars = record {
    next = _;
    done = refl;
    fewer = refl;
    same_cars = refl;
  }
  collect-GoesOn (suc n) [] s all enough cars = absurd (omega arith)
  collect-GoesOn (suc n) (m ∷ ms) s (h, all) enough cars =
      let rest = collect-GoesOn n ms (handled m h s) all (omega arith) cars in
      record {
        next = rest.next;
        done = rw (h.typed, handle_player_input-IsInput m h s cars) rest.done;
        fewer = rest.fewer;
        same_cars = rest.same_cars;
      }

  tick-GoesOn :
      (wants : Bool) (s : State)
      → All (IsInput reads players) s.incoming
      → players ≤ length s.incoming
      → players ≤ s.cars
      → GoesOn players s.incoming s (tick reads accepts players wants s)
  unfolding tick write_message
  tick-GoesOn true s all enough cars =
      let rest =
        collect-GoesOn players s.incoming
          (record s {
            sent = (s.sent ++ (MessageType.ball_prediction ∷ [])) ++ (MessageType.game_packet ∷ []);
          })
          all enough cars in
      record {
        next = rest.next;
        done =
            rw
              (
                open_peer (length s.sent),
                open_peer (length (s.sent ++ (MessageType.ball_prediction ∷ []))),
              )
              rest.done;
        fewer = rest.fewer;
        same_cars = rest.same_cars;
      }
  tick-GoesOn false s all enough cars =
      let rest =
        collect-GoesOn players s.incoming
          (record s { sent = s.sent ++ (MessageType.game_packet ∷ []) }) all enough cars in
      record {
        next = rest.next;
        done = rw (open_peer (length s.sent)) rest.done;
        fewer = rest.fewer;
        same_cars = rest.same_cars;
      }

  tick_all-true :
      (n : ℕ) (wants : Bool) (s : State)
      → All (IsInput reads players) s.incoming
      → n * players ≤ length s.incoming
      → players ≤ s.cars
      → (t : State) × (tick_all reads accepts players n wants s ≡ (true, t))
  unfolding tick_all
  tick_all-true zero wants s all enough cars = (s, refl)
  tick_all-true (suc n) wants s all enough cars =
      let first = tick-GoesOn wants s all (omega arith) cars in
      let few = ap length first.fewer ∙ length-drop players s.incoming in
      let (t, e) =
        tick_all-true n wants first.next
          (subst (All (IsInput reads players)) (sym first.fewer)
            (All-drop (IsInput reads players) players s.incoming all))
          (omega (arith, few, enough)) (omega (arith, first.same_cars, cars)) in
      (t, rw first.done e)

  -- With a peer that takes all, whose messages are settings that verify, the end of its initialisation
  -- and valid inputs of the players, as many as there are players for each tick, run succeeds.
  pub run-true :
      (ticks : ℕ) (s : State) (settings initialized : M) (inputs : List M) (wants : Bool)
      → s.incoming ≡ settings ∷ initialized ∷ inputs
      → reads.type settings ≡ MessageType.connection_settings
      → reads.wants_ball_predictions settings ≡ some wants
      → reads.type initialized ≡ MessageType.init_complete
      → All (IsInput reads players) inputs
      → ticks * players ≤ length inputs
      → (t : State) × (run reads accepts players ticks s ≡ (true, t))
  unfolding run run_after open_match write_opening write_message play play_after wait_for
  run-true ticks s settings initialized inputs wants come first verified second all enough =
      let before = s.sent ++ (MessageType.field_info ∷ []) in
      let (t, e) =
        tick_all-true ticks wants
          (record s {
            incoming = inputs;
            sent =
                (before ++ (MessageType.match_configuration ∷ []))
                ++ (MessageType.controllable_team_info ∷ []);
            cars = s.cars + players;
            delays = 0;
          })
          all enough (omega arith) in
      (
        t,
        rw
            (
              come,
              first,
              verified,
              open_peer (length s.sent),
              open_peer (length before),
              open_peer (length (before ++ (MessageType.match_configuration ∷ []))),
              second,
            )
            e,
      )
