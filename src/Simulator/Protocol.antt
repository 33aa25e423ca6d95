-- ===== src/Simulator/Protocol.antt =====
-- What the server of benchmark/Simulator.cpp sends, and when.
use mathlib.Core.Path.{subst}
use cpp_interface.Prelude.{
  if◌then◌else◌, Bool-cases, ℕ, zero, suc, ◌≡◌, refl, ap, sym, ◌∙◌, ◌≤◌, ◌<◌, ◌+◌, ◌*◌, ◌⊎◌, inl,
  inr, Bool, true, false, Option, none, some, List, [], ◌∷◌, ◌++◌, arith, append-nil, append_assoc,
}
use cpp_interface.Simulator.Run.{
  MessageType, Reads, Simulator, is_connection_settings, ◌and_then◌, wait_for, tick, tick_all,
  write_opening, play_after, play, open_match, run_after, run,
}
use cpp_interface.Simulator.Ticks.{
  tick_messages, Written, write_message-Written, Written-and_then, Ticked, tick-Ticked,
}

abbrev pub opening : List MessageType
opening =
    MessageType.field_info ∷ MessageType.match_configuration ∷ MessageType.controllable_team_info
    ∷ []

abbrev pub rounds : Bool → ℕ → List MessageType
rounds wants zero = []
rounds wants (suc n) = rounds wants n ++ tick_messages wants

module _ {M Controller : Type 0} (reads : Reads M Controller) (accepts : ℕ → Bool)
    (players : ℕ) where
  abbrev Outcome : Type 0
  Outcome = Bool × Simulator M Controller

  -- After `n` ticks, or in the tick that was not the last one.
  abbrev Played : Bool → ℕ → Simulator M Controller → Outcome → Type 0
  Played wants n s (true, t) =
      (t.sent ≡ s.sent ++ rounds wants n) × (t.delays ≡ s.delays + n * players)
  Played wants n s (false, t) =
      (i : ℕ) × (part : List MessageType) × (left : List MessageType) × ((i < n)
        × (part ++ left ≡ tick_messages wants)
        × (t.sent ≡ s.sent ++ (rounds wants i ++ part))
        × (s.delays + i * players ≤ t.delays)
        × (t.delays ≤ s.delays + (i * players + players)))

  rounds-suc : (wants : Bool) (n : ℕ) → tick_messages wants ++ rounds wants n ≡ rounds wants (suc n)
  rounds-suc wants zero = append-nil _
  rounds-suc wants (suc n) =
      sym (append_assoc (tick_messages wants) (rounds wants n) (tick_messages wants))
      ∙ ap (λ xs. xs ++ tick_messages wants) (rounds-suc wants n)

  Played-suc :
      (wants : Bool) (n : ℕ) (s t : Simulator M Controller) (o : Outcome)
      → Ticked reads accepts players wants s (true, t)
      → Played wants n t o
      → Played wants (suc n) s o
  Played-suc wants n s t (true, u) (sent, one) (sent', more) = (
    sent'
        ∙ ap (λ xs. xs ++ rounds wants n) sent
        ∙ append_assoc s.sent (tick_messages wants) (rounds wants n)
        ∙ ap (λ xs. s.sent ++ xs) (rounds-suc wants n),
    omega (arith, one, more),
  )
  Played-suc wants n s t (false, u) (sent, one) (i, part, left, (lt, whole, sent', low, high)) = (
    suc i,
    part,
    left,
    (
      omega (arith, lt),
      whole,
      sent'
          ∙ ap (λ xs. xs ++ (rounds wants i ++ part)) sent
          ∙ append_assoc s.sent (tick_messages wants) (rounds wants i ++ part)
          ∙ ap (λ xs. s.sent ++ xs)
              (sym (append_assoc (tick_messages wants) (rounds wants i) part)
                ∙ ap (λ xs. xs ++ part) (rounds-suc wants i)),
      omega (arith, one, low),
      omega (arith, one, high),
    ),
  )

  Played-tick :
      (wants : Bool) (n : ℕ) (s : Simulator M Controller) (o : Outcome)
      → Ticked reads accepts players wants s o
      → ((t : Simulator M Controller) → Played wants n t (tick_all reads accepts players n wants t))
      → Played wants (suc n) s (o and_then tick_all reads accepts players n wants)
  Played-tick wants n s (true, t) ticked go = Played-suc wants n s t _ ticked (go t)
  Played-tick wants n s (false, t) (part, left, (whole, sent, low, high)) go =
      (0, part, left, (omega arith, whole, sent, omega (arith, low), omega (arith, high)))

  tick_all-Played :
      (wants : Bool) (n : ℕ) (s : Simulator M Controller)
      → Played wants n s (tick_all reads accepts players n wants s)
  unfolding tick_all
  tick_all-Played wants zero s = (sym (append-nil s.sent), omega arith)
  tick_all-Played wants (suc n) s =
      Played-tick wants n s (tick reads accepts players wants s)
        (tick-Ticked reads accepts players wants s) (tick_all-Played wants n)

  -- What the first message that holds settings says of ball predictions, if it does.
  abbrev pub asked : List M → Option Bool
  asked [] = none
  asked (m ∷ ms) =
      let later = asked ms in
      if is_connection_settings (reads.type m) then reads.wants_ball_predictions m else later

  abbrev wish : Option (M × List M) → Option Bool
  wish none = none
  wish (some found) = reads.wants_ball_predictions found.0

  asked_lem :
      (ms : List M) → wish (wait_for reads accepts players is_connection_settings ms) ≡ asked ms
  unfolding wait_for
  asked_lem [] = refl
  asked_lem (m ∷ ms) = elim (Bool-cases (is_connection_settings (reads.type m))) [
    | inl set ↦ rw set refl
    | inr other ↦ rw other (asked_lem ms)
  ]

  -- With the wish of the settings: the whole of what is sent, if it goes to the end; if not, a part
  -- of the opening, or the opening, some ticks and a part of the next one, with as many inputs
  -- handled as players times those ticks, and at most one more for each player.
  abbrev pub Follows : Option Bool → ℕ → List MessageType → Outcome → Type 0
  Follows wished ticks before (true, t) =
      (wants : Bool) × ((wished ≡ some wants)
        × (t.sent ≡ before ++ (opening ++ rounds wants ticks))
        × (t.delays ≡ ticks * players))
  Follows wished ticks before (false, t) =
      ((part : List MessageType) × (left : List MessageType) × ((part ++ left ≡ opening)
          × (t.sent ≡ before ++ part)))
      ⊎ ((wants : Bool) × (i : ℕ) × (part : List MessageType) × (left : List MessageType) × ((wished
              ≡ some wants)
            × (i < ticks)
            × (part ++ left ≡ tick_messages wants)
            × (t.sent ≡ before ++ (opening ++ (rounds wants i ++ part)))
            × (i * players ≤ t.delays)
            × (t.delays ≤ i * players + players)))

  write_opening-Written :
      (s : Simulator M Controller)
      → Written reads accepts players opening s (write_opening reads accepts players s)
  unfolding write_opening
  write_opening-Written s =
      Written-and_then reads accepts players _ _ s _ _
        (Written-and_then reads accepts players (MessageType.field_info ∷ [])
          (MessageType.match_configuration ∷ []) s _ _
          (write_message-Written reads accepts players MessageType.field_info s)
          (write_message-Written reads accepts players MessageType.match_configuration))
        (write_message-Written reads accepts players MessageType.controllable_team_info)

  Follows-Played :
      (wants : Bool) (ticks : ℕ) (s t : Simulator M Controller) (o : Outcome)
      → t.sent ≡ s.sent ++ opening
      → t.delays ≡ 0
      → Played wants ticks t o
      → Follows (some wants) ticks s.sent o
  Follows-Played wants ticks s t (true, u) sent cleared (sent', more) = (
    wants,
    (
      refl,
      sent'
          ∙ ap (λ xs. xs ++ rounds wants ticks) sent
          ∙ append_assoc s.sent opening (rounds wants ticks),
      omega (arith, cleared, more),
    ),
  )
  Follows-Played wants ticks s t (false, u) sent cleared
        (i, part, left, (lt, whole, sent', low, high)) =
      inr (
        wants,
        i,
        part,
        left,
        (
          refl,
          lt,
          whole,
          sent'
              ∙ ap (λ xs. xs ++ (rounds wants i ++ part)) sent
              ∙ append_assoc s.sent opening (rounds wants i ++ part),
          omega (arith, cleared, low),
          omega (arith, cleared, high),
        ),
      )

  play-Follows :
      (wants : Bool) (ticks : ℕ) (s t : Simulator M Controller) (found : Option (M × List M))
      → t.sent ≡ s.sent ++ opening
      → Follows (some wants) ticks s.sent (play_after reads accepts players ticks wants t found)
  unfolding play_after
  play-Follows wants ticks s t none sent = inl (opening, [], (refl, sent))
  play-Follows wants ticks s t (some found) sent =
      Follows-Played wants ticks s
        (record t { incoming = found.1; cars = t.cars + players; delays = 0 }) _ sent refl
        (tick_all-Played wants ticks _)

  Follows-and_then :
      (wants : Bool) (ticks : ℕ) (s : Simulator M Controller) (o : Outcome)
      → Written reads accepts players opening s o
      → Follows (some wants) ticks s.sent (o and_then play reads accepts players ticks wants)
  unfolding play
  Follows-and_then wants ticks s (true, t) (sent, same) = play-Follows wants ticks s t _ sent
  Follows-and_then wants ticks s (false, t) (part, left, (whole, sent, same)) =
      inl (part, left, (whole, sent))

  open_match-Follows :
      (ticks : ℕ) (s : Simulator M Controller) (wants : Option Bool)
      → Follows wants ticks s.sent (open_match reads accepts players ticks s wants)
  unfolding open_match
  open_match-Follows ticks s none = inl ([], opening, (refl, sym (append-nil s.sent)))
  open_match-Follows ticks s (some wants) =
      Follows-and_then wants ticks s _ (write_opening-Written s)

  run_after-Follows :
      (ticks : ℕ) (s : Simulator M Controller) (found : Option (M × List M))
      → Follows (wish found) ticks s.sent (run_after reads accepts players ticks s found)
  unfolding run_after
  run_after-Follows ticks s none = inl ([], opening, (refl, sym (append-nil s.sent)))
  run_after-Follows ticks s (some found) =
      open_match-Follows ticks (record s { incoming = found.1 }) _

  -- Whatever the client sends and whenever a write fails: if run succeeds, the first message with
  -- settings says whether ball predictions are wanted, and run has sent the three messages of the
  -- opening and those of each tick, a ball prediction among them just when it is wanted, and nothing
  -- else, and has handled as many inputs as players times ticks. If not, it has sent a beginning of
  -- that: it has stopped in the opening, or in a tick before which as many inputs were handled as
  -- players times the ticks before.
  pub run-Follows :
      (ticks : ℕ) (s : Simulator M Controller)
      → Follows (asked s.incoming) ticks s.sent (run reads accepts players ticks s)
  unfolding run
  run-Follows ticks s =
      subst (λ w. Follows w ticks s.sent (run reads accepts players ticks s)) (asked_lem s.incoming)
        (run_after-Follows ticks s
          (wait_for reads accepts players is_connection_settings s.incoming))
