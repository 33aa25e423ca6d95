-- ===== src/Simulator/Ticks.antt =====
-- What one tick of benchmark/Simulator.cpp sends, and which inputs it handles.
use mathlib.Core.Path.{subst}
use cpp_interface.Prelude.{
  ℕ, zero, suc, ◌≡◌, refl, ap, sym, ◌∙◌, ◌≤◌, ◌<◌, ◌+◌, inl, inr, Bool, true, false, Option, none,
  some, List, [], ◌∷◌, ◌++◌, if◌then◌else◌, ◌&&◌, ltb, length, Bool-cases, Option-cases, arith,
  append-nil, append_assoc,
}
use cpp_interface.Simulator.Run.{
  MessageType, Reads, Simulator, is_player_input, ◌and_then◌, write_message, handle_player_input,
  collect, tick,
}

-- What is sent in a tick.
abbrev pub tick_messages : Bool → List MessageType
tick_messages wants =
    if wants
    then MessageType.ball_prediction ∷ MessageType.game_packet ∷ []
    else MessageType.game_packet ∷ []

module _ {M Controller : Type 0} (reads : Reads M Controller) (accepts : ℕ → Bool)
    (players : ℕ) where
  abbrev Outcome : Type 0
  Outcome = Bool × Simulator M Controller

  -- Some inputs are handled, all that are missing if it goes on.
  abbrev Collected : ℕ → Simulator M Controller → Outcome → Type 0
  Collected n s (true, t) = (t.sent ≡ s.sent) × (t.delays ≡ s.delays + n)
  Collected n s (false, t) = (t.sent ≡ s.sent) × (s.delays ≤ t.delays) × (t.delays < s.delays + n)

  abbrev Handled : Simulator M Controller → Option (Simulator M Controller) → Type 0
  Handled s none = Unit
  Handled s (some t) = (t.sent ≡ s.sent) × (t.delays ≡ suc s.delays)

  handle_player_input-Handled :
      (m : M) (s : Simulator M Controller)
      → Handled s (handle_player_input reads accepts players m s)
  unfolding handle_player_input
  handle_player_input-Handled m s = elim (Option-cases (reads.as_player_input m)) [
    | inl e ↦ rw e tt
    | inr (input, e) ↦ elim (Option-cases input.controller_state) [
      | inl f ↦ rw (e, f) tt
      | inr (state, f) ↦
          elim (Bool-cases (ltb input.player_index s.cars && ltb input.player_index players)) [
            | inl yes_it_is ↦ rw (e, f, yes_it_is) (refl, refl)
            | inr it_is_not ↦ rw (e, f, it_is_not) tt
          ]
    ]
  ]

  -- One input more was handled before.
  Collected-suc :
      (n : ℕ) (s t : Simulator M Controller) (o : Outcome)
      → Handled s (some t)
      → Collected n t o
      → Collected (suc n) s o
  Collected-suc n s t (true, u) (same, one) (same', more) = (same' ∙ same, omega (arith, one, more))
  Collected-suc n s t (false, u) (same, one) (same', low, high) =
      (same' ∙ same, omega (arith, one, low), omega (arith, one, high))

  collect-Collected :
      (n : ℕ) (ms : List M) (s : Simulator M Controller)
      → Collected n s (collect reads accepts players n ms s)
  unfolding collect
  collect-Collected zero ms s = (refl, omega arith)
  collect-Collected (suc n) [] s = (refl, omega arith, omega arith)
  collect-Collected (suc n) (m ∷ ms) s = elim (Bool-cases (is_player_input (reads.type m))) [
    | inr passed ↦ rw passed (collect-Collected (suc n) ms s)
    | inl wanted ↦ elim (Option-cases (handle_player_input reads accepts players m s)) [
      | inl e ↦ rw (wanted, e) (refl, omega arith, omega arith)
      | inr (t, e) ↦
          rw (wanted, e)
            (Collected-suc n s t (collect reads accepts players n ms t)
              (subst (Handled s) e (handle_player_input-Handled m s)) (collect-Collected n ms t))
    ]
  ]

  -- A part of some messages was written, and nothing was handled; all of them if it goes on.
  abbrev pub Written : List MessageType → Simulator M Controller → Outcome → Type 0
  Written types s (true, t) = (t.sent ≡ s.sent ++ types) × (t.delays ≡ s.delays)
  Written types s (false, t) =
      (part : List MessageType) × (left : List MessageType) × ((part ++ left ≡ types)
        × (t.sent ≡ s.sent ++ part)
        × (t.delays ≡ s.delays))

  pub write_message-Written :
      (type : MessageType) (s : Simulator M Controller)
      → Written (type ∷ []) s (write_message reads accepts players type s)
  unfolding write_message
  write_message-Written type s = elim (Bool-cases (accepts (length s.sent))) [
    | inl e ↦ rw e (refl, refl)
    | inr e ↦ rw e ([], type ∷ [], (refl, sym (append-nil s.sent), refl))
  ]

  Written-after :
      (types more : List MessageType) (s t : Simulator M Controller) (o : Outcome)
      → t.sent ≡ s.sent ++ types
      → t.delays ≡ s.delays
      → Written more t o
      → Written (types ++ more) s o
  Written-after types more s t (true, u) sent same (sent', same') =
      (sent' ∙ ap (λ xs. xs ++ more) sent ∙ append_assoc s.sent types more, same' ∙ same)
  Written-after types more s t (false, u) sent same (part, left, (whole, sent', same')) = (
    types ++ part,
    left,
    (
      append_assoc types part left ∙ ap (λ xs. types ++ xs) whole,
      sent' ∙ ap (λ xs. xs ++ part) sent ∙ append_assoc s.sent types part,
      same' ∙ same,
    ),
  )

  -- Some messages, and then others.
  pub Written-and_then :
      (types more : List MessageType) (s : Simulator M Controller) (o : Outcome)
      (f : Simulator M Controller → Outcome)
      → Written types s o
      → ((t : Simulator M Controller) → Written more t (f t))
      → Written (types ++ more) s (o and_then f)
  Written-and_then types more s (false, t) f (part, left, (whole, sent, same)) go = (
    part,
    left ++ more,
    (sym (append_assoc part left more) ∙ ap (λ xs. xs ++ more) whole, sent, same),
  )
  Written-and_then types more s (true, t) f (sent, same) go =
      Written-after types more s t (f t) sent same (go t)

  -- The part of a tick that was done: if it does not go on, a part of its messages was sent, and no
  -- more inputs were handled than there are players.
  abbrev pub Ticked : Bool → Simulator M Controller → Outcome → Type 0
  Ticked wants s (true, t) =
      (t.sent ≡ s.sent ++ tick_messages wants) × (t.delays ≡ s.delays + players)
  Ticked wants s (false, t) =
      (part : List MessageType) × (left : List MessageType) × ((part ++ left ≡ tick_messages wants)
        × (t.sent ≡ s.sent ++ part)
        × (s.delays ≤ t.delays)
        × (t.delays ≤ s.delays + players))

  Ticked-Collected :
      (wants : Bool) (s t : Simulator M Controller) (o : Outcome)
      → t.sent ≡ s.sent ++ tick_messages wants
      → t.delays ≡ s.delays
      → Collected players t o
      → Ticked wants s o
  Ticked-Collected wants s t (true, u) sent same (sent', more) =
      (sent' ∙ sent, omega (arith, same, more))
  Ticked-Collected wants s t (false, u) sent same (sent', low, high) = (
    tick_messages wants,
    [],
    (append-nil _, sent' ∙ sent, omega (arith, same, low), omega (arith, same, high)),
  )

  Ticked-and_then :
      (wants : Bool) (s : Simulator M Controller) (o : Outcome)
      → Written (tick_messages wants) s o
      → Ticked wants s (o and_then λ t. collect reads accepts players players t.incoming t)
  Ticked-and_then wants s (true, t) (sent, same) =
      Ticked-Collected wants s t _ sent same (collect-Collected players t.incoming t)
  Ticked-and_then wants s (false, t) (part, left, (whole, sent, same)) =
      (part, left, (whole, sent, omega (arith, same), omega (arith, same)))

  pub tick-Ticked :
      (wants : Bool) (s : Simulator M Controller)
      → Ticked wants s (tick reads accepts players wants s)
  unfolding tick
  tick-Ticked true s = Ticked-and_then true s _ (
      Written-and_then (MessageType.ball_prediction ∷ []) (MessageType.game_packet ∷ []) s _ _
        (write_message-Written MessageType.ball_prediction s)
        (write_message-Written MessageType.game_packet))
  tick-Ticked false s = Ticked-and_then false s _ (write_message-Written MessageType.game_packet s)
