-- ===== src/Simulator/RunTests.antt =====
-- A server with one player whose client leaves in the second tick, and one that waits for a
-- connection.
use cpp_interface.Prelude.{
  ℕ, ◌≡◌, refl, ap, sym, ◌∙◌, Bool, true, false, none, some, List, [], ◌∷◌, ℤ, pos, negsuc, arith,
  Bool-cases, inl, inr,
}
use cpp_interface.Sockets.Descriptors.{TracksSockets, is_open, without, opened}
use cpp_interface.Sockets.{Kernel, Answer, sys_socket, sys_accept, sys_close, no_name, is_invalid}
use cpp_interface.Simulator.Listening.{
  Leaves, wait_for_connection, listen_on, then_go_on, accept_one, close_listener,
  wait_for_connection-Leaves,
}
use cpp_interface.Simulator.Run.{
  MessageType, Reads, Simulator, wait_for, write_message, handle_player_input, collect, tick,
  tick_all, write_opening, play_after, play, open_match, run_after, run,
}
use cpp_interface.Simulator.Protocol.{Follows, run-Follows}
use cpp_interface.Simulator.Completion.{IsInput, run-true}

-- A message is its type; an input is the first player's.
abbrev reads : Reads MessageType ℕ
reads = record {
  type = λ m. m;
  wants_ball_predictions = λ m. some true;
  as_player_input = λ m. some (record { player_index = 0; controller_state = some 7 });
}

abbrev fresh : List MessageType → Simulator MessageType ℕ
fresh incoming = record {
  incoming = incoming;
  sent = [];
  cars = 0;
  last_input = λ i. none;
  delays = 0;
}

abbrev client : List MessageType
client =
    MessageType.other ∷ MessageType.connection_settings ∷ MessageType.init_complete
    ∷ MessageType.other ∷ MessageType.player_input ∷ []

one_tick :
    (run reads (λ k. true) 1 3 (fresh client)).1.sent
    ≡ MessageType.field_info ∷ MessageType.match_configuration ∷ MessageType.controllable_team_info
      ∷ MessageType.ball_prediction ∷ MessageType.game_packet ∷ MessageType.ball_prediction
      ∷ MessageType.game_packet ∷ []
unfolding run run_after open_match write_opening write_message play play_after wait_for tick_all
    tick collect handle_player_input
one_tick = refl

run-Follows_example :
    Follows reads (λ k. true) 1 (some true) 3 [] (run reads (λ k. true) 1 3 (fresh client))
run-Follows_example = run-Follows reads (λ k. true) 1 3 (fresh client)

abbrev good_client : List MessageType
good_client =
    MessageType.connection_settings ∷ MessageType.init_complete ∷ MessageType.player_input
    ∷ MessageType.player_input ∷ []

player_input-IsInput : IsInput reads 1 MessageType.player_input
player_input-IsInput = record {
  typed = refl;
  input = record { player_index = 0; controller_state = some 7 };
  verified = refl;
  state = 7;
  has_state = refl;
  player = omega arith;
}

run-true_example :
    (t : Simulator MessageType ℕ) × (run reads (λ k. true) 1 2 (fresh good_client) ≡ (true, t))
run-true_example =
    run-true reads (λ k. true) 1 (λ k. refl) 2 (fresh good_client) MessageType.connection_settings
      MessageType.init_complete (MessageType.player_input ∷ MessageType.player_input ∷ []) true refl
      refl refl refl (player_input-IsInput, (player_input-IsInput, tt)) (omega arith)

abbrev returns : ℤ → Answer
returns rc = record { rc = rc; errno = 0; addr = no_name; bytes = []; revents = [] }

-- The next connection is called 5, unless that is open.
abbrev accepts_as : Bool → ℤ
accepts_as true = negsuc 0
accepts_as false = pos 5

abbrev after_accept : Bool → List ℤ → List ℤ
after_accept true xs = xs
after_accept false xs = pos 5 ∷ xs

-- The state is the list of open sockets.
abbrev kernel : Kernel (List ℤ)
kernel xs (sys_socket domain type) = (returns (pos 4), pos 4 ∷ xs)
kernel xs (sys_accept fd) =
    (returns (accepts_as (is_open (pos 5) xs)), after_accept (is_open (pos 5) xs) xs)
kernel xs (sys_close fd) = (returns (pos 0), without fd xs)
kernel xs c = (returns (pos 0), xs)

by_accept : (taken : Bool) (xs : List ℤ) → after_accept taken xs ≡ opened (accepts_as taken) xs
by_accept true xs = refl
by_accept false xs = refl

accept-fresh :
    (xs : List ℤ)
    → is_invalid (accepts_as (is_open (pos 5) xs)) ≡ false
    → is_open (accepts_as (is_open (pos 5) xs)) xs ≡ false
accept-fresh xs made = elim (Bool-cases (is_open (pos 5) xs)) [
  | inl taken ↦ absurd (ground (arith, ap (λ b. is_invalid (accepts_as b)) (sym taken) ∙ made))
  | inr free ↦ ap (λ b. is_open (accepts_as b) xs) free ∙ free
]

kernel-TracksSockets : TracksSockets kernel (λ xs. xs)
kernel-TracksSockets = record {
  by_socket = λ d t k. refl;
  by_accept = λ fd k. by_accept (is_open (pos 5) k) k;
  fresh = λ fd k. accept-fresh k;
  by_close = λ fd k. refl;
  by_setsockopt = λ fd o k. refl;
  by_connect = λ fd a n k. refl;
  by_bind = λ fd a n k. refl;
  by_listen = λ fd n k. refl;
}

one_connection : wait_for_connection kernel (pos 3 ∷ []) ≡ (some (pos 5), pos 5 ∷ pos 3 ∷ [])
unfolding wait_for_connection listen_on then_go_on accept_one close_listener
one_connection = refl

wait_for_connection-Leaves_example :
    Leaves kernel (λ xs. xs) (pos 3 ∷ []) (wait_for_connection kernel (pos 3 ∷ []))
wait_for_connection-Leaves_example =
    wait_for_connection-Leaves kernel (λ xs. xs) kernel-TracksSockets (pos 3 ∷ [])
