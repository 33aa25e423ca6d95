-- ===== src/Program/Tests.antt =====
-- A process with one bot, at index 0. The third byte of a message says what it is: 3 a game packet, 6
-- the signal to disconnect.
use cpp_interface.Prelude.{
  ℕ, ◌≡◌, refl, true, false, Option, none, some, List, [], ◌∷◌, ◌++◌, ◌==◌, if◌then◌else◌, ◌⊎◌,
  arith,
}
use cpp_interface.Buffer.{Buffer, IsBytes, memcpy, set, header_at}
use cpp_interface.Message.{size, size_with_header, span, encode}
use cpp_interface.Message.Frames.{Framed}
use cpp_interface.Client.Reader.{handle_messages, handle_read, receive, renew}
use cpp_interface.Client.Reader.Loop.{pending}
use cpp_interface.Client.Writer.{
  linked, gather, submit, request_write_locked, send_message, send_interface_packet,
}
use cpp_interface.Bot.{
  find, assign, get_output, get_match_comms, get_render_messages, get_desired_game_state,
}
use cpp_interface.BotContext.{
  player_input, service_loop, handle_comms, handle_game_packet, send_inputs, send_comms,
  send_renders, send_game_state, collect, set_game_packet,
}
use cpp_interface.BotManager.Dispatch.{
  each, World, Sent, from_bot, loop_first, pass_on, to_bots, handle_packet, handle_verified,
  handle_message,
}
use cpp_interface.BotContext.{CoreMessage, keep_game_packet}
use cpp_interface.Program.{Program, Answers, send_each, handle_each, on_read}
use cpp_interface.Program.Sending.{IsReady}
use cpp_interface.Program.Steps.{IsSound, Fits, SerializesBytes, Read, on_read-Read}
use cpp_interface.Program.Refinement.{
  Session, begin, then_read, by_manager, Refines, Session-Refines,
}

abbrev kind : List ℕ → Option CoreMessage
kind (a ∷ b ∷ c ∷ rest) =
    if c == 3
    then some CoreMessage.game_packet
    else if c == 6
    then some CoreMessage.disconnect_signal
    else none
kind _ = none

abbrev world : World (List ℕ) ℕ ℕ ℕ ℕ ℕ
world = record {
  hooks = record {
    on_match_comm = λ m u b. (u, b);
    on_update = λ m ball u b. (u, b);
    default_output = 9;
    core_packet = kind;
    has_match_comm = λ m. true;
    player_count = λ m. 1;
    comm_index = λ m. 7;
    comm_team = λ m. 1;
    comm_team_only = λ m. true;
  };
  team_info = λ t c. record { team = 1; controllables = []; configs = [] };
  enable_rendering = λ c. true;
  enable_state_setting = λ c. true;
  spawn = λ s. (
    0,
    record {
      indices = [];
      team = 1;
      name = [];
      match_comms = none;
      game_state = none;
      render_messages = none;
      outputs = [];
    },
  );
  loadout = λ s i. none;
  on_initialize = λ t f c u b. (u, b);
  moved_from = λ xs. [];
}

-- Every packet is sent as two bytes.
abbrev serialize : Sent ℕ ℕ ℕ ℕ → List ℕ
serialize s = 4 ∷ 2 ∷ []

abbrev zeros : Buffer
zeros i = 0

abbrev start : Program ℕ ℕ ℕ ℕ
start = record {
  reader = record { in_buffer = zeros; in_start = 0; in_end = 0 };
  writer = record { output_queue = []; iov = []; out_start = 0; writer_idle = true };
  manager = record {
    controllable_team_info_message = none;
    field_info_message = none;
    match_configuration_message = none;
    bots =
        record {
          indices = 0 ∷ [];
          match_comms_in = [];
          game_packet = none;
          ball_prediction = none;
          user = 0;
          bot = record {
            indices = 0 ∷ [];
            team = 1;
            name = [];
            match_comms = none;
            game_state = none;
            render_messages = none;
            outputs = (0, 9) ∷ [];
          };
          enable_rendering = true;
          enable_state_setting = true;
          quit = false;
        }
        ∷ [];
    batch_hivemind = false;
  };
  quit = false;
}

abbrev answers : Answers
answers k = (record { free = 64; accepts = true }, zeros)

-- A game packet, and the first byte of what comes next.
abbrev chunk : List ℕ
chunk = 0 ∷ 1 ∷ 3 ∷ 0 ∷ []

-- The frame of the answer, as it stands in a buffer.
abbrev answer : Buffer
answer = memcpy (set (set zeros 0 0) 1 2) 2 (4 ∷ 2 ∷ [])

-- The bot has answered the packet, and its answer is on its way to the socket.
abbrev answered : Program ℕ ℕ ℕ ℕ
answered = record start {
  reader = record { in_buffer = memcpy zeros 0 chunk; in_start = 3; in_end = 4 };
  writer = record {
    output_queue = record { buffer = some answer; offset = 0 } ∷ [];
    iov = (0 ∷ 2 ∷ 4 ∷ 2 ∷ []) ∷ [];
    out_start = 0;
    writer_idle = false;
  };
}

one_read :
    on_read world serialize zeros zeros answers chunk start
    ≡ some (answered, from_bot (player_input 0 9) ∷ [])
unfolding on_read handle_each send_each handle_read handle_messages receive renew size_with_header
    size span header_at memcpy set handle_message handle_verified handle_packet to_bots pass_on
    loop_first each set_game_packet keep_game_packet service_loop handle_comms handle_game_packet
    send_inputs send_comms send_renders send_game_state collect get_output find assign
    get_match_comms get_render_messages get_desired_game_state send_interface_packet encode
    send_message request_write_locked gather submit linked
one_read = refl

zeros-IsBytes : IsBytes zeros
zeros-IsBytes i = omega arith

answers-IsReady : IsReady answers
answers-IsReady k = (omega arith, zeros-IsBytes)

start-IsSound : IsSound start
start-IsSound = record {
  reads = record { ordered = omega arith; within = omega arith; bytes = zeros-IsBytes };
  writes = record {
    valid = record { whole = tt; started = refl; fewer = omega arith };
    gathered = omega arith;
  };
}

chunk-Fits : Fits start.reader chunk
chunk-Fits = record { bytes = omega arith; some_bytes = omega arith; room = omega arith }

serialize-SerializesBytes : SerializesBytes world serialize
serialize-SerializesBytes s = omega arith

read-Session : Session world serialize start chunk (by_manager (4 ∷ 2 ∷ []) ∷ []) [] answered
read-Session =
    then_read begin refl zeros zeros answers chunk zeros-IsBytes zeros-IsBytes answers-IsReady
      chunk-Fits one_read

Session-Refines_example :
    Refines world serialize start chunk (by_manager (4 ∷ 2 ∷ []) ∷ []) [] answered
Session-Refines_example =
    Session-Refines world serialize serialize-SerializesBytes start-IsSound tt read-Session

on_read-Read_example :
    (fs : List (List ℕ)) × (rest : List ℕ) × (Framed (pending start.reader ++ chunk) fs rest
      × (((handle_each world start.manager fs ≡ none)
            × (on_read world serialize zeros zeros answers chunk start ≡ none))
          ⊎ Read world serialize start fs rest
              (on_read world serialize zeros zeros answers chunk start)))
on_read-Read_example =
    on_read-Read world serialize zeros zeros answers chunk start serialize-SerializesBytes
      zeros-IsBytes zeros-IsBytes answers-IsReady start-IsSound chunk-Fits
