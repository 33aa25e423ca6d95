-- ===== src/Client/SessionTests.antt =====
-- The life of a connection at concrete inputs.
use cpp_interface.Prelude.{pos, ◌≡◌, refl, Bool, true, false, Option, none, some, [], ◌∷◌}
use cpp_interface.Client.Writer.{send_message}
use cpp_interface.Message.{default_message}
use cpp_interface.Client.Session.{
  Client, RingState, absent, live, exited, has_ring, push_quit, Answers, connect, join, terminate,
  out_overlapped, completed, Action, service_thread, act, end_service,
}
use cpp_interface.Client.Session.Terminate.{service_thread-stopped}
use cpp_interface.Client.Session.Reconnect.{
  IsGood, connect_all, send_message-connect-join, connect_retry,
}
use cpp_interface.Client.Reading.{ReadSetup, read_fixed, ReadAnswers, read_sqe, request_read}

abbrev files : ReadSetup
files = record { socket_fd = pos 0; fixed_file = true; ring_read = true }

abbrev accepted : ReadAnswers
accepted = record { has_sqe = true; submitted = pos 1 }

-- A connection in use: three bytes pending, and a write of five under way.
abbrev busy : Client
busy = record {
  reader = record { in_buffer = λ i. 0; in_start = 2; in_end = 5 };
  writer = record {
    output_queue = default_message ∷ [];
    iov = (0 ∷ 3 ∷ 1 ∷ 2 ∷ 3 ∷ []) ∷ [];
    out_start = 0;
    writer_idle = false;
  };
  quit = false;
  running = true;
  socket = true;
  ring = live;
  quit_events = 0;
}

abbrev initial : Client
initial = record {
  reader = record { in_buffer = λ i. 0; in_start = 0; in_end = 0 };
  writer = record { output_queue = []; iov = []; out_start = 0; writer_idle = false };
  quit = false;
  running = false;
  socket = false;
  ring = absent;
  quit_events = 0;
}

abbrev in_use : RingState → Bool
in_use absent = false
in_use live = true
in_use exited = false

abbrev good : Answers
good = record {
  resolves = true;
  connects = true;
  sets_up_ring = true;
  registers_buffers = in_use;
  reads = in_use;
  quits = [];
  read_buffer = λ i. 0;
}

good-IsGood : IsGood good
good-IsGood = record {
  resolves = refl;
  connects = refl;
  sets_up_ring = refl;
  registers_buffers = refl;
  reads = refl;
}

abbrev keep : Action → Client → Option Client
keep a c = some c

abbrev ended : Client
ended = record busy {
  quit = true;
  writer = record busy.writer { writer_idle = true };
  quit_events = 1;
}

service_thread-stopped_example : (ended.quit ≡ true) × (ended.writer.writer_idle ≡ true)
unfolding service_thread end_service act terminate push_quit has_ring
service_thread-stopped_example =
    service_thread-stopped keep (true ∷ []) (completed (some out_overlapped) 5 ∷ [])
      (record busy { quit = true }) ended refl

send_message-connect-join_example :
    (d : Client) × (connect good (join busy) ≡ some (d, true))
    × (send_message (record { free = 64; accepts = true }) d.writer default_message ≡ none)
send_message-connect-join_example =
    send_message-connect-join good busy (record { free = 64; accepts = true }) default_message
      (0 ∷ 3 ∷ 1 ∷ 2 ∷ 3 ∷ []) [] good-IsGood refl

abbrev refusing : Answers
refusing = record good { registers_buffers = λ r. false }

connect_retry_example :
    (d : Client) × (e : Client) × (connect refusing initial ≡ some (d, false))
    × (d.ring ≡ live)
    × (connect_all (good ∷ refusing ∷ good ∷ []) d ≡ some (e, false))
connect_retry_example =
    connect_retry refusing (good ∷ refusing ∷ good ∷ []) initial refl refl refl refl refl refl
      (refl, (refl, (refl, tt)))

reads_registered :
    request_read files true 7 accepted [] busy
    ≡ some (busy, some (read_fixed (pos 0) true 5 131067 7))
unfolding request_read read_sqe
reads_registered = refl
