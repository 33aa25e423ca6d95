-- ===== src/Client/Session.antt =====
-- library/Client.cpp, the life of a connection: `connect`, `terminate`, `join`, and the service
-- thread's dispatch of completions, as on Linux. What io_uring and the sockets answer is an argument.
pub mod Terminate
pub mod Reconnect
use cpp_interface.Prelude.{
  ℕ, zero, suc, Bool, true, false, not, Option, none, some, List, [], ◌∷◌, if◌then◌else◌, ◌==◌,
  ◌&&◌, ◌||◌, ◌>>=◌,
}
use cpp_interface.Buffer.{Buffer}
use cpp_interface.Client.Reader.{Reader}
use cpp_interface.Client.Writer.{Writer}

-- `ring` with `ringDestructor`: no ring, a ring in use, or one that was closed while the destructor
-- still holds it.
pub data RingState : Type 0 where
  absent live exited : RingState

pub record Client : Type 0 where
  pub reader : Reader
  pub writer : Writer
  pub quit : Bool
  pub running : Bool
  pub socket : Bool
  pub ring : RingState
  pub quit_events : ℕ

unfoldable pub has_ring : RingState → Bool
has_ring absent = false
has_ring live = true
has_ring exited = true

-- `ringDestructor = {&ring, &io_uring_queue_exit}` after `io_uring_queue_init (…, &ring, …)`: a
-- destructor that is held already runs, on the ring that was just set up at the same address.
unfoldable pub assign_ring : RingState → RingState
assign_ring absent = live
assign_ring live = exited
assign_ring exited = exited

-- `pushEvent (COMPLETION_KEY_QUIT)`, with io_uring's answers in order. When it does not take the
-- event, `pushEvent` calls `terminate`, which stores the same flags and comes back here. `none` is a
-- list of answers that ends first.
unfoldable pub push_quit : List Bool → Client → Option Client
push_quit [] c = none
push_quit (true ∷ answers) c = some (record c { quit_events = suc c.quit_events })
push_quit (false ∷ answers) c = push_quit answers c

abbrev pub stopped : Client → Client
stopped c = record c { writer = record c.writer { writer_idle = true }; quit = true }

-- `ClientImpl::terminate`
unfoldable pub terminate : List Bool → Client → Option Client
unfolding push_quit
terminate answers c = if has_ring c.ring then push_quit answers (stopped c) else some (stopped c)

-- `ClientImpl::join`, once the service thread has ended.
unfoldable pub join : Client → Client
join c = record c {
  writer = record c.writer { output_queue = [] };
  quit = false;
  running = false;
  socket = false;
  ring = absent;
}

-- What the system answers while a client connects; buffers are registered, and the first read is
-- submitted, on the ring as it is then.
pub record Answers : Type 0 where
  pub resolves : Bool
  pub connects : Bool
  pub sets_up_ring : Bool
  pub registers_buffers : RingState → Bool
  pub reads : RingState → Bool
  pub quits : List Bool
  pub read_buffer : Buffer

-- The socket and the service thread, then the first read; `connect` goes on also when that fails.
unfoldable pub start_reading : Answers → Client → Option (Client × Bool)
start_reading env c =
    let ready : Client = record c {
      socket = true;
      reader = record c.reader { in_buffer = env.read_buffer };
    } in
    if env.reads c.ring
    then some (record ready { running = true }, true)
    else (terminate env.quits ready >>= λ d. some (record d { running = true }, true))

-- `Client::connect`: the new state and the value returned.
unfoldable pub connect : Answers → Client → Option (Client × Bool)
connect env c =
    if c.running
    then some (c, false)
    else if not (env.resolves && env.connects && env.sets_up_ring)
    then some (c, false)
    else let opened : Client = record c { ring = assign_ring c.ring } in
      if not (env.registers_buffers opened.ring)
      then some (opened, false)
      else start_reading env opened

-- `Client::connected`
unfoldable pub connected : Client → Bool
connected c = c.running

-- The members whose addresses tell completions apart.
pub data Overlapped : Type 0 where
  in_overlapped out_overlapped write_queue_overlapped bot_wakeup_overlapped quit_overlapped :
      Overlapped

-- What those members hold: `new ClientImpl{}` sets them to 0, and nothing assigns them.
unfoldable pub key_of : Overlapped → ℕ
key_of o = 0

abbrev pub completion_key_socket : ℕ
completion_key_socket = 0

abbrev pub completion_key_write_queue : ℕ
completion_key_write_queue = 1

abbrev pub completion_key_quit : ℕ
completion_key_quit = 2

-- What `io_uring_wait_cqe` comes back with. `completed none n` has no user data; `fault` is a
-- negative result other than `-ECANCELED`.
pub data Cqe : Type 0 where
  interrupted wait_failed canceled : Cqe
  fault : Option Overlapped → Cqe
  completed : Option Overlapped → ℕ → Cqe

-- What the service thread does with it: the next round, one of the handlers, or the end of the loop.
pub data Action : Type 0 where
  next_round end_loop return : Action
  read : ℕ → Action
  write : ℕ → Action
  write_queued : Action

unfoldable pub dispatch_socket : Overlapped → ℕ → Action
dispatch_socket in_overlapped count = read count
dispatch_socket out_overlapped count = write count
dispatch_socket write_queue_overlapped count = next_round
dispatch_socket bot_wakeup_overlapped count = next_round
dispatch_socket quit_overlapped count = next_round

unfoldable pub dispatch_key : Overlapped → ℕ → Action
unfolding key_of dispatch_socket
dispatch_key o count =
    if key_of o == completion_key_socket
    then dispatch_socket o count
    else if key_of o == completion_key_write_queue
    then write_queued
    else if key_of o == completion_key_quit
    then return
    else next_round

-- The body of the loop in `Client::serviceThread`; without user data an `assert` fails first.
unfoldable pub dispatch : Cqe → Option Action
unfolding dispatch_key
dispatch interrupted = some next_round
dispatch wait_failed = some end_loop
dispatch canceled = some next_round
dispatch (fault none) = none
dispatch (fault (some o)) = some end_loop
dispatch (completed none count) = none
dispatch (completed (some o) count) = some (dispatch_key o count)

-- `Client::serviceThread`, over the completions in order. The result says whether the thread has
-- ended; `handle` is what `handleRead`, `handleWrite` and `requestWrite` do to the client.
module _ (handle : Action → Client → Option Client) (quits : List Bool) where
  unfoldable pub end_service : Client → Option (Client × Bool)
  end_service c = terminate quits c >>= λ d. some (d, true)

  unfoldable pub act : (Client → Option (Client × Bool)) → Action → Client → Option (Client × Bool)
  unfolding end_service
  act again next_round c = again c
  act again end_loop c = end_service c
  act again return c = end_service c
  act again (read count) c = handle (read count) c >>= again
  act again (write count) c = handle (write count) c >>= again
  act again write_queued c = handle write_queued c >>= again

  unfoldable pub service_thread : List Cqe → Client → Option (Client × Bool)
  unfolding act
  service_thread [] c = if c.quit then end_service c else some (c, false)
  service_thread (q ∷ queue) c =
      if c.quit then end_service c else (dispatch q >>= λ a. act (service_thread queue) a c)
