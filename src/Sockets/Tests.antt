-- ===== src/Sockets/Tests.antt =====
-- A kernel that keeps the calls it gets, the last first, and gives every socket the number 5.
use cpp_interface.Prelude.{
  ℕ, ◌≡◌, refl, ◌↔◌, ◌<◌, ◌^◌, true, none, some, List, [], ◌∷◌, ◌>>=◌, ℤ, pos, negsuc,
}
use cpp_interface.SockAddr.{SockAddr, inet, htons, port, addr_size}
use cpp_interface.Sockets.{
  Kernel, Call, Answer, Socket, PollInfo, so_linger, so_rcvbuf, so_sndbuf, sys_socket,
  sys_get_flags, sys_set_flags, sys_setsockopt, sys_poll, sys_connect, sys_accept, set_option,
  unconnected, connection, create, close, accept, bind, name_bound, connect, listen, set_linger,
  set_recv_buffer_size, set_send_buffer_size, set_non_blocking, poll, poll_fds, no_name,
}
use cpp_interface.Sockets.Closing.{
  Op, op_bind, op_connect, op_listen, IsNamed, NamesSockets, perform, perform_all,
  perform_all-close, close-listen-create,
}
use cpp_interface.Sockets.Settings.{set_buffer_size_lem}

abbrev home : ℕ → SockAddr
home p = inet (htons p) (127 ∷ 0 ∷ 0 ∷ 1 ∷ []) []

-- A connect is not finished at once; the flags are 3.
abbrev answer_to : Call → Answer
answer_to (sys_socket domain type) = record {
  rc = pos 5;
  errno = 0;
  addr = no_name;
  bytes = [];
  revents = [];
}
answer_to (sys_accept fd) = record {
  rc = pos 6;
  errno = 0;
  addr = home 999;
  bytes = [];
  revents = [];
}
answer_to (sys_connect fd a size) = record {
  rc = negsuc 0;
  errno = 115;
  addr = no_name;
  bytes = [];
  revents = [];
}
answer_to (sys_get_flags fd) = record {
  rc = pos 3;
  errno = 0;
  addr = no_name;
  bytes = [];
  revents = [];
}
answer_to (sys_poll fds timeout) = record {
  rc = pos 1;
  errno = 0;
  addr = no_name;
  bytes = [];
  revents = pos 1 ∷ [];
}
answer_to _ = record { rc = pos 0; errno = 0; addr = home 4000; bytes = []; revents = [] }

abbrev recorder : Kernel (List Call)
recorder calls c = (answer_to c, c ∷ calls)

abbrev named : Socket
named = connection (pos 6) (home 80) (home 999)

abbrev plan : List Op
plan = op_bind (home 0) ∷ op_listen (pos 1) ∷ op_connect (home 81) ∷ []

-- The kernel gives the port, and a connection that is under way counts as one.
plan_run :
    (perform_all recorder plan (unconnected (pos 5)) [] >>= λ (s, k). some s)
    ≡ some (record {
      sock_name = home 4000;
      peer_name = home 81;
      fd = pos 5;
      listening = true;
      connected = true;
    })
unfolding perform_all perform bind name_bound connect listen port addr_size unconnected
plan_run = refl

accepted :
    accept recorder named []
    ≡ some (some (connection (pos 6) (home 80) (home 999)), sys_accept (pos 6) ∷ [])
unfolding accept port connection
accepted = refl

flags_set :
    (set_non_blocking recorder named true []).1
    ≡ sys_set_flags (pos 6) (pos 2051) ∷ sys_get_flags (pos 6) ∷ []
unfolding set_non_blocking connection
flags_set = refl

recorder-NamesSockets : NamesSockets recorder
recorder-NamesSockets fd k h = refl

perform_all-close_example :
    (t : Socket) × (k : List Call) × ((perform_all recorder plan named [] ≡ some (t, k))
      × IsNamed t
      × (k' : List Call) × (close recorder t k ≡ some k'))
unfolding connection
perform_all-close_example =
    perform_all-close recorder plan named [] recorder-NamesSockets (refl, λ c. refl)
      (refl, (tt, (refl, tt)))

close-listen-create_example :
    close recorder
      (listen recorder (unconnected (pos 5)) (pos 1) (sys_socket 2 1 ∷ [])).1
      (listen recorder (unconnected (pos 5)) (pos 1) (sys_socket 2 1 ∷ [])).2
    ≡ none
unfolding create listen
close-listen-create_example =
    close-listen-create recorder 2 1 (pos 1) (unconnected (pos 5)) [] (sys_socket 2 1 ∷ []) refl
      refl

set_buffer_size_lem_example :
    (v : ℤ) × ((set_recv_buffer_size recorder named 4294967296 []
        ≡ set_option recorder named (so_rcvbuf v) [])
      × (set_send_buffer_size recorder named 4294967296 []
          ≡ set_option recorder named (so_sndbuf v) [])
      × ((v ≡ pos 4294967296) ↔ (4294967296 < 2 ^ 31)))
set_buffer_size_lem_example = set_buffer_size_lem recorder named 4294967296 []

lingers :
    set_linger recorder named true (pos 30) []
    ≡ (true, sys_setsockopt (pos 6) (so_linger true (pos 30)) ∷ [])
unfolding set_linger connection
lingers = refl

abbrev polled : PollInfo
polled = record { socket = named; events = pos 1; revents = pos 0 }

polls_once : poll recorder (polled ∷ []) (pos 100) [] ≡ (
  pos 1,
  record polled { revents = pos 1 } ∷ [],
  sys_poll (poll_fds (polled ∷ [])) (pos 100) ∷ [],
)
unfolding poll
polls_once = refl
