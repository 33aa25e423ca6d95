-- ===== src/Client/OpeningTests.antt =====
-- Connection attempts on a kernel whose state is the list of open sockets, and the buffers of a
-- client that comes to its pools at index 5.
use cpp_interface.Prelude.{
  ℕ, ◌≡◌, refl, arith, Bool, true, false, Option, some, List, [], ◌∷◌, ℤ, pos, negsuc,
}
use cpp_interface.SockAddr.{
  SockAddr, inet, unspecified, htons, port, domain, addr_size, resolve, first_supported,
}
use cpp_interface.Sockets.{
  Kernel, Answer, Socket, sys_socket, sys_close, sys_connect, sys_accept, no_name, unconnected,
  create, connect, set_no_delay, set_recv_buffer_size, set_send_buffer_size,
}
use cpp_interface.Client.Opening.{
  Leaves, connect_or_give_up, set_up, open_socket, open_socket-Leaves,
}
use cpp_interface.Sockets.Descriptors.{TracksSockets, without}
use cpp_interface.Client.Buffers.{
  Pools, register_buffers, by_turns, spread, register_buffers-by_turns,
}

abbrev returns : ℤ → Answer
returns rc = record { rc = rc; errno = 111; addr = no_name; bytes = []; revents = [] }

-- The kernel accepts or refuses every connection. Its sockets are called 5, and no client comes to it.
abbrev kernel : Bool → Kernel (List ℤ)
kernel accepts xs (sys_socket domain type) = (returns (pos 5), pos 5 ∷ xs)
kernel accepts xs (sys_close fd) = (returns (pos 0), without fd xs)
kernel accepts xs (sys_accept fd) = (returns (negsuc 0), xs)
kernel true xs c = (returns (pos 0), xs)
kernel false xs (sys_connect fd a size) = (returns (negsuc 0), xs)
kernel false xs c = (returns (pos 0), xs)

abbrev server : SockAddr
server = inet (htons 23234) (127 ∷ 0 ∷ 0 ∷ 1 ∷ []) []

abbrev found : Option (List SockAddr)
found = some (unspecified 1 ∷ server ∷ [])

opens :
    open_socket (kernel true) found (pos 3 ∷ [])
    ≡ some (
      some (record (unconnected (pos 5)) { peer_name = server; connected = true }),
      pos 5 ∷ pos 3 ∷ [],
    )
unfolding open_socket resolve first_supported domain create set_up set_no_delay set_recv_buffer_size
    set_send_buffer_size connect_or_give_up connect addr_size port unconnected
opens = refl

kernel-TracksSockets : TracksSockets (kernel false) (λ xs. xs)
kernel-TracksSockets = record {
  by_socket = λ d t k. refl;
  by_accept = λ fd k. refl;
  fresh = λ fd k made. absurd (ground (arith, made));
  by_close = λ fd k. refl;
  by_setsockopt = λ fd o k. refl;
  by_connect = λ fd a n k. refl;
  by_bind = λ fd a n k. refl;
  by_listen = λ fd n k. refl;
}

open_socket-Leaves_example :
    (r : Option Socket) × (k : List ℤ) × ((open_socket (kernel false) found (pos 3 ∷ [])
        ≡ some (r, k))
      × Leaves (kernel false) (λ xs. xs) (pos 3 ∷ []) r k)
open_socket-Leaves_example =
    open_socket-Leaves (kernel false) (λ xs. xs) found (pos 3 ∷ []) kernel-TracksSockets

register_buffers-by_turns_example :
    (ps : Pools ℕ) × ((register_buffers 0 (λ x. x) 5 ≡ some ps)
      × (by_turns 5 ps.buffer_pools ≡ spread))
register_buffers-by_turns_example = register_buffers-by_turns 0 (λ x. x) 5
