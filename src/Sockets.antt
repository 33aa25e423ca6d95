-- ===== src/Sockets.antt =====
-- library/Socket.cpp: sockets. The system calls are those of a kernel that is a parameter: it
-- answers a call and goes to another state. A result of `none` is `std::abort` or a failed
-- assertion. The messages that are logged are left out, with the port that they ask for kept.
pub mod Closing
pub mod Settings
pub mod Descriptors
mod Tests
use cpp_interface.Prelude.{
  ℕ, ◌+◌, ◌-◌, ◌/◌, ◌%◌, Bool, true, false, Option, none, some, List, [], ◌∷◌, ◌==◌, ltb, not,
  if◌then◌else◌, ◌>>=◌, map, is_empty, ℤ, pos, negsuc, is_zero, is_negative, bits32, of_bits32,
  to_int, to_short, length,
}
use cpp_interface.SockAddr.{SockAddr, inet, inet6, unspecified, port, addr_size}

-- What `setsockopt` is asked for.
pub data Setting : Type 0 where
  so_linger : (onoff : Bool) → (linger : ℤ) → Setting
  tcp_nodelay so_reuseaddr so_reuseport so_rcvbuf so_sndbuf : (value : ℤ) → Setting
  ip_add_membership ip_drop_membership : (multiaddr interface : List ℕ) → Setting

-- `pollfd`
pub record PollFd : Type 0 where
  pub fd : ℤ
  pub events : ℤ

pub data Call : Type 0 where
  sys_socket : (domain type : ℕ) → Call
  sys_bind sys_connect : (fd : ℤ) → SockAddr → (size : ℕ) → Call
  sys_getsockname sys_accept sys_sockatmark sys_get_flags sys_close : (fd : ℤ) → Call
  sys_listen : (fd backlog : ℤ) → Call
  sys_shutdown : (fd how : ℤ) → Call
  sys_setsockopt : (fd : ℤ) → Setting → Call
  sys_set_flags : (fd flags : ℤ) → Call
  sys_recv : (fd : ℤ) → (size : ℕ) → (oob : Bool) → Call
  sys_recvfrom : (fd : ℤ) → (size : ℕ) → Call
  sys_send : (fd : ℤ) → List ℕ → Call
  sys_sendto : (fd : ℤ) → List ℕ → SockAddr → (size : ℕ) → Call
  sys_poll : List PollFd → (timeout : ℤ) → Call

-- What a call returns, the number of its error, and what it has written to its arguments.
pub record Answer : Type 0 where
  pub rc : ℤ
  pub errno : ℕ
  pub addr : SockAddr
  pub bytes : List ℕ
  pub revents : List ℤ

abbrev pub Kernel : Type 0 → Type 0
Kernel K = K → Call → Answer × K

pub record Socket : Type 0 where
  pub sock_name : SockAddr
  pub peer_name : SockAddr
  pub fd : ℤ
  pub listening : Bool
  pub connected : Bool

-- `Socket::PollInfo`
pub record PollInfo : Type 0 where
  pub socket : Socket
  pub events : ℤ
  pub revents : ℤ

abbrev pub einprogress : ℕ
einprogress = 115

-- `SockAddr ()`
abbrev pub no_name : SockAddr
no_name = unspecified 0

-- `Socket (SOCKET)` and `Socket (SOCKET, SockAddr, SockAddr)`
unfoldable pub unconnected : ℤ → Socket
unconnected fd = record {
  sock_name = no_name;
  peer_name = no_name;
  fd = fd;
  listening = false;
  connected = false;
}

unfoldable pub connection : ℤ → (sock_name peer_name : SockAddr) → Socket
connection fd sock_name peer_name = record {
  sock_name = sock_name;
  peer_name = peer_name;
  fd = fd;
  listening = false;
  connected = true;
}

abbrev pub is_invalid : ℤ → Bool
is_invalid (pos n) = false
is_invalid (negsuc n) = n == 0

-- What is logged of an address asks for its name and port.
abbrev pub report : Bool → SockAddr → Option Bool
report true a = port a >>= λ p. some true
report false a = some false

abbrev pub of_bool : Bool → ℤ
of_bool true = pos 1
of_bool false = pos 0

-- `flags |= O_NONBLOCK` and `flags &= ~O_NONBLOCK`, on the 32 bits of `flags`; the flag is bit 11.
abbrev pub o_nonblock : ℕ
o_nonblock = 2048

abbrev pub with_flag : ℕ → ℕ
with_flag b = if b / o_nonblock % 2 == 1 then b else b + o_nonblock

abbrev pub without_flag : ℕ → ℕ
without_flag b = if b / o_nonblock % 2 == 1 then b - o_nonblock else b

-- `static_cast<sockaddr_in const &> (addr_).sin_addr`
abbrev pub sin_addr : SockAddr → Option (List ℕ)
sin_addr (inet p a z) = some a
sin_addr (inet6 p f a s) = none
sin_addr (unspecified f) = none

-- The entries that `poll` is given, and what it says of them; one that it says nothing of has 0.
abbrev pub poll_fds : List PollInfo → List PollFd
poll_fds infos = map (λ i. record { fd = i.socket.fd; events = to_short i.events }) infos

abbrev pub copy_revents : List PollInfo → List ℤ → List PollInfo
copy_revents [] rs = []
copy_revents (i ∷ is) [] = record i { revents = pos 0 } ∷ copy_revents is []
copy_revents (i ∷ is) (r ∷ rs) = record i { revents = r } ∷ copy_revents is rs

module _ {K : Type 0} (kernel : Kernel K) where
  -- `Socket::create`
  unfoldable pub create : (domain type : ℕ) → K → Option Socket × K
  create domain type k =
      let (a, k') = kernel k (sys_socket domain type) in
      (if is_invalid a.rc then none else some (unconnected a.rc), k')

  -- `~Socket`
  unfoldable pub close : Socket → K → Option K
  close s k = report s.listening s.sock_name >>= λ stopped.
      report s.connected s.peer_name >>= λ closed. some (kernel k (sys_close s.fd)).1

  unfoldable pub accept : Socket → K → Option (Option Socket × K)
  accept s k =
      let (a, k') = kernel k (sys_accept s.fd) in
      if is_negative a.rc
      then some (none, k')
      else report true a.addr >>= λ accepted. some (some (connection a.rc s.sock_name a.addr), k')

  unfoldable pub at_mark : Socket → K → ℤ × K
  at_mark s k = let (a, k') = kernel k (sys_sockatmark s.fd) in (a.rc, k')

  -- The end of `bind`, when the call has succeeded.
  unfoldable pub name_bound : Socket → SockAddr → K → Option (Bool × Socket × K)
  name_bound s addr k = port addr >>= λ p.
      if p == 0
      then (let (a, k') = kernel k (sys_getsockname s.fd) in
          some (true, record s { sock_name = if is_zero a.rc then a.addr else s.sock_name }, k'))
      else some (true, record s { sock_name = addr }, k)

  unfoldable pub bind : Socket → SockAddr → K → Option (Bool × Socket × K)
  bind s addr k = addr_size addr >>= λ size.
      let (a, k') = kernel k (sys_bind s.fd addr size) in
      if is_zero a.rc then name_bound s addr k' else some (false, s, k')

  unfoldable pub connect : Socket → SockAddr → K → Option (Bool × Socket × K)
  connect s addr k = addr_size addr >>= λ size.
      let (a, k') = kernel k (sys_connect s.fd addr size) in
      let begun : Socket = record s { peer_name = addr; connected = true } in
      if is_zero a.rc
      then (report true addr >>= λ reported. some (true, begun, k'))
      else if a.errno == einprogress
      then (report true addr >>= λ reported. some (false, begun, k'))
      else some (false, s, k')

  unfoldable pub listen : Socket → (backlog : ℤ) → K → Bool × Socket × K
  listen s backlog k =
      let (a, k') = kernel k (sys_listen s.fd backlog) in
      if is_zero a.rc then (true, record s { listening = true }, k') else (false, s, k')

  unfoldable pub shutdown : Socket → (how : ℤ) → K → Bool × K
  shutdown s how k = let (a, k') = kernel k (sys_shutdown s.fd how) in (is_zero a.rc, k')

  abbrev pub set_option : Socket → Setting → K → Bool × K
  set_option s o k = let (a, k') = kernel k (sys_setsockopt s.fd o) in (is_zero a.rc, k')

  -- `setLinger`, with the time in seconds.
  unfoldable pub set_linger : Socket → Bool → ℤ → K → Bool × K
  set_linger s enable (negsuc n) k = (false, k)
  set_linger s enable (pos n) k =
      if ltb 65535 n then (false, k) else set_option s (so_linger enable (to_int (pos n))) k

  unfoldable pub set_non_blocking : Socket → Bool → K → Bool × K
  set_non_blocking s non_blocking k =
      let (a, k') = kernel k (sys_get_flags s.fd) in
      let flags = bits32 a.rc in
      let changed = of_bits32 (if non_blocking then with_flag flags else without_flag flags) in
      if is_invalid a.rc
      then (false, k')
      else (let (b, k'') = kernel k' (sys_set_flags s.fd changed) in (is_zero b.rc, k''))

  unfoldable pub set_no_delay : Socket → Bool → K → Bool × K
  set_no_delay s no_delay = set_option s (tcp_nodelay (of_bool no_delay))

  unfoldable pub set_reuse_address : Socket → Bool → K → Bool × K
  set_reuse_address s reuse = set_option s (so_reuseaddr (of_bool reuse))

  unfoldable pub set_reuse_port : Socket → Bool → K → Bool × K
  set_reuse_port s reuse = set_option s (so_reuseport (of_bool reuse))

  -- `int const size = size_`
  unfoldable pub set_recv_buffer_size : Socket → ℕ → K → Bool × K
  set_recv_buffer_size s size = set_option s (so_rcvbuf (to_int (pos size)))

  unfoldable pub set_send_buffer_size : Socket → ℕ → K → Bool × K
  set_send_buffer_size s size = set_option s (so_sndbuf (to_int (pos size)))

  unfoldable pub join_multicast_group : Socket → (addr iface : SockAddr) → K → Option (Bool × K)
  join_multicast_group s addr iface k = sin_addr addr >>= λ group.
      sin_addr iface >>= λ interface. some (set_option s (ip_add_membership group interface) k)

  unfoldable pub drop_multicast_group : Socket → (addr iface : SockAddr) → K → Option (Bool × K)
  drop_multicast_group s addr iface k = sin_addr addr >>= λ group.
      sin_addr iface >>= λ interface. some (set_option s (ip_drop_membership group interface) k)

  -- `read`: the result, and the bytes that are in the buffer.
  unfoldable pub read : Socket → (size : ℕ) → (oob : Bool) → K → Option (ℤ × List ℕ × K)
  read s size oob k =
      let (a, k') = kernel k (sys_recv s.fd size oob) in
      if size == 0 then none else some (a.rc, a.bytes, k')

  unfoldable pub read_from : Socket → (size : ℕ) → K → Option (ℤ × List ℕ × SockAddr × K)
  read_from s size k =
      let (a, k') = kernel k (sys_recvfrom s.fd size) in
      if size == 0 then none else some (a.rc, a.bytes, a.addr, k')

  unfoldable pub write : Socket → List ℕ → K → Option (ℤ × K)
  write s buffer k =
      let (a, k') = kernel k (sys_send s.fd buffer) in
      if is_empty buffer then none else some (a.rc, k')

  unfoldable pub write_to : Socket → List ℕ → SockAddr → K → Option (ℤ × K)
  write_to s buffer addr k =
      if is_empty buffer
      then none
      else addr_size addr >>= λ size.
          (let (a, k') = kernel k (sys_sendto s.fd buffer addr size) in some (a.rc, k'))

  -- `poll`, with the timeout in milliseconds.
  unfoldable pub poll : List PollInfo → (timeout : ℤ) → K → ℤ × List PollInfo × K
  poll [] timeout k = (pos 0, [], k)
  poll (i ∷ is) timeout k =
      let (a, k') = kernel k (sys_poll (poll_fds (i ∷ is)) (to_int timeout)) in
      if is_negative a.rc then (a.rc, i ∷ is, k') else (a.rc, copy_revents (i ∷ is) a.revents, k')
