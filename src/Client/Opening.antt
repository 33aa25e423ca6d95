-- ===== src/Client/Opening.antt =====
-- library/Client.cpp, `Client::connect`: the socket that it makes, sets up and connects. Each return
-- on a failure destroys the socket.
use cpp_interface.Prelude.{
  ℕ, ◌≡◌, refl, ap, ◌∙◌, ◌+◌, ◌*◌, Bool, true, false, not, Option, none, some, List, [], ◌∷◌,
  if◌then◌else◌, ◌>>=◌, ◌==◌, ℤ, is_zero, Bool-cases, inl, inr, arith,
}
use cpp_interface.SockAddr.{SockAddr, inet, inet6, unspecified, domain, resolve, first_supported}
use cpp_interface.SockAddr.Fields.{is_supported}
use cpp_interface.Sockets.{
  Kernel, Socket, Setting, sys_socket, sys_close, sys_connect, no_name, is_invalid, einprogress,
  unconnected, create, close, connect, set_option, set_no_delay, set_recv_buffer_size,
  set_send_buffer_size,
}
use cpp_interface.Sockets.Descriptors.{TracksSockets, without, without-own}
use cpp_interface.Sockets.Closing.{report-is_supported, addr_size-is_supported}

abbrev pub socket_buffer_size : ℕ
socket_buffer_size = 4 * (65535 + 1)

abbrev pub sock_stream : ℕ
sock_stream = 1

supported_first :
    (infos : List SockAddr) (out : SockAddr)
    → (first_supported infos out).0 ≡ true
    → is_supported (first_supported infos out).1 ≡ true
unfolding first_supported
supported_first [] out h = absurd (ground (arith, h))
supported_first (inet p a z ∷ infos) out h = refl
supported_first (inet6 p f a s ∷ infos) out h = refl
supported_first (unspecified f ∷ infos) out h = supported_first infos out h

domain-is_supported : (a : SockAddr) → is_supported a ≡ true → (d : ℕ) × (domain a ≡ some d)
unfolding domain
domain-is_supported (inet p a z) ok = (_, refl)
domain-is_supported (inet6 p f a s) ok = (_, refl)
domain-is_supported (unspecified f) ok = absurd (ground arith)

module _ {K : Type 0} (kernel : Kernel K) where
  -- `return false` while the socket is held.
  unfoldable pub give_up : Socket → K → Option (Option Socket × K)
  give_up s k = close kernel s k >>= λ k'. some (none, k')

  unfoldable pub connect_or_give_up : Socket → SockAddr → K → Option (Option Socket × K)
  unfolding give_up
  connect_or_give_up s addr k =
      connect kernel s addr k >>= λ (ok, t, k'). if ok then some (some t, k') else give_up t k'

  unfoldable pub set_up : Option Socket → SockAddr → K → Option (Option Socket × K)
  set_up none addr k = some (none, k)
  set_up (some s) addr k =
      let (undelayed, k1) = set_no_delay kernel s true k in
      let (received, k2) = set_recv_buffer_size kernel s socket_buffer_size k1 in
      let (sent, k3) = set_send_buffer_size kernel s socket_buffer_size k2 in
      if not undelayed
      then give_up s k1
      else if not received
      then give_up s k2
      else if not sent
      then give_up s k3
      else connect_or_give_up s addr k3

  -- `found` is what `getaddrinfo` finds, `none` if it fails. The result is the socket, if there is
  -- one.
  unfoldable pub open_socket : (found : Option (List SockAddr)) → K → Option (Option Socket × K)
  open_socket found k =
      let (ok, addr) = resolve found no_name in
      if ok
      then (domain addr >>= λ d.
          set_up (create kernel d sock_stream k).0 addr (create kernel d sock_stream k).1)
      else some (none, k)

  -- What a connection attempt leaves open beside the sockets `n`: its result, which is connected to an
  -- address of one of the two families, or nothing.
  abbrev pub Leaves : (K → List ℤ) → List ℤ → Option Socket → K → Type 0
  Leaves open_sockets n none k = open_sockets k ≡ n
  Leaves open_sockets n (some s) k =
      (open_sockets k ≡ s.fd ∷ n) × (s.connected ≡ true) × (is_supported s.peer_name ≡ true)

  abbrev Ends : (K → List ℤ) → List ℤ → Option (Option Socket × K) → Type 0
  Ends open_sockets n o =
      (r : Option Socket) × (k' : K) × ((o ≡ some (r, k')) × Leaves open_sockets n r k')

  give_up-Ends :
      (open_sockets : K → List ℤ) (n : List ℤ) (s : Socket) (k : K)
      → TracksSockets kernel open_sockets
      → open_sockets k ≡ s.fd ∷ n
      → s.listening ≡ false
      → (s.connected ≡ true → is_supported s.peer_name ≡ true)
      → Ends open_sockets n (give_up s k)
  unfolding give_up close
  give_up-Ends open_sockets n s k counts held quiet peer = (
    none,
    (kernel k (sys_close s.fd)).1,
    (
      rw (quiet, report-is_supported s.connected s.peer_name peer) refl,
      counts.by_close s.fd k ∙ ap (without s.fd) held ∙ without-own s.fd n,
    ),
  )

  connect_or_give_up-Ends :
      (open_sockets : K → List ℤ) (n : List ℤ) (s : Socket) (addr : SockAddr) (k : K)
      → TracksSockets kernel open_sockets
      → open_sockets k ≡ s.fd ∷ n
      → s.listening ≡ false
      → s.connected ≡ false
      → is_supported addr ≡ true
      → Ends open_sockets n (connect_or_give_up s addr k)
  unfolding connect_or_give_up connect
  connect_or_give_up-Ends open_sockets n s addr k counts held quiet fresh ok =
      let (size, e) = addr_size-is_supported addr ok in
      let (a, k') = kernel k (sys_connect s.fd addr size) in
      let reported = report-is_supported true addr (λ yes. ok) in
      let held' = counts.by_connect s.fd addr size k ∙ held in
      elim (Bool-cases (is_zero a.rc)) [
        | inl done ↦ (
          some (record s { peer_name = addr; connected = true }),
          k',
          (rw (e, done, reported) refl, (held', refl, ok)),
        )
        | inr failed ↦ elim (Bool-cases (a.errno == einprogress)) [
          | inl later ↦
              let (r, k'', (given, left)) =
                give_up-Ends open_sockets n (record s { peer_name = addr; connected = true }) k'
                  counts held' quiet (λ yes. ok) in
              (r, k'', (rw (e, failed, later, reported) given, left))
          | inr never ↦
              let (r, k'', (given, left)) =
                give_up-Ends open_sockets n s k' counts held' quiet
                  (λ yes. absurd (ground (arith, yes, fresh))) in
              (r, k'', (rw (e, failed, never) given, left))
        ]
      ]

  set_option-open_sockets :
      (open_sockets : K → List ℤ) (s : Socket) (o : Setting) (k : K)
      → TracksSockets kernel open_sockets
      → open_sockets (set_option kernel s o k).1 ≡ open_sockets k
  set_option-open_sockets open_sockets s o k counts = counts.by_setsockopt s.fd o k

  set_up-Ends :
      (open_sockets : K → List ℤ) (n : List ℤ) (s : Socket) (addr : SockAddr) (k : K)
      → TracksSockets kernel open_sockets
      → open_sockets k ≡ s.fd ∷ n
      → s.listening ≡ false
      → s.connected ≡ false
      → is_supported addr ≡ true
      → Ends open_sockets n (set_up (some s) addr k)
  unfolding set_up set_no_delay set_recv_buffer_size set_send_buffer_size
  set_up-Ends open_sockets n s addr k counts held quiet fresh ok =
      let (b1, k1) = set_no_delay kernel s true k in
      let (b2, k2) = set_recv_buffer_size kernel s socket_buffer_size k1 in
      let (b3, k3) = set_send_buffer_size kernel s socket_buffer_size k2 in
      let held1 : open_sockets k1 ≡ s.fd ∷ n = counts.by_setsockopt s.fd _ k ∙ held in
      let held2 : open_sockets k2 ≡ s.fd ∷ n = counts.by_setsockopt s.fd _ k1 ∙ held1 in
      let held3 : open_sockets k3 ≡ s.fd ∷ n = counts.by_setsockopt s.fd _ k2 ∙ held2 in
      let alone : s.connected ≡ true → is_supported s.peer_name ≡ true =
        λ yes. absurd (ground (arith, yes, fresh)) in
      elim (Bool-cases b1) [
        | inr failed ↦ rw failed (give_up-Ends open_sockets n s k1 counts held1 quiet alone)
        | inl done ↦ elim (Bool-cases b2) [
          | inr failed ↦
              rw (done, failed) (give_up-Ends open_sockets n s k2 counts held2 quiet alone)
          | inl done2 ↦ elim (Bool-cases b3) [
            | inr failed ↦
                rw (done, done2, failed) (give_up-Ends open_sockets n s k3 counts held3 quiet alone)
            | inl done3 ↦
                rw (done, done2, done3)
                  (connect_or_give_up-Ends open_sockets n s addr k3 counts held3 quiet fresh ok)
          ]
        ]
      ]

  created-Ends :
      (open_sockets : K → List ℤ) (n : List ℤ) (b : Bool) (fd : ℤ) (addr : SockAddr) (k : K)
      → TracksSockets kernel open_sockets
      → open_sockets k ≡ (if b then n else fd ∷ n)
      → is_supported addr ≡ true
      → Ends open_sockets n (set_up (if b then none else some (unconnected fd)) addr k)
  unfolding set_up unconnected
  created-Ends open_sockets n true fd addr k counts held ok = (none, k, (refl, held))
  created-Ends open_sockets n false fd addr k counts held ok =
      set_up-Ends open_sockets n (unconnected fd) addr k counts held refl refl ok

  -- With any answers of a kernel that tracks its open sockets, an attempt to connect ends without
  -- abort, and leaves beside the sockets that were open either one more, which is its result and is
  -- connected to an address of one of the two families, or, on every failure, none.
  pub open_socket-Leaves :
      (open_sockets : K → List ℤ) (found : Option (List SockAddr)) (k : K)
      → TracksSockets kernel open_sockets
      → (r : Option Socket) × (k' : K) × ((open_socket found k ≡ some (r, k'))
          × Leaves open_sockets (open_sockets k) r k')
  unfolding open_socket resolve create
  open_socket-Leaves open_sockets none k counts = (none, k, (refl, refl))
  open_socket-Leaves open_sockets (some infos) k counts =
      let addr = (first_supported infos no_name).1 in
      elim (Bool-cases (first_supported infos no_name).0) [
        | inr missing ↦ (none, k, (rw missing refl, refl))
        | inl ok ↦
            let usable = supported_first infos no_name ok in
            let (d, e) = domain-is_supported addr usable in
            let (a, k') = kernel k (sys_socket d sock_stream) in
            let (r, k'', (done, left)) =
              created-Ends open_sockets (open_sockets k) (is_invalid a.rc) a.rc addr k' counts
                (counts.by_socket d sock_stream k) usable in
            (r, k'', (rw (ok, e) done, left))
      ]
