-- ===== src/Sockets/Closing.antt =====
-- Sockets that are bound, connected and listened on, and then destroyed.
use cpp_interface.Prelude.{
  ℕ, ◌≡◌, refl, ap, ◌∙◌, sym, Bool, true, false, Option, none, some, List, [], ◌∷◌, ◌==◌,
  if◌then◌else◌, ◌>>=◌, ℤ, is_zero, All, Bool-cases, inl, inr, arith,
}
use cpp_interface.SockAddr.{SockAddr, inet, inet6, unspecified, port, addr_size}
use cpp_interface.SockAddr.Fields.{is_supported}
use cpp_interface.Sockets.{
  Kernel, Socket, sys_bind, sys_connect, sys_listen, sys_getsockname, sys_close, report, create,
  close, bind, name_bound, connect, listen, unconnected, is_invalid, sys_socket, einprogress,
  no_name,
}

-- The operations that change a socket.
pub data Op : Type 0 where
  op_bind : (addr : SockAddr) → Op
  op_connect : (addr : SockAddr) → Op
  op_listen : (backlog : ℤ) → Op

-- The address of the operation has one of the two families.
abbrev pub IsSupported : Op → Type 0
IsSupported (op_bind addr) = is_supported addr ≡ true
IsSupported (op_connect addr) = is_supported addr ≡ true
IsSupported (op_listen backlog) = Unit

-- The socket has a name, and if it is connected its peer has one.
abbrev pub IsNamed : Socket → Type 0
IsNamed s =
    (is_supported s.sock_name ≡ true) × (s.connected ≡ true → is_supported s.peer_name ≡ true)

port-is_supported : (a : SockAddr) → is_supported a ≡ true → (p : ℕ) × (port a ≡ some p)
unfolding port
port-is_supported (inet p a z) ok = (_, refl)
port-is_supported (inet6 p f a s) ok = (_, refl)
port-is_supported (unspecified f) ok = absurd (ground arith)

pub addr_size-is_supported :
    (a : SockAddr) → is_supported a ≡ true → (n : ℕ) × (addr_size a ≡ some n)
unfolding addr_size
addr_size-is_supported (inet p a z) ok = (_, refl)
addr_size-is_supported (inet6 p f a s) ok = (_, refl)
addr_size-is_supported (unspecified f) ok = absurd (ground arith)

pub report-is_supported :
    (b : Bool) (a : SockAddr) → (b ≡ true → is_supported a ≡ true) → report b a ≡ some b
report-is_supported false a ok = refl
report-is_supported true a ok = let (p, e) = port-is_supported a (ok refl) in rw e refl

module _ {K : Type 0} (kernel : Kernel K) where
  -- The name that the kernel gives a socket has one of the two families.
  abbrev pub NamesSockets : Type 0
  NamesSockets =
      (fd : ℤ) (k : K)
      → is_zero (kernel k (sys_getsockname fd)).0.rc ≡ true
      → is_supported (kernel k (sys_getsockname fd)).0.addr ≡ true

  unfoldable pub perform : Op → Socket → K → Option (Socket × K)
  perform (op_bind addr) s k = bind kernel s addr k >>= λ (b, t, k'). some (t, k')
  perform (op_connect addr) s k = connect kernel s addr k >>= λ (b, t, k'). some (t, k')
  perform (op_listen backlog) s k = let (b, t, k') = listen kernel s backlog k in some (t, k')

  unfoldable pub perform_all : List Op → Socket → K → Option (Socket × K)
  perform_all [] s k = some (s, k)
  perform_all (o ∷ os) s k = perform o s k >>= λ (t, k'). perform_all os t k'

  -- The name that is kept, whether or not the kernel has given another.
  name-is_supported :
      (b : Bool) (a given : SockAddr)
      → (b ≡ true → is_supported given ≡ true)
      → is_supported a ≡ true
      → is_supported (if b then given else a) ≡ true
  name-is_supported true a given ok kept = ok refl
  name-is_supported false a given ok kept = kept

  abbrev IsNamedAfter : Option (Bool × Socket × K) → Type 0
  IsNamedAfter o = (b : Bool) × (t : Socket) × (k' : K) × ((o ≡ some (b, t, k')) × IsNamed t)

  name_bound-IsNamed :
      (s : Socket) (addr : SockAddr) (k : K)
      → NamesSockets
      → IsNamed s
      → is_supported addr ≡ true
      → IsNamedAfter (name_bound kernel s addr k)
  unfolding name_bound
  name_bound-IsNamed s addr k names (own, peer) ok =
      let (p, e) = port-is_supported addr ok in
      elim (Bool-cases (p == 0)) [
        | inl any ↦ (
          true,
          record s {
            sock_name =
                if is_zero (kernel k (sys_getsockname s.fd)).0.rc
                then (kernel k (sys_getsockname s.fd)).0.addr
                else s.sock_name;
          },
          (kernel k (sys_getsockname s.fd)).1,
          (
            rw (e, any) refl,
            (
              name-is_supported (is_zero (kernel k (sys_getsockname s.fd)).0.rc) s.sock_name
                  (kernel k (sys_getsockname s.fd)).0.addr (names s.fd k) own,
              peer,
            ),
          ),
        )
        | inr given ↦ (true, record s { sock_name = addr }, k, (rw (e, given) refl, (ok, peer)))
      ]

  bind-IsNamed :
      (s : Socket) (addr : SockAddr) (k : K)
      → NamesSockets
      → IsNamed s
      → is_supported addr ≡ true
      → IsNamedAfter (bind kernel s addr k)
  unfolding bind
  bind-IsNamed s addr k names named ok =
      let (n, e) = addr_size-is_supported addr ok in
      let (a, k') = kernel k (sys_bind s.fd addr n) in
      elim (Bool-cases (is_zero a.rc)) [
        | inl bound ↦
            let (b, t, k'', (done, named')) = name_bound-IsNamed s addr k' names named ok in
            (b, t, k'', (rw (e, bound) done, named'))
        | inr failed ↦ (false, s, k', (rw (e, failed) refl, named))
      ]

  connect-IsNamed :
      (s : Socket) (addr : SockAddr) (k : K)
      → IsNamed s
      → is_supported addr ≡ true
      → IsNamedAfter (connect kernel s addr k)
  unfolding connect
  connect-IsNamed s addr k named ok =
      let (n, e) = addr_size-is_supported addr ok in
      let (a, k') = kernel k (sys_connect s.fd addr n) in
      let reported = report-is_supported true addr (λ yes. ok) in
      let begun : Socket = record s { peer_name = addr; connected = true } in
      elim (Bool-cases (is_zero a.rc)) [
        | inl done ↦ (true, begun, k', (rw (e, done, reported) refl, (named.0, λ yes. ok)))
        | inr failed ↦ elim (Bool-cases (a.errno == einprogress)) [
          | inl later ↦
              (false, begun, k', (rw (e, failed, later, reported) refl, (named.0, λ yes. ok)))
          | inr never ↦ (false, s, k', (rw (e, failed, never) refl, named))
        ]
      ]

  listen-IsNamed :
      (s : Socket) (backlog : ℤ) (k : K) → IsNamed s → IsNamed (listen kernel s backlog k).1
  unfolding listen
  listen-IsNamed s backlog k named =
      elim (Bool-cases (is_zero (kernel k (sys_listen s.fd backlog)).0.rc)) [
        | inl done ↦ rw done named
        | inr failed ↦ rw failed named
      ]

  perform-IsNamed :
      (o : Op) (s : Socket) (k : K)
      → NamesSockets
      → IsNamed s
      → IsSupported o
      → (t : Socket) × (k' : K) × ((perform o s k ≡ some (t, k')) × IsNamed t)
  unfolding perform
  perform-IsNamed (op_bind addr) s k names named ok =
      let (b, t, k', (done, named')) = bind-IsNamed s addr k names named ok in
      (t, k', (rw done refl, named'))
  perform-IsNamed (op_connect addr) s k names named ok =
      let (b, t, k', (done, named')) = connect-IsNamed s addr k named ok in
      (t, k', (rw done refl, named'))
  perform-IsNamed (op_listen backlog) s k names named ok =
      let (b, t, k') = listen kernel s backlog k in
      (t, k', (refl, listen-IsNamed s backlog k named))

  close-IsNamed : (s : Socket) (k : K) → IsNamed s → (k' : K) × (close kernel s k ≡ some k')
  unfolding close
  close-IsNamed s k (own, peer) = (
    (kernel k (sys_close s.fd)).1,
    rw
        (
          report-is_supported s.listening s.sock_name (λ yes. own),
          report-is_supported s.connected s.peer_name peer,
        )
        refl,
  )

  -- A socket that has a name can be bound, connected and listened on in any order, with addresses of
  -- the two families and a kernel that names sockets by such addresses, whichever calls fail: nothing
  -- aborts, the socket keeps a name, and it can be destroyed.
  pub perform_all-close :
      (os : List Op) (s : Socket) (k : K)
      → NamesSockets
      → IsNamed s
      → All IsSupported os
      → (t : Socket) × (k' : K) × ((perform_all os s k ≡ some (t, k'))
          × IsNamed t
          × (k'' : K) × (close kernel t k' ≡ some k''))
  unfolding perform_all
  perform_all-close [] s k names named ok =
      let (k', closed) = close-IsNamed s k named in (s, k, (refl, named, k', closed))
  perform_all-close (o ∷ os) s k names named ok =
      let (t, k', (done, named')) = perform-IsNamed o s k names named ok.0 in
      let (u, k'', (done', named'', end, closed)) = perform_all-close os t k' names named' ok.1 in
      (u, k'', (rw done done', named'', end, closed))

  made-eq : (b : Bool) (u s : Socket) → (if b then none else some u) ≡ some s → u ≡ s
  made-eq true u s e = absurd (ground arith)
  made-eq false u s e = ap (λ o. elim o [ none ↦ u | some x ↦ x ]) e

  -- A name that is of neither family is asked for by the destructor of a socket that listens.
  close-listening :
      (s : Socket) (k : K) → s.listening ≡ true → s.sock_name ≡ no_name → close kernel s k ≡ none
  unfolding close port
  close-listening s k listens name = rw (listens, name) refl

  listened :
      (s : Socket) (backlog : ℤ) (k : K)
      → (listen kernel s backlog k).0 ≡ true
      → (listen kernel s backlog k).1 ≡ record s { listening = true }
  unfolding listen
  listened s backlog k ok = elim (Bool-cases (is_zero (kernel k (sys_listen s.fd backlog)).0.rc)) [
    | inl done ↦ rw done refl
    | inr failed ↦ absurd (ground (arith, failed, ok))
  ]

  -- A socket that is created and listened on without a bind that succeeds has no name, and its
  -- destructor aborts.
  pub close-listen-create :
      (domain type : ℕ) (backlog : ℤ) (s : Socket) (k k' : K)
      → create kernel domain type k ≡ (some s, k')
      → (listen kernel s backlog k').0 ≡ true
      → close kernel (listen kernel s backlog k').1 (listen kernel s backlog k').2 ≡ none
  unfolding create unconnected
  close-listen-create domain type backlog s k k' made listens =
      let name : s.sock_name ≡ no_name = sym (
        ap (λ u. u.sock_name)
          (made-eq (is_invalid (kernel k (sys_socket domain type)).0.rc)
            (unconnected (kernel k (sys_socket domain type)).0.rc) s (ap (λ r. r.0) made))) in
      let same = listened s backlog k' listens in
      close-listening (listen kernel s backlog k').1 (listen kernel s backlog k').2
        (ap (λ u. u.listening) same) (ap (λ u. u.sock_name) same ∙ name)
