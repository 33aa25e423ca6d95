-- ===== src/Simulator/Listening.antt =====
-- benchmark/Simulator.cpp, waitForConnection: a socket that listens is opened, set up, and closed
-- again when one connection has been accepted, or on a failure. `none` is `INVALID_SOCKET`.
use cpp_interface.Prelude.{
  ℕ, ◌≡◌, ap, ◌∙◌, false, Option, none, some, if◌then◌else◌, ℤ, pos, is_zero, Bool-cases, inl, inr,
  replicate, List, ◌∷◌, sym,
}
use cpp_interface.SockAddr.{SockAddr, inet, htons, af_inet}
use cpp_interface.Sockets.Descriptors.{TracksSockets, without, without-own, without-second, is_open}
use cpp_interface.Sockets.{
  Kernel, so_reuseaddr, so_reuseport, tcp_nodelay, Call, sys_socket, sys_close, sys_setsockopt,
  sys_bind, sys_listen, sys_accept, is_invalid,
}

abbrev pub any_address : SockAddr
any_address = inet (htons 23234) (replicate 4 0) (replicate 8 0)

-- `sizeof (sockaddr_in)`
abbrev pub address_size : ℕ
address_size = 16

abbrev pub sock_stream : ℕ
sock_stream = 1

module _ {K : Type 0} (kernel : Kernel K) where
  -- `closesocket (listenSocket)` and a failure.
  unfoldable pub close_listener : (listener : ℤ) → K → Option ℤ × K
  close_listener listener k = (none, (kernel k (sys_close listener)).1)

  -- A call that is to return 0, before what follows.
  unfoldable pub then_go_on : (listener : ℤ) → Call → (K → Option ℤ × K) → K → Option ℤ × K
  unfolding close_listener
  then_go_on listener call rest k =
      if is_zero (kernel k call).0.rc
      then rest (kernel k call).1
      else close_listener listener (kernel k call).1

  unfoldable pub accept_one : (listener : ℤ) → K → Option ℤ × K
  unfolding close_listener
  accept_one listener k =
      let (a, k') = kernel k (sys_accept listener) in
      if is_invalid a.rc
      then close_listener listener k'
      else (some a.rc, (kernel k' (sys_close listener)).1)

  unfoldable pub listen_on : (listener : ℤ) → K → Option ℤ × K
  listen_on listener = then_go_on listener (sys_setsockopt listener (so_reuseaddr (pos 1))) (
      then_go_on listener (sys_setsockopt listener (so_reuseport (pos 1))) (
        then_go_on listener (sys_setsockopt listener (tcp_nodelay (pos 1))) (
          then_go_on listener (sys_bind listener any_address address_size)
            (then_go_on listener (sys_listen listener (pos 1)) (accept_one listener)))))

  unfoldable pub wait_for_connection : K → Option ℤ × K
  wait_for_connection k =
      let (a, k') = kernel k (sys_socket af_inet sock_stream) in
      if is_invalid a.rc then (none, k') else listen_on a.rc k'

  module _ (open_sockets : K → List ℤ) where
    -- What is open beside the sockets `n`: the result, or nothing.
    abbrev pub Leaves : List ℤ → Option ℤ × K → Type 0
    Leaves n r = elim r.0 [
      | none ↦ open_sockets r.1 ≡ n
      | some fd ↦ (open_sockets r.1 ≡ fd ∷ n) × (is_invalid fd ≡ false)
    ]

    module _ (counts : TracksSockets kernel open_sockets) (n : List ℤ) (listener : ℤ) where
      close_listener-Leaves :
          (k : K) → open_sockets k ≡ listener ∷ n → Leaves n (close_listener listener k)
      unfolding close_listener
      close_listener-Leaves k held =
          counts.by_close listener k ∙ ap (without listener) held ∙ without-own listener n

      then_go_on-Leaves :
          (call : Call) (rest : K → Option ℤ × K) (k : K)
          → open_sockets (kernel k call).1 ≡ open_sockets k
          → ((l : K) → open_sockets l ≡ listener ∷ n → Leaves n (rest l))
          → open_sockets k ≡ listener ∷ n
          → Leaves n (then_go_on listener call rest k)
      unfolding then_go_on
      then_go_on-Leaves call rest k same go held =
          elim (Bool-cases (is_zero (kernel k call).0.rc)) [
            | inl done ↦ rw done (go _ (same ∙ held))
            | inr failed ↦ rw failed (close_listener-Leaves _ (same ∙ held))
          ]

      accept_one-Leaves : (k : K) → open_sockets k ≡ listener ∷ n → Leaves n (accept_one listener k)
      unfolding accept_one
      accept_one-Leaves k held =
          let (a, k') = kernel k (sys_accept listener) in
          let counted = counts.by_accept listener k in
          elim (Bool-cases (is_invalid a.rc)) [
            | inl failed ↦
                let same =
                  counted ∙ ap (λ b. if b then open_sockets k else a.rc ∷ open_sockets k) failed in
                rw failed (close_listener-Leaves k' (same ∙ held))
            | inr accepted ↦
                let more =
                  counted
                  ∙ ap (λ b. if b then open_sockets k else a.rc ∷ open_sockets k) accepted in
                let new = sym (ap (is_open a.rc) held) ∙ counts.fresh listener k accepted in
                let left =
                  counts.by_close listener k'
                  ∙ ap (without listener) (more ∙ ap (λ xs. a.rc ∷ xs) held)
                  ∙ without-second a.rc listener n new in
                rw accepted (left, accepted)
          ]

      listen_on-Leaves : (k : K) → open_sockets k ≡ listener ∷ n → Leaves n (listen_on listener k)
      unfolding listen_on
      listen_on-Leaves k held =
          then_go_on-Leaves _ _ k (counts.by_setsockopt listener _ k)
            (λ a. then_go_on-Leaves _ _ a (counts.by_setsockopt listener _ a) (λ b.
              then_go_on-Leaves _ _ b (counts.by_setsockopt listener _ b) (λ c.
                then_go_on-Leaves _ _ c (counts.by_bind listener _ _ c) (λ d.
                  then_go_on-Leaves _ _ d (counts.by_listen listener _ d) accept_one-Leaves))))
            held

    -- With any answers of a kernel that tracks its open sockets, the wait for a connection leaves open
    -- beside the sockets that were open one more, which is its result, or fails and leaves none: the
    -- socket that listens is closed in either case.
    pub wait_for_connection-Leaves :
        TracksSockets kernel open_sockets
        → (k : K) → Leaves (open_sockets k) (wait_for_connection k)
    unfolding wait_for_connection
    wait_for_connection-Leaves counts k =
        let (a, k') = kernel k (sys_socket af_inet sock_stream) in
        let counted = counts.by_socket af_inet sock_stream k in
        elim (Bool-cases (is_invalid a.rc)) [
          | inl failed ↦
              rw failed
                (counted ∙ ap (λ b. if b then open_sockets k else a.rc ∷ open_sockets k) failed)
          | inr made ↦
              let more =
                counted ∙ ap (λ b. if b then open_sockets k else a.rc ∷ open_sockets k) made in
              rw made (listen_on-Leaves counts (open_sockets k) a.rc k' more)
        ]
