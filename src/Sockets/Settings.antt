-- ===== src/Sockets/Settings.antt =====
-- The values that options and flags are set to.
use cpp_interface.Prelude.{
  ℕ, ◌≡◌, refl, ap, ◌∙◌, sym, ◌↔◌, ◌≢◌, ◌-◌, ◌/◌, ◌%◌, ◌^◌, ◌<◌, ◌≤◌, Bool, true, false, List, [],
  ◌∷◌, ltb, if◌then◌else◌, map, length, ℤ, pos, negsuc, is_zero, is_negative, to_int, to_short,
  Bool-cases, inl, inr, ◌⊎◌, arith, lt→ltb,
}
use cpp_interface.Sockets.{
  Kernel, Socket, PollInfo, so_linger, so_rcvbuf, so_sndbuf, sys_get_flags, sys_set_flags, sys_poll,
  set_option, set_linger, set_recv_buffer_size, set_send_buffer_size, set_non_blocking, with_flag,
  without_flag, poll, poll_fds, copy_revents,
}

-- The number, or 0 for a negative one.
abbrev magnitude : ℤ → ℕ
magnitude (pos n) = n
magnitude (negsuc n) = 0

to_int-pos : (n : ℕ) → (to_int (pos n) ≡ pos n) ↔ (n < 2 ^ 31)
to_int-pos n = elim (Bool-cases (ltb (n % 2 ^ 32) (2 ^ 31))) [
  | inl small ↦ (
    λ e.
        let same : n % 2 ^ 32 ≡ n =
          sym (
            ap (λ b. magnitude (if b then pos (n % 2 ^ 32) else negsuc (2 ^ 32 - 1 - n % 2 ^ 32)))
              small)
          ∙ ap magnitude e in
        ground (arith, same, small),
    λ h. rw small (ap pos (omega arith)),
  )
  | inr large ↦ (
    λ e.
        let same : 0 ≡ n =
          sym (
            ap (λ b. magnitude (if b then pos (n % 2 ^ 32) else negsuc (2 ^ 32 - 1 - n % 2 ^ 32)))
              large)
          ∙ ap magnitude e in
        ground (arith, same),
    λ h. absurd (ground (arith, large)),
  )
]

-- A number of 32 bits that has the flag if `b` is true, and the other bits of `f`.
abbrev pub IsFlagged : Bool → ℕ → ℕ → Type 0
IsFlagged b f g =
    (g / 2048 % 2 ≡ (if b then 1 else 0))
    × (g % 2048 ≡ f % 2048)
    × (g / 4096 ≡ f / 4096)
    × (g < 2 ^ 31)

with_flag-IsFlagged : (f : ℕ) → f < 2 ^ 31 → IsFlagged true f (with_flag f)
with_flag-IsFlagged f h = (ground arith, ground arith, ground arith, ground arith)

without_flag-IsFlagged : (f : ℕ) → f < 2 ^ 31 → IsFlagged false f (without_flag f)
without_flag-IsFlagged f h = (ground arith, ground arith, ground arith, ground arith)

changed-IsFlagged :
    (b : Bool) (f : ℕ) → f < 2 ^ 31 → IsFlagged b f (if b then with_flag f else without_flag f)
changed-IsFlagged true f h = with_flag-IsFlagged f h
changed-IsFlagged false f h = without_flag-IsFlagged f h

module _ {K : Type 0} (kernel : Kernel K) where
  -- Both buffer sizes ask the kernel for one number, which is the size that was given if that is
  -- less than 2 ^ 31, and is another number if it is not.
  pub set_buffer_size_lem :
      (s : Socket) (size : ℕ) (k : K)
      → (v : ℤ) × ((set_recv_buffer_size kernel s size k ≡ set_option kernel s (so_rcvbuf v) k)
          × (set_send_buffer_size kernel s size k ≡ set_option kernel s (so_sndbuf v) k)
          × ((v ≡ pos size) ↔ (size < 2 ^ 31)))
  unfolding set_recv_buffer_size set_send_buffer_size
  set_buffer_size_lem s size k = (to_int (pos size), (refl, refl, to_int-pos size))

  -- When the kernel gives the flags of a socket, `setNonBlocking` sets flags that have O_NONBLOCK as
  -- it was asked for and all other bits as they were, and says whether that call succeeded.
  set_non_blocking_lem :
      (s : Socket) (non_blocking : Bool) (f : ℕ) (k : K)
      → (kernel k (sys_get_flags s.fd)).0.rc ≡ pos f
      → f < 2 ^ 31
      → (g : ℕ) × ((set_non_blocking kernel s non_blocking k ≡ (
            let r = kernel (kernel k (sys_get_flags s.fd)).1 (sys_set_flags s.fd (pos g)) in
            (is_zero r.0.rc, r.1)))
          × IsFlagged non_blocking f g)
  unfolding set_non_blocking
  set_non_blocking_lem s non_blocking f k answered small =
      let g : ℕ = if non_blocking then with_flag f else without_flag f in
      let flagged = changed-IsFlagged non_blocking f small in
      let word : f % 2 ^ 32 ≡ f = omega arith in
      let under : ltb g (2 ^ 31) ≡ true = lt→ltb g (2 ^ 31) flagged.3 in
      (g, (rw (answered, word, under) refl, flagged))

  -- A linger time from 0 to 65535 seconds reaches the kernel as it is, and with any other there is
  -- no call and the result is false.
  pub set_linger_lem :
      (s : Socket) (enable : Bool) (time : ℤ) (k : K)
      → ((n : ℕ) × ((time ≡ pos n)
            × (n ≤ 65535)
            × (set_linger kernel s enable time k ≡ set_option kernel s (so_linger enable time) k)))
        ⊎ (((n : ℕ) → n ≤ 65535 → time ≢ pos n) × (set_linger kernel s enable time k ≡ (false, k)))
  unfolding set_linger
  set_linger_lem s enable (negsuc n) k =
      inr (λ m small e. absurd (ground (arith, ap is_negative e)), refl)
  set_linger_lem s enable (pos n) k = elim (Bool-cases (ltb 65535 n)) [
    | inl large ↦ inr (λ m small e. absurd (ground (arith, ap magnitude e, large)), rw large refl)
    | inr ok ↦
        let small : n ≤ 65535 = ground (arith, ok) in
        inl (
          n,
          (
            refl,
            small,
            rw ok (
                ap (λ v. set_option kernel s (so_linger enable v) k)
                  ((to_int-pos n).1 (omega arith))),
          ),
        )
  ]

copied_revents :
    (infos : List PollInfo) (rs : List ℤ)
    → length rs ≡ length infos
    → map (λ i. i.revents) (copy_revents infos rs) ≡ rs
copied_revents [] [] e = refl
copied_revents [] (r ∷ rs) e = absurd (omega (arith, e))
copied_revents (i ∷ is) [] e = absurd (omega (arith, e))
copied_revents (i ∷ is) (r ∷ rs) e = ap (λ xs. r ∷ xs) (copied_revents is rs (omega (arith, e)))

-- What is asked about stays.
poll_fds-copy_revents :
    (infos : List PollInfo) (rs : List ℤ) → poll_fds (copy_revents infos rs) ≡ poll_fds infos
poll_fds-copy_revents [] rs = refl
poll_fds-copy_revents (i ∷ is) [] =
    ap (λ xs. record { fd = i.socket.fd; events = to_short i.events } ∷ xs)
      (poll_fds-copy_revents is [])
poll_fds-copy_revents (i ∷ is) (r ∷ rs) =
    ap (λ xs. record { fd = i.socket.fd; events = to_short i.events } ∷ xs)
      (poll_fds-copy_revents is rs)

-- A poll of some sockets asks the kernel about each of them, and returns what the kernel returns. If
-- that is no failure, and the kernel has reported on each, the reports are found with the sockets in
-- their order; if it is a failure the reports stay. The sockets and the events asked for stay.
pub poll_lem :
    {K : Type 0} (kernel : Kernel K) (i : PollInfo) (is : List PollInfo) (timeout : ℤ) (k : K)
    → let asked = kernel k (sys_poll (poll_fds (i ∷ is)) (to_int timeout)) in
      (is_negative asked.0.rc ≡ false → length asked.0.revents ≡ length (i ∷ is))
      → ((poll kernel (i ∷ is) timeout k).0 ≡ asked.0.rc)
        × ((poll kernel (i ∷ is) timeout k).2 ≡ asked.1)
        × (poll_fds (poll kernel (i ∷ is) timeout k).1 ≡ poll_fds (i ∷ is))
        × (map (λ j. j.revents) (poll kernel (i ∷ is) timeout k).1
            ≡ (if is_negative asked.0.rc then map (λ j. j.revents) (i ∷ is) else asked.0.revents))
unfolding poll
poll_lem kernel i is timeout k long =
    let asked = kernel k (sys_poll (poll_fds (i ∷ is)) (to_int timeout)) in
    elim (Bool-cases (is_negative asked.0.rc)) [
      | inl failed ↦ rw failed (refl, refl, refl, refl)
      | inr ok ↦ rw ok (
        refl,
        refl,
        poll_fds-copy_revents (i ∷ is) asked.0.revents,
        copied_revents (i ∷ is) asked.0.revents (long ok),
      )
    ]
