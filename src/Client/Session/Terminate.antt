-- ===== src/Client/Session/Terminate.antt =====
-- What `terminate` and the end of the service thread leave, and which completions count.
use cpp_interface.Prelude.{
  ℕ, suc, ◌≡◌, ◌≢◌, ◌⊎◌, inl, inr, refl, ap, Bool, true, false, Option, none, some, List, [], ◌∷◌,
  All, arith, if◌then◌else◌, Bool-cases, ◌>>=◌,
}
use mathlib.Core.Option.{some-injective}
use mathlib.Core.Path.{subst}
use cpp_interface.Client.Session.{
  Client, has_ring, push_quit, stopped, terminate, Overlapped, in_overlapped, out_overlapped, Cqe,
  completed, Action, next_round, end_loop, return, read, write, write_queued, dispatch, act,
  end_service, service_thread,
}

-- The flags are set and all else but the count of events is as it was.
pub record IsStopped (c d : Client) : Type 0 where
  pub quit : d.quit ≡ true
  pub idle : d.writer.writer_idle ≡ true
  pub queue : d.writer.output_queue ≡ c.writer.output_queue
  pub iov : d.writer.iov ≡ c.writer.iov
  pub reader : d.reader ≡ c.reader
  pub running : d.running ≡ c.running
  pub ring : d.ring ≡ c.ring

-- io_uring takes none of the events.
abbrev pub Refused : List Bool → Type 0
Refused answers = All (λ a. a ≡ false) answers

push_quit_cases :
    (answers : List Bool) (c : Client)
    → ((push_quit answers c ≡ none) × Refused answers)
      ⊎ (push_quit answers c ≡ some (record c { quit_events = suc c.quit_events }))
unfolding push_quit
push_quit_cases [] c = inl (refl, tt)
push_quit_cases (true ∷ answers) c = inr refl
push_quit_cases (false ∷ answers) c = elim (push_quit_cases answers c) [
  | inl (e, all) ↦ inl (e, (refl, all))
  | inr e ↦ inr e
]

-- `terminate` sets the flags, leaves the queues and the reader alone, and pushes one quit event if
-- there is a ring. It fails to return only if there is a ring that takes no event.
pub terminate_lem :
    (answers : List Bool) (c : Client)
    → ((terminate answers c ≡ none) × (has_ring c.ring ≡ true) × Refused answers)
      ⊎ ((d : Client) × (terminate answers c ≡ some d)
          × IsStopped c d
          × (d.quit_events ≡ (if has_ring c.ring then suc c.quit_events else c.quit_events)))
unfolding terminate
terminate_lem answers c = elim (Bool-cases (has_ring c.ring)) [
  | inr no_ring ↦ rw no_ring (inr (stopped c, refl, ground arith, refl))
  | inl ring ↦ rw ring (elim (push_quit_cases answers (stopped c)) [
    | inl (e, all) ↦ inl (e, refl, all)
    | inr e ↦ inr (record (stopped c) { quit_events = suc c.quit_events }, e, ground arith, refl)
  ])
]

-- No completion reaches the branches for the write queue or for quitting: the keys of all are 0.
-- Only the read and the write have a handler.
dispatch_completed :
    (o : Overlapped) (count : ℕ)
    → ((o ≡ in_overlapped) × (dispatch (completed (some o) count) ≡ some (read count)))
      ⊎ ((o ≡ out_overlapped) × (dispatch (completed (some o) count) ≡ some (write count)))
      ⊎ ((o ≢ in_overlapped)
          × (o ≢ out_overlapped)
          × (dispatch (completed (some o) count) ≡ some next_round))
unfolding dispatch
dispatch_completed Overlapped.in_overlapped count = inl (refl, refl)
dispatch_completed Overlapped.out_overlapped count = inr (inl (refl, refl))
dispatch_completed Overlapped.write_queue_overlapped count = inr (inr (λ e. cc, λ e. cc, refl))
dispatch_completed Overlapped.bot_wakeup_overlapped count = inr (inr (λ e. cc, λ e. cc, refl))
dispatch_completed Overlapped.quit_overlapped count = inr (inr (λ e. cc, λ e. cc, refl))

-- What has ended has the flags set.
abbrev Ends : Option (Client × Bool) → Type 0
Ends o = (d : Client) → o ≡ some (d, true) → (d.quit ≡ true) × (d.writer.writer_idle ≡ true)

abbrev flagged : Client → Option (Client × Bool)
flagged u = some (u, true)

if-Ends : (b : Bool) (x y : Option (Client × Bool)) → Ends x → Ends y → Ends (if b then x else y)
if-Ends true x y hx hy = hx
if-Ends false x y hx hy = hy

bound-Ends :
    {A : Type 0} (o : Option A) (f : A → Option (Client × Bool))
    → ((a : A) → Ends (f a))
    → Ends (o >>= f)
bound-Ends none f h d e = cc
bound-Ends (some a) f h d e = h a d e

module _ (handle : Action → Client → Option Client) (quits : List Bool) where
  end_service-Ends : (c : Client) → Ends (end_service handle quits c)
  unfolding end_service
  end_service-Ends c d e = elim (terminate_lem quits c) [
    | inl (f, _, _) ↦ cc (subst (λ o. (o >>= flagged) ≡ flagged d) f e)
    | inr (u, f, s, _) ↦
        let same = subst (λ o. (o >>= flagged) ≡ flagged d) f e in
        let p : u ≡ d = ap (λ t. t.0) (some-injective _ _ same) in
        subst (λ x. (x.quit ≡ true) × (x.writer.writer_idle ≡ true)) p (s.quit, s.idle)
  ]

  act-Ends :
      (again : Client → Option (Client × Bool)) (a : Action) (c : Client)
      → ((u : Client) → Ends (again u))
      → Ends (act handle quits again a c)
  unfolding act
  act-Ends again next_round c h = h c
  act-Ends again end_loop c h = end_service-Ends c
  act-Ends again return c h = end_service-Ends c
  act-Ends again (read count) c h = bound-Ends (handle (read count) c) again h
  act-Ends again (write count) c h = bound-Ends (handle (write count) c) again h
  act-Ends again write_queued c h = bound-Ends (handle write_queued c) again h

  service_thread-Ends : (queue : List Cqe) (c : Client) → Ends (service_thread handle quits queue c)
  unfolding service_thread
  service_thread-Ends [] c = if-Ends c.quit _ _ (end_service-Ends c) (λ d e. cc)
  service_thread-Ends (q ∷ queue) c = if-Ends c.quit _ _ (end_service-Ends c) (
      bound-Ends (dispatch q) _
        (λ a. act-Ends (service_thread handle quits queue) a c (service_thread-Ends queue)))

-- However the service thread ends, with a failed wait, a faulty completion or the quit flag, it
-- leaves the quit flag set and the writer idle, so nothing waits for it in vain.
pub service_thread-stopped :
    (handle : Action → Client → Option Client) (quits : List Bool) (queue : List Cqe) (c d : Client)
    → service_thread handle quits queue c ≡ some (d, true)
    → (d.quit ≡ true) × (d.writer.writer_idle ≡ true)
service_thread-stopped handle quits queue c d e = service_thread-Ends handle quits queue c d e
