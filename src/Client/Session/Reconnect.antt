-- ===== src/Client/Session/Reconnect.antt =====
-- A second `connect`, after `join` or after a first one that failed.
use cpp_interface.Prelude.{
  ℕ, ◌≡◌, refl, ◌∙◌, Bool, true, false, not, ◌&&◌, ◌||◌, Option, none, some, List, [], ◌∷◌, ◌>>=◌,
  All, Bool-cases, inl, inr, arith,
}
use cpp_interface.Message.{Message}
use cpp_interface.Client.Writer.{Writer, Ring, send_message}
use cpp_interface.Client.Session.{
  Client, RingState, absent, live, exited, Answers, assign_ring, has_ring, start_reading, connect,
  join,
}

-- The system answers all that `connect` asks for, on a ring in use.
pub record IsGood (env : Answers) : Type 0 where
  pub resolves : env.resolves ≡ true
  pub connects : env.connects ≡ true
  pub sets_up_ring : env.sets_up_ring ≡ true
  pub registers_buffers : env.registers_buffers live ≡ true
  pub reads : env.reads live ≡ true

connect_good :
    (env : Answers) (c : Client)
    → IsGood env
    → c.running ≡ false
    → c.ring ≡ absent
    → connect env c
      ≡ some (
        record c {
          ring = live;
          socket = true;
          running = true;
          reader = record c.reader { in_buffer = env.read_buffer };
        },
        true,
      )
unfolding connect start_reading assign_ring
connect_good env c g idle no_ring =
    rw (idle, g.resolves, g.connects, g.sets_up_ring, no_ring, g.registers_buffers, g.reads) refl

-- A connection made after `join` works on a ring of its own, but starts with the offsets and the
-- unfinished writes of the connection before.
connect-join :
    (env : Answers) (c : Client)
    → IsGood env
    → (d : Client) × (connect env (join c) ≡ some (d, true))
      × (d.ring ≡ live)
      × (d.running ≡ true)
      × (d.quit ≡ false)
      × (d.writer.output_queue ≡ [])
      × (d.reader.in_start ≡ c.reader.in_start)
      × (d.reader.in_end ≡ c.reader.in_end)
      × (d.writer.iov ≡ c.writer.iov)
      × (d.writer.out_start ≡ c.writer.out_start)
unfolding join assign_ring
connect-join env c g = (
  record (join c) {
    ring = live;
    socket = true;
    running = true;
    reader = record c.reader { in_buffer = env.read_buffer };
  },
  connect_good env (join c) g refl refl,
  refl,
  refl,
  refl,
  refl,
  refl,
  refl,
  refl,
  refl,
)

send_stale :
    (ring : Ring) (w : Writer) (m : Message) (x : List ℕ) (xs : List (List ℕ))
    → w.output_queue ≡ []
    → w.iov ≡ x ∷ xs
    → send_message ring w m ≡ none
unfolding send_message
send_stale ring w m x xs empty stale = ground arith

-- If writes were unfinished when the first connection ended, the first message sent on the second
-- one fails the assertion that nothing is in flight.
pub send_message-connect-join :
    (env : Answers) (c : Client) (ring : Ring) (m : Message) (x : List ℕ) (xs : List (List ℕ))
    → IsGood env
    → c.writer.iov ≡ x ∷ xs
    → (d : Client) × (connect env (join c) ≡ some (d, true)) × (send_message ring d.writer m ≡ none)
send_message-connect-join env c ring m x xs g unfinished =
    let (d, e, _, _, _, queue, _, _, iov, _) = connect-join env c g in
    (d, e, send_stale ring d.writer m x xs queue (iov ∙ unfinished))

-- Buffers cannot be registered on a ring that `io_uring_queue_exit` has closed: its descriptor is not
-- open any more.
abbrev pub FailsClosed : Answers → Type 0
FailsClosed env = env.registers_buffers exited ≡ false

-- Some attempts to connect; whether one of them has reported success.
unfoldable pub connect_all : List Answers → Client → Option (Client × Bool)
connect_all [] c = some (c, false)
connect_all (env ∷ envs) c =
    connect env c >>= λ (d, ok). connect_all envs d >>= λ (e, later). some (e, ok || later)

-- A client that holds the destructor of a ring and has no connection.
abbrev IsStuck : Client → Type 0
IsStuck c = (c.running ≡ false) × (has_ring c.ring ≡ true)

assign_ring-held : (r : RingState) → has_ring r ≡ true → assign_ring r ≡ exited
unfolding has_ring assign_ring
assign_ring-held absent held = absurd (ground (arith, held))
assign_ring-held live held = refl
assign_ring-held exited held = refl

connect-IsStuck :
    (env : Answers) (c : Client)
    → FailsClosed env
    → IsStuck c
    → (d : Client) × (connect env c ≡ some (d, false)) × IsStuck d
unfolding connect has_ring
connect-IsStuck env c fails (idle, held) =
    let closed = assign_ring-held c.ring held in
    elim (Bool-cases (not (env.resolves && env.connects && env.sets_up_ring))) [
      | inl e ↦ (c, rw (idle, e) refl, (idle, held))
      | inr e ↦ (record c { ring = exited }, rw (idle, e, closed, fails) refl, (idle, refl))
    ]

connect_all-IsStuck :
    (envs : List Answers) (c : Client)
    → All FailsClosed envs
    → IsStuck c
    → (d : Client) × (connect_all envs c ≡ some (d, false))
unfolding connect_all
connect_all-IsStuck [] c fails stuck = (c, refl)
connect_all-IsStuck (env ∷ envs) c fails stuck =
    let (d, done, stuck') = connect-IsStuck env c fails.0 stuck in
    let (e, all) = connect_all-IsStuck envs d fails.1 stuck' in (e, rw (done, all) refl)

-- If buffers cannot be registered on a closed ring: after an attempt that fails to register its
-- buffers, every further attempt fails too, however many there are and whatever else the system
-- answers, since the ring that it sets up is closed by the destructor that is held for the first
-- one.
pub connect_retry :
    (env : Answers) (later : List Answers) (c : Client)
    → c.running ≡ false
    → c.ring ≡ absent
    → env.resolves ≡ true
    → env.connects ≡ true
    → env.sets_up_ring ≡ true
    → env.registers_buffers live ≡ false
    → All FailsClosed later
    → (d : Client) × (e : Client) × (connect env c ≡ some (d, false))
      × (d.ring ≡ live)
      × (connect_all later d ≡ some (e, false))
unfolding connect assign_ring has_ring
connect_retry env later c idle no_ring r k s f fails =
    let (e, all) = connect_all-IsStuck later (record c { ring = live }) fails (idle, refl) in
    (record c { ring = live }, e, rw (idle, no_ring, r, k, s, f) refl, refl, all)
