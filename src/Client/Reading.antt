-- ===== src/Client/Reading.antt =====
-- library/Client.cpp, `ClientImpl::requestRead`: the read that is put to io_uring.
use cpp_interface.Prelude.{
  ℕ, zero, suc, ◌≡◌, refl, ◌∙◌, ap, ◌+◌, ◌≤◌, Bool, true, false, Option, none, some, List,
  if◌then◌else◌, ◌>>=◌, ◌&&◌, ℤ, pos, negsuc, arith, ◌⊎◌, inl, inr, Bool-cases,
}
use cpp_interface.Buffer.{buffer_size}
use cpp_interface.Client.Reader.{Reader, room}
use cpp_interface.Client.Session.{Client, Answers, terminate, start_reading}

-- `ringSocketFd`, `ringSocketFlag` and `ringRead`, as `Client::connect` has set them.
pub record ReadSetup : Type 0 where
  pub socket_fd : ℤ
  pub fixed_file : Bool
  pub ring_read : Bool

-- The three operations that read at an offset of the buffer.
pub data ReadSqe : Type 0 where
  read_fixed : (fd : ℤ) → (fixed_file : Bool) → (offset size tag : ℕ) → ReadSqe
  read_plain read_vector : (fd : ℤ) → (fixed_file : Bool) → (offset size : ℕ) → ReadSqe

-- The bytes of the buffer that the operation writes.
abbrev pub target : ReadSqe → ℕ × ℕ
target (read_fixed fd fixed_file offset size tag) = (offset, size)
target (read_plain fd fixed_file offset size) = (offset, size)
target (read_vector fd fixed_file offset size) = (offset, size)

-- Whether the ring has an entry, and what `io_uring_submit` returns.
pub record ReadAnswers : Type 0 where
  pub has_sqe : Bool
  pub submitted : ℤ

abbrev pub is_positive : ℤ → Bool
is_positive (pos zero) = false
is_positive (pos (suc n)) = true
is_positive (negsuc n) = false

-- A buffer that is preferred was registered, and its tag is its place there.
unfoldable pub read_sqe : ReadSetup → (preferred : Bool) → (tag : ℕ) → Reader → ReadSqe
read_sqe setup preferred tag r =
    if preferred
    then read_fixed setup.socket_fd setup.fixed_file r.in_end (room r) tag
    else if setup.ring_read
    then read_plain setup.socket_fd setup.fixed_file r.in_end (room r)
    else read_vector setup.socket_fd setup.fixed_file r.in_end (room r)

-- A request that is refused terminates the client.
abbrev pub refused : Option Client → Option (Client × Option ReadSqe)
refused o = o >>= λ d. some (d, none)

-- `requestRead`, as built without asserts: the client, and the operation that was submitted.
unfoldable pub request_read :
    ReadSetup
    → (preferred : Bool) → (tag : ℕ) → ReadAnswers
    → (quits : List Bool) → Client
    → Option (Client × Option ReadSqe)
request_read setup preferred tag answers quits c =
    if answers.has_sqe
    then (if is_positive answers.submitted
        then some (c, some (read_sqe setup preferred tag c.reader))
        else refused (terminate quits c))
    else refused (terminate quits c)

-- The connection is running from here on.
abbrev pub run_on : Client → Client × Bool
run_on d = (record d { running = true }, true)

after_terminate :
    (o : Option Client) → (o >>= λ d. some (run_on d)) ≡ (refused o >>= λ (d, sqe). some (run_on d))
after_terminate none = refl
after_terminate (some d) = refl

read_sqe-target :
    (setup : ReadSetup) (preferred : Bool) (tag : ℕ) (r : Reader)
    → target (read_sqe setup preferred tag r) ≡ (r.in_end, room r)
unfolding read_sqe
read_sqe-target setup preferred tag r = elim (Bool-cases preferred) [
  | inl registered ↦ rw registered refl
  | inr other ↦ elim (Bool-cases setup.ring_read) [
    | inl plain ↦ rw (other, plain) refl
    | inr vector ↦ rw (other, vector) refl
  ]
]

-- If what was read ends inside the buffer, a read is asked for by one of three operations, each of
-- which writes the bytes from there to the end of the buffer and no others; or it is refused, and
-- then the client is told to terminate.
request_read-target :
    (setup : ReadSetup) (preferred : Bool) (tag : ℕ) (answers : ReadAnswers) (quits : List Bool)
    (c : Client)
    → c.reader.in_end ≤ buffer_size
    → ((sqe : ReadSqe) × ((request_read setup preferred tag answers quits c ≡ some (c, some sqe))
          × ((target sqe).0 ≡ c.reader.in_end)
          × ((target sqe).0 + (target sqe).1 ≡ buffer_size)))
      ⊎ (request_read setup preferred tag answers quits c ≡ refused (terminate quits c))
unfolding request_read
request_read-target setup preferred tag answers quits c fits =
    let sqe = read_sqe setup preferred tag c.reader in
    let at = read_sqe-target setup preferred tag c.reader in
    elim (Bool-cases answers.has_sqe) [
      | inr full ↦ inr (rw full refl)
      | inl free ↦ elim (Bool-cases (is_positive answers.submitted)) [
        | inr unaccepted ↦ inr (rw (free, unaccepted) refl)
        | inl taken ↦ inl (
          sqe,
          (
            rw (free, taken) refl,
            ap (λ t. t.0) at,
            omega (arith, ap (λ t. t.0) at, ap (λ t. t.1) at, fits),
          ),
        )
      ]
    ]

-- `connect` goes on from the first read in either case.
start_reading-request_read :
    (setup : ReadSetup) (preferred : Bool) (tag : ℕ) (answers : ReadAnswers) (env : Answers)
    (c : Client)
    → env.reads c.ring ≡ (answers.has_sqe && is_positive answers.submitted)
    → start_reading env c ≡ (
        request_read setup preferred tag answers env.quits
          (record c { socket = true; reader = record c.reader { in_buffer = env.read_buffer } })
        >>= λ (d, sqe). some (run_on d))
unfolding start_reading request_read
start_reading-request_read setup preferred tag answers env c e =
    let ready : Client = record c {
      socket = true;
      reader = record c.reader { in_buffer = env.read_buffer };
    } in
    elim (Bool-cases answers.has_sqe) [
      | inr full ↦
          let no_read : env.reads c.ring ≡ false =
            e ∙ ap (λ b. b && is_positive answers.submitted) full in
          rw (no_read, full) (after_terminate (terminate env.quits ready))
      | inl free ↦
          let same : env.reads c.ring ≡ is_positive answers.submitted =
            e ∙ ap (λ b. b && is_positive answers.submitted) free in
          elim (Bool-cases (is_positive answers.submitted)) [
            | inl taken ↦ let reads = same ∙ taken in rw (reads, free, taken) refl
            | inr unaccepted ↦
                let no_read = same ∙ unaccepted in
                rw (no_read, free, unaccepted) (after_terminate (terminate env.quits ready))
          ]
    ]
