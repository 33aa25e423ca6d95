-- ===== src/BotManager/Startup/Progress.antt =====
-- The start always goes on, and is over after a bounded number of steps.
use cpp_interface.Prelude.{
  ℕ, zero, suc, ◌≡◌, ◌≢◌, refl, ap, ◌+◌, ◌*◌, ◌-◌, ◌<◌, ◌≤◌, ◌⊎◌, inl, inr, ◌==◌, ltb, ltb→lt,
  not_ltb→le, arith, Bool-cases, ==→eq, ==→ne,
}
use cpp_interface.BotManager.Startup.{
  Phase, constructed, started, initialized, Stage, starting, first_bot, waiting, complete, Startup,
  put, at, made, Step, start_service, all_started, no_bots, initialize_first, begin_service,
  see_initialized, send_complete, Steps, none_yet, then_step,
}
use cpp_interface.BotManager.Startup.Order.{Knows, IsOrdered, Steps-IsOrdered, put-elim}

-- How many steps a context is away from its promise.
abbrev weight : Phase → ℕ
weight constructed = 2
weight started = 1
weight initialized = 0

abbrev total : ℕ → (ℕ → Phase) → ℕ
total zero f = 0
total (suc n) f = weight (f n) + total n f

-- How many steps the manager is away from the end, at most, without those that take a bot on.
abbrev left : ℕ → Stage → ℕ
left n (starting i) = n + 2
left n first_bot = n
left n (waiting i) = suc (n - i)
left n complete = 0

put-other :
    (f : ℕ → Phase) (i : ℕ) (a : Phase) (j : ℕ) → j ≢ i → weight (put f i a j) ≡ weight (f j)
put-other f i a j ne =
    put-elim (λ k x. k ≢ i → weight x ≡ weight (f k)) f i a j (λ e other. absurd (other e))
      (λ d other. refl) ne

put-own : (f : ℕ → Phase) (i : ℕ) (a : Phase) (j : ℕ) → j ≡ i → weight (put f i a j) ≡ weight a
put-own f i a j e =
    put-elim (λ k x. k ≡ i → weight x ≡ weight a) f i a j (λ same d. refl) (λ ne d. absurd (ne d)) e

total-put-other : (n i : ℕ) (f : ℕ → Phase) (a : Phase) → n ≤ i → total n (put f i a) ≡ total n f
total-put-other zero i f a le = refl
total-put-other (suc n) i f a le =
    let rest = total-put-other n i f a (omega arith) in
    let same = put-other f i a n (λ e. omega (arith, e, le)) in omega (arith, rest, same)

total-put :
    (n i : ℕ) (f : ℕ → Phase) (a : Phase)
    → i < n
    → total n (put f i a) + weight (f i) ≡ total n f + weight a
total-put zero i f a lt = absurd (omega arith)
total-put (suc n) i f a lt = elim (Bool-cases (n == i)) [
  | inl e ↦
      let same = ==→eq n i e in
      let here = put-own f i a n same in
      let there = total-put-other n i f a (omega (arith, same)) in
      let old = ap (λ j. weight (f j)) same in omega (arith, here, there, old)
  | inr e ↦
      let ne = ==→ne n i e in
      let here = put-other f i a n ne in
      let there = total-put n i f a (omega (arith, ne, lt)) in omega (arith, here, there)
]

-- What is left to do for all.
abbrev remaining : ℕ → Startup → ℕ
remaining n s = left n s.stage + total n s.phases

weight-starting : (i : ℕ) (f : Phase) → Knows (starting i) i f → weight f ≡ 2
weight-starting i constructed k = refl
weight-starting i started k = absurd (omega arith)
weight-starting i initialized k = absurd (omega arith)

weight-first : (f : Phase) → Knows first_bot 0 f → weight f ≡ 2
weight-first constructed k = refl
weight-first started k = absurd (omega arith)
weight-first initialized k = absurd (omega arith)

-- A step leaves less to do.
Step-remaining :
    {n : ℕ} {s t : Startup} → Step n s t → IsOrdered n s → remaining n t < remaining n s
Step-remaining {n} (start_service {i} {f} {p} lt) h =
    let moved = total-put n i f started lt in
    let fresh = weight-starting i (f i) (h.known i lt) in omega (arith, moved, fresh)
Step-remaining {n} (all_started {i} {f} {p} le some_bot) h = omega arith
Step-remaining {n} (no_bots {i} {f} {p} e) h = omega arith
Step-remaining {n} (initialize_first {f} {p}) h =
    let moved = total-put n 0 f initialized h.begun in
    let fresh = weight-first (f 0) (h.known 0 h.begun) in omega (arith, moved, fresh)
Step-remaining {n} (begin_service {s} {i} {f} {p} lt e) h =
    let moved = total-put n i f initialized lt in let old = ap weight e in omega (arith, moved, old)
Step-remaining {n} (see_initialized {i} {f} {p} lt e) h = omega arith
Step-remaining {n} (send_complete {i} {f} {p} le) h = omega arith

total-made : (n : ℕ) → total n (λ i. constructed) ≡ 2 * n
total-made zero = refl
total-made (suc n) = let rest = total-made n in omega (arith, rest)

remaining-made : {n k : ℕ} {t : Startup} → Steps n made k t → k + remaining n t ≤ 3 * n + 2
remaining-made {n} none_yet = let all = total-made n in omega (arith, all)
remaining-made (then_step run step) =
    let before = remaining-made run in
    let less = Step-remaining step (Steps-IsOrdered run) in omega (arith, before, less)

-- The start is not stuck at a state.
abbrev pub GoesOn : ℕ → Startup → Type 0
GoesOn n t = (t.stage ≡ complete) ⊎ ((u : Startup) × Step n t u)

lt_or_le : (a b : ℕ) → (a < b) ⊎ (b ≤ a)
lt_or_le a b = elim (Bool-cases (ltb a b)) [
  | inl e ↦ inl (ltb→lt a b e)
  | inr e ↦ inr (not_ltb→le a b e)
]

waits :
    (n i : ℕ) (f : ℕ → Phase) (p : ℕ → ℕ) (g : Phase)
    → i < n
    → f i ≡ g
    → Knows (waiting i) i g
    → GoesOn n (at (waiting i) f p)
waits n i f p constructed lt e k = absurd k
waits n i f p started lt e k = inr (_, begin_service lt e)
waits n i f p initialized lt e k = inr (_, see_initialized lt e)

goes_on :
    (n : ℕ) (s : Stage) (f : ℕ → Phase) (p : ℕ → ℕ) → IsOrdered n (at s f p) → GoesOn n (at s f p)
goes_on n (starting i) f p h = elim (lt_or_le i n) [
  | inl lt ↦ inr (_, start_service lt)
  | inr le ↦ elim (lt_or_le 0 n) [
    | inl some_bot ↦ inr (_, all_started le some_bot)
    | inr none_left ↦ inr (_, no_bots (omega arith))
  ]
]
goes_on n first_bot f p h = inr (_, initialize_first)
goes_on n (waiting i) f p h = elim (lt_or_le i n) [
  | inl lt ↦ waits n i f p (f i) lt refl (h.known i lt)
  | inr le ↦ inr (_, send_complete le)
]
goes_on n complete f p h = inl refl

-- In whatever order the threads step from when the contexts are made, with n bots, at most 3n + 2
-- steps are made, and after each of them the manager has come past sendInitComplete or a further
-- step can be made: the start never gets stuck, and is over after finitely many steps.
pub Steps-goes_on :
    {n k : ℕ} {t : Startup}
    → Steps n made k t
    → (k ≤ 3 * n + 2) × ((t.stage ≡ complete) ⊎ ((u : Startup) × Step n t u))
Steps-goes_on {n} {k} {t} run =
    let bound = remaining-made run in
    (omega (arith, bound), goes_on n t.stage t.phases t.promises (Steps-IsOrdered run))
