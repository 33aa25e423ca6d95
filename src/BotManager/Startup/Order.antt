-- ===== src/BotManager/Startup/Order.antt =====
-- The manager is ready only when every bot is, and each promise is set once.
use mathlib.Core.Path.{subst}
use cpp_interface.Prelude.{
  ℕ, suc, ◌≡◌, ◌≢◌, refl, ap, sym, ◌∙◌, ◌<◌, ◌≤◌, ◌⊎◌, inl, inr, if◌then◌else◌, ◌==◌, arith,
  Bool-cases, ==→eq, ==→ne,
}
use cpp_interface.BotManager.Startup.{
  Phase, constructed, started, initialized, Stage, starting, first_bot, waiting, complete, Startup,
  put, made, Step, start_service, all_started, no_bots, initialize_first, begin_service,
  see_initialized, send_complete, Steps, none_yet, then_step,
}

-- The promise of a context was set once if it is initialised, and never if not.
abbrev pub IsCounted : Phase → ℕ → Type 0
IsCounted constructed p = p ≡ 0
IsCounted started p = p ≡ 0
IsCounted initialized p = p ≡ 1

-- What is known of the phase of the bot `j` at a stage.
abbrev pub Knows : Stage → ℕ → Phase → Type 0
Knows (starting i) j constructed = (j ≡ 0) ⊎ (i ≤ j)
Knows (starting i) j started = (1 ≤ j) × (j < i)
Knows (starting i) j initialized = (1 ≤ j) × (j < i)
Knows first_bot j constructed = j ≡ 0
Knows first_bot j started = 1 ≤ j
Knows first_bot j initialized = 1 ≤ j
Knows (waiting i) j constructed = ⊥
Knows (waiting i) j started = i ≤ j
Knows (waiting i) j initialized = Unit
Knows complete j constructed = ⊥
Knows complete j started = ⊥
Knows complete j initialized = Unit

-- The loop that starts the services has begun with the second bot; a first bot is there to initialise.
abbrev pub IsBegun : ℕ → Stage → Type 0
IsBegun n (starting i) = 1 ≤ i
IsBegun n first_bot = 0 < n
IsBegun n (waiting i) = Unit
IsBegun n complete = Unit

pub record IsOrdered (n : ℕ) (s : Startup) : Type 0 where
  pub counted : (j : ℕ) → j < n → IsCounted (s.phases j) (s.promises j)
  pub known : (j : ℕ) → j < n → Knows s.stage j (s.phases j)
  pub begun : IsBegun n s.stage

-- What holds of the old values at the other places and of the new ones at `i` holds after `put`.
pub puts-elim :
    {A B : Type 0} (P : ℕ → A → B → Type 0) (f : ℕ → A) (g : ℕ → B) (i : ℕ) (a : A) (b : B) (j : ℕ)
    → (j ≡ i → P j a b)
    → (j ≢ i → P j (f j) (g j))
    → P j (put f i a j) (put g i b j)
puts-elim P f g i a b j own other = elim (Bool-cases (j == i)) [
  | inl e ↦
      subst (λ x. P j (if x then a else f j) (if x then b else g j)) (sym e) (own (==→eq j i e))
  | inr e ↦
      subst (λ x. P j (if x then a else f j) (if x then b else g j)) (sym e) (other (==→ne j i e))
]

pub put-elim :
    {A : Type 0} (P : ℕ → A → Type 0) (f : ℕ → A) (i : ℕ) (a : A) (j : ℕ)
    → (j ≡ i → P j a)
    → (j ≢ i → P j (f j))
    → P j (put f i a j)
put-elim P f i a j own other = puts-elim (λ k x y. P k x) f f i a a j own other

-- The stage goes on, and the phase of `j` stays.
Knows-start : (i j : ℕ) (f : Phase) → j ≢ i → Knows (starting i) j f → Knows (starting (suc i)) j f
Knows-start i j constructed ne k = ground (arith, ne, k)
Knows-start i j started ne k = ground (arith, k)
Knows-start i j initialized ne k = ground (arith, k)

Knows-all : (n i j : ℕ) (f : Phase) → n ≤ i → j < n → Knows (starting i) j f → Knows first_bot j f
Knows-all n i j constructed le lt k = ground (arith, le, lt, k)
Knows-all n i j started le lt k = ground (arith, k)
Knows-all n i j initialized le lt k = ground (arith, k)

Knows-first : (j : ℕ) (f : Phase) → j ≢ 0 → Knows first_bot j f → Knows (waiting 0) j f
Knows-first j constructed ne k = ne k
Knows-first j started ne k = omega arith
Knows-first j initialized ne k = tt

Knows-begin : (s : Stage) (j : ℕ) → Knows s j started → Knows s j initialized
Knows-begin (starting i) j k = k
Knows-begin first_bot j k = k
Knows-begin (waiting i) j k = tt
Knows-begin complete j k = tt

Knows-see :
    (i j : ℕ) (f : Phase)
    → (j ≡ i → f ≡ initialized)
    → Knows (waiting i) j f
    → Knows (waiting (suc i)) j f
Knows-see i j constructed same k = k
Knows-see i j started same k = ground (arith, same, k)
Knows-see i j initialized same k = tt

Knows-send : (n i j : ℕ) (f : Phase) → n ≤ i → j < n → Knows (waiting i) j f → Knows complete j f
Knows-send n i j constructed le lt k = k
Knows-send n i j started le lt k = omega arith
Knows-send n i j initialized le lt k = tt

-- An uninitialised context is initialised.
IsCounted-initialize :
    (j p : ℕ) (f : Phase) → f ≢ initialized → IsCounted f p → IsCounted initialized (suc p)
IsCounted-initialize j p constructed new c = ap suc c
IsCounted-initialize j p started new c = ap suc c
IsCounted-initialize j p initialized new c = absurd (new refl)

-- A context that is initialised, at any stage.
initialize-IsCounted :
    (n i : ℕ) (f : ℕ → Phase) (p : ℕ → ℕ)
    → (i < n → f i ≢ initialized)
    → ((j : ℕ) → j < n → IsCounted (f j) (p j))
    → (j : ℕ) → j < n
    → IsCounted (put f i initialized j) (put p i (suc (p i)) j)
initialize-IsCounted n i f p new c j lt =
    puts-elim (λ k x y. IsCounted x y) f p i initialized (suc (p i)) j
      (λ e.
        let here = subst (λ k. k < n) e lt in
        IsCounted-initialize i (p i) (f i) (new here) (c i here))
      (λ ne. c j lt)

constructed-new : (f : Phase) → Knows first_bot 0 f → f ≢ initialized
constructed-new constructed k e = ground (arith, e)
constructed-new started k e = ground (arith, k)
constructed-new initialized k e = ground (arith, k)

started-new : (f : Phase) → f ≡ started → f ≢ initialized
started-new f e d = ground (arith, e, d)

-- The service of a bot that is to be started now was not started before.
uncounted : (i p : ℕ) (f : Phase) → Knows (starting i) i f → IsCounted f p → p ≡ 0
uncounted i p constructed k c = c
uncounted i p started k c = c
uncounted i p initialized k c = absurd (ground (arith, k))

Step-IsOrdered : {n : ℕ} {s t : Startup} → Step n s t → IsOrdered n s → IsOrdered n t
Step-IsOrdered {n} (start_service {i} {f} {p} lt) h = record {
  counted = λ j b.
      put-elim (λ k x. IsCounted x (p k)) f i started j
        (λ e.
          let here = subst (λ k. k < n) e b in
          subst (λ k. p k ≡ 0) (sym e)
            (uncounted i (p i) (f i) (h.known i here) (h.counted i here)))
        (λ ne. h.counted j b);
  known = λ j b.
      put-elim (λ k x. Knows (starting (suc i)) k x) f i started j (λ e. ground (arith, e, h.begun))
        (λ ne. Knows-start i j (f j) ne (h.known j b));
  begun = omega arith;
}
Step-IsOrdered {n} (all_started {i} {f} {p} le some_bot) h = record {
  counted = h.counted;
  known = λ j b. Knows-all n i j (f j) le b (h.known j b);
  begun = some_bot;
}
Step-IsOrdered {n} (no_bots {i} {f} {p} e) h = record {
  counted = h.counted;
  known = λ j b. absurd (ground (arith, b, e));
  begun = tt;
}
Step-IsOrdered {n} (initialize_first {f} {p}) h = record {
  counted = initialize-IsCounted n 0 f p (λ b. constructed-new (f 0) (h.known 0 b)) h.counted;
  known = λ j b.
      put-elim (λ k x. Knows (waiting 0) k x) f 0 initialized j (λ e. tt)
        (λ ne. Knows-first j (f j) ne (h.known j b));
  begun = tt;
}
Step-IsOrdered {n} (begin_service {s} {i} {f} {p} lt e) h = record {
  counted = initialize-IsCounted n i f p (λ b. started-new (f i) e) h.counted;
  known = λ j b.
      put-elim (λ k x. Knows s k x) f i initialized j
        (λ same. Knows-begin s j (subst (λ x. Knows s j x) (ap f same ∙ e) (h.known j b)))
        (λ ne. h.known j b);
  begun = h.begun;
}
Step-IsOrdered {n} (see_initialized {i} {f} {p} lt e) h = record {
  counted = h.counted;
  known = λ j b. Knows-see i j (f j) (λ same. ap f same ∙ e) (h.known j b);
  begun = tt;
}
Step-IsOrdered {n} (send_complete {i} {f} {p} le) h = record {
  counted = h.counted;
  known = λ j b. Knows-send n i j (f j) le b (h.known j b);
  begun = tt;
}

pub Steps-IsOrdered : {n k : ℕ} {t : Startup} → Steps n made k t → IsOrdered n t
Steps-IsOrdered none_yet = record {
  counted = λ j b. refl;
  known = λ j b. ground arith;
  begun = omega arith;
}
Steps-IsOrdered (then_step run step) = Step-IsOrdered step (Steps-IsOrdered run)

ready : (f : Phase) (p : ℕ) → Knows complete 0 f → IsCounted f p → (f ≡ initialized) × (p ≡ 1)
ready constructed p k c = absurd k
ready started p k c = absurd k
ready initialized p k c = (refl, c)

-- In whatever order the threads step from when the contexts are made, once the manager has come past
-- sendInitComplete, each bot is initialised and its promise was set exactly once.
pub Steps-ready :
    {n k : ℕ} {t : Startup}
    → Steps n made k t
    → t.stage ≡ complete
    → (j : ℕ) → j < n
    → (t.phases j ≡ initialized) × (t.promises j ≡ 1)
Steps-ready {n} {k} {t} run done j lt =
    let h = Steps-IsOrdered run in
    ready (t.phases j) (t.promises j) (subst (λ s. Knows s j (t.phases j)) done (h.known j lt))
      (h.counted j lt)
