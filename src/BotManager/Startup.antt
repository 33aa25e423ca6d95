-- ===== src/BotManager/Startup.antt =====
-- library/BotManager.cpp, the end of spawnBots, with startService, initialize, waitInitialized and the
-- start of service of library/BotContext.cpp: the manager's thread and the threads of the bots,
-- step by step, until the manager says that it is ready.
pub mod Order
pub mod Progress
use cpp_interface.Prelude.{ℕ, suc, ◌+◌, ◌≡◌, ◌<◌, ◌≤◌, if◌then◌else◌, ◌==◌}

-- A context before its thread is started, one whose thread has not initialised the bot yet, and one
-- whose promise is set.
pub data Phase : Type 0 where
  constructed started initialized : Phase

-- Where the manager is: in the loop that starts the services, at the bot `i`; before it initialises
-- the first bot; in the loop that waits, at the bot `i`; past `sendInitComplete`.
pub data Stage : Type 0 where
  starting : (i : ℕ) → Stage
  first_bot : Stage
  waiting : (i : ℕ) → Stage
  complete : Stage

-- `promises` counts how often `m_intializedPromise` of each context was set.
pub record Startup : Type 0 where
  pub stage : Stage
  pub phases : ℕ → Phase
  pub promises : ℕ → ℕ

abbrev pub put : {A : Type 0} → (ℕ → A) → ℕ → A → ℕ → A
put f k a j = if j == k then a else f j

abbrev pub at : Stage → (ℕ → Phase) → (ℕ → ℕ) → Startup
at s f p = record { stage = s; phases = f; promises = p }

-- `initialize`, of the bot `i`.
abbrev pub initialize : ℕ → Startup → Startup
initialize i s = record s {
  phases = put s.phases i initialized;
  promises = put s.promises i (suc (s.promises i));
}

-- The contexts are made, and the first service to start is that of the second bot.
abbrev pub made : Startup
made = at (starting 1) (λ i. constructed) (λ i. 0)

-- A step of the manager's thread or of the thread of a bot, with `n` bots.
pub data Step (n : ℕ) : Startup → Startup → Type 0 where
  start_service :
      {i : ℕ} {f : ℕ → Phase} {p : ℕ → ℕ}
      → i < n
      → Step n (at (starting i) f p) (at (starting (suc i)) (put f i started) p)
  all_started :
      {i : ℕ} {f : ℕ → Phase} {p : ℕ → ℕ}
      → n ≤ i
      → 0 < n
      → Step n (at (starting i) f p) (at first_bot f p)
  no_bots :
      {i : ℕ} {f : ℕ → Phase} {p : ℕ → ℕ}
      → n ≡ 0
      → Step n (at (starting i) f p) (at (waiting 0) f p)
  initialize_first :
      {f : ℕ → Phase} {p : ℕ → ℕ} → Step n (at first_bot f p) (initialize 0 (at (waiting 0) f p))
  begin_service :
      {s : Stage} {i : ℕ} {f : ℕ → Phase} {p : ℕ → ℕ}
      → i < n
      → f i ≡ started
      → Step n (at s f p) (initialize i (at s f p))
  see_initialized :
      {i : ℕ} {f : ℕ → Phase} {p : ℕ → ℕ}
      → i < n
      → f i ≡ initialized
      → Step n (at (waiting i) f p) (at (waiting (suc i)) f p)
  send_complete :
      {i : ℕ} {f : ℕ → Phase} {p : ℕ → ℕ} → n ≤ i → Step n (at (waiting i) f p) (at complete f p)

-- A run of some steps.
pub data Steps (n : ℕ) (s : Startup) : ℕ → Startup → Type 0 where
  none_yet : Steps n s 0 s
  then_step : {k : ℕ} {t u : Startup} → Steps n s k t → Step n t u → Steps n s (suc k) u
