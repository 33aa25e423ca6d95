-- ===== src/BotContext/Wakeup.antt =====
-- library/BotContext.cpp, service with wait and notify: the thread of a bot and those that wake it,
-- step by step. A step is what happens without another thread in between.
use cpp_interface.Prelude.{ℕ, suc, ◌≡◌, ◌≤◌, refl, Bool, true, false, ◌⊎◌, inl, inr, arith}

-- Where the thread of the bot is: before the test of `m_quit`; in `serviceLoop` with the mutex; in
-- it without the mutex; past both tests of the inner loop, still with the mutex; in `m_cv.wait`;
-- at its end.
pub data Place : Type 0 where
  outer holding processing about_to_wait waiting finished : Place

-- `notices` counts the threads that are about to call `notify_one`.
pub record Service : Type 0 where
  pub place : Place
  pub work : Bool
  pub quit : Bool
  pub notices : ℕ

abbrev pub at : Place → Bool → Bool → ℕ → Service
at p w q n = record { place = p; work = w; quit = q; notices = n }

-- `notify_one`: a waiting thread goes back into `serviceLoop`, and otherwise nothing happens.
abbrev pub notified : Place → Place
notified waiting = holding
notified outer = outer
notified holding = holding
notified processing = processing
notified about_to_wait = about_to_wait
notified finished = finished

-- A setter needs the mutex.
abbrev pub IsUnlocked : Place → Type 0
IsUnlocked outer = Unit
IsUnlocked holding = ⊥
IsUnlocked processing = Unit
IsUnlocked about_to_wait = ⊥
IsUnlocked waiting = Unit
IsUnlocked finished = Unit

pub data Step : Service → Service → Type 0 where
  see_quit : {w : Bool} {n : ℕ} → Step (at outer w true n) (at finished w true n)
  enter : {w : Bool} {n : ℕ} → Step (at outer w false n) (at holding w false n)
  take_work : {q : Bool} {n : ℕ} → Step (at holding true q n) (at processing false q n)
  process : {w q : Bool} {n : ℕ} → Step (at processing w q n) (at outer w q n)
  find_nothing : {n : ℕ} → Step (at holding false false n) (at about_to_wait false false n)
  leave : {n : ℕ} → Step (at holding false true n) (at outer false true n)
  sleep : {w q : Bool} {n : ℕ} → Step (at about_to_wait w q n) (at waiting w q n)
  wake_up : {w q : Bool} {n : ℕ} → Step (at waiting w q n) (at holding w q n)
  post : {p : Place} {w q : Bool} {n : ℕ} → IsUnlocked p → Step (at p w q n) (at p true q (suc n))
  quit_now : {p : Place} {w q : Bool} {n : ℕ} → Step (at p w q n) (at p w true (suc n))
  notify : {p : Place} {w q : Bool} {n : ℕ} → Step (at p w q (suc n)) (at (notified p) w q n)

pub data Steps : Service → Service → Type 0 where
  done : {s : Service} → Steps s s
  step : {s t u : Service} → Step s t → Steps t u → Steps s u

-- If the thread waits while there is work, someone is about to wake it; and no work comes between its
-- tests and its wait.
abbrev pub IsHeard : Place → Bool → ℕ → Type 0
IsHeard outer w n = Unit
IsHeard holding w n = Unit
IsHeard processing w n = Unit
IsHeard about_to_wait w n = w ≡ false
IsHeard waiting w n = (w ≡ false) ⊎ (1 ≤ n)
IsHeard finished w n = Unit

abbrev pub Heard : Service → Type 0
Heard s = IsHeard s.place s.work s.notices

IsHeard-more : (p : Place) (w : Bool) (n : ℕ) → IsHeard p w n → IsHeard p w (suc n)
IsHeard-more outer w n h = tt
IsHeard-more holding w n h = tt
IsHeard-more processing w n h = tt
IsHeard-more about_to_wait w n h = h
IsHeard-more waiting w n h = inr (omega arith)
IsHeard-more finished w n h = tt

IsHeard-post : (p : Place) (w : Bool) (n : ℕ) → IsUnlocked p → IsHeard p true (suc n)
IsHeard-post outer w n u = tt
IsHeard-post holding w n u = absurd u
IsHeard-post processing w n u = tt
IsHeard-post about_to_wait w n u = absurd u
IsHeard-post waiting w n u = inr (omega arith)
IsHeard-post finished w n u = tt

IsHeard-notified : (p : Place) (w : Bool) (n : ℕ) → IsHeard p w (suc n) → IsHeard (notified p) w n
IsHeard-notified outer w n h = tt
IsHeard-notified holding w n h = tt
IsHeard-notified processing w n h = tt
IsHeard-notified about_to_wait w n h = h
IsHeard-notified waiting w n h = tt
IsHeard-notified finished w n h = tt

Step-Heard : {s t : Service} → Step s t → Heard s → Heard t
Step-Heard see_quit h = tt
Step-Heard enter h = tt
Step-Heard take_work h = tt
Step-Heard process h = tt
Step-Heard find_nothing h = refl
Step-Heard leave h = tt
Step-Heard sleep h = inl h
Step-Heard wake_up h = tt
Step-Heard (post {p} {w} {q} {n} u) h = IsHeard-post p w n u
Step-Heard (quit_now {p} {w} {q} {n}) h = IsHeard-more p w n h
Step-Heard (notify {p} {w} {q} {n}) h = IsHeard-notified p w n h

pub Steps-Heard : {s t : Service} → Steps s t → Heard s → Heard t
Steps-Heard done h = h
Steps-Heard (step a rest) h = Steps-Heard rest (Step-Heard a h)

-- In every run from the start of the thread, if the thread waits while there is work then someone is
-- about to wake it.
pub work-IsHeard :
    (w q : Bool) (n : ℕ) → Steps (at outer false false 0) (at waiting w q n) → (w ≡ false) ⊎ (1 ≤ n)
work-IsHeard w q n run = Steps-Heard run tt

-- From every state between the tests and the wait, terminate and its notify can run before the wait
-- begins: then the thread waits with the flag set, with nobody more about to wake it than before and
-- no work.
pub quit_unheard : (n : ℕ) → Steps (at about_to_wait false false n) (at waiting false true n)
quit_unheard n = step quit_now (step notify (step sleep done))
