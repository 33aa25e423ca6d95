-- ===== src/BotManager/StartupTests.antt =====
-- The start of one bot and of two.
use cpp_interface.Prelude.{◌≡◌, refl, ◌+◌, ◌*◌, ◌≤◌, ◌⊎◌, arith}
use cpp_interface.BotManager.Startup.{
  constructed, started, initialized, complete, Startup, put, at, made, Step, start_service,
  all_started, initialize_first, begin_service, see_initialized, send_complete, Steps, none_yet,
  then_step,
}
use cpp_interface.BotManager.Startup.Order.{Steps-ready}
use cpp_interface.BotManager.Startup.Progress.{Steps-goes_on}

-- The thread of the second bot starts while the manager waits for the first one.
abbrev two_ready : Startup
two_ready =
    at complete (put (put (put (λ i. constructed) 1 started) 0 initialized) 1 initialized)
      (put (put (λ i. 0) 0 1) 1 1)

two-Steps : Steps 2 made 7 two_ready
two-Steps =
    then_step
      (then_step
        (then_step
          (then_step
            (then_step
              (then_step (then_step none_yet (start_service (omega arith)))
                (all_started (omega arith) (omega arith)))
              initialize_first)
            (see_initialized (omega arith) refl))
          (begin_service (omega arith) refl))
        (see_initialized (omega arith) refl))
      (send_complete (omega arith))

Steps-ready_example : (two_ready.phases 1 ≡ initialized) × (two_ready.promises 1 ≡ 1)
Steps-ready_example = Steps-ready two-Steps refl 1 (omega arith)

Steps-goes_on_example :
    (7 ≤ 3 * 2 + 2) × ((two_ready.stage ≡ complete) ⊎ ((u : Startup) × Step 2 two_ready u))
Steps-goes_on_example = Steps-goes_on two-Steps
