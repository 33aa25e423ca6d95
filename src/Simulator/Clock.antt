-- ===== src/Simulator/Clock.antt =====
-- The pace of the ticks, the header of a message, and the statistics of the delays.
use cpp_interface.Prelude.{
  ℕ, ◌≡◌, refl, ◌∙◌, zero, suc, ◌+◌, ◌*◌, ◌/◌, ◌%◌, ◌<◌, ◌≤◌, arith, ◌==◌, none, some, List, [],
  ◌∷◌, length, ◌↔◌, sym, Bool-cases, inl, inr, ==→eq,
}
use cpp_interface.Simulator.{Pace, tick, ticks, at, median_of}

abbrev OnTime : ℕ → Pace → Type 0
OnTime n p = (p.accumulator < 120) × (120 * p.deadline + p.accumulator ≡ 1000000 * n)

tick-OnTime : (n : ℕ) (p : Pace) → OnTime n p → OnTime (suc n) (tick p)
unfolding tick
tick-OnTime n p (small, sum) = (ground arith, ground arith)

ticks-OnTime : (n : ℕ) → OnTime n (ticks n)
unfolding ticks
ticks-OnTime zero = (omega arith, refl)
ticks-OnTime (suc n) = tick-OnTime n (ticks n) (ticks-OnTime n)

-- After any number of ticks the accumulator is below 120, and the deadline is the time of that many
-- ticks at 120 to the second, rounded down to a microsecond: no rounding adds up.
ticks-deadline : (n : ℕ) → ((ticks n).accumulator < 120) × ((ticks n).deadline ≡ 1000000 * n / 120)
ticks-deadline n = let (small, sum) = ticks-OnTime n in (small, omega (arith, small, sum))

is_none : {B : Type 0} {b : B} → none ≡ some b → ⊥
is_none e = ground (arith, e)

module _ {A : Type 0} where
  at-none : (xs : List A) (i : ℕ) → length xs ≤ i → at xs i ≡ none
  at-none [] i h = refl
  at-none (x ∷ xs) zero h = absurd (omega (arith, h))
  at-none (x ∷ xs) (suc i) h = at-none xs i (omega (arith, h))

  at-some : (xs : List A) (i : ℕ) → i < length xs → (x : A) × (at xs i ≡ some x)
  at-some [] i h = absurd (omega (arith, h))
  at-some (x ∷ xs) zero h = (x, refl)
  at-some (x ∷ xs) (suc i) h = at-some xs i (omega (arith, h))

  -- Of some delays the statistics read only entries that are there, unless there are two delays: then
  -- the median reads past the end.
  median_of-bounds :
      (delays : List A) → 1 ≤ length delays → ((median_of delays ≡ none) ↔ (length delays ≡ 2))
  unfolding median_of
  median_of-bounds delays some_delays = elim (Bool-cases (length delays % 2 == 0)) [
    | inr odd ↦
        let (x, e) = at-some delays (length delays / 2) (omega (arith, some_delays)) in
        (
          λ h.
              let read : median_of delays ≡ some (x, x) = rw (odd, e) refl in
              absurd (is_none (sym h ∙ read)),
          λ h. absurd (ground (arith, odd, h)),
        )
    | inl even ↦
        let (x, e) = at-some delays (length delays / 2) (omega (arith, some_delays)) in
        (
          λ h. elim (Bool-cases (length delays == 2)) [
            | inl two ↦ ==→eq (length delays) 2 two
            | inr more ↦
                let (y, e') =
                  at-some delays (length delays / 2 + 1)
                    (ground (arith, even, more, some_delays)) in
                let read : median_of delays ≡ some (x, y) = rw (even, e, e') refl in
                absurd (is_none (sym h ∙ read))
          ],
          λ h. rw (even, e, at-none delays (length delays / 2 + 1) (omega (arith, h))) refl,
        )
  ]
