-- ===== src/Simulator.antt =====
-- benchmark/Simulator.cpp: the server that the library is measured against; its transfers over the
-- socket, its clock and its statistics. The system calls are those of the kernel of `Sockets`.
pub mod Transfers
pub mod Clock
pub mod Listening
pub mod Run
pub mod Ticks
pub mod Protocol
pub mod Completion
mod Tests
mod RunTests
use cpp_interface.Prelude.{
  ℕ, zero, suc, ◌+◌, ◌-◌, ◌*◌, ◌/◌, ◌%◌, Bool, true, false, Option, none, some, List, [], ◌∷◌, ◌++◌,
  ◌==◌, ltb, leb, if◌then◌else◌, ◌>>=◌, length, ℤ, pos, negsuc, to_u8, to_u32, drop, add_size,
}
use cpp_interface.Buffer.{slice}
use cpp_interface.Sockets.{Kernel, sys_recv, sys_send}

-- `rc`, if it is positive.
abbrev pub progress : ℤ → Option ℕ
progress (pos zero) = none
progress (pos (suc n)) = some (suc n)
progress (negsuc n) = none

abbrev pub tps : ℕ
tps = 120

-- The accumulator, and the microseconds from the start to the deadline of the last tick.
pub record Pace : Type 0 where
  pub accumulator : ℕ
  pub deadline : ℕ

-- One turn of the loop of `run`, up to the wait; `unsigned long` has 64 bits.
unfoldable pub tick : Pace → Pace
tick p =
    let accumulator = to_u32 (p.accumulator + 1000000 % tps) in
    if leb tps accumulator
    then record { accumulator = accumulator - tps; deadline = p.deadline + (1000000 / tps + 1) }
    else record { accumulator = accumulator; deadline = p.deadline + 1000000 / tps }

unfoldable pub ticks : ℕ → Pace
unfolding tick
ticks zero = record { accumulator = 0; deadline = 0 }
ticks (suc n) = tick (ticks n)

-- `m_delays[i]`; `none` is out of bounds.
abbrev pub at : {A : Type 0} → List A → ℕ → Option A
at [] i = none
at (x ∷ xs) zero = some x
at (x ∷ xs) (suc i) = at xs i

-- The entries that the destructor takes the mean of for the median.
unfoldable pub median_of : {A : Type 0} → List A → Option (A × A)
median_of delays =
    let mid = length delays / 2 in
    if length delays % 2 == 0
    then (at delays mid >>= λ low. at delays (mid + 1) >>= λ high. some (low, high))
    else (at delays mid >>= λ middle. some (middle, middle))

module _ {K : Type 0} (kernel : Kernel K) where
  -- The loop of `readAll`: whether all was read, the bytes that are in the buffer, and how many
  -- there are. `none` says that the fuel runs out.
  unfoldable pub read_loop :
      ℕ → (sock : ℤ) → (size count : ℕ) → (buffer : List ℕ) → K → Option (Bool × ℕ × List ℕ × K)
  read_loop zero sock size count buffer k =
      if ltb count size then none else some (true, count, buffer, k)
  read_loop (suc fuel) sock size count buffer k =
      let (a, k') = kernel k (sys_recv sock (size - count) false) in
      if ltb count size
      then elim (progress a.rc) [
        | none ↦ some (false, count, buffer, k')
        | some n ↦ read_loop fuel sock size (add_size count n) (buffer ++ a.bytes) k'
      ]
      else some (true, count, buffer, k)

  unfoldable pub read_all : (sock : ℤ) → (size : ℕ) → K → Option (Bool × ℕ × List ℕ × K)
  unfolding read_loop
  read_all sock size k = read_loop size sock size 0 [] k

  -- The loop of `writeAll`, with how much was written.
  unfoldable pub write_loop :
      ℕ → (sock : ℤ) → (buffer : List ℕ) → (count : ℕ) → K → Option (Bool × ℕ × K)
  write_loop zero sock buffer count k =
      if ltb count (length buffer) then none else some (true, count, k)
  write_loop (suc fuel) sock buffer count k =
      let (a, k') = kernel k (sys_send sock (drop count buffer)) in
      if ltb count (length buffer)
      then elim (progress a.rc) [
        | none ↦ some (false, count, k')
        | some n ↦ write_loop fuel sock buffer (add_size count n) k'
      ]
      else some (true, count, k)

  unfoldable pub write_all : (sock : ℤ) → (buffer : List ℕ) → K → Option (Bool × ℕ × K)
  unfolding write_loop
  write_all sock buffer k = write_loop (length buffer) sock buffer 0 k
