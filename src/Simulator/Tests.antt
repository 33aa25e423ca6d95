-- ===== src/Simulator/Tests.antt =====
-- A kernel that holds the bytes to come and those that the peer has, and moves two at a time.
use cpp_interface.Prelude.{
  ℕ, zero, suc, ◌≡◌, refl, ◌≤◌, ◌↔◌, Bool, true, false, none, some, List, [], ◌∷◌, ◌++◌, length, ℤ,
  pos, negsuc, arith,
}
use cpp_interface.Sockets.{Kernel, Answer, sys_recv, sys_send, no_name}
use cpp_interface.Simulator.{read_loop, read_all, write_loop, write_all, median_of}
use cpp_interface.Simulator.Transfers.{Delivers, Accepts, read_all-Delivers}

abbrev Net : Type 0
Net = List ℕ × List ℕ

abbrev returns : ℤ → List ℕ → Answer
returns rc bytes = record { rc = rc; errno = 0; addr = no_name; bytes = bytes; revents = [] }

-- `recv` of one byte and of more, from a stream that has none, one, or more.
abbrev received : ℕ → List ℕ → List ℕ → Answer × Net
received zero ins outs = (returns (pos 0) [], (ins, outs))
received (suc n) [] outs = (returns (pos 0) [], ([], outs))
received (suc zero) (x ∷ ins) outs = (returns (pos 1) (x ∷ []), (ins, outs))
received (suc (suc n)) (x ∷ []) outs = (returns (pos 1) (x ∷ []), ([], outs))
received (suc (suc n)) (x ∷ y ∷ ins) outs = (returns (pos 2) (x ∷ y ∷ []), (ins, outs))

abbrev sent : List ℕ → List ℕ → List ℕ → Answer × Net
sent [] ins outs = (returns (negsuc 0) [], (ins, outs))
sent (x ∷ []) ins outs = (returns (pos 1) [], (ins, outs ++ (x ∷ [])))
sent (x ∷ y ∷ xs) ins outs = (returns (pos 2) [], (ins, outs ++ (x ∷ y ∷ [])))

abbrev net : Kernel Net
net (ins, outs) (sys_recv fd size oob) = received size ins outs
net (ins, outs) (sys_send fd bytes) = sent bytes ins outs
net (ins, outs) _ = (returns (pos 0) [], (ins, outs))

reads_five :
    read_all net (pos 3) 5 (1 ∷ 2 ∷ 3 ∷ 4 ∷ 5 ∷ 6 ∷ [], [])
    ≡ some (true, 5, 1 ∷ 2 ∷ 3 ∷ 4 ∷ 5 ∷ [], (6 ∷ [], []))
unfolding read_all read_loop
reads_five = refl

reads_too_much :
    read_all net (pos 3) 5 (1 ∷ 2 ∷ 3 ∷ [], []) ≡ some (false, 3, 1 ∷ 2 ∷ 3 ∷ [], ([], []))
unfolding read_all read_loop
reads_too_much = refl

writes_three :
    write_all net (pos 3) (1 ∷ 2 ∷ 3 ∷ []) ([], 0 ∷ []) ≡ some (true, 3, ([], 0 ∷ 1 ∷ 2 ∷ 3 ∷ []))
unfolding write_all write_loop
writes_three = refl

net-Delivers : Delivers net (pos 3) (λ k. k.0)
net-Delivers zero (ins, outs) = refl
net-Delivers (suc n) ([], outs) = refl
net-Delivers (suc zero) (x ∷ ins, outs) = (refl, omega arith, refl)
net-Delivers (suc (suc n)) (x ∷ [], outs) = (refl, omega arith, refl)
net-Delivers (suc (suc n)) (x ∷ y ∷ ins, outs) = (refl, omega arith, refl)

net-Accepts : Accepts net (pos 3) (λ k. k.1)
net-Accepts [] (ins, outs) = refl
net-Accepts (x ∷ []) (ins, outs) = (omega arith, refl)
net-Accepts (x ∷ y ∷ xs) (ins, outs) = (omega arith, refl)

read_all-Delivers_example :
    (b : Bool) × (new : List ℕ) × (k : Net) × ((read_all net (pos 3) 5 (1 ∷ 2 ∷ 3 ∷ [], [])
        ≡ some (b, length new, new, k))
      × (1 ∷ 2 ∷ 3 ∷ [] ≡ new ++ k.0)
      × (length new ≤ 5)
      × ((b ≡ true) ↔ (length new ≡ 5)))
read_all-Delivers_example =
    read_all-Delivers net (pos 3) (λ k. k.0) 5 (1 ∷ 2 ∷ 3 ∷ [], []) net-Delivers (omega arith)

abbrev delays : List ℕ
delays = 5 ∷ 7 ∷ []

median_of_two : median_of delays ≡ none
unfolding median_of
median_of_two = refl
