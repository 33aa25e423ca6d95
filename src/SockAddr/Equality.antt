-- ===== src/SockAddr/Equality.antt =====
-- When two addresses are equal, and where this differs from the order.
use cpp_interface.Prelude.{
  ℕ, ◌≡◌, ◌≢◌, refl, ap, ap₂, ◌∙◌, sym, ◌↔◌, Bool, true, false, some, List, [], ◌∷◌, ◌++◌, length,
  arith, inl, inr, Bool-cases, ◌==◌, not, if◌then◌else◌, length-append, drop, ==→eq, eq→==,
}
use cpp_interface.SockAddr.{
  Ordering, less, equal, greater, SockAddr, inet, inet6, unspecified, family, compare_nat, or_else,
  strong_mem_compare, ntohs, is_equal, equals, compares,
}
use cpp_interface.SockAddr.Order.{IsInet, compare_nat-ntohs}

-- The address with the padding of `sockaddr_in` forgotten.
abbrev pub without_zero : SockAddr → SockAddr
without_zero (inet p a z) = inet p a []
without_zero (inet6 p f a s) = inet6 p f a s
without_zero (unspecified f) = unspecified f

compare_nat_same : (x : ℕ) → compare_nat x x ≡ equal
compare_nat_same x = ground arith

compare_nat-equal : (x y : ℕ) → compare_nat x y ≡ equal → x ≡ y
compare_nat-equal x y h = ground arith

strong_mem_compare_same : (xs : List ℕ) → strong_mem_compare xs xs ≡ equal
strong_mem_compare_same [] = refl
strong_mem_compare_same (x ∷ xs) = ap₂ or_else (compare_nat_same x) (strong_mem_compare_same xs)

or_else-equals :
    (o p : Ordering) → is_equal (or_else o p) ≡ true → (is_equal o ≡ true) × (is_equal p ≡ true)
or_else-equals less p h = absurd (ground arith)
or_else-equals equal p h = (refl, h)
or_else-equals greater p h = absurd (ground arith)

is_equal_lem : (o : Ordering) → is_equal o ≡ true → o ≡ equal
is_equal_lem less h = absurd (ground arith)
is_equal_lem equal h = refl
is_equal_lem greater h = absurd (ground arith)

strong_mem_compare-equal :
    (xs ys : List ℕ) → length xs ≡ length ys → is_equal (strong_mem_compare xs ys) ≡ true → xs ≡ ys
strong_mem_compare-equal [] [] l h = refl
strong_mem_compare-equal [] (y ∷ ys) l h = absurd (omega arith)
strong_mem_compare-equal (x ∷ xs) [] l h = absurd (omega arith)
strong_mem_compare-equal (x ∷ xs) (y ∷ ys) l h =
    let both = or_else-equals (compare_nat x y) (strong_mem_compare xs ys) h in
    ap₂ ◌∷◌ (compare_nat-equal x y (is_equal_lem (compare_nat x y) both.0))
      (strong_mem_compare-equal xs ys (omega arith) both.1)

abbrev first_or : ℕ → List ℕ → ℕ
first_or d [] = d
first_or d (x ∷ xs) = x

-- Lists in one place of equal ones are equal.
append_split :
    (xs ys us vs : List ℕ) → length xs ≡ length ys → xs ++ us ≡ ys ++ vs → (xs ≡ ys) × (us ≡ vs)
append_split [] [] us vs l h = (refl, h)
append_split [] (y ∷ ys) us vs l h = absurd (omega arith)
append_split (x ∷ xs) [] us vs l h = absurd (omega arith)
append_split (x ∷ xs) (y ∷ ys) us vs l h =
    let rest = append_split xs ys us vs (omega arith) (ap (drop 1) h) in
    (ap₂ ◌∷◌ (ap (first_or 0) h) rest.0, rest.1)

-- Of two IPv6 addresses that differ in the scope only, neither sorts before the other, but they are
-- not equal.
pub compares-equals_scope :
    (p f a s s' : List ℕ)
    → length s ≡ length s'
    → s ≢ s'
    → (compares (inet6 p f a s) (inet6 p f a s') ≡ some equal)
      × (equals (inet6 p f a s) (inet6 p f a s') ≡ some false)
unfolding compares equals
compares-equals_scope p f a s s' l ne = (
  let same : (xs : List ℕ) → strong_mem_compare xs xs ≡ equal = strong_mem_compare_same in
      simp (same a, same f, compare_nat_same (ntohs p)),
  elim (Bool-cases (is_equal (strong_mem_compare (bytes s) (bytes s')))) [
    | inl same_bytes ↦
        let all = strong_mem_compare-equal (bytes s) (bytes s') (length_bytes s s' l) same_bytes in
        absurd (ne (tail all))
    | inr other ↦ ap some other
  ],
)
  where
    bytes : List ℕ → List ℕ
    bytes t = p ++ (f ++ (a ++ t))

    tail : bytes s ≡ bytes s' → s ≡ s'
    tail e =
        (append_split a a s s' refl
          (append_split f f (a ++ s) (a ++ s') refl
            (append_split p p (f ++ (a ++ s)) (f ++ (a ++ s')) refl e).1).1).1

    length_bytes : (t u : List ℕ) → length t ≡ length u → length (bytes t) ≡ length (bytes u)
    length_bytes t u e = omega (
      arith,
      length-append p (f ++ (a ++ t)),
      length-append p (f ++ (a ++ u)),
      length-append f (a ++ t),
      length-append f (a ++ u),
      length-append a t,
      length-append a u,
      e,
    )

-- The bytes that count, and for IPv4 the port and the address.
abbrev bytes_of : SockAddr → List ℕ
bytes_of (inet p a z) = a
bytes_of (inet6 p f a s) = p ++ (f ++ (a ++ s))
bytes_of (unspecified f) = []

abbrev port_of : SockAddr → List ℕ
port_of (inet p a z) = p
port_of (inet6 p f a s) = p
port_of (unspecified f) = []

both_tests : (c d : Bool) → some (if not c then false else d) ≡ some true → (c ≡ true) × (d ≡ true)
both_tests c d h = ground arith

is_equal_same : (xs ys : List ℕ) → xs ≡ ys → is_equal (strong_mem_compare xs ys) ≡ true
is_equal_same xs ys e =
    ap (λ zs. is_equal (strong_mem_compare xs zs)) (sym e)
    ∙ ap is_equal (strong_mem_compare_same xs)

same_inet :
    (p a z p' a' z' : List ℕ)
    → IsInet (inet p a z)
    → IsInet (inet p' a' z')
    → equals (inet p a z) (inet p' a' z') ≡ some true
    → inet p a [] ≡ inet p' a' []
unfolding equals
same_inet p a z p' a' z' h h' e =
    let tests = both_tests (ntohs p == ntohs p') (is_equal (strong_mem_compare a a')) e in
    let ports : strong_mem_compare p p' ≡ equal =
      sym (compare_nat-ntohs p p' h.0 h'.0)
      ∙ ap (compare_nat (ntohs p)) (sym (==→eq (ntohs p) (ntohs p') tests.0))
      ∙ compare_nat_same (ntohs p) in
    ap₂ (λ x y. inet x y [])
      (strong_mem_compare-equal p p' (h.0.0 ∙ sym h'.0.0) (ap is_equal ports))
      (strong_mem_compare-equal a a' (h.1.0 ∙ sym h'.1.0) tests.1)

same_inet6 :
    (p f a s p' f' a' s' : List ℕ)
    → IsInet (inet6 p f a s)
    → IsInet (inet6 p' f' a' s')
    → equals (inet6 p f a s) (inet6 p' f' a' s') ≡ some true
    → inet6 p f a s ≡ inet6 p' f' a' s'
unfolding equals
same_inet6 p f a s p' f' a' s' h h' e =
    let whole : bytes_of (inet6 p f a s) ≡ bytes_of (inet6 p' f' a' s') =
      strong_mem_compare-equal (p ++ (f ++ (a ++ s))) (p' ++ (f' ++ (a' ++ s'))) lengths
        (ground arith) in
    let after_port =
      append_split p p' (f ++ (a ++ s)) (f' ++ (a' ++ s')) (h.0.0 ∙ sym h'.0.0) whole in
    let after_flow = append_split f f' (a ++ s) (a' ++ s') (h.1.0 ∙ sym h'.1.0) after_port.1 in
    let after_addr = append_split a a' s s' (h.2.0 ∙ sym h'.2.0) after_flow.1 in
    λ i. inet6 (after_port.0 i) (after_flow.0 i) (after_addr.0 i) (after_addr.1 i)
  where
    lengths : length (p ++ (f ++ (a ++ s))) ≡ length (p' ++ (f' ++ (a' ++ s')))
    lengths = omega (
      arith,
      length-append p (f ++ (a ++ s)),
      length-append p' (f' ++ (a' ++ s')),
      length-append f (a ++ s),
      length-append f' (a' ++ s'),
      length-append a s,
      length-append a' s',
      h.0.0,
      h'.0.0,
      h.1.0,
      h'.1.0,
      h.2.0,
      h'.2.0,
      h.3.0,
      h'.3.0,
    )

-- Two addresses of the two families are equal for `operator==` just when they are the same
-- up to the padding of an IPv4 address.
equals-same :
    (a b : SockAddr)
    → IsInet a
    → IsInet b
    → (equals a b ≡ some true) ↔ (without_zero a ≡ without_zero b)
unfolding equals
equals-same (inet p a z) (inet p' a' z') h h' = (
  same_inet p a z p' a' z' h h',
  λ e.
      let ports : (ntohs p == ntohs p') ≡ true =
        eq→== (ntohs p) (ntohs p') (ap (λ x. ntohs (port_of x)) e) in
      rw ports (ap some (is_equal_same a a' (ap bytes_of e))),
)
equals-same (inet6 p f a s) (inet6 p' f' a' s') h h' = (
  same_inet6 p f a s p' f' a' s' h h',
  λ e. ap some (is_equal_same (p ++ (f ++ (a ++ s))) (p' ++ (f' ++ (a' ++ s'))) (ap bytes_of e)),
)
equals-same (inet p a z) (inet6 p' f' a' s') h h' =
    (λ e. absurd (ground arith), λ e. absurd (omega (arith, ap family e)))
equals-same (inet6 p f a s) (inet p' a' z') h h' =
    (λ e. absurd (ground arith), λ e. absurd (omega (arith, ap family e)))
equals-same (inet p a z) (unspecified g) h h' = absurd h'
equals-same (inet6 p f a s) (unspecified g) h h' = absurd h'
equals-same (unspecified f) b h h' = absurd h
