-- ===== src/SockAddr/Order.antt =====
-- The order of addresses, as the order of the bytes of a key.
use cpp_interface.Prelude.{
  ℕ, ◌≡◌, refl, ap, ap₂, ◌∙◌, sym, ◌+◌, ◌*◌, ◌<◌, some, List, [], ◌∷◌, ◌++◌, length, All, arith,
}
use cpp_interface.SockAddr.{
  Ordering, less, equal, greater, SockAddr, inet, inet6, unspecified, af_inet, af_inet6,
  compare_nat, or_else, strong_mem_compare, ntohs, compares,
}

abbrev pub IsByte : ℕ → Type 0
IsByte b = b < 256

abbrev pub IsField : ℕ → List ℕ → Type 0
IsField n bytes = (length bytes ≡ n) × All IsByte bytes

-- The fields have their widths, and the family is one of the two.
abbrev pub IsInet : SockAddr → Type 0
IsInet (inet p a z) = IsField 2 p × IsField 4 a
IsInet (inet6 p f a s) = IsField 2 p × IsField 4 f × IsField 16 a × IsField 4 s
IsInet (unspecified f) = ⊥

-- What an address is sorted by; the scope is not part of it.
abbrev pub sort_key : SockAddr → List ℕ
sort_key (inet p a z) = af_inet ∷ a ++ p
sort_key (inet6 p f a s) = af_inet6 ∷ a ++ (p ++ f)
sort_key (unspecified f) = f ∷ []

pub strong_mem_compare-append :
    (xs ys us vs : List ℕ)
    → length xs ≡ length ys
    → strong_mem_compare (xs ++ us) (ys ++ vs)
      ≡ or_else (strong_mem_compare xs ys) (strong_mem_compare us vs)
strong_mem_compare-append [] [] us vs h = refl
strong_mem_compare-append [] (y ∷ ys) us vs h = absurd (omega arith)
strong_mem_compare-append (x ∷ xs) [] us vs h = absurd (omega arith)
strong_mem_compare-append (x ∷ xs) (y ∷ ys) us vs h =
    ap (or_else (compare_nat x y)) (strong_mem_compare-append xs ys us vs (omega arith))
    ∙ sym (or_else_assoc (compare_nat x y) (strong_mem_compare xs ys) (strong_mem_compare us vs))
  where
    or_else_assoc : (a b c : Ordering) → or_else (or_else a b) c ≡ or_else a (or_else b c)
    or_else_assoc less b c = refl
    or_else_assoc equal b c = refl
    or_else_assoc greater b c = refl

or_else_same : (o : Ordering) → or_else o o ≡ o
or_else_same less = refl
or_else_same equal = refl
or_else_same greater = refl

or_else-equal : (o : Ordering) → or_else o equal ≡ o
or_else-equal less = refl
or_else-equal equal = refl
or_else-equal greater = refl

pub compare_nat-ntohs :
    (p q : List ℕ)
    → IsField 2 p
    → IsField 2 q
    → compare_nat (ntohs p) (ntohs q) ≡ strong_mem_compare p q
compare_nat-ntohs [] q hp hq = absurd (omega (arith, hp.0))
compare_nat-ntohs (a ∷ []) q hp hq = absurd (omega (arith, hp.0))
compare_nat-ntohs (a ∷ b ∷ x ∷ xs) q hp hq = absurd (omega (arith, hp.0))
compare_nat-ntohs (a ∷ b ∷ []) [] hp hq = absurd (omega (arith, hq.0))
compare_nat-ntohs (a ∷ b ∷ []) (c ∷ []) hp hq = absurd (omega (arith, hq.0))
compare_nat-ntohs (a ∷ b ∷ []) (c ∷ d ∷ y ∷ ys) hp hq = absurd (omega (arith, hq.0))
compare_nat-ntohs (a ∷ b ∷ []) (c ∷ d ∷ []) hp hq =
    bytes a b c d hp.1.0 hp.1.1.0 hq.1.0 hq.1.1.0
    ∙ ap (or_else (compare_nat a c)) (sym (or_else-equal (compare_nat b d)))
  where
    bytes :
        (a b c d : ℕ)
        → a < 256
        → b < 256
        → c < 256
        → d < 256
        → compare_nat (a * 256 + b) (c * 256 + d) ≡ or_else (compare_nat a c) (compare_nat b d)
    bytes a b c d ha hb hc hd = ground arith

-- Two addresses of the two families compare as their sort keys do byte by byte: by the family, the
-- address, the port, and for IPv6 the flow information.
pub compares-sort_key :
    (a b : SockAddr)
    → IsInet a
    → IsInet b
    → compares a b ≡ some (strong_mem_compare (sort_key a) (sort_key b))
unfolding compares
compares-sort_key (inet p a z) (inet p' a' z') h h' = ap some (
    ap (or_else (strong_mem_compare a a')) (compare_nat-ntohs p p' h.0 h'.0)
    ∙ sym (strong_mem_compare-append a a' p p' (h.1.0 ∙ sym h'.1.0)))
compares-sort_key (inet6 p f a s) (inet6 p' f' a' s') h h' = ap some (
    ap₂ (λ x y. or_else (strong_mem_compare a a') (or_else x y)) (compare_nat-ntohs p p' h.0 h'.0)
      (or_else_same (strong_mem_compare f f'))
    ∙ ap (or_else (strong_mem_compare a a'))
        (sym (strong_mem_compare-append p p' f f' (h.0.0 ∙ sym h'.0.0)))
    ∙ sym (strong_mem_compare-append a a' (p ++ f) (p' ++ f') (h.2.0 ∙ sym h'.2.0)))
compares-sort_key (inet p a z) (inet6 p' f' a' s') h h' = refl
compares-sort_key (inet6 p f a s) (inet p' a' z') h h' = refl
compares-sort_key (inet p a z) (unspecified g) h h' = absurd h'
compares-sort_key (inet6 p f a s) (unspecified g) h h' = absurd h'
compares-sort_key (unspecified f) b h h' = absurd h

abbrev pub opposite : Ordering → Ordering
opposite less = greater
opposite equal = equal
opposite greater = less

strong_mem_compare_swap :
    (xs ys : List ℕ) → strong_mem_compare ys xs ≡ opposite (strong_mem_compare xs ys)
strong_mem_compare_swap [] [] = refl
strong_mem_compare_swap [] (y ∷ ys) = refl
strong_mem_compare_swap (x ∷ xs) [] = refl
strong_mem_compare_swap (x ∷ xs) (y ∷ ys) =
    ap₂ or_else (compare_nat_swap x y) (strong_mem_compare_swap xs ys)
    ∙ or_else-opposite (compare_nat x y) (strong_mem_compare xs ys)
  where
    compare_nat_swap : (x y : ℕ) → compare_nat y x ≡ opposite (compare_nat x y)
    compare_nat_swap x y = ground arith

    or_else-opposite : (o p : Ordering) → or_else (opposite o) (opposite p) ≡ opposite (or_else o p)
    or_else-opposite less p = refl
    or_else-opposite equal p = refl
    or_else-opposite greater p = refl

-- The two ways to compare two addresses of the two families both give a result, and opposite ones.
pub compares_swap :
    (a b : SockAddr)
    → IsInet a
    → IsInet b
    → (o : Ordering) × ((compares a b ≡ some o) × (compares b a ≡ some (opposite o)))
compares_swap a b h h' = (
  strong_mem_compare (sort_key a) (sort_key b),
  (
    compares-sort_key a b h h',
    compares-sort_key b a h' h ∙ ap some (strong_mem_compare_swap (sort_key a) (sort_key b)),
  ),
)
