-- ===== src/Pool/Counts.antt =====
-- The counts of the objects, and that an object is free just when nothing refers to it.
use cpp_interface.Prelude.{
  ℕ, ◌≡◌, refl, ap, sym, ◌+◌, ◌-◌, suc, Bool, true, false, some, List, [], ◌∷◌, ◌==◌, ltb, not,
  ◌&&◌, if◌then◌else◌, arith, Bool-cases, inl, inr, ◌⊎◌, ==→eq, eq→==, subst,
}
use cpp_interface.Pool.{Counted, Pool, update, constructed, take_object}

abbrev pub as_nat : Bool → ℕ
as_nat true = 1
as_nat false = 0

-- How often an object stands in a list.
abbrev pub occurrences : ℕ → List ℕ → ℕ
occurrences i [] = 0
occurrences i (j ∷ js) = as_nat (i == j) + occurrences i js

-- An object with `h` references: it is counted right; if it was constructed and has no reference
-- it stands once in the list of its kind, and else in neither list.
abbrev pub Fits : ℕ → (count : ℕ) → Bool → (in_preferred in_pool : ℕ) → Bool → Type 0
Fits h count preferred in_preferred in_pool is_made =
    (count ≡ h)
    × (in_preferred ≡ as_nat (is_made && (h == 0) && preferred))
    × (in_pool ≡ as_nat (is_made && (h == 0) && not preferred))
    × ((h ≡ 0) ⊎ (is_made ≡ true))

-- The object taken from the list of preferred ones has one reference more.
Fits-preferred :
    (same : Bool) (h count : ℕ) (preferred : Bool) (front back : ℕ) (made : Bool)
    → Fits h count preferred (as_nat same + front) back made
    → Fits (as_nat same + h) (count + as_nat same) preferred front back made
Fits-preferred false h count preferred front back made (c, f, b, m) =
    (omega arith, ground arith, ground arith, ground arith)
Fits-preferred true h count false front back made (c, f, b, m) =
    (omega arith, ground arith, ground arith, ground arith)
Fits-preferred true h count true front back false (c, f, b, m) =
    (omega arith, ground arith, ground arith, ground arith)
Fits-preferred true h count true front back true (c, f, b, m) =
    (omega arith, ground arith, ground arith, ground arith)

Fits-plain :
    (same : Bool) (h count : ℕ) (preferred : Bool) (front back : ℕ) (made : Bool)
    → Fits h count preferred front (as_nat same + back) made
    → Fits (as_nat same + h) (count + as_nat same) preferred front back made
Fits-plain false h count preferred front back made (c, f, b, m) =
    (omega arith, ground arith, ground arith, ground arith)
Fits-plain true h count true front back made (c, f, b, m) =
    (omega arith, ground arith, ground arith, ground arith)
Fits-plain true h count false front back false (c, f, b, m) =
    (omega arith, ground arith, ground arith, ground arith)
Fits-plain true h count false front back true (c, f, b, m) =
    (omega arith, ground arith, ground arith, ground arith)

pub as_nat_same : (i : ℕ) → as_nat (i == i) ≡ 1
as_nat_same i = ap as_nat (eq→== i i refl)

-- A listed object has no reference, and is of its list's kind.
first_preferred :
    (h count : ℕ) (preferred : Bool) (front back : ℕ) (made : Bool)
    → Fits h count preferred (1 + front) back made
    → (h ≡ 0) × (count ≡ 0) × (((count == 0) && preferred) ≡ true)
first_preferred h count preferred front back made (c, f, b, m) =
    (ground arith, ground arith, ground arith)

first_plain :
    (h count : ℕ) (preferred : Bool) (front back : ℕ) (made : Bool)
    → Fits h count preferred front (1 + back) made
    → (h ≡ 0) × (count ≡ 0) × (((count == 0) && not preferred) ≡ true)
first_plain h count preferred front back made (c, f, b, m) =
    (ground arith, ground arith, ground arith)

-- The next number is the new object's, and the others stay.
Fits-new :
    (h count : ℕ) (preferred : Bool) (j n : ℕ)
    → Fits h count preferred 0 0 (ltb j n)
    → (j == n) ≡ false
    → Fits (0 + h) (count + 0) preferred 0 0 (ltb j (suc n))
Fits-new h count preferred j n (c, f, b, m) other =
    (omega arith, ground arith, ground arith, ground arith)

Fits-made :
    (h count : ℕ) (preferred : Bool) (n : ℕ)
    → Fits h count preferred 0 0 (ltb n n)
    → (h ≡ 0) × Fits (1 + h) 1 false 0 0 (ltb n (suc n))
Fits-made h count preferred n (c, f, b, m) =
    (ground arith, (ground arith, ground arith, ground arith, ground arith))

module _ {T : Type 0} where
  -- `held` says how many references there are to each object.
  abbrev pub IsCounted : Pool T → (ℕ → ℕ) → Type 0
  IsCounted p held =
      (i : ℕ)
      → Fits (held i) ((p.heap i).count) ((p.heap i).preferred) (occurrences i p.preferred_pool)
          (occurrences i p.pool) (ltb i p.next)

abbrev pub one_more : (ℕ → ℕ) → ℕ → ℕ → ℕ
one_more held i j = as_nat (j == i) + held j

abbrev pub one_less : (ℕ → ℕ) → ℕ → ℕ → ℕ
one_less held i j = held j - as_nat (j == i)

module _ {T : Type 0} where
  abbrev pub pool_of : (ℕ → Counted T) → ℕ → List ℕ → List ℕ → ℕ → Pool T
  pool_of h n is js w = record { heap = h; next = n; preferred_pool = is; pool = js; watermark = w }

  -- The object `i` is taken out of `p`, and counted next.
  abbrev pub Takes : T → Pool T → (ℕ → ℕ) → Type 0
  Takes init p held =
      (i : ℕ) × (q : Pool T) × ((take_object init p ≡ some (i, q))
        × (held i ≡ 0)
        × ((q.heap i).count ≡ 0)
        × ((j : ℕ)
            → Fits (one_more held i j) ((q.heap j).count + as_nat (j == i)) ((q.heap j).preferred)
                (occurrences j q.preferred_pool) (occurrences j q.pool) (ltb j q.next)))

  take_preferred :
      (init : T) (h : ℕ → Counted T) (n i : ℕ) (is js : List ℕ) (w : ℕ) (held : ℕ → ℕ)
      → IsCounted (pool_of h n (i ∷ is) js w) held
      → Takes init (pool_of h n (i ∷ is) js w) held
  unfolding take_object
  take_preferred init h n i is js w held ok =
      let ok_i : Fits (held i) (h i).count (h i).preferred (1 + occurrences i is) (occurrences i js)
          (ltb i n) =
        subst
          (λ k.
            Fits (held i) (h i).count (h i).preferred (k + occurrences i is) (occurrences i js)
              (ltb i n))
          (as_nat_same i) (ok i) in
      let first =
        first_preferred (held i) (h i).count (h i).preferred (occurrences i is) (occurrences i js)
          (ltb i n) ok_i in
      (
        i,
        pool_of h n is js w,
        (
          rw first.2 refl,
          first.0,
          first.1,
          λ j.
              Fits-preferred (j == i) (held j) (h j).count (h j).preferred (occurrences j is)
                (occurrences j js) (ltb j n) (ok j),
        ),
      )

  take_plain :
      (init : T) (h : ℕ → Counted T) (n i : ℕ) (js : List ℕ) (w : ℕ) (held : ℕ → ℕ)
      → IsCounted (pool_of h n [] (i ∷ js) w) held
      → Takes init (pool_of h n [] (i ∷ js) w) held
  unfolding take_object
  take_plain init h n i js w held ok =
      let ok_i : Fits (held i) (h i).count (h i).preferred 0 (1 + occurrences i js) (ltb i n) =
        subst (λ k. Fits (held i) (h i).count (h i).preferred 0 (k + occurrences i js) (ltb i n))
          (as_nat_same i) (ok i) in
      let first =
        first_plain (held i) (h i).count (h i).preferred 0 (occurrences i js) (ltb i n) ok_i in
      (
        i,
        pool_of h n [] js w,
        (
          rw first.2 refl,
          first.0,
          first.1,
          λ j.
              Fits-plain (j == i) (held j) (h j).count (h j).preferred 0 (occurrences j js)
                (ltb j n) (ok j),
        ),
      )

  take_new :
      (init : T) (h : ℕ → Counted T) (n w : ℕ) (held : ℕ → ℕ)
      → IsCounted (pool_of h n [] [] w) held
      → Takes init (pool_of h n [] [] w) held
  unfolding take_object
  take_new init h n w held ok =
      let made = Fits-made (held n) (h n).count (h n).preferred n (ok n) in
      (
        n,
        pool_of (update h n (constructed init)) (suc n) [] [] w,
        (refl, made.0, rw (eq→== n n refl) refl, λ j. others made.1 j (Bool-cases (j == n))),
      )
    where
      others :
          Fits (1 + held n) 1 false 0 0 (ltb n (suc n))
          → (j : ℕ) → ((j == n) ≡ true) ⊎ ((j == n) ≡ false)
          → Fits
              (as_nat (j == n) + held j)
              ((if j == n then constructed init else h j).count + as_nat (j == n))
              ((if j == n then constructed init else h j).preferred)
              0
              0
              (ltb j (suc n))
      others made j (inl same) =
          rw same
            (subst (λ k. Fits (1 + held k) 1 false 0 0 (ltb k (suc n))) (sym (==→eq j n same)) made)
      others made j (inr other) =
          rw other (Fits-new (held j) (h j).count (h j).preferred j n (ok j) other)

  pub take_object-Takes :
      (init : T) (h : ℕ → Counted T) (n : ℕ) (is js : List ℕ) (w : ℕ) (held : ℕ → ℕ)
      → IsCounted (pool_of h n is js w) held
      → Takes init (pool_of h n is js w) held
  take_object-Takes init h n (i ∷ is) js w held ok = take_preferred init h n i is js w held ok
  take_object-Takes init h n [] (i ∷ js) w held ok = take_plain init h n i js w held ok
  take_object-Takes init h n [] [] w held ok = take_new init h n w held ok
