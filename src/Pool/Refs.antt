-- ===== src/Pool/Refs.antt =====
-- References: made, copied and reset.
use cpp_interface.Prelude.{
  ℕ, ◌≡◌, refl, ap, ◌∙◌, ◌+◌, ◌<◌, ◌≤◌, ◌^◌, suc, zero, Bool, true, false, none, some, ltb, ◌&&◌,
  if◌then◌else◌, ◌>>=◌, to_u32, arith, inl,
}
use cpp_interface.Pool.{
  Counted, Pool, Ref, update, create, down_from, reset, copy_assign, move_assign, no_ref,
}
use cpp_interface.Pool.Counts.{Fits, IsCounted, occurrences, one_more, one_less, as_nat}
use cpp_interface.Pool.Returns.{at_or_else, put_object-IsCounted}

-- A reference to the object `i`.
abbrev pub ref_to : ℕ → Ref
ref_to i = record { in_pool = true; object = some i }

occurrences-down_from : (j n : ℕ) → occurrences j (down_from n) ≡ as_nat (ltb j n)
unfolding down_from
occurrences-down_from j zero = ground arith
occurrences-down_from j (suc n) = ground (arith, occurrences-down_from j n)

as_nat-and : (b : Bool) → as_nat b ≡ as_nat (b && true && true)
as_nat-and true = refl
as_nat-and false = refl

pub Fits-one_more :
    (h count : ℕ) (preferred : Bool) (front back : ℕ) (made : Bool)
    → Fits h count preferred front back made
    → 1 ≤ h
    → h + 1 < 2 ^ 32
    → Fits (1 + h) (to_u32 (count + 1)) preferred front back made
Fits-one_more h count preferred front back made (c, f, b, m) held small =
    (omega arith, ground arith, ground arith, ground arith)

pub Fits-no_more :
    (h count : ℕ) (preferred : Bool) (front back : ℕ) (made : Bool)
    → Fits h count preferred front back made
    → Fits (0 + h) count preferred front back made
Fits-no_more h count preferred front back made (c, f, b, m) =
    (omega arith, ground arith, ground arith, ground arith)

module _ {T : Type 0} where
  -- A new pool is counted right with no references, and its objects made ahead are free.
  pub create-IsCounted : (init : T) (n : ℕ) → IsCounted (create init n) (λ i. 0)
  unfolding create
  create-IsCounted init n i =
      (refl, ground arith, occurrences-down_from i n ∙ as_nat-and (ltb i n), inl refl)

  pub reset-IsCounted :
      (p : Pool T) (held : ℕ → ℕ) (i : ℕ)
      → IsCounted p held
      → 1 ≤ held i
      → (q : Pool T) × ((reset p (ref_to i) ≡ some (record { in_pool = true; object = none }, q))
          × IsCounted q (one_less held i))
  unfolding reset
  reset-IsCounted p held i ok some_held =
      let (q, (put, counted)) = put_object-IsCounted p held i ok some_held in
      (q, (ap (λ o. o >>= λ r. some (record { in_pool = true; object = none }, r)) put, counted))

  -- A reference to `i` is assigned a copy of another one, to `k`, and both end as references to `k`:
  -- no assertion fails, also if `i` is `k`, and the pool is counted right with one reference to `i`
  -- less and one to `k` more.
  pub copy_assign-IsCounted :
      (p : Pool T) (held : ℕ → ℕ) (i k : ℕ)
      → IsCounted p held
      → 1 ≤ held i
      → 1 ≤ one_less held i k
      → held k + 1 < 2 ^ 32
      → (q : Pool T) × ((copy_assign p (ref_to i) (ref_to k) ≡ some (ref_to k, q))
          × IsCounted q (one_more (one_less held i) k))
  unfolding copy_assign
  copy_assign-IsCounted p held i k ok some_held other_held small =
      let (q, (done, counted)) = reset-IsCounted p held i ok some_held in
      (
        record q { heap = update q.heap k (more (q.heap k)) },
        (
          ap
              (λ o. o >>= λ (r, s).
                some (ref_to k, record s { heap = update s.heap k (more (s.heap k)) }))
              done,
          at_or_else
              (λ j same.
                Fits (as_nat same + one_less held i j)
                  ((if same then more (q.heap k) else q.heap j).count)
                  ((if same then more (q.heap k) else q.heap j).preferred)
                  (occurrences j q.preferred_pool) (occurrences j q.pool) (ltb j q.next))
              k
              (Fits-one_more (one_less held i k) (q.heap k).count (q.heap k).preferred
                (occurrences k q.preferred_pool) (occurrences k q.pool) (ltb k q.next) (counted k)
                other_held (omega (arith, small)))
              (λ j other.
                Fits-no_more (one_less held i j) (q.heap j).count (q.heap j).preferred
                  (occurrences j q.preferred_pool) (occurrences j q.pool) (ltb j q.next)
                  (counted j)),
        ),
      )
    where
      more : Counted T → Counted T
      more c = record c { count = to_u32 (c.count + 1) }

  -- A reference to `i` takes over another one, to `k`, which ends empty: no assertion fails, and
  -- only `i` loses a reference.
  pub move_assign-IsCounted :
      (p : Pool T) (held : ℕ → ℕ) (i k : ℕ)
      → IsCounted p held
      → 1 ≤ held i
      → (q : Pool T) × ((move_assign p (ref_to i) (ref_to k) ≡ some (ref_to k, no_ref, q))
          × IsCounted q (one_less held i))
  unfolding move_assign
  move_assign-IsCounted p held i k ok some_held =
      let (q, (done, counted)) = reset-IsCounted p held i ok some_held in
      (q, (ap (λ o. o >>= λ (r, s). some (ref_to k, no_ref, s)) done, counted))
