-- ===== src/Pool/Returns.antt =====
-- Objects that are handed out and that come back, with their counts.
use cpp_interface.Prelude.{
  ℕ, ◌≡◌, refl, ap, sym, ◌+◌, ◌-◌, ◌<◌, ◌≤◌, Bool, true, false, some, ◌==◌, ltb, if◌then◌else◌,
  ◌>>=◌, to_u32, arith, Bool-cases, inl, inr, ==→eq, eq→==, subst,
}
use cpp_interface.Pool.{Pool, update, claim, get_object, release, recycle, put_object}
use cpp_interface.Pool.Counts.{
  Fits, IsCounted, occurrences, one_more, one_less, as_nat, as_nat_same, take_object-Takes,
}

-- What holds at `i`, and at all others with a test that fails, holds everywhere with the test.
pub at_or_else :
    (P : ℕ → Bool → Type 0) (i : ℕ)
    → P i true
    → ((j : ℕ) → (j == i) ≡ false → P j false)
    → (j : ℕ) → P j (j == i)
at_or_else P i here there j = elim (Bool-cases (j == i)) [
  | inl same ↦ subst (P j) (sym same) (subst (λ k. P k true) (sym (==→eq j i same)) here)
  | inr other ↦ subst (P j) (sym other) (there j other)
]

Fits-kept :
    (h count : ℕ) (preferred : Bool) (front back : ℕ) (made : Bool)
    → Fits h count preferred front back made
    → Fits (h - 0) count preferred front back made
Fits-kept h count preferred front back made (c, f, b, m) =
    (omega arith, ground arith, ground arith, ground arith)

Fits-released :
    (h count : ℕ) (preferred : Bool) (front back : ℕ) (made : Bool)
    → Fits h count preferred front back made
    → 1 < count
    → Fits (h - 1) (count - 1) preferred front back made
Fits-released h count preferred front back made (c, f, b, m) many =
    (omega arith, ground arith, ground arith, ground arith)

-- The last reference goes, and the object is listed with its kind.
Fits-recycled :
    (h count : ℕ) (preferred : Bool) (front back : ℕ) (made : Bool)
    → Fits h count preferred front back made
    → count ≡ 1
    → Fits
        (h - 1)
        (count - 1)
        preferred
        (if preferred then 1 + front else front)
        (if preferred then back else 1 + back)
        made
Fits-recycled h count true front back made (c, f, b, m) one =
    (omega arith, ground arith, ground arith, ground arith)
Fits-recycled h count false front back made (c, f, b, m) one =
    (omega arith, ground arith, ground arith, ground arith)

Fits-not_recycled :
    (h count : ℕ) (preferred kind : Bool) (front back : ℕ) (made : Bool)
    → Fits h count preferred front back made
    → Fits
        (h - 0)
        count
        preferred
        (if kind then 0 + front else front)
        (if kind then back else 0 + back)
        made
Fits-not_recycled h count preferred true front back made (c, f, b, m) =
    (omega arith, ground arith, ground arith, ground arith)
Fits-not_recycled h count preferred false front back made (c, f, b, m) =
    (omega arith, ground arith, ground arith, ground arith)

module _ {T : Type 0} where
  -- The new reference is counted at `i`, and nothing changes elsewhere.
  Fits-claimed :
      (q : Pool T) (i h : ℕ)
      → (q.heap i).count ≡ 0
      → Fits
          (as_nat (i == i) + h)
          ((q.heap i).count + as_nat (i == i))
          (q.heap i).preferred
          (occurrences i q.preferred_pool)
          (occurrences i q.pool)
          (ltb i q.next)
      → Fits
          (1 + h)
          (to_u32 ((q.heap i).count + 1))
          (q.heap i).preferred
          (occurrences i q.preferred_pool)
          (occurrences i q.pool)
          (ltb i q.next)
  Fits-claimed q i h uncounted fits =
      let one : (q.heap i).count + 1 ≡ to_u32 ((q.heap i).count + 1) = omega (arith, uncounted) in
      subst
        (λ c.
          Fits (1 + h) c (q.heap i).preferred (occurrences i q.preferred_pool)
            (occurrences i q.pool) (ltb i q.next))
        one
        (subst
          (λ a.
            Fits (a + h) ((q.heap i).count + a) (q.heap i).preferred
              (occurrences i q.preferred_pool) (occurrences i q.pool) (ltb i q.next))
          (as_nat_same i) fits)

  Fits-elsewhere :
      (q : Pool T) (i j h : ℕ)
      → (j == i) ≡ false
      → Fits
          (as_nat (j == i) + h)
          ((q.heap j).count + as_nat (j == i))
          (q.heap j).preferred
          (occurrences j q.preferred_pool)
          (occurrences j q.pool)
          (ltb j q.next)
      → Fits
          (0 + h)
          (q.heap j).count
          (q.heap j).preferred
          (occurrences j q.preferred_pool)
          (occurrences j q.pool)
          (ltb j q.next)
  Fits-elsewhere q i j h other fits =
      let no_more : (q.heap j).count + 0 ≡ (q.heap j).count = omega arith in
      subst
        (λ c.
          Fits (0 + h) c (q.heap j).preferred (occurrences j q.preferred_pool)
            (occurrences j q.pool) (ltb j q.next))
        no_more
        (subst
          (λ b.
            Fits (as_nat b + h) ((q.heap j).count + as_nat b) (q.heap j).preferred
              (occurrences j q.preferred_pool) (occurrences j q.pool) (ltb j q.next))
          other fits)

  -- From a pool that is counted right `getObject` hands out, with no assertion failing, an object
  -- with no other reference, and the pool is counted right with the new reference.
  pub get_object-IsCounted :
      (init : T) (clear : T → T) (p : Pool T) (held : ℕ → ℕ)
      → IsCounted p held
      → (i : ℕ) × (q : Pool T) × ((get_object init clear p
            ≡ some (record { in_pool = true; object = some i }, q))
          × (held i ≡ 0)
          × IsCounted q (one_more held i))
  unfolding get_object
  get_object-IsCounted init clear p held ok =
      let (i, q, (taken, unheld, uncounted, fits)) =
        take_object-Takes init p.heap p.next p.preferred_pool p.pool p.watermark held ok in
      (
        i,
        record q { heap = update q.heap i (claim clear (q.heap i)) },
        (
          ap
              (λ o. o >>= λ (k, r). some (
                record { in_pool = true; object = some k },
                record r { heap = update r.heap k (claim clear (r.heap k)) },
              ))
              taken,
          unheld,
          at_or_else
              (λ j same.
                Fits (as_nat same + held j)
                  ((if same then claim clear (q.heap i) else q.heap j).count)
                  ((if same then claim clear (q.heap i) else q.heap j).preferred)
                  (occurrences j q.preferred_pool) (occurrences j q.pool) (ltb j q.next))
              i (Fits-claimed q i (held i) uncounted (fits i))
              (λ j other. Fits-elsewhere q i j (held j) other (fits j)),
        ),
      )

  recycle-IsCounted :
      (q : Pool T) (i : ℕ) (kind : Bool) (held : ℕ → ℕ)
      → (q.heap i).preferred ≡ kind
      → ((j : ℕ)
          → Fits
              (held j)
              (q.heap j).count
              (q.heap j).preferred
              (if kind
                then as_nat (j == i) + occurrences j q.preferred_pool
                else occurrences j q.preferred_pool)
              (if kind then occurrences j q.pool else as_nat (j == i) + occurrences j q.pool)
              (ltb j q.next))
      → IsCounted (recycle q i) held
  recycle-IsCounted q i true held e fits = rw e fits
  recycle-IsCounted q i false held e fits = rw e fits

  -- A reference to an object of a pool that is counted right is given back with no assertion failing,
  -- and the pool is counted right without it.
  pub put_object-IsCounted :
      (p : Pool T) (held : ℕ → ℕ) (i : ℕ)
      → IsCounted p held
      → 1 ≤ held i
      → (q : Pool T) × ((put_object p i ≡ some q) × IsCounted q (one_less held i))
  unfolding put_object
  put_object-IsCounted p held i ok some_held = elim (Bool-cases (ltb 1 (p.heap i).count)) [
    | inl many ↦ (
      record p { heap = update p.heap i (release (p.heap i)) },
      (
        rw (counted, many) refl,
        at_or_else
            (λ j same.
              Fits (held j - as_nat same) ((if same then release (p.heap i) else p.heap j).count)
                ((if same then release (p.heap i) else p.heap j).preferred)
                (occurrences j p.preferred_pool) (occurrences j p.pool) (ltb j p.next))
            i
            (Fits-released (held i) (p.heap i).count (p.heap i).preferred
              (occurrences i p.preferred_pool) (occurrences i p.pool) (ltb i p.next) (ok i)
              (ground (arith, many)))
            (λ j other.
              Fits-kept (held j) (p.heap j).count (p.heap j).preferred
                (occurrences j p.preferred_pool) (occurrences j p.pool) (ltb j p.next) (ok j)),
      ),
    )
    | inr last ↦ (
      recycle (record p { heap = update p.heap i (release (p.heap i)) }) i,
      (
        rw (counted, last) refl,
        recycle-IsCounted (record p { heap = update p.heap i (release (p.heap i)) }) i
            (p.heap i).preferred (one_less held i) same_kind
            (at_or_else
              (λ j same.
                Fits (held j - as_nat same) ((if same then release (p.heap i) else p.heap j).count)
                  ((if same then release (p.heap i) else p.heap j).preferred)
                  (if (p.heap i).preferred
                    then as_nat same + occurrences j p.preferred_pool
                    else occurrences j p.preferred_pool)
                  (if (p.heap i).preferred
                    then occurrences j p.pool
                    else as_nat same + occurrences j p.pool)
                  (ltb j p.next))
              i
              (Fits-recycled (held i) (p.heap i).count (p.heap i).preferred
                (occurrences i p.preferred_pool) (occurrences i p.pool) (ltb i p.next) (ok i)
                (ground (arith, (ok i).0, last)))
              (λ j other.
                Fits-not_recycled (held j) (p.heap j).count (p.heap j).preferred
                  (p.heap i).preferred (occurrences j p.preferred_pool) (occurrences j p.pool)
                  (ltb j p.next) (ok j))),
      ),
    )
  ]
    where
      counted : ((p.heap i).count == 0) ≡ false
      counted = ground (arith, (ok i).0)

      same_kind : (update p.heap i (release (p.heap i)) i).preferred ≡ (p.heap i).preferred
      same_kind = rw (eq→== i i refl) refl
