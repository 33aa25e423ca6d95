-- ===== src/Pool/Safety.antt =====
-- No history of references makes an assertion fail, and none shares an object by mistake.
use cpp_interface.Prelude.{
  ℕ, ◌≡◌, refl, ap, subst, ◌+◌, ◌<◌, ◌≤◌, ◌^◌, suc, zero, Bool, true, false, Option, none, some,
  List, [], ◌∷◌, ◌==◌, ltb, length, if◌then◌else◌, ◌>>=◌, to_u32, arith, inl, inr, ◌⊎◌,
}
use cpp_interface.Pool.{
  Counted, Pool, update, get_object, reset, copy_assign, no_ref, set_preferred, set_tag,
}
use cpp_interface.Pool.Counts.{Fits, IsCounted, occurrences, one_more, as_nat, as_nat_same}
use cpp_interface.Pool.Returns.{at_or_else, get_object-IsCounted}
use cpp_interface.Pool.Refs.{
  ref_to, Fits-one_more, Fits-no_more, reset-IsCounted, copy_assign-IsCounted,
  move_assign-IsCounted,
}
use cpp_interface.Pool.History.{
  Op, get, copy, assign, move, destroy, prefer, mark, pick, perform, perform_all,
}

-- There is no such place, or the element and the others make up the list.
abbrev Split : Option (ℕ × List ℕ) → List ℕ → Type 0
Split o xs =
    (o ≡ none)
    ⊎ ((y : ℕ) × (ys : List ℕ) × ((o ≡ some (y, ys))
          × ((j : ℕ) → occurrences j xs ≡ as_nat (j == y) + occurrences j ys)
          × (length xs ≡ 1 + length ys)))

pick-Split : (k : ℕ) (xs : List ℕ) → Split (pick k xs) xs
unfolding pick
pick-Split k [] = inl refl
pick-Split zero (x ∷ xs) = inr (x, xs, (refl, λ j. refl, omega arith))
pick-Split (suc k) (x ∷ xs) = elim (pick-Split k xs) [
  | inl nothing ↦ inl (ap (λ o. o >>= λ (y, ys). some (y, x ∷ ys)) nothing)
  | inr (y, ys, (found, counts, long)) ↦ inr (
    y,
    x ∷ ys,
    (
      ap (λ o. o >>= λ (z, zs). some (z, x ∷ zs)) found,
      λ j. omega (arith, counts j),
      omega (arith, long),
    ),
  )
]

occurrences-le : (j : ℕ) (xs : List ℕ) → occurrences j xs ≤ length xs
occurrences-le j [] = omega arith
occurrences-le j (x ∷ xs) = ground (arith, occurrences-le j xs)

-- What holds of a count of references holds of the same count, written otherwise.
IsCounted-same :
    {T : Type 0} (p : Pool T) (held held' : ℕ → ℕ)
    → ((i : ℕ) → held i ≡ held' i)
    → IsCounted p held
    → IsCounted p held'
IsCounted-same p held held' same ok i =
    subst
      (λ h.
        Fits h (p.heap i).count (p.heap i).preferred (occurrences i p.preferred_pool)
          (occurrences i p.pool) (ltb i p.next))
      (same i) (ok i)

Fits-prefer :
    (h count : ℕ) (preferred new : Bool) (front back : ℕ) (made : Bool)
    → Fits h count preferred front back made
    → 1 ≤ h
    → Fits h count new front back made
Fits-prefer h count preferred true front back made (c, f, b, m) held =
    (omega arith, ground arith, ground arith, ground arith)
Fits-prefer h count preferred false front back made (c, f, b, m) held =
    (omega arith, ground arith, ground arith, ground arith)

-- The element that is picked is counted.
picked_held :
    (xs ys : List ℕ) (y : ℕ)
    → ((j : ℕ) → occurrences j xs ≡ as_nat (j == y) + occurrences j ys)
    → 1 ≤ occurrences y xs
picked_held xs ys y counts = omega (arith, counts y, as_nat_same y)

module _ {T : Type 0} where
  copy_construct-IsCounted :
      (p : Pool T) (held : ℕ → ℕ) (k : ℕ)
      → IsCounted p held
      → 1 ≤ held k
      → held k + 1 < 2 ^ 32
      → (q : Pool T) × ((copy_assign p no_ref (ref_to k) ≡ some (ref_to k, q))
          × IsCounted q (one_more held k))
  unfolding copy_assign reset
  copy_construct-IsCounted p held k ok some_held small = (
    record p { heap = update p.heap k (more (p.heap k)) },
    (
      refl,
      at_or_else
          (λ j same.
            Fits (as_nat same + held j) ((if same then more (p.heap k) else p.heap j).count)
              ((if same then more (p.heap k) else p.heap j).preferred)
              (occurrences j p.preferred_pool) (occurrences j p.pool) (ltb j p.next))
          k
          (Fits-one_more (held k) (p.heap k).count (p.heap k).preferred
            (occurrences k p.preferred_pool) (occurrences k p.pool) (ltb k p.next) (ok k) some_held
            small)
          (λ j other.
            Fits-no_more (held j) (p.heap j).count (p.heap j).preferred
              (occurrences j p.preferred_pool) (occurrences j p.pool) (ltb j p.next) (ok j)),
    ),
  )
    where
      more : Counted T → Counted T
      more c = record c { count = to_u32 (c.count + 1) }

  set_preferred-IsCounted :
      (p : Pool T) (held : ℕ → ℕ) (k : ℕ) (preferred : Bool)
      → IsCounted p held
      → 1 ≤ held k
      → IsCounted (set_preferred p (ref_to k) preferred) held
  unfolding set_preferred
  set_preferred-IsCounted p held k preferred ok some_held =
      at_or_else
        (λ j same.
          Fits (held j)
            ((if same then record (p.heap k) { preferred = preferred } else p.heap j).count)
            ((if same then record (p.heap k) { preferred = preferred } else p.heap j).preferred)
            (occurrences j p.preferred_pool) (occurrences j p.pool) (ltb j p.next))
        k
        (Fits-prefer (held k) (p.heap k).count (p.heap k).preferred preferred
          (occurrences k p.preferred_pool) (occurrences k p.pool) (ltb k p.next) (ok k) some_held)
        (λ j other. ok j)

  set_tag-IsCounted :
      (p : Pool T) (held : ℕ → ℕ) (k tag : ℕ)
      → IsCounted p held
      → IsCounted (set_tag p (ref_to k) tag) held
  unfolding set_tag
  set_tag-IsCounted p held k tag ok =
      at_or_else
        (λ j same.
          Fits (held j) ((if same then record (p.heap k) { tag = tag } else p.heap j).count)
            ((if same then record (p.heap k) { tag = tag } else p.heap j).preferred)
            (occurrences j p.preferred_pool) (occurrences j p.pool) (ltb j p.next))
        k (ok k) (λ j other. ok j)

module _ {T : Type 0} (init : T) (clear : T → T) where
  -- The pool is counted right for these references.
  abbrev pub Counts : Pool T → List ℕ → Type 0
  Counts p refs = IsCounted p (λ j. occurrences j refs)

  abbrev Performs : Op → Pool T → List ℕ → Type 0
  Performs o p refs =
      (q : Pool T) × (refs' : List ℕ) × ((perform init clear o p refs ≡ some (q, refs'))
        × Counts q refs'
        × (length refs' ≤ 1 + length refs))

  perform-Counts :
      (o : Op) (p : Pool T) (refs : List ℕ)
      → Counts p refs
      → length refs + 1 < 2 ^ 32
      → Performs o p refs
  unfolding perform
  perform-Counts get p refs ok small =
      let (i, q, (got, unheld, counted)) =
        get_object-IsCounted init clear p (λ j. occurrences j refs) ok in
      (q, i ∷ refs, (rw got refl, counted, omega arith))
  perform-Counts (copy from) p refs ok small = elim (pick-Split from refs) [
    | inl nothing ↦ (p, refs, (rw (perform, nothing) refl, ok, omega arith))
    | inr (i, rest, (found, counts, long)) ↦
        let (q, (done, counted)) =
          copy_construct-IsCounted p (λ j. occurrences j refs) i ok (picked_held refs rest i counts)
            (omega (arith, occurrences-le i refs)) in
        (q, i ∷ refs, (rw (perform, found, done) refl, counted, omega arith))
  ]
  perform-Counts (assign to from) p refs ok small = elim (pick-Split to refs) [
    | inl nothing ↦ (p, refs, (rw (perform, nothing) refl, ok, omega arith))
    | inr (i, rest, (found, counts, long)) ↦ elim (pick-Split from rest) [
      | inl nothing ↦ (p, refs, (rw (perform, found, nothing) refl, ok, omega arith))
      | inr (k, others, (found', counts', long')) ↦
          let (q, (done, counted)) =
            copy_assign-IsCounted p (λ j. occurrences j refs) i k ok
              (picked_held refs rest i counts)
              (omega (arith, counts k, picked_held rest others k counts'))
              (omega (arith, occurrences-le k refs)) in
          (
            q,
            k ∷ rest,
            (
              rw (perform, found, found', done) refl,
              IsCounted-same q _ (λ j. occurrences j (k ∷ rest)) (λ j. omega (arith, counts j))
                  counted,
              omega (arith, long),
            ),
          )
    ]
  ]
  perform-Counts (move to from) p refs ok small = elim (pick-Split to refs) [
    | inl nothing ↦ (p, refs, (rw (perform, nothing) refl, ok, omega arith))
    | inr (i, rest, (found, counts, long)) ↦ elim (pick-Split from rest) [
      | inl nothing ↦ (p, refs, (rw (perform, found, nothing) refl, ok, omega arith))
      | inr (k, others, (found', counts', long')) ↦
          let (q, (done, counted)) =
            move_assign-IsCounted p (λ j. occurrences j refs) i k ok
              (picked_held refs rest i counts) in
          (
            q,
            rest,
            (
              rw (perform, found, found', done) refl,
              IsCounted-same q _ (λ j. occurrences j rest) (λ j. omega (arith, counts j)) counted,
              omega (arith, long),
            ),
          )
    ]
  ]
  perform-Counts (destroy at) p refs ok small = elim (pick-Split at refs) [
    | inl nothing ↦ (p, refs, (rw (perform, nothing) refl, ok, omega arith))
    | inr (i, rest, (found, counts, long)) ↦
        let (q, (done, counted)) =
          reset-IsCounted p (λ j. occurrences j refs) i ok (picked_held refs rest i counts) in
        (
          q,
          rest,
          (
            rw (perform, found, done) refl,
            IsCounted-same q _ (λ j. occurrences j rest) (λ j. omega (arith, counts j)) counted,
            omega (arith, long),
          ),
        )
  ]
  perform-Counts (prefer at preferred) p refs ok small = elim (pick-Split at refs) [
    | inl nothing ↦ (p, refs, (rw (perform, nothing) refl, ok, omega arith))
    | inr (i, rest, (found, counts, long)) ↦ (
      set_preferred p (ref_to i) preferred,
      refs,
      (
        rw (perform, found) refl,
        set_preferred-IsCounted p (λ j. occurrences j refs) i preferred ok
            (picked_held refs rest i counts),
        omega arith,
      ),
    )
  ]
  perform-Counts (mark at tag) p refs ok small = elim (pick-Split at refs) [
    | inl nothing ↦ (p, refs, (rw (perform, nothing) refl, ok, omega arith))
    | inr (i, rest, (found, counts, long)) ↦ (
      set_tag p (ref_to i) tag,
      refs,
      (
        rw (perform, found) refl,
        set_tag-IsCounted p (λ j. occurrences j refs) i tag ok,
        omega arith,
      ),
    )
  ]

  -- A pool that is counted right stays so through any history of references, with no assertion
  -- failing, as long as the references at the start and the operations are together fewer than 2 ^
  -- 32: the count of each object is the number of references to it, and an object without references
  -- is free once. The object that `getObject` then hands out has no reference.
  pub perform_all-IsCounted :
      (os : List Op) (p : Pool T) (refs : List ℕ)
      → IsCounted p (λ j. occurrences j refs)
      → length refs + length os < 2 ^ 32
      → (q : Pool T) × (refs' : List ℕ) × ((perform_all init clear os p refs ≡ some (q, refs'))
          × IsCounted q (λ j. occurrences j refs')
          × (i : ℕ) × (r : Pool T) × ((get_object init clear q ≡ some (ref_to i, r))
              × (occurrences i refs' ≡ 0)))
  unfolding perform_all
  perform_all-IsCounted [] p refs ok small =
      let (i, r, (got, unheld, counted)) =
        get_object-IsCounted init clear p (λ j. occurrences j refs) ok in
      (p, refs, (refl, ok, i, r, (got, unheld)))
  perform_all-IsCounted (o ∷ os) p refs ok small =
      let (q, refs', (done, counted, long)) = perform-Counts o p refs ok (omega arith) in
      let (q', refs'', (done', all, i, r, last)) =
        perform_all-IsCounted os q refs' counted (omega (arith, long)) in
      (q', refs'', (rw done done', all, i, r, last))
