-- ===== src/Pool/Tests.antt =====
-- A pool of bytes, with one object made ahead.
use cpp_interface.Prelude.{ℕ, ◌≡◌, refl, Bool, true, Option, some, List, [], ◌∷◌, ◌>>=◌, arith}
use cpp_interface.Pool.{
  Pool, Ref, get_object, put_object, create, copy_assign, down_from, take_object, reset,
  set_preferred, is_preferred, set_tag, get_tag,
}
use cpp_interface.Pool.Counts.{IsCounted, occurrences}
use cpp_interface.Pool.Refs.{ref_to, create-IsCounted}
use cpp_interface.Pool.History.{Op, get, copy, assign, destroy, prefer, pick, perform, perform_all}
use cpp_interface.Pool.Safety.{perform_all-IsCounted}

abbrev nobody : ℕ → ℕ
nobody i = 0

unfoldable fresh : Pool ℕ
fresh = create 7 1

fresh-IsCounted : IsCounted fresh nobody
unfolding fresh
fresh-IsCounted = create-IsCounted 7 1

abbrev preferred_run : Option (Ref × Bool × ℕ)
preferred_run = get_object {T = ℕ} 7 (λ x. 0) (create 7 2) >>= λ (r, p).
    reset (set_preferred p r true) r >>= λ (s, q).
    get_object 7 (λ x. 0) q >>= λ (t, u). some (t, is_preferred u t, u.watermark)

-- An object is preferred, goes back, and is handed out before the others.
preferred_first : preferred_run ≡ some (ref_to 1, true, 2)
unfolding take_object get_object create down_from reset put_object set_preferred is_preferred
preferred_first = refl

tag_kept :
    (get_object {T = ℕ} 7 (λ x. 0) (create 7 0) >>= λ (r, p). some (get_tag (set_tag p r 5) r))
    ≡ some 5
unfolding take_object get_object create down_from set_tag get_tag
tag_kept = refl

abbrev history : List Op
history = get ∷ copy 0 ∷ prefer 0 true ∷ get ∷ assign 0 1 ∷ destroy 0 ∷ destroy 0 ∷ get ∷ []

abbrev history_end : Option (List ℕ × ℕ)
history_end = perform_all 7 (λ x. 0) history fresh [] >>= λ (p, refs). some (refs, p.next)

-- The object 1 has no reference any more, and is handed out again.
history_run : history_end ≡ some (1 ∷ 0 ∷ [], 2)
unfolding perform_all perform pick fresh take_object get_object create down_from reset put_object
    set_preferred copy_assign
history_run = refl

perform_all-IsCounted_example :
    (q : Pool ℕ) × (refs : List ℕ) × ((perform_all 7 (λ x. 0) history fresh [] ≡ some (q, refs))
      × IsCounted q (λ j. occurrences j refs)
      × (i : ℕ) × (r : Pool ℕ) × ((get_object 7 (λ x. 0) q ≡ some (ref_to i, r))
          × (occurrences i refs ≡ 0)))
perform_all-IsCounted_example =
    perform_all-IsCounted 7 (λ x. 0) history fresh [] fresh-IsCounted (omega arith)
