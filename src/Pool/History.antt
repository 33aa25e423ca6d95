-- ===== src/Pool/History.antt =====
-- Histories of a pool and of the references to its objects.
use cpp_interface.Prelude.{ℕ, suc, zero, Bool, Option, none, some, List, [], ◌∷◌, ◌>>=◌}
use cpp_interface.Pool.{
  Pool, get_object, reset, copy_assign, move_assign, no_ref, set_preferred, set_tag,
}
use cpp_interface.Pool.Refs.{ref_to}

-- What the program does with references, which are named by where they stand in a list: make one by
-- `getObject`, make one as a copy, assign or move one to another, destroy one, mark an object.
pub data Op : Type 0 where
  get : Op
  copy : (from : ℕ) → Op
  assign : (to from : ℕ) → Op
  move : (to from : ℕ) → Op
  destroy : (at : ℕ) → Op
  prefer : (at : ℕ) → Bool → Op
  mark : (at tag : ℕ) → Op

-- The element at a place, and the others.
unfoldable pub pick : ℕ → List ℕ → Option (ℕ × List ℕ)
pick k [] = none
pick zero (x ∷ xs) = some (x, xs)
pick (suc k) (x ∷ xs) = pick k xs >>= λ (y, ys). some (y, x ∷ ys)

module _ {T : Type 0} (init : T) (clear : T → T) where
  -- A reference that is destroyed or assigned to is gone, and one that is moved from is empty.
  unfoldable pub perform : Op → Pool T → List ℕ → Option (Pool T × List ℕ)
  unfolding pick
  perform get p refs = get_object init clear p >>= λ (r, q). elim r.object [
    | none ↦ none
    | some i ↦ some (q, i ∷ refs)
  ]
  perform (copy from) p refs = elim (pick from refs) [
    | none ↦ some (p, refs)
    | some (i, rest) ↦ copy_assign p no_ref (ref_to i) >>= λ (r, q). some (q, i ∷ refs)
  ]
  perform (assign to from) p refs = elim (pick to refs) [
    | none ↦ some (p, refs)
    | some (i, rest) ↦ elim (pick from rest) [
      | none ↦ some (p, refs)
      | some (k, others) ↦ copy_assign p (ref_to i) (ref_to k) >>= λ (r, q). some (q, k ∷ rest)
    ]
  ]
  perform (move to from) p refs = elim (pick to refs) [
    | none ↦ some (p, refs)
    | some (i, rest) ↦ elim (pick from rest) [
      | none ↦ some (p, refs)
      | some (k, others) ↦ move_assign p (ref_to i) (ref_to k) >>= λ (r, s, q). some (q, rest)
    ]
  ]
  perform (destroy at) p refs = elim (pick at refs) [
    | none ↦ some (p, refs)
    | some (i, rest) ↦ reset p (ref_to i) >>= λ (r, q). some (q, rest)
  ]
  perform (prefer at preferred) p refs = elim (pick at refs) [
    | none ↦ some (p, refs)
    | some (i, rest) ↦ some (set_preferred p (ref_to i) preferred, refs)
  ]
  perform (mark at tag) p refs = elim (pick at refs) [
    | none ↦ some (p, refs)
    | some (i, rest) ↦ some (set_tag p (ref_to i) tag, refs)
  ]

  unfoldable pub perform_all : List Op → Pool T → List ℕ → Option (Pool T × List ℕ)
  perform_all [] p refs = some (p, refs)
  perform_all (o ∷ os) p refs = perform o p refs >>= λ (q, refs'). perform_all os q refs'
