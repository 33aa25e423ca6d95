-- ===== src/Pool.antt =====
-- library/Pool.h and library/Pool.cpp: objects with a count of their references, and the free ones. A
-- result of `none` is a failed assertion. An object is a number, in the order of construction; the
-- back of a vector is the head of its list. The mutex makes each method one step.
pub mod Counts
pub mod Returns
pub mod Refs
pub mod History
pub mod Safety
mod Tests
use cpp_interface.Prelude.{
  ℕ, ◌+◌, ◌-◌, suc, Bool, true, false, Option, none, some, List, [], ◌∷◌, ◌==◌, ltb, not, ◌&&◌,
  if◌then◌else◌, length, ◌>>=◌, to_u32, zero,
}

-- `Pool<T>::Ref::Counted`
pub record Counted (T : Type 0) : Type 0 where
  pub content : T
  pub count : ℕ
  pub tag : ℕ
  pub preferred : Bool

-- `heap` holds the objects that were constructed, those below `next`.
pub record Pool (T : Type 0) : Type 0 where
  pub heap : ℕ → Counted T
  pub next : ℕ
  pub preferred_pool : List ℕ
  pub pool : List ℕ
  pub watermark : ℕ

-- `Pool<T>::Ref`: whether `m_pool` is set, and `m_object`.
pub record Ref : Type 0 where
  pub in_pool : Bool
  pub object : Option ℕ

abbrev pub no_ref : Ref
no_ref = record { in_pool = false; object = none }

abbrev pub update : {A : Type 0} → (ℕ → A) → ℕ → A → ℕ → A
update f k a j = if j == k then a else f j

abbrev pub max : ℕ → ℕ → ℕ
max a b = if ltb a b then b else a

module _ {T : Type 0} where
  abbrev pub constructed : T → Counted T
  constructed init = record { content = init; count = 0; tag = 0; preferred = false }

  -- What `getObject` does under the lock.
  unfoldable pub take_object : T → Pool T → Option (ℕ × Pool T)
  take_object init p = elim p.preferred_pool [
    | i ∷ is ↦
        if ((p.heap i).count == 0) && (p.heap i).preferred
        then some (i, record p { preferred_pool = is })
        else none
    | [] ↦ elim p.pool [
      | i ∷ is ↦
          if ((p.heap i).count == 0) && not (p.heap i).preferred
          then some (i, record p { pool = is })
          else none
      | [] ↦
          some
            (p.next, record p { heap = update p.heap p.next (constructed init); next = suc p.next })
    ]
  ]

  -- `count.fetch_add (1)`, after `Clear` where the objects are builders.
  abbrev pub claim : (T → T) → Counted T → Counted T
  claim clear c = record c { content = clear c.content; count = to_u32 (c.count + 1) }

  unfoldable pub get_object : T → (T → T) → Pool T → Option (Ref × Pool T)
  unfolding take_object
  get_object init clear p = take_object init p >>= λ (i, q). some (
    record { in_pool = true; object = some i },
    record q { heap = update q.heap i (claim clear (q.heap i)) },
  )

  abbrev pub release : Counted T → Counted T
  release c = record c { count = c.count - 1 }

  -- The last reference is gone: the object goes to the free list of its kind.
  abbrev pub recycle : Pool T → ℕ → Pool T
  recycle p i =
      if (p.heap i).preferred
      then record p {
        preferred_pool = i ∷ p.preferred_pool;
        watermark = max p.watermark (suc (length p.preferred_pool) + length p.pool);
      }
      else record p {
        pool = i ∷ p.pool;
        watermark = max p.watermark (length p.preferred_pool + suc (length p.pool));
      }

  unfoldable pub put_object : Pool T → ℕ → Option (Pool T)
  put_object p i =
      let p' = record p { heap = update p.heap i (release (p.heap i)) } in
      if (p.heap i).count == 0
      then none
      else if ltb 1 (p.heap i).count
      then some p'
      else some (recycle p' i)

  -- `Ref::reset`
  unfoldable pub reset : Pool T → Ref → Option (Ref × Pool T)
  reset p r = elim r.object [
    | none ↦ some (r, p)
    | some i ↦
        if r.in_pool then (put_object p i >>= λ q. some (record r { object = none }, q)) else none
  ]

  -- `Ref::operator= (Ref const &)` of two references that are not the same variable.
  unfoldable pub copy_assign : Pool T → Ref → Ref → Option (Ref × Pool T)
  copy_assign p this that = reset p this >>= λ (r, q). elim that.object [
    | none ↦ some (that, q)
    | some i ↦ some (
      that,
      record q {
        heap = update q.heap i (record (q.heap i) { count = to_u32 ((q.heap i).count + 1) });
      },
    )
  ]

  -- `Ref::operator= (Ref &&)` of two such references: the new value of both.
  unfoldable pub move_assign : Pool T → Ref → Ref → Option (Ref × Ref × Pool T)
  move_assign p this that = reset p this >>= λ (r, q). some (that, no_ref, q)

  unfoldable pub set_preferred : Pool T → Ref → Bool → Pool T
  set_preferred p r preferred = elim r.object [
    | none ↦ p
    | some i ↦ record p { heap = update p.heap i (record (p.heap i) { preferred = preferred }) }
  ]

  unfoldable pub set_tag : Pool T → Ref → ℕ → Pool T
  set_tag p r tag = elim r.object [
    | none ↦ p
    | some i ↦ record p { heap = update p.heap i (record (p.heap i) { tag = tag }) }
  ]

  unfoldable pub get_tag : Pool T → Ref → ℕ
  get_tag p r = elim r.object [ none ↦ 0 | some i ↦ (p.heap i).tag ]

  unfoldable pub is_preferred : Pool T → Ref → Bool
  is_preferred p r = elim r.object [ none ↦ false | some i ↦ (p.heap i).preferred ]

-- The objects made ahead, the last one at the back.
unfoldable pub down_from : ℕ → List ℕ
down_from zero = []
down_from (suc n) = n ∷ down_from n

-- `Pool<T>::Pool`, with `n` objects made ahead.
unfoldable pub create : {T : Type 0} → T → ℕ → Pool T
create init n = record {
  heap = λ i. constructed init;
  next = n;
  preferred_pool = [];
  pool = down_from n;
  watermark = n;
}
