-- ===== src/Client/Buffers.antt =====
-- library/Client.cpp: the four pools of buffers, `getBuffer`, and the buffers that `Client::connect`
-- makes ahead and registers with io_uring.
use cpp_interface.Prelude.{
  ℕ, zero, suc, ◌≡◌, refl, ap, ◌∙◌, sym, ◌+◌, ◌%◌, ◌<◌, true, Option, none, some, List, [], ◌∷◌,
  ◌>>=◌, to_u32, arith, map, inl, inr, Option-cases,
}
use cpp_interface.Pool.{
  Pool, Ref, update, create, down_from, get_object, take_object, reset, put_object, set_preferred,
  set_tag,
}

abbrev pub registered_buffers : ℕ
registered_buffers = 32

-- The tags from `28 + r` down to `r`, in steps of 4.
abbrev pub every_fourth : ℕ → List ℕ
every_fourth r = (28 + r) ∷ (24 + r) ∷ (20 + r) ∷ (16 + r) ∷ (12 + r) ∷ (8 + r) ∷ (4 + r) ∷ r ∷ []

-- What the four pools hold, by turns.
abbrev pub spread : List (List ℕ × List ℕ × ℕ)
spread =
    (every_fourth 0, [], 8)
    ∷ (every_fourth 1, [], 8)
    ∷ (every_fourth 2, [], 8)
    ∷ (every_fourth 3, [], 8)
    ∷ []

-- `bufferPools` and `bufferPoolIndex`
pub record Pools (T : Type 0) : Type 0 where
  pub buffer_pools : ℕ → Pool T
  pub index : ℕ

is_none : {A : Type 0} {a : A} → none ≡ some a → ⊥
is_none e = ground (arith, e)

some-eq : {A : Type 0} {a b : A} → some a ≡ some b → a ≡ b
some-eq {A} {a} {b} e = ap (λ o. elim o [ none ↦ a | some x ↦ x ]) e

module _ {T : Type 0} where
  -- The vector of the references goes out of scope.
  unfoldable pub release_all : List (ℕ × Ref) → Pools T → Option (Pools T)
  release_all [] ps = some ps
  release_all ((which, r) ∷ rs) ps = reset (ps.buffer_pools which) r >>= λ (s, p).
      release_all rs (record ps { buffer_pools = update ps.buffer_pools which p })

module _ {T : Type 0} (init : T) (clear : T → T) where
  -- `getBuffer`: the pool that the buffer is from, and the buffer.
  unfoldable pub get_buffer : Pools T → Option (ℕ × Ref × Pools T)
  get_buffer ps =
      let which = ps.index % 4 in
      get_object init clear (ps.buffer_pools which) >>= λ (r, p). some (
        which,
        r,
        record { buffer_pools = update ps.buffer_pools which p; index = to_u32 (ps.index + 1) },
      )

  -- The loop that makes `n` buffers ahead, from the number `i` on.
  unfoldable pub preallocate : (n i : ℕ) → Pools T → Option (List (ℕ × Ref) × Pools T)
  unfolding get_buffer
  preallocate zero i ps = some ([], ps)
  preallocate (suc n) i ps = get_buffer ps >>= λ (which, r, qs).
      preallocate n (i + 1) (record qs {
        buffer_pools =
            update qs.buffer_pools which
              (set_preferred (set_tag (qs.buffer_pools which) r i) r true);
      })
      >>= λ (rs, end). some ((which, r) ∷ rs, end)

  -- The pools are new, and the index is that of the connection before.
  unfoldable pub register_buffers : (index : ℕ) → Option (Pools T)
  unfolding preallocate release_all
  register_buffers index =
      preallocate registered_buffers 0 (record { buffer_pools = λ w. create init 0; index = index })
      >>= λ (rs, ps). release_all rs ps

module _ {T : Type 0} where
  -- The tags of the registered buffers of a pool, the next one that is handed out first.
  abbrev pub tags : (ℕ → Pool T) → ℕ → List ℕ
  tags pools which = map (λ i. ((pools which).heap i).tag) (pools which).preferred_pool

  -- Of each pool, from the one at the index on by turns: the tags of its preferred buffers, those
  -- that are not preferred, and how many buffers it has made.
  abbrev pub by_turns : ℕ → (ℕ → Pool T) → List (List ℕ × List ℕ × ℕ)
  by_turns u pools =
      map (λ r. let w = (u + r) % 4 in (tags pools w, (pools w).pool, (pools w).next))
        (0 ∷ 1 ∷ 2 ∷ 3 ∷ [])

  abbrev seen : ℕ → Option (ℕ → Pool T) → Option (List (List ℕ × List ℕ × ℕ))
  seen u none = none
  seen u (some pools) = some (by_turns u pools)

  -- The pools without the index.
  abbrev pools_of : Option (Pools T) → Option (ℕ → Pool T)
  pools_of none = none
  pools_of (some ps) = some ps.buffer_pools

  abbrev made_of : Option (List (ℕ × Ref) × Pools T) → Option (List (ℕ × Ref) × (ℕ → Pool T))
  made_of none = none
  made_of (some (rs, ps)) = some (rs, ps.buffer_pools)

  abbrev at_index : (ℕ → Pool T) → ℕ → Pools T
  at_index pools u = record { buffer_pools = pools; index = u }

  made_of-cons :
      (x : ℕ × Ref) (o : Option (List (ℕ × Ref) × Pools T))
      → made_of (o >>= λ (rs, end). some (x ∷ rs, end))
        ≡ (made_of o >>= λ (rs, end). some (x ∷ rs, end))
  made_of-cons x none = refl
  made_of-cons x (some (rs, ps)) = refl

module _ {T : Type 0} (init : T) (clear : T → T) where
  -- Of the index, only its remainder by 4 counts.
  preallocate-index :
      (n i : ℕ) (pools : ℕ → Pool T) (u v : ℕ)
      → u % 4 ≡ v % 4
      → made_of (preallocate init clear n i (at_index pools u))
        ≡ made_of (preallocate init clear n i (at_index pools v))
  unfolding preallocate get_buffer
  preallocate-index zero i pools u v e = refl
  preallocate-index (suc n) i pools u v e =
      elim (Option-cases (get_object init clear (pools (v % 4)))) [
        | inl nothing ↦ rw (e, nothing) refl
        | inr ((r, p), found) ↦
            let w = v % 4 in
            let first = update pools w p in
            let next = update first w (set_preferred (set_tag (first w) r i) r true) in
            let later =
              preallocate-index n (i + 1) next (to_u32 (u + 1)) (to_u32 (v + 1))
                (omega (arith, e)) in
            rw (e, found)
              (made_of-cons (w, r)
                  (preallocate init clear n (i + 1) (at_index next (to_u32 (u + 1))))
                ∙ ap (λ o. o >>= λ (rs, end). some ((w, r) ∷ rs, end)) later
                ∙ sym (
                    made_of-cons (w, r)
                      (preallocate init clear n (i + 1) (at_index next (to_u32 (v + 1))))))
      ]

  release_all-index :
      (rs : List (ℕ × Ref)) (pools : ℕ → Pool T) (u v : ℕ)
      → pools_of (release_all rs (at_index pools u)) ≡ pools_of (release_all rs (at_index pools v))
  unfolding release_all
  release_all-index [] pools u v = refl
  release_all-index ((which, r) ∷ rs) pools u v = elim (Option-cases (reset (pools which) r)) [
    | inl nothing ↦ rw nothing refl
    | inr ((s, p), done) ↦ rw done (release_all-index rs (update pools which p) u v)
  ]

  -- The pools that `register_buffers` leaves.
  abbrev registered : ℕ → Option (ℕ → Pool T)
  registered u = pools_of (register_buffers init clear u)

  abbrev then_release : Option (List (ℕ × Ref) × (ℕ → Pool T)) → Option (ℕ → Pool T)
  then_release o = o >>= λ (rs, pools). pools_of (release_all rs (at_index pools 0))

  then_release-made_of :
      (o : Option (List (ℕ × Ref) × Pools T))
      → pools_of (o >>= λ (rs, ps). release_all rs ps) ≡ then_release (made_of o)
  then_release-made_of none = refl
  then_release-made_of (some (rs, ps)) = release_all-index rs ps.buffer_pools ps.index 0

  registered-index : (u v : ℕ) → u % 4 ≡ v % 4 → registered u ≡ registered v
  unfolding register_buffers
  registered-index u v e =
      then_release-made_of
        (preallocate init clear registered_buffers 0 (at_index (λ w. create init 0) u))
      ∙ ap then_release (preallocate-index registered_buffers 0 (λ w. create init 0) u v e)
      ∙ sym (
          then_release-made_of
            (preallocate init clear registered_buffers 0 (at_index (λ w. create init 0) v)))

  seen-registered : (c : ℕ) → c < 4 → seen c (registered c) ≡ some spread
  unfolding register_buffers preallocate release_all get_buffer create down_from get_object
      take_object reset put_object set_preferred set_tag
  seen-registered zero h = refl
  seen-registered (suc zero) h = refl
  seen-registered (suc (suc zero)) h = refl
  seen-registered (suc (suc (suc zero))) h = refl
  seen-registered (suc (suc (suc (suc c)))) h = absurd (omega (arith, h))

  by_turns-index :
      (u v : ℕ) (pools : ℕ → Pool T) → v % 4 ≡ u % 4 → by_turns u pools ≡ by_turns v pools
  by_turns-index u v pools e =
      let same : (r : ℕ) → (u + r) % 4 ≡ (v + r) % 4 = λ r. omega (arith, e) in
      simp (same 0, same 1, same 2, same 3)

  -- Whatever the index is at which a client comes to its four pools, making the buffers ahead
  -- and letting go of them fails no assertion. Then each number below 32 is the tag of one buffer, the
  -- buffers are spread evenly over the pools by turns, all are free and come first, those with
  -- the greater tag before the others, and the pools have no other buffers.
  pub register_buffers-by_turns :
      (u : ℕ)
      → (ps : Pools T) × ((register_buffers init clear u ≡ some ps)
          × (by_turns u ps.buffer_pools ≡ spread))
  register_buffers-by_turns u =
      let e : (u % 4) % 4 ≡ u % 4 = omega arith in
      let all : seen (u % 4) (registered u) ≡ some spread =
        ap (seen (u % 4)) (registered-index u (u % 4) (sym e))
        ∙ seen-registered (u % 4) (omega arith) in
      elim (Option-cases (register_buffers init clear u)) [
        | inl failed ↦ absurd (is_none (sym (ap (λ o. seen (u % 4) (pools_of o)) failed) ∙ all))
        | inr (ps, done) ↦ (
          ps,
          (
            done,
            by_turns-index u (u % 4) ps.buffer_pools e
                ∙ some-eq (sym (ap (λ o. seen (u % 4) (pools_of o)) done) ∙ all),
          ),
        )
      ]
