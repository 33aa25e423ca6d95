-- ===== src/Bot/Groups.antt =====
-- The maps of a bot: render groups and outputs.
use cpp_interface.Prelude.{
  ℕ, ◌≡◌, refl, subst, ◌&&◌, ap, ◌∙◌, Bool, true, false, Option, none, some, List, [], ◌∷◌, ◌++◌,
  ◌==◌, ==→eq, ==→ne, if◌then◌else◌, Bool-cases, inl, inr, ◌⊎◌, ◌≢◌, arith,
}
use cpp_interface.Bot.{
  Bot, contains, emplaced, value_or, find, assign, get_or, get_output, set_output,
  send_render_message, clear_render_group, get_render_messages,
}

module _ {V : Type 0} where
  find-assign : (m : List (ℕ × V)) (k : ℕ) (v : V) → find (assign m k v) k ≡ some v
  unfolding find assign
  find-assign [] k v = ground arith
  find-assign ((j, w) ∷ m) k v = elim (Bool-cases (j == k)) [
    | inl same ↦ ground arith
    | inr other ↦ ground (arith, find-assign m k v)
  ]

  find-assign_ne : (m : List (ℕ × V)) (k l : ℕ) (v : V) → k ≢ l → find (assign m k v) l ≡ find m l
  unfolding find assign
  find-assign_ne [] k l v k≢l = ground arith
  find-assign_ne ((j, w) ∷ m) k l v k≢l = ground (arith, find-assign_ne m k l v k≢l)

  find-assign_if :
      (m : List (ℕ × V)) (k l : ℕ) (v : V)
      → find (assign m k v) l ≡ (if k == l then some v else find m l)
  find-assign_if m k l v = elim (Bool-cases (k == l)) [
    | inl same ↦
        rw same (subst (λ z. find (assign m k v) z ≡ some v) (==→eq k l same) (find-assign m k v))
    | inr other ↦ rw other (find-assign_ne m k l v (==→ne k l other))
  ]

  pub get_or-assign :
      (m : List (ℕ × V)) (k l : ℕ) (d v : V)
      → get_or (assign m k v) l d ≡ (if k == l then v else get_or m l d)
  get_or-assign m k l d v = ap (λ o. value_or o d) (find-assign_if m k l v) ∙ value_or-if (k == l)
    where
      value_or-if :
          (c : Bool) → value_or (if c then some v else find m l) d ≡ (if c then v else get_or m l d)
      value_or-if true = refl
      value_or-if false = refl

-- The calls that draw.
pub data Draw (Render : Type 0) : Type 0 where
  message : (group : ℕ) → (content : Render) → Draw Render
  clear : (group : ℕ) → Draw Render

module _ {Render : Type 0} where
  -- A group that was not drawn to since the last collection is `none`, and not an empty one.
  abbrev pub replay : ℕ → List (Draw Render) → Option (List Render) → Option (List Render)
  replay l [] drawn = drawn
  replay l (message group content ∷ cs) drawn =
      replay l cs (if group == l then some (emplaced drawn ++ (content ∷ [])) else drawn)
  replay l (clear group ∷ cs) drawn = replay l cs (if group == l then some [] else drawn)

  emplaced-value_or : (o : Option (List Render)) → value_or o [] ≡ emplaced o
  emplaced-value_or none = refl
  emplaced-value_or (some v) = refl

module _ {Output GameState Render : Type 0} where
  abbrev pub draw : Bot Output GameState Render → Draw Render → Bot Output GameState Render
  draw b (message group content) = send_render_message b group content
  draw b (clear group) = clear_render_group b group

  abbrev pub draw_all :
      Bot Output GameState Render → List (Draw Render) → Bot Output GameState Render
  draw_all b [] = b
  draw_all b (c ∷ cs) = draw_all (draw b c) cs

  abbrev pub drawn_group : Bot Output GameState Render → ℕ → Option (List Render)
  drawn_group b l = find (emplaced b.render_messages) l

  drawn_group-message :
      (b : Bot Output GameState Render) (g l : ℕ) (c : Render)
      → drawn_group (send_render_message b g c) l
        ≡ (if g == l then some (emplaced (drawn_group b l) ++ (c ∷ [])) else drawn_group b l)
  unfolding send_render_message
  drawn_group-message b g l c =
      find-assign_if groups g l (get_or groups g [] ++ (c ∷ [])) ∙ same_group (Bool-cases (g == l))
    where
      groups : List (ℕ × List Render)
      groups = emplaced b.render_messages

      same_group :
          ((g == l) ≡ true) ⊎ ((g == l) ≡ false)
          → (if g == l then some (get_or groups g [] ++ (c ∷ [])) else find groups l)
            ≡ (if g == l then some (emplaced (find groups l) ++ (c ∷ [])) else find groups l)
      same_group (inl same) = rw same (
          ap (λ z. some (z ++ (c ∷ [])))
            (ap (λ k. get_or groups k []) (==→eq g l same) ∙ emplaced-value_or (find groups l)))
      same_group (inr other) = rw other refl

  drawn_group-clear :
      (b : Bot Output GameState Render) (g l : ℕ)
      → drawn_group (clear_render_group b g) l ≡ (if g == l then some [] else drawn_group b l)
  unfolding clear_render_group
  drawn_group-clear b g l = find-assign_if (emplaced b.render_messages) g l []

  -- After any calls that draw to or clear groups, each group that `getRenderMessages` hands on has
  -- the messages sent to it since it was last cleared, in order, also a group that was only cleared;
  -- a group that no call named is as before.
  pub drawn_group-draw_all :
      (cs : List (Draw Render)) (b : Bot Output GameState Render) (l : ℕ)
      → find (emplaced ((get_render_messages (draw_all b cs)).0)) l ≡ replay l cs (drawn_group b l)
  unfolding get_render_messages
  drawn_group-draw_all [] b l = refl
  drawn_group-draw_all (message g c ∷ cs) b l =
      drawn_group-draw_all cs (send_render_message b g c) l
      ∙ ap (replay l cs) (drawn_group-message b g l c)
  drawn_group-draw_all (clear g ∷ cs) b l =
      drawn_group-draw_all cs (clear_render_group b g) l
      ∙ ap (replay l cs) (drawn_group-clear b g l)

  -- An output that is set for an index of the bot is the one that is got for that index; all other
  -- indices keep theirs, and so do all if the bot does not have the index.
  pub get_output-set_output :
      (b : Bot Output GameState Render) (default output : Output) (i j : ℕ)
      → ((get_output default (set_output b i output) j).0)
        ≡ (if contains b.indices i && (i == j) then output else (get_output default b j).0)
  unfolding get_output set_output
  get_output-set_output b default output i j = elim (Bool-cases (contains b.indices i)) [
    | inl has ↦ rw has (get_or-assign b.outputs i j default output)
    | inr lacks ↦ rw lacks refl
  ]
