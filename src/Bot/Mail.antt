-- ===== src/Bot/Mail.antt =====
-- Match comms that a bot sends, and what the manager collects.
use cpp_interface.Prelude.{
  ℕ, ◌≡◌, refl, ap, ◌∙◌, subst, Bool, true, false, Option, none, some, List, [], ◌∷◌, ◌++◌, not,
  ◌&&◌, if◌then◌else◌, is_empty, All, arith, append-nil, append_assoc, Bool-cases, inl, inr, sym,
}
use cpp_interface.Bot.{Bot, MatchComm, contains, emplaced, send_match_comm, get_match_comms}

-- The arguments of a call of `sendMatchComm`.
pub record Request : Type 0 where
  pub index : ℕ
  pub display : List ℕ
  pub content : List ℕ
  pub team_only : Bool

abbrev pub comm : ℕ → Request → MatchComm
comm team r = record {
  index = r.index;
  team = team;
  team_only = r.team_only;
  display = r.display;
  content = r.content;
}

-- A request goes out if the bot has the index, and if it says something.
abbrev pub is_accepted : List ℕ → Request → Bool
is_accepted indices r = contains indices r.index && not (is_empty r.display && is_empty r.content)

abbrev pub accepted : List ℕ → ℕ → List Request → List MatchComm
accepted indices team [] = []
accepted indices team (r ∷ rs) =
    if is_accepted indices r
    then comm team r ∷ accepted indices team rs
    else accepted indices team rs

-- Nothing at all rather than an empty list.
abbrev pub filled : List MatchComm → Option (List MatchComm)
filled [] = none
filled (x ∷ xs) = some (x ∷ xs)

-- The comm is from an index and from the team of the bot.
abbrev pub IsOwn : List ℕ → ℕ → MatchComm → Type 0
IsOwn indices team c = (contains indices c.index ≡ true) × (c.team ≡ team)

filled-snoc :
    (xs : List MatchComm) (c : MatchComm) → filled (xs ++ (c ∷ [])) ≡ some (xs ++ (c ∷ []))
filled-snoc [] c = refl
filled-snoc (x ∷ xs) c = refl

emplaced-filled : (xs : List MatchComm) → emplaced (filled xs) ≡ xs
emplaced-filled [] = refl
emplaced-filled (x ∷ xs) = refl

accepted-IsOwn :
    (indices : List ℕ) (team : ℕ) (rs : List Request)
    → All (IsOwn indices team) (accepted indices team rs)
accepted-IsOwn indices team [] = tt
accepted-IsOwn indices team (r ∷ rs) = elim (Bool-cases (is_accepted indices r)) [
  | inl ok ↦ rw ok ((ground arith, refl), accepted-IsOwn indices team rs)
  | inr refused ↦ rw refused (accepted-IsOwn indices team rs)
]

module _ {Output GameState Render : Type 0} where
  abbrev pub send : Bot Output GameState Render → Request → Bot Output GameState Render
  send b r = send_match_comm b r.index r.display r.content r.team_only

  abbrev pub send_all : Bot Output GameState Render → List Request → Bot Output GameState Render
  send_all b [] = b
  send_all b (r ∷ rs) = send_all (send b r) rs

  send_accepted :
      (b : Bot Output GameState Render) (r : Request)
      → is_accepted b.indices r ≡ true
      → send b r ≡ record b { match_comms = some (emplaced b.match_comms ++ (comm b.team r ∷ [])) }
  unfolding send_match_comm
  send_accepted b r h = ground arith

  send_refused :
      (b : Bot Output GameState Render) (r : Request)
      → is_accepted b.indices r ≡ false
      → send b r ≡ b
  unfolding send_match_comm
  send_refused b r h = ground arith

  send_all_lem :
      (rs : List Request) (b : Bot Output GameState Render) (xs : List MatchComm)
      → b.match_comms ≡ filled xs
      → (send_all b rs).match_comms ≡ filled (xs ++ accepted b.indices b.team rs)
  send_all_lem [] b xs h = h ∙ ap filled (sym (append-nil xs))
  send_all_lem (r ∷ rs) b xs h = elim (Bool-cases (is_accepted b.indices r)) [
    | inl ok ↦
        let c : MatchComm = comm b.team r in
        let grown : some (emplaced b.match_comms ++ (c ∷ [])) ≡ filled (xs ++ (c ∷ [])) =
          ap (λ o. some (emplaced o ++ (c ∷ []))) h
          ∙ ap (λ ys. some (ys ++ (c ∷ []))) (emplaced-filled xs)
          ∙ sym (filled-snoc xs c) in
        ap (λ d. (send_all d rs).match_comms) (send_accepted b r ok)
        ∙ send_all_lem rs (record b { match_comms = some (emplaced b.match_comms ++ (c ∷ [])) })
            (xs ++ (c ∷ [])) grown
        ∙ ap filled (append_assoc xs (c ∷ []) (accepted b.indices b.team rs))
        ∙ ap (λ ys. filled (xs ++ ys)) (rest ok)
    | inr refused ↦
        ap (λ d. (send_all d rs).match_comms) (send_refused b r refused)
        ∙ send_all_lem rs b xs h
        ∙ ap (λ ys. filled (xs ++ ys)) (skip refused)
  ]
    where
      rest :
          is_accepted b.indices r ≡ true
          → comm b.team r ∷ accepted b.indices b.team rs ≡ accepted b.indices b.team (r ∷ rs)
      rest ok = rw ok

      skip :
          is_accepted b.indices r ≡ false
          → accepted b.indices b.team rs ≡ accepted b.indices b.team (r ∷ rs)
      skip refused = rw refused

  -- After any calls of `sendMatchComm` with nothing collected before, `getMatchComms` hands on the
  -- comms of the calls with an index of the bot and some text, in the order of the calls, nothing if
  -- there is none; each has an index and the team of the bot, and a second `getMatchComms` gets
  -- nothing.
  pub get_match_comms-send_all :
      (b : Bot Output GameState Render) (rs : List Request)
      → b.match_comms ≡ none
      → ((get_match_comms (send_all b rs)).0 ≡ filled (accepted b.indices b.team rs))
        × All (IsOwn b.indices b.team) (emplaced ((get_match_comms (send_all b rs)).0))
        × ((get_match_comms ((get_match_comms (send_all b rs)).1)).0 ≡ none)
  unfolding get_match_comms
  get_match_comms-send_all b rs h =
      let collected : (send_all b rs).match_comms ≡ filled (accepted b.indices b.team rs) =
        send_all_lem rs b [] h in
      (
        collected,
        subst (All (IsOwn b.indices b.team))
            (sym (ap emplaced collected ∙ emplaced-filled (accepted b.indices b.team rs)))
            (accepted-IsOwn b.indices b.team rs),
        refl,
      )
