-- ===== src/BotContext/Inbox.antt =====
-- library/BotContext.cpp: the match comms that come in, and those that the bot of the user hears.
use cpp_interface.Prelude.{
  ℕ, ◌≡◌, refl, ap, ap₂, ◌∙◌, sym, Bool, true, false, Option, none, some, List, [], ◌∷◌, ◌++◌, ◌==◌,
  not, ◌&&◌, if◌then◌else◌, ◌>>=◌, Bool-cases, inl, inr, append-nil, append_assoc, All,
}
use cpp_interface.Bot.{Bot, contains}
use cpp_interface.BotContext.{
  BotContext, Hooks, handle_comms, handle_game_packet, service_loop, set_game_packet,
  set_ball_prediction, add_match_comm, keep_game_packet, keep_ball_prediction, keep_match_comm,
  is_game_packet, is_ball_prediction, is_match_comm,
}
use cpp_interface.BotContext.Work.{IsFaithful, IsPolite, heard_user, service_loop_at}

-- What happens to a context: mail comes in, or its thread runs a round.
pub data Event (Mail : Type 0) : Type 0 where
  comm : Mail → Event Mail
  packet : Mail → Event Mail
  ball : Mail → Event Mail
  round : Event Mail

module _ {Mail User Output GameState Render : Type 0} where
  -- A comm is for the bot unless an index of the bot sent it, or it is for another team only.
  abbrev pub is_for : Hooks Mail User Output GameState Render → List ℕ → ℕ → Mail → Bool
  is_for hooks indices team m =
      not (contains indices (hooks.comm_index m))
      && not (hooks.comm_team_only m && not (hooks.comm_team m == team))

  abbrev pub addressed :
      Hooks Mail User Output GameState Render → List ℕ → ℕ → List (Event Mail) → List Mail
  addressed hooks indices team [] = []
  addressed hooks indices team (comm m ∷ es) =
      if is_for hooks indices team m
      then m ∷ addressed hooks indices team es
      else addressed hooks indices team es
  addressed hooks indices team (packet m ∷ es) = addressed hooks indices team es
  addressed hooks indices team (ball m ∷ es) = addressed hooks indices team es
  addressed hooks indices team (round ∷ es) = addressed hooks indices team es

  unfoldable pub happen :
      Hooks Mail User Output GameState Render
      → BotContext Mail User Output GameState Render
      → Event Mail
      → Option (BotContext Mail User Output GameState Render)
  happen hooks c (comm m) = add_match_comm hooks c m
  happen hooks c (packet m) = set_game_packet hooks c m
  happen hooks c (ball m) = set_ball_prediction hooks c m
  happen hooks c round = service_loop hooks c >>= λ (worked, ps, d). some d

  unfoldable pub happen_all :
      Hooks Mail User Output GameState Render
      → BotContext Mail User Output GameState Render
      → List (Event Mail)
      → Option (BotContext Mail User Output GameState Render)
  happen_all hooks c [] = some c
  happen_all hooks c (e ∷ es) = happen hooks c e >>= λ d. happen_all hooks d es

  -- A message of the type that its setter asserts, and a comm that is there.
  abbrev pub IsTyped : Hooks Mail User Output GameState Render → Event Mail → Type 0
  IsTyped hooks (comm m) =
      (is_match_comm (hooks.core_packet m) ≡ true) × (hooks.has_match_comm m ≡ true)
  IsTyped hooks (packet m) = is_game_packet (hooks.core_packet m) ≡ true
  IsTyped hooks (ball m) = is_ball_prediction (hooks.core_packet m) ≡ true
  IsTyped hooks round = Unit

module _ {Mail Output GameState Render : Type 0} where
  -- A bot whose state is the list of the comms that it heard.
  abbrev pub IsRecorder : Hooks Mail (List Mail) Output GameState Render → Type 0
  IsRecorder hooks =
      ((m : Mail) (u : List Mail) (b : Bot Output GameState Render)
        → (hooks.on_match_comm m u b).0 ≡ u ++ (m ∷ []))
      × ((m : Mail) (ball : Option Mail) (u : List Mail) (b : Bot Output GameState Render)
          → (hooks.on_update m ball u b).0 ≡ u)

  handle_comms-IsRecorder :
      (hooks : Hooks Mail (List Mail) Output GameState Render)
      → IsRecorder hooks
      → (ms u : List Mail) (b : Bot Output GameState Render)
      → (handle_comms hooks ms (u, b)).0 ≡ u ++ ms
  unfolding handle_comms
  handle_comms-IsRecorder hooks records [] u b = sym (append-nil u)
  handle_comms-IsRecorder hooks records (m ∷ ms) u b =
      let told = hooks.on_match_comm m u b in
      handle_comms-IsRecorder hooks records ms told.0 told.1
      ∙ ap (λ v. v ++ ms) (records.0 m u b)
      ∙ append_assoc u (m ∷ []) ms

  handle_game_packet-IsRecorder :
      (hooks : Hooks Mail (List Mail) Output GameState Render)
      → IsRecorder hooks
      → (is : List ℕ) (packet ball : Option Mail) (u : List Mail) (b : Bot Output GameState Render)
      → (handle_game_packet hooks is packet ball (u, b)).1 ≡ u
  unfolding handle_game_packet
  handle_game_packet-IsRecorder hooks records is none prediction u b = refl
  handle_game_packet-IsRecorder hooks records is (some m) prediction u b =
      records.1 m prediction u b

  heard_user-IsRecorder :
      (hooks : Hooks Mail (List Mail) Output GameState Render)
      (c : BotContext Mail (List Mail) Output GameState Render)
      → IsRecorder hooks
      → heard_user hooks c ≡ c.user ++ c.match_comms_in
  heard_user-IsRecorder hooks c records =
      let heard = handle_comms hooks c.match_comms_in (c.user, c.bot) in
      handle_game_packet-IsRecorder hooks records c.indices c.game_packet c.ball_prediction heard.0
        heard.1
      ∙ handle_comms-IsRecorder hooks records c.match_comms_in c.user c.bot

  -- The context has heard these comms or has them in its inbox.
  abbrev pub Keeps :
      List ℕ → ℕ → List Mail → BotContext Mail (List Mail) Output GameState Render → Type 0
  Keeps indices team comms c =
      (c.user ++ c.match_comms_in ≡ comms) × (c.indices ≡ indices) × IsFaithful indices team c.bot

  -- An own comm, or one for another team only, is not kept.
  keep_match_comm_lem :
      (hooks : Hooks Mail (List Mail) Output GameState Render)
      (c : BotContext Mail (List Mail) Output GameState Render) (m : Mail)
      → keep_match_comm hooks c m ≡ record c {
        match_comms_in =
            c.match_comms_in ++ (if is_for hooks c.bot.indices c.bot.team m then m ∷ [] else []);
      }
  unfolding keep_match_comm
  keep_match_comm_lem hooks c m =
      by_tests (contains c.bot.indices (hooks.comm_index m))
        (hooks.comm_team_only m && not (hooks.comm_team m == c.bot.team))
    where
      by_tests :
          (own foreign : Bool)
          → (if own
              then c
              else if foreign
              then c
              else record c { match_comms_in = c.match_comms_in ++ (m ∷ []) })
            ≡ record c {
              match_comms_in = c.match_comms_in ++ (if not own && not foreign then m ∷ [] else []);
            }
      by_tests true foreign = λ i. record c { match_comms_in = sym (append-nil c.match_comms_in) i }
      by_tests false true = λ i. record c { match_comms_in = sym (append-nil c.match_comms_in) i }
      by_tests false false = refl

  happen-Keeps :
      (hooks : Hooks Mail (List Mail) Output GameState Render) (indices : List ℕ) (team : ℕ)
      (comms : List Mail) (c : BotContext Mail (List Mail) Output GameState Render) (e : Event Mail)
      → IsRecorder hooks
      → IsPolite hooks indices team
      → IsTyped hooks e
      → Keeps indices team comms c
      → (d : BotContext Mail (List Mail) Output GameState Render) × ((happen hooks c e ≡ some d)
          × Keeps indices team (comms ++ addressed hooks indices team (e ∷ [])) d)
  unfolding happen add_match_comm set_game_packet set_ball_prediction keep_game_packet
      keep_ball_prediction
  happen-Keeps hooks indices team comms c (comm m) records polite typed (kept, same, faithful) =
      let new : List Mail = if is_for hooks c.bot.indices c.bot.team m then m ∷ [] else [] in
      let known : new ≡ addressed hooks indices team (comm m ∷ []) =
        ap₂ (λ is t. if is_for hooks is t m then m ∷ [] else []) faithful.0 faithful.1 in
      (
        record c { match_comms_in = c.match_comms_in ++ new },
        (
          rw (typed.0, typed.1) (ap some (keep_match_comm_lem hooks c m)),
          (
            sym (append_assoc c.user c.match_comms_in new) ∙ ap₂ (λ xs ys. xs ++ ys) kept known,
            same,
            faithful,
          ),
        ),
      )
  happen-Keeps hooks indices team comms c (packet m) records polite typed (kept, same, faithful) =
      (keep_game_packet c m, (rw typed refl, (kept ∙ sym (append-nil comms), same, faithful)))
  happen-Keeps hooks indices team comms c (ball m) records polite typed (kept, same, faithful) =
      (keep_ball_prediction c m, (rw typed refl, (kept ∙ sym (append-nil comms), same, faithful)))
  happen-Keeps hooks indices team comms c round records polite typed (kept, same, faithful) =
      let (ps, d, (done, idle, same', still, heard, emptied)) =
        service_loop_at hooks indices team c polite same faithful in
      (
        d,
        (
          ap (λ o. o >>= λ (worked, qs, e). some e) done,
          (
            ap₂ (λ xs ys. xs ++ ys) (heard ∙ heard_user-IsRecorder hooks c records) emptied
                ∙ append-nil (c.user ++ c.match_comms_in)
                ∙ kept
                ∙ sym (append-nil comms),
            same',
            still,
          ),
        ),
      )

  addressed-cons :
      (hooks : Hooks Mail (List Mail) Output GameState Render) (indices : List ℕ) (team : ℕ)
      (e : Event Mail) (es : List (Event Mail))
      → addressed hooks indices team (e ∷ []) ++ addressed hooks indices team es
        ≡ addressed hooks indices team (e ∷ es)
  addressed-cons hooks indices team (comm m) es = elim (Bool-cases (is_for hooks indices team m)) [
    | inl mine ↦ rw mine refl
    | inr other ↦ rw other refl
  ]
  addressed-cons hooks indices team (packet m) es = refl
  addressed-cons hooks indices team (ball m) es = refl
  addressed-cons hooks indices team round es = refl

  -- For a bot that records what it hears, with hooks that leave a faithful bot faithful: whatever
  -- comes in of the types that the setters assert, with comms that are not null, and whenever the
  -- thread runs a round, no assertion fails, and what the bot has heard followed by what waits in
  -- its inbox is what that was at the start followed by the comms that came in and are for the bot,
  -- each once and in their order.
  pub happen_all-Keeps :
      (hooks : Hooks Mail (List Mail) Output GameState Render) (indices : List ℕ) (team : ℕ)
      (es : List (Event Mail)) (comms : List Mail)
      (c : BotContext Mail (List Mail) Output GameState Render)
      → IsRecorder hooks
      → IsPolite hooks indices team
      → All (IsTyped hooks) es
      → Keeps indices team comms c
      → (d : BotContext Mail (List Mail) Output GameState Render) × ((happen_all hooks c es
            ≡ some d)
          × Keeps indices team (comms ++ addressed hooks indices team es) d)
  unfolding happen_all
  happen_all-Keeps hooks indices team [] comms c records polite typed keeps =
      (c, (refl, (keeps.0 ∙ sym (append-nil comms), keeps.1, keeps.2)))
  happen_all-Keeps hooks indices team (e ∷ es) comms c records polite typed keeps =
      let (d, (done, keeps')) =
        happen-Keeps hooks indices team comms c e records polite typed.0 keeps in
      let (d', (done', all)) =
        happen_all-Keeps hooks indices team es (comms ++ addressed hooks indices team (e ∷ [])) d
          records polite typed.1 keeps' in
      (
        d',
        (
          ap (λ o. o >>= λ x. happen_all hooks x es) done ∙ done',
          (
            all.0
                ∙ append_assoc comms (addressed hooks indices team (e ∷ []))
                    (addressed hooks indices team es)
                ∙ ap (λ ys. comms ++ ys) (addressed-cons hooks indices team e es),
            all.1,
            all.2,
          ),
        ),
      )
