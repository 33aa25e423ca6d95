-- ===== src/Program/Sending.antt =====
-- What is owed to the socket after some sends, and what the manager makes of some messages.
use cpp_interface.Prelude.{
  ℕ, suc, ◌≡◌, refl, ap, sym, ◌∙◌, ◌≤◌, ◌<◌, Bool, true, false, ◌||◌, Option, none, some, List, [],
  ◌∷◌, ◌++◌, ◌>>=◌, map, concat, length, All, append-nil, append_assoc, ltb, if◌then◌else◌,
  Bool-cases, Option-cases, inl, inr, ltb→lt, not_ltb→le,
}
use cpp_interface.Buffer.{IsBytes}
use cpp_interface.Message.{max_payload}
use cpp_interface.Client.Writer.{Writer, nothing, preallocated_buffers, send_interface_packet}
use cpp_interface.Client.Writer.Unsent.{unsent}
use cpp_interface.Client.Writer.Calls.{IsGathered, Owes}
use cpp_interface.Client.Writer.Packets.{
  frame, send_interface_packet-Owes, send_interface_packet_large,
}
use cpp_interface.BotManager.Dispatch.{World, Manager, Sent, handle_message}
use cpp_interface.Program.{Answers, is_failed, send_each, handle_each}

-- What a packet adds to the bytes for the socket: its frame, or nothing if it is too long.
abbrev pub emitted : List ℕ → List ℕ
emitted payload = if ltb max_payload (length payload) then [] else frame payload

abbrev pub AreBytes : List ℕ → Type 0
AreBytes xs = All (λ x. x < 256) xs

-- There is room in the ring, and buffers hold bytes.
abbrev pub IsReady : Answers → Type 0
IsReady answers = (k : ℕ) → (preallocated_buffers ≤ (answers k).0.free) × IsBytes (answers k).1

pub send_interface_packet-emitted :
    (answers : Answers) (w : Writer) (payload : List ℕ)
    → IsReady answers
    → IsGathered w
    → AreBytes payload
    → Owes
        (unsent w ++ emitted payload)
        (send_interface_packet (answers 0).0 (answers 0).1 w payload)
send_interface_packet-emitted answers w payload ready a bytes =
    elim (Bool-cases (ltb max_payload (length payload))) [
      | inl large ↦ (
        w,
        nothing,
        send_interface_packet_large (answers 0).0 (answers 0).1 w payload
            (ltb→lt max_payload (length payload) large),
        a,
        rw large (sym (append-nil (unsent w))),
      )
      | inr small ↦ rw small (
          send_interface_packet-Owes (answers 0).0 (answers 0).1 w payload a (ready 0).1 bytes
            (not_ltb→le max_payload (length payload) small) (ready 0).0)
    ]

-- All that is sent is owed in its order.
pub send_each-emitted :
    (answers : Answers) (w : Writer) (payloads : List (List ℕ))
    → IsReady answers
    → IsGathered w
    → All AreBytes payloads
    → (v : Writer) × (broken : Bool) × ((send_each answers w payloads ≡ some (v, broken))
        × IsGathered v
        × (unsent v ≡ unsent w ++ concat (map emitted payloads)))
unfolding send_each
send_each-emitted answers w [] ready a bytes = (w, false, (refl, a, sym (append-nil (unsent w))))
send_each-emitted answers w (payload ∷ payloads) ready a bytes =
    let (u, s, sent, active, owed) =
      send_interface_packet-emitted answers w payload ready a bytes.0 in
    let (v, broken, (done, active', owed')) =
      send_each-emitted (λ k. answers (suc k)) u payloads (λ k. ready (suc k)) active bytes.1 in
    (
      v,
      is_failed s || broken,
      (
        rw (sent, done) refl,
        active',
        owed'
            ∙ ap (λ xs. xs ++ concat (map emitted payloads)) owed
            ∙ append_assoc (unsent w) (emitted payload) (concat (map emitted payloads)),
      ),
    )

||-assoc : (a b c : Bool) → ((a || b) || c) ≡ (a || (b || c))
||-assoc true b c = refl
||-assoc false b c = refl

module _ {User Output GameState Render Loadout : Type 0}
    (world : World (List ℕ) User Output GameState Render Loadout) where
  abbrev Handled : Type 0
  Handled = Option (
      Manager (List ℕ) User Output GameState Render
      × List (Sent Output GameState Render Loadout)
      × Bool)

  -- What was sent and said before goes first.
  abbrev pub after : List (Sent Output GameState Render Loadout) → Bool → Handled → Handled
  after s stop o = o >>= λ (n, t, later). some (n, s ++ t, stop || later)

  abbrev pub then_each : List (List ℕ) → Handled → Handled
  then_each ys o = o >>= λ (n, s, stop). after s stop (handle_each world n ys)

  after-after :
      (s t : List (Sent Output GameState Render Loadout)) (a b : Bool) (o : Handled)
      → after s a (after t b o) ≡ after (s ++ t) (a || b) o
  after-after s t a b none = refl
  after-after s t a b (some (n, u, later)) =
      λ i. some (n, sym (append_assoc s t u) i, sym (||-assoc a b later) i)

  then_each-after :
      (ys : List (List ℕ)) (s : List (Sent Output GameState Render Loadout)) (stop : Bool)
      (o : Handled)
      → then_each ys (after s stop o) ≡ after s stop (then_each ys o)
  then_each-after ys s stop none = refl
  then_each-after ys s stop (some (n, t, later)) =
      sym (after-after s t stop later (handle_each world n ys))

  after_none : (o : Handled) → after [] false o ≡ o
  after_none none = refl
  after_none (some (n, t, later)) = refl

  -- Messages handled in two parts.
  pub handle_each-append :
      (m : Manager (List ℕ) User Output GameState Render) (xs ys : List (List ℕ))
      → handle_each world m (xs ++ ys) ≡ then_each ys (handle_each world m xs)
  unfolding handle_each
  handle_each-append m [] ys = sym (after_none (handle_each world m ys))
  handle_each-append m (x ∷ xs) ys = elim (Option-cases (handle_message world m x)) [
    | inl aborted ↦ rw aborted refl
    | inr ((n, s, stop), handled) ↦ rw handled (
        ap (after s stop) (handle_each-append n xs ys)
        ∙ sym (then_each-after ys s stop (handle_each world n xs)))
  ]
