-- ===== src/Client/Writer/History.antt =====
-- Sends and completions in any order: the socket gets the frames that were sent, in order.
use mathlib.Core.Path.{subst}
use mathlib.Core.Option.{some-injective}
use mathlib.Core.List.{map-append}
use cpp_interface.Prelude.{
  ℕ, zero, suc, ◌≤◌, ◌<◌, ◌^◌, ◌≡◌, refl, ap, sym, ◌∙◌, some, List, [], ◌∷◌, ◌++◌, length, drop,
  take, map, concat, concat-append, append-nil, append_assoc, arith, Option, drop-append_le,
  length-append, take-append-drop,
}
use cpp_interface.Message.{Message}
use cpp_interface.Client.Reader.Loop.{bytes_of}
use cpp_interface.Client.Writer.{
  Writer, Ring, Submission, preallocated_buffers, request_write, handle_write, send_message,
}
use cpp_interface.Client.Writer.Unsent.{IsWhole, IsStart, stream_of, unsent}
use cpp_interface.Client.Writer.Requests.{IsWriter, in_flight}
use cpp_interface.Client.Writer.Calls.{
  IsGathered, Owes, handle_write-Owes, send_message-Owes, request_write-IsGathered,
}

-- A history of the writer: the frames that were sent, and the bytes that the socket has taken.
pub data Runs (w : Writer) : List (List ℕ) → List ℕ → Writer → Type 0 where
  begin : Runs w [] [] w
  then_send :
      {fs : List (List ℕ)} {out : List ℕ} {u : Writer}
      → Runs w fs out u
      → (ring : Ring) (m : Message) → IsWhole m
      → preallocated_buffers ≤ ring.free
      → {v : Writer} {s : Submission} → send_message ring u m ≡ some (v, s)
      → Runs w (fs ++ (bytes_of m ∷ [])) out v
  then_complete :
      {fs : List (List ℕ)} {out : List ℕ} {u : Writer}
      → Runs w fs out u
      → (ring : Ring) (count : ℕ) → 0 < length u.output_queue
      → preallocated_buffers ≤ ring.free
      → count < 2 ^ 64
      → count ≤ length (in_flight u)
      → {v : Writer} {s : Submission} → handle_write ring u count ≡ some (v, s)
      → Runs w fs (out ++ take count (in_flight u)) v
  then_wake :
      {fs : List (List ℕ)} {out : List ℕ} {u : Writer}
      → Runs w fs out u
      → (ring : Ring) {v : Writer} {s : Submission} → request_write ring u ≡ some (v, s)
      → Runs w fs out v

-- What the socket has taken and what it is owed make up what was owed and the frames sent since.
pub record Delivers (w : Writer) (fs : List (List ℕ)) (out : List ℕ) (v : Writer) : Type 0 where
  pub active : IsGathered v
  pub balance : out ++ unsent v ≡ unsent w ++ concat fs

abbrev Outcome : Type 0
Outcome = Option (Writer × Submission)

outcome_path :
    {u v : Writer} {s t : Submission} → ◌≡◌ {A = Outcome} (some (u, s)) (some (v, t)) → u ≡ v
outcome_path e = ap (λ t. t.0) (some-injective _ _ e)

Owes-unique :
    {owed : List ℕ} {o : Outcome} {v : Writer} {s : Submission}
    → Owes owed o
    → o ≡ some (v, s)
    → IsGathered v × (unsent v ≡ owed)
Owes-unique {owed} (u, t, e, a, b) f =
    let same = outcome_path (sym e ∙ f) in
    (subst IsGathered same a, subst (λ x. unsent x ≡ owed) same b)

stream_of-split :
    (n : ℕ) (queue : List Message)
    → stream_of (take n queue) ++ stream_of (drop n queue) ≡ stream_of queue
stream_of-split n queue =
    sym (concat-append (map bytes_of (take n queue)) (map bytes_of (drop n queue)))
    ∙ ap concat (sym (map-append bytes_of (take n queue) (drop n queue)))
    ∙ ap stream_of (take-append-drop n queue)

start_within :
    (start : ℕ) (queue : List Message) (n : ℕ)
    → IsStart start queue
    → 0 < n
    → start ≤ length (stream_of (take n queue))
start_within start [] n h p = omega (arith, h)
start_within start (m ∷ queue) zero h p = absurd (omega arith)
start_within start (m ∷ queue) (suc n) h p =
    omega (arith, length-append (bytes_of m) (stream_of (take n queue)))

-- What is in flight stands first among what is owed.
take-drop_prefix :
    (count : ℕ) (xs ys : List ℕ)
    → count ≤ length xs
    → take count xs ++ drop count (xs ++ ys) ≡ xs ++ ys
take-drop_prefix count xs ys h =
    ap (λ zs. take count xs ++ zs) (drop-append_le count xs ys h)
    ∙ sym (append_assoc (take count xs) (drop count xs) ys)
    ∙ ap (λ zs. zs ++ ys) (take-append-drop count xs)

length-drop-nil : (start : ℕ) → length (drop {A = ℕ} start []) ≡ 0
length-drop-nil zero = refl
length-drop-nil (suc start) = refl

take-in_flight_step :
    (start : ℕ) (queue : List Message) (n count : ℕ)
    → IsStart start queue
    → count ≤ length (drop start (stream_of (take n queue)))
    → take count (drop start (stream_of (take n queue)))
        ++ drop count (drop start (stream_of queue))
      ≡ drop start (stream_of queue)
take-in_flight_step start queue zero zero h fits = refl
take-in_flight_step start queue zero (suc count) h fits =
    absurd (omega (arith, length-drop-nil start))
take-in_flight_step start queue (suc n) count h fits =
    let front : List ℕ = stream_of (take (suc n) queue) in
    let back : List ℕ = stream_of (drop (suc n) queue) in
    let split : drop start (stream_of queue) ≡ drop start front ++ back =
      ap (drop start) (sym (stream_of-split (suc n) queue))
      ∙ drop-append_le start front back (start_within start queue (suc n) h (omega arith)) in
    ap (λ zs. take count (drop start front) ++ drop count zs) split
    ∙ take-drop_prefix count (drop start front) back fits
    ∙ sym split

pub take-in_flight :
    (w : Writer) (count : ℕ)
    → IsWriter w
    → count ≤ length (in_flight w)
    → take count (in_flight w) ++ drop count (unsent w) ≡ unsent w
take-in_flight w count v fits =
    take-in_flight_step w.out_start w.output_queue (length w.iov) count v.started fits

snoc_frames : (fs : List (List ℕ)) (f : List ℕ) → concat (fs ++ (f ∷ [])) ≡ concat fs ++ f
snoc_frames fs f = concat-append fs (f ∷ []) ∙ ap (λ xs. concat fs ++ xs) (append-nil f)

-- In every history from a writer in order, with 32 free entries in the ring at every send and
-- completion, what the socket has taken, followed by what it is still
-- owed, is what it was owed at first followed by the frames sent since, in the order of the sends;
-- and the list of iovs is not empty as long as anything is queued.
pub Runs-Delivers :
    {w v : Writer} {fs : List (List ℕ)} {out : List ℕ}
    → IsGathered w
    → Runs w fs out v
    → Delivers w fs out v
Runs-Delivers {w} a begin = record { active = a; balance = sym (append-nil (unsent w)) }
Runs-Delivers {w} a (then_send {fs} {out} {u} before ring m whole room {v} e) =
    let d = Runs-Delivers a before in
    let (active, owed) = Owes-unique (send_message-Owes ring u m d.active whole room) e in
    record {
      active = active;
      balance =
          ap (λ xs. out ++ xs) owed
          ∙ sym (append_assoc out (unsent u) (bytes_of m))
          ∙ ap (λ xs. xs ++ bytes_of m) d.balance
          ∙ append_assoc (unsent w) (concat fs) (bytes_of m)
          ∙ ap (λ xs. unsent w ++ xs) (sym (snoc_frames fs (bytes_of m)));
    }
Runs-Delivers {w} a
      (then_complete {fs} {out} {u} before ring count some_queued room max fits {v} e) =
    let d = Runs-Delivers a before in
    let (active, owed) =
      Owes-unique (handle_write-Owes ring u count d.active.valid some_queued room max fits) e in
    record {
      active = active;
      balance =
          append_assoc out (take count (in_flight u)) (unsent v)
          ∙ ap (λ xs. out ++ xs)
              (ap (λ xs. take count (in_flight u) ++ xs) owed
                ∙ take-in_flight u count d.active.valid fits)
          ∙ d.balance;
    }
Runs-Delivers {w} a (then_wake {fs} {out} {u} before ring {v} e) =
    let d = Runs-Delivers a before in
    let same = outcome_path (sym (request_write-IsGathered ring u d.active) ∙ e) in
    subst (Delivers w fs out) same d
