-- ===== src/Program/Refinement.antt =====
-- Runs of the process: reads, writes and the sends of other threads, in any order.
use mathlib.Core.Path.{subst}
use mathlib.Core.Option.{some-injective}
use mathlib.Core.List.{map-append}
use cpp_interface.Prelude.{
  ℕ, ◌≡◌, refl, ap, ap₂, sym, ◌∙◌, ◌≤◌, ◌<◌, ◌^◌, Bool, false, ◌||◌, none, some, List, [], ◌∷◌,
  ◌++◌, map, concat, concat-append, take, length, arith, inl, inr, append-nil, append_assoc,
}
use cpp_interface.Buffer.{Buffer, IsBytes}
use cpp_interface.Message.Frames.{IsIncomplete, Framed, Framed-append}
use cpp_interface.Client.Reader.Loop.{pending}
use cpp_interface.Client.Writer.{Ring, preallocated_buffers}
use cpp_interface.Client.Writer.Unsent.{unsent}
use cpp_interface.Client.Writer.Requests.{in_flight}
use cpp_interface.Client.Writer.Calls.{handle_write-Owes}
use cpp_interface.Client.Writer.History.{take-in_flight}
use cpp_interface.BotManager.Dispatch.{World, Manager, Sent}
use cpp_interface.Program.{Program, Answers, is_failed, handle_each, on_read, on_write, on_send}
use cpp_interface.Program.Sending.{
  emitted, AreBytes, IsReady, send_interface_packet-emitted, handle_each-append, then_each, after,
}
use cpp_interface.Program.Steps.{IsSound, Fits, SerializesBytes, on_read-Read}

-- A payload that was sent, by the manager's thread or by another one.
pub data Logged : Type 0 where
  by_manager by_other : (payload : List ℕ) → Logged

abbrev pub payload_of : Logged → List ℕ
payload_of (by_manager payload) = payload
payload_of (by_other payload) = payload

abbrev pub of_manager : List Logged → List (List ℕ)
of_manager [] = []
of_manager (by_manager payload ∷ log) = payload ∷ of_manager log
of_manager (by_other payload ∷ log) = of_manager log

-- The bytes of all that was sent.
abbrev pub emitted_all : List Logged → List ℕ
emitted_all log = concat (map (λ e. emitted (payload_of e)) log)

of_manager-append :
    (log more : List Logged) → of_manager (log ++ more) ≡ of_manager log ++ of_manager more
of_manager-append [] more = refl
of_manager-append (by_manager payload ∷ log) more =
    ap (λ ps. payload ∷ ps) (of_manager-append log more)
of_manager-append (by_other payload ∷ log) more = of_manager-append log more

of_manager-map : (ps : List (List ℕ)) → of_manager (map by_manager ps) ≡ ps
of_manager-map [] = refl
of_manager-map (payload ∷ ps) = ap (λ qs. payload ∷ qs) (of_manager-map ps)

emitted_all-append :
    (log more : List Logged) → emitted_all (log ++ more) ≡ emitted_all log ++ emitted_all more
emitted_all-append log more =
    ap concat (map-append (λ e. emitted (payload_of e)) log more)
    ∙ concat-append (map (λ e. emitted (payload_of e)) log) (map (λ e. emitted (payload_of e)) more)

emitted_all-map : (ps : List (List ℕ)) → emitted_all (map by_manager ps) ≡ concat (map emitted ps)
emitted_all-map [] = refl
emitted_all-map (payload ∷ ps) = ap (λ xs. emitted payload ++ xs) (emitted_all-map ps)

is_none : {A : Type 0} {a : A} → none ≡ some a → ⊥
is_none e = ground (arith, e)

module _ {User Output GameState Render Loadout : Type 0}
    (world : World (List ℕ) User Output GameState Render Loadout)
    (serialize : Sent Output GameState Render Loadout → List ℕ) where
  -- A run of the process from `p`: the bytes that it has read, the payloads that it has sent, and
  -- the bytes that the socket has taken. While the flag to quit is not set, the service thread goes
  -- on.
  pub data Session (p : Program User Output GameState Render)
      : List ℕ → List Logged → List ℕ → Program User Output GameState Render → Type 0 where
    begin : Session p [] [] [] p
    then_read :
        {stream : List ℕ} {log : List Logged} {out : List ℕ}
        {q : Program User Output GameState Render}
        → Session p stream log out q
        → q.quit ≡ false
        → (spare next : Buffer) (answers : Answers) (chunk : List ℕ) → IsBytes spare
        → IsBytes next
        → IsReady answers
        → Fits q.reader chunk
        → {t : Program User Output GameState Render}
          {sent : List (Sent Output GameState Render Loadout)}
        → on_read world serialize spare next answers chunk q ≡ some (t, sent)
        → Session p (stream ++ chunk) (log ++ map by_manager (map serialize sent)) out t
    then_write :
        {stream : List ℕ} {log : List Logged} {out : List ℕ}
        {q : Program User Output GameState Render}
        → Session p stream log out q
        → q.quit ≡ false
        → (ring : Ring) (count : ℕ) → 0 < length q.writer.output_queue
        → preallocated_buffers ≤ ring.free
        → count < 2 ^ 64
        → count ≤ length (in_flight q.writer)
        → {t : Program User Output GameState Render} → on_write ring count q ≡ some t
        → Session p stream log (out ++ take count (in_flight q.writer)) t
    then_send :
        {stream : List ℕ} {log : List Logged} {out : List ℕ}
        {q : Program User Output GameState Render}
        → Session p stream log out q
        → (answers : Answers) (payload : List ℕ) → IsReady answers
        → AreBytes payload
        → {t : Program User Output GameState Render}
        → on_send (answers 0).0 (answers 0).1 payload q ≡ some t
        → Session p stream (log ++ (by_other payload ∷ [])) out t

  -- What a run has done, seen from outside: the manager has handled the complete frames of the
  -- stream, and what it has sent and what others have sent is what the socket has taken or is owed.
  pub record Refines (p : Program User Output GameState Render) (stream : List ℕ)
      (log : List Logged) (out : List ℕ) (q : Program User Output GameState Render) : Type 0 where
    pub sound : IsSound q
    pub frames : List (List ℕ)
    pub sent : List (Sent Output GameState Render Loadout)
    pub stop : Bool
    pub framed : Framed (pending p.reader ++ stream) frames (pending q.reader)
    pub handled : handle_each world p.manager frames ≡ some (q.manager, sent, stop)
    pub logged : of_manager log ≡ map serialize sent
    pub balance : out ++ unsent q.writer ≡ unsent p.writer ++ emitted_all log

  begun :
      (m : Manager (List ℕ) User Output GameState Render)
      → handle_each world m [] ≡ some (m, [], false)
  unfolding handle_each
  begun m = refl

  -- A read, after a run.
  read-Refines :
      (p q t : Program User Output GameState Render) (stream : List ℕ) (log : List Logged)
      (out : List ℕ) (spare next : Buffer) (answers : Answers) (chunk : List ℕ)
      (sent : List (Sent Output GameState Render Loadout))
      → SerializesBytes world serialize
      → Refines p stream log out q
      → IsBytes spare
      → IsBytes next
      → IsReady answers
      → Fits q.reader chunk
      → on_read world serialize spare next answers chunk q ≡ some (t, sent)
      → Refines p (stream ++ chunk) (log ++ map by_manager (map serialize sent)) out t
  read-Refines p q t stream log out spare next answers chunk sent serial h sp nx ready fits e =
      let (fs, rest, (framed, cases)) =
        on_read-Read world serialize spare next answers chunk q serial sp nx ready h.sound fits in
      elim cases [
        | inl (aborted, none_read) ↦ absurd (is_none (sym none_read ∙ e))
        | inr (u, more, stop, (done, handled, sound, left, owed)) ↦
            let bytes = concat (map emitted (map serialize more)) in
            subst
              (λ x. Refines p (stream ++ chunk) (log ++ map by_manager (map serialize x.1)) out x.0)
              (some-injective _ _ (sym done ∙ e))
              (record {
                sound = sound;
                frames = h.frames ++ fs;
                sent = h.sent ++ more;
                stop = h.stop || stop;
                framed =
                    subst (λ xs. Framed xs (h.frames ++ fs) (pending u.reader))
                      (append_assoc (pending p.reader) stream chunk)
                      (Framed-append chunk h.framed
                        (subst (λ ys. Framed (pending q.reader ++ chunk) fs ys) (sym left) framed));
                handled =
                    handle_each-append world p.manager h.frames fs
                    ∙ ap (then_each world fs) h.handled
                    ∙ ap (after world h.sent h.stop) handled;
                logged =
                    of_manager-append log (map by_manager (map serialize more))
                    ∙ ap₂ (λ xs ys. xs ++ ys) h.logged (of_manager-map (map serialize more))
                    ∙ sym (map-append serialize h.sent more);
                balance =
                    ap (λ xs. out ++ xs) owed
                    ∙ sym (append_assoc out (unsent q.writer) bytes)
                    ∙ ap (λ xs. xs ++ bytes) h.balance
                    ∙ append_assoc (unsent p.writer) (emitted_all log) bytes
                    ∙ ap (λ xs. unsent p.writer ++ xs)
                        (ap (λ ys. emitted_all log ++ ys)
                            (sym (emitted_all-map (map serialize more)))
                          ∙ sym (emitted_all-append log (map by_manager (map serialize more))));
              })
      ]

  -- A completed write, after a run.
  write-Refines :
      (p q t : Program User Output GameState Render) (stream : List ℕ) (log : List Logged)
      (out : List ℕ) (ring : Ring) (count : ℕ)
      → Refines p stream log out q
      → 0 < length q.writer.output_queue
      → preallocated_buffers ≤ ring.free
      → count < 2 ^ 64
      → count ≤ length (in_flight q.writer)
      → on_write ring count q ≡ some t
      → Refines p stream log (out ++ take count (in_flight q.writer)) t
  unfolding on_write
  write-Refines p q t stream log out ring count h queued room max fits e =
      let (v, s, done, active, owed) =
        handle_write-Owes ring q.writer count h.sound.writes.valid queued room max fits in
      let after_it : Program User Output GameState Render = record q {
        writer = v;
        quit = q.quit || is_failed s;
      } in
      let written : on_write ring count q ≡ some after_it = rw done refl in
      let moved = take count (in_flight q.writer) in
      subst (Refines p stream log (out ++ moved)) (some-injective _ _ (sym written ∙ e)) (record {
        sound = record { reads = h.sound.reads; writes = active };
        frames = h.frames;
        sent = h.sent;
        stop = h.stop;
        framed = h.framed;
        handled = h.handled;
        logged = h.logged;
        balance =
            append_assoc out moved (unsent v)
            ∙ ap (λ xs. out ++ xs)
                (ap (λ xs. moved ++ xs) owed
                  ∙ take-in_flight q.writer count h.sound.writes.valid fits)
            ∙ h.balance;
      })

  -- A send on another thread, after a run.
  send-Refines :
      (p q t : Program User Output GameState Render) (stream : List ℕ) (log : List Logged)
      (out : List ℕ) (answers : Answers) (payload : List ℕ)
      → Refines p stream log out q
      → IsReady answers
      → AreBytes payload
      → on_send (answers 0).0 (answers 0).1 payload q ≡ some t
      → Refines p stream (log ++ (by_other payload ∷ [])) out t
  unfolding on_send
  send-Refines p q t stream log out answers payload h ready bytes e =
      let (v, s, done, active, owed) =
        send_interface_packet-emitted answers q.writer payload ready h.sound.writes bytes in
      let after_it : Program User Output GameState Render = record q {
        writer = v;
        quit = q.quit || is_failed s;
      } in
      let sent : on_send (answers 0).0 (answers 0).1 payload q ≡ some after_it = rw done refl in
      subst (Refines p stream (log ++ (by_other payload ∷ [])) out)
        (some-injective _ _ (sym sent ∙ e))
        (record {
          sound = record { reads = h.sound.reads; writes = active };
          frames = h.frames;
          sent = h.sent;
          stop = h.stop;
          framed = h.framed;
          handled = h.handled;
          logged =
              of_manager-append log (by_other payload ∷ [])
              ∙ append-nil (of_manager log)
              ∙ h.logged;
          balance =
              ap (λ xs. out ++ xs) owed
              ∙ sym (append_assoc out (unsent q.writer) (emitted payload))
              ∙ ap (λ xs. xs ++ emitted payload) h.balance
              ∙ append_assoc (unsent p.writer) (emitted_all log) (emitted payload)
              ∙ ap (λ xs. unsent p.writer ++ xs)
                  (ap (λ ys. emitted_all log ++ ys) (sym (append-nil (emitted payload)))
                    ∙ sym (emitted_all-append log (by_other payload ∷ [])));
        })

  -- However the two streams of bytes are cut, and in whatever order reads, writes and the sends of
  -- other threads come, from a process in order with no complete frame pending, with a serializer
  -- to bytes: what the manager has come to and has sent is what it comes to and sends on the
  -- complete frames of the stream, in order; and what the socket has taken, followed by what it is
  -- owed, is what it was owed at first followed by the frames of all that was sent, those packets
  -- among it in their order, without the packets that are too long.
  pub Session-Refines :
      {p q : Program User Output GameState Render} {stream : List ℕ} {log : List Logged}
      {out : List ℕ}
      → SerializesBytes world serialize
      → IsSound p
      → IsIncomplete (pending p.reader)
      → Session p stream log out q
      → Refines p stream log out q
  Session-Refines {p} serial sound i begin = record {
    sound = sound;
    frames = [];
    sent = [];
    stop = false;
    framed = record { joined = sym (append-nil (pending p.reader)); complete = tt; pending = i };
    handled = begun p.manager;
    logged = refl;
    balance = sym (append-nil (unsent p.writer));
  }
  Session-Refines {p} serial sound i
        (then_read {stream} {log} {out} {q} before on spare next answers chunk sp nx ready fits {t}
          {sent} e) =
      read-Refines p q t stream log out spare next answers chunk sent serial
        (Session-Refines serial sound i before) sp nx ready fits e
  Session-Refines {p} serial sound i
        (then_write {stream} {log} {out} {q} before on ring count queued room max fits {t} e) =
      write-Refines p q t stream log out ring count (Session-Refines serial sound i before) queued
        room max fits e
  Session-Refines {p} serial sound i
        (then_send {stream} {log} {out} {q} before answers payload ready bytes {t} e) =
      send-Refines p q t stream log out answers payload (Session-Refines serial sound i before)
        ready bytes e
