-- ===== src/Program/Exchange.antt =====
-- What one end sends with the functions of library/Client.cpp, the other end decodes as the same
-- packets.
use cpp_interface.Prelude.{
  ℕ, suc, ◌≡◌, refl, ap, ap₂, sym, ◌∙◌, Bool, true, false, ◌||◌, ◌&&◌, not, Option, none, some,
  List, [], ◌∷◌, ◌++◌, ◌>>=◌, map, concat, length, All, append-nil, ltb, if◌then◌else◌, Bool-cases,
  inl, inr, not_ltb→le,
}
use cpp_interface.Message.{Message, max_payload, decode_flatbuffer, decode_payload}
use cpp_interface.Message.Frames.{IsFrame, Framed-unique}
use cpp_interface.Client.Reader.{Reader}
use cpp_interface.Client.Reader.Loop.{IsReader, IsPlaced, pending, bytes_of}
use cpp_interface.Client.Reader.Stream.{Reads, Reads-HasRead}
use cpp_interface.Client.Writer.{Writer, send_interface_packet}
use cpp_interface.Client.Writer.Unsent.{unsent}
use cpp_interface.Client.Writer.Calls.{IsGathered}
use cpp_interface.Client.Writer.Packets.{frame, frame-IsFrame}
use cpp_interface.Client.Packets.Typed.{payload_of, decode-IsPlaced}
use cpp_interface.Client.Sends.{InterfaceMessage, Builder, build_interface_packet, send}
use cpp_interface.Program.{Answers, is_failed, send_each}
use cpp_interface.Program.Sending.{emitted, AreBytes, IsReady, send_each-emitted}

bind-ap :
    {A B : Type 0} (o : Option A) (f g : A → Option B)
    → ((a : A) → f a ≡ g a)
    → (o >>= f) ≡ (o >>= g)
bind-ap none f g same = refl
bind-ap (some a) f g same = same a

module _ {P : Type 0} {Payload : InterfaceMessage → Type 0} (flat : Builder P Payload) where
  -- Some calls, one after the other; whether the client was told to terminate.
  unfoldable pub send_all :
      Answers → Writer → List ((k : InterfaceMessage) × Payload k) → Option (Writer × Bool)
  send_all answers w [] = some (w, false)
  send_all answers w (e ∷ es) = send flat (answers 0).0 (answers 0).1 w e.0 e.1 >>= λ (v, s).
      send_all (λ k. answers (suc k)) v es >>= λ (u, broken). some (u, is_failed s || broken)

  -- The packets of the calls.
  abbrev pub built : List ((k : InterfaceMessage) × Payload k) → List P
  built es = map (λ e. build_interface_packet flat e.0 e.1) es

  -- Those that a header can count.
  abbrev pub accepted : List P → List P
  accepted [] = []
  accepted (p ∷ ps) =
      let rest = accepted ps in
      if ltb max_payload (length (flat.serialize p)) then rest else p ∷ rest

  abbrev frames_of : List P → List (List ℕ)
  frames_of ps = map (λ p. frame (flat.serialize p)) ps

  send_all-send_each :
      (answers : Answers) (w : Writer) (es : List ((k : InterfaceMessage) × Payload k))
      → send_all answers w es ≡ send_each answers w (map flat.serialize (built es))
  unfolding send_all send_each send
  send_all-send_each answers w [] = refl
  send_all-send_each answers w (e ∷ es) =
      bind-ap
        (send_interface_packet (answers 0).0 (answers 0).1 w (flat.serialize (flat.set e.0 e.1))) _
        _
        (λ t.
          ap (λ o. o >>= λ (u, broken). some (u, is_failed t.1 || broken))
            (send_all-send_each (λ k. answers (suc k)) t.0 es))

  emitted-accepted :
      (ps : List P)
      → concat (map emitted (map flat.serialize ps)) ≡ concat (frames_of (accepted ps))
  emitted-accepted [] = refl
  emitted-accepted (p ∷ ps) = elim (Bool-cases (ltb max_payload (length (flat.serialize p)))) [
    | inl large ↦ rw large (emitted-accepted ps)
    | inr small ↦ rw small (ap (λ xs. frame (flat.serialize p) ++ xs) (emitted-accepted ps))
  ]

  frames_of-IsFrame : (ps : List P) → All IsFrame (frames_of (accepted ps))
  frames_of-IsFrame [] = tt
  frames_of-IsFrame (p ∷ ps) = elim (Bool-cases (ltb max_payload (length (flat.serialize p)))) [
    | inl large ↦ rw large (frames_of-IsFrame ps)
    | inr small ↦
        rw small (frame-IsFrame (flat.serialize p) (not_ltb→le _ _ small), frames_of-IsFrame ps)
  ]

  AreBytes-serialize :
      ((p : P) → AreBytes (flat.serialize p)) → (ps : List P) → All AreBytes (map flat.serialize ps)
  AreBytes-serialize bytes [] = tt
  AreBytes-serialize bytes (p ∷ ps) = (bytes p, AreBytes-serialize bytes ps)

module _ {P : Type 0} {Payload : InterfaceMessage → Type 0} (flat : Builder P Payload)
    (get_root : List ℕ → P) (verify : List ℕ → Bool) where
  -- What is serialized is bytes, verifies, and is read back.
  pub record RoundTrips : Type 0 where
    pub bytes : (p : P) → AreBytes (flat.serialize p)
    pub verifies : (p : P) → verify (flat.serialize p) ≡ true
    pub reads_back : (p : P) → get_root (flat.serialize p) ≡ p

  -- `interfacePacket (true)` of a message.
  abbrev pub interface_packet : Message → Option (Option P)
  interface_packet m = decode_flatbuffer get_root verify m.buffer m.offset true

  decode_frame : List ℕ → Option (Option P)
  decode_frame f = some (decode_payload get_root verify (payload_of f) true)

  interface_packet-all :
      (ms : List Message)
      → All IsPlaced ms
      → map interface_packet ms ≡ map decode_frame (map bytes_of ms)
  unfolding decode_frame
  interface_packet-all [] h = refl
  interface_packet-all (m ∷ ms) (h, hs) =
      ap₂ ◌∷◌ (decode-IsPlaced get_root verify m h) (interface_packet-all ms hs)

  decode_frame-frame :
      RoundTrips
      → (ps : List P)
      → map decode_frame (map (λ p. frame (flat.serialize p)) ps) ≡ map (λ p. some (some p)) ps
  unfolding decode_frame decode_payload
  decode_frame-frame h [] = refl
  decode_frame-frame h (p ∷ ps) =
      ap₂ ◌∷◌
        (ap (λ b. some (if true && not b then none else some (get_root (flat.serialize p))))
            (h.verifies p)
          ∙ ap (λ q. some (some q)) (h.reads_back p))
        (decode_frame-frame h ps)

  -- With a flatbuffer that is bytes, verifies and is read back, a writer in order that owes nothing,
  -- room in the ring and buffers of bytes: some calls of the functions that send fail no assertion,
  -- and what they owe to the socket, if it comes to a well-formed reader with nothing pending, in
  -- reads of any sizes, is decoded as the packets of the calls, in order, without those that are
  -- too long, and nothing stays pending.
  pub send_all-decoded :
      (answers : Answers) (w : Writer) (es : List ((k : InterfaceMessage) × Payload k))
      (stream : List ℕ) {r r' : Reader} {ms : List Message}
      → RoundTrips
      → IsReady answers
      → IsGathered w
      → unsent w ≡ []
      → IsReader r
      → pending r ≡ []
      → stream ≡ concat (map emitted (map flat.serialize (built flat es)))
      → Reads r stream ms r'
      → (v : Writer) × (broken : Bool) × (send_all flat answers w es ≡ some (v, broken))
        × (unsent v ≡ stream)
        × (map interface_packet ms ≡ map (λ p. some (some p)) (accepted flat (built flat es)))
        × (pending r' ≡ [])
  send_all-decoded answers w es stream {r} {r'} {ms} h ready a clean valid fresh whole reads =
      let ps = built flat es in
      let (v, broken, (done, active, owed)) =
        send_each-emitted answers w (map flat.serialize ps) ready a
          (AreBytes-serialize flat h.bytes ps) in
      let read = Reads-HasRead valid (rw fresh tt) reads in
      let (same, left) = Framed-unique read.framed (record {
        joined =
            append-nil _
            ∙ sym (emitted-accepted flat ps)
            ∙ sym whole
            ∙ sym (ap (λ xs. xs ++ stream) fresh);
        complete = frames_of-IsFrame flat ps;
        pending = tt;
      }) in
      (
        v,
        broken,
        send_all-send_each flat answers w es ∙ done,
        owed ∙ ap (λ xs. xs ++ concat (map emitted (map flat.serialize ps))) clean ∙ sym whole,
        interface_packet-all ms read.placed
            ∙ ap (map decode_frame) same
            ∙ decode_frame-frame h (accepted flat ps),
        left,
      )
