-- ===== src/Client/Packets/Dispatch.antt =====
-- Each packet reaches the handler of its type, with its own payload.
use mathlib.Core.Path.{subst}
use cpp_interface.Prelude.{
  ℕ, ◌≡◌, ◌≢◌, refl, ap, sym, ◌∙◌, ◌≤◌, ◌<◌, ◌+◌, ◌-◌, Bool, true, false, Option, none, some, List,
  [], ◌∷◌, ◌++◌, ◌>>=◌, ◌⊎◌, ◌&&◌, not, map, length, All, arith, if◌then◌else◌, Bool-cases, inl,
  inr,
}
use cpp_interface.Buffer.{Buffer, IsBytes, buffer_size}
use cpp_interface.Message.{Message, decode_payload}
use cpp_interface.Message.Frames.{Framed}
use cpp_interface.Client.Reader.{Reader, request_read, receive}
use cpp_interface.Client.Reader.Loop.{IsReader, IsPlaced, pending, bytes_of}
use cpp_interface.Client.Reader.Stream.{handle_read-IsPlaced}
use cpp_interface.Client.Packets.{
  CoreMessage, Flatbuffers, Handlers, switch_type, handle_core_packet, handle_message, handle_all,
  handle_read_with,
}
use cpp_interface.Client.Packets.Typed.{
  payload_of, decode-IsPlaced, IsTyped, packets, Handed, no_more, known, not_known, tell, tell_all,
}

module _ {P S : Type 0} {Payload : CoreMessage → Type 0} (flat : Flatbuffers P Payload)
    (handlers : Handlers Payload S) where
  switch_type-tell :
      (k : CoreMessage) (p : P) (x : Payload k) (s : S)
      → flat.message_as k p ≡ some x
      → switch_type flat handlers k p s ≡ tell handlers k x s
  unfolding switch_type
  switch_type-tell CoreMessage.disconnect_signal p x s e =
      ap (λ o. handlers.handle_disconnect_signal o s) e
  switch_type-tell CoreMessage.game_packet p x s e = ap (λ o. handlers.handle_game_packet o s) e
  switch_type-tell CoreMessage.field_info p x s e = ap (λ o. handlers.handle_field_info o s) e
  switch_type-tell CoreMessage.match_configuration p x s e =
      ap (λ o. handlers.handle_match_configuration o s) e
  switch_type-tell CoreMessage.match_comm p x s e = ap (λ o. handlers.handle_match_comm o s) e
  switch_type-tell CoreMessage.ball_prediction p x s e =
      ap (λ o. handlers.handle_ball_prediction o s) e
  switch_type-tell CoreMessage.controllable_team_info p x s e =
      ap (λ o. handlers.handle_controllable_team_info o s) e
  switch_type-tell CoreMessage.rendering_status p x s e =
      ap (λ o. handlers.handle_rendering_status o s) e
  switch_type-tell CoreMessage.unknown p x s e = refl

  switch_type-unknown :
      (k : CoreMessage) (p : P) (s : S)
      → k ≡ CoreMessage.unknown
      → switch_type flat handlers k p s ≡ s
  unfolding switch_type
  switch_type-unknown k p s e = ap (λ l. switch_type flat handlers l p s) e

  -- What the handlers are told of a list of messages.
  abbrev Tells : List Message → Type 0
  Tells ms =
      (events : List ((k : CoreMessage) × Payload k)) × (Handed flat
        (packets flat (map bytes_of ms)) events)
      × ((s : S) → handle_all flat handlers ms s ≡ some (tell_all handlers events s))

  module _ (m : Message) (s : S) where
    verified : Option P → S
    verified packet = elim packet [ none ↦ s | some p ↦ handle_core_packet flat handlers p s ]

    handle_message-IsPlaced :
        IsPlaced m
        → handle_message flat handlers m s
          ≡ some
              (verified (decode_payload flat.get_root flat.verify (payload_of (bytes_of m)) true))
    unfolding handle_message verified
    handle_message-IsPlaced h = rw (decode-IsPlaced flat.get_root flat.verify m h) refl

    handle_message_valid :
        IsPlaced m
        → flat.verify (payload_of (bytes_of m)) ≡ true
        → handle_message flat handlers m s
          ≡ some (handle_core_packet flat handlers (flat.get_root (payload_of (bytes_of m))) s)
    unfolding decode_payload verified
    handle_message_valid h e =
        handle_message-IsPlaced h
        ∙ ap
            (λ b. some (
              verified
                (if true && not b then none else some (flat.get_root (payload_of (bytes_of m))))))
            e

    handle_message_invalid :
        IsPlaced m
        → flat.verify (payload_of (bytes_of m)) ≡ false
        → handle_message flat handlers m s ≡ some s
    unfolding decode_payload verified
    handle_message_invalid h e =
        handle_message-IsPlaced h
        ∙ ap
            (λ b. some (
              verified
                (if true && not b then none else some (flat.get_root (payload_of (bytes_of m))))))
            e

  packets_of :
      (f : List ℕ) (fs : List (List ℕ)) (b : Bool)
      → flat.verify (payload_of f) ≡ b
      → packets flat (f ∷ fs)
        ≡ (if b then flat.get_root (payload_of f) ∷ packets flat fs else packets flat fs)
  packets_of f fs b e =
      ap (λ c. if c then flat.get_root (payload_of f) ∷ packets flat fs else packets flat fs) e

  unknown-cases : (k : CoreMessage) → (k ≡ CoreMessage.unknown) ⊎ (k ≢ CoreMessage.unknown)
  unknown-cases CoreMessage.unknown = inl refl
  unknown-cases CoreMessage.disconnect_signal = inr (λ e. ground (arith, e))
  unknown-cases CoreMessage.game_packet = inr (λ e. ground (arith, e))
  unknown-cases CoreMessage.field_info = inr (λ e. ground (arith, e))
  unknown-cases CoreMessage.match_configuration = inr (λ e. ground (arith, e))
  unknown-cases CoreMessage.match_comm = inr (λ e. ground (arith, e))
  unknown-cases CoreMessage.ball_prediction = inr (λ e. ground (arith, e))
  unknown-cases CoreMessage.controllable_team_info = inr (λ e. ground (arith, e))
  unknown-cases CoreMessage.rendering_status = inr (λ e. ground (arith, e))

  after : List Message → Option S → Option S
  after ms o = o >>= λ t. handle_all flat handlers ms t

  handle_all_next :
      (m : Message) (ms : List Message) (s t u : S)
      → handle_message flat handlers m s ≡ some t
      → handle_all flat handlers ms t ≡ some u
      → handle_all flat handlers (m ∷ ms) s ≡ some u
  unfolding handle_all
  handle_all_next m ms s t u e d = rw (e, d) refl

  Tells-next :
      (m : Message) (ms : List Message) → IsTyped flat → IsPlaced m → Tells ms → Tells (m ∷ ms)
  Tells-next m ms typed h (events, handed, rest) =
      let f = bytes_of m in
      let fs = map bytes_of ms in
      let p = flat.get_root (payload_of f) in
      elim (Bool-cases (flat.verify (payload_of f))) [
        | inl e ↦ elim (unknown-cases (flat.message_type p)) [
          | inl new ↦ (
            events,
            subst (λ ps. Handed flat ps events) (sym (packets_of f fs true e))
                (not_known p new handed),
            λ s.
                handle_all_next m ms s s _
                  (handle_message_valid m s h e
                    ∙ ap some (switch_type-unknown (flat.message_type p) p s new))
                  (rest s),
          )
          | inr old ↦
              let (x, has) = typed (payload_of f) e old in
              (
                (flat.message_type p, x) ∷ events,
                subst (λ ps. Handed flat ps ((flat.message_type p, x) ∷ events))
                    (sym (packets_of f fs true e)) (known p x old has handed),
                λ s.
                    handle_all_next m ms s (tell handlers (flat.message_type p) x s) _
                      (handle_message_valid m s h e
                        ∙ ap some (switch_type-tell (flat.message_type p) p x s has))
                      (rest _),
              )
        ]
        | inr e ↦ (
          events,
          subst (λ ps. Handed flat ps events) (sym (packets_of f fs false e)) handed,
          λ s. handle_all_next m ms s s _ (handle_message_invalid m s h e) (rest s),
        )
      ]

  handle_all-Tells : (ms : List Message) → IsTyped flat → All IsPlaced ms → Tells ms
  unfolding handle_all
  handle_all-Tells [] typed h = ([], no_more, λ s. refl)
  handle_all-Tells (m ∷ ms) typed (h, hs) = Tells-next m ms typed h (handle_all-Tells ms typed hs)

  -- With a schema that requires a message, a well-formed reader and buffers of bytes, a read of some
  -- bytes that fit fails no assertion. The state goes on by the handlers, called for the complete
  -- frames of what was pending and the new bytes, in order: those whose payload verifies and has a
  -- known type, each with the handler of its type and what the packet holds of that type, which is
  -- never null. All others change nothing.
  pub handle_read_with-Handed :
      (r : Reader) (spare next : Buffer) (chunk : List ℕ) (s : S)
      → IsTyped flat
      → IsReader r
      → IsBytes spare
      → IsBytes next
      → All (λ x. x < 256) chunk
      → 0 < length chunk
      → r.in_end + length chunk ≤ buffer_size
      → (fs : List (List ℕ)) × (events : List ((k : CoreMessage) × Payload k)) × (r' : Reader)
        × (Framed (pending r ++ chunk) fs (pending r'))
        × (Handed flat (packets flat fs) events)
        × (handle_read_with flat handlers spare next (receive r chunk) (length chunk) s
            ≡ some (tell_all handlers events s, r', request_read (buffer_size - r'.in_end)))
  unfolding handle_read_with
  handle_read_with-Handed r spare next chunk s typed v sp nx all some_bytes fits =
      let (ms, r', e, (valid, framed, last), placed) =
        handle_read-IsPlaced r spare next chunk v sp nx all some_bytes fits in
      let (events, handed, told) = handle_all-Tells ms typed placed in
      (map bytes_of ms, events, r', framed, handed, rw (e, told s) refl)
