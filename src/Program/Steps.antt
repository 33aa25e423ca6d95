-- ===== src/Program/Steps.antt =====
-- One completed read, as a whole.
use cpp_interface.Prelude.{
  ℕ, ◌≡◌, refl, ◌≤◌, ◌<◌, ◌+◌, Bool, ◌||◌, Option, none, some, List, [], ◌∷◌, ◌++◌, map, concat,
  length, All, inl, inr, ◌⊎◌, Option-cases, false,
}
use cpp_interface.Buffer.{Buffer, IsBytes, buffer_size}
use cpp_interface.Message.Frames.{Framed}
use cpp_interface.Client.Reader.{Reader}
use cpp_interface.Client.Reader.Loop.{IsReader, pending, bytes_of}
use cpp_interface.Client.Reader.Stream.{handle_read-Framed}
use cpp_interface.Client.Writer.Unsent.{unsent}
use cpp_interface.Client.Writer.Calls.{IsGathered}
use cpp_interface.BotManager.Dispatch.{World, Sent}
use cpp_interface.Program.{Program, Answers, handle_each, on_read}
use cpp_interface.Program.Sending.{emitted, AreBytes, IsReady, send_each-emitted}

-- A reader and a writer in order.
pub record IsSound {User Output GameState Render : Type 0}
    (p : Program User Output GameState Render) : Type 0 where
  pub reads : IsReader p.reader
  pub writes : IsGathered p.writer

-- What the kernel delivers: some bytes that fit behind those that are there.
pub record Fits (r : Reader) (chunk : List ℕ) : Type 0 where
  pub bytes : AreBytes chunk
  pub some_bytes : 0 < length chunk
  pub room : r.in_end + length chunk ≤ buffer_size

module _ {User Output GameState Render Loadout : Type 0}
    (world : World (List ℕ) User Output GameState Render Loadout)
    (serialize : Sent Output GameState Render Loadout → List ℕ) where
  -- flatbuffers serializes a packet to bytes.
  abbrev pub SerializesBytes : Type 0
  SerializesBytes = (s : Sent Output GameState Render Loadout) → AreBytes (serialize s)

  AreBytes-map :
      SerializesBytes
      → (ss : List (Sent Output GameState Render Loadout)) → All AreBytes (map serialize ss)
  AreBytes-map bytes [] = tt
  AreBytes-map bytes (s ∷ ss) = (bytes s, AreBytes-map bytes ss)

  -- What a read comes to when the manager handles its messages, and what it leaves.
  abbrev pub Read :
      (p : Program User Output GameState Render)
      → (fs : List (List ℕ)) → (rest : List ℕ)
      → Option (Program User Output GameState Render × List (Sent Output GameState Render Loadout))
      → Type 0
  Read p fs rest o =
      (q : Program User Output GameState Render) × (sent : List
        (Sent Output GameState Render Loadout))
      × (stop : Bool) × ((o ≡ some (q, sent))
          × (handle_each world p.manager fs ≡ some (q.manager, sent, stop))
          × IsSound q
          × (pending q.reader ≡ rest)
          × (unsent q.writer ≡ unsent p.writer ++ concat (map emitted (map serialize sent))))

  -- In a process in order, with a serializer to bytes, buffers of bytes and 32 free entries in the
  -- ring at every send: a read of some bytes that fit takes the complete frames off what was pending
  -- and the new bytes. It fails an assertion just when the manager fails one on those frames; if
  -- not, the manager has handled exactly them, in order, and the frames of the packets that it sent
  -- are owed to the socket in their order, after what was owed before.
  pub on_read-Read :
      (spare next : Buffer) (answers : Answers) (chunk : List ℕ)
      (p : Program User Output GameState Render)
      → SerializesBytes
      → IsBytes spare
      → IsBytes next
      → IsReady answers
      → IsSound p
      → Fits p.reader chunk
      → (fs : List (List ℕ)) × (rest : List ℕ) × (Framed (pending p.reader ++ chunk) fs rest
          × (((handle_each world p.manager fs ≡ none)
                × (on_read world serialize spare next answers chunk p ≡ none))
              ⊎ Read p fs rest (on_read world serialize spare next answers chunk p)))
  unfolding on_read
  on_read-Read spare next answers chunk p serial sp nx ready sound fits =
      let (ms, r, read, valid, framed, last) =
        handle_read-Framed p.reader spare next chunk sound.reads sp nx fits.bytes fits.some_bytes
          fits.room in
      (
        map bytes_of ms,
        pending r,
        (
          framed,
          elim (Option-cases (handle_each world p.manager (map bytes_of ms))) [
            | inl aborted ↦ inl (aborted, rw (read, aborted) refl)
            | inr ((m, sent, stop), handled) ↦
                let (v, broken, (done, active, owed)) =
                  send_each-emitted answers p.writer (map serialize sent) ready sound.writes
                    (AreBytes-map serial sent) in
                inr (
                  record {
                    reader = r;
                    writer = v;
                    manager = m;
                    quit = p.quit || (stop || (broken || false));
                  },
                  sent,
                  stop,
                  (
                    rw (read, handled, done) refl,
                    handled,
                    record { reads = valid; writes = active },
                    refl,
                    owed,
                  ),
                )
          ],
        ),
      )
