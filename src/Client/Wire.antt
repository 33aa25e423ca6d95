-- ===== src/Client/Wire.antt =====
-- The two directions together: what one end writes is what a reader of the same kind reads.
use cpp_interface.Prelude.{ℕ, ◌≡◌, ap, sym, ◌∙◌, List, [], ◌++◌, map, concat, All, append-nil}
use cpp_interface.Message.{Message}
use cpp_interface.Message.Frames.{IsFrame, Framed-unique}
use cpp_interface.Client.Reader.{Reader}
use cpp_interface.Client.Reader.Loop.{IsReader, pending, bytes_of}
use cpp_interface.Client.Reader.Stream.{Reads, Reads-HasRead}
use cpp_interface.Client.Writer.{Writer}
use cpp_interface.Client.Writer.Unsent.{unsent}
use cpp_interface.Client.Writer.Calls.{IsGathered}
use cpp_interface.Client.Writer.History.{Runs, Runs-Delivers}

-- Frames that were sent in any interleaving of sends, partial and whole completions, and that the
-- socket has taken in full, arrive at a reader with nothing pending as the same frames in the same
-- order, however the network cuts the bytes into reads; and nothing is left over.
pub Reads-Runs :
    {w v : Writer} {fs : List (List ℕ)} {out : List ℕ} {r r' : Reader} {ms : List Message}
    → IsGathered w
    → unsent w ≡ []
    → Runs w fs out v
    → unsent v ≡ []
    → All IsFrame fs
    → IsReader r
    → pending r ≡ []
    → Reads r out ms r'
    → (map bytes_of ms ≡ fs) × (pending r' ≡ [])
Reads-Runs {w} {v} {fs} {out} {r} {r'} {ms} a clean runs done frames valid fresh reads =
    let d = Runs-Delivers a runs in
    let whole : concat fs ++ [] ≡ pending r ++ out =
      append-nil (concat fs)
      ∙ sym (ap (λ xs. xs ++ concat fs) clean)
      ∙ sym d.balance
      ∙ ap (λ xs. out ++ xs) done
      ∙ append-nil out
      ∙ sym (ap (λ xs. xs ++ out) fresh) in
    let read = Reads-HasRead valid (rw fresh tt) reads in
    Framed-unique read.framed (record { joined = whole; complete = frames; pending = tt })
