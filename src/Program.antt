-- ===== src/Program.antt =====
-- The whole process of a bot: what the service thread of library/Client.cpp does with a completed read
-- or write when library/BotManager.cpp handles the messages, and what the bots' threads send. The mail
-- of the manager is the bytes of a message, header included.
pub mod Sending
pub mod Steps
pub mod Refinement
pub mod Exchange
mod Tests
mod ExchangeTests
use cpp_interface.Prelude.{
  ℕ, suc, Bool, true, false, ◌||◌, Option, none, some, List, [], ◌∷◌, ◌++◌, ◌>>=◌, map, length,
}
use cpp_interface.Buffer.{Buffer}
use cpp_interface.Client.Reader.{Reader, Next, terminate, request_read, handle_read, receive}
use cpp_interface.Client.Reader.Loop.{bytes_of}
use cpp_interface.Client.Writer.{
  Writer, Ring, Submission, nothing, writes, wakeup, failed, handle_write, send_interface_packet,
}
use cpp_interface.BotManager.Dispatch.{World, Manager, Sent, handle_message}

pub record Program (User Output GameState Render : Type 0) : Type 0 where
  pub reader : Reader
  pub writer : Writer
  pub manager : Manager (List ℕ) User Output GameState Render
  pub quit : Bool

-- After these the client has been told to terminate.
abbrev pub is_failed : Submission → Bool
is_failed nothing = false
is_failed (writes sqes) = false
is_failed wakeup = false
is_failed failed = true

abbrev pub is_terminate : Next → Bool
is_terminate terminate = true
is_terminate (request_read n) = false

-- What io_uring and the pool of buffers answer to the sends, in order.
abbrev pub Answers : Type 0
Answers = ℕ → Ring × Buffer

-- The packets are sent one after the other; whether the client was told to terminate.
unfoldable pub send_each : Answers → Writer → List (List ℕ) → Option (Writer × Bool)
send_each answers w [] = some (w, false)
send_each answers w (payload ∷ payloads) =
    send_interface_packet (answers 0).0 (answers 0).1 w payload >>= λ (v, s).
    send_each (λ k. answers (suc k)) v payloads >>= λ (u, broken). some (u, is_failed s || broken)

module _ {User Output GameState Render Loadout : Type 0}
    (world : World (List ℕ) User Output GameState Render Loadout) where
  -- `handleMessage` of each message; whether one of them was the signal to disconnect.
  unfoldable pub handle_each :
      Manager (List ℕ) User Output GameState Render
      → List (List ℕ)
      → Option (
          Manager (List ℕ) User Output GameState Render
          × List (Sent Output GameState Render Loadout)
          × Bool)
  handle_each m [] = some (m, [], false)
  handle_each m (mail ∷ mails) = handle_message world m mail >>= λ (n, s, stop).
      handle_each n mails >>= λ (o, t, later). some (o, s ++ t, stop || later)

module _ {User Output GameState Render Loadout : Type 0}
    (world : World (List ℕ) User Output GameState Render Loadout)
    (serialize : Sent Output GameState Render Loadout → List ℕ) where
  -- `handleRead` after a read of `chunk`, with what the handlers send.
  unfoldable pub on_read :
      (spare next : Buffer)
      → Answers
      → (chunk : List ℕ) → Program User Output GameState Render
      → Option (Program User Output GameState Render × List (Sent Output GameState Render Loadout))
  on_read spare next answers chunk p =
      handle_read spare next (receive p.reader chunk) (length chunk) >>= λ (ms, r, then).
      handle_each world p.manager (map bytes_of ms) >>= λ (m, sent, stop).
      send_each answers p.writer (map serialize sent) >>= λ (v, broken). some (
        record {
          reader = r;
          writer = v;
          manager = m;
          quit = p.quit || (stop || (broken || is_terminate then));
        },
        sent,
      )

module _ {User Output GameState Render : Type 0} where
  -- `handleWrite`.
  unfoldable pub on_write :
      Ring
      → (count : ℕ) → Program User Output GameState Render
      → Option (Program User Output GameState Render)
  on_write ring count p = handle_write ring p.writer count >>= λ (v, s).
      some (record p { writer = v; quit = p.quit || is_failed s })

  -- A bot on a thread of its own sends a packet.
  unfoldable pub on_send :
      Ring
      → Buffer
      → (payload : List ℕ) → Program User Output GameState Render
      → Option (Program User Output GameState Render)
  on_send ring buffer payload p = send_interface_packet ring buffer p.writer payload >>= λ (v, s).
      some (record p { writer = v; quit = p.quit || is_failed s })
