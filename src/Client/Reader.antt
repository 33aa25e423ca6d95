-- ===== src/Client/Reader.antt =====
-- library/Client.cpp, `Client::handleRead`: the bytes that the socket delivers, cut into messages.
-- `none` says that an `assert` of the source fails, or that the loop's fuel runs out.
pub mod Loop
pub mod Stream
pub mod Retain
use cpp_interface.Prelude.{
  ℕ, zero, suc, ◌+◌, ◌-◌, ◌≤◌, Option, none, some, List, [], ◌∷◌, length, ltb, leb, ◌==◌,
  if◌then◌else◌, ◌>>=◌, to_u32, add_size, sub_size,
}
use cpp_interface.Buffer.{Buffer, IsBytes, buffer_size, slice, memcpy}
use cpp_interface.Message.{Message, header_size, size_with_header}

-- `inBuffer`, `inStartOffset` and `inEndOffset` of `ClientImpl`.
pub record Reader : Type 0 where
  pub in_buffer : Buffer
  pub in_start : ℕ
  pub in_end : ℕ

-- What the handler ends with: a request to terminate, or a read of that many bytes at `in_end`.
pub data Next : Type 0 where
  terminate : Next
  request_read : ℕ → Next

-- `auto message = Message (inBuffer, inStartOffset)`
abbrev pub current : Reader → Message
current r = record { buffer = some r.in_buffer; offset = r.in_start }

-- The message goes on past the end of the buffer: its bytes move to `spare`, a buffer of the pool.
unfoldable pub move_message : Buffer → Reader → ℕ → Option Reader
move_message spare r available =
    if r.in_start == 0
    then none
    else some (record {
      in_buffer = memcpy spare 0 (slice r.in_buffer r.in_start available);
      in_start = 0;
      in_end = sub_size r.in_end r.in_start;
    })

unfoldable pub need_more : Buffer → Reader → ℕ → Option (List Message × Reader)
unfolding move_message
need_more spare r available =
    if r.in_end == buffer_size
    then (move_message spare r available >>= λ r'. some ([], r'))
    else some ([], r)

-- The loop over the complete messages, with the messages handed to `handleMessage` in order.
unfoldable pub handle_messages : ℕ → Buffer → Reader → Option (List Message × Reader)
unfolding need_more
handle_messages zero spare r = none
handle_messages (suc fuel) spare r =
    let available = sub_size r.in_end r.in_start in
    if leb header_size available
    then (size_with_header (current r) >>= λ size.
        let rest = handle_messages fuel spare (record r { in_start = add_size r.in_start size }) in
        if ltb available size
        then need_more spare r available
        else (rest >>= λ (ms, r'). some (current r ∷ ms, r')))
    else some ([], r)

-- All was read, so the next read starts on a buffer of its own.
unfoldable pub renew : Buffer → Reader → Reader
renew next r =
    if r.in_start == r.in_end then record { in_buffer = next; in_start = 0; in_end = 0 } else r

-- The size that `ClientImpl::requestRead` asks for.
abbrev pub room : Reader → ℕ
room r = sub_size buffer_size r.in_end

-- `spare` and `next` are what the two calls of `getBuffer` return.
unfoldable pub handle_read : Buffer → Buffer → Reader → ℕ → Option (List Message × Reader × Next)
unfolding renew
handle_read spare next r count =
    if count == 0
    then some ([], r, terminate)
    else let r' = record r { in_end = add_size r.in_end (to_u32 count) } in
      if leb r'.in_start r'.in_end
      then (handle_messages (suc (sub_size r'.in_end r'.in_start)) spare r' >>= λ (ms, s).
          some (ms, renew next s, request_read (room (renew next s))))
      else none

-- The kernel completes the read: the bytes stand from `in_end` on.
unfoldable pub receive : Reader → List ℕ → Reader
receive r chunk = record r { in_buffer = memcpy r.in_buffer r.in_end chunk }
