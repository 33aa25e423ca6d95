-- ===== src/Client.antt =====
-- library/Client.cpp, split as its parts: the reader of the socket, the writer, and the service loop.
pub mod Packets
pub mod Sends
pub mod Reader
pub mod Writer
pub mod Wire
pub mod Session
pub mod Opening
pub mod Buffers
pub mod Reading
mod Tests
mod WriterTests
mod PacketsTests
mod SessionTests
mod OpeningTests
