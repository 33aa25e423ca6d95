-- ===== src/Lib.antt =====
-- The RLBot C++ interface: a client that talks to the RLBot server over a TCP socket, and bots that
-- answer the packets of the game. This library models what library/ keeps as state and computes,
-- on Linux, where the sockets are driven by io_uring.
--
-- The parts, and how they work on each other. The server and the client exchange frames: two bytes
-- of length, the high one first, and a flatbuffer of that length. A reader cuts the incoming bytes
-- into frames, inside buffers from a pool, and hands each on as a message; a writer keeps a queue of
-- messages and has io_uring write them. A service thread reaps the completions of both and decides
-- when the client ends. A manager is the client's handler: it waits for three messages, spawns the
-- bots, and passes the other packets to a context for each bot. A context empties its inbox in
-- rounds, the first one on the thread of the client and the others on threads of their own; the
-- bots collect their comms, render messages, states and outputs in mailboxes, which a round sends.
-- The whole of it is a process: reads, writes, and sends of several threads, in any order.
--
-- The files:
--   Program       the process: a completed read with the handler and what it sends (on_read), a
--                 completed write (on_write), the send of another thread (on_send). Sending, Steps:
--                 one step; Refinement: runs. Exchange: what one end sends is what the other decodes
--   Prelude       names of the libraries, tests, lists, machine words (`% 2 ^ w` is written out)
--   Buffer        the arrays of library/Pool.h: bounds, memcpy, slices
--   Message       library/Message.h and Message.cpp: header_at, size, span, decode_flatbuffer, and the
--                 encoder of Client::sendInterfacePacket (encode). Encoding: what is encoded is
--                 decoded. Decoding: a message that lies anywhere in its buffer. Frames: the
--                 complete frames of a list of bytes, without buffers
--   Client.Reader library/Client.cpp, handleRead: handle_messages is its loop, move_message the move
--                 to another buffer, room what requestRead asks for. Loop, Stream and Retain
--                 prove what is handed on, read by read and over histories of reads
--   Client.Writer library/Client.cpp, sendInterfacePacket, requestWrite, requestWriteLocked and
--                 handleWrite, under the writer's mutex. Unsent: what the socket is owed.
--                 Requests, Calls, History, Partial, Packets: proofs, by operation and history
--   Client.Wire   a writer and a reader on the two ends of a connection
--   Client.Packets  library/Client.cpp, handleMessage and handleCorePacket, with the virtual
--                 handlers as functions on the state of a client. Typed, Dispatch: proofs
--   Client.Sends  library/Client.cpp, sendDisconnectSignal to sendRenderingStatus
--   Client.Opening  library/Client.cpp, connect: the socket that it makes and sets up, on Sockets
--   Client.Buffers  library/Client.cpp, getBuffer, and the 32 buffers of connect, on Pool
--   Client.Reading  library/Client.cpp, requestRead: the operation that is put to io_uring
--   Client.Session  library/Client.cpp, connect, terminate, pushEvent, join, and the loop of
--                 serviceThread with its dispatch on completion keys. Terminate, Reconnect: proofs
--   Bot           library/include/rlbot/Bot.h and library/Bot.cpp: the mailboxes. Mail, Groups: proofs
--   SockAddr      library/SockAddr.cpp: ports, the two comparisons, resolve. Order, Equality and
--                 Fields: proofs. Construction: the constructors and conversions
--   Sockets       library/Socket.cpp, each method on a kernel that answers the system calls.
--                 Closing, Settings: proofs. Descriptors: the sockets that a process holds open, and what
--                 the system calls do to them
--   Pool          library/Pool.h and Pool.cpp: counted objects, the two free lists and references.
--                 Counts, Returns, Refs: proofs. History: what the program does with references, as a
--                 list of operations; Safety: the proofs on histories
--   BotContext    library/BotContext.cpp: serviceLoop (service_loop) and the setters; the code of the
--                 user is a record of Hooks. Work and Inputs: what a round sends and leaves. Inbox:
--                 what comes in and what the bot hears of it. Wakeup: the thread, its condition
--                 variable and those that wake it, as a step relation
--   BotManager    library/BotManager.cpp, spawnBots: the bots that are made for a team. Spawn: proofs.
--                 Dispatch: connect, clearBots and handleMessage with all that it calls. Delivery,
--                 FirstBot, Setup: proofs on lists of messages. Startup: the end of spawnBots, with
--                 startService, initialize and waitInitialized of library/BotContext.cpp, as steps
--                 of the threads; Order and Progress: proofs
--   Simulator     benchmark/Simulator.cpp: readAll, writeAll, the pace of the ticks and the median.
--                 Transfers, Clock: proofs. Listening: waitForConnection. Run: run, with what
--                 readMessage returns as a list; Ticks, Protocol, Completion: proofs
--   Log           library/Log.cpp: the level, and the four functions that print. Lines: proofs
-- The modules called Tests, or named so at the end, run the definitions on small inputs.
--
-- Conventions. A result `none` says that an assertion fails or that the program aborts; where a
-- theorem gives `some`, no assertion fails. Mutexes make a method one step, and what threads do
-- is a list of steps in some order. Numbers are natural numbers; a machine word is cut to its width
-- where the source stores it, and a subtraction of unsigned words is sub_size, which wraps around.
--
-- Fuel. handle_messages has one unit for each pending byte and one more: each round takes a
-- frame of at least two bytes, so that it never runs out, and the theorems on handle_read give
-- `some`. read_loop and write_loop of the simulator have one unit for each byte, as each turn that
-- goes on moves one at least. All other loops are recursions on a list, or on a count that the
-- source has. service_thread runs over the completions that it is given, and push_quit over the
-- answers of io_uring.
--
-- Arguments in place of code that is not here: flatbuffers (the verifier and GetRoot, and the
-- contents of packets, in Hooks and World), io_uring's answers (Ring, Cqe), getaddrinfo, the
-- system calls on sockets (Kernel), the buffers that the pool hands out where their old contents
-- could matter, what a set holds after it was moved out of, and the bots that the user writes.
--
-- In a step of Program the packets that the manager sends are put into the queue after all messages
-- of the read are handled, where the source does so in between; the manager does not see the queue.
-- In a run of the simulator the number of ticks is an argument.
--
-- Not modelled: the branches for Windows, and of benchmark/ the contents of packets, which are read
-- off RocketSim, and the header of a Message with a type, which the repository has no more;
-- examples/, and errorMessage, which only calls strerror.
pub mod Prelude
pub mod Buffer
pub mod Message
pub mod Client
pub mod Program
pub mod Bot
pub mod Pool
pub mod BotContext
pub mod BotManager
pub mod SockAddr
pub mod Sockets
pub mod Simulator
pub mod Log
