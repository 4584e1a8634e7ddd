-- ===== src/Lib.antt =====
-- GioNet: a library for UDP networking in C++ (GioNet/inc, GioNet/src) that sends packets between
-- a server and its clients, reliable ones in order and again until they are acknowledged.
--
-- The parts and how they interact. A `Socket` wraps a handle of Winsock. The server and the client
-- each run a thread that listens and a thread that sends. A datagram that comes in is a `Buffer`,
-- from which a `Packet` is read; the `Connection` to its sender (the server has one for each
-- `NetAddress`) takes the packet by `Received`, and what becomes ready is popped and handed to the
-- user. A message that goes out is scheduled as a packet on a connection; the sending thread pops
-- the ready packets, each with the ack header of that moment, writes them to buffers and sends
-- these.
--
-- The files.
-- Base: shared tests, lists, outcomes of a call (a value, a failed `assert`, a loop that never
--   leaves, a null pointer), texts, and std::map as an association list.
-- Buffer: GioNet/inc/Buffer.h, GioNet/src/Buffer.cpp. A buffer is the list of its bytes; `write`
--   and `read` are the templates Write and Read at an integer of a given size, little-endian;
--   reading returns the value and the buffer that is left. Buffer/Bytes has the lemmas.
-- Packet: GioNet/inc/Packet.h, GioNet/src/Packet.cpp, the header's bit fields; Packet/Codec: Write
--   and Read at Packet. Packet/Header, Packet/RoundTrip and Packet/Malformed have the theorems.
-- Address: `NetAddress` of GioNet/inc/Core.h, GioNet/src/Core.cpp.
-- Connection: GioNet/inc/Connection.h, GioNet/src/Connection.cpp. One record for the object, one
--   function for each method: a method that changes the object returns the new record, and one
--   that can fail an assertion or loop returns a `Result`. Ids, AckId and Acks are about the
--   arithmetic of ids and the ack header; Enqueue, Received, Invariant and Schedule about single
--   operations; Delivery about histories of them.
-- System: two connections of GioNet/src/Connection.cpp and a network between them that loses
--   packets, repeats them and brings them in any order, as a step relation. System/Flows has the
--   invariant of one direction, which System/Sender (with System/Popped) and System/Receiver
--   preserve, and System/Stream what follows of it; System/Stall, System/Gone, System/Passed and
--   System/Lost are about a packet that the acks have passed, System/Resend and System/Recovery
--   about one that they have not.
-- Interleaving: the same two connections, with `Received` on one thread of each side and
--   `PopReadyOutgoingPacket` on another, cut at the locks and at the accesses to the atomic
--   `currentAckId`. Interleaving/Settled has the invariant, User, Sending, Acking, Noting and
--   Filing (with Bits) that every step keeps it, Stream what follows; Runs, Hearing, Departing,
--   Progress and Ending are about the end of the calls.
-- Session: a client of GioNet/src/Client.cpp and the connection that its server has for it, with
--   the datagrams between them, as a step relation over the rounds of the client's threads.
--   Session/Rounds and Tracked have the invariant, Plain and Came the part of it about packets that
--   are not reliable, Stream what follows.
-- Socket: GioNet/inc/Socket.h, GioNet/src/Socket.cpp. The answers of Winsock are arguments, the
--   calls that release a resource or send bytes are returned as a list.
-- Message: GioNet/inc/Message.h, GioNet/src/Message.cpp.
-- Thread: std::jthread, as far as the server and the client ask it to stop.
-- Server: GioNet/inc/Server.h, GioNet/src/Server.cpp. The connections live in a store by pointer,
--   the table of peers maps addresses to pointers. Whether the table takes two addresses for one
--   key is a parameter, since it depends on std::hash as well as on `NetAddress::operator==`.
--   Server/Life and Server/Lifetime are about the constructor, `Start` and `Stop`, Server/Table
--   and Server/KeyTest about the table, Server/Each about the loop over the peers,
--   Server/Broadcast and Server/Drain about its two uses, Server/Sound has an invariant,
--   Server/Keeps and Server/Fit are about the operations that keep it and the table,
--   Server/History about any history of them, Server/Datagram and Server/Listening are about a
--   round of the thread that listens, Server/Sending and Server/Sent about one of the thread that
--   sends.
-- Client: GioNet/inc/Client.h, GioNet/src/Client.cpp. Client/Listening is about a round of the
--   thread that listens, Client/Sending and Client/Sent about one of the thread that sends.
-- NetSystem: GioNet/inc/NetSystem.h, GioNet/src/NetSystem.cpp.
-- Logger: GioNet/inc/Logger.h, GioNet/src/Logger.cpp. Peer: GioNet/inc/Peer.h,
--   GioNet/src/Peer.cpp.
-- Chat: Chat/Chat.cpp, the program on top of the library. Chat/Opening is about its start,
--   Chat/Editing about the line that is typed, Chat/Relay about its way to the other users,
--   Chat/Args, Chat/Argument and Chat/Arguments about the arguments.
-- NetworkingWin: NetworkingWin/NetworkingWin.cpp, a program that sends pings;
--   NetworkingWin/Choice is about its arguments, NetworkingWin/Ping about the pings.
-- Tests: GioNetTests/src, each unit test as a function that returns or fails an assertion;
--   Tests/Stress is about `ack_overflow_stress` on any number of rounds, Tests/Connections
--   about the fixture that opens sockets.
-- The Examples modules run the model on concrete inputs.
--
-- Numbers. An IdType is a number modulo 65536, a byte a number below 256, and every increment and
-- subtraction of the source on such a type is written with its wrap-around. The int32_t of a
-- buffer's length is its bit pattern below 2 ^ 32.
--
-- Bounds of the system. Each side schedules at most 65534 reliable packets, one less than there
-- are ids, so that none is used twice (Connection/Delivery/Stale shows what happens after that).
-- The theorem on a stream that has stalled is about the first 32767, half the cycle, among which a
-- later id is always a greater one.
--
-- Fuel. The loop of `EnqueueProcessablePackets` has no bound in the source. The model runs it on
-- 65536 rounds and returns `fault endless` when they are used up. There are 65535 ids and the loop
-- steps through them in a cycle, so it meets the id it ends at before that; the theorem on
-- `received` says that it returns. The loops that empty a queue run on one round more than the
-- queue is long, which is enough, as the theorems on them show.
--
-- Concurrency. The methods of a connection take the mutex of a stream while they change its
-- queue or its map. The model takes each method as one step, and a history is a sequence of
-- steps. In Interleaving a step is what happens under one lock, or one access to the ack id (the
-- load and the store of `UpdateAckId` count as one, since no other thread stores): between two
-- of them the other thread of the side may do anything, and only the lock of the incoming
-- stream, which `Received` holds to its end, keeps it out. The store of the ack id comes before
-- the packet is filed, so `AddAckHeader` may load the id of a packet that is not there yet; it
-- then waits for the lock of the incoming stream before it looks for the first of the other
-- packets. What happens under a lock that no other step looks past is one step there too:
-- `Schedule`, a pop, the filing of a packet with `EnqueueProcessablePackets`.
--
-- Not modelled. The C++ memory model and timing; locks but for those of a connection; Winsock
-- itself and the conversions of addresses it does; std::hash, std::format and printf, of which
-- the first two are parameters and the last takes texts that are formatted. What a delegate of
-- the server or the client does in its turn: it is the user's code, and the model lists the
-- calls; one that is not bound counts as one that does nothing. (Chat and NetworkingWin have
-- delegates of their own.) The texts that are logged, but for the logger itself; the
-- declarations of the headers beyond the data that the model has; the build files.
pub mod Base
pub mod Buffer
pub mod Packet
pub mod Address
pub mod Connection
pub mod Socket
pub mod Message
pub mod Peer
pub mod Thread
pub mod Logger
pub mod Server
pub mod Client
pub mod System
pub mod Interleaving
pub mod Session
pub mod Tests
pub mod NetSystem
pub mod Chat
pub mod NetworkingWin
