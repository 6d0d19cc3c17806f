-- ===== src/Lib.antt =====
-- TinyGameServer: a TCP server library on libevent, and the two servers that are built on it.
--
-- The program. A `TCPConnection` reads from its socket into a `Buffer` and hands it to a callback; what
-- is sent goes through the functors of its `EventLoop` and a second buffer. An `FdWatcher` says which
-- events of the socket the loop waits for. An `EventLoop` runs functors that other threads give it and
-- is woken through the socket pair of an `EventChannel`. A `TCPServer` owns its connections in a table
-- by serial id (`UID`) and spreads them over the loops of a `ThreadManager`. The gate server talks to
-- clients and passes their logins to the data server, through a `TCPClient`; the data server asks
-- PostgreSQL.
--
-- The files, with the code that they model (paths from the root of the repository):
--   Bytes         memcpy of integers, `htonl`, and `ntohll` of src/util/Buffer.h
--   Buffer        src/util/Buffer.h, src/util/Buffer.cpp: `append` is `Buffer::append`, `read_fd` is
--                 `ReadFd`, `peek_tag_len` is `PeekTagLen`, and so on; `Buffer/` holds the proofs
--   Watcher       src/util/FdWatcher.h and .cpp; Watcher/Registration has libevent's side as the
--                 interface `EventLibrary`
--   Connection    src/network/TCPConnection.cpp, src/network/IConnection.h; Connection/Session
--                 runs a connection and its functors under a schedule, Connection/Reopened one that
--                 is closed
--   Loop          src/network/EventLoop.cpp, src/util/EventChannel.cpp; Loop/Wakeup has the
--                 interleavings of the threads as a step relation, Loop/Channel and
--                 Loop/Lifecycle the set-up of a loop and its channel
--   Workers       src/util/WorkThread.cpp, src/util/ThreadManager.cpp; Workers/Stopping has a thread
--                 that races with the `Stop` of its worker
--   Serial        src/util/UID.h
--   Acceptor      src/network/TCPAcceptor.cpp, src/network/IAcceptor.h: the calls on sockets are a log
--   Table, Server src/network/TCPServer.cpp and .h; Server/Listening is the server with its acceptor
--   DataServer    server/DataServer.cpp; DataServer/Serve runs its callback on a connection whose bytes
--                 come in pieces; DataServer/Shared is the server without workers, with all its
--                 clients on one event loop; DataServer/Main is its set-up
--   GateServer    server/GateServer.cpp; GateServer/Login has the states that the gate reaches,
--                 GateServer/Main is the set-up
--   Client        src/network/TCPClient.cpp and .h, src/network/TCPConnector.cpp; Client/Again calls
--                 `Connect` more than once, Client/Connector has the calls on the socket
--   Sockets       the calls of the acceptor and the connector on sockets
--   Pools         the contexts that a pool makes and finishes, as a log
--   Postgres      src/data/PGManager.cpp; Postgres/Answer reads the rows of an answer, Postgres/Connect fills
--                 the pool, Postgres/Connect/Life has the manager from its constructor to its destructor
--   Redis         src/data/RedisManager.cpp; Redis/Life has the manager with its destructor
--   Text          `SplitHostPort` of src/include/Base.h, and C strings
--   Base, Tests   shared names and lemmas; concrete states
--
-- How it is modelled. Code that reads and writes memory is a function into `Option`, where `none` is
-- undefined behaviour: an access outside an array, a null pointer, an empty `std::function`, a write
-- to a destroyed object, or the end of a callback without the `return` that it owes. Integers are
-- natural numbers with the wrap of their width written out, characters are numbers below 256. The
-- host's byte order, what a new array happens to hold, the clock, the answers of the kernel and those
-- of the database are arguments. `Stop` of a loop runs on fuel; one round more than the highest rank
-- of a functor is enough where functors give the loop only functors of lower rank. An address has
-- fewer than 2^31 bytes, and so have the buffers that are sent, where the code counts in `int`.
-- Functors live until all that the loop took with them have run.
-- A schedule of DataServer/Shared is any list of its events, more than the program can show: bytes may
-- arrive before the functor that starts their connection has run.
--
-- Not modelled: the clients of several event loops in one schedule (with workers, each loop runs its own
-- functors, but the table of the server is common to them and has no lock); two shared pointers to one
-- buffer; the output of `Log` (which writes nothing yet); the empty protocol classes; the dispositions
-- of signals; and the destructors of objects that own only memory.
pub mod Acceptor
pub mod Base
pub mod Buffer
pub mod Bytes
pub mod Client
pub mod Connection
pub mod DataServer
pub mod GateServer
pub mod Loop
pub mod Pools
pub mod Postgres
pub mod Redis
pub mod Serial
pub mod Server
pub mod Sockets
pub mod Table
pub mod Tests
pub mod Text
pub mod Watcher
pub mod Workers
