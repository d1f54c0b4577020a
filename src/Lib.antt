-- ===== src/Lib.antt =====
-- arale is a network library around an event loop, with a base library and examples. This
-- development models the parts that keep state and decide something, and what they promise.
--
-- The parts and how they interact. A `Buffer` holds the bytes of a connection. A `Channel` says
-- which events a descriptor waits for and leads the events that happened to callbacks; a poller
-- keeps the channels, and a queue of timers waits on a descriptor of its own. `Acceptor` takes
-- connections in and `Connector` makes outgoing ones. `TcpConnection` joins a channel and two
-- buffers, hands work to the loop's queue of functors, and calls the user back. The HTTP server and
-- the examples read their messages from a connection's input buffer.
--
-- The files, and the code that each is about (paths from the repository's root):
--   Prelude             the shared types: the outcome of a C++ operation, lists by native numbers
--   Net/Buffer          arale/net/Buffer.h, Buffer.cc, Endian.h: one function for each operation,
--                       with the vector, `readIndex_` and `writeIndex_` as its state. Layout says
--                       what is well formed, Space and Append what `ensureWritableBytes` and
--                       `append` do, Retrieve, Ints and ReadFd the operations of these names, Queue
--                       relates all of them to a plain queue of bytes, and Allowed says which
--                       calls do not fail
--   Net/Channel         arale/net/Channel.h, Channel.cc: `enableRead` is `enable_read`, and so on
--   Net/Epoll           arale/net/EPollPoller.cc: `updateChannel` and `removeChannel` with their
--                       calls of `epoll_ctl`, and `poll`; Kernel relates the calls to the set that
--                       `epoll` keeps, Allowed says which fail no assertion, and Wait relates
--                       `poll` to what `epoll_wait` reports
--   Net/Sockets         arale/net/SocketsOps.cc, InetAddress.h: `accept`, `isSelfConnect` and what
--                       else is made of the results of system calls
--   Net/Acceptor        arale/net/Acceptor.h, Acceptor.cc: Life about its descriptors
--   Net/LoopThread      arale/net/EventLoopThread.cc: Handshake about `startLoop`
--   Net/Loop            arale/net/EventLoop.cc: Order about the order in which functors run, Awake
--                       about wakeups
--   Net/Poll            arale/net/PollPoller.cc: the vector of `pollfd` and the channels' indexes in
--                       it; Indexes and Runs keep the two in step, Allowed says which calls do not
--                       fail, Ignored follows a negated entry
--   Net/Timers          arale/net/TimerQueue.cc, Timer.cc: `insert`, `getExpiredTimers`,
--                       `resetTimers`, `cancelTimerInLoop` and `handleTimeout`. Sets and Order are
--                       about `std::set`, Invariant and Expiry about the two sets, Repeat about a
--                       timer that is alone
--   Net/Connection      arale/net/TcpConnection.h, TcpConnection.cc: `handleRead` is `handle_read`,
--                       and so on. A handler takes the results of its system calls and returns the
--                       connection with its effects in order. Sending has `send`, over
--                       the memory that a pointer reads, Control what
--                       ends a connection or its reading. Effects and Stream are about the
--                       bytes, Life, Handlers and Requests about states and reports, Machine about
--                       any sequence of events with the functors of arale/net/EventLoop.cc, Drain
--                       about the end of the queued bytes, Writing about all of them
--   Net/Connector       arale/net/Connector.h, Connector.cc: Sockets and Accounts follow the sockets
--   Net/ThreadPool      arale/net/EventLoopThreadPool.h, EventLoopThreadPool.cc
--   Net/TcpServer       arale/net/TcpServer.h, TcpServer.cc: Names about the names of connections,
--                       Live about the map of the open ones
--   Net/TcpClient       arale/net/TcpClient.h, TcpClient.cc over Net/Connector: Cycles
--   Net/Http            arale/net/http: Request, Context, Response and Server for the files of these
--                       names, Text for what they use of strings and maps
--   Base/Date           arale/base/Date.h, Date.cc, and Base/TimeZone arale/base/TimeZone.cc
--                       in UTC
--   Base/ZoneFile       arale/base/TimeZone.cc: the zone file and local time; Search is about
--                       `findLocaltime`, Parts and Whole are about the file. Base/Integer has the
--                       arithmetic of a `time_t`
--   Base/LogStream      arale/base/LogStream.h, LogStream.cc: the fixed buffer and the text of
--                       integers
--   Examples/Multiplexer  arale/examples/multiplexer/Multiplexer.cc, with Backend for what comes from
--                       the backend: Send about the packets to it, Packets about those from it,
--                       Orphans about a missing one. Turns has the callbacks one after another, and
--                       Table, Notices, Owners and Ids say who has which id. Simple is
--                       arale/examples/multiplexer/MultiplexerSimple.cc, and Same compares the two
--   Examples/Demux      arale/examples/multiplexer/Demux.cc: Faults about its packets
--   Examples/Idle       arale/examples/idleconnection/Echo.h, Echo.cc
--   Examples/SortedList  arale/examples/idleconnection/SortedList.cc: Idle about its timer, Legal
--                       about what does not fail
--   Examples/Socks      arale/examples/socks4a/Socks4a.cc
--   Examples/Relay      arale/examples/socks4a/Tunnel.h, TcpRelay.cc: Traffic has what arrives and is
--                       sent, Changes and Steps follow one callback, Stream any number of them
--   Examples/Balancer   arale/examples/socks4a/Balancer.cc: Turns about whose turn it is
--   Examples/Download   arale/examples/simple/filetransfer: Pieces about the three servers
--   Examples/Chat       arale/examples/asio/chat: ChatServer.cc and ChatServerThreaded.cc. Shared is
--                       about ChatServerThreadedEfficient.cc, with Snapshot; Local about
--                       ChatServerThreadedHighPerformance.cc, with Passed
--   Examples/Codec      arale/examples/asio/chat/Codec.h
--
-- Results of operations. `Outcome` tells a value from a failed `assert`, an exception of the
-- standard library and undefined behaviour (an access outside a vector, an invalid range).
-- Assertions are taken to be compiled in.
--
-- Numbers. A `size_t` wraps around at 2 ^ 64, written out in `add_size` and `sub_size` of
-- Net/Buffer. Bytes are natural numbers. The dates are natural numbers: days before 1 March of the
-- year 0 are not followed. An `int` that overflows in Base/Date or Base/TimeZone is undefined.
--
-- Loops. `onMessage` of the codec, `parseRequest` and the two loops over packets of the multiplexer
-- and the demultiplexer run on fuel; the theorems give the number of rounds that a content needs.
-- The text of an integer takes 20 rounds, which a 64-bit number does not pass. `loop` of the event
-- loop takes a list of what each call of poll reports. All other loops are structural.
--
-- Not modelled: the creation of threads and their storage, the functions of sockets and addresses
-- that only pass a system call on (the results of system calls are arguments here), the texts of
-- floating-point numbers, `main` of the examples, and the examples that only connect callbacks
-- (ChatClient.cc, Chargen.cc, ShortUrl.cc, maxconnection/Echo.cc).
-- StringPiece.h is a copy of another project's file. Of logging, only that `LOG_SYSFATAL` ends the
-- process matters, and is an effect.
pub mod Prelude
pub mod Base
pub mod Net
pub mod Examples
