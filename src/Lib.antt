-- ===== src/Lib.antt =====
-- hwnet, a TCP network library in C++: the connection, its send queue, the thread pool, the listener,
-- the connector, the pollers of Linux and macOS, the buffers, the holder of user data, the timers, the
-- TLS handshake, the HTTP session and the Redis client, with what makes them correct.
--
-- The poller calls OnActive of a channel from its loop; a channel posts itself as a task to the
-- thread pool, where Do reads, writes and makes the callbacks. Other threads call Send, Recv and
-- Close at any time. Each function here is one region under the lock of its object; what the kernel,
-- the clock and the callbacks do is an argument, and the regions are put together by step relations
-- and histories in any interleaving.
--
-- SendPool (src/net/TCPSocket.cpp, class sendContextPool): `get`, `put` on one of the pools.
-- Socket (src/net/TCPSocket.h, src/net/TCPSocket.cpp):
--   SendList: sendContext and linklist, and the loops of sendInWorker over them.
--   State: the fields, canRead, canWrite, highWater; `wake` is the end that _recv, _send, OnActive
--     and onTimer have in common. `tasks` and `trace` stand for the pool and for what is called.
--   Timeout: registerTimer, checkTimeout, onTimer and the setters of the timeouts.
--   Api: Recv, Send, SendAndClose, OnActive, Shutdown, Close, Start and the setters; `Event` is one
--     such call, `apply` runs it.
--   Worker: sendInWorker as `send_begin`, `send_end` and `after_send`, recvInWorker likewise.
--   Ssl: the second region of sendInWorkerSSL, which USE_SSL builds. SslWorker: SSLwrite,
--     SSLread, the whole of sendInWorkerSSL, and Do with them; Stuck is about an answer of 0.
--   Gather: recvInWorker of the build with GATHER_RECV; Bounds and Delivers are about it.
--   Memory: sendContext, linklist and sendContextPool in memory, by addresses. Linked, Nodes,
--     Lists, Calls and Refines show that they implement the lists of SendList. clear has fuel for
--     every context that malloc gave out, which is enough.
--   Task: doClose and Do, whose loop of maxLoop rounds is a recursion on the rounds that are left.
--   Stream, Frame, Delivery, PutBack, Turn, Swap, Balance, Broken, InOrder: the bytes and their
--     order, and a connection that is closed or had an error. Protocol, Working,
--     WorkerWorking, System: the flag `doing`. Closing, CloseOnFlush: how a connection ends.
-- ThreadPool (src/net/ThreadPool.h, src/net/ThreadPool.cpp): the task queue with its condition
--   variable, one pass of Get at a time, `destroyed` being the read through an element that is gone;
--   Delivery and Wakeup are about its histories.
-- Listener (src/net/TCPListener.h, src/net/TCPListener.cpp): Starting and Events are about Start and
--   Stop, and about OnActive and Do; `start_begin` and `start_end` are the regions of Start.
-- Connector (src/net/TCPConnector.h, src/net/TCPConnector.cpp): Connect, its timeout, OnActive and Do;
--   Once is about the callbacks.
-- Poller (src/net/Poller.h, src/net/Poller.cpp, src/net/linux/Epoll.cpp): the table of channels, and
--   RunOnce as `wait`, `next_event` and `grow`, followed by `sweep`. Kept, Lifetime and Release
--   are about the channels that it keeps; `notified` counts what notify wrote into its pipe, which
--   `drain` reads. Interest is what a poller of any system promises, as a
--   record of operations and laws; Epoll keeps it. Pools is about Init and the destructor.
-- Kqueue (src/net/mac/Kqueue.h, src/net/mac/Kqueue.cpp): the same calls on the filters of kqueue;
--   Rows, Filters and Interest show that it keeps the promise as well.
-- Any (src/net/any.h): the holder of user data, whose copies share a counter. Vars, Counts, Values,
--   Shared, Refines and History show that the objects behave as values.
-- Address (src/net/Address.h): the kinds of addresses and their lengths; Kinds is about them.
-- Buffer (src/net/Buffer.h): the buffers on a heap of blocks that they share. Overwrite, Contents
--   and Others are about the bytes.
-- Redis (src/redis/RedisCli.h, src/redis/RedisCli.cpp): the queue of callbacks; Pairing puts it
--   beside the commands that hiredis has not answered.
-- SslHandshake (src/net/SSLHandshake.h, src/net/SSLHandshake.cpp): New, OnActive and Do, whose loop is
--   `check_error` before the call of OpenSSL and `check_answer` after it; Outcomes is about results.
-- Http (src/net/http/Http.h, src/net/http/Http.cpp): the packet, and the callbacks of HttpSession as
--   `on_event`; a run of http_parser is the list of the callbacks that it makes. Writing has
--   MakeHeader, and Reading a reader of what it writes, whose fuel is the length of the text.
--   Fields: the map of headers. Message, Pieces,
--   Split: a message in pieces.
-- Timer (src/util/Timer.h, src/util/Timer.cpp): the timers and the heap of TimerMgr; Schedule has cancel
--   and Schedule, whose rounds are `round_begin`, the callback and `round_end`, and Routine the
--   thread that waits. View, Up, Down, Change, Tail, Calls, Insert, Gap, Pop, Left, Remove: the
--   heap. Touch, Round, Finish, Due, Ends, Adding, Cancel, Fates: the rounds,
--   callbacks that add a timer, and cancel. Routine/Sleep:
--   how long the thread sleeps.
--   down and up have the fuel of elements_size + 1 and idx + 1, which is enough.
--
-- Bounds: size_t wraps at 2 ^ 64 where the code adds or subtracts (`add_size`, `sub_size`); the
-- counts of one writev fit an int; versions, times, task counts and the size of the array of events
-- do not wrap, nor do indices of timers. Outside Memory a chain of send contexts is a
-- list; `none` stands for a null dereference, and in Http also for the call of an empty callback.
-- Not modelled: the texts of addresses, the copies of http_parser and hiredis, AsyncConnect and the
-- hooks of RedisCli that pass on what hiredis asks for, how the pipe of the poller is made, and the
-- wrappers of single system calls.
pub mod Address
pub mod Any
pub mod Buffer
pub mod Connector
pub mod Http
pub mod Kqueue
pub mod Listener
pub mod Poller
pub mod Prelude
pub mod Redis
pub mod SendPool
pub mod Socket
pub mod SslHandshake
pub mod ThreadPool
pub mod Timer
