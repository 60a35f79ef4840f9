-- ===== src/Lib.antt =====
-- Verification library of cobra, a C++ library for event-driven TCP programs.
--
-- The program: an event loop (cobra/worker.cpp) polls descriptors through a poller
-- (cobra/poller/poll_poller.cpp or cobra/poller/epoll_poller.cpp) and hands the events to channels
-- (cobra/channel.cpp), whose callbacks belong to connections (cobra/tcp_connection.cpp), which read
-- into and write from buffers (cobra/buffer.h, cobra/buffer.cpp). The loop also has a queue of
-- timers (cobra/timer_queue.cpp). A server (cobra/server.cpp) takes connections from an acceptor
-- (cobra/acceptor.cpp) and deals them among the loops of a pool (cobra/worker_thread_pool.cpp); a
-- client connects by a connector (cobra/connector.cpp). Under them lie dates, time zones, log lines
-- and their files, and a pool of threads for tasks (base/).
--
-- Files:
--   Base        shared names, Boolean tests, lists over the native numbers, integers.
--   Buffer      class Buffer: a record of the vector and the two indices, an operation for each
--               method in its words (append, makeSpace as make_space). Space is the
--               representation invariant, Content the bytes that it stands for; Append, Retrieve,
--               Shrink, ReadFd, Lines and Network are about the methods of these names.
--   Channel     class Channel: masks as records of bits, enableReading and its kin as with_reading
--               and so on, handleEvent as handle_event with the callbacks as a parameter.
--   Poll        class PollPoller: the vector of pollfds and the map, with the channels in a heap
--               that both refer to; UpdateChannel, removeChannel, fillActiveChannels. Invariant is
--               the agreement of index, slot and map.
--   Connection  class TcpConnection: its state and buffers, an operation for each handler, which
--               returns the effects outside the connection in their order. Output is what leaves,
--               Reads what arrives, Stream the runs of many events, Close the end, Events the
--               dispatch of a poller's event by the channel.
--   Epoll       class EPollPoller: the map and the indices of the channels, over a parameter for
--               epoll_ctl(2). Interest is the agreement with what the kernel watches, Changes the
--               changes of events, Ends registration and removal.
--   Connector   class Connector: connecting with retries. Life is a connector with the sockets,
--               resets and timers that it set going, and the events of its loop; Delay the back-off.
--   Worker      class Worker: the pending functors, the eventfd and the flags, an operation for each
--               piece of a method between which other threads may run. Steps are the loop and the
--               other threads as a step relation, Order what holds at every step, Rounds a round.
--   TimerQueue  classes TimerQueue and Timer: the two sets as sorted lists of pairs (Sets), over a
--               heap of timers. Invariant is their agreement, Removal and Requests and Served what
--               addTimer and cancel do, Expired and Reset the halves of handleRead, Rounds the whole.
--   Acceptor    class Acceptor (cobra/acceptor.cpp) and Accept: HandleRead and the spare descriptor;
--               Descriptors counts what is opened, closed and handed on.
--   Pool        class WorkerThreadPool: getNextLoop; Rounds is its round robin.
--   Server      class Server (cobra/server.cpp) with its connections and what waits in the loops of
--               its workers. Names is the map of connections, Waiting the functors, Life the stages
--               of a connection and the invariant, Moves and Handlers the steps, Run a history of
--               them, Drain its end, Sessions the theorems.
--   Date        class Date (base/Date.cc): Julian day numbers. Calendar is the calendar itself,
--               Blocks the arithmetic of its cycles, RoundTrip the theorems.
--   TimeZone    class TimeZone (base/TimeZone.cc): findLocaltime (Order, Find), toUtcTime and
--               fromUtcTime (Utc), readTimeZoneFile (File) and the files that it reads (Image).
--   LogStream   class LogStream and the buffer behind it (base/LogStream.cc): Texts is how a number
--               is read, Digits and Convert the conversions, Room the buffer, Lines the operators.
--   AsyncLogging  class AsyncLogging (base/AsyncLogging.cc): append and a turn of the thread that
--               writes. Invariant is any sequence of the two and what holds between them, Lines and
--               Turns (with Spares) the two moves, Delivery the whole.
--   LogFile     class LogFile and its File (base/LogFile.cc): Append is the loop over fwrite(3),
--               Rolling the files and their names, Written what stands in them together.
--   Monitor     class Condition (base/Condition.h): threads that sleep and threads that were woken;
--               Wakeups is about how many were woken.
--   ThreadPool  class ThreadPool (base/ThreadPool.cc): the turns of run and take under the mutex;
--               Steps the threads around them, Turns and Order what holds in any order of steps,
--               Progress when the threads go on.
--
-- Conventions: a failed assertion and an exception are `none`. Bytes are numbers, sizes are numbers
-- below 2 ^ 64 whose arithmetic wraps, and a vector grows to 2 ^ 63 - 1 bytes. System calls and
-- <endian.h> are parameters, with what their manuals promise as hypotheses. All loops
-- are structural but those of convert and convertHex, which run on a fuel of 20 and 16 turns: enough
-- for 64 bits, as their theorems include; and that of File::append, on a turn for each byte and one
-- more, which is enough by its theorem. Times of the timers are microseconds and do not overflow.
-- The ints of the dates do not overflow: the theorems on them say up to which year.
-- pthread_cond_signal(3) wakes one thread if any sleeps, and a spurious wakeup is a step.
--
-- Not modelled: the wrappers of system calls (cobra/socket_wrapper.cpp) but Accept, the threads
-- other than a loop's or a pool's but for what they queue, the server's destructor, the client
-- (cobra/tcp_client.cpp, which calls members that class TcpConnection does not have), and of base/
-- the threads, the blocking queues and the latch, the processes and the front end of the log
-- (base/Logging.cc).
pub mod Acceptor
pub mod AsyncLogging
pub mod Base
pub mod Buffer
pub mod Channel
pub mod Connection
pub mod Connector
pub mod Date
pub mod Epoll
pub mod LogFile
pub mod LogStream
pub mod Monitor
pub mod Poll
pub mod Pool
pub mod Server
pub mod ThreadPool
pub mod TimeZone
pub mod TimerQueue
pub mod Worker
