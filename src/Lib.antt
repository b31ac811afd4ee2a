-- ===== src/Lib.antt =====
-- libsimplesvr, a C++ library for simple servers: timers, message buffers, load balancing,
-- consistent hashing and TCP connections.
--
-- Parts, and the files that model them:
--
-- - Timer: include/Timer.hpp. Timer/Wheel has the record `Timer` (TimerBase with its five vectors)
--   and InternalAddTimerItem, cascade and the first half of a round of CheckTimer; Timer/Ops has
--   SetTimeout, Clear, Update, GetTimer and the whole of CheckTimer, whose callbacks are scripts of
--   calls on the same timer; Timer/Ops/Links has the pointers PrevItem, NextItem and Base and what
--   Clear does to them, and Timer/Ops/Refines relates them to the lists of the slots, not to the
--   chain that CheckTimer walks; Timer/Reach has the states that a timer can be in. The fuel of the
--   loop over a detached chain is the chain's length, which no call makes longer (Timer/Ops/Calls), and
--   the loop over the ticks runs once for each tick.
-- - IoBuffer: include/IOBuffer.hpp and src/IOBuffer.cc. IoBuffer/Bytes has the byte orders and the
--   macros htonll and ntohll; IoBuffer/Buffer the class, with `faults` as the outcome of an access
--   outside of the memory; IoBuffer/Streams the overloads of >> and <<; IoBuffer/Codec messages of
--   many fields, and any sequence of calls.
-- - LoadBalance: include/LoadBalance.hpp. The policy, the map of points and every call; what
--   `floor((double)n * rand() / RAND_MAX)` gives is an argument of `route`.
-- - ConsistentHash: include/ConsistentHash.hpp. The ring; the two hashes are parameters.
-- - Tcp: include/TcpServer.hpp, include/TcpClient.hpp, include/KeepConnectClient.hpp and the receiving
--   operator of include/Channel.hpp. The cache of a connection and the handlers of its events; what
--   they do to sockets, scheduler, timers and the user's class is a list of actions. The cache is
--   handed to the user as a buffer of IoBuffer, and the timers that the handlers set are those of
--   Timer.
-- - EventScheduler: include/EventScheduler.hpp, include/EPoll.hpp, src/EPoll.cc and the startup of a
--   timer in include/Timer.hpp. The system's epoll_ctl is a parameter with the laws that its manual
--   states (EventScheduler/Update); a round of Dispatch is what it calls.
-- - Session: include/Session.hpp, over the timer of Timer.
-- - Binlog: include/Binlog.hpp and src/Binlog.cc. Binlog has the heads, OpenLog and CreateLog,
--   Binlog/Writer has Write, Binlog/Iterators the iterators, Binlog/Reader Next. A file is its bytes
--   with a position, which the system calls change as POSIX says; their failures and the short
--   counts of writev are arguments, and a pread that succeeds gives all bytes that there are, as it
--   does for a regular file without a signal. The loops of Next are passes on fuel, of which four for each byte of the file and four
--   more are enough (Binlog/Ends). Binlog/Trail says what a file of logs is, Binlog/Journal what comes
--   of many writes, Binlog/Seek what comes of the offset of a log.
-- - ConnectionPool: include/ConnectionPool.hpp, over the timer of Timer. An access to a connection
--   that was deleted is a fault.
-- - Pool: include/Pool.hpp and src/Pool.cc. What a process or a thread does when it starts, up to the
--   call of Dispatch of EventScheduler.
-- - Configure: include/Configure.hpp and src/Configure.cc. boost's split, trim and regular expressions
--   are a parameter, whose laws are in Configure/Laws; Configure/Matchers has functions with these laws.
-- - Application: include/Application.hpp, what it asks the system for: directories, the program's name,
--   the lock of the pid file and the local addresses. The disk is a parameter.
-- - Base: tests on numbers, lists, sums, integers.
--
-- Conventions: uint32_t, uint64_t and size_t are numbers with `u32`, `u64`, `sub32` and `sub64`
-- where the code can wrap; the clock is an argument; addresses of objects are numbers,
-- and a pointer that a call is given is not null.
--
-- Not modelled: the system calls and what only prints (Log, Dump), the conversion of character sets
-- (iconv), the scripts and examples, and the registration and the main function of Application. The
-- clock is not modelled, nor is the creation of threads.
pub mod Base
pub mod IoBuffer
pub mod Timer
pub mod LoadBalance
pub mod ConsistentHash
pub mod Tcp
pub mod EventScheduler
pub mod Session
pub mod Binlog
pub mod ConnectionPool
pub mod Pool
pub mod Configure
pub mod Application
