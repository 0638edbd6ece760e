-- ===== src/Lib.antt =====
-- The programs of this repository that are written in C, the thread-safe containers in C++, and
-- some of the examples in C++.
--
-- c_projects holds a small client and server for the uptime of a host, with the helpers that they
-- share: messages to the standard error stream (c_projects/err_funcs.c) and to the system log
-- (c_projects/log_funcs.c), passing descriptors between processes
-- (c_projects/sockets/sendrecv_fd.c), the client (c_projects/sockets/client.c), a program that
-- prints the addresses of a host (c_projects/sockets/getaddr.c), the server
-- (c_projects/sockets/server.c, whose functions stand in server.h once more), and how a process
-- becomes a daemon (c_projects/daemonize/daemonize.h, used in c_projects/daemonize/test_daemon.c).
-- cppprojects/include/ts_lib holds containers in C++ that threads share: hash tables
-- (threadsafe_hashmap.h, threadsafe_extended_hashmap.h), a stack (threadsafe_stack.h), a list with
-- a lock for each node (ts_fine_graited_flist.h), a queue (threadsafe_queue.h), and a pool of
-- threads (threadpool.h) that keeps its tasks in such a queue; with the mutexes that are locked in
-- order (hierarchy_mutex.h) and the handles of threads (jointhread.h, thread_guard.h).
--
-- Which file models which part:
-- - Sys: the calls of the kernel and of the C library. A C function is a value of `M`: it runs in
--   a process (`Proc`: the history of the calls made and `errno`) and either returns or ends the
--   process (`Halt`). The kernel, the network and other processes are the field `answer` of `Os`,
--   a function from the history of calls to the answer of the last one, so a theorem for every
--   `Os` holds for every behaviour of theirs. After a call `errno` is what the answer says, also
--   when the call has succeeded. `Sys.Descriptors` reads off a history which descriptors are open;
--   the answer to `syslog` says which descriptor to the log it has opened.
-- - CString: text in arrays of fixed size, for `snprintf` and `strcat`.
-- - ErrFuncs, LogFuncs: err_funcs.c and log_funcs.c; a format and its arguments enter as the text
--   that they expand to, and a write past the end of the buffer is the outcome `undefined`.
-- - SendrecvFd: sendrecv_fd.c; the static pointer `cmptr` is a flag that goes in and comes back:
--   whether `malloc` has given the control buffer.
-- - Client, Server, Daemonize, TestDaemon: client.c, server.c, daemonize.h and test_daemon.c. The
--   loops of the C code that wait for the outside run on fuel, and the theorems say how much is
--   enough; `serve` and the sleep of test_daemon have no exit. `Client.Main`, `Server.Addresses`
--   and `TestDaemon.Main` are about the programs as wholes, from the parts in the files beside
--   them.
-- - Getaddr: getaddr.c and getaddr.h; a flag is tested as a power of two.
-- - Keys, Hashmap: threadsafe_hashmap.h. A method of a bucket runs under the lock of that bucket,
--   so it is one step, a function from the bucket before to the bucket after; the copies of a
--   method for a moved key are one definition. `Hashmap.Refines` has the finite map that a table
--   stands for, and `Hashmap.Copy` a copy that is interleaved with the other methods.
-- - ExHashmap: threadsafe_extended_hashmap.h, with the size that each bucket keeps and `rehash`,
--   whose rounded up quotient of doubles is a parameter.
-- - Waits: the calls that wait, which the stack and the queue have in common, at each moment at
--   which they hold the lock; a wait may wake up without being notified, as the C++ standard
--   allows, so a notification has no effect on a container. `Waits.Wakeup` has the threads that
--   sleep, and what wakes them, as a step relation.
-- - Stack: threadsafe_stack.h; `Stack.Counted` has the interleavings of threads.
-- - Queue: threadsafe_queue.h. The nodes are in memory (`Queue.Memory`), at the addresses that
--   `new` returns, which are arguments; the use of a node that is not there is `none`. The items have
--   a size: `m_storage` has 1 byte, and what does not fit in the 8 bytes in front of `m_next` is
--   written over it, which is `none` too. The loops
--   that take items run on fuel, for which one more than the number of items is enough.
--   `Queue.Moves` is about queues whose nodes are deleted or handed over.
-- - Threadpool: threadpool.h, over any queue that keeps the laws of `Threadpool.Tasks.TaskQueue`;
--   `Threadpool.Shared` shows that the queue of threadsafe_queue.h keeps them for items that fit in
--   its nodes, as a task with its one pointer does. The loop of a thread, which ends when the pool
--   is stopped, has a number of rounds, and what a task does to the pool, and what other threads do
--   between two attempts to take a task, are parameters. A thread
--   belongs to the pool or has no inner queue; threads of other pools are left out.
-- - Flist: ts_fine_graited_flist.h. The nodes are a list, since each is owned by the one before,
--   and the pointers of the threads are addresses in it; a step goes from one lock to the next.
--   That `for_each` unlocks a node before it runs its operation on the next one makes no
--   difference to the nodes. What is handed to operations, and returned, is a log. `Flist.run` is
--   a thread by itself, on fuel.
-- - Examples: three programs of cppprojects/examples. `Examples.CallOnce` has the threads of
--   once_flag_call_once.cpp as steps, in which `std::call_once` does what the C++ standard says.
--   `Examples.FlagSync` has `setflag` and `getflag` of future_sync_on_cv.cpp as steps of two
--   threads; `Examples.StateMachine` has state_machine_example.cpp, with the console as lists of
--   bytes and lines; the loop runs on fuel, for which the bytes of the input and two more are
--   enough.
-- - AsmInC, InlineAsm: the C programs of asmprojects/asm_in_c and asmprojects/asm_in_c_2 with the
--   assembler that they call or hold. A register is a number below 2 ^ 64 and the memory a function
--   from addresses to bytes; the words of the stack are a list of their own.
-- - Hierarchy: hierarchy_mutex.h. The state has every mutex and the level of every thread; `lock`
--   is one step, since what it checks belongs to the thread alone, and may end as `blocked`.
-- - Jointhread: jointhread.h and thread_guard.h, with what the C++ standard says of `std::thread`;
--   the objects are numbers, the constructor of a moved object writes its handle, and
--   `join` knows the thread that calls it.
--   `Jointhread.Kept` has their methods in any order.
--
-- An `int` is an integer without bounds, a `size_t` a number whose shift wraps round at 2 ^ 64,
-- and a byte a number. What the kernel promises, such as that a new descriptor was not open, is a
-- hypothesis of the theorems that need it.
--
-- Not modelled: the times, futures and threads of future_sync_on_cv.cpp outside those two
-- functions, the constructors of a list of a given size, the programs in assembler that no C code
-- calls, the vendored googletest, generated build files, and the other examples and the tests in
-- C++.
pub mod Base
pub mod Sys
pub mod CString
pub mod ErrFuncs
pub mod LogFuncs
pub mod SendrecvFd
pub mod Client
pub mod Daemonize
pub mod Server
pub mod TestDaemon
pub mod Keys
pub mod Hashmap
pub mod Threadpool
pub mod Getaddr
pub mod Flist
pub mod ExHashmap
pub mod Waits
pub mod Stack
pub mod Queue
pub mod Hierarchy
pub mod Jointhread
pub mod Examples
pub mod AsmInC
pub mod InlineAsm
