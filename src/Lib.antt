-- ===== src/Lib.antt =====
-- VIO is a runtime for C++ coroutines: shards run continuations within budgets, backends complete
-- operations on native handles, and coroutines wait on timers, channels, mutexes and semaphores and
-- are cancelled through tokens. This library models its core.
--
-- Files, and the code that each models:
--   Error              include/voris/io/error.hpp, src/error.cpp: codes, errors, results
--   BoundedQueue       include/voris/io/detail/bounded_queue.hpp
--   LoopBudget         include/voris/io/loop_budget.hpp: budgets and the slices that are paid from
--   Mailbox            include/voris/io/detail/mailbox.hpp: two bounded queues, run within a slice
--   Registry           include/voris/io/detail/native_handle_registry.hpp and
--                      src/native_handle_registry.cpp: handles with generations
--   Backend            include/voris/io/backend.hpp, src/backend.cpp: Backend/Operation has the data
--                      and Backend/Virtual the virtual backend, which tests run on
--   Cancellation       include/voris/io/cancellation.hpp, src/cancellation.cpp
--   Deadline           include/voris/io/deadline.hpp, src/deadline.cpp
--   VirtualClock       include/voris/io/virtual_clock.hpp and the sleeps of src/timer.cpp
--   Timer              include/voris/io/timer.hpp, src/timer.cpp: the heap of timers, by its index,
--                      its order, sifting, taking out, and handing out what is due
--   Task               include/voris/io/task.hpp: the promise of a task and its awaiter
--   WhenAny            include/voris/io/when_any.hpp: the shared state and its awaiter
--   Wakeup, Shard      include/voris/io/backend_wakeup.hpp, include/voris/io/shard.hpp, src/shard.cpp:
--                      Shard has the methods, Shard/Worker the thread as steps, Shard/Invariant,
--                      Shard/Thread and Shard/Awake what holds between them
--   Readiness          src/backends_epoll_backend.cpp, src/backends_kqueue_backend.cpp: the cookies of
--                      events, the two backends, and registrations that fail
--   Uring              src/backends_io_uring_backend.cpp: Uring has what keeps no state, Uring/Backend,
--                      Submit and Observe the paths into the kernel and back, Uring/Resources what is
--                      registered, Uring/Calls the methods;
--                      Held, Kept, Steady, Methods, Registered, Closing and Once follow an identifier
--                      through them
--   Channel            include/voris/io/channel.hpp
--   Waiter             what include/voris/io/async_mutex.hpp and async_semaphore.hpp share
--   Semaphore, Mutex   the rest of these two headers
--   ComputeExecutor    include/voris/io/compute_executor.hpp: a queue with reserved slots
--   BlockingExecutor   include/voris/io/blocking_executor.hpp, src/blocking_executor.cpp
--   Runtime            include/voris/io/runtime_options.hpp, src/runtime_options.cpp,
--                      include/voris/io/runtime.hpp, src/runtime.cpp
--   SocketIoLimits     include/voris/io/detail/socket_io_limits.hpp and build_iovec_chain of
--                      src/socket.cpp: the limits of one system call
--   Prelude            lists, 64-bit counters, integers and Boolean tests that the parts share
-- A component's file declares its state as a record and one function for each method, under the
-- method's name; a module below it is named for what it proves, and Tests runs small examples.
--
-- How the parts interact. A mailbox is made of bounded queues and is paid for from a slice. A backend
-- asks the registry whether a handle is current; the backends on epoll, kqueue and io_uring each hold
-- a virtual backend. A runtime holds shards; a shard holds a mailbox, takes a slice for each iteration,
-- and its thread sleeps on a wake-up. Mutexes and semaphores keep their waiters in one kind
-- of store, under numbers, because a waiter is shared by the operation, the queue and a resumption
-- that was scheduled. Errors are values of one type throughout.
--
-- Conventions. A method is a function from a state, to the new state and the result. What holds a lock
-- throughout is one step; threads and callers are lists of steps in any order. `std::size_t` is a
-- natural number, with its wrap-around written out where a counter is incremented. Errors keep their
-- code and message; source locations are left out. Continuations, callbacks and coroutines are
-- numbers or an abstract type; what user code does when it runs is a parameter, and so are the
-- schedulers' answers and the clock's. Where a loop runs user code it has fuel: Mailbox.run_for_budget
-- takes the slice's units, of which each round uses one; Mailbox.run_until_idle and
-- ComputeExecutor.run_until_idle say whether the fuel was enough, and it is when it exceeds a rank of
-- what is left to do that falls with each continuation, which may submit more. A loop that calls the system again has the list of the answers, and
-- its result says where that ends too early; Uring numbers the calls and asks a parameter for each
-- answer, its submission loop has the pending submissions as fuel, of which each round but the last
-- takes one away, and its drain of the virtual backend one more than the completions there.
--
-- Not modelled: moves, destructors that only free memory, and allocation failures, which end the
-- program or leave by exceptions; schedulers and the trampoline, scopes and when_all, files and
-- most of sockets; of the io_uring backend the mapping of its rings, the probe, and the kernel
-- for tests; and the backend on completion ports.
pub mod Prelude
pub mod Error
pub mod BoundedQueue
pub mod LoopBudget
pub mod Mailbox
pub mod Registry
pub mod Backend
pub mod Cancellation
pub mod Deadline
pub mod VirtualClock
pub mod Channel
pub mod Waiter
pub mod Shard
pub mod Wakeup
pub mod Semaphore
pub mod Mutex
pub mod ComputeExecutor
pub mod BlockingExecutor
pub mod SocketIoLimits
pub mod Runtime
pub mod Timer
pub mod Task
pub mod WhenAny
pub mod Readiness
pub mod Uring
