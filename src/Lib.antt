-- ===== src/Lib.antt =====
-- libposix: the POSIX interface of the hcos kernel: clocks, sleeps, timers, semaphores, mutexes,
-- barriers, condition variables, threads and message queues.
--
-- The library is a layer of C functions over the kernel objects of hcos. Its parts meet in three
-- places: every function that takes a deadline converts it with src/utils.c, from the time that
-- `clock_gettime` of src/posix_clock.c reads; every object stands on one of the kernel; and errors
-- go by the return value or by errno of the calling thread.
--
-- - Prelude: names of the standard library, Boolean tests, the integers with the conversions to int,
--   int64_t and unsigned, and the return values; counting the elements of a list, and replaying
--   calls on a state and on its abstract view.
-- - Time: struct timespec, the constants of include/time.h, and the platform: the tick rate and
--   the width of time_t, which are parameters. A long and an unsigned have 32 bits, as on the
--   target of the Makefile. Each conversion to a machine type is written where the code has it.
-- - Kernel: what is called of hcos, as records of operations and laws. Board fills them by concrete
--   objects, on which the theorems are applied.
-- - Utils: src/utils.c, one function for each of its functions; a pointer that the code tests for
--   NULL is an option, and what is written through a pointer is part of the result. `borrow`,
--   `nsec_ticks`, `carry_seconds` and the like are its inner blocks.
-- - Clock: src/posix_clock.c and src/posix_unistd.c. The tick counter is an argument, once for each
--   time that it is read; calls of `task_sleep` are recorded in the thread with errno.
-- - Semaphore: src/posix_semaphore.c and the inline function of include/semaphore.h;
--   Semaphore.Counter has what it promises, a number and replies.
-- - Semaphore.Deadline, Mutex.Deadline, Cond.Deadline and Timer.Deadline follow a deadline from the
--   caller through the clock and the conversions to the kernel.
-- - Mutex: src/posix_pthread_mutex.c; Mutex.Owner has what it is to do, an owner and replies. The
--   local variable `sleep_ticks`, which `pthread_mutex_lock` leaves with no value, is an argument
--   `unset`.
-- - Mqueue: src/posix_mqueue.c. A descriptor is the address of its structure, as in the code;
--   Mqueue.State has the static variables, Mqueue.Open, Mqueue.Close and Mqueue.Transfer the
--   operations, Mqueue.Reach the calls in any order, Mqueue.Locks their use of the list's mutex, and
--   Mqueue.Names the names that they copy.
--   Mqueue.Directory has what the calls promise, a directory of queues by address with the reply of
--   each call; Mqueue.Views gives the directory that a state stands for.
-- - Barrier: src/posix_pthread_barrier.c. A call of `pthread_barrier_wait` is a sequence of moves, and
--   the calls of any number of threads interleave in any order; Barrier.Counts has the invariant, and
--   Barrier.Gate what the barrier promises.
-- - Attributes: the thread attributes of src/posix_pthread.c and src/posix_sched.c, with the two parts
--   of the status word, and Attributes.Record the separate fields that they stand for. The number
--   of priorities of the kernel is a parameter.
-- - Timer: src/posix_timer.c over the kernel's timers; the notifications are recorded, and
--   Timer.Period lets a timer expire again and again.
-- - Pthread: the threads of src/posix_pthread.c. The results of the allocator and of `task_init` are
--   arguments, and `pthread_self` is the address of the calling thread. Pthread.Schedule cuts the end
--   of a thread and the calls of `pthread_join` on it into moves, which interleave in any order;
--   Pthread.Counts has the invariant. Pthread.Priorities follows a priority from the attributes to
--   the kernel.
-- - Cond: src/posix_pthread_cond.c. What other threads do while one waits is an argument of the wait.
--   Cond.Schedule cuts the wait into moves instead, which interleave with signals and broadcasts.
-- - Hooks: src/hcos_posix.c and include/hcos_posix.h. The operations of Pthread, Timer and Mqueue that
--   get and give back memory are run on the memory of the application; Hooks.Memory has what is relied
--   on of the application's functions.
--
-- The loops of the code are over lists and are structural recursion, so that there is no fuel.
--
-- Not modelled: the scheduler of the kernel, whose blocking calls are functions of the object and
-- the timeout; the bytes that `snprintf` writes for `strftime`; the bits of `oflag` that no code
-- tests; what `strcpy` overwrites where a queue's name is longer than its array, which is only
-- recorded; and the wait for the mutex of the list of queues, whose locks are counted.
pub mod Prelude
pub mod Time
pub mod Kernel
pub mod Board
pub mod Utils
pub mod Clock
pub mod Semaphore
pub mod Mutex
pub mod Mqueue
pub mod Barrier
pub mod Attributes
pub mod Timer
pub mod Pthread
pub mod Cond
pub mod Hooks
