-- ===== src/Lib.antt =====
-- The kernel Timix: its intrusive queues, its text console, its locks and condition variables, its
-- string functions, its table of physical memory and its entry points, modelled from the C sources.
--
-- How the parts interact. kernel/cond.c keeps the threads that wait in a queue of
-- include/timix/variable_queue.h, under a mutex of kernel/mutex.c, and tells the scheduler whom to
-- block and to wake. kernel/sem.c and kernel/rwlock.c are built from a mutex and condition variables.
-- drivers/text_console.c locks each screen with two semaphores. The entry points of arch/ fill the
-- table of kernel/mm/pmm.c.
--
-- Files, and the code they are about:
-- - Queue, Queue/Memory: the macros Q_* of include/timix/variable_queue.h (`insert_front` is
--   Q_INSERT_FRONT, and so on). Queue/View says which list of elements a queue holds; Queue/Insert,
--   Queue/Remove, Queue/Join and Queue/Foreach have the lemmas; Queue/Refine is about sequences of
--   calls.
-- - Console/Config, Console/Screen: drivers/text_console.c, one screen. Console/Driver and Console/Api:
--   the driver's state, the switch of screens, and the calls for other code. Console/Draw,
--   Console/Legal, Console/Content, Console/Typing, Console/Calls and Console/Switch have the lemmas.
--   Console/Locks says what the driver relies on of its semaphores; Console/Sems makes them of
--   kernel/sem.c, and Console/Ready, Console/Fresh and Console/Init show that they do. Console/Session,
--   Console/Terminals and Console/Refine are about sequences of calls over them.
-- - Sync/Atomic: arch/x86/kernel/atomic.S, arch/arm/kernel/atomic.S and arch/nios2/kernel/atomic.S.
--   Sync/Mutex: kernel/mutex.c over atomic_swap_conditional. Sync/Exclusion interleaves its threads.
--   Sync/Kernel is the state that kernel/cond.c works on, and Sync/Free is about free mutexes.
-- - Sync/Cond: kernel/cond.c. Sync/Cond/Enqueue, Sync/Cond/Block, Sync/Cond/Resume, Sync/Cond/Wakeup,
--   Sync/Cond/Signal and Sync/Cond/Interrupt are about one call or one wait. Sync/Cond/Fifo is an
--   abstract queue of threads, and Sync/Cond/Order, Sync/Cond/Steps, Sync/Cond/Refine and
--   Sync/Cond/Served are about sequences of calls on it. Sync/Cond/Family is a family of such queues,
--   and Sync/Cond/Frame, Sync/Cond/Move, Sync/Cond/Calls and Sync/Cond/Many are about calls on several condition
--   variables.
-- - Sync/Sem: kernel/sem.c, with Sync/Sem/Wakeup on one signal. Sync/Sem/Counter is an abstract
--   counter with a queue of threads, and Sync/Sem/Balance and Sync/Sem/Bound are about sequences of calls,
--   and Sync/Sem/Interrupt about a wait that is interrupted.
-- - Sync/Rwlock: kernel/rwlock.c. Sync/Rwlock/Entry, Sync/Rwlock/Same, Sync/Rwlock/Grant and
--   Sync/Rwlock/Handover are about one call. Sync/Rwlock/Model is an abstract lock with the threads that wait for it;
--   Sync/Rwlock/Hold, Sync/Rwlock/Loop, Sync/Rwlock/Start, Sync/Rwlock/Resume, Sync/Rwlock/Giveback,
--   Sync/Rwlock/Unlock and Sync/Rwlock/Refine compare it with the code, call by call; Sync/Rwlock/Ready, Sync/Rwlock/Progress,
--   Sync/Rwlock/Handing, Sync/Rwlock/Served, Sync/Rwlock/Alert, Sync/Rwlock/Runnable, Sync/Rwlock/Init
--   and Sync/Rwlock/Live are about who gets the
--   lock next, Sync/Rwlock/Exclude, Sync/Rwlock/Holders and Sync/Rwlock/Exclusion about who holds it
--   together, and Sync/Rwlock/Lost about interrupts.
-- - Text/Strings, Text/Token, Text/Dup: include/timix/string-impl.h, with lemmas in Text/Read, Text/Write,
--   Text/Join, Text/Scan and Text/Split. Text/Library: the files of lib/.
-- - Boot/Pmm: kernel/mm/pmm.c. Boot/Entry: arch/x86/kernel/entry.c and arch/arm/kernel/entry.c.
--   Boot/Multiboot: arch/x86/include/arch/multiboot.h. Boot/Atags: arch/arm/include/arch/atags.h.
-- - Devices/Crtc, Devices/Color: drivers/crtc.c, drivers/crtc.h and include/timix/chardev.h. Devices/Io:
--   arch/arm/kernel/io.c. Devices/Access: include/timix/io.h. Devices/Malloc: kernel/malloc.c.
--   Devices/Pl111: drivers/pl111.c, include/drivers/pl111.h and include/timix/fb.h. Devices/Cp and the
--   files below it: arch/arm/include/arch/cp.h.
-- - Prelude and the files below it: shared names, integers (an `int` without overflow), memory, runs
--   that can stop (include/timix/assert.h), and error numbers (include/timix/error.h).
--
-- How state is modelled. A pointer is a number and NULL is 0; memory is a function from addresses, and a
-- structure's fields are functions from its address. Code that can fail an assertion, wait for ever on
-- a lock or reach outside of an array gives a `Run` or an `Option`. `mutex_lock` is that of a caller
-- whom nobody disturbs: on a taken mutex it spins. A function that yields is cut there: `cond_sleep` and
-- `cond_wake` are the two halves of `do_cond_wait`, `sem_wait` and `sem_wake`, `lock_start` and
-- `lock_resume` those of the others. The thread that calls is an argument.
--
-- Fuel. Loops over memory take fuel, one unit for a round: a walk of a queue needs more than it has
-- elements, a string function more than the string has characters, and a broadcast more than there are
-- threads. The loops of the console count down and need none.
--
-- What comes from elsewhere is an argument: the scheduler (sched.h), `memcpy`, the constants of
-- console.h and x86/video_defines.h, and the processor that runs a coprocessor instruction. What the
-- theorems rely on is in IsMemcpy (of places that do not overlap), IsConfig, Willing (the scheduler
-- does not refuse to block a thread) and IsRuns (a thread that is unblocked may run until it is
-- blocked). The console takes its semaphores through an interface, with its law IsSem; Console/Sems
-- fills it from kernel/sem.c for calls that run one at a time, where a thread that has to sleep
-- would not come back. An instruction that can fail or find flags set (the ARM exclusive store)
-- takes the outcomes as arguments.
--
-- Not modelled: start-up code and the port instructions in assembly, `panic` and `kernel_main` (loops
-- for ever, the outcomes `panic` and `done` of a run), type names, prototypes and linker symbols, and
-- the build files. Logging is left out.
pub mod Prelude
pub mod Queue
pub mod Console
pub mod Sync
pub mod Boot
pub mod Text
pub mod Devices
