-- ===== src/Lib.antt =====
-- Verification of libcsp, a C library of concurrent processes on a few threads.
--
-- The program's parts and how they interact. A process runs on a core (src/core.c); each processor has
-- a local run queue and a global one, from which the scheduler (src/sched.c) takes the next process.
-- Processes that wait for a time stand in the timer heap of their processor (src/timer.c), those that
-- wait for a socket in the network poller (src/netpoll.c); the monitor (src/monitor.c) polls both and
-- hands the ready ones to idle cores. Global queues, queues of starving cores, mailboxes and channels
-- are ring buffer queues (src/rbq.h). The stacks of the processes come from a memory manager
-- (src/mem.c) over a red-black tree (src/rbtree.h).
--
-- What is modelled where, a function of the model under the name of the C function without its prefix:
-- - Base: tests, lists, masks as remainders, and the store update that all parts share.
-- - Exp: csp_exp of src/common.h.
-- - Runq: src/runq.c, src/runq.h; the processes' links `pre` and `next` are a store.
-- - Rbq: src/rbq.h; Rbq/Ptr the sequence pointers, Rbq/Items the item array, Rbq the try operations,
--   Rbq/Push and Rbq/Pop one item, Rbq/Batch, Rbq/Pushm and Rbq/Popm several; Rbq/Wait the operations
--   that wait, whose rounds are counted by fuel.
-- - Rbq/Raw: the queue of src/rbq.h for a single thread, which also pushes to the front and grows.
-- - Timer: src/timer.c; the processes' timer fields are three maps. Timer/Heaps has all heaps and the
--   poll over them, which links its processes like a run queue; Timer/Clock the time that a heap goes by,
--   which is an argument of the polls.
-- - Rbtree: src/rbtree.h; the nodes are a store. Rbtree/Insert and Rbtree/Delete the two changes,
--   Rbtree/Shape the tree of addresses that the nodes span.
-- - Mem: src/mem.c; Mem the address layout and the records, Mem/Spans the free lists and the cache of
--   nodes, Mem/Merge the merge of neighbours, Mem/Arena the arenas, Mem/Alloc allocation and freeing.
-- - Cond: src/cond.h; a wait and a signal, one atomic access at a time.
-- - Proc: src/proc.h, src/proc.c and the assembly of src/core.c: csp_proc_new, and the switches between
--   a process and its core as instructions on registers, blocks and stacks.
-- - Wrapper: build_fn_body of plugin/proc.hpp; the instructions that it generates, Wrapper/Run what
--   they do to registers, stacks and the process blocks by address, Wrapper/Args, Wrapper/Parts and Wrapper/Start the run of a whole wrapper, Wrapper/Enter the
--   start of the process by Proc.
-- - Sched: csp_sched_get of src/sched.c and csp_core_proc_exit of src/core.c, over the queues of Runq
--   and Rbq; Sched/Steal and Sched/Search the search, Sched/Share what is done with the process
--   found, Sched/Hangup a process that sleeps.
-- - Netpoll: src/netpoll.c; the list of a poll is a run queue of Runq (Netpoll/Join, Netpoll/Poll), and
--   Netpoll/Once is about the competition of polls and timeouts.
-- - Analyzer: plugin/sa.hpp; the order of the functions, their stacks, and the sizes of the processes.
--   Analyzer/Edges, Callees and Explore are about the search through the call graph, Waits, Lower,
--   Order, Nodes and Reach about the loop that orders its functions, Complete about both together.
--   Analyzer/Files are the files that it saves and loads, Lines the text of their lines, Calls, Saved,
--   Written and Reserved what they keep. Frames and Inner are about the frame sizes that it uses.
--   Its search and its order loop have fuel, one unit for each function on a list of all and for each
--   that a process ends in.
-- - Corepool: src/corepool.c and the hand-over of a processor in src/core.c; Corepool/Init the start,
--   Corepool/Stack a pool as a stack, Corepool/Block the cores over any run of blocking sections.
-- - Rand: src/rand.c.
-- - Monitor: src/monitor.c; Monitor/Parts the parts of a list, Monitor/Place the search for a queue
--   with room, Monitor/Poll a whole round, Monitor/Events and Monitor/Timers the rounds after a poll of
--   Netpoll and of Timer. The search has fuel for one try at each processor, the loop over the parts
--   one unit for each process.
-- - Namer: plugin/namer.hpp; Namer/Decimal numbers in decimal, printed and read with one unit of fuel
--   more than the number, Namer/RoundTrip the names of entities.
-- - Cli: plugin/cli.cpp; Cli/Options what the options come to, Cli/Main which command runs, and the paths
--   of plugin/fs.hpp.
-- - Plugin: plugin/plugin.cpp; what is noted of a compiled function, Plugin/Dynamic those of dynamic size.
--
-- Conventions. Numbers are natural numbers; a word of w bits has its wrap-around written out as
-- % 2 ^ w. A pointer is a number, NULL is 0. A store of objects is a function from addresses, passed
-- from call to call. A step that would go through NULL, or behind the end of a block, gives `none`;
-- so does the end of the program by an exit and, in the memory manager and the walk of the tree, a loop
-- that has run out of fuel, so a theorem that gives `none` says which it is.
-- An operation of a ring buffer queue or of a heap runs with no other thread between its steps: in the
-- program a mutex is held, or the model says so. A weak compare-exchange may fail for no reason;
-- whether it does is an argument.
--
-- Fuel. Loops without a structural argument run on fuel that the caller fixes: `num` halvings for
-- csp_exp, one more than the index for a shift up, one more than the length for a shift down and for
-- the loop over expired timers, one more than the capacity for the scan of a barrier. The theorems
-- about these functions hold at that fuel, so it is enough. A loop down the red-black
-- tree or up to its root has one more than the number of nodes, the walk twice as many; the theorems on
-- the searches and the walk hold at that fuel. The loops of the memory manager over spans have as many
-- steps as a heap has pages. An operation of a queue that waits has a round for each unit of fuel; for
-- popm one round more than the number of items is enough, if they are all there.
--
-- Not modelled: threads and their start (src/sched.c, src/core.c), the endless loop of the monitor
-- (src/monitor.c) around its rounds, the wait of a blocked core for its wake-up (src/core.c), the
-- registration of sockets (src/netpoll.c), channels, which are tables of pointers to the queue
-- operations (src/chan.h), the parts of the plugin that walk the compiler's trees
-- (plugin/plugin.cpp, plugin/proc.hpp), and those that read directories (plugin/sa.hpp,
-- plugin/cli.cpp). Threads that interleave inside one operation are modelled for src/cond.h only. The
-- insertion and the deletion of the red-black tree and the freeing of spans are modelled and run in
-- tests, but not the subject of a theorem. mmap, malloc and epoll_wait are parameters:
-- whether an arena is mapped, the address of a new node, and the events that are there.
pub mod Analyzer
pub mod Base
pub mod Cli
pub mod Cond
pub mod Corepool
pub mod Exp
pub mod Mem
pub mod Monitor
pub mod Namer
pub mod Netpoll
pub mod Plugin
pub mod Proc
pub mod Rand
pub mod Rbq
pub mod Rbtree
pub mod Runq
pub mod Sched
pub mod Timer
pub mod Wrapper
