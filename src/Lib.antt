-- ===== src/Lib.antt =====
-- Verification of the core of charm-experiments, a collection of experiments with message-driven
-- runtimes over Converse, Charm++ and memory that processes share.
--
-- The parts, and where each is modelled (paths of the code are from the repository's root):
--
-- charmlite (archive/charmlite) is a small Charm++ on Converse. A message carries a destination,
-- the tag of an entry method or of a callback (Charmlite/Destination, Charmlite/Message:
-- include/destination.hh, message.hh, callback.hh). Entry methods and element types are
-- registered by number (Charmlite/Tables: cmk.def.hh, ep.hh). A PE dispatches a message to a
-- collective, or keeps it until the collective is created (Charmlite/Core: src/core.cc:
-- deliver_to_endpoint_, deliver_to_callback_, exit, send). A collective delivers it to an
-- element, buffers it, or sends it to the element's home PE, which the locmgr names
-- (Charmlite/Collective, Charmlite/Locmgr: collective.hh, locmgr.hh). Proxies choose the numbers
-- of new collectives and address messages (Charmlite/Proxy: proxy.hh); reductions merge messages
-- on the way (Charmlite/Reduction: reduction.hh). The state of a collective is the record
-- Collective: the map of its elements (find, put), a deque for each element (waiting) and the log
-- of what it handed to Converse.
--
-- Completion is the detection of completion in archive/charmlite/examples/cdt/pgm.cc: produce,
-- consume, start_detection and receive_count_ on one PE; Completion/Chare has the chares that
-- produce and consume the events; Completion/Counts adds the counts of all
-- PEs.
--
-- The workgroup (archive/path2.0/include/hypercomm) runs tasks, each with a number of
-- continuations, on the elements of a Charm++ array. Workgroup has the state and the operations
-- create, resume and try_continue_; Workgroup/Settle, Total and Operations are about their loops,
-- Workgroup/Rounds about the payloads that a new task takes, Workgroup/Order, Early and Commute
-- about orders of arrival, Workgroup/Launch about ids, reductions and moved messages,
-- Workgroup/Pup about elements that move.
--
-- Relaxation is the example archive/path2.0/examples/relaxation/pgm.cpp, a task of a workgroup:
-- its constructor and continuations hand back the task and what they send (Relaxation), whole runs
-- feed it the payloads in the order in which it can use them (Relaxation/Rounds, Run, Grid),
-- Relaxation/Ghosts counts what all tasks send in a round, and Relaxation/Moved has its pup.
--
-- comex (archive/tests/comex) joins components by their ports. Comex has component.hh and
-- outbox.hh: accept, activate, output_to, and what they call; Comex/Counter is about the
-- quiescence counter, Comex/Activation about the loop of activate, Comex/Stranded about the
-- outbox.
--
-- The structures in shared memory (archive/include) are Ipc/Queue for queue.hh, as the atomic
-- steps of any number of threads, Ipc/Pool for pool.hh, for one caller, and Ipc/Address for
-- xpmem.hh, with the calls of the XPMEM library as parameters.
--
-- The lock-free queue (archive/lfq/ipc_lfq.hh) is Lfq: enqueue and dequeue over n slots for one
-- caller at a time, where a lock that is free is taken at once, and Lfq/Fifo and Runs compare it
-- with a list. Lfq/Threads has the atomic steps of any number of producers and one consumer, with
-- an invariant of the tickets and slots (Lfq/Threads/Invariant) that each step keeps
-- (Lfq/Threads/Enqueuing, Dequeuing). Lfq/Tester is archive/lfq/tester.cc, the loops of two
-- processes that send each other numbers, one call of the queue a step: Lfq/Tester/Course says what
-- the queues hold, Channels and Progress what changes it, Turns is about one turn and Orders about
-- every order of the turns.
--
-- Relay is archive/xpmem-experiments/tester.cc: two processes that pass messages on through two
-- such queues and read a number in the memory of each other. It calls the operations of Lfq and
-- takes the window that is attached from Ipc/Address.
--
-- Warp is warp/warp.hpp, requests and probes for messages of MPI whose entry functions run when
-- they have come, and Warp/Pingpong is warp/pingpong.cpp, two tasks on it. Warp/Calls, Turns and
-- Play are about the life of a task, Warp/Tally, Answers, Returns, Probes and Once about
-- __run_once.
--
-- Common has what these share: maps, lists measured by native numbers, the outcome of a call (a
-- value, an abort or failed assertion, undefined behaviour, or no end within the fuel), and
-- signed integers. Relaxation uses Workgroup, and Relay uses Lfq and Ipc/Address; the other parts
-- do not call each other. The modules of a part below its own use it.
--
-- Bounds and fuel. Numbers of broadcasts wrap at 2 ^ 16, task numbers at 2 ^ 32 and addresses at 2
-- ^ 64, as does the head of the lock-free queue; other numbers are unbounded. flush_buffers,
-- try_continue, activate and foreach_receive run on fuel, and so do the entry methods of test,
-- which may call themselves. A round of try_continue takes a payload out of a queue, and one of
-- activate a set, so that fuel above their number is enough; a round of flush_buffers takes a
-- message out of the buffer unless it puts a broadcast back. A round of foreach_receive passes a
-- request or handles a message, so that the requests and twice the messages that can come bound
-- the rounds.
--
-- Parameters. The user's code (entry methods, callbacks, combiners, tasks, actions) is a function
-- of its object and its input that says what it sends; what it sends reaches the runtime later, so
-- code that calls the runtime back at once is outside the models, but for the chares test.
-- Converse's spanning tree, its PE numbers and the entry tables are arguments, and so are the
-- calls of MPI and any record of them, the doubles of Relaxation, what Charm++ writes for a
-- container or a message, and what it makes of the contributions to a reduction. Templates are
-- instantiated: an element index is a number, the inputs of a component are a list.
--
-- Not modelled: start-up and shut-down, memory allocation and message headers, the system calls,
-- the other examples and testers, which only drive the parts above, and the parts in other
-- languages.
pub mod Common
pub mod Charmlite
pub mod Workgroup
pub mod Comex
pub mod Ipc
pub mod Lfq
pub mod Completion
pub mod Relaxation
pub mod Warp
pub mod Relay
