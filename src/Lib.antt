-- ===== src/Lib.antt =====
-- LCW, a wrapper of several communication libraries (paths are from the repository's root).
--
-- A program calls the functions of src/api/lcw.hpp. src/lcw.cpp implements them: it times and counts
-- each call and passes it to the one backend that src/backend/backend.cpp chose. A backend posts
-- sends, receives and puts and, when it makes progress, signals each finished operation to its
-- completion object (src/comp): a queue, which the program polls, or a handler. The MPI backend
-- (src/backend/mpi) keeps the posted operations in completion managers; each device has its
-- communicator, its manager, and one receive posted for incoming puts.
--
-- Base: what an action is. A call takes a state and returns a result with the next state, or a
--   fault (an assertion that fails, a bad pointer, an exception), or waits for ever on a lock.
--   `Holds P m Q` says that from a state with P the action m ends, if it returns, with Q.
-- Api: the types of src/api/lcw.hpp. Pcounter: src/util/pcounter.hpp and .cpp, the counters by their
--   names; Registry has the calls of LCT (`LctApi`), Handles and Reading are about what LCT reports.
-- Comp: src/comp. `Host` stands for LCT's queues, the handlers, the allocators and memory. Comp/Fifo
--   specifies its queues as lists, over the documented behaviour of LCT's.
-- Spinlock: which lock functions src/util/spinlock.cpp and src/env.cpp put in use; Pthread has the
--   wrappers of pthread (`PthreadApi`) and spinlock_t; Tables and Flag are about what they do.
-- Backend: src/backend/backend.hpp and backend.cpp. Frontend: src/lcw.cpp; Frontend/Rules passes
--   a statement about a backend through its wrappers.
-- Mpi: src/backend/mpi.
--   Types: mpi::config_t, comp::entry_t, the managers, mpi::device_t, the globals of
--     backend_mpi.cpp, enter_stream_cs and leave_stream_cs; `MpiApi` stands for MPI.
--   Bigcount: bigcount_wrapper.hpp. Signal: mpi::signal_comp.
--   Manager: comp_manager; Manager/Delivery is about the order in which manager_req_t serves its
--     entries, Manager/Threads about the steps of several threads in it, each one access to the
--     queue or the lock.
--   Device: alloc_device, free_device and what they use, finalize, the shared ownership of managers;
--     History/Tags is about get_max_tag. Post: send, recv, put; Post/Race is about the limit on pending
--     messages under several threads.
--   Progress: do_progress; Progress/Arrival is about a put that arrives. Init: initialize,
--     Init/Support the configurations it accepts. Table: backend_mpi_t.
--   Frame, Ledger, Tally, Throttle, Produce, and the modules called Balance: what each operation
--     does to a ledger of the entries held. Put and the modules called Posted: what each operation
--     does to the receives that the devices keep posted for puts. History: sequences of calls
--     between initialize and finalize.
-- Gex: src/backend/gex, with `GexApi` for GASNet-EX; Gex/Delivery is about the index that a put
--   carries, Gex/Table is backend_gex_t.
-- Pingpong: the benchmark examples/pingpong_mt.cpp, and examples/comm_exp.hpp.
--   Buffer: the contents of messages; `RandR` stands for POSIX's rand_r. Workers: who uses and
--     allocates which device. Sequence: the turns that g_device_sequence_control gives. Spawn: the
--     threads of main. Exchange: the calls of an iteration, and the message sizes. CppBarrier:
--     cpp_barrier, with threads that call wait once. Waits: the loops that wait and make progress, on
--     fuel, and do_computation. Options: the options and what main checks of them.
-- Contexts: what src/backend/lci and src/backend/lci2 keep alike, the requests that they pass as user
--   context; Contexts/Ledger weighs them against those that the library holds.
-- Lci: src/backend/lci, with `LciApi` for LCI. Keeps: what each operation does with the requests,
--   Poll: what poll_cq returns, Posting: what send, recv and put return, History: sequences of calls,
--   Table: backend_lci_t.
-- Lci2: src/backend/lci2, with `Lci2Api` for LCI2. Alive and Keeps: the requests that live, Delivery:
--   what poll_cq and handlers get, History: sequences of calls, Table: backend_lci2_t.
-- Checks: tests, and the theorems at concrete inputs, over small concrete worlds.
--
-- A pointer is an optional index into a list of objects; a freed device or completion object is
-- `none` there. A request belongs to its entry alone, so an entry holds its request itself. An MPI
-- call that reports an error ends in the assertion of MPI_SAFECALL. In History one call at a time
-- runs, so a lock found held stays held; a history may run continuations, in any order, between
-- any two calls. A completion manager that is destroyed stays in the list of those made as `freed`.
-- The loop that fills g_comp_managers and those of the benchmark with a bound are recursion on the
-- number of rounds; the one over the message sizes runs on fuel, max_size + 1 of it; those
-- that wait run on fuel, of which one more than the rounds before the test succeeds is enough. Delivery counts
-- the calls that a program makes while it waits, and length ahead + 1 of them are enough.
--
-- Not modelled: the logger, option parsing and timing in the benchmark, the calls that a worker
-- makes outside its iterations, the set-up of LCT, handlers that call
-- back into the library, and interleavings within a call beyond those of Manager/Threads,
-- Post/Race, Sequence and CppBarrier.

pub mod Base
pub mod Api
pub mod Pcounter
pub mod Comp
pub mod Spinlock
pub mod Backend
pub mod Mpi
pub mod Gex
pub mod Contexts
pub mod Lci
pub mod Lci2
pub mod Pingpong
pub mod Frontend
pub mod Checks
