-- ===== src/Lib.antt =====
-- A model of Odyssey, a library for replication protocols over RDMA, and of the properties that its
-- parts rely on.
--
-- A worker thread of a machine serves the requests of client sessions (Client), reads and writes the
-- key-value store (Kvs) under the seqlock of each entry (Seqlock), and exchanges messages with the
-- other machines. Messages to send are coalesced in ring buffers (Fifo, Fifo/Send), broadcasts are
-- gated by credits and by the quorum of machines that still answer (Quorum), and the credits that
-- remote buffers give back are inferred from mirrors of these buffers (Fifo/Mirror). Messages and
-- entries are ordered by timestamps (Timestamps); machines, workers and sessions are named by numbers
-- (Ids).
--
-- Base, Base/Tests, Base/Lists, Base/Families: the library names that the other files share, Boolean
-- tests, casts to unsigned integers, assertions as options, arrays as lists, families of values.
--
-- Config: the constants of include/general_util/od_top.h, at the values of the source.
--
-- Fifo: include/fifo/od_fifo.h, one definition for each function, by its name. Fifo/Inv,
-- Fifo/Ring and Fifo/Access have its lemmas.
--
-- Fifo/Send: get_send_fifo_ptr and fifo_send_from_pull_slot of the same file, od_insert_mes of
-- src/network_api/od_main_loop_api.c, and their refinement to a queue of batches.
--
-- Fifo/Mirror: the mirrored buffers of the same file, and their refinement to a list of counts.
--
-- Timestamps, Ids: include/general_util/od_generic_inline_util.h.
--
-- Seqlock: the seqlocks of that file with KVS_local_read and KVS_write of include/mica/od_kvs.h,
-- as steps of any number of workers. A step is one atomic access or one byte of a memcpy, and
-- steps are interleaved in one order: weaker orders of the machine's memory are not modelled.
--
-- Quorum: include/general_util/od_config_util.h.
--
-- Kvs: src/mica/od_kvs.c and the lookup of include/mica/od_kvs.h.
--
-- Client: src/client_api/od_interface.c and src/client/od_wrkr_side_calls.c, for one session.
-- Client/Rmw is what the worker hands over when a read-modify-write is done.
-- What the worker does between two rounds of polling is an argument.
--
-- Network: the main loop, src/network_api/od_main_loop_api.c with
-- include/general_util/od_rdma_gen_util.h. The work requests of a queue pair are linked by
-- their indices, and the calls of the verbs library are recorded as events. Network/Receives
-- posts receives, Network/Links and Network/Broadcast send broadcasts, Network/Unicast sends
-- unicasts, Network/Acks collects and sends acks, Network/Polling polls what arrived, and
-- Network/Operations fills in operations from the requests of a session (ENABLE_CLIENTS is on).
-- Network/Setup has the numbers of src/network_api/od_init_qp_meta.c, and Network/Signals
-- a network card that completes what was posted, against which the waits of selective signalling
-- are checked.
--
-- Network/Commits inserts commits.
--
-- Treiber: the asynchronous Treiber stacks of src/client/od_client.c. Treiber has the two state
-- machines of a session and the set-up; Treiber/Run is a step relation of all sessions of all
-- machines with the store that performs their requests. What the workers and the protocol make of a
-- request is a parameter. The theorems assume that each request happens at one moment, those of a
-- session in their order; the repository documents this neither for the workers nor, in particular, for
-- the relaxed reads and writes. A weak compare-and-swap may fail at will. A session goes on from a poll
-- by its 32-bit last_req_id, as in the code, which waits for the requests only while there were fewer
-- than 2^32 of them: the theorems are about such runs. Treiber/Stages lists the places of a session
-- between two steps, Treiber/Invariant keeps the lists on the stacks, and Treiber/Abstract is the
-- specification: stacks as lists, and the key that each session has to itself.
--
-- Producers: the producer-consumer ring of the same file, in the same way, under the same assumption.
-- It makes an acquire the same as a read, so nothing here says what the acquire is needed for.
-- Producers/Stages lists the places of a session in its round, Producers/Invariant and
-- Producers/Releases say whose turn it is.
--
-- Trace: the manufactured trace of src/trace/od_trace.c. The settings of
-- include/general_util/od_top.h and the draws of rand and rand_r are arguments.
--
-- Examples: the theorems at concrete inputs.
--
-- A function that may fail an assertion returns an option, none where the assertion fails or a pointer
-- is NULL; the argument `assertions` stands for ENABLE_ASSERTIONS, and the theorems hold with and
-- without it unless they say otherwise. Integers are natural numbers, with the wrap-around of their C
-- type written out. Loops that are not bounded by their code run on fuel: capacity + 2 rounds in
-- remove_from_the_mirrored_buffer, 2 in poll (each is shown to be enough), 256 in
-- check_bcast_credits (a byte counts the missing machines), net_capacity + 1 for broadcasts, capacity + 1 for the unicasts of a fifo,
-- completed + 1 for polling and recv_num + 1 for receives (shown to be enough in the theorems about
-- them), receipient_num + 2 for acks, and an argument where the code waits for a worker.
--
-- Not modelled: verbs and multicast set-up, the copies of HERD's library and of CityHash (the hash of
-- a key is an argument), the protocols built on the library (sizes and callbacks that they define are
-- arguments), printing and counters, trace files, operations from a trace, and of
-- src/client/od_client.c the blocking and debugging versions of the Treiber stacks, the Michael-Scott
-- queue, the Harris-Michael list and the programs that only issue sample requests.
pub mod Base
pub mod Config
pub mod Fifo
pub mod Timestamps
pub mod Ids
pub mod Seqlock
pub mod Quorum
pub mod Kvs
pub mod Client
pub mod Network
pub mod Trace
pub mod Treiber
pub mod Producers
pub mod Examples
