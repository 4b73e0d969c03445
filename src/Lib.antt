-- ===== src/Lib.antt =====
-- psar_dsm: a model of the distributed shared memory library of this repository and the proofs
-- about it. Paths are from the repository's root.
--
-- The program. Every node maps the same number of pages (src/dsm_memory.c). One node is the master;
-- it holds a directory for each page: the requests that wait for it and the sockets that hold a
-- copy for reading. A thread of the program takes a lock by sending LOCKPAGE to the master and
-- waiting until the page has come (src/dsm.c, src/dsm_core.c). The listener thread of each node
-- receives messages (src/dsm_socket.c), decodes them (src/dsm_protocol.c, over the library binn) and
-- runs the handler of the message (src/dsm_core.c). The queues are singly linked lists (src/list.c).
--
-- The files.
-- - Prelude and its children: shared names, tests on numbers, lists over the native numbers, and the
--   outcome of a call: `ok`, `exit` (the macro error of src/dsm_util.h), `fault` (an access that C
--   leaves undefined), `blocked` (a mutex that is held), `out_of_fuel`.
-- - LinkedList: src/list.c on an explicit heap (list_init, list_add, list_remove, list_contains,
--   list_destroy), with a child for each operation; LinkedList/Queue.antt is the view that the other
--   components use, a sequence with a flag for the tail pointer, and the refinement of it.
-- - Memory: the records of src/dsm_memory.h, dsm_memory_init, get_page_from_id, get_page_from_addr.
-- - Message: the messages of src/dsm_protocol.h, the trace of a node's events, and dsm_send_msg as
--   its callers see it.
-- - Core: satisfy_request, invalidate_readers, giveup_localpage and process_list_requests of
--   src/dsm_core.c on the record of one page.
-- - Node: dsm_t of src/dsm.h; Node/Handlers.antt has the handlers of src/dsm_core.c and
--   dsm_dispatch_message of src/dsm_protocol.c; Node/Api.antt has the calls of the program's own
--   thread: lock_page, wait_barrier and terminate of src/dsm_core.c and lock_read, lock_write,
--   unlock_read, unlock_write of src/dsm.c (sync_barrier is wait_barrier). Node/Acquire.antt runs both
--   sides of a lock. Node/Join.antt has the two initialisations of src/dsm.c with dsm_master_init of
--   src/dsm_master.c; what the system gives them is a parameter. Node/Blocks.antt has
--   the memory that an initialisation takes and dsm_destroy of src/dsm.c, dsm_memory_destroy of
--   src/dsm_memory.c and dsm_master_destroy of src/dsm_master.c give back, Node/Quit.antt InitMaster,
--   InitSlave and QuitDSM of src/dsm.c over dsm_g. Node/Listener.antt is the listener's loop of
--   src/dsm_socket.c, over the sockets that are ready in each round and what select does;
--   Node/Descriptors.antt and Node/Watched.antt are about the sockets that it watches, Node/Ledger.antt
--   and Node/Clients.antt about the clients that the master counts. The other children are about these
--   definitions.
-- - Protocol: the encoding of dsm_send_msg and the decoding of dsm_receive_msg (src/dsm_protocol.c) over
--   an interface for binn: the buffer of an object, and readers by key that give back what was set.
-- - Socket: dsm_send and dsm_receive of src/dsm_socket.c; how many bytes send takes and the bytes that
--   recv gives are parameters. Socket/Short.antt is about a send that takes a part.
-- - Transport: dsm_send_msg and dsm_receive_msg of src/dsm_protocol.c over the bytes of a socket, with
--   binn on bytes as an interface.
-- - Rendezvous: one use of sync_barrier (src/dsm.c): the threads in wait_barrier and the handlers of
--   the barrier (src/dsm_core.c) as steps in any order, each node calling once and for one number.
--   Answered is about the moment at which BARRIER_ACK comes, with LostWakeup; Opens about a barrier
--   that all have come to.
-- - Cluster: one page on all nodes, with the messages about it that are under way in order, and the
--   steps of the listeners and of the programs' own threads over the definitions above, in any order;
--   each round of the loop of process_list_requests is a step of its own. Channel, Local, Turns, Moves
--   and Rounds are about one kind of step each, Contents and Agreement about the bytes of the copies;
--   Coherence, LastStore and Starvation are about runs in which each step is done at once, and Overlap
--   about those in which other nodes act between the messages of a step and the change of its own
--   node's page, as they do in the source, where a page is sent first and given up afterwards.
-- - Program: main of the demos (src/demo_*.c) and of the tests that lock a page (src/test_dsm_lock_*.c)
--   as lists of statements, and a thread that runs such a list beside the node's listener, in any
--   order of their steps. Program/Discipline.antt is a check of such a list before it runs: a page is
--   used between a lock and an unlock of it. Locks, Locking, Holding and Relock are about a page that
--   is locked twice, the other children about programs that pass the check.
--
-- The conventions. A pointer to a page is its index, NULL is `none`. The memory that mmap returns is
-- kept page by page in the record of the page: the right that mprotect gave it (`mapped`) and its
-- bytes. A function that sends appends to the trace, newest event first. What the system's send does
-- on a socket, and whether memory that was freed still reads as it did, are parameters
-- (`Surroundings`): process_list_requests reads the `next` field of a node that list_remove has
-- freed, and handle_givepage_msg copies from a buffer that dsm_receive_msg has freed, so without the
-- second parameter neither would have a defined result.
--
-- Fuel. The walks of src/list.c get one round more than the length that the handle records, which is
-- enough for every well-formed list. The loop of process_list_requests takes any fuel above the
-- number of requests, unless it does not end at all. A printf of a text reads no further than the end
-- of the shared memory.
--
-- Not modelled: binn (src/binn.c, src/binn.h), a copy of another project's library; the system calls,
-- whose results are parameters; the condition variables beyond their signals (in Rendezvous no thread
-- wakes up without one); steps of two threads of one node that overlap on one page, where the source has
-- no mutex for them (a store between the send of a page and the mprotect, a message between the test and
-- the read of terminate); what the listener's thread still does after pthread_cancel in dsm_destroy; a
-- length of a list beyond that of an int; the destruction of mutexes; log, debug and printed output; the tests that only
-- start a node or a socket.
mod Prelude
pub mod LinkedList
pub mod Memory
pub mod Message
pub mod Core
pub mod Node
pub mod Protocol
pub mod Socket
pub mod Transport
pub mod Rendezvous
pub mod Cluster
pub mod Program
