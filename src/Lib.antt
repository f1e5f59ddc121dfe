-- ===== src/Lib.antt =====
-- Model of the RDMA and persistent-memory benchmarks of pmrdmabenchmark/src: five programs that
-- measure remote writes and reads of memory that the server may map from persistent memory; of
-- rwbenchmark, whose client writes a string to its server and reads it back; and of rdma-example,
-- the example that rwbenchmark has grown from.
--
-- The programs. Each program is a client and a server in one file. main reads the options
-- (Options), allocates one node for each connection (Session/Nodes: alloc_nodes), and runs
-- run_server or run_client. Both wait for events of the connection manager (Events:
-- connect_events), whose handler sets the resources of a node up (Setup, Ws: init_node) and posts
-- its first receive (Post). The server sends each client the address and the key of its buffer. A
-- client's thread makes rounds of requests on that buffer and records their times (Client, Stats).
-- In wsbenchmark.c and wibenchmark.c a round writes and waits for the server's notification, and a
-- server's thread answers: it posts a new receive, flushes the buffer and notifies the client (Ws,
-- Wi: server_worker). In wrbenchmark.c a read follows the write (Wr), wbenchmark.c only writes
-- (Wr), and rbenchmark.c only reads (Rb). At the end disconnect_events waits for the connections to
-- close and destroy_node releases the nodes.
--
-- The files:
--   Prelude, Prelude/Int: library names, Boolean tests, the integers of C over the native numbers.
--   World: the calls of outside code, the trace of calls, the monad `Cmd`. World/Keeps has the
--     rules for a property of the trace that a program keeps, World/After those for a property of
--     the result, World/Ensures those for both at once, and World/Triple those for a condition
--     before and one behind. They carry most proofs about stateful code.
--   Node: the options that the code reads, `struct statistics` and `struct node`.
--   Setup: the buffers of a node, and destroy_node (wsbenchmark.c). Setup/Outcomes says what
--     success and failure leave, Setup/Regions where the buffers lie, Setup/Release what is freed.
--   Post: the functions post_recv_... and post_send_... of wsbenchmark.c, wibenchmark.c and
--     wrbenchmark.c.
--   Poll: the completion queues and the clock (node_poll_n_cq, poll_loop, get_time_ns).
--     Poll/Progress says what the wait has collected where it ends, and when it ends.
--   Ws, Wi: init_node and server_worker of wsbenchmark.c and of wibenchmark.c. Ws/Protocol is about
--     the order of the server's calls, as is Wi/Protocol, Ws/Resources about init_node,
--     Wi/Persistence about the options of wibenchmark.c.
--   Wr, Rb: init_node and worker of wrbenchmark.c and wbenchmark.c, and of rbenchmark.c.
--     Wr/Protocol is about the order of the client's calls.
--   Client: the threads of the clients; Client/Protocol is about the order of their calls,
--     Client/Figures about the statistics that they leave and the times that they read. Stats:
--     struct statistics, the totals and print_stats. Stats/Jitter and Stats/Plain are about the
--     figures of many rounds, Stats/Totals about the totals, Stats/Reports about what is printed.
--   Options: the options of main. Common: common.c, with child modules Sizes, Buf, Addr and Wait.
--   Events: struct benchmark and the event handlers. Events/Machine is the machine of counters that
--     they implement, Events/Accounting is about the counters, Events/Quiet about the handlers that
--     acknowledge no event. Session/Nodes: alloc_nodes, destroy_nodes and poll_one_wc.
--     Session/Allocation: a failure of alloc_nodes. Session/Placement: where the buffers of its
--     nodes lie. Session: run_server to main. Programs: the five whole programs. What they share is
--     one definition, and what they do not share is the record `Events.Variant`. Programs/Machine,
--     Programs/Figures, Programs/Counting and Programs/Pmem have theorems about the programs.
--   Interleaving: main and the threads of run_client, in any order, as a step relation over the
--     flags, the statistics and the positions of the threads. Interleaving/Lists has the list of
--     threads, Interleaving/Phase the invariant, Interleaving/Totals is about the totals.
--   Rw: the functions of rwbenchmark/src/common.cpp that its client calls, and class Client of
--     rwbenchmark/src/client.cpp. Rw/Init is Client::init, Rw/Transfer has the metadata, the write
--     and the read, Rw/Cleanup is Client::cleanup, Rw/Worker the thread and main (rw_main).
--     Rw/Completions is about the completions taken, Rw/Balance about the events acknowledged,
--     Rw/Resources about what init acquires, Rw/Release about cleanup, Rw/Startup about an init
--     that fails. The class Client of rdma-example/src/client.cpp is the same text. Rw/Steps has
--     rules that these proofs share. Rw/Session is class ClientSession of
--     rwbenchmark/src/server.cpp, Rw/Session/Setup about setup_connection, Rw/Session/Serving about
--     exchange_metadata and teardown. Rw/Server is class Server and main of that file.
--   RdmaExample: RdmaExample/Server is rdma-example/src/server.cpp, and RdmaExample/Client the main
--     of rdma-example/src/client.cpp. Their common.cpp, their class Client and the part of their
--     class Server that is ClientSession are the definitions of Rw. RdmaExample/Resources counts
--     what the server holds; RdmaExample/Quiet, RdmaExample/Accepting, RdmaExample/Holding,
--     RdmaExample/Lending and RdmaExample/Released follow it from the start to the end;
--     RdmaExample/Unset is about a client whose buffer is not allocated.
--   Scenarios: a concrete world, tests, and the theorems at concrete inputs, also in the files
--     under Scenarios/.
--
-- State and outside code. A function of C that calls a library, or reads memory that a device or
-- another thread writes, is a `Cmd`: it takes a `World` and the trace of the calls before it, and
-- returns with a longer trace, faults (a NULL or freed pointer is followed, a division by zero is
-- made, or an exception is not caught), or runs out of fuel. A `World` says what each call returns,
-- as a function of the trace that ends with that call; nothing is assumed of it but what a theorem
-- names. A function that writes to a struct returns the new one with its result. getopt_long is the
-- list of options that it yields; atoi, strtoul, strncasecmp and strlen are the record `Libc`, and
-- std::stol is an argument. In Rw a member of an object that its constructor leaves uninitialised
-- is `none`: what it holds is up to the world, and goes to the calls that get it. The macro NO_ACK
-- is the field `no_ack` of `Config`.
--
-- Numbers. uint64_t, uint32_t and size_t wrap around (u64, u32). An int is an unbounded ℤ, as its
-- overflow is undefined in C.
--
-- Fuel bounds the rounds of the loops that wait for the outside: for a completion, for an event, or
-- for the end of a connection. No number is enough for every world, since the source waits as long
-- as the other side is silent. So what is said of the calls of such a loop holds at every fuel and
-- in every world, of a run that is cut short as well as of one that ends. Poll/Progress names the
-- worlds in which the wait for completions ends, with a fuel that is enough there. All other loops
-- are structural recursion.
--
-- Threads. In the Cmd of a whole program a client's thread runs where it is joined, and a server's
-- thread is a definition of its own, that the session starts and cancels. In Interleaving the
-- threads of a client run in any order; there a round yields any sample, fails, ends the program by
-- a fault, or never ends, and pthread_create succeeds.
--
-- Freed memory. The handlers of the server of rwbenchmark read an event behind its acknowledgement,
-- which frees it, and the context of an id that is destroyed. What such a read gives, if it does
-- not end the program, is `freed_event` and `freed_context` of the World. So too where cleanup of
-- the client of rwbenchmark acknowledges an event once more. ibv_dereg_mr of NULL in destroy_node
-- and teardown is a fault, as are the calls of cleanup on a NULL pointer.
--
-- Not modelled: the text that is printed, and the throughput, a double; the program's text for
-- --help; the functions that only print; the class Statistics of rwbenchmark and the two files
-- benchmark_context of rdma-example, which nothing uses; charts and scripts.
pub mod Prelude
pub mod World
pub mod Node
pub mod Setup
pub mod Post
pub mod Poll
pub mod Ws
pub mod Stats
pub mod Client
pub mod Common
pub mod Wi
pub mod Wr
pub mod Rb
pub mod Rw
pub mod RdmaExample
pub mod Options
pub mod Events
pub mod Session
pub mod Programs
pub mod Interleaving
pub mod Scenarios
