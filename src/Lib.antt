-- ===== src/Lib.antt =====
-- Brix: a bank of clients that pay each other over UDP. A coordinating server holds the database;
-- it serves each packet in a thread, and sends a snapshot of the database to the other servers
-- after each change, so that one of them can take over.
--
-- The parts, the files that model them and the code:
--   Packets    common/src/packets: the packet classes, their texts and the parsers of
--              `String_Packet` (`to_REQ_Packet` is `to_req_packet`, and so on).
--   Db         server/src/db_manager: Db/State has the structs, Db/Methods the methods of
--              `DbManager`. A method is a `Prog` (Db/Program): it takes and gives back mutexes,
--              reads and writes the database, sends and throws, in the order of the source.
--   Db/Bank    the abstract bank, a pure function on snapshots for each method. Db/Idle and
--              Db/Refinement relate the methods to it, Db/Calls and Db/Payments use that.
--   Db/Threads two programs on one database, in every order of their instructions. In
--              Db/Threads/Ownership each thread owns the clients whose mutexes it holds; in
--              Db/Threads/Order it takes its mutexes in an order.
--   Snapshot   `db_snapshot::to_string` and `from_string` of db_manager.cpp.
--   Requests   server/src/request_handler: `process_req_packet` and `process_kill_packet`.
--   Server     one round of each loop: `packet_multiplexer` (server/src/multiplexer),
--              `server_discovery_service` (server/src/greeter; Server/Location) and
--              `DB_Synchronizer::listen_for_updates` (server/src/db_synchronizer), whose instance
--              is in Server/Synchronizer. Server/Ports has the ports of server/src/ports.h;
--              Server/Failover follows a payment to a second server.
--   Client     client/src/main.cpp and client/src/data_transfer: the queue of requests,
--              `RequestDispatcher::dispatch_request` and the thread that empties the queue, against
--              any network (Client/Retries, Client/Queue).
--              Client/Service is the network between one client and an idle server: the datagram goes
--              through the model of the server, and a list says which answers get lost. After a lost
--              answer the client looks for the server, whose discovery service registers it.
--              Client/Response and Client/Discovery are client/src/client_discovery_protocol.cpp and
--              `locate_request_server`; Client/Discovery/Search joins them to the server's discovery
--              service over a network that loses answers, and Client/Session follows a client from
--              its start to its first payment.
--   Election   server/src/election: one round of the loop of `single_socket_election` with the state
--              machine of `RedundancyManager` (`election_round`), its messages and ids, and the loop
--              from its start (Election/Loop).
--   Election/Cluster  any number of servers on one network: each takes its turns by its own clock, and
--              the network delays, loses and reorders datagrams and adds others.
--   Election/Heartbeat  server/src/election/heartbeat.cpp: the receiver, `heartbeat_test` and a round
--              of the tester's loop, which calls `backup_election`; Calls and Descriptors have its
--              sockets. Election/Leaderless has two servers.
--   Startup    the arguments of server/src/main.cpp and client/src/main.cpp.
--   Server/Services  the sockets that the services open before their loops.
--   Clock      `get_current_time_ms` of common/src/date_time_utils.cpp.
--   Text, Net, Base  what the code uses of the standard library: tokens, decimal numbers, maps,
--              integers of a fixed width. Net/Sockets and Net/System are
--              common/src/data_transfer/socket_utils.cpp.
--   Tests      concrete runs.
--
-- How they interact: a datagram reaches `packet_multiplexer_round`, which parses it (Packets) and
-- starts a thread (Requests); the thread calls the database (Db) and sends an answer and the text of
-- a snapshot (Snapshot); `listen_round` of another server reads that text and loads it. A client first
-- asks the discovery service where the multiplexer is. The servers test the heartbeat of their
-- coordinator, and hold an election when it is silent.
--
-- Numbers: `unsigned long` and `unsigned int` are natural numbers, with `% 2 ^ 64` and `% 2 ^ 32`
-- written out; `int` and `long` are integers, and a conversion to `int` keeps the low 32 bits. The
-- increment of `num_transactions` past the largest `int` is undefined in the source and wraps here.
-- An `unordered_map` is an association list in the order of iteration. `emit`, the decimal print,
-- runs on fuel: the number itself, which has at least as many units as digits. Every other function
-- is a structural recursion; the loops of the client and of the heartbeat count the rounds that are
-- left down, as the source counts those that are over up.
--
-- Parameters: `Os` is the operating system, a state and the calls for sockets on it, with POSIX's
-- behaviour as `OsLaws`; Net/System/Machine has an instance. `Inet` stands for `inet_addr`,
-- `inet_ntop`, `inet_ntoa` and `inet_pton`, with POSIX's behaviour as `InetLaws`; Net/Dotted has an
-- instance. Addresses are numbers below 2^32. The network is a function with a state of its own, from
-- a datagram to what comes back in time. The clock is the number of milliseconds that a round is given.
--
-- `pthread_mutex_lock` waits while the mutex is held; a mutex or a record that does not exist, and
-- an index past the end of a vector, are undefined behaviour (`fault`, `undefined`). Each read and each
-- write of the database is one step. The source has data races, which are undefined behaviour in C++
-- and have no counterpart here: `get_client_info` and the snapshots read with no lock, and
-- `make_transaction` and `register_client` read records behind the release of their mutex.
--
-- Not modelled: the creation of threads and the memory of their arguments, the order in which the
-- threads of a server open their sockets, with `get_self_ip` between them, the pauses,
-- `RedundancyManager`'s standby mode, which nothing reads, the sockets of the client, its dispatcher
-- while the user still types, the lengths without a value that `recvfrom` is given, the write before
-- the buffer on a time-out of the election, which is taken for harmless, and the log lines. In
-- Election/Cluster a round is one turn, and a call of the heartbeat's thread comes between two rounds.
-- The order of datagrams on the network is the order of sending, except in Election/Cluster and for what
-- Client/Service and the networks of the discovery and of the heartbeat lose.
pub mod Base
pub mod Text
pub mod Net
pub mod Clock
pub mod Packets
pub mod Db
pub mod Snapshot
pub mod Requests
pub mod Server
pub mod Client
pub mod Election
pub mod Startup
mod Tests
