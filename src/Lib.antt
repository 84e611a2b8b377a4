-- ===== src/Lib.antt =====
-- A verification library for dns_server, a distributed DNS service in C and C++: DNS servers answer
-- queries, a router spreads them over the servers and drops those that do not answer, a scoreboard
-- records what became of each request, and the servers pass changes of the translations on.
--
-- The parts and their files
--   Dns: src/dns.c and include/dns.h. craft_message and parse_message work on buffers whose every
--     access is checked against the bounds (`read_at`, `write_at` of Common/Memory.antt).
--   Coms: src/coms.cc and include/coms.h. A server's translations; its own update; the text that
--     update_hosts sends and recieve_update reads (Update); the loop of update_hosts over the
--     network (Cluster), what it does to the servers (Converge), and what its code tells (Verdict);
--     the transfer of all translations, send_entire_file and request_hosts (Transfer); create_coms
--     (Create).
--   FileUtils: src/file_utils.cc, the hosts file, which Coms reads and the generator too.
--   DnsServer: src/dns_server.c. recieve_request, which uses Dns and Coms; the loop of
--     query_handler, whose thread stands at the test of pause or waits in recvfrom, past that test,
--     and calls recieve_request for what it takes there (Handler); create_dns_server and
--     update_and_online (Online), which talks to the router and takes another server's
--     translations.
--   Server: the socket wrappers of src/server.c.
--   CliParser: parse_cli of src/cli_parser.c, over the options that getopt returns.
--   Generator: src/generator.c. The schedules of run_test, from the arguments of CliParser; the
--     system under test and its requests (System), which use the router, the servers and the
--     scoreboard; the life of one request (System/Life); the course of a test from its start to its
--     results file (System/History, System/Whole), also while servers leave and join
--     (System/Course) and where a server is paused (System/Disable); and the changes of the
--     translations that a test makes through Coms (Translations), or makes fail (Failure).
--   Router: src/router.c and include/router.h. The list of servers with its two locks,
--     forward_request, and query_response_time, which probes the servers and removes the silent
--     (Probe), among them the paused ones, whose threads Replies and Heard follow (Polling); check_tcp_connections (Online), which sends
--     the list and adds a server; and the steps of the router's threads at the two locks, with the
--     returns and reads that keep a lock (Threads, Exclusive, Locks).
--   Scoreboard: src/scoreboard.cc and include/scoreboard.h. The queue of the requests in flight and
--     the results file, and dns_response_handler, which hands it the answers of recieve_request.
--   Lifetime: what create_generator and destroy_generator, the part of run_test that adds a server, and
--     the functions that create and destroy the objects below them, take from the system and give
--     back: memory, sockets, files and threads. Objects has the objects, Course the system, Ends
--     what is left.
--
-- Conventions. C functions that can fail beyond a code end in `Outcome` (Common/Calls.antt): `crash`
-- for undefined behaviour and abort, `blocked` for a lock that is never given back. Machine integers
-- are natural numbers with the wrap-around written out. Strings and messages are lists of bytes. What
-- the operating system answers is an argument, and so are the times, which the code only stores.
-- Loops are recursions on the list that they walk; remove_loop, which leaves the index in place after
-- a removal, has fuel for as many rounds as there are servers, and each round uses one of them up. The
-- loop of query_handler runs for as many steps as its caller says, and two are enough to answer what
-- has come in and to stand at the test of pause again. The outer loops of run_test have fuel 11: they go round nine or ten times, and test once more.
--
-- The loop of check_tcp_connections that reads an address has fuel: two rounds are enough for an
-- address in at most two pieces, and where the peer has closed the connection no fuel is.
--
-- Not modelled: threads, other than as the order of calls, at the router's locks, and where System
-- and Router/Replies let the servers' threads answer; use of memory after it was freed; how the
-- threads that run_test starts interleave with its requests; what is printed. The router's mutexes
-- are taken to be unlocked at first: create_router never initialises them. include/rrl.h,
-- include/zone.h and include/dns_temp.h declare what no file implements.
pub mod Common
pub mod Dns
pub mod Coms
pub mod FileUtils
pub mod DnsServer
pub mod Server
pub mod CliParser
pub mod Generator
pub mod Lifetime
pub mod Router
pub mod Scoreboard
