-- ===== src/Lib.antt =====
-- co_lib is a C++ library for network programs in coroutines. A Scheduler (src/scheduler.cc) keeps a
-- queue of tasks, each a callback or a Fiber (src/fiber.cc), which its worker threads take off and
-- run until the next switch. IOManager (src/iomanager.cc) is a Scheduler whose idle fiber waits for
-- events and for the timers of its base class TimerManager (src/timer.cc). The hooks of system calls
-- (src/hook.cc) look up FdManager (src/fd_manager.cc), and make a fiber yield where a thread would
-- block. Above this stand sockets, a TCP server, the byte buffer ByteArray (src/bytearray.cc) and
-- HTTP (src/http, src/http-parser).
--
-- Files and the code they model (paths are from the repository's root):
--   Prelude     numbers, lists, machine words, int, texts as bytes, chains of Option.
--   ByteArray   src/bytearray.cc, include/bytearray.h. The chain of nodes is a list of blocks, the
--               node pointers are numbers in it, and each loop of the source is a function with fuel.
--               Memory is the abstract view, one byte sequence, and Invariant the well-formedness.
--               updateCapacity adds a block in a round, so size + 2 rounds are enough; the loops of
--               write and read move a byte or more in a round, so size + 1 are. A length that the
--               source hands on as an int is below 0 from 2^31 on.
--   Timer       src/timer.cc, include/timer.h. The std::set is a list of numbers of timers in the
--               comparator's order, the timers themselves stand in a heap, and the clock is an
--               argument. History holds the relation of reachable states.
--   FdManager   src/fd_manager.cc, include/fd_manager.h. fstat and fcntl are the record Sys.
--               The size of the table is compared as an int.
--   Fiber       src/fiber.cc, include/fiber.h. A callback is the tree of its yields and of its calls
--               of schedule; the machine context is a place in it. A failed assertion is none.
--   Scheduler   src/scheduler.cc, include/scheduler.h: the queue, and the loop of run in one thread.
--               The fibers stand in a heap; run has the number of its passes as fuel.
--   Http        src/http/http.cc, include/http/http.h: the methods and statuses with their texts,
--               the maps of headers, parameters and cookies, and printed messages. A std::map is a
--               list in the order of its comparator. Session is src/http/http_session.cc, on a
--               socket whose answers are a list; each round of its loops takes one answer, so their
--               number and two are enough rounds. Receiving is recvRequest, with the generated
--               parser as an argument; each round takes a byte or more. The parser does not keep the
--               start of a token from one piece to the next, so a head is taken in one piece.
--               Servlet is src/http/servlet.cc.
--   IoManager   src/iomanager.cc, include/iomanager.h: the contexts of descriptors with addEvent,
--               delEvent, cancelEvent and cancelAll, and a pass of idle, which uses the timers of
--               Timer. The answers of epoll_ctl and the reports of epoll_wait are arguments.
--               The casts of the table's size to int are left out: its entries are all allocated,
--               and 2^31 of them are out of reach.
--   Hook        src/hook.cc: do_io and its timers, the sleeps, and the flags of descriptors. The answers
--               of the system's call and the ends of the waits are lists, one entry for each call
--               and each wait, so no fuel is needed.
--   Log         src/log.cc, include/log.h: levels, patterns, formatters, and loggers with shared
--               appenders. A place in a pattern is the rest from there on; the loop over a pattern
--               takes a byte or more in a round, so its length is fuel enough. The chain of roots of
--               a logger goes to earlier loggers only, so its number and one are enough.
--
-- What the definitions leave out: locks and the interleaving of threads; memory addresses and
-- destructors; ids, names and stack sizes; ByteArray::read into a std::string; what the
-- system makes of the flags that fcntl is given.
-- Uninitialised bytes are 0. Not modelled at all: src/address.cc, src/tcp_server.cc,
-- src/config.cc, src/thread.cc, src/util.cc, most of src/socket.cc, the servers of HTTP, the
-- callbacks of the HTTP parsers, and the parsers that Ragel generates (src/http-parser, src/uri.cc).
pub mod Prelude
pub mod ByteArray
pub mod FdManager
pub mod Fiber
pub mod Hook
pub mod Http
pub mod IoManager
pub mod Log
pub mod Scheduler
pub mod Timer
