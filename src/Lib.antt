-- ===== src/Lib.antt =====
-- SaWa: a file server over TCP, its client, and the web and application servers built on its
-- thread pool (server/), and a Linux block driver that is another client of the file server. What
-- is modelled, and where:
--
-- - Bytes, Storage: integers in memory and on the wire (protocol.md: unsigned, 32 bits, least
--   significant byte first); allocations as lists of bytes, fresh ones holding arbitrary stale
--   bytes; fseek, fread and fwrite on the filesystem file as an interface with their documented
--   behaviour; the answers of read(2) on a socket as a list. The stale bytes, the answers and the
--   addresses of allocations are arguments, so the theorems hold for all of them.
-- - Thread: ConnectionThread of server/thread_pool.h, which the pool and the servers share.
-- - Sawa: server/sawa_srv.cpp, one function to a method (send_info is sendInfo, and so on). A
--   Session is a SawaServer with one connection. Sawa/Protocol states what protocol.md promises;
--   Refinement and Serving relate processRequest and readData to it; Durability is about reading
--   back and new files; Faults about requests outside the protocol. readData recurs on the list of
--   the answers that read gives, so it needs no fuel.
-- - Client: server/sawa_client_interface.cpp. Commands relates its messages to the protocol's
--   encoding, EndToEnd joins client and server; SelfTest is threadTest, in Passing against the
--   server; Running is SawaInterface's constructor, sendCommand and testServer, and Timing
--   timeval_subtract. CommandLine is the options of server/sawa_client.cpp, and Program its main
--   with the commands; Asking and Exchange are the proofs of what a command line has the server
--   do.
-- - Pool: server/thread_pool.cpp, with the thread records on a heap and both linked lists in it.
--   The mutexes make each operation one step; a Run is any interleaving of arriving connections
--   and ending ones. The destructor ends by a signal in its first round; the loop of
--   serializeThreadStats recurs on the entries that are left.
-- - Admin: server/sawa_admin.cpp, the loop over an administrator's commands. Reply follows STAT
--   from the pool to the client's table; Accepting is connectionHandler, and Closing about STOP.
-- - Util: server/util.cpp, the search for a text, the messages of failures, and the dump as rows;
--   its loop is on fuel, one for each byte.
-- - Http: server/http_srv.cpp. Request is HTTPRequest, with the regular expression's search as a
--   parameter; Files is getFile, with stat and fopen as parameters and the cache as a function;
--   Serve is processRequest and readData. A response is read as a client reads it in Framing;
--   Caching, Parsing, Answers and Reading are the proofs, Java that of requests for classes. The
--   loop over the matches is on fuel, one more than the line has characters. That messages are
--   deleted is not modelled.
-- - Towa: server/towa_ipc.cpp, with a pipe as the bytes in it; Jni is the Java machine as
--   server/towa_app_pool.cpp calls it, with the constructor; Machine is processRequest as these
--   calls, and Process main of server/towa.cpp. AppPool is processRequest on what the calls tell;
--   Telling, Answers and Answering relate the two, Listening is about main's loop. The chain of
--   an exception's causes is on fuel; the theorems that need it to end say so by the answer that
--   is told. Manager is TowaMgr of server/towa_mgr.cpp, with WebXml for what it unpacks and
--   reads; Sending is its constructor and sendMsg. RoundTrip, Scan and Scanning are proofs.
-- - Server: the constructor and the loop of accept in server/server.cpp; Stopping is Server::stop.
-- - Main: the options of server/sawad.cpp and the choice of the display; Startup is main behind the
--   options with the constructors it runs, Serving when it comes to accept connections.
-- - Display: server/display.cpp, the methods of each display as what they put out.
-- - System: the servers as processes, with connection_handler of server/thread_pool.cpp. In the
--   file server's, a Run interleaves arrivals, whole requests and ends of connections; that a
--   request is served before the next one begins is an assumption, which the code does not
--   enforce. Tally and Inventory are about the threads' counters, Statistics about what clients
--   and STAT see. Web is the web server's process, whose WebRun has each connection handled to
--   its end, one at a time, which is an assumption too; Replies and Pages are its proofs.
-- - Driver: the Linux block driver. Tcp is tcp.c and Network sawa.c, on lists of what the
--   kernel's calls answer; Queue is main.c, over the block layer as an interface (BlockLayer),
--   with a step of the model for each part of work_handler between which its request function may
--   be called. Interleaving has the runs, in which the block layer may sort, coalesce and hold
--   back requests and calls the request function when it likes; Fetching, Order, Arrivals,
--   Draining and Race are their proofs, Sending, Disk and RoundTrip those of messages; Loading is
--   the module's initialisation and exit. Log is the dump of memory and the lines on errors, with
--   the proofs in Digits, Columns and Rows; Ramdisk is ramdisk.c, whose loop is on fuel, since it
--   need not end. fetch_loop is on fuel, one round for each request that waits and one more.
-- - Examples: the theorems at concrete inputs, and tests.
--
-- The counters of requests and connections do not wrap in the model. A result none stands for
-- undefined behaviour in C++ and C, in Towa and Http also for an exception that nothing catches,
-- and in Driver for a call that the kernel's answers do not end; in CommandLine and Main the
-- programs' ends are values. Calls that only write debug lines are left out.
--
-- Not modelled: server/tinyxml2.cpp and server/tinyxml2.h (a copy of a third-party library, which
-- is an interface here), the wait for the self-test's threads, the installation of signal handlers,
-- the Java classes, and the repository's tests.
pub mod Base
pub mod Bytes
pub mod Storage
pub mod Thread
pub mod Sawa
pub mod Client
pub mod Pool
pub mod Admin
pub mod Util
pub mod Towa
pub mod Http
pub mod Server
pub mod Main
pub mod Display
pub mod Driver
pub mod System
mod Examples
