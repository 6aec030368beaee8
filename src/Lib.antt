-- ===== src/Lib.antt =====
-- A server that keeps pairs of keys and values, runs files of commands on them, and notifies the
-- clients that are subscribed to a key when it changes. It is written in C.
--
-- The parts and their files:
-- - Base: lists, tests, bytes, the C `int`, and `Run`, the result of code that may leave what C
--   defines. A fault is an access outside an array, a read of bytes that nothing has written, an
--   access through NULL, or one to memory that is not in use; no theorem says what happens after
--   one.
-- - Kvs (src/server/kvs.c): the hash table, 26 slots with a chain each. Kvs.Mapping has the
--   well-formedness of a table and the finite map that it stands for.
-- - Memory (src/server/kvs.c again, with its pointers): a memory of blocks, each a string or a
--   node, and the calls as they load, change and free them, with `free_table`. `malloc` is a
--   parameter that gives an address that is not in use. The array of the heads is part of the
--   state and not a block. Memory.Refines joins each call to that of Kvs, where a chain is a list,
--   and Memory.Lives follows a table from its creation to its end.
-- - Operations (src/server/operations.c, src/server/io.c): the store with its two callbacks, and
--   the calls that serve the commands. A callback acts on a world that is a parameter of the
--   store. Files has the texts of SHOW and of a backup, Texts the two small helpers, Orders the
--   order of the lines, which the store does not fix.
-- - Scan, Parser (src/server/parser.c): the job parser, on the bytes of the input that are left.
-- - Coperations (src/server/coperations.c): the table from the hash of a key to the notification
--   pipes that are subscribed, and the list of keys that one client keeps.
-- - Session, Threads, Slots (src/server/client.c): what a session does with the two tables, its
--   notification being the callback of the store; the loop of `client_thread`; and the eight
--   slots with the semaphore, as a step relation whose steps are the calls of Session and
--   Threads. Slots.Disconnects has the rounds of `disconnect_all_clients` with the threads beside
--   it.
-- - Fifo (`handle_fifo` of src/server/main.c): how a connection message becomes a call of
--   `activate_client`.
-- - Io (src/common/io.c): transfers over pipes that move some bytes at a time and may be
--   interrupted.
-- - ClientParser (src/client/parser.c): the orders that a client reads. Its `read_string`,
--   `read_uint` and `cleanup` have the text of those of Scan.
-- - Api, Listener (src/client/api.c): the client's calls, with what the pipes answer as an
--   argument, and the thread that prints notifications. Listener.Waits has the wait of
--   `kvs_disconnect` for it, with what the server and signals do to the pipe, Listener.Delivery the way of a change from the store to a terminal.
-- - Client (src/client/main.c): the client program over ClientParser and Api. Client.Sessions
--   joins it to the thread of its session in the server.
-- - Entries (`entry_files` of src/server/main.c): which files of the directory are jobs.
-- - Jobs (`run_job` of src/server/main.c): the loop that reads a command, parses its arguments
--   and calls the store. Jobs.Programs has the statements of a job file, their text and their
--   meaning for a finite map.
-- - Directory, System (`get_file` of src/server/main.c): the threads that share the names of the
--   directory, and the whole server as a step relation: a command of a job, a job taken or ended,
--   a round of `handle_fifo`, or a step of a session.
-- - Launch (`main`, `dispatch_threads` and `handle_fifo` up to its loop, of src/server/main.c,
--   `fifo_init` of src/server/operations.c): the arguments, and the start of the threads.
--   Launch.Reaches joins it to System.
-- - Tests: runs on small inputs.
--
-- A byte is a number; a C string is the list of its bytes without the terminator. A file or a
-- pipe that is read is the list of the bytes left in it, one that is written the bytes or the
-- messages in order. A call that holds a lock from its first access to its last is one step. The
-- pipes of the sessions are answered by two functions of the descriptor, of which nothing is
-- assumed: whether a message is taken, and whether a descriptor closes.
--
-- The bounds are those of the source: 26 and 8191 slots, 8 sessions, 10 keys for a client, 40
-- bytes for a string of a job, 256 for a path of one, 256 items of a list, 300 bytes for a
-- notification. The hash of a subscription wraps at 2^64. Fuel is used in the loops of `run_job`,
-- `client_thread` and of the client program, where each round takes a byte of the input, so that
-- more fuel than bytes is enough (for a script of the client program, or a job file whose lines
-- are proper statements, more than its lines), and in those of Memory, where more fuel than a
-- chain has nodes is enough, or more than calls since the creation of the table. The transfers of
-- Io take one answer of the kernel in each round, and the thread that prints one list of answers;
-- the other loops are structural.
--
-- Not modelled: what src/server/main.c takes down behind `handle_fifo`, where the process ends; a
-- failed lock or unlock of a mutex; `kvs_wait` and `delay`, which only let time pass; and
-- `destroy_int_hash_table`, which only releases memory. Mutexes and signal handlers are left
-- out: a function that holds a lock is one step, and SIGUSR1 is a step of Slots. A command of a
-- job is one step too, since it holds the lock of the table while it reads or writes it. The name
-- of a job is what `readdir` gave, though the code keeps it in a `dirent` that the threads share.
-- `malloc` gives its memory, except where a function has a flag that tells.
pub mod Base
pub mod Io
pub mod Kvs
pub mod Memory
pub mod Operations
pub mod Scan
pub mod Parser
pub mod Coperations
pub mod Session
pub mod ClientParser
pub mod Api
pub mod Listener
pub mod Client
pub mod Threads
pub mod Slots
pub mod Fifo
pub mod Entries
pub mod Jobs
pub mod Directory
pub mod System
pub mod Launch
pub mod Tests
