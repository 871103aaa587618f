-- ===== src/Lib.antt =====
-- Verification of a collection of operating-system programs in C: one directory for each topic
-- (lab1 to lab10), each with small programs of their own. Paths below are from the repository's root,
-- and `GeislerWojciech/cwNN` in them is written `*`.
--
-- Parts, and the files that model them:
-- - Buffer: the bounded buffer of lab9/*/zad1/main.c. The buffer with its two cursors and the loops of
--   `produce` and `consume` that look for a slot (Buffer.antt), the queue it stands for (Buffer/Queue),
--   and the threads as a step relation over the mutex and the condition variables (Buffer/Threads and
--   the files below it). A blocked thread is a state without a step; a step is the code between two
--   points at which another thread can be seen.
-- - Semaphores: the same buffer in lab9/*/zad2/main.c, with a semaphore for each slot and two that count.
--   Its configuration and lines are those of Buffer. A move is one access to shared memory.
-- - Barber: the sleeping barber of lab7/*/zad1: barber.c and client.c as a step relation over their
--   semaphores (Barber.antt), what every move keeps (Barber/Invariant),
--   stated for clients with semaphores of their own, as which clients with different keys are seen
--   (Barber/View), the assertions of the code and
--   its queue (Barber/Safety), who can move when (Barber/Progress), and the operations on the array in
--   shared memory that stands for the queue (Barber/Array).
-- - Registry: the table of clients of lab10/*/zad1/server.c with the handlers of REGISTER, UNREGISTER
--   and the ping, the monitor and the choice of a client. Handlers return the messages they send and
--   the sockets they close as a list of effects. The server calls `tokenize` for its commands (Words).
-- - Expressions: `reader` of lab10/*/zad1/server.c, which makes a request of a line (with Words) and
--   chooses a client (with Registry), and the loop of client.c, which answers it.
-- - Datagrams: the same table in lab10/*/zad2/server.c, the server on datagrams, where a free slot is
--   one without a name and a ping is answered by name.
-- - Queues: the server of lab6/*/zad1/server.c and the commands of its client.c: the handlers of all
--   message types and `receive_loop`. The client splits its lines with `tokenize` (Words).
-- - Posix: the server and client of lab6/*/zad2 on POSIX queues: the handlers (Posix.antt) and what
--   they make of a message (Posix/Handling). The commands of a client, the arithmetic and the text of an
--   answer are those of Queues.
-- - Words: `tokenize`, in the bounded version of lab10/*/zad1/server.c and the unbounded one of
--   lab5/*/zad1/main.c and lab6/*/zad1/client.c.
-- - Shell: the batch shell of lab5/*/zad1/main.c: the commands of a line (Shell/Commands) and the pipes
--   between them (Shell/Pipeline), as the list of the system calls in order.
-- - Batch: the batch interpreter of lab3/*/zad2/main.c: `tokenize`, which cuts a line in place, and the
--   loop over the lines (Batch.antt), and what is found in a line that is laid out with spaces
--   (Batch/Layout).
-- - Signals: the parent process of lab4/*/zad2/main.c; each handler runs with all signals masked, so
--   it is one step.
-- - Exchange: the two processes of lab4/*/zad3 that send each other signals, as a step relation. A
--   standard signal that is pending already is not queued a second time.
-- - Image: the filter of lab8/*/zad1/main.c, with the writes of all threads in any interleaving.
-- - Records: `sort`, `copy` and `flags_to_char` of lab2/*/zad1/main.c.
-- - Files: the listing of files by date of lab3/*/zad1/main.c: which paths the processes of
--   `display_dir` print (Files/Listing), and the permissions as a string (Files/Modes).
-- - Walk: the listing of lab2/*/zad2/main.c, with `opendir` and with `nftw` (Walk.antt), and the two
--   compared (Walk/Agreement). Paths, dates and the tree are those of Files.
-- - Blocks: the library lab1/*/zad1/chararray.c.
-- - Driver: lab1/*/zad2/main.c, the commands over the library in Blocks (Driver.antt), and what a search in
--   a filled table finds (Driver/Filled).
-- - Base: what the parts share: lists and tests over native numbers, integers, C arrays, sums over threads
--   and strings.
--
-- Conventions. Undefined behaviour, a failed assertion and an exit are `none` where a function can come
-- to them. A `size_t` or a non-negative `int` is a native number; an `int` that can be negative is ℤ.
-- An overflow is written out where the code can come to it (the cursors of the buffer, the arithmetic
-- of the servers); a sum of a block that
-- overflows has no result, and sums of pixels are exact.
--
-- Fuel. The searches for a slot have the number of slots as fuel, and the splitting of a line its
-- length; a theorem shows for each that this is enough. The choice of a client goes at most once round
-- the table. All other loops are structural.
--
-- Parameters. The numbers of lab8 are those of C's `double`, an argument `Floats`; `rand` is a function
-- to numbers, `atoi` one from strings; which message queue takes a message is a test on its number, and
-- the text of the program `date` is a string. The visits of `nftw` are a list, and `ftok` is a function from
-- project ids to keys. `mq_open` is a function from the name of a queue to its descriptor. What a pipe gives
-- is a function from its position.
--
-- Not modelled. System calls themselves (files, sockets, queues, processes), the output for the user,
-- the measuring of times; and the remaining programs: lab3/*/zad3a, lab4/*/zad1a and zad1b,
-- lab5/*/zad2, the loops of lab6/*/zad2, lab7/*/zad2 and the client of lab10/*/zad2. Several of these are a program modelled here on
-- other system calls.
pub mod Barber
pub mod Base
pub mod Batch
pub mod Blocks
pub mod Buffer
pub mod Datagrams
pub mod Driver
pub mod Exchange
pub mod Expressions
pub mod Files
pub mod Image
pub mod Posix
pub mod Queues
pub mod Records
pub mod Registry
pub mod Semaphores
pub mod Shell
pub mod Signals
pub mod Walk
pub mod Words
