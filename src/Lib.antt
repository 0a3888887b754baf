-- ===== src/Lib.antt =====
-- The homework programs of a systems programming course, as far as they are modelled.
--
-- hw4_simple-movies-recommendation-system answers requests for movies. A request picks the movies
-- whose title holds its keywords, scores each by the dot product of two profiles, sorts them and
-- writes their titles to a file. Recommender/ models it:
--   Sort      lib.c: add_secret, argmax, swap, sort. The parallel arrays `movies` and `pts` are one
--             list of rows, and an assertion that fails is the fault `assertion`.
--   Merge     server.c: mergeSort of the threads, by the levels that are left.
--   Process   server.c: mergeSort of the processes, with shared buffers of MAX_LEN bytes.
--   Serve     server.c: Dot, the filter, Recommend and the body of main for the processes.
--   Load      server.c: initialize for the movies, from the text of the file, and read_request from
--             the words that scanf has read. What strtod, sqrt and atoi return is a parameter.
--   Scan      the conversions of scanf that server.c uses, on the bytes of stdin.
--   Main      server.c: initialize with its requests, and the main of either server, from the texts
--             of the movies and of stdin to the files.
--   Workers   server.c: Group, as steps of any number of workers over the queue and its mutex, and
--             the runs of the 256 / mergeThread workers that main creates and joins.
--   Double    the type double: a parameter, with the operations that the program calls; Order
--             derives from the laws of its comparison the order in which rows are to stand.
-- Serve calls Merge, Process and Sort; Workers calls Recommend, which it only counts; Main runs
-- Recommend for the requests that the workers drew, in the order in which they did. A file stays open
-- to the end; what two streams of one name leave in it is a parameter.
--
-- hw1_csiebooking is a read server and a write server for bookings in one file, under record locks.
-- Booking/ models it:
--   Number    server.c: convert, on an `int` whose overflow is the fault `overflow`.
--             Number/Meaning says, without it, which number a word is.
--   Line      server.c: handle_read, on the bytes that one `read` returned.
--   Server    server.c: the locks, init_request, initialize, disconnect, and the replies. The state
--             of one server is a record, and what it shares with the other is a second one: the
--             file, the locks of both and what was sent. init_server and set_up fill
--             the first.
--   Command   server.c: the write server's command, from sscanf to the new record.
--   Loop      server.c: the body of main's loop for a descriptor that select reports.
--   Main      server.c: main before its loop, and a round of it: what select and accept report and
--             what there is to read is an argument of the round.
--   Locks     the two servers on one file: their turns in any order, and who has which record.
-- Loop calls Line for the text, then Server or Command, and Number stands below both; a turn of
-- Locks is a call of Loop.
--
-- hw2_pvp-championship plays a tree of battles; each battle and each player is a process, joined to
-- its parent by pipes, and a player that loses hands its status to an agent by a FIFO.
-- Championship/ models it:
--   Status    status.h and log.c: the status that is sent, and the lines of the log files.
--   Graph     graph.c: the table of battles, and the tree that main of battle.c reads from it.
--   Battle    battle.c: compare, battleEnd, Battle, and the round of main around them.
--   Player    player.c: the loop of a player or an agent, its recovery, and what a loser hands
--             over.
--   Tree      battle.c: main, as a coroutine that is asked for the status it writes next and given
--             to read; the tree of processes runs with the left child first, as a battle
--             reads.
-- A process is at its end only behind those below it, since a battle waits for its children.
-- What the processes share is the content of the FIFOs and the log files. The number of a process
-- is a parameter, and so are the lines of player_status.txt.
--
-- hw3_thread-library runs user threads under a scheduler. Threads/ models it:
--   Scheduler  scheduler.c and the macros of threadtools.h: move_queue, fill, and one call of
--             scheduler after a jump out of the running thread. A queue is the list of the
--             threads in the used part of its array; what poll reports is a parameter.
--   Start     main.c: init_threads, with thread_setup of threadtools.h, and the scheduler's first
--             call.
--   Run       threads.c, threadtools.h and main.c: the turns of the threads under the scheduler, the
--             signals that cut in, and what the whole program prints.
--   Tasks     threads.c: max_subarray, on the numbers that atoi returns, fibonacci and
--             collatz.
--
-- Base holds what they share: texts as lists of codes with strcmp and strstr, ℤ over the native
-- numbers, decimal digits, sorted lists, and the result type with the faults at which a run stops.
--
-- Loops are recursion on the list or on the number of rounds that are left. Only fibonacci, collatz
-- and a battle have a bound on their rounds, since their loops have no other: fibonacci exits or
-- overflows in round 47 or before, where collatz ends is known for some arguments only, and for a
-- battle INT_MAX is enough. The other bounds are the source's: MAX_LEN 255, depth 5, mergeThread
-- 32, buffers of 512 bytes, words of seven characters, INT_MAX.
--
-- Not modelled: sockets, select, mmap, malloc, fork, pipe and fopen, whose failure ends the
-- programs; the judge of hw1, which is Python; the
-- reading of the arguments in main.c of hw3.
pub mod Base
pub mod Booking
pub mod Championship
pub mod Recommender
pub mod Threads
