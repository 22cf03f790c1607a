-- ===== src/Lib.antt =====
-- Operating system labs: kernel modules and the programs beside them.
--
-- The repository is a collection of independent parts, most of them Linux kernel modules, each with
-- its own state. What they share is how they use the kernel: they take objects from it and give
-- them back, and they copy bytes from and to the user.
--
-- - Base: Boolean tests on numbers, lists over the native numbers, error codes.
-- - Kernel: the ledger of the objects that a module holds, and its static pointers. Whether a call
--   of the kernel succeeds is an argument of the definitions (`Outcomes`); `acquire` is a call that
--   allocates or registers, `release` one that gives back, `free` one that ignores NULL.
-- - Memory: the bounds test, the copy from the user and the C strings that fortune.c and
--   single_file.c have in common. `copy_from_user` is the parameter `CopyIn`, with its documented
--   behaviour: if it returns 0 it has copied the bytes, and it never writes more than asked for.
-- - Fortune: 6/fortunka/fortune.c. Device has `fortuneWrite` and `fortuneRead` over the two buffers
--   and the indices of the module; Jar is the abstract cookie jar, a list of cookies with the place
--   of the next read, which Write and Read refine; Session runs many writes, then many reads; Module
--   has `md_init`, `md_exit` and `freeMemory`. The size of a page is a parameter below 2 ^ 31, since
--   the indices are `int`. A result `none` is an access outside a buffer.
-- - Seq: 6/seq_files/seq_file.c. Iter has the four operations of the iterator, and runs any sequence
--   of calls of them, which stands for the reader in the kernel; Passes is about the sequences of
--   whole passes and of parts of them; Module is the life of the module.
-- - Single: 6/seq_files/single_file.c, in the same two parts. `kstrtoint` and `get_pid_task` are
--   the parameter `Tasks`.
-- - Tasklet, Workqueue: 9/interrupts/tasklet/tasklet.c and 9/interrupts/workqueue/mywq.c. Module is
--   the life of the module, Handler the interrupt handler and the deferred work, in any sequence of
--   interrupts and of the kernel's runs of the work, where an interrupt can come between the start of
--   a tasklet's run and the reading of its data; Tasklet/Samples is about the keys that are shown,
--   Tasklet/Keys is the table of key names.
-- - Vfs, MyVfs: 7/vfs/main.c and 7/vfs/myvfs.c. Module has `init` and `exit` with the loops over the
--   objects of the slab cache, Super the filling of a super block.
-- - Bakery: 3/proc/bakery_server.c. System has the step relation of the main thread and of the
--   threads of `bakery_service`, a step for each access to a shared variable; Invariant what holds
--   in every reachable state, Safety what follows, Letters who gets which letter, Progress a run with
--   up to 32 clients, Liveness how it goes on from any state; Client is 3/proc/bakery_client.c, with its stubs as parameters. Rpc joins the
--   two: Dispatch is 3/proc/bakery_svc.c over the interface `Procedures`, which the steps of the main
--   thread fill (Calls), Wire has the stubs of 3/proc/bakery_clnt.c, Exchange and Progress are about
--   a client over the wire. The files of 3/proc/bakery1 are the same texts.
-- - Catalog: 1/catalog/main.c. Walk has `dopath`, which keeps the whole path in a buffer, and
--   `mydopath`, which changes directories, over the tree that `lstat`, `opendir` and `readdir` find;
--   After and Agree compare them, Census is about the counters. Both recurse on the tree. A whole path
--   that PATH_MAX does not allow is refused by `lstat` and `opendir`.
--   Start is `myftw` with `path_alloc`, where what `pathconf` would give is an argument, and
--   Main is `main` with the tables of `print_info`.
-- - Files: 8/open_file/src. 2.c (Readers), 2_thread.c (Racers, and Tracks and Races about it), 2_1.c
--   (Turns) and 2_1_thread.c (Appenders, and Reports for the sizes that it prints) use descriptors;
--   a reader has fuel, one round more than the file has bytes, and the threads take steps. 1.c
--   (Shared) and 1_thread.c (Threads, Counts, Bags) read through buffered streams that share an
--   offset, 3.c and 3_thread.c (Writers, and Sizes for the sizes that they print) write through
--   streams with an offset each; the size of a buffer is an argument.
-- - ProcInfo: 3/proc/main.c. Run has the files of /proc, which are parameters, and how a function
--   ends: with its output, by the use of NULL or of memory outside an array, or out of fuel. Chunks,
--   Stat, Links and Maps have the functions that `main` (Report) calls, Pagemap is
--   `fprintf_pagemap_info` and Pages what it shows, Tokens `strtok`. The loops over a file have fuel,
--   one round more than the file has bytes, fields or pages.
-- - TaskInfo: 4/proc_info/md.c, over the ring of tasks that the kernel gives; a task that exits has no
--   `fs`.
-- - TimedBakery: 3/proc/bakery2. Server is the server, which answers one call at a time and gives up
--   each wait after a second: what the clock says is a parameter, with fuel for its readings; Order
--   is about sequences of calls; Client is a client that calls the server. Rpc has the stubs, the
--   dispatch and the encoding between the two, which rpcgen has made: the encoding of an `int` and of
--   a `char` is a parameter, `Codec`. Both servers have the same encoding. Over "udp" `clnt_call`
--   sends a request again while it has no answer: how many copies reach a server is an argument
--   (`Sent` in Rpc/Wire, `copies` in Bakery/Rpc/Wire), and Resend is about a client with them.
-- - Sockets: 2. Pair and Exchange are paired-sockets/main.c, with a step for each read and write.
--   The rest is client-sever: Text has `sprintf`, "%d" and the arrays of bytes; Receive is the
--   server of socket(send-receive), Respond and Answers the server and the client of
--   socket(send-receive-respond), Epoll, Rounds and Sessions those of epoll. A server runs over a
--   list of the events that the kernel gives it, with what its calls return; what an array holds
--   before it is set is an argument.
-- - Interactive: 5/interactive_module.
-- - Tests: the theorems at concrete inputs.
--
-- The loops over the slab cache recurse on the rounds that they have left, so no fuel is needed.
-- The spinning loops of the bakery are steps of the relation.
--
-- Not modelled: what is printed to the kernel's log, except where it is the only result; the calls
-- of a module that only hand their arguments on to the kernel; the inodes that 8/open_file prints
-- and the process ids that 2/paired-sockets prints; the files that the kernel's build writes.
pub mod Bakery
pub mod Base
pub mod Catalog
pub mod Files
pub mod Fortune
pub mod Interactive
pub mod Kernel
pub mod Memory
pub mod MyVfs
pub mod ProcInfo
pub mod Seq
pub mod Single
pub mod Sockets
pub mod TaskInfo
pub mod Tasklet
pub mod Tests
pub mod TimedBakery
pub mod Vfs
pub mod Workqueue
