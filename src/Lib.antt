-- ===== src/Lib.antt =====
-- A verification library for the C++ modules of this repository.
--
-- The program is a set of modules that other programs link: `DataStruct` holds containers, `lsylar` a
-- server framework (paths and files, an epoll reactor, log, fibers and their scheduler, variables, locks, a check
-- of memory leaks and a search on a graph), `CloudWork` a mapper of commands to workers, and `AutoMake` a program
-- that makes the directories and files of a project. The modules do not call one another, except within
-- AutoMake and `lsylar`: the RPC server stands on the reactor, the request pool and the
-- sockets, and all of it on files, threads and the log.
--
--   DynArray            DataStruct/src/structrue/structrue.h: `Array` and `ContainerStrategies`.
--     Contents          what an array holds: `Fills`, `Holds`.
--     Shift             the loops of `add`, `del` and `relloc`.
--     Update, Grow      `del`, `alter`, the write of `add`; `relloc` and `add`.
--     Find              the two `find`.
--   FilePath            lsylar/src/File.cc, lsylar/include/File.h: the class `Path`.
--     Split             `Path::getdirs` against the rendering in `Path::init`.
--     Resolve           `Path::init` and the constructor.
--   FileEntry           lsylar/src/File.cc, lsylar/include/File.h: the classes `Entry` and `Data`.
--     Contents          what is written to a file, and read of it.
--   Reactor             lsylar/src/servers.cc, lsylar/include/servers.h: `reactor_t` and its table of
--                       descriptors (`add_fd`, `del_fd`, `get_fd_item`, `init_reactor`).
--     Blocks, Table     the blocks of 1024 items; the table as a map from descriptors to items.
--     Echo              `recv_callback`, `send_callback`, `accept_callback` and `work_loop`.
--     Listen            `listen_loop`, `reactor_add_listener`, `reactor_add_udp_server`.
--   Log                 lsylar/src/Log.cc, lsylar/include/Log.h: `Formatter`, `Event`, `Logger`, `sp_file`.
--     Format            the format language and its reading.
--     Output            what is written: padding, levels, the shortened file name.
--   PathSearch          lsylar/src/tct.cc: the graph and the search for paths through all its points.
--     Trails            what the search prints.
--   Scheduler           lsylar/src/scheduler.cc, lsylar/src/Fiber.cc and their headers in lsylar/include.
--     Pick              the search of the task queue.
--     Rounds            the loop of `scheduler::run`.
--     Life              the constructor, `start`, `stop` and the destructor; Phases.
--   Fiber               lsylar/src/Fiber.cc, lsylar/include/Fiber.h: the fibers of a thread.
--     Objects, Enter    the objects; the switch into a fiber and back.
--     Switch            each operation where it may be called.
--     Current           which fiber `GetThis` gives.
--   Socket              lsylar/src/Socket.cc, lsylar/include/Socket.h: addresses and `Socket`.
--     Addresses         a `sockaddr_in` and back.
--     Failure           which failures a caller learns of.
--     Reconnect         the loop of `Socket::reconnect`.
--   Rpc                 a server that passes requests on, over Reactor and Socket.
--     Pool              lsylar/src/reqpool.cc: the pool of requests; Requests, Answers.
--     Server            lsylar/src/sv_rpcapi.cc: its callbacks; Replies.
--   Thread              lsylar/src/Thread.cc: the handshake of a thread with its owner, as steps.
--     Handshake         what its two waits promise.
--   FileSystem          lsylar/include/File.h: `FileManager::mkdirs` over a file system.
--     Made              the directories that it leaves.
--     Memory            a file system for the tests.
--   Mutex               lsylar/include/Mutex.h: the scoped lock.
--     Exclusive         the guards of several threads.
--   Config              lsylar/include/Config.h: variables and `Config::LookUp`.
--     Table             the table of variables.
--   Mleak               lsylar/include/mleak.h: the hooks around malloc and free.
--     Reports           what the log directory reports.
--     Interleaved       the hooks of several threads.
--   AutoMake            AutoMake/include and AutoMake/examples/AutoMaker: the directories of a solution.
--     Agree             AutoMake's `mkdirs` against lsylar's.
--     Solution          what `mkslt` leaves.
--     Project           AutoMakeSrc, AutoMakePjt and `mkpjt`, the files of a project; Written, Generated.
--   Fyaml               DataStruct/src/fyaml: `fyaml_loader::load_from_file`.
--     Lines             lines written and read again.
--     Load              `fyaml_data`, `load_line` and `load`; Words, Queues, Blocks, Reads.
--     Build             `auto_make_data` and `to_string`; Roots, Nodes, Nested, Print, and from
--                       the file Forests, Flat and Whole.
--   CloudWork           CloudWork/src/ResourceMapper: users, workers and `Manager::schedul`.
--     Schedule          what a command leads to.
--   Base                names, lists, byte strings and option chains that the parts share.
--
-- Numbers are natural numbers. A `size_t` wraps modulo 2 ^ 64, and where it is stored in an `int` the
-- rounds of the loop are read off modulo 2 ^ 32. The result `none` of an operation is undefined
-- behaviour, an access outside a block, a vector or a string or through a null pointer, or an `int` that
-- overflows as it counts up to a `size_t`, in `relloc` and `getdirs` from 2 ^ 31 on. In Scheduler it is a
-- failed assertion or a `join` that does not return, in Mutex a step that does not apply or a thread that
-- waits, and in Log a format of 2 ^ 31 bytes without blanks or more, which is left out. Every loop of
-- the code is a recursion on a list or on the rounds that are left, but for three with
-- fuel: `pp` of tct.cc has nine nested calls, enough for eight points, since each call marks a point; the
-- loop of `load_line` over the values of a queue has one round more than the line has bytes, enough since
-- each round passes two bytes or more; `to_string` has the depth of the tree as an argument. Of the
-- endless loops of `work_loop`, `listen_loop` and `scheduler::run` the models are one round.
--
-- The allocator, the working directory and the results of the system calls are arguments. A callback
-- yields the system calls that it made as a list, in order. Output to the log and to the console, and
-- the threads and sockets themselves, are left out; directories and files are a parameter with laws,
-- in FileEntry a map from paths to contents. How much `fwrite` takes and whether `remove` succeeds are
-- left to these.
--
-- Not modelled: lsylar/src/timer.c and thread_pool.cc, which do not compile; ngx_rbtree.c, a copy of the
-- library of nginx; BaseModule, PlatformModul and the other copies of Log.h and File.h, which are
-- older than those of lsylar; CloudWork/src/Trancer, DataStruct/src/nine, node and tree, sketches
-- without behaviour; and what only passes a call on to the operating system.
pub mod AutoMake
pub mod Base
pub mod CloudWork
pub mod Config
pub mod DynArray
pub mod Fiber
pub mod FileEntry
pub mod FilePath
pub mod FileSystem
pub mod Fyaml
pub mod Log
pub mod Mleak
pub mod Mutex
pub mod PathSearch
pub mod Reactor
pub mod Rpc
pub mod Scheduler
pub mod Socket
pub mod Thread
