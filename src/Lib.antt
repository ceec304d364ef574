-- ===== src/Lib.antt =====
-- kvm_db: the kernel modules of this repository and what is proved of them.
--
-- The repository holds three kernel modules and user-space tools for them. The page cache (src/*.c)
-- maps a device of canonical pages, grouped into logical pages, on demand. The write-ahead-log driver
-- (driver/wal_driver_main.c) has a character and a block device that answer with a fixed message. The
-- block driver (driver/uringblk_main.c) serves requests from memory or from another device, and
-- answers administration commands.
--
-- Files:
--   Prelude          names and lists shared by all; Word (wrapping arithmetic), Errno, Splice and
--                    Slice (memcpy into and slices of arrays), Text (texts and printed numbers)
--   Kdb/Pool         src/cp_pool.c
--   Kdb/Context      src/lp_state.h, src/lp_state.c: contexts and states in one thread at a time;
--                    Context/View reads the table as a map from page numbers to states
--   Kdb/Fault        src/vma.c, the two fault handlers; Fault/Wf has the invariant, Fault/Pages and
--                    Fault/Dirty the abstract view of a context as two maps, Fault/Refine the proof
--   Kdb/Accounts     the pool's counters against the pages that a context keeps
--   Kdb/Session      a context from its creation to its destruction
--   Kdb/Races        src/lp_state.c, lp_get_or_create by several threads: one step is one critical
--                    section under hash_lock
--   Kdb/Threads      src/vma.c with src/lp_state.c, both fault handlers by several threads: a step is
--                    the search, the allocations with the insertion, the work under the state's
--                    lock, lp_put, or the statistics; Threads/Inv has the invariant, Threads/Search,
--                    Insert, Locked and Put that each step keeps it, Threads/OnePiece and
--                    OneWrite the comparison with Kdb/Fault, and Threads/Finish how the calls end
--   Kdb/Chrdev       src/chrdev.c, ioctl and mmap
--   Kdb/Vma          src/vma.c, open and close of mappings that share a context
--   Kdb/Load         src/kdb_main.c
--   Wal/Status, Wal/Char, Wal/Block, Wal/Load, Wal/Proc, Wal/Session
--                    driver/wal_driver_main.c and driver/wal_driver.h
--   Uringblk/Backend driver/uringblk_main.c, the virtual backend
--   Uringblk/Request, Uringblk/Device, Uringblk/Queue
--                    driver/uringblk_main.c: requests and statistics, the asynchronous device
--                    operations with their completion, and uringblk_queue_rq; Device/Sync has the
--                    operations that wait, Device/Waited compares them with the asynchronous
--                    ones, Device/Open has the opening of the device; Queue/Machine is the array
--                    of bytes that a disk promises to be, Queue/Refines the proof for a sequence of
--                    requests, Queue/Commute what follows for two queues, and Load/Answers for a
--                    driver that was just loaded
--   Uringblk/Instance, Uringblk/Init, Uringblk/Paths, Uringblk/Load, Uringblk/Disk
--                    driver/uringblk_main.c and driver/uringblk_driver.h: the module's parameters and
--                    a device, its setting up and taking down, the module's loading and unloading,
--                    and the queue contexts with the geometry
--   Uringblk/Sysfs   driver/uringblk_sysfs.c
--   Uringblk/Config, Uringblk/Latency, Uringblk/Abi, Uringblk/Admin
--                    driver/uringblk_main.c: the configuration, the percentile, and the
--                    administration commands with their structures
--   Tools/WalNodes, Tools/WalClient
--                    src/kvm_wal.cc: the device nodes, and the client over what read and write give;
--                    WalClient/Driver puts the log driver's character device under it
--   Tools/UringClient, Tools/UringIo, Tools/Features, Tools/Format
--                    src/kvm_uringblk.cc: the administration commands, reads and writes, the names of
--                    features, and the texts made of the answers;
--                    UringClient/Unreachable puts the block driver under them
--   Tools/Main, Tools/RoundTrip, Tools/BlockTests
--                    src/kvm_db.cc: the program's endings, its data test, and all its tests of the block
--                    driver
--   Tools/Probe      src/kvm_probe.cc: what is asked of /dev/kvm and the lines that are printed
--
-- Correspondence. A function of the source is a function of the same name that takes the state and
-- gives the result with the state afterwards; what the kernel's allocators, copies from and to user
-- space and registrations give is an argument. A handler runs in one piece, as one thread runs it;
-- only Kdb/Races and Kdb/Threads cut a handler into the steps between which other threads run. Counters
-- wrap at their width, 32 or 64 bits (Prelude/Word); sums and products that the source takes in 64 bits
-- are written with their wrap. Pointers to states are addresses, and the table owns the states.
-- A division by zero, which the kernel traps, is an outcome of its own where a parameter can cause it
-- (Uringblk/Init).
-- `hash_64` is a parameter (HashFn) of which only the documented range is used.
-- The loop that fills a buffer in Wal/Block runs on fuel, the length of the buffer, of which every
-- round uses at least one byte; the loop over a device list in Uringblk/Config on fuel too, one more
-- than the text's length, of which it needs two. The digits of a number are printed on a fuel of 20,
-- enough for 64 bits to base 10.
--
-- Not modelled: kernel locks as such, memory that an interrupted copy leaves behind, log output but
-- for the report of a write to /dev/rwal, what the user-space programs print but for the KVM probe
-- and the texts of the block driver's answers, and the test programs. liburing, ioctl on /dev/kvm, the
-- printing of floating-point numbers, the kernel's block layer between a client and a driver, and the
-- file system are parameters.
pub mod Prelude
pub mod Kdb
pub mod Wal
pub mod Uringblk
pub mod Tools
