-- ===== src/Lib.antt =====
-- A model of programs of Symbi-OS and the theorems about it: kld, the tool that makes shared objects
-- for kernel symbols (examples/tools/src/kld); the resolver dpld (examples/tools/src/dpld.c); the
-- kernel module that interposes on exceptions, with its loader (examples/idtr_interposer); the
-- echo server with its client, by which the shortcut into the kernel is measured (examples/kcuttcp);
-- the shortcut itself with the tests of the kernel interface (examples/kcuttest); the test of CPU
-- migration (examples/cpu_migration); and the search for libkallsyms (examples/misc).
--
-- kld reads specifications of kernel objects from its command line (main.c), reads the symbols of
-- each object with libelf, and writes a shared object that names them with absolute addresses
-- (elf.c). With the file system enabled it mounts a synthetic FUSE file system (fs.c, kldfs.c),
-- and then waits for events in a loop: FUSE requests (`fsEvent`) and signals (sigproc.c).
-- An application that is linked with dpld.c asks `dpld_resolver` for the address of each symbol of
-- the kernel; the first call inserts the modules that the program carries and hands a table to them.
-- The kernel module copies the interrupt descriptor table, puts its own handlers into the entries
-- for debug exceptions, breakpoints, double faults and page faults, and loads the copy on each CPU
-- (main.c); the handlers are assembly around C functions (common.h, interpos.c).
-- The server echoes what it reads on each of its connections, in rounds of `epoll_wait`; the client
-- sends packets at a rate and waits for each reply. Their reads and writes can go through
-- `kcut_tcp_read` and `kcut_tcp_write` of kcut_tcpmsg.h, which call the kernel's functions in an
-- elevated thread. The tests elevate the program, call the kernel, and fork and spawn while elevated.
--
-- Which file models what (names are those of the code in snake case):
--   Fs          the objects of fs.h; Fs/Inode: `init_inotable`, `inoalloc`, `inofree`; Fs/Dir:
--               `dir_add`, `fsCreatedir`, `fsCreatefile`; Fs/Remove: `fsRemoveitem`; Fs/Ops: the
--               tables of file operations; Fs/Fuse: the callbacks; Fs/Mount: `fsInit`, `fsCreate`,
--               `fsCleanup`, `kldfsCreate`. Memory is a function from addresses to files, and the
--               address that `malloc` returns is an argument.
--   Uthash      the hash tables of uthash, which the code includes: an interface with the
--               documented behaviour as laws, and association lists that meet it (Uthash/Assoc).
--   Event       `fsEvent`, the bits of an event mask, and `kldfsLoop` (Event/Loop).
--   Sigproc     sigproc.h and sigproc.c.
--   Bo          the table of kernel objects and its descriptors: `addDir`, `openko`, `openso`,
--               `addbo`, `bosCleanup` of main.c; Bo/Options: the options in `GBLSInit`.
--   Kallsyms    `initSE` and `prcKallsyms` of main.c, over the lines as `sscanf` reads them.
--   Echo        the echo server and client (examples/kcuttcp): Echo/Server is `main` of esrv.c,
--               Echo/Client with its children eclnt.c. The kernel is a record of functions from the
--               calls made so far to the next answer, and a run is the list of its calls.
--   Dpld        dpld.c of examples/tools: `dpld_resolver`, with the macro `LOAD_ALL_MODULES` that
--               genmodsheader writes.
--   Loader      load_mod.c of examples/idtr_interposer.
--   Findlib     findlibkallsyms.c of examples/misc; `fgets`, `strstr` and `strrchr` by what they do.
--   Kcut        examples/kcuttest. Kcut/Threads: `threadfn` and the part of `main` in main.c that spawns
--               and joins, as a step relation over any number of threads, with the barrier and the mutex
--               of POSIX; Kcut/Program: the rest of main.c, as the calls that it makes; Kcut/NewProgram:
--               newmain.c; Kcut/StackTest: mmap_stack_test.c; Kcut/Shortcut: kcut_tcpmsg.h, kcut.h,
--               ktos.h and evacuate.h, for each choice of their macros.
--   Migration   main.c of examples/cpu_migration.
--   Kospec      `modnmfromfnm` and `parsekospec` of main.c.
--   Elf         `add_str` and the types of elf.h; Elf/Image: `elf_generate_elf_mmap`, as the
--               sections and headers that it hands to libelf, whose layout is an argument;
--               Elf/Read: `elf_read_syms`, `prcBO` and `writeso`, over what libelf delivers;
--               Elf/Secdata: `elf_open_secdata`, `elf_close_secdata` and `prcExec`.
--   Idt         main.c of the module; `lidt` and `sidt` act on a register for each CPU.
--   Interpose   the macros of common.h on the registers and the stack, and the C functions that
--               rewrite an error code.
--   Debug       `db_c_entry` and `bp_c_entry` of interpos.c.
--
-- A run of C code over a state ends with a value and a new state, or stops: at a failed assertion
-- or `NYI` (`abort`), by `exit` (`exited`), at the use of a null or freed pointer or where an
-- int leaves its range (`fault`). The
-- recursion of `fsRemoveitem` up the directories is on fuel (`out_of_fuel`): one step for each
-- directory that is purged, so the theorems that remove a file name the steps that suffice.
-- Inode numbers and counters are natural numbers; the table holds 256 descriptors and the counters
-- stay below that. Addresses in the descriptor table are words of 64 bits, and the parts into which
-- they are cut are taken modulo powers of two. The counts of elf.c are ints and the offsets of names
-- have 32 bits: the model wraps `emax`, `count` and `st_name`, and the theorems on symbols assume fewer
-- than 2^29 - 3 of them, since the size of the hash table is an int, and less than 2^32 bytes of names.
--
-- The threads of the test take their steps in any order; a step is one access to what they share, so
-- an increment of the counter is a load and a store. A wait at the barrier keeps the number of times
-- the barrier had opened, which is not bounded in the model. `malloc` is taken to succeed there.
-- In `main` the whole test of threads is one call, with an argument of the model that tells whether
-- all threads could be created; where they could not, `main` does not return.
-- A process that forks is one of the two that result, by the answer of `fork`. The trial division is on
-- fuel, for which the number that is tried is enough, and so is the touching of eight pages, for nine.
--
-- The loops of the server are on fuel, since the kernel may keep them going, and a run that is cut
-- short keeps the calls made so far. For one connection a step for each byte, and one for each refused
-- write before it, is enough; for the measurement, one for each sample that there is room for. The
-- numbers of the client that may be negative are integers; times are nanoseconds, where the code has
-- seconds in `double`.
--
-- Not modelled: printing, the reading of arguments by getopt, the system calls themselves (their
-- answers are arguments), libelf, libfuse, the dynamic loader, the statistics of the client and
-- `userstab_test` of newmain.c, which compute with doubles, the bytes that pass through
-- `kcut_tcp_read` and `kcut_tcp_write`, the build of the server with KCUT_TCP, which calls these two,
-- what calls and faults push on the stack that `mmap_stack_test` has moved, the kernel extensions in .kc files, which work on the data of
-- Linux, and the other programs of the repository, which print what libraries deliver or make a few
-- system calls.
pub mod Base
pub mod Uthash
pub mod Fs
pub mod Event
pub mod Sigproc
pub mod Kospec
pub mod Bo
pub mod Kallsyms
pub mod Elf
pub mod Idt
pub mod Interpose
pub mod Debug
pub mod Echo
pub mod Dpld
pub mod Loader
pub mod Kcut
pub mod Findlib
pub mod Migration
