-- ===== src/Lib.antt =====
-- Models and proofs for the Clueless Task Manager, a process and system monitor for Linux in C.
--
-- The program reads figures about the system from /proc and shows them. `src/metrics` reads: the
-- counters of the processors (cpu.c), the memory (mem.c), one process (process.c) and the list of all
-- (process_manager.c), which tells a user interface by callbacks what was added, updated and removed.
-- `src/metrics/sampler.c` captures a figure at an interval, in a thread, into a ring buffer
-- (`src/core/ring_buffer.c`), from which an interface asks for a value over a window. The hash map
-- (`src/core/hash_map.c`) is the container of the library; `src/ui/tui` is the interface on a terminal.
--
-- The list of processes is a circular list with its links inside the nodes (`src/core/list.c`). The window
-- interface (`src/ui/gtk`) keeps a row for each process by the callbacks, and `src/sound.c` plays a file
-- in the background.
--
-- Files, by part:
--   Base         shared names of the libraries, tests on numbers, lists, words of 64 bits (Base/Words),
--                results of loops on fuel (Base/Runs), signed integers (Base/Int)
--   Clib         the functions of the C library that the readers use, on strings as lists of bytes:
--                strtoul, strchr, strrchr, strtok, strncmp, the conversions of one sscanf format
--   RingBuffer   src/core/ring_buffer.c. `alloc`, `advance`, `peek`, `get_capacity` are the functions
--                ring_buffer_*; a pointer into the buffer is a byte offset. `push` and `peek_item` are
--                what sampler.c does with the pointers.
--   HashMap      src/core/hash_map.c. `create`, `put`, `get`, `remove`, `resize`, `iter_next` are the
--                functions hash_map_*; keys and values are of any type, with `HashFunc` and `CompareFunc`
--                as the interface `Key` (HashMap/Keys), filled for `int` keys by `int_key`. HashMap/Calls has
--                the functions with the checks of their arguments, HashMap/Client runs any sequence of them beside
--                an abstract map. HashMap/Memory has what each of them allocates and frees, by the kind of block.
--   LinkedList   src/core/list.c and include/core/list.h. `Heap` has a map for each field of a node; the
--                functions list_* are commands on it, and a read or write of what is no node is a fault.
--                LIST_FOREACH is `list_foreach`, LIST_FOREACH_SAFE with the body of
--                remove_inactive_processes is `list_remove_where`. LinkedList/Owned is about the nodes that are
--                allocated and freed beside a list.
--   Io           src/core/io.c; what fopen and fread give is an argument
--   Cpu, Mem     src/metrics/cpu.c and mem.c; the file read is an argument
--   Process      src/metrics/process.c; what the system answers for a pid is a `Snapshot`.
--                `process_read_at` of Process/Path is the whole function, `process_read` the part behind the path.
--   ProcessManager  src/metrics/process_manager.c; the list is the sequence of its nodes, the directory
--                is a list of entries, the callbacks are a list of events. ProcessManager/Linked is the same
--                refresh on the heap of LinkedList, where the nodes lie inside the processes: each
--                function of it is named after the one on the sequence, and its loops run on fuel of the
--                counter of the list and one more, which is the length of the list and one.
--   Sampler      src/metrics/sampler.c; each part under the lock is one function on the state. Sampler/System is
--                the step relation of its threads and of any number of controllers that start and stop it.
--   Tui          src/ui/tui/ui.c and process_tab.c, and src/main.c; what is drawn is a list of calls
--   GtkApp, GtkStatusBar  src/ui/gtk/app_context.c, ui.c and status_bar.c: the context with fields that
--                are not written yet, the callbacks of the main loop, and the texts of the labels. GtkApp/Refresh
--                runs the timer that refreshes the process tab and the count, and GtkApp/Widgets lists the calls
--                that make, pack and show the widgets.
--   Platform     src/core/linux/platform.c and src/core/log.c; what the system answers is an argument. The time of a
--                log line is in Platform/Time.
--   GtkProcessTab  src/ui/gtk/process_tab.c: the callbacks of the tab, on the hash map; the list store
--                and its row references are the parameter `Toolkit`, what GTK promises is `IsToolkit`. The process
--                list of metrics/process_list.h, with a refresh that takes an observer, is not in the repository: it
--                is the parameter `ProcessLists`, and what the tab relies on is `IsProcessLists`, which
--                GtkProcessTab/Listing meets with the list of src/metrics/process_manager.c.
--                GtkProcessTab/Columns has the columns of the store and of the view.
--   Sound        src/sound.c: `refill_ringbuffer` and `on_playback_process`, Sound/Session for the state that
--                `ctm_sound_play_async` starts with, Sound/Acts for the calls by which each function acquires, uses and
--                releases, and Sound/Resources for the discipline of these; the ring of spa and the file
--                of libsndfile are the parameters `SpaRingbuffer` and `SndFile`, with their laws
-- The Tests module of a part has its runs on concrete inputs.
--
-- Bounds and fuel. `size_t` and `unsigned long` are numbers modulo 2^64, with the operations written
-- out; a pid is taken modulo 2^32. The loops of the hash map run on fuel of the capacity, since they
-- stop when they are back at their start; a resize searches a free entry, of which there is one while
-- the count is below the new capacity. The other loops are recursion on the list they read. Bytes
-- are numbers that are only moved and compared. The sampler's ring has 100 slots, the pad 100 rows.
--
-- Parameters. `process_list_get_count`, which no file declares, is a function on the list. Allocations,
-- files, directories, user names and the results of pthread calls are inputs of the functions; `none`
-- stands for a failure or for NULL. TOMBSTONE is a pointer to one byte,
-- which the code hands to the hash and compare functions in places: `placeholder` is the key it reads as.
-- LINES of ncurses, which a resize changes, is an argument of each turn of the terminal's loop.
--
-- Undefined behaviour is a fault: a read of freed memory, of a NULL pointer, or behind the buffer of mem.c where no NUL
-- ends it. A name of a process that overflows its 256 bytes gives an arbitrary result and process, `overflow` of a
-- `Snapshot`, of which only the pid, which stands in front of the name, is kept; what it does to the links of the list
-- behind the process is not followed.
--
-- The interleaved steps of a sampler are those between taking and releasing its lock; joining a thread is a step of
-- its own, and a join of a thread that was joined before is undefined and has no step. A traversal of the linked list runs on fuel of its length and one more.
--
-- Not modelled: the parameters of the stream in sound.c, which are passed on to PipeWire; what GTK does with
-- its widgets, but for the tree that their packing makes; the set-up of ncurses; releasing memory, but for the nodes of
-- the list, the blocks of the hash map, the parts of the window's context and what a sound holds. A
-- thread of a sampler that calls `sampler_stop` from its own subscriber is not among the controllers.
pub mod Base
pub mod RingBuffer
pub mod HashMap
pub mod Io
pub mod Clib
pub mod LinkedList
pub mod Cpu
pub mod Mem
pub mod Process
pub mod ProcessManager
pub mod Sampler
pub mod Sound
pub mod Tui
pub mod GtkProcessTab
pub mod GtkStatusBar
pub mod GtkApp
pub mod Platform
