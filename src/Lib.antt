-- ===== src/Lib.antt =====
-- The kernel of group0 (Pintos), the shell of hw-shell and the word counter of hw0: their data
-- structures, block and file input and output, synchronisation, 64-bit division, and splitting of text.
--
-- The program's parts, and the files that model them:
--   Bitmap        group0/src/lib/kernel/bitmap.c. `struct bitmap` is a size and a list of 32-bit
--                 elements; `mark`, `reset`, `flip`, `set_bit`, `scan_and_flip` ... are
--                 `bitmap_mark`, `bitmap_reset` and so on. The free map of the file system and the
--                 page allocator stand on it.
--   Device        group0/src/devices/block.c: `block_read` and `block_write` of a device.
--   Inode         group0/src/filesys/inode.c: `inode_read_at` and `inode_write_at`, which call Device.
--   FreeMap       group0/src/filesys/free-map.c: the free map of the device's sectors, a bitmap that
--                 is written to a file with `write_at` of Inode (`bitmap_write` of bitmap.c).
--   InodeTable    group0/src/filesys/inode.c: creating, opening, closing and removing of inodes, which
--                 take and give back sectors of FreeMap.
--   File          group0/src/filesys/file.c: open files with a position, over InodeTable.
--   KernelList    group0/src/lib/kernel/list.c. The pointers `prev` and `next` of all elements are a
--                 heap that each function takes and returns; a `struct list` is the addresses of its
--                 two ends. KernelList/Order has sorting and the other functions that
--                 compare elements, with the caller's `less` as a parameter.
--   Synch         group0/src/threads/synch.c: semaphores; Synch/Lock has the steps of the threads that
--                 use one lock, in any order, and the states that they reach; Synch/RwLock
--                 those of a readers-writers lock with its two condition variables, where what runs
--                 under the guard lock is one step.
--   Intq          group0/src/devices/intq.c: the byte queue between threads and interrupt handlers.
--   Arithmetic    group0/src/lib/arithmetic.c: the 64-bit divisions that the compiler calls.
--   Tokenizer     hw-shell/tokenizer.c: a command line as words. `isspace` is a parameter.
--   WordCount     hw0/words/word_count.c, and `num_words` and `count_words` of
--                 hw0/words/main.c. `isalpha`, `tolower` and the bytes of new blocks are parameters.
--   CString       group0/src/lib/string.c: the memory and string functions, on a memory that is the
--                 byte at every address.
--   Hash          group0/src/lib/kernel/hash.c: hash tables, with the caller's `hash` and `less` as
--                 parameters. A bucket is the sequence of its elements.
--   Stdlib        group0/src/lib/stdlib.c: `sort`, `binary_search` and `atoi`.
--   Directory     group0/src/filesys/directory.c: entries of names in an inode of InodeTable.
--   FileSys       group0/src/filesys/filesys.c: `filesys_create`, `filesys_open` and `filesys_remove`.
--   Palloc        group0/src/threads/palloc.c: pages of the kernel's and the user pool, over Bitmap.
--   Malloc        group0/src/threads/malloc.c: blocks out of pages of Palloc.
--   Random        group0/src/lib/random.c: pseudo-random bytes.
--   Thread        group0/src/threads/thread.c: which thread runs. Each call runs with interrupts off, so
--                 it is one step up to the switch; Thread/Reachable has the steps in any order.
--   Ustar         group0/src/lib/ustar.c: headers of tar archives.
--   Loader        group0/src/userprog/process.c: the segments of a program, and their pages.
--   Stdio         group0/src/lib/stdio.c: the conversions of `printf`, its formats, and `vsnprintf`, on
--                 the memory of CString. A format is the bytes from its address on, with those behind the zero byte
--                 that ends it. The arithmetic on `double` is a parameter.
--   Shell         hw-shell/shell.c: a line as tasks that pipes connect (Shell), the programs and their
--                 processes (Shell/Launch), and the foreground and background job (Shell/Jobs). The
--                 words of a line are what Tokenizer makes of it. What the host system answers is a
--                 parameter, in the records `Host` and `Processes`.
--   Prelude       lists over native numbers, tests, bits, and panics, which the others share.
--   Examples      runs of the operations, and each result at a concrete input.
--
-- A failed `ASSERT`, a `PANIC`, `abort ()` or a divide error is `none` of an option; `Returns P m` says
-- that `m` is a result, and that the result satisfies `P`. Sizes that the code computes in 32 or 64
-- bits keep their wrap-around (`% 2 ^ 32`); the element type of a bitmap has 32 bits, as on the
-- kernel's machine. Pointers are numbers, and 0 is the null pointer.
--
-- Bounds and fuel: the loops of `inode_read_at` and `inode_write_at` have fuel `size + 1`, and each
-- round moves at least one byte, so they end before it does. The loops of KernelList and those of
-- CString that look for a zero byte take their fuel from the caller; for `list_size` and
-- `list_insert_ordered` one more than the length of the list is enough, for `strlen` and `strlcpy` one
-- more than the length of the string. The loops over bits, characters, words and nodes are recursion on
-- what is left, or on fuel that the model itself gives: the array's length for `heapify` and
-- `binary_search`, the number itself for the loop of `rehash`,
-- one more than the length of the file for the searches of a directory, one more than the number of
-- the bytes given from the format on for `__vprintf`, one more than the number of the words for the pipes of a line, and 64 rounds for the 64 places of the buffer of a number. What a memory allocation returns is an argument.
--
-- Not modelled: the drivers, and interrupts below these parts, the rest of user programs and
-- their page tables, formatting of the file system, hex dumps, and what the shell prints or
-- sets up with the host system.
pub mod Prelude
pub mod Bitmap
pub mod Device
pub mod Inode
pub mod FreeMap
pub mod InodeTable
pub mod File
pub mod KernelList
pub mod Arithmetic
pub mod Tokenizer
pub mod WordCount
pub mod Synch
pub mod Intq
pub mod CString
pub mod Hash
pub mod Stdlib
pub mod Directory
pub mod FileSys
pub mod Palloc
pub mod Malloc
pub mod Random
pub mod Thread
pub mod Ustar
pub mod Loader
pub mod Stdio
pub mod Shell
pub mod Examples
