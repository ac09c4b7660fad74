-- ===== src/Lib.antt =====
-- A verification library for a teaching kernel for the x86 (JOS, lab 2): its memory management
-- in kern/pmap.c, with what that uses of inc/mmu.h, inc/memlayout.h and inc/types.h; the string
-- functions of lib/string.c; the boot loader boot/main.c and the tables of kern/entrypgdir.c,
-- with which the kernel is entered; the start-up and the panics of kern/init.c; the console driver
-- kern/console.c and the clock chip of kern/kclock.c; the line editor lib/readline.c and the
-- command interpreter kern/monitor.c; printing, in lib/printfmt.c and kern/printf.c; and the
-- lookup of debug information in kern/kdebug.c.
--
-- Parts. `bootmain` brings the kernel from the disk and enters it; the kernel runs on the tables
-- of kern/entrypgdir.c until it has its own. At boot, `mem_init` reads the size of memory from
-- the CMOS, takes the first kernel data from `boot_alloc`, and hands the remaining pages to the
-- page allocator by `page_init`. From then on `page_alloc`, `page_free` and `page_decref` keep
-- the free list and the reference counts, and the functions on page tables take their pages from
-- there. `mem_init` maps the kernel with them, installs the directory, and tests the allocator
-- and the tables by its checking functions, whose failed assertions are panics. `i386_init` clears
-- the uninitialized data, sets up the console, calls `mem_init` and enters the kernel monitor, and
-- so does a panic. The monitor reads its commands by `readline`, which takes characters from the
-- ring that the interrupts of the console fill and echoes them to the screen, which scrolls by
-- `memmove`.
--
-- Files.
--   * Base, Base/...: numbers, tests, bits and 32-bit arithmetic; the rounding macros; integers.
--   * Mmu, Mmu/Address: inc/mmu.h and inc/memlayout.h. Mmu/Segment: the descriptors of segments
--     and gates, with Segment/Layout about what the processor reads in them.
--   * Pmap/State: the variables of kern/pmap.c as the record `Kernel`, the state monad over it
--     whose results are a value, a panic, a fault or a loop that ran out of rounds, and the
--     conversions of kern/pmap.h. Pmap/State/Rules says what each command does where it succeeds.
--   * Pmap/Boot, Pmap/Boot/Claim: `i386_detect_memory` and `boot_alloc`.
--   * Pmap/Pages: the page allocator. Chain holds the invariant of the free list; Alloc, Free,
--     DoubleFree, Sweep and Init the theorems on each operation.
--   * Pmap/Tables: `pgdir_walk`, `boot_map_region`, `page_insert`, `page_lookup`, `page_remove`,
--     `check_va2pa`. Translate is the specification, the translation that the processor makes;
--     Walk, Space, Remove, Insert, Replace, Grow and Region hold the theorems; Virtual is about the
--     page table at UVPT.
--   * Pmap/Checks: `check_page_free_list` and `check_page_alloc`; Checks/Partition, Moved,
--     Stable and Front: how the first changes the free list in place; Checks/Tables: `check_page`;
--     Checks/Allocator holds the theorem on the second.
--   * Pmap/Setup: `mem_init`, `check_kern_pgdir` and `check_page_installed_pgdir`. Directory is
--     about the directory, Regions and Mapped about the three regions of the kernel, Asserts and
--     Passes about the check of them.
--   * Pmap/Entry: kern/entrypgdir.c, what it maps and the rights that both levels give.
--   * Loader: boot/main.c, with the fields of inc/elf.h that it reads. Segment and Image hold the
--     theorems on `readseg` and `bootmain`; Controller is `readsect` through the ports of the disk,
--     and Controller/Sector compares it with the `readsect` of Loader.
--   * Startup, Startup/Entered: kern/init.c.
--   * Ports: inc/x86.h as an interface, kern/kclock.c, and the ports of kern/console.c. Indexed is
--     about the clock chip and the cursor, Serial and Screen about output and the setting up of
--     devices, Input compares the drivers with Console/Input.
--   * Pmap/Tests, Pmap/Tests/Space: a machine of eight pages, and the theorems used on it.
--   * Strings: lib/string.c. Scan, Copy, Compare and Block hold the theorems on strings and blocks of
--     memory, Strings/Number and Strings/Number/Digits `strtol`; Strings/Plain the variants of
--     `memset` and `memmove` without string instructions.
--   * Console/Keys, Console/Input: the keyboard driver, the serial port, and the ring `cons`;
--     Console/Queue compares them with a list. Console/Getchar: `getchar`. Console/Screen,
--     Console/Scroll: output.
--   * Readline, Readline/Edit: lib/readline.c, as an editor of a stack of characters, over a list
--     of characters. Terminal: the same function over the console; Terminal/Stream is about the
--     characters that `getchar` hands over, Terminal/Edited compares it with Readline.
--   * Monitor: `runcmd` of kern/monitor.c; Monitor/Parse and Monitor/Split are about its
--     parser, which is compared with the words of the line of Monitor/Words, and Monitor/Lookup
--     about the command it chooses. Monitor/Commands: the commands; Monitor/Trace is about
--     `mon_backtrace`. Monitor/Shell: the loop of `monitor`; Shell/LineText and Shell/Rounds are
--     about a line in memory and about the rounds of the loop.
--   * Printf, Printf/Digits, Printf/Number, Printf/Buffer: `printnum` and `vsnprintf`;
--     Printf/Format, Printf/Format/Plain: `vprintfmt`; Printf/Cprintf: kern/printf.c.
--   * Debug, Debug/Eip: `stab_binsearch` and `debuginfo_eip` of kern/kdebug.c. Scan, Bracket and
--     Round follow the search, Found says where it ends; Loops, Answer and Outside hold the
--     theorems on the answer.
--   * Tests modules: concrete states and uses of the theorems.
-- Each C function has a definition of the same name; a part of a function with a name of its own
-- stands before it.
--
-- Representation. A `struct PageInfo *` is an index of `pages`, with `none` for NULL. Memory is
-- a function from word numbers to 32-bit words, reached through kernel addresses; a page table
-- entry is one such word, and a pointer to one is its address. The array `pages` is kept beside
-- memory. An access outside the pages of the machine, or through NULL, is a fault; that before
-- `lcr3` only the first 4 MB above KERNBASE are mapped is not told apart. The addresses
-- given to `invlpg` are recorded. `pp_ref` wraps at 16 bits, addresses and sizes at 32.
--
-- The memory of lib/string.c is a function from addresses to bytes; no object runs over the end
-- of the address space. The `long` of `strtol` wraps at 32 bits where it overflows, which C leaves
-- undefined and lib/string.c does not detect. The devices of the console are what waits at them: a list of bytes, and
-- a list of scan codes in which a byte of the mouse stops the reading. Output is a list of bytes
-- sent and the cells of the screen. Below that, in Ports and Loader/Controller, the code is a
-- program over an interface: `inb`, `outb` and loads and stores on a state of any type. What a
-- device does with them is a record of laws, a hypothesis of the theorems: an indexed device (the
-- clock chip from its 14th cell on, the cursor of a display), a UART, a printer, the keyboard
-- controller, the disk. A serial port, a printer or a disk takes nothing, as far as the laws say,
-- while it is busy. The memory of the boot loader is by byte too; its disk is a function from
-- sector and place to the byte there. What `vprintfmt` puts out is a list of characters; its format is a list of bytes,
-- its arguments a list of words, wide words and strings. The stabs are a function of the index
-- with a count; an index, an `int` in the code, is an integer. What the commands of the monitor
-- print is the list of their calls of `cprintf`; the stack is a function from addresses to words.
-- Input that comes while `getchar` polls is a list with an entry for each poll; what is typed to
-- the monitor is a list with the characters of each call of `readline`. `i386_init` keeps memory by
-- byte, for the monitor, beside the state of kern/pmap.c.
--
-- Bounds. The loop of `page_init` that walks the free list has one round per page and one to see
-- the end, which the theorem on it shows to be enough; the loop of `boot_map_region` has one
-- round more than `size`. A loop of lib/string.c up to a terminator has 2^32 rounds, one per
-- address, `cons_intr` one round per waiting byte and one more, and `printnum` 64 for the 64
-- bits of its number; the theorems show that they suffice. The parser of `runcmd` has 16 rounds,
-- one per argument and one to see the end. `readseg` has a round per sector that `count` can
-- touch and one to see the end, `bootmain` one per header and one more. `vprintfmt` has one
-- round per character of its format and one more. `stab_binsearch` has two rounds per stab and
-- three more, its scans and the loops of `debuginfo_eip` one per stab and two more; the loops of
-- the checking functions over the free list have one per page and one to see the end.
-- `mon_backtrace` has 2^32 rounds, one per address. The waits of the output ports have the 12800
-- rounds of the code; `waitdisk` has one more than the reads for which the disk is busy. The loop
-- of `readline` over the console has one round per poll and one more, and the endless loop
-- around `monitor` one per line and one more, of which it uses one. Theorems on page tables ask for at most 2^16
-- pages (256 MB), which is what fits above KERNBASE; they speak of addresses outside the entry
-- at UVPT, where the directory is its own page table.
--
-- Not modelled: assembly (boot/boot.S, kern/entry.S) and the instructions of inc/x86.h, which are
-- the interface of ports, parameters, or fields of the state; the descriptors of the task state
-- and constants of inc/mmu.h and inc/memlayout.h that no code uses; user/sendpage.c and fs/test.c,
-- whose libraries are not in the repository. Other messages of `cprintf` and those of panics are left
-- out, among them the one before a reset by Ctrl-Alt-Del; the kind of panic is kept.
pub mod Base
pub mod Mmu
pub mod Pmap
pub mod Strings
pub mod Console
pub mod Readline
pub mod Ports
pub mod Printf
pub mod Loader
pub mod Monitor
pub mod Debug
pub mod Terminal
pub mod Startup
