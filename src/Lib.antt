-- ===== src/Lib.antt =====
-- A verification library for the hlos kernel, a small 32-bit kernel in C.
--
-- The physical pages of the machine are handed out by the buddy allocator of mm/buddy.c, whose
-- free lists are the circular lists of include/list.h. Its own area of memory, the page tables
-- of the kernel and the array of page descriptions are laid out by mm/pmm.c, after boot/init.c
-- has set up the first tables; mm/slob.c cuts pages of the buddy allocator into small blocks.
-- The rest of the kernel uses the memory and string functions of libs/string.c, which stand on
-- the character table of libs/ctype.c, and prints by libs/vsprintf.c. The drivers write to
-- ports and register their handlers with the interrupt table of idt/idt.c; kernel/ksym.c finds
-- the name of a code address.
--
-- The files and the code they model:
-- File Base: numbers, Boolean tests, lists, bit operations and signed integers that all parts
-- share.
-- File Links: include/list.h. The memory is the `prev` and the `next` field of every address,
-- an operation is a function on it, with `list_x` for list_x, `link_between` for __list_add,
-- `join` for __list_del, `unlink_entry` for __list_del_entry, `cut_at` for __list_cut_position
-- and `splice_between` for __list_splice. Links/Chain ties a memory to the list of entries it
-- stands for; Links/Entry has the loop macros, with the body as a function and the structures
-- as addresses; Insert, Remove, Splice, Walk and Visit hold the theorems.
-- File Buddy: mm/buddy.c and the page fields of include/mm.h, over Links. `merge` is the loop
-- of __free_one_page, `rmqueue` that of __rmqueue_smallest, `free_loop` the second one of
-- pmm_free_pages. Buddy/Spec is the abstract view, free lists per order and how often their
-- blocks cover a page, Refine ties it to the memory, Index is the index arithmetic, and Free,
-- Take, Alloc and Boot follow the operations. References is about _count under steps of several
-- processors, with the functions of include/atomic.h; Show is show_free_area by what it shows,
-- Count counts the free pages.
-- File Atomic: include/atomic.h, a counter as its 32-bit pattern and each locked instruction as
-- one step.
-- File Hlist: the lists of hash tables in include/list.h. The memory is the pointer at every
-- address, the head's `first` or a node's `next`, and the `pprev` of every node. `unlink_node`
-- is __hlist_del. Hlist/Chain ties a memory to a list of nodes and says what an insertion and a
-- removal are, Place what stands around a node; Insert and Remove hold the theorems on the
-- operations, Entry the loop macros, and Visit their theorems.
-- File Slob: mm/slob.c, over Links. A heap is the links and the two bit fields of every header;
-- `cut_chunk` is the second half of split_chunk, `glue_prev` and `glue_next` the two halves of
-- glue_chunk, `absorb` what both do. Slob/Blocks is the abstract view, blocks that fill an area
-- without gaps; Split, Alloc, Glue and Free follow the operations. Settled is about heaps
-- without neighbouring free blocks, Recover about runs of calls. SelfTest is slob_print and
-- slob_test, cut in two; Shown, Unique and Whole hold the theorems on them.
-- File Pmm: mm/pmm.c and the macros of include/page.h. `set_regions` and `place_pages` are the
-- two halves of the layout in init_pmm, `fill_table` is a loop of init_kernel_vmm. Regions and
-- Tables hold the theorems.
-- File Boot: mmap_tmp_page of boot/init.c, with the tables of Pmm. Mapping holds the theorems.
-- File Vsprintf: libs/vsprintf.c. A piece of text that grows is an `Out`, the pointer and the
-- memory; `put` is the guarded write of one character, `pad` a padding loop. Vsprintf/Number is
-- number and put_dec, with `reversed` for the filling of tmp and `print_parts` for the rest;
-- Decode is format_decode, cut at its labels; Print is vsnprintf, with `print_one` for the
-- switch, and its callers. Decimal, Layout, Parts, Field, Expected, Signed and Power hold the
-- theorems on the text of a number, with Expected for the field as the flags ask for it, Plain
-- that on a format without conversions; Directive, Text, Round, Cut and Render follow the loop
-- through a format of texts and the directives %%, %c and %s; Roundtrip is about skip_atoi, and
-- Bounds, Writes, Loop and Buffer are about where the text is written.
-- File Bytes: the mem* functions of libs/string.c, over a memory that gives each address its
-- byte.
-- File Ctype: libs/ctype.c and include/ctype.h.
-- File Str: the functions of libs/string.c that read strings. Str/Text says what a string in
-- memory is; Length, Compare, Search and Find hold the theorems.
-- File StrEdit: the functions of libs/string.c that write strings, with their theorems in
-- StrEdit/Copy and StrEdit/Trim.
-- File StrInline: the inline functions of include/string.h, with their theorems in
-- StrInline/Names.
-- File Ksym: kernel/ksym.c, the symbol table and its lookup. Sort and Lookup hold the theorems;
-- Sections is the search of the section headers with load_ksym_from_multiboot, and Trace is
-- print_stack_trace, with the frame pointer as an argument.
-- File Io: `outb` of include/io.h, as an entry of a log.
-- File Console: drivers/console.c without printk. `scroll` and `put_char` are the two halves of
-- the loop body of console_vga_write; Scroll and Bounds hold the theorems.
-- File Printk: printk of drivers/console.c, which prints to a buffer by Vsprintf and shows it
-- by Console. Safety holds the theorems.
-- File Gdt: gdt/gdt.c, with the descriptors read back in Gdt/Decode.
-- File Idt: idt/idt.c. `set_gates` is a run of calls of idt_set_gate; Gates and Dispatch hold
-- the theorems. A handler function is its address, and a call of it is an entry of the log.
-- File Timer: drivers/timer.c, which registers its callback with Idt.
--
-- Numbers: a counter, an index or a size of 32 bits keeps its wrap-around where the code relies
-- on it (the page counts, the page indices, the sizes of strlcat and strncasecmp, the lengths
-- and the sizes in kmalloc, the addresses and counts in init_pmm, the field width, the
-- precision and the numbers of number). A round of vsnprintf that takes the pointer str to the
-- end of the address space or past it, or forward by 2^31 bytes or more, overflows its pointer
-- or its ints and gives `none`. Elsewhere addresses do not wrap and no access faults.
-- Characters are the numbers below 256.
--
-- Loops: a loop with a bound recurs on it. A loop without one takes fuel, with `none` for a
-- loop cut short; the theorems say how much fuel is enough: more than the length of a string,
-- more than the number of entries of a list, more than the number of pages plus the ten orders
-- in pmm_free_pages, more than the number of blocks in kmalloc. The loop of put_dec_trunc8 is
-- given eight rounds, and that for the bases 8 and 16 the 22 that 64 bits take.
--
-- Not modelled: assembly, what devices do with a port write, what the processor does with a
-- page table, and concurrency but for the reference counts of pages (the kernel runs the other
-- parts on one processor without preemption).
pub mod Atomic
pub mod Base
pub mod Links
pub mod Buddy
pub mod Bytes
pub mod Ctype
pub mod Str
pub mod StrEdit
pub mod StrInline
pub mod Io
pub mod Console
pub mod Ksym
pub mod Gdt
pub mod Idt
pub mod Timer
pub mod Slob
pub mod Vsprintf
pub mod Pmm
pub mod Boot
pub mod Hlist
pub mod Printk
