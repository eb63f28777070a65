-- ===== src/Lib.antt =====
-- The kernel of OS-v3, a hobby operating system for x86-64: its C code in kernel/src, as functions on
-- explicit state, with the theorems that say what they do.
--
-- The kernel starts in `main` of kernel/src/code/kernel.c. It clears the screen, sets up the interrupt
-- table, reads the width of addresses, sets up the page tables, the bitmap of physical pages and the
-- list of linear blocks, and then looks for PCI devices and disks. The allocator of linear memory maps
-- the pages of a block on demand: it asks the page tables, takes a physical page from the bitmap, and
-- has the page mapper enter it, which calls the allocator again for the tables that it lacks.
--
-- Base: the shared names; C arrays, the casts and shifts of machine words, bit operations, integers.
-- Memory: kernel/src/code/mem/mem_access.c, kernel/src/code/tools/checksum.c, and memory itself: a
--   function from linear addresses to bytes with little-endian words. The kernel's pointers are numbers.
-- Palloc: kernel/src/code/mem/palloc.c. `mem_palloc` and `mem_pfree` over the memory map and the bitmap
--   (one bit to a page, 1 for free), loop by loop; `mem_palloc_init` (Init), which builds the bitmap; runs
--   of the two as steps of a relation (Sessions).
-- Screen: kernel/src/code/screen.c. The cursor, the cells at 0xB8000, the numerals (Numbers), the
--   formats (Format: `screenPrint` with its arguments as a list of numbers and texts). `none` stands for
--   a read past the end of a text or of the arguments.
-- Machine: the whole state, for functions that call across parts, and `Run`: a result, the endless loop
--   of a kernel that gives up, or no fuel.
-- Paging: kernel/src/code/mem/page_map.c. The tables in memory, the walks over them and the mapper, with
--   the allocator that it calls as an argument (Alloc.Tables puts the two together).
-- Alloc: kernel/src/code/mem/alloc.c. `mem_init`, `mem_alloc` with its check of the pages, `mem_free`,
--   and the list of tails as a list of blocks (Chain); runs of the two as steps of a relation
--   (Sessions); pages taken on demand (Region, OnDemand, Allocate); `mem_alloc` called by the mapper that
--   it calls (Tables, Reentry).
-- Idt: kernel/src/code/cpu/idt.c, cpu/timer.c and cpu/exception.isr.c, and the gates that `main` sets.
-- Pci: kernel/src/code/pci/pci.c, over a configuration space that is a function from the address written
--   to port 0xCF8 to the word read at port 0xCFC.
-- Disk: kernel/src/code/disk/disk.c, the search for AHCI controllers in the table of devices.
-- Ahci: kernel/src/code/disk/ahci.c: the type of a port, the free command slot, the list of linear
--   addresses; `ahci_port_read` (Read), `ahci_port_rebase` with the stop and the start of a port (Rebase),
--   and `ahci_init_disk` (Init). Registers are streams of what they read as, and stores to them are listed.
-- Cpu: kernel/src/code/cpu/pic.c and cpu/cpuid.c, the stores to ports and the name of the processor.
-- Kernel: kernel/src/code/kernel.c, `main` as one run; what the processor, the linker and the devices
--   give is a record (Platform).
--
-- Loops with a bound are recursions on what is left of it. Fuel stands in four places. The loop of
-- `mem_alloc_check_page` has as much as its range has pages, and one. The walks of `mem_alloc` and
-- `mem_free` take fuel for the blocks of the list, and one. The calls of `mem_alloc` through the page
-- mapper take fuel for their depth, of which a run on mapped pages needs one. The AHCI driver's walks of
-- its list take fuel for the entries, and its waits for the device take fuel for the reads that the
-- device needs: these loops have no bound.
--
-- Where C leaves an operation undefined the processor's result stands: an `int` counter wraps, and a shift
-- of 64 bits goes by the low six bits of its distance.
--
-- Not modelled: the boot sectors in boot and the interrupt stubs, which are assembly; the processor's
-- own translation of addresses; ports and CPUID, whose results are arguments. Devices do not write to
-- memory by themselves.
pub mod Base
pub mod Memory
pub mod Palloc
pub mod Screen
pub mod Kernel
pub mod Machine
pub mod Paging
pub mod Alloc
pub mod Idt
pub mod Pci
pub mod Cpu
pub mod Disk
pub mod Ahci
