-- ===== src/Alloc/TablesTests.antt =====
-- A machine whose mapper needs a page table and gets the next spare one from the heap, and the
-- theorem of kernel/src/code/mem/page_map.c with mem/alloc.c there.
use os_v.Memory.{write64}
use os_v.Machine.{Machine, with_ram}
use os_v.Paging.Grow.{with_table}
use os_v.Alloc.{mem_init}
use os_v.Alloc.Tests.{tables, computer}

-- The pages from 0x9000 to 0xBFFF are mapped, and the linear memory from 0x200000 on has no table.
abbrev crowded : Machine
crowded =
    mem_init 0x9000 0x10000 48
      (with_ram (write64 0x4050 0xA003 (write64 0x4058 0xB003 tables)) computer)

-- The machine in which the mapper calls the allocator.
abbrev asked : Machine
asked = with_table crowded 0x3008 0x11 0
