-- ===== src/Palloc/InitTests.antt =====
-- A kernel at 0x8000 to 0x9000 in a memory map of one RAM entry and one that is not, and the theorem
-- on `mem_palloc_init` there.
use os_v.Base.{◌+◌, ◌-◌, ◌/◌, ◌^◌, ◌<◌, ◌≡◌, true, refl, inl, [], ◌∷◌, arith}
use os_v.Memory.{Mem, write8, read_bytes, write_bytes, write64}
use os_v.Palloc.{MemorymapEntry, advance}
use os_v.Palloc.Alloc.{IsMapped}
use os_v.Palloc.Init.{
  sum_ram, fill_loop, has_kernel, new_kernelend, with_table, mem_palloc_init, filled_ram, end_after,
}
use os_v.Palloc.Claim.{Bounded}
use os_v.Palloc.Ready.{Ready, mem_palloc_init-Ready}
use os_v.Machine.{Machine, done}
use os_v.Paging.{mapped, page_map_init, page_trace_pml4}

abbrev pub low_ram : MemorymapEntry
low_ram = record { base = 0; length = 0x80000; type = 1 }

abbrev reserved : MemorymapEntry
reserved = record { base = 0xF0000; length = 0x10000; type = 2 }

-- The tables map pages 8 and 10 of the linear memory to themselves.
abbrev pub tables : Mem
tables = write64 0x1000 0x2003 (
    write64 0x2000 0x3003
      (write64 0x3000 0x4003 (write64 0x4040 0x8003 (write64 0x4050 0xA003 (λ p. 0)))))

abbrev pub computer : Machine
computer = record {
  screen = record { cur_x = 0; cur_y = 0; print_status = 0; ram = tables };
  paging = page_map_init 0x3028 0x1000 0x10000 0x11000 0x12000 0x13000;
  allocator = record {
    memorymap = low_ram ∷ reserved ∷ [];
    mem_palloc_start = 0;
    mem_palloc_size = 0;
    memorymap_max_ram = 0;
  };
  heap = record { mem_list_start = 0; mem_end = 0; maxlinaddr = 0; paddr = 0 };
}

new_end : end_after 0x9000 computer ≡ 0xA000
unfolding new_kernelend with_table sum_ram
new_end = refl

first_page : page_trace_pml4 computer.paging 0x8000 (filled_ram 0x9000 computer) ≡ mapped 0x8000
unfolding page_trace_pml4 page_map_init with_table sum_ram fill_loop read_bytes write_bytes write8
first_page = refl

last_page :
    page_trace_pml4 computer.paging (end_after 0x9000 computer) (filled_ram 0x9000 computer)
    ≡ mapped (0x8000 + (end_after 0x9000 computer - 0x8000))
unfolding page_trace_pml4 page_map_init new_kernelend with_table sum_ram fill_loop read_bytes
    write_bytes write8
last_page = refl

pub computer-IsMapped : IsMapped computer.allocator.memorymap 0x9000
unfolding advance
computer-IsMapped = (λ h. (omega arith, omega arith), (λ h. absurd (ground arith), tt))

pub computer-Bounded : Bounded computer.allocator.memorymap
computer-Bounded = (λ h. omega arith, (λ h. omega arith, tt))

pub low_ram-has_kernel :
    has_kernel low_ram 0x8000 (0x8000 + (end_after 0x9000 computer - 0x8000)) ≡ true
unfolding has_kernel new_kernelend with_table sum_ram
low_ram-has_kernel = refl

pub table_fits : 0x9000 + (with_table 0x9000 computer.allocator).mem_palloc_size + 0x1001 < 2 ^ 64
unfolding with_table sum_ram
table_fits = omega arith

pub few_pages : (end_after 0x9000 computer - 0x8000) / 0x1000 < 2 ^ 31
unfolding new_kernelend with_table sum_ram
few_pages = omega arith

mem_palloc_init-Ready_example :
    (m' : Machine) × (mem_palloc_init 0x8000 0x9000 computer ≡ done (end_after 0x9000 computer) m')
    × Ready computer m' 0x8000 0x9000 (end_after 0x9000 computer) 0x8000
mem_palloc_init-Ready_example =
    mem_palloc_init-Ready 0x8000 0x9000 0x8000 computer low_ram 0x9000 table_fits (omega arith)
      few_pages first_page last_page (inl (refl, refl)) low_ram-has_kernel computer-IsMapped
      computer-Bounded
