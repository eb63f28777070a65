-- ===== src/Paging/Tests.antt =====
-- Page tables at 0x1000 to 0x4000 on a machine with 40 address bits, and the theorems there.
use os_v.Base.{◌^◌, ◌*◌, ◌%◌, ◌/◌, ℕ, ◌≡◌, refl, arith, bit_and, []}
use os_v.Memory.{Mem, write8, read_bytes, write_bytes, write64}
use os_v.Machine.{Machine, ram, Cmd, done, out_of_fuel}
use os_v.Paging.{missing, mapped, page_map_init, page_trace_pml4, page_map_pml4}
use os_v.Paging.Filter.{page_map_init-field}
use os_v.Paging.Frame.{page_map_pml4-other_page}
use os_v.Paging.Map.{
  IsReady, with_page, page_entry, page_trace_pml4-page_map_pml4, page_trace_pml4-page_map_pml4_lost,
}

-- The word at 0x1040 is where `page_map_PML4` looks for entry 1 of the top table.
abbrev pub tables : Mem
tables =
    write64 0x1000 0x2003
      (write64 0x1040 0x2003 (write64 0x2000 0x3003 (write64 0x3000 0x4003 (λ p. 0))))

abbrev pub computer : Machine
computer = record {
  screen = record { cur_x = 0; cur_y = 0; print_status = 0; ram = tables };
  paging = page_map_init 0x3028 0x1000 0x8000 0xA000 0xC000 0xE000;
  allocator = record {
    memorymap = [];
    mem_palloc_start = 0;
    mem_palloc_size = 0;
    memorymap_max_ram = 0;
  };
  heap = record { mem_list_start = 0; mem_end = 0; maxlinaddr = 0; paddr = 0 };
}

-- No table is missing, so the allocator is not called.
abbrev no_alloc : ℕ → ℕ → Cmd ℕ
no_alloc size align m = out_of_fuel

page_map_init-field_example :
    bit_and 0x1234_5678_9ABC_DEF3
      ((page_map_init 0x3028 0x1000 0x8000 0xA000 0xC000 0xE000).page_map_filter)
    ≡ 0x1234_5678_9ABC_DEF3 / 2 ^ 12 % 2 ^ (0x3028 % 256) * 2 ^ 12
page_map_init-field_example =
    page_map_init-field 0x1234_5678_9ABC_DEF3 0x3028 0x1000 0x8000 0xA000 0xC000 0xE000
      (omega arith)

low_IsReady : IsReady computer 0x5000 40 0x2003 0x3003 0x4003 0x1000 0x4028
unfolding page_map_init write_bytes write8 read_bytes
low_IsReady = record {
  filter_eq = refl;
  width = omega arith;
  top_eq = refl;
  pt_eq = refl;
  path = record {
    pml4 = refl;
    pdpt = refl;
    pd = refl;
    present4 = refl;
    present3 = refl;
    present2 = refl;
  };
  apart4 = omega arith;
  apart3 = omega arith;
  apart2 = omega arith;
}

high_IsReady : IsReady computer 0x80_0000_5000 40 0x2003 0x3003 0x4003 0x1040 0x4028
unfolding page_map_init write_bytes write8 read_bytes
high_IsReady = record {
  filter_eq = refl;
  width = omega arith;
  top_eq = refl;
  pt_eq = refl;
  path = record {
    pml4 = refl;
    pdpt = refl;
    pd = refl;
    present4 = refl;
    present3 = refl;
    present2 = refl;
  };
  apart4 = omega arith;
  apart3 = omega arith;
  apart2 = omega arith;
}

page_trace_pml4-page_map_pml4_example :
    (page_map_pml4 no_alloc 0x5000 0x9_9000 0x11 0 computer
      ≡ done tt (with_page computer 0x4028 0x9_9000 0x11 0))
    × (page_trace_pml4 computer.paging 0x5000
          (write64 0x4028 (page_entry computer 0x9_9000 0x11 0) (ram computer))
        ≡ mapped (bit_and 0x9_9000 computer.paging.page_map_filter))
unfolding page_map_init
page_trace_pml4-page_map_pml4_example =
    page_trace_pml4-page_map_pml4 no_alloc 0x5000 0x9_9000 0x11 0 40 0x2003 0x3003 0x4003 0x1000
      0x4028 computer (omega arith) low_IsReady refl

page_trace_pml4-page_map_pml4_lost_example :
    (page_map_pml4 no_alloc 0x80_0000_5000 0x9_9000 0x11 0 computer
      ≡ done tt (with_page computer 0x4028 0x9_9000 0x11 0))
    × (page_trace_pml4 computer.paging 0x80_0000_5000
          (write64 0x4028 (page_entry computer 0x9_9000 0x11 0) (ram computer))
        ≡ missing 4)
unfolding page_map_init write_bytes write8 read_bytes
page_trace_pml4-page_map_pml4_lost_example =
    page_trace_pml4-page_map_pml4_lost no_alloc 0x80_0000_5000 0x9_9000 0x11 0 40 0x2003 0x3003
      0x4003 0x1040 0x4028 computer (omega arith) high_IsReady refl (omega arith)

page_map_pml4-other_page_example :
    (page_map_pml4 no_alloc 0x5000 0x9_9000 0x11 0 computer
      ≡ done tt (with_page computer 0x4028 0x9_9000 0x11 0))
    × (page_trace_pml4 computer.paging 0x6000
          (write64 0x4028 (page_entry computer 0x9_9000 0x11 0) (ram computer))
        ≡ page_trace_pml4 computer.paging 0x6000 (ram computer))
unfolding page_map_init
page_map_pml4-other_page_example =
    page_map_pml4-other_page no_alloc 0x5000 0x6000 0x9_9000 0x11 0 40 0x2003 0x3003 0x4003 0x1000
      0x4028 computer (omega arith) low_IsReady refl refl refl refl (omega arith)
