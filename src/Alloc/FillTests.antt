-- ===== src/Alloc/FillTests.antt =====
-- The mapper of kernel/src/code/mem/page_map.c with `mem_alloc` of kernel/src/code/mem/alloc.c, where two
-- tables of an address are missing.
use os_v.Base.{◌≡◌, refl, arith, bit_and}
use os_v.Memory.{Mem, write8, read_bytes, write_bytes, write64}
use os_v.Machine.{Machine, ram, with_ram, done}
use os_v.Paging.{
  mapped, page_map_init, page_trace_pml4, page_map_pml4, construct_pd_e, construct_pdpt_e,
}
use os_v.Paging.Grow.{LacksTable, Keeps, with_table, finished}
use os_v.Paging.Fill.{
  Filled, nothing_missing, add_pdpt, with_pdpt, spare_pdpt, page_map_pml4-Filled,
}
use os_v.Alloc.{
  mem_init, fits_before, find_place, align_start, alloc_step, append_block, mem_alloc_check_page,
  check_pages, check_one, mem_alloc,
}
use os_v.Alloc.Pages.{with_paddr}
use os_v.Alloc.Append.{appended}
use os_v.Alloc.Tests.{computer}

-- The pages from 0x9000 to 0xDFFF are mapped to themselves.
abbrev low_tables : Mem
low_tables = write64 0x1000 0x2003 (
    write64 0x2000 0x3003 (
      write64 0x3000 0x4003 (
        write64 0x4048 0x9003 (
          write64 0x4050 0xA003
            (write64 0x4058 0xB003 (write64 0x4060 0xC003 (write64 0x4068 0xD003 (λ p. 0))))))))

-- The linear memory from 0x40000000 on has neither a page directory nor a page table.
abbrev roomy : Machine
roomy = mem_init 0x9000 0x10000 48 (record (with_ram low_tables computer) {
  paging = page_map_init 0x3028 0x1000 0x30000 0x31000 0x32000 0x33000;
})

-- The machines before and behind the two calls of the allocator.
abbrev first_call : Machine
first_call = with_pdpt roomy 0x4000_5000 0x2003 0x11 0

abbrev first_return : Machine
first_return =
    with_ram (appended 0x9000 0xB000 0xA000 (ram first_call)) (with_paddr first_call 0xB000)

first_run : mem_alloc 1 3 0x1000 0x1000 first_call ≡ done 0xA000 first_return
unfolding mem_alloc alloc_step find_place fits_before align_start append_block mem_alloc_check_page
    check_pages check_one page_trace_pml4 page_map_init mem_init construct_pdpt_e read_bytes
    write_bytes write8
first_run = refl

abbrev second : Machine
second = spare_pdpt first_return 0xA000

roomy-Filled : Filled (mem_alloc 1 3) 0x4000_5000 0x11 0 roomy second
unfolding page_map_init mem_init construct_pdpt_e read_bytes write_bytes write8
roomy-Filled =
    add_pdpt 0xA000 0x2003 roomy first_return second refl refl refl (omega arith) first_run refl
      refl refl (nothing_missing second)

second-LacksTable : LacksTable second 0x4000_5000 40 0x2003 0x3_2011 0x1000 0x2008 0x3_2000 0x3_3028
unfolding page_map_init mem_init construct_pdpt_e read_bytes write_bytes write8
second-LacksTable = record {
  filter_eq = refl;
  width = omega arith;
  top_eq = refl;
  pdpt_eq = refl;
  pd_eq = refl;
  pt_eq = refl;
  pml4 = refl;
  pdpt = refl;
  present4 = refl;
  present3 = refl;
  absent = refl;
  apart4 = (omega arith, omega arith);
  apart3 = (omega arith, omega arith);
  apart2 = omega arith;
  shown4 = omega arith;
  shown3 = omega arith;
  shown2 = omega arith;
}

abbrev second_call : Machine
second_call = with_table second 0x3_2000 0x11 0

abbrev second_return : Machine
second_return =
    with_ram (appended 0xB000 0xD000 0xC000 (ram second_call)) (with_paddr second_call 0xD000)

second_run : mem_alloc 1 3 0x1000 0x1000 second_call ≡ done 0xC000 second_return
unfolding mem_alloc alloc_step find_place fits_before align_start append_block mem_alloc_check_page
    check_pages check_one page_trace_pml4 page_map_init mem_init construct_pdpt_e construct_pd_e
    read_bytes write_bytes write8
second_run = refl

second-Keeps : Keeps second_call second_return 0x1000 0x2008 0x3_2000
unfolding page_map_init mem_init construct_pdpt_e construct_pd_e read_bytes write_bytes write8
second-Keeps = record {
  paging = refl;
  top_kept = refl;
  pdpt_kept = refl;
  pd_kept = refl;
  cursor = record { column = omega arith; line = omega arith };
}

page_map_pml4-Filled_example :
    (page_map_pml4 (mem_alloc 1 3) 0x4000_5000 0x9_9000 0x11 0 roomy
      ≡ done tt (finished second second_return 0xC000 0x3_3028 0x9_9000 0x11 0))
    × (page_trace_pml4
          (finished second second_return 0xC000 0x3_3028 0x9_9000 0x11 0).paging
          0x4000_5000
          (ram (finished second second_return 0xC000 0x3_3028 0x9_9000 0x11 0))
        ≡ mapped (bit_and 0x9_9000 second.paging.page_map_filter))
unfolding page_map_init mem_init
page_map_pml4-Filled_example =
    page_map_pml4-Filled (mem_alloc 1 3) 0x4000_5000 0x9_9000 0x11 0 40 0x2003 0x3_2011 0x1000
      0x2008 0x3_2000 0x3_3028 0xC000 roomy second second_return (omega arith) roomy-Filled
      second-LacksTable second_run second-Keeps refl
