-- ===== src/Alloc/ReentryTests.antt =====
-- An allocation at the end of the first 2 MiB of linear memory, on kernel/src/code/mem/alloc.c,
-- page_map.c and palloc.c together.
use os_v.Base.{◌+◌, ◌-◌, ◌≡◌, refl, inl, inr, ◌⊎◌, some, [], ◌∷◌, arith, ◌==◌, if◌then◌else◌}
use os_v.Memory.{Mem, write8, read_bytes, write_bytes, write64}
use os_v.Machine.{Machine, ram}
use os_v.Palloc.{mem_palloc}
use os_v.Paging.{missing, mapped, page_map_init, page_trace_pml4}
use os_v.Paging.Grow.{LacksTable, with_table}
use os_v.Alloc.{mem_init, fits_before, find_place, last, align_start, mem_alloc}
use os_v.Alloc.Chain.{Linked}
use os_v.Alloc.Pages.{AllMapped}
use os_v.Alloc.Reentry.{with_free_page, Overlaps, mem_alloc-Overlaps}
use os_v.Alloc.Tests.{tables, with_pages}

-- The kernel ends at 0x1FC800; the four pages up to 0x1FFFFF are mapped, and from 0x200000 on there is
-- no page table. The first page of RAM that is free is at 0x104000.
abbrev crossing : Machine
crossing = mem_init 0x1F_C800 0x10000 48 (record (with_pages) {
  screen = record (with_pages.screen) {
    ram = λ p.
        if p == 0x6000
        then 0xF0
        else write64 0x4FE0 0x1F_C003
            (write64 0x4FE8 0x1F_D003 (write64 0x4FF0 0x1F_E003 (write64 0x4FF8 0x1F_F003 tables)))
            p;
  };
})

crossing-last :
    find_place 1 0x3800 0 crossing.heap.mem_list_start (ram crossing) ≡ some (last 0x1F_C800)
unfolding mem_init find_place fits_before read_bytes write_bytes write8
crossing-last = refl

crossing-mapped :
    (page_trace_pml4 crossing.paging 0x1F_C000 (ram crossing) ≡ mapped 0x1F_C000)
    × (page_trace_pml4 crossing.paging 0x1F_D000 (ram crossing) ≡ mapped 0x1F_D000)
    × (page_trace_pml4 crossing.paging 0x1F_E000 (ram crossing) ≡ mapped 0x1F_E000)
    × (page_trace_pml4 crossing.paging 0x1F_F000 (ram crossing) ≡ mapped 0x1F_F000)
unfolding page_trace_pml4 page_map_init mem_init read_bytes write_bytes write8
crossing-mapped = (refl, refl, refl, refl)

crossing-AllMapped : AllMapped crossing (0x1F_C818 - 0xFFF) 0x20_0000
crossing-AllMapped q lo hi aligned =
    let which : (q ≡ 0x1F_C000) ⊎ ((q ≡ 0x1F_D000) ⊎ ((q ≡ 0x1F_E000) ⊎ (q ≡ 0x1F_F000))) =
      omega arith in
    elim which [
      | inl e ↦ (0x1F_C000, rw e crossing-mapped.0)
      | inr (inl e) ↦ (0x1F_D000, rw e crossing-mapped.1)
      | inr (inr (inl e)) ↦ (0x1F_E000, rw e crossing-mapped.2)
      | inr (inr (inr e)) ↦ (0x1F_F000, rw e crossing-mapped.3)
    ]

crossing-missing : page_trace_pml4 crossing.paging 0x20_0000 (ram crossing) ≡ missing 2
unfolding page_trace_pml4 page_map_init mem_init read_bytes write_bytes write8
crossing-missing = refl

abbrev after_page : Mem
after_page = (mem_palloc crossing.allocator 1 (ram crossing)).1

after_page_lem : mem_palloc crossing.allocator 1 (ram crossing) ≡ (some 0x10_4000, after_page)
unfolding mem_palloc mem_init read_bytes write_bytes write8
after_page_lem = refl

abbrev paged : Machine
paged = with_free_page crossing after_page 0x10_4000

paged-LacksTable : LacksTable paged 0x20_0000 40 0x2003 0x3003 0x1000 0x2000 0x3008 0xD000
unfolding mem_palloc mem_init page_map_init write_bytes write8 read_bytes
paged-LacksTable = record {
  filter_eq = refl;
  width = omega arith;
  top_eq = refl;
  pdpt_eq = refl;
  pd_eq = refl;
  pt_eq = refl;
  pml4 = refl;
  pdpt = refl;
  present4 = refl;
  present3 = refl;
  absent = refl;
  apart4 = (omega arith, omega arith);
  apart3 = (omega arith, omega arith);
  apart2 = omega arith;
  shown4 = omega arith;
  shown3 = omega arith;
  shown2 = omega arith;
}

-- The machine in which the mapper calls the allocator.
abbrev asked : Machine
asked = with_table paged 0x3008 1 0

asked-Linked :
    Linked
      (ram asked)
      0
      0
      asked.heap.mem_list_start
      (record { start = 0x2000; tail = 0x1F_C800 } ∷ [])
unfolding mem_palloc mem_init page_map_init write_bytes write8 read_bytes
asked-Linked = (refl, refl, refl, omega arith, omega arith, omega arith, omega arith, refl)

asked-last :
    find_place 1 0x1000 0x1000 asked.heap.mem_list_start (ram asked) ≡ some (last 0x1F_C800)
unfolding mem_palloc mem_init find_place fits_before page_map_init read_bytes write_bytes write8
asked-last = refl

asked-mapped :
    (page_trace_pml4 asked.paging 0x1F_C000 (ram asked) ≡ mapped 0x1F_C000)
    × (page_trace_pml4 asked.paging 0x1F_D000 (ram asked) ≡ mapped 0x1F_D000)
    × (page_trace_pml4 asked.paging 0x1F_E000 (ram asked) ≡ mapped 0x1F_E000)
unfolding mem_palloc page_trace_pml4 page_map_init mem_init read_bytes write_bytes write8
asked-mapped = (refl, refl, refl)

asked-AllMapped : AllMapped asked (0x1F_C800 - 0xFFF) (0x1F_C800 + 0x2030)
asked-AllMapped q lo hi aligned =
    let which : (q ≡ 0x1F_C000) ⊎ ((q ≡ 0x1F_D000) ⊎ (q ≡ 0x1F_E000)) = omega arith in
    elim which [
      | inl e ↦ (0x1F_C000, rw e asked-mapped.0)
      | inr (inl e) ↦ (0x1F_D000, rw e asked-mapped.1)
      | inr (inr e) ↦ (0x1F_E000, rw e asked-mapped.2)
    ]

mem_alloc-Overlaps_example : Overlaps 0x1F_C800 0x3800 (mem_alloc 2 1 0x3800 0 crossing)
unfolding align_start mem_init page_map_init
mem_alloc-Overlaps_example =
    mem_alloc-Overlaps 0 1 0x3800 0 2 0x10_4000 0x20_0000 40 0x2003 0x3003 0x1000 0x2000 0x3008
      0xD000 0x1F_C800 after_page crossing (record { start = 0x2000; tail = 0x1F_C800 }) []
      crossing-last (omega arith) (omega arith) (omega arith) (omega arith) (omega arith)
      (omega arith) (omega arith) (omega arith) crossing-AllMapped crossing-missing after_page_lem
      paged-LacksTable (record { column = omega arith; line = omega arith }) (omega arith)
      (omega arith) (omega arith) refl asked-Linked asked-last asked-AllMapped
