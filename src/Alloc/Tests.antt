-- ===== src/Alloc/Tests.antt =====
-- A heap behind `mem_init` on a machine that maps the page of its first tail, and the theorems there.
use os_v.Base.{◌==◌, if◌then◌else◌, ℕ, ◌+◌, ◌-◌, ◌≤◌, ◌≡◌, refl, [], ◌∷◌, arith, some}
use mathlib.Core.Path.{subst}
use os_v.Memory.{Mem, write8, read_bytes, write_bytes, write64}
use os_v.Machine.{Machine, ram}
use os_v.Paging.{mapped, page_map_init, page_trace_pml4}
use os_v.Alloc.{mem_init, mem_alloc, fits_before, find_place, last}
use os_v.Alloc.Pages.{AllMapped}
use os_v.Palloc.Alloc.{IsMapped}
use os_v.Alloc.Append.{mem_init-Linked, Appends, mem_alloc-Appends}

-- The tables map page 9 of the linear memory to itself.
abbrev pub tables : Mem
tables =
    write64 0x1000 0x2003
      (write64 0x2000 0x3003 (write64 0x3000 0x4003 (write64 0x4048 0x9003 (λ p. 0))))

abbrev pub computer : Machine
computer = record {
  screen = record { cur_x = 0; cur_y = 0; print_status = 0; ram = tables };
  paging = page_map_init 0x3028 0x1000 0xA000 0xB000 0xC000 0xD000;
  allocator = record {
    memorymap = [];
    mem_palloc_start = 0;
    mem_palloc_size = 0;
    memorymap_max_ram = 0;
  };
  heap = record { mem_list_start = 0; mem_end = 0; maxlinaddr = 0; paddr = 0 };
}

abbrev pub booted : Machine
booted = mem_init 0x9000 0x10000 48 computer

-- One entry has no gap before it.
booted-last :
    (size align : ℕ)
    → find_place 1 size align booted.heap.mem_list_start (ram booted) ≡ some (last 0x9000)
unfolding mem_init find_place fits_before read_bytes write_bytes write8
booted-last size align = refl

page_nine : page_trace_pml4 booted.paging 0x9000 (ram booted) ≡ mapped 0x9000
unfolding page_trace_pml4 page_map_init mem_init read_bytes write_bytes write8
page_nine = refl

pub booted-AllMapped : (end : ℕ) → end ≤ 0xA000 → AllMapped booted (0x9000 - 0xFFF) end
booted-AllMapped end h q lo hi aligned =
    let is : 0x9000 ≡ q = omega arith in
    (
      0x9000,
      subst (λ (t : ℕ). page_trace_pml4 booted.paging t (ram booted) ≡ mapped 0x9000) is page_nine,
    )

-- An allocation from the heap of `booted`, for clients of the allocator.
pub booted-Appends :
    (size align : ℕ)
    → size + align ≤ 0xF00
    → Appends booted
        (record { start = 0x2000; tail = 0x9000 })
        []
        0x9000
        size
        align
        (mem_alloc 1 1 size align booted)
booted-Appends size align h =
    mem_alloc-Appends 0 1 size align 0x9000 booted (record { start = 0x2000; tail = 0x9000 }) []
      (mem_init-Linked 0x9000 0x10000 48 computer (omega arith) (omega arith))
      (booted-last size align) (omega arith)
      (booted-AllMapped (0x9000 + align + size + 48) (omega arith))

mem_alloc-Appends_example :
    Appends booted
      (record { start = 0x2000; tail = 0x9000 })
      []
      0x9000
      0x10
      0x10
      (mem_alloc 1 1 0x10 0x10 booted)
mem_alloc-Appends_example =
    mem_alloc-Appends 0 1 0x10 0x10 0x9000 booted (record { start = 0x2000; tail = 0x9000 }) []
      (mem_init-Linked 0x9000 0x10000 48 computer (omega arith) (omega arith))
      (booted-last 0x10 0x10) (omega arith) (booted-AllMapped 0x9050 (omega arith))

-- A machine with RAM from 0x100000 on, the bitmap at 0x6000, and no page at 0xA000.
abbrev pub with_pages : Machine
with_pages = record (computer) {
  screen = record (computer.screen) { ram = λ p. if p == 0x6000 then 0xF0 else tables p };
  allocator = record {
    memorymap = record { base = 0x100000; length = 0x40000; type = 1 } ∷ [];
    mem_palloc_start = 0x6000;
    mem_palloc_size = 8;
    memorymap_max_ram = 0x140000;
  };
}

pub with_pages-IsMapped : IsMapped with_pages.allocator.memorymap 0x6000
with_pages-IsMapped = (λ r. omega arith, tt)
