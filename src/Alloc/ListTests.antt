-- ===== src/Alloc/ListTests.antt =====
-- Lists of two and of three blocks, and the theorems on kernel/src/code/mem/alloc.c there.
use os_v.Base.{◌-◌, ◌≡◌, refl, List, [], ◌∷◌, arith, some}
use os_v.Memory.{write8, read_bytes, write_bytes}
use os_v.Machine.{Machine, ram}
use os_v.Paging.{page_map_init, page_trace_pml4}
use os_v.Alloc.{
  mem_init, mem_alloc, mem_free, Place, set_next, set_prev, set_vaddr, fits_before, find_place, gap,
  align_start,
}
use os_v.Alloc.Chain.{Block, Linked, find_place_total}
use os_v.Alloc.Pages.{AllMapped}
use os_v.Alloc.Insert.{Inserts, mem_alloc-Inserts}
use os_v.Alloc.Outcome.{MemFreeOutcome, mem_free-MemFreeOutcome}
use os_v.Alloc.Tests.{booted}

-- A list of three blocks.
abbrev three_blocks : Machine
three_blocks = record (booted) {
  screen = record (booted.screen) {
    ram = set_next 0x9000 0x9100 (
        set_prev 0x9000 0 (
          set_vaddr 0x9000 0x2000 (
            set_next 0x9100 0x9200 (
              set_prev 0x9100 0x9000 (
                set_vaddr 0x9100 0x9018 (
                  set_next 0x9200 0
                    (set_prev 0x9200 0x9100 (set_vaddr 0x9200 0x9118 (λ p. 0)))))))));
  };
}

abbrev blocks : List Block
blocks =
    record { start = 0x2000; tail = 0x9000 }
    ∷ record { start = 0x9018; tail = 0x9100 }
    ∷ record { start = 0x9118; tail = 0x9200 }
    ∷ []

three_blocks-Linked : Linked (ram three_blocks) 0 0 three_blocks.heap.mem_list_start blocks
unfolding mem_init read_bytes write_bytes write8
three_blocks-Linked = (
  refl,
  refl,
  refl,
  omega arith,
  omega arith,
  omega arith,
  omega arith,
  (
    refl,
    refl,
    refl,
    omega arith,
    omega arith,
    omega arith,
    omega arith,
    (refl, refl, refl, omega arith, omega arith, omega arith, omega arith, refl),
  ),
)

find_place_total_example :
    (p : Place) × (find_place 3 0x20 8 three_blocks.heap.mem_list_start (ram three_blocks) ≡ some p)
find_place_total_example =
    find_place_total 3 0x20 8 0 0 three_blocks.heap.mem_list_start (ram three_blocks)
      (record { start = 0x2000; tail = 0x9000 })
      (record { start = 0x9018; tail = 0x9100 } ∷ record { start = 0x9118; tail = 0x9200 } ∷ [])
      three_blocks-Linked (omega arith)

mem_free-MemFreeOutcome_example :
    MemFreeOutcome three_blocks
      (record { start = 0x2000; tail = 0x9000 })
      (record { start = 0x9018; tail = 0x9100 } ∷ record { start = 0x9118; tail = 0x9200 } ∷ [])
      0x9118
      (mem_free 4 0x9118 three_blocks)
mem_free-MemFreeOutcome_example =
    mem_free-MemFreeOutcome 4 0x9118 three_blocks (record { start = 0x2000; tail = 0x9000 })
      (record { start = 0x9018; tail = 0x9100 } ∷ record { start = 0x9118; tail = 0x9200 } ∷ [])
      three_blocks-Linked (omega arith) (λ is. omega (arith, is)) (omega arith)

-- A list of two blocks, with 256 bytes between them.
abbrev two_blocks : Machine
two_blocks = record (booted) {
  screen = record (booted.screen) {
    ram =
        set_next 0x9000 0x9200
          (set_next 0x9200 0 (set_prev 0x9200 0x9000 (set_vaddr 0x9200 0x9118 (ram booted))));
  };
}

abbrev outer_blocks : List Block
outer_blocks =
    record { start = 0x2000; tail = 0x9000 } ∷ record { start = 0x9118; tail = 0x9200 } ∷ []

two_blocks-Linked : Linked (ram two_blocks) 0 0 two_blocks.heap.mem_list_start outer_blocks
unfolding mem_init read_bytes write_bytes write8
two_blocks-Linked = (
  refl,
  refl,
  refl,
  omega arith,
  omega arith,
  omega arith,
  omega arith,
  (refl, refl, refl, omega arith, omega arith, omega arith, omega arith, refl),
)

two_blocks-gap :
    find_place 2 8 16 two_blocks.heap.mem_list_start (ram two_blocks) ≡ some (gap 0x9200 0x9020)
unfolding mem_init find_place fits_before read_bytes write_bytes write8 align_start
two_blocks-gap = refl

two_blocks-AllMapped : AllMapped two_blocks (0x9020 - 0xFFF) 0x90F8
unfolding page_trace_pml4 page_map_init mem_init read_bytes write_bytes write8
two_blocks-AllMapped q lo hi aligned = let is : 0x9000 ≡ q = omega arith in rw (← is) (0x9000, refl)

mem_alloc-Inserts_example :
    Inserts two_blocks []
      (record { start = 0x2000; tail = 0x9000 })
      (record { start = 0x9118; tail = 0x9200 })
      []
      0x9020
      8
      16
      (mem_alloc 1 2 8 16 two_blocks)
mem_alloc-Inserts_example =
    mem_alloc-Inserts 0 2 8 16 0x9020 two_blocks [] [] (record { start = 0x2000; tail = 0x9000 })
      (record { start = 0x9118; tail = 0x9200 }) two_blocks-Linked two_blocks-gap (omega arith)
      (omega arith) (omega arith) two_blocks-AllMapped
