-- ===== src/Alloc/AllocateTests.antt =====
-- An allocation that crosses from a mapped page into one that is not, on kernel/src/code/mem/alloc.c with
-- palloc.c and page_map.c.
use os_v.Base.{
  ℕ, ◌+◌, ◌-◌, ◌/◌, ◌%◌, ◌≤◌, ◌<◌, ◌≡◌, refl, ◌⊎◌, inl, inr, true, some, List, [], ◌∷◌, Without,
  here, there, arith, ap,
}
use os_v.Memory.{write8, read_bytes, write_bytes}
use os_v.Machine.{Machine, ram}
use os_v.Palloc.{MemorymapEntry, is_ram, pages}
use os_v.Palloc.Alloc.{At}
use os_v.Paging.{page_map_init}
use os_v.Alloc.{mem_init, fits_before, find_place, last, mem_alloc}
use os_v.Alloc.Chain.{Block}
use os_v.Alloc.Append.{mem_init-Linked}
use os_v.Alloc.Region.{InRegion, Region, HasTables, IsElsewhere}
use os_v.Alloc.Allocate.{Layout, Allocates, mem_alloc-Allocates}
use os_v.Alloc.Tests.{with_pages, with_pages-IsMapped}

-- The page at 0x9000 is mapped, the one at 0xA000 is not.
abbrev half_mapped : Machine
half_mapped = mem_init 0x9000 0x10000 48 with_pages

abbrev kernel : Block
kernel = record { start = 0x2000; tail = 0x9000 }

half_mapped-last :
    find_place 1 0x1000 0 half_mapped.heap.mem_list_start (ram half_mapped) ≡ some (last 0x9000)
unfolding mem_init find_place fits_before read_bytes write_bytes write8
half_mapped-last = refl

half_mapped-Region : Region half_mapped 40 0x2003 0x3003 0x4003 0 0
unfolding mem_init page_map_init
half_mapped-Region = record {
  filter_eq = refl;
  width = omega arith;
  reach = with_pages-IsMapped;
  present4 = refl;
  present3 = refl;
  present2 = refl;
  off4 = inl (omega arith);
  off3 = inl (omega arith);
  off2 = inl (omega arith);
  off1 = λ i h. inl (omega arith);
  apart4 = λ i h. omega arith;
  apart3 = λ i h. omega arith;
  apart2 = λ i h. omega arith;
}

half_mapped-HasTables : HasTables half_mapped 0x2003 0x3003 0x4003 0 0 (ram half_mapped)
unfolding mem_init page_map_init read_bytes write_bytes write8
half_mapped-HasTables = record { pml4 = refl; pdpt = refl; pd = refl }

above_bitmap :
    (q : ℕ)
    → 0x6008 ≤ q
    → (e : MemorymapEntry) (t : ℕ)
    → At half_mapped.allocator.memorymap half_mapped.allocator.mem_palloc_start e t
    → is_ram e ≡ true
    → t + pages e / 8 ≤ q
unfolding mem_init
above_bitmap q h e t (inl (is, at)) ram = omega (arith, ap pages is, at, h)
above_bitmap q h e t (inr none_) ram = absurd none_

kernel-IsElsewhere :
    (c : Block) (rest : List Block)
    → Without c (kernel ∷ []) rest
    → (q : ℕ) → c.tail ≤ q
    → q < c.tail + 24
    → IsElsewhere half_mapped 0x4003 q
unfolding mem_init page_map_init
kernel-IsElsewhere _ _ (here _) q lo hi = (inr (above_bitmap q (omega arith)), omega arith)
kernel-IsElsewhere c _ (there b w) q lo hi = absurd (elim w [ ])

half_mapped-Layout : Layout half_mapped 0x2003 0x3003 0x4003 0 0 0x9000 0xA030 (kernel ∷ [])
unfolding mem_init page_map_init
half_mapped-Layout = record {
  tails = kernel-IsElsewhere;
  beside4 = omega arith;
  beside3 = omega arith;
  beside2 = omega arith;
  beside1 = λ i h. omega arith;
}

two_pages : (q : ℕ) → 0x9000 - 0xFFF ≤ q → q < 0xA030 → q % 0x1000 ≡ 0 → InRegion half_mapped 0 0 q
unfolding mem_init page_map_init
two_pages q lo hi aligned =
    let which : (q ≡ 0x9000) ⊎ (q ≡ 0xA000) = omega arith in
    elim which [ inl e ↦ rw e (refl, refl, refl) | inr e ↦ rw e (refl, refl, refl) ]

mem_alloc-Allocates_example :
    Allocates half_mapped 0x4003 0x9000 0x1000 0 (kernel ∷ []) (mem_alloc 1 1 0x1000 0 half_mapped)
mem_alloc-Allocates_example =
    mem_alloc-Allocates 0 1 0x1000 0 0x9000 40 0x2003 0x3003 0x4003 0 0 half_mapped kernel []
      (mem_init-Linked 0x9000 0x10000 48 with_pages (omega arith) (omega arith)) half_mapped-last
      (omega arith) half_mapped-Region half_mapped-HasTables half_mapped-Layout two_pages
