-- ===== src/Palloc/Init.antt =====
-- `mem_palloc_init` of kernel/src/code/mem/palloc.c: the bitmap behind the kernel, with every page
-- free but those of the kernel.
use os_v.Base.{
  ℕ, zero, suc, ◌+◌, ◌-◌, ◌/◌, ◌%◌, ◌^◌, ◌≤◌, ◌≡◌, Bool, true, false, ◌&&◌, Option, none, some,
  List, [], ◌∷◌, bit_or, ltb, leb, if◌then◌else◌, u64, arith,
}
use os_v.Base.Bits.{clear_bit}
use os_v.Memory.{Mem, read8, write8}
use os_v.Memory.Laws.{read8-write8}
use os_v.Palloc.{MemorymapEntry, is_ram, mark_pages, PageAllocator}
use os_v.Machine.{Machine, ram, with_ram, Cmd, done}
use os_v.Palloc.Print.{no_paddr, no_entry}
use os_v.Paging.{Walk, missing, mapped, page_trace_pml4}

-- The loop that adds up the RAM. It ends one entry early.
unfoldable pub sum_ram : List MemorymapEntry → ℕ → ℕ
sum_ram [] total = total
sum_ram (e ∷ []) total = total
sum_ram (e ∷ f ∷ es) total = sum_ram (f ∷ es) (if is_ram e then u64 (total + e.length) else total)

-- The loop that frees every page.
unfoldable pub fill_loop : ℕ → ℕ → ℕ → Mem → Mem
fill_loop zero i start m = m
fill_loop (suc left) i start m = fill_loop left (i + 1) start (write8 (u64 (start + i)) 0xFF m)

-- The test of an entry for the kernel.
unfoldable pub has_kernel : MemorymapEntry → ℕ → ℕ → Bool
has_kernel e paddr_start paddr_end =
    is_ram e && (leb e.base paddr_start && leb paddr_end (u64 (e.base + e.length)))

-- The loop that takes the pages of the kernel; `none` is its end without an entry.
unfoldable pub claim_kernel : List MemorymapEntry → ℕ → ℕ → ℕ → ℕ → Mem → Option Mem
claim_kernel [] tbl paddr_start paddr_end n m = none
claim_kernel (e ∷ es) tbl paddr_start paddr_end n m = elim (has_kernel e paddr_start paddr_end) [
  | true ↦ some (mark_pages clear_bit n tbl ((paddr_start - e.base) / 0x1000) m)
  | false ↦
      claim_kernel es (if is_ram e then u64 (tbl + e.length / 0x8000) else tbl) paddr_start
        paddr_end n m
]

-- The new `*kernelend`.
unfoldable pub new_kernelend : ℕ → ℕ → ℕ
new_kernelend kernelend size =
    let end = u64 (u64 (kernelend + size) + 1) in u64 (end + (0x1000 - end % 0x1000))

-- The allocator's globals behind the first part.
unfoldable pub with_table : ℕ → PageAllocator → PageAllocator
with_table kernelend g =
    let total = sum_ram g.memorymap g.memorymap_max_ram in
    record g {
      memorymap_max_ram = total;
      mem_palloc_size = total / 0x1000 / 8;
      mem_palloc_start = kernelend;
    }

-- What `page_trace_PML4` returns.
unfoldable pub code_of : Walk → ℕ
code_of (missing code) = code
code_of (mapped p) = 0

-- `mem_palloc_init` with `*kernelstart` and `*kernelend`; the result is the new `*kernelend`.
unfoldable pub mem_palloc_init : ℕ → ℕ → Cmd ℕ
mem_palloc_init kernelstart kernelend m =
    let g = with_table kernelend m.allocator in
    let end = new_kernelend kernelend g.mem_palloc_size in
    let filled = fill_loop g.mem_palloc_size 0 kernelend (ram m) in
    let m' = record (with_ram filled m) { allocator = g } in
    let n = u64 (end + (2 ^ 64 - kernelstart)) / 0x1000 in
    elim (page_trace_pml4 m.paging kernelstart filled) [
      | missing code ↦ no_paddr (bit_or code (code_of (page_trace_pml4 m.paging end filled))) m'
      | mapped paddr_start ↦ elim (page_trace_pml4 m.paging end filled) [
        | missing code ↦ no_paddr code m'
        | mapped paddr_end ↦
            elim (claim_kernel g.memorymap kernelend paddr_start paddr_end n filled) [
              | none ↦ no_entry paddr_start kernelstart m'
              | some r ↦ done end (with_ram r m')
            ]
      ]
    ]

-- The memory with every page free, and the new end of the kernel.
abbrev pub filled_ram : ℕ → Machine → Mem
filled_ram kernelend m =
    fill_loop (with_table kernelend m.allocator).mem_palloc_size 0 kernelend (ram m)

abbrev pub end_after : ℕ → Machine → ℕ
end_after kernelend m = new_kernelend kernelend (with_table kernelend m.allocator).mem_palloc_size

pub fill_loop_lem :
    (left i start : ℕ) (m : Mem) (q : ℕ)
    → start + (i + left) ≤ 2 ^ 64
    → read8 q (fill_loop left i start m)
      ≡ (if leb (start + i) q && ltb q (start + (i + left)) then 0xFF else read8 q m)
unfolding fill_loop
fill_loop_lem zero i start m q h = ground arith
fill_loop_lem (suc left) i start m q h = ground (
  arith,
  read8-write8 (u64 (start + i)) 0xFF q m,
  fill_loop_lem left (i + 1) start (write8 (u64 (start + i)) 0xFF m) q,
)
