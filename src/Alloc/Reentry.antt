-- ===== src/Alloc/Reentry.antt =====
-- A call of `mem_alloc` that needs a page table, and so calls `mem_alloc` again before its own block is
-- in the list.
use os_v.Base.{
  ℕ, suc, ◌+◌, ◌-◌, ◌%◌, ◌^◌, ◌≤◌, ◌<◌, ◌≡◌, refl, some, List, ◌∷◌, arith, bit_and, u64, ap, ◌∙◌,
}
use os_v.Memory.{Mem}
use os_v.Screen.Cursor.{IsOnScreen}
use os_v.Machine.{Machine, ram, with_ram, Run, Cmd, done}
use os_v.Palloc.{mem_palloc}
use os_v.Paging.{missing, index_pml4, page_trace_pml4, page_map_pml4}
use os_v.Paging.Grow.{LacksTable, with_table, finished}
use os_v.Alloc.{next_of, align_start, find_place, last, check_one, mem_alloc}
use os_v.Alloc.Chain.{Block, Linked}
use os_v.Alloc.Pages.{align_start_lem, AllMapped, with_paddr, mem_alloc_check_page-missing}
use os_v.Alloc.Append.{appended, append_block-appended, appended-next_last, mem_alloc-last}
use os_v.Alloc.Tables.{IsClear, page_map_pml4-Grows}

check_one-missing :
    (alloc : ℕ → ℕ → Cmd ℕ) (page code p : ℕ) (r : Mem) (m : Machine)
    → page_trace_pml4 m.paging page (ram m) ≡ missing code
    → mem_palloc m.allocator 1 (ram m) ≡ (some p, r)
    → check_one alloc page m ≡ page_map_pml4 alloc page p 1 0 (with_paddr (with_ram r m) p)
unfolding check_one
check_one-missing alloc page code p r m lost e = rw (lost, check_one) rw e rw e refl

-- The machine in which the mapper is called: a page was taken.
abbrev pub with_free_page : Machine → Mem → ℕ → Machine
with_free_page m r p = with_paddr (with_ram r m) p

-- How the call ends: the block from `s` on is returned, and the next spare page table, `backup`, shares
-- bytes with it; and the block's tail is the one that follows the tail at `x`, in place of the spare
-- table's own.
abbrev pub Overlaps : ℕ → ℕ → Run ℕ → Type 0
Overlaps x size out =
    (s : ℕ) × (m' : Machine) × (out ≡ done s m')
    × (s < m'.paging.page_pd_backup + 0x1000)
    × (m'.paging.page_pd_backup < s + size)
    × (m'.paging.page_pd_backup % 0x1000 ≡ 0)
    × (next_of x (ram m') ≡ s + size)

-- A call of `mem_alloc` for more than 4096 bytes and an alignment below 4096, where the block goes
-- behind the last tail, at `x`, its last page alone is not mapped, a physical page is free, and the page
-- table for that page alone is missing, with index 0 at the top. In the machine with the spare table
-- entered the list is well formed, a table would go behind `x` as well, and the pages for it there are
-- mapped; the entries above the page lie outside of what the allocator writes and of video memory,
-- and no address overflows. The call returns, but the table that it has set aside as the next spare
-- one, at a multiple of the page size, shares bytes with the block that it returns, and the block's tail
-- is linked to the one at `x`, in place of the table's own.
pub mem_alloc-Overlaps :
    (depth walk size align code p hole n e4 e3 top pdpt_a pd_a pt_a x : ℕ) (r : Mem) (m : Machine)
    (b : Block) (bs : List Block)
    → let s = align_start (x + 24) align in
      let t = with_free_page m r p in
      let t1 = with_table t pd_a 1 0 in
      find_place walk size align m.heap.mem_list_start (ram m) ≡ some (last x)
      → 0x1000 < size
      → align < 0x1000
      → hole % 0x1000 ≡ 0
      → s < hole
      → hole < s + size + 24
      → s + size + 24 ≤ hole + 0x1000
      → hole + 0x4000 < 2 ^ 64
      → x + 0x3030 < 2 ^ 64
      → AllMapped m (s - 0xFFF) hole
      → page_trace_pml4 m.paging hole (ram m) ≡ missing code
      → mem_palloc m.allocator 1 (ram m) ≡ (some p, r)
      → LacksTable t hole n e4 e3 top pdpt_a pd_a pt_a
      → IsOnScreen m.screen
      → IsClear x top
      → IsClear x pdpt_a
      → IsClear x pd_a
      → index_pml4 (bit_and hole m.paging.page_map_filter) ≡ 0
      → Linked (ram t1) 0 0 t1.heap.mem_list_start (b ∷ bs)
      → find_place walk 0x1000 0x1000 t1.heap.mem_list_start (ram t1) ≡ some (last x)
      → AllMapped t1 (x - 0xFFF) (x + 0x2030)
      → Overlaps x size (mem_alloc (suc (suc depth)) walk size align m)
mem_alloc-Overlaps depth walk size align code p hole n e4 e3 top pdpt_a pd_a pt_a x r m b bs place
      large small aligned low less last_one room high all lost taken lacks shown c4 c3 c2 zero_index
      linked place' all' =
    let s : ℕ = align_start (x + 24) align in
    let t = with_free_page m r p in
    let at = align_start_lem (x + 24) align (omega arith) in
    let g =
      page_map_pml4-Grows depth walk hole p 1 0 n e4 e3 top pdpt_a pd_a pt_a x t b bs (omega arith)
        lacks (record { column = shown.column; line = shown.line }) c4 c3 c2 zero_index linked
        place' (omega (arith, at.0)) all' in
    let f : Machine = finished t g.1 g.0 pt_a p 1 0 in
    let one = λ (q : ℕ).
      check_one-missing (mem_alloc (suc depth) walk) hole code p r (with_paddr m q) lost taken
      ∙ g.2 in
    let checked =
      mem_alloc_check_page-missing (mem_alloc (suc depth) walk) s (s + size + 24) hole m f aligned
        low less last_one (omega arith) all one in
    let step : u64 (x + 24) ≡ x + 24 = omega (arith, at.0) in
    (
      s,
      with_ram (appended x (s + size) s (ram f)) f,
      mem_alloc-last (suc depth) walk size align x m place
          ∙ append_block-appended (mem_alloc (suc depth) walk) size align x s m f
              (ap (λ (v : ℕ). align_start v align) step) (omega arith) checked,
      omega (arith, at.1, g.4),
      omega (arith, at.0, g.5),
      g.6,
      appended-next_last x s (s + size) (ram f) at.0 (omega arith) (omega arith),
    )
