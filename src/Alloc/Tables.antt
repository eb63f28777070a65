-- ===== src/Alloc/Tables.antt =====
-- `page_map_PML4` with the allocator that it calls, where the page table is missing and `mem_alloc`
-- puts the next spare table behind its last block.
use os_v.Base.{
  ℕ, suc, ◌+◌, ◌-◌, ◌%◌, ◌^◌, ◌≤◌, ◌<◌, ◌≡◌, ◌⊎◌, some, List, [], ◌∷◌, ◌++◌, ◌*◌, arith, bit_and,
}
use os_v.Memory.{read64}
use os_v.Memory.Laws.{read_bytes_cong}
use os_v.Screen.Cursor.{IsOnScreen}
use os_v.Machine.{Machine, ram, Run, done}
use os_v.Paging.{mapped, index_pml4, page_trace_pml4, page_map_pml4}
use os_v.Paging.Grow.{LacksTable, with_table, finished, page_trace_pml4-page_map_pml4_grown}
use os_v.Alloc.{find_place, last, mem_alloc}
use os_v.Alloc.Chain.{Block, Linked}
use os_v.Alloc.Pages.{AllMapped}
use os_v.Alloc.Append.{Appends, mem_alloc-Appends}

-- A word that is neither in the last tail's link nor in the room of a table and its tail behind it.
abbrev pub IsClear : ℕ → ℕ → Type 0
IsClear x a = (a + 8 ≤ x) ⊎ (x + 0x2040 ≤ a)

-- A tail that neither the screen nor the entry at `pt_a` overwrites.
abbrev pub IsKept : ℕ → ℕ → Type 0
IsKept pt_a t = ((t + 24 ≤ 0xB8000) ⊎ (0xB8000 + 2 * 1601 ≤ t)) × ((t + 24 ≤ pt_a) ⊎ (pt_a + 8 ≤ t))

-- What the mapper does: `backup` is the next spare table, on a page of its own behind `x`, and the
-- last block of the list where the mapper goes on; the page is then found.
abbrev pub Grows : ℕ → ℕ → Machine → Block → List Block → ℕ → ℕ → ℕ → ℕ → ℕ → ℕ → Type 0
Grows depth walk m b bs x vaddr paddr flags prot pt_a =
    (backup : ℕ) × (m2 : Machine) × (page_map_pml4 (mem_alloc (suc depth) walk) vaddr paddr flags
        prot m
      ≡ done tt (finished m m2 backup pt_a paddr flags prot))
    × (page_trace_pml4 (finished m m2 backup pt_a paddr flags prot).paging vaddr
          (ram (finished m m2 backup pt_a paddr flags prot))
        ≡ mapped (bit_and paddr m.paging.page_map_filter))
    × (x + 24 ≤ backup)
    × (backup ≤ x + 24 + 0x1000)
    × (backup % 0x1000 ≡ 0)
    × Linked (ram m2) 0 0 m2.heap.mem_list_start
        ((b ∷ bs) ++ record { start = backup; tail = backup + 0x1000 } ∷ [])
    × IsOnScreen m2.screen

-- What it has done when it returns, with the machine `m'`: the next spare table is the last block of the
-- list there, and the page is found.
abbrev pub HasGrown : ℕ → ℕ → Machine → Block → List Block → ℕ → ℕ → ℕ → ℕ → ℕ → Type 0
HasGrown depth walk m b bs x vaddr paddr flags prot =
    (backup : ℕ) × (m' : Machine) × (page_map_pml4 (mem_alloc (suc depth) walk) vaddr paddr flags
        prot m
      ≡ done tt m')
    × (m'.paging.page_pd_backup ≡ backup)
    × (page_trace_pml4 m'.paging vaddr (ram m') ≡ mapped (bit_and paddr m.paging.page_map_filter))
    × (x + 24 ≤ backup)
    × (backup ≤ x + 24 + 0x1000)
    × (backup % 0x1000 ≡ 0)
    × Linked (ram m') 0 0 m'.heap.mem_list_start
        ((b ∷ bs) ++ record { start = backup; tail = backup + 0x1000 } ∷ [])

Appends-kept :
    (m : Machine) (b : Block) (bs : List Block) (x a : ℕ) (out : Run ℕ)
    → IsClear x a
    → (r : Appends m b bs x 0x1000 0x1000 out) → read64 a (ram r.1) ≡ read64 a (ram m)
Appends-kept m b bs x a out clear r =
    read_bytes_cong 8 a (ram r.1) (ram m)
      (λ q lo hi. r.6 q (omega (arith, clear)) (omega (arith, clear, r.3, r.8)))

pub page_map_pml4-Grows :
    (depth walk vaddr paddr flags prot n e4 e3 top pdpt_a pd_a pt_a x : ℕ) (m : Machine) (b : Block)
    (bs : List Block)
    → flags < 256
    → LacksTable m vaddr n e4 e3 top pdpt_a pd_a pt_a
    → IsOnScreen m.screen
    → IsClear x top
    → IsClear x pdpt_a
    → IsClear x pd_a
    → index_pml4 (bit_and vaddr m.paging.page_map_filter) ≡ 0
    → let m1 = with_table m pd_a flags prot in
      Linked (ram m1) 0 0 m1.heap.mem_list_start (b ∷ bs)
      → find_place walk 0x1000 0x1000 m1.heap.mem_list_start (ram m1) ≡ some (last x)
      → x + 0x3030 < 2 ^ 64
      → AllMapped m1 (x - 0xFFF) (x + 0x2030)
      → Grows depth walk m b bs x vaddr paddr flags prot pt_a
page_map_pml4-Grows depth walk vaddr paddr flags prot n e4 e3 top pdpt_a pd_a pt_a x m b bs byte
      lacks shown c4 c3 c2 zero_index linked place room all =
    let m1 = with_table m pd_a flags prot in
    let r =
      mem_alloc-Appends depth walk 0x1000 0x1000 x m1 b bs linked place (omega (arith, room))
        (λ q lo hi al. all q lo (omega (arith, hi)) al) in
    let out = mem_alloc (suc depth) walk 0x1000 0x1000 m1 in
    let on : IsOnScreen r.1.screen = record {
      column = omega (arith, r.9.0, shown.column);
      line = omega (arith, r.9.1, shown.line);
    } in
    let g =
      page_trace_pml4-page_map_pml4_grown (mem_alloc (suc depth) walk) vaddr paddr flags prot n e4
        e3 top pdpt_a pd_a pt_a r.0 m r.1 byte lacks r.2
        (record {
          paging = r.7;
          top_kept = Appends-kept m1 b bs x top out c4 r;
          pdpt_kept = Appends-kept m1 b bs x pdpt_a out c3 r;
          pd_kept = Appends-kept m1 b bs x pd_a out c2 r;
          cursor = on;
        })
        zero_index in
    (r.0, r.1, g.0, g.1, r.3, r.8, r.4 (omega arith), r.5, on)
