-- ===== src/Paging/Fill.antt =====
-- `page_map_PML4` of an address whose upper tables are missing: it makes one table and goes on as if it
-- had been there.
use os_v.Base.{ℕ, ◌*◌, ◌≤◌, ◌<◌, ◌≡◌, refl, true, false, arith, bit_and, ap, sym, ◌∙◌, eq→==}
use os_v.Memory.{read64, write64}
use os_v.Memory.Laws.{read_bytes-write_bytes_other, read64-write64}
use os_v.Paging.Map.{Apart}
use os_v.Machine.{Paging, Machine, ram, with_ram, Cmd, done}
use os_v.Paging.Grow.{LacksTable, Keeps, with_table, finished, page_trace_pml4-page_map_pml4_grown}
use os_v.Paging.Filter.{filter_of}
use os_v.Paging.Entry.{construct_table-IsEntry}
use os_v.Paging.{
  is_present, entry_at, index_pml4, index_pdpt, construct_pml4_e, construct_pdpt_e, new_pml4,
  new_pdpt, mapped, page_trace_pml4, page_map_pml4,
}

-- The addresses of the entries that the mapper looks at.
abbrev pub top : Machine → ℕ → ℕ
top m vaddr =
    entry_at m.paging.pagemap_start (index_pml4 (bit_and vaddr m.paging.page_map_filter) * 8)

abbrev pub below_top : Machine → ℕ → ℕ → ℕ
below_top m vaddr e4 =
    entry_at (bit_and e4 m.paging.page_map_filter)
      (index_pdpt (bit_and vaddr m.paging.page_map_filter))

module _ (mem_alloc : ℕ → ℕ → Cmd ℕ) (vaddr paddr flags prot : ℕ) (m m' : Machine)
    (filter_eq : m'.paging.page_map_filter ≡ m.paging.page_map_filter)
    (start_eq : m'.paging.pagemap_start ≡ m.paging.pagemap_start) where
  fill_pml4 :
      is_present (read64 (top m vaddr) (ram m)) ≡ false
      → new_pml4 mem_alloc (top m vaddr) flags prot m ≡ done tt m'
      → is_present (read64 (top m vaddr) (ram m')) ≡ true
      → page_map_pml4 mem_alloc vaddr paddr flags prot m
        ≡ page_map_pml4 mem_alloc vaddr paddr flags prot m'
  unfolding page_map_pml4
  fill_pml4 absent made present =
      let f = filter_eq in let s = start_eq in rw (absent, made, f, s, present) refl

  fill_pdpt :
      (e4 : ℕ)
      → read64 (top m vaddr) (ram m) ≡ e4
      → is_present e4 ≡ true
      → is_present (read64 (below_top m vaddr e4) (ram m)) ≡ false
      → new_pdpt mem_alloc (below_top m vaddr e4) flags prot m ≡ done tt m'
      → read64 (top m vaddr) (ram m') ≡ e4
      → is_present (read64 (below_top m vaddr e4) (ram m')) ≡ true
      → page_map_pml4 mem_alloc vaddr paddr flags prot m
        ≡ page_map_pml4 mem_alloc vaddr paddr flags prot m'
  unfolding page_map_pml4
  fill_pdpt e4 h4 present4 absent made k4 present =
      let f = filter_eq in
      let s = start_eq in rw (h4, present4, h4, absent, made, f, s, k4, present4, k4, present) refl

-- The machine in which `mem_alloc` is called for the next spare table, and the one behind the call.
abbrev pub with_pml4 : Machine → ℕ → ℕ → ℕ → Machine
with_pml4 m vaddr flags prot =
    with_ram
      (write64 (top m vaddr)
        (construct_pml4_e m.paging.page_map_filter flags m.paging.page_pml4_backup prot) (ram m))
      m

abbrev pub with_pdpt : Machine → ℕ → ℕ → ℕ → ℕ → Machine
with_pdpt m vaddr e4 flags prot =
    with_ram
      (write64 (below_top m vaddr e4)
        (construct_pdpt_e m.paging.page_map_filter flags m.paging.page_pdpt_backup prot) (ram m))
      m

abbrev pub spare_pml4 : Machine → ℕ → Machine
spare_pml4 m backup = record m { paging = record (m.paging) { page_pml4_backup = backup } }

abbrev pub spare_pdpt : Machine → ℕ → Machine
spare_pdpt m backup = record m { paging = record (m.paging) { page_pdpt_backup = backup } }

-- Upper tables are missing, `mem_alloc` returns a next spare table for each, and it leaves the paging
-- globals and the entries of the walk as they were when it was called.
pub data Filled (mem_alloc : ℕ → ℕ → Cmd ℕ) (vaddr flags prot : ℕ)
    : Machine → Machine → Type 0 where
  nothing_missing : (m : Machine) → Filled mem_alloc vaddr flags prot m m
  add_pml4 :
      (backup : ℕ) (m m1 m' : Machine)
      → is_present (read64 (top m vaddr) (ram m)) ≡ false
      → mem_alloc 0x1000 0x1000 (with_pml4 m vaddr flags prot) ≡ done backup m1
      → m1.paging ≡ m.paging
      → read64 (top m vaddr) (ram m1) ≡ read64 (top m vaddr) (ram (with_pml4 m vaddr flags prot))
      → Filled mem_alloc vaddr flags prot (spare_pml4 m1 backup) m'
      → Filled mem_alloc vaddr flags prot m m'
  add_pdpt :
      (backup e4 : ℕ) (m m1 m' : Machine)
      → read64 (top m vaddr) (ram m) ≡ e4
      → is_present e4 ≡ true
      → is_present (read64 (below_top m vaddr e4) (ram m)) ≡ false
      → Apart (top m vaddr) (below_top m vaddr e4)
      → mem_alloc 0x1000 0x1000 (with_pdpt m vaddr e4 flags prot) ≡ done backup m1
      → m1.paging ≡ m.paging
      → read64 (top m vaddr) (ram m1) ≡ read64 (top m vaddr) (ram (with_pdpt m vaddr e4 flags prot))
      → read64 (below_top m vaddr e4) (ram m1)
        ≡ read64 (below_top m vaddr e4) (ram (with_pdpt m vaddr e4 flags prot))
      → Filled mem_alloc vaddr flags prot (spare_pdpt m1 backup) m'
      → Filled mem_alloc vaddr flags prot m m'

-- Making tables leaves the filter as it is.
same_filter :
    (mem_alloc : ℕ → ℕ → Cmd ℕ) (vaddr flags prot : ℕ) (m m' : Machine)
    → Filled mem_alloc vaddr flags prot m m'
    → m'.paging.page_map_filter ≡ m.paging.page_map_filter
same_filter mem_alloc vaddr flags prot m _ (nothing_missing _) = refl
same_filter mem_alloc vaddr flags prot m _ (add_pml4 backup _ m1 m' absent made kept entry rest) =
    same_filter mem_alloc vaddr flags prot (spare_pml4 m1 backup) m' rest
    ∙ ap (λ (g : Paging). g.page_map_filter) kept
same_filter mem_alloc vaddr flags prot m _
      (add_pdpt backup e4 _ m1 m' h4 present4 absent apart made kept k4 entry rest) =
    same_filter mem_alloc vaddr flags prot (spare_pdpt m1 backup) m' rest
    ∙ ap (λ (g : Paging). g.page_map_filter) kept

module _ (mem_alloc : ℕ → ℕ → Cmd ℕ) (vaddr flags prot : ℕ) (backup : ℕ) (m m1 : Machine) where
  new_pml4-runs :
      mem_alloc 0x1000 0x1000 (with_pml4 m vaddr flags prot) ≡ done backup m1
      → new_pml4 mem_alloc (top m vaddr) flags prot m ≡ done tt (spare_pml4 m1 backup)
  unfolding new_pml4
  new_pml4-runs h = rw h refl

  new_pdpt-runs :
      (e4 : ℕ)
      → mem_alloc 0x1000 0x1000 (with_pdpt m vaddr e4 flags prot) ≡ done backup m1
      → new_pdpt mem_alloc (below_top m vaddr e4) flags prot m ≡ done tt (spare_pdpt m1 backup)
  unfolding new_pdpt
  new_pdpt-runs e4 h = rw h refl

module _ (mem_alloc : ℕ → ℕ → Cmd ℕ) (vaddr paddr flags prot n : ℕ) (byte : flags < 256)
    (width : n ≤ 51) where
  goes_on :
      (m m' : Machine)
      → m.paging.page_map_filter ≡ filter_of n
      → Filled mem_alloc vaddr flags prot m m'
      → page_map_pml4 mem_alloc vaddr paddr flags prot m
        ≡ page_map_pml4 mem_alloc vaddr paddr flags prot m'
  goes_on m _ is (nothing_missing _) = refl
  goes_on m _ is (add_pml4 backup _ m1 m' absent made kept entry rest) =
      let e = construct_table-IsEntry n flags m.paging.page_pml4_backup prot byte width in
      let own = rw (sym is) at e.0 in
      let f = ap (λ (g : Paging). g.page_map_filter) kept in
      fill_pml4 mem_alloc vaddr paddr flags prot m (spare_pml4 m1 backup) f
        (ap (λ (g : Paging). g.pagemap_start) kept) absent
        (new_pml4-runs mem_alloc vaddr flags prot backup m m1 made)
        (rw (entry, read64-write64 (top m vaddr) _ (ram m) own.word) (eq→== _ 1 own.present))
      ∙ goes_on (spare_pml4 m1 backup) m' (f ∙ is) rest
  goes_on m _ is (add_pdpt backup e4 _ m1 m' h4 present4 absent apart made kept k4 entry rest) =
      let e = construct_table-IsEntry n flags m.paging.page_pdpt_backup prot byte width in
      let own = rw (sym is) at e.1 in
      let f = ap (λ (g : Paging). g.page_map_filter) kept in
      fill_pdpt mem_alloc vaddr paddr flags prot m (spare_pdpt m1 backup) f
        (ap (λ (g : Paging). g.pagemap_start) kept) e4 h4 present4 absent
        (new_pdpt-runs mem_alloc vaddr flags prot backup m m1 e4 made)
        (k4
          ∙ read_bytes-write_bytes_other 8 (top m vaddr) 8 (below_top m vaddr e4) _ (ram m) apart
          ∙ h4)
        (rw (entry, read64-write64 (below_top m vaddr e4) _ (ram m) own.word)
          (eq→== _ 1 own.present))
      ∙ goes_on (spare_pdpt m1 backup) m' (f ∙ is) rest

-- Where any of the upper tables of an address with index 0 at the top are missing, the page table
-- among them, and `mem_alloc` returns for each of them a next spare table and leaves the entries above
-- the page, the filter and the place of the top table alone: `page_map_PML4` makes the tables from
-- the spare ones, from the top down, and then stores the page's entry, and `page_trace_PML4`
-- returns the physical address, cut by the filter.
pub page_map_pml4-Filled :
    (mem_alloc : ℕ → ℕ → Cmd ℕ) (vaddr paddr flags prot n e4 e3 top_a pdpt_a pd_a pt_a backup : ℕ)
    (m m' m2 : Machine)
    → flags < 256
    → Filled mem_alloc vaddr flags prot m m'
    → LacksTable m' vaddr n e4 e3 top_a pdpt_a pd_a pt_a
    → mem_alloc 0x1000 0x1000 (with_table m' pd_a flags prot) ≡ done backup m2
    → Keeps (with_table m' pd_a flags prot) m2 top_a pdpt_a pd_a
    → index_pml4 (bit_and vaddr m'.paging.page_map_filter) ≡ 0
    → (page_map_pml4 mem_alloc vaddr paddr flags prot m
        ≡ done tt (finished m' m2 backup pt_a paddr flags prot))
      × (page_trace_pml4
            (finished m' m2 backup pt_a paddr flags prot).paging
            vaddr
            (ram (finished m' m2 backup pt_a paddr flags prot))
          ≡ mapped (bit_and paddr m'.paging.page_map_filter))
page_map_pml4-Filled mem_alloc vaddr paddr flags prot n e4 e3 top_a pdpt_a pd_a pt_a backup m m' m2
      byte filled lacks alloc keeps zero_index =
    let filter = sym (same_filter mem_alloc vaddr flags prot m m' filled) ∙ lacks.filter_eq in
    let last_one =
      page_trace_pml4-page_map_pml4_grown mem_alloc vaddr paddr flags prot n e4 e3 top_a pdpt_a pd_a
        pt_a backup m' m2 byte lacks alloc keeps zero_index in
    (
      goes_on mem_alloc vaddr paddr flags prot n byte (omega (arith, lacks.width)) m m' filter
            filled
          ∙ last_one.0,
      last_one.1,
    )
