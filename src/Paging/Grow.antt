-- ===== src/Paging/Grow.antt =====
-- `page_map_PML4` of an address whose page table is missing: the spare table is entered.
use os_v.Base.{
  ℕ, ◌+◌, ◌*◌, ◌%◌, ◌≤◌, ◌<◌, ◌≡◌, refl, ◌⊎◌, true, false, arith, bit_and, bit_or, ap, ◌∙◌, sym,
  eq→==,
}
use os_v.Memory.{read64, write64}
use os_v.Memory.Laws.{read_bytes_cong, read_bytes-write_bytes_other, read64-write64}
use os_v.Screen.{screen_clear}
use os_v.Screen.Cursor.{IsOnScreen, screen_clear-Draws}
use os_v.Machine.{Machine, ram, with_ram, Cmd, done}
use os_v.Paging.{
  mapped, is_present, entry_at, index_pml4, index_pdpt, index_pd, index_pt, construct_pd_e,
  page_trace_pml4, page_map_pml4, new_pd,
}
use os_v.Paging.Filter.{filter_of}
use os_v.Paging.Entry.{IsEntry, construct_table-IsEntry, construct_pt_e-IsEntry}
use os_v.Paging.Map.{Apart, IsPath, IsPath-stays, page_entry, trace_path, bit_and-filter_twice}

-- A word in the address space and outside of video memory.
abbrev pub OffScreen : ℕ → Type 0
OffScreen a = (a + 8 ≤ 0xB8000) ⊎ (0xB8000 + 2 * 1601 ≤ a)

-- The upper two tables are there and the page directory's entry, at `pd_a`, is not present.
pub record LacksTable (m : Machine) (vaddr n e4 e3 top pdpt_a pd_a pt_a : ℕ) : Type 0 where
  pub filter_eq : m.paging.page_map_filter ≡ filter_of n
  pub width : n ≤ 47
  pub top_eq :
      top
      ≡ entry_at m.paging.pagemap_start (index_pml4 (bit_and vaddr m.paging.page_map_filter) * 8)
  pub pdpt_eq :
      pdpt_a
      ≡ entry_at
          (bit_and e4 m.paging.page_map_filter)
          (index_pdpt (bit_and vaddr m.paging.page_map_filter))
  pub pd_eq :
      pd_a
      ≡ entry_at
          (bit_and e3 m.paging.page_map_filter)
          (index_pd (bit_and vaddr m.paging.page_map_filter))
  pub pt_eq :
      pt_a
      ≡ entry_at
          (bit_and m.paging.page_pd_backup m.paging.page_map_filter)
          (index_pt (bit_and vaddr m.paging.page_map_filter))
  pub pml4 : read64 top (ram m) ≡ e4
  pub pdpt : read64 pdpt_a (ram m) ≡ e3
  pub present4 : is_present e4 ≡ true
  pub present3 : is_present e3 ≡ true
  pub absent : is_present (read64 pd_a (ram m)) ≡ false
  pub apart4 : Apart top pd_a × Apart top pt_a
  pub apart3 : Apart pdpt_a pd_a × Apart pdpt_a pt_a
  pub apart2 : Apart pd_a pt_a
  pub shown4 : OffScreen top
  pub shown3 : OffScreen pdpt_a
  pub shown2 : OffScreen pd_a

-- The entry of the spare table.
abbrev pub table_entry : Machine → ℕ → ℕ → ℕ
table_entry m flags prot =
    construct_pd_e m.paging.page_map_filter flags m.paging.page_pd_backup prot

-- The machine in which `page_map_PML4` calls `mem_alloc` for the next spare table.
abbrev pub with_table : Machine → ℕ → ℕ → ℕ → Machine
with_table m pd_a flags prot = with_ram (write64 pd_a (table_entry m flags prot) (ram m)) m

-- What a call of `mem_alloc` leaves: the three words, the paging globals and a cursor on the screen.
pub record Keeps (m m' : Machine) (top pdpt_a pd_a : ℕ) : Type 0 where
  pub paging : m'.paging ≡ m.paging
  pub top_kept : read64 top (ram m') ≡ read64 top (ram m)
  pub pdpt_kept : read64 pdpt_a (ram m') ≡ read64 pdpt_a (ram m)
  pub pd_kept : read64 pd_a (ram m') ≡ read64 pd_a (ram m)
  pub cursor : IsOnScreen m'.screen

-- The machine behind the new table: the next spare table is `backup`, and the screen is empty.
abbrev pub grown : Machine → ℕ → Machine
grown m2 backup = record m2 {
  paging = record (m2.paging) { page_pd_backup = backup };
  screen = screen_clear m2.screen;
}

-- The page's entry in the new table.
abbrev pub finished : Machine → Machine → ℕ → ℕ → ℕ → ℕ → ℕ → Machine
finished m m2 backup pt_a paddr flags prot =
    with_ram (write64 pt_a (page_entry m paddr flags prot) (ram (grown m2 backup)))
      (grown m2 backup)

module _ (mem_alloc : ℕ → ℕ → Cmd ℕ)
    (vaddr paddr flags prot n e4 e3 top pdpt_a pd_a pt_a backup : ℕ) (m m2 : Machine)
    (byte : flags < 256) (h : LacksTable m vaddr n e4 e3 top pdpt_a pd_a pt_a)
    (alloc : mem_alloc 0x1000 0x1000 (with_table m pd_a flags prot) ≡ done backup m2)
    (keeps : Keeps (with_table m pd_a flags prot) m2 top pdpt_a pd_a) where
  table-IsEntry :
      IsEntry
        (table_entry m flags prot)
        m.paging.page_map_filter
        (bit_or flags 1)
        m.paging.page_pd_backup
        (prot % 2)
        63
  table-IsEntry =
      let e =
        construct_table-IsEntry n flags m.paging.page_pd_backup prot byte
          (omega (arith, h.width)) in
      rw h.filter_eq e.2

  -- A word that only the new screen could change.
  cleared : (a : ℕ) → OffScreen a → read64 a (ram (grown m2 backup)) ≡ read64 a (ram m2)
  cleared a off =
      let d = screen_clear-Draws m2.screen keeps.cursor in
      read_bytes_cong 8 a (ram (grown m2 backup)) (ram m2)
        (λ q lo hi. d.outside q (omega (arith, off)))

  entry_there : read64 pd_a (ram (grown m2 backup)) ≡ table_entry m flags prot
  entry_there =
      cleared pd_a h.shown2
      ∙ keeps.pd_kept
      ∙ read64-write64 pd_a (table_entry m flags prot) (ram m) table-IsEntry.word

  map_grows :
      page_map_pml4 mem_alloc vaddr paddr flags prot m
      ≡ done tt (finished m m2 backup pt_a paddr flags prot)
  unfolding page_map_pml4 new_pd
  map_grows =
      let r4 = rw h.top_eq at h.pml4 in
      let r3 = rw h.pdpt_eq at h.pdpt in
      let r2 = rw h.pd_eq at h.absent in
      let a = rw h.pd_eq at alloc in
      let there = rw h.pd_eq at entry_there in
      rw (r4, h.present4, r4, r3, h.present3, r3, r2, a, there, table-IsEntry.address, sym h.pt_eq)
        refl

  -- The tables on the way to the page, the new one included.
  grown-IsPath :
      IsPath m.paging.page_map_filter
        (bit_and vaddr m.paging.page_map_filter)
        (ram (grown m2 backup))
        top
        e4
        e3
        (table_entry m flags prot)
  grown-IsPath = record {
    pml4 =
        cleared top h.shown4
        ∙ keeps.top_kept
        ∙ read_bytes-write_bytes_other 8 top 8 pd_a (table_entry m flags prot) (ram m) h.apart4.0
        ∙ h.pml4;
    pdpt = rw (sym h.pdpt_eq) (
        cleared pdpt_a h.shown3
        ∙ keeps.pdpt_kept
        ∙ read_bytes-write_bytes_other 8 pdpt_a 8 pd_a (table_entry m flags prot) (ram m) h.apart3.0
        ∙ h.pdpt);
    pd = rw (sym h.pd_eq) entry_there;
    present4 = h.present4;
    present3 = h.present3;
    present2 = eq→== _ 1 table-IsEntry.present;
  }

  finished-IsPath :
      IsPath m.paging.page_map_filter
        (bit_and vaddr m.paging.page_map_filter)
        (write64 pt_a (page_entry m paddr flags prot) (ram (grown m2 backup)))
        top
        e4
        e3
        (table_entry m flags prot)
  finished-IsPath =
      IsPath-stays m.paging.page_map_filter (bit_and vaddr m.paging.page_map_filter) top e4 e3
        (table_entry m flags prot) pt_a (page_entry m paddr flags prot) (ram (grown m2 backup))
        grown-IsPath h.apart4.1 (rw h.pdpt_eq at h.apart3.1) (rw h.pd_eq at h.apart2)

  -- Where the upper two tables of an address with index 0 at the top are there and its page table is
  -- missing, `page_map_PML4` enters the spare table, takes what `mem_alloc` returns as the next
  -- spare one, clears the screen and stores the page's entry in the new table, and `page_trace_PML4`
  -- then returns the physical address, cut by the filter. `mem_alloc` is asked to leave the three
  -- entries above the page and the paging globals as they are.
  pub page_trace_pml4-page_map_pml4_grown :
      index_pml4 (bit_and vaddr m.paging.page_map_filter) ≡ 0
      → (page_map_pml4 mem_alloc vaddr paddr flags prot m
          ≡ done tt (finished m m2 backup pt_a paddr flags prot))
        × (page_trace_pml4
              (finished m m2 backup pt_a paddr flags prot).paging
              vaddr
              (ram (finished m m2 backup pt_a paddr flags prot))
            ≡ mapped (bit_and paddr m.paging.page_map_filter))
  page_trace_pml4-page_map_pml4_grown zero_index = (
    map_grows,
    rw keeps.paging (
        trace_path (record (m.paging) { page_pd_backup = backup }) vaddr e4 e3
          (table_entry m flags prot) (page_entry m paddr flags prot)
          (write64 pt_a (page_entry m paddr flags prot) (ram (grown m2 backup)))
          (rw own_top at finished-IsPath)
          (rw (table-IsEntry.address, sym h.pt_eq)
            (read64-write64 pt_a (page_entry m paddr flags prot) (ram (grown m2 backup)) page.word))
          (eq→== _ 1 page.present)
        ∙ ap mapped (page.address ∙ masked)),
  )
    where
      page :
          IsEntry
            (page_entry m paddr flags prot)
            m.paging.page_map_filter
            (2 * flags + 1)
            (bit_and paddr m.paging.page_map_filter)
            (prot % 32)
            59
      page =
          let e = construct_pt_e-IsEntry n flags (bit_and paddr (filter_of n)) prot byte h.width in
          rw h.filter_eq e

      own_top :
          top
          ≡ entry_at m.paging.pagemap_start (index_pml4 (bit_and vaddr m.paging.page_map_filter))
      own_top = omega (arith, h.top_eq, zero_index)

      masked :
          bit_and (bit_and paddr m.paging.page_map_filter) m.paging.page_map_filter
          ≡ bit_and paddr m.paging.page_map_filter
      masked = rw h.filter_eq (bit_and-filter_twice n paddr)
