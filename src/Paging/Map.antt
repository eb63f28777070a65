-- ===== src/Paging/Map.antt =====
-- `page_map_PML4` followed by `page_trace_PML4`: they agree on the first entry of the top table, and
-- on no other.
use mathlib.Core.Path.{sym}
use os_v.Base.{
  ℕ, ◌+◌, ◌*◌, ◌/◌, ◌%◌, ◌^◌, ◌≤◌, ◌<◌, ◌≡◌, ◌⊎◌, true, false, arith, bit_and, ap, ◌∙◌, eq→==,
}
use native.Mathlib.Nat.{mod-mod}
use os_v.Memory.{Mem, read64, write64}
use os_v.Memory.Laws.{read_bytes-write_bytes_other, read64-write64}
use os_v.Machine.{Paging, Machine, ram, with_ram, Cmd, done}
use os_v.Paging.{
  missing, mapped, is_present, entry_at, index_pml4, index_pdpt, index_pd, index_pt, construct_pt_e,
  page_trace_pml4, page_map_pml4,
}
use os_v.Paging.Filter.{filter_of, bit_and-filter}
use os_v.Paging.Entry.{IsEntry, construct_pt_e-IsEntry}

-- Two words that have no byte in common.
abbrev pub Apart : ℕ → ℕ → Type 0
Apart a b = (a + 8 ≤ b) ⊎ (b + 8 ≤ a)

pub bit_and-filter_twice :
    (n a : ℕ) → bit_and (bit_and a (filter_of n)) (filter_of n) ≡ bit_and a (filter_of n)
bit_and-filter_twice n a =
    bit_and-filter n (bit_and a (filter_of n))
    ∙ omega (arith, bit_and-filter n a, mod-mod (a / 2 ^ 12) (2 ^ n), same)
  where
    same : bit_and a (filter_of n) / 2 ^ 12 % 2 ^ n ≡ a / 2 ^ 12 % 2 ^ n
    same =
        rw (bit_and-filter n a)
          (ap (λ (t : ℕ). t % 2 ^ n) (omega arith) ∙ mod-mod (a / 2 ^ 12) (2 ^ n))

-- A top entry with the two below it, all present; the page's own entry is then at `pt_at`.
pub record IsPath (filter v : ℕ) (m : Mem) (top e4 e3 e2 : ℕ) : Type 0 where
  pub pml4 : read64 top m ≡ e4
  pub pdpt : read64 (entry_at (bit_and e4 filter) (index_pdpt v)) m ≡ e3
  pub pd : read64 (entry_at (bit_and e3 filter) (index_pd v)) m ≡ e2
  pub present4 : is_present e4 ≡ true
  pub present3 : is_present e3 ≡ true
  pub present2 : is_present e2 ≡ true

pub trace_path :
    (g : Paging) (vaddr e4 e3 e2 e1 : ℕ) (m : Mem)
    → let f = g.page_map_filter in
      let v = bit_and vaddr f in
      IsPath f v m (entry_at g.pagemap_start (index_pml4 v)) e4 e3 e2
      → read64
          (entry_at (bit_and e2 g.page_map_filter) (index_pt (bit_and vaddr g.page_map_filter)))
          m
        ≡ e1
      → is_present e1 ≡ true
      → page_trace_pml4 g vaddr m ≡ mapped (bit_and e1 g.page_map_filter)
unfolding page_trace_pml4
trace_path g vaddr e4 e3 e2 e1 m p h1 present1 =
    rw (p.pml4, p.pdpt, p.pd, h1, p.present4, p.present3, p.present2, present1)

trace_absent :
    (g : Paging) (vaddr : ℕ) (m : Mem)
    → is_present
        (read64 (entry_at g.pagemap_start (index_pml4 (bit_and vaddr g.page_map_filter))) m)
      ≡ false
    → page_trace_pml4 g vaddr m ≡ missing 4
unfolding page_trace_pml4
trace_absent g vaddr m h = rw h

map_path :
    (mem_alloc : ℕ → ℕ → Cmd ℕ) (vaddr paddr flags prot e4 e3 e2 : ℕ) (m : Machine)
    → let f = m.paging.page_map_filter in
      let v = bit_and vaddr f in
      IsPath f v (ram m) (entry_at m.paging.pagemap_start (index_pml4 v * 8)) e4 e3 e2
      → let f = m.paging.page_map_filter in
        let v = bit_and vaddr f in
        page_map_pml4 mem_alloc vaddr paddr flags prot m
        ≡ done tt (
            with_ram
              (write64
                (entry_at (bit_and e2 f) (index_pt v))
                (construct_pt_e f flags (bit_and paddr f) prot)
                (ram m))
              m)
unfolding page_map_pml4
map_path mem_alloc vaddr paddr flags prot e4 e3 e2 m p =
    rw (p.pml4, p.present4, p.pml4, p.pdpt, p.present3, p.pdpt, p.pd, p.present2, p.pd)

-- A path that the store of another word does not touch is there afterwards.
pub IsPath-stays :
    (filter v top e4 e3 e2 a x : ℕ) (m : Mem)
    → IsPath filter v m top e4 e3 e2
    → Apart top a
    → Apart (entry_at (bit_and e4 filter) (index_pdpt v)) a
    → Apart (entry_at (bit_and e3 filter) (index_pd v)) a
    → IsPath filter v (write64 a x m) top e4 e3 e2
IsPath-stays filter v top e4 e3 e2 a x m p a4 a3 a2 = record {
  pml4 = read_bytes-write_bytes_other 8 top 8 a x m a4 ∙ p.pml4;
  pdpt =
      read_bytes-write_bytes_other 8 (entry_at (bit_and e4 filter) (index_pdpt v)) 8 a x m a3
      ∙ p.pdpt;
  pd = read_bytes-write_bytes_other 8 (entry_at (bit_and e3 filter) (index_pd v)) 8 a x m a2 ∙ p.pd;
  present4 = p.present4;
  present3 = p.present3;
  present2 = p.present2;
}

-- The case that is set up for both theorems: the tables that `page_map_PML4` finds for a linear
-- address are all there, from `top` on, and the page's entry at `pt_a` is none of their words.
pub record IsReady (m : Machine) (vaddr n e4 e3 e2 top pt_a : ℕ) : Type 0 where
  pub filter_eq : m.paging.page_map_filter ≡ filter_of n
  pub width : n ≤ 47
  pub top_eq :
      top
      ≡ entry_at m.paging.pagemap_start (index_pml4 (bit_and vaddr m.paging.page_map_filter) * 8)
  pub pt_eq :
      pt_a
      ≡ entry_at
          (bit_and e2 m.paging.page_map_filter)
          (index_pt (bit_and vaddr m.paging.page_map_filter))
  pub path :
      IsPath m.paging.page_map_filter (bit_and vaddr m.paging.page_map_filter) (ram m) top e4 e3 e2
  pub apart4 : Apart top pt_a
  pub apart3 :
      Apart
        (entry_at
          (bit_and e4 m.paging.page_map_filter)
          (index_pdpt (bit_and vaddr m.paging.page_map_filter)))
        pt_a
  pub apart2 :
      Apart
        (entry_at
          (bit_and e3 m.paging.page_map_filter)
          (index_pd (bit_and vaddr m.paging.page_map_filter)))
        pt_a

-- The entry that is stored for a page, and the machine with it at `pt_a`.
abbrev pub page_entry : Machine → ℕ → ℕ → ℕ → ℕ
page_entry m paddr flags prot =
    construct_pt_e m.paging.page_map_filter flags (bit_and paddr m.paging.page_map_filter) prot

abbrev pub with_page : Machine → ℕ → ℕ → ℕ → ℕ → Machine
with_page m pt_a paddr flags prot =
    with_ram (write64 pt_a (page_entry m paddr flags prot) (ram m)) m

module _ (mem_alloc : ℕ → ℕ → Cmd ℕ) (vaddr paddr flags prot n e4 e3 e2 top pt_a : ℕ) (m : Machine)
    (byte : flags < 256) (ready : IsReady m vaddr n e4 e3 e2 top pt_a) where
  stored-IsEntry :
      IsEntry
        (page_entry m paddr flags prot)
        m.paging.page_map_filter
        (2 * flags + 1)
        (bit_and paddr m.paging.page_map_filter)
        (prot % 32)
        59
  stored-IsEntry =
      let e = construct_pt_e-IsEntry n flags (bit_and paddr (filter_of n)) prot byte ready.width in
      rw ready.filter_eq e

  pub map_runs :
      page_map_pml4 mem_alloc vaddr paddr flags prot m ≡ done tt (with_page m pt_a paddr flags prot)
  map_runs =
      rw ready.pt_eq
        (map_path mem_alloc vaddr paddr flags prot e4 e3 e2 m (rw ready.top_eq at ready.path))

  stays :
      IsPath m.paging.page_map_filter
        (bit_and vaddr m.paging.page_map_filter)
        (write64 pt_a (page_entry m paddr flags prot) (ram m))
        top
        e4
        e3
        e2
  stays =
      IsPath-stays m.paging.page_map_filter (bit_and vaddr m.paging.page_map_filter) top e4 e3 e2
        pt_a (page_entry m paddr flags prot) (ram m) ready.path ready.apart4 ready.apart3
        ready.apart2

  -- Where the tables of a linear address with index 0 at the top are there, `page_map_PML4` stores
  -- the page's entry and no other byte, and `page_trace_PML4` of that address then returns the
  -- physical address, cut by the filter.
  pub page_trace_pml4-page_map_pml4 :
      index_pml4 (bit_and vaddr m.paging.page_map_filter) ≡ 0
      → (page_map_pml4 mem_alloc vaddr paddr flags prot m
          ≡ done tt (with_page m pt_a paddr flags prot))
        × (page_trace_pml4 m.paging vaddr (write64 pt_a (page_entry m paddr flags prot) (ram m))
            ≡ mapped (bit_and paddr m.paging.page_map_filter))
  page_trace_pml4-page_map_pml4 zero_index = (
    map_runs,
    trace_path m.paging vaddr e4 e3 e2 (page_entry m paddr flags prot)
          (write64 pt_a (page_entry m paddr flags prot) (ram m)) (rw own_top at stays)
          (rw (sym ready.pt_eq)
            (read64-write64 pt_a (page_entry m paddr flags prot) (ram m) stored-IsEntry.word))
          (eq→== _ 1 stored-IsEntry.present)
        ∙ ap mapped (stored-IsEntry.address ∙ masked),
  )
    where
      own_top :
          top
          ≡ entry_at m.paging.pagemap_start (index_pml4 (bit_and vaddr m.paging.page_map_filter))
      own_top = omega (arith, ready.top_eq, zero_index)

      masked :
          bit_and (bit_and paddr m.paging.page_map_filter) m.paging.page_map_filter
          ≡ bit_and paddr m.paging.page_map_filter
      masked = rw ready.filter_eq (bit_and-filter_twice n paddr)

  -- Where the top entry that belongs to the address, at `pagemap_start + index`, is missing,
  -- `page_trace_PML4` still reports it as missing after `page_map_PML4` has run through the tables
  -- below the word at `pagemap_start + 8 * index`: the mapping is lost.
  pub page_trace_pml4-page_map_pml4_lost :
      let own =
        entry_at m.paging.pagemap_start (index_pml4 (bit_and vaddr m.paging.page_map_filter)) in
      is_present (read64 own (ram m)) ≡ false
      → Apart own pt_a
      → (page_map_pml4 mem_alloc vaddr paddr flags prot m
          ≡ done tt (with_page m pt_a paddr flags prot))
        × (page_trace_pml4 m.paging vaddr (write64 pt_a (page_entry m paddr flags prot) (ram m))
            ≡ missing 4)
  page_trace_pml4-page_map_pml4_lost absent apart = (
    map_runs,
    trace_absent m.paging vaddr (write64 pt_a (page_entry m paddr flags prot) (ram m)) (
        rw (read_bytes-write_bytes_other 8 own 8 pt_a (page_entry m paddr flags prot) (ram m) apart)
          absent),
  )
    where
      own : ℕ
      own = entry_at m.paging.pagemap_start (index_pml4 (bit_and vaddr m.paging.page_map_filter))
