-- ===== src/Paging/Frame.antt =====
-- `page_map_PML4` of one page and the walks to the other pages of its table.
use os_v.Base.{ℕ, ◌*◌, ◌/◌, ◌%◌, ◌^◌, ◌≤◌, ◌<◌, ◌≡◌, ◌≢◌, refl, arith, bit_and}
use native.Mathlib.Nat.{mod-lt, one-le-pow}
use os_v.Base.Bits.{bit_and-field}
use os_v.Memory.{Mem, read64, write64}
use os_v.Memory.Laws.{read_bytes-write_bytes_other}
use os_v.Machine.{Paging, Machine, ram, Cmd, done}
use os_v.Paging.{
  entry_at, index_pml4, index_pdpt, index_pd, index_pt, page_trace_pml4, page_map_pml4,
}
use os_v.Paging.Filter.{filter_of, bit_and-filter, two_pow_mono}
use os_v.Paging.Map.{Apart, IsReady, with_page, page_entry, map_runs}

-- A store beside the four words that a walk reads.
trace_frame :
    (g : Paging) (w a x e4 e3 e2 : ℕ) (m : Mem)
    → read64 (entry_at g.pagemap_start (index_pml4 (bit_and w g.page_map_filter))) m ≡ e4
    → read64 (entry_at (bit_and e4 g.page_map_filter) (index_pdpt (bit_and w g.page_map_filter))) m
      ≡ e3
    → read64 (entry_at (bit_and e3 g.page_map_filter) (index_pd (bit_and w g.page_map_filter))) m
      ≡ e2
    → Apart (entry_at g.pagemap_start (index_pml4 (bit_and w g.page_map_filter))) a
    → Apart (entry_at (bit_and e4 g.page_map_filter) (index_pdpt (bit_and w g.page_map_filter))) a
    → Apart (entry_at (bit_and e3 g.page_map_filter) (index_pd (bit_and w g.page_map_filter))) a
    → Apart (entry_at (bit_and e2 g.page_map_filter) (index_pt (bit_and w g.page_map_filter))) a
    → page_trace_pml4 g w (write64 a x m) ≡ page_trace_pml4 g w m
unfolding page_trace_pml4
trace_frame g w a x e4 e3 e2 m h4 h3 h2 a4 a3 a2 a1 =
    let k4 = read_bytes-write_bytes_other 8 _ 8 a x m a4 in
    let k3 = read_bytes-write_bytes_other 8 _ 8 a x m a3 in
    let k2 = read_bytes-write_bytes_other 8 _ 8 a x m a2 in
    let k1 = read_bytes-write_bytes_other 8 _ 8 a x m a1 in rw (k4, h4, k3, h3, k2, h2, k1) refl

pub index_pt-field : (v : ℕ) → index_pt v ≡ v / 2 ^ 12 % 2 ^ 9
index_pt-field v =
    let field : bit_and v 0x00000000001FF000 ≡ v / 2 ^ 12 % 2 ^ 9 * 2 ^ 12 = bit_and-field 9 12 v in
    omega (arith, field)

-- Two entries of one table.
pub entries-Apart :
    (n filter e i j : ℕ)
    → filter ≡ filter_of n
    → n ≤ 47
    → i < 512
    → j < 512
    → i ≢ j
    → Apart (entry_at (bit_and e filter) i) (entry_at (bit_and e filter) j)
entries-Apart n filter e i j is width hi hj ne =
    let base : bit_and e filter ≡ e / 2 ^ 12 % 2 ^ n * 2 ^ 12 = rw is (bit_and-filter n e) in
    let small = mod-lt (e / 2 ^ 12) (one-le-pow n 2 (omega arith)) in
    let mono = two_pow_mono n 47 width in rw base (omega (arith, small, mono, ne))

-- Where the tables of a linear address with index 0 at the top are there, `page_map_PML4` of it returns
-- and leaves the walk to any other page of the same page table as it was: what `page_trace_PML4`
-- returned for that page before, a physical address or the code of a missing entry, it returns
-- afterwards.
pub page_map_pml4-other_page :
    (mem_alloc : ℕ → ℕ → Cmd ℕ) (vaddr other paddr flags prot n e4 e3 e2 top pt_a : ℕ) (m : Machine)
    → flags < 256
    → IsReady m vaddr n e4 e3 e2 top pt_a
    → index_pml4 (bit_and vaddr m.paging.page_map_filter) ≡ 0
    → index_pml4 (bit_and other m.paging.page_map_filter) ≡ 0
    → index_pdpt (bit_and other m.paging.page_map_filter)
      ≡ index_pdpt (bit_and vaddr m.paging.page_map_filter)
    → index_pd (bit_and other m.paging.page_map_filter)
      ≡ index_pd (bit_and vaddr m.paging.page_map_filter)
    → index_pt (bit_and other m.paging.page_map_filter)
      ≢ index_pt (bit_and vaddr m.paging.page_map_filter)
    → (page_map_pml4 mem_alloc vaddr paddr flags prot m
        ≡ done tt (with_page m pt_a paddr flags prot))
      × (page_trace_pml4 m.paging other (write64 pt_a (page_entry m paddr flags prot) (ram m))
          ≡ page_trace_pml4 m.paging other (ram m))
page_map_pml4-other_page mem_alloc vaddr other paddr flags prot n e4 e3 e2 top pt_a m byte h z z' i3
      i2 ne =
    let own_top : top
        ≡ entry_at m.paging.pagemap_start (index_pml4 (bit_and other m.paging.page_map_filter)) =
      omega (arith, h.top_eq, z, z') in
    let at1 = index_pt-field (bit_and other m.paging.page_map_filter) in
    let at1' = index_pt-field (bit_and vaddr m.paging.page_map_filter) in
    (
      map_runs mem_alloc vaddr paddr flags prot n e4 e3 e2 top pt_a m byte h,
      trace_frame m.paging other pt_a (page_entry m paddr flags prot) e4 e3 e2 (ram m)
          (rw own_top at h.path.pml4) (rw i3 (h.path.pdpt)) (rw i2 (h.path.pd))
          (rw own_top at h.apart4) (rw i3 (h.apart3)) (rw i2 (h.apart2))
          (rw h.pt_eq (
            entries-Apart n m.paging.page_map_filter e2
              (index_pt (bit_and other m.paging.page_map_filter))
              (index_pt (bit_and vaddr m.paging.page_map_filter)) h.filter_eq h.width
              (omega (arith, at1)) (omega (arith, at1')) ne)),
    )
