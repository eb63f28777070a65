-- ===== src/Alloc/Region.antt =====
-- The pages of one page table, and `mem_alloc_check_page` of one of them: the tables above it are there,
-- apart from each other and from the bitmap of physical pages.
use os_v.Base.{
  ℕ, ◌+◌, ◌*◌, ◌/◌, ◌%◌, ◌^◌, ◌≤◌, ◌<◌, ◌≡◌, refl, ◌⊎◌, true, not, arith, if◌then◌else◌, bit_and,
  ap, sym, ◌∙◌,
}
use native.Mathlib.Nat.{mod-lt, one-le-pow}
use os_v.Memory.{Mem, read8, read64}
use os_v.Machine.{Machine, with_ram}
use os_v.Palloc.{MemorymapEntry, is_ram, pages}
use os_v.Palloc.Alloc.{At, IsMapped}
use os_v.Paging.{
  missing, mapped, is_present, entry_at, index_pml4, index_pdpt, index_pd, index_pt,
  page_trace_pml4,
}
use os_v.Paging.Filter.{filter_of, bit_and-filter, two_pow_mono}
use os_v.Paging.Map.{Apart, IsReady}
use os_v.Paging.Frame.{index_pt-field}
use os_v.Alloc.Pages.{with_paddr}
use os_v.Alloc.Demand.{OffBitmap}

-- A page whose walk goes through the entries `i3` and `i2` of the middle tables.
abbrev pub InRegion : Machine → ℕ → ℕ → ℕ → Type 0
InRegion m i3 i2 q =
    (index_pml4 (bit_and q m.paging.page_map_filter) ≡ 0)
    × (index_pdpt (bit_and q m.paging.page_map_filter) ≡ i3)
    × (index_pd (bit_and q m.paging.page_map_filter) ≡ i2)

-- The entries of those walks above the page table.
abbrev pub top_of : Machine → ℕ
top_of m = entry_at m.paging.pagemap_start 0

abbrev pub inner : Machine → ℕ → ℕ → ℕ
inner m e i = entry_at (bit_and e m.paging.page_map_filter) i

abbrev pub pt_at : Machine → ℕ → ℕ → ℕ
pt_at m e2 q =
    entry_at (bit_and e2 m.paging.page_map_filter) (index_pt (bit_and q m.paging.page_map_filter))

-- Where the tables and the bitmap lie.
pub record Region (m : Machine) (n e4 e3 e2 i3 i2 : ℕ) : Type 0 where
  pub filter_eq : m.paging.page_map_filter ≡ filter_of n
  pub width : n ≤ 47
  pub reach : IsMapped m.allocator.memorymap m.allocator.mem_palloc_start
  pub present4 : is_present e4 ≡ true
  pub present3 : is_present e3 ≡ true
  pub present2 : is_present e2 ≡ true
  pub off4 : OffBitmap m (top_of m)
  pub off3 : OffBitmap m (inner m e4 i3)
  pub off2 : OffBitmap m (inner m e3 i2)
  pub off1 : (i : ℕ) → i < 512 → OffBitmap m (inner m e2 i)
  pub apart4 : (i : ℕ) → i < 512 → Apart (top_of m) (inner m e2 i)
  pub apart3 : (i : ℕ) → i < 512 → Apart (inner m e4 i3) (inner m e2 i)
  pub apart2 : (i : ℕ) → i < 512 → Apart (inner m e3 i2) (inner m e2 i)

-- The entries in memory.
pub record HasTables (m : Machine) (e4 e3 e2 i3 i2 : ℕ) (r : Mem) : Type 0 where
  pub pml4 : read64 (top_of m) r ≡ e4
  pub pdpt : read64 (inner m e4 i3) r ≡ e3
  pub pd : read64 (inner m e3 i2) r ≡ e2

-- A byte of neither the bitmap nor the page table.
abbrev pub IsElsewhere : Machine → ℕ → ℕ → Type 0
IsElsewhere m e2 q =
    ((q < m.allocator.mem_palloc_start)
      ⊎ ((e : MemorymapEntry) (t : ℕ)
          → At m.allocator.memorymap m.allocator.mem_palloc_start e t
          → is_ram e ≡ true
          → t + pages e / 8 ≤ q))
    × ((q < bit_and e2 m.paging.page_map_filter)
        ⊎ (bit_and e2 m.paging.page_map_filter + 0x1000 ≤ q))

-- Nothing else has changed.
abbrev pub Frame : Machine → ℕ → Mem → Mem → Type 0
Frame m e2 r r' = (q : ℕ) → IsElsewhere m e2 q → read8 q r' ≡ read8 q r

-- The machine with another memory and another `paddr`.
abbrev pub with_state : Machine → Mem → ℕ → Machine
with_state m r p = with_paddr (with_ram r m) p

pub index_pt-lt : (v : ℕ) → index_pt v < 512
index_pt-lt v = omega (arith, index_pt-field v)

module _ (m : Machine) (n e4 e3 e2 i3 i2 : ℕ) (g : Region m n e4 e3 e2 i3 i2) where
  pub table_below : bit_and e2 m.paging.page_map_filter + 0x1000 ≤ 2 ^ 64
  table_below =
      let base : bit_and e2 m.paging.page_map_filter ≡ e2 / 2 ^ 12 % 2 ^ n * 2 ^ 12 =
        rw g.filter_eq (bit_and-filter n e2) in
      omega (
        arith,
        base,
        mod-lt (e2 / 2 ^ 12) (one-le-pow n 2 (omega arith)),
        two_pow_mono n 47 g.width,
      )

  -- A walk to a page of the region comes down to the page's own entry.
  pub trace_at :
      (q : ℕ) (r : Mem)
      → HasTables m e4 e3 e2 i3 i2 r
      → InRegion m i3 i2 q
      → page_trace_pml4 m.paging q r ≡ (
          if not (is_present (read64 (pt_at m e2 q) r))
          then missing 1
          else mapped (bit_and (read64 (pt_at m e2 q) r) m.paging.page_map_filter))
  unfolding page_trace_pml4
  trace_at q r h at =
      let z = at.0 in
      let a = at.1 in
      let b = at.2 in rw (z, a, b, h.pml4, h.pdpt, h.pd, g.present4, g.present3, g.present2) refl

  pub trace_same :
      (q q' : ℕ) (r r' : Mem)
      → HasTables m e4 e3 e2 i3 i2 r
      → HasTables m e4 e3 e2 i3 i2 r'
      → InRegion m i3 i2 q
      → InRegion m i3 i2 q'
      → read64 (pt_at m e2 q') r' ≡ read64 (pt_at m e2 q) r
      → page_trace_pml4 m.paging q' r' ≡ page_trace_pml4 m.paging q r
  trace_same q q' r r' h h' at at' same =
      trace_at q' r' h' at'
      ∙ ap
          (λ (e : ℕ).
            if not (is_present e) then missing 1 else mapped (bit_and e m.paging.page_map_filter))
          same
      ∙ sym (trace_at q r h at)

  pub region-IsReady :
      (q p : ℕ) (r : Mem)
      → HasTables m e4 e3 e2 i3 i2 r
      → InRegion m i3 i2 q
      → IsReady (with_state m r p) q n e4 e3 e2 (top_of m) (pt_at m e2 q)
  region-IsReady q p r h at =
      let z = at.0 in
      let small = index_pt-lt (bit_and q m.paging.page_map_filter) in
      record {
        filter_eq = g.filter_eq;
        width = g.width;
        top_eq = omega (arith, z);
        pt_eq = refl;
        path = record {
          pml4 = h.pml4;
          pdpt = rw at.1 (h.pdpt);
          pd = rw at.2 (h.pd);
          present4 = g.present4;
          present3 = g.present3;
          present2 = g.present2;
        };
        apart4 = g.apart4 _ small;
        apart3 = rw at.1 (g.apart3 _ small);
        apart2 = rw at.2 (g.apart2 _ small);
      }
