-- ===== src/Alloc/Demand.antt =====
-- `mem_alloc_check_page` on a page that is not mapped: the page allocator and the page tables at work
-- together.
use os_v.Base.{
  ℕ, ◌+◌, ◌/◌, ◌≤◌, ◌≡◌, refl, ◌⊎◌, inl, inr, true, Option, none, some, arith, Option-cases,
  bit_and, ◌∙◌,
}
use os_v.Memory.{Mem, read64}
use os_v.Memory.Laws.{read_bytes_cong}
use os_v.Screen.{screen_clear, print_chars}
use os_v.Machine.{Machine, ram, with_ram, Run, Cmd, done, halted}
use os_v.Palloc.{MemorymapEntry, is_ram, pages, mem_palloc}
use os_v.Palloc.Alloc.{At, IsMapped, Allocated, NoRoom, Outcome, mem_palloc-Outcome}
use os_v.Palloc.Entries.{At-le}
use os_v.Paging.{missing, mapped, entry_at, index_pml4, index_pdpt, index_pd, page_trace_pml4}
use os_v.Paging.Map.{IsReady, with_page, page_trace_pml4-page_map_pml4}
use os_v.Alloc.{check_one, out_of_memory, errormsg}
use os_v.Alloc.Pages.{with_paddr}

-- The bytes of a word are none of the bitmap's.
abbrev pub OffBitmap : Machine → ℕ → Type 0
OffBitmap m a =
    (a + 8 ≤ m.allocator.mem_palloc_start)
    ⊎ ((e : MemorymapEntry) (t : ℕ)
        → At m.allocator.memorymap m.allocator.mem_palloc_start e t
        → is_ram e ≡ true
        → t + pages e / 8 ≤ a)

-- The three words of the tables that a walk to a page reads before the page's own entry.
pub record TablesOff (m : Machine) (vaddr e4 e3 top : ℕ) : Type 0 where
  pub off4 : OffBitmap m top
  pub off3 : OffBitmap m (
      entry_at
        (bit_and e4 m.paging.page_map_filter)
        (index_pdpt (bit_and vaddr m.paging.page_map_filter)))
  pub off2 : OffBitmap m (
      entry_at
        (bit_and e3 m.paging.page_map_filter)
        (index_pd (bit_and vaddr m.paging.page_map_filter)))

module _ (m : Machine) (p : ℕ) (r : Mem)
    (reach : IsMapped m.allocator.memorymap m.allocator.mem_palloc_start)
    (a : Allocated m.allocator.memorymap m.allocator.mem_palloc_start 1 (ram m) p r) where
  pub word_off : (q : ℕ) → OffBitmap m q → read64 q r ≡ read64 q (ram m)
  word_off q (inl below) =
      let up =
        At-le m.allocator.memorymap m.allocator.mem_palloc_start a.entry a.table a.at reach in
      read_bytes_cong 8 q r (ram m) (λ k lo hi. a.elsewhere k (inl (omega (arith, up, below, hi))))
  word_off q (inr above) =
      let le = above a.entry a.table a.at a.ram in
      let fits = a.fits in
      read_bytes_cong 8 q r (ram m) (λ k lo hi. a.elsewhere k (inr (omega (arith, le, fits, lo))))

  -- The tables are as they were before the page was taken.
  abbrev taken : Machine
  taken = with_paddr (with_ram r m) p

  IsReady-after :
      (vaddr n e4 e3 e2 top pt_a : ℕ)
      → IsReady m vaddr n e4 e3 e2 top pt_a
      → TablesOff m vaddr e4 e3 top
      → IsReady taken vaddr n e4 e3 e2 top pt_a
  IsReady-after vaddr n e4 e3 e2 top pt_a h off = record {
    filter_eq = h.filter_eq;
    width = h.width;
    top_eq = h.top_eq;
    pt_eq = h.pt_eq;
    path = record {
      pml4 = word_off _ off.off4 ∙ h.path.pml4;
      pdpt = word_off _ off.off3 ∙ h.path.pdpt;
      pd = word_off _ off.off2 ∙ h.path.pd;
      present4 = h.path.present4;
      present3 = h.path.present3;
      present2 = h.path.present2;
    };
    apart4 = h.apart4;
    apart3 = h.apart3;
    apart2 = h.apart2;
  }

-- How the check of one page ends: a free page was taken and the walk now ends at it, or none was left
-- and the kernel has halted.
abbrev pub Checked : Machine → ℕ → Run (Unit {0}) → Type 0
Checked m page out =
    ((p : ℕ) × (r : Mem) × (m' : Machine) × Allocated m.allocator.memorymap
        m.allocator.mem_palloc_start 1 (ram m) p r
      × (out ≡ done tt m')
      × (page_trace_pml4 m'.paging page (ram m') ≡ mapped (bit_and p m.paging.page_map_filter)))
    ⊎ (NoRoom m.allocator.memorymap m.allocator.mem_palloc_start 1 (ram m)
        × ((m' : Machine) × (out ≡ halted m')))

pub out_of_memory-halted : (m : Machine) → (m' : Machine) × (out_of_memory m ≡ halted m')
unfolding out_of_memory
out_of_memory-halted m = elim (Option-cases (print_chars errormsg (screen_clear m.screen))) [
  | inl lost ↦ (m, rw (lost, out_of_memory) refl)
  | inr (s, drawn) ↦ (record m { screen = s }, rw (drawn, out_of_memory) refl)
]

-- A page that is not mapped, in a region whose tables are there, apart from the page's entry and from
-- the bitmap, with index 0 at the top: the check of `mem_alloc_check_page` takes one free page from the
-- page allocator, and `page_trace_PML4` then finds it there, cut by the filter; where no page is free,
-- the kernel halts.
check_one-Checked :
    (alloc : ℕ → ℕ → Cmd ℕ) (page code n e4 e3 e2 top pt_a : ℕ) (m : Machine)
    → IsMapped m.allocator.memorymap m.allocator.mem_palloc_start
    → IsReady m page n e4 e3 e2 top pt_a
    → TablesOff m page e4 e3 top
    → index_pml4 (bit_and page m.paging.page_map_filter) ≡ 0
    → page_trace_pml4 m.paging page (ram m) ≡ missing code
    → Checked m page (check_one alloc page m)
unfolding check_one
check_one-Checked alloc page code n e4 e3 e2 top pt_a m reach ready off zero_index lost =
    by_palloc (mem_palloc m.allocator 1 (ram m)) refl
      (mem_palloc-Outcome m.allocator 1 (ram m) reach (omega arith))
  where
    by_palloc :
        (o : Option ℕ × Mem)
        → mem_palloc m.allocator 1 (ram m) ≡ o
        → Outcome m.allocator.memorymap m.allocator.mem_palloc_start 1 (ram m) o
        → Checked m page (check_one alloc page m)
    by_palloc (some p, r) e a =
        let t = taken m p r reach a in
        let lem =
          page_trace_pml4-page_map_pml4 alloc page p 1 0 n e4 e3 e2 top pt_a t (omega arith)
            (IsReady-after m p r reach a page n e4 e3 e2 top pt_a ready off) zero_index in
        inl (p, r, with_page t pt_a p 1 0, a, rw (lost, check_one) rw e rw e (lem.0), lem.1)
    by_palloc (none, r) e (same, full) =
        let stop = out_of_memory-halted (with_ram r m) in
        inr (full, (stop.0, rw (lost, check_one) rw e rw e (stop.1)))
