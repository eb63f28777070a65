-- ===== src/Alloc/TakePage.antt =====
-- One page of `mem_alloc_check_page`, in the region of a page table: it is mapped, or a free page is taken
-- and entered for it, or the kernel halts.
use os_v.Base.{
  ℕ, ◌+◌, ◌/◌, ◌%◌, ◌≤◌, ◌<◌, ◌≡◌, ◌≢◌, sym, refl, ◌⊎◌, inl, inr, true, Option, none, some, arith,
  Bool-cases, ◌==◌, bit_and, ap, ◌∙◌,
}
use os_v.Memory.{Mem, read8, read64, write64}
use os_v.Memory.Laws.{read_bytes-write_bytes_other, write_bytes-other}
use os_v.Machine.{Machine, Run, Cmd, done, halted}
use os_v.Palloc.{MemorymapEntry, is_ram, pages, mem_palloc}
use os_v.Palloc.Alloc.{At, Allocated, NoRoom, Outcome, mem_palloc-Outcome}
use os_v.Palloc.Entries.{At-le}
use os_v.Paging.{Walk, missing, mapped, entry_at, index_pt, page_trace_pml4}
use os_v.Paging.Map.{page_entry, page_trace_pml4-page_map_pml4}
use os_v.Paging.Frame.{entries-Apart}
use os_v.Alloc.{check_one}
use os_v.Alloc.Demand.{OffBitmap, word_off, out_of_memory-halted}
use os_v.Alloc.Region.{
  InRegion, top_of, inner, pt_at, Region, HasTables, Frame, with_state, index_pt-lt, table_below,
  trace_same, region-IsReady,
}

Walk-cases : (w : Walk) → ((p : ℕ) × (w ≡ mapped p)) ⊎ ((code : ℕ) × (w ≡ missing code))
Walk-cases (mapped p) = inl (p, refl)
Walk-cases (missing code) = inr (code, refl)

-- What becomes of the page `q` between two memories: it is mapped as it was, or still missing; or it was
-- missing and is mapped to a page that `mem_palloc` returned, in a memory `r0` that differs from the
-- first one in the bitmap and the page table only.
abbrev pub Mapping : Machine → ℕ → ℕ → Mem → Mem → Type 0
Mapping m e2 q r r' =
    (page_trace_pml4 m.paging q r' ≡ page_trace_pml4 m.paging q r)
    ⊎ (((code : ℕ) × (page_trace_pml4 m.paging q r ≡ missing code))
        × ((p : ℕ) × (r0 : Mem) × (r1 : Mem) × Frame m e2 r r0
            × (mem_palloc m.allocator 1 r0 ≡ (some p, r1))
            × (page_trace_pml4 m.paging q r' ≡ mapped (bit_and p m.paging.page_map_filter))))

missing_mapped : (code x : ℕ) → missing code ≢ mapped x
missing_mapped code x h = absurd (cc h)

pub Mapping-trans :
    (m : Machine) (e2 q : ℕ) (r r' r'' : Mem)
    → Frame m e2 r r'
    → Mapping m e2 q r r'
    → Mapping m e2 q r' r''
    → Mapping m e2 q r r''
Mapping-trans m e2 q r r' r'' f (inl one) (inl two) = inl (two ∙ one)
Mapping-trans m e2 q r r' r'' f (inl one) (inr ((code, lost), (p, r0, r1, f0, e, at))) =
    inr ((code, sym one ∙ lost), (p, r0, r1, (λ w off. f0 w off ∙ f w off), e, at))
Mapping-trans m e2 q r r' r'' f (inr (lost, (p, r0, r1, f0, e, at))) (inl two) =
    inr (lost, (p, r0, r1, f0, e, two ∙ at))
Mapping-trans m e2 q r r' r'' f (inr (lost, (p, r0, r1, f0, e, at))) (inr ((code, lost'), later)) =
    absurd (missing_mapped code _ (sym lost' ∙ at))

-- A page that was mapped stays where it was.
pub Mapping-mapped :
    (m : Machine) (e2 q x : ℕ) (r r' : Mem)
    → Mapping m e2 q r r'
    → page_trace_pml4 m.paging q r ≡ mapped x
    → page_trace_pml4 m.paging q r' ≡ mapped x
Mapping-mapped m e2 q x r r' (inl same) was = same ∙ was
Mapping-mapped m e2 q x r r' (inr ((code, lost), later)) was =
    absurd (missing_mapped code x (sym lost ∙ was))

module _ (alloc : ℕ → ℕ → Cmd ℕ) (m : Machine) (n e4 e3 e2 i3 i2 : ℕ)
    (g : Region m n e4 e3 e2 i3 i2) where
  -- The tables are there, nothing else has changed, and each page of the region is mapped as it was or
  -- was given a page.
  abbrev pub Progress : Mem → Mem → Type 0
  Progress r r' =
      HasTables m e4 e3 e2 i3 i2 r'
      × Frame m e2 r r'
      × ((q : ℕ) → InRegion m i3 i2 q → Mapping m e2 q r r')

  abbrev pub Stopped : Mem → ℕ → Run (Unit {0}) → Type 0
  Stopped r q out =
      (m' : Machine) × (out ≡ halted m')
      × ((code : ℕ) × (page_trace_pml4 m.paging q r ≡ missing code))
      × NoRoom m.allocator.memorymap m.allocator.mem_palloc_start 1 r

  -- A free page that was taken and entered for a page that was missing.
  module _ (q p0 p : ℕ) (r r1 : Mem) (h : HasTables m e4 e3 e2 i3 i2 r) (at : InRegion m i3 i2 q)
      (code : ℕ) (lost : page_trace_pml4 m.paging q r ≡ missing code)
      (a : Allocated m.allocator.memorymap m.allocator.mem_palloc_start 1 r p r1) where
    abbrev entry : ℕ
    entry = page_entry m p 1 0

    abbrev r2 : Mem
    r2 = write64 (pt_at m e2 q) entry r1

    kept1 : (w : ℕ) → OffBitmap m w → read64 w r1 ≡ read64 w r
    kept1 w off = word_off (with_state m r p0) p r1 g.reach a w off

    taken-HasTables : HasTables m e4 e3 e2 i3 i2 r1
    taken-HasTables = record {
      pml4 = kept1 (top_of m) g.off4 ∙ h.pml4;
      pdpt = kept1 (inner m e4 i3) g.off3 ∙ h.pdpt;
      pd = kept1 (inner m e3 i2) g.off2 ∙ h.pd;
    }

    small : index_pt (bit_and q m.paging.page_map_filter) < 512
    small = index_pt-lt (bit_and q m.paging.page_map_filter)

    entered-HasTables : HasTables m e4 e3 e2 i3 i2 r2
    entered-HasTables = record {
      pml4 =
          read_bytes-write_bytes_other 8 (top_of m) 8 (pt_at m e2 q) entry r1 (g.apart4 _ small)
          ∙ taken-HasTables.pml4;
      pdpt =
          read_bytes-write_bytes_other 8 (inner m e4 i3) 8 (pt_at m e2 q) entry r1
            (g.apart3 _ small)
          ∙ taken-HasTables.pdpt;
      pd =
          read_bytes-write_bytes_other 8 (inner m e3 i2) 8 (pt_at m e2 q) entry r1
            (g.apart2 _ small)
          ∙ taken-HasTables.pd;
    }

    palloc_kept :
        (w : ℕ)
        → (w < m.allocator.mem_palloc_start)
          ⊎ ((e : MemorymapEntry) (t : ℕ)
              → At m.allocator.memorymap m.allocator.mem_palloc_start e t
              → is_ram e ≡ true
              → t + pages e / 8 ≤ w)
        → read8 w r1 ≡ read8 w r
    palloc_kept w (inl below) =
        let up =
          At-le m.allocator.memorymap m.allocator.mem_palloc_start a.entry a.table a.at g.reach in
        a.elsewhere w (inl (omega (arith, up, below)))
    palloc_kept w (inr above) =
        let le = above a.entry a.table a.at a.ram in
        let fits = a.fits in a.elsewhere w (inr (omega (arith, le, fits)))

    entered-Frame : Frame m e2 r r2
    entered-Frame w (off, out) =
        let up = table_below m n e4 e3 e2 i3 i2 g in
        ap (λ (t : ℕ). t % 256)
          (write_bytes-other 8 (pt_at m e2 q) entry w r1 (omega (arith, small, up, out)))
        ∙ palloc_kept w off

    entered-Mapping :
        mem_palloc m.allocator 1 r ≡ (some p, r1)
        → page_trace_pml4 m.paging q r2 ≡ mapped (bit_and p m.paging.page_map_filter)
        → (q' : ℕ) → InRegion m i3 i2 q'
        → Mapping m e2 q' r r2
    entered-Mapping given own q' at' =
        elim (Bool-cases (
          index_pt (bit_and q' m.paging.page_map_filter)
          == index_pt (bit_and q m.paging.page_map_filter))) [
            | inl same ↦
                let is : index_pt (bit_and q' m.paging.page_map_filter)
                    ≡ index_pt (bit_and q m.paging.page_map_filter) =
                  ground arith in
                let both = λ (w : Mem) (t : HasTables m e4 e3 e2 i3 i2 w).
                  trace_same m n e4 e3 e2 i3 i2 g q q' w w t t at at' (
                    ap (λ (i : ℕ). read64 (entry_at (bit_and e2 m.paging.page_map_filter) i) w)
                      is) in
                inr (
                  (code, both r h ∙ lost),
                  (p, r, r1, (λ w off. refl), given, both r2 entered-HasTables ∙ own),
                )
            | inr other ↦ inl (
                trace_same m n e4 e3 e2 i3 i2 g q' q' r r2 h entered-HasTables at' at' (
                  read_bytes-write_bytes_other 8 (pt_at m e2 q') 8 (pt_at m e2 q) entry r1 (
                    entries-Apart n m.paging.page_map_filter e2
                      (index_pt (bit_and q' m.paging.page_map_filter))
                      (index_pt (bit_and q m.paging.page_map_filter)) g.filter_eq g.width
                      (index_pt-lt (bit_and q' m.paging.page_map_filter)) small (ground arith))
                  ∙ kept1 (pt_at m e2 q')
                      (g.off1 _ (index_pt-lt (bit_and q' m.paging.page_map_filter)))))
          ]

  -- How the check of one page ends.
  abbrev pub Step : ℕ → Mem → Run (Unit {0}) → Type 0
  Step q r out =
      ((r' : Mem) × (p : ℕ) × (out ≡ done tt (with_state m r' p))
        × Progress r r'
        × ((x : ℕ) × (page_trace_pml4 m.paging q r' ≡ mapped x)))
      ⊎ Stopped r q out

  pub check_one-Step :
      (q p0 : ℕ) (r : Mem)
      → HasTables m e4 e3 e2 i3 i2 r
      → InRegion m i3 i2 q
      → Step q r (check_one alloc q (with_state m r p0))
  unfolding check_one
  check_one-Step q p0 r h at = elim (Walk-cases (page_trace_pml4 m.paging q r)) [
    | inl (x, found) ↦
        inl
          (r, x, rw (found, check_one) refl, (h, (λ w off. refl), (λ q' at'. inl refl)), (x, found))
    | inr (code, lost) ↦
        by_palloc code lost (mem_palloc m.allocator 1 r) refl
          (mem_palloc-Outcome m.allocator 1 r g.reach (omega arith))
  ]
    where
      by_palloc :
          (code : ℕ)
          → page_trace_pml4 m.paging q r ≡ missing code
          → (o : Option ℕ × Mem) → mem_palloc m.allocator 1 r ≡ o
          → Outcome m.allocator.memorymap m.allocator.mem_palloc_start 1 r o
          → Step q r (check_one alloc q (with_state m r p0))
      by_palloc code lost (some p, r1) e a =
          let lem =
            page_trace_pml4-page_map_pml4 alloc q p 1 0 n e4 e3 e2 (top_of m) (pt_at m e2 q)
              (with_state m r1 p) (omega arith)
              (region-IsReady m n e4 e3 e2 i3 i2 g q p r1
                (taken-HasTables q p0 p r r1 h at code lost a) at)
              at.0 in
          inl (
            r2 q p0 p r r1 h at code lost a,
            p,
            rw (lost, check_one) rw e rw e (lem.0),
            (
              entered-HasTables q p0 p r r1 h at code lost a,
              entered-Frame q p0 p r r1 h at code lost a,
              entered-Mapping q p0 p r r1 h at code lost a e (lem.1),
            ),
            (_, lem.1),
          )
      by_palloc code lost (none, r1) e (same, full) =
          let stop = out_of_memory-halted (with_state m r1 p0) in
          inr (stop.0, rw (lost, check_one) rw e rw e (stop.1), (code, lost), full)
