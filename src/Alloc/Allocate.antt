-- ===== src/Alloc/Allocate.antt =====
-- `mem_alloc` behind the last block, with pages that are missing taken from the page allocator.
use os_v.Base.{
  ℕ, suc, ◌+◌, ◌-◌, ◌*◌, ◌/◌, ◌%◌, ◌^◌, ◌≤◌, ◌<◌, ◌≡◌, ◌≢◌, refl, ◌⊎◌, inl, inr, some, List, [],
  ◌∷◌, ◌++◌, Without, arith, u64, bit_and, ◌∙◌,
}
use os_v.Memory.{Mem, read8, read64}
use os_v.Memory.Laws.{read_bytes_cong}
use os_v.Machine.{Machine, ram, with_ram, Run, Cmd, done, halted}
use os_v.Palloc.Alloc.{NoRoom}
use os_v.Paging.{missing, mapped, page_trace_pml4}
use os_v.Alloc.{find_place, last, align_start, append_block, mem_alloc_check_page, mem_alloc}
use os_v.Alloc.Chain.{Block, Linked, find_place-last, Linked-append}
use os_v.Alloc.Pages.{align_start_lem}
use os_v.Alloc.Append.{
  appended, append_block-appended, appended-other, appended-next_last, appended-prev,
  appended-vaddr, appended-next, mem_alloc-last,
}
use os_v.Alloc.Owned.{Linked-same}
use os_v.Alloc.Region.{
  InRegion, top_of, inner, pt_at, Region, HasTables, IsElsewhere, Frame, with_state, index_pt-lt,
  trace_same,
}
use os_v.Alloc.TakePage.{Mapping, Mapping-trans}
use os_v.Alloc.OnDemand.{Ends, mem_alloc_check_page-Ends}

-- A word that is none of the bytes from `x` on and below `end`.
abbrev pub IsBeside : ℕ → ℕ → ℕ → Type 0
IsBeside x end a = (a + 8 ≤ x) ⊎ (end ≤ a)

-- The tables, the bitmap and the blocks are apart.
pub record Layout (m : Machine) (e4 e3 e2 i3 i2 x end : ℕ) (bs : List Block) : Type 0 where
  pub tails :
      (c : Block) (rest : List Block)
      → Without c bs rest
      → (q : ℕ) → c.tail ≤ q
      → q < c.tail + 24
      → IsElsewhere m e2 q
  pub beside4 : IsBeside x end (top_of m)
  pub beside3 : IsBeside x end (inner m e4 i3)
  pub beside2 : IsBeside x end (inner m e3 i2)
  pub beside1 : (i : ℕ) → i < 512 → IsBeside x end (inner m e2 i)

-- How the call ends: a block is returned, behind the last tail, at `x`, at a multiple of `align`; it is
-- the last of the list, all of its pages are mapped, each as it was before or, where it was missing, to a
-- page that `mem_palloc` returned, and no byte has changed but those of the bitmap, of
-- the page table, of the new tail and of the link to it. Or a page was missing when no page was free, the
-- kernel has halted, and up to there only the bitmap and the page table had changed.
abbrev pub Allocates : Machine → ℕ → ℕ → ℕ → ℕ → List Block → Run ℕ → Type 0
Allocates m e2 x size align bs out =
    ((s : ℕ) × (m' : Machine) × (out ≡ done s m')
      × (x + 24 ≤ s)
      × (s ≤ x + 24 + align)
      × (align ≢ 0 → s % align ≡ 0)
      × Linked (ram m') 0 0 m'.heap.mem_list_start
          (bs ++ record { start = s; tail = s + size } ∷ [])
      × ((q : ℕ)
          → s - 0xFFF ≤ q
          → q < s + size + 24
          → q % 0x1000 ≡ 0
          → ((y : ℕ) × (page_trace_pml4 m'.paging q (ram m') ≡ mapped y))
            × (m'.paging ≡ m.paging)
            × Mapping m e2 q (ram m) (ram m'))
      × ((q : ℕ)
          → IsElsewhere m e2 q
          → (q < x) ⊎ (x + 8 ≤ q)
          → (q < s + size) ⊎ (s + size + 24 ≤ q)
          → read8 q (ram m') ≡ read8 q (ram m)))
    ⊎ ((q : ℕ) × (r : Mem) × (m' : Machine) × (out ≡ halted m')
        × (x - 0xFFF ≤ q)
        × (q < x + align + size + 48)
        × Frame m e2 (ram m) r
        × ((code : ℕ) × (page_trace_pml4 m.paging q r ≡ missing code))
        × NoRoom m.allocator.memorymap m.allocator.mem_palloc_start 1 r)

append_block-halted :
    (alloc : ℕ → ℕ → Cmd ℕ) (size align x s : ℕ) (m m' : Machine)
    → align_start (u64 (x + 24)) align ≡ s
    → s + size + 24 < 2 ^ 64
    → mem_alloc_check_page alloc s (s + size + 24) m ≡ halted m'
    → append_block alloc size align x m ≡ halted m'
unfolding append_block
append_block-halted alloc size align x s m m' is room h =
    let add : u64 (s + size) ≡ s + size = omega arith in
    let end : u64 (s + size + 24) ≡ s + size + 24 = omega arith in rw is rw add rw end rw h refl

module _ (m : Machine) (n e4 e3 e2 i3 i2 x end : ℕ) (bs : List Block)
    (g : Region m n e4 e3 e2 i3 i2) (l : Layout m e4 e3 e2 i3 i2 x end bs) (s a : ℕ)
    (behind : x + 24 ≤ s) (order : s ≤ a) (inside : a + 24 ≤ end) (below : a + 24 ≤ 2 ^ 64)
    (r : Mem) where
  beside_kept : (w : ℕ) → IsBeside x end w → read64 w (appended x a s r) ≡ read64 w r
  beside_kept w out =
      read_bytes_cong 8 w (appended x a s r) r
        (λ q lo hi. appended-other x s a r behind order below q (omega arith) (omega arith))

  appended-HasTables : HasTables m e4 e3 e2 i3 i2 r → HasTables m e4 e3 e2 i3 i2 (appended x a s r)
  appended-HasTables h = record {
    pml4 = beside_kept (top_of m) l.beside4 ∙ h.pml4;
    pdpt = beside_kept (inner m e4 i3) l.beside3 ∙ h.pdpt;
    pd = beside_kept (inner m e3 i2) l.beside2 ∙ h.pd;
  }

  -- The stores to the tails leave the walks alone.
  appended-trace :
      (q : ℕ)
      → HasTables m e4 e3 e2 i3 i2 r
      → InRegion m i3 i2 q
      → page_trace_pml4 m.paging q (appended x a s r) ≡ page_trace_pml4 m.paging q r
  appended-trace q h at =
      trace_same m n e4 e3 e2 i3 i2 g q q r (appended x a s r) h (appended-HasTables h) at at (
        beside_kept (pt_at m e2 q) (l.beside1 _ (index_pt-lt (bit_and q m.paging.page_map_filter))))

module _ (depth walk size align x n e4 e3 e2 i3 i2 : ℕ) (m : Machine) (b : Block) (bs : List Block)
    (h : Linked (ram m) 0 0 m.heap.mem_list_start (b ∷ bs))
    (f : find_place walk size align m.heap.mem_list_start (ram m) ≡ some (last x))
    (room : x + align + size + 0x1030 < 2 ^ 64) (g : Region m n e4 e3 e2 i3 i2)
    (l : Layout m e4 e3 e2 i3 i2 x (x + align + size + 48) (b ∷ bs))
    (inside : (q : ℕ)
      → x - 0xFFF ≤ q
      → q < x + align + size + 48
      → q % 0x1000 ≡ 0
      → InRegion m i3 i2 q)
    (s : ℕ) (is : align_start (x + 24) align ≡ s) (behind : x + 24 ≤ s) (near : s ≤ x + 24 + align)
    (multiple : align ≢ 0 → s % align ≡ 0) where
  order : s ≤ s + size
  order = omega arith

  below : s + size + 24 ≤ 2 ^ 64
  below = omega arith

  within : s + size + 24 ≤ x + align + size + 48
  within = omega arith

  start_eq : align_start (u64 (x + 24)) align ≡ s
  start_eq = let step : u64 (x + 24) ≡ x + 24 = omega arith in rw step is

  list_after :
      (r : Mem)
      → Frame m e2 (ram m) r
      → Linked
          (appended x (s + size) s r)
          0
          0
          m.heap.mem_list_start
          ((b ∷ bs) ++ record { start = s; tail = s + size } ∷ [])
  list_after r frame =
      Linked-append r (appended x (s + size) s r) x (s + size) s behind order below
        (λ p lo out. appended-other x s (s + size) r behind order below p out (inl lo))
        (appended-next_last x s (s + size) r behind order below)
        (appended-prev x s (s + size) r behind order below)
        (appended-vaddr x s (s + size) r behind order below)
        (appended-next x s (s + size) r behind order below) 0 0 m.heap.mem_list_start b bs
        (Linked-same (ram m) r 0 0 m.heap.mem_list_start (b ∷ bs)
          (λ c rest w q lo hi. frame q (l.tails c rest w q lo hi)) h)
        (find_place-last walk size align 0 0 m.heap.mem_list_start (ram m) b bs x h f)

  by_check :
      Ends
        (mem_alloc depth walk)
        m
        n
        e4
        e3
        e2
        i3
        i2
        g
        (s / 0x1000 * 0x1000)
        (s + size + 24)
        (ram m)
        (mem_alloc_check_page (mem_alloc depth walk) s (s + size + 24) m)
      → Allocates m e2 x size align (b ∷ bs) (mem_alloc (suc depth) walk size align m)
  by_check (inl (r, p, e, (tables, frame, stays), all)) = inl (
    s,
    with_ram (appended x (s + size) s r) (with_state m r p),
    mem_alloc-last depth walk size align x m f
        ∙ append_block-appended (mem_alloc depth walk) size align x s m (with_state m r p) start_eq
            (omega arith) e,
    behind,
    near,
    multiple,
    list_after r frame,
    λ q lo hi a.
        let found = all q (omega arith) hi a in
        let at = inside q (omega arith) (omega arith) a in
        let same =
          appended-trace m n e4 e3 e2 i3 i2 x (x + align + size + 48) (b ∷ bs) g l s (s + size)
            behind order within below r q tables at in
        (
          (found.0, same ∙ found.1),
          refl,
          Mapping-trans m e2 q (ram m) r (appended x (s + size) s r) frame (stays q at) (inl same),
        ),
    λ q off ox oa. appended-other x s (s + size) r behind order below q ox oa ∙ frame q off,
  )
  by_check (inr (q, r, lo, hi, frame, (m', e, lost, full))) = inr (
    q,
    r,
    m',
    mem_alloc-last depth walk size align x m f
        ∙ append_block-halted (mem_alloc depth walk) size align x s m m' start_eq (omega arith) e,
    omega arith,
    omega arith,
    frame,
    lost,
    full,
  )

-- `mem_alloc` where the walk of a well-formed list ends at the last block, at tail `x`, and the pages
-- up to the end of the new tail are entries of one page table that is there, with index 0 at the top,
-- some of them mapped and some not; the bitmap of physical pages is within reach, the tables, the
-- bitmap and the blocks are apart, and no address overflows. It returns the new block, the last one of
-- the list, with all of its pages mapped: those that were mapped as they were, and each one that was
-- missing to a page that `mem_palloc` returned for it, called on a memory that differs from the first in
-- the bitmap and the page table only. It changes no byte but those of the bitmap, of the page table, of
-- the new tail and of the link to it; or one of the pages was missing when no page was free, and
-- the kernel has halted.
pub mem_alloc-Allocates :
    (depth walk size align x n e4 e3 e2 i3 i2 : ℕ) (m : Machine) (b : Block) (bs : List Block)
    → Linked (ram m) 0 0 m.heap.mem_list_start (b ∷ bs)
    → find_place walk size align m.heap.mem_list_start (ram m) ≡ some (last x)
    → x + align + size + 0x1030 < 2 ^ 64
    → Region m n e4 e3 e2 i3 i2
    → HasTables m e4 e3 e2 i3 i2 (ram m)
    → Layout m e4 e3 e2 i3 i2 x (x + align + size + 48) (b ∷ bs)
    → ((q : ℕ) → x - 0xFFF ≤ q → q < x + align + size + 48 → q % 0x1000 ≡ 0 → InRegion m i3 i2 q)
    → Allocates m e2 x size align (b ∷ bs) (mem_alloc (suc depth) walk size align m)
mem_alloc-Allocates depth walk size align x n e4 e3 e2 i3 i2 m b bs h f room g tables l inside =
    let at = align_start_lem (x + 24) align (omega arith) in
    let s : ℕ = align_start (x + 24) align in
    by_check depth walk size align x n e4 e3 e2 i3 i2 m b bs h f room g l inside s refl at.0 at.1
      at.2
      (mem_alloc_check_page-Ends (mem_alloc depth walk) m n e4 e3 e2 i3 i2 g s (s + size + 24)
        m.heap.paddr (ram m) (omega arith) (omega (arith, at.1))
        (λ q lo hi a. inside q (omega (arith, at.0)) (omega (arith, at.1)) a) tables)
