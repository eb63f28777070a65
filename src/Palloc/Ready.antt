-- ===== src/Palloc/Ready.antt =====
-- What `mem_palloc_init` establishes.
use os_v.Base.{
  ℕ, ◌+◌, ◌-◌, ◌/◌, ◌%◌, ◌^◌, ◌≤◌, ◌<◌, ◌≡◌, refl, ◌⊎◌, inl, inr, ◌*◌, true, ltb, Bool-cases,
  Option, some, u64, arith, ◌∙◌,
}
use os_v.Base.Bits.{clear_bit, bit-clear_bit, bit-ones}
use os_v.Memory.{Mem, read8}
use os_v.Palloc.{MemorymapEntry, is_ram, mark_pages}
use os_v.Palloc.Entries.{At-le}
use os_v.Palloc.Bitmap.{page_bit, Reaches, page_bit-shift, page_bit-mark_pages, read8-mark_pages}
use os_v.Palloc.Alloc.{At, IsMapped}
use os_v.Palloc.Init.{
  fill_loop, fill_loop_lem, has_kernel, claim_kernel, new_kernelend, with_table, mem_palloc_init,
  filled_ram, end_after,
}
use os_v.Machine.{Machine, ram, with_ram, done}
use os_v.Paging.{mapped, page_trace_pml4}
use os_v.Palloc.Claim.{Bounded, Claimed, claim_kernel-Claimed}

-- The number in the bitmap of the kernel's first page, which is in `entry`, whose part is at `table`.
abbrev pub first_bit : ℕ → MemorymapEntry → ℕ → ℕ → ℕ
first_bit kernelend entry table paddr_start =
    8 * (table - kernelend) + (paddr_start - entry.base) / 0x1000

-- The bitmap after `mem_palloc_init`: the end of the kernel is that of a page and beyond the bitmap,
-- the pages of the kernel, which lie in a RAM entry, are taken, every other bit of the bitmap is set,
-- be it of a page of that entry or of another one, and no byte has changed but those of the bitmap and
-- of the kernel's pages in it, nor any other part of the state.
pub record Ready (m m' : Machine) (kernelstart kernelend end paddr_start : ℕ) : Type 0 where
  pub entry : MemorymapEntry
  pub table : ℕ
  pub at : At m.allocator.memorymap kernelend entry table
  pub entry_ram : is_ram entry ≡ true
  pub lower : entry.base ≤ paddr_start
  pub upper : paddr_start + (end - kernelstart) ≤ entry.base + entry.length
  pub behind : kernelend ≤ table
  pub globals : m'.allocator ≡ with_table kernelend m.allocator
  pub others : m' ≡ record (with_ram (ram m') m) { allocator = with_table kernelend m.allocator }
  pub aligned : end % 0x1000 ≡ 0
  pub beyond : kernelend + m'.allocator.mem_palloc_size < end
  pub taken :
      (k : ℕ)
      → (paddr_start - entry.base) / 0x1000 ≤ k
      → k < (paddr_start - entry.base) / 0x1000 + (end - kernelstart) / 0x1000
      → page_bit table k (ram m') ≡ 0
  pub free :
      (j : ℕ)
      → j / 8 < m'.allocator.mem_palloc_size
      → (j < first_bit kernelend entry table paddr_start)
        ⊎ (first_bit kernelend entry table paddr_start + (end - kernelstart) / 0x1000 ≤ j)
      → page_bit kernelend j (ram m') ≡ 1
  pub elsewhere :
      (q : ℕ)
      → (q < kernelend) ⊎ (kernelend + m'.allocator.mem_palloc_size ≤ q)
      → (q < table + (paddr_start - entry.base) / 0x1000 / 8)
        ⊎ (table + ((paddr_start - entry.base) / 0x1000 + (end - kernelstart) / 0x1000 + 7) / 8 ≤ q)
      → read8 q (ram m') ≡ read8 q (ram m)

pub new_kernelend_lem :
    (kernelend size : ℕ)
    → kernelend + size + 0x1001 < 2 ^ 64
    → (new_kernelend kernelend size % 0x1000 ≡ 0)
      × (kernelend + size < new_kernelend kernelend size)
      × (new_kernelend kernelend size < 2 ^ 64)
unfolding new_kernelend
new_kernelend_lem kernelend size h = (omega arith, omega arith, omega arith)

module _ (kernelstart kernelend paddr_start : ℕ) (m : Machine) where
  abbrev table_size : ℕ
  table_size = (with_table kernelend m.allocator).mem_palloc_size

  abbrev kernel_end : ℕ
  kernel_end = new_kernelend kernelend table_size

  abbrev filled : Mem
  filled = fill_loop table_size 0 kernelend (ram m)

  abbrev kernel_pages : ℕ
  kernel_pages = (kernel_end - kernelstart) / 0x1000

  abbrev after : Mem → Machine
  after r = record (with_ram r m) { allocator = with_table kernelend m.allocator }

  module _ (first : page_trace_pml4 m.paging kernelstart filled ≡ mapped paddr_start)
      (last : page_trace_pml4 m.paging kernel_end filled
        ≡ mapped (paddr_start + (kernel_end - kernelstart)))
      (count : u64 (kernel_end + (2 ^ 64 - kernelstart)) / 0x1000 ≡ kernel_pages) where
    abbrev claimed : Option Mem
    claimed =
        claim_kernel m.allocator.memorymap kernelend paddr_start
          (paddr_start + (kernel_end - kernelstart)) kernel_pages filled

    run_done :
        (r : Mem)
        → claimed ≡ some r
        → mem_palloc_init kernelstart kernelend m ≡ done kernel_end (after r)
    unfolding mem_palloc_init with_table
    run_done r found = rw (first, mem_palloc_init) rw last rw count rw found refl

  filled-page_bit :
      (t k : ℕ)
      → kernelend + table_size < 2 ^ 64
      → kernelend ≤ t + k / 8
      → t + k / 8 < kernelend + table_size
      → page_bit t k filled ≡ 1
  filled-page_bit t k room lo hi =
      let byte : read8 (t + k / 8) filled ≡ 0xFF =
        fill_loop_lem table_size 0 kernelend (ram m) (t + k / 8) (omega arith) ∙ ground arith in
      rw byte (bit-ones (k % 8) (omega arith))

  -- A bit of the bitmap that is not of the kernel's pages, which begin with bit `start` of the part at `t`.
  free_bit :
      (t start j : ℕ)
      → kernelend + table_size < 2 ^ 64
      → kernelend ≤ t
      → Reaches t (start + kernel_pages)
      → kernel_pages < 2 ^ 31
      → j / 8 < table_size
      → (j < 8 * (t - kernelend) + start) ⊎ (8 * (t - kernelend) + start + kernel_pages ≤ j)
      → page_bit kernelend j (mark_pages clear_bit kernel_pages t start filled) ≡ 1
  free_bit t start j room up within few inside out =
      elim (Bool-cases (ltb j (8 * (t - kernelend)))) [
        | inl before ↦
            let byte : read8 (kernelend + j / 8) (mark_pages clear_bit kernel_pages t start filled)
                ≡ 0xFF =
              read8-mark_pages clear_bit 0 bit-clear_bit kernel_pages t start (kernelend + j / 8)
                filled within few (ground arith)
              ∙ fill_loop_lem table_size 0 kernelend (ram m) (kernelend + j / 8) (omega arith)
              ∙ ground arith in
            rw byte (bit-ones (j % 8) (omega arith))
        | inr from ↦
            let k : ℕ = j - 8 * (t - kernelend) in
            let place : j ≡ 8 * (t - kernelend) + k = ground arith in
            let table : kernelend + (t - kernelend) ≡ t = omega arith in
            let apart : (k < start) ⊎ (start + kernel_pages ≤ k) = ground arith in
            let own : page_bit t k (mark_pages clear_bit kernel_pages t start filled) ≡ 1 =
              page_bit-mark_pages clear_bit 0 bit-clear_bit kernel_pages t start k filled within few
              ∙ ground (arith, filled-page_bit t k room (ground arith) (ground arith)) in
            rw place (
              page_bit-shift kernelend (t - kernelend) k
                (mark_pages clear_bit kernel_pages t start filled)
              ∙ rw table own)
      ]

  Claimed-Ready :
      (r : Mem)
      → kernelend + table_size + 0x1001 < 2 ^ 64
      → kernelstart ≤ kernelend
      → IsMapped m.allocator.memorymap kernelend
      → kernel_pages < 2 ^ 31
      → Claimed m.allocator.memorymap kernelend paddr_start
          (paddr_start + (kernel_end - kernelstart))
          kernel_pages
          filled
          r
      → Ready m (after r) kernelstart kernelend kernel_end paddr_start
  Claimed-Ready r room order reach few_pages c =
      let at = new_kernelend_lem kernelend table_size room in
      let lower = c.lower in
      let upper = c.upper in
      let (near, few) = c.reaches in
      let start = (paddr_start - c.entry.base) / 0x1000 in
      let within : Reaches c.table (start + kernel_pages) = (omega arith, omega arith) in
      let up = At-le m.allocator.memorymap kernelend c.entry c.table c.at reach in
      record {
        entry = c.entry;
        table = c.table;
        at = c.at;
        entry_ram = c.ram;
        lower = lower;
        upper = upper;
        behind = up;
        globals = refl;
        others = refl;
        aligned = at.0;
        beyond = at.1;
        taken = λ k lo hi. rw c.marked (
            page_bit-mark_pages clear_bit 0 bit-clear_bit kernel_pages c.table start k filled within
              few_pages
            ∙ ground arith);
        free = λ j inside out.
            rw c.marked (free_bit c.table start j (omega arith) up within few_pages inside out);
        elsewhere = λ q off apart. rw c.marked (
            read8-mark_pages clear_bit 0 bit-clear_bit kernel_pages c.table start q filled within
              few_pages (omega arith)
            ∙ fill_loop_lem table_size 0 kernelend (ram m) q (omega arith)
            ∙ ground arith);
      }

-- Where the pages at the start and the new end of the kernel are mapped, physically as far apart as
-- linearly, fewer than 2 ^ 31 pages, and a RAM entry of the memory map has all of them, in a memory map
-- whose bitmap is within reach and whose RAM does not pass the end of the address space,
-- `mem_palloc_init` returns. The end of the kernel is then that of a page and beyond the bitmap, the
-- kernel's pages, in a RAM entry, are taken, every other bit of the bitmap is set, and no byte has
-- changed but those of the bitmap and of the kernel's pages in it, nor any other part of the state.
pub mem_palloc_init-Ready :
    (kernelstart kernelend paddr_start : ℕ) (m : Machine) (e : MemorymapEntry) (t : ℕ)
    → kernelend + (with_table kernelend m.allocator).mem_palloc_size + 0x1001 < 2 ^ 64
    → kernelstart ≤ kernelend
    → (end_after kernelend m - kernelstart) / 0x1000 < 2 ^ 31
    → page_trace_pml4 m.paging kernelstart (filled_ram kernelend m) ≡ mapped paddr_start
    → page_trace_pml4 m.paging (end_after kernelend m) (filled_ram kernelend m)
      ≡ mapped (paddr_start + (end_after kernelend m - kernelstart))
    → At m.allocator.memorymap kernelend e t
    → has_kernel e paddr_start (paddr_start + (end_after kernelend m - kernelstart)) ≡ true
    → IsMapped m.allocator.memorymap kernelend
    → Bounded m.allocator.memorymap
    → (m' : Machine) × (mem_palloc_init kernelstart kernelend m ≡ done (end_after kernelend m) m')
      × Ready m m' kernelstart kernelend (end_after kernelend m) paddr_start
mem_palloc_init-Ready kernelstart kernelend paddr_start m e t room order few first last at has reach
      bound =
    let end = end_after kernelend m in
    let lem = new_kernelend_lem kernelend (with_table kernelend m.allocator).mem_palloc_size room in
    let count : u64 (end + (2 ^ 64 - kernelstart)) / 0x1000 ≡ (end - kernelstart) / 0x1000 =
      omega (arith, lem.1, lem.2) in
    let found =
      claim_kernel-Claimed paddr_start (paddr_start + (end - kernelstart))
        ((end - kernelstart) / 0x1000) (filled_ram kernelend m) m.allocator.memorymap kernelend e t
        at has reach bound in
    (
      after kernelstart kernelend paddr_start m found.0,
      run_done kernelstart kernelend paddr_start m first last count found.0 found.1,
      Claimed-Ready kernelstart kernelend paddr_start m found.0 room order reach few found.2,
    )
