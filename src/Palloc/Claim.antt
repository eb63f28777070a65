-- ===== src/Palloc/Claim.antt =====
-- How `mem_palloc_init` takes the pages of the kernel.
use os_v.Base.{
  ℕ, ◌+◌, ◌-◌, ◌/◌, ◌^◌, ◌≤◌, ◌<◌, ◌≡◌, refl, inl, inr, true, false, some, List, [], ◌∷◌,
  Bool-cases, if◌then◌else◌, u64, arith, ap,
}
use os_v.Base.Bits.{clear_bit}
use os_v.Memory.{Mem}
use os_v.Palloc.{MemorymapEntry, is_ram, pages, advance, mark_pages}
use os_v.Palloc.Bitmap.{Reaches}
use os_v.Palloc.Alloc.{At, IsMapped}
use os_v.Palloc.Init.{has_kernel, claim_kernel}

-- No RAM entry passes the end of the address space.
abbrev pub Bounded : List MemorymapEntry → Type 0
Bounded [] = Unit {0}
Bounded (e ∷ es) = (is_ram e ≡ true → e.base + e.length < 2 ^ 64) × Bounded es

-- The entry in which the kernel was found, and what was done there.
pub record Claimed (es : List MemorymapEntry) (tbl paddr_start paddr_end n : ℕ) (m r : Mem)
    : Type 0 where
  pub entry : MemorymapEntry
  pub table : ℕ
  pub at : At es tbl entry table
  pub ram : is_ram entry ≡ true
  pub lower : entry.base ≤ paddr_start
  pub upper : paddr_end ≤ entry.base + entry.length
  pub reaches : Reaches table (pages entry)
  pub marked : r ≡ mark_pages clear_bit n table ((paddr_start - entry.base) / 0x1000) m

module _ (paddr_start paddr_end n : ℕ) (m : Mem) where
  claim_next :
      (e : MemorymapEntry) (tbl : ℕ)
      → (if is_ram e then u64 (tbl + e.length / 0x8000) else tbl) ≡ advance e tbl
  unfolding advance
  claim_next e tbl = ground arith

  -- An entry with the kernel is not one without it.
  later :
      (e : MemorymapEntry) (es : List MemorymapEntry) (tbl : ℕ) (x : MemorymapEntry) (t : ℕ)
      → At (e ∷ es) tbl x t
      → has_kernel x paddr_start paddr_end ≡ true
      → has_kernel e paddr_start paddr_end ≡ false
      → At es (advance e tbl) x t
  later e es tbl x t (inl (is, here)) has other =
      absurd (ground (arith, ap (λ (y : MemorymapEntry). has_kernel y paddr_start paddr_end) is))
  later e es tbl x t (inr at) has other = at

  pub claim_kernel-Claimed :
      (es : List MemorymapEntry) (tbl : ℕ) (x : MemorymapEntry) (t : ℕ)
      → At es tbl x t
      → has_kernel x paddr_start paddr_end ≡ true
      → IsMapped es tbl
      → Bounded es
      → (r : Mem) × (claim_kernel es tbl paddr_start paddr_end n m ≡ some r)
        × Claimed es tbl paddr_start paddr_end n m r
  unfolding claim_kernel
  claim_kernel-Claimed [] tbl x t at has h b = absurd at
  claim_kernel-Claimed (e ∷ es) tbl x t at has h b =
      elim (Bool-cases (has_kernel e paddr_start paddr_end)) [
        | inl here ↦
            let is : is_ram e ≡ true = unfold has_kernel in ground arith in
            let top = b.0 is in
            let low : e.base ≤ paddr_start = unfold has_kernel in ground arith in
            let high : paddr_end ≤ e.base + e.length = unfold has_kernel in ground arith in
            rw (here, claim_kernel)
              ((
                mark_pages clear_bit n tbl ((paddr_start - e.base) / 0x1000) m,
                refl,
                record {
                  entry = e;
                  table = tbl;
                  at = inl (refl, refl);
                  ram = is;
                  lower = low;
                  upper = high;
                  reaches = h.0 is;
                  marked = refl;
                },
              ))
        | inr other ↦
            let next = claim_next e tbl in
            let found =
              claim_kernel-Claimed es (advance e tbl) x t (later e es tbl x t at has other) has h.1
                b.1 in
            let c = found.2 in
            rw (other, claim_kernel) rw next
              ((
                found.0,
                found.1,
                record {
                  entry = c.entry;
                  table = c.table;
                  at = inr c.at;
                  ram = c.ram;
                  lower = c.lower;
                  upper = c.upper;
                  reaches = c.reaches;
                  marked = c.marked;
                },
              ))
      ]
