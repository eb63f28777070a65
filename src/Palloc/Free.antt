-- ===== src/Palloc/Free.antt =====
-- `mem_pfree`: which bits it sets, when it refuses, and that it undoes `mem_palloc`.
use os_v.Base.{
  ℕ, ◌+◌, ◌-◌, ◌*◌, ◌/◌, ◌^◌, ◌≤◌, ◌<◌, ◌≡◌, refl, ◌⊎◌, inl, inr, Bool, true, false, ◌&&◌, List, [],
  ◌∷◌, arith, ltb, leb, Bool-cases, if◌then◌else◌,
}
use os_v.Base.Bits.{set_bit, bit-set_bit}
use os_v.Memory.{Mem, read8}
use os_v.Palloc.{
  MemorymapEntry, is_ram, pages, advance, mark_pages, covers, pfree_loop, PageAllocator, mem_pfree,
}
use os_v.Palloc.Bitmap.{page_bit, Reaches, page_bit-mark_pages, read8-mark_pages}
use os_v.Palloc.Alloc.{At, IsMapped}

abbrev pub end_of : MemorymapEntry → ℕ
end_of e = e.base + pages e * 0x1000

abbrev pub AllApart : MemorymapEntry → List MemorymapEntry → Type 0
AllApart e [] = Unit {0}
AllApart e (x ∷ es) = (is_ram x ≡ true → (end_of e ≤ x.base) ⊎ (end_of x ≤ e.base)) × AllApart e es

-- The RAM entries lie below 2 ^ 64, and no two of them overlap.
abbrev pub IsPlaced : List MemorymapEntry → Type 0
IsPlaced [] = Unit {0}
IsPlaced (e ∷ es) = (is_ram e ≡ true → (end_of e < 2 ^ 64) × AllApart e es) × IsPlaced es

-- The `n` pages from `address` on were given back, and nothing else changed.
pub record Freed (es : List MemorymapEntry) (tbl address n : ℕ) (m m' : Mem) : Type 0 where
  pub entry : MemorymapEntry
  pub table : ℕ
  pub at : At es tbl entry table
  pub ram : is_ram entry ≡ true
  pub starts : entry.base ≤ address
  pub ends : address + n * 0x1000 ≤ end_of entry
  pub marked :
      (k : ℕ)
      → page_bit table k m' ≡ (
          if leb ((address - entry.base) / 0x1000) k && ltb k ((address - entry.base) / 0x1000 + n)
          then 1
          else page_bit table k m)
  pub elsewhere :
      (q : ℕ)
      → (q < table + (address - entry.base) / 0x1000 / 8)
        ⊎ (table + ((address - entry.base) / 0x1000 + n + 7) / 8 ≤ q)
      → read8 q m' ≡ read8 q m

abbrev pub FreeOutcome : List MemorymapEntry → ℕ → ℕ → ℕ → Mem → Bool × Mem → Type 0
FreeOutcome es tbl address n m (true, m') = Freed es tbl address n m m'
FreeOutcome es tbl address n m (false, m') =
    (m' ≡ m)
    × ((e : MemorymapEntry) (t : ℕ)
        → At es tbl e t
        → is_ram e ≡ true
        → (address < e.base) ⊎ (end_of e < address + n * 0x1000))

module _ (address n : ℕ) (m : Mem) (below : address + n * 0x1000 < 2 ^ 64) where
  covers-inside :
      (e : MemorymapEntry)
      → (is_ram e ≡ true → end_of e < 2 ^ 64)
      → covers e address n ≡ true
      → (is_ram e ≡ true) × (e.base ≤ address) × (address + n * 0x1000 ≤ end_of e)
  unfolding covers
  covers-inside e h c = ground (arith, h)

  pub covers-outside :
      (e : MemorymapEntry)
      → (is_ram e ≡ true → end_of e < 2 ^ 64)
      → covers e address n ≡ false
      → is_ram e ≡ true
      → (address < e.base) ⊎ (end_of e < address + n * 0x1000)
  unfolding covers
  covers-outside e h c ram = ground (arith, h ram)

  pub inside-covers :
      (e : MemorymapEntry)
      → end_of e < 2 ^ 64
      → is_ram e ≡ true
      → e.base ≤ address
      → address + n * 0x1000 ≤ end_of e
      → covers e address n ≡ true
  unfolding covers
  inside-covers e h ram lo hi = ground arith

  module _ (e : MemorymapEntry) (es : List MemorymapEntry) (tbl : ℕ) where
    pub pfree_loop-true :
        covers e address n ≡ true
        → pfree_loop (e ∷ es) tbl address n m
          ≡ (true, mark_pages set_bit n tbl ((address - e.base) / 0x1000) m)
    unfolding pfree_loop
    pfree_loop-true h = rw (h, pfree_loop)

    pub pfree_loop-false :
        covers e address n ≡ false
        → pfree_loop (e ∷ es) tbl address n m ≡ pfree_loop es (advance e tbl) address n m
    unfolding pfree_loop
    pfree_loop-false h = rw (h, pfree_loop)

    give_back :
        n < 2 ^ 31
        → Reaches tbl (pages e)
        → is_ram e ≡ true
        → e.base ≤ address
        → address + n * 0x1000 ≤ end_of e
        → Freed (e ∷ es) tbl address n m (mark_pages set_bit n tbl ((address - e.base) / 0x1000) m)
    give_back few reaches ram lo hi = record {
      entry = e;
      table = tbl;
      at = inl (refl, refl);
      ram = ram;
      starts = lo;
      ends = hi;
      marked = λ k. ground (
        arith,
        page_bit-mark_pages set_bit 1 bit-set_bit n tbl ((address - e.base) / 0x1000) k m,
      );
      elsewhere = λ q out.
          ground
            (arith, read8-mark_pages set_bit 1 bit-set_bit n tbl ((address - e.base) / 0x1000) q m);
    }

    go_on :
        (o : Bool × Mem)
        → (is_ram e ≡ true → (address < e.base) ⊎ (end_of e < address + n * 0x1000))
        → FreeOutcome es (advance e tbl) address n m o
        → FreeOutcome (e ∷ es) tbl address n m o
    go_on (true, m') here f = record {
      entry = f.entry;
      table = f.table;
      at = inr f.at;
      ram = f.ram;
      starts = f.starts;
      ends = f.ends;
      marked = f.marked;
      elsewhere = f.elsewhere;
    }
    go_on (false, m') here (same, none_covers) = (same, none_covers')
      where
        none_covers' :
            (x : MemorymapEntry) (t : ℕ)
            → At (e ∷ es) tbl x t
            → is_ram x ≡ true
            → (address < x.base) ⊎ (end_of x < address + n * 0x1000)
        none_covers' x t (inl (ex, et)) ram = rw (← ex) (here (ground arith))
        none_covers' x t (inr later) ram = none_covers x t later ram

  pfree_loop-FreeOutcome :
      (es : List MemorymapEntry) (tbl : ℕ)
      → n < 2 ^ 31
      → IsMapped es tbl
      → IsPlaced es
      → FreeOutcome es tbl address n m (pfree_loop es tbl address n m)
  pfree_loop-FreeOutcome [] tbl few h p = unfold pfree_loop in (refl, λ e t at ram. absurd at)
  pfree_loop-FreeOutcome (e ∷ es) tbl few h p = elim (Bool-cases (covers e address n)) [
    | inl yes_ ↦
        let (ram, lo, hi) = covers-inside e (λ r. (p.0 r).0) yes_ in
        rw (pfree_loop-true e es tbl yes_) (give_back e es tbl few (h.0 ram) ram lo hi)
    | inr no_ ↦ rw (pfree_loop-false e es tbl no_) (
        go_on e es tbl _ (covers-outside e (λ r. (p.0 r).0) no_)
          (pfree_loop-FreeOutcome es (advance e tbl) few h.1 p.1))
  ]

-- `mem_pfree`, over a memory map whose bitmap is within reach and whose RAM entries do not
-- overlap, for fewer than 2 ^ 31 pages (they are counted in an `int`), below 2 ^ 64. When it returns 0, the pages lie in a RAM entry; afterwards
-- their bits, and no others, are set, and no other byte of memory has changed. When it returns 1,
-- memory is as it was, and no RAM entry holds all of the pages.
pub mem_pfree-FreeOutcome :
    (g : PageAllocator) (address n : ℕ) (m : Mem)
    → IsMapped g.memorymap g.mem_palloc_start
    → IsPlaced g.memorymap
    → n < 2 ^ 31
    → address + n * 0x1000 < 2 ^ 64
    → FreeOutcome g.memorymap g.mem_palloc_start address n m (mem_pfree g address n m)
mem_pfree-FreeOutcome g address n m h p few below =
    unfold mem_pfree in
    pfree_loop-FreeOutcome address n m below g.memorymap g.mem_palloc_start few h p
