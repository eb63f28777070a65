-- ===== src/Palloc/RoundTrip.antt =====
-- `mem_pfree` after `mem_palloc`.
use os_v.Base.{
  ℕ, ◌+◌, ◌-◌, ◌*◌, ◌/◌, ◌^◌, ◌≤◌, ◌<◌, ◌≡◌, ◌⊎◌, inl, inr, true, false, some, List, [], ◌∷◌, arith,
  ltb, Bool-cases, ◌∙◌, ap,
}
use os_v.Base.Bits.{set_bit, bit-set_bit}
use os_v.Memory.{Mem, read8}
use os_v.Palloc.{
  MemorymapEntry, is_ram, pages, advance, mark_pages, covers, pfree_loop, PageAllocator, mem_palloc,
  mem_pfree,
}
use os_v.Palloc.Bitmap.{
  page_bit, Reaches, page_bit-mark_pages, read8-mark_pages, read8_of_page_bits,
}
use os_v.Palloc.Alloc.{At, IsMapped, Allocated, mem_palloc-Outcome}
use os_v.Palloc.Free.{end_of, AllApart, IsPlaced, inside-covers, pfree_loop-true, pfree_loop-false}

pub At-mapped :
    (es : List MemorymapEntry) (tbl : ℕ) (e : MemorymapEntry) (t : ℕ)
    → At es tbl e t
    → IsMapped es tbl
    → is_ram e ≡ true
    → Reaches t (pages e)
At-mapped [] tbl e t at h ram = absurd at
At-mapped (x ∷ es) tbl e t (inl (ex, et)) h ram = rw (← ex, ← et) (h.0 (ground arith))
At-mapped (x ∷ es) tbl e t (inr later) h ram = At-mapped es (advance x tbl) e t later h.1 ram

pub At-below :
    (es : List MemorymapEntry) (tbl : ℕ) (e : MemorymapEntry) (t : ℕ)
    → At es tbl e t
    → IsPlaced es
    → is_ram e ≡ true
    → end_of e < 2 ^ 64
At-below [] tbl e t at p ram = absurd at
At-below (x ∷ es) tbl e t (inl (ex, et)) p ram = rw (← ex) (p.0 (ground arith)).0
At-below (x ∷ es) tbl e t (inr later) p ram = At-below es (advance x tbl) e t later p.1 ram

pub At-apart :
    (x : MemorymapEntry) (es : List MemorymapEntry) (tbl : ℕ) (e : MemorymapEntry) (t : ℕ)
    → At es tbl e t
    → AllApart x es
    → is_ram e ≡ true
    → (end_of x ≤ e.base) ⊎ (end_of e ≤ x.base)
At-apart x [] tbl e t at p ram = absurd at
At-apart x (y ∷ es) tbl e t (inl (ey, et)) p ram = rw (← ey) (p.0 (ground arith))
At-apart x (y ∷ es) tbl e t (inr later) p ram = At-apart x es (advance y tbl) e t later p.1 ram

module _ (address n : ℕ) (m : Mem) (below : address + n * 0x1000 < 2 ^ 64) (pos : 0 < n)
    (e : MemorymapEntry) (ram : is_ram e ≡ true) (lo : e.base ≤ address)
    (hi : address + n * 0x1000 ≤ end_of e) where
  -- An entry that does not overlap the one that holds the pages does not hold them.
  not_covers :
      (x : MemorymapEntry)
      → (is_ram x ≡ true → (end_of x < 2 ^ 64) × ((end_of x ≤ e.base) ⊎ (end_of e ≤ x.base)))
      → covers x address n ≡ false
  unfolding covers
  not_covers x apart = elim (Bool-cases (is_ram x)) [
    | inl r ↦ ground (arith, apart r)
    | inr r ↦ ground arith
  ]

  -- So the search of `mem_pfree` ends at that entry.
  pfree_loop-At :
      (es : List MemorymapEntry) (tbl t : ℕ)
      → At es tbl e t
      → IsPlaced es
      → pfree_loop es tbl address n m
        ≡ (true, mark_pages set_bit n t ((address - e.base) / 0x1000) m)
  pfree_loop-At [] tbl t at p = absurd at
  pfree_loop-At (x ∷ es) tbl t (inl (ex, et)) p =
      let below_x : end_of x < 2 ^ 64 = (p.0 (ground arith)).0 in
      rw (← ex, ← et)
        (pfree_loop-true address n m below x es tbl
          (inside-covers address n m below x below_x (ground arith) (ground arith) (ground arith)))
  pfree_loop-At (x ∷ es) tbl t (inr later) p =
      pfree_loop-false address n m below x es tbl
        (not_covers x λ r. ((p.0 r).0, At-apart x es (advance x tbl) e t later (p.0 r).1 ram))
      ∙ pfree_loop-At es (advance x tbl) t later p.1

-- The pages of an allocation, given back, restore every byte of memory.
restores :
    (es : List MemorymapEntry) (tbl n address : ℕ) (m m' : Mem)
    → IsMapped es tbl
    → IsPlaced es
    → 0 < n
    → Allocated es tbl n m address m'
    → (m'' : Mem) × (pfree_loop es tbl address n m' ≡ (true, m''))
      × ((q : ℕ) → read8 q m'' ≡ read8 q m)
restores es tbl n address m m' h p pos a = (
  mark_pages set_bit n a.table a.first m',
  pfree_loop-At address n m' (omega (arith, small, hi)) pos a.entry a.ram lo hi es tbl a.table a.at
        p
      ∙ ap (λ (k : ℕ). (true, mark_pages set_bit n a.table k m')) offset,
  same,
)
  where
    reaches : Reaches a.table (pages a.entry)
    reaches = At-mapped es tbl a.entry a.table a.at h a.ram

    small : end_of a.entry < 2 ^ 64
    small = At-below es tbl a.entry a.table a.at p a.ram

    place : address ≡ a.entry.base + 0x1000 * a.first
    place = omega (arith, a.address_eq, a.fits, small)

    offset : (address - a.entry.base) / 0x1000 ≡ a.first
    offset = omega (arith, place)

    lo : a.entry.base ≤ address
    lo = omega (arith, place)

    hi : address + n * 0x1000 ≤ end_of a.entry
    hi = omega (arith, place, a.fits)

    back :
        (k : ℕ)
        → page_bit a.table k (mark_pages set_bit n a.table a.first m') ≡ page_bit a.table k m
    back k = ground (
      arith,
      reaches,
      a.fits,
      a.marked k,
      a.was_free k,
      page_bit-mark_pages set_bit 1 bit-set_bit n a.table a.first k m',
    )

    same : (q : ℕ) → read8 q (mark_pages set_bit n a.table a.first m') ≡ read8 q m
    same q = elim (Bool-cases (ltb q a.table)) [
      | inl before ↦ ground (
        arith,
        reaches,
        a.fits,
        a.elsewhere q,
        read8-mark_pages set_bit 1 bit-set_bit n a.table a.first q m',
      )
      | inr within ↦
          read8_of_page_bits a.table q (mark_pages set_bit n a.table a.first m') m (ground arith)
            back
    ]

-- Pages that `mem_palloc` returned can be given back: `mem_pfree` accepts them, and then every
-- byte of memory is what it was before the allocation.
pub mem_pfree-mem_palloc :
    (g : PageAllocator) (n address : ℕ) (m m' : Mem)
    → IsMapped g.memorymap g.mem_palloc_start
    → IsPlaced g.memorymap
    → 0 < n
    → mem_palloc g n m ≡ (some address, m')
    → (m'' : Mem) × (mem_pfree g address n m' ≡ (true, m'')) × ((q : ℕ) → read8 q m'' ≡ read8 q m)
mem_pfree-mem_palloc g n address m m' h p pos e =
    unfold mem_pfree in
    restores g.memorymap g.mem_palloc_start n address m m' h p pos
      (rw e at (mem_palloc-Outcome g n m h pos))
