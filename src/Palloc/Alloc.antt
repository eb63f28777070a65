-- ===== src/Palloc/Alloc.antt =====
-- `mem_palloc`: which pages it takes, what it does to the bitmap, and when it fails.
use os_v.Base.{
  ℕ, ◌+◌, ◌*◌, ◌/◌, ◌≤◌, ◌<◌, ◌≡◌, refl, ◌⊎◌, inl, inr, true, ◌&&◌, Option, none, some, List, [],
  ◌∷◌, arith, ltb, leb, Bool-cases, if◌then◌else◌, u64,
}
use os_v.Base.Bits.{clear_bit, bit-clear_bit}
use os_v.Memory.{Mem, read8}
use os_v.Palloc.{
  MemorymapEntry, is_ram, pages, advance, mark_pages, Search, row, found, scan_entry, palloc_loop,
  PageAllocator, mem_palloc,
}
use os_v.Palloc.Bitmap.{page_bit, Reaches, page_bit-mark_pages, read8-mark_pages}
use os_v.Palloc.Scan.{Blocked, IsFound, Scanned, scan_bytes_lem}

-- `e` is an entry of the memory map whose part of the bitmap begins at `t`.
abbrev pub At : List MemorymapEntry → ℕ → MemorymapEntry → ℕ → Type 0
At [] tbl e t = ⊥
At (x ∷ es) tbl e t = ((x ≡ e) × (tbl ≡ t)) ⊎ At es (advance x tbl) e t

-- The bitmap of every RAM entry is within reach.
abbrev pub IsMapped : List MemorymapEntry → ℕ → Type 0
IsMapped [] tbl = Unit {0}
IsMapped (e ∷ es) tbl = (is_ram e ≡ true → Reaches tbl (pages e)) × IsMapped es (advance e tbl)

-- How many of an entry's pages the search looks at: an eighth of them, in whole bytes.
abbrev pub searched : MemorymapEntry → ℕ
searched e = pages e / 8 / 8 * 8

-- `n` free pages at `address` were taken, and nothing else changed.
pub record Allocated (es : List MemorymapEntry) (tbl n : ℕ) (m : Mem) (address : ℕ) (m' : Mem)
    : Type 0 where
  pub entry : MemorymapEntry
  pub table : ℕ
  pub first : ℕ
  pub at : At es tbl entry table
  pub ram : is_ram entry ≡ true
  pub address_eq : address ≡ u64 (entry.base + u64 (0x1000 * first))
  pub fits : first + n ≤ searched entry
  pub was_free : (k : ℕ) → first ≤ k → k < first + n → page_bit table k m ≡ 1
  pub first_fit : (s : ℕ) → s < first → Blocked n table m s
  pub marked :
      (k : ℕ)
      → page_bit table k m' ≡ (if leb first k && ltb k (first + n) then 0 else page_bit table k m)
  pub elsewhere :
      (q : ℕ) → (q < table + first / 8) ⊎ (table + (first + n + 7) / 8 ≤ q) → read8 q m' ≡ read8 q m

-- No RAM entry has `n` free pages in a row among those that are searched.
abbrev pub NoRoom : List MemorymapEntry → ℕ → ℕ → Mem → Type 0
NoRoom es tbl n m =
    (e : MemorymapEntry) (t s : ℕ)
    → At es tbl e t
    → is_ram e ≡ true
    → s + n ≤ searched e
    → Blocked n t m s

abbrev pub Outcome : List MemorymapEntry → ℕ → ℕ → Mem → Option ℕ × Mem → Type 0
Outcome es tbl n m (some address, m') = Allocated es tbl n m address m'
Outcome es tbl n m (none, m') = (m' ≡ m) × NoRoom es tbl n m

module _ (n : ℕ) (m : Mem) (pos : 0 < n) where
  -- What the search of one entry says.
  abbrev EntryOutcome : MemorymapEntry → ℕ → Search → Type 0
  EntryOutcome e tbl (found start) = (is_ram e ≡ true) × IsFound n tbl m (searched e) start
  EntryOutcome e tbl (row amount start) =
      (s : ℕ) → is_ram e ≡ true → s + n ≤ searched e → Blocked n tbl m s

  entry_outcome :
      (e : MemorymapEntry) (tbl : ℕ) (s : Search)
      → is_ram e ≡ true
      → Scanned n tbl m (searched e) s
      → EntryOutcome e tbl s
  entry_outcome e tbl (found start) ram f = (ram, f)
  entry_outcome e tbl (row amount start) ram r = λ s _ h. r.no_run s h

  scan_entry-EntryOutcome :
      (e : MemorymapEntry) (tbl : ℕ)
      → (is_ram e ≡ true → Reaches tbl (pages e))
      → EntryOutcome e tbl (scan_entry e tbl n m)
  unfolding scan_entry
  scan_entry-EntryOutcome e tbl h = elim (Bool-cases (is_ram e)) [
    | inl ram ↦ elim (Bool-cases (leb n (pages e))) [
      | inl big ↦
          rw (ram, big)
            (entry_outcome e tbl _ ram
              (scan_bytes_lem n tbl m (pages e / 8) pos (ground (arith, h ram))))
      | inr small ↦ rw (ram, small) (λ s _ hs. absurd (ground arith))
    ]
    | inr other ↦ rw other (λ s ram hs. absurd (ground arith))
  ]

  module _ (e : MemorymapEntry) (es : List MemorymapEntry) (tbl : ℕ) where
    palloc_loop-found :
        (start : ℕ)
        → scan_entry e tbl n m ≡ found start
        → palloc_loop (e ∷ es) tbl n m
          ≡ (some (u64 (e.base + u64 (0x1000 * start))), mark_pages clear_bit n tbl start m)
    unfolding palloc_loop
    palloc_loop-found start h = rw (h, palloc_loop)

    palloc_loop-row :
        (amount start : ℕ)
        → scan_entry e tbl n m ≡ row amount start
        → palloc_loop (e ∷ es) tbl n m ≡ palloc_loop es (advance e tbl) n m
    unfolding palloc_loop
    palloc_loop-row amount start h = rw (h, palloc_loop)

    -- The pages of a row that was found are taken.
    take_row :
        (start : ℕ)
        → Reaches tbl (pages e)
        → is_ram e ≡ true
        → IsFound n tbl m (searched e) start
        → Allocated
            (e ∷ es)
            tbl
            n
            m
            (u64 (e.base + u64 (0x1000 * start)))
            (mark_pages clear_bit n tbl start m)
    take_row start reaches ram f = record {
      entry = e;
      table = tbl;
      first = start;
      at = inl (refl, refl);
      ram = ram;
      address_eq = refl;
      fits = f.fits;
      was_free = f.free;
      first_fit = f.first;
      marked = λ k.
          ground (arith, f.fits, page_bit-mark_pages clear_bit 0 bit-clear_bit n tbl start k m);
      elsewhere = λ q out.
          ground (arith, f.fits, read8-mark_pages clear_bit 0 bit-clear_bit n tbl start q m);
    }

    -- What the rest of the memory map gives, once this entry has nothing.
    skip_entry :
        (o : Option ℕ × Mem)
        → ((s : ℕ) → is_ram e ≡ true → s + n ≤ searched e → Blocked n tbl m s)
        → Outcome es (advance e tbl) n m o
        → Outcome (e ∷ es) tbl n m o
    skip_entry (some address, m') here a = record {
      entry = a.entry;
      table = a.table;
      first = a.first;
      at = inr a.at;
      ram = a.ram;
      address_eq = a.address_eq;
      fits = a.fits;
      was_free = a.was_free;
      first_fit = a.first_fit;
      marked = a.marked;
      elsewhere = a.elsewhere;
    }
    skip_entry (none, m') here (same, no_room) = (same, no_room')
      where
        no_room' : NoRoom (e ∷ es) tbl n m
        no_room' x t s (inl (ex, et)) ram h = rw (← et) (here s (ground arith) (ground arith))
        no_room' x t s (inr later) ram h = no_room x t s later ram h

    round :
        (s : Search)
        → scan_entry e tbl n m ≡ s
        → (is_ram e ≡ true → Reaches tbl (pages e))
        → EntryOutcome e tbl s
        → Outcome es (advance e tbl) n m (palloc_loop es (advance e tbl) n m)
        → Outcome (e ∷ es) tbl n m (palloc_loop (e ∷ es) tbl n m)
    round (found start) h reaches (ram, f) rest =
        rw (palloc_loop-found start h) (take_row start (reaches ram) ram f)
    round (row amount start) h reaches here rest =
        rw (palloc_loop-row amount start h) (skip_entry _ here rest)

  palloc_loop-Outcome :
      (es : List MemorymapEntry) (tbl : ℕ)
      → IsMapped es tbl
      → Outcome es tbl n m (palloc_loop es tbl n m)
  palloc_loop-Outcome [] tbl h = unfold palloc_loop in (refl, λ e t s at ram hs. absurd at)
  palloc_loop-Outcome (e ∷ es) tbl h =
      round e es tbl (scan_entry e tbl n m) refl h.0 (scan_entry-EntryOutcome e tbl h.0)
        (palloc_loop-Outcome es (advance e tbl) h.1)

-- `mem_palloc` for at least one page, over a memory map whose bitmap is within reach. When it
-- returns 0, the address is that of pages of a RAM entry, all of them free before, the first such
-- row of the entry; afterwards exactly these are marked as taken and no other byte of memory has
-- changed. When it returns 1, memory is as it was, and no RAM entry has a row of that many free
-- pages among the eighth of its pages that is searched.
pub mem_palloc-Outcome :
    (g : PageAllocator) (n : ℕ) (m : Mem)
    → IsMapped g.memorymap g.mem_palloc_start
    → 0 < n
    → Outcome g.memorymap g.mem_palloc_start n m (mem_palloc g n m)
mem_palloc-Outcome g n m h pos =
    unfold mem_palloc in palloc_loop-Outcome n m pos g.memorymap g.mem_palloc_start h

fails_of_short :
    (es : List MemorymapEntry) (tbl n : ℕ) (m : Mem) (o : Option ℕ × Mem)
    → ((e : MemorymapEntry) (t : ℕ) → At es tbl e t → is_ram e ≡ true → searched e < n)
    → Outcome es tbl n m o
    → o ≡ (none, m)
fails_of_short es tbl n m (some address, m') short a =
    let few = short a.entry a.table a.at a.ram in absurd (omega (arith, few, a.fits))
fails_of_short es tbl n m (none, m') short (same, no_room) = rw same

-- `mem_palloc` fails, whatever the bitmap says, when every RAM entry has fewer than eight times
-- the wanted pages, to within the rounding to whole bytes: it takes the number of bytes of an
-- entry's bitmap for its number of bits.
pub mem_palloc_eighth :
    (g : PageAllocator) (n : ℕ) (m : Mem)
    → IsMapped g.memorymap g.mem_palloc_start
    → 0 < n
    → ((e : MemorymapEntry) (t : ℕ)
        → At g.memorymap g.mem_palloc_start e t
        → is_ram e ≡ true
        → searched e < n)
    → mem_palloc g n m ≡ (none, m)
mem_palloc_eighth g n m h pos short =
    fails_of_short g.memorymap g.mem_palloc_start n m (mem_palloc g n m) short
      (mem_palloc-Outcome g n m h pos)
