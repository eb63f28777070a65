-- ===== src/Palloc.antt =====
-- kernel/src/code/mem/palloc.c: the allocator of physical pages. The memory map that the BIOS
-- left is a list of entries; the bitmap lies in memory from `mem_palloc_start` on, one bit to a
-- page, 1 for free, and an entry's part of it begins at the byte where the pointer
-- `tbl_entry_start` stands when the entry is reached.
pub mod Print
pub mod Bitmap
pub mod Scan
pub mod Alloc
pub mod Free
pub mod RoundTrip
pub mod Entries
pub mod Sessions
pub mod Safety
pub mod Init
pub mod Claim
pub mod Ready
mod Tests
pub mod InitTests
use os_v.Base.{
  ℕ, zero, suc, ◌+◌, ◌-◌, ◌*◌, ◌/◌, ◌%◌, ◌^◌, Bool, true, false, ◌&&◌, Option, none, some, List, [],
  ◌∷◌, bit_and, ltb, leb, ◌==◌, if◌then◌else◌, u64, int_index, int_rounds,
}
use os_v.Base.Bits.{clear_bit, set_bit}
use os_v.Memory.{Mem, read8, write8}

abbrev pub memorymap_type_ram : ℕ
memorymap_type_ram = 1

pub record MemorymapEntry : Type 0 where
  pub base : ℕ
  pub length : ℕ
  pub type : ℕ

abbrev pub is_ram : MemorymapEntry → Bool
is_ram e = e.type == memorymap_type_ram

-- The pages of an entry: `length / 0x1000`.
abbrev pub pages : MemorymapEntry → ℕ
pages e = e.length / 0x1000

-- Where the next entry's part of the bitmap begins.
unfoldable pub advance : MemorymapEntry → ℕ → ℕ
advance e tbl = if is_ram e then u64 (tbl + pages e / 8) else tbl

-- The address of the byte `tbl[byte_offset]` for the bit with number `bits`, where the offset was
-- put into an `int`.
abbrev pub byte_of : ℕ → ℕ → ℕ
byte_of tbl bits = u64 (tbl + int_index (bits / 8))

-- The loop over `start + i` for an `int i` below a number of pages, whose body is
-- `tbl[(start + i) / 8] = op(tbl[(start + i) / 8], (start + i) % 8)`. It stands three times in the
-- file, to allocate, to free and to take the kernel's pages; `left` rounds are to go.
unfoldable pub mark_bits : (ℕ → ℕ → ℕ) → ℕ → ℕ → ℕ → ℕ → Mem → Mem
mark_bits op zero i tbl start m = m
mark_bits op (suc left) i tbl start m =
    let bits = u64 (start + int_index i) in
    let a = byte_of tbl bits in
    mark_bits op left (i + 1) tbl start (write8 a (op (read8 a m) (bits % 8)) m)

-- The whole loop, for `n` pages.
unfoldable pub mark_pages : (ℕ → ℕ → ℕ) → ℕ → ℕ → ℕ → Mem → Mem
mark_pages op n tbl start m = mark_bits op (int_rounds n) 0 tbl start m

-- The state of the search: `bits_in_row_amout` and `bits_in_row_start`, or the start of a row
-- that is long enough. The counters stay below the number of bits of the entry.
pub data Search : Type 0 where
  row : ℕ → ℕ → Search
  found : ℕ → Search

-- One bit of the search for `n` free pages, at position `p` of the entry.
unfoldable pub scan_bit : ℕ → ℕ → ℕ → ℕ → ℕ → Search
scan_bit n byte p amount start =
    if bit_and byte 1 == 1
    then (if amount + 1 == n then found start else row (amount + 1) start)
    else row 0 (p + 1)

-- The rest of a byte, `left` bits of it, with the next one lowest in `byte`.
unfoldable pub scan_bits : ℕ → ℕ → ℕ → ℕ → Search → Search
scan_bits zero n byte p s = s
scan_bits (suc left) n byte p (found start) = found start
scan_bits (suc left) n byte p (row amount start) =
    scan_bits left n (byte / 2) (p + 1) (scan_bit n byte p amount start)

-- The loop over the bytes, `while (bits_left > 7)`, with as much fuel as there are bits.
unfoldable pub scan_bytes : ℕ → ℕ → ℕ → ℕ → ℕ → Search → Mem → Search
scan_bytes zero tbl n bits_left byte_index s m = s
scan_bytes (suc fuel) tbl n bits_left byte_index (found start) m = found start
scan_bytes (suc fuel) tbl n bits_left byte_index (row amount start) m = elim (ltb 7 bits_left) [
  | true ↦
      scan_bytes fuel tbl n (bits_left - 8) (byte_index + 1)
        (scan_bits 8 n (read8 (u64 (tbl + byte_index)) m) (byte_index * 8) (row amount start)) m
  | false ↦ row amount start
]

-- The search of one entry. An entry that is not RAM or too small is not looked at.
unfoldable pub scan_entry : MemorymapEntry → ℕ → ℕ → Mem → Search
scan_entry e tbl n m =
    if is_ram e && leb n (pages e)
    then scan_bytes (pages e / 8) tbl n (pages e / 8) 0 (row 0 0) m
    else row 0 0

-- The loop over the memory map. `some addr` is the return of 0 with `*addr` set, `none` the
-- return of 1.
unfoldable pub palloc_loop : List MemorymapEntry → ℕ → ℕ → Mem → Option ℕ × Mem
palloc_loop [] tbl n m = (none, m)
palloc_loop (e ∷ es) tbl n m = elim (scan_entry e tbl n m) [
  | found start ↦ (some (u64 (e.base + u64 (0x1000 * start))), mark_pages clear_bit n tbl start m)
  | row amount start ↦ palloc_loop es (advance e tbl) n m
]

-- The allocator's globals: the memory map, `mem_palloc_start`, `mem_palloc_size` and
-- `memorymap_max_ram`.
pub record PageAllocator : Type 0 where
  pub memorymap : List MemorymapEntry
  pub mem_palloc_start : ℕ
  pub mem_palloc_size : ℕ
  pub memorymap_max_ram : ℕ

unfoldable pub mem_palloc : PageAllocator → ℕ → Mem → Option ℕ × Mem
unfolding palloc_loop scan_entry scan_bytes scan_bits scan_bit mark_pages mark_bits advance write8
    int_index int_rounds
mem_palloc g number_of_pages m = palloc_loop g.memorymap g.mem_palloc_start number_of_pages m

-- Whether the `n` pages from `addr` on lie in the entry.
unfoldable pub covers : MemorymapEntry → ℕ → ℕ → Bool
covers e addr n =
    is_ram e
    && (leb e.base addr && leb (u64 (addr + u64 (n * 0x1000))) (u64 (e.base + pages e * 0x1000)))

-- The loop of `mem_pfree`; the flag is its return value, `true` for 0.
unfoldable pub pfree_loop : List MemorymapEntry → ℕ → ℕ → ℕ → Mem → Bool × Mem
pfree_loop [] tbl addr n m = (false, m)
pfree_loop (e ∷ es) tbl addr n m = elim (covers e addr n) [
  | true ↦ (true, mark_pages set_bit n tbl ((addr - e.base) / 0x1000) m)
  | false ↦ pfree_loop es (advance e tbl) addr n m
]

unfoldable pub mem_pfree : PageAllocator → ℕ → ℕ → Mem → Bool × Mem
unfolding pfree_loop covers mark_pages mark_bits advance write8 int_index int_rounds
mem_pfree g addr number_of_pages m =
    pfree_loop g.memorymap g.mem_palloc_start addr number_of_pages m
