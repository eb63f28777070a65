-- ===== src/Palloc/Bitmap.antt =====
-- The bits of an entry's part of the bitmap, and what the two marking loops do to them.
use os_v.Base.{
  ℕ, zero, suc, ◌+◌, ◌-◌, ◌*◌, ◌/◌, ◌%◌, ◌^◌, ◌≤◌, ◌<◌, ◌≡◌, refl, ◌≢◌, ◌⊎◌, ◌&&◌, arith, ltb, leb,
  ◌==◌, if◌then◌else◌, u64, int_index, int_index-eq, int_rounds-eq,
}
use os_v.Base.Bits.{bit, byte_ext}
use os_v.Memory.{Mem, read8, write8}
use os_v.Memory.Laws.{read8-write8}
use os_v.Palloc.{mark_bits, mark_pages, byte_of}

-- Bit `k` of the bitmap that begins at `tbl`: 1 if page `k` is free.
abbrev pub page_bit : ℕ → ℕ → Mem → ℕ
page_bit tbl k m = bit (read8 (tbl + k / 8) m) (k % 8)

-- A part of the bitmap that does not reach the end of the address space, nor beyond what an
-- `int` offset can reach.
abbrev pub Reaches : ℕ → ℕ → Type 0
Reaches tbl bits = (tbl + bits / 8 < 2 ^ 64) × (bits < 2 ^ 34)

byte_of-eq : (tbl k bits : ℕ) → Reaches tbl bits → k ≤ bits → byte_of tbl k ≡ tbl + k / 8
byte_of-eq tbl k bits h hk = ground (arith, int_index-eq (k / 8))

-- An operation on the bits of a byte that makes bit `k` be `v`.
abbrev pub Writes : (ℕ → ℕ → ℕ) → ℕ → Type 0
Writes op v =
    (b k j : ℕ) → b < 256 → k < 8 → j < 8 → bit (op b k % 256) j ≡ (if j == k then v else bit b j)

module _ (op : ℕ → ℕ → ℕ) (v : ℕ) (bit-op : Writes op v) where
  mark : ℕ → ℕ → Mem → Mem
  mark tbl k m = write8 (tbl + k / 8) (op (read8 (tbl + k / 8) m) (k % 8)) m

  page_bit-mark :
      (tbl k j : ℕ) (m : Mem)
      → page_bit tbl j (mark tbl k m) ≡ (if j == k then v else page_bit tbl j m)
  unfolding mark
  page_bit-mark tbl k j m = ground (
    arith,
    read8-write8 (tbl + k / 8) (op (read8 (tbl + k / 8) m) (k % 8)) (tbl + j / 8) m,
    bit-op (read8 (tbl + k / 8) m) (k % 8) (j % 8),
  )

  read8-mark : (tbl k q : ℕ) (m : Mem) → q ≢ tbl + k / 8 → read8 q (mark tbl k m) ≡ read8 q m
  unfolding mark
  read8-mark tbl k q m h =
      ground (arith, read8-write8 (tbl + k / 8) (op (read8 (tbl + k / 8) m) (k % 8)) q m)

  mark_bits-suc :
      (left i tbl start : ℕ) (m : Mem)
      → Reaches tbl (start + i)
      → i < 2 ^ 31
      → mark_bits op (suc left) i tbl start m
        ≡ mark_bits op left (i + 1) tbl start (mark tbl (start + i) m)
  unfolding mark_bits mark
  mark_bits-suc left i tbl start m h small =
      let bits : u64 (start + int_index i) ≡ start + i = omega (arith, int_index-eq i small, h) in
      let place : byte_of tbl (start + i) ≡ tbl + (start + i) / 8 =
        byte_of-eq tbl (start + i) (start + i) h (omega arith) in
      rw bits rw place refl

  page_bit-mark_bits :
      (left i tbl start j : ℕ) (m : Mem)
      → Reaches tbl (start + (i + left))
      → i + left ≤ 2 ^ 31
      → page_bit tbl j (mark_bits op left i tbl start m)
        ≡ (if leb (start + i) j && ltb j (start + (i + left)) then v else page_bit tbl j m)
  page_bit-mark_bits zero i tbl start j m h small = unfold mark_bits in ground arith
  page_bit-mark_bits (suc left) i tbl start j m h small = ground (
    arith,
    mark_bits-suc left i tbl start m,
    page_bit-mark_bits left (i + 1) tbl start j (mark tbl (start + i) m),
    page_bit-mark tbl (start + i) j m,
  )

  read8-mark_bits :
      (left i tbl start q : ℕ) (m : Mem)
      → Reaches tbl (start + (i + left))
      → i + left ≤ 2 ^ 31
      → (q < tbl + (start + i) / 8) ⊎ (tbl + (start + (i + left) + 7) / 8 ≤ q)
      → read8 q (mark_bits op left i tbl start m) ≡ read8 q m
  read8-mark_bits zero i tbl start q m h small out = unfold mark_bits in refl
  read8-mark_bits (suc left) i tbl start q m h small out = ground (
    arith,
    mark_bits-suc left i tbl start m,
    read8-mark_bits left (i + 1) tbl start q (mark tbl (start + i) m),
    read8-mark tbl (start + i) q m,
  )

  -- After the loop the bits of the `n` pages are `v`, and the others are as they were.
  pub page_bit-mark_pages :
      (n tbl start j : ℕ) (m : Mem)
      → Reaches tbl (start + n)
      → n < 2 ^ 31
      → page_bit tbl j (mark_pages op n tbl start m)
        ≡ (if leb start j && ltb j (start + n) then v else page_bit tbl j m)
  unfolding mark_pages
  page_bit-mark_pages n tbl start j m h small =
      let rounds = int_rounds-eq n small in
      rw rounds (ground (arith, page_bit-mark_bits n 0 tbl start j m))

  -- No byte is written but those that hold them.
  pub read8-mark_pages :
      (n tbl start q : ℕ) (m : Mem)
      → Reaches tbl (start + n)
      → n < 2 ^ 31
      → (q < tbl + start / 8) ⊎ (tbl + (start + n + 7) / 8 ≤ q)
      → read8 q (mark_pages op n tbl start m) ≡ read8 q m
  unfolding mark_pages
  read8-mark_pages n tbl start q m h small out =
      let rounds = int_rounds-eq n small in
      rw rounds
        (read8-mark_bits n 0 tbl start q m (omega arith, omega arith) (omega arith) (omega arith))

-- A page of an entry whose part begins `d` bytes further on.
pub page_bit-shift : (t d k : ℕ) (m : Mem) → page_bit t (8 * d + k) m ≡ page_bit (t + d) k m
page_bit-shift t d k m =
    let byte : t + (8 * d + k) / 8 ≡ t + d + k / 8 = omega arith in
    let offset : (8 * d + k) % 8 ≡ k % 8 = omega arith in rw byte rw offset refl

-- Two memories agree on a byte of the bitmap when they agree on its eight pages.
pub read8_of_page_bits :
    (tbl q : ℕ) (m m' : Mem)
    → tbl ≤ q
    → ((k : ℕ) → page_bit tbl k m ≡ page_bit tbl k m')
    → read8 q m ≡ read8 q m'
read8_of_page_bits tbl q m m' h same =
    byte_ext (read8 q m) (read8 q m') (omega arith) (omega arith)
      λ j hj. ground (arith, same ((q - tbl) * 8 + j))
