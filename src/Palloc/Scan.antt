-- ===== src/Palloc/Scan.antt =====
-- The search for a row of free pages within one entry: what the scan has established when it
-- stands at a position, kept by each of its loops.
use os_v.Base.{
  ℕ, zero, suc, ◌+◌, ◌-◌, ◌*◌, ◌/◌, ◌%◌, ◌^◌, ◌≤◌, ◌<◌, ◌≡◌, refl, ◌⊎◌, inl, inr, arith, bit_and,
  ltb, ◌==◌, Bool-cases, lt→ltb, le→ltb, u64,
}
use os_v.Base.Bits.{bit, bit-half, bit_and-low}
use os_v.Memory.{Mem, read8}
use os_v.Palloc.{Search, row, found, scan_bit, scan_bits, scan_bytes}
use os_v.Palloc.Bitmap.{page_bit}

module _ (n tbl : ℕ) (m : Mem) where
  -- Among the `n` pages from `s` on there is one that is not free.
  abbrev pub Blocked : ℕ → Type 0
  Blocked s = (k : ℕ) × (s ≤ k) × (k < s + n) × (page_bit tbl k m ≡ 0)

  -- A row of fewer than `n` free pages ends at position `p`, and none of `n` lies before it.
  pub record IsRow (p amount start : ℕ) : Type 0 where
    pub ends : start + amount ≡ p
    pub short : amount < n
    pub free : (k : ℕ) → start ≤ k → k < p → page_bit tbl k m ≡ 1
    pub edge : (start ≡ 0) ⊎ (page_bit tbl (start - 1) m ≡ 0)
    pub no_run : (s : ℕ) → s + n ≤ p → Blocked s

  -- `n` free pages begin at `start`, before position `p`, and at no earlier page.
  pub record IsFound (p start : ℕ) : Type 0 where
    pub fits : start + n ≤ p
    pub free : (k : ℕ) → start ≤ k → k < start + n → page_bit tbl k m ≡ 1
    pub first : (s : ℕ) → s < start → Blocked s

  abbrev pub Scanned : ℕ → Search → Type 0
  Scanned p (row amount start) = IsRow p amount start
  Scanned p (found start) = IsFound p start

  scanned_further : {p p' start : ℕ} → p ≤ p' → IsFound p start → IsFound p' start
  scanned_further h f = record { fits = omega arith; free = f.free; first = f.first }

  -- A start before the row is blocked by the page before the row, or by the earlier search.
  Blocked-before : {p amount start : ℕ} → IsRow p amount start → (s : ℕ) → s < start → Blocked s
  Blocked-before {p} {amount} {start} r s h = elim (Bool-cases (ltb (start - 1) (s + n))) [
    | inl near ↦ (start - 1, omega arith, ground arith, ground arith)
    | inr far ↦ r.no_run s (ground arith)
  ]

  module _ {p amount start : ℕ} (r : IsRow p amount start) where
    IsRow-grows : page_bit tbl p m ≡ 1 → amount + 1 < n → IsRow (p + 1) (amount + 1) start
    IsRow-grows free more = record {
      ends = omega arith;
      short = more;
      free = λ k lo hi. elim (Bool-cases (k == p)) [
        | inl e ↦ ground arith
        | inr ne ↦ r.free k lo (ground arith)
      ];
      edge = r.edge;
      no_run = λ s h. Blocked-before r s (omega arith);
    }

    row_completes : page_bit tbl p m ≡ 1 → amount + 1 ≡ n → IsFound (p + 1) start
    row_completes free full = record {
      fits = omega arith;
      free = λ k lo hi. elim (Bool-cases (k == p)) [
        | inl e ↦ ground arith
        | inr ne ↦ r.free k lo (ground arith)
      ];
      first = Blocked-before r;
    }

    IsRow-restarts : page_bit tbl p m ≡ 0 → IsRow (p + 1) 0 (p + 1)
    IsRow-restarts taken = record {
      ends = omega arith;
      short = omega arith;
      free = λ k lo hi. absurd (omega arith);
      edge = inr (ground arith);
      no_run = λ s h. elim (Bool-cases (ltb p (s + n))) [
        | inl near ↦ (p, ground arith, ground arith, taken)
        | inr far ↦ r.no_run s (ground arith)
      ];
    }

    -- One bit, read from the byte as its lowest.
    scan_bit-Scanned :
        (byte : ℕ) → byte % 2 ≡ page_bit tbl p m → Scanned (p + 1) (scan_bit n byte p amount start)
    unfolding scan_bit
    scan_bit-Scanned byte e = elim (Bool-cases (bit_and byte 1 == 1)) [
      | inl free ↦ rw free (elim (Bool-cases (amount + 1 == n)) [
        | inl full ↦ rw full (row_completes (ground (arith, bit_and-low 1 byte)) (ground arith))
        | inr more ↦ rw more (IsRow-grows (ground (arith, bit_and-low 1 byte)) (ground arith))
      ])
      | inr taken ↦ rw taken (IsRow-restarts (ground (arith, bit_and-low 1 byte)))
    ]

  scan_bits-Scanned :
      (left byte p : ℕ) (s : Search)
      → ((i : ℕ) → i < left → bit byte i ≡ page_bit tbl (p + i) m)
      → Scanned p s
      → Scanned (p + left) (scan_bits left n byte p s)
  unfolding scan_bits
  scan_bits-Scanned zero byte p s e h = let z : p ≡ p + 0 = omega arith in rw (← z) h
  scan_bits-Scanned (suc left) byte p (found start) e h = scanned_further (omega arith) h
  scan_bits-Scanned (suc left) byte p (row amount start) e h =
      let z : p + 1 + left ≡ p + suc left = omega arith in
      rw (← z) (
        scan_bits-Scanned left (byte / 2) (p + 1) (scan_bit n byte p amount start)
          (λ i hi. ground (arith, e (suc i), bit-half byte i))
          (scan_bit-Scanned h byte (ground (arith, e 0))))

  -- One round of the loop over the bytes, and its end.
  scan_bytes_round :
      (fuel bits_left byte_index amount start : ℕ)
      → 7 < bits_left
      → scan_bytes (suc fuel) tbl n bits_left byte_index (row amount start) m
        ≡ scan_bytes fuel tbl n
            (bits_left - 8)
            (byte_index + 1)
            (scan_bits 8 n (read8 (u64 (tbl + byte_index)) m) (byte_index * 8) (row amount start))
            m
  unfolding scan_bytes
  scan_bytes_round fuel bits_left byte_index amount start h = rw (lt→ltb 7 bits_left h, scan_bytes)

  scan_bytes_end :
      (fuel bits_left byte_index amount start : ℕ)
      → bits_left ≤ 7
      → scan_bytes (suc fuel) tbl n bits_left byte_index (row amount start) m ≡ row amount start
  unfolding scan_bytes
  scan_bytes_end fuel bits_left byte_index amount start h = rw (le→ltb 7 bits_left h, scan_bytes)

  -- The bytes, `bits_left` bits of them rounded down; the fuel is enough.
  scan_bytes-Scanned :
      (fuel bits_left byte_index : ℕ) (s : Search)
      → bits_left ≤ fuel
      → tbl + (byte_index + bits_left / 8) ≤ 2 ^ 64
      → Scanned (byte_index * 8) s
      → Scanned ((byte_index + bits_left / 8) * 8) (scan_bytes fuel tbl n bits_left byte_index s m)
  scan_bytes-Scanned zero bits_left byte_index s enough h r =
      let z : byte_index * 8 ≡ (byte_index + bits_left / 8) * 8 = omega arith in
      unfold scan_bytes in rw (← z) r
  scan_bytes-Scanned (suc fuel) bits_left byte_index (found start) enough h r =
      unfold scan_bytes in scanned_further (omega arith) r
  scan_bytes-Scanned (suc fuel) bits_left byte_index (row amount start) enough h r =
      elim (Bool-cases (ltb 7 bits_left)) [
        | inl t ↦
            let more : 7 < bits_left = ground arith in
            let z : (byte_index + 1 + (bits_left - 8) / 8) * 8 ≡ (byte_index + bits_left / 8) * 8 =
              omega arith in
            let next : (byte_index + 1) * 8 ≡ byte_index * 8 + 8 = omega arith in
            rw (scan_bytes_round fuel bits_left byte_index amount start more, ← z)
              (scan_bytes-Scanned fuel (bits_left - 8) (byte_index + 1) _ (omega arith)
                (omega arith)
                (rw next (
                  scan_bits-Scanned 8 _ (byte_index * 8) (row amount start) (λ i hi. ground arith)
                    r)))
        | inr t ↦
            let few : bits_left ≤ 7 = ground arith in
            let z : byte_index * 8 ≡ (byte_index + bits_left / 8) * 8 = omega arith in
            rw (scan_bytes_end fuel bits_left byte_index amount start few, ← z) r
      ]

  -- The search of `bits` bits of a part of the bitmap, as the allocator starts it: for at least
  -- one page it stops at the first row that is long enough, or there is none among the bits that
  -- it reads.
  pub scan_bytes_lem :
      (bits : ℕ)
      → 0 < n
      → tbl + bits / 8 ≤ 2 ^ 64
      → Scanned (bits / 8 * 8) (scan_bytes bits tbl n bits 0 (row 0 0) m)
  scan_bytes_lem bits pos h =
      let z : (0 + bits / 8) * 8 ≡ bits / 8 * 8 = omega arith in
      rw (← z) (scan_bytes-Scanned bits bits 0 (row 0 0) (omega arith) (omega arith) nothing_yet)
    where
      nothing_yet : IsRow 0 0 0
      nothing_yet = record {
        ends = omega arith;
        short = pos;
        free = λ k lo hi. absurd (omega arith);
        edge = inl refl;
        no_run = λ s hs. absurd (omega arith);
      }
