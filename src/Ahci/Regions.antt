-- ===== src/Ahci/Regions.antt =====
-- The regions of a read as they lie in the command table.
use os_v.Base.{
  ℕ, zero, suc, ◌+◌, ◌-◌, ◌*◌, ◌/◌, ◌%◌, ◌^◌, ◌≤◌, ◌<◌, ◌≡◌, refl, ◌⊎◌, true, false, List, [], ◌∷◌,
  bit_or, ltb, arith, u32, u64, shr, ◌∙◌, sym, ap,
}
use os_v.Base.Bits.{bit_or-shifted, bit_or_comm, bit_or-ones}
use os_v.Memory.{Mem, read8, read32, write32}
use os_v.Memory.Laws.{
  read_bytes_cong, read_bytes-lt, read_bytes-write_bytes, read_bytes-write_bytes_other,
  write_bytes-other,
}
use os_v.Ahci.{HbaPrdtEntry, prdt_length, prdt_entry, prdt_entries, command_fis, read_command}
use os_v.Ahci.Read.{table_length, write_region, write_regions}

-- The words at an address are those of a region: the count in the low bits of the last one, the
-- interrupt in its top bit.
pub record RegionAt (m : Mem) (p : ℕ) (e : HbaPrdtEntry) : Type 0 where
  pub lower : read32 p m ≡ e.data_base_lower
  pub upper : read32 (p + 4) m ≡ e.data_base_upper
  pub bytes : read32 (p + 12) m % 2 ^ 22 ≡ e.data_byte_count
  pub interrupt : read32 (p + 12) m / 2 ^ 31 ≡ e.interrupt

-- The entries of the command table from entry `i` on.
abbrev pub Regions : Mem → ℕ → ℕ → List HbaPrdtEntry → Type 0
Regions m cmdtbl i [] = Unit {0}
Regions m cmdtbl i (e ∷ es) = RegionAt m (cmdtbl + 128 + 16 * i) e × Regions m cmdtbl (i + 1) es

read32-write32 : (a v : ℕ) (m : Mem) → v < 2 ^ 32 → read32 a (write32 a v m) ≡ v
read32-write32 a v m h = omega (arith, read_bytes-write_bytes 4 a v m)

-- The top bit set in a word whose low 22 bits are a count.
top_bit : (v : ℕ) → v < 2 ^ 32 → bit_or v (2 ^ 31) ≡ 2 ^ 31 + v % 2 ^ 31
top_bit v h =
    let split : v ≡ v / 2 ^ 31 * 2 ^ 31 + v % 2 ^ 31 = omega arith in
    let top : bit_or (v / 2 ^ 31) 1 ≡ 1 =
      bit_or_comm (v / 2 ^ 31) 1 ∙ bit_or-ones 1 (v / 2 ^ 31) (omega arith) in
    ap (λ (t : ℕ). bit_or t (2 ^ 31)) split
    ∙ bit_or-shifted 31 (v / 2 ^ 31) 1 (v % 2 ^ 31) (omega arith)
    ∙ omega (arith, top)

-- The four stores to a region.
module _ (p lo up c : ℕ) (m : Mem) where
  abbrev two : Mem
  two = write32 (p + 4) up (write32 p lo m)

  abbrev three : Mem
  three = write32 (p + 12) (read32 (p + 12) two / 2 ^ 22 * 2 ^ 22 + c) two

  abbrev four : Mem
  four = write32 (p + 12) (bit_or (read32 (p + 12) three) (2 ^ 31)) three

  four-other : (q : ℕ) → (q < p) ⊎ (p + 16 ≤ q) → four q ≡ m q
  four-other q out =
      write_bytes-other 4 (p + 12) _ q three (omega (arith, out))
      ∙ write_bytes-other 4 (p + 12) _ q two (omega (arith, out))
      ∙ write_bytes-other 4 (p + 4) up q (write32 p lo m) (omega (arith, out))
      ∙ write_bytes-other 4 p lo q m (omega (arith, out))

  -- The last two stores are to the last word.
  kept : (a : ℕ) → a + 4 ≤ p + 12 → read32 a four ≡ read32 a two
  kept a l =
      read_bytes-write_bytes_other 4 a 4 (p + 12) _ three (omega arith)
      ∙ read_bytes-write_bytes_other 4 a 4 (p + 12) _ two (omega arith)

  four-RegionAt :
      lo < 2 ^ 32
      → up < 2 ^ 32
      → c < 2 ^ 22
      → RegionAt four p (record {
        data_base_lower = lo;
        data_base_upper = up;
        data_byte_count = c;
        interrupt = 1;
      })
  four-RegionAt hlo hup hc =
      let w = read_bytes-lt 4 (p + 12) two in
      let v = read32 (p + 12) two / 2 ^ 22 * 2 ^ 22 + c in
      let small : v < 2 ^ 32 = omega (arith, w) in
      let third : read32 (p + 12) three ≡ v = read32-write32 (p + 12) v two small in
      let word : bit_or (read32 (p + 12) three) (2 ^ 31) ≡ 2 ^ 31 + v % 2 ^ 31 =
        rw third (top_bit v small) in
      let last : read32 (p + 12) four ≡ 2 ^ 31 + v % 2 ^ 31 =
        read32-write32 (p + 12) (bit_or (read32 (p + 12) three) (2 ^ 31)) three
          (omega (arith, word))
        ∙ word in
      record {
        lower =
            kept p (omega arith)
            ∙ read_bytes-write_bytes_other 4 p 4 (p + 4) up (write32 p lo m) (omega arith)
            ∙ read32-write32 p lo m hlo;
        upper = kept (p + 4) (omega arith) ∙ read32-write32 (p + 4) up (write32 p lo m) hup;
        bytes = omega (arith, last);
        interrupt = omega (arith, last);
      }

module _ (cmdtbl i buf bytes : ℕ) (m : Mem) (fits : cmdtbl + 128 + 16 * i + 16 ≤ 2 ^ 64) where
  write_region-four :
      write_region cmdtbl i buf bytes m
      ≡ four (cmdtbl + 128 + 16 * i) (u32 buf) (u32 (shr buf 32)) (bytes % 2 ^ 22) m
  unfolding write_region
  write_region-four =
      let p = cmdtbl + 128 + 16 * i in
      let w0 : u64 p ≡ p = omega arith in
      let w4 : u64 (p + 4) ≡ p + 4 = omega arith in
      let w12 : u64 (p + 12) ≡ p + 12 = omega arith in rw w0 rw w4 rw w12 refl

  write_region-other :
      (q : ℕ)
      → (q < cmdtbl + 128 + 16 * i) ⊎ (cmdtbl + 128 + 16 * i + 16 ≤ q)
      → read8 q (write_region cmdtbl i buf bytes m) ≡ read8 q m
  write_region-other q out =
      rw write_region-four rw
        (four-other (cmdtbl + 128 + 16 * i) (u32 buf) (u32 (shr buf 32)) (bytes % 2 ^ 22) m q out)
        refl

  write_region-RegionAt :
      RegionAt (write_region cmdtbl i buf bytes m) (cmdtbl + 128 + 16 * i) (prdt_entry buf bytes)
  unfolding prdt_entry
  write_region-RegionAt = rw write_region-four (
      four-RegionAt (cmdtbl + 128 + 16 * i) (u32 buf) (u32 (shr buf 32)) (bytes % 2 ^ 22) m
        (omega arith) (omega arith) (omega arith))

-- The entries lie in memory from entry `i` on, `rest` is what is left of the count, and no byte beside
-- the entries has changed.
pub record Written (cmdtbl i n : ℕ) (m : Mem) (entries : List HbaPrdtEntry) (final : ℕ) (r : Mem)
    (rest : ℕ) : Type 0 where
  pub regions : Regions r cmdtbl i entries
  pub count : rest ≡ final
  pub outside :
      (q : ℕ)
      → (q < cmdtbl + 128 + 16 * i) ⊎ (cmdtbl + 128 + 16 * (i + n) ≤ q)
      → read8 q r ≡ read8 q m

-- Where the bytes of a region are the same, so is the region.
RegionAt-cong :
    (m m' : Mem) (p : ℕ) (e : HbaPrdtEntry)
    → ((q : ℕ) → p ≤ q → q < p + 16 → read8 q m' ≡ read8 q m)
    → RegionAt m p e
    → RegionAt m' p e
RegionAt-cong m m' p e same h = record {
  lower = read_bytes_cong 4 p m' m (λ q lo hi. same q (omega arith) (omega arith)) ∙ h.lower;
  upper = word 4 (omega arith) ∙ h.upper;
  bytes = rw (word 12 (omega arith)) (h.bytes);
  interrupt = rw (word 12 (omega arith)) (h.interrupt);
}
  where
    word : (k : ℕ) → k ≤ 12 → read32 (p + k) m' ≡ read32 (p + k) m
    word k l = read_bytes_cong 4 (p + k) m' m (λ q lo hi. same q (omega arith) (omega arith))

module _ (cmdheader cmdtbl : ℕ) where
  -- The length field of the header lies apart from `n` regions.
  abbrev pub HeaderApart : ℕ → Type 0
  HeaderApart n =
      (u64 (cmdheader + 2) + 2 ≤ cmdtbl + 128) ⊎ (cmdtbl + 128 + 16 * n ≤ u64 (cmdheader + 2))

  length_kept :
      (i n buf bytes : ℕ) (m : Mem)
      → cmdtbl + 128 + 16 * i + 16 ≤ 2 ^ 64
      → i < n
      → HeaderApart n
      → table_length cmdheader (write_region cmdtbl i buf bytes m) ≡ table_length cmdheader m
  length_kept i n buf bytes m fits l apart =
      read_bytes_cong 2 (u64 (cmdheader + 2)) (write_region cmdtbl i buf bytes m) m
        (λ q lo hi. write_region-other cmdtbl i buf bytes m fits q (omega (arith, apart)))

  write_one :
      (i buf bytes count : ℕ) (m : Mem)
      → cmdtbl + 128 + 16 * i + 16 ≤ 2 ^ 64
      → Written cmdtbl i 1 m
          (prdt_entry buf bytes ∷ [])
          count
          (write_region cmdtbl i buf bytes m)
          count
  write_one i buf bytes count m fits = record {
    regions = (write_region-RegionAt cmdtbl i buf bytes m fits, tt);
    count = refl;
    outside = λ q out. write_region-other cmdtbl i buf bytes m fits q (omega (arith, out));
  }

  write_more :
      (i n buf bytes rest final : ℕ) (m r : Mem) (entries : List HbaPrdtEntry)
      → cmdtbl + 128 + 16 * i + 16 ≤ 2 ^ 64
      → Written cmdtbl (i + 1) n (write_region cmdtbl i buf bytes m) entries final r rest
      → Written cmdtbl i (suc n) m (prdt_entry buf bytes ∷ entries) final r rest
  write_more i n buf bytes rest final m r entries fits h = record {
    regions = (
      RegionAt-cong (write_region cmdtbl i buf bytes m) r (cmdtbl + 128 + 16 * i)
          (prdt_entry buf bytes) (λ q lo hi. h.outside q (omega arith))
          (write_region-RegionAt cmdtbl i buf bytes m fits),
      h.regions,
    );
    count = h.count;
    outside = λ q out.
        h.outside q (omega (arith, out))
        ∙ write_region-other cmdtbl i buf bytes m fits q (omega (arith, out));
  }

  write_regions-Written :
      (k left i buf count : ℕ) (m : Mem)
      → table_length cmdheader m ≡ i + suc k
      → k ≤ left
      → cmdtbl + 128 + 16 * (i + suc k) ≤ 2 ^ 64
      → HeaderApart (i + suc k)
      → (let (r, rest) = write_regions left cmdheader cmdtbl i buf count m in
          let (entries, final) = prdt_entries k buf count in
          Written cmdtbl i (suc k) m entries final r rest)
  unfolding write_regions prdt_entries
  write_regions-Written zero zero i buf count m len enough fits apart =
      write_one i buf _ count m (omega (arith, fits))
  write_regions-Written zero (suc left) i buf count m len enough fits apart =
      let stop : ltb (i + 1) (table_length cmdheader m) ≡ false = ground (arith, len) in
      rw (stop, write_regions) (write_one i buf _ count m (omega (arith, fits)))
  write_regions-Written (suc k) zero i buf count m len enough fits apart =
      absurd (omega (arith, enough))
  write_regions-Written (suc k) (suc left) i buf count m len enough fits apart =
      let go : ltb (i + 1) (table_length cmdheader m) ≡ true = ground (arith, len) in
      let room : cmdtbl + 128 + 16 * i + 16 ≤ 2 ^ 64 = omega (arith, fits) in
      let len' =
        length_kept i (i + suc (suc k)) buf (8 * 1024 - 1) m room (omega arith) apart ∙ len in
      rw (go, write_regions)
        (write_more i (suc k) buf (8 * 1024 - 1) _ _ m _ _ room (
          write_regions-Written k left (i + 1) (u64 (buf + 4 * 1024)) (u32 (count + (2 ^ 32 - 16)))
            (write_region cmdtbl i buf (8 * 1024 - 1) m) (omega (arith, len'))
            (omega (arith, enough)) (omega (arith, fits)) (omega (arith, apart))))

prdt_length-lt : (count : ℕ) → prdt_length count < 2 ^ 16
unfolding prdt_length
prdt_length-lt count = omega arith

-- Where the header has the length that `ahci_port_read` stored there, which is not 0, and lies apart from the entries, and these end below 2 ^ 64: the loop writes the regions of the read, one after
-- the other, into the entries of the command table, the count that is left is the one that the
-- command takes, and no byte outside of the entries changes.
pub write_regions-read_command :
    (cmdheader cmdtbl start buf count : ℕ) (m : Mem)
    → 0 < prdt_length count
    → table_length cmdheader m ≡ prdt_length count
    → cmdtbl + 128 + 16 * prdt_length count ≤ 2 ^ 64
    → HeaderApart cmdheader cmdtbl (prdt_length count)
    → (let (r, rest) = write_regions (2 ^ 16) cmdheader cmdtbl 0 buf count m in
        let (entries, fis) = read_command start count buf in
        Written cmdtbl 0
          (prdt_length count)
          m
          entries
          (prdt_entries (prdt_length count - 1) buf count).1
          r
          rest
        × (fis ≡ command_fis start rest))
unfolding read_command
write_regions-read_command cmdheader cmdtbl start buf count m pos len fits apart =
    let small = prdt_length-lt count in
    let n : suc (prdt_length count - 1) ≡ prdt_length count = omega (arith, pos) in
    let h =
      write_regions-Written cmdheader cmdtbl (prdt_length count - 1) (2 ^ 16) 0 buf count m
        (omega (arith, len, n)) (omega (arith, small)) (omega (arith, fits, n))
        (omega (arith, apart, n)) in
    (rw n at h, ap (λ (t : ℕ). command_fis start t) (sym h.count))
