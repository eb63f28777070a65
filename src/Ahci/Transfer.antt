-- ===== src/Ahci/Transfer.antt =====
-- The regions and the command of a read, against the number of bytes and of sectors.
use os_v.Base.{
  ℕ, zero, suc, ◌+◌, ◌-◌, ◌*◌, ◌/◌, ◌%◌, ◌^◌, ◌≤◌, ◌<◌, ◌≡◌, refl, List, [], ◌∷◌, arith, bit_and,
  u16, u32, u64, shr, length,
}
use os_v.Base.Bits.{bit_and-low}
use os_v.Ahci.{
  HbaPrdtEntry, prdt_length, prdt_entry, prdt_entries, FisRegH2d, command_fis, read_command,
}

-- The bytes of all regions: the field holds one less than the number of a region.
unfoldable pub total_bytes : List HbaPrdtEntry → ℕ
total_bytes [] = 0
total_bytes (e ∷ es) = e.data_byte_count + 1 + total_bytes es

-- The regions begin 4096 bytes apart.
abbrev pub Bases : ℕ → List HbaPrdtEntry → Type 0
Bases buf [] = Unit {0}
Bases buf (e ∷ es) =
    (e.data_base_lower + 2 ^ 32 * e.data_base_upper ≡ buf) × Bases (u64 (buf + 4096)) es

-- What the FIS says.
abbrev pub lba_of : FisRegH2d → ℕ
lba_of f =
    f.lba0 + 2 ^ 8 * f.lba1 + 2 ^ 16 * f.lba2 + 2 ^ 24 * f.lba3 + 2 ^ 32 * f.lba4 + 2 ^ 40 * f.lba5

abbrev pub count_of : FisRegH2d → ℕ
count_of f = f.countl + 2 ^ 8 * f.counth

prdt_entries_lem :
    (left buf count : ℕ)
    → buf < 2 ^ 64
    → 16 * left < count
    → count ≤ 16 * left + 16
    → count < 2 ^ 32
    → (length (prdt_entries left buf count).0 ≡ left + 1)
      × (total_bytes (prdt_entries left buf count).0 ≡ 512 * count)
      × Bases buf (prdt_entries left buf count).0
      × ((prdt_entries left buf count).1 ≡ count - 16 * left)
unfolding prdt_entries prdt_entry total_bytes
prdt_entries_lem zero buf count hb lo hi small = (refl, omega arith, (omega arith, tt), omega arith)
prdt_entries_lem (suc left) buf count hb lo hi small =
    let step : u32 (count + (2 ^ 32 - 16)) ≡ count - 16 = omega arith in
    let ih =
      prdt_entries_lem left (u64 (buf + 4 * 1024)) (count - 16) (omega arith) (omega arith)
        (omega arith) (omega arith) in
    rw step (omega (arith, ih.0), omega (arith, ih.1), (omega arith, ih.2), omega (arith, ih.3))

low_byte : (n : ℕ) → bit_and n 0xFF ≡ n % 256
low_byte n = bit_and-low 8 n

command_fis_lem :
    (start count : ℕ)
    → start < 2 ^ 48
    → count < 2 ^ 16
    → (lba_of (command_fis start count) ≡ start) × (count_of (command_fis start count) ≡ count)
unfolding command_fis
command_fis_lem start count hs hc =
    (omega arith, omega (arith, low_byte count, low_byte (count / 2 ^ 8)))

-- A read of at least one and at most 2 ^ 20 - 16 sectors, from a sector below 2 ^ 48: there is a region for each
-- 16 sectors begun, of 512 bytes for every sector in all, and the FIS has the first sector. But the
-- regions begin 4096 bytes apart, half of their 8192 bytes, and the count in the FIS is that of the
-- sectors of the last region.
pub read_command_lem :
    (start count buf : ℕ)
    → start < 2 ^ 48
    → 0 < count
    → count + 16 ≤ 2 ^ 20
    → buf < 2 ^ 64
    → (length (read_command start count buf).0 ≡ (count - 1) / 16 + 1)
      × (total_bytes (read_command start count buf).0 ≡ 512 * count)
      × Bases buf (read_command start count buf).0
      × (lba_of (read_command start count buf).1 ≡ start)
      × (count_of (read_command start count buf).1 ≡ (count - 1) % 16 + 1)
unfolding read_command prdt_length
read_command_lem start count buf hs pos small hb =
    let regions : u16 (u16 (shr (u32 (count + (2 ^ 32 - 1))) 4) + 1) - 1 ≡ (count - 1) / 16 =
      omega arith in
    let run =
      prdt_entries_lem ((count - 1) / 16) buf count hb (omega arith) (omega arith) (omega arith) in
    let rest : (prdt_entries ((count - 1) / 16) buf count).1 ≡ (count - 1) % 16 + 1 =
      omega (arith, run.3) in
    let fis = command_fis_lem start ((count - 1) % 16 + 1) hs (omega arith) in
    rw regions rw rest (run.0, run.1, run.2, fis.0, fis.1)
