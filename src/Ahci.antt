-- ===== src/Ahci.antt =====
-- kernel/src/code/disk/ahci.c: the type of a port, the free command slot, the list of linear
-- addresses, and the regions and the command of a read.
pub mod Chain
pub mod Goes
pub mod Outcome
pub mod PortRead
pub mod Read
pub mod ReadTexts
pub mod Init
pub mod Ports
pub mod InitTexts
pub mod Rebase
pub mod Regions
pub mod Slot
pub mod Transfer
mod Tests
use os_v.Base.{
  ℕ, zero, suc, ◌+◌, ◌-◌, ◌*◌, ◌/◌, ◌%◌, ◌^◌, Bool, true, false, not, Option, none, some, List, [],
  ◌∷◌, bit_and, bit_or, ◌==◌, if◌then◌else◌, u8, u16, u32, u64, shl, shr,
}
use os_v.Memory.{Mem, read64, write64}

-- The registers of a port that the code reads to choose what it does.
pub record AhciHbaPort : Type 0 where
  pub signature : ℕ
  pub sata_status : ℕ
  pub sata_active : ℕ
  pub ci : ℕ

abbrev pub sata_sig_atapi : ℕ
sata_sig_atapi = 0xEB140101

abbrev pub sata_sig_semb : ℕ
sata_sig_semb = 0xC33C0101

abbrev pub sata_sig_pm : ℕ
sata_sig_pm = 0x96690101

abbrev pub ahci_hba_port_ipm_active : ℕ
ahci_hba_port_ipm_active = 1

abbrev pub ahci_hba_port_det_present : ℕ
ahci_hba_port_det_present = 3

-- `AHCI_DEV_NULL` to `AHCI_DEV_SATAPI`.
pub data DevType : Type 0 where
  dev_null : DevType
  sata : DevType
  semb : DevType
  pm : DevType
  satapi : DevType

unfoldable pub ahci_port_check_type : AhciHbaPort → DevType
ahci_port_check_type port =
    let ipm = bit_and (shr port.sata_status 8) 0x0F in
    let det = bit_and port.sata_status 0x0F in
    if not (det == ahci_hba_port_det_present)
    then dev_null
    else if not (ipm == ahci_hba_port_ipm_active)
    then dev_null
    else if port.signature == sata_sig_atapi
    then satapi
    else if port.signature == sata_sig_semb
    then semb
    else if port.signature == sata_sig_pm
    then pm
    else sata

-- The loop of `find_cmdslot`, with the slots that are left shifted to the right.
unfoldable pub find_cmdslot_loop : ℕ → ℕ → ℕ → Option ℕ
find_cmdslot_loop zero i slots = none
find_cmdslot_loop (suc left) i slots =
    let rest = find_cmdslot_loop left (i + 1) (shr slots 1) in
    if bit_and slots 1 == 0 then some i else rest

-- `find_cmdslot`, less the message where it returns -1, which is `none`.
unfoldable pub find_cmdslot : AhciHbaPort → Option ℕ
find_cmdslot port = find_cmdslot_loop 32 0 (bit_or port.sata_active port.ci)

-- The walk to the end of the list of linear addresses, whose entries begin with `next`, with fuel for
-- its length.
unfoldable pub last_entry : ℕ → ℕ → Mem → Option ℕ
last_entry zero entry m = none
last_entry (suc fuel) entry m =
    let rest = last_entry fuel (read64 entry m) m in
    if read64 entry m == 0 then some entry else rest

-- `ahci_append_to_lin_address_list`: the new `lin_address_list` and memory.
unfoldable pub ahci_append_to_lin_address_list : ℕ → ℕ → ℕ → Mem → Option (ℕ × Mem)
ahci_append_to_lin_address_list fuel lin_address_list entry m =
    if lin_address_list == 0 then some (entry, m) else elim (last_entry fuel lin_address_list m) [
      | none ↦ none
      | some current_entry ↦ some (lin_address_list, write64 current_entry entry m)
    ]

-- `HBA_PRDT_ENTRY`: a region of memory of a transfer; the count is a field of 22 bits.
pub record HbaPrdtEntry : Type 0 where
  pub data_base_lower : ℕ
  pub data_base_upper : ℕ
  pub data_byte_count : ℕ
  pub interrupt : ℕ

-- `cmdheader->phy_region_descriptor_table_length`, for a count of sectors, an `uint32_t`.
unfoldable pub prdt_length : ℕ → ℕ
prdt_length count = u16 (u16 (shr (u32 (count + (2 ^ 32 - 1))) 4) + 1)

-- The four stores to an entry.
unfoldable pub prdt_entry : ℕ → ℕ → HbaPrdtEntry
prdt_entry buf bytes = record {
  data_base_lower = u32 buf;
  data_base_upper = u32 (shr buf 32);
  data_byte_count = bytes % 2 ^ 22;
  interrupt = 1;
}

-- The loop of `ahci_port_read` over the regions and the last region: the entries, and what `count`
-- is then.
unfoldable pub prdt_entries : ℕ → ℕ → ℕ → List HbaPrdtEntry × ℕ
prdt_entries zero buf count = (prdt_entry buf (u32 (u32 (shl count 9) + (2 ^ 32 - 1))) ∷ [], count)
prdt_entries (suc left) buf count =
    let (rest, final) = prdt_entries left (u64 (buf + 4 * 1024)) (u32 (count + (2 ^ 32 - 16))) in
    (prdt_entry buf (8 * 1024 - 1) ∷ rest, final)

-- `FIS_REG_H2D`, as `ahci_port_read` fills it.
pub record FisRegH2d : Type 0 where
  pub fis_type : ℕ
  pub c : ℕ
  pub command : ℕ
  pub lba0 : ℕ
  pub lba1 : ℕ
  pub lba2 : ℕ
  pub device : ℕ
  pub lba3 : ℕ
  pub lba4 : ℕ
  pub lba5 : ℕ
  pub countl : ℕ
  pub counth : ℕ

abbrev pub fis_type_reg_h2d : ℕ
fis_type_reg_h2d = 0x27

abbrev pub ata_cmd_read_dma_ex : ℕ
ata_cmd_read_dma_ex = 0x25

unfoldable pub command_fis : ℕ → ℕ → FisRegH2d
command_fis start count = record {
  fis_type = fis_type_reg_h2d;
  c = 1;
  command = ata_cmd_read_dma_ex;
  lba0 = u8 start;
  lba1 = u8 (shr start 8);
  lba2 = u8 (shr start 16);
  device = shl 1 6;
  lba3 = u8 (shr start 24);
  lba4 = u8 (shr start 32);
  lba5 = u8 (shr start 40);
  countl = u8 (bit_and count 0xFF);
  counth = u8 (bit_and (shr count 8) 0xFF);
}

-- The regions and the command of a read of `count` sectors from `start` to `buf`.
unfoldable pub read_command : ℕ → ℕ → ℕ → List HbaPrdtEntry × FisRegH2d
read_command start count buf =
    let (entries, rest) = prdt_entries (prdt_length count - 1) buf count in
    (entries, command_fis start rest)
