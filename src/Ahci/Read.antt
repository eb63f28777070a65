-- ===== src/Ahci/Read.antt =====
-- `ahci_port_read` of kernel/src/code/disk/ahci.c, from the list of linear addresses to its return.
-- What the registers of the port read as is given, a stream for each register that a loop reads.
use os_v.Base.{
  ℕ, zero, suc, ◌+◌, ◌-◌, ◌*◌, ◌/◌, ◌%◌, ◌^◌, Bool, true, false, Option, none, some, List, [], ◌∷◌,
  bit_and, bit_or, ltb, ◌==◌, if◌then◌else◌, u32, u64, shl, shr,
}
use os_v.Base.Bits.{clear_bit}
use os_v.Memory.{Mem, read8, read16, read32, read64, write8, write16, write32, mem_write}
use os_v.Screen.Format.{number}
use os_v.Machine.{ram, with_ram, Cmd, done, halted, out_of_fuel, ◌>>=◌, ◌>>◌, modify}
use os_v.Machine.{print}
use os_v.Ahci.{AhciHbaPort, FisRegH2d, find_cmdslot, prdt_length, command_fis}
use os_v.Ahci.ReadTexts.{
  read_text, port_addr_text, port_table_text, no_slot_text, slot_text, header_text, table_text,
  fis_text, spin_text, hung_text, disk_error_text, wait_text, good_text,
}

-- The registers where the slot is chosen, and what later reads of `tfd`, `ci` and `is` give, the first
-- at 0.
pub record PortReads : Type 0 where
  pub registers : AhciHbaPort
  pub tfd : ℕ → ℕ
  pub ci : ℕ → ℕ
  pub is : ℕ → ℕ

-- The stores to the registers.
pub data PortWrite : Type 0 where
  set_is : ℕ → PortWrite
  set_ci : ℕ → PortWrite

-- The walk of the list of linear addresses to the entry of a port, with fuel for its length: the entry,
-- or the end of the list.
unfoldable pub find_entry : ℕ → ℕ → ℕ → Mem → Option (Option ℕ)
find_entry zero port addr_list m = none
find_entry (suc fuel) port addr_list m =
    let rest = find_entry fuel port (read64 addr_list m) m in
    if read64 (u64 (addr_list + 8)) m == port
    then some (some addr_list)
    else if read64 addr_list m == 0
    then some none
    else rest

-- The fields `cmd_FIS_length`, `w` and `phy_region_descriptor_table_length` of a header.
unfoldable pub write_header : ℕ → ℕ → Mem → Mem
write_header cmdheader count m =
    let m1 = write8 cmdheader (read8 cmdheader m / 32 * 32 + 20 / 4) m in
    let m2 = write8 cmdheader (clear_bit (read8 cmdheader m1) 6) m1 in
    write16 (u64 (cmdheader + 2)) (prdt_length count) m2

abbrev pub table_length : ℕ → Mem → ℕ
table_length cmdheader m = read16 (u64 (cmdheader + 2)) m

-- `sizeof(AHCI_HBA_CMD_TABLE) + (length - 1) * sizeof(HBA_PRDT_ENTRY)`.
unfoldable pub cmd_table_size : ℕ → ℕ
cmd_table_size length = u64 (144 + (length + (2 ^ 64 - 1)) * 16)

-- `cmdtbl->prdt_entry[i]`, whose last word has the count in 22 bits and the interrupt in the top one.
unfoldable pub write_region : ℕ → ℕ → ℕ → ℕ → Mem → Mem
write_region cmdtbl i buf bytes m =
    let entry = u64 (cmdtbl + 128 + 16 * i) in
    let m1 = write32 entry (u32 buf) m in
    let m2 = write32 (u64 (entry + 4)) (u32 (shr buf 32)) m1 in
    let m3 =
      write32 (u64 (entry + 12)) (read32 (u64 (entry + 12)) m2 / 2 ^ 22 * 2 ^ 22 + bytes % 2 ^ 22)
        m2 in
    write32 (u64 (entry + 12)) (bit_or (read32 (u64 (entry + 12)) m3) (2 ^ 31)) m3

-- The loop over the regions and the last region: memory, and what `count` is then. The length is read
-- from the header at each round; it is below 2 ^ 16, and so are the rounds.
unfoldable pub write_regions : ℕ → ℕ → ℕ → ℕ → ℕ → ℕ → Mem → Mem × ℕ
write_regions zero cmdheader cmdtbl i buf count m =
    (write_region cmdtbl i buf (u32 (u32 (shl count 9) + (2 ^ 32 - 1))) m, count)
write_regions (suc left) cmdheader cmdtbl i buf count m =
    elim (ltb (i + 1) (table_length cmdheader m)) [
      | true ↦
          write_regions left cmdheader cmdtbl (i + 1) (u64 (buf + 4 * 1024))
            (u32 (count + (2 ^ 32 - 16))) (write_region cmdtbl i buf (8 * 1024 - 1) m)
      | false ↦ (write_region cmdtbl i buf (u32 (u32 (shl count 9) + (2 ^ 32 - 1))) m, count)
    ]

-- The stores to `cmdfis`, in their order.
unfoldable pub write_fis : ℕ → FisRegH2d → Mem → Mem
write_fis cmdfis f m =
    let m1 = write8 cmdfis f.fis_type m in
    let m2 = write8 (u64 (cmdfis + 1)) (read8 (u64 (cmdfis + 1)) m1 % 128 + 128 * f.c) m1 in
    let m3 = write8 (u64 (cmdfis + 2)) f.command m2 in
    let m4 = write8 (u64 (cmdfis + 4)) f.lba0 m3 in
    let m5 = write8 (u64 (cmdfis + 5)) f.lba1 m4 in
    let m6 = write8 (u64 (cmdfis + 6)) f.lba2 m5 in
    let m7 = write8 (u64 (cmdfis + 8)) f.lba3 m6 in
    let m8 = write8 (u64 (cmdfis + 9)) f.lba4 m7 in
    let m9 = write8 (u64 (cmdfis + 10)) f.lba5 m8 in
    let m10 = write8 (u64 (cmdfis + 7)) f.device m9 in
    let m11 = write8 (u64 (cmdfis + 12)) f.countl m10 in write8 (u64 (cmdfis + 13)) f.counth m11

-- The header, the table and the FIS, with the messages between them.
module _ (addr_list slot start count buf : ℕ) where
  unfoldable pub setup_header : ℕ → Cmd (Unit {0})
  setup_header cmdheader = do
    print header_text (number cmdheader ∷ [])
    modify (λ m. with_ram (write_header cmdheader count (ram m)) m)

  -- The regions, and what `count` is then.
  unfoldable pub write_table : ℕ → ℕ → Cmd ℕ
  write_table cmdheader cmdtbl m =
      let (r, rest) = write_regions (2 ^ 16) cmdheader cmdtbl 0 buf count (ram m) in
      done rest (with_ram r m)

  -- The table is that of the list's entry itself: `addr_list->cmd_tbl` is an array.
  unfoldable pub setup_table : ℕ → ℕ → Cmd ℕ
  setup_table cmdheader cmdtbl = do
    print table_text (number cmdtbl ∷ [])
    modify (λ m.
        with_ram (mem_write cmdtbl 0 (cmd_table_size (table_length cmdheader (ram m))) (ram m)) m)
    write_table cmdheader cmdtbl

  unfoldable pub setup_fis : ℕ → ℕ → Cmd (Unit {0})
  setup_fis cmdfis rest = do
    modify (λ m. with_ram (mem_write cmdfis 0 20 (ram m)) m)
    print fis_text (number cmdfis ∷ [])
    modify (λ m. with_ram (write_fis cmdfis (command_fis start rest) (ram m)) m)

  unfoldable pub setup_command : Cmd (Unit {0})
  setup_command m =
      let cmdheader = u64 (read64 (u64 (addr_list + 16)) (ram m) + 32 * slot) in
      (do
        setup_header cmdheader
        rest ← setup_table cmdheader (u64 (addr_list + 32))
        λ m'. setup_fis (read64 (u64 (addr_list + 24)) (ram m')) rest m')
        m

-- How the wait for the command ends.
pub data Waited : Type 0 where
  finished : ℕ → Waited
  disk_error : Waited

module _ (reads : PortReads) where
  -- The loop on `tfd`, with `left` rounds to go; 0x88 are the busy and the request bit.
  unfoldable pub spin_ready : ℕ → ℕ → ℕ
  spin_ready zero spin = spin
  spin_ready (suc left) spin = elim (bit_and (reads.tfd spin) 0x88 == 0) [
    | true ↦ spin
    | false ↦ spin_ready left (spin + 1)
  ]

  -- The loop on `ci` and `is`, with fuel for its rounds.
  unfoldable pub wait_done : ℕ → ℕ → ℕ → Option Waited
  wait_done zero slot spin = none
  wait_done (suc fuel) slot spin = elim (bit_and (reads.ci spin) (shl 1 slot) == 0) [
    | true ↦ some (finished spin)
    | false ↦ elim (bit_and (reads.is spin) (shl 1 30) == 0) [
      | true ↦ wait_done fuel slot (spin + 1)
      | false ↦ some disk_error
    ]
  ]

  -- From `port->ci = 1 << slot` on; `true` is the return of 1.
  unfoldable pub issue : ℕ → ℕ → Cmd (List PortWrite × Bool)
  issue fuel slot m = elim (wait_done fuel slot 0) [
    | none ↦ out_of_fuel
    | some disk_error ↦
        (do print disk_error_text []; done (set_is (2 ^ 32 - 1) ∷ set_ci (shl 1 slot) ∷ [], true)) m
    | some (finished zero) ↦
        (do
          print wait_text (number 0 ∷ [])
          print good_text []
          done (set_is (2 ^ 32 - 1) ∷ set_ci (shl 1 slot) ∷ [], false))
          m
    | some (finished (suc spin)) ↦ halted m
  ]

  -- After the first loop, which has counted to `spin`.
  unfoldable pub after_wait : ℕ → ℕ → ℕ → Cmd (List PortWrite × Bool)
  after_wait fuel slot spin = elim (spin == 1000000) [
    | true ↦ (do print hung_text []; done (set_is (2 ^ 32 - 1) ∷ [], true))
    | false ↦ issue fuel slot
  ]

  unfoldable pub wait_and_issue : ℕ → ℕ → Cmd (List PortWrite × Bool)
  wait_and_issue fuel slot = do
    print spin_text (number (spin_ready 1000000 0) ∷ [])
    after_wait fuel slot (spin_ready 1000000 0)

  -- From the choice of the slot on.
  unfoldable pub with_slot : ℕ → ℕ → ℕ → ℕ → ℕ → Option ℕ → Cmd (List PortWrite × Bool)
  with_slot fuel addr_list start count buf none = do
    print no_slot_text []
    done (set_is (2 ^ 32 - 1) ∷ [], true)
  with_slot fuel addr_list start count buf (some slot) = do
    print slot_text (number slot ∷ [])
    setup_command addr_list slot start count buf
    wait_and_issue fuel slot

  -- From the entry of the port on.
  unfoldable pub read_with : ℕ → ℕ → ℕ → ℕ → ℕ → ℕ → Cmd (List PortWrite × Bool)
  read_with fuel port addr_list start count buf = do
    print port_addr_text (number port ∷ [])
    print port_table_text (number addr_list ∷ [])
    with_slot fuel addr_list start count buf (find_cmdslot reads.registers)

  -- At the end of the walk.
  unfoldable pub at_entry : ℕ → ℕ → ℕ → ℕ → ℕ → Option (Option ℕ) → Cmd (List PortWrite × Bool)
  at_entry fuel port start count buf none m = out_of_fuel
  at_entry fuel port start count buf (some none) m = done ([], true) m
  at_entry fuel port start count buf (some (some addr_list)) m =
      read_with fuel port addr_list start count buf m

  -- Behind the first message.
  unfoldable pub search_and_read : ℕ → ℕ → ℕ → ℕ → ℕ → ℕ → ℕ → Cmd (List PortWrite × Bool)
  search_and_read walk fuel lin_address_list port start count buf m = elim (lin_address_list == 0) [
    | true ↦ done ([], true) m
    | false ↦ at_entry fuel port start count buf (find_entry walk port lin_address_list (ram m)) m
  ]

  -- `ahci_port_read`, with `walk` for the list of linear addresses and `fuel` for the wait: the stores to
  -- the port, and `true` for the return of 1.
  unfoldable pub ahci_port_read : ℕ → ℕ → ℕ → ℕ → ℕ → ℕ → ℕ → Cmd (List PortWrite × Bool)
  ahci_port_read walk fuel lin_address_list port start count buf = do
    print read_text []
    search_and_read walk fuel lin_address_list port start count buf
