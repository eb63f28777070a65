-- ===== src/Ahci/Init.antt =====
-- `ahci_init_disk` of kernel/src/code/disk/ahci.c.
use os_v.Base.{
  ℕ, zero, suc, ◌+◌, ◌*◌, Bool, true, false, [], ◌∷◌, bit_and, bit_or, ◌==◌, u8, shl, shr,
}
use os_v.Memory.{checksum_memory}
use os_v.Screen.Format.{number}
use os_v.Palloc.{mem_pfree}
use os_v.Machine.{ram, with_ram, Cmd, done, halted, ◌>>=◌, ◌>>◌, get}
use os_v.Paging.{missing, mapped, page_trace_pml4, page_map_pml4}
use os_v.Pci.{pci_config_read_word}
use os_v.Disk.{Disk}
use os_v.Machine.{print}
use os_v.Ahci.{DevType, dev_null, sata, semb, pm, satapi, ahci_port_check_type}
use os_v.Ahci.InitTexts.{
  init_text, amount_text, device_text, no_memory_text, place_text, pm_text, sata_text, satapi_text,
  semb_text, port_text, checksum_text, done_text,
}
use os_v.Ahci.Read.{PortReads, ahci_port_read}
use os_v.Ahci.Rebase.{AhciHba, port_address, trace_to, store64, ahci_port_rebase}

-- `ahci_abar_phy[i]`, from two reads of 16 bits. What the function stores to its two arrays, it uses as
-- it was stored, without a load.
unfoldable pub abar_of : (ℕ → ℕ) → ℕ → ℕ → ℕ
abar_of config bus slot =
    bit_or (bit_and 0xFFFF (pci_config_read_word config bus slot 0 0x24))
      (bit_and 0xFFFF0000 (shl (pci_config_read_word config bus slot 0 0x26) 16))

-- The messages about a port.
unfoldable pub print_type : DevType → Cmd (Unit {0})
print_type pm = print pm_text []
print_type sata = print sata_text []
print_type satapi = print satapi_text []
print_type semb = print semb_text []
print_type dev_null = done tt

unfoldable pub is_null : DevType → Bool
is_null dev_null = true
is_null sata = false
is_null semb = false
is_null pm = false
is_null satapi = false

unfoldable pub print_port : AhciHba → ℕ → ℕ → Cmd (Unit {0})
print_port hba phy i = do
  let type = ahci_port_check_type (hba.ports i).kind
  print_type type
  elim (is_null type) [
    | true ↦ done tt
    | false ↦ print port_text (number (u8 i) ∷ number hba.address ∷ number phy ∷ [])
  ]

-- The loop over the ports, from `i` on; `impl` is a `uint32_t`.
unfoldable pub print_ports : ℕ → AhciHba → ℕ → ℕ → ℕ → Cmd (Unit {0})
print_ports zero hba phy impl i = done tt
print_ports (suc left) hba phy impl i = elim (impl == 0) [
  | true ↦ done tt
  | false ↦ (do print_port hba phy i; print_ports left hba phy (shr impl 1) (i + 1))
]

-- The page of `mem_alloc` at `virt` given back, or the endless loop.
unfoldable pub give_page_back : ℕ → ℕ → Cmd (Unit {0})
give_page_back junk virt m = elim (page_trace_pml4 m.paging virt (ram m)) [
  | missing code ↦
      (do print no_memory_text []; halted) (with_ram ((mem_pfree m.allocator junk 1 (ram m)).1) m)
  | mapped p ↦
      let (freed, r) = mem_pfree m.allocator p 1 (ram m) in
      elim freed [
        | true ↦ done tt (with_ram r m)
        | false ↦ (do print no_memory_text []; halted) (with_ram r m)
      ]
]

-- The functions that call `mem_alloc`; `hba` and `reads` are what the registers of the `i`-th controller
-- and of its first port read as, once the controller is mapped at an address.
module _ (mem_alloc : ℕ → ℕ → Cmd ℕ) (fuel walk junk : ℕ) (config : ℕ → ℕ) (hba : ℕ → ℕ → AhciHba)
    (reads : ℕ → PortReads) where
  -- One round of the loop: the new `lin_address_list`.
  unfoldable pub init_one : ℕ → ℕ → ℕ → ℕ → ℕ → Cmd ℕ
  init_one abar_phy abar i device lin_address_list = do
    let bus = u8 device
    let slot = u8 (shr device 8)
    let phy = abar_of config bus slot
    store64 (abar_phy + 8 * i) phy
    print device_text (number bus ∷ number slot ∷ [])
    lin ← mem_alloc 0x1000 0x1000
    store64 (abar + 8 * i) lin
    give_page_back junk lin
    page_map_pml4 mem_alloc lin phy 0x11 0
    print place_text (number phy ∷ number lin ∷ [])
    print_ports 32 (hba i lin) phy (hba i lin).ports_implemented 0
    list ← ahci_port_rebase mem_alloc fuel walk junk (hba i lin) lin_address_list
    buf ← mem_alloc 0x2000 0x10000
    buf_phy ← trace_to junk buf
    m ← get
    print checksum_text (number (checksum_memory buf 0x2000 (ram m)) ∷ [])
    ahci_port_read (reads i) walk fuel list (port_address (hba i lin) 0) 1 1 buf_phy
    m' ← get
    print checksum_text (number (checksum_memory buf 0x2000 (ram m')) ∷ [])
    done list

  -- The loop over the devices.
  unfoldable pub init_loop : ℕ → ℕ → ℕ → ℕ → (ℕ → ℕ) → ℕ → Cmd ℕ
  init_loop zero abar_phy abar i disk_addr list = done list
  init_loop (suc left) abar_phy abar i disk_addr list = do
    list' ← init_one abar_phy abar i (disk_addr i) list
    init_loop left abar_phy abar (i + 1) disk_addr list'

  -- `ahci_init_disk`: the list of linear addresses at its end.
  unfoldable pub ahci_init_disk : ℕ → (ℕ → ℕ) → Cmd ℕ
  ahci_init_disk disk_count disk_addr = do
    print init_text []
    print amount_text (number disk_count ∷ [])
    abar_phy ← mem_alloc (8 * disk_count) 0
    abar ← mem_alloc (8 * disk_count) 0
    list ← init_loop disk_count abar_phy abar 0 disk_addr 0
    print done_text []
    done list

  -- `disk_init`.
  unfoldable pub disk_init : Disk → Cmd ℕ
  disk_init disk m = elim (disk.disk_found_ahci_amount == 0) [
    | true ↦ done 0 m
    | false ↦ ahci_init_disk disk.disk_found_ahci_amount disk.disk_found_ahci_addr m
  ]
