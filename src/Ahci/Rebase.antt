-- ===== src/Ahci/Rebase.antt =====
-- `ahci_port_stop_cmd`, `ahci_port_start_cmd` and `ahci_port_rebase` of kernel/src/code/disk/ahci.c.
-- What the registers of the controller read as is given.
use os_v.Base.{
  ℕ, zero, suc, ◌+◌, ◌-◌, ◌*◌, ◌/◌, ◌^◌, true, false, Option, none, some, List, [], ◌∷◌, bit_and,
  bit_or, ◌==◌, u8, u32, u64, shl, shr,
}
use os_v.Memory.{Mem, write16, write32, write64, mem_write}
use os_v.Screen.Format.{number}
use os_v.Palloc.{mem_pfree}
use os_v.Machine.{ram, with_ram, Cmd, done, out_of_fuel, ◌>>=◌, ◌>>◌, modify}
use os_v.Paging.{missing, mapped, page_trace_pml4, page_map_pml4}
use os_v.Machine.{print}
use os_v.Ahci.{
  AhciHbaPort, dev_null, sata, semb, pm, satapi, ahci_port_check_type,
  ahci_append_to_lin_address_list,
}
use os_v.Ahci.InitTexts.{
  rebase_text, addr_text, stop_text, ok_text, cmd_list_text, fis_place_text, start_text, end_text,
}

-- A port: the registers that choose its type, the addresses of its lists, and what the reads of `cmd`
-- give, one after the other.
pub record PortRegisters : Type 0 where
  pub kind : AhciHbaPort
  pub clb : ℕ
  pub clbu : ℕ
  pub fb : ℕ
  pub fbu : ℕ
  pub cmd : ℕ → ℕ

pub record AhciHba : Type 0 where
  pub address : ℕ
  pub ports_implemented : ℕ
  pub ports : ℕ → PortRegisters

-- `&(ahci_hba->ports[port_index])`.
abbrev pub port_address : AhciHba → ℕ → ℕ
port_address hba i = u64 (hba.address + 0x100 + 0x80 * i)

-- The bits of `cmd`, and the masks that clear one.
abbrev pub ahci_hba_port_cmd_st : ℕ
ahci_hba_port_cmd_st = 0x0001

abbrev pub ahci_hba_port_cmd_fre : ℕ
ahci_hba_port_cmd_fre = 0x0010

abbrev pub ahci_hba_port_cmd_fr : ℕ
ahci_hba_port_cmd_fr = 0x4000

abbrev pub ahci_hba_port_cmd_cr : ℕ
ahci_hba_port_cmd_cr = 0x8000

module _ (cmd : ℕ → ℕ) where
  -- The loop of `ahci_port_stop_cmd` from read `n` on, with fuel for its rounds: the next read.
  unfoldable pub stop_loop : ℕ → ℕ → Option ℕ
  stop_loop zero n = none
  stop_loop (suc fuel) n = elim (bit_and (cmd n) ahci_hba_port_cmd_fr == 0) [
    | false ↦ stop_loop fuel (n + 1)
    | true ↦ elim (bit_and (cmd (n + 1)) ahci_hba_port_cmd_cr == 0) [
      | false ↦ stop_loop fuel (n + 2)
      | true ↦ some (n + 2)
    ]
  ]

  -- The stores to `cmd`, and the next read.
  unfoldable pub ahci_port_stop_cmd : ℕ → ℕ → Option (List ℕ × ℕ)
  ahci_port_stop_cmd fuel n = elim (stop_loop fuel (n + 2)) [
    | none ↦ none
    | some n' ↦ some (
      bit_and (cmd n) (2 ^ 32 - 1 - ahci_hba_port_cmd_st)
          ∷ bit_and (cmd (n + 1)) (2 ^ 32 - 1 - ahci_hba_port_cmd_fre)
          ∷ [],
      n',
    )
  ]

  unfoldable pub start_loop : ℕ → ℕ → Option ℕ
  start_loop zero n = none
  start_loop (suc fuel) n = elim (bit_and (cmd n) ahci_hba_port_cmd_cr == 0) [
    | true ↦ some (n + 1)
    | false ↦ start_loop fuel (n + 1)
  ]

  -- `ahci_port_start_cmd`, less its delay.
  unfoldable pub ahci_port_start_cmd : ℕ → ℕ → Option (List ℕ × ℕ)
  ahci_port_start_cmd fuel n = elim (start_loop fuel n) [
    | none ↦ none
    | some n' ↦ some (
      bit_or (cmd n') ahci_hba_port_cmd_fre ∷ bit_or (cmd (n' + 1)) ahci_hba_port_cmd_st ∷ [],
      n' + 2,
    )
  ]

-- Of a wait on a port, what the machine sees: whether it ends.
unfoldable pub await : Option (List ℕ × ℕ) → Cmd ℕ
await none m = out_of_fuel
await (some (stores, n)) m = done n m

-- `page_trace_PML4` to a variable that holds `junk`, which it keeps where an entry is missing.
unfoldable pub trace_to : ℕ → ℕ → Cmd ℕ
trace_to junk vaddr m = elim (page_trace_pml4 m.paging vaddr (ram m)) [
  | missing code ↦ done junk m
  | mapped p ↦ done p m
]

-- A call of `mem_pfree` for a page, whose result is not used.
unfoldable pub free_page : ℕ → Cmd (Unit {0})
free_page p m = done tt (with_ram ((mem_pfree m.allocator p 1 (ram m)).1) m)

-- `sizeof(AHCI_LIN_ADDRESS_LIST_ENTRY)`.
abbrev pub sizeof_list_entry : ℕ
sizeof_list_entry = 8 * 4 + 8 * 32

abbrev pub store64 : ℕ → ℕ → Cmd (Unit {0})
store64 a v = modify (λ m. with_ram (write64 (u64 a) v (ram m)) m)

-- The loop that clears a command table: its pointer does not move.
unfoldable pub clear_loop : ℕ → ℕ → Mem → Mem
clear_loop zero virt_addr m = m
clear_loop (suc left) virt_addr m = clear_loop left virt_addr (write64 virt_addr 0 m)

-- The functions that call `mem_alloc`; `fuel` is for the waits, `walk` for the list, and `junk` is what
-- the variables for physical addresses hold.
module _ (mem_alloc : ℕ → ℕ → Cmd ℕ) (fuel walk junk : ℕ) where
  -- A page for a list of the port at `phy`; `freed` tells whose page `mem_pfree` is given.
  unfoldable pub map_list : ℕ → (ℕ → ℕ) → Cmd ℕ
  map_list phy freed = do
    virt ← mem_alloc 0x1000 0x1000
    traced ← trace_to junk virt
    free_page (freed traced)
    let placed = bit_or virt (bit_and phy 0x0FFF)
    page_map_pml4 mem_alloc placed phy 0x11 0
    modify (λ m. with_ram (mem_write placed 0 4096 (ram m)) m)
    done placed

  -- The loop over the 32 headers, from number `i` on.
  unfoldable pub map_tables : ℕ → ℕ → ℕ → ℕ → Cmd (Unit {0})
  map_tables zero i cmd_list addr_list = done tt
  map_tables (suc left) i cmd_list addr_list = do
    let header = u64 (cmd_list + 32 * i)
    modify (λ m. with_ram (write16 (u64 (header + 2)) 8 (ram m)) m)
    virt_addr ← mem_alloc 0x100 0x100
    phy_addr ← trace_to junk virt_addr
    modify (λ m. with_ram (write32 (u64 (header + 8)) (u32 phy_addr) (ram m)) m)
    modify (λ m. with_ram (write32 (u64 (header + 12)) (u32 (shr phy_addr 32)) (ram m)) m)
    modify (λ m. with_ram (clear_loop (256 / 8) virt_addr (ram m)) m)
    store64 (addr_list + 32 + 8 * i) virt_addr
    map_tables left (i + 1) cmd_list addr_list

  -- `ahci_append_to_lin_address_list`, on the machine.
  unfoldable pub append_entry : ℕ → ℕ → Cmd ℕ
  append_entry lin_address_list entry m =
      elim (ahci_append_to_lin_address_list walk lin_address_list entry (ram m)) [
        | none ↦ out_of_fuel
        | some (list, r) ↦ done list (with_ram r m)
      ]

  -- The work on a SATA port, from its messages on: the new `lin_address_list`.
  unfoldable pub rebase_sata : AhciHba → ℕ → ℕ → Cmd ℕ
  rebase_sata hba i lin_address_list = do
    let port = hba.ports i
    let address = port_address hba i
    let cmd_list_phy = bit_or port.clb (shl port.clbu 32)
    let fis_phy = bit_or port.fb (shl port.fbu 32)
    print rebase_text (number (u8 i) ∷ [])
    print addr_text (number address ∷ [])
    print stop_text []
    n ← await (ahci_port_stop_cmd port.cmd fuel 0)
    print ok_text []
    addr_list ← mem_alloc sizeof_list_entry 0
    store64 addr_list 0
    store64 (addr_list + 8) address
    list ← append_entry lin_address_list addr_list
    cmd_list ← map_list cmd_list_phy (λ p. p)
    store64 (addr_list + 16) cmd_list
    print cmd_list_text (number cmd_list ∷ number cmd_list_phy ∷ [])
    -- The page that is given back is that of the command list.
    fis ← map_list fis_phy (λ p. cmd_list_phy)
    store64 (addr_list + 24) fis
    print fis_place_text (number fis ∷ number fis_phy ∷ [])
    map_tables 32 0 cmd_list addr_list
    print start_text []
    n' ← await (ahci_port_start_cmd port.cmd fuel n)
    print ok_text []
    print end_text []
    done list

  unfoldable pub rebase_port : AhciHba → ℕ → ℕ → Cmd ℕ
  rebase_port hba i lin_address_list = elim (ahci_port_check_type (hba.ports i).kind) [
    | sata ↦ rebase_sata hba i lin_address_list
    | dev_null ↦ done lin_address_list
    | semb ↦ done lin_address_list
    | pm ↦ done lin_address_list
    | satapi ↦ done lin_address_list
  ]

  -- The loop: `next` is `port_index + 1`; `impl` has at most 33 bits.
  unfoldable pub rebase_loop : ℕ → AhciHba → ℕ → ℕ → ℕ → Cmd ℕ
  rebase_loop zero hba impl next lin_address_list = done lin_address_list
  rebase_loop (suc left) hba impl next lin_address_list = elim (impl == 0) [
    | true ↦ done lin_address_list
    | false ↦ (do
      list ← rebase_port hba next lin_address_list
      rebase_loop left hba (shr impl 1) (next + 1) list)
  ]

  -- `ahci_port_rebase`.
  unfoldable pub ahci_port_rebase : AhciHba → ℕ → Cmd ℕ
  ahci_port_rebase hba lin_address_list =
      rebase_loop 64 hba (u64 (shl hba.ports_implemented 1)) 0 lin_address_list
