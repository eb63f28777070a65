-- ===== src/Pci.antt =====
-- kernel/src/code/pci/pci.c: the configuration reads, and the table of the devices that answer. The
-- configuration space is a function from the address that is written to port 0xCF8 to the double
-- word that port 0xCFC then holds.
pub mod Address
pub mod Table
mod Tests
use os_v.Base.{
  ℕ, zero, suc, ◌+◌, ◌-◌, ◌*◌, ◌/◌, ◌%◌, ◌^◌, Bool, true, false, not, bit_and, bit_or, ◌==◌,
  if◌then◌else◌, u8, u16, u32, u64, shl, shr,
}
use os_v.Memory.{Mem, write16}
use os_v.Machine.{
  Machine, ram, with_ram, Run, Cmd, done, halted, out_of_fuel, ◌>>=◌, ◌>>◌, get, modify,
}
use os_v.Alloc.{mem_alloc, mem_free}

-- The address of a configuration register; the parts are bytes.
unfoldable pub config_address : ℕ → ℕ → ℕ → ℕ → ℕ
config_address bus slot func offset =
    bit_or (bit_or (bit_or (bit_or (shl bus 16) (shl slot 11)) (shl func 8)) (bit_and offset 0xFC))
      0x80000000

-- The globals of `pci.c`.
pub record Pci : Type 0 where
  pub pci_devices_amount : ℕ
  pub pci_devices_address : ℕ

module _ (config : ℕ → ℕ) where
  unfoldable pub pci_config_read_word : ℕ → ℕ → ℕ → ℕ → ℕ
  pci_config_read_word bus slot func offset =
      u16
        (bit_and (shr (config (config_address bus slot func offset)) (bit_and offset 2 * 8)) 0xFFFF)

  -- `cfg != 0XFFFF`, for the first word of function 0.
  unfoldable pub answers : ℕ → ℕ → Bool
  answers bus slot = not (pci_config_read_word (u8 bus) (u8 slot) 0 0 == 0xFFFF)

  -- The first loops of `pciCheckBus`: over the slots of a bus, and over the buses. The counter
  -- `pci_devices_amount` is an `uint16_t`.
  unfoldable pub count_slots : ℕ → ℕ → ℕ → ℕ → ℕ
  count_slots zero bus slot amount = amount
  count_slots (suc left) bus slot amount =
      count_slots left bus (slot + 1) (if answers bus slot then u16 (amount + 1) else amount)

  unfoldable pub count_buses : ℕ → ℕ → ℕ → ℕ
  count_buses zero bus amount = amount
  count_buses (suc left) bus amount = count_buses left (bus + 1) (count_slots 0x100 bus 0 amount)

  -- The second loops, with the address of the next entry: `pci_devices_address[i] = bus + (slot << 8);
  -- i++`.
  unfoldable pub save_slots : ℕ → ℕ → ℕ → ℕ × Mem → ℕ × Mem
  save_slots zero bus slot (at, m) = (at, m)
  save_slots (suc left) bus slot (at, m) =
      save_slots left bus (slot + 1)
        (if answers bus slot then (at + 2, write16 at (u16 (bus + shl slot 8)) m) else (at, m))

  unfoldable pub save_buses : ℕ → ℕ → ℕ × Mem → ℕ × Mem
  save_buses zero bus p = p
  save_buses (suc left) bus p = save_buses left (bus + 1) (save_slots 0x100 bus 0 p)

  -- `pciCheckBus`, with the fuel of the allocator's functions.
  unfoldable pub pci_check_bus : ℕ → ℕ → Pci → Cmd Pci
  pci_check_bus depth walk pci = do
    amount ←
        (if pci.pci_devices_address == 0
          then done (pci.pci_devices_amount)
          else (do mem_free walk (pci.pci_devices_address); done 0))
    let amount' = count_buses 0x100 0 amount
    address ← mem_alloc depth walk (2 * amount') 0
    modify (λ m. if address == 0 then m else with_ram (save_buses 0x100 0 (address, ram m)).1 m)
    done (record { pci_devices_amount = amount'; pci_devices_address = address })

  -- `pciGetDeviceTable`: the amount and the address of the table.
  unfoldable pub pci_get_device_table : ℕ → ℕ → Pci → Cmd Pci
  pci_get_device_table depth walk pci =
      if pci.pci_devices_address == 0 then done pci else pci_check_bus depth walk pci
