-- ===== src/Disk.antt =====
-- kernel/src/code/disk/disk.c: the search for AHCI controllers among the devices of the PCI table.
pub mod Search
mod Tests
use os_v.Base.{
  ℕ, zero, suc, ◌+◌, ◌-◌, ◌*◌, ◌/◌, ◌%◌, ◌^◌, Bool, true, false, ◌&&◌, none, some, List, [], ◌∷◌,
  ◌==◌, if◌then◌else◌, u8, u16, u64, shr,
}
use os_v.Memory.{read16}
use os_v.Screen.Format.{Arg, number, screen_print}
use os_v.Machine.{print, Machine, ram, Run, Cmd, done, halted, out_of_fuel, ◌>>=◌, ◌>>◌}
use os_v.Pci.{Pci, pci_config_read_word, pci_get_device_table}

abbrev pub disk_max_ahci : ℕ
disk_max_ahci = 5

-- The globals of `disk.c`; the array has `disk_max_ahci` entries.
pub record Disk : Type 0 where
  pub disk_found_ahci_amount : ℕ
  pub disk_found_ahci_addr : ℕ → ℕ

-- "DISK ERROR: TOO MANY AHCI INTERFACES FOUND!/e" and "NUMBER OF AHCI DEV: /xW /n/e".
abbrev pub too_many_text : List ℕ
too_many_text =
    b'D' ∷ b'I' ∷ b'S' ∷ b'K' ∷ b' ' ∷ b'E' ∷ b'R' ∷ b'R' ∷ b'O' ∷ b'R' ∷ b':' ∷ b' ' ∷ b'T' ∷ b'O'
    ∷ b'O' ∷ b' ' ∷ b'M' ∷ b'A' ∷ b'N' ∷ b'Y' ∷ b' ' ∷ b'A' ∷ b'H' ∷ b'C' ∷ b'I' ∷ b' ' ∷ b'I'
    ∷ b'N' ∷ b'T' ∷ b'E' ∷ b'R' ∷ b'F' ∷ b'A' ∷ b'C' ∷ b'E' ∷ b'S' ∷ b' ' ∷ b'F' ∷ b'O' ∷ b'U'
    ∷ b'N' ∷ b'D' ∷ b'!' ∷ b'/' ∷ b'e' ∷ []

abbrev pub number_text : List ℕ
number_text =
    b'N' ∷ b'U' ∷ b'M' ∷ b'B' ∷ b'E' ∷ b'R' ∷ b' ' ∷ b'O' ∷ b'F' ∷ b' ' ∷ b'A' ∷ b'H' ∷ b'C' ∷ b'I'
    ∷ b' ' ∷ b'D' ∷ b'E' ∷ b'V' ∷ b':' ∷ b' ' ∷ b'/' ∷ b'x' ∷ b'W' ∷ b' ' ∷ b'/' ∷ b'n' ∷ b'/'
    ∷ b'e' ∷ []

-- `disk_found_ahci_addr[disk_found_ahci_amount] = device; disk_found_ahci_amount++;`
unfoldable pub add_device : ℕ → Disk → Disk
add_device device disk = record {
  disk_found_ahci_amount = u16 (disk.disk_found_ahci_amount + 1);
  disk_found_ahci_addr =
      λ j. if j == disk.disk_found_ahci_amount then device else disk.disk_found_ahci_addr j;
}

-- The message and the endless loop.
unfoldable pub too_many : Cmd Disk
too_many = do print too_many_text []; halted

-- The report of the search, and its return value.
unfoldable pub report : Disk → Cmd Bool
report disk m = elim (disk.disk_found_ahci_amount == 0) [
  | true ↦ done false m
  | false ↦ (do print number_text (number (disk.disk_found_ahci_amount) ∷ []); done true) m
]

module _ (config : ℕ → ℕ) where
  -- The class and the subclass of a device of the table.
  unfoldable pub is_ahci : ℕ → Bool
  is_ahci device =
      let cfg = pci_config_read_word config (u8 device) (u8 (shr device 8)) 0 0x0A in
      u8 (shr cfg 8) == 0x01 && u8 cfg == 0x06

  -- The loop over the table at `table`, with `left` entries to go from entry `i` on.
  unfoldable pub search_loop : ℕ → ℕ → ℕ → Disk → Cmd Disk
  search_loop zero i table disk m = done disk m
  search_loop (suc left) i table disk m =
      let device = read16 (u64 (table + 2 * i)) (ram m) in
      elim (is_ahci device) [
        | true ↦ elim (disk.disk_found_ahci_amount == disk_max_ahci - 1) [
          | true ↦ too_many m
          | false ↦ search_loop left (i + 1) table (add_device device disk) m
        ]
        | false ↦ search_loop left (i + 1) table disk m
      ]

  -- `disk_searchDisks`, `true` for its return of 1, with the fuel of the allocator's functions.
  unfoldable pub disk_search_disks : ℕ → ℕ → Pci → Disk → Cmd (Pci × Disk × Bool)
  disk_search_disks depth walk pci disk = do
    table ← pci_get_device_table config depth walk pci
    found ← search_loop (table.pci_devices_amount) 0 (table.pci_devices_address) disk
    any ← report found
    done (table, found, any)
