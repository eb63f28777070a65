-- ===== src/Pci/Tests.antt =====
-- A bus with one device, at bus 0 and slot 0, and the theorems there. Its function 0 alone answers.
use os_v.Base.{
  ℕ, ◌+◌, ◌*◌, ◌/◌, ◌%◌, ◌^◌, ◌≤◌, ◌<◌, ◌≡◌, ◌⊎◌, refl, arith, ltb, if◌then◌else◌, length, u16,
  bit_or,
}
use os_v.Memory.{read8}
use os_v.Machine.{Machine, ram, done}
use os_v.Alloc.Tests.{booted, booted-Appends}
use os_v.Pci.{config_address, pci_config_read_word, answers, pci_check_bus}
use os_v.Pci.Address.{config_address-parts}
use os_v.Pci.Table.{slot_devices, devices, Holds, pci_check_bus-Holds}

abbrev config : ℕ → ℕ
config address = if ltb address 0x80000800 then 0x80861237 else 0xFFFFFFFF

config_address-parts_example :
    config_address 1 70 3 0x0A
    ≡ 2 ^ 31 + 2 ^ 16 * bit_or 1 (70 / 32) + 2 ^ 11 * (70 % 32) + 2 ^ 8 * 3 + 4 * (0x0A / 4)
config_address-parts_example =
    config_address-parts 1 70 3 0x0A (omega arith) (omega arith) (omega arith) (omega arith)

one_device : length (devices config 0x100 0) ≡ 1
unfolding devices slot_devices answers config_address pci_config_read_word
one_device = refl

small : 2 * u16 (length (devices config 0x100 0)) + 0 ≤ 0xF00
small = omega (arith, one_device)

pci_check_bus-Holds_example :
    (out : Machine) × (pci_check_bus config 1 1
        (record { pci_devices_amount = 0; pci_devices_address = 0 })
        booted
      ≡ done
          (record {
            pci_devices_amount = u16 (length (devices config 0x100 0));
            pci_devices_address =
                (booted-Appends (2 * u16 (length (devices config 0x100 0))) 0 small).0;
          })
          out)
    × Holds
        (booted-Appends (2 * u16 (length (devices config 0x100 0))) 0 small).0
        (devices config 0x100 0)
        (ram out)
    × ((p : ℕ)
        → (p < (booted-Appends (2 * u16 (length (devices config 0x100 0))) 0 small).0)
          ⊎ ((booted-Appends (2 * u16 (length (devices config 0x100 0))) 0 small).0
                + 2 * length (devices config 0x100 0)
              ≤ p)
        → read8 p (ram out)
          ≡ read8 p (ram (booted-Appends (2 * u16 (length (devices config 0x100 0))) 0 small).1))
pci_check_bus-Holds_example =
    let block = booted-Appends (2 * u16 (length (devices config 0x100 0))) 0 small in
    pci_check_bus-Holds config 1 1 block.0 booted block.1 block.2
      (λ none. omega (arith, none, block.3))
