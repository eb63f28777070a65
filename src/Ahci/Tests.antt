-- ===== src/Ahci/Tests.antt =====
-- A port whose two lowest slots are taken, and a read of 40 sectors, with the theorems there.
use os_v.Base.{
  ℕ, ◌+◌, ◌-◌, ◌*◌, ◌/◌, ◌%◌, ◌^◌, ◌≤◌, ◌≡◌, refl, arith, some, length, bit_or, [], ◌∷◌, ◌==◌,
  if◌then◌else◌, bit_and, ltb, false,
}
use os_v.Machine.{Machine, ram, with_ram}
use os_v.Base.Bits.{bit}
use os_v.Alloc.{mem_init, mem_alloc}
use os_v.Alloc.Tests.{booted}
use os_v.Ahci.Read.{
  write_regions, write_region, PortReads, spin_ready, wait_done, finished, find_entry,
  ahci_port_read,
}
use os_v.Ahci.Rebase.{AhciHba, ahci_port_rebase, ahci_port_stop_cmd, ahci_port_start_cmd}
use os_v.Ahci.Ports.{visit_ports, ahci_port_rebase-visit_ports, ahci_port_stop_cmd-Returns}
use os_v.Ahci.Regions.{Written, write_regions-read_command}
use os_v.Ahci.PortRead.{ReadEnds, ahci_port_read-ReadEnds}
use os_v.Memory.{Mem, read_bytes, write_bytes, write8}
use os_v.Ahci.{
  prdt_length, prdt_entries, command_fis, AhciHbaPort, satapi, ahci_port_check_type, find_cmdslot,
  find_cmdslot_loop, ahci_append_to_lin_address_list, read_command,
}
use os_v.Ahci.Chain.{Links, ahci_append_to_lin_address_list-Links}
use os_v.Ahci.Slot.{FirstFree, find_cmdslot-FirstFree}
use os_v.Ahci.Transfer.{total_bytes, Bases, lba_of, count_of, read_command_lem}

abbrev port : AhciHbaPort
port = record { signature = 0xEB140101; sata_status = 0x123; sata_active = 1; ci = 2 }

port_type : ahci_port_check_type port ≡ satapi
unfolding ahci_port_check_type
port_type = refl

third_slot : find_cmdslot port ≡ some 2
unfolding find_cmdslot find_cmdslot_loop
third_slot = refl

read_command_lem_example :
    (length (read_command 0x1_2345_6789 40 0x9000).0 ≡ (40 - 1) / 16 + 1)
    × (total_bytes (read_command 0x1_2345_6789 40 0x9000).0 ≡ 512 * 40)
    × Bases 0x9000 (read_command 0x1_2345_6789 40 0x9000).0
    × (lba_of (read_command 0x1_2345_6789 40 0x9000).1 ≡ 0x1_2345_6789)
    × (count_of (read_command 0x1_2345_6789 40 0x9000).1 ≡ (40 - 1) % 16 + 1)
read_command_lem_example =
    read_command_lem 0x1_2345_6789 40 0x9000 (omega arith) (omega arith) (omega arith) (omega arith)

find_cmdslot-FirstFree_example : FirstFree 32 0 (bit_or 1 2) (find_cmdslot port)
find_cmdslot-FirstFree_example = find_cmdslot-FirstFree port

-- A list of one entry at 0x3000, and a new one at 0x4000.
ahci_append_to_lin_address_list-Links_example :
    (e' : ℕ) × (m' : Mem) × (ahci_append_to_lin_address_list 1 0x3000 0x4000 (λ p. 0)
      ≡ some (e', m'))
    × Links m' e' (0x3000 ∷ 0x4000 ∷ [])
unfolding read_bytes
ahci_append_to_lin_address_list-Links_example =
    ahci_append_to_lin_address_list-Links (0x3000 ∷ []) 1 0x3000 0x4000 (λ p. 0)
      (refl, omega arith, refl) (tt, tt) (omega arith, tt) (omega arith) (omega arith) refl
      (omega arith)

-- A list of one entry, at 0x3000, for the port at 0x9000, whose command is at work at the first poll.
abbrev reads : PortReads
reads = record { registers = port; tfd = λ k. 0x50; ci = λ k. if k == 0 then 4 else 0; is = λ k. 0 }

abbrev listed : Machine
listed = with_ram (λ p. if p == 0x3009 then 0x90 else 0) booted

spins : spin_ready reads 1000000 0 ≡ 0
unfolding spin_ready
spins = refl

waits : wait_done reads 5 2 0 ≡ some (finished 1)
unfolding wait_done
waits = refl

finds : find_entry 1 0x9000 0x3000 (ram listed) ≡ some (some 0x3000)
unfolding find_entry read_bytes
finds = refl

ahci_port_read-ReadEnds_example :
    ReadEnds reads 5 0x9000
      (0x3000 ∷ [])
      (ram listed)
      (ahci_port_read reads 1 5 0x3000 0x9000 1 1 0x20000 listed)
unfolding read_bytes mem_init
ahci_port_read-ReadEnds_example =
    ahci_port_read-ReadEnds reads 1 5 0x9000 1 1 0x20000 0x3000 (0x3000 ∷ []) listed
      (record { column = omega arith; line = omega arith }) (refl, omega arith, refl)
      (omega arith, omega arith, tt) (omega arith)

-- Forty sectors are three regions.
abbrev three_regions : Mem
three_regions = λ p. if p == 0x3002 then 3 else 0

last_region :
    read_bytes 4 0x50AC (write_regions 4 0x3000 0x5000 0 0x20000 40 three_regions).0
    ≡ 2 ^ 31 + 8 * 512 - 1
unfolding write_regions write_region read_bytes write_bytes write8
last_region = refl

write_regions-read_command_example :
    Written 0x5000 0 3 three_regions
      (read_command 7 40 0x20000).0
      8
      (write_regions (2 ^ 16) 0x3000 0x5000 0 0x20000 40 three_regions).0
      (write_regions (2 ^ 16) 0x3000 0x5000 0 0x20000 40 three_regions).1
    × ((read_command 7 40 0x20000).1
        ≡ command_fis 7 (write_regions (2 ^ 16) 0x3000 0x5000 0 0x20000 40 three_regions).1)
unfolding prdt_length prdt_entries read_bytes
write_regions-read_command_example =
    write_regions-read_command 0x3000 0x5000 7 0x20000 40 three_regions (omega arith) refl
      (omega arith) (omega arith)

-- A controller whose highest port is the last of 32, with no drive.
abbrev controller : AhciHba
controller = record {
  address = 0xA0000;
  ports_implemented = 2 ^ 31;
  ports = λ i. record {
    kind = record { signature = 0; sata_status = 0; sata_active = 0; ci = 0 };
    clb = 0;
    clbu = 0;
    fb = 0;
    fbu = 0;
    cmd = λ k. 0;
  };
}

ahci_port_rebase-visit_ports_example :
    (ahci_port_rebase (mem_alloc 2 8) 4 4 0 controller 0 booted
      ≡ visit_ports (mem_alloc 2 8) 4 4 0 controller 33 0 0 booted)
    × (bit (2 ^ 31) 32 ≡ 0)
ahci_port_rebase-visit_ports_example =
    ahci_port_rebase-visit_ports (mem_alloc 2 8) 4 4 0 controller 31 0 booted (omega arith)
      (omega arith) (omega arith)

-- A port that runs for three more reads.
abbrev slow : ℕ → ℕ
slow k = if ltb k 3 then 0xC011 else 0

slow_late : (k : ℕ) → 3 ≤ k → slow k ≡ 0
slow_late k l = let late : ltb k 3 ≡ false = ground arith in rw late refl

ahci_port_stop_cmd-Returns_example :
    ((j : ℕ) × (ahci_port_stop_cmd slow 4 0 ≡ some (0xC010 ∷ 0xC001 ∷ [], j + 2))
      × (bit_and (slow j) 0x4000 ≡ 0)
      × (bit_and (slow (j + 1)) 0x8000 ≡ 0))
    × ((j : ℕ) × (ahci_port_start_cmd slow 4 0
          ≡ some (bit_or (slow (j + 1)) 0x10 ∷ bit_or (slow (j + 2)) 1 ∷ [], j + 3))
        × (bit_and (slow j) 0x8000 ≡ 0))
ahci_port_stop_cmd-Returns_example =
    ahci_port_stop_cmd-Returns slow 3 3 0 (λ k l. rw (slow_late k l) refl)
      (λ k l. rw (slow_late k l) refl) (omega arith)
