-- ===== src/Disk/Tests.antt =====
-- A table of two devices, of which the first is an AHCI controller, and the theorem there.
use os_v.Base.{ℕ, ◌+◌, ◌*◌, ◌≡◌, [], ◌∷◌, refl, arith, ◌==◌, if◌then◌else◌}
use os_v.Memory.{write8, read_bytes, write_bytes, write16}
use os_v.Machine.{Machine, ram}
use os_v.Pci.Table.{Holds}
use os_v.Pci.{config_address, pci_config_read_word}
use os_v.Disk.{Disk, is_ahci, search_loop}
use os_v.Disk.Search.{Searched, controllers, search_loop-Searched}

-- The class of the device at bus 0 and slot 1 is 1, its subclass 6.
abbrev config : ℕ → ℕ
config address = if address == 0x80000808 then 0x01060000 else 0x02000000

abbrev computer : Machine
computer = record {
  screen = record {
    cur_x = 0;
    cur_y = 0;
    print_status = 0;
    ram = write16 0x5000 0x0100 (write16 0x5002 0x0200 (λ p. 0));
  };
  paging = record {
    pagemap_start = 0;
    page_maxphyaddr = 0;
    page_maxlinaddr = 0;
    page_map_filter = 0;
    page_pml5_backup = 0;
    page_pml4_backup = 0;
    page_pdpt_backup = 0;
    page_pd_backup = 0;
  };
  allocator = record {
    memorymap = [];
    mem_palloc_start = 0;
    mem_palloc_size = 0;
    memorymap_max_ram = 0;
  };
  heap = record { mem_list_start = 0; mem_end = 0; maxlinaddr = 0; paddr = 0 };
}

abbrev no_disk : Disk
no_disk = record { disk_found_ahci_amount = 0; disk_found_ahci_addr = λ j. 0 }

table_Holds : Holds (0x5000 + 2 * 0) (0x0100 ∷ 0x0200 ∷ []) (ram computer)
unfolding read_bytes write_bytes write8
table_Holds = (refl, (refl, tt))

search_loop-Searched_example :
    Searched no_disk
      (controllers config (0x0100 ∷ 0x0200 ∷ []))
      computer
      (search_loop config 2 0 0x5000 no_disk computer)
search_loop-Searched_example =
    search_loop-Searched config (0x0100 ∷ 0x0200 ∷ []) 0 0x5000 no_disk computer table_Holds
      (omega arith) (omega arith)

one_controller : controllers config (0x0100 ∷ 0x0200 ∷ []) ≡ 0x0100 ∷ []
unfolding controllers is_ahci config_address pci_config_read_word
one_controller = refl
