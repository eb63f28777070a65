-- ===== src/Kernel.antt =====
-- kernel/src/code/kernel.c: `main`, as one run over the whole state.
pub mod Boot
mod Tests
pub mod Texts
use os_v.Base.{
  ℕ, zero, suc, ◌+◌, ◌-◌, ◌*◌, ◌/◌, ◌%◌, ◌^◌, Bool, true, false, List, [], ◌∷◌, ◌==◌, if◌then◌else◌,
  u8, u32, shr,
}
use os_v.Base.Int.{ℤ, pos}
use os_v.Screen.{Screen, cursor_set, screen_clear}
use os_v.Screen.Numbers.{print_x}
use os_v.Screen.Format.{number, chars}
use os_v.Machine.{Machine, ram, Run, Cmd, done, halted, ◌>>=◌, ◌>>◌, get, modify}
use os_v.Paging.{page_map_init}
use os_v.Palloc.Init.{mem_palloc_init}
use os_v.Alloc.{mem_init, mem_alloc}
use os_v.Cpu.{PortStore, pic_remap, cpuid_get_vendor, cpuid_get_features}
use os_v.Idt.{Idt}
use os_v.Idt.Exceptions.{Isr, main_idt}
use os_v.Pci.{Pci, pci_check_bus}
use os_v.Disk.{Disk, disk_search_disks}
use os_v.Machine.{print}
use os_v.Ahci.Read.{PortReads}
use os_v.Ahci.Rebase.{AhciHba}
use os_v.Ahci.Init.{disk_init}
use os_v.Kernel.Texts.{
  kernel_text, spaces_text, pics_text, done_line_text, idt_text, pit_text, vendor_text,
  feature_c_text, feature_d_text, phy_bits_text, lin_bits_text, paging_text, palloc_text,
  alloc_text, kernel_start_text, kernel_end_text, pci_text, no_disk_text, finished_text,
}

-- What the processor, the linker and the devices give: the ports, CPUID, CR3, the addresses of the static
-- tables, of the kernel's ends and of the interrupt handlers, the configuration space, and the
-- registers of the AHCI controllers.
pub record Platform : Type 0 where
  pub inb : ℕ → ℕ
  pub vendor_b : ℕ
  pub vendor_c : ℕ
  pub vendor_d : ℕ
  pub feature_c : ℕ
  pub feature_d : ℕ
  pub address_bits : ℕ
  pub cr3 : ℕ
  pub pml5_s : ℕ
  pub pml4_s : ℕ
  pub pdpt_s : ℕ
  pub pd_s : ℕ
  pub kernel_start : ℕ
  pub endptr : ℕ
  pub default_isr : ℕ
  pub idt_address : ℕ
  pub isr_address : Isr → ℕ
  pub timer_isr : ℕ
  pub config : ℕ → ℕ
  pub hba : ℕ → ℕ → AhciHba
  pub reads : ℕ → PortReads
  pub junk : ℕ

-- The delay: the numbers from `left` down to 1, typed at one place.
unfoldable pub countdown : ℕ → ℕ → ℕ → Screen → Screen
countdown zero x y s = s
countdown (suc left) x y s =
    countdown left x y (print_x (suc left) 16 (cursor_set (pos x) (pos y) s))

-- The first lines, up to the interrupt controllers.
unfoldable pub greet : Cmd (Unit {0})
greet = do
  modify (λ m. record m { screen = screen_clear m.screen })
  print kernel_text []
  m ← get
  let x = m.screen.cur_x
  let y = m.screen.cur_y
  modify (λ n. record n { screen = cursor_set (pos x) (pos y) (countdown 0xFFFF x y n.screen) })
  print spaces_text []
  modify (λ n. record n { screen = cursor_set (pos x) (pos y) n.screen })

module _ (p : Platform) where
  -- The interrupt controllers and the interrupt table.
  unfoldable pub setup_interrupts : Idt → Cmd (List PortStore × Idt)
  setup_interrupts idt = do
    print pics_text []
    print done_line_text []
    print idt_text []
    print done_line_text []
    print pit_text []
    print done_line_text []
    done (
      pic_remap p.inb 0x20 0x28,
      main_idt p.default_isr p.idt_address p.isr_address p.timer_isr idt,
    )

  -- `pciPrintInfo`.
  unfoldable pub pci_print_info : Pci → Cmd (Unit {0})
  pci_print_info pci = print pci_text (number pci.pci_devices_amount ∷ [])

  unfoldable pub print_cpu : Cmd (Unit {0})
  print_cpu = do
    let (ecx, edx) = cpuid_get_features p.feature_c p.feature_d
    print vendor_text (chars (cpuid_get_vendor p.vendor_b p.vendor_c p.vendor_d) ∷ [])
    print feature_c_text (number ecx ∷ [])
    print feature_d_text (number edx ∷ [])
    print phy_bits_text (number (u8 p.address_bits) ∷ [])
    print lin_bits_text (number (u8 (shr p.address_bits 8)) ∷ [])

  -- Behind the set-up of the page allocator.
  unfoldable pub behind_palloc : ℕ → Cmd ℕ
  behind_palloc endofkernel = do
    print done_line_text []
    print alloc_text []
    modify (mem_init endofkernel 0x10000 (u8 (shr p.address_bits 8)))
    print done_line_text []
    print kernel_start_text (number p.kernel_start ∷ [])
    print kernel_end_text (number endofkernel ∷ [])
    done endofkernel

  -- The page tables, the page allocator and the memory allocator: the new end of the kernel.
  unfoldable pub setup_memory : Cmd ℕ
  setup_memory = do
    print paging_text []
    modify (λ m. record m {
      paging = page_map_init p.address_bits p.cr3 p.pml5_s p.pml4_s p.pdpt_s p.pd_s;
    })
    print done_line_text []
    print palloc_text []
    endofkernel ← mem_palloc_init p.kernel_start p.endptr
    behind_palloc endofkernel

  -- The devices, and the endless loop at the end.
  unfoldable pub setup_devices : ℕ → ℕ → ℕ → Pci → Disk → Cmd (Unit {0})
  setup_devices depth walk fuel pci disk = do
    found ← pci_check_bus p.config depth walk pci
    pci_print_info found
    (pci', disk', any) ← disk_search_disks p.config depth walk found disk
    elim any [
      | false ↦ (do print no_disk_text []; halted)
      | true ↦ (do
        disk_init (mem_alloc depth walk) fuel walk p.junk p.config p.hba p.reads disk'
        print finished_text []
        halted)
    ]

  -- `main`, with the fuel of the functions that it calls. It does not return.
  unfoldable pub main : ℕ → ℕ → ℕ → Idt → Pci → Disk → Cmd (Unit {0})
  main depth walk fuel idt pci disk = do
    greet
    setup_interrupts idt
    print_cpu
    setup_memory
    setup_devices depth walk fuel pci disk
