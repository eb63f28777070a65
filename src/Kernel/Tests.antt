-- ===== src/Kernel/Tests.antt =====
-- The set-up of the memory for a kernel at 0x8000 to 0x9000, and the interrupt controllers.
use os_v.Base.{ℕ, ◌+◌, ◌≤◌, ◌≡◌, true, refl, inl, [], ◌∷◌, arith, ◌∙◌}
use os_v.Memory.{read64, read_bytes, write_bytes, write8}
use os_v.Memory.Laws.{read_bytes_cong}
use os_v.Screen.{Screen}
use os_v.Screen.Cursor.{Draws}
use os_v.Screen.Output.{accepts, after_command, ends}
use os_v.Screen.Format.{chars}
use os_v.Machine.{Machine, done}
use os_v.Palloc.Init.{sum_ram, fill_loop_lem, new_kernelend, with_table, filled_ram}
use os_v.Palloc.InitTests.{
  computer, low_ram, tables, computer-IsMapped, computer-Bounded, low_ram-has_kernel, table_fits,
  few_pages,
}
use os_v.Paging.{page_map_init}
use os_v.Paging.Map.{trace_path}
use os_v.Cpu.{cpuid_get_vendor, four_chars}
use os_v.Kernel.{Platform, setup_memory}
use os_v.Kernel.Texts.{vendor_text}
use os_v.Kernel.Boot.{Booted, KernelMapped, tables_of, new_end, setup_memory-Booted}

abbrev platform : Platform
platform = record {
  inb = λ port. 0xB8;
  vendor_b = 0x756E6547;
  vendor_c = 0x6C65746E;
  vendor_d = 0x49656E69;
  feature_c = 0;
  feature_d = 0;
  address_bits = 0x3028;
  cr3 = 0x1000;
  pml5_s = 0x10000;
  pml4_s = 0x11000;
  pdpt_s = 0x12000;
  pd_s = 0x13000;
  kernel_start = 0x8000;
  endptr = 0x9000;
  default_isr = 0x8100;
  idt_address = 0x8800;
  isr_address = λ e. 0x8200;
  timer_isr = 0x8300;
  config = λ a. 0xFFFFFFFF;
  hba = λ i a. record {
    address = a;
    ports_implemented = 0;
    ports = λ j. record {
      kind = record { signature = 0; sata_status = 0; sata_active = 0; ci = 0 };
      clb = 0;
      clbu = 0;
      fb = 0;
      fbu = 0;
      cmd = λ k. 0;
    };
  };
  reads = λ i. record {
    registers = record { signature = 0; sata_status = 0; sata_active = 0; ci = 0 };
    tfd = λ k. 0;
    ci = λ k. 0;
    is = λ k. 0;
  };
  junk = 0;
}

-- "GenuineIntel    /e".
vendor :
    cpuid_get_vendor 0x756E6547 0x6C65746E 0x49656E69
    ≡ b'G' ∷ b'e' ∷ b'n' ∷ b'u' ∷ b'i' ∷ b'n' ∷ b'e' ∷ b'I' ∷ b'n' ∷ b't' ∷ b'e' ∷ b'l' ∷ b' '
      ∷ b' ' ∷ b' ' ∷ b' ' ∷ b'/' ∷ b'e' ∷ []
unfolding cpuid_get_vendor four_chars
vendor = refl

vendor_accepted :
    accepts vendor_text (chars (cpuid_get_vendor 0x756E6547 0x6C65746E 0x49656E69) ∷ []) ≡ true
unfolding accepts after_command ends cpuid_get_vendor four_chars
vendor_accepted = refl

module _ (s : Screen) (d : Draws computer.screen s) where
  -- The tables lie below the bitmap and video memory.
  word :
      (a : ℕ)
      → a + 8 ≤ 0x9000
      → read64 a (filled_ram 0x9000 (record computer { screen = s })) ≡ read64 a tables
  unfolding with_table sum_ram
  word a below =
      read_bytes_cong 8 a (filled_ram 0x9000 (record computer { screen = s })) tables (λ q lo hi.
        ground (arith, fill_loop_lem 16 0 0x9000 s.ram q (omega arith))
        ∙ d.outside q (inl (omega arith)))

platform-KernelMapped : KernelMapped platform 0x8000 computer
unfolding page_map_init new_kernelend with_table sum_ram read_bytes write_bytes write8
platform-KernelMapped s d = (
  trace_path (tables_of platform 0x8000 computer) 0x8000 0x2003 0x3003 0x4003 0x8003
      (filled_ram 0x9000 (record computer { screen = s }))
      (record {
        pml4 = word s d 0x1000 (omega arith);
        pdpt = word s d 0x2000 (omega arith);
        pd = word s d 0x3000 (omega arith);
        present4 = refl;
        present3 = refl;
        present2 = refl;
      })
      (word s d 0x4040 (omega arith)) refl,
  trace_path (tables_of platform 0x8000 computer) 0xA000 0x2003 0x3003 0x4003 0xA003
      (filled_ram 0x9000 (record computer { screen = s }))
      (record {
        pml4 = word s d 0x1000 (omega arith);
        pdpt = word s d 0x2000 (omega arith);
        pd = word s d 0x3000 (omega arith);
        present4 = refl;
        present3 = refl;
        present2 = refl;
      })
      (word s d 0x4050 (omega arith)) refl,
)

setup_memory-Booted_example :
    (m' : Machine) × (setup_memory platform computer ≡ done (new_end platform 0x8000 computer) m')
    × Booted computer m'
        (tables_of platform 0x8000 computer)
        0x8000
        0x9000
        (new_end platform 0x8000 computer)
        0x8000
unfolding new_kernelend with_table sum_ram
setup_memory-Booted_example =
    setup_memory-Booted platform 0x8000 computer low_ram 0x9000
      (record { column = omega arith; line = omega arith }) table_fits (omega arith) (omega arith)
      few_pages (inl (omega arith)) platform-KernelMapped (inl (refl, refl)) low_ram-has_kernel
      computer-IsMapped computer-Bounded
