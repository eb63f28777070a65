-- ===== src/Cpu.antt =====
-- kernel/src/code/cpu/pic.c and cpu/cpuid.c: the stores to the ports of the interrupt controllers, in
-- their order, and the name of the processor. What ports and CPUID read as is given.
use os_v.Base.{ℕ, List, [], ◌∷◌, bit_or, u8, u32, shr}

-- `outb(port, val)`.
pub record PortStore : Type 0 where
  pub port : ℕ
  pub val : ℕ

abbrev pub outb : ℕ → ℕ → PortStore
outb port val = record { port = port; val = val }

abbrev pub pic_1_cmd : ℕ
pic_1_cmd = 0x20

abbrev pub pic_1_data : ℕ
pic_1_data = 0x21

abbrev pub pic_2_cmd : ℕ
pic_2_cmd = 0xA0

abbrev pub pic_2_data : ℕ
pic_2_data = 0xA1

abbrev pub pic_icw1_icw4 : ℕ
pic_icw1_icw4 = 0x01

abbrev pub pic_icw1_init : ℕ
pic_icw1_init = 0x10

abbrev pub pic_icw4_8086 : ℕ
pic_icw4_8086 = 0x01

abbrev pub pic_cmd_init : ℕ
pic_cmd_init = bit_or pic_icw1_init pic_icw1_icw4

-- `pic_remap`, where `inb` is what the ports read as.
unfoldable pub pic_remap : (ℕ → ℕ) → ℕ → ℕ → List PortStore
pic_remap inb pic1 pic2 =
    outb pic_1_cmd pic_cmd_init
    ∷ outb pic_2_cmd pic_cmd_init
    ∷ outb pic_1_data pic1
    ∷ outb pic_2_data pic2
    ∷ outb pic_1_data 0b00000100
    ∷ outb pic_2_data 0b00000010
    ∷ outb pic_1_data pic_icw4_8086
    ∷ outb pic_2_data pic_icw4_8086
    ∷ outb pic_1_data (u8 (inb pic_1_data))
    ∷ outb pic_2_data (u8 (inb pic_2_data))
    ∷ []

-- `PIC_DISABLE` and `PIC_EOI` in `pic_disable` and `pic_eoi`.
unfoldable pub pic_disable : List PortStore
pic_disable = outb pic_1_data 0xFF ∷ outb pic_2_data 0xFF ∷ []

unfoldable pub pic_eoi : List PortStore
pic_eoi = outb pic_1_cmd 0x20 ∷ outb pic_2_cmd 0x20 ∷ []

-- Four characters of a register.
unfoldable pub four_chars : ℕ → List ℕ → List ℕ
four_chars reg rest = u8 reg ∷ u8 (shr reg 8) ∷ u8 (shr reg 16) ∷ u8 (shr reg 24) ∷ rest

-- `cpuid_getVendor`, with what CPUID leaves in RBX, RCX and RDX: the array of 18 characters, whose last
-- six stay as they are.
unfoldable pub cpuid_get_vendor : ℕ → ℕ → ℕ → List ℕ
cpuid_get_vendor reg_b reg_c reg_d =
    four_chars reg_b
      (four_chars reg_d (four_chars reg_c (b' ' ∷ b' ' ∷ b' ' ∷ b' ' ∷ b'/' ∷ b'e' ∷ [])))

-- `cpuid_getFeatures`, with what CPUID leaves in ECX and EDX.
unfoldable pub cpuid_get_features : ℕ → ℕ → ℕ × ℕ
cpuid_get_features reg_c reg_d = (u32 reg_c, u32 reg_d)
