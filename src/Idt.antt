-- ===== src/Idt.antt =====
-- kernel/src/code/cpu/idt.c and include/cpu/idt.h: the interrupt descriptor table; cpu/timer.c: the
-- gate of the timer; cpu/exception.isr.c: the handlers of the exceptions; and the gates that
-- kernel/src/code/kernel.c sets.
pub mod Print
pub mod Exceptions
pub mod Gates
pub mod Messages
pub mod Table
mod Tests
use os_v.Base.{
  ℕ, zero, suc, ◌+◌, ◌-◌, ◌*◌, ◌/◌, ◌%◌, ◌^◌, Bool, ◌==◌, if◌then◌else◌, u8, u16, u32, u64, shl,
  shr, bit_or, int_index,
}

pub record Idt64 : Type 0 where
  pub offset_1 : ℕ
  pub selector : ℕ
  pub ist : ℕ
  pub type_attributes : ℕ
  pub offset_2 : ℕ
  pub offset_3 : ℕ
  pub zero_0 : ℕ

-- `struct IDT64 IDT[400]`.
abbrev pub Idt : Type 0
Idt = ℕ → Idt64

abbrev pub idt_length : ℕ
idt_length = 400

-- What `load_idt` hands to the processor.
pub record Idtr64 : Type 0 where
  pub size : ℕ
  pub offset : ℕ

abbrev pub idt_default_segsel : ℕ
idt_default_segsel = 0x08

abbrev pub idt_default_flag : ℕ
idt_default_flag = 0x8E

-- What `idt_set` stores.
unfoldable pub gate : ℕ → ℕ → ℕ → Idt64
gate offset seg_sel flags = record {
  offset_1 = u16 offset;
  selector = u16 seg_sel;
  ist = 0;
  type_attributes = u8 flags;
  offset_2 = u16 (u32 (shr offset 16));
  offset_3 = u32 (shr offset 32);
  zero_0 = 0;
}

unfoldable pub idt_set : ℕ → ℕ → ℕ → ℕ → Idt → Idt
idt_set offset seg_sel idte flags idt i = if i == u8 idte then gate offset seg_sel flags else idt i

-- The loop of `idt_init`.
unfoldable pub idt_init_loop : ℕ → ℕ → ℕ → Idt → Idt
idt_init_loop zero i isr idt = idt
idt_init_loop (suc left) i isr idt =
    idt_init_loop left (i + 1) isr (idt_set isr idt_default_segsel i idt_default_flag idt)

-- `idt_init`, with the addresses of `idt_isr_default` and of the table.
unfoldable pub idt_init : ℕ → ℕ → Idt → Idt × Idtr64
idt_init isr address idt =
    (idt_init_loop 256 0 isr idt, record { size = u16 (idt_length * 16 - 1); offset = address })

-- The address that `print_idte` prints. `idte->offset_1 | (idte->offset_2 << 16)` is an `int`, whose
-- sign the `|` with an `uint64_t` extends.
unfoldable pub printed_address : Idt64 → ℕ
printed_address e =
    bit_or (int_index (bit_or (e.offset_1) (shl e.offset_2 16))) (u64 (shl e.offset_3 32))

abbrev pub syscounter_segsel : ℕ
syscounter_segsel = 0x08

abbrev pub syscounter_idte : ℕ
syscounter_idte = 0x20

abbrev pub syscounter_flag : ℕ
syscounter_flag = 0x8E

-- `syscounter_init`, with the address of `syscounter_isr`.
unfoldable pub syscounter_init : ℕ → Idt → Idt
syscounter_init isr = idt_set isr syscounter_segsel syscounter_idte syscounter_flag
