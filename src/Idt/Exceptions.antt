-- ===== src/Idt/Exceptions.antt =====
-- kernel/src/code/cpu/exception.isr.c: the handlers of the processor's exceptions, and their gates
-- in kernel/src/code/kernel.c.
use os_v.Base.{ℕ, List, [], ◌∷◌, Option}
use os_v.Screen.{Screen, print_chars}
use os_v.Idt.{Idt, idt_set, idt_init, syscounter_init}

pub data Isr : Type 0 where
  div_by_zero_isr : Isr
  debug_isr : Isr
  nmi_isr : Isr
  breakpoint_isr : Isr
  overflow_isr : Isr
  bound_isr : Isr
  opcode_isr : Isr
  device_isr : Isr
  double_f_isr : Isr
  tss_isr : Isr
  seg_pres_isr : Isr
  seg_stack_isr : Isr
  gpf_isr : Isr
  pf_isr : Isr
  x87_isr : Isr
  alignment_isr : Isr
  machine_isr : Isr
  simd_isr : Isr
  virt_isr : Isr
  crt_isr : Isr
  hyper_isr : Isr
  vmm_isr : Isr
  sec_isr : Isr

-- The text that a handler prints.
unfoldable pub message : Isr → List ℕ
message div_by_zero_isr =
    b'E' ∷ b'X' ∷ b'C' ∷ b'E' ∷ b'P' ∷ b'T' ∷ b'I' ∷ b'O' ∷ b'N' ∷ b':' ∷ b' ' ∷ b'D' ∷ b'I' ∷ b'V'
    ∷ b'I' ∷ b'D' ∷ b'E' ∷ b' ' ∷ b'B' ∷ b'Y' ∷ b' ' ∷ b'Z' ∷ b'E' ∷ b'R' ∷ b'O' ∷ b'/' ∷ b'e' ∷ []
message debug_isr =
    b'E' ∷ b'X' ∷ b'C' ∷ b'E' ∷ b'P' ∷ b'T' ∷ b'I' ∷ b'O' ∷ b'N' ∷ b':' ∷ b' ' ∷ b'D' ∷ b'E' ∷ b'B'
    ∷ b'U' ∷ b'G' ∷ b'/' ∷ b'e' ∷ []
message nmi_isr =
    b'E' ∷ b'X' ∷ b'C' ∷ b'E' ∷ b'P' ∷ b'T' ∷ b'I' ∷ b'O' ∷ b'N' ∷ b':' ∷ b' ' ∷ b'N' ∷ b'M' ∷ b'I'
    ∷ b'/' ∷ b'e' ∷ []
message breakpoint_isr =
    b'E' ∷ b'X' ∷ b'C' ∷ b'E' ∷ b'P' ∷ b'T' ∷ b'I' ∷ b'O' ∷ b'N' ∷ b':' ∷ b' ' ∷ b'B' ∷ b'R' ∷ b'E'
    ∷ b'A' ∷ b'K' ∷ b'P' ∷ b'O' ∷ b'I' ∷ b'N' ∷ b'T' ∷ b'/' ∷ b'e' ∷ []
message overflow_isr =
    b'E' ∷ b'X' ∷ b'C' ∷ b'E' ∷ b'P' ∷ b'T' ∷ b'I' ∷ b'O' ∷ b'N' ∷ b':' ∷ b' ' ∷ b'O' ∷ b'V' ∷ b'E'
    ∷ b'R' ∷ b'F' ∷ b'L' ∷ b'O' ∷ b'W' ∷ b'/' ∷ b'e' ∷ []
message bound_isr =
    b'E' ∷ b'X' ∷ b'C' ∷ b'E' ∷ b'P' ∷ b'T' ∷ b'I' ∷ b'O' ∷ b'N' ∷ b':' ∷ b' ' ∷ b'B' ∷ b'O' ∷ b'U'
    ∷ b'N' ∷ b'D' ∷ b' ' ∷ b'R' ∷ b'A' ∷ b'N' ∷ b'G' ∷ b'E' ∷ b' ' ∷ b'E' ∷ b'X' ∷ b'C' ∷ b'E'
    ∷ b'E' ∷ b'D' ∷ b'E' ∷ b'D' ∷ b'/' ∷ b'e' ∷ []
message opcode_isr =
    b'E' ∷ b'X' ∷ b'C' ∷ b'E' ∷ b'P' ∷ b'T' ∷ b'I' ∷ b'O' ∷ b'N' ∷ b':' ∷ b' ' ∷ b'I' ∷ b'N' ∷ b'V'
    ∷ b'A' ∷ b'L' ∷ b'I' ∷ b'D' ∷ b' ' ∷ b'O' ∷ b'P' ∷ b'C' ∷ b'O' ∷ b'D' ∷ b'E' ∷ b'/' ∷ b'e' ∷ []
message device_isr =
    b'E' ∷ b'X' ∷ b'C' ∷ b'E' ∷ b'P' ∷ b'T' ∷ b'I' ∷ b'O' ∷ b'N' ∷ b':' ∷ b' ' ∷ b'D' ∷ b'E' ∷ b'V'
    ∷ b'I' ∷ b'C' ∷ b'E' ∷ b' ' ∷ b'N' ∷ b'O' ∷ b'T' ∷ b' ' ∷ b'A' ∷ b'V' ∷ b'A' ∷ b'I' ∷ b'L'
    ∷ b'A' ∷ b'B' ∷ b'L' ∷ b'E' ∷ b'/' ∷ b'e' ∷ []
message double_f_isr =
    b'E' ∷ b'X' ∷ b'C' ∷ b'E' ∷ b'P' ∷ b'T' ∷ b'I' ∷ b'O' ∷ b'N' ∷ b':' ∷ b' ' ∷ b'D' ∷ b'O' ∷ b'U'
    ∷ b'B' ∷ b'L' ∷ b'E' ∷ b' ' ∷ b'F' ∷ b'A' ∷ b'U' ∷ b'L' ∷ b'T' ∷ b'/' ∷ b'e' ∷ []
message tss_isr =
    b'E' ∷ b'X' ∷ b'C' ∷ b'E' ∷ b'P' ∷ b'T' ∷ b'I' ∷ b'O' ∷ b'N' ∷ b':' ∷ b' ' ∷ b'I' ∷ b'N' ∷ b'V'
    ∷ b'A' ∷ b'L' ∷ b'I' ∷ b'D' ∷ b' ' ∷ b'T' ∷ b'S' ∷ b'S' ∷ b'/' ∷ b'e' ∷ []
message seg_pres_isr =
    b'E' ∷ b'X' ∷ b'C' ∷ b'E' ∷ b'P' ∷ b'T' ∷ b'I' ∷ b'O' ∷ b'N' ∷ b':' ∷ b' ' ∷ b'S' ∷ b'E' ∷ b'G'
    ∷ b'M' ∷ b'E' ∷ b'N' ∷ b'T' ∷ b' ' ∷ b'N' ∷ b'O' ∷ b'T' ∷ b' ' ∷ b'P' ∷ b'R' ∷ b'E' ∷ b'S'
    ∷ b'E' ∷ b'N' ∷ b'T' ∷ b'/' ∷ b'e' ∷ []
message seg_stack_isr =
    b'E' ∷ b'X' ∷ b'C' ∷ b'E' ∷ b'P' ∷ b'T' ∷ b'I' ∷ b'O' ∷ b'N' ∷ b':' ∷ b' ' ∷ b'S' ∷ b'T' ∷ b'A'
    ∷ b'C' ∷ b'K' ∷ b' ' ∷ b'S' ∷ b'E' ∷ b'G' ∷ b'M' ∷ b'E' ∷ b'N' ∷ b'T' ∷ b' ' ∷ b'F' ∷ b'A'
    ∷ b'U' ∷ b'L' ∷ b'T' ∷ b'/' ∷ b'e' ∷ []
message gpf_isr =
    b'E' ∷ b'X' ∷ b'C' ∷ b'E' ∷ b'P' ∷ b'T' ∷ b'I' ∷ b'O' ∷ b'N' ∷ b':' ∷ b' ' ∷ b'G' ∷ b'E' ∷ b'N'
    ∷ b'E' ∷ b'R' ∷ b'A' ∷ b'L' ∷ b' ' ∷ b'P' ∷ b'R' ∷ b'O' ∷ b'T' ∷ b'E' ∷ b'C' ∷ b'T' ∷ b'I'
    ∷ b'O' ∷ b'N' ∷ b' ' ∷ b'F' ∷ b'A' ∷ b'U' ∷ b'L' ∷ b'T' ∷ b'/' ∷ b'e' ∷ []
message pf_isr =
    b'E' ∷ b'X' ∷ b'C' ∷ b'E' ∷ b'P' ∷ b'T' ∷ b'I' ∷ b'O' ∷ b'N' ∷ b':' ∷ b' ' ∷ b'P' ∷ b'A' ∷ b'G'
    ∷ b'E' ∷ b' ' ∷ b'F' ∷ b'A' ∷ b'U' ∷ b'L' ∷ b'T' ∷ b'/' ∷ b'e' ∷ []
message x87_isr =
    b'E' ∷ b'X' ∷ b'C' ∷ b'E' ∷ b'P' ∷ b'T' ∷ b'I' ∷ b'O' ∷ b'N' ∷ b':' ∷ b' ' ∷ b'X' ∷ b'8' ∷ b'6'
    ∷ b' ' ∷ b'F' ∷ b'L' ∷ b'O' ∷ b'A' ∷ b'T' ∷ b'I' ∷ b'N' ∷ b'G' ∷ b' ' ∷ b'P' ∷ b'O' ∷ b'I'
    ∷ b'N' ∷ b'T' ∷ b' ' ∷ b'E' ∷ b'X' ∷ b'C' ∷ b'E' ∷ b'P' ∷ b'T' ∷ b'I' ∷ b'O' ∷ b'N' ∷ b'/'
    ∷ b'e' ∷ []
message alignment_isr =
    b'E' ∷ b'X' ∷ b'C' ∷ b'E' ∷ b'P' ∷ b'T' ∷ b'I' ∷ b'O' ∷ b'N' ∷ b':' ∷ b' ' ∷ b'A' ∷ b'L' ∷ b'I'
    ∷ b'G' ∷ b'N' ∷ b'M' ∷ b'E' ∷ b'N' ∷ b'T' ∷ b' ' ∷ b'C' ∷ b'H' ∷ b'E' ∷ b'C' ∷ b'K' ∷ b'/'
    ∷ b'e' ∷ []
message machine_isr =
    b'E' ∷ b'X' ∷ b'C' ∷ b'E' ∷ b'P' ∷ b'T' ∷ b'I' ∷ b'O' ∷ b'N' ∷ b':' ∷ b' ' ∷ b'M' ∷ b'A' ∷ b'C'
    ∷ b'H' ∷ b'O' ∷ b'N' ∷ b'E' ∷ b' ' ∷ b'C' ∷ b'H' ∷ b'E' ∷ b'C' ∷ b'K' ∷ b'/' ∷ b'e' ∷ []
message simd_isr =
    b'E' ∷ b'X' ∷ b'C' ∷ b'E' ∷ b'P' ∷ b'T' ∷ b'I' ∷ b'O' ∷ b'N' ∷ b':' ∷ b' ' ∷ b'S' ∷ b'I' ∷ b'M'
    ∷ b'D' ∷ b' ' ∷ b'F' ∷ b'L' ∷ b'O' ∷ b'A' ∷ b'T' ∷ b'I' ∷ b'N' ∷ b'G' ∷ b' ' ∷ b'P' ∷ b'O'
    ∷ b'I' ∷ b'N' ∷ b'T' ∷ b' ' ∷ b'E' ∷ b'X' ∷ b'C' ∷ b'E' ∷ b'P' ∷ b'T' ∷ b'I' ∷ b'O' ∷ b'N'
    ∷ b'/' ∷ b'e' ∷ []
message virt_isr =
    b'E' ∷ b'X' ∷ b'C' ∷ b'E' ∷ b'P' ∷ b'T' ∷ b'I' ∷ b'O' ∷ b'N' ∷ b':' ∷ b' ' ∷ b'V' ∷ b'I' ∷ b'R'
    ∷ b'T' ∷ b'U' ∷ b'A' ∷ b'L' ∷ b'I' ∷ b'Z' ∷ b'A' ∷ b'T' ∷ b'I' ∷ b'O' ∷ b'N' ∷ b' ' ∷ b'E'
    ∷ b'X' ∷ b'C' ∷ b'E' ∷ b'P' ∷ b'T' ∷ b'I' ∷ b'O' ∷ b'N' ∷ b'/' ∷ b'e' ∷ []
message crt_isr =
    b'E' ∷ b'X' ∷ b'C' ∷ b'E' ∷ b'P' ∷ b'T' ∷ b'I' ∷ b'O' ∷ b'N' ∷ b':' ∷ b' ' ∷ b'C' ∷ b'O' ∷ b'N'
    ∷ b'T' ∷ b'R' ∷ b'O' ∷ b'L' ∷ b' ' ∷ b'P' ∷ b'R' ∷ b'O' ∷ b'T' ∷ b'E' ∷ b'C' ∷ b'T' ∷ b'I'
    ∷ b'O' ∷ b'N' ∷ b' ' ∷ b'E' ∷ b'X' ∷ b'C' ∷ b'E' ∷ b'P' ∷ b'T' ∷ b'I' ∷ b'O' ∷ b'N' ∷ b'/'
    ∷ b'e' ∷ []
message hyper_isr =
    b'E' ∷ b'X' ∷ b'C' ∷ b'E' ∷ b'P' ∷ b'T' ∷ b'I' ∷ b'O' ∷ b'N' ∷ b':' ∷ b' ' ∷ b'H' ∷ b'Y' ∷ b'P'
    ∷ b'E' ∷ b'R' ∷ b'V' ∷ b'I' ∷ b'S' ∷ b'O' ∷ b'R' ∷ b' ' ∷ b'I' ∷ b'N' ∷ b'J' ∷ b'E' ∷ b'C'
    ∷ b'T' ∷ b'I' ∷ b'O' ∷ b'N' ∷ b' ' ∷ b'E' ∷ b'X' ∷ b'C' ∷ b'E' ∷ b'P' ∷ b'T' ∷ b'I' ∷ b'O'
    ∷ b'N' ∷ b'/' ∷ b'e' ∷ []
message vmm_isr =
    b'E' ∷ b'X' ∷ b'C' ∷ b'E' ∷ b'P' ∷ b'T' ∷ b'I' ∷ b'O' ∷ b'N' ∷ b':' ∷ b' ' ∷ b'V' ∷ b'M' ∷ b'M'
    ∷ b' ' ∷ b'C' ∷ b'O' ∷ b'M' ∷ b'M' ∷ b'U' ∷ b'N' ∷ b'I' ∷ b'C' ∷ b'A' ∷ b'T' ∷ b'I' ∷ b'O'
    ∷ b'N' ∷ b' ' ∷ b'E' ∷ b'X' ∷ b'C' ∷ b'E' ∷ b'P' ∷ b'T' ∷ b'I' ∷ b'O' ∷ b'N' ∷ b'/' ∷ b'e' ∷ []
message sec_isr =
    b'E' ∷ b'X' ∷ b'C' ∷ b'E' ∷ b'P' ∷ b'T' ∷ b'I' ∷ b'O' ∷ b'N' ∷ b':' ∷ b' ' ∷ b'S' ∷ b'E' ∷ b'C'
    ∷ b'U' ∷ b'R' ∷ b'I' ∷ b'T' ∷ b'Y' ∷ b' ' ∷ b'E' ∷ b'X' ∷ b'C' ∷ b'E' ∷ b'P' ∷ b'T' ∷ b'I'
    ∷ b'O' ∷ b'N' ∷ b'/' ∷ b'e' ∷ []

-- A handler prints its text and stops: the screen that it leaves.
unfoldable pub isr : Isr → Screen → Option Screen
isr e s = print_chars (message e) s

abbrev pub exc_idt_flag : ℕ
exc_idt_flag = 0x8E

-- The vector of each handler in `main`.
unfoldable pub vector : Isr → ℕ
vector div_by_zero_isr = 0x00
vector debug_isr = 0x01
vector nmi_isr = 0x02
vector breakpoint_isr = 0x03
vector overflow_isr = 0x04
vector bound_isr = 0x05
vector opcode_isr = 0x06
vector device_isr = 0x07
vector double_f_isr = 0x08
vector tss_isr = 0x0A
vector seg_pres_isr = 0x0B
vector seg_stack_isr = 0x0C
vector gpf_isr = 0x0D
vector pf_isr = 0x0E
vector x87_isr = 0x10
vector alignment_isr = 0x11
vector machine_isr = 0x12
vector simd_isr = 0x13
vector virt_isr = 0x14
vector crt_isr = 0x15
vector hyper_isr = 0x1C
vector vmm_isr = 0x1D
vector sec_isr = 0x1E

-- The handlers in the order in which `main` sets their gates.
abbrev pub handlers : List Isr
handlers =
    div_by_zero_isr ∷ debug_isr ∷ nmi_isr ∷ breakpoint_isr ∷ overflow_isr ∷ bound_isr ∷ opcode_isr
    ∷ device_isr ∷ double_f_isr ∷ tss_isr ∷ seg_pres_isr ∷ seg_stack_isr ∷ gpf_isr ∷ pf_isr
    ∷ x87_isr ∷ alignment_isr ∷ machine_isr ∷ simd_isr ∷ virt_isr ∷ crt_isr ∷ hyper_isr ∷ vmm_isr
    ∷ sec_isr ∷ []

-- The calls of `idt_set` in `main`, with the addresses of the handlers.
unfoldable pub set_gates : (Isr → ℕ) → List Isr → Idt → Idt
set_gates address [] idt = idt
set_gates address (e ∷ es) idt =
    set_gates address es (idt_set (address e) 0x08 (vector e) exc_idt_flag idt)

-- The table behind `idt_init`, the gates of the exceptions and `syscounter_init` in `main`.
unfoldable pub main_idt : ℕ → ℕ → (Isr → ℕ) → ℕ → Idt → Idt
main_idt default_isr table address timer_isr idt =
    syscounter_init timer_isr (set_gates address handlers (idt_init default_isr table idt).0)
