-- ===== src/Idt/Print.antt =====
-- `print_idte` of kernel/src/code/cpu/idt.c.
use os_v.Base.{ℕ, List, [], ◌∷◌, u16}
use os_v.Screen.Format.{number}
use os_v.Machine.{Cmd, print}
use os_v.Idt.{Idt, printed_address}

abbrev pub idte_text : List ℕ
idte_text =
    b'I' ∷ b'N' ∷ b'T' ∷ b':' ∷ b' ' ∷ b'/' ∷ b'x' ∷ b'W' ∷ b' ' ∷ b' ' ∷ b'A' ∷ b'D' ∷ b'D' ∷ b'R'
    ∷ b':' ∷ b' ' ∷ b'/' ∷ b'x' ∷ b'Q' ∷ b' ' ∷ b' ' ∷ b'S' ∷ b'E' ∷ b'L' ∷ b':' ∷ b' ' ∷ b'/'
    ∷ b'x' ∷ b'W' ∷ b' ' ∷ b' ' ∷ b'T' ∷ b'Y' ∷ b'P' ∷ b'E' ∷ b':' ∷ b' ' ∷ b'/' ∷ b'x' ∷ b'B'
    ∷ b' ' ∷ b' ' ∷ b'I' ∷ b'S' ∷ b'T' ∷ b':' ∷ b' ' ∷ b'/' ∷ b'x' ∷ b'B' ∷ b'/' ∷ b'n' ∷ b'/'
    ∷ b'e' ∷ []

unfoldable pub print_idte : Idt → ℕ → Cmd (Unit {0})
print_idte idt int_index =
    let idte = idt int_index in
    print idte_text (
      number (u16 int_index)
      ∷ number (printed_address idte)
      ∷ number idte.selector
      ∷ number idte.type_attributes
      ∷ number idte.ist
      ∷ [])
