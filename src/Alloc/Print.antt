-- ===== src/Alloc/Print.antt =====
-- `mem_print_tail` of kernel/src/code/mem/alloc.c.
use os_v.Base.{ℕ, List, [], ◌∷◌}
use os_v.Screen.Format.{number}
use os_v.Machine.{ram, Cmd, ◌>>◌, print}
use os_v.Alloc.{next_of, prev_of, vaddr_of}

abbrev pub blank_lines_text : List ℕ
blank_lines_text = b'/' ∷ b'n' ∷ b'/' ∷ b'n' ∷ b'/' ∷ b'e' ∷ []

abbrev pub next_text : List ℕ
next_text =
    b'N' ∷ b'E' ∷ b'X' ∷ b'T' ∷ b' ' ∷ b':' ∷ b' ' ∷ b'/' ∷ b'x' ∷ b'Q' ∷ b'/' ∷ b'n' ∷ b'/' ∷ b'e'
    ∷ []

abbrev pub prev_text : List ℕ
prev_text =
    b'P' ∷ b'R' ∷ b'E' ∷ b'V' ∷ b' ' ∷ b':' ∷ b' ' ∷ b'/' ∷ b'x' ∷ b'Q' ∷ b'/' ∷ b'n' ∷ b'/' ∷ b'e'
    ∷ []

abbrev pub vaddr_text : List ℕ
vaddr_text =
    b'S' ∷ b'T' ∷ b'A' ∷ b'R' ∷ b'T' ∷ b':' ∷ b' ' ∷ b'/' ∷ b'x' ∷ b'Q' ∷ b'/' ∷ b'n' ∷ b'/' ∷ b'e'
    ∷ []

unfoldable pub mem_print_tail : ℕ → Cmd (Unit {0})
mem_print_tail tail = do
  print blank_lines_text []
  λ m. print next_text (number (next_of tail (ram m)) ∷ []) m
  λ m. print prev_text (number (prev_of tail (ram m)) ∷ []) m
  λ m. print vaddr_text (number (vaddr_of tail (ram m)) ∷ []) m
