-- ===== src/Kernel/Texts.antt =====
-- The formats that `main` and `pciPrintInfo` give to `screenPrint`.
use os_v.Base.{ℕ, List, [], ◌∷◌}

abbrev pub kernel_text : List ℕ
kernel_text =
    b'-' ∷ b'-' ∷ b'-' ∷ b'K' ∷ b'e' ∷ b'r' ∷ b'n' ∷ b'e' ∷ b'l' ∷ b'-' ∷ b'-' ∷ b'-' ∷ b'/' ∷ b'n'
    ∷ b'/' ∷ b'e' ∷ []

abbrev pub spaces_text : List ℕ
spaces_text = b' ' ∷ b' ' ∷ b' ' ∷ b' ' ∷ b' ' ∷ b' ' ∷ b'/' ∷ b'e' ∷ []

abbrev pub pics_text : List ℕ
pics_text =
    b'S' ∷ b'e' ∷ b't' ∷ b'u' ∷ b'p' ∷ b' ' ∷ b'P' ∷ b'I' ∷ b'C' ∷ b's' ∷ b'.' ∷ b'.' ∷ b'.' ∷ b' '
    ∷ b'/' ∷ b'e' ∷ []

abbrev pub done_line_text : List ℕ
done_line_text = b'O' ∷ b'K' ∷ b'/' ∷ b'n' ∷ b'/' ∷ b'e' ∷ []

abbrev pub idt_text : List ℕ
idt_text =
    b'S' ∷ b'e' ∷ b't' ∷ b'u' ∷ b'p' ∷ b' ' ∷ b'I' ∷ b'D' ∷ b'T' ∷ b'.' ∷ b'.' ∷ b'.' ∷ b' ' ∷ b'/'
    ∷ b'e' ∷ []

abbrev pub pit_text : List ℕ
pit_text =
    b'S' ∷ b'e' ∷ b't' ∷ b'u' ∷ b'p' ∷ b' ' ∷ b'P' ∷ b'I' ∷ b'T' ∷ b' ' ∷ b'I' ∷ b'R' ∷ b'Q' ∷ b'.'
    ∷ b'.' ∷ b'.' ∷ b' ' ∷ b'/' ∷ b'e' ∷ []

abbrev pub vendor_text : List ℕ
vendor_text =
    b'C' ∷ b'P' ∷ b'U' ∷ b' ' ∷ b'v' ∷ b'e' ∷ b'n' ∷ b'd' ∷ b'o' ∷ b'r' ∷ b':' ∷ b' ' ∷ b'/' ∷ b'c'
    ∷ b'/' ∷ b'n' ∷ b'/' ∷ b'e' ∷ []

abbrev pub feature_c_text : List ℕ
feature_c_text =
    b'C' ∷ b'P' ∷ b'U' ∷ b' ' ∷ b'f' ∷ b'e' ∷ b'a' ∷ b't' ∷ b'u' ∷ b'r' ∷ b'e' ∷ b' ' ∷ b'E' ∷ b'C'
    ∷ b'X' ∷ b':' ∷ b' ' ∷ b'/' ∷ b'x' ∷ b'D' ∷ b'/' ∷ b'n' ∷ b'/' ∷ b'e' ∷ []

abbrev pub feature_d_text : List ℕ
feature_d_text =
    b'C' ∷ b'P' ∷ b'U' ∷ b' ' ∷ b'f' ∷ b'e' ∷ b'a' ∷ b't' ∷ b'u' ∷ b'r' ∷ b'e' ∷ b' ' ∷ b'E' ∷ b'D'
    ∷ b'X' ∷ b':' ∷ b' ' ∷ b'/' ∷ b'x' ∷ b'D' ∷ b'/' ∷ b'n' ∷ b'/' ∷ b'e' ∷ []

abbrev pub phy_bits_text : List ℕ
phy_bits_text =
    b'P' ∷ b'H' ∷ b'Y' ∷ b' ' ∷ b'A' ∷ b'D' ∷ b'D' ∷ b'R' ∷ b' ' ∷ b'B' ∷ b'I' ∷ b'T' ∷ b'S' ∷ b':'
    ∷ b' ' ∷ b'/' ∷ b'x' ∷ b'B' ∷ b'/' ∷ b'n' ∷ b'/' ∷ b'e' ∷ []

abbrev pub lin_bits_text : List ℕ
lin_bits_text =
    b'L' ∷ b'I' ∷ b'N' ∷ b' ' ∷ b'A' ∷ b'D' ∷ b'D' ∷ b'R' ∷ b' ' ∷ b'B' ∷ b'I' ∷ b'T' ∷ b'S' ∷ b':'
    ∷ b' ' ∷ b'/' ∷ b'x' ∷ b'B' ∷ b'/' ∷ b'n' ∷ b'/' ∷ b'e' ∷ []

abbrev pub paging_text : List ℕ
paging_text =
    b'S' ∷ b'e' ∷ b't' ∷ b'u' ∷ b'p' ∷ b' ' ∷ b'p' ∷ b'a' ∷ b'g' ∷ b'e' ∷ b'i' ∷ b'n' ∷ b'g' ∷ b' '
    ∷ b's' ∷ b'y' ∷ b's' ∷ b't' ∷ b'e' ∷ b'm' ∷ b'.' ∷ b'.' ∷ b'.' ∷ b' ' ∷ b'/' ∷ b'e' ∷ []

abbrev pub palloc_text : List ℕ
palloc_text =
    b'S' ∷ b'e' ∷ b't' ∷ b'u' ∷ b'p' ∷ b' ' ∷ b'p' ∷ b'a' ∷ b'g' ∷ b'e' ∷ b' ' ∷ b'a' ∷ b'l' ∷ b'l'
    ∷ b'o' ∷ b'c' ∷ b'a' ∷ b't' ∷ b'o' ∷ b'r' ∷ b'.' ∷ b'.' ∷ b'.' ∷ b' ' ∷ b'/' ∷ b'e' ∷ []

abbrev pub alloc_text : List ℕ
alloc_text =
    b'S' ∷ b'e' ∷ b't' ∷ b'u' ∷ b'p' ∷ b' ' ∷ b'm' ∷ b'e' ∷ b'm' ∷ b'o' ∷ b'r' ∷ b'y' ∷ b' ' ∷ b'a'
    ∷ b'l' ∷ b'l' ∷ b'o' ∷ b'c' ∷ b'a' ∷ b't' ∷ b'o' ∷ b'r' ∷ b'.' ∷ b'.' ∷ b'.' ∷ b' ' ∷ b'/'
    ∷ b'e' ∷ []

abbrev pub kernel_start_text : List ℕ
kernel_start_text =
    b'K' ∷ b'e' ∷ b'r' ∷ b'n' ∷ b'e' ∷ b'l' ∷ b' ' ∷ b's' ∷ b't' ∷ b'a' ∷ b'r' ∷ b't' ∷ b':' ∷ b' '
    ∷ b'/' ∷ b'x' ∷ b'Q' ∷ b'/' ∷ b'n' ∷ b'/' ∷ b'e' ∷ []

abbrev pub kernel_end_text : List ℕ
kernel_end_text =
    b'K' ∷ b'e' ∷ b'r' ∷ b'n' ∷ b'e' ∷ b'l' ∷ b' ' ∷ b'e' ∷ b'n' ∷ b'd' ∷ b' ' ∷ b' ' ∷ b':' ∷ b' '
    ∷ b'/' ∷ b'x' ∷ b'Q' ∷ b'/' ∷ b'n' ∷ b'/' ∷ b'e' ∷ []

abbrev pub pci_text : List ℕ
pci_text =
    b'N' ∷ b'U' ∷ b'M' ∷ b'B' ∷ b'E' ∷ b'R' ∷ b' ' ∷ b'O' ∷ b'F' ∷ b' ' ∷ b'P' ∷ b'C' ∷ b'I' ∷ b' '
    ∷ b'D' ∷ b'E' ∷ b'V' ∷ b':' ∷ b' ' ∷ b'/' ∷ b'x' ∷ b'W' ∷ b'/' ∷ b'n' ∷ b'/' ∷ b'e' ∷ []

abbrev pub no_disk_text : List ℕ
no_disk_text =
    b'N' ∷ b'O' ∷ b' ' ∷ b'D' ∷ b'I' ∷ b'S' ∷ b'K' ∷ b' ' ∷ b'F' ∷ b'O' ∷ b'U' ∷ b'N' ∷ b'D' ∷ b' '
    ∷ b'I' ∷ b'N' ∷ b' ' ∷ b'S' ∷ b'Y' ∷ b'S' ∷ b'T' ∷ b'E' ∷ b'M' ∷ b'!' ∷ b'/' ∷ b'n' ∷ b'/'
    ∷ b'e' ∷ []

abbrev pub finished_text : List ℕ
finished_text = b'D' ∷ b'O' ∷ b'N' ∷ b'E' ∷ b'!' ∷ b'/' ∷ b'e' ∷ []
