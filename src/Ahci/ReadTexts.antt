-- ===== src/Ahci/ReadTexts.antt =====
-- The formats that `ahci_port_read` gives to `screenPrint`.
use os_v.Base.{ℕ, List, [], ◌∷◌}

abbrev pub read_text : List ℕ
read_text =
    b'-' ∷ b'-' ∷ b'-' ∷ b'A' ∷ b'H' ∷ b'C' ∷ b'I' ∷ b'-' ∷ b'R' ∷ b'E' ∷ b'A' ∷ b'D' ∷ b'-' ∷ b'-'
    ∷ b'-' ∷ b'/' ∷ b'n' ∷ b'/' ∷ b'e' ∷ []

abbrev pub port_addr_text : List ℕ
port_addr_text =
    b'P' ∷ b'O' ∷ b'R' ∷ b'T' ∷ b' ' ∷ b'A' ∷ b'D' ∷ b'D' ∷ b'R' ∷ b' ' ∷ b' ' ∷ b' ' ∷ b' ' ∷ b':'
    ∷ b' ' ∷ b'/' ∷ b'x' ∷ b'Q' ∷ b'/' ∷ b'n' ∷ b'/' ∷ b'e' ∷ []

abbrev pub port_table_text : List ℕ
port_table_text =
    b'P' ∷ b'O' ∷ b'R' ∷ b'T' ∷ b' ' ∷ b'A' ∷ b'D' ∷ b'D' ∷ b'R' ∷ b'_' ∷ b'T' ∷ b'B' ∷ b'L' ∷ b':'
    ∷ b' ' ∷ b'/' ∷ b'x' ∷ b'Q' ∷ b'/' ∷ b'n' ∷ b'/' ∷ b'e' ∷ []

abbrev pub no_slot_text : List ℕ
no_slot_text =
    b'C' ∷ b'a' ∷ b'n' ∷ b'n' ∷ b'o' ∷ b't' ∷ b' ' ∷ b'f' ∷ b'i' ∷ b'n' ∷ b'd' ∷ b' ' ∷ b'f' ∷ b'r'
    ∷ b'e' ∷ b'e' ∷ b' ' ∷ b'c' ∷ b'o' ∷ b'm' ∷ b'm' ∷ b'a' ∷ b'n' ∷ b'd' ∷ b' ' ∷ b'l' ∷ b'i'
    ∷ b's' ∷ b't' ∷ b' ' ∷ b'e' ∷ b'n' ∷ b't' ∷ b'r' ∷ b'y' ∷ b'/' ∷ b'n' ∷ b'/' ∷ b'e' ∷ []

abbrev pub slot_text : List ℕ
slot_text =
    b'C' ∷ b'M' ∷ b'D' ∷ b'_' ∷ b'S' ∷ b'L' ∷ b'O' ∷ b'T' ∷ b' ' ∷ b' ' ∷ b' ' ∷ b' ' ∷ b' ' ∷ b':'
    ∷ b' ' ∷ b'/' ∷ b'x' ∷ b'D' ∷ b'/' ∷ b'n' ∷ b'/' ∷ b'e' ∷ []

abbrev pub header_text : List ℕ
header_text =
    b'C' ∷ b'M' ∷ b'D' ∷ b'_' ∷ b'H' ∷ b'E' ∷ b'A' ∷ b'D' ∷ b'E' ∷ b'R' ∷ b' ' ∷ b' ' ∷ b' ' ∷ b':'
    ∷ b' ' ∷ b'/' ∷ b'x' ∷ b'Q' ∷ b'/' ∷ b'n' ∷ b'/' ∷ b'e' ∷ []

abbrev pub table_text : List ℕ
table_text =
    b'C' ∷ b'M' ∷ b'D' ∷ b'_' ∷ b'T' ∷ b'A' ∷ b'B' ∷ b'L' ∷ b'E' ∷ b' ' ∷ b' ' ∷ b' ' ∷ b' ' ∷ b':'
    ∷ b' ' ∷ b'/' ∷ b'x' ∷ b'Q' ∷ b'/' ∷ b'n' ∷ b'/' ∷ b'e' ∷ []

abbrev pub fis_text : List ℕ
fis_text =
    b'C' ∷ b'M' ∷ b'D' ∷ b'_' ∷ b'F' ∷ b'I' ∷ b'S' ∷ b' ' ∷ b' ' ∷ b' ' ∷ b' ' ∷ b' ' ∷ b' ' ∷ b':'
    ∷ b' ' ∷ b'/' ∷ b'x' ∷ b'Q' ∷ b'/' ∷ b'n' ∷ b'/' ∷ b'e' ∷ []

abbrev pub spin_text : List ℕ
spin_text =
    b'S' ∷ b'P' ∷ b'I' ∷ b'N' ∷ b' ' ∷ b'C' ∷ b'N' ∷ b'T' ∷ b':' ∷ b' ' ∷ b'/' ∷ b'x' ∷ b'D' ∷ b'/'
    ∷ b'n' ∷ b'/' ∷ b'e' ∷ []

abbrev pub hung_text : List ℕ
hung_text =
    b'P' ∷ b'o' ∷ b'r' ∷ b't' ∷ b' ' ∷ b'i' ∷ b's' ∷ b' ' ∷ b'h' ∷ b'u' ∷ b'n' ∷ b'g' ∷ b'/' ∷ b'n'
    ∷ b'/' ∷ b'e' ∷ []

abbrev pub disk_error_text : List ℕ
disk_error_text =
    b'R' ∷ b'e' ∷ b'a' ∷ b'd' ∷ b' ' ∷ b'd' ∷ b'i' ∷ b's' ∷ b'k' ∷ b' ' ∷ b'e' ∷ b'r' ∷ b'r' ∷ b'o'
    ∷ b'r' ∷ b'/' ∷ b'n' ∷ b'/' ∷ b'e' ∷ []

abbrev pub wait_text : List ℕ
wait_text =
    b'W' ∷ b'A' ∷ b'I' ∷ b'T' ∷ b' ' ∷ b'O' ∷ b'N' ∷ b' ' ∷ b'R' ∷ b'E' ∷ b'A' ∷ b'D' ∷ b'Y' ∷ b' '
    ∷ b'C' ∷ b'N' ∷ b'T' ∷ b':' ∷ b' ' ∷ b'/' ∷ b'x' ∷ b'D' ∷ b'/' ∷ b'n' ∷ b'/' ∷ b'e' ∷ []

abbrev pub good_text : List ℕ
good_text =
    b'/' ∷ b'n' ∷ b'R' ∷ b'E' ∷ b'A' ∷ b'D' ∷ b' ' ∷ b'G' ∷ b'O' ∷ b'O' ∷ b'D' ∷ b'!' ∷ b'/' ∷ b'n'
    ∷ b'/' ∷ b'e' ∷ []
