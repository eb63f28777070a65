-- ===== src/Ahci/InitTexts.antt =====
-- The formats that `ahci_init_disk` and `ahci_port_rebase` give to `screenPrint`.
use os_v.Base.{ℕ, List, [], ◌∷◌}

abbrev pub rebase_text : List ℕ
rebase_text =
    b'+' ∷ b'-' ∷ b'-' ∷ b'R' ∷ b'E' ∷ b'B' ∷ b'A' ∷ b'S' ∷ b'E' ∷ b' ' ∷ b'P' ∷ b'O' ∷ b'R' ∷ b'T'
    ∷ b':' ∷ b'/' ∷ b'x' ∷ b'B' ∷ b'/' ∷ b'n' ∷ b'/' ∷ b'e' ∷ b'-' ∷ b'-' ∷ b'-' ∷ []

abbrev pub addr_text : List ℕ
addr_text =
    b'|' ∷ b' ' ∷ b'A' ∷ b'D' ∷ b'D' ∷ b'R' ∷ b':' ∷ b' ' ∷ b'/' ∷ b'x' ∷ b'Q' ∷ b'/' ∷ b'n' ∷ b'/'
    ∷ b'e' ∷ []

abbrev pub stop_text : List ℕ
stop_text =
    b'|' ∷ b' ' ∷ b'S' ∷ b'T' ∷ b'O' ∷ b'P' ∷ b' ' ∷ b'P' ∷ b'O' ∷ b'R' ∷ b'T' ∷ b'/' ∷ b'e' ∷ []

abbrev pub ok_text : List ℕ
ok_text = b' ' ∷ b'O' ∷ b'K' ∷ b'/' ∷ b'n' ∷ b'/' ∷ b'e' ∷ []

abbrev pub cmd_list_text : List ℕ
cmd_list_text =
    b'|' ∷ b' ' ∷ b'C' ∷ b'M' ∷ b'D' ∷ b' ' ∷ b'L' ∷ b'I' ∷ b'S' ∷ b'T' ∷ b'-' ∷ b'>' ∷ b' ' ∷ b'L'
    ∷ b'I' ∷ b'N' ∷ b':' ∷ b' ' ∷ b'/' ∷ b'x' ∷ b'Q' ∷ b' ' ∷ b'P' ∷ b'H' ∷ b'Y' ∷ b':' ∷ b' '
    ∷ b'/' ∷ b'x' ∷ b'Q' ∷ b'/' ∷ b'n' ∷ b'/' ∷ b'e' ∷ []

abbrev pub fis_place_text : List ℕ
fis_place_text =
    b'|' ∷ b' ' ∷ b'F' ∷ b'I' ∷ b'S' ∷ b' ' ∷ b' ' ∷ b' ' ∷ b' ' ∷ b' ' ∷ b'-' ∷ b'>' ∷ b' ' ∷ b'L'
    ∷ b'I' ∷ b'N' ∷ b':' ∷ b' ' ∷ b'/' ∷ b'x' ∷ b'Q' ∷ b' ' ∷ b'P' ∷ b'H' ∷ b'Y' ∷ b':' ∷ b' '
    ∷ b'/' ∷ b'x' ∷ b'Q' ∷ b'/' ∷ b'n' ∷ b'/' ∷ b'e' ∷ []

abbrev pub start_text : List ℕ
start_text =
    b'|' ∷ b' ' ∷ b'S' ∷ b'T' ∷ b'A' ∷ b'R' ∷ b'T' ∷ b' ' ∷ b'P' ∷ b'O' ∷ b'R' ∷ b'T' ∷ b'/' ∷ b'e'
    ∷ []

abbrev pub end_text : List ℕ
end_text =
    b'+' ∷ b'-' ∷ b'-' ∷ b'-' ∷ b'-' ∷ b'-' ∷ b'-' ∷ b'-' ∷ b'-' ∷ b'-' ∷ b'-' ∷ b'>' ∷ b'/' ∷ b'n'
    ∷ b'/' ∷ b'e' ∷ []

abbrev pub init_text : List ℕ
init_text =
    b'-' ∷ b'-' ∷ b'-' ∷ b'I' ∷ b'N' ∷ b'I' ∷ b'T' ∷ b' ' ∷ b'A' ∷ b'H' ∷ b'C' ∷ b'I' ∷ b' ' ∷ b'D'
    ∷ b'I' ∷ b'S' ∷ b'K' ∷ b'S' ∷ b'-' ∷ b'-' ∷ b'-' ∷ b'/' ∷ b'n' ∷ b'/' ∷ b'e' ∷ []

abbrev pub amount_text : List ℕ
amount_text =
    b'N' ∷ b'U' ∷ b'M' ∷ b'B' ∷ b'E' ∷ b'R' ∷ b' ' ∷ b'O' ∷ b'F' ∷ b' ' ∷ b'A' ∷ b'H' ∷ b'C' ∷ b'I'
    ∷ b' ' ∷ b'D' ∷ b'E' ∷ b'V' ∷ b':' ∷ b' ' ∷ b'/' ∷ b'x' ∷ b'W' ∷ b'/' ∷ b'n' ∷ b'/' ∷ b'e' ∷ []

abbrev pub device_text : List ℕ
device_text =
    b'A' ∷ b'H' ∷ b'C' ∷ b'I' ∷ b' ' ∷ b'D' ∷ b'E' ∷ b'V' ∷ b' ' ∷ b'@' ∷ b' ' ∷ b'B' ∷ b'U' ∷ b'S'
    ∷ b':' ∷ b'/' ∷ b'x' ∷ b'B' ∷ b' ' ∷ b'S' ∷ b'L' ∷ b'O' ∷ b'T' ∷ b':' ∷ b'/' ∷ b'x' ∷ b'B'
    ∷ b'/' ∷ b'n' ∷ b'/' ∷ b'e' ∷ []

abbrev pub no_memory_text : List ℕ
no_memory_text =
    b'O' ∷ b'U' ∷ b'T' ∷ b' ' ∷ b'O' ∷ b'F' ∷ b' ' ∷ b'M' ∷ b'E' ∷ b'M' ∷ b'O' ∷ b'R' ∷ b'Y' ∷ b'!'
    ∷ b'/' ∷ b'n' ∷ b'/' ∷ b'e' ∷ []

abbrev pub place_text : List ℕ
place_text =
    b' ' ∷ b'>' ∷ b' ' ∷ b'P' ∷ b'H' ∷ b'Y' ∷ b':' ∷ b'/' ∷ b'x' ∷ b'Q' ∷ b' ' ∷ b' ' ∷ b'L' ∷ b'I'
    ∷ b'N' ∷ b':' ∷ b'/' ∷ b'x' ∷ b'Q' ∷ b'/' ∷ b'n' ∷ b'/' ∷ b'e' ∷ []

abbrev pub pm_text : List ℕ
pm_text = b'P' ∷ b'M' ∷ b' ' ∷ b'/' ∷ b'e' ∷ []

abbrev pub sata_text : List ℕ
sata_text = b'S' ∷ b'A' ∷ b'T' ∷ b'A' ∷ b' ' ∷ b'/' ∷ b'e' ∷ []

abbrev pub satapi_text : List ℕ
satapi_text = b'S' ∷ b'A' ∷ b'T' ∷ b'A' ∷ b'P' ∷ b'I' ∷ b' ' ∷ b'/' ∷ b'e' ∷ []

abbrev pub semb_text : List ℕ
semb_text = b'S' ∷ b'E' ∷ b'M' ∷ b'B' ∷ b' ' ∷ b'/' ∷ b'e' ∷ []

abbrev pub port_text : List ℕ
port_text =
    b'D' ∷ b'E' ∷ b'V' ∷ b' ' ∷ b'@' ∷ b' ' ∷ b'P' ∷ b'O' ∷ b'R' ∷ b'T' ∷ b':' ∷ b' ' ∷ b'/' ∷ b'x'
    ∷ b'B' ∷ b' ' ∷ b'L' ∷ b'I' ∷ b'N' ∷ b':' ∷ b' ' ∷ b'/' ∷ b'x' ∷ b'Q' ∷ b' ' ∷ b'P' ∷ b'H'
    ∷ b'Y' ∷ b':' ∷ b' ' ∷ b'/' ∷ b'x' ∷ b'Q' ∷ b'/' ∷ b'n' ∷ b'/' ∷ b'e' ∷ []

abbrev pub checksum_text : List ℕ
checksum_text =
    b'C' ∷ b'H' ∷ b'E' ∷ b'C' ∷ b'K' ∷ b'S' ∷ b'U' ∷ b'M' ∷ b':' ∷ b' ' ∷ b'/' ∷ b'x' ∷ b'D' ∷ b'/'
    ∷ b'n' ∷ b'/' ∷ b'e' ∷ []

abbrev pub done_text : List ℕ
done_text =
    b'-' ∷ b'-' ∷ b'-' ∷ b'D' ∷ b'O' ∷ b'N' ∷ b'E' ∷ b' ' ∷ b'W' ∷ b'I' ∷ b'T' ∷ b'H' ∷ b' ' ∷ b'A'
    ∷ b'H' ∷ b'C' ∷ b'I' ∷ b'-' ∷ b'-' ∷ b'-' ∷ b'/' ∷ b'n' ∷ b'/' ∷ b'e' ∷ []
