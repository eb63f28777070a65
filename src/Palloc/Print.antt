-- ===== src/Palloc/Print.antt =====
-- What kernel/src/code/mem/palloc.c prints: `print_memorymap`, and the messages of `mem_palloc_init`
-- before its endless loops.
use os_v.Base.{ℕ, ◌+◌, ◌-◌, ◌^◌, ◌==◌, if◌then◌else◌, List, [], ◌∷◌, u16, u64}
use os_v.Screen.Format.{number, chars}
use os_v.Machine.{Cmd, done, halted, ◌>>◌, print}
use os_v.Palloc.{MemorymapEntry}

abbrev pub border_text : List ℕ
border_text =
    b'+' ∷ b'-' ∷ b'-' ∷ b'-' ∷ b'-' ∷ b'-' ∷ b'-' ∷ b'-' ∷ b'-' ∷ b'-' ∷ b'-' ∷ b'-' ∷ b'-' ∷ b'-'
    ∷ b'-' ∷ b'-' ∷ b'-' ∷ b'-' ∷ b'-' ∷ b'+' ∷ b'-' ∷ b'-' ∷ b'-' ∷ b'-' ∷ b'-' ∷ b'-' ∷ b'-'
    ∷ b'-' ∷ b'-' ∷ b'-' ∷ b'-' ∷ b'-' ∷ b'-' ∷ b'-' ∷ b'-' ∷ b'-' ∷ b'-' ∷ b'-' ∷ b'+' ∷ b'-'
    ∷ b'-' ∷ b'-' ∷ b'-' ∷ b'-' ∷ b'-' ∷ b'-' ∷ b'-' ∷ b'-' ∷ b'-' ∷ b'-' ∷ b'-' ∷ b'-' ∷ b'-'
    ∷ b'-' ∷ b'-' ∷ b'-' ∷ b'-' ∷ b'+' ∷ b'-' ∷ b'-' ∷ b'-' ∷ b'-' ∷ b'-' ∷ b'-' ∷ b'-' ∷ b'-'
    ∷ b'+' ∷ b'/' ∷ b'n' ∷ b'/' ∷ b'e' ∷ []

abbrev pub title_text : List ℕ
title_text =
    b'+' ∷ b'-' ∷ b'-' ∷ b'-' ∷ b'-' ∷ b'-' ∷ b'-' ∷ b'-' ∷ b'-' ∷ b'-' ∷ b'-' ∷ b'-' ∷ b'-' ∷ b'-'
    ∷ b'-' ∷ b'-' ∷ b'-' ∷ b'-' ∷ b'-' ∷ b'+' ∷ b'-' ∷ b'-' ∷ b'-' ∷ b'-' ∷ b'M' ∷ b'E' ∷ b'M'
    ∷ b'O' ∷ b'R' ∷ b'Y' ∷ b'-' ∷ b'M' ∷ b'A' ∷ b'P' ∷ b'-' ∷ b'-' ∷ b'-' ∷ b'-' ∷ b'+' ∷ b'-'
    ∷ b'-' ∷ b'-' ∷ b'-' ∷ b'-' ∷ b'-' ∷ b'-' ∷ b'-' ∷ b'-' ∷ b'-' ∷ b'-' ∷ b'-' ∷ b'-' ∷ b'-'
    ∷ b'-' ∷ b'-' ∷ b'-' ∷ b'-' ∷ b'+' ∷ b'-' ∷ b'-' ∷ b'-' ∷ b'-' ∷ b'-' ∷ b'-' ∷ b'-' ∷ b'-'
    ∷ b'+' ∷ b'/' ∷ b'n' ∷ b'/' ∷ b'e' ∷ []

abbrev pub columns_text : List ℕ
columns_text =
    b'|' ∷ b' ' ∷ b' ' ∷ b' ' ∷ b' ' ∷ b' ' ∷ b' ' ∷ b'S' ∷ b'T' ∷ b'A' ∷ b'R' ∷ b'T' ∷ b' ' ∷ b' '
    ∷ b' ' ∷ b' ' ∷ b' ' ∷ b' ' ∷ b' ' ∷ b'|' ∷ b' ' ∷ b' ' ∷ b' ' ∷ b' ' ∷ b' ' ∷ b' ' ∷ b' '
    ∷ b'E' ∷ b'N' ∷ b'D' ∷ b' ' ∷ b' ' ∷ b' ' ∷ b' ' ∷ b' ' ∷ b' ' ∷ b' ' ∷ b' ' ∷ b'|' ∷ b' '
    ∷ b' ' ∷ b' ' ∷ b' ' ∷ b' ' ∷ b' ' ∷ b' ' ∷ b'S' ∷ b'I' ∷ b'Z' ∷ b'E' ∷ b' ' ∷ b' ' ∷ b' '
    ∷ b' ' ∷ b' ' ∷ b' ' ∷ b' ' ∷ b'|' ∷ b' ' ∷ b' ' ∷ b'T' ∷ b'Y' ∷ b'P' ∷ b'E' ∷ b' ' ∷ b' '
    ∷ b'|' ∷ b'/' ∷ b'n' ∷ b'/' ∷ b'e' ∷ []

abbrev pub entry_text : List ℕ
entry_text =
    b'|' ∷ b'/' ∷ b'x' ∷ b'Q' ∷ b'|' ∷ b'/' ∷ b'x' ∷ b'Q' ∷ b'|' ∷ b'/' ∷ b'x' ∷ b'Q' ∷ b'|' ∷ b'/'
    ∷ b'c' ∷ b'|' ∷ b'/' ∷ b'n' ∷ b'/' ∷ b'e' ∷ []

abbrev pub no_paddr_text : List ℕ
no_paddr_text =
    b'/' ∷ b'n' ∷ b'C' ∷ b'A' ∷ b'N' ∷ b'T' ∷ b' ' ∷ b'G' ∷ b'E' ∷ b'T' ∷ b' ' ∷ b'P' ∷ b'A' ∷ b'D'
    ∷ b'D' ∷ b'R' ∷ b' ' ∷ b'O' ∷ b'F' ∷ b' ' ∷ b'K' ∷ b'E' ∷ b'R' ∷ b'N' ∷ b'E' ∷ b'L' ∷ b'!'
    ∷ b' ' ∷ b'E' ∷ b'R' ∷ b'R' ∷ b'O' ∷ b'R' ∷ b':' ∷ b' ' ∷ b'/' ∷ b'x' ∷ b'W' ∷ b'/' ∷ b'n'
    ∷ b'/' ∷ b'e' ∷ []

abbrev pub no_entry_text : List ℕ
no_entry_text =
    b'/' ∷ b'0' ∷ b'C' ∷ b'A' ∷ b'N' ∷ b'T' ∷ b' ' ∷ b'G' ∷ b'E' ∷ b'T' ∷ b' ' ∷ b'E' ∷ b'N' ∷ b'T'
    ∷ b'R' ∷ b'Y' ∷ b' ' ∷ b'O' ∷ b'F' ∷ b' ' ∷ b'M' ∷ b'E' ∷ b'M' ∷ b'O' ∷ b'R' ∷ b'Y' ∷ b'M'
    ∷ b'A' ∷ b'P' ∷ b' ' ∷ b'M' ∷ b'A' ∷ b'T' ∷ b'C' ∷ b'H' ∷ b'I' ∷ b'N' ∷ b'G' ∷ b' ' ∷ b'K'
    ∷ b'E' ∷ b'R' ∷ b'N' ∷ b'E' ∷ b'L' ∷ b' ' ∷ b'A' ∷ b'D' ∷ b'D' ∷ b'R' ∷ b'!' ∷ b'/' ∷ b'n'
    ∷ b'/' ∷ b'e' ∷ []

abbrev pub kernel_at_text : List ℕ
kernel_at_text =
    b'P' ∷ b'H' ∷ b'Y' ∷ b':' ∷ b' ' ∷ b'/' ∷ b'x' ∷ b'Q' ∷ b' ' ∷ b'L' ∷ b'I' ∷ b'N' ∷ b':' ∷ b' '
    ∷ b'/' ∷ b'x' ∷ b'Q' ∷ b'/' ∷ b'n' ∷ b'/' ∷ b'e' ∷ []

abbrev pub normal_text : List ℕ
normal_text = b'N' ∷ b'O' ∷ b'R' ∷ b'M' ∷ b'A' ∷ b'L' ∷ b' ' ∷ b' ' ∷ b'/' ∷ b'e' ∷ []

abbrev pub reserved_text : List ℕ
reserved_text = b'R' ∷ b'E' ∷ b'S' ∷ b'E' ∷ b'R' ∷ b'V' ∷ b'E' ∷ b'D' ∷ b'/' ∷ b'e' ∷ []

abbrev pub acpi_rec_text : List ℕ
acpi_rec_text = b'A' ∷ b'C' ∷ b'P' ∷ b'I' ∷ b' ' ∷ b'R' ∷ b'E' ∷ b'C' ∷ b'/' ∷ b'e' ∷ []

abbrev pub acpi_nvs_text : List ℕ
acpi_nvs_text = b'A' ∷ b'C' ∷ b'P' ∷ b'I' ∷ b' ' ∷ b'N' ∷ b'V' ∷ b'S' ∷ b'/' ∷ b'e' ∷ []

abbrev pub bad_text : List ℕ
bad_text = b'B' ∷ b'A' ∷ b'D' ∷ b' ' ∷ b' ' ∷ b' ' ∷ b' ' ∷ b' ' ∷ b'/' ∷ b'e' ∷ []

-- `type_map[type - 1]`; the empty text stands for a read beyond the array.
unfoldable pub type_name : ℕ → List ℕ
type_name t =
    if t == 1
    then normal_text
    else if t == 2
    then reserved_text
    else if t == 3
    then acpi_rec_text
    else if t == 4
    then acpi_nvs_text
    else if t == 5
    then bad_text
    else []

unfoldable pub print_entries : List MemorymapEntry → Cmd (Unit {0})
print_entries [] = done tt
print_entries (e ∷ es) = do
  print entry_text (
      number e.base
      ∷ number (u64 (e.base + e.length + (2 ^ 64 - 1)))
      ∷ number e.length
      ∷ chars (type_name e.type)
      ∷ [])
  print_entries es

unfoldable pub print_memorymap : Cmd (Unit {0})
print_memorymap m =
    (do
      print title_text []
      print columns_text []
      print border_text []
      print_entries m.allocator.memorymap
      print border_text [])
      m

-- The two ways in which `mem_palloc_init` gives up.
unfoldable pub no_paddr : ℕ → Cmd ℕ
no_paddr error = do print no_paddr_text (number (u16 error) ∷ []); halted

unfoldable pub no_entry : ℕ → ℕ → Cmd ℕ
no_entry paddr_start kernelstart = do
  print no_entry_text []
  print kernel_at_text (number paddr_start ∷ number kernelstart ∷ [])
  print_memorymap
  halted
