-- ===== src/Screen.antt =====
-- kernel/src/code/screen.c: the text screen. The cursor and the print status are its globals; the
-- cells lie in memory from 0xB8000 on, a character and a colour byte each, 80 to a row.
pub mod Numbers
pub mod Format
pub mod Cursor
pub mod Scroll
pub mod Output
pub mod Digits
pub mod Wrap
mod Tests
use os_v.Base.{
  ℕ, zero, suc, ◌+◌, ◌-◌, ◌*◌, ◌/◌, ◌%◌, ◌^◌, Bool, true, false, Option, none, some, List, [], ◌∷◌,
  bit_and, ltb, ◌==◌, if◌then◌else◌, u8, u16, u32, u64, shr, get_elem?,
}
use os_v.Base.Int.{ℤ, pos, negsuc, ◌+ℤ◌}
use os_v.Memory.{Mem, read8, write8}

abbrev pub screen_start : ℕ
screen_start = 0xB8000

abbrev pub screen_width : ℕ
screen_width = 80

-- `SCREEN_HIGHT`, the number of the last row.
abbrev pub screen_hight : ℕ
screen_hight = 19

abbrev pub screen_default_color : ℕ
screen_default_color = 0x0F

-- `cur_X` and `cur_Y` are never negative between two calls.
pub record Screen : Type 0 where
  pub cur_x : ℕ
  pub cur_y : ℕ
  pub print_status : ℕ
  pub ram : Mem

-- `if (v < 0) v = 0; if (v > limit) v = limit;`
unfoldable pub clamp : ℕ → ℤ → ℕ
clamp limit (pos n) = if ltb limit n then limit else n
clamp limit (negsuc n) = 0

unfoldable pub cursor_move : ℤ → ℤ → Screen → Screen
unfolding clamp ◌+ℤ◌
cursor_move x y s = record s {
  cur_x = clamp screen_width (pos s.cur_x +ℤ x);
  cur_y = clamp screen_hight (pos s.cur_y +ℤ y);
}

unfoldable pub cursor_set : ℤ → ℤ → Screen → Screen
unfolding clamp
cursor_set x y s = record s { cur_x = clamp screen_width x; cur_y = clamp screen_hight y }

-- `*x = *y; x++; y++;`, for `left` rounds.
unfoldable pub copy_up : ℕ → ℕ → ℕ → Mem → Mem
copy_up zero x y m = m
copy_up (suc left) x y m = copy_up left (x + 1) (y + 1) (write8 x (read8 y m) m)

-- `*x = 0; x++;`, for `left` rounds.
unfoldable pub zero_fill : ℕ → ℕ → Mem → Mem
zero_fill zero x m = m
zero_fill (suc left) x m = zero_fill left (x + 1) (write8 x 0 m)

unfoldable pub screen_up : Screen → Screen
screen_up s =
    let row = screen_width * 2 in
    let copied = copy_up (screen_hight * row) screen_start (screen_start + row) s.ram in
    record s { ram = zero_fill row (screen_start + screen_hight * row) copied }

-- `if (cur_Y > SCREEN_HIGHT) { cur_Y--; screenUp(); }`
unfoldable pub scroll : Screen → Screen
scroll s = if ltb screen_hight s.cur_y then screen_up (record s { cur_y = s.cur_y - 1 }) else s

unfoldable pub screen_nl : Screen → Screen
screen_nl s = scroll (record s { cur_x = 0; cur_y = s.cur_y + 1 })

unfoldable pub set_char : ℕ → ℕ → Screen → Screen
set_char c position s =
    let x = screen_start + position * 2 in
    record s { ram = write8 (x + 1) screen_default_color (write8 x c s.ram) }

-- The cursor after a character: to the right, and past the last column to the next row.
unfoldable pub advance_cursor : Screen → Screen
advance_cursor s =
    if ltb screen_width (s.cur_x + 1)
    then record s { cur_x = 0; cur_y = s.cur_y + 1 }
    else record s { cur_x = s.cur_x + 1 }

unfoldable pub print_char : ℕ → Screen → Screen
print_char c s = scroll (advance_cursor (set_char c (s.cur_y * screen_width + s.cur_x) s))

unfoldable pub screen_space : Screen → Screen
screen_space s = print_char b' ' s

-- `screenPrintChars` of an array of characters. `none` is a read past the end of an array that
-- lacks the `/e`.
unfoldable pub print_chars : List ℕ → Screen → Option Screen
print_chars [] s = none
print_chars (c ∷ []) s = none
print_chars (c ∷ d ∷ cs) s = elim (c == b'/') [
  | true ↦ elim (d == b'e') [
    | true ↦ some s
    | false ↦ print_chars cs (if d == b'n' then screen_nl s else s)
  ]
  | false ↦ print_chars (d ∷ cs) (print_char c s)
]

-- The inner and the outer loop of `screenClear`.
unfoldable pub clear_row : ℕ → ℕ → ℕ → Screen → Screen
clear_row zero j i s = s
clear_row (suc left) j i s = clear_row left (j + 1) i (set_char b' ' (i * screen_width + j) s)

unfoldable pub clear_rows : ℕ → ℕ → Screen → Screen
clear_rows zero i s = s
clear_rows (suc left) i s = clear_rows left (i + 1) (clear_row screen_width 0 i s)

unfoldable pub screen_clear : Screen → Screen
screen_clear s = record (clear_rows screen_hight 0 s) { cur_x = 0; cur_y = 0 }

unfoldable pub set_print_status : ℕ → Screen → Screen
set_print_status status s = record s { print_status = u8 status }
