-- ===== src/Screen/Tests.antt =====
-- The screen on concrete input, and the theorems there.
use os_v.Base.{
  ℕ, ◌+◌, ◌*◌, ◌%◌, ◌^◌, ◌≡◌, refl, some, List, [], ◌∷◌, arith, ltb, leb, ◌&&◌, if◌then◌else◌,
  length,
}
use mathlib.Core.Option
use os_v.Memory.{read8, write8}
use os_v.Screen.{
  Screen, print_char, print_chars, screen_nl, screen_up, scroll, set_char, advance_cursor,
}
use os_v.Screen.Numbers.{print_x, print_x_loop, digit_char}
use os_v.Screen.Format.{
  Arg, number, chars, screen_print, print_fmt, print_number, print_command, width_of, next_number,
  next_chars,
}
use os_v.Screen.Cursor.{IsOnScreen}
use os_v.Screen.Output.{Returns, ends, accepts, after_number, after_command, screen_print-Returns}
use os_v.Screen.Scroll.{screen_up_lem}
use os_v.Screen.Digits.{numeral, value_of, type_out, print_x-numeral}
use os_v.Screen.Wrap.{Typed, type_out-Typed, print_char_lost}

abbrev blank : Screen
blank = record { cur_x = 0; cur_y = 0; print_status = 0; ram = λ p. 0 }

abbrev hello : List ℕ
hello = b'h' ∷ b'i' ∷ b'/' ∷ b'n' ∷ b'!' ∷ b'/' ∷ b'e' ∷ []

-- "hi/n!/e" puts the mark at the start of the second row.
hello_runs : Option.map (λ t. t.ram (0xB8000 + 160)) (print_chars hello blank) ≡ some b'!'
unfolding print_chars print_char screen_nl scroll set_char advance_cursor write8
hello_runs = refl

abbrev report : List ℕ
report = b'A' ∷ b'/' ∷ b'x' ∷ b'B' ∷ b'/' ∷ b'c' ∷ b'/' ∷ b'n' ∷ b'/' ∷ b'e' ∷ []

abbrev report_args : List Arg
report_args = number 0x1A7 ∷ chars hello ∷ []

-- "A/xB/c/n/e" prints the low byte of the number.
report_runs :
    Option.map (λ t. t.ram (0xB8000 + 2 * 4)) (screen_print report report_args blank) ≡ some b'7'
unfolding screen_print print_fmt print_number print_command width_of next_number next_chars
    print_chars print_x print_x_loop digit_char print_char screen_nl scroll set_char advance_cursor
    write8
report_runs = refl

blank-IsOnScreen : IsOnScreen blank
blank-IsOnScreen = omega arith

screen_print-Returns_example : Returns blank (screen_print report report_args blank)
unfolding accepts after_number after_command width_of ends
screen_print-Returns_example = screen_print-Returns report report_args blank blank-IsOnScreen refl

screen_up_lem_example : read8 0xB8000 (screen_up blank).ram ≡ (
    if leb 0xB8000 0xB8000 && ltb 0xB8000 (0xB8000 + 19 * 160)
    then read8 (0xB8000 + 160) blank.ram
    else if leb (0xB8000 + 19 * 160) 0xB8000 && ltb 0xB8000 (0xB8000 + 20 * 160)
    then 0
    else read8 0xB8000 blank.ram)
screen_up_lem_example = screen_up_lem blank 0xB8000

print_x-numeral_example :
    (print_x 0xBEEF (4 * 4) blank ≡ type_out (b'0' ∷ b'x' ∷ numeral 4 0xBEEF) blank)
    × (length (numeral 4 0xBEEF) ≡ 4)
    × (value_of 0 (numeral 4 0xBEEF) ≡ 0xBEEF % 2 ^ (4 * 4))
print_x-numeral_example = print_x-numeral 0xBEEF 4 blank (omega arith)

type_out-Typed_example : Typed (b'o' ∷ b'k' ∷ []) blank (type_out (b'o' ∷ b'k' ∷ []) blank)
type_out-Typed_example = type_out-Typed (b'o' ∷ b'k' ∷ []) blank (omega arith) (omega arith)

abbrev at_the_end : Screen
at_the_end = record blank { cur_x = 80; cur_y = 3 }

print_char_lost_example :
    let lost = print_char b'b' (print_char b'a' at_the_end) in
    let fed = print_char b'b' (screen_nl at_the_end) in
    (lost.cur_x ≡ fed.cur_x)
    × (lost.cur_y ≡ fed.cur_y)
    × (read8 0xB8280 lost.ram ≡ read8 0xB8280 fed.ram)
print_char_lost_example = print_char_lost b'a' b'b' at_the_end 0xB8280 refl (omega arith)
