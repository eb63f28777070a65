-- ===== src/Screen/Numbers.antt =====
-- `screenPrintX` and `screenPrintB`: numbers in hexadecimal and in binary.
use os_v.Base.{ℕ, zero, suc, ◌+◌, ◌-◌, ◌/◌, ◌%◌, u8, bit_and, ltb, if◌then◌else◌, shr}
use os_v.Screen.{Screen, print_char}

-- `hex_digits[offset]` and `bin_digits[offset]`.
unfoldable pub digit_char : ℕ → ℕ
digit_char d = if ltb d 10 then b'0' + d else b'A' + (d - 10)

-- The loop of `screenPrintX`: `i` falls by 4, and `left` digits are to go. A shift of a `uint64_t` by 64
-- or more, which C leaves undefined, goes by the six low bits on the processor.
unfoldable pub print_x_loop : ℕ → ℕ → ℕ → Screen → Screen
print_x_loop zero i inp s = s
print_x_loop (suc left) i inp s =
    print_x_loop left (i - 4) inp (print_char (digit_char (bit_and (shr inp (i % 64)) 0xF)) s)

-- `screenPrintX`; `bits` is a `uint8_t`. The loop runs from `bits - 4` down to 0, that is `bits / 4` times.
unfoldable pub print_x : ℕ → ℕ → Screen → Screen
print_x inp bits s =
    print_x_loop (u8 bits / 4) (u8 bits - 4) inp (print_char b'x' (print_char b'0' s))

-- The loop of `screenPrintB`.
unfoldable pub print_b_loop : ℕ → ℕ → ℕ → Screen → Screen
print_b_loop zero i inp s = s
print_b_loop (suc left) i inp s =
    print_b_loop left (i - 1) inp (print_char (digit_char (bit_and (shr inp (i % 64)) 1)) s)

unfoldable pub print_b : ℕ → ℕ → Screen → Screen
print_b inp bits s = print_b_loop (u8 bits) (u8 bits - 1) inp (print_char b'b' (print_char b'0' s))
