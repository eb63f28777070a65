-- ===== src/Screen/Format.antt =====
-- `screenPrint` with its format commands, and `screenMemoryDump`.
use os_v.Base.{
  ℕ, zero, suc, ◌+◌, ◌/◌, ◌%◌, ◌^◌, true, false, ◌||◌, Option, none, some, List, [], ◌∷◌, bit_and,
  ◌==◌, if◌then◌else◌, u64,
}
use os_v.Memory.{read8}
use os_v.Screen.{Screen, screen_nl, screen_clear, print_char, print_chars}
use os_v.Screen.Numbers.{print_x, print_b}

-- What a caller passes for `...`: numbers and character arrays.
pub data Arg : Type 0 where
  number : ℕ → Arg
  chars : List ℕ → Arg

infixl 5 ◌>>=◌
abbrev pub ◌>>=◌ : {A B : Type 0} → Option A → (A → Option B) → Option B
none >>= k = none
some a >>= k = k a

-- `va_arg(args, uint32_t)` and `va_arg(args, char*)`; `none` where there is no such argument.
unfoldable pub next_number : List Arg → Option (ℕ × List Arg)
next_number [] = none
next_number (number n ∷ args) = some (n, args)
next_number (chars cs ∷ args) = none

unfoldable pub next_chars : List Arg → Option (List ℕ × List Arg)
next_chars [] = none
next_chars (number n ∷ args) = none
next_chars (chars cs ∷ args) = some (cs, args)

-- The width that the letter behind `/x` or `/b` stands for.
unfoldable pub width_of : ℕ → Option ℕ
width_of c =
    if c == b'B'
    then some 8
    else if c == b'W'
    then some 16
    else if c == b'D'
    then some 32
    else if c == b'Q'
    then some 64
    else none

-- `/x` or `/b`, and its letter: another letter prints nothing and takes no argument.
unfoldable pub print_number : ℕ → ℕ → List Arg → Screen → Option (List Arg × Screen)
print_number base c args s = elim (width_of c) [
  | none ↦ some (args, s)
  | some bits ↦ do
    (n, rest) ← next_number args
    some (
      rest,
      if base == b'x' then print_x (n % 2 ^ bits) bits s else print_b (n % 2 ^ bits) bits s,
    )
]

-- A command of one letter, other than the end.
unfoldable pub print_command : ℕ → List Arg → Screen → Option (List Arg × Screen)
print_command d args s =
    if d == b'n'
    then some (args, screen_nl s)
    else if d == b'0'
    then some (args, screen_clear s)
    else if d == b'c'
    then (do (cs, rest) ← next_chars args; s' ← print_chars cs s; some (rest, s'))
    else some (args, s)

-- The loop of `screenPrint`. `none` is a read past the end of the format or of the arguments.
unfoldable pub print_fmt : List ℕ → List Arg → Screen → Option Screen
print_fmt [] args s = none
print_fmt (c ∷ []) args s = none
print_fmt (c ∷ d ∷ []) args s = if c == b'/' then (if d == b'e' then some s else none) else none
print_fmt (c ∷ d ∷ w ∷ cs) args s = elim (c == b'/') [
  | true ↦ elim (d == b'e') [
    | true ↦ some s
    | false ↦ elim (d == b'x' || d == b'b') [
      | true ↦ do (rest, s') ← print_number d w args s; print_fmt cs rest s'
      | false ↦ do (rest, s') ← print_command d args s; print_fmt (w ∷ cs) rest s'
    ]
  ]
  | false ↦ print_fmt (d ∷ w ∷ cs) args (print_char c s)
]

unfoldable pub screen_print : List ℕ → List Arg → Screen → Option Screen
screen_print fmt args s = if s.print_status == 1 then some s else print_fmt fmt args s

abbrev pub memory_dump_bytes_per_row : ℕ
memory_dump_bytes_per_row = 8

-- The inner loop of `screenMemoryDump`: the bytes of a row, each with "/xB /e ".
unfoldable pub dump_row : ℕ → ℕ → ℕ → Screen → Option Screen
dump_row zero j start s = some s
dump_row (suc left) j start s = do
  s' ←
      screen_print (b'/' ∷ b'x' ∷ b'B' ∷ b' ' ∷ b'/' ∷ b'e' ∷ b' ' ∷ [])
        (number (read8 (u64 (start + j)) s.ram) ∷ []) s
  dump_row left (j + 1) start s'

-- The outer loop, at offset `i`, with `left` rows to go.
unfoldable pub dump_rows : ℕ → ℕ → ℕ → Screen → Option Screen
dump_rows zero i start s = some s
dump_rows (suc left) i start s = do
  s' ← screen_print (b'/' ∷ b'x' ∷ b'W' ∷ b':' ∷ b' ' ∷ b'/' ∷ b'e' ∷ []) (number i ∷ []) s
  s'' ← dump_row memory_dump_bytes_per_row 0 (u64 (start + i)) s'
  dump_rows left (i + memory_dump_bytes_per_row) start (screen_nl s'')

-- `screenMemoryDump`: a row for each eight bytes of the size, the last one whole.
unfoldable pub screen_memory_dump : ℕ → ℕ → Screen → Option Screen
screen_memory_dump start size s = dump_rows ((bit_and size 0xFFFF + 7) / 8) 0 start s
