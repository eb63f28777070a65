-- ===== src/Screen/Output.antt =====
-- The printing functions: when they return, and that what they draw stays on the screen.
use os_v.Base.{
  ℕ, zero, suc, ◌-◌, ◌%◌, ◌≡◌, Bool, true, false, Option, none, some, List, [], ◌∷◌, ◌&&◌, ◌||◌,
  inl, inr, arith, ◌==◌, Bool-cases, Option-cases, ◌^◌, if◌then◌else◌, bit_and, shr,
}
use os_v.Screen.{Screen, screen_nl, print_char, print_chars, screen_clear}
use os_v.Screen.Numbers.{digit_char, print_x_loop, print_x, print_b_loop, print_b}
use os_v.Screen.Format.{
  Arg, number, chars, next_number, next_chars, width_of, print_number, print_command, print_fmt,
  screen_print,
}
use os_v.Screen.Cursor.{
  IsOnScreen, Draws, Draws-refl, Draws-trans, screen_nl-Draws, print_char-Draws, screen_clear-Draws,
}

-- A returning run, which draws.
abbrev pub Returns : Screen → Option Screen → Type 0
Returns s o = (t : Screen) × (o ≡ some t) × Draws s t

after : {s t : Screen} {o : Option Screen} → Draws s t → Returns t o → Returns s o
after d r = (r.0, r.1, Draws-trans d r.2)

-- Whether a character array holds the `/e` that ends it.
unfoldable pub ends : List ℕ → Bool
ends [] = false
ends (c ∷ []) = false
ends (c ∷ d ∷ cs) = elim (c == b'/') [
  | true ↦ elim (d == b'e') [ true ↦ true | false ↦ ends cs ]
  | false ↦ ends (d ∷ cs)
]

escape-Draws : (d : ℕ) (s : Screen) → IsOnScreen s → Draws s (if d == b'n' then screen_nl s else s)
escape-Draws d s h = elim (Bool-cases (d == b'n')) [
  | inl e ↦ rw e (screen_nl-Draws s h)
  | inr e ↦ rw e (Draws-refl h)
]

-- `screenPrintChars` returns when the array holds its end, and draws on the screen.
pub print_chars-Returns :
    (cs : List ℕ) (s : Screen) → IsOnScreen s → ends cs ≡ true → Returns s (print_chars cs s)
unfolding print_chars ends
print_chars-Returns [] s h e = absurd (ground arith)
print_chars-Returns (c ∷ []) s h e = absurd (ground arith)
print_chars-Returns (c ∷ d ∷ cs) s h e = elim (Bool-cases (c == b'/')) [
  | inl slash ↦ elim (Bool-cases (d == b'e')) [
    | inl end ↦ (s, ground arith, Draws-refl h)
    | inr more ↦
        let one = escape-Draws d s h in
        let rest =
          print_chars-Returns cs (if d == b'n' then screen_nl s else s) one.cursor (ground arith) in
        (rest.0, ground (arith, rest.1), Draws-trans one rest.2)
  ]
  | inr plain ↦
      let one = print_char-Draws c s h in
      let rest = print_chars-Returns (d ∷ cs) (print_char c s) one.cursor (ground arith) in
      (rest.0, ground (arith, rest.1), Draws-trans one rest.2)
]

print_x_loop-Draws :
    (left i inp : ℕ) (s : Screen) → IsOnScreen s → Draws s (print_x_loop left i inp s)
unfolding print_x_loop
print_x_loop-Draws zero i inp s h = Draws-refl h
print_x_loop-Draws (suc left) i inp s h =
    let d = print_char-Draws (digit_char (bit_and (shr inp (i % 64)) 0xF)) s h in
    Draws-trans d (print_x_loop-Draws left (i - 4) inp _ d.cursor)

print_b_loop-Draws :
    (left i inp : ℕ) (s : Screen) → IsOnScreen s → Draws s (print_b_loop left i inp s)
unfolding print_b_loop
print_b_loop-Draws zero i inp s h = Draws-refl h
print_b_loop-Draws (suc left) i inp s h =
    let d = print_char-Draws (digit_char (bit_and (shr inp (i % 64)) 1)) s h in
    Draws-trans d (print_b_loop-Draws left (i - 1) inp _ d.cursor)

prefix-Draws : (c d : ℕ) (s : Screen) → IsOnScreen s → Draws s (print_char d (print_char c s))
prefix-Draws c d s h =
    let one = print_char-Draws c s h in Draws-trans one (print_char-Draws d _ one.cursor)

pub print_x-Draws : (inp bits : ℕ) (s : Screen) → IsOnScreen s → Draws s (print_x inp bits s)
unfolding print_x
print_x-Draws inp bits s h =
    let d = prefix-Draws b'0' b'x' s h in Draws-trans d (print_x_loop-Draws _ _ inp _ d.cursor)

pub print_b-Draws : (inp bits : ℕ) (s : Screen) → IsOnScreen s → Draws s (print_b inp bits s)
unfolding print_b
print_b-Draws inp bits s h =
    let d = prefix-Draws b'0' b'b' s h in Draws-trans d (print_b_loop-Draws _ _ inp _ d.cursor)

-- What the arguments must be for a command: `none` is a mismatch.
unfoldable pub after_number : ℕ → List Arg → Option (List Arg)
after_number c args = elim (width_of c) [
  | none ↦ some args
  | some bits ↦ elim args [ number n ∷ rest ↦ some rest | _ ↦ none ]
]

unfoldable pub after_command : ℕ → List Arg → Option (List Arg)
after_command d args =
    if d == b'c'
    then elim args [ chars cs ∷ rest ↦ if ends cs then some rest else none | _ ↦ none ]
    else some args

-- Whether a format holds its end, and each command before it finds an argument of its kind.
unfoldable pub accepts : List ℕ → List Arg → Bool
accepts [] args = false
accepts (c ∷ []) args = false
accepts (c ∷ d ∷ []) args = c == b'/' && d == b'e'
accepts (c ∷ d ∷ w ∷ cs) args = elim (c == b'/') [
  | true ↦ elim (d == b'e') [
    | true ↦ true
    | false ↦ elim (d == b'x' || d == b'b') [
      | true ↦ elim (after_number w args) [ none ↦ false | some rest ↦ accepts cs rest ]
      | false ↦ elim (after_command d args) [ none ↦ false | some rest ↦ accepts (w ∷ cs) rest ]
    ]
  ]
  | false ↦ accepts (d ∷ w ∷ cs) args
]

-- A command that finds its argument leaves the same arguments, and draws.
abbrev Step : List Arg → Screen → Option (List Arg × Screen) → Type 0
Step rest s o = (t : Screen) × (o ≡ some (rest, t)) × Draws s t

module _ (base c : ℕ) (rest : List Arg) (s : Screen) (h : IsOnScreen s) where
  with_width :
      (bits : ℕ) (args : List Arg)
      → width_of c ≡ some bits
      → after_number c args ≡ some rest
      → Step rest s (print_number base c args s)
  unfolding print_number after_number next_number
  with_width bits [] w e = absurd (ground arith)
  with_width bits (chars cs ∷ args) w e = absurd (ground arith)
  with_width bits (number n ∷ args) w e = elim (Bool-cases (base == b'x')) [
    | inl hex ↦ (print_x (n % 2 ^ bits) bits s, ground arith, print_x-Draws _ bits s h)
    | inr bin ↦ (print_b (n % 2 ^ bits) bits s, ground arith, print_b-Draws _ bits s h)
  ]

  print_number-Step :
      (args : List Arg) → after_number c args ≡ some rest → Step rest s (print_number base c args s)
  print_number-Step args e = elim (Option-cases (width_of c)) [
    | inl other ↦ (s, unfold print_number after_number in ground arith, Draws-refl h)
    | inr (bits, w) ↦ with_width bits args w e
  ]

  with_chars :
      (args : List Arg)
      → (c == b'c') ≡ true
      → after_command c args ≡ some rest
      → Step rest s (print_command c args s)
  unfolding print_command after_command next_chars
  with_chars [] is e = absurd (ground arith)
  with_chars (number n ∷ args) is e = absurd (ground arith)
  with_chars (chars cs ∷ args) is e =
      let run = print_chars-Returns cs s h (ground arith) in (run.0, ground (arith, run.1), run.2)

  print_command-Step :
      (args : List Arg) → after_command c args ≡ some rest → Step rest s (print_command c args s)
  print_command-Step args e = elim (Bool-cases (c == b'c')) [
    | inl is ↦ with_chars args is e
    | inr other ↦ elim (Bool-cases (c == b'n')) [
      | inl nl ↦
          (screen_nl s, unfold print_command after_command in ground arith, screen_nl-Draws s h)
      | inr not_nl ↦ elim (Bool-cases (c == b'0')) [
        | inl clear ↦ (
          screen_clear s,
          unfold print_command after_command in ground arith,
          screen_clear-Draws s h,
        )
        | inr not_clear ↦ (s, unfold print_command after_command in ground arith, Draws-refl h)
      ]
    ]
  ]

print_fmt-Returns :
    (fmt : List ℕ) (args : List Arg) (s : Screen)
    → IsOnScreen s
    → accepts fmt args ≡ true
    → Returns s (print_fmt fmt args s)
unfolding print_fmt accepts
print_fmt-Returns [] args s h e = absurd (ground arith)
print_fmt-Returns (c ∷ []) args s h e = absurd (ground arith)
print_fmt-Returns (c ∷ d ∷ []) args s h e = (s, ground arith, Draws-refl h)
print_fmt-Returns (c ∷ d ∷ w ∷ cs) args s h e = elim (Bool-cases (c == b'/')) [
  | inl slash ↦ elim (Bool-cases (d == b'e')) [
    | inl end ↦ (s, ground arith, Draws-refl h)
    | inr more ↦ elim (Bool-cases (d == b'x' || d == b'b')) [
      | inl num ↦ elim (Option-cases (after_number w args)) [
        | inl bad ↦ absurd (ground arith)
        | inr (rest, ok) ↦
            let one = print_number-Step d w rest s h args ok in
            let run = print_fmt-Returns cs rest one.0 one.2.cursor (ground arith) in
            (run.0, ground (arith, one.1, run.1), Draws-trans one.2 run.2)
      ]
      | inr plain ↦ elim (Option-cases (after_command d args)) [
        | inl bad ↦ absurd (ground arith)
        | inr (rest, ok) ↦
            let one = print_command-Step d d rest s h args ok in
            let run = print_fmt-Returns (w ∷ cs) rest one.0 one.2.cursor (ground arith) in
            (run.0, ground (arith, one.1, run.1), Draws-trans one.2 run.2)
      ]
    ]
  ]
  | inr char ↦
      let one = print_char-Draws c s h in
      let run = print_fmt-Returns (d ∷ w ∷ cs) args (print_char c s) one.cursor (ground arith) in
      (run.0, ground (arith, run.1), Draws-trans one run.2)
]

-- `screenPrint` returns for every format that holds its end and whose commands find arguments of
-- their kinds. The cursor is then on the screen, and no byte outside the 1601 cells from 0xB8000
-- on has changed, nor has the print status.
pub screen_print-Returns :
    (fmt : List ℕ) (args : List Arg) (s : Screen)
    → IsOnScreen s
    → accepts fmt args ≡ true
    → Returns s (screen_print fmt args s)
screen_print-Returns fmt args s h e = elim (Bool-cases (s.print_status == 1)) [
  | inl off ↦ (s, unfold screen_print in ground arith, Draws-refl h)
  | inr on ↦
      let run = print_fmt-Returns fmt args s h e in
      (run.0, unfold screen_print in ground (arith, run.1), run.2)
]
