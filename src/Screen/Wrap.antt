-- ===== src/Screen/Wrap.antt =====
-- What a character does to the cells: within a row, and at its end.
use os_v.Base.{
  ℕ, zero, suc, ◌+◌, ◌*◌, ◌%◌, ◌≤◌, ◌<◌, ◌≡◌, refl, ◌⊎◌, List, [], ◌∷◌, arith, ◌==◌, if◌then◌else◌,
  le→ltb, length, get_or, ap,
}
use os_v.Memory.{read8, write8}
use os_v.Screen.{Screen, scroll, screen_nl, set_char, advance_cursor, print_char}
use os_v.Screen.Digits.{type_out}

set_char-cells :
    (c position : ℕ) (s : Screen) (p : ℕ)
    → read8 p (set_char c position s).ram ≡ (
        if p == 0xB8000 + position * 2
        then c % 256
        else if p == 0xB8000 + position * 2 + 1
        then 0x0F
        else read8 p s.ram)
unfolding set_char write8
set_char-cells c position s p = ground arith

module _ (c : ℕ) (s : Screen) (row : s.cur_y ≤ 19) where
  print_char_within :
      s.cur_x < 80
      → print_char c s
        ≡ record (set_char c (s.cur_y * 80 + s.cur_x) s) { cur_x = s.cur_x + 1; cur_y = s.cur_y }
  unfolding print_char advance_cursor scroll set_char
  print_char_within h = rw (le→ltb 80 (s.cur_x + 1) (omega arith), le→ltb 19 s.cur_y row)

  print_char_at_end :
      s.cur_x ≡ 80
      → s.cur_y < 19
      → print_char c s
        ≡ record (set_char c (s.cur_y * 80 + 80) s) { cur_x = 0; cur_y = s.cur_y + 1 }
  unfolding print_char advance_cursor scroll set_char
  print_char_at_end e h = ground arith

-- `t` is `s` after the characters `cs` in one row: the cursor stands behind them, each cell holds
-- its character and the default colour, and the rest of memory is as it was.
pub record Typed (cs : List ℕ) (s t : Screen) : Type 0 where
  pub column : t.cur_x ≡ s.cur_x + length cs
  pub line : t.cur_y ≡ s.cur_y
  pub cells :
      (k : ℕ)
      → k < length cs
      → let p = 0xB8000 + (s.cur_y * 80 + s.cur_x + k) * 2 in
        (read8 p t.ram ≡ get_or cs k 0 % 256) × (read8 (p + 1) t.ram ≡ 0x0F)
  pub others :
      (p : ℕ)
      → (p < 0xB8000 + (s.cur_y * 80 + s.cur_x) * 2)
        ⊎ (0xB8000 + (s.cur_y * 80 + s.cur_x + length cs) * 2 ≤ p)
      → read8 p t.ram ≡ read8 p s.ram

module _ (c : ℕ) (cs : List ℕ) (s : Screen) where
  abbrev next : Screen
  next = record (set_char c (s.cur_y * 80 + s.cur_x) s) { cur_x = s.cur_x + 1; cur_y = s.cur_y }

  Typed-cons : {t : Screen} → Typed cs next t → Typed (c ∷ cs) s t
  Typed-cons {t} r = record {
    column = omega (arith, r.column);
    line = r.line;
    cells = cells;
    others = λ p o. ground (arith, r.others p, set_char-cells c (s.cur_y * 80 + s.cur_x) s p);
  }
    where
      first : ℕ
      first = 0xB8000 + (s.cur_y * 80 + s.cur_x) * 2

      cells :
          (k : ℕ)
          → k < length (c ∷ cs)
          → let p = 0xB8000 + (s.cur_y * 80 + s.cur_x + k) * 2 in
            (read8 p t.ram ≡ get_or (c ∷ cs) k 0 % 256) × (read8 (p + 1) t.ram ≡ 0x0F)
      cells zero h = (
        ground (arith, r.others first, set_char-cells c (s.cur_y * 80 + s.cur_x) s first),
        ground
            (arith, r.others (first + 1), set_char-cells c (s.cur_y * 80 + s.cur_x) s (first + 1)),
      )
      cells (suc k) h =
          let e : s.cur_y * 80 + (s.cur_x + 1) + k ≡ s.cur_y * 80 + s.cur_x + suc k = omega arith in
          rw e at (r.cells k (omega arith))

  type_out-cons : s.cur_y ≤ 19 → s.cur_x < 80 → type_out (c ∷ cs) s ≡ type_out cs next
  unfolding type_out
  type_out-cons hy hx = ap (type_out cs) (print_char_within c s hy hx)

-- Text that fits the row of the cursor appears there, one cell to a character.
pub type_out-Typed :
    (cs : List ℕ) (s : Screen)
    → s.cur_y ≤ 19
    → s.cur_x + length cs ≤ 80
    → Typed cs s (type_out cs s)
type_out-Typed [] s hy hx =
    unfold type_out in
    record {
      column = omega arith;
      line = refl;
      cells = λ k h. absurd (omega arith);
      others = λ p o. refl;
    }
type_out-Typed (c ∷ cs) s hy hx =
    rw (type_out-cons c cs s hy (omega arith))
      (Typed-cons c cs s (type_out-Typed cs (next c cs s) hy (omega arith)))

screen_nl-below :
    (s : Screen) → s.cur_y < 19 → screen_nl s ≡ record s { cur_x = 0; cur_y = s.cur_y + 1 }
unfolding screen_nl scroll
screen_nl-below s h = rw (le→ltb 19 (s.cur_y + 1) (omega arith))

-- A character printed at column 80 of a row above the last, 19, is lost once another one is printed: it
-- goes to the first cell of the next row, and the next character goes to the same cell. The cursor and
-- every byte of memory are then as if a line feed had stood in place of the first one.
pub print_char_lost :
    (c d : ℕ) (s : Screen) (p : ℕ)
    → s.cur_x ≡ 80
    → s.cur_y < 19
    → let lost = print_char d (print_char c s) in
      let fed = print_char d (screen_nl s) in
      (lost.cur_x ≡ fed.cur_x) × (lost.cur_y ≡ fed.cur_y) × (read8 p lost.ram ≡ read8 p fed.ram)
print_char_lost c d s p e h =
    rw
      (
        print_char_at_end c s (omega arith) e h,
        screen_nl-below s h,
        print_char_within d
            (record (set_char c (s.cur_y * 80 + 80) s) { cur_x = 0; cur_y = s.cur_y + 1 })
            (omega arith) (omega arith),
        print_char_within d (record s { cur_x = 0; cur_y = s.cur_y + 1 }) (omega arith)
            (omega arith),
      )
      (
        refl,
        refl,
        ground (
          arith,
          set_char-cells c (s.cur_y * 80 + 80) s p,
          set_char-cells d ((s.cur_y + 1) * 80 + 0)
              (record (set_char c (s.cur_y * 80 + 80) s) { cur_x = 0; cur_y = s.cur_y + 1 }) p,
          set_char-cells d ((s.cur_y + 1) * 80 + 0) (record s { cur_x = 0; cur_y = s.cur_y + 1 }) p,
        ),
      )
