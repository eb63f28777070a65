-- ===== src/Screen/Cursor.antt =====
-- The cursor stays on the screen and output stays in video memory, through every operation.
use mathlib.Core.Path.{◌∙◌}
use os_v.Base.{
  ℕ, zero, suc, ◌+◌, ◌-◌, ◌*◌, ◌≤◌, ◌<◌, ◌≡◌, refl, ◌⊎◌, inl, inr, arith, ltb, Bool-cases,
}
use os_v.Base.Int.{ℤ, pos}
use os_v.Memory.{read8, write8}
use os_v.Screen.{
  Screen, cursor_set, screen_up, scroll, screen_nl, set_char, advance_cursor, print_char, clear_row,
  clear_rows, screen_clear,
}
use os_v.Screen.Scroll.{screen_up_lem}

-- The columns go up to `SCREEN_WIDTH` itself, one beyond the last.
pub record IsOnScreen (s : Screen) : Type 0 where
  pub column : s.cur_x ≤ 80
  pub line : s.cur_y ≤ 19

-- `t` comes from `s` by output: the cursor is on the screen, bytes outside the 1601 cells from
-- 0xB8000 on are as they were, and so is the print status.
pub record Draws (s t : Screen) : Type 0 where
  pub cursor : IsOnScreen t
  pub outside : (p : ℕ) → (p < 0xB8000) ⊎ (0xB8000 + 2 * 1601 ≤ p) → read8 p t.ram ≡ read8 p s.ram
  pub status : t.print_status ≡ s.print_status

pub Draws-refl : {s : Screen} → IsOnScreen s → Draws s s
Draws-refl h = record { cursor = h; outside = λ p o. refl; status = refl }

pub Draws-trans : {s t u : Screen} → Draws s t → Draws t u → Draws s u
Draws-trans a b = record {
  cursor = b.cursor;
  outside = λ p o. b.outside p o ∙ a.outside p o;
  status = b.status ∙ a.status;
}

-- `screenCursorSet` leaves the cursor on the screen, whatever it is given,
-- and writes nothing.
pub cursor_set-Draws : (x y : ℤ) (s : Screen) → Draws s (cursor_set x y s)
unfolding cursor_set
cursor_set-Draws (pos x) (pos y) s = record {
  cursor = ground arith;
  outside = λ p o. refl;
  status = refl;
}
cursor_set-Draws x y s = record { cursor = ground arith; outside = λ p o. refl; status = refl }

module _ (s : Screen) (h : IsOnScreen s) where
  pub set_char-Draws : (c position : ℕ) → position ≤ 1600 → Draws s (set_char c position s)
  set_char-Draws c position hp = record {
    cursor = unfold set_char in ground arith;
    outside = λ p o. unfold set_char write8 in ground arith;
    status = unfold set_char in refl;
  }

  screen_up-Draws : Draws s (screen_up s)
  screen_up-Draws = record {
    cursor = unfold screen_up in record { column = h.column; line = h.line };
    outside = λ p o. ground (arith, screen_up_lem s p);
    status = unfold screen_up in refl;
  }

-- The row below is on the screen, or the screen scrolls.
scroll-Draws : (s : Screen) → s.cur_x ≤ 80 → s.cur_y ≤ 20 → Draws s (scroll s)
scroll-Draws s hx hy = elim (Bool-cases (ltb 19 s.cur_y)) [
  | inl low ↦
      let up =
        screen_up-Draws (record s { cur_y = s.cur_y - 1 })
          (record { column = hx; line = omega arith }) in
      unfold scroll in
      rw low (record { cursor = up.cursor; outside = up.outside; status = up.status })
  | inr fits ↦ unfold scroll in rw fits (Draws-refl (record { column = hx; line = ground arith }))
]

-- A change of the cursor alone, and what is drawn from there.
from_cursor : {s t : Screen} (x y : ℕ) → Draws (record s { cur_x = x; cur_y = y }) t → Draws s t
from_cursor x y d = record { cursor = d.cursor; outside = d.outside; status = d.status }

module _ (s : Screen) (h : IsOnScreen s) where
  -- `screenNl` keeps the cursor on the screen and writes to video memory only.
  pub screen_nl-Draws : Draws s (screen_nl s)
  unfolding screen_nl
  screen_nl-Draws =
      from_cursor 0 (s.cur_y + 1) (
        scroll-Draws (record s { cur_x = 0; cur_y = s.cur_y + 1 }) (omega arith) (omega (arith, h)))

  advance_cursor-scroll : Draws s (scroll (advance_cursor s))
  advance_cursor-scroll = elim (Bool-cases (ltb 80 (s.cur_x + 1))) [
    | inl past ↦
        unfold advance_cursor in
        rw past (from_cursor 0 (s.cur_y + 1) (scroll-Draws _ (omega arith) (omega (arith, h))))
    | inr fits ↦
        unfold advance_cursor in
        rw fits (
          from_cursor (s.cur_x + 1) s.cur_y
            (scroll-Draws _ (ground (arith, h.column)) (omega (arith, h))))
  ]

pub print_char-Draws : (c : ℕ) (s : Screen) → IsOnScreen s → Draws s (print_char c s)
print_char-Draws c s h =
    let set = set_char-Draws s h c (s.cur_y * 80 + s.cur_x) (omega (arith, h)) in
    unfold print_char in Draws-trans set (advance_cursor-scroll _ set.cursor)

-- A row of `screenClear`, and all of them.
clear_row-Draws :
    (left j i : ℕ) (s : Screen)
    → IsOnScreen s
    → i < 19
    → j + left ≤ 80
    → Draws s (clear_row left j i s)
unfolding clear_row
clear_row-Draws zero j i s h hi hj = Draws-refl h
clear_row-Draws (suc left) j i s h hi hj =
    let d = set_char-Draws s h b' ' (i * 80 + j) (omega arith) in
    Draws-trans d (clear_row-Draws left (j + 1) i _ d.cursor hi (omega arith))

clear_rows-Draws :
    (left i : ℕ) (s : Screen) → IsOnScreen s → i + left ≤ 19 → Draws s (clear_rows left i s)
unfolding clear_rows
clear_rows-Draws zero i s h hi = Draws-refl h
clear_rows-Draws (suc left) i s h hi =
    let d = clear_row-Draws 80 0 i s h (omega arith) (omega arith) in
    Draws-trans d (clear_rows-Draws left (i + 1) _ d.cursor (omega arith))

pub screen_clear-Draws : (s : Screen) → IsOnScreen s → Draws s (screen_clear s)
unfolding screen_clear
screen_clear-Draws s h =
    let d = clear_rows-Draws 19 0 s h (omega arith) in
    record { cursor = omega arith; outside = d.outside; status = d.status }
