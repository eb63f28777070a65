-- ===== src/Screen/Scroll.antt =====
-- `screenUp`: what is in each cell afterwards.
use os_v.Base.{ℕ, zero, suc, ◌+◌, ◌*◌, ◌<◌, ◌≡◌, ◌&&◌, arith, ltb, leb, if◌then◌else◌}
use os_v.Memory.{Mem, read8, write8}
use os_v.Memory.Laws.{read8-write8}
use os_v.Screen.{Screen, copy_up, zero_fill, screen_up}

-- The copy goes upwards through memory, to lower addresses: no byte is read after it was written.
copy_up_lem :
    (left x y d p : ℕ) (m : Mem)
    → y ≡ x + d
    → 0 < d
    → read8 p (copy_up left x y m)
      ≡ (if leb x p && ltb p (x + left) then read8 (p + d) m else read8 p m)
unfolding copy_up
copy_up_lem zero x y d p m e pos = ground arith
copy_up_lem (suc left) x y d p m e pos = ground (
  arith,
  copy_up_lem left (x + 1) (y + 1) d p (write8 x (read8 y m) m),
  read8-write8 x (read8 y m) p m,
  read8-write8 x (read8 y m) (p + d) m,
)

zero_fill_lem :
    (left x p : ℕ) (m : Mem)
    → read8 p (zero_fill left x m) ≡ (if leb x p && ltb p (x + left) then 0 else read8 p m)
unfolding zero_fill
zero_fill_lem zero x p m = ground arith
zero_fill_lem (suc left) x p m =
    ground (arith, zero_fill_lem left (x + 1) p (write8 x 0 m), read8-write8 x 0 p m)

-- `screenUp` moves each of the rows 1 to 19 one row up, with its colours, empties row 19, and
-- changes no byte outside these rows.
pub screen_up_lem :
    (s : Screen) (p : ℕ)
    → read8 p (screen_up s).ram ≡ (
        if leb 0xB8000 p && ltb p (0xB8000 + 19 * 160)
        then read8 (p + 160) s.ram
        else if leb (0xB8000 + 19 * 160) p && ltb p (0xB8000 + 20 * 160)
        then 0
        else read8 p s.ram)
unfolding screen_up
screen_up_lem s p = ground (
  arith,
  copy_up_lem 3040 0xB8000 (0xB8000 + 160) 160 p s.ram,
  zero_fill_lem 160 (0xB8000 + 3040) p (copy_up 3040 0xB8000 (0xB8000 + 160) s.ram),
)
