-- ===== src/Ahci/Goes.antt =====
-- Commands that always return: the messages of `ahci_port_read` and its stores between them.
use os_v.Base.{ℕ, ◌≡◌, refl, true, List}
use os_v.Memory.{Mem}
use os_v.Screen.Format.{Arg}
use os_v.Screen.Cursor.{IsOnScreen}
use os_v.Screen.Output.{accepts, screen_print-Returns}
use os_v.Machine.{Machine, with_ram, Run, Cmd, done, ◌>>=◌, ◌>>◌, modify}
use os_v.Machine.{print}

-- From a machine whose cursor is on the screen the run returns, and leaves the cursor there.
abbrev pub Ran : {A : Type 0} → Run A → Type 0
Ran {A} out = (a : A) × (m' : Machine) × (out ≡ done a m') × IsOnScreen m'.screen

abbrev pub Goes : {A : Type 0} → Cmd A → Type 0
Goes c = (m : Machine) → IsOnScreen m.screen → Ran (c m)

module _ {A B : Type 0} where
  pub Goes-bind : {c : Cmd A} {k : A → Cmd B} → Goes c → ((a : A) → Goes (k a)) → Goes (c >>= k)
  Goes-bind {c} {k} hc hk m on = let (a, m', run, on') = hc m on in rw run (hk a m' on')

  pub Goes-then : {c : Cmd A} {d : Cmd B} → Goes c → Goes d → Goes (c >> d)
  Goes-then {c} {d} hc hd m on = let (a, m', run, on') = hc m on in rw run (hd m' on')

  -- A property of how a run ends holds if it holds of what is left behind a command that returns.
  pub after :
      {c : Cmd A} {d : Cmd B} (P : Run B → Type 0) (m : Machine)
      → Goes c
      → IsOnScreen m.screen
      → ((m' : Machine) → IsOnScreen m'.screen → P (d m'))
      → P ((c >> d) m)
  after {c} {d} P m hc on hd = let (a, m', run, on') = hc m on in rw run (hd m' on')

pub Goes-print : (fmt : List ℕ) (args : List Arg) → accepts fmt args ≡ true → Goes (print fmt args)
unfolding print
Goes-print fmt args ok m on =
    let (s, drawn, draws) = screen_print-Returns fmt args m.screen on ok in
    (tt, record m { screen = s }, rw (drawn, print) refl, draws.cursor)

pub Goes-ram : (f : Machine → Mem) → Goes (modify (λ m. with_ram (f m) m))
Goes-ram f m on = (tt, with_ram (f m) m, refl, record { column = on.column; line = on.line })
