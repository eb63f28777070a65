-- ===== src/Ahci/PortRead.antt =====
-- `ahci_port_read` as a whole: the list of linear addresses, the slot, the command and its end.
use os_v.Base.{
  ℕ, zero, suc, ◌+◌, ◌-◌, ◌*◌, ◌^◌, ◌≤◌, ◌<◌, ◌≡◌, refl, ◌⊎◌, inl, inr, Bool, true, Option, none,
  some, List, [], ◌∷◌, ◌==◌, arith, Bool-cases, ne→==, if◌then◌else◌, u64, length, sym,
}
use os_v.Memory.{Mem, read8, read64}
use os_v.Memory.Laws.{read_bytes_cong}
use os_v.Screen.Cursor.{IsOnScreen}
use os_v.Screen.Output.{accepts, after_number, after_command, screen_print-Returns}
use os_v.Screen.Format.{width_of}
use os_v.Machine.{Machine, ram, Run, done}
use os_v.Machine.{print}
use os_v.Ahci.{find_cmdslot}
use os_v.Ahci.Chain.{Links}
use os_v.Ahci.ReadTexts.{read_text, port_addr_text, port_table_text, no_slot_text, slot_text}
use os_v.Ahci.Goes.{Goes-print, after}
use os_v.Ahci.Outcome.{CommandEnds, setup_command-Goes, wait_and_issue-CommandEnds}
use os_v.Ahci.Read.{
  PortReads, PortWrite, set_is, find_entry, with_slot, read_with, at_entry, search_and_read,
  ahci_port_read,
}

-- The first of the entries whose `id` is the port.
unfoldable pub entry_of : ℕ → List ℕ → Mem → Option ℕ
entry_of port [] m = none
entry_of port (p ∷ ps) m =
    let rest = entry_of port ps m in if read64 (p + 8) m == port then some p else rest

-- The `next` and `id` fields of the entries lie in the address space, and outside of video memory.
abbrev pub AllOffScreen : List ℕ → Type 0
AllOffScreen [] = Unit {0}
AllOffScreen (p ∷ ps) =
    (p + 16 ≤ 2 ^ 64) × ((p + 16 ≤ 0xB8000) ⊎ (0xB8000 + 2 * 1601 ≤ p)) × AllOffScreen ps

find_entry-entry_of :
    (ps : List ℕ) (fuel port p : ℕ) (m : Mem)
    → Links m p (p ∷ ps)
    → AllOffScreen (p ∷ ps)
    → length ps < fuel
    → find_entry fuel port p m ≡ some (entry_of port (p ∷ ps) m)
unfolding find_entry entry_of
find_entry-entry_of ps zero port p m h off enough = absurd (omega arith)
find_entry-entry_of [] (suc fuel) port p m h off enough =
    let word : u64 (p + 8) ≡ p + 8 = omega (arith, off.0) in
    rw word elim (Bool-cases (read64 (p + 8) m == port)) [
      | inl is ↦ rw is refl
      | inr not_ ↦ rw not_ rw (h.2) refl
    ]
find_entry-entry_of (q ∷ ps) (suc fuel) port p m h off enough =
    let word : u64 (p + 8) ≡ p + 8 = omega (arith, off.0) in
    let next = h.2.0 in
    let pos = h.2.1 in
    let rest : Links m q (q ∷ ps) = (refl, pos, h.2.2) in
    let ih = find_entry-entry_of ps fuel port q m rest off.2 (omega arith) in
    rw word elim (Bool-cases (read64 (p + 8) m == port)) [
      | inl is ↦ rw is refl
      | inr not_ ↦ rw not_ rw (ne→== (read64 p m) 0 (λ is. omega (arith, is, next, pos))) rw next ih
    ]

-- Output changes neither the list nor the port of an entry.
module _ (m m' : Mem)
    (outside : (q : ℕ) → (q < 0xB8000) ⊎ (0xB8000 + 2 * 1601 ≤ q) → read8 q m' ≡ read8 q m) where
  same_word :
      (p k : ℕ)
      → k ≤ 8
      → (p + 16 ≤ 0xB8000) ⊎ (0xB8000 + 2 * 1601 ≤ p)
      → read64 (p + k) m' ≡ read64 (p + k) m
  same_word p k l off = read_bytes_cong 8 (p + k) m' m (λ q lo hi. outside q (omega (arith, off)))

  Links-cong : (ps : List ℕ) (e : ℕ) → AllOffScreen ps → Links m e ps → Links m' e ps
  Links-cong [] e off h = h
  Links-cong (p ∷ ps) e off h =
      let same : read64 p m' ≡ read64 p m =
        read_bytes_cong 8 p m' m (λ q lo hi. outside q (omega (arith, off.1))) in
      (h.0, h.1, Links-cong ps (read64 p m') off.2 (rw same (h.2)))

  entry_of_cong :
      (port : ℕ) (ps : List ℕ) → AllOffScreen ps → entry_of port ps m' ≡ entry_of port ps m
  unfolding entry_of
  entry_of_cong port [] off = refl
  entry_of_cong port (p ∷ ps) off =
      rw (same_word p 8 (omega arith) off.1) rw (entry_of_cong port ps off.2) refl

-- How a read ends, by the list, the slots and the command.
pub data ReadEnds (reads : PortReads) (fuel port : ℕ) (ps : List ℕ) (m : Mem)
    : Run (List PortWrite × Bool) → Type 0 where
  unlisted :
      (m' : Machine)
      → entry_of port ps m ≡ none
      → ReadEnds reads fuel port ps m (done ([], true) m')
  no_slot :
      (p : ℕ) (m' : Machine)
      → entry_of port ps m ≡ some p
      → find_cmdslot reads.registers ≡ none
      → ReadEnds reads fuel port ps m (done (set_is (2 ^ 32 - 1) ∷ [], true) m')
  issued :
      (p slot : ℕ) (out : Run (List PortWrite × Bool))
      → entry_of port ps m ≡ some p
      → find_cmdslot reads.registers ≡ some slot
      → CommandEnds reads slot fuel out
      → ReadEnds reads fuel port ps m out

module _ (reads : PortReads) (fuel port start count buf : ℕ) (ps : List ℕ) (m : Mem) where
  read_with-ReadEnds :
      (p : ℕ) (m' : Machine)
      → entry_of port ps m ≡ some p
      → IsOnScreen m'.screen
      → ReadEnds reads fuel port ps m (read_with reads fuel port p start count buf m')
  unfolding read_with with_slot accepts after_number after_command width_of
  read_with-ReadEnds p m' listed on =
      after (ReadEnds reads fuel port ps m) m' (Goes-print port_addr_text _ refl) on (λ m1 on1.
        after (ReadEnds reads fuel port ps m) m1 (Goes-print port_table_text _ refl) on1
          (λ m2 on2. by_slot (find_cmdslot reads.registers) refl m2 on2))
    where
      by_slot :
          (o : Option ℕ)
          → find_cmdslot reads.registers ≡ o
          → (m2 : Machine) → IsOnScreen m2.screen
          → ReadEnds reads fuel port ps m (with_slot reads fuel p start count buf o m2)
      by_slot none e m2 on2 =
          after (ReadEnds reads fuel port ps m) m2 (Goes-print no_slot_text _ refl) on2
            (λ m3 on3. no_slot p m3 listed e)
      by_slot (some slot) e m2 on2 =
          after (ReadEnds reads fuel port ps m) m2 (Goes-print slot_text _ refl) on2 (λ m3 on3.
            after (ReadEnds reads fuel port ps m) m3 (setup_command-Goes p slot start count buf) on3
              (λ m4 on4.
                issued p slot _ listed e (wait_and_issue-CommandEnds reads fuel slot m4 on4)))

-- Behind the first message.
by_list :
    (reads : PortReads) (walk fuel port start count buf e : ℕ) (ps : List ℕ) (r : Mem) (m : Machine)
    → Links (ram m) e ps
    → entry_of port ps (ram m) ≡ entry_of port ps r
    → AllOffScreen ps
    → length ps ≤ walk
    → IsOnScreen m.screen
    → ReadEnds reads fuel port ps r (search_and_read reads walk fuel e port start count buf m)
unfolding search_and_read at_entry
by_list reads walk fuel port start count buf e [] r m h same off enough on =
    rw h (unlisted m (unfold entry_of in refl))
by_list reads walk fuel port start count buf e (p ∷ ps) r m h same off enough on =
    let at = h.0 in
    let above = h.1 in
    let found = find_entry-entry_of ps walk port p (ram m) (refl, above, h.2) off (omega arith) in
    rw at rw (ne→== p 0 (λ is. omega (arith, is, above)), search_and_read) rw found
      (by_entry (entry_of port (p ∷ ps) (ram m)) (sym same))
  where
    by_entry :
        (o : Option ℕ)
        → entry_of port (p ∷ ps) r ≡ o
        → ReadEnds reads fuel port (p ∷ ps) r (at_entry reads fuel port start count buf (some o) m)
    by_entry none listed = unlisted m listed
    by_entry (some q) listed =
        read_with-ReadEnds reads fuel port start count buf (p ∷ ps) r q m listed on

-- `ahci_port_read` of a port, from a machine whose cursor is on the screen and whose list of linear
-- addresses has the entries `ps`, which lie outside of video memory, with fuel for the list.
-- If no entry has the port it returns 1 and stores to no register. Else, if all slots are taken, it
-- clears the interrupt status and returns 1. Else it waits for the port: if the first million reads of
-- `tfd` say that the port is busy it returns 1 and issues nothing, and if not it issues the command in
-- the slot. It returns 0 only if the first read of `ci` after that has the command finished. If the
-- read that shows an error comes before one that has it finished, it returns 1; if a later read than
-- the first has it finished, it never returns; if there is no end of the command within `fuel` reads,
-- it goes on waiting.
pub ahci_port_read-ReadEnds :
    (reads : PortReads) (walk fuel port start count buf e : ℕ) (ps : List ℕ) (m : Machine)
    → IsOnScreen m.screen
    → Links (ram m) e ps
    → AllOffScreen ps
    → length ps ≤ walk
    → ReadEnds reads fuel port ps (ram m) (ahci_port_read reads walk fuel e port start count buf m)
unfolding ahci_port_read print accepts after_number after_command width_of
ahci_port_read-ReadEnds reads walk fuel port start count buf e ps m on h off enough =
    let (s, drawn, draws) = screen_print-Returns read_text [] m.screen on refl in
    let m' : Machine = record m { screen = s } in
    let same = draws.outside in
    rw (drawn, print)
      (by_list reads walk fuel port start count buf e ps (ram m) m'
        (Links-cong (ram m) (ram m') same ps e off h)
        (entry_of_cong (ram m) (ram m') same port ps off) off enough draws.cursor)
