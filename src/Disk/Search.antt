-- ===== src/Disk/Search.antt =====
-- The search against a filter of the table.
use os_v.Base.{
  ℕ, zero, suc, ◌+◌, ◌*◌, ◌^◌, ◌≤◌, ◌<◌, ◌≡◌, ◌≢◌, refl, ◌⊎◌, inl, inr, true, false, some, List, [],
  ◌∷◌, arith, ◌==◌, Bool-cases, Option-cases, ne→==, eq→==, ==→eq, if◌then◌else◌, u16, u64, length,
  get_elem?, ◌∙◌, sym, ap,
}
use mathlib.Core.Path.{subst}
use os_v.Memory.{read16}
use os_v.Screen.{Screen}
use os_v.Screen.Format.{Arg, screen_print}
use os_v.Machine.{Machine, ram, Run, done, halted}
use os_v.Pci.Table.{Holds}
use os_v.Machine.{print}
use os_v.Disk.{Disk, too_many_text, add_device, too_many, is_ahci, search_loop}

-- The AHCI controllers among devices.
unfoldable pub controllers : (ℕ → ℕ) → List ℕ → List ℕ
controllers config [] = []
controllers config (d ∷ ds) =
    let rest = controllers config ds in if is_ahci config d then d ∷ rest else rest

-- `disk'` comes from `disk` by the entry of further devices behind those that it has.
pub record Stored (disk disk' : Disk) (found : List ℕ) : Type 0 where
  pub amount : disk'.disk_found_ahci_amount ≡ disk.disk_found_ahci_amount + length found
  pub old :
      (j : ℕ)
      → j < disk.disk_found_ahci_amount
      → disk'.disk_found_ahci_addr j ≡ disk.disk_found_ahci_addr j
  pub new :
      (k : ℕ)
      → k < length found
      → get_elem? found k ≡ some (disk'.disk_found_ahci_addr (disk.disk_found_ahci_amount + k))

print-cases :
    (fmt : List ℕ) (args : List Arg) (m : Machine)
    → (print fmt args m ≡ halted m)
      ⊎ ((s : Screen) × (print fmt args m ≡ done tt (record m { screen = s })))
unfolding print
print-cases fmt args m = elim (Option-cases (screen_print fmt args m.screen)) [
  | inl lost ↦ inl (rw (lost, print) refl)
  | inr (s, drawn) ↦ inr (s, rw (drawn, print) refl)
]

too_many-halted : (m : Machine) → (m' : Machine) × (too_many m ≡ halted m')
unfolding too_many
too_many-halted m = elim (print-cases too_many_text [] m) [
  | inl lost ↦ (m, rw (lost, too_many) refl)
  | inr (s, drawn) ↦ (record m { screen = s }, rw (drawn, too_many) refl)
]

new-add :
    (disk disk' : Disk) (d : ℕ) (found : List ℕ)
    → disk.disk_found_ahci_amount + 1 < 2 ^ 16
    → Stored (add_device d disk) disk' found
    → (k : ℕ) → k < length (d ∷ found)
    → get_elem? (d ∷ found) k ≡ some (disk'.disk_found_ahci_addr (disk.disk_found_ahci_amount + k))
unfolding add_device
new-add disk disk' d found small h zero l =
    let n = disk.disk_found_ahci_amount in
    let here : n + 0 ≡ n = omega arith in
    let first = h.old n (omega arith) ∙ rw (eq→== n n refl) refl in
    ap (λ (t : ℕ). some t) (sym (ap (disk'.disk_found_ahci_addr) here ∙ first))
new-add disk disk' d found small h (suc k) l =
    let shift : u16 (disk.disk_found_ahci_amount + 1) + k ≡ disk.disk_found_ahci_amount + suc k =
      omega arith in
    h.new k (omega arith) ∙ ap (λ (t : ℕ). some (disk'.disk_found_ahci_addr t)) shift

Stored-add :
    (disk disk' : Disk) (d : ℕ) (found : List ℕ)
    → disk.disk_found_ahci_amount + 1 < 2 ^ 16
    → Stored (add_device d disk) disk' found
    → Stored disk disk' (d ∷ found)
unfolding add_device
Stored-add disk disk' d found small h =
    let more = h.amount in
    record {
      amount = omega arith;
      old = λ j l.
          h.old j (omega arith)
          ∙ rw (ne→== j disk.disk_found_ahci_amount (λ is. omega (arith, is, l))) refl;
      new = new-add disk disk' d found small h;
    }

-- How the loop ends: with the controllers entered where they are at most 4 in all, and halted where they
-- are more. The array has DISK_MAX_AHCI = 5 entries, and the code stops at the last of them.
abbrev pub Searched : Disk → List ℕ → Machine → Run Disk → Type 0
Searched disk found m out =
    ((disk.disk_found_ahci_amount + length found ≤ 4)
      × ((disk' : Disk) × (out ≡ done disk' m) × Stored disk disk' found))
    ⊎ ((4 < disk.disk_found_ahci_amount + length found) × ((m' : Machine) × (out ≡ halted m')))

Searched-add :
    (disk : Disk) (d : ℕ) (found : List ℕ) (m : Machine) {out rest : Run Disk}
    → disk.disk_found_ahci_amount + 1 < 2 ^ 16
    → out ≡ rest
    → Searched (add_device d disk) found m rest
    → Searched disk (d ∷ found) m out
unfolding add_device
Searched-add disk d found m small step (inl (fits, (disk', run, stored))) =
    inl (omega arith, (disk', step ∙ run, Stored-add disk disk' d found small stored))
Searched-add disk d found m small step (inr (over, (m', run))) = inr (omega arith, (m', step ∙ run))

module _ (config : ℕ → ℕ) where
  module _ (left i table d : ℕ) (disk : Disk) (m : Machine)
      (entry : read16 (u64 (table + 2 * i)) (ram m) ≡ d) where
    step-other :
        is_ahci config d ≡ false
        → search_loop config (suc left) i table disk m
          ≡ search_loop config left (i + 1) table disk m
    unfolding search_loop
    step-other other = rw (entry, search_loop) rw other refl

    step-full :
        is_ahci config d ≡ true
        → disk.disk_found_ahci_amount ≡ 4
        → search_loop config (suc left) i table disk m ≡ too_many m
    unfolding search_loop
    step-full is full = rw (entry, search_loop) rw is rw full refl

    step-add :
        is_ahci config d ≡ true
        → disk.disk_found_ahci_amount ≢ 4
        → search_loop config (suc left) i table disk m
          ≡ search_loop config left (i + 1) table (add_device d disk) m
    unfolding search_loop
    step-add is room =
        rw (entry, search_loop) rw is rw (ne→== disk.disk_found_ahci_amount 4 room) rw entry refl

  -- The loop of `disk_searchDisks` over a table in memory that holds `ds` from entry `i` on and does
  -- not pass the end of the address space, with at most 4 controllers entered before: if the AHCI
  -- controllers among `ds` make it at most 4 in all it enters them in order behind those that it has, and
  -- leaves the machine as it was; if they make it more it halts, at 5 too, for which the array of 5
  -- entries has room.
  pub search_loop-Searched :
      (ds : List ℕ) (i table : ℕ) (disk : Disk) (m : Machine)
      → Holds (table + 2 * i) ds (ram m)
      → table + 2 * (i + length ds) ≤ 2 ^ 64
      → disk.disk_found_ahci_amount ≤ 4
      → Searched disk (controllers config ds) m (search_loop config (length ds) i table disk m)
  unfolding search_loop controllers
  search_loop-Searched [] i table disk m h fits small = inl (
    omega arith,
    (
      disk,
      refl,
      record { amount = omega arith; old = λ j l. refl; new = λ k l. absurd (omega arith) },
    ),
  )
  search_loop-Searched (d ∷ ds) i table disk m h fits small =
      let step : u64 (table + 2 * i) ≡ table + 2 * i = omega arith in
      let entry = h.0 in
      let next : table + 2 * i + 2 ≡ table + 2 * (i + 1) = omega arith in
      let device : read16 (u64 (table + 2 * i)) (ram m) ≡ d = rw step entry in
      let more : Holds (table + 2 * (i + 1)) ds (ram m) =
        subst (λ (t : ℕ). Holds t ds (ram m)) next h.1 in
      elim (Bool-cases (is_ahci config d)) [
        | inl is ↦ elim (Bool-cases (disk.disk_found_ahci_amount == 4)) [
          | inl full ↦
              let stop = too_many-halted m in
              let four = ==→eq disk.disk_found_ahci_amount 4 full in
              rw is (
                inr (
                  omega (arith, four),
                  (stop.0, step-full (length ds) i table d disk m device is four ∙ stop.1),
                ))
          | inr room ↦
              let differs : disk.disk_found_ahci_amount ≢ 4 = ground arith in
              rw is (
                Searched-add disk d (controllers config ds) m (omega arith)
                  (step-add (length ds) i table d disk m device is differs)
                  (search_loop-Searched ds (i + 1) table (add_device d disk) m more (omega arith)
                    (unfold add_device in omega arith)))
        ]
        | inr other ↦
            rw other rw (step-other (length ds) i table d disk m device other)
              (search_loop-Searched ds (i + 1) table disk m more (omega arith) small)
      ]
