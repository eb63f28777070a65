-- ===== src/Ahci/Outcome.antt =====
-- How `ahci_port_read` ends, by what the registers of the port read as.
use os_v.Base.{
  ℕ, zero, suc, ◌+◌, ◌-◌, ◌^◌, ◌≤◌, ◌<◌, ◌≡◌, ◌≢◌, refl, inl, inr, Bool, true, false, Option, none,
  some, List, [], ◌∷◌, bit_and, ◌==◌, shl, arith, Bool-cases, ==→eq,
}
use os_v.Screen.Cursor.{IsOnScreen}
use os_v.Screen.Output.{accepts, after_number, after_command}
use os_v.Screen.Format.{width_of}
use os_v.Machine.{Machine, Run, done, halted, out_of_fuel}
use os_v.Ahci.ReadTexts.{
  header_text, table_text, fis_text, spin_text, hung_text, disk_error_text, wait_text, good_text,
}
use os_v.Ahci.Goes.{Goes, Goes-bind, Goes-then, Goes-print, Goes-ram, after}
use os_v.Ahci.Read.{
  PortReads, PortWrite, set_is, set_ci, setup_header, write_table, setup_table, setup_fis,
  setup_command, Waited, finished, disk_error, spin_ready, wait_done, issue, after_wait,
  wait_and_issue,
}

module _ (reads : PortReads) where
  -- The `k`-th read of `tfd` has the busy bit or the request bit.
  abbrev pub IsBusy : ℕ → Type 0
  IsBusy k = bit_and (reads.tfd k) 0x88 ≢ 0

  abbrev pub IsReady : ℕ → Type 0
  IsReady j = (j < 1000000) × (bit_and (reads.tfd j) 0x88 ≡ 0) × ((k : ℕ) → k < j → IsBusy k)

  module _ (slot : ℕ) where
    -- The `k`-th read of `ci` has the slot; and that of `is` no error.
    abbrev pub IsPending : ℕ → Type 0
    IsPending k = bit_and (reads.ci k) (shl 1 slot) ≢ 0

    abbrev pub IsFinished : ℕ → Type 0
    IsFinished k = bit_and (reads.ci k) (shl 1 slot) ≡ 0

    abbrev pub IsGoing : ℕ → Type 0
    IsGoing k = IsPending k × (bit_and (reads.is k) (shl 1 30) ≡ 0)

    abbrev pub IsFailed : ℕ → Type 0
    IsFailed k = IsPending k × (bit_and (reads.is k) (shl 1 30) ≢ 0)

    abbrev pub all_writes : List PortWrite
    all_writes = set_is (2 ^ 32 - 1) ∷ set_ci (shl 1 slot) ∷ []

    -- Of a command in a slot, with fuel for the polls.
    pub data CommandEnds (fuel : ℕ) : Run (List PortWrite × Bool) → Type 0 where
      hung :
          (m : Machine)
          → ((k : ℕ) → k < 1000000 → IsBusy k)
          → CommandEnds fuel (done (set_is (2 ^ 32 - 1) ∷ [], true) m)
      served :
          (j : ℕ) (m : Machine)
          → IsReady j
          → IsFinished 0
          → CommandEnds fuel (done (all_writes, false) m)
      failed :
          (j k : ℕ) (m : Machine)
          → IsReady j
          → k < fuel
          → ((i : ℕ) → i < k → IsGoing i)
          → IsFailed k
          → CommandEnds fuel (done (all_writes, true) m)
      stuck :
          (j k : ℕ) (m : Machine)
          → IsReady j
          → 0 < k
          → k < fuel
          → ((i : ℕ) → i < k → IsGoing i)
          → IsFinished k
          → CommandEnds fuel (halted m)
      waiting :
          (j : ℕ) → IsReady j → ((i : ℕ) → i < fuel → IsGoing i) → CommandEnds fuel out_of_fuel

    -- Of the second loop.
    abbrev WaitEnds : ℕ → ℕ → Option Waited → Type 0
    WaitEnds spin fuel none = (i : ℕ) → spin ≤ i → i < spin + fuel → IsGoing i
    WaitEnds spin fuel (some disk_error) =
        (k : ℕ) × (spin ≤ k)
        × (k < spin + fuel)
        × ((i : ℕ) → spin ≤ i → i < k → IsGoing i)
        × IsFailed k
    WaitEnds spin fuel (some (finished k)) =
        (spin ≤ k) × (k < spin + fuel) × ((i : ℕ) → spin ≤ i → i < k → IsGoing i) × IsFinished k

    from_here :
        (spin k : ℕ)
        → IsGoing spin
        → ((i : ℕ) → spin + 1 ≤ i → i < k → IsGoing i)
        → (i : ℕ) → spin ≤ i
        → i < k
        → IsGoing i
    from_here spin k here later i lo hi = elim (Bool-cases (i == spin)) [
      | inl is ↦ let e = ==→eq i spin is in rw e here
      | inr not_ ↦ later i (ground arith) hi
    ]

    WaitEnds-suc :
        (spin fuel : ℕ) (o : Option Waited)
        → IsGoing spin
        → WaitEnds (spin + 1) fuel o
        → WaitEnds spin (suc fuel) o
    WaitEnds-suc spin fuel none here h =
        from_here spin (spin + suc fuel) here (λ i lo hi. h i lo (omega arith))
    WaitEnds-suc spin fuel (some disk_error) here (k, lo, hi, going, bad) =
        (k, omega arith, omega arith, from_here spin k here going, bad)
    WaitEnds-suc spin fuel (some (finished k)) here (lo, hi, going, end) =
        (omega arith, omega arith, from_here spin k here going, end)

    wait_done-WaitEnds : (fuel spin : ℕ) → WaitEnds spin fuel (wait_done reads fuel slot spin)
    unfolding wait_done
    wait_done-WaitEnds zero spin = λ i lo hi. absurd (omega arith)
    wait_done-WaitEnds (suc fuel) spin =
        elim (Bool-cases (bit_and (reads.ci spin) (shl 1 slot) == 0)) [
          | inl end ↦
              rw (end, wait_done)
                (omega arith, omega arith, λ i lo hi. absurd (omega arith), ==→eq _ 0 end)
          | inr pending ↦ elim (Bool-cases (bit_and (reads.is spin) (shl 1 30) == 0)) [
            | inl fine ↦
                rw (pending, wait_done) rw fine
                  (WaitEnds-suc spin fuel (wait_done reads fuel slot (spin + 1))
                    (ground arith, ==→eq _ 0 fine) (wait_done-WaitEnds fuel (spin + 1)))
            | inr bad ↦
                rw (pending, wait_done) rw bad
                  (
                    spin,
                    omega arith,
                    omega arith,
                    λ i lo hi. absurd (omega arith),
                    (ground arith, ground arith),
                  )
          ]
        ]

  -- Of the first loop.
  abbrev SpinEnds : ℕ → ℕ → ℕ → Type 0
  SpinEnds left spin j =
      (spin ≤ j)
      × (j ≤ spin + left)
      × ((k : ℕ) → spin ≤ k → k < j → IsBusy k)
      × (j < spin + left → bit_and (reads.tfd j) 0x88 ≡ 0)

  spin_ready-SpinEnds : (left spin : ℕ) → SpinEnds left spin (spin_ready reads left spin)
  unfolding spin_ready
  spin_ready-SpinEnds zero spin =
      (omega arith, omega arith, λ k lo hi. absurd (omega arith), λ l. absurd (omega arith))
  spin_ready-SpinEnds (suc left) spin = elim (Bool-cases (bit_and (reads.tfd spin) 0x88 == 0)) [
    | inl ready ↦
        rw (ready, spin_ready)
          (omega arith, omega arith, λ k lo hi. absurd (omega arith), λ l. ==→eq _ 0 ready)
    | inr busy ↦
        let rest = spin_ready-SpinEnds left (spin + 1) in
        rw (busy, spin_ready)
          (
            omega (arith, rest.0),
            omega (arith, rest.1),
            busy_from busy rest.2,
            λ l. rest.3 (omega arith),
          )
  ]
    where
      busy_from :
          {j : ℕ}
          → (bit_and (reads.tfd spin) 0x88 == 0) ≡ false
          → ((k : ℕ) → spin + 1 ≤ k → k < j → IsBusy k)
          → (k : ℕ) → spin ≤ k
          → k < j
          → IsBusy k
      busy_from {j} busy h k lo hi = elim (Bool-cases (k == spin)) [
        | inl is ↦ let e = ==→eq k spin is in rw e (ground arith)
        | inr not_ ↦ h k (ground arith) hi
      ]

module _ (addr_list slot start count buf : ℕ) where
  setup_header-Goes : (cmdheader : ℕ) → Goes (setup_header addr_list slot start count buf cmdheader)
  unfolding setup_header accepts after_number after_command width_of
  setup_header-Goes cmdheader = Goes-then (Goes-print header_text _ refl) (Goes-ram _)

  write_table-Goes :
      (cmdheader cmdtbl : ℕ) → Goes (write_table addr_list slot start count buf cmdheader cmdtbl)
  unfolding write_table
  write_table-Goes cmdheader cmdtbl m on =
      (_, _, refl, record { column = on.column; line = on.line })

  setup_table-Goes :
      (cmdheader cmdtbl : ℕ) → Goes (setup_table addr_list slot start count buf cmdheader cmdtbl)
  unfolding setup_table accepts after_number after_command width_of
  setup_table-Goes cmdheader cmdtbl =
      Goes-then (Goes-print table_text _ refl)
        (Goes-then (Goes-ram _) (write_table-Goes cmdheader cmdtbl))

  setup_fis-Goes : (cmdfis rest : ℕ) → Goes (setup_fis addr_list slot start count buf cmdfis rest)
  unfolding setup_fis accepts after_number after_command width_of
  setup_fis-Goes cmdfis rest =
      Goes-then (Goes-ram _) (Goes-then (Goes-print fis_text _ refl) (Goes-ram _))

  pub setup_command-Goes : Goes (setup_command addr_list slot start count buf)
  unfolding setup_command
  setup_command-Goes m =
      Goes-then (setup_header-Goes _)
        (Goes-bind (setup_table-Goes _ _) (λ rest m'. setup_fis-Goes _ rest m')) m

module _ (reads : PortReads) (fuel slot : ℕ) where
  issue-CommandEnds :
      (j : ℕ) (m : Machine)
      → IsReady reads j
      → IsOnScreen m.screen
      → CommandEnds reads slot fuel (issue reads fuel slot m)
  unfolding issue accepts after_number after_command width_of
  issue-CommandEnds j m ready on =
      ends_with (wait_done reads fuel slot 0) refl (wait_done-WaitEnds reads slot fuel 0)
    where
      ends_with :
          (o : Option Waited)
          → wait_done reads fuel slot 0 ≡ o
          → WaitEnds reads slot 0 fuel o
          → CommandEnds reads slot fuel (issue reads fuel slot m)
      ends_with none e going =
          rw (e, issue) (waiting j ready (λ i l. going i (omega arith) (omega arith)))
      ends_with (some disk_error) e (k, lo, hi, going, bad) =
          rw (e, issue)
            (after (CommandEnds reads slot fuel) m (Goes-print disk_error_text _ refl) on (λ m' on'.
              failed j k m' ready (omega (arith, hi)) (λ i l. going i (omega arith) (omega arith))
                bad))
      ends_with (some (finished zero)) e (lo, hi, going, end) =
          rw (e, issue)
            (after (CommandEnds reads slot fuel) m (Goes-print wait_text _ refl) on (λ m' on'.
              after (CommandEnds reads slot fuel) m' (Goes-print good_text _ refl) on'
                (λ m'' on''. served j m'' ready end)))
      ends_with (some (finished (suc k))) e (lo, hi, going, end) =
          rw (e, issue)
            (stuck j (suc k) m ready (omega arith) (omega (arith, hi))
              (λ i l. going i (omega arith) (omega arith)) end)

  module _ (m : Machine) (on : IsOnScreen m.screen) where
    after_spin :
        (j : ℕ)
        → SpinEnds reads 1000000 0 j
        → CommandEnds reads slot fuel (after_wait reads fuel slot j m)
    unfolding after_wait accepts after_number after_command width_of
    after_spin j (lo, hi, busy, ready) = elim (Bool-cases (j == 1000000)) [
      | inl is ↦
          let e = ==→eq j 1000000 is in
          rw (is, after_wait)
            (after (CommandEnds reads slot fuel) m (Goes-print hung_text _ refl) on
              (λ m' on'. hung m' (λ k l. busy k (omega arith) (omega (arith, e, l)))))
      | inr not_ ↦
          let below : j < 1000000 = ground (arith, hi, not_) in
          rw (not_, after_wait)
            (issue-CommandEnds j m
              (below, ready (omega (arith, below)), λ k l. busy k (omega arith) l) on)
    ]

  pub wait_and_issue-CommandEnds :
      (m : Machine)
      → IsOnScreen m.screen
      → CommandEnds reads slot fuel (wait_and_issue reads fuel slot m)
  unfolding wait_and_issue accepts after_number after_command width_of
  wait_and_issue-CommandEnds m on =
      after (CommandEnds reads slot fuel) m (Goes-print spin_text _ refl) on (λ m' on'.
        after_spin m' on' (spin_ready reads 1000000 0) (spin_ready-SpinEnds reads 1000000 0))
