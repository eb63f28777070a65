-- ===== src/Ahci/Ports.antt =====
-- Which ports `ahci_port_rebase` visits, and the waits on a port.
use os_v.Base.{
  ℕ, zero, suc, ◌+◌, ◌*◌, ◌/◌, ◌^◌, ◌≤◌, ◌<◌, ◌≡◌, ◌≢◌, refl, ◌⊎◌, inl, inr, false, some, [], ◌∷◌,
  bit_and, bit_or, ◌==◌, ltb, arith, Bool-cases, ==→eq, ne→==, eq→==, u64, shl, shr,
}
use native.Mathlib.Nat.{one-le-pow, pow-le-pow_right, div-eq_of_lt}
use os_v.Base.Bits.{bit, double}
use os_v.Machine.{Machine, Run, Cmd, done, halted, out_of_fuel, ◌>>=◌, and_then}
use os_v.Ahci.Rebase.{
  AhciHba, stop_loop, start_loop, ahci_port_stop_cmd, ahci_port_start_cmd, rebase_port, rebase_loop,
  ahci_port_rebase, ahci_hba_port_cmd_fr, ahci_hba_port_cmd_cr,
}

-- Runs that go on alike end alike.
and_then_cong :
    {A B : Type 0} (r : Run A) (k k' : A → Cmd B)
    → ((a : A) (m : Machine) → k a m ≡ k' a m)
    → and_then r k ≡ and_then r k'
and_then_cong (done a m) k k' same = same a m
and_then_cong (halted m) k k' same = refl
and_then_cong out_of_fuel k k' same = refl

-- The bits that are left when the lowest one is gone.
still : (n impl : ℕ) → 2 ^ suc n ≤ 2 * impl → (2 ^ n ≤ 2 * (impl / 2)) ⊎ (n ≡ 0)
still zero impl h = inr refl
still (suc n) impl h = inl (omega (arith, h, double (suc n), double n))

module _ (mem_alloc : ℕ → ℕ → Cmd ℕ) (fuel walk junk : ℕ) (hba : AhciHba) where
  -- `n` ports from port `i` on, in their order.
  unfoldable pub visit_ports : ℕ → ℕ → ℕ → Cmd ℕ
  visit_ports zero i list = done list
  visit_ports (suc n) i list = do
    list' ← rebase_port mem_alloc fuel walk junk hba i list
    visit_ports n (i + 1) list'

  rebase_loop-visit_ports :
      (n left impl i list : ℕ) (m : Machine)
      → impl < 2 ^ n
      → 2 ^ n ≤ 2 * impl ⊎ (n ≡ 0)
      → n ≤ left
      → rebase_loop mem_alloc fuel walk junk left hba impl i list m ≡ visit_ports n i list m
  unfolding rebase_loop visit_ports
  rebase_loop-visit_ports zero zero impl i list m hi lo enough = refl
  rebase_loop-visit_ports zero (suc left) impl i list m hi lo enough =
      let z : impl ≡ 0 = omega arith in rw z refl
  rebase_loop-visit_ports (suc n) zero impl i list m hi lo enough = absurd (omega (arith, enough))
  rebase_loop-visit_ports (suc n) (suc left) impl i list m hi lo enough =
      let twice = double n in
      let one = one-le-pow n 2 (omega arith) in
      let top : 2 ^ suc n ≤ 2 * impl = omega (arith, lo) in
      let some_bit : impl ≢ 0 = λ is. omega (arith, top, is, twice, one) in
      rw (ne→== impl 0 some_bit, rebase_loop)
        (and_then_cong (rebase_port mem_alloc fuel walk junk hba i list m) _ _ (λ list' m'.
          rebase_loop-visit_ports n left (shr impl 1) (i + 1) list' m' (omega (arith, hi, twice))
            (still n impl top) (omega (arith, enough))))

  -- `ahci_port_rebase`, where bit `k` is the highest one of the ports that the controller implements:
  -- it visits the ports 0 to `k + 1` in their order, whichever of them are implemented, and so one port
  -- beyond the last that is.
  pub ahci_port_rebase-visit_ports :
      (k list : ℕ) (m : Machine)
      → k < 32
      → 2 ^ k ≤ hba.ports_implemented
      → hba.ports_implemented < 2 ^ (k + 1)
      → (ahci_port_rebase mem_alloc fuel walk junk hba list m ≡ visit_ports (k + 2) 0 list m)
        × (bit hba.ports_implemented (k + 1) ≡ 0)
  unfolding ahci_port_rebase
  ahci_port_rebase-visit_ports k list m l lo hi =
      let word : 2 ^ (k + 1) ≤ 2 ^ 32 = pow-le-pow_right (omega arith) {j = 32} (omega arith) in
      let small : hba.ports_implemented < 2 ^ 32 = omega (arith, hi, word) in
      let shifted : u64 (shl hba.ports_implemented 1) ≡ 2 * hba.ports_implemented = omega arith in
      let one_more : k + 1 ≡ suc k = omega arith in
      let two_more : k + 2 ≡ suc (suc k) = omega arith in
      let hi' : hba.ports_implemented < 2 ^ suc k = rw (← one_more) hi in
      let four = double (suc k) in
      let twice = double k in
      (
        rw shifted rw two_more (
            rebase_loop-visit_ports (suc (suc k)) 64 (2 * hba.ports_implemented) 0 list m
              (omega (arith, hi', four)) (inl (omega (arith, lo, four, twice))) (omega arith)),
        rw (div-eq_of_lt hi) refl,
      )

module _ (cmd : ℕ → ℕ) where
  -- A bit of `cmd` reads 0 from read `quiet` on.
  abbrev pub IsQuiet : ℕ → ℕ → Type 0
  IsQuiet mask quiet = (k : ℕ) → quiet ≤ k → bit_and (cmd k) mask ≡ 0

  module _ (quiet : ℕ) (fr : IsQuiet ahci_hba_port_cmd_fr quiet)
      (cr : IsQuiet ahci_hba_port_cmd_cr quiet) where
    -- A bit that does not read 0 is one of an early read.
    early : (mask k : ℕ) → IsQuiet mask quiet → (bit_and (cmd k) mask == 0) ≡ false → k < quiet
    early mask k h busy = elim (Bool-cases (ltb k quiet)) [
      | inl lt_ ↦ ground arith
      | inr late ↦ let is = h k (ground arith) in absurd (ground (arith, is))
    ]

    -- The wait for the stop ends before read `j + 2`.
    abbrev StopEnds : ℕ → ℕ → Type 0
    StopEnds fuel n =
        (j : ℕ) × (stop_loop cmd fuel n ≡ some (j + 2))
        × (bit_and (cmd j) ahci_hba_port_cmd_fr ≡ 0)
        × (bit_and (cmd (j + 1)) ahci_hba_port_cmd_cr ≡ 0)

    stop_round :
        (fuel n : ℕ)
        → ((k : ℕ) → 0 < k → n + k ≤ quiet → StopEnds fuel (n + k))
        → StopEnds (suc fuel) n
    unfolding stop_loop
    stop_round fuel n later = elim (Bool-cases (bit_and (cmd n) ahci_hba_port_cmd_fr == 0)) [
      | inl idle ↦ elim (Bool-cases (bit_and (cmd (n + 1)) ahci_hba_port_cmd_cr == 0)) [
        | inl rests ↦ (n, rw (idle, stop_loop) rw rests refl, ==→eq _ 0 idle, ==→eq _ 0 rests)
        | inr runs ↦
            let (j, run, idle_at, rests_at) =
              later 2 (omega arith) (omega (arith, early _ (n + 1) cr runs)) in
            (j, rw (idle, stop_loop) rw runs run, idle_at, rests_at)
      ]
      | inr busy ↦
          let (j, run, idle_at, rests_at) =
            later 1 (omega arith) (omega (arith, early _ n fr busy)) in
          (j, rw (busy, stop_loop) run, idle_at, rests_at)
    ]

    stop_ends : (fuel n : ℕ) → quiet ≤ n + fuel → StopEnds (suc fuel) n
    stop_ends zero n enough = stop_round 0 n (λ k pos le. absurd (omega (arith, enough, le)))
    stop_ends (suc fuel) n enough =
        stop_round (suc fuel) n (λ k pos le. stop_ends fuel (n + k) (omega (arith, enough, pos)))

    abbrev StartEnds : ℕ → ℕ → Type 0
    StartEnds fuel n =
        (j : ℕ) × (start_loop cmd fuel n ≡ some (j + 1))
        × (bit_and (cmd j) ahci_hba_port_cmd_cr ≡ 0)

    start_ends : (fuel n : ℕ) → quiet ≤ n + fuel → StartEnds (suc fuel) n
    unfolding start_loop
    start_ends zero n enough =
        let rests = cr n (omega (arith, enough)) in
        (n, rw (eq→== _ 0 rests, start_loop) refl, rests)
    start_ends (suc fuel) n enough = elim (Bool-cases (bit_and (cmd n) ahci_hba_port_cmd_cr == 0)) [
      | inl rests ↦ (n, rw (rests, start_loop) refl, ==→eq _ 0 rests)
      | inr runs ↦
          let (j, run, rest) = start_ends fuel (n + 1) (omega (arith, enough)) in
          (j, rw (runs, start_loop) run, rest)
    ]

  -- A port whose bits FR and CR read 0 from read `quiet` on, with fuel for these reads: from read `n` on
  -- `ahci_port_stop_cmd` returns, having cleared ST and FRE, and the last two reads found FR and then
  -- CR at 0; and `ahci_port_start_cmd` returns, having set FRE and then ST at once after a read that
  -- found CR at 0.
  pub ahci_port_stop_cmd-Returns :
      (quiet fuel n : ℕ)
      → IsQuiet ahci_hba_port_cmd_fr quiet
      → IsQuiet ahci_hba_port_cmd_cr quiet
      → quiet ≤ fuel
      → ((j : ℕ) × (ahci_port_stop_cmd cmd (suc fuel) n
            ≡ some (bit_and (cmd n) 0xFFFFFFFE ∷ bit_and (cmd (n + 1)) 0xFFFFFFEF ∷ [], j + 2))
          × (bit_and (cmd j) ahci_hba_port_cmd_fr ≡ 0)
          × (bit_and (cmd (j + 1)) ahci_hba_port_cmd_cr ≡ 0))
        × ((j : ℕ) × (ahci_port_start_cmd cmd (suc fuel) n
              ≡ some (bit_or (cmd (j + 1)) 0x10 ∷ bit_or (cmd (j + 2)) 1 ∷ [], j + 3))
            × (bit_and (cmd j) ahci_hba_port_cmd_cr ≡ 0))
  unfolding ahci_port_stop_cmd ahci_port_start_cmd
  ahci_port_stop_cmd-Returns quiet fuel n fr cr enough =
      let (j, run, idle_at, rests_at) =
        stop_ends quiet fr cr fuel (n + 2) (omega (arith, enough)) in
      let (j', run', last') = start_ends quiet fr cr fuel n (omega (arith, enough)) in
      let two : j' + 1 + 1 ≡ j' + 2 = omega arith in
      let three : j' + 1 + 2 ≡ j' + 3 = omega arith in
      (
        (j, rw (run, ahci_port_stop_cmd) refl, idle_at, rests_at),
        (j', rw (run', ahci_port_start_cmd) rw two rw three refl, last'),
      )
