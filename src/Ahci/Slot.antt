-- ===== src/Ahci/Slot.antt =====
-- The search for a free command slot.
use os_v.Base.{
  ℕ, zero, suc, ◌+◌, ◌-◌, ◌%◌, ◌≤◌, ◌<◌, ◌≡◌, inl, inr, Option, none, some, arith, ◌==◌, Bool-cases,
  ==→eq, shr, bit_and, bit_or, sym, ◌∙◌, ap,
}
use os_v.Base.Bits.{bit, bit-half, bit_and-low}
use os_v.Ahci.{AhciHbaPort, find_cmdslot_loop, find_cmdslot}

-- The first of `left` bits of `slots` that is 0, with its number counted from `i` on.
abbrev pub FirstFree : ℕ → ℕ → ℕ → Option ℕ → Type 0
FirstFree left i slots none = (j : ℕ) → j < left → bit slots j ≡ 1
FirstFree left i slots (some k) =
    (i ≤ k) × (k < i + left) × (bit slots (k - i) ≡ 0) × ((j : ℕ) → i + j < k → bit slots j ≡ 1)

low_bit : (slots : ℕ) → bit_and slots 1 ≡ slots % 2
low_bit slots = bit_and-low 1 slots

FirstFree-shift :
    (left i slots : ℕ) (out : Option ℕ)
    → slots % 2 ≡ 1
    → FirstFree left (i + 1) (shr slots 1) out
    → FirstFree (suc left) i slots out
FirstFree-shift left i slots none odd h = below
  where
    below : (j : ℕ) → j < suc left → bit slots j ≡ 1
    below zero l = omega (arith, odd)
    below (suc j) l = sym (bit-half slots j) ∙ h j (omega arith)
FirstFree-shift left i slots (some k) odd h =
    (omega (arith, h.0), omega (arith, h.1), zero_bit, below)
  where
    zero_bit : bit slots (k - i) ≡ 0
    zero_bit =
        let le = h.0 in
        let is : suc (k - (i + 1)) ≡ k - i = omega arith in
        ap (λ (t : ℕ). bit slots t) (sym is) ∙ sym (bit-half slots (k - (i + 1))) ∙ h.2

    below : (j : ℕ) → i + j < k → bit slots j ≡ 1
    below zero l = omega (arith, odd)
    below (suc j) l = sym (bit-half slots j) ∙ h.3 j (omega arith)

find_cmdslot_loop-FirstFree :
    (left i slots : ℕ) → FirstFree left i slots (find_cmdslot_loop left i slots)
unfolding find_cmdslot_loop
find_cmdslot_loop-FirstFree zero i slots = λ j l. absurd (omega arith)
find_cmdslot_loop-FirstFree (suc left) i slots = elim (Bool-cases (bit_and slots 1 == 0)) [
  | inl free ↦
      let even = ==→eq (bit_and slots 1) 0 free in
      let is : i - i ≡ 0 = omega arith in
      rw free (
        omega arith,
        omega arith,
        rw is omega (arith, even, low_bit slots),
        λ j l. absurd (omega arith),
      )
  | inr taken ↦
      let odd : slots % 2 ≡ 1 = ground (arith, low_bit slots) in
      rw taken (
        FirstFree-shift left i slots (find_cmdslot_loop left (i + 1) (shr slots 1)) odd
          (find_cmdslot_loop-FirstFree left (i + 1) (shr slots 1)))
]

-- `find_cmdslot` returns the lowest of the 32 slots that neither SACT nor CI has taken, and -1 where
-- every slot is taken.
pub find_cmdslot-FirstFree :
    (port : AhciHbaPort) → FirstFree 32 0 (bit_or port.sata_active port.ci) (find_cmdslot port)
unfolding find_cmdslot
find_cmdslot-FirstFree port = find_cmdslot_loop-FirstFree 32 0 (bit_or port.sata_active port.ci)
