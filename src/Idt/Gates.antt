-- ===== src/Idt/Gates.antt =====
-- What the gates hold: the addresses that the processor and `print_idte` put together.
use os_v.Base.{
  ℕ, zero, suc, ◌+◌, ◌-◌, ◌*◌, ◌/◌, ◌%◌, ◌^◌, ◌≤◌, ◌<◌, ◌≡◌, ◌&&◌, arith, ltb, leb, if◌then◌else◌,
  u64, bit_or, int_index-eq, int_index_negative, Bool-cases, inl, inr, sym, ◌∙◌, ap,
}
use os_v.Base.Bits.{bit_or-fields_low, bit_or-shifted, bit_or-ones}
use os_v.Idt.{
  Idt64, Idt, gate, idt_set, idt_init_loop, idt_init, printed_address, idt_default_segsel,
  idt_default_flag,
}

-- The address at which the processor enters a gate.
abbrev pub entry_of : Idt64 → ℕ
entry_of e = e.offset_1 + 2 ^ 16 * e.offset_2 + 2 ^ 32 * e.offset_3

pub entry_of-gate :
    (offset seg_sel flags : ℕ) → offset < 2 ^ 64 → entry_of (gate offset seg_sel flags) ≡ offset
unfolding gate
entry_of-gate offset seg_sel flags h = omega arith

-- The loop sets the gates of its range.
idt_init_loop_lem :
    (left i isr : ℕ) (idt : Idt) (j : ℕ)
    → i + left ≤ 256
    → idt_init_loop left i isr idt j ≡ (
        if leb i j && ltb j (i + left) then gate isr idt_default_segsel idt_default_flag else idt j)
unfolding idt_init_loop idt_set
idt_init_loop_lem zero i isr idt j h = ground arith
idt_init_loop_lem (suc left) i isr idt j h =
    let ih = idt_init_loop_lem left (i + 1) isr (idt_set isr 8 i 0x8E idt) j (omega arith) in
    ih ∙ ground arith

-- After `idt_init` each of the 256 vectors of the processor enters the default handler, at its full
-- 64-bit address, and the rest of the table is as it was.
pub idt_init-entry_of :
    (isr address : ℕ) (idt : Idt) (j : ℕ)
    → isr < 2 ^ 64
    → (j < 256 → entry_of ((idt_init isr address idt).0 j) ≡ isr)
      × (256 ≤ j → (idt_init isr address idt).0 j ≡ idt j)
unfolding idt_init
idt_init-entry_of isr address idt j h =
    let all = idt_init_loop_lem 256 0 isr idt j (omega arith) in
    (λ lo. rw (all ∙ first j lo) (entry_of-gate isr 8 0x8E h), λ hi. all ∙ ground arith)
  where
    first :
        (j : ℕ)
        → j < 256
        → (if leb 0 j && ltb j 256 then gate isr 8 0x8E else idt j) ≡ gate isr 8 0x8E
    first j lo = ground arith

-- `print_idte` prints the address that `idt_set` was given, any number below 2 ^ 64, where its bit 31
-- is 0. Where that bit is 1, the upper half of the number that it prints is all ones.
pub printed_address-gate :
    (offset seg_sel flags : ℕ)
    → offset < 2 ^ 64
    → printed_address (gate offset seg_sel flags)
      ≡ (if ltb (offset % 2 ^ 32) (2 ^ 31) then offset else 2 ^ 64 - 2 ^ 32 + offset % 2 ^ 32)
unfolding printed_address gate
printed_address-gate offset seg_sel flags h =
    let low : bit_or (offset % 2 ^ 16) (offset / 2 ^ 16 % 2 ^ 32 % 2 ^ 16 * 2 ^ 16)
        ≡ offset % 2 ^ 32 =
      bit_or-fields_low 16 (offset / 2 ^ 16 % 2 ^ 32 % 2 ^ 16) (offset % 2 ^ 16) (omega arith)
      ∙ omega arith in
    let high : u64 (offset / 2 ^ 32 % 2 ^ 32 * 2 ^ 32) ≡ offset / 2 ^ 32 * 2 ^ 32 = omega arith in
    let split : offset ≡ offset / 2 ^ 32 * 2 ^ 32 + offset % 2 ^ 32 = omega arith in
    let ones : (2 ^ 32 - 1) * 2 ^ 32 + offset % 2 ^ 32 ≡ offset % 2 ^ 32 + (2 ^ 64 - 2 ^ 32) =
      omega arith in
    let signed =
      bit_or-shifted 32 (2 ^ 32 - 1) (offset / 2 ^ 32) (offset % 2 ^ 32) (omega arith)
      ∙ ap (λ (t : ℕ). t * 2 ^ 32 + offset % 2 ^ 32)
          (bit_or-ones 32 (offset / 2 ^ 32) (omega arith)) in
    let positive = bit_or-fields_low 32 (offset / 2 ^ 32) (offset % 2 ^ 32) (omega arith) in
    rw low rw high (elim (Bool-cases (ltb (offset % 2 ^ 32) (2 ^ 31))) [
      | inl small ↦
          let index = int_index-eq (offset % 2 ^ 32) (ground arith) in
          rw index rw small (positive ∙ sym split)
      | inr large ↦
          let index = int_index_negative (offset % 2 ^ 32) (omega arith) (ground arith) in
          rw index rw large rw (← ones) (signed ∙ omega arith)
    ])
