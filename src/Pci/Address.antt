-- ===== src/Pci/Address.antt =====
-- The addresses of the configuration space.
use os_v.Base.{
  ℕ, zero, suc, ◌+◌, ◌*◌, ◌/◌, ◌%◌, ◌^◌, ◌<◌, ◌≡◌, arith, bit_and, bit_or, sym, ◌∙◌, ap,
}
use os_v.Base.Bits.{
  bit_or-fields, bit_and-field, bit_or-fields_low, bit_or-shifted, bit_or_comm, zero-bit_or,
  bit_or_step, double,
}
use os_v.Pci.{config_address}

config_address-fields :
    (bus slot func offset : ℕ)
    → bus < 256
    → slot < 32
    → func < 8
    → offset < 256
    → config_address bus slot func offset
      ≡ 2 ^ 31 + 2 ^ 16 * bus + 2 ^ 11 * slot + 2 ^ 8 * func + 4 * (offset / 4)
unfolding config_address
config_address-fields bus slot func offset hb hs hf ho =
    let one : bit_or (bus * 2 ^ 16) (slot * 2 ^ 11) ≡ (bus * 32 + slot) * 2 ^ 11 =
      bit_or-fields 16 bus (slot * 2 ^ 11) (omega arith) ∙ omega arith in
    let two : bit_or ((bus * 32 + slot) * 2 ^ 11) (func * 2 ^ 8)
        ≡ ((bus * 32 + slot) * 8 + func) * 2 ^ 8 =
      bit_or-fields 11 (bus * 32 + slot) (func * 2 ^ 8) (omega arith) ∙ omega arith in
    let mask : bit_and offset 0xFC ≡ offset / 4 * 4 = bit_and-field 6 2 offset ∙ omega arith in
    let three = bit_or-fields 8 ((bus * 32 + slot) * 8 + func) (offset / 4 * 4) (omega arith) in
    let four =
      bit_or-fields_low 31 1 (((bus * 32 + slot) * 8 + func) * 2 ^ 8 + offset / 4 * 4)
        (omega arith) in
    rw one rw two rw mask rw three (four ∙ omega arith)

-- A slot from 32 on reaches into the bits of the bus.
config_address-slot :
    (bus slot func offset : ℕ)
    → config_address bus slot func offset
      ≡ config_address (bit_or bus (slot / 32)) (slot % 32) func offset
unfolding config_address
config_address-slot bus slot func offset =
    let whole : slot * 2 ^ 11 ≡ slot / 32 * 2 ^ 16 + slot % 32 * 2 ^ 11 = omega arith in
    let left : bit_or (bus * 2 ^ 16) (slot * 2 ^ 11)
        ≡ bit_or bus (slot / 32) * 2 ^ 16 + slot % 32 * 2 ^ 11 =
      bit_or_comm (bus * 2 ^ 16) (slot * 2 ^ 11)
      ∙ ap (λ (t : ℕ). bit_or t (bus * 2 ^ 16)) whole
      ∙ bit_or-shifted 16 (slot / 32) bus (slot % 32 * 2 ^ 11) (omega arith)
      ∙ ap (λ (t : ℕ). t * 2 ^ 16 + slot % 32 * 2 ^ 11) (bit_or_comm (slot / 32) bus) in
    let right = bit_or-fields 16 (bit_or bus (slot / 32)) (slot % 32 * 2 ^ 11) (omega arith) in
    ap (λ (t : ℕ). bit_or (bit_or (bit_or t (func * 2 ^ 8)) (bit_and offset 0xFC)) 0x80000000)
      (left ∙ sym right)

bit_or-lt : (n a b : ℕ) → a < 2 ^ n → b < 2 ^ n → bit_or a b < 2 ^ n
bit_or-lt zero a b ha hb = ground (arith, zero-bit_or b)
bit_or-lt (suc n) a b ha hb = ground (
  arith,
  double n,
  bit_or_step a b,
  bit_or-lt n (a / 2) (b / 2) (omega (arith, double n)) (omega (arith, double n)),
)

-- The address of a register of one of the 256 slots that the code goes over: the register's word, the
-- function and the slot modulo 32 are fields of their own, and what the slot has above them goes
-- into the field of the bus.
pub config_address-parts :
    (bus slot func offset : ℕ)
    → bus < 256
    → slot < 256
    → func < 8
    → offset < 256
    → config_address bus slot func offset
      ≡ 2 ^ 31
        + 2 ^ 16 * bit_or bus (slot / 32)
        + 2 ^ 11 * (slot % 32)
        + 2 ^ 8 * func
        + 4 * (offset / 4)
config_address-parts bus slot func offset hb hs hf ho =
    config_address-slot bus slot func offset
    ∙ config_address-fields (bit_or bus (slot / 32)) (slot % 32) func offset
        (bit_or-lt 8 bus (slot / 32) hb (omega arith)) (omega arith) hf ho
