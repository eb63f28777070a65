-- ===== src/Paging/Entry.antt =====
-- The page-table entries that the `page_construct_` functions store, field by field.
use os_v.Base.{
  ℕ, ◌+◌, ◌-◌, ◌*◌, ◌/◌, ◌%◌, ◌^◌, ◌≤◌, ◌<◌, ◌≡◌, arith, bit_and, bit_or, u64, shl, ap, sym, ◌∙◌,
}
use native.Mathlib.Nat.{
  mod-mod, mod-lt, add-mul-mod_self_right, one-le-pow, add_comm, zero-add, add-mul-div_right,
  div-eq_of_lt,
}
use os_v.Base.Bits.{bit_or_step, bit_or-zero, zero-bit_or, bit_or-fields_low, bit_and-low}
use os_v.Paging.{construct_pml4_e, construct_pdpt_e, construct_pd_e, construct_pt_e}
use os_v.Paging.Filter.{filter_of, bit_and-filter, two_pow_split, two_pow_mono}

bit_or-one : (a : ℕ) → bit_or a 1 ≡ a / 2 * 2 + 1
bit_or-one a = omega (arith, bit_or_step a 1, bit_or-zero (a / 2))

-- An entry as its reader takes it apart: the present bit, the flags, the masked address and the
-- protection field from bit `k` on.
pub record IsEntry (entry filter flags addr prot k : ℕ) : Type 0 where
  pub present : bit_and entry 1 ≡ 1
  pub low : entry % 2 ^ 12 ≡ flags
  pub address : bit_and entry filter ≡ bit_and addr filter
  pub protection : entry / 2 ^ k ≡ prot
  pub word : entry < 2 ^ 64

-- Flags below bit 12, an address of `n` bits above them, and a protection field from bit `k` on.
module _ (n k : ℕ) (fits : n + 12 ≤ k) where
  page_number : ℕ → ℕ
  page_number addr = addr / 2 ^ 12 % 2 ^ n

  sum_small : (low addr : ℕ) → low < 2 ^ 12 → page_number addr * 2 ^ 12 + low < 2 ^ k
  unfolding page_number
  sum_small low addr h = omega (
    arith,
    mod-lt (addr / 2 ^ 12) (one-le-pow n 2 (omega arith)),
    two_pow_split 12 k (omega arith),
    two_pow_mono n (k - 12) (omega arith),
  )

  -- The three parts have no bit in common.
  parts_as_sum :
      (low addr prot : ℕ)
      → low < 2 ^ 12
      → bit_or (bit_or (bit_or 0 low) (bit_and addr (filter_of n))) (prot * 2 ^ k)
        ≡ prot * 2 ^ k + (page_number addr * 2 ^ 12 + low)
  unfolding page_number
  parts_as_sum low addr prot h =
      rw (zero-bit_or low, bit_and-filter n addr, bit_or-fields_low 12 (page_number addr) low h)
        (bit_or-fields_low k prot (page_number addr * 2 ^ 12 + low) (sum_small low addr h))

  -- Masking the sum gives the address back.
  address_of_sum :
      (low addr prot : ℕ)
      → low < 2 ^ 12
      → bit_and (prot * 2 ^ k + (page_number addr * 2 ^ 12 + low)) (filter_of n)
        ≡ bit_and addr (filter_of n)
  unfolding page_number
  address_of_sum low addr prot h =
      let q : ℕ = 2 ^ (k - 12) in
      let r : ℕ = 2 ^ (k - 12 - n) in
      let a : ℕ = page_number addr in
      let whole : prot * 2 ^ k ≡ 4096 * (prot * q) =
        omega (arith, ap (λ (t : ℕ). prot * t) (two_pow_split 12 k (omega arith))) in
      let shifted : (prot * 2 ^ k + (a * 2 ^ 12 + low)) / 2 ^ 12 ≡ a + prot * r * 2 ^ n =
        omega (arith, whole, ap (λ (t : ℕ). prot * t) (two_pow_split n (k - 12) (omega arith))) in
      let kept : (a + prot * r * 2 ^ n) % 2 ^ n ≡ a =
        add-mul-mod_self_right a (prot * r) (2 ^ n) ∙ mod-mod (addr / 2 ^ 12) (2 ^ n) in
      bit_and-filter n (prot * 2 ^ k + (a * 2 ^ 12 + low))
      ∙ ap (λ (t : ℕ). t % 2 ^ n * 2 ^ 12) shifted
      ∙ ap (λ (t : ℕ). t * 2 ^ 12) kept
      ∙ sym (bit_and-filter n addr)

  IsEntry-sum :
      (low addr prot : ℕ)
      → low < 2 ^ 12
      → low % 2 ≡ 1
      → prot * 2 ^ k + 2 ^ k ≤ 2 ^ 64
      → IsEntry
          (bit_or (bit_or (bit_or 0 low) (bit_and addr (filter_of n))) (prot * 2 ^ k))
          (filter_of n)
          low
          addr
          prot
          k
  IsEntry-sum low addr prot h odd room =
      let small = sum_small low addr h in
      let e : ℕ = prot * 2 ^ k + (page_number addr * 2 ^ 12 + low) in
      let whole : prot * 2 ^ k ≡ 4096 * (prot * 2 ^ (k - 12)) =
        omega (arith, ap (λ (t : ℕ). prot * t) (two_pow_split 12 k (omega arith))) in
      rw (parts_as_sum low addr prot h) (record {
        present = omega (arith, bit_and-low 1 e, whole);
        low = omega (arith, whole);
        address = address_of_sum low addr prot h;
        protection =
            ap (λ (t : ℕ). t / 2 ^ k) (add_comm (prot * 2 ^ k) (page_number addr * 2 ^ 12 + low))
            ∙ add-mul-div_right (page_number addr * 2 ^ 12 + low) prot
                (one-le-pow k 2 (omega arith))
            ∙ ap (λ (t : ℕ). t + prot) (div-eq_of_lt small)
            ∙ zero-add prot;
        word = omega (arith, small);
      })

module _ (n flags addr prot : ℕ) (byte : flags < 256) where
  upper-IsEntry :
      n ≤ 51
      → IsEntry
          (bit_or
            (bit_or (bit_or 0 (bit_or flags 1)) (bit_and addr (filter_of n)))
            (u64 (shl (bit_and prot 1) 63)))
          (filter_of n)
          (bit_or flags 1)
          addr
          (prot % 2)
          63
  upper-IsEntry h =
      let field : u64 (shl (bit_and prot 1) 63) ≡ prot % 2 * 2 ^ 63 =
        omega (arith, bit_and-low 1 prot) in
      rw field (
        IsEntry-sum n 63 (omega arith) (bit_or flags 1) addr (prot % 2)
          (omega (arith, bit_or-one flags)) (omega (arith, bit_or-one flags)) (omega arith))

-- The entries of the three upper tables carry the flags with the present bit set, the address under
-- the filter and, in bit 63, the lowest bit of `prot` on a processor with up to
-- 51 address bits.
pub construct_table-IsEntry :
    (n flags addr prot : ℕ)
    → flags < 256
    → n ≤ 51
    → IsEntry
        (construct_pml4_e (filter_of n) flags addr prot)
        (filter_of n)
        (bit_or flags 1)
        addr
        (prot % 2)
        63
      × IsEntry
          (construct_pdpt_e (filter_of n) flags addr prot)
          (filter_of n)
          (bit_or flags 1)
          addr
          (prot % 2)
          63
      × IsEntry
          (construct_pd_e (filter_of n) flags addr prot)
          (filter_of n)
          (bit_or flags 1)
          addr
          (prot % 2)
          63
unfolding construct_pml4_e construct_pdpt_e construct_pd_e
construct_table-IsEntry n flags addr prot byte h =
    let e = upper-IsEntry n flags addr prot byte h in (e, e, e)

-- The entry of a page carries the present bit below the flags, the address under the filter and,
-- from bit 59 on, the five low bits of `prot` on a processor with up to 47
-- address bits.
pub construct_pt_e-IsEntry :
    (n flags addr prot : ℕ)
    → flags < 256
    → n ≤ 47
    → IsEntry
        (construct_pt_e (filter_of n) flags addr prot)
        (filter_of n)
        (2 * flags + 1)
        addr
        (prot % 32)
        59
unfolding construct_pt_e
construct_pt_e-IsEntry n flags addr prot byte h =
    let field : u64 (shl (bit_and prot 0x1F) 59) ≡ prot % 32 * 2 ^ 59 =
      omega (arith, bit_and-low 5 prot) in
    let low : bit_or (shl flags 1) 1 ≡ 2 * flags + 1 = omega (arith, bit_or-one (shl flags 1)) in
    rw (field, low)
      (IsEntry-sum n 59 (omega arith) (2 * flags + 1) addr (prot % 32) (omega arith) (omega arith)
        (omega arith))
