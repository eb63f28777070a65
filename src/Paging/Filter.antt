-- ===== src/Paging/Filter.antt =====
-- `page_map_filter` and the masks of the levels, as arithmetic.
use os_v.Base.{ℕ, zero, suc, ◌+◌, ◌-◌, ◌*◌, ◌/◌, ◌%◌, ◌^◌, ◌≤◌, ◌≡◌, arith, bit_and, ap, ◌∙◌}
use native.Mathlib.Nat.{pow-suc, one-le-pow}
use os_v.Base.Bits.{bit_and-field}
use os_v.Paging.{page_map_init}

pub two_pow_add : (a b : ℕ) → 2 ^ (a + b) ≡ 2 ^ a * 2 ^ b
two_pow_add zero b = let e : 0 + b ≡ b = omega arith in rw e (omega arith)
two_pow_add (suc a) b =
    let e : suc a + b ≡ suc (a + b) = omega arith in
    rw e
      (omega (arith, pow-suc 2 (a + b), ap (λ (t : ℕ). t * 2 ^ b) (pow-suc 2 a), two_pow_add a b))

-- The filter for a processor with `n` address bits: ones from bit 12 to bit n + 11.
abbrev pub filter_of : ℕ → ℕ
filter_of n = (2 ^ n - 1) * 2 ^ 12

pub two_pow_split : (n k : ℕ) → n ≤ k → 2 ^ k ≡ 2 ^ n * 2 ^ (k - n)
two_pow_split n k h =
    let e : k ≡ n + (k - n) = omega arith in ap (λ (t : ℕ). 2 ^ t) e ∙ two_pow_add n (k - n)

pub two_pow_mono : (n k : ℕ) → n ≤ k → 2 ^ n ≤ 2 ^ k
two_pow_mono n k h = grind (arith, two_pow_split n k h, one-le-pow (k - n) 2 (omega arith))

page_map_init-filter :
    (rax cr3 s5 s4 s3 s2 : ℕ)
    → rax % 256 ≤ 52
    → (page_map_init rax cr3 s5 s4 s3 s2).page_map_filter ≡ filter_of (rax % 256)
unfolding page_map_init
page_map_init-filter rax cr3 s5 s4 s3 s2 h =
    omega (arith, two_pow_mono (rax % 256) 52 h, one-le-pow (rax % 256) 2 (omega arith))

pub bit_and-filter : (n a : ℕ) → bit_and a (filter_of n) ≡ a / 2 ^ 12 % 2 ^ n * 2 ^ 12
bit_and-filter n a = bit_and-field n 12 a

-- Where the processor reports `n` physical address bits, at most 52, an address or an entry masked with
-- the filter that `page_map_init` makes keeps `n` bits from bit 12 on, up to bit `n + 11`, and nothing
-- else: 12 bits more than the address has.
pub page_map_init-field :
    (a rax cr3 s5 s4 s3 s2 : ℕ)
    → rax % 256 ≤ 52
    → bit_and a ((page_map_init rax cr3 s5 s4 s3 s2).page_map_filter)
      ≡ a / 2 ^ 12 % 2 ^ (rax % 256) * 2 ^ 12
page_map_init-field a rax cr3 s5 s4 s3 s2 h =
    ap (bit_and a) (page_map_init-filter rax cr3 s5 s4 s3 s2 h) ∙ bit_and-filter (rax % 256) a
