-- ===== src/Base/Bits.antt =====
-- The laws of `&`, `|` and `^` that the kernel's masks need, over numbers of any width, and the
-- single bits of a byte.
use Prim.Native.Nat.{
  ℕ, zero, suc, ◌+◌, ◌-◌, ◌*◌, ◌/◌, ◌%◌, ◌^◌, ◌≤◌, ◌<◌, min, max, bit_and, bit_or, bit_xor, digits,
  bit_and-bitwise, bit_or-bitwise,
}
use mathlib.Core.Path.{◌≡◌, refl, ap, ◌∙◌}
use mathlib.Core.Bool.{Bool, true, ◌&&◌}
use native.Mathlib.Nat.{
  pow-suc, one-le-pow, div-div-eq-div-mul, div-add-mod, mod-lt, mul-add-mod_self_left, mod-eq_of_lt,
  mul-le-mul_left,
}
use native.Mathlib.Omega.{arith}
use os_v.Base.Tests.{◌==◌, ==→eq, if◌then◌else◌}

-- The native operations are recursions on binary digits, with the first number as fuel. More fuel
-- than the number changes nothing.
module _ (end : ℕ → ℕ) (digit : ℕ → ℕ → ℕ) where
  digits_enough : (f g a b : ℕ) → a ≤ f → a ≤ g → digits end digit f a b ≡ digits end digit g a b
  digits_enough f g zero b p q = both f g
    where
      both : (f g : ℕ) → digits end digit f 0 b ≡ digits end digit g 0 b
      both zero zero = refl
      both zero (suc g) = refl
      both (suc f) zero = refl
      both (suc f) (suc g) = refl
  digits_enough zero g (suc a) b p q = absurd (omega arith)
  digits_enough (suc f) zero (suc a) b p q = absurd (omega arith)
  digits_enough (suc f) (suc g) (suc a) b p q =
      ap (λ (t : ℕ). t * 2 + digit (suc a % 2) (b % 2))
        (digits_enough f g (suc a / 2) (b / 2) (omega arith) (omega arith))

-- One binary digit at a time.
pub bit_and_step : (a b : ℕ) → bit_and a b ≡ 2 * bit_and (a / 2) (b / 2) + min (a % 2) (b % 2)
bit_and_step zero b = omega (arith, bit_and-bitwise 0 b, bit_and-bitwise 0 (b / 2))
bit_and_step (suc a) b = omega (
  arith,
  bit_and-bitwise (suc a) b,
  bit_and-bitwise (suc a / 2) (b / 2),
  digits_enough (λ y. 0) min a (suc a / 2) (suc a / 2) (b / 2) (omega arith) (omega arith),
)

pub bit_or_step : (a b : ℕ) → bit_or a b ≡ 2 * bit_or (a / 2) (b / 2) + max (a % 2) (b % 2)
bit_or_step zero b = omega (arith, bit_or-bitwise 0 b, bit_or-bitwise 0 (b / 2))
bit_or_step (suc a) b = omega (
  arith,
  bit_or-bitwise (suc a) b,
  bit_or-bitwise (suc a / 2) (b / 2),
  digits_enough (λ y. y) max a (suc a / 2) (suc a / 2) (b / 2) (omega arith) (omega arith),
)

-- Numbers below `2 ^ n` have `n` digits, so a law for digits is proved by recursion on `n`.
pub double : (n : ℕ) → 2 ^ suc n ≡ 2 * 2 ^ n
double n = omega (arith, pow-suc 2 n)

below : (a : ℕ) → a < 2 ^ a
below zero = omega arith
below (suc a) = omega (arith, below a, double a)

and_nothing : (n a : ℕ) → a < 2 ^ n → bit_and a 0 ≡ 0
and_nothing zero a h = let e : a ≡ 0 = omega arith in rw e refl
and_nothing (suc n) a h =
    omega (arith, bit_and_step a 0, and_nothing n (a / 2) (omega (arith, double n)))

or_nothing : (n a : ℕ) → a < 2 ^ n → bit_or a 0 ≡ a
or_nothing zero a h = let e : a ≡ 0 = omega arith in rw e refl
or_nothing (suc n) a h =
    omega (arith, bit_or_step a 0, or_nothing n (a / 2) (omega (arith, double n)))

pub bit_and-zero : (a : ℕ) → bit_and a 0 ≡ 0
bit_and-zero a = and_nothing a a (below a)

pub bit_or-zero : (a : ℕ) → bit_or a 0 ≡ a
bit_or-zero a = or_nothing a a (below a)

pub zero-bit_or : (a : ℕ) → bit_or 0 a ≡ a
zero-bit_or a = omega (arith, bit_or-bitwise 0 a)

-- The remainder by a product, one digit to the base `d` at a time.
pub mod_digit : (d a p : ℕ) → 0 < d → 0 < p → a % (d * p) ≡ d * (a / d % p) + a % d
mod_digit d a p hd hp =
    let rest : ℕ = d * (a / d % p) + a % d in
    let split : a ≡ d * p * (a / d / p) + rest =
      omega (arith, div-add-mod a d, ap (λ (t : ℕ). d * t) (div-add-mod (a / d) p)) in
    let small : rest < d * p = omega (arith, mod-lt a hd, mul-le-mul_left d (mod-lt (a / d) hp)) in
    ap (λ (t : ℕ). t % (d * p)) split
    ∙ mul-add-mod_self_left (d * p) (a / d / p) rest
    ∙ mod-eq_of_lt small

-- `a & (2 ^ k - 1)` keeps the low `k` bits.
pub bit_and-low : (k a : ℕ) → bit_and a (2 ^ k - 1) ≡ a % 2 ^ k
bit_and-low zero a = omega (arith, bit_and-zero a)
bit_and-low (suc k) a = rw (double k) (
    ground (
      arith,
      one-le-pow k 2 (omega arith),
      mod_digit 2 a (2 ^ k) (omega arith) (one-le-pow k 2 (omega arith)),
      bit_and_step a (2 * 2 ^ k - 1),
      bit_and-low k (a / 2),
    ))

div_double : (a k : ℕ) → a / 2 / 2 ^ k ≡ a / 2 ^ suc k
div_double a k = rw (double k) (div-div-eq-div-mul a 2 (2 ^ k))

times_double : (m k : ℕ) → m * 2 ^ suc k ≡ 2 * (m * 2 ^ k)
times_double m k = omega (arith, ap (λ (t : ℕ). m * t) (double k))

-- A mask that is shifted left sees the number shifted right.
pub bit_and-shl : (k a m : ℕ) → bit_and a (m * 2 ^ k) ≡ bit_and (a / 2 ^ k) m * 2 ^ k
bit_and-shl zero a m = ground arith
bit_and-shl (suc k) a m = rw (times_double m k) (
    ground (
      arith,
      bit_and_step a (2 * (m * 2 ^ k)),
      bit_and-shl k (a / 2) m,
      div_double a k,
      times_double (bit_and (a / 2 ^ suc k) m) k,
    ))

-- The mask of `n` ones above `k` zeros.
pub bit_and-field : (n k a : ℕ) → bit_and a ((2 ^ n - 1) * 2 ^ k) ≡ a / 2 ^ k % 2 ^ n * 2 ^ k
bit_and-field n k a =
    bit_and-shl k a (2 ^ n - 1) ∙ ap (λ (t : ℕ). t * 2 ^ k) (bit_and-low n (a / 2 ^ k))

-- `|` of two numbers with no bit in common is their sum.
pub bit_or-fields : (k q r : ℕ) → r < 2 ^ k → bit_or (q * 2 ^ k) r ≡ q * 2 ^ k + r
bit_or-fields zero q r h = ground (arith, bit_or-zero q)
bit_or-fields (suc k) q r h =
    ground
      (arith, double k, times_double q k, bit_or_step (q * 2 ^ suc k) r, bit_or-fields k q (r / 2))

pub bit_or-fields_low : (k q r : ℕ) → r < 2 ^ k → bit_or r (q * 2 ^ k) ≡ q * 2 ^ k + r
bit_or-fields_low zero q r h = ground (arith, zero-bit_or q)
bit_or-fields_low (suc k) q r h = ground (
  arith,
  double k,
  times_double q k,
  bit_or_step r (q * 2 ^ suc k),
  bit_or-fields_low k q (r / 2),
)

add_zero : (n : ℕ) → n + 0 ≡ n
add_zero n = omega arith

times_one : (n : ℕ) → n * 1 ≡ n
times_one n = omega arith

-- `|` of a number with one that has zeros in its low digits, and of a number with ones.
pub bit_or-shifted :
    (k f q r : ℕ) → r < 2 ^ k → bit_or (f * 2 ^ k + r) (q * 2 ^ k) ≡ bit_or f q * 2 ^ k + r
bit_or-shifted zero f q r h =
    let none : r ≡ 0 = omega arith in
    rw none rw (times_one f) rw (times_one q) rw (times_one (bit_or f q)) rw (add_zero f) rw
      (add_zero (bit_or f q)) refl
bit_or-shifted (suc k) f q r h =
    let half : r / 2 < 2 ^ k = omega (arith, double k) in
    let left : (2 * (f * 2 ^ k) + r) / 2 ≡ f * 2 ^ k + r / 2 = omega arith in
    let right : 2 * (q * 2 ^ k) / 2 ≡ q * 2 ^ k = omega arith in
    rw (times_double f k) rw (times_double q k) rw (times_double (bit_or f q) k) (
      bit_or_step (2 * (f * 2 ^ k) + r) (2 * (q * 2 ^ k))
      ∙ rw left rw right rw (bit_or-shifted k f q (r / 2) half) ground arith)

or_sym_below : (n a b : ℕ) → a < 2 ^ n → b < 2 ^ n → bit_or a b ≡ bit_or b a
or_sym_below zero a b p q = ground arith
or_sym_below (suc n) a b p q =
    let ih = or_sym_below n (a / 2) (b / 2) (omega (arith, double n)) (omega (arith, double n)) in
    ground (arith, ih, bit_or_step a b, bit_or_step b a)

pub bit_or_comm : (a b : ℕ) → bit_or a b ≡ bit_or b a
bit_or_comm a b =
    or_sym_below (a + b) a b (omega (arith, below (a + b))) (omega (arith, below (a + b)))

pub bit_or-ones : (n q : ℕ) → q < 2 ^ n → bit_or (2 ^ n - 1) q ≡ 2 ^ n - 1
bit_or-ones zero q h = omega (arith, zero-bit_or q)
bit_or-ones (suc n) q h =
    ground (arith, double n, one-le-pow 2 n, bit_or_step (2 ^ suc n - 1) q, bit_or-ones n (q / 2))

-- Bit `k` of a byte.
abbrev pub bit : ℕ → ℕ → ℕ
bit b k = b / 2 ^ k % 2

pub bit-half : (b k : ℕ) → bit (b / 2) k ≡ bit b (suc k)
bit-half b k = ap (λ (t : ℕ). t % 2) (div_double b k)

-- A property of every byte and bit position is checked at all of them.
every : ℕ → (ℕ → Bool) → Bool
every zero p = true
every (suc n) p = p n && every n p

every_sound : (n : ℕ) (p : ℕ → Bool) (x : ℕ) → every n p ≡ true → x < n → p x ≡ true
unfolding every
every_sound zero p x h lt = absurd (omega arith)
every_sound (suc n) p x h lt = ground (arith, every_sound n p x)

-- `b & (0xFF ^ (1 << k))`, the byte with bit `k` cleared, and `b | (1 << k)`.
abbrev pub clear_bit : ℕ → ℕ → ℕ
clear_bit b k = bit_and b (bit_xor 0xFF (2 ^ k))

abbrev pub set_bit : ℕ → ℕ → ℕ
set_bit b k = bit_or b (2 ^ k)

abbrev writes_bit : (ℕ → ℕ → ℕ) → ℕ → ℕ → Bool
writes_bit op v b =
    every 8 λ k. every 8 λ j. bit (op b k % 256) j == (if j == k then v else bit b j)

clear_table : every 256 (writes_bit clear_bit 0) ≡ true
unfolding every
clear_table = refl

set_table : every 256 (writes_bit set_bit 1) ≡ true
unfolding every
set_table = refl

module _ (op : ℕ → ℕ → ℕ) (v : ℕ) (table : every 256 (writes_bit op v) ≡ true) where
  bit-of_table :
      (b k j : ℕ) → b < 256 → k < 8 → j < 8 → bit (op b k % 256) j ≡ (if j == k then v else bit b j)
  bit-of_table b k j hb hk hj =
      ==→eq _ _ (every_sound 8 _ j (every_sound 8 _ k (every_sound 256 _ b table hb) hk) hj)

pub bit-clear_bit :
    (b k j : ℕ)
    → b < 256
    → k < 8
    → j < 8
    → bit (clear_bit b k % 256) j ≡ (if j == k then 0 else bit b j)
bit-clear_bit = bit-of_table clear_bit 0 clear_table

pub bit-set_bit :
    (b k j : ℕ)
    → b < 256
    → k < 8
    → j < 8
    → bit (set_bit b k % 256) j ≡ (if j == k then 1 else bit b j)
bit-set_bit = bit-of_table set_bit 1 set_table

-- A byte is its eight bits.
pub byte_ext : (x y : ℕ) → x < 256 → y < 256 → ((j : ℕ) → j < 8 → bit x j ≡ bit y j) → x ≡ y
byte_ext x y hx hy h = omega (
  arith,
  h 0 (omega arith),
  h 1 (omega arith),
  h 2 (omega arith),
  h 3 (omega arith),
  h 4 (omega arith),
  h 5 (omega arith),
  h 6 (omega arith),
  h 7 (omega arith),
)

pub bit-ones : (j : ℕ) → j < 8 → bit 0xFF j ≡ 1
unfolding every
bit-ones j h = ==→eq (bit 0xFF j) 1 (every_sound 8 (λ j. bit 0xFF j == 1) j refl h)
