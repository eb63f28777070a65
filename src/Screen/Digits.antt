-- ===== src/Screen/Digits.antt =====
-- What `screenPrintX` prints: the hexadecimal numeral of the value.
use os_v.Base.{
  ℕ, zero, suc, ◌+◌, ◌-◌, ◌*◌, ◌/◌, ◌%◌, ◌^◌, ◌≤◌, ◌<◌, ◌≡◌, refl, List, [], ◌∷◌, arith, ltb,
  if◌then◌else◌, bit_and, shr, u8, length, ap, ◌∙◌,
}
use native.Mathlib.Nat.{pow-suc, one-le-pow}
use os_v.Base.Bits.{bit_and-low, mod_digit}
use os_v.Screen.{Screen, print_char}
use os_v.Screen.Numbers.{digit_char, print_x_loop, print_x}

-- Characters one after the other.
unfoldable pub type_out : List ℕ → Screen → Screen
type_out [] s = s
type_out (c ∷ cs) s = type_out cs (print_char c s)

-- The value of a numeral in base 16, from the left.
unfoldable pub digit_value : ℕ → ℕ
digit_value c = if ltb c b'A' then c - b'0' else c - b'A' + 10

unfoldable pub value_of : ℕ → List ℕ → ℕ
value_of acc [] = acc
value_of acc (c ∷ cs) = value_of (acc * 16 + digit_value c) cs

-- The `left` lowest digits of a number.
unfoldable pub numeral : ℕ → ℕ → List ℕ
numeral zero inp = []
numeral (suc left) inp = digit_char (inp / 16 ^ left % 16) ∷ numeral left inp

digit_value-digit_char : (d : ℕ) → d < 16 → digit_value (digit_char d) ≡ d
unfolding digit_value digit_char
digit_value-digit_char d h = ground arith

-- The numeral stands for the low part of the number.
value_of-numeral :
    (left acc inp : ℕ) → value_of acc (numeral left inp) ≡ acc * 16 ^ left + inp % 16 ^ left
unfolding value_of numeral
value_of-numeral zero acc inp = omega arith
value_of-numeral (suc left) acc inp =
    let d : ℕ = inp / 16 ^ left % 16 in
    let low : inp % 16 ^ suc left ≡ 16 ^ left * d + inp % 16 ^ left =
      rw (pow-suc 16 left)
        (mod_digit (16 ^ left) inp 16 (one-le-pow left 16 (omega arith)) (omega arith)) in
    ap (λ (t : ℕ). value_of (acc * 16 + t) (numeral left inp))
      (digit_value-digit_char d (omega arith))
    ∙ value_of-numeral left (acc * 16 + d) inp
    ∙ omega (arith, low, ap (λ (t : ℕ). acc * t) (pow-suc 16 left))

two_pow_four : (n : ℕ) → 2 ^ (4 * n) ≡ 16 ^ n
two_pow_four zero = refl
two_pow_four (suc n) =
    let e : 4 * suc n ≡ suc (suc (suc (suc (4 * n)))) = omega arith in
    let k : ℕ = 4 * n in
    rw e (
      omega (
        arith,
        pow-suc 2 (suc (suc (suc k))),
        pow-suc 2 (suc (suc k)),
        pow-suc 2 (suc k),
        pow-suc 2 k,
        pow-suc 16 n,
        two_pow_four n,
      ))

print_x_loop-numeral :
    (left i inp : ℕ) (s : Screen)
    → i ≡ 4 * left - 4
    → left ≤ 16
    → print_x_loop left i inp s ≡ type_out (numeral left inp) s
unfolding print_x_loop type_out numeral
print_x_loop-numeral zero i inp s e small = refl
print_x_loop-numeral (suc left) i inp s e small =
    let at : i % 64 ≡ 4 * left = omega arith in
    let same : bit_and (shr inp (i % 64)) 0xF ≡ inp / 16 ^ left % 16 =
      rw at (rw (two_pow_four left) (bit_and-low 4 (inp / 16 ^ left))) in
    rw same (print_x_loop-numeral left (i - 4) inp _ (omega arith) (omega arith))

length-numeral : (n inp : ℕ) → length (numeral n inp) ≡ n
unfolding numeral
length-numeral zero inp = refl
length-numeral (suc n) inp = ap suc (length-numeral n inp)

-- `screenPrintX` of a value at a width of a multiple of four bits, of at most 64, types "0x" and a
-- numeral of a quarter as many digits, which stands for the value cut to the width.
pub print_x-numeral :
    (inp digits : ℕ) (s : Screen)
    → digits ≤ 16
    → (print_x inp (4 * digits) s ≡ type_out (b'0' ∷ b'x' ∷ numeral digits inp) s)
      × (length (numeral digits inp) ≡ digits)
      × (value_of 0 (numeral digits inp) ≡ inp % 2 ^ (4 * digits))
print_x-numeral inp digits s small = (typed, length-numeral digits inp, value)
  where
    typed : print_x inp (4 * digits) s ≡ type_out (b'0' ∷ b'x' ∷ numeral digits inp) s
    typed =
        let many : u8 (4 * digits) / 4 ≡ digits = omega arith in
        let first : u8 (4 * digits) - 4 ≡ 4 * digits - 4 = omega arith in
        unfold print_x type_out in
        rw (many, first) (print_x_loop-numeral digits (4 * digits - 4) inp _ refl small)

    value : value_of 0 (numeral digits inp) ≡ inp % 2 ^ (4 * digits)
    value = rw (two_pow_four digits) (omega (arith, value_of-numeral digits 0 inp))
