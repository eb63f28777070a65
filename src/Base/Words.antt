-- ===== src/Base/Words.antt =====
-- Machine words: the casts to the unsigned widths, the shifts, and the conversion of a
-- `uint64_t` to `int` followed by its use as an array index.
use Prim.Native.Nat.{ℕ, ◌+◌, ◌-◌, ◌*◌, ◌/◌, ◌%◌, ◌^◌, ◌<◌, ◌≤◌}
use mathlib.Core.Path.{◌≡◌}
use native.Mathlib.Omega.{arith}
use os_v.Base.Tests.{ltb, leb, if◌then◌else◌}

abbrev pub u8 : ℕ → ℕ
u8 n = n % 2 ^ 8

abbrev pub u16 : ℕ → ℕ
u16 n = n % 2 ^ 16

abbrev pub u32 : ℕ → ℕ
u32 n = n % 2 ^ 32

abbrev pub u64 : ℕ → ℕ
u64 n = n % 2 ^ 64

abbrev pub shl : ℕ → ℕ → ℕ
shl x k = x * 2 ^ k

abbrev pub shr : ℕ → ℕ → ℕ
shr x k = x / 2 ^ k

-- `int i = x;` keeps the low 32 bits, and `p[i]` extends their sign to the width of a pointer.
unfoldable pub int_index : ℕ → ℕ
int_index x = if ltb (x % 2 ^ 32) (2 ^ 31) then x % 2 ^ 32 else x % 2 ^ 32 + (2 ^ 64 - 2 ^ 32)

pub int_index-eq : (x : ℕ) → x < 2 ^ 31 → int_index x ≡ x
unfolding int_index
int_index-eq x h = ground arith

-- How often `for(int i=0; i<n; i++)` runs for a `uint64_t` n, where `i` wraps: a negative `i` is
-- compared as a number from 2 ^ 64 - 2 ^ 31 on.
unfoldable pub int_rounds : ℕ → ℕ
int_rounds n =
    if leb n (2 ^ 31) then n else if leb n (2 ^ 64 - 2 ^ 31) then 2 ^ 31 else n - (2 ^ 64 - 2 ^ 32)

pub int_rounds-eq : (n : ℕ) → n < 2 ^ 31 → int_rounds n ≡ n
unfolding int_rounds
int_rounds-eq n h = ground arith

pub int_index_negative : (x : ℕ) → x < 2 ^ 32 → 2 ^ 31 ≤ x → int_index x ≡ x + (2 ^ 64 - 2 ^ 32)
unfolding int_index
int_index_negative x h n = ground arith
