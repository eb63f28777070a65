-- ===== src/Memory/Laws.antt =====
-- Loads after stores, and the two loops of `mem_write` and `checksumMemory`.
use os_v.Base.{
  ℕ, zero, suc, ◌+◌, ◌*◌, ◌/◌, ◌%◌, ◌^◌, ◌≤◌, ◌<◌, ◌≡◌, refl, ◌⊎◌, arith, ◌==◌, if◌then◌else◌, u64,
  ltb, leb, ◌&&◌, int_index-eq, int_rounds-eq,
}
use native.Mathlib.Nat.{pow-suc, one-le-pow}
use os_v.Base.Bits.{mod_digit}
use os_v.Memory.{
  Mem, read8, write8, read_bytes, write_bytes, read64, write64, mem_write_loop, mem_write,
  checksum_loop, checksum_memory,
}

pub read8-write8 :
    (a v p : ℕ) (m : Mem) → read8 p (write8 a v m) ≡ (if p == a then v % 256 else read8 p m)
unfolding write8
read8-write8 a v p m = ground arith

-- A store of `n` bytes leaves every other byte alone.
pub write_bytes-other :
    (n a v p : ℕ) (m : Mem) → (p < a) ⊎ (a + n ≤ p) → write_bytes n a v m p ≡ m p
unfolding write_bytes write8
write_bytes-other zero a v p m h = refl
write_bytes-other (suc n) a v p m h =
    ground (arith, write_bytes-other n (a + 1) (v / 256) p (write8 a v m))

pub read_bytes-lt : (n a : ℕ) (m : Mem) → read_bytes n a m < 256 ^ n
unfolding read_bytes
read_bytes-lt zero a m = omega arith
read_bytes-lt (suc n) a m = omega (arith, read_bytes-lt n (a + 1) m, pow-suc 256 n)

-- Loads that see the same bytes return the same word.
pub read_bytes_cong :
    (n a : ℕ) (m m' : Mem)
    → ((p : ℕ) → a ≤ p → p < a + n → read8 p m ≡ read8 p m')
    → read_bytes n a m ≡ read_bytes n a m'
unfolding read_bytes
read_bytes_cong zero a m m' h = refl
read_bytes_cong (suc n) a m m' h = omega (
  arith,
  h a (omega arith) (omega arith),
  read_bytes_cong n (a + 1) m m' λ p lo hi. h p (omega arith) (omega arith),
)

-- A load of bytes that a store does not touch is not changed by it.
pub read_bytes-write_bytes_other :
    (n a k b v : ℕ) (m : Mem)
    → (a + n ≤ b) ⊎ (b + k ≤ a)
    → read_bytes n a (write_bytes k b v m) ≡ read_bytes n a m
read_bytes-write_bytes_other n a k b v m apart =
    read_bytes_cong n a (write_bytes k b v m) m
      λ p lo hi. ground (arith, write_bytes-other k b v p m)

-- A load returns what the last store to the same place put there, cut to the width.
pub read_bytes-write_bytes :
    (n a v : ℕ) (m : Mem) → read_bytes n a (write_bytes n a v m) ≡ v % 256 ^ n
unfolding read_bytes write_bytes write8
read_bytes-write_bytes zero a v m = omega arith
read_bytes-write_bytes (suc n) a v m = rw (pow-suc 256 n) (
    ground (
      arith,
      write_bytes-other n (a + 1) (v / 256) a (write8 a v m),
      read_bytes-write_bytes n (a + 1) (v / 256) (write8 a v m),
      mod_digit 256 v (256 ^ n) (omega arith) (one-le-pow n 256 (omega arith)),
    ))

pub read64-write64 : (a v : ℕ) (m : Mem) → v < 2 ^ 64 → read64 a (write64 a v m) ≡ v
read64-write64 a v m h = omega (arith, read_bytes-write_bytes 8 a v m)

mem_write_loop_lem :
    (left i ptr val : ℕ) (m : Mem) (p : ℕ)
    → ptr + (i + left) ≤ 2 ^ 64
    → i + left ≤ 2 ^ 31
    → read8 p (mem_write_loop left i ptr val m)
      ≡ (if leb (ptr + i) p && ltb p (ptr + (i + left)) then val % 256 else read8 p m)
unfolding mem_write_loop write8
mem_write_loop_lem zero i ptr val m p h small = ground arith
mem_write_loop_lem (suc left) i ptr val m p h small =
    let index = int_index-eq i (omega arith) in
    rw index
      (ground (arith, mem_write_loop_lem left (i + 1) ptr val (write8 (u64 (ptr + i)) val m) p))

-- `mem_write` makes each of the `count` bytes from `addr` on the byte `val`, and leaves every
-- other byte alone, where `count`, which the code compares with an `int`, is below 2 ^ 31 and the
-- range does not pass the end of the address space.
pub mem_write-fills :
    (addr val count : ℕ) (m : Mem) (p : ℕ)
    → count < 2 ^ 31
    → addr + count ≤ 2 ^ 64
    → read8 p (mem_write addr val count m)
      ≡ (if leb addr p && ltb p (addr + count) then val % 256 else read8 p m)
unfolding mem_write
mem_write-fills addr val count m p small h =
    let rounds = int_rounds-eq count small in
    rw rounds (ground (arith, mem_write_loop_lem count 0 addr val m p))

-- The sum of the bytes of a range, as a number of any size.
unfoldable pub byte_sum : ℕ → ℕ → Mem → ℕ
byte_sum zero a m = 0
byte_sum (suc n) a m = read8 a m + byte_sum n (a + 1) m

checksum_loop_lem :
    (left i start checksum : ℕ) (m : Mem)
    → start + (i + left) ≤ 2 ^ 64
    → checksum < 2 ^ 64
    → checksum_loop left i start checksum m ≡ u64 (checksum + byte_sum left (start + i) m)
unfolding checksum_loop byte_sum
checksum_loop_lem zero i start checksum m h hc = omega arith
checksum_loop_lem (suc left) i start checksum m h hc =
    ground
      (arith, checksum_loop_lem left (i + 1) start (u64 (checksum + read8 (u64 (start + i)) m)) m)

byte_sum-le : (n a : ℕ) (m : Mem) → byte_sum n a m ≤ 255 * n
unfolding byte_sum
byte_sum-le zero a m = omega arith
byte_sum-le (suc n) a m = omega (arith, byte_sum-le n (a + 1) m)

-- `checksumMemory` returns the sum of the bytes of its range: a `uint32_t` size is too small for
-- the 64-bit sum to overflow.
pub checksum_memory-byte_sum :
    (start size : ℕ) (m : Mem)
    → size < 2 ^ 32
    → start + size ≤ 2 ^ 64
    → checksum_memory start size m ≡ byte_sum size start m
unfolding checksum_memory
checksum_memory-byte_sum start size m hs h =
    ground (arith, checksum_loop_lem size 0 start 0 m, byte_sum-le size start m)
