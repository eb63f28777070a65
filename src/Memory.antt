-- ===== src/Memory.antt =====
-- The machine's memory as the kernel's loads and stores see it: a byte at each linear address,
-- little-endian words, and pointer arithmetic that wraps at 2 ^ 64. `mem/mem_access.c` and
-- `tools/checksum.c` in kernel/src/code are the two loops over it that stand alone. The
-- translation of addresses by the processor is not part of it.
pub mod Laws
mod Tests
use os_v.Base.{ℕ, zero, suc, ◌+◌, ◌*◌, ◌/◌, ◌%◌, ◌==◌, if◌then◌else◌, u64, int_index, int_rounds}

-- The low eight bits of the number at an address are the byte that is stored there.
abbrev pub Mem : Type 0
Mem = ℕ → ℕ

abbrev pub read8 : ℕ → Mem → ℕ
read8 a m = m a % 256

unfoldable pub write8 : ℕ → ℕ → Mem → Mem
write8 a v m p = if p == a then v % 256 else m p

-- `n` bytes from address `a` on, the lowest first.
unfoldable pub read_bytes : ℕ → ℕ → Mem → ℕ
read_bytes zero a m = 0
read_bytes (suc n) a m = read8 a m + 256 * read_bytes n (a + 1) m

unfoldable pub write_bytes : ℕ → ℕ → ℕ → Mem → Mem
write_bytes zero a v m = m
write_bytes (suc n) a v m = write_bytes n (a + 1) (v / 256) (write8 a v m)

abbrev pub read64 : ℕ → Mem → ℕ
read64 a m = read_bytes 8 a m

abbrev pub write64 : ℕ → ℕ → Mem → Mem
write64 a v m = write_bytes 8 a v m

abbrev pub read32 : ℕ → Mem → ℕ
read32 a m = read_bytes 4 a m

abbrev pub write32 : ℕ → ℕ → Mem → Mem
write32 a v m = write_bytes 4 a v m

abbrev pub read16 : ℕ → Mem → ℕ
read16 a m = read_bytes 2 a m

abbrev pub write16 : ℕ → ℕ → Mem → Mem
write16 a v m = write_bytes 2 a v m

-- The loop of `mem_write`, at the `int` index `i` with `left` rounds to go.
unfoldable pub mem_write_loop : ℕ → ℕ → ℕ → ℕ → Mem → Mem
mem_write_loop zero i ptr val m = m
mem_write_loop (suc left) i ptr val m =
    mem_write_loop left (i + 1) ptr val (write8 (u64 (ptr + int_index i)) val m)

unfoldable pub mem_write : ℕ → ℕ → ℕ → Mem → Mem
unfolding mem_write_loop int_rounds
mem_write addr val count m = mem_write_loop (int_rounds count) 0 addr val m

-- The loop of `checksumMemory`, whose sum is a `uint64_t`.
unfoldable pub checksum_loop : ℕ → ℕ → ℕ → ℕ → Mem → ℕ
checksum_loop zero i start checksum m = checksum
checksum_loop (suc left) i start checksum m =
    checksum_loop left (i + 1) start (u64 (checksum + read8 (u64 (start + i)) m)) m

unfoldable pub checksum_memory : ℕ → ℕ → Mem → ℕ
unfolding checksum_loop
checksum_memory start size m = checksum_loop size 0 start 0 m
