-- ===== src/Memory/Tests.antt =====
-- The loops over memory at sample ranges.
use os_v.Base.{◌+◌, ◌%◌, ◌≡◌, arith, ltb, leb, ◌&&◌, if◌then◌else◌}
use os_v.Memory.{Mem, read8, mem_write, checksum_memory}
use os_v.Memory.Laws.{mem_write-fills, byte_sum, checksum_memory-byte_sum}

-- Each byte is the low one of its address.
abbrev ramp : Mem
ramp p = p

mem_write-fills_example :
    read8 0x1FFF (mem_write 0x1000 0x1A5 0x1000 ramp)
    ≡ (if leb 0x1000 0x1FFF && ltb 0x1FFF (0x1000 + 0x1000) then 0x1A5 % 256 else read8 0x1FFF ramp)
mem_write-fills_example =
    mem_write-fills 0x1000 0x1A5 0x1000 ramp 0x1FFF (omega arith) (omega arith)

checksum_memory-byte_sum_example : checksum_memory 0x1000 0x200 ramp ≡ byte_sum 0x200 0x1000 ramp
checksum_memory-byte_sum_example =
    checksum_memory-byte_sum 0x1000 0x200 ramp (omega arith) (omega arith)
