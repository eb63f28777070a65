-- ===== src/Alloc/SafetyTests.antt =====
-- A run of kernel/src/code/mem/alloc.c from `mem_init` with two allocations, and the theorems there.
use os_v.Base.{ℕ, ◌+◌, ◌-◌, ◌≡◌, refl, true, some, [], ◌∷◌, here, there, arith}
use mathlib.Core.Path.{subst}
use os_v.Memory.{write8, read_bytes, write_bytes}
use os_v.Machine.{Machine, ram, Run, done, halted, out_of_fuel}
use os_v.Paging.{mapped, page_map_init, page_trace_pml4}
use os_v.Alloc.{
  mem_init, fits_before, find_place, last, mem_alloc, alloc_step, append_block, align_start,
  mem_alloc_check_page, check_pages, check_one, mem_free,
}
use os_v.Alloc.Pages.{AllMapped}
use os_v.Alloc.Sessions.{AllSeparate, Reach, start, next, append, Session, IsSound}
use os_v.Alloc.Safety.{Reach-AllSeparate, Reach-frees}
use os_v.Alloc.Tests.{computer, booted, booted-AllMapped}

abbrev machine_of : Run ℕ → Machine
machine_of (done s m) = m
machine_of (halted m) = m
machine_of out_of_fuel = booted

-- The machine behind the first call.
abbrev once : Machine
once = machine_of (mem_alloc 1 4 0x10 0x10 booted)

once_lem : mem_alloc 1 4 0x10 0x10 booted ≡ done 0x9020 once
unfolding mem_alloc alloc_step find_place fits_before append_block align_start mem_alloc_check_page
    check_pages check_one page_trace_pml4 page_map_init mem_init read_bytes write_bytes write8
once_lem = refl

once-last : find_place 4 0x20 0 once.heap.mem_list_start (ram once) ≡ some (last 0x9030)
unfolding mem_alloc alloc_step find_place fits_before append_block align_start mem_alloc_check_page
    check_pages check_one page_trace_pml4 page_map_init mem_init read_bytes write_bytes write8
once-last = refl

booted-last : find_place 4 0x10 0x10 booted.heap.mem_list_start (ram booted) ≡ some (last 0x9000)
unfolding mem_init find_place fits_before read_bytes write_bytes write8
booted-last = refl

once-page_nine : page_trace_pml4 once.paging 0x9000 (ram once) ≡ mapped 0x9000
unfolding mem_alloc alloc_step find_place fits_before append_block align_start mem_alloc_check_page
    check_pages check_one page_trace_pml4 page_map_init mem_init read_bytes write_bytes write8
once-page_nine = refl

once-AllMapped : AllMapped once (0x9030 - 0xFFF) (0x9030 + 0 + 0x20 + 48)
once-AllMapped q lo hi aligned =
    let is : 0x9000 ≡ q = omega arith in
    (
      0x9000,
      subst (λ (t : ℕ). page_trace_pml4 once.paging t (ram once) ≡ mapped 0x9000) is once-page_nine,
    )

abbrev twice : Machine
twice = machine_of (mem_alloc 1 4 0x20 0 once)

twice_lem : mem_alloc 1 4 0x20 0 once ≡ done 0x9048 twice
unfolding mem_alloc alloc_step find_place fits_before append_block align_start mem_alloc_check_page
    check_pages check_one page_trace_pml4 page_map_init mem_init read_bytes write_bytes write8
twice_lem = refl

abbrev two_live : Session
two_live = record {
  machine = twice;
  live = record { address = 0x9048; size = 0x20 } ∷ record { address = 0x9020; size = 0x10 } ∷ [];
}

-- The two calls after `mem_init`.
two_live-Reach : Reach 4 two_live
two_live-Reach =
    next
      (next (start 0x9000 0x10000 48 computer (omega arith) (omega arith)) (
        append 0 0x10 0x10 0x9020 0x9000 booted once [] booted-last (omega arith)
          (booted-AllMapped 0x9050 (omega arith)) once_lem))
      (append 0 0x20 0 0x9048 0x9030 once twice (record { address = 0x9020; size = 0x10 } ∷ [])
        once-last (omega arith) once-AllMapped twice_lem)

Reach-AllSeparate_example : AllSeparate two_live.live
Reach-AllSeparate_example = Reach-AllSeparate 4 two_live two_live-Reach

Reach-frees_example :
    (m' : Machine) × (mem_free 4 0x9020 twice ≡ done true m')
    × IsSound (record { machine = m'; live = record { address = 0x9048; size = 0x20 } ∷ [] })
Reach-frees_example =
    Reach-frees 4 two_live (record { address = 0x9020; size = 0x10 })
      (record { address = 0x9048; size = 0x20 } ∷ []) two_live-Reach
      (there (record { address = 0x9048; size = 0x20 }) (here [])) (omega arith)
