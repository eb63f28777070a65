-- ===== src/Alloc.antt =====
-- kernel/src/code/mem/alloc.c: the allocator of linear memory. Each block is followed by its tail,
-- a `struct MEM_ALLOC_TAIL` of 24 bytes: `next` at offset 0, `prev` at 8 and `vaddr`, the start of
-- the block, at 16. The tails form a doubly linked list.
pub mod Print
pub mod Chain
pub mod Relink
pub mod Free
pub mod Cut
pub mod Sessions
pub mod Owned
pub mod Places
pub mod Outcome
pub mod Steps
pub mod Safety
mod SafetyTests
mod ReentryTests
mod AllocateTests
pub mod Pages
pub mod Append
pub mod Tables
pub mod Reentry
pub mod Region
pub mod TakePage
pub mod OnDemand
pub mod Allocate
pub mod Gap
pub mod Insert
pub mod Demand
pub mod Tests
mod ListTests
mod FillTests
mod TablesTests
use os_v.Base.{
  ℕ, zero, suc, ◌+◌, ◌-◌, ◌*◌, ◌/◌, ◌%◌, ◌^◌, Bool, true, false, not, ◌&&◌, Option, none, some,
  List, [], ◌∷◌, bit_and, ltb, leb, ◌==◌, if◌then◌else◌, u64, shl, int_index,
}
use os_v.Memory.{Mem, read64, write64}
use os_v.Screen.{Screen, screen_clear, print_chars}
use os_v.Palloc.{mem_palloc}
use os_v.Machine.{
  Machine, Heap, ram, with_ram, Run, Cmd, done, halted, out_of_fuel, ◌>>=◌, ◌>>◌, get, modify,
}
use os_v.Paging.{Walk, missing, mapped, page_trace_pml4, page_map_pml4}

abbrev pub sizeof_tail : ℕ
sizeof_tail = 24

-- `tail->next`, `tail->prev` and `tail->vaddr`.
abbrev pub next_of : ℕ → Mem → ℕ
next_of tail m = read64 tail m

abbrev pub prev_of : ℕ → Mem → ℕ
prev_of tail m = read64 (u64 (tail + 8)) m

abbrev pub vaddr_of : ℕ → Mem → ℕ
vaddr_of tail m = read64 (u64 (tail + 16)) m

abbrev pub set_next : ℕ → ℕ → Mem → Mem
set_next tail v m = write64 tail v m

abbrev pub set_prev : ℕ → ℕ → Mem → Mem
set_prev tail v m = write64 (u64 (tail + 8)) v m

abbrev pub set_vaddr : ℕ → ℕ → Mem → Mem
set_vaddr tail v m = write64 (u64 (tail + 16)) v m

-- `mem_init`, with `*kernelend`. The shift is one of `int` by `maxlin`, of which the processor uses
-- the five low bits.
unfoldable pub mem_init : ℕ → ℕ → ℕ → Machine → Machine
mem_init kernelend memoryend maxlin m =
    let r = set_vaddr kernelend 0x2000 (set_next kernelend 0 (set_prev kernelend 0 (ram m))) in
    record (with_ram r m) {
      heap = record (m.heap) {
        mem_list_start = kernelend;
        mem_end = memoryend;
        maxlinaddr = int_index (shl 1 (maxlin % 32) + (2 ^ 32 - 1));
      };
    }

-- `if (align != 0) start += align - (start % align);`
unfoldable pub align_start : ℕ → ℕ → ℕ
align_start start align = if align == 0 then start else u64 (start + (align - start % align))

-- Where a block goes: before the tail of an entry, at a start, or behind the last entry.
pub data Place : Type 0 where
  gap : ℕ → ℕ → Place
  last : ℕ → Place

-- Whether a block fits between the tail before an entry and the block of the entry.
unfoldable pub fits_before : ℕ → ℕ → ℕ → Mem → Bool
fits_before size align entry m =
    let start = align_start (u64 (prev_of entry m + sizeof_tail)) align in
    not (prev_of entry m == 0)
    && (ltb start (vaddr_of entry m) && leb (u64 (size + sizeof_tail)) (vaddr_of entry m - start))

-- The loop over the list, with fuel for its length; `none` is the lack of fuel.
unfoldable pub find_place : ℕ → ℕ → ℕ → ℕ → Mem → Option Place
find_place zero size align entry m = none
find_place (suc fuel) size align entry m =
    let rest = find_place fuel size align (next_of entry m) m in
    if fits_before size align entry m
    then some (gap entry (align_start (u64 (prev_of entry m + sizeof_tail)) align))
    else if next_of entry m == 0
    then some (last entry)
    else rest

-- "OUT OF MEMORY! KERNEL HALT! /e".
abbrev pub errormsg : List ℕ
errormsg =
    b'O' ∷ b'U' ∷ b'T' ∷ b' ' ∷ b'O' ∷ b'F' ∷ b' ' ∷ b'M' ∷ b'E' ∷ b'M' ∷ b'O' ∷ b'R' ∷ b'Y' ∷ b'!'
    ∷ b' ' ∷ b'K' ∷ b'E' ∷ b'R' ∷ b'N' ∷ b'E' ∷ b'L' ∷ b' ' ∷ b'H' ∷ b'A' ∷ b'L' ∷ b'T' ∷ b'!'
    ∷ b' ' ∷ b'/' ∷ b'e' ∷ []

-- The message and the endless loop.
unfoldable pub out_of_memory : Cmd (Unit {0})
out_of_memory m = elim (print_chars errormsg (screen_clear m.screen)) [
  | none ↦ halted m
  | some s ↦ halted (record m { screen = s })
]

module _ (mem_alloc : ℕ → ℕ → Cmd ℕ) where
  -- One page of `mem_alloc_check_page`: a page that is not mapped gets a physical one.
  unfoldable pub check_one : ℕ → Cmd (Unit {0})
  check_one page m = elim (page_trace_pml4 m.paging page (ram m)) [
    | mapped p ↦ done tt (record m { heap = record (m.heap) { paddr = p } })
    | missing code ↦
        let (found, r) = mem_palloc m.allocator 1 (ram m) in
        elim found [
          | none ↦ out_of_memory (with_ram r m)
          | some p ↦
              page_map_pml4 mem_alloc page p 1 0
                (record (with_ram r m) { heap = record (m.heap) { paddr = p } })
        ]
  ]

  -- The loop of `mem_alloc_check_page`.
  unfoldable pub check_pages : ℕ → ℕ → ℕ → Cmd (Unit {0})
  check_pages zero page end m = out_of_fuel
  check_pages (suc fuel) page end m = elim (ltb page end) [
    | true ↦ (do check_one page; check_pages fuel (u64 (page + 0x1000)) end) m
    | false ↦ done tt m
  ]

  -- `mem_alloc_check_page`; the fuel is the number of pages and one.
  unfoldable pub mem_alloc_check_page : ℕ → ℕ → Cmd (Unit {0})
  mem_alloc_check_page start end =
      check_pages ((end - bit_and start 0xFFFFFFFFFFFFF000) / 0x1000 + 2)
        (bit_and start 0xFFFFFFFFFFFFF000) end

  -- The block between two entries. `inserted_entry += size` counts tails, not bytes.
  unfoldable pub insert_block : ℕ → ℕ → ℕ → Cmd ℕ
  insert_block size entry inserted_start = do
    let inserted_entry = u64 (inserted_start + sizeof_tail * size)
    mem_alloc_check_page inserted_start (u64 (inserted_entry + sizeof_tail))
    modify (λ m. with_ram (set_next inserted_entry entry (ram m)) m)
    modify (λ m. with_ram (set_prev inserted_entry (prev_of entry (ram m)) (ram m)) m)
    modify (λ m. with_ram (set_vaddr inserted_entry inserted_start (ram m)) m)
    modify (λ m. with_ram (set_next (prev_of entry (ram m)) inserted_entry (ram m)) m)
    modify (λ m. with_ram (set_prev entry inserted_entry (ram m)) m)
    done inserted_start

  -- The block behind the last entry.
  unfoldable pub append_block : ℕ → ℕ → ℕ → Cmd ℕ
  append_block size align entry = do
    let append_start = align_start (u64 (entry + sizeof_tail)) align
    let appended_entry = u64 (append_start + size)
    mem_alloc_check_page append_start (u64 (appended_entry + sizeof_tail))
    modify (λ m. with_ram (set_next appended_entry 0 (ram m)) m)
    modify (λ m. with_ram (set_prev appended_entry entry (ram m)) m)
    modify (λ m. with_ram (set_vaddr appended_entry append_start (ram m)) m)
    modify (λ m. with_ram (set_next entry appended_entry (ram m)) m)
    done append_start

  -- `mem_alloc`, with fuel for the walk of the list.
  unfoldable pub alloc_step : ℕ → ℕ → ℕ → Cmd ℕ
  alloc_step fuel size align m = elim (find_place fuel size align m.heap.mem_list_start (ram m)) [
    | none ↦ out_of_fuel
    | some (gap entry start) ↦ insert_block size entry start m
    | some (last entry) ↦ append_block size align entry m
  ]

-- `mem_alloc`. The first fuel is for the calls that it makes through `page_map_PML4`, the second
-- for the walk of the list.
unfoldable pub mem_alloc : ℕ → ℕ → ℕ → ℕ → Cmd ℕ
mem_alloc zero walk size align m = out_of_fuel
mem_alloc (suc depth) walk size align m = alloc_step (mem_alloc depth walk) walk size align m

-- What the search of `mem_free` comes to: the tail of the block that starts at the address, or the
-- end of the list.
unfoldable pub find_block : ℕ → ℕ → ℕ → Mem → Option (Option ℕ)
find_block zero addr entry m = none
find_block (suc fuel) addr entry m =
    let rest = find_block fuel addr (next_of entry m) m in
    if entry == 0 then some none else if vaddr_of entry m == addr then some (some entry) else rest

-- `entry->prev->next = entry->next; entry->next->prev = entry->prev;`, neither pointer tested.
unfoldable pub unlink : ℕ → Mem → Mem
unlink entry m =
    let m' = set_next (prev_of entry m) (next_of entry m) m in
    set_prev (next_of entry m') (prev_of entry m') m'

-- `mem_free`; `true` for its return of 0.
unfoldable pub mem_free : ℕ → ℕ → Cmd Bool
mem_free walk addr m = elim (find_block walk addr m.heap.mem_list_start (ram m)) [
  | none ↦ out_of_fuel
  | some none ↦ done false m
  | some (some entry) ↦ done true (with_ram (unlink entry (ram m)) m)
]
