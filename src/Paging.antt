-- ===== src/Paging.antt =====
-- kernel/src/code/mem/page_map.c: walking and filling the page tables. Tables are reached at the
-- addresses that their entries hold, as the C code does.
pub mod Filter
pub mod Entry
pub mod Map
pub mod Grow
pub mod Frame
pub mod Fill
pub mod Tests
use os_v.Base.{
  ℕ, ◌+◌, ◌-◌, ◌*◌, ◌/◌, ◌%◌, ◌^◌, Bool, true, false, not, bit_and, bit_or, ◌==◌, if◌then◌else◌, u8,
  u64, shl, shr,
}
use os_v.Memory.{Mem, read64, write64}
use os_v.Machine.{Paging, Machine, ram, with_ram, Cmd, done, ◌>>=◌, ◌>>◌, get, modify}
use os_v.Screen.{screen_clear}

-- `page_map_init`, with what `cpuid` leaves in RAX, the value of CR3 and the addresses of the four
-- static tables. The width of addresses is at most 52 bits on every processor.
unfoldable pub page_map_init : ℕ → ℕ → ℕ → ℕ → ℕ → ℕ → Paging
page_map_init cpuid_rax cr3 pml5_s pml4_s pdpt_s pd_s =
    let maxphyaddr = u8 cpuid_rax in
    let filter = u64 (shl (u64 (u64 (shl 1 maxphyaddr) + (2 ^ 64 - 1))) 12) in
    record {
      pagemap_start = bit_and cr3 filter;
      page_maxphyaddr = maxphyaddr;
      page_maxlinaddr = u8 (shr cpuid_rax 8);
      page_map_filter = filter;
      page_pml5_backup = pml5_s;
      page_pml4_backup = pml4_s;
      page_pdpt_backup = pdpt_s;
      page_pd_backup = pd_s;
    }

-- The entry that `page_construct_PML4_E` stores. `flags` and `prot` are bytes.
unfoldable pub construct_pml4_e : ℕ → ℕ → ℕ → ℕ → ℕ
construct_pml4_e filter flags addr prot =
    bit_or (bit_or (bit_or 0 (bit_or flags 1)) (bit_and addr filter))
      (u64 (shl (bit_and prot 1) 63))

unfoldable pub construct_pdpt_e : ℕ → ℕ → ℕ → ℕ → ℕ
construct_pdpt_e filter flags addr prot =
    bit_or (bit_or (bit_or 0 (bit_or flags 1)) (bit_and addr filter))
      (u64 (shl (bit_and prot 1) 63))

unfoldable pub construct_pd_e : ℕ → ℕ → ℕ → ℕ → ℕ
construct_pd_e filter flags addr prot =
    bit_or (bit_or (bit_or 0 (bit_or flags 1)) (bit_and addr filter))
      (u64 (shl (bit_and prot 1) 63))

unfoldable pub construct_pt_e : ℕ → ℕ → ℕ → ℕ → ℕ
construct_pt_e filter flags addr prot =
    bit_or (bit_or (bit_or 0 (bit_or (shl flags 1) 1)) (bit_and addr filter))
      (u64 (shl (bit_and prot 0x1F) 59))

-- `(vaddr & page_map_filter_X) >> page_map_shift_X`, for the five levels.
abbrev pub index_pml5 : ℕ → ℕ
index_pml5 vaddr = shr (bit_and vaddr 0x01FF000000000000) 48

abbrev pub index_pml4 : ℕ → ℕ
index_pml4 vaddr = shr (bit_and vaddr 0x0000FF8000000000) 39

abbrev pub index_pdpt : ℕ → ℕ
index_pdpt vaddr = shr (bit_and vaddr 0x0000007FC0000000) 30

abbrev pub index_pd : ℕ → ℕ
index_pd vaddr = shr (bit_and vaddr 0x000000003FE00000) 21

abbrev pub index_pt : ℕ → ℕ
index_pt vaddr = shr (bit_and vaddr 0x00000000001FF000) 12

-- The address of entry `i` of the table at `base`: `base + i` over `uint64_t*`.
abbrev pub entry_at : ℕ → ℕ → ℕ
entry_at base i = u64 (base + 8 * i)

-- `(*entry & 1) == 1`.
abbrev pub is_present : ℕ → Bool
is_present entry = bit_and entry 1 == 1

-- What a walk returns: the code of the level that is missing, or 0 with the physical address.
pub data Walk : Type 0 where
  missing : ℕ → Walk
  mapped : ℕ → Walk

unfoldable pub page_trace_pml4 : Paging → ℕ → Mem → Walk
page_trace_pml4 g vaddr_arg m =
    let filter = g.page_map_filter in
    let vaddr = bit_and vaddr_arg filter in
    let pml4_e = read64 (entry_at g.pagemap_start (index_pml4 vaddr)) m in
    let pdpt_e = read64 (entry_at (bit_and pml4_e filter) (index_pdpt vaddr)) m in
    let pd_e = read64 (entry_at (bit_and pdpt_e filter) (index_pd vaddr)) m in
    let pt_e = read64 (entry_at (bit_and pd_e filter) (index_pt vaddr)) m in
    if not (is_present pml4_e)
    then missing 4
    else if not (is_present pdpt_e)
    then missing 3
    else if not (is_present pd_e)
    then missing 2
    else if not (is_present pt_e)
    then missing 1
    else mapped (bit_and pt_e filter)

-- The five-level walk checks neither the first nor the last entry.
unfoldable pub page_trace_pml5 : Paging → ℕ → Mem → Walk
page_trace_pml5 g vaddr_arg m =
    let filter = g.page_map_filter in
    let vaddr = bit_and vaddr_arg filter in
    let pml5_e = read64 (entry_at g.pagemap_start (index_pml5 vaddr)) m in
    let pml4_e = read64 (entry_at (bit_and pml5_e filter) (index_pml4 vaddr)) m in
    let pdpt_e = read64 (entry_at (bit_and pml4_e filter) (index_pdpt vaddr)) m in
    let pd_e = read64 (entry_at (bit_and pdpt_e filter) (index_pd vaddr)) m in
    let pt_e = read64 (entry_at (bit_and pd_e filter) (index_pt vaddr)) m in
    if not (is_present pml4_e)
    then missing 3
    else if not (is_present pdpt_e)
    then missing 2
    else if not (is_present pd_e)
    then missing 1
    else mapped (bit_and pt_e filter)

-- `page_map_PML5` looks at no present bit and makes no table.
unfoldable pub page_map_pml5 : Paging → ℕ → ℕ → ℕ → ℕ → Mem → Mem
page_map_pml5 g vaddr_arg paddr_arg flags prot m =
    let filter = g.page_map_filter in
    let vaddr = bit_and vaddr_arg filter in
    let paddr = bit_and paddr_arg filter in
    let pml5_e = read64 (entry_at g.pagemap_start (index_pml5 vaddr)) m in
    let pml4_e = read64 (entry_at (bit_and pml5_e filter) (index_pml4 vaddr)) m in
    let pdpt_e = read64 (entry_at (bit_and pml4_e filter) (index_pdpt vaddr)) m in
    let pd_e = read64 (entry_at (bit_and pdpt_e filter) (index_pd vaddr)) m in
    write64 (entry_at (bit_and pd_e filter) (index_pt vaddr))
      (construct_pt_e filter flags paddr prot) m

-- `page_map_PML4` calls `mem_alloc`, which calls it: here that is an argument, and the module
-- `Alloc` closes the circle.
module _ (mem_alloc : ℕ → ℕ → Cmd ℕ) where
  -- `*entry = ...; page_X_backup = mem_alloc(0x1000, 0x1000);`, at a level that is missing.
  unfoldable pub new_pml4 : ℕ → ℕ → ℕ → Cmd (Unit {0})
  new_pml4 entry flags prot = do
    m ← get
    let g = m.paging
    modify (
        with_ram (
          write64 entry (construct_pml4_e g.page_map_filter flags g.page_pml4_backup prot) (ram m)))
    backup ← mem_alloc 0x1000 0x1000
    modify (λ n. record n { paging = record (n.paging) { page_pml4_backup = backup } })

  unfoldable pub new_pdpt : ℕ → ℕ → ℕ → Cmd (Unit {0})
  new_pdpt entry flags prot = do
    m ← get
    let g = m.paging
    modify (
        with_ram (
          write64 entry (construct_pdpt_e g.page_map_filter flags g.page_pdpt_backup prot) (ram m)))
    backup ← mem_alloc 0x1000 0x1000
    modify (λ n. record n { paging = record (n.paging) { page_pdpt_backup = backup } })

  -- At the third level the screen is cleared as well.
  unfoldable pub new_pd : ℕ → ℕ → ℕ → Cmd (Unit {0})
  new_pd entry flags prot = do
    m ← get
    let g = m.paging
    modify (
        with_ram
          (write64 entry (construct_pd_e g.page_map_filter flags g.page_pd_backup prot) (ram m)))
    backup ← mem_alloc 0x1000 0x1000
    modify (λ n. record n { paging = record (n.paging) { page_pd_backup = backup } })
    modify (λ n. record n { screen = screen_clear n.screen })

  abbrev pub nothing : Cmd (Unit {0})
  nothing m = done tt m

  abbrev pub load : ℕ → Cmd ℕ
  load a m = done (read64 a (ram m)) m

  unfoldable pub page_map_pml4 : ℕ → ℕ → ℕ → ℕ → Cmd (Unit {0})
  page_map_pml4 vaddr_arg paddr_arg flags prot = do
    m ← get
    let filter = m.paging.page_map_filter
    let vaddr = bit_and vaddr_arg filter
    let paddr = bit_and paddr_arg filter
    -- `pagemap_start + index * 8` over `uint64_t*`: 64 bytes to an entry.
    let pml4_a = entry_at m.paging.pagemap_start (index_pml4 vaddr * 8)
    pml4_e ← load pml4_a
    if is_present pml4_e then nothing else new_pml4 pml4_a flags prot
    pml4_e' ← load pml4_a
    let pdpt_a = entry_at (bit_and pml4_e' filter) (index_pdpt vaddr)
    pdpt_e ← load pdpt_a
    if is_present pdpt_e then nothing else new_pdpt pdpt_a flags prot
    pdpt_e' ← load pdpt_a
    let pd_a = entry_at (bit_and pdpt_e' filter) (index_pd vaddr)
    pd_e ← load pd_a
    if is_present pd_e then nothing else new_pd pd_a flags prot
    pd_e' ← load pd_a
    let pt_a = entry_at (bit_and pd_e' filter) (index_pt vaddr)
    modify (λ n. with_ram (write64 pt_a (construct_pt_e filter flags paddr prot) (ram n)) n)
