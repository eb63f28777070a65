-- ===== src/Alloc/Append.antt =====
-- `mem_init`, and `mem_alloc` where the block goes behind the last one.
use os_v.Base.{
  ℕ, suc, ◌+◌, ◌-◌, ◌%◌, ◌^◌, ◌≤◌, ◌<◌, ◌≡◌, ◌≢◌, refl, ◌⊎◌, inl, some, List, [], ◌∷◌, ◌++◌, arith,
  u64, ◌∙◌, ap,
}
use os_v.Memory.{Mem, read8}
use os_v.Memory.Laws.{read_bytes-write_bytes_other, read64-write64, write_bytes-other}
use os_v.Machine.{Machine, ram, with_ram, Run, Cmd, done}
use os_v.Alloc.{
  next_of, prev_of, vaddr_of, set_next, set_prev, set_vaddr, mem_init, align_start, last,
  find_place, mem_alloc_check_page, append_block, alloc_step, mem_alloc,
}
use os_v.Alloc.Chain.{Block, Linked, find_place-last, Linked-append}
use os_v.Alloc.Pages.{align_start_lem, AllMapped, with_paddr, mem_alloc_check_page-mapped}

-- `mem_init` makes a list of one block, from 0x2000 to the end of the kernel, where that is not below
-- 0x2000 and leaves room for the tail.
pub mem_init-Linked :
    (kernelend memoryend maxlin : ℕ) (m : Machine)
    → 0x2000 ≤ kernelend
    → kernelend + 24 ≤ 2 ^ 64
    → Linked
        (ram (mem_init kernelend memoryend maxlin m))
        0
        0
        (mem_init kernelend memoryend maxlin m).heap.mem_list_start
        (record { start = 0x2000; tail = kernelend } ∷ [])
unfolding mem_init
mem_init-Linked k memoryend maxlin m lo hi = (
  refl,
  read_bytes-write_bytes_other 8 (u64 (k + 8)) 8 (u64 (k + 16)) 0x2000
        (set_next k 0 (set_prev k 0 (ram m))) (omega arith)
      ∙ read_bytes-write_bytes_other 8 (u64 (k + 8)) 8 k 0 (set_prev k 0 (ram m)) (omega arith)
      ∙ read64-write64 (u64 (k + 8)) 0 (ram m) (omega arith),
  read64-write64 (u64 (k + 16)) 0x2000 (set_next k 0 (set_prev k 0 (ram m))) (omega arith),
  omega arith,
  lo,
  omega arith,
  hi,
  read_bytes-write_bytes_other 8 k 8 (u64 (k + 16)) 0x2000 (set_next k 0 (set_prev k 0 (ram m)))
        (omega arith)
      ∙ read64-write64 k 0 (set_prev k 0 (ram m)) (omega arith),
)

-- What `mem_alloc` does where it puts the block behind the last one, whose tail is at `x`: the block
-- starts at a multiple of `align` at most `align` bytes behind that tail, it becomes the last of the
-- list, and no byte changes but those of its tail and of the link to it, nor do the paging globals or
-- the cursor.
abbrev pub Appends : Machine → Block → List Block → ℕ → ℕ → ℕ → Run ℕ → Type 0
Appends m b bs x size align out =
    (s : ℕ) × (m' : Machine) × (out ≡ done s m')
    × (x + 24 ≤ s)
    × (align ≢ 0 → s % align ≡ 0)
    × (Linked (ram m') 0 0 m'.heap.mem_list_start
        ((b ∷ bs) ++ record { start = s; tail = s + size } ∷ []))
    × ((p : ℕ)
        → (p < x) ⊎ (x + 8 ≤ p)
        → (p < s + size) ⊎ (s + size + 24 ≤ p)
        → read8 p (ram m') ≡ read8 p (ram m))
    × (m'.paging ≡ m.paging)
    × (s ≤ x + 24 + align)
    × ((m'.screen.cur_x ≡ m.screen.cur_x) × (m'.screen.cur_y ≡ m.screen.cur_y))

-- The memory behind the appended block.
abbrev pub appended : ℕ → ℕ → ℕ → Mem → Mem
appended x a s r = set_next x a (set_vaddr a s (set_prev a x (set_next a 0 r)))

pub append_block-appended :
    (alloc : ℕ → ℕ → Cmd ℕ) (size align x s : ℕ) (m m' : Machine)
    → align_start (u64 (x + 24)) align ≡ s
    → s + size + 24 < 2 ^ 64
    → mem_alloc_check_page alloc s (s + size + 24) m ≡ done tt m'
    → append_block alloc size align x m ≡ done s (with_ram (appended x (s + size) s (ram m')) m')
unfolding append_block
append_block-appended alloc size align x s m m' is room h =
    let add : u64 (s + size) ≡ s + size = omega arith in
    let end : u64 (s + size + 24) ≡ s + size + 24 = omega arith in rw is rw add rw end rw h refl

module _ (x s a : ℕ) (r : Mem) (room : x + 24 ≤ s) (order : s ≤ a) (below : a + 24 ≤ 2 ^ 64) where
  pub appended-other :
      (p : ℕ)
      → (p < x) ⊎ (x + 8 ≤ p)
      → (p < a) ⊎ (a + 24 ≤ p)
      → read8 p (appended x a s r) ≡ read8 p r
  appended-other p ox oa =
      ap (λ (t : ℕ). t % 256)
        (write_bytes-other 8 x a p (set_vaddr a s (set_prev a x (set_next a 0 r))) (omega arith)
          ∙ write_bytes-other 8 (u64 (a + 16)) s p (set_prev a x (set_next a 0 r)) (omega arith)
          ∙ write_bytes-other 8 (u64 (a + 8)) x p (set_next a 0 r) (omega arith)
          ∙ write_bytes-other 8 a 0 p r (omega arith))

  pub appended-next_last : next_of x (appended x a s r) ≡ a
  appended-next_last =
      read64-write64 x a (set_vaddr a s (set_prev a x (set_next a 0 r))) (omega arith)

  pub appended-vaddr : vaddr_of a (appended x a s r) ≡ s
  appended-vaddr =
      read_bytes-write_bytes_other 8 (u64 (a + 16)) 8 x a
        (set_vaddr a s (set_prev a x (set_next a 0 r))) (omega arith)
      ∙ read64-write64 (u64 (a + 16)) s (set_prev a x (set_next a 0 r)) (omega arith)

  pub appended-prev : prev_of a (appended x a s r) ≡ x
  appended-prev =
      read_bytes-write_bytes_other 8 (u64 (a + 8)) 8 x a
        (set_vaddr a s (set_prev a x (set_next a 0 r))) (omega arith)
      ∙ read_bytes-write_bytes_other 8 (u64 (a + 8)) 8 (u64 (a + 16)) s
          (set_prev a x (set_next a 0 r)) (omega arith)
      ∙ read64-write64 (u64 (a + 8)) x (set_next a 0 r) (omega arith)

  pub appended-next : next_of a (appended x a s r) ≡ 0
  appended-next =
      read_bytes-write_bytes_other 8 a 8 x a (set_vaddr a s (set_prev a x (set_next a 0 r)))
        (omega arith)
      ∙ read_bytes-write_bytes_other 8 a 8 (u64 (a + 16)) s (set_prev a x (set_next a 0 r))
          (omega arith)
      ∙ read_bytes-write_bytes_other 8 a 8 (u64 (a + 8)) x (set_next a 0 r) (omega arith)
      ∙ read64-write64 a 0 r (omega arith)

pub mem_alloc-last :
    (depth walk size align x : ℕ) (m : Machine)
    → find_place walk size align m.heap.mem_list_start (ram m) ≡ some (last x)
    → mem_alloc (suc depth) walk size align m ≡ append_block (mem_alloc depth walk) size align x m
unfolding mem_alloc alloc_step
mem_alloc-last depth walk size align x m f = rw (f, mem_alloc, alloc_step) refl

-- Where the walk of a list of blocks ends at the last one, at tail `x`, and the pages up to the end
-- of the new tail are mapped, with no overflow of the addresses, `mem_alloc` returns an
-- address at most `align` bytes behind the end of that tail and, unless `align` is 0, a multiple of it:
-- the new block is the last of the list, and no byte has changed but those of its tail and of the link
-- to it, nor have the paging globals or the cursor.
pub mem_alloc-Appends :
    (depth walk size align x : ℕ) (m : Machine) (b : Block) (bs : List Block)
    → Linked (ram m) 0 0 m.heap.mem_list_start (b ∷ bs)
    → find_place walk size align m.heap.mem_list_start (ram m) ≡ some (last x)
    → x + align + size + 0x1030 < 2 ^ 64
    → AllMapped m (x - 0xFFF) (x + align + size + 48)
    → Appends m b bs x size align (mem_alloc (suc depth) walk size align m)
mem_alloc-Appends depth walk size align x m b bs h f room all =
    let step : u64 (x + 24) ≡ x + 24 = omega arith in
    let s = align_start (x + 24) align in
    let at = align_start_lem (x + 24) align (omega arith) in
    let checked =
      mem_alloc_check_page-mapped (mem_alloc depth walk) s (s + size + 24) m (omega arith)
        (omega (arith, at.1))
        (λ q lo hi al. all q (omega (arith, at.0)) (omega (arith, at.1)) al) in
    let below : s + size + 24 ≤ 2 ^ 64 = omega (arith, at.1) in
    let order : s ≤ s + size = omega arith in
    (
      s,
      with_ram (appended x (s + size) s (ram m)) (with_paddr m checked.0),
      mem_alloc-last depth walk size align x m f
          ∙ append_block-appended (mem_alloc depth walk) size align x s m (with_paddr m checked.0)
              (ap (λ (t : ℕ). align_start t align) step) (omega (arith, at.1)) checked.1,
      at.0,
      at.2,
      Linked-append (ram m) (appended x (s + size) s (ram m)) x (s + size) s at.0 order below
          (λ p lo out. appended-other x s (s + size) (ram m) at.0 order below p out (inl lo))
          (appended-next_last x s (s + size) (ram m) at.0 order below)
          (appended-prev x s (s + size) (ram m) at.0 order below)
          (appended-vaddr x s (s + size) (ram m) at.0 order below)
          (appended-next x s (s + size) (ram m) at.0 order below) 0 0 m.heap.mem_list_start b bs h
          (find_place-last walk size align 0 0 m.heap.mem_list_start (ram m) b bs x h f),
      λ p ox oa. appended-other x s (s + size) (ram m) at.0 order below p ox oa,
      refl,
      at.1,
      (refl, refl),
    )
