-- ===== src/Alloc/Insert.antt =====
-- `mem_alloc` where the block goes between two others.
use os_v.Base.{
  ℕ, suc, ◌+◌, ◌-◌, ◌*◌, ◌%◌, ◌^◌, ◌≤◌, ◌<◌, ◌≡◌, ◌≢◌, refl, ◌⊎◌, some, List, ◌∷◌, ◌++◌, arith, u64,
  ◌∙◌, ap,
}
use os_v.Memory.{Mem, read8, read64}
use os_v.Memory.Laws.{read_bytes-write_bytes_other, read64-write64, write_bytes-other}
use os_v.Machine.{Machine, ram, with_ram, Run, Cmd, done}
use os_v.Alloc.{
  next_of, prev_of, vaddr_of, set_next, set_prev, set_vaddr, align_start, gap, find_place,
  mem_alloc_check_page, insert_block, alloc_step, mem_alloc,
}
use os_v.Alloc.Chain.{Block, Linked}
use os_v.Alloc.Pages.{align_start_lem, AllMapped, with_paddr, mem_alloc_check_page-mapped}
use os_v.Alloc.Gap.{find_place-gap, pair, Linked-insert}

-- The memory behind the inserted block.
abbrev inserted : ℕ → ℕ → ℕ → ℕ → Mem → Mem
inserted x a s y r = set_prev y a (set_next x a (set_vaddr a s (set_prev a x (set_next a y r))))

module _ (x a s y : ℕ) (r : Mem) (behind : x + 24 ≤ s) (order : s ≤ a) (ahead : a + 24 ≤ y)
    (room : y + 24 ≤ 2 ^ 64) where
  abbrev r1 : Mem
  r1 = set_next a y r

  abbrev r2 : Mem
  r2 = set_prev a x r1

  abbrev r3 : Mem
  r3 = set_vaddr a s r2

  abbrev r4 : Mem
  r4 = set_next x a r3

  inserted-other :
      (q : ℕ)
      → (q < x) ⊎ (x + 8 ≤ q)
      → (q < a) ⊎ (a + 24 ≤ q)
      → (q < y + 8) ⊎ (y + 16 ≤ q)
      → read8 q (inserted x a s y r) ≡ read8 q r
  inserted-other q ox oa oy =
      ap (λ (t : ℕ). t % 256)
        (write_bytes-other 8 (u64 (y + 8)) a q r4 (omega arith)
          ∙ write_bytes-other 8 x a q r3 (omega arith)
          ∙ write_bytes-other 8 (u64 (a + 16)) s q r2 (omega arith)
          ∙ write_bytes-other 8 (u64 (a + 8)) x q r1 (omega arith)
          ∙ write_bytes-other 8 a y q r (omega arith))

  inserted-links : next_of x (inserted x a s y r) ≡ a
  inserted-links =
      read_bytes-write_bytes_other 8 x 8 (u64 (y + 8)) a r4 (omega arith)
      ∙ read64-write64 x a r3 (omega arith)

  inserted-back : prev_of y (inserted x a s y r) ≡ a
  inserted-back = read64-write64 (u64 (y + 8)) a r4 (omega arith)

  -- The last two stores are to the tails around.
  inserted-tail : (p : ℕ) → a ≤ p → p + 8 ≤ a + 24 → read64 p (inserted x a s y r) ≡ read64 p r3
  inserted-tail p lo hi =
      read_bytes-write_bytes_other 8 p 8 (u64 (y + 8)) a r4 (omega arith)
      ∙ read_bytes-write_bytes_other 8 p 8 x a r3 (omega arith)

  inserted-next : next_of a (inserted x a s y r) ≡ y
  inserted-next =
      inserted-tail a (omega arith) (omega arith)
      ∙ read_bytes-write_bytes_other 8 a 8 (u64 (a + 16)) s r2 (omega arith)
      ∙ read_bytes-write_bytes_other 8 a 8 (u64 (a + 8)) x r1 (omega arith)
      ∙ read64-write64 a y r (omega arith)

  inserted-prev : prev_of a (inserted x a s y r) ≡ x
  inserted-prev =
      inserted-tail (u64 (a + 8)) (omega arith) (omega arith)
      ∙ read_bytes-write_bytes_other 8 (u64 (a + 8)) 8 (u64 (a + 16)) s r2 (omega arith)
      ∙ read64-write64 (u64 (a + 8)) x r1 (omega arith)

  inserted-vaddr : vaddr_of a (inserted x a s y r) ≡ s
  inserted-vaddr =
      inserted-tail (u64 (a + 16)) (omega arith) (omega arith)
      ∙ read64-write64 (u64 (a + 16)) s r2 (omega arith)

  -- What the stores to the new tail read of the tail behind it.
  prev_kept1 : prev_of y r1 ≡ prev_of y r
  prev_kept1 = read_bytes-write_bytes_other 8 (u64 (y + 8)) 8 a y r (omega arith)

  prev_kept3 : prev_of y r3 ≡ prev_of y r
  prev_kept3 =
      read_bytes-write_bytes_other 8 (u64 (y + 8)) 8 (u64 (a + 16)) s r2 (omega arith)
      ∙ read_bytes-write_bytes_other 8 (u64 (y + 8)) 8 (u64 (a + 8)) x r1 (omega arith)
      ∙ prev_kept1

insert_block-inserted :
    (alloc : ℕ → ℕ → Cmd ℕ) (size x s y q : ℕ) (m : Machine)
    → x + 24 ≤ s
    → s + 24 * size + 24 ≤ y
    → y + 24 ≤ 2 ^ 64
    → prev_of y (ram m) ≡ x
    → mem_alloc_check_page alloc s (s + 24 * size + 24) m ≡ done tt (with_paddr m q)
    → insert_block alloc size y s m
      ≡ done s (with_ram (inserted x (s + 24 * size) s y (ram m)) (with_paddr m q))
unfolding insert_block
insert_block-inserted alloc size x s y q m behind ahead room is h =
    let a = s + 24 * size in
    let add : u64 (s + 24 * size) ≡ s + 24 * size = omega arith in
    let end : u64 (s + 24 * size + 24) ≡ s + 24 * size + 24 = omega arith in
    let first = prev_kept1 x a s y (ram m) behind (omega arith) ahead room ∙ is in
    let second = prev_kept3 x a s y (ram m) behind (omega arith) ahead room ∙ is in
    rw add rw end rw h rw first rw second refl

mem_alloc-gap :
    (depth walk size align entry start : ℕ) (m : Machine)
    → find_place walk size align m.heap.mem_list_start (ram m) ≡ some (gap entry start)
    → mem_alloc (suc depth) walk size align m
      ≡ insert_block (mem_alloc depth walk) size entry start m
unfolding mem_alloc alloc_step
mem_alloc-gap depth walk size align entry start m f = rw (f, mem_alloc, alloc_step) refl

-- What `mem_alloc` does where it puts the block between two others: the block starts at a multiple of
-- `align` behind the first one's tail, its own tail is `24 * size` bytes further on, the list has the
-- block between the two, and no byte changes but those of its tail and of the two links to it.
abbrev pub Inserts : Machine → List Block → Block → Block → List Block → ℕ → ℕ → ℕ → Run ℕ → Type 0
Inserts m before left right after start size align out =
    (m' : Machine) × (out ≡ done start m')
    × (left.tail + 24 ≤ start)
    × (align ≢ 0 → start % align ≡ 0)
    × (Linked (ram m') 0 0 m'.heap.mem_list_start
        (before ++ left ∷ record { start = start; tail = start + 24 * size } ∷ right ∷ after))
    × ((q : ℕ)
        → (q < left.tail) ⊎ (left.tail + 8 ≤ q)
        → (q < start + 24 * size) ⊎ (start + 24 * size + 24 ≤ q)
        → (q < right.tail + 8) ⊎ (right.tail + 16 ≤ q)
        → read8 q (ram m') ≡ read8 q (ram m))

-- Where the walk of a list of blocks finds a gap before the block `right`, whose own start is at least
-- `24 * size + 24` bytes behind the start that is found (the test asks for `size + 24` only), and the
-- pages up to the new tail are mapped, with no overflow of the addresses, `mem_alloc` returns the start
-- that is found, which is behind the tail of `left` and, unless `align` is 0, a multiple of it: the
-- list has the new block, with its tail `24 * size` bytes further on, between `left` and `right`, and
-- no byte has changed but those of that tail and of the two links to it.
pub mem_alloc-Inserts :
    (depth walk size align start : ℕ) (m : Machine) (before after : List Block) (left right : Block)
    → Linked (ram m) 0 0 m.heap.mem_list_start (before ++ left ∷ right ∷ after)
    → find_place walk size align m.heap.mem_list_start (ram m) ≡ some (gap right.tail start)
    → start + 24 * size + 24 ≤ right.start
    → left.tail + 24 + align < 2 ^ 64
    → right.start + 0x1000 < 2 ^ 64
    → AllMapped m (start - 0xFFF) (start + 24 * size + 24)
    → Inserts m before left right after start size align (mem_alloc (suc depth) walk size align m)
mem_alloc-Inserts depth walk size align start m before after left right h f fits room room' all =
    let a = start + 24 * size in
    let order : start ≤ a = omega arith in
    let two = pair before after left right 0 0 m.heap.mem_list_start (ram m) h in
    let inside = two.inside in
    let ends = two.room in
    let found = find_place-gap walk size align m.heap.mem_list_start right.tail start (ram m) f in
    let left_at = two.prev_eq in
    let first : u64 (prev_of right.tail (ram m) + 24) ≡ left.tail + 24 =
      omega (arith, left_at, room) in
    let at = align_start_lem (left.tail + 24) align room in
    let is : start ≡ align_start (left.tail + 24) align =
      found.1 ∙ ap (λ (t : ℕ). align_start t align) first in
    let behind : left.tail + 24 ≤ start = omega (arith, is, at.0) in
    let ahead : a + 24 ≤ right.tail = omega (arith, fits, inside) in
    let checked =
      mem_alloc_check_page-mapped (mem_alloc depth walk) start (a + 24) m (omega arith)
        (omega (arith, fits, room')) all in
    (
      with_ram (inserted left.tail a start right.tail (ram m)) (with_paddr m checked.0),
      mem_alloc-gap depth walk size align right.tail start m f
          ∙ insert_block-inserted (mem_alloc depth walk) size left.tail start right.tail checked.0 m
              behind ahead ends left_at checked.1,
      behind,
      λ ne. rw is (at.2 ne),
      Linked-insert (ram m) (inserted left.tail a start right.tail (ram m)) left right after start a
          behind order fits
          (inserted-other left.tail a start right.tail (ram m) behind order ahead ends)
          (inserted-links left.tail a start right.tail (ram m) behind order ahead ends)
          (inserted-next left.tail a start right.tail (ram m) behind order ahead ends)
          (inserted-prev left.tail a start right.tail (ram m) behind order ahead ends)
          (inserted-vaddr left.tail a start right.tail (ram m) behind order ahead ends)
          (inserted-back left.tail a start right.tail (ram m) behind order ahead ends) before 0 0
          m.heap.mem_list_start h,
      inserted-other left.tail a start right.tail (ram m) behind order ahead ends,
    )
