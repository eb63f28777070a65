-- ===== src/Alloc/Free.antt =====
-- `mem_free`: of a block between two others, and of an address that is not that of a block.
use os_v.Base.{
  ℕ, zero, suc, ◌+◌, ◌%◌, ◌^◌, ◌≤◌, ◌<◌, ◌≡◌, ◌≢◌, refl, ◌⊎◌, Bool, true, false, none, some, List,
  [], ◌∷◌, ◌++◌, arith, ne→==, eq→==, u64, length, ◌∙◌, ap, sym,
}
use mathlib.Core.Path.{subst}
use os_v.Memory.{Mem, read8}
use os_v.Memory.Laws.{read_bytes-write_bytes_other, read64-write64, write_bytes-other}
use os_v.Machine.{Machine, ram, with_ram, Run, done}
use os_v.Alloc.{next_of, vaddr_of, set_next, set_prev, find_block, unlink, mem_free}
use os_v.Alloc.Chain.{Block, Linked}
use os_v.Alloc.Relink.{Neighbours, neighbours, Linked-unlink}

-- The walk of `mem_free` finds the block that starts at an address.
pub find_block-found :
    (before : List Block) (y : Block) (after : List Block) (fuel lo prev e : ℕ) (m : Mem)
    → Linked m lo prev e (before ++ y ∷ after)
    → length before < fuel
    → (lo ≤ y.start) × (find_block fuel y.start e m ≡ some (some y.tail))
unfolding find_block
find_block-found before y after zero lo prev e m h enough = absurd (omega arith)
find_block-found [] y after (suc fuel) lo prev e m h enough =
    let at = h.0 in
    let owner = h.2 in
    let pos = h.5 in
    (
      h.3,
      rw at rw (ne→== y.tail 0 (λ is. omega (arith, is, pos))) rw
          (eq→== (vaddr_of y.tail m) y.start owner) refl,
    )
find_block-found (b ∷ before) y after (suc fuel) lo prev e m h enough =
    let at = h.0 in
    let owner = h.2 in
    let low = h.3 in
    let order = h.4 in
    let pos = h.5 in
    let ih =
      find_block-found before y after fuel (b.tail + 24) b.tail (next_of b.tail m) m h.7
        (omega arith) in
    let far = ih.0 in
    let differs : vaddr_of b.tail m ≢ y.start = λ is. omega (arith, is, owner, order, far) in
    (
      omega (arith, low, order, far),
      rw at rw (ne→== b.tail 0 (λ is. omega (arith, is, pos))) rw
          (ne→== (vaddr_of b.tail m) y.start differs) ih.1,
    )

unlink-eq :
    (m : Mem) (left y right : Block)
    → Neighbours m left y right
    → unlink y.tail m ≡ set_prev right.tail left.tail (set_next left.tail right.tail m)
unfolding unlink
unlink-eq m left y right n =
    let n0 = n.below_y in
    let n1 = n.below_right in
    let n2 = n.room in
    let next =
      read_bytes-write_bytes_other 8 y.tail 8 left.tail right.tail m (omega arith) ∙ n.next_eq in
    let prev =
      read_bytes-write_bytes_other 8 (u64 (y.tail + 8)) 8 left.tail right.tail m (omega arith)
      ∙ n.prev_eq in
    rw n.prev_eq rw n.next_eq rw next rw prev refl

relinked-other :
    (m : Mem) (l r : ℕ)
    → r + 24 ≤ 2 ^ 64
    → (q : ℕ) → (q < l) ⊎ (l + 8 ≤ q)
    → (q < r + 8) ⊎ (r + 16 ≤ q)
    → read8 q (set_prev r l (set_next l r m)) ≡ read8 q m
relinked-other m l r room q ol or_ =
    ap (λ (t : ℕ). t % 256)
      (write_bytes-other 8 (u64 (r + 8)) l q (set_next l r m) (omega arith)
        ∙ write_bytes-other 8 l r q m (omega arith))

relinked-next :
    (m : Mem) (l r : ℕ)
    → l + 24 ≤ r
    → r + 24 ≤ 2 ^ 64
    → next_of l (set_prev r l (set_next l r m)) ≡ r
relinked-next m l r apart room =
    read_bytes-write_bytes_other 8 l 8 (u64 (r + 8)) l (set_next l r m) (omega arith)
    ∙ read64-write64 l r m (omega arith)

pub snoc : (xs : List Block) (x : Block) (ys : List Block) → (xs ++ x ∷ []) ++ ys ≡ xs ++ x ∷ ys
snoc [] x ys = refl
snoc (z ∷ xs) x ys = ap (λ (t : List Block). z ∷ t) (snoc xs x ys)

pub length-snoc : (xs : List Block) (x : Block) → length (xs ++ x ∷ []) ≡ length xs + 1
length-snoc [] x = refl
length-snoc (z ∷ xs) x = omega (arith, length-snoc xs x)

-- What `mem_free` does with a block `y` between two others: it returns 0, the list is then the old
-- one without `y`, and no byte changes but those of the two links around it.
abbrev pub Frees : Machine → List Block → Block → Block → List Block → Run Bool → Type 0
Frees m before left right after out =
    (m' : Machine) × (out ≡ done true m')
    × Linked (ram m') 0 0 m'.heap.mem_list_start (before ++ left ∷ right ∷ after)
    × ((q : ℕ)
        → (q < left.tail) ⊎ (left.tail + 8 ≤ q)
        → (q < right.tail + 8) ⊎ (right.tail + 16 ≤ q)
        → read8 q (ram m') ≡ read8 q (ram m))

pub mem_free-found :
    (walk addr entry : ℕ) (m : Machine)
    → find_block walk addr m.heap.mem_list_start (ram m) ≡ some (some entry)
    → mem_free walk addr m ≡ done true (with_ram (unlink entry (ram m)) m)
unfolding mem_free
mem_free-found walk addr entry m h = rw (h, mem_free) refl

-- `mem_free` of the start of a block between two others of a well-formed list, with fuel for the
-- blocks up to it, frees that block.
pub mem_free-Frees :
    (walk : ℕ) (m : Machine) (before after : List Block) (left y right : Block)
    → Linked (ram m) 0 0 m.heap.mem_list_start (before ++ left ∷ y ∷ right ∷ after)
    → length before + 1 < walk
    → Frees m before left right after (mem_free walk y.start m)
mem_free-Frees walk m before after left y right h enough =
    let at = neighbours before after left y right 0 0 m.heap.mem_list_start (ram m) h in
    let n0 = at.below_y in
    let n1 = at.below_right in
    let n2 = at.room in
    let same = unlink-eq (ram m) left y right at in
    let found =
      find_block-found (before ++ left ∷ []) y (right ∷ after) walk 0 0 m.heap.mem_list_start
        (ram m)
        (subst (λ (t : List Block). Linked (ram m) 0 0 m.heap.mem_list_start t)
          (sym (snoc before left (y ∷ right ∷ after))) h)
        (omega (arith, length-snoc before left)) in
    let run = mem_free-found walk y.start y.tail m found.1 in
    let changed : Mem = set_prev right.tail left.tail (set_next left.tail right.tail (ram m)) in
    let kept = relinked-other (ram m) left.tail right.tail (omega arith) in
    (
      with_ram changed m,
      run ∙ ap (λ (t : Mem). done true (with_ram t m)) same,
      Linked-unlink (ram m) changed left y right after kept
          (relinked-next (ram m) left.tail right.tail (omega arith) (omega arith))
          (read64-write64 (u64 (right.tail + 8)) left.tail (set_next left.tail right.tail (ram m))
            (omega arith))
          before 0 0 m.heap.mem_list_start h,
      kept,
    )

-- No block of the list starts at an address.
abbrev pub Absent : ℕ → List Block → Type 0
Absent addr [] = Unit {0}
Absent addr (b ∷ bs) = (b.start ≢ addr) × Absent addr bs

find_block-none :
    (bs : List Block) (fuel addr lo prev e : ℕ) (m : Mem)
    → Linked m lo prev e bs
    → Absent addr bs
    → length bs < fuel
    → find_block fuel addr e m ≡ some none
unfolding find_block
find_block-none bs zero addr lo prev e m h a enough = absurd (omega arith)
find_block-none [] (suc fuel) addr lo prev e m h a enough = rw h refl
find_block-none (b ∷ bs) (suc fuel) addr lo prev e m h a enough =
    let at = h.0 in
    let owner = h.2 in
    let pos = h.5 in
    let other = a.0 in
    let differs : vaddr_of b.tail m ≢ addr = λ is. other (sym owner ∙ is) in
    rw at rw (ne→== b.tail 0 (λ is. omega (arith, is, pos))) rw
      (ne→== (vaddr_of b.tail m) addr differs)
      (find_block-none bs fuel addr (b.tail + 24) b.tail (next_of b.tail m) m h.7 a.1 (omega arith))

-- `mem_free` of an address at which no block of the list starts returns 1 and changes nothing, with
-- fuel for the blocks and one.
pub mem_free-Absent :
    (walk addr : ℕ) (m : Machine) (bs : List Block)
    → Linked (ram m) 0 0 m.heap.mem_list_start bs
    → Absent addr bs
    → length bs < walk
    → mem_free walk addr m ≡ done false m
unfolding mem_free
mem_free-Absent walk addr m bs h a enough =
    rw (find_block-none bs walk addr 0 0 m.heap.mem_list_start (ram m) h a enough, mem_free) refl
