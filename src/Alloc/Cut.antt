-- ===== src/Alloc/Cut.antt =====
-- `mem_free` of the last block of the list. Its `next` is 0, and the code writes through it: to the
-- eight bytes from address 8 on.
use os_v.Base.{
  ℕ, ◌+◌, ◌%◌, ◌^◌, ◌≤◌, ◌<◌, ◌≡◌, refl, ◌⊎◌, inr, Bool, true, List, [], ◌∷◌, ◌++◌, arith, u64,
  length, ◌∙◌, ap, sym,
}
use mathlib.Core.Path.{subst}
use os_v.Memory.{Mem, read8, read64}
use os_v.Memory.Laws.{
  read_bytes_cong, read_bytes-write_bytes_other, read64-write64, write_bytes-other,
}
use os_v.Machine.{Machine, ram, with_ram, Run, done}
use os_v.Alloc.{next_of, prev_of, set_next, set_prev, unlink, mem_free}
use os_v.Alloc.Chain.{Block, Linked}
use os_v.Alloc.Relink.{lo-le-tail}
use os_v.Alloc.Free.{find_block-found, mem_free-found, snoc, length-snoc}

-- What stands at the end of a list.
record End (m : Mem) (left y : Block) : Type 0 where
  below : left.tail + 24 ≤ y.tail
  room : y.tail + 24 ≤ 2 ^ 64
  prev_eq : prev_of y.tail m ≡ left.tail
  next_eq : next_of y.tail m ≡ 0

end_of :
    (before : List Block) (left y : Block) (lo prev e : ℕ) (m : Mem)
    → Linked m lo prev e (before ++ left ∷ y ∷ [])
    → End m left y
end_of [] left y lo prev e m h =
    let second = h.7 in
    record {
      below = omega (arith, second.3, second.4);
      room = second.6;
      prev_eq = second.1;
      next_eq = second.7;
    }
end_of (b ∷ before) left y lo prev e m h =
    end_of before left y (b.tail + 24) b.tail (next_of b.tail m) m h.7

-- A change of memory that takes the last tail off: the one before it points nowhere, and the bytes
-- below address 16 are any.
module _ (m m' : Mem) (left y : Block)
    (kept : (q : ℕ) → 16 ≤ q → (q < left.tail) ⊎ (left.tail + 8 ≤ q) → read8 q m' ≡ read8 q m)
    (links : next_of left.tail m' ≡ 0) where
  word_kept :
      (a : ℕ) → 16 ≤ a → (a + 8 ≤ left.tail) ⊎ (left.tail + 8 ≤ a) → read64 a m' ≡ read64 a m
  word_kept a low out = read_bytes_cong 8 a m' m λ q lo hi. kept q (omega arith) (omega arith)

  Linked-cut :
      (before : List Block) (lo prev e : ℕ)
      → 16 ≤ lo
      → Linked m lo prev e (before ++ left ∷ y ∷ [])
      → Linked m' lo prev e (before ++ left ∷ [])
  Linked-cut [] lo prev e low h =
      let at = h.3 in
      let order = h.4 in
      let end = h.6 in
      (
        h.0,
        word_kept (u64 (left.tail + 8)) (omega arith) (omega arith) ∙ h.1,
        word_kept (u64 (left.tail + 16)) (omega arith) (omega arith) ∙ h.2,
        h.3,
        h.4,
        h.5,
        h.6,
        links,
      )
  Linked-cut (b ∷ before) lo prev e low h =
      let at = h.3 in
      let order = h.4 in
      let end = h.6 in
      let above = lo-le-tail before left (y ∷ []) (b.tail + 24) b.tail (next_of b.tail m) m h.7 in
      let ih = Linked-cut before (b.tail + 24) b.tail (next_of b.tail m) (omega arith) h.7 in
      (
        h.0,
        word_kept (u64 (b.tail + 8)) (omega arith) (omega arith) ∙ h.1,
        word_kept (u64 (b.tail + 16)) (omega arith) (omega arith) ∙ h.2,
        h.3,
        h.4,
        h.5,
        h.6,
        subst (λ (t : ℕ). Linked m' (b.tail + 24) b.tail t (before ++ left ∷ []))
            (sym (word_kept b.tail (omega arith) (omega arith))) ih,
      )

-- The first block starts at `n` or above.
abbrev pub StartsFrom : ℕ → List Block → Type 0
StartsFrom n [] = Unit {0}
StartsFrom n (b ∷ bs) = n ≤ b.start

pub Linked-from :
    (bs : List Block) (lo lo' prev e : ℕ) (m : Mem)
    → StartsFrom lo' bs
    → Linked m lo prev e bs
    → Linked m lo' prev e bs
Linked-from [] lo lo' prev e m from h = h
Linked-from (b ∷ bs) lo lo' prev e m from h = (h.0, h.1, h.2, from, h.4, h.5, h.6, h.7)

StartsFrom-zero : (bs : List Block) → StartsFrom 0 bs
StartsFrom-zero [] = tt
StartsFrom-zero (b ∷ bs) = omega arith

-- The memory behind the unlinking of the last tail.
abbrev cut : ℕ → Mem → Mem
cut l r = set_prev 0 l (set_next l 0 r)

unlink-cut : (m : Mem) (left y : Block) → End m left y → unlink y.tail m ≡ cut left.tail m
unfolding unlink
unlink-cut m left y n =
    let n0 = n.below in
    let n1 = n.room in
    let next = read_bytes-write_bytes_other 8 y.tail 8 left.tail 0 m (omega arith) ∙ n.next_eq in
    let prev =
      read_bytes-write_bytes_other 8 (u64 (y.tail + 8)) 8 left.tail 0 m (omega arith) ∙ n.prev_eq in
    rw n.prev_eq rw n.next_eq rw next rw prev refl

cut-other :
    (m : Mem) (l q : ℕ)
    → l + 24 ≤ 2 ^ 64
    → (q < 8) ⊎ (16 ≤ q)
    → (q < l) ⊎ (l + 8 ≤ q)
    → read8 q (cut l m) ≡ read8 q m
cut-other m l q room low out =
    ap (λ (t : ℕ). t % 256)
      (write_bytes-other 8 (u64 8) l q (set_next l 0 m) (omega arith)
        ∙ write_bytes-other 8 l 0 q m (omega arith))

cut-next : (m : Mem) (l : ℕ) → 16 ≤ l → l + 24 ≤ 2 ^ 64 → next_of l (cut l m) ≡ 0
cut-next m l low room =
    read_bytes-write_bytes_other 8 l 8 (u64 8) l (set_next l 0 m) (omega arith)
    ∙ read64-write64 l 0 m (omega arith)

-- What `mem_free` does with the last block of several: it returns 0, the list is then the old one
-- without the block, and no byte changes but those of the link before it and the bytes 8 to 15,
-- which get the address of the tail before it.
abbrev pub CutsOff : Machine → List Block → Block → Run Bool → Type 0
CutsOff m before left out =
    (m' : Machine) × (out ≡ done true m')
    × Linked (ram m') 0 0 m'.heap.mem_list_start (before ++ left ∷ [])
    × ((q : ℕ)
        → (q < 8) ⊎ (16 ≤ q)
        → (q < left.tail) ⊎ (left.tail + 8 ≤ q)
        → read8 q (ram m') ≡ read8 q (ram m))
    × (read64 8 (ram m') ≡ left.tail)
    × (m'.heap.mem_list_start ≡ m.heap.mem_list_start)

-- `mem_free` of the start of the last block of a well-formed list of two or more that does not begin
-- below address 16, with fuel for the blocks up to it, cuts that block off.
pub mem_free-CutsOff :
    (walk : ℕ) (m : Machine) (before : List Block) (left y : Block)
    → Linked (ram m) 0 0 m.heap.mem_list_start (before ++ left ∷ y ∷ [])
    → StartsFrom 16 (before ++ left ∷ y ∷ [])
    → length before + 1 < walk
    → CutsOff m before left (mem_free walk y.start m)
mem_free-CutsOff walk m before left y h from enough =
    let at = end_of before left y 0 0 m.heap.mem_list_start (ram m) h in
    let n0 = at.below in
    let n1 = at.room in
    let h16 = Linked-from (before ++ left ∷ y ∷ []) 0 16 0 m.heap.mem_list_start (ram m) from h in
    let low = lo-le-tail before left (y ∷ []) 16 0 m.heap.mem_list_start (ram m) h16 in
    let found =
      find_block-found (before ++ left ∷ []) y [] walk 0 0 m.heap.mem_list_start (ram m)
        (subst (λ (t : List Block). Linked (ram m) 0 0 m.heap.mem_list_start t)
          (sym (snoc before left (y ∷ []))) h)
        (omega (arith, length-snoc before left)) in
    let kept = λ (q : ℕ). cut-other (ram m) left.tail q (omega arith) in
    let links = cut-next (ram m) left.tail low (omega arith) in
    let after =
      Linked-cut (ram m) (cut left.tail (ram m)) left y (λ q lo out. kept q (inr lo) out) links
        before 16 0 m.heap.mem_list_start (omega arith) h16 in
    (
      with_ram (cut left.tail (ram m)) m,
      mem_free-found walk y.start y.tail m found.1
          ∙ ap (λ (t : Mem). done true (with_ram t m)) (unlink-cut (ram m) left y at),
      Linked-from (before ++ left ∷ []) 16 0 0 m.heap.mem_list_start (cut left.tail (ram m))
          (StartsFrom-zero (before ++ left ∷ [])) after,
      kept,
      read64-write64 (u64 8) left.tail (set_next left.tail 0 (ram m)) (omega arith),
      refl,
    )
