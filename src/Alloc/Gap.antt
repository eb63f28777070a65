-- ===== src/Alloc/Gap.antt =====
-- A gap of the list of `mem_alloc`: where the walk finds it, and the list with a tail put into it.
use os_v.Base.{
  ℕ, zero, suc, ◌+◌, ◌^◌, ◌≤◌, ◌<◌, ◌≡◌, ◌⊎◌, inl, inr, true, some, List, [], ◌∷◌, ◌++◌, arith,
  Bool-cases, ◌==◌, u64, ◌∙◌, sym,
}
use mathlib.Core.Path.{subst}
use os_v.Memory.{Mem, read8, read64}
use os_v.Memory.Laws.{read_bytes_cong}
use os_v.Alloc.{next_of, prev_of, vaddr_of, align_start, fits_before, gap, find_place}
use os_v.Alloc.Chain.{Block, Linked}
use os_v.Alloc.Relink.{Linked-above, lo-le-tail}

-- The gap that the walk finds is one where the test holds.
pub find_place-gap :
    (fuel size align e entry start : ℕ) (m : Mem)
    → find_place fuel size align e m ≡ some (gap entry start)
    → (fits_before size align entry m ≡ true)
      × (start ≡ align_start (u64 (prev_of entry m + 24)) align)
unfolding find_place
find_place-gap zero size align e entry start m f = absurd (ground arith)
find_place-gap (suc fuel) size align e entry start m f =
    elim (Bool-cases (fits_before size align e m)) [
      | inl fits ↦
          let same : e ≡ entry = ground arith in
          let at : align_start (u64 (prev_of e m + 24)) align ≡ start = ground arith in
          (rw (← same) fits, rw (← same) (sym at))
      | inr full ↦ elim (Bool-cases (next_of e m == 0)) [
        | inl end ↦ absurd (ground arith)
        | inr more ↦ find_place-gap fuel size align (next_of e m) entry start m (ground arith)
      ]
    ]

-- Two blocks of a list, one behind the other.
pub record Pair (m : Mem) (left right : Block) : Type 0 where
  pub order : left.tail + 24 ≤ right.start
  pub inside : right.start ≤ right.tail
  pub room : right.tail + 24 ≤ 2 ^ 64
  pub prev_eq : prev_of right.tail m ≡ left.tail
  pub vaddr_eq : vaddr_of right.tail m ≡ right.start

pub pair :
    (before after : List Block) (left right : Block) (lo prev e : ℕ) (m : Mem)
    → Linked m lo prev e (before ++ left ∷ right ∷ after)
    → Pair m left right
pair [] after left right lo prev e m h =
    let r = h.7 in record { order = r.3; inside = r.4; room = r.6; prev_eq = r.1; vaddr_eq = r.2 }
pair (b ∷ before) after left right lo prev e m h =
    pair before after left right (b.tail + 24) b.tail (next_of b.tail m) m h.7

-- A change of memory that puts a tail at `a` between those of two blocks.
module _ (m m' : Mem) (left right : Block) (after : List Block) (s a : ℕ)
    (behind : left.tail + 24 ≤ s) (order : s ≤ a) (ahead : a + 24 ≤ right.start)
    (kept : (q : ℕ)
      → (q < left.tail) ⊎ (left.tail + 8 ≤ q)
      → (q < a) ⊎ (a + 24 ≤ q)
      → (q < right.tail + 8) ⊎ (right.tail + 16 ≤ q)
      → read8 q m' ≡ read8 q m)
    (links : next_of left.tail m' ≡ a) (next_eq : next_of a m' ≡ right.tail)
    (prev_eq : prev_of a m' ≡ left.tail) (vaddr_eq : vaddr_of a m' ≡ s)
    (back : prev_of right.tail m' ≡ a) where
  word_kept :
      (p : ℕ)
      → (p + 8 ≤ left.tail) ⊎ (left.tail + 8 ≤ p)
      → (p + 8 ≤ a) ⊎ (a + 24 ≤ p)
      → (p + 8 ≤ right.tail + 8) ⊎ (right.tail + 16 ≤ p)
      → read64 p m' ≡ read64 p m
  word_kept p l c r =
      read_bytes_cong 8 p m' m λ q lo hi. kept q (omega arith) (omega arith) (omega arith)

  pub Linked-insert :
      (before : List Block) (lo prev e : ℕ)
      → Linked m lo prev e (before ++ left ∷ right ∷ after)
      → Linked m' lo prev e (before ++ left ∷ record { start = s; tail = a } ∷ right ∷ after)
  Linked-insert [] lo prev e h =
      let second = h.7 in
      let inside = second.4 in
      let room = second.6 in
      let end = word_kept right.tail (omega arith) (omega arith) (omega arith) in
      (
        h.0,
        word_kept (u64 (left.tail + 8)) (omega arith) (omega arith) (omega arith) ∙ h.1,
        word_kept (u64 (left.tail + 16)) (omega arith) (omega arith) (omega arith) ∙ h.2,
        h.3,
        h.4,
        h.5,
        h.6,
        (
          links,
          prev_eq,
          vaddr_eq,
          behind,
          order,
          omega arith,
          omega arith,
          (
            next_eq,
            back,
            word_kept (u64 (right.tail + 16)) (omega arith) (omega arith) (omega arith) ∙ second.2,
            ahead,
            inside,
            second.5,
            room,
            subst (λ (t : ℕ). Linked m' (right.tail + 24) right.tail t after) (sym end)
                (Linked-above m m' after (right.tail + 24) right.tail (next_of right.tail m)
                  (λ q l. kept q (omega arith) (omega arith) (omega arith)) second.7),
          ),
        ),
      )
  Linked-insert (b ∷ before) lo prev e h =
      let low =
        lo-le-tail before left (right ∷ after) (b.tail + 24) b.tail (next_of b.tail m) m h.7 in
      let two = pair before after left right (b.tail + 24) b.tail (next_of b.tail m) m h.7 in
      let inside = two.inside in
      let ih = Linked-insert before (b.tail + 24) b.tail (next_of b.tail m) h.7 in
      let next = word_kept b.tail (omega arith) (omega arith) (omega arith) in
      (
        h.0,
        word_kept (u64 (b.tail + 8)) (omega arith) (omega arith) (omega arith) ∙ h.1,
        word_kept (u64 (b.tail + 16)) (omega arith) (omega arith) (omega arith) ∙ h.2,
        h.3,
        h.4,
        h.5,
        h.6,
        subst
            (λ (t : ℕ).
              Linked m' (b.tail + 24) b.tail t
                (before ++ left ∷ record { start = s; tail = a } ∷ right ∷ after))
            (sym next) ih,
      )
