-- ===== src/Alloc/Chain.antt =====
-- The list of tails as a list of blocks, in the order of their addresses.
use os_v.Base.{
  ℕ, zero, suc, ◌+◌, ◌^◌, ◌≤◌, ◌<◌, ◌≡◌, ◌⊎◌, inl, inr, some, List, [], ◌∷◌, ◌++◌, arith,
  Bool-cases, u64, length, Without, ◌∙◌,
}
use os_v.Memory.{Mem, read8, read64}
use os_v.Memory.Laws.{read_bytes_cong}
use os_v.Alloc.{next_of, prev_of, vaddr_of, Place, gap, last, align_start, fits_before, find_place}

pub record Block : Type 0 where
  pub start : ℕ
  pub tail : ℕ

-- From `e` on the tails in memory are those of the blocks: linked both ways, each behind its block,
-- and the blocks in order with room between them for the tails.
abbrev pub Linked : Mem → ℕ → ℕ → ℕ → List Block → Type 0
Linked m lo prev e [] = e ≡ 0
Linked m lo prev e (b ∷ bs) =
    (e ≡ b.tail)
    × (prev_of b.tail m ≡ prev)
    × (vaddr_of b.tail m ≡ b.start)
    × (lo ≤ b.start)
    × (b.start ≤ b.tail)
    × (0 < b.tail)
    × (b.tail + 24 ≤ 2 ^ 64)
    × Linked m (b.tail + 24) b.tail (next_of b.tail m) bs

-- A statement on each block of a list.
abbrev pub AllBlocks : (Block → Type 0) → List Block → Type 0
AllBlocks P bs = (c : Block) (more : List Block) → Without c bs more → P c

abbrev pub last_tail : Block → List Block → ℕ
last_tail b [] = b.tail
last_tail b (c ∷ bs) = last_tail c bs

pub tail-le-last :
    (m : Mem) (lo prev e : ℕ) (b : Block) (bs : List Block)
    → Linked m lo prev e (b ∷ bs)
    → b.tail ≤ last_tail b bs
tail-le-last m lo prev e b [] h = omega arith
tail-le-last m lo prev e b (c ∷ bs) h =
    let ih = tail-le-last m (b.tail + 24) b.tail (next_of b.tail m) c bs h.7 in
    let r = h.7 in omega (arith, ih, r.3, r.4)

pub last_room :
    (m : Mem) (lo prev e : ℕ) (b : Block) (bs : List Block)
    → Linked m lo prev e (b ∷ bs)
    → (0 < last_tail b bs) × (last_tail b bs + 24 ≤ 2 ^ 64)
last_room m lo prev e b [] h = (h.5, h.6)
last_room m lo prev e b (c ∷ bs) h = last_room m (b.tail + 24) b.tail (next_of b.tail m) c bs h.7

-- Where no block fits between two others, the walk ends at the last tail.
pub find_place-last :
    (fuel size align lo prev e : ℕ) (m : Mem) (b : Block) (bs : List Block) (x : ℕ)
    → Linked m lo prev e (b ∷ bs)
    → find_place fuel size align e m ≡ some (last x)
    → x ≡ last_tail b bs
unfolding find_place
find_place-last zero size align lo prev e m b bs x h f = absurd (ground arith)
find_place-last (suc fuel) size align lo prev e m b [] x h f =
    let r = h.7 in let at = h.0 in ground arith
find_place-last (suc fuel) size align lo prev e m b (c ∷ bs) x h f =
    let r = h.7 in
    let at = h.0 in
    let ih = find_place-last fuel size align (b.tail + 24) b.tail (next_of b.tail m) m c bs x r in
    ih (ground arith)

-- The walk of `mem_alloc` over a list of blocks ends where it has fuel for each of them.
pub find_place_total :
    (fuel size align lo prev e : ℕ) (m : Mem) (b : Block) (bs : List Block)
    → Linked m lo prev e (b ∷ bs)
    → length bs < fuel
    → (p : Place) × (find_place fuel size align e m ≡ some p)
unfolding find_place
find_place_total zero size align lo prev e m b bs h enough = absurd (omega arith)
find_place_total (suc fuel) size align lo prev e m b [] h enough =
    elim (Bool-cases (fits_before size align e m)) [
      | inl fits ↦ (gap e (align_start (u64 (prev_of e m + 24)) align), rw fits)
      | inr full ↦ (last e, let r = h.7 in let at = h.0 in ground arith)
    ]
find_place_total (suc fuel) size align lo prev e m b (c ∷ bs) h enough =
    let r = h.7 in
    let at = h.0 in
    elim (Bool-cases (fits_before size align e m)) [
      | inl fits ↦ (gap e (align_start (u64 (prev_of e m + 24)) align), rw fits)
      | inr full ↦
          let ih =
            find_place_total fuel size align (b.tail + 24) b.tail (next_of b.tail m) m c bs r
              (omega arith) in
          (ih.0, ground (arith, ih.1))
    ]

-- A change of memory that leaves the tails as they are, but for the `next` of the last one, which
-- now points to a new tail behind it.
module _ (m m' : Mem) (x a s : ℕ) (room : x + 24 ≤ s) (order : s ≤ a) (below : a + 24 ≤ 2 ^ 64)
    (kept : (p : ℕ) → p < a → (p < x) ⊎ (x + 8 ≤ p) → read8 p m' ≡ read8 p m)
    (links : next_of x m' ≡ a) (back : prev_of a m' ≡ x) (owner : vaddr_of a m' ≡ s)
    (end : next_of a m' ≡ 0) where
  word_kept : (p : ℕ) → p + 8 ≤ a → (p + 8 ≤ x) ⊎ (x + 8 ≤ p) → read64 p m' ≡ read64 p m
  word_kept p hp out = read_bytes_cong 8 p m' m λ q lo hi. kept q (omega arith) (omega arith)

  pub Linked-append :
      (lo prev e : ℕ) (b : Block) (bs : List Block)
      → Linked m lo prev e (b ∷ bs)
      → x ≡ last_tail b bs
      → Linked m' lo prev e ((b ∷ bs) ++ record { start = s; tail = a } ∷ [])
  Linked-append lo prev e b [] h is = (
    h.0,
    word_kept (u64 (b.tail + 8)) (omega arith) (omega arith) ∙ h.1,
    word_kept (u64 (b.tail + 16)) (omega arith) (omega arith) ∙ h.2,
    h.3,
    h.4,
    h.5,
    h.6,
    (rw (← is) links, back ∙ is, owner, omega arith, order, omega arith, below, end),
  )
  Linked-append lo prev e b (c ∷ bs) h is =
      let r = h.7 in
      let up = tail-le-last m (b.tail + 24) b.tail (next_of b.tail m) c bs r in
      let before : b.tail + 24 ≤ x = omega (arith, up, r.3, r.4) in
      let ih = Linked-append (b.tail + 24) b.tail (next_of b.tail m) c bs r is in
      (
        h.0,
        word_kept (u64 (b.tail + 8)) (omega arith) (omega arith) ∙ h.1,
        word_kept (u64 (b.tail + 16)) (omega arith) (omega arith) ∙ h.2,
        h.3,
        h.4,
        h.5,
        h.6,
        (
          word_kept b.tail (omega arith) (omega arith) ∙ ih.0,
          ih.1,
          ih.2,
          ih.3,
          ih.4,
          ih.5,
          ih.6,
          ih.7,
        ),
      )
