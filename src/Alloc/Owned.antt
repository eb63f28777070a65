-- ===== src/Alloc/Owned.antt =====
-- Blocks of a linked list, and the allocations that they belong to.
use os_v.Base.{
  ℕ, ◌+◌, ◌^◌, ◌≤◌, ◌<◌, ◌≡◌, ◌≢◌, ◌⊎◌, inl, inr, List, [], ◌∷◌, Without, here, there, Without-swap,
  Without-or, length-Without, length, arith, ap, sym, ◌∙◌, u64,
}
use mathlib.Core.Path.{subst}
use os_v.Memory.{Mem, read8}
use os_v.Memory.Laws.{read_bytes_cong}
use os_v.Alloc.{next_of}
use os_v.Alloc.Chain.{Block, Linked, AllBlocks}
use os_v.Alloc.Sessions.{Allocation, ApartFrom, AllSeparate, IsOutside, IsUnknown, Owns, Owned}
use os_v.Alloc.Free.{Absent}

-- A block of a list, by its bounds.
above :
    (b : Block) (bs rest : List Block) (m : Mem) (lo prev e : ℕ)
    → Without b bs rest
    → Linked m lo prev e bs
    → (lo ≤ b.start) × (b.start ≤ b.tail) × (b.tail + 24 ≤ 2 ^ 64)
above b _ _ m lo prev e (here l) h = (h.3, h.4, h.6)
above b _ _ m lo prev e (there {l} {r} c w) h =
    let low = h.3 in
    let order = h.4 in
    let ih = above b l r m (c.tail + 24) c.tail (next_of c.tail m) w h.7 in
    (omega (arith, ih.0), ih.1, ih.2)

-- The first tail is the lowest.
pub first-le :
    (b : Block) (bs rest : List Block) (first : Block) (m : Mem) (lo prev e : ℕ)
    → Without b (first ∷ bs) rest
    → Linked m lo prev e (first ∷ bs)
    → first.tail ≤ b.tail
first-le b bs _ first m lo prev e (here _) h = omega arith
first-le b bs _ first m lo prev e (there {r} _ w) h =
    let up = above b bs r m (first.tail + 24) first.tail (next_of first.tail m) w h.7 in
    omega (arith, up.0, up.1)

-- Two places of a list: their blocks have no byte in common, their tails included.
apart :
    (b c : Block) (bs rest more : List Block) (m : Mem) (lo prev e : ℕ)
    → Without b bs rest
    → Without c rest more
    → Linked m lo prev e bs
    → (b.tail + 24 ≤ c.start) ⊎ (c.tail + 24 ≤ b.start)
apart b c _ _ more m lo prev e (here l) v h =
    inl (above c l more m (b.tail + 24) b.tail (next_of b.tail m) v h.7).0
apart b c _ _ _ m lo prev e (there {l} {r} d w) (here _) h =
    inr (above b l r m (d.tail + 24) d.tail (next_of d.tail m) w h.7).0
apart b c _ _ _ m lo prev e (there {l} {r} d w) (there {r = t} _ v) h =
    apart b c l r t m (d.tail + 24) d.tail (next_of d.tail m) w v h.7

-- A tail is outside of every block.
tail_off :
    (b c : Block) (bs rest more : List Block) (m : Mem) (lo prev e : ℕ)
    → Without b bs rest
    → Without c bs more
    → Linked m lo prev e bs
    → (c.tail ≤ b.tail) ⊎ (b.tail + 24 ≤ c.start)
tail_off b c _ _ _ m lo prev e (here l) (here _) h = inl (omega arith)
tail_off b c _ _ _ m lo prev e (here l) (there {r = t} _ v) h =
    inr (above c l t m (b.tail + 24) b.tail (next_of b.tail m) v h.7).0
tail_off b c _ _ _ m lo prev e (there {l} {r} d w) (here _) h =
    let up = above b l r m (d.tail + 24) d.tail (next_of d.tail m) w h.7 in
    inl (omega (arith, up.0, up.1))
tail_off b c _ _ _ m lo prev e (there {l} {r} d w) (there {r = t} _ v) h =
    tail_off b c l r t m (d.tail + 24) d.tail (next_of d.tail m) w v h.7

pub length-Owned : (l : List Allocation) (bs : List Block) → Owned l bs → length bs ≡ length l
length-Owned [] bs h = h
length-Owned (a ∷ l) bs h = omega (arith, length-Without h.0 bs h.1 h.2, length-Owned l h.1 h.4)

-- Any two places of a list have blocks without a common byte.
abbrev pub PairwiseApart : List Block → Type 0
PairwiseApart bs =
    (b c : Block) (rest more : List Block)
    → Without b bs rest
    → Without c rest more
    → (b.tail + 24 ≤ c.start) ⊎ (c.tail + 24 ≤ b.start)

pub Linked-PairwiseApart :
    (m : Mem) (lo prev e : ℕ) (bs : List Block) → Linked m lo prev e bs → PairwiseApart bs
Linked-PairwiseApart m lo prev e bs h b c rest more w v = apart b c bs rest more m lo prev e w v h

AllBlocks-rest :
    (P : Block → Type 0) (b : Block) (bs rest : List Block)
    → Without b bs rest
    → AllBlocks P bs
    → AllBlocks P rest
AllBlocks-rest P b bs rest w all c more v =
    let both = Without-swap b c bs rest more w v in all c both.0 both.1

PairwiseApart-rest :
    (b : Block) (bs rest : List Block) → Without b bs rest → PairwiseApart bs → PairwiseApart rest
PairwiseApart-rest b bs rest w all c d more most v x =
    let both = Without-swap b c bs rest more w v in
    let third = Without-swap b d both.0 more most both.2 x in all c d both.0 third.0 both.1 third.1

ApartFrom-Owned :
    (a : Allocation) (b : Block) (l : List Allocation) (rest : List Block)
    → Owns a b
    → AllBlocks (λ c. (b.tail + 24 ≤ c.start) ⊎ (c.tail + 24 ≤ b.start)) rest
    → Owned l rest
    → ApartFrom a l
ApartFrom-Owned a b [] rest owns far h = tt
ApartFrom-Owned a b (c ∷ l) rest owns far (d, left, v, its, h) =
    let here_far = far d left v in
    (
      omega (arith, here_far, owns.0, owns.1, its.0, its.1),
      ApartFrom-Owned a b l left owns
          (AllBlocks-rest (λ f. (b.tail + 24 ≤ f.start) ⊎ (f.tail + 24 ≤ b.start)) d rest left v
            far)
          h,
    )

-- Allocations that own blocks without a common byte are separate.
pub AllSeparate-Owned :
    (l : List Allocation) (bs : List Block) → PairwiseApart bs → Owned l bs → AllSeparate l
AllSeparate-Owned [] bs far h = tt
AllSeparate-Owned (a ∷ l) bs far (b, rest, w, owns, h) = (
  ApartFrom-Owned a b l rest owns (λ c more v. far b c rest more w v) h,
  AllSeparate-Owned l rest (PairwiseApart-rest b bs rest w far) h,
)

-- A byte of none of the blocks is one of none of their allocations.
IsOutside-Owned :
    (q : ℕ) (l : List Allocation) (bs : List Block)
    → AllBlocks (λ c. (q < c.start) ⊎ (c.tail ≤ q)) bs
    → Owned l bs
    → IsOutside q l
IsOutside-Owned q [] bs off h = tt
IsOutside-Owned q (a ∷ l) bs off (b, rest, w, owns, h) =
    let here_off = off b rest w in
    (
      omega (arith, here_off, owns.0, owns.1),
      IsOutside-Owned q l rest (AllBlocks-rest (λ c. (q < c.start) ⊎ (c.tail ≤ q)) b bs rest w off)
          h,
    )

-- The bytes of the tails are none of the allocations'.
pub tail-IsOutside :
    (m : Mem) (lo prev e q : ℕ) (bs : List Block) (l : List Allocation) (first b : Block)
    (rest : List Block)
    → Linked m lo prev e (first ∷ bs)
    → Without b (first ∷ bs) rest
    → b.tail ≤ q
    → q < b.tail + 24
    → Owned l bs
    → IsOutside q l
tail-IsOutside m lo prev e q bs l first b rest linked w low high h =
    IsOutside-Owned q l bs
      (λ c more v.
        let off =
          tail_off b c (first ∷ bs) rest (first ∷ more) m lo prev e w (there first v) linked in
        omega (arith, off))
      h

no_start :
    (addr : ℕ) (l : List Allocation) (bs : List Block)
    → IsUnknown addr l
    → Owned l bs
    → AllBlocks (λ c. c.start ≢ addr) bs
no_start addr [] bs u h c more v = absurd (omega (arith, length-Without c bs more v, h))
no_start addr (a ∷ l) bs u (b, rest, w, owns, h) c more v = elim (Without-or b c bs rest more w v) [
  | inl e ↦ λ is. u.0 (sym owns.0 ∙ ap (λ (x : Block). x.start) (sym e) ∙ is)
  | inr (t, x) ↦ no_start addr l rest u.1 h c t x
]

all-Absent : (addr : ℕ) (bs : List Block) → AllBlocks (λ c. c.start ≢ addr) bs → Absent addr bs
all-Absent addr [] all = tt
all-Absent addr (b ∷ bs) all =
    (all b bs (here bs), all-Absent addr bs (λ c more v. all c (b ∷ more) (there b v)))

-- An address at which no allocation starts is the start of no block.
pub Absent-Owned :
    (addr : ℕ) (l : List Allocation) (bs : List Block)
    → IsUnknown addr l
    → Owned l bs
    → Absent addr bs
Absent-Owned addr l bs u h = all-Absent addr bs (no_start addr l bs u h)

-- The block of an allocation that is taken out of the list of those.
pub Owned-Without :
    (a : Allocation) (l r : List Allocation) (bs : List Block)
    → Without a l r
    → Owned l bs
    → (b : Block) × (rest : List Block) × Without b bs rest × Owns a b × Owned r rest
Owned-Without a _ _ bs (here l) h = h
Owned-Without a _ _ bs (there {l} {r} c w) (d, left, v, its, h) =
    let inner = Owned-Without a l r left w h in
    let both = Without-swap d inner.0 bs left inner.1 v inner.2 in
    (inner.0, both.0, both.1, inner.3, (d, inner.1, both.2, its, inner.4))

-- A change of memory that leaves the tails alone.
pub Linked-same :
    (m m' : Mem) (lo prev e : ℕ) (bs : List Block)
    → ((b : Block) (rest : List Block)
        → Without b bs rest
        → (q : ℕ) → b.tail ≤ q
        → q < b.tail + 24
        → read8 q m' ≡ read8 q m)
    → Linked m lo prev e bs
    → Linked m' lo prev e bs
Linked-same m m' lo prev e [] same h = h
Linked-same m m' lo prev e (b ∷ bs) same h =
    let room = h.6 in
    let word = λ (a : ℕ) (l : b.tail ≤ a) (r : a + 8 ≤ b.tail + 24).
      read_bytes_cong 8 a m' m
        (λ q lo hi. same b bs (here bs) q (omega (arith, l, lo)) (omega (arith, r, hi))) in
    let ih =
      Linked-same m m' (b.tail + 24) b.tail (next_of b.tail m) bs
        (λ c rest w q lo hi. same c (b ∷ rest) (there b w) q lo hi) h.7 in
    (
      h.0,
      word (u64 (b.tail + 8)) (omega arith) (omega arith) ∙ h.1,
      word (u64 (b.tail + 16)) (omega arith) (omega arith) ∙ h.2,
      h.3,
      h.4,
      h.5,
      h.6,
      subst (λ (t : ℕ). Linked m' (b.tail + 24) b.tail t bs)
          (sym (word b.tail (omega arith) (omega arith))) ih,
    )
