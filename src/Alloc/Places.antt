-- ===== src/Alloc/Places.antt =====
-- Where a block stands in the list of tails: the gap that `mem_alloc` finds, and the blocks around a
-- place.
use os_v.Base.{
  ℕ, zero, suc, ◌+◌, ◌≡◌, refl, inl, inr, false, some, List, [], ◌∷◌, ◌++◌, Without, here, there,
  Bool-cases, length, arith, ap,
}
use os_v.Memory.{Mem}
use os_v.Alloc.{next_of, prev_of, gap, fits_before, find_place}
use os_v.Alloc.Chain.{Block, Linked}

-- A block with what stands on its two sides.
pub record Around (y : Block) (bs rest : List Block) : Type 0 where
  pub front : List Block
  pub back : List Block
  pub all : bs ≡ front ++ y ∷ back
  pub others : rest ≡ front ++ back

pub around : (y : Block) (bs rest : List Block) → Without y bs rest → Around y bs rest
around y _ _ (here l) = record { front = []; back = l; all = refl; others = refl }
around y _ _ (there {l} {r} b w) =
    let p = around y l r w in
    record {
      front = b ∷ p.front;
      back = p.back;
      all = ap (λ (t : List Block). b ∷ t) p.all;
      others = ap (λ (t : List Block). b ∷ t) p.others;
    }

-- A list that is not empty, by its last element.
pub record Ending (first : Block) (front : List Block) : Type 0 where
  pub before : List Block
  pub left : Block
  pub eq : (ys : List Block) → first ∷ (front ++ ys) ≡ before ++ left ∷ ys
  pub size : length before ≡ length front

pub ending : (first : Block) (front : List Block) → Ending first front
ending first [] = record { before = []; left = first; eq = λ ys. refl; size = refl }
ending first (b ∷ front) =
    let e = ending b front in
    record {
      before = first ∷ e.before;
      left = e.left;
      eq = λ ys. ap (λ (t : List Block). first ∷ t) (e.eq ys);
      size = ap suc e.size;
    }

-- The entry of a gap is the tail of a block of the list.
gap_inside :
    (fuel size align lo prev e y s : ℕ) (m : Mem) (b : Block) (bs : List Block)
    → Linked m lo prev e (b ∷ bs)
    → find_place fuel size align e m ≡ some (gap y s)
    → (right : Block) × (rest : List Block) × Without right (b ∷ bs) rest × (y ≡ right.tail)
unfolding find_place
gap_inside zero size align lo prev e y s m b bs h f = absurd (ground arith)
gap_inside (suc fuel) size align lo prev e y s m b [] h f =
    let at = h.0 in
    let end = h.7 in
    (
      b,
      [],
      here [],
      elim (Bool-cases (fits_before size align e m)) [
        | inl fits ↦ ground arith
        | inr full ↦ absurd (ground arith)
      ],
    )
gap_inside (suc fuel) size align lo prev e y s m b (c ∷ bs) h f =
    let at = h.0 in
    let n = h.7.0 in
    elim (Bool-cases (fits_before size align e m)) [
      | inl fits ↦ (b, c ∷ bs, here (c ∷ bs), ground arith)
      | inr full ↦
          let ih =
            gap_inside fuel size align (b.tail + 24) b.tail (next_of b.tail m) y s m c bs h.7
              (ground arith) in
          (ih.0, b ∷ ih.1, there b ih.2, ih.3)
    ]

no_gap_first : (size align e : ℕ) (m : Mem) → prev_of e m ≡ 0 → fits_before size align e m ≡ false
unfolding fits_before
no_gap_first size align e m h = ground (arith, h)

-- It is not the first one: there the code does not look for a gap.
pub gap_place :
    (fuel size align lo e y s : ℕ) (m : Mem) (first : Block) (bs : List Block)
    → Linked m lo 0 e (first ∷ bs)
    → find_place fuel size align e m ≡ some (gap y s)
    → (right : Block) × (rest : List Block) × Without right bs rest × (y ≡ right.tail)
unfolding find_place
gap_place zero size align lo e y s m first bs h f = absurd (ground arith)
gap_place (suc fuel) size align lo e y s m first [] h f =
    let at = h.0 in
    let back = h.1 in
    let end = h.7 in
    let full : fits_before size align e m ≡ false =
      rw at (no_gap_first size align first.tail m back) in
    absurd (ground arith)
gap_place (suc fuel) size align lo e y s m first (c ∷ bs) h f =
    let at = h.0 in
    let back = h.1 in
    let full : fits_before size align e m ≡ false =
      rw at (no_gap_first size align first.tail m back) in
    gap_inside fuel size align (first.tail + 24) first.tail (next_of first.tail m) y s m c bs h.7
      (ground arith)
