-- ===== src/Alloc/Relink.antt =====
-- A list of tails from which one between two others is taken out.
use os_v.Base.{ℕ, ◌+◌, ◌^◌, ◌≤◌, ◌<◌, ◌≡◌, ◌⊎◌, List, [], ◌∷◌, ◌++◌, arith, u64, ◌∙◌, sym}
use mathlib.Core.Path.{subst}
use os_v.Memory.{Mem, read8, read64}
use os_v.Memory.Laws.{read_bytes_cong}
use os_v.Alloc.{next_of, prev_of}
use os_v.Alloc.Chain.{Block, Linked}

-- A list whose memory is unchanged from `lo` on.
module _ (m m' : Mem) where
  same_above :
      (lo a : ℕ) → ((p : ℕ) → lo ≤ p → read8 p m' ≡ read8 p m) → lo ≤ a → read64 a m' ≡ read64 a m
  same_above lo a kept le = read_bytes_cong 8 a m' m λ q l u. kept q (omega arith)

  pub Linked-above :
      (bs : List Block) (lo prev e : ℕ)
      → ((p : ℕ) → lo ≤ p → read8 p m' ≡ read8 p m)
      → Linked m lo prev e bs
      → Linked m' lo prev e bs
  Linked-above [] lo prev e kept h = h
  Linked-above (b ∷ bs) lo prev e kept h =
      let low = h.3 in
      let order = h.4 in
      let room = h.6 in
      let next = same_above lo b.tail kept (omega arith) in
      (
        h.0,
        same_above lo (u64 (b.tail + 8)) kept (omega arith) ∙ h.1,
        same_above lo (u64 (b.tail + 16)) kept (omega arith) ∙ h.2,
        low,
        order,
        h.5,
        room,
        subst (λ (t : ℕ). Linked m' (b.tail + 24) b.tail t bs) (sym next)
            (Linked-above bs (b.tail + 24) b.tail (next_of b.tail m) (λ q l. kept q (omega arith))
              h.7),
      )

-- The tail of a later block lies above.
pub lo-le-tail :
    (before : List Block) (y : Block) (after : List Block) (lo prev e : ℕ) (m : Mem)
    → Linked m lo prev e (before ++ y ∷ after)
    → lo ≤ y.tail
lo-le-tail [] y after lo prev e m h = let low = h.3 in let order = h.4 in omega arith
lo-le-tail (b ∷ before) y after lo prev e m h =
    let low = h.3 in
    let order = h.4 in
    let ih = lo-le-tail before y after (b.tail + 24) b.tail (next_of b.tail m) m h.7 in omega arith

-- What stands around a block between two others.
pub record Neighbours (m : Mem) (left y right : Block) : Type 0 where
  pub below_y : left.tail + 24 ≤ y.tail
  pub below_right : y.tail + 24 ≤ right.tail
  pub room : right.tail + 24 ≤ 2 ^ 64
  pub prev_eq : prev_of y.tail m ≡ left.tail
  pub next_eq : next_of y.tail m ≡ right.tail

pub neighbours :
    (before after : List Block) (left y right : Block) (lo prev e : ℕ) (m : Mem)
    → Linked m lo prev e (before ++ left ∷ y ∷ right ∷ after)
    → Neighbours m left y right
neighbours [] after left y right lo prev e m h =
    let second = h.7 in
    let third = second.7 in
    record {
      below_y = omega (arith, second.3, second.4);
      below_right = omega (arith, third.3, third.4);
      room = third.6;
      prev_eq = second.1;
      next_eq = third.0;
    }
neighbours (b ∷ before) after left y right lo prev e m h =
    neighbours before after left y right (b.tail + 24) b.tail (next_of b.tail m) m h.7

-- A change of memory that only makes the tails around a block point to each other.
module _ (m m' : Mem) (left y right : Block) (after : List Block)
    (kept : (q : ℕ)
      → (q < left.tail) ⊎ (left.tail + 8 ≤ q)
      → (q < right.tail + 8) ⊎ (right.tail + 16 ≤ q)
      → read8 q m' ≡ read8 q m)
    (links : next_of left.tail m' ≡ right.tail) (back : prev_of right.tail m' ≡ left.tail) where
  word_kept :
      (a : ℕ)
      → (a + 8 ≤ left.tail) ⊎ (left.tail + 8 ≤ a)
      → (a + 8 ≤ right.tail + 8) ⊎ (right.tail + 16 ≤ a)
      → read64 a m' ≡ read64 a m
  word_kept a l r = read_bytes_cong 8 a m' m λ q lo hi. kept q (omega arith) (omega arith)

  pub Linked-unlink :
      (before : List Block) (lo prev e : ℕ)
      → Linked m lo prev e (before ++ left ∷ y ∷ right ∷ after)
      → Linked m' lo prev e (before ++ left ∷ right ∷ after)
  Linked-unlink [] lo prev e h =
      let at = neighbours [] after left y right lo prev e m h in
      let n0 = at.below_y in
      let n1 = at.below_right in
      let n2 = at.room in
      let third = h.7.7 in
      let end = word_kept right.tail (omega arith) (omega arith) in
      (
        h.0,
        word_kept (u64 (left.tail + 8)) (omega arith) (omega arith) ∙ h.1,
        word_kept (u64 (left.tail + 16)) (omega arith) (omega arith) ∙ h.2,
        h.3,
        h.4,
        h.5,
        h.6,
        (
          links,
          back,
          word_kept (u64 (right.tail + 16)) (omega arith) (omega arith) ∙ third.2,
          omega (arith, third.3),
          third.4,
          third.5,
          n2,
          subst (λ (t : ℕ). Linked m' (right.tail + 24) right.tail t after) (sym end)
              (Linked-above m m' after (right.tail + 24) right.tail (next_of right.tail m)
                (λ q l. kept q (omega arith) (omega arith)) third.7),
        ),
      )
  Linked-unlink (b ∷ before) lo prev e h =
      let low =
        lo-le-tail before left (y ∷ right ∷ after) (b.tail + 24) b.tail (next_of b.tail m) m h.7 in
      let ih = Linked-unlink before (b.tail + 24) b.tail (next_of b.tail m) h.7 in
      let at = neighbours before after left y right (b.tail + 24) b.tail (next_of b.tail m) m h.7 in
      let n0 = at.below_y in
      let n1 = at.below_right in
      let next = word_kept b.tail (omega arith) (omega arith) in
      (
        h.0,
        word_kept (u64 (b.tail + 8)) (omega arith) (omega arith) ∙ h.1,
        word_kept (u64 (b.tail + 16)) (omega arith) (omega arith) ∙ h.2,
        h.3,
        h.4,
        h.5,
        h.6,
        subst (λ (t : ℕ). Linked m' (b.tail + 24) b.tail t (before ++ left ∷ right ∷ after))
            (sym next) ih,
      )
