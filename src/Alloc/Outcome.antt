-- ===== src/Alloc/Outcome.antt =====
-- `mem_free` of any address but the start of the first block.
use os_v.Base.{
  ℕ, ◌+◌, ◌≤◌, ◌<◌, ◌≡◌, ◌≢◌, ◌⊎◌, inl, inr, Bool, true, false, List, [], ◌∷◌, ◌++◌, Without, here,
  there, Without-middle, Without-second, Bool-cases, ◌==◌, length, length-append, arith, ap, sym,
  ◌∙◌,
}
use mathlib.Core.Path.{subst}
use os_v.Memory.{Mem, read8}
use os_v.Machine.{Machine, ram, Run, done}
use os_v.Alloc.{mem_free}
use os_v.Alloc.Chain.{Block, Linked, AllBlocks}
use os_v.Alloc.Free.{mem_free-Frees, Absent, mem_free-Absent}
use os_v.Alloc.Cut.{StartsFrom, mem_free-CutsOff}
use os_v.Alloc.Places.{around, ending}

-- Only tails of blocks and the bytes 8 to 15 change.
abbrev pub TailsOnly : Mem → Mem → List Block → Type 0
TailsOnly m m' bs =
    (q : ℕ)
    → (q < 8) ⊎ (16 ≤ q)
    → AllBlocks (λ c. (q < c.tail) ⊎ (c.tail + 24 ≤ q)) bs
    → read8 q m' ≡ read8 q m

-- `mem_free` of a block behind another, whether or not it is the last.
freed :
    (walk : ℕ) (m : Machine) (before : List Block) (left b : Block) (back : List Block)
    → Linked (ram m) 0 0 m.heap.mem_list_start (before ++ left ∷ b ∷ back)
    → StartsFrom 16 (before ++ left ∷ b ∷ back)
    → length before + 1 < walk
    → (m' : Machine) × (mem_free walk b.start m ≡ done true m')
      × Linked (ram m') 0 0 m'.heap.mem_list_start (before ++ left ∷ back)
      × TailsOnly (ram m) (ram m') (before ++ left ∷ back)
freed walk m before left b [] h from enough =
    let r = mem_free-CutsOff walk m before left b h from enough in
    (
      r.0,
      r.1,
      r.2,
      λ q low off.
          let at_left = off left (before ++ []) (Without-middle left before []) in
          r.3 q low (omega (arith, at_left)),
    )
freed walk m before left b (right ∷ back) h from enough =
    let r = mem_free-Frees walk m before back left b right h enough in
    (
      r.0,
      r.1,
      r.2,
      λ q low off.
          let at_left =
            off left (before ++ right ∷ back) (Without-middle left before (right ∷ back)) in
          let at_right =
            off right (before ++ left ∷ back) (Without-second right left before back) in
          r.3 q (omega (arith, at_left)) (omega (arith, at_right)),
    )

-- `mem_free` of a block of the list but the first.
pub freed_block :
    (walk : ℕ) (m : Machine) (first b : Block) (bs rest : List Block)
    → Linked (ram m) 0 0 m.heap.mem_list_start (first ∷ bs)
    → 16 ≤ first.start
    → Without b bs rest
    → length bs + 1 < walk
    → (m' : Machine) × (mem_free walk b.start m ≡ done true m')
      × Linked (ram m') 0 0 m'.heap.mem_list_start (first ∷ rest)
      × TailsOnly (ram m) (ram m') (first ∷ rest)
freed_block walk m first b bs rest h low w enough =
    let at = around b bs rest w in
    let on = ending first at.front in
    let list : first ∷ bs ≡ on.before ++ on.left ∷ b ∷ at.back =
      ap (λ (t : List Block). first ∷ t) at.all ∙ on.eq (b ∷ at.back) in
    let back : on.before ++ on.left ∷ at.back ≡ first ∷ rest =
      sym (on.eq at.back) ∙ ap (λ (t : List Block). first ∷ t) (sym at.others) in
    let count : length on.before + 1 < walk =
      omega (arith, on.size, ap length at.all, length-append at.front (b ∷ at.back)) in
    let call =
      freed walk m on.before on.left b at.back
        (subst (λ (t : List Block). Linked (ram m) 0 0 m.heap.mem_list_start t) list h)
        (subst (λ (t : List Block). StartsFrom 16 t) list low) count in
    (
      call.0,
      call.1,
      subst (λ (t : List Block). Linked (ram call.0) 0 0 call.0.heap.mem_list_start t) back call.2,
      subst (λ (t : List Block). TailsOnly (ram m) (ram call.0) t) back call.3,
    )

-- Whether a block of a list starts at an address.
start_cases :
    (addr : ℕ) (bs : List Block)
    → ((b : Block) × (rest : List Block) × Without b bs rest × (b.start ≡ addr)) ⊎ Absent addr bs
start_cases addr [] = inr tt
start_cases addr (b ∷ bs) = elim (Bool-cases (b.start == addr)) [
  | inl same ↦ inl (b, bs, here bs, ground arith)
  | inr other ↦ elim (start_cases addr bs) [
    | inl (c, rest, w, is) ↦ inl (c, b ∷ rest, there b w, is)
    | inr none_ ↦ inr (ground arith, none_)
  ]
]

-- How `mem_free` ends: it returns 0, and the block that starts at the address is taken out of the list;
-- or it returns 1, no block starts there, and nothing has changed.
abbrev pub MemFreeOutcome : Machine → Block → List Block → ℕ → Run Bool → Type 0
MemFreeOutcome m first bs addr out =
    ((b : Block) × (rest : List Block) × (m' : Machine) × Without b bs rest
      × (b.start ≡ addr)
      × (out ≡ done true m')
      × Linked (ram m') 0 0 m'.heap.mem_list_start (first ∷ rest)
      × TailsOnly (ram m) (ram m') (first ∷ rest))
    ⊎ (Absent addr bs × (out ≡ done false m))

-- `mem_free` of any address but the start of the first block, over a well-formed list that does not
-- begin below address 16, with fuel for its blocks and one: when it returns 0, a block started there,
-- be it in the middle or the last, the list is the old one without it, and no byte has changed outside of
-- the tails that are left and, for the last block, whose `next` is null, the bytes 8 to 15. When it
-- returns 1, no block starts there and nothing has changed.
pub mem_free-MemFreeOutcome :
    (walk addr : ℕ) (m : Machine) (first : Block) (bs : List Block)
    → Linked (ram m) 0 0 m.heap.mem_list_start (first ∷ bs)
    → 16 ≤ first.start
    → first.start ≢ addr
    → length bs + 1 < walk
    → MemFreeOutcome m first bs addr (mem_free walk addr m)
mem_free-MemFreeOutcome walk addr m first bs h low other enough = elim (start_cases addr bs) [
  | inr absent ↦
      inr (absent, mem_free-Absent walk addr m (first ∷ bs) h (other, absent) (omega arith))
  | inl (b, rest, w, is) ↦
      let call = freed_block walk m first b bs rest h low w enough in
      inl (
        b,
        rest,
        call.0,
        w,
        is,
        subst (λ (t : ℕ). mem_free walk t m ≡ done true call.0) is call.1,
        call.2,
        call.3,
      )
]
