-- ===== src/Palloc/Entries.antt =====
-- Two entries of one memory map: the parts of the bitmap that belong to them, and their pages.
use os_v.Base.{
  ℕ, ◌+◌, ◌/◌, ◌^◌, ◌≤◌, ◌<◌, ◌≡◌, ◌⊎◌, inl, inr, true, List, [], ◌∷◌, arith, Bool-cases, sym, ◌∙◌,
}
use os_v.Palloc.{MemorymapEntry, is_ram, pages, advance}
use os_v.Palloc.Alloc.{At, IsMapped}
use os_v.Palloc.Free.{end_of, IsPlaced}
use os_v.Palloc.RoundTrip.{At-apart}

-- The two entries are one, or neither their pages nor their parts of the bitmap overlap.
abbrev pub SameOrApart : MemorymapEntry → ℕ → MemorymapEntry → ℕ → Type 0
SameOrApart e t e' t' =
    ((e ≡ e') × (t ≡ t'))
    ⊎ (((end_of e ≤ e'.base) ⊎ (end_of e' ≤ e.base))
        × ((t + pages e / 8 ≤ t') ⊎ (t' + pages e' / 8 ≤ t)))

advance-eq :
    (e : MemorymapEntry) (tbl : ℕ)
    → (is_ram e ≡ true → tbl + pages e / 8 < 2 ^ 64)
    → (tbl ≤ advance e tbl) × (is_ram e ≡ true → tbl + pages e / 8 ≤ advance e tbl)
unfolding advance
advance-eq e tbl h = elim (Bool-cases (is_ram e)) [
  | inl ram ↦ let small = h ram in rw ram (omega arith, λ r. omega arith)
  | inr other ↦ rw other (omega arith, λ r. absurd (ground arith))
]

-- The part of a later entry begins no earlier.
pub At-le :
    (es : List MemorymapEntry) (tbl : ℕ) (e : MemorymapEntry) (t : ℕ)
    → At es tbl e t
    → IsMapped es tbl
    → tbl ≤ t
At-le [] tbl e t at h = absurd at
At-le (x ∷ es) tbl e t (inl (ex, et)) h = omega (arith, et)
At-le (x ∷ es) tbl e t (inr later) h =
    let up = advance-eq x tbl (λ r. (h.0 r).0) in
    omega (arith, up.0, At-le es (advance x tbl) e t later h.1)

pub At-SameOrApart :
    (es : List MemorymapEntry) (tbl : ℕ) (e : MemorymapEntry) (t : ℕ) (e' : MemorymapEntry) (t' : ℕ)
    → IsMapped es tbl
    → IsPlaced es
    → At es tbl e t
    → is_ram e ≡ true
    → At es tbl e' t'
    → is_ram e' ≡ true
    → SameOrApart e t e' t'
At-SameOrApart [] tbl e t e' t' h p at ram at' ram' = absurd at
At-SameOrApart (x ∷ es) tbl e t e' t' h p (inl (ex, et)) ram (inl (ex', et')) ram' =
    inl (sym ex ∙ ex', sym et ∙ et')
At-SameOrApart (x ∷ es) tbl e t e' t' h p (inl (ex, et)) ram (inr later) ram' =
    let r : is_ram x ≡ true = ground arith in
    let up = (advance-eq x tbl (λ q. (h.0 q).0)).1 r in
    let le = At-le es (advance x tbl) e' t' later h.1 in
    rw (← ex, ← et)
      (inr (At-apart x es (advance x tbl) e' t' later (p.0 r).1 ram', inl (omega arith)))
At-SameOrApart (x ∷ es) tbl e t e' t' h p (inr later) ram (inl (ex', et')) ram' =
    let r : is_ram x ≡ true = ground arith in
    let up = (advance-eq x tbl (λ q. (h.0 q).0)).1 r in
    let le = At-le es (advance x tbl) e t later h.1 in
    let apart = At-apart x es (advance x tbl) e t later (p.0 r).1 ram in
    rw (← ex', ← et') (inr (omega (arith, apart), inr (omega arith)))
At-SameOrApart (x ∷ es) tbl e t e' t' h p (inr later) ram (inr later') ram' =
    At-SameOrApart es (advance x tbl) e t e' t' h.1 p.1 later ram later' ram'
