-- ===== src/Palloc/Safety.antt =====
-- Runs of `mem_palloc` and `mem_pfree`: no page has two owners.
use os_v.Base.{
  ℕ, ◌+◌, ◌-◌, ◌*◌, ◌/◌, ◌^◌, ◌≤◌, ◌<◌, ◌≡◌, ◌⊎◌, inl, inr, Bool, true, false, none, List, [], ◌∷◌,
  Without, here, there, ◌&&◌, arith, leb, ltb, Bool-cases, if◌then◌else◌, ◌∙◌, ap,
}
use os_v.Memory.{Mem, read8}
use os_v.Palloc.{MemorymapEntry, is_ram, pages, PageAllocator}
use os_v.Palloc.Bitmap.{page_bit}
use os_v.Palloc.Alloc.{At, IsMapped, searched, Allocated, Outcome, mem_palloc-Outcome}
use os_v.Palloc.Free.{IsPlaced, Freed, FreeOutcome, mem_pfree-FreeOutcome}
use os_v.Palloc.RoundTrip.{At-mapped, At-below}
use os_v.Palloc.Entries.{At-SameOrApart}
use os_v.Palloc.Sessions.{
  Grant, Separate, ApartFrom, AllSeparate, IsHeld, AllHeld, Session, SameBitmap, Step, take, fail,
  give_back, work, Reach, start, next, IsSafe,
}

-- Two ranges lie apart, or some number is in both.
ranges :
    (f n f' n' : ℕ)
    → 0 < n
    → 0 < n'
    → ((f + n ≤ f') ⊎ (f' + n' ≤ f)) ⊎ ((k : ℕ) × (f ≤ k) × (k < f + n) × (f' ≤ k) × (k < f' + n'))
ranges f n f' n' pos pos' = elim (Bool-cases (leb (f + n) f')) [
  | inl left ↦ inl (inl (ground arith))
  | inr near ↦ elim (Bool-cases (leb (f' + n') f)) [
    | inl right ↦ inl (inr (ground arith))
    | inr both ↦ elim (Bool-cases (leb f f')) [
      | inl up ↦ inr (f', ground arith, ground arith, omega arith, omega arith)
      | inr down ↦ inr (f, omega arith, omega arith, ground arith, ground arith)
    ]
  ]
]

-- What is left when one grant is removed.
apart-Without :
    (a b : Grant) (l r : List Grant) → Without a l r → ApartFrom b l → Separate a b × ApartFrom b r
apart-Without a b _ _ (here l) (h, hs) = (omega (arith, h), hs)
apart-Without a b _ _ (there {l} {r} c w) (h, hs) =
    let rest = apart-Without a b l r w hs in (rest.0, (h, rest.1))

separate-Without :
    (a : Grant) (l r : List Grant) → Without a l r → AllSeparate l → ApartFrom a r × AllSeparate r
separate-Without a _ _ (here l) (h, hs) = (h, hs)
separate-Without a _ _ (there {l} {r} b w) (h, hs) =
    let apart = apart-Without a b l r w h in
    let rest = separate-Without a l r w hs in ((apart.0, rest.0), (apart.1, rest.1))

module _ (g : PageAllocator) (mapped : IsMapped g.memorymap g.mem_palloc_start)
    (placed : IsPlaced g.memorymap) where
  -- A change of the bits from `lo` to `hi` of one entry leaves a grant of other pages as it was.
  module _ (e : MemorymapEntry) (t lo hi v : ℕ) (m m' : Mem)
      (at : At g.memorymap g.mem_palloc_start e t) (ram : is_ram e ≡ true) (fits : hi ≤ searched e)
      (marked : (k : ℕ) → page_bit t k m' ≡ (if leb lo k && ltb k hi then v else page_bit t k m))
      (elsewhere : (q : ℕ)
        → (q < t + lo / 8) ⊎ (t + (hi + 7) / 8 ≤ q)
        → read8 q m' ≡ read8 q m) where
    IsHeld-stays :
        (a : Grant)
        → IsHeld g m a
        → (a.address + a.count * 0x1000 ≤ e.base + 0x1000 * lo) ⊎ (e.base + 0x1000 * hi ≤ a.address)
        → IsHeld g m' a
    IsHeld-stays a h apart = record {
      entry = h.entry;
      table = h.table;
      first = h.first;
      at = h.at;
      ram = h.ram;
      place = h.place;
      fits = h.fits;
      pos = h.pos;
      taken = λ k low high. bit_stays k low high;
    }
      where
        bit_stays : (k : ℕ) → h.first ≤ k → k < h.first + a.count → page_bit h.table k m' ≡ 0
        bit_stays k low high =
            elim (At-SameOrApart g.memorymap g.mem_palloc_start h.entry h.table e t mapped placed
              h.at h.ram at ram) [
                | inl (same_entry, same_table) ↦
                    let base = ap (λ (x : MemorymapEntry). x.base) same_entry in
                    let was : page_bit t k m ≡ 0 = rw (← same_table) (h.taken k low high) in
                    let place = h.place in rw same_table (marked k ∙ ground arith)
                | inr (pages_apart, tables_apart) ↦
                    let room = h.fits in
                    let same = elsewhere (h.table + k / 8) (omega arith) in
                    rw same (h.taken k low high)
              ]

  -- Pages that were free are not those of a grant.
  module _ (n address : ℕ) (m m' : Mem)
      (a : Allocated g.memorymap g.mem_palloc_start n m address m') (pos : 0 < n) where
    place : address ≡ a.entry.base + 0x1000 * a.first
    place =
        let small = At-below g.memorymap g.mem_palloc_start a.entry a.table a.at placed a.ram in
        omega (arith, a.address_eq, a.fits, small)

    new-Separate : (b : Grant) → IsHeld g m b → Separate (record { address = address; count = n }) b
    new-Separate b h =
        elim (At-SameOrApart g.memorymap g.mem_palloc_start a.entry a.table h.entry h.table mapped
          placed a.at a.ram h.at h.ram) [
            | inl (same_entry, same_table) ↦
                let base = ap (λ (x : MemorymapEntry). x.base) same_entry in
                elim (ranges a.first n h.first b.count pos h.pos) [
                  | inl apart ↦ omega (arith, place, h.place, base, apart)
                  | inr (k, lo, hi, lo', hi') ↦
                      let free = a.was_free k lo hi in
                      let taken : page_bit a.table k m ≡ 0 = rw same_table (h.taken k lo' hi') in
                      absurd (omega (arith, free, taken))
                ]
            | inr (pages_apart, tables_apart) ↦
                omega (arith, place, h.place, a.fits, h.fits, pages_apart)
          ]

    new-IsHeld : IsHeld g m' (record { address = address; count = n })
    new-IsHeld = record {
      entry = a.entry;
      table = a.table;
      first = a.first;
      at = a.at;
      ram = a.ram;
      place = place;
      fits = a.fits;
      pos = pos;
      taken = λ k lo hi. a.marked k ∙ ground arith;
    }

    all_new :
        (l : List Grant)
        → AllHeld g m l
        → ApartFrom (record { address = address; count = n }) l × AllHeld g m' l
    all_new [] h = (tt, tt)
    all_new (b ∷ bs) h =
        let rest = all_new bs h.1 in
        let apart = new-Separate b h.0 in
        (
          (apart, rest.0),
          (
            IsHeld-stays a.entry a.table a.first (a.first + n) 0 m m' a.at a.ram a.fits a.marked
                (λ q out. a.elsewhere q out) b h.0 (omega (arith, place, apart)),
            rest.1,
          ),
        )

  -- A change beside the bitmap.
  all_same : (m m' : Mem) → SameBitmap g m m' → (l : List Grant) → AllHeld g m l → AllHeld g m' l
  all_same m m' same [] h = tt
  all_same m m' same (a ∷ l) (h, hs) = (
    record {
      entry = h.entry;
      table = h.table;
      first = h.first;
      at = h.at;
      ram = h.ram;
      place = h.place;
      fits = h.fits;
      pos = h.pos;
      taken = λ k low high.
          let room = h.fits in same h.entry h.table k h.at h.ram (omega arith) ∙ h.taken k low high;
    },
    all_same m m' same l hs,
  )

  -- Pages given back are not those of a grant that lies apart.
  module _ (m m' : Mem) (a : Grant) (h : IsHeld g m a)
      (f : Freed g.memorymap g.mem_palloc_start a.address a.count m m') where
    abbrev offset : ℕ
    offset = (a.address - f.entry.base) / 0x1000

    -- The entry that `mem_pfree` finds is the one the grant was taken from.
    own_entry : (f.entry ≡ h.entry) × (f.table ≡ h.table)
    own_entry =
        elim (At-SameOrApart g.memorymap g.mem_palloc_start f.entry f.table h.entry h.table mapped
          placed f.at f.ram h.at h.ram) [
            | inl same ↦ same
            | inr (pages_apart, tables_apart) ↦
                absurd (omega (arith, pages_apart, f.starts, f.ends, h.place, h.fits, h.pos))
          ]

    offset_first : offset ≡ h.first
    offset_first =
        let base = ap (λ (x : MemorymapEntry). x.base) (own_entry.0) in omega (arith, base, h.place)

    others_stay : (b : Grant) → IsHeld g m b → Separate a b → IsHeld g m' b
    others_stay b hb apart =
        let base = ap (λ (x : MemorymapEntry). x.base) (own_entry.0) in
        let count = ap pages (own_entry.0) in
        IsHeld-stays f.entry f.table offset (offset + a.count) 1 m m' f.at f.ram
          (omega (arith, offset_first, h.fits, count)) f.marked (λ q out. f.elsewhere q out) b hb
          (omega (arith, base, offset_first, h.place, apart))

    all_stay : (l : List Grant) → AllHeld g m l → ApartFrom a l → AllHeld g m' l
    all_stay [] hs apart = tt
    all_stay (b ∷ l) (hb, hs) (apart, aparts) = (others_stay b hb apart, all_stay l hs aparts)

  -- What is left when one grant is removed.
  Without-IsHeld :
      (m : Mem) (a : Grant) (l r : List Grant)
      → Without a l r
      → AllHeld g m l
      → IsHeld g m a × AllHeld g m r
  Without-IsHeld m a _ _ (here l) (h, hs) = (h, hs)
  Without-IsHeld m a _ _ (there {l} {r} b w) (h, hs) =
      let rest = Without-IsHeld m a l r w hs in (rest.0, (h, rest.1))

  freed_safe :
      (m m' : Mem) (a : Grant) (r : List Grant) (done : Bool)
      → IsHeld g m a
      → AllHeld g m r
      → ApartFrom a r
      → FreeOutcome g.memorymap g.mem_palloc_start a.address a.count m (done, m')
      → AllHeld g m' r
  freed_safe m m' a r true h hs apart f = all_stay m m' a h f r hs apart
  freed_safe m m' a r false h hs apart (same, none_covers) = rw same hs

  -- Held pages lie below 2 ^ 64.
  held_below : (m : Mem) (a : Grant) → IsHeld g m a → a.address + a.count * 0x1000 < 2 ^ 64
  held_below m a h =
      let small = At-below g.memorymap g.mem_palloc_start h.entry h.table h.at placed h.ram in
      omega (arith, h.place, h.fits, small)

  -- They are part of what `mem_palloc` searches.
  held_few : (m : Mem) (a : Grant) → IsHeld g m a → a.count < 2 ^ 31
  held_few m a h =
      let reaches = At-mapped g.memorymap g.mem_palloc_start h.entry h.table h.at mapped h.ram in
      omega (arith, h.fits, reaches)

  pub Step-IsSafe : (s t : Session) → Step g s t → IsSafe g s → IsSafe g t
  Step-IsSafe _ _ (take n address m m' l pos e) safe =
      let a : Allocated g.memorymap g.mem_palloc_start n m address m' =
        rw e at (mem_palloc-Outcome g n m mapped pos) in
      let new = all_new n address m m' a pos l safe.held in
      record { separate = (new.0, safe.separate); held = (new-IsHeld n address m m' a pos, new.1) }
  Step-IsSafe _ _ (fail n m m' l pos e) safe =
      let same : Outcome g.memorymap g.mem_palloc_start n m (none, m') =
        rw e at (mem_palloc-Outcome g n m mapped pos) in
      record { separate = safe.separate; held = rw (same.0) (safe.held) }
  Step-IsSafe _ _ (give_back a m m' l r done w e) safe =
      let (h, hs) = Without-IsHeld m a l r w safe.held in
      let (apart, separate) = separate-Without a l r w safe.separate in
      let outcome =
        mem_pfree-FreeOutcome g a.address a.count m mapped placed (held_few m a h)
          (held_below m a h) in
      record { separate = separate; held = freed_safe m m' a r done h hs apart (rw e at outcome) }
  Step-IsSafe _ _ (work m m' l same) safe = record {
    separate = safe.separate;
    held = all_same m m' same l safe.held;
  }

-- Over a memory map whose bitmap is within reach and whose RAM entries do not overlap, whatever
-- calls of `mem_palloc` for a positive number of pages were made, whatever of the pages they returned
-- was given to `mem_pfree`, and whatever else was written to memory outside of the bitmap: the pages of
-- any two allocations that have not been given back are different ones, each allocation lies in one
-- RAM entry, and the bitmap has all of its pages as taken.
pub Reach-IsSafe :
    (g : PageAllocator) (s : Session)
    → IsMapped g.memorymap g.mem_palloc_start
    → IsPlaced g.memorymap
    → Reach g s
    → IsSafe g s
Reach-IsSafe g _ mapped placed (start m) = record { separate = tt; held = tt }
Reach-IsSafe g t mapped placed (next {s} reach step) =
    Step-IsSafe g mapped placed s t step (Reach-IsSafe g s mapped placed reach)
