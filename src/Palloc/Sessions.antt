-- ===== src/Palloc/Sessions.antt =====
-- Runs of `mem_palloc` and `mem_pfree`: the grants that are live, and the steps.
use os_v.Base.{ℕ, ◌+◌, ◌*◌, ◌≤◌, ◌<◌, ◌≡◌, ◌⊎◌, Bool, true, none, some, List, [], ◌∷◌, Without}
use os_v.Memory.{Mem}
use os_v.Palloc.{MemorymapEntry, is_ram, pages, PageAllocator, mem_palloc, mem_pfree}
use os_v.Palloc.Bitmap.{page_bit}
use os_v.Palloc.Alloc.{At, searched}

-- `count` pages from `address` on that `mem_palloc` gave to somebody.
pub record Grant : Type 0 where
  pub address : ℕ
  pub count : ℕ

-- The pages of two grants are different ones.
abbrev pub Separate : Grant → Grant → Type 0
Separate a b =
    (a.address + a.count * 0x1000 ≤ b.address) ⊎ (b.address + b.count * 0x1000 ≤ a.address)

abbrev pub ApartFrom : Grant → List Grant → Type 0
ApartFrom a [] = Unit {0}
ApartFrom a (b ∷ bs) = Separate a b × ApartFrom a bs

abbrev pub AllSeparate : List Grant → Type 0
AllSeparate [] = Unit {0}
AllSeparate (a ∷ bs) = ApartFrom a bs × AllSeparate bs

-- The pages of a grant lie in one RAM entry, and the bitmap has them as taken.
pub record IsHeld (g : PageAllocator) (m : Mem) (a : Grant) : Type 0 where
  pub entry : MemorymapEntry
  pub table : ℕ
  pub first : ℕ
  pub at : At g.memorymap g.mem_palloc_start entry table
  pub ram : is_ram entry ≡ true
  pub place : a.address ≡ entry.base + 0x1000 * first
  pub fits : first + a.count ≤ searched entry
  pub pos : 0 < a.count
  pub taken : (k : ℕ) → first ≤ k → k < first + a.count → page_bit table k m ≡ 0

abbrev pub AllHeld : PageAllocator → Mem → List Grant → Type 0
AllHeld g m [] = Unit {0}
AllHeld g m (a ∷ bs) = IsHeld g m a × AllHeld g m bs

-- Memory, and the grants that have not been given back.
pub record Session : Type 0 where
  pub mem : Mem
  pub live : List Grant

-- No page of a RAM entry is marked otherwise.
abbrev pub SameBitmap : PageAllocator → Mem → Mem → Type 0
SameBitmap g m m' =
    (e : MemorymapEntry) (t k : ℕ)
    → At g.memorymap g.mem_palloc_start e t
    → is_ram e ≡ true
    → k < pages e
    → page_bit t k m' ≡ page_bit t k m

-- A call of `mem_palloc`, which succeeds or fails, a call of `mem_pfree` for a grant, and a change of
-- memory beside the bitmap.
pub data Step (g : PageAllocator) : Session → Session → Type 0 where
  take :
      (n address : ℕ) (m m' : Mem) (l : List Grant)
      → 0 < n
      → mem_palloc g n m ≡ (some address, m')
      → Step g
          (record { mem = m; live = l })
          (record { mem = m'; live = record { address = address; count = n } ∷ l })
  fail :
      (n : ℕ) (m m' : Mem) (l : List Grant)
      → 0 < n
      → mem_palloc g n m ≡ (none, m')
      → Step g (record { mem = m; live = l }) (record { mem = m'; live = l })
  give_back :
      (a : Grant) (m m' : Mem) (l r : List Grant) (done : Bool)
      → Without a l r
      → mem_pfree g a.address a.count m ≡ (done, m')
      → Step g (record { mem = m; live = l }) (record { mem = m'; live = r })
  work :
      (m m' : Mem) (l : List Grant)
      → SameBitmap g m m'
      → Step g (record { mem = m; live = l }) (record { mem = m'; live = l })

-- What runs from a memory with no grants come to.
pub data Reach (g : PageAllocator) : Session → Type 0 where
  start : (m : Mem) → Reach g (record { mem = m; live = [] })
  next : {s t : Session} → Reach g s → Step g s t → Reach g t

pub record IsSafe (g : PageAllocator) (s : Session) : Type 0 where
  pub separate : AllSeparate s.live
  pub held : AllHeld g s.mem s.live
