-- ===== src/Alloc/Sessions.antt =====
-- Runs of `mem_alloc` and `mem_free` after `mem_init`: the allocations that are live, and the steps.
use os_v.Base.{
  ℕ, suc, ◌+◌, ◌-◌, ◌*◌, ◌^◌, ◌≤◌, ◌<◌, ◌≡◌, ◌≢◌, ◌⊎◌, Bool, some, List, [], ◌∷◌, Without, length,
}
use os_v.Memory.{read8}
use os_v.Machine.{Machine, ram, done}
use os_v.Alloc.{prev_of, vaddr_of, gap, last, find_place, mem_init, mem_alloc, mem_free}
use os_v.Alloc.Chain.{Block, Linked}
use os_v.Alloc.Pages.{AllMapped}

-- `size` bytes from `address` on that `mem_alloc` returned to somebody.
pub record Allocation : Type 0 where
  pub address : ℕ
  pub size : ℕ

-- Two allocations share no byte, and there is room for a tail behind the lower one.
abbrev pub Separate : Allocation → Allocation → Type 0
Separate a b = (a.address + a.size + 24 ≤ b.address) ⊎ (b.address + b.size + 24 ≤ a.address)

abbrev pub ApartFrom : Allocation → List Allocation → Type 0
ApartFrom a [] = Unit {0}
ApartFrom a (b ∷ bs) = Separate a b × ApartFrom a bs

abbrev pub AllSeparate : List Allocation → Type 0
AllSeparate [] = Unit {0}
AllSeparate (a ∷ bs) = ApartFrom a bs × AllSeparate bs

-- A byte of none of the allocations.
abbrev pub IsOutside : ℕ → List Allocation → Type 0
IsOutside q [] = Unit {0}
IsOutside q (a ∷ l) = ((q < a.address) ⊎ (a.address + a.size ≤ q)) × IsOutside q l

-- An address at which no allocation starts.
abbrev pub IsUnknown : ℕ → List Allocation → Type 0
IsUnknown addr [] = Unit {0}
IsUnknown addr (a ∷ l) = (a.address ≢ addr) × IsUnknown addr l

-- The machine, and the allocations that have not been given back.
pub record Session : Type 0 where
  pub machine : Machine
  pub live : List Allocation

-- A call of `mem_alloc` that goes behind the last block or between two blocks, on mapped pages and
-- without overflow, and, in between, with room for the `24 * size` bytes that the code moves by; a
-- call of `mem_free` for an allocation, or for an address that is none; and work that changes the
-- bytes of allocations, and others below the first tail.
pub data Step (walk : ℕ) : Session → Session → Type 0 where
  append :
      (depth size align s x : ℕ) (m m' : Machine) (l : List Allocation)
      → find_place walk size align m.heap.mem_list_start (ram m) ≡ some (last x)
      → x + align + size + 0x1030 < 2 ^ 64
      → AllMapped m (x - 0xFFF) (x + align + size + 48)
      → mem_alloc (suc depth) walk size align m ≡ done s m'
      → Step walk
          (record { machine = m; live = l })
          (record { machine = m'; live = record { address = s; size = size } ∷ l })
  insert :
      (depth size align s start entry : ℕ) (m m' : Machine) (l : List Allocation)
      → find_place walk size align m.heap.mem_list_start (ram m) ≡ some (gap entry start)
      → start + 24 * size + 24 ≤ vaddr_of entry (ram m)
      → prev_of entry (ram m) + 24 + align < 2 ^ 64
      → vaddr_of entry (ram m) + 0x1000 < 2 ^ 64
      → AllMapped m (start - 0xFFF) (start + 24 * size + 24)
      → mem_alloc (suc depth) walk size align m ≡ done s m'
      → Step walk
          (record { machine = m; live = l })
          (record { machine = m'; live = record { address = s; size = size } ∷ l })
  give_back :
      (a : Allocation) (m m' : Machine) (l r : List Allocation) (found : Bool)
      → Without a l r
      → length l + 1 < walk
      → mem_free walk a.address m ≡ done found m'
      → Step walk (record { machine = m; live = l }) (record { machine = m'; live = r })
  refuse :
      (addr : ℕ) (m m' : Machine) (l : List Allocation) (found : Bool)
      → addr ≢ 0x2000
      → IsUnknown addr l
      → length l + 1 < walk
      → mem_free walk addr m ≡ done found m'
      → Step walk (record { machine = m; live = l }) (record { machine = m'; live = l })
  work :
      (m m' : Machine) (l : List Allocation)
      → m'.heap.mem_list_start ≡ m.heap.mem_list_start
      → ((q : ℕ) → m.heap.mem_list_start ≤ q → IsOutside q l → read8 q (ram m') ≡ read8 q (ram m))
      → Step walk (record { machine = m; live = l }) (record { machine = m'; live = l })

-- What runs from `mem_init` on come to.
pub data Reach (walk : ℕ) : Session → Type 0 where
  start :
      (kernelend memoryend maxlin : ℕ) (m : Machine)
      → 0x2000 ≤ kernelend
      → kernelend + 24 ≤ 2 ^ 64
      → Reach walk (record { machine = mem_init kernelend memoryend maxlin m; live = [] })
  next : {s t : Session} → Reach walk s → Step walk s t → Reach walk t

-- A block belongs to an allocation.
abbrev pub Owns : Allocation → Block → Type 0
Owns a b = (b.start ≡ a.address) × (a.address + a.size ≤ b.tail)

-- The blocks are those of the allocations, one for each.
abbrev pub Owned : List Allocation → List Block → Type 0
Owned [] bs = length bs ≡ 0
Owned (a ∷ l) bs = (b : Block) × (rest : List Block) × Without b bs rest × Owns a b × Owned l rest

-- The tails in memory are those of the kernel's own block and of the blocks of the allocations.
pub record IsSound (s : Session) : Type 0 where
  pub first : Block
  pub blocks : List Block
  pub linked : Linked (ram s.machine) 0 0 s.machine.heap.mem_list_start (first ∷ blocks)
  pub own : first.start ≡ 0x2000
  pub owned : Owned s.live blocks
