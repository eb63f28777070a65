-- ===== src/Palloc/Tests.antt =====
-- The page allocator on a small machine: one reserved entry between two RAM entries, with the
-- bitmap at 0x4000, and the theorems at it.
use os_v.Base.{
  ℕ, ◌<◌, ◌≡◌, refl, inl, inr, true, none, some, [], ◌∷◌, here, there, arith, ◌==◌, if◌then◌else◌,
}
use os_v.Memory.{Mem, read8, write8}
use os_v.Palloc.{MemorymapEntry, PageAllocator, is_ram, advance, mem_palloc, mem_pfree}
use os_v.Palloc.Alloc.{At, IsMapped, searched, Outcome, mem_palloc-Outcome, mem_palloc_eighth}
use os_v.Palloc.Free.{IsPlaced, FreeOutcome, mem_pfree-FreeOutcome}
use os_v.Palloc.RoundTrip.{mem_pfree-mem_palloc}
use os_v.Palloc.Sessions.{Grant, Reach, start, next, take, give_back, IsSafe}
use os_v.Palloc.Safety.{Reach-IsSafe}

abbrev low_ram : MemorymapEntry
low_ram = record { base = 0; length = 0x40000; type = 1 }

abbrev rom : MemorymapEntry
rom = record { base = 0xF0000; length = 0x10000; type = 2 }

abbrev high_ram : MemorymapEntry
high_ram = record { base = 0x100000; length = 0x100000; type = 1 }

abbrev machine : PageAllocator
machine = record {
  memorymap = low_ram ∷ rom ∷ high_ram ∷ [];
  mem_palloc_start = 0x4000;
  mem_palloc_size = 40;
  memorymap_max_ram = 0x140000;
}

-- All pages free, but for the first two of the upper entry, whose bitmap begins at byte 8.
abbrev boot_memory : Mem
boot_memory = λ p. if p == 0x4008 then 0xFC else 0xFF

takes_nine : (mem_palloc machine 9 boot_memory).0 ≡ some 0x102000
unfolding mem_palloc
takes_nine = refl

marks_nine : (mem_palloc machine 9 boot_memory).1 0x4008 ≡ 0
unfolding mem_palloc write8
marks_nine = refl

refuses_many : (mem_palloc machine 33 boot_memory).0 ≡ none
unfolding mem_palloc
refuses_many = refl

gives_back : (mem_pfree machine 0x102000 9 boot_memory).0 ≡ true
unfolding mem_pfree
gives_back = refl

machine-IsMapped : IsMapped machine.memorymap 0x4000
unfolding advance
machine-IsMapped = (λ r. omega arith, (λ r. omega arith, (λ r. omega arith, tt)))

machine-IsPlaced : IsPlaced machine.memorymap
machine-IsPlaced = (
  λ r. (omega arith, (λ x. omega arith, (λ x. omega arith, tt))),
  (λ r. (omega arith, (λ x. omega arith, tt)), (λ r. (omega arith, tt), tt)),
)

mem_palloc-Outcome_example :
    Outcome machine.memorymap 0x4000 9 boot_memory (mem_palloc machine 9 boot_memory)
mem_palloc-Outcome_example = mem_palloc-Outcome machine 9 boot_memory machine-IsMapped (omega arith)

mem_pfree-FreeOutcome_example :
    FreeOutcome machine.memorymap 0x4000 0x102000 9 boot_memory
      (mem_pfree machine 0x102000 9 boot_memory)
mem_pfree-FreeOutcome_example =
    mem_pfree-FreeOutcome machine 0x102000 9 boot_memory machine-IsMapped machine-IsPlaced
      (omega arith) (omega arith)

abbrev after_nine : Mem
after_nine = (mem_palloc machine 9 boot_memory).1

after_nine_lem : mem_palloc machine 9 boot_memory ≡ (some 0x102000, after_nine)
unfolding mem_palloc
after_nine_lem = refl

mem_pfree-mem_palloc_example :
    (m'' : Mem) × (mem_pfree machine 0x102000 9 after_nine ≡ (true, m''))
    × ((q : ℕ) → read8 q m'' ≡ read8 q boot_memory)
mem_pfree-mem_palloc_example =
    mem_pfree-mem_palloc machine 9 0x102000 boot_memory after_nine machine-IsMapped machine-IsPlaced
      (omega arith) after_nine_lem

machine_short :
    (e : MemorymapEntry) (t : ℕ)
    → At machine.memorymap 0x4000 e t
    → is_ram e ≡ true
    → searched e < 33
unfolding advance
machine_short e t (inl (ee, _)) ram = rw (← ee) (omega arith)
machine_short e t (inr (inl (ee, _))) ram = rw (← ee) (omega arith)
machine_short e t (inr (inr (inl (ee, _)))) ram = rw (← ee) (omega arith)
machine_short e t (inr (inr (inr z))) ram = absurd z

mem_palloc_eighth_example : mem_palloc machine 33 boot_memory ≡ (none, boot_memory)
mem_palloc_eighth_example =
    mem_palloc_eighth machine 33 boot_memory machine-IsMapped (omega arith) machine_short

-- Nine pages, then three more, then the nine given back.
abbrev nine_pages : Grant
nine_pages = record { address = 0x102000; count = 9 }

abbrev three_pages : Grant
three_pages = record { address = 0; count = 3 }

abbrev after_three : Mem
after_three = (mem_palloc machine 3 after_nine).1

after_three_lem : mem_palloc machine 3 after_nine ≡ (some 0, after_three)
unfolding mem_palloc
after_three_lem = refl

abbrev after_give_back : Mem
after_give_back = (mem_pfree machine 0x102000 9 after_three).1

after_give_back_lem : mem_pfree machine 0x102000 9 after_three ≡ (true, after_give_back)
unfolding mem_pfree
after_give_back_lem = refl

abbrev short_run : Reach machine (record { mem = after_give_back; live = three_pages ∷ [] })
short_run =
    next
      (next
        (next (start boot_memory)
          (take 9 0x102000 boot_memory after_nine [] (omega arith) after_nine_lem))
        (take 3 0 after_nine after_three (nine_pages ∷ []) (omega arith) after_three_lem))
      (give_back nine_pages after_three after_give_back (three_pages ∷ nine_pages ∷ [])
        (three_pages ∷ []) true (there three_pages (here [])) after_give_back_lem)

Reach-IsSafe_example : IsSafe machine (record { mem = after_give_back; live = three_pages ∷ [] })
Reach-IsSafe_example =
    Reach-IsSafe machine (record { mem = after_give_back; live = three_pages ∷ [] })
      machine-IsMapped machine-IsPlaced short_run
