-- ===== src/Alloc/Safety.antt =====
-- Runs of `mem_alloc` and `mem_free`: the list stays sound, and no byte has two owners.
use os_v.Base.{ℕ, ◌+◌, ◌<◌, ◌≡◌, refl, true, List, [], Without, length}
use os_v.Machine.{Machine, ram, done}
use os_v.Alloc.{next_of, mem_free}
use os_v.Alloc.Append.{mem_init-Linked}
use os_v.Alloc.Sessions.{Allocation, AllSeparate, Session, Reach, start, next, IsSound}
use os_v.Alloc.Owned.{Linked-PairwiseApart, AllSeparate-Owned}
use os_v.Alloc.Steps.{freed_call, Step-IsSound}

pub Reach-IsSound : (walk : ℕ) (s : Session) → Reach walk s → IsSound s
Reach-IsSound walk _ (start kernelend memoryend maxlin m lo hi) = record {
  first = record { start = 0x2000; tail = kernelend };
  blocks = [];
  linked = mem_init-Linked kernelend memoryend maxlin m lo hi;
  own = refl;
  owned = refl;
}
Reach-IsSound walk t (next {s} reach step) = Step-IsSound walk s t step (Reach-IsSound walk s reach)

-- After `mem_init` with an end of the kernel from 0x2000 on that leaves room for the tail, whatever
-- calls of `mem_alloc` returned, behind the last block or in a gap, on mapped pages, without overflow and,
-- in a gap, with room for the `24 * size` bytes and the tail that the code takes there (it tests for
-- `size + 24` bytes only, and the calls that this lets overlap are left out); whatever of the allocations was given to `mem_free`, the last
-- block included; whatever other address than 0x2000, at which no live allocation starts, was given to
-- it, each time with fuel for the list; and whatever was written to the bytes of live allocations or
-- below the first tail: any two live allocations share no byte and leave room for a tail between
-- them.
pub Reach-AllSeparate : (walk : ℕ) (s : Session) → Reach walk s → AllSeparate s.live
Reach-AllSeparate walk s reach =
    let sound = Reach-IsSound walk s reach in
    AllSeparate-Owned s.live sound.blocks
      (Linked-PairwiseApart (ram s.machine) (sound.first.tail + 24) sound.first.tail
        (next_of sound.first.tail (ram s.machine)) sound.blocks sound.linked.7)
      sound.owned

-- In every such state `mem_free` of a live allocation, with fuel for the live allocations and two,
-- returns 0, and the tails in memory are then those of the kernel's block and of the allocations
-- that are left.
pub Reach-frees :
    (walk : ℕ) (s : Session) (a : Allocation) (r : List Allocation)
    → Reach walk s
    → Without a s.live r
    → length s.live + 1 < walk
    → (m' : Machine) × (mem_free walk a.address s.machine ≡ done true m')
      × IsSound (record { machine = m'; live = r })
Reach-frees walk s a r reach w enough =
    freed_call walk s.machine s.live (Reach-IsSound walk s reach) a r w enough
