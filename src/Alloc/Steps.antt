-- ===== src/Alloc/Steps.antt =====
-- Each step of a run of `mem_alloc` and `mem_free` keeps the list of tails sound.
use os_v.Base.{
  ℕ, suc, ◌+◌, ◌-◌, ◌*◌, ◌^◌, ◌≤◌, ◌<◌, ◌≡◌, ◌≢◌, refl, Bool, true, false, some, List, [], ◌∷◌,
  ◌++◌, Without, Without-last, Without-middle, length, arith, ap, sym, ◌∙◌,
}
use mathlib.Core.Path.{subst}
use os_v.Memory.{read8}
use os_v.Machine.{Machine, ram, Run, done}
use os_v.Alloc.{prev_of, vaddr_of, gap, last, find_place, mem_alloc, mem_free}
use os_v.Alloc.Chain.{Block, Linked}
use os_v.Alloc.Pages.{AllMapped}
use os_v.Alloc.Free.{mem_free-Absent}
use os_v.Alloc.Outcome.{freed_block}
use os_v.Alloc.Append.{Appends, mem_alloc-Appends}
use os_v.Alloc.Gap.{pair}
use os_v.Alloc.Insert.{mem_alloc-Inserts}
use os_v.Alloc.Places.{around, ending, gap_place}
use os_v.Alloc.Sessions.{
  Allocation, IsOutside, IsUnknown, Session, Step, append, insert, give_back, refuse, work, Owned,
  IsSound,
}
use os_v.Alloc.Owned.{
  length-Owned, tail-IsOutside, Absent-Owned, Owned-Without, first-le, Linked-same,
}

-- What a call returned is what the theorem on it says.
same_machine :
    {A : Type 0} (out : Run A) (a b : A) (m m' : Machine)
    → out ≡ done a m
    → out ≡ done b m'
    → (a ≡ b) × (m ≡ m')
same_machine out a b m m' e f = (cc, cc)

append-IsSound :
    (size align x : ℕ) (m : Machine) (l : List Allocation)
    (sound : IsSound (record { machine = m; live = l })) (out : Run ℕ)
    → (r : Appends m sound.first sound.blocks x size align out)
    → IsSound (record { machine = r.1; live = record { address = r.0; size = size } ∷ l })
append-IsSound size align x m l sound out r =
    let new : Block = record { start = r.0; tail = r.0 + size } in
    record {
      first = sound.first;
      blocks = sound.blocks ++ new ∷ [];
      linked = r.5;
      own = sound.own;
      owned = (new, sound.blocks, Without-last new sound.blocks, (refl, omega arith), sound.owned);
    }

module _ (walk : ℕ) (m : Machine) (l : List Allocation)
    (sound : IsSound (record { machine = m; live = l })) where
  abbrev first : Block
  first = sound.first

  append_call :
      (depth size align s x : ℕ) (m' : Machine)
      → find_place walk size align m.heap.mem_list_start (ram m) ≡ some (last x)
      → x + align + size + 0x1030 < 2 ^ 64
      → AllMapped m (x - 0xFFF) (x + align + size + 48)
      → mem_alloc (suc depth) walk size align m ≡ done s m'
      → IsSound (record { machine = m'; live = record { address = s; size = size } ∷ l })
  append_call depth size align s x m' place room all e =
      let r =
        mem_alloc-Appends depth walk size align x m first sound.blocks sound.linked place room
          all in
      let same = same_machine (mem_alloc (suc depth) walk size align m) r.0 s r.1 m' r.2 e in
      rw (← same.0) rw (← same.1)
        (append-IsSound size align x m l sound (mem_alloc (suc depth) walk size align m) r)

  insert_call :
      (depth size align s begin entry : ℕ) (m' : Machine)
      → find_place walk size align m.heap.mem_list_start (ram m) ≡ some (gap entry begin)
      → begin + 24 * size + 24 ≤ vaddr_of entry (ram m)
      → prev_of entry (ram m) + 24 + align < 2 ^ 64
      → vaddr_of entry (ram m) + 0x1000 < 2 ^ 64
      → AllMapped m (begin - 0xFFF) (begin + 24 * size + 24)
      → mem_alloc (suc depth) walk size align m ≡ done s m'
      → IsSound (record { machine = m'; live = record { address = s; size = size } ∷ l })
  insert_call depth size align s begin entry m' place fits below end all e =
      let g =
        gap_place walk size align 0 m.heap.mem_list_start entry begin (ram m) first sound.blocks
          sound.linked place in
      let at = around g.0 sound.blocks g.1 g.2 in
      let on = ending first at.front in
      let list : first ∷ sound.blocks ≡ on.before ++ on.left ∷ g.0 ∷ at.back =
        ap (λ (t : List Block). first ∷ t) at.all ∙ on.eq (g.0 ∷ at.back) in
      let linked =
        subst (λ (t : List Block). Linked (ram m) 0 0 m.heap.mem_list_start t) list sound.linked in
      let two = pair on.before at.back on.left g.0 0 0 m.heap.mem_list_start (ram m) linked in
      let place' = rw g.3 at place in
      let r =
        mem_alloc-Inserts depth walk size align begin m on.before at.back on.left g.0 linked place'
          (rw two.vaddr_eq at (rw g.3 at fits)) (rw two.prev_eq at (rw g.3 at below))
          (rw two.vaddr_eq at (rw g.3 at end)) all in
      let same = same_machine (mem_alloc (suc depth) walk size align m) begin s r.0 m' r.1 e in
      let new : Block = record { start = begin; tail = begin + 24 * size } in
      rw (← same.0) rw (← same.1) (record {
        first = first;
        blocks = at.front ++ new ∷ g.0 ∷ at.back;
        linked =
            subst (λ (t : List Block). Linked (ram r.0) 0 0 r.0.heap.mem_list_start t)
              (sym (on.eq (new ∷ g.0 ∷ at.back))) r.4;
        own = sound.own;
        owned = (
          new,
          at.front ++ g.0 ∷ at.back,
          Without-middle new at.front (g.0 ∷ at.back),
          (refl, omega arith),
          subst (λ (t : List Block). Owned l t) at.all sound.owned,
        );
      })

  -- An allocation that is live can be given back.
  pub freed_call :
      (a : Allocation) (r : List Allocation)
      → Without a l r
      → length l + 1 < walk
      → (m' : Machine) × (mem_free walk a.address m ≡ done true m')
        × IsSound (record { machine = m'; live = r })
  freed_call a r w enough =
      let (b, rest, v, owns, owned) = Owned-Without a l r sound.blocks w sound.owned in
      let call =
        freed_block walk m first b sound.blocks rest sound.linked (omega (arith, sound.own)) v
          (omega (arith, length-Owned l sound.blocks sound.owned)) in
      (
        call.0,
        subst (λ (t : ℕ). mem_free walk t m ≡ done true call.0) owns.0 call.1,
        record { first = first; blocks = rest; linked = call.2; own = sound.own; owned = owned },
      )

  give_back_call :
      (a : Allocation) (r : List Allocation) (m' : Machine) (found : Bool)
      → Without a l r
      → length l + 1 < walk
      → mem_free walk a.address m ≡ done found m'
      → IsSound (record { machine = m'; live = r })
  give_back_call a r m' found w enough e =
      let call = freed_call a r w enough in
      let same = same_machine (mem_free walk a.address m) true found call.0 m' call.1 e in
      rw (← same.1) call.2

  refuse_call :
      (addr : ℕ) (m' : Machine) (found : Bool)
      → addr ≢ 0x2000
      → IsUnknown addr l
      → length l + 1 < walk
      → mem_free walk addr m ≡ done found m'
      → IsSound (record { machine = m'; live = l })
  refuse_call addr m' found other unknown enough e =
      let absent =
        mem_free-Absent walk addr m (first ∷ sound.blocks) sound.linked
          ((λ is. other (sym is ∙ sound.own)), Absent-Owned addr l sound.blocks unknown sound.owned)
          (omega (arith, length-Owned l sound.blocks sound.owned)) in
      let same = same_machine (mem_free walk addr m) false found m m' absent e in
      rw (← same.1) sound

  work_call :
      (m' : Machine)
      → m'.heap.mem_list_start ≡ m.heap.mem_list_start
      → ((q : ℕ) → m.heap.mem_list_start ≤ q → IsOutside q l → read8 q (ram m') ≡ read8 q (ram m))
      → IsSound (record { machine = m'; live = l })
  work_call m' list kept =
      let list_first : m.heap.mem_list_start ≡ first.tail = sound.linked.0 in
      record {
        first = first;
        blocks = sound.blocks;
        linked = rw list (
            Linked-same (ram m) (ram m') 0 0 m.heap.mem_list_start (first ∷ sound.blocks)
              (λ b rest w q lo hi.
                kept q
                  (omega (
                    arith,
                    lo,
                    list_first,
                    first-le b sound.blocks rest first (ram m) 0 0 m.heap.mem_list_start w
                        sound.linked,
                  ))
                  (tail-IsOutside (ram m) 0 0 m.heap.mem_list_start q sound.blocks l first b rest
                    sound.linked w lo hi sound.owned))
              sound.linked);
        own = sound.own;
        owned = sound.owned;
      }

pub Step-IsSound : (walk : ℕ) (s t : Session) → Step walk s t → IsSound s → IsSound t
Step-IsSound walk _ _ (append depth size align s x m m' l place room all e) sound =
    append_call walk m l sound depth size align s x m' place room all e
Step-IsSound walk _ _ (insert depth size align s begin entry m m' l place fits below end all e)
      sound =
    insert_call walk m l sound depth size align s begin entry m' place fits below end all e
Step-IsSound walk _ _ (give_back a m m' l r found w enough e) sound =
    give_back_call walk m l sound a r m' found w enough e
Step-IsSound walk _ _ (refuse addr m m' l found other unknown enough e) sound =
    refuse_call walk m l sound addr m' found other unknown enough e
Step-IsSound walk _ _ (work m m' l list kept) sound = work_call walk m l sound m' list kept
