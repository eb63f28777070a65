-- ===== src/Kernel/Boot.antt =====
-- What `main` has when its memory is set up: page tables, page allocator and memory allocator together.
use os_v.Base.{
  ℕ, ◌+◌, ◌-◌, ◌*◌, ◌/◌, ◌%◌, ◌^◌, ◌≤◌, ◌<◌, ◌≡◌, refl, ◌⊎◌, inl, inr, Bool-cases, sym, true, List,
  [], ◌∷◌, ◌&&◌, arith, u8, u64, shr, ltb, leb, if◌then◌else◌, ◌∙◌, ap,
}
use os_v.Memory.{Mem, read8}
use os_v.Memory.Laws.{read_bytes_cong, write_bytes-other}
use os_v.Screen.{Screen}
use os_v.Screen.Format.{Arg, number, width_of}
use os_v.Screen.Cursor.{IsOnScreen, Draws, Draws-trans}
use os_v.Screen.Output.{accepts, after_number, after_command, screen_print-Returns}
use os_v.Machine.{Paging, Machine, ram, Run, Cmd, done, ◌>>◌}
use os_v.Palloc.{MemorymapEntry, is_ram, PageAllocator}
use os_v.Palloc.Bitmap.{page_bit, page_bit-shift}
use os_v.Palloc.Alloc.{At, IsMapped}
use os_v.Palloc.Init.{has_kernel, with_table, filled_ram, end_after}
use os_v.Palloc.Claim.{Bounded}
use os_v.Palloc.Ready.{first_bit, Ready, new_kernelend_lem, mem_palloc_init-Ready}
use os_v.Paging.{mapped, page_map_init, page_trace_pml4}
use os_v.Alloc.{mem_init, set_next, set_prev}
use os_v.Alloc.Chain.{Linked}
use os_v.Alloc.Append.{mem_init-Linked}
use os_v.Machine.{print}
use os_v.Kernel.{Platform, behind_palloc, setup_memory}
use os_v.Kernel.Texts.{
  done_line_text, paging_text, palloc_text, alloc_text, kernel_start_text, kernel_end_text,
}

-- What holds behind a message holds of the message and what follows.
after_print :
    {B : Type 0} (d : Cmd B) (P : Run B → Type 0) (fmt : List ℕ) (args : List Arg) (m : Machine)
    → IsOnScreen m.screen
    → accepts fmt args ≡ true
    → ((s : Screen) → Draws m.screen s → P (d (record m { screen = s })))
    → P ((print fmt args >> d) m)
unfolding print
after_print {B} d P fmt args m on ok h =
    let (s, drawn, draws) = screen_print-Returns fmt args m.screen on ok in
    rw (drawn, print) (h s draws)

mem_init-other :
    (k memoryend maxlin q : ℕ) (m : Machine)
    → k + 24 ≤ 2 ^ 64
    → (q < k) ⊎ (k + 24 ≤ q)
    → read8 q (ram (mem_init k memoryend maxlin m)) ≡ read8 q (ram m)
unfolding mem_init
mem_init-other k memoryend maxlin q m room out =
    ap (λ (t : ℕ). t % 256)
      (write_bytes-other 8 (u64 (k + 16)) 0x2000 q (set_next k 0 (set_prev k 0 (ram m)))
          (omega arith)
        ∙ write_bytes-other 8 k 0 q (set_prev k 0 (ram m)) (omega arith)
        ∙ write_bytes-other 8 (u64 (k + 8)) 0 q (ram m) (omega arith))

-- A list of one block whose tail has not changed.
Linked-one :
    (r r' : Mem) (e tail start : ℕ)
    → ((q : ℕ) → tail ≤ q → q < tail + 24 → read8 q r' ≡ read8 q r)
    → Linked r 0 0 e (record { start = start; tail = tail } ∷ [])
    → Linked r' 0 0 e (record { start = start; tail = tail } ∷ [])
Linked-one r r' e tail start same h =
    let room = h.6 in
    (
      h.0,
      read_bytes_cong 8 (u64 (tail + 8)) r' r (λ q lo hi. same q (omega arith) (omega arith)) ∙ h.1,
      read_bytes_cong 8 (u64 (tail + 16)) r' r (λ q lo hi. same q (omega arith) (omega arith))
          ∙ h.2,
      h.3,
      h.4,
      h.5,
      h.6,
      read_bytes_cong 8 tail r' r (λ q lo hi. same q (omega arith) (omega arith)) ∙ h.7,
    )

-- Bit `j` of the bitmap at `endptr`, where those of the pages from `first` on of the part at `table` are
-- 0, and it is 1 unless it is one of them.
boot_bit :
    (endptr table first n j : ℕ) (r : Mem)
    → endptr ≤ table
    → ((k : ℕ) → first ≤ k → k < first + n → page_bit table k r ≡ 0)
    → ((j < 8 * (table - endptr) + first) ⊎ (8 * (table - endptr) + first + n ≤ j)
        → page_bit endptr j r ≡ 1)
    → page_bit endptr j r ≡ (
        if leb (8 * (table - endptr) + first) j && ltb j (8 * (table - endptr) + first + n)
        then 0
        else 1)
boot_bit endptr table first n j r up taken free =
    elim (Bool-cases
      (leb (8 * (table - endptr) + first) j && ltb j (8 * (table - endptr) + first + n))) [
        | inl own ↦
            let k : ℕ = j - 8 * (table - endptr) in
            let place : 8 * (table - endptr) + k ≡ j = ground arith in
            let at : endptr + (table - endptr) ≡ table = omega arith in
            let zero_ : page_bit table k r ≡ 0 = taken k (ground arith) (ground arith) in
            let shift : page_bit endptr (8 * (table - endptr) + k) r
                ≡ page_bit (endptr + (table - endptr)) k r =
              page_bit-shift endptr (table - endptr) k r in
            rw own (ap (λ (t : ℕ). page_bit endptr t r) (sym place) ∙ shift ∙ rw at zero_)
        | inr other ↦ rw other (free (ground arith))
      ]

-- The machine when the memory is set up, for a kernel from `kernelstart` to `kernelend` at `start` in
-- physical memory: its new end is that of a page, its pages lie in a RAM entry, of all the bits of the
-- bitmap exactly those of its pages are 0, and the memory allocator has one block, up to its new end.
pub record Booted (m m' : Machine) (g : Paging) (kernelstart kernelend end start : ℕ) : Type 0 where
  pub entry : MemorymapEntry
  pub table : ℕ
  pub at : At m.allocator.memorymap kernelend entry table
  pub entry_ram : is_ram entry ≡ true
  pub lower : entry.base ≤ start
  pub upper : start + (end - kernelstart) ≤ entry.base + entry.length
  pub behind : kernelend ≤ table
  pub paging : m'.paging ≡ g
  pub allocator : m'.allocator ≡ with_table kernelend m.allocator
  pub aligned : end % 0x1000 ≡ 0
  pub bits :
      (j : ℕ)
      → j / 8 < (with_table kernelend m.allocator).mem_palloc_size
      → page_bit kernelend j (ram m') ≡ (
          if leb (first_bit kernelend entry table start) j
            && ltb j (first_bit kernelend entry table start + (end - kernelstart) / 0x1000)
          then 0
          else 1)
  pub blocks :
      Linked (ram m') 0 0 m'.heap.mem_list_start (record { start = 0x2000; tail = end } ∷ [])

module _ (p : Platform) (start : ℕ) (m : Machine) where
  abbrev pub tables_of : Paging
  tables_of = page_map_init p.address_bits p.cr3 p.pml5_s p.pml4_s p.pdpt_s p.pd_s

  abbrev size : ℕ
  size = (with_table p.endptr m.allocator).mem_palloc_size

  abbrev pub new_end : ℕ
  new_end = end_after p.endptr m

  -- The kernel's pages are mapped, whatever output has been drawn.
  abbrev pub KernelMapped : Type 0
  KernelMapped =
      (s : Screen)
      → Draws m.screen s
      → (page_trace_pml4 tables_of p.kernel_start (filled_ram p.endptr (record m { screen = s }))
          ≡ mapped start)
        × (page_trace_pml4 tables_of new_end (filled_ram p.endptr (record m { screen = s }))
            ≡ mapped (start + (new_end - p.kernel_start)))

  abbrev Ends : Run ℕ → Type 0
  Ends out =
      (m' : Machine) × (out ≡ done new_end m')
      × Booted m m' tables_of p.kernel_start p.endptr new_end start

  -- From the page allocator's set-up, which left `m4`, to the end, which leaves `m'`.
  module _ (room : p.endptr + size + 0x1001 < 2 ^ 64) (above : 0x2000 ≤ p.endptr)
      (off : (new_end + 24 ≤ 0xB8000) ⊎ (0xB8000 + 2 * 1601 ≤ p.endptr)) where
    end_facts : (p.endptr + size < new_end) × (new_end + 24 ≤ 2 ^ 64)
    end_facts = let h = new_kernelend_lem p.endptr size room in (h.1, omega (arith, h.0, h.2))

    module _ (s3 s6 s10 : Screen) (m4 : Machine) (maxlin : ℕ)
        (r : Ready
          (record m { screen = s3; paging = tables_of })
          m4
          p.kernel_start
          p.endptr
          new_end
          start)
        (d6 : Draws m4.screen s6)
        (d10 : Draws (mem_init new_end 0x10000 maxlin (record m4 { screen = s6 })).screen s10) where
      byte_kept : (q : ℕ) → p.endptr ≤ q → q < p.endptr + size → read8 q s10.ram ≡ read8 q (ram m4)
      byte_kept q lo hi =
          let end = end_facts in
          d10.outside q (omega (arith, off, lo, hi, end))
          ∙ mem_init-other new_end 0x10000 maxlin q (record m4 { screen = s6 }) (end.1)
              (omega (arith, hi, end.0))
          ∙ d6.outside q (omega (arith, off, lo, hi, end))

      booted :
          Booted m
            (record (mem_init new_end 0x10000 maxlin (record m4 { screen = s6 })) { screen = s10 })
            tables_of
            p.kernel_start
            p.endptr
            new_end
            start
      unfolding mem_init
      booted =
          let end = end_facts in
          let count = ap (λ (g : PageAllocator). g.mem_palloc_size) r.globals in
          record {
            entry = r.entry;
            table = r.table;
            at = r.at;
            entry_ram = r.entry_ram;
            lower = r.lower;
            upper = r.upper;
            behind = r.behind;
            paging = ap (λ (x : Machine). x.paging) r.others;
            allocator = r.globals;
            aligned = r.aligned;
            bits = λ j inside.
                rw (byte_kept (p.endptr + j / 8) (omega arith) (omega (arith, inside))) (
                  boot_bit p.endptr r.table ((start - r.entry.base) / 0x1000)
                    ((new_end - p.kernel_start) / 0x1000) j (ram m4) r.behind r.taken
                    (λ out. r.free j (omega (arith, inside, count)) out));
            blocks =
                Linked-one (ram (mem_init new_end 0x10000 maxlin (record m4 { screen = s6 })))
                  s10.ram new_end new_end 0x2000
                  (λ q lo hi. d10.outside q (omega (arith, off, lo, hi, end)))
                  (mem_init-Linked new_end 0x10000 maxlin (record m4 { screen = s6 })
                    (omega (arith, above, end.0)) (end.1));
          }

    -- The cursor where the page allocator leaves it.
    on_screen :
        (s3 : Screen) (m4 : Machine)
        → IsOnScreen s3
        → Ready
            (record m { screen = s3; paging = tables_of })
            m4
            p.kernel_start
            p.endptr
            new_end
            start
        → IsOnScreen m4.screen
    on_screen s3 m4 on r =
        let x = ap (λ (n : Machine). n.screen.cur_x) r.others in
        let y = ap (λ (n : Machine). n.screen.cur_y) r.others in
        record { column = omega (arith, x, on.column); line = omega (arith, y, on.line) }

    messages :
        (s3 : Screen) (m4 : Machine)
        → IsOnScreen s3
        → Ready
            (record m { screen = s3; paging = tables_of })
            m4
            p.kernel_start
            p.endptr
            new_end
            start
        → Ends (behind_palloc p new_end m4)
    unfolding behind_palloc mem_init accepts after_number after_command width_of
    messages s3 m4 on r =
        after_print _ Ends done_line_text [] m4 (on_screen s3 m4 on r) refl λ s5 d5.
          after_print _ Ends alloc_text [] (record m4 { screen = s5 }) d5.cursor refl
            λ s6 d6.
              let m7 =
                mem_init new_end 0x10000 (u8 (shr p.address_bits 8)) (record m4 { screen = s6 }) in
              after_print _ Ends done_line_text [] m7
                (record { column = d6.cursor.column; line = d6.cursor.line }) refl
                λ s8 d8.
                  after_print _ Ends kernel_start_text (number p.kernel_start ∷ [])
                    (record m7 { screen = s8 }) d8.cursor refl
                    λ s9 d9.
                      after_print _ Ends kernel_end_text (number new_end ∷ [])
                        (record m7 { screen = s9 }) d9.cursor refl
                        λ s10 d10. (
                          record m7 { screen = s10 },
                          refl,
                          booted s3 s6 s10 m4 (u8 (shr p.address_bits 8)) r (Draws-trans d5 d6)
                              (Draws-trans d8 (Draws-trans d9 d10)),
                        )

-- The part of `main` that sets up the memory, from a machine whose cursor is on the screen: where the
-- kernel's pages up to its new end are mapped, whatever output has been drawn, physically as far apart as
-- linearly, fewer than 2 ^ 31 pages, a RAM entry of the memory map has all of them, the bitmap of the
-- memory map is within reach, no RAM passes the end of the address space, and the bitmap and the first
-- tail lie outside of video memory, it returns. Then the globals of the page tables and of the page
-- allocator are set, of all the bits of the bitmap exactly those of the kernel's pages are 0, and the
-- list of the memory allocator has one block, up to the new end of the kernel.
pub setup_memory-Booted :
    (p : Platform) (start : ℕ) (m : Machine) (e : MemorymapEntry) (t : ℕ)
    → IsOnScreen m.screen
    → p.endptr + (with_table p.endptr m.allocator).mem_palloc_size + 0x1001 < 2 ^ 64
    → 0x2000 ≤ p.endptr
    → p.kernel_start ≤ p.endptr
    → (new_end p start m - p.kernel_start) / 0x1000 < 2 ^ 31
    → (new_end p start m + 24 ≤ 0xB8000) ⊎ (0xB8000 + 2 * 1601 ≤ p.endptr)
    → KernelMapped p start m
    → At m.allocator.memorymap p.endptr e t
    → has_kernel e start (start + (new_end p start m - p.kernel_start)) ≡ true
    → IsMapped m.allocator.memorymap p.endptr
    → Bounded m.allocator.memorymap
    → (m' : Machine) × (setup_memory p m ≡ done (new_end p start m) m')
      × Booted m m' (tables_of p start m) p.kernel_start p.endptr (new_end p start m) start
unfolding setup_memory accepts after_number after_command width_of
setup_memory-Booted p start m e t on room above order few off walks at has reach bound =
    after_print _ (Ends p start m) paging_text [] m on refl λ s1 d1.
      after_print _ (Ends p start m) done_line_text []
        (record m { screen = s1; paging = tables_of p start m }) d1.cursor refl
        λ s2 d2.
          after_print _ (Ends p start m) palloc_text []
            (record m { screen = s2; paging = tables_of p start m }) d2.cursor refl
            λ s3 d3.
              let m3 : Machine = record m { screen = s3; paging = tables_of p start m } in
              let found = walks s3 (Draws-trans d1 (Draws-trans d2 d3)) in
              let (m4, run, ready) =
                mem_palloc_init-Ready p.kernel_start p.endptr start m3 e t room order few found.0
                  found.1 at has reach bound in
              rw run (messages p start m room above off s3 m4 d3.cursor ready)
