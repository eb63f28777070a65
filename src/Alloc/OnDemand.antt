-- ===== src/Alloc/OnDemand.antt =====
-- `mem_alloc_check_page` where pages are missing and their page table is there.
use mathlib.Core.Path.{subst}
use os_v.Base.{
  ℕ, zero, suc, ◌+◌, ◌-◌, ◌*◌, ◌/◌, ◌%◌, ◌^◌, ◌≤◌, ◌<◌, ◌≡◌, refl, ◌⊎◌, inl, inr, arith, Bool-cases,
  ltb, u64, ◌∙◌, lt→ltb, le→ltb,
}
use os_v.Memory.{Mem}
use os_v.Machine.{Machine, Run, Cmd, done, halted}
use os_v.Paging.{mapped, page_trace_pml4}
use os_v.Alloc.{check_one, check_pages, mem_alloc_check_page}
use os_v.Alloc.Pages.{page_base}
use os_v.Alloc.Region.{InRegion, Region, HasTables, Frame, with_state}
use os_v.Alloc.TakePage.{Mapping-trans, Mapping-mapped, Progress, Stopped, Step, check_one-Step}

check_pages_go :
    (alloc : ℕ → ℕ → Cmd ℕ) (fuel page end : ℕ) (m m' : Machine)
    → page < end
    → page + 0x1000 < 2 ^ 64
    → check_one alloc page m ≡ done tt m'
    → check_pages alloc (suc fuel) page end m ≡ check_pages alloc fuel (page + 0x1000) end m'
unfolding check_pages
check_pages_go alloc fuel page end m m' less room h =
    let step : u64 (page + 0x1000) ≡ page + 0x1000 = omega arith in
    rw (lt→ltb page end less, h, check_pages) rw step refl

check_pages_stop :
    (alloc : ℕ → ℕ → Cmd ℕ) (fuel page end : ℕ) (m m' : Machine)
    → page < end
    → check_one alloc page m ≡ halted m'
    → check_pages alloc (suc fuel) page end m ≡ halted m'
unfolding check_pages
check_pages_stop alloc fuel page end m m' less h = rw (lt→ltb page end less, h, check_pages) refl

module _ (alloc : ℕ → ℕ → Cmd ℕ) (m : Machine) (n e4 e3 e2 i3 i2 : ℕ)
    (g : Region m n e4 e3 e2 i3 i2) where
  -- How the check of the pages from `page` on and below `end` ends: all of them are mapped, and nothing
  -- has changed but the bitmap, the page table and `paddr`; or a page is missing when no page is free,
  -- and the kernel has halted.
  abbrev pub Ends : ℕ → ℕ → Mem → Run (Unit {0}) → Type 0
  Ends page end r out =
      ((r' : Mem) × (p : ℕ) × (out ≡ done tt (with_state m r' p))
        × Progress alloc m n e4 e3 e2 i3 i2 g r r'
        × ((q : ℕ)
            → page ≤ q
            → q < end
            → q % 0x1000 ≡ 0
            → (x : ℕ) × (page_trace_pml4 m.paging q r' ≡ mapped x)))
      ⊎ ((q : ℕ) × (r' : Mem) × (page ≤ q)
          × (q < end)
          × Frame m e2 r r'
          × Stopped alloc m n e4 e3 e2 i3 i2 g r' q out)

  pub check_pages-Ends :
      (fuel page end p0 : ℕ) (r : Mem)
      → page % 0x1000 ≡ 0
      → end + 0x1000 < 2 ^ 64
      → end ≤ page + 0x1000 * fuel
      → ((q : ℕ) → page ≤ q → q < end → q % 0x1000 ≡ 0 → InRegion m i3 i2 q)
      → HasTables m e4 e3 e2 i3 i2 r
      → Ends page end r (check_pages alloc (suc fuel) page end (with_state m r p0))
  check_pages-Ends zero page end p0 r aligned room enough inside h = inl (
    r,
    p0,
    unfold check_pages in rw (le→ltb page end (omega arith), check_pages),
    (h, (λ w off. refl), (λ q at. inl refl)),
    λ q lo hi a. absurd (omega arith),
  )
  check_pages-Ends (suc fuel) page end p0 r aligned room enough inside h =
      elim (Bool-cases (ltb page end)) [
        | inr over ↦ inl (
          r,
          p0,
          unfold check_pages in rw (over, check_pages),
          (h, (λ w off. refl), (λ q at. inl refl)),
          λ q lo hi a. absurd (ground arith),
        )
        | inl more ↦
            let less : page < end = ground arith in
            by_step less
              (λ p1 r1 h1.
                check_pages-Ends fuel (page + 0x1000) end p1 r1 (omega arith) room (omega arith)
                  (λ q lo hi a. inside q (omega arith) hi a) h1)
              (check_one-Step alloc m n e4 e3 e2 i3 i2 g page p0 r h
                (inside page (omega arith) less aligned))
      ]
    where
      by_rest :
          (r1 : Mem) (p1 : ℕ)
          → page < end
          → check_one alloc page (with_state m r p0) ≡ done tt (with_state m r1 p1)
          → Progress alloc m n e4 e3 e2 i3 i2 g r r1
          → ((x : ℕ) × (page_trace_pml4 m.paging page r1 ≡ mapped x))
          → Ends
              (page + 0x1000)
              end
              r1
              (check_pages alloc (suc fuel) (page + 0x1000) end (with_state m r1 p1))
          → Ends page end r (check_pages alloc (suc (suc fuel)) page end (with_state m r p0))
      by_rest r1 p1 less one (h1, frame1, stays1) (x, own)
            (inl (r3, p3, e, (h2, frame2, stays2), all)) =
          inl (
            r3,
            p3,
            check_pages_go alloc (suc fuel) page end (with_state m r p0) (with_state m r1 p1) less
                  (omega arith) one
                ∙ e,
            (
              h2,
              (λ w off. frame2 w off ∙ frame1 w off),
              (λ q at. Mapping-trans m e2 q r r1 r3 frame1 (stays1 q at) (stays2 q at)),
            ),
            λ q lo hi a. elim (Bool-cases (ltb q (page + 0x1000))) [
              | inl here_ ↦
                  let is : page ≡ q = ground arith in
                  (
                    x,
                    subst (λ (t : ℕ). page_trace_pml4 m.paging t r3 ≡ mapped x) is
                        (Mapping-mapped m e2 page x r1 r3
                          (stays2 page (inside page (omega arith) less aligned)) own),
                  )
              | inr later ↦ all q (ground arith) hi a
            ],
          )
      by_rest r1 p1 less one (h1, frame1, stays1) own (inr (q, r3, lo, hi, frame2, stop)) = inr (
        q,
        r3,
        omega arith,
        hi,
        (λ w off. frame2 w off ∙ frame1 w off),
        (
          stop.0,
          check_pages_go alloc (suc fuel) page end (with_state m r p0) (with_state m r1 p1) less
                (omega arith) one
              ∙ stop.1,
          stop.2,
          stop.3,
        ),
      )

      by_step :
          page < end
          → ((p1 : ℕ) (r1 : Mem)
              → HasTables m e4 e3 e2 i3 i2 r1
              → Ends
                  (page + 0x1000)
                  end
                  r1
                  (check_pages alloc (suc fuel) (page + 0x1000) end (with_state m r1 p1)))
          → Step alloc m n e4 e3 e2 i3 i2 g page r (check_one alloc page (with_state m r p0))
          → Ends page end r (check_pages alloc (suc (suc fuel)) page end (with_state m r p0))
      by_step less go (inl (r1, p1, one, prog, own)) =
          by_rest r1 p1 less one prog own (go p1 r1 prog.0)
      by_step less go (inr (m', stop, lost, full)) = inr (
        page,
        r,
        omega arith,
        less,
        (λ w off. refl),
        (
          m',
          check_pages_stop alloc (suc fuel) page end (with_state m r p0) m' less stop,
          lost,
          full,
        ),
      )

  pub mem_alloc_check_page-Ends :
      (start end p0 : ℕ) (r : Mem)
      → start ≤ end
      → end + 0x1000 < 2 ^ 64
      → ((q : ℕ) → start - 0xFFF ≤ q → q < end → q % 0x1000 ≡ 0 → InRegion m i3 i2 q)
      → HasTables m e4 e3 e2 i3 i2 r
      → Ends
          (start / 0x1000 * 0x1000)
          end
          r
          (mem_alloc_check_page alloc start end (with_state m r p0))
  unfolding mem_alloc_check_page
  mem_alloc_check_page-Ends start end p0 r order room inside h =
      let base = page_base start (omega arith) in
      let fuel : (end - start / 0x1000 * 0x1000) / 0x1000 + 2
          ≡ suc ((end - start / 0x1000 * 0x1000) / 0x1000 + 1) =
        omega arith in
      rw base rw fuel (
        check_pages-Ends ((end - start / 0x1000 * 0x1000) / 0x1000 + 1) (start / 0x1000 * 0x1000)
          end p0 r (omega arith) room (omega arith) (λ q lo hi a. inside q (omega arith) hi a) h)
