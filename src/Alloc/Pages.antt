-- ===== src/Alloc/Pages.antt =====
-- The alignment of a block, and the check of its pages where they are mapped.
use os_v.Base.{
  ℕ, zero, suc, ◌+◌, ◌-◌, ◌*◌, ◌/◌, ◌%◌, ◌^◌, ◌≤◌, ◌<◌, ◌≡◌, ◌≢◌, refl, inl, inr, arith, ltb, ◌==◌,
  Bool-cases, u64, bit_and, ◌∙◌, lt→ltb, le→ltb,
}
use mathlib.Core.Path.{subst}
use native.Mathlib.Nat.{div-add-mod, mul-mod_right, mod-lt}
use os_v.Base.Bits.{bit_and-field}
use os_v.Machine.{Machine, ram, Cmd, done}
use os_v.Paging.{mapped, page_trace_pml4}
use os_v.Alloc.{align_start, check_one, check_pages, mem_alloc_check_page}

-- The alignment moves a start up to a multiple, by `align` bytes at most.
pub align_start_lem :
    (start align : ℕ)
    → start + align < 2 ^ 64
    → (start ≤ align_start start align)
      × (align_start start align ≤ start + align)
      × (align ≢ 0 → align_start start align % align ≡ 0)
align_start_lem start align h = elim (Bool-cases (align == 0)) [
  | inl none_ ↦ (
    unfold align_start in ground arith,
    unfold align_start in ground arith,
    λ ne. absurd (ground arith),
  )
  | inr some_ ↦
      let pos : 0 < align = ground arith in
      let small = mod-lt start pos in
      let value : align_start start align ≡ align * (start / align + 1) =
        unfold align_start in rw some_ (omega (arith, small, div-add-mod start align)) in
      (
        omega (arith, value, small, div-add-mod start align),
        omega (arith, value, small, div-add-mod start align),
        λ ne. rw value (mul-mod_right align (start / align + 1)),
      )
]

-- The mask of a page's address.
pub page_base :
    (start : ℕ) → start < 2 ^ 64 → bit_and start 0xFFFFFFFFFFFFF000 ≡ start / 0x1000 * 0x1000
page_base start h =
    let field : bit_and start 0xFFFFFFFFFFFFF000 ≡ start / 2 ^ 12 % 2 ^ 52 * 2 ^ 12 =
      bit_and-field 52 12 start in
    omega (arith, field)

-- Every page from `page` on and below `end` is mapped.
abbrev pub AllMapped : Machine → ℕ → ℕ → Type 0
AllMapped m page end =
    (q : ℕ)
    → page ≤ q
    → q < end
    → q % 0x1000 ≡ 0
    → (p : ℕ) × (page_trace_pml4 m.paging q (ram m) ≡ mapped p)

abbrev pub with_paddr : Machine → ℕ → Machine
with_paddr m q = record m { heap = record (m.heap) { paddr = q } }

module _ (alloc : ℕ → ℕ → Cmd ℕ) where
  check_one-mapped :
      (page p : ℕ) (m : Machine)
      → page_trace_pml4 m.paging page (ram m) ≡ mapped p
      → check_one alloc page m ≡ done tt (with_paddr m p)
  unfolding check_one
  check_one-mapped page p m h = rw (h, check_one)

  check_pages_step :
      (fuel page end p : ℕ) (m : Machine)
      → page < end
      → page + 0x1000 < 2 ^ 64
      → page_trace_pml4 m.paging page (ram m) ≡ mapped p
      → check_pages alloc (suc fuel) page end m
        ≡ check_pages alloc fuel (page + 0x1000) end (with_paddr m p)
  unfolding check_pages
  check_pages_step fuel page end p m less room h =
      let step : u64 (page + 0x1000) ≡ page + 0x1000 = omega arith in
      rw (lt→ltb page end less, check_one-mapped page p m h, check_pages) rw step refl

  pub check_pages-mapped :
      (fuel page end : ℕ) (m : Machine)
      → page % 0x1000 ≡ 0
      → end + 0x1000 < 2 ^ 64
      → end ≤ page + 0x1000 * fuel
      → AllMapped m page end
      → (q : ℕ) × (check_pages alloc (suc fuel) page end m ≡ done tt (with_paddr m q))
  check_pages-mapped zero page end m aligned room enough all =
      (m.heap.paddr, unfold check_pages in rw (le→ltb page end (omega arith), check_pages))
  check_pages-mapped (suc fuel) page end m aligned room enough all =
      elim (Bool-cases (ltb page end)) [
        | inl more ↦
            let less : page < end = ground arith in
            let here = all page (omega arith) less aligned in
            let rest =
              check_pages-mapped fuel (page + 0x1000) end (with_paddr m here.0) (omega arith) room
                (omega arith) (λ q lo hi a. all q (omega arith) hi a) in
            (
              rest.0,
              check_pages_step (suc fuel) page end here.0 m less (omega arith) here.1 ∙ rest.1,
            )
        | inr over ↦ (m.heap.paddr, unfold check_pages in rw (over, check_pages))
      ]

  -- The check gets to a page through mapped ones.
  pub check_pages_until :
      (k fuel page end : ℕ) (m : Machine)
      → page % 0x1000 ≡ 0
      → page + k * 0x1000 < end
      → end + 0x1000 < 2 ^ 64
      → AllMapped m page (page + k * 0x1000)
      → (q : ℕ) × (check_pages alloc (k + fuel) page end m
          ≡ check_pages alloc fuel (page + k * 0x1000) end (with_paddr m q))
  check_pages_until zero fuel page end m aligned less room all =
      let at : page + 0 * 0x1000 ≡ page = omega arith in
      let same : 0 + fuel ≡ fuel = omega arith in (m.heap.paddr, rw at rw same refl)
  check_pages_until (suc k) fuel page end m aligned less room all =
      let here = all page (omega arith) (omega arith) aligned in
      let at : page + suc k * 0x1000 ≡ page + 0x1000 + k * 0x1000 = omega arith in
      let same : suc k + fuel ≡ suc (k + fuel) = omega arith in
      let rest =
        check_pages_until k fuel (page + 0x1000) end (with_paddr m here.0) (omega arith)
          (omega arith) room (λ q lo hi a. all q (omega arith) (omega arith) a) in
      (
        rest.0,
        rw at rw same (
            check_pages_step (k + fuel) page end here.0 m (omega arith) (omega arith) here.1
            ∙ rest.1),
      )

  -- The last page of a check that is not mapped.
  pub check_pages-missing :
      (fuel page end : ℕ) (m m' : Machine)
      → page < end
      → end ≤ page + 0x1000
      → end + 0x1000 < 2 ^ 64
      → check_one alloc page m ≡ done tt m'
      → check_pages alloc (suc (suc fuel)) page end m ≡ done tt m'
  unfolding check_pages
  check_pages-missing fuel page end m m' less last_one room h =
      let step : u64 (page + 0x1000) ≡ page + 0x1000 = omega arith in
      rw (lt→ltb page end less, h, check_pages) rw step rw
        (le→ltb (page + 0x1000) end last_one, check_pages) refl

  -- A block in mapped pages passes the check, which changes no more than `paddr`.
  pub mem_alloc_check_page-mapped :
      (start end : ℕ) (m : Machine)
      → start ≤ end
      → end + 0x1000 < 2 ^ 64
      → AllMapped m (start - 0xFFF) end
      → (q : ℕ) × (mem_alloc_check_page alloc start end m ≡ done tt (with_paddr m q))
  unfolding mem_alloc_check_page
  mem_alloc_check_page-mapped start end m order room all =
      let base = page_base start (omega arith) in
      let fuel : (end - start / 0x1000 * 0x1000) / 0x1000 + 2
          ≡ suc ((end - start / 0x1000 * 0x1000) / 0x1000 + 1) =
        omega arith in
      rw base rw fuel (
        check_pages-mapped ((end - start / 0x1000 * 0x1000) / 0x1000 + 1) (start / 0x1000 * 0x1000)
          end m (omega arith) room (omega arith) (λ q lo hi a. all q (omega arith) hi a))

  check_pages-hole :
      (k fuel page end : ℕ) (m m' : Machine)
      → page % 0x1000 ≡ 0
      → page + k * 0x1000 < end
      → end ≤ page + k * 0x1000 + 0x1000
      → end + 0x1000 < 2 ^ 64
      → AllMapped m page (page + k * 0x1000)
      → ((q : ℕ) → check_one alloc (page + k * 0x1000) (with_paddr m q) ≡ done tt m')
      → check_pages alloc (k + suc (suc fuel)) page end m ≡ done tt m'
  check_pages-hole k fuel page end m m' aligned less last_one room all one =
      let walk = check_pages_until k (suc (suc fuel)) page end m aligned less room all in
      walk.1
      ∙ check_pages-missing fuel (page + k * 0x1000) end (with_paddr m walk.0) m' less last_one room
          (one walk.0)

  -- A block whose last page alone is not mapped.
  pub mem_alloc_check_page-missing :
      (start end hole : ℕ) (m m' : Machine)
      → hole % 0x1000 ≡ 0
      → start < hole
      → hole < end
      → end ≤ hole + 0x1000
      → end + 0x1000 < 2 ^ 64
      → AllMapped m (start - 0xFFF) hole
      → ((q : ℕ) → check_one alloc hole (with_paddr m q) ≡ done tt m')
      → mem_alloc_check_page alloc start end m ≡ done tt m'
  unfolding mem_alloc_check_page
  mem_alloc_check_page-missing start end hole m m' aligned low less last_one room all one =
      let base = page_base start (omega arith) in
      let page : ℕ = start / 0x1000 * 0x1000 in
      let k : ℕ = (hole - page) / 0x1000 in
      let f : ℕ = (end - page) / 0x1000 - k in
      let fuel : (end - start / 0x1000 * 0x1000) / 0x1000 + 2 ≡ k + suc (suc f) = omega arith in
      let to : hole ≡ page + k * 0x1000 = omega arith in
      rw base rw fuel (
        check_pages-hole k f page end m m' (omega arith) (omega (arith, to)) (omega (arith, to))
          room (λ q lo hi a. all q (omega arith) (omega (arith, to)) a)
          (λ q. subst (λ (h : ℕ). check_one alloc h (with_paddr m q) ≡ done tt m') to (one q)))
