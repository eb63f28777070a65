-- ===== src/Idt/Table.antt =====
-- The interrupt table that `main` sets up, vector by vector.
use os_v.Base.{ℕ, ◌<◌, ◌^◌, ◌≡◌, List, [], ◌∷◌, u8, ◌≢◌, refl, ◌∙◌, ap, arith, ne→==}
use os_v.Idt.{Idt, gate, idt_set, idt_init, syscounter_init}
use os_v.Idt.Gates.{entry_of, entry_of-gate, idt_init-entry_of}
use os_v.Idt.Exceptions.{
  Isr, exc_idt_flag, vector, handlers, set_gates, main_idt, div_by_zero_isr, debug_isr, nmi_isr,
  breakpoint_isr, overflow_isr, bound_isr, opcode_isr, device_isr, double_f_isr, tss_isr,
  seg_pres_isr, seg_stack_isr, gpf_isr, pf_isr, x87_isr, alignment_isr, machine_isr, simd_isr,
  virt_isr, crt_isr, hyper_isr, vmm_isr, sec_isr,
}

pub vector-lt : (e : Isr) → vector e < 0x20
unfolding vector
vector-lt div_by_zero_isr = omega arith
vector-lt debug_isr = omega arith
vector-lt nmi_isr = omega arith
vector-lt breakpoint_isr = omega arith
vector-lt overflow_isr = omega arith
vector-lt bound_isr = omega arith
vector-lt opcode_isr = omega arith
vector-lt device_isr = omega arith
vector-lt double_f_isr = omega arith
vector-lt tss_isr = omega arith
vector-lt seg_pres_isr = omega arith
vector-lt seg_stack_isr = omega arith
vector-lt gpf_isr = omega arith
vector-lt pf_isr = omega arith
vector-lt x87_isr = omega arith
vector-lt alignment_isr = omega arith
vector-lt machine_isr = omega arith
vector-lt simd_isr = omega arith
vector-lt virt_isr = omega arith
vector-lt crt_isr = omega arith
vector-lt hyper_isr = omega arith
vector-lt vmm_isr = omega arith
vector-lt sec_isr = omega arith

module _ (address : Isr → ℕ) where
  set_gates-gate :
      (e : Isr) (idt : Idt)
      → set_gates address handlers idt (vector e) ≡ gate (address e) 0x08 exc_idt_flag
  unfolding set_gates idt_set vector
  set_gates-gate div_by_zero_isr idt = refl
  set_gates-gate debug_isr idt = refl
  set_gates-gate nmi_isr idt = refl
  set_gates-gate breakpoint_isr idt = refl
  set_gates-gate overflow_isr idt = refl
  set_gates-gate bound_isr idt = refl
  set_gates-gate opcode_isr idt = refl
  set_gates-gate device_isr idt = refl
  set_gates-gate double_f_isr idt = refl
  set_gates-gate tss_isr idt = refl
  set_gates-gate seg_pres_isr idt = refl
  set_gates-gate seg_stack_isr idt = refl
  set_gates-gate gpf_isr idt = refl
  set_gates-gate pf_isr idt = refl
  set_gates-gate x87_isr idt = refl
  set_gates-gate alignment_isr idt = refl
  set_gates-gate machine_isr idt = refl
  set_gates-gate simd_isr idt = refl
  set_gates-gate virt_isr idt = refl
  set_gates-gate crt_isr idt = refl
  set_gates-gate hyper_isr idt = refl
  set_gates-gate vmm_isr idt = refl
  set_gates-gate sec_isr idt = refl

  set_gates_other :
      (es : List Isr) (idt : Idt) (j : ℕ)
      → ((e : Isr) → j ≢ vector e)
      → set_gates address es idt j ≡ idt j
  unfolding set_gates idt_set
  set_gates_other [] idt j h = refl
  set_gates_other (e ∷ es) idt j h =
      let small = vector-lt e in
      let differs : j ≢ u8 (vector e) = λ is. h e (omega (arith, is)) in
      set_gates_other es (idt_set (address e) 8 (vector e) 0x8E idt) j h
      ∙ rw (ne→== j (u8 (vector e)) differs) refl

-- The exceptions of the processor, each at its vector in the processor's manual.
abbrev pub exceptions : List (ℕ × Isr)
exceptions =
    (0x00, div_by_zero_isr)
    ∷ (0x01, debug_isr)
    ∷ (0x02, nmi_isr)
    ∷ (0x03, breakpoint_isr)
    ∷ (0x04, overflow_isr)
    ∷ (0x05, bound_isr)
    ∷ (0x06, opcode_isr)
    ∷ (0x07, device_isr)
    ∷ (0x08, double_f_isr)
    ∷ (0x0A, tss_isr)
    ∷ (0x0B, seg_pres_isr)
    ∷ (0x0C, seg_stack_isr)
    ∷ (0x0D, gpf_isr)
    ∷ (0x0E, pf_isr)
    ∷ (0x10, x87_isr)
    ∷ (0x11, alignment_isr)
    ∷ (0x12, machine_isr)
    ∷ (0x13, simd_isr)
    ∷ (0x14, virt_isr)
    ∷ (0x15, crt_isr)
    ∷ (0x1C, hyper_isr)
    ∷ (0x1D, vmm_isr)
    ∷ (0x1E, sec_isr)
    ∷ []

-- At each vector of the list the table enters the handler beside it.
abbrev pub AllEnter : (Isr → ℕ) → Idt → List (ℕ × Isr) → Type 0
AllEnter address idt [] = Unit {0}
AllEnter address idt ((v, e) ∷ rest) = (entry_of (idt v) ≡ address e) × AllEnter address idt rest

-- A vector that is not in the list.
abbrev pub IsOther : ℕ → List (ℕ × Isr) → Type 0
IsOther j [] = Unit {0}
IsOther j ((v, e) ∷ rest) = (j ≢ v) × IsOther j rest

IsOther-vector : (j : ℕ) → IsOther j exceptions → (e : Isr) → j ≢ vector e
unfolding vector
IsOther-vector j h div_by_zero_isr = h.0
IsOther-vector j h debug_isr = h.1.0
IsOther-vector j h nmi_isr = h.1.1.0
IsOther-vector j h breakpoint_isr = h.1.1.1.0
IsOther-vector j h overflow_isr = h.1.1.1.1.0
IsOther-vector j h bound_isr = h.1.1.1.1.1.0
IsOther-vector j h opcode_isr = h.1.1.1.1.1.1.0
IsOther-vector j h device_isr = h.1.1.1.1.1.1.1.0
IsOther-vector j h double_f_isr = h.1.1.1.1.1.1.1.1.0
IsOther-vector j h tss_isr = h.1.1.1.1.1.1.1.1.1.0
IsOther-vector j h seg_pres_isr = h.1.1.1.1.1.1.1.1.1.1.0
IsOther-vector j h seg_stack_isr = h.1.1.1.1.1.1.1.1.1.1.1.0
IsOther-vector j h gpf_isr = h.1.1.1.1.1.1.1.1.1.1.1.1.0
IsOther-vector j h pf_isr = h.1.1.1.1.1.1.1.1.1.1.1.1.1.0
IsOther-vector j h x87_isr = h.1.1.1.1.1.1.1.1.1.1.1.1.1.1.0
IsOther-vector j h alignment_isr = h.1.1.1.1.1.1.1.1.1.1.1.1.1.1.1.0
IsOther-vector j h machine_isr = h.1.1.1.1.1.1.1.1.1.1.1.1.1.1.1.1.0
IsOther-vector j h simd_isr = h.1.1.1.1.1.1.1.1.1.1.1.1.1.1.1.1.1.0
IsOther-vector j h virt_isr = h.1.1.1.1.1.1.1.1.1.1.1.1.1.1.1.1.1.1.0
IsOther-vector j h crt_isr = h.1.1.1.1.1.1.1.1.1.1.1.1.1.1.1.1.1.1.1.0
IsOther-vector j h hyper_isr = h.1.1.1.1.1.1.1.1.1.1.1.1.1.1.1.1.1.1.1.1.0
IsOther-vector j h vmm_isr = h.1.1.1.1.1.1.1.1.1.1.1.1.1.1.1.1.1.1.1.1.1.0
IsOther-vector j h sec_isr = h.1.1.1.1.1.1.1.1.1.1.1.1.1.1.1.1.1.1.1.1.1.1.0

enters :
    (default_isr table : ℕ) (address : Isr → ℕ) (timer_isr : ℕ) (idt : Idt)
    → default_isr < 2 ^ 64
    → ((e : Isr) → address e < 2 ^ 64)
    → timer_isr < 2 ^ 64
    → ((e : Isr)
        → entry_of (main_idt default_isr table address timer_isr idt (vector e)) ≡ address e)
      × (entry_of (main_idt default_isr table address timer_isr idt 0x20) ≡ timer_isr)
      × ((j : ℕ)
          → j < 256
          → ((e : Isr) → j ≢ vector e)
          → j ≢ 0x20
          → entry_of (main_idt default_isr table address timer_isr idt j) ≡ default_isr)
unfolding main_idt syscounter_init idt_set
enters default_isr table address timer_isr idt hd ha ht = (
  λ e.
      let small = vector-lt e in
      let differs : vector e ≢ 0x20 = λ is. omega (arith, is) in
      rw (ne→== (vector e) 0x20 differs) (
        ap entry_of (set_gates-gate address e (idt_init default_isr table idt).0)
        ∙ entry_of-gate (address e) 8 0x8E (ha e)),
  entry_of-gate timer_isr 8 0x8E ht,
  λ j below other timer. rw (ne→== j 0x20 timer) (
      ap entry_of (set_gates_other address handlers (idt_init default_isr table idt).0 j other)
      ∙ (idt_init-entry_of default_isr table idt j hd).0 below),
)

-- In the table that `main` sets up, with every address below 2 ^ 64, the vector that the processor has
-- for an exception enters the handler of that exception, for each of the 23 in the list of them, vector
-- 0x20 enters the handler of the timer, and every other of the 256 vectors enters the default handler.
pub main_idt-entry_of :
    (default_isr table : ℕ) (address : Isr → ℕ) (timer_isr : ℕ) (idt : Idt)
    → default_isr < 2 ^ 64
    → ((e : Isr) → address e < 2 ^ 64)
    → timer_isr < 2 ^ 64
    → AllEnter address (main_idt default_isr table address timer_isr idt) exceptions
      × (entry_of (main_idt default_isr table address timer_isr idt 0x20) ≡ timer_isr)
      × ((j : ℕ)
          → j < 256
          → IsOther j exceptions
          → j ≢ 0x20
          → entry_of (main_idt default_isr table address timer_isr idt j) ≡ default_isr)
unfolding vector
main_idt-entry_of default_isr table address timer_isr idt hd ha ht =
    let all = enters default_isr table address timer_isr idt hd ha ht in
    (
      (
        all.0 div_by_zero_isr,
        (
          all.0 debug_isr,
          (
            all.0 nmi_isr,
            (
              all.0 breakpoint_isr,
              (
                all.0 overflow_isr,
                (
                  all.0 bound_isr,
                  (
                    all.0 opcode_isr,
                    (
                      all.0 device_isr,
                      (
                        all.0 double_f_isr,
                        (
                          all.0 tss_isr,
                          (
                            all.0 seg_pres_isr,
                            (
                              all.0 seg_stack_isr,
                              (
                                all.0 gpf_isr,
                                (
                                  all.0 pf_isr,
                                  (
                                    all.0 x87_isr,
                                    (
                                      all.0 alignment_isr,
                                      (
                                        all.0 machine_isr,
                                        (
                                          all.0 simd_isr,
                                          (
                                            all.0 virt_isr,
                                            (
                                              all.0 crt_isr,
                                              (
                                                all.0 hyper_isr,
                                                (all.0 vmm_isr, (all.0 sec_isr, tt)),
                                              ),
                                            ),
                                          ),
                                        ),
                                      ),
                                    ),
                                  ),
                                ),
                              ),
                            ),
                          ),
                        ),
                      ),
                    ),
                  ),
                ),
              ),
            ),
          ),
        ),
      ),
      all.1,
      λ j below other timer. all.2 j below (IsOther-vector j other) timer,
    )
