-- ===== src/Idt/Messages.antt =====
-- The texts of the exception handlers.
use os_v.Base.{◌≡◌, refl, true}
use os_v.Screen.{Screen}
use os_v.Screen.Cursor.{IsOnScreen}
use os_v.Screen.Output.{ends, Returns, print_chars-Returns}
use os_v.Idt.Exceptions.{
  Isr, div_by_zero_isr, debug_isr, nmi_isr, breakpoint_isr, overflow_isr, bound_isr, opcode_isr,
  device_isr, double_f_isr, tss_isr, seg_pres_isr, seg_stack_isr, gpf_isr, pf_isr, x87_isr,
  alignment_isr, machine_isr, simd_isr, virt_isr, crt_isr, hyper_isr, vmm_isr, sec_isr, message,
  isr,
}

message-ends : (e : Isr) → ends (message e) ≡ true
unfolding message ends
message-ends div_by_zero_isr = refl
message-ends debug_isr = refl
message-ends nmi_isr = refl
message-ends breakpoint_isr = refl
message-ends overflow_isr = refl
message-ends bound_isr = refl
message-ends opcode_isr = refl
message-ends device_isr = refl
message-ends double_f_isr = refl
message-ends tss_isr = refl
message-ends seg_pres_isr = refl
message-ends seg_stack_isr = refl
message-ends gpf_isr = refl
message-ends pf_isr = refl
message-ends x87_isr = refl
message-ends alignment_isr = refl
message-ends machine_isr = refl
message-ends simd_isr = refl
message-ends virt_isr = refl
message-ends crt_isr = refl
message-ends hyper_isr = refl
message-ends vmm_isr = refl
message-ends sec_isr = refl

-- Every exception handler gets to the end of its text from any cursor on the screen, and draws on
-- the screen only.
pub isr-Returns : (e : Isr) (s : Screen) → IsOnScreen s → Returns s (isr e s)
unfolding isr
isr-Returns e s h = print_chars-Returns (message e) s h (message-ends e)
