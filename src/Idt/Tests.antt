-- ===== src/Idt/Tests.antt =====
-- The table of interrupts with handlers at sample addresses, and the theorems there.
use os_v.Base.{ℕ, ◌+◌, ◌-◌, ◌*◌, ◌%◌, ◌^◌, ◌<◌, ◌≡◌, ◌≢◌, arith, ltb, if◌then◌else◌}
use os_v.Screen.Output.{Returns}
use os_v.Idt.{Idt, gate, printed_address}
use os_v.Idt.Gates.{entry_of, printed_address-gate}
use os_v.Idt.Exceptions.{Isr, pf_isr, isr, vector, main_idt}
use os_v.Idt.Table.{exceptions, AllEnter, IsOther, vector-lt, main_idt-entry_of}
use os_v.Idt.Messages.{isr-Returns}

abbrev empty_table : Idt
empty_table i = record {
  offset_1 = 0;
  selector = 0;
  ist = 0;
  type_attributes = 0;
  offset_2 = 0;
  offset_3 = 0;
  zero_0 = 0;
}

abbrev handler : Isr → ℕ
handler e = 0xFFFF_8000_0010_0000 + 0x40 * vector e

handler-lt : (e : Isr) → handler e < 2 ^ 64
handler-lt e = omega (arith, vector-lt e)

main_idt-entry_of_example :
    AllEnter handler (main_idt 0x10_2000 0x11_0000 handler 0x10_3000 empty_table) exceptions
    × (entry_of (main_idt 0x10_2000 0x11_0000 handler 0x10_3000 empty_table 0x20) ≡ 0x10_3000)
    × ((j : ℕ)
        → j < 256
        → IsOther j exceptions
        → j ≢ 0x20
        → entry_of (main_idt 0x10_2000 0x11_0000 handler 0x10_3000 empty_table j) ≡ 0x10_2000)
main_idt-entry_of_example =
    main_idt-entry_of 0x10_2000 0x11_0000 handler 0x10_3000 empty_table (omega arith) handler-lt
      (omega arith)

printed_address-gate_example : printed_address (gate 0x8000_1234 8 0x8E) ≡ (
    if ltb (0x8000_1234 % 2 ^ 32) (2 ^ 31)
    then 0x8000_1234
    else 2 ^ 64 - 2 ^ 32 + 0x8000_1234 % 2 ^ 32)
printed_address-gate_example = printed_address-gate 0x8000_1234 8 0x8E (omega arith)

isr-Returns_example :
    Returns
      (record { cur_x = 78; cur_y = 19; print_status = 0; ram = λ p. 0 })
      (isr pf_isr (record { cur_x = 78; cur_y = 19; print_status = 0; ram = λ p. 0 }))
isr-Returns_example =
    isr-Returns pf_isr (record { cur_x = 78; cur_y = 19; print_status = 0; ram = λ p. 0 })
      (omega arith)
