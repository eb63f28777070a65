-- ===== src/Pci/Table.antt =====
-- The table of `pciCheckBus` against a list of the devices that answer.
use os_v.Base.{
  ℕ, zero, suc, ◌+◌, ◌*◌, ◌%◌, ◌^◌, ◌≤◌, ◌<◌, ◌≡◌, ◌≢◌, refl, ◌⊎◌, inl, inr, List, [], ◌∷◌, ◌++◌,
  arith, ne→==, Bool-cases, if◌then◌else◌, u16, shl, length, length-append, sym, ◌∙◌, ap,
}
use os_v.Memory.{Mem, read8, read_bytes, write16}
use os_v.Memory.Laws.{write_bytes-other, read_bytes_cong, read_bytes-write_bytes}
use os_v.Machine.{Machine, ram, with_ram, done}
use os_v.Alloc.{mem_alloc}
use os_v.Pci.{answers, count_slots, count_buses, save_slots, save_buses, pci_check_bus}

-- The devices, in the order of the buses and on each bus of the slots.
module _ (config : ℕ → ℕ) where
  unfoldable pub slot_devices : ℕ → ℕ → ℕ → List ℕ
  slot_devices zero bus slot = []
  slot_devices (suc left) bus slot =
      let rest = slot_devices left bus (slot + 1) in
      if answers config bus slot then u16 (bus + shl slot 8) ∷ rest else rest

  unfoldable pub devices : ℕ → ℕ → List ℕ
  devices zero bus = []
  devices (suc left) bus = slot_devices 0x100 bus 0 ++ devices left (bus + 1)

-- A table of two-byte entries from an address on.
abbrev pub Holds : ℕ → List ℕ → Mem → Type 0
Holds a [] m = Unit {0}
Holds a (d ∷ ds) m = (read_bytes 2 a m ≡ d) × Holds (a + 2) ds m

store : List ℕ → ℕ → Mem → Mem
store [] a m = m
store (d ∷ ds) a m = store ds (a + 2) (write16 a d m)

store-append :
    (ds es : List ℕ) (a : ℕ) (m : Mem)
    → store (ds ++ es) a m ≡ store es (a + 2 * length ds) (store ds a m)
unfolding store
store-append [] es a m = ap (λ (t : ℕ). store es t m) (omega arith)
store-append (d ∷ ds) es a m =
    store-append ds es (a + 2) (write16 a d m)
    ∙ ap (λ (t : ℕ). store es t (store ds (a + 2) (write16 a d m))) (omega arith)

store-other :
    (ds : List ℕ) (a : ℕ) (m : Mem) (p : ℕ)
    → (p < a) ⊎ (a + 2 * length ds ≤ p)
    → store ds a m p ≡ m p
unfolding store
store-other [] a m p h = refl
store-other (d ∷ ds) a m p h =
    store-other ds (a + 2) (write16 a d m) p (omega arith)
    ∙ write_bytes-other 2 a d p m (omega arith)

-- Entries are words.
abbrev Words16 : List ℕ → Type 0
Words16 [] = Unit {0}
Words16 (d ∷ ds) = (d < 2 ^ 16) × Words16 ds

store-Holds : (ds : List ℕ) (a : ℕ) (m : Mem) → Words16 ds → Holds a ds (store ds a m)
unfolding store
store-Holds [] a m w = tt
store-Holds (d ∷ ds) a m w = (
  read_bytes_cong 2 a (store ds (a + 2) (write16 a d m)) (write16 a d m) (λ q lo hi.
        ap (λ (t : ℕ). t % 256) (store-other ds (a + 2) (write16 a d m) q (omega arith)))
      ∙ read_bytes-write_bytes 2 a d m
      ∙ omega (arith, w.0),
  store-Holds ds (a + 2) (write16 a d m) w.1,
)

module _ (config : ℕ → ℕ) where
  count_slots_lem :
      (left bus slot amount : ℕ)
      → amount < 2 ^ 16
      → count_slots config left bus slot amount
        ≡ u16 (amount + length (slot_devices config left bus slot))
  unfolding count_slots slot_devices
  count_slots_lem zero bus slot amount h = omega arith
  count_slots_lem (suc left) bus slot amount h = elim (Bool-cases (answers config bus slot)) [
    | inl found ↦
        rw found
          (count_slots_lem left bus (slot + 1) (u16 (amount + 1)) (omega arith) ∙ omega arith)
    | inr empty ↦ rw empty (count_slots_lem left bus (slot + 1) amount h)
  ]

  count_buses_lem :
      (left bus amount : ℕ)
      → amount < 2 ^ 16
      → count_buses config left bus amount ≡ u16 (amount + length (devices config left bus))
  unfolding count_buses devices
  count_buses_lem zero bus amount h = omega arith
  count_buses_lem (suc left) bus amount h =
      let one = count_slots_lem 0x100 bus 0 amount h in
      let sum = length-append (slot_devices config 0x100 bus 0) (devices config left (bus + 1)) in
      rw one (
        count_buses_lem left (bus + 1) (u16 (amount + length (slot_devices config 0x100 bus 0)))
          (omega arith)
        ∙ omega (arith, sum))

  save_slots_lem :
      (left bus slot a : ℕ) (m : Mem)
      → save_slots config left bus slot (a, m) ≡ (
        a + 2 * length (slot_devices config left bus slot),
        store (slot_devices config left bus slot) a m,
      )
  unfolding save_slots store slot_devices
  save_slots_lem zero bus slot a m = ap (λ (t : ℕ). (t, m)) (omega arith)
  save_slots_lem (suc left) bus slot a m = elim (Bool-cases (answers config bus slot)) [
    | inl found ↦ rw found (
        save_slots_lem left bus (slot + 1) (a + 2) (write16 a (u16 (bus + shl slot 8)) m)
        ∙ ap
            (λ (t : ℕ). (
              t,
              store (slot_devices config left bus (slot + 1)) (a + 2)
                  (write16 a (u16 (bus + shl slot 8)) m),
            ))
            (omega arith))
    | inr empty ↦ rw empty (save_slots_lem left bus (slot + 1) a m)
  ]

  save_buses_lem :
      (left bus a : ℕ) (m : Mem)
      → save_buses config left bus (a, m)
        ≡ (a + 2 * length (devices config left bus), store (devices config left bus) a m)
  unfolding save_buses store devices
  save_buses_lem zero bus a m = ap (λ (t : ℕ). (t, m)) (omega arith)
  save_buses_lem (suc left) bus a m =
      let here = slot_devices config 0x100 bus 0 in
      let more = devices config left (bus + 1) in
      let first = save_slots_lem 0x100 bus 0 a m in
      let sum : a + 2 * length here + 2 * length more ≡ a + 2 * length (here ++ more) =
        omega (arith, length-append here more) in
      rw first (
        save_buses_lem left (bus + 1) (a + 2 * length here) (store here a m)
        ∙ ap (λ (t : ℕ). (t, store more (a + 2 * length here) (store here a m))) sum
        ∙ ap (λ (t : Mem). (a + 2 * length (here ++ more), t)) (sym (store-append here more a m)))

  slot_devices-Words16 : (left bus slot : ℕ) → Words16 (slot_devices config left bus slot)
  unfolding slot_devices
  slot_devices-Words16 zero bus slot = tt
  slot_devices-Words16 (suc left) bus slot = elim (Bool-cases (answers config bus slot)) [
    | inl found ↦ rw found (omega arith, slot_devices-Words16 left bus (slot + 1))
    | inr empty ↦ rw empty (slot_devices-Words16 left bus (slot + 1))
  ]

Words16-append : (ds es : List ℕ) → Words16 ds → Words16 es → Words16 (ds ++ es)
Words16-append [] es p q = q
Words16-append (d ∷ ds) es p q = (p.0, Words16-append ds es p.1 q)

devices-Words16 : (config : ℕ → ℕ) (left bus : ℕ) → Words16 (devices config left bus)
unfolding devices
devices-Words16 config zero bus = tt
devices-Words16 config (suc left) bus =
    Words16-append (slot_devices config 0x100 bus 0) (devices config left (bus + 1))
      (slot_devices-Words16 config 0x100 bus 0) (devices-Words16 config left (bus + 1))

-- The first call of `pciCheckBus`, where the allocator returns a block: it counts the devices that
-- answer, modulo 2 ^ 16, its table holds them in order, and beside the table it changes no byte that
-- the allocator did not.
pub pci_check_bus-Holds :
    (config : ℕ → ℕ) (depth walk a : ℕ) (m m' : Machine)
    → mem_alloc depth walk (2 * u16 (length (devices config 0x100 0))) 0 m ≡ done a m'
    → a ≢ 0
    → (out : Machine) × (pci_check_bus config depth walk
          (record { pci_devices_amount = 0; pci_devices_address = 0 })
          m
        ≡ done
            (record {
              pci_devices_amount = u16 (length (devices config 0x100 0));
              pci_devices_address = a;
            })
            out)
      × Holds a (devices config 0x100 0) (ram out)
      × ((p : ℕ)
          → (p < a) ⊎ (a + 2 * length (devices config 0x100 0) ≤ p)
          → read8 p (ram out) ≡ read8 p (ram m'))
unfolding pci_check_bus
pci_check_bus-Holds config depth walk a m m' run ne =
    let ds = devices config 0x100 0 in
    let count : count_buses config 0x100 0 0 ≡ u16 (length ds) =
      count_buses_lem config 0x100 0 0 (omega arith) ∙ omega arith in
    let saved = save_buses_lem config 0x100 0 a (ram m') in
    (
      with_ram (store ds a (ram m')) m',
      rw count rw run rw (ne→== a 0 ne) rw saved refl,
      store-Holds ds a (ram m') (devices-Words16 config 0x100 0),
      λ p out. ap (λ (t : ℕ). t % 256) (store-other ds a (ram m') p out),
    )
