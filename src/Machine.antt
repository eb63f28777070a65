-- ===== src/Machine.antt =====
-- The kernel's state, for the functions that call across its parts: the globals of
-- kernel/src/code/mem/page_map.c, mem/palloc.c, mem/alloc.c and screen.c, and the memory, which is
-- that of the screen. A command runs on it.
use os_v.Base.{ℕ, none, some, List}
use os_v.Memory.{Mem}
use os_v.Palloc.{PageAllocator}
use os_v.Screen.{Screen}
use os_v.Screen.Format.{Arg, screen_print}

-- `page_map.c`. A backup is the table that the next missing entry of its level will point to.
pub record Paging : Type 0 where
  pub pagemap_start : ℕ
  pub page_maxphyaddr : ℕ
  pub page_maxlinaddr : ℕ
  pub page_map_filter : ℕ
  pub page_pml5_backup : ℕ
  pub page_pml4_backup : ℕ
  pub page_pdpt_backup : ℕ
  pub page_pd_backup : ℕ

-- `alloc.c`.
pub record Heap : Type 0 where
  pub mem_list_start : ℕ
  pub mem_end : ℕ
  pub maxlinaddr : ℕ
  pub paddr : ℕ

pub record Machine : Type 0 where
  pub screen : Screen
  pub paging : Paging
  pub allocator : PageAllocator
  pub heap : Heap

abbrev pub ram : Machine → Mem
ram m = m.screen.ram

abbrev pub with_ram : Mem → Machine → Machine
with_ram r m = record m { screen = record (m.screen) { ram = r } }

-- How a run ends: with a value, in the endless loop that the kernel enters when it gives up, or
-- without the fuel for the calls between the allocator and the page mapper.
pub data Run (A : Type 0) : Type 0 where
  done : A → Machine → Run A
  halted : Machine → Run A
  out_of_fuel : Run A

abbrev pub Cmd : Type 0 → Type 0
Cmd A = Machine → Run A

module _ {A B : Type 0} where
  abbrev pub and_then : Run A → (A → Cmd B) → Run B
  and_then (done a m) k = k a m
  and_then (halted m) k = halted m
  and_then out_of_fuel k = out_of_fuel

  infixl 5 ◌>>=◌ ◌>>◌
  abbrev pub ◌>>=◌ : Cmd A → (A → Cmd B) → Cmd B
  ◌>>=◌ c k m = and_then (c m) k

  abbrev pub ◌>>◌ : Cmd A → Cmd B → Cmd B
  ◌>>◌ c k m = and_then (c m) (λ _. k)

abbrev pub get : Cmd Machine
get m = done m m

abbrev pub modify : (Machine → Machine) → Cmd (Unit {0})
modify f m = done tt (f m)

-- A call of `screenPrint`. A format that ends, with its arguments, returns.
unfoldable pub print : List ℕ → List Arg → Cmd (Unit {0})
print fmt args m = elim (screen_print fmt args m.screen) [
  | none ↦ halted m
  | some s ↦ done tt (record m { screen = s })
]
