-- ===== src/Vm/PageAllocator.antt =====
-- The virtual page allocator: Core/Kernel/Sources/Vm/PageAllocator.cpp and PageAllocator.h. The
-- physical allocator and the kernel map's tables are the modules of those components; `kernel` is the
-- PML4 of `Map::Kernel()`, `none` if there is no map yet. The 16 entries of `phys` are a list.
pub mod Calls
pub mod Apart
pub mod Source
pub mod Tests
use kush_os_rewrite.Base.{
  ℕ, zero, suc, ◌+◌, ◌*◌, ◌/◌, ◌%◌, Bool, true, false, not, ◌&&◌, List, [], ◌∷◌, replicate, take,
  u64, sub64, to_size, is_negative, leb, ◌-◌, ◌^◌, length, ◌==◌, ltb, if◌then◌else◌,
}
use kush_os_rewrite.Base.{
  Option, none, some, Outcome, done, panic, wild, require, in_bounds, ◌>>=◌, ◌>>◌,
}
use kush_os_rewrite.Memory.PhysicalAllocator
use kush_os_rewrite.Platform.Layout.{v_alloc_start, v_alloc_end}
use kush_os_rewrite.Platform.PageTable
use kush_os_rewrite.Platform.PageTable.{
  Machine, Memory, page_size, nearest_page_size, get_phys_addr, found,
}
use kush_os_rewrite.Vm.Map.{map_or_panic, is_unmapped, is_success, invalidate_tlb}
use kush_os_rewrite.Vm.Mode

abbrev pub num_guard_pages : ℕ
num_guard_pages = 2

abbrev pub max_alloc_pages : ℕ
max_alloc_pages = 16

-- `gAllocCursor` and `gPagesAllocated`, with the machine and the physical allocator.
pub record State : Type 0 where
  pub cursor : ℕ
  pub pages_allocated : ℕ
  pub machine : Machine PhysicalAllocator.State

-- `Init`
abbrev pub init : Machine PhysicalAllocator.State → State
init m = record { cursor = v_alloc_start; pages_allocated = 0; machine = m }

-- `PhysicalAllocator::AllocatePage`, as the page tables use it.
abbrev pub first_page : List ℕ → ℕ
first_page [] = 0
first_page (a ∷ rest) = a

abbrev pub page_for_table : PhysicalAllocator.State → Outcome (PhysicalAllocator.State × ℕ × ℕ)
page_for_table s =
    PhysicalAllocator.allocate_page s 0 >>= λ got. done (got.0, got.1, first_page got.2)

-- `REQUIRE(map, …)`
abbrev pub the_map : Option ℕ → Outcome ℕ
the_map none = panic
the_map (some pml4) = done pml4

-- The loop of `Alloc` that maps the pages, with n left; `phys` is the rest of the buffer.
unfoldable pub map_pages :
    Bool
    → ℕ
    → ℕ
    → List ℕ
    → ℕ
    → Machine PhysicalAllocator.State
    → Outcome (Machine PhysicalAllocator.State)
map_pages early pml4 zero phys virt m = done m
map_pages early pml4 (suc n) [] virt m = wild
map_pages early pml4 (suc n) (p ∷ phys) virt m = do
  m' ← map_or_panic page_for_table early pml4 m p virt Mode.kernel_rw
  map_pages early pml4 n phys (u64 (virt + page_size)) m'

-- `pageLengthWithGuards`, and `end`
abbrev pub end_of : ℕ → ℕ → ℕ
end_of cursor len = u64 (cursor + u64 (nearest_page_size len + num_guard_pages * page_size))

-- `Alloc` once the pages are there: they are mapped, and the cursor moves on.
unfoldable pub place :
    Bool → Option ℕ → State → ℕ → PhysicalAllocator.State → List ℕ → Outcome (State × Option ℕ)
place early kernel s len source phys = do
  pml4 ← the_map kernel
  m ←
      map_pages early pml4 (nearest_page_size len / page_size) phys s.cursor
        (record s.machine { source = source })
  done (
    record {
      cursor = end_of s.cursor len;
      pages_allocated = u64 (s.pages_allocated + nearest_page_size len / page_size);
      machine = m;
    },
    some s.cursor,
  )

-- `Alloc` when only `count` pages are there, as the word of an `int`: they are freed.
unfoldable pub give_back : State → PhysicalAllocator.State → ℕ → List ℕ → Outcome (State × Option ℕ)
give_back s source count phys = do
  in_bounds (leb (to_size count) (length phys))
  freed ← PhysicalAllocator.free_pages source (take (to_size count) phys) 0
  done (record s { machine = record s.machine { source = freed.0 } }, none)

-- `Alloc`: the state, and the address or a null pointer. What `AllocatePages` returns is the word of
-- an `int`; the first test is `err < -1`.
unfoldable pub alloc : Bool → Option ℕ → State → ℕ → Outcome (State × Option ℕ)
alloc early kernel s len = do
  require (ltb (end_of s.cursor len) v_alloc_end && ltb s.cursor (end_of s.cursor len))
  got ←
      PhysicalAllocator.allocate_pages s.machine.source (nearest_page_size len / page_size)
        (replicate max_alloc_pages 0) 0
  if is_negative got.1 && ltb got.1 (2 ^ 32 - 1)
      then done (record s { machine = record s.machine { source = got.0 } }, none)
      else if to_size got.1 == nearest_page_size len / page_size
      then place early kernel s len got.0 got.2
      else give_back s got.0 got.1 got.2

-- The address that `getPhysAddr` stores, or what the buffer held.
abbrev pub stored : Option (ℕ × ℕ) → ℕ
stored none = 0
stored (some out) = out.0

-- The loop of `Free` that reads the physical addresses, from page i on, with n left.
unfoldable pub phys_pages : Bool → ℕ → Memory → ℕ → ℕ → ℕ → Outcome (List ℕ)
phys_pages early pml4 mem ptr i zero = done []
phys_pages early pml4 mem ptr i (suc n) = do
  in_bounds (ltb i max_alloc_pages)
  looked ← get_phys_addr early pml4 mem (u64 (ptr + i * page_size))
  require (elim looked.status [ found ↦ true | _ ↦ false ])
  rest ← phys_pages early pml4 mem ptr (i + 1) n
  done (stored looked.out ∷ rest)

-- `Free`
unfoldable pub free : Bool → Option ℕ → State → ℕ → ℕ → Outcome State
free early kernel s ptr len = do
  require (not (ptr == 0) && not (len == 0))
  require (ptr % page_size == 0)
  pml4 ← the_map kernel
  phys ← phys_pages early pml4 s.machine.mem ptr 0 (nearest_page_size len / page_size)
  gone ← PageTable.unmap early pml4 s.machine.mem ptr (nearest_page_size len)
  require (is_unmapped gone.1)
  require (is_success (invalidate_tlb ptr (nearest_page_size len) 0x103))
  freed ← PhysicalAllocator.free_pages s.machine.source phys 0
  require (freed.1 == nearest_page_size len / page_size)
  done (record {
    cursor = s.cursor;
    pages_allocated = sub64 s.pages_allocated (nearest_page_size len / page_size);
    machine = record { mem = gone.0; source = freed.0 };
  })
