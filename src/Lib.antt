-- ===== src/Lib.antt =====
-- The kernel of kush-os in a cubical type theory: a model of its memory management, of the amd64 page
-- tables, descriptor tables and boot code, of the framebuffer console, and of the interface compiler's
-- descriptions, wire format and client and server stubs, with theorems on what they do.
--
-- Parts, with the files of the repository that they model:
-- - Base: names, lists, words and bits that all parts share. `Outcome` is how a call ends: `done`,
--   `panic` (a failed REQUIRE or a PANIC), `wild` (an access outside the object addressed), or
--   `stuck` (a loop out of fuel). A 64-bit word is a number below 2^64; where the source's
--   arithmetic can wrap, the model reduces modulo 2^64. Addresses inside the framebuffer and inside a
--   zone's storage are not reduced, as such memory ends below 2^64. The `int` that counts pages is its
--   32-bit word, which `is_negative` and `to_size` read.
-- - Memory: the physical page allocator of Core/Kernel/Sources/Memory. `Memory.Region` is Region.cpp
--   (`init` is the constructor, then `alloc`, `free`, `contains`), `Memory.Pool` is Pool.cpp,
--   `Memory.PhysicalAllocator` is PhysicalAllocator.cpp. A pool calls its regions in order, the
--   allocator calls a pool. `Memory.Bitmap` has the lemmas on the set bits of a word.
-- - Platform: Core/Kernel/Platforms/x86_64/pc-uefi.platform/Sources. `Platform.PhysicalMap` is the
--   aperture, `Platform.Layout` the address space, and `Platform.PageTable` is Vm/PageTable.cpp:
--   `map_page` (mapPage), `get_phys_addr`, `unmap_page`, `unmap`;
--   `Platform.PageTable.Setup` has the constructor with `copyPml4Upper` and `mapPhysAperture`. The
--   three levels that mapPage writes out one after the other are one function, `ensure_table`, used
--   three times.
--   `Platform.PageTable.Tree` has the invariant, a tree of tables by levels that share no table, and
--   the interface `PageSource` to the page allocator, which the walk is proved against;
--   `Vm.PageAllocator.Source` fills it with the physical allocator. `Platform.PageTable.Look` is
--   `get_phys_addr` by recursion on the levels, and `Platform.PageTable.Frame` compares it before and
--   after a change of one table; `Platform.PageTable.Unmap.Range` is about unmapping a range.
--   `Platform.Backtrace` is Util/Backtrace.cpp: `parse_kernel_elf` finds the symbol table of the
--   kernel's file, `symbolicate` looks up an address in it.
-- - Vm: Core/Kernel/Sources/Vm and Core/Kernel/Includes/Vm. `Vm.Mode` and `Vm.Types` have the access
--   modes and the hints for TLBs, `Vm.Zone` is ZoneAllocator.h, `Vm.RefCount` is the counter of
--   Includes/Runtime/RefCountable.h. `Vm.Map` is Map.cpp with MapEntry.cpp and
--   ContiguousPhysRegion.cpp: `create` is the constructor, `add` calls the entry's `added_to`, which
--   calls `mapPage` of the page tables for each page; `Vm.Map.Pages` is about what an entry maps,
--   `Vm.Map.RoundTrip` about its removal, both over any page source, and `Vm.Map.Kernel` about both
--   over the kernel's own allocator; `Vm.Map.Stopped` is about a range whose mapping meets a large
--   page. `Vm.PageAllocator` is PageAllocator.cpp, over
--   the page tables and the physical allocator. `Vm.Manager` is Manager.cpp, which hands a page fault
--   to the virtual page allocator or to the active map.
-- - Arch: Sources/Arch of the platform. `Arch.Gdt` is Gdt.cpp (`set32`, `set64`, `install_tss`,
--   `load`, `init`); `Arch.Idt` is Idt.cpp with the handlers of ExceptionHandlers.cpp. A table is the
--   list of its entries, and a store past its end is `wild`.
-- - Boot: Sources/Boot and Sources/Io of the platform. `Boot.Memory` is the part of Entry.cpp that
--   reads the loader's memory map and adds regions to the physical allocator, `Boot.Kernel` the part
--   that maps the kernel's own sections, by `Vm.Map`; `Boot.Remap` has PopulateKernelVm, and the
--   functions RemapTo and applyVirtualMap of the physical allocator, which it calls to map the bitmaps
--   into the kernel map. `Boot.CommandLine` is the parser of
--   the kernel's command line in Console.cpp.
-- - Runtime: `Runtime.String` is Core/Kernel/Sources/Runtime/String.cpp, loop for loop.
-- - FbCons: Core/Kernel/Platforms/Shared/FbCons. `FbCons.Console` is Console.cpp, with the state
--   machine `write`, the escape sequences, drawing, and scrolling by the `memcpy` of `Runtime`.
-- - Idlc: the interface compiler, tools/idlc/src. `Idlc.Interface` is InterfaceDescription.cpp,
--   `Idlc.Builder` InterfaceDescriptionBuilder.cpp with an action for each call of the parser.
--   `Idlc.Wire` is the layout of messages and the functions `serialize` and `deserialize` that
--   CodeGenerator+Serialization.cpp writes out for a message. `Idlc.Rpc` is about the stubs that
--   CodeGenerator+Server.cpp and CodeGenerator+Client.cpp write out, over those functions:
--   `Idlc.Rpc.Server` has `run_one` and `run`, `Idlc.Rpc.Client` a method's `call` and
--   `receive_reply`, together `invoke`; `Idlc.Rpc.Messages` is about a message on its way.
--
-- State is passed on explicitly, as a record for each object. Memory is a function from addresses
-- to values: bytes for the console and the copies, 64-bit entries for the page tables; a region's
-- bitmap is a list of words in its record.
--
-- Bounds and fuel: the inner loop of `Region::alloc` has fuel for the 64 bits of a chunk, and the
-- theorem on `alloc` shows that it suffices. The loops of the copies and of drawing recurse on their
-- counters. `ZoneAllocator::free` has fuel, since its loop need not end.
--
-- Arguments of the model: the memory's contents before a constructor runs, whether early boot is
-- over, the font, the memory that `VAlloc` gives a zone, the page source of the page tables, the
-- address of the kernel map's PML4, the addresses of handlers, the loader's constant for usable
-- memory, the message streams and the methods' implementation of the stubs, and the functions of other
-- projects that are called: strncmp and strtol in the command line; tolower, MurmurHash64A and stoull
-- in the builder; posix_memalign in the stubs.
--
-- Not modelled:
-- - machine instructions: the loading of descriptor tables, the model-specific registers of
--   Processor.cpp, the invalidation of TLBs, and device output;
-- - the console's use of the framebuffer once it is mapped, and the printing of backtraces;
-- - the kernel's formatted output and the handlers that print a fault and panic;
-- - the grammar of interface files, which is written for a parser library, and the declarations and
--   includes that tools/idlc prints around the functions of the stubs.
pub mod Base
pub mod Memory
pub mod Platform
pub mod Vm
pub mod Arch
pub mod Boot
pub mod Runtime
pub mod FbCons
pub mod Idlc
