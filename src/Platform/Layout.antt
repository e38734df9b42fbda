-- ===== src/Platform/Layout.antt =====
-- The kernel address space: Sources/Vm/KernelMemoryMap.h of the platform.
use kush_os_rewrite.Base.{ℕ}

abbrev pub kernel_boundary : ℕ
kernel_boundary = 0x8000000000000000

abbrev pub phys_aperture_start : ℕ
phys_aperture_start = 0xffff800000000000

abbrev pub phys_aperture_end : ℕ
phys_aperture_end = 0xffff81ffffffffff

abbrev pub phys_allocator_metadata_start : ℕ
phys_allocator_metadata_start = 0xffff820000000000

abbrev pub phys_allocator_metadata_end : ℕ
phys_allocator_metadata_end = 0xffff82003fffffff

abbrev pub v_alloc_start : ℕ
v_alloc_start = 0xffff900000000000

abbrev pub v_alloc_end : ℕ
v_alloc_end = 0xffff90ffffffffff
