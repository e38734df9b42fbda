-- ===== src/Platform/PhysicalMap.antt =====
-- Physical addresses seen through the aperture: Sources/Memory/PhysicalMap.cpp of the platform.
-- `gIsEarlyBoot` is the argument `early`.
use kush_os_rewrite.Base.{ℕ, ◌+◌, ◌-◌, ◌≡◌, ◌%◌, ◌<◌, Bool, ◌&&◌, not, arith, bit_and}
use kush_os_rewrite.Base.{◌==◌, ltb, Outcome, done, require, ◌>>◌, if◌then◌else◌}
use kush_os_rewrite.Base.Bits.{bit_and-low}
use kush_os_rewrite.Platform.Layout.{phys_aperture_start, phys_aperture_end}

-- `PhysApertureEnd + 1 - PhysApertureStart`
abbrev pub aperture_length : ℕ
aperture_length = phys_aperture_end + 1 - phys_aperture_start

-- The virtual address; the code's status is always 0.
unfoldable pub add : Bool → ℕ → ℕ → Outcome ℕ
add early physical length = do
  require (not (length == 0) && (bit_and length 0xfff == 0))
  if early
      then (require (ltb physical 0x100000000) >> done physical)
      else (require (ltb physical aperture_length) >> done (phys_aperture_start + physical))

-- What `add` maps has a length of whole pages, and is not empty.
pub add_whole_pages :
    (early : Bool) (physical length : ℕ) {addr : ℕ}
    → add early physical length ≡ done addr
    → (0 < length) × (length % 4096 ≡ 0)
unfolding add
add_whole_pages early physical length e = ground (arith, bit_and-low 12 length)
