-- ===== src/Platform/PageTable/Sizes.antt =====
-- Lengths that are rounded up to whole pages.
use kush_os_rewrite.Base.{ℕ, ◌/◌, ◌%◌, ◌^◌, ◌≤◌, ◌<◌, arith}
use kush_os_rewrite.Base.{◌≡◌, ◌⊎◌}
use kush_os_rewrite.Platform.PageTable.{nearest_page_size}

-- A whole number of pages that covers the length, or 0 where the sum wraps around.
pub nearest_page_size_lem :
    (n : ℕ)
    → n < 2 ^ 64
    → (nearest_page_size n % 4096 ≡ 0) × ((n ≤ nearest_page_size n) ⊎ (nearest_page_size n ≡ 0))
unfolding nearest_page_size
nearest_page_size_lem n small = ground arith

pub nearest_page_size_positive : (n : ℕ) → 0 < nearest_page_size n / 4096 → 0 < n
unfolding nearest_page_size
nearest_page_size_positive n h = ground arith

pub nearest_page_size-whole : (n : ℕ) → nearest_page_size n % 4096 ≡ 0
unfolding nearest_page_size
nearest_page_size-whole n = ground arith
