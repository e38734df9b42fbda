-- ===== src/Memory/Region.antt =====
-- A region of physical pages with its bitmap: Core/Kernel/Sources/Memory/Region.cpp and
-- Core/Kernel/Includes/Memory/Region.h.
-- The bitmap's memory is the field `bitmap`, a list of its 64-bit words; `bitmap_addr` is the
-- pointer to it. A set bit is a free page.
pub mod Chunk
pub mod Alloc
pub mod Free
pub mod Init
use kush_os_rewrite.Base.{ℕ, zero, suc, ◌+◌, ◌-◌, ◌*◌, ◌/◌, ◌%◌, ◌^◌, Bool, true, false, ◌&&◌, not}
use kush_os_rewrite.Base.{
  List, [], ◌∷◌, ◌++◌, length, get_or, set, bit_and, bit_or, u32, u64, sub64, not64,
}
use kush_os_rewrite.Base.{bit64, ffs64, ffs_width, ◌==◌, ltb, leb, if◌then◌else◌}
use kush_os_rewrite.Base.{Outcome, done, panic, wild, stuck, require, in_bounds, ◌>>=◌, ◌>>◌}
use kush_os_rewrite.Platform.PhysicalMap

pub record Region : Type 0 where
  pub phys_base : ℕ
  pub num_pages : ℕ
  pub bitmap_phys : ℕ
  pub bitmap_size : ℕ
  pub bitmap_reserved : ℕ
  pub bitmap_addr : ℕ
  pub bitmap : List ℕ
  pub alloc_base_phys : ℕ
  pub num_allocated : ℕ

-- `memset(words, 0xFF, n)`: whole words, then the low bytes of the word that n ends in.
pub fill_bytes : ℕ → List ℕ → List ℕ
fill_bytes n [] = []
fill_bytes n (w ∷ ws) =
    (if leb 8 n then 2 ^ 64 - 1 else bit_or w (2 ^ (8 * n) - 1)) ∷ fill_bytes (n - 8) ws

-- The words of a memory from index i on.
pub words_from : (ℕ → ℕ) → ℕ → ℕ → List ℕ
words_from memory i zero = []
words_from memory i (suc n) = memory i ∷ words_from memory (i + 1) n

-- `(numPages + 7) / 8`, and that in whole pages
abbrev pub bitmap_bytes : ℕ → ℕ
bitmap_bytes num_pages = u64 (num_pages + (8 - 1)) / 8

abbrev pub bitmap_pages : ℕ → ℕ → ℕ
bitmap_pages page_size num_pages = u64 (bitmap_bytes num_pages + (page_size - 1)) / page_size

abbrev pub reserved : ℕ → ℕ → ℕ
reserved page_size num_pages = u64 (bitmap_pages page_size num_pages * page_size)

-- The fields that the constructor sets, once the bitmap is mapped at `addr`. `memory` gives the
-- words that stand there before.
abbrev pub fresh : ℕ → (ℕ → ℕ) → ℕ → ℕ → ℕ → Region
fresh page_size memory base num_pages addr = record {
  phys_base = base;
  num_pages = num_pages;
  bitmap_phys = base;
  bitmap_size = sub64 num_pages (bitmap_pages page_size num_pages);
  bitmap_reserved = reserved page_size num_pages;
  bitmap_addr = addr;
  bitmap =
      fill_bytes (bitmap_bytes num_pages) (words_from memory 0 (reserved page_size num_pages / 8));
  alloc_base_phys = u64 (base + reserved page_size num_pages);
  num_allocated = 0;
}

-- The constructor.
unfoldable pub init : Bool → ℕ → (ℕ → ℕ) → ℕ → ℕ → Outcome Region
init early page_size memory base length = do
  require (not (length == 0))
  addr ← PhysicalMap.add early base (reserved page_size (length / page_size))
  done (fresh page_size memory base (length / page_size) addr)

-- What a loop of `alloc` hands on: the memory it has written, the pages satisfied so far, and the
-- addresses that it has stored.
pub record Progress (M : Type 0) : Type 0 where
  pub memory : M
  pub satisfied : ℕ
  pub addrs : List ℕ

-- The inner `do … while` over one chunk, with as much fuel as the chunk has bits.
unfoldable pub take_bits : ℕ → ℕ → ℕ → ℕ → ℕ → ℕ → Outcome (Progress ℕ)
take_bits zero base page_size num val satisfied = stuck
take_bits (suc fuel) base page_size num val satisfied =
    let i = ffs64 val in
    let val' = bit_and val (not64 (bit64 (i - 1))) in
    let addr = u64 (base + u64 ((i - 1) * page_size)) in
    let again = take_bits fuel base page_size num val' (satisfied + 1) >>= λ p.
    done (record p { addrs = addr ∷ p.addrs }) in
    if i == 0
    then panic
    else if not (val' == 0) && ltb (satisfied + 1) num
    then again
    else done (record { memory = val'; satisfied = satisfied + 1; addrs = addr ∷ [] })

-- The outer loop, over the chunks that are left, the first of which is for page `off`.
unfoldable pub take_chunks : ℕ → ℕ → ℕ → ℕ → ℕ → List ℕ → ℕ → Outcome (Progress (List ℕ))
take_chunks zero base page_size num off words satisfied =
    done (record { memory = words; satisfied = satisfied; addrs = [] })
take_chunks (suc chunks) base page_size num off [] satisfied = wild
take_chunks (suc chunks) base page_size num off (val ∷ words) satisfied =
    let rest : Progress ℕ → Outcome (Progress (List ℕ)) = λ p.
      take_chunks chunks base page_size num (off + 64) words p.satisfied >>= λ q. done (record {
        memory = p.memory ∷ q.memory;
        satisfied = q.satisfied;
        addrs = p.addrs ++ q.addrs;
      }) in
    let skipped = rest (record { memory = val; satisfied = satisfied; addrs = [] }) in
    if val == 0
    then skipped
    else (take_bits 64 (u64 (base + u64 (off * page_size))) page_size num val satisfied >>= λ p.
        let next = rest p in
        if p.satisfied == num
        then done (record { memory = p.memory ∷ words; satisfied = p.satisfied; addrs = p.addrs })
        else next)

-- The rounds of `for(off = 0; off < bitmapSize; off += 64)`.
abbrev pub chunks : Region → ℕ
chunks r = (r.bitmap_size + 63) / 64

-- `alloc`: the region afterwards, the number of pages, and what is written to `outAddrs`.
-- `numAllocated++` runs once for each page.
unfoldable pub alloc : Region → ℕ → ℕ → Outcome (Region × ℕ × List ℕ)
unfolding take_chunks take_bits
alloc r page_size num = take_chunks (chunks r) r.alloc_base_phys page_size num 0 r.bitmap 0 >>= λ p.
    done (
      record r { bitmap = p.memory; num_allocated = u64 (r.num_allocated + p.satisfied) },
      u32 p.satisfied,
      p.addrs,
    )

-- `contains`
unfoldable pub contains : Region → ℕ → Bool
contains r address = leb r.phys_base address && ltb address (u64 (r.phys_base + r.num_pages))

-- One round of `free`: the pages freed and the region.
unfoldable pub free_one : Region → ℕ → ℕ → Outcome (ℕ × Region)
free_one r page_size addr =
    let page = sub64 addr r.alloc_base_phys / page_size in
    if contains r addr
    then (in_bounds (ltb (page / 64) (length r.bitmap))
        >> done (
          1,
          record r {
            bitmap =
                set r.bitmap (page / 64)
                  (bit_or (get_or r.bitmap (page / 64) 0) (bit64 (page % 64)));
            num_allocated = sub64 r.num_allocated 1;
          },
        ))
    else done (0, r)

unfoldable pub free_from : Region → ℕ → ℕ → List ℕ → Outcome (ℕ × Region)
unfolding free_one
free_from r page_size freed [] = done (freed, r)
free_from r page_size freed (addr ∷ addrs) =
    free_one r page_size addr >>= λ s. free_from s.1 page_size (freed + s.0) addrs

-- `free`, of the addresses in the buffer.
unfoldable pub free : Region → ℕ → List ℕ → Outcome (ℕ × Region)
unfolding free_from
free r page_size addrs = free_from r page_size 0 addrs
