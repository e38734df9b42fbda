-- ===== src/Vm/PageAllocator/Calls.antt =====
-- What the calls of `PageAllocator` have checked and done when they return.
use kush_os_rewrite.Base.{
  ℕ, ◌+◌, ◌-◌, ◌/◌, ◌%◌, ◌≤◌, ◌<◌, Bool, true, not, ◌&&◌, List, [], ◌∷◌, replicate, length, arith,
  u64, u32, sub64, to_size, is_negative, take, ◌^◌, ◌>>=◌, ◌>>◌, in_bounds, zero, suc, leb, ◌∙◌,
  in_bounds-eq-done,
}
use kush_os_rewrite.Base.{
  ◌≡◌, sym, ap, Bool-cases, ◌==◌, ltb, if◌then◌else◌, ◌⊎◌, inl, inr, require-eq-done, Option, none,
  some, done, >>=-eq-done, done-injective,
}
use kush_os_rewrite.Memory.PhysicalAllocator
use kush_os_rewrite.Memory.Region
use kush_os_rewrite.Memory.Region.{Region}
use kush_os_rewrite.Memory.Pool
use kush_os_rewrite.Memory.Pool.{Pool, Given, store}
use kush_os_rewrite.Memory.Pool.Alloc.{length-store}
use kush_os_rewrite.Vm.Map.{map_or_panic}
use kush_os_rewrite.Platform.Layout.{v_alloc_end}
use kush_os_rewrite.Platform.PageTable.{Machine, nearest_page_size}
use kush_os_rewrite.Vm.PageAllocator
use kush_os_rewrite.Vm.PageAllocator.{State, init, alloc, place, give_back, end_of, free}

below_end : (end cursor : ℕ) → (ltb end v_alloc_end && ltb cursor end) ≡ true → end < v_alloc_end
below_end end cursor h = ground arith

alloc_from_length :
    (page_size num : ℕ) (rs : List Region) (allocated : ℕ) (buffer : List ℕ) {g : Given}
    → Pool.alloc_from page_size num rs allocated buffer ≡ done g
    → length g.buffer ≡ length buffer
unfolding Pool.alloc_from
alloc_from_length page_size num [] allocated buffer h =
    sym (ap (λ (g : Given). length g.buffer) (done-injective h))
alloc_from_length page_size num (r ∷ rs) allocated buffer {g} h =
    let (got, e1, h1) =
      >>=-eq-done (Region.alloc r page_size (sub64 num (to_size allocated))) _ h in
    let (bound, h2) = in_bounds-eq-done (leb (length got.2) (length buffer)) _ h1 in
    elim (Bool-cases (is_negative got.1)) [
      | inl e ↦
          sym (ap (λ (t : Given). length t.buffer) (done-injective (rw e at h2)))
          ∙ length-store got.2 buffer
      | inr e ↦ elim (Bool-cases (to_size (u32 (allocated + got.1)) == num)) [
        | inl e' ↦
            sym (ap (λ (t : Given). length t.buffer) (done-injective (rw (e, e') at h2)))
            ∙ length-store got.2 buffer
        | inr e' ↦
            let (t, e3, h3) =
              >>=-eq-done
                (Pool.alloc_from page_size num rs (u32 (allocated + got.1)) (store got.2 buffer)) _
                (rw (e, e') at h2) in
            sym (ap (λ (t : Given). length t.buffer) (done-injective h3))
            ∙ alloc_from_length page_size num rs (u32 (allocated + got.1)) (store got.2 buffer) e3
            ∙ length-store got.2 buffer
      ]
    ]

-- `alloc` of a pool keeps the buffer's size.
pool_alloc_length :
    (pool : Pool) (num : ℕ) (buffer : List ℕ) {r : Pool × ℕ × List ℕ}
    → Pool.alloc pool num buffer ≡ done r
    → length r.2 ≡ length buffer
unfolding Pool.alloc
pool_alloc_length pool num buffer {r} h =
    let (g, e, h1) = >>=-eq-done (Pool.alloc_from pool.page_size num pool.regions 0 buffer) _ h in
    finish g g.failed h1 ∙ alloc_from_length pool.page_size num pool.regions 0 buffer e
  where
    finish :
        (g : Given) (failed : Option ℕ)
        → (let pool' : Pool = record pool { regions = g.regions } in
            elim failed [
              | none ↦ done (pool', g.allocated, g.buffer)
              | some err ↦
                  if g.allocated == 0
                  then done (pool', err, g.buffer)
                  else (in_bounds (leb (to_size g.allocated) (length g.buffer))
                      >> (Pool.free pool' (take (to_size g.allocated) g.buffer) >>= λ f.
                          done (f.1, err, g.buffer)))
            ])
          ≡ done r
        → length r.2 ≡ length g.buffer
    finish g none h = sym (ap (λ (t : Pool × ℕ × List ℕ). length t.2) (done-injective h))
    finish g (some err) h = elim (Bool-cases (g.allocated == 0)) [
      | inl e ↦ sym (ap (λ (t : Pool × ℕ × List ℕ). length t.2) (done-injective (rw e at h)))
      | inr e ↦
          let (bound, h1) =
            in_bounds-eq-done (leb (to_size g.allocated) (length g.buffer)) _ (rw e at h) in
          let (f, e1, h2) =
            >>=-eq-done
              (Pool.free (record pool { regions = g.regions })
                (take (to_size g.allocated) g.buffer))
              _ h1 in
          sym (ap (λ (t : Pool × ℕ × List ℕ). length t.2) (done-injective h2))
    ]

-- What `AllocatePages` has checked, and that the buffer keeps its size.
pub allocate_pages_lem :
    (s : PhysicalAllocator.State) (num : ℕ) (buffer : List ℕ) (pool : ℕ)
    → {r : PhysicalAllocator.State × ℕ × List ℕ}
    → PhysicalAllocator.allocate_pages s num buffer pool ≡ done r
    → (0 < num) × (length r.2 ≡ length buffer)
unfolding PhysicalAllocator.allocate_pages
allocate_pages_lem s num buffer pool {r} h =
    let (t, h1) = require-eq-done (not (num == 0)) _ h in
    let (t2, h2) = require-eq-done (ltb pool 4) _ h1 in
    let (at, e3, h3) = >>=-eq-done (PhysicalAllocator.get_pool s pool) _ h2 in
    let (got, e4, h4) = >>=-eq-done (Pool.alloc at.1 num buffer) _ h3 in
    (
      ground arith,
      sym (ap (λ (t : PhysicalAllocator.State × ℕ × List ℕ). length t.2) (done-injective h4))
          ∙ pool_alloc_length at.1 num buffer e4,
    )

map_pages_length :
    (early : Bool) (pml4 n : ℕ) (phys : List ℕ) (virt : ℕ) (m : Machine PhysicalAllocator.State)
    → {m' : Machine PhysicalAllocator.State}
    → PageAllocator.map_pages early pml4 n phys virt m ≡ done m'
    → n ≤ length phys
unfolding PageAllocator.map_pages
map_pages_length early pml4 zero phys virt m h = omega arith
map_pages_length early pml4 (suc n) [] virt m h = cc
map_pages_length early pml4 (suc n) (p ∷ phys) virt m h =
    let (m1, e1, h1) = >>=-eq-done (map_or_panic _ early pml4 m p virt _) _ h in
    omega (arith, map_pages_length early pml4 n phys (u64 (virt + 4096)) m1 h1)

place_lem :
    (early : Bool) (kernel : Option ℕ) (s : State) (len : ℕ) (source : PhysicalAllocator.State)
    → (phys : List ℕ) {r : State × Option ℕ} → place early kernel s len source phys ≡ done r
    → (r.0.cursor ≡ end_of s.cursor len)
      × (r.1 ≡ some s.cursor)
      × (nearest_page_size len / 4096 ≤ length phys)
unfolding place
place_lem early kernel s len source phys {r} h =
    let (pml4, e1, h1) = >>=-eq-done (PageAllocator.the_map kernel) _ h in
    let (m, e2, h2) =
      >>=-eq-done
        (PageAllocator.map_pages early pml4 (nearest_page_size len / 4096) phys s.cursor
          (record s.machine { source = source }))
        _ h1 in
    let e : _ ≡ r = done-injective h2 in
    (
      sym (ap (λ (t : State × Option ℕ). t.0.cursor) e),
      sym (ap (λ (t : State × Option ℕ). t.1) e),
      map_pages_length early pml4 _ phys s.cursor _ e2,
    )

give_back_lem :
    (s : State) (source : PhysicalAllocator.State) (count : ℕ) (phys : List ℕ)
    → {r : State × Option ℕ} → give_back s source count phys ≡ done r
    → (r.0.cursor ≡ s.cursor) × (r.1 ≡ none)
unfolding give_back
give_back_lem s source count phys {r} h =
    let (bound, h1) = in_bounds-eq-done (leb (to_size count) (length phys)) _ h in
    let (freed, e2, h2) = >>=-eq-done (PhysicalAllocator.free_pages source _ 0) _ h1 in
    let e : _ ≡ r = done-injective h2 in
    (sym (ap (λ (t : State × Option ℕ). t.0.cursor) e), sym (ap (λ (t : State × Option ℕ). t.1) e))

-- What `Alloc` has checked and done when it returns.
pub alloc_lem :
    (early : Bool) (kernel : Option ℕ) (s s' : State) (len : ℕ) (out : Option ℕ)
    → alloc early kernel s len ≡ done (s', out)
    → (s'.cursor ≡ s.cursor) × (out ≡ none)
      ⊎ (s'.cursor ≡ end_of s.cursor len)
        × (out ≡ some s.cursor)
        × (end_of s.cursor len < v_alloc_end)
        × (0 < nearest_page_size len / 4096)
        × (nearest_page_size len / 4096 ≤ 16)
unfolding alloc
alloc_lem early kernel s s' len out h =
    let (fits, h1) =
      require-eq-done (ltb (end_of s.cursor len) v_alloc_end && ltb s.cursor (end_of s.cursor len))
        _ h in
    let (got, e2, h2) =
      >>=-eq-done
        (PhysicalAllocator.allocate_pages s.machine.source (nearest_page_size len / 4096)
          (replicate 16 0) 0)
        _ h1 in
    let facts =
      allocate_pages_lem s.machine.source (nearest_page_size len / 4096) (replicate 16 0) 0 e2 in
    elim (Bool-cases (is_negative got.1 && ltb got.1 (2 ^ 32 - 1))) [
      | inl bad ↦
          let e = done-injective (rw bad at h2) in
          inl (
            sym (ap (λ (t : State × Option ℕ). t.0.cursor) e),
            sym (ap (λ (t : State × Option ℕ). t.1) e),
          )
      | inr good ↦ elim (Bool-cases (to_size got.1 == nearest_page_size len / 4096)) [
        | inl e ↦
            let (c, o, bound) = place_lem early kernel s len got.0 got.2 (rw (good, e) at h2) in
            inr (
              c,
              o,
              below_end (end_of s.cursor len) s.cursor fits,
              facts.0,
              omega (arith, bound, facts.1),
            )
        | inr e ↦ inl (give_back_lem s got.0 got.1 got.2 (rw (good, e) at h2))
      ]
    ]

pub free_cursor :
    (early : Bool) (kernel : Option ℕ) (s s' : State) (ptr len : ℕ)
    → free early kernel s ptr len ≡ done s'
    → s'.cursor ≡ s.cursor
unfolding free
free_cursor early kernel s s' ptr len h =
    let (t1, h1) = require-eq-done (not (ptr == 0) && not (len == 0)) _ h in
    let (t2, h2) = require-eq-done (ptr % 4096 == 0) _ h1 in
    let (pml4, e3, h3) = >>=-eq-done (PageAllocator.the_map kernel) _ h2 in
    let (phys, e4, h4) = >>=-eq-done (PageAllocator.phys_pages _ _ _ _ _ _) _ h3 in
    let (gone, e5, h5) = >>=-eq-done (PageAllocator.PageTable.unmap _ _ _ _ _) _ h4 in
    let (t6, h6) = require-eq-done _ _ h5 in
    let (t7, h7) = require-eq-done _ _ h6 in
    let (freed, e8, h8) = >>=-eq-done (PhysicalAllocator.free_pages s.machine.source phys 0) _ h7 in
    let (t9, h9) = require-eq-done _ _ h8 in sym (ap (λ (t : State). t.cursor) (done-injective h9))
