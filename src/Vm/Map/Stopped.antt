-- ===== src/Vm/Map/Stopped.antt =====
-- A panic at a large page, seen from a longer run and from an earlier address space.
use kush_os_rewrite.Base.{ℕ, ◌^◌, ◌≤◌, ◌<◌, Bool, arith, ◌≡◌, sym, ◌∙◌, Outcome, panic}
use kush_os_rewrite.Platform.PageTable.{Memory, get_phys_addr}
use kush_os_rewrite.Platform.PageTable.Map.{IsLargePage}
use kush_os_rewrite.Vm.Map.Ends.{Panics}

-- The bounds may be wider, and what runs after a panic does not count.
pub Panics-in :
    {early : Bool} {pml4 : ℕ} {A B : Type 0} {mem : Memory} (low high high' : ℕ) {run : Outcome A}
    {run' : Outcome B}
    → high ≤ high'
    → (run ≡ panic → run' ≡ panic)
    → Panics early pml4 mem low high run
    → Panics early pml4 mem low high' run'
Panics-in low high high' wider ends p = record {
  virt = p.virt;
  from_low = p.from_low;
  to_high = omega (arith, p.to_high, wider);
  hits = p.hits;
  ends = ends p.ends;
}

-- The large page was there before, where no look-up of these addresses has changed.
pub Panics-before :
    {early : Bool} {pml4 : ℕ} {A B : Type 0} {mem mem' : Memory} (low low' high high' : ℕ)
    {run : Outcome A} {run' : Outcome B}
    → ((a : ℕ)
        → low' ≤ a
        → a < 2 ^ 64
        → get_phys_addr early pml4 mem' a ≡ get_phys_addr early pml4 mem a)
    → low ≤ low'
    → high ≤ high'
    → high ≤ 2 ^ 64
    → (run ≡ panic → run' ≡ panic)
    → Panics early pml4 mem' low' high run
    → Panics early pml4 mem low high' run'
unfolding IsLargePage
Panics-before low low' high high' same above wider top ends p = record {
  virt = p.virt;
  from_low = omega (arith, p.from_low, above);
  to_high = omega (arith, p.to_high, wider);
  hits = (p.hits.0, sym (same p.virt p.from_low (omega (arith, p.to_high, top))) ∙ p.hits.1);
  ends = ends p.ends;
}
