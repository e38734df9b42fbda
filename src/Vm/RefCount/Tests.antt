-- ===== src/Vm/RefCount/Tests.antt =====
-- The reference count of an object in a short life.
use kush_os_rewrite.Base.{[], ◌∷◌, ◌≡◌, some, arith}
use kush_os_rewrite.Vm.RefCount.Life.{run, held, retains, releases, run-refines}

run-refines_example :
    run (some 1) (retains ∷ releases ∷ releases ∷ []) ≡ held 1 (retains ∷ releases ∷ releases ∷ [])
run-refines_example = run-refines 0 (retains ∷ releases ∷ releases ∷ []) (omega arith)
