-- ===== src/Vm/RefCount/Life.antt =====
-- The life of a counted object against a count that cannot wrap.
use kush_os_rewrite.Base.{
  ℕ, zero, suc, ◌+◌, ◌^◌, ◌<◌, arith, List, [], ◌∷◌, length, sub64, ==_of_ne,
}
use kush_os_rewrite.Base.{
  ◌≡◌, refl, ap, ◌∙◌, Option, none, some, Outcome, done, wild, if◌then◌else◌,
}
use kush_os_rewrite.Vm.RefCount.{retain, release}

pub data Call : Type 0 where
  retains releases : Call

-- A run of calls on an object: its count, or `none` once it is deleted. A call on a deleted object
-- is an access to freed memory.
unfoldable pub run : Option ℕ → List Call → Outcome (Option ℕ)
run count [] = done count
run none (c ∷ calls) = wild
run (some count) (retains ∷ calls) = run (some (retain count)) calls
run (some count) (releases ∷ calls) =
    run (if (release count).1 then none else some (release count).0) calls

-- The references that are held: each `retain` adds one and each `release` gives one up, and the
-- object lives exactly as long as there is one.
unfoldable pub held : ℕ → List Call → Outcome (Option ℕ)
held zero [] = done none
held zero (c ∷ calls) = wild
held (suc n) [] = done (some (suc n))
held (suc n) (retains ∷ calls) = held (suc (suc n)) calls
held (suc n) (releases ∷ calls) = held n calls

abbrev of_held : ℕ → Option ℕ
of_held zero = none
of_held (suc n) = some (suc n)

run-of_held :
    (n : ℕ) (calls : List Call) → n + length calls < 2 ^ 64 → run (of_held n) calls ≡ held n calls
unfolding run held
run-of_held zero [] h = refl
run-of_held zero (c ∷ calls) h = refl
run-of_held (suc n) [] h = refl
run-of_held (suc n) (retains ∷ calls) h =
    ap (λ (t : ℕ). run (some t) calls) kept ∙ run-of_held (suc (suc n)) calls (omega (arith, h))
  where
    kept : retain (suc n) ≡ suc (suc n)
    kept = omega (arith, h)
run-of_held (suc zero) (releases ∷ calls) h = run-of_held zero calls (omega (arith, h))
run-of_held (suc (suc n)) (releases ∷ calls) h =
    rw (kept, ==_of_ne (suc n) 0 (λ e. absurd (omega (arith, e))))
      (run-of_held (suc n) calls (omega (arith, h)))
  where
    kept : sub64 (suc (suc n)) 1 ≡ suc n
    kept = omega (arith, h)

-- As long as fewer than 2 ^ 64 calls and references come together, an object with n + 1 references
-- behaves under any calls as the count of the references held: it is deleted by the release of the
-- last one and by no other call, its count is the number of references, and only a call after its
-- deletion accesses freed memory.
pub run-refines :
    (n : ℕ) (calls : List Call)
    → suc n + length calls < 2 ^ 64
    → run (some (suc n)) calls ≡ held (suc n) calls
run-refines n calls h = run-of_held (suc n) calls h
