-- ===== src/Idlc/Builder/Inversion.antt =====
-- Actions of the builder that have ended well, taken apart.
use kush_os_rewrite.Base.{Bool, true, false, Option, none, some}
use kush_os_rewrite.Base.{◌≡◌, refl, ap}
use kush_os_rewrite.Idlc.Builder.{
  Result, ok, failed, thrown, null_access, ◌>>=◌, ◌>>◌, assert, or_throw, follow,
}

-- Inversion of actions that have ended well.
pub >>=-eq-ok {κ ι} :
    {T : Type κ} {end : T} {S : Type ι} (first : Result S) (next : S → Result T)
    → (first >>= next) ≡ ok end
    → (mid : S) × (first ≡ ok mid) × (next mid ≡ ok end)
>>=-eq-ok null_access next e = cc
>>=-eq-ok thrown next e = cc
>>=-eq-ok failed next e = cc
>>=-eq-ok (ok mid) next e = (mid, refl, e)

pub ok-injective {ℓ} : {A : Type ℓ} {a b : A} → ok a ≡ ok b → a ≡ b
ok-injective {A} {a} e = ap (λ m. elim m [ ok x ↦ x | _ ↦ a ]) e

pub assert-eq-ok {ℓ} :
    {B : Type ℓ} (test : Bool) (k : Result B) {b : B}
    → (assert test >> k) ≡ ok b
    → (test ≡ true) × (k ≡ ok b)
assert-eq-ok true k h = (refl, h)
assert-eq-ok false k h = cc

pub or_throw-eq-ok {ℓ} :
    {B : Type ℓ} (test : Bool) (k : Result B) {b : B}
    → (or_throw test >> k) ≡ ok b
    → (test ≡ true) × (k ≡ ok b)
or_throw-eq-ok true k h = (refl, h)
or_throw-eq-ok false k h = cc

pub follow-eq-ok {ℓ} : {A : Type ℓ} (o : Option A) {a : A} → follow o ≡ ok a → o ≡ some a
follow-eq-ok none h = cc
follow-eq-ok (some x) h = ap some (ok-injective h)
