-- ===== src/Idlc/Builder/Named.antt =====
-- Lists of methods with different, allowed names, and the invariant of the builder.
use kush_os_rewrite.Base.{
  ℕ, Bool, true, false, ◌&&◌, ◌||◌, List, [], ◌∷◌, ◌++◌, ◌==◌, Option, none, some, arith,
}
use kush_os_rewrite.Base.{◌≡◌, ◌≢◌, refl, ap, ◌∙◌}
use kush_os_rewrite.Idlc.Interface.{Text, same, Method, Interface}
use kush_os_rewrite.Idlc.Builder.{Builder, create, first_char, has_method}

-- No two methods have the same name, and no name begins with an underscore.
unfoldable pub AreNamed : List Method → Type 0
AreNamed [] = Unit
AreNamed (m ∷ methods) =
    (has_method methods m.name ≡ false) × (first_char m.name ≢ 0x5f) × AreNamed methods

unfoldable pub AllNamed : List Interface → Type 0
AllNamed [] = Unit
AllNamed (i ∷ ids) = AreNamed i.methods × AllNamed ids

unfoldable pub CurrentNamed : Option Interface → Type 0
CurrentNamed none = Unit
CurrentNamed (some i) = AreNamed i.methods

-- The current method can be added to the current interface.
unfoldable pub IsFresh : Text → Option Interface → Type 0
IsFresh name none = Unit
IsFresh name (some i) = has_method i.methods name ≡ false

unfoldable pub CanJoin : Option Method → Option Interface → Type 0
CanJoin none current = Unit
CanJoin (some m) current = (first_char m.name ≢ 0x5f) × IsFresh m.name current

pub record IsValid (b : Builder) : Type 0 where
  pub finished : AllNamed b.all_ids
  pub current : CurrentNamed b.current
  pub method : CanJoin b.current_method b.current

pub create-IsValid : (filename : Text) → IsValid (create filename)
unfolding AllNamed CurrentNamed CanJoin
create-IsValid filename = record { finished = tt; current = tt; method = tt }

same_comm : (s t : Text) → same s t ≡ same t s
same_comm [] [] = refl
same_comm [] (d ∷ ds) = refl
same_comm (c ∷ cs) [] = refl
same_comm (c ∷ cs) (d ∷ ds) =
    ap (λ (x : Bool). x && same cs ds) (==-comm c d)
    ∙ ap (λ (x : Bool). (d == c) && x) (same_comm cs ds)
  where
    ==-comm : (a b : ℕ) → (a == b) ≡ (b == a)
    ==-comm a b = ground arith

or-eq-false : (a b : Bool) → (a || b) ≡ false → (a ≡ false) × (b ≡ false)
or-eq-false true b h = cc
or-eq-false false b h = (refl, h)

has_method-append :
    (ms : List Method) (m : Method) (name : Text)
    → has_method ms name ≡ false
    → same m.name name ≡ false
    → has_method (ms ++ m ∷ []) name ≡ false
unfolding has_method
has_method-append [] m name h e = rw e
has_method-append (x ∷ ms) m name h e =
    let parts = or-eq-false (same x.name name) (has_method ms name) h in
    rw parts.0 (has_method-append ms m name parts.1 e)

pub AreNamed-append :
    (ms : List Method) (m : Method)
    → AreNamed ms
    → has_method ms m.name ≡ false
    → first_char m.name ≢ 0x5f
    → AreNamed (ms ++ m ∷ [])
unfolding has_method AreNamed
AreNamed-append [] m named fresh ne = (refl, ne, tt)
AreNamed-append (x ∷ ms) m named fresh ne =
    let parts = or-eq-false (same x.name m.name) (has_method ms m.name) fresh in
    (
      has_method-append ms m x.name named.0 (same_comm m.name x.name ∙ parts.0),
      named.1,
      AreNamed-append ms m named.2 parts.1 ne,
    )

pub AllNamed-append :
    (ids : List Interface) (i : Interface)
    → AllNamed ids
    → AreNamed i.methods
    → AllNamed (ids ++ i ∷ [])
unfolding AllNamed
AllNamed-append [] i named h = (h, tt)
AllNamed-append (x ∷ ids) i named h = (named.0, AllNamed-append ids i named.1 h)
