-- ===== src/Idlc/Wire/Tests.antt =====
-- A message of a flag, a text and a number.
use kush_os_rewrite.Base.{ℕ, ◌≤◌, true, List, [], ◌∷◌, ◌≡◌, refl, inl, inr, arith, done, some}
use kush_os_rewrite.Idlc.Interface.{bool, uint32, string}
use kush_os_rewrite.Idlc.Wire.{
  ArgType, builtin, Span, scalar_bytes, bytes_for, blob_bytes, serialize, deserialize,
}
use kush_os_rewrite.Idlc.Wire.RoundTrip.{AreTyped, serialize-deserialize}

abbrev args : List ArgType
args = builtin bool ∷ builtin string ∷ builtin uint32 ∷ []

abbrev values : List (List ℕ)
values = (1 ∷ []) ∷ (0x68 ∷ 0x69 ∷ 0x21 ∷ []) ∷ (0x78 ∷ 0x56 ∷ 0x34 ∷ 0x12 ∷ []) ∷ []

abbrev out : Span
out = record { size = 32; bytes = λ p. 0xcc }

args-AreTyped : AreTyped args values
unfolding AreTyped
args-AreTyped = (inr refl, (inl refl, (inr refl, tt)))

serialize-deserialize_example :
    (out' : Span) × (serialize args values out ≡ done (out', true))
    × (out'.size ≡ out.size)
    × ((p : ℕ) → bytes_for args values ≤ p → out'.bytes p ≡ out.bytes p)
    × (deserialize args out' ≡ done (some values))
unfolding scalar_bytes blob_bytes
serialize-deserialize_example =
    serialize-deserialize args values out args-AreTyped (omega arith) (omega arith)
