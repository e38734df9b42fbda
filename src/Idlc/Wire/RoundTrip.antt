-- ===== src/Idlc/Wire/RoundTrip.antt =====
-- A message that is serialized is read back.
use kush_os_rewrite.Base.{
  ℕ, ◌+◌, ◌^◌, ◌≤◌, ◌<◌, true, arith, List, [], ◌∷◌, length, u32, le→ltb, le→leb, some, done,
}
use kush_os_rewrite.Base.{◌≡◌, refl, ap, ◌∙◌, ◌⊎◌, inl, inr}
use kush_os_rewrite.Idlc.Wire.{
  ArgType, element_size, is_blob, Span, element_sizes, offsets_from, scalar_bytes, blob_start,
  blob_bytes, bytes_for, serialize_from, serialize, deserialize_arg, deserialize_from, deserialize,
}
use kush_os_rewrite.Idlc.Wire.Args.{Agree, blob_length, Written, written}

-- There is a value for each argument, and one for a primitive type has the type's size.
unfoldable pub AreTyped : List ArgType → List (List ℕ) → Type 0
AreTyped [] [] = Unit
AreTyped [] (v ∷ values) = ⊥
AreTyped (a ∷ args) [] = ⊥
AreTyped (a ∷ args) (v ∷ values) =
    ((is_blob a ≡ true) ⊎ (length v ≡ element_size a)) × AreTyped args values

-- The arguments from one on are written, and are read back from any span that has the same bytes in
-- their places and in their blobs'.
record AreWritten (args : List ArgType) (off : ℕ) (values : List (List ℕ)) (out : Span) (boff : ℕ)
    : Type 0 where
  bytes' : ℕ → ℕ
  run :
      serialize_from args (offsets_from off args) (element_sizes args) values out boff
      ≡ done (record out { bytes = bytes' }, true)
  kept :
      (p : ℕ)
      → (p < off) ⊎ (off + scalar_bytes args ≤ p) × (p < boff) ⊎ (boff + blob_bytes args values ≤ p)
      → bytes' p ≡ out.bytes p
  reads :
      (inp : Span)
      → inp.size ≡ out.size
      → Agree inp.bytes bytes' off (off + scalar_bytes args)
      → Agree inp.bytes bytes' boff (boff + blob_bytes args values)
      → deserialize_from args (offsets_from off args) (element_sizes args) inp ≡ done (some values)

module _ (a : ArgType) (args : List ArgType) (off : ℕ) (v : List ℕ) (values : List (List ℕ))
    (out : Span) (boff : ℕ) (scalars : off + (element_size a + scalar_bytes args) ≤ boff)
    (w : Written a off v out boff)
    (rest : AreWritten args
      (off + element_size a)
      values
      (record out { bytes = w.bytes' })
      (boff + blob_length a v)) where
  joined : AreWritten (a ∷ args) off (v ∷ values) out boff
  unfolding serialize_from deserialize_from offsets_from element_sizes scalar_bytes blob_bytes
  joined = record {
    bytes' = rest.bytes';
    run = rw w.run rest.run;
    kept = λ p apart. elim apart [
      | inl h ↦ rest.kept p (inl (omega (arith, h))) ∙ w.kept p (inl h)
      | inr r ↦ elim r [
        | inl h ↦
            rest.kept p (inr (inl (omega (arith, h.0), omega (arith, h.1))))
            ∙ w.kept p (inr (inl (omega (arith, h.0), h.1)))
        | inr h ↦
            rest.kept p (inr (inr (omega (arith, h)))) ∙ w.kept p (inr (inr (omega (arith, h))))
      ]
    ];
    reads = λ inp same here there.
        let one : deserialize_arg a off (element_size a) inp ≡ done (some v) =
          w.reads inp same (λ q lo hi. here q lo (omega (arith, hi)) ∙ rest.kept q (inl hi))
            (λ q lo hi.
              there q lo (omega (arith, hi))
              ∙ rest.kept q (inr (inl (omega (arith, lo, scalars), hi)))) in
        let others : deserialize_from args (offsets_from (off + element_size a) args)
              (element_sizes args) inp
            ≡ done (some values) =
          rest.reads inp same (λ q lo hi. here q (omega (arith, lo)) (omega (arith, hi)))
            (λ q lo hi. there q (omega (arith, lo)) (omega (arith, hi))) in
        rw (one, others);
  }

are_written :
    (args : List ArgType) (off : ℕ) (values : List (List ℕ)) (out : Span) (boff : ℕ)
    → AreTyped args values
    → off + scalar_bytes args ≤ boff
    → boff + blob_bytes args values ≤ out.size
    → boff + blob_bytes args values < 2 ^ 32
    → AreWritten args off values out boff
unfolding AreTyped serialize_from deserialize_from offsets_from element_sizes scalar_bytes
    blob_bytes
are_written [] off [] out boff typed scalars fits small = record {
  bytes' = out.bytes;
  run = refl;
  kept = λ p h. refl;
  reads = λ inp same here there. refl;
}
are_written [] off (v ∷ values) out boff typed scalars fits small = absurd typed
are_written (a ∷ args) off [] out boff typed scalars fits small = absurd typed
are_written (a ∷ args) off (v ∷ values) out boff typed scalars fits small =
    let w : Written a off v out boff =
      written a off v out boff (omega (arith, scalars)) (omega (arith, fits)) (omega (arith, small))
        typed.0 in
    joined a args off v values out boff scalars w (
      are_written args (off + element_size a) values (record out { bytes = w.bytes' })
        (boff + blob_length a v) typed.1 (omega (arith, scalars)) (omega (arith, fits))
        (omega (arith, small)))

-- A message whose values have their types' sizes, and which needs fewer than 2 ^ 32 bytes, is written
-- by `serialize` to any span of at least `bytesFor` bytes: no subspan leaves the span and nothing
-- fails; the bytes of the span from there on are as before; and `deserialize` of the span gives the
-- values back.
pub serialize-deserialize :
    (args : List ArgType) (values : List (List ℕ)) (out : Span)
    → AreTyped args values
    → bytes_for args values ≤ out.size
    → bytes_for args values < 2 ^ 32
    → (out' : Span) × (serialize args values out ≡ done (out', true))
      × (out'.size ≡ out.size)
      × ((p : ℕ) → bytes_for args values ≤ p → out'.bytes p ≡ out.bytes p)
      × (deserialize args out' ≡ done (some values))
unfolding serialize deserialize
serialize-deserialize args values out typed fits small =
    let start : ℕ = blob_start args in
    let same : u32 start ≡ start = omega (arith, small) in
    let all : AreWritten args 0 values out start =
      are_written args 0 values out start typed (omega arith) fits small in
    (
      record out { bytes = all.bytes' },
      ap (λ (b : ℕ). serialize_from args (offsets_from 0 args) (element_sizes args) values out b)
            same
          ∙ all.run,
      refl,
      λ p h. all.kept p (inr (inr h)),
      rw
          (
            le→ltb out.size (scalar_bytes args) (omega (arith, fits)),
            le→leb start out.size (omega (arith, fits)),
          )
          (all.reads (record out { bytes = all.bytes' }) refl (λ q lo hi. refl) (λ q lo hi. refl)),
    )
