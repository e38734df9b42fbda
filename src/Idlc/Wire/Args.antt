-- ===== src/Idlc/Wire/Args.antt =====
-- What one argument of a message writes, and what is read back from it.
use kush_os_rewrite.Base.{
  ℕ, ◌+◌, ◌-◌, ◌^◌, ◌≤◌, ◌<◌, true, false, arith, List, length, get_or, u32, le→leb, le→ltb,
  ==_of_ne, if◌then◌else◌, some, done, Bool-cases,
}
use kush_os_rewrite.Base.{◌≡◌, refl, ap, sym, ◌∙◌, ◌⊎◌, inl, inr}
use kush_os_rewrite.Idlc.Interface.{
  bool, int8, int16, int32, int64, uint8, uint16, uint32, uint64, float32, float64, string, blob,
}
use kush_os_rewrite.Idlc.Wire.{
  ArgType, builtin, custom, element_size, is_blob, wire_size, Span, put_bytes, get_bytes,
  has_subspan, le32, of_le32, serialize_arg, deserialize_arg,
}
use kush_os_rewrite.Idlc.Wire.Spans.{
  put_bytes-inside, put_bytes-outside, get_bytes_lem, of_le32_lem,
}

pub element_size_pos : (a : ArgType) → 0 < element_size a
element_size_pos custom = omega arith
element_size_pos (builtin b) = elim b as (λ t. 0 < wire_size t) [
  | bool ↦ omega arith
  | int8 ↦ omega arith
  | int16 ↦ omega arith
  | int32 ↦ omega arith
  | int64 ↦ omega arith
  | uint8 ↦ omega arith
  | uint16 ↦ omega arith
  | uint32 ↦ omega arith
  | uint64 ↦ omega arith
  | float32 ↦ omega arith
  | float64 ↦ omega arith
  | string ↦ omega arith
  | blob ↦ omega arith
]

element_size-blob : (a : ArgType) → is_blob a ≡ true → element_size a ≡ 8
element_size-blob custom h = refl
element_size-blob (builtin string) h = refl
element_size-blob (builtin blob) h = refl
element_size-blob (builtin bool) h = cc
element_size-blob (builtin int8) h = cc
element_size-blob (builtin int16) h = cc
element_size-blob (builtin int32) h = cc
element_size-blob (builtin int64) h = cc
element_size-blob (builtin uint8) h = cc
element_size-blob (builtin uint16) h = cc
element_size-blob (builtin uint32) h = cc
element_size-blob (builtin uint64) h = cc
element_size-blob (builtin float32) h = cc
element_size-blob (builtin float64) h = cc

-- The bytes that a value takes behind the scalars.
abbrev pub blob_length : ArgType → List ℕ → ℕ
blob_length a v = if is_blob a then length v else 0

-- The two memories have the same bytes from `lo` to before `hi`.
abbrev pub Agree : (ℕ → ℕ) → (ℕ → ℕ) → ℕ → ℕ → Type 0
Agree mem mem' lo hi = (p : ℕ) → lo ≤ p → p < hi → mem p ≡ mem' p

has_subspan_lem : (s : Span) (off n : ℕ) → off + n ≤ s.size → has_subspan s off n ≡ true
has_subspan_lem s off n h =
    rw (le→leb off s.size (omega (arith, h)), le→leb n (s.size - off) (omega (arith, h)))

-- The argument is written, to its place and to its blob's, and is read back from any span that has
-- the same bytes there.
pub record Written (a : ArgType) (off : ℕ) (v : List ℕ) (out : Span) (boff : ℕ) : Type 0 where
  pub bytes' : ℕ → ℕ
  pub run :
      serialize_arg a off (element_size a) v out boff
      ≡ done (some (record out { bytes = bytes' }, boff + blob_length a v))
  pub kept :
      (p : ℕ)
      → (p < off) ⊎ (off + element_size a ≤ p) × (p < boff) ⊎ (boff + blob_length a v ≤ p)
      → bytes' p ≡ out.bytes p
  pub reads :
      (inp : Span)
      → inp.size ≡ out.size
      → Agree inp.bytes bytes' off (off + element_size a)
      → Agree inp.bytes bytes' boff (boff + blob_length a v)
      → deserialize_arg a off (element_size a) inp ≡ done (some v)

module _ (a : ArgType) (off : ℕ) (v : List ℕ) (out : Span) (boff : ℕ)
    (scalars : off + element_size a ≤ boff) (fits : boff + blob_length a v ≤ out.size)
    (small : boff + blob_length a v < 2 ^ 32) where
  primitive : is_blob a ≡ false → length v ≡ element_size a → Written a off v out boff
  unfolding serialize_arg deserialize_arg
  primitive p len =
      let none_behind : blob_length a v ≡ 0 = rw p refl in
      record {
        bytes' = put_bytes out.bytes off v;
        run =
            rw (has_subspan_lem out off (element_size a) (omega (arith, scalars, fits)), p)
              (ap (λ (n : ℕ). done (some (record out { bytes = put_bytes out.bytes off v }, n)))
                (omega arith));
        kept = λ q apart. put_bytes-outside out.bytes off v q (elim apart [
          | inl h ↦ inl h
          | inr r ↦ elim r [
            | inl h ↦ inr (omega (arith, len, h.0))
            | inr h ↦ inr (omega (arith, len, h, scalars, none_behind))
          ]
        ]);
        reads = λ inp same here there.
            rw
              (
                has_subspan_lem inp off (element_size a) (omega (arith, scalars, fits, same)),
                p,
                ==_of_ne (element_size a) 0 (λ e. absurd (omega (arith, e, element_size_pos a))),
              )
              (ap (λ (xs : List ℕ). done (some xs))
                (ap (λ (n : ℕ). get_bytes inp.bytes off n) (sym len)
                  ∙ get_bytes_lem inp.bytes off v λ i h.
                    here (off + i) (omega arith) (omega (arith, len, h))
                    ∙ put_bytes-inside out.bytes off v i h));
      }

  -- The span's bytes after a blob.
  abbrev blob_bytes' : ℕ → ℕ
  blob_bytes' =
      put_bytes (put_bytes (put_bytes out.bytes boff v) off (le32 boff)) (off + 4) (le32 (length v))

  module _ (p : is_blob a ≡ true) where
    eight : element_size a ≡ 8
    eight = element_size-blob a p

    behind : blob_length a v ≡ length v
    behind = rw p refl

    outside : (q : ℕ) → (q < off) ⊎ (off + 8 ≤ q) → blob_bytes' q ≡ put_bytes out.bytes boff v q
    outside q h =
        put_bytes-outside _ (off + 4) (le32 (length v)) q
          (elim h [ inl k ↦ inl (omega (arith, k)) | inr k ↦ inr (omega (arith, k)) ])
        ∙ put_bytes-outside _ off (le32 boff) q
            (elim h [ inl k ↦ inl k | inr k ↦ inr (omega (arith, k)) ])

    at_pointer : (i : ℕ) → i < 4 → blob_bytes' (off + i) ≡ get_or (le32 boff) i 0
    at_pointer i h =
        put_bytes-outside _ (off + 4) (le32 (length v)) (off + i) (inl (omega (arith, h)))
        ∙ put_bytes-inside _ off (le32 boff) i h

    at_length : (i : ℕ) → i < 4 → blob_bytes' (off + 4 + i) ≡ get_or (le32 (length v)) i 0
    at_length i h = put_bytes-inside _ (off + 4) (le32 (length v)) i h

    at_blob : (i : ℕ) → i < length v → blob_bytes' (boff + i) ≡ get_or v i 0
    at_blob i h =
        outside (boff + i) (inr (omega (arith, scalars, eight)))
        ∙ put_bytes-inside out.bytes boff v i h

    runs :
        serialize_arg a off (element_size a) v out boff
        ≡ done (some (record out { bytes = blob_bytes' }, boff + blob_length a v))
    unfolding serialize_arg
    runs =
        let fit : u32 (length v) ≡ length v = omega (arith, small, behind) in
        let sum : u32 (boff + length v) ≡ boff + length v = omega (arith, small, behind) in
        rw (
          has_subspan_lem out off (element_size a) (omega (arith, scalars, fits)),
          p,
          fit,
          has_subspan_lem out boff (length v) (omega (arith, fits, behind)),
          le→ltb (length v) (length v) (omega arith),
          sum,
        )

    read_back :
        (inp : Span)
        → inp.size ≡ out.size
        → Agree inp.bytes blob_bytes' off (off + element_size a)
        → Agree inp.bytes blob_bytes' boff (boff + blob_length a v)
        → deserialize_arg a off (element_size a) inp ≡ done (some v)
    unfolding deserialize_arg
    read_back inp same here there =
        let pointer : of_le32 inp.bytes off ≡ boff =
          of_le32_lem inp.bytes off boff (omega (arith, small))
            λ i h. here (off + i) (omega arith) (omega (arith, eight, h)) ∙ at_pointer i h in
        let len : of_le32 inp.bytes (off + 4) ≡ length v =
          of_le32_lem inp.bytes (off + 4) (length v) (omega (arith, small, behind))
            λ i h. here (off + 4 + i) (omega arith) (omega (arith, eight, h)) ∙ at_length i h in
        rw
          (
            has_subspan_lem inp off (element_size a) (omega (arith, scalars, fits, same)),
            p,
            ==_of_ne (element_size a) 0 (λ e. absurd (omega (arith, e, element_size_pos a))),
            pointer,
            len,
            has_subspan_lem inp boff (length v) (omega (arith, fits, behind, same)),
          )
          (ap (λ (xs : List ℕ). done (some xs))
            (get_bytes_lem inp.bytes boff v
              λ i h. there (boff + i) (omega arith) (omega (arith, behind, h)) ∙ at_blob i h))

    blob_written : Written a off v out boff
    blob_written = record {
      bytes' = blob_bytes';
      run = runs;
      kept = λ q apart.
          outside q (elim apart [
            | inl h ↦ inl h
            | inr r ↦ elim r [
              | inl h ↦ inr (omega (arith, eight, h.0))
              | inr h ↦ inr (omega (arith, eight, h, scalars))
            ]
          ])
          ∙ put_bytes-outside out.bytes boff v q (elim apart [
            | inl h ↦ inl (omega (arith, h, scalars))
            | inr r ↦ elim r [ inl h ↦ inl h.1 | inr h ↦ inr (omega (arith, h, behind)) ]
          ]);
      reads = read_back;
    }

  pub written : (is_blob a ≡ true) ⊎ (length v ≡ element_size a) → Written a off v out boff
  written (inl p) = blob_written p
  written (inr len) = elim (Bool-cases (is_blob a)) [
    | inl p ↦ blob_written p
    | inr p ↦ primitive p len
  ]
