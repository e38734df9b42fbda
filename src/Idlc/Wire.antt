-- ===== src/Idlc/Wire.antt =====
-- The wire format of messages: `gWireSizes`, `serWriteArgs` and the functions that
-- `serWriteSerializers` writes, of tools/idlc/src/CodeGenerator+Serialization.cpp. A span is its size
-- and its bytes; a subspan that is not inside its span is `wild`. A primitive value is the list of
-- the bytes that stand for it in memory, and a blob the list of its bytes.
pub mod Spans
pub mod Args
pub mod RoundTrip
pub mod Tests
use kush_os_rewrite.Base.{
  ℕ, zero, suc, ◌+◌, ◌*◌, ◌/◌, ◌-◌, ◌%◌, ◌^◌, Bool, true, false, not, ◌&&◌, ◌||◌, List, [], ◌∷◌,
  ◌++◌, length, get_or, u32, ◌==◌, ltb, leb, if◌then◌else◌, Option, none, some, Outcome, done,
  in_bounds, ◌>>=◌, ◌>>◌,
}
use kush_os_rewrite.Idlc.Interface.{
  Argument, Builtin, bool, int8, int16, int32, int64, uint8, uint16, uint32, uint64, float32,
  float64, string, blob,
}

-- The type of an argument: built in, or a custom one.
pub data ArgType : Type 0 where
  builtin : Builtin → ArgType
  custom : ArgType

-- What `isBuiltinType` and the look-ups by the lower-case name see of an argument.
abbrev pub arg_type : Argument → ArgType
arg_type a = elim a.found [ none ↦ custom | some b ↦ builtin b ]

-- `gWireSizes`
abbrev pub wire_size : Builtin → ℕ
wire_size bool = 1
wire_size int8 = 1
wire_size int16 = 2
wire_size int32 = 4
wire_size int64 = 8
wire_size uint8 = 1
wire_size uint16 = 2
wire_size uint32 = 4
wire_size uint64 = 8
wire_size float32 = 4
wire_size float64 = 8
wire_size string = 8
wire_size blob = 8

-- `bytes` in the loop of `serWriteArgs`
abbrev pub element_size : ArgType → ℕ
element_size (builtin b) = wire_size b
element_size custom = 8

-- `IsBlob`, with `gWireIsBlob`
abbrev pub is_blob : ArgType → Bool
is_blob (builtin string) = true
is_blob (builtin blob) = true
is_blob (builtin _) = false
is_blob custom = true

-- `kElementSizes` and `kElementOffsets`, by the loop of `serWriteArgs`, and its `scalarBytes`
unfoldable pub element_sizes : List ArgType → List ℕ
element_sizes [] = []
element_sizes (a ∷ args) = element_size a ∷ element_sizes args

unfoldable pub offsets_from : ℕ → List ArgType → List ℕ
offsets_from off [] = []
offsets_from off (a ∷ args) = off ∷ offsets_from (off + element_size a) args

unfoldable pub scalar_bytes : List ArgType → ℕ
scalar_bytes [] = 0
scalar_bytes (a ∷ args) = element_size a + scalar_bytes args

abbrev pub blob_start : List ArgType → ℕ
blob_start args = (scalar_bytes args + 7) / 8 * 8

-- `std::span<std::byte>`
pub record Span : Type 0 where
  pub size : ℕ
  pub bytes : ℕ → ℕ

-- `memcpy` to and from a span, at an offset.
unfoldable pub put_bytes : (ℕ → ℕ) → ℕ → List ℕ → ℕ → ℕ
put_bytes mem off bs a =
    if leb off a && ltb a (off + length bs) then get_or bs (a - off) 0 else mem a

unfoldable pub get_bytes : (ℕ → ℕ) → ℕ → ℕ → List ℕ
get_bytes mem off zero = []
get_bytes mem off (suc n) = mem off ∷ get_bytes mem (off + 1) n

-- `subspan(off, n)` is inside the span.
abbrev pub has_subspan : Span → ℕ → ℕ → Bool
has_subspan s off n = leb off s.size && leb n (s.size - off)

-- The bytes of a `uint32_t` in memory, and its value.
abbrev pub le32 : ℕ → List ℕ
le32 n = n % 256 ∷ n / 256 % 256 ∷ n / 65536 % 256 ∷ n / 16777216 % 256 ∷ []

abbrev pub of_le32 : (ℕ → ℕ) → ℕ → ℕ
of_le32 mem off = mem off + mem (off + 1) * 256 + mem (off + 2) * 65536 + mem (off + 3) * 16777216

-- `bytesFor` of a message: the blobs behind the scalars.
unfoldable pub blob_bytes : List ArgType → List (List ℕ) → ℕ
blob_bytes [] values = 0
blob_bytes (a ∷ args) [] = 0
blob_bytes (a ∷ args) (v ∷ values) = (if is_blob a then length v else 0) + blob_bytes args values

abbrev pub bytes_for : List ArgType → List (List ℕ) → ℕ
bytes_for args values = blob_start args + blob_bytes args values

-- `serialize` of one argument: the span and `blobOff`, or `none` for a return of false, when the
-- range for a blob is too short. A `memcpy` of a primitive value copies as many bytes as the range
-- has.
unfoldable pub serialize_arg : ArgType → ℕ → ℕ → List ℕ → Span → ℕ → Outcome (Option (Span × ℕ))
serialize_arg a off size v out blob_off =
    in_bounds (has_subspan out off size)
    >> (if is_blob a
        then (in_bounds (has_subspan out blob_off (u32 (length v)))
            >> (if ltb (u32 (length v)) (length v)
                then done none
                else done (
                    some (
                      record out {
                        bytes =
                            put_bytes
                              (put_bytes (put_bytes out.bytes blob_off v) off (le32 blob_off))
                              (off + 4) (le32 (u32 (length v)));
                      },
                      u32 (blob_off + u32 (length v)),
                    ))))
        else done (some (record out { bytes = put_bytes out.bytes off v }, blob_off)))

-- `serialize`, from an argument on: the span as it is left, and the value returned.
unfoldable pub serialize_from :
    List ArgType → List ℕ → List ℕ → List (List ℕ) → Span → ℕ → Outcome (Span × Bool)
serialize_from [] offs sizes values out blob_off = done (out, true)
serialize_from (a ∷ args) (off ∷ offs) (size ∷ sizes) (v ∷ values) out blob_off =
    serialize_arg a off size v out blob_off >>= λ r. elim r [
      | none ↦ done (out, false)
      | some s ↦ serialize_from args offs sizes values s.0 s.1
    ]
serialize_from (a ∷ args) _ _ _ out blob_off = done (out, true)

-- `serialize` of a message with a value for each argument; `blobOff` is a `uint32_t`.
unfoldable pub serialize : List ArgType → List (List ℕ) → Span → Outcome (Span × Bool)
serialize args values out =
    serialize_from args (offsets_from 0 args) (element_sizes args) values out
      (u32 (blob_start args))

-- `deserialize` of one argument: its value, or `none` for a return of false.
unfoldable pub deserialize_arg : ArgType → ℕ → ℕ → Span → Outcome (Option (List ℕ))
deserialize_arg a off size inp =
    in_bounds (has_subspan inp off size)
    >> (if size == 0
        then done none
        else if is_blob a
        then (in_bounds (has_subspan inp (of_le32 inp.bytes off) (of_le32 inp.bytes (off + 4)))
            >> done
                (some (get_bytes inp.bytes (of_le32 inp.bytes off) (of_le32 inp.bytes (off + 4)))))
        else done (some (get_bytes inp.bytes off size)))

unfoldable pub deserialize_from :
    List ArgType → List ℕ → List ℕ → Span → Outcome (Option (List (List ℕ)))
deserialize_from [] offs sizes inp = done (some [])
deserialize_from (a ∷ args) (off ∷ offs) (size ∷ sizes) inp =
    deserialize_arg a off size inp >>= λ v. elim v [
      | none ↦ done none
      | some v ↦ deserialize_from args offs sizes inp >>= λ vs. elim vs [
        | none ↦ done none
        | some vs ↦ done (some (v ∷ vs))
      ]
    ]
deserialize_from (a ∷ args) _ _ inp = done (some [])

-- `deserialize`: the values, or `none` for a return of false.
unfoldable pub deserialize : List ArgType → Span → Outcome (Option (List (List ℕ)))
deserialize args inp =
    if ltb inp.size (scalar_bytes args)
    then done none
    else (in_bounds (leb (blob_start args) inp.size)
        >> deserialize_from args (offsets_from 0 args) (element_sizes args) inp)
