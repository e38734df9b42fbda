-- ===== src/Idlc/Rpc.antt =====
-- What the client and server stubs share that tools/idlc/src/CodeGenerator+Server.cpp and
-- CodeGenerator+Client.cpp write out: the message header, the transmit buffer, and the choice of a
-- method by its identifier. `posix_memalign` is a parameter: it gives the contents of a buffer of the
-- size asked for, or nothing. A fatal error, which ends the program, is `panic`; the others are
-- recorded in the order of their reports.
pub mod Server
pub mod Client
pub mod Messages
pub mod Replies
pub mod Steps
pub mod Calls
pub mod Tests
use kush_os_rewrite.Base.{
  ℕ, ◌+◌, ◌*◌, ◌/◌, ◌-◌, ◌%◌, ◌^◌, ◌&&◌, List, [], ◌∷◌, ◌++◌, map, replicate, u32, u64, ◌==◌, ltb,
  leb, if◌then◌else◌, Option, none, some, Outcome, done, panic, in_bounds, ◌>>◌,
}
use kush_os_rewrite.Idlc.Interface.{Argument, Method}
use kush_os_rewrite.Idlc.Wire.{ArgType, arg_type, Span, put_bytes, le32, of_le32}

-- The reports to `_HandleError` that are not fatal.
pub data Error : Type 0 where
  received_too_small request_undecoded reply_unserialized reply_unsent : Error
  no_reply invalid_tag invalid_type reply_undecoded : Error

-- `MessageHeader`, and its flags
pub record Header : Type 0 where
  pub type_id : ℕ
  pub flags : ℕ
  pub tag : ℕ

abbrev pub request_flag : ℕ
request_flag = 1

abbrev pub response_flag : ℕ
response_flag = 2

-- `sizeof(MessageHeader)`, also the offset of the payload
abbrev pub header_size : ℕ
header_size = 16

-- A header's bytes, and the header at the start of a buffer.
abbrev pub header_bytes : Header → List ℕ
header_bytes h =
    le32 (h.type_id % 2 ^ 32) ++ le32 (h.type_id / 2 ^ 32) ++ le32 h.flags ++ le32 h.tag

unfoldable pub header_of : Span → Header
header_of s = record {
  type_id = of_le32 s.bytes 0 + of_le32 s.bytes 4 * 2 ^ 32;
  flags = of_le32 s.bytes 8;
  tag = of_le32 s.bytes 12;
}

-- `memset` of the header, and its fields
unfoldable pub put_header : Span → Header → Span
put_header s h = record s {
  bytes = put_bytes (put_bytes s.bytes 0 (replicate header_size 0)) 0 (header_bytes h);
}

-- `buf.subspan(offsetof(MessageHeader, payload))`, for a buffer with room for a header
abbrev pub payload : Span → Span
payload s = record { size = s.size - header_size; bytes = λ p. s.bytes (header_size + p) }

-- `std::span<std::byte> data(packet->payload, numBytes)`, and the buffer once that span is written
abbrev pub data_span : Span → ℕ → Span
data_span s n = record { size = n; bytes = λ p. s.bytes (header_size + p) }

unfoldable pub with_data : Span → Span → Span
with_data s d = record s {
  bytes = λ a.
      if leb header_size a && ltb a (header_size + d.size)
      then d.bytes (a - header_size)
      else s.bytes a;
}

-- The first bytes of the transmit buffer, as they are sent.
abbrev pub first_bytes : Span → ℕ → Span
first_bytes s n = record { size = n; bytes = s.bytes }

-- `txBuf` and `txBufSize` of a new stub
abbrev pub no_buffer : Span
no_buffer = record { size = 0; bytes = λ p. 0 }

-- `_ensureTxBuf`: the buffer for a payload of the given size. `txBuf` and `txBufSize` are one span,
-- an empty one for a null pointer.
unfoldable pub ensure_tx_buf : (ℕ → Option (ℕ → ℕ)) → Span → ℕ → Outcome Span
ensure_tx_buf memalign buf payload_bytes =
    let len = u64 (header_size + payload_bytes + 16) in
    if ltb buf.size len
    then elim (memalign len) [
      | none ↦ panic
      | some bytes ↦ done (record { size = len; bytes = bytes })
    ]
    else done buf

-- The types of a message's members.
unfoldable pub types_of : List Argument → List ArgType
types_of [] = []
types_of (a ∷ args) = arg_type a ∷ types_of args

-- The label of the `switch` that a message goes to.
unfoldable pub find_method : List Method → ℕ → Option Method
find_method [] type_id = none
find_method (m ∷ methods) type_id =
    if type_id == m.identifier then some m else find_method methods type_id
