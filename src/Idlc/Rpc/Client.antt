-- ===== src/Idlc/Rpc/Client.antt =====
-- The client stub of tools/idlc/src/CodeGenerator+Client.cpp: a call, up to its message and from the
-- reply on. The stream is a parameter: whether it takes a request, and the reply that it received.
use kush_os_rewrite.Base.{
  ℕ, ◌+◌, Bool, not, List, [], ◌∷◌, ◌++◌, u32, ◌==◌, leb, if◌then◌else◌, Option, none, some,
  Outcome, done, panic, wild, in_bounds, ◌>>=◌, ◌>>◌,
}
use kush_os_rewrite.Idlc.Interface.{Method}
use kush_os_rewrite.Idlc.Wire.{Span, bytes_for, serialize, deserialize}
use kush_os_rewrite.Idlc.Rpc.{
  Error, invalid_tag, invalid_type, reply_undecoded, Header, request_flag, header_size, header_of,
  put_header, payload, data_span, with_data, first_bytes, no_buffer, ensure_tx_buf, types_of,
}

-- `txBuf` with its size, `nextTag`, and the errors reported so far
pub record Client : Type 0 where
  pub tx_buf : Span
  pub next_tag : ℕ
  pub errors : List Error

-- The constructor
abbrev pub create : Client
create = record { tx_buf = no_buffer; next_tag = 0; errors = [] }

abbrev pub report : Client → Error → Client
report c e = record c { errors = c.errors ++ e ∷ [] }

-- `_sendRequest`: the client, the message handed to the stream, and its tag. A message that is not
-- sent is a fatal error.
unfoldable pub send_request : (Span → Bool) → Client → ℕ → ℕ → Outcome (Client × Span × ℕ)
send_request sends c type_id payload_bytes =
    let tag = u32 (c.next_tag + 1) in
    let buf : Span =
      put_header c.tx_buf (record { type_id = type_id; flags = request_flag; tag = tag }) in
    let msg : Span = first_bytes buf (header_size + payload_bytes) in
    if sends msg
    then done (record { tx_buf = buf; next_tag = tag; errors = c.errors }, msg, tag)
    else panic

-- The first part of a call, which builds and sends the request; what `serialize` returns is ignored.
unfoldable pub call :
    (ℕ → Option (ℕ → ℕ))
    → (Span → Bool)
    → Client
    → Method
    → List (List ℕ)
    → Outcome (Client × Span × ℕ)
call memalign sends c m args =
    let num_bytes = bytes_for (types_of m.params) args in
    ensure_tx_buf memalign c.tx_buf num_bytes >>= λ buf.
    in_bounds (leb (header_size + num_bytes) buf.size)
    >> (serialize (types_of m.params) args (data_span buf num_bytes) >>= λ r.
        send_request sends (record c { tx_buf = with_data buf r.0 }) m.identifier num_bytes)

-- The checks of a reply's header, in order: each only reports.
unfoldable pub check_reply : Client → Method → ℕ → Header → Client
check_reply c m sent_tag hdr =
    if not (hdr.tag == sent_tag)
    then report c invalid_tag
    else if not (hdr.type_id == m.identifier)
    then report c invalid_type
    else c

-- `clientWriteMarshallMethodReply`: the values that the call returns. `unset` is what the members of
-- a fresh response hold. The header and the payload are read also when the reply is missing or too
-- short.
unfoldable pub receive_reply :
    List (List ℕ) → Client → Method → ℕ → Option Span → Outcome (Client × List (List ℕ))
receive_reply unset c m sent_tag none = wild
receive_reply unset c m sent_tag (some buf) =
    in_bounds (leb header_size buf.size)
    >> (deserialize (types_of m.returns) (payload buf) >>= λ reply.
        let c' : Client = check_reply c m sent_tag (header_of buf) in
        elim reply [
          | none ↦ done (report c' reply_undecoded, unset)
          | some values ↦ done (c', values)
        ])

-- A whole call: a method that is not async waits for the reply, which the stream gives after the
-- request.
unfoldable pub invoke :
    (ℕ → Option (ℕ → ℕ))
    → (Span → Bool)
    → (Span → Option Span)
    → List (List ℕ)
    → Client
    → Method
    → List (List ℕ)
    → Outcome (Client × List (List ℕ))
invoke memalign sends respond unset c m args = call memalign sends c m args >>= λ r.
    if m.async then done (r.0, []) else receive_reply unset r.0 m r.2 (respond r.1)
