-- ===== src/Idlc/Rpc/Server.antt =====
-- The server stub of tools/idlc/src/CodeGenerator+Server.cpp. The stream is a parameter: what it
-- received, and whether it takes a reply. So is the implementation of the methods, a function on a
-- state of its own.
use kush_os_rewrite.Base.{
  ℕ, ◌+◌, Bool, true, false, List, [], ◌∷◌, ◌++◌, if◌then◌else◌, ltb, leb, Option, none, some,
  Outcome, done, in_bounds, ◌>>=◌, ◌>>◌,
}
use kush_os_rewrite.Idlc.Interface.{Method}
use kush_os_rewrite.Idlc.Wire.{Span, bytes_for, serialize, deserialize}
use kush_os_rewrite.Idlc.Rpc.{
  Error, received_too_small, request_undecoded, reply_unserialized, reply_unsent, Header,
  response_flag, header_size, header_of, put_header, payload, data_span, with_data, first_bytes,
  no_buffer, ensure_tx_buf, types_of, find_method,
}

-- `txBuf` with its size, and the errors reported so far
pub record Server : Type 0 where
  pub tx_buf : Span
  pub errors : List Error

-- The constructor
abbrev pub create : Server
create = record { tx_buf = no_buffer; errors = [] }

abbrev pub report : Server → Error → Server
report s e = record s { errors = s.errors ++ e ∷ [] }

-- `_sendReply`: the server, and the message handed to the stream.
unfoldable pub send_reply : (Span → Bool) → Server → Header → ℕ → Server × Span
send_reply accepts s in_hdr payload_bytes =
    let buf : Span =
      put_header s.tx_buf
        (record { type_id = in_hdr.type_id; flags = response_flag; tag = in_hdr.tag }) in
    let s' : Server = record s { tx_buf = buf } in
    let msg : Span = first_bytes buf (header_size + payload_bytes) in
    (if accepts msg then s' else report s' reply_unsent, msg)

-- `serverWriteMarshallMethodReply`: the part of a method's code that replies with the values returned.
unfoldable pub marshall_reply :
    (ℕ → Option (ℕ → ℕ))
    → (Span → Bool)
    → Server
    → Header
    → Method
    → List (List ℕ)
    → Outcome (Server × Option Span)
marshall_reply memalign accepts s hdr m returned =
    let num_bytes = bytes_for (types_of m.returns) returned in
    ensure_tx_buf memalign s.tx_buf num_bytes >>= λ buf.
    in_bounds (leb (header_size + num_bytes) buf.size)
    >> (serialize (types_of m.returns) returned (data_span buf num_bytes) >>= λ r.
        let s' : Server = record s { tx_buf = with_data buf r.0 } in
        if r.1
        then (let sent = send_reply accepts s' hdr num_bytes in done (sent.0, some sent.1))
        else done (report s' reply_unserialized, none))

module _ {ℓ} {S : Type ℓ} (impl : Method → List (List ℕ) → S → S × List (List ℕ)) where
  -- `_marshall` of a method: the server, the implementation's state, and the reply.
  unfoldable pub marshall :
      (ℕ → Option (ℕ → ℕ))
      → (Span → Bool)
      → Server
      → Header
      → Span
      → Method
      → S
      → Outcome (Server × S × Option Span)
  marshall memalign accepts s hdr body m st = deserialize (types_of m.params) body >>= λ request.
      elim request [
        | none ↦ done (report s request_undecoded, st, none)
        | some args ↦
            let called = impl m args st in
            if m.async
            then done (s, called.0, none)
            else (marshall_reply memalign accepts s hdr m called.1 >>= λ r.
                done (r.0, called.0, r.1))
      ]

  -- `runOne`: also whether a message was received.
  unfoldable pub run_one :
      (ℕ → Option (ℕ → ℕ))
      → (Span → Bool)
      → List Method
      → Server
      → S
      → Option Span
      → Outcome (Server × S × Option Span × Bool)
  run_one memalign accepts methods s st none = done (s, st, none, false)
  run_one memalign accepts methods s st (some buf) =
      if ltb buf.size header_size
      then done (report s received_too_small, st, none, false)
      else elim (find_method methods (header_of buf).type_id) [
        | none ↦ done (s, st, none, true)
        | some m ↦ marshall memalign accepts s (header_of buf) (payload buf) m st >>= λ r.
            done (r.0, r.1, r.2, true)
      ]

  -- `run` on the messages that the stream receives, one after the other: the replies, in order.
  unfoldable pub run :
      (ℕ → Option (ℕ → ℕ))
      → (Span → Bool)
      → List Method
      → Server
      → S
      → List Span
      → Outcome (Server × S × List (Option Span))
  run memalign accepts methods s st [] = done (s, st, [])
  run memalign accepts methods s st (msg ∷ received) =
      run_one memalign accepts methods s st (some msg) >>= λ r.
      let rest = run memalign accepts methods r.0 r.1 received in
      if r.3 then (rest >>= λ q. done (q.0, q.1, r.2 ∷ q.2)) else done (r.0, r.1, r.2 ∷ [])
