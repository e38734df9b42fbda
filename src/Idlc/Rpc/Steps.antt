-- ===== src/Idlc/Rpc/Steps.antt =====
-- What each step of a call does with a message that has been built.
use kush_os_rewrite.Base.{
  ℕ, ◌+◌, ◌^◌, ◌<◌, Bool, true, false, arith, List, [], ◌∷◌, u32, le→leb, le→ltb, ==_of_eq,
  ==_of_ne, Option, some, done,
}
use kush_os_rewrite.Base.{◌≡◌, ◌≢◌, refl, ap, sym, ◌∙◌, ◌⊎◌, inl, inr}
use kush_os_rewrite.Idlc.Interface.{Method}
use kush_os_rewrite.Idlc.Wire.{ArgType, Span, bytes_for, deserialize}
use kush_os_rewrite.Idlc.Rpc.{
  Header, request_flag, response_flag, header_size, header_of, put_header, payload, with_data,
  first_bytes, types_of, find_method,
}
use kush_os_rewrite.Idlc.Rpc.Messages.{header_of-put_header, Built}
use kush_os_rewrite.Idlc.Rpc.Server.{Server, send_reply, marshall_reply, marshall, run_one}
use kush_os_rewrite.Idlc.Rpc.Client.{Client, send_request, call, check_reply, receive_reply, invoke}

-- The method is the first of the interface with its identifier.
unfoldable pub HasMethod : Method → List Method → Type 0
HasMethod m [] = ⊥
HasMethod m (x ∷ methods) = (x ≡ m) ⊎ (m.identifier ≢ x.identifier) × HasMethod m methods

find_method-HasMethod :
    (m : Method) (methods : List Method)
    → HasMethod m methods
    → find_method methods m.identifier ≡ some m
unfolding HasMethod find_method
find_method-HasMethod m [] h = absurd h
find_method-HasMethod m (x ∷ methods) (inl e) =
    rw (==_of_eq m.identifier x.identifier (ap (λ (y : Method). y.identifier) (sym e))) (ap some e)
find_method-HasMethod m (x ∷ methods) (inr h) =
    rw (==_of_ne m.identifier x.identifier h.0) (find_method-HasMethod m methods h.1)

-- The stream takes every message.
unfoldable pub Takes : (Span → Bool) → Type 0
Takes accepts = (msg : Span) → accepts msg ≡ true

-- The header of a request, and of the reply to a message.
abbrev pub request_header : Method → ℕ → Header
request_header m tag = record { type_id = m.identifier; flags = request_flag; tag = tag }

abbrev pub reply_header : Header → Header
reply_header h = record { type_id = h.type_id; flags = response_flag; tag = h.tag }

-- The buffer with a message that has been built, and the message.
abbrev pub buffer :
    (memalign : ℕ → Option (ℕ → ℕ)) (tx_buf : Span) (types : List ArgType) (values : List (List ℕ))
    → Built memalign tx_buf types values
    → Header
    → Span
buffer memalign tx_buf types values b h = put_header (with_data b.buf b.body) h

abbrev pub message :
    (memalign : ℕ → Option (ℕ → ℕ)) (tx_buf : Span) (types : List ArgType) (values : List (List ℕ))
    → Built memalign tx_buf types values
    → Header
    → Span
message memalign tx_buf types values b h =
    first_bytes (put_header (with_data b.buf b.body) h) (header_size + bytes_for types values)

module _ (memalign : ℕ → Option (ℕ → ℕ)) (accepts : Span → Bool) (takes : Takes accepts) where
  pub call-Built :
      (c : Client) (m : Method) (args : List (List ℕ))
      (b : Built memalign c.tx_buf (types_of m.params) args)
      → call memalign accepts c m args
        ≡ done (
          record {
            tx_buf =
                buffer memalign c.tx_buf
                  (types_of m.params)
                  args
                  b
                  (request_header m (u32 (c.next_tag + 1)));
            next_tag = u32 (c.next_tag + 1);
            errors = c.errors;
          },
          message memalign c.tx_buf
              (types_of m.params)
              args
              b
              (request_header m (u32 (c.next_tag + 1))),
          u32 (c.next_tag + 1),
        )
  unfolding call send_request Takes
  call-Built c m args b =
      rw
        (
          b.ensured,
          b.room,
          b.written,
          takes (
              message memalign c.tx_buf (types_of m.params) args b
                (request_header m (u32 (c.next_tag + 1)))),
        )
        refl

  marshall_reply-Built :
      (s : Server) (hdr : Header) (m : Method) (returned : List (List ℕ))
      (b : Built memalign s.tx_buf (types_of m.returns) returned)
      → marshall_reply memalign accepts s hdr m returned
        ≡ done (
          record {
            tx_buf = buffer memalign s.tx_buf (types_of m.returns) returned b (reply_header hdr);
            errors = s.errors;
          },
          some (message memalign s.tx_buf (types_of m.returns) returned b (reply_header hdr)),
        )
  unfolding marshall_reply send_reply Takes
  marshall_reply-Built s hdr m returned b =
      rw
        (
          b.ensured,
          b.room,
          b.written,
          takes (message memalign s.tx_buf (types_of m.returns) returned b (reply_header hdr)),
        )
        refl

module _ {ℓ} {S : Type ℓ} (impl : Method → List (List ℕ) → S → S × List (List ℕ))
    (memalign : ℕ → Option (ℕ → ℕ)) (accepts : Span → Bool) (takes : Takes accepts) where
  marshall-Built :
      (s : Server) (hdr : Header) (body : Span) (st : S) (m : Method) (args : List (List ℕ))
      (b : Built memalign s.tx_buf (types_of m.returns) (impl m args st).1)
      → m.async ≡ false
      → deserialize (types_of m.params) body ≡ done (some args)
      → marshall impl memalign accepts s hdr body m st
        ≡ done (
          record {
            tx_buf =
                buffer memalign s.tx_buf
                  (types_of m.returns)
                  (impl m args st).1
                  b
                  (reply_header hdr);
            errors = s.errors;
          },
          (impl m args st).0,
          some (
              message memalign s.tx_buf
                (types_of m.returns)
                (impl m args st).1
                b
                (reply_header hdr)),
        )
  unfolding marshall
  marshall-Built s hdr body st m args b sync decoded =
      rw (decoded, marshall_reply-Built memalign accepts takes s hdr m (impl m args st).1 b, sync)
        refl

  pub run_one-Built :
      (methods : List Method) (s : Server) (st : S) (m : Method) (args : List (List ℕ))
      (tx_buf : Span) (tag : ℕ) (b : Built memalign tx_buf (types_of m.params) args)
      (b' : Built memalign s.tx_buf (types_of m.returns) (impl m args st).1)
      → HasMethod m methods
      → m.async ≡ false
      → m.identifier < 2 ^ 64
      → tag < 2 ^ 32
      → run_one impl memalign accepts methods s st
          (some (message memalign tx_buf (types_of m.params) args b (request_header m tag)))
        ≡ done (
          record {
            tx_buf =
                buffer memalign s.tx_buf
                  (types_of m.returns)
                  (impl m args st).1
                  b'
                  (reply_header (request_header m tag));
            errors = s.errors;
          },
          (impl m args st).0,
          some (
              message memalign s.tx_buf
                (types_of m.returns)
                (impl m args st).1
                b'
                (reply_header (request_header m tag))),
          true,
        )
  unfolding run_one
  run_one-Built methods s st m args tx_buf tag b b' has sync small tag_small =
      let h : Header = request_header m tag in
      let msg : Span = message memalign tx_buf (types_of m.params) args b h in
      let same : header_of msg ≡ h =
        header_of-put_header (with_data b.buf b.body) h msg.size
          (record { type_fits = small; flags_fit = omega arith; tag_fits = tag_small }) in
      rw
        (
          le→ltb msg.size header_size (omega arith),
          ap (λ (x : Header). find_method methods x.type_id) same
              ∙ find_method-HasMethod m methods has,
          ap (λ (x : Header). marshall impl memalign accepts s x (payload msg) m st) same
              ∙ marshall-Built s h (payload msg) st m args b' sync (b.reads h),
        )
        refl

  pub receive_reply-Built :
      (unset : List (List ℕ)) (c : Client) (m : Method) (tag : ℕ) (tx_buf : Span)
      (values : List (List ℕ)) (b : Built memalign tx_buf (types_of m.returns) values)
      → m.identifier < 2 ^ 64
      → tag < 2 ^ 32
      → receive_reply unset c m tag (
          some (
            message memalign tx_buf
              (types_of m.returns)
              values
              b
              (reply_header (request_header m tag))))
        ≡ done (c, values)
  unfolding receive_reply check_reply
  receive_reply-Built unset c m tag tx_buf values b small tag_small =
      let h : Header = reply_header (request_header m tag) in
      let msg : Span = message memalign tx_buf (types_of m.returns) values b h in
      let same : header_of msg ≡ h =
        header_of-put_header (with_data b.buf b.body) h msg.size
          (record { type_fits = small; flags_fit = omega arith; tag_fits = tag_small }) in
      rw
        (
          le→leb header_size msg.size (omega arith),
          b.reads h,
          same,
          ==_of_eq tag tag refl,
          ==_of_eq m.identifier m.identifier refl,
        )
        refl

pub invoke-receive_reply :
    (memalign : ℕ → Option (ℕ → ℕ)) (sends : Span → Bool) (unset : List (List ℕ)) (c c' : Client)
    (m : Method) (args : List (List ℕ)) (request : Span) (tag : ℕ) (reply : Span)
    (values : List (List ℕ))
    → m.async ≡ false
    → call memalign sends c m args ≡ done (c', request, tag)
    → receive_reply unset c' m tag (some reply) ≡ done (c', values)
    → invoke memalign sends (λ msg. some reply) unset c m args ≡ done (c', values)
unfolding invoke
invoke-receive_reply memalign sends unset c c' m args request tag reply values sync called
      received =
    rw (called, received, sync) refl
