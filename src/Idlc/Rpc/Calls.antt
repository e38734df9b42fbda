-- ===== src/Idlc/Rpc/Calls.antt =====
-- A call through the client's and the server's stubs.
use kush_os_rewrite.Base.{ℕ, ◌+◌, ◌^◌, ◌<◌, Bool, true, false, arith, List, u32, Option, some, done}
use kush_os_rewrite.Base.{◌≡◌, refl}
use kush_os_rewrite.Idlc.Interface.{Method}
use kush_os_rewrite.Idlc.Wire.{Span, bytes_for}
use kush_os_rewrite.Idlc.Wire.RoundTrip.{AreTyped}
use kush_os_rewrite.Idlc.Rpc.{types_of}
use kush_os_rewrite.Idlc.Rpc.Messages.{Gives, Built, message-Built}
use kush_os_rewrite.Idlc.Rpc.Server.{Server, run_one}
use kush_os_rewrite.Idlc.Rpc.Client.{Client, call, invoke}
use kush_os_rewrite.Idlc.Rpc.Steps.{
  HasMethod, Takes, request_header, reply_header, buffer, message, call-Built, run_one-Built,
  receive_reply-Built, invoke-receive_reply,
}

-- A call and its answer: the client's message, what the server makes of it, and what the client
-- returns for the server's reply.
pub record Answered {ℓ} {S : Type ℓ} (impl : Method → List (List ℕ) → S → S × List (List ℕ))
    (memalign : ℕ → Option (ℕ → ℕ)) (accepts : Span → Bool) (unset : List (List ℕ))
    (methods : List Method) (c : Client) (s : Server) (st : S) (m : Method) (args : List (List ℕ))
    : Type ℓ where
  pub client' : Client
  pub request : Span
  pub tag : ℕ
  pub called : call memalign accepts c m args ≡ done (client', request, tag)
  pub server' : Server
  pub reply : Span
  pub ran :
      run_one impl memalign accepts methods s st (some request)
      ≡ done (server', (impl m args st).0, some reply, true)
  pub returned :
      invoke memalign accepts (λ msg. some reply) unset c m args
      ≡ done (client', (impl m args st).1)
  pub quiet : (client'.errors ≡ c.errors) × (server'.errors ≡ s.errors)

-- A call of a method that is not async and is the first of the interface with its identifier, a 64-bit
-- number; whose arguments and results have their types' sizes and make messages below 2 ^ 32 bytes;
-- with memory for the buffers, and streams that take and deliver every message: the server calls the
-- implementation once, on the same arguments, and sends a reply, and the client returns what the
-- implementation returned. Neither side reports an error.
pub call-Answered {ℓ} :
    {S : Type ℓ} (impl : Method → List (List ℕ) → S → S × List (List ℕ))
    (memalign : ℕ → Option (ℕ → ℕ)) (accepts : Span → Bool) (unset : List (List ℕ))
    (methods : List Method) (c : Client) (s : Server) (st : S) (m : Method) (args : List (List ℕ))
    → Gives memalign
    → Takes accepts
    → HasMethod m methods
    → m.async ≡ false
    → m.identifier < 2 ^ 64
    → AreTyped (types_of m.params) args
    → bytes_for (types_of m.params) args < 2 ^ 32
    → AreTyped (types_of m.returns) (impl m args st).1
    → bytes_for (types_of m.returns) (impl m args st).1 < 2 ^ 32
    → Answered impl memalign accepts unset methods c s st m args
call-Answered impl memalign accepts unset methods c s st m args gives takes has sync small typed
      fits typed' fits' =
    let tag : ℕ = u32 (c.next_tag + 1) in
    let tag_small : tag < 2 ^ 32 = omega arith in
    let b : Built memalign c.tx_buf (types_of m.params) args =
      message-Built memalign c.tx_buf (types_of m.params) args gives typed fits in
    let b' : Built memalign s.tx_buf (types_of m.returns) (impl m args st).1 =
      message-Built memalign s.tx_buf (types_of m.returns) (impl m args st).1 gives typed' fits' in
    let c' : Client = record {
      tx_buf = buffer memalign c.tx_buf (types_of m.params) args b (request_header m tag);
      next_tag = tag;
      errors = c.errors;
    } in
    record {
      client' = c';
      request = message memalign c.tx_buf (types_of m.params) args b (request_header m tag);
      tag = tag;
      called = call-Built memalign accepts takes c m args b;
      server' = record {
        tx_buf =
            buffer memalign s.tx_buf (types_of m.returns) (impl m args st).1 b'
              (reply_header (request_header m tag));
        errors = s.errors;
      };
      reply =
          message memalign s.tx_buf (types_of m.returns) (impl m args st).1 b'
            (reply_header (request_header m tag));
      ran =
          run_one-Built impl memalign accepts takes methods s st m args c.tx_buf tag b b' has sync
            small tag_small;
      returned =
          invoke-receive_reply memalign accepts unset c c' m args
            (message memalign c.tx_buf (types_of m.params) args b (request_header m tag)) tag
            (message memalign s.tx_buf (types_of m.returns) (impl m args st).1 b'
              (reply_header (request_header m tag)))
            (impl m args st).1 sync (call-Built memalign accepts takes c m args b)
            (receive_reply-Built impl memalign accepts takes unset c' m tag s.tx_buf
              (impl m args st).1 b' small tag_small);
      quiet = (refl, refl);
    }
