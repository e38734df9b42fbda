-- ===== src/Idlc/Rpc/Tests.antt =====
-- An interface with a method that adds a number to a counter and returns a text and the old count.
use kush_os_rewrite.Base.{
  ℕ, zero, suc, ◌<◌, ◌+◌, get_or, ltb, ◌&&◌, Outcome, panic, wild, stuck, ◌%◌, Bool, true, false,
  List, [], ◌∷◌, ◌≡◌, refl, inl, inr, arith, done, none, some, Option,
}
use kush_os_rewrite.Idlc.Interface.{Argument, Method, uint32, string}
use kush_os_rewrite.Idlc.Wire.{
  Span, scalar_bytes, blob_bytes, serialize, deserialize, serialize_from, deserialize_from,
  serialize_arg, deserialize_arg, element_sizes, offsets_from, get_bytes,
}
use kush_os_rewrite.Idlc.Wire.RoundTrip.{AreTyped}
use kush_os_rewrite.Idlc.Rpc.{header_of, types_of, find_method, ensure_tx_buf}
use kush_os_rewrite.Idlc.Rpc.Messages.{Gives}
use kush_os_rewrite.Idlc.Rpc.Server
use kush_os_rewrite.Idlc.Rpc.Server.{Server, run_one, marshall, marshall_reply, send_reply}
use kush_os_rewrite.Idlc.Rpc.Client
use kush_os_rewrite.Idlc.Rpc.Client.{Client}
use kush_os_rewrite.Idlc.Rpc.Replies.{AreBytes, IsReplyTo, IsExpected, run_one-IsReplyTo}
use kush_os_rewrite.Idlc.Rpc.Steps.{HasMethod, Takes}
use kush_os_rewrite.Idlc.Rpc.Calls.{Answered, call-Answered}

abbrev number : Argument
number = record { name = 0x6e ∷ []; type_name = []; found = some uint32 }

abbrev text : Argument
text = record { name = 0x74 ∷ []; type_name = []; found = some string }

abbrev reset : Method
reset = record { name = 0x72 ∷ []; async = true; identifier = 7; params = []; returns = [] }

abbrev add : Method
add = record {
  name = 0x61 ∷ [];
  async = false;
  identifier = 0x1122334455667788;
  params = number ∷ [];
  returns = text ∷ number ∷ [];
}

abbrev methods : List Method
methods = reset ∷ add ∷ []

-- The count is a byte; the text returned is `hi`.
abbrev step : List (List ℕ) → ℕ → ℕ × List (List ℕ)
step ((b ∷ bs) ∷ args) count =
    ((count + b) % 256, (0x68 ∷ 0x69 ∷ []) ∷ (count ∷ 0 ∷ 0 ∷ 0 ∷ []) ∷ [])
step _ count = (0, [])

abbrev impl : Method → List (List ℕ) → ℕ → ℕ × List (List ℕ)
impl m args count = step args count

abbrev memalign : ℕ → Option (ℕ → ℕ)
memalign len = some λ p. 0xcc

abbrev accepts : Span → Bool
accepts msg = true

-- A client whose next tag wraps around.
abbrev client : Client
client = record Client.create { next_tag = 0xffffffff }

abbrev server : Server
server = Server.create

memalign-Gives : Gives memalign
unfolding Gives
memalign-Gives = λ len. ((λ p. 0xcc), refl)

accepts-Takes : Takes accepts
unfolding Takes
accepts-Takes = λ msg. refl

add-HasMethod : HasMethod add methods
unfolding HasMethod
add-HasMethod = inr (λ e. absurd (omega (arith, e)), inl refl)

call-Answered_example :
    Answered impl memalign accepts [] methods client server 41 add ((1 ∷ 0 ∷ 0 ∷ 0 ∷ []) ∷ [])
unfolding types_of AreTyped scalar_bytes blob_bytes
call-Answered_example =
    call-Answered impl memalign accepts [] methods client server 41 add ((1 ∷ 0 ∷ 0 ∷ 0 ∷ []) ∷ [])
      memalign-Gives accepts-Takes add-HasMethod refl (omega arith) (inr refl, tt) (omega arith)
      (inl refl, (inr refl, tt)) (omega arith)

-- A request to add 3, of tag 9.
abbrev request_bytes : List ℕ
request_bytes =
    0x88 ∷ 0x77 ∷ 0x66 ∷ 0x55 ∷ 0x44 ∷ 0x33 ∷ 0x22 ∷ 0x11 ∷ 1 ∷ 0 ∷ 0 ∷ 0 ∷ 9 ∷ 0 ∷ 0 ∷ 0 ∷ 3 ∷ 0
    ∷ 0 ∷ 0 ∷ 0 ∷ 0 ∷ 0 ∷ 0 ∷ []

abbrev request : Span
request = record { size = 24; bytes = λ p. get_or request_bytes p 0 }

abbrev are_bytes : List ℕ → Bool
are_bytes [] = true
are_bytes (b ∷ bs) = ltb b 256 && are_bytes bs

get_or-are_bytes : (bs : List ℕ) (p : ℕ) → are_bytes bs ≡ true → get_or bs p 0 < 256
get_or-are_bytes [] p h = omega arith
get_or-are_bytes (b ∷ bs) zero h = ground arith
get_or-are_bytes (b ∷ bs) (suc p) h = get_or-are_bytes bs p (ground arith)

request-AreBytes : AreBytes request
unfolding AreBytes
request-AreBytes = λ p. get_or-are_bytes request_bytes p refl

abbrev answer : Outcome (Server × ℕ × Option Span × Bool) → Server × ℕ × Option Span × Bool
answer o = elim o [ done r ↦ r | panic ↦ nothing | wild ↦ nothing | stuck ↦ nothing ]
  where
    nothing : Server × ℕ × Option Span × Bool
    nothing = (server, 0, none, false)

abbrev result : Server × ℕ × Option Span × Bool
result = answer (run_one impl memalign accepts methods server 41 (some request))

request_run :
    run_one impl memalign accepts methods server 41 (some request)
    ≡ done (result.0, result.1, result.2, result.3)
unfolding run_one find_method header_of marshall marshall_reply send_reply ensure_tx_buf types_of
    serialize deserialize serialize_from deserialize_from serialize_arg deserialize_arg
    element_sizes offsets_from scalar_bytes blob_bytes get_bytes
request_run = refl

run_one-IsReplyTo_example :
    IsReplyTo (header_of request) result.2 × IsExpected methods (header_of request) result.2
run_one-IsReplyTo_example =
    run_one-IsReplyTo impl memalign accepts methods server result.0 41 result.1 request result.2
      result.3 request-AreBytes request_run
