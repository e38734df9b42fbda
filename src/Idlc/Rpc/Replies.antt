-- ===== src/Idlc/Rpc/Replies.antt =====
-- Which reply the server's stub sends to a message, whatever the message holds.
use kush_os_rewrite.Base.{
  ℕ, ◌+◌, ◌<◌, Bool, true, false, arith, List, ltb, Option, none, some, Outcome, done, panic, wild,
  stuck, ◌>>=◌, in_bounds, leb, if◌then◌else◌,
}
use kush_os_rewrite.Base.{◌≡◌, refl}
use mathlib.Core.Path.{subst}
use kush_os_rewrite.Idlc.Interface.{Method}
use kush_os_rewrite.Idlc.Wire.{Span, bytes_for, serialize, deserialize}
use kush_os_rewrite.Idlc.Rpc.{
  Header, response_flag, header_size, header_of, payload, data_span, with_data, types_of,
  find_method, ensure_tx_buf,
}
use kush_os_rewrite.Idlc.Rpc.Messages.{Fits, header_of-put_header}
use kush_os_rewrite.Idlc.Rpc.Server.{Server, send_reply, marshall_reply, marshall, run_one}

-- Every element of the span is a byte.
unfoldable pub AreBytes : Span → Type 0
AreBytes s = (p : ℕ) → s.bytes p < 256

header_of-Fits : (s : Span) → AreBytes s → Fits (header_of s)
unfolding header_of AreBytes
header_of-Fits s h = record {
  type_fits =
      omega (arith, h 0, h (0 + 1), h (0 + 2), h (0 + 3), h 4, h (4 + 1), h (4 + 2), h (4 + 3));
  flags_fit = omega (arith, h 8, h (8 + 1), h (8 + 2), h (8 + 3));
  tag_fits = omega (arith, h 12, h (12 + 1), h (12 + 2), h (12 + 3));
}

-- What holds of every result that a call is done with.
unfoldable AllDone {ℓ κ} : {A : Type ℓ} → (A → Type κ) → Outcome A → Type κ
AllDone P (done a) = P a
AllDone P panic = Unit
AllDone P wild = Unit
AllDone P stuck = Unit

>>=-AllDone {ℓ κ μ} :
    {A : Type ℓ} {B : Type κ} (P : B → Type μ) (m : Outcome A) (f : A → Outcome B)
    → ((a : A) → AllDone P (f a))
    → AllDone P (m >>= f)
unfolding AllDone
>>=-AllDone P (done a) f h = h a
>>=-AllDone P panic f h = tt
>>=-AllDone P wild f h = tt
>>=-AllDone P stuck f h = tt

if-AllDone {ℓ κ} :
    {A : Type ℓ} (P : A → Type κ) (b : Bool) (t e : Outcome A)
    → (b ≡ true → AllDone P t)
    → (b ≡ false → AllDone P e)
    → AllDone P (if b then t else e)
if-AllDone P true t e ht he = ht refl
if-AllDone P false t e ht he = he refl

then-AllDone {ℓ κ μ ν} :
    {A : Type ℓ} {B : Type κ} (Q : A → Type μ) (P : B → Type ν) (m : Outcome A) (f : A → Outcome B)
    → AllDone Q m
    → ((a : A) → Q a → AllDone P (f a))
    → AllDone P (m >>= f)
unfolding AllDone
then-AllDone Q P (done a) f q h = h a q
then-AllDone Q P panic f q h = tt
then-AllDone Q P wild f q h = tt
then-AllDone Q P stuck f q h = tt

elim-AllDone {ℓ κ μ} :
    {A : Type ℓ} {B : Type κ} (P : B → Type μ) (o : Option A) (n : Outcome B) (f : A → Outcome B)
    → (o ≡ none → AllDone P n)
    → ((a : A) → o ≡ some a → AllDone P (f a))
    → AllDone P (elim o [ none ↦ n | some a ↦ f a ])
elim-AllDone P none n f hn hs = hn refl
elim-AllDone P (some a) n f hn hs = hs a refl

AllDone-eq-done {ℓ κ} :
    {A : Type ℓ} (P : A → Type κ) {m : Outcome A} {a : A} → AllDone P m → m ≡ done a → P a
unfolding AllDone
AllDone-eq-done P h e = subst (AllDone P) e h

-- The reply, where there is one, carries the identifier and the tag of the message.
unfoldable pub IsReplyTo : Header → Option Span → Type 0
IsReplyTo hdr none = Unit
IsReplyTo hdr (some reply) =
    header_of reply ≡ record { type_id = hdr.type_id; flags = response_flag; tag = hdr.tag }

send_reply-IsReplyTo :
    (accepts : Span → Bool) (s : Server) (hdr : Header) (n : ℕ)
    → Fits hdr
    → IsReplyTo hdr (some (send_reply accepts s hdr n).1)
unfolding IsReplyTo send_reply
send_reply-IsReplyTo accepts s hdr n fits =
    header_of-put_header s.tx_buf
      (record { type_id = hdr.type_id; flags = response_flag; tag = hdr.tag }) (header_size + n)
      (record { type_fits = fits.type_fits; flags_fit = omega arith; tag_fits = fits.tag_fits })

marshall_reply-IsReplyTo :
    (memalign : ℕ → Option (ℕ → ℕ)) (accepts : Span → Bool) (s : Server) (hdr : Header) (m : Method)
    (returned : List (List ℕ))
    → Fits hdr
    → AllDone (λ r. IsReplyTo hdr r.1) (marshall_reply memalign accepts s hdr m returned)
unfolding marshall_reply AllDone IsReplyTo
marshall_reply-IsReplyTo memalign accepts s hdr m returned fits =
    let n : ℕ = bytes_for (types_of m.returns) returned in
    let P : Server × Option Span → Type 0 = λ r. IsReplyTo hdr r.1 in
    >>=-AllDone P (ensure_tx_buf memalign s.tx_buf n) _ λ buf.
      >>=-AllDone P (in_bounds (leb (header_size + n) buf.size)) _ λ u.
        >>=-AllDone P (serialize (types_of m.returns) returned (data_span buf n)) _ λ w.
          if-AllDone P w.1 _ _
            (λ e. send_reply-IsReplyTo accepts (record s { tx_buf = with_data buf w.0 }) hdr n fits)
            (λ e. tt)

-- A reply is sent only by a method that the interface has and that is not async.
unfoldable pub IsExpected : List Method → Header → Option Span → Type 0
IsExpected methods hdr none = Unit
IsExpected methods hdr (some reply) =
    (m : Method) × (find_method methods hdr.type_id ≡ some m) × (m.async ≡ false)

is_expected :
    (methods : List Method) (hdr : Header) (m : Method) (reply : Option Span)
    → find_method methods hdr.type_id ≡ some m
    → m.async ≡ false
    → IsExpected methods hdr reply
unfolding IsExpected
is_expected methods hdr m none found sync = tt
is_expected methods hdr m (some reply) found sync = (m, found, sync)

module _ {ℓ} {S : Type ℓ} (impl : Method → List (List ℕ) → S → S × List (List ℕ))
    (memalign : ℕ → Option (ℕ → ℕ)) (accepts : Span → Bool) (methods : List Method) where
  marshall-IsReplyTo :
      (s : Server) (hdr : Header) (body : Span) (m : Method) (st : S)
      → Fits hdr
      → find_method methods hdr.type_id ≡ some m
      → AllDone
          (λ r. IsReplyTo hdr r.2 × IsExpected methods hdr r.2)
          (marshall impl memalign accepts s hdr body m st)
  unfolding marshall AllDone IsReplyTo IsExpected
  marshall-IsReplyTo s hdr body m st fits found =
      let P : Server × S × Option Span → Type 0 =
        λ r. IsReplyTo hdr r.2 × IsExpected methods hdr r.2 in
      let Q : Server × Option Span → Type 0 = λ r. IsReplyTo hdr r.1 in
      >>=-AllDone P (deserialize (types_of m.params) body) _ λ d.
        elim-AllDone P d _ _ (λ e. (tt, tt))
          λ args k.
            if-AllDone P m.async _ _ (λ e. (tt, tt))
              λ e.
                then-AllDone Q P (marshall_reply memalign accepts s hdr m (impl m args st).1) _
                  (marshall_reply-IsReplyTo memalign accepts s hdr m (impl m args st).1 fits)
                  λ r q. (q, is_expected methods hdr m r.1 found e)

  run_one_all :
      (s : Server) (st : S) (msg : Span)
      → AreBytes msg
      → AllDone
          (λ r. IsReplyTo (header_of msg) r.2 × IsExpected methods (header_of msg) r.2)
          (run_one impl memalign accepts methods s st (some msg))
  unfolding run_one AllDone IsReplyTo IsExpected
  run_one_all s st msg bytes =
      let P : Server × S × Option Span × Bool → Type 0 =
        λ r. IsReplyTo (header_of msg) r.2 × IsExpected methods (header_of msg) r.2 in
      let Q : Server × S × Option Span → Type 0 =
        λ r. IsReplyTo (header_of msg) r.2 × IsExpected methods (header_of msg) r.2 in
      if-AllDone P (ltb msg.size header_size) _ _ (λ e. (tt, tt))
        λ e.
          elim-AllDone P (find_method methods (header_of msg).type_id) _ _ (λ k. (tt, tt))
            λ m found.
              then-AllDone Q P (marshall impl memalign accepts s (header_of msg) (payload msg) m st)
                _
                (marshall-IsReplyTo s (header_of msg) (payload msg) m st (header_of-Fits msg bytes)
                  found)
                λ r q. q

-- Whatever message of bytes `runOne` receives, and whether or not it can be decoded: a reply that it sends has
-- the message's identifier and tag and the flag of a response, and answers a method of the interface
-- that is not async.
pub run_one-IsReplyTo {ℓ} :
    {S : Type ℓ} (impl : Method → List (List ℕ) → S → S × List (List ℕ))
    (memalign : ℕ → Option (ℕ → ℕ)) (accepts : Span → Bool) (methods : List Method) (s s' : Server)
    (st st' : S) (msg : Span) (reply : Option Span) (more : Bool)
    → AreBytes msg
    → run_one impl memalign accepts methods s st (some msg) ≡ done (s', st', reply, more)
    → IsReplyTo (header_of msg) reply × IsExpected methods (header_of msg) reply
run_one-IsReplyTo {S} impl memalign accepts methods s s' st st' msg reply more bytes run =
    let P : Server × S × Option Span × Bool → Type 0 =
      λ r. IsReplyTo (header_of msg) r.2 × IsExpected methods (header_of msg) r.2 in
    AllDone-eq-done P (run_one_all impl memalign accepts methods s st msg bytes) run
