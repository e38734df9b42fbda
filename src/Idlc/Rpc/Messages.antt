-- ===== src/Idlc/Rpc/Messages.antt =====
-- A message that a stub has built in its transmit buffer, and what the other side reads from it.
use kush_os_rewrite.Base.{
  ℕ, zero, suc, ◌+◌, ◌*◌, ◌-◌, ◌%◌, ◌/◌, ◌^◌, ◌≤◌, ◌<◌, true, arith, List, replicate, get_or, u64,
  le→leb, lt→ltb, le→ltb, ltb, ltb→le, ltb→lt, leb, some, done, Bool-cases,
}
use kush_os_rewrite.Base.{◌≡◌, Option, refl, ap, sym, ◌∙◌, inl, inr}
use kush_os_rewrite.Idlc.Wire.{
  ArgType, Span, put_bytes, le32, of_le32, bytes_for, serialize, deserialize,
}
use kush_os_rewrite.Idlc.Wire.Spans.{put_bytes-inside, put_bytes-outside, of_le32_lem}
use kush_os_rewrite.Idlc.Wire.RoundTrip.{AreTyped, serialize-deserialize}
use kush_os_rewrite.Idlc.Rpc.{
  Header, header_size, header_bytes, header_of, put_header, payload, data_span, with_data,
  first_bytes, ensure_tx_buf,
}

-- The fields of a header fit their widths.
pub record Fits (h : Header) : Type 0 where
  pub type_fits : h.type_id < 2 ^ 64
  pub flags_fit : h.flags < 2 ^ 32
  pub tag_fits : h.tag < 2 ^ 32

four {ℓ} : (P : ℕ → Type ℓ) → P 0 → P 1 → P 2 → P 3 → (i : ℕ) → i < 4 → P i
four P a b c d zero h = a
four P a b c d (suc zero) h = b
four P a b c d (suc (suc zero)) h = c
four P a b c d (suc (suc (suc zero))) h = d
four P a b c d (suc (suc (suc (suc i)))) h = absurd (omega (arith, h))

header_ext :
    (h : Header) (t f g : ℕ)
    → t ≡ h.type_id
    → f ≡ h.flags
    → g ≡ h.tag
    → (record { type_id = t; flags = f; tag = g }) ≡ h
header_ext h t f g et ef eg = rw (et, ef, eg)

-- The word of a header at an offset.
header_word :
    (mem : ℕ → ℕ) (h : Header) (off n : ℕ)
    → off + 4 ≤ header_size
    → n < 2 ^ 32
    → ((i : ℕ) → i < 4 → get_or (header_bytes h) (off + i) 0 ≡ get_or (le32 n) i 0)
    → of_le32 (put_bytes mem 0 (header_bytes h)) off ≡ n
header_word mem h off n inside small same =
    of_le32_lem (put_bytes mem 0 (header_bytes h)) off n small (λ i k.
      ap (put_bytes mem 0 (header_bytes h)) (at_zero (off + i))
      ∙ put_bytes-inside mem 0 (header_bytes h) (off + i) (omega (arith, inside, k))
      ∙ same i k)
  where
    at_zero : (k : ℕ) → k ≡ 0 + k
    at_zero k = omega arith

-- The header that is stored at the start of a buffer is the one that is read there.
pub header_of-put_header :
    (s : Span) (h : Header) (n : ℕ) → Fits h → header_of (first_bytes (put_header s h) n) ≡ h
unfolding header_of put_header
header_of-put_header s h n fits =
    let mem : ℕ → ℕ = put_bytes s.bytes 0 (replicate header_size 0) in
    let low : ℕ = h.type_id % 2 ^ 32 in
    let high : ℕ = h.type_id / 2 ^ 32 in
    let at0 : of_le32 (put_bytes mem 0 (header_bytes h)) 0 ≡ low =
      header_word mem h 0 low (omega arith) (omega arith) (
        four (λ i. get_or (header_bytes h) (0 + i) 0 ≡ get_or (le32 low) i 0) refl refl refl
          refl) in
    let at4 : of_le32 (put_bytes mem 0 (header_bytes h)) 4 ≡ high =
      header_word mem h 4 high (omega arith) (omega (arith, fits.type_fits)) (
        four (λ i. get_or (header_bytes h) (4 + i) 0 ≡ get_or (le32 high) i 0) refl refl refl
          refl) in
    let at8 : of_le32 (put_bytes mem 0 (header_bytes h)) 8 ≡ h.flags =
      header_word mem h 8 h.flags (omega arith) fits.flags_fit (
        four (λ i. get_or (header_bytes h) (8 + i) 0 ≡ get_or (le32 h.flags) i 0) refl refl refl
          refl) in
    let at12 : of_le32 (put_bytes mem 0 (header_bytes h)) 12 ≡ h.tag =
      header_word mem h 12 h.tag (omega arith) fits.tag_fits (
        four (λ i. get_or (header_bytes h) (12 + i) 0 ≡ get_or (le32 h.tag) i 0) refl refl refl
          refl) in
    header_ext h
      (of_le32 (put_bytes mem 0 (header_bytes h)) 0
        + of_le32 (put_bytes mem 0 (header_bytes h)) 4 * 2 ^ 32)
      (of_le32 (put_bytes mem 0 (header_bytes h)) 8) (of_le32 (put_bytes mem 0 (header_bytes h)) 12)
      (omega (arith, at0, at4)) at8 at12

-- A header leaves the bytes behind it.
behind-put_header :
    (s : Span) (h : Header) (p : ℕ)
    → (put_header s h).bytes (header_size + p) ≡ s.bytes (header_size + p)
unfolding put_header
behind-put_header s h p =
    put_bytes-outside (put_bytes s.bytes 0 (replicate header_size 0)) 0 (header_bytes h)
      (header_size + p) (inr (omega arith))
    ∙ put_bytes-outside s.bytes 0 (replicate header_size 0) (header_size + p) (inr (omega arith))

-- The bytes of a buffer behind its header, where a span has been written there.
with_data_lem :
    (buf d : Span) (p : ℕ)
    → (d.size ≤ p → d.bytes p ≡ buf.bytes (header_size + p))
    → (with_data buf d).bytes (header_size + p) ≡ d.bytes p
unfolding with_data
with_data_lem buf d p kept = elim (Bool-cases (ltb p d.size)) [
  | inl h ↦
      rw
        (
          le→leb header_size (header_size + p) (omega arith),
          lt→ltb (header_size + p) (header_size + d.size) (omega (arith, ltb→lt p d.size h)),
        )
        (ap d.bytes (omega arith))
  | inr h ↦
      rw
        (
          le→leb header_size (header_size + p) (omega arith),
          le→ltb (header_size + p) (header_size + d.size) (omega (arith, ltb→le p d.size h)),
        )
        (sym (kept (ltb→le p d.size h)))
]

span_ext :
    (s : Span) (n : ℕ) (f : ℕ → ℕ) → n ≡ s.size → f ≡ s.bytes → (record { size = n; bytes = f }) ≡ s
span_ext s n f en ef = rw (en, ef)

-- What is read as the payload of a message is the span that was written behind its header.
payload_lem :
    (buf d : Span) (h : Header) (n : ℕ)
    → d.size ≡ n
    → ((p : ℕ) → n ≤ p → d.bytes p ≡ buf.bytes (header_size + p))
    → payload (first_bytes (put_header (with_data buf d) h) (header_size + n)) ≡ d
payload_lem buf d h n size kept =
    span_ext d (header_size + n - header_size)
      (λ p. (put_header (with_data buf d) h).bytes (header_size + p)) (omega (arith, size))
      (λ i p. same p i)
  where
    same : (p : ℕ) → (put_header (with_data buf d) h).bytes (header_size + p) ≡ d.bytes p
    same p =
        behind-put_header (with_data buf d) h p
        ∙ with_data_lem buf d p (λ k. kept p (omega (arith, size, k)))

-- `posix_memalign` gives a buffer of any size.
unfoldable pub Gives : (ℕ → Option (ℕ → ℕ)) → Type 0
Gives memalign = (len : ℕ) → (bytes : ℕ → ℕ) × (memalign len ≡ some bytes)

-- The transmit buffer has room for a message.
pub ensure_tx_buf-Gives :
    (memalign : ℕ → Option (ℕ → ℕ)) (buf : Span) (n : ℕ)
    → Gives memalign
    → n < 2 ^ 32
    → (buf' : Span) × (ensure_tx_buf memalign buf n ≡ done buf') × (header_size + n ≤ buf'.size)
unfolding ensure_tx_buf Gives
ensure_tx_buf-Gives memalign buf n gives small =
    let len : ℕ = u64 (header_size + n + 16) in
    elim (Bool-cases (ltb buf.size len)) [
      | inl short ↦ (
        record { size = len; bytes = (gives len).0 },
        rw (short, (gives len).1) refl,
        omega (arith, small),
      )
      | inr long ↦ (buf, rw long refl, omega (arith, small, ltb→le buf.size len long))
    ]

-- A message with typed values that is built in a transmit buffer: the buffer has room, `serialize`
-- succeeds, and behind whatever header the values are read back.
pub record Built (memalign : ℕ → Option (ℕ → ℕ)) (tx_buf : Span) (types : List ArgType)
    (values : List (List ℕ)) : Type 0 where
  pub buf : Span
  pub body : Span
  pub ensured : ensure_tx_buf memalign tx_buf (bytes_for types values) ≡ done buf
  pub room : leb (header_size + bytes_for types values) buf.size ≡ true
  pub written : serialize types values (data_span buf (bytes_for types values)) ≡ done (body, true)
  pub reads :
      (h : Header)
      → deserialize types (
          payload (
            first_bytes (put_header (with_data buf body) h) (header_size + bytes_for types values)))
        ≡ done (some values)

pub message-Built :
    (memalign : ℕ → Option (ℕ → ℕ)) (tx_buf : Span) (types : List ArgType) (values : List (List ℕ))
    → Gives memalign
    → AreTyped types values
    → bytes_for types values < 2 ^ 32
    → Built memalign tx_buf types values
message-Built memalign tx_buf types values gives typed small =
    let n : ℕ = bytes_for types values in
    let e = ensure_tx_buf-Gives memalign tx_buf n gives small in
    let s = serialize-deserialize types values (data_span e.0 n) typed (omega arith) small in
    record {
      buf = e.0;
      body = s.0;
      ensured = e.1;
      room = le→leb (header_size + n) e.0.size e.2;
      written = s.1;
      reads = λ h. ap (deserialize types) (payload_lem e.0 s.0 h n s.2 (λ p k. s.3 p k)) ∙ s.4;
    }
