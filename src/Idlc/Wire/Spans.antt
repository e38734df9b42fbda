-- ===== src/Idlc/Wire/Spans.antt =====
-- Bytes that are copied to and from a span.
use kush_os_rewrite.Base.{
  ℕ, suc, ◌+◌, ◌-◌, ◌^◌, ◌≤◌, ◌<◌, arith, List, [], ◌∷◌, length, get_or, le→leb, lt→leb, lt→ltb,
  le→ltb,
}
use kush_os_rewrite.Base.{◌≡◌, refl, ap, ◌∙◌, ◌⊎◌, inl, inr}
use kush_os_rewrite.Idlc.Wire.{put_bytes, get_bytes, le32, of_le32}

pub put_bytes-inside :
    (mem : ℕ → ℕ) (off : ℕ) (bs : List ℕ) (i : ℕ)
    → i < length bs
    → put_bytes mem off bs (off + i) ≡ get_or bs i 0
unfolding put_bytes
put_bytes-inside mem off bs i h =
    let e : off + i - off ≡ i = omega arith in
    rw (le→leb off (off + i) (omega arith), lt→ltb (off + i) (off + length bs) (omega (arith, h)))
      (ap (λ (k : ℕ). get_or bs k 0) e)

pub put_bytes-outside :
    (mem : ℕ → ℕ) (off : ℕ) (bs : List ℕ) (a : ℕ)
    → (a < off) ⊎ (off + length bs ≤ a)
    → put_bytes mem off bs a ≡ mem a
unfolding put_bytes
put_bytes-outside mem off bs a (inl h) = rw (lt→leb off a h)
put_bytes-outside mem off bs a (inr h) =
    rw (le→leb off a (omega (arith, h)), le→ltb a (off + length bs) h)

pub get_bytes_lem :
    (mem : ℕ → ℕ) (off : ℕ) (bs : List ℕ)
    → ((i : ℕ) → i < length bs → mem (off + i) ≡ get_or bs i 0)
    → get_bytes mem off (length bs) ≡ bs
unfolding get_bytes
get_bytes_lem mem off [] h = refl
get_bytes_lem mem off (b ∷ bs) h =
    ap (λ (x : ℕ). x ∷ get_bytes mem (off + 1) (length bs)) head
    ∙ ap (λ (xs : List ℕ). b ∷ xs)
        (get_bytes_lem mem (off + 1) bs λ i k. ap mem (moved i) ∙ h (suc i) (omega (arith, k)))
  where
    head : mem off ≡ b
    head = ap mem (omega arith) ∙ h 0 (omega arith)

    moved : (i : ℕ) → off + 1 + i ≡ off + suc i
    moved i = omega arith

pub of_le32_lem :
    (mem : ℕ → ℕ) (off n : ℕ)
    → n < 2 ^ 32
    → ((i : ℕ) → i < 4 → mem (off + i) ≡ get_or (le32 n) i 0)
    → of_le32 mem off ≡ n
of_le32_lem mem off n small h = omega (
  arith,
  small,
  ap mem (first off) ∙ h 0 (omega arith),
  h 1 (omega arith),
  h 2 (omega arith),
  h 3 (omega arith),
)
  where
    first : (k : ℕ) → k ≡ k + 0
    first k = omega arith
