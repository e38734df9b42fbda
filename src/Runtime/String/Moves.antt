-- ===== src/Runtime/String/Moves.antt =====
-- `memmove` and `memcpy` copy a block, for every alignment and overlap.
use kush_os_rewrite.Base.{
  ℕ, zero, suc, ◌+◌, ◌-◌, ◌*◌, ◌/◌, ◌%◌, ◌≤◌, ◌<◌, true, false, ◌&&◌, ◌||◌, bit_and, arith,
}
use kush_os_rewrite.Base.{
  ◌≡◌, refl, ap, ◌∙◌, ◌≢◌, ◌⊎◌, inl, inr, ◌==◌, ltb, leb, Bool-cases, ==_of_eq, ==_of_ne, eq_of_==,
  Outcome, done, panic,
}
use kush_os_rewrite.Base.Bits.{bit_and-low}
use kush_os_rewrite.Runtime.String.{
  Bytes, put, put_word, bytes_up, words_up, bytes_down, words_down, at_least_once, unaligned,
  differ_low, tail_up, tail_down, head_up, head_down, copy_up, copy_down, memmove, memcpy,
}
use kush_os_rewrite.Runtime.String.Xor.{low_some}

-- `mem'` is `mem` with the n bytes at `src` written to `dst`, and nothing else changed.
pub record Moved (mem mem' : Bytes) (dst src n : ℕ) : Type 0 where
  pub inside : (j : ℕ) → j < n → mem' (dst + j) ≡ mem (src + j)
  pub outside : (a : ℕ) → (a < dst) ⊎ (dst + n ≤ a) → mem' a ≡ mem a

nothing : (mem : Bytes) (dst src : ℕ) → Moved mem mem dst src 0
nothing mem dst src = record { inside = λ j h. absurd (omega arith); outside = λ a h. refl }

one : (mem : Bytes) (dst src : ℕ) → Moved mem (put mem dst (mem src)) dst src 1
one mem dst src = record {
  inside = λ j h.
      let e : j ≡ 0 = omega arith in
      rw (==_of_eq (dst + j) dst (omega arith)) (ap mem (omega arith));
  outside = λ a h.
      let ne : a ≢ dst =
        λ e. elim h [ inl l ↦ absurd (omega (arith, e)) | inr r ↦ absurd (omega (arith, e)) ] in
      rw (==_of_ne a dst ne);
}

word : (mem : Bytes) (dst src : ℕ) → Moved mem (put_word mem dst src) dst src 8
word mem dst src = record {
  inside = λ j h.
      let e : (leb dst (dst + j) && ltb (dst + j) (dst + 8)) ≡ true = ground arith in
      rw e (ap mem (omega arith));
  outside = λ a h.
      let e : (leb dst a && ltb a (dst + 8)) ≡ false = elim h [
        | inl l ↦ ground arith
        | inr r ↦ ground arith
      ] in
      rw e;
}

-- The blocks may be copied from the low end: to a lower address, or to one past the end.
abbrev Upward : ℕ → ℕ → ℕ → Type 0
Upward dst src n = (dst ≤ src) ⊎ (src + n ≤ dst)

first_part : (dst src n m : ℕ) → m ≤ n → Upward dst src n → Upward dst src m
first_part dst src n m h u = elim u [ inl l ↦ inl l | inr r ↦ inr (omega arith) ]

rest_part : (dst src n m k : ℕ) → m + k ≤ n → Upward dst src n → Upward (dst + m) (src + m) k
rest_part dst src n m k h u = elim u [ inl l ↦ inl (omega arith) | inr r ↦ inr (omega arith) ]

-- A lower part, then the rest.
low_first :
    (mem m1 m2 : Bytes) (dst src n k : ℕ)
    → Upward dst src (n + k)
    → Moved mem m1 dst src n
    → Moved m1 m2 (dst + n) (src + n) k
    → Moved mem m2 dst src (n + k)
low_first mem m1 m2 dst src n k below f g = record {
  inside = λ j h. elim (Bool-cases (ltb j n)) [
    | inl e ↦ g.outside (dst + j) (inl (ground arith)) ∙ f.inside j (ground arith)
    | inr e ↦
        let le : n ≤ j = ground arith in
        ap m2 (omega arith)
        ∙ g.inside (j - n) (omega arith)
        ∙ f.outside (src + n + (j - n))
            (elim below [ inl l ↦ inr (omega arith) | inr r ↦ inl (omega arith) ])
        ∙ ap mem (omega arith)
  ];
  outside = λ a h.
      g.outside a (elim h [ inl l ↦ inl (omega arith) | inr r ↦ inr (omega arith) ])
      ∙ f.outside a (elim h [ inl l ↦ inl l | inr r ↦ inr (omega arith) ]);
}

-- An upper part, then the rest, for a move up in memory.
high_first :
    (mem m1 m2 : Bytes) (dst src n k : ℕ)
    → src ≤ dst
    → Moved mem m1 (dst + k) (src + k) n
    → Moved m1 m2 dst src k
    → Moved mem m2 dst src (k + n)
high_first mem m1 m2 dst src n k below f g = record {
  inside = λ j h. elim (Bool-cases (ltb j k)) [
    | inl e ↦ g.inside j (ground arith) ∙ f.outside (src + j) (inl (ground arith))
    | inr e ↦
        let le : k ≤ j = ground arith in
        g.outside (dst + j) (inr (omega arith))
        ∙ ap m1 (omega arith)
        ∙ f.inside (j - k) (omega arith)
        ∙ ap mem (omega arith)
  ];
  outside = λ a h.
      g.outside a (elim h [ inl l ↦ inl l | inr r ↦ inr (omega arith) ])
      ∙ f.outside a (elim h [ inl l ↦ inl (omega arith) | inr r ↦ inr (omega arith) ]);
}

change :
    (mem m' : Bytes) {d d' s s' n n' : ℕ}
    → d ≡ d'
    → s ≡ s'
    → n ≡ n'
    → Moved mem m' d s n
    → Moved mem m' d' s' n'
change mem m' p q r f = rw (p, q, r) at f

bytes_up-Moved :
    (t : ℕ) (mem : Bytes) (dst src : ℕ)
    → Upward dst src t
    → Moved mem (bytes_up t mem dst src) dst src t
unfolding bytes_up
bytes_up-Moved zero mem dst src h = nothing mem dst src
bytes_up-Moved (suc t) mem dst src h = change _ _ refl refl (omega arith) (
    low_first mem _ _ dst src 1 t (first_part dst src _ _ (omega arith) h) (one mem dst src) (
      bytes_up-Moved t (put mem dst (mem src)) (dst + 1) (src + 1)
        (rest_part dst src _ 1 t (omega arith) h)))

words_up-Moved :
    (t : ℕ) (mem : Bytes) (dst src : ℕ)
    → Upward dst src (t * 8)
    → Moved mem (words_up t mem dst src) dst src (t * 8)
unfolding words_up
words_up-Moved zero mem dst src h = nothing mem dst src
words_up-Moved (suc t) mem dst src h = change _ _ refl refl (omega arith) (
    low_first mem _ _ dst src 8 (t * 8) (first_part dst src _ _ (omega arith) h) (word mem dst src)
      (words_up-Moved t (put_word mem dst src) (dst + 8) (src + 8)
        (rest_part dst src _ 8 (t * 8) (omega arith) h)))

bytes_down-Moved :
    (t : ℕ) (mem : Bytes) (d s : ℕ)
    → t ≤ s
    → s ≤ d
    → Moved mem (bytes_down t mem d s) (d - t) (s - t) t
unfolding bytes_down
bytes_down-Moved zero mem d s h k = nothing mem (d - 0) (s - 0)
bytes_down-Moved (suc t) mem d s h k = change _ _ (omega arith) (omega arith) (omega arith) (
    high_first mem _ _ (d - 1 - t) (s - 1 - t) 1 t (omega arith)
      (change _ _ (omega arith) (omega arith) refl (one mem (d - 1) (s - 1)))
      (bytes_down-Moved t (put mem (d - 1) (mem (s - 1))) (d - 1) (s - 1) (omega arith)
        (omega arith)))

words_down-Moved :
    (t : ℕ) (mem : Bytes) (d s : ℕ)
    → t * 8 ≤ s
    → s ≤ d
    → Moved mem (words_down t mem d s) (d - t * 8) (s - t * 8) (t * 8)
unfolding words_down
words_down-Moved zero mem d s h k = nothing mem (d - 0) (s - 0)
words_down-Moved (suc t) mem d s h k = change _ _ (omega arith) (omega arith) (omega arith) (
    high_first mem _ _ (d - 8 - t * 8) (s - 8 - t * 8) 8 (t * 8) (omega arith)
      (change _ _ (omega arith) (omega arith) refl (word mem (d - 8) (s - 8)))
      (words_down-Moved t (put_word mem (d - 8) (s - 8)) (d - 8) (s - 8) (omega arith)
        (omega arith)))

-- Whole words, then the rest.
tail_up-Moved :
    (mem : Bytes) (dst src n : ℕ) → Upward dst src n → Moved mem (tail_up mem dst src n) dst src n
unfolding tail_up
tail_up-Moved mem dst src n h =
    let low : bit_and n 7 ≡ n % 8 = bit_and-low 3 n in
    change _ _ refl refl (omega (arith, low)) (
      low_first mem _ _ dst src (n / 8 * 8) (bit_and n 7)
        (first_part dst src n _ (omega (arith, low)) h)
        (words_up-Moved (n / 8) mem dst src (first_part dst src n _ (omega arith) h))
        (bytes_up-Moved (bit_and n 7) _ (dst + n / 8 * 8) (src + n / 8 * 8)
          (rest_part dst src n _ _ (omega (arith, low)) h)))

tail_down-Moved :
    (mem : Bytes) (d s n : ℕ) → n ≤ s → s ≤ d → Moved mem (tail_down mem d s n) (d - n) (s - n) n
unfolding tail_down
tail_down-Moved mem d s n h k =
    let low : bit_and n 7 ≡ n % 8 = bit_and-low 3 n in
    change _ _ (omega (arith, low)) (omega (arith, low)) (omega (arith, low)) (
      high_first mem _ _ (d - n / 8 * 8 - bit_and n 7) (s - n / 8 * 8 - bit_and n 7) (n / 8 * 8)
        (bit_and n 7) (omega (arith, low))
        (change _ _ (omega (arith, low)) (omega (arith, low)) refl
          (words_down-Moved (n / 8) mem d s (omega arith) k))
        (bytes_down-Moved (bit_and n 7) _ (d - n / 8 * 8) (s - n / 8 * 8) (omega (arith, low))
          (omega arith)))

once : (t : ℕ) (after : Bytes) → 0 < t → at_least_once t after ≡ done after
unfolding at_least_once
once t after h = rw (==_of_ne t 0 (λ e. absurd (omega (arith, e))))

-- The bytes copied to align the pointers: at least one, and not more than there are.
head_up-bounds :
    (dst src n : ℕ)
    → 0 < n
    → unaligned src dst ≡ true
    → (0 < head_up dst src n) × (head_up dst src n ≤ n)
head_up-bounds dst src n h u = elim (Bool-cases (differ_low src dst || ltb n 8)) [
  | inl e ↦ rw e (h, omega arith)
  | inr e ↦
      let long : 8 ≤ n = ground arith in
      let some_low = low_some src dst u (ground arith) in
      rw e (omega (arith, bit_and-low 3 src), omega (arith, bit_and-low 3 src, some_low.0))
]

head_down-bounds :
    (dst src n : ℕ)
    → 0 < n
    → unaligned src dst ≡ true
    → (0 < head_down dst src n) × (head_down dst src n ≤ n)
head_down-bounds dst src n h u = elim (Bool-cases (differ_low src dst || leb n 8)) [
  | inl e ↦ rw e (h, omega arith)
  | inr e ↦
      let long : 8 < n = ground arith in
      let some_low = low_some src dst u (ground arith) in
      rw e (omega (arith, bit_and-low 3 src, some_low.0), omega (arith, bit_and-low 3 src))
]

abbrev pub Copies : Outcome Bytes → Bytes → ℕ → ℕ → ℕ → Type 0
Copies outcome mem dst src n = (mem' : Bytes) × (outcome ≡ done mem') × Moved mem mem' dst src n

copy_up-Copies :
    (mem : Bytes) (dst src n : ℕ)
    → 0 < n
    → Upward dst src n
    → Copies (copy_up mem dst src n) mem dst src n
unfolding copy_up
copy_up-Copies mem dst src n some h = elim (Bool-cases (unaligned src dst)) [
  | inr a ↦ (tail_up mem dst src n, rw a, tail_up-Moved mem dst src n h)
  | inl u ↦
      let b = head_up-bounds dst src n some u in
      let t = head_up dst src n in
      (
        tail_up (bytes_up t mem dst src) (dst + t) (src + t) (n - t),
        rw (u, once t (bytes_up t mem dst src) b.0),
        change _ _ refl refl (omega (arith, b.1)) (
            low_first mem _ _ dst src t (n - t) (first_part dst src n _ (omega (arith, b.1)) h)
              (bytes_up-Moved t mem dst src (first_part dst src n _ b.1 h))
              (tail_up-Moved (bytes_up t mem dst src) (dst + t) (src + t) (n - t)
                (rest_part dst src n _ _ (omega (arith, b.1)) h))),
      )
]

copy_down-Copies :
    (mem : Bytes) (d s n : ℕ)
    → 0 < n
    → n ≤ s
    → s ≤ d
    → Copies (copy_down mem d s n) mem (d - n) (s - n) n
unfolding copy_down
copy_down-Copies mem d s n some h k = elim (Bool-cases (unaligned s d)) [
  | inr a ↦ (tail_down mem d s n, rw a, tail_down-Moved mem d s n h k)
  | inl u ↦
      let b = head_down-bounds d s n some u in
      let t = head_down d s n in
      (
        tail_down (bytes_down t mem d s) (d - t) (s - t) (n - t),
        rw (u, once t (bytes_down t mem d s) b.0),
        change _ _ (omega (arith, b.1)) (omega (arith, b.1)) (omega (arith, b.1)) (
            high_first mem _ _ (d - t - (n - t)) (s - t - (n - t)) t (n - t) (omega (arith, b.1))
              (change _ _ (omega (arith, b.1)) (omega (arith, b.1)) refl
                (bytes_down-Moved t mem d s (omega (arith, b.1)) k))
              (tail_down-Moved (bytes_down t mem d s) (d - t) (s - t) (n - t) (omega (arith, b.1))
                (omega arith))),
      )
]

same_place : (mem : Bytes) (dst src n : ℕ) → (n ≡ 0) ⊎ (dst ≡ src) → Moved mem mem dst src n
same_place mem dst src n h = record {
  inside = λ j k. elim h [ inl e ↦ absurd (omega arith) | inr e ↦ ap mem (omega arith) ];
  outside = λ a k. refl;
}

trivial_cases : (n dst src : ℕ) → (n == 0 || dst == src) ≡ true → (n ≡ 0) ⊎ (dst ≡ src)
trivial_cases n dst src e = elim (Bool-cases (n == 0)) [
  | inl z ↦ inl (eq_of_== n 0 z)
  | inr z ↦ inr (ground arith)
]

-- `memmove` always returns, and afterwards the n bytes at `dst` are those that stood at `src`, with
-- all other bytes as before, whatever the alignment of the blocks and however they overlap.
pub memmove-Copies : (mem : Bytes) (dst src n : ℕ) → Copies (memmove mem dst src n) mem dst src n
unfolding memmove
memmove-Copies mem dst src n = elim (Bool-cases (n == 0 || dst == src)) [
  | inl e ↦ (mem, rw e, same_place mem dst src n (trivial_cases n dst src e))
  | inr e ↦
      let some : 0 < n = ground arith in
      elim (Bool-cases (ltb dst src)) [
        | inl below ↦ rw (e, below) (copy_up-Copies mem dst src n some (inl (ground arith)))
        | inr above ↦
            let c = copy_down-Copies mem (dst + n) (src + n) n some (omega arith) (ground arith) in
            (c.0, rw (e, above) (c.1), change _ _ (omega arith) (omega arith) refl (c.2))
      ]
]

-- `memcpy` of blocks that do not overlap returns, with the n bytes at `dst` those that stood at
-- `src` and all other bytes as before, whatever their alignment.
pub memcpy-Copies :
    (mem : Bytes) (dst src n : ℕ)
    → (dst + n ≤ src) ⊎ (src + n ≤ dst)
    → Copies (memcpy mem dst src n) mem dst src n
unfolding memcpy
memcpy-Copies mem dst src n apart = elim (Bool-cases (n == 0 || dst == src)) [
  | inl e ↦ (mem, rw e, same_place mem dst src n (trivial_cases n dst src e))
  | inr e ↦
      let some : 0 < n = ground arith in
      let free : (ltb dst src && ltb src (dst + n) || ltb src dst && ltb dst (src + n)) ≡ false =
        elim apart [ inl l ↦ ground arith | inr r ↦ ground arith ] in
      rw (e, free)
        (copy_up-Copies mem dst src n some
          (elim apart [ inl l ↦ inl (omega arith) | inr r ↦ inr r ]))
]

-- `memcpy` of different blocks that share a byte panics.
pub memcpy_overlap :
    (mem : Bytes) (dst src n : ℕ)
    → dst ≢ src
    → dst < src + n
    → src < dst + n
    → memcpy mem dst src n ≡ panic
unfolding memcpy
memcpy_overlap mem dst src n differ below above =
    let e : (n == 0 || dst == src) ≡ false = ground arith in
    let shared : (ltb dst src && ltb src (dst + n) || ltb src dst && ltb dst (src + n)) ≡ true =
      ground arith in
    rw (e, shared)
