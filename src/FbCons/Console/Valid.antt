-- ===== src/FbCons/Console/Valid.antt =====
-- What every call of `write` keeps.
use kush_os_rewrite.Base.{ℕ, zero, suc, ◌+◌, ◌<◌, ◌&&◌, arith}
use kush_os_rewrite.Base.{length, set, length-set, ◌==◌, ltb, leb, Bool-cases}
use kush_os_rewrite.Base.{
  ◌≡◌, refl, ap, sym, ◌∙◌, inl, inr, done, in_bounds, >>=-eq-done, done-injective,
}
use kush_os_rewrite.FbCons.Console.{
  Console, WriteState, idle, ansi_escape_start, ansi_reading_csi, zeros,
}
use kush_os_rewrite.FbCons.Console.{process_ansi, read_csi, write_in, write}
use mathlib.Core.Path.{subst}
use kush_os_rewrite.FbCons.Console.Shape.{IsValid}
use kush_os_rewrite.FbCons.Console.Settled.{Settled, ansi-Settled}
use kush_os_rewrite.FbCons.Console.Drawn.{Drawn, print-Drawn, Drawn}

writer_order : (c : Console) → IsValid c → Settled c
writer_order c v = record { shape = v.shape; sync = v.sync }

idle_state :
    (c : Console)
    → Settled c
    → (w : WriteState) → (w ≡ ansi_reading_csi → c.ansi_used < 32)
    → IsValid (record c { write_state = w })
idle_state c s w room = record {
  shape = record {
    buf_size = s.shape.buf_size;
    fg_small = s.shape.fg_small;
    bg_small = s.shape.bg_small;
  };
  sync = record { fg_sync = s.sync.fg_sync; bg_sync = s.sync.bg_sync };
  room = room;
}

not_reading : (n : ℕ) → idle ≡ ansi_reading_csi → n < 32
not_reading n e = cc

not_reading' : (n : ℕ) → ansi_escape_start ≡ ansi_reading_csi → n < 32
not_reading' n e = cc

read_csi-IsValid :
    (c : Console) (ch : ℕ) {c' : Console}
    → IsValid c
    → c.write_state ≡ ansi_reading_csi
    → read_csi c ch ≡ done c'
    → IsValid c'
unfolding read_csi
read_csi-IsValid c ch v reading e =
    let small : c.ansi_used < 32 = v.room reading in
    let c1 = record c { ansi_buf = set c.ansi_buf c.ansi_used ch; ansi_used = c.ansi_used + 1 } in
    let s1 : Settled c1 = record {
      shape = record {
        buf_size = length-set c.ansi_buf c.ansi_used ch ∙ v.shape.buf_size;
        fg_small = v.shape.fg_small;
        bg_small = v.shape.bg_small;
      };
      sync = record { fg_sync = v.sync.fg_sync; bg_sync = v.sync.bg_sync };
    } in
    let (u, fits, e1) = >>=-eq-done (in_bounds (ltb c.ansi_used (length c.ansi_buf))) _ e in
    elim (Bool-cases (leb 0x40 ch && leb ch 0x7e)) [
      | inl final ↦
          let (d, ran, e2) = >>=-eq-done (process_ansi c1) _ (rw final at e1) in
          subst IsValid (done-injective e2)
            (idle_state d (ansi-Settled c1 s1 ran) idle (not_reading d.ansi_used))
      | inr more ↦ elim (Bool-cases (c.ansi_used + 1 == 32)) [
        | inl full ↦
            subst IsValid (done-injective (rw (more, full) at e1))
              (idle_state c1 s1 idle (not_reading c1.ansi_used))
        | inr space ↦
            subst IsValid (done-injective (rw (more, space) at e1))
              (record { shape = s1.shape; sync = s1.sync; room = λ r. ground arith })
      ]
    ]

kept_by_print : (c c' : Console) → IsValid c → c.write_state ≡ idle → Drawn c c' → IsValid c'
kept_by_print c c' v i d =
    let s = d.settled (writer_order c v) in
    record {
      shape = s.shape;
      sync = s.sync;
      room = λ r. not_reading c'.ansi_used (sym (d.state ∙ i) ∙ r);
    }

length-zeros : (n : ℕ) → length (zeros n) ≡ n
unfolding zeros
length-zeros zero = refl
length-zeros (suc n) = ap suc (length-zeros n)

write_in-IsValid :
    (w : WriteState) (c : Console) (ch : ℕ) {c' : Console}
    → IsValid c
    → c.write_state ≡ w
    → write_in w c ch ≡ done c'
    → IsValid c'
unfolding write_in
write_in-IsValid idle c ch {c'} v i e = elim (Bool-cases (ch == 27)) [
  | inl esc ↦
      subst IsValid (done-injective (rw esc at e))
        (idle_state c (writer_order c v) ansi_escape_start (not_reading' c.ansi_used))
  | inr plain ↦ kept_by_print c c' v i (print-Drawn c ch (rw plain at e))
]
write_in-IsValid ansi_escape_start c ch v start e = elim (Bool-cases (ch == 91)) [
  | inl bracket ↦ subst IsValid (done-injective (rw bracket at e)) (record {
    shape = record {
      buf_size = length-zeros 32;
      fg_small = v.shape.fg_small;
      bg_small = v.shape.bg_small;
    };
    sync = record { fg_sync = v.sync.fg_sync; bg_sync = v.sync.bg_sync };
    room = λ r. omega arith;
  })
  | inr other ↦
      subst IsValid (done-injective (rw other at e))
        (idle_state c (writer_order c v) idle (not_reading c.ansi_used))
]
write_in-IsValid ansi_reading_csi c ch v reading e = read_csi-IsValid c ch v reading e

-- Every character that `write` takes, in each of its states, keeps the console valid: the escape
-- buffer has its 32 bytes and, inside a sequence, a free one (so that the store of the character is
-- inside it), the palette indices are below 16, and the pixel colors are those of the indices.
pub write-IsValid :
    (c : Console) (ch : ℕ) {c' : Console} → IsValid c → write c ch ≡ done c' → IsValid c'
unfolding write
write-IsValid c ch v e = write_in-IsValid c.write_state c ch v refl e
