-- ===== src/FbCons/Console/Drawn.antt =====
-- Drawing changes nothing that the writer depends on.
use kush_os_rewrite.Base.{ℕ, ◌+◌, ◌*◌}
use kush_os_rewrite.Base.{u64, sub64, ◌==◌, Bool-cases}
use kush_os_rewrite.Base.{◌≡◌, refl, ◌∙◌, inl, inr, done, >>=-eq-done, done-injective}
use kush_os_rewrite.Runtime.String.{Bytes, memcpy}
use kush_os_rewrite.FbCons.Console.{Console}
use kush_os_rewrite.FbCons.Console.{draw_char, new_line, print}
use mathlib.Core.Path.{subst}
use kush_os_rewrite.FbCons.Console.Settled.{Settled}

-- Drawing leaves the shape, the colors and the state of the writer.
pub record Drawn (c : Console) (c' : Console) : Type 0 where
  pub settled : Settled c → Settled c'
  pub state : c'.write_state ≡ c.write_state

new_line-Drawn : (c : Console) {c' : Console} → new_line c ≡ done c' → Drawn c c'
unfolding new_line
new_line-Drawn c e = elim (Bool-cases (u64 (c.cursor_y + 1) == c.rows)) [
  | inl last ↦
      let (mem, copied, e') =
        >>=-eq-done
          (memcpy c.memory c.buffer (c.buffer + c.font.height * 5 * c.stride)
            (c.stride * sub64 c.rows 5 * c.font.height))
          _ (rw last at e) in
      subst (Drawn c) (done-injective e') (record {
        settled = λ s. record {
          shape = record {
            buf_size = s.shape.buf_size;
            fg_small = s.shape.fg_small;
            bg_small = s.shape.bg_small;
          };
          sync = record { fg_sync = s.sync.fg_sync; bg_sync = s.sync.bg_sync };
        };
        state = refl;
      })
  | inr more ↦ subst (Drawn c) (done-injective (rw more at e)) (record {
    settled = λ s. record {
      shape = record {
        buf_size = s.shape.buf_size;
        fg_small = s.shape.fg_small;
        bg_small = s.shape.bg_small;
      };
      sync = record { fg_sync = s.sync.fg_sync; bg_sync = s.sync.bg_sync };
    };
    state = refl;
  })
]

moved-Drawn :
    (c : Console) (mem : Bytes) (x : ℕ) → Drawn c (record c { memory = mem; cursor_x = x })
moved-Drawn c mem x = record {
  settled = λ s. record {
    shape = record {
      buf_size = s.shape.buf_size;
      fg_small = s.shape.fg_small;
      bg_small = s.shape.bg_small;
    };
    sync = record { fg_sync = s.sync.fg_sync; bg_sync = s.sync.bg_sync };
  };
  state = refl;
}

chained : (a b c : Console) → Drawn a b → Drawn b c → Drawn a c
chained a b c f g = record { settled = λ s. g.settled (f.settled s); state = g.state ∙ f.state }

pub print-Drawn : (c : Console) (ch : ℕ) {c' : Console} → print c ch ≡ done c' → Drawn c c'
unfolding print draw_char
print-Drawn c ch {c'} e = elim (Bool-cases (ch == 10)) [
  | inl nl ↦ new_line-Drawn c (rw nl at e)
  | inr other ↦ elim (Bool-cases (u64 (c.cursor_x + 1) == c.columns)) [
    | inl last ↦
        let e' = rw (other, last) at e in
        chained c _ c' (moved-Drawn c _ (u64 (c.cursor_x + 1))) (new_line-Drawn _ e')
    | inr more ↦
        subst (Drawn c) (done-injective (rw (other, more) at e))
          (moved-Drawn c _ (u64 (c.cursor_x + 1)))
  ]
]
