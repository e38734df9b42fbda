-- ===== src/FbCons/Console/Sgr.antt =====
-- SGR sequences, as characters written to the console.
use kush_os_rewrite.Base.{ℕ, zero, suc, ◌+◌, ◌≤◌, ◌<◌, arith, List, [], ◌∷◌, ◌++◌, length, set}
use kush_os_rewrite.Base.{ltb, Bool-cases, ==_of_ne}
use kush_os_rewrite.Base.{◌≡◌, ◌≢◌, inl, inr, done, wild}
use kush_os_rewrite.FbCons.Console.{
  Console, idle, zeros, number_size, update_colors, process_sgr_from, process_sgr,
  process_sgr_attribute, process_ansi, read_csi, str_to_int, str_to_int_from, write_in, write,
  write_all,
}

-- The console after a sequence of the escape character, a bracket, and the three bytes a, b, `m`.
abbrev pub after_sgr : Console → ℕ → ℕ → Console → Console
after_sgr c a b styled =
    update_colors
      (record styled { write_state = idle; ansi_used = 3; ansi_buf = a ∷ b ∷ 0 ∷ zeros 29 })

-- Written to an idle console, the sequences `ESC [ 3 k m` for k from 0 to 7 set the foreground
-- index to k and the colors to match, keep the cursor, the framebuffer and the background index,
-- and leave the console idle.
write_foreground :
    (c : Console) (k : ℕ)
    → k < 8
    → c.write_state ≡ idle
    → write_all c (27 ∷ 91 ∷ 51 ∷ (48 + k) ∷ 109 ∷ [])
      ≡ done (after_sgr c 51 (48 + k) (record c { fg_index = k }))
unfolding write_all write write_in read_csi process_ansi process_sgr process_sgr_from
    process_sgr_attribute str_to_int str_to_int_from update_colors zeros
write_foreground c zero h i = rw i
write_foreground c (suc zero) h i = rw i
write_foreground c (suc (suc zero)) h i = rw i
write_foreground c (suc (suc (suc zero))) h i = rw i
write_foreground c (suc (suc (suc (suc zero)))) h i = rw i
write_foreground c (suc (suc (suc (suc (suc zero))))) h i = rw i
write_foreground c (suc (suc (suc (suc (suc (suc zero)))))) h i = rw i
write_foreground c (suc (suc (suc (suc (suc (suc (suc zero))))))) h i = rw i
write_foreground c (suc (suc (suc (suc (suc (suc (suc (suc k)))))))) h i = absurd (omega arith)

-- Characters that are neither NUL nor a semicolon.
abbrev pub ArePlain : List ℕ → Type 0
ArePlain [] = Unit {0}
ArePlain (ch ∷ rest) = (ch ≢ 0) × (ch ≢ 59) × ArePlain rest

-- A parameter of an SGR sequence that is longer than the eight characters of `number` is stored
-- past its end.
pub long_number_overruns :
    (c : Console) (digits rest number : List ℕ) (n : ℕ)
    → ArePlain digits
    → n ≤ 8
    → 8 < n + length digits
    → process_sgr_from c (digits ++ rest) number n ≡ wild
unfolding process_sgr_from
long_number_overruns c [] rest number n plain few many = absurd (omega arith)
long_number_overruns c (ch ∷ digits) rest number n plain few many =
    elim (Bool-cases (ltb n number_size)) [
      | inl fits ↦
          rw (==_of_ne ch 0 plain.0, ==_of_ne ch 59 plain.1, fits)
            (long_number_overruns c digits rest (set number n ch) (n + 1) plain.2 (ground arith)
              (omega arith))
      | inr full ↦ rw (==_of_ne ch 0 plain.0, ==_of_ne ch 59 plain.1, full)
    ]
