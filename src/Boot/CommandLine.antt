-- ===== src/Boot/CommandLine.antt =====
-- The kernel's command line: `ParseCmd` and `ParseCmdToken` of Sources/Io/Console.cpp of the platform.
-- A string is the list of its characters before the terminating zero, and a pointer into it is the
-- rest of the list. `strncmp` and `strtol` of Sources/Util/String.h come from another project's
-- library and are parameters; `matches s t n` is `!strncmp(s, t, n)`.
pub mod Words
use kush_os_rewrite.Base.{
  ℕ, zero, suc, ◌+◌, ◌-◌, Bool, true, false, List, [], ◌∷◌, u16, ◌==◌, if◌then◌else◌,
}

abbrev pub space : ℕ
space = 0x20

abbrev pub dash : ℕ
dash = 0x2d

abbrev pub equals : ℕ
equals = 0x3d

abbrev pub comma : ℕ
comma = 0x2c

-- "console" and "debugcon"
abbrev pub console_key : List ℕ
console_key = 0x63 ∷ 0x6f ∷ 0x6e ∷ 0x73 ∷ 0x6f ∷ 0x6c ∷ 0x65 ∷ []

abbrev pub debugcon_type : List ℕ
debugcon_type = 0x64 ∷ 0x65 ∷ 0x62 ∷ 0x75 ∷ 0x67 ∷ 0x63 ∷ 0x6f ∷ 0x6e ∷ []

-- `State`, with the pointers and lengths that it uses.
pub data State : Type 0 where
  idle : State
  reading_key : List ℕ → ℕ → State
  reading_value : List ℕ → ℕ → List ℕ → ℕ → State

-- The loop of `ParseCmdToken`, with n characters left: the rest after the type, and its length.
unfoldable pub type_end : List ℕ → ℕ → ℕ → List ℕ × ℕ
type_end value zero len = (value, len)
type_end [] (suc n) len = ([], len)
type_end (ch ∷ value) (suc n) len =
    let rest : List ℕ × ℕ = type_end value n (len + 1) in if ch == comma then (value, len) else rest

module _ (matches : List ℕ → List ℕ → ℕ → Bool) (strtol : List ℕ → ℕ) where
  -- `ParseCmdToken`: the port afterwards.
  unfoldable pub parse_cmd_token : List ℕ → ℕ → ℕ → ℕ
  parse_cmd_token value value_len port =
      let t : List ℕ × ℕ = type_end value value_len 0 in
      if matches debugcon_type value t.1 then u16 (strtol t.0) else port

  -- The end of a value.
  unfoldable pub end_value : List ℕ → ℕ → List ℕ → ℕ → ℕ → ℕ
  end_value key key_len value value_len port =
      if matches console_key key key_len then parse_cmd_token value value_len port else port

  -- The loop of `ParseCmd`
  unfoldable pub parse_from : List ℕ → State → ℕ → ℕ
  parse_from [] idle port = port
  parse_from [] (reading_key key key_len) port = port
  parse_from [] (reading_value key key_len value value_len) port =
      end_value key key_len value value_len port
  parse_from (ch ∷ rest) idle port =
      parse_from rest (if ch == dash then reading_key rest 0 else idle) port
  parse_from (ch ∷ rest) (reading_key key key_len) port =
      parse_from rest
        (if ch == equals
          then reading_value key key_len rest 0
          else if ch == space
          then idle
          else reading_key key (key_len + 1))
        port
  parse_from (ch ∷ rest) (reading_value key key_len value value_len) port =
      parse_from rest
        (if ch == space then idle else reading_value key key_len value (value_len + 1))
        (if ch == space then end_value key key_len value value_len port else port)

  -- `ParseCmd`
  unfoldable pub parse_cmd : List ℕ → ℕ → ℕ
  unfolding parse_from
  parse_cmd cmdline port = parse_from cmdline idle port
