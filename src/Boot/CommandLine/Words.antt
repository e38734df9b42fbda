-- ===== src/Boot/CommandLine/Words.antt =====
-- What the command line sets.
use kush_os_rewrite.Base.{
  ℕ, zero, suc, ◌+◌, ◌≤◌, ◌<◌, Bool, true, arith, List, [], ◌∷◌, ◌++◌, length, take, length-take,
  length-append, u16, ◌==◌, if◌then◌else◌, ==_of_ne,
}
use kush_os_rewrite.Base.{◌≡◌, ◌≢◌, ◌↔◌, refl, ap, sym, ◌∙◌}
use kush_os_rewrite.Boot.CommandLine.{
  space, dash, equals, comma, console_key, debugcon_type, State, reading_key, reading_value,
  type_end, parse_cmd_token, end_value, parse_from, parse_cmd,
}

-- No character of the list is `ch`.
abbrev pub IsFree : ℕ → List ℕ → Type 0
IsFree ch [] = Unit
IsFree ch (x ∷ xs) = (x ≢ ch) × IsFree ch xs

if_ne : {A : Type 0} (c d : ℕ) → c ≢ d → (a b : A) → (if c == d then a else b) ≡ b
if_ne c d ne a b = rw (==_of_ne c d ne)

append_nil : (xs : List ℕ) → xs ++ [] ≡ xs
append_nil [] = refl
append_nil (x ∷ xs) = ap (λ (t : List ℕ). x ∷ t) (append_nil xs)

IsFree-take : (ch n : ℕ) (xs : List ℕ) → IsFree ch xs → IsFree ch (take n xs)
IsFree-take ch zero xs f = tt
IsFree-take ch (suc n) [] f = tt
IsFree-take ch (suc n) (x ∷ xs) f = (f.0, IsFree-take ch n xs f.1)

IsFree-append : (ch : ℕ) (xs ys : List ℕ) → IsFree ch xs → IsFree ch ys → IsFree ch (xs ++ ys)
IsFree-append ch [] ys f g = g
IsFree-append ch (x ∷ xs) ys f g = (f.0, IsFree-append ch xs ys f.1 g)

take-prefix : (n : ℕ) (xs ys : List ℕ) → n ≤ length xs → take n (take n xs ++ ys) ≡ take n xs
take-prefix zero xs ys h = refl
take-prefix (suc n) [] ys h = absurd (omega arith)
take-prefix (suc n) (x ∷ xs) ys h =
    ap (λ (t : List ℕ). x ∷ t) (take-prefix n xs ys (omega (arith, h)))

read_type :
    (cs rest : List ℕ) (m n : ℕ)
    → IsFree comma cs
    → length cs < m
    → type_end (cs ++ comma ∷ rest) m n ≡ (rest, n + length cs)
unfolding type_end
read_type cs rest zero n c h = absurd (omega arith)
read_type [] rest (suc m) n c h = ap (λ (t : ℕ). (rest, t)) (omega arith)
read_type (x ∷ cs) rest (suc m) n c h =
    rw (==_of_ne x comma c.0)
      (read_type cs rest m (n + 1) c.1 (omega (arith, h)) ∙ ap (λ (t : ℕ). (rest, t)) (omega arith))

module _ (matches : List ℕ → List ℕ → ℕ → Bool) (strtol : List ℕ → ℕ) where
  read_key :
      (cs rest key : List ℕ) (n port : ℕ)
      → IsFree equals cs
      → IsFree space cs
      → parse_from matches strtol (cs ++ rest) (reading_key key n) port
        ≡ parse_from matches strtol rest (reading_key key (n + length cs)) port
  unfolding parse_from
  read_key [] rest key n port e s =
      ap (λ (t : ℕ). parse_from matches strtol rest (reading_key key t) port) (omega arith)
  read_key (c ∷ cs) rest key n port e s =
      ap (λ (st : State). parse_from matches strtol (cs ++ rest) st port)
        (if_ne c equals e.0 _ _ ∙ if_ne c space s.0 _ _)
      ∙ (read_key cs rest key (n + 1) port e.1 s.1
          ∙ ap (λ (t : ℕ). parse_from matches strtol rest (reading_key key t) port) (omega arith))

  read_value :
      (cs rest key value : List ℕ) (k n port : ℕ)
      → IsFree space cs
      → parse_from matches strtol (cs ++ rest) (reading_value key k value n) port
        ≡ parse_from matches strtol rest (reading_value key k value (n + length cs)) port
  unfolding parse_from
  read_value [] rest key value k n port s =
      ap (λ (t : ℕ). parse_from matches strtol rest (reading_value key k value t) port)
        (omega arith)
  read_value (c ∷ cs) rest key value k n port s =
      ap
        (λ (st : State).
          parse_from matches strtol (cs ++ rest) st
            (if c == space then end_value matches strtol key k value n port else port))
        (if_ne c space s.0 _ _)
      ∙ ap (λ (p : ℕ). parse_from matches strtol (cs ++ rest) (reading_value key k value (n + 1)) p)
          (if_ne c space s.0 _ _)
      ∙ (read_value cs rest key value k (n + 1) port s.1
          ∙ ap (λ (t : ℕ). parse_from matches strtol rest (reading_value key k value t) port)
              (omega arith))

  -- One word with a key and a value.
  parse_cmd_word :
      (key value : List ℕ) (port : ℕ)
      → IsFree equals key
      → IsFree space key
      → IsFree space value
      → parse_cmd matches strtol (dash ∷ key ++ equals ∷ value) port
        ≡ end_value matches strtol (key ++ equals ∷ value) (length key) value (length value) port
  unfolding parse_cmd parse_from
  parse_cmd_word key value port e s v =
      read_key key (equals ∷ value) (key ++ equals ∷ value) 0 port e s
      ∙ ap
          (λ (xs : List ℕ).
            parse_from matches strtol xs
              (reading_value (key ++ equals ∷ value) (0 + length key) value 0) port)
          (sym (append_nil value))
      ∙ read_value value [] (key ++ equals ∷ value) value (0 + length key) 0 port v
      ∙ ap
          (λ (t : ℕ).
            end_value matches strtol (key ++ equals ∷ value) t value (0 + length value) port)
          (omega arith)
      ∙ ap (λ (t : ℕ). end_value matches strtol (key ++ equals ∷ value) (length key) value t port)
          (omega arith)

  end_value_lem :
      (key value : List ℕ) (port : ℕ)
      → matches console_key (key ++ equals ∷ value) (length key) ≡ true
      → end_value matches strtol (key ++ equals ∷ value) (length key) value (length value) port
        ≡ parse_cmd_token matches strtol value (length value) port
  unfolding end_value
  end_value_lem key value port m = rw m

  token_lem :
      (kind number : List ℕ) (port : ℕ)
      → IsFree comma kind
      → matches debugcon_type (kind ++ comma ∷ number) (length kind) ≡ true
      → parse_cmd_token matches strtol
          (kind ++ comma ∷ number)
          (length (kind ++ comma ∷ number))
          port
        ≡ u16 (strtol number)
  unfolding parse_cmd_token
  token_lem kind number port c m =
      let e : 0 + length kind ≡ length kind = omega arith in
      let t =
        read_type kind number (length (kind ++ comma ∷ number)) 0 c
          (omega (arith, length-append kind (comma ∷ number)))
        ∙ ap (λ (k : ℕ). (number, k)) e in
      rw (t, m)

  -- `strncmp` says whether the first n characters are the same; a string that ends before differs
  -- from one that does not.
  abbrev pub ComparesPrefixes : Type 0
  ComparesPrefixes = (s t : List ℕ) (n : ℕ) → (matches s t n ≡ true) ↔ (take n s ≡ take n t)

  -- With a `strncmp` that compares the first characters, any beginning of "console" works as the key
  -- and any beginning of "debugcon" as the type, the empty ones and the whole words included: the port
  -- is then the number after the comma, as `strtol` reads it, modulo 2 ^ 16.
  pub parse_cmd_prefix :
      ComparesPrefixes
      → (i j : ℕ) (number : List ℕ) (port : ℕ) → i ≤ 7
      → j ≤ 8
      → IsFree space number
      → parse_cmd matches strtol
          (dash ∷ take i console_key ++ equals ∷ (take j debugcon_type ++ comma ∷ number))
          port
        ≡ u16 (strtol number)
  parse_cmd_prefix compares i j number port hi hj v =
      let key : List ℕ = take i console_key in
      let kind : List ℕ = take j debugcon_type in
      let value : List ℕ = kind ++ comma ∷ number in
      parse_cmd_word key value port (IsFree-take equals i console_key (ground arith))
        (IsFree-take space i console_key (ground arith))
        (IsFree-append space kind (comma ∷ number)
          (IsFree-take space j debugcon_type (ground arith)) (ground arith, v))
      ∙ end_value_lem key value port (prefix_matches console_key (equals ∷ value) i hi)
      ∙ token_lem kind number port (IsFree-take comma j debugcon_type (ground arith))
          (prefix_matches debugcon_type (comma ∷ number) j hj)
    where
      prefix_matches :
          (word rest : List ℕ) (n : ℕ)
          → n ≤ length word
          → matches word (take n word ++ rest) (length (take n word)) ≡ true
      prefix_matches word rest n h =
          ap (λ (k : ℕ). matches word (take n word ++ rest) k) (omega (arith, length-take n word))
          ∙ (compares word (take n word ++ rest) n).1 (sym (take-prefix n word rest h))
