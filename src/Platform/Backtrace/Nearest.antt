-- ===== src/Platform/Backtrace/Nearest.antt =====
-- The search of `Symbolicate` finds a nearest function.
use kush_os_rewrite.Base.{
  ℕ, zero, suc, ◌+◌, ◌≤◌, ◌<◌, true, false, sub64, ltb, Bool-cases, ltb→lt, ltb→le, le→ltb,
  ==_of_ne, ap, Option, none, some, arith, ◌≡◌, refl, inl, inr,
}
use mathlib.Core.Path.{subst}
use kush_os_rewrite.Platform.Backtrace.{
  Memory, State, Symbol, symbol, is_function, nearer, search, Symbolicated, no_symbol, at_symbol,
  num_syms, symbolicate,
}

module _ (mem : Memory) (symtab pc : ℕ) where
  -- The offset of `pc` from symbol j, modulo 2^64.
  abbrev pub offset : ℕ → ℕ
  offset j = sub64 pc (symbol mem symtab j).st_value

  -- No symbol before the n-th is a function.
  abbrev pub HasNoFunction : ℕ → Type 0
  HasNoFunction n = (j : ℕ) → j < n → is_function (symbol mem symtab j) ≡ false

  -- Symbol i is a function before the n-th, and none of these has a smaller offset.
  pub record IsNearest (n i : ℕ) : Type 0 where
    pub before : i < n
    pub function : is_function (symbol mem symtab i) ≡ true
    pub least : (j : ℕ) → j < n → is_function (symbol mem symtab j) ≡ true → offset i ≤ offset j

  -- What the loop has found among the first n symbols.
  abbrev pub Found : ℕ → Option (Symbol × ℕ) → Type 0
  Found n none = HasNoFunction n
  Found n (some c) = (i : ℕ) × IsNearest n i × (c.0 ≡ symbol mem symtab i) × (c.1 ≡ offset i)

  -- A statement on the symbols before the next holds for it and for those before it.
  one_more : (P : ℕ → Type 0) (n : ℕ) → ((j : ℕ) → j < n → P j) → P n → (j : ℕ) → j < n + 1 → P j
  one_more P n all last j h = elim (Bool-cases (ltb j n)) [
    | inl e ↦ all j (ltb→lt j n e)
    | inr e ↦ subst P (omega (arith, h, ltb→le j n e)) last
  ]

  -- The next symbol is not a function with a smaller offset.
  kept :
      (n : ℕ) (c : Symbol × ℕ)
      → (found : Found n (some c))
      → (is_function (symbol mem symtab n) ≡ true → offset found.0 ≤ offset n)
      → Found (n + 1) (some c)
  kept n c found last = (
    found.0,
    record {
      before = omega (arith, found.1.before);
      function = found.1.function;
      least =
          one_more (λ (j : ℕ). is_function (symbol mem symtab j) ≡ true → offset found.0 ≤ offset j)
            n found.1.least last;
    },
    found.2,
    found.3,
  )

  -- The next symbol is a function with the smallest offset so far.
  taken :
      (n : ℕ)
      → is_function (symbol mem symtab n) ≡ true
      → ((j : ℕ) → j < n → is_function (symbol mem symtab j) ≡ true → offset n ≤ offset j)
      → Found (n + 1) (some (symbol mem symtab n, offset n))
  taken n e least = (
    n,
    record {
      before = omega arith;
      function = e;
      least =
          one_more (λ (j : ℕ). is_function (symbol mem symtab j) ≡ true → offset n ≤ offset j) n
            least (λ t. omega arith);
    },
    refl,
    refl,
  )

  nearer-Found :
      (n : ℕ) (closest : Option (Symbol × ℕ))
      → Found n closest
      → Found (n + 1) (nearer pc (symbol mem symtab n) closest)
  unfolding nearer
  nearer-Found n none found = elim (Bool-cases (is_function (symbol mem symtab n))) [
    | inr e ↦ rw e (one_more _ n found e)
    | inl e ↦ rw e (taken n e (λ j h t. cc (found j h, t)))
  ]
  nearer-Found n (some c) found = elim (Bool-cases (is_function (symbol mem symtab n))) [
    | inr e ↦ rw e (kept n c found (λ t. cc))
    | inl e ↦ elim (Bool-cases (ltb (offset n) c.1)) [
      | inl l ↦
          rw (e, l)
            (taken n e
              (λ j h t. omega (arith, ltb→lt (offset n) c.1 l, found.3, found.1.least j h t)))
      | inr l ↦ rw (e, l) (kept n c found (λ t. omega (arith, ltb→le (offset n) c.1 l, found.3)))
    ]
  ]

  search-Found :
      (n i : ℕ) (closest : Option (Symbol × ℕ))
      → Found i closest
      → Found (i + n) (search mem symtab pc n i closest)
  unfolding search
  search-Found zero i closest found = subst (λ k. Found k closest) (omega arith) found
  search-Found (suc n) i closest found =
      subst
        (λ k. Found k (search mem symtab pc n (i + 1) (nearer pc (symbol mem symtab i) closest)))
        (omega arith)
        (search-Found n (i + 1) (nearer pc (symbol mem symtab i) closest)
          (nearer-Found i closest found))

-- What an answer of `Symbolicate` says.
abbrev pub IsAnswer : Memory → State → ℕ → Symbolicated → Type 0
IsAnswer mem s pc no_symbol = HasNoFunction mem s.symtab pc (num_syms s)
IsAnswer mem s pc (at_symbol name off) =
    (i : ℕ) × IsNearest mem s.symtab pc (num_syms s) i
    × (name ≡ s.strtab + (symbol mem s.symtab i).st_name)
    × (off ≡ offset mem s.symtab pc i)

search-IsAnswer :
    (mem : Memory) (s : State) (pc : ℕ) (closest : Option (Symbol × ℕ))
    → Found mem s.symtab pc (num_syms s) closest
    → IsAnswer mem s pc (elim closest [
      | none ↦ no_symbol
      | some c ↦ at_symbol (s.strtab + c.0.st_name) (sub64 pc c.0.st_value)
    ])
search-IsAnswer mem s pc none found = found
search-IsAnswer mem s pc (some c) found = (
  found.0,
  found.1,
  ap (λ (x : Symbol). s.strtab + x.st_name) found.2,
  ap (λ (x : Symbol). sub64 pc x.st_value) found.2,
)

-- For an address in the kernel's text, when both tables are there: with n the length of the string
-- table divided by the size of a symbol, `Symbolicate` either finds nothing, and then none of the
-- first n symbols is a function; or it gives the name of a function among them, and the offset of
-- the address from it, and no function among them has a smaller offset modulo 2^64.
pub symbolicate_lem :
    (mem : Memory) (text_start text_end pc : ℕ) (s : State)
    → text_start ≤ pc
    → pc ≤ text_end
    → 0 < s.symtab
    → 0 < s.symtab_len
    → 0 < s.strtab
    → 0 < s.strtab_len
    → IsAnswer mem s pc (symbolicate mem text_start text_end s pc)
unfolding symbolicate
symbolicate_lem mem text_start text_end pc s from to h1 h2 h3 h4 =
    rw
      (
        le→ltb pc text_start from,
        le→ltb text_end pc to,
        ==_of_ne s.symtab 0 (omega arith),
        ==_of_ne s.symtab_len 0 (omega arith),
        ==_of_ne s.strtab 0 (omega arith),
        ==_of_ne s.strtab_len 0 (omega arith),
      )
      (search-IsAnswer mem s pc (search mem s.symtab pc (num_syms s) 0 none) (
        subst (λ k. Found mem s.symtab pc k (search mem s.symtab pc (num_syms s) 0 none))
          (omega arith)
          (search-Found mem s.symtab pc (num_syms s) 0 none (λ j h. absurd (omega arith)))))
