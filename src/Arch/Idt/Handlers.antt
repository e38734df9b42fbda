-- ===== src/Arch/Idt/Handlers.antt =====
-- The processor's view of the interrupt descriptor table.
use kush_os_rewrite.Base.{
  ℕ, zero, suc, ◌+◌, ◌*◌, ◌^◌, ◌<◌, true, false, arith, List, [], ◌∷◌, length, set, get_or,
  replicate, lt→ltb, if◌then◌else◌, ◌==◌, ==_of_eq, eq_of_==, Bool, not, ltb, ◌&&◌, ◌||◌, ◌⊎◌,
  Bool-cases, inl, inr, Option, none, some,
}
use kush_os_rewrite.Base.{
  ◌≡◌, ◌≢◌, refl, ap, sym, ◌∙◌, done, get_or-set_self, get_or-set_ne, length-set,
}
use kush_os_rewrite.Base.Bits.{bit_and-low}
use kush_os_rewrite.Arch.Idt.{
  IdtEntry, blank, Handler, written, set_entry, install, create, default_handlers,
}

-- The offset of a gate, as the processor's manual places it.
abbrev pub offset_of : IdtEntry → ℕ
offset_of e = e.offset1 + e.offset2 * 2 ^ 16 + e.offset3 * 2 ^ 32

-- The gate as the processor reads it: for the handler at this address, in this segment, with these
-- flags, and on this stack.
pub record IsGate (e : IdtEntry) (function segment flags stack : ℕ) : Type 0 where
  pub offset : offset_of e ≡ function
  pub selector : e.selector ≡ segment
  pub ist : e.ist ≡ stack
  pub flags_lem : e.flags ≡ flags
  pub reserved : e.reserved ≡ 0

-- The vectors of the processor's exceptions: 0 to 20, without 9 and 15.
abbrev pub is_exception : ℕ → Bool
is_exception i = ltb i 21 && not (i == 9) && not (i == 15)

-- The interrupt stack of an exception: 4 for debugging and machine checks, 3 for the NMI, 7 for page
-- faults, 2 for the faults of instructions, and 1 for the others.
abbrev pub stack_of : ℕ → ℕ
stack_of i =
    if i == 1 || i == 3 || i == 18
    then 4
    else if i == 2
    then 3
    else if i == 14
    then 7
    else if i == 6 || i == 7 || i == 8 || i == 13 || i == 16 || i == 17
    then 2
    else 1

-- An interrupt gate for the NMI, and trap gates for the others; all are present, for ring 0.
abbrev pub flags_of : ℕ → ℕ
flags_of i = if i == 2 then 0x8e else 0x8f

-- The last handler of the list for an index.
unfoldable pub handler_for : List Handler → ℕ → Option Handler
handler_for [] i = none
handler_for (h ∷ handlers) i = elim (handler_for handlers i) [
  | some h' ↦ some h'
  | none ↦ if h.idt_index == i then some h else none
]

-- `set` of an entry in the table: the processor reads the whole address of the function from it, and
-- the selector, the stack and the flags as given; the reserved bits and all other entries are as
-- before.
set_entry-written :
    (idt : List IdtEntry) (entry function segment flags stack : ℕ)
    → length idt ≡ 256
    → entry < 256
    → function < 2 ^ 64
    → segment < 2 ^ 16
    → flags < 256
    → (idt' : List IdtEntry) × (set_entry idt entry function segment flags stack ≡ done idt')
      × (offset_of (get_or idt' entry blank) ≡ function)
      × ((get_or idt' entry blank).selector ≡ segment)
      × ((get_or idt' entry blank).ist ≡ stack)
      × ((get_or idt' entry blank).flags ≡ flags)
      × ((get_or idt' entry blank).reserved ≡ (get_or idt entry blank).reserved)
      × ((i : ℕ) → i ≢ entry → get_or idt' i blank ≡ get_or idt i blank)
unfolding set_entry
set_entry-written idt entry function segment flags stack full small fits selects byte =
    let e : IdtEntry = written (get_or idt entry blank) function segment flags stack in
    let self : get_or (set idt entry e) entry blank ≡ e =
      get_or-set_self idt entry e blank (omega (arith, full)) in
    (
      set idt entry e,
      rw (lt→ltb entry 256 small),
      rw self (omega (arith, bit_and-low 16 function)),
      rw self (omega arith),
      rw self,
      rw self (omega arith),
      rw self,
      λ i ne. get_or-set_ne idt entry i e blank (λ q. ne (sym q)),
    )

-- What an entry holds after a list of handlers.
abbrev after : IdtEntry → Option Handler → IdtEntry
after old none = old
after old (some h) = written old h.function h.segment h.flags h.stack

AreSmall : List Handler → Type 0
AreSmall [] = Unit
AreSmall (h ∷ handlers) = (h.idt_index < 256) × AreSmall handlers

after_set :
    (idt : List IdtEntry) (h : Handler) (i : ℕ) (later : Option Handler)
    → h.idt_index < length idt
    → after
        (get_or (set idt h.idt_index (after (get_or idt h.idt_index blank) (some h))) i blank)
        later
      ≡ after
          (get_or idt i blank)
          (elim later [ some h' ↦ some h' | none ↦ if h.idt_index == i then some h else none ])
after_set idt h i later inside = elim (Bool-cases (h.idt_index == i)) [
  | inl q ↦ at_index later i (eq_of_== h.idt_index i q)
  | inr q ↦
      ap (λ (x : IdtEntry). after x later)
        (get_or-set_ne idt h.idt_index i (after (get_or idt h.idt_index blank) (some h)) blank
          (λ e. absurd (false_true (sym q ∙ ==_of_eq h.idt_index i e))))
      ∙ elsewhere later q
]
  where
    false_true : false ≡ true → ⊥
    false_true e = cc

    elsewhere :
        (later : Option Handler)
        → (h.idt_index == i) ≡ false
        → after (get_or idt i blank) later
          ≡ after
              (get_or idt i blank)
              (elim later [ some h' ↦ some h' | none ↦ if h.idt_index == i then some h else none ])
    elsewhere none q = rw q
    elsewhere (some h') q = refl

    at_index :
        (later : Option Handler) (j : ℕ)
        → h.idt_index ≡ j
        → after
            (get_or (set idt h.idt_index (after (get_or idt h.idt_index blank) (some h))) j blank)
            later
          ≡ after
              (get_or idt j blank)
              (elim later [ some h' ↦ some h' | none ↦ if h.idt_index == j then some h else none ])
    at_index none j e = rw (
      sym e,
      ==_of_eq h.idt_index h.idt_index refl,
      get_or-set_self idt h.idt_index (after (get_or idt h.idt_index blank) (some h)) blank inside,
    )
    at_index (some h') j e = rw (
      sym e,
      get_or-set_self idt h.idt_index (after (get_or idt h.idt_index blank) (some h)) blank inside,
    )

install_lem :
    (handlers : List Handler) (idt : List IdtEntry)
    → length idt ≡ 256
    → AreSmall handlers
    → (idt' : List IdtEntry) × (install idt handlers ≡ done idt')
      × ((i : ℕ) → get_or idt' i blank ≡ after (get_or idt i blank) (handler_for handlers i))
unfolding install set_entry handler_for AreSmall
install_lem [] idt full small = (idt, refl, λ i. refl)
install_lem (h ∷ handlers) idt full small =
    let e : IdtEntry = after (get_or idt h.idt_index blank) (some h) in
    let rest =
      install_lem handlers (set idt h.idt_index e) (length-set idt h.idt_index e ∙ full) small.1 in
    (
      rest.0,
      rw (lt→ltb h.idt_index 256 small.0) rest.1,
      λ i. rest.2 i ∙ after_set idt h i (handler_for handlers i) (omega (arith, full, small.0)),
    )

get_or-replicate : (n : ℕ) (e : IdtEntry) (i : ℕ) → get_or (replicate n e) i e ≡ e
get_or-replicate zero e i = refl
get_or-replicate (suc n) e zero = refl
get_or-replicate (suc n) e (suc i) = get_or-replicate n e i

small_indices : (address : ℕ → ℕ) → AreSmall (default_handlers address)
unfolding AreSmall
small_indices address = ground arith

-- What holds of all handlers of a list holds of the one for an index.
Every : (Handler → Type 0) → List Handler → Type 0
Every P [] = Unit
Every P (h ∷ handlers) = P h × Every P handlers

has_index : List Handler → ℕ → Bool
has_index [] i = false
has_index (h ∷ handlers) i = (h.idt_index == i) || has_index handlers i

-- What a list of handlers gives for an index, if the list has it.
record Chosen (P : Handler → Type 0) (handlers : List Handler) (i : ℕ) : Type 0 where
  handler : Handler
  chosen : handler_for handlers i ≡ some handler
  index_lem : handler.idt_index ≡ i
  holds : P handler

handler_for-Chosen :
    (P : Handler → Type 0) (handlers : List Handler) (i : ℕ)
    → Every P handlers
    → (has_index handlers i ≡ true) × Chosen P handlers i
      ⊎ (has_index handlers i ≡ false) × (handler_for handlers i ≡ none)
unfolding Every has_index handler_for
handler_for-Chosen P [] i every = inr (refl, refl)
handler_for-Chosen P (h ∷ handlers) i every = elim (handler_for-Chosen P handlers i every.1) [
  | inl c ↦ inl (
    or-true (h.idt_index == i) (has_index handlers i) c.0,
    record {
      handler = c.1.handler;
      chosen = rw c.1.chosen refl;
      index_lem = c.1.index_lem;
      holds = c.1.holds;
    },
  )
  | inr n ↦ elim (Bool-cases (h.idt_index == i)) [
    | inl q ↦ inl (
      rw q refl,
      record {
        handler = h;
        chosen = rw (n.1, q) refl;
        index_lem = eq_of_== h.idt_index i q;
        holds = every.0;
      },
    )
    | inr q ↦ inr (rw (q, n.0) refl, rw (n.1, q) refl)
  ]
]
  where
    or-true : (b c : Bool) → c ≡ true → (b || c) ≡ true
    or-true true c e = refl
    or-true false c e = e

-- An entry of the list agrees with the vector's gate.
IsExpected : (ℕ → ℕ) → Handler → Type 0
IsExpected address h =
    (h.function ≡ address h.idt_index)
    × (h.segment ≡ 0x8)
    × (h.flags ≡ flags_of h.idt_index)
    × (h.stack ≡ stack_of h.idt_index)

default_handlers-IsExpected :
    (address : ℕ → ℕ) → Every (IsExpected address) (default_handlers address)
unfolding Every IsExpected
default_handlers-IsExpected address = (
  (refl, refl, refl, refl),
  (
    (refl, refl, refl, refl),
    (
      (refl, refl, refl, refl),
      (
        (refl, refl, refl, refl),
        (
          (refl, refl, refl, refl),
          (
            (refl, refl, refl, refl),
            (
              (refl, refl, refl, refl),
              (
                (refl, refl, refl, refl),
                (
                  (refl, refl, refl, refl),
                  (
                    (refl, refl, refl, refl),
                    (
                      (refl, refl, refl, refl),
                      (
                        (refl, refl, refl, refl),
                        (
                          (refl, refl, refl, refl),
                          (
                            (refl, refl, refl, refl),
                            (
                              (refl, refl, refl, refl),
                              (
                                (refl, refl, refl, refl),
                                (
                                  (refl, refl, refl, refl),
                                  ((refl, refl, refl, refl), ((refl, refl, refl, refl), tt)),
                                ),
                              ),
                            ),
                          ),
                        ),
                      ),
                    ),
                  ),
                ),
              ),
            ),
          ),
        ),
      ),
    ),
  ),
)

exceptions : (address : ℕ → ℕ) (i : ℕ) → has_index (default_handlers address) i ≡ is_exception i
unfolding has_index
exceptions address i = ground arith

written-IsGate :
    (function segment flags stack : ℕ)
    → function < 2 ^ 64
    → segment < 2 ^ 16
    → flags < 256
    → IsGate (written blank function segment flags stack) function segment flags stack
written-IsGate function segment flags stack fits selects byte = record {
  offset = omega (arith, bit_and-low 16 function, fits);
  selector = omega (arith, selects);
  ist = refl;
  flags_lem = omega (arith, byte);
  reserved = refl;
}

-- The gate of a handler that is as expected.
expected-IsGate :
    (address : ℕ → ℕ) (h : Handler) (i : ℕ)
    → address i < 2 ^ 64
    → h.idt_index ≡ i
    → IsExpected address h
    → IsGate
        (written blank h.function h.segment h.flags h.stack)
        (address i)
        0x8
        (flags_of i)
        (stack_of i)
unfolding IsExpected
expected-IsGate address h i fits is (function, segment, flags, stack) =
    rw
      (
        function ∙ ap address is,
        segment,
        flags ∙ ap (λ (j : ℕ). flags_of j) is,
        stack ∙ ap (λ (j : ℕ). stack_of j) is,
      )
      (written-IsGate (address i) 0x8 (flags_of i) (stack_of i) fits (omega arith) (small i))
  where
    small : (i : ℕ) → flags_of i < 256
    small i = ground arith

-- The table that the constructor makes, from any 64-bit addresses of handlers. For each exception of
-- the processor, the vectors 0 to 20 without 9 and 15, the processor reads from it the whole address
-- of that vector's handler, the kernel's code segment, a present gate for ring 0, which is an interrupt
-- gate for the NMI and else a trap gate, and the vector's own interrupt stack. All other entries are
-- blank, so not present.
pub create_lem :
    (address : ℕ → ℕ)
    → ((i : ℕ) → address i < 2 ^ 64)
    → (idt' : List IdtEntry) × (create address ≡ done idt')
      × ((i : ℕ)
          → is_exception i ≡ true
          → IsGate (get_or idt' i blank) (address i) 0x8 (flags_of i) (stack_of i))
      × ((i : ℕ) → is_exception i ≡ false → get_or idt' i blank ≡ blank)
unfolding create
create_lem address fits =
    let made =
      install_lem (default_handlers address) (replicate 256 blank) refl (small_indices address) in
    (made.0, made.1, λ i e. gates made.0 i (made.2 i) e, λ i e. blanks made.0 i (made.2 i) e)
  where
    chosen :
        (i : ℕ)
        → (has_index (default_handlers address) i ≡ true)
            × Chosen (IsExpected address) (default_handlers address) i
          ⊎ (has_index (default_handlers address) i ≡ false)
            × (handler_for (default_handlers address) i ≡ none)
    chosen i =
        handler_for-Chosen (IsExpected address) (default_handlers address) i
          (default_handlers-IsExpected address)

    false_true : false ≡ true → ⊥
    false_true e = cc

    gates :
        (idt' : List IdtEntry) (i : ℕ)
        → get_or idt' i blank
          ≡ after (get_or (replicate 256 blank) i blank) (handler_for (default_handlers address) i)
        → is_exception i ≡ true
        → IsGate (get_or idt' i blank) (address i) 0x8 (flags_of i) (stack_of i)
    gates idt' i is e = elim (chosen i) [
      | inr n ↦ absurd (false_true (sym n.0 ∙ exceptions address i ∙ e))
      | inl c ↦
          rw (is, c.1.chosen, get_or-replicate 256 blank i)
            (expected-IsGate address c.1.handler i (fits i) c.1.index_lem c.1.holds)
    ]

    blanks :
        (idt' : List IdtEntry) (i : ℕ)
        → get_or idt' i blank
          ≡ after (get_or (replicate 256 blank) i blank) (handler_for (default_handlers address) i)
        → is_exception i ≡ false
        → get_or idt' i blank ≡ blank
    blanks idt' i is e = elim (chosen i) [
      | inl c ↦ absurd (false_true (sym e ∙ sym (exceptions address i) ∙ c.0))
      | inr n ↦ is ∙ rw (n.1, get_or-replicate 256 blank i) refl
    ]
