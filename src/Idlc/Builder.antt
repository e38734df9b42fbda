-- ===== src/Idlc/Builder.antt =====
-- The builder of interface descriptions: tools/idlc/src/InterfaceDescriptionBuilder.cpp and
-- InterfaceDescriptionBuilder.h, with one action for each call that the parser makes. `tolower`,
-- `MurmurHash64A` and `std::stoull` are parameters; `std::stoull` throws where it gives `none`.
pub mod Inversion
pub mod Named
pub mod Steps
pub mod Distinct
pub mod Tests
use kush_os_rewrite.Base.{
  ℕ, zero, suc, ◌+◌, Bool, true, false, not, ◌&&◌, ◌||◌, List, [], ◌∷◌, ◌++◌, map, ◌==◌,
  if◌then◌else◌, Option, none, some,
}
use kush_os_rewrite.Idlc.Interface.{
  Text, same, Argument, create_argument, is_builtin_type, Method, create_method, Interface,
  create_interface,
}

-- How an action ends: a failed `assert`, and an exception.
pub data Result {ℓ} (A : Type ℓ) : Type ℓ where
  ok : A → Result A
  failed thrown null_access : Result A

infixl 5 ◌>>=◌ ◌>>◌
abbrev pub ◌>>=◌ {κ ι} : {S : Type ι} {T : Type κ} → Result S → (S → Result T) → Result T
failed >>= next = failed
thrown >>= next = thrown
null_access >>= next = null_access
ok mid >>= next = next mid

abbrev pub ◌>>◌ {κ} : {T : Type κ} → Result (Unit {0}) → Result T → Result T
first >> rest = first >>= λ _. rest

-- `assert(test)`, and a test that throws where it fails
abbrev pub assert : Bool → Result (Unit {0})
assert true = ok tt
assert false = failed

abbrev pub or_throw : Bool → Result (Unit {0})
or_throw true = ok tt
or_throw false = thrown

pub data ArgContext : Type 0 where
  no_context parameter return : ArgContext

pub record Builder : Type 0 where
  pub filename : Text
  pub current : Option Interface
  pub all_ids : List Interface
  pub current_method : Option Method
  pub arg_context : ArgContext
  pub next_arg_name : Text
  pub next_arg_typename : Text
  pub next_decorator_key : Text
  pub next_decorator_value : Text
  pub decorators : List (Text × Text)
  pub includes : List Text

-- `Builder()`
abbrev pub create : Text → Builder
create filename = record {
  filename = filename;
  current = none;
  all_ids = [];
  current_method = none;
  arg_context = no_context;
  next_arg_name = [];
  next_arg_typename = [];
  next_decorator_key = [];
  next_decorator_value = [];
  decorators = [];
  includes = [];
}

abbrev pub is_some {ℓ} : {A : Type ℓ} → Option A → Bool
is_some none = false
is_some (some a) = true

abbrev pub is_empty {ℓ} : {A : Type ℓ} → List A → Bool
is_empty [] = true
is_empty (x ∷ xs) = false

abbrev pub is_context : ArgContext → ArgContext → Bool
is_context no_context no_context = true
is_context parameter parameter = true
is_context return return = true
is_context _ _ = false

-- A `shared_ptr` that is followed
abbrev pub follow {ℓ} : {A : Type ℓ} → Option A → Result A
follow none = null_access
follow (some a) = ok a

-- `reset`, which leaves the current method and the include paths as they are.
abbrev pub reset : Builder → Builder
reset b = record b {
  current = none;
  all_ids = [];
  arg_context = no_context;
  next_arg_name = [];
  next_arg_typename = [];
  next_decorator_key = [];
  next_decorator_value = [];
  decorators = [];
}

-- `finalize`: the builder, and the interfaces put out.
unfoldable pub finalize : Builder → List Interface → Builder × List Interface
finalize b out =
    (reset b, out ++ map (λ (i : Interface). record i { includes = b.includes }) b.all_ids)

-- The first character, which is 0 for the empty string.
abbrev pub first_char : Text → ℕ
first_char [] = 0
first_char (c ∷ cs) = c

-- The loop over the methods of `beginMethod`
unfoldable pub has_method : List Method → Text → Bool
has_method [] name = false
has_method (m ∷ methods) name = same m.name name || has_method methods name

-- `decorators.count(key)`, and `decorators[key]`
unfoldable pub lookup : List (Text × Text) → Text → Option Text
lookup [] key = none
lookup (d ∷ ds) key = if same d.0 key then some d.1 else lookup ds key

-- "identifier"
abbrev pub identifier_key : Text
identifier_key = 0x69 ∷ 0x64 ∷ 0x65 ∷ 0x6e ∷ 0x74 ∷ 0x69 ∷ 0x66 ∷ 0x69 ∷ 0x65 ∷ 0x72 ∷ []

-- `endInterface`
unfoldable pub end_interface : Builder → Result Builder
end_interface b = do
  assert (is_some b.current)
  i ← follow b.current
  ok (record b { all_ids = b.all_ids ++ i ∷ []; current = none })

-- `setMethodAsync`
unfoldable pub set_method_async : Builder → Bool → Result Builder
set_method_async b is_async = do
  assert (is_some b.current_method)
  m ← follow b.current_method
  ok (record b { current_method = some (record m { async = is_async }) })

-- `beginMethodParams` and `beginMethodReturns`, which enter a context
unfoldable pub begin_context : Builder → ArgContext → Result Builder
begin_context b context = do
  assert (is_some b.current)
  assert (is_some b.current_method)
  assert (is_context b.arg_context no_context)
  ok (record b { arg_context = context })

-- `endMethodParams` and `endMethodReturns`, which leave it
unfoldable pub end_context : Builder → ArgContext → Result Builder
end_context b context = do
  assert (is_some b.current)
  assert (is_some b.current_method)
  assert (is_context b.arg_context context)
  ok (record b { arg_context = no_context })

-- `pushNextDecorator`
unfoldable pub push_next_decorator : Builder → Result Builder
push_next_decorator b = do
  assert (not (is_empty b.next_decorator_key))
  assert (not (is_empty b.next_decorator_value))
  or_throw (not (is_some (lookup b.decorators b.next_decorator_key)))
  ok (record b {
    decorators = (b.next_decorator_key, b.next_decorator_value) ∷ b.decorators;
    next_decorator_key = [];
    next_decorator_value = [];
  })

-- The calls of the parser's actions.
pub data Action : Type 0 where
  on_interface_name on_method_name on_arg_name on_arg_type : Text → Action
  on_decorator_key on_decorator_value on_include : Text → Action
  on_interface_end on_method_end on_arg_end on_decorator_close : Action
  on_async : Bool → Action
  on_open on_close : ArgContext → Action

module _ (to_lower : ℕ → ℕ) (murmur_hash : Text → ℕ → ℕ) (stoull : Text → Option ℕ) where
  -- `beginInterface`
  unfoldable pub begin_interface : Builder → Text → Result Builder
  begin_interface b name = do
    assert (not (is_some b.current))
    ok (record b { current = some (create_interface murmur_hash name b.filename) })

  -- `beginMethod`
  unfoldable pub begin_method : Builder → Text → Result Builder
  begin_method b name = do
    assert (is_some b.current)
    assert (not (is_some b.current_method))
    or_throw (not (first_char name == 0x5f))
    i ← follow b.current
    or_throw (not (has_method i.methods name))
    ok (record b { current_method = some (create_method murmur_hash name 0) })

  -- The identifier that a decorator gives, or the method's own.
  unfoldable pub decorated : List (Text × Text) → Method → Result Method
  decorated decorators m = elim (lookup decorators identifier_key) [
    | none ↦ ok m
    | some text ↦ elim (stoull text) [ none ↦ thrown | some n ↦ ok (record m { identifier = n }) ]
  ]

  -- `endMethod`
  unfoldable pub end_method : Builder → Result Builder
  end_method b = do
    assert (is_some b.current)
    assert (is_some b.current_method)
    m ← follow b.current_method
    m' ← decorated b.decorators m
    i ← follow b.current
    ok (record b {
      decorators = [];
      current = some (record i { methods = i.methods ++ m' ∷ [] });
      current_method = none;
    })

  -- The argument goes to the parameters or to the return values.
  abbrev pub push_to : ArgContext → Method → Argument → Method
  push_to parameter m a = record m { params = m.params ++ a ∷ [] }
  push_to return m a = record m { returns = m.returns ++ a ∷ [] }
  push_to no_context m a = m

  -- The interface counts its custom types; a built-in type does not touch it.
  abbrev pub count_type : Bool → Option Interface → Result (Option Interface)
  count_type true current = ok current
  count_type false current =
      follow current >>= λ i. ok (some (record i { num_custom_types = i.num_custom_types + 1 }))

  -- `pushNextArg`
  unfoldable pub push_next_arg : Builder → Result Builder
  push_next_arg b = do
    assert (is_some b.current_method)
    assert (not (is_context b.arg_context no_context))
    assert (not (is_empty b.next_arg_name))
    assert (not (is_empty b.next_arg_typename))
    current ←
        count_type (is_builtin_type (create_argument to_lower b.next_arg_name b.next_arg_typename))
          b.current
    m ← follow b.current_method
    ok (record b {
      current = current;
      current_method =
          some (
            push_to b.arg_context m (create_argument to_lower b.next_arg_name b.next_arg_typename));
      next_arg_name = [];
      next_arg_typename = [];
    })

  unfoldable pub perform : Builder → Action → Result Builder
  perform b (on_interface_name name) = begin_interface b name
  perform b (on_method_name name) = begin_method b name
  perform b (on_arg_name name) = ok (record b { next_arg_name = name })
  perform b (on_arg_type name) = ok (record b { next_arg_typename = name })
  perform b (on_decorator_key key) = ok (record b { next_decorator_key = key })
  perform b (on_decorator_value value) = ok (record b { next_decorator_value = value })
  perform b (on_include path) = ok (record b { includes = b.includes ++ path ∷ [] })
  perform b on_interface_end = end_interface b
  perform b on_method_end = end_method b
  perform b on_arg_end = push_next_arg b
  perform b on_decorator_close = push_next_decorator b
  perform b (on_async is_async) = set_method_async b is_async
  perform b (on_open context) = begin_context b context
  perform b (on_close context) = end_context b context

  -- The actions of a parse, in their order.
  unfoldable pub perform_all : Builder → List Action → Result Builder
  perform_all b [] = ok b
  perform_all b (act ∷ actions) = perform b act >>= λ b'. perform_all b' actions
