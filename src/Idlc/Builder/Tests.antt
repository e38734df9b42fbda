-- ===== src/Idlc/Builder/Tests.antt =====
-- One interface with one method.
use kush_os_rewrite.Base.{ℕ, List, [], ◌∷◌, none, ◌≡◌, refl, Option, false}
use kush_os_rewrite.Idlc.Interface.{Text}
use kush_os_rewrite.Idlc.Builder.{
  Builder, create, Action, perform_all, Result, ok, on_interface_name, on_method_name, on_open,
  on_arg_name, on_arg_type, on_arg_end, on_close, on_async, on_method_end, on_interface_end,
  parameter,
}
use kush_os_rewrite.Idlc.Builder
use kush_os_rewrite.Idlc.Builder.Named.{IsValid, create-IsValid}
use kush_os_rewrite.Idlc.Builder.Distinct.{perform_all-IsValid}
use kush_os_rewrite.Idlc.Interface

abbrev same_case : ℕ → ℕ
same_case c = c

abbrev some_hash : Text → ℕ → ℕ
some_hash text seed = seed

abbrev no_numbers : Text → Option ℕ
no_numbers text = none

-- "I", "m", and a parameter "x" of type "bool"
abbrev parse : List Action
parse =
    on_interface_name (0x49 ∷ [])
    ∷ on_method_name (0x6d ∷ [])
    ∷ on_open parameter
    ∷ on_arg_name (0x78 ∷ [])
    ∷ on_arg_type (0x62 ∷ 0x6f ∷ 0x6f ∷ 0x6c ∷ [])
    ∷ on_arg_end
    ∷ on_close parameter
    ∷ on_async false
    ∷ on_method_end
    ∷ on_interface_end
    ∷ []

abbrev result_of : Result Builder → Builder
result_of r = elim r [ ok b ↦ b | _ ↦ create [] ]

abbrev parsed : Builder
parsed = result_of (perform_all same_case some_hash no_numbers (create []) parse)

parses : perform_all same_case some_hash no_numbers (create []) parse ≡ ok parsed
unfolding perform_all Builder.perform Builder.begin_interface Builder.begin_method
    Builder.has_method Interface.create_interface Builder.begin_context Builder.push_next_arg
    Interface.create_argument Interface.find_builtin Builder.end_context Builder.set_method_async
    Builder.end_method Builder.decorated Builder.lookup Builder.end_interface
parses = refl

perform_all-IsValid_example : IsValid parsed
perform_all-IsValid_example =
    perform_all-IsValid same_case some_hash no_numbers parse (create []) parsed (create-IsValid [])
      parses
