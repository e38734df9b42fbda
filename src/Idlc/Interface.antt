-- ===== src/Idlc/Interface.antt =====
-- Interface descriptions: tools/idlc/src/InterfaceDescription.cpp and InterfaceDescription.h. A string
-- is the list of its characters. The C library's `tolower` and `MurmurHash64A`, from another project,
-- are parameters.
use kush_os_rewrite.Base.{
  ℕ, Bool, true, false, ◌&&◌, List, [], ◌∷◌, map, ◌==◌, if◌then◌else◌, Option, none, some,
}

abbrev pub Text : Type 0
Text = List ℕ

-- `==` of strings
abbrev pub same : Text → Text → Bool
same [] [] = true
same [] (d ∷ ds) = false
same (c ∷ cs) [] = false
same (c ∷ cs) (d ∷ ds) = (c == d) && same cs ds

-- The built-in types, in the order of `gPrimitiveTypeNames`, and their names.
pub data Builtin : Type 0 where
  bool int8 int16 int32 int64 uint8 uint16 uint32 uint64 float32 float64 string blob : Builtin

abbrev pub primitive_type_names : List (Text × Builtin)
primitive_type_names =
    (0x62 ∷ 0x6f ∷ 0x6f ∷ 0x6c ∷ [], bool)
    ∷ (0x69 ∷ 0x6e ∷ 0x74 ∷ 0x38 ∷ [], int8)
    ∷ (0x69 ∷ 0x6e ∷ 0x74 ∷ 0x31 ∷ 0x36 ∷ [], int16)
    ∷ (0x69 ∷ 0x6e ∷ 0x74 ∷ 0x33 ∷ 0x32 ∷ [], int32)
    ∷ (0x69 ∷ 0x6e ∷ 0x74 ∷ 0x36 ∷ 0x34 ∷ [], int64)
    ∷ (0x75 ∷ 0x69 ∷ 0x6e ∷ 0x74 ∷ 0x38 ∷ [], uint8)
    ∷ (0x75 ∷ 0x69 ∷ 0x6e ∷ 0x74 ∷ 0x31 ∷ 0x36 ∷ [], uint16)
    ∷ (0x75 ∷ 0x69 ∷ 0x6e ∷ 0x74 ∷ 0x33 ∷ 0x32 ∷ [], uint32)
    ∷ (0x75 ∷ 0x69 ∷ 0x6e ∷ 0x74 ∷ 0x36 ∷ 0x34 ∷ [], uint64)
    ∷ (0x66 ∷ 0x6c ∷ 0x6f ∷ 0x61 ∷ 0x74 ∷ 0x33 ∷ 0x32 ∷ [], float32)
    ∷ (0x66 ∷ 0x6c ∷ 0x6f ∷ 0x61 ∷ 0x74 ∷ 0x36 ∷ 0x34 ∷ [], float64)
    ∷ (0x73 ∷ 0x74 ∷ 0x72 ∷ 0x69 ∷ 0x6e ∷ 0x67 ∷ [], string)
    ∷ (0x62 ∷ 0x6c ∷ 0x6f ∷ 0x62 ∷ [], blob)
    ∷ []

-- `std::find` in that list
unfoldable pub find_builtin : List (Text × Builtin) → Text → Option Builtin
find_builtin [] lower_name = none
find_builtin (n ∷ names) lower_name =
    if same n.0 lower_name then some n.1 else find_builtin names lower_name

-- `isPrimitive` of a built-in type
abbrev pub is_primitive : Builtin → Bool
is_primitive string = false
is_primitive blob = false
is_primitive _ = true

-- `Argument`; the two flags are computed from the type found.
pub record Argument : Type 0 where
  pub name : Text
  pub type_name : Text
  pub found : Option Builtin

-- `Argument()`
unfoldable pub create_argument : (ℕ → ℕ) → Text → Text → Argument
create_argument to_lower name type_name = record {
  name = name;
  type_name = type_name;
  found = find_builtin primitive_type_names (map to_lower type_name);
}

abbrev pub is_builtin_type : Argument → Bool
is_builtin_type a = elim a.found [ none ↦ false | some b ↦ true ]

abbrev pub is_primitive_type : Argument → Bool
is_primitive_type a = elim a.found [ none ↦ false | some b ↦ is_primitive b ]

pub record Method : Type 0 where
  pub name : Text
  pub async : Bool
  pub identifier : ℕ
  pub params : List Argument
  pub returns : List Argument

-- `kMethodNameHashSeed` and `kInterfaceNameHashSeed`
abbrev pub method_name_hash_seed : ℕ
method_name_hash_seed = 0xb64c6ef10b0e96f9

abbrev pub interface_name_hash_seed : ℕ
interface_name_hash_seed = 0x9b06e367bed00bbb

-- `Method()`. The copy whose first letter is made a capital is not used: the name is stored as given.
unfoldable pub create_method : (Text → ℕ → ℕ) → Text → ℕ → Method
create_method murmur_hash name identifier = record {
  name = name;
  async = false;
  identifier = if identifier == 0 then murmur_hash name method_name_hash_seed else identifier;
  params = [];
  returns = [];
}

pub record Interface : Type 0 where
  pub filename : Text
  pub name : Text
  pub methods : List Method
  pub includes : List Text
  pub identifier : ℕ
  pub num_custom_types : ℕ

-- `InterfaceDescription()`
unfoldable pub create_interface : (Text → ℕ → ℕ) → Text → Text → Interface
create_interface murmur_hash name filename = record {
  filename = filename;
  name = name;
  methods = [];
  includes = [];
  identifier = murmur_hash name interface_name_hash_seed;
  num_custom_types = 0;
}
