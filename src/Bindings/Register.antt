-- ===== src/Bindings/Register.antt =====
-- The functions `module_init`, `register_types`, `register_methods`, `register_functions` and `main`
-- of bindings/modulegen__gcc_LP64.py over any pybindgen. The module object is mutable and is the
-- root of every namespace module, so it is passed on as the state; a namespace module is the root
-- with its namespace.
use cs621_network_programmin.Common.{String, List, [], ◌∷◌, ◌++◌, if◌then◌else◌, str_concat}
use cs621_network_programmin.Bindings.Syntax.{
  Keyword, outer_class, parent, Command, add_enum, add_class, add_container, add_type_alias,
  implicitly_converts_to, Member, add_binary_numeric_operator,
}
use cs621_network_programmin.Bindings.Pybindgen.{Pybindgen}
use cs621_network_programmin.Bindings.Types.{
  types_through_time_with_unit, types_through_ipv4_mask_checker, types_through_log_node_printer,
  types_hash, types_hash_function, types_traced_value_callback,
}
use cs621_network_programmin.Bindings.Methods.Table.{method_table}

-- A run of Python statements, which may end in a KeyError.
pub data Outcome {ℓ} (A : Type ℓ) : Type ℓ where
  ok : A → Outcome A
  key_error : String → Outcome A

infixl 5 ◌>>=◌
abbrev pub ◌>>=◌ {ℓ κ} : {A : Type ℓ} {B : Type κ} → Outcome A → (A → Outcome B) → Outcome B
ok a >>= f = f a
key_error k >>= f = key_error k

-- The subscripts `root_module[key]` among the keyword arguments, in the order of evaluation.
unfoldable pub keyword_keys : List Keyword → List String
keyword_keys [] = []
keyword_keys (outer_class key ∷ rest) = key ∷ keyword_keys rest
keyword_keys (parent keys ∷ rest) = keys ++ keyword_keys rest
keyword_keys (keyword ∷ rest) = keyword_keys rest

-- The subscripts of a statement.
unfoldable pub command_keys : Command → List String
unfolding keyword_keys
command_keys (add_enum name values kws) = keyword_keys kws
command_keys (add_class name kws) = keyword_keys kws
command_keys (add_container name types kind) = []
command_keys (add_type_alias from to) = []
command_keys (implicitly_converts_to from to) = from ∷ to ∷ []

unfoldable pub member_keys : Member → List String
member_keys (add_binary_numeric_operator op result left right) = result ∷ left ∷ []
member_keys member = []

module _ (b : Pybindgen) where
  open b use {Module, has_key}

  -- `root_module[key]` for each key in turn
  unfoldable pub look_up : Module → List String → Outcome Module
  look_up m [] = ok m
  look_up m (key ∷ keys) = if has_key m key then look_up m keys else key_error key

  unfoldable pub call : String → Command → Module → Module
  call ns (add_enum name values kws) m = b.add_enum m ns name values kws
  call ns (add_class name kws) m = b.add_class m ns name kws
  call ns (add_container name types kind) m = b.add_container m name types kind
  call ns (add_type_alias from to) m = b.add_type_alias m from to
  call ns (implicitly_converts_to from to) m = b.implicitly_converts_to m from to

  -- A function body: each statement evaluates its subscripts and then makes its call.
  unfoldable pub run_commands : String → List Command → Module → Outcome Module
  unfolding look_up call command_keys
  run_commands ns [] m = ok m
  run_commands ns (c ∷ cs) m = do m' ← look_up m (command_keys c); run_commands ns cs (call ns c m')

  unfoldable pub run_members : String → List Member → Module → Outcome Module
  unfolding look_up member_keys
  run_members cls [] m = ok m
  run_members cls (c ∷ cs) m = do
    m' ← look_up m (member_keys c)
    run_members cls cs (b.add_member m' cls c)

  unfoldable pub run_table : List (String × List Member) → Module → Outcome Module
  unfolding look_up run_members
  run_table [] m = ok m
  run_table ((key, members) ∷ rest) m = do
    m' ← look_up m (key ∷ [])
    m'' ← run_members key members m'
    run_table rest m''

  unfoldable pub module_init : Module
  module_init = b.new "ns.point_to_point" "::ns3"

  unfoldable pub register_types_ns3_hash_function : String → Module → Outcome Module
  unfolding run_commands
  register_types_ns3_hash_function ns m = run_commands ns types_hash_function m

  unfoldable pub register_types_ns3_hash : String → Module → Outcome Module
  register_types_ns3_hash ns m = do
    m' ← run_commands ns types_hash m
    register_types_ns3_hash_function (str_concat ns "::Function")
        (b.add_cpp_namespace m' ns "Function")

  unfoldable pub register_types_ns3_traced_value_callback : String → Module → Outcome Module
  unfolding run_commands
  register_types_ns3_traced_value_callback ns m = run_commands ns types_traced_value_callback m

  -- The namespaces `FatalImpl` and `internal` register nothing.
  unfoldable pub register_types : Module → Outcome Module
  register_types m = do
    m1 ← run_commands "ns3" types_through_time_with_unit m
    m2 ← run_commands "ns3" types_through_ipv4_mask_checker m1
    m3 ← run_commands "ns3" types_through_log_node_printer m2
    let m4 = b.add_cpp_namespace m3 "ns3" "FatalImpl"
    m5 ← register_types_ns3_hash "ns3::Hash" (b.add_cpp_namespace m4 "ns3" "Hash")
    m6 ←
        register_types_ns3_traced_value_callback "ns3::TracedValueCallback"
          (b.add_cpp_namespace m5 "ns3" "TracedValueCallback")
    ok (b.add_cpp_namespace m6 "ns3" "internal")

  unfoldable pub register_methods : Module → Outcome Module
  register_methods m = run_table method_table m

  -- Only the namespaces are opened again: the functions of the namespaces register nothing.
  unfoldable pub register_functions : Module → Module
  register_functions m =
      let fatal = b.add_cpp_namespace m "ns3" "FatalImpl" in
      let hash = b.add_cpp_namespace fatal "ns3" "Hash" in
      let function = b.add_cpp_namespace hash "ns3::Hash" "Function" in
      let traced = b.add_cpp_namespace function "ns3" "TracedValueCallback" in
      b.add_cpp_namespace traced "ns3" "internal"

  -- `main` up to `root_module.generate(out)`, which writes the module that it has built.
  unfoldable pub main : Outcome Module
  main = do m ← register_types module_init; m' ← register_methods m; ok (register_functions m')
