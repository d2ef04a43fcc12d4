-- ===== src/Bindings/Syntax.antt =====
-- The calls that the binding script bindings/modulegen__gcc_LP64.py makes on PyBindGen, as data.
-- A text that stands for a class is the key under which the script finds it, `root_module[key]`.
use cs621_network_programmin.Common.{String, Bool, List}

-- The keyword arguments of the calls on a module and of those on a class. The flags of methods are
-- given as `True` wherever they stand.
pub data Keyword : Type 0 where
  import_from_module outer_class destructor_visibility visibility custom_name : String → Keyword
  parent template_parameters : List String → Keyword
  allow_subclassing automatic_type_narrowing : Bool → Keyword
  memory_policy : (incref decref peekref : String) → Keyword
  is_const is_virtual is_pure_virtual is_static deprecated : Keyword

-- One statement of a `register_types` function.
pub data Command : Type 0 where
  add_enum : String → List String → List Keyword → Command
  add_class : String → List Keyword → Command
  add_container : String → List String → String → Command
  add_type_alias : String → String → Command
  implicitly_converts_to : String → String → Command

-- The keyword arguments of `param`.
pub data ParamKeyword : Type 0 where
  default_value : String → ParamKeyword
  transfer_ownership : Bool → ParamKeyword

-- `param(type, name)`, without and with keyword arguments.
pub data Param : Type 0 where
  param : String → String → Param
  param_with : String → String → List ParamKeyword → Param

-- One statement of a `register_…_methods` function, a call on its argument `cls`.
pub data Member : Type 0 where
  add_constructor : List Param → List Keyword → Member
  add_method : String → String → List Param → List Keyword → Member
  add_instance_attribute : String → String → Bool → Member
  add_static_attribute : String → String → Bool → Member
  add_binary_comparison_operator : String → Member
  add_output_stream_operator : Member
  add_binary_numeric_operator : String → String → String → Param → Member
  add_inplace_numeric_operator : String → Param → Member
  add_unary_numeric_operator : String → Member
