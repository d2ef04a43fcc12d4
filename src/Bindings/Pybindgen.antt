-- ===== src/Bindings/Pybindgen.antt =====
-- What the binding script uses of the package pybindgen, which is not part of the repository: a
-- parameter with the documented behaviour of its registry. A module maps the full C++ name of a
-- type to its wrapper; `add_class` and `add_enum` register the name that they are given, and no
-- call takes a registered name away.
use cs621_network_programmin.Common.{String, ◌≡◌, Bool, true, List, [], ◌∷◌, str_concat}
use cs621_network_programmin.Bindings.Syntax.{Keyword, outer_class, template_parameters, Member}

-- The full C++ name of a type: its scope, `::`, its own name, and its template arguments.
abbrev scope : String → List Keyword → String
scope namespace [] = namespace
scope namespace (outer_class key ∷ rest) = key
scope namespace (keyword ∷ rest) = scope namespace rest

abbrev commas : List String → String
commas [] = ""
commas (a ∷ []) = a
commas (a ∷ b ∷ rest) = str_concat a (str_concat ", " (commas (b ∷ rest)))

abbrev arguments : List Keyword → String
arguments [] = ""
arguments (template_parameters types ∷ rest) = str_concat "< " (str_concat (commas types) " >")
arguments (keyword ∷ rest) = arguments rest

unfoldable pub full_name : String → String → List Keyword → String
full_name namespace name keywords =
    str_concat (scope namespace keywords) (str_concat "::" (str_concat name (arguments keywords)))

pub record Pybindgen : Type 1 where
  pub Module : Type 0
  -- `Module(name, cpp_namespace=…)`
  pub new : String → String → Module
  -- `key in root_module`: `root_module[key]` raises KeyError where it is false
  pub has_key : Module → String → Bool
  pub add_class : Module → String → String → List Keyword → Module
  pub add_enum : Module → String → String → List String → List Keyword → Module
  pub add_container : Module → String → List String → String → Module
  pub add_type_alias : Module → String → String → Module
  pub implicitly_converts_to : Module → String → String → Module
  pub add_cpp_namespace : Module → String → String → Module
  pub add_member : Module → String → Member → Module
  pub add_class-registers :
      (m : Module) (ns name : String) (kws : List Keyword)
      → has_key (add_class m ns name kws) (full_name ns name kws) ≡ true
  pub add_class-keeps :
      (m : Module) (ns name : String) (kws : List Keyword) (key : String)
      → has_key m key ≡ true
      → has_key (add_class m ns name kws) key ≡ true
  pub add_enum-registers :
      (m : Module) (ns name : String) (values : List String) (kws : List Keyword)
      → has_key (add_enum m ns name values kws) (full_name ns name kws) ≡ true
  pub add_enum-keeps :
      (m : Module) (ns name : String) (values : List String) (kws : List Keyword) (key : String)
      → has_key m key ≡ true
      → has_key (add_enum m ns name values kws) key ≡ true
  pub add_container-keeps :
      (m : Module) (name : String) (types : List String) (kind key : String)
      → has_key m key ≡ true
      → has_key (add_container m name types kind) key ≡ true
  pub add_type_alias-keeps :
      (m : Module) (from to key : String)
      → has_key m key ≡ true
      → has_key (add_type_alias m from to) key ≡ true
  pub implicitly_converts_to-keeps :
      (m : Module) (from to key : String)
      → has_key m key ≡ true
      → has_key (implicitly_converts_to m from to) key ≡ true
  pub add_cpp_namespace-keeps :
      (m : Module) (ns name key : String)
      → has_key m key ≡ true
      → has_key (add_cpp_namespace m ns name) key ≡ true
  pub add_member-keeps :
      (m : Module) (cls : String) (member : Member) (key : String)
      → has_key m key ≡ true
      → has_key (add_member m cls member) key ≡ true
