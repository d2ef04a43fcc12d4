-- ===== src/Bindings/Tests.antt =====
-- The binding script over a pybindgen whose module is the list of its keys.
use cs621_network_programmin.Bindings.Callbacks.{
  callback_classes, callback_types, has_row, registered_callbacks, registered_callbacks-listed,
}
use cs621_network_programmin.Common.{
  String, ◌≡◌, refl, true, List, [], ◌∷◌, contains, str_eq_iff, arith,
}
use cs621_network_programmin.Bindings.Pybindgen.{Pybindgen, full_name}
use cs621_network_programmin.Bindings.Register.{main, register_types, module_init}
use cs621_network_programmin.Bindings.Closed.{Ends}
use cs621_network_programmin.Bindings.Run.{known_types, register_types-total, main-total}
use cs621_network_programmin.Bindings.Concrete.{own_classes, own_keys, pending_of, own-IsConcrete}

contains_self : (key : String) (keys : List String) → contains (key ∷ keys) key ≡ true
unfolding contains
contains_self key keys = ground (arith, str_eq_iff key key)

contains_later :
    (name key : String) (keys : List String)
    → contains keys key ≡ true
    → contains (name ∷ keys) key ≡ true
unfolding contains
contains_later name key keys h = ground arith

abbrev keys_only : Pybindgen
keys_only = record {
  Module = List String;
  new = λ name namespace. [];
  has_key = contains;
  add_class = λ m ns name kws. full_name ns name kws ∷ m;
  add_enum = λ m ns name values kws. full_name ns name kws ∷ m;
  add_container = λ m name types kind. m;
  add_type_alias = λ m from to. m;
  implicitly_converts_to = λ m from to. m;
  add_cpp_namespace = λ m ns name. m;
  add_member = λ m cls member. m;
  add_class-registers = λ m ns name kws. contains_self (full_name ns name kws) m;
  add_class-keeps = λ m ns name kws key. contains_later (full_name ns name kws) key m;
  add_enum-registers = λ m ns name values kws. contains_self (full_name ns name kws) m;
  add_enum-keeps = λ m ns name values kws key. contains_later (full_name ns name kws) key m;
  add_container-keeps = λ m name types kind key h. h;
  add_type_alias-keeps = λ m from to key h. h;
  implicitly_converts_to-keeps = λ m from to key h. h;
  add_cpp_namespace-keeps = λ m ns name key h. h;
  add_member-keeps = λ m cls member key h. h;
}

main-total_example : Ends keys_only known_types (main keys_only)
main-total_example = main-total keys_only

register_types-total_example :
    Ends keys_only known_types (register_types keys_only (module_init keys_only))
register_types-total_example = register_types-total keys_only (module_init keys_only)

own_keys_found :
    own_keys
    ≡ "ns3::PointToPointHelper" ∷ "ns3::PppHeader" ∷ "ns3::PointToPointChannel"
      ∷ "ns3::PointToPointNetDevice" ∷ "ns3::PointToPointRemoteChannel" ∷ []
unfolding own_classes
own_keys_found = refl

own-IsConcrete_example : pending_of "ns3::PointToPointNetDevice" ≡ []
unfolding contains own_classes
own-IsConcrete_example = own-IsConcrete "ns3::PointToPointNetDevice" refl

abbrev pair_of_numbers : List String
pair_of_numbers =
    "void" ∷ "unsigned int" ∷ "unsigned int" ∷ "ns3::empty" ∷ "ns3::empty" ∷ "ns3::empty"
    ∷ "ns3::empty" ∷ "ns3::empty" ∷ "ns3::empty" ∷ "ns3::empty" ∷ []

pair_registered : has_row registered_callbacks pair_of_numbers ≡ true
unfolding has_row callback_types
pair_registered = refl

registered_callbacks-listed_example : has_row callback_classes pair_of_numbers ≡ true
registered_callbacks-listed_example = registered_callbacks-listed pair_of_numbers pair_registered
