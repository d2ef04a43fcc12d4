-- ===== src/Bindings/Run.antt =====
-- The binding script as a whole, over any pybindgen: the names that each part of it registers, and
-- its runs.
use cs621_network_programmin.Common.{String, ◌≡◌, refl, true, false≢true, List, [], contains}
use cs621_network_programmin.Bindings.Pybindgen.{Pybindgen}
use cs621_network_programmin.Bindings.Types.{
  types_through_time_with_unit, types_through_ipv4_mask_checker, types_through_log_node_printer,
  types_hash, types_hash_function, types_traced_value_callback,
}
use cs621_network_programmin.Bindings.Methods.Table.{method_table}
use cs621_network_programmin.Bindings.Register.{
  register_types_ns3_hash, register_types_ns3_hash_function,
  register_types_ns3_traced_value_callback, register_types, register_methods, register_functions,
  main,
}
use cs621_network_programmin.Bindings.Closed.{
  registered, closed, table_closed, Knows, Ends, Ends-bind, Knows-namespace, run_commands-ok,
  run_table-ok,
}

-- The names known after each function body of `register_types`, in the order in which they run.
abbrev known1 : List String
known1 = registered [] "ns3" types_through_time_with_unit

abbrev known2 : List String
known2 = registered known1 "ns3" types_through_ipv4_mask_checker

abbrev known3 : List String
known3 = registered known2 "ns3" types_through_log_node_printer

abbrev known4 : List String
known4 = registered known3 "ns3::Hash" types_hash

abbrev known5 : List String
known5 = registered known4 "ns3::Hash::Function" types_hash_function

-- All the names that `register_types` registers, the last one first.
abbrev pub known_types : List String
known_types = registered known5 "ns3::TracedValueCallback" types_traced_value_callback

closed1 : closed [] "ns3" types_through_time_with_unit ≡ true
unfolding closed registered
closed1 = refl

closed2 : closed known1 "ns3" types_through_ipv4_mask_checker ≡ true
unfolding closed registered
closed2 = refl

closed3 : closed known2 "ns3" types_through_log_node_printer ≡ true
unfolding closed registered
closed3 = refl

closed4 : closed known3 "ns3::Hash" types_hash ≡ true
unfolding closed registered
closed4 = refl

closed5 : closed known4 "ns3::Hash::Function" types_hash_function ≡ true
unfolding closed registered
closed5 = refl

closed6 : closed known5 "ns3::TracedValueCallback" types_traced_value_callback ≡ true
unfolding closed registered
closed6 = refl

closed_methods : table_closed known_types method_table ≡ true
unfolding table_closed registered
closed_methods = refl

module _ (b : Pybindgen) where
  open b use {Module, has_key}

  nothing_known : (m : Module) → Knows b m []
  unfolding contains
  nothing_known m key h = absurd (false≢true h)

  register_types_ns3_hash-Ends :
      (m : Module) → Knows b m known3 → Ends b known5 (register_types_ns3_hash b "ns3::Hash" m)
  unfolding register_types_ns3_hash register_types_ns3_hash_function
  register_types_ns3_hash-Ends m k =
      Ends-bind b known4 known5 _ _ (run_commands-ok b known3 "ns3::Hash" types_hash m k closed4)
        λ m' k'.
          run_commands-ok b known4 "ns3::Hash::Function" types_hash_function
            (b.add_cpp_namespace m' "ns3::Hash" "Function")
            (Knows-namespace b m' known4 "ns3::Hash" "Function" k') closed5

  register_types_ns3_traced_value_callback-Ends :
      (m : Module)
      → Knows b m known5
      → Ends b known_types (register_types_ns3_traced_value_callback b "ns3::TracedValueCallback" m)
  unfolding register_types_ns3_traced_value_callback
  register_types_ns3_traced_value_callback-Ends m k =
      run_commands-ok b known5 "ns3::TracedValueCallback" types_traced_value_callback m k closed6

  -- From any module object, `register_types` ends without a KeyError, and the names of all the
  -- types that it registers are keys of the module that it leaves.
  pub register_types-total : (m : Module) → Ends b known_types (register_types b m)
  unfolding register_types
  register_types-total m =
      Ends-bind b known1 known_types _ _
        (run_commands-ok b [] "ns3" types_through_time_with_unit m (nothing_known m) closed1)
        λ m1 k1.
          Ends-bind b known2 known_types _ _
            (run_commands-ok b known1 "ns3" types_through_ipv4_mask_checker m1 k1 closed2)
            λ m2 k2.
              Ends-bind b known3 known_types _ _
                (run_commands-ok b known2 "ns3" types_through_log_node_printer m2 k2 closed3)
                λ m3 k3.
                  Ends-bind b known5 known_types _ _
                    (register_types_ns3_hash-Ends _ (
                      Knows-namespace b _ known3 "ns3" "Hash"
                        (Knows-namespace b m3 known3 "ns3" "FatalImpl" k3)))
                    λ m5 k5.
                      Ends-bind b known_types known_types _ _
                        (register_types_ns3_traced_value_callback-Ends _
                          (Knows-namespace b m5 known5 "ns3" "TracedValueCallback" k5))
                        λ m6 k6. (_, refl, Knows-namespace b m6 known_types "ns3" "internal" k6)

  -- Once the types are registered, `register_methods` ends without a KeyError.
  pub register_methods-total :
      (m : Module) → Knows b m known_types → Ends b known_types (register_methods b m)
  unfolding register_methods
  register_methods-total m k = run_table-ok b known_types method_table m k closed_methods

  register_functions-Knows :
      (m : Module) (known : List String) → Knows b m known → Knows b (register_functions b m) known
  unfolding register_functions
  register_functions-Knows m known k = Knows-namespace b _ known "ns3" "internal" (
      Knows-namespace b _ known "ns3" "TracedValueCallback" (
        Knows-namespace b _ known "ns3::Hash" "Function"
          (Knows-namespace b _ known "ns3" "Hash" (Knows-namespace b m known "ns3" "FatalImpl" k))))

  -- Over any PyBindGen whose registry behaves as documented, `main` ends without a KeyError, and each
  -- type that `register_types` registers is a key of the module that it hands to the code generator.
  pub main-total : Ends b known_types (main b)
  unfolding main
  main-total = Ends-bind b known_types known_types _ _ (register_types-total _) λ m k.
      Ends-bind b known_types known_types _ _ (register_methods-total m k)
        λ m' k'. (_, refl, register_functions-Knows m' known_types k')
