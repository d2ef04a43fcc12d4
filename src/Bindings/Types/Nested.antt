-- ===== src/Bindings/Types/Nested.antt =====
-- The `register_types_ns3_…` functions of bindings/modulegen__gcc_LP64.py, for nested namespaces.
use cs621_network_programmin.Common.{List, [], ◌∷◌}
use cs621_network_programmin.Bindings.Syntax.{
  Command, import_from_module, parent, add_class, add_type_alias,
}

abbrev pub types_hash : List Command
types_hash =
    add_class "Implementation" (
      import_from_module "ns.core"
      ∷ parent (
          "ns3::SimpleRefCount< ns3::Hash::Implementation, ns3::empty, ns3::DefaultDeleter<ns3::Hash::Implementation> >"
          ∷ [])
      ∷ [])
    ∷ add_type_alias "uint32_t ( * ) ( char const *, std::size_t const )"
        "ns3::Hash::Hash32Function_ptr"
    ∷ add_type_alias "uint32_t ( * ) ( char const *, std::size_t const )*"
        "ns3::Hash::Hash32Function_ptr*"
    ∷ add_type_alias "uint32_t ( * ) ( char const *, std::size_t const )&"
        "ns3::Hash::Hash32Function_ptr&"
    ∷ add_type_alias "uint64_t ( * ) ( char const *, std::size_t const )"
        "ns3::Hash::Hash64Function_ptr"
    ∷ add_type_alias "uint64_t ( * ) ( char const *, std::size_t const )*"
        "ns3::Hash::Hash64Function_ptr*"
    ∷ add_type_alias "uint64_t ( * ) ( char const *, std::size_t const )&"
        "ns3::Hash::Hash64Function_ptr&"
    ∷ []

abbrev pub types_hash_function : List Command
types_hash_function =
    add_class "Fnv1a"
      (import_from_module "ns.core" ∷ parent ("ns3::Hash::Implementation" ∷ []) ∷ [])
    ∷ add_class "Hash32"
        (import_from_module "ns.core" ∷ parent ("ns3::Hash::Implementation" ∷ []) ∷ [])
    ∷ add_class "Hash64"
        (import_from_module "ns.core" ∷ parent ("ns3::Hash::Implementation" ∷ []) ∷ [])
    ∷ add_class "Murmur3"
        (import_from_module "ns.core" ∷ parent ("ns3::Hash::Implementation" ∷ []) ∷ [])
    ∷ []

abbrev pub types_traced_value_callback : List Command
types_traced_value_callback =
    add_type_alias "void ( * ) ( ns3::Time, ns3::Time )" "ns3::TracedValueCallback::Time"
    ∷ add_type_alias "void ( * ) ( ns3::Time, ns3::Time )*" "ns3::TracedValueCallback::Time*"
    ∷ add_type_alias "void ( * ) ( ns3::Time, ns3::Time )&" "ns3::TracedValueCallback::Time&"
    ∷ add_type_alias "void ( * ) ( bool, bool )" "ns3::TracedValueCallback::Bool"
    ∷ add_type_alias "void ( * ) ( bool, bool )*" "ns3::TracedValueCallback::Bool*"
    ∷ add_type_alias "void ( * ) ( bool, bool )&" "ns3::TracedValueCallback::Bool&"
    ∷ add_type_alias "void ( * ) ( int8_t, int8_t )" "ns3::TracedValueCallback::Int8"
    ∷ add_type_alias "void ( * ) ( int8_t, int8_t )*" "ns3::TracedValueCallback::Int8*"
    ∷ add_type_alias "void ( * ) ( int8_t, int8_t )&" "ns3::TracedValueCallback::Int8&"
    ∷ add_type_alias "void ( * ) ( uint8_t, uint8_t )" "ns3::TracedValueCallback::Uint8"
    ∷ add_type_alias "void ( * ) ( uint8_t, uint8_t )*" "ns3::TracedValueCallback::Uint8*"
    ∷ add_type_alias "void ( * ) ( uint8_t, uint8_t )&" "ns3::TracedValueCallback::Uint8&"
    ∷ add_type_alias "void ( * ) ( int16_t, int16_t )" "ns3::TracedValueCallback::Int16"
    ∷ add_type_alias "void ( * ) ( int16_t, int16_t )*" "ns3::TracedValueCallback::Int16*"
    ∷ add_type_alias "void ( * ) ( int16_t, int16_t )&" "ns3::TracedValueCallback::Int16&"
    ∷ add_type_alias "void ( * ) ( uint16_t, uint16_t )" "ns3::TracedValueCallback::Uint16"
    ∷ add_type_alias "void ( * ) ( uint16_t, uint16_t )*" "ns3::TracedValueCallback::Uint16*"
    ∷ add_type_alias "void ( * ) ( uint16_t, uint16_t )&" "ns3::TracedValueCallback::Uint16&"
    ∷ add_type_alias "void ( * ) ( int32_t, int32_t )" "ns3::TracedValueCallback::Int32"
    ∷ add_type_alias "void ( * ) ( int32_t, int32_t )*" "ns3::TracedValueCallback::Int32*"
    ∷ add_type_alias "void ( * ) ( int32_t, int32_t )&" "ns3::TracedValueCallback::Int32&"
    ∷ add_type_alias "void ( * ) ( uint32_t, uint32_t )" "ns3::TracedValueCallback::Uint32"
    ∷ add_type_alias "void ( * ) ( uint32_t, uint32_t )*" "ns3::TracedValueCallback::Uint32*"
    ∷ add_type_alias "void ( * ) ( uint32_t, uint32_t )&" "ns3::TracedValueCallback::Uint32&"
    ∷ add_type_alias "void ( * ) ( double, double )" "ns3::TracedValueCallback::Double"
    ∷ add_type_alias "void ( * ) ( double, double )*" "ns3::TracedValueCallback::Double*"
    ∷ add_type_alias "void ( * ) ( double, double )&" "ns3::TracedValueCallback::Double&"
    ∷ add_type_alias "void ( * ) (  )" "ns3::TracedValueCallback::Void"
    ∷ add_type_alias "void ( * ) (  )*" "ns3::TracedValueCallback::Void*"
    ∷ add_type_alias "void ( * ) (  )&" "ns3::TracedValueCallback::Void&"
    ∷ []
