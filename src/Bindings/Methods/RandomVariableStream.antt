-- ===== src/Bindings/Methods/RandomVariableStream.antt =====
-- The `register_…_methods` functions of bindings/modulegen__gcc_LP64.py, lines 3658 to 3809.
use cs621_network_programmin.Common.{List, [], ◌∷◌}
use cs621_network_programmin.Bindings.Syntax.{
  Member, visibility, is_const, is_virtual, is_pure_virtual, is_static, param, add_constructor,
  add_method,
}

abbrev pub register_ns3_random_variable_stream_methods : List Member
register_ns3_random_variable_stream_methods =
    add_method "GetTypeId" "ns3::TypeId" [] (is_static ∷ [])
    ∷ add_constructor [] []
    ∷ add_method "SetStream" "void" (param "int64_t" "stream" ∷ []) []
    ∷ add_method "GetStream" "int64_t" [] (is_const ∷ [])
    ∷ add_method "SetAntithetic" "void" (param "bool" "isAntithetic" ∷ []) []
    ∷ add_method "IsAntithetic" "bool" [] (is_const ∷ [])
    ∷ add_method "GetValue" "double" [] (is_pure_virtual ∷ is_virtual ∷ [])
    ∷ add_method "GetInteger" "uint32_t" [] (is_pure_virtual ∷ is_virtual ∷ [])
    ∷ add_method "Peek" "ns3::RngStream *" [] (is_const ∷ visibility "protected" ∷ [])
    ∷ []

abbrev pub register_ns3_sequential_random_variable_methods : List Member
register_ns3_sequential_random_variable_methods =
    add_method "GetTypeId" "ns3::TypeId" [] (is_static ∷ [])
    ∷ add_constructor [] []
    ∷ add_method "GetMin" "double" [] (is_const ∷ [])
    ∷ add_method "GetMax" "double" [] (is_const ∷ [])
    ∷ add_method "GetIncrement" "ns3::Ptr< ns3::RandomVariableStream >" [] (is_const ∷ [])
    ∷ add_method "GetConsecutive" "uint32_t" [] (is_const ∷ [])
    ∷ add_method "GetValue" "double" [] (is_virtual ∷ [])
    ∷ add_method "GetInteger" "uint32_t" [] (is_virtual ∷ [])
    ∷ []

abbrev pub register_ns3_simple_ref_count_attribute_accessor_methods : List Member
register_ns3_simple_ref_count_attribute_accessor_methods =
    add_constructor [] []
    ∷ add_constructor
        (param
            "ns3::SimpleRefCount< ns3::AttributeAccessor, ns3::empty, ns3::DefaultDeleter< ns3::AttributeAccessor > > const &"
            "o"
          ∷ [])
        []
    ∷ []

abbrev pub register_ns3_simple_ref_count_attribute_checker_methods : List Member
register_ns3_simple_ref_count_attribute_checker_methods =
    add_constructor [] []
    ∷ add_constructor
        (param
            "ns3::SimpleRefCount< ns3::AttributeChecker, ns3::empty, ns3::DefaultDeleter< ns3::AttributeChecker > > const &"
            "o"
          ∷ [])
        []
    ∷ []

abbrev pub register_ns3_simple_ref_count_attribute_value_methods : List Member
register_ns3_simple_ref_count_attribute_value_methods =
    add_constructor [] []
    ∷ add_constructor
        (param
            "ns3::SimpleRefCount< ns3::AttributeValue, ns3::empty, ns3::DefaultDeleter< ns3::AttributeValue > > const &"
            "o"
          ∷ [])
        []
    ∷ []

abbrev pub register_ns3_simple_ref_count_callback_impl_base_methods : List Member
register_ns3_simple_ref_count_callback_impl_base_methods =
    add_constructor [] []
    ∷ add_constructor
        (param
            "ns3::SimpleRefCount< ns3::CallbackImplBase, ns3::empty, ns3::DefaultDeleter< ns3::CallbackImplBase > > const &"
            "o"
          ∷ [])
        []
    ∷ []

abbrev pub register_ns3_simple_ref_count_event_impl_methods : List Member
register_ns3_simple_ref_count_event_impl_methods =
    add_constructor [] []
    ∷ add_constructor
        (param
            "ns3::SimpleRefCount< ns3::EventImpl, ns3::empty, ns3::DefaultDeleter< ns3::EventImpl > > const &"
            "o"
          ∷ [])
        []
    ∷ []

abbrev pub register_ns3_simple_ref_count_hash_implementation_methods : List Member
register_ns3_simple_ref_count_hash_implementation_methods =
    add_constructor [] []
    ∷ add_constructor
        (param
            "ns3::SimpleRefCount< ns3::Hash::Implementation, ns3::empty, ns3::DefaultDeleter< ns3::Hash::Implementation > > const &"
            "o"
          ∷ [])
        []
    ∷ []

abbrev pub register_ns3_simple_ref_count_nix_vector_methods : List Member
register_ns3_simple_ref_count_nix_vector_methods =
    add_constructor [] []
    ∷ add_constructor
        (param
            "ns3::SimpleRefCount< ns3::NixVector, ns3::empty, ns3::DefaultDeleter< ns3::NixVector > > const &"
            "o"
          ∷ [])
        []
    ∷ []

abbrev pub register_ns3_simple_ref_count_output_stream_wrapper_methods : List Member
register_ns3_simple_ref_count_output_stream_wrapper_methods =
    add_constructor [] []
    ∷ add_constructor
        (param
            "ns3::SimpleRefCount< ns3::OutputStreamWrapper, ns3::empty, ns3::DefaultDeleter< ns3::OutputStreamWrapper > > const &"
            "o"
          ∷ [])
        []
    ∷ []

abbrev pub register_ns3_simple_ref_count_packet_methods : List Member
register_ns3_simple_ref_count_packet_methods =
    add_constructor [] []
    ∷ add_constructor
        (param
            "ns3::SimpleRefCount< ns3::Packet, ns3::empty, ns3::DefaultDeleter< ns3::Packet > > const &"
            "o"
          ∷ [])
        []
    ∷ []

abbrev pub register_ns3_simple_ref_count_trace_source_accessor_methods : List Member
register_ns3_simple_ref_count_trace_source_accessor_methods =
    add_constructor [] []
    ∷ add_constructor
        (param
            "ns3::SimpleRefCount< ns3::TraceSourceAccessor, ns3::empty, ns3::DefaultDeleter< ns3::TraceSourceAccessor > > const &"
            "o"
          ∷ [])
        []
    ∷ []
