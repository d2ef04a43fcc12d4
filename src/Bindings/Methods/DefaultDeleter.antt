-- ===== src/Bindings/Methods/DefaultDeleter.antt =====
-- The `register_…_methods` functions of bindings/modulegen__gcc_LP64.py, lines 1393 to 1707.
use cs621_network_programmin.Common.{List, [], ◌∷◌}
use cs621_network_programmin.Bindings.Syntax.{
  Member, is_const, is_static, param, add_constructor, add_method, add_binary_comparison_operator,
  add_output_stream_operator,
}

abbrev pub register_ns3_default_deleter_ns3_hash_implementation_methods : List Member
register_ns3_default_deleter_ns3_hash_implementation_methods =
    add_constructor [] []
    ∷ add_constructor (param "ns3::DefaultDeleter< ns3::Hash::Implementation > const &" "arg0" ∷ [])
        []
    ∷ add_method "Delete" "void" (param "ns3::Hash::Implementation *" "object" ∷ [])
        (is_static ∷ [])
    ∷ []

abbrev pub register_ns3_default_deleter_ns3_nix_vector_methods : List Member
register_ns3_default_deleter_ns3_nix_vector_methods =
    add_constructor [] []
    ∷ add_constructor (param "ns3::DefaultDeleter< ns3::NixVector > const &" "arg0" ∷ []) []
    ∷ add_method "Delete" "void" (param "ns3::NixVector *" "object" ∷ []) (is_static ∷ [])
    ∷ []

abbrev pub register_ns3_default_deleter_ns3_output_stream_wrapper_methods : List Member
register_ns3_default_deleter_ns3_output_stream_wrapper_methods =
    add_constructor [] []
    ∷ add_constructor (param "ns3::DefaultDeleter< ns3::OutputStreamWrapper > const &" "arg0" ∷ [])
        []
    ∷ add_method "Delete" "void" (param "ns3::OutputStreamWrapper *" "object" ∷ []) (is_static ∷ [])
    ∷ []

abbrev pub register_ns3_default_deleter_ns3_packet_methods : List Member
register_ns3_default_deleter_ns3_packet_methods =
    add_constructor [] []
    ∷ add_constructor (param "ns3::DefaultDeleter< ns3::Packet > const &" "arg0" ∷ []) []
    ∷ add_method "Delete" "void" (param "ns3::Packet *" "object" ∷ []) (is_static ∷ [])
    ∷ []

abbrev pub register_ns3_default_deleter_ns3_trace_source_accessor_methods : List Member
register_ns3_default_deleter_ns3_trace_source_accessor_methods =
    add_constructor [] []
    ∷ add_constructor (param "ns3::DefaultDeleter< ns3::TraceSourceAccessor > const &" "arg0" ∷ [])
        []
    ∷ add_method "Delete" "void" (param "ns3::TraceSourceAccessor *" "object" ∷ []) (is_static ∷ [])
    ∷ []

abbrev pub register_ns3_event_id_methods : List Member
register_ns3_event_id_methods =
    add_binary_comparison_operator "=="
    ∷ add_binary_comparison_operator "!="
    ∷ add_binary_comparison_operator "<"
    ∷ add_constructor (param "ns3::EventId const &" "arg0" ∷ []) []
    ∷ add_constructor [] []
    ∷ add_constructor
        (param "ns3::Ptr< ns3::EventImpl > const &" "impl"
          ∷ param "uint64_t" "ts"
          ∷ param "uint32_t" "context"
          ∷ param "uint32_t" "uid"
          ∷ [])
        []
    ∷ add_method "Cancel" "void" [] []
    ∷ add_method "GetContext" "uint32_t" [] (is_const ∷ [])
    ∷ add_method "GetTs" "uint64_t" [] (is_const ∷ [])
    ∷ add_method "GetUid" "uint32_t" [] (is_const ∷ [])
    ∷ add_method "IsExpired" "bool" [] (is_const ∷ [])
    ∷ add_method "IsRunning" "bool" [] (is_const ∷ [])
    ∷ add_method "PeekEventImpl" "ns3::EventImpl *" [] (is_const ∷ [])
    ∷ []

abbrev pub register_ns3_hasher_methods : List Member
register_ns3_hasher_methods =
    add_constructor (param "ns3::Hasher const &" "arg0" ∷ []) []
    ∷ add_constructor [] []
    ∷ add_constructor (param "ns3::Ptr< ns3::Hash::Implementation >" "hp" ∷ []) []
    ∷ add_method "GetHash32" "uint32_t"
        (param "char const *" "buffer" ∷ param "std::size_t const" "size" ∷ []) []
    ∷ add_method "GetHash32" "uint32_t" (param "std::string const" "s" ∷ []) []
    ∷ add_method "GetHash64" "uint64_t"
        (param "char const *" "buffer" ∷ param "std::size_t const" "size" ∷ []) []
    ∷ add_method "GetHash64" "uint64_t" (param "std::string const" "s" ∷ []) []
    ∷ add_method "clear" "ns3::Hasher &" [] []
    ∷ []

abbrev pub register_ns3_ipv4_address_methods : List Member
register_ns3_ipv4_address_methods =
    add_output_stream_operator
    ∷ add_binary_comparison_operator "=="
    ∷ add_binary_comparison_operator "!="
    ∷ add_binary_comparison_operator "<"
    ∷ add_constructor (param "ns3::Ipv4Address const &" "arg0" ∷ []) []
    ∷ add_constructor [] []
    ∷ add_constructor (param "uint32_t" "address" ∷ []) []
    ∷ add_constructor (param "char const *" "address" ∷ []) []
    ∷ add_method "CombineMask" "ns3::Ipv4Address" (param "ns3::Ipv4Mask const &" "mask" ∷ [])
        (is_const ∷ [])
    ∷ add_method "ConvertFrom" "ns3::Ipv4Address" (param "ns3::Address const &" "address" ∷ [])
        (is_static ∷ [])
    ∷ add_method "Deserialize" "ns3::Ipv4Address" (param "uint8_t const *" "buf" ∷ [])
        (is_static ∷ [])
    ∷ add_method "Get" "uint32_t" [] (is_const ∷ [])
    ∷ add_method "GetAny" "ns3::Ipv4Address" [] (is_static ∷ [])
    ∷ add_method "GetBroadcast" "ns3::Ipv4Address" [] (is_static ∷ [])
    ∷ add_method "GetLoopback" "ns3::Ipv4Address" [] (is_static ∷ [])
    ∷ add_method "GetSubnetDirectedBroadcast" "ns3::Ipv4Address"
        (param "ns3::Ipv4Mask const &" "mask" ∷ []) (is_const ∷ [])
    ∷ add_method "GetZero" "ns3::Ipv4Address" [] (is_static ∷ [])
    ∷ add_method "IsAny" "bool" [] (is_const ∷ [])
    ∷ add_method "IsBroadcast" "bool" [] (is_const ∷ [])
    ∷ add_method "IsEqual" "bool" (param "ns3::Ipv4Address const &" "other" ∷ []) (is_const ∷ [])
    ∷ add_method "IsLocalMulticast" "bool" [] (is_const ∷ [])
    ∷ add_method "IsLocalhost" "bool" [] (is_const ∷ [])
    ∷ add_method "IsMatchingType" "bool" (param "ns3::Address const &" "address" ∷ [])
        (is_static ∷ [])
    ∷ add_method "IsMulticast" "bool" [] (is_const ∷ [])
    ∷ add_method "IsSubnetDirectedBroadcast" "bool" (param "ns3::Ipv4Mask const &" "mask" ∷ [])
        (is_const ∷ [])
    ∷ add_method "Print" "void" (param "std::ostream &" "os" ∷ []) (is_const ∷ [])
    ∷ add_method "Serialize" "void" (param "uint8_t *" "buf" ∷ []) (is_const ∷ [])
    ∷ add_method "Set" "void" (param "uint32_t" "address" ∷ []) []
    ∷ add_method "Set" "void" (param "char const *" "address" ∷ []) []
    ∷ []

abbrev pub register_ns3_ipv4_mask_methods : List Member
register_ns3_ipv4_mask_methods =
    add_output_stream_operator
    ∷ add_binary_comparison_operator "=="
    ∷ add_binary_comparison_operator "!="
    ∷ add_constructor (param "ns3::Ipv4Mask const &" "arg0" ∷ []) []
    ∷ add_constructor [] []
    ∷ add_constructor (param "uint32_t" "mask" ∷ []) []
    ∷ add_constructor (param "char const *" "mask" ∷ []) []
    ∷ add_method "Get" "uint32_t" [] (is_const ∷ [])
    ∷ add_method "GetInverse" "uint32_t" [] (is_const ∷ [])
    ∷ add_method "GetLoopback" "ns3::Ipv4Mask" [] (is_static ∷ [])
    ∷ add_method "GetOnes" "ns3::Ipv4Mask" [] (is_static ∷ [])
    ∷ add_method "GetPrefixLength" "uint16_t" [] (is_const ∷ [])
    ∷ add_method "GetZero" "ns3::Ipv4Mask" [] (is_static ∷ [])
    ∷ add_method "IsEqual" "bool" (param "ns3::Ipv4Mask" "other" ∷ []) (is_const ∷ [])
    ∷ add_method "IsMatch" "bool" (param "ns3::Ipv4Address" "a" ∷ param "ns3::Ipv4Address" "b" ∷ [])
        (is_const ∷ [])
    ∷ add_method "Print" "void" (param "std::ostream &" "os" ∷ []) (is_const ∷ [])
    ∷ add_method "Set" "void" (param "uint32_t" "mask" ∷ []) []
    ∷ []
