-- ===== src/Bindings/Methods/Ipv6Address.antt =====
-- The `register_…_methods` functions of bindings/modulegen__gcc_LP64.py, lines 1709 to 2182.
use cs621_network_programmin.Common.{List, [], ◌∷◌}
use cs621_network_programmin.Bindings.Syntax.{
  Member, is_const, is_static, deprecated, default_value, param, param_with, add_constructor,
  add_method, add_binary_comparison_operator, add_output_stream_operator,
}

abbrev pub register_ns3_ipv6_address_methods : List Member
register_ns3_ipv6_address_methods =
    add_output_stream_operator
    ∷ add_binary_comparison_operator "=="
    ∷ add_binary_comparison_operator "!="
    ∷ add_binary_comparison_operator "<"
    ∷ add_constructor [] []
    ∷ add_constructor (param "char const *" "address" ∷ []) []
    ∷ add_constructor (param "uint8_t *" "address" ∷ []) []
    ∷ add_constructor (param "ns3::Ipv6Address const &" "addr" ∷ []) []
    ∷ add_constructor (param "ns3::Ipv6Address const *" "addr" ∷ []) []
    ∷ add_method "CombinePrefix" "ns3::Ipv6Address" (param "ns3::Ipv6Prefix const &" "prefix" ∷ [])
        []
    ∷ add_method "ConvertFrom" "ns3::Ipv6Address" (param "ns3::Address const &" "address" ∷ [])
        (is_static ∷ [])
    ∷ add_method "Deserialize" "ns3::Ipv6Address" (param "uint8_t const *" "buf" ∷ [])
        (is_static ∷ [])
    ∷ add_method "GetAllHostsMulticast" "ns3::Ipv6Address" [] (is_static ∷ [])
    ∷ add_method "GetAllNodesMulticast" "ns3::Ipv6Address" [] (is_static ∷ [])
    ∷ add_method "GetAllRoutersMulticast" "ns3::Ipv6Address" [] (is_static ∷ [])
    ∷ add_method "GetAny" "ns3::Ipv6Address" [] (is_static ∷ [])
    ∷ add_method "GetBytes" "void" (param "uint8_t *" "buf" ∷ []) (is_const ∷ [])
    ∷ add_method "GetIpv4MappedAddress" "ns3::Ipv4Address" [] (is_const ∷ [])
    ∷ add_method "GetLoopback" "ns3::Ipv6Address" [] (is_static ∷ [])
    ∷ add_method "GetOnes" "ns3::Ipv6Address" [] (is_static ∷ [])
    ∷ add_method "GetZero" "ns3::Ipv6Address" [] (is_static ∷ [])
    ∷ add_method "IsAllHostsMulticast" "bool" [] (deprecated ∷ is_const ∷ [])
    ∷ add_method "IsAllNodesMulticast" "bool" [] (is_const ∷ [])
    ∷ add_method "IsAllRoutersMulticast" "bool" [] (is_const ∷ [])
    ∷ add_method "IsAny" "bool" [] (is_const ∷ [])
    ∷ add_method "IsDocumentation" "bool" [] (is_const ∷ [])
    ∷ add_method "IsEqual" "bool" (param "ns3::Ipv6Address const &" "other" ∷ []) (is_const ∷ [])
    ∷ add_method "IsIpv4MappedAddress" "bool" [] (is_const ∷ [])
    ∷ add_method "IsLinkLocal" "bool" [] (is_const ∷ [])
    ∷ add_method "IsLinkLocalMulticast" "bool" [] (is_const ∷ [])
    ∷ add_method "IsLocalhost" "bool" [] (is_const ∷ [])
    ∷ add_method "IsMatchingType" "bool" (param "ns3::Address const &" "address" ∷ [])
        (is_static ∷ [])
    ∷ add_method "IsMulticast" "bool" [] (is_const ∷ [])
    ∷ add_method "IsSolicitedMulticast" "bool" [] (is_const ∷ [])
    ∷ add_method "MakeAutoconfiguredAddress" "ns3::Ipv6Address"
        (param "ns3::Mac16Address" "addr" ∷ param "ns3::Ipv6Address" "prefix" ∷ []) (is_static ∷ [])
    ∷ add_method "MakeAutoconfiguredAddress" "ns3::Ipv6Address"
        (param "ns3::Mac48Address" "addr" ∷ param "ns3::Ipv6Address" "prefix" ∷ []) (is_static ∷ [])
    ∷ add_method "MakeAutoconfiguredAddress" "ns3::Ipv6Address"
        (param "ns3::Mac64Address" "addr" ∷ param "ns3::Ipv6Address" "prefix" ∷ []) (is_static ∷ [])
    ∷ add_method "MakeAutoconfiguredAddress" "ns3::Ipv6Address"
        (param "ns3::Mac8Address" "addr" ∷ param "ns3::Ipv6Address" "prefix" ∷ []) (is_static ∷ [])
    ∷ add_method "MakeAutoconfiguredLinkLocalAddress" "ns3::Ipv6Address"
        (param "ns3::Mac16Address" "mac" ∷ []) (is_static ∷ [])
    ∷ add_method "MakeAutoconfiguredLinkLocalAddress" "ns3::Ipv6Address"
        (param "ns3::Mac48Address" "mac" ∷ []) (is_static ∷ [])
    ∷ add_method "MakeAutoconfiguredLinkLocalAddress" "ns3::Ipv6Address"
        (param "ns3::Mac64Address" "mac" ∷ []) (is_static ∷ [])
    ∷ add_method "MakeAutoconfiguredLinkLocalAddress" "ns3::Ipv6Address"
        (param "ns3::Mac8Address" "mac" ∷ []) (is_static ∷ [])
    ∷ add_method "MakeIpv4MappedAddress" "ns3::Ipv6Address" (param "ns3::Ipv4Address" "addr" ∷ [])
        (is_static ∷ [])
    ∷ add_method "MakeSolicitedAddress" "ns3::Ipv6Address" (param "ns3::Ipv6Address" "addr" ∷ [])
        (is_static ∷ [])
    ∷ add_method "Print" "void" (param "std::ostream &" "os" ∷ []) (is_const ∷ [])
    ∷ add_method "Serialize" "void" (param "uint8_t *" "buf" ∷ []) (is_const ∷ [])
    ∷ add_method "Set" "void" (param "char const *" "address" ∷ []) []
    ∷ add_method "Set" "void" (param "uint8_t *" "address" ∷ []) []
    ∷ []

abbrev pub register_ns3_ipv6_prefix_methods : List Member
register_ns3_ipv6_prefix_methods =
    add_output_stream_operator
    ∷ add_binary_comparison_operator "=="
    ∷ add_binary_comparison_operator "!="
    ∷ add_constructor [] []
    ∷ add_constructor (param "uint8_t *" "prefix" ∷ []) []
    ∷ add_constructor (param "char const *" "prefix" ∷ []) []
    ∷ add_constructor (param "uint8_t" "prefix" ∷ []) []
    ∷ add_constructor (param "ns3::Ipv6Prefix const &" "prefix" ∷ []) []
    ∷ add_constructor (param "ns3::Ipv6Prefix const *" "prefix" ∷ []) []
    ∷ add_method "GetBytes" "void" (param "uint8_t *" "buf" ∷ []) (is_const ∷ [])
    ∷ add_method "GetLoopback" "ns3::Ipv6Prefix" [] (is_static ∷ [])
    ∷ add_method "GetOnes" "ns3::Ipv6Prefix" [] (is_static ∷ [])
    ∷ add_method "GetPrefixLength" "uint8_t" [] (is_const ∷ [])
    ∷ add_method "GetZero" "ns3::Ipv6Prefix" [] (is_static ∷ [])
    ∷ add_method "IsEqual" "bool" (param "ns3::Ipv6Prefix const &" "other" ∷ []) (is_const ∷ [])
    ∷ add_method "IsMatch" "bool" (param "ns3::Ipv6Address" "a" ∷ param "ns3::Ipv6Address" "b" ∷ [])
        (is_const ∷ [])
    ∷ add_method "Print" "void" (param "std::ostream &" "os" ∷ []) (is_const ∷ [])
    ∷ []

abbrev pub register_ns3_log_component_methods : List Member
register_ns3_log_component_methods =
    add_constructor (param "ns3::LogComponent const &" "arg0" ∷ []) []
    ∷ add_constructor
        (param "std::string const &" "name"
          ∷ param "std::string const &" "file"
          ∷ param_with "ns3::LogLevel const" "mask" (default_value "::ns3::LogLevel::LOG_NONE" ∷ [])
          ∷ [])
        []
    ∷ add_method "Disable" "void" (param "ns3::LogLevel const" "level" ∷ []) []
    ∷ add_method "Enable" "void" (param "ns3::LogLevel const" "level" ∷ []) []
    ∷ add_method "File" "std::string" [] (is_const ∷ [])
    ∷ add_method "GetComponentList" "ns3::LogComponent::ComponentList *" [] (is_static ∷ [])
    ∷ add_method "GetLevelLabel" "std::string" (param "ns3::LogLevel const" "level" ∷ [])
        (is_static ∷ [])
    ∷ add_method "IsEnabled" "bool" (param "ns3::LogLevel const" "level" ∷ []) (is_const ∷ [])
    ∷ add_method "IsNoneEnabled" "bool" [] (is_const ∷ [])
    ∷ add_method "Name" "char const *" [] (is_const ∷ [])
    ∷ add_method "SetMask" "void" (param "ns3::LogLevel const" "level" ∷ []) []
    ∷ []

abbrev pub register_ns3_mac48_address_methods : List Member
register_ns3_mac48_address_methods =
    add_binary_comparison_operator "=="
    ∷ add_binary_comparison_operator "!="
    ∷ add_binary_comparison_operator "<"
    ∷ add_output_stream_operator
    ∷ add_constructor (param "ns3::Mac48Address const &" "arg0" ∷ []) []
    ∷ add_constructor [] []
    ∷ add_constructor (param "char const *" "str" ∷ []) []
    ∷ add_method "Allocate" "ns3::Mac48Address" [] (is_static ∷ [])
    ∷ add_method "ConvertFrom" "ns3::Mac48Address" (param "ns3::Address const &" "address" ∷ [])
        (is_static ∷ [])
    ∷ add_method "CopyFrom" "void" (param "uint8_t const *" "buffer" ∷ []) []
    ∷ add_method "CopyTo" "void" (param "uint8_t *" "buffer" ∷ []) (is_const ∷ [])
    ∷ add_method "GetBroadcast" "ns3::Mac48Address" [] (is_static ∷ [])
    ∷ add_method "GetMulticast" "ns3::Mac48Address" (param "ns3::Ipv4Address" "address" ∷ [])
        (is_static ∷ [])
    ∷ add_method "GetMulticast" "ns3::Mac48Address" (param "ns3::Ipv6Address" "address" ∷ [])
        (is_static ∷ [])
    ∷ add_method "GetMulticast6Prefix" "ns3::Mac48Address" [] (is_static ∷ [])
    ∷ add_method "GetMulticastPrefix" "ns3::Mac48Address" [] (is_static ∷ [])
    ∷ add_method "IsBroadcast" "bool" [] (is_const ∷ [])
    ∷ add_method "IsGroup" "bool" [] (is_const ∷ [])
    ∷ add_method "IsMatchingType" "bool" (param "ns3::Address const &" "address" ∷ [])
        (is_static ∷ [])
    ∷ []

abbrev pub register_ns3_mac8_address_methods : List Member
register_ns3_mac8_address_methods =
    add_binary_comparison_operator "<"
    ∷ add_binary_comparison_operator "=="
    ∷ add_binary_comparison_operator "!="
    ∷ add_output_stream_operator
    ∷ add_constructor (param "ns3::Mac8Address const &" "arg0" ∷ []) []
    ∷ add_constructor [] []
    ∷ add_constructor (param "uint8_t" "addr" ∷ []) []
    ∷ add_method "Allocate" "ns3::Mac8Address" [] (is_static ∷ [])
    ∷ add_method "ConvertFrom" "ns3::Mac8Address" (param "ns3::Address const &" "address" ∷ [])
        (is_static ∷ [])
    ∷ add_method "CopyFrom" "void" (param "uint8_t const *" "pBuffer" ∷ []) []
    ∷ add_method "CopyTo" "void" (param "uint8_t *" "pBuffer" ∷ []) (is_const ∷ [])
    ∷ add_method "GetBroadcast" "ns3::Mac8Address" [] (is_static ∷ [])
    ∷ add_method "IsMatchingType" "bool" (param "ns3::Address const &" "address" ∷ [])
        (is_static ∷ [])
    ∷ []

abbrev pub register_ns3_net_device_container_methods : List Member
register_ns3_net_device_container_methods =
    add_constructor (param "ns3::NetDeviceContainer const &" "arg0" ∷ []) []
    ∷ add_constructor [] []
    ∷ add_constructor (param "ns3::Ptr< ns3::NetDevice >" "dev" ∷ []) []
    ∷ add_constructor (param "std::string" "devName" ∷ []) []
    ∷ add_constructor
        (param "ns3::NetDeviceContainer const &" "a"
          ∷ param "ns3::NetDeviceContainer const &" "b"
          ∷ [])
        []
    ∷ add_method "Add" "void" (param "ns3::NetDeviceContainer" "other" ∷ []) []
    ∷ add_method "Add" "void" (param "ns3::Ptr< ns3::NetDevice >" "device" ∷ []) []
    ∷ add_method "Add" "void" (param "std::string" "deviceName" ∷ []) []
    ∷ add_method "Begin" "ns3::NetDeviceContainer::Iterator" [] (is_const ∷ [])
    ∷ add_method "End" "ns3::NetDeviceContainer::Iterator" [] (is_const ∷ [])
    ∷ add_method "Get" "ns3::Ptr< ns3::NetDevice >" (param "uint32_t" "i" ∷ []) (is_const ∷ [])
    ∷ add_method "GetN" "uint32_t" [] (is_const ∷ [])
    ∷ []
