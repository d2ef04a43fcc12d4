-- ===== src/Bindings/Methods/Ipv4AddressChecker.antt =====
-- The `register_…_methods` functions of bindings/modulegen__gcc_LP64.py, lines 5072 to 5471.
use cs621_network_programmin.Common.{List, [], ◌∷◌}
use cs621_network_programmin.Bindings.Syntax.{
  Member, visibility, is_const, is_virtual, is_pure_virtual, is_static, param, add_constructor,
  add_method,
}

abbrev pub register_ns3_ipv4_address_checker_methods : List Member
register_ns3_ipv4_address_checker_methods =
    add_constructor [] []
    ∷ add_constructor (param "ns3::Ipv4AddressChecker const &" "arg0" ∷ []) []
    ∷ []

abbrev pub register_ns3_ipv4_address_value_methods : List Member
register_ns3_ipv4_address_value_methods =
    add_constructor [] []
    ∷ add_constructor (param "ns3::Ipv4Address const &" "value" ∷ []) []
    ∷ add_constructor (param "ns3::Ipv4AddressValue const &" "arg0" ∷ []) []
    ∷ add_method "Copy" "ns3::Ptr< ns3::AttributeValue >" [] (is_const ∷ is_virtual ∷ [])
    ∷ add_method "DeserializeFromString" "bool"
        (param "std::string" "value"
          ∷ param "ns3::Ptr< ns3::AttributeChecker const >" "checker"
          ∷ [])
        (is_virtual ∷ [])
    ∷ add_method "Get" "ns3::Ipv4Address" [] (is_const ∷ [])
    ∷ add_method "SerializeToString" "std::string"
        (param "ns3::Ptr< ns3::AttributeChecker const >" "checker" ∷ [])
        (is_const ∷ is_virtual ∷ [])
    ∷ add_method "Set" "void" (param "ns3::Ipv4Address const &" "value" ∷ []) []
    ∷ []

abbrev pub register_ns3_ipv4_mask_checker_methods : List Member
register_ns3_ipv4_mask_checker_methods =
    add_constructor [] []
    ∷ add_constructor (param "ns3::Ipv4MaskChecker const &" "arg0" ∷ []) []
    ∷ []

abbrev pub register_ns3_ipv4_mask_value_methods : List Member
register_ns3_ipv4_mask_value_methods =
    add_constructor [] []
    ∷ add_constructor (param "ns3::Ipv4Mask const &" "value" ∷ []) []
    ∷ add_constructor (param "ns3::Ipv4MaskValue const &" "arg0" ∷ []) []
    ∷ add_method "Copy" "ns3::Ptr< ns3::AttributeValue >" [] (is_const ∷ is_virtual ∷ [])
    ∷ add_method "DeserializeFromString" "bool"
        (param "std::string" "value"
          ∷ param "ns3::Ptr< ns3::AttributeChecker const >" "checker"
          ∷ [])
        (is_virtual ∷ [])
    ∷ add_method "Get" "ns3::Ipv4Mask" [] (is_const ∷ [])
    ∷ add_method "SerializeToString" "std::string"
        (param "ns3::Ptr< ns3::AttributeChecker const >" "checker" ∷ [])
        (is_const ∷ is_virtual ∷ [])
    ∷ add_method "Set" "void" (param "ns3::Ipv4Mask const &" "value" ∷ []) []
    ∷ []

abbrev pub register_ns3_ipv6_address_checker_methods : List Member
register_ns3_ipv6_address_checker_methods =
    add_constructor [] []
    ∷ add_constructor (param "ns3::Ipv6AddressChecker const &" "arg0" ∷ []) []
    ∷ []

abbrev pub register_ns3_ipv6_address_value_methods : List Member
register_ns3_ipv6_address_value_methods =
    add_constructor [] []
    ∷ add_constructor (param "ns3::Ipv6Address const &" "value" ∷ []) []
    ∷ add_constructor (param "ns3::Ipv6AddressValue const &" "arg0" ∷ []) []
    ∷ add_method "Copy" "ns3::Ptr< ns3::AttributeValue >" [] (is_const ∷ is_virtual ∷ [])
    ∷ add_method "DeserializeFromString" "bool"
        (param "std::string" "value"
          ∷ param "ns3::Ptr< ns3::AttributeChecker const >" "checker"
          ∷ [])
        (is_virtual ∷ [])
    ∷ add_method "Get" "ns3::Ipv6Address" [] (is_const ∷ [])
    ∷ add_method "SerializeToString" "std::string"
        (param "ns3::Ptr< ns3::AttributeChecker const >" "checker" ∷ [])
        (is_const ∷ is_virtual ∷ [])
    ∷ add_method "Set" "void" (param "ns3::Ipv6Address const &" "value" ∷ []) []
    ∷ []

abbrev pub register_ns3_ipv6_prefix_checker_methods : List Member
register_ns3_ipv6_prefix_checker_methods =
    add_constructor [] []
    ∷ add_constructor (param "ns3::Ipv6PrefixChecker const &" "arg0" ∷ []) []
    ∷ []

abbrev pub register_ns3_ipv6_prefix_value_methods : List Member
register_ns3_ipv6_prefix_value_methods =
    add_constructor [] []
    ∷ add_constructor (param "ns3::Ipv6Prefix const &" "value" ∷ []) []
    ∷ add_constructor (param "ns3::Ipv6PrefixValue const &" "arg0" ∷ []) []
    ∷ add_method "Copy" "ns3::Ptr< ns3::AttributeValue >" [] (is_const ∷ is_virtual ∷ [])
    ∷ add_method "DeserializeFromString" "bool"
        (param "std::string" "value"
          ∷ param "ns3::Ptr< ns3::AttributeChecker const >" "checker"
          ∷ [])
        (is_virtual ∷ [])
    ∷ add_method "Get" "ns3::Ipv6Prefix" [] (is_const ∷ [])
    ∷ add_method "SerializeToString" "std::string"
        (param "ns3::Ptr< ns3::AttributeChecker const >" "checker" ∷ [])
        (is_const ∷ is_virtual ∷ [])
    ∷ add_method "Set" "void" (param "ns3::Ipv6Prefix const &" "value" ∷ []) []
    ∷ []

abbrev pub register_ns3_list_error_model_methods : List Member
register_ns3_list_error_model_methods =
    add_constructor (param "ns3::ListErrorModel const &" "arg0" ∷ []) []
    ∷ add_constructor [] []
    ∷ add_method "GetList" "std::list< unsigned int >" [] (is_const ∷ [])
    ∷ add_method "GetTypeId" "ns3::TypeId" [] (is_static ∷ [])
    ∷ add_method "SetList" "void" (param "std::list< unsigned int > const &" "packetlist" ∷ []) []
    ∷ add_method "DoCorrupt" "bool" (param "ns3::Ptr< ns3::Packet >" "p" ∷ [])
        (visibility "private" ∷ is_virtual ∷ [])
    ∷ add_method "DoReset" "void" [] (visibility "private" ∷ is_virtual ∷ [])
    ∷ []

abbrev pub register_ns3_log_normal_random_variable_methods : List Member
register_ns3_log_normal_random_variable_methods =
    add_method "GetTypeId" "ns3::TypeId" [] (is_static ∷ [])
    ∷ add_constructor [] []
    ∷ add_method "GetMu" "double" [] (is_const ∷ [])
    ∷ add_method "GetSigma" "double" [] (is_const ∷ [])
    ∷ add_method "GetValue" "double" (param "double" "mu" ∷ param "double" "sigma" ∷ []) []
    ∷ add_method "GetInteger" "uint32_t" (param "uint32_t" "mu" ∷ param "uint32_t" "sigma" ∷ []) []
    ∷ add_method "GetValue" "double" [] (is_virtual ∷ [])
    ∷ add_method "GetInteger" "uint32_t" [] (is_virtual ∷ [])
    ∷ []

abbrev pub register_ns3_mac48_address_checker_methods : List Member
register_ns3_mac48_address_checker_methods =
    add_constructor [] []
    ∷ add_constructor (param "ns3::Mac48AddressChecker const &" "arg0" ∷ []) []
    ∷ []

abbrev pub register_ns3_mac48_address_value_methods : List Member
register_ns3_mac48_address_value_methods =
    add_constructor [] []
    ∷ add_constructor (param "ns3::Mac48Address const &" "value" ∷ []) []
    ∷ add_constructor (param "ns3::Mac48AddressValue const &" "arg0" ∷ []) []
    ∷ add_method "Copy" "ns3::Ptr< ns3::AttributeValue >" [] (is_const ∷ is_virtual ∷ [])
    ∷ add_method "DeserializeFromString" "bool"
        (param "std::string" "value"
          ∷ param "ns3::Ptr< ns3::AttributeChecker const >" "checker"
          ∷ [])
        (is_virtual ∷ [])
    ∷ add_method "Get" "ns3::Mac48Address" [] (is_const ∷ [])
    ∷ add_method "SerializeToString" "std::string"
        (param "ns3::Ptr< ns3::AttributeChecker const >" "checker" ∷ [])
        (is_const ∷ is_virtual ∷ [])
    ∷ add_method "Set" "void" (param "ns3::Mac48Address const &" "value" ∷ []) []
    ∷ []

abbrev pub register_ns3_net_device_methods : List Member
register_ns3_net_device_methods =
    add_constructor [] []
    ∷ add_constructor (param "ns3::NetDevice const &" "arg0" ∷ []) []
    ∷ add_method "AddLinkChangeCallback" "void"
        (param
            "ns3::Callback< void, ns3::empty, ns3::empty, ns3::empty, ns3::empty, ns3::empty, ns3::empty, ns3::empty, ns3::empty, ns3::empty >"
            "callback"
          ∷ [])
        (is_pure_virtual ∷ is_virtual ∷ [])
    ∷ add_method "GetAddress" "ns3::Address" [] (is_pure_virtual ∷ is_const ∷ is_virtual ∷ [])
    ∷ add_method "GetBroadcast" "ns3::Address" [] (is_pure_virtual ∷ is_const ∷ is_virtual ∷ [])
    ∷ add_method "GetChannel" "ns3::Ptr< ns3::Channel >" []
        (is_pure_virtual ∷ is_const ∷ is_virtual ∷ [])
    ∷ add_method "GetIfIndex" "uint32_t" [] (is_pure_virtual ∷ is_const ∷ is_virtual ∷ [])
    ∷ add_method "GetMtu" "uint16_t" [] (is_pure_virtual ∷ is_const ∷ is_virtual ∷ [])
    ∷ add_method "GetMulticast" "ns3::Address" (param "ns3::Ipv4Address" "multicastGroup" ∷ [])
        (is_pure_virtual ∷ is_const ∷ is_virtual ∷ [])
    ∷ add_method "GetMulticast" "ns3::Address" (param "ns3::Ipv6Address" "addr" ∷ [])
        (is_pure_virtual ∷ is_const ∷ is_virtual ∷ [])
    ∷ add_method "GetNode" "ns3::Ptr< ns3::Node >" [] (is_pure_virtual ∷ is_const ∷ is_virtual ∷ [])
    ∷ add_method "GetTypeId" "ns3::TypeId" [] (is_static ∷ [])
    ∷ add_method "IsBridge" "bool" [] (is_pure_virtual ∷ is_const ∷ is_virtual ∷ [])
    ∷ add_method "IsBroadcast" "bool" [] (is_pure_virtual ∷ is_const ∷ is_virtual ∷ [])
    ∷ add_method "IsLinkUp" "bool" [] (is_pure_virtual ∷ is_const ∷ is_virtual ∷ [])
    ∷ add_method "IsMulticast" "bool" [] (is_pure_virtual ∷ is_const ∷ is_virtual ∷ [])
    ∷ add_method "IsPointToPoint" "bool" [] (is_pure_virtual ∷ is_const ∷ is_virtual ∷ [])
    ∷ add_method "NeedsArp" "bool" [] (is_pure_virtual ∷ is_const ∷ is_virtual ∷ [])
    ∷ add_method "Send" "bool"
        (param "ns3::Ptr< ns3::Packet >" "packet"
          ∷ param "ns3::Address const &" "dest"
          ∷ param "uint16_t" "protocolNumber"
          ∷ [])
        (is_pure_virtual ∷ is_virtual ∷ [])
    ∷ add_method "SendFrom" "bool"
        (param "ns3::Ptr< ns3::Packet >" "packet"
          ∷ param "ns3::Address const &" "source"
          ∷ param "ns3::Address const &" "dest"
          ∷ param "uint16_t" "protocolNumber"
          ∷ [])
        (is_pure_virtual ∷ is_virtual ∷ [])
    ∷ add_method "SetAddress" "void" (param "ns3::Address" "address" ∷ [])
        (is_pure_virtual ∷ is_virtual ∷ [])
    ∷ add_method "SetIfIndex" "void" (param "uint32_t const" "index" ∷ [])
        (is_pure_virtual ∷ is_virtual ∷ [])
    ∷ add_method "SetMtu" "bool" (param "uint16_t const" "mtu" ∷ [])
        (is_pure_virtual ∷ is_virtual ∷ [])
    ∷ add_method "SetNode" "void" (param "ns3::Ptr< ns3::Node >" "node" ∷ [])
        (is_pure_virtual ∷ is_virtual ∷ [])
    ∷ add_method "SetPromiscReceiveCallback" "void"
        (param
            "ns3::Callback< bool, ns3::Ptr< ns3::NetDevice >, ns3::Ptr< ns3::Packet const >, unsigned short, ns3::Address const &, ns3::Address const &, ns3::NetDevice::PacketType, ns3::empty, ns3::empty, ns3::empty >"
            "cb"
          ∷ [])
        (is_pure_virtual ∷ is_virtual ∷ [])
    ∷ add_method "SetReceiveCallback" "void"
        (param
            "ns3::Callback< bool, ns3::Ptr< ns3::NetDevice >, ns3::Ptr< ns3::Packet const >, unsigned short, ns3::Address const &, ns3::empty, ns3::empty, ns3::empty, ns3::empty, ns3::empty >"
            "cb"
          ∷ [])
        (is_pure_virtual ∷ is_virtual ∷ [])
    ∷ add_method "SupportsSendFrom" "bool" [] (is_pure_virtual ∷ is_const ∷ is_virtual ∷ [])
    ∷ []
