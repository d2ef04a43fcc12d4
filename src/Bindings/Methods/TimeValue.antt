-- ===== src/Bindings/Methods/TimeValue.antt =====
-- The `register_…_methods` functions of bindings/modulegen__gcc_LP64.py, lines 6407 to 6726.
use cs621_network_programmin.Common.{List, [], ◌∷◌}
use cs621_network_programmin.Bindings.Syntax.{
  Member, visibility, custom_name, is_const, is_virtual, is_pure_virtual, is_static, param,
  add_constructor, add_method,
}

abbrev pub register_ns3_time_value_methods : List Member
register_ns3_time_value_methods =
    add_constructor [] []
    ∷ add_constructor (param "ns3::Time const &" "value" ∷ []) []
    ∷ add_constructor (param "ns3::TimeValue const &" "arg0" ∷ []) []
    ∷ add_method "Copy" "ns3::Ptr< ns3::AttributeValue >" [] (is_const ∷ is_virtual ∷ [])
    ∷ add_method "DeserializeFromString" "bool"
        (param "std::string" "value"
          ∷ param "ns3::Ptr< ns3::AttributeChecker const >" "checker"
          ∷ [])
        (is_virtual ∷ [])
    ∷ add_method "Get" "ns3::Time" [] (is_const ∷ [])
    ∷ add_method "SerializeToString" "std::string"
        (param "ns3::Ptr< ns3::AttributeChecker const >" "checker" ∷ [])
        (is_const ∷ is_virtual ∷ [])
    ∷ add_method "Set" "void" (param "ns3::Time const &" "value" ∷ []) []
    ∷ []

abbrev pub register_ns3_type_id_checker_methods : List Member
register_ns3_type_id_checker_methods =
    add_constructor [] [] ∷ add_constructor (param "ns3::TypeIdChecker const &" "arg0" ∷ []) [] ∷ []

abbrev pub register_ns3_type_id_value_methods : List Member
register_ns3_type_id_value_methods =
    add_constructor [] []
    ∷ add_constructor (param "ns3::TypeId const &" "value" ∷ []) []
    ∷ add_constructor (param "ns3::TypeIdValue const &" "arg0" ∷ []) []
    ∷ add_method "Copy" "ns3::Ptr< ns3::AttributeValue >" [] (is_const ∷ is_virtual ∷ [])
    ∷ add_method "DeserializeFromString" "bool"
        (param "std::string" "value"
          ∷ param "ns3::Ptr< ns3::AttributeChecker const >" "checker"
          ∷ [])
        (is_virtual ∷ [])
    ∷ add_method "Get" "ns3::TypeId" [] (is_const ∷ [])
    ∷ add_method "SerializeToString" "std::string"
        (param "ns3::Ptr< ns3::AttributeChecker const >" "checker" ∷ [])
        (is_const ∷ is_virtual ∷ [])
    ∷ add_method "Set" "void" (param "ns3::TypeId const &" "value" ∷ []) []
    ∷ []

abbrev pub register_ns3_uinteger_value_methods : List Member
register_ns3_uinteger_value_methods =
    add_constructor [] []
    ∷ add_constructor (param "uint64_t const &" "value" ∷ []) []
    ∷ add_constructor (param "ns3::UintegerValue const &" "arg0" ∷ []) []
    ∷ add_method "Copy" "ns3::Ptr< ns3::AttributeValue >" [] (is_const ∷ is_virtual ∷ [])
    ∷ add_method "DeserializeFromString" "bool"
        (param "std::string" "value"
          ∷ param "ns3::Ptr< ns3::AttributeChecker const >" "checker"
          ∷ [])
        (is_virtual ∷ [])
    ∷ add_method "Get" "uint64_t" [] (is_const ∷ [])
    ∷ add_method "SerializeToString" "std::string"
        (param "ns3::Ptr< ns3::AttributeChecker const >" "checker" ∷ [])
        (is_const ∷ is_virtual ∷ [])
    ∷ add_method "Set" "void" (param "uint64_t const &" "value" ∷ []) []
    ∷ []

abbrev pub register_ns3_address_checker_methods : List Member
register_ns3_address_checker_methods =
    add_constructor [] []
    ∷ add_constructor (param "ns3::AddressChecker const &" "arg0" ∷ []) []
    ∷ []

abbrev pub register_ns3_address_value_methods : List Member
register_ns3_address_value_methods =
    add_constructor [] []
    ∷ add_constructor (param "ns3::Address const &" "value" ∷ []) []
    ∷ add_constructor (param "ns3::AddressValue const &" "arg0" ∷ []) []
    ∷ add_method "Copy" "ns3::Ptr< ns3::AttributeValue >" [] (is_const ∷ is_virtual ∷ [])
    ∷ add_method "DeserializeFromString" "bool"
        (param "std::string" "value"
          ∷ param "ns3::Ptr< ns3::AttributeChecker const >" "checker"
          ∷ [])
        (is_virtual ∷ [])
    ∷ add_method "Get" "ns3::Address" [] (is_const ∷ [])
    ∷ add_method "SerializeToString" "std::string"
        (param "ns3::Ptr< ns3::AttributeChecker const >" "checker" ∷ [])
        (is_const ∷ is_virtual ∷ [])
    ∷ add_method "Set" "void" (param "ns3::Address const &" "value" ∷ []) []
    ∷ []

abbrev pub register_ns3_binary_error_model_methods : List Member
register_ns3_binary_error_model_methods =
    add_constructor (param "ns3::BinaryErrorModel const &" "arg0" ∷ []) []
    ∷ add_constructor [] []
    ∷ add_method "GetTypeId" "ns3::TypeId" [] (is_static ∷ [])
    ∷ add_method "DoCorrupt" "bool" (param "ns3::Ptr< ns3::Packet >" "p" ∷ [])
        (visibility "private" ∷ is_virtual ∷ [])
    ∷ add_method "DoReset" "void" [] (visibility "private" ∷ is_virtual ∷ [])
    ∷ []

abbrev pub register_ns3_burst_error_model_methods : List Member
register_ns3_burst_error_model_methods =
    add_constructor (param "ns3::BurstErrorModel const &" "arg0" ∷ []) []
    ∷ add_constructor [] []
    ∷ add_method "AssignStreams" "int64_t" (param "int64_t" "stream" ∷ []) []
    ∷ add_method "GetBurstRate" "double" [] (is_const ∷ [])
    ∷ add_method "GetTypeId" "ns3::TypeId" [] (is_static ∷ [])
    ∷ add_method "SetBurstRate" "void" (param "double" "rate" ∷ []) []
    ∷ add_method "SetRandomBurstSize" "void"
        (param "ns3::Ptr< ns3::RandomVariableStream >" "burstSz" ∷ []) []
    ∷ add_method "SetRandomVariable" "void"
        (param "ns3::Ptr< ns3::RandomVariableStream >" "ranVar" ∷ []) []
    ∷ add_method "DoCorrupt" "bool" (param "ns3::Ptr< ns3::Packet >" "p" ∷ [])
        (visibility "private" ∷ is_virtual ∷ [])
    ∷ add_method "DoReset" "void" [] (visibility "private" ∷ is_virtual ∷ [])
    ∷ []

abbrev pub register_ns3_callback_impl_object_base_methods : List Member
register_ns3_callback_impl_object_base_methods =
    add_constructor [] []
    ∷ add_constructor
        (param
            "ns3::CallbackImpl< ns3::ObjectBase *, ns3::empty, ns3::empty, ns3::empty, ns3::empty, ns3::empty, ns3::empty, ns3::empty, ns3::empty, ns3::empty > const &"
            "arg0"
          ∷ [])
        []
    ∷ add_method "DoGetTypeid" "std::string" [] (is_static ∷ [])
    ∷ add_method "GetTypeid" "std::string" [] (is_const ∷ is_virtual ∷ [])
    ∷ add_method "operator()" "ns3::ObjectBase *" []
        (is_pure_virtual ∷ is_virtual ∷ custom_name "__call__" ∷ [])
    ∷ []

abbrev pub register_ns3_callback_impl_void_packet_devices_times_methods : List Member
register_ns3_callback_impl_void_packet_devices_times_methods =
    add_constructor [] []
    ∷ add_constructor
        (param
            "ns3::CallbackImpl< void, ns3::Ptr< ns3::Packet const >, ns3::Ptr< ns3::NetDevice >, ns3::Ptr< ns3::NetDevice >, ns3::Time, ns3::Time, ns3::empty, ns3::empty, ns3::empty, ns3::empty > const &"
            "arg0"
          ∷ [])
        []
    ∷ add_method "DoGetTypeid" "std::string" [] (is_static ∷ [])
    ∷ add_method "GetTypeid" "std::string" [] (is_const ∷ is_virtual ∷ [])
    ∷ add_method "operator()" "void"
        (param "ns3::Ptr< ns3::Packet const >" "arg0"
          ∷ param "ns3::Ptr< ns3::NetDevice >" "arg1"
          ∷ param "ns3::Ptr< ns3::NetDevice >" "arg2"
          ∷ param "ns3::Time" "arg3"
          ∷ param "ns3::Time" "arg4"
          ∷ [])
        (is_pure_virtual ∷ is_virtual ∷ custom_name "__call__" ∷ [])
    ∷ []

abbrev pub register_ns3_callback_impl_void_packet_methods : List Member
register_ns3_callback_impl_void_packet_methods =
    add_constructor [] []
    ∷ add_constructor
        (param
            "ns3::CallbackImpl< void, ns3::Ptr< ns3::Packet const >, ns3::empty, ns3::empty, ns3::empty, ns3::empty, ns3::empty, ns3::empty, ns3::empty, ns3::empty > const &"
            "arg0"
          ∷ [])
        []
    ∷ add_method "DoGetTypeid" "std::string" [] (is_static ∷ [])
    ∷ add_method "GetTypeid" "std::string" [] (is_const ∷ is_virtual ∷ [])
    ∷ add_method "operator()" "void" (param "ns3::Ptr< ns3::Packet const >" "arg0" ∷ [])
        (is_pure_virtual ∷ is_virtual ∷ custom_name "__call__" ∷ [])
    ∷ []

abbrev pub register_ns3_callback_impl_void_device_packet_addresses_methods : List Member
register_ns3_callback_impl_void_device_packet_addresses_methods =
    add_constructor [] []
    ∷ add_constructor
        (param
            "ns3::CallbackImpl< void, ns3::Ptr< ns3::NetDevice >, ns3::Ptr< ns3::Packet const >, unsigned short, ns3::Address const &, ns3::Address const &, ns3::NetDevice::PacketType, ns3::empty, ns3::empty, ns3::empty > const &"
            "arg0"
          ∷ [])
        []
    ∷ add_method "DoGetTypeid" "std::string" [] (is_static ∷ [])
    ∷ add_method "GetTypeid" "std::string" [] (is_const ∷ is_virtual ∷ [])
    ∷ add_method "operator()" "void"
        (param "ns3::Ptr< ns3::NetDevice >" "arg0"
          ∷ param "ns3::Ptr< ns3::Packet const >" "arg1"
          ∷ param "short unsigned int" "arg2"
          ∷ param "ns3::Address const &" "arg3"
          ∷ param "ns3::Address const &" "arg4"
          ∷ param "ns3::NetDevice::PacketType" "arg5"
          ∷ [])
        (is_pure_virtual ∷ is_virtual ∷ custom_name "__call__" ∷ [])
    ∷ []

abbrev pub register_ns3_callback_impl_void_net_device_methods : List Member
register_ns3_callback_impl_void_net_device_methods =
    add_constructor [] []
    ∷ add_constructor
        (param
            "ns3::CallbackImpl< void, ns3::Ptr< ns3::NetDevice >, ns3::empty, ns3::empty, ns3::empty, ns3::empty, ns3::empty, ns3::empty, ns3::empty, ns3::empty > const &"
            "arg0"
          ∷ [])
        []
    ∷ add_method "DoGetTypeid" "std::string" [] (is_static ∷ [])
    ∷ add_method "GetTypeid" "std::string" [] (is_const ∷ is_virtual ∷ [])
    ∷ add_method "operator()" "void" (param "ns3::Ptr< ns3::NetDevice >" "arg0" ∷ [])
        (is_pure_virtual ∷ is_virtual ∷ custom_name "__call__" ∷ [])
    ∷ []
