-- ===== src/Bindings/Methods/AttributeAccessor.antt =====
-- The `register_…_methods` functions of bindings/modulegen__gcc_LP64.py, lines 4269 to 4625.
use cs621_network_programmin.Common.{List, [], ◌∷◌, false}
use cs621_network_programmin.Bindings.Syntax.{
  Member, visibility, template_parameters, is_const, is_virtual, is_pure_virtual, is_static,
  transfer_ownership, param, param_with, add_constructor, add_method, add_output_stream_operator,
}

abbrev pub register_ns3_attribute_accessor_methods : List Member
register_ns3_attribute_accessor_methods =
    add_constructor (param "ns3::AttributeAccessor const &" "arg0" ∷ []) []
    ∷ add_constructor [] []
    ∷ add_method "Get" "bool"
        (param "ns3::ObjectBase const *" "object" ∷ param "ns3::AttributeValue &" "attribute" ∷ [])
        (is_pure_virtual ∷ is_const ∷ is_virtual ∷ [])
    ∷ add_method "HasGetter" "bool" [] (is_pure_virtual ∷ is_const ∷ is_virtual ∷ [])
    ∷ add_method "HasSetter" "bool" [] (is_pure_virtual ∷ is_const ∷ is_virtual ∷ [])
    ∷ add_method "Set" "bool"
        (param_with "ns3::ObjectBase *" "object" (transfer_ownership false ∷ [])
          ∷ param "ns3::AttributeValue const &" "value"
          ∷ [])
        (is_pure_virtual ∷ is_const ∷ is_virtual ∷ [])
    ∷ []

abbrev pub register_ns3_attribute_checker_methods : List Member
register_ns3_attribute_checker_methods =
    add_constructor (param "ns3::AttributeChecker const &" "arg0" ∷ []) []
    ∷ add_constructor [] []
    ∷ add_method "Check" "bool" (param "ns3::AttributeValue const &" "value" ∷ [])
        (is_pure_virtual ∷ is_const ∷ is_virtual ∷ [])
    ∷ add_method "Copy" "bool"
        (param "ns3::AttributeValue const &" "source"
          ∷ param "ns3::AttributeValue &" "destination"
          ∷ [])
        (is_pure_virtual ∷ is_const ∷ is_virtual ∷ [])
    ∷ add_method "Create" "ns3::Ptr< ns3::AttributeValue >" []
        (is_pure_virtual ∷ is_const ∷ is_virtual ∷ [])
    ∷ add_method "CreateValidValue" "ns3::Ptr< ns3::AttributeValue >"
        (param "ns3::AttributeValue const &" "value" ∷ []) (is_const ∷ [])
    ∷ add_method "GetUnderlyingTypeInformation" "std::string" []
        (is_pure_virtual ∷ is_const ∷ is_virtual ∷ [])
    ∷ add_method "GetValueTypeName" "std::string" [] (is_pure_virtual ∷ is_const ∷ is_virtual ∷ [])
    ∷ add_method "HasUnderlyingTypeInformation" "bool" []
        (is_pure_virtual ∷ is_const ∷ is_virtual ∷ [])
    ∷ []

abbrev pub register_ns3_attribute_value_methods : List Member
register_ns3_attribute_value_methods =
    add_constructor (param "ns3::AttributeValue const &" "arg0" ∷ []) []
    ∷ add_constructor [] []
    ∷ add_method "Copy" "ns3::Ptr< ns3::AttributeValue >" []
        (is_pure_virtual ∷ is_const ∷ is_virtual ∷ [])
    ∷ add_method "DeserializeFromString" "bool"
        (param "std::string" "value"
          ∷ param "ns3::Ptr< ns3::AttributeChecker const >" "checker"
          ∷ [])
        (is_pure_virtual ∷ is_virtual ∷ [])
    ∷ add_method "SerializeToString" "std::string"
        (param "ns3::Ptr< ns3::AttributeChecker const >" "checker" ∷ [])
        (is_pure_virtual ∷ is_const ∷ is_virtual ∷ [])
    ∷ []

abbrev pub register_ns3_boolean_checker_methods : List Member
register_ns3_boolean_checker_methods =
    add_constructor [] []
    ∷ add_constructor (param "ns3::BooleanChecker const &" "arg0" ∷ []) []
    ∷ []

abbrev pub register_ns3_boolean_value_methods : List Member
register_ns3_boolean_value_methods =
    add_output_stream_operator
    ∷ add_constructor (param "ns3::BooleanValue const &" "arg0" ∷ []) []
    ∷ add_constructor [] []
    ∷ add_constructor (param "bool" "value" ∷ []) []
    ∷ add_method "Copy" "ns3::Ptr< ns3::AttributeValue >" [] (is_const ∷ is_virtual ∷ [])
    ∷ add_method "DeserializeFromString" "bool"
        (param "std::string" "value"
          ∷ param "ns3::Ptr< ns3::AttributeChecker const >" "checker"
          ∷ [])
        (is_virtual ∷ [])
    ∷ add_method "Get" "bool" [] (is_const ∷ [])
    ∷ add_method "SerializeToString" "std::string"
        (param "ns3::Ptr< ns3::AttributeChecker const >" "checker" ∷ [])
        (is_const ∷ is_virtual ∷ [])
    ∷ add_method "Set" "void" (param "bool" "value" ∷ []) []
    ∷ []

abbrev pub register_ns3_callback_checker_methods : List Member
register_ns3_callback_checker_methods =
    add_constructor [] []
    ∷ add_constructor (param "ns3::CallbackChecker const &" "arg0" ∷ []) []
    ∷ []

abbrev pub register_ns3_callback_impl_base_methods : List Member
register_ns3_callback_impl_base_methods =
    add_constructor [] []
    ∷ add_constructor (param "ns3::CallbackImplBase const &" "arg0" ∷ []) []
    ∷ add_method "GetTypeid" "std::string" [] (is_pure_virtual ∷ is_const ∷ is_virtual ∷ [])
    ∷ add_method "IsEqual" "bool" (param "ns3::Ptr< ns3::CallbackImplBase const >" "other" ∷ [])
        (is_pure_virtual ∷ is_const ∷ is_virtual ∷ [])
    ∷ add_method "Demangle" "std::string" (param "std::string const &" "mangled" ∷ [])
        (is_static ∷ visibility "protected" ∷ [])
    ∷ add_method "GetCppTypeid" "std::string" []
        (is_static ∷ visibility "protected" ∷ template_parameters ("ns3::ObjectBase*" ∷ []) ∷ [])
    ∷ add_method "GetCppTypeid" "std::string" []
        (is_static ∷ visibility "protected" ∷ template_parameters ("void" ∷ []) ∷ [])
    ∷ add_method "GetCppTypeid" "std::string" []
        (is_static ∷ visibility "protected" ∷ template_parameters ("unsigned int" ∷ []) ∷ [])
    ∷ add_method "GetCppTypeid" "std::string" [] (
        is_static
        ∷ visibility "protected"
        ∷ template_parameters ("ns3::Ptr<ns3::Packet const> " ∷ [])
        ∷ [])
    ∷ add_method "GetCppTypeid" "std::string" [] (
        is_static
        ∷ visibility "protected"
        ∷ template_parameters ("ns3::Ptr<ns3::NetDevice> " ∷ [])
        ∷ [])
    ∷ add_method "GetCppTypeid" "std::string" []
        (is_static ∷ visibility "protected" ∷ template_parameters ("ns3::Time" ∷ []) ∷ [])
    ∷ add_method "GetCppTypeid" "std::string" []
        (is_static ∷ visibility "protected" ∷ template_parameters ("unsigned short" ∷ []) ∷ [])
    ∷ add_method "GetCppTypeid" "std::string" []
        (is_static ∷ visibility "protected" ∷ template_parameters ("ns3::Address const&" ∷ []) ∷ [])
    ∷ add_method "GetCppTypeid" "std::string" [] (
        is_static
        ∷ visibility "protected"
        ∷ template_parameters ("ns3::NetDevice::PacketType" ∷ [])
        ∷ [])
    ∷ []

abbrev pub register_ns3_callback_value_methods : List Member
register_ns3_callback_value_methods =
    add_constructor (param "ns3::CallbackValue const &" "arg0" ∷ []) []
    ∷ add_constructor [] []
    ∷ add_constructor (param "ns3::CallbackBase const &" "base" ∷ []) []
    ∷ add_method "Copy" "ns3::Ptr< ns3::AttributeValue >" [] (is_const ∷ is_virtual ∷ [])
    ∷ add_method "DeserializeFromString" "bool"
        (param "std::string" "value"
          ∷ param "ns3::Ptr< ns3::AttributeChecker const >" "checker"
          ∷ [])
        (is_virtual ∷ [])
    ∷ add_method "SerializeToString" "std::string"
        (param "ns3::Ptr< ns3::AttributeChecker const >" "checker" ∷ [])
        (is_const ∷ is_virtual ∷ [])
    ∷ add_method "Set" "void" (param "ns3::CallbackBase" "base" ∷ []) []
    ∷ []

abbrev pub register_ns3_channel_methods : List Member
register_ns3_channel_methods =
    add_constructor (param "ns3::Channel const &" "arg0" ∷ []) []
    ∷ add_constructor [] []
    ∷ add_method "GetDevice" "ns3::Ptr< ns3::NetDevice >" (param "std::size_t" "i" ∷ [])
        (is_pure_virtual ∷ is_const ∷ is_virtual ∷ [])
    ∷ add_method "GetId" "uint32_t" [] (is_const ∷ [])
    ∷ add_method "GetNDevices" "std::size_t" [] (is_pure_virtual ∷ is_const ∷ is_virtual ∷ [])
    ∷ add_method "GetTypeId" "ns3::TypeId" [] (is_static ∷ [])
    ∷ []

abbrev pub register_ns3_constant_random_variable_methods : List Member
register_ns3_constant_random_variable_methods =
    add_method "GetTypeId" "ns3::TypeId" [] (is_static ∷ [])
    ∷ add_constructor [] []
    ∷ add_method "GetConstant" "double" [] (is_const ∷ [])
    ∷ add_method "GetValue" "double" (param "double" "constant" ∷ []) []
    ∷ add_method "GetInteger" "uint32_t" (param "uint32_t" "constant" ∷ []) []
    ∷ add_method "GetValue" "double" [] (is_virtual ∷ [])
    ∷ add_method "GetInteger" "uint32_t" [] (is_virtual ∷ [])
    ∷ []

abbrev pub register_ns3_data_rate_checker_methods : List Member
register_ns3_data_rate_checker_methods =
    add_constructor [] []
    ∷ add_constructor (param "ns3::DataRateChecker const &" "arg0" ∷ []) []
    ∷ []

abbrev pub register_ns3_data_rate_value_methods : List Member
register_ns3_data_rate_value_methods =
    add_constructor [] []
    ∷ add_constructor (param "ns3::DataRate const &" "value" ∷ []) []
    ∷ add_constructor (param "ns3::DataRateValue const &" "arg0" ∷ []) []
    ∷ add_method "Copy" "ns3::Ptr< ns3::AttributeValue >" [] (is_const ∷ is_virtual ∷ [])
    ∷ add_method "DeserializeFromString" "bool"
        (param "std::string" "value"
          ∷ param "ns3::Ptr< ns3::AttributeChecker const >" "checker"
          ∷ [])
        (is_virtual ∷ [])
    ∷ add_method "Get" "ns3::DataRate" [] (is_const ∷ [])
    ∷ add_method "SerializeToString" "std::string"
        (param "ns3::Ptr< ns3::AttributeChecker const >" "checker" ∷ [])
        (is_const ∷ is_virtual ∷ [])
    ∷ add_method "Set" "void" (param "ns3::DataRate const &" "value" ∷ []) []
    ∷ []

abbrev pub register_ns3_deterministic_random_variable_methods : List Member
register_ns3_deterministic_random_variable_methods =
    add_method "GetTypeId" "ns3::TypeId" [] (is_static ∷ [])
    ∷ add_constructor [] []
    ∷ add_method "SetValueArray" "void"
        (param "double *" "values" ∷ param "std::size_t" "length" ∷ []) []
    ∷ add_method "GetValue" "double" [] (is_virtual ∷ [])
    ∷ add_method "GetInteger" "uint32_t" [] (is_virtual ∷ [])
    ∷ []
