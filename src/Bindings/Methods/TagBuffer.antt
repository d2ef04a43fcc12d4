-- ===== src/Bindings/Methods/TagBuffer.antt =====
-- The `register_…_methods` functions of bindings/modulegen__gcc_LP64.py, lines 2907 to 3243.
use cs621_network_programmin.Common.{List, [], ◌∷◌, false}
use cs621_network_programmin.Bindings.Syntax.{
  Member, template_parameters, is_const, is_static, deprecated, default_value, transfer_ownership,
  param, param_with, add_constructor, add_method, add_instance_attribute,
  add_binary_comparison_operator, add_output_stream_operator,
}

abbrev pub register_ns3_tag_buffer_methods : List Member
register_ns3_tag_buffer_methods =
    add_constructor (param "ns3::TagBuffer const &" "arg0" ∷ []) []
    ∷ add_constructor (param "uint8_t *" "start" ∷ param "uint8_t *" "end" ∷ []) []
    ∷ add_method "CopyFrom" "void" (param "ns3::TagBuffer" "o" ∷ []) []
    ∷ add_method "Read" "void" (param "uint8_t *" "buffer" ∷ param "uint32_t" "size" ∷ []) []
    ∷ add_method "ReadDouble" "double" [] []
    ∷ add_method "ReadU16" "uint16_t" [] []
    ∷ add_method "ReadU32" "uint32_t" [] []
    ∷ add_method "ReadU64" "uint64_t" [] []
    ∷ add_method "ReadU8" "uint8_t" [] []
    ∷ add_method "TrimAtEnd" "void" (param "uint32_t" "trim" ∷ []) []
    ∷ add_method "Write" "void" (param "uint8_t const *" "buffer" ∷ param "uint32_t" "size" ∷ []) []
    ∷ add_method "WriteDouble" "void" (param "double" "v" ∷ []) []
    ∷ add_method "WriteU16" "void" (param "uint16_t" "v" ∷ []) []
    ∷ add_method "WriteU32" "void" (param "uint32_t" "v" ∷ []) []
    ∷ add_method "WriteU64" "void" (param "uint64_t" "v" ∷ []) []
    ∷ add_method "WriteU8" "void" (param "uint8_t" "v" ∷ []) []
    ∷ []

abbrev pub register_ns3_time_with_unit_methods : List Member
register_ns3_time_with_unit_methods =
    add_output_stream_operator
    ∷ add_constructor (param "ns3::TimeWithUnit const &" "arg0" ∷ []) []
    ∷ add_constructor (param "ns3::Time const" "time" ∷ param "ns3::Time::Unit const" "unit" ∷ [])
        []
    ∷ []

abbrev pub register_ns3_traced_value_unsigned_int_methods : List Member
register_ns3_traced_value_unsigned_int_methods =
    add_constructor [] []
    ∷ add_constructor (param "ns3::TracedValue< unsigned int > const &" "o" ∷ []) []
    ∷ add_constructor (param "unsigned int const &" "v" ∷ []) []
    ∷ add_constructor (param "ns3::TracedValue< unsigned int > const &" "other" ∷ []) []
    ∷ add_constructor (param "ns3::TracedValue< unsigned int > const &" "other" ∷ []) []
    ∷ add_method "Connect" "void"
        (param "ns3::CallbackBase const &" "cb" ∷ param "std::string" "path" ∷ []) []
    ∷ add_method "ConnectWithoutContext" "void" (param "ns3::CallbackBase const &" "cb" ∷ []) []
    ∷ add_method "Disconnect" "void"
        (param "ns3::CallbackBase const &" "cb" ∷ param "std::string" "path" ∷ []) []
    ∷ add_method "DisconnectWithoutContext" "void" (param "ns3::CallbackBase const &" "cb" ∷ []) []
    ∷ add_method "Get" "unsigned int" [] (is_const ∷ [])
    ∷ add_method "Set" "void" (param "unsigned int const &" "v" ∷ []) []
    ∷ []

abbrev pub register_ns3_type_id_methods : List Member
register_ns3_type_id_methods =
    add_binary_comparison_operator "=="
    ∷ add_binary_comparison_operator "!="
    ∷ add_output_stream_operator
    ∷ add_binary_comparison_operator "<"
    ∷ add_constructor (param "char const *" "name" ∷ []) []
    ∷ add_constructor [] []
    ∷ add_constructor (param "ns3::TypeId const &" "o" ∷ []) []
    ∷ add_method "AddAttribute" "ns3::TypeId"
        (param "std::string" "name"
          ∷ param "std::string" "help"
          ∷ param "ns3::AttributeValue const &" "initialValue"
          ∷ param "ns3::Ptr< ns3::AttributeAccessor const >" "accessor"
          ∷ param "ns3::Ptr< ns3::AttributeChecker const >" "checker"
          ∷ param_with "ns3::TypeId::SupportLevel" "supportLevel"
              (default_value "::ns3::TypeId::SupportLevel::SUPPORTED" ∷ [])
          ∷ param_with "std::string const &" "supportMsg" (default_value "\"\"" ∷ [])
          ∷ [])
        []
    ∷ add_method "AddAttribute" "ns3::TypeId"
        (param "std::string" "name"
          ∷ param "std::string" "help"
          ∷ param "uint32_t" "flags"
          ∷ param "ns3::AttributeValue const &" "initialValue"
          ∷ param "ns3::Ptr< ns3::AttributeAccessor const >" "accessor"
          ∷ param "ns3::Ptr< ns3::AttributeChecker const >" "checker"
          ∷ param_with "ns3::TypeId::SupportLevel" "supportLevel"
              (default_value "::ns3::TypeId::SupportLevel::SUPPORTED" ∷ [])
          ∷ param_with "std::string const &" "supportMsg" (default_value "\"\"" ∷ [])
          ∷ [])
        []
    ∷ add_method "AddTraceSource" "ns3::TypeId"
        (param "std::string" "name"
          ∷ param "std::string" "help"
          ∷ param "ns3::Ptr< ns3::TraceSourceAccessor const >" "accessor"
          ∷ [])
        (deprecated ∷ [])
    ∷ add_method "AddTraceSource" "ns3::TypeId"
        (param "std::string" "name"
          ∷ param "std::string" "help"
          ∷ param "ns3::Ptr< ns3::TraceSourceAccessor const >" "accessor"
          ∷ param "std::string" "callback"
          ∷ param_with "ns3::TypeId::SupportLevel" "supportLevel"
              (default_value "::ns3::TypeId::SupportLevel::SUPPORTED" ∷ [])
          ∷ param_with "std::string const &" "supportMsg" (default_value "\"\"" ∷ [])
          ∷ [])
        []
    ∷ add_method "GetAttribute" "ns3::TypeId::AttributeInformation" (param "std::size_t" "i" ∷ [])
        (is_const ∷ [])
    ∷ add_method "GetAttributeFullName" "std::string" (param "std::size_t" "i" ∷ []) (is_const ∷ [])
    ∷ add_method "GetAttributeN" "std::size_t" [] (is_const ∷ [])
    ∷ add_method "GetConstructor"
        "ns3::Callback< ns3::ObjectBase *, ns3::empty, ns3::empty, ns3::empty, ns3::empty, ns3::empty, ns3::empty, ns3::empty, ns3::empty, ns3::empty >"
        [] (is_const ∷ [])
    ∷ add_method "GetGroupName" "std::string" [] (is_const ∷ [])
    ∷ add_method "GetHash" "ns3::TypeId::hash_t" [] (is_const ∷ [])
    ∷ add_method "GetName" "std::string" [] (is_const ∷ [])
    ∷ add_method "GetParent" "ns3::TypeId" [] (is_const ∷ [])
    ∷ add_method "GetRegistered" "ns3::TypeId" (param "uint16_t" "i" ∷ []) (is_static ∷ [])
    ∷ add_method "GetRegisteredN" "uint16_t" [] (is_static ∷ [])
    ∷ add_method "GetSize" "std::size_t" [] (is_const ∷ [])
    ∷ add_method "GetTraceSource" "ns3::TypeId::TraceSourceInformation"
        (param "std::size_t" "i" ∷ []) (is_const ∷ [])
    ∷ add_method "GetTraceSourceN" "std::size_t" [] (is_const ∷ [])
    ∷ add_method "GetUid" "uint16_t" [] (is_const ∷ [])
    ∷ add_method "HasConstructor" "bool" [] (is_const ∷ [])
    ∷ add_method "HasParent" "bool" [] (is_const ∷ [])
    ∷ add_method "HideFromDocumentation" "ns3::TypeId" [] []
    ∷ add_method "IsChildOf" "bool" (param "ns3::TypeId" "other" ∷ []) (is_const ∷ [])
    ∷ add_method "LookupAttributeByName" "bool"
        (param "std::string" "name"
          ∷ param_with "ns3::TypeId::AttributeInformation *" "info" (transfer_ownership false ∷ [])
          ∷ [])
        (is_const ∷ [])
    ∷ add_method "LookupByHash" "ns3::TypeId" (param "uint32_t" "hash" ∷ []) (is_static ∷ [])
    ∷ add_method "LookupByHashFailSafe" "bool"
        (param "uint32_t" "hash" ∷ param "ns3::TypeId *" "tid" ∷ []) (is_static ∷ [])
    ∷ add_method "LookupByName" "ns3::TypeId" (param "std::string" "name" ∷ []) (is_static ∷ [])
    ∷ add_method "LookupTraceSourceByName" "ns3::Ptr< ns3::TraceSourceAccessor const >"
        (param "std::string" "name" ∷ []) (is_const ∷ [])
    ∷ add_method "LookupTraceSourceByName" "ns3::Ptr< ns3::TraceSourceAccessor const >"
        (param "std::string" "name" ∷ param "ns3::TypeId::TraceSourceInformation *" "info" ∷ [])
        (is_const ∷ [])
    ∷ add_method "MustHideFromDocumentation" "bool" [] (is_const ∷ [])
    ∷ add_method "SetAttributeInitialValue" "bool"
        (param "std::size_t" "i"
          ∷ param "ns3::Ptr< ns3::AttributeValue const >" "initialValue"
          ∷ [])
        []
    ∷ add_method "SetGroupName" "ns3::TypeId" (param "std::string" "groupName" ∷ []) []
    ∷ add_method "SetParent" "ns3::TypeId" (param "ns3::TypeId" "tid" ∷ []) []
    ∷ add_method "SetParent" "ns3::TypeId" [] (template_parameters ("ns3::QueueBase" ∷ []) ∷ [])
    ∷ add_method "SetSize" "ns3::TypeId" (param "std::size_t" "size" ∷ []) []
    ∷ add_method "SetUid" "void" (param "uint16_t" "uid" ∷ []) []
    ∷ []

abbrev pub register_ns3_type_id_attribute_information_methods : List Member
register_ns3_type_id_attribute_information_methods =
    add_constructor [] []
    ∷ add_constructor (param "ns3::TypeId::AttributeInformation const &" "arg0" ∷ []) []
    ∷ add_instance_attribute "accessor" "ns3::Ptr< ns3::AttributeAccessor const >" false
    ∷ add_instance_attribute "checker" "ns3::Ptr< ns3::AttributeChecker const >" false
    ∷ add_instance_attribute "flags" "uint32_t" false
    ∷ add_instance_attribute "help" "std::string" false
    ∷ add_instance_attribute "initialValue" "ns3::Ptr< ns3::AttributeValue const >" false
    ∷ add_instance_attribute "name" "std::string" false
    ∷ add_instance_attribute "originalInitialValue" "ns3::Ptr< ns3::AttributeValue const >" false
    ∷ add_instance_attribute "supportLevel" "ns3::TypeId::SupportLevel" false
    ∷ add_instance_attribute "supportMsg" "std::string" false
    ∷ []

abbrev pub register_ns3_type_id_trace_source_information_methods : List Member
register_ns3_type_id_trace_source_information_methods =
    add_constructor [] []
    ∷ add_constructor (param "ns3::TypeId::TraceSourceInformation const &" "arg0" ∷ []) []
    ∷ add_instance_attribute "accessor" "ns3::Ptr< ns3::TraceSourceAccessor const >" false
    ∷ add_instance_attribute "callback" "std::string" false
    ∷ add_instance_attribute "help" "std::string" false
    ∷ add_instance_attribute "name" "std::string" false
    ∷ add_instance_attribute "supportLevel" "ns3::TypeId::SupportLevel" false
    ∷ add_instance_attribute "supportMsg" "std::string" false
    ∷ []

abbrev pub register_ns3_empty_methods : List Member
register_ns3_empty_methods =
    add_constructor [] [] ∷ add_constructor (param "ns3::empty const &" "arg0" ∷ []) [] ∷ []
