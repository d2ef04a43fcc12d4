-- ===== src/Bindings/Methods/DoubleValue.antt =====
-- The `register_…_methods` functions of bindings/modulegen__gcc_LP64.py, lines 4627 to 5070.
use cs621_network_programmin.Common.{List, [], ◌∷◌}
use cs621_network_programmin.Bindings.Syntax.{
  Member, visibility, is_const, is_virtual, is_pure_virtual, is_static, param, add_constructor,
  add_method,
}

abbrev pub register_ns3_double_value_methods : List Member
register_ns3_double_value_methods =
    add_constructor [] []
    ∷ add_constructor (param "double const &" "value" ∷ []) []
    ∷ add_constructor (param "ns3::DoubleValue const &" "arg0" ∷ []) []
    ∷ add_method "Copy" "ns3::Ptr< ns3::AttributeValue >" [] (is_const ∷ is_virtual ∷ [])
    ∷ add_method "DeserializeFromString" "bool"
        (param "std::string" "value"
          ∷ param "ns3::Ptr< ns3::AttributeChecker const >" "checker"
          ∷ [])
        (is_virtual ∷ [])
    ∷ add_method "Get" "double" [] (is_const ∷ [])
    ∷ add_method "SerializeToString" "std::string"
        (param "ns3::Ptr< ns3::AttributeChecker const >" "checker" ∷ [])
        (is_const ∷ is_virtual ∷ [])
    ∷ add_method "Set" "void" (param "double const &" "value" ∷ []) []
    ∷ []

abbrev pub register_ns3_empirical_random_variable_methods : List Member
register_ns3_empirical_random_variable_methods =
    add_constructor [] []
    ∷ add_method "CDF" "void" (param "double" "v" ∷ param "double" "c" ∷ []) []
    ∷ add_method "GetInteger" "uint32_t" [] (is_virtual ∷ [])
    ∷ add_method "GetTypeId" "ns3::TypeId" [] (is_static ∷ [])
    ∷ add_method "GetValue" "double" [] (is_virtual ∷ [])
    ∷ add_method "Interpolate" "double"
        (param "double" "c1"
          ∷ param "double" "c2"
          ∷ param "double" "v1"
          ∷ param "double" "v2"
          ∷ param "double" "r"
          ∷ [])
        (visibility "private" ∷ is_virtual ∷ [])
    ∷ add_method "Validate" "void" [] (visibility "private" ∷ is_virtual ∷ [])
    ∷ []

abbrev pub register_ns3_empty_attribute_accessor_methods : List Member
register_ns3_empty_attribute_accessor_methods =
    add_constructor (param "ns3::EmptyAttributeAccessor const &" "arg0" ∷ []) []
    ∷ add_constructor [] []
    ∷ add_method "Get" "bool"
        (param "ns3::ObjectBase const *" "object" ∷ param "ns3::AttributeValue &" "attribute" ∷ [])
        (is_const ∷ is_virtual ∷ [])
    ∷ add_method "HasGetter" "bool" [] (is_const ∷ is_virtual ∷ [])
    ∷ add_method "HasSetter" "bool" [] (is_const ∷ is_virtual ∷ [])
    ∷ add_method "Set" "bool"
        (param "ns3::ObjectBase *" "object" ∷ param "ns3::AttributeValue const &" "value" ∷ [])
        (is_const ∷ is_virtual ∷ [])
    ∷ []

abbrev pub register_ns3_empty_attribute_checker_methods : List Member
register_ns3_empty_attribute_checker_methods =
    add_constructor (param "ns3::EmptyAttributeChecker const &" "arg0" ∷ []) []
    ∷ add_constructor [] []
    ∷ add_method "Check" "bool" (param "ns3::AttributeValue const &" "value" ∷ [])
        (is_const ∷ is_virtual ∷ [])
    ∷ add_method "Copy" "bool"
        (param "ns3::AttributeValue const &" "source"
          ∷ param "ns3::AttributeValue &" "destination"
          ∷ [])
        (is_const ∷ is_virtual ∷ [])
    ∷ add_method "Create" "ns3::Ptr< ns3::AttributeValue >" [] (is_const ∷ is_virtual ∷ [])
    ∷ add_method "GetUnderlyingTypeInformation" "std::string" [] (is_const ∷ is_virtual ∷ [])
    ∷ add_method "GetValueTypeName" "std::string" [] (is_const ∷ is_virtual ∷ [])
    ∷ add_method "HasUnderlyingTypeInformation" "bool" [] (is_const ∷ is_virtual ∷ [])
    ∷ []

abbrev pub register_ns3_empty_attribute_value_methods : List Member
register_ns3_empty_attribute_value_methods =
    add_constructor (param "ns3::EmptyAttributeValue const &" "arg0" ∷ []) []
    ∷ add_constructor [] []
    ∷ add_method "Copy" "ns3::Ptr< ns3::AttributeValue >" []
        (is_const ∷ visibility "private" ∷ is_virtual ∷ [])
    ∷ add_method "DeserializeFromString" "bool"
        (param "std::string" "value"
          ∷ param "ns3::Ptr< ns3::AttributeChecker const >" "checker"
          ∷ [])
        (visibility "private" ∷ is_virtual ∷ [])
    ∷ add_method "SerializeToString" "std::string"
        (param "ns3::Ptr< ns3::AttributeChecker const >" "checker" ∷ [])
        (is_const ∷ visibility "private" ∷ is_virtual ∷ [])
    ∷ []

abbrev pub register_ns3_enum_checker_methods : List Member
register_ns3_enum_checker_methods =
    add_constructor (param "ns3::EnumChecker const &" "arg0" ∷ []) []
    ∷ add_constructor [] []
    ∷ add_method "Add" "void" (param "int" "value" ∷ param "std::string" "name" ∷ []) []
    ∷ add_method "AddDefault" "void" (param "int" "value" ∷ param "std::string" "name" ∷ []) []
    ∷ add_method "Check" "bool" (param "ns3::AttributeValue const &" "value" ∷ [])
        (is_const ∷ is_virtual ∷ [])
    ∷ add_method "Copy" "bool"
        (param "ns3::AttributeValue const &" "src" ∷ param "ns3::AttributeValue &" "dst" ∷ [])
        (is_const ∷ is_virtual ∷ [])
    ∷ add_method "Create" "ns3::Ptr< ns3::AttributeValue >" [] (is_const ∷ is_virtual ∷ [])
    ∷ add_method "GetUnderlyingTypeInformation" "std::string" [] (is_const ∷ is_virtual ∷ [])
    ∷ add_method "GetValueTypeName" "std::string" [] (is_const ∷ is_virtual ∷ [])
    ∷ add_method "HasUnderlyingTypeInformation" "bool" [] (is_const ∷ is_virtual ∷ [])
    ∷ []

abbrev pub register_ns3_enum_value_methods : List Member
register_ns3_enum_value_methods =
    add_constructor (param "ns3::EnumValue const &" "arg0" ∷ []) []
    ∷ add_constructor [] []
    ∷ add_constructor (param "int" "value" ∷ []) []
    ∷ add_method "Copy" "ns3::Ptr< ns3::AttributeValue >" [] (is_const ∷ is_virtual ∷ [])
    ∷ add_method "DeserializeFromString" "bool"
        (param "std::string" "value"
          ∷ param "ns3::Ptr< ns3::AttributeChecker const >" "checker"
          ∷ [])
        (is_virtual ∷ [])
    ∷ add_method "Get" "int" [] (is_const ∷ [])
    ∷ add_method "SerializeToString" "std::string"
        (param "ns3::Ptr< ns3::AttributeChecker const >" "checker" ∷ [])
        (is_const ∷ is_virtual ∷ [])
    ∷ add_method "Set" "void" (param "int" "value" ∷ []) []
    ∷ []

abbrev pub register_ns3_erlang_random_variable_methods : List Member
register_ns3_erlang_random_variable_methods =
    add_method "GetTypeId" "ns3::TypeId" [] (is_static ∷ [])
    ∷ add_constructor [] []
    ∷ add_method "GetK" "uint32_t" [] (is_const ∷ [])
    ∷ add_method "GetLambda" "double" [] (is_const ∷ [])
    ∷ add_method "GetValue" "double" (param "uint32_t" "k" ∷ param "double" "lambda" ∷ []) []
    ∷ add_method "GetInteger" "uint32_t" (param "uint32_t" "k" ∷ param "uint32_t" "lambda" ∷ []) []
    ∷ add_method "GetValue" "double" [] (is_virtual ∷ [])
    ∷ add_method "GetInteger" "uint32_t" [] (is_virtual ∷ [])
    ∷ []

abbrev pub register_ns3_error_model_methods : List Member
register_ns3_error_model_methods =
    add_constructor (param "ns3::ErrorModel const &" "arg0" ∷ []) []
    ∷ add_constructor [] []
    ∷ add_method "Disable" "void" [] []
    ∷ add_method "Enable" "void" [] []
    ∷ add_method "GetTypeId" "ns3::TypeId" [] (is_static ∷ [])
    ∷ add_method "IsCorrupt" "bool" (param "ns3::Ptr< ns3::Packet >" "pkt" ∷ []) []
    ∷ add_method "IsEnabled" "bool" [] (is_const ∷ [])
    ∷ add_method "Reset" "void" [] []
    ∷ add_method "DoCorrupt" "bool" (param "ns3::Ptr< ns3::Packet >" "p" ∷ [])
        (is_pure_virtual ∷ visibility "private" ∷ is_virtual ∷ [])
    ∷ add_method "DoReset" "void" [] (is_pure_virtual ∷ visibility "private" ∷ is_virtual ∷ [])
    ∷ []

abbrev pub register_ns3_event_impl_methods : List Member
register_ns3_event_impl_methods =
    add_constructor (param "ns3::EventImpl const &" "arg0" ∷ []) []
    ∷ add_constructor [] []
    ∷ add_method "Cancel" "void" [] []
    ∷ add_method "Invoke" "void" [] []
    ∷ add_method "IsCancelled" "bool" [] []
    ∷ add_method "Notify" "void" [] (is_pure_virtual ∷ visibility "protected" ∷ is_virtual ∷ [])
    ∷ []

abbrev pub register_ns3_exponential_random_variable_methods : List Member
register_ns3_exponential_random_variable_methods =
    add_method "GetTypeId" "ns3::TypeId" [] (is_static ∷ [])
    ∷ add_constructor [] []
    ∷ add_method "GetMean" "double" [] (is_const ∷ [])
    ∷ add_method "GetBound" "double" [] (is_const ∷ [])
    ∷ add_method "GetValue" "double" (param "double" "mean" ∷ param "double" "bound" ∷ []) []
    ∷ add_method "GetInteger" "uint32_t" (param "uint32_t" "mean" ∷ param "uint32_t" "bound" ∷ [])
        []
    ∷ add_method "GetValue" "double" [] (is_virtual ∷ [])
    ∷ add_method "GetInteger" "uint32_t" [] (is_virtual ∷ [])
    ∷ []

abbrev pub register_ns3_gamma_random_variable_methods : List Member
register_ns3_gamma_random_variable_methods =
    add_method "GetTypeId" "ns3::TypeId" [] (is_static ∷ [])
    ∷ add_constructor [] []
    ∷ add_method "GetAlpha" "double" [] (is_const ∷ [])
    ∷ add_method "GetBeta" "double" [] (is_const ∷ [])
    ∷ add_method "GetValue" "double" (param "double" "alpha" ∷ param "double" "beta" ∷ []) []
    ∷ add_method "GetInteger" "uint32_t" (param "uint32_t" "alpha" ∷ param "uint32_t" "beta" ∷ [])
        []
    ∷ add_method "GetValue" "double" [] (is_virtual ∷ [])
    ∷ add_method "GetInteger" "uint32_t" [] (is_virtual ∷ [])
    ∷ []

abbrev pub register_ns3_integer_value_methods : List Member
register_ns3_integer_value_methods =
    add_constructor [] []
    ∷ add_constructor (param "int64_t const &" "value" ∷ []) []
    ∷ add_constructor (param "ns3::IntegerValue const &" "arg0" ∷ []) []
    ∷ add_method "Copy" "ns3::Ptr< ns3::AttributeValue >" [] (is_const ∷ is_virtual ∷ [])
    ∷ add_method "DeserializeFromString" "bool"
        (param "std::string" "value"
          ∷ param "ns3::Ptr< ns3::AttributeChecker const >" "checker"
          ∷ [])
        (is_virtual ∷ [])
    ∷ add_method "Get" "int64_t" [] (is_const ∷ [])
    ∷ add_method "SerializeToString" "std::string"
        (param "ns3::Ptr< ns3::AttributeChecker const >" "checker" ∷ [])
        (is_const ∷ is_virtual ∷ [])
    ∷ add_method "Set" "void" (param "int64_t const &" "value" ∷ []) []
    ∷ []
