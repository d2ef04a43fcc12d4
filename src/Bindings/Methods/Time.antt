-- ===== src/Bindings/Methods/Time.antt =====
-- The `register_…_methods` functions of bindings/modulegen__gcc_LP64.py, lines 3811 to 4267.
use cs621_network_programmin.Common.{List, [], ◌∷◌, false}
use cs621_network_programmin.Bindings.Syntax.{
  Member, is_const, is_virtual, is_pure_virtual, is_static, transfer_ownership, param, param_with,
  add_constructor, add_method, add_binary_comparison_operator, add_output_stream_operator,
  add_binary_numeric_operator, add_inplace_numeric_operator,
}

abbrev pub register_ns3_time_methods : List Member
register_ns3_time_methods =
    add_binary_comparison_operator "=="
    ∷ add_binary_comparison_operator "!="
    ∷ add_binary_comparison_operator "<="
    ∷ add_binary_comparison_operator ">="
    ∷ add_binary_comparison_operator "<"
    ∷ add_binary_comparison_operator ">"
    ∷ add_binary_numeric_operator "+" "ns3::Time" "ns3::Time" (param "ns3::Time const &" "right")
    ∷ add_binary_numeric_operator "-" "ns3::Time" "ns3::Time" (param "ns3::Time const &" "right")
    ∷ add_binary_numeric_operator "*" "ns3::Time" "ns3::Time" (param "int64_t const &" "right")
    ∷ add_binary_numeric_operator "/" "ns3::Time" "ns3::Time" (param "int64_t const &" "right")
    ∷ add_inplace_numeric_operator "+=" (param "ns3::Time const &" "right")
    ∷ add_inplace_numeric_operator "-=" (param "ns3::Time const &" "right")
    ∷ add_output_stream_operator
    ∷ add_constructor [] []
    ∷ add_constructor (param "ns3::Time const &" "o" ∷ []) []
    ∷ add_constructor (param "double" "v" ∷ []) []
    ∷ add_constructor (param "int" "v" ∷ []) []
    ∷ add_constructor (param "long int" "v" ∷ []) []
    ∷ add_constructor (param "long long int" "v" ∷ []) []
    ∷ add_constructor (param "unsigned int" "v" ∷ []) []
    ∷ add_constructor (param "long unsigned int" "v" ∷ []) []
    ∷ add_constructor (param "long long unsigned int" "v" ∷ []) []
    ∷ add_constructor (param "ns3::int64x64_t const &" "v" ∷ []) []
    ∷ add_constructor (param "std::string const &" "s" ∷ []) []
    ∷ add_method "As" "ns3::TimeWithUnit" (param "ns3::Time::Unit const" "unit" ∷ [])
        (is_const ∷ [])
    ∷ add_method "Compare" "int" (param "ns3::Time const &" "o" ∷ []) (is_const ∷ [])
    ∷ add_method "From" "ns3::Time" (param "ns3::int64x64_t const &" "value" ∷ []) (is_static ∷ [])
    ∷ add_method "From" "ns3::Time"
        (param "ns3::int64x64_t const &" "value" ∷ param "ns3::Time::Unit" "unit" ∷ [])
        (is_static ∷ [])
    ∷ add_method "FromDouble" "ns3::Time"
        (param "double" "value" ∷ param "ns3::Time::Unit" "unit" ∷ []) (is_static ∷ [])
    ∷ add_method "FromInteger" "ns3::Time"
        (param "uint64_t" "value" ∷ param "ns3::Time::Unit" "unit" ∷ []) (is_static ∷ [])
    ∷ add_method "GetDays" "double" [] (is_const ∷ [])
    ∷ add_method "GetDouble" "double" [] (is_const ∷ [])
    ∷ add_method "GetFemtoSeconds" "int64_t" [] (is_const ∷ [])
    ∷ add_method "GetHours" "double" [] (is_const ∷ [])
    ∷ add_method "GetInteger" "int64_t" [] (is_const ∷ [])
    ∷ add_method "GetMicroSeconds" "int64_t" [] (is_const ∷ [])
    ∷ add_method "GetMilliSeconds" "int64_t" [] (is_const ∷ [])
    ∷ add_method "GetMinutes" "double" [] (is_const ∷ [])
    ∷ add_method "GetNanoSeconds" "int64_t" [] (is_const ∷ [])
    ∷ add_method "GetPicoSeconds" "int64_t" [] (is_const ∷ [])
    ∷ add_method "GetResolution" "ns3::Time::Unit" [] (is_static ∷ [])
    ∷ add_method "GetSeconds" "double" [] (is_const ∷ [])
    ∷ add_method "GetTimeStep" "int64_t" [] (is_const ∷ [])
    ∷ add_method "GetYears" "double" [] (is_const ∷ [])
    ∷ add_method "IsNegative" "bool" [] (is_const ∷ [])
    ∷ add_method "IsPositive" "bool" [] (is_const ∷ [])
    ∷ add_method "IsStrictlyNegative" "bool" [] (is_const ∷ [])
    ∷ add_method "IsStrictlyPositive" "bool" [] (is_const ∷ [])
    ∷ add_method "IsZero" "bool" [] (is_const ∷ [])
    ∷ add_method "Max" "ns3::Time" [] (is_static ∷ [])
    ∷ add_method "Min" "ns3::Time" [] (is_static ∷ [])
    ∷ add_method "SetResolution" "void" (param "ns3::Time::Unit" "resolution" ∷ []) (is_static ∷ [])
    ∷ add_method "StaticInit" "bool" [] (is_static ∷ [])
    ∷ add_method "To" "ns3::int64x64_t" (param "ns3::Time::Unit" "unit" ∷ []) (is_const ∷ [])
    ∷ add_method "ToDouble" "double" (param "ns3::Time::Unit" "unit" ∷ []) (is_const ∷ [])
    ∷ add_method "ToInteger" "int64_t" (param "ns3::Time::Unit" "unit" ∷ []) (is_const ∷ [])
    ∷ []

abbrev pub register_ns3_trace_source_accessor_methods : List Member
register_ns3_trace_source_accessor_methods =
    add_constructor (param "ns3::TraceSourceAccessor const &" "arg0" ∷ []) []
    ∷ add_constructor [] []
    ∷ add_method "Connect" "bool"
        (param_with "ns3::ObjectBase *" "obj" (transfer_ownership false ∷ [])
          ∷ param "std::string" "context"
          ∷ param "ns3::CallbackBase const &" "cb"
          ∷ [])
        (is_pure_virtual ∷ is_const ∷ is_virtual ∷ [])
    ∷ add_method "ConnectWithoutContext" "bool"
        (param_with "ns3::ObjectBase *" "obj" (transfer_ownership false ∷ [])
          ∷ param "ns3::CallbackBase const &" "cb"
          ∷ [])
        (is_pure_virtual ∷ is_const ∷ is_virtual ∷ [])
    ∷ add_method "Disconnect" "bool"
        (param_with "ns3::ObjectBase *" "obj" (transfer_ownership false ∷ [])
          ∷ param "std::string" "context"
          ∷ param "ns3::CallbackBase const &" "cb"
          ∷ [])
        (is_pure_virtual ∷ is_const ∷ is_virtual ∷ [])
    ∷ add_method "DisconnectWithoutContext" "bool"
        (param_with "ns3::ObjectBase *" "obj" (transfer_ownership false ∷ [])
          ∷ param "ns3::CallbackBase const &" "cb"
          ∷ [])
        (is_pure_virtual ∷ is_const ∷ is_virtual ∷ [])
    ∷ []

abbrev pub register_ns3_trailer_methods : List Member
register_ns3_trailer_methods =
    add_output_stream_operator
    ∷ add_constructor [] []
    ∷ add_constructor (param "ns3::Trailer const &" "arg0" ∷ []) []
    ∷ add_method "Deserialize" "uint32_t" (param "ns3::Buffer::Iterator" "end" ∷ [])
        (is_pure_virtual ∷ is_virtual ∷ [])
    ∷ add_method "Deserialize" "uint32_t"
        (param "ns3::Buffer::Iterator" "start" ∷ param "ns3::Buffer::Iterator" "end" ∷ [])
        (is_virtual ∷ [])
    ∷ add_method "GetSerializedSize" "uint32_t" [] (is_pure_virtual ∷ is_const ∷ is_virtual ∷ [])
    ∷ add_method "GetTypeId" "ns3::TypeId" [] (is_static ∷ [])
    ∷ add_method "Print" "void" (param "std::ostream &" "os" ∷ [])
        (is_pure_virtual ∷ is_const ∷ is_virtual ∷ [])
    ∷ add_method "Serialize" "void" (param "ns3::Buffer::Iterator" "start" ∷ [])
        (is_pure_virtual ∷ is_const ∷ is_virtual ∷ [])
    ∷ []

abbrev pub register_ns3_triangular_random_variable_methods : List Member
register_ns3_triangular_random_variable_methods =
    add_method "GetTypeId" "ns3::TypeId" [] (is_static ∷ [])
    ∷ add_constructor [] []
    ∷ add_method "GetMean" "double" [] (is_const ∷ [])
    ∷ add_method "GetMin" "double" [] (is_const ∷ [])
    ∷ add_method "GetMax" "double" [] (is_const ∷ [])
    ∷ add_method "GetValue" "double"
        (param "double" "mean" ∷ param "double" "min" ∷ param "double" "max" ∷ []) []
    ∷ add_method "GetInteger" "uint32_t"
        (param "uint32_t" "mean" ∷ param "uint32_t" "min" ∷ param "uint32_t" "max" ∷ []) []
    ∷ add_method "GetValue" "double" [] (is_virtual ∷ [])
    ∷ add_method "GetInteger" "uint32_t" [] (is_virtual ∷ [])
    ∷ []

abbrev pub register_ns3_uniform_random_variable_methods : List Member
register_ns3_uniform_random_variable_methods =
    add_method "GetTypeId" "ns3::TypeId" [] (is_static ∷ [])
    ∷ add_constructor [] []
    ∷ add_method "GetMin" "double" [] (is_const ∷ [])
    ∷ add_method "GetMax" "double" [] (is_const ∷ [])
    ∷ add_method "GetValue" "double" (param "double" "min" ∷ param "double" "max" ∷ []) []
    ∷ add_method "GetInteger" "uint32_t" (param "uint32_t" "min" ∷ param "uint32_t" "max" ∷ []) []
    ∷ add_method "GetValue" "double" [] (is_virtual ∷ [])
    ∷ add_method "GetInteger" "uint32_t" [] (is_virtual ∷ [])
    ∷ []

abbrev pub register_ns3_weibull_random_variable_methods : List Member
register_ns3_weibull_random_variable_methods =
    add_method "GetTypeId" "ns3::TypeId" [] (is_static ∷ [])
    ∷ add_constructor [] []
    ∷ add_method "GetScale" "double" [] (is_const ∷ [])
    ∷ add_method "GetShape" "double" [] (is_const ∷ [])
    ∷ add_method "GetBound" "double" [] (is_const ∷ [])
    ∷ add_method "GetValue" "double"
        (param "double" "scale" ∷ param "double" "shape" ∷ param "double" "bound" ∷ []) []
    ∷ add_method "GetInteger" "uint32_t"
        (param "uint32_t" "scale" ∷ param "uint32_t" "shape" ∷ param "uint32_t" "bound" ∷ []) []
    ∷ add_method "GetValue" "double" [] (is_virtual ∷ [])
    ∷ add_method "GetInteger" "uint32_t" [] (is_virtual ∷ [])
    ∷ []

abbrev pub register_ns3_zeta_random_variable_methods : List Member
register_ns3_zeta_random_variable_methods =
    add_method "GetTypeId" "ns3::TypeId" [] (is_static ∷ [])
    ∷ add_constructor [] []
    ∷ add_method "GetAlpha" "double" [] (is_const ∷ [])
    ∷ add_method "GetValue" "double" (param "double" "alpha" ∷ []) []
    ∷ add_method "GetInteger" "uint32_t" (param "uint32_t" "alpha" ∷ []) []
    ∷ add_method "GetValue" "double" [] (is_virtual ∷ [])
    ∷ add_method "GetInteger" "uint32_t" [] (is_virtual ∷ [])
    ∷ []

abbrev pub register_ns3_zipf_random_variable_methods : List Member
register_ns3_zipf_random_variable_methods =
    add_method "GetTypeId" "ns3::TypeId" [] (is_static ∷ [])
    ∷ add_constructor [] []
    ∷ add_method "GetN" "uint32_t" [] (is_const ∷ [])
    ∷ add_method "GetAlpha" "double" [] (is_const ∷ [])
    ∷ add_method "GetValue" "double" (param "uint32_t" "n" ∷ param "double" "alpha" ∷ []) []
    ∷ add_method "GetInteger" "uint32_t" (param "uint32_t" "n" ∷ param "uint32_t" "alpha" ∷ []) []
    ∷ add_method "GetValue" "double" [] (is_virtual ∷ [])
    ∷ add_method "GetInteger" "uint32_t" [] (is_virtual ∷ [])
    ∷ []
