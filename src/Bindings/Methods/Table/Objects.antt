-- ===== src/Bindings/Methods/Table/Objects.antt =====
-- `register_methods` of bindings/modulegen__gcc_LP64.py, lines 606 to 650: the key of each class and
-- the calls that its function makes on it.
use cs621_network_programmin.Common.{List, [], ◌∷◌, String}
use cs621_network_programmin.Bindings.Syntax.{Member}
use cs621_network_programmin.Bindings.Methods.RandomVariableStream.{
  register_ns3_simple_ref_count_attribute_accessor_methods,
  register_ns3_simple_ref_count_attribute_checker_methods,
  register_ns3_simple_ref_count_attribute_value_methods,
  register_ns3_simple_ref_count_callback_impl_base_methods,
  register_ns3_simple_ref_count_event_impl_methods,
  register_ns3_simple_ref_count_hash_implementation_methods,
  register_ns3_simple_ref_count_nix_vector_methods,
  register_ns3_simple_ref_count_output_stream_wrapper_methods,
  register_ns3_simple_ref_count_packet_methods,
  register_ns3_simple_ref_count_trace_source_accessor_methods,
}
use cs621_network_programmin.Bindings.Methods.Time.{
  register_ns3_time_methods, register_ns3_trace_source_accessor_methods,
  register_ns3_trailer_methods, register_ns3_triangular_random_variable_methods,
  register_ns3_uniform_random_variable_methods, register_ns3_weibull_random_variable_methods,
  register_ns3_zeta_random_variable_methods, register_ns3_zipf_random_variable_methods,
}
use cs621_network_programmin.Bindings.Methods.AttributeAccessor.{
  register_ns3_attribute_accessor_methods, register_ns3_attribute_checker_methods,
  register_ns3_attribute_value_methods, register_ns3_boolean_checker_methods,
  register_ns3_boolean_value_methods, register_ns3_callback_checker_methods,
  register_ns3_callback_impl_base_methods, register_ns3_callback_value_methods,
  register_ns3_channel_methods, register_ns3_constant_random_variable_methods,
  register_ns3_data_rate_checker_methods, register_ns3_data_rate_value_methods,
  register_ns3_deterministic_random_variable_methods,
}
use cs621_network_programmin.Bindings.Methods.DoubleValue.{
  register_ns3_double_value_methods, register_ns3_empirical_random_variable_methods,
  register_ns3_empty_attribute_accessor_methods, register_ns3_empty_attribute_checker_methods,
  register_ns3_empty_attribute_value_methods, register_ns3_enum_checker_methods,
  register_ns3_enum_value_methods, register_ns3_erlang_random_variable_methods,
  register_ns3_error_model_methods, register_ns3_event_impl_methods,
  register_ns3_exponential_random_variable_methods, register_ns3_gamma_random_variable_methods,
  register_ns3_integer_value_methods,
}
use cs621_network_programmin.Bindings.Methods.Ipv4AddressChecker.{
  register_ns3_ipv4_address_checker_methods,
}

abbrev pub method_table_objects : List (String × List Member)
method_table_objects =
    (
      "ns3::SimpleRefCount< ns3::AttributeAccessor, ns3::empty, ns3::DefaultDeleter<ns3::AttributeAccessor> >",
      register_ns3_simple_ref_count_attribute_accessor_methods,
    )
    ∷ (
      "ns3::SimpleRefCount< ns3::AttributeChecker, ns3::empty, ns3::DefaultDeleter<ns3::AttributeChecker> >",
      register_ns3_simple_ref_count_attribute_checker_methods,
    )
    ∷ (
      "ns3::SimpleRefCount< ns3::AttributeValue, ns3::empty, ns3::DefaultDeleter<ns3::AttributeValue> >",
      register_ns3_simple_ref_count_attribute_value_methods,
    )
    ∷ (
      "ns3::SimpleRefCount< ns3::CallbackImplBase, ns3::empty, ns3::DefaultDeleter<ns3::CallbackImplBase> >",
      register_ns3_simple_ref_count_callback_impl_base_methods,
    )
    ∷ (
      "ns3::SimpleRefCount< ns3::EventImpl, ns3::empty, ns3::DefaultDeleter<ns3::EventImpl> >",
      register_ns3_simple_ref_count_event_impl_methods,
    )
    ∷ (
      "ns3::SimpleRefCount< ns3::Hash::Implementation, ns3::empty, ns3::DefaultDeleter<ns3::Hash::Implementation> >",
      register_ns3_simple_ref_count_hash_implementation_methods,
    )
    ∷ (
      "ns3::SimpleRefCount< ns3::NixVector, ns3::empty, ns3::DefaultDeleter<ns3::NixVector> >",
      register_ns3_simple_ref_count_nix_vector_methods,
    )
    ∷ (
      "ns3::SimpleRefCount< ns3::OutputStreamWrapper, ns3::empty, ns3::DefaultDeleter<ns3::OutputStreamWrapper> >",
      register_ns3_simple_ref_count_output_stream_wrapper_methods,
    )
    ∷ (
      "ns3::SimpleRefCount< ns3::Packet, ns3::empty, ns3::DefaultDeleter<ns3::Packet> >",
      register_ns3_simple_ref_count_packet_methods,
    )
    ∷ (
      "ns3::SimpleRefCount< ns3::TraceSourceAccessor, ns3::empty, ns3::DefaultDeleter<ns3::TraceSourceAccessor> >",
      register_ns3_simple_ref_count_trace_source_accessor_methods,
    )
    ∷ ("ns3::Time", register_ns3_time_methods)
    ∷ ("ns3::TraceSourceAccessor", register_ns3_trace_source_accessor_methods)
    ∷ ("ns3::Trailer", register_ns3_trailer_methods)
    ∷ ("ns3::TriangularRandomVariable", register_ns3_triangular_random_variable_methods)
    ∷ ("ns3::UniformRandomVariable", register_ns3_uniform_random_variable_methods)
    ∷ ("ns3::WeibullRandomVariable", register_ns3_weibull_random_variable_methods)
    ∷ ("ns3::ZetaRandomVariable", register_ns3_zeta_random_variable_methods)
    ∷ ("ns3::ZipfRandomVariable", register_ns3_zipf_random_variable_methods)
    ∷ ("ns3::AttributeAccessor", register_ns3_attribute_accessor_methods)
    ∷ ("ns3::AttributeChecker", register_ns3_attribute_checker_methods)
    ∷ ("ns3::AttributeValue", register_ns3_attribute_value_methods)
    ∷ ("ns3::BooleanChecker", register_ns3_boolean_checker_methods)
    ∷ ("ns3::BooleanValue", register_ns3_boolean_value_methods)
    ∷ ("ns3::CallbackChecker", register_ns3_callback_checker_methods)
    ∷ ("ns3::CallbackImplBase", register_ns3_callback_impl_base_methods)
    ∷ ("ns3::CallbackValue", register_ns3_callback_value_methods)
    ∷ ("ns3::Channel", register_ns3_channel_methods)
    ∷ ("ns3::ConstantRandomVariable", register_ns3_constant_random_variable_methods)
    ∷ ("ns3::DataRateChecker", register_ns3_data_rate_checker_methods)
    ∷ ("ns3::DataRateValue", register_ns3_data_rate_value_methods)
    ∷ ("ns3::DeterministicRandomVariable", register_ns3_deterministic_random_variable_methods)
    ∷ ("ns3::DoubleValue", register_ns3_double_value_methods)
    ∷ ("ns3::EmpiricalRandomVariable", register_ns3_empirical_random_variable_methods)
    ∷ ("ns3::EmptyAttributeAccessor", register_ns3_empty_attribute_accessor_methods)
    ∷ ("ns3::EmptyAttributeChecker", register_ns3_empty_attribute_checker_methods)
    ∷ ("ns3::EmptyAttributeValue", register_ns3_empty_attribute_value_methods)
    ∷ ("ns3::EnumChecker", register_ns3_enum_checker_methods)
    ∷ ("ns3::EnumValue", register_ns3_enum_value_methods)
    ∷ ("ns3::ErlangRandomVariable", register_ns3_erlang_random_variable_methods)
    ∷ ("ns3::ErrorModel", register_ns3_error_model_methods)
    ∷ ("ns3::EventImpl", register_ns3_event_impl_methods)
    ∷ ("ns3::ExponentialRandomVariable", register_ns3_exponential_random_variable_methods)
    ∷ ("ns3::GammaRandomVariable", register_ns3_gamma_random_variable_methods)
    ∷ ("ns3::IntegerValue", register_ns3_integer_value_methods)
    ∷ ("ns3::Ipv4AddressChecker", register_ns3_ipv4_address_checker_methods)
    ∷ []
