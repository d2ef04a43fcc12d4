-- ===== src/Bindings/Methods/Table/Devices.antt =====
-- `register_methods` of bindings/modulegen__gcc_LP64.py, lines 651 to 698: the key of each class and
-- the calls that its function makes on it.
use cs621_network_programmin.Common.{List, [], ◌∷◌, String}
use cs621_network_programmin.Bindings.Syntax.{Member}
use cs621_network_programmin.Bindings.Methods.Ipv4AddressChecker.{
  register_ns3_ipv4_address_value_methods, register_ns3_ipv4_mask_checker_methods,
  register_ns3_ipv4_mask_value_methods, register_ns3_ipv6_address_checker_methods,
  register_ns3_ipv6_address_value_methods, register_ns3_ipv6_prefix_checker_methods,
  register_ns3_ipv6_prefix_value_methods, register_ns3_list_error_model_methods,
  register_ns3_log_normal_random_variable_methods, register_ns3_mac48_address_checker_methods,
  register_ns3_mac48_address_value_methods, register_ns3_net_device_methods,
}
use cs621_network_programmin.Bindings.Methods.NixVector.{
  register_ns3_nix_vector_methods, register_ns3_node_methods,
  register_ns3_normal_random_variable_methods, register_ns3_object_factory_checker_methods,
  register_ns3_object_factory_value_methods, register_ns3_output_stream_wrapper_methods,
  register_ns3_packet_methods, register_ns3_pareto_random_variable_methods,
}
use cs621_network_programmin.Bindings.Methods.PointToPointChannel.{
  register_ns3_point_to_point_channel_methods, register_ns3_point_to_point_net_device_methods,
  register_ns3_point_to_point_remote_channel_methods, register_ns3_queue_ns3_packet_methods,
  register_ns3_queue_size_checker_methods, register_ns3_queue_size_value_methods,
  register_ns3_rate_error_model_methods, register_ns3_receive_list_error_model_methods,
}
use cs621_network_programmin.Bindings.Methods.TimeValue.{
  register_ns3_time_value_methods, register_ns3_type_id_checker_methods,
  register_ns3_type_id_value_methods, register_ns3_uinteger_value_methods,
  register_ns3_address_checker_methods, register_ns3_address_value_methods,
  register_ns3_binary_error_model_methods, register_ns3_burst_error_model_methods,
  register_ns3_callback_impl_object_base_methods,
  register_ns3_callback_impl_void_packet_devices_times_methods,
  register_ns3_callback_impl_void_packet_methods,
  register_ns3_callback_impl_void_device_packet_addresses_methods,
  register_ns3_callback_impl_void_net_device_methods,
}
use cs621_network_programmin.Bindings.Methods.CallbackImpl.{
  register_ns3_callback_impl_void_methods,
  register_ns3_callback_impl_void_unsigned_int_unsigned_int_methods,
  register_ns3_hash_implementation_methods, register_ns3_hash_function_fnv1a_methods,
  register_ns3_hash_function_hash32_methods, register_ns3_hash_function_hash64_methods,
  register_ns3_hash_function_murmur3_methods,
}

abbrev pub method_table_devices : List (String × List Member)
method_table_devices =
    ("ns3::Ipv4AddressValue", register_ns3_ipv4_address_value_methods)
    ∷ ("ns3::Ipv4MaskChecker", register_ns3_ipv4_mask_checker_methods)
    ∷ ("ns3::Ipv4MaskValue", register_ns3_ipv4_mask_value_methods)
    ∷ ("ns3::Ipv6AddressChecker", register_ns3_ipv6_address_checker_methods)
    ∷ ("ns3::Ipv6AddressValue", register_ns3_ipv6_address_value_methods)
    ∷ ("ns3::Ipv6PrefixChecker", register_ns3_ipv6_prefix_checker_methods)
    ∷ ("ns3::Ipv6PrefixValue", register_ns3_ipv6_prefix_value_methods)
    ∷ ("ns3::ListErrorModel", register_ns3_list_error_model_methods)
    ∷ ("ns3::LogNormalRandomVariable", register_ns3_log_normal_random_variable_methods)
    ∷ ("ns3::Mac48AddressChecker", register_ns3_mac48_address_checker_methods)
    ∷ ("ns3::Mac48AddressValue", register_ns3_mac48_address_value_methods)
    ∷ ("ns3::NetDevice", register_ns3_net_device_methods)
    ∷ ("ns3::NixVector", register_ns3_nix_vector_methods)
    ∷ ("ns3::Node", register_ns3_node_methods)
    ∷ ("ns3::NormalRandomVariable", register_ns3_normal_random_variable_methods)
    ∷ ("ns3::ObjectFactoryChecker", register_ns3_object_factory_checker_methods)
    ∷ ("ns3::ObjectFactoryValue", register_ns3_object_factory_value_methods)
    ∷ ("ns3::OutputStreamWrapper", register_ns3_output_stream_wrapper_methods)
    ∷ ("ns3::Packet", register_ns3_packet_methods)
    ∷ ("ns3::ParetoRandomVariable", register_ns3_pareto_random_variable_methods)
    ∷ ("ns3::PointToPointChannel", register_ns3_point_to_point_channel_methods)
    ∷ ("ns3::PointToPointNetDevice", register_ns3_point_to_point_net_device_methods)
    ∷ ("ns3::PointToPointRemoteChannel", register_ns3_point_to_point_remote_channel_methods)
    ∷ ("ns3::Queue< ns3::Packet >", register_ns3_queue_ns3_packet_methods)
    ∷ ("ns3::QueueSizeChecker", register_ns3_queue_size_checker_methods)
    ∷ ("ns3::QueueSizeValue", register_ns3_queue_size_value_methods)
    ∷ ("ns3::RateErrorModel", register_ns3_rate_error_model_methods)
    ∷ ("ns3::ReceiveListErrorModel", register_ns3_receive_list_error_model_methods)
    ∷ ("ns3::TimeValue", register_ns3_time_value_methods)
    ∷ ("ns3::TypeIdChecker", register_ns3_type_id_checker_methods)
    ∷ ("ns3::TypeIdValue", register_ns3_type_id_value_methods)
    ∷ ("ns3::UintegerValue", register_ns3_uinteger_value_methods)
    ∷ ("ns3::AddressChecker", register_ns3_address_checker_methods)
    ∷ ("ns3::AddressValue", register_ns3_address_value_methods)
    ∷ ("ns3::BinaryErrorModel", register_ns3_binary_error_model_methods)
    ∷ ("ns3::BurstErrorModel", register_ns3_burst_error_model_methods)
    ∷ (
      "ns3::CallbackImpl< ns3::ObjectBase *, ns3::empty, ns3::empty, ns3::empty, ns3::empty, ns3::empty, ns3::empty, ns3::empty, ns3::empty, ns3::empty >",
      register_ns3_callback_impl_object_base_methods,
    )
    ∷ (
      "ns3::CallbackImpl< void, ns3::Ptr<const ns3::Packet>, ns3::Ptr<ns3::NetDevice>, ns3::Ptr<ns3::NetDevice>, ns3::Time, ns3::Time, ns3::empty, ns3::empty, ns3::empty, ns3::empty >",
      register_ns3_callback_impl_void_packet_devices_times_methods,
    )
    ∷ (
      "ns3::CallbackImpl< void, ns3::Ptr<const ns3::Packet>, ns3::empty, ns3::empty, ns3::empty, ns3::empty, ns3::empty, ns3::empty, ns3::empty, ns3::empty >",
      register_ns3_callback_impl_void_packet_methods,
    )
    ∷ (
      "ns3::CallbackImpl< void, ns3::Ptr<ns3::NetDevice>, ns3::Ptr<const ns3::Packet>, unsigned short, const ns3::Address &, const ns3::Address &, ns3::NetDevice::PacketType, ns3::empty, ns3::empty, ns3::empty >",
      register_ns3_callback_impl_void_device_packet_addresses_methods,
    )
    ∷ (
      "ns3::CallbackImpl< void, ns3::Ptr<ns3::NetDevice>, ns3::empty, ns3::empty, ns3::empty, ns3::empty, ns3::empty, ns3::empty, ns3::empty, ns3::empty >",
      register_ns3_callback_impl_void_net_device_methods,
    )
    ∷ (
      "ns3::CallbackImpl< void, ns3::empty, ns3::empty, ns3::empty, ns3::empty, ns3::empty, ns3::empty, ns3::empty, ns3::empty, ns3::empty >",
      register_ns3_callback_impl_void_methods,
    )
    ∷ (
      "ns3::CallbackImpl< void, unsigned int, unsigned int, ns3::empty, ns3::empty, ns3::empty, ns3::empty, ns3::empty, ns3::empty, ns3::empty >",
      register_ns3_callback_impl_void_unsigned_int_unsigned_int_methods,
    )
    ∷ ("ns3::Hash::Implementation", register_ns3_hash_implementation_methods)
    ∷ ("ns3::Hash::Function::Fnv1a", register_ns3_hash_function_fnv1a_methods)
    ∷ ("ns3::Hash::Function::Hash32", register_ns3_hash_function_hash32_methods)
    ∷ ("ns3::Hash::Function::Hash64", register_ns3_hash_function_hash64_methods)
    ∷ ("ns3::Hash::Function::Murmur3", register_ns3_hash_function_murmur3_methods)
    ∷ []
