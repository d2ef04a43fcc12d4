-- ===== src/Bindings/Methods/Table/Values.antt =====
-- `register_methods` of bindings/modulegen__gcc_LP64.py, lines 535 to 605: the key of each class and
-- the calls that its function makes on it.
use cs621_network_programmin.Common.{List, [], ◌∷◌, String}
use cs621_network_programmin.Bindings.Syntax.{Member}
use cs621_network_programmin.Bindings.Methods.Address.{
  register_ns3_address_methods, register_ns3_ascii_trace_helper_methods,
  register_ns3_ascii_trace_helper_for_device_methods,
  register_ns3_attribute_construction_list_methods,
  register_ns3_attribute_construction_list_item_methods, register_ns3_buffer_methods,
}
use cs621_network_programmin.Bindings.Methods.BufferIterator.{
  register_ns3_buffer_iterator_methods, register_ns3_byte_tag_iterator_methods,
  register_ns3_byte_tag_iterator_item_methods, register_ns3_byte_tag_list_methods,
  register_ns3_byte_tag_list_iterator_methods, register_ns3_byte_tag_list_iterator_item_methods,
  register_ns3_callback_base_methods, register_ns3_data_rate_methods,
  register_ns3_default_deleter_ns3_attribute_accessor_methods,
  register_ns3_default_deleter_ns3_attribute_checker_methods,
  register_ns3_default_deleter_ns3_attribute_value_methods,
  register_ns3_default_deleter_ns3_callback_impl_base_methods,
  register_ns3_default_deleter_ns3_event_impl_methods,
}
use cs621_network_programmin.Bindings.Methods.DefaultDeleter.{
  register_ns3_default_deleter_ns3_hash_implementation_methods,
  register_ns3_default_deleter_ns3_nix_vector_methods,
  register_ns3_default_deleter_ns3_output_stream_wrapper_methods,
  register_ns3_default_deleter_ns3_packet_methods,
  register_ns3_default_deleter_ns3_trace_source_accessor_methods, register_ns3_event_id_methods,
  register_ns3_hasher_methods, register_ns3_ipv4_address_methods, register_ns3_ipv4_mask_methods,
}
use cs621_network_programmin.Bindings.Methods.Ipv6Address.{
  register_ns3_ipv6_address_methods, register_ns3_ipv6_prefix_methods,
  register_ns3_log_component_methods, register_ns3_mac48_address_methods,
  register_ns3_mac8_address_methods, register_ns3_net_device_container_methods,
}
use cs621_network_programmin.Bindings.Methods.NodeContainer.{
  register_ns3_node_container_methods, register_ns3_object_base_methods,
  register_ns3_object_deleter_methods, register_ns3_object_factory_methods,
  register_ns3_packet_metadata_methods, register_ns3_packet_metadata_item_methods,
  register_ns3_packet_metadata_item_iterator_methods, register_ns3_packet_tag_iterator_methods,
  register_ns3_packet_tag_iterator_item_methods, register_ns3_packet_tag_list_methods,
  register_ns3_packet_tag_list_tag_data_methods, register_ns3_parameter_logger_methods,
}
use cs621_network_programmin.Bindings.Methods.PcapFile.{
  register_ns3_pcap_file_methods, register_ns3_pcap_helper_methods,
  register_ns3_pcap_helper_for_device_methods, register_ns3_point_to_point_helper_methods,
  register_ns3_queue_size_methods, register_ns3_simple_ref_count_object_methods,
  register_ns3_simulator_methods, register_ns3_tag_methods,
}
use cs621_network_programmin.Bindings.Methods.TagBuffer.{
  register_ns3_tag_buffer_methods, register_ns3_time_with_unit_methods,
  register_ns3_traced_value_unsigned_int_methods, register_ns3_type_id_methods,
  register_ns3_type_id_attribute_information_methods,
  register_ns3_type_id_trace_source_information_methods, register_ns3_empty_methods,
}
use cs621_network_programmin.Bindings.Methods.Int64x64t.{
  register_ns3_int64x64_t_methods, register_ns3_chunk_methods, register_ns3_header_methods,
  register_ns3_object_methods, register_ns3_object_aggregate_iterator_methods,
  register_ns3_pcap_file_wrapper_methods, register_ns3_ppp_header_methods,
  register_ns3_queue_base_methods,
}
use cs621_network_programmin.Bindings.Methods.RandomVariableStream.{
  register_ns3_random_variable_stream_methods, register_ns3_sequential_random_variable_methods,
}

abbrev pub method_table_values : List (String × List Member)
method_table_values =
    ("ns3::Address", register_ns3_address_methods)
    ∷ ("ns3::AsciiTraceHelper", register_ns3_ascii_trace_helper_methods)
    ∷ ("ns3::AsciiTraceHelperForDevice", register_ns3_ascii_trace_helper_for_device_methods)
    ∷ ("ns3::AttributeConstructionList", register_ns3_attribute_construction_list_methods)
    ∷ (
      "ns3::AttributeConstructionList::Item", register_ns3_attribute_construction_list_item_methods,
    )
    ∷ ("ns3::Buffer", register_ns3_buffer_methods)
    ∷ ("ns3::Buffer::Iterator", register_ns3_buffer_iterator_methods)
    ∷ ("ns3::ByteTagIterator", register_ns3_byte_tag_iterator_methods)
    ∷ ("ns3::ByteTagIterator::Item", register_ns3_byte_tag_iterator_item_methods)
    ∷ ("ns3::ByteTagList", register_ns3_byte_tag_list_methods)
    ∷ ("ns3::ByteTagList::Iterator", register_ns3_byte_tag_list_iterator_methods)
    ∷ ("ns3::ByteTagList::Iterator::Item", register_ns3_byte_tag_list_iterator_item_methods)
    ∷ ("ns3::CallbackBase", register_ns3_callback_base_methods)
    ∷ ("ns3::DataRate", register_ns3_data_rate_methods)
    ∷ (
      "ns3::DefaultDeleter< ns3::AttributeAccessor >",
      register_ns3_default_deleter_ns3_attribute_accessor_methods,
    )
    ∷ (
      "ns3::DefaultDeleter< ns3::AttributeChecker >",
      register_ns3_default_deleter_ns3_attribute_checker_methods,
    )
    ∷ (
      "ns3::DefaultDeleter< ns3::AttributeValue >",
      register_ns3_default_deleter_ns3_attribute_value_methods,
    )
    ∷ (
      "ns3::DefaultDeleter< ns3::CallbackImplBase >",
      register_ns3_default_deleter_ns3_callback_impl_base_methods,
    )
    ∷ ("ns3::DefaultDeleter< ns3::EventImpl >", register_ns3_default_deleter_ns3_event_impl_methods)
    ∷ (
      "ns3::DefaultDeleter< ns3::Hash::Implementation >",
      register_ns3_default_deleter_ns3_hash_implementation_methods,
    )
    ∷ ("ns3::DefaultDeleter< ns3::NixVector >", register_ns3_default_deleter_ns3_nix_vector_methods)
    ∷ (
      "ns3::DefaultDeleter< ns3::OutputStreamWrapper >",
      register_ns3_default_deleter_ns3_output_stream_wrapper_methods,
    )
    ∷ ("ns3::DefaultDeleter< ns3::Packet >", register_ns3_default_deleter_ns3_packet_methods)
    ∷ (
      "ns3::DefaultDeleter< ns3::TraceSourceAccessor >",
      register_ns3_default_deleter_ns3_trace_source_accessor_methods,
    )
    ∷ ("ns3::EventId", register_ns3_event_id_methods)
    ∷ ("ns3::Hasher", register_ns3_hasher_methods)
    ∷ ("ns3::Ipv4Address", register_ns3_ipv4_address_methods)
    ∷ ("ns3::Ipv4Mask", register_ns3_ipv4_mask_methods)
    ∷ ("ns3::Ipv6Address", register_ns3_ipv6_address_methods)
    ∷ ("ns3::Ipv6Prefix", register_ns3_ipv6_prefix_methods)
    ∷ ("ns3::LogComponent", register_ns3_log_component_methods)
    ∷ ("ns3::Mac48Address", register_ns3_mac48_address_methods)
    ∷ ("ns3::Mac8Address", register_ns3_mac8_address_methods)
    ∷ ("ns3::NetDeviceContainer", register_ns3_net_device_container_methods)
    ∷ ("ns3::NodeContainer", register_ns3_node_container_methods)
    ∷ ("ns3::ObjectBase", register_ns3_object_base_methods)
    ∷ ("ns3::ObjectDeleter", register_ns3_object_deleter_methods)
    ∷ ("ns3::ObjectFactory", register_ns3_object_factory_methods)
    ∷ ("ns3::PacketMetadata", register_ns3_packet_metadata_methods)
    ∷ ("ns3::PacketMetadata::Item", register_ns3_packet_metadata_item_methods)
    ∷ ("ns3::PacketMetadata::ItemIterator", register_ns3_packet_metadata_item_iterator_methods)
    ∷ ("ns3::PacketTagIterator", register_ns3_packet_tag_iterator_methods)
    ∷ ("ns3::PacketTagIterator::Item", register_ns3_packet_tag_iterator_item_methods)
    ∷ ("ns3::PacketTagList", register_ns3_packet_tag_list_methods)
    ∷ ("ns3::PacketTagList::TagData", register_ns3_packet_tag_list_tag_data_methods)
    ∷ ("ns3::ParameterLogger", register_ns3_parameter_logger_methods)
    ∷ ("ns3::PcapFile", register_ns3_pcap_file_methods)
    ∷ ("ns3::PcapHelper", register_ns3_pcap_helper_methods)
    ∷ ("ns3::PcapHelperForDevice", register_ns3_pcap_helper_for_device_methods)
    ∷ ("ns3::PointToPointHelper", register_ns3_point_to_point_helper_methods)
    ∷ ("ns3::QueueSize", register_ns3_queue_size_methods)
    ∷ (
      "ns3::SimpleRefCount< ns3::Object, ns3::ObjectBase, ns3::ObjectDeleter >",
      register_ns3_simple_ref_count_object_methods,
    )
    ∷ ("ns3::Simulator", register_ns3_simulator_methods)
    ∷ ("ns3::Tag", register_ns3_tag_methods)
    ∷ ("ns3::TagBuffer", register_ns3_tag_buffer_methods)
    ∷ ("ns3::TimeWithUnit", register_ns3_time_with_unit_methods)
    ∷ ("ns3::TracedValue< unsigned int >", register_ns3_traced_value_unsigned_int_methods)
    ∷ ("ns3::TypeId", register_ns3_type_id_methods)
    ∷ ("ns3::TypeId::AttributeInformation", register_ns3_type_id_attribute_information_methods)
    ∷ ("ns3::TypeId::TraceSourceInformation", register_ns3_type_id_trace_source_information_methods)
    ∷ ("ns3::empty", register_ns3_empty_methods)
    ∷ ("ns3::int64x64_t", register_ns3_int64x64_t_methods)
    ∷ ("ns3::Chunk", register_ns3_chunk_methods)
    ∷ ("ns3::Header", register_ns3_header_methods)
    ∷ ("ns3::Object", register_ns3_object_methods)
    ∷ ("ns3::Object::AggregateIterator", register_ns3_object_aggregate_iterator_methods)
    ∷ ("ns3::PcapFileWrapper", register_ns3_pcap_file_wrapper_methods)
    ∷ ("ns3::PppHeader", register_ns3_ppp_header_methods)
    ∷ ("ns3::QueueBase", register_ns3_queue_base_methods)
    ∷ ("ns3::RandomVariableStream", register_ns3_random_variable_stream_methods)
    ∷ ("ns3::SequentialRandomVariable", register_ns3_sequential_random_variable_methods)
    ∷ []
