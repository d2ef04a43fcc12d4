-- ===== src/Bindings/Methods/BufferIterator.antt =====
-- The `register_…_methods` functions of bindings/modulegen__gcc_LP64.py, lines 1009 to 1391.
use cs621_network_programmin.Common.{List, [], ◌∷◌, false}
use cs621_network_programmin.Bindings.Syntax.{
  Member, visibility, is_const, is_static, deprecated, param, add_constructor, add_method,
  add_instance_attribute, add_binary_comparison_operator, add_output_stream_operator,
}

abbrev pub register_ns3_buffer_iterator_methods : List Member
register_ns3_buffer_iterator_methods =
    add_constructor (param "ns3::Buffer::Iterator const &" "arg0" ∷ []) []
    ∷ add_constructor [] []
    ∷ add_method "CalculateIpChecksum" "uint16_t" (param "uint16_t" "size" ∷ []) []
    ∷ add_method "CalculateIpChecksum" "uint16_t"
        (param "uint16_t" "size" ∷ param "uint32_t" "initialChecksum" ∷ []) []
    ∷ add_method "GetDistanceFrom" "uint32_t" (param "ns3::Buffer::Iterator const &" "o" ∷ [])
        (is_const ∷ [])
    ∷ add_method "GetRemainingSize" "uint32_t" [] (is_const ∷ [])
    ∷ add_method "GetSize" "uint32_t" [] (is_const ∷ [])
    ∷ add_method "IsEnd" "bool" [] (is_const ∷ [])
    ∷ add_method "IsStart" "bool" [] (is_const ∷ [])
    ∷ add_method "Next" "void" [] []
    ∷ add_method "Next" "void" (param "uint32_t" "delta" ∷ []) []
    ∷ add_method "PeekU8" "uint8_t" [] []
    ∷ add_method "Prev" "void" [] []
    ∷ add_method "Prev" "void" (param "uint32_t" "delta" ∷ []) []
    ∷ add_method "Read" "void" (param "uint8_t *" "buffer" ∷ param "uint32_t" "size" ∷ []) []
    ∷ add_method "Read" "void"
        (param "ns3::Buffer::Iterator" "start" ∷ param "uint32_t" "size" ∷ []) []
    ∷ add_method "ReadLsbtohU16" "uint16_t" [] []
    ∷ add_method "ReadLsbtohU32" "uint32_t" [] []
    ∷ add_method "ReadLsbtohU64" "uint64_t" [] []
    ∷ add_method "ReadNtohU16" "uint16_t" [] []
    ∷ add_method "ReadNtohU32" "uint32_t" [] []
    ∷ add_method "ReadNtohU64" "uint64_t" [] []
    ∷ add_method "ReadU16" "uint16_t" [] []
    ∷ add_method "ReadU32" "uint32_t" [] []
    ∷ add_method "ReadU64" "uint64_t" [] []
    ∷ add_method "ReadU8" "uint8_t" [] []
    ∷ add_method "Write" "void" (param "uint8_t const *" "buffer" ∷ param "uint32_t" "size" ∷ []) []
    ∷ add_method "Write" "void"
        (param "ns3::Buffer::Iterator" "start" ∷ param "ns3::Buffer::Iterator" "end" ∷ []) []
    ∷ add_method "WriteHtolsbU16" "void" (param "uint16_t" "data" ∷ []) []
    ∷ add_method "WriteHtolsbU32" "void" (param "uint32_t" "data" ∷ []) []
    ∷ add_method "WriteHtolsbU64" "void" (param "uint64_t" "data" ∷ []) []
    ∷ add_method "WriteHtonU16" "void" (param "uint16_t" "data" ∷ []) []
    ∷ add_method "WriteHtonU32" "void" (param "uint32_t" "data" ∷ []) []
    ∷ add_method "WriteHtonU64" "void" (param "uint64_t" "data" ∷ []) []
    ∷ add_method "WriteU16" "void" (param "uint16_t" "data" ∷ []) []
    ∷ add_method "WriteU32" "void" (param "uint32_t" "data" ∷ []) []
    ∷ add_method "WriteU64" "void" (param "uint64_t" "data" ∷ []) []
    ∷ add_method "WriteU8" "void" (param "uint8_t" "data" ∷ []) []
    ∷ add_method "WriteU8" "void" (param "uint8_t" "data" ∷ param "uint32_t" "len" ∷ []) []
    ∷ []

abbrev pub register_ns3_byte_tag_iterator_methods : List Member
register_ns3_byte_tag_iterator_methods =
    add_constructor (param "ns3::ByteTagIterator const &" "arg0" ∷ []) []
    ∷ add_method "HasNext" "bool" [] (is_const ∷ [])
    ∷ add_method "Next" "ns3::ByteTagIterator::Item" [] []
    ∷ []

abbrev pub register_ns3_byte_tag_iterator_item_methods : List Member
register_ns3_byte_tag_iterator_item_methods =
    add_constructor (param "ns3::ByteTagIterator::Item const &" "arg0" ∷ []) []
    ∷ add_method "GetEnd" "uint32_t" [] (is_const ∷ [])
    ∷ add_method "GetStart" "uint32_t" [] (is_const ∷ [])
    ∷ add_method "GetTag" "void" (param "ns3::Tag &" "tag" ∷ []) (is_const ∷ [])
    ∷ add_method "GetTypeId" "ns3::TypeId" [] (is_const ∷ [])
    ∷ []

abbrev pub register_ns3_byte_tag_list_methods : List Member
register_ns3_byte_tag_list_methods =
    add_constructor [] []
    ∷ add_constructor (param "ns3::ByteTagList const &" "o" ∷ []) []
    ∷ add_method "Add" "ns3::TagBuffer"
        (param "ns3::TypeId" "tid"
          ∷ param "uint32_t" "bufferSize"
          ∷ param "int32_t" "start"
          ∷ param "int32_t" "end"
          ∷ [])
        []
    ∷ add_method "Add" "void" (param "ns3::ByteTagList const &" "o" ∷ []) []
    ∷ add_method "AddAtEnd" "void" (param "int32_t" "appendOffset" ∷ []) []
    ∷ add_method "AddAtStart" "void" (param "int32_t" "prependOffset" ∷ []) []
    ∷ add_method "Adjust" "void" (param "int32_t" "adjustment" ∷ []) []
    ∷ add_method "Begin" "ns3::ByteTagList::Iterator"
        (param "int32_t" "offsetStart" ∷ param "int32_t" "offsetEnd" ∷ []) (is_const ∷ [])
    ∷ add_method "RemoveAll" "void" [] []
    ∷ []

abbrev pub register_ns3_byte_tag_list_iterator_methods : List Member
register_ns3_byte_tag_list_iterator_methods =
    add_constructor (param "ns3::ByteTagList::Iterator const &" "arg0" ∷ []) []
    ∷ add_method "GetOffsetStart" "uint32_t" [] (is_const ∷ [])
    ∷ add_method "HasNext" "bool" [] (is_const ∷ [])
    ∷ add_method "Next" "ns3::ByteTagList::Iterator::Item" [] []
    ∷ []

abbrev pub register_ns3_byte_tag_list_iterator_item_methods : List Member
register_ns3_byte_tag_list_iterator_item_methods =
    add_constructor (param "ns3::ByteTagList::Iterator::Item const &" "arg0" ∷ []) []
    ∷ add_constructor (param "ns3::TagBuffer" "buf" ∷ []) []
    ∷ add_instance_attribute "buf" "ns3::TagBuffer" false
    ∷ add_instance_attribute "end" "int32_t" false
    ∷ add_instance_attribute "size" "uint32_t" false
    ∷ add_instance_attribute "start" "int32_t" false
    ∷ add_instance_attribute "tid" "ns3::TypeId" false
    ∷ []

abbrev pub register_ns3_callback_base_methods : List Member
register_ns3_callback_base_methods =
    add_constructor (param "ns3::CallbackBase const &" "arg0" ∷ []) []
    ∷ add_constructor [] []
    ∷ add_method "GetImpl" "ns3::Ptr< ns3::CallbackImplBase >" [] (is_const ∷ [])
    ∷ add_constructor (param "ns3::Ptr< ns3::CallbackImplBase >" "impl" ∷ [])
        (visibility "protected" ∷ [])
    ∷ []

abbrev pub register_ns3_data_rate_methods : List Member
register_ns3_data_rate_methods =
    add_output_stream_operator
    ∷ add_binary_comparison_operator "!="
    ∷ add_binary_comparison_operator "<"
    ∷ add_binary_comparison_operator "<="
    ∷ add_binary_comparison_operator "=="
    ∷ add_binary_comparison_operator ">"
    ∷ add_binary_comparison_operator ">="
    ∷ add_constructor (param "ns3::DataRate const &" "arg0" ∷ []) []
    ∷ add_constructor [] []
    ∷ add_constructor (param "uint64_t" "bps" ∷ []) []
    ∷ add_constructor (param "std::string" "rate" ∷ []) []
    ∷ add_method "CalculateBitsTxTime" "ns3::Time" (param "uint32_t" "bits" ∷ []) (is_const ∷ [])
    ∷ add_method "CalculateBytesTxTime" "ns3::Time" (param "uint32_t" "bytes" ∷ []) (is_const ∷ [])
    ∷ add_method "CalculateTxTime" "double" (param "uint32_t" "bytes" ∷ [])
        (deprecated ∷ is_const ∷ [])
    ∷ add_method "GetBitRate" "uint64_t" [] (is_const ∷ [])
    ∷ []

abbrev pub register_ns3_default_deleter_ns3_attribute_accessor_methods : List Member
register_ns3_default_deleter_ns3_attribute_accessor_methods =
    add_constructor [] []
    ∷ add_constructor (param "ns3::DefaultDeleter< ns3::AttributeAccessor > const &" "arg0" ∷ []) []
    ∷ add_method "Delete" "void" (param "ns3::AttributeAccessor *" "object" ∷ []) (is_static ∷ [])
    ∷ []

abbrev pub register_ns3_default_deleter_ns3_attribute_checker_methods : List Member
register_ns3_default_deleter_ns3_attribute_checker_methods =
    add_constructor [] []
    ∷ add_constructor (param "ns3::DefaultDeleter< ns3::AttributeChecker > const &" "arg0" ∷ []) []
    ∷ add_method "Delete" "void" (param "ns3::AttributeChecker *" "object" ∷ []) (is_static ∷ [])
    ∷ []

abbrev pub register_ns3_default_deleter_ns3_attribute_value_methods : List Member
register_ns3_default_deleter_ns3_attribute_value_methods =
    add_constructor [] []
    ∷ add_constructor (param "ns3::DefaultDeleter< ns3::AttributeValue > const &" "arg0" ∷ []) []
    ∷ add_method "Delete" "void" (param "ns3::AttributeValue *" "object" ∷ []) (is_static ∷ [])
    ∷ []

abbrev pub register_ns3_default_deleter_ns3_callback_impl_base_methods : List Member
register_ns3_default_deleter_ns3_callback_impl_base_methods =
    add_constructor [] []
    ∷ add_constructor (param "ns3::DefaultDeleter< ns3::CallbackImplBase > const &" "arg0" ∷ []) []
    ∷ add_method "Delete" "void" (param "ns3::CallbackImplBase *" "object" ∷ []) (is_static ∷ [])
    ∷ []

abbrev pub register_ns3_default_deleter_ns3_event_impl_methods : List Member
register_ns3_default_deleter_ns3_event_impl_methods =
    add_constructor [] []
    ∷ add_constructor (param "ns3::DefaultDeleter< ns3::EventImpl > const &" "arg0" ∷ []) []
    ∷ add_method "Delete" "void" (param "ns3::EventImpl *" "object" ∷ []) (is_static ∷ [])
    ∷ []
