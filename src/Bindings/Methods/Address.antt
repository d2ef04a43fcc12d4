-- ===== src/Bindings/Methods/Address.antt =====
-- The `register_…_methods` functions of bindings/modulegen__gcc_LP64.py, lines 701 to 1007.
use cs621_network_programmin.Common.{List, [], ◌∷◌, false}
use cs621_network_programmin.Bindings.Syntax.{
  Member, is_const, is_virtual, is_pure_virtual, is_static, default_value, param, param_with,
  add_constructor, add_method, add_instance_attribute, add_binary_comparison_operator,
  add_output_stream_operator,
}

abbrev pub register_ns3_address_methods : List Member
register_ns3_address_methods =
    add_binary_comparison_operator "=="
    ∷ add_binary_comparison_operator "!="
    ∷ add_binary_comparison_operator "<"
    ∷ add_output_stream_operator
    ∷ add_constructor [] []
    ∷ add_constructor
        (param "uint8_t" "type" ∷ param "uint8_t const *" "buffer" ∷ param "uint8_t" "len" ∷ []) []
    ∷ add_constructor (param "ns3::Address const &" "address" ∷ []) []
    ∷ add_method "CheckCompatible" "bool" (param "uint8_t" "type" ∷ param "uint8_t" "len" ∷ [])
        (is_const ∷ [])
    ∷ add_method "CopyAllFrom" "uint32_t"
        (param "uint8_t const *" "buffer" ∷ param "uint8_t" "len" ∷ []) []
    ∷ add_method "CopyAllTo" "uint32_t" (param "uint8_t *" "buffer" ∷ param "uint8_t" "len" ∷ [])
        (is_const ∷ [])
    ∷ add_method "CopyFrom" "uint32_t"
        (param "uint8_t const *" "buffer" ∷ param "uint8_t" "len" ∷ []) []
    ∷ add_method "CopyTo" "uint32_t" (param "uint8_t *" "buffer" ∷ []) (is_const ∷ [])
    ∷ add_method "Deserialize" "void" (param "ns3::TagBuffer" "buffer" ∷ []) []
    ∷ add_method "GetLength" "uint8_t" [] (is_const ∷ [])
    ∷ add_method "GetSerializedSize" "uint32_t" [] (is_const ∷ [])
    ∷ add_method "IsInvalid" "bool" [] (is_const ∷ [])
    ∷ add_method "IsMatchingType" "bool" (param "uint8_t" "type" ∷ []) (is_const ∷ [])
    ∷ add_method "Register" "uint8_t" [] (is_static ∷ [])
    ∷ add_method "Serialize" "void" (param "ns3::TagBuffer" "buffer" ∷ []) (is_const ∷ [])
    ∷ []

abbrev pub register_ns3_ascii_trace_helper_methods : List Member
register_ns3_ascii_trace_helper_methods =
    add_constructor (param "ns3::AsciiTraceHelper const &" "arg0" ∷ []) []
    ∷ add_constructor [] []
    ∷ add_method "CreateFileStream" "ns3::Ptr< ns3::OutputStreamWrapper >"
        (param "std::string" "filename"
          ∷ param_with "std::ios_base::openmode" "filemode"
              (default_value "std::ios_base::out" ∷ [])
          ∷ [])
        []
    ∷ add_method "DefaultDequeueSinkWithContext" "void"
        (param "ns3::Ptr< ns3::OutputStreamWrapper >" "file"
          ∷ param "std::string" "context"
          ∷ param "ns3::Ptr< ns3::Packet const >" "p"
          ∷ [])
        (is_static ∷ [])
    ∷ add_method "DefaultDequeueSinkWithoutContext" "void"
        (param "ns3::Ptr< ns3::OutputStreamWrapper >" "file"
          ∷ param "ns3::Ptr< ns3::Packet const >" "p"
          ∷ [])
        (is_static ∷ [])
    ∷ add_method "DefaultDropSinkWithContext" "void"
        (param "ns3::Ptr< ns3::OutputStreamWrapper >" "file"
          ∷ param "std::string" "context"
          ∷ param "ns3::Ptr< ns3::Packet const >" "p"
          ∷ [])
        (is_static ∷ [])
    ∷ add_method "DefaultDropSinkWithoutContext" "void"
        (param "ns3::Ptr< ns3::OutputStreamWrapper >" "file"
          ∷ param "ns3::Ptr< ns3::Packet const >" "p"
          ∷ [])
        (is_static ∷ [])
    ∷ add_method "DefaultEnqueueSinkWithContext" "void"
        (param "ns3::Ptr< ns3::OutputStreamWrapper >" "file"
          ∷ param "std::string" "context"
          ∷ param "ns3::Ptr< ns3::Packet const >" "p"
          ∷ [])
        (is_static ∷ [])
    ∷ add_method "DefaultEnqueueSinkWithoutContext" "void"
        (param "ns3::Ptr< ns3::OutputStreamWrapper >" "file"
          ∷ param "ns3::Ptr< ns3::Packet const >" "p"
          ∷ [])
        (is_static ∷ [])
    ∷ add_method "DefaultReceiveSinkWithContext" "void"
        (param "ns3::Ptr< ns3::OutputStreamWrapper >" "file"
          ∷ param "std::string" "context"
          ∷ param "ns3::Ptr< ns3::Packet const >" "p"
          ∷ [])
        (is_static ∷ [])
    ∷ add_method "DefaultReceiveSinkWithoutContext" "void"
        (param "ns3::Ptr< ns3::OutputStreamWrapper >" "file"
          ∷ param "ns3::Ptr< ns3::Packet const >" "p"
          ∷ [])
        (is_static ∷ [])
    ∷ add_method "GetFilenameFromDevice" "std::string"
        (param "std::string" "prefix"
          ∷ param "ns3::Ptr< ns3::NetDevice >" "device"
          ∷ param_with "bool" "useObjectNames" (default_value "true" ∷ [])
          ∷ [])
        []
    ∷ add_method "GetFilenameFromInterfacePair" "std::string"
        (param "std::string" "prefix"
          ∷ param "ns3::Ptr< ns3::Object >" "object"
          ∷ param "uint32_t" "interface"
          ∷ param_with "bool" "useObjectNames" (default_value "true" ∷ [])
          ∷ [])
        []
    ∷ []

abbrev pub register_ns3_ascii_trace_helper_for_device_methods : List Member
register_ns3_ascii_trace_helper_for_device_methods =
    add_constructor (param "ns3::AsciiTraceHelperForDevice const &" "arg0" ∷ []) []
    ∷ add_constructor [] []
    ∷ add_method "EnableAscii" "void"
        (param "std::string" "prefix"
          ∷ param "ns3::Ptr< ns3::NetDevice >" "nd"
          ∷ param_with "bool" "explicitFilename" (default_value "false" ∷ [])
          ∷ [])
        []
    ∷ add_method "EnableAscii" "void"
        (param "ns3::Ptr< ns3::OutputStreamWrapper >" "stream"
          ∷ param "ns3::Ptr< ns3::NetDevice >" "nd"
          ∷ [])
        []
    ∷ add_method "EnableAscii" "void"
        (param "std::string" "prefix"
          ∷ param "std::string" "ndName"
          ∷ param_with "bool" "explicitFilename" (default_value "false" ∷ [])
          ∷ [])
        []
    ∷ add_method "EnableAscii" "void"
        (param "ns3::Ptr< ns3::OutputStreamWrapper >" "stream" ∷ param "std::string" "ndName" ∷ [])
        []
    ∷ add_method "EnableAscii" "void"
        (param "std::string" "prefix" ∷ param "ns3::NetDeviceContainer" "d" ∷ []) []
    ∷ add_method "EnableAscii" "void"
        (param "ns3::Ptr< ns3::OutputStreamWrapper >" "stream"
          ∷ param "ns3::NetDeviceContainer" "d"
          ∷ [])
        []
    ∷ add_method "EnableAscii" "void"
        (param "std::string" "prefix" ∷ param "ns3::NodeContainer" "n" ∷ []) []
    ∷ add_method "EnableAscii" "void"
        (param "ns3::Ptr< ns3::OutputStreamWrapper >" "stream"
          ∷ param "ns3::NodeContainer" "n"
          ∷ [])
        []
    ∷ add_method "EnableAscii" "void"
        (param "std::string" "prefix"
          ∷ param "uint32_t" "nodeid"
          ∷ param "uint32_t" "deviceid"
          ∷ param "bool" "explicitFilename"
          ∷ [])
        []
    ∷ add_method "EnableAscii" "void"
        (param "ns3::Ptr< ns3::OutputStreamWrapper >" "stream"
          ∷ param "uint32_t" "nodeid"
          ∷ param "uint32_t" "deviceid"
          ∷ [])
        []
    ∷ add_method "EnableAsciiAll" "void" (param "std::string" "prefix" ∷ []) []
    ∷ add_method "EnableAsciiAll" "void"
        (param "ns3::Ptr< ns3::OutputStreamWrapper >" "stream" ∷ []) []
    ∷ add_method "EnableAsciiInternal" "void"
        (param "ns3::Ptr< ns3::OutputStreamWrapper >" "stream"
          ∷ param "std::string" "prefix"
          ∷ param "ns3::Ptr< ns3::NetDevice >" "nd"
          ∷ param "bool" "explicitFilename"
          ∷ [])
        (is_pure_virtual ∷ is_virtual ∷ [])
    ∷ []

abbrev pub register_ns3_attribute_construction_list_methods : List Member
register_ns3_attribute_construction_list_methods =
    add_constructor (param "ns3::AttributeConstructionList const &" "arg0" ∷ []) []
    ∷ add_constructor [] []
    ∷ add_method "Add" "void"
        (param "std::string" "name"
          ∷ param "ns3::Ptr< ns3::AttributeChecker const >" "checker"
          ∷ param "ns3::Ptr< ns3::AttributeValue >" "value"
          ∷ [])
        []
    ∷ add_method "Begin" "ns3::AttributeConstructionList::CIterator" [] (is_const ∷ [])
    ∷ add_method "End" "ns3::AttributeConstructionList::CIterator" [] (is_const ∷ [])
    ∷ add_method "Find" "ns3::Ptr< ns3::AttributeValue >"
        (param "ns3::Ptr< ns3::AttributeChecker const >" "checker" ∷ []) (is_const ∷ [])
    ∷ []

abbrev pub register_ns3_attribute_construction_list_item_methods : List Member
register_ns3_attribute_construction_list_item_methods =
    add_constructor [] []
    ∷ add_constructor (param "ns3::AttributeConstructionList::Item const &" "arg0" ∷ []) []
    ∷ add_instance_attribute "checker" "ns3::Ptr< ns3::AttributeChecker const >" false
    ∷ add_instance_attribute "name" "std::string" false
    ∷ add_instance_attribute "value" "ns3::Ptr< ns3::AttributeValue >" false
    ∷ []

abbrev pub register_ns3_buffer_methods : List Member
register_ns3_buffer_methods =
    add_constructor (param "ns3::Buffer const &" "o" ∷ []) []
    ∷ add_constructor [] []
    ∷ add_constructor (param "uint32_t" "dataSize" ∷ []) []
    ∷ add_constructor (param "uint32_t" "dataSize" ∷ param "bool" "initialize" ∷ []) []
    ∷ add_method "AddAtEnd" "void" (param "uint32_t" "end" ∷ []) []
    ∷ add_method "AddAtEnd" "void" (param "ns3::Buffer const &" "o" ∷ []) []
    ∷ add_method "AddAtStart" "void" (param "uint32_t" "start" ∷ []) []
    ∷ add_method "Begin" "ns3::Buffer::Iterator" [] (is_const ∷ [])
    ∷ add_method "CopyData" "void" (param "std::ostream *" "os" ∷ param "uint32_t" "size" ∷ [])
        (is_const ∷ [])
    ∷ add_method "CopyData" "uint32_t" (param "uint8_t *" "buffer" ∷ param "uint32_t" "size" ∷ [])
        (is_const ∷ [])
    ∷ add_method "CreateFragment" "ns3::Buffer"
        (param "uint32_t" "start" ∷ param "uint32_t" "length" ∷ []) (is_const ∷ [])
    ∷ add_method "Deserialize" "uint32_t"
        (param "uint8_t const *" "buffer" ∷ param "uint32_t" "size" ∷ []) []
    ∷ add_method "End" "ns3::Buffer::Iterator" [] (is_const ∷ [])
    ∷ add_method "GetSerializedSize" "uint32_t" [] (is_const ∷ [])
    ∷ add_method "GetSize" "uint32_t" [] (is_const ∷ [])
    ∷ add_method "PeekData" "uint8_t const *" [] (is_const ∷ [])
    ∷ add_method "RemoveAtEnd" "void" (param "uint32_t" "end" ∷ []) []
    ∷ add_method "RemoveAtStart" "void" (param "uint32_t" "start" ∷ []) []
    ∷ add_method "Serialize" "uint32_t"
        (param "uint8_t *" "buffer" ∷ param "uint32_t" "maxSize" ∷ []) (is_const ∷ [])
    ∷ []
