-- ===== src/Bindings/Methods/Int64x64t.antt =====
-- The `register_…_methods` functions of bindings/modulegen__gcc_LP64.py, lines 3245 to 3656.
use cs621_network_programmin.Common.{List, [], ◌∷◌, true}
use cs621_network_programmin.Bindings.Syntax.{
  Member, visibility, is_const, is_virtual, is_pure_virtual, is_static, default_value, param,
  param_with, add_constructor, add_method, add_static_attribute, add_binary_comparison_operator,
  add_output_stream_operator, add_binary_numeric_operator, add_inplace_numeric_operator,
  add_unary_numeric_operator,
}

abbrev pub register_ns3_int64x64_t_methods : List Member
register_ns3_int64x64_t_methods =
    add_binary_numeric_operator "+" "ns3::int64x64_t" "ns3::int64x64_t"
      (param "ns3::int64x64_t const &" "right")
    ∷ add_binary_numeric_operator "-" "ns3::int64x64_t" "ns3::int64x64_t"
        (param "ns3::int64x64_t const &" "right")
    ∷ add_binary_numeric_operator "*" "ns3::int64x64_t" "ns3::int64x64_t"
        (param "ns3::int64x64_t const &" "right")
    ∷ add_binary_numeric_operator "/" "ns3::int64x64_t" "ns3::int64x64_t"
        (param "ns3::int64x64_t const &" "right")
    ∷ add_binary_comparison_operator "!="
    ∷ add_binary_comparison_operator "<="
    ∷ add_binary_comparison_operator ">="
    ∷ add_output_stream_operator
    ∷ add_binary_comparison_operator "=="
    ∷ add_binary_comparison_operator "<"
    ∷ add_binary_comparison_operator ">"
    ∷ add_inplace_numeric_operator "+=" (param "ns3::int64x64_t const &" "right")
    ∷ add_inplace_numeric_operator "-=" (param "ns3::int64x64_t const &" "right")
    ∷ add_inplace_numeric_operator "*=" (param "ns3::int64x64_t const &" "right")
    ∷ add_inplace_numeric_operator "/=" (param "ns3::int64x64_t const &" "right")
    ∷ add_unary_numeric_operator "-"
    ∷ add_constructor [] []
    ∷ add_constructor (param "double const" "value" ∷ []) []
    ∷ add_constructor (param "long double const" "value" ∷ []) []
    ∷ add_constructor (param "int const" "v" ∷ []) []
    ∷ add_constructor (param "long int const" "v" ∷ []) []
    ∷ add_constructor (param "long long int const" "v" ∷ []) []
    ∷ add_constructor (param "unsigned int const" "v" ∷ []) []
    ∷ add_constructor (param "long unsigned int const" "v" ∷ []) []
    ∷ add_constructor (param "long long unsigned int const" "v" ∷ []) []
    ∷ add_constructor (param "int64_t const" "hi" ∷ param "uint64_t const" "lo" ∷ []) []
    ∷ add_constructor (param "ns3::int64x64_t const &" "o" ∷ []) []
    ∷ add_method "GetDouble" "double" [] (is_const ∷ [])
    ∷ add_method "GetHigh" "int64_t" [] (is_const ∷ [])
    ∷ add_method "GetLow" "uint64_t" [] (is_const ∷ [])
    ∷ add_method "Invert" "ns3::int64x64_t" (param "uint64_t const" "v" ∷ []) (is_static ∷ [])
    ∷ add_method "MulByInvert" "void" (param "ns3::int64x64_t const &" "o" ∷ []) []
    ∷ add_static_attribute "implementation" "ns3::int64x64_t::impl_type const" true
    ∷ []

abbrev pub register_ns3_chunk_methods : List Member
register_ns3_chunk_methods =
    add_constructor [] []
    ∷ add_constructor (param "ns3::Chunk const &" "arg0" ∷ []) []
    ∷ add_method "Deserialize" "uint32_t" (param "ns3::Buffer::Iterator" "start" ∷ [])
        (is_pure_virtual ∷ is_virtual ∷ [])
    ∷ add_method "Deserialize" "uint32_t"
        (param "ns3::Buffer::Iterator" "start" ∷ param "ns3::Buffer::Iterator" "end" ∷ [])
        (is_virtual ∷ [])
    ∷ add_method "GetTypeId" "ns3::TypeId" [] (is_static ∷ [])
    ∷ add_method "Print" "void" (param "std::ostream &" "os" ∷ [])
        (is_pure_virtual ∷ is_const ∷ is_virtual ∷ [])
    ∷ []

abbrev pub register_ns3_header_methods : List Member
register_ns3_header_methods =
    add_output_stream_operator
    ∷ add_constructor [] []
    ∷ add_constructor (param "ns3::Header const &" "arg0" ∷ []) []
    ∷ add_method "Deserialize" "uint32_t" (param "ns3::Buffer::Iterator" "start" ∷ [])
        (is_pure_virtual ∷ is_virtual ∷ [])
    ∷ add_method "GetSerializedSize" "uint32_t" [] (is_pure_virtual ∷ is_const ∷ is_virtual ∷ [])
    ∷ add_method "GetTypeId" "ns3::TypeId" [] (is_static ∷ [])
    ∷ add_method "Print" "void" (param "std::ostream &" "os" ∷ [])
        (is_pure_virtual ∷ is_const ∷ is_virtual ∷ [])
    ∷ add_method "Serialize" "void" (param "ns3::Buffer::Iterator" "start" ∷ [])
        (is_pure_virtual ∷ is_const ∷ is_virtual ∷ [])
    ∷ []

abbrev pub register_ns3_object_methods : List Member
register_ns3_object_methods =
    add_constructor [] []
    ∷ add_method "AggregateObject" "void" (param "ns3::Ptr< ns3::Object >" "other" ∷ []) []
    ∷ add_method "Dispose" "void" [] []
    ∷ add_method "GetAggregateIterator" "ns3::Object::AggregateIterator" [] (is_const ∷ [])
    ∷ add_method "GetInstanceTypeId" "ns3::TypeId" [] (is_const ∷ is_virtual ∷ [])
    ∷ add_method "GetTypeId" "ns3::TypeId" [] (is_static ∷ [])
    ∷ add_method "Initialize" "void" [] []
    ∷ add_method "IsInitialized" "bool" [] (is_const ∷ [])
    ∷ add_constructor (param "ns3::Object const &" "o" ∷ []) (visibility "protected" ∷ [])
    ∷ add_method "DoDispose" "void" [] (visibility "protected" ∷ is_virtual ∷ [])
    ∷ add_method "DoInitialize" "void" [] (visibility "protected" ∷ is_virtual ∷ [])
    ∷ add_method "NotifyNewAggregate" "void" [] (visibility "protected" ∷ is_virtual ∷ [])
    ∷ []

abbrev pub register_ns3_object_aggregate_iterator_methods : List Member
register_ns3_object_aggregate_iterator_methods =
    add_constructor (param "ns3::Object::AggregateIterator const &" "arg0" ∷ []) []
    ∷ add_constructor [] []
    ∷ add_method "HasNext" "bool" [] (is_const ∷ [])
    ∷ add_method "Next" "ns3::Ptr< ns3::Object const >" [] []
    ∷ []

abbrev pub register_ns3_pcap_file_wrapper_methods : List Member
register_ns3_pcap_file_wrapper_methods =
    add_method "GetTypeId" "ns3::TypeId" [] (is_static ∷ [])
    ∷ add_constructor [] []
    ∷ add_method "Fail" "bool" [] (is_const ∷ [])
    ∷ add_method "Eof" "bool" [] (is_const ∷ [])
    ∷ add_method "Clear" "void" [] []
    ∷ add_method "Open" "void"
        (param "std::string const &" "filename" ∷ param "std::ios_base::openmode" "mode" ∷ []) []
    ∷ add_method "Close" "void" [] []
    ∷ add_method "Init" "void"
        (param "uint32_t" "dataLinkType"
          ∷ param_with "uint32_t" "snapLen"
              (default_value "std::numeric_limits<unsigned int>::max()" ∷ [])
          ∷ param_with "int32_t" "tzCorrection" (default_value "ns3::PcapFile::ZONE_DEFAULT" ∷ [])
          ∷ [])
        []
    ∷ add_method "Write" "void"
        (param "ns3::Time" "t" ∷ param "ns3::Ptr< ns3::Packet const >" "p" ∷ []) []
    ∷ add_method "Write" "void"
        (param "ns3::Time" "t"
          ∷ param "ns3::Header const &" "header"
          ∷ param "ns3::Ptr< ns3::Packet const >" "p"
          ∷ [])
        []
    ∷ add_method "Write" "void"
        (param "ns3::Time" "t" ∷ param "uint8_t const *" "buffer" ∷ param "uint32_t" "length" ∷ [])
        []
    ∷ add_method "Read" "ns3::Ptr< ns3::Packet >" (param "ns3::Time &" "t" ∷ []) []
    ∷ add_method "GetMagic" "uint32_t" [] []
    ∷ add_method "GetVersionMajor" "uint16_t" [] []
    ∷ add_method "GetVersionMinor" "uint16_t" [] []
    ∷ add_method "GetTimeZoneOffset" "int32_t" [] []
    ∷ add_method "GetSigFigs" "uint32_t" [] []
    ∷ add_method "GetSnapLen" "uint32_t" [] []
    ∷ add_method "GetDataLinkType" "uint32_t" [] []
    ∷ []

abbrev pub register_ns3_ppp_header_methods : List Member
register_ns3_ppp_header_methods =
    add_constructor (param "ns3::PppHeader const &" "arg0" ∷ []) []
    ∷ add_constructor [] []
    ∷ add_method "Deserialize" "uint32_t" (param "ns3::Buffer::Iterator" "start" ∷ [])
        (is_virtual ∷ [])
    ∷ add_method "GetInstanceTypeId" "ns3::TypeId" [] (is_const ∷ is_virtual ∷ [])
    ∷ add_method "GetProtocol" "uint16_t" [] []
    ∷ add_method "GetSerializedSize" "uint32_t" [] (is_const ∷ is_virtual ∷ [])
    ∷ add_method "GetTypeId" "ns3::TypeId" [] (is_static ∷ [])
    ∷ add_method "Print" "void" (param "std::ostream &" "os" ∷ []) (is_const ∷ is_virtual ∷ [])
    ∷ add_method "Serialize" "void" (param "ns3::Buffer::Iterator" "start" ∷ [])
        (is_const ∷ is_virtual ∷ [])
    ∷ add_method "SetProtocol" "void" (param "uint16_t" "protocol" ∷ []) []
    ∷ []

abbrev pub register_ns3_queue_base_methods : List Member
register_ns3_queue_base_methods =
    add_constructor (param "ns3::QueueBase const &" "arg0" ∷ []) []
    ∷ add_constructor [] []
    ∷ add_method "AppendItemTypeIfNotPresent" "void"
        (param "std::string &" "typeId" ∷ param "std::string const &" "itemType" ∷ [])
        (is_static ∷ [])
    ∷ add_method "GetCurrentSize" "ns3::QueueSize" [] (is_const ∷ [])
    ∷ add_method "GetMaxSize" "ns3::QueueSize" [] (is_const ∷ [])
    ∷ add_method "GetNBytes" "uint32_t" [] (is_const ∷ [])
    ∷ add_method "GetNPackets" "uint32_t" [] (is_const ∷ [])
    ∷ add_method "GetTotalDroppedBytes" "uint32_t" [] (is_const ∷ [])
    ∷ add_method "GetTotalDroppedBytesAfterDequeue" "uint32_t" [] (is_const ∷ [])
    ∷ add_method "GetTotalDroppedBytesBeforeEnqueue" "uint32_t" [] (is_const ∷ [])
    ∷ add_method "GetTotalDroppedPackets" "uint32_t" [] (is_const ∷ [])
    ∷ add_method "GetTotalDroppedPacketsAfterDequeue" "uint32_t" [] (is_const ∷ [])
    ∷ add_method "GetTotalDroppedPacketsBeforeEnqueue" "uint32_t" [] (is_const ∷ [])
    ∷ add_method "GetTotalReceivedBytes" "uint32_t" [] (is_const ∷ [])
    ∷ add_method "GetTotalReceivedPackets" "uint32_t" [] (is_const ∷ [])
    ∷ add_method "GetTypeId" "ns3::TypeId" [] (is_static ∷ [])
    ∷ add_method "IsEmpty" "bool" [] (is_const ∷ [])
    ∷ add_method "ResetStatistics" "void" [] []
    ∷ add_method "SetMaxSize" "void" (param "ns3::QueueSize" "size" ∷ []) []
    ∷ []
