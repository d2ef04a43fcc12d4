-- ===== src/Bindings/Methods/NixVector.antt =====
-- The `register_…_methods` functions of bindings/modulegen__gcc_LP64.py, lines 5473 to 5943.
use cs621_network_programmin.Common.{List, [], ◌∷◌, true}
use cs621_network_programmin.Bindings.Syntax.{
  Member, visibility, is_const, is_virtual, is_static, deprecated, default_value, param, param_with,
  add_constructor, add_method, add_static_attribute, add_output_stream_operator,
}

abbrev pub register_ns3_nix_vector_methods : List Member
register_ns3_nix_vector_methods =
    add_output_stream_operator
    ∷ add_constructor [] []
    ∷ add_constructor (param "ns3::NixVector const &" "o" ∷ []) []
    ∷ add_method "AddNeighborIndex" "void"
        (param "uint32_t" "newBits" ∷ param "uint32_t" "numberOfBits" ∷ []) []
    ∷ add_method "BitCount" "uint32_t" (param "uint32_t" "numberOfNeighbors" ∷ []) (is_const ∷ [])
    ∷ add_method "Copy" "ns3::Ptr< ns3::NixVector >" [] (is_const ∷ [])
    ∷ add_method "Deserialize" "uint32_t"
        (param "uint32_t const *" "buffer" ∷ param "uint32_t" "size" ∷ []) []
    ∷ add_method "ExtractNeighborIndex" "uint32_t" (param "uint32_t" "numberOfBits" ∷ []) []
    ∷ add_method "GetRemainingBits" "uint32_t" [] []
    ∷ add_method "GetSerializedSize" "uint32_t" [] (is_const ∷ [])
    ∷ add_method "Serialize" "uint32_t"
        (param "uint32_t *" "buffer" ∷ param "uint32_t" "maxSize" ∷ []) (is_const ∷ [])
    ∷ []

abbrev pub register_ns3_node_methods : List Member
register_ns3_node_methods =
    add_constructor (param "ns3::Node const &" "arg0" ∷ []) []
    ∷ add_constructor [] []
    ∷ add_constructor (param "uint32_t" "systemId" ∷ []) []
    ∷ add_method "AddApplication" "uint32_t"
        (param "ns3::Ptr< ns3::Application >" "application" ∷ []) []
    ∷ add_method "AddDevice" "uint32_t" (param "ns3::Ptr< ns3::NetDevice >" "device" ∷ []) []
    ∷ add_method "ChecksumEnabled" "bool" [] (is_static ∷ [])
    ∷ add_method "GetApplication" "ns3::Ptr< ns3::Application >" (param "uint32_t" "index" ∷ [])
        (is_const ∷ [])
    ∷ add_method "GetDevice" "ns3::Ptr< ns3::NetDevice >" (param "uint32_t" "index" ∷ [])
        (is_const ∷ [])
    ∷ add_method "GetId" "uint32_t" [] (is_const ∷ [])
    ∷ add_method "GetLocalTime" "ns3::Time" [] (is_const ∷ [])
    ∷ add_method "GetNApplications" "uint32_t" [] (is_const ∷ [])
    ∷ add_method "GetNDevices" "uint32_t" [] (is_const ∷ [])
    ∷ add_method "GetSystemId" "uint32_t" [] (is_const ∷ [])
    ∷ add_method "GetTypeId" "ns3::TypeId" [] (is_static ∷ [])
    ∷ add_method "RegisterDeviceAdditionListener" "void"
        (param
            "ns3::Callback< void, ns3::Ptr< ns3::NetDevice >, ns3::empty, ns3::empty, ns3::empty, ns3::empty, ns3::empty, ns3::empty, ns3::empty, ns3::empty >"
            "listener"
          ∷ [])
        []
    ∷ add_method "RegisterProtocolHandler" "void"
        (param
            "ns3::Callback< void, ns3::Ptr< ns3::NetDevice >, ns3::Ptr< ns3::Packet const >, unsigned short, ns3::Address const &, ns3::Address const &, ns3::NetDevice::PacketType, ns3::empty, ns3::empty, ns3::empty >"
            "handler"
          ∷ param "uint16_t" "protocolType"
          ∷ param "ns3::Ptr< ns3::NetDevice >" "device"
          ∷ param_with "bool" "promiscuous" (default_value "false" ∷ [])
          ∷ [])
        []
    ∷ add_method "UnregisterDeviceAdditionListener" "void"
        (param
            "ns3::Callback< void, ns3::Ptr< ns3::NetDevice >, ns3::empty, ns3::empty, ns3::empty, ns3::empty, ns3::empty, ns3::empty, ns3::empty, ns3::empty >"
            "listener"
          ∷ [])
        []
    ∷ add_method "UnregisterProtocolHandler" "void"
        (param
            "ns3::Callback< void, ns3::Ptr< ns3::NetDevice >, ns3::Ptr< ns3::Packet const >, unsigned short, ns3::Address const &, ns3::Address const &, ns3::NetDevice::PacketType, ns3::empty, ns3::empty, ns3::empty >"
            "handler"
          ∷ [])
        []
    ∷ add_method "DoDispose" "void" [] (visibility "protected" ∷ is_virtual ∷ [])
    ∷ add_method "DoInitialize" "void" [] (visibility "protected" ∷ is_virtual ∷ [])
    ∷ []

abbrev pub register_ns3_normal_random_variable_methods : List Member
register_ns3_normal_random_variable_methods =
    add_static_attribute "INFINITE_VALUE" "double const" true
    ∷ add_method "GetTypeId" "ns3::TypeId" [] (is_static ∷ [])
    ∷ add_constructor [] []
    ∷ add_method "GetMean" "double" [] (is_const ∷ [])
    ∷ add_method "GetVariance" "double" [] (is_const ∷ [])
    ∷ add_method "GetBound" "double" [] (is_const ∷ [])
    ∷ add_method "GetValue" "double"
        (param "double" "mean"
          ∷ param "double" "variance"
          ∷ param_with "double" "bound"
              (default_value "ns3::NormalRandomVariable::INFINITE_VALUE" ∷ [])
          ∷ [])
        []
    ∷ add_method "GetInteger" "uint32_t"
        (param "uint32_t" "mean" ∷ param "uint32_t" "variance" ∷ param "uint32_t" "bound" ∷ []) []
    ∷ add_method "GetValue" "double" [] (is_virtual ∷ [])
    ∷ add_method "GetInteger" "uint32_t" [] (is_virtual ∷ [])
    ∷ []

abbrev pub register_ns3_object_factory_checker_methods : List Member
register_ns3_object_factory_checker_methods =
    add_constructor [] []
    ∷ add_constructor (param "ns3::ObjectFactoryChecker const &" "arg0" ∷ []) []
    ∷ []

abbrev pub register_ns3_object_factory_value_methods : List Member
register_ns3_object_factory_value_methods =
    add_constructor [] []
    ∷ add_constructor (param "ns3::ObjectFactory const &" "value" ∷ []) []
    ∷ add_constructor (param "ns3::ObjectFactoryValue const &" "arg0" ∷ []) []
    ∷ add_method "Copy" "ns3::Ptr< ns3::AttributeValue >" [] (is_const ∷ is_virtual ∷ [])
    ∷ add_method "DeserializeFromString" "bool"
        (param "std::string" "value"
          ∷ param "ns3::Ptr< ns3::AttributeChecker const >" "checker"
          ∷ [])
        (is_virtual ∷ [])
    ∷ add_method "Get" "ns3::ObjectFactory" [] (is_const ∷ [])
    ∷ add_method "SerializeToString" "std::string"
        (param "ns3::Ptr< ns3::AttributeChecker const >" "checker" ∷ [])
        (is_const ∷ is_virtual ∷ [])
    ∷ add_method "Set" "void" (param "ns3::ObjectFactory const &" "value" ∷ []) []
    ∷ []

abbrev pub register_ns3_output_stream_wrapper_methods : List Member
register_ns3_output_stream_wrapper_methods =
    add_constructor (param "ns3::OutputStreamWrapper const &" "arg0" ∷ []) []
    ∷ add_constructor
        (param "std::string" "filename" ∷ param "std::ios_base::openmode" "filemode" ∷ []) []
    ∷ add_constructor (param "std::ostream *" "os" ∷ []) []
    ∷ add_method "GetStream" "std::ostream *" [] []
    ∷ []

abbrev pub register_ns3_packet_methods : List Member
register_ns3_packet_methods =
    add_output_stream_operator
    ∷ add_constructor [] []
    ∷ add_constructor (param "ns3::Packet const &" "o" ∷ []) []
    ∷ add_constructor (param "uint32_t" "size" ∷ []) []
    ∷ add_constructor
        (param "uint8_t const *" "buffer" ∷ param "uint32_t" "size" ∷ param "bool" "magic" ∷ []) []
    ∷ add_constructor (param "uint8_t const *" "buffer" ∷ param "uint32_t" "size" ∷ []) []
    ∷ add_method "AddAtEnd" "void" (param "ns3::Ptr< ns3::Packet const >" "packet" ∷ []) []
    ∷ add_method "AddByteTag" "void" (param "ns3::Tag const &" "tag" ∷ []) (is_const ∷ [])
    ∷ add_method "AddHeader" "void" (param "ns3::Header const &" "header" ∷ []) []
    ∷ add_method "AddPacketTag" "void" (param "ns3::Tag const &" "tag" ∷ []) (is_const ∷ [])
    ∷ add_method "AddPaddingAtEnd" "void" (param "uint32_t" "size" ∷ []) []
    ∷ add_method "AddTrailer" "void" (param "ns3::Trailer const &" "trailer" ∷ []) []
    ∷ add_method "BeginItem" "ns3::PacketMetadata::ItemIterator" [] (is_const ∷ [])
    ∷ add_method "Copy" "ns3::Ptr< ns3::Packet >" [] (is_const ∷ [])
    ∷ add_method "CopyData" "uint32_t" (param "uint8_t *" "buffer" ∷ param "uint32_t" "size" ∷ [])
        (is_const ∷ [])
    ∷ add_method "CopyData" "void" (param "std::ostream *" "os" ∷ param "uint32_t" "size" ∷ [])
        (is_const ∷ [])
    ∷ add_method "CreateFragment" "ns3::Ptr< ns3::Packet >"
        (param "uint32_t" "start" ∷ param "uint32_t" "length" ∷ []) (is_const ∷ [])
    ∷ add_method "EnableChecking" "void" [] (is_static ∷ [])
    ∷ add_method "EnablePrinting" "void" [] (is_static ∷ [])
    ∷ add_method "FindFirstMatchingByteTag" "bool" (param "ns3::Tag &" "tag" ∷ []) (is_const ∷ [])
    ∷ add_method "GetByteTagIterator" "ns3::ByteTagIterator" [] (is_const ∷ [])
    ∷ add_method "GetNixVector" "ns3::Ptr< ns3::NixVector >" [] (is_const ∷ [])
    ∷ add_method "GetPacketTagIterator" "ns3::PacketTagIterator" [] (is_const ∷ [])
    ∷ add_method "GetSerializedSize" "uint32_t" [] (is_const ∷ [])
    ∷ add_method "GetSize" "uint32_t" [] (is_const ∷ [])
    ∷ add_method "GetUid" "uint64_t" [] (is_const ∷ [])
    ∷ add_method "PeekHeader" "uint32_t" (param "ns3::Header &" "header" ∷ []) (is_const ∷ [])
    ∷ add_method "PeekHeader" "uint32_t"
        (param "ns3::Header &" "header" ∷ param "uint32_t" "size" ∷ []) (is_const ∷ [])
    ∷ add_method "PeekPacketTag" "bool" (param "ns3::Tag &" "tag" ∷ []) (is_const ∷ [])
    ∷ add_method "PeekTrailer" "uint32_t" (param "ns3::Trailer &" "trailer" ∷ []) []
    ∷ add_method "Print" "void" (param "std::ostream &" "os" ∷ []) (is_const ∷ [])
    ∷ add_method "PrintByteTags" "void" (param "std::ostream &" "os" ∷ []) (is_const ∷ [])
    ∷ add_method "PrintPacketTags" "void" (param "std::ostream &" "os" ∷ []) (is_const ∷ [])
    ∷ add_method "RemoveAllByteTags" "void" [] []
    ∷ add_method "RemoveAllPacketTags" "void" [] []
    ∷ add_method "RemoveAtEnd" "void" (param "uint32_t" "size" ∷ []) []
    ∷ add_method "RemoveAtStart" "void" (param "uint32_t" "size" ∷ []) []
    ∷ add_method "RemoveHeader" "uint32_t" (param "ns3::Header &" "header" ∷ []) []
    ∷ add_method "RemoveHeader" "uint32_t"
        (param "ns3::Header &" "header" ∷ param "uint32_t" "size" ∷ []) []
    ∷ add_method "RemovePacketTag" "bool" (param "ns3::Tag &" "tag" ∷ []) []
    ∷ add_method "RemoveTrailer" "uint32_t" (param "ns3::Trailer &" "trailer" ∷ []) []
    ∷ add_method "ReplacePacketTag" "bool" (param "ns3::Tag &" "tag" ∷ []) []
    ∷ add_method "Serialize" "uint32_t"
        (param "uint8_t *" "buffer" ∷ param "uint32_t" "maxSize" ∷ []) (is_const ∷ [])
    ∷ add_method "SetNixVector" "void" (param "ns3::Ptr< ns3::NixVector >" "nixVector" ∷ []) []
    ∷ add_method "ToString" "std::string" [] (is_const ∷ [])
    ∷ []

abbrev pub register_ns3_pareto_random_variable_methods : List Member
register_ns3_pareto_random_variable_methods =
    add_method "GetTypeId" "ns3::TypeId" [] (is_static ∷ [])
    ∷ add_constructor [] []
    ∷ add_method "GetMean" "double" [] (deprecated ∷ is_const ∷ [])
    ∷ add_method "GetScale" "double" [] (is_const ∷ [])
    ∷ add_method "GetShape" "double" [] (is_const ∷ [])
    ∷ add_method "GetBound" "double" [] (is_const ∷ [])
    ∷ add_method "GetValue" "double"
        (param "double" "scale" ∷ param "double" "shape" ∷ param "double" "bound" ∷ []) []
    ∷ add_method "GetInteger" "uint32_t"
        (param "uint32_t" "scale" ∷ param "uint32_t" "shape" ∷ param "uint32_t" "bound" ∷ []) []
    ∷ add_method "GetValue" "double" [] (is_virtual ∷ [])
    ∷ add_method "GetInteger" "uint32_t" [] (is_virtual ∷ [])
    ∷ []
