-- ===== src/Bindings/Methods/PcapFile.antt =====
-- The `register_…_methods` functions of bindings/modulegen__gcc_LP64.py, lines 2564 to 2905.
use cs621_network_programmin.Common.{List, [], ◌∷◌, true}
use cs621_network_programmin.Bindings.Syntax.{
  Member, visibility, is_const, is_virtual, is_pure_virtual, is_static, default_value, param,
  param_with, add_constructor, add_method, add_static_attribute, add_binary_comparison_operator,
  add_output_stream_operator,
}

abbrev pub register_ns3_pcap_file_methods : List Member
register_ns3_pcap_file_methods =
    add_constructor [] []
    ∷ add_method "Clear" "void" [] []
    ∷ add_method "Close" "void" [] []
    ∷ add_method "Diff" "bool"
        (param "std::string const &" "f1"
          ∷ param "std::string const &" "f2"
          ∷ param "uint32_t &" "sec"
          ∷ param "uint32_t &" "usec"
          ∷ param "uint32_t &" "packets"
          ∷ param_with "uint32_t" "snapLen" (default_value "ns3::PcapFile::SNAPLEN_DEFAULT" ∷ [])
          ∷ [])
        (is_static ∷ [])
    ∷ add_method "Eof" "bool" [] (is_const ∷ [])
    ∷ add_method "Fail" "bool" [] (is_const ∷ [])
    ∷ add_method "GetDataLinkType" "uint32_t" [] []
    ∷ add_method "GetMagic" "uint32_t" [] []
    ∷ add_method "GetSigFigs" "uint32_t" [] []
    ∷ add_method "GetSnapLen" "uint32_t" [] []
    ∷ add_method "GetSwapMode" "bool" [] []
    ∷ add_method "GetTimeZoneOffset" "int32_t" [] []
    ∷ add_method "GetVersionMajor" "uint16_t" [] []
    ∷ add_method "GetVersionMinor" "uint16_t" [] []
    ∷ add_method "Init" "void"
        (param "uint32_t" "dataLinkType"
          ∷ param_with "uint32_t" "snapLen" (default_value "ns3::PcapFile::SNAPLEN_DEFAULT" ∷ [])
          ∷ param_with "int32_t" "timeZoneCorrection"
              (default_value "ns3::PcapFile::ZONE_DEFAULT" ∷ [])
          ∷ param_with "bool" "swapMode" (default_value "false" ∷ [])
          ∷ param_with "bool" "nanosecMode" (default_value "false" ∷ [])
          ∷ [])
        []
    ∷ add_method "IsNanoSecMode" "bool" [] []
    ∷ add_method "Open" "void"
        (param "std::string const &" "filename" ∷ param "std::ios_base::openmode" "mode" ∷ []) []
    ∷ add_method "Read" "void"
        (param "uint8_t * const" "data"
          ∷ param "uint32_t" "maxBytes"
          ∷ param "uint32_t &" "tsSec"
          ∷ param "uint32_t &" "tsUsec"
          ∷ param "uint32_t &" "inclLen"
          ∷ param "uint32_t &" "origLen"
          ∷ param "uint32_t &" "readLen"
          ∷ [])
        []
    ∷ add_method "Write" "void"
        (param "uint32_t" "tsSec"
          ∷ param "uint32_t" "tsUsec"
          ∷ param "uint8_t const * const" "data"
          ∷ param "uint32_t" "totalLen"
          ∷ [])
        []
    ∷ add_method "Write" "void"
        (param "uint32_t" "tsSec"
          ∷ param "uint32_t" "tsUsec"
          ∷ param "ns3::Ptr< ns3::Packet const >" "p"
          ∷ [])
        []
    ∷ add_method "Write" "void"
        (param "uint32_t" "tsSec"
          ∷ param "uint32_t" "tsUsec"
          ∷ param "ns3::Header const &" "header"
          ∷ param "ns3::Ptr< ns3::Packet const >" "p"
          ∷ [])
        []
    ∷ add_static_attribute "SNAPLEN_DEFAULT" "uint32_t const" true
    ∷ add_static_attribute "ZONE_DEFAULT" "int32_t const" true
    ∷ []

abbrev pub register_ns3_pcap_helper_methods : List Member
register_ns3_pcap_helper_methods =
    add_constructor (param "ns3::PcapHelper const &" "arg0" ∷ []) []
    ∷ add_constructor [] []
    ∷ add_method "CreateFile" "ns3::Ptr< ns3::PcapFileWrapper >"
        (param "std::string" "filename"
          ∷ param "std::ios_base::openmode" "filemode"
          ∷ param "ns3::PcapHelper::DataLinkType" "dataLinkType"
          ∷ param_with "uint32_t" "snapLen"
              (default_value "std::numeric_limits<unsigned int>::max()" ∷ [])
          ∷ param_with "int32_t" "tzCorrection" (default_value "0" ∷ [])
          ∷ [])
        []
    ∷ add_method "GetFilenameFromDevice" "std::string"
        (param "std::string" "prefix"
          ∷ param "ns3::Ptr< ns3::NetDevice >" "device"
          ∷ param_with "bool" "useObjectNames" (default_value "true" ∷ [])
          ∷ [])
        []
    ∷ add_method "GetFilenameFromInterfacePair" "std::string"
        (param "std::string" "prefix"
          ∷ param "ns3::Ptr< ns3::Object >" "object"
          ∷ param "uint32_t" "interface"
          ∷ param_with "bool" "useObjectNames" (default_value "true" ∷ [])
          ∷ [])
        []
    ∷ []

abbrev pub register_ns3_pcap_helper_for_device_methods : List Member
register_ns3_pcap_helper_for_device_methods =
    add_constructor (param "ns3::PcapHelperForDevice const &" "arg0" ∷ []) []
    ∷ add_constructor [] []
    ∷ add_method "EnablePcap" "void"
        (param "std::string" "prefix"
          ∷ param "ns3::Ptr< ns3::NetDevice >" "nd"
          ∷ param_with "bool" "promiscuous" (default_value "false" ∷ [])
          ∷ param_with "bool" "explicitFilename" (default_value "false" ∷ [])
          ∷ [])
        []
    ∷ add_method "EnablePcap" "void"
        (param "std::string" "prefix"
          ∷ param "std::string" "ndName"
          ∷ param_with "bool" "promiscuous" (default_value "false" ∷ [])
          ∷ param_with "bool" "explicitFilename" (default_value "false" ∷ [])
          ∷ [])
        []
    ∷ add_method "EnablePcap" "void"
        (param "std::string" "prefix"
          ∷ param "ns3::NetDeviceContainer" "d"
          ∷ param_with "bool" "promiscuous" (default_value "false" ∷ [])
          ∷ [])
        []
    ∷ add_method "EnablePcap" "void"
        (param "std::string" "prefix"
          ∷ param "ns3::NodeContainer" "n"
          ∷ param_with "bool" "promiscuous" (default_value "false" ∷ [])
          ∷ [])
        []
    ∷ add_method "EnablePcap" "void"
        (param "std::string" "prefix"
          ∷ param "uint32_t" "nodeid"
          ∷ param "uint32_t" "deviceid"
          ∷ param_with "bool" "promiscuous" (default_value "false" ∷ [])
          ∷ [])
        []
    ∷ add_method "EnablePcapAll" "void"
        (param "std::string" "prefix"
          ∷ param_with "bool" "promiscuous" (default_value "false" ∷ [])
          ∷ [])
        []
    ∷ add_method "EnablePcapInternal" "void"
        (param "std::string" "prefix"
          ∷ param "ns3::Ptr< ns3::NetDevice >" "nd"
          ∷ param "bool" "promiscuous"
          ∷ param "bool" "explicitFilename"
          ∷ [])
        (is_pure_virtual ∷ is_virtual ∷ [])
    ∷ []

abbrev pub register_ns3_point_to_point_helper_methods : List Member
register_ns3_point_to_point_helper_methods =
    add_constructor (param "ns3::PointToPointHelper const &" "arg0" ∷ []) []
    ∷ add_constructor [] []
    ∷ add_method "Install" "ns3::NetDeviceContainer" (param "ns3::NodeContainer" "c" ∷ []) []
    ∷ add_method "Install" "ns3::NetDeviceContainer"
        (param "ns3::Ptr< ns3::Node >" "a" ∷ param "ns3::Ptr< ns3::Node >" "b" ∷ []) []
    ∷ add_method "Install" "ns3::NetDeviceContainer"
        (param "ns3::Ptr< ns3::Node >" "a" ∷ param "std::string" "bName" ∷ []) []
    ∷ add_method "Install" "ns3::NetDeviceContainer"
        (param "std::string" "aName" ∷ param "ns3::Ptr< ns3::Node >" "b" ∷ []) []
    ∷ add_method "Install" "ns3::NetDeviceContainer"
        (param "std::string" "aNode" ∷ param "std::string" "bNode" ∷ []) []
    ∷ add_method "SetChannelAttribute" "void"
        (param "std::string" "name" ∷ param "ns3::AttributeValue const &" "value" ∷ []) []
    ∷ add_method "SetDeviceAttribute" "void"
        (param "std::string" "name" ∷ param "ns3::AttributeValue const &" "value" ∷ []) []
    ∷ add_method "SetQueue" "void"
        (param "std::string" "type"
          ∷ param_with "std::string" "n1" (default_value "\"\"" ∷ [])
          ∷ param_with "ns3::AttributeValue const &" "v1"
              (default_value "ns3::EmptyAttributeValue()" ∷ [])
          ∷ param_with "std::string" "n2" (default_value "\"\"" ∷ [])
          ∷ param_with "ns3::AttributeValue const &" "v2"
              (default_value "ns3::EmptyAttributeValue()" ∷ [])
          ∷ param_with "std::string" "n3" (default_value "\"\"" ∷ [])
          ∷ param_with "ns3::AttributeValue const &" "v3"
              (default_value "ns3::EmptyAttributeValue()" ∷ [])
          ∷ param_with "std::string" "n4" (default_value "\"\"" ∷ [])
          ∷ param_with "ns3::AttributeValue const &" "v4"
              (default_value "ns3::EmptyAttributeValue()" ∷ [])
          ∷ [])
        []
    ∷ add_method "EnableAsciiInternal" "void"
        (param "ns3::Ptr< ns3::OutputStreamWrapper >" "stream"
          ∷ param "std::string" "prefix"
          ∷ param "ns3::Ptr< ns3::NetDevice >" "nd"
          ∷ param "bool" "explicitFilename"
          ∷ [])
        (visibility "private" ∷ is_virtual ∷ [])
    ∷ add_method "EnablePcapInternal" "void"
        (param "std::string" "prefix"
          ∷ param "ns3::Ptr< ns3::NetDevice >" "nd"
          ∷ param "bool" "promiscuous"
          ∷ param "bool" "explicitFilename"
          ∷ [])
        (visibility "private" ∷ is_virtual ∷ [])
    ∷ []

abbrev pub register_ns3_queue_size_methods : List Member
register_ns3_queue_size_methods =
    add_output_stream_operator
    ∷ add_binary_comparison_operator "!="
    ∷ add_binary_comparison_operator "<"
    ∷ add_binary_comparison_operator "<="
    ∷ add_binary_comparison_operator "=="
    ∷ add_binary_comparison_operator ">"
    ∷ add_binary_comparison_operator ">="
    ∷ add_constructor (param "ns3::QueueSize const &" "arg0" ∷ []) []
    ∷ add_constructor [] []
    ∷ add_constructor (param "ns3::QueueSizeUnit" "unit" ∷ param "uint32_t" "value" ∷ []) []
    ∷ add_constructor (param "std::string" "size" ∷ []) []
    ∷ add_method "GetUnit" "ns3::QueueSizeUnit" [] (is_const ∷ [])
    ∷ add_method "GetValue" "uint32_t" [] (is_const ∷ [])
    ∷ []

abbrev pub register_ns3_simple_ref_count_object_methods : List Member
register_ns3_simple_ref_count_object_methods =
    add_constructor [] []
    ∷ add_constructor
        (param "ns3::SimpleRefCount< ns3::Object, ns3::ObjectBase, ns3::ObjectDeleter > const &" "o"
          ∷ [])
        []
    ∷ []

abbrev pub register_ns3_simulator_methods : List Member
register_ns3_simulator_methods =
    add_constructor (param "ns3::Simulator const &" "arg0" ∷ []) []
    ∷ add_method "Cancel" "void" (param "ns3::EventId const &" "id" ∷ []) (is_static ∷ [])
    ∷ add_method "Destroy" "void" [] (is_static ∷ [])
    ∷ add_method "GetContext" "uint32_t" [] (is_static ∷ [])
    ∷ add_method "GetDelayLeft" "ns3::Time" (param "ns3::EventId const &" "id" ∷ [])
        (is_static ∷ [])
    ∷ add_method "GetImplementation" "ns3::Ptr< ns3::SimulatorImpl >" [] (is_static ∷ [])
    ∷ add_method "GetMaximumSimulationTime" "ns3::Time" [] (is_static ∷ [])
    ∷ add_method "GetSystemId" "uint32_t" [] (is_static ∷ [])
    ∷ add_method "IsExpired" "bool" (param "ns3::EventId const &" "id" ∷ []) (is_static ∷ [])
    ∷ add_method "IsFinished" "bool" [] (is_static ∷ [])
    ∷ add_method "Now" "ns3::Time" [] (is_static ∷ [])
    ∷ add_method "Remove" "void" (param "ns3::EventId const &" "id" ∷ []) (is_static ∷ [])
    ∷ add_method "SetImplementation" "void" (param "ns3::Ptr< ns3::SimulatorImpl >" "impl" ∷ [])
        (is_static ∷ [])
    ∷ add_method "SetScheduler" "void" (param "ns3::ObjectFactory" "schedulerFactory" ∷ [])
        (is_static ∷ [])
    ∷ add_method "Stop" "void" [] (is_static ∷ [])
    ∷ add_method "Stop" "void" (param "ns3::Time const &" "delay" ∷ []) (is_static ∷ [])
    ∷ []

abbrev pub register_ns3_tag_methods : List Member
register_ns3_tag_methods =
    add_constructor [] []
    ∷ add_constructor (param "ns3::Tag const &" "arg0" ∷ []) []
    ∷ add_method "Deserialize" "void" (param "ns3::TagBuffer" "i" ∷ [])
        (is_pure_virtual ∷ is_virtual ∷ [])
    ∷ add_method "GetSerializedSize" "uint32_t" [] (is_pure_virtual ∷ is_const ∷ is_virtual ∷ [])
    ∷ add_method "GetTypeId" "ns3::TypeId" [] (is_static ∷ [])
    ∷ add_method "Print" "void" (param "std::ostream &" "os" ∷ [])
        (is_pure_virtual ∷ is_const ∷ is_virtual ∷ [])
    ∷ add_method "Serialize" "void" (param "ns3::TagBuffer" "i" ∷ [])
        (is_pure_virtual ∷ is_const ∷ is_virtual ∷ [])
    ∷ []
