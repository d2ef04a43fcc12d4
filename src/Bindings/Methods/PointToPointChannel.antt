-- ===== src/Bindings/Methods/PointToPointChannel.antt =====
-- The `register_…_methods` functions of bindings/modulegen__gcc_LP64.py, lines 5945 to 6405.
use cs621_network_programmin.Common.{List, [], ◌∷◌}
use cs621_network_programmin.Bindings.Syntax.{
  Member, visibility, is_const, is_virtual, is_pure_virtual, is_static, param, add_constructor,
  add_method,
}

abbrev pub register_ns3_point_to_point_channel_methods : List Member
register_ns3_point_to_point_channel_methods =
    add_constructor (param "ns3::PointToPointChannel const &" "arg0" ∷ []) []
    ∷ add_constructor [] []
    ∷ add_method "Attach" "void" (param "ns3::Ptr< ns3::PointToPointNetDevice >" "device" ∷ []) []
    ∷ add_method "GetDevice" "ns3::Ptr< ns3::NetDevice >" (param "std::size_t" "i" ∷ [])
        (is_const ∷ is_virtual ∷ [])
    ∷ add_method "GetNDevices" "std::size_t" [] (is_const ∷ is_virtual ∷ [])
    ∷ add_method "GetPointToPointDevice" "ns3::Ptr< ns3::PointToPointNetDevice >"
        (param "std::size_t" "i" ∷ []) (is_const ∷ [])
    ∷ add_method "GetTypeId" "ns3::TypeId" [] (is_static ∷ [])
    ∷ add_method "TransmitStart" "bool"
        (param "ns3::Ptr< ns3::Packet const >" "p"
          ∷ param "ns3::Ptr< ns3::PointToPointNetDevice >" "src"
          ∷ param "ns3::Time" "txTime"
          ∷ [])
        (is_virtual ∷ [])
    ∷ add_method "GetDelay" "ns3::Time" [] (is_const ∷ visibility "protected" ∷ [])
    ∷ add_method "GetDestination" "ns3::Ptr< ns3::PointToPointNetDevice >"
        (param "uint32_t" "i" ∷ []) (is_const ∷ visibility "protected" ∷ [])
    ∷ add_method "GetSource" "ns3::Ptr< ns3::PointToPointNetDevice >" (param "uint32_t" "i" ∷ [])
        (is_const ∷ visibility "protected" ∷ [])
    ∷ add_method "IsInitialized" "bool" [] (is_const ∷ visibility "protected" ∷ [])
    ∷ []

abbrev pub register_ns3_point_to_point_net_device_methods : List Member
register_ns3_point_to_point_net_device_methods =
    add_method "GetTypeId" "ns3::TypeId" [] (is_static ∷ [])
    ∷ add_constructor [] []
    ∷ add_method "SetDataRate" "void" (param "ns3::DataRate" "bps" ∷ []) []
    ∷ add_method "SetInterframeGap" "void" (param "ns3::Time" "t" ∷ []) []
    ∷ add_method "Attach" "bool" (param "ns3::Ptr< ns3::PointToPointChannel >" "ch" ∷ []) []
    ∷ add_method "SetQueue" "void" (param "ns3::Ptr< ns3::Queue< ns3::Packet > >" "queue" ∷ []) []
    ∷ add_method "GetQueue" "ns3::Ptr< ns3::Queue< ns3::Packet > >" [] (is_const ∷ [])
    ∷ add_method "SetReceiveErrorModel" "void" (param "ns3::Ptr< ns3::ErrorModel >" "em" ∷ []) []
    ∷ add_method "Receive" "void" (param "ns3::Ptr< ns3::Packet >" "p" ∷ []) []
    ∷ add_method "SetIfIndex" "void" (param "uint32_t const" "index" ∷ []) (is_virtual ∷ [])
    ∷ add_method "GetIfIndex" "uint32_t" [] (is_const ∷ is_virtual ∷ [])
    ∷ add_method "GetChannel" "ns3::Ptr< ns3::Channel >" [] (is_const ∷ is_virtual ∷ [])
    ∷ add_method "SetAddress" "void" (param "ns3::Address" "address" ∷ []) (is_virtual ∷ [])
    ∷ add_method "GetAddress" "ns3::Address" [] (is_const ∷ is_virtual ∷ [])
    ∷ add_method "SetMtu" "bool" (param "uint16_t const" "mtu" ∷ []) (is_virtual ∷ [])
    ∷ add_method "GetMtu" "uint16_t" [] (is_const ∷ is_virtual ∷ [])
    ∷ add_method "IsLinkUp" "bool" [] (is_const ∷ is_virtual ∷ [])
    ∷ add_method "AddLinkChangeCallback" "void"
        (param
            "ns3::Callback< void, ns3::empty, ns3::empty, ns3::empty, ns3::empty, ns3::empty, ns3::empty, ns3::empty, ns3::empty, ns3::empty >"
            "callback"
          ∷ [])
        (is_virtual ∷ [])
    ∷ add_method "IsBroadcast" "bool" [] (is_const ∷ is_virtual ∷ [])
    ∷ add_method "GetBroadcast" "ns3::Address" [] (is_const ∷ is_virtual ∷ [])
    ∷ add_method "IsMulticast" "bool" [] (is_const ∷ is_virtual ∷ [])
    ∷ add_method "GetMulticast" "ns3::Address" (param "ns3::Ipv4Address" "multicastGroup" ∷ [])
        (is_const ∷ is_virtual ∷ [])
    ∷ add_method "IsPointToPoint" "bool" [] (is_const ∷ is_virtual ∷ [])
    ∷ add_method "IsBridge" "bool" [] (is_const ∷ is_virtual ∷ [])
    ∷ add_method "Send" "bool"
        (param "ns3::Ptr< ns3::Packet >" "packet"
          ∷ param "ns3::Address const &" "dest"
          ∷ param "uint16_t" "protocolNumber"
          ∷ [])
        (is_virtual ∷ [])
    ∷ add_method "SendFrom" "bool"
        (param "ns3::Ptr< ns3::Packet >" "packet"
          ∷ param "ns3::Address const &" "source"
          ∷ param "ns3::Address const &" "dest"
          ∷ param "uint16_t" "protocolNumber"
          ∷ [])
        (is_virtual ∷ [])
    ∷ add_method "GetNode" "ns3::Ptr< ns3::Node >" [] (is_const ∷ is_virtual ∷ [])
    ∷ add_method "SetNode" "void" (param "ns3::Ptr< ns3::Node >" "node" ∷ []) (is_virtual ∷ [])
    ∷ add_method "NeedsArp" "bool" [] (is_const ∷ is_virtual ∷ [])
    ∷ add_method "SetReceiveCallback" "void"
        (param
            "ns3::Callback< bool, ns3::Ptr< ns3::NetDevice >, ns3::Ptr< ns3::Packet const >, unsigned short, ns3::Address const &, ns3::empty, ns3::empty, ns3::empty, ns3::empty, ns3::empty >"
            "cb"
          ∷ [])
        (is_virtual ∷ [])
    ∷ add_method "GetMulticast" "ns3::Address" (param "ns3::Ipv6Address" "addr" ∷ [])
        (is_const ∷ is_virtual ∷ [])
    ∷ add_method "SetPromiscReceiveCallback" "void"
        (param
            "ns3::Callback< bool, ns3::Ptr< ns3::NetDevice >, ns3::Ptr< ns3::Packet const >, unsigned short, ns3::Address const &, ns3::Address const &, ns3::NetDevice::PacketType, ns3::empty, ns3::empty, ns3::empty >"
            "cb"
          ∷ [])
        (is_virtual ∷ [])
    ∷ add_method "SupportsSendFrom" "bool" [] (is_const ∷ is_virtual ∷ [])
    ∷ add_method "DoMpiReceive" "void" (param "ns3::Ptr< ns3::Packet >" "p" ∷ [])
        (visibility "protected" ∷ [])
    ∷ add_method "DoInitialize" "void" [] (visibility "protected" ∷ is_virtual ∷ [])
    ∷ add_method "NotifyNewAggregate" "void" [] (visibility "protected" ∷ is_virtual ∷ [])
    ∷ add_method "DoDispose" "void" [] (visibility "private" ∷ is_virtual ∷ [])
    ∷ []

abbrev pub register_ns3_point_to_point_remote_channel_methods : List Member
register_ns3_point_to_point_remote_channel_methods =
    add_constructor (param "ns3::PointToPointRemoteChannel const &" "arg0" ∷ []) []
    ∷ add_constructor [] []
    ∷ add_method "GetTypeId" "ns3::TypeId" [] (is_static ∷ [])
    ∷ add_method "TransmitStart" "bool"
        (param "ns3::Ptr< ns3::Packet const >" "p"
          ∷ param "ns3::Ptr< ns3::PointToPointNetDevice >" "src"
          ∷ param "ns3::Time" "txTime"
          ∷ [])
        (is_virtual ∷ [])
    ∷ []

abbrev pub register_ns3_queue_ns3_packet_methods : List Member
register_ns3_queue_ns3_packet_methods =
    add_method "GetTypeId" "ns3::TypeId" [] (is_static ∷ [])
    ∷ add_constructor [] []
    ∷ add_method "Enqueue" "bool" (param "ns3::Ptr< ns3::Packet >" "item" ∷ [])
        (is_pure_virtual ∷ is_virtual ∷ [])
    ∷ add_method "Dequeue" "ns3::Ptr< ns3::Packet >" [] (is_pure_virtual ∷ is_virtual ∷ [])
    ∷ add_method "Remove" "ns3::Ptr< ns3::Packet >" [] (is_pure_virtual ∷ is_virtual ∷ [])
    ∷ add_method "Peek" "ns3::Ptr< ns3::Packet const >" []
        (is_pure_virtual ∷ is_const ∷ is_virtual ∷ [])
    ∷ add_method "Flush" "void" [] []
    ∷ add_constructor (param "ns3::Queue< ns3::Packet > const &" "arg0" ∷ []) []
    ∷ add_method "Head" "ns3::Queue< ns3::Packet > ConstIterator" []
        (is_const ∷ visibility "protected" ∷ [])
    ∷ add_method "Tail" "ns3::Queue< ns3::Packet > ConstIterator" []
        (is_const ∷ visibility "protected" ∷ [])
    ∷ add_method "DoEnqueue" "bool"
        (param "std::list< ns3::Ptr< ns3::Packet > > const_iterator" "pos"
          ∷ param "ns3::Ptr< ns3::Packet >" "item"
          ∷ [])
        (visibility "protected" ∷ [])
    ∷ add_method "DoDequeue" "ns3::Ptr< ns3::Packet >"
        (param "std::list< ns3::Ptr< ns3::Packet > > const_iterator" "pos" ∷ [])
        (visibility "protected" ∷ [])
    ∷ add_method "DoRemove" "ns3::Ptr< ns3::Packet >"
        (param "std::list< ns3::Ptr< ns3::Packet > > const_iterator" "pos" ∷ [])
        (visibility "protected" ∷ [])
    ∷ add_method "DoPeek" "ns3::Ptr< ns3::Packet const >"
        (param "std::list< ns3::Ptr< ns3::Packet > > const_iterator" "pos" ∷ [])
        (is_const ∷ visibility "protected" ∷ [])
    ∷ add_method "DropBeforeEnqueue" "void" (param "ns3::Ptr< ns3::Packet >" "item" ∷ [])
        (visibility "protected" ∷ [])
    ∷ add_method "DropAfterDequeue" "void" (param "ns3::Ptr< ns3::Packet >" "item" ∷ [])
        (visibility "protected" ∷ [])
    ∷ []

abbrev pub register_ns3_queue_size_checker_methods : List Member
register_ns3_queue_size_checker_methods =
    add_constructor [] []
    ∷ add_constructor (param "ns3::QueueSizeChecker const &" "arg0" ∷ []) []
    ∷ []

abbrev pub register_ns3_queue_size_value_methods : List Member
register_ns3_queue_size_value_methods =
    add_constructor [] []
    ∷ add_constructor (param "ns3::QueueSize const &" "value" ∷ []) []
    ∷ add_constructor (param "ns3::QueueSizeValue const &" "arg0" ∷ []) []
    ∷ add_method "Copy" "ns3::Ptr< ns3::AttributeValue >" [] (is_const ∷ is_virtual ∷ [])
    ∷ add_method "DeserializeFromString" "bool"
        (param "std::string" "value"
          ∷ param "ns3::Ptr< ns3::AttributeChecker const >" "checker"
          ∷ [])
        (is_virtual ∷ [])
    ∷ add_method "Get" "ns3::QueueSize" [] (is_const ∷ [])
    ∷ add_method "SerializeToString" "std::string"
        (param "ns3::Ptr< ns3::AttributeChecker const >" "checker" ∷ [])
        (is_const ∷ is_virtual ∷ [])
    ∷ add_method "Set" "void" (param "ns3::QueueSize const &" "value" ∷ []) []
    ∷ []

abbrev pub register_ns3_rate_error_model_methods : List Member
register_ns3_rate_error_model_methods =
    add_constructor (param "ns3::RateErrorModel const &" "arg0" ∷ []) []
    ∷ add_constructor [] []
    ∷ add_method "AssignStreams" "int64_t" (param "int64_t" "stream" ∷ []) []
    ∷ add_method "GetRate" "double" [] (is_const ∷ [])
    ∷ add_method "GetTypeId" "ns3::TypeId" [] (is_static ∷ [])
    ∷ add_method "GetUnit" "ns3::RateErrorModel::ErrorUnit" [] (is_const ∷ [])
    ∷ add_method "SetRandomVariable" "void"
        (param "ns3::Ptr< ns3::RandomVariableStream >" "arg0" ∷ []) []
    ∷ add_method "SetRate" "void" (param "double" "rate" ∷ []) []
    ∷ add_method "SetUnit" "void" (param "ns3::RateErrorModel::ErrorUnit" "error_unit" ∷ []) []
    ∷ add_method "DoCorrupt" "bool" (param "ns3::Ptr< ns3::Packet >" "p" ∷ [])
        (visibility "private" ∷ is_virtual ∷ [])
    ∷ add_method "DoCorruptBit" "bool" (param "ns3::Ptr< ns3::Packet >" "p" ∷ [])
        (visibility "private" ∷ is_virtual ∷ [])
    ∷ add_method "DoCorruptByte" "bool" (param "ns3::Ptr< ns3::Packet >" "p" ∷ [])
        (visibility "private" ∷ is_virtual ∷ [])
    ∷ add_method "DoCorruptPkt" "bool" (param "ns3::Ptr< ns3::Packet >" "p" ∷ [])
        (visibility "private" ∷ is_virtual ∷ [])
    ∷ add_method "DoReset" "void" [] (visibility "private" ∷ is_virtual ∷ [])
    ∷ []

abbrev pub register_ns3_receive_list_error_model_methods : List Member
register_ns3_receive_list_error_model_methods =
    add_constructor (param "ns3::ReceiveListErrorModel const &" "arg0" ∷ []) []
    ∷ add_constructor [] []
    ∷ add_method "GetList" "std::list< unsigned int >" [] (is_const ∷ [])
    ∷ add_method "GetTypeId" "ns3::TypeId" [] (is_static ∷ [])
    ∷ add_method "SetList" "void" (param "std::list< unsigned int > const &" "packetlist" ∷ []) []
    ∷ add_method "DoCorrupt" "bool" (param "ns3::Ptr< ns3::Packet >" "p" ∷ [])
        (visibility "private" ∷ is_virtual ∷ [])
    ∷ add_method "DoReset" "void" [] (visibility "private" ∷ is_virtual ∷ [])
    ∷ []
