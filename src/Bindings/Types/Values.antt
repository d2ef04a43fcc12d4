-- ===== src/Bindings/Types/Values.antt =====
-- `register_types` of bindings/modulegen__gcc_LP64.py, lines 24 to 169.
use cs621_network_programmin.Common.{List, [], ◌∷◌, true}
use cs621_network_programmin.Bindings.Syntax.{
  Command, import_from_module, outer_class, destructor_visibility, parent, template_parameters,
  allow_subclassing, automatic_type_narrowing, memory_policy, add_enum, add_class, add_type_alias,
  implicitly_converts_to,
}

abbrev pub types_through_time_with_unit : List Command
types_through_time_with_unit =
    add_enum "QueueSizeUnit" ("PACKETS" ∷ "BYTES" ∷ []) (import_from_module "ns.network" ∷ [])
    ∷ add_enum "LogLevel"
        ("LOG_NONE" ∷ "LOG_ERROR" ∷ "LOG_LEVEL_ERROR" ∷ "LOG_WARN" ∷ "LOG_LEVEL_WARN" ∷ "LOG_DEBUG"
          ∷ "LOG_LEVEL_DEBUG" ∷ "LOG_INFO" ∷ "LOG_LEVEL_INFO" ∷ "LOG_FUNCTION"
          ∷ "LOG_LEVEL_FUNCTION" ∷ "LOG_LOGIC" ∷ "LOG_LEVEL_LOGIC" ∷ "LOG_ALL" ∷ "LOG_LEVEL_ALL"
          ∷ "LOG_PREFIX_FUNC" ∷ "LOG_PREFIX_TIME" ∷ "LOG_PREFIX_NODE" ∷ "LOG_PREFIX_LEVEL"
          ∷ "LOG_PREFIX_ALL" ∷ [])
        (import_from_module "ns.core" ∷ [])
    ∷ add_class "Address" (import_from_module "ns.network" ∷ [])
    ∷ add_enum "MaxSize_e" ("MAX_SIZE" ∷ [])
        (outer_class "ns3::Address" ∷ import_from_module "ns.network" ∷ [])
    ∷ add_class "AsciiTraceHelper" (import_from_module "ns.network" ∷ [])
    ∷ add_class "AsciiTraceHelperForDevice"
        (allow_subclassing true ∷ import_from_module "ns.network" ∷ [])
    ∷ add_class "AttributeConstructionList" (import_from_module "ns.core" ∷ [])
    ∷ add_class "Item"
        (import_from_module "ns.core" ∷ outer_class "ns3::AttributeConstructionList" ∷ [])
    ∷ add_type_alias "std::list< ns3::AttributeConstructionList::Item > const_iterator"
        "ns3::AttributeConstructionList::CIterator"
    ∷ add_type_alias "std::list< ns3::AttributeConstructionList::Item > const_iterator*"
        "ns3::AttributeConstructionList::CIterator*"
    ∷ add_type_alias "std::list< ns3::AttributeConstructionList::Item > const_iterator&"
        "ns3::AttributeConstructionList::CIterator&"
    ∷ add_class "Buffer" (import_from_module "ns.network" ∷ [])
    ∷ add_class "Iterator" (import_from_module "ns.network" ∷ outer_class "ns3::Buffer" ∷ [])
    ∷ add_class "ByteTagIterator" (import_from_module "ns.network" ∷ [])
    ∷ add_class "Item" (import_from_module "ns.network" ∷ outer_class "ns3::ByteTagIterator" ∷ [])
    ∷ add_class "ByteTagList" (import_from_module "ns.network" ∷ [])
    ∷ add_class "Iterator" (import_from_module "ns.network" ∷ outer_class "ns3::ByteTagList" ∷ [])
    ∷ add_class "Item"
        (import_from_module "ns.network" ∷ outer_class "ns3::ByteTagList::Iterator" ∷ [])
    ∷ add_class "CallbackBase" (import_from_module "ns.core" ∷ [])
    ∷ add_class "DataRate" (import_from_module "ns.network" ∷ [])
    ∷ add_class "DefaultDeleter"
        (import_from_module "ns.core" ∷ template_parameters ("ns3::AttributeAccessor" ∷ []) ∷ [])
    ∷ add_class "DefaultDeleter"
        (import_from_module "ns.core" ∷ template_parameters ("ns3::AttributeChecker" ∷ []) ∷ [])
    ∷ add_class "DefaultDeleter"
        (import_from_module "ns.core" ∷ template_parameters ("ns3::AttributeValue" ∷ []) ∷ [])
    ∷ add_class "DefaultDeleter"
        (import_from_module "ns.core" ∷ template_parameters ("ns3::CallbackImplBase" ∷ []) ∷ [])
    ∷ add_class "DefaultDeleter"
        (import_from_module "ns.core" ∷ template_parameters ("ns3::EventImpl" ∷ []) ∷ [])
    ∷ add_class "DefaultDeleter"
        (import_from_module "ns.core" ∷ template_parameters ("ns3::Hash::Implementation" ∷ []) ∷ [])
    ∷ add_class "DefaultDeleter"
        (import_from_module "ns.core" ∷ template_parameters ("ns3::NixVector" ∷ []) ∷ [])
    ∷ add_class "DefaultDeleter"
        (import_from_module "ns.core" ∷ template_parameters ("ns3::OutputStreamWrapper" ∷ []) ∷ [])
    ∷ add_class "DefaultDeleter"
        (import_from_module "ns.core" ∷ template_parameters ("ns3::Packet" ∷ []) ∷ [])
    ∷ add_class "DefaultDeleter"
        (import_from_module "ns.core" ∷ template_parameters ("ns3::TraceSourceAccessor" ∷ []) ∷ [])
    ∷ add_class "EventId" (import_from_module "ns.core" ∷ [])
    ∷ add_class "Hasher" (import_from_module "ns.core" ∷ [])
    ∷ add_class "Ipv4Address" (import_from_module "ns.network" ∷ [])
    ∷ implicitly_converts_to "ns3::Ipv4Address" "ns3::Address"
    ∷ add_class "Ipv4Mask" (import_from_module "ns.network" ∷ [])
    ∷ add_class "Ipv6Address" (import_from_module "ns.network" ∷ [])
    ∷ implicitly_converts_to "ns3::Ipv6Address" "ns3::Address"
    ∷ add_class "Ipv6Prefix" (import_from_module "ns.network" ∷ [])
    ∷ add_class "LogComponent" (import_from_module "ns.core" ∷ [])
    ∷ add_type_alias "std::map< std::string, ns3::LogComponent * >"
        "ns3::LogComponent::ComponentList"
    ∷ add_type_alias "std::map< std::string, ns3::LogComponent * >*"
        "ns3::LogComponent::ComponentList*"
    ∷ add_type_alias "std::map< std::string, ns3::LogComponent * >&"
        "ns3::LogComponent::ComponentList&"
    ∷ add_class "Mac48Address" (import_from_module "ns.network" ∷ [])
    ∷ add_type_alias "void ( * ) ( ns3::Mac48Address )" "ns3::Mac48Address::TracedCallback"
    ∷ add_type_alias "void ( * ) ( ns3::Mac48Address )*" "ns3::Mac48Address::TracedCallback*"
    ∷ add_type_alias "void ( * ) ( ns3::Mac48Address )&" "ns3::Mac48Address::TracedCallback&"
    ∷ implicitly_converts_to "ns3::Mac48Address" "ns3::Address"
    ∷ add_class "Mac8Address" (import_from_module "ns.network" ∷ [])
    ∷ implicitly_converts_to "ns3::Mac8Address" "ns3::Address"
    ∷ add_class "NetDeviceContainer" (import_from_module "ns.network" ∷ [])
    ∷ add_type_alias "std::vector< ns3::Ptr< ns3::NetDevice > > const_iterator"
        "ns3::NetDeviceContainer::Iterator"
    ∷ add_type_alias "std::vector< ns3::Ptr< ns3::NetDevice > > const_iterator*"
        "ns3::NetDeviceContainer::Iterator*"
    ∷ add_type_alias "std::vector< ns3::Ptr< ns3::NetDevice > > const_iterator&"
        "ns3::NetDeviceContainer::Iterator&"
    ∷ add_class "NodeContainer" (import_from_module "ns.network" ∷ [])
    ∷ add_type_alias "std::vector< ns3::Ptr< ns3::Node > > const_iterator"
        "ns3::NodeContainer::Iterator"
    ∷ add_type_alias "std::vector< ns3::Ptr< ns3::Node > > const_iterator*"
        "ns3::NodeContainer::Iterator*"
    ∷ add_type_alias "std::vector< ns3::Ptr< ns3::Node > > const_iterator&"
        "ns3::NodeContainer::Iterator&"
    ∷ add_class "ObjectBase" (allow_subclassing true ∷ import_from_module "ns.core" ∷ [])
    ∷ add_class "ObjectDeleter" (import_from_module "ns.core" ∷ [])
    ∷ add_class "ObjectFactory" (import_from_module "ns.core" ∷ [])
    ∷ add_class "PacketMetadata" (import_from_module "ns.network" ∷ [])
    ∷ add_class "Item" (import_from_module "ns.network" ∷ outer_class "ns3::PacketMetadata" ∷ [])
    ∷ add_enum "ItemType" ("PAYLOAD" ∷ "HEADER" ∷ "TRAILER" ∷ [])
        (outer_class "ns3::PacketMetadata::Item" ∷ import_from_module "ns.network" ∷ [])
    ∷ add_class "ItemIterator"
        (import_from_module "ns.network" ∷ outer_class "ns3::PacketMetadata" ∷ [])
    ∷ add_class "PacketTagIterator" (import_from_module "ns.network" ∷ [])
    ∷ add_class "Item" (import_from_module "ns.network" ∷ outer_class "ns3::PacketTagIterator" ∷ [])
    ∷ add_class "PacketTagList" (import_from_module "ns.network" ∷ [])
    ∷ add_class "TagData" (import_from_module "ns.network" ∷ outer_class "ns3::PacketTagList" ∷ [])
    ∷ add_class "ParameterLogger" (import_from_module "ns.core" ∷ [])
    ∷ add_class "PcapFile" (import_from_module "ns.network" ∷ [])
    ∷ add_class "PcapHelper" (import_from_module "ns.network" ∷ [])
    ∷ add_enum "DataLinkType"
        ("DLT_NULL" ∷ "DLT_EN10MB" ∷ "DLT_PPP" ∷ "DLT_RAW" ∷ "DLT_IEEE802_11" ∷ "DLT_LINUX_SLL"
          ∷ "DLT_PRISM_HEADER" ∷ "DLT_IEEE802_11_RADIO" ∷ "DLT_IEEE802_15_4" ∷ "DLT_NETLINK" ∷ [])
        (outer_class "ns3::PcapHelper" ∷ import_from_module "ns.network" ∷ [])
    ∷ add_class "PcapHelperForDevice"
        (allow_subclassing true ∷ import_from_module "ns.network" ∷ [])
    ∷ add_class "PointToPointHelper"
        (parent ("ns3::PcapHelperForDevice" ∷ "ns3::AsciiTraceHelperForDevice" ∷ []) ∷ [])
    ∷ add_class "QueueSize" (import_from_module "ns.network" ∷ [])
    ∷ add_class "SimpleRefCount" (
        automatic_type_narrowing true
        ∷ import_from_module "ns.core"
        ∷ template_parameters ("ns3::Object" ∷ "ns3::ObjectBase" ∷ "ns3::ObjectDeleter" ∷ [])
        ∷ parent ("ns3::ObjectBase" ∷ [])
        ∷ memory_policy "Ref" "Unref" "GetReferenceCount"
        ∷ [])
    ∷ add_class "Simulator" (destructor_visibility "private" ∷ import_from_module "ns.core" ∷ [])
    ∷ add_enum "" ("NO_CONTEXT" ∷ [])
        (outer_class "ns3::Simulator" ∷ import_from_module "ns.core" ∷ [])
    ∷ add_class "Tag" (import_from_module "ns.network" ∷ parent ("ns3::ObjectBase" ∷ []) ∷ [])
    ∷ add_class "TagBuffer" (import_from_module "ns.network" ∷ [])
    ∷ add_class "TimeWithUnit" (import_from_module "ns.core" ∷ [])
    ∷ []
