-- ===== src/Bindings/Types/Devices.antt =====
-- `register_types` of bindings/modulegen__gcc_LP64.py, lines 311 to 436.
use cs621_network_programmin.Common.{List, [], ◌∷◌}
use cs621_network_programmin.Bindings.Syntax.{
  Command, import_from_module, outer_class, parent, template_parameters, add_enum, add_class,
  add_container, add_type_alias,
}

abbrev pub types_through_log_node_printer : List Command
types_through_log_node_printer =
    add_class "Ipv4MaskValue"
      (import_from_module "ns.network" ∷ parent ("ns3::AttributeValue" ∷ []) ∷ [])
    ∷ add_class "Ipv6AddressChecker"
        (import_from_module "ns.network" ∷ parent ("ns3::AttributeChecker" ∷ []) ∷ [])
    ∷ add_class "Ipv6AddressValue"
        (import_from_module "ns.network" ∷ parent ("ns3::AttributeValue" ∷ []) ∷ [])
    ∷ add_class "Ipv6PrefixChecker"
        (import_from_module "ns.network" ∷ parent ("ns3::AttributeChecker" ∷ []) ∷ [])
    ∷ add_class "Ipv6PrefixValue"
        (import_from_module "ns.network" ∷ parent ("ns3::AttributeValue" ∷ []) ∷ [])
    ∷ add_class "ListErrorModel"
        (import_from_module "ns.network" ∷ parent ("ns3::ErrorModel" ∷ []) ∷ [])
    ∷ add_class "LogNormalRandomVariable"
        (import_from_module "ns.core" ∷ parent ("ns3::RandomVariableStream" ∷ []) ∷ [])
    ∷ add_class "Mac48AddressChecker"
        (import_from_module "ns.network" ∷ parent ("ns3::AttributeChecker" ∷ []) ∷ [])
    ∷ add_class "Mac48AddressValue"
        (import_from_module "ns.network" ∷ parent ("ns3::AttributeValue" ∷ []) ∷ [])
    ∷ add_class "NetDevice" (import_from_module "ns.network" ∷ parent ("ns3::Object" ∷ []) ∷ [])
    ∷ add_enum "PacketType"
        ("PACKET_HOST" ∷ "NS3_PACKET_HOST" ∷ "PACKET_BROADCAST" ∷ "NS3_PACKET_BROADCAST"
          ∷ "PACKET_MULTICAST" ∷ "NS3_PACKET_MULTICAST" ∷ "PACKET_OTHERHOST"
          ∷ "NS3_PACKET_OTHERHOST" ∷ [])
        (outer_class "ns3::NetDevice" ∷ import_from_module "ns.network" ∷ [])
    ∷ add_type_alias "void ( * ) (  )" "ns3::NetDevice::LinkChangeTracedCallback"
    ∷ add_type_alias "void ( * ) (  )*" "ns3::NetDevice::LinkChangeTracedCallback*"
    ∷ add_type_alias "void ( * ) (  )&" "ns3::NetDevice::LinkChangeTracedCallback&"
    ∷ add_type_alias
        "ns3::Callback< bool, ns3::Ptr< ns3::NetDevice >, ns3::Ptr< ns3::Packet const >, unsigned short, ns3::Address const &, ns3::empty, ns3::empty, ns3::empty, ns3::empty, ns3::empty >"
        "ns3::NetDevice::ReceiveCallback"
    ∷ add_type_alias
        "ns3::Callback< bool, ns3::Ptr< ns3::NetDevice >, ns3::Ptr< ns3::Packet const >, unsigned short, ns3::Address const &, ns3::empty, ns3::empty, ns3::empty, ns3::empty, ns3::empty >*"
        "ns3::NetDevice::ReceiveCallback*"
    ∷ add_type_alias
        "ns3::Callback< bool, ns3::Ptr< ns3::NetDevice >, ns3::Ptr< ns3::Packet const >, unsigned short, ns3::Address const &, ns3::empty, ns3::empty, ns3::empty, ns3::empty, ns3::empty >&"
        "ns3::NetDevice::ReceiveCallback&"
    ∷ add_type_alias
        "ns3::Callback< bool, ns3::Ptr< ns3::NetDevice >, ns3::Ptr< ns3::Packet const >, unsigned short, ns3::Address const &, ns3::Address const &, ns3::NetDevice::PacketType, ns3::empty, ns3::empty, ns3::empty >"
        "ns3::NetDevice::PromiscReceiveCallback"
    ∷ add_type_alias
        "ns3::Callback< bool, ns3::Ptr< ns3::NetDevice >, ns3::Ptr< ns3::Packet const >, unsigned short, ns3::Address const &, ns3::Address const &, ns3::NetDevice::PacketType, ns3::empty, ns3::empty, ns3::empty >*"
        "ns3::NetDevice::PromiscReceiveCallback*"
    ∷ add_type_alias
        "ns3::Callback< bool, ns3::Ptr< ns3::NetDevice >, ns3::Ptr< ns3::Packet const >, unsigned short, ns3::Address const &, ns3::Address const &, ns3::NetDevice::PacketType, ns3::empty, ns3::empty, ns3::empty >&"
        "ns3::NetDevice::PromiscReceiveCallback&"
    ∷ add_class "NixVector" (
        import_from_module "ns.network"
        ∷ parent (
            "ns3::SimpleRefCount< ns3::NixVector, ns3::empty, ns3::DefaultDeleter<ns3::NixVector> >"
            ∷ [])
        ∷ [])
    ∷ add_class "Node" (import_from_module "ns.network" ∷ parent ("ns3::Object" ∷ []) ∷ [])
    ∷ add_type_alias
        "ns3::Callback< void, ns3::Ptr< ns3::NetDevice >, ns3::Ptr< ns3::Packet const >, unsigned short, ns3::Address const &, ns3::Address const &, ns3::NetDevice::PacketType, ns3::empty, ns3::empty, ns3::empty >"
        "ns3::Node::ProtocolHandler"
    ∷ add_type_alias
        "ns3::Callback< void, ns3::Ptr< ns3::NetDevice >, ns3::Ptr< ns3::Packet const >, unsigned short, ns3::Address const &, ns3::Address const &, ns3::NetDevice::PacketType, ns3::empty, ns3::empty, ns3::empty >*"
        "ns3::Node::ProtocolHandler*"
    ∷ add_type_alias
        "ns3::Callback< void, ns3::Ptr< ns3::NetDevice >, ns3::Ptr< ns3::Packet const >, unsigned short, ns3::Address const &, ns3::Address const &, ns3::NetDevice::PacketType, ns3::empty, ns3::empty, ns3::empty >&"
        "ns3::Node::ProtocolHandler&"
    ∷ add_type_alias
        "ns3::Callback< void, ns3::Ptr< ns3::NetDevice >, ns3::empty, ns3::empty, ns3::empty, ns3::empty, ns3::empty, ns3::empty, ns3::empty, ns3::empty >"
        "ns3::Node::DeviceAdditionListener"
    ∷ add_type_alias
        "ns3::Callback< void, ns3::Ptr< ns3::NetDevice >, ns3::empty, ns3::empty, ns3::empty, ns3::empty, ns3::empty, ns3::empty, ns3::empty, ns3::empty >*"
        "ns3::Node::DeviceAdditionListener*"
    ∷ add_type_alias
        "ns3::Callback< void, ns3::Ptr< ns3::NetDevice >, ns3::empty, ns3::empty, ns3::empty, ns3::empty, ns3::empty, ns3::empty, ns3::empty, ns3::empty >&"
        "ns3::Node::DeviceAdditionListener&"
    ∷ add_class "NormalRandomVariable"
        (import_from_module "ns.core" ∷ parent ("ns3::RandomVariableStream" ∷ []) ∷ [])
    ∷ add_class "ObjectFactoryChecker"
        (import_from_module "ns.core" ∷ parent ("ns3::AttributeChecker" ∷ []) ∷ [])
    ∷ add_class "ObjectFactoryValue"
        (import_from_module "ns.core" ∷ parent ("ns3::AttributeValue" ∷ []) ∷ [])
    ∷ add_class "OutputStreamWrapper" (
        import_from_module "ns.network"
        ∷ parent (
            "ns3::SimpleRefCount< ns3::OutputStreamWrapper, ns3::empty, ns3::DefaultDeleter<ns3::OutputStreamWrapper> >"
            ∷ [])
        ∷ [])
    ∷ add_class "Packet" (
        import_from_module "ns.network"
        ∷ parent (
            "ns3::SimpleRefCount< ns3::Packet, ns3::empty, ns3::DefaultDeleter<ns3::Packet> >" ∷ [])
        ∷ [])
    ∷ add_type_alias "void ( * ) ( ns3::Ptr< ns3::Packet const > )" "ns3::Packet::TracedCallback"
    ∷ add_type_alias "void ( * ) ( ns3::Ptr< ns3::Packet const > )*" "ns3::Packet::TracedCallback*"
    ∷ add_type_alias "void ( * ) ( ns3::Ptr< ns3::Packet const > )&" "ns3::Packet::TracedCallback&"
    ∷ add_type_alias "void ( * ) ( ns3::Ptr< ns3::Packet const >, ns3::Address const & )"
        "ns3::Packet::AddressTracedCallback"
    ∷ add_type_alias "void ( * ) ( ns3::Ptr< ns3::Packet const >, ns3::Address const & )*"
        "ns3::Packet::AddressTracedCallback*"
    ∷ add_type_alias "void ( * ) ( ns3::Ptr< ns3::Packet const >, ns3::Address const & )&"
        "ns3::Packet::AddressTracedCallback&"
    ∷ add_type_alias
        "void ( * ) ( ns3::Ptr< ns3::Packet const > const, ns3::Address const &, ns3::Address const & )"
        "ns3::Packet::TwoAddressTracedCallback"
    ∷ add_type_alias
        "void ( * ) ( ns3::Ptr< ns3::Packet const > const, ns3::Address const &, ns3::Address const & )*"
        "ns3::Packet::TwoAddressTracedCallback*"
    ∷ add_type_alias
        "void ( * ) ( ns3::Ptr< ns3::Packet const > const, ns3::Address const &, ns3::Address const & )&"
        "ns3::Packet::TwoAddressTracedCallback&"
    ∷ add_type_alias "void ( * ) ( ns3::Ptr< ns3::Packet const >, ns3::Mac48Address )"
        "ns3::Packet::Mac48AddressTracedCallback"
    ∷ add_type_alias "void ( * ) ( ns3::Ptr< ns3::Packet const >, ns3::Mac48Address )*"
        "ns3::Packet::Mac48AddressTracedCallback*"
    ∷ add_type_alias "void ( * ) ( ns3::Ptr< ns3::Packet const >, ns3::Mac48Address )&"
        "ns3::Packet::Mac48AddressTracedCallback&"
    ∷ add_type_alias "void ( * ) ( uint32_t, uint32_t )" "ns3::Packet::SizeTracedCallback"
    ∷ add_type_alias "void ( * ) ( uint32_t, uint32_t )*" "ns3::Packet::SizeTracedCallback*"
    ∷ add_type_alias "void ( * ) ( uint32_t, uint32_t )&" "ns3::Packet::SizeTracedCallback&"
    ∷ add_type_alias "void ( * ) ( ns3::Ptr< ns3::Packet const >, double )"
        "ns3::Packet::SinrTracedCallback"
    ∷ add_type_alias "void ( * ) ( ns3::Ptr< ns3::Packet const >, double )*"
        "ns3::Packet::SinrTracedCallback*"
    ∷ add_type_alias "void ( * ) ( ns3::Ptr< ns3::Packet const >, double )&"
        "ns3::Packet::SinrTracedCallback&"
    ∷ add_class "ParetoRandomVariable"
        (import_from_module "ns.core" ∷ parent ("ns3::RandomVariableStream" ∷ []) ∷ [])
    ∷ add_class "PointToPointChannel" (parent ("ns3::Channel" ∷ []) ∷ [])
    ∷ add_class "PointToPointNetDevice" (parent ("ns3::NetDevice" ∷ []) ∷ [])
    ∷ add_class "PointToPointRemoteChannel" (parent ("ns3::PointToPointChannel" ∷ []) ∷ [])
    ∷ add_class "Queue" (
        import_from_module "ns.network"
        ∷ template_parameters ("ns3::Packet" ∷ [])
        ∷ parent ("ns3::QueueBase" ∷ [])
        ∷ [])
    ∷ add_class "QueueSizeChecker"
        (import_from_module "ns.network" ∷ parent ("ns3::AttributeChecker" ∷ []) ∷ [])
    ∷ add_class "QueueSizeValue"
        (import_from_module "ns.network" ∷ parent ("ns3::AttributeValue" ∷ []) ∷ [])
    ∷ add_class "RateErrorModel"
        (import_from_module "ns.network" ∷ parent ("ns3::ErrorModel" ∷ []) ∷ [])
    ∷ add_enum "ErrorUnit" ("ERROR_UNIT_BIT" ∷ "ERROR_UNIT_BYTE" ∷ "ERROR_UNIT_PACKET" ∷ [])
        (outer_class "ns3::RateErrorModel" ∷ import_from_module "ns.network" ∷ [])
    ∷ add_class "ReceiveListErrorModel"
        (import_from_module "ns.network" ∷ parent ("ns3::ErrorModel" ∷ []) ∷ [])
    ∷ add_class "TimeValue"
        (import_from_module "ns.core" ∷ parent ("ns3::AttributeValue" ∷ []) ∷ [])
    ∷ add_class "TypeIdChecker"
        (import_from_module "ns.core" ∷ parent ("ns3::AttributeChecker" ∷ []) ∷ [])
    ∷ add_class "TypeIdValue"
        (import_from_module "ns.core" ∷ parent ("ns3::AttributeValue" ∷ []) ∷ [])
    ∷ add_class "UintegerValue"
        (import_from_module "ns.core" ∷ parent ("ns3::AttributeValue" ∷ []) ∷ [])
    ∷ add_class "AddressChecker"
        (import_from_module "ns.network" ∷ parent ("ns3::AttributeChecker" ∷ []) ∷ [])
    ∷ add_class "AddressValue"
        (import_from_module "ns.network" ∷ parent ("ns3::AttributeValue" ∷ []) ∷ [])
    ∷ add_class "BinaryErrorModel"
        (import_from_module "ns.network" ∷ parent ("ns3::ErrorModel" ∷ []) ∷ [])
    ∷ add_class "BurstErrorModel"
        (import_from_module "ns.network" ∷ parent ("ns3::ErrorModel" ∷ []) ∷ [])
    ∷ add_class "CallbackImpl" (
        import_from_module "ns.core"
        ∷ template_parameters (
            "ns3::ObjectBase *" ∷ "ns3::empty" ∷ "ns3::empty" ∷ "ns3::empty" ∷ "ns3::empty"
            ∷ "ns3::empty" ∷ "ns3::empty" ∷ "ns3::empty" ∷ "ns3::empty" ∷ "ns3::empty" ∷ [])
        ∷ parent ("ns3::CallbackImplBase" ∷ [])
        ∷ [])
    ∷ add_class "CallbackImpl" (
        import_from_module "ns.core"
        ∷ template_parameters (
            "void" ∷ "ns3::Ptr<const ns3::Packet>" ∷ "ns3::Ptr<ns3::NetDevice>"
            ∷ "ns3::Ptr<ns3::NetDevice>" ∷ "ns3::Time" ∷ "ns3::Time" ∷ "ns3::empty" ∷ "ns3::empty"
            ∷ "ns3::empty" ∷ "ns3::empty" ∷ [])
        ∷ parent ("ns3::CallbackImplBase" ∷ [])
        ∷ [])
    ∷ add_class "CallbackImpl" (
        import_from_module "ns.core"
        ∷ template_parameters (
            "void" ∷ "ns3::Ptr<const ns3::Packet>" ∷ "ns3::empty" ∷ "ns3::empty" ∷ "ns3::empty"
            ∷ "ns3::empty" ∷ "ns3::empty" ∷ "ns3::empty" ∷ "ns3::empty" ∷ "ns3::empty" ∷ [])
        ∷ parent ("ns3::CallbackImplBase" ∷ [])
        ∷ [])
    ∷ add_class "CallbackImpl" (
        import_from_module "ns.core"
        ∷ template_parameters (
            "void" ∷ "ns3::Ptr<ns3::NetDevice>" ∷ "ns3::Ptr<const ns3::Packet>" ∷ "unsigned short"
            ∷ "const ns3::Address &" ∷ "const ns3::Address &" ∷ "ns3::NetDevice::PacketType"
            ∷ "ns3::empty" ∷ "ns3::empty" ∷ "ns3::empty" ∷ [])
        ∷ parent ("ns3::CallbackImplBase" ∷ [])
        ∷ [])
    ∷ add_class "CallbackImpl" (
        import_from_module "ns.core"
        ∷ template_parameters (
            "void" ∷ "ns3::Ptr<ns3::NetDevice>" ∷ "ns3::empty" ∷ "ns3::empty" ∷ "ns3::empty"
            ∷ "ns3::empty" ∷ "ns3::empty" ∷ "ns3::empty" ∷ "ns3::empty" ∷ "ns3::empty" ∷ [])
        ∷ parent ("ns3::CallbackImplBase" ∷ [])
        ∷ [])
    ∷ add_class "CallbackImpl" (
        import_from_module "ns.core"
        ∷ template_parameters (
            "void" ∷ "ns3::empty" ∷ "ns3::empty" ∷ "ns3::empty" ∷ "ns3::empty" ∷ "ns3::empty"
            ∷ "ns3::empty" ∷ "ns3::empty" ∷ "ns3::empty" ∷ "ns3::empty" ∷ [])
        ∷ parent ("ns3::CallbackImplBase" ∷ [])
        ∷ [])
    ∷ add_class "CallbackImpl" (
        import_from_module "ns.core"
        ∷ template_parameters (
            "void" ∷ "unsigned int" ∷ "unsigned int" ∷ "ns3::empty" ∷ "ns3::empty" ∷ "ns3::empty"
            ∷ "ns3::empty" ∷ "ns3::empty" ∷ "ns3::empty" ∷ "ns3::empty" ∷ [])
        ∷ parent ("ns3::CallbackImplBase" ∷ [])
        ∷ [])
    ∷ add_container "std::map< std::string, ns3::LogComponent * >"
        ("std::string" ∷ "ns3::LogComponent *" ∷ []) "map"
    ∷ add_container "std::list< unsigned int >" ("unsigned int" ∷ []) "list"
    ∷ add_type_alias "void ( * ) ( std::ostream & )" "ns3::LogTimePrinter"
    ∷ add_type_alias "void ( * ) ( std::ostream & )*" "ns3::LogTimePrinter*"
    ∷ add_type_alias "void ( * ) ( std::ostream & )&" "ns3::LogTimePrinter&"
    ∷ add_type_alias "void ( * ) ( std::ostream & )" "ns3::LogNodePrinter"
    ∷ add_type_alias "void ( * ) ( std::ostream & )*" "ns3::LogNodePrinter*"
    ∷ add_type_alias "void ( * ) ( std::ostream & )&" "ns3::LogNodePrinter&"
    ∷ []
