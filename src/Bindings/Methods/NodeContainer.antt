-- ===== src/Bindings/Methods/NodeContainer.antt =====
-- The `register_…_methods` functions of bindings/modulegen__gcc_LP64.py, lines 2184 to 2562.
use cs621_network_programmin.Common.{List, [], ◌∷◌, false}
use cs621_network_programmin.Bindings.Syntax.{
  Member, visibility, is_const, is_virtual, is_pure_virtual, is_static, param, add_constructor,
  add_method, add_instance_attribute, add_output_stream_operator,
}

abbrev pub register_ns3_node_container_methods : List Member
register_ns3_node_container_methods =
    add_constructor (param "ns3::NodeContainer const &" "arg0" ∷ []) []
    ∷ add_constructor [] []
    ∷ add_constructor (param "ns3::Ptr< ns3::Node >" "node" ∷ []) []
    ∷ add_constructor (param "std::string" "nodeName" ∷ []) []
    ∷ add_constructor
        (param "ns3::NodeContainer const &" "a" ∷ param "ns3::NodeContainer const &" "b" ∷ []) []
    ∷ add_constructor
        (param "ns3::NodeContainer const &" "a"
          ∷ param "ns3::NodeContainer const &" "b"
          ∷ param "ns3::NodeContainer const &" "c"
          ∷ [])
        []
    ∷ add_constructor
        (param "ns3::NodeContainer const &" "a"
          ∷ param "ns3::NodeContainer const &" "b"
          ∷ param "ns3::NodeContainer const &" "c"
          ∷ param "ns3::NodeContainer const &" "d"
          ∷ [])
        []
    ∷ add_constructor
        (param "ns3::NodeContainer const &" "a"
          ∷ param "ns3::NodeContainer const &" "b"
          ∷ param "ns3::NodeContainer const &" "c"
          ∷ param "ns3::NodeContainer const &" "d"
          ∷ param "ns3::NodeContainer const &" "e"
          ∷ [])
        []
    ∷ add_method "Add" "void" (param "ns3::NodeContainer" "other" ∷ []) []
    ∷ add_method "Add" "void" (param "ns3::Ptr< ns3::Node >" "node" ∷ []) []
    ∷ add_method "Add" "void" (param "std::string" "nodeName" ∷ []) []
    ∷ add_method "Begin" "ns3::NodeContainer::Iterator" [] (is_const ∷ [])
    ∷ add_method "Contains" "bool" (param "uint32_t" "id" ∷ []) (is_const ∷ [])
    ∷ add_method "Create" "void" (param "uint32_t" "n" ∷ []) []
    ∷ add_method "Create" "void" (param "uint32_t" "n" ∷ param "uint32_t" "systemId" ∷ []) []
    ∷ add_method "End" "ns3::NodeContainer::Iterator" [] (is_const ∷ [])
    ∷ add_method "Get" "ns3::Ptr< ns3::Node >" (param "uint32_t" "i" ∷ []) (is_const ∷ [])
    ∷ add_method "GetGlobal" "ns3::NodeContainer" [] (is_static ∷ [])
    ∷ add_method "GetN" "uint32_t" [] (is_const ∷ [])
    ∷ []

abbrev pub register_ns3_object_base_methods : List Member
register_ns3_object_base_methods =
    add_constructor [] []
    ∷ add_constructor (param "ns3::ObjectBase const &" "arg0" ∷ []) []
    ∷ add_method "GetAttribute" "void"
        (param "std::string" "name" ∷ param "ns3::AttributeValue &" "value" ∷ []) (is_const ∷ [])
    ∷ add_method "GetAttributeFailSafe" "bool"
        (param "std::string" "name" ∷ param "ns3::AttributeValue &" "value" ∷ []) (is_const ∷ [])
    ∷ add_method "GetInstanceTypeId" "ns3::TypeId" [] (is_pure_virtual ∷ is_const ∷ is_virtual ∷ [])
    ∷ add_method "GetTypeId" "ns3::TypeId" [] (is_static ∷ [])
    ∷ add_method "SetAttribute" "void"
        (param "std::string" "name" ∷ param "ns3::AttributeValue const &" "value" ∷ []) []
    ∷ add_method "SetAttributeFailSafe" "bool"
        (param "std::string" "name" ∷ param "ns3::AttributeValue const &" "value" ∷ []) []
    ∷ add_method "TraceConnect" "bool"
        (param "std::string" "name"
          ∷ param "std::string" "context"
          ∷ param "ns3::CallbackBase const &" "cb"
          ∷ [])
        []
    ∷ add_method "TraceConnectWithoutContext" "bool"
        (param "std::string" "name" ∷ param "ns3::CallbackBase const &" "cb" ∷ []) []
    ∷ add_method "TraceDisconnect" "bool"
        (param "std::string" "name"
          ∷ param "std::string" "context"
          ∷ param "ns3::CallbackBase const &" "cb"
          ∷ [])
        []
    ∷ add_method "TraceDisconnectWithoutContext" "bool"
        (param "std::string" "name" ∷ param "ns3::CallbackBase const &" "cb" ∷ []) []
    ∷ add_method "ConstructSelf" "void"
        (param "ns3::AttributeConstructionList const &" "attributes" ∷ [])
        (visibility "protected" ∷ [])
    ∷ add_method "NotifyConstructionCompleted" "void" [] (visibility "protected" ∷ is_virtual ∷ [])
    ∷ []

abbrev pub register_ns3_object_deleter_methods : List Member
register_ns3_object_deleter_methods =
    add_constructor [] []
    ∷ add_constructor (param "ns3::ObjectDeleter const &" "arg0" ∷ []) []
    ∷ add_method "Delete" "void" (param "ns3::Object *" "object" ∷ []) (is_static ∷ [])
    ∷ []

abbrev pub register_ns3_object_factory_methods : List Member
register_ns3_object_factory_methods =
    add_output_stream_operator
    ∷ add_constructor (param "ns3::ObjectFactory const &" "arg0" ∷ []) []
    ∷ add_constructor [] []
    ∷ add_constructor (param "std::string" "typeId" ∷ []) []
    ∷ add_method "Create" "ns3::Ptr< ns3::Object >" [] (is_const ∷ [])
    ∷ add_method "GetTypeId" "ns3::TypeId" [] (is_const ∷ [])
    ∷ add_method "Set" "void"
        (param "std::string" "name" ∷ param "ns3::AttributeValue const &" "value" ∷ []) []
    ∷ add_method "SetTypeId" "void" (param "ns3::TypeId" "tid" ∷ []) []
    ∷ add_method "SetTypeId" "void" (param "char const *" "tid" ∷ []) []
    ∷ add_method "SetTypeId" "void" (param "std::string" "tid" ∷ []) []
    ∷ []

abbrev pub register_ns3_packet_metadata_methods : List Member
register_ns3_packet_metadata_methods =
    add_constructor (param "uint64_t" "uid" ∷ param "uint32_t" "size" ∷ []) []
    ∷ add_constructor (param "ns3::PacketMetadata const &" "o" ∷ []) []
    ∷ add_method "AddAtEnd" "void" (param "ns3::PacketMetadata const &" "o" ∷ []) []
    ∷ add_method "AddHeader" "void"
        (param "ns3::Header const &" "header" ∷ param "uint32_t" "size" ∷ []) []
    ∷ add_method "AddPaddingAtEnd" "void" (param "uint32_t" "end" ∷ []) []
    ∷ add_method "AddTrailer" "void"
        (param "ns3::Trailer const &" "trailer" ∷ param "uint32_t" "size" ∷ []) []
    ∷ add_method "BeginItem" "ns3::PacketMetadata::ItemIterator" (param "ns3::Buffer" "buffer" ∷ [])
        (is_const ∷ [])
    ∷ add_method "CreateFragment" "ns3::PacketMetadata"
        (param "uint32_t" "start" ∷ param "uint32_t" "end" ∷ []) (is_const ∷ [])
    ∷ add_method "Deserialize" "uint32_t"
        (param "uint8_t const *" "buffer" ∷ param "uint32_t" "size" ∷ []) []
    ∷ add_method "Enable" "void" [] (is_static ∷ [])
    ∷ add_method "EnableChecking" "void" [] (is_static ∷ [])
    ∷ add_method "GetSerializedSize" "uint32_t" [] (is_const ∷ [])
    ∷ add_method "GetUid" "uint64_t" [] (is_const ∷ [])
    ∷ add_method "RemoveAtEnd" "void" (param "uint32_t" "end" ∷ []) []
    ∷ add_method "RemoveAtStart" "void" (param "uint32_t" "start" ∷ []) []
    ∷ add_method "RemoveHeader" "void"
        (param "ns3::Header const &" "header" ∷ param "uint32_t" "size" ∷ []) []
    ∷ add_method "RemoveTrailer" "void"
        (param "ns3::Trailer const &" "trailer" ∷ param "uint32_t" "size" ∷ []) []
    ∷ add_method "Serialize" "uint32_t"
        (param "uint8_t *" "buffer" ∷ param "uint32_t" "maxSize" ∷ []) (is_const ∷ [])
    ∷ []

abbrev pub register_ns3_packet_metadata_item_methods : List Member
register_ns3_packet_metadata_item_methods =
    add_constructor [] []
    ∷ add_constructor (param "ns3::PacketMetadata::Item const &" "arg0" ∷ []) []
    ∷ add_instance_attribute "current" "ns3::Buffer::Iterator" false
    ∷ add_instance_attribute "currentSize" "uint32_t" false
    ∷ add_instance_attribute "currentTrimedFromEnd" "uint32_t" false
    ∷ add_instance_attribute "currentTrimedFromStart" "uint32_t" false
    ∷ add_instance_attribute "isFragment" "bool" false
    ∷ add_instance_attribute "tid" "ns3::TypeId" false
    ∷ add_instance_attribute "type" "ns3::PacketMetadata::Item::ItemType" false
    ∷ []

abbrev pub register_ns3_packet_metadata_item_iterator_methods : List Member
register_ns3_packet_metadata_item_iterator_methods =
    add_constructor (param "ns3::PacketMetadata::ItemIterator const &" "arg0" ∷ []) []
    ∷ add_constructor
        (param "ns3::PacketMetadata const *" "metadata" ∷ param "ns3::Buffer" "buffer" ∷ []) []
    ∷ add_method "HasNext" "bool" [] (is_const ∷ [])
    ∷ add_method "Next" "ns3::PacketMetadata::Item" [] []
    ∷ []

abbrev pub register_ns3_packet_tag_iterator_methods : List Member
register_ns3_packet_tag_iterator_methods =
    add_constructor (param "ns3::PacketTagIterator const &" "arg0" ∷ []) []
    ∷ add_method "HasNext" "bool" [] (is_const ∷ [])
    ∷ add_method "Next" "ns3::PacketTagIterator::Item" [] []
    ∷ []

abbrev pub register_ns3_packet_tag_iterator_item_methods : List Member
register_ns3_packet_tag_iterator_item_methods =
    add_constructor (param "ns3::PacketTagIterator::Item const &" "arg0" ∷ []) []
    ∷ add_method "GetTag" "void" (param "ns3::Tag &" "tag" ∷ []) (is_const ∷ [])
    ∷ add_method "GetTypeId" "ns3::TypeId" [] (is_const ∷ [])
    ∷ []

abbrev pub register_ns3_packet_tag_list_methods : List Member
register_ns3_packet_tag_list_methods =
    add_constructor [] []
    ∷ add_constructor (param "ns3::PacketTagList const &" "o" ∷ []) []
    ∷ add_method "Add" "void" (param "ns3::Tag const &" "tag" ∷ []) (is_const ∷ [])
    ∷ add_method "Head" "ns3::PacketTagList::TagData const *" [] (is_const ∷ [])
    ∷ add_method "Peek" "bool" (param "ns3::Tag &" "tag" ∷ []) (is_const ∷ [])
    ∷ add_method "Remove" "bool" (param "ns3::Tag &" "tag" ∷ []) []
    ∷ add_method "RemoveAll" "void" [] []
    ∷ add_method "Replace" "bool" (param "ns3::Tag &" "tag" ∷ []) []
    ∷ []

abbrev pub register_ns3_packet_tag_list_tag_data_methods : List Member
register_ns3_packet_tag_list_tag_data_methods =
    add_constructor [] []
    ∷ add_constructor (param "ns3::PacketTagList::TagData const &" "arg0" ∷ []) []
    ∷ add_instance_attribute "count" "uint32_t" false
    ∷ add_instance_attribute "data" "uint8_t [ 1 ]" false
    ∷ add_instance_attribute "next" "ns3::PacketTagList::TagData *" false
    ∷ add_instance_attribute "size" "uint32_t" false
    ∷ add_instance_attribute "tid" "ns3::TypeId" false
    ∷ []

abbrev pub register_ns3_parameter_logger_methods : List Member
register_ns3_parameter_logger_methods =
    add_constructor (param "ns3::ParameterLogger const &" "arg0" ∷ []) []
    ∷ add_constructor (param "std::ostream &" "os" ∷ []) []
    ∷ []
