-- ===== src/Bindings/Types/Objects.antt =====
-- `register_types` of bindings/modulegen__gcc_LP64.py, lines 171 to 309.
use cs621_network_programmin.Common.{List, [], ◌∷◌, true, false}
use cs621_network_programmin.Bindings.Syntax.{
  Command, import_from_module, outer_class, parent, template_parameters, allow_subclassing,
  automatic_type_narrowing, memory_policy, add_enum, add_class, add_type_alias,
  implicitly_converts_to,
}

abbrev pub types_through_ipv4_mask_checker : List Command
types_through_ipv4_mask_checker =
    add_class "TracedValue"
      (import_from_module "ns.core" ∷ template_parameters ("unsigned int" ∷ []) ∷ [])
    ∷ add_class "TypeId" (import_from_module "ns.core" ∷ [])
    ∷ add_enum "AttributeFlag" ("ATTR_GET" ∷ "ATTR_SET" ∷ "ATTR_CONSTRUCT" ∷ "ATTR_SGC" ∷ [])
        (outer_class "ns3::TypeId" ∷ import_from_module "ns.core" ∷ [])
    ∷ add_enum "SupportLevel" ("SUPPORTED" ∷ "DEPRECATED" ∷ "OBSOLETE" ∷ [])
        (outer_class "ns3::TypeId" ∷ import_from_module "ns.core" ∷ [])
    ∷ add_class "AttributeInformation"
        (import_from_module "ns.core" ∷ outer_class "ns3::TypeId" ∷ [])
    ∷ add_class "TraceSourceInformation"
        (import_from_module "ns.core" ∷ outer_class "ns3::TypeId" ∷ [])
    ∷ add_type_alias "uint32_t" "ns3::TypeId::hash_t"
    ∷ add_type_alias "uint32_t*" "ns3::TypeId::hash_t*"
    ∷ add_type_alias "uint32_t&" "ns3::TypeId::hash_t&"
    ∷ add_class "empty" (import_from_module "ns.core" ∷ [])
    ∷ add_class "int64x64_t" (import_from_module "ns.core" ∷ [])
    ∷ add_enum "impl_type" ("int128_impl" ∷ "cairo_impl" ∷ "ld_impl" ∷ [])
        (outer_class "ns3::int64x64_t" ∷ import_from_module "ns.core" ∷ [])
    ∷ add_class "Chunk" (import_from_module "ns.network" ∷ parent ("ns3::ObjectBase" ∷ []) ∷ [])
    ∷ add_class "Header" (import_from_module "ns.network" ∷ parent ("ns3::Chunk" ∷ []) ∷ [])
    ∷ add_class "Object" (
        import_from_module "ns.core"
        ∷ parent ("ns3::SimpleRefCount< ns3::Object, ns3::ObjectBase, ns3::ObjectDeleter >" ∷ [])
        ∷ [])
    ∷ add_class "AggregateIterator" (import_from_module "ns.core" ∷ outer_class "ns3::Object" ∷ [])
    ∷ add_class "PcapFileWrapper"
        (import_from_module "ns.network" ∷ parent ("ns3::Object" ∷ []) ∷ [])
    ∷ add_class "PppHeader" (parent ("ns3::Header" ∷ []) ∷ [])
    ∷ add_class "QueueBase" (import_from_module "ns.network" ∷ parent ("ns3::Object" ∷ []) ∷ [])
    ∷ add_class "RandomVariableStream"
        (import_from_module "ns.core" ∷ parent ("ns3::Object" ∷ []) ∷ [])
    ∷ add_class "SequentialRandomVariable"
        (import_from_module "ns.core" ∷ parent ("ns3::RandomVariableStream" ∷ []) ∷ [])
    ∷ add_class "SimpleRefCount" (
        automatic_type_narrowing true
        ∷ import_from_module "ns.core"
        ∷ template_parameters (
            "ns3::AttributeAccessor" ∷ "ns3::empty" ∷ "ns3::DefaultDeleter<ns3::AttributeAccessor>"
            ∷ [])
        ∷ parent ("ns3::empty" ∷ [])
        ∷ memory_policy "Ref" "Unref" "GetReferenceCount"
        ∷ [])
    ∷ add_class "SimpleRefCount" (
        automatic_type_narrowing true
        ∷ import_from_module "ns.core"
        ∷ template_parameters (
            "ns3::AttributeChecker" ∷ "ns3::empty" ∷ "ns3::DefaultDeleter<ns3::AttributeChecker>"
            ∷ [])
        ∷ parent ("ns3::empty" ∷ [])
        ∷ memory_policy "Ref" "Unref" "GetReferenceCount"
        ∷ [])
    ∷ add_class "SimpleRefCount" (
        automatic_type_narrowing true
        ∷ import_from_module "ns.core"
        ∷ template_parameters
            ("ns3::AttributeValue" ∷ "ns3::empty" ∷ "ns3::DefaultDeleter<ns3::AttributeValue>" ∷ [])
        ∷ parent ("ns3::empty" ∷ [])
        ∷ memory_policy "Ref" "Unref" "GetReferenceCount"
        ∷ [])
    ∷ add_class "SimpleRefCount" (
        automatic_type_narrowing true
        ∷ import_from_module "ns.core"
        ∷ template_parameters (
            "ns3::CallbackImplBase" ∷ "ns3::empty" ∷ "ns3::DefaultDeleter<ns3::CallbackImplBase>"
            ∷ [])
        ∷ parent ("ns3::empty" ∷ [])
        ∷ memory_policy "Ref" "Unref" "GetReferenceCount"
        ∷ [])
    ∷ add_class "SimpleRefCount" (
        automatic_type_narrowing true
        ∷ import_from_module "ns.core"
        ∷ template_parameters
            ("ns3::EventImpl" ∷ "ns3::empty" ∷ "ns3::DefaultDeleter<ns3::EventImpl>" ∷ [])
        ∷ parent ("ns3::empty" ∷ [])
        ∷ memory_policy "Ref" "Unref" "GetReferenceCount"
        ∷ [])
    ∷ add_class "SimpleRefCount" (
        automatic_type_narrowing true
        ∷ import_from_module "ns.core"
        ∷ template_parameters (
            "ns3::Hash::Implementation" ∷ "ns3::empty"
            ∷ "ns3::DefaultDeleter<ns3::Hash::Implementation>" ∷ [])
        ∷ parent ("ns3::empty" ∷ [])
        ∷ memory_policy "Ref" "Unref" "GetReferenceCount"
        ∷ [])
    ∷ add_class "SimpleRefCount" (
        automatic_type_narrowing true
        ∷ import_from_module "ns.core"
        ∷ template_parameters
            ("ns3::NixVector" ∷ "ns3::empty" ∷ "ns3::DefaultDeleter<ns3::NixVector>" ∷ [])
        ∷ parent ("ns3::empty" ∷ [])
        ∷ memory_policy "Ref" "Unref" "GetReferenceCount"
        ∷ [])
    ∷ add_class "SimpleRefCount" (
        automatic_type_narrowing true
        ∷ import_from_module "ns.core"
        ∷ template_parameters (
            "ns3::OutputStreamWrapper" ∷ "ns3::empty"
            ∷ "ns3::DefaultDeleter<ns3::OutputStreamWrapper>" ∷ [])
        ∷ parent ("ns3::empty" ∷ [])
        ∷ memory_policy "Ref" "Unref" "GetReferenceCount"
        ∷ [])
    ∷ add_class "SimpleRefCount" (
        automatic_type_narrowing true
        ∷ import_from_module "ns.core"
        ∷ template_parameters
            ("ns3::Packet" ∷ "ns3::empty" ∷ "ns3::DefaultDeleter<ns3::Packet>" ∷ [])
        ∷ parent ("ns3::empty" ∷ [])
        ∷ memory_policy "Ref" "Unref" "GetReferenceCount"
        ∷ [])
    ∷ add_class "SimpleRefCount" (
        automatic_type_narrowing true
        ∷ import_from_module "ns.core"
        ∷ template_parameters (
            "ns3::TraceSourceAccessor" ∷ "ns3::empty"
            ∷ "ns3::DefaultDeleter<ns3::TraceSourceAccessor>" ∷ [])
        ∷ parent ("ns3::empty" ∷ [])
        ∷ memory_policy "Ref" "Unref" "GetReferenceCount"
        ∷ [])
    ∷ add_class "Time" (import_from_module "ns.core" ∷ [])
    ∷ add_enum "Unit"
        ("Y" ∷ "D" ∷ "H" ∷ "MIN" ∷ "S" ∷ "MS" ∷ "US" ∷ "NS" ∷ "PS" ∷ "FS" ∷ "LAST" ∷ [])
        (outer_class "ns3::Time" ∷ import_from_module "ns.core" ∷ [])
    ∷ add_type_alias "void ( * ) ( ns3::Time )" "ns3::Time::TracedCallback"
    ∷ add_type_alias "void ( * ) ( ns3::Time )*" "ns3::Time::TracedCallback*"
    ∷ add_type_alias "void ( * ) ( ns3::Time )&" "ns3::Time::TracedCallback&"
    ∷ implicitly_converts_to "ns3::Time" "ns3::int64x64_t"
    ∷ add_class "TraceSourceAccessor" (
        import_from_module "ns.core"
        ∷ parent (
            "ns3::SimpleRefCount< ns3::TraceSourceAccessor, ns3::empty, ns3::DefaultDeleter<ns3::TraceSourceAccessor> >"
            ∷ [])
        ∷ [])
    ∷ add_class "Trailer" (import_from_module "ns.network" ∷ parent ("ns3::Chunk" ∷ []) ∷ [])
    ∷ add_class "TriangularRandomVariable"
        (import_from_module "ns.core" ∷ parent ("ns3::RandomVariableStream" ∷ []) ∷ [])
    ∷ add_class "UniformRandomVariable"
        (import_from_module "ns.core" ∷ parent ("ns3::RandomVariableStream" ∷ []) ∷ [])
    ∷ add_class "WeibullRandomVariable"
        (import_from_module "ns.core" ∷ parent ("ns3::RandomVariableStream" ∷ []) ∷ [])
    ∷ add_class "ZetaRandomVariable"
        (import_from_module "ns.core" ∷ parent ("ns3::RandomVariableStream" ∷ []) ∷ [])
    ∷ add_class "ZipfRandomVariable"
        (import_from_module "ns.core" ∷ parent ("ns3::RandomVariableStream" ∷ []) ∷ [])
    ∷ add_class "AttributeAccessor" (
        import_from_module "ns.core"
        ∷ parent (
            "ns3::SimpleRefCount< ns3::AttributeAccessor, ns3::empty, ns3::DefaultDeleter<ns3::AttributeAccessor> >"
            ∷ [])
        ∷ [])
    ∷ add_class "AttributeChecker" (
        allow_subclassing false
        ∷ automatic_type_narrowing true
        ∷ import_from_module "ns.core"
        ∷ parent (
            "ns3::SimpleRefCount< ns3::AttributeChecker, ns3::empty, ns3::DefaultDeleter<ns3::AttributeChecker> >"
            ∷ [])
        ∷ [])
    ∷ add_class "AttributeValue" (
        allow_subclassing false
        ∷ automatic_type_narrowing true
        ∷ import_from_module "ns.core"
        ∷ parent (
            "ns3::SimpleRefCount< ns3::AttributeValue, ns3::empty, ns3::DefaultDeleter<ns3::AttributeValue> >"
            ∷ [])
        ∷ [])
    ∷ add_class "BooleanChecker"
        (import_from_module "ns.core" ∷ parent ("ns3::AttributeChecker" ∷ []) ∷ [])
    ∷ add_class "BooleanValue"
        (import_from_module "ns.core" ∷ parent ("ns3::AttributeValue" ∷ []) ∷ [])
    ∷ add_class "CallbackChecker"
        (import_from_module "ns.core" ∷ parent ("ns3::AttributeChecker" ∷ []) ∷ [])
    ∷ add_class "CallbackImplBase" (
        import_from_module "ns.core"
        ∷ parent (
            "ns3::SimpleRefCount< ns3::CallbackImplBase, ns3::empty, ns3::DefaultDeleter<ns3::CallbackImplBase> >"
            ∷ [])
        ∷ [])
    ∷ add_class "CallbackValue"
        (import_from_module "ns.core" ∷ parent ("ns3::AttributeValue" ∷ []) ∷ [])
    ∷ add_class "Channel" (import_from_module "ns.network" ∷ parent ("ns3::Object" ∷ []) ∷ [])
    ∷ add_class "ConstantRandomVariable"
        (import_from_module "ns.core" ∷ parent ("ns3::RandomVariableStream" ∷ []) ∷ [])
    ∷ add_class "DataRateChecker"
        (import_from_module "ns.network" ∷ parent ("ns3::AttributeChecker" ∷ []) ∷ [])
    ∷ add_class "DataRateValue"
        (import_from_module "ns.network" ∷ parent ("ns3::AttributeValue" ∷ []) ∷ [])
    ∷ add_class "DeterministicRandomVariable"
        (import_from_module "ns.core" ∷ parent ("ns3::RandomVariableStream" ∷ []) ∷ [])
    ∷ add_class "DoubleValue"
        (import_from_module "ns.core" ∷ parent ("ns3::AttributeValue" ∷ []) ∷ [])
    ∷ add_class "EmpiricalRandomVariable"
        (import_from_module "ns.core" ∷ parent ("ns3::RandomVariableStream" ∷ []) ∷ [])
    ∷ add_class "EmptyAttributeAccessor"
        (import_from_module "ns.core" ∷ parent ("ns3::AttributeAccessor" ∷ []) ∷ [])
    ∷ add_class "EmptyAttributeChecker"
        (import_from_module "ns.core" ∷ parent ("ns3::AttributeChecker" ∷ []) ∷ [])
    ∷ add_class "EmptyAttributeValue"
        (import_from_module "ns.core" ∷ parent ("ns3::AttributeValue" ∷ []) ∷ [])
    ∷ add_class "EnumChecker"
        (import_from_module "ns.core" ∷ parent ("ns3::AttributeChecker" ∷ []) ∷ [])
    ∷ add_class "EnumValue"
        (import_from_module "ns.core" ∷ parent ("ns3::AttributeValue" ∷ []) ∷ [])
    ∷ add_class "ErlangRandomVariable"
        (import_from_module "ns.core" ∷ parent ("ns3::RandomVariableStream" ∷ []) ∷ [])
    ∷ add_class "ErrorModel" (import_from_module "ns.network" ∷ parent ("ns3::Object" ∷ []) ∷ [])
    ∷ add_class "EventImpl" (
        import_from_module "ns.core"
        ∷ parent (
            "ns3::SimpleRefCount< ns3::EventImpl, ns3::empty, ns3::DefaultDeleter<ns3::EventImpl> >"
            ∷ [])
        ∷ [])
    ∷ add_class "ExponentialRandomVariable"
        (import_from_module "ns.core" ∷ parent ("ns3::RandomVariableStream" ∷ []) ∷ [])
    ∷ add_class "GammaRandomVariable"
        (import_from_module "ns.core" ∷ parent ("ns3::RandomVariableStream" ∷ []) ∷ [])
    ∷ add_class "IntegerValue"
        (import_from_module "ns.core" ∷ parent ("ns3::AttributeValue" ∷ []) ∷ [])
    ∷ add_class "Ipv4AddressChecker"
        (import_from_module "ns.network" ∷ parent ("ns3::AttributeChecker" ∷ []) ∷ [])
    ∷ add_class "Ipv4AddressValue"
        (import_from_module "ns.network" ∷ parent ("ns3::AttributeValue" ∷ []) ∷ [])
    ∷ add_class "Ipv4MaskChecker"
        (import_from_module "ns.network" ∷ parent ("ns3::AttributeChecker" ∷ []) ∷ [])
    ∷ []
