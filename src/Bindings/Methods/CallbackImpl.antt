-- ===== src/Bindings/Methods/CallbackImpl.antt =====
-- The `register_…_methods` functions of bindings/modulegen__gcc_LP64.py, lines 6728 to 6875.
use cs621_network_programmin.Common.{List, [], ◌∷◌}
use cs621_network_programmin.Bindings.Syntax.{
  Member, custom_name, is_const, is_virtual, is_pure_virtual, is_static, param, add_constructor,
  add_method,
}

abbrev pub register_ns3_callback_impl_void_methods : List Member
register_ns3_callback_impl_void_methods =
    add_constructor [] []
    ∷ add_constructor
        (param
            "ns3::CallbackImpl< void, ns3::empty, ns3::empty, ns3::empty, ns3::empty, ns3::empty, ns3::empty, ns3::empty, ns3::empty, ns3::empty > const &"
            "arg0"
          ∷ [])
        []
    ∷ add_method "DoGetTypeid" "std::string" [] (is_static ∷ [])
    ∷ add_method "GetTypeid" "std::string" [] (is_const ∷ is_virtual ∷ [])
    ∷ add_method "operator()" "void" [] (is_pure_virtual ∷ is_virtual ∷ custom_name "__call__" ∷ [])
    ∷ []

abbrev pub register_ns3_callback_impl_void_unsigned_int_unsigned_int_methods : List Member
register_ns3_callback_impl_void_unsigned_int_unsigned_int_methods =
    add_constructor [] []
    ∷ add_constructor
        (param
            "ns3::CallbackImpl< void, unsigned int, unsigned int, ns3::empty, ns3::empty, ns3::empty, ns3::empty, ns3::empty, ns3::empty, ns3::empty > const &"
            "arg0"
          ∷ [])
        []
    ∷ add_method "DoGetTypeid" "std::string" [] (is_static ∷ [])
    ∷ add_method "GetTypeid" "std::string" [] (is_const ∷ is_virtual ∷ [])
    ∷ add_method "operator()" "void"
        (param "unsigned int" "arg0" ∷ param "unsigned int" "arg1" ∷ [])
        (is_pure_virtual ∷ is_virtual ∷ custom_name "__call__" ∷ [])
    ∷ []

abbrev pub register_ns3_hash_implementation_methods : List Member
register_ns3_hash_implementation_methods =
    add_constructor (param "ns3::Hash::Implementation const &" "arg0" ∷ []) []
    ∷ add_constructor [] []
    ∷ add_method "GetHash32" "uint32_t"
        (param "char const *" "buffer" ∷ param "std::size_t const" "size" ∷ [])
        (is_pure_virtual ∷ is_virtual ∷ [])
    ∷ add_method "GetHash64" "uint64_t"
        (param "char const *" "buffer" ∷ param "std::size_t const" "size" ∷ []) (is_virtual ∷ [])
    ∷ add_method "clear" "void" [] (is_pure_virtual ∷ is_virtual ∷ [])
    ∷ []

abbrev pub register_ns3_hash_function_fnv1a_methods : List Member
register_ns3_hash_function_fnv1a_methods =
    add_constructor (param "ns3::Hash::Function::Fnv1a const &" "arg0" ∷ []) []
    ∷ add_constructor [] []
    ∷ add_method "GetHash32" "uint32_t"
        (param "char const *" "buffer" ∷ param "size_t const" "size" ∷ []) (is_virtual ∷ [])
    ∷ add_method "GetHash64" "uint64_t"
        (param "char const *" "buffer" ∷ param "size_t const" "size" ∷ []) (is_virtual ∷ [])
    ∷ add_method "clear" "void" [] (is_virtual ∷ [])
    ∷ []

abbrev pub register_ns3_hash_function_hash32_methods : List Member
register_ns3_hash_function_hash32_methods =
    add_constructor (param "ns3::Hash::Function::Hash32 const &" "arg0" ∷ []) []
    ∷ add_constructor (param "ns3::Hash::Hash32Function_ptr" "hp" ∷ []) []
    ∷ add_method "GetHash32" "uint32_t"
        (param "char const *" "buffer" ∷ param "std::size_t const" "size" ∷ []) (is_virtual ∷ [])
    ∷ add_method "clear" "void" [] (is_virtual ∷ [])
    ∷ []

abbrev pub register_ns3_hash_function_hash64_methods : List Member
register_ns3_hash_function_hash64_methods =
    add_constructor (param "ns3::Hash::Function::Hash64 const &" "arg0" ∷ []) []
    ∷ add_constructor (param "ns3::Hash::Hash64Function_ptr" "hp" ∷ []) []
    ∷ add_method "GetHash32" "uint32_t"
        (param "char const *" "buffer" ∷ param "std::size_t const" "size" ∷ []) (is_virtual ∷ [])
    ∷ add_method "GetHash64" "uint64_t"
        (param "char const *" "buffer" ∷ param "std::size_t const" "size" ∷ []) (is_virtual ∷ [])
    ∷ add_method "clear" "void" [] (is_virtual ∷ [])
    ∷ []

abbrev pub register_ns3_hash_function_murmur3_methods : List Member
register_ns3_hash_function_murmur3_methods =
    add_constructor (param "ns3::Hash::Function::Murmur3 const &" "arg0" ∷ []) []
    ∷ add_constructor [] []
    ∷ add_method "GetHash32" "uint32_t"
        (param "char const *" "buffer" ∷ param "std::size_t const" "size" ∷ []) (is_virtual ∷ [])
    ∷ add_method "GetHash64" "uint64_t"
        (param "char const *" "buffer" ∷ param "std::size_t const" "size" ∷ []) (is_virtual ∷ [])
    ∷ add_method "clear" "void" [] (is_virtual ∷ [])
    ∷ []
