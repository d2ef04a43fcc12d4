-- ===== src/Bindings/Concrete.antt =====
-- Which pure virtual methods each registered class leaves without an implementation, read off the
-- two halves of bindings/modulegen__gcc_LP64.py: the parents from `register_types`, the methods
-- from `register_methods`.
use cs621_network_programmin.Common.{
  String, ◌≡◌, refl, Bool, true, false, not, ◌&&◌, ◌||◌, List, [], ◌∷◌, ◌++◌, str_eq, str_eq_iff,
  contains, all, if◌then◌else◌, arith, Bool-cases, inl, inr, &&-parts,
}
use cs621_network_programmin.Bindings.Syntax.{
  Keyword, import_from_module, parent, is_const, is_virtual, is_pure_virtual, Command, add_class,
  Param, param, param_with, Member, add_method,
}
use cs621_network_programmin.Bindings.Pybindgen.{full_name}
use cs621_network_programmin.Bindings.Types.{
  types_through_time_with_unit, types_through_ipv4_mask_checker, types_through_log_node_printer,
}
use cs621_network_programmin.Bindings.Methods.Table.{method_table}

abbrev parents : List Keyword → List String
parents [] = []
parents (parent keys ∷ rest) = keys ++ parents rest
parents (keyword ∷ rest) = parents rest

-- A class with no `import_from_module` is defined by the module itself.
abbrev is_own : List Keyword → Bool
is_own [] = true
is_own (import_from_module name ∷ rest) = false
is_own (keyword ∷ rest) = is_own rest

abbrev marked_const : List Keyword → Bool
marked_const [] = false
marked_const (is_const ∷ rest) = true
marked_const (keyword ∷ rest) = marked_const rest

abbrev marked_virtual : List Keyword → Bool
marked_virtual [] = false
marked_virtual (is_virtual ∷ rest) = true
marked_virtual (keyword ∷ rest) = marked_virtual rest

abbrev marked_pure : List Keyword → Bool
marked_pure [] = false
marked_pure (is_pure_virtual ∷ rest) = true
marked_pure (keyword ∷ rest) = marked_pure rest

abbrev param_type : Param → String
param_type (param type name) = type
param_type (param_with type name keywords) = type

abbrev same_types : List Param → List Param → Bool
same_types [] [] = true
same_types (p ∷ ps) (q ∷ qs) = str_eq (param_type p) (param_type q) && same_types ps qs
same_types ps qs = false

abbrev same_flag : Bool → Bool → Bool
same_flag true b = b
same_flag false b = not b

-- C++'s rule: a virtual method of the same name, result, parameter types and `const` overrides.
unfoldable pub overrides : Member → Member → Bool
overrides (add_method name result ps kws) (add_method name' result' ps' kws') =
    marked_virtual kws
    && (str_eq name name'
        && (str_eq result result'
            && (same_types ps ps' && same_flag (marked_const kws) (marked_const kws'))))
overrides member member' = false

unfoldable pub is_pure : Member → Bool
is_pure (add_method name result ps kws) = marked_pure kws
is_pure member = false

abbrev any_overrides : List Member → Member → Bool
any_overrides [] m = false
any_overrides (o ∷ os) m = overrides o m || any_overrides os m

-- The inherited pure methods that a class does not override, and its own pure methods.
unfoldable pub left_pure : List Member → List Member → List Member
unfolding overrides
left_pure own [] = []
left_pure own (m ∷ inherited) =
    let rest = left_pure own inherited in if any_overrides own m then rest else m ∷ rest

unfoldable pub own_pure : List Member → List Member
unfolding is_pure
own_pure [] = []
own_pure (m ∷ ms) = let rest = own_pure ms in if is_pure m then m ∷ rest else rest

abbrev find : String → List (String × List Member) → List Member
find key [] = []
find key ((k, ms) ∷ rest) = if str_eq k key then ms else find key rest

abbrev find_all : List String → List (String × List Member) → List Member
find_all [] table = []
find_all (k ∷ ks) table = find k table ++ find_all ks table

-- The pure methods that are left at each class, computed from the parents down.
unfoldable pub pending :
    String → List Command → List (String × List Member) → List (String × List Member)
unfolding full_name left_pure own_pure
pending ns [] known = known
pending ns (add_class name kws ∷ cs) known =
    let key = full_name ns name kws in
    let own = find key method_table in
    pending ns cs ((key, left_pure own (find_all (parents kws) known) ++ own_pure own) ∷ known)
pending ns (c ∷ cs) known = pending ns cs known

-- The classes that the module itself defines.
unfoldable pub own_classes : String → List Command → List String
unfolding full_name
own_classes ns [] = []
own_classes ns (add_class name kws ∷ cs) =
    let rest = own_classes ns cs in if is_own kws then full_name ns name kws ∷ rest else rest
own_classes ns (c ∷ cs) = own_classes ns cs

abbrev commands : List Command
commands =
    types_through_time_with_unit
    ++ (types_through_ipv4_mask_checker ++ types_through_log_node_printer)

abbrev pub own_keys : List String
own_keys = own_classes "ns3" commands

abbrev pub pending_of : String → List Member
pending_of key = find key (pending "ns3" commands [])

abbrev is_empty : List Member → Bool
is_empty [] = true
is_empty (m ∷ ms) = false

own_checked : all (λ key. is_empty (pending_of key)) own_keys ≡ true
unfolding pending own_classes
own_checked = refl

empty_of_test : (ms : List Member) → is_empty ms ≡ true → ms ≡ []
empty_of_test [] h = refl
empty_of_test (m ∷ ms) h = ground arith

all-contains :
    (p : String → Bool) (keys : List String) (key : String)
    → all p keys ≡ true
    → contains keys key ≡ true
    → p key ≡ true
unfolding contains
all-contains p [] key h c = ground arith
all-contains p (k ∷ keys) key h c = elim (Bool-cases (str_eq k key)) [
  | inl same ↦ rw ((str_eq_iff k key).0 same) at (&&-parts (p k) (all p keys) h).0
  | inr other ↦ all-contains p keys key (&&-parts (p k) (all p keys) h).1 (ground arith)
]

-- Every class that the module itself defines is concrete: no pure virtual method of any class above
-- it, along the registered parents, is left without an override of the same signature.
pub own-IsConcrete : (key : String) → contains own_keys key ≡ true → pending_of key ≡ []
own-IsConcrete key h =
    empty_of_test _ (all-contains (λ k. is_empty (pending_of k)) own_keys key own_checked h)
