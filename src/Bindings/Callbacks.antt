-- ===== src/Bindings/Callbacks.antt =====
-- The list `callback_classes` of bindings/callbacks_list.py, and the callback classes that the
-- script registers.
use cs621_network_programmin.Common.{
  String, ◌≡◌, refl, Bool, true, false, false≢true, ◌&&◌, ◌||◌, List, [], ◌∷◌, ◌++◌, str_eq,
  str_eq_iff, all, &&-parts, Bool-cases, inl, inr, if◌then◌else◌,
}
use cs621_network_programmin.Bindings.Syntax.{Keyword, template_parameters, Command, add_class}
use cs621_network_programmin.Bindings.Types.{
  types_through_time_with_unit, types_through_ipv4_mask_checker, types_through_log_node_printer,
}

-- Each row is the result and the nine arguments of a callback type.
unfoldable pub callback_classes : List (List String)
callback_classes =
    ("ns3::ObjectBase *" ∷ "ns3::empty" ∷ "ns3::empty" ∷ "ns3::empty" ∷ "ns3::empty" ∷ "ns3::empty"
      ∷ "ns3::empty" ∷ "ns3::empty" ∷ "ns3::empty" ∷ "ns3::empty" ∷ [])
    ∷ ("void" ∷ "ns3::Ptr<const ns3::Packet>" ∷ "ns3::Ptr<ns3::NetDevice>"
        ∷ "ns3::Ptr<ns3::NetDevice>" ∷ "ns3::Time" ∷ "ns3::Time" ∷ "ns3::empty" ∷ "ns3::empty"
        ∷ "ns3::empty" ∷ "ns3::empty" ∷ [])
    ∷ ("void" ∷ "ns3::empty" ∷ "ns3::empty" ∷ "ns3::empty" ∷ "ns3::empty" ∷ "ns3::empty"
        ∷ "ns3::empty" ∷ "ns3::empty" ∷ "ns3::empty" ∷ "ns3::empty" ∷ [])
    ∷ ("bool" ∷ "ns3::Ptr<ns3::NetDevice>" ∷ "ns3::Ptr<const ns3::Packet>" ∷ "unsigned short"
        ∷ "const ns3::Address &" ∷ "ns3::empty" ∷ "ns3::empty" ∷ "ns3::empty" ∷ "ns3::empty"
        ∷ "ns3::empty" ∷ [])
    ∷ ("bool" ∷ "ns3::Ptr<ns3::NetDevice>" ∷ "ns3::Ptr<const ns3::Packet>" ∷ "unsigned short"
        ∷ "const ns3::Address &" ∷ "const ns3::Address &" ∷ "ns3::NetDevice::PacketType"
        ∷ "ns3::empty" ∷ "ns3::empty" ∷ "ns3::empty" ∷ [])
    ∷ ("void" ∷ "ns3::Ptr<ns3::NetDevice>" ∷ "ns3::Ptr<const ns3::Packet>" ∷ "unsigned short"
        ∷ "const ns3::Address &" ∷ "const ns3::Address &" ∷ "ns3::NetDevice::PacketType"
        ∷ "ns3::empty" ∷ "ns3::empty" ∷ "ns3::empty" ∷ [])
    ∷ ("void" ∷ "ns3::Ptr<ns3::NetDevice>" ∷ "ns3::empty" ∷ "ns3::empty" ∷ "ns3::empty"
        ∷ "ns3::empty" ∷ "ns3::empty" ∷ "ns3::empty" ∷ "ns3::empty" ∷ "ns3::empty" ∷ [])
    ∷ ("void" ∷ "ns3::Ptr<const ns3::Packet>" ∷ "ns3::empty" ∷ "ns3::empty" ∷ "ns3::empty"
        ∷ "ns3::empty" ∷ "ns3::empty" ∷ "ns3::empty" ∷ "ns3::empty" ∷ "ns3::empty" ∷ [])
    ∷ ("void" ∷ "std::basic_string<char>" ∷ "ns3::Ptr<const ns3::Packet>" ∷ "ns3::empty"
        ∷ "ns3::empty" ∷ "ns3::empty" ∷ "ns3::empty" ∷ "ns3::empty" ∷ "ns3::empty" ∷ "ns3::empty"
        ∷ [])
    ∷ ("void" ∷ "unsigned int" ∷ "unsigned int" ∷ "ns3::empty" ∷ "ns3::empty" ∷ "ns3::empty"
        ∷ "ns3::empty" ∷ "ns3::empty" ∷ "ns3::empty" ∷ "ns3::empty" ∷ [])
    ∷ []

abbrev texts_eq : List String → List String → Bool
texts_eq [] [] = true
texts_eq (a ∷ xs) (b ∷ ys) = str_eq a b && texts_eq xs ys
texts_eq xs ys = false

-- `row in rows`
unfoldable pub has_row : List (List String) → List String → Bool
has_row [] row = false
has_row (r ∷ rows) row = texts_eq r row || has_row rows row

abbrev arguments_of : List Keyword → List String
arguments_of [] = []
arguments_of (template_parameters types ∷ kws) = types
arguments_of (kw ∷ kws) = arguments_of kws

-- The template arguments of the classes `CallbackImpl` that a body registers.
unfoldable pub callback_types : List Command → List (List String)
callback_types [] = []
callback_types (add_class name kws ∷ cs) =
    if str_eq name "CallbackImpl" then arguments_of kws ∷ callback_types cs else callback_types cs
callback_types (c ∷ cs) = callback_types cs

texts_eq→≡ : (xs ys : List String) → texts_eq xs ys ≡ true → xs ≡ ys
texts_eq→≡ [] [] h = refl
texts_eq→≡ [] (b ∷ ys) h = absurd (false≢true h)
texts_eq→≡ (a ∷ xs) [] h = absurd (false≢true h)
texts_eq→≡ (a ∷ xs) (b ∷ ys) h =
    let (head, tail) = &&-parts (str_eq a b) (texts_eq xs ys) h in
    rw ((str_eq_iff a b).0 head, texts_eq→≡ xs ys tail) refl

all-has_row :
    (p : List String → Bool) (rows : List (List String)) (row : List String)
    → all p rows ≡ true
    → has_row rows row ≡ true
    → p row ≡ true
unfolding has_row
all-has_row p [] row checked found = absurd (false≢true found)
all-has_row p (r ∷ rows) row checked found =
    let (now, later) = &&-parts (p r) (all p rows) checked in
    elim (Bool-cases (texts_eq r row)) [
      | inl same ↦ rw (texts_eq→≡ r row same) at now
      | inr other ↦ all-has_row p rows row later (rw other at found)
    ]

-- The callback types of `register_types`; its inner namespaces register no classes of that name.
abbrev pub registered_callbacks : List (List String)
registered_callbacks = callback_types (
    types_through_time_with_unit
    ++ (types_through_ipv4_mask_checker ++ types_through_log_node_printer))

listed_checked : all (has_row callback_classes) registered_callbacks ≡ true
unfolding callback_classes has_row callback_types
listed_checked = refl

-- Every class CallbackImpl that `register_types` registers is in the list of callback classes, by
-- its template arguments.
pub registered_callbacks-listed :
    (row : List String)
    → has_row registered_callbacks row ≡ true
    → has_row callback_classes row ≡ true
registered_callbacks-listed row h = all-has_row (has_row callback_classes) _ row listed_checked h
