-- ===== src/Bindings/Closed.antt =====
-- A static reading of the binding script: which keys each statement uses and which names it
-- registers. A script that uses only names registered before runs with no KeyError.
use cs621_network_programmin.Common.{
  String, ◌≡◌, refl, Bool, true, ◌&&◌, List, [], ◌∷◌, ◌++◌, arith, all, contains, str_eq_iff,
  &&-parts, str_eq, Bool-cases, inl, inr,
}
use cs621_network_programmin.Bindings.Syntax.{
  Command, add_enum, add_class, add_container, add_type_alias, implicitly_converts_to, Member,
}
use cs621_network_programmin.Bindings.Pybindgen.{Pybindgen, full_name}
use cs621_network_programmin.Bindings.Register.{
  Outcome, ok, ◌>>=◌, command_keys, member_keys, look_up, call, run_commands, run_members,
  run_table,
}

-- The names that a statement registers.
unfoldable pub registers : String → Command → List String
unfolding full_name
registers ns (add_enum name values kws) = full_name ns name kws ∷ []
registers ns (add_class name kws) = full_name ns name kws ∷ []
registers ns command = []

-- The known names after a function body.
unfoldable pub registered : List String → String → List Command → List String
unfolding registers
registered known ns [] = known
registered known ns (c ∷ cs) = registered (registers ns c ++ known) ns cs

-- Each statement of the body uses known names only.
unfoldable pub closed : List String → String → List Command → Bool
unfolding registers command_keys contains
closed known ns [] = true
closed known ns (c ∷ cs) =
    all (contains known) (command_keys c) && closed (registers ns c ++ known) ns cs

unfoldable pub members_closed : List String → List Member → Bool
unfolding member_keys contains
members_closed known [] = true
members_closed known (c ∷ cs) = all (contains known) (member_keys c) && members_closed known cs

unfoldable pub table_closed : List String → List (String × List Member) → Bool
unfolding members_closed contains
table_closed known [] = true
table_closed known ((key, members) ∷ rest) =
    contains known key && (members_closed known members && table_closed known rest)

module _ (b : Pybindgen) where
  open b use {Module, has_key}

  -- Every known name is a key of the module.
  abbrev pub Knows : Module → List String → Type 0
  Knows m known = (key : String) → contains known key ≡ true → has_key m key ≡ true

  -- The run ends without a KeyError, and the names are then known.
  abbrev pub Ends : List String → Outcome Module → Type 0
  Ends known run = (m : Module) × (run ≡ ok m) × Knows m known

  -- Runs in sequence.
  pub Ends-bind :
      (known known' : List String) (run : Outcome Module) (rest : Module → Outcome Module)
      → Ends known run
      → ((m : Module) → Knows m known → Ends known' (rest m))
      → Ends known' (run >>= rest)
  Ends-bind known known' run rest (m, e, k) after = rw e (after m k)

  pub Knows-namespace :
      (m : Module) (known : List String) (ns name : String)
      → Knows m known
      → Knows (b.add_cpp_namespace m ns name) known
  Knows-namespace m known ns name k key h = b.add_cpp_namespace-keeps m ns name key (k key h)

  pub look_up-ok :
      (m : Module) (known keys : List String)
      → Knows m known
      → all (contains known) keys ≡ true
      → look_up b m keys ≡ ok m
  unfolding look_up
  look_up-ok m known [] k h = refl
  look_up-ok m known (key ∷ keys) k h =
      let (now, later) = &&-parts (contains known key) (all (contains known) keys) h in
      rw (k key now) (look_up-ok m known keys k later)

  call-keeps :
      (ns : String) (c : Command) (m : Module) (key : String)
      → has_key m key ≡ true
      → has_key (call b ns c m) key ≡ true
  unfolding call
  call-keeps ns (add_enum name values kws) m key h = b.add_enum-keeps m ns name values kws key h
  call-keeps ns (add_class name kws) m key h = b.add_class-keeps m ns name kws key h
  call-keeps ns (add_container name types kind) m key h =
      b.add_container-keeps m name types kind key h
  call-keeps ns (add_type_alias from to) m key h = b.add_type_alias-keeps m from to key h
  call-keeps ns (implicitly_converts_to from to) m key h =
      b.implicitly_converts_to-keeps m from to key h

  Knows-cons :
      (m m' : Module) (known : List String) (name : String)
      → Knows m known
      → ((key : String) → has_key m key ≡ true → has_key m' key ≡ true)
      → has_key m' name ≡ true
      → Knows m' (name ∷ known)
  unfolding contains
  Knows-cons m m' known name k keeps new key h = elim (Bool-cases (str_eq name key)) [
    | inl same ↦ rw ((str_eq_iff name key).0 same) at new
    | inr other ↦ keeps key (k key (ground arith))
  ]

  call-Knows :
      (ns : String) (c : Command) (m : Module) (known : List String)
      → Knows m known
      → Knows (call b ns c m) (registers ns c ++ known)
  unfolding registers call
  call-Knows ns (add_enum name values kws) m known k =
      Knows-cons m _ known _ k (λ key. b.add_enum-keeps m ns name values kws key)
        (b.add_enum-registers m ns name values kws)
  call-Knows ns (add_class name kws) m known k =
      Knows-cons m _ known _ k (λ key. b.add_class-keeps m ns name kws key)
        (b.add_class-registers m ns name kws)
  call-Knows ns c m known k = λ key h. call-keeps ns c m key (k key h)

  -- A closed body runs to its end, and all that it registers is then known.
  pub run_commands-ok :
      (known : List String) (ns : String) (cs : List Command) (m : Module)
      → Knows m known
      → closed known ns cs ≡ true
      → Ends (registered known ns cs) (run_commands b ns cs m)
  unfolding run_commands closed registered
  run_commands-ok known ns [] m k h = (m, refl, k)
  run_commands-ok known ns (c ∷ cs) m k h =
      let (now, later) =
        &&-parts (all (contains known) (command_keys c)) (closed (registers ns c ++ known) ns cs)
          h in
      rw (look_up-ok m known (command_keys c) k now) (
        run_commands-ok (registers ns c ++ known) ns cs (call b ns c m) (call-Knows ns c m known k)
          later)

  pub run_members-ok :
      (known : List String) (cls : String) (cs : List Member) (m : Module)
      → Knows m known
      → members_closed known cs ≡ true
      → Ends known (run_members b cls cs m)
  unfolding run_members members_closed
  run_members-ok known cls [] m k h = (m, refl, k)
  run_members-ok known cls (c ∷ cs) m k h =
      let (now, later) =
        &&-parts (all (contains known) (member_keys c)) (members_closed known cs) h in
      rw (look_up-ok m known (member_keys c) k now) (
        run_members-ok known cls cs (b.add_member m cls c)
          (λ key e. b.add_member-keeps m cls c key (k key e)) later)

  pub run_table-ok :
      (known : List String) (table : List (String × List Member)) (m : Module)
      → Knows m known
      → table_closed known table ≡ true
      → Ends known (run_table b table m)
  unfolding run_table table_closed look_up
  run_table-ok known [] m k h = (m, refl, k)
  run_table-ok known ((key, members) ∷ rest) m k h =
      let (here, more) =
        &&-parts (contains known key) (members_closed known members && table_closed known rest) h in
      let (now, later) = &&-parts (members_closed known members) (table_closed known rest) more in
      let (m', e, k') = run_members-ok known key members m k now in
      rw (k key here, e) (run_table-ok known rest m' k' later)
