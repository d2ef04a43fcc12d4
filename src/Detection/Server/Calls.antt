-- ===== src/Detection/Server/Calls.antt =====
-- The server's sockets over any sequence of starts and stops.
use cs621_network_programmin.Common.{
  ℕ, ◌≡◌, refl, ◌∙◌, Bool, true, false, Bool-cases, inl, inr, Option, none, some, List, [], ◌∷◌,
  Checked, ok, ◌>>=◌,
}
use cs621_network_programmin.Detection.Sockets.{Sockets}
use cs621_network_programmin.Detection.Server.{
  Server, new, join, opened, start_application, shut, stop_application,
}

pub data Call : Type 0 where
  start : Call
  stop : Call

-- What the calls make of the two sockets: before the first start there are none; a start after a stop
-- gives the closed sockets their callback again.
pub data Status : Type 0 where
  absent : Status
  present : (up listening : Bool) → Status

abbrev pub after : Call → Status → Status
after start absent = present true true
after start (present up listening) = present up true
after stop absent = absent
after stop (present up listening) = present false false

abbrev pub after_all : List Call → Status → Status
after_all [] t = t
after_all (c ∷ cs) t = after_all cs (after c t)

module _ (k : Sockets) where
  open k use {Packet, Address, Socket, is_open, has_callback}

  unfoldable pub run : List Call → Server k → Checked (Server k)
  unfolding start_application stop_application
  run [] v = ok v
  run (start ∷ cs) v = start_application k v >>= λ v'. run cs v'
  run (stop ∷ cs) v = run cs (stop_application k v)

  -- The endpoints of the server can be bound, and the groups can be joined.
  abbrev pub Joins : Address → Type 0
  Joins group =
      k.is_multicast group ≡ true → (s : Socket) → (t : Socket) × (k.join_group group s ≡ some t)

  pub record Binds (port : ℕ) (local : Address) : Type 0 where
    pub binds4 : (s : Socket) → (k.bind (k.inet_any port) s).0 ≡ true
    pub binds6 : (s : Socket) → (k.bind (k.inet6_any port) s).0 ≡ true
    pub joins4 : Joins local
    pub joins6 : Joins (k.inet6_any port)

  -- A socket in a status.
  abbrev pub Has : Status → Option Socket → Type 0
  Has absent s = s ≡ none
  Has (present up listening) none = ⊥
  Has (present up listening) (some s) = (is_open s ≡ up) × (has_callback s ≡ listening)

  abbrev pub Are : Status → Server k → Type 0
  Are t v = Has t v.socket × Has t v.socket6

  opened-is_open :
      (endpoint group : Address)
      → ((s : Socket) → (k.bind endpoint s).0 ≡ true)
      → Joins group
      → (s : Socket) × (opened k endpoint group none ≡ ok s) × (is_open s ≡ true)
  unfolding opened join
  opened-is_open endpoint group b j =
      let bound = (k.bind endpoint k.created).1 in
      let up : (is_open bound ≡ true) = k.bind-is_open endpoint k.created ∙ k.created-is_open in
      elim (Bool-cases (k.is_multicast group)) [
        | inl group_is ↦
            (let (t, e) = j group_is bound in
              (
                t,
                rw (b k.created, group_is, join, e) refl,
                k.join_group-is_open group bound t e ∙ up,
              ))
        | inr single ↦ (bound, rw (b k.created, single) refl, up)
      ]

  -- The socket of a start, with its callback.
  opened-Has :
      (endpoint group : Address) (t : Status) (m : Option Socket)
      → ((s : Socket) → (k.bind endpoint s).0 ≡ true)
      → Joins group
      → Has t m
      → (s : Socket) × (opened k endpoint group m ≡ ok s)
        × Has (after start t) (some (k.set_callback true s))
  unfolding opened
  opened-Has endpoint group absent none b j h =
      let (s, e, up) = opened-is_open endpoint group b j in
      (s, e, (k.set_callback-is_open true s ∙ up, k.set_callback-has_callback true s))
  opened-Has endpoint group absent (some s) b j h = cc
  opened-Has endpoint group (present up l) none b j h = absurd h
  opened-Has endpoint group (present up l) (some s) b j h =
      (s, refl, (k.set_callback-is_open true s ∙ h.0, k.set_callback-has_callback true s))

  shut-Has : (t : Status) (m : Option Socket) → Has t m → Has (after stop t) (shut k m)
  shut-Has absent none h = refl
  shut-Has absent (some s) h = cc
  shut-Has (present up l) none h = absurd h
  shut-Has (present up l) (some s) h = (
    k.set_callback-is_open false (k.close s) ∙ k.close-is_open s,
    k.set_callback-has_callback false (k.close s),
  )

  start-Are :
      (t : Status) (v : Server k)
      → Binds v.port v.local
      → Are t v
      → (v' : Server k) × (start_application k v ≡ ok v')
        × (v'.port ≡ v.port)
        × (v'.local ≡ v.local)
        × Are (after start t) v'
  unfolding start_application
  start-Are t v b h =
      let (s, e, has) = opened-Has (k.inet_any v.port) v.local t v.socket b.binds4 b.joins4 h.0 in
      let six = k.inet6_any v.port in
      let (s6, e6, has6) = opened-Has six six t v.socket6 b.binds6 b.joins6 h.1 in
      (
        record v { socket = some (k.set_callback true s); socket6 = some (k.set_callback true s6) },
        rw (e, e6) refl,
        refl,
        refl,
        (has, has6),
      )

  run-status :
      (cs : List Call) (t : Status) (v : Server k)
      → Binds v.port v.local
      → Are t v
      → (v' : Server k) × (run cs v ≡ ok v') × Are (after_all cs t) v'
  unfolding run stop_application
  run-status [] t v b h = (v, refl, h)
  run-status (start ∷ cs) t v b h =
      let (v1, e, port, local, h1) = start-Are t v b h in
      let (v2, e2, h2) = run-status cs (after start t) v1 (rw (port, local) b) h1 in
      (v2, rw (e, e2) refl, h2)
  run-status (stop ∷ cs) t v b h =
      run-status cs (after stop t) (stop_application k v) b
        (shut-Has t v.socket h.0, shut-Has t v.socket6 h.1)

  -- For a new server whose endpoints can be bound and whose multicast groups can be joined, every
  -- sequence of starts and stops ends without a fatal error, and leaves both sockets in the status
  -- that `after_all` says: absent before the first start, with the callback exactly if the last call
  -- was a start, and open exactly if no stop came after the first start.
  pub run-Are :
      (port : ℕ) (local : Address) (cs : List Call)
      → Binds port local
      → (v : Server k) × (run cs (new k port local) ≡ ok v) × Are (after_all cs absent) v
  unfolding new
  run-Are port local cs b = run-status cs absent (new k port local) b (refl, refl)

  closed_for_good :
      (listening : Bool) (cs : List Call)
      → (l : Bool) × (after_all cs (present false listening) ≡ present false l)
  closed_for_good l [] = (l, refl)
  closed_for_good l (start ∷ cs) = closed_for_good true cs
  closed_for_good l (stop ∷ cs) = closed_for_good false cs

  -- After a start and a stop, no later starts and stops open the server's sockets again: they end
  -- without a fatal error, with both sockets closed.
  pub run-closed :
      (port : ℕ) (local : Address) (cs : List Call)
      → Binds port local
      → (v : Server k) × (l : Bool) × (run (start ∷ stop ∷ cs) (new k port local) ≡ ok v)
        × Are (present false l) v
  run-closed port local cs b =
      let (v, e, h) = run-Are port local (start ∷ stop ∷ cs) b in
      let (l, closed) = closed_for_good false cs in (v, l, e, rw closed at h)
