-- ===== src/Detection/Client/App/Start.antt =====
-- The application from its start on.
use cs621_network_programmin.Common.{
  ℕ, suc, ◌+◌, ◌-◌, ◌*◌, ◌^◌, ◌≤◌, ◌<◌, ◌≡◌, refl, ap, ◌∙◌, ◌⊎◌, inl, inr, Bool, true, false,
  Bool-cases, Option, none, some, List, [], ◌∷◌, arith, ok, ◌>>=◌,
}
use cs621_network_programmin.Detection.Sockets.{Sockets}
use cs621_network_programmin.Detection.Client
use cs621_network_programmin.Detection.Client.{Client, create}
use cs621_network_programmin.Detection.Client.Train.{
  train, repeated, train-repeated, train-exhausted,
}
use cs621_network_programmin.Detection.Client.App.{App, bound, connected, opened, start_application}
use cs621_network_programmin.Detection.Client.App.Life.{life-train}
use cs621_network_programmin.Detection.Client.App.Handed.{Lives, Performs-Lives}

module _ (k : Sockets) (make : Client.Packet → k.Packet) where
  open k use {Packet, Address, Socket, is_open, has_callback}

  -- The peer's address is of one of the four types, and a new socket can be bound.
  pub record IsReachable (peer : Address) : Type 0 where
    pub typed :
        (k.is_ipv4 peer ≡ true)
        ⊎ (k.is_ipv6 peer ≡ true)
        ⊎ (k.is_inet peer ≡ true)
        ⊎ (k.is_inet6 peer ≡ true)
    pub binds : (k.bind_any k.created).0 ≡ true
    pub binds6 : (k.bind_any6 k.created).0 ≡ true

  -- A new socket, bound and connected, is open.
  abbrev Opens : Address → ℕ → Type 0
  Opens peer port = (s : Socket) × (connected k make peer port ≡ ok s) × (is_open s ≡ true)

  -- A bound socket, connected.
  bound-is_open :
      (a : Address) (b : Bool × Socket)
      → b.0 ≡ true
      → is_open b.1 ≡ true
      → (bound k make a b ≡ ok (k.connect a b.1)) × (is_open (k.connect a b.1) ≡ true)
  bound-is_open a (b, s) h o = (rw h refl, k.connect-is_open a s ∙ o)

  last_type :
      (peer : Address)
      → (k.is_ipv4 peer ≡ true)
        ⊎ (k.is_ipv6 peer ≡ true)
        ⊎ (k.is_inet peer ≡ true)
        ⊎ (k.is_inet6 peer ≡ true)
      → k.is_ipv4 peer ≡ false
      → k.is_ipv6 peer ≡ false
      → k.is_inet peer ≡ false
      → k.is_inet6 peer ≡ true
  last_type peer typed not4 not6 not_i4 = grind arith

  connected-Opens : (peer : Address) (port : ℕ) → IsReachable peer → Opens peer port
  unfolding connected
  connected-Opens peer port r =
      let four = λ (a : Address).
        bound-is_open a (k.bind_any k.created) r.binds
          (k.bind_any-is_open k.created ∙ k.created-is_open) in
      let six = λ (a : Address).
        bound-is_open a (k.bind_any6 k.created) r.binds6
          (k.bind_any6-is_open k.created ∙ k.created-is_open) in
      elim (Bool-cases (k.is_ipv4 peer)) [
        | inl v4 ↦ (let (e, o) = four (k.inet peer port) in (_, rw v4 e, o))
        | inr not4 ↦ elim (Bool-cases (k.is_ipv6 peer)) [
          | inl v6 ↦ (let (e, o) = six (k.inet6 peer port) in (_, rw (not4, v6) e, o))
          | inr not6 ↦ elim (Bool-cases (k.is_inet peer)) [
            | inl i4 ↦ (let (e, o) = four peer in (_, rw (not4, not6, i4) e, o))
            | inr not_i4 ↦
                (let (e, o) = six peer in
                  let i6 : (k.is_inet6 peer ≡ true) = last_type peer r.typed not4 not6 not_i4 in
                  (_, rw (not4, not6, not_i4, i6) e, o))
          ]
        ]
      ]

  -- The application runs: its socket is there, open and with its callback, and Send is due.
  abbrev pub IsRunning : ℕ → App k make → Type 0
  IsRunning now a =
      (s : Socket) × (a.socket ≡ some s)
      × (is_open s ≡ true)
      × (has_callback s ≡ true)
      × (a.send_event ≡ some now)

  -- An application without a socket, which is how it is made and how StopApplication leaves it, with
  -- a peer that can be reached, starts: its socket is a new one that is open and has the callback,
  -- Send is due at once, and what it has sent so far is not forgotten.
  pub start_application-IsRunning :
      (now : ℕ) (a : App k make)
      → a.socket ≡ none
      → IsReachable a.peer
      → (a1 : App k make) × (start_application k make now a ≡ ok a1)
        × IsRunning now a1
        × (a1.base ≡ a.base)
  unfolding start_application opened
  start_application-IsRunning now a h r =
      let (s, e, up) = connected-Opens a.peer a.port r in
      let ready = k.allow_broadcast (k.set_callback true s) in
      let at_once : (now + 0 ≡ now) = omega arith in
      let still : (is_open ready ≡ true) =
        k.allow_broadcast-is_open (k.set_callback true s) ∙ k.set_callback-is_open true s ∙ up in
      let listens : (has_callback ready ≡ true) =
        k.allow_broadcast-has_callback (k.set_callback true s)
        ∙ k.set_callback-has_callback true s in
      (
        record a { socket = some ready; send_event = some now },
        ap
              (λ (m : Option Socket).
                elim m [ none ↦ connected k make a.peer a.port | some t ↦ ok t ] >>= λ t.
                ok (record a {
                  socket = some (k.allow_broadcast (k.set_callback true t));
                  send_event = some (now + 0);
                }))
              h
            ∙ rw (e, at_once) refl,
        (ready, refl, still, listens, refl),
        refl,
      )

  -- A life of the application from its start, with the socket that it gets there.
  abbrev pub StartLives : ℕ → ℕ → ℕ → App k make → List (ℕ × Client.Packet) → Type 0
  StartLives fuel start stop a log =
      (a1 : App k make) × (s : Socket) × (start_application k make start a ≡ ok a1)
      × (a1.socket ≡ some s)
      × Lives k make fuel stop a1 s log

  -- An application without a socket, with a peer that can be reached and a client that has sent
  -- nothing, has at least one packet and fewer than 2 ^ 32 packets to send, and whose last packet is
  -- due before the stop: from its start on it hands its socket MaxPackets copies of the packet that
  -- the client creates, the first at once and each later one an interval after the one before, tells
  -- the trace source Tx of each at the same time, and does nothing else but what Send does with these
  -- packets; it is then stopped, without a socket and with no event of Send. Fuel for MaxPackets + 1
  -- events is enough.
  pub life-repeated :
      (fuel start stop : ℕ) (a : App k make) (p : Client.Packet)
      → a.socket ≡ none
      → IsReachable a.peer
      → create a.base ≡ ok p
      → a.base.sent ≡ 0
      → 0 < a.base.count
      → a.base.count < 2 ^ 32
      → a.base.count ≤ fuel
      → start + (a.base.count - 1) * a.base.interval < stop
      → StartLives (suc fuel) start stop a (repeated a.base.count start a.base.interval p)
  life-repeated fuel start stop a p h r c fresh any w f last =
      let (a1, e, (s, is, up, listens, due), same) = start_application-IsRunning start a h r in
      let trained = train-repeated fuel start stop a.base p c fresh any w f last in
      (
        a1,
        s,
        e,
        is,
        Performs-Lives k make (suc fuel) stop a1 s _ (
            life-train k make fuel stop start a1 s _ is due
              (ap (train fuel stop start) same ∙ trained)),
      )

  -- An application that was stopped after it had sent its MaxPackets packets or more, and that starts
  -- again with a peer that can be reached, hands its new socket one packet more, if it is not stopped
  -- at once.
  pub life-exhausted :
      (fuel start stop : ℕ) (a : App k make) (p : Client.Packet)
      → a.socket ≡ none
      → IsReachable a.peer
      → create a.base ≡ ok p
      → a.base.count ≤ a.base.sent
      → a.base.sent + 1 < 2 ^ 32
      → start < stop
      → StartLives (suc (suc fuel)) start stop a ((start, p) ∷ [])
  life-exhausted fuel start stop a p h r c done w early =
      let (a1, e, (s, is, up, listens, due), same) = start_application-IsRunning start a h r in
      let trained = train-exhausted fuel start stop a.base p c done w early in
      (
        a1,
        s,
        e,
        is,
        Performs-Lives k make (suc (suc fuel)) stop a1 s ((start, p) ∷ []) (
            life-train k make (suc fuel) stop start a1 s _ is due
              (ap (train (suc fuel) stop start) same ∙ trained)),
      )
