-- ===== src/Detection/Client/App.antt =====
-- applications/model/request-response-client.cc: the application around Send: its socket, the event
-- of the next Send, its start and stop, and what it does with the packets that it receives.
pub mod Life
pub mod Handed
pub mod Start
pub mod Total
mod Tests
use cs621_network_programmin.Common.{
  ℕ, zero, suc, ◌+◌, Bool, true, false, Option, none, some, List, [], ◌∷◌, ◌++◌, ltb, if◌then◌else◌,
  Checked, ok, abort, assert, ◌>>=◌, ◌>>◌,
}
use cs621_network_programmin.Detection.Sockets.{
  Sockets, Effect, tx, tx_with_addresses, sends, rx, rx_with_addresses, drain,
}
use cs621_network_programmin.Detection.Client
use cs621_network_programmin.Detection.Client.{Client}

-- `make` is Create<Packet>.
module _ (k : Sockets) (make : Client.Packet → k.Packet) where
  open k use {Packet, Address, Socket}

  -- class RequestResponseClient: `base` has what Send and the SetFill functions use, `send_event` is
  -- the time at which Send is due, if it is, and a socket that is null is `none`.
  pub record App : Type 0 where
    pub base : Client
    pub peer : Address
    pub port : ℕ
    pub socket : Option Socket
    pub send_event : Option ℕ

  unfoldable pub new : Client → Address → ℕ → App
  new base peer port = record {
    base = base;
    peer = peer;
    port = port;
    socket = none;
    send_event = none;
  }

  -- SetRemote (Address, uint16_t) and SetRemote (Address)
  unfoldable pub set_remote : Address → ℕ → App → App
  set_remote ip port a = record a { peer = ip; port = port }

  unfoldable pub set_remote_address : Address → App → App
  set_remote_address addr a = record a { peer = addr }

  abbrev pub bound : Address → Bool × Socket → Checked Socket
  bound a (b, s) = do assert b; ok (k.connect a s)

  -- A new socket, bound, and connected to the peer.
  unfoldable pub connected : Address → ℕ → Checked Socket
  connected peer port =
      if k.is_ipv4 peer
      then bound (k.inet peer port) (k.bind_any k.created)
      else if k.is_ipv6 peer
      then bound (k.inet6 peer port) (k.bind_any6 k.created)
      else if k.is_inet peer
      then bound peer (k.bind_any k.created)
      else if k.is_inet6 peer
      then bound peer (k.bind_any6 k.created)
      else abort

  unfoldable pub opened : App → Checked Socket
  unfolding connected
  opened a = elim a.socket [ none ↦ connected a.peer a.port | some s ↦ ok s ]

  -- StartApplication at the time `now`
  unfoldable pub start_application : ℕ → App → Checked App
  unfolding opened
  start_application now a = do
    s ← opened a
    ok (record a {
      socket = some (k.allow_broadcast (k.set_callback true s));
      send_event = some (now + 0);
    })

  -- StopApplication: the application after it, and the socket that it gave up.
  unfoldable pub stop_application : App → App × Option Socket
  stop_application a = (
    record a { socket = none; send_event = none },
    elim a.socket [ none ↦ none | some s ↦ some (k.set_callback false (k.close s)) ],
  )

  -- The second trace source of Send.
  abbrev pub traced : App → Address → Packet → List (Effect Packet Address)
  traced a name p =
      if k.is_ipv4 a.peer
      then tx_with_addresses p name (k.inet a.peer a.port) ∷ []
      else if k.is_ipv6 a.peer
      then tx_with_addresses p name (k.inet6 a.peer a.port) ∷ []
      else []

  abbrev pub scheduled : ℕ → Option ℕ → Option ℕ
  scheduled now none = none
  scheduled now (some dt) = some (now + dt)

  abbrev is_expired : Option ℕ → Bool
  is_expired none = true
  is_expired (some t) = false

  -- The packet `p` goes to the socket, if that is not null.
  abbrev pub sent_on :
      ℕ
      → App
      → Client.Packet
      → Client
      → Option ℕ
      → Option Socket
      → Checked (List (Effect Packet Address) × App)
  sent_on now a p base next none = abort
  sent_on now a p base next (some s) = ok (
    tx (make p) ∷ traced a (k.sock_name s) (make p) ++ sends (make p) ∷ [],
    record a { base = base; send_event = scheduled now next },
  )

  -- Send at the time `now`: what it does to others.
  unfoldable pub send : ℕ → App → Checked (List (Effect Packet Address) × App)
  send now a = do
    assert (is_expired a.send_event)
    (p, base, next) ← Client.create_and_count a.base
    sent_on now a p base next a.socket

  -- The simulator runs the event of Send, which has then expired.
  unfoldable pub fire : ℕ → App → Checked (List (Effect Packet Address) × App)
  unfolding send
  fire now a = send now (record a { send_event = none })

  abbrev pub received : Packet → Address → Address → List (Effect Packet Address)
  received p from local = rx p ∷ rx_with_addresses p from local ∷ []

  -- HandleRead, on fuel
  abbrev pub handle_read : ℕ → Socket → Option (List (Effect Packet Address) × Socket)
  handle_read fuel s = drain k fuel received s
