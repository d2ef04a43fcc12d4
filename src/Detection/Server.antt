-- ===== src/Detection/Server.antt =====
-- applications/model/request-response-server.cc and .h: the two sockets of the server, its start and
-- stop, and what it does with the packets that it receives. The code that would answer them is
-- commented out.
pub mod Calls
pub mod Reads
mod Tests
use cs621_network_programmin.Common.{
  ℕ, Bool, true, false, Option, none, some, List, [], ◌∷◌, if◌then◌else◌, Checked, ok, abort,
  assert, ◌>>=◌, ◌>>◌,
}
use cs621_network_programmin.Detection.Sockets.{
  Sockets, Effect, rx, rx_with_addresses, remove_tags, drain,
}

module _ (k : Sockets) where
  open k use {Packet, Address, Socket}

  -- class RequestResponseServer; a socket that is null is `none`
  pub record Server : Type 0 where
    pub port : ℕ
    pub local : Address
    pub socket : Option Socket
    pub socket6 : Option Socket

  unfoldable pub new : ℕ → Address → Server
  new port local = record { port = port; local = local; socket = none; socket6 = none }

  unfoldable pub join : Address → Socket → Checked Socket
  join group s = elim (k.join_group group s) [ none ↦ abort | some s' ↦ ok s' ]

  -- A socket that is null is created, bound, and made to join its group.
  unfoldable pub opened : (endpoint group : Address) → Option Socket → Checked Socket
  unfolding join
  opened endpoint group (some s) = ok s
  opened endpoint group none = do
    let (bound, s) = k.bind endpoint k.created
    assert bound
    (if k.is_multicast group then join group s else ok s)

  unfoldable pub start_application : Server → Checked Server
  unfolding opened
  start_application v = do
    s ← opened (k.inet_any v.port) v.local v.socket
    s6 ← opened (k.inet6_any v.port) (k.inet6_any v.port) v.socket6
    ok (record v { socket = some (k.set_callback true s); socket6 = some (k.set_callback true s6) })

  abbrev pub shut : Option Socket → Option Socket
  shut none = none
  shut (some s) = some (k.set_callback false (k.close s))

  unfoldable pub stop_application : Server → Server
  stop_application v = record v { socket = shut v.socket; socket6 = shut v.socket6 }

  abbrev pub received : Packet → Address → Address → List (Effect Packet Address)
  received p from local = rx p ∷ rx_with_addresses p from local ∷ remove_tags p ∷ []

  -- HandleRead, on fuel
  abbrev pub handle_read : ℕ → Socket → Option (List (Effect Packet Address) × Socket)
  handle_read fuel s = drain k fuel received s
