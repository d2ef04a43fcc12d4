-- ===== src/Detection/Server/Reads.antt =====
-- HandleRead of the server, and that it answers nothing.
use cs621_network_programmin.Common.{◌<◌, ◌≡◌, refl, ℕ, some, List, [], ◌∷◌, length, map}
use cs621_network_programmin.Detection.Sockets.{Sockets, Effect, sends, rx}
use cs621_network_programmin.Detection.Sockets.Drain.{drain-Drains, handled}
use cs621_network_programmin.Detection.Server.{received, handle_read}

module _ {P A : Type 0} where
  -- The packets that the trace source Rx reports, and those that go to a socket.
  abbrev pub reported : List (Effect P A) → List P
  reported [] = []
  reported (rx p ∷ es) = p ∷ reported es
  reported (e ∷ es) = reported es

  abbrev pub sent : List (Effect P A) → List P
  sent [] = []
  sent (sends p ∷ es) = p ∷ sent es
  sent (e ∷ es) = sent es

module _ (k : Sockets) where
  open k use {Packet, Address, Socket, waiting, sock_name}

  reported-handled :
      (name : Address) (ms : List (Packet × Address))
      → reported (handled k (received k) name ms) ≡ map (λ m. m.0) ms
  reported-handled name [] = refl
  reported-handled name ((p, from) ∷ ms) = rw (reported-handled name ms) refl

  sent-handled :
      (name : Address) (ms : List (Packet × Address)) → sent (handled k (received k) name ms) ≡ []
  sent-handled name [] = refl
  sent-handled name ((p, from) ∷ ms) = sent-handled name ms

  -- With fuel for one round more than there are packets waiting, HandleRead ends, reports each packet
  -- that waited once and in order, leaves none waiting, and sends nothing back.
  pub handle_read-unanswered :
      (fuel : ℕ) (s : Socket)
      → length (waiting s) < fuel
      → (effects : List (Effect Packet Address)) × (last : Socket) × (handle_read k fuel s
          ≡ some (effects, last))
        × (reported effects ≡ map (λ m. m.0) (waiting s))
        × (sent effects ≡ [])
        × (waiting last ≡ [])
  handle_read-unanswered fuel s h =
      let (last, e, empty) = drain-Drains k (received k) fuel s h in
      (
        handled k (received k) (sock_name s) (waiting s),
        last,
        e,
        reported-handled (sock_name s) (waiting s),
        sent-handled (sock_name s) (waiting s),
        empty,
      )
