-- ===== src/Detection/Server/Tests.antt =====
-- Concrete runs of the server.
use cs621_network_programmin.Common.{
  ℕ, ◌≡◌, refl, true, false, Bool, some, List, [], ◌∷◌, arith, ok, map,
}
use cs621_network_programmin.Detection.Sockets.{Effect, rx, rx_with_addresses, remove_tags}
use cs621_network_programmin.Detection.Sockets.Sample.{Sock, sockets}
use cs621_network_programmin.Detection.Server.{Server, new, handle_read}
use cs621_network_programmin.Detection.Server.Calls.{
  Call, start, stop, after_all, absent, present, run, Binds, Are, run-Are, run-closed,
}
use cs621_network_programmin.Detection.Server.Reads.{reported, sent, handle_read-unanswered}

abbrev two_waiting : Sock
two_waiting = record { name = 3; is_up = true; callback = true; queue = (11, 8) ∷ (12, 8) ∷ [] }

-- The server reports each packet and sends nothing.
handle_read_two :
    handle_read sockets 3 two_waiting
    ≡ some (
      rx 11
          ∷ rx_with_addresses 11 8 3
          ∷ remove_tags 11
          ∷ rx 12
          ∷ rx_with_addresses 12 8 3
          ∷ remove_tags 12
          ∷ [],
      record two_waiting { queue = [] },
    )
unfolding cs621_network_programmin.Detection.Sockets.drain
handle_read_two = refl

handle_read-unanswered_example :
    (effects : List (Effect ℕ ℕ)) × (last : Sock) × (handle_read sockets 3 two_waiting
      ≡ some (effects, last))
    × (reported effects ≡ map (λ m. m.0) two_waiting.queue)
    × (sent effects ≡ [])
    × (last.queue ≡ [])
handle_read-unanswered_example = handle_read-unanswered sockets 3 two_waiting (omega arith)

-- A server for a group, and one that is no member of any.
sockets-Binds : Binds sockets 9 1001
sockets-Binds = record {
  binds4 = λ s. refl;
  binds6 = λ s. refl;
  joins4 = λ h s. (s, refl);
  joins6 = λ h s. (s, refl);
}

abbrev calls : List Call
calls = stop ∷ start ∷ start ∷ stop ∷ start ∷ []

run-Are_example :
    (v : Server sockets) × (run sockets calls (new sockets 9 1001) ≡ ok v)
    × Are sockets (after_all calls absent) v
run-Are_example = run-Are sockets 9 1001 calls sockets-Binds

run-closed_example :
    (v : Server sockets) × (l : Bool) × (run sockets
        (start ∷ stop ∷ start ∷ [])
        (new sockets 9 1001)
      ≡ ok v)
    × Are sockets (present false l) v
run-closed_example = run-closed sockets 9 1001 (start ∷ []) sockets-Binds
