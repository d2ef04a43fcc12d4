-- ===== src/Detection/Client/App/Tests.antt =====
-- Concrete lives of the application.
use cs621_network_programmin.Common.{
  ℕ, ◌+◌, ◌≡◌, refl, inl, true, none, some, List, [], ◌∷◌, arith, ok, ◌>>=◌,
}
use cs621_network_programmin.Detection.Sockets.Sample.{Sock, sockets}
use cs621_network_programmin.Detection.Sockets.{Effect, tx, tx_with_addresses, sends}
use cs621_network_programmin.Detection.Sockets.Drain.{Drains, drain-Drains}
use cs621_network_programmin.Detection.Client.{Memory, Client, Packet, of_bytes, of_size, create}
use cs621_network_programmin.Detection.Client.Train.{repeated}
use cs621_network_programmin.Detection.Client.App.{App, start_application, received}
use cs621_network_programmin.Detection.Client.App.Life.{life}
use cs621_network_programmin.Detection.Client.Payload.{
  IsReady, Setup, data_size, fill_text, fill_random, set_up_all,
}
use cs621_network_programmin.Detection.Client.App.Total.{
  set_up_app, Fires, LivesWell, fire-total, life-total,
}
use cs621_network_programmin.Detection.Client.App.Start.{
  IsReachable, IsRunning, StartLives, start_application-IsRunning, life-repeated, life-exhausted,
}

abbrev make : Packet → ℕ
make (of_bytes bytes) = 1
make (of_size size) = size

-- Three packets, one each 10 ns.
abbrev sender : App sockets make
sender = record {
  base = record { count = 3; interval = 10; size = 1100; data_size = 0; buffer = none; sent = 0 };
  peer = 4;
  port = 9;
  socket = none;
  send_event = none;
}

-- The same application after its three packets.
abbrev spent : App sockets make
spent = record sender {
  base = record { count = 3; interval = 10; size = 1100; data_size = 0; buffer = none; sent = 3 };
}

peer-IsReachable : IsReachable sockets make 4
peer-IsReachable = record { typed = inl refl; binds = refl; binds6 = refl }

sender-creates : create sender.base ≡ ok (of_size 1100)
unfolding create
sender-creates = refl

spent-creates : create spent.base ≡ ok (of_size 1100)
unfolding create
spent-creates = refl

-- What Send does with a packet: the peer is of IPv4, so both trace sources see it.
abbrev deed : List (Effect ℕ ℕ)
deed = tx 1100 ∷ tx_with_addresses 1100 0 6 ∷ sends 1100 ∷ []

three_sent :
    (start_application sockets make 2 sender >>= λ a. life sockets make 5 100 a >>= λ r. ok r.0)
    ≡ ok (some ((2, deed) ∷ (12, deed) ∷ (22, deed) ∷ []))
unfolding start_application life create cs621_network_programmin.Detection.Client.create_and_count
three_sent = refl

start_application-IsRunning_example :
    (a1 : App sockets make) × (start_application sockets make 2 spent ≡ ok a1)
    × IsRunning sockets make 2 a1
    × (a1.base ≡ spent.base)
start_application-IsRunning_example =
    start_application-IsRunning sockets make 2 spent refl peer-IsReachable

life-repeated_example : StartLives sockets make 4 2 100 sender (repeated 3 2 10 (of_size 1100))
life-repeated_example =
    life-repeated sockets make 3 2 100 sender (of_size 1100) refl peer-IsReachable sender-creates
      refl (omega arith) (omega arith) (omega arith) (omega arith)

life-exhausted_example : StartLives sockets make 3 2 100 spent ((2, of_size 1100) ∷ [])
life-exhausted_example =
    life-exhausted sockets make 1 2 100 spent (of_size 1100) refl peer-IsReachable spent-creates
      (omega arith) (omega arith) (omega arith)

abbrev two_waiting : Sock
two_waiting = record { name = 4; is_up = true; callback = true; queue = (11, 8) ∷ (12, 8) ∷ [] }

drain-Drains_example : Drains sockets (received sockets make) 3 two_waiting
drain-Drains_example = drain-Drains sockets (received sockets make) 3 two_waiting (omega arith)

abbrev pattern : Memory
pattern i = i + 65

abbrev settings : List Setup
settings =
    data_size 20 ∷ fill_text pattern pattern 7 ∷ fill_random pattern pattern pattern true 5 ∷ []

sender-IsReady : IsReady sender.base
sender-IsReady = record { agree = λ h. omega (arith, h); buffered = λ h. omega (arith, h) }

-- The sender with a socket, when its event of Send has come.
abbrev connected_sender : App sockets make
connected_sender = record sender { socket = some two_waiting; send_event = some 2 }

fire-total_example :
    Fires sockets make 2 (set_up_app sockets make settings connected_sender) two_waiting
fire-total_example =
    fire-total sockets make settings 2 connected_sender two_waiting sender-IsReady refl

life-total_example :
    (a1 : App sockets make) × (s : Sock) × (start_application sockets make 2
        (set_up_app sockets make settings sender)
      ≡ ok a1)
    × (a1.socket ≡ some s)
    × (a1.base ≡ set_up_all settings sender.base)
    × LivesWell sockets make 7 100 a1 s
life-total_example =
    life-total sockets make settings 7 2 100 sender refl peer-IsReachable sender-IsReady
      (omega arith) (omega arith) (omega arith)
