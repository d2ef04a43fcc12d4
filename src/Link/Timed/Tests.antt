-- ===== src/Link/Timed/Tests.antt =====
-- A link in time on the sample network.
use cs621_network_programmin.Common.{
  ℕ, ◌+◌, ◌≤◌, Bool, ◌≡◌, refl, List, [], ◌∷◌, arith, inl, inr, ok, ◌>>=◌,
}
use cs621_network_programmin.Link.Channel.{Channel}
use cs621_network_programmin.Link.Channel.Laws.{Connects}
use cs621_network_programmin.Link.Device.{Device}
use cs621_network_programmin.Link.Device.Setup.{new_device, install}
use cs621_network_programmin.Link.Timed.{Simulation, Move, ticks, waits, sends, run, handed}
use cs621_network_programmin.Link.Timed.Runs.{Carries, Reaches, run-history, Delivers}
use cs621_network_programmin.Link.Timed.Spacing.{Paced, latest}
use cs621_network_programmin.Link.Timed.Rates.{at_rate, earliest, cost_of_later, install-Paced}
use cs621_network_programmin.Link.Timed.Start.{start, attached, start-Inv, install-Delivers}
use cs621_network_programmin.Link.Sample.{net, wire, wire-Connects, idle_device}

-- Two packets, a pause in which nothing can happen, the end of the first transmission, and two more.
abbrev traffic : List (Move (List ℕ))
traffic =
    sends (1 ∷ []) 0x0800
    ∷ sends (2 ∷ []) 0x86dd
    ∷ waits 20
    ∷ ticks
    ∷ sends (3 ∷ []) 0x4021
    ∷ sends (4 ∷ []) 0x0800
    ∷ []

traffic-Carries : Carries traffic
traffic-Carries = (inl refl, (inr (inl refl), (inr (inr refl), (inl refl, tt))))

run-history_example :
    Reaches net wire 0 1
      (λ d. d)
      wire-Connects
      traffic
      (start net (attached net 1_000_000 0 []) (attached net 1_000_000 0 []))
run-history_example =
    run-history net wire 0 1 (λ d. d) wire-Connects traffic
      (start net (attached net 1_000_000 0 []) (attached net 1_000_000 0 []))
      (start-Inv net wire 1 1_000_000 0 [] [] refl) traffic-Carries

install-Delivers_example :
    (c : Channel) × (da : Device net) × (db : Device net) × (k : Connects c 0 1) × (install net
        10_000_000 0 1
        (new_device net 1_000_000 0 [])
        (new_device net 1_000_000 0 [])
      ≡ ok (c, da, db))
    × Delivers net c 0 1 (λ d. d) k traffic (start net da db)
install-Delivers_example =
    install-Delivers net 10_000_000 0 1 1_000_000 0 [] [] (λ d. d) traffic (omega arith) refl
      traffic-Carries

install-Paced_example :
    (c : Channel) × (da : Device net) × (db : Device net) × (s : Simulation net) × (answers : List
      Bool)
    × (install net 10_000_000 0 1 (new_device net 1_000_000 0 []) (new_device net 1_000_000 0 [])
        ≡ ok (c, da, db))
    × (run net c 0 1 (λ d. d) traffic (start net da db) ≡ ok (s, answers))
    × Paced (at_rate net 1_000_000) s.arrived
    × (earliest s.arrived + cost_of_later (at_rate net 1_000_000) s.arrived ≤ latest s.arrived)
install-Paced_example =
    install-Paced net 10_000_000 0 1 1_000_000 0 [] [] (λ d. d) traffic (omega arith) refl
      traffic-Carries

-- Four packets are handed up after eight events, in order; the compressed one arrives as IPv4.
traffic_arrives :
    (run net wire 0 1 (λ d. d) traffic (start net idle_device idle_device) >>= λ r.
    run net wire 0 1 (λ d. d) (ticks ∷ ticks ∷ ticks ∷ ticks ∷ ticks ∷ ticks ∷ ticks ∷ []) r.0
    >>= λ r'. ok (handed net r'.0.receiver.log))
    ≡ ok ((1 ∷ [], 0x0800) ∷ (2 ∷ [], 0x86dd) ∷ (3 ∷ [], 0x0800) ∷ (4 ∷ [], 0x0800) ∷ [])
unfolding run cs621_network_programmin.Link.Device.send cs621_network_programmin.Link.Ppp.add_header
    cs621_network_programmin.Link.Ppp.ether_to_ppp
    cs621_network_programmin.Link.Channel.transmit_start
    cs621_network_programmin.Link.Device.transmit_complete
    cs621_network_programmin.Link.Device.receive cs621_network_programmin.Link.Ppp.process_header
    cs621_network_programmin.Link.Ppp.ppp_to_ether cs621_network_programmin.Link.Channel.get_device
traffic_arrives = refl
