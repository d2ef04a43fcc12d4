-- ===== src/Detection/Experiment/Tests.antt =====
-- The experiment with a train of three packets, on a path that delays them.
use cs621_network_programmin.Common.{ℕ, ◌+◌, ◌≡◌, refl, true, false, [], ◌∷◌, arith, inl}
use cs621_network_programmin.Common.Integers.{pos}
use cs621_network_programmin.Detection.Client.{Memory}
use cs621_network_programmin.Detection.Client.Train.{repeated}
use cs621_network_programmin.Detection.Detector.{Flow, detect, duration, ipv4, is_train}
use cs621_network_programmin.Detection.Detector.Verdict.{is_detected, durations}
use cs621_network_programmin.Detection.Experiment.{
  client, client2, client_start, inter_packet_interval, SendsAll, clients-SendsAll, Crosses,
  Observed, detect-congested, detect-uncongested,
}

abbrev zeroes : Memory
zeroes i = 0

clients-SendsAll_example :
    SendsAll 6000 1100 (client 6000 1100)
    × SendsAll 6000 1100 (client2 zeroes zeroes zeroes 6000 1100)
clients-SendsAll_example =
    clients-SendsAll zeroes zeroes zeroes 6000 1100 (omega arith) (omega arith)

-- A train of three packets whose last one falls behind by `growth`.
abbrev flow_of : (growth : ℕ) → Flow
flow_of growth = record {
  source = ipv4 10 1 1 1;
  destination = ipv4 10 1 3 2;
  time_first_rx = 2_000_000_000 + 30_000_000;
  time_last_rx = 2_020_000_000 + 30_000_000 + growth;
}

client-Crosses : (growth : ℕ) → Crosses (client 3 1100) 30_000_000 growth (flow_of growth)
client-Crosses growth =
    let ((p, e, s), _) = clients-SendsAll zeroes zeroes zeroes 3 1100 (omega arith) (omega arith) in
    record {
      log = repeated 3 client_start inter_packet_interval p;
      sends = e;
      first = refl;
      last = refl;
    }

client2-Crosses :
    (growth : ℕ) → Crosses (client2 zeroes zeroes zeroes 3 1100) 30_000_000 growth (flow_of growth)
client2-Crosses growth =
    let (_, (p, e, s)) = clients-SendsAll zeroes zeroes zeroes 3 1100 (omega arith) (omega arith) in
    record {
      log = repeated 3 client_start inter_packet_interval p;
      sends = e;
      first = refl;
      last = refl;
    }

observed-flows :
    (g1 g2 : ℕ)
    → durations (flow_of g1 ∷ flow_of g2 ∷ []) ≡ duration (flow_of g1) ∷ duration (flow_of g2) ∷ []
unfolding durations is_train
observed-flows g1 g2 = refl

three-Observed :
    (g1 g2 : ℕ) → Observed zeroes zeroes zeroes 3 1100 g1 g2 (flow_of g1 ∷ flow_of g2 ∷ [])
three-Observed g1 g2 = record {
  low = flow_of g1;
  high = flow_of g2;
  delay1 = 30_000_000;
  delay2 = 30_000_000;
  crosses1 = client-Crosses g1;
  crosses2 = client2-Crosses g2;
  trains = inl (observed-flows g1 g2);
}

detect-congested_example :
    is_detected (detect (pos 100) (flow_of 0 ∷ flow_of 150_000_000 ∷ [])) ≡ true
detect-congested_example =
    detect-congested zeroes zeroes zeroes 3 1100 100 0 150_000_000 _ (omega arith) (omega arith)
      (three-Observed 0 150_000_000) (omega arith)

detect-uncongested_example : is_detected (detect (pos 100) (flow_of 0 ∷ flow_of 0 ∷ [])) ≡ false
detect-uncongested_example =
    detect-uncongested zeroes zeroes zeroes 3 1100 100 0 0 _ (omega arith) (omega arith)
      (three-Observed 0 0) (omega arith)
