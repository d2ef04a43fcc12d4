-- ===== src/Detection/Experiment.antt =====
-- examples/routing/cs621-dev01.cc: the two clients of the experiment, from what is configured to the
-- verdict. What lies between the clients and the server is not fixed: a path delays packets.
mod Tests
use cs621_network_programmin.Common.{
  ℕ, zero, suc, ◌+◌, ◌-◌, ◌*◌, ◌^◌, ◌≤◌, ◌<◌, ◌≡◌, refl, sym, ap, ◌⊎◌, inl, inr, ◌∙◌, Bool, true,
  false, Option, none, some, List, [], ◌∷◌, arith, Checked, ok,
}
use cs621_network_programmin.Common.Integers.{pos, distance}
use cs621_network_programmin.Detection.Client.{Memory, Client, Packet, new, set_fill_random, create}
use cs621_network_programmin.Detection.Client.Payload.{
  IsReady, fill_random, packet_size, set_up_all, set_up_all-IsReady, new-IsReady, Creates,
  create-Creates,
}
use cs621_network_programmin.Detection.Client.Train.{Log, train, repeated, train-repeated}
use cs621_network_programmin.Detection.Detector.{Flow, detect, duration}
use cs621_network_programmin.Detection.Detector.Verdict.{is_detected, durations}
use cs621_network_programmin.Detection.Detector.Bounds.{InOrder, span, detect-far, detect-near}

-- Seconds (0.01), and the clients' Start and Stop, in nanoseconds
abbrev pub inter_packet_interval : ℕ
inter_packet_interval = 10_000_000

abbrev pub client_start : ℕ
client_start = 2_000_000_000

abbrev pub client_stop : ℕ
client_stop = 65_000_000_000

-- The first client, with no payload of its own, and the second, with a random one.
unfoldable pub client : (max_packet_count packet_size : ℕ) → Client
client max_packet_count packet_size = new max_packet_count inter_packet_interval packet_size

unfoldable pub client2 : (fresh random stack : Memory) → (max_packet_count packet_size : ℕ) → Client
client2 fresh random stack max_packet_count packet_size =
    set_fill_random fresh random stack true packet_size
      (new max_packet_count inter_packet_interval packet_size)

-- What a client sends.
abbrev pub sent : Client → Checked Log
sent c = train c.count client_stop client_start c

-- A client of the experiment sends its whole train.
abbrev pub SendsAll : ℕ → ℕ → Client → Type 0
SendsAll n size c =
    (p : Packet) × (sent c ≡ ok (some (repeated n client_start inter_packet_interval p)))
    × (packet_size p ≡ size)

-- A client with the attributes of the experiment that is ready sends all.
ready-SendsAll :
    (n size : ℕ) (c : Client)
    → 0 < n
    → n ≤ 6300
    → IsReady c
    → c.count ≡ n
    → c.interval ≡ inter_packet_interval
    → c.size ≡ size
    → c.sent ≡ 0
    → SendsAll n size c
ready-SendsAll n size c any few v counts spaced sized fresh =
    let (p, e, s) = create-Creates c v in
    let trained =
      train-repeated c.count client_start client_stop c p e fresh (omega arith) (omega arith)
        (omega arith) (rw (spaced, counts) (omega arith)) in
    (p, rw (sym counts, sym spaced) trained, s ∙ sized)

client-SendsAll : (n size : ℕ) → 0 < n → n ≤ 6300 → SendsAll n size (client n size)
unfolding client new
client-SendsAll n size any few =
    ready-SendsAll n size (client n size) any few (new-IsReady n inter_packet_interval size) refl
      refl refl refl

client2-SendsAll :
    (fresh random stack : Memory) (n size : ℕ)
    → 0 < n
    → n ≤ 6300
    → SendsAll n size (client2 fresh random stack n size)
unfolding client2 new set_fill_random set_up_all
client2-SendsAll fresh random stack n size any few =
    ready-SendsAll n size (client2 fresh random stack n size) any few
      (set_up_all-IsReady (fill_random fresh random stack true size ∷ [])
        (new n inter_packet_interval size) (new-IsReady n inter_packet_interval size))
      refl refl refl refl

-- If MaxPackets is at least one and at most 6300, which is what fits between second 2 and second 65
-- at one packet each 10 ms, both clients of the experiment send their whole trains: MaxPackets equal
-- packets of the configured size, the first at second 2 and each later one 10 ms after the one
-- before.
pub clients-SendsAll :
    (fresh random stack : Memory) (n size : ℕ)
    → 0 < n
    → n ≤ 6300
    → SendsAll n size (client n size) × SendsAll n size (client2 fresh random stack n size)
clients-SendsAll fresh random stack n size any few =
    (client-SendsAll n size any few, client2-SendsAll fresh random stack n size any few)

abbrev first_time : List (ℕ × Packet) → ℕ
first_time [] = 0
first_time ((t, p) ∷ ms) = t

abbrev last_time : List (ℕ × Packet) → ℕ
last_time [] = 0
last_time ((t, p) ∷ []) = t
last_time ((t, p) ∷ m ∷ ms) = last_time (m ∷ ms)

-- The flow of what a client sent, on a path that delays its first packet by `delay`, and its last by
-- `growth` more.
pub record Crosses (c : Client) (delay growth : ℕ) (f : Flow) : Type 0 where
  pub log : List (ℕ × Packet)
  pub sends : sent c ≡ ok (some log)
  pub first : f.time_first_rx ≡ first_time log + delay
  pub last : f.time_last_rx ≡ last_time log + delay + growth

last_time-repeated :
    (n t interval : ℕ) (p : Packet) → last_time (repeated (suc n) t interval p) ≡ t + n * interval
last_time-repeated zero t interval p = omega arith
last_time-repeated (suc n) t interval p =
    last_time-repeated n (t + interval) interval p ∙ omega arith

-- The time that a train that is sent whole takes at the receiver.
Crosses-span :
    (n size delay growth : ℕ) (c : Client) (f : Flow)
    → 0 < n
    → SendsAll n size c
    → Crosses c delay growth f
    → InOrder f × (span f ≡ (n - 1) * inter_packet_interval + growth)
Crosses-span zero size delay growth c f any (p, e, s) x = absurd (omega (arith, any))
Crosses-span (suc n) size delay growth c f any (p, e, s) x =
    let sends = x.sends in
    let log : (x.log ≡ repeated (suc n) client_start inter_packet_interval p) = cc in
    let first : (f.time_first_rx ≡ client_start + delay) =
      x.first ∙ ap (λ l. first_time l + delay) log in
    let last : (f.time_last_rx ≡ client_start + n * inter_packet_interval + delay + growth) =
      x.last
      ∙ ap (λ l. last_time l + delay + growth) log
      ∙ ap (λ (t : ℕ). t + delay + growth)
          (last_time-repeated n client_start inter_packet_interval p) in
    (omega (arith, first, last), omega (arith, first, last))

-- The flows of the experiment: those that the detector takes for trains are exactly two, one of each
-- client, in either order.
pub record Observed (fresh random stack : Memory) (n size : ℕ) (g1 g2 : ℕ) (fs : List Flow)
    : Type 0 where
  pub low : Flow
  pub high : Flow
  pub delay1 : ℕ
  pub delay2 : ℕ
  pub crosses1 : Crosses (client n size) delay1 g1 low
  pub crosses2 : Crosses (client2 fresh random stack n size) delay2 g2 high
  pub trains :
      (durations fs ≡ duration low ∷ duration high ∷ [])
      ⊎ (durations fs ≡ duration high ∷ duration low ∷ [])

-- Both trains arrive in order, and last longer by what the path adds to the last packet's delay.
spans :
    (fresh random stack : Memory) (n size g1 g2 : ℕ) (fs : List Flow)
    → 0 < n
    → n ≤ 6300
    → (o : Observed fresh random stack n size g1 g2 fs)
    → InOrder o.low × InOrder o.high × (distance (span o.low) (span o.high) ≡ distance g1 g2)
spans fresh random stack n size g1 g2 fs any few o =
    let (a, s1) =
      Crosses-span n size o.delay1 g1 (client n size) o.low any (client-SendsAll n size any few)
        o.crosses1 in
    let (b, s2) =
      Crosses-span n size o.delay2 g2 (client2 fresh random stack n size) o.high any
        (client2-SendsAll fresh random stack n size any few) o.crosses2 in
    (a, b, omega (arith, s1, s2))

distance_sym : (m n : ℕ) → distance m n ≡ distance n m
distance_sym m n = omega arith

-- With at least one and at most 6300 packets per train, one each 10 ms, and with exactly two trains
-- among the flows, one of each client and in either order, the experiment detects compression if the
-- path lets the last packets of the two trains fall behind the first ones by amounts that differ by
-- at least two milliseconds more than the threshold. The delays of the first packets and the packet
-- size do not matter.
pub detect-congested :
    (fresh random stack : Memory) (n size threshold g1 g2 : ℕ) (fs : List Flow)
    → 0 < n
    → n ≤ 6300
    → Observed fresh random stack n size g1 g2 fs
    → (threshold + 2) * 1000000 ≤ distance g1 g2
    → is_detected (detect (pos threshold) fs) ≡ true
detect-congested fresh random stack n size threshold g1 g2 fs any few o far =
    let (a, b, apart) = spans fresh random stack n size g1 g2 fs any few o in
    let flipped : (distance (span o.high) (span o.low) ≡ distance g1 g2) =
      distance_sym _ _ ∙ apart in
    elim o.trains [
      | inl e ↦ detect-far threshold fs o.low o.high e a b (rw apart far)
      | inr e ↦ detect-far threshold fs o.high o.low e b a (rw flipped far)
    ]

-- With at least one and at most 6300 packets per train, one each 10 ms, and with exactly two trains
-- among the flows, one of each client and in either order, the experiment does not detect compression
-- if the path lets the last packets of the two trains fall behind the first ones by amounts that
-- differ by at least one millisecond less than the threshold, as on a path that delays all packets
-- alike, whatever the packets hold.
pub detect-uncongested :
    (fresh random stack : Memory) (n size threshold g1 g2 : ℕ) (fs : List Flow)
    → 0 < n
    → n ≤ 6300
    → Observed fresh random stack n size g1 g2 fs
    → distance g1 g2 + 1000000 ≤ threshold * 1000000
    → is_detected (detect (pos threshold) fs) ≡ false
detect-uncongested fresh random stack n size threshold g1 g2 fs any few o near =
    let (a, b, apart) = spans fresh random stack n size g1 g2 fs any few o in
    let flipped : (distance (span o.high) (span o.low) ≡ distance g1 g2) =
      distance_sym _ _ ∙ apart in
    elim o.trains [
      | inl e ↦ detect-near threshold fs o.low o.high e a b (rw apart near)
      | inr e ↦ detect-near threshold fs o.high o.low e b a (rw flipped near)
    ]
