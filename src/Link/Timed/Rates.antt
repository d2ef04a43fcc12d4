-- ===== src/Link/Timed/Rates.antt =====
-- How fast packets arrive at the end of a link.
use cs621_network_programmin.Common.{
  ℕ, ◌+◌, ◌≤◌, ◌≡◌, ◌≢◌, refl, ◌∙◌, Bool, List, [], ◌∷◌, arith, ok, inl,
}
use mathlib.Core.Path.{subst}
use cs621_network_programmin.Link.Ns3.{Ns3}
use cs621_network_programmin.Link.Channel.{Channel}
use cs621_network_programmin.Link.Channel.Laws.{Connects, attach-Joins}
use cs621_network_programmin.Link.Device.{Device, notify_link_up}
use cs621_network_programmin.Link.Device.Setup.{new_device, install, install-attach}
use cs621_network_programmin.Link.Timed.{Simulation, Move, run}
use cs621_network_programmin.Link.Timed.Spacing.{latest, Paced}
use cs621_network_programmin.Link.Timed.Runs.{Carries, run-history}
use cs621_network_programmin.Link.Timed.Start.{start, attached, start-Inv}

module _ {P : Type 0} where
  -- The time of the first arrival, and what the later packets cost together.
  abbrev pub earliest : List (ℕ × P) → ℕ
  earliest [] = 0
  earliest ((t, p) ∷ []) = t
  earliest ((t, p) ∷ m ∷ ms) = earliest (m ∷ ms)

  abbrev pub cost_of_later : (P → ℕ) → List (ℕ × P) → ℕ
  cost_of_later cost [] = 0
  cost_of_later cost ((t, p) ∷ []) = 0
  cost_of_later cost ((t, p) ∷ m ∷ ms) = cost p + cost_of_later cost (m ∷ ms)

  Paced-latest :
      (cost : P → ℕ) (ms : List (ℕ × P))
      → Paced cost ms
      → earliest ms + cost_of_later cost ms ≤ latest ms
  Paced-latest cost [] h = omega arith
  Paced-latest cost ((t, p) ∷ []) h = omega arith
  Paced-latest cost ((t, p) ∷ m ∷ ms) h = omega (arith, h.0, Paced-latest cost (m ∷ ms) h.1)

module _ (n : Ns3) where
  open n use {Packet, Queue, contents}

  -- The time of a packet on a wire of a data rate.
  abbrev pub at_rate : ℕ → Packet → ℕ
  at_rate bps q = n.bytes_tx_time bps (n.size q)

  attached-bps : (bps gap : ℕ) (q : Queue) → (attached n bps gap q).bps ≡ bps
  unfolding attached notify_link_up new_device
  attached-bps bps gap q = refl

  -- On the link that two different new devices of one data rate and gap make when they are installed
  -- on a new channel, the sender with an empty queue, packets arrive no faster than the data rate:
  -- after any run of events, waiting and calls of Send with protocols that the device carries, each
  -- packet has arrived at least its time on the wire after the one before it, and the time between
  -- the first arrival and the last is at least what all the packets but the first took on the wire.
  pub install-Paced :
      (delay a b bps gap : ℕ) (qa qb : Queue) (address : ℕ → ℕ) (ms : List (Move Packet))
      → a ≢ b
      → contents qa ≡ []
      → Carries ms
      → (c : Channel) × (da : Device n) × (db : Device n) × (s : Simulation n) × (answers : List
          Bool)
        × (install n delay a b (new_device n bps gap qa) (new_device n bps gap qb) ≡ ok (c, da, db))
        × (run n c a b address ms (start n da db) ≡ ok (s, answers))
        × Paced (at_rate bps) s.arrived
        × (earliest s.arrived + cost_of_later (at_rate bps) s.arrived ≤ latest s.arrived)
  install-Paced delay a b bps gap qa qb address ms d e h =
      let (c, joined, joins, _, _) = attach-Joins delay a b in
      let k : Connects c a b = record { ends = inl joins; apart = d } in
      let (s, answers, ran, v, told, rate) =
        run-history n c a b address k ms _ (start-Inv n c b bps gap qa qb e) h in
      let same : (s.sender.bps ≡ bps) = rate ∙ attached-bps bps gap qa in
      let paced : Paced (at_rate bps) s.arrived =
        subst (λ (r : ℕ). Paced (at_rate r) s.arrived) same v.paced in
      (
        c,
        attached n bps gap qa,
        attached n bps gap qb,
        s,
        answers,
        unfold attached in install-attach n delay a b _ _ c joined,
        ran,
        paced,
        Paced-latest (at_rate bps) s.arrived paced,
      )
