-- ===== src/Link/Timed/Start.antt =====
-- The link from its installation on.
use cs621_network_programmin.Common.{ℕ, ◌≡◌, ◌≢◌, refl, List, [], arith, ok, inl}
use cs621_network_programmin.Link.Ns3.{Ns3}
use cs621_network_programmin.Link.Channel.{Channel}
use cs621_network_programmin.Link.Channel.Laws.{Connects, attach-Joins}
use cs621_network_programmin.Link.Device.{Device, notify_link_up}
use cs621_network_programmin.Link.Device.Setup.{new_device, install, install-attach}
use cs621_network_programmin.Link.Timed.{Simulation, Move}
use cs621_network_programmin.Link.Timed.Begin.{Inv}
use cs621_network_programmin.Link.Timed.Runs.{Carries, Delivers, run-Delivers}

module _ (n : Ns3) where
  open n use {Packet, Queue, contents}

  abbrev pub start : Device n → Device n → Simulation n
  start sender receiver = record {
    now = 0;
    sender = sender;
    receiver = receiver;
    events = [];
    arrived = [];
  }

  unfoldable pub attached : (bps gap : ℕ) → Queue → Device n
  attached bps gap q = notify_link_up n (new_device n bps gap q)

  pub start-Inv :
      (c : Channel) (other bps gap : ℕ) (qa qb : Queue)
      → contents qa ≡ []
      → Inv n c other (start (attached bps gap qa) (attached bps gap qb))
  unfolding attached notify_link_up new_device
  start-Inv c other bps gap qa qb e = record {
    free = 0;
    in_order = tt;
    phase = (omega arith, refl, e);
    arrive = tt;
    up = refl;
    addressed = tt;
    opens = rw e tt;
    before = omega arith;
    spaced = tt;
    paced = tt;
  }

  start-Delivers :
      (c : Channel) (self other : ℕ) (address : ℕ → ℕ) (k : Connects c self other) (bps gap : ℕ)
      (qa qb : Queue) (ms : List (Move Packet))
      → contents qa ≡ []
      → Carries ms
      → Delivers n c self other address k ms (start (attached bps gap qa) (attached bps gap qb))
  unfolding attached notify_link_up new_device
  start-Delivers c self other address k bps gap qa qb ms e h =
      run-Delivers n c self other address k ms _ (start-Inv c other bps gap qa qb e) h (rw e refl)
        refl

  -- Two different new devices of one data rate and gap that are installed on a new channel, the sender with an empty queue,
  -- make a link that loses nothing but what Send refuses: after any run of events, waiting and calls
  -- of Send with protocols that the device carries, and then as many events as its weight says, the
  -- receiver has handed up all the packets that Send took on, once each and in the order of the
  -- calls, with the protocols under which they arrive, and nothing is on the way. No assertion fails.
  pub install-Delivers :
      (delay a b bps gap : ℕ) (qa qb : Queue) (address : ℕ → ℕ) (ms : List (Move Packet))
      (d : a ≢ b)
      → contents qa ≡ []
      → Carries ms
      → (c : Channel) × (da : Device n) × (db : Device n) × (k : Connects c a b) × (install n delay
            a b
            (new_device n bps gap qa)
            (new_device n bps gap qb)
          ≡ ok (c, da, db))
        × Delivers n c a b address k ms (start da db)
  install-Delivers delay a b bps gap qa qb address ms d e h =
      let (c, joined, joins, _, _) = attach-Joins delay a b in
      let k : Connects c a b = record { ends = inl joins; apart = d } in
      (
        c,
        attached bps gap qa,
        attached bps gap qb,
        k,
        unfold attached in install-attach n delay a b _ _ c joined,
        start-Delivers c a b address k bps gap qa qb ms e h,
      )
