-- ===== src/Link/Device/Completes.antt =====
-- One call of TransmitComplete: what a device keeps, and what becomes of the packets.
use cs621_network_programmin.Common.{
  ℕ, ◌≡◌, refl, ap, none, some, List, [], ◌∷◌, ◌++◌, append_assoc, append-nil, arith, Checked, ok,
  ◌>>=◌,
}
use cs621_network_programmin.Link.Ns3.{Ns3}
use cs621_network_programmin.Link.Channel.{Channel}
use cs621_network_programmin.Link.Channel.Laws.{Connects}
use cs621_network_programmin.Link.Device.{
  ready, busy, phy_tx_end, Device, transmit_complete, emit, transmit_next, end_current, sniffer,
  promisc_sniffer,
}
use cs621_network_programmin.Link.Device.Logs.{
  scheduled, completed, begun-append, scheduled-append, completed-append,
}
use cs621_network_programmin.Link.Device.Steps.{
  running, Inv, taken, started, started-Inv, transmit_start-started,
}

module _ (n : Ns3) (c : Channel) (self other : ℕ) (k : Connects c self other) where
  open n use {Packet, contents, dequeue}

  -- The device at the end of a transmission, with what Dequeue left.
  abbrev pub ended : Packet → Device n → Device n
  ended p d = record d {
    tx_state = ready;
    current_pkt = none;
    queue = (dequeue d.queue).1;
    log = d.log ++ (phy_tx_end p ∷ []);
  }

  pub transmit_complete-next :
      (p : Packet) (d : Device n)
      → d.tx_state ≡ busy
      → d.current_pkt ≡ some p
      → transmit_complete n c self d
        ≡ (transmit_next n c self (dequeue d.queue).0 (ended p d) >>= λ r. ok r.1)
  unfolding transmit_complete end_current
  transmit_complete-next p d b cur = rw (b, cur)

  ended-due :
      (p : Packet) (d : Device n)
      → d.tx_state ≡ busy
      → Inv n d
      → scheduled (ended p d).log ≡ completed (ended p d).log
  ended-due p d b v = simp (scheduled-append, completed-append) (omega (arith, v.due, ap running b))

  -- The result of TransmitComplete on a busy device: it ends, keeps the invariant, and neither
  -- loses nor adds a packet.
  abbrev pub Completes : Device n → Checked (Device n) → Type 0
  Completes d run =
      (d' : Device n) × (run ≡ ok d')
      × Inv n d'
      × (d'.link_up ≡ d.link_up)
      × (taken n d' ≡ taken n d)

  complete-Completes :
      (p : Packet) (d : Device n) (waiting : List Packet)
      → d.tx_state ≡ busy
      → Inv n d
      → contents d.queue ≡ waiting
      → Completes d (transmit_next n c self (dequeue d.queue).0 (ended p d) >>= λ r. ok r.1)
  unfolding transmit_next
  complete-Completes p d [] b v e =
      let (taken_off, left) = n.dequeue-nil d.queue e in
      (
        ended p d,
        rw taken_off,
        record { holds = (refl, left); due = omega (arith, ended-due p d b v) },
        refl,
        simp (begun-append, append-nil, left, e),
      )
  complete-Completes p d (q ∷ qs) b v e =
      let (taken_off, left) = n.dequeue-cons d.queue q qs e in
      let d' : Device n = emit n (sniffer q ∷ promisc_sniffer q ∷ []) (ended p d) in
      (
        started n c self other k q d',
        rw taken_off (rw (transmit_start-started n c self other k q d' refl)),
        started-Inv n c self other k q d'
            (simp (scheduled-append, completed-append) (omega (arith, v.due, ap running b))),
        refl,
        simp (begun-append, append-nil, append_assoc, left, e),
      )

  pub transmit_complete-Completes :
      (d : Device n) → Inv n d → d.tx_state ≡ busy → Completes d (transmit_complete n c self d)
  transmit_complete-Completes d v b =
      let (p, cur) : ((p : Packet) × (d.current_pkt ≡ some p)) = rw b at v.holds in
      rw (transmit_complete-next p d b cur) (complete-Completes p d _ b v refl)
