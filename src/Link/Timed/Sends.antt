-- ===== src/Link/Timed/Sends.antt =====
-- A call of Send in a simulation.
use cs621_network_programmin.Common.{
  ℕ, ◌≡◌, refl, ◌∙◌, inl, inr, Bool, true, false, List, [], ◌∷◌, ◌++◌, map, append_assoc,
  append-nil, All-append, if◌then◌else◌, Checked, ok,
}
use cs621_network_programmin.Link.Ns3.{Ns3}
use cs621_network_programmin.Link.Ppp.{add_header}
use cs621_network_programmin.Link.Ppp.Laws.{process_header-add_header}
use cs621_network_programmin.Link.Channel.{Channel}
use cs621_network_programmin.Link.Channel.Laws.{Connects}
use cs621_network_programmin.Link.Device.{
  ready, busy, Device, send, emit, mac_tx_drop, sniffer, promisc_sniffer, after_enqueue,
}
use cs621_network_programmin.Link.Device.Steps.{
  TxState-cases, enqueued, started, send-enqueue, after_enqueue-ready, after_enqueue-busy,
  after_enqueue-refused,
}
use cs621_network_programmin.Link.Timed.{Simulation, absorb, fresh_log, pipeline}
use cs621_network_programmin.Link.Timed.Events.{arrivals}
use cs621_network_programmin.Link.Timed.Begin.{Opens, Inv, idle-Phase, begun-Inv}

module _ (n : Ns3) (c : Channel) (self other : ℕ) (k : Connects c self other) where
  open n use {Packet, Queue, contents, enqueue, dequeue}

  -- The simulation after a call on the sender keeps the invariant, and its pipeline has `more` at
  -- the end.
  abbrev pub Extends : Simulation n → List Packet → Device n → Type 0
  Extends s more d =
      Inv n c other (absorb n d s)
      × (pipeline n (absorb n d s) ≡ pipeline n s ++ more)
      × (d.bps ≡ s.sender.bps)

  refused-Extends :
      (s : Simulation n) (q : Packet) (queue : Queue)
      → Inv n c other s
      → contents queue ≡ contents s.sender.queue
      → Extends s []
          (emit n (mac_tx_drop q ∷ []) (enqueued n c self other k q queue (fresh_log n s.sender)))
  refused-Extends s q queue v e = (
    record {
      free = v.free;
      in_order = v.in_order;
      phase = rw e v.phase;
      arrive = v.arrive;
      up = v.up;
      addressed = v.addressed;
      opens = rw e v.opens;
      before = v.before;
      spaced = v.spaced;
      paced = v.paced;
    },
    rw (e, append-nil),
    refl,
  )

  queued-Extends :
      (s : Simulation n) (q : Packet) (queue : Queue)
      → Inv n c other s
      → Opens n q
      → s.sender.tx_state ≡ busy
      → contents queue ≡ contents s.sender.queue ++ q ∷ []
      → Extends s (q ∷ []) (enqueued n c self other k q queue (fresh_log n s.sender))
  queued-Extends s q queue v good b e =
      let longer : (map (λ a. a.1) (arrivals s.events) ++ contents queue ≡ pipeline n s ++ q ∷ []) =
        rw (e, append_assoc) in
      (
        record {
          free = v.free;
          in_order = v.in_order;
          phase = rw b (rw b at v.phase);
          arrive = v.arrive;
          up = v.up;
          addressed = v.addressed;
          opens = rw longer (All-append _ (pipeline n s) (q ∷ []) v.opens (good, tt));
          before = v.before;
          spaced = v.spaced;
          paced = v.paced;
        },
        longer,
        refl,
      )

  -- A call of Send that begins to transmit at once.
  begun-Extends :
      (s : Simulation n) (q : Packet) (queue : Queue)
      → Inv n c other s
      → Opens n q
      → s.sender.tx_state ≡ ready
      → contents (dequeue queue).1 ≡ []
      → Extends s (q ∷ []) (
          started n c self other k q (
            emit n
              (sniffer q ∷ promisc_sniffer q ∷ [])
              (enqueued n c self other k q (dequeue queue).1 (fresh_log n s.sender))))
  begun-Extends s q queue v good b left =
      let (free, due, waiting) = idle-Phase _ _ _ v.free _ _ b v.phase in
      let arrived : List Packet = map (λ a. a.1) (arrivals s.events) in
      let (inv, same) =
        begun-Inv n c self other k s q
          (emit n (sniffer q ∷ promisc_sniffer q ∷ [])
            (enqueued n c self other k q (dequeue queue).1 (fresh_log n s.sender)))
          v.free [] free v.in_order due v.arrive v.addressed v.up left refl
          (All-append _ arrived (q ∷ []) (rw (waiting, append-nil) at v.opens) (good, tt)) v.before
          v.spaced v.paced in
      (inv, same ∙ rw (waiting, append-nil) refl, refl)

  -- What a call of Send with the framed packet `q` comes to.
  abbrev pub Answers : Simulation n → Packet → Checked (Bool × Device n) → Type 0
  Answers s q called =
      (r : Bool) × (d : Device n) × (called ≡ ok (r, d)) × Extends s (if r then q ∷ [] else []) d

  idle-Answers :
      (s : Simulation n) (q : Packet) (queue : Queue)
      → Inv n c other s
      → Opens n q
      → s.sender.tx_state ≡ ready
      → contents queue ≡ contents s.sender.queue ++ q ∷ []
      → Answers s q
          (after_enqueue n c self q true (enqueued n c self other k q queue (fresh_log n s.sender)))
  idle-Answers s q queue v good b e =
      let (free, due, waiting) = idle-Phase _ _ _ v.free _ _ b v.phase in
      let (taken_off, left) = n.dequeue-cons queue q [] (rw waiting at e) in
      (
        true,
        _,
        after_enqueue-ready n c self other k (fresh_log n s.sender) q queue b taken_off,
        begun-Extends s q queue v good b left,
      )

  enqueued-Answers :
      (s : Simulation n) (q : Packet) (r : Bool)
      → Inv n c other s
      → Opens n q
      → (enqueue s.sender.queue q).0 ≡ r
      → Answers s q (
          after_enqueue n c self q r
            (enqueued n c self other k q (enqueue s.sender.queue q).1 (fresh_log n s.sender)))
  enqueued-Answers s q false v good e = (
    false,
    _,
    after_enqueue-refused n c self other k (fresh_log n s.sender) q _,
    refused-Extends s q _ v (n.enqueue-refuses s.sender.queue q e),
  )
  enqueued-Answers s q true v good e = elim (TxState-cases s.sender.tx_state) [
    | inl b ↦ idle-Answers s q _ v good b (n.enqueue-accepts s.sender.queue q e)
    | inr b ↦ (
      true,
      _,
      after_enqueue-busy n c self other k (fresh_log n s.sender) q _ b,
      queued-Extends s q _ v good b (n.enqueue-accepts s.sender.queue q e),
    )
  ]

  -- A call of Send with a protocol that the device carries.
  pub sends-Answers :
      (s : Simulation n) (p q : Packet) (proto : ℕ)
      → Inv n c other s
      → add_header n p proto ≡ ok q
      → Answers s q (send n c self p proto (fresh_log n s.sender))
  sends-Answers s p q proto v h =
      let good : Opens n q = (_, (process_header-add_header n p q proto h).0) in
      rw (send-enqueue n c self other k (fresh_log n s.sender) p q proto v.up h)
        (enqueued-Answers s q _ v good refl)
