-- ===== src/Link/Timed/Ticks.antt =====
-- The next event of a simulation: the end of a transmission, or the arrival of a packet.
use cs621_network_programmin.Common.{
  ℕ, ◌+◌, ◌-◌, ◌*◌, ◌≤◌, ◌≡◌, refl, ap, ◌∙◌, inl, inr, Bool, true, false, some, List, [], ◌∷◌, ◌++◌,
  map, map-append, append_assoc, arith, Checked, ok, ◌>>=◌, length, length-append, ==_iff,
}
use cs621_network_programmin.Link.Ns3.{Ns3}
use cs621_network_programmin.Link.Ppp.{process_header}
use cs621_network_programmin.Link.Channel.{Channel}
use cs621_network_programmin.Link.Channel.Laws.{Connects, Connects-sym}
use cs621_network_programmin.Link.Device.{
  busy, Device, Effect, rx_callback, emit, sniffer, promisc_sniffer, transmit_next,
}
use cs621_network_programmin.Link.Device.Steps.{
  TxState-cases, started, transmit_next-some, transmit_next-none,
}
use cs621_network_programmin.Link.Device.Completes.{ended, transmit_complete-next}
use cs621_network_programmin.Link.Device.Laws.{seen, receive-process_header}
use cs621_network_programmin.Link.Timed.{
  Simulation, absorb, fresh_log, pipeline, handed, handle, tick,
}
use cs621_network_programmin.Link.Timed.Events.{
  Event, completion, arrival, arrivals, completion_times,
}
use cs621_network_programmin.Link.Timed.Begin.{
  Inv, idle-Phase, later-Phase, busy-Phase, begun-Inv, began-arrivals, began-due,
}

module _ (n : Ns3) where
  open n use {Packet, Queue, contents, dequeue}

  -- All that has been taken on for the receiver: what was handed up, and what is on the way.
  abbrev pub history : Simulation n → List (Checked (Packet × ℕ))
  history s = map ok (handed n s.receiver.log) ++ map (process_header n) (pipeline n s)

  -- How many events it takes until the link is quiet.
  abbrev pub weight : Simulation n → ℕ
  weight s =
      length (arrivals s.events)
      + length (completion_times s.events)
      + 2 * length (contents s.sender.queue)

  handed-append : (es fs : List (Effect Packet)) → handed n (es ++ fs) ≡ handed n es ++ handed n fs
  handed-append [] fs = refl
  handed-append (rx_callback p protocol remote ∷ es) fs = rw (handed-append es fs)
  handed-append (e ∷ es) fs = handed-append es fs

  handed-seen :
      (promisc : Bool) (q p : Packet) (protocol remote : ℕ)
      → handed n (seen n promisc q p protocol remote) ≡ (p, protocol) ∷ []
  handed-seen true q p protocol remote = refl
  handed-seen false q p protocol remote = refl

  module _ (c : Channel) (self other : ℕ) (address : ℕ → ℕ) (k : Connects c self other) where
    -- What becomes of a simulation with the next event.
    abbrev pub Advances : Simulation n → Checked (Simulation n) → Type 0
    Advances s called =
        (s' : Simulation n) × (called ≡ ok s')
        × Inv n c other s'
        × (history s' ≡ history s)
        × (weight s' ≡ weight s - 1)
        × (s.now ≤ s'.now)
        × (s'.sender.bps ≡ s.sender.bps)

    abbrev at_event : Simulation n → ℕ → Event Packet → List (ℕ × Event Packet) → Simulation n
    at_event s t e es = record s { events = (t, e) ∷ es }

    -- The transmission that ends is the one due.
    completes_busy :
        (s : Simulation n) (t : ℕ) (es : List (ℕ × Event Packet))
        → (v : Inv n c other (at_event s t completion es))
        → (s.sender.tx_state ≡ busy)
          × (t ≡ v.free)
          × (completion_times es ≡ [])
          × ((p : Packet) × (s.sender.current_pkt ≡ some p))
    completes_busy s t es v = elim (TxState-cases s.sender.tx_state) [
      | inl b ↦ absurd (cc ((idle-Phase _ _ _ v.free _ _ b v.phase).1))
      | inr b ↦ (let (due, current) = busy-Phase _ _ _ v.free _ _ b v.phase in (b, cc, cc, current))
    ]

    -- The first packet on the way is handed up.
    arrived-history :
        (s : Simulation n) (t : ℕ) (q : Packet) (x : Packet × ℕ) (es : List (ℕ × Event Packet))
        → process_header n q ≡ ok x
        → map ok (handed n s.receiver.log ++ x ∷ [])
            ++ map (process_header n) (map (λ a. a.1) (arrivals es) ++ contents s.sender.queue)
          ≡ history (at_event s t (arrival other q) es)
    arrived-history s t q x es h = simp (map-append, append_assoc, h)

    arrives-Advances :
        (s : Simulation n) (t device : ℕ) (q : Packet) (es : List (ℕ × Event Packet))
        → Inv n c other (at_event s t (arrival device q) es)
        → Advances
            (at_event s t (arrival device q) es)
            (handle n c self other address (arrival device q) (record s { now = t; events = es }))
    unfolding handle
    arrives-Advances s t device q es v =
        let ((p, proto), h) = v.opens.0 in
        let received =
          receive-process_header n c other self address p q proto s.receiver
            (Connects-sym c self other k) h in
        let log = seen n s.receiver.promisc q p proto (address self) in
        let up : (handed n (s.receiver.log ++ log) ≡ handed n s.receiver.log ++ (p, proto) ∷ []) =
          handed-append s.receiver.log log
          ∙ ap (λ l. handed n s.receiver.log ++ l)
              (handed-seen s.receiver.promisc q p proto (address self)) in
        (
          record s {
            now = t;
            events = es;
            receiver = emit n log s.receiver;
            arrived = (t, q) ∷ s.arrived;
          },
          rw ((==_iff device other).1 v.addressed.0, received) refl,
          record {
            free = v.free;
            in_order = v.in_order.1;
            phase = later-Phase _ _ _ v.free s.now t _ v.in_order.0 v.phase;
            arrive = v.arrive.1;
            up = v.up;
            addressed = v.addressed.1;
            opens = v.opens.1;
            before = v.arrive.0;
            spaced = v.spaced.1;
            paced = (v.spaced.0, v.paced);
          },
          rw up (arrived-history s t q (p, proto) es h),
          omega arith,
          v.in_order.0,
          refl,
        )

    -- The end of a transmission, with what waits in the queue.
    ends-Advances :
        (s : Simulation n) (t : ℕ) (p : Packet) (es : List (ℕ × Event Packet))
        (waiting : List Packet)
        → (v : Inv n c other (at_event s t completion es)) → t ≡ v.free
        → completion_times es ≡ []
        → contents s.sender.queue ≡ waiting
        → Advances (at_event s t completion es) (
            (transmit_next n c self
                (dequeue s.sender.queue).0
                (ended n c self other k p (fresh_log n s.sender))
              >>= λ r. ok r.1)
            >>= λ d. ok (absorb n d (record s { now = t; events = es })))
    ends-Advances s t p es [] v e none_due waiting =
        let (taken_off, left) = n.dequeue-nil s.sender.queue waiting in
        (
          absorb n (ended n c self other k p (fresh_log n s.sender))
              (record s { now = t; events = es }),
          rw
              (
                taken_off,
                transmit_next-none n c self other k
                    (ended n c self other k p (fresh_log n s.sender)),
              )
              refl,
          record {
            free = t;
            in_order = v.in_order.1;
            phase = (omega arith, none_due, left);
            arrive = rw e v.arrive;
            up = v.up;
            addressed = v.addressed;
            opens = rw left (rw waiting at v.opens);
            before = rw e v.before;
            spaced = v.spaced;
            paced = v.paced;
          },
          rw (left, waiting) refl,
          rw (left, none_due, waiting) (omega arith),
          v.in_order.0,
          refl,
        )
    ends-Advances s t p es (q ∷ qs) v e none_due waiting =
        let (taken_off, left) = n.dequeue-cons s.sender.queue q qs waiting in
        let d : Device n =
          emit n (sniffer q ∷ promisc_sniffer q ∷ [])
            (ended n c self other k p (fresh_log n s.sender)) in
        let (inv, same) =
          begun-Inv n c self other k (record s { now = t; events = es }) q d t qs (omega arith)
            v.in_order.1 none_due (rw e v.arrive) v.addressed v.up left refl (rw waiting at v.opens)
            (rw e v.before) v.spaced v.paced in
        let arrived =
          began-arrivals n c other t t (n.bytes_tx_time d.bps (n.size q)) d.interframe_gap q es
            (omega arith) v.in_order.1 none_due (rw e v.arrive) in
        let due =
          began-due n c other t t (n.bytes_tx_time d.bps (n.size q)) d.interframe_gap q es
            (omega arith) v.in_order.1 none_due (rw e v.arrive) in
        (
          absorb n (started n c self other k q d) (record s { now = t; events = es }),
          rw
              (
                taken_off,
                transmit_next-some n c self other k
                    (ended n c self other k p (fresh_log n s.sender)) q refl,
              )
              refl,
          inv,
          rw (same, waiting) refl,
          omega (
            arith,
            ap length arrived,
            ap length due,
            ap length left,
            ap length waiting,
            ap length none_due,
            length-append (arrivals es) ((other, q) ∷ []),
          ),
          v.in_order.0,
          refl,
        )

    completes-Advances :
        (s : Simulation n) (t : ℕ) (es : List (ℕ × Event Packet))
        → Inv n c other (at_event s t completion es)
        → Advances
            (at_event s t completion es)
            (handle n c self other address completion (record s { now = t; events = es }))
    unfolding handle
    completes-Advances s t es v =
        let (b, e, none_due, (p, current)) = completes_busy s t es v in
        rw (transmit_complete-next n c self other k p (fresh_log n s.sender) b current)
          (ends-Advances s t p es _ v e none_due refl)

    -- A link with no event to come holds no packet.
    quiet-waiting :
        (s : Simulation n) → Inv n c other (record s { events = [] }) → contents s.sender.queue ≡ []
    quiet-waiting s v = elim (TxState-cases s.sender.tx_state) [
      | inl b ↦ (idle-Phase _ _ _ v.free _ _ b v.phase).2
      | inr b ↦ absurd (cc ((busy-Phase _ _ _ v.free _ _ b v.phase).0))
    ]

    pub tick-Advances :
        (events : List (ℕ × Event Packet)) (s : Simulation n)
        → Inv n c other (record s { events = events })
        → Advances
            (record s { events = events })
            (tick n c self other address events (record s { events = events }))
    unfolding tick
    tick-Advances [] s v =
        let nothing = quiet-waiting s v in
        (record s { events = [] }, refl, v, refl, rw nothing (omega arith), omega arith, refl)
    tick-Advances ((t, completion) ∷ es) s v = completes-Advances s t es v
    tick-Advances ((t, arrival device q) ∷ es) s v = arrives-Advances s t device q es v
