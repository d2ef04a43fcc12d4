-- ===== src/Link/Device/Steps.antt =====
-- One call of Send: what a device keeps, and what becomes of the packets.
use cs621_network_programmin.Common.{
  ℕ, ◌+◌, ◌≡◌, refl, ap, ◌∙◌, ◌⊎◌, inl, inr, Bool, true, false, Option, none, some, List, [], ◌∷◌,
  ◌++◌, append_assoc, append-nil, arith, if◌then◌else◌, Checked, ok,
}
use cs621_network_programmin.Link.Ns3.{Ns3}
use cs621_network_programmin.Link.Ppp.{add_header}
use cs621_network_programmin.Link.Channel.{Channel}
use cs621_network_programmin.Link.Channel.Laws.{Connects, transmit_start-Connects}
use cs621_network_programmin.Link.Device.{
  TxState, ready, busy, mac_tx, phy_tx_begin, schedule_complete, Device, transmit_start, send,
  schedule_receive, after_enqueue, transmit_dequeued, emit, is_ready, transmit_next, mac_tx_drop,
  sniffer, promisc_sniffer,
}
use cs621_network_programmin.Link.Device.Logs.{
  begun, scheduled, completed, begun-append, scheduled-append, completed-append,
}

abbrev pub running : TxState → ℕ
running ready = 0
running busy = 1

pub TxState-cases : (s : TxState) → (s ≡ ready) ⊎ (s ≡ busy)
TxState-cases ready = inl refl
TxState-cases busy = inr refl

-- An idle device holds no packet at all, a busy one the packet that is on the wire.
abbrev pub Holds {ℓ} : {A : Type ℓ} → TxState → Option A → List A → Type ℓ
Holds ready current waiting = (current ≡ none) × (waiting ≡ [])
Holds {A} busy current waiting = (p : A) × (current ≡ some p)

module _ (n : Ns3) where
  open n use {Packet, contents, enqueue, dequeue}

  -- The device holds what its state says, and as many completions are due as packets are on the
  -- wire: one if it is busy, none if it is idle.
  pub record Inv (d : Device n) : Type 0 where
    pub holds : Holds d.tx_state d.current_pkt (contents d.queue)
    pub due : scheduled d.log ≡ completed d.log + running d.tx_state

  -- The packets that the device has taken on: those begun and those that wait.
  abbrev pub taken : Device n → List Packet
  taken d = begun d.log ++ contents d.queue

  module _ (c : Channel) (self other : ℕ) (k : Connects c self other) where
    -- The device with a transmission begun.
    abbrev pub started : Packet → Device n → Device n
    started p d =
        let tx_time = n.bytes_tx_time d.bps (n.size p) in
        record d {
          tx_state = busy;
          current_pkt = some p;
          log =
              ((d.log ++ (phy_tx_begin p ∷ []))
                ++ (schedule_complete (tx_time + d.interframe_gap) ∷ []))
              ++ (schedule_receive (record { device = other; after = tx_time + c.delay }) p ∷ []);
        }

    pub transmit_start-started :
        (p : Packet) (d : Device n)
        → d.tx_state ≡ ready
        → transmit_start n c self p d ≡ ok (true, started p d)
    unfolding transmit_start
    transmit_start-started p d e = rw (e, transmit_start-Connects c self other _ k)

    -- What a begun transmission adds to a log on which nothing is due.
    pub started-Inv :
        (p : Packet) (d : Device n) → scheduled d.log ≡ completed d.log → Inv (started p d)
    started-Inv p d h = record {
      holds = (p, refl);
      due = simp (scheduled-append, completed-append) (omega arith);
    }

    taken-started :
        (p : Packet) (d : Device n) → taken (started p d) ≡ begun d.log ++ (p ∷ contents d.queue)
    taken-started p d = simp (begun-append, append-nil, append_assoc)

    -- The result of a call of Send with the framed packet `q`: it ends, keeps the invariant, and
    -- takes on `q`, at the end, exactly when it returns true.
    abbrev pub Sends : Device n → Packet → Checked (Bool × Device n) → Type 0
    Sends d q run =
        (r : Bool) × (d' : Device n) × (run ≡ ok (r, d'))
        × Inv d'
        × (d'.link_up ≡ d.link_up)
        × (taken d' ≡ taken d ++ (if r then q ∷ [] else []))

    -- The device of Send, with the header put on, after Enqueue.
    abbrev pub enqueued : Packet → n.Queue → Device n → Device n
    enqueued q queue d = record d { queue = queue; log = d.log ++ (mac_tx q ∷ []) }

    send-refused :
        (d : Device n) (q : Packet) (queue : n.Queue)
        → Inv d
        → contents queue ≡ contents d.queue
        → Sends d q (after_enqueue n c self q false (enqueued q queue d))
    unfolding after_enqueue
    send-refused d q queue v e = (
      false,
      emit n (mac_tx_drop q ∷ []) (enqueued q queue d),
      refl,
      record {
        holds = rw e v.holds;
        due = simp (scheduled-append, completed-append) (omega (arith, v.due));
      },
      refl,
      simp (begun-append, append-nil, append_assoc, e),
    )

    send-queued :
        (d : Device n) (q : Packet) (queue : n.Queue)
        → d.tx_state ≡ busy
        → Inv d
        → contents queue ≡ contents d.queue ++ q ∷ []
        → Sends d q (after_enqueue n c self q true (enqueued q queue d))
    unfolding after_enqueue
    send-queued d q queue b v e = (
      true,
      enqueued q queue d,
      rw b,
      record {
        holds = rw b (rw b at v.holds);
        due = simp (scheduled-append, completed-append) (omega (arith, v.due));
      },
      refl,
      simp (begun-append, append-nil, append_assoc, e),
    )

    -- An idle sender begins at once with what it takes off the queue.
    pub after_enqueue-ready :
        (d : Device n) (q : Packet) (queue : n.Queue)
        → d.tx_state ≡ ready
        → (dequeue queue).0 ≡ some q
        → after_enqueue n c self q true (enqueued q queue d)
          ≡ ok (
            true,
            started q
                (emit n (sniffer q ∷ promisc_sniffer q ∷ []) (enqueued q (dequeue queue).1 d)),
          )
    unfolding after_enqueue transmit_dequeued
    after_enqueue-ready d q queue b taken_off =
        let at_once : Checked (Bool × Device n) =
          transmit_dequeued n c self (dequeue queue).0 (enqueued q (dequeue queue).1 d) in
        ap (λ s. if is_ready s then at_once else ok (true, enqueued q queue d)) b
        ∙ ap (λ o. transmit_dequeued n c self o (enqueued q (dequeue queue).1 d)) taken_off
        ∙ transmit_start-started q
            (emit n (sniffer q ∷ promisc_sniffer q ∷ []) (enqueued q (dequeue queue).1 d)) b

    pub after_enqueue-busy :
        (d : Device n) (q : Packet) (queue : n.Queue)
        → d.tx_state ≡ busy
        → after_enqueue n c self q true (enqueued q queue d) ≡ ok (true, enqueued q queue d)
    unfolding after_enqueue
    after_enqueue-busy d q queue b = rw b

    pub after_enqueue-refused :
        (d : Device n) (q : Packet) (queue : n.Queue)
        → after_enqueue n c self q false (enqueued q queue d)
          ≡ ok (false, emit n (mac_tx_drop q ∷ []) (enqueued q queue d))
    unfolding after_enqueue
    after_enqueue-refused d q queue = refl

    pub transmit_next-some :
        (d : Device n) (q : Packet)
        → d.tx_state ≡ ready
        → transmit_next n c self (some q) d
          ≡ ok (true, started q (emit n (sniffer q ∷ promisc_sniffer q ∷ []) d))
    unfolding transmit_next
    transmit_next-some d q b =
        transmit_start-started q (emit n (sniffer q ∷ promisc_sniffer q ∷ []) d) b

    pub transmit_next-none : (d : Device n) → transmit_next n c self none d ≡ ok (true, d)
    unfolding transmit_next
    transmit_next-none d = refl

    send-begun :
        (d : Device n) (q : Packet) (queue : n.Queue)
        → d.tx_state ≡ ready
        → Inv d
        → contents queue ≡ contents d.queue ++ q ∷ []
        → Sends d q (after_enqueue n c self q true (enqueued q queue d))
    send-begun d q queue b v e =
        let nothing_waits : (contents d.queue ≡ []) = (rw b at v.holds).1 in
        let one_waits : (contents queue ≡ q ∷ []) = rw nothing_waits at e in
        let (taken_off, left) = n.dequeue-cons queue q [] one_waits in
        let d' : Device n =
          emit n (sniffer q ∷ promisc_sniffer q ∷ []) (enqueued q (dequeue queue).1 d) in
        let idle : (scheduled d'.log ≡ completed d'.log) =
          simp (scheduled-append, completed-append) (omega (arith, v.due, ap running b)) in
        (
          true,
          started q d',
          after_enqueue-ready d q queue b taken_off,
          started-Inv q d' idle,
          refl,
          simp (begun-append, append-nil, append_assoc, left, nothing_waits),
        )

    send-answered :
        (d : Device n) (q : Packet) (r : Bool)
        → Inv d
        → (enqueue d.queue q).0 ≡ r
        → Sends d q (after_enqueue n c self q r (enqueued q (enqueue d.queue q).1 d))
    send-answered d q false v e = send-refused d q _ v (n.enqueue-refuses d.queue q e)
    send-answered d q true v e = elim (TxState-cases d.tx_state) [
      | inl b ↦ send-begun d q _ b v (n.enqueue-accepts d.queue q e)
      | inr b ↦ send-queued d q _ b v (n.enqueue-accepts d.queue q e)
    ]

    pub send-enqueue :
        (d : Device n) (p q : Packet) (proto : ℕ)
        → d.link_up ≡ true
        → add_header n p proto ≡ ok q
        → send n c self p proto d
          ≡ after_enqueue n c self q (enqueue d.queue q).0 (enqueued q (enqueue d.queue q).1 d)
    unfolding send
    send-enqueue d p q proto up h = rw (up, h)

    -- A call of Send on a link that is up, with a protocol that the device carries.
    pub send-Sends :
        (d : Device n) (p q : Packet) (proto : ℕ)
        → Inv d
        → d.link_up ≡ true
        → add_header n p proto ≡ ok q
        → Sends d q (send n c self p proto d)
    send-Sends d p q proto v up h = rw (send-enqueue d p q proto up h) (send-answered d q _ v refl)
