-- ===== src/Link/Timed/Begin.antt =====
-- What a simulation keeps, and what the beginning of a transmission does to its events.
use cs621_network_programmin.Common.{
  ℕ, ◌+◌, ◌≤◌, ◌≡◌, refl, true, Option, some, List, [], ◌∷◌, ◌++◌, arith, ok, ◌∙◌, ap, All,
  All-append, map, map-append, append_assoc,
}
use cs621_network_programmin.Link.Ns3.{Ns3}
use cs621_network_programmin.Link.Ppp.{process_header}
use cs621_network_programmin.Link.Channel.{Channel}
use cs621_network_programmin.Link.Channel.Laws.{Connects}
use cs621_network_programmin.Link.Device.{TxState, ready, busy, Device}
use cs621_network_programmin.Link.Device.Steps.{started}
use cs621_network_programmin.Link.Timed.{Simulation, pipeline, absorb, schedule_all}
use cs621_network_programmin.Link.Timed.Events.{
  Event, completion, arrival, insert, schedule-insert, arrivals, completion_times, InOrder,
  ArriveBy, ArriveBy-mono, insert-InOrder, insert-ArriveBy, insert_completion-ArriveBy,
  arrivals-insert, arrivals-insert_completion, completion_times-insert,
  completion_times-insert_completion,
}
use cs621_network_programmin.Link.Timed.Spacing.{
  SpacedFrom, latest, Paced, insert-SpacedFrom, insert_completion-SpacedFrom,
}

-- An idle sender is free, has no completion due and holds no packet; the one completion of a busy
-- sender comes at the time at which it will be free.
abbrev pub Phase :
    {P : Type 0} → TxState → Option P → List P → (free now : ℕ) → (due : List ℕ) → Type 0
Phase ready current waiting free now due = (free ≤ now) × (due ≡ []) × (waiting ≡ [])
Phase {P} busy current waiting free now due = (due ≡ free ∷ []) × ((p : P) × (current ≡ some p))

-- A packet that the receiver can take the header off.
abbrev pub Opens : (n : Ns3) → n.Packet → Type 0
Opens n q = (x : n.Packet × ℕ) × (process_header n q ≡ ok x)

-- The time that a packet takes on the sender's wire.
abbrev pub tx_time : (n : Ns3) → Device n → n.Packet → ℕ
tx_time n d q = n.bytes_tx_time d.bps (n.size q)

module _ (n : Ns3) (c : Channel) (other : ℕ) where
  open n use {Packet, contents}

  pub record Inv (s : Simulation n) : Type 0 where
    pub free : ℕ
    pub in_order : InOrder s.now s.events
    pub phase :
        Phase s.sender.tx_state s.sender.current_pkt
          (contents s.sender.queue)
          free
          s.now
          (completion_times s.events)
    pub arrive : ArriveBy (free + c.delay) s.events
    pub up : s.sender.link_up ≡ true
    pub addressed : All (λ a. a.0 ≡ other) (arrivals s.events)
    pub opens : All (Opens n) (pipeline n s)
    -- what arrived last, and that packets arrive no faster than the sender's data rate
    pub before : latest s.arrived ≤ free + c.delay
    pub spaced : SpacedFrom (tx_time n s.sender) (latest s.arrived) s.events
    pub paced : Paced (tx_time n s.sender) s.arrived

  -- The events after a transmission of `q` that began at `now` and takes `tx`.
  abbrev pub began : (now tx gap : ℕ) → Packet → List (ℕ × Event Packet) → List (ℕ × Event Packet)
  began now tx gap q es =
      n.schedule (Event Packet) (now + (tx + c.delay)) (arrival other q)
        (n.schedule (Event Packet) (now + (tx + gap)) completion es)

  began-insert :
      (now tx gap : ℕ) (q : Packet) (es : List (ℕ × Event Packet))
      → InOrder now es
      → began now tx gap q es
        ≡ insert (now + (tx + c.delay)) (arrival other q) (insert (now + (tx + gap)) completion es)
  began-insert now tx gap q es o =
      let inner = schedule-insert n now (now + (tx + gap)) completion es o in
      let in_order = insert-InOrder now (now + (tx + gap)) completion es (omega arith) o in
      ap (n.schedule (Event Packet) (now + (tx + c.delay)) (arrival other q)) inner
      ∙ schedule-insert n now (now + (tx + c.delay)) (arrival other q) _ in_order

  module _ (free now tx gap : ℕ) (q : Packet) (es : List (ℕ × Event Packet)) (idle : free ≤ now)
      (o : InOrder now es) (none_due : completion_times es ≡ [])
      (by : ArriveBy (free + c.delay) es) where
    pub began-InOrder : InOrder now (began now tx gap q es)
    began-InOrder = rw (began-insert now tx gap q es o) (
        insert-InOrder now (now + (tx + c.delay)) (arrival other q) _ (omega arith)
          (insert-InOrder now (now + (tx + gap)) completion es (omega arith) o))

    pub began-due : completion_times (began now tx gap q es) ≡ (now + (tx + gap)) ∷ []
    began-due = rw (began-insert now tx gap q es o) (
        completion_times-insert (now + (tx + c.delay)) other q _
        ∙ completion_times-insert_completion (now + (tx + gap)) es none_due)

    pub began-ArriveBy : ArriveBy (now + (tx + gap) + c.delay) (began now tx gap q es)
    began-ArriveBy = rw (began-insert now tx gap q es o) (
        insert-ArriveBy _ (now + (tx + c.delay)) other q _ (omega arith) (
          insert_completion-ArriveBy _ (now + (tx + gap)) es
            (ArriveBy-mono (free + c.delay) _ es (omega arith) by)))

    pub began-SpacedFrom :
        (cost : Packet → ℕ) (from : ℕ)
        → from ≤ free + c.delay
        → cost q ≡ tx
        → SpacedFrom cost from es
        → SpacedFrom cost from (began now tx gap q es)
    began-SpacedFrom cost from le same h = rw (began-insert now tx gap q es o) (
        insert-SpacedFrom cost from (free + c.delay) (now + (tx + c.delay)) other q now _
          (insert-InOrder now (now + (tx + gap)) completion es (omega arith) o)
          (insert_completion-ArriveBy _ (now + (tx + gap)) es by) le (omega (arith, same))
          (insert_completion-SpacedFrom cost from (now + (tx + gap)) es h))

    pub began-arrivals : arrivals (began now tx gap q es) ≡ arrivals es ++ (other, q) ∷ []
    began-arrivals = rw (began-insert now tx gap q es o) (
        arrivals-insert now (now + (tx + c.delay)) other q _
          (insert-InOrder now (now + (tx + gap)) completion es (omega arith) o)
          (insert_completion-ArriveBy _ (now + (tx + gap)) es
            (ArriveBy-mono (free + c.delay) _ es (omega arith) by))
        ∙ rw (arrivals-insert_completion (now + (tx + gap)) es) refl)

pub idle-Phase :
    {P : Type 0} (state : TxState) (current : Option P) (waiting : List P) (free now : ℕ)
    (due : List ℕ)
    → state ≡ ready
    → Phase state current waiting free now due
    → (free ≤ now) × (due ≡ []) × (waiting ≡ [])
idle-Phase state current waiting free now due b h = rw b at h

pub later-Phase :
    {P : Type 0} (state : TxState) (current : Option P) (waiting : List P) (free now later : ℕ)
    (due : List ℕ)
    → now ≤ later
    → Phase state current waiting free now due
    → Phase state current waiting free later due
later-Phase ready current waiting free now later due le h = (omega (arith, h.0), h.1, h.2)
later-Phase busy current waiting free now later due le h = h

pub busy-Phase :
    {P : Type 0} (state : TxState) (current : Option P) (waiting : List P) (free now : ℕ)
    (due : List ℕ)
    → state ≡ busy
    → Phase state current waiting free now due
    → (due ≡ free ∷ []) × ((p : P) × (current ≡ some p))
busy-Phase state current waiting free now due b h = rw b at h

module _ (n : Ns3) (c : Channel) (self other : ℕ) (k : Connects c self other) where
  open n use {Packet, contents}

  -- The sender, free since `free`, begins to transmit `q`, and keeps `rest` in the queue.
  pub begun-Inv :
      (s : Simulation n) (q : Packet) (d : Device n) (free : ℕ) (rest : List Packet)
      → free ≤ s.now
      → InOrder s.now s.events
      → completion_times s.events ≡ []
      → ArriveBy (free + c.delay) s.events
      → All (λ a. a.0 ≡ other) (arrivals s.events)
      → d.link_up ≡ true
      → contents d.queue ≡ rest
      → schedule_all n s.now (started n c self other k q d).log s.events
        ≡ began n c other s.now (n.bytes_tx_time d.bps (n.size q)) d.interframe_gap q s.events
      → All (Opens n) (map (λ a. a.1) (arrivals s.events) ++ q ∷ rest)
      → latest s.arrived ≤ free + c.delay
      → SpacedFrom (tx_time n d) (latest s.arrived) s.events
      → Paced (tx_time n d) s.arrived
      → Inv n c other (absorb n (started n c self other k q d) s)
        × (pipeline n (absorb n (started n c self other k q d) s)
            ≡ map (λ a. a.1) (arrivals s.events) ++ q ∷ rest)
  begun-Inv s q d free rest idle o due by to up left e good before spaced paced =
      let tx : ℕ = n.bytes_tx_time d.bps (n.size q) in
      let arrived =
        began-arrivals n c other free s.now tx d.interframe_gap q s.events idle o due by in
      let longer : (pipeline n (absorb n (started n c self other k q d) s)
          ≡ map (λ a. a.1) (arrivals s.events) ++ q ∷ rest) =
        rw (e, arrived, left, map-append, append_assoc) refl in
      (
        record {
          free = s.now + (tx + d.interframe_gap);
          in_order =
              rw e
                (began-InOrder n c other free s.now tx d.interframe_gap q s.events idle o due by);
          phase = (
            rw e (began-due n c other free s.now tx d.interframe_gap q s.events idle o due by),
            (q, refl),
          );
          arrive =
              rw e
                (began-ArriveBy n c other free s.now tx d.interframe_gap q s.events idle o due by);
          up = up;
          addressed =
              rw (e, arrived) (All-append _ (arrivals s.events) ((other, q) ∷ []) to (refl, tt));
          opens = rw longer good;
          before = omega (arith, before);
          spaced = rw e (
              began-SpacedFrom n c other free s.now tx d.interframe_gap q s.events idle o due by
                (tx_time n d) (latest s.arrived) before refl spaced);
          paced = paced;
        },
        longer,
      )
