-- ===== src/Link/Timed.antt =====
-- One direction of a link in time: a device that sends, a device that receives, and the events that
-- their calls have scheduled. The scheduler is ns-3's and not part of the repository: `schedule` of
-- Link/Ns3, which keeps the events to come in the order in which they will run.
pub mod Events
pub mod Spacing
pub mod Begin
pub mod Sends
pub mod Ticks
pub mod Runs
pub mod Start
pub mod Rates
mod Tests
use cs621_network_programmin.Common.{
  ℕ, ◌+◌, Bool, true, false, List, [], ◌∷◌, ◌++◌, leb, ◌&&◌, ◌==◌, if◌then◌else◌, Checked, ok,
  abort, ◌>>=◌, map,
}
use cs621_network_programmin.Link.Ns3.{Ns3}
use cs621_network_programmin.Link.Ppp.{process_header}
use cs621_network_programmin.Link.Channel.{Channel}
use cs621_network_programmin.Link.Device.{
  Device, Effect, schedule_complete, schedule_receive, rx_callback, send, receive,
  transmit_complete,
}
use cs621_network_programmin.Link.Timed.Events.{Event, completion, arrival, arrivals}

-- What an environment does: the next event comes, time goes by, Send is called.
pub data Move (P : Type 0) : Type 0 where
  ticks : Move P
  waits : (until : ℕ) → Move P
  sends : P → (protocol : ℕ) → Move P

module _ (n : Ns3) where
  open n use {Packet, contents}

  -- `events` is in the order in which they will run.
  pub record Simulation : Type 0 where
    pub now : ℕ
    pub sender : Device n
    pub receiver : Device n
    pub events : List (ℕ × Event Packet)
    -- what has arrived so far and when, the latest first
    pub arrived : List (ℕ × Packet)

  -- The events that a call's effects schedule, at the time `now`.
  abbrev pub schedule_all :
      ℕ → List (Effect Packet) → List (ℕ × Event Packet) → List (ℕ × Event Packet)
  schedule_all now [] es = es
  schedule_all now (schedule_complete after ∷ effects) es =
      schedule_all now effects (n.schedule (Event Packet) (now + after) completion es)
  schedule_all now (schedule_receive delivery p ∷ effects) es =
      schedule_all now effects
        (n.schedule (Event Packet) (now + delivery.after) (arrival delivery.device p) es)
  schedule_all now (effect ∷ effects) es = schedule_all now effects es

  -- After a call on the sender that left `d`, on an empty log.
  abbrev pub absorb : Device n → Simulation → Simulation
  absorb d s = record s {
    sender = record d { log = s.sender.log ++ d.log };
    events = schedule_all s.now d.log s.events;
  }

  abbrev pub fresh_log : Device n → Device n
  fresh_log d = record d { log = [] }

  -- The packets handed up to the protocol stack, with their protocols, in order.
  abbrev pub handed : List (Effect Packet) → List (Packet × ℕ)
  handed [] = []
  handed (rx_callback p protocol remote ∷ effects) = (p, protocol) ∷ handed effects
  handed (effect ∷ effects) = handed effects

  -- The packets between the two protocol stacks, the next one to arrive first.
  abbrev pub pipeline : Simulation → List Packet
  pipeline s = map (λ a. a.1) (arrivals s.events) ++ contents s.sender.queue

  -- `self` is the sender's number on the channel and `other` the receiver's.
  module _ (c : Channel) (self other : ℕ) (address : ℕ → ℕ) where
    unfoldable pub handle : Event Packet → Simulation → Checked Simulation
    handle completion s = do d ← transmit_complete n c self (fresh_log s.sender); ok (absorb d s)
    handle (arrival device p) s =
        if device == other
        then (do
          d ← receive n c other address false p s.receiver
          ok (record s { receiver = d; arrived = (s.now, p) ∷ s.arrived }))
        else abort

    -- The next event comes, if there is one.
    unfoldable pub tick : List (ℕ × Event Packet) → Simulation → Checked Simulation
    unfolding handle
    tick [] s = ok s
    tick ((t, e) ∷ es) s = handle e (record s { now = t; events = es })

    -- The time up to which nothing happens on the link.
    abbrev quiet_until : ℕ → List (ℕ × Event Packet) → Bool
    quiet_until until [] = true
    quiet_until until ((t, e) ∷ es) = leb until t

    -- The state after a move, and the answer of Send if it was called.
    unfoldable pub move : Move Packet → Simulation → Checked (Simulation × List Bool)
    unfolding tick
    move ticks s = do s' ← tick s.events s; ok (s', [])
    move (waits until) s =
        if leb s.now until && quiet_until until s.events
        then ok (record s { now = until }, [])
        else ok (s, [])
    move (sends p protocol) s = do
      (answer, d) ← send n c self p protocol (fresh_log s.sender)
      ok (absorb d s, answer ∷ [])

    unfoldable pub run : List (Move Packet) → Simulation → Checked (Simulation × List Bool)
    unfolding move
    run [] s = ok (s, [])
    run (m ∷ ms) s = do
      (s', answers) ← move m s
      (last, later) ← run ms s'
      ok (last, answers ++ later)
