-- ===== src/Link/Device/Runs.antt =====
-- The transmit side of a device over any run of calls.
use cs621_network_programmin.Common.{
  ℕ, ◌≡◌, refl, Bool, true, false, List, [], ◌∷◌, ◌++◌, ltb, if◌then◌else◌, append_assoc,
  append-nil, arith, Checked, ok, abort, ◌>>=◌, Bool-cases, inl, inr, ap, ◌∙◌, ltb→lt,
}
use cs621_network_programmin.Link.Ns3.{Ns3}
use cs621_network_programmin.Link.Ppp.{add_header}
use cs621_network_programmin.Link.Ppp.Laws.{Carried, add_header-ok}
use cs621_network_programmin.Link.Channel.{Channel}
use cs621_network_programmin.Link.Channel.Laws.{Connects}
use cs621_network_programmin.Link.Device.{busy, Device, transmit_complete, send}
use cs621_network_programmin.Link.Device.Logs.{scheduled, completed}
use cs621_network_programmin.Link.Device.Steps.{
  Inv, taken, running, TxState-cases, Sends, send-Sends,
}
use cs621_network_programmin.Link.Device.Completes.{Completes, transmit_complete-Completes}

-- What the simulator calls on the transmit side of a device.
pub data Call (P : Type 0) : Type 0 where
  sends : P → (protocol : ℕ) → Call P
  completes : Call P

module _ (n : Ns3) where
  open n use {Packet}

  -- A scheduled completion that has not come yet.
  abbrev is_due : Device n → Bool
  is_due d = ltb (completed d.log) (scheduled d.log)

  -- The simulator's run: a completion is called only where one was scheduled. The answers of the
  -- calls of Send are kept, in order.
  unfoldable pub run : Channel → ℕ → List (Call Packet) → Device n → Checked (Device n × List Bool)
  run c self [] d = ok (d, [])
  run c self (sends p proto ∷ calls) d = do
    (answer, d') ← send n c self p proto d
    (last, answers) ← run c self calls d'
    ok (last, answer ∷ answers)
  run c self (completes ∷ calls) d =
      let now = (do d' ← transmit_complete n c self d; run c self calls d') in
      let later = run c self calls d in if is_due d then now else later

  abbrev framed : Checked Packet → List Packet
  framed (ok q) = q ∷ []
  framed abort = []

  -- The framed packets of the calls of Send that were answered with true.
  abbrev pub accepted : List (Call Packet) → List Bool → List Packet
  accepted (sends p proto ∷ calls) (true ∷ answers) =
      framed (add_header n p proto) ++ accepted calls answers
  accepted (sends p proto ∷ calls) (false ∷ answers) = accepted calls answers
  accepted (completes ∷ calls) answers = accepted calls answers
  accepted calls answers = []

  -- Each call of Send has a protocol that the device carries.
  abbrev pub Carries : List (Call Packet) → Type 0
  Carries [] = Unit
  Carries (sends p proto ∷ calls) = Carried proto × Carries calls
  Carries (completes ∷ calls) = Carries calls

  accepted-cons :
      (p q : Packet) (proto : ℕ) (calls : List (Call Packet)) (r : Bool) (answers : List Bool)
      → add_header n p proto ≡ ok q
      → accepted (sends p proto ∷ calls) (r ∷ answers)
        ≡ (if r then q ∷ [] else []) ++ accepted calls answers
  accepted-cons p q proto calls true answers h = rw h
  accepted-cons p q proto calls false answers h = refl

  module _ (c : Channel) (self other : ℕ) (k : Connects c self other) where
    -- The result of a run of calls.
    abbrev pub Runs : List (Call Packet) → Device n → Type 0
    Runs calls d =
        (d' : Device n) × (answers : List Bool) × (run c self calls d ≡ ok (d', answers))
        × Inv n d'
        × (taken n d' ≡ taken n d ++ accepted calls answers)

    send-Runs :
        (p q : Packet) (proto : ℕ) (calls : List (Call Packet)) (d : Device n)
        → add_header n p proto ≡ ok q
        → Sends n c self other k d q (send n c self p proto d)
        → ((d' : Device n) → Inv n d' → d'.link_up ≡ d.link_up → Runs calls d')
        → Runs (sends p proto ∷ calls) d
    unfolding run
    send-Runs p q proto calls d h (r, d1, e1, v1, up1, t1) later =
        let (d2, answers, e2, v2, t2) = later d1 v1 up1 in
        (
          d2,
          r ∷ answers,
          rw (e1, e2),
          v2,
          rw (t2, t1, append_assoc, ← accepted-cons p q proto calls r answers h),
        )

    complete-Runs :
        (calls : List (Call Packet)) (d : Device n)
        → Completes n c self other k d (transmit_complete n c self d)
        → is_due d ≡ true
        → ((d' : Device n) → Inv n d' → d'.link_up ≡ d.link_up → Runs calls d')
        → Runs (completes ∷ calls) d
    unfolding run
    complete-Runs calls d (d1, e1, v1, up1, t1) due later =
        let (d2, answers, e2, v2, t2) = later d1 v1 up1 in
        (d2, answers, rw (due, e1, e2), v2, rw (t2, t1))

    skip-Runs :
        (calls : List (Call Packet)) (d : Device n)
        → is_due d ≡ false
        → Runs calls d
        → Runs (completes ∷ calls) d
    unfolding run
    skip-Runs calls d due (d2, answers, e2, v2, t2) = (d2, answers, rw (due, e2), v2, t2)

    busy_when_due : (d : Device n) → Inv n d → is_due d ≡ true → d.tx_state ≡ busy
    busy_when_due d v h = elim (TxState-cases d.tx_state) [
      | inl e ↦ absurd (omega (arith, v.due, ap running e, ltb→lt _ _ h))
      | inr e ↦ e
    ]

    -- On a link that is up, from a device that holds what its state says, every run of Send with
    -- known protocols and of completions as they were scheduled ends without a failed assertion and
    -- keeps that. The packets begun, in order, followed by those that wait in the queue, are the
    -- packets that were there before followed by those that Send answered with true, in the order
    -- of the calls: none is lost, repeated or overtaken.
    pub run-fifo :
        (calls : List (Call Packet)) (d : Device n)
        → Inv n d
        → d.link_up ≡ true
        → Carries calls
        → Runs calls d
    run-fifo [] d v up h = (d, [], unfold run in refl, v, rw append-nil)
    run-fifo (sends p proto ∷ calls) d v up h =
        let (q, e) = add_header-ok n p proto h.0 in
        send-Runs p q proto calls d e (send-Sends n c self other k d p q proto v up e)
          λ d' v' up'. run-fifo calls d' v' (up' ∙ up) h.1
    run-fifo (completes ∷ calls) d v up h = elim (Bool-cases (is_due d)) [
      | inl due ↦
          complete-Runs calls d
            (transmit_complete-Completes n c self other k d v (busy_when_due d v due)) due
            λ d' v' up'. run-fifo calls d' v' (up' ∙ up) h
      | inr none_due ↦ skip-Runs calls d none_due (run-fifo calls d v up h)
    ]
