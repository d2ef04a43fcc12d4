-- ===== src/Link/Timed/Runs.antt =====
-- A link over any run of moves: every packet that Send took on is handed up once, in order.
use cs621_network_programmin.Common.{
  ℕ, zero, suc, ◌+◌, ◌*◌, ◌≤◌, ◌≡◌, refl, sym, ◌∙◌, inl, inr, Bool, true, false, ◌&&◌, &&-parts,
  leb, leb→le, List, [], ◌∷◌, ◌++◌, map, map-append, append_assoc, append-nil, arith, if◌then◌else◌,
  Bool-cases, Checked, ok, length, replicate,
}
use cs621_network_programmin.Link.Ns3.{Ns3}
use cs621_network_programmin.Link.Ppp.{add_header, process_header}
use cs621_network_programmin.Link.Ppp.Laws.{
  Carried, delivered, add_header-ok, process_header-add_header,
}
use cs621_network_programmin.Link.Channel.{Channel}
use cs621_network_programmin.Link.Channel.Laws.{Connects}
use cs621_network_programmin.Link.Timed.{
  Simulation, absorb, pipeline, handed, Move, ticks, waits, sends, move, run, quiet_until,
}
use cs621_network_programmin.Link.Timed.Events.{Event, InOrder, arrivals}
use cs621_network_programmin.Link.Timed.Begin.{Inv, later-Phase}
use cs621_network_programmin.Link.Timed.Sends.{sends-Answers}
use cs621_network_programmin.Link.Timed.Ticks.{history, weight, tick-Advances}

module _ {P : Type 0} where
  -- Each call of Send has a protocol that the device carries.
  abbrev pub Carries : List (Move P) → Type 0
  Carries [] = Unit
  Carries (sends p proto ∷ ms) = Carried proto × Carries ms
  Carries (m ∷ ms) = Carries ms

  -- The packets that Send took on, by its answers, with the protocols under which they arrive.
  abbrev pub accepted : List (Move P) → List Bool → List (P × ℕ)
  accepted (sends p proto ∷ ms) (true ∷ answers) = (p, delivered proto) ∷ accepted ms answers
  accepted (sends p proto ∷ ms) (false ∷ answers) = accepted ms answers
  accepted (ticks ∷ ms) answers = accepted ms answers
  accepted (waits until ∷ ms) answers = accepted ms answers
  accepted ms answers = []

  nothing_left :
      (xs : List (ℕ × P)) (ys : List P) (due : ℕ)
      → length xs + due + 2 * length ys ≡ 0
      → map (λ a. a.1) xs ++ ys ≡ []
  nothing_left [] [] due e = refl
  nothing_left [] (y ∷ ys) due e = absurd (omega (arith, e))
  nothing_left (x ∷ xs) ys due e = absurd (omega (arith, e))

  map_ok-injective : (xs ys : List P) → map {B = Checked P} ok xs ≡ map ok ys → xs ≡ ys
  map_ok-injective [] [] e = refl
  map_ok-injective [] (y ∷ ys) e = cc
  map_ok-injective (x ∷ xs) [] e = cc
  map_ok-injective (x ∷ xs) (y ∷ ys) e =
      let head : (x ≡ y) = cc in
      let tail : (map {B = Checked P} ok xs ≡ map ok ys) = cc in
      rw (head, map_ok-injective xs ys tail) refl

module _ (n : Ns3) (c : Channel) (self other : ℕ) (address : ℕ → ℕ)
    (k : Connects c self other) where
  open n use {Packet, contents}

  -- What becomes of a simulation with some moves.
  abbrev pub Reaches : List (Move Packet) → Simulation n → Type 0
  Reaches ms s =
      (s' : Simulation n) × (answers : List Bool) × (run n c self other address ms s
        ≡ ok (s', answers))
      × Inv n c other s'
      × (history n s' ≡ history n s ++ map ok (accepted ms answers))
      × (s'.sender.bps ≡ s.sender.bps)

  quiet-InOrder :
      (from until : ℕ) (es : List (ℕ × Event Packet))
      → InOrder from es
      → quiet_until n c self other address until es ≡ true
      → InOrder until es
  quiet-InOrder from until [] o h = tt
  quiet-InOrder from until ((t, e) ∷ es) o h = (leb→le until t h, o.1)

  waits-Inv :
      (s : Simulation n) (until : ℕ)
      → Inv n c other s
      → s.now ≤ until
      → InOrder until s.events
      → Inv n c other (record s { now = until })
  waits-Inv s until v le o = record {
    free = v.free;
    in_order = o;
    phase = later-Phase _ _ _ v.free s.now until _ le v.phase;
    arrive = v.arrive;
    up = v.up;
    addressed = v.addressed;
    opens = v.opens;
    before = v.before;
    spaced = v.spaced;
    paced = v.paced;
  }

  ticks-Reaches :
      (ms : List (Move Packet)) (s : Simulation n)
      → Inv n c other s
      → ((s' : Simulation n) → Inv n c other s' → Reaches ms s')
      → Reaches (ticks ∷ ms) s
  unfolding run move
  ticks-Reaches ms s v later =
      let (s1, e1, v1, same, lighter, now, rate) =
        tick-Advances n c self other address k s.events s v in
      let (s2, answers, e2, v2, h2, still) = later s1 v1 in
      (s2, answers, rw (e1, e2) refl, v2, rw same at h2, still ∙ rate)

  waits-Reaches :
      (until : ℕ) (ms : List (Move Packet)) (s : Simulation n)
      → Inv n c other s
      → ((s' : Simulation n) → Inv n c other s' → Reaches ms s')
      → Reaches (waits until ∷ ms) s
  unfolding run move
  waits-Reaches until ms s v later =
      elim (Bool-cases (leb s.now until && quiet_until n c self other address until s.events)) [
        | inl quiet ↦
            (let (le, o) = &&-parts (leb s.now until) _ quiet in
              let v' =
                waits-Inv s until v (leb→le _ _ le)
                  (quiet-InOrder s.now until s.events v.in_order o) in
              let (s2, answers, e2, v2, h2, still) = later (record s { now = until }) v' in
              (s2, answers, rw (quiet, e2) refl, v2, h2, still))
        | inr not_quiet ↦
            (let (s2, answers, e2, v2, h2, still) = later s v in
              (s2, answers, rw (not_quiet, e2) refl, v2, h2, still))
      ]

  -- The history after a call of Send.
  answered :
      (s s1 : Simulation n) (p q : Packet) (proto : ℕ) (r : Bool) (ms : List (Move Packet))
      (answers : List Bool)
      → process_header n q ≡ ok (p, delivered proto)
      → s1.receiver.log ≡ s.receiver.log
      → pipeline n s1 ≡ pipeline n s ++ (if r then q ∷ [] else [])
      → history n s1 ++ map ok (accepted ms answers)
        ≡ history n s ++ map ok (accepted (sends p proto ∷ ms) (r ∷ answers))
  answered s s1 p q proto true ms answers h same longer =
      simp (same, longer, map-append, append_assoc, h)
  answered s s1 p q proto false ms answers h same longer = simp (same, longer, append-nil)

  sends-Reaches :
      (p q : Packet) (proto : ℕ) (ms : List (Move Packet)) (s : Simulation n)
      → Inv n c other s
      → add_header n p proto ≡ ok q
      → ((s' : Simulation n) → Inv n c other s' → Reaches ms s')
      → Reaches (sends p proto ∷ ms) s
  unfolding run move
  sends-Reaches p q proto ms s v h later =
      let (r, d, e1, (v1, longer, rate)) = sends-Answers n c self other k s p q proto v h in
      let (s2, answers, e2, v2, h2, still) = later (absorb n d s) v1 in
      (
        s2,
        r ∷ answers,
        rw (e1, e2) refl,
        v2,
        h2
            ∙ answered s (absorb n d s) p q proto r ms answers
                (process_header-add_header n p q proto h).0 refl longer,
        still ∙ rate,
      )

  -- A link in time refines a queue between the two protocol stacks. On a channel that joins the two
  -- devices, from any state with the invariant `Inv`, every run of events, waiting and calls of Send
  -- with protocols that the device carries ends without a failed assertion and with the invariant.
  -- What was handed up and what is on the way, in order, is then what it was before, followed by the
  -- packets that Send took on, in the order of the calls; the data rate is the same.
  pub run-history :
      (ms : List (Move Packet)) (s : Simulation n) → Inv n c other s → Carries ms → Reaches ms s
  run-history [] s v h = (s, [], unfold run in refl, v, rw append-nil refl, refl)
  run-history (ticks ∷ ms) s v h = ticks-Reaches ms s v λ s' v'. run-history ms s' v' h
  run-history (waits until ∷ ms) s v h = waits-Reaches until ms s v λ s' v'. run-history ms s' v' h
  run-history (sends p proto ∷ ms) s v h =
      let (q, e) = add_header-ok n p proto h.0 in
      sends-Reaches p q proto ms s v e λ s' v'. run-history ms s' v' h.1

  -- Enough events empty the link.
  drained :
      (fuel : ℕ) (s : Simulation n)
      → Inv n c other s
      → weight n s ≤ fuel
      → (s' : Simulation n) × (run n c self other address (replicate fuel ticks) s ≡ ok (s', []))
        × Inv n c other s'
        × (history n s' ≡ history n s)
        × (weight n s' ≡ 0)
  unfolding run move
  drained zero s v le = (s, refl, v, refl, omega arith)
  drained (suc fuel) s v le =
      let (s1, e1, v1, same, lighter, now, rate) =
        tick-Advances n c self other address k s.events s v in
      let (s2, e2, v2, still, empty) = drained fuel s1 v1 (omega (arith, lighter)) in
      (s2, rw (e1, e2) refl, v2, still ∙ same, empty)

  empty_pipeline : (s : Simulation n) → weight n s ≡ 0 → pipeline n s ≡ []
  empty_pipeline s e = nothing_left (arrivals s.events) (contents s.sender.queue) _ e

  -- The moves end without a failed assertion, and as many events later as the weight of the link
  -- says, all the packets that Send took on have been handed up, and nothing is on the way.
  abbrev pub Delivers : List (Move Packet) → Simulation n → Type 0
  Delivers ms s =
      (s1 : Simulation n) × (answers : List Bool) × (s2 : Simulation n) × (run n c self other
          address ms s
        ≡ ok (s1, answers))
      × (run n c self other address (replicate (weight n s1) ticks) s1 ≡ ok (s2, []))
      × (handed n s2.receiver.log ≡ accepted ms answers)
      × (pipeline n s2 ≡ [])

  pub run-Delivers :
      (ms : List (Move Packet)) (s : Simulation n)
      → Inv n c other s
      → Carries ms
      → pipeline n s ≡ []
      → handed n s.receiver.log ≡ []
      → Delivers ms s
  run-Delivers ms s v h idle new =
      let (s1, answers, e1, v1, told, rate) = run-history ms s v h in
      let (s2, e2, v2, still, light) = drained (weight n s1) s1 v1 (omega arith) in
      let empty = empty_pipeline s2 light in
      let flat : (history n s2 ≡ map ok (handed n s2.receiver.log)) = rw (empty, append-nil) refl in
      let start : (history n s ≡ []) = rw (idle, new) refl in
      let all : (map ok (handed n s2.receiver.log) ≡ map ok (accepted ms answers)) =
        sym flat ∙ still ∙ told ∙ rw start refl in
      (s1, answers, s2, e1, e2, map_ok-injective _ _ all, empty)
