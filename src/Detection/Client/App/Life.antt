-- ===== src/Detection/Client/App/Life.antt =====
-- The life of the application from a start to a stop: the simulator runs the events of Send that come
-- before the stop.
use cs621_network_programmin.Common.{
  ℕ, zero, suc, ◌+◌, ◌≡◌, refl, sym, ap, ◌∙◌, ◌⊎◌, inl, inr, true, false, Bool-cases, Option, none,
  some, List, [], ◌∷◌, ◌++◌, map, ltb, Checked, ok, abort, ◌>>=◌, >>=-value,
}
use cs621_network_programmin.Detection.Sockets.{Sockets, Effect, tx, sends}
use cs621_network_programmin.Detection.Client
use cs621_network_programmin.Detection.Client.{Client, create}
use cs621_network_programmin.Detection.Client.Train.{
  Log, note, train, train-step_last, train-step_more,
}
use cs621_network_programmin.Detection.Client.App.{
  App, stop_application, fire, send, sent_on, traced, scheduled,
}

-- What Send can give.
send-cases :
    (r : Checked (Client.Packet × Client × Option ℕ))
    → (r ≡ abort)
      ⊎ ((p : Client.Packet) × (c : Client) × (r ≡ ok (p, c, none)))
      ⊎ ((p : Client.Packet) × (c : Client) × (dt : ℕ) × (r ≡ ok (p, c, some dt)))
send-cases abort = inl refl
send-cases (ok (p, c, none)) = inr (inl (p, c, refl))
send-cases (ok (p, c, some dt)) = inr (inr (p, c, dt, refl))

module _ (k : Sockets) (make : Client.Packet → k.Packet) where
  open k use {Packet, Address, Socket}

  -- What was done, with the times.
  abbrev pub Deeds : Type 0
  Deeds = List (ℕ × List (Effect Packet Address))

  abbrev pub remember : ℕ → List (Effect Packet Address) → Option Deeds → Option Deeds
  remember t effects none = none
  remember t effects (some deeds) = some ((t, effects) ∷ deeds)

  -- What the application does in each event of Send until it is stopped, and the application after
  -- that; `none` inside if the fuel is short.
  unfoldable pub life : ℕ → ℕ → App k make → Checked (Option Deeds × App k make)
  unfolding fire stop_application
  life zero stop a = ok (none, a)
  life (suc fuel) stop a = elim a.send_event [
    | none ↦ ok (some [], (stop_application k make a).0)
    | some t ↦ elim (ltb t stop) [
      | false ↦ ok (some [], (stop_application k make a).0)
      | true ↦ fire k make t a >>= λ r. life fuel stop r.1 >>= λ q. ok (remember t r.0 q.0, q.1)
    ]
  ]

  -- The effects of sending a packet on a socket.
  abbrev pub sending : App k make → Socket → Client.Packet → List (Effect Packet Address)
  sending a s p = tx (make p) ∷ traced k make a (k.sock_name s) (make p) ++ sends (make p) ∷ []

  pub fire-sent :
      (t : ℕ) (a : App k make) (s : Socket) (p : Client.Packet) (c : Client) (next : Option ℕ)
      → a.socket ≡ some s
      → Client.create_and_count a.base ≡ ok (p, c, next)
      → fire k make t a
        ≡ ok (sending a s p, record a { base = c; send_event = scheduled k make t next })
  unfolding fire send
  fire-sent t a s p c next h e =
      rw e (ap (λ m. sent_on k make t (record a { send_event = none }) p c next m) h)

  -- The application has stopped.
  abbrev pub IsStopped : App k make → Type 0
  IsStopped a = (a.socket ≡ none) × (a.send_event ≡ none)

  -- Sending each of some packets on a socket at its time.
  abbrev pub performed : App k make → Socket → List (ℕ × Client.Packet) → Deeds
  performed a s sent = map (λ m. (m.0, sending a s m.1)) sent

  abbrev pub Performs : ℕ → ℕ → App k make → Socket → List (ℕ × Client.Packet) → Type 0
  Performs fuel stop a s sent =
      (last : App k make) × (life fuel stop a ≡ ok (some (performed a s sent), last))
      × IsStopped last

  life-idle :
      (fuel stop : ℕ) (a : App k make) (s : Socket)
      → a.send_event ≡ none
      → Performs (suc fuel) stop a s []
  unfolding life
  life-idle fuel stop a s e =
      ((stop_application k make a).0, rw (life, e) refl, unfold stop_application in (refl, refl))

  life-late :
      (fuel stop t : ℕ) (a : App k make) (s : Socket)
      → a.send_event ≡ some t
      → ltb t stop ≡ false
      → Performs (suc fuel) stop a s []
  unfolding life
  life-late fuel stop t a s e late = (
    (stop_application k make a).0,
    rw (life, e, late) refl,
    unfold stop_application in (refl, refl),
  )

  life-fires :
      (fuel stop t : ℕ) (a : App k make) (s : Socket) (p : Client.Packet) (c : Client)
      (next : Option ℕ) (log : List (ℕ × Client.Packet))
      → a.socket ≡ some s
      → a.send_event ≡ some t
      → ltb t stop ≡ true
      → Client.create_and_count a.base ≡ ok (p, c, next)
      → Performs fuel stop (record a { base = c; send_event = scheduled k make t next }) s log
      → Performs (suc fuel) stop a s ((t, p) ∷ log)
  unfolding life
  life-fires fuel stop t a s p c next log h e now sent (last, lives, stopped) =
      (last, rw (life, e, now, fire-sent t a s p c next h sent, lives) refl, stopped)

  note-some :
      (t : ℕ) (p : Client.Packet) (l : Log) (sent : List (ℕ × Client.Packet))
      → note t p l ≡ some sent
      → (rest : List (ℕ × Client.Packet)) × (l ≡ some rest) × (sent ≡ (t, p) ∷ rest)
  note-some t p none sent e = cc
  note-some t p (some rest) sent e = (rest, refl, cc)

  train-late :
      (fuel stop t : ℕ) (c : Client) → ltb t stop ≡ false → train (suc fuel) stop t c ≡ ok (some [])
  unfolding train
  train-late fuel stop t c late = rw (train, late) refl

  train-failed :
      (fuel stop t : ℕ) (c : Client)
      → ltb t stop ≡ true
      → Client.create_and_count c ≡ abort
      → train (suc fuel) stop t c ≡ abort
  unfolding train
  train-failed fuel stop t c now failed = rw (train, now, failed) refl

  train-zero_fuel : (stop t : ℕ) (c : Client) → train zero stop t c ≡ ok none
  unfolding train
  train-zero_fuel stop t c = refl

  pub life-train :
      (fuel stop t : ℕ) (a : App k make) (s : Socket) (sent : List (ℕ × Client.Packet))
      → a.socket ≡ some s
      → a.send_event ≡ some t
      → train fuel stop t a.base ≡ ok (some sent)
      → Performs (suc fuel) stop a s sent
  life-train zero stop t a s sent h e log = let short = train-zero_fuel stop t a.base in cc
  life-train (suc fuel) stop t a s sent h e log = elim (Bool-cases (ltb t stop)) [
    | inr late ↦
        (let ended = train-late fuel stop t a.base late in
          let nothing : (sent ≡ []) = cc in rw nothing (life-late (suc fuel) stop t a s e late))
    | inl now ↦ elim (send-cases (Client.create_and_count a.base)) [
      | inl failed ↦ (let aborted = train-failed fuel stop t a.base now failed in cc)
      | inr (inl (p, c, one)) ↦
          (let ended = train-step_last fuel stop t a.base c p now one in
            let single : (sent ≡ (t, p) ∷ []) = cc in
            rw single (
              life-fires (suc fuel) stop t a s p c none [] h e now one
                (life-idle fuel stop _ s refl)))
      | inr (inr (p, c, dt, more)) ↦
          (let (l, rest, noted) =
              >>=-value (train fuel stop (t + dt) c) _ (some sent)
                (sym (train-step_more fuel stop t dt a.base c p now more) ∙ log) in
            let noted' : (note t p l ≡ some sent) = cc in
            let (later, is, first) = note-some t p l sent noted' in
            rw first (
              life-fires (suc fuel) stop t a s p c (some dt) later h e now more (
                life-train fuel stop (t + dt) (record a { base = c; send_event = some (t + dt) }) s
                  later h refl (rest ∙ ap ok is))))
    ]
  ]
