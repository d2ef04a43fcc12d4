-- ===== src/Detection/Client/App/Total.antt =====
-- Send fails no assertion: not in one event, and not in a life of the application.
use native.Mathlib.Nat.{mod-eq_of_lt}
use cs621_network_programmin.Common.{
  ℕ, zero, suc, ◌+◌, ◌^◌, ◌≤◌, ◌<◌, ◌≡◌, refl, inl, inr, true, false, Bool-cases, none, some, List,
  [], ◌∷◌, ltb, if◌then◌else◌, arith, ok, All,
}
use cs621_network_programmin.Detection.Sockets.{Sockets, Effect}
use cs621_network_programmin.Detection.Client
use cs621_network_programmin.Detection.Client.{Client, u32}
use cs621_network_programmin.Detection.Client.Payload.{
  IsReady, Setup, set_up_all, set_up_all-IsReady, set_up_all-Counts, packet_size,
  create_and_count-IsReady,
}
use cs621_network_programmin.Detection.Client.App.{
  App, scheduled, fire, start_application, stop_application,
}
use cs621_network_programmin.Detection.Client.App.Life.{Deeds, life, sending, fire-sent, IsStopped}
use cs621_network_programmin.Detection.Client.App.Handed.{handed_over, handed_over-sending}
use cs621_network_programmin.Detection.Client.App.Start.{IsReachable, start_application-IsRunning}

module _ (k : Sockets) (make : Client.Packet → k.Packet) where
  open k use {Packet, Address, Socket}

  -- The application with its client set up.
  abbrev pub set_up_app : List Setup → App k make → App k make
  set_up_app ss a = record a { base = set_up_all ss a.base }

  -- The application after an event of Send at `t`.
  abbrev pub after_send : ℕ → App k make → App k make
  after_send t a =
      let n = u32 (a.base.sent + 1) in
      record a {
        base = record a.base { sent = n };
        send_event = scheduled k make t (if ltb n a.base.count then some a.base.interval else none);
      }

  -- A packet of a size goes to the socket, with all that Send does.
  abbrev pub SendsOne : App k make → Socket → ℕ → List (Effect Packet Address) → Type 0
  SendsOne a s size effects =
      (p : Client.Packet) × (effects ≡ sending k make a s p)
      × (handed_over effects ≡ make p ∷ [])
      × (packet_size p ≡ size)

  abbrev pub Fires : ℕ → App k make → Socket → Type 0
  Fires t a s =
      (effects : List (Effect Packet Address)) × (fire k make t a ≡ ok (effects, after_send t a))
      × SendsOne a s a.base.size effects
      × IsReady (after_send t a).base

  fire-ready :
      (t : ℕ) (a : App k make) (s : Socket) → IsReady a.base → a.socket ≡ some s → Fires t a s
  fire-ready t a s v h =
      let (p, e, size, v') = create_and_count-IsReady a.base v in
      (
        sending k make a s p,
        fire-sent k make t a s p _ _ h e,
        (p, refl, (handed_over-sending k make a s p).0, size),
        v',
      )

  -- From an application with a socket and a client that is ready, and after any settings of the
  -- payload, an event of Send fails no assertion, that its event has expired included, and follows no
  -- null pointer: it hands the socket one packet of the size that the client then has, counts it in
  -- 32 bits, and is scheduled again exactly if the count is below MaxPackets; the client is still
  -- ready.
  pub fire-total :
      (ss : List Setup) (t : ℕ) (a : App k make) (s : Socket)
      → IsReady a.base
      → a.socket ≡ some s
      → Fires t (set_up_app ss a) s
  fire-total ss t a s v h = fire-ready t (set_up_app ss a) s (set_up_all-IsReady ss a.base v) h

  -- The life of the application ends, with no assertion failed and no null pointer followed; each event
  -- of Send handed the socket one packet of the client's size, and the application has stopped.
  abbrev pub LivesWell : ℕ → ℕ → App k make → Socket → Type 0
  LivesWell fuel stop a s =
      (deeds : Deeds k make) × (last : App k make) × (life k make fuel stop a
        ≡ ok (some deeds, last))
      × All (λ m. SendsOne a s a.base.size m.1) deeds
      × IsStopped k make last

  life-ended :
      (fuel stop : ℕ) (a : App k make) (s : Socket)
      → a.send_event ≡ none
      → 0 < fuel
      → LivesWell fuel stop a s
  unfolding life
  life-ended zero stop a s e f = absurd (omega (arith, f))
  life-ended (suc fuel) stop a s e f = (
    [],
    (stop_application k make a).0,
    rw (life, e) refl,
    tt,
    unfold stop_application in (refl, refl),
  )

  life-late :
      (fuel stop t : ℕ) (a : App k make) (s : Socket)
      → a.send_event ≡ some t
      → ltb t stop ≡ false
      → LivesWell (suc fuel) stop a s
  unfolding life
  life-late fuel stop t a s e late = (
    [],
    (stop_application k make a).0,
    rw (life, e, late) refl,
    tt,
    unfold stop_application in (refl, refl),
  )

  -- An event of Send before the stop, and then the rest of the life.
  life-once :
      (fuel stop t : ℕ) (a : App k make) (s : Socket) (effects : List (Effect Packet Address))
      → a.send_event ≡ some t
      → ltb t stop ≡ true
      → fire k make t a ≡ ok (effects, after_send t a)
      → SendsOne a s a.base.size effects
      → LivesWell fuel stop (after_send t a) s
      → LivesWell (suc fuel) stop a s
  unfolding life
  life-once fuel stop t a s effects e now fired one (deeds, last, lived, all, stopped) =
      ((t, effects) ∷ deeds, last, rw (life, e, now, fired, lived) refl, (one, all), stopped)

  -- Fuel for one event more than there are packets left is enough.
  life-LivesWell :
      (fuel stop t : ℕ) (a : App k make) (s : Socket)
      → IsReady a.base
      → a.socket ≡ some s
      → a.send_event ≡ some t
      → a.base.count < 2 ^ 32
      → a.base.sent + 1 < 2 ^ 32
      → 2 ≤ fuel
      → a.base.count + 1 ≤ a.base.sent + fuel
      → LivesWell fuel stop a s
  life-LivesWell zero stop t a s v h e small fits two enough = absurd (omega (arith, two))
  life-LivesWell (suc fuel) stop t a s v h e small fits two enough =
      let counted : (u32 (a.base.sent + 1) ≡ a.base.sent + 1) = mod-eq_of_lt fits in
      let (effects, fired, one, v') = fire-ready t a s v h in
      elim (Bool-cases (ltb t stop)) [
        | inr late ↦ life-late fuel stop t a s e late
        | inl now ↦
            life-once fuel stop t a s effects e now fired one
              (elim (Bool-cases (ltb (u32 (a.base.sent + 1)) a.base.count)) [
                | inr all ↦
                    life-ended fuel stop (after_send t a) s (rw all refl) (omega (arith, two))
                | inl more ↦
                    (let below : (a.base.sent + 1 < a.base.count) =
                        ground (arith, rw counted at more) in
                      life-LivesWell fuel stop (t + a.base.interval) (after_send t a) s v' h
                        (rw more refl) small (rw counted (omega (arith, below, small)))
                        (omega (arith, below, enough)) (rw counted (omega (arith, enough))))
              ])
      ]

  -- From an application without a socket, with a peer that can be reached and a client that is ready,
  -- and after any settings of the payload: the application starts, and for every stop its life from
  -- then on ends, stopped, with no assertion failed and no null pointer followed; each event of Send
  -- handed the socket one packet of the size that was set. MaxPackets is a 32-bit number, and so is
  -- one more than the number of packets sent before; fuel for MaxPackets + 2 events is enough.
  pub life-total :
      (ss : List Setup) (fuel start stop : ℕ) (a : App k make)
      → a.socket ≡ none
      → IsReachable k make a.peer
      → IsReady a.base
      → a.base.count < 2 ^ 32
      → a.base.sent + 1 < 2 ^ 32
      → a.base.count + 2 ≤ fuel
      → (a1 : App k make) × (s : Socket) × (start_application k make start (set_up_app ss a)
          ≡ ok a1)
        × (a1.socket ≡ some s)
        × (a1.base ≡ set_up_all ss a.base)
        × LivesWell fuel stop a1 s
  life-total ss fuel start stop a h r v small fits enough =
      let (a1, e, (s, is, up, listens, due), same) =
        start_application-IsRunning k make start (set_up_app ss a) h r in
      let ready : IsReady a1.base = rw same (set_up_all-IsReady ss a.base v) in
      let (counts, sends) = set_up_all-Counts ss a.base in
      let count : (a1.base.count ≡ a.base.count) = rw same counts in
      let sent : (a1.base.sent ≡ a.base.sent) = rw same sends in
      (
        a1,
        s,
        e,
        is,
        same,
        life-LivesWell fuel stop start a1 s ready is due (omega (arith, count, small))
            (omega (arith, sent, fits)) (omega (arith, enough))
            (omega (arith, count, sent, enough)),
      )
