-- ===== src/Detection/Client/App/Handed.antt =====
-- What a life of the application hands to the socket, and what it tells the trace source Tx.
use cs621_network_programmin.Common.{
  ℕ, ◌≡◌, refl, inl, inr, Bool-cases, some, List, [], ◌∷◌, ◌++◌, map, ok,
}
use cs621_network_programmin.Detection.Sockets.{Sockets, Effect, tx, sends}
use cs621_network_programmin.Detection.Client
use cs621_network_programmin.Detection.Client.App.{App}
use cs621_network_programmin.Detection.Client.App.Life.{
  Deeds, life, sending, performed, IsStopped, Performs,
}

module _ {P A : Type 0} where
  -- The packets of the calls of the socket's Send, and those of the trace source.
  abbrev pub handed_over : List (Effect P A) → List P
  handed_over [] = []
  handed_over (sends p ∷ es) = p ∷ handed_over es
  handed_over (e ∷ es) = handed_over es

  abbrev pub announced : List (Effect P A) → List P
  announced [] = []
  announced (tx p ∷ es) = p ∷ announced es
  announced (e ∷ es) = announced es

  -- Each packet with its time, in order.
  abbrev pub timed : (List (Effect P A) → List P) → List (ℕ × List (Effect P A)) → List (ℕ × P)
  timed f [] = []
  timed f ((t, es) ∷ deeds) = map (λ p. (t, p)) (f es) ++ timed f deeds

module _ (k : Sockets) (make : Client.Packet → k.Packet) where
  open k use {Packet, Address, Socket}

  pub handed_over-sending :
      (a : App k make) (s : Socket) (p : Client.Packet)
      → (handed_over (sending k make a s p) ≡ make p ∷ [])
        × (announced (sending k make a s p) ≡ make p ∷ [])
  handed_over-sending a s p = elim (Bool-cases (k.is_ipv4 a.peer)) [
    | inl v4 ↦ (rw v4 refl, rw v4 refl)
    | inr not4 ↦ elim (Bool-cases (k.is_ipv6 a.peer)) [
      | inl v6 ↦ (rw (not4, v6) refl, rw (not4, v6) refl)
      | inr not6 ↦ (rw (not4, not6) refl, rw (not4, not6) refl)
    ]
  ]

  -- The packets as they are made.
  abbrev pub made : List (ℕ × Client.Packet) → List (ℕ × Packet)
  made sent = map (λ m. (m.0, make m.1)) sent

  timed-performed :
      (a : App k make) (s : Socket) (f : List (Effect Packet Address) → List Packet)
      → ((p : Client.Packet) → f (sending k make a s p) ≡ make p ∷ [])
      → (sent : List (ℕ × Client.Packet)) → timed f (performed k make a s sent) ≡ made sent
  timed-performed a s f h [] = refl
  timed-performed a s f h ((t, p) ∷ sent) = rw (h p, timed-performed a s f h sent) refl

  -- The application ends its life with the socket having been handed each of some packets once, at
  -- its time and in order, the trace source having been told of each just so, and nothing else done
  -- but what Send does with these packets; it has then stopped.
  abbrev pub Lives : ℕ → ℕ → App k make → Socket → List (ℕ × Client.Packet) → Type 0
  Lives fuel stop a s sent =
      (deeds : Deeds k make) × (last : App k make) × (life k make fuel stop a
        ≡ ok (some deeds, last))
      × (timed handed_over deeds ≡ made sent)
      × (timed announced deeds ≡ made sent)
      × (deeds ≡ performed k make a s sent)
      × IsStopped k make last

  pub Performs-Lives :
      (fuel stop : ℕ) (a : App k make) (s : Socket) (sent : List (ℕ × Client.Packet))
      → Performs k make fuel stop a s sent
      → Lives fuel stop a s sent
  Performs-Lives fuel stop a s sent (last, ran, stopped) = (
    performed k make a s sent,
    last,
    ran,
    timed-performed a s handed_over (λ p. (handed_over-sending a s p).0) sent,
    timed-performed a s announced (λ p. (handed_over-sending a s p).1) sent,
    refl,
    stopped,
  )
