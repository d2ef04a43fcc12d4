-- ===== src/Link/Device/Refusals.antt =====
-- When Send answers false.
use cs621_network_programmin.Common.{
  ℕ, ◌≡◌, refl, sym, ap, ◌∙◌, ◌⊎◌, inl, inr, Bool, true, false, false≢true, Bool-cases, Option,
  none, some, [], ◌∷◌, arith, Checked, ok, ◌>>=◌, >>=-value, if◌then◌else◌,
}
use cs621_network_programmin.Link.Ns3.{Ns3}
use cs621_network_programmin.Link.Ppp.{add_header}
use cs621_network_programmin.Link.Channel
use cs621_network_programmin.Link.Channel.{Channel, Delivery}
use cs621_network_programmin.Link.Device.{
  Device, is_ready, emit, mac_tx, mac_tx_drop, sniffer, promisc_sniffer, transmit_start,
  transmit_dequeued, after_enqueue, send,
}

-- The channel never answers false.
channel_starts :
    (c : Channel) (src tx_time : ℕ) (r : Bool) (d : Delivery)
    → Channel.transmit_start c src tx_time ≡ ok (r, d)
    → r ≡ true
unfolding Channel.transmit_start
channel_starts c src tx_time r d h = ground arith

module _ (n : Ns3) (c : Channel) (self : ℕ) where
  open n use {Packet, contents, enqueue, dequeue}

  device_starts :
      (p : Packet) (d d' : Device n) (r : Bool)
      → transmit_start n c self p d ≡ ok (r, d')
      → r ≡ true
  unfolding transmit_start
  device_starts p d d' r h = elim (Bool-cases (is_ready d.tx_state)) [
    | inl free ↦
        (let (answer, started, rest) =
            >>=-value (Channel.transmit_start c self (n.bytes_tx_time d.bps (n.size p))) _ (r, d')
              (rw free at h) in
          let same : (answer.0 ≡ r) = cc in
          let yes_ = channel_starts c self _ answer.0 answer.1 started in cc)
    | inr used ↦ (let failed = rw used at h in cc)
  ]

  dequeued_starts :
      (p : Option Packet) (d d' : Device n) (r : Bool)
      → transmit_dequeued n c self p d ≡ ok (r, d')
      → r ≡ true
  unfolding transmit_dequeued
  dequeued_starts none d d' r h = cc
  dequeued_starts (some p) d d' r h =
      device_starts p (emit n (sniffer p ∷ promisc_sniffer p ∷ []) d) d' r h

  enqueued_taken :
      (p : Packet) (d d' : Device n) (r : Bool)
      → after_enqueue n c self p true d ≡ ok (r, d')
      → r ≡ true
  unfolding after_enqueue
  enqueued_taken p d d' r h = elim (Bool-cases (is_ready d.tx_state)) [
    | inl free ↦
        dequeued_starts (dequeue d.queue).0 (record d { queue = (dequeue d.queue).1 }) d' r
          (rw free at h)
    | inr used ↦ (let taken = rw used at h in cc)
  ]

  -- The link is down; or the queue does not take the packet with its header.
  abbrev pub Refuses : Packet → ℕ → Device n → Device n → Type 0
  Refuses p proto d d' =
      ((d.link_up ≡ false) × (d' ≡ emit n (mac_tx_drop p ∷ []) d))
      ⊎ ((q : Packet) × (add_header n p proto ≡ ok q)
          × ((enqueue d.queue q).0 ≡ false)
          × (d'
              ≡ emit n (mac_tx_drop q ∷ [])
                  (record (emit n (mac_tx q ∷ []) d) { queue = (enqueue d.queue q).1 })))

  enqueue-Refuses :
      (p q : Packet) (proto : ℕ) (d d' : Device n)
      → add_header n p proto ≡ ok q
      → after_enqueue n c self q
          (enqueue d.queue q).0
          (record (emit n (mac_tx q ∷ []) d) { queue = (enqueue d.queue q).1 })
        ≡ ok (false, d')
      → Refuses p proto d d'
  unfolding after_enqueue
  enqueue-Refuses p q proto d d' e h = elim (Bool-cases (enqueue d.queue q).0) [
    | inl taken ↦ absurd (
        false≢true (
          enqueued_taken q (record (emit n (mac_tx q ∷ []) d) { queue = (enqueue d.queue q).1 }) d'
            false (rw taken at h)))
    | inr out ↦ (let left = rw out at h in inr (q, e, out, cc))
  ]

  -- Send on a link that is up.
  abbrev enqueues : Packet → ℕ → Device n → Checked (Bool × Device n)
  enqueues p proto d = add_header n p proto >>= λ q.
      after_enqueue n c self q (enqueue d.queue q).0
        (record (emit n (mac_tx q ∷ []) d) { queue = (enqueue d.queue q).1 })

  send-enqueues :
      (p : Packet) (proto : ℕ) (d : Device n)
      → d.link_up ≡ true
      → send n c self p proto d ≡ enqueues p proto d
  unfolding send
  send-enqueues p proto d up =
      ap (λ (b : Bool). if b then enqueues p proto d else ok (false, emit n (mac_tx_drop p ∷ []) d))
        up

  refused :
      (p : Packet) (proto : ℕ) (d d' : Device n)
      → send n c self p proto d ≡ ok (false, d')
      → Refuses p proto d d'
  unfolding send
  refused p proto d d' h = elim (Bool-cases d.link_up) [
    | inl up ↦
        (let (q, e, rest) =
            >>=-value (add_header n p proto) _ (false, d') (sym (send-enqueues p proto d up) ∙ h) in
          enqueue-Refuses p q proto d d' e rest)
    | inr down ↦ (let left = rw down at h in inl (down, cc))
  ]

  abbrev pub Keeps : Device n → Device n → Type 0
  Keeps d d' =
      (contents d'.queue ≡ contents d.queue)
      × (d'.tx_state ≡ d.tx_state)
      × (d'.current_pkt ≡ d.current_pkt)

  Refuses-Keeps : (p : Packet) (proto : ℕ) (d d' : Device n) → Refuses p proto d d' → Keeps d d'
  Refuses-Keeps p proto d d' (inl (down, e)) = rw e (refl, refl, refl)
  Refuses-Keeps p proto d d' (inr (q, e, out, f)) =
      rw f (n.enqueue-refuses d.queue q out, refl, refl)

  -- Whenever Send answers false, on any channel and in any state of the device, it has lost nothing but
  -- the packet that it was given: either the link is down, and the packet is traced as dropped, or the
  -- queue did not take the packet with its header, which is then traced as given and dropped. The
  -- packets that wait, the packet on the wire and all else of the device are what they were.
  pub send-Refuses :
      (p : Packet) (proto : ℕ) (d d' : Device n)
      → send n c self p proto d ≡ ok (false, d')
      → Refuses p proto d d' × Keeps d d'
  send-Refuses p proto d d' h =
      let why = refused p proto d d' h in (why, Refuses-Keeps p proto d d' why)
