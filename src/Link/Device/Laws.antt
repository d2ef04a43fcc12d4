-- ===== src/Link/Device/Laws.antt =====
-- Send and Receive of a device, call by call: errors, what reaches the upper layer, the flags.
use cs621_network_programmin.Common.{
  ℕ, ◌≡◌, ◌≢◌, refl, Bool, true, false, Option, none, some, List, [], ◌∷◌, ◌++◌, append_assoc,
  if◌then◌else◌, arith, Checked, ok, abort, ◌>>=◌, inl, inr, sym, ap, ◌∙◌, if-map,
}
use cs621_network_programmin.Link.Ns3.{Ns3}
use cs621_network_programmin.Link.Ppp.{add_header, process_header}
use cs621_network_programmin.Link.Ppp.Laws.{
  Carried, delivered, process_header-add_header, ppp_to_ether-ether_to_ppp,
}
use cs621_network_programmin.Link.Channel.{Channel, get_device}
use cs621_network_programmin.Link.Channel.Laws.{Connects, Joins}
use cs621_network_programmin.Link.Device.{
  Device, Effect, sniffer, promisc_sniffer, phy_rx_end, mac_promisc_rx, promisc_callback, mac_rx,
  rx_callback, mac_tx_drop, emit, send, receive, get_remote, set_compression_flag,
  set_decompression_flag, promiscuous, transmit_start, transmit_dequeued, after_enqueue,
  drop_unless, is_ready, mac_tx, mac_tx,
}

module _ (n : Ns3) where
  open n use {Packet}

  get_remote-Joins :
      (c : Channel) (a b : ℕ) (address : ℕ → ℕ)
      → Joins c a b
      → a ≢ b
      → (get_remote n c a address ≡ ok (address b)) × (get_remote n c b address ≡ ok (address a))
  unfolding get_remote get_device
  get_remote-Joins c a b address j d = ground arith

  -- GetRemote finds the address of the device at the other end.
  pub get_remote-Connects :
      (c : Channel) (self other : ℕ) (address : ℕ → ℕ)
      → Connects c self other
      → get_remote n c self address ≡ ok (address other)
  get_remote-Connects c self other address k = elim k.ends [
    | inl j ↦ (get_remote-Joins c self other address j k.apart).0
    | inr j ↦ (get_remote-Joins c other self address j (λ e. k.apart (sym e))).1
  ]

  -- What an upper layer and the trace sources see of a packet that arrives whole.
  abbrev pub seen : Bool → Packet → Packet → ℕ → ℕ → List (Effect Packet)
  seen promisc q p protocol remote =
      sniffer q
        ∷ promisc_sniffer q
        ∷ phy_rx_end q
        ∷ (if promisc then mac_promisc_rx q ∷ promisc_callback p protocol remote ∷ [] else [])
      ++ (mac_rx q ∷ mac_rx q ∷ rx_callback p protocol remote ∷ [])

  seen-log :
      (promisc : Bool) (q p : Packet) (protocol remote : ℕ) (d : Device n)
      → emit n (mac_rx q ∷ mac_rx q ∷ rx_callback p protocol remote ∷ []) (
          promiscuous n promisc q p protocol remote
            (emit n (sniffer q ∷ promisc_sniffer q ∷ phy_rx_end q ∷ []) d))
        ≡ emit n (seen promisc q p protocol remote) d
  unfolding promiscuous
  seen-log true q p protocol remote d = simp append_assoc
  seen-log false q p protocol remote d = simp append_assoc

  -- A packet with a header that can be taken off is handed up without it.
  pub receive-process_header :
      (c : Channel) (self other : ℕ) (address : ℕ → ℕ) (p q : Packet) (proto : ℕ) (d : Device n)
      → Connects c self other
      → process_header n q ≡ ok (p, proto)
      → receive n c self address false q d
        ≡ ok (emit n (seen d.promisc q p proto (address other)) d)
  unfolding receive
  receive-process_header c self other address p q proto d k h =
      rw (h, get_remote-Connects c self other address k)
        (ap ok (seen-log d.promisc q p proto (address other) d))

  -- A packet that one end put a header on, and that arrives uncorrupted at the other end, is handed
  -- up without the header, with its protocol and the sender's address. Nothing else changes. The
  -- trace source MacRx fires twice for it.
  pub receive-add_header :
      (c : Channel) (self other : ℕ) (address : ℕ → ℕ) (p q : Packet) (proto : ℕ) (d : Device n)
      → Connects c self other
      → add_header n p proto ≡ ok q
      → receive n c self address false q d
        ≡ ok (emit n (seen d.promisc q p (delivered proto) (address other)) d)
  receive-add_header c self other address p q proto d k h =
      receive-process_header c self other address p q (delivered proto) d k
        (process_header-add_header n p q proto h).0

  -- On a link that is up a protocol number that the device does not carry ends the program.
  pub send-unknown :
      (c : Channel) (self : ℕ) (p : Packet) (proto : ℕ) (d : Device n)
      → d.link_up ≡ true
      → ¬ Carried proto
      → send n c self p proto d ≡ abort
  unfolding send add_header
  send-unknown c self p proto d up h = rw (up, (ppp_to_ether-ether_to_ppp proto).1 h)

  -- A device with the compression flags set to the given values.
  abbrev flagged : Bool → Bool → Device n → Device n
  flagged compress decompress d = record d {
    compression_flag = compress;
    decompression_flag = decompress;
  }

  abbrev flag_result : Bool → Bool → Checked (Bool × Device n) → Checked (Bool × Device n)
  flag_result compress decompress run = run >>= λ r. ok (r.0, flagged compress decompress r.1)

  transmit_start-flagged :
      (c : Channel) (self : ℕ) (p : Packet) (d : Device n) (compress decompress : Bool)
      → transmit_start n c self p (flagged compress decompress d)
        ≡ flag_result compress decompress (transmit_start n c self p d)
  unfolding transmit_start drop_unless
  transmit_start-flagged c self p d compress decompress = ground arith

  transmit_dequeued-flagged :
      (c : Channel) (self : ℕ) (o : Option Packet) (d : Device n) (compress decompress : Bool)
      → transmit_dequeued n c self o (flagged compress decompress d)
        ≡ flag_result compress decompress (transmit_dequeued n c self o d)
  unfolding transmit_dequeued
  transmit_dequeued-flagged c self none d compress decompress = refl
  transmit_dequeued-flagged c self (some p) d compress decompress =
      transmit_start-flagged c self p (emit n (sniffer p ∷ promisc_sniffer p ∷ []) d) compress
        decompress

  after_enqueue-flagged :
      (c : Channel) (self : ℕ) (p : Packet) (accepted : Bool) (d : Device n)
      (compress decompress : Bool)
      → after_enqueue n c self p accepted (flagged compress decompress d)
        ≡ flag_result compress decompress (after_enqueue n c self p accepted d)
  unfolding after_enqueue
  after_enqueue-flagged c self p false d compress decompress = refl
  after_enqueue-flagged c self p true d compress decompress =
      let at_once =
        transmit_dequeued n c self (n.dequeue d.queue).0
          (record d { queue = (n.dequeue d.queue).1 }) in
      ap (λ t. if is_ready d.tx_state then t else ok (true, flagged compress decompress d))
        (transmit_dequeued-flagged c self (n.dequeue d.queue).0
          (record d { queue = (n.dequeue d.queue).1 }) compress decompress)
      ∙ if-map (flag_result compress decompress) (is_ready d.tx_state) at_once (ok (true, d))

  -- Send from the header on.
  abbrev with_header : Channel → ℕ → Device n → Checked Packet → Checked (Bool × Device n)
  with_header c self d framed = framed >>= λ q.
      after_enqueue n c self q (n.enqueue d.queue q).0
        (record (emit n (mac_tx q ∷ []) d) { queue = (n.enqueue d.queue q).1 })

  with_header-flagged :
      (c : Channel) (self : ℕ) (framed : Checked Packet) (d : Device n) (compress decompress : Bool)
      → with_header c self (flagged compress decompress d) framed
        ≡ flag_result compress decompress (with_header c self d framed)
  with_header-flagged c self (ok q) d compress decompress =
      after_enqueue-flagged c self q (n.enqueue d.queue q).0
        (record (emit n (mac_tx q ∷ []) d) { queue = (n.enqueue d.queue q).1 }) compress decompress
  with_header-flagged c self abort d compress decompress = refl

  -- The compression flags have no part in Send: with any values of the two flags it gives the same
  -- answer, sends the same bytes and leaves the same device, but for the flags.
  pub send-flags_ignored :
      (c : Channel) (self : ℕ) (p : Packet) (proto : ℕ) (d : Device n) (compress decompress : Bool)
      → send n c self p proto
          (set_decompression_flag n decompress (set_compression_flag n compress d))
        ≡ (send n c self p proto d >>= λ r.
            ok (r.0, set_decompression_flag n decompress (set_compression_flag n compress r.1)))
  unfolding send set_compression_flag set_decompression_flag
  send-flags_ignored c self p proto d compress decompress =
      ap
        (λ t.
          if d.link_up
          then t
          else ok (false, emit n (mac_tx_drop p ∷ []) (flagged compress decompress d)))
        (with_header-flagged c self (add_header n p proto) d compress decompress)
      ∙ if-map (flag_result compress decompress) d.link_up
          (with_header c self d (add_header n p proto)) (ok (false, emit n (mac_tx_drop p ∷ []) d))
