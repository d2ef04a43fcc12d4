-- ===== src/Link/Tests.antt =====
-- The link on concrete inputs: the theorems at the sample network.
use cs621_network_programmin.Common.{
  ℕ, ◌+◌, ◌≡◌, refl, true, false, List, [], ◌∷◌, length, arith, ok, abort, ◌>>=◌, inl, inr, some,
}
use cs621_network_programmin.Link.Ppp.{ether_to_ppp, ppp_to_ether, add_header, process_header}
use cs621_network_programmin.Link.Ppp.Laws.{
  Carried, ppp_to_ether-ether_to_ppp, process_header-add_header,
}
use cs621_network_programmin.Link.Channel.{Channel, new, attach, idle}
use cs621_network_programmin.Link.Channel
use cs621_network_programmin.Link.Channel.Laws.{Joins, attach-Joins, transmit_start-other_end}
use cs621_network_programmin.Link.Device.{
  Device, busy, emit, mac_tx, send, receive, mac_tx_drop, set_compression_flag,
  set_decompression_flag, transmit_complete, transmit_start,
}
use cs621_network_programmin.Link.Device.Setup.{
  new_device, install, IsConnected, install-IsConnected,
}
use cs621_network_programmin.Link.Device.Runs.{Call, sends, completes, run, Runs, run-fifo}
use cs621_network_programmin.Link.Device.Refusals.{Refuses, Keeps, send-Refuses}
use cs621_network_programmin.Link.Device.Laws.{
  seen, receive-add_header, send-unknown, send-flags_ignored,
}
use cs621_network_programmin.Link.Sample.{
  net, wire, wire-Joins, wire-Connects, idle_device, idle_device-Inv,
}

-- Four packets in a row, then a completion: the first goes out, two wait, the fourth is refused.
abbrev burst : List (Call (List ℕ))
burst =
    sends (1 ∷ []) 0x0800
    ∷ sends (2 ∷ []) 0x86dd
    ∷ sends (3 ∷ []) 0x4021
    ∷ sends (4 ∷ []) 0x0800
    ∷ completes
    ∷ []

run-fifo_example : Runs net wire 0 1 wire-Connects burst idle_device
run-fifo_example =
    run-fifo net wire 0 1 wire-Connects burst idle_device idle_device-Inv refl
      (inl refl, (inr (inl refl), (inr (inr refl), (inl refl, tt))))

burst_answers :
    (run net wire 0 burst idle_device >>= λ r. ok r.1) ≡ ok (true ∷ true ∷ true ∷ false ∷ [])
unfolding run send transmit_complete transmit_start Channel.transmit_start add_header ether_to_ppp
burst_answers = refl

-- A packet of one byte behind the header of IPv6.
abbrev framed_packet : List ℕ
framed_packet = 0x00 ∷ 0x57 ∷ 7 ∷ []

ppp_to_ether-ether_to_ppp_example :
    (Carried 0x4021 → (ether_to_ppp 0x4021 >>= ppp_to_ether) ≡ ok 0x0800)
    × (¬ Carried 0x4021 → ether_to_ppp 0x4021 ≡ abort)
ppp_to_ether-ether_to_ppp_example = ppp_to_ether-ether_to_ppp 0x4021

process_header-add_header_example :
    (process_header net framed_packet ≡ ok (7 ∷ [], 0x86dd)) × (3 ≡ length {A = ℕ} (7 ∷ []) + 2)
process_header-add_header_example =
    process_header-add_header net (7 ∷ []) framed_packet 0x86dd
      (unfold add_header ether_to_ppp in refl)

attach-Joins_example :
    (c : Channel) × ((attach (new 5) 3 >>= λ c1. attach c1 4) ≡ ok c)
    × Joins c 3 4
    × (c.delay ≡ 5)
    × ((d : ℕ) → attach c d ≡ abort)
attach-Joins_example = attach-Joins 5 3 4

transmit_start-other_end_example :
    (Channel.transmit_start wire 0 8 ≡ ok (true, record { device = 1; after = 10_000_008 }))
    × (Channel.transmit_start wire 1 8 ≡ ok (true, record { device = 0; after = 10_000_008 }))
transmit_start-other_end_example = transmit_start-other_end wire 0 1 8 wire-Joins (omega arith)

receive-add_header_example :
    receive net wire 0 (λ d. d + 100) false framed_packet idle_device
    ≡ ok (emit net (seen net false framed_packet (7 ∷ []) 0x86dd 101) idle_device)
receive-add_header_example =
    receive-add_header net wire 0 1 (λ d. d + 100) (7 ∷ []) framed_packet 0x86dd idle_device
      wire-Connects (unfold add_header ether_to_ppp in refl)

-- A busy device with a full queue, and what Send leaves when it refuses a packet.
abbrev full_device : Device net
full_device = record idle_device {
  tx_state = busy;
  current_pkt = some (9 ∷ []);
  queue = (1 ∷ []) ∷ (2 ∷ []) ∷ [];
}

abbrev refusing_device : Device net
refusing_device = emit net (mac_tx framed_packet ∷ mac_tx_drop framed_packet ∷ []) full_device

full_refuses : send net wire 0 (7 ∷ []) 0x86dd full_device ≡ ok (false, refusing_device)
unfolding send add_header ether_to_ppp
full_refuses = refl

send-Refuses_example :
    Refuses net wire 0 (7 ∷ []) 0x86dd full_device refusing_device
    × Keeps net wire 0 full_device refusing_device
send-Refuses_example =
    send-Refuses net wire 0 (7 ∷ []) 0x86dd full_device refusing_device full_refuses

send-unknown_example : send net wire 0 (7 ∷ []) 0x1234 idle_device ≡ abort
send-unknown_example = send-unknown net wire 0 (7 ∷ []) 0x1234 idle_device refl (λ h. omega arith)

send-flags_ignored_example :
    send net wire 0
      (7 ∷ [])
      0x0800
      (set_decompression_flag net true (set_compression_flag net false idle_device))
    ≡ (send net wire 0 (7 ∷ []) 0x0800 idle_device >>= λ r.
        ok (r.0, set_decompression_flag net true (set_compression_flag net false r.1)))
send-flags_ignored_example = send-flags_ignored net wire 0 (7 ∷ []) 0x0800 idle_device false true

install-IsConnected_example :
    (c : Channel) × (da : Device net) × (db : Device net) × (install net 10_000_000 0 1
        (new_device net 1_000_000 0 [])
        (new_device net 1_000_000 0 [])
      ≡ ok (c, da, db))
    × IsConnected net c 0 1 da
    × IsConnected net c 1 0 db
install-IsConnected_example =
    install-IsConnected net 10_000_000 0 1 1_000_000 0 [] [] (omega arith) refl refl
