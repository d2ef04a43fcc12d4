-- ===== src/Link/Device.antt =====
-- model/point-to-point-net-device.cc and .h: the state of a device, its transmit state machine and
-- its receive path. What a call does outside the device (trace sources, scheduled events,
-- callbacks) is appended to `log`, in order. Times are nanoseconds; devices are known by number.
pub mod Logs
pub mod Steps
pub mod Completes
pub mod Runs
pub mod Laws
pub mod Refusals
pub mod Setup
use cs621_network_programmin.Common.{
  ℕ, ◌+◌, Bool, true, false, Option, none, some, List, [], ◌∷◌, ◌++◌, ◌==◌, if◌then◌else◌, Checked,
  ok, abort, assert, ◌>>=◌, ◌>>◌, not,
}
use cs621_network_programmin.Link.Ns3.{Ns3}
use cs621_network_programmin.Link.Ppp.{add_header, process_header}
use cs621_network_programmin.Link.Channel.{Channel, Delivery, get_device}
use cs621_network_programmin.Link.Channel

-- enum TxMachineState
pub data TxState : Type 0 where
  ready busy : TxState

abbrev pub is_ready : TxState → Bool
is_ready ready = true
is_ready busy = false

pub data Effect (P : Type 0) : Type 0 where
  mac_tx mac_tx_drop phy_tx_begin phy_tx_end phy_tx_drop : P → Effect P
  sniffer promisc_sniffer mac_promisc_rx mac_rx phy_rx_end phy_rx_drop : P → Effect P
  -- Simulator::Schedule of TransmitComplete, after a time
  schedule_complete : ℕ → Effect P
  -- Simulator::ScheduleWithContext of Receive on a device, of a copy of the packet
  schedule_receive : Delivery → P → Effect P
  -- m_rxCallback and m_promiscCallback: the packet, its protocol and the remote address
  rx_callback promisc_callback : P → (protocol remote : ℕ) → Effect P
  link_change : Effect P

-- class PointToPointNetDevice
pub record Device (n : Ns3) : Type 0 where
  pub tx_state : TxState
  pub bps : ℕ
  pub interframe_gap : ℕ
  pub queue : n.Queue
  pub current_pkt : Option n.Packet
  pub link_up : Bool
  pub compression_flag : Bool
  pub decompression_flag : Bool
  pub promisc : Bool
  pub log : List (Effect n.Packet)

abbrev exists {ℓ} : {A : Type ℓ} → Option A → Bool
exists none = false
exists (some a) = true

module _ (n : Ns3) where
  open n use {Packet, size, enqueue, dequeue, bytes_tx_time}

  abbrev pub emit : List (Effect Packet) → Device n → Device n
  emit es d = record d { log = d.log ++ es }

  unfoldable pub set_compression_flag : Bool → Device n → Device n
  set_compression_flag value d = record d { compression_flag = value }

  unfoldable pub set_decompression_flag : Bool → Device n → Device n
  set_decompression_flag value d = record d { decompression_flag = value }

  unfoldable pub get_compression_flag : Device n → Bool
  get_compression_flag d = d.compression_flag

  unfoldable pub get_decompression_flag : Device n → Bool
  get_decompression_flag d = d.decompression_flag

  -- NotifyLinkUp, the end of Attach
  unfoldable pub notify_link_up : Device n → Device n
  notify_link_up d = emit (link_change ∷ []) (record d { link_up = true })

  drop_unless : Bool → Packet → Device n → Device n
  drop_unless true p d = d
  drop_unless false p d = emit (phy_tx_drop p ∷ []) d

  -- `self` is the number of this device on its channel `c`.
  unfoldable pub transmit_start : Channel → ℕ → Packet → Device n → Checked (Bool × Device n)
  unfolding drop_unless
  transmit_start c self p d = do
    assert (is_ready d.tx_state)
    let started = emit (phy_tx_begin p ∷ []) (record d { tx_state = busy; current_pkt = some p })
    let tx_time = bytes_tx_time d.bps (size p)
    let scheduled = emit (schedule_complete (tx_time + d.interframe_gap) ∷ []) started
    (result, delivery) ← Channel.transmit_start c self tx_time
    ok (result, drop_unless result p (emit (schedule_receive delivery p ∷ []) scheduled))

  -- TransmitComplete: another packet off the queue, if there is one.
  pub transmit_next : Channel → ℕ → Option Packet → Device n → Checked (Bool × Device n)
  unfolding transmit_start
  transmit_next c self none d = ok (true, d)
  transmit_next c self (some p) d =
      transmit_start c self p (emit (sniffer p ∷ promisc_sniffer p ∷ []) d)

  end_current : Option Packet → Device n → Checked (Device n)
  end_current none d = abort
  end_current (some p) d = ok (emit (phy_tx_end p ∷ []) (record d { current_pkt = none }))

  unfoldable pub transmit_complete : Channel → ℕ → Device n → Checked (Device n)
  unfolding transmit_next end_current
  transmit_complete c self d = do
    assert (not (is_ready d.tx_state))
    ended ← end_current d.current_pkt (record d { tx_state = ready })
    let (p, rest) = dequeue ended.queue
    (result, d') ← transmit_next c self p (record ended { queue = rest })
    ok d'

  -- Send: the packet that an idle device takes off the queue at once.
  transmit_dequeued : Channel → ℕ → Option Packet → Device n → Checked (Bool × Device n)
  unfolding transmit_start
  transmit_dequeued c self none d = abort
  transmit_dequeued c self (some p) d =
      transmit_start c self p (emit (sniffer p ∷ promisc_sniffer p ∷ []) d)

  -- Send, from Enqueue on: what Enqueue said, and the device with the queue that it left.
  pub after_enqueue : Channel → ℕ → Packet → Bool → Device n → Checked (Bool × Device n)
  unfolding transmit_dequeued
  after_enqueue c self p false d = ok (false, emit (mac_tx_drop p ∷ []) d)
  after_enqueue c self p true d =
      if is_ready d.tx_state
      then (let (q, rest) = dequeue d.queue in
          transmit_dequeued c self q (record d { queue = rest }))
      else ok (true, d)

  unfoldable pub send : Channel → ℕ → Packet → ℕ → Device n → Checked (Bool × Device n)
  unfolding after_enqueue
  send c self packet protocol_number d =
      if d.link_up
      then (do
        p ← add_header n packet protocol_number
        let (accepted, queued) = enqueue d.queue p
        after_enqueue c self p accepted (record (emit (mac_tx p ∷ []) d) { queue = queued }))
      else ok (false, emit (mac_tx_drop packet ∷ []) d)

  abbrev is_other : ℕ → Option ℕ → Bool
  is_other self none = true
  is_other self (some d) = not (d == self)

  -- tmp->GetAddress () of the other device
  abbrev other_address : (ℕ → ℕ) → Option ℕ → Checked ℕ
  other_address address none = abort
  other_address address (some d) = ok (address d)

  -- The loop of GetRemote over the two devices.
  find_remote : ℕ → (ℕ → ℕ) → Option ℕ → Option ℕ → Checked ℕ
  find_remote self address first second =
      if is_other self first
      then other_address address first
      else if is_other self second
      then other_address address second
      else abort

  -- GetRemote; `address` gives each device's address.
  unfoldable pub get_remote : Channel → ℕ → (ℕ → ℕ) → Checked ℕ
  unfolding find_remote
  get_remote c self address = do
    assert (c.n_devices == 2)
    first ← get_device c 0
    second ← get_device c 1
    find_remote self address first second

  promiscuous : Bool → Packet → Packet → ℕ → ℕ → Device n → Device n
  promiscuous false original p protocol remote d = d
  promiscuous true original p protocol remote d =
      emit (mac_promisc_rx original ∷ promisc_callback p protocol remote ∷ []) d

  -- `corrupt` is what the error model says of the packet, false where there is none.
  unfoldable pub receive : Channel → ℕ → (ℕ → ℕ) → Bool → Packet → Device n → Checked (Device n)
  unfolding get_remote promiscuous
  receive c self address true packet d = ok (emit (phy_rx_drop packet ∷ []) d)
  receive c self address false packet d = do
    let traced = emit (sniffer packet ∷ promisc_sniffer packet ∷ phy_rx_end packet ∷ []) d
    (p, protocol) ← process_header n packet
    remote ← get_remote c self address
    let seen = promiscuous traced.promisc packet p protocol remote traced
    ok (emit (mac_rx packet ∷ mac_rx packet ∷ rx_callback p protocol remote ∷ []) seen)
