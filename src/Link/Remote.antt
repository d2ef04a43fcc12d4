-- ===== src/Link/Remote.antt =====
-- model/point-to-point-remote-channel.cc: the channel between two ranks of a distributed simulation.
-- The MPI interface is ns-3's: what goes to it is a value.
use cs621_network_programmin.Common.{
  ℕ, ◌+◌, ◌≡◌, arith, Bool, true, Option, none, some, ◌==◌, if◌then◌else◌, Checked, ok, abort,
  assert, ◌>>=◌, ◌>>◌,
}
use cs621_network_programmin.Link.Channel.{Channel, Delivery, is_device, is_initialized}
use cs621_network_programmin.Link.Channel

-- GetSource and GetDestination
abbrev pub get_source : Channel → ℕ → Option ℕ
get_source c i = (if i == 0 then c.link0 else c.link1).src

abbrev pub get_destination : Channel → ℕ → Option ℕ
get_destination c i = (if i == 0 then c.link0 else c.link1).dst

-- What MpiInterface::SendPacket is given with the packet: when it is to be received, and where.
pub record Message : Type 0 where
  pub rx_time : ℕ
  pub node : ℕ
  pub interface : ℕ

-- `node_id` and `if_index` are those of each device.
module _ (node_id if_index : ℕ → ℕ) where
  abbrev pub message : ℕ → Option ℕ → Checked (Bool × Message)
  message rx_time none = abort
  message rx_time (some device) =
      ok (true, record { rx_time = rx_time; node = node_id device; interface = if_index device })

  -- TransmitStart at the time `now`; `has_mpi` says whether ns-3 is compiled with MPI.
  unfoldable pub transmit_start : Bool → ℕ → Channel → (src tx_time : ℕ) → Checked (Bool × Message)
  transmit_start has_mpi now c src tx_time = do
    initialized ← is_initialized c
    let wire = if is_device (get_source c 0) src then 0 else 1
    assert has_mpi
    message (now + tx_time + c.delay) (get_destination c wire)

  -- The message of a delivery on the ordinary channel.
  abbrev pub forwarded : ℕ → Bool × Delivery → Bool × Message
  forwarded now (result, d) = (
    result,
    record { rx_time = now + d.after; node = node_id d.device; interface = if_index d.device },
  )

  -- With MPI, TransmitStart of the remote channel does what TransmitStart of the ordinary channel
  -- does, on every channel, attached to or not: it fails an assertion or meets a null device exactly
  -- where the other does, and otherwise has the packet received by the same device at the same time.
  pub transmit_start-forwarded :
      (now : ℕ) (c : Channel) (src tx_time : ℕ)
      → transmit_start true now c src tx_time
        ≡ (Channel.transmit_start c src tx_time >>= λ r. ok (forwarded now r))
  unfolding transmit_start Channel.transmit_start is_initialized
  transmit_start-forwarded now c src tx_time = ground arith
