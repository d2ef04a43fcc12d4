-- ===== src/Link/Channel.antt =====
-- model/point-to-point-channel.cc and .h. A device is known by its number; times are nanoseconds.
pub mod Laws
use cs621_network_programmin.Common.{
  ℕ, ◌+◌, Bool, true, false, Option, none, some, ltb, ◌==◌, if◌then◌else◌, Checked, ok, abort,
  assert, ◌>>=◌, ◌>>◌, ◌&&◌, not,
}

-- enum WireState
pub data WireState : Type 0 where
  initializing idle transmitting propagating : WireState

-- class Link
pub record Link : Type 0 where
  pub state : WireState
  pub src : Option ℕ
  pub dst : Option ℕ

-- class PointToPointChannel; `link0` and `link1` are the array `m_link`
pub record Channel : Type 0 where
  pub delay : ℕ
  pub n_devices : ℕ
  pub link0 : Link
  pub link1 : Link

abbrev pub n_devices_max : ℕ
n_devices_max = 2

abbrev new_link : Link
new_link = record { state = initializing; src = none; dst = none }

-- The constructor, with the attribute Delay.
unfoldable pub new : ℕ → Channel
new delay = record { delay = delay; n_devices = 0; link0 = new_link; link1 = new_link }

abbrev pub is_initializing : WireState → Bool
is_initializing initializing = true
is_initializing _ = false

-- m_link[m_nDevices++].m_src = device
add_device : Channel → ℕ → Channel
add_device c device =
    if c.n_devices == 0
    then record c { n_devices = c.n_devices + 1; link0 = record c.link0 { src = some device } }
    else record c { n_devices = c.n_devices + 1; link1 = record c.link1 { src = some device } }

-- The end of Attach: with both devices there, the two halves are introduced to one another.
introduce : Channel → Channel
introduce c =
    if c.n_devices == n_devices_max
    then record c {
      link0 = record { state = idle; src = c.link0.src; dst = c.link1.src };
      link1 = record { state = idle; src = c.link1.src; dst = c.link0.src };
    }
    else c

unfoldable pub attach : Channel → ℕ → Checked Channel
unfolding add_device introduce
attach c device = do assert (ltb c.n_devices n_devices_max); ok (introduce (add_device c device))

-- What TransmitStart schedules: the delivery to a device, after a time.
pub record Delivery : Type 0 where
  pub device : ℕ
  pub after : ℕ

abbrev pub is_device : Option ℕ → ℕ → Bool
is_device none device = false
is_device (some d) device = d == device

-- m_link[wire].m_dst->GetNode () of a null pointer ends the program.
abbrev deliver : Option ℕ → ℕ → Checked (Bool × Delivery)
deliver none after = abort
deliver (some device) after = ok (true, record { device = device; after = after })

unfoldable pub transmit_start : Channel → ℕ → ℕ → Checked (Bool × Delivery)
transmit_start c src tx_time = do
  assert (not (is_initializing c.link0.state))
  assert (not (is_initializing c.link1.state))
  let wire = if is_device c.link0.src src then c.link0 else c.link1
  deliver wire.dst (tx_time + c.delay)

-- GetDevice: the source of link i.
unfoldable pub get_device : Channel → ℕ → Checked (Option ℕ)
get_device c i = do assert (ltb i 2); ok ((if i == 0 then c.link0 else c.link1).src)

unfoldable pub is_initialized : Channel → Checked Bool
is_initialized c = do
  assert (not (is_initializing c.link0.state))
  assert (not (is_initializing c.link1.state))
  ok true
