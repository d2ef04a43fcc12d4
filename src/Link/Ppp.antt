-- ===== src/Link/Ppp.antt =====
-- model/ppp-header.cc, and the protocol numbers and headers of model/point-to-point-net-device.cc.
pub mod Laws
use cs621_network_programmin.Common.{
  ℕ, String, List, ◌==◌, if◌then◌else◌, str_concat, Checked, ok, abort, ◌>>=◌,
}
use cs621_network_programmin.Link.Ns3.{Ns3}

-- class PppHeader, with `uint16_t m_protocol`
pub record PppHeader : Type 0 where
  pub protocol : ℕ

unfoldable pub set_protocol : ℕ → PppHeader → PppHeader
set_protocol protocol h = record h { protocol = protocol }

unfoldable pub get_protocol : PppHeader → ℕ
get_protocol h = h.protocol

abbrev pub get_serialized_size : ℕ
get_serialized_size = 2

unfoldable pub print : PppHeader → Checked String
print h =
    let head = str_concat "Point-to-Point Protocol: " in
    if h.protocol == 0x0021
    then ok (head "IP (0x0021)")
    else if h.protocol == 0x0057
    then ok (head "IPv6 (0x0057)")
    else if h.protocol == 0x4021
    then ok (head "IP Compression (0x4021)")
    else abort

-- PointToPointNetDevice::PppToEther
unfoldable pub ppp_to_ether : ℕ → Checked ℕ
ppp_to_ether proto =
    if proto == 0x0021
    then ok 0x0800
    else if proto == 0x0057
    then ok 0x86dd
    else if proto == 0x4021
    then ok 0x0800
    else if proto == 0x0000
    then ok 0x0800
    else abort

-- PointToPointNetDevice::EtherToPpp
unfoldable pub ether_to_ppp : ℕ → Checked ℕ
ether_to_ppp proto =
    if proto == 0x0800
    then ok 0x0021
    else if proto == 0x86dd
    then ok 0x0057
    else if proto == 0x4021
    then ok 0x4021
    else abort

module _ (n : Ns3) where
  open n use {Packet, write_hton_u16, read_ntoh_u16, bytes, add_at_start, remove_at_start}

  unfoldable pub serialize : PppHeader → List ℕ
  serialize h = write_hton_u16 h.protocol

  -- The header that is read, and the number of bytes taken.
  unfoldable pub deserialize : List ℕ → PppHeader × ℕ
  deserialize start = (record { protocol = read_ntoh_u16 start }, get_serialized_size)

  -- PointToPointNetDevice::AddHeader; a default PppHeader has no protocol until it is set.
  unfoldable pub add_header : Packet → ℕ → Checked Packet
  unfolding serialize
  add_header p protocol_number = do
    proto ← ether_to_ppp protocol_number
    ok (add_at_start (serialize (record { protocol = proto })) p)

  -- PointToPointNetDevice::ProcessHeader: the packet without its header, and `param`.
  unfoldable pub process_header : Packet → Checked (Packet × ℕ)
  unfolding deserialize get_protocol
  process_header p = do
    let (ppp, taken) = deserialize (bytes p)
    param ← ppp_to_ether (get_protocol ppp)
    ok (remove_at_start taken p, param)
