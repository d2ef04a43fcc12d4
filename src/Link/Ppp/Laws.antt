-- ===== src/Link/Ppp/Laws.antt =====
-- What holds of protocol numbers and headers.
use cs621_network_programmin.Common.{
  ℕ, ◌+◌, ◌≡◌, ◌⊎◌, inl, inr, ◌<◌, ◌^◌, ◌==◌, if◌then◌else◌, arith, ok, abort, ◌>>=◌, >>=-value,
  ◌≢◌,
}
use cs621_network_programmin.Link.Ns3.{Ns3}
use cs621_network_programmin.Link.Ppp.{
  ppp_to_ether, ether_to_ppp, add_header, process_header, print, PppHeader, set_protocol,
}

-- The protocols that the device can carry: IPv4, IPv6 and compressed IPv4.
abbrev pub Carried : ℕ → Type 0
Carried proto = (proto ≡ 0x0800) ⊎ (proto ≡ 0x86dd) ⊎ (proto ≡ 0x4021)

-- What a protocol number becomes on its way over the link.
abbrev pub delivered : ℕ → ℕ
delivered proto = if proto == 0x4021 then 0x0800 else proto

-- On the way to the wire and back IPv4 and IPv6 keep their number, and compressed IPv4 comes back
-- as IPv4. Any other number ends the program before anything is sent.
pub ppp_to_ether-ether_to_ppp :
    (proto : ℕ)
    → (Carried proto → (ether_to_ppp proto >>= ppp_to_ether) ≡ ok (delivered proto))
      × (¬ Carried proto → ether_to_ppp proto ≡ abort)
unfolding ether_to_ppp ppp_to_ether
ppp_to_ether-ether_to_ppp proto = (λ h. ground arith, λ h. ground arith)

pub ether_to_ppp-lt : (proto : ℕ) (ppp : ℕ) → ether_to_ppp proto ≡ ok ppp → ppp < 2 ^ 16
unfolding ether_to_ppp
ether_to_ppp-lt proto ppp h = ground arith

ppp_to_ether-lem :
    (proto ppp : ℕ) → ether_to_ppp proto ≡ ok ppp → ppp_to_ether ppp ≡ ok (delivered proto)
unfolding ether_to_ppp ppp_to_ether
ppp_to_ether-lem proto ppp h = ground arith

-- A header that the device writes can be printed.
pub print-ether_to_ppp :
    (proto ppp : ℕ) (h : PppHeader)
    → ether_to_ppp proto ≡ ok ppp
    → print (set_protocol ppp h) ≢ abort
unfolding ether_to_ppp print set_protocol
print-ether_to_ppp proto ppp h e = ground arith

module _ (n : Ns3) where
  open n use {Packet, size, bytes, write_hton_u16, add_at_start, remove_at_start}

  -- The packet behind a PPP header.
  abbrev pub framed : Packet → ℕ → Packet
  framed p ppp = add_at_start (write_hton_u16 ppp) p

  pub add_header_lem :
      (p q : Packet) (proto : ℕ)
      → add_header n p proto ≡ ok q
      → (ppp : ℕ) × (ether_to_ppp proto ≡ ok ppp) × (framed p ppp ≡ q)
  unfolding add_header
  add_header_lem p q proto h =
      let (ppp, e, r) = >>=-value (ether_to_ppp proto) _ q h in (ppp, e, cc)

  read-framed : (p : Packet) (ppp : ℕ) → ppp < 2 ^ 16 → n.read_ntoh_u16 (bytes (framed p ppp)) ≡ ppp
  read-framed p ppp h = rw (n.bytes-add (write_hton_u16 ppp) p) (n.read-write ppp (bytes p) h)

  strip-framed : (p : Packet) (ppp : ℕ) → remove_at_start 2 (framed p ppp) ≡ p
  strip-framed p ppp = rw (n.length-write ppp) at (n.remove-add (write_hton_u16 ppp) p)

  process_header-framed :
      (p : Packet) (ppp : ℕ)
      → ppp < 2 ^ 16
      → process_header n (framed p ppp) ≡ (ppp_to_ether ppp >>= λ param. ok (p, param))
  unfolding process_header
  process_header-framed p ppp h = rw (read-framed p ppp h, strip-framed p ppp)

  -- Taking the header off a packet that was given one brings back the packet and its protocol, a
  -- compressed packet as IPv4; the header is two bytes long.
  pub process_header-add_header :
      (p q : Packet) (proto : ℕ)
      → add_header n p proto ≡ ok q
      → (process_header n q ≡ ok (p, delivered proto)) × (size q ≡ size p + 2)
  process_header-add_header p q proto h =
      let (ppp, e, f) = add_header_lem p q proto h in
      let back : (ppp_to_ether ppp ≡ ok (delivered proto)) = ppp_to_ether-lem proto ppp e in
      (
        rw (← f) (rw (process_header-framed p ppp (ether_to_ppp-lt proto ppp e), back)),
        rw (← f) (omega (arith, n.size-add (write_hton_u16 ppp) p, n.length-write ppp)),
      )

  pub add_header-ok :
      (p : Packet) (proto : ℕ) → Carried proto → (q : Packet) × (add_header n p proto ≡ ok q)
  unfolding add_header ether_to_ppp
  add_header-ok p proto (inl e) = (framed p 0x0021, rw e)
  add_header-ok p proto (inr (inl e)) = (framed p 0x0057, rw e)
  add_header-ok p proto (inr (inr e)) = (framed p 0x4021, rw e)
