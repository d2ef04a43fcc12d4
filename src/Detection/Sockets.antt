-- ===== src/Detection/Sockets.antt =====
-- What the client and the server use of the sockets of ns-3's modules network and internet, which are
-- not part of the repository, as a parameter with its documented behaviour; and the loop over
-- RecvFrom that both have.
pub mod Drain
pub mod Sample
use cs621_network_programmin.Common.{
  ℕ, zero, suc, ◌≡◌, Bool, true, false, Option, none, some, List, [], ◌∷◌, ◌++◌,
}

pub record Sockets : Type 1 where
  pub Packet : Type 0
  pub Address : Type 0
  -- IsMatchingType of Ipv4Address, Ipv6Address, InetSocketAddress and Inet6SocketAddress
  pub is_ipv4 : Address → Bool
  pub is_ipv6 : Address → Bool
  pub is_inet : Address → Bool
  pub is_inet6 : Address → Bool
  -- addressUtils::IsMulticast
  pub is_multicast : Address → Bool
  -- InetSocketAddress and Inet6SocketAddress, of an address or of any, with a port
  pub inet : Address → ℕ → Address
  pub inet6 : Address → ℕ → Address
  pub inet_any : ℕ → Address
  pub inet6_any : ℕ → Address
  -- UDP sockets. A socket can be used until Close; while it has a callback, what it receives is
  -- handed to that.
  pub Socket : Type 0
  pub is_open : Socket → Bool
  pub has_callback : Socket → Bool
  pub created : Socket
  pub created-is_open : is_open created ≡ true
  -- Bind (address), Bind (), Bind6 (): whether they succeed, and the socket
  pub bind : Address → Socket → Bool × Socket
  pub bind_any : Socket → Bool × Socket
  pub bind_any6 : Socket → Bool × Socket
  pub bind-is_open : (a : Address) (s : Socket) → is_open (bind a s).1 ≡ is_open s
  pub bind_any-is_open : (s : Socket) → is_open (bind_any s).1 ≡ is_open s
  pub bind_any6-is_open : (s : Socket) → is_open (bind_any6 s).1 ≡ is_open s
  -- UdpSocket::MulticastJoinGroup (0, group), if the cast to UdpSocket succeeds
  pub join_group : Address → Socket → Option Socket
  pub join_group-is_open :
      (a : Address) (s t : Socket) → join_group a s ≡ some t → is_open t ≡ is_open s
  pub connect : Address → Socket → Socket
  pub connect-is_open : (a : Address) (s : Socket) → is_open (connect a s) ≡ is_open s
  pub allow_broadcast : Socket → Socket
  pub allow_broadcast-is_open : (s : Socket) → is_open (allow_broadcast s) ≡ is_open s
  pub allow_broadcast-has_callback :
      (s : Socket) → has_callback (allow_broadcast s) ≡ has_callback s
  -- SetRecvCallback, with a callback or with the null callback
  pub set_callback : Bool → Socket → Socket
  pub set_callback-is_open : (b : Bool) (s : Socket) → is_open (set_callback b s) ≡ is_open s
  pub set_callback-has_callback : (b : Bool) (s : Socket) → has_callback (set_callback b s) ≡ b
  pub close : Socket → Socket
  pub close-is_open : (s : Socket) → is_open (close s) ≡ false
  -- GetSockName
  pub sock_name : Socket → Address
  -- RecvFrom: the packet that has waited longest and its sender, or null
  pub waiting : Socket → List (Packet × Address)
  pub recv_from : Socket → Option (Packet × Address) × Socket
  pub recv_from-nil :
      (s : Socket) → waiting s ≡ [] → ((recv_from s).0 ≡ none) × (waiting (recv_from s).1 ≡ [])
  pub recv_from-cons :
      (s : Socket) (m : Packet × Address) (ms : List (Packet × Address))
      → waiting s ≡ m ∷ ms
      → ((recv_from s).0 ≡ some m) × (waiting (recv_from s).1 ≡ ms)
  pub recv_from-sock_name : (s : Socket) → sock_name (recv_from s).1 ≡ sock_name s

-- What an application does to others: the trace sources and the calls on packets and sockets.
pub data Effect (Packet Address : Type 0) : Type 0 where
  tx : Packet → Effect Packet Address
  tx_with_addresses : Packet → (local peer : Address) → Effect Packet Address
  sends : Packet → Effect Packet Address
  rx : Packet → Effect Packet Address
  rx_with_addresses : Packet → (from local : Address) → Effect Packet Address
  remove_tags : Packet → Effect Packet Address

module _ (k : Sockets) where
  open k use {Packet, Address, Socket, recv_from, sock_name}

  -- while ((packet = socket->RecvFrom (from))), on fuel: what the loop does, and the socket after it;
  -- `none` if the fuel is short. `body` takes the packet, its sender and the socket's own name.
  unfoldable pub drain :
      ℕ
      → (Packet → Address → Address → List (Effect Packet Address))
      → Socket
      → Option (List (Effect Packet Address) × Socket)
  drain zero body s = none
  drain (suc fuel) body s =
      let (m, s') = recv_from s in
      let rest = drain fuel body s' in
      elim m [
        | none ↦ some ([], s')
        | some (p, from) ↦ elim rest [
          | none ↦ none
          | some (effects, last) ↦ some (body p from (sock_name s') ++ effects, last)
        ]
      ]
