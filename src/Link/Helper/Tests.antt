-- ===== src/Link/Helper/Tests.antt =====
-- Links that the helper installs, and the channel of a distributed simulation, on the sample network.
use cs621_network_programmin.Common.{◌+◌, ◌≡◌, refl, true, some, [], ◌∷◌, arith, ok, ◌>>=◌}
use cs621_network_programmin.Link.Channel
use cs621_network_programmin.Link.Sample.{net, wire}
use cs621_network_programmin.Link.Remote
use cs621_network_programmin.Link.Remote.{forwarded, transmit_start-forwarded}
use cs621_network_programmin.Link.Helper.{
  Node, Installed, install_container, Links, install_container-Links,
}

abbrev node_a : Node net
node_a = record { device = 0; queue = []; system_id = 0 }

abbrev node_b : Node net
node_b = record { device = 1; queue = []; system_id = 3 }

install_container-Links_example :
    (i : Installed net) × (install_container net
        (some 0)
        10_000_000
        1_000_000
        0
        (node_a ∷ node_b ∷ [])
      ≡ ok i)
    × Links net (some 0) node_a node_b i
install_container-Links_example =
    install_container-Links net (some 0) 10_000_000 1_000_000 0 node_a node_b (omega arith) refl
      refl

-- Device `d` is interface 0 of node `d + 7`.
transmit_start-forwarded_example :
    Remote.transmit_start (λ d. d + 7) (λ d. 0) true 5 wire 0 100
    ≡ (Channel.transmit_start wire 0 100 >>= λ r. ok (forwarded (λ d. d + 7) (λ d. 0) 5 r))
transmit_start-forwarded_example = transmit_start-forwarded (λ d. d + 7) (λ d. 0) 5 wire 0 100
