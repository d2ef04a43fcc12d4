-- ===== src/Link/Helper.antt =====
-- helper/point-to-point-helper.cc: Install of two nodes, with the choice between the ordinary channel
-- and the one of a distributed simulation. The nodes' lists of devices and the addresses are ns-3's.
mod Tests
use cs621_network_programmin.Common.{
  ℕ, ◌≡◌, ◌≢◌, ◌↔◌, refl, ap, ◌∙◌, ◌⊎◌, inl, inr, Bool, true, false, Bool-cases, not, ◌||◌, ◌==◌,
  Option, none, some, List, [], ◌∷◌, if◌then◌else◌, arith, Checked, ok, abort, assert, ◌>>=◌, ◌>>◌,
}
use cs621_network_programmin.Link.Ns3.{Ns3}
use cs621_network_programmin.Link.Channel.{Channel}
use cs621_network_programmin.Link.Device.{Device}
use cs621_network_programmin.Link.Device.Setup.{
  new_device, install, IsConnected, install-IsConnected,
}

-- The ranks: that of this process if MPI is enabled.
unfoldable pub use_normal_channel : Option ℕ → (a b : ℕ) → Bool
use_normal_channel none a b = true
use_normal_channel (some current) a b = not (not (a == current) || not (b == current))

module _ (n : Ns3) where
  open n use {Queue, contents}

  -- A node with the number of the device that Install puts on it, that device's queue and the rank
  -- (the system id) of the node.
  pub record Node : Type 0 where
    pub device : ℕ
    pub queue : Queue
    pub system_id : ℕ

  -- What Install makes. `receivers` are the devices that get an MPI receiver.
  pub record Installed : Type 0 where
    pub channel : Channel
    pub is_remote : Bool
    pub first : Device n
    pub second : Device n
    pub receivers : List ℕ

  -- The devices' factory has the attributes DataRate and InterframeGap, the channel's Delay.
  unfoldable pub install_nodes :
      (mpi : Option ℕ) (delay bps gap : ℕ) → Node → Node → Checked Installed
  unfolding use_normal_channel
  install_nodes mpi delay bps gap a b = do
    let normal = use_normal_channel mpi a.system_id b.system_id
    (c, da, db) ←
        install n delay a.device b.device (new_device n bps gap a.queue)
          (new_device n bps gap b.queue)
    ok (record {
      channel = c;
      is_remote = not normal;
      first = da;
      second = db;
      receivers = (if normal then [] else a.device ∷ b.device ∷ []);
    })

  -- Install (NodeContainer)
  unfoldable pub install_container :
      (mpi : Option ℕ) (delay bps gap : ℕ) → List Node → Checked Installed
  unfolding install_nodes
  install_container mpi delay bps gap (a ∷ b ∷ []) = install_nodes mpi delay bps gap a b
  install_container mpi delay bps gap nodes = abort

  -- Whether MPI is on and one of the nodes is at another rank.
  abbrev pub IsApart : Option ℕ → Node → Node → Type 0
  IsApart none a b = ⊥
  IsApart (some current) a b = (a.system_id ≢ current) ⊎ (b.system_id ≢ current)

  -- A link between the two nodes.
  pub record Links (mpi : Option ℕ) (a b : Node) (i : Installed) : Type 0 where
    pub ahead : IsConnected n i.channel a.device b.device i.first
    pub back : IsConnected n i.channel b.device a.device i.second
    pub remote : (i.is_remote ≡ true) ↔ IsApart mpi a b
    pub receives : i.receivers ≡ (if i.is_remote then a.device ∷ b.device ∷ [] else [])

  IsApart-iff :
      (mpi : Option ℕ) (a b : Node)
      → (not (use_normal_channel mpi a.system_id b.system_id) ≡ true) ↔ IsApart mpi a b
  unfolding use_normal_channel
  IsApart-iff none a b = ground arith
  IsApart-iff (some current) a b = grind arith

  receivers-of :
      (normal : Bool) (rs : List ℕ) → (if normal then [] else rs) ≡ (if not normal then rs else [])
  receivers-of true rs = refl
  receivers-of false rs = refl

  -- Install of two nodes with different devices and empty queues succeeds. Each device is up and is
  -- connected by the channel to the other; the channel is the remote one exactly if MPI is enabled and
  -- one of the nodes is at another rank than this process, and exactly then both devices get an MPI
  -- receiver.
  pub install_container-Links :
      (mpi : Option ℕ) (delay bps gap : ℕ) (a b : Node)
      → a.device ≢ b.device
      → contents a.queue ≡ []
      → contents b.queue ≡ []
      → (i : Installed) × (install_container mpi delay bps gap (a ∷ b ∷ []) ≡ ok i)
        × Links mpi a b i
  unfolding install_container install_nodes
  install_container-Links mpi delay bps gap a b d ea eb =
      let (c, da, db, e, ahead, back) =
        install-IsConnected n delay a.device b.device bps gap a.queue b.queue d ea eb in
      let normal = use_normal_channel mpi a.system_id b.system_id in
      (
        record {
          channel = c;
          is_remote = not normal;
          first = da;
          second = db;
          receivers = (if normal then [] else a.device ∷ b.device ∷ []);
        },
        ap
            (λ r. r >>= λ t. ok (record {
              channel = t.0;
              is_remote = not normal;
              first = t.1;
              second = t.2;
              receivers = (if normal then [] else a.device ∷ b.device ∷ []);
            }))
            e,
        record {
          ahead = ahead;
          back = back;
          remote = IsApart-iff mpi a b;
          receives = receivers-of normal (a.device ∷ b.device ∷ []);
        },
      )
