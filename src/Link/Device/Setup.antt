-- ===== src/Link/Device/Setup.antt =====
-- The constructor and Attach of a device, and the two calls of Attach that PointToPointHelper::Install
-- makes on a new channel.
use cs621_network_programmin.Common.{
  ℕ, ◌≡◌, ◌≢◌, refl, sym, ap, true, false, none, [], inl, inr, arith, Checked, ok, ◌>>=◌,
}
use cs621_network_programmin.Link.Ns3.{Ns3}
use cs621_network_programmin.Link.Channel.{Channel, new}
use cs621_network_programmin.Link.Channel
use cs621_network_programmin.Link.Channel.Laws.{Connects, attach-Joins}
use cs621_network_programmin.Link.Device.{Device, ready, notify_link_up}
use cs621_network_programmin.Link.Device.Steps.{Inv}

module _ (n : Ns3) where
  open n use {Queue, contents}

  -- The constructor, with the attributes DataRate and InterframeGap and the queue of SetQueue.
  unfoldable pub new_device : (bps interframe_gap : ℕ) → Queue → Device n
  new_device bps interframe_gap queue = record {
    tx_state = ready;
    bps = bps;
    interframe_gap = interframe_gap;
    queue = queue;
    current_pkt = none;
    link_up = false;
    compression_flag = false;
    decompression_flag = false;
    promisc = false;
    log = [];
  }

  -- Attach: the device `self` on the channel.
  unfoldable pub attach_device : Channel → ℕ → Device n → Checked (Channel × Device n)
  unfolding notify_link_up
  attach_device c self d = do c' ← Channel.attach c self; ok (c', notify_link_up n d)

  -- Install: both devices on a new channel.
  unfoldable pub install :
      ℕ → (a b : ℕ) → (da db : Device n) → Checked (Channel × Device n × Device n)
  unfolding attach_device
  install delay a b da db = do
    (c, da') ← attach_device (new delay) a da
    (c', db') ← attach_device c b db
    ok (c', da', db')

  -- A device that is ready for any run of Send and TransmitComplete towards the other end.
  pub record IsConnected (c : Channel) (self other : ℕ) (d : Device n) : Type 0 where
    pub up : d.link_up ≡ true
    pub connects : Connects c self other
    pub inv : Inv n d

  attached-Inv :
      (bps gap : ℕ) (q : Queue) → contents q ≡ [] → Inv n (notify_link_up n (new_device bps gap q))
  unfolding notify_link_up new_device
  attached-Inv bps gap q e = record { holds = (refl, e); due = omega arith }

  attached-up : (d : Device n) → (notify_link_up n d).link_up ≡ true
  unfolding notify_link_up
  attached-up d = refl

  pub install-attach :
      (delay a b : ℕ) (da db : Device n) (c : Channel)
      → (Channel.attach (new delay) a >>= λ c1. Channel.attach c1 b) ≡ ok c
      → install delay a b da db ≡ ok (c, notify_link_up n da, notify_link_up n db)
  unfolding install Channel.attach new
  install-attach delay a b da db c h =
      ap (λ r. r >>= λ c'. ok (c', notify_link_up n da, notify_link_up n db)) h

  -- Installing two different new devices with empty queues on a new channel succeeds; after it each
  -- device is up, holds what its state says, and is connected by the channel to the other.
  pub install-IsConnected :
      (delay a b bps gap : ℕ) (qa qb : Queue)
      → a ≢ b
      → contents qa ≡ []
      → contents qb ≡ []
      → (c : Channel) × (da : Device n) × (db : Device n) × (install delay a b
            (new_device bps gap qa)
            (new_device bps gap qb)
          ≡ ok (c, da, db))
        × IsConnected c a b da
        × IsConnected c b a db
  install-IsConnected delay a b bps gap qa qb d ea eb =
      let (c, attached, joins, _, _) = attach-Joins delay a b in
      (
        c,
        notify_link_up n (new_device bps gap qa),
        notify_link_up n (new_device bps gap qb),
        install-attach delay a b _ _ c attached,
        record {
          up = attached-up _;
          connects = record { ends = inl joins; apart = d };
          inv = attached-Inv bps gap qa ea;
        },
        record {
          up = attached-up _;
          connects = record { ends = inr joins; apart = λ e. d (sym e) };
          inv = attached-Inv bps gap qb eb;
        },
      )
