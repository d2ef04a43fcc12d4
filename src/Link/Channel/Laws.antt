-- ===== src/Link/Channel/Laws.antt =====
-- What holds of a channel that its devices were attached to.
use cs621_network_programmin.Common.{
  ℕ, ◌+◌, ◌≡◌, ◌≢◌, refl, sym, ◌⊎◌, inl, inr, true, some, arith, ok, abort, ◌>>=◌,
}
use cs621_network_programmin.Link.Channel.{Channel, new, attach, transmit_start, idle}

-- A channel that joins device `a` to device `b`.
pub record Joins (c : Channel) (a b : ℕ) : Type 0 where
  pub full : c.n_devices ≡ 2
  pub idle0 : c.link0.state ≡ idle
  pub idle1 : c.link1.state ≡ idle
  pub src0 : c.link0.src ≡ some a
  pub dst0 : c.link0.dst ≡ some b
  pub src1 : c.link1.src ≡ some b
  pub dst1 : c.link1.dst ≡ some a

-- Attaching two devices to a new channel joins them, and a third device is refused by the
-- assertion.
pub attach-Joins :
    (delay a b : ℕ)
    → (c : Channel) × ((attach (new delay) a >>= λ c1. attach c1 b) ≡ ok c)
      × Joins c a b
      × (c.delay ≡ delay)
      × ((d : ℕ) → attach c d ≡ abort)
unfolding attach new
attach-Joins delay a b = (_, refl, ground arith, refl, λ d. refl)

-- What one end of a joined channel transmits is delivered to the other end, after the time on the
-- wire and the delay, and TransmitStart never fails.
pub transmit_start-other_end :
    (c : Channel) (a b tx_time : ℕ)
    → Joins c a b
    → a ≢ b
    → (transmit_start c a tx_time ≡ ok (true, record { device = b; after = tx_time + c.delay }))
      × (transmit_start c b tx_time ≡ ok (true, record { device = a; after = tx_time + c.delay }))
unfolding transmit_start
transmit_start-other_end c a b tx_time j d = ground arith

-- Before both devices are attached a transmission ends the program.
pub transmit_start-uninitialized :
    (delay a src tx_time : ℕ) (c : Channel)
    → attach (new delay) a ≡ ok c
    → transmit_start c src tx_time ≡ abort
unfolding attach new transmit_start
transmit_start-uninitialized delay a src tx_time c h = ground arith

-- The device `self` is one end of the channel and `other` the other end.
pub record Connects (c : Channel) (self other : ℕ) : Type 0 where
  pub ends : Joins c self other ⊎ Joins c other self
  pub apart : self ≢ other

pub Connects-sym : (c : Channel) (self other : ℕ) → Connects c self other → Connects c other self
Connects-sym c self other k = record {
  ends = elim k.ends [ inl j ↦ inr j | inr j ↦ inl j ];
  apart = λ e. k.apart (sym e);
}

pub transmit_start-Connects :
    (c : Channel) (self other tx_time : ℕ)
    → Connects c self other
    → transmit_start c self tx_time
      ≡ ok (true, record { device = other; after = tx_time + c.delay })
transmit_start-Connects c self other tx_time k = elim k.ends [
  | inl j ↦ (transmit_start-other_end c self other tx_time j k.apart).0
  | inr j ↦ (transmit_start-other_end c other self tx_time j (λ e. k.apart (sym e))).1
]
