-- ===== src/Detection/Client/Payload.antt =====
-- Send never fails its assertions, whatever was called before it.
use cs621_network_programmin.Common.{
  ℕ, zero, suc, ◌+◌, ◌≡◌, refl, ◌<◌, Bool, Option, none, some, List, [], ◌∷◌, length, ltb,
  if◌then◌else◌, arith, ok, ap, ◌∙◌, dec_lt,
}
use cs621_network_programmin.Detection.Client.{
  Memory, Client, Packet, of_bytes, of_size, new, set_data_size, set_fill_text, set_fill_byte,
  set_fill_pattern, set_fill_random, create, create_and_count, bytes_from, u32, filled,
}

abbrev HasBuffer : Option Memory → Type 0
HasBuffer none = ⊥
HasBuffer (some m) = Unit

-- A client with a payload has a buffer of the size that it sends.
pub record IsReady (c : Client) : Type 0 where
  pub agree : 0 < c.data_size → c.data_size ≡ c.size
  pub buffered : 0 < c.data_size → HasBuffer c.buffer

-- What can be called on a client before it is started. A call of SetFill with a pattern comes with
-- its fuel, and changes nothing if that is short.
pub data Setup : Type 0 where
  data_size : ℕ → Setup
  fill_text : (fresh text : Memory) → ℕ → Setup
  fill_byte : (fresh : Memory) → (fill size : ℕ) → Setup
  fill_with : (fuel : ℕ) → (fresh fill : Memory) → (fill_size size : ℕ) → Setup
  fill_random : (fresh random stack : Memory) → Bool → ℕ → Setup

abbrev kept : Client → Option Client → Client
kept c none = c
kept c (some c') = c'

unfoldable pub set_up : Setup → Client → Client
set_up (data_size n) c = set_data_size n c
set_up (fill_text fresh text n) c = set_fill_text fresh text n c
set_up (fill_byte fresh fill n) c = set_fill_byte fresh fill n c
set_up (fill_with fuel fresh fill m n) c = kept c (set_fill_pattern fuel fresh fill m n c)
set_up (fill_random fresh random stack comp n) c = set_fill_random fresh random stack comp n c

unfoldable pub set_up_all : List Setup → Client → Client
unfolding set_up
set_up_all [] c = c
set_up_all (s ∷ ss) c = set_up_all ss (set_up s c)

filled-IsReady :
    (fresh : Memory) (n : ℕ) (f : Memory → Memory) (c : Client)
    → IsReady c
    → IsReady (filled fresh n f c)
unfolding filled
filled-IsReady fresh n f c v = ground arith

set_fill_pattern-IsReady :
    (fuel : ℕ) (fresh fill : Memory) (m n : ℕ) (c : Client)
    → IsReady c
    → IsReady (kept c (set_fill_pattern fuel fresh fill m n c))
unfolding set_fill_pattern
set_fill_pattern-IsReady fuel fresh fill m n c v = ground arith

set_up-IsReady : (s : Setup) (c : Client) → IsReady c → IsReady (set_up s c)
unfolding set_up set_fill_text set_fill_byte set_fill_random
set_up-IsReady (data_size n) c v = unfold set_data_size in ground arith
set_up-IsReady (fill_text fresh text n) c v = filled-IsReady fresh _ _ c v
set_up-IsReady (fill_byte fresh fill n) c v = filled-IsReady fresh _ _ c v
set_up-IsReady (fill_with fuel fresh fill m n) c v =
    set_fill_pattern-IsReady fuel fresh fill m n c v
set_up-IsReady (fill_random fresh random stack comp n) c v = filled-IsReady fresh _ _ c v

pub set_up_all-IsReady : (ss : List Setup) (c : Client) → IsReady c → IsReady (set_up_all ss c)
unfolding set_up_all
set_up_all-IsReady [] c v = v
set_up_all-IsReady (s ∷ ss) c v = set_up_all-IsReady ss (set_up s c) (set_up-IsReady s c v)

-- A setting of the payload keeps what is counted.
abbrev pub Counts : Client → Client → Type 0
Counts c c' = (c'.count ≡ c.count) × (c'.sent ≡ c.sent)

kept-Counts :
    (fuel : ℕ) (fresh fill : Memory) (m n : ℕ) (c : Client)
    → Counts c (kept c (set_fill_pattern fuel fresh fill m n c))
unfolding set_fill_pattern
kept-Counts fuel fresh fill m n c = (ground arith, ground arith)

set_up-Counts : (s : Setup) (c : Client) → Counts c (set_up s c)
unfolding set_up set_fill_text set_fill_byte set_fill_random set_data_size filled
set_up-Counts (data_size n) c = (ground arith, ground arith)
set_up-Counts (fill_text fresh text n) c = (ground arith, ground arith)
set_up-Counts (fill_byte fresh fill n) c = (ground arith, ground arith)
set_up-Counts (fill_with fuel fresh fill m n) c = kept-Counts fuel fresh fill m n c
set_up-Counts (fill_random fresh random stack comp n) c = (ground arith, ground arith)

pub set_up_all-Counts : (ss : List Setup) (c : Client) → Counts c (set_up_all ss c)
unfolding set_up_all
set_up_all-Counts [] c = (refl, refl)
set_up_all-Counts (s ∷ ss) c =
    let (count, sent) = set_up-Counts s c in
    let (counts, sends) = set_up_all-Counts ss (set_up s c) in (counts ∙ count, sends ∙ sent)

pub new-IsReady : (count interval size : ℕ) → IsReady (new count interval size)
unfolding new
new-IsReady count interval size = ground arith

abbrev pub packet_size : Packet → ℕ
packet_size (of_bytes bs) = length bs
packet_size (of_size n) = n

length-bytes_from : (m : Memory) (at n : ℕ) → length (bytes_from m at n) ≡ n
unfolding bytes_from
length-bytes_from m at zero = refl
length-bytes_from m at (suc n) = ap suc (length-bytes_from m (at + 1) n)

-- What Send creates for a client that is ready.
abbrev pub Creates : Client → Type 0
Creates c = (p : Packet) × (create c ≡ ok p) × (packet_size p ≡ c.size)

create_buffer :
    (c : Client) (b : Option Memory) → c.buffer ≡ b → IsReady c → 0 < c.data_size → Creates c
unfolding create
create_buffer c none e v h = absurd (rw e at (v.buffered h))
create_buffer c (some m) e v h = (
  of_bytes (bytes_from m 0 c.data_size),
  ground (arith, v.agree h),
  length-bytes_from m 0 c.data_size ∙ v.agree h,
)

pub create-Creates : (c : Client) → IsReady c → Creates c
create-Creates c v = elim (dec_lt 0 c.data_size) [
  | yes h ↦ create_buffer c c.buffer refl v h
  | no h ↦ (of_size c.size, unfold create in ground arith, refl)
]

-- From a client that is ready, Send creates a packet of the client's size, counts it in 32 bits, and
-- is scheduled again exactly if the count is below MaxPackets; the client is still ready.
pub create_and_count-IsReady :
    (c : Client)
    → IsReady c
    → (p : Packet) × (create_and_count c
        ≡ ok (
          p,
          record c { sent = u32 (c.sent + 1) },
          (if ltb (u32 (c.sent + 1)) c.count then some c.interval else none),
        ))
      × (packet_size p ≡ c.size)
      × IsReady (record c { sent = u32 (c.sent + 1) })
unfolding create_and_count
create_and_count-IsReady c v =
    let (p, e, s) = create-Creates c v in
    (p, rw e, s, record { agree = v.agree; buffered = v.buffered })
