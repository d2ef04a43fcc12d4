-- ===== src/Detection/Client.antt =====
-- applications/model/request-response-client.cc and .h: the payload, and the packets that
-- Send creates. Memory is a function from offsets to bytes, a `uint32_t` is a number with its
-- wrap-around written out, times are nanoseconds.
pub mod Payload
pub mod Fill
pub mod Train
pub mod App
use cs621_network_programmin.Common.{
  ℕ, zero, suc, ◌+◌, ◌-◌, ◌%◌, ◌^◌, Bool, true, false, Option, none, some, List, [], ◌∷◌, ltb, leb,
  ◌==◌, if◌then◌else◌, ◌&&◌, Checked, ok, abort, assert, ◌>>=◌, ◌>>◌,
}

abbrev pub Memory : Type 0
Memory = ℕ → ℕ

abbrev pub u32 : ℕ → ℕ
u32 n = n % 2 ^ 32

-- memcpy (&dst[at], src, len)
unfoldable pub memcpy : Memory → ℕ → Memory → ℕ → Memory
memcpy dst at src len i = if leb at i && ltb i (at + len) then src (i - at) else dst i

-- class RequestResponseClient; `m_data` is null or a buffer of `m_dataSize` bytes
pub record Client : Type 0 where
  pub count : ℕ
  pub interval : ℕ
  pub size : ℕ
  pub data_size : ℕ
  pub buffer : Option Memory
  pub sent : ℕ

-- The constructor, with the attributes MaxPackets, Interval and PacketSize.
unfoldable pub new : ℕ → ℕ → ℕ → Client
new count interval size = record {
  count = count;
  interval = interval;
  size = size;
  data_size = 0;
  buffer = none;
  sent = 0;
}

unfoldable pub set_data_size : ℕ → Client → Client
set_data_size data_size c = record c { buffer = none; data_size = 0; size = data_size }

-- The buffer of `dataSize` bytes that SetFill writes to: the old one, or a new one, whose bytes are
-- those of `fresh`.
abbrev allocated : Memory → ℕ → Client → Option Memory
allocated fresh data_size c = if data_size == c.data_size then c.buffer else some fresh

-- A write to the buffer; of no bytes, it may be a write to null.
abbrev write : (Memory → Memory) → Option Memory → Option Memory
write f none = none
write f (some m) = some (f m)

filled : Memory → ℕ → (Memory → Memory) → Client → Client
filled fresh data_size f c = record c {
  buffer = write f (allocated fresh data_size c);
  data_size = data_size;
  size = data_size;
}

-- SetFill (std::string); `text` ends with its null byte, at `length`
unfoldable pub set_fill_text : Memory → Memory → ℕ → Client → Client
unfolding filled
set_fill_text fresh text length c =
    filled fresh (u32 (length + 1)) (λ m. memcpy m 0 text (u32 (length + 1))) c

-- SetFill (uint8_t, uint32_t)
unfoldable pub set_fill_byte : Memory → ℕ → ℕ → Client → Client
unfolding filled
set_fill_byte fresh fill data_size c =
    filled fresh data_size (λ m. memcpy m 0 (λ i. fill) data_size) c

-- The loop of SetFill (uint8_t *, uint32_t, uint32_t), on fuel: where it ended, and the buffer.
unfoldable pub fill_loop : ℕ → Memory → ℕ → ℕ → ℕ → Memory → Option (ℕ × Memory)
fill_loop zero fill fill_size data_size at m = none
fill_loop (suc fuel) fill fill_size data_size at m =
    let rest =
      fill_loop fuel fill fill_size data_size (u32 (at + fill_size)) (memcpy m at fill fill_size) in
    if ltb (u32 (at + fill_size)) data_size then rest else some (at, m)

-- All that SetFill (uint8_t *, uint32_t, uint32_t) writes to the buffer; `none` if the fuel is short.
unfoldable pub fill_pattern : ℕ → Memory → ℕ → ℕ → Memory → Option Memory
unfolding fill_loop
fill_pattern fuel fill fill_size data_size m =
    let looped = fill_loop fuel fill fill_size data_size 0 m in
    if leb data_size fill_size
    then some (memcpy m 0 fill data_size)
    else elim looped [ none ↦ none | some (at, m') ↦ some (memcpy m' at fill (data_size - at)) ]

-- SetFill (uint8_t *, uint32_t, uint32_t)
unfoldable pub set_fill_pattern : ℕ → Memory → Memory → ℕ → ℕ → Client → Option Client
unfolding fill_pattern
set_fill_pattern fuel fresh fill fill_size data_size c =
    let done =
      λ (b : Option Memory). record c { buffer = b; data_size = data_size; size = data_size } in
    elim (allocated fresh data_size c) [
      | none ↦ some (done none)
      | some m ↦ elim (fill_pattern fuel fill fill_size data_size m) [
        | none ↦ none
        | some m' ↦ some (done (some m'))
      ]
    ]

-- SetFill (bool, uint32_t): `random` are the calls of random (), in order, and `stack` the bytes
-- that the array `random_data` starts with. The argument `comp` is not read. Of sizes below 2 ^ 31:
-- from there on the conversion to `int` makes the array's bound negative, which is undefined.
unfoldable pub random_data : Memory → Memory → ℕ → Memory
random_data random stack data_size i = if ltb (i + 1) data_size then random i % 256 else stack i

unfoldable pub set_fill_random : Memory → Memory → Memory → Bool → ℕ → Client → Client
unfolding filled random_data
set_fill_random fresh random stack comp data_size c =
    filled fresh data_size (λ m. memcpy m 0 (random_data random stack data_size) data_size) c

-- What Send creates: a packet of given bytes, or of a given size with the bytes left open.
pub data Packet : Type 0 where
  of_bytes : List ℕ → Packet
  of_size : ℕ → Packet

unfoldable pub bytes_from : Memory → ℕ → ℕ → List ℕ
bytes_from m at zero = []
bytes_from m at (suc n) = m at ∷ bytes_from m (at + 1) n

abbrev of_buffer : Option Memory → ℕ → Checked Packet
of_buffer none n = abort
of_buffer (some m) n = ok (of_bytes (bytes_from m 0 n))

unfoldable pub create : Client → Checked Packet
unfolding bytes_from
create c =
    if c.data_size == 0
    then ok (of_size c.size)
    else (do assert (c.data_size == c.size); of_buffer c.buffer c.data_size)

-- What Send does with the fields of `Client`: the packet that it creates, the client with the packet
-- counted, and the time after which Send is scheduled again. The assertion on the event, the socket
-- and the trace sources are in Client/App, which has the whole of Send.
unfoldable pub create_and_count : Client → Checked (Packet × Client × Option ℕ)
create_and_count c = do
  p ← create c
  let c' = record c { sent = u32 (c.sent + 1) }
  ok (p, c', (if ltb c'.sent c'.count then some c'.interval else none))
