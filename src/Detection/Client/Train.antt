-- ===== src/Detection/Client/Train.antt =====
-- The packet train: the calls of Send that the simulator makes between StartApplication and
-- StopApplication of a client.
use cs621_network_programmin.Common.{
  ℕ, zero, suc, ◌+◌, ◌-◌, ◌*◌, ◌^◌, ◌≤◌, ◌<◌, ◌≡◌, refl, Bool, true, false, Option, none, some,
  List, [], ◌∷◌, ltb, ap, ◌∙◌, lt→ltb, le→ltb, if◌then◌else◌, arith, Checked, ok, abort, ◌>>=◌,
}
use native.Mathlib.Nat.{mod-eq_of_lt}
use cs621_network_programmin.Detection.Client.{Client, Packet, u32, create, create_and_count}

-- The packets sent, each with its time; `none` inside if the fuel is short.
abbrev pub Log : Type 0
Log = Option (List (ℕ × Packet))

abbrev pub note : ℕ → Packet → Log → Log
note t p none = none
note t p (some sent) = some ((t, p) ∷ sent)

-- From a call of Send that is due at `t`; from `stop` on it is cancelled.
unfoldable pub train : ℕ → ℕ → ℕ → Client → Checked Log
train zero stop t c = ok none
train (suc fuel) stop t c = elim (ltb t stop) [
  | false ↦ ok (some [])
  | true ↦ elim (create_and_count c) [
    | abort ↦ abort
    | ok (p, c', none) ↦ ok (some ((t, p) ∷ []))
    | ok (p, c', some dt) ↦ train fuel stop (t + dt) c' >>= λ rest. ok (note t p rest)
  ]
]

-- The same packet `n` times, one at `t` and each later one an interval after the one before.
abbrev pub repeated : ℕ → ℕ → ℕ → Packet → List (ℕ × Packet)
repeated zero t interval p = []
repeated (suc n) t interval p = (t, p) ∷ repeated n (t + interval) interval p

create_and_count-created :
    (c : Client) (p : Packet)
    → create c ≡ ok p
    → create_and_count c
      ≡ ok (
        p,
        record c { sent = u32 (c.sent + 1) },
        (if ltb (u32 (c.sent + 1)) c.count then some c.interval else none),
      )
unfolding create_and_count
create_and_count-created c p h = rw h

-- What a call of Send that creates `p` gives, by the count after it.
abbrev after : Client → Packet → ℕ → Checked (Packet × Client × Option ℕ)
after c p s = ok (p, record c { sent = s }, (if ltb s c.count then some c.interval else none))

abbrev scheduled : Client → Packet → Bool → Checked (Packet × Client × Option ℕ)
scheduled c p more =
    ok (p, record c { sent = c.sent + 1 }, (if more then some c.interval else none))

create-sent : (c : Client) (s : ℕ) → create (record c { sent = s }) ≡ create c
unfolding create
create-sent c s = refl

counted :
    (c : Client) (p : Packet)
    → create c ≡ ok p
    → c.sent + 1 < 2 ^ 32
    → create_and_count c
      ≡ ok (
        p,
        record c { sent = c.sent + 1 },
        (if ltb (c.sent + 1) c.count then some c.interval else none),
      )
counted c p h w =
    let small : (u32 (c.sent + 1) ≡ c.sent + 1) = mod-eq_of_lt w in
    create_and_count-created c p h ∙ ap (after c p) small

create_and_count-last :
    (c : Client) (p : Packet)
    → create c ≡ ok p
    → c.count < 2 ^ 32
    → c.sent + 1 ≡ c.count
    → create_and_count c ≡ ok (p, record c { sent = c.sent + 1 }, none)
create_and_count-last c p h w k =
    let done : (ltb (c.sent + 1) c.count ≡ false) = le→ltb _ _ (omega arith) in
    counted c p h (omega arith) ∙ ap (scheduled c p) done

create_and_count-more :
    (c : Client) (p : Packet)
    → create c ≡ ok p
    → c.count < 2 ^ 32
    → c.sent + 1 < c.count
    → create_and_count c ≡ ok (p, record c { sent = c.sent + 1 }, some c.interval)
create_and_count-more c p h w k =
    let more : (ltb (c.sent + 1) c.count ≡ true) = lt→ltb _ _ k in
    counted c p h (omega arith) ∙ ap (scheduled c p) more

-- One call of Send before the application stops.
pub train-step_last :
    (fuel stop t : ℕ) (c c' : Client) (p : Packet)
    → ltb t stop ≡ true
    → create_and_count c ≡ ok (p, c', none)
    → train (suc fuel) stop t c ≡ ok (some ((t, p) ∷ []))
unfolding train
train-step_last fuel stop t c c' p now e = rw (train, now, e)

pub train-step_more :
    (fuel stop t dt : ℕ) (c c' : Client) (p : Packet)
    → ltb t stop ≡ true
    → create_and_count c ≡ ok (p, c', some dt)
    → train (suc fuel) stop t c ≡ (train fuel stop (t + dt) c' >>= λ rest. ok (note t p rest))
unfolding train
train-step_more fuel stop t dt c c' p now e = rw (train, now, e)

-- From a client that has `left` packets and one more to send.
train-left :
    (left fuel stop t : ℕ) (c : Client) (p : Packet)
    → create c ≡ ok p
    → c.count < 2 ^ 32
    → c.sent + left + 1 ≡ c.count
    → left < fuel
    → t + left * c.interval < stop
    → train fuel stop t c ≡ ok (some (repeated (suc left) t c.interval p))
unfolding train
train-left left zero stop t c p h w k f s = absurd (omega arith)
train-left zero (suc fuel) stop t c p h w k f s =
    let now : (ltb t stop ≡ true) = lt→ltb _ _ (omega arith) in
    train-step_last fuel stop t c _ p now (create_and_count-last c p h w (omega arith))
train-left (suc left) (suc fuel) stop t c p h w k f s =
    let now : (ltb t stop ≡ true) = lt→ltb _ _ (omega arith) in
    let later =
      train-left left fuel stop (t + c.interval) (record c { sent = c.sent + 1 }) p
        (create-sent c (c.sent + 1) ∙ h) w (omega arith) (omega arith) (omega arith) in
    train-step_more fuel stop t c.interval c _ p now (create_and_count-more c p h w (omega arith))
    ∙ ap (λ l. l >>= λ rest. ok (note t p rest)) later

-- A client that has sent nothing, has at least one packet and fewer than 2 ^ 32 packets to send, and
-- whose last packet is due before the application stops, sends MaxPackets copies of the packet that
-- it creates: the first at the start of the application, each later one an interval after the one
-- before. Fuel for MaxPackets calls is enough.
pub train-repeated :
    (fuel start stop : ℕ) (c : Client) (p : Packet)
    → create c ≡ ok p
    → c.sent ≡ 0
    → 0 < c.count
    → c.count < 2 ^ 32
    → c.count ≤ fuel
    → start + (c.count - 1) * c.interval < stop
    → train fuel stop start c ≡ ok (some (repeated c.count start c.interval p))
train-repeated fuel start stop c p h fresh pos w f s =
    let one : (suc (c.count - 1) ≡ c.count) = omega arith in
    train-left (c.count - 1) fuel stop start c p h w (omega arith) (omega arith) s
    ∙ ap (λ (n : ℕ). ok (some (repeated n start c.interval p))) one

-- A client that has sent MaxPackets packets or more, fewer than 2 ^ 32 - 1 of them, sends one more
-- packet, at the start of the application, if that comes before its stop.
pub train-exhausted :
    (fuel start stop : ℕ) (c : Client) (p : Packet)
    → create c ≡ ok p
    → c.count ≤ c.sent
    → c.sent + 1 < 2 ^ 32
    → start < stop
    → train (suc fuel) stop start c ≡ ok (some ((start, p) ∷ []))
unfolding train
train-exhausted fuel start stop c p h k w s =
    let now : (ltb start stop ≡ true) = lt→ltb _ _ s in
    let done : (ltb (c.sent + 1) c.count ≡ false) = le→ltb _ _ (omega arith) in
    train-step_last fuel stop start c _ p now (counted c p h w ∙ ap (scheduled c p) done)

-- A client that has sent nothing and whose MaxPackets is 0 still sends one packet, at the start of
-- the application, if that comes before its stop.
pub train-zero :
    (fuel start stop : ℕ) (c : Client) (p : Packet)
    → create c ≡ ok p
    → c.sent ≡ 0
    → c.count ≡ 0
    → start < stop
    → train (suc fuel) stop start c ≡ ok (some ((start, p) ∷ []))
train-zero fuel start stop c p h fresh k s =
    train-exhausted fuel start stop c p h (omega arith) (omega arith) s
