-- ===== src/Detection/Sockets/Drain.antt =====
-- The loop over RecvFrom: it ends, and handles what was waiting.
use cs621_network_programmin.Common.{
  ℕ, zero, suc, ◌<◌, ◌≡◌, refl, some, List, [], ◌∷◌, ◌++◌, length, arith,
}
use cs621_network_programmin.Detection.Sockets.{Sockets, Effect, drain}

module _ (k : Sockets)
    (body : k.Packet → k.Address → k.Address → List (Effect k.Packet k.Address)) where
  open k use {Packet, Address, Socket, waiting, recv_from, sock_name}

  -- What the loop does to the packets that wait, in their order.
  abbrev pub handled : Address → List (Packet × Address) → List (Effect Packet Address)
  handled name [] = []
  handled name ((p, from) ∷ ms) = body p from name ++ handled name ms

  abbrev pub Drains : ℕ → Socket → Type 0
  Drains fuel s =
      (last : Socket) × (drain k fuel body s ≡ some (handled (sock_name s) (waiting s), last))
      × (waiting last ≡ [])

  drain-waiting :
      (fuel : ℕ) (s : Socket) (ms : List (Packet × Address))
      → waiting s ≡ ms
      → length ms < fuel
      → (last : Socket) × (drain k fuel body s ≡ some (handled (sock_name s) ms, last))
        × (waiting last ≡ [])
  unfolding drain
  drain-waiting zero s ms e h = absurd (omega (arith, h))
  drain-waiting (suc fuel) s [] e h =
      let (null, empty) = k.recv_from-nil s e in ((recv_from s).1, rw (drain, null) refl, empty)
  drain-waiting (suc fuel) s ((p, from) ∷ ms) e h =
      let (next, later) = k.recv_from-cons s (p, from) ms e in
      let (last, rest, empty) = drain-waiting fuel (recv_from s).1 ms later (omega (arith, h)) in
      (last, rw (drain, next, rest, k.recv_from-sock_name s) refl, empty)

  -- With fuel for one round more than there are packets waiting, the loop over RecvFrom ends, has run
  -- its body on each packet that waited, with its sender and the socket's name, in their order, and
  -- leaves no packet waiting.
  pub drain-Drains : (fuel : ℕ) (s : Socket) → length (waiting s) < fuel → Drains fuel s
  drain-Drains fuel s h = drain-waiting fuel s (waiting s) refl h
