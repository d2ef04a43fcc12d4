-- ===== src/Link/Ns3.antt =====
-- What the link uses of ns-3's modules network and core, which are not part of the repository, as a
-- parameter with its documented behaviour: byte buffers, packets, FIFO queues and data rates.
use cs621_network_programmin.Common.{
  ℕ, ◌+◌, ◌^◌, ◌<◌, ◌≡◌, All, ◌≤◌, Bool, true, false, Option, none, some, List, [], ◌∷◌, ◌++◌,
  length,
}

pub record Ns3 : Type 1 where
  -- Buffer::Iterator::WriteHtonU16 and ReadNtohU16
  pub write_hton_u16 : ℕ → List ℕ
  pub read_ntoh_u16 : List ℕ → ℕ
  pub length-write : (v : ℕ) → length (write_hton_u16 v) ≡ 2
  pub read-write :
      (v : ℕ) (rest : List ℕ) → v < 2 ^ 16 → read_ntoh_u16 (write_hton_u16 v ++ rest) ≡ v
  -- Packet: its bytes from the start, bytes added and removed at the start
  pub Packet : Type 0
  pub size : Packet → ℕ
  pub bytes : Packet → List ℕ
  pub add_at_start : List ℕ → Packet → Packet
  pub remove_at_start : ℕ → Packet → Packet
  pub size-add : (bs : List ℕ) (p : Packet) → size (add_at_start bs p) ≡ length bs + size p
  pub bytes-add : (bs : List ℕ) (p : Packet) → bytes (add_at_start bs p) ≡ bs ++ bytes p
  pub remove-add : (bs : List ℕ) (p : Packet) → remove_at_start (length bs) (add_at_start bs p) ≡ p
  -- Queue<Packet>: Enqueue may refuse, Dequeue gives the oldest packet or null
  pub Queue : Type 0
  pub contents : Queue → List Packet
  pub enqueue : Queue → Packet → Bool × Queue
  pub dequeue : Queue → Option Packet × Queue
  pub enqueue-accepts :
      (q : Queue) (p : Packet)
      → (enqueue q p).0 ≡ true
      → contents (enqueue q p).1 ≡ contents q ++ p ∷ []
  pub enqueue-refuses :
      (q : Queue) (p : Packet) → (enqueue q p).0 ≡ false → contents (enqueue q p).1 ≡ contents q
  pub dequeue-nil :
      (q : Queue) → contents q ≡ [] → ((dequeue q).0 ≡ none) × (contents (dequeue q).1 ≡ [])
  pub dequeue-cons :
      (q : Queue) (p : Packet) (ps : List Packet)
      → contents q ≡ p ∷ ps
      → ((dequeue q).0 ≡ some p) × (contents (dequeue q).1 ≡ ps)
  -- DataRate::CalculateBytesTxTime, in nanoseconds, of a rate in bits per second
  pub bytes_tx_time : (rate size : ℕ) → ℕ
  -- Simulator::Schedule: the events to come, each with its time, in the order in which they will run;
  -- a new event comes after those of its time or before, and before those that come later
  pub schedule : (E : Type 0) → ℕ → E → List (ℕ × E) → List (ℕ × E)
  pub schedule-place :
      (E : Type 0) (t : ℕ) (e : E) (before after : List (ℕ × E))
      → All (λ f. f.0 ≤ t) before
      → All (λ f. t < f.0) after
      → schedule E t e (before ++ after) ≡ before ++ (t, e) ∷ after
