-- ===== src/Link/Sample.antt =====
-- A concrete network for the tests: bytes in lists, a queue of two packets, a channel of 10 ms and
-- an idle device.
use cs621_network_programmin.Common.{
  ℕ, zero, suc, ◌+◌, ◌*◌, ◌/◌, ◌%◌, ◌^◌, ◌<◌, ◌≡◌, refl, Bool, true, false, Option, none, some,
  List, [], ◌∷◌, ◌++◌, length, length-append, ltb, if◌then◌else◌, arith, ok, All, leb, ◌≤◌, ◌>>=◌,
  inl,
}
use cs621_network_programmin.Link.Ns3.{Ns3}
use cs621_network_programmin.Link.Channel.{Channel, new, attach, idle}
use cs621_network_programmin.Link.Channel.Laws.{Joins, Connects}
use cs621_network_programmin.Link.Device.{Device, ready}
use cs621_network_programmin.Link.Device.Steps.{Inv}

abbrev pub write_u16 : ℕ → List ℕ
write_u16 v = (v / 256) ∷ (v % 256) ∷ []

abbrev pub read_u16 : List ℕ → ℕ
read_u16 (a ∷ b ∷ rest) = a * 256 + b
read_u16 bytes = 0

abbrev pub drop : ℕ → List ℕ → List ℕ
drop zero bytes = bytes
drop (suc k) [] = []
drop (suc k) (b ∷ bytes) = drop k bytes

pub drop-length : (bs p : List ℕ) → drop (length bs) (bs ++ p) ≡ p
drop-length [] p = refl
drop-length (b ∷ bs) p = drop-length bs p

-- A queue of at most two packets.
abbrev pub enqueue_two : List (List ℕ) → List ℕ → Bool × List (List ℕ)
enqueue_two q p = if ltb (length q) 2 then (true, q ++ p ∷ []) else (false, q)

abbrev pub dequeue_two : List (List ℕ) → Option (List ℕ) × List (List ℕ)
dequeue_two [] = (none, [])
dequeue_two (p ∷ ps) = (some p, ps)

pub enqueue_two-accepts :
    (q : List (List ℕ)) (p : List ℕ)
    → (enqueue_two q p).0 ≡ true
    → (enqueue_two q p).1 ≡ q ++ p ∷ []
enqueue_two-accepts q p h = ground arith

pub enqueue_two-refuses :
    (q : List (List ℕ)) (p : List ℕ) → (enqueue_two q p).0 ≡ false → (enqueue_two q p).1 ≡ q
enqueue_two-refuses q p h = ground arith

pub dequeue_two-nil :
    (q : List (List ℕ)) → q ≡ [] → ((dequeue_two q).0 ≡ none) × ((dequeue_two q).1 ≡ [])
dequeue_two-nil [] e = (refl, refl)
dequeue_two-nil (p ∷ ps) e = absurd (cc)

pub dequeue_two-cons :
    (q : List (List ℕ)) (p : List ℕ) (ps : List (List ℕ))
    → q ≡ p ∷ ps
    → ((dequeue_two q).0 ≡ some p) × ((dequeue_two q).1 ≡ ps)
dequeue_two-cons [] p ps e = absurd (cc)
dequeue_two-cons (q ∷ qs) p ps e = ground arith

pub read-write_u16 : (v : ℕ) (rest : List ℕ) → v < 2 ^ 16 → read_u16 (write_u16 v ++ rest) ≡ v
read-write_u16 v rest h = omega arith

abbrev pub schedule_sorted : (E : Type 0) → ℕ → E → List (ℕ × E) → List (ℕ × E)
schedule_sorted E t e [] = (t, e) ∷ []
schedule_sorted E t e ((u, f) ∷ es) =
    let rest = schedule_sorted E t e es in if leb u t then (u, f) ∷ rest else (t, e) ∷ (u, f) ∷ es

pub schedule_sorted-place :
    (E : Type 0) (t : ℕ) (e : E) (before after : List (ℕ × E))
    → All (λ f. f.0 ≤ t) before
    → All (λ f. t < f.0) after
    → schedule_sorted E t e (before ++ after) ≡ before ++ (t, e) ∷ after
schedule_sorted-place E t e [] [] low high = refl
schedule_sorted-place E t e [] ((u, f) ∷ after) low high =
    let later : (leb u t ≡ false) = ground (arith, high.0) in rw later refl
schedule_sorted-place E t e ((u, f) ∷ before) after low high =
    let earlier : (leb u t ≡ true) = ground (arith, low.0) in
    rw (earlier, schedule_sorted-place E t e before after low.1 high) refl

abbrev pub net : Ns3
net = record {
  write_hton_u16 = write_u16;
  read_ntoh_u16 = read_u16;
  length-write = λ v. refl;
  read-write = read-write_u16;
  Packet = List ℕ;
  size = length;
  bytes = λ p. p;
  add_at_start = λ bs p. bs ++ p;
  remove_at_start = drop;
  size-add = length-append;
  bytes-add = λ bs p. refl;
  remove-add = drop-length;
  Queue = List (List ℕ);
  contents = λ q. q;
  enqueue = enqueue_two;
  dequeue = dequeue_two;
  enqueue-accepts = enqueue_two-accepts;
  enqueue-refuses = enqueue_two-refuses;
  dequeue-nil = dequeue_two-nil;
  dequeue-cons = dequeue_two-cons;
  bytes_tx_time = λ rate size. size * 8;
  schedule = schedule_sorted;
  schedule-place = schedule_sorted-place;
}

-- The channel of 10 ms between device 0 and device 1.
abbrev pub wire : Channel
wire = record {
  delay = 10_000_000;
  n_devices = 2;
  link0 = record { state = idle; src = some 0; dst = some 1 };
  link1 = record { state = idle; src = some 1; dst = some 0 };
}

pub wire_attached : (attach (new 10_000_000) 0 >>= λ c. attach c 1) ≡ ok wire
unfolding attach new
wire_attached = refl

pub wire-Joins : Joins wire 0 1
wire-Joins = record {
  full = refl;
  idle0 = refl;
  idle1 = refl;
  src0 = refl;
  dst0 = refl;
  src1 = refl;
  dst1 = refl;
}

pub wire-Connects : Connects wire 0 1
wire-Connects = record { ends = inl wire-Joins; apart = omega arith }

abbrev pub idle_device : Device net
idle_device = record {
  tx_state = ready;
  bps = 1_000_000;
  interframe_gap = 0;
  queue = [];
  current_pkt = none;
  link_up = true;
  compression_flag = true;
  decompression_flag = false;
  promisc = false;
  log = [];
}

pub idle_device-Inv : Inv net idle_device
idle_device-Inv = record { holds = (refl, refl); due = omega arith }
