-- ===== src/Detection/Sockets/Sample.antt =====
-- Concrete sockets for the tests: addresses and packets are numbers, even addresses are of IPv4, and
-- those from 1000 on are of groups.
use cs621_network_programmin.Common.{
  ℕ, ◌+◌, ◌%◌, ◌≡◌, refl, Bool, true, false, Option, none, some, List, [], ◌∷◌, leb, ◌==◌,
}
use cs621_network_programmin.Detection.Sockets.{Sockets}

pub record Sock : Type 0 where
  pub name : ℕ
  pub is_up : Bool
  pub callback : Bool
  pub queue : List (ℕ × ℕ)

abbrev pub next : List (ℕ × ℕ) → Option (ℕ × ℕ)
next [] = none
next (m ∷ ms) = some m

abbrev pub later : List (ℕ × ℕ) → List (ℕ × ℕ)
later [] = []
later (m ∷ ms) = ms

pub next-nil : (q : List (ℕ × ℕ)) → q ≡ [] → (next q ≡ none) × (later q ≡ [])
next-nil [] e = (refl, refl)
next-nil (m ∷ ms) e = cc

pub next-cons :
    (q : List (ℕ × ℕ)) (m : ℕ × ℕ) (ms : List (ℕ × ℕ))
    → q ≡ m ∷ ms
    → (next q ≡ some m) × (later q ≡ ms)
next-cons [] m ms e = cc
next-cons (x ∷ xs) m ms e = (cc, cc)

pub some-is_up : (s t : Sock) → some s ≡ some t → t.is_up ≡ s.is_up
some-is_up s t e = cc

abbrev pub sockets : Sockets
sockets = record {
  Packet = ℕ;
  Address = ℕ;
  is_ipv4 = λ a. a % 4 == 0;
  is_ipv6 = λ a. a % 4 == 1;
  is_inet = λ a. a % 4 == 2;
  is_inet6 = λ a. a % 4 == 3;
  is_multicast = λ a. leb 1000 a;
  inet = λ a port. a + 2;
  inet6 = λ a port. a + 2;
  inet_any = λ port. 2;
  inet6_any = λ port. 3;
  Socket = Sock;
  is_open = λ s. s.is_up;
  has_callback = λ s. s.callback;
  created = record { name = 0; is_up = true; callback = false; queue = [] };
  created-is_open = refl;
  bind = λ a s. (true, record s { name = a });
  bind_any = λ s. (true, s);
  bind_any6 = λ s. (true, s);
  bind-is_open = λ a s. refl;
  bind_any-is_open = λ s. refl;
  bind_any6-is_open = λ s. refl;
  join_group = λ a s. some s;
  join_group-is_open = λ a s t e. some-is_up s t e;
  connect = λ a s. s;
  connect-is_open = λ a s. refl;
  allow_broadcast = λ s. s;
  allow_broadcast-is_open = λ s. refl;
  allow_broadcast-has_callback = λ s. refl;
  set_callback = λ b s. record s { callback = b };
  set_callback-is_open = λ b s. refl;
  set_callback-has_callback = λ b s. refl;
  close = λ s. record s { is_up = false };
  close-is_open = λ s. refl;
  sock_name = λ s. s.name;
  waiting = λ s. s.queue;
  recv_from = λ s. (next s.queue, record s { queue = later s.queue });
  recv_from-nil = λ s e. next-nil s.queue e;
  recv_from-cons = λ s m ms e. next-cons s.queue m ms e;
  recv_from-sock_name = λ s. refl;
}
