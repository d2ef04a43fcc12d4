-- ===== src/Link/Device/Logs.antt =====
-- What the log of a device says of its transmissions.
use cs621_network_programmin.Common.{ℕ, ◌+◌, ◌≡◌, refl, List, [], ◌∷◌, ◌++◌, arith}
use cs621_network_programmin.Link.Device.{Effect, phy_tx_begin, phy_tx_end, schedule_complete}

module _ {P : Type 0} where
  -- The packets whose transmission was begun, in order.
  abbrev pub begun : List (Effect P) → List P
  begun [] = []
  begun (phy_tx_begin p ∷ es) = p ∷ begun es
  begun (e ∷ es) = begun es

  -- How many completions were scheduled, and how many have come.
  abbrev pub scheduled : List (Effect P) → ℕ
  scheduled [] = 0
  scheduled (schedule_complete t ∷ es) = scheduled es + 1
  scheduled (e ∷ es) = scheduled es

  abbrev pub completed : List (Effect P) → ℕ
  completed [] = 0
  completed (phy_tx_end p ∷ es) = completed es + 1
  completed (e ∷ es) = completed es

  pub begun-append : (es fs : List (Effect P)) → begun (es ++ fs) ≡ begun es ++ begun fs
  begun-append [] fs = refl
  begun-append (phy_tx_begin p ∷ es) fs = rw (begun-append es fs)
  begun-append (e ∷ es) fs = begun-append es fs

  pub scheduled-append :
      (es fs : List (Effect P)) → scheduled (es ++ fs) ≡ scheduled es + scheduled fs
  scheduled-append [] fs = omega arith
  scheduled-append (schedule_complete t ∷ es) fs = omega (arith, scheduled-append es fs)
  scheduled-append (e ∷ es) fs = scheduled-append es fs

  pub completed-append :
      (es fs : List (Effect P)) → completed (es ++ fs) ≡ completed es + completed fs
  completed-append [] fs = omega arith
  completed-append (phy_tx_end t ∷ es) fs = omega (arith, completed-append es fs)
  completed-append (e ∷ es) fs = completed-append es fs
