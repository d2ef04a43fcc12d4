-- ===== src/Link/Timed/Events.antt =====
-- The list of scheduled events: insertion by time, and what it does to the arrivals and completions.
use cs621_network_programmin.Common.{
  ℕ, ◌≤◌, ◌<◌, ◌≡◌, refl, ap, ◌∙◌, List, [], ◌∷◌, ◌++◌, leb, if◌then◌else◌, arith, Bool-cases, inl,
  inr, leb→le, All, sym,
}
use cs621_network_programmin.Link.Ns3.{Ns3}

-- The end of the sender's transmission, or the arrival of a packet at a device.
pub data Event (P : Type 0) : Type 0 where
  completion : Event P
  arrival : (device : ℕ) → P → Event P

module _ {P : Type 0} where
  -- An event comes after those of the same time.
  unfoldable pub insert : ℕ → Event P → List (ℕ × Event P) → List (ℕ × Event P)
  insert t e [] = (t, e) ∷ []
  insert t e ((u, f) ∷ es) =
      let rest = insert t e es in if leb u t then (u, f) ∷ rest else (t, e) ∷ (u, f) ∷ es

  abbrev pub arrivals : List (ℕ × Event P) → List (ℕ × P)
  arrivals [] = []
  arrivals ((t, completion) ∷ es) = arrivals es
  arrivals ((t, arrival device p) ∷ es) = (device, p) ∷ arrivals es

  abbrev pub completion_times : List (ℕ × Event P) → List ℕ
  completion_times [] = []
  completion_times ((t, completion) ∷ es) = t ∷ completion_times es
  completion_times ((t, arrival device p) ∷ es) = completion_times es

  -- The events come at `from` or later, in the order of the list.
  abbrev pub InOrder : ℕ → List (ℕ × Event P) → Type 0
  InOrder from [] = Unit
  InOrder from ((t, e) ∷ es) = (from ≤ t) × InOrder t es

  abbrev pub ArriveBy : ℕ → List (ℕ × Event P) → Type 0
  ArriveBy until [] = Unit
  ArriveBy until ((t, completion) ∷ es) = ArriveBy until es
  ArriveBy until ((t, arrival device p) ∷ es) = (t ≤ until) × ArriveBy until es

  pub ArriveBy-mono : (u v : ℕ) (es : List (ℕ × Event P)) → u ≤ v → ArriveBy u es → ArriveBy v es
  ArriveBy-mono u v [] le h = tt
  ArriveBy-mono u v ((t, completion) ∷ es) le h = ArriveBy-mono u v es le h
  ArriveBy-mono u v ((t, arrival device p) ∷ es) le h =
      (omega (arith, h.0), ArriveBy-mono u v es le h.1)

  -- No arrival is left where all events come later.
  none_left :
      (from until : ℕ) (es : List (ℕ × Event P))
      → until < from
      → InOrder from es
      → ArriveBy until es
      → arrivals es ≡ []
  none_left from until [] lt o h = refl
  none_left from until ((t, completion) ∷ es) lt o h =
      none_left t until es (omega (arith, o.0)) o.1 h
  none_left from until ((t, arrival device p) ∷ es) lt o h = absurd (omega (arith, o.0, h.0))

  pub insert-InOrder :
      (from t : ℕ) (e : Event P) (es : List (ℕ × Event P))
      → from ≤ t
      → InOrder from es
      → InOrder from (insert t e es)
  unfolding insert
  insert-InOrder from t e [] le o = (le, tt)
  insert-InOrder from t e ((u, f) ∷ es) le o = elim (Bool-cases (leb u t)) [
    | inl before ↦ rw before (o.0, insert-InOrder u t e es (leb→le u t before) o.1)
    | inr after ↦ rw after (le, (ground arith, o.1))
  ]

  pub insert-ArriveBy :
      (until t device : ℕ) (p : P) (es : List (ℕ × Event P))
      → t ≤ until
      → ArriveBy until es
      → ArriveBy until (insert t (arrival device p) es)
  unfolding insert
  insert-ArriveBy until t device p [] le h = (le, tt)
  insert-ArriveBy until t device p ((u, completion) ∷ es) le h = elim (Bool-cases (leb u t)) [
    | inl before ↦ rw before (insert-ArriveBy until t device p es le h)
    | inr after ↦ rw after (le, h)
  ]
  insert-ArriveBy until t device p ((u, arrival k q) ∷ es) le h = elim (Bool-cases (leb u t)) [
    | inl before ↦ rw before (h.0, insert-ArriveBy until t device p es le h.1)
    | inr after ↦ rw after (le, h)
  ]

  pub insert_completion-ArriveBy :
      (until t : ℕ) (es : List (ℕ × Event P))
      → ArriveBy until es
      → ArriveBy until (insert t completion es)
  unfolding insert
  insert_completion-ArriveBy until t [] h = tt
  insert_completion-ArriveBy until t ((u, completion) ∷ es) h = elim (Bool-cases (leb u t)) [
    | inl before ↦ rw before (insert_completion-ArriveBy until t es h)
    | inr after ↦ rw after h
  ]
  insert_completion-ArriveBy until t ((u, arrival k q) ∷ es) h = elim (Bool-cases (leb u t)) [
    | inl before ↦ rw before (h.0, insert_completion-ArriveBy until t es h.1)
    | inr after ↦ rw after h
  ]

  -- An arrival that is not before any other comes last.
  pub arrivals-insert :
      (from t device : ℕ) (p : P) (es : List (ℕ × Event P))
      → InOrder from es
      → ArriveBy t es
      → arrivals (insert t (arrival device p) es) ≡ arrivals es ++ (device, p) ∷ []
  unfolding insert
  arrivals-insert from t device p [] o h = refl
  arrivals-insert from t device p ((u, completion) ∷ es) o h = elim (Bool-cases (leb u t)) [
    | inl before ↦ rw before (arrivals-insert u t device p es o.1 h)
    | inr after ↦ rw after (rw (none_left u t es (ground arith) o.1 h))
  ]
  arrivals-insert from t device p ((u, arrival k q) ∷ es) o h = elim (Bool-cases (leb u t)) [
    | inl before ↦ rw before (ap (λ l. (k, q) ∷ l) (arrivals-insert u t device p es o.1 h.1))
    | inr after ↦ absurd (ground (arith, h.0))
  ]

  pub arrivals-insert_completion :
      (t : ℕ) (es : List (ℕ × Event P)) → arrivals (insert t completion es) ≡ arrivals es
  unfolding insert
  arrivals-insert_completion t [] = refl
  arrivals-insert_completion t ((u, completion) ∷ es) =
      ground (arith, arrivals-insert_completion t es)
  arrivals-insert_completion t ((u, arrival k q) ∷ es) =
      ground (arith, arrivals-insert_completion t es)

  pub completion_times-insert :
      (t device : ℕ) (p : P) (es : List (ℕ × Event P))
      → completion_times (insert t (arrival device p) es) ≡ completion_times es
  unfolding insert
  completion_times-insert t device p [] = refl
  completion_times-insert t device p ((u, completion) ∷ es) =
      ground (arith, completion_times-insert t device p es)
  completion_times-insert t device p ((u, arrival k q) ∷ es) =
      ground (arith, completion_times-insert t device p es)

  pub completion_times-insert_completion :
      (t : ℕ) (es : List (ℕ × Event P))
      → completion_times es ≡ []
      → completion_times (insert t completion es) ≡ t ∷ []
  unfolding insert
  completion_times-insert_completion t [] none_due = refl
  completion_times-insert_completion t ((u, completion) ∷ es) none_due = cc
  completion_times-insert_completion t ((u, arrival k q) ∷ es) none_due =
      ground (arith, completion_times-insert_completion t es none_due)

  -- A list splits where an event is inserted.
  abbrev Splits : ℕ → Event P → List (ℕ × Event P) → Type 0
  Splits t e es =
      (before : List (ℕ × Event P)) × (after : List (ℕ × Event P)) × (es ≡ before ++ after)
      × All (λ f. f.0 ≤ t) before
      × All (λ f. t < f.0) after
      × (insert t e es ≡ before ++ (t, e) ∷ after)

  later-All :
      (t from : ℕ) (es : List (ℕ × Event P)) → t < from → InOrder from es → All (λ f. t < f.0) es
  later-All t from [] lt o = tt
  later-All t from ((u, f) ∷ es) lt o =
      (omega (arith, o.0), later-All t u es (omega (arith, o.0)) o.1)

  insert-Splits :
      (from t : ℕ) (e : Event P) (es : List (ℕ × Event P)) → InOrder from es → Splits t e es
  unfolding insert
  insert-Splits from t e [] o = ([], [], refl, tt, tt, refl)
  insert-Splits from t e ((u, f) ∷ es) o = elim (Bool-cases (leb u t)) [
    | inl earlier ↦
        (let (before, after, same, low, high, put) = insert-Splits u t e es o.1 in
          (
            (u, f) ∷ before,
            after,
            ap (◌∷◌ (u, f)) same,
            (leb→le u t earlier, low),
            high,
            rw (earlier, put) refl,
          ))
    | inr later ↦ (
      [],
      (u, f) ∷ es,
      refl,
      tt,
      (ground arith, later-All t u es (ground arith) o.1),
      rw later refl,
    )
  ]

-- The scheduler inserts by time.
pub schedule-insert :
    (n : Ns3) (from t : ℕ) (e : Event n.Packet) (es : List (ℕ × Event n.Packet))
    → InOrder from es
    → n.schedule (Event n.Packet) t e es ≡ insert t e es
schedule-insert n from t e es o =
    let (before, after, same, low, high, put) = insert-Splits from t e es o in
    ap (n.schedule (Event n.Packet) t e) same
    ∙ n.schedule-place (Event n.Packet) t e before after low high
    ∙ sym put
