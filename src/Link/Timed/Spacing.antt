-- ===== src/Link/Timed/Spacing.antt =====
-- The spacing of the arrivals among the events, and of those that were.
use cs621_network_programmin.Common.{
  ℕ, ◌+◌, true, ◌≤◌, ◌<◌, ◌≡◌, List, [], ◌∷◌, leb, arith, Bool-cases, inl, inr,
}
use cs621_network_programmin.Link.Timed.Events.{
  Event, completion, arrival, insert, InOrder, ArriveBy,
}

module _ {P : Type 0} where
  -- Each arrival comes at least its packet's `cost` after the one before it, the first after `from`.
  abbrev pub SpacedFrom : (P → ℕ) → ℕ → List (ℕ × Event P) → Type 0
  SpacedFrom cost from [] = Unit
  SpacedFrom cost from ((t, completion) ∷ es) = SpacedFrom cost from es
  SpacedFrom cost from ((t, arrival device p) ∷ es) = (from + cost p ≤ t) × SpacedFrom cost t es

  -- The same of arrivals that were, the latest first.
  abbrev pub latest : List (ℕ × P) → ℕ
  latest [] = 0
  latest ((t, p) ∷ ms) = t

  abbrev pub Paced : (P → ℕ) → List (ℕ × P) → Type 0
  Paced cost [] = Unit
  Paced cost ((t, p) ∷ ms) = (latest ms + cost p ≤ t) × Paced cost ms

  -- No arrival is left that could come too early.
  late-SpacedFrom :
      (cost : P → ℕ) (from now until : ℕ) (es : List (ℕ × Event P))
      → until < now
      → InOrder now es
      → ArriveBy until es
      → SpacedFrom cost from es
  late-SpacedFrom cost from now until [] lt o h = tt
  late-SpacedFrom cost from now until ((t, completion) ∷ es) lt o h =
      late-SpacedFrom cost from t until es (omega (arith, o.0)) o.1 h
  late-SpacedFrom cost from now until ((t, arrival device p) ∷ es) lt o h =
      absurd (omega (arith, o.0, h.0))

  pub insert-SpacedFrom :
      (cost : P → ℕ) (from until t device : ℕ) (p : P) (now : ℕ) (es : List (ℕ × Event P))
      → InOrder now es
      → ArriveBy until es
      → from ≤ until
      → until + cost p ≤ t
      → SpacedFrom cost from es
      → SpacedFrom cost from (insert t (arrival device p) es)
  unfolding insert
  insert-SpacedFrom cost from until t device p now [] o by le far h = (omega arith, tt)
  insert-SpacedFrom cost from until t device p now ((u, completion) ∷ es) o by le far h =
      elim (Bool-cases (leb u t)) [
        | inl before ↦ rw before (insert-SpacedFrom cost from until t device p u es o.1 by le far h)
        | inr after ↦
            (let later : (t < u) = ground (arith, after) in
              rw after (omega arith, late-SpacedFrom cost t u until es (omega arith) o.1 by))
      ]
  insert-SpacedFrom cost from until t device p now ((u, arrival d q) ∷ es) o by le far h =
      let soon : (u ≤ t) = omega (arith, by.0) in
      let before : (leb u t ≡ true) = ground (arith, soon) in
      rw before (h.0, insert-SpacedFrom cost u until t device p u es o.1 by.1 by.0 far h.1)

  pub insert_completion-SpacedFrom :
      (cost : P → ℕ) (from t : ℕ) (es : List (ℕ × Event P))
      → SpacedFrom cost from es
      → SpacedFrom cost from (insert t completion es)
  unfolding insert
  insert_completion-SpacedFrom cost from t [] h = tt
  insert_completion-SpacedFrom cost from t ((u, completion) ∷ es) h = elim (Bool-cases (leb u t)) [
    | inl before ↦ rw before (insert_completion-SpacedFrom cost from t es h)
    | inr after ↦ rw after h
  ]
  insert_completion-SpacedFrom cost from t ((u, arrival d q) ∷ es) h = elim (Bool-cases (leb u t)) [
    | inl before ↦ rw before (h.0, insert_completion-SpacedFrom cost u t es h.1)
    | inr after ↦ rw after h
  ]
