-- ===== src/Detection/Detector/Bounds.antt =====
-- How exact the verdict is: the detector rounds four times to milliseconds.
use cs621_network_programmin.Common.{
  ℕ, ◌+◌, ◌-◌, ◌*◌, ◌/◌, ◌≤◌, ◌<◌, ◌≡◌, ◌∙◌, ap, true, false, List, [], ◌∷◌, ltb, arith, lt→ltb,
  le→ltb,
}
use cs621_network_programmin.Common.Integers.{pos, ◌-ℤ◌, minus, abs, exceeds, distance, abs-minus}
use cs621_network_programmin.Detection.Detector.{Flow, detect, duration, get_milli_seconds}
use cs621_network_programmin.Detection.Detector.Verdict.{
  is_detected, durations, detect-expected, expected,
}

-- The time between the first and the last packet, in nanoseconds.
abbrev pub span : Flow → ℕ
span f = f.time_last_rx - f.time_first_rx

abbrev pub InOrder : Flow → Type 0
InOrder f = f.time_first_rx ≤ f.time_last_rx

rounded : Flow → ℕ
rounded f = f.time_last_rx / 1000000 - f.time_first_rx / 1000000

duration-rounded : (f : Flow) → InOrder f → duration f ≡ pos (rounded f)
unfolding duration rounded minus get_milli_seconds
duration-rounded f h = ground arith

rounded-below : (f : Flow) → InOrder f → rounded f * 1000000 < span f + 1000000
unfolding rounded
rounded-below f h = omega arith

rounded-above : (f : Flow) → InOrder f → span f < rounded f * 1000000 + 1000000
unfolding rounded
rounded-above f h = omega arith

apart :
    (f g : Flow)
    → InOrder f
    → InOrder g
    → abs (duration f -ℤ duration g) ≡ distance (rounded f) (rounded g)
unfolding ◌-ℤ◌
apart f g a b = rw (duration-rounded f a, duration-rounded g b) (abs-minus (rounded f) (rounded g))

detected-distance :
    (threshold : ℕ) (fs : List Flow) (f g : Flow)
    → durations fs ≡ duration f ∷ duration g ∷ []
    → InOrder f
    → InOrder g
    → is_detected (detect (pos threshold) fs) ≡ ltb threshold (distance (rounded f) (rounded g))
unfolding exceeds ◌-ℤ◌
detected-distance threshold fs f g h a b =
    let (d, _) = detect-expected (pos threshold) fs in
    d ∙ ap (expected (pos threshold)) h ∙ ap (λ (n : ℕ). ltb threshold n) (apart f g a b)

-- Of two trains whose packets arrived in order, compression is detected if the times between their
-- first and last packets differ by at least two milliseconds more than the threshold.
pub detect-far :
    (threshold : ℕ) (fs : List Flow) (f g : Flow)
    → durations fs ≡ duration f ∷ duration g ∷ []
    → InOrder f
    → InOrder g
    → (threshold + 2) * 1000000 ≤ distance (span f) (span g)
    → is_detected (detect (pos threshold) fs) ≡ true
detect-far threshold fs f g h a b far =
    detected-distance threshold fs f g h a b
    ∙ lt→ltb _ _
        (omega (arith, rounded-below f a, rounded-above f a, rounded-below g b, rounded-above g b))

-- Of two trains whose packets arrived in order, compression is not detected if the times between
-- their first and last packets differ by at least one millisecond less than the threshold.
pub detect-near :
    (threshold : ℕ) (fs : List Flow) (f g : Flow)
    → durations fs ≡ duration f ∷ duration g ∷ []
    → InOrder f
    → InOrder g
    → distance (span f) (span g) + 1000000 ≤ threshold * 1000000
    → is_detected (detect (pos threshold) fs) ≡ false
detect-near threshold fs f g h a b near =
    detected-distance threshold fs f g h a b
    ∙ le→ltb _ _
        (omega (arith, rounded-below f a, rounded-above f a, rounded-below g b, rounded-above g b))
