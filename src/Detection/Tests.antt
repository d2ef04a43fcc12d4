-- ===== src/Detection/Tests.antt =====
-- Concrete runs of the client and of the detector.
use cs621_network_programmin.Common.{
  ℕ, ◌+◌, ◌≡◌, refl, true, false, none, some, [], ◌∷◌, ltb, length, arith, ok,
}
use cs621_network_programmin.Common.Integers.{pos, minus}
use cs621_network_programmin.Detection.Client.{Memory, Client, new, fill_pattern, create, of_size}
use cs621_network_programmin.Detection.Client.Fill.{
  repetition, fill_pattern-repetition, fill_pattern-diverges,
}
use cs621_network_programmin.Detection.Client.Train.{train, repeated, train-repeated, train-zero}
use cs621_network_programmin.Detection.Detector.{Flow, detect, duration, ipv4}
use cs621_network_programmin.Detection.Detector.Verdict.{
  is_detected, is_too_many, durations, expected, detect-expected,
}
use cs621_network_programmin.Detection.Detector.Bounds.{detect-far, detect-near}

abbrev blank : Memory
blank i = 0

abbrev pattern : Memory
pattern i = i + 65

-- Seven bytes of a pattern of three.
fill_pattern-repetition_example :
    fill_pattern 8 pattern 3 7 blank ≡ some (repetition pattern 3 blank 7)
fill_pattern-repetition_example =
    fill_pattern-repetition 8 pattern 3 7 blank (omega arith) (omega arith) (omega arith)

fill_pattern-diverges_example : fill_pattern 1000 pattern 0 7 blank ≡ none
fill_pattern-diverges_example = fill_pattern-diverges 1000 pattern 7 blank (omega arith)

-- The clients of the experiment: config.txt's 6000 packets of 1100 bytes, one each 10 ms, from the
-- second second to second 65.
abbrev experiment : Client
experiment = new 6000 10000000 1100

created : create experiment ≡ ok (of_size 1100)
unfolding create new
created = refl

train-repeated_example :
    train 6000 65000000000 2000000000 experiment
    ≡ ok (some (repeated 6000 2000000000 10000000 (of_size 1100)))
unfolding new
train-repeated_example =
    train-repeated 6000 2000000000 65000000000 experiment (of_size 1100) created refl (omega arith)
      (omega arith) (omega arith) (omega arith)

abbrev silent : Client
silent = new 0 10000000 1100

silent-creates : create silent ≡ ok (of_size 1100)
unfolding create new
silent-creates = refl

train-zero_example :
    train 1 65000000000 2000000000 silent ≡ ok (some ((2000000000, of_size 1100) ∷ []))
unfolding new
train-zero_example =
    train-zero 0 2000000000 65000000000 silent (of_size 1100) silent-creates refl refl (omega arith)

abbrev flow : ℕ → ℕ → Flow
flow first last = record {
  source = ipv4 10 1 1 1;
  destination = ipv4 10 1 3 2;
  time_first_rx = first;
  time_last_rx = last;
}

-- A train without compression, one with it, and a reply that is not a train.
abbrev slow : Flow
slow = flow 2040000000 62999999999

abbrev fast : Flow
fast = flow 2040000000 62800000000

abbrev faster : Flow
faster = flow 2040000000 62950000000

abbrev reply : Flow
reply = record slow { source = ipv4 10 1 3 2; destination = ipv4 10 1 1 1 }

detect-expected_example :
    (is_detected (detect (pos 100) (fast ∷ reply ∷ slow ∷ []))
      ≡ expected (pos 100) (durations (fast ∷ reply ∷ slow ∷ [])))
    × (is_too_many (detect (pos 100) (fast ∷ reply ∷ slow ∷ []))
        ≡ ltb 2 (length (durations (fast ∷ reply ∷ slow ∷ []))))
detect-expected_example = detect-expected (pos 100) (fast ∷ reply ∷ slow ∷ [])

durations-two : durations (fast ∷ reply ∷ slow ∷ []) ≡ duration fast ∷ duration slow ∷ []
unfolding durations duration minus
durations-two = refl

durations-near : durations (faster ∷ slow ∷ []) ≡ duration faster ∷ duration slow ∷ []
unfolding durations duration minus
durations-near = refl

detect-far_example : is_detected (detect (pos 100) (fast ∷ reply ∷ slow ∷ [])) ≡ true
detect-far_example =
    detect-far 100 (fast ∷ reply ∷ slow ∷ []) fast slow durations-two (omega arith) (omega arith)
      (omega arith)

detect-near_example : is_detected (detect (pos 100) (faster ∷ slow ∷ [])) ≡ false
detect-near_example =
    detect-near 100 (faster ∷ slow ∷ []) faster slow durations-near (omega arith) (omega arith)
      (omega arith)
