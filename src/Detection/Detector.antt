-- ===== src/Detection/Detector.antt =====
-- examples/routing/cs621-dev01.cc: the verdict of an experiment, from what the flow monitor recorded.
-- An address is its 32-bit number, a time is in nanoseconds since the start of the simulation (so it
-- is not negative, and a difference in milliseconds fits in an `int64_t`).
pub mod Verdict
pub mod Bounds
use cs621_network_programmin.Common.{
  ℕ, suc, ◌+◌, ◌*◌, ◌/◌, ◌^◌, Bool, true, false, List, [], ◌∷◌, ltb, ◌==◌, if◌then◌else◌, ◌&&◌,
}
use cs621_network_programmin.Common.Integers.{ℤ, pos, ◌-ℤ◌, minus, abs, exceeds, is_zero}

abbrev pub ipv4 : ℕ → ℕ → ℕ → ℕ → ℕ
ipv4 a b c d = a * 2 ^ 24 + b * 2 ^ 16 + c * 2 ^ 8 + d

-- A flow, with the fields of FiveTuple and FlowStats that the detector reads.
pub record Flow : Type 0 where
  pub source : ℕ
  pub destination : ℕ
  pub time_first_rx : ℕ
  pub time_last_rx : ℕ

unfoldable pub get_milli_seconds : ℕ → ℕ
get_milli_seconds t = t / 1000000

-- The test of the loop: from 10.1.1.1 to 10.1.3.2.
unfoldable pub is_train : Flow → Bool
is_train f = f.source == ipv4 10 1 1 1 && f.destination == ipv4 10 1 3 2

unfoldable pub duration : Flow → ℤ
unfolding get_milli_seconds
duration f = minus (get_milli_seconds f.time_last_rx) (get_milli_seconds f.time_first_rx)

pub record Trains : Type 0 where
  pub first : ℤ
  pub second : ℤ
  pub count : ℕ

-- The body of the loop, for a flow that is a train.
unfoldable pub add_train : Flow → Trains → Trains
unfolding duration is_zero
add_train f s =
    if is_zero s.first
    then record s { first = duration f; count = suc s.count }
    else record s { second = duration f; count = suc s.count }

unfoldable pub collect : List Flow → Trains → Trains
unfolding add_train is_train
collect [] s = s
collect (f ∷ fs) s = collect fs (if is_train f then add_train f s else s)

-- What is printed at the end.
pub data Report : Type 0 where
  more_than_two_trains : Report
  compression_detected : (first second : ℤ) → Report
  compression_not_detected : (first second : ℤ) → Report

unfoldable pub report : ℤ → Trains → Report
unfolding ◌-ℤ◌ abs exceeds
report threshold s =
    if ltb 2 s.count
    then more_than_two_trains
    else if exceeds (abs (s.first -ℤ s.second)) threshold
    then compression_detected s.first s.second
    else compression_not_detected s.first s.second

-- The whole: from the flows, in the order of the map, to the report.
unfoldable pub detect : ℤ → List Flow → Report
unfolding collect report
detect threshold fs =
    report threshold (collect fs (record { first = pos 0; second = pos 0; count = 0 }))
