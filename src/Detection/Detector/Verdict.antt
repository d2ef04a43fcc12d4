-- ===== src/Detection/Detector/Verdict.antt =====
-- The verdict depends on the durations of the trains, not on the order in which they are found.
use cs621_network_programmin.Common.{
  ℕ, suc, ◌≡◌, refl, sym, ◌∙◌, Bool, true, false, List, [], ◌∷◌, length, ltb, arith, if◌then◌else◌,
  ◌<◌, ◌≤◌, lt→ltb, Bool-cases, inl, inr,
}
use cs621_network_programmin.Common.Integers.{
  ℤ, pos, ◌-ℤ◌, abs, exceeds, abs-sym, abs-zero, is_zero, is_zero→≡,
}
use cs621_network_programmin.Detection.Detector.{
  Flow, Trains, Report, more_than_two_trains, compression_detected, is_train, duration, add_train,
  collect, report, detect,
}

abbrev pub is_detected : Report → Bool
is_detected (compression_detected d e) = true
is_detected _ = false

abbrev pub is_too_many : Report → Bool
is_too_many more_than_two_trains = true
is_too_many _ = false

-- The durations of the trains among the flows.
unfoldable pub durations : List Flow → List ℤ
unfolding is_train
durations [] = []
durations (f ∷ fs) = if is_train f then duration f ∷ durations fs else durations fs

-- What the verdict should be: a missing train counts as one of no duration, and with more than two
-- there is none.
abbrev pub expected : ℤ → List ℤ → Bool
expected threshold [] = exceeds 0 threshold
expected threshold (d ∷ []) = exceeds (abs d) threshold
expected threshold (d ∷ e ∷ []) = exceeds (abs (d -ℤ e)) threshold
expected threshold (d ∷ e ∷ f ∷ ds) = false

-- The loop body on a duration.
abbrev add_duration : ℤ → Trains → Trains
add_duration d s =
    if is_zero s.first
    then record s { first = d; count = suc s.count }
    else record s { second = d; count = suc s.count }

abbrev add_all : List ℤ → Trains → Trains
add_all [] s = s
add_all (d ∷ ds) s = add_all ds (add_duration d s)

collect-durations : (fs : List Flow) (s : Trains) → collect fs s ≡ add_all (durations fs) s
unfolding collect durations
collect-durations [] s = refl
collect-durations (f ∷ fs) s = elim (Bool-cases (is_train f)) [
  | inl here ↦ rw here (collect-durations fs (add_train f s))
  | inr other ↦ rw other (collect-durations fs s)
]

count-add_duration : (d : ℤ) (s : Trains) → (add_duration d s).count ≡ suc s.count
count-add_duration d s = ground arith

count-add_all : (ds : List ℤ) (s : Trains) → s.count ≤ (add_all ds s).count
count-add_all [] s = omega arith
count-add_all (d ∷ ds) s =
    omega (arith, count-add_all ds (add_duration d s), count-add_duration d s)

-- The two questions that a report answers.
abbrev Answers : Report → Bool → Bool → Type 0
Answers r detected too_many = (is_detected r ≡ detected) × (is_too_many r ≡ too_many)

report-few :
    (threshold : ℤ) (s : Trains)
    → s.count ≤ 2
    → Answers (report threshold s) (exceeds (abs (s.first -ℤ s.second)) threshold) false
unfolding report
report-few threshold s h = ground arith

report-many : (threshold : ℤ) (s : Trains) → 2 < s.count → Answers (report threshold s) false true
unfolding report
report-many threshold s h = ground arith

abbrev nothing : Trains
nothing = record { first = pos 0; second = pos 0; count = 0 }

zero-minus : (e : ℤ) → abs (pos 0 -ℤ e) ≡ abs e
zero-minus e = abs-sym (pos 0) e ∙ abs-zero e

second-duration :
    (d e : ℤ) (b : Bool)
    → is_zero d ≡ b
    → let s = add_all (d ∷ e ∷ []) nothing in abs (s.first -ℤ s.second) ≡ abs (d -ℤ e)
unfolding is_zero
second-duration d e true h = rw (h, is_zero→≡ d h) (abs-zero e ∙ sym (zero-minus e))
second-duration d e false h = rw h refl

judged :
    (threshold : ℤ) (s : Trains) (n : ℕ)
    → s.count ≤ 2
    → abs (s.first -ℤ s.second) ≡ n
    → Answers (report threshold s) (exceeds n threshold) false
judged threshold s n h e = rw e at (report-few threshold s h)

add_all-expected :
    (threshold : ℤ) (ds : List ℤ)
    → Answers (report threshold (add_all ds nothing)) (expected threshold ds) (ltb 2 (length ds))
unfolding is_zero abs
add_all-expected threshold [] = judged threshold nothing 0 (ground arith) (zero-minus (pos 0))
add_all-expected threshold (d ∷ []) =
    judged threshold (add_all (d ∷ []) nothing) (abs d) (ground arith) (abs-zero d)
add_all-expected threshold (d ∷ e ∷ []) =
    judged threshold (add_all (d ∷ e ∷ []) nothing) (abs (d -ℤ e)) (ground arith)
      (second-duration d e (is_zero d) refl)
add_all-expected threshold (d ∷ e ∷ f ∷ ds) =
    let s = add_duration f (add_duration e (add_duration d nothing)) in
    let three : (s.count ≡ 3) = ground arith in
    let many : (ltb 2 (length (d ∷ e ∷ f ∷ ds)) ≡ true) = lt→ltb _ _ (omega arith) in
    rw many (report-many threshold (add_all ds s) (omega (arith, three, count-add_all ds s)))

-- The report says that compression was detected exactly if at most two trains were found and the
-- distance of their durations in milliseconds, a missing train having none, is above the threshold,
-- and says that there were more than two trains exactly if there were. So a first train of no
-- duration, which the loop takes for a missing one, does not change the verdict.
pub detect-expected :
    (threshold : ℤ) (fs : List Flow)
    → (is_detected (detect threshold fs) ≡ expected threshold (durations fs))
      × (is_too_many (detect threshold fs) ≡ ltb 2 (length (durations fs)))
unfolding detect
detect-expected threshold fs =
    rw (collect-durations fs nothing) (add_all-expected threshold (durations fs))
