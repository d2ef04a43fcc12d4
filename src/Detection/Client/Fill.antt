-- ===== src/Detection/Client/Fill.antt =====
-- SetFill with a pattern repeats the pattern over the whole buffer.
use cs621_network_programmin.Common.{
  ℕ, zero, suc, ◌+◌, ◌-◌, ◌*◌, ◌%◌, ◌^◌, ◌≤◌, ◌<◌, ◌≡◌, refl, Option, none, some, ltb, leb,
  if◌then◌else◌, arith, Bool-cases, inl, inr, ltb→lt, ltb→le, leb→le, sym, ap, ◌∙◌, dec_lt,
}
use mathlib.Core.Path.{fun_ext}
use native.Mathlib.Nat.{mul-add-mod_self_right, mod-eq_of_lt}
use cs621_network_programmin.Detection.Client.{Memory, memcpy, u32, fill_loop, fill_pattern}

-- A buffer whose first `n` bytes repeat the pattern and whose other bytes are those of `old`.
abbrev pub repetition : Memory → ℕ → Memory → ℕ → Memory
repetition fill fill_size old n i = if ltb i n then fill (i % fill_size) else old i

abbrev Repeats : Memory → ℕ → Memory → ℕ → Memory → Type 0
Repeats fill fill_size old n m = (i : ℕ) → m i ≡ repetition fill fill_size old n i

-- An offset that lies in the round after `rounds` whole ones.
offset_in_round :
    (fill_size rounds i : ℕ)
    → rounds * fill_size ≤ i
    → i < rounds * fill_size + fill_size
    → i - rounds * fill_size ≡ i % fill_size
offset_in_round fill_size rounds i low high =
    let k : ℕ = i - rounds * fill_size in
    let split : (i ≡ rounds * fill_size + k) = omega arith in
    sym (
      ap (λ (j : ℕ). j % fill_size) split
      ∙ mul-add-mod_self_right rounds fill_size k
      ∙ mod-eq_of_lt (omega arith))

-- A copy of up to a whole pattern at a multiple of its size goes on with the repetition.
memcpy-Repeats :
    (fill old : Memory) (fill_size rounds len : ℕ) (m : Memory)
    → len ≤ fill_size
    → Repeats fill fill_size old (rounds * fill_size) m
    → Repeats fill fill_size old (rounds * fill_size + len) (memcpy m (rounds * fill_size) fill len)
unfolding memcpy
memcpy-Repeats fill old fill_size rounds len m fits r i = elim (dec_lt i (rounds * fill_size)) [
  | yes early ↦ ground (arith, r i)
  | no late ↦ elim (dec_lt i (rounds * fill_size + len)) [
    | yes here ↦
        ground (arith, ap fill (offset_in_round fill_size rounds i (omega arith) (omega arith)))
    | no beyond ↦ ground (arith, r i)
  ]
]

-- Where the loop ends: less than a whole pattern, or just one, is left to write.
abbrev Fills : Memory → ℕ → Memory → ℕ → Option (ℕ × Memory) → Type 0
Fills fill fill_size old data_size run =
    (last : ℕ) × (m : Memory) × (run ≡ some (last * fill_size, m))
    × (last * fill_size < data_size)
    × (data_size ≤ last * fill_size + fill_size)
    × Repeats fill fill_size old (last * fill_size) m

next_round :
    (fill_size data_size rounds : ℕ)
    → data_size + fill_size ≤ 2 ^ 32
    → rounds * fill_size < data_size
    → u32 (rounds * fill_size + fill_size) ≡ suc rounds * fill_size
next_round fill_size data_size rounds fits low = omega arith

-- One more round of the loop.
round-Repeats :
    (fill old : Memory) (fill_size rounds : ℕ) (m : Memory)
    → Repeats fill fill_size old (rounds * fill_size) m
    → Repeats fill fill_size old
        (suc rounds * fill_size)
        (memcpy m (rounds * fill_size) fill fill_size)
round-Repeats fill old fill_size rounds m r =
    let size : (rounds * fill_size + fill_size ≡ suc rounds * fill_size) = omega arith in
    rw size at (memcpy-Repeats fill old fill_size rounds fill_size m (omega arith) r)

fill_loop-Fills :
    (fuel : ℕ) (fill old : Memory) (fill_size data_size rounds : ℕ) (m : Memory)
    → 0 < fill_size
    → data_size + fill_size ≤ 2 ^ 32
    → rounds * fill_size < data_size
    → data_size - rounds * fill_size < fuel
    → Repeats fill fill_size old (rounds * fill_size) m
    → Fills fill fill_size old data_size
        (fill_loop fuel fill fill_size data_size (rounds * fill_size) m)
unfolding fill_loop
fill_loop-Fills zero fill old fill_size data_size rounds m pos fits low enough r =
    absurd (omega arith)
fill_loop-Fills (suc fuel) fill old fill_size data_size rounds m pos fits low enough r =
    let next = next_round fill_size data_size rounds fits low in
    elim (Bool-cases (ltb (suc rounds * fill_size) data_size)) [
      | inl more ↦
          rw (next, more)
            (fill_loop-Fills fuel fill old fill_size data_size (suc rounds)
              (memcpy m (rounds * fill_size) fill fill_size) pos fits (ltb→lt _ _ more)
              (omega arith) (round-Repeats fill old fill_size rounds m r))
      | inr done ↦ (rounds, m, rw (next, done), low, omega (arith, ltb→le _ _ done), r)
    ]

short-Repeats :
    (fill : Memory) (fill_size data_size : ℕ) (m : Memory)
    → data_size ≤ fill_size
    → Repeats fill fill_size m data_size (memcpy m 0 fill data_size)
unfolding memcpy
short-Repeats fill fill_size data_size m h i = elim (dec_lt i data_size) [
  | yes below ↦
      let same : (i % fill_size ≡ i) = mod-eq_of_lt (omega arith) in rw same (ground arith)
  | no beyond ↦ ground arith
]

-- The last copy completes the buffer.
abbrev last_copy : Memory → ℕ → Option (ℕ × Memory) → Option Memory
last_copy fill data_size run = elim run [
  | none ↦ none
  | some (at, m) ↦ some (memcpy m at fill (data_size - at))
]

last_copy-repetition :
    (fill old : Memory) (fill_size data_size : ℕ) (run : Option (ℕ × Memory))
    → Fills fill fill_size old data_size run
    → last_copy fill data_size run ≡ some (repetition fill fill_size old data_size)
last_copy-repetition fill old fill_size data_size run (last, m, e, low, high, r) =
    let size : (last * fill_size + (data_size - last * fill_size) ≡ data_size) = omega arith in
    rw e (
      ap some (
        fun_ext (
          rw size at (
            memcpy-Repeats fill old fill_size last (data_size - last * fill_size) m (omega arith)
              r))))

zero_rounds : (fill_size : ℕ) → 0 * fill_size ≡ 0
zero_rounds fill_size = omega arith

fill_loop-diverges :
    (fuel : ℕ) (fill : Memory) (data_size : ℕ) (m : Memory)
    → 0 < data_size
    → fill_loop fuel fill 0 data_size 0 m ≡ none
unfolding fill_loop
fill_loop-diverges zero fill data_size m pos = refl
fill_loop-diverges (suc fuel) fill data_size m pos =
    ground (arith, fill_loop-diverges fuel fill data_size (memcpy m 0 fill 0) pos)

-- SetFill with a pattern that is not empty, and sizes whose sum fits in 32 bits, ends, in as many
-- rounds as the buffer has bytes at most; byte i of the buffer is then byte i modulo the size of the
-- pattern, and nothing beyond the buffer is written.
pub fill_pattern-repetition :
    (fuel : ℕ) (fill : Memory) (fill_size data_size : ℕ) (m : Memory)
    → 0 < fill_size
    → data_size + fill_size ≤ 2 ^ 32
    → data_size < fuel
    → fill_pattern fuel fill fill_size data_size m ≡ some (repetition fill fill_size m data_size)
unfolding fill_pattern
fill_pattern-repetition fuel fill fill_size data_size m pos fits enough =
    elim (Bool-cases (leb data_size fill_size)) [
      | inl short ↦
          rw short (ap some (fun_ext (short-Repeats fill fill_size data_size m (leb→le _ _ short))))
      | inr long ↦ rw long (
          last_copy-repetition fill m fill_size data_size
            (fill_loop fuel fill fill_size data_size 0 m)
            (rw (zero_rounds fill_size) at (
              fill_loop-Fills fuel fill m fill_size data_size 0 m pos fits (ground arith)
                (omega arith) (λ i. ground arith))))
    ]

-- With an empty pattern and a buffer that is not empty the loop never ends: no number of rounds is
-- enough.
pub fill_pattern-diverges :
    (fuel : ℕ) (fill : Memory) (data_size : ℕ) (m : Memory)
    → 0 < data_size
    → fill_pattern fuel fill 0 data_size m ≡ none
unfolding fill_pattern
fill_pattern-diverges fuel fill data_size m pos =
    rw (fill_loop-diverges fuel fill data_size m pos) (ground arith)
