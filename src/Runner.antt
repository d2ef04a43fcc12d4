-- ===== src/Runner.antt =====
-- run.py, up to the plot: the runs of the experiment, one for each capacity with and without
-- compression. What os.system returns is not looked at, so the runs are a list.
mod Tests
use cs621_network_programmin.Common.{
  ℕ, zero, suc, ◌+◌, ◌*◌, ◌/◌, ◌%◌, ◌<◌, ◌≤◌, ◌≡◌, refl, String, Option, some, List, [], ◌∷◌, ◌++◌,
  length, get_elem?, get_or, ltb, ◌==◌, if◌then◌else◌, str_concat, arith, sym, ap, ◌∙◌,
}

-- What the script does to the outside.
pub data Action : Type 0 where
  printed : String → Action
  ran : String → Action

abbrev digit : ℕ → String
digit n = get_or ("0" ∷ "1" ∷ "2" ∷ "3" ∷ "4" ∷ "5" ∷ "6" ∷ "7" ∷ "8" ∷ "9" ∷ []) n ""

-- str (n), for a number of at most two digits
unfoldable pub str : ℕ → String
str n = if ltb n 10 then digit n else str_concat (digit (n / 10)) (digit (n % 10))

-- The texts with the capacity between them.
abbrev around : String → ℕ → String → String
around before cap after = str_concat before (str_concat (str cap) after)

-- The body of the two loops.
unfoldable pub run_one : ℕ → ℕ → List Action
unfolding str
run_one cap comp =
    if comp == 0
    then printed (around "Running for capacity: " cap "Mbps without compression")
      ∷ ran (around "cd ns-3.29 && ./waf --run \"cs621-dev01 --cap=" cap " --comp=0\"")
      ∷ []
    else printed (around "Running for capacity: " cap "Mbps with compression")
      ∷ ran (around "cd ns-3.29 && ./waf --run \"cs621-dev01 --cap=" cap " --comp=1\"")
      ∷ []

-- for comp in compression
unfoldable pub run_cap : ℕ → List ℕ → List Action
unfolding run_one
run_cap cap [] = []
run_cap cap (comp ∷ comps) = run_one cap comp ++ run_cap cap comps

-- for cap in capList
unfoldable pub run_all : List ℕ → List ℕ → List Action
unfolding run_cap
run_all [] comps = []
run_all (cap ∷ caps) comps = run_cap cap comps ++ run_all caps comps

abbrev pub cap_list : List ℕ
cap_list = 1 ∷ 2 ∷ 3 ∷ 4 ∷ 5 ∷ 6 ∷ 7 ∷ 8 ∷ 9 ∷ 10 ∷ []

abbrev pub compression : List ℕ
compression = 0 ∷ 1 ∷ []

unfoldable pub run : List Action
unfolding run_all
run = run_all cap_list compression

-- The commands that were run.
abbrev pub commands : List Action → List String
commands [] = []
commands (printed text ∷ rest) = commands rest
commands (ran command ∷ rest) = command ∷ commands rest

-- The command line of one experiment.
abbrev pub command_line : ℕ → ℕ → String
command_line cap comp =
    str_concat "cd ns-3.29 && ./waf --run \"cs621-dev01 --cap="
      (str_concat (str cap) (str_concat " --comp=" (str_concat (str comp) "\"")))

abbrev from : ℕ → ℕ → List ℕ
from k zero = []
from k (suc n) = k ∷ from (k + 1) n

-- Each capacity of the loop takes two commands.
commands-run_all :
    (k n i comp : ℕ)
    → i < n
    → comp ≤ 1
    → get_elem? (commands (run_all (from k n) compression)) (2 * i + comp)
      ≡ some (command_line (k + i) comp)
unfolding run_all run_one
commands-run_all k zero i comp below one = absurd (omega arith)
commands-run_all k (suc n) zero zero below one =
    let here : (k + 0 ≡ k) = omega arith in rw here refl
commands-run_all k (suc n) zero (suc zero) below one =
    let here : (k + 0 ≡ k) = omega arith in rw here refl
commands-run_all k (suc n) zero (suc (suc comp)) below one = absurd (omega arith)
commands-run_all k (suc n) (suc i) comp below one =
    let next = commands-run_all (k + 1) n i comp (omega arith) one in
    let two : (2 * suc i + comp ≡ suc (suc (2 * i + comp))) = omega arith in
    let same : (k + 1 + i ≡ k + suc i) = omega arith in
    rw two (next ∙ ap (λ (cap : ℕ). some (command_line cap comp)) same)

-- The script runs the experiment twenty times: for each capacity from 1 to 10, first without
-- compression and then with it, in this order.
pub run-commands :
    (i comp : ℕ)
    → i < 10
    → comp ≤ 1
    → (get_elem? (commands run) (2 * i + comp) ≡ some (command_line (i + 1) comp))
      × (length (commands run) ≡ 20)
unfolding run
run-commands i comp below one =
    let same : (1 + i ≡ i + 1) = omega arith in
    (
      commands-run_all 1 10 i comp below one ∙ ap (λ (cap : ℕ). some (command_line cap comp)) same,
      refl,
    )
