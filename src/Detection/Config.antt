-- ===== src/Detection/Config.antt =====
-- examples/routing/cs621-dev01.cc: reading config/config.txt. A text is the list of its character
-- codes; a variable that nothing was assigned to is `none`, and so is a run that ends in an exception
-- of `stoi`.
pub mod Text
pub mod Written
mod Tests
use cs621_network_programmin.Common.{
  ℕ, ◌+◌, ◌-◌, ◌*◌, ◌%◌, ◌^◌, Bool, true, false, Option, none, some, List, [], ◌∷◌, ltb, leb, ◌==◌,
  ◌&&◌, ◌||◌, if◌then◌else◌, zero, suc,
}
use cs621_network_programmin.Common.Integers.{ℤ, pos, negsuc}
use cs621_network_programmin.Common.Decimal.{codes, is_digit, digits}

-- isspace
abbrev pub is_space : ℕ → Bool
is_space c = c == b' ' || leb 9 c && leb c 13

-- line.erase (std::remove_if (line.begin (), line.end (), isspace), line.end ())
unfoldable pub strip : List ℕ → List ℕ
strip [] = []
strip (c ∷ cs) = let rest = strip cs in if is_space c then rest else c ∷ rest

abbrev cons_first : ℕ → List (List ℕ) → List (List ℕ)
cons_first c [] = (c ∷ []) ∷ []
cons_first c (line ∷ lines) = (c ∷ line) ∷ lines

-- The lines that getline finds.
unfoldable pub lines : List ℕ → List (List ℕ)
lines [] = []
lines (c ∷ cs) = let rest = lines cs in if c == b'\n' then [] ∷ rest else cons_first c rest

-- line.substr (0, line.find ("="))
unfoldable pub name_of : List ℕ → List ℕ
name_of [] = []
name_of (c ∷ cs) = let rest = name_of cs in if c == b'=' then [] else c ∷ rest

unfoldable pub value_after : List ℕ → Option (List ℕ)
value_after [] = none
value_after (c ∷ cs) = let rest = value_after cs in if c == b'=' then some cs else rest

-- line.substr (line.find ("=") + 1): with no `=`, find gives npos, and npos + 1 is 0.
abbrev pub value_of : List ℕ → List ℕ
value_of line = elim (value_after line) [ none ↦ line | some value ↦ value ]

abbrev opposite : ℕ → ℤ
opposite zero = pos 0
opposite (suc n) = negsuc n

-- The value of the digits that a text starts with, if it fits in an `int`.
abbrev unsigned : Bool → List ℕ → Option ℤ
unsigned negative [] = none
unsigned negative (c ∷ cs) =
    let n : ℕ = digits 0 (c ∷ cs) in
    if is_digit c
    then (if negative
        then (if leb n (2 ^ 31) then some (opposite n) else none)
        else (if ltb n (2 ^ 31) then some (pos n) else none))
    else none

-- std::stoi, which skips white space, takes a sign and digits, and ignores what follows
unfoldable pub stoi : List ℕ → Option ℤ
stoi [] = none
stoi (c ∷ cs) =
    let rest = stoi cs in
    if is_space c
    then rest
    else if c == b'-'
    then unsigned true cs
    else if c == b'+'
    then unsigned false cs
    else unsigned false (c ∷ cs)

-- (uint32_t)
abbrev pub to_u32 : ℤ → ℕ
to_u32 (pos n) = n % 2 ^ 32
to_u32 (negsuc n) = 2 ^ 32 - 1 - n % 2 ^ 32

pub record Config : Type 0 where
  pub packet_size : Option ℕ
  pub max_packet_count : Option ℕ
  pub outer_data_rate : List ℕ
  pub threshold : Option ℤ

-- The variables as they are declared.
abbrev pub unset : Config
unset = record {
  packet_size = none;
  max_packet_count = none;
  outer_data_rate = [];
  threshold = none;
}

abbrev pub text_eq : List ℕ → List ℕ → Bool
text_eq [] [] = true
text_eq (a ∷ s) (b ∷ t) = a == b && text_eq s t
text_eq s t = false

abbrev assigned : (ℤ → Config) → Option ℤ → Option Config
assigned f none = none
assigned f (some n) = some (f n)

-- The chain of comparisons with the names.
unfoldable pub assign : List ℕ → List ℕ → Config → Option Config
unfolding stoi
assign name value c =
    if text_eq name (codes "packetSize")
    then assigned (λ n. record c { packet_size = some (to_u32 n) }) (stoi value)
    else if text_eq name (codes "maxPacketCount")
    then assigned (λ n. record c { max_packet_count = some (to_u32 n) }) (stoi value)
    else if text_eq name (codes "outerDataRate")
    then some (record c { outer_data_rate = value })
    else if text_eq name (codes "threshold")
    then assigned (λ n. record c { threshold = some n }) (stoi value)
    else some c

-- The body of the loop.
unfoldable pub load_line : List ℕ → Config → Option Config
unfolding strip name_of value_after assign
load_line line c = let l = strip line in assign (name_of l) (value_of l) c

unfoldable pub load_lines : List (List ℕ) → Config → Option Config
unfolding load_line
load_lines [] c = some c
load_lines (line ∷ rest) c = elim (load_line line c) [ none ↦ none | some c' ↦ load_lines rest c' ]

-- The whole file.
unfoldable pub load : List ℕ → Config → Option Config
unfolding lines load_lines
load text c = load_lines (lines text) c
