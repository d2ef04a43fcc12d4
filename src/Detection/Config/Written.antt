-- ===== src/Detection/Config/Written.antt =====
-- A configuration file as it is written by hand: a line for each setting, with any blanks around
-- the name and the value.
use cs621_network_programmin.Common.{
  ℕ, ◌≡◌, refl, ap, ◌∙◌, false, none, some, List, [], ◌∷◌, ◌++◌, append-nil, arith, All, All-append,
}
use cs621_network_programmin.Common.Integers.{ℤ}
use cs621_network_programmin.Common.Decimal.{codes}
use cs621_network_programmin.Detection.Config.{
  Config, to_u32, text_eq, strip, lines, name_of, value_of, assign, load_line, load_lines, load,
}
use cs621_network_programmin.Detection.Config.Text.{
  Plain, Blank, OneLine, NoEquals, strip-append, strip-Blank, strip-Plain, Blank-OneLine,
  Plain-OneLine, lines-append, name_of-append, value_after-append, signed, IsInt, stoi-signed,
  signed-Plain,
}

-- A line of the file: the four names that the program knows, and any other.
pub data Setting : Type 0 where
  packet_size : ℤ → Setting
  max_packet_count : ℤ → Setting
  outer_data_rate : List ℕ → Setting
  threshold : ℤ → Setting
  other : List ℕ → List ℕ → Setting

abbrev pub name : Setting → List ℕ
name (packet_size n) = codes "packetSize"
name (max_packet_count n) = codes "maxPacketCount"
name (outer_data_rate t) = codes "outerDataRate"
name (threshold n) = codes "threshold"
name (other s t) = s

abbrev pub value : Setting → List ℕ
value (packet_size n) = signed n
value (max_packet_count n) = signed n
value (outer_data_rate t) = t
value (threshold n) = signed n
value (other s t) = t

-- What a setting means.
abbrev pub apply : Setting → Config → Config
apply (packet_size n) c = record c { packet_size = some (to_u32 n) }
apply (max_packet_count n) c = record c { max_packet_count = some (to_u32 n) }
apply (outer_data_rate t) c = record c { outer_data_rate = t }
apply (threshold n) c = record c { threshold = some n }
apply (other s t) c = c

-- The blanks of a line.
pub record Blanks : Type 0 where
  pub lead : List ℕ
  pub before : List ℕ
  pub after : List ℕ
  pub trail : List ℕ

abbrev pub line : Setting → Blanks → List ℕ
line s b = b.lead ++ (name s ++ (b.before ++ b'=' ∷ (b.after ++ (value s ++ b.trail))))

abbrev pub written : List (Setting × Blanks) → List ℕ
written [] = []
written ((s, b) ∷ rest) = line s b ++ b'\n' ∷ written rest

abbrev pub apply_all : List (Setting × Blanks) → Config → Config
apply_all [] c = c
apply_all ((s, b) ∷ rest) c = apply_all rest (apply s c)

-- The values that the file can hold.
abbrev pub Fits : Setting → Type 0
Fits (packet_size n) = IsInt n
Fits (max_packet_count n) = IsInt n
Fits (outer_data_rate t) = Plain t
Fits (threshold n) = IsInt n
Fits (other s t) =
    Plain s
    × NoEquals s
    × Plain t
    × (text_eq s (codes "packetSize") ≡ false)
    × (text_eq s (codes "maxPacketCount") ≡ false)
    × (text_eq s (codes "outerDataRate") ≡ false)
    × (text_eq s (codes "threshold") ≡ false)

abbrev pub AreBlank : Blanks → Type 0
AreBlank b = Blank (b.lead) × Blank (b.before) × Blank (b.after) × Blank (b.trail)

abbrev pub IsWritable : Setting × Blanks → Type 0
IsWritable (s, b) = Fits s × AreBlank b

name-Plain : (s : Setting) → Fits s → Plain (name s)
name-Plain (packet_size n) h = ground arith
name-Plain (max_packet_count n) h = ground arith
name-Plain (outer_data_rate t) h = ground arith
name-Plain (threshold n) h = ground arith
name-Plain (other s t) h = h.0

name-NoEquals : (s : Setting) → Fits s → NoEquals (name s)
name-NoEquals (packet_size n) h = ground arith
name-NoEquals (max_packet_count n) h = ground arith
name-NoEquals (outer_data_rate t) h = ground arith
name-NoEquals (threshold n) h = ground arith
name-NoEquals (other s t) h = h.1

value-Plain : (s : Setting) → Fits s → Plain (value s)
value-Plain (packet_size n) h = signed-Plain n
value-Plain (max_packet_count n) h = signed-Plain n
value-Plain (outer_data_rate t) h = h
value-Plain (threshold n) h = signed-Plain n
value-Plain (other s t) h = h.2

-- The chain of comparisons finds the setting that was written.
assign-apply : (s : Setting) (c : Config) → Fits s → assign (name s) (value s) c ≡ some (apply s c)
unfolding assign
assign-apply (packet_size n) c h = rw (stoi-signed n h) refl
assign-apply (max_packet_count n) c h = rw (stoi-signed n h) refl
assign-apply (outer_data_rate t) c h = refl
assign-apply (threshold n) c h = rw (stoi-signed n h) refl
assign-apply (other s t) c h = rw (h.3, h.4, h.5, h.6) refl

strip-padded :
    (blanks text rest : List ℕ)
    → Blank blanks
    → Plain text
    → strip (blanks ++ (text ++ rest)) ≡ text ++ strip rest
strip-padded blanks text rest h k =
    strip-append blanks (text ++ rest)
    ∙ rw (strip-Blank blanks h, strip-append text rest, strip-Plain text k) refl

strip-line :
    (s : Setting) (b : Blanks) → Fits s → AreBlank b → strip (line s b) ≡ name s ++ b'=' ∷ value s
strip-line s b h k =
    let rest = b'=' ∷ (b.after ++ (value s ++ b.trail)) in
    strip-padded b.lead (name s) (b.before ++ rest) k.0 (name-Plain s h)
    ∙ ap (λ t. name s ++ t)
        (strip-padded b.before (b'=' ∷ []) (b.after ++ (value s ++ b.trail)) k.1 (refl, tt)
          ∙ ap (λ t. b'=' ∷ t)
              (strip-padded b.after (value s) b.trail k.2 (value-Plain s h)
                ∙ ap (λ t. value s ++ t) (strip-Blank b.trail k.3)
                ∙ append-nil (value s)))

load_line-line :
    (s : Setting) (b : Blanks) (c : Config)
    → Fits s
    → AreBlank b
    → load_line (line s b) c ≡ some (apply s c)
unfolding load_line
load_line-line s b c h k =
    ap (λ l. assign (name_of l) (value_of l) c) (strip-line s b h k)
    ∙ ap (λ n. assign n (value_of (name s ++ b'=' ∷ value s)) c)
        (name_of-append (name s) (value s) (name-NoEquals s h))
    ∙ ap (λ v. assign (name s) (elim v [ none ↦ name s ++ b'=' ∷ value s | some t ↦ t ]) c)
        (value_after-append (name s) (value s) (name-NoEquals s h))
    ∙ assign-apply s c h

line-OneLine : (s : Setting) (b : Blanks) → Fits s → AreBlank b → OneLine (line s b)
line-OneLine s b h k = All-append _ b.lead _ (Blank-OneLine b.lead k.0) (
    All-append _ (name s) _ (Plain-OneLine (name s) (name-Plain s h)) (
      All-append _ b.before _ (Blank-OneLine b.before k.1) (
        refl,
        All-append _ b.after _ (Blank-OneLine b.after k.2) (
            All-append _ (value s) _ (Plain-OneLine (value s) (value-Plain s h))
              (Blank-OneLine b.trail k.3)),
      )))

-- For the settings and blanks of a file that are writable ones — numbers that are `int`s, values
-- without white space, other names that are not one of the four and without white space or `=`,
-- and blanks that end no line —, reading the file that is written from them, whatever the
-- variables held, ends without an exception and gives each variable the value of the last setting
-- of its name, the packets' size and count modulo 2 ^ 32; a variable that is not named keeps what
-- it held.
pub load-written :
    (ws : List (Setting × Blanks)) (c : Config)
    → All IsWritable ws
    → load (written ws) c ≡ some (apply_all ws c)
unfolding load load_lines
load-written [] c h = refl
load-written ((s, b) ∷ rest) c h =
    ap (λ t. load_lines t c) (lines-append (line s b) (written rest) (line-OneLine s b h.0.0 h.0.1))
    ∙ ap (λ r. elim r [ none ↦ none | some c' ↦ load_lines (lines (written rest)) c' ])
        (load_line-line s b c h.0.0 h.0.1)
    ∙ load-written rest (apply s c) h.1
