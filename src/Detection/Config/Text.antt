-- ===== src/Detection/Config/Text.antt =====
-- Texts of settings: what removing white space, looking for `=` and reading a number make of them.
use cs621_network_programmin.Common.{
  ℕ, suc, ◌^◌, ◌<◌, ◌≡◌, refl, true, false, some, List, [], ◌∷◌, ◌++◌, ◌==◌, arith, All,
}
use cs621_network_programmin.Common.Integers.{ℤ, pos, negsuc}
use cs621_network_programmin.Common.Decimal.{
  digits, is_digit, decimal, digits-decimal, Starts, decimal-Starts, decimal-All,
}
use cs621_network_programmin.Detection.Config.{is_space, strip, lines, name_of, value_after, stoi}

-- Text with no white space, and white space that ends no line.
abbrev pub Plain : List ℕ → Type 0
Plain = All (λ c. is_space c ≡ false)

abbrev pub Blank : List ℕ → Type 0
Blank = All (λ c. (is_space c ≡ true) × (c == b'\n' ≡ false))

abbrev pub OneLine : List ℕ → Type 0
OneLine = All (λ c. c == b'\n' ≡ false)

abbrev pub NoEquals : List ℕ → Type 0
NoEquals = All (λ c. c == b'=' ≡ false)

pub strip-append : (xs ys : List ℕ) → strip (xs ++ ys) ≡ strip xs ++ strip ys
unfolding strip
strip-append [] ys = refl
strip-append (x ∷ xs) ys = rw (strip-append xs ys) (ground arith)

pub strip-Blank : (xs : List ℕ) → Blank xs → strip xs ≡ []
unfolding strip
strip-Blank [] h = refl
strip-Blank (x ∷ xs) h = rw (h.0.0) (strip-Blank xs h.1)

pub strip-Plain : (xs : List ℕ) → Plain xs → strip xs ≡ xs
unfolding strip
strip-Plain [] h = refl
strip-Plain (x ∷ xs) h = rw (h.0, strip-Plain xs h.1) refl

pub Blank-OneLine : (xs : List ℕ) → Blank xs → OneLine xs
Blank-OneLine [] h = tt
Blank-OneLine (x ∷ xs) h = (h.0.1, Blank-OneLine xs h.1)

pub Plain-OneLine : (xs : List ℕ) → Plain xs → OneLine xs
Plain-OneLine [] h = tt
Plain-OneLine (x ∷ xs) h = (let h0 = h.0 in ground (arith, h0), Plain-OneLine xs h.1)

pub lines-append :
    (line rest : List ℕ) → OneLine line → lines (line ++ b'\n' ∷ rest) ≡ line ∷ lines rest
unfolding lines
lines-append [] rest h = refl
lines-append (x ∷ xs) rest h = rw (h.0, lines-append xs rest h.1) refl

pub name_of-append : (name value : List ℕ) → NoEquals name → name_of (name ++ b'=' ∷ value) ≡ name
unfolding name_of
name_of-append [] value h = refl
name_of-append (x ∷ xs) value h = rw (h.0, name_of-append xs value h.1) refl

pub value_after-append :
    (name value : List ℕ) → NoEquals name → value_after (name ++ b'=' ∷ value) ≡ some value
unfolding value_after
value_after-append [] value h = refl
value_after-append (x ∷ xs) value h = rw (h.0, value_after-append xs value h.1) refl

stoi-Starts : (t : List ℕ) (n : ℕ) → Starts t → digits 0 t ≡ n → n < 2 ^ 31 → stoi t ≡ some (pos n)
unfolding stoi
stoi-Starts [] n s e h = absurd s
stoi-Starts (c ∷ cs) n s e h =
    let blank : (is_space c ≡ false) = ground (arith, s) in
    let minus : (c == b'-' ≡ false) = ground (arith, s) in
    let plus : (c == b'+' ≡ false) = ground (arith, s) in
    rw (blank, minus, plus, s, e) (ground (arith, h))

stoi-minus :
    (t : List ℕ) (n : ℕ)
    → Starts t
    → digits 0 t ≡ suc n
    → n < 2 ^ 31
    → stoi (b'-' ∷ t) ≡ some (negsuc n)
unfolding stoi
stoi-minus [] n s e h = absurd s
stoi-minus (c ∷ cs) n s e h = rw (s, e) (ground (arith, h))

-- An `int` as text.
abbrev pub signed : ℤ → List ℕ
signed (pos n) = decimal n
signed (negsuc n) = b'-' ∷ decimal (suc n)

abbrev pub IsInt : ℤ → Type 0
IsInt (pos n) = n < 2 ^ 31
IsInt (negsuc n) = n < 2 ^ 31

pub stoi-signed : (z : ℤ) → IsInt z → stoi (signed z) ≡ some z
stoi-signed (pos n) h = stoi-Starts (decimal n) n (decimal-Starts n) (digits-decimal n) h
stoi-signed (negsuc n) h =
    stoi-minus (decimal (suc n)) n (decimal-Starts (suc n)) (digits-decimal (suc n)) h

digit-Plain : (cs : List ℕ) → All (λ c. is_digit c ≡ true) cs → Plain cs
digit-Plain [] h = tt
digit-Plain (c ∷ cs) h = (let d = h.0 in ground (arith, d), digit-Plain cs h.1)

pub signed-Plain : (z : ℤ) → Plain (signed z)
signed-Plain (pos n) = digit-Plain (decimal n) (decimal-All n)
signed-Plain (negsuc n) = (refl, digit-Plain (decimal (suc n)) (decimal-All (suc n)))
