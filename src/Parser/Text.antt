-- ===== src/Parser/Text.antt =====
-- What src/parser_json/parser_json.cpp uses of the C++ library on texts: tolower, stoi, stoul and the
-- parts of a string. A text is ASCII; a number is its bit pattern, and `none` is an exception.
use Prim.Native.Char.{Char, code}
use Prim.Native.String.{char_at}
use Prim.Native.String as Str
use text.Mathlib.Text.{◌==◌ as str_eq}
use text.Mathlib.TextEquality.{eq_iff}
use multicore_simulator.Prelude.{
  ℕ, Bool, true, false, List, [], ◌∷◌, String, Option, none, some, ◌+◌, ◌-◌, ◌*◌, ◌%◌, ◌^◌, ◌==◌,
  leb, ltb, ◌&&◌, ◌||◌, not, if◌then◌else◌,
}
use multicore_simulator.Prelude.Assoc.{Eq}

instance abbrev pub text_eq : Eq String
text_eq = record { beq = str_eq; beq_iff = eq_iff }

unfoldable pub lower_char : Char → Char
lower_char c =
    if leb 65 (code c) && leb (code c) 90
    then char_at "abcdefghijklmnopqrstuvwxyz" (code c - 65)
    else c

unfoldable pub to_lower : String → String
unfolding lower_char
to_lower Str.[] = Str.[]
to_lower (Str.◌∷◌ c s) = Str.◌∷◌ (lower_char c) (to_lower s)

unfoldable pub characters : String → List ℕ
characters Str.[] = []
characters (Str.◌∷◌ c s) = code c ∷ characters s

-- The value of a digit; 36 if it is none.
unfoldable pub digit : ℕ → ℕ
digit c =
    if leb 48 c && leb c 57
    then c - 48
    else if leb 97 c && leb c 122
    then c - 87
    else if leb 65 c && leb c 90
    then c - 55
    else 36

-- The digits at the front: their value, and whether there are any.
unfoldable pub digits : ℕ → ℕ → Bool → List ℕ → ℕ × Bool
unfolding digit
digits base value any [] = (value, any)
digits base value any (c ∷ cs) =
    let rest = digits base (value * base + digit c) true cs in
    if ltb (digit c) base then rest else (value, any)

unfoldable pub is_space : ℕ → Bool
is_space c = c == 32 || (leb 9 c && leb c 13)

unfoldable pub skip_spaces : List ℕ → List ℕ
unfolding is_space
skip_spaces [] = []
skip_spaces (c ∷ cs) = let rest = skip_spaces cs in if is_space c then rest else c ∷ cs

-- A sign, and whether it is a minus.
unfoldable pub sign : List ℕ → Bool × List ℕ
sign [] = (false, [])
sign (c ∷ cs) = if c == 45 then (true, cs) else if c == 43 then (false, cs) else (false, c ∷ cs)

-- `0x` before a hexadecimal digit.
unfoldable pub hex_prefix : List ℕ → Option (List ℕ)
unfolding digit
hex_prefix (a ∷ b ∷ c ∷ cs) =
    if a == 48 && (b == 120 || b == 88) && ltb (digit c) 16 then some (c ∷ cs) else none
hex_prefix _ = none

unfoldable pub starts_octal : List ℕ → Bool
starts_octal [] = false
starts_octal (c ∷ cs) = c == 48

-- The base that `strtoul` takes, and the digits; base 0 stands for the one that the text says.
unfoldable pub with_base : ℕ → List ℕ → ℕ × List ℕ
unfolding hex_prefix starts_octal
with_base base cs = elim (hex_prefix cs) [
  | some rest ↦ if base == 0 || base == 16 then (16, rest) else (base, cs)
  | none ↦ if base == 0 then (if starts_octal cs then 8 else 10, cs) else (base, cs)
]

unfoldable pub number : ℕ → String → Bool × ℕ × Bool
unfolding sign skip_spaces characters with_base digits
number base s =
    let (minus, rest) = sign (skip_spaces (characters s)) in
    let (base', ds) = with_base base rest in
    let (value, any) = digits base' 0 false ds in (minus, value, any)

-- std::stoul, an unsigned long of 64 bits.
unfoldable pub stoul : ℕ → String → Option ℕ
unfolding number
stoul base s =
    let (minus, value, any) = number base s in
    if not any
    then none
    else if leb (2 ^ 64) value
    then none
    else some (if minus then (2 ^ 64 - value) % 2 ^ 64 else value)

-- std::stoi, an int of 32 bits.
unfoldable pub stoi : String → Option ℕ
unfolding number
stoi s =
    let (minus, value, any) = number 10 s in
    if not any
    then none
    else if minus
    then (if leb value (2 ^ 31) then some ((2 ^ 32 - value) % 2 ^ 32) else none)
    else if ltb value (2 ^ 31)
    then some value
    else none

-- s.rfind("0x", 0) == 0
unfoldable pub starts_hex : List ℕ → Bool
starts_hex (a ∷ b ∷ cs) = a == 48 && b == 120
starts_hex _ = false

unfoldable pub is_hex : String → Bool
unfolding starts_hex characters
is_hex s = starts_hex (characters s)

-- s.empty()
unfoldable pub is_empty_string : String → Bool
is_empty_string Str.[] = true
is_empty_string (Str.◌∷◌ c s) = false

-- The text before the first of a character, and the text behind it.
unfoldable pub split_at : ℕ → String → Option (String × String)
split_at a Str.[] = none
split_at a (Str.◌∷◌ c s) =
    let rest = split_at a s in
    if code c == a
    then some (Str.[], s)
    else elim rest [ none ↦ none | some (before, behind) ↦ some (Str.◌∷◌ c before, behind) ]
