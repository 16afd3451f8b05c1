-- ===== src/Base/Text.antt =====
-- Text: numbers in decimal and bytes in hexadecimal, as fmt and encoding/hex print them, and byte
-- strings cut at a separator.
use Prim.Native.Nat.{ℕ, zero, suc, ◌/◌, ◌%◌}
use Prim.Native.Char.{Char, code}
use Prim.Native.String.{String, ◌++◌}
use mathlib.Core.Bool.{Bool, true, false, ◌&&◌}
use mathlib.Core.List.{List, [], ◌∷◌}
use mathlib.Core.Path.{◌≡◌, refl}
use mathlib.Core.Option.{Option, none, some}
use text.Mathlib.Text.{◌==◌ as same_text}
use colex.Base.Tests.{◌==◌, ltb, if◌then◌else◌}

abbrev pub Bytes : Type 0
Bytes = List ℕ

-- the bytes of a text in ASCII
abbrev pub codes : String → Bytes
codes String.[] = []
codes (String.◌∷◌ c s) = code c ∷ codes s

unfoldable pub hex_digit : ℕ → String
hex_digit n =
    if n == 0
    then "0"
    else if n == 1
    then "1"
    else if n == 2
    then "2"
    else if n == 3
    then "3"
    else if n == 4
    then "4"
    else if n == 5
    then "5"
    else if n == 6
    then "6"
    else if n == 7
    then "7"
    else if n == 8
    then "8"
    else if n == 9
    then "9"
    else if n == 10
    then "a"
    else if n == 11
    then "b"
    else if n == 12
    then "c"
    else if n == 13
    then "d"
    else if n == 14
    then "e"
    else "f"

-- hex.EncodeToString
unfoldable pub hex : List ℕ → String
unfolding hex_digit
hex [] = ""
hex (b ∷ bs) = (hex_digit (b / 16) ++ hex_digit (b % 16)) ++ hex bs

unfoldable pub digits_from : ℕ → ℕ → String → String
unfolding hex_digit
digits_from zero n out = out
digits_from (suc fuel) n out = elim (ltb n 10) [
  | true ↦ hex_digit n ++ out
  | false ↦ digits_from fuel (n / 10) (hex_digit (n % 10) ++ out)
]

-- %d of a number; each round divides by ten, so `suc n` rounds are enough
unfoldable pub decimal : ℕ → String
unfolding digits_from
decimal n = digits_from (suc n) n ""

-- net.IP.String of four bytes
unfoldable pub dotted : List ℕ → String
unfolding decimal
dotted [] = ""
dotted (b ∷ []) = decimal b
dotted (b ∷ bs) = decimal b ++ ("." ++ dotted bs)

-- strings.Split at one byte: always at least one piece
abbrev pub cons_piece : ℕ → List Bytes → List Bytes
cons_piece b [] = (b ∷ []) ∷ []
cons_piece b (p ∷ ps) = (b ∷ p) ∷ ps

unfoldable pub split : ℕ → Bytes → List Bytes
split sep [] = [] ∷ []
split sep (b ∷ bs) = let rest = split sep bs in if b == sep then [] ∷ rest else cons_piece b rest

unfoldable pub same_bytes : Bytes → Bytes → Bool
same_bytes [] [] = true
same_bytes (a ∷ xs) (b ∷ ys) = a == b && same_bytes xs ys
same_bytes _ _ = false

abbrev cons_char : Char → List String → List String
cons_char c [] = String.◌∷◌ c "" ∷ []
cons_char c (p ∷ ps) = String.◌∷◌ c p ∷ ps

-- strings.Split of a text at one ASCII character
unfoldable pub split_text : ℕ → String → List String
split_text sep String.[] = "" ∷ []
split_text sep (String.◌∷◌ c s) =
    let rest = split_text sep s in if code c == sep then "" ∷ rest else cons_char c rest

-- The lines that bufio.ScanLines gives: no last empty line, and no carriage return at an end.
abbrev pub drop_cr : Bytes → Bytes
drop_cr [] = []
drop_cr (b ∷ []) = if b == 13 then [] else b ∷ []
drop_cr (b ∷ c ∷ bs) = b ∷ drop_cr (c ∷ bs)

decimal_test : decimal 17832 ≡ "17832"
unfolding decimal
decimal_test = refl

dotted_test : dotted (10 ∷ 21 ∷ 0 ∷ 1 ∷ []) ≡ "10.21.0.1"
unfolding dotted
dotted_test = refl

hex_test : hex (57 ∷ 56 ∷ 164 ∷ 78 ∷ []) ≡ "3938a44e"
unfolding hex
hex_test = refl

abbrev tail_text : Option String → Char → Option String
tail_text none c = none
tail_text (some s) c = some (String.◌∷◌ c s)

-- strings.HasSuffix and TrimSuffix in one: the text before the suffix, where it ends so
unfoldable pub trim_suffix : String → String → Option String
trim_suffix suffix String.[] = if same_text String.[] suffix then some "" else none
trim_suffix suffix (String.◌∷◌ c s) =
    let shorter = trim_suffix suffix s in
    if same_text (String.◌∷◌ c s) suffix then some "" else tail_text shorter c

-- strings.HasPrefix and TrimPrefix
unfoldable pub trim_prefix : String → String → Option String
trim_prefix String.[] s = some s
trim_prefix (String.◌∷◌ c p) String.[] = none
trim_prefix (String.◌∷◌ c p) (String.◌∷◌ d s) =
    let rest = trim_prefix p s in if code c == code d then rest else none

abbrev cut_tail : Option (String × String) → Char → Option (String × String)
cut_tail none c = none
cut_tail (some (a, b)) c = some (String.◌∷◌ c a, b)

-- the text before and after the first occurrence of a character
unfoldable pub cut_text : ℕ → String → Option (String × String)
cut_text sep String.[] = none
cut_text sep (String.◌∷◌ c s) =
    let rest = cut_text sep s in if code c == sep then some ("", s) else cut_tail rest c

trim_suffix_test : trim_suffix ".silo." "web.silo." ≡ some "web"
unfolding trim_suffix
trim_suffix_test = refl

trim_prefix_test : trim_prefix "/silo/" "/silo/3938a44e/meta" ≡ some "3938a44e/meta"
unfolding trim_prefix
trim_prefix_test = refl
