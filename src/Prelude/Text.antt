-- ===== src/Prelude/Text.antt =====
-- Rust's operations on `str` that the program uses, over the characters of a text.
use Prim.Native.Nat.{ℕ, zero, suc, ◌+◌, ◌/◌, ◌%◌}
use Prim.Native.Char.{Char, code}
use Prim.Native.String
use Prim.Native.String.{String}
use mathlib.Core.Bool.{Bool, ◌&&◌, ◌||◌}
use mathlib.Core.List.{List, [], ◌∷◌}
use text.Mathlib.Text.{starts_with}
use mikan_judge.Prelude.Tests.{ltb, leb, eqb, if◌then◌else◌}

-- `char::is_whitespace`: the code points with the property White_Space.
unfoldable pub is_whitespace : ℕ → Bool
is_whitespace c =
    leb 9 c && leb c 13
    || eqb c 32
    || eqb c 133
    || eqb c 160
    || eqb c 5760
    || leb 8192 c && leb c 8202
    || eqb c 8232
    || eqb c 8233
    || eqb c 8239
    || eqb c 8287
    || eqb c 12288

unfoldable pub trim_start : String → String
unfolding is_whitespace
trim_start String.[] = String.[]
trim_start (String.◌∷◌ c s) =
    let rest = trim_start s in if is_whitespace (code c) then rest else String.◌∷◌ c s

-- A white character is kept only in front of a text that keeps something.
push_trimmed : Char → String → String
push_trimmed c String.[] = if is_whitespace (code c) then String.[] else String.◌∷◌ c String.[]
push_trimmed c (String.◌∷◌ d s) = String.◌∷◌ c (String.◌∷◌ d s)

unfoldable pub trim_end : String → String
unfolding is_whitespace push_trimmed
trim_end String.[] = String.[]
trim_end (String.◌∷◌ c s) = push_trimmed c (trim_end s)

unfoldable pub trim : String → String
unfolding trim_start trim_end
trim s = trim_end (trim_start s)

-- `str::len`: the number of bytes in UTF-8.
utf8_width : ℕ → ℕ
utf8_width c = if ltb c 128 then 1 else if ltb c 2048 then 2 else if ltb c 65_536 then 3 else 4

unfoldable pub utf8_len : String → ℕ
unfolding utf8_width
utf8_len String.[] = 0
utf8_len (String.◌∷◌ c s) = utf8_width (code c) + utf8_len s

-- `trim_end_matches` of the character with the code `c`.
unfoldable pub trim_end_matches : ℕ → String → String
trim_end_matches c String.[] = String.[]
trim_end_matches c (String.◌∷◌ d s) = keep (trim_end_matches c s)
  where
    keep : String → String
    keep String.[] = if eqb (code d) c then String.[] else String.◌∷◌ d String.[]
    keep (String.◌∷◌ e t) = String.◌∷◌ d (String.◌∷◌ e t)

-- `format!` with its pieces written out.
unfoldable pub format : List String → String
format [] = ""
format (s ∷ ss) = String.◌++◌ s (format ss)

-- The words so far are those of the text behind; `cur` is the word that is open.
push_word : String → List String → List String
push_word String.[] ws = ws
push_word (String.◌∷◌ c s) ws = String.◌∷◌ c s ∷ ws

words_from : String → String → List String
words_from cur String.[] = push_word cur []
words_from cur (String.◌∷◌ c s) =
    let closed = push_word cur (words_from "" s) in
    let longer = words_from (String.◌++◌ cur (String.◌∷◌ c String.[])) s in
    if is_whitespace (code c) then closed else longer

unfoldable pub split_whitespace : String → List String
unfolding words_from push_word is_whitespace
split_whitespace s = words_from "" s

-- `lines`: a line ends at "\n" or "\r\n", and a text that ends with a line break has no line after it.
strip_cr : String → String
strip_cr String.[] = String.[]
strip_cr (String.◌∷◌ c String.[]) = if eqb (code c) 13 then "" else String.◌∷◌ c String.[]
strip_cr (String.◌∷◌ c (String.◌∷◌ d s)) = String.◌∷◌ c (strip_cr (String.◌∷◌ d s))

lines_from : String → String → List String
lines_from cur String.[] = push_word cur []
lines_from cur (String.◌∷◌ c s) =
    let closed = strip_cr cur ∷ lines_from "" s in
    let longer = lines_from (String.◌++◌ cur (String.◌∷◌ c String.[])) s in
    if eqb (code c) 10 then closed else longer

unfoldable pub lines : String → List String
unfolding lines_from push_word strip_cr
lines s = lines_from "" s

-- `contains` of a text.
unfoldable pub contains : String → String → Bool
contains String.[] t = starts_with String.[] t
contains (String.◌∷◌ c s) t = starts_with (String.◌∷◌ c s) t || contains s t

digit : ℕ → String
digit zero = "0"
digit (suc zero) = "1"
digit (suc (suc zero)) = "2"
digit (suc (suc (suc zero))) = "3"
digit (suc (suc (suc (suc zero)))) = "4"
digit (suc (suc (suc (suc (suc zero))))) = "5"
digit (suc (suc (suc (suc (suc (suc zero)))))) = "6"
digit (suc (suc (suc (suc (suc (suc (suc zero))))))) = "7"
digit (suc (suc (suc (suc (suc (suc (suc (suc zero)))))))) = "8"
digit _ = "9"

-- Fuel above the number is enough: each round divides it by ten.
decimal_from : ℕ → ℕ → String → String
decimal_from zero n acc = acc
decimal_from (suc fuel) n acc =
    let acc' = String.◌++◌ (digit (n % 10)) acc in
    let rest = decimal_from fuel (n / 10) acc' in if ltb n 10 then acc' else rest

-- `to_string` of an unsigned number.
unfoldable pub decimal : ℕ → String
unfolding decimal_from digit
decimal n = decimal_from (suc n) n ""
