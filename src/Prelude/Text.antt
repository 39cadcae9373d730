-- ===== src/Prelude/Text.antt =====
-- The parts of `str`, `char` and `format!` that the code uses. A text is its list of characters; its
-- length in bytes is the library's `len`.
use Prim.Native.Nat.{ℕ, zero, suc, ◌+◌, ◌-◌, ◌*◌, ◌/◌, ◌%◌, ◌^◌}
use Prim.Native.Char.{Char, code}
use Prim.Native.String
use Prim.Native.String.{String}
use mathlib.Core.Path.{◌≡◌, refl}
use mathlib.Core.Bool.{Bool, true, false, ◌&&◌, ◌||◌}
use mathlib.Core.Option.{Option, none, some}
use mathlib.Core.List.{List, [], ◌∷◌}
use ama.Prelude.Tests.{ltb, leb, nat_beq, if◌then◌else◌, ◌==◌, string_eq}

-- The text without the prefix, if it begins with it.
unfoldable pub strip_prefix : String → String → Option String
strip_prefix s String.[] = some s
strip_prefix String.[] (String.◌∷◌ c p) = none
strip_prefix (String.◌∷◌ d s) (String.◌∷◌ c p) =
    if nat_beq (code d) (code c) then strip_prefix s p else none

is_some {ℓ} : {A : Type ℓ} → Option A → Bool
is_some none = false
is_some (some a) = true

unfoldable pub starts_with : String → String → Bool
unfolding strip_prefix is_some
starts_with s p = is_some (strip_prefix s p)

unfoldable pub contains_char : ℕ → String → Bool
contains_char c String.[] = false
contains_char c (String.◌∷◌ d s) = nat_beq (code d) c || contains_char c s

-- `s.contains(p)`
unfoldable pub contains : String → String → Bool
unfolding starts_with
contains String.[] p = starts_with String.[] p
contains (String.◌∷◌ c s) p = starts_with (String.◌∷◌ c s) p || contains s p

-- `s.ends_with(p)`
unfoldable pub ends_with : String → String → Bool
ends_with String.[] p = String.[] == p
ends_with (String.◌∷◌ c s) p = String.◌∷◌ c s == p || ends_with s p

-- `s.chars().all(test)`
unfoldable pub all_chars : (ℕ → Bool) → String → Bool
all_chars test String.[] = true
all_chars test (String.◌∷◌ c s) = test (code c) && all_chars test s

abbrev pub is_empty : String → Bool
is_empty String.[] = true
is_empty (String.◌∷◌ c s) = false

-- Puts a character on the first piece of a split.
abbrev pub onto : Char → List String → List String
onto c [] = String.◌∷◌ c String.[] ∷ []
onto c (p ∷ ps) = String.◌∷◌ c p ∷ ps

-- `s.split(sep)` for a set of separating characters.
unfoldable pub split : (ℕ → Bool) → String → List String
split sep String.[] = String.[] ∷ []
split sep (String.◌∷◌ c s) = if sep (code c) then String.[] ∷ split sep s else onto c (split sep s)

abbrev digit : ℕ → String
digit d =
    if nat_beq d 0
    then "0"
    else if nat_beq d 1
    then "1"
    else if nat_beq d 2
    then "2"
    else if nat_beq d 3
    then "3"
    else if nat_beq d 4
    then "4"
    else if nat_beq d 5
    then "5"
    else if nat_beq d 6
    then "6"
    else if nat_beq d 7
    then "7"
    else if nat_beq d 8
    then "8"
    else "9"

decimal : ℕ → ℕ → String
decimal zero n = ""
decimal (suc f) n =
    let rest = String.◌++◌ (decimal f (n / 10)) (digit (n % 10)) in
    if ltb n 10 then digit n else rest

-- The decimal form of a machine integer. Twenty digits are enough below 2 ^ 64.
unfoldable pub to_string : ℕ → String
unfolding decimal
to_string n = decimal 20 n

abbrev pub u64_max : ℕ
u64_max = 2 ^ 64 - 1

-- The digit loop of `str::parse::<u64>`: fails on another character and on overflow.
unfoldable pub parse_digits : ℕ → String → Option ℕ
parse_digits n String.[] = some n
parse_digits n (String.◌∷◌ c s) =
    let m = n * 10 + (code c - b'0') in
    let rest = parse_digits m s in
    if leb b'0' (code c) && leb (code c) b'9' && leb m u64_max then rest else none

-- After the first character: no digit at all is an error.
abbrev parse_nonempty : String → Option ℕ
parse_nonempty String.[] = none
parse_nonempty (String.◌∷◌ c s) = parse_digits 0 (String.◌∷◌ c s)

-- `str::parse::<u64>`: an optional `+`, then at least one decimal digit.
unfoldable pub parse_u64 : String → Option ℕ
unfolding parse_digits
parse_u64 String.[] = none
parse_u64 (String.◌∷◌ c s) =
    if nat_beq (code c) b'+' then parse_nonempty s else parse_digits 0 (String.◌∷◌ c s)

-- The number of characters of a text.
chars : String → ℕ
chars String.[] = 0
chars (String.◌∷◌ c s) = suc (chars s)

-- `str::replace`. The first argument counts the characters of a match that are still to be dropped.
replace_from : ℕ → String → String → String → String
replace_from skip pattern_text by String.[] = ""
replace_from (suc skip) pattern_text by (String.◌∷◌ c s) = replace_from skip pattern_text by s
replace_from zero pattern_text by (String.◌∷◌ c s) =
    let found = String.◌++◌ by (replace_from (chars pattern_text - 1) pattern_text by s) in
    let kept = String.◌∷◌ c (replace_from zero pattern_text by s) in
    if starts_with (String.◌∷◌ c s) pattern_text then found else kept

unfoldable pub replace : String → String → String → String
unfolding replace_from chars
replace pattern_text by s = replace_from 0 pattern_text by s

parse_tests :
    (parse_u64 "300" ≡ some 300)
    × (parse_u64 "+7" ≡ some 7)
    × (parse_u64 "" ≡ none)
    × (parse_u64 "+" ≡ none)
    × (parse_u64 "1x" ≡ none)
    × (parse_u64 "18446744073709551616" ≡ none)
    × (to_string 1048576 ≡ "1048576")
    × (split (λ c. nat_beq c b'/') "a//b" ≡ "a" ∷ "" ∷ "b" ∷ [])
    × (replace "{{w}}" "/r" "a{{w}}b{{{w}}" ≡ "a/rb{/r")
    × (contains "a{{0}}" "{{" ≡ true)
    × (ends_with "a.tmp" ".tmp" ≡ true)
    × (ends_with "a.tmp2" ".tmp" ≡ false)
unfolding parse_u64 to_string split contains replace ends_with
parse_tests = (refl, refl, refl, refl, refl, refl, refl, refl, refl, refl, refl, refl)
