-- ===== src/Base/Number.antt =====
-- std::stol of 64 bits in a given base, and strtok_r with blanks.
use Prim.Native.Nat.{ℕ, ◌+◌, ◌-◌, ◌*◌, ◌^◌}
use mathlib.Core.Bool.{Bool, true, false, ◌&&◌, ◌||◌}
use mathlib.Core.List.{List, [], ◌∷◌, ◌++◌}
use mathlib.Core.Option.{Option, none, some}
use lin_stat.Base.Tests.{ltb, leb, ◌==◌, if◌then◌else◌}
use lin_stat.Base.Text.{Bytes}
use lin_stat.Base.Int.{ℤ, pos, negsuc}
use lin_stat.Base.Parse.{is_space, is_digit}

abbrev pub digit_value : ℕ → Option ℕ
digit_value c =
    if is_digit c
    then some (c - b'0')
    else if leb b'a' c && leb c b'z'
    then some (c - b'a' + 10)
    else if leb b'A' c && leb c b'Z'
    then some (c - b'A' + 10)
    else none

-- The value of a byte as a digit of the base.
abbrev pub digit_in : ℕ → ℕ → Option ℕ
digit_in base c = elim (digit_value c) [
  | none ↦ none
  | some d ↦ if ltb d base then some d else none
]

-- The value of the digits at the front, and whether there is one.
abbrev pub number_in : ℕ → ℕ → Bool → Bytes → Option ℕ
number_in base acc any [] = if any then some acc else none
number_in base acc any (c ∷ s) = elim (digit_in base c) [
  | some d ↦ number_in base (acc * base + d) true s
  | none ↦ if any then some acc else none
]

abbrev is_some : Option ℕ → Bool
is_some none = false
is_some (some d) = true

-- Whether "0x" and a hexadecimal digit stand at the front.
abbrev hex_front : Bytes → Bool
hex_front (a ∷ b ∷ c ∷ s) = (a == b'0') && ((b == b'x') || (b == b'X')) && is_some (digit_in 16 c)
hex_front _ = false

abbrev skip_two : Bytes → Bytes
skip_two (a ∷ b ∷ s) = s
skip_two _ = []

abbrev zero_front : Bytes → Bool
zero_front [] = false
zero_front (c ∷ s) = c == b'0'

-- The digits behind the sign; base 0 takes it from the text.
abbrev magnitude : ℕ → Bytes → Option ℕ
magnitude base s =
    if ((base == 0) || (base == 16)) && hex_front s
    then number_in 16 0 false (skip_two s)
    else if base == 0
    then number_in (if zero_front s then 8 else 10) 0 false s
    else number_in base 0 false s

abbrev signed : Bool → Option ℕ → Option ℤ
signed negative none = none
signed false (some n) = if ltb n (2 ^ 63) then some (pos n) else none
signed true (some n) =
    if n == 0 then some (pos 0) else if leb n (2 ^ 63) then some (negsuc (n - 1)) else none

-- std::stol(s, nullptr, base); `none` is the exception.
unfoldable pub stol : ℕ → Bytes → Option ℤ
stol base [] = none
stol base (c ∷ s) = elim (is_space c) [
  | true ↦ stol base s
  | false ↦
      if c == b'-'
      then signed true (magnitude base s)
      else if c == b'+'
      then signed false (magnitude base s)
      else signed false (magnitude base (c ∷ s))
]

abbrev flush : Bytes → List Bytes → List Bytes
flush [] ws = ws
flush (c ∷ w) ws = (c ∷ w) ∷ ws

-- The maximal runs without blanks; `w` is the run so far.
unfoldable pub tokens_from : Bytes → Bytes → List Bytes
tokens_from w [] = flush w []
tokens_from w (c ∷ s) = elim (c == 32) [
  | true ↦ flush w (tokens_from [] s)
  | false ↦ tokens_from (w ++ c ∷ []) s
]

unfoldable pub tokens : Bytes → List Bytes
unfolding tokens_from
tokens s = tokens_from [] s
