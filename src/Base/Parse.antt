-- ===== src/Base/Parse.antt =====
-- What the standard library does with text: words apart by white space, std::stoul, find, and the
-- digits of operator<<.
use Prim.Native.Nat.{ℕ, ◌+◌, ◌-◌, ◌*◌, ◌%◌, ◌^◌}
use mathlib.Core.Bool.{Bool, true, false, ◌&&◌, ◌||◌}
use mathlib.Core.List.{List, [], ◌∷◌, ◌++◌}
use mathlib.Core.Option.{Option, none, some}
use lin_stat.Base.Tests.{ltb, leb, ◌==◌, if◌then◌else◌}
use lin_stat.Base.Lists.{is_empty}
use lin_stat.Base.Text.{Bytes}

abbrev pub is_space : ℕ → Bool
is_space c = (c == 32) || (leb 9 c && leb c 13)

abbrev pub is_digit : ℕ → Bool
is_digit c = leb b'0' c && leb c b'9'

abbrev flush : Bytes → List Bytes → List Bytes
flush [] ws = ws
flush (c ∷ w) ws = (c ∷ w) ∷ ws

-- The maximal runs without white space; `w` is the run so far.
unfoldable pub words_from : Bytes → Bytes → List Bytes
words_from w [] = flush w []
words_from w (c ∷ s) = elim (is_space c) [
  | true ↦ flush w (words_from [] s)
  | false ↦ words_from (w ++ c ∷ []) s
]

unfoldable pub words : Bytes → List Bytes
unfolding words_from
words s = words_from [] s

-- The value of the digits at the front, and whether there is one.
abbrev number_from : ℕ → Bool → Bytes → Option ℕ
number_from acc any [] = if any then some acc else none
number_from acc any (c ∷ s) = elim (is_digit c) [
  | true ↦ number_from (acc * 10 + (c - b'0')) true s
  | false ↦ if any then some acc else none
]

abbrev in_range : Bool → Option ℕ → Option ℕ
in_range negative none = none
in_range negative (some n) =
    if ltb n (2 ^ 64) then some (if negative then (2 ^ 64 - n) % 2 ^ 64 else n) else none

-- std::stoul of 64 bits, base 10; `none` is the exception.
unfoldable pub stoul : Bytes → Option ℕ
stoul [] = none
stoul (c ∷ s) = elim (is_space c) [
  | true ↦ stoul s
  | false ↦
      if c == b'-'
      then in_range true (number_from 0 false s)
      else if c == b'+'
      then in_range false (number_from 0 false s)
      else in_range false (number_from 0 false (c ∷ s))
]

abbrev pub has_prefix : Bytes → Bytes → Bool
has_prefix [] s = true
has_prefix (p ∷ ps) [] = false
has_prefix (p ∷ ps) (c ∷ s) = (p == c) && has_prefix ps s

-- name.find(sub) != npos
abbrev pub contains : Bytes → Bytes → Bool
contains sub [] = is_empty sub
contains sub (c ∷ s) = has_prefix sub (c ∷ s) || contains sub s
