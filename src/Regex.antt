-- ===== src/Regex.antt =====
-- std::regex and std::regex_match, as the tables and the device support use them: ECMAScript
-- expressions with classes, groups and greedy repetition, matched by backtracking in the order of
-- preference.
pub mod Matches
pub mod Sound
pub mod Complete
pub mod Classes
mod Tests
use lin_stat.Base.{
  ℕ, zero, suc, ◌≡◌, Bool, true, false, not, ◌&&◌, ◌||◌, List, [], ◌∷◌, ◌++◌, Option, none, some,
  ◌==◌, leb, if◌then◌else◌, is_empty, length,
}
use lin_stat.Base.Text.{Bytes}
use lin_stat.Base.Parse.{is_space, is_digit}

pub data Regex : Type 0 where
  nothing : Regex
  one : (ℕ → Bool) → Regex  -- a byte of a class
  both : Regex → Regex → Regex
  either : Regex → Regex → Regex
  star : Regex → Regex
  group : ℕ → Regex → Regex  -- a numbered group

-- The numbered groups that took part, from the left, each with its text.
abbrev pub Captures : Type 0
Captures = List (ℕ × Bytes)

-- A way to match: what the groups hold, what was eaten, and what is left.
pub record Way : Type 0 where
  pub caps : Captures
  pub eaten : Bytes
  pub rest : Bytes

abbrev pub way : Captures → Bytes → Bytes → Way
way caps eaten rest = record { caps = caps; eaten = eaten; rest = rest }

-- The second way goes on where the first ends.
abbrev pub join : Way → Way → Way
join a b = way (a.caps ++ b.caps) (a.eaten ++ b.eaten) b.rest

abbrev pub joins : Way → List Way → List Way
joins w [] = []
joins w (v ∷ vs) = join w v ∷ joins w vs

-- Each way of the list goes on by `go`, and the ways keep their order.
unfoldable pub onward : (Bytes → List Way) → List Way → List Way
onward go [] = []
onward go (w ∷ ws) = joins w (go w.rest) ++ onward go ws

-- Ways that ate something: an iteration of a star that ate nothing is given up.
abbrev pub progress : List Way → List Way
progress [] = []
progress (w ∷ ws) = if is_empty w.eaten then progress ws else w ∷ progress ws

-- A star prefers one more iteration to the end; `fuel` bounds the iterations.
unfoldable pub repeat : (Bytes → List Way) → ℕ → Bytes → List Way
unfolding onward
repeat go zero s = way [] [] s ∷ []
repeat go (suc fuel) s = onward (repeat go fuel) (progress (go s)) ++ way [] [] s ∷ []

abbrev pub named : ℕ → List Way → List Way
named n [] = []
named n (w ∷ ws) = way ((n, w.eaten) ∷ w.caps) w.eaten w.rest ∷ named n ws

abbrev pub eat : (ℕ → Bool) → Bytes → List Way
eat p [] = []
eat p (c ∷ s) = if p c then way [] (c ∷ []) s ∷ [] else []

-- All the ways to match a prefix, in the order of preference. An iteration of a star eats a byte at
-- least, so the length of the text is fuel enough.
unfoldable pub ways : Regex → Bytes → List Way
unfolding onward repeat
ways nothing s = way [] [] s ∷ []
ways (one p) s = eat p s
ways (both r q) s = onward (ways q) (ways r s)
ways (either r q) s = ways r s ++ ways q s
ways (star r) s = repeat (ways r) (length s) s
ways (group n r) s = named n (ways r s)

abbrev pub first_whole : List Way → Option Captures
first_whole [] = none
first_whole (w ∷ ws) = if is_empty w.rest then some w.caps else first_whole ws

-- std::regex_match(s, M, expr)
unfoldable pub regex_match : Regex → Bytes → Option Captures
unfolding ways
regex_match r s = first_whole (ways r s)

-- M[n].str(): empty if the group did not take part; M[n].matched.
abbrev pub capture : ℕ → Captures → Bytes
capture n [] = []
capture n ((m, s) ∷ caps) = if m == n then s else capture n caps

abbrev pub matched : ℕ → Captures → Bool
matched n [] = false
matched n ((m, s) ∷ caps) = (m == n) || matched n caps

abbrev pub plus : Regex → Regex
plus r = both r (star r)

abbrev pub optional : Regex → Regex
optional r = either r nothing

abbrev pub byte : ℕ → Regex
byte c = one (λ d. d == c)

abbrev pub is_alpha : ℕ → Bool
is_alpha c = (leb b'a' c && leb c b'z') || (leb b'A' c && leb c b'Z')

-- "." leaves out the ends of lines.
abbrev pub is_dot : ℕ → Bool
is_dot c = not ((c == 10) || (c == 13))

abbrev pub space : Regex
space = one is_space

abbrev pub digit : Regex
digit = one is_digit

abbrev pub dot : Regex
dot = one is_dot
