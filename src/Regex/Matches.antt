-- ===== src/Regex/Matches.antt =====
-- What it means for a text to match an expression, without regard to the order of the search.
use lin_stat.Base.{ℕ, ◌≡◌, Bool, true, false, [], ◌∷◌, ◌++◌, is_empty}
use lin_stat.Base.Text.{Bytes}
use lin_stat.Regex.{Regex, nothing, one, both, either, star, group, Captures}

-- The whole text `s` matches, and the groups hold `a`.
pub data Match : Regex → Bytes → Captures → Type 0 where
  match_nothing : Match nothing [] []
  match_one : {p : ℕ → Bool} {c : ℕ} → p c ≡ true → Match (one p) (c ∷ []) []
  match_both :
      {r q : Regex} {s t u : Bytes} {a b d : Captures}
      → Match r s a
      → Match q t b
      → u ≡ s ++ t
      → d ≡ a ++ b
      → Match (both r q) u d
  match_left : {r q : Regex} {s : Bytes} {a : Captures} → Match r s a → Match (either r q) s a
  match_right : {r q : Regex} {s : Bytes} {a : Captures} → Match q s a → Match (either r q) s a
  match_stop : {r : Regex} → Match (star r) [] []
  match_more :
      {r : Regex} {s t u : Bytes} {a b d : Captures}
      → Match r s a
      → is_empty s ≡ false
      → Match (star r) t b
      → u ≡ s ++ t
      → d ≡ a ++ b
      → Match (star r) u d
  match_group :
      {r : Regex} {n : ℕ} {s : Bytes} {a d : Captures}
      → Match r s a
      → d ≡ (n, s) ∷ a
      → Match (group n r) s d
