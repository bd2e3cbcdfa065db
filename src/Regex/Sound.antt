-- ===== src/Regex/Sound.antt =====
-- Whatever the search of std::regex_match finds is a match.
use lin_stat.Base.{
  ℕ, zero, suc, ◌≡◌, refl, sym, ap, ◌∙◌, subst, inl, inr, Bool, true, false, List, [], ◌∷◌, ◌++◌,
  some, is_empty, length, append-nil, append_assoc, Bool-cases,
}
use mathlib.Core.Option.{some-injective}
use lin_stat.Base.Text.{Bytes}
use lin_stat.Regex.{
  Regex, nothing, one, both, either, star, group, Captures, Way, join, joins, onward, progress,
  repeat, named, eat, ways, first_whole, regex_match,
}
use lin_stat.Regex.Matches.{
  Match, match_nothing, match_one, match_both, match_left, match_right, match_stop, match_more,
  match_group,
}

abbrev pub All : (Way → Type 0) → List Way → Type 0
All P [] = Unit {0}
All P (w ∷ ws) = P w × All P ws

All-append : (P : Way → Type 0) (ws vs : List Way) → All P ws → All P vs → All P (ws ++ vs)
All-append P [] vs h k = k
All-append P (w ∷ ws) vs h k = (h.0, All-append P ws vs h.1 k)

All-joins :
    (P Q : Way → Type 0) (w : Way) (vs : List Way)
    → ((v : Way) → P v → Q (join w v))
    → All P vs
    → All Q (joins w vs)
All-joins P Q w [] f h = tt
All-joins P Q w (v ∷ vs) f h = (f v h.0, All-joins P Q w vs f h.1)

All-onward :
    (P Q : Way → Type 0) (go : Bytes → List Way) (ws : List Way)
    → ((w : Way) → P w → All Q (joins w (go w.rest)))
    → All P ws
    → All Q (onward go ws)
unfolding onward
All-onward P Q go [] f h = tt
All-onward P Q go (w ∷ ws) f h =
    All-append Q (joins w (go w.rest)) (onward go ws) (f w h.0) (All-onward P Q go ws f h.1)

-- The way leads from `s` over a match of the expression.
abbrev pub Good : Regex → Bytes → Way → Type 0
Good r s w = Match r w.eaten w.caps × (s ≡ w.eaten ++ w.rest)

split_again : (s a b c t : Bytes) → s ≡ a ++ t → t ≡ b ++ c → s ≡ (a ++ b) ++ c
split_again s a b c t e f = e ∙ ap (λ x. a ++ x) f ∙ sym (append_assoc a b c)

All-progress :
    (P : Way → Type 0) (ws : List Way)
    → All P ws
    → All (λ w. P w × (is_empty w.eaten ≡ false)) (progress ws)
All-progress P [] h = tt
All-progress P (w ∷ ws) h = elim (Bool-cases (is_empty w.eaten)) [
  | inl e ↦ rw e (All-progress P ws h.1)
  | inr e ↦ rw e ((h.0, e), All-progress P ws h.1)
]

All-eat : (p : ℕ → Bool) (s : Bytes) → All (Good (one p) s) (eat p s)
All-eat p [] = tt
All-eat p (c ∷ s) = elim (Bool-cases (p c)) [
  | inl e ↦ rw e ((match_one e, refl), tt)
  | inr e ↦ rw e tt
]

All-named :
    (r : Regex) (n : ℕ) (s : Bytes) (ws : List Way)
    → All (Good r s) ws
    → All (Good (group n r) s) (named n ws)
All-named r n s [] h = tt
All-named r n s (w ∷ ws) h = ((match_group h.0.0 refl, h.0.1), All-named r n s ws h.1)

All-repeat :
    (r : Regex) (fuel : ℕ) (s : Bytes)
    → ((t : Bytes) → All (Good r t) (ways r t))
    → All (Good (star r) s) (repeat (ways r) fuel s)
unfolding repeat
All-repeat r zero s f = ((match_stop, refl), tt)
All-repeat r (suc fuel) s f =
    All-append _ _ _
      (All-onward (λ w. Good r s w × (is_empty w.eaten ≡ false)) (Good (star r) s)
        (repeat (ways r) fuel) (progress (ways r s))
        (λ w g.
          All-joins (Good (star r) w.rest) (Good (star r) s) w (repeat (ways r) fuel w.rest)
            (λ v h. (
              match_more g.0.0 g.1 h.0 refl refl,
              split_again s w.eaten v.eaten v.rest w.rest g.0.1 h.1,
            ))
            (All-repeat r fuel w.rest f))
        (All-progress (Good r s) (ways r s) (f s)))
      ((match_stop, refl), tt)

pub ways_sound : (r : Regex) (s : Bytes) → All (Good r s) (ways r s)
unfolding ways
ways_sound nothing s = ((match_nothing, refl), tt)
ways_sound (one p) s = All-eat p s
ways_sound (both r q) s =
    All-onward (Good r s) (Good (both r q) s) (ways q) (ways r s)
      (λ w g.
        All-joins (Good q w.rest) (Good (both r q) s) w (ways q w.rest)
          (λ v h.
            (match_both g.0 h.0 refl refl, split_again s w.eaten v.eaten v.rest w.rest g.1 h.1))
          (ways_sound q w.rest))
      (ways_sound r s)
ways_sound (either r q) s =
    All-append _ _ _ (lefts (ways r s) (ways_sound r s)) (rights (ways q s) (ways_sound q s))
  where
    lefts : (ws : List Way) → All (Good r s) ws → All (Good (either r q) s) ws
    lefts [] h = tt
    lefts (w ∷ ws) h = ((match_left h.0.0, h.0.1), lefts ws h.1)

    rights : (ws : List Way) → All (Good q s) ws → All (Good (either r q) s) ws
    rights [] h = tt
    rights (w ∷ ws) h = ((match_right h.0.0, h.0.1), rights ws h.1)
ways_sound (star r) s = All-repeat r (length s) s (ways_sound r)
ways_sound (group n r) s = All-named r n s (ways r s) (ways_sound r s)

nil_of_is_empty : (s : Bytes) → is_empty s ≡ true → s ≡ []
nil_of_is_empty [] e = refl
nil_of_is_empty (c ∷ s) e = cc

first_sound :
    (r : Regex) (s : Bytes) (ws : List Way) (a : Captures)
    → All (Good r s) ws
    → first_whole ws ≡ some a
    → Match r s a
first_sound r s [] a h e = cc
first_sound r s (w ∷ ws) a h e = elim (Bool-cases (is_empty w.rest)) [
  | inl b ↦
      let whole : s ≡ w.eaten =
        h.0.1 ∙ ap (λ t. w.eaten ++ t) (nil_of_is_empty w.rest b) ∙ append-nil w.eaten in
      let caps : w.caps ≡ a = some-injective w.caps a (rw b at e) in
      subst (λ c. Match r s c) caps (subst (λ t. Match r t w.caps) (sym whole) h.0.0)
  | inr b ↦ first_sound r s ws a h.1 (rw b at e)
]

-- If the search succeeds, the whole text matches, with the groups that it returns.
pub regex_match_sound :
    (r : Regex) (s : Bytes) (a : Captures) → regex_match r s ≡ some a → Match r s a
unfolding regex_match
regex_match_sound r s a e = first_sound r s (ways r s) a (ways_sound r s) e
