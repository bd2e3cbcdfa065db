-- ===== src/Regex/Classes.antt =====
-- What a repeated class of bytes matches, and where it ends.
use lin_stat.Base.{ℕ, ◌≡◌, refl, Bool, true, false, [], ◌∷◌, ◌++◌, is_empty}
use lin_stat.Base.Text.{Bytes}
use lin_stat.Regex.{one, star, plus, Captures}
use lin_stat.Regex.Matches.{Match, match_one, match_both, match_stop, match_more}

abbrev pub AllOf : (ℕ → Bool) → Bytes → Type 0
AllOf p [] = Unit {0}
AllOf p (c ∷ s) = (p c ≡ true) × AllOf p s

-- The class does not go on.
abbrev pub Stops : (ℕ → Bool) → Bytes → Type 0
Stops p [] = Unit {0}
Stops p (c ∷ s) = p c ≡ false

pub star-AllOf :
    (p : ℕ → Bool) (s : Bytes) (a : Captures) (m : Match (star (one p)) s a) → AllOf p s × (a ≡ [])
star-AllOf p s a match_stop = (tt, refl)
star-AllOf p s a (match_more (match_one {c = c} h) n m e f) =
    let (all, nil) = star-AllOf p _ _ m in rw (e, f, nil) ((h, all), refl)

pub AllOf-star : (p : ℕ → Bool) (s : Bytes) → AllOf p s → Match (star (one p)) s []
AllOf-star p [] h = match_stop
AllOf-star p (c ∷ s) h = match_more (match_one h.0) refl (AllOf-star p s h.1) refl refl

pub plus-AllOf :
    (p : ℕ → Bool) (s : Bytes) (a : Captures) (m : Match (plus (one p)) s a)
    → AllOf p s × (is_empty s ≡ false) × (a ≡ [])
plus-AllOf p s a (match_both (match_one {c = c} h) m e f) =
    let (all, nil) = star-AllOf p _ _ m in rw (e, f, nil) ((h, all), refl, refl)

pub AllOf-plus :
    (p : ℕ → Bool) (s : Bytes) → AllOf p s → is_empty s ≡ false → Match (plus (one p)) s []
AllOf-plus p [] h n = cc
AllOf-plus p (c ∷ s) h n = match_both (match_one h.0) (AllOf-star p s h.1) refl refl

-- The text before the place where a class stops is determined by the whole.
pub AllOf-unique :
    (p : ℕ → Bool) (s s' t t' : Bytes)
    → AllOf p s
    → AllOf p s'
    → Stops p t
    → Stops p t'
    → s ++ t ≡ s' ++ t'
    → (s ≡ s') × (t ≡ t')
AllOf-unique p [] [] t t' h h' k k' e = (refl, e)
AllOf-unique p [] (d ∷ s') [] t' h h' k k' e = cc
AllOf-unique p [] (d ∷ s') (c ∷ t) t' h h' k k' e = cc (h'.0, k)
AllOf-unique p (c ∷ s) [] t [] h h' k k' e = cc
AllOf-unique p (c ∷ s) [] t (d ∷ t') h h' k k' e = cc (h.0, k')
AllOf-unique p (c ∷ s) (d ∷ s') t t' h h' k k' e =
    let (same, rest) = AllOf-unique p s s' t t' h.1 h'.1 k k' (cc) in (cc, rest)
