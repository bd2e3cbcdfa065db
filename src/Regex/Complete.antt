-- ===== src/Regex/Complete.antt =====
-- The search of std::regex_match finds a match if there is one: the fuel of a star is enough.
use lin_stat.Base.{
  ℕ, zero, suc, ◌≤◌, ◌≡◌, refl, sym, ap, ◌∙◌, subst, ◌⊎◌, inl, inr, true, false, List, [], ◌∷◌,
  ◌++◌, some, arith, is_empty, length, length-append, append-nil, append_assoc, Bool-cases,
}
use lin_stat.Base.Text.{Bytes}
use lin_stat.Regex.{
  Regex, nothing, one, both, either, star, group, Captures, Way, way, join, joins, onward, progress,
  repeat, named, ways, first_whole, regex_match,
}
use lin_stat.Regex.Matches.{
  Match, match_nothing, match_one, match_both, match_left, match_right, match_stop, match_more,
  match_group,
}

abbrev Among : Way → List Way → Type 0
Among w [] = ⊥
Among w (v ∷ vs) = (w ≡ v) ⊎ Among w vs

Among-left : (w : Way) (ws vs : List Way) → Among w ws → Among w (ws ++ vs)
Among-left w [] vs h = elim h [ ]
Among-left w (v ∷ ws) vs (inl e) = inl e
Among-left w (v ∷ ws) vs (inr h) = inr (Among-left w ws vs h)

Among-right : (w : Way) (ws vs : List Way) → Among w vs → Among w (ws ++ vs)
Among-right w [] vs h = h
Among-right w (v ∷ ws) vs h = inr (Among-right w ws vs h)

Among-joins : (w v : Way) (vs : List Way) → Among v vs → Among (join w v) (joins w vs)
Among-joins w v [] h = elim h [ ]
Among-joins w v (u ∷ vs) (inl e) = inl (ap (join w) e)
Among-joins w v (u ∷ vs) (inr h) = inr (Among-joins w v vs h)

Among-onward :
    (w v : Way) (go : Bytes → List Way) (ws : List Way)
    → Among w ws
    → Among v (go w.rest)
    → Among (join w v) (onward go ws)
unfolding onward
Among-onward w v go [] k h = elim k [ ]
Among-onward w v go (u ∷ ws) (inl e) h =
    Among-left _ (joins u (go u.rest)) _ (
      subst (λ (x : Way). Among (join w v) (joins x (go x.rest))) e (Among-joins w v (go w.rest) h))
Among-onward w v go (u ∷ ws) (inr k) h =
    Among-right _ (joins u (go u.rest)) _ (Among-onward w v go ws k h)

Among-progress :
    (w : Way) (ws : List Way) → is_empty w.eaten ≡ false → Among w ws → Among w (progress ws)
Among-progress w [] n h = elim h [ ]
Among-progress w (u ∷ ws) n (inl e) =
    let m : is_empty u.eaten ≡ false = ap (λ (x : Way). is_empty x.eaten) (sym e) ∙ n in
    rw m (inl e)
Among-progress w (u ∷ ws) n (inr h) = elim (Bool-cases (is_empty u.eaten)) [
  | inl b ↦ rw b (Among-progress w ws n h)
  | inr b ↦ rw b (inr (Among-progress w ws n h))
]

Among-named :
    (n : ℕ) (w : Way) (ws : List Way)
    → Among w ws
    → Among (way ((n, w.eaten) ∷ w.caps) w.eaten w.rest) (named n ws)
Among-named n w [] h = elim h [ ]
Among-named n w (u ∷ ws) (inl e) =
    inl (ap (λ (x : Way). way ((n, x.eaten) ∷ x.caps) x.eaten x.rest) e)
Among-named n w (u ∷ ws) (inr h) = inr (Among-named n w ws h)

-- Texts and groups that are equal to those of a join.
Among-at :
    (a b d : Captures) (s t u rest : Bytes) (ws : Bytes → List Way)
    → u ≡ s ++ t
    → d ≡ a ++ b
    → Among (way (a ++ b) (s ++ t) rest) (ws (s ++ (t ++ rest)))
    → Among (way d u rest) (ws (u ++ rest))
Among-at a b d s t u rest ws e f h = rw (e, f, append_assoc s t rest) h

Among-more :
    (go : Bytes → List Way) (fuel : ℕ) (a b : Captures) (s t rest : Bytes)
    → is_empty s ≡ false
    → Among (way a s (t ++ rest)) (go (s ++ (t ++ rest)))
    → Among (way b t rest) (repeat go fuel (t ++ rest))
    → Among (way (a ++ b) (s ++ t) rest) (repeat go (suc fuel) (s ++ (t ++ rest)))
unfolding repeat
Among-more go fuel a b s t rest n h k = Among-left _ _ _ (
    Among-onward (way a s (t ++ rest)) (way b t rest) (repeat go fuel) _ (Among-progress _ _ n h) k)

Among-stop :
    (go : Bytes → List Way) (fuel : ℕ) (rest : Bytes) → Among (way [] [] rest) (repeat go fuel rest)
unfolding repeat
Among-stop go zero rest = inl refl
Among-stop go (suc fuel) rest =
    Among-right _ (onward (repeat go fuel) (progress (go rest))) _ (inl refl)

length_pos :
    (s t : Bytes) (fuel : ℕ)
    → is_empty s ≡ false
    → length (s ++ t) ≤ fuel
    → (k : ℕ) × (fuel ≡ suc k) × (length t ≤ k)
length_pos (c ∷ s) t (suc k) n h = (k, refl, omega (arith, length-append s t))
length_pos (c ∷ s) t zero n h = absurd (omega arith)
length_pos [] t fuel n h = cc

mutual
  unfolding ways

  ways_complete :
      (r : Regex) (t : Bytes) (a : Captures) (rest : Bytes) (m : Match r t a)
      → Among (way a t rest) (ways r (t ++ rest))
  ways_complete nothing t a rest match_nothing = inl refl
  ways_complete (one p) t a rest (match_one e) = rw e (inl refl)
  ways_complete (both r q) u d rest (match_both {s = s} {t = t} {a = a} {b = b} m n e f) =
      Among-at a b d s t u rest (ways (both r q)) e f (
        Among-onward (way a s (t ++ rest)) (way b t rest) (ways q) (ways r (s ++ (t ++ rest)))
          (ways_complete r s a (t ++ rest) m) (ways_complete q t b rest n))
  ways_complete (either r q) s a rest (match_left m) =
      Among-left _ (ways r (s ++ rest)) _ (ways_complete r s a rest m)
  ways_complete (either r q) s a rest (match_right m) =
      Among-right _ (ways r (s ++ rest)) _ (ways_complete q s a rest m)
  ways_complete (star r) u d rest match_stop = Among-stop (ways r) _ rest
  ways_complete (star r) u d rest (match_more {s = s} {t = t} {a = a} {b = b} m n ms e f) =
      let (k, l, h) = length_pos s (t ++ rest) (length (s ++ (t ++ rest))) n (omega arith) in
      Among-at a b d s t u rest (ways (star r)) e f (
        rw l (
          Among-more (ways r) k a b s t rest n (ways_complete r s a (t ++ rest) m)
            (repeat_complete r k t b rest ms h)))
  ways_complete (group n r) s d rest (match_group {a = a} m e) =
      rw e (Among-named n (way a s rest) _ (ways_complete r s a rest m))

  repeat_complete :
      (r : Regex) (fuel : ℕ) (t : Bytes) (a : Captures) (rest : Bytes) (m : Match (star r) t a)
      → length (t ++ rest) ≤ fuel
      → Among (way a t rest) (repeat (ways r) fuel (t ++ rest))
  repeat_complete r fuel t a rest match_stop h = Among-stop (ways r) fuel rest
  repeat_complete r fuel u d rest (match_more {s = s} {t = t} {a = a} {b = b} m n ms e f) h =
      let e' : u ++ rest ≡ s ++ (t ++ rest) = ap (λ x. x ++ rest) e ∙ append_assoc s t rest in
      let (k, l, h') = length_pos s (t ++ rest) fuel n (omega (arith, ap length e')) in
      Among-at a b d s t u rest (repeat (ways r) fuel) e f (
        rw l (
          Among-more (ways r) k a b s t rest n (ways_complete r s a (t ++ rest) m)
            (repeat_complete r k t b rest ms h')))

first_complete :
    (a : Captures) (t : Bytes) (ws : List Way)
    → Among (way a t []) ws
    → (b : Captures) × (first_whole ws ≡ some b)
first_complete a t [] h = elim h [ ]
first_complete a t (w ∷ ws) (inl e) =
    let n : is_empty w.rest ≡ true = ap (λ (x : Way). is_empty x.rest) (sym e) in
    (w.caps, rw n refl)
first_complete a t (w ∷ ws) (inr h) = elim (Bool-cases (is_empty w.rest)) [
  | inl b ↦ (w.caps, rw b refl)
  | inr b ↦ rw b (first_complete a t ws h)
]

-- If the whole text matches, the search succeeds.
pub regex_match_complete :
    (r : Regex) (s : Bytes) (a : Captures) (m : Match r s a)
    → (b : Captures) × (regex_match r s ≡ some b)
unfolding regex_match
regex_match_complete r s a m =
    first_complete a s (ways r s)
      (subst (λ t. Among (way a s []) (ways r t)) (append-nil s) (ways_complete r s a [] m))
