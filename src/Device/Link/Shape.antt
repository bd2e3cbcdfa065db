-- ===== src/Device/Link/Shape.antt =====
-- statApp/src/devstat.cpp: which links a record accepts, and what it reads from them.
use lin_stat.Base.{
  ℕ, ◌≡◌, refl, sym, ap, ◌∙◌, subst, ◌↔◌, true, false, [], ◌∷◌, ◌++◌, Option, none, some, is_empty,
  arith, ◌==◌, ==_iff,
}
use mathlib.Core.Option.{some-injective}
use lin_stat.Base.Text.{Bytes}
use lin_stat.Base.Parse.{is_space}
use lin_stat.Regex.{star, is_alpha, is_dot, regex_match, Captures}
use lin_stat.Regex.Matches.{
  Match, match_nothing, match_one, match_both, match_left, match_right, match_stop, match_more,
  match_group,
}
use lin_stat.Regex.Sound.{regex_match_sound}
use lin_stat.Regex.Complete.{regex_match_complete}
use lin_stat.Regex.Classes.{
  AllOf, Stops, star-AllOf, AllOf-star, plus-AllOf, AllOf-plus, AllOf-unique,
}
use lin_stat.Device.Link.{
  is_plain, is_param, inst_char, link_tail, link_expr, groups_of, parse_link,
}

-- A text in which each "|" stands behind a backslash, and each backslash before a byte that ends no
-- line.
pub data Escaped : Bytes → Type 0 where
  escaped_end : Escaped []
  escaped_plain : {c : ℕ} {s : Bytes} → is_plain c ≡ true → Escaped s → Escaped (c ∷ s)
  escaped_pair : {b c : ℕ} {s : Bytes} → b ≡ 92 → is_dot c ≡ true → Escaped s → Escaped (b ∷ c ∷ s)

-- Nothing, or white space and the rest of one line.
abbrev pub IsTail : Bytes → Type 0
IsTail [] = Unit {0}
IsTail (c ∷ t) = (is_space c ≡ true) × AllOf is_dot t

-- A name of letters.
abbrev pub IsFactory : Bytes → Type 0
IsFactory f = AllOf is_alpha f × (is_empty f ≡ false)

abbrev pub IsParam : Bytes → Type 0
IsParam p = AllOf is_param p × (is_empty p ≡ false)

abbrev pub link_text : Bytes → Bytes → Bytes → Bytes → Bytes
link_text f i p t = f ++ b'|' ∷ (i ++ b'|' ∷ (p ++ t))

pub record IsLink (s f i p : Bytes) : Type 0 where
  pub tail : Bytes
  pub text : s ≡ link_text f i p tail
  pub factory : IsFactory f
  pub inst : Escaped i
  pub param : IsParam p
  pub ends : IsTail tail

Escaped-Match : (s : Bytes) (e : Escaped s) → Match (star inst_char) s []
Escaped-Match s escaped_end = match_stop
Escaped-Match s (escaped_plain h e) =
    match_more (match_left (match_one h)) refl (Escaped-Match _ e) refl refl
Escaped-Match s (escaped_pair b h e) =
    match_more (match_right (match_both (match_one (rw b refl)) (match_one h) refl refl)) refl
      (Escaped-Match _ e) refl refl

Match-Escaped : (s : Bytes) (a : Captures) (m : Match (star inst_char) s a) → Escaped s × (a ≡ [])
Match-Escaped s a match_stop = (escaped_end, refl)
Match-Escaped s a (match_more (match_left (match_one h)) n m e f) =
    let (rest, nil) = Match-Escaped _ _ m in rw (e, f, nil) (escaped_plain h rest, refl)
Match-Escaped s a
      (match_more (match_right (match_both (match_one b) (match_one h) e' f')) n m e f) =
    let (rest, nil) = Match-Escaped _ _ m in
    rw (e, f, e', f', nil) (escaped_pair (ground arith) h rest, refl)

Tail-Match : (t : Bytes) → IsTail t → Match link_tail t []
Tail-Match [] h = match_right match_nothing
Tail-Match (c ∷ t) h = match_left (match_both (match_one h.0) (AllOf-star is_dot t h.1) refl refl)

Match-Tail : (t : Bytes) (a : Captures) (m : Match link_tail t a) → IsTail t × (a ≡ [])
Match-Tail t a (match_left (match_both (match_one h) m e f)) =
    let (all, nil) = star-AllOf is_dot _ _ m in rw (e, f, nil) ((h, all), refl)
Match-Tail t a (match_right match_nothing) = (tt, refl)

abbrev captures : Bytes → Bytes → Bytes → Captures
captures f i p = (1, f) ∷ (2, i) ∷ (3, p) ∷ []

IsLink-Match : (s f i p : Bytes) → IsLink s f i p → Match link_expr s (captures f i p)
IsLink-Match s f i p l = rw (l.text) (
    match_both (match_group (AllOf-plus is_alpha f l.factory.0 l.factory.1) refl)
      (match_both (match_one refl)
        (match_both (match_group (Escaped-Match i l.inst) refl)
          (match_both (match_one refl)
            (match_both (match_group (AllOf-plus is_param p l.param.0 l.param.1) refl)
              (Tail-Match l.tail l.ends) refl refl)
            refl refl)
          refl refl)
        refl refl)
      refl refl)

link_parts :
    (f i p v : Bytes) {s t t' u t'' : Bytes} {c d : ℕ}
    → s ≡ f ++ t
    → t ≡ c ∷ t'
    → (c == b'|') ≡ true
    → t' ≡ i ++ u
    → u ≡ d ∷ t''
    → (d == b'|') ≡ true
    → t'' ≡ p ++ v
    → s ≡ link_text f i p v
link_parts f i p v {c = c} {d = d} e e1 h e2 e3 k e4 =
    rw (e, e1, e2, e3, e4, (==_iff c b'|').0 h, (==_iff d b'|').0 k) refl

Match-IsLink :
    (s : Bytes) (a : Captures) (m : Match link_expr s a)
    → (f : Bytes) × (i : Bytes) × (p : Bytes) × (a ≡ captures f i p) × IsLink s f i p
Match-IsLink s a
      (match_both
        (match_group {s = f} mf df)
        (match_both
          (match_one c)
          (match_both
            (match_group {s = i} mi di)
            (match_both (match_one d) (match_both (match_group {s = p} mp dp) mt e1 f1) e2 f2)
            e3
            f3)
          e4
          f4)
        e5
        f5) =
    let (alpha, ne, nf) = plus-AllOf is_alpha _ _ mf in
    let (esc, ni) = Match-Escaped _ _ mi in
    let (par, ne', np) = plus-AllOf is_param _ _ mp in
    let (tl, nt) = Match-Tail _ _ mt in
    (
      f,
      i,
      p,
      cc,
      record {
        tail = _;
        text = link_parts f i p _ e5 e4 c e3 e2 d e1;
        factory = (alpha, ne);
        inst = esc;
        param = (par, ne');
        ends = tl;
      },
    )

Escaped-unique :
    (i i' t t' : Bytes) (e : Escaped i) (e' : Escaped i')
    → i ++ b'|' ∷ t ≡ i' ++ b'|' ∷ t'
    → (i ≡ i') × (t ≡ t')
Escaped-unique i i' t t' escaped_end escaped_end h = (refl, cc)
Escaped-unique i i' t t' escaped_end (escaped_plain {c} p e') h = absurd (ground arith)
Escaped-unique i i' t t' escaped_end (escaped_pair b p e') h = absurd (ground arith)
Escaped-unique i i' t t' (escaped_plain {c} p e) escaped_end h = absurd (ground arith)
Escaped-unique i i' t t' (escaped_plain p e) (escaped_plain p' e') h =
    let (same, rest) = Escaped-unique _ _ t t' e e' (cc) in (cc, rest)
Escaped-unique i i' t t' (escaped_plain p e) (escaped_pair b p' e') h = absurd (ground arith)
Escaped-unique i i' t t' (escaped_pair b p e) escaped_end h = absurd (ground arith)
Escaped-unique i i' t t' (escaped_pair b p e) (escaped_plain p' e') h = absurd (ground arith)
Escaped-unique i i' t t' (escaped_pair b p e) (escaped_pair b' p' e') h =
    let (same, rest) = Escaped-unique _ _ t t' e e' (cc) in (cc, rest)

Tail-Stops : (t : Bytes) → IsTail t → Stops is_param t
Tail-Stops [] h = tt
Tail-Stops (c ∷ t) h = ground arith

IsLink-unique :
    (s f i p f' i' p' : Bytes) → IsLink s f i p → IsLink s f' i' p' → (f ≡ f') × (i ≡ i') × (p ≡ p')
IsLink-unique s f i p f' i' p' l l' =
    let (same_f, e) =
      AllOf-unique is_alpha f f' _ _ l.factory.0 l'.factory.0 refl refl (sym l.text ∙ l'.text) in
    let (same_i, e') = Escaped-unique i i' _ _ l.inst l'.inst (cc) in
    let (same_p, e'') =
      AllOf-unique is_param p p' _ _ l.param.0 l'.param.0 (Tail-Stops l.tail l.ends)
        (Tail-Stops l'.tail l'.ends) e' in
    (same_f, same_i, same_p)

found_IsLink :
    (s f i p : Bytes) (o : Option Captures)
    → regex_match link_expr s ≡ o
    → groups_of o ≡ some (f, i, p)
    → IsLink s f i p
found_IsLink s f i p none e h = cc
found_IsLink s f i p (some a) e h =
    let (f', i', p', c, l) = Match-IsLink s a (regex_match_sound link_expr s a e) in
    let same : ◌≡◌ {A = Bytes × Bytes × Bytes} (f', i', p') (f, i, p) =
      some-injective (f', i', p') (f, i, p) (ap (λ x. groups_of (some x)) (sym c) ∙ h) in
    subst (λ (x : Bytes × Bytes × Bytes). IsLink s x.0 x.1 x.2) same l

-- A record reads the factory `f`, the instance `i` and the parameter `p` from its link exactly if
-- the link consists of `f`, `i` and `p` with bars between them, and of nothing else or a white
-- space and more of the line: `f` of letters, in `i` each bar behind a backslash and each backslash
-- before a byte of the line, and `p` of letters, digits, ":" and "_". No link reads in two ways.
pub parse_link_lem : (s f i p : Bytes) → (parse_link s ≡ some (f, i, p)) ↔ IsLink s f i p
unfolding parse_link
parse_link_lem s f i p = (found_IsLink s f i p (regex_match link_expr s) refl, λ l. reads l)
  where
    reads : IsLink s f i p → groups_of (regex_match link_expr s) ≡ some (f, i, p)
    reads l =
        let (a, e) = regex_match_complete link_expr s _ (IsLink-Match s f i p l) in
        let (f', i', p', c, l') = Match-IsLink s a (regex_match_sound link_expr s a e) in
        let (same_f, same_i, same_p) = IsLink-unique s f i p f' i' p' l l' in
        rw (e, c, same_f, same_i, same_p) refl
