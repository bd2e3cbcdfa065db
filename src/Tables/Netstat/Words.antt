-- ===== src/Tables/Netstat/Words.antt =====
-- statApp/src/tblNetstat.cpp: words and numbers read from a line.
use lin_stat.Base.{
  ℕ, ◌+◌, ◌-◌, ◌*◌, ◌<◌, ◌^◌, ◌≡◌, refl, ap, ◌∙◌, Bool, true, false, not, ◌||◌, List, [], ◌∷◌, ◌++◌,
  none, some, arith, is_empty, if◌then◌else◌,
}
use lin_stat.Base.Text.{Bytes}
use lin_stat.Base.Parse.{is_space, is_digit}
use lin_stat.Regex.Classes.{AllOf, Stops}
use lin_stat.TimeDelta.{show, number, show_lem}
use lin_stat.TimeDelta.Digits.{show-AllOf}
use lin_stat.Tables.Netstat.{
  Stream, opened, skip_space, span_word, word_at, read_word, span_number, number_at, number_from,
  read_number, minus_front, skip_sign,
}

abbrev is_visible : ℕ → Bool
is_visible c = not (is_space c)

-- A text with no white space, and not empty.
abbrev pub IsWord : Bytes → Type 0
IsWord w = AllOf is_visible w × (is_empty w ≡ false)

-- The columns of a table: labels, and numbers of 64 bits.
abbrev pub Columns : List (Bytes × ℕ) → Type 0
Columns [] = Unit {0}
Columns ((label, v) ∷ cs) = IsWord label × (v < 2 ^ 64) × Columns cs

abbrev pub labels : List (Bytes × ℕ) → Bytes
labels [] = []
labels ((label, v) ∷ cs) = 32 ∷ (label ++ labels cs)

abbrev pub values : List (Bytes × ℕ) → Bytes
values [] = []
values ((label, v) ∷ cs) = 32 ∷ (show v ++ values cs)

-- A stream between two words.
abbrev pub between : Bytes → Stream
between s = record { rest = s; at_eof = is_empty s; failed = false }

span_word_lem :
    (w t : Bytes) → AllOf is_visible w → Stops is_visible t → span_word (w ++ t) ≡ (w, t)
span_word_lem [] [] h k = refl
span_word_lem [] (c ∷ t) h k = ground arith
span_word_lem (c ∷ w) t h k = ground (arith, span_word_lem w t h.1 k)

span_number_lem :
    (acc : ℕ) (any : Bool) (s t : Bytes)
    → AllOf is_digit s
    → Stops is_digit t
    → span_number acc any (s ++ t)
      ≡ (if any || not (is_empty s) then some (number acc s) else none, t)
span_number_lem acc true [] [] h k = refl
span_number_lem acc false [] [] h k = refl
span_number_lem acc any [] (c ∷ t) h k = ground arith
span_number_lem acc any (c ∷ s) t h k =
    ground (arith, span_number_lem (acc * 10 + (c - b'0')) true s t h.1 k)

word_at_lem : (w t : Bytes) → IsWord w → Stops is_visible t → word_at (w ++ t) ≡ (between t, some w)
word_at_lem [] t h k = cc (h.1)
word_at_lem (c ∷ w) t h k = ground (arith, span_word_lem (c ∷ w) t h.0 k)

skip_visible : (w t : Bytes) → IsWord w → skip_space (w ++ t) ≡ w ++ t
skip_visible [] t h = cc (h.1)
skip_visible (c ∷ w) t h = ground arith

pub read_word-opened :
    (w t : Bytes)
    → IsWord w
    → Stops is_visible t
    → read_word (opened (w ++ t)) ≡ (between t, some w)
unfolding read_word
read_word-opened w t h k = ap word_at (skip_visible w t h) ∙ word_at_lem w t h k

pub read_word-between :
    (w t : Bytes)
    → IsWord w
    → Stops is_visible t
    → read_word (between (32 ∷ (w ++ t))) ≡ (between t, some w)
unfolding read_word
read_word-between w t h k = ap word_at (skip_visible w t h) ∙ word_at_lem w t h k

pub labels-Stops : (cs : List (Bytes × ℕ)) → Stops is_visible (labels cs)
labels-Stops [] = tt
labels-Stops (c ∷ cs) = refl

pub values-Stops :
    (cs : List (Bytes × ℕ)) → Stops is_visible (values cs) × Stops is_digit (values cs)
values-Stops [] = (tt, tt)
values-Stops (c ∷ cs) = (refl, refl)

number_from_lem :
    (n v : ℕ) (t : Bytes) → n ≡ v → v < 2 ^ 64 → number_from false (some n, t) ≡ (between t, some v)
number_from_lem n v t e l = ground arith

no_sign :
    (c : ℕ) (s : Bytes)
    → is_digit c ≡ true
    → (skip_sign (c ∷ s) ≡ c ∷ s) × (minus_front (c ∷ s) ≡ false)
no_sign c s h = (ground arith, ground arith)

number_at_lem :
    (s t : Bytes) (v : ℕ)
    → AllOf is_digit s
    → is_empty s ≡ false
    → number 0 s ≡ v
    → v < 2 ^ 64
    → Stops is_digit t
    → number_at (s ++ t) ≡ (between t, some v)
number_at_lem [] t v h n e l k = cc
number_at_lem (c ∷ s) t v h n e l k =
    let (skip, minus) = no_sign c (s ++ t) h.0 in
    ap (λ m. number_from m (span_number 0 false (skip_sign (c ∷ (s ++ t))))) minus
    ∙ ap (λ x. number_from false (span_number 0 false x)) skip
    ∙ ap (number_from false) (span_number_lem 0 false (c ∷ s) t h k)
    ∙ number_from_lem (number 0 (c ∷ s)) v t e l

digits_visible :
    (s t : Bytes) → AllOf is_digit s → is_empty s ≡ false → skip_space (s ++ t) ≡ s ++ t
digits_visible [] t h n = cc
digits_visible (c ∷ s) t h n = ground arith

pub read_number-show :
    (v : ℕ) (t : Bytes)
    → v < 2 ^ 64
    → Stops is_digit t
    → read_number (between (32 ∷ (show v ++ t))) ≡ (between t, some v)
unfolding read_number
read_number-show v t l k =
    let (all, ne) = show-AllOf v in
    ap number_at (digits_visible (show v) t all ne)
    ∙ number_at_lem (show v) t v all ne (show_lem v l) l k
