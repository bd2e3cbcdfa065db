-- ===== src/TimeDelta/Digits.antt =====
-- statApp/src/devtdelta.cpp: a printed number consists of digits.
use lin_stat.Base.{
  ℕ, zero, suc, ◌+◌, ◌/◌, ◌%◌, ◌≡◌, refl, false, [], ◌∷◌, arith, ◌==◌, if_both, is_empty,
}
use lin_stat.Base.Text.{Bytes}
use lin_stat.Base.Parse.{is_digit}
use lin_stat.Regex.Classes.{AllOf}
use lin_stat.TimeDelta.{digits, show}

digits-AllOf : (k n : ℕ) (acc : Bytes) → AllOf is_digit acc → AllOf is_digit (digits k n acc)
unfolding digits
digits-AllOf zero n acc h = h
digits-AllOf (suc k) n acc h =
    let acc' : Bytes = (b'0' + n % 10) ∷ acc in
    let h' : AllOf is_digit acc' = (ground arith, h) in
    if_both (AllOf is_digit) (n / 10 == 0) h' (digits-AllOf k (n / 10) acc' h')

digits_ne : (k n : ℕ) (acc : Bytes) → is_empty acc ≡ false → is_empty (digits k n acc) ≡ false
unfolding digits
digits_ne zero n acc h = h
digits_ne (suc k) n acc h =
    if_both (λ (s : Bytes). is_empty s ≡ false) (n / 10 == 0) refl
      (digits_ne k (n / 10) ((b'0' + n % 10) ∷ acc) refl)

pub show-AllOf : (n : ℕ) → AllOf is_digit (show n) × (is_empty (show n) ≡ false)
unfolding show
show-AllOf n = (
  digits-AllOf 20 n [] tt,
  if_both (λ (s : Bytes). is_empty s ≡ false) (n / 10 == 0) refl
      (digits_ne 19 (n / 10) ((b'0' + n % 10) ∷ []) refl),
)
