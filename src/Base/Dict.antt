-- ===== src/Base/Dict.antt =====
-- std::map with std::string keys: an association list that insertion keeps in the order of the
-- keys, which is the order of iteration.
use mathlib.Core.Path.{◌≡◌, refl, sym, ◌∙◌}
use mathlib.Core.Logic.{◌⊎◌, inl, inr}
use mathlib.Core.Bool.{true, false}
use mathlib.Core.List.{List, [], ◌∷◌}
use mathlib.Core.Option.{Option, none, some, some-injective}
use native.Mathlib.Omega.{arith}
use lin_stat.Base.Tests.{if◌then◌else◌, Bool-cases}
use lin_stat.Base.Text.{Bytes, bytes_eq, bytes_lt, bytes_eq_iff}

abbrev pub Dict {ℓ} : Type ℓ → Type ℓ
Dict V = List (Bytes × V)

module _ {ℓ} {V : Type ℓ} where
  unfoldable pub lookup : Bytes → Dict V → Option V
  lookup k [] = none
  lookup k ((j, v) ∷ m) = if bytes_eq j k then some v else lookup k m

  -- m[k] = v
  unfoldable pub insert : Bytes → V → Dict V → Dict V
  insert k v [] = (k, v) ∷ []
  insert k v ((j, w) ∷ m) =
      if bytes_eq j k
      then (k, v) ∷ m
      else if bytes_lt k j
      then (k, v) ∷ (j, w) ∷ m
      else (j, w) ∷ insert k v m

  pub lookup-insert :
      (k j : Bytes) (v : V) (m : Dict V)
      → lookup j (insert k v m) ≡ (if bytes_eq k j then some v else lookup j m)
  unfolding lookup insert
  lookup-insert k j v [] = refl
  lookup-insert k j v ((i, w) ∷ m) =
      ground (arith, bytes_eq_iff k j, bytes_eq_iff i k, bytes_eq_iff i j, lookup-insert k j v m)

  -- What is found after an insertion is the value inserted, or was there before.
  pub lookup-insert_cases :
      (k j : Bytes) (v w : V) (m : Dict V)
      → lookup j (insert k v m) ≡ some w
      → ((bytes_eq k j ≡ true) × (w ≡ v)) ⊎ ((bytes_eq k j ≡ false) × (lookup j m ≡ some w))
  lookup-insert_cases k j v w m e = elim (Bool-cases (bytes_eq k j)) [
    | inl b ↦ inl (b, some-injective w v (sym e ∙ lookup-insert k j v m ∙ rw b refl))
    | inr b ↦ inr (b, rw b at (sym (lookup-insert k j v m) ∙ e))
  ]
