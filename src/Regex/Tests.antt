-- ===== src/Regex/Tests.antt =====
-- Expressions of the source at texts that can be followed by hand.
use lin_stat.Base.{◌≡◌, refl, [], ◌∷◌, none, some}
use lin_stat.Base.Text.{codes}
use lin_stat.Regex.{Regex, both, group, one, plus, optional, digit, is_alpha, regex_match}

abbrev number_unit : Regex
number_unit = both (group 1 (plus digit)) (optional (group 2 (plus (one is_alpha))))

number_unit_runs :
    regex_match number_unit (codes "12kB") ≡ some ((1, codes "12") ∷ (2, codes "kB") ∷ [])
unfolding regex_match
number_unit_runs = refl

number_alone_runs : regex_match number_unit (codes "12") ≡ some ((1, codes "12") ∷ [])
unfolding regex_match
number_alone_runs = refl

number_fails : regex_match number_unit (codes "12-") ≡ none
unfolding regex_match
number_fails = refl
