-- ===== src/Tables/Hwmon/Below.antt =====
-- statApp/src/tblHwmon.cpp: what each loop keeps: the temperatures that are published, and the numbers
-- of fans.
use lin_stat.Base.{
  ℕ, ◌+◌, ◌≤◌, ◌≡◌, refl, sym, ap, ◌∙◌, ◌≢◌, inl, inr, Bool, true, not, ◌||◌, if_both, [], ◌∷◌,
  ◌++◌, some, length, arith,
}
use lin_stat.Base.Text.{Bytes, codes, bytes_eq, bytes_eq_iff}
use lin_stat.Base.Dict.{Dict, lookup, lookup-insert_cases}
use lin_stat.Base.Int.{ℤ, ◌≤ℤ◌, ltb_ℤ, bits64}
use lin_stat.Table.{Value, int, Transaction, set_value, set_int, set_text}
use lin_stat.Tables.Hwmon.{Fan}
use lin_stat.Tables.Hwmon.Range.{IsInt32, AllInt32}
use lin_stat.Tables.Hwmon.Publish.{
  Mon, label_or, label_count, counted, full_name, numbered, publish_temp, publish_temps,
  publish_fan, publish_fans,
}

abbrev pub last : Bytes → ℕ
last [] = 0
last (c ∷ []) = c
last (c ∷ d ∷ s) = last (d ∷ s)

last-append : (a : Bytes) (c : ℕ) (s : Bytes) → last (a ++ c ∷ s) ≡ last (c ∷ s)
last-append [] c s = refl
last-append (b ∷ []) c s = refl
last-append (b ∷ d ∷ a) c s = last-append (d ∷ a) c s

abbrev pub temp_key : Bytes → Bytes
temp_key k = k ++ codes ".temp"

-- A name of a temperature ends in "p".
temp_last : (k name : Bytes) → bytes_eq name (temp_key k) ≡ true → last name ≡ b'p'
temp_last k name e =
    ap last ((bytes_eq_iff name (temp_key k)).0 e) ∙ last-append k b'.' (codes "temp")

ends_otherwise : (a : Bytes) (c : ℕ) (s : Bytes) → last (c ∷ s) ≢ b'p' → last (a ++ c ∷ s) ≢ b'p'
ends_otherwise a c s n e = n (sym (last-append a c s) ∙ e)

module _ {F : Type 0} where
  -- Every temperature that is published is an int, and at most the largest so far, an int too.
  pub record Below (tr : Transaction F) (have : Bool) (most : ℤ) : Type 0 where
    pub small : IsInt32 most
    pub at :
        (k : Bytes) (w : Value F)
        → lookup (temp_key k) tr.next ≡ some w
        → (have ≡ true) × ((t : ℤ) × (w ≡ int (bits64 t) (codes "mC")) × IsInt32 t × (t ≤ℤ most))

  pub Below-set :
      (name : Bytes) (v : Value F) (tr : Transaction F) (have : Bool) (most : ℤ)
      → last name ≢ b'p'
      → Below tr have most
      → Below (set_value name v tr) have most
  unfolding set_value
  Below-set name v tr have most n b = record {
    small = b.small;
    at = λ k w e. elim (lookup-insert_cases name (temp_key k) v w tr.next e) [
      | inl (same, f) ↦ absurd (n (temp_last k name same))
      | inr (other, f) ↦ b.at k w f
    ];
  }

  Below-temp :
      (name : Bytes) (t : ℤ) (tr : Transaction F) (have : Bool) (most most' : ℤ)
      → (have ≡ true → most ≤ℤ most')
      → t ≤ℤ most'
      → IsInt32 t
      → IsInt32 most'
      → Below tr have most
      → Below (set_value (temp_key name) (int (bits64 t) (codes "mC")) tr) true most'
  unfolding set_value
  Below-temp name t tr have most most' grow h is_int small b = record {
    small = small;
    at = λ k w e.
        elim (lookup-insert_cases (temp_key name) (temp_key k) (int (bits64 t) (codes "mC")) w
          tr.next e) [
            | inl (same, f) ↦ (refl, (t, f, is_int, h))
            | inr (other, f) ↦
                let (had, (u, g, i, l)) = b.at k w f in (refl, (u, g, i, omega (arith, grow had)))
          ];
  }

  abbrev pub BelowMax : Mon F → Type 0
  BelowMax m = Below m.tr m.have_max m.temp_max

  publish_temp-BelowMax :
      (dev label : Bytes) (count : ℕ) (t : ℤ) (m : Mon F)
      → IsInt32 t
      → BelowMax m
      → BelowMax (publish_temp dev label count t m)
  unfolding publish_temp set_int set_text
  publish_temp-BelowMax dev label count t m i b =
      let named =
        set_text (full_name dev label count ++ codes ".label") (numbered label count) m.tr in
      Below-temp (full_name dev label count) t named m.have_max m.temp_max _ (λ e. ground arith)
        (ground arith) i (if_both IsInt32 (not m.have_max || ltb_ℤ m.temp_max t) i b.small)
        (Below-set _ _ m.tr m.have_max m.temp_max
          (ends_otherwise (full_name dev label count) b'.' (codes "label") (omega arith)) b)

  pub publish_temps-BelowMax :
      (dev : Bytes) (ts : Dict (Bytes × ℤ)) (counts : Dict ℕ) (m : Mon F)
      → AllInt32 ts
      → BelowMax m
      → BelowMax (publish_temps dev ts counts m)
  unfolding publish_temps
  publish_temps-BelowMax dev [] counts m is b = b
  publish_temps-BelowMax dev ((name, (label, t)) ∷ ts) counts m (i, is) b =
      let shown = label_or label name in
      let n = label_count shown counts in
      publish_temps-BelowMax dev ts (counted shown counts) (publish_temp dev shown n t m) is
        (publish_temp-BelowMax dev shown n t m i b)

  publish_fan-BelowMax :
      (dev label : Bytes) (count : ℕ) (f : Fan) (m : Mon F)
      → BelowMax m
      → BelowMax (publish_fan dev label count f m)
  unfolding publish_fan set_int set_text
  publish_fan-BelowMax dev label count f m b =
      let name = full_name dev label count in
      let named = set_text (name ++ codes ".label") (numbered label count) m.tr in
      let turned = set_int (name ++ codes ".input") (bits64 f.input) (codes "rpm") named in
      Below-set _ _ turned m.have_max m.temp_max
        (ends_otherwise name b'.' (codes "target") (omega arith))
        (Below-set _ _ named m.have_max m.temp_max
          (ends_otherwise name b'.' (codes "input") (omega arith))
          (Below-set _ _ m.tr m.have_max m.temp_max
            (ends_otherwise name b'.' (codes "label") (omega arith)) b))

  pub publish_fans-BelowMax :
      (dev : Bytes) (fs : Dict Fan) (counts : Dict ℕ) (m : Mon F)
      → BelowMax m
      → BelowMax (publish_fans dev fs counts m)
  unfolding publish_fans
  publish_fans-BelowMax dev [] counts m b = b
  publish_fans-BelowMax dev ((name, f) ∷ fs) counts m b =
      let shown = label_or f.label name in
      let n = label_count shown counts in
      publish_fans-BelowMax dev fs (counted shown counts) (publish_fan dev shown n f m)
        (publish_fan-BelowMax dev shown n f m b)

  -- No more fans turn or are stuck than there are.
  abbrev pub FansAdd : Mon F → Type 0
  FansAdd m = m.turning + m.stuck ≤ m.num

  pub publish_temps-fans :
      (dev : Bytes) (ts : Dict (Bytes × ℤ)) (counts : Dict ℕ) (m : Mon F)
      → ((publish_temps dev ts counts m).turning ≡ m.turning)
        × ((publish_temps dev ts counts m).stuck ≡ m.stuck)
        × ((publish_temps dev ts counts m).num ≡ m.num)
  unfolding publish_temps publish_temp
  publish_temps-fans dev [] counts m = (refl, refl, refl)
  publish_temps-fans dev ((name, (label, t)) ∷ ts) counts m =
      publish_temps-fans dev ts _
        (publish_temp dev (label_or label name) (label_count (label_or label name) counts) t m)

  fan_adds :
      (dev label : Bytes) (count : ℕ) (f : Fan) (m : Mon F)
      → (publish_fan dev label count f m).turning + (publish_fan dev label count f m).stuck
        ≤ m.turning + m.stuck + 1
  unfolding publish_fan
  fan_adds dev label count f m = ground arith

  fan_num :
      (dev label : Bytes) (count : ℕ) (f : Fan) (m : Mon F)
      → (publish_fan dev label count f m).num ≡ m.num
  unfolding publish_fan
  fan_num dev label count f m = refl

  pub publish_fans-fans :
      (dev : Bytes) (fs : Dict Fan) (counts : Dict ℕ) (m : Mon F)
      → ((publish_fans dev fs counts m).turning + (publish_fans dev fs counts m).stuck
          ≤ m.turning + m.stuck + length fs)
        × ((publish_fans dev fs counts m).num ≡ m.num)
  unfolding publish_fans
  publish_fans-fans dev [] counts m = (omega arith, refl)
  publish_fans-fans dev ((name, f) ∷ fs) counts m =
      let shown = label_or f.label name in
      let n = label_count shown counts in
      let (below, num) =
        publish_fans-fans dev fs (counted shown counts) (publish_fan dev shown n f m) in
      (omega (arith, fan_adds dev shown n f m), num ∙ fan_num dev shown n f m)
