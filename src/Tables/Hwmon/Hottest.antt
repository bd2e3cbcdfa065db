-- ===== src/Tables/Hwmon/Hottest.antt =====
-- statApp/src/tblHwmon.cpp: the hottest temperature, and the numbers of fans.
use lin_stat.Base.{
  ℕ, ◌+◌, ◌≤◌, ◌≡◌, refl, sym, subst, ◌∙◌, ◌⊎◌, inl, inr, Bool, true, false, List, [], ◌∷◌, Option,
  none, some, if◌then◌else◌, length, arith, Bool-cases, Option-cases, if_both,
}
use lin_stat.Base.Text.{Bytes, codes}
use lin_stat.Base.Dict.{lookup, lookup-insert}
use lin_stat.Base.Int.{◌≤ℤ◌, bits64, int_of_bits}
use lin_stat.Files.{Entry, next_entry, dirname, path}
use lin_stat.Table.{
  Value, int, text, no_value, Transaction, begin, set_value, set_int, set_text, set_nothing,
}
use lin_stat.Tables.Hwmon.{Sensors, Sys, no_sensors, read_sensors}
use lin_stat.Tables.Hwmon.Range.{AllInt32, int_of_bits-bits64, read_sensors-AllInt32}
use lin_stat.Tables.Hwmon.Publish.{
  Mon, publish_temps, publish, device_name, read_devices, set_max, finish, begun, ended,
  update_from, update,
}
use lin_stat.Tables.Hwmon.Below.{
  temp_key, Below, Below-set, BelowMax, FansAdd, publish_temps-fans, publish_fans-fans,
  publish_temps-BelowMax, publish_fans-BelowMax,
}

module _ {F : Type 0} where
  record Inv (m : Mon F) : Type 0 where
    below : BelowMax m
    fans : FansAdd m

  publish-Inv :
      (dev : Bytes) (s : Sensors) (m : Mon F)
      → AllInt32 s.temperatures
      → Inv m
      → Inv (publish dev s m)
  unfolding publish
  publish-Inv dev s m is v =
      let warm = publish_temps dev s.temperatures [] (record m { seen = dev ∷ m.seen }) in
      let started = record warm { num = warm.num + length s.fans } in
      record {
        below = publish_fans-BelowMax dev s.fans [] started (
            publish_temps-BelowMax dev s.temperatures [] (record m { seen = dev ∷ m.seen }) is
              v.below);
        fans = omega (
          arith,
          publish_fans-fans dev s.fans [] started,
          publish_temps-fans dev s.temperatures [] (record m { seen = dev ∷ m.seen }),
          v.fans,
        );
      }

  read_devices-Inv :
      (sys : Sys) (base : Bytes) (es : List Entry) (m : Mon F)
      → Inv m
      → Inv (read_devices sys base es m).0
  unfolding read_devices
  read_devices-Inv sys base [] m v = v
  read_devices-Inv sys base (e ∷ es) m v =
      elim (Option-cases (device_name sys base (next_entry e) m.seen)) [
        | inl n ↦ rw (n, read_devices) (read_devices-Inv sys base es m v)
        | inr (dev, d) ↦ elim (Option-cases (sys.listing (dirname (path base e)))) [
          | inl n ↦ rw (d, n, read_devices) v
          | inr (files, f) ↦
              rw (d, f, read_devices)
                (read_devices-Inv sys base es
                  (publish dev (read_sensors sys (path base e) files no_sensors) m)
                  (publish-Inv dev (read_sensors sys (path base e) files no_sensors) m
                    (read_sensors-AllInt32 sys (path base e) files no_sensors tt) v))
        ]
      ]

  -- What a table shows of temperatures, read as signed numbers of 64 bits: none, with no largest, or
  -- a largest with none above it.
  abbrev pub Hottest : Transaction F → Type 0
  Hottest tr =
      ((lookup (codes "temp_max") tr.next ≡ some no_value)
        × ((k : Bytes) → lookup (temp_key k) tr.next ≡ none))
      ⊎ ((most : ℕ) × (lookup (codes "temp_max") tr.next ≡ some (int most (codes "mC")))
          × ((k : Bytes) (w : Value F)
              → lookup (temp_key k) tr.next ≡ some w
              → (t : ℕ) × (w ≡ int t (codes "mC")) × (int_of_bits 64 t ≤ℤ int_of_bits 64 most)))

  abbrev pub Fans : Transaction F → Type 0
  Fans tr =
      (num : ℕ) × (turning : ℕ) × (stuck : ℕ) × (lookup (codes "fans_num") tr.next
        ≡ some (int num []))
      × (lookup (codes "fans_turning") tr.next ≡ some (int turning []))
      × (lookup (codes "fans_stuck") tr.next ≡ some (int stuck []))
      × (turning + stuck ≤ num)

  set_max-Below : (m : Mon F) → BelowMax m → Below (set_max m) m.have_max m.temp_max
  unfolding set_max set_int set_text set_nothing
  set_max-Below m b =
      if_both (λ (tr : Transaction F). Below tr m.have_max m.temp_max) m.have_max
        (Below-set (codes "name_max") (text m.name_max)
          (set_int (codes "temp_max") (bits64 m.temp_max) (codes "mC") m.tr) m.have_max m.temp_max
          (omega arith)
          (Below-set (codes "temp_max") (int (bits64 m.temp_max) (codes "mC")) m.tr m.have_max
            m.temp_max (omega arith) b))
        (Below-set (codes "name_max") no_value (set_nothing (codes "temp_max") m.tr) m.have_max
          m.temp_max (omega arith)
          (Below-set (codes "temp_max") no_value m.tr m.have_max m.temp_max (omega arith) b))

  finish-Below : (m : Mon F) → BelowMax m → Below (finish m) m.have_max m.temp_max
  unfolding finish set_int
  finish-Below m b = Below-set _ _ _ _ _ (omega arith) (
      Below-set _ _ _ _ _ (omega arith)
        (Below-set _ _ (set_max m) _ _ (omega arith) (set_max-Below m b)))

  temp_max-finish :
      (m : Mon F)
      → lookup (codes "temp_max") (finish m).next
        ≡ (if m.have_max then some (int (bits64 m.temp_max) (codes "mC")) else some no_value)
  unfolding finish set_max set_int set_text set_nothing set_value
  temp_max-finish m = elim (Bool-cases m.have_max) [
    | inl h ↦ rw h (simp lookup-insert)
    | inr h ↦ rw h (simp lookup-insert)
  ]

  finish-Fans : (m : Mon F) → FansAdd m → Fans (finish m)
  unfolding finish set_int set_value
  finish-Fans m h =
      (m.num, m.turning, m.stuck, simp lookup-insert, simp lookup-insert, simp lookup-insert, h)

  finish-Hottest : (m : Mon F) → BelowMax m → Hottest (finish m)
  finish-Hottest m b = elim (Bool-cases m.have_max) [
    | inl h ↦ inr (bits64 m.temp_max, temp_max-finish m ∙ rw h refl, λ k w e. shown m b k w e)
    | inr h ↦ inl (
      temp_max-finish m ∙ rw h refl,
      λ k. none_below m b h k (lookup (temp_key k) (finish m).next) refl,
    )
  ]
    where
      shown :
          (m : Mon F)
          → BelowMax m
          → (k : Bytes) (w : Value F) → lookup (temp_key k) (finish m).next ≡ some w
          → (t : ℕ) × (w ≡ int t (codes "mC"))
            × (int_of_bits 64 t ≤ℤ int_of_bits 64 (bits64 m.temp_max))
      shown m b k w e =
          let (had, (t, f, i, below)) = (finish-Below m b).at k w e in
          (
            bits64 t,
            f,
            subst (λ u. u ≤ℤ int_of_bits 64 (bits64 m.temp_max)) (sym (int_of_bits-bits64 t i))
                (subst (λ u. t ≤ℤ u) (sym (int_of_bits-bits64 m.temp_max b.small)) below),
          )

      none_below :
          (m : Mon F)
          → BelowMax m
          → m.have_max ≡ false
          → (k : Bytes) (o : Option (Value F)) → lookup (temp_key k) (finish m).next ≡ o
          → lookup (temp_key k) (finish m).next ≡ none
      none_below m b h k none e = e
      none_below m b h k (some w) e = cc (((finish-Below m b).at k w e).0)

  ended_lem :
      (r : Mon F × Bool) → Inv r.0 → (ended r).1 ≡ true → Hottest (ended r).0 × Fans (ended r).0
  ended_lem (m, true) v e = (finish-Hottest m v.below, finish-Fans m v.fans)
  ended_lem (m, false) v e = cc

  update_from_lem :
      (sys : Sys) (base : Bytes) (o : Option (List Entry)) (now : ℕ)
      → (update_from {F = F} sys base o (begin now)).1 ≡ true
      → Hottest (update_from {F = F} sys base o (begin now)).0
        × Fans (update_from {F = F} sys base o (begin now)).0
  unfolding update_from begin lookup
  update_from_lem sys base none now e = cc
  update_from_lem sys base (some es) now e =
      ended_lem (read_devices sys base es (begun (begin now)))
        (read_devices-Inv sys base es (begun (begin now)) (record {
          below = record { small = (omega arith, omega arith); at = λ k w h. cc };
          fans = omega arith;
        }))
        e

  -- Whatever directories and files there are: if an update returns, no temperature that the table
  -- then shows, under whatever name, is above the `temp_max` that it shows, as signed numbers, or
  -- there is none and `temp_max` has no value; and at most as many fans turn or are stuck as there are fans.
  pub update_lem :
      (sys : Sys) (base : Bytes) (now : ℕ)
      → (update {F = F} sys base (begin now)).1 ≡ true
      → Hottest (update {F = F} sys base (begin now)).0
        × Fans (update {F = F} sys base (begin now)).0
  unfolding update
  update_lem sys base now e = update_from_lem sys base (sys.listing (dirname base)) now e
