-- ===== src/Tables/Hwmon/Range.antt =====
-- statApp/src/tblHwmon.cpp: a temperature is an int, which int64_t and the shown 64 bits keep.
use lin_stat.Base.{
  ℕ, ◌^◌, ◌<◌, ◌≤◌, ◌≡◌, inl, inr, List, [], ◌∷◌, ◌++◌, none, some, arith, Option-cases, if_both,
}
use lin_stat.Base.Text.{Bytes, codes, bytes_eq}
use lin_stat.Base.Dict.{Dict, lookup, insert}
use lin_stat.Base.Int.{ℤ, pos, negsuc, pos_part, neg_part, bits_of_int, int_of_bits, int32, bits64}
use lin_stat.Base.Number.{stol}
use lin_stat.Regex.{regex_match, capture}
use lin_stat.Files.{Entry, read_file, path}
use lin_stat.Tables.Hwmon.{
  Sensors, Sys, sensor_expr, temp_at, set_temp_at, add_value, read_sensor, read_sensors,
}

-- What an int of 32 bits holds.
abbrev pub IsInt32 : ℤ → Type 0
IsInt32 z = (pos_part z < 2 ^ 31) × (neg_part z ≤ 2 ^ 31)

bits_of_int-below : (z : ℤ) → bits_of_int 32 z < 2 ^ 32
bits_of_int-below (pos n) = omega arith
bits_of_int-below (negsuc n) = omega arith

int_of_bits-IsInt32 : (b : ℕ) → b < 2 ^ 32 → IsInt32 (int_of_bits 32 b)
int_of_bits-IsInt32 b h = ground arith

int32-IsInt32 : (z : ℤ) → IsInt32 (int32 z)
int32-IsInt32 z = int_of_bits-IsInt32 (bits_of_int 32 z) (bits_of_int-below z)

-- The shown bits stand for the temperature itself.
pub int_of_bits-bits64 : (t : ℤ) → IsInt32 t → int_of_bits 64 (bits64 t) ≡ t
int_of_bits-bits64 (pos n) (l, h) = ground arith
int_of_bits-bits64 (negsuc n) (l, h) = ground arith

abbrev pub AllInt32 : Dict (Bytes × ℤ) → Type 0
AllInt32 [] = Unit {0}
AllInt32 ((name, (label, t)) ∷ ts) = IsInt32 t × AllInt32 ts

insert-AllInt32 :
    (k label : Bytes) (t : ℤ) (ts : Dict (Bytes × ℤ))
    → IsInt32 t
    → AllInt32 ts
    → AllInt32 (insert k (label, t) ts)
unfolding insert
insert-AllInt32 k label t [] h a = (h, tt)
insert-AllInt32 k label t ((j, (other, u)) ∷ ts) h (b, a) =
    ground (arith, insert-AllInt32 k label t ts h a)

lookup-IsInt32 :
    (k : Bytes) (ts : Dict (Bytes × ℤ)) (v : Bytes × ℤ)
    → AllInt32 ts
    → lookup k ts ≡ some v
    → IsInt32 v.1
unfolding lookup
lookup-IsInt32 k [] v a e = cc
lookup-IsInt32 k ((j, (label, t)) ∷ ts) v (h, a) e = ground (arith, lookup-IsInt32 k ts v a)

temp_at-IsInt32 : (k : Bytes) (s : Sensors) → AllInt32 s.temperatures → IsInt32 (temp_at k s).1
unfolding temp_at
temp_at-IsInt32 k s a = elim (Option-cases (lookup k s.temperatures)) [
  | inl n ↦ rw n (omega arith, omega arith)
  | inr (v, e) ↦ rw e (lookup-IsInt32 k s.temperatures v a e)
]

add_value-AllInt32 :
    (kind k param value : Bytes) (s : Sensors)
    → AllInt32 s.temperatures
    → AllInt32 (add_value kind k param value s).temperatures
unfolding add_value
add_value-AllInt32 kind k param value s a =
    if_both Kept (bytes_eq kind (codes "temp"))
      (if_both Kept (bytes_eq param (codes "label"))
        (insert-AllInt32 k value (temp_at k s).1 s.temperatures (temp_at-IsInt32 k s a) a)
        (if_both Kept (bytes_eq param (codes "input")) set_input a))
      (if_both Kept (bytes_eq kind (codes "fan"))
        (if_both Kept (bytes_eq param (codes "input")) a (
          if_both Kept (bytes_eq param (codes "label")) a
            (if_both Kept (bytes_eq param (codes "target")) a a)))
        a)
  where
    Kept : Sensors → Type 0
    Kept r = AllInt32 r.temperatures

    set_input :
        Kept
          (elim (stol 10 value) [ none ↦ s | some v ↦ set_temp_at k ((temp_at k s).0, int32 v) s ])
    set_input = elim (Option-cases (stol 10 value)) [
      | inl n ↦ rw n a
      | inr (v, e) ↦
          rw e (insert-AllInt32 k (temp_at k s).0 (int32 v) s.temperatures (int32-IsInt32 v) a)
    ]

read_sensor-AllInt32 :
    (sys : Sys) (dir : Bytes) (e : Entry) (s : Sensors)
    → AllInt32 s.temperatures
    → AllInt32 (read_sensor sys dir e s).temperatures
unfolding read_sensor
read_sensor-AllInt32 sys dir e s a = elim (Option-cases (regex_match sensor_expr e.filename)) [
  | inl n ↦ rw (n, read_sensor) a
  | inr (m, f) ↦ elim (Option-cases (read_file (sys.contents (path dir e)))) [
    | inl n ↦ rw (f, n, read_sensor) a
    | inr (value, g) ↦
        rw (f, g, read_sensor)
          (add_value-AllInt32 (capture 1 m) (capture 1 m ++ capture 2 m) (capture 3 m) value s a)
  ]
]

pub read_sensors-AllInt32 :
    (sys : Sys) (dir : Bytes) (es : List Entry) (s : Sensors)
    → AllInt32 s.temperatures
    → AllInt32 (read_sensors sys dir es s).temperatures
unfolding read_sensors
read_sensors-AllInt32 sys dir [] s a = a
read_sensors-AllInt32 sys dir (e ∷ es) s a =
    read_sensors-AllInt32 sys dir es (read_sensor sys dir e s) (read_sensor-AllInt32 sys dir e s a)
